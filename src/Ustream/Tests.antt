-- ===== src/Ustream/Tests.antt =====
-- Runs of the parser, and its theorems at concrete inputs.
use ledger_ambire_signer.Base.{
  ℕ, ◌≡◌, refl, arith, true, false, Option, none, some, List, [], ◌∷◌, ◌++◌, take, drop, replicate,
  inl,
}
use ledger_ambire_signer.Ustream.State.{Context, Content, Int256, Host, Status, TxType}
use ledger_ambire_signer.Base.Memory.{copy_at}
use ledger_ambire_signer.Rlp.{rlp_can_decode, rlp_decode_length}
use ledger_ambire_signer.Ustream.{
  process_tx, continue_tx, process_tx_internal, tx_round, parsing_is_done, finish_tx, parse_rlp,
  read_header, read_header_byte, start_field, field_round, process_tx_field, process_field,
}
use ledger_ambire_signer.Ustream.Fields.{
  read_tx_byte, process_content, process_number, process_to, process_data, process_and_discard,
  process_v, take_field, copy_tx_data, finish_field, keep_selector, store,
}
use ledger_ambire_signer.Ustream.Custom.{
  custom_processor, is_rlp_data_field, start_data, skip_selector, custom_block, take_block,
  handle_block,
}
use ledger_ambire_signer.Ustream.Commands.{IsIdle, Consumed, Command, process_tx-Consumed}
use ledger_ambire_signer.Ustream.Sessions.{Session, Absorbed, Session-hashed}

-- A hash that takes everything, no plugin, contract data that is displayed, and a queue that takes
-- every transaction.
abbrev host : Host
host = record {
  hash_ok = λ absorbed bytes. true;
  v_size = 8;
  u64_from_be = λ bytes n. 0;
  tx_ctx_init = λ calldata to amount chain_id. true;
  contract_details = true;
  data_allowed = true;
  called_from_swap = false;
  result_error = 0;
  result_unavailable = 1;
  result_unsuccessful = 2;
  result_successful = 3;
  plugin_init = λ c. 1;
  plugin_provide = λ c size. true;
}

abbrev zero_number : Int256
zero_number = record { value = replicate 32 0; len = 0 }

abbrev fresh : Context
fresh = record {
  current_field = 1;
  current_field_length = 0;
  current_field_pos = 0;
  current_field_is_list = false;
  processing_field = false;
  field_single_byte = false;
  data_length = 0;
  rlp_buffer = replicate 5 0;
  rlp_buffer_pos = 0;
  payload = [];
  work_pos = 0;
  command_length = 0;
  content = record {
    nonce = zero_number;
    startgas = zero_number;
    gasprice = zero_number;
    value = zero_number;
    chain_id = zero_number;
    destination = replicate 20 0;
    destination_length = 0;
    v = replicate 8 0;
    v_length = 0;
    data_present = false;
    swap_tx_had_calldata = false;
    token = record {
      data_bytes = replicate 32 0;
      field_index = 0;
      field_offset = 0;
      plugin_status = 0;
    };
  };
  tx_type = TxType.legacy;
  store_calldata = false;
  selector_bytes = replicate 4 0;
  hashed = [];
  parked = none;
  heap = [];
}

fresh-IsIdle : IsIdle host fresh
fresh-IsIdle = record {
  sizes = omega arith;
  header = record { rlp_size = refl; rlp_room = omega arith; undecided = inl refl };
  in_field = λ e. omega arith;
  not_single = λ e. refl;
  closed = λ e. refl;
  within = omega arith;
}

-- A legacy transaction: nonce 9, gas price 0x0400, gas limit 0x5208, no recipient, value 1, no
-- data, v 1, and empty r and s.
abbrev transaction : List ℕ
transaction =
    0xcd ∷ 0x09 ∷ 0x82 ∷ 0x04 ∷ 0x00 ∷ 0x82 ∷ 0x52 ∷ 0x08 ∷ 0x80 ∷ 0x01 ∷ 0x80 ∷ 0x01 ∷ 0x80 ∷ 0x80
    ∷ []

process_tx-Consumed_example :
    (s : Status) × (c' : Context) × (process_tx host 224 fresh transaction ≡ some (s, c'))
    × Consumed host fresh transaction s c'
process_tx-Consumed_example =
    process_tx-Consumed host fresh transaction 224 (omega arith) fresh-IsIdle (omega arith)

-- What a reader of a run sees.
abbrev Outcome : Type 0
Outcome = Status × List ℕ × List ℕ × ℕ

abbrev outcome : Option (Status × Context) → Option Outcome
outcome none = none
outcome (some (s, c)) = some (s, c.hashed, take 2 c.content.gasprice.value, c.content.gasprice.len)

-- Whole, and cut inside the gas price: the parser finishes, or asks for more.
whole_run :
    outcome (process_tx host 224 fresh transaction)
    ≡ some (Status.finished, transaction, 0x04 ∷ 0x00 ∷ [], 2)
unfolding process_tx process_tx_internal tx_round parsing_is_done finish_tx parse_rlp read_header
    read_header_byte read_tx_byte start_field field_round process_tx_field process_field
    process_content process_number process_to process_data process_and_discard process_v take_field
    copy_tx_data finish_field keep_selector store rlp_can_decode rlp_decode_length copy_at
    custom_processor is_rlp_data_field
whole_run = refl

-- A legacy transaction with five bytes of call data: the selector is displayed, then the last byte.
abbrev call : List ℕ
call =
    0xe2 ∷ 0x09 ∷ 0x01 ∷ 0x01 ∷ 0x94 ∷ replicate 20 0x11
    ++ (0x80 ∷ 0x85 ∷ 0xa9 ∷ 0x05 ∷ 0x9c ∷ 0xbb ∷ 0x07 ∷ 0x01 ∷ 0x80 ∷ 0x80 ∷ [])

abbrev fuel : ℕ
fuel = 532

abbrev small : ℕ → Int256
small n = record { value = n ∷ replicate 31 0; len = 1 }

abbrev token_of : List ℕ → ℕ → ℕ → Content → Content
token_of bytes index status c = record c {
  data_present = true;
  swap_tx_had_calldata = true;
  token = record {
    data_bytes = bytes;
    field_index = index;
    field_offset = 0;
    plugin_status = status;
  };
}

-- Cut within the recipient.
abbrev first_part : Context
first_part = record fresh {
  current_field = 5;
  current_field_length = 20;
  current_field_pos = 5;
  processing_field = true;
  data_length = 34;
  rlp_buffer = 148 ∷ replicate 4 0;
  payload = take 10 call;
  work_pos = 10;
  content = record fresh.content {
    nonce = small 9;
    startgas = small 1;
    gasprice = small 1;
    destination = replicate 5 17 ++ replicate 15 0;
  };
  hashed = take 10 call;
}

abbrev selector_shown : Context
selector_shown = record first_part {
  current_field = 7;
  current_field_length = 5;
  current_field_pos = 4;
  rlp_buffer = 133 ∷ replicate 4 0;
  payload = drop 10 call;
  work_pos = 21;
  command_length = 4;
  content =
      token_of (0xa9 ∷ 0x05 ∷ 0x9c ∷ 0xbb ∷ replicate 28 0) 0 1
        (record first_part.content { destination = replicate 20 17; destination_length = 20 });
  hashed = take 31 call;
}

abbrev byte_shown : Context
byte_shown = record selector_shown {
  current_field = 8;
  current_field_pos = 5;
  processing_field = false;
  work_pos = 22;
  command_length = 3;
  content = token_of (7 ∷ 0x05 ∷ 0x9c ∷ 0xbb ∷ replicate 28 0) 1 1 selector_shown.content;
  hashed = take 32 call;
}

abbrev call_end : Context
call_end = record byte_shown {
  current_field = 11;
  current_field_length = 0;
  current_field_pos = 0;
  rlp_buffer = 128 ∷ replicate 4 0;
  work_pos = 25;
  command_length = 0;
  content = record byte_shown.content { v = 1 ∷ replicate 7 0; v_length = 1 };
  hashed = call;
}

cut_run : process_tx host fuel fresh (take 10 call) ≡ some (Status.processing, first_part)
unfolding process_tx continue_tx process_tx_internal tx_round parsing_is_done finish_tx parse_rlp
    read_header read_header_byte read_tx_byte start_field field_round process_tx_field process_field
    process_content process_number process_to process_data process_and_discard process_v take_field
    copy_tx_data finish_field keep_selector store rlp_can_decode rlp_decode_length copy_at
    custom_processor is_rlp_data_field start_data skip_selector custom_block take_block handle_block
cut_run = refl

selector_run :
    process_tx host fuel first_part (drop 10 call) ≡ some (Status.suspended, selector_shown)
unfolding process_tx continue_tx process_tx_internal tx_round parsing_is_done finish_tx parse_rlp
    read_header read_header_byte read_tx_byte start_field field_round process_tx_field process_field
    process_content process_number process_to process_data process_and_discard process_v take_field
    copy_tx_data finish_field keep_selector store rlp_can_decode rlp_decode_length copy_at
    custom_processor is_rlp_data_field start_data skip_selector custom_block take_block handle_block
selector_run = refl

byte_run : continue_tx host fuel selector_shown ≡ some (Status.suspended, byte_shown)
unfolding process_tx continue_tx process_tx_internal tx_round parsing_is_done finish_tx parse_rlp
    read_header read_header_byte read_tx_byte start_field field_round process_tx_field process_field
    process_content process_number process_to process_data process_and_discard process_v take_field
    copy_tx_data finish_field keep_selector store rlp_can_decode rlp_decode_length copy_at
    custom_processor is_rlp_data_field start_data skip_selector custom_block take_block handle_block
byte_run = refl

end_run : continue_tx host fuel byte_shown ≡ some (Status.finished, call_end)
unfolding process_tx continue_tx process_tx_internal tx_round parsing_is_done finish_tx parse_rlp
    read_header read_header_byte read_tx_byte start_field field_round process_tx_field process_field
    process_content process_number process_to process_data process_and_discard process_v take_field
    copy_tx_data finish_field keep_selector store rlp_can_decode rlp_decode_length copy_at
    custom_processor is_rlp_data_field start_data skip_selector custom_block take_block handle_block
end_run = refl

call-Session : Session host fuel fresh (take 10 call ∷ drop 10 call ∷ []) Status.finished call_end
unfolding parsing_is_done
call-Session = Session.more (Command.answered cut_run) refl (
    Session.last
      (Command.resumed selector_run (Command.resumed byte_run (Command.answered end_run))))

Session-hashed_example :
    Absorbed host fresh (take 10 call ∷ drop 10 call ∷ []) Status.finished call_end
Session-hashed_example =
    Session-hashed host fuel call-Session (omega arith) fresh-IsIdle
      (omega arith, (omega arith, tt))
