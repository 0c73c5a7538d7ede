-- ===== src/Ustream.antt =====
-- src/features/sign_tx/eth_ustream.c: the streaming RLP parser of a transaction to sign.
-- The state is in `State`, the handlers of the fields in `Fields` and the app's custom processor in
-- `Custom`; here are the fields' order, the
-- header reader and the loop. The other children hold the theorems.
pub mod State
pub mod Fields
pub mod Custom
pub mod Invariant
pub mod Copies
pub mod Taking
pub mod Handlers
pub mod Headers
pub mod Blocks
pub mod Answers
pub mod Rounds
pub mod Loop
pub mod Commands
pub mod Sessions
mod Tests
use ledger_ambire_signer.Base.{
  ℕ, zero, suc, ◌+◌, ◌-◌, Bool, true, false, not, ◌&&◌, Option, none, some, List, [], ◌∷◌, length,
  replicate, get_elem?, set, ◌==◌, if◌then◌else◌,
}
use ledger_ambire_signer.Rlp.{
  CanDecode, can, not_yet, rlp_can_decode, DecodeLength, decoded, failed, rlp_decode_length,
}
use ledger_ambire_signer.Utils.{buf_shrink_expand}
use ledger_ambire_signer.Ustream.State.{
  Context, Content, Int256, TxType, legacy, eip2930, eip1559, eip7702, Status, CustomStatus, Host,
  Step,
}
use ledger_ambire_signer.Ustream.Fields.{
  Dest, nowhere, to_nonce, to_startgas, to_gasprice, to_value, to_chain_id, int256_length,
  address_length, advance, read_tx_byte, process_content, process_list, process_number, process_to,
  process_v, process_and_discard, process_data,
}
use ledger_ambire_signer.Ustream.Custom.{custom_processor}

-- The fields of the transactions, and the order in which each type has them: a field's place is
-- the value of its enumerator, and `..._DONE` is the place behind the last.
pub data Field : Type 0 where
  rlp_none content chain_id nonce gasprice gas_limit to value calldata access_list auth_list : Field
  discarded v : Field

abbrev pub legacy_fields : List Field
legacy_fields =
    Field.rlp_none ∷ Field.content ∷ Field.nonce ∷ Field.gasprice ∷ Field.gas_limit ∷ Field.to
    ∷ Field.value ∷ Field.calldata ∷ Field.v ∷ Field.discarded ∷ Field.discarded ∷ []

abbrev pub eip2930_fields : List Field
eip2930_fields =
    Field.rlp_none ∷ Field.content ∷ Field.chain_id ∷ Field.nonce ∷ Field.gasprice ∷ Field.gas_limit
    ∷ Field.to ∷ Field.value ∷ Field.calldata ∷ Field.access_list ∷ []

-- The first discarded field is the priority fee; the gas price is the maximal fee.
abbrev pub eip1559_fields : List Field
eip1559_fields =
    Field.rlp_none ∷ Field.content ∷ Field.chain_id ∷ Field.nonce ∷ Field.discarded ∷ Field.gasprice
    ∷ Field.gas_limit ∷ Field.to ∷ Field.value ∷ Field.calldata ∷ Field.access_list ∷ []

abbrev pub eip7702_fields : List Field
eip7702_fields =
    Field.rlp_none ∷ Field.content ∷ Field.chain_id ∷ Field.nonce ∷ Field.discarded ∷ Field.gasprice
    ∷ Field.gas_limit ∷ Field.to ∷ Field.value ∷ Field.calldata ∷ Field.access_list
    ∷ Field.auth_list ∷ []

abbrev pub fields_of : TxType → List Field
fields_of legacy = legacy_fields
fields_of eip2930 = eip2930_fields
fields_of eip1559 = eip1559_fields
fields_of eip7702 = eip7702_fields
fields_of TxType.other = []

-- PARSING_IS_DONE
unfoldable pub parsing_is_done : Context → Bool
parsing_is_done c = elim c.tx_type [
  | TxType.other ↦ false
  | t ↦ c.current_field == length (fields_of t)
]

unfoldable pub process_field : Host → Field → Context → Step
process_field host Field.rlp_none c = (false, c)
process_field host Field.content c = process_content c
process_field host Field.chain_id c = process_number host to_chain_id 8 c
process_field host Field.nonce c = process_number host to_nonce int256_length c
process_field host Field.gasprice c = process_number host to_gasprice int256_length c
process_field host Field.gas_limit c = process_number host to_startgas int256_length c
process_field host Field.to c = process_to host c
process_field host Field.value c = process_number host to_value int256_length c
process_field host Field.calldata c = process_data host c
process_field host Field.access_list c = process_list host c
process_field host Field.auth_list c = process_list host c
process_field host Field.discarded c = process_and_discard host c
process_field host Field.v c = process_v host c

-- process_legacy_tx, process_eip2930_tx, process_eip1559_tx and process_eip7702_tx, and the switch
-- over them: the handler of the current field, and `false` where there is none.
unfoldable pub process_tx_field : Host → Context → Step
process_tx_field host c = elim (get_elem? (fields_of c.tx_type) c.current_field) [
  | none ↦ (false, c)
  | some field ↦ process_field host field c
]

abbrev pub rlp_buffer_size : ℕ
rlp_buffer_size = 5

-- One round of the header loop: the byte goes into the buffer and the decoder is asked.
-- `continue` is the `break` out of the loop.
unfoldable pub read_header_byte : Host → Context → Status × Context
read_header_byte host c =
    let (done, byte, c') = read_tx_byte host c in
    let pos = c.rlp_buffer_pos in
    let c'' = record c' {
      rlp_buffer = if done then set c'.rlp_buffer pos byte else c'.rlp_buffer;
      rlp_buffer_pos = pos + 1;
    } in
    if not done
    then (Status.fault, c'')
    else elim (rlp_can_decode (some c''.rlp_buffer) c''.rlp_buffer_pos true) [
      | can valid ↦ (if valid then Status.continue else Status.fault, c'')
      | _ ↦ (if c''.rlp_buffer_pos == rlp_buffer_size then Status.fault else Status.processing, c'')
    ]

-- The header loop. It ends by the fifth byte at the latest.
unfoldable pub read_header : Host → ℕ → Context → Status × Context
read_header host zero c = (Status.fault, c)
read_header host (suc fuel) c =
    let (status, c') = read_header_byte host c in
    let rest = read_header host fuel c' in
    if c.command_length == 0
    then (Status.processing, c)
    else elim status [ Status.processing ↦ rest | s ↦ (s, c') ]

-- The field starts: a byte that is its own encoding is put back.
unfoldable pub start_field : ℕ → ℕ → Bool → Context → Context
start_field field_length offset is_list c =
    let single = offset == 0 in
    record c {
      current_field_length = field_length;
      current_field_is_list = is_list;
      work_pos = if single then c.work_pos - 1 else c.work_pos;
      command_length = if single then c.command_length + 1 else c.command_length;
      field_single_byte = single;
      current_field_pos = 0;
      rlp_buffer_pos = 0;
      processing_field = true;
    }

unfoldable pub parse_rlp : Host → Context → Status × Context
parse_rlp host c =
    let (status, c') = read_header host (rlp_buffer_size + 1) c in
    elim status [
      | Status.continue ↦ elim (rlp_decode_length c'.rlp_buffer c'.rlp_buffer_pos) [
        | decoded field_length offset is_list ↦
            (Status.continue, start_field field_length offset is_list c')
        | _ ↦ (Status.fault, c')
      ]
      | s ↦ (s, c')
    ]

-- get_tx_chain_id of src/network.c, for a transaction.
unfoldable pub get_tx_chain_id : Host → Context → ℕ
get_tx_chain_id host c = elim c.tx_type [
  | legacy ↦ host.u64_from_be c.content.v c.content.v_length
  | TxType.other ↦ 0
  | _ ↦ host.u64_from_be c.content.chain_id.value c.content.chain_id.len
]

-- The end of the transaction: a stored one goes to the queue with its calldata. C returns `false`
-- where the queue refuses it, which is the status `processing`.
unfoldable pub finish_tx : Host → Context → Status × Context
finish_tx host c =
    let to =
      buf_shrink_expand (some c.content.destination) c.content.destination_length address_length in
    let amount = buf_shrink_expand (some c.content.value.value) c.content.value.len int256_length in
    if c.store_calldata
    then (if host.tx_ctx_init c.parked to amount (get_tx_chain_id host c)
        then (Status.finished, record c { parked = none })
        else (Status.processing, record c { parked = none }))
    else (Status.finished, c)

-- The rest of one round, on a field whose header is read. `continue` is another round.
unfoldable pub field_round : Host → Context → Status × Context
field_round host c =
    let (custom, c') = custom_processor host c in
    elim custom [
      | CustomStatus.not_handled ↦
          let (done, c'') = process_tx_field host c' in
          (if done then Status.continue else Status.fault, c'')
      | CustomStatus.handled ↦ (Status.continue, c')
      | CustomStatus.suspended ↦ (Status.suspended, c')
      | CustomStatus.fault ↦ (Status.fault, c')
    ]

-- One round of the loop.
unfoldable pub tx_round : Host → Context → Status × Context
tx_round host c =
    if parsing_is_done c
    then finish_tx host c
    else if c.command_length == 0
    then (Status.processing, c)
    else if c.processing_field
    then field_round host c
    else let (status, c') = parse_rlp host c in
      elim status [ Status.continue ↦ field_round host c' | s ↦ (s, c') ]

-- The loop on fuel; `none` means that the fuel ran out.
unfoldable pub process_tx_internal : Host → ℕ → Context → Option (Status × Context)
process_tx_internal host zero c = none
process_tx_internal host (suc fuel) c =
    let (status, c') = tx_round host c in
    let rest = process_tx_internal host fuel c' in
    elim status [ Status.continue ↦ rest | s ↦ some (s, c') ]

unfoldable pub process_tx : Host → ℕ → Context → List ℕ → Option (Status × Context)
process_tx host fuel c payload =
    process_tx_internal host fuel
      (record c { payload = payload; work_pos = 0; command_length = length payload })

unfoldable pub continue_tx : Host → ℕ → Context → Option (Status × Context)
continue_tx host fuel c = process_tx_internal host fuel c

-- The context of a new transaction: `explicit_bzero`, and the first field is next. `tx_content` is
-- the caller's; `keccak_ok` is the SDK's answer to the start of the hash.
unfoldable pub init_tx : Bool → Content → Bool → Context → Step
init_tx keccak_ok tx_content store_calldata c = (
  keccak_ok,
  record c {
    current_field = 1;
    current_field_length = 0;
    current_field_pos = 0;
    current_field_is_list = false;
    processing_field = false;
    field_single_byte = false;
    data_length = 0;
    rlp_buffer = replicate rlp_buffer_size 0;
    rlp_buffer_pos = 0;
    payload = [];
    work_pos = 0;
    command_length = 0;
    content = tx_content;
    tx_type = TxType.other;
    store_calldata = store_calldata;
    selector_bytes = replicate 4 0;
    hashed = [];
  },
)
