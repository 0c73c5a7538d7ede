-- ===== src/Ustream/Invariant.antt =====
-- What holds of the parser's state between two rounds, and inside one.
-- `before` is what had been hashed when the command with the bytes `payload` came in.
use ledger_ambire_signer.Base.{
  ℕ, ◌+◌, ◌≤◌, ◌<◌, ◌≡◌, ◌⊎◌, true, false, some, List, ◌++◌, length, take, if◌then◌else◌,
}
use ledger_ambire_signer.Rlp.{not_yet, rlp_can_decode}
use ledger_ambire_signer.Ustream.State.{Context, Content, Host}

-- The buffers have the sizes that they are declared with: no write went past an end.
pub record HasSizes (host : Host) (c : Content) : Type 0 where
  pub nonce_size : length c.nonce.value ≡ 32
  pub startgas_size : length c.startgas.value ≡ 32
  pub gasprice_size : length c.gasprice.value ≡ 32
  pub value_size : length c.value.value ≡ 32
  pub chain_id_size : length c.chain_id.value ≡ 32
  pub destination_size : length c.destination ≡ 20
  pub v_buffer_size : length c.v ≡ host.v_size
  pub token_size : length c.token.data_bytes ≡ 32
  pub token_room : c.token.field_offset < 32

-- The header buffer is within its five bytes, and what it holds is not yet a header.
pub record HasOpenHeader (c : Context) : Type 0 where
  pub rlp_size : length c.rlp_buffer ≡ 5
  pub rlp_room : c.rlp_buffer_pos < 5
  pub undecided :
      (c.rlp_buffer_pos ≡ 0) ⊎ (rlp_can_decode (some c.rlp_buffer) c.rlp_buffer_pos true ≡ not_yet)

-- Between two rounds: every byte taken has been hashed, once and in order.
pub record IsBetween (host : Host) (before payload : List ℕ) (c : Context) : Type 0 where
  pub sizes : HasSizes host c.content
  pub header : HasOpenHeader c
  pub same_payload : c.payload ≡ payload
  pub left : c.work_pos + c.command_length ≡ length payload
  pub all_hashed : c.hashed ≡ before ++ take c.work_pos payload
  pub in_field : c.processing_field ≡ true → c.current_field_pos ≤ c.current_field_length
  pub not_single : c.processing_field ≡ true → c.field_single_byte ≡ false
  pub closed : c.processing_field ≡ true → c.rlp_buffer_pos ≡ 0

-- Inside a field. A byte that is its own encoding has been hashed and is still to be taken.
pub record IsInField (host : Host) (before payload : List ℕ) (c : Context) : Type 0 where
  pub sizes : HasSizes host c.content
  pub rlp_size : length c.rlp_buffer ≡ 5
  pub rlp_empty : c.rlp_buffer_pos ≡ 0
  pub same_payload : c.payload ≡ payload
  pub left : c.work_pos + c.command_length ≡ length payload
  pub all_hashed :
      c.hashed ≡ before ++ take (c.work_pos + (if c.field_single_byte then 1 else 0)) payload
  pub processing : c.processing_field ≡ true
  pub in_field : c.current_field_pos ≤ c.current_field_length
  pub single :
      c.field_single_byte ≡ true
      → (c.current_field_pos ≡ 0)
        × (c.current_field_length ≡ 1)
        × (c.current_field_is_list ≡ false)
        × (1 ≤ c.command_length)
