-- ===== src/Eip712/Atomic.antt =====
-- A leaf is encoded to its 32 bytes, or hashed.
use ledger_ambire_signer.Base.{
  ℕ, ◌≡◌, arith, true, false, ◌&&◌, none, some, List, [], length, get_or, ltb, leb, ◌==◌,
  if◌then◌else◌, Bool-cases, inl, inr,
}
use ledger_ambire_signer.Eip712.{
  SolType, type_struct, sol_int, sol_uint, sol_address, sol_bool, sol_string, sol_bytes_fix,
  sol_bytes_dyn, Field, Sdk, ◌>>=◌, keccak_init, hash_update, hash_final,
}
use ledger_ambire_signer.Eip712.Fields.{
  msb, lsb, field_encode, encode_uint, encode_int, encode_bytes, encode_boolean, encode_address,
}
use ledger_ambire_signer.Eip712.Values.{encode_atomic}
use ledger_ambire_signer.Eip712.Refines.{
  Refines, Refines-next, pure-Refines, fail-Refines, app_mem_alloc-Refines, keccak_init-Refines,
  hash_update-Refines, hash_final-Refines,
}
use ledger_ambire_signer.Eip712.Reference.{padded_left, padded_right, atomic_digest}

module _ (sdk : Sdk) where
  pub left-Refines :
      (value : List ℕ) (fill : ℕ)
      → Refines sdk (field_encode value msb fill) (padded_left fill value)
  unfolding field_encode padded_left
  left-Refines value fill = elim (Bool-cases (ltb 32 (length value))) [
    | inl long ↦ rw long (fail-Refines sdk)
    | inr fits ↦
        rw fits (Refines-next sdk _ tt _ _ (app_mem_alloc-Refines sdk) (pure-Refines sdk _))
  ]

  right-Refines :
      (value : List ℕ) (fill : ℕ) → Refines sdk (field_encode value lsb fill) (padded_right value)
  unfolding field_encode padded_right
  right-Refines value fill = elim (Bool-cases (ltb 32 (length value))) [
    | inl long ↦ rw long (fail-Refines sdk)
    | inr fits ↦
        rw fits (Refines-next sdk _ tt _ _ (app_mem_alloc-Refines sdk) (pure-Refines sdk _))
  ]

  pub int-Refines :
      (value : List ℕ) (size : ℕ)
      → Refines sdk (encode_int value size) (
          if length value == 0
          then none
          else padded_left
              (if length value == size && leb 128 (get_or value 0 0) then 255 else 0)
              value)
  unfolding encode_int
  int-Refines value size = elim (Bool-cases (ltb (length value) 1)) [
    | inl empty ↦
        let e : (length value == 0) ≡ true = ground (arith, empty) in
        rw (empty, e) (fail-Refines sdk)
    | inr filled ↦
        let e : (length value == 0) ≡ false = ground (arith, filled) in
        rw (filled, e) (left-Refines value _)
  ]

  address-Refines :
      (value : List ℕ)
      → Refines sdk
          (encode_address value)
          (if length value == 20 then padded_left 0 value else none)
  unfolding encode_address encode_uint
  address-Refines value = elim (Bool-cases (length value == 20)) [
    | inl whole ↦ rw whole (left-Refines value 0)
    | inr other ↦ rw other (fail-Refines sdk)
  ]

  boolean-Refines :
      (value : List ℕ)
      → Refines sdk
          (encode_boolean value)
          (if length value == 1 && leb (get_or value 0 0) 1 then padded_left 0 value else none)
  unfolding encode_boolean encode_uint
  boolean-Refines value = elim (Bool-cases (length value == 1)) [
    | inr other ↦ rw other (fail-Refines sdk)
    | inl one ↦ elim (Bool-cases (ltb 1 (get_or value 0 0))) [
      | inl above ↦
          let e : leb (get_or value 0 0) 1 ≡ false = ground (arith, above) in
          rw (one, above, e) (fail-Refines sdk)
      | inr bit ↦
          let e : leb (get_or value 0 0) 1 ≡ true = ground (arith, bit) in
          rw (one, bit, e) (left-Refines value 0)
    ]
  ]

  pub encode_atomic-Refines :
      (f : Field) (value : List ℕ)
      → Refines sdk (encode_atomic sdk f value) (atomic_digest sdk f value)
  unfolding encode_atomic atomic_digest encode_uint encode_bytes
  encode_atomic-Refines f value = of_type f.type
    where
      hashed :
          Refines sdk
            (keccak_init sdk >>= λ start.
              hash_update sdk start value >>= λ absorbed. hash_final sdk absorbed)
            (some (sdk.keccak value))
      hashed = Refines-next sdk _ _ _ _ (keccak_init-Refines sdk) (
          Refines-next sdk _ _ _ _ (hash_update-Refines sdk [] value)
            (hash_final-Refines sdk value))

      of_type :
          (type : SolType)
          → let f' : Field = record f { type = type } in
            Refines sdk (encode_atomic sdk f' value) (atomic_digest sdk f' value)
      of_type type_struct = fail-Refines sdk
      of_type sol_int = int-Refines value f.type_size
      of_type sol_uint = left-Refines value 0
      of_type sol_address = address-Refines value
      of_type sol_bool = boolean-Refines value
      of_type sol_string = hashed
      of_type sol_bytes_fix = right-Refines value 0
      of_type sol_bytes_dyn = hashed
