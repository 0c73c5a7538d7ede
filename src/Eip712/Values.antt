-- ===== src/Eip712/Values.antt =====
-- value_hash.c: the hashes of the domain and of the message.
use ledger_ambire_signer.Base.{
  ℕ, ◌+◌, Bool, true, false, Option, none, some, List, [], ◌∷◌, leb, if◌then◌else◌,
}
use ledger_ambire_signer.Base.Memory.{Heap}
use ledger_ambire_signer.Eip712.{
  type_struct, sol_int, sol_uint, sol_address, sol_bool, sol_string, sol_bytes_fix, sol_bytes_dyn,
  Field, Struct, Value, atomic, struct_value, array_value, Children, no_children, child_then, Sdk,
  M, ◌>>=◌, pure, fail, app_mem_alloc, keccak_init, hash_update, hash_final,
}
use ledger_ambire_signer.Eip712.Fields.{
  encode_uint, encode_int, encode_bytes, encode_boolean, encode_address,
}
use ledger_ambire_signer.Eip712.Types.{type_hash}

-- TD_MAX_DEPTH
abbrev pub td_max_depth : ℕ
td_max_depth = 16

unfoldable pub encode_atomic : Sdk → Field → List ℕ → M (List ℕ)
encode_atomic sdk f data_bytes =
    let hashed = keccak_init sdk >>= λ start.
    hash_update sdk start data_bytes >>= λ absorbed. hash_final sdk absorbed in
    elim f.type [
      | sol_string ↦ hashed
      | sol_bytes_dyn ↦ hashed
      | sol_uint ↦ encode_uint data_bytes
      | sol_int ↦ encode_int data_bytes f.type_size
      | sol_bytes_fix ↦ encode_bytes data_bytes
      | sol_address ↦ encode_address data_bytes
      | sol_bool ↦ encode_boolean data_bytes
      | type_struct ↦ fail
    ]

-- A container takes the next of the digests made before; the cursor goes on.
unfoldable pub child_digest : Sdk → Value → List (List ℕ) → M (List ℕ × List (List ℕ))
child_digest sdk (atomic f data_bytes) cursor =
    encode_atomic sdk f data_bytes >>= λ digest. pure (digest, cursor)
child_digest sdk _ [] = fail
child_digest sdk _ (digest ∷ cursor) = pure (digest, cursor)

-- The loop over the children, of structs and of arrays.
unfoldable pub hash_children : Sdk → Children → List (List ℕ) → List ℕ → M (List ℕ)
hash_children sdk no_children digests absorbed = pure absorbed
hash_children sdk (child_then v vs) digests absorbed = child_digest sdk v digests >>= λ step.
    hash_update sdk absorbed step.0 >>= λ absorbed'. hash_children sdk vs step.1 absorbed'

unfoldable pub hash_array : Sdk → Children → List (List ℕ) → M (List ℕ)
hash_array sdk children digests = keccak_init sdk >>= λ start.
    hash_children sdk children digests start >>= λ absorbed. hash_final sdk absorbed

unfoldable pub hash_struct : Sdk → List Struct → Struct → Children → List (List ℕ) → M (List ℕ)
hash_struct sdk structs s children digests = type_hash sdk structs s.name >>= λ type.
    keccak_init sdk >>= λ start. hash_update sdk start type >>= λ typed.
    hash_children sdk children digests typed >>= λ absorbed. hash_final sdk absorbed

-- The hash of a container at a depth, and those of the containers among some children, in order.
unfoldable mutual
  pub hash_value : Sdk → List Struct → ℕ → Value → M (List ℕ)
  hash_value sdk structs depth (atomic f data_bytes) = fail
  hash_value sdk structs depth (struct_value s children) =
      if leb td_max_depth depth
      then fail
      else hash_containers sdk structs (depth + 1) children >>= λ digests.
          hash_struct sdk structs s children digests
  hash_value sdk structs depth (array_value f children) =
      if leb td_max_depth depth
      then fail
      else hash_containers sdk structs (depth + 1) children >>= λ digests.
          hash_array sdk children digests

  pub hash_containers : Sdk → List Struct → ℕ → Children → M (List (List ℕ))
  hash_containers sdk structs depth no_children = pure []
  hash_containers sdk structs depth (child_then (atomic f data_bytes) vs) =
      hash_containers sdk structs depth vs
  hash_containers sdk structs depth (child_then v vs) = app_mem_alloc >>= λ _.
      hash_value sdk structs depth v >>= λ digest.
      hash_containers sdk structs depth vs >>= λ digests. pure (digest ∷ digests)

-- The domain and the message, and the hashes that are kept in messageSigningContext712.
pub record Impl : Type 0 where
  pub domain : Option Value
  pub message : Option Value

pub record SigningContext : Type 0 where
  pub domain_hash : List ℕ
  pub message_hash : List ℕ

unfoldable pub value_hash_pass :
    Sdk → List Struct → Impl → SigningContext → Heap → Bool × SigningContext × Heap
value_hash_pass sdk structs impl context heap = elim impl.domain [
  | none ↦ (false, context, heap)
  | some domain ↦
      let (hashed, heap') = hash_value sdk structs 0 domain heap in
      elim hashed [
        | none ↦ (false, context, heap')
        | some hash ↦
            let context' = record context { domain_hash = hash } in
            elim impl.message [
              | none ↦ (false, context', heap')
              | some message ↦
                  let (hashed', heap'') = hash_value sdk structs 0 message heap' in
                  elim hashed' [
                    | none ↦ (false, context', heap'')
                    | some hash' ↦ (true, record context' { message_hash = hash' }, heap'')
                  ]
            ]
      ]
]
