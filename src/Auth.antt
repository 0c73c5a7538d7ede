-- ===== src/Auth.antt =====
-- src/features/sign_authorization_eip7702/commands_7702.c: the hash of an authorization.
-- `write_u64_be` gives the eight bytes that the SDK's function of that name writes. The error codes
-- of the failures are not told apart.
pub mod Items
pub mod Hash
mod Tests
use mathlib.Core.Path.{subst}
use mathlib.Core.List.{append_assoc}
use native.Mathlib.Nat.{pow-suc, one-le-pow, pow-le-pow_right, mul-le-mul_right}
use ledger_ambire_signer.Base.{
  ℕ, zero, suc, ◌+◌, ◌-◌, ◌*◌, ◌^◌, ◌≤◌, ◌<◌, ◌≡◌, ◌≢◌, refl, ap, sym, ◌∙◌, arith, Bool, true,
  false, Option, none, some, List, [], ◌∷◌, ◌++◌, length, length-append, length-take, length-drop,
  take, drop, take-append-drop, ltb, leb, ◌==◌, if◌then◌else◌, All, IsByte, Bool-cases, inl, inr,
  u8,
}
use ledger_ambire_signer.Base.Memory.{take-length_of}
use ledger_ambire_signer.Base.Bytes.{be_value, be_value-append, be_value-bound, All-drop}
use ledger_ambire_signer.Eip712.{
  Sdk, M, ◌>>=◌, pure, fail, app_mem_alloc, keccak_init, hash_update, hash_final,
}
use ledger_ambire_signer.Eip712.Refines.{
  Refines, Refines-next, Refines-same, app_mem_alloc-Refines, keccak_init-Refines,
  hash_update-Refines, hash_final-Refines,
}
use ledger_ambire_signer.Rlp.{
  encode_number, get_encoded_number_length, get_smallest_number64_encoding_size,
  get_encoded_number64_length, encode_list_header8,
}
use ledger_ambire_signer.Rlp.Headers.{header}
use ledger_ambire_signer.Rlp.Numbers.{
  get_smallest_number64_encoding_size_bytes, get_encoded_number64_length_step,
  get_smallest_number64_encoding_size-zero, encode_list_header8_lem,
}

-- The size of `rlpTmp`.
abbrev pub rlp_tmp_size : ℕ
rlp_tmp_size = 40

unfoldable pub hash_rlp : Sdk → List ℕ → List ℕ → M (List ℕ)
hash_rlp sdk bytes absorbed =
    let (output, hash_size) = encode_number bytes rlp_tmp_size in
    if hash_size == 0 then fail else hash_update sdk absorbed (take hash_size output)

unfoldable pub hash_rlp64 : Sdk → (ℕ → List ℕ) → ℕ → List ℕ → M (List ℕ)
hash_rlp64 sdk write_u64_be n absorbed = elim (get_smallest_number64_encoding_size n) [
  | none ↦ fail
  | some encoding_length ↦ hash_rlp sdk (drop (8 - encoding_length) (write_u64_be n)) absorbed
]

-- MAGIC_7702 and the list header, and the three items behind them.
unfoldable pub auth_hash : Sdk → (ℕ → List ℕ) → ℕ → List ℕ → ℕ → M (List ℕ)
auth_hash sdk write_u64_be chain_id delegate nonce = elim (get_encoded_number64_length chain_id) [
  | none ↦ fail
  | some a ↦ elim (get_encoded_number64_length nonce) [
    | none ↦ fail
    | some c ↦
        let size = u8 (u8 (a + get_encoded_number_length delegate) + c) in
        let (output, hash_size) = encode_list_header8 size (rlp_tmp_size - 1) in
        if hash_size == 0
        then fail
        else app_mem_alloc >>= λ _. keccak_init sdk >>= λ start.
            hash_update sdk start (5 ∷ take hash_size output) >>= λ opened.
            hash_rlp64 sdk write_u64_be chain_id opened >>= λ first.
            hash_rlp sdk delegate first >>= λ second.
            hash_rlp64 sdk write_u64_be nonce second >>= λ text. hash_final sdk text
  ]
]
