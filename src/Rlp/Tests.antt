-- ===== src/Rlp/Tests.antt =====
-- The RLP theorems at concrete inputs.
use ledger_ambire_signer.Base.{
  ℕ, suc, ◌+◌, ◌-◌, ◌≤◌, ◌<◌, ◌^◌, ◌≡◌, ◌⊎◌, ◌≢◌, true, false, some, List, [], ◌∷◌, ◌++◌, length,
  drop, arith,
}
use ledger_ambire_signer.Rlp.{
  rlp_can_decode, not_yet, rlp_decode_length, DecodeLength, decoded, encode_number,
  get_encoded_number_length, get_encoded_number64_length, encode_list_header8,
}
use ledger_ambire_signer.Rlp.Bounds.{Agree, can_decode-Agree, rlp_decode_length_no_bad_read}
use ledger_ambire_signer.Rlp.Headers.{header, rlp_decode_length-header, rlp_can_decode-header}
use ledger_ambire_signer.Rlp.Numbers.{
  encode_number-decode, encode_number-length, encode_list_header8_lem,
  get_encoded_number64_length_bytes,
}

-- The header of a list of 1024 bytes.
abbrev long_list : List ℕ
long_list = 0xf9 ∷ 4 ∷ 0 ∷ []

can_decode-Agree_example :
    Agree 3 (rlp_can_decode (some long_list) 3 true) (rlp_decode_length long_list 3)
can_decode-Agree_example = can_decode-Agree long_list 3 (omega arith) (omega arith)

rlp_decode_length_no_bad_read_example : rlp_decode_length long_list 3 ≢ DecodeLength.bad_read
rlp_decode_length_no_bad_read_example = rlp_decode_length_no_bad_read long_list 3 (omega arith)

rlp_decode_length-header_example : rlp_decode_length (0xf9 ∷ 4 ∷ 0 ∷ 7 ∷ []) 4 ≡ decoded 1024 3 true
unfolding header
rlp_decode_length-header_example =
    rlp_decode_length-header true 1024 4 (7 ∷ []) (omega arith) (omega arith)

rlp_can_decode-header_example : rlp_can_decode (some (header true 1024 ++ [])) 2 true ≡ not_yet
unfolding header
rlp_can_decode-header_example = rlp_can_decode-header true 1024 2 [] (omega arith)

abbrev nonce : List ℕ
nonce = 0x12 ∷ 0x34 ∷ []

encode_number-decode_example :
    let out = (encode_number nonce 10).0 in
    let offset = length out - 2 in
    (rlp_decode_length (out ++ (9 ∷ [])) (length out) ≡ decoded 2 offset false)
    × (drop offset out ≡ nonce)
encode_number-decode_example =
    encode_number-decode nonce (9 ∷ []) 10 (omega arith) (λ e. cc) (omega arith) (omega arith)

encode_number-length_example :
    ((encode_number nonce 10).1 ≡ length (encode_number nonce 10).0)
    × ((encode_number nonce 10).1 ≡ get_encoded_number_length nonce)
encode_number-length_example = encode_number-length nonce 10 (omega arith)

header_of_60 : encode_list_header8 60 2 ≡ (header true 60, length (header true 60))
header_of_60 = encode_list_header8_lem 60 2 (omega arith) (omega arith)

get_encoded_number64_length_bytes_example :
    (k : ℕ) × (get_encoded_number64_length 1000 ≡ some (k + 2))
    × ((◌≡◌ {A = ℕ} 1000 0) ⊎ ((256 ^ k ≤ 1000) × (1000 < 256 ^ suc k)))
get_encoded_number64_length_bytes_example = get_encoded_number64_length_bytes 1000 (omega arith)
