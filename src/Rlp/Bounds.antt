-- ===== src/Rlp/Bounds.antt =====
-- What the RLP header decoder reads, and when it answers.
use ledger_ambire_signer.Base.{
  ℕ, ◌+◌, ◌*◌, ◌≤◌, ◌<◌, ◌^◌, ◌≡◌, ◌≢◌, Bool, true, false, some, List, [], ◌∷◌, length, arith, All,
  IsByte,
}
use ledger_ambire_signer.Base.Bits.{bit_or-eq-add}
use ledger_ambire_signer.Rlp.{
  CanDecode, can, not_yet, can_decode_byte, rlp_can_decode, DecodeLength, decoded, failed, length_4,
  rlp_decode_length,
}

pub length_4-sum :
    (a b c d : ℕ) (bs : List ℕ)
    → a < 256
    → b < 256
    → c < 256
    → d < 256
    → length_4 (a ∷ b ∷ c ∷ d ∷ bs) ≡ some (((a * 256 + b) * 256 + c) * 256 + d)
unfolding length_4
length_4-sum a b c d bs ha hb hc hd = ground (
  arith,
  bit_or-eq-add 24 a (b * 2 ^ 16),
  bit_or-eq-add 16 (a * 256 + b) (c * 2 ^ 8),
  bit_or-eq-add 8 ((a * 256 + b) * 256 + c) d,
)

-- A buffer that holds the `len` bytes it is said to hold is never read outside its bounds.
pub rlp_decode_length_no_bad_read :
    (buffer : List ℕ) (len : ℕ)
    → len ≤ length buffer
    → rlp_decode_length buffer len ≢ DecodeLength.bad_read
unfolding rlp_decode_length
rlp_decode_length_no_bad_read [] len h = ground arith
rlp_decode_length_no_bad_read (b ∷ []) len h = ground arith
rlp_decode_length_no_bad_read (b ∷ b1 ∷ []) len h = ground arith
rlp_decode_length_no_bad_read (b ∷ b1 ∷ b2 ∷ []) len h = ground arith
rlp_decode_length_no_bad_read (b ∷ b1 ∷ b2 ∷ b3 ∷ []) len h = ground arith
rlp_decode_length_no_bad_read (b ∷ b1 ∷ b2 ∷ b3 ∷ b4 ∷ bs) len h = ground arith

-- What one answer of `rlp_can_decode` says of the answer of `rlp_decode_length` on the same bytes.
abbrev pub Agree : ℕ → CanDecode → DecodeLength → Type 0
Agree len (can true) (decoded n offset list) = (n < 2 ^ 32) × (offset ≤ len) × (offset ≤ 5)
Agree len (can true) d = ⊥
Agree len (can false) failed = Unit
Agree len (can false) d = ⊥
Agree len not_yet failed = Unit
Agree len not_yet d = ⊥
Agree len CanDecode.bad_read d = ⊥

-- On every buffer of bytes that holds `len` bytes the two functions agree: the decoder
-- succeeds exactly where the test says valid, then with a length below 2 ^ 32 and an offset
-- within `len` and 5.
pub can_decode-Agree :
    (buffer : List ℕ) (len : ℕ)
    → All IsByte buffer
    → len ≤ length buffer
    → Agree len (rlp_can_decode (some buffer) len true) (rlp_decode_length buffer len)
unfolding rlp_can_decode rlp_decode_length
can_decode-Agree [] len bytes h = ground arith
can_decode-Agree (b ∷ []) len bytes h = ground arith
can_decode-Agree (b ∷ b1 ∷ []) len bytes h = ground arith
can_decode-Agree (b ∷ b1 ∷ b2 ∷ []) len bytes h = ground arith
can_decode-Agree (b ∷ b1 ∷ b2 ∷ b3 ∷ []) len bytes h = ground arith
can_decode-Agree (b ∷ b1 ∷ b2 ∷ b3 ∷ b4 ∷ bs) len bytes h =
    ground (arith, length_4-sum b1 b2 b3 b4 bs)

-- Only a single byte has no header before it.
pub decode_single :
    (buffer : List ℕ) (len n : ℕ) (list : Bool)
    → rlp_decode_length buffer len ≡ decoded n 0 list
    → (n ≡ 1) × (list ≡ false)
unfolding rlp_decode_length
decode_single [] len n list e = ground arith
decode_single (b ∷ bs) len n list e = ground arith

can_decode_byte_no_bad_read : (b len : ℕ) → can_decode_byte b len ≢ CanDecode.bad_read
unfolding can_decode_byte
can_decode_byte_no_bad_read b len e = ground arith

pub can_decode_no_bad_read :
    (buffer : List ℕ) (len : ℕ)
    → 0 < length buffer
    → rlp_can_decode (some buffer) len true ≢ CanDecode.bad_read
unfolding rlp_can_decode
can_decode_no_bad_read [] len h e = absurd (omega arith)
can_decode_no_bad_read (b ∷ bs) len h e = ground arith
