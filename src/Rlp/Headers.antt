-- ===== src/Rlp/Headers.antt =====
-- RLP's own definition of a header, and the decoder against it.
use ledger_ambire_signer.Base.{
  ℕ, ◌+◌, ◌/◌, ◌%◌, ◌≤◌, ◌<◌, ◌^◌, ◌≡◌, Bool, true, false, some, List, [], ◌∷◌, ◌++◌, length, arith,
  ltb, leb, if◌then◌else◌,
}
use ledger_ambire_signer.Rlp.{can, not_yet, rlp_can_decode, decoded, rlp_decode_length}
use ledger_ambire_signer.Rlp.Bounds.{length_4-sum}

-- The header of a string or list of `n` bytes: the short form up to 55, then the length in as few
-- big-endian bytes as it takes.
unfoldable pub header : Bool → ℕ → List ℕ
header list n =
    let base = if list then 0xc0 else 0x80 in
    if leb n 55
    then (base + n) ∷ []
    else if ltb n (2 ^ 8)
    then (base + 56) ∷ n ∷ []
    else if ltb n (2 ^ 16)
    then (base + 57) ∷ (n / 256) ∷ (n % 256) ∷ []
    else if ltb n (2 ^ 24)
    then (base + 58) ∷ (n / 2 ^ 16) ∷ (n / 256 % 256) ∷ (n % 256) ∷ []
    else (base + 59) ∷ (n / 2 ^ 24) ∷ (n / 2 ^ 16 % 256) ∷ (n / 256 % 256) ∷ (n % 256) ∷ []

-- The decoder reads every header of a length below 2 ^ 32 back, whatever follows it, once it
-- is given the whole of it.
pub rlp_decode_length-header :
    (list : Bool) (n len : ℕ) (rest : List ℕ)
    → n < 2 ^ 32
    → length (header list n) ≤ len
    → rlp_decode_length (header list n ++ rest) len ≡ decoded n (length (header list n)) list
unfolding header rlp_decode_length
rlp_decode_length-header true n len rest h k =
    ground (arith, length_4-sum (n / 2 ^ 24) (n / 2 ^ 16 % 256) (n / 256 % 256) (n % 256) rest)
rlp_decode_length-header false n len rest h k =
    ground (arith, length_4-sum (n / 2 ^ 24) (n / 2 ^ 16 % 256) (n / 256 % 256) (n % 256) rest)

-- On the header of a length below 2 ^ 32, followed by anything, `rlp_can_decode` answers "not
-- yet" while bytes of the header are missing, and "valid" from its last byte on.
pub rlp_can_decode-header :
    (list : Bool) (n len : ℕ) (rest : List ℕ)
    → n < 2 ^ 32
    → rlp_can_decode (some (header list n ++ rest)) len true
      ≡ (if ltb len (length (header list n)) then not_yet else can true)
unfolding header rlp_can_decode
rlp_can_decode-header true n len rest h = ground arith
rlp_can_decode-header false n len rest h = ground arith
