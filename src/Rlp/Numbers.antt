-- ===== src/Rlp/Numbers.antt =====
-- The RLP writers of rlp_encode.c.
use ledger_ambire_signer.Base.{
  refl, ℕ, zero, suc, ◌+◌, ◌-◌, ◌/◌, ◌≤◌, ◌<◌, ◌^◌, ◌≡◌, ◌≢◌, true, false, some, List, [], ◌∷◌,
  ◌++◌, length, arith, ltb, if◌then◌else◌, IsByte, inl, inr, Bool-cases, ◌==◌, All, drop, ap, ◌⊎◌,
}
use native.Mathlib.Nat.{pow-suc, one-le-pow}
use ledger_ambire_signer.Rlp.{
  rlp_decode_length, decoded, encode_number, get_encoded_number_length,
  get_smallest_number64_encoding_size, smallest_size_loop, encode_list_header8,
  get_encoded_number64_length,
}
use ledger_ambire_signer.Rlp.Headers.{header}

zero_byte : (b : ℕ) → b ∷ [] ≢ 0 ∷ [] → b ≢ 0
zero_byte b h = λ e. h (ap (λ (x : ℕ). x ∷ []) e)

-- The answer for a number of at most 55 bytes is the count of the bytes written: the announced
-- length, or 0 where the output has less than two bytes more than the number.
pub encode_number-length :
    (number : List ℕ) (output_size : ℕ)
    → length number ≤ 55
    → ((encode_number number output_size).1 ≡ length (encode_number number output_size).0)
      × ((encode_number number output_size).1
          ≡ (if ltb output_size (length number + 2) then 0 else get_encoded_number_length number))
unfolding encode_number get_encoded_number_length
encode_number-length [] size h = ground arith
encode_number-length (b ∷ []) size h = ground arith
encode_number-length (b ∷ c ∷ bs) size h = ground arith

-- Of a number of at most 55 bytes other than a single zero byte, written with room for two
-- bytes more, the decoder finds the length behind a header: at the offset that it gives stand
-- the bytes of the number.
pub encode_number-decode :
    (number rest : List ℕ) (output_size : ℕ)
    → All IsByte number
    → number ≢ 0 ∷ []
    → length number ≤ 55
    → length number + 2 ≤ output_size
    → let out = (encode_number number output_size).0 in
      let offset = length out - length number in
      (rlp_decode_length (out ++ rest) (length out) ≡ decoded (length number) offset false)
      × (drop offset out ≡ number)
unfolding encode_number rlp_decode_length
encode_number-decode [] rest size bytes nz h k = ground arith
encode_number-decode (b ∷ []) rest size bytes nz h k = ground (arith, zero_byte b nz)
encode_number-decode (b ∷ c ∷ bs) rest size bytes nz h k =
    let one : length (b ∷ c ∷ bs) + 1 - length (b ∷ c ∷ bs) ≡ 1 = omega arith in ground (arith, one)

-- With room for two bytes the list header of a size below 256 is RLP's own, with its length.
pub encode_list_header8_lem :
    (size output_size : ℕ)
    → size < 256
    → 2 ≤ output_size
    → encode_list_header8 size output_size ≡ (header true size, length (header true size))
unfolding encode_list_header8 header
encode_list_header8_lem size output_size h k = ground arith

-- The loop adds to `size` one less than the number of bytes of `n`.
smallest_size_loop_bytes :
    (fuel n size : ℕ)
    → n ≢ 0
    → n < 256 ^ fuel
    → size + fuel < 256
    → (k : ℕ) × (smallest_size_loop fuel n size ≡ some (size + k))
      × (256 ^ k ≤ n)
      × (n < 256 ^ suc k)
      × (k < fuel)
unfolding smallest_size_loop
smallest_size_loop_bytes zero n size nz h w = absurd (omega arith)
smallest_size_loop_bytes (suc fuel) n size nz h w = elim (Bool-cases (n / 256 == 0)) [
  | inl e ↦ (0, ground arith, ground arith, ground arith, omega arith)
  | inr e ↦
      let (k, loop, lo, hi, few) =
        smallest_size_loop_bytes fuel (n / 256) (size + 1) (ground arith)
          (omega (arith, pow-suc 256 fuel)) (omega arith) in
      (
        suc k,
        ground (arith, loop),
        omega (arith, pow-suc 256 k),
        omega (arith, pow-suc 256 k, pow-suc 256 (suc k)),
        omega arith,
      )
]

-- The number of bytes that a uint64 takes, and none for zero.
pub get_smallest_number64_encoding_size_bytes :
    (n : ℕ)
    → n < 2 ^ 64
    → n ≢ 0
    → (k : ℕ) × (get_smallest_number64_encoding_size n ≡ some (suc k))
      × (256 ^ k ≤ n)
      × (n < 256 ^ suc k)
      × (k < 9)
unfolding get_smallest_number64_encoding_size
get_smallest_number64_encoding_size_bytes n h nz =
    let (k, loop, lo, hi, few) = smallest_size_loop_bytes 9 n 1 nz (omega arith) (omega arith) in
    (k, rw loop (ap (λ (t : ℕ). some t) (omega arith)), lo, hi, few)

pub get_encoded_number64_length_step :
    (n k : ℕ)
    → get_smallest_number64_encoding_size n ≡ some (suc k)
    → 256 ^ k ≤ n
    → k < 9
    → get_encoded_number64_length n ≡ some (if ltb n 128 then 1 else k + 2)
unfolding get_encoded_number64_length
get_encoded_number64_length_step n zero e lo few =
    rw (e, get_encoded_number64_length) (ground arith)
get_encoded_number64_length_step n (suc k) e lo few =
    rw (e, get_encoded_number64_length) (ground (arith, pow-suc 256 k, one-le-pow k 256))

-- The announced length of a number below 2 ^ 64 is 1 below 128, and else a byte more than the
-- `suc k` bytes that the number takes.
pub get_encoded_number64_length_bytes :
    (n : ℕ)
    → n < 2 ^ 64
    → (k : ℕ) × (get_encoded_number64_length n ≡ some (if ltb n 128 then 1 else k + 2))
      × ((n ≡ 0) ⊎ ((256 ^ k ≤ n) × (n < 256 ^ suc k)))
get_encoded_number64_length_bytes zero h = (
  0,
  unfold get_encoded_number64_length get_smallest_number64_encoding_size smallest_size_loop in refl,
  inl refl,
)
get_encoded_number64_length_bytes (suc n) h =
    let (k, e, lo, hi, few) = get_smallest_number64_encoding_size_bytes (suc n) h (omega arith) in
    (k, get_encoded_number64_length_step (suc n) k e lo few, inr (lo, hi))

-- Zero has no bytes, and is announced with one.
pub get_smallest_number64_encoding_size-zero :
    (get_smallest_number64_encoding_size 0 ≡ some 0) × (get_encoded_number64_length 0 ≡ some 1)
unfolding get_smallest_number64_encoding_size smallest_size_loop get_encoded_number64_length
get_smallest_number64_encoding_size-zero = (refl, refl)
