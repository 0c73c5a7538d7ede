-- ===== src/Uint128/Shifts.antt =====
-- The shift by one of uint128.c, which its division goes by, and the count of the bits.
use native.Mathlib.Nat.{pow-suc}
use ledger_ambire_signer.Base.{
  ℕ, zero, suc, ◌+◌, ◌*◌, ◌/◌, ◌^◌, ◌≤◌, ◌<◌, ◌≡◌, ◌⊎◌, ◌≢◌, refl, arith, ◌==◌, Bool-cases, inl,
  inr,
}
use ledger_ambire_signer.Base.Bytes.{pow_add}
use ledger_ambire_signer.Uint128.{Uint128, shiftr128, count_bits, bits128}
use ledger_ambire_signer.Uint128.Arithmetic.{HasWords, value128}

-- For words within 64 bits, a shift to the right by one halves the number.
pub shiftr128-half :
    (n : Uint128)
    → HasWords n
    → HasWords (shiftr128 n 1) × (value128 (shiftr128 n 1) ≡ value128 n / 2)
unfolding shiftr128
shiftr128-half n h = ((omega arith, omega arith), omega arith)

count_bits-zero : (fuel : ℕ) → count_bits fuel 0 ≡ 0
unfolding count_bits
count_bits-zero zero = refl
count_bits-zero (suc fuel) = refl

count_tight :
    (fuel word : ℕ)
    → 0 < word
    → ((word / 2 ≡ 0) × (count_bits fuel (word / 2) ≡ 0))
      ⊎ (2 ^ count_bits fuel (word / 2) ≤ 2 * (word / 2))
    → 2 ^ suc (count_bits fuel (word / 2)) ≤ 2 * word
count_tight fuel word h (inl (e, none)) = rw none (omega arith)
count_tight fuel word h (inr t) = omega (arith, t, pow-suc 2 (count_bits fuel (word / 2)))

count_bits-IsTight :
    (fuel word : ℕ)
    → word < 2 ^ fuel
    → (word < 2 ^ count_bits fuel word)
      × (count_bits fuel word ≤ fuel)
      × (((word ≡ 0) × (count_bits fuel word ≡ 0)) ⊎ (2 ^ count_bits fuel word ≤ 2 * word))
unfolding count_bits
count_bits-IsTight zero word h = (omega arith, omega arith, inl (omega arith, refl))
count_bits-IsTight (suc fuel) word h =
    let (below, few, tight) = count_bits-IsTight fuel (word / 2) (omega (arith, pow-suc 2 fuel)) in
    elim (Bool-cases (word == 0)) [
      | inl e ↦ rw e (ground arith, omega arith, inl (ground arith, refl))
      | inr e ↦ rw e (
        omega (arith, pow-suc 2 (count_bits fuel (word / 2))),
        omega arith,
        inr (count_tight fuel word (ground arith) tight),
      )
    ]

-- For words within 64 bits, bits128 is at most 128 and the least number of bits that hold the
-- number: none for 0.
pub bits128-IsTight :
    (n : Uint128)
    → HasWords n
    → (value128 n < 2 ^ bits128 n)
      × (bits128 n ≤ 128)
      × (((value128 n ≡ 0) × (bits128 n ≡ 0)) ⊎ (2 ^ bits128 n ≤ 2 * value128 n))
unfolding bits128
bits128-IsTight n h = elim (Bool-cases (n.upper == 0)) [
  | inl e ↦
      let (below, few, tight) = count_bits-IsTight 64 n.lower (omega arith) in
      let none : n.upper ≡ 0 = ground arith in
      rw e (
        omega arith,
        omega arith,
        elim tight [ inl (z, no_bits) ↦ inl (omega arith, no_bits) | inr t ↦ inr (omega arith) ],
      )
  | inr e ↦
      let (below, few, tight) = count_bits-IsTight 64 n.upper (omega arith) in
      let some_bits : n.upper ≢ 0 = ground arith in
      let split : 2 ^ (64 + count_bits 64 n.upper) ≡ 2 ^ 64 * 2 ^ count_bits 64 n.upper =
        pow_add 2 64 (count_bits 64 n.upper) in
      rw e (
        omega arith,
        omega arith,
        inr (elim tight [ inl (z, no_bits) ↦ absurd (some_bits z) | inr t ↦ omega arith ]),
      )
]
