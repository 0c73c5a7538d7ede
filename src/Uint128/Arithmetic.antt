-- ===== src/Uint128/Arithmetic.antt =====
-- The arithmetic and the comparisons of uint128.c against the numbers that the words write.
use ledger_ambire_signer.Base.{
  ℕ, ◌+◌, ◌-◌, ◌*◌, ◌%◌, ◌^◌, ◌<◌, ◌≡◌, arith, ltb, leb, ◌==◌, Bool-cases, inl, inr,
}
use ledger_ambire_signer.Uint128.{Uint128, add128, sub128, gt128, gte128, equal128, zero128}

-- Both words are within 64 bits.
abbrev pub HasWords : Uint128 → Type 0
HasWords n = (n.upper < 2 ^ 64) × (n.lower < 2 ^ 64)

abbrev pub value128 : Uint128 → ℕ
value128 n = n.upper * 2 ^ 64 + n.lower

-- For words within 64 bits, add128 adds modulo 2 ^ 128, and its words are within 64 bits.
pub add128-value :
    (a b : Uint128)
    → HasWords a
    → HasWords b
    → HasWords (add128 a b) × (value128 (add128 a b) ≡ (value128 a + value128 b) % 2 ^ 128)
unfolding add128
add128-value a b ha hb = elim (Bool-cases (ltb ((a.lower + b.lower) % 2 ^ 64) a.lower)) [
  | inl carry ↦ rw carry ((omega arith, omega arith), ground arith)
  | inr none ↦ rw none ((omega arith, omega arith), ground arith)
]

-- For words within 64 bits, sub128 subtracts modulo 2 ^ 128, and its words are within 64 bits.
pub sub128-value :
    (a b : Uint128)
    → HasWords a
    → HasWords b
    → HasWords (sub128 a b)
      × (value128 (sub128 a b) ≡ (2 ^ 128 + value128 a - value128 b) % 2 ^ 128)
unfolding sub128
sub128-value a b ha hb = elim (Bool-cases (ltb a.lower ((2 ^ 64 + a.lower - b.lower) % 2 ^ 64))) [
  | inl borrow ↦ rw borrow ((omega arith, omega arith), ground arith)
  | inr none ↦ rw none ((omega arith, omega arith), ground arith)
]

-- For words within 64 bits, the comparisons of 128-bit numbers compare the numbers, and the
-- test for zero tests the number.
pub gt128-value :
    (a b : Uint128)
    → HasWords a
    → HasWords b
    → (gt128 a b ≡ ltb (value128 b) (value128 a))
      × (gte128 a b ≡ leb (value128 b) (value128 a))
      × (equal128 a b ≡ (value128 a == value128 b))
      × (zero128 a ≡ (value128 a == 0))
unfolding gt128 gte128 equal128 zero128
gt128-value a b ha hb = ground arith
