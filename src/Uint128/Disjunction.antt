-- ===== src/Uint128/Disjunction.antt =====
-- A quotient's digit joins it by `or128`: the words have no common digit.
use Prim.Native.Nat.{bit_or}
use native.Mathlib.Nat.{
  pow-suc, mul-sub, pow-le-pow_right, mul-le-mul_right, mul_assoc, mul_comm, one-le-pow,
}
use ledger_ambire_signer.Base.{
  ℕ, suc, ◌+◌, ◌-◌, ◌*◌, ◌^◌, ◌≤◌, ◌<◌, ◌≡◌, ◌∙◌, sym, ap, arith, ltb, Bool-cases, inl, inr, ltb→lt,
}
use ledger_ambire_signer.Base.Bits.{bit_or-eq-add, bit_or-zero}
use ledger_ambire_signer.Base.Bytes.{pow_add}
use ledger_ambire_signer.Uint128.{Uint128, or128}
use ledger_ambire_signer.Uint128.Arithmetic.{HasWords, value128}

-- Below a multiple of `m` there is room for `r < m`.
below_multiple : (s c m r : ℕ) → s * m < c * m → r < m → s * m + r < c * m
below_multiple s c m r h lt = elim (Bool-cases (ltb s c)) [
  | inl less ↦
      let step : suc s * m ≤ c * m = mul-le-mul_right m (ltb→lt s c less) in grind (arith, step)
  | inr more ↦
      let back : c * m ≤ s * m = mul-le-mul_right m (ground arith) in absurd (omega (arith, back))
]

pow_split : (a b n : ℕ) → a + b ≡ n → 2 ^ n ≡ 2 ^ a * 2 ^ b
pow_split a b n e = ap (λ (k : ℕ). 2 ^ k) (sym e) ∙ pow_add 2 a b

low_le : (k : ℕ) → k < 64 → suc k ≤ 64
low_le k h = h

-- The lower word of a multiple of `m`, where words are multiples of `m`.
lower_words : (u l t c m : ℕ) → u * 2 ^ 64 + l ≡ t * m → 2 ^ 64 ≡ c * m → l ≡ (t - u * c) * m
lower_words u l t c m e word =
    let sub : (t - u * c) * m ≡ m * t - m * (u * c) =
      mul_comm (t - u * c) m ∙ mul-sub m t (u * c) in
    let all : m * t ≡ t * m = mul_comm m t in
    let front : m * (u * c) ≡ u * 2 ^ 64 =
      mul_comm m (u * c) ∙ mul_assoc u c m ∙ ap (λ (k : ℕ). u * k) (sym word) in
    omega (arith, sub, all, front)

or128-value_low :
    (q adder : Uint128) (k t : ℕ)
    → HasWords q
    → HasWords adder
    → k < 64
    → value128 adder ≡ 2 ^ k
    → value128 q ≡ t * 2 ^ suc k
    → HasWords (or128 q adder) × (value128 (or128 q adder) ≡ value128 q + value128 adder)
unfolding or128
or128-value_low q adder k t wq wa low ea eq =
    let c : ℕ = 2 ^ (63 - k) in
    let m : ℕ = 2 ^ suc k in
    let s : ℕ = t - q.upper * c in
    let twice : m ≡ 2 ^ k * 2 = pow-suc 2 k in
    let word : 2 ^ 64 ≡ c * m = pow_split (63 - k) (suc k) 64 (omega arith) in
    let whole : 2 ^ 64 ≡ 2 ^ (64 - k) * 2 ^ k = pow_split (64 - k) k 64 (omega arith) in
    let some_digit : 1 ≤ 2 ^ k = one-le-pow k 2 (omega arith) in
    let small : 2 ^ k < 2 ^ 64 = omega (
      arith,
      pow-le-pow_right {n = 2} (omega arith) (low_le k low),
      twice,
      one-le-pow k 2 (omega arith),
    ) in
    let top : adder.upper ≡ 0 = omega arith in
    let digit : adder.lower ≡ 2 ^ k = omega arith in
    let lower : q.lower ≡ s * m = lower_words q.upper q.lower t c m eq word in
    let joined : bit_or q.lower adder.lower ≡ s * m + 2 ^ k =
      rw (lower, digit) (bit_or-eq-add (suc k) s (2 ^ k) (omega arith)) in
    let kept : bit_or q.upper adder.upper ≡ q.upper = rw top (bit_or-zero q.upper) in
    let room : s * m + 2 ^ k < c * m = below_multiple s c m (2 ^ k) (omega arith) (omega arith) in
    rw (joined, kept) ((omega arith, omega arith), omega arith)

or128-value_high :
    (q adder : Uint128) (k t : ℕ)
    → HasWords q
    → HasWords adder
    → 64 ≤ k
    → value128 adder ≡ 2 ^ k
    → value128 q ≡ t * 2 ^ suc k
    → value128 q + 2 ^ k < 2 ^ 128
    → HasWords (or128 q adder) × (value128 (or128 q adder) ≡ value128 q + value128 adder)
unfolding or128
or128-value_high q adder k t wq wa high ea eq room =
    let j : ℕ = k - 64 in
    let m : ℕ = 2 ^ suc j in
    let twice : m ≡ 2 ^ j * 2 = pow-suc 2 j in
    let word : 2 ^ k ≡ 2 ^ j * 2 ^ 64 = pow_split j 64 k (omega arith) in
    let next : 2 ^ suc k ≡ m * 2 ^ 64 = pow_split (suc j) 64 (suc k) (omega arith) in
    let some_digit : 1 ≤ 2 ^ j = one-le-pow j 2 (omega arith) in
    let there : t * 2 ^ suc k ≡ t * m * 2 ^ 64 =
      ap (λ (k : ℕ). t * k) next ∙ sym (mul_assoc t m (2 ^ 64)) in
    let top : adder.upper ≡ 2 ^ j = omega arith in
    let bottom : adder.lower ≡ 0 = omega arith in
    let upper : q.upper ≡ t * m = omega arith in
    let lower : q.lower ≡ 0 = omega arith in
    let joined : bit_or q.upper adder.upper ≡ t * m + 2 ^ j =
      rw (upper, top) (bit_or-eq-add (suc j) t (2 ^ j) (omega arith)) in
    let kept : bit_or q.lower adder.lower ≡ 0 = rw (lower, bottom) (bit_or-zero 0) in
    rw (joined, kept) ((omega arith, omega arith), omega arith)

-- For words within 64 bits, or128 of a multiple of 2 ^ suc k and 2 ^ k is their sum, where
-- that is below 2 ^ 128.
pub or128-value :
    (q adder : Uint128) (k t : ℕ)
    → HasWords q
    → HasWords adder
    → value128 adder ≡ 2 ^ k
    → value128 q ≡ t * 2 ^ suc k
    → value128 q + 2 ^ k < 2 ^ 128
    → HasWords (or128 q adder) × (value128 (or128 q adder) ≡ value128 q + value128 adder)
or128-value q adder k t wq wa ea eq room = elim (Bool-cases (ltb k 64)) [
  | inl low ↦ or128-value_low q adder k t wq wa (ltb→lt k 64 low) ea eq
  | inr high ↦ or128-value_high q adder k t wq wa (ground arith) ea eq room
]
