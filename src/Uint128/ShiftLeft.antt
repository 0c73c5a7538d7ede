-- ===== src/Uint128/ShiftLeft.antt =====
-- The general shift to the left of uint128.c, where the result fits.
use native.Mathlib.Nat.{mul-div-mul_right, one-le-pow, mul-le-mul_left}
use ledger_ambire_signer.Base.{
  ℕ, ◌+◌, ◌-◌, ◌*◌, ◌/◌, ◌%◌, ◌^◌, ◌≤◌, ◌<◌, ◌≡◌, ◌∙◌, sym, ap, arith, false, leb, ltb, ◌==◌,
  Bool-cases, inl, inr,
}
use ledger_ambire_signer.Base.Bytes.{pow_add}
use ledger_ambire_signer.Uint128.{Uint128, shiftl128}
use ledger_ambire_signer.Uint128.Arithmetic.{HasWords, value128}

-- The words of a short shift: `x` is the upper word times `2 ^ d`, `y` the lower one's.
short_words :
    (x y z : ℕ)
    → y / 2 ^ 64 ≡ z
    → x * 2 ^ 64 + y < 2 ^ 128
    → (x % 2 ^ 64 + z) % 2 ^ 64 * 2 ^ 64 + y % 2 ^ 64 ≡ x * 2 ^ 64 + y
short_words x y z e h = omega arith

-- The upper part of the lower word moves to the upper word.
carried : (l d : ℕ) → d < 64 → l * 2 ^ d / 2 ^ 64 ≡ l / 2 ^ (64 - d)
carried l d h =
    let whole : 64 - d + d ≡ 64 = omega arith in
    let split : 2 ^ 64 ≡ 2 ^ (64 - d) * 2 ^ d =
      ap (λ (k : ℕ). 2 ^ k) (sym whole) ∙ pow_add 2 (64 - d) d in
    ap (λ (k : ℕ). l * 2 ^ d / k) split
    ∙ mul-div-mul_right l (2 ^ (64 - d)) (one-le-pow d 2 (omega arith))

factor : (u l p : ℕ) → (u * 2 ^ 64 + l) * (p * 2 ^ 64) ≡ (u * p * 2 ^ 64 + l * p) * 2 ^ 64
factor u l p = grind arith

-- From 64 on the upper word is lost, which is 0 where the product fits.
shiftl128-value_long :
    (n : Uint128) (d : ℕ)
    → HasWords n
    → d < 128
    → 64 ≤ d
    → value128 n * 2 ^ d < 2 ^ 128
    → HasWords (shiftl128 n d) × (value128 (shiftl128 n d) ≡ value128 n * 2 ^ d)
unfolding shiftl128
shiftl128-value_long n d w small long fits =
    let u : ℕ = n.upper in
    let l : ℕ = n.lower in
    let p : ℕ = 2 ^ (d - 64) in
    let whole : d - 64 + 64 ≡ d = omega arith in
    let split : 2 ^ d ≡ p * 2 ^ 64 = ap (λ (k : ℕ). 2 ^ k) (sym whole) ∙ pow_add 2 (d - 64) 64 in
    let in_words : value128 n * 2 ^ d ≡ (u * p * 2 ^ 64 + l * p) * 2 ^ 64 =
      rw split (factor u l p) in
    let some_p : 1 ≤ p = one-le-pow (d - 64) 2 (omega arith) in
    let most : u * 1 ≤ u * p = mul-le-mul_left u some_p in
    let lost : u ≡ 0 = omega arith in
    let room : l * p < 2 ^ 64 = omega arith in
    let wide : leb 128 d ≡ false = ground arith in
    elim (Bool-cases (d == 64)) [
      | inl e ↦
          let at_64 : d ≡ 64 = ground arith in rw (at_64) ((omega arith, omega arith), omega arith)
      | inr e ↦
          let nz : (d == 0) ≡ false = ground arith in
          let far : ltb d 64 ≡ false = ground arith in
          rw (wide, e, nz, far, in_words) ((omega arith, omega arith), omega arith)
    ]

-- For words within 64 bits, a shift to the left by less than 128 multiplies by the power of
-- two, where the product is below 2 ^ 128.
pub shiftl128-value :
    (n : Uint128) (d : ℕ)
    → HasWords n
    → d < 128
    → value128 n * 2 ^ d < 2 ^ 128
    → HasWords (shiftl128 n d) × (value128 (shiftl128 n d) ≡ value128 n * 2 ^ d)
unfolding shiftl128
shiftl128-value n d w small fits =
    let u : ℕ = n.upper in
    let l : ℕ = n.lower in
    let in_words : value128 n * 2 ^ d ≡ u * 2 ^ d * 2 ^ 64 + l * 2 ^ d = grind arith in
    let narrow : leb 128 d ≡ false = ground arith in
    elim (Bool-cases (ltb d 64)) [
      | inl short ↦ elim (Bool-cases (d == 0)) [
        | inl e ↦ let z : d ≡ 0 = ground arith in rw z (w, omega arith)
        | inr e ↦
            let nz : (d == 64) ≡ false = ground arith in
            rw (narrow, nz, e, short, in_words)
              (
                (omega arith, omega arith),
                short_words (u * 2 ^ d) (l * 2 ^ d) (l / 2 ^ (64 - d)) (carried l d (ground arith))
                    (omega arith),
              )
      ]
      | inr long ↦ shiftl128-value_long n d w small (ground arith) fits
    ]
