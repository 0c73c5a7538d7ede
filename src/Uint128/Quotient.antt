-- ===== src/Uint128/Quotient.antt =====
-- divmod128 as a whole: the division of the numbers.
use native.Mathlib.Nat.{pow-suc, one-le-pow, pow-le-pow_right, mul-le-mul_right, one-mul}
use ledger_ambire_signer.Base.{
  ℕ, suc, ◌+◌, ◌-◌, ◌*◌, ◌%◌, ◌^◌, ◌≤◌, ◌<◌, ◌≡◌, ◌∙◌, sym, refl, ap, arith, true, false, leb, ltb,
  leb→le, ◌==◌, if◌then◌else◌, Bool-cases, inl, inr, some,
}
use ledger_ambire_signer.Base.Bytes.{pow_add}
use ledger_ambire_signer.Uint128.{
  Uint128, shiftr128, shiftl128, gt128, divmod128_loop, divmod128, cleared128, one128, bits128,
}
use ledger_ambire_signer.Uint128.Arithmetic.{HasWords, value128, gt128-value}
use ledger_ambire_signer.Uint128.Shifts.{bits128-IsTight}
use ledger_ambire_signer.Uint128.ShiftLeft.{shiftl128-value}
use ledger_ambire_signer.Uint128.Division.{
  IsQuotient, IsDividing, divmod128_loop-IsQuotient, lower_digits,
}

-- The first shifted divisor: it fits, and its double is above the dividend.
record IsAligned (l r : Uint128) (d : ℕ) : Type 0 where
  difference : (2 ^ 32 + bits128 l - bits128 r) % 2 ^ 32 ≡ d
  shift_fits : d < 128
  product_fits : value128 r * 2 ^ d < 2 ^ 128
  digit_fits : 2 ^ d < 2 ^ 128
  above : value128 l < value128 r * 2 ^ suc d

bits_le :
    (l r : Uint128)
    → HasWords l
    → HasWords r
    → 0 < value128 r
    → value128 r ≤ value128 l
    → (bits128 r ≤ bits128 l) × (1 ≤ bits128 r)
bits_le l r wl wr some_r le =
    let (bl_up, bl_few, bl_tight) = bits128-IsTight l wl in
    let (br_up, br_few, br_tight) = bits128-IsTight r wr in
    let tight : 2 ^ bits128 r ≤ 2 * value128 r = elim br_tight [
      | inl (e, no_bits) ↦ absurd (omega arith)
      | inr t ↦ t
    ] in
    let twice : 2 ^ suc (bits128 l) ≡ 2 ^ bits128 l * 2 = pow-suc 2 (bits128 l) in
    (
      elim (Bool-cases (leb (bits128 r) (bits128 l))) [
        | inl ordered ↦ leb→le (bits128 r) (bits128 l) ordered
        | inr swapped ↦
            let lt : suc (bits128 l) ≤ bits128 r = ground arith in
            let far : 2 ^ suc (bits128 l) ≤ 2 ^ bits128 r =
              pow-le-pow_right {n = 2} (omega arith) lt in
            absurd (omega arith)
      ],
      elim (Bool-cases (bits128 r == 0)) [
        | inl e ↦
            let none : bits128 r ≡ 0 = ground arith in
            let one : 2 ^ bits128 r ≡ 1 = ap (λ (k : ℕ). 2 ^ k) none in absurd (omega arith)
        | inr e ↦ ground arith
      ],
    )

divisor-IsAligned :
    (l r : Uint128)
    → HasWords l
    → HasWords r
    → 0 < value128 r
    → value128 r ≤ value128 l
    → IsAligned l r (bits128 l - bits128 r)
divisor-IsAligned l r wl wr some_r le =
    let (bl_up, bl_few, bl_tight) = bits128-IsTight l wl in
    let (br_up, br_few, br_tight) = bits128-IsTight r wr in
    let (ordered, one_bit) = bits_le l r wl wr some_r le in
    let d : ℕ = bits128 l - bits128 r in
    let whole : bits128 r + d ≡ bits128 l = omega arith in
    let split : 2 ^ bits128 l ≡ 2 ^ bits128 r * 2 ^ d =
      ap (λ (k : ℕ). 2 ^ k) (sym whole) ∙ pow_add 2 (bits128 r) d in
    let some_digit : 1 ≤ 2 ^ d = one-le-pow d 2 (omega arith) in
    let top : 2 ^ bits128 l ≤ 2 ^ 128 = pow-le-pow_right {n = 2} (omega arith) bl_few in
    let fits : suc (value128 r) * 2 ^ d ≤ 2 ^ bits128 r * 2 ^ d = mul-le-mul_right (2 ^ d) br_up in
    let more : suc (value128 r) * 2 ^ d ≡ 2 ^ d + value128 r * 2 ^ d = grind arith in
    let tight : 2 ^ bits128 r ≤ 2 * value128 r = elim br_tight [
      | inl (e, no_bits) ↦ absurd (omega arith)
      | inr t ↦ t
    ] in
    let doubled : 2 ^ bits128 r * 2 ^ d ≤ 2 * value128 r * 2 ^ d = mul-le-mul_right (2 ^ d) tight in
    let twice : 2 * value128 r * 2 ^ d ≡ value128 r * 2 ^ suc d = rw (pow-suc 2 d) (grind arith) in
    record {
      difference = omega arith;
      shift_fits = omega arith;
      product_fits = omega arith;
      digit_fits = omega arith;
      above = omega arith;
    }

divmod128_smaller :
    (l r : Uint128)
    → HasWords l
    → HasWords r
    → value128 l < value128 r
    → divmod128 l r ≡ some (cleared128, l)
unfolding divmod128
divmod128_smaller l r wl wr lt =
    let (gt, gte, eq, z) = gt128-value r l wr wl in
    let above : ltb (value128 l) (value128 r) ≡ true = ground arith in rw (gt, above) refl

divmod128_larger :
    (l r : Uint128) (d : ℕ)
    → HasWords l
    → HasWords r
    → value128 r ≤ value128 l
    → (2 ^ 32 + bits128 l - bits128 r) % 2 ^ 32 ≡ d
    → divmod128 l r ≡ (
        if gt128 (shiftl128 r d) l
        then divmod128_loop 130 r
            (shiftr128 (shiftl128 r d) 1)
            (shiftr128 (shiftl128 one128 d) 1)
            cleared128
            l
        else divmod128_loop 130 r (shiftl128 r d) (shiftl128 one128 d) cleared128 l)
unfolding divmod128
divmod128_larger l r d wl wr le e =
    let (gt, gte, eq, z) = gt128-value r l wr wl in
    let below : ltb (value128 l) (value128 r) ≡ false = ground arith in rw (gt, below, e) refl

aligned_division :
    (l r : Uint128) (d : ℕ)
    → HasWords l
    → HasWords r
    → 0 < value128 r
    → value128 r ≤ value128 l
    → IsAligned l r d
    → (q : Uint128) × (m : Uint128) × (divmod128 l r ≡ some (q, m))
      × IsQuotient (value128 l) (value128 r) q m
aligned_division l r d wl wr some_r le a =
    let small : value128 l < 2 ^ 128 = omega arith in
    let (wc, ec) = shiftl128-value r d wr a.shift_fits a.product_fits in
    let one : value128 one128 * 2 ^ d ≡ 2 ^ d = one-mul (2 ^ d) in
    let (wa, ea) =
      shiftl128-value one128 d (omega arith, omega arith) a.shift_fits
        (omega (arith, one, a.digit_fits)) in
    let (gt, gte, eq, z) = gt128-value (shiftl128 r d) l wc wl in
    rw (divmod128_larger l r d wl wr le a.difference, gt)
      (elim (Bool-cases (ltb (value128 l) (value128 (shiftl128 r d)))) [
        | inl above ↦ rw above (
            lower_digits 130 (divmod128_loop-IsQuotient 130) (value128 l) d r (shiftl128 r d)
              (shiftl128 one128 d) cleared128 l (omega (arith, a.shift_fits)) small wr some_r wc wa
              ec (ea ∙ one) (start d (ground arith)))
        | inr fits ↦ rw fits (
            divmod128_loop-IsQuotient 130 (value128 l) d r (shiftl128 r d) (shiftl128 one128 d)
              cleared128 l (omega (arith, a.shift_fits)) small wr some_r wc wa ec (ea ∙ one)
              (start (suc d) a.above))
      ])
  where
    start :
        (k : ℕ)
        → value128 l < value128 r * 2 ^ k
        → IsDividing (value128 l) (value128 r) k cleared128 l
    start k below = record {
      quotient_words = (omega arith, omega arith);
      rest_words = wl;
      digits = 0;
      multiple = omega arith;
      divides = omega arith;
      below = below;
    }

-- For words within 64 bits and a divisor that is not 0, the division ends within its fuel,
-- with a quotient and a remainder within their words: the dividend is their product and sum,
-- and the remainder is below the divisor.
pub divmod128-IsQuotient :
    (l r : Uint128)
    → HasWords l
    → HasWords r
    → 0 < value128 r
    → (q : Uint128) × (m : Uint128) × (divmod128 l r ≡ some (q, m))
      × HasWords q
      × HasWords m
      × (value128 l ≡ value128 q * value128 r + value128 m)
      × (value128 m < value128 r)
divmod128-IsQuotient l r wl wr some_r = elim (Bool-cases (leb (value128 r) (value128 l))) [
  | inl le ↦
      let ordered : value128 r ≤ value128 l = leb→le (value128 r) (value128 l) le in
      let (q, m, e, v) =
        aligned_division l r (bits128 l - bits128 r) wl wr some_r ordered
          (divisor-IsAligned l r wl wr some_r ordered) in
      (q, m, e, v.quotient_words, v.rest_words, v.divides, v.less)
  | inr above ↦
      let lt : value128 l < value128 r = ground arith in
      (
        cleared128,
        l,
        divmod128_smaller l r wl wr lt,
        (omega arith, omega arith),
        wl,
        omega arith,
        lt,
      )
]
