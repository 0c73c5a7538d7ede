-- ===== src/Uint128/Division.antt =====
-- The division of uint128.c.
use native.Mathlib.Nat.{pow-suc, mul_assoc, mul-le-mul_left}
use ledger_ambire_signer.Base.{
  ℕ, zero, suc, ◌+◌, ◌-◌, ◌*◌, ◌^◌, ◌≤◌, ◌<◌, ◌≡◌, ◌∙◌, sym, refl, arith, Bool, true, false, leb,
  leb→le, if◌then◌else◌, Bool-cases, inl, inr, some,
}
use ledger_ambire_signer.Uint128.{Uint128, shiftr128, gte128, or128, sub128, divmod128_loop}
use ledger_ambire_signer.Uint128.Arithmetic.{HasWords, value128, sub128-value, gt128-value}
use ledger_ambire_signer.Uint128.Shifts.{shiftr128-half}
use ledger_ambire_signer.Uint128.Disjunction.{or128-value}

-- The result of a division of `l` by `r`: the quotient and the remainder.
pub record IsQuotient (l r : ℕ) (q m : Uint128) : Type 0 where
  pub quotient_words : HasWords q
  pub rest_words : HasWords m
  pub divides : l ≡ value128 q * r + value128 m
  pub less : value128 m < r

-- Before the round for the digit `k`: what has been taken off `l` is a multiple of the next digit,
-- and the rest is below twice the shifted divisor.
pub record IsDividing (l r k : ℕ) (q m : Uint128) : Type 0 where
  pub quotient_words : HasWords q
  pub rest_words : HasWords m
  pub digits : ℕ
  pub multiple : value128 q ≡ digits * 2 ^ k
  pub divides : l ≡ value128 q * r + value128 m
  pub below : value128 m < r * 2 ^ k

divmod128_loop_stops :
    (fuel : ℕ) (r copyd adder q m : Uint128)
    → gte128 m r ≡ false
    → divmod128_loop (suc fuel) r copyd adder q m ≡ some (q, m)
unfolding divmod128_loop
divmod128_loop_stops fuel r copyd adder q m e = ground arith

abbrev next_q : Bool → Uint128 → Uint128 → Uint128
next_q fits q adder = if fits then or128 q adder else q

abbrev next_m : Bool → Uint128 → Uint128 → Uint128
next_m fits m copyd = if fits then sub128 m copyd else m

divmod128_loop_round :
    (fuel : ℕ) (r copyd adder q m : Uint128)
    → gte128 m r ≡ true
    → divmod128_loop (suc fuel) r copyd adder q m
      ≡ divmod128_loop fuel r
          (shiftr128 copyd 1)
          (shiftr128 adder 1)
          (next_q (gte128 m copyd) q adder)
          (next_m (gte128 m copyd) m copyd)
unfolding divmod128_loop
divmod128_loop_round fuel r copyd adder q m e = rw e refl

double_digits : (n k : ℕ) → n * 2 ^ suc k ≡ n * 2 * 2 ^ k
double_digits n k = rw (pow-suc 2 k) (grind arith)

odd_digits : (n k : ℕ) → (n * 2 + 1) * 2 ^ k ≡ n * 2 ^ suc k + 2 ^ k
odd_digits n k = rw (pow-suc 2 k) (grind arith)

times_two : (n k : ℕ) → n * 2 * 2 ^ k ≡ n * 2 ^ k * 2
times_two n k = grind arith

add_times : (a b r : ℕ) → (a + b) * r ≡ a * r + r * b
add_times a b r = grind arith

-- One digit.
round-IsDividing :
    (l r k : ℕ) (copyd adder q m : Uint128)
    → l < 2 ^ 128
    → 0 < r
    → HasWords copyd
    → HasWords adder
    → value128 copyd ≡ r * 2 ^ k
    → value128 adder ≡ 2 ^ k
    → IsDividing l r (suc k) q m
    → IsDividing l r k (next_q (gte128 m copyd) q adder) (next_m (gte128 m copyd) m copyd)
round-IsDividing l r k copyd adder q m small some_r wc wa ec ea v =
    let twice : r * 2 ^ suc k ≡ r * 2 ^ k * 2 = rw (pow-suc 2 k) (sym (mul_assoc r (2 ^ k) 2)) in
    let even : v.digits * 2 ^ suc k ≡ v.digits * 2 * 2 ^ k = double_digits v.digits k in
    let (gt, gte, eq, z) = gt128-value m copyd v.rest_words wc in
    elim (Bool-cases (leb (value128 copyd) (value128 m))) [
      | inl fits ↦
          let le : value128 copyd ≤ value128 m = leb→le (value128 copyd) (value128 m) fits in
          let (ws, vs) = sub128-value m copyd v.rest_words wc in
          let rest : value128 (sub128 m copyd) ≡ value128 m - r * 2 ^ k =
            omega (arith, vs, le, ec) in
          let sum : (value128 q + 2 ^ k) * r ≡ value128 q * r + r * 2 ^ k =
            add_times (value128 q) (2 ^ k) r in
          let most : (value128 q + 2 ^ k) * 1 ≤ (value128 q + 2 ^ k) * r =
            mul-le-mul_left (value128 q + 2 ^ k) some_r in
          let (wo, vo) =
            or128-value q adder k v.digits v.quotient_words wa ea v.multiple (omega arith) in
          let joined : value128 (or128 q adder) ≡ value128 q + 2 ^ k = omega arith in
          rw (gte, fits)
            (record {
              quotient_words = wo;
              rest_words = ws;
              digits = v.digits * 2 + 1;
              multiple = omega (arith, odd_digits v.digits k);
              divides = rw (rest, joined, sum) (omega arith);
              below = omega arith;
            })
      | inr small_rest ↦
          rw (gte, small_rest)
            (record {
              quotient_words = v.quotient_words;
              rest_words = v.rest_words;
              digits = v.digits * 2;
              multiple = omega arith;
              divides = v.divides;
              below = ground arith;
            })
    ]

-- The loop ends where the rest is below the divisor.
loop_ends :
    (fuel l k : ℕ) (r copyd adder q m : Uint128)
    → HasWords r
    → IsDividing l (value128 r) k q m
    → value128 m < value128 r
    → (q' : Uint128) × (m' : Uint128) × (divmod128_loop (suc fuel) r copyd adder q m
        ≡ some (q', m'))
      × IsQuotient l (value128 r) q' m'
loop_ends fuel l k r copyd adder q m wr v lt =
    let (gt, gte, eq, z) = gt128-value m r v.rest_words wr in
    (
      q,
      m,
      divmod128_loop_stops fuel r copyd adder q m (gte ∙ ground arith),
      record {
        quotient_words = v.quotient_words;
        rest_words = v.rest_words;
        divides = v.divides;
        less = lt;
      },
    )

-- With a round for each digit, and one to see the end, the loop divides.
abbrev LoopDivides : ℕ → Type 0
LoopDivides fuel =
    (l k : ℕ) (r copyd adder q m : Uint128)
    → k + 2 ≤ fuel
    → l < 2 ^ 128
    → HasWords r
    → 0 < value128 r
    → HasWords copyd
    → HasWords adder
    → value128 copyd ≡ value128 r * 2 ^ k
    → value128 adder ≡ 2 ^ k
    → IsDividing l (value128 r) (suc k) q m
    → (q' : Uint128) × (m' : Uint128) × (divmod128_loop fuel r copyd adder q m ≡ some (q', m'))
      × IsQuotient l (value128 r) q' m'

-- The rounds behind that for the digit `k`.
pub lower_digits :
    (fuel : ℕ)
    → LoopDivides fuel
    → (l k : ℕ) (r copyd adder q m : Uint128) → k + 1 ≤ fuel
    → l < 2 ^ 128
    → HasWords r
    → 0 < value128 r
    → HasWords copyd
    → HasWords adder
    → value128 copyd ≡ value128 r * 2 ^ k
    → value128 adder ≡ 2 ^ k
    → IsDividing l (value128 r) k q m
    → (q' : Uint128) × (m' : Uint128) × (divmod128_loop fuel r
          (shiftr128 copyd 1)
          (shiftr128 adder 1)
          q
          m
        ≡ some (q', m'))
      × IsQuotient l (value128 r) q' m'
lower_digits zero ih l k r copyd adder q m enough small wr some_r wc wa ec ea v =
    absurd (omega arith)
lower_digits (suc fuel) ih l zero r copyd adder q m enough small wr some_r wc wa ec ea v =
    loop_ends fuel l 0 r (shiftr128 copyd 1) (shiftr128 adder 1) q m wr v (omega (arith, v.below))
lower_digits (suc fuel) ih l (suc k) r copyd adder q m enough small wr some_r wc wa ec ea v =
    let (wc', hc) = shiftr128-half copyd wc in
    let (wa', ha) = shiftr128-half adder wa in
    let half : value128 (shiftr128 copyd 1) ≡ value128 r * 2 ^ k =
      omega (arith, hc, ec, double_digits (value128 r) k, times_two (value128 r) k) in
    let half_one : value128 (shiftr128 adder 1) ≡ 2 ^ k = omega (arith, ha, ea, pow-suc 2 k) in
    ih l k r (shiftr128 copyd 1) (shiftr128 adder 1) q m (omega arith) small wr some_r wc' wa' half
      half_one v

pub divmod128_loop-IsQuotient : (fuel : ℕ) → LoopDivides fuel
divmod128_loop-IsQuotient zero l k r copyd adder q m enough small wr some_r wc wa ec ea v =
    absurd (omega arith)
divmod128_loop-IsQuotient (suc fuel) l k r copyd adder q m enough small wr some_r wc wa ec ea v =
    let (gt, gte, eq, z) = gt128-value m r v.rest_words wr in
    elim (Bool-cases (leb (value128 r) (value128 m))) [
      | inr less ↦ loop_ends fuel l (suc k) r copyd adder q m wr v (ground arith)
      | inl more ↦ rw (divmod128_loop_round fuel r copyd adder q m (gte ∙ more)) (
          lower_digits fuel (divmod128_loop-IsQuotient fuel) l k r copyd adder
            (next_q (gte128 m copyd) q adder) (next_m (gte128 m copyd) m copyd) (omega arith) small
            wr some_r wc wa ec ea
            (round-IsDividing l (value128 r) k copyd adder q m small some_r wc wa ec ea v))
    ]
