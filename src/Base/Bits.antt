-- ===== src/Base/Bits.antt =====
-- `|` of two numbers without a common binary digit is their sum. The native `bit_or` means a
-- recursion on binary digits with fuel; the first lemmas drop the fuel.
use Prim.Native.Nat.{max, digits, bit_or, bit_or-bitwise}
use mathlib.Core.WellFounded
use native.Mathlib.Nat.{le_refl, pow-suc}
use ledger_ambire_signer.Base.{
  ℕ, zero, suc, ◌+◌, ◌*◌, ◌/◌, ◌%◌, ◌^◌, ◌≤◌, ◌<◌, ◌≡◌, refl, ap, arith,
}
use ledger_ambire_signer.Base.Order.{lt_wf}

abbrev or_digits : ℕ → ℕ → ℕ → ℕ
or_digits n a b = digits (λ b. b) max n a b

or_digits_fuel : (n m a b : ℕ) → a ≤ n → a ≤ m → or_digits n a b ≡ or_digits m a b
or_digits_fuel zero zero a b p q = refl
or_digits_fuel zero (suc m) zero b p q = refl
or_digits_fuel zero (suc m) (suc a) b p q = absurd (omega arith)
or_digits_fuel (suc n) zero zero b p q = refl
or_digits_fuel (suc n) zero (suc a) b p q = absurd (omega arith)
or_digits_fuel (suc n) (suc m) zero b p q = refl
or_digits_fuel (suc n) (suc m) (suc a) b p q =
    omega (arith, or_digits_fuel n m (suc a / 2) (b / 2) (omega arith) (omega arith))

zero-bit_or : (b : ℕ) → bit_or 0 b ≡ b
zero-bit_or b = bit_or-bitwise 0 b

-- The lowest digit of a disjunction, and the others.
bit_or_digit : (a b : ℕ) → bit_or a b ≡ bit_or (a / 2) (b / 2) * 2 + max (a % 2) (b % 2)
bit_or_digit zero b = omega (arith, zero-bit_or b, zero-bit_or (b / 2))
bit_or_digit (suc a) b = omega (
  arith,
  bit_or-bitwise (suc a) b,
  bit_or-bitwise (suc a / 2) (b / 2),
  or_digits_fuel a (suc a / 2) (suc a / 2) (b / 2) (omega arith) (le_refl _),
)

pub bit_or-zero : (a : ℕ) → bit_or a 0 ≡ a
bit_or-zero a =
    WellFounded.induction lt_wf {C = λ k. bit_or k 0 ≡ k} a
      λ k ih. ground (arith, zero-bit_or 0, bit_or_digit k 0, ih (k / 2))

twice_pow : (q k : ℕ) → q * 2 ^ suc k ≡ 2 * (q * 2 ^ k)
twice_pow q k = omega (arith, ap (λ (t : ℕ). q * t) (pow-suc 2 k))

-- A number below 2 ^ k joins a multiple of 2 ^ k by addition.
pub bit_or-eq-add : (k q r : ℕ) → r < 2 ^ k → bit_or (q * 2 ^ k) r ≡ q * 2 ^ k + r
bit_or-eq-add zero q r h = ground (arith, bit_or-zero q)
bit_or-eq-add (suc k) q r h =
    ground
      (arith, bit_or_digit (q * 2 ^ suc k) r, twice_pow q k, pow-suc 2 k, bit_or-eq-add k q (r / 2))
