-- ===== src/Uint128/Tests.antt =====
-- The 128-bit numbers at concrete inputs.
use ledger_ambire_signer.Base.{
  ℕ, Bool, true, none, List, [], length, refl, some, ◌+◌, ◌-◌, ◌*◌, ◌/◌, ◌%◌, ◌^◌, ◌≤◌, ◌<◌, ◌≡◌,
  ◌⊎◌, arith, ltb, leb, ◌==◌,
}
use ledger_ambire_signer.Uint128.{
  Sdk, tostring128, Uint128, add128, sub128, gt128, gte128, equal128, zero128, shiftr128, shiftl128,
  or128, one128, divmod128, bits128,
}
use ledger_ambire_signer.Uint128.Arithmetic.{
  HasWords, value128, add128-value, sub128-value, gt128-value,
}
use ledger_ambire_signer.Uint128.ShiftLeft.{shiftl128-value}
use ledger_ambire_signer.Uint128.Disjunction.{or128-value}
use ledger_ambire_signer.Uint128.Text.{tostring128-Fits}
use ledger_ambire_signer.Uint128.Quotient.{divmod128-IsQuotient}
use ledger_ambire_signer.Uint128.Shifts.{shiftr128-half, bits128-IsTight}

abbrev big : Uint128
big = record { upper = 5; lower = 2 ^ 64 - 1 }

abbrev two : Uint128
two = record { upper = 0; lower = 2 }

add128-value_example :
    HasWords (add128 big two)
    × (value128 (add128 big two) ≡ (value128 big + value128 two) % 2 ^ 128)
add128-value_example = add128-value big two (omega arith, omega arith) (omega arith, omega arith)

sub128-value_example :
    HasWords (sub128 two big)
    × (value128 (sub128 two big) ≡ (2 ^ 128 + value128 two - value128 big) % 2 ^ 128)
sub128-value_example = sub128-value two big (omega arith, omega arith) (omega arith, omega arith)

gt128-value_example :
    (gt128 big two ≡ ltb (value128 two) (value128 big))
    × (gte128 big two ≡ leb (value128 two) (value128 big))
    × (equal128 big two ≡ (value128 big == value128 two))
    × (zero128 big ≡ (value128 big == 0))
gt128-value_example = gt128-value big two (omega arith, omega arith) (omega arith, omega arith)

shiftr128-half_example :
    HasWords (shiftr128 big 1) × (value128 (shiftr128 big 1) ≡ value128 big / 2)
shiftr128-half_example = shiftr128-half big (omega arith, omega arith)

bits128-IsTight_example :
    (value128 big < 2 ^ bits128 big)
    × (bits128 big ≤ 128)
    × (((value128 big ≡ 0) × (bits128 big ≡ 0)) ⊎ (2 ^ bits128 big ≤ 2 * value128 big))
bits128-IsTight_example = bits128-IsTight big (omega arith, omega arith)

shiftl128-value_example :
    HasWords (shiftl128 two 70) × (value128 (shiftl128 two 70) ≡ value128 two * 2 ^ 70)
shiftl128-value_example =
    shiftl128-value two 70 (omega arith, omega arith) (omega arith) (omega arith)

or128-value_example :
    HasWords (or128 two one128) × (value128 (or128 two one128) ≡ value128 two + value128 one128)
or128-value_example =
    or128-value two one128 0 1 (omega arith, omega arith) (omega arith, omega arith) refl refl
      (omega arith)

divmod128-IsQuotient_example :
    (q : Uint128) × (m : Uint128) × (divmod128 big two ≡ some (q, m))
    × HasWords q
    × HasWords m
    × (value128 big ≡ value128 q * value128 two + value128 m)
    × (value128 m < value128 two)
divmod128-IsQuotient_example =
    divmod128-IsQuotient big two (omega arith, omega arith) (omega arith, omega arith) (omega arith)

-- An SDK that writes and reads nothing but digits.
abbrev sdk : Sdk
sdk = record {
  read_u64_be = λ bytes at. 0;
  write_u64_be = λ n. [];
  u64_from_be = λ bytes n. 0;
  math_mult = λ a b. none;
  is_zeroes_buffer = λ bytes n. true;
  hex_digit = λ n. n + 48;
}

tostring128-Fits_example :
    (done : Bool) × (text : List ℕ) × (tostring128 sdk big 10 30 ≡ some (done, text))
    × (length text ≤ 30)
tostring128-Fits_example = tostring128-Fits sdk big 10 30 (omega arith, omega arith)
