-- ===== src/Uint256.antt =====
-- src/uint256.c: 256-bit numbers as two 128-bit numbers.
pub mod Arithmetic
mod Tests
use ledger_ambire_signer.Base.{
  ℕ, zero, suc, ◌+◌, ◌-◌, ◌^◌, Bool, true, false, not, ◌&&◌, ◌||◌, Option, none, some, List, [],
  ◌∷◌, ◌++◌, length, take, drop, replicate, ltb, leb, ◌==◌, if◌then◌else◌, u8, u32,
}
use ledger_ambire_signer.Utils.{reverse_string}
use ledger_ambire_signer.Uint128.{
  Uint128, Sdk, readu128_be, zero128, cleared128, one128, shiftl128, shiftr128, equal128, gt128,
  add128, sub128, or128, max128, terminated,
}

pub record Uint256 : Type 0 where
  pub upper : Uint128
  pub lower : Uint128

abbrev pub int256_length : ℕ
int256_length = 32

unfoldable pub readu256_be : Sdk → List ℕ → Uint256
readu256_be sdk buffer = record {
  upper = readu128_be sdk buffer;
  lower = readu128_be sdk (drop 16 buffer);
}

unfoldable pub zero256 : Uint256 → Bool
zero256 n = zero128 n.lower && zero128 n.upper

-- clear256
abbrev pub cleared256 : Uint256
cleared256 = record { upper = cleared128; lower = cleared128 }

abbrev pub one256 : Uint256
one256 = record { upper = cleared128; lower = one128 }

unfoldable pub shiftl256 : Uint256 → ℕ → Uint256
shiftl256 n value =
    if leb 256 value
    then cleared256
    else if value == 128
    then record { upper = n.lower; lower = cleared128 }
    else if value == 0
    then n
    else if ltb value 128
    then record {
      upper = add128 (shiftl128 n.upper value) (shiftr128 n.lower (128 - value));
      lower = shiftl128 n.lower value;
    }
    else record { upper = shiftl128 n.lower (value - 128); lower = cleared128 }

unfoldable pub shiftr256 : Uint256 → ℕ → Uint256
shiftr256 n value =
    if leb 256 value
    then cleared256
    else if value == 128
    then record { upper = cleared128; lower = n.upper }
    else if value == 0
    then n
    else if ltb value 128
    then record {
      upper = shiftr128 n.upper value;
      lower = add128 (shiftr128 n.lower value) (shiftl128 n.upper (128 - value));
    }
    else record { upper = cleared128; lower = shiftr128 n.upper (value - 128) }

-- The loop that shifts a number out; 128 rounds are enough.
unfoldable pub count_bits128 : ℕ → Uint128 → ℕ
count_bits128 zero n = 0
count_bits128 (suc fuel) n = if zero128 n then 0 else suc (count_bits128 fuel (shiftr128 n 1))

unfoldable pub bits256 : Uint256 → ℕ
bits256 n =
    if not (zero128 n.upper) then 128 + count_bits128 128 n.upper else count_bits128 128 n.lower

unfoldable pub equal256 : Uint256 → Uint256 → Bool
equal256 a b = equal128 a.upper b.upper && equal128 a.lower b.lower

unfoldable pub gt256 : Uint256 → Uint256 → Bool
gt256 a b = if equal128 a.upper b.upper then gt128 a.lower b.lower else gt128 a.upper b.upper

unfoldable pub gte256 : Uint256 → Uint256 → Bool
gte256 a b = gt256 a b || equal256 a b

unfoldable pub add256 : Uint256 → Uint256 → Uint256
add256 a b =
    let upper = add128 a.upper b.upper in
    let lower = add128 a.lower b.lower in
    record { upper = if gt128 a.lower lower then add128 upper one128 else upper; lower = lower }

unfoldable pub sub256 : Uint256 → Uint256 → Uint256
sub256 a b =
    let upper = sub128 a.upper b.upper in
    let lower = sub128 a.lower b.lower in
    record { upper = if gt128 lower a.lower then sub128 upper one128 else upper; lower = lower }

unfoldable pub or256 : Uint256 → Uint256 → Uint256
or256 a b = record { upper = or128 a.upper b.upper; lower = or128 a.lower b.lower }

-- The four words in big-endian order.
abbrev pub words : Sdk → Uint256 → List ℕ
words sdk n =
    (sdk.write_u64_be n.upper.upper ++ sdk.write_u64_be n.upper.lower)
    ++ (sdk.write_u64_be n.lower.upper ++ sdk.write_u64_be n.lower.lower)

-- `target` stays where the answer is `false`.
unfoldable pub mul256 : Sdk → Uint256 → Uint256 → Uint256 → Bool × Uint256
mul256 sdk a b target = elim (sdk.math_mult (words sdk a) (words sdk b)) [
  | none ↦ (false, target)
  | some result ↦
      if not (sdk.is_zeroes_buffer result int256_length)
      then (false, target)
      else (true, readu256_be sdk (drop int256_length result))
]

-- The loop of the division on fuel, as that of `divmod128`.
unfoldable pub divmod256_loop :
    ℕ → Uint256 → Uint256 → Uint256 → Uint256 → Uint256 → Option (Uint256 × Uint256)
divmod256_loop zero r copyd adder res_div res_mod = none
divmod256_loop (suc fuel) r copyd adder res_div res_mod =
    let fits = gte256 res_mod copyd in
    let rest =
      divmod256_loop fuel r (shiftr256 copyd 1) (shiftr256 adder 1)
        (if fits then or256 res_div adder else res_div)
        (if fits then sub256 res_mod copyd else res_mod) in
    if gte256 res_mod r then rest else some (res_div, res_mod)

unfoldable pub divmod256 : Uint256 → Uint256 → Option (Uint256 × Uint256)
divmod256 l r =
    let diff_bits = u32 (2 ^ 32 + bits256 l - bits256 r) in
    let copyd = shiftl256 r diff_bits in
    let adder = shiftl256 one256 diff_bits in
    if gt256 r l
    then some (cleared256, l)
    else if gt256 copyd l
    then divmod256_loop 258 r (shiftr256 copyd 1) (shiftr256 adder 1) cleared256 l
    else divmod256_loop 258 r copyd adder cleared256 l

-- What stands in the buffer when it is too small: "..." in place of the first digits written, or
-- an empty string.
abbrev pub too_small : List ℕ → ℕ → List ℕ
too_small written out_length =
    if ltb 3 out_length then (b'.' ∷ b'.' ∷ b'.' ∷ 0 ∷ []) ++ drop 4 written else 0 ∷ drop 1 written

-- The digits, lowest first; `out` is what has been written at the front of the buffer.
unfoldable pub tostring256_loop : Sdk → ℕ → Uint256 → ℕ → Uint256 → List ℕ → Option (Bool × List ℕ)
tostring256_loop sdk zero base out_length n out = none
tostring256_loop sdk (suc fuel) base out_length n out = elim (divmod256 n base) [
  | none ↦ none
  | some (q, r) ↦
      let written = out ++ (sdk.hex_digit (u8 r.lower.lower) ∷ []) in
      let rest = tostring256_loop sdk fuel base out_length q written in
      if not (zero256 q) && ltb (length written) out_length
      then rest
      else if length written == out_length
      then some (false, too_small written out_length)
      else terminated (reverse_string written (length written))
]

abbrev pub small256 : ℕ → Uint256
small256 n = record { upper = cleared128; lower = record { upper = 0; lower = n } }

-- A number below 2 ^ 256 has at most 256 digits.
unfoldable pub tostring256 : Sdk → Uint256 → ℕ → ℕ → Option (Bool × List ℕ)
tostring256 sdk n base out_length =
    if out_length == 0 || (ltb base 2 || ltb 16 base)
    then some (false, [])
    else tostring256_loop sdk 257 (small256 base) out_length n []

abbrev pub max256 : Uint256
max256 = record { upper = max128; lower = max128 }

unfoldable pub tostring256_signed : Sdk → Uint256 → ℕ → ℕ → Option (Bool × List ℕ)
tostring256_signed sdk n base out_length =
    if out_length == 0
    then some (false, [])
    else if base == 10
    then elim (divmod256 max256 (small256 2)) [
      | none ↦ none
      | some (max_signed, rest) ↦
          if not (gt256 n max_signed)
          then tostring256 sdk n base out_length
          else if ltb out_length 2
          then some (false, 0 ∷ [])
          else elim (tostring256 sdk (add256 (sub256 max256 n) one256) base (out_length - 1)) [
            | none ↦ none
            | some (done, out) ↦ some (done, b'-' ∷ out)
          ]
    ]
    else tostring256 sdk n base out_length

-- Where the answer is `false`, `target` stays.
unfoldable pub convert_uint256_be : Sdk → Option (List ℕ) → ℕ → Uint256 → Bool × Uint256
convert_uint256_be sdk none len target = (false, target)
convert_uint256_be sdk (some bytes) len target =
    if len == 0 || ltb int256_length len
    then (false, target)
    else (true, readu256_be sdk (replicate (int256_length - len) 0 ++ take len bytes))
