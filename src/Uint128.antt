-- ===== src/Uint128.antt =====
-- src/uint128.c: 128-bit numbers as two 64-bit words.
-- A function that writes through `target` gives the new value back; `target` is not one of the
-- operands. The SDK's readers, writers and multiplication are those of `Sdk`.
pub mod Arithmetic
pub mod Shifts
pub mod ShiftLeft
pub mod Disjunction
pub mod Division
pub mod Quotient
pub mod Text
mod Tests
use Prim.Native.Nat.{bit_or}
use ledger_ambire_signer.Base.{
  ℕ, zero, suc, ◌+◌, ◌-◌, ◌*◌, ◌/◌, ◌%◌, ◌^◌, Bool, true, false, not, ◌&&◌, ◌||◌, Option, none,
  some, List, [], ◌∷◌, ◌++◌, length, take, drop, replicate, ltb, leb, ◌==◌, if◌then◌else◌, u8, u32,
  u64,
}
use ledger_ambire_signer.Utils.{reverse_string}

pub record Uint128 : Type 0 where
  pub upper : ℕ
  pub lower : ℕ

-- `math_mult` is `cx_math_mult_no_throw`, `none` an error.
pub record Sdk : Type 0 where
  pub read_u64_be : List ℕ → ℕ → ℕ
  pub write_u64_be : ℕ → List ℕ
  pub u64_from_be : List ℕ → ℕ → ℕ
  pub math_mult : List ℕ → List ℕ → Option (List ℕ)
  pub is_zeroes_buffer : List ℕ → ℕ → Bool
  pub hex_digit : ℕ → ℕ

abbrev pub int128_length : ℕ
int128_length = 16

unfoldable pub readu128_be : Sdk → List ℕ → Uint128
readu128_be sdk buffer = record {
  upper = sdk.read_u64_be buffer 0;
  lower = sdk.read_u64_be (drop 8 buffer) 0;
}

unfoldable pub zero128 : Uint128 → Bool
zero128 n = n.lower == 0 && n.upper == 0

-- clear128
abbrev pub cleared128 : Uint128
cleared128 = record { upper = 0; lower = 0 }

abbrev pub one128 : Uint128
one128 = record { upper = 0; lower = 1 }

unfoldable pub shiftl128 : Uint128 → ℕ → Uint128
shiftl128 n value =
    if leb 128 value
    then cleared128
    else if value == 64
    then record { upper = n.lower; lower = 0 }
    else if value == 0
    then n
    else if ltb value 64
    then record {
      upper = u64 (u64 (n.upper * 2 ^ value) + n.lower / 2 ^ (64 - value));
      lower = u64 (n.lower * 2 ^ value);
    }
    else record { upper = u64 (n.lower * 2 ^ (value - 64)); lower = 0 }

unfoldable pub shiftr128 : Uint128 → ℕ → Uint128
shiftr128 n value =
    if leb 128 value
    then cleared128
    else if value == 64
    then record { upper = 0; lower = n.upper }
    else if value == 0
    then n
    else if ltb value 64
    then record {
      upper = n.upper / 2 ^ value;
      lower = u64 (u64 (n.upper * 2 ^ (64 - value)) + n.lower / 2 ^ value);
    }
    else record { upper = 0; lower = n.upper / 2 ^ (value - 64) }

-- The loop that shifts a word out; 64 rounds are enough for a word.
unfoldable pub count_bits : ℕ → ℕ → ℕ
count_bits zero word = 0
count_bits (suc fuel) word = if word == 0 then 0 else suc (count_bits fuel (word / 2))

unfoldable pub bits128 : Uint128 → ℕ
bits128 n = if not (n.upper == 0) then 64 + count_bits 64 n.upper else count_bits 64 n.lower

unfoldable pub equal128 : Uint128 → Uint128 → Bool
equal128 a b = a.upper == b.upper && a.lower == b.lower

unfoldable pub gt128 : Uint128 → Uint128 → Bool
gt128 a b = if a.upper == b.upper then ltb b.lower a.lower else ltb b.upper a.upper

unfoldable pub gte128 : Uint128 → Uint128 → Bool
gte128 a b = gt128 a b || equal128 a b

-- The sum and the difference of two words wrap.
abbrev pub sub64 : ℕ → ℕ → ℕ
sub64 a b = u64 (2 ^ 64 + a - b)

unfoldable pub add128 : Uint128 → Uint128 → Uint128
add128 a b =
    let lower = u64 (a.lower + b.lower) in
    record {
      upper = u64 (u64 (a.upper + b.upper) + (if ltb lower a.lower then 1 else 0));
      lower = lower;
    }

unfoldable pub sub128 : Uint128 → Uint128 → Uint128
sub128 a b =
    let lower = sub64 a.lower b.lower in
    record {
      upper = sub64 (sub64 a.upper b.upper) (if ltb a.lower lower then 1 else 0);
      lower = lower;
    }

unfoldable pub or128 : Uint128 → Uint128 → Uint128
or128 a b = record { upper = bit_or a.upper b.upper; lower = bit_or a.lower b.lower }

-- `target` stays where the answer is `false`.
pub mul128 : Sdk → Uint128 → Uint128 → Uint128 → Bool × Uint128
mul128 sdk a b target =
    let num1 = sdk.write_u64_be a.upper ++ sdk.write_u64_be a.lower in
    let num2 = sdk.write_u64_be b.upper ++ sdk.write_u64_be b.lower in
    elim (sdk.math_mult num1 num2) [
      | none ↦ (false, target)
      | some result ↦ if not (sdk.is_zeroes_buffer result int128_length) then (false, target) else (
        true,
        record {
          upper = sdk.read_u64_be (drop int128_length result) 0;
          lower = sdk.read_u64_be (drop (int128_length + 8) result) 0;
        },
      )
    ]

-- The loop of the division on fuel: quotient and remainder, or `none` when the fuel ran out (the
-- divisor 0 never stops).
unfoldable pub divmod128_loop :
    ℕ → Uint128 → Uint128 → Uint128 → Uint128 → Uint128 → Option (Uint128 × Uint128)
divmod128_loop zero r copyd adder res_div res_mod = none
divmod128_loop (suc fuel) r copyd adder res_div res_mod =
    let fits = gte128 res_mod copyd in
    let rest =
      divmod128_loop fuel r (shiftr128 copyd 1) (shiftr128 adder 1)
        (if fits then or128 res_div adder else res_div)
        (if fits then sub128 res_mod copyd else res_mod) in
    if gte128 res_mod r then rest else some (res_div, res_mod)

unfoldable pub divmod128 : Uint128 → Uint128 → Option (Uint128 × Uint128)
divmod128 l r =
    let diff_bits = u32 (2 ^ 32 + bits128 l - bits128 r) in
    let copyd = shiftl128 r diff_bits in
    let adder = shiftl128 one128 diff_bits in
    if gt128 r l
    then some (cleared128, l)
    else if gt128 copyd l
    then divmod128_loop 130 r (shiftr128 copyd 1) (shiftr128 adder 1) cleared128 l
    else divmod128_loop 130 r copyd adder cleared128 l

-- The digits in their order, with the byte that ends them; `none` where an access was past them.
abbrev pub terminated : Option (List ℕ) → Option (Bool × List ℕ)
terminated none = none
terminated (some text) = some (true, text ++ (0 ∷ []))

-- The digits, lowest first; `out` is what has been written at the front of the buffer.
unfoldable pub tostring128_loop : Sdk → ℕ → Uint128 → ℕ → Uint128 → List ℕ → Option (Bool × List ℕ)
tostring128_loop sdk zero base out_length n out = none
tostring128_loop sdk (suc fuel) base out_length n out =
    if ltb (out_length - 1) (length out) then some (false, out) else elim (divmod128 n base) [
      | none ↦ none
      | some (q, r) ↦
          let written = out ++ (sdk.hex_digit (u8 r.lower) ∷ []) in
          let rest = tostring128_loop sdk fuel base out_length q written in
          if not (zero128 q)
          then rest
          else if ltb (out_length - 1) (length written)
          then some (false, written)
          else terminated (reverse_string written (length written))
    ]

-- A number below 2 ^ 128 has at most 128 digits.
unfoldable pub tostring128 : Sdk → Uint128 → ℕ → ℕ → Option (Bool × List ℕ)
tostring128 sdk n base out_length =
    if out_length == 0 || (ltb base 2 || ltb 16 base)
    then some (false, [])
    else tostring128_loop sdk 129 (record { upper = 0; lower = base }) out_length n []

abbrev pub max128 : Uint128
max128 = record { upper = 2 ^ 64 - 1; lower = 2 ^ 64 - 1 }

unfoldable pub tostring128_signed : Sdk → Uint128 → ℕ → ℕ → Option (Bool × List ℕ)
tostring128_signed sdk n base out_length =
    if out_length == 0
    then some (false, [])
    else if base == 10
    then elim (divmod128 max128 (record { upper = 0; lower = 2 })) [
      | none ↦ none
      | some (max_signed, rest) ↦
          if not (gt128 n max_signed)
          then tostring128 sdk n base out_length
          else if ltb out_length 2
          then some (false, 0 ∷ [])
          else elim (tostring128 sdk (add128 (sub128 max128 n) one128) base (out_length - 1)) [
            | none ↦ none
            | some (done, out) ↦ some (done, b'-' ∷ out)
          ]
    ]
    else tostring128 sdk n base out_length

-- A longer number leaves `target`.
unfoldable pub convert_uint64_be_to128 : Sdk → List ℕ → ℕ → Uint128 → Uint128
convert_uint64_be_to128 sdk data_bytes len target =
    let value = sdk.u64_from_be data_bytes len in
    let padding = if leb (2 ^ 63) value then 0xff else 0 in
    if ltb int128_length len
    then target
    else readu128_be sdk (replicate (int128_length - len) padding ++ take len data_bytes)

unfoldable pub convert_uint128_be : Sdk → Option (List ℕ) → ℕ → Uint128 → Uint128
convert_uint128_be sdk none len target = target
convert_uint128_be sdk (some bytes) len target =
    if len == 0 || ltb int128_length len
    then target
    else readu128_be sdk (replicate (int128_length - len) 0 ++ take len bytes)
