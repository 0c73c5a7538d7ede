-- ===== src/Rlp.antt =====
-- src/features/sign_tx/rlp_utils.c: the RLP header decoder, and
-- src/features/sign_authorization_eip7702/rlp_encode.c: the RLP writers.
-- A `uint8_t *` is the list of the bytes behind it; `none` is NULL.
pub mod Bounds
pub mod Headers
pub mod Numbers
mod Tests
use Prim.Native.Nat.{bit_or}
use ledger_ambire_signer.Base.{
  ℕ, zero, suc, ◌+◌, ◌-◌, ◌*◌, ◌/◌, ◌^◌, Bool, true, false, ◌&&◌, Option, none, some, List, [], ◌∷◌,
  length, ltb, leb, ◌==◌, if◌then◌else◌, u8, u32,
}

abbrev pub single_byte_max : ℕ
single_byte_max = 0x7f

abbrev pub short_string_max : ℕ
short_string_max = 0xb7

abbrev pub long_string_max : ℕ
long_string_max = 0xbf

abbrev pub short_list_max : ℕ
short_list_max = 0xf7

abbrev pub str_len_of_bytes_4 : ℕ
str_len_of_bytes_4 = 0xbb

abbrev pub list_len_of_bytes_4 : ℕ
list_len_of_bytes_4 = 0xfb

abbrev pub short_string_base : ℕ
short_string_base = 0x80

abbrev pub long_string_base : ℕ
long_string_base = 0xb7

abbrev pub short_list_base : ℕ
short_list_base = 0xc0

abbrev pub long_list_base : ℕ
long_list_base = 0xf7

-- The answer of `rlp_can_decode`: `not_yet` is `false`, `can valid` is `true` with `*valid`,
-- and `bad_read` a read outside the buffer, which C leaves undefined.
pub data CanDecode : Type 0 where
  not_yet bad_read : CanDecode
  can : Bool → CanDecode

-- The test of the first byte `b` against the number of bytes at hand.
pub can_decode_byte : ℕ → ℕ → CanDecode
can_decode_byte b len =
    if leb b single_byte_max
    then can true
    else if leb b short_string_max
    then can true
    else if leb b long_string_max
    then (if ltb len (1 + (b - long_string_base))
        then not_yet
        else if ltb str_len_of_bytes_4 b
        then can false
        else can true)
    else if leb b short_list_max
    then can true
    else if ltb len (1 + (b - long_list_base))
    then not_yet
    else if ltb list_len_of_bytes_4 b
    then can false
    else can true

-- `has_valid` tells that the pointer `valid` is not NULL.
unfoldable pub rlp_can_decode : Option (List ℕ) → ℕ → Bool → CanDecode
unfolding can_decode_byte
rlp_can_decode none len has_valid = not_yet
rlp_can_decode (some buffer) len has_valid =
    if has_valid && ltb 0 len
    then elim buffer [ [] ↦ bad_read | b ∷ bs ↦ can_decode_byte b len ]
    else not_yet

-- The answer of `rlp_decode_length`: `failed` is `false`, `decoded` is `true` with the three
-- results, `bad_read` a read outside the buffer.
pub data DecodeLength : Type 0 where
  failed bad_read : DecodeLength
  decoded : ℕ → ℕ → Bool → DecodeLength

-- The lengths of the four `case` labels, from the bytes behind the first one.
length_1 : List ℕ → Option ℕ
length_1 [] = none
length_1 (b1 ∷ bs) = some b1

length_2 : List ℕ → Option ℕ
length_2 (b1 ∷ b2 ∷ bs) = some (b1 * 2 ^ 8 + b2)
length_2 bs = none

length_3 : List ℕ → Option ℕ
length_3 (b1 ∷ b2 ∷ b3 ∷ bs) = some (b1 * 2 ^ 16 + b2 * 2 ^ 8 + b3)
length_3 bs = none

pub length_4 : List ℕ → Option ℕ
length_4 (b1 ∷ b2 ∷ b3 ∷ b4 ∷ bs) =
    some (bit_or (bit_or (bit_or (u32 (b1 * 2 ^ 24)) (u32 (b2 * 2 ^ 16))) (u32 (b3 * 2 ^ 8))) b4)
length_4 bs = none

length_read : ℕ → Bool → Option ℕ → DecodeLength
length_read offset list none = bad_read
length_read offset list (some field_length) = decoded field_length offset list

-- The `switch` of a long string or list whose first byte is `base + size`.
long_length : ℕ → List ℕ → Bool → DecodeLength
unfolding length_read length_1 length_2 length_3 length_4
long_length size rest list =
    if size == 1
    then length_read 2 list (length_1 rest)
    else if size == 2
    then length_read 3 list (length_2 rest)
    else if size == 3
    then length_read 4 list (length_3 rest)
    else if size == 4
    then length_read 5 list (length_4 rest)
    else failed

pub decode_first : ℕ → List ℕ → ℕ → DecodeLength
unfolding long_length
decode_first b rest len =
    if leb b single_byte_max
    then decoded 1 0 false
    else if leb b short_string_max
    then decoded (b - short_string_base) 1 false
    else if leb b long_string_max
    then (if ltb len (1 + (b - long_string_base))
        then failed
        else long_length (b - long_string_base) rest false)
    else if leb b short_list_max
    then decoded (b - short_list_base) 1 true
    else if ltb len (1 + (b - long_list_base))
    then failed
    else long_length (b - long_list_base) rest true

unfoldable pub rlp_decode_length : List ℕ → ℕ → DecodeLength
unfolding decode_first
rlp_decode_length buffer len =
    if len == 0 then failed else elim buffer [ [] ↦ bad_read | b ∷ rest ↦ decode_first b rest len ]

-- rlp_encode.c. Each writer gives the bytes that it puts at the front of `output` and its result,
-- which is their number.
abbrev pub number8_max : ℕ
number8_max = 0x7f

abbrev pub string_base : ℕ
string_base = 0x80

abbrev pub list_base : ℕ
list_base = 0xc0

abbrev pub list_max : ℕ
list_max = 55

-- `number` holds `length` bytes; `output_size` is the space left.
unfoldable pub encode_number : List ℕ → ℕ → List ℕ × ℕ
encode_number number output_size =
    if ltb output_size (length number + 2) then ([], 0) else elim number [
      | b ∷ [] ↦
          if b == 0
          then (string_base ∷ [], 1)
          else if leb b number8_max
          then (b ∷ [], 1)
          else ((string_base + 1) ∷ b ∷ [], 2)
      | other ↦ (u8 (string_base + length other) ∷ other, u8 (length other + 1))
    ]

unfoldable pub get_encoded_number_length : List ℕ → ℕ
get_encoded_number_length number = elim number [
  | b ∷ [] ↦ if leb b number8_max then 1 else 2
  | other ↦ u8 (length other + 1)
]

-- The `while` loop; `none` means that the fuel ran out.
smallest_size_loop : ℕ → ℕ → ℕ → Option ℕ
smallest_size_loop zero number size = none
smallest_size_loop (suc fuel) number size =
    let rest = smallest_size_loop fuel (number / 256) (u8 (size + 1)) in
    if number == 0 then some 0 else if number / 256 == 0 then some size else rest

-- A uint64_t has eight bytes at most, so nine rounds are enough.
pub get_smallest_number64_encoding_size : ℕ → Option ℕ
unfolding smallest_size_loop
get_smallest_number64_encoding_size number = smallest_size_loop 9 number 1

pub get_encoded_number64_length : ℕ → Option ℕ
get_encoded_number64_length number = elim (get_smallest_number64_encoding_size number) [
  | none ↦ none
  | some size ↦ some (if size == 1 && leb number number8_max then 1 else u8 (size + 1))
]

unfoldable pub encode_list_header8 : ℕ → ℕ → List ℕ × ℕ
encode_list_header8 size output_size =
    if ltb output_size 2
    then ([], 0)
    else if leb size list_max
    then (u8 (list_base + size) ∷ [], 1)
    else ((list_base + list_max + 1) ∷ size ∷ [], 2)
