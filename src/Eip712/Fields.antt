-- ===== src/Eip712/Fields.antt =====
-- encode_field.c: a value as the 32 bytes that are hashed; utils/mem_utils.c,
-- sol_typenames.c and format_hash_field_type.c: a field's type as a text that is hashed.
use ledger_ambire_signer.Base.{
  ℕ, zero, suc, ◌-◌, ◌*◌, ◌/◌, Bool, true, false, not, ◌&&◌, Option, none, some, List, [], ◌∷◌,
  ◌++◌, length, take, get_or, replicate, ltb, leb, ◌==◌, if◌then◌else◌, u16, u32,
}
use ledger_ambire_signer.Eip712.{
  SolType, type_struct, sol_int, sol_uint, sol_address, sol_bool, sol_string, sol_bytes_fix,
  sol_bytes_dyn, ArrayLevel, array_dynamic, array_fixed_size, Field, Sdk, M, ◌>>=◌, pure, fail,
  app_mem_alloc, hash_update,
}

abbrev pub encoded_field_length : ℕ
encoded_field_length = 32

abbrev pub address_length : ℕ
address_length = 20

pub data Padding : Type 0 where
  msb lsb : Padding

-- `value` is the `length` bytes at the pointer.
unfoldable pub field_encode : List ℕ → Padding → ℕ → M (List ℕ)
field_encode value ptype pval =
    if ltb encoded_field_length (length value)
    then fail
    else app_mem_alloc >>= λ _. pure (elim ptype [
      | msb ↦ replicate (encoded_field_length - length value) pval ++ value
      | lsb ↦ value ++ replicate (encoded_field_length - length value) 0
    ])

unfoldable pub encode_uint : List ℕ → M (List ℕ)
encode_uint value = field_encode value msb 0

-- `value[0] & (1 << 7)` of a byte.
unfoldable pub encode_int : List ℕ → ℕ → M (List ℕ)
encode_int value typesize =
    if ltb (length value) 1
    then fail
    else field_encode value msb
        (if length value == typesize && leb 128 (get_or value 0 0) then 255 else 0)

unfoldable pub encode_bytes : List ℕ → M (List ℕ)
encode_bytes value = field_encode value lsb 0

unfoldable pub encode_boolean : List ℕ → M (List ℕ)
encode_boolean value =
    if not (length value == 1)
    then fail
    else if ltb 1 (get_or value 0 0)
    then fail
    else encode_uint value

unfoldable pub encode_address : List ℕ → M (List ℕ)
encode_address value = if not (length value == address_length) then fail else encode_uint value

-- The loop of mem_alloc_and_format_uint that counts the digits: a 32-bit number has ten at most.
unfoldable pub digits_size : ℕ → ℕ → ℕ
digits_size zero value = 1
digits_size (suc fuel) value =
    let rest = digits_size fuel (value / 10) in if leb 10 value then suc rest else 1

-- What snprintf leaves of the digits in a buffer of the size and one more byte.
unfoldable pub mem_alloc_and_format_uint : Sdk → ℕ → M (List ℕ)
mem_alloc_and_format_uint sdk value =
    app_mem_alloc >>= λ _. pure (take (digits_size 10 (u32 value)) (sdk.print_unsigned (u32 value)))

-- "int", "uint", "address", "bool", "string" and "bytes".
unfoldable pub get_struct_field_sol_typename : SolType → Option (List ℕ)
get_struct_field_sol_typename type_struct = none
get_struct_field_sol_typename sol_int = some (105 ∷ 110 ∷ 116 ∷ [])
get_struct_field_sol_typename sol_uint = some (117 ∷ 105 ∷ 110 ∷ 116 ∷ [])
get_struct_field_sol_typename sol_address = some (97 ∷ 100 ∷ 100 ∷ 114 ∷ 101 ∷ 115 ∷ 115 ∷ [])
get_struct_field_sol_typename sol_bool = some (98 ∷ 111 ∷ 111 ∷ 108 ∷ [])
get_struct_field_sol_typename sol_string = some (115 ∷ 116 ∷ 114 ∷ 105 ∷ 110 ∷ 103 ∷ [])
get_struct_field_sol_typename sol_bytes_fix = some (98 ∷ 121 ∷ 116 ∷ 101 ∷ 115 ∷ [])
get_struct_field_sol_typename sol_bytes_dyn = some (98 ∷ 121 ∷ 116 ∷ 101 ∷ 115 ∷ [])

unfoldable pub td_get_struct_field_typename : Field → Option (List ℕ)
td_get_struct_field_typename f = elim f.type [
  | type_struct ↦ some f.struct_name
  | type ↦ get_struct_field_sol_typename type
]

-- The number behind the name of a type, from the size in bytes: bits for the integers.
unfoldable pub formatted_size : Field → Option ℕ
formatted_size f = elim f.type [
  | sol_int ↦ some (u16 (f.type_size * 8))
  | sol_uint ↦ some (u16 (f.type_size * 8))
  | sol_bytes_fix ↦ some f.type_size
  | _ ↦ none
]

unfoldable pub format_hash_field_type_size : Sdk → Field → List ℕ → M (List ℕ)
format_hash_field_type_size sdk f absorbed = elim (formatted_size f) [
  | none ↦ fail
  | some size ↦ mem_alloc_and_format_uint sdk size >>= λ digits. hash_update sdk absorbed digits
]

unfoldable pub format_hash_array_size : Sdk → ArrayLevel → List ℕ → M (List ℕ)
format_hash_array_size sdk array_dynamic absorbed = pure absorbed
format_hash_array_size sdk (array_fixed_size size) absorbed =
    mem_alloc_and_format_uint sdk size >>= λ digits. hash_update sdk absorbed digits

-- '[', the size where it is fixed, and ']' for each level.
unfoldable pub format_hash_field_type_array_levels : Sdk → List ArrayLevel → List ℕ → M (List ℕ)
format_hash_field_type_array_levels sdk [] absorbed = pure absorbed
format_hash_field_type_array_levels sdk (level ∷ levels) absorbed =
    hash_update sdk absorbed (91 ∷ []) >>= λ opened.
    format_hash_array_size sdk level opened >>= λ sized.
    hash_update sdk sized (93 ∷ []) >>= λ closed.
    format_hash_field_type_array_levels sdk levels closed

unfoldable pub has_size : SolType → Bool
has_size sol_int = true
has_size sol_uint = true
has_size sol_bytes_fix = true
has_size _ = false

unfoldable pub format_hash_field_type : Sdk → Field → List ℕ → M (List ℕ)
format_hash_field_type sdk f absorbed = elim (td_get_struct_field_typename f) [
  | none ↦ fail
  | some name ↦ hash_update sdk absorbed name >>= λ named.
      (if has_size f.type then format_hash_field_type_size sdk f named else pure named) >>= λ sized.
      format_hash_field_type_array_levels sdk f.array_levels sized
]
