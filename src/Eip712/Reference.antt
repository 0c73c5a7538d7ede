-- ===== src/Eip712/Reference.antt =====
-- The texts and digests of EIP-712 for typed data: encodeType, typeHash, encodeData and hashStruct.
-- Sizes are bytes, which no conversion to a machine word changes.
use ledger_ambire_signer.Base.{
  ℕ, zero, suc, ◌+◌, ◌-◌, ◌*◌, ◌/◌, ◌%◌, Bool, true, false, ◌&&◌, ◌||◌, Option, none, some, List,
  [], ◌∷◌, ◌++◌, length, get_elem?, get_or, replicate, ltb, leb, ◌==◌, if◌then◌else◌, u16, u32,
}
use ledger_ambire_signer.Eip712.{
  type_struct, sol_int, sol_uint, sol_address, sol_bool, sol_string, sol_bytes_fix, sol_bytes_dyn,
  ArrayLevel, array_dynamic, array_fixed_size, Field, Struct, StructPtr, Value, atomic,
  struct_value, array_value, Children, no_children, child_then, Sdk, td_find_struct,
}
use ledger_ambire_signer.Eip712.Refines.{and_then}

unfoldable pub decimal_digits : ℕ → ℕ → List ℕ
decimal_digits zero v = (48 + v % 10) ∷ []
decimal_digits (suc fuel) v =
    let rest = decimal_digits fuel (v / 10) in
    if leb 10 v then rest ++ ((48 + v % 10) ∷ []) else (48 + v) ∷ []

-- A 32-bit number in base 10.
unfoldable pub decimal : ℕ → List ℕ
decimal n = decimal_digits 10 (u32 n)

unfoldable pub type_text : Field → List ℕ
type_text f = elim f.type [
  | type_struct ↦ f.struct_name
  | sol_int ↦ (105 ∷ 110 ∷ 116 ∷ []) ++ decimal (u16 (f.type_size * 8))
  | sol_uint ↦ (117 ∷ 105 ∷ 110 ∷ 116 ∷ []) ++ decimal (u16 (f.type_size * 8))
  | sol_address ↦ 97 ∷ 100 ∷ 100 ∷ 114 ∷ 101 ∷ 115 ∷ 115 ∷ []
  | sol_bool ↦ 98 ∷ 111 ∷ 111 ∷ 108 ∷ []
  | sol_string ↦ 115 ∷ 116 ∷ 114 ∷ 105 ∷ 110 ∷ 103 ∷ []
  | sol_bytes_fix ↦ (98 ∷ 121 ∷ 116 ∷ 101 ∷ 115 ∷ []) ++ decimal f.type_size
  | sol_bytes_dyn ↦ 98 ∷ 121 ∷ 116 ∷ 101 ∷ 115 ∷ []
]

-- "[]" or "[n]" for each level.
unfoldable pub levels_text : List ArrayLevel → List ℕ
levels_text [] = []
levels_text (array_dynamic ∷ levels) = 91 ∷ 93 ∷ levels_text levels
levels_text (array_fixed_size n ∷ levels) = (91 ∷ decimal n) ++ (93 ∷ levels_text levels)

unfoldable pub field_text : Field → List ℕ
field_text f = (type_text f ++ levels_text f.array_levels) ++ (32 ∷ f.key_name)

unfoldable pub rest_text : List Field → List ℕ
rest_text [] = []
rest_text (f ∷ fs) = (44 ∷ field_text f) ++ rest_text fs

unfoldable pub fields_text : List Field → List ℕ
fields_text [] = []
fields_text (f ∷ fs) = field_text f ++ rest_text fs

-- "Name(type name,type name)"
unfoldable pub struct_text : Struct → List ℕ
struct_text s = s.name ++ ((40 ∷ fields_text s.fields) ++ (41 ∷ []))

-- Whether a struct is among those found.
unfoldable pub listed : List StructPtr → StructPtr → Bool
listed [] d = false
listed (x ∷ xs) d = x.place == d.place || listed xs d

-- The order of strings as in a dictionary: a string comes before those that continue it.
unfoldable pub lexicographic : List ℕ → List ℕ → Bool
lexicographic [] ys = true
lexicographic (x ∷ xs) [] = false
lexicographic (x ∷ xs) (y ∷ ys) =
    if ltb x y then true else if ltb y x then false else lexicographic xs ys

abbrev pub names_before : StructPtr → StructPtr → Bool
names_before a b = lexicographic a.def.name b.def.name

-- The struct that a field names, behind those found before.
unfoldable pub field_dep : List Struct → Field → List StructPtr → Option (List StructPtr)
field_dep structs f deps = elim f.type [
  | type_struct ↦
      and_then (td_find_struct structs f.struct_name)
        λ d. some (if listed deps d then deps else deps ++ (d ∷ []))
  | _ ↦ some deps
]

unfoldable pub field_deps : List Struct → List Field → List StructPtr → Option (List StructPtr)
field_deps structs [] deps = some deps
field_deps structs (f ∷ fs) deps =
    and_then (field_dep structs f deps) λ deps'. field_deps structs fs deps'

-- Those that the structs from a place on name, until no struct is left.
unfoldable pub deps_from : ℕ → List Struct → ℕ → List StructPtr → Option (List StructPtr)
deps_from zero structs place deps = none
deps_from (suc fuel) structs place deps = elim (get_elem? deps place) [
  | none ↦ some deps
  | some s ↦
      and_then (field_deps structs s.def.fields deps)
        λ deps'. deps_from fuel structs (suc place) deps'
]

unfoldable pub struct_deps : List Struct → Struct → Option (List StructPtr)
struct_deps structs s =
    and_then (field_deps structs s.fields [])
      λ deps. deps_from (suc (length structs)) structs 0 deps

unfoldable pub deps_text : StructPtr → List StructPtr → List ℕ
deps_text s [] = []
deps_text s (d ∷ ds) =
    let rest = deps_text s ds in if d.place == s.place then rest else struct_text d.def ++ rest

-- The digest of encodeType.
unfoldable pub type_digest : Sdk → List Struct → List ℕ → Option (List ℕ)
type_digest sdk structs name = and_then (td_find_struct structs name) λ s.
    and_then (struct_deps structs s.def) λ deps.
      some (sdk.keccak (struct_text s.def ++ deps_text s (sdk.flist_sort names_before deps)))

unfoldable pub padded_left : ℕ → List ℕ → Option (List ℕ)
padded_left fill value =
    if ltb 32 (length value) then none else some (replicate (32 - length value) fill ++ value)

unfoldable pub padded_right : List ℕ → Option (List ℕ)
padded_right value =
    if ltb 32 (length value) then none else some (value ++ replicate (32 - length value) 0)

-- A signed number is extended by its sign where it has the size of its type.
unfoldable pub atomic_digest : Sdk → Field → List ℕ → Option (List ℕ)
atomic_digest sdk f value = elim f.type [
  | type_struct ↦ none
  | sol_int ↦
      if length value == 0
      then none
      else padded_left
          (if length value == f.type_size && leb 128 (get_or value 0 0) then 255 else 0) value
  | sol_uint ↦ padded_left 0 value
  | sol_address ↦ if length value == 20 then padded_left 0 value else none
  | sol_bool ↦ if length value == 1 && leb (get_or value 0 0) 1 then padded_left 0 value else none
  | sol_string ↦ some (sdk.keccak value)
  | sol_bytes_fix ↦ padded_right value
  | sol_bytes_dyn ↦ some (sdk.keccak value)
]

-- The digest of a value (hashStruct for a struct), and those of the children one behind the other.
unfoldable mutual
  pub value_digest : Sdk → List Struct → Value → Option (List ℕ)
  value_digest sdk structs (atomic f value) = atomic_digest sdk f value
  value_digest sdk structs (struct_value s children) =
      and_then (type_digest sdk structs s.name) λ type.
        and_then (children_digest sdk structs children)
          λ digests. some (sdk.keccak (type ++ digests))
  value_digest sdk structs (array_value f children) =
      and_then (children_digest sdk structs children) λ digests. some (sdk.keccak digests)

  pub children_digest : Sdk → List Struct → Children → Option (List ℕ)
  children_digest sdk structs no_children = some []
  children_digest sdk structs (child_then v vs) =
      and_then (value_digest sdk structs v)
        λ digest. and_then (children_digest sdk structs vs) λ digests. some (digest ++ digests)

-- The levels of containers.
unfoldable mutual
  pub height : Value → ℕ
  height (atomic f value) = 0
  height (struct_value s children) = suc (height_below children)
  height (array_value f children) = suc (height_below children)

  pub height_below : Children → ℕ
  height_below no_children = 0
  height_below (child_then v vs) =
      if leb (height v) (height_below vs) then height_below vs else height v
