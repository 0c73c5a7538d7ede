-- ===== src/Eip712/Types.antt =====
-- type_hash.c: the structs that a struct depends on, and the hash of its type.
use ledger_ambire_signer.Base.{
  ℕ, zero, suc, min, Bool, true, false, not, ◌||◌, none, some, List, [], ◌∷◌, ◌++◌, length,
  get_elem?, ltb, ◌==◌, if◌then◌else◌,
}
use ledger_ambire_signer.Eip712.{
  type_struct, Field, Struct, StructPtr, Sdk, M, ◌>>=◌, pure, fail, app_mem_alloc, keccak_init,
  hash_update, hash_final, td_find_struct, td_visit_struct_fields,
}
use ledger_ambire_signer.Eip712.Fields.{format_hash_field_type}

-- The text that is hashed, and whether the next field is the first.
pub record FieldContext : Type 0 where
  pub absorbed : List ℕ
  pub first : Bool

-- A comma in front of all but the first field, and a space between its type and its name.
unfoldable pub encode_and_hash_field : Sdk → Field → FieldContext → M FieldContext
encode_and_hash_field sdk f ctx =
    (if ctx.first then pure ctx.absorbed else hash_update sdk ctx.absorbed (44 ∷ [])) >>= λ parted.
    format_hash_field_type sdk f parted >>= λ typed. hash_update sdk typed (32 ∷ []) >>= λ spaced.
    hash_update sdk spaced f.key_name >>= λ named. pure (record { absorbed = named; first = false })

unfoldable pub encode_and_hash_type : Sdk → Struct → List ℕ → M (List ℕ)
encode_and_hash_type sdk s absorbed = hash_update sdk absorbed s.name >>= λ named.
    hash_update sdk named (40 ∷ []) >>= λ opened.
    td_visit_struct_fields s.fields (encode_and_hash_field sdk)
      (record { absorbed = opened; first = true })
    >>= λ ctx. hash_update sdk ctx.absorbed (41 ∷ [])

unfoldable pub has_dep : List StructPtr → StructPtr → Bool
has_dep [] s = false
has_dep (d ∷ ds) s = d.place == s.place || has_dep ds s

unfoldable pub add_dep_if_new : List StructPtr → StructPtr → M (List StructPtr)
add_dep_if_new deps s =
    if has_dep deps s then pure deps else app_mem_alloc >>= λ _. pure (deps ++ (s ∷ []))

unfoldable pub collect_one_dep : List Struct → Field → List StructPtr → M (List StructPtr)
collect_one_dep structs f deps = elim f.type [
  | type_struct ↦ elim (td_find_struct structs f.struct_name) [
    | none ↦ fail
    | some dep ↦ add_dep_if_new deps dep
  ]
  | _ ↦ pure deps
]

unfoldable pub collect_direct_deps : List Struct → List StructPtr → Struct → M (List StructPtr)
collect_direct_deps structs deps s = td_visit_struct_fields s.fields (collect_one_dep structs) deps

-- The loop of get_struct_dependencies, from the place of the cursor on.
unfoldable pub deps_loop : ℕ → List Struct → ℕ → List StructPtr → M (List StructPtr)
deps_loop zero structs cursor deps = fail
deps_loop (suc fuel) structs cursor deps = elim (get_elem? deps cursor) [
  | none ↦ pure deps
  | some s ↦
      collect_direct_deps structs deps s.def >>= λ deps'. deps_loop fuel structs (suc cursor) deps'
]

-- Every round is at another struct, and one more finds the end.
unfoldable pub get_struct_dependencies : List Struct → Struct → M (List StructPtr)
get_struct_dependencies structs s =
    collect_direct_deps structs [] s >>= λ deps. deps_loop (suc (length structs)) structs 0 deps

-- What strncmp says of `a` against `b` within their first n bytes; a string's end comes before any
-- byte.
pub data StringOrder : Type 0 where
  sorts_before sorts_same sorts_after : StringOrder

unfoldable pub strncmp : ℕ → List ℕ → List ℕ → StringOrder
strncmp zero a b = sorts_same
strncmp (suc n) [] [] = sorts_same
strncmp (suc n) [] (y ∷ ys) = sorts_before
strncmp (suc n) (x ∷ xs) [] = sorts_after
strncmp (suc n) (x ∷ xs) (y ∷ ys) =
    if ltb x y then sorts_before else if ltb y x then sorts_after else strncmp n xs ys

unfoldable pub compare_struct_deps : StructPtr → StructPtr → Bool
compare_struct_deps a b =
    let n1 = length a.def.name in
    let n2 = length b.def.name in
    elim (strncmp (min n1 n2) a.def.name b.def.name) [
      | sorts_after ↦ false
      | sorts_same ↦ not (ltb n2 n1)
      | sorts_before ↦ true
    ]

-- The dependencies in their order, without the struct itself.
unfoldable pub encode_and_hash_deps : Sdk → StructPtr → List StructPtr → List ℕ → M (List ℕ)
encode_and_hash_deps sdk s [] absorbed = pure absorbed
encode_and_hash_deps sdk s (d ∷ ds) absorbed =
    (if d.place == s.place then pure absorbed else encode_and_hash_type sdk d.def absorbed)
    >>= λ absorbed'. encode_and_hash_deps sdk s ds absorbed'

unfoldable pub type_hash : Sdk → List Struct → List ℕ → M (List ℕ)
type_hash sdk structs name = elim (td_find_struct structs name) [
  | none ↦ fail
  | some s ↦ keccak_init sdk >>= λ start. get_struct_dependencies structs s.def >>= λ deps.
      encode_and_hash_type sdk s.def start >>= λ own.
      encode_and_hash_deps sdk s (sdk.flist_sort compare_struct_deps deps) own >>= λ text.
      hash_final sdk text
]
