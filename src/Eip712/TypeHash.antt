-- ===== src/Eip712/TypeHash.antt =====
-- type_hash gives the digest of a struct's type and of those it depends on.
use mathlib.Core.List.{append_assoc, append-nil}
use ledger_ambire_signer.Base.{
  ℕ, zero, suc, ap, sym, ◌∙◌, Option, none, some, List, [], ◌∷◌, ◌++◌, length, get_elem?, ◌==◌,
  if◌then◌else◌, Bool-cases, Option-cases, inl, inr,
}
use ledger_ambire_signer.Eip712.{
  SolType, type_struct, sol_int, sol_uint, sol_address, sol_bool, sol_string, sol_bytes_fix,
  sol_bytes_dyn, Field, Struct, StructPtr, Sdk, M, fail, td_find_struct, td_visit_struct_fields,
}
use ledger_ambire_signer.Eip712.Types.{
  has_dep, add_dep_if_new, collect_one_dep, collect_direct_deps, deps_loop, get_struct_dependencies,
  encode_and_hash_deps, type_hash,
}
use ledger_ambire_signer.Eip712.Refines.{
  Refines, Refines-same, Refines-next, Refines-bind, pure-Refines, fail-Refines,
  app_mem_alloc-Refines, keccak_init-Refines, hash_final-Refines, and_then,
}
use ledger_ambire_signer.Eip712.Reference.{
  listed, names_before, struct_text, field_dep, field_deps, deps_from, struct_deps, deps_text,
  type_digest,
}
use ledger_ambire_signer.Eip712.Order.{has_dep-listed, same_order}
use ledger_ambire_signer.Eip712.Texts.{Prints, encode_and_hash_type-Refines}

module _ (sdk : Sdk) where
  add_dep_if_new-Refines :
      (deps : List StructPtr) (s : StructPtr)
      → Refines sdk
          (add_dep_if_new deps s)
          (some (if listed deps s then deps else deps ++ (s ∷ [])))
  unfolding add_dep_if_new
  add_dep_if_new-Refines deps s = elim (Bool-cases (has_dep deps s)) [
    | inl known ↦ rw (known, sym (has_dep-listed deps s) ∙ known) (pure-Refines sdk deps)
    | inr new ↦
        rw (new, sym (has_dep-listed deps s) ∙ new)
          (Refines-next sdk _ tt _ _ (app_mem_alloc-Refines sdk)
            (pure-Refines sdk (deps ++ (s ∷ []))))
  ]

  collect_one_dep-Refines :
      (structs : List Struct) (f : Field) (deps : List StructPtr)
      → Refines sdk (collect_one_dep structs f deps) (field_dep structs f deps)
  unfolding collect_one_dep field_dep
  collect_one_dep-Refines structs f deps = of_type f.type
    where
      found :
          (o : Option StructPtr)
          → Refines sdk
              (elim o as (λ x. M (List StructPtr)) [
                | none ↦ fail
                | some dep ↦ add_dep_if_new deps dep
              ])
              (and_then o λ d. some (if listed deps d then deps else deps ++ (d ∷ [])))
      found none = fail-Refines sdk
      found (some d) = add_dep_if_new-Refines deps d

      of_type :
          (type : SolType)
          → let f' : Field = record f { type = type } in
            Refines sdk (collect_one_dep structs f' deps) (field_dep structs f' deps)
      of_type type_struct = found (td_find_struct structs f.struct_name)
      of_type sol_int = pure-Refines sdk deps
      of_type sol_uint = pure-Refines sdk deps
      of_type sol_address = pure-Refines sdk deps
      of_type sol_bool = pure-Refines sdk deps
      of_type sol_string = pure-Refines sdk deps
      of_type sol_bytes_fix = pure-Refines sdk deps
      of_type sol_bytes_dyn = pure-Refines sdk deps

  collect_direct_deps-Refines :
      (structs : List Struct) (fs : List Field) (deps : List StructPtr)
      → Refines sdk
          (td_visit_struct_fields fs (collect_one_dep structs) deps)
          (field_deps structs fs deps)
  unfolding td_visit_struct_fields field_deps
  collect_direct_deps-Refines structs [] deps = pure-Refines sdk deps
  collect_direct_deps-Refines structs (f ∷ fs) deps =
      Refines-bind sdk _ _ _ _ (collect_one_dep-Refines structs f deps)
        (λ deps' e. collect_direct_deps-Refines structs fs deps')

  deps_loop-Refines :
      (fuel : ℕ) (structs : List Struct) (place : ℕ) (deps : List StructPtr)
      → Refines sdk (deps_loop fuel structs place deps) (deps_from fuel structs place deps)
  unfolding deps_loop deps_from collect_direct_deps
  deps_loop-Refines zero structs place deps = fail-Refines sdk
  deps_loop-Refines (suc fuel) structs place deps = elim (Option-cases (get_elem? deps place)) [
    | inl end ↦ rw (end, deps_loop, deps_from) (pure-Refines sdk deps)
    | inr (s, here) ↦
        rw (here, deps_loop, deps_from)
          (Refines-bind sdk _ _ _ _ (collect_direct_deps-Refines structs s.def.fields deps)
            (λ deps' e. deps_loop-Refines fuel structs (suc place) deps'))
  ]

  get_struct_dependencies-Refines :
      (structs : List Struct) (s : Struct)
      → Refines sdk (get_struct_dependencies structs s) (struct_deps structs s)
  unfolding get_struct_dependencies struct_deps collect_direct_deps
  get_struct_dependencies-Refines structs s =
      Refines-bind sdk _ _ _ _ (collect_direct_deps-Refines structs s.fields [])
        (λ deps e. deps_loop-Refines (suc (length structs)) structs 0 deps)

module _ (sdk : Sdk) (prints : Prints sdk) where
  encode_and_hash_deps-Refines :
      (s : StructPtr) (deps : List StructPtr) (absorbed : List ℕ)
      → Refines sdk (encode_and_hash_deps sdk s deps absorbed) (some (absorbed ++ deps_text s deps))
  unfolding encode_and_hash_deps deps_text
  encode_and_hash_deps-Refines s [] absorbed =
      Refines-same sdk _ _ _ (ap some (sym (append-nil absorbed))) (pure-Refines sdk absorbed)
  encode_and_hash_deps-Refines s (d ∷ ds) absorbed = elim (Bool-cases (d.place == s.place)) [
    | inl own ↦ rw own (
        Refines-next sdk _ absorbed _ _ (pure-Refines sdk absorbed)
          (encode_and_hash_deps-Refines s ds absorbed))
    | inr other ↦ rw other (
        Refines-next sdk _ _ _ _ (encode_and_hash_type-Refines sdk prints d.def absorbed) (
          Refines-same sdk _ _ _
            (ap some (append_assoc absorbed (struct_text d.def) (deps_text s ds)))
            (encode_and_hash_deps-Refines s ds (absorbed ++ struct_text d.def))))
  ]

  pub type_hash-Refines :
      (structs : List Struct) (name : List ℕ)
      → Refines sdk (type_hash sdk structs name) (type_digest sdk structs name)
  unfolding type_hash type_digest
  type_hash-Refines structs name = elim (Option-cases (td_find_struct structs name)) [
    | inl missing ↦ rw (missing, type_hash) (fail-Refines sdk)
    | inr (s, here) ↦
        rw (here, type_hash)
          (Refines-next sdk _ [] _ _ (keccak_init-Refines sdk) (
            Refines-bind sdk _ _ _ _ (get_struct_dependencies-Refines sdk structs s.def) (λ deps e.
              rw same_order (
                Refines-next sdk _ _ _ _ (encode_and_hash_type-Refines sdk prints s.def []) (
                  Refines-next sdk _ _ _ _
                    (encode_and_hash_deps-Refines s (sdk.flist_sort names_before deps) _)
                    (hash_final-Refines sdk _))))))
  ]
