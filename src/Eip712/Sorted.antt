-- ===== src/Eip712/Sorted.antt =====
-- The reference with its own sort of the names, in place of the SDK's.
use ledger_ambire_signer.Base.{ℕ, ◌≡◌, refl, List, Option-cases, inl, inr}
use ledger_ambire_signer.Eip712.{
  Field, Struct, StructPtr, Value, atomic, struct_value, array_value, Children, no_children,
  child_then, Sdk, td_find_struct,
}
use ledger_ambire_signer.Eip712.Reference.{
  names_before, struct_deps, type_digest, atomic_digest, value_digest, children_digest,
}
use ledger_ambire_signer.Eip712.Order.{insertion_sort, Sorts, names_before-IsOrder}

-- Only `keccak` and the sort are read in the reference.
abbrev pub with_own_sort : Sdk → Sdk
with_own_sort sdk = record sdk { flist_sort = insertion_sort }

pub sorted_names :
    (sdk : Sdk)
    → Sorts sdk
    → (deps : List StructPtr) → sdk.flist_sort names_before deps ≡ insertion_sort names_before deps
sorted_names sdk sorts deps = sorts names_before names_before-IsOrder deps

module _ (sdk : Sdk) (structs : List Struct) (sorts : Sorts sdk) where
  type_digest-with_own_sort :
      (name : List ℕ) → type_digest sdk structs name ≡ type_digest (with_own_sort sdk) structs name
  unfolding type_digest
  type_digest-with_own_sort name = elim (Option-cases (td_find_struct structs name)) [
    | inl missing ↦ rw missing refl
    | inr (s, found) ↦ elim (Option-cases (struct_deps structs s.def)) [
      | inl open_names ↦ rw (found, open_names) refl
      | inr (deps, e) ↦ rw (found, e, sorted_names sdk sorts deps) refl
    ]
  ]

  atomic_own :
      (f : Field) (value : List ℕ)
      → value_digest sdk structs (atomic f value)
        ≡ value_digest (with_own_sort sdk) structs (atomic f value)
  unfolding value_digest atomic_digest
  atomic_own f value = refl

  no_children_own :
      children_digest sdk structs no_children
      ≡ children_digest (with_own_sort sdk) structs no_children
  unfolding children_digest
  no_children_own = refl

  mutual
    unfolding value_digest children_digest

    pub value_digest-with_own_sort :
        (v : Value) → value_digest sdk structs v ≡ value_digest (with_own_sort sdk) structs v
    value_digest-with_own_sort (atomic f value) = atomic_own f value
    value_digest-with_own_sort (struct_value s children) =
        rw (type_digest-with_own_sort s.name, children_digest-with_own_sort children) refl
    value_digest-with_own_sort (array_value f children) =
        rw (children_digest-with_own_sort children) refl

    pub children_digest-with_own_sort :
        (vs : Children)
        → children_digest sdk structs vs ≡ children_digest (with_own_sort sdk) structs vs
    children_digest-with_own_sort no_children = no_children_own
    children_digest-with_own_sort (child_then v vs) =
        rw (value_digest-with_own_sort v, children_digest-with_own_sort vs) refl
