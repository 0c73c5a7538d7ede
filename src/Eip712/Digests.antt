-- ===== src/Eip712/Digests.antt =====
-- The hash of a container is EIP-712's digest of it.
use ledger_ambire_signer.Base.{
  ℕ, ◌+◌, ◌≤◌, ◌≡◌, refl, sym, arith, Bool, true, false, Option, none, some, List, [], ◌∷◌, ◌++◌,
  leb, Option-cases, inl, inr,
}
use ledger_ambire_signer.Eip712.{
  Field, Struct, Value, atomic, struct_value, array_value, Children, no_children, child_then, Sdk,
  M, ◌>>=◌, pure, app_mem_alloc, hash_final,
}
use ledger_ambire_signer.Eip712.Values.{
  hash_children, hash_array, hash_struct, hash_value, hash_containers,
}
use ledger_ambire_signer.Eip712.Refines.{
  Refines, Refines-same, Refines-next, Refines-bind, pure-Refines, app_mem_alloc-Refines,
  keccak_init-Refines, hash_update-Refines, hash_final-Refines, and_then,
}
use ledger_ambire_signer.Eip712.Reference.{
  type_digest, value_digest, children_digest, height, height_below,
}
use ledger_ambire_signer.Eip712.Texts.{Prints}
use ledger_ambire_signer.Eip712.TypeHash.{type_hash-Refines}
use ledger_ambire_signer.Eip712.Containers.{
  container_digests, container_digests-none, and_then-none, absorbs, hash_children-Refines,
}

pub height_of_child :
    (v : Value) (vs : Children)
    → (height v ≤ height_below (child_then v vs))
      × (height_below vs ≤ height_below (child_then v vs))
unfolding height_below
height_of_child v vs = ground arith

unfoldable pub is_container : Value → Bool
is_container (atomic f value) = false
is_container (struct_value s cs) = true
is_container (array_value f cs) = true

-- The containers come first, and without their digests there is none of all the children.
containers_first :
    {A : Type 0} (sdk : Sdk) (structs : List Struct) (vs : Children) (spec : Option A)
    → (children_digest sdk structs vs ≡ none → spec ≡ none)
    → and_then (container_digests sdk structs vs) (λ ds. spec) ≡ spec
containers_first sdk structs vs spec none_without =
    elim (Option-cases (container_digests sdk structs vs)) [
      | inl missing ↦
          rw missing (sym (none_without (container_digests-none sdk structs vs missing)))
      | inr (ds, found) ↦ rw found refl
    ]

finished_text :
    (sdk : Sdk) (structs : List Struct) (vs : Children) (absorbed : List ℕ)
    → and_then (absorbs sdk structs vs absorbed) (λ text. some (sdk.keccak text))
      ≡ and_then (children_digest sdk structs vs) (λ ds. some (sdk.keccak (absorbed ++ ds)))
unfolding absorbs
finished_text sdk structs vs absorbed = elim (Option-cases (children_digest sdk structs vs)) [
  | inl missing ↦ rw missing refl
  | inr (ds, found) ↦ rw found refl
]

module _ (sdk : Sdk) (prints : Prints sdk) (structs : List Struct) where
  hash_struct-Refines :
      (s : Struct) (vs : Children) (digests : List (List ℕ))
      → container_digests sdk structs vs ≡ some digests
      → Refines sdk
          (hash_struct sdk structs s vs digests)
          (value_digest sdk structs (struct_value s vs))
  unfolding hash_struct value_digest
  hash_struct-Refines s vs digests made =
      Refines-bind sdk _ _ _ _ (type_hash-Refines sdk prints structs s.name) (λ type e.
        Refines-next sdk _ _ _ _ (keccak_init-Refines sdk)
          (Refines-next sdk _ _ _ _ (hash_update-Refines sdk [] type) (finished type)))
    where
      finished :
          (type : List ℕ)
          → Refines sdk
              (hash_children sdk vs digests type >>= λ absorbed. hash_final sdk absorbed)
              (and_then (children_digest sdk structs vs) λ ds. some (sdk.keccak (type ++ ds)))
      finished type = Refines-same sdk _ _ _ (finished_text sdk structs vs type) (
          Refines-bind sdk _ _ _ _ (hash_children-Refines sdk structs vs digests type made)
            (λ absorbed e. hash_final-Refines sdk absorbed))

  hash_array-Refines :
      (f : Field) (vs : Children) (digests : List (List ℕ))
      → container_digests sdk structs vs ≡ some digests
      → Refines sdk (hash_array sdk vs digests) (value_digest sdk structs (array_value f vs))
  unfolding hash_array value_digest
  hash_array-Refines f vs digests made = Refines-next sdk _ _ _ _ (keccak_init-Refines sdk) (
      Refines-same sdk _ _ _ (finished_text sdk structs vs []) (
        Refines-bind sdk _ _ _ _ (hash_children-Refines sdk structs vs digests [] made)
          (λ absorbed e. hash_final-Refines sdk absorbed)))

  struct_without :
      (s : Struct) (vs : Children)
      → children_digest sdk structs vs ≡ none
      → value_digest sdk structs (struct_value s vs) ≡ none
  unfolding value_digest
  struct_without s vs missing = rw missing (and_then-none (type_digest sdk structs s.name))

  array_without :
      (f : Field) (vs : Children)
      → children_digest sdk structs vs ≡ none
      → value_digest sdk structs (array_value f vs) ≡ none
  unfolding value_digest
  array_without f vs missing = rw missing refl

  -- A container among children, and those behind it.
  next_container :
      (v : Value) (vs : Children) (m : M (List ℕ)) (rest : M (List (List ℕ)))
      → Refines sdk m (value_digest sdk structs v)
      → Refines sdk rest (container_digests sdk structs vs)
      → Refines sdk
          (app_mem_alloc >>= λ _. m >>= λ digest. rest >>= λ digests. pure (digest ∷ digests))
          (and_then (value_digest sdk structs v) λ digest.
            and_then (container_digests sdk structs vs) λ digests. some (digest ∷ digests))
  next_container v vs m rest first others = Refines-next sdk _ tt _ _ (app_mem_alloc-Refines sdk) (
      Refines-bind sdk _ _ _ _ first (λ digest e.
        Refines-bind sdk _ _ _ _ others (λ digests e'. pure-Refines sdk (digest ∷ digests))))

  mutual
    unfolding hash_value hash_containers container_digests height height_below is_container

    pub value-Refines :
        (depth : ℕ) (v : Value)
        → is_container v ≡ true
        → depth + height v ≤ 16
        → Refines sdk (hash_value sdk structs depth v) (value_digest sdk structs v)
    value-Refines depth (atomic f value) container fits = absurd (cc container)
    value-Refines depth (struct_value s vs) container fits =
        let room : leb 16 depth ≡ false = ground arith in
        rw room (
          Refines-same sdk _ _ _
            (containers_first sdk structs vs (value_digest sdk structs (struct_value s vs))
              (struct_without s vs))
            (Refines-bind sdk _ _ _ _ (containers-Refines (depth + 1) vs (omega arith))
              (λ digests made. hash_struct-Refines s vs digests made)))
    value-Refines depth (array_value f vs) container fits =
        let room : leb 16 depth ≡ false = ground arith in
        rw room (
          Refines-same sdk _ _ _
            (containers_first sdk structs vs (value_digest sdk structs (array_value f vs))
              (array_without f vs))
            (Refines-bind sdk _ _ _ _ (containers-Refines (depth + 1) vs (omega arith))
              (λ digests made. hash_array-Refines f vs digests made)))

    containers-Refines :
        (depth : ℕ) (vs : Children)
        → depth + height_below vs ≤ 16
        → Refines sdk (hash_containers sdk structs depth vs) (container_digests sdk structs vs)
    containers-Refines depth no_children fits = pure-Refines sdk []
    containers-Refines depth (child_then (atomic f value) vs) fits =
        containers-Refines depth vs (omega (arith, height_of_child (atomic f value) vs))
    containers-Refines depth (child_then (struct_value s cs) vs) fits =
        next_container (struct_value s cs) vs _ _
          (value-Refines depth (struct_value s cs) refl
            (omega (arith, height_of_child (struct_value s cs) vs)))
          (containers-Refines depth vs (omega (arith, height_of_child (struct_value s cs) vs)))
    containers-Refines depth (child_then (array_value f cs) vs) fits =
        next_container (array_value f cs) vs _ _
          (value-Refines depth (array_value f cs) refl
            (omega (arith, height_of_child (array_value f cs) vs)))
          (containers-Refines depth vs (omega (arith, height_of_child (array_value f cs) vs)))
