-- ===== src/Eip712/Pass.antt =====
-- value_hash_pass: the hashes that are kept for the signature.
use mathlib.Core.Option.{none-ne-some}
use ledger_ambire_signer.Base.{
  ℕ, ◌+◌, ◌≤◌, ◌<◌, ◌≡◌, ◌⊎◌, refl, ap, sym, ◌∙◌, arith, true, false, Option, none, some, List, [],
  ◌∷◌, leb, Bool-cases, Option-cases, inl, inr,
}
use ledger_ambire_signer.Base.Memory.{Heap}
use ledger_ambire_signer.Eip712.{
  Struct, Value, atomic, struct_value, array_value, Children, no_children, child_then, Sdk, M,
  ◌>>=◌, pure, fail, app_mem_alloc,
}
use ledger_ambire_signer.Eip712.Values.{
  hash_value, hash_containers, Impl, SigningContext, value_hash_pass,
}
use ledger_ambire_signer.Eip712.Refines.{IsUp, Refines, Refines-same, bind_none, bind_some}
use ledger_ambire_signer.Eip712.Order.{Sorts}
use ledger_ambire_signer.Eip712.Sorted.{with_own_sort, value_digest-with_own_sort}
use ledger_ambire_signer.Eip712.Reference.{value_digest, height, height_below}
use ledger_ambire_signer.Eip712.Texts.{Prints}
use ledger_ambire_signer.Eip712.Digests.{is_container, value-Refines}

-- A domain and a message that the pass can hash: containers of at most 16 levels.
pub record IsHashable (v : Value) : Type 0 where
  pub container : is_container v ≡ true
  pub shallow : height v ≤ 16

hash_value-agrees :
    (sdk : Sdk) (structs : List Struct) (v : Value)
    → Prints sdk
    → IsHashable v
    → Refines sdk (hash_value sdk structs 0 v) (value_digest sdk structs v)
hash_value-agrees sdk structs v prints h =
    value-Refines sdk prints structs 0 v h.container (omega (arith, h.shallow))

-- For a container of at most 16 levels, hash_value fails or gives its EIP-712 digest, whichever
-- allocations and hash operations fail; and where none of them fails, it gives the digest exactly
-- if there is one. The SDK's sort is a stable sort; the digest's types list their dependencies in
-- the order of their names as in a dictionary.
pub hash_value-Refines :
    (sdk : Sdk) (structs : List Struct) (v : Value)
    → Sorts sdk
    → Prints sdk
    → IsHashable v
    → Refines sdk (hash_value sdk structs 0 v) (value_digest (with_own_sort sdk) structs v)
hash_value-Refines sdk structs v sorts prints h =
    Refines-same sdk _ _ _ (value_digest-with_own_sort sdk structs sorts v)
      (hash_value-agrees sdk structs v prints h)

hash_value-some :
    (sdk : Sdk) (structs : List Struct) (v : Value) (hash : List ℕ) (heap : Heap)
    → Prints sdk
    → IsHashable v
    → (hash_value sdk structs 0 v heap).0 ≡ some hash
    → value_digest sdk structs v ≡ some hash
hash_value-some sdk structs v hash heap prints h e =
    elim ((hash_value-agrees sdk structs v prints h).sound heap) [
      | inl failed ↦ absurd (none-ne-some hash (sym failed ∙ e))
      | inr agrees ↦ sym agrees ∙ e
    ]

hash_value_up :
    (sdk : Sdk) (structs : List Struct) (v : Value) (hash : List ℕ)
    → Prints sdk
    → IsHashable v
    → IsUp sdk
    → value_digest sdk structs v ≡ some hash
    → hash_value sdk structs 0 v [] ≡ (some hash, [])
hash_value_up sdk structs v hash prints h up e =
    (hash_value-agrees sdk structs v prints h).complete up ∙ ap (λ (o : Option (List ℕ)). (o, [])) e

module _ (sdk : Sdk) (structs : List Struct) (domain message : Value)
    (context : SigningContext) where
  -- The pass over a domain and a message, where both are there.
  abbrev both : Impl
  both = record { domain = some domain; message = some message }

  pass_inv :
      (heap : Heap)
      → (value_hash_pass sdk structs both context heap).0 ≡ true
      → (d m : List ℕ) × (heap' : Heap) × ((hash_value sdk structs 0 domain heap).0 ≡ some d)
        × ((hash_value sdk structs 0 message heap').0 ≡ some m)
        × ((value_hash_pass sdk structs both context heap).1
            ≡ record { domain_hash = d; message_hash = m })
  unfolding value_hash_pass
  pass_inv heap e = elim (Option-cases (hash_value sdk structs 0 domain heap).0) [
    | inl failed ↦
        let no_pass : false ≡ true = rw (sym e, failed, value_hash_pass) refl in absurd (cc no_pass)
    | inr (d, found) ↦
        elim (Option-cases
          (hash_value sdk structs 0 message (hash_value sdk structs 0 domain heap).1).0) [
            | inl failed ↦
                let no_pass : false ≡ true = rw (sym e, found, failed, value_hash_pass) refl in
                absurd (cc no_pass)
            | inr (m, found') ↦ (
              d,
              m,
              (hash_value sdk structs 0 domain heap).1,
              found,
              found',
              rw (found, found', value_hash_pass) refl,
            )
          ]
  ]

  -- Whichever allocations and hash operations fail: a pass that answers true has kept EIP-712's
  -- digests of the domain and of the message, if these are containers of at most 16 levels.
  pub value_hash_pass-digests :
      (heap : Heap)
      → Prints sdk
      → IsHashable domain
      → IsHashable message
      → (value_hash_pass sdk structs both context heap).0 ≡ true
      → let kept : SigningContext = (value_hash_pass sdk structs both context heap).1 in
        (value_digest sdk structs domain ≡ some kept.domain_hash)
        × (value_digest sdk structs message ≡ some kept.message_hash)
  value_hash_pass-digests heap prints hd hm e =
      let (d, m, heap', first, second, same) = pass_inv heap e in
      rw same (
        hash_value-some sdk structs domain d heap prints hd first,
        hash_value-some sdk structs message m heap' prints hm second,
      )

  -- With memory and a working Keccak, a pass over a domain and a message of at most 16 levels that
  -- have EIP-712 digests answers true and keeps these.
  pub value_hash_pass_succeeds :
      (d m : List ℕ)
      → Prints sdk
      → IsUp sdk
      → IsHashable domain
      → IsHashable message
      → value_digest sdk structs domain ≡ some d
      → value_digest sdk structs message ≡ some m
      → value_hash_pass sdk structs both context []
        ≡ (true, record { domain_hash = d; message_hash = m }, [])
  unfolding value_hash_pass
  value_hash_pass_succeeds d m prints up hd hm ed em =
      let first = hash_value_up sdk structs domain d prints hd up ed in
      let second = hash_value_up sdk structs message m prints hm up em in
      rw
        (
          ap (λ (r : Option (List ℕ) × Heap). r.0) first,
          ap (λ (r : Option (List ℕ) × Heap). r.1) first,
          ap (λ (r : Option (List ℕ) × Heap). r.0) second,
          value_hash_pass,
        )
        (rw
          (
            ap (λ (r : Option (List ℕ) × Heap). r.1) first,
            ap (λ (r : Option (List ℕ) × Heap). r.1) second,
          )
          refl)

fail-none : {A : Type 0} (heap : Heap) → (fail {A = A} heap).0 ≡ none
unfolding fail
fail-none heap = refl

module _ {A B : Type 0} (m : M A) (f : A → M B) where
  fails_first : ((heap : Heap) → (m heap).0 ≡ none) → (heap : Heap) → ((m >>= f) heap).0 ≡ none
  fails_first failing heap = bind_none m f heap (failing heap)

  fails_next :
      ((a : A) (heap : Heap) → (f a heap).0 ≡ none) → (heap : Heap) → ((m >>= f) heap).0 ≡ none
  fails_next failing heap = elim (Option-cases (m heap).0) [
    | inl missing ↦ bind_none m f heap missing
    | inr (a, found) ↦
        ap (λ (r : Option B × Heap). r.0) (bind_some m f heap a found) ∙ failing a (m heap).1
  ]

-- The level that is too deep is in the first child, or below the others.
deep_cases :
    (depth : ℕ) (v : Value) (vs : Children)
    → 16 < depth + height_below (child_then v vs)
    → (16 < depth + height v) ⊎ (16 < depth + height_below vs)
unfolding height_below
deep_cases depth v vs deep = ground arith

module _ (sdk : Sdk) (structs : List Struct) where
  -- The first child is too deep, or one behind it.
  deep_child :
      (depth : ℕ) (m : M (List ℕ)) (rest : M (List (List ℕ)))
      → (((heap : Heap) → (m heap).0 ≡ none) ⊎ ((heap : Heap) → (rest heap).0 ≡ none))
      → (heap : Heap)
      → ((app_mem_alloc >>= λ _. m >>= λ digest. rest >>= λ digests. pure (digest ∷ digests))
          heap).0
        ≡ none
  deep_child depth m rest (inl first) = fails_next _ _ λ _. fails_first _ _ first
  deep_child depth m rest (inr other) =
      fails_next _ _ λ _. fails_next _ _ λ digest. fails_first _ _ other

  mutual
    unfolding hash_value hash_containers height height_below

    deep_value :
        (depth : ℕ) (v : Value)
        → depth ≤ 16
        → 16 < depth + height v
        → (heap : Heap) → (hash_value sdk structs depth v heap).0 ≡ none
    deep_value depth (atomic f value) fits deep = absurd (omega arith)
    deep_value depth (struct_value s vs) fits deep = elim (Bool-cases (leb 16 depth)) [
      | inl full ↦ rw full fail-none
      | inr room ↦
          rw room (fails_first _ _ (deep_containers (depth + 1) vs (ground arith) (omega arith)))
    ]
    deep_value depth (array_value f vs) fits deep = elim (Bool-cases (leb 16 depth)) [
      | inl full ↦ rw full fail-none
      | inr room ↦
          rw room (fails_first _ _ (deep_containers (depth + 1) vs (ground arith) (omega arith)))
    ]

    deep_containers :
        (depth : ℕ) (vs : Children)
        → depth ≤ 16
        → 16 < depth + height_below vs
        → (heap : Heap) → (hash_containers sdk structs depth vs heap).0 ≡ none
    deep_containers depth no_children fits deep = absurd (omega arith)
    deep_containers depth (child_then (atomic f value) vs) fits deep =
        elim (deep_cases depth (atomic f value) vs deep) [
          | inl first ↦ absurd (omega (arith, first))
          | inr other ↦ deep_containers depth vs fits other
        ]
    deep_containers depth (child_then (struct_value s cs) vs) fits deep =
        elim (deep_cases depth (struct_value s cs) vs deep) [
          | inl first ↦ deep_child depth _ _ (inl (deep_value depth (struct_value s cs) fits first))
          | inr other ↦ deep_child depth _ _ (inr (deep_containers depth vs fits other))
        ]
    deep_containers depth (child_then (array_value f cs) vs) fits deep =
        elim (deep_cases depth (array_value f cs) vs deep) [
          | inl first ↦ deep_child depth _ _ (inl (deep_value depth (array_value f cs) fits first))
          | inr other ↦ deep_child depth _ _ (inr (deep_containers depth vs fits other))
        ]

-- A value of more than 16 levels has no hash, whatever allocations and hash operations answer.
pub hash_value_too_deep :
    (sdk : Sdk) (structs : List Struct) (v : Value) (heap : Heap)
    → 16 < height v
    → (hash_value sdk structs 0 v heap).0 ≡ none
hash_value_too_deep sdk structs v heap deep =
    deep_value sdk structs 0 v (omega arith) (omega (arith, deep)) heap
