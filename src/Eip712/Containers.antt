-- ===== src/Eip712/Containers.antt =====
-- The digests of the containers among some children, and the loop that absorbs those of all.
use mathlib.Core.List.{append_assoc, append-nil}
use mathlib.Core.Path.{subst}
use mathlib.Core.Option.{some-injective, none-ne-some}
use ledger_ambire_signer.Base.{
  ℕ, ◌≡◌, refl, ap, sym, Option, none, some, List, [], ◌∷◌, ◌++◌, Option-cases, inl, inr,
}
use ledger_ambire_signer.Eip712.{
  Field, Struct, Value, atomic, struct_value, array_value, Children, no_children, child_then, Sdk,
  M, ◌>>=◌, hash_update,
}
use ledger_ambire_signer.Eip712.Values.{child_digest, hash_children}
use ledger_ambire_signer.Eip712.Refines.{
  Refines, Refines-same, Refines-next, Refines-bind, pure-Refines, hash_update-Refines, and_then,
}
use ledger_ambire_signer.Eip712.Reference.{atomic_digest, value_digest, children_digest}
use ledger_ambire_signer.Eip712.Atomic.{encode_atomic-Refines}

unfoldable pub container_digests : Sdk → List Struct → Children → Option (List (List ℕ))
container_digests sdk structs no_children = some []
container_digests sdk structs (child_then (atomic f value) vs) = container_digests sdk structs vs
container_digests sdk structs (child_then v vs) =
    and_then (value_digest sdk structs v)
      λ digest. and_then (container_digests sdk structs vs) λ digests. some (digest ∷ digests)

pub and_then-none : {A B : Type 0} (o : Option A) → and_then {A = A} {B = B} o (λ a. none) ≡ none
and_then-none none = refl
and_then-none (some a) = refl

container_first :
    (sdk : Sdk) (structs : List Struct) (o : Option (List ℕ)) (vs : Children)
    → and_then o
        (λ digest. and_then (container_digests sdk structs vs) λ digests. some (digest ∷ digests))
      ≡ none
    → (container_digests sdk structs vs ≡ none → children_digest sdk structs vs ≡ none)
    → and_then o
        (λ digest. and_then (children_digest sdk structs vs) λ digests. some (digest ++ digests))
      ≡ none
container_first sdk structs none vs e rest = refl
container_first sdk structs (some d) vs e rest =
    elim (Option-cases (container_digests sdk structs vs)) [
      | inl missing ↦ rw (rest missing) refl
      | inr (ds, found) ↦
          let there : Path (Option (List (List ℕ))) (some (d ∷ ds)) none = rw (sym e, found) refl in
          absurd (none-ne-some (d ∷ ds) (sym there))
    ]

-- A container without a digest leaves the children without one.
pub container_digests-none :
    (sdk : Sdk) (structs : List Struct) (vs : Children)
    → container_digests sdk structs vs ≡ none
    → children_digest sdk structs vs ≡ none
unfolding container_digests children_digest value_digest
container_digests-none sdk structs no_children e = absurd (none-ne-some [] (sym e))
container_digests-none sdk structs (child_then (atomic f value) vs) e =
    rw (container_digests-none sdk structs vs e) (and_then-none (atomic_digest sdk f value))
container_digests-none sdk structs (child_then (struct_value s cs) vs) e =
    container_first sdk structs _ vs e (container_digests-none sdk structs vs)
container_digests-none sdk structs (child_then (array_value f cs) vs) e =
    container_first sdk structs _ vs e (container_digests-none sdk structs vs)

-- With the digests of the containers made, the loop absorbs those of all children.
unfoldable pub absorbs : Sdk → List Struct → Children → List ℕ → Option (List ℕ)
absorbs sdk structs vs absorbed =
    and_then (children_digest sdk structs vs) λ digests. some (absorbed ++ digests)

absorbs_nothing :
    (sdk : Sdk) (structs : List Struct) (absorbed : List ℕ)
    → absorbs sdk structs no_children absorbed ≡ some absorbed
unfolding absorbs children_digest
absorbs_nothing sdk structs absorbed = ap some (append-nil absorbed)

absorbs_next :
    (sdk : Sdk) (structs : List Struct) (v : Value) (vs : Children) (absorbed : List ℕ)
    → and_then (value_digest sdk structs v) (λ digest. absorbs sdk structs vs (absorbed ++ digest))
      ≡ absorbs sdk structs (child_then v vs) absorbed
unfolding absorbs children_digest
absorbs_next sdk structs v vs absorbed = elim (Option-cases (value_digest sdk structs v)) [
  | inl missing ↦ rw missing refl
  | inr (d, found) ↦ elim (Option-cases (children_digest sdk structs vs)) [
    | inl missing ↦ rw (found, missing) refl
    | inr (ds, found') ↦ rw (found, found') (ap some (append_assoc absorbed d ds))
  ]
]

container_next :
    (o : Option (List ℕ)) (o' : Option (List (List ℕ))) (digests : List (List ℕ))
    → and_then o (λ d. and_then o' λ ds. some (d ∷ ds)) ≡ some digests
    → (d : List ℕ) × (ds : List (List ℕ)) × (o ≡ some d) × (o' ≡ some ds) × (digests ≡ d ∷ ds)
container_next none o' digests e = absurd (none-ne-some digests e)
container_next (some d) none digests e = absurd (none-ne-some digests e)
container_next (some d) (some ds) digests e =
    (d, ds, refl, refl, sym (some-injective (d ∷ ds) digests e))

one_atomic :
    (sdk : Sdk) (structs : List Struct) (f : Field) (value : List ℕ) (digests : List (List ℕ))
    (absorbed : List ℕ) (next : List (List ℕ) → List ℕ → M (List ℕ))
    (spec : List ℕ → Option (List ℕ))
    → ((digest : List ℕ) → Refines sdk (next digests (absorbed ++ digest)) (spec digest))
    → Refines sdk
        (child_digest sdk (atomic f value) digests >>= λ step.
          hash_update sdk absorbed step.0 >>= λ absorbed'. next step.1 absorbed')
        (and_then (value_digest sdk structs (atomic f value)) spec)
unfolding child_digest value_digest
one_atomic sdk structs f value digests absorbed next spec rest =
    Refines-same sdk _ _ _ (paired (atomic_digest sdk f value)) (
      Refines-bind sdk _ _ _ (λ step. spec step.0)
        (Refines-bind sdk _ _ _ _ (encode_atomic-Refines sdk f value)
          (λ digest e. pure-Refines sdk (digest, digests)))
        (λ step e. rest_of step (cursor (atomic_digest sdk f value) step e)))
  where
    paired :
        (o : Option (List ℕ))
        → and_then
            (and_then o (λ digest. some (digest, digests)))
            (λ (step : List ℕ × List (List ℕ)). spec step.0)
          ≡ and_then o spec
    paired none = refl
    paired (some d) = refl

    cursor :
        (o : Option (List ℕ)) (step : List ℕ × List (List ℕ))
        → and_then o (λ digest. some (digest, digests)) ≡ some step
        → step.1 ≡ digests
    cursor none step e = absurd (none-ne-some step e)
    cursor (some d) step e =
        ap (λ (x : List ℕ × List (List ℕ)). x.1) (sym (some-injective (d, digests) step e))

    rest_of :
        (step : List ℕ × List (List ℕ))
        → step.1 ≡ digests
        → Refines sdk
            (hash_update sdk absorbed step.0 >>= λ absorbed'. next step.1 absorbed')
            (spec step.0)
    rest_of step same = Refines-next sdk _ _ _ _ (hash_update-Refines sdk absorbed step.0) (
        subst (λ ds. Refines sdk (next ds (absorbed ++ step.0)) (spec step.0)) (sym same)
          (rest step.0))

pub hash_children-Refines :
    (sdk : Sdk) (structs : List Struct) (vs : Children) (digests : List (List ℕ))
    (absorbed : List ℕ)
    → container_digests sdk structs vs ≡ some digests
    → Refines sdk (hash_children sdk vs digests absorbed) (absorbs sdk structs vs absorbed)
unfolding hash_children child_digest container_digests
hash_children-Refines sdk structs no_children digests absorbed e =
    Refines-same sdk _ _ _ (sym (absorbs_nothing sdk structs absorbed)) (pure-Refines sdk absorbed)
hash_children-Refines sdk structs (child_then (atomic f value) vs) digests absorbed e =
    Refines-same sdk _ _ _ (absorbs_next sdk structs (atomic f value) vs absorbed) (
      one_atomic sdk structs f value digests absorbed _ _
        λ digest. hash_children-Refines sdk structs vs digests (absorbed ++ digest) e)
hash_children-Refines sdk structs (child_then (struct_value s cs) vs) digests absorbed e =
    let (d, ds, first, rest, same) = container_next _ _ digests e in
    rw same (
      Refines-same sdk _ _ _ (absorbs_next sdk structs (struct_value s cs) vs absorbed) (
        rw first (
          Refines-next sdk _ (d, ds) _ _ (pure-Refines sdk (d, ds))
            (Refines-next sdk _ _ _ _ (hash_update-Refines sdk absorbed d)
              (hash_children-Refines sdk structs vs ds (absorbed ++ d) rest)))))
hash_children-Refines sdk structs (child_then (array_value f cs) vs) digests absorbed e =
    let (d, ds, first, rest, same) = container_next _ _ digests e in
    rw same (
      Refines-same sdk _ _ _ (absorbs_next sdk structs (array_value f cs) vs absorbed) (
        rw first (
          Refines-next sdk _ (d, ds) _ _ (pure-Refines sdk (d, ds))
            (Refines-next sdk _ _ _ _ (hash_update-Refines sdk absorbed d)
              (hash_children-Refines sdk structs vs ds (absorbed ++ d) rest)))))
