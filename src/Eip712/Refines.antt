-- ===== src/Eip712/Refines.antt =====
-- Code that may fail against its specification: where it answers, it gives the specified answer,
-- and it does answer so while there is memory and the SDK's Keccak works.
use mathlib.Core.Path.{subst}
use mathlib.Core.Option.{some-injective}
use ledger_ambire_signer.Base.{
  ℕ, ◌≡◌, ◌⊎◌, inl, inr, refl, sym, ap, ◌∙◌, true, false, Option, none, some, List, [], ◌∷◌, ◌++◌,
  Bool-cases, Option-cases,
}
use ledger_ambire_signer.Base.Memory.{Heap, alloc}
use ledger_ambire_signer.Eip712.{
  Sdk, M, ◌>>=◌, pure, fail, app_mem_alloc, keccak_init, hash_update, hash_final,
}

pub record IsUp (sdk : Sdk) : Type 0 where
  pub init_works : sdk.init_ok ≡ true
  pub update_works : (absorbed bytes : List ℕ) → sdk.update_ok absorbed bytes ≡ true
  pub final_works : (absorbed : List ℕ) → sdk.final_ok absorbed ≡ true

pub record Refines {A : Type 0} (sdk : Sdk) (m : M A) (spec : Option A) : Type 0 where
  pub sound : (heap : Heap) → ((m heap).0 ≡ none) ⊎ ((m heap).0 ≡ spec)
  pub complete : IsUp sdk → m [] ≡ (spec, [])

abbrev pub and_then : {A B : Type 0} → Option A → (A → Option B) → Option B
and_then none f = none
and_then (some a) f = f a

module _ {A B : Type 0} (m : M A) (f : A → M B) where
  pub bind_none : (heap : Heap) → (m heap).0 ≡ none → ((m >>= f) heap).0 ≡ none
  unfolding ◌>>=◌
  bind_none heap e = rw (e, ◌>>=◌) refl

  pub bind_some : (heap : Heap) (a : A) → (m heap).0 ≡ some a → (m >>= f) heap ≡ f a (m heap).1
  unfolding ◌>>=◌
  bind_some heap a e = rw (e, ◌>>=◌) refl

  continued : Option A → Option B × Heap
  continued none = (none, [])
  continued (some a) = f a []

  bind_empty : (r : Option A) → m [] ≡ (r, []) → (m >>= f) [] ≡ continued r
  unfolding ◌>>=◌ continued
  bind_empty none e =
      ap
        (λ (x : Option A × Heap). elim x.0 as (λ o. Option B × Heap) [
          | none ↦ (none, x.1)
          | some a' ↦ f a' x.1
        ])
        e
  bind_empty (some a) e =
      ap
        (λ (x : Option A × Heap). elim x.0 as (λ o. Option B × Heap) [
          | none ↦ (none, x.1)
          | some a' ↦ f a' x.1
        ])
        e

pub Refines-bind :
    {A B : Type 0} (sdk : Sdk) (m : M A) (spec : Option A) (f : A → M B) (q : A → Option B)
    → Refines sdk m spec
    → ((a : A) → spec ≡ some a → Refines sdk (f a) (q a))
    → Refines sdk (m >>= f) (and_then spec q)
Refines-bind {A} {B} sdk m spec f q first next = record {
  sound = λ heap. elim (Option-cases (m heap).0) [
    | inl missing ↦ inl (bind_none m f heap missing)
    | inr (a, found) ↦ after_some heap a found (first.sound heap)
  ];
  complete = λ up. bind_empty m f spec (first.complete up) ∙ rest up (Option-cases spec);
}
  where
    after_some :
        (heap : Heap) (a : A)
        → (m heap).0 ≡ some a
        → ((m heap).0 ≡ none) ⊎ ((m heap).0 ≡ spec)
        → (((m >>= f) heap).0 ≡ none) ⊎ (((m >>= f) heap).0 ≡ and_then spec q)
    after_some heap a found (inl missing) = inl (bind_none m f heap missing)
    after_some heap a found (inr agrees) =
        let known : spec ≡ some a = sym agrees ∙ found in
        let same : ((m >>= f) heap).0 ≡ (f a (m heap).1).0 =
          ap (λ (r : Option B × Heap). r.0) (bind_some m f heap a found) in
        elim ((next a known).sound (m heap).1) [
          | inl missing ↦ inl (same ∙ missing)
          | inr agrees' ↦ inr (same ∙ (agrees' ∙ ap (λ (o : Option A). and_then o q) (sym known)))
        ]

    rest :
        IsUp sdk
        → ((spec ≡ none) ⊎ ((a : A) × (spec ≡ some a)))
        → continued m f spec ≡ (and_then spec q, [])
    rest up (inl missing) = unfold continued in rw missing refl
    rest up (inr (a, known)) = unfold continued in rw known ((next a known).complete up)

pub Refines-same :
    {A : Type 0} (sdk : Sdk) (m : M A) (spec spec' : Option A)
    → spec ≡ spec'
    → Refines sdk m spec
    → Refines sdk m spec'
Refines-same sdk m spec spec' same r = record {
  sound =
      λ heap. elim (r.sound heap) [ inl missing ↦ inl missing | inr agrees ↦ inr (agrees ∙ same) ];
  complete = λ up. r.complete up ∙ ap (λ (o : Option _). (o, [])) same;
}

-- A step that is specified to succeed.
pub Refines-next :
    {A B : Type 0} (sdk : Sdk) (m : M A) (a : A) (f : A → M B) (spec : Option B)
    → Refines sdk m (some a)
    → Refines sdk (f a) spec
    → Refines sdk (m >>= f) spec
Refines-next sdk m a f spec first next =
    Refines-bind sdk m (some a) f (λ _. spec) first λ a' e. Refines-at a' (some-injective a a' e)
  where
    Refines-at : (a' : _) → a ≡ a' → Refines sdk (f a') spec
    Refines-at a' e = subst (λ x. Refines sdk (f x) spec) e next

pub pure-Refines : {A : Type 0} (sdk : Sdk) (a : A) → Refines sdk (pure a) (some a)
unfolding pure
pure-Refines sdk a = record { sound = λ heap. inr refl; complete = λ up. refl }

pub fail-Refines : {A : Type 0} (sdk : Sdk) → Refines sdk (fail {A = A}) none
unfolding fail
fail-Refines sdk = record { sound = λ heap. inl refl; complete = λ up. refl }

pub app_mem_alloc-Refines : (sdk : Sdk) → Refines sdk app_mem_alloc (some tt)
unfolding app_mem_alloc alloc
app_mem_alloc-Refines sdk = record { sound = cases; complete = λ up. refl }
  where
    cases : (heap : Heap) → ((app_mem_alloc heap).0 ≡ none) ⊎ ((app_mem_alloc heap).0 ≡ some tt)
    cases [] = inr refl
    cases (true ∷ heap) = inr refl
    cases (false ∷ heap) = inl refl

pub keccak_init-Refines : (sdk : Sdk) → Refines sdk (keccak_init sdk) (some [])
unfolding keccak_init
keccak_init-Refines sdk = record {
  sound = λ heap. elim (Bool-cases sdk.init_ok) [
    | inl works ↦ rw works (inr refl)
    | inr broken ↦ rw broken (inl refl)
  ];
  complete = λ up. rw up.init_works refl;
}

pub hash_update-Refines :
    (sdk : Sdk) (absorbed bytes : List ℕ)
    → Refines sdk (hash_update sdk absorbed bytes) (some (absorbed ++ bytes))
unfolding hash_update
hash_update-Refines sdk absorbed bytes = record {
  sound = λ heap. elim (Bool-cases (sdk.update_ok absorbed bytes)) [
    | inl works ↦ rw works (inr refl)
    | inr broken ↦ rw broken (inl refl)
  ];
  complete = λ up. rw (up.update_works absorbed bytes) refl;
}

pub hash_final-Refines :
    (sdk : Sdk) (absorbed : List ℕ)
    → Refines sdk (hash_final sdk absorbed) (some (sdk.keccak absorbed))
unfolding hash_final
hash_final-Refines sdk absorbed = record {
  sound = λ heap. elim (Bool-cases (sdk.final_ok absorbed)) [
    | inl works ↦ rw works (inr refl)
    | inr broken ↦ rw broken (inl refl)
  ];
  complete = λ up. rw (up.final_works absorbed) refl;
}
