-- ===== src/Eip712/Done.antt =====
-- Behind the cursor of get_struct_dependencies, every struct's fields are covered.
use mathlib.Core.Path.{subst}
use mathlib.Core.Option.{some-injective, none-ne-some}
use mathlib.Core.List.{append_assoc, append-nil}
use ledger_ambire_signer.Eip712.Refines.{and_then}
use ledger_ambire_signer.Base.{
  ℕ, zero, suc, ◌≡◌, refl, ap, sym, ◌∙◌, arith, Option, some, List, [], ◌++◌, length, get_elem?,
  ◌==◌, Bool-cases, Option-cases, inl, inr,
}
use ledger_ambire_signer.Eip712.{Struct, StructPtr}
use ledger_ambire_signer.Eip712.Reference.{field_deps, deps_from}
use ledger_ambire_signer.Eip712.Dependencies.{
  IsCovered, IsCovered-append, and_then_inv, IsCollected, field_deps-IsCollected, IsDone,
  get_elem?-append, get_elem?-length, get_elem?-none,
}

IsDone-next :
    (structs : List Struct) (place : ℕ) (deps mid : List StructPtr) (s : StructPtr)
    → get_elem? deps place ≡ some s
    → IsDone structs place deps
    → IsCollected structs s.def.fields deps mid
    → IsDone structs (suc place) mid
IsDone-next structs place deps mid s here done c i d lt e =
    let known : get_elem? deps i ≡ some d =
      get_elem?-append deps c.more i d (omega (arith, get_elem?-length deps place s here))
        (ap (λ (t : List StructPtr). get_elem? t i) (sym c.continued) ∙ e) in
    elim (Bool-cases (i == place)) [
      | inl same ↦
          let at_place : i ≡ place = ground arith in
          let which : s ≡ d =
            some-injective s d
              (sym here ∙ (ap (λ (k : ℕ). get_elem? deps k) (sym at_place) ∙ known)) in
          subst (λ t. IsCovered structs mid t.def.fields) which c.covered
      | inr other ↦
          subst (λ t. IsCovered structs t d.def.fields) (sym c.continued)
            (IsCovered-append structs deps c.more d.def.fields
              (done i d (ground (arith, other)) known))
    ]

-- Every dependency is done when the worklist ends, and those of before are still there.
pub deps_from-IsDone :
    (fuel : ℕ) (structs : List Struct) (place : ℕ) (deps deps' : List StructPtr)
    → IsDone structs place deps
    → deps_from fuel structs place deps ≡ some deps'
    → (more : List StructPtr) × (deps' ≡ deps ++ more) × IsDone structs (length deps') deps'
unfolding deps_from
deps_from-IsDone zero structs place deps deps' done e = absurd (none-ne-some deps' e)
deps_from-IsDone (suc fuel) structs place deps deps' done e =
    elim (Option-cases (get_elem? deps place)) [
      | inl end ↦
          let same : Path (Option (List StructPtr)) (some deps) (some deps') =
            rw (sym e, end, deps_from) refl in
          (
            [],
            sym (some-injective deps deps' same) ∙ sym (append-nil deps),
            subst (λ t. IsDone structs (length t) t) (some-injective deps deps' same)
                (λ i d lt e'. done i d (omega (arith, lt, get_elem?-none deps place end)) e'),
          )
      | inr (s, here) ↦
          let next : and_then (field_deps structs s.def.fields deps)
                (λ mid. deps_from fuel structs (suc place) mid)
              ≡ some deps' =
            rw (sym e, here, deps_from) refl in
          let (mid, first, rest) =
            and_then_inv (field_deps structs s.def.fields deps) _ deps' next in
          let c = field_deps-IsCollected structs s.def.fields deps mid first in
          let (more, continued, all_done) =
            deps_from-IsDone fuel structs (suc place) mid deps'
              (IsDone-next structs place deps mid s here done c) rest in
          (
            c.more ++ more,
            continued
                ∙ (ap (λ (t : List StructPtr). t ++ more) c.continued
                    ∙ append_assoc deps c.more more),
            all_done,
          )
    ]
