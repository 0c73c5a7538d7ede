-- ===== src/Eip712/Dependencies.antt =====
-- The dependencies of a struct are closed, and there are no others.
use mathlib.Core.Path.{subst}
use mathlib.Core.List.{append_assoc, append-nil}
use mathlib.Core.Option.{some-injective, none-ne-some}
use ledger_ambire_signer.Base.{
  ℕ, zero, suc, ◌≤◌, ◌<◌, ◌≡◌, refl, ap, sym, ◌∙◌, arith, true, false, Option, none, some, List, [],
  ◌∷◌, ◌++◌, length, get_elem?, ◌==◌, if◌then◌else◌, All, Bool-cases, inl, inr,
}
use ledger_ambire_signer.Eip712.{
  SolType, type_struct, sol_int, sol_uint, sol_address, sol_bool, sol_string, sol_bytes_fix,
  sol_bytes_dyn, Field, Struct, StructPtr, td_find_struct,
}
use ledger_ambire_signer.Eip712.Reference.{listed}
use ledger_ambire_signer.Eip712.Refines.{and_then}
use ledger_ambire_signer.Eip712.Reference.{field_dep, field_deps}

-- A field that names a struct names one of the dependencies.
abbrev pub IsCoveredField : List Struct → List StructPtr → Field → Type 0
IsCoveredField structs deps f =
    f.type ≡ type_struct
    → (d : StructPtr) × (td_find_struct structs f.struct_name ≡ some d) × (listed deps d ≡ true)

abbrev pub IsCovered : List Struct → List StructPtr → List Field → Type 0
IsCovered structs deps fs = All (IsCoveredField structs deps) fs

listed-append :
    (deps more : List StructPtr) (d : StructPtr)
    → listed deps d ≡ true
    → listed (deps ++ more) d ≡ true
unfolding listed
listed-append [] more d e = absurd (cc e)
listed-append (x ∷ xs) more d e = elim (Bool-cases (x.place == d.place)) [
  | inl here ↦ rw here refl
  | inr there ↦
      let rest : listed xs d ≡ true = rw (sym e, there) refl in
      rw there (listed-append xs more d rest)
]

pub listed-last : (deps : List StructPtr) (d : StructPtr) → listed (deps ++ (d ∷ [])) d ≡ true
unfolding listed
listed-last [] d = let e : (d.place == d.place) ≡ true = ground arith in rw e refl
listed-last (x ∷ xs) d = rw (listed-last xs d) (ground arith)

pub IsCovered-append :
    (structs : List Struct) (deps more : List StructPtr) (fs : List Field)
    → IsCovered structs deps fs
    → IsCovered structs (deps ++ more) fs
IsCovered-append structs deps more [] c = tt
IsCovered-append structs deps more (f ∷ fs) (c, cs) = (
  λ names. let (d, found, has) = c names in (d, found, listed-append deps more d has),
  IsCovered-append structs deps more fs cs,
)

-- What one field does to the list.
pub data FieldStep (structs : List Struct) (f : Field) (deps deps' : List StructPtr) : Type 0 where
  stays : IsCoveredField structs deps f → deps' ≡ deps → FieldStep structs f deps deps'
  grows :
      (d : StructPtr)
      → f.type ≡ type_struct
      → td_find_struct structs f.struct_name ≡ some d
      → listed deps d ≡ false
      → deps' ≡ deps ++ (d ∷ [])
      → FieldStep structs f deps deps'

pub field_dep-FieldStep :
    (structs : List Struct) (f : Field) (deps deps' : List StructPtr)
    → field_dep structs f deps ≡ some deps'
    → FieldStep structs f deps deps'
unfolding field_dep
field_dep-FieldStep structs f deps deps' e = of_type f.type refl e
  where
    new :
        (o : Option StructPtr)
        → td_find_struct structs f.struct_name ≡ o
        → f.type ≡ type_struct
        → and_then o (λ d. some (if listed deps d then deps else deps ++ (d ∷ []))) ≡ some deps'
        → FieldStep structs f deps deps'
    new none found names e' = absurd (none-ne-some deps' e')
    new (some d) found names e' =
        let same : (if listed deps d then deps else deps ++ (d ∷ [])) ≡ deps' =
          some-injective _ _ e' in
        elim (Bool-cases (listed deps d)) [
          | inl known ↦ stays (λ t. (d, found, known)) (sym same ∙ rw known refl)
          | inr unknown ↦ grows d names found unknown (sym same ∙ rw unknown refl)
        ]

    of_type :
        (type : SolType)
        → f.type ≡ type
        → field_dep structs (record f { type = type }) deps ≡ some deps'
        → FieldStep structs f deps deps'
    of_type type_struct names e' = new (td_find_struct structs f.struct_name) refl names e'
    of_type sol_int native e' = stays (λ t. absurd (cc (native, t))) (sym (some-injective _ _ e'))
    of_type sol_uint native e' = stays (λ t. absurd (cc (native, t))) (sym (some-injective _ _ e'))
    of_type sol_address native e' =
        stays (λ t. absurd (cc (native, t))) (sym (some-injective _ _ e'))
    of_type sol_bool native e' = stays (λ t. absurd (cc (native, t))) (sym (some-injective _ _ e'))
    of_type sol_string native e' =
        stays (λ t. absurd (cc (native, t))) (sym (some-injective _ _ e'))
    of_type sol_bytes_fix native e' =
        stays (λ t. absurd (cc (native, t))) (sym (some-injective _ _ e'))
    of_type sol_bytes_dyn native e' =
        stays (λ t. absurd (cc (native, t))) (sym (some-injective _ _ e'))

pub and_then_inv :
    {A B : Type 0} (o : Option A) (f : A → Option B) (b : B)
    → and_then o f ≡ some b
    → (a : A) × (o ≡ some a) × (f a ≡ some b)
and_then_inv none f b e = absurd (none-ne-some b e)
and_then_inv (some a) f b e = (a, refl, e)

-- The fields of a struct are covered by the list they leave, which continues the one before.
pub record IsCollected (structs : List Struct) (fs : List Field) (deps deps' : List StructPtr)
    : Type 0 where
  pub more : List StructPtr
  pub continued : deps' ≡ deps ++ more
  pub covered : IsCovered structs deps' fs

FieldStep-IsCollected :
    (structs : List Struct) (f : Field) (deps deps' : List StructPtr)
    → FieldStep structs f deps deps'
    → IsCollected structs (f ∷ []) deps deps'
FieldStep-IsCollected structs f deps deps' (stays c same) =
    rw same (record { more = []; continued = sym (append-nil deps); covered = (c, tt) })
FieldStep-IsCollected structs f deps deps' (grows d names found new same) = rw same (record {
  more = d ∷ [];
  continued = refl;
  covered = (λ t. (d, found, listed-last deps d), tt);
})

IsCollected-next :
    (structs : List Struct) (f : Field) (fs : List Field) (deps mid deps' : List StructPtr)
    → IsCollected structs (f ∷ []) deps mid
    → IsCollected structs fs mid deps'
    → IsCollected structs (f ∷ fs) deps deps'
IsCollected-next structs f fs deps mid deps' c c' = record {
  more = c.more ++ c'.more;
  continued =
      c'.continued
      ∙ (ap (λ (t : List StructPtr). t ++ c'.more) c.continued ∙ append_assoc deps c.more c'.more);
  covered = (
    subst (λ t. IsCoveredField structs t f) (sym c'.continued)
        (IsCovered-append structs mid c'.more (f ∷ []) c.covered).0,
    c'.covered,
  );
}

pub field_deps-IsCollected :
    (structs : List Struct) (fs : List Field) (deps deps' : List StructPtr)
    → field_deps structs fs deps ≡ some deps'
    → IsCollected structs fs deps deps'
unfolding field_deps
field_deps-IsCollected structs [] deps deps' e =
    rw (sym (some-injective deps deps' e))
      (record { more = []; continued = sym (append-nil deps); covered = tt })
field_deps-IsCollected structs (f ∷ fs) deps deps' e =
    let (mid, first, rest) = and_then_inv (field_dep structs f deps) _ deps' e in
    IsCollected-next structs f fs deps mid deps'
      (FieldStep-IsCollected structs f deps mid (field_dep-FieldStep structs f deps mid first))
      (field_deps-IsCollected structs fs mid deps' rest)

-- The dependencies in front of a place are done: what they name is in the list.
abbrev pub IsDone : List Struct → ℕ → List StructPtr → Type 0
IsDone structs place deps =
    (i : ℕ) (d : StructPtr)
    → i < place
    → get_elem? deps i ≡ some d
    → IsCovered structs deps d.def.fields

pub get_elem?-append :
    {A : Type 0} (xs ys : List A) (i : ℕ) (a : A)
    → i < length xs
    → get_elem? (xs ++ ys) i ≡ some a
    → get_elem? xs i ≡ some a
get_elem?-append [] ys i a lt e = absurd (omega arith)
get_elem?-append (x ∷ xs) ys zero a lt e = e
get_elem?-append (x ∷ xs) ys (suc i) a lt e = get_elem?-append xs ys i a (omega arith) e

pub get_elem?-length :
    {A : Type 0} (xs : List A) (i : ℕ) (a : A) → get_elem? xs i ≡ some a → i < length xs
get_elem?-length [] i a e = absurd (none-ne-some a e)
get_elem?-length (x ∷ xs) zero a e = omega arith
get_elem?-length (x ∷ xs) (suc i) a e = omega (arith, get_elem?-length xs i a e)

pub get_elem?-none : {A : Type 0} (xs : List A) (i : ℕ) → get_elem? xs i ≡ none → length xs ≤ i
get_elem?-none [] i e = omega arith
get_elem?-none (x ∷ xs) zero e = absurd (none-ne-some x (sym e))
get_elem?-none (x ∷ xs) (suc i) e = omega (arith, get_elem?-none xs i e)
