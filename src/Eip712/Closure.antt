-- ===== src/Eip712/Closure.antt =====
-- The list that the worklist of get_struct_dependencies leaves, and that it ends.
use mathlib.Core.Path.{subst}
use mathlib.Core.Option.{some-injective, none-ne-some}
use ledger_ambire_signer.Eip712.Refines.{and_then}
use ledger_ambire_signer.Base.{
  ℕ, zero, suc, ◌<◌, ◌≡◌, refl, sym, arith, Bool, true, false, not, ◌&&◌, Option, none, some, List,
  [], ◌∷◌, ◌++◌, length, get_elem?, ◌==◌, All, Option-cases, inl, inr,
}
use ledger_ambire_signer.Eip712.{
  SolType, type_struct, sol_int, sol_uint, sol_address, sol_bool, sol_string, sol_bytes_fix,
  sol_bytes_dyn, Field, Struct, StructPtr, td_find_struct,
}
use ledger_ambire_signer.Eip712.Reference.{listed}
use ledger_ambire_signer.Eip712.Reference.{field_dep, field_deps, deps_from, struct_deps}
use ledger_ambire_signer.Eip712.Done.{deps_from-IsDone}
use ledger_ambire_signer.Eip712.Dependencies.{
  IsCoveredField, IsCovered, IsCovered-append, FieldStep, stays, grows, field_dep-FieldStep,
  and_then_inv, field_deps-IsCollected,
}

-- A field that names a struct names a dependency.
unfoldable pub names_dep : List Struct → List StructPtr → Field → Bool
names_dep structs deps f = elim f.type [
  | type_struct ↦ elim (td_find_struct structs f.struct_name) [
    | none ↦ false
    | some d ↦ listed deps d
  ]
  | _ ↦ true
]

-- The structs that a struct's fields name, that theirs name, and so on.
pub data Reached (structs : List Struct) (s : Struct) : StructPtr → Type 0 where
  own :
      (i : ℕ) (f : Field) (d : StructPtr)
      → get_elem? s.fields i ≡ some f
      → f.type ≡ type_struct
      → td_find_struct structs f.struct_name ≡ some d
      → Reached structs s d
  below :
      (c : StructPtr) (i : ℕ) (f : Field) (d : StructPtr)
      → Reached structs s c
      → get_elem? c.def.fields i ≡ some f
      → f.type ≡ type_struct
      → td_find_struct structs f.struct_name ≡ some d
      → Reached structs s d

-- No struct comes twice.
unfoldable pub distinct : List StructPtr → Bool
distinct [] = true
distinct (d ∷ ds) = not (listed ds d) && distinct ds

pub record IsClosure (structs : List Struct) (s : Struct) (deps : List StructPtr) : Type 0 where
  pub own_fields : All (λ f. names_dep structs deps f ≡ true) s.fields
  pub their_fields :
      All (λ (d : StructPtr). All (λ f. names_dep structs deps f ≡ true) d.def.fields) deps
  pub only_reached : All (Reached structs s) deps
  pub no_repeats : distinct deps ≡ true

names_dep_covered :
    (structs : List Struct) (deps : List StructPtr) (f : Field)
    → IsCoveredField structs deps f
    → names_dep structs deps f ≡ true
unfolding names_dep
names_dep_covered structs deps f c = of_type f.type c
  where
    of_type :
        (type : SolType)
        → IsCoveredField structs deps (record f { type = type })
        → names_dep structs deps (record f { type = type }) ≡ true
    of_type type_struct c' = let (d, found, has) = c' refl in rw (found, names_dep) has
    of_type sol_int c' = refl
    of_type sol_uint c' = refl
    of_type sol_address c' = refl
    of_type sol_bool c' = refl
    of_type sol_string c' = refl
    of_type sol_bytes_fix c' = refl
    of_type sol_bytes_dyn c' = refl

All-named :
    (structs : List Struct) (deps : List StructPtr) (fs : List Field)
    → IsCovered structs deps fs
    → All (λ f. names_dep structs deps f ≡ true) fs
All-named structs deps [] c = tt
All-named structs deps (f ∷ fs) (c, cs) =
    (names_dep_covered structs deps f c, All-named structs deps fs cs)

one_step :
    (structs : List Struct) (P : List StructPtr → Type 0) (f : Field) (deps mid : List StructPtr)
    → ((d : StructPtr) (ds : List StructPtr)
        → some f ≡ some f
        → f.type ≡ type_struct
        → td_find_struct structs f.struct_name ≡ some d
        → listed ds d ≡ false
        → P ds
        → P (ds ++ (d ∷ [])))
    → FieldStep structs f deps mid
    → P deps
    → P mid
one_step structs P f deps mid step (stays c same) p = subst P (sym same) p
one_step structs P f deps mid step (grows d names found new same) p =
    subst P (sym same) (step d deps refl names found new p)

listed-snoc :
    (ds : List StructPtr) (d e : StructPtr)
    → listed ds e ≡ false
    → (e.place == d.place) ≡ false
    → listed (ds ++ (d ∷ [])) e ≡ false
unfolding listed
listed-snoc [] d e new apart = ground (arith, apart)
listed-snoc (x ∷ xs) d e new apart =
    let first : (x.place == e.place) ≡ false = ground (arith, new) in
    let rest : listed xs e ≡ false = ground (arith, new) in
    rw (first, listed-snoc xs d e rest apart) refl

-- What holds of a list, and still holds with a struct more that a field names, holds of the list
-- that the fields leave.
pub field_deps_keeps :
    (structs : List Struct) (P : List StructPtr → Type 0) (fs : List Field)
    (deps deps' : List StructPtr)
    → ((i : ℕ) (f : Field) (d : StructPtr) (ds : List StructPtr)
        → get_elem? fs i ≡ some f
        → f.type ≡ type_struct
        → td_find_struct structs f.struct_name ≡ some d
        → listed ds d ≡ false
        → P ds
        → P (ds ++ (d ∷ [])))
    → field_deps structs fs deps ≡ some deps'
    → P deps
    → P deps'
unfolding field_deps
field_deps_keeps structs P [] deps deps' step e p = subst P (some-injective deps deps' e) p
field_deps_keeps structs P (f ∷ fs) deps deps' step e p =
    let (mid, first, rest) = and_then_inv (field_dep structs f deps) _ deps' e in
    field_deps_keeps structs P fs mid deps' (λ i. step (suc i)) rest
      (one_step structs P f deps mid (step 0 f) (field_dep-FieldStep structs f deps mid first) p)

distinct-snoc :
    (ds : List StructPtr) (d : StructPtr)
    → distinct ds ≡ true
    → listed ds d ≡ false
    → distinct (ds ++ (d ∷ [])) ≡ true
unfolding distinct listed
distinct-snoc [] d e new = refl
distinct-snoc (x ∷ xs) d e new =
    let apart : (x.place == d.place) ≡ false = ground (arith, new) in
    let others : listed xs d ≡ false = ground (arith, new) in
    let first : listed xs x ≡ false = ground (arith, e) in
    let rest : distinct xs ≡ true = ground (arith, e) in
    rw (listed-snoc xs d x first apart) (distinct-snoc xs d rest others)

pub All-snoc :
    {A : Type 0} (P : A → Type 0) (xs : List A) (x : A) → All P xs → P x → All P (xs ++ (x ∷ []))
All-snoc P [] x all p = (p, tt)
All-snoc P (y ∷ ys) x (q, all) p = (q, All-snoc P ys x all p)

pub All-at :
    {A : Type 0} (P : A → Type 0) (xs : List A) (i : ℕ) (x : A)
    → All P xs
    → get_elem? xs i ≡ some x
    → P x
All-at P [] i x all e = absurd (none-ne-some x e)
All-at P (y ∷ ys) zero x (p, all) e = subst P (some-injective y x e) p
All-at P (y ∷ ys) (suc i) x (p, all) e = All-at P ys i x all e

All-of :
    {A : Type 0} (P : A → Type 0) (xs : List A)
    → ((i : ℕ) (x : A) → i < length xs → get_elem? xs i ≡ some x → P x)
    → All P xs
All-of P [] h = tt
All-of P (x ∷ xs) h =
    (h 0 x (omega arith) refl, All-of P xs (λ i y lt e. h (suc i) y (omega (arith, lt)) e))

-- What the list holds at every time: structs that are reached, each once.
abbrev IsPart : List Struct → Struct → List StructPtr → Type 0
IsPart structs s deps = All (Reached structs s) deps × (distinct deps ≡ true)

deps_from-IsPart :
    (fuel : ℕ) (structs : List Struct) (s : Struct) (place : ℕ) (deps deps' : List StructPtr)
    → IsPart structs s deps
    → deps_from fuel structs place deps ≡ some deps'
    → IsPart structs s deps'
unfolding deps_from
deps_from-IsPart zero structs s place deps deps' part e = absurd (none-ne-some deps' e)
deps_from-IsPart (suc fuel) structs s place deps deps' part e =
    elim (Option-cases (get_elem? deps place)) [
      | inl end ↦
          let same : Path (Option (List StructPtr)) (some deps) (some deps') =
            rw (sym e, end, deps_from) refl in
          subst (IsPart structs s) (some-injective deps deps' same) part
      | inr (c, here) ↦
          let next : and_then (field_deps structs c.def.fields deps)
                (λ mid. deps_from fuel structs (suc place) mid)
              ≡ some deps' =
            rw (sym e, here, deps_from) refl in
          let (mid, first, rest) =
            and_then_inv (field_deps structs c.def.fields deps) _ deps' next in
          let reached = All-at (Reached structs s) deps place c part.0 here in
          deps_from-IsPart fuel structs s (suc place) mid deps'
            (field_deps_keeps structs (IsPart structs s) c.def.fields deps mid
              (λ i f d ds at names found new p. (
                All-snoc (Reached structs s) ds d p.0 (below c i f d reached at names found),
                distinct-snoc ds d p.1 new,
              ))
              first part)
            rest
    ]

-- A list of dependencies is closed: it has every struct that the struct's fields name and that
-- theirs name; it has no others than those reached in this way, and none of them twice.
pub struct_deps-IsClosure :
    (structs : List Struct) (s : Struct) (deps : List StructPtr)
    → struct_deps structs s ≡ some deps
    → IsClosure structs s deps
unfolding struct_deps
struct_deps-IsClosure structs s deps e =
    let (start, first, rest) = and_then_inv (field_deps structs s.fields []) _ deps e in
    let c = field_deps-IsCollected structs s.fields [] start first in
    let (more, continued, done) =
      deps_from-IsDone (suc (length structs)) structs 0 start deps
        (λ i d lt e'. absurd (omega (arith, lt))) rest in
    let part =
      deps_from-IsPart (suc (length structs)) structs s 0 start deps
        (field_deps_keeps structs (IsPart structs s) s.fields [] start
          (λ i f d ds at names found new p. (
            All-snoc (Reached structs s) ds d p.0 (own i f d at names found),
            distinct-snoc ds d p.1 new,
          ))
          first (tt, unfold distinct in refl))
        rest in
    record {
      own_fields = All-named structs deps s.fields (
          subst (λ t. IsCovered structs t s.fields) (sym continued)
            (IsCovered-append structs start more s.fields c.covered));
      their_fields =
          All-of _ deps (λ i d lt at. All-named structs deps d.def.fields (done i d lt at));
      only_reached = part.0;
      no_repeats = part.1;
    }
