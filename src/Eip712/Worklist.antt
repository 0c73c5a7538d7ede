-- ===== src/Eip712/Worklist.antt =====
-- The worklist ends, where every struct that a field names is defined; with it type_hash.
use mathlib.Core.Path.{subst}
use mathlib.Core.Option.{some-injective, none-ne-some}
use ledger_ambire_signer.Base.{
  ℕ, zero, suc, ◌+◌, ◌≤◌, ◌<◌, ◌≡◌, refl, ap, sym, ◌∙◌, arith, Bool, true, false, ◌||◌, Option,
  none, some, List, [], ◌∷◌, ◌++◌, length, length-append, get_elem?, ◌==◌, if◌then◌else◌, All,
  Bool-cases, Option-cases, inl, inr, ltb,
}
use ledger_ambire_signer.Eip712.{
  SolType, type_struct, sol_int, sol_uint, sol_address, sol_bool, sol_string, sol_bytes_fix,
  sol_bytes_dyn, Field, Struct, StructPtr, td_find_struct, td_find_struct_if,
}
use ledger_ambire_signer.Eip712.Reference.{listed}
use ledger_ambire_signer.Eip712.Refines.{and_then}
use ledger_ambire_signer.Eip712.Reference.{field_dep, field_deps, deps_from, struct_deps}
use ledger_ambire_signer.Eip712.Dependencies.{field_deps-IsCollected, get_elem?-length}
use ledger_ambire_signer.Eip712.Closure.{All-snoc, field_deps_keeps, All-at}

-- A field that names a struct names one that is defined.
unfoldable pub resolves : List Struct → Field → Bool
resolves structs f = elim f.type [
  | type_struct ↦ elim (td_find_struct structs f.struct_name) [ none ↦ false | some d ↦ true ]
  | _ ↦ true
]

abbrev pub IsResolved : List Struct → Struct → Type 0
IsResolved structs s = All (λ f. resolves structs f ≡ true) s.fields

has_place : List StructPtr → ℕ → Bool
has_place [] k = false
has_place (d ∷ ds) k = d.place == k || has_place ds k

-- The places below a number that no dependency has.
missing : ℕ → List StructPtr → ℕ
missing zero ds = 0
missing (suc k) ds = if has_place ds k then missing k ds else suc (missing k ds)

listed_place : (ds : List StructPtr) (d : StructPtr) → listed ds d ≡ has_place ds d.place
unfolding listed has_place
listed_place [] d = refl
listed_place (x ∷ xs) d = rw (listed_place xs d) refl

has_place-snoc :
    (ds : List StructPtr) (d : StructPtr) (k : ℕ)
    → has_place (ds ++ (d ∷ [])) k ≡ has_place ds k || d.place == k
unfolding has_place
has_place-snoc [] d k = ground arith
has_place-snoc (x ∷ xs) d k = rw (has_place-snoc xs d k) (ground arith)

missing_none : (k : ℕ) → missing k [] ≡ k
unfolding missing has_place
missing_none zero = refl
missing_none (suc k) = ap suc (missing_none k)

-- A new place is missing no more, and none is missing that was not.
missing-snoc :
    (k : ℕ) (ds : List StructPtr) (d : StructPtr)
    → has_place ds d.place ≡ false
    → (if ltb d.place k then suc (missing k (ds ++ (d ∷ []))) else missing k (ds ++ (d ∷ [])))
      ≤ missing k ds
unfolding missing
missing-snoc zero ds d new = ground arith
missing-snoc (suc k) ds d new =
    let rest = missing-snoc k ds d new in
    let here = has_place-snoc ds d k in
    elim (Bool-cases (d.place == k)) [
      | inl same ↦
          let at_k : d.place ≡ k = ground (arith, same) in
          let unknown : has_place ds k ≡ false = ap (has_place ds) (sym at_k) ∙ new in
          rw (here, unknown, same) (ground (arith, rest, at_k))
      | inr other ↦ rw (here, other) (ground (arith, rest))
    ]

-- A struct that is found is one of those defined.
found_in :
    (P : Struct → Type 0) (place : ℕ) (ss : List Struct) (pred : Struct → Bool) (d : StructPtr)
    → All P ss
    → td_find_struct_if place ss pred ≡ some d
    → P d.def × (d.place < place + length ss)
unfolding td_find_struct_if
found_in P place [] pred d all e = absurd (none-ne-some d e)
found_in P place (s ∷ ss) pred d (p, all) e = elim (Bool-cases (pred s)) [
  | inl hit ↦
      let here : Path (Option StructPtr) (some (record { place = place; def = s })) (some d) =
        rw (sym e, hit, td_find_struct_if) refl in
      subst (λ t. P t.def × (t.place < place + length (s ∷ ss))) (some-injective _ _ here)
        (p, omega arith)
  | inr missed ↦
      let there : td_find_struct_if (suc place) ss pred ≡ some d =
        rw (sym e, missed, td_find_struct_if) refl in
      let (q, lt) = found_in P (suc place) ss pred d all there in (q, omega (arith, lt))
]

-- Room for what is missing, and only structs whose fields resolve.
abbrev IsBounded : List Struct → List StructPtr → Type 0
IsBounded structs ds =
    (length ds + missing (length structs) ds ≤ length structs)
    × All (λ (d : StructPtr). IsResolved structs d.def) ds

pub found-IsResolved :
    (structs : List Struct) (name : List ℕ) (d : StructPtr)
    → All (IsResolved structs) structs
    → td_find_struct structs name ≡ some d
    → IsResolved structs d.def × (d.place < length structs)
unfolding td_find_struct
found-IsResolved structs name d all found =
    let (own, lt) = found_in (IsResolved structs) 0 structs _ d all found in
    (own, omega (arith, lt))

IsBounded-step :
    (structs : List Struct) (name : List ℕ) (d : StructPtr) (ds : List StructPtr)
    → All (IsResolved structs) structs
    → td_find_struct structs name ≡ some d
    → listed ds d ≡ false
    → IsBounded structs ds
    → IsBounded structs (ds ++ (d ∷ []))
IsBounded-step structs name d ds all found new (room, resolved) =
    let (own, lt) = found-IsResolved structs name d all found in
    (
      ground (
        arith,
        lt,
        room,
        length-append ds (d ∷ []),
        missing-snoc (length structs) ds d (sym (listed_place ds d) ∙ new),
      ),
      All-snoc _ ds d resolved own,
    )

field_dep_total :
    (structs : List Struct) (f : Field) (deps : List StructPtr)
    → resolves structs f ≡ true
    → (deps' : List StructPtr) × (field_dep structs f deps ≡ some deps')
unfolding resolves field_dep
field_dep_total structs f deps e = of_type f.type e
  where
    found :
        (o : Option StructPtr)
        → elim o as (λ x. Bool) [ none ↦ false | some d ↦ true ] ≡ true
        → (deps' : List StructPtr) × (and_then o
              (λ d. some (if listed deps d then deps else deps ++ (d ∷ [])))
            ≡ some deps')
    found none e' = absurd (cc e')
    found (some d) e' = (_, refl)

    of_type :
        (type : SolType)
        → resolves structs (record f { type = type }) ≡ true
        → (deps' : List StructPtr) × (field_dep structs (record f { type = type }) deps
            ≡ some deps')
    of_type type_struct e' = found (td_find_struct structs f.struct_name) e'
    of_type sol_int e' = (deps, refl)
    of_type sol_uint e' = (deps, refl)
    of_type sol_address e' = (deps, refl)
    of_type sol_bool e' = (deps, refl)
    of_type sol_string e' = (deps, refl)
    of_type sol_bytes_fix e' = (deps, refl)
    of_type sol_bytes_dyn e' = (deps, refl)

field_deps_total :
    (structs : List Struct) (fs : List Field) (deps : List StructPtr)
    → All (λ f. resolves structs f ≡ true) fs
    → (deps' : List StructPtr) × (field_deps structs fs deps ≡ some deps')
unfolding field_deps
field_deps_total structs [] deps all = (deps, refl)
field_deps_total structs (f ∷ fs) deps (e, all) =
    let (mid, first) = field_dep_total structs f deps e in
    let (deps', rest) = field_deps_total structs fs mid all in (deps', rw (first, field_deps) rest)

-- With a round for each place that is left, the loop ends.
deps_from_total :
    (fuel : ℕ) (structs : List Struct) (place : ℕ) (deps : List StructPtr)
    → All (IsResolved structs) structs
    → IsBounded structs deps
    → place ≤ length deps
    → length structs < place + fuel
    → (deps' : List StructPtr) × (deps_from fuel structs place deps ≡ some deps')
unfolding deps_from
deps_from_total zero structs place deps all bounded here left = absurd (omega (arith, bounded.0))
deps_from_total (suc fuel) structs place deps all bounded here left =
    elim (Option-cases (get_elem? deps place)) [
      | inl end ↦ (deps, rw (end, deps_from) refl)
      | inr (c, at) ↦
          let (mid, first) =
            field_deps_total structs c.def.fields deps (All-at _ deps place c bounded.1 at) in
          let grown = field_deps-IsCollected structs c.def.fields deps mid first in
          let (deps', rest) =
            deps_from_total fuel structs (suc place) mid all
              (field_deps_keeps structs (IsBounded structs) c.def.fields deps mid
                (λ i f d ds at' names found new b.
                  IsBounded-step structs f.struct_name d ds all found new b)
                first bounded)
              (omega (
                arith,
                get_elem?-length deps place c at,
                ap (λ (t : List StructPtr). length t) grown.continued,
                length-append deps grown.more,
              ))
              (omega (arith, left)) in
          (deps', rw (at, first, deps_from) rest)
    ]

pub struct_deps_total :
    (structs : List Struct) (s : Struct)
    → All (IsResolved structs) structs
    → IsResolved structs s
    → (deps : List StructPtr) × (struct_deps structs s ≡ some deps)
unfolding struct_deps
struct_deps_total structs s all own =
    let (start, first) = field_deps_total structs s.fields [] own in
    let (deps, rest) =
      deps_from_total (suc (length structs)) structs 0 start all
        (field_deps_keeps structs (IsBounded structs) s.fields [] start
          (λ i f d ds at names found new b.
            IsBounded-step structs f.struct_name d ds all found new b)
          first (omega (arith, missing_none (length structs)), tt))
        (omega arith) (omega arith) in
    (deps, rw (first, struct_deps) rest)
