-- ===== src/Eip712/Order.antt =====
-- compare_struct_deps and has_dep, and what the order of names gives a sort.
use std.Path.{fun_ext}
use ledger_ambire_signer.Base.{
  ℕ, suc, ◌≡◌, refl, ◌∙◌, arith, Bool, true, false, not, List, [], ◌∷◌, min, length, if◌then◌else◌,
  Bool-cases, inl, inr, ltb,
}
use ledger_ambire_signer.Eip712.{StructPtr, Sdk}
use ledger_ambire_signer.Eip712.Types.{
  has_dep, compare_struct_deps, StringOrder, sorts_before, sorts_same, sorts_after, strncmp,
}
use ledger_ambire_signer.Eip712.Reference.{listed, lexicographic, names_before}

pub has_dep-listed : (deps : List StructPtr) (d : StructPtr) → has_dep deps d ≡ listed deps d
unfolding has_dep listed
has_dep-listed [] d = refl
has_dep-listed (x ∷ xs) d = rw (has_dep-listed xs d) refl

-- The comparison of names, from what strncmp says of their common length.
decided : StringOrder → ℕ → ℕ → Bool
decided sorts_before n1 n2 = true
decided sorts_same n1 n2 = not (ltb n2 n1)
decided sorts_after n1 n2 = false

decided-suc : (o : StringOrder) (m n : ℕ) → decided o (suc m) (suc n) ≡ decided o m n
unfolding decided
decided-suc sorts_before m n = refl
decided-suc sorts_same m n = ground arith
decided-suc sorts_after m n = refl

decided_lem :
    (xs ys : List ℕ)
    → decided (strncmp (min (length xs) (length ys)) xs ys) (length xs) (length ys)
      ≡ lexicographic xs ys
unfolding strncmp lexicographic decided
decided_lem [] ys = let e : min 0 (length ys) ≡ 0 = omega arith in rw e (ground arith)
decided_lem (x ∷ xs) [] = let e : min (suc (length xs)) 0 ≡ 0 = omega arith in rw e (ground arith)
decided_lem (x ∷ xs) (y ∷ ys) =
    let e : min (suc (length xs)) (suc (length ys)) ≡ suc (min (length xs) (length ys)) =
      omega arith in
    let rest = decided_lem xs ys in
    rw e (elim (Bool-cases (ltb x y)) [
      | inl less ↦ rw less refl
      | inr other ↦ elim (Bool-cases (ltb y x)) [
        | inl more ↦ rw (other, more) refl
        | inr equal ↦ rw (other, equal) (decided-suc _ (length xs) (length ys) ∙ rest)
      ]
    ])

decided_cases :
    (o : StringOrder) (n1 n2 : ℕ)
    → elim o as (λ x. Bool) [
      | sorts_after ↦ false
      | sorts_same ↦ not (ltb n2 n1)
      | sorts_before ↦ true
    ]
      ≡ decided o n1 n2
unfolding decided
decided_cases sorts_before n1 n2 = refl
decided_cases sorts_same n1 n2 = refl
decided_cases sorts_after n1 n2 = refl

-- The comparison by strncmp and by length is the order of names as in a dictionary.
pub compare_struct_deps-lexicographic :
    (a b : StructPtr) → compare_struct_deps a b ≡ lexicographic a.def.name b.def.name
unfolding compare_struct_deps
compare_struct_deps-lexicographic a b =
    decided_cases (strncmp (min (length a.def.name) (length b.def.name)) a.def.name b.def.name)
      (length a.def.name) (length b.def.name)
    ∙ decided_lem a.def.name b.def.name

-- The same as functions.
pub same_order : compare_struct_deps ≡ names_before
same_order = fun_ext (λ a. fun_ext (λ b. compare_struct_deps-lexicographic a b))

-- Insertion of an item before the first that does not come before it, and the sort by it.
unfoldable pub insert_sorted :
    (StructPtr → StructPtr → Bool) → StructPtr → List StructPtr → List StructPtr
insert_sorted test x [] = x ∷ []
insert_sorted test x (y ∷ ys) =
    let rest = insert_sorted test x ys in if test x y then x ∷ (y ∷ ys) else y ∷ rest

unfoldable pub insertion_sort : (StructPtr → StructPtr → Bool) → List StructPtr → List StructPtr
insertion_sort test [] = []
insertion_sort test (x ∷ xs) = insert_sorted test x (insertion_sort test xs)

-- A test that a sort may be given: of two items one comes first, and the order chains.
pub record IsOrder (test : StructPtr → StructPtr → Bool) : Type 0 where
  pub total : (a b : StructPtr) → test a b ≡ false → test b a ≡ true
  pub chains : (a b c : StructPtr) → test a b ≡ true → test b c ≡ true → test a c ≡ true

-- The SDK's flist_sort is a stable sort: it puts any list in the order of such a test.
abbrev pub Sorts : Sdk → Type 0
Sorts sdk =
    (test : StructPtr → StructPtr → Bool)
    → IsOrder test
    → (items : List StructPtr) → sdk.flist_sort test items ≡ insertion_sort test items

lexicographic-total : (xs ys : List ℕ) → lexicographic xs ys ≡ false → lexicographic ys xs ≡ true
unfolding lexicographic
lexicographic-total [] ys e = cc e
lexicographic-total (x ∷ xs) [] e = refl
lexicographic-total (x ∷ xs) (y ∷ ys) e = ground (arith, e, lexicographic-total xs ys)

lexicographic-chains :
    (xs ys zs : List ℕ)
    → lexicographic xs ys ≡ true
    → lexicographic ys zs ≡ true
    → lexicographic xs zs ≡ true
unfolding lexicographic
lexicographic-chains [] ys zs e f = refl
lexicographic-chains (x ∷ xs) [] zs e f = cc e
lexicographic-chains (x ∷ xs) (y ∷ ys) [] e f = cc f
lexicographic-chains (x ∷ xs) (y ∷ ys) (z ∷ zs) e f =
    ground (arith, e, f, lexicographic-chains xs ys zs)

pub names_before-IsOrder : IsOrder names_before
names_before-IsOrder = record {
  total = λ a b e. lexicographic-total a.def.name b.def.name e;
  chains = λ a b c e f. lexicographic-chains a.def.name b.def.name c.def.name e f;
}
