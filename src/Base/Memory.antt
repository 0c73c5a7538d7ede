-- ===== src/Base/Memory.antt =====
-- memcpy and memset on lists, and the device's heap as a list of answers: `false` is an allocation
-- that fails, and past the end of the list every allocation succeeds.
use ledger_ambire_signer.Base.{
  ℕ, zero, suc, ◌+◌, ◌-◌, ◌≤◌, ◌<◌, ◌≡◌, refl, ap, arith, Bool, true, List, [], ◌∷◌, ◌++◌, length,
  take, drop, replicate, length-append, length-take, length-drop, get_or, take-length_append, ◌∙◌,
}

abbrev pub Heap : Type 0
Heap = List Bool

unfoldable pub alloc : Heap → Bool × Heap
alloc [] = (true, [])
alloc (b ∷ h) = (b, h)

-- memcpy (dst + at, src, length src)
unfoldable pub copy_at : List ℕ → ℕ → List ℕ → List ℕ
copy_at dst at src = take at dst ++ (src ++ drop (at + length src) dst)

pub length-copy_at :
    (dst : List ℕ) (at : ℕ) (src : List ℕ)
    → at + length src ≤ length dst
    → length (copy_at dst at src) ≡ length dst
unfolding copy_at
length-copy_at dst at src h = omega (
  arith,
  length-append (take at dst) (src ++ drop (at + length src) dst),
  length-append src (drop (at + length src) dst),
  length-take at dst,
  length-drop (at + length src) dst,
)

pub take-append_le : (n : ℕ) (xs ys : List ℕ) → n ≤ length xs → take n (xs ++ ys) ≡ take n xs
take-append_le zero xs ys h = refl
take-append_le (suc n) [] ys h = absurd (omega arith)
take-append_le (suc n) (x ∷ xs) ys h =
    ap (λ (t : List ℕ). x ∷ t) (take-append_le n xs ys (omega arith))

pub take-length_of : (n : ℕ) (xs : List ℕ) → length xs ≤ n → take n xs ≡ xs
take-length_of zero [] h = refl
take-length_of zero (x ∷ xs) h = absurd (omega arith)
take-length_of (suc n) [] h = refl
take-length_of (suc n) (x ∷ xs) h = ap (λ (t : List ℕ). x ∷ t) (take-length_of n xs (omega arith))

pub take-append_ge :
    (n : ℕ) (xs ys : List ℕ) → length xs ≤ n → take n (xs ++ ys) ≡ xs ++ take (n - length xs) ys
take-append_ge n [] ys h = let e : n - 0 ≡ n = omega arith in rw e
take-append_ge zero (x ∷ xs) ys h = absurd (omega arith)
take-append_ge (suc n) (x ∷ xs) ys h =
    let e : suc n - suc (length xs) ≡ n - length xs = omega arith in
    rw e (ap (λ (t : List ℕ). x ∷ t) (take-append_ge n xs ys (omega arith)))

pub take-take : (n m : ℕ) (xs : List ℕ) → n ≤ m → take n (take m xs) ≡ take n xs
take-take zero m xs h = refl
take-take (suc n) zero xs h = absurd (omega arith)
take-take (suc n) (suc m) [] h = refl
take-take (suc n) (suc m) (x ∷ xs) h = ap (λ (t : List ℕ). x ∷ t) (take-take n m xs (omega arith))

pub take-add : (n m : ℕ) (xs : List ℕ) → take (n + m) xs ≡ take n xs ++ take m (drop n xs)
take-add zero m xs = let e : 0 + m ≡ m = omega arith in rw e
take-add (suc n) zero [] = let e : suc n + 0 ≡ suc n = omega arith in rw e
take-add (suc n) (suc m) [] = let e : suc n + suc m ≡ suc (n + suc m) = omega arith in rw e
take-add (suc n) m (x ∷ xs) =
    let e : suc n + m ≡ suc (n + m) = omega arith in
    rw e (ap (λ (t : List ℕ). x ∷ t) (take-add n m xs))

pub drop-add : (n m : ℕ) (xs : List ℕ) → drop (n + m) xs ≡ drop m (drop n xs)
drop-add zero m xs = let e : 0 + m ≡ m = omega arith in rw e
drop-add (suc n) zero [] = let e : suc n + 0 ≡ suc n = omega arith in rw e
drop-add (suc n) (suc m) [] = let e : suc n + suc m ≡ suc (n + suc m) = omega arith in rw e
drop-add (suc n) m (x ∷ xs) =
    let e : suc n + m ≡ suc (n + m) = omega arith in rw e (drop-add n m xs)

-- The copied bytes stand behind the `at` bytes in front of them.
pub take-copy_at :
    (dst : List ℕ) (at : ℕ) (src : List ℕ)
    → at ≤ length dst
    → take (at + length src) (copy_at dst at src) ≡ take at dst ++ src
unfolding copy_at
take-copy_at dst at src h =
    let front : List ℕ = take at dst in
    let back : List ℕ = drop (at + length src) dst in
    let e : at + length src - length front ≡ length src = omega (arith, length-take at dst) in
    take-append_ge (at + length src) front (src ++ back) (omega (arith, length-take at dst))
    ∙ ap (λ (t : List ℕ). front ++ t) (rw e (take-length_append src back))

pub take-suc_get :
    (n : ℕ) (xs : List ℕ) (d : ℕ)
    → n < length xs
    → take (suc n) xs ≡ take n xs ++ (get_or xs n d ∷ [])
take-suc_get n [] d h = absurd (omega arith)
take-suc_get zero (x ∷ xs) d h = refl
take-suc_get (suc n) (x ∷ xs) d h = ap (λ (t : List ℕ). x ∷ t) (take-suc_get n xs d (omega arith))

pub replicate-snoc : (n x : ℕ) → replicate n x ++ (x ∷ []) ≡ replicate (suc n) x
replicate-snoc zero x = refl
replicate-snoc (suc n) x = ap (λ (t : List ℕ). x ∷ t) (replicate-snoc n x)

pub drop-length_of : (n : ℕ) (xs : List ℕ) → length xs ≤ n → drop n xs ≡ []
drop-length_of zero [] h = refl
drop-length_of zero (x ∷ xs) h = absurd (omega arith)
drop-length_of (suc n) [] h = refl
drop-length_of (suc n) (x ∷ xs) h = drop-length_of n xs (omega arith)
