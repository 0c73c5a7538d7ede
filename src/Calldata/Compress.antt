-- ===== src/Calldata/Compress.antt =====
-- `compress_chunk` and `decompress_chunk`: what is stripped comes back.
use mathlib.Core.List.{append-nil, append_assoc}
use ledger_ambire_signer.Base.{
  ℕ, zero, suc, ◌+◌, ◌-◌, ◌≤◌, ◌≡◌, refl, ap, sym, ◌∙◌, arith, List, [], ◌∷◌, ◌++◌, length, take,
  drop, replicate, length-take, length-drop, get_or, inl, inr, Bool-cases, leb, ◌==◌,
}
use ledger_ambire_signer.Base.Memory.{drop-length_of, take-length_of, take-suc_get, replicate-snoc}
use ledger_ambire_signer.Calldata.{
  strip_left, strip_right, count_left, count_right, strip, stripped, decompress_chunk,
}

count_left-le : (xs : List ℕ) → count_left xs ≤ length xs
unfolding count_left
count_left-le [] = omega arith
count_left-le (x ∷ xs) = ground (arith, count_left-le xs)

count_left_zeroes : (xs : List ℕ) → replicate (count_left xs) 0 ++ drop (count_left xs) xs ≡ xs
unfolding count_left
count_left_zeroes [] = refl
count_left_zeroes (zero ∷ xs) = ap (λ (t : List ℕ). 0 ∷ t) (count_left_zeroes xs)
count_left_zeroes (suc x ∷ xs) = ground arith

count_right-le : (n : ℕ) (xs : List ℕ) → count_right n xs ≤ n
unfolding count_right
count_right-le zero xs = omega arith
count_right-le (suc n) xs = ground (arith, count_right-le n xs)

count_right_zeroes :
    (n : ℕ) (xs : List ℕ)
    → n ≤ length xs
    → take (n - count_right n xs) xs ++ replicate (count_right n xs) 0 ≡ take n xs
unfolding count_right
count_right_zeroes zero xs h = refl
count_right_zeroes (suc n) xs h = elim (Bool-cases (get_or xs n 1 == 0)) [
  | inl e ↦
      let r : ℕ = count_right n xs in
      let z : get_or xs n 1 ≡ 0 = ground arith in
      let k : suc n - suc r ≡ n - r = omega arith in
      rw
        (
          e,
          k,
          ← replicate-snoc r 0,
          ← append_assoc (take (n - r) xs) (replicate r 0) (0 ∷ []),
          count_right_zeroes n xs (omega arith),
          take-suc_get n xs 1 h,
          z,
        )
        refl
  | inr e ↦ let k : suc n - 0 ≡ suc n = omega arith in rw (e, append-nil, k) refl
]

length-take-drop : (n m : ℕ) (xs : List ℕ) → n + m ≤ length xs → length (take n (drop m xs)) ≡ n
length-take-drop n m xs h = omega (arith, length-take n (drop m xs), length-drop m xs)

-- The chunk that keeps the bytes from `l` on, where the first `l` are zeroes.
decompress_left :
    (xs : List ℕ) (l : ℕ)
    → length xs ≡ 32
    → l ≤ 32
    → replicate l 0 ++ drop l xs ≡ xs
    → decompress_chunk (record { dir = strip_left; size = 32 - l; buf = take (32 - l) (drop l xs) })
      ≡ xs
unfolding decompress_chunk
decompress_left xs l len le zeroes =
    let kept : length (take (32 - l) (drop l xs)) ≡ 32 - l =
      length-take-drop (32 - l) l xs (omega arith) in
    let whole : take (32 - l) (drop l xs) ≡ drop l xs =
      take-length_of (32 - l) (drop l xs) (omega (arith, length-drop l xs)) in
    elim (Bool-cases (32 - l == 0)) [
      | inl e ↦
          let all : l ≡ 32 = ground arith in
          rw (kept, e)
            (sym (append-nil (replicate 32 0))
              ∙ (rw (all, drop-length_of 32 xs (omega arith)) at zeroes))
      | inr e ↦ let back : 32 - (32 - l) ≡ l = omega arith in rw (kept, e, back, whole) zeroes
    ]

decompress_right :
    (xs : List ℕ) (r : ℕ)
    → length xs ≡ 32
    → r ≤ 32
    → take (32 - r) xs ++ replicate r 0 ≡ xs
    → decompress_chunk
        (record { dir = strip_right; size = 32 - r; buf = take (32 - r) (drop 0 xs) })
      ≡ xs
unfolding decompress_chunk
decompress_right xs r len le zeroes =
    let kept : length (take (32 - r) xs) ≡ 32 - r = omega (arith, length-take (32 - r) xs) in
    elim (Bool-cases (32 - r == 0)) [
      | inl e ↦ let all : r ≡ 32 = ground arith in rw (kept, e) (rw all at zeroes)
      | inr e ↦ let back : 32 - (32 - r) ≡ r = omega arith in rw (kept, e, back) zeroes
    ]

-- A chunk of 32 bytes comes back from its stripped form.
pub decompress_chunk-stripped : (xs : List ℕ) → length xs ≡ 32 → decompress_chunk (stripped xs) ≡ xs
unfolding stripped strip
decompress_chunk-stripped xs len = elim (Bool-cases (leb (count_right 32 xs) (count_left xs))) [
  | inl e ↦ rw e (
      decompress_left xs (count_left xs) len (omega (arith, count_left-le xs))
        (count_left_zeroes xs))
  | inr e ↦ rw e (
      decompress_right xs (count_right 32 xs) len (count_right-le 32 xs)
        (count_right_zeroes 32 xs (omega arith) ∙ take-length_of 32 xs (omega arith)))
]

-- Of a chunk of 32 bytes, the size kept counts the bytes kept, and is 32 at most.
pub length-stripped :
    (xs : List ℕ)
    → length xs ≡ 32
    → (length (stripped xs).buf ≡ (stripped xs).size) × ((stripped xs).size ≤ 32)
unfolding stripped strip
length-stripped xs len = elim (Bool-cases (leb (count_right 32 xs) (count_left xs))) [
  | inl e ↦ rw e (
    length-take-drop (32 - count_left xs) (count_left xs) xs (omega (arith, count_left-le xs)),
    omega arith,
  )
  | inr e ↦ rw e (omega (arith, length-take (32 - count_right 32 xs) xs), omega arith)
]
