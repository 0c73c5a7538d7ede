-- ===== src/Utils/Copies.antt =====
-- What the buffer and string helpers leave in the destination.
use mathlib.Core.Path.{subst}
use mathlib.Core.List.{append_assoc}
use native.Mathlib.Nat.{mod-eq_of_lt, mod-one, zero-mod, mul-add-mod_self_right, pow-le-pow_right}
use ledger_ambire_signer.Base.{
  ℕ, zero, suc, ◌+◌, ◌-◌, ◌*◌, ◌%◌, ◌^◌, ◌≤◌, ◌<◌, ◌≡◌, inl, inr, refl, ap, arith, false, some,
  List, [], ◌∷◌, ◌++◌, length, take, drop, replicate, length-append, length-take, length-drop,
  length-replicate, All, IsByte, sym, ◌∙◌, Bool-cases, ltb, ◌==◌, ltb→lt, if◌then◌else◌,
  take-append-drop,
}
use ledger_ambire_signer.Base.Bytes.{
  be_value, be_value-append, be_value-zeroes, be_value-bound, All-drop, All-take,
}
use ledger_ambire_signer.Utils.{buf_shrink_expand, str_cpy_explicit_trunc, dots}

take-drop : (n m : ℕ) (xs : List ℕ) → take n (drop m xs) ≡ drop m (take (m + n) xs)
take-drop n zero xs = let e : 0 + n ≡ n = omega arith in rw e
take-drop zero (suc m) [] = let e : suc m + 0 ≡ suc m = omega arith in rw e
take-drop (suc n) (suc m) [] = let e : suc m + suc n ≡ suc (m + suc n) = omega arith in rw e
take-drop n (suc m) (x ∷ xs) =
    let e : suc m + n ≡ suc (m + n) = omega arith in rw e (take-drop n m xs)

dots_text : (n : ℕ) (bytes : List ℕ) → n ≤ length bytes → length (take n bytes ++ dots) ≡ n + 3
dots_text n bytes h = omega (arith, length-append (take n bytes) dots, length-take n bytes)

-- From a source that has its `src_size` bytes, a destination that is not empty gets a
-- terminated text within its size: all of the source where that fits, and otherwise a prefix
-- with "..." that fills it, or nothing where it has four bytes or less.
pub str_cpy_explicit_trunc-terminated :
    (bytes : List ℕ) (src_size dst_size : ℕ)
    → src_size ≤ length bytes
    → 0 < dst_size
    → (text : List ℕ) × (str_cpy_explicit_trunc (some bytes) src_size dst_size ≡ text ++ (0 ∷ []))
      × (length text < dst_size)
      × (if ltb src_size dst_size
          then (text ≡ take src_size bytes)
          else if ltb 4 dst_size
          then (text ≡ take (dst_size - 4) bytes ++ dots) × (length text ≡ dst_size - 1)
          else (text ≡ []))
unfolding str_cpy_explicit_trunc
str_cpy_explicit_trunc-terminated bytes s d h k = elim (Bool-cases (ltb s d)) [
  | inl fits ↦ (take s bytes, ground arith, ground (arith, length-take s bytes), ground arith)
  | inr cut ↦ elim (Bool-cases (ltb 4 d)) [
    | inl room ↦ (
      take (d - 4) bytes ++ dots,
      ground (arith, append_assoc (take (d - 4) bytes) dots (0 ∷ [])),
      ground (arith, dots_text (d - 4) bytes (ground arith)),
      ground (arith, dots_text (d - 4) bytes (ground arith)),
    )
    | inr narrow ↦ ([], ground arith, omega arith, ground arith)
  ]
]

-- The bytes in front of the last `n` count multiples of `256 ^ n`.
be_value-drop :
    (m : ℕ) (xs : List ℕ)
    → All IsByte xs
    → be_value (drop m xs) ≡ be_value xs % 256 ^ (length xs - m)
be_value-drop m xs bytes =
    let n : ℕ = length (drop m xs) in
    let whole : be_value xs ≡ be_value (take m xs) * 256 ^ n + be_value (drop m xs) =
      ap be_value (sym (take-append-drop m xs)) ∙ be_value-append (take m xs) (drop m xs) in
    let size : length xs - m ≡ n = sym (length-drop m xs) in
    rw (size, whole)
      (sym (
        mul-add-mod_self_right (be_value (take m xs)) (256 ^ n) (be_value (drop m xs))
        ∙ mod-eq_of_lt (be_value-bound (drop m xs) (All-drop m xs bytes))))

shrunk_value :
    (bytes : List ℕ) (s d : ℕ)
    → All IsByte bytes
    → s ≤ length bytes
    → d < s
    → be_value (take d (drop (s - d) bytes)) ≡ be_value (take s bytes) % 256 ^ d
shrunk_value bytes s d all h lt =
    let whole : s - d + d ≡ s = omega arith in
    let rest : length (take s bytes) - (s - d) ≡ d = omega (arith, length-take s bytes) in
    rw (take-drop d (s - d) bytes, whole)
      (be_value-drop (s - d) (take s bytes) (All-take s bytes all)
        ∙ ap (λ (n : ℕ). be_value (take s bytes) % 256 ^ n) rest)

expanded_value :
    (bytes : List ℕ) (s d : ℕ)
    → All IsByte bytes
    → s ≤ length bytes
    → s ≤ d
    → be_value (replicate (d - s) 0 ++ take s bytes) ≡ be_value (take s bytes) % 256 ^ d
expanded_value bytes s d all h le =
    let same : be_value (replicate (d - s) 0 ++ take s bytes) ≡ be_value (take s bytes) = omega (
      arith,
      be_value-append (replicate (d - s) 0) (take s bytes),
      ap (λ (n : ℕ). n * 256 ^ length (take s bytes)) (be_value-zeroes (d - s)),
    ) in
    let size : length (take s bytes) ≡ s = omega (arith, length-take s bytes) in
    let bound : be_value (take s bytes) < 256 ^ s =
      subst (λ n. be_value (take s bytes) < 256 ^ n) size
        (be_value-bound (take s bytes) (All-take s bytes all)) in
    same ∙ sym (mod-eq_of_lt (omega (arith, bound, pow-le-pow_right {n = 256} (omega arith) le)))

-- From a source that has its `src_size` bytes, the destination is filled to its size, and
-- holds the source's big-endian number modulo `256 ^ dst_size`.
pub buf_shrink_expand-value :
    (bytes : List ℕ) (src_size dst_size : ℕ)
    → All IsByte bytes
    → src_size ≤ length bytes
    → let out = buf_shrink_expand (some bytes) src_size dst_size in
      (length out ≡ dst_size) × (be_value out ≡ be_value (take src_size bytes) % 256 ^ dst_size)
unfolding buf_shrink_expand
buf_shrink_expand-value bytes s zero all h =
    (refl, unfold be_value in sym (mod-one (be_value (take s bytes))))
buf_shrink_expand-value bytes zero (suc d) all h =
    let some_room : (suc d == 0) ≡ false = ground arith in
    rw some_room (
      length-replicate (suc d) 0,
      be_value-zeroes (suc d) ∙ (unfold be_value in sym (zero-mod (256 ^ suc d))),
    )
buf_shrink_expand-value bytes (suc s) (suc d) all h =
    let some_room : (suc d == 0) ≡ false = ground arith in
    let some_src : (suc s == 0) ≡ false = ground arith in
    elim (Bool-cases (ltb (suc d) (suc s))) [
      | inl shrinks ↦
          rw (some_room, some_src, shrinks)
            (
              omega (
                arith,
                ltb→lt (suc d) (suc s) shrinks,
                length-take (suc d) (drop (suc s - suc d) bytes),
                length-drop (suc s - suc d) bytes,
              ),
              shrunk_value bytes (suc s) (suc d) all h (ground arith),
            )
      | inr expands ↦
          let le : suc s ≤ suc d = ground arith in
          rw (some_room, some_src, expands)
            (
              omega (
                arith,
                length-append (replicate (suc d - suc s) 0) (take (suc s) bytes),
                length-replicate {A = ℕ} (suc d - suc s) 0,
                length-take (suc s) bytes,
              ),
              expanded_value bytes (suc s) (suc d) all h (ground arith),
            )
    ]
