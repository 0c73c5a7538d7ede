-- ===== src/Base/Bytes.antt =====
-- Big-endian numbers in byte buffers.
use native.Mathlib.Nat.{pow-suc, mul_assoc, pow-zero, mul-one, mul-le-mul_right}
use ledger_ambire_signer.Base.{
  ℕ, zero, suc, ◌+◌, ◌*◌, ◌^◌, ◌≤◌, ◌<◌, ◌≡◌, refl, ap, arith, List, [], ◌∷◌, ◌++◌, length, take,
  drop, replicate, length-append, All, IsByte, ◌∙◌,
}

-- The number that the bytes write, the first byte being the highest.
unfoldable pub be_value : List ℕ → ℕ
be_value [] = 0
be_value (x ∷ xs) = x * 256 ^ length xs + be_value xs

pub pow_add : (b m n : ℕ) → b ^ (m + n) ≡ b ^ m * b ^ n
pow_add b m zero = let e : m + 0 ≡ m = omega arith in rw (e, pow-zero b, mul-one (b ^ m))
pow_add b m (suc n) =
    let e : m + suc n ≡ suc (m + n) = omega arith in
    rw (e, pow-suc b (m + n), pow-suc b n, pow_add b m n) (mul_assoc (b ^ m) (b ^ n) b)

pub be_value-append :
    (xs ys : List ℕ) → be_value (xs ++ ys) ≡ be_value xs * 256 ^ length ys + be_value ys
unfolding be_value
be_value-append [] ys = omega arith
be_value-append (x ∷ xs) ys =
    let e : 256 ^ length (xs ++ ys) ≡ 256 ^ length xs * 256 ^ length ys =
      ap (λ (t : ℕ). 256 ^ t) (length-append xs ys) ∙ pow_add 256 (length xs) (length ys) in
    grind (arith, e, be_value-append xs ys)

pub be_value-zeroes : (n : ℕ) → be_value (replicate n 0) ≡ 0
unfolding be_value
be_value-zeroes zero = refl
be_value-zeroes (suc n) = omega (arith, be_value-zeroes n)

pub be_value-bound : (xs : List ℕ) → All IsByte xs → be_value xs < 256 ^ length xs
unfolding be_value
be_value-bound [] h = omega arith
be_value-bound (x ∷ xs) (b, bs) =
    let small : x * 256 ^ length xs ≤ 255 * 256 ^ length xs =
      mul-le-mul_right (256 ^ length xs) (omega arith) in
    omega (arith, small, be_value-bound xs bs, pow-suc 256 (length xs))

pub All-drop : (n : ℕ) (xs : List ℕ) → All IsByte xs → All IsByte (drop n xs)
All-drop zero xs h = h
All-drop (suc n) [] h = h
All-drop (suc n) (x ∷ xs) (b, bs) = All-drop n xs bs

pub All-take : (n : ℕ) (xs : List ℕ) → All IsByte xs → All IsByte (take n xs)
All-take zero xs h = tt
All-take (suc n) [] h = tt
All-take (suc n) (x ∷ xs) (b, bs) = (b, All-take n xs bs)
