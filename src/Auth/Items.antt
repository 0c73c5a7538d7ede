-- ===== src/Auth/Items.antt =====
-- RLP items, and the minimal bytes of a number, which rlp_encode.c writes and announces.
use mathlib.Core.Path.{subst}
use native.Mathlib.Nat.{pow-le-pow_right}
use ledger_ambire_signer.Base.{
  ℕ, zero, suc, ◌+◌, ◌-◌, ◌*◌, ◌^◌, ◌≤◌, ◌<◌, ◌≡◌, refl, ap, sym, ◌∙◌, arith, Bool, true, false,
  some, List, [], ◌∷◌, ◌++◌, length, length-drop, take, drop, take-append-drop, ltb, if◌then◌else◌,
  All, IsByte, Bool-cases, inl, inr,
}
use ledger_ambire_signer.Base.Bytes.{be_value, be_value-append, be_value-bound, All-drop}
use ledger_ambire_signer.Rlp.{
  encode_number, get_encoded_number_length, get_smallest_number64_encoding_size,
  get_encoded_number64_length,
}
use ledger_ambire_signer.Rlp.Headers.{header}
use ledger_ambire_signer.Rlp.Numbers.{
  get_smallest_number64_encoding_size_bytes, get_encoded_number64_length_step,
  get_smallest_number64_encoding_size-zero,
}

-- RLP: a byte below 128 stands for itself, and other strings have a header.
unfoldable pub rlp_item : List ℕ → List ℕ
rlp_item [] = header false 0
rlp_item (b ∷ []) = if ltb b 128 then b ∷ [] else header false 1 ++ (b ∷ [])
rlp_item (b ∷ (c ∷ bs)) = header false (length (b ∷ (c ∷ bs))) ++ (b ∷ (c ∷ bs))

unfoldable pub has_no_zero_first : List ℕ → Bool
has_no_zero_first [] = true
has_no_zero_first (b ∷ bs) = ltb 0 b

-- The big-endian bytes of a number, without zeroes in front.
pub record IsMinimal (n : ℕ) (digits : List ℕ) : Type 0 where
  pub value : be_value digits ≡ n
  pub no_zero_first : has_no_zero_first digits ≡ true
  pub few : length digits ≤ 8

-- What the SDK writes of a 64-bit number.
pub record Writes (write_u64_be : ℕ → List ℕ) : Type 0 where
  pub eight : (n : ℕ) → length (write_u64_be n) ≡ 8
  pub bytes : (n : ℕ) → All IsByte (write_u64_be n)
  pub number : (n : ℕ) → n < 2 ^ 64 → be_value (write_u64_be n) ≡ n

pub item_written :
    (digits : List ℕ)
    → has_no_zero_first digits ≡ true
    → length digits ≤ 20
    → encode_number digits 40 ≡ (rlp_item digits, length (rlp_item digits))
unfolding encode_number rlp_item header has_no_zero_first
item_written [] e few = ground arith
item_written (b ∷ []) e few = ground arith
item_written (b ∷ (c ∷ bs)) e few = ground arith

pub delegate_written :
    (digits : List ℕ)
    → length digits ≡ 20
    → (encode_number digits 40 ≡ (rlp_item digits, length (rlp_item digits)))
      × (get_encoded_number_length digits ≡ 21)
      × (length (rlp_item digits) ≡ 21)
unfolding encode_number rlp_item header get_encoded_number_length
delegate_written [] count = ground arith
delegate_written (b ∷ []) count = ground arith
delegate_written (b ∷ (c ∷ bs)) count = (ground arith, ground arith, ground arith)

pub length-item :
    (digits : List ℕ)
    → length digits ≤ 20
    → (1 ≤ length (rlp_item digits)) × (length (rlp_item digits) ≤ length digits + 1)
unfolding rlp_item header
length-item [] few = ground arith
length-item (b ∷ []) few = ground arith
length-item (b ∷ (c ∷ bs)) few = ground arith

-- The item is as long as was announced.
announced :
    (n k : ℕ) (digits : List ℕ)
    → length digits ≡ suc k
    → k < 8
    → be_value digits ≡ n
    → 256 ^ k ≤ n
    → length (rlp_item digits) ≡ (if ltb n 128 then 1 else k + 2)
unfolding rlp_item header be_value
announced n k [] count few value lo = absurd (omega (arith, count))
announced n k (b ∷ []) count few value lo =
    let alone : b ≡ n = omega (arith, value) in
    let zero_k : k ≡ 0 = omega (arith, count) in rw (alone, zero_k) (ground arith)
announced n k (b ∷ (c ∷ bs)) count few value lo =
    let one_more : k ≡ suc (length bs) = omega (arith, count) in
    let big : 256 ≤ n = omega (
      arith,
      lo,
      pow-le-pow_right {n = 256} (omega arith) {i = 1} {j = k} (omega (arith, one_more)),
    ) in
    ground (arith, big, one_more)

-- The last bytes of the eight are the digits.
record IsDigits (n : ℕ) (k : ℕ) (digits : List ℕ) : Type 0 where
  minimal : IsMinimal n digits
  count : length digits ≡ suc k

first_nonzero :
    (k : ℕ) (digits : List ℕ)
    → All IsByte digits
    → length digits ≡ suc k
    → 256 ^ k ≤ be_value digits
    → has_no_zero_first digits ≡ true
unfolding has_no_zero_first be_value
first_nonzero k [] all count lo = absurd (omega (arith, count))
first_nonzero k (b ∷ bs) (byte, all) count lo =
    let rest : be_value bs < 256 ^ length bs = be_value-bound bs all in
    let same : k ≡ length bs = omega (arith, count) in
    let lo' : 256 ^ length bs ≤ b * 256 ^ length bs + be_value bs =
      subst (λ (j : ℕ). 256 ^ j ≤ b * 256 ^ length bs + be_value bs) same lo in
    elim (Bool-cases (ltb 0 b)) [
      | inl positive ↦ positive
      | inr nothing ↦
          let none_b : b ≡ 0 = ground (arith, nothing) in
          let lo'' : 256 ^ length bs ≤ 0 * 256 ^ length bs + be_value bs =
            subst (λ (j : ℕ). 256 ^ length bs ≤ j * 256 ^ length bs + be_value bs) none_b lo' in
          absurd (omega (arith, lo'', rest))
    ]

no_high : (h p r n : ℕ) → n ≡ h * p + r → n < p → r ≡ n
no_high zero p r n split lt = omega (arith, split)
no_high (suc h) p r n split lt = absurd (grind (arith, split, lt))

last-IsDigits :
    (write : ℕ → List ℕ) (n k : ℕ)
    → Writes write
    → n < 2 ^ 64
    → k < 8
    → 256 ^ k ≤ n
    → n < 256 ^ suc k
    → IsDigits n k (drop (8 - suc k) (write n))
last-IsDigits write n k w small few lo hi =
    let xs : List ℕ = write n in
    let d : List ℕ = drop (8 - suc k) xs in
    let count : length d ≡ suc k = omega (arith, length-drop (8 - suc k) xs, w.eight n) in
    let split : n ≡ be_value (take (8 - suc k) xs) * 256 ^ suc k + be_value d =
      sym (w.number n small)
      ∙ (ap be_value (sym (take-append-drop (8 - suc k) xs))
          ∙ (be_value-append (take (8 - suc k) xs) d
              ∙ ap (λ (j : ℕ). be_value (take (8 - suc k) xs) * 256 ^ j + be_value d) count)) in
    let value : be_value d ≡ n =
      no_high (be_value (take (8 - suc k) xs)) (256 ^ suc k) (be_value d) n split hi in
    record {
      minimal = record {
        value = value;
        no_zero_first =
            first_nonzero k d (All-drop (8 - suc k) xs (w.bytes n)) count
              (omega (arith, value, lo));
        few = omega (arith, count, few);
      };
      count = count;
    }

drop_all : (xs : List ℕ) (n : ℕ) → length xs ≡ n → drop n xs ≡ []
drop_all [] zero e = refl
drop_all [] (suc n) e = refl
drop_all (x ∷ xs) zero e = absurd (omega (arith, e))
drop_all (x ∷ xs) (suc n) e = drop_all xs n (omega (arith, e))

below_eight : (k n : ℕ) → 256 ^ k ≤ n → n < 2 ^ 64 → k < 8
below_eight k n lo small = elim (Bool-cases (ltb k 8)) [
  | inl less ↦ ground (arith, less)
  | inr more ↦
      let high : 256 ^ 8 ≤ 256 ^ k =
        pow-le-pow_right {n = 256} (omega arith) {i = 8} {j = k} (ground (arith, more)) in
      absurd (omega (arith, high, lo, small))
]

-- The digits of a number, what is announced for them and what is hashed.
pub record IsNumber (write : ℕ → List ℕ) (n : ℕ) (digits : List ℕ) : Type 0 where
  pub minimal : IsMinimal n digits
  pub announces : get_encoded_number64_length n ≡ some (length (rlp_item digits))
  pub size : drop (8 - length digits) (write n) ≡ digits
  pub smallest : get_smallest_number64_encoding_size n ≡ some (length digits)

pub IsNumber-of :
    (write : ℕ → List ℕ) (n : ℕ)
    → Writes write
    → n < 2 ^ 64
    → (digits : List ℕ) × IsNumber write n digits
IsNumber-of write zero w small = (
  [],
  record {
    minimal = record {
      value = unfold be_value in refl;
      no_zero_first = unfold has_no_zero_first in refl;
      few = omega arith;
    };
    announces = get_smallest_number64_encoding_size-zero.1 ∙ unfold rlp_item header in refl;
    size = drop_all (write 0) 8 (w.eight 0);
    smallest = get_smallest_number64_encoding_size-zero.0;
  },
)
IsNumber-of write (suc m) w small =
    let (k, e, lo, hi, few) =
      get_smallest_number64_encoding_size_bytes (suc m) small (omega arith) in
    let less : k < 8 = below_eight k (suc m) lo small in
    let d = last-IsDigits write (suc m) k w small less lo hi in
    (
      drop (8 - suc k) (write (suc m)),
      record {
        minimal = d.minimal;
        announces =
            get_encoded_number64_length_step (suc m) k e lo few
            ∙ ap some (sym (announced (suc m) k _ d.count less d.minimal.value lo));
        size = ap (λ (j : ℕ). drop (8 - j) (write (suc m))) d.count;
        smallest = e ∙ ap some (sym d.count);
      },
    )
