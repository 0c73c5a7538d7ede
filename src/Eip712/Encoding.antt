-- ===== src/Eip712/Encoding.antt =====
-- encode_field.c: the 32 bytes stand for the same number.
use mathlib.Core.Option.{none-ne-some}
use native.Mathlib.Nat.{pow-suc}
use ledger_ambire_signer.Base.{
  ℕ, zero, suc, ◌+◌, ◌-◌, ◌*◌, ◌^◌, ◌≤◌, ◌≡◌, refl, ap, sym, ◌∙◌, arith, true, Option, none, some,
  List, [], ◌++◌, length, length-append, length-replicate, get_or, replicate, leb, ◌==◌,
  if◌then◌else◌, Bool-cases, inl, inr,
}
use ledger_ambire_signer.Base.Memory.{Heap}
use ledger_ambire_signer.Base.Bytes.{be_value, be_value-append, be_value-zeroes}
use ledger_ambire_signer.Eip712.{Sdk}
use ledger_ambire_signer.Eip712.Fields.{encode_uint, encode_int}
use ledger_ambire_signer.Eip712.Reference.{padded_left}
use ledger_ambire_signer.Eip712.Atomic.{left-Refines, int-Refines}

-- The encoders do not use the SDK.
abbrev any_sdk : Sdk
any_sdk = record {
  init_ok = true;
  update_ok = λ absorbed bytes. true;
  final_ok = λ absorbed. true;
  keccak = λ bytes. bytes;
  print_unsigned = λ n. [];
  flist_sort = λ test items. items;
}

padded_left_inv :
    (fill : ℕ) (value r : List ℕ)
    → padded_left fill value ≡ some r
    → (length value ≤ 32) × (r ≡ replicate (32 - length value) fill ++ value)
unfolding padded_left
padded_left_inv fill value r e = ground arith

length-padded :
    (fill : ℕ) (value : List ℕ)
    → length value ≤ 32
    → length (replicate (32 - length value) fill ++ value) ≡ 32
length-padded fill value le = omega (
  arith,
  length-append (replicate (32 - length value) fill) value,
  length-replicate (32 - length value) fill,
)

-- Bytes 255 in front of a number add a power of 256 less another.
ones_value :
    (k : ℕ) (value : List ℕ)
    → be_value (replicate k 255 ++ value) + 256 ^ length value
      ≡ be_value value + 256 ^ (k + length value)
unfolding be_value
ones_value zero value = let e : 0 + length value ≡ length value = omega arith in rw e refl
ones_value (suc k) value =
    let count : length (replicate k 255 ++ value) ≡ k + length value =
      omega (arith, length-append (replicate k 255) value, length-replicate {A = ℕ} k 255) in
    let next : suc k + length value ≡ suc (k + length value) = omega arith in
    rw (count, next, pow-suc 256 (k + length value)) (omega (arith, ones_value k value))

zeroes_value : (k : ℕ) (value : List ℕ) → be_value (replicate k 0 ++ value) ≡ be_value value
zeroes_value k value =
    be_value-append (replicate k 0) value
    ∙ ap (λ (n : ℕ). n * 256 ^ length value + be_value value) (be_value-zeroes k)
    ∙ omega arith

-- An unsigned number is encoded, if it is, to 32 bytes of the same value.
pub encode_uint-value :
    (value r : List ℕ) (heap : Heap)
    → (encode_uint value heap).0 ≡ some r
    → (length r ≡ 32) × (be_value r ≡ be_value value)
unfolding encode_uint
encode_uint-value value r heap e = elim ((left-Refines any_sdk value 0).sound heap) [
  | inl failed ↦ absurd (none-ne-some r (sym failed ∙ e))
  | inr agrees ↦
      let (le, same) = padded_left_inv 0 value r (sym agrees ∙ e) in
      rw same (length-padded 0 value le, zeroes_value (32 - length value) value)
]

int_filled :
    (value r : List ℕ) (fill : ℕ)
    → (if length value == 0 then none else padded_left fill value) ≡ some r
    → padded_left fill value ≡ some r
int_filled value r fill e = elim (Bool-cases (length value == 0)) [
  | inl empty ↦
      let nothing : Path (Option (List ℕ)) none (some r) = rw (sym e, empty) refl in
      absurd (none-ne-some r nothing)
  | inr filled ↦ rw (sym e, filled) refl
]

-- A signed number of the size of its type is encoded, if it is, to the 32 bytes of the same number
-- in two's complement: where its sign bit is set, what its value is short of the power of its own
-- size is what the result's is short of 2 ^ 256, and where not, the values are the same.
pub encode_int-value :
    (value r : List ℕ) (heap : Heap)
    → (encode_int value (length value) heap).0 ≡ some r
    → (length r ≡ 32)
      × (be_value r + (if leb 128 (get_or value 0 0) then 256 ^ length value else 0)
          ≡ be_value value + (if leb 128 (get_or value 0 0) then 256 ^ 32 else 0))
encode_int-value value r heap e = elim ((int-Refines any_sdk value (length value)).sound heap) [
  | inl failed ↦ absurd (none-ne-some r (sym failed ∙ e))
  | inr agrees ↦
      let found = int_filled value r _ (sym agrees ∙ e) in
      let (le, same) = padded_left_inv _ value r found in
      let whole : (length value == length value) ≡ true = ground arith in
      let size : 32 - length value + length value ≡ 32 = omega arith in
      elim (Bool-cases (leb 128 (get_or value 0 0))) [
        | inl negative ↦
            rw (same, whole, negative)
              (
                length-padded 255 value le,
                ones_value (32 - length value) value
                    ∙ ap (λ (k : ℕ). be_value value + 256 ^ k) size,
              )
        | inr positive ↦
            rw (same, whole, positive)
              (
                length-padded 0 value le,
                ap (λ (n : ℕ). n + 0) (zeroes_value (32 - length value) value),
              )
      ]
]
