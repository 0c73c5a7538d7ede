-- ===== src/Eip712/ChainId.antt =====
-- td_get_domain_chain_id gives the number that the domain's leaf stands for.
use native.Mathlib.Nat.{one-le-pow, mul-le-mul_right, pow-le-pow_right}
use ledger_ambire_signer.Base.{
  ℕ, ◌+◌, ◌-◌, ◌*◌, ◌^◌, ◌≤◌, ◌<◌, ◌≡◌, refl, ap, sym, ◌∙◌, arith, Bool, true, false, ◌&&◌, Option,
  none, some, List, [], ◌∷◌, length, length-drop, take, drop, take-append-drop, ltb, ◌==◌,
  if◌then◌else◌, All, IsByte, Bool-cases, inl, inr,
}
use ledger_ambire_signer.Base.Bytes.{be_value, be_value-append, be_value-bound, All-drop}
use ledger_ambire_signer.Eip712.{
  Field, Struct, atomic, struct_value, array_value, Children, no_children, child_then, same_string,
}
use ledger_ambire_signer.Eip712.Domain.{
  Reads, chain_id_key, leaf_chain_id, children_chain_id, children_of, td_get_domain_chain_id,
}
use ledger_ambire_signer.Eip712.Refines.{and_then}

unfoldable pub all_zeroes : List ℕ → Bool
all_zeroes [] = true
all_zeroes (x ∷ xs) = x == 0 && all_zeroes xs

-- The SDK reads big-endian numbers of at most eight bytes, and tests a number of bytes for zero.
pub record IsReads (reads : Reads) : Type 0 where
  pub reads_be : (bytes : List ℕ) → length bytes ≤ 8 → reads.u64_from_be bytes ≡ be_value bytes
  pub tests_zero :
      (bytes : List ℕ) (n : ℕ) → reads.is_zeroes_buffer bytes n ≡ all_zeroes (take n bytes)

-- The bytes of the first leaf with a key.
unfoldable pub first_leaf : List ℕ → Children → Option (List ℕ)
first_leaf key no_children = none
first_leaf key (child_then (atomic f bytes) vs) =
    if same_string f.key_name key then some bytes else first_leaf key vs
first_leaf key (child_then v vs) = first_leaf key vs

abbrev pub HasBytes : Children → Type 0
HasBytes no_children = Unit {0}
HasBytes (child_then (atomic f bytes) vs) = All IsByte bytes × HasBytes vs
HasBytes (child_then (struct_value s cs) vs) = HasBytes vs
HasBytes (child_then (array_value f cs) vs) = HasBytes vs

zeroes_value : (xs : List ℕ) → all_zeroes xs ≡ true → be_value xs ≡ 0
unfolding all_zeroes be_value
zeroes_value [] e = refl
zeroes_value (x ∷ xs) e =
    let first : x ≡ 0 = ground (arith, e) in
    let rest : all_zeroes xs ≡ true = ground (arith, e) in
    rw first (omega (arith, zeroes_value xs rest))

nonzero_value : (xs : List ℕ) → all_zeroes xs ≡ false → 1 ≤ be_value xs
unfolding all_zeroes be_value
nonzero_value [] e = absurd (cc e)
nonzero_value (x ∷ xs) e = elim (Bool-cases (x == 0)) [
  | inl nothing ↦
      let rest : all_zeroes xs ≡ false = ground (arith, e, nothing) in
      omega (arith, nonzero_value xs rest)
  | inr something ↦
      let some_x : 1 ≤ x = ground (arith, something) in
      omega
        (arith, mul-le-mul_right (256 ^ length xs) some_x, one-le-pow (length xs) 256 (omega arith))
]

-- A number of 64 bits, or none.
unfoldable pub fitting : ℕ → Option ℕ
fitting n = if ltb n (2 ^ 64) then some n else none

fitting-some : (n : ℕ) → n < 2 ^ 64 → some n ≡ fitting n
unfolding fitting
fitting-some n lt = ground arith

fitting-none : (n : ℕ) → 2 ^ 64 ≤ n → none ≡ fitting n
unfolding fitting
fitting-none n le = ground arith

small : (bytes : List ℕ) → length bytes ≤ 8 → All IsByte bytes → be_value bytes < 2 ^ 64
small bytes few all =
    let wide : 256 ^ length bytes ≤ 256 ^ 8 = pow-le-pow_right (omega arith) few in
    omega (arith, be_value-bound bytes all, wide)

leaf_chain_id-fitting :
    (reads : Reads) (bytes : List ℕ)
    → IsReads reads
    → All IsByte bytes
    → leaf_chain_id reads bytes ≡ fitting (be_value bytes)
unfolding leaf_chain_id
leaf_chain_id-fitting reads bytes r all = elim (Bool-cases (ltb 8 (length bytes))) [
  | inr short ↦
      let few : length bytes ≤ 8 = ground (arith, short) in
      rw (short, r.reads_be bytes few) (fitting-some (be_value bytes) (small bytes few all))
  | inl long ↦
      let k : ℕ = length bytes - 8 in
      let count : length (drop k bytes) ≡ 8 = ground (arith, long, length-drop k bytes) in
      let split : be_value bytes ≡ be_value (take k bytes) * 256 ^ 8 + be_value (drop k bytes) =
        ap be_value (sym (take-append-drop k bytes))
        ∙ (be_value-append (take k bytes) (drop k bytes)
            ∙ ap (λ (n : ℕ). be_value (take k bytes) * 256 ^ n + be_value (drop k bytes)) count) in
      elim (Bool-cases (all_zeroes (take k bytes))) [
        | inl zero_front ↦
            let same : be_value (drop k bytes) ≡ be_value bytes =
              omega (arith, split, zeroes_value (take k bytes) zero_front) in
            rw
              (
                long,
                r.tests_zero bytes k,
                zero_front,
                r.reads_be (drop k bytes) (omega (arith, count)),
                same,
              )
              (fitting-some (be_value bytes) (
                omega (
                  arith,
                  same,
                  small (drop k bytes) (omega (arith, count)) (All-drop k bytes all),
                )))
        | inr front ↦
            rw (long, r.tests_zero bytes k, front)
              (fitting-none (be_value bytes)
                (omega (arith, split, nonzero_value (take k bytes) front)))
      ]
]

first_leaf_next :
    (reads : Reads) (f : Field) (bytes : List ℕ) (vs : Children)
    → leaf_chain_id reads bytes ≡ fitting (be_value bytes)
    → children_chain_id reads vs
      ≡ and_then (first_leaf chain_id_key vs) (λ bytes'. fitting (be_value bytes'))
    → children_chain_id reads (child_then (atomic f bytes) vs)
      ≡ and_then
          (first_leaf chain_id_key (child_then (atomic f bytes) vs))
          (λ bytes'. fitting (be_value bytes'))
unfolding children_chain_id first_leaf
first_leaf_next reads f bytes vs own rest =
    elim (Bool-cases (same_string f.key_name chain_id_key)) [
      | inl named ↦ rw (named, children_chain_id, first_leaf) own
      | inr other ↦ rw (other, children_chain_id, first_leaf) rest
    ]

children_chain_id_lem :
    (reads : Reads) (vs : Children)
    → IsReads reads
    → HasBytes vs
    → children_chain_id reads vs
      ≡ and_then (first_leaf chain_id_key vs) (λ bytes. fitting (be_value bytes))
unfolding children_chain_id first_leaf
children_chain_id_lem reads no_children r all = refl
children_chain_id_lem reads (child_then (atomic f bytes) vs) r (own, all) =
    first_leaf_next reads f bytes vs (leaf_chain_id-fitting reads bytes r own)
      (children_chain_id_lem reads vs r all)
children_chain_id_lem reads (child_then (struct_value s cs) vs) r all =
    children_chain_id_lem reads vs r all
children_chain_id_lem reads (child_then (array_value f cs) vs) r all =
    children_chain_id_lem reads vs r all

-- The chain identifier of a domain is the value of its first leaf with the key "chainId", however
-- many zero bytes it starts with; there is none without such a leaf or where the value has more
-- than 64 bits.
pub td_get_domain_chain_id-first_leaf :
    (reads : Reads) (s : Struct) (vs : Children)
    → IsReads reads
    → HasBytes vs
    → td_get_domain_chain_id reads (some (struct_value s vs))
      ≡ and_then (first_leaf chain_id_key vs) (λ bytes. fitting (be_value bytes))
unfolding td_get_domain_chain_id children_of
td_get_domain_chain_id-first_leaf reads s vs r all = children_chain_id_lem reads vs r all
