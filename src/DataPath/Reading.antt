-- ===== src/DataPath/Reading.antt =====
-- What a walk reads of a valid calldata object.
use mathlib.Core.List.{append-nil}
use ledger_ambire_signer.Base.{
  ℕ, zero, suc, ◌+◌, ◌-◌, ◌*◌, ◌%◌, ◌^◌, min, ◌≤◌, ◌<◌, ◌≡◌, refl, ap, sym, ◌∙◌, arith, Option,
  some, List, [], ◌++◌, length, take, drop, length-append, length-take, length-drop, leb,
  Bool-cases, inl, inr,
}
use ledger_ambire_signer.Base.Memory.{drop-add, take-add, take-take}
use ledger_ambire_signer.Calldata.{Calldata, calldata_get_chunk}
use ledger_ambire_signer.Calldata.Append.{contents, IsValid}
use ledger_ambire_signer.Calldata.Chunks.{calldata_get_chunk-contents}
use ledger_ambire_signer.DataPath.{Reader, get_chunk, copy_chunks}

-- A valid object of less than 2 ^ 32 bytes, and a reader of 16-bit numbers.
pub record IsReader (reader : Reader) (object : Calldata) : Type 0 where
  pub same_object : reader.calldata ≡ some object
  pub valid : IsValid object
  pub bounded : object.expected_size < 2 ^ 32
  pub shorts : (bytes : List ℕ) (at : ℕ) → reader.read_u16_be bytes at < 2 ^ 16

module _ (reader : Reader) (object : Calldata) (r : IsReader reader object) where
  get_chunk_object :
      (idx : ℕ) → idx < 2 ^ 32 → get_chunk reader idx ≡ (calldata_get_chunk (some object) idx).0
  unfolding get_chunk
  get_chunk_object idx small =
      let here : idx % 2 ^ 32 ≡ idx = omega arith in
      ap (λ (c : Option Calldata). (calldata_get_chunk c (idx % 2 ^ 32)).0) r.same_object
      ∙ ap (λ (i : ℕ). (calldata_get_chunk (some object) i).0) here

  -- A chunk that is there is the block of 32 bytes at its index, inside the contents.
  pub get_chunk-contents :
      (idx : ℕ) (chunk : List ℕ)
      → idx < 2 ^ 32
      → get_chunk reader idx ≡ some chunk
      → (chunk ≡ take 32 (drop (32 * idx) (contents object)))
        × (32 * idx + 32 ≤ length (contents object))
        × (length (contents object) < 2 ^ 32)
  get_chunk-contents idx chunk small e =
      let found =
        sym (get_chunk_object idx small ∙ calldata_get_chunk-contents object idx r.valid) ∙ e in
      let counted = r.valid.counted in let bounded = r.bounded in ground (arith, found)

  copy_chunks_nothing : (fuel offset : ℕ) → copy_chunks fuel reader offset 0 ≡ some []
  unfolding copy_chunks
  copy_chunks_nothing zero offset = refl
  copy_chunks_nothing (suc fuel) offset = refl

  copy_chunks_inv :
      (fuel offset n : ℕ) (bytes : List ℕ)
      → 0 < n
      → copy_chunks (suc fuel) reader offset n ≡ some bytes
      → (chunk rest : List ℕ) × (get_chunk reader offset ≡ some chunk)
        × (copy_chunks fuel reader (offset + 1) (n - 32) ≡ some rest)
        × (bytes ≡ take (min 32 n) chunk ++ rest)
  unfolding copy_chunks
  copy_chunks_inv fuel offset n bytes some_n e = ground arith

  -- The first `n` bytes are those of the first block and the others.
  first_block_of :
      (n : ℕ) (block : List ℕ)
      → take (min 32 n) (take 32 block) ++ take (n - 32) (drop 32 block) ≡ take n block
  first_block_of n block = elim (Bool-cases (leb 32 n)) [
    | inl long ↦
        let all : min 32 n ≡ 32 = ground arith in
        let sum : n ≡ 32 + (n - 32) = ground arith in
        rw (all, take-take 32 32 block (omega arith))
          (sym (ap (λ (k : ℕ). take k block) sum ∙ take-add 32 (n - 32) block))
    | inr short ↦
        let all : min 32 n ≡ n = ground arith in
        let none : n - 32 ≡ 0 = ground arith in
        rw (all, none, append-nil (take n (take 32 block))) (take-take n 32 block (ground arith))
  ]

  -- Bytes copied from a chunk on are those of the contents, as many as asked for.
  pub copy_chunks-contents :
      (fuel offset n : ℕ) (bytes : List ℕ)
      → offset < 2 ^ 32
      → copy_chunks fuel reader offset n ≡ some bytes
      → (bytes ≡ take n (drop (32 * offset) (contents object))) × (length bytes ≡ n)
  copy_chunks-contents fuel offset zero bytes small e =
      unfold copy_chunks in ground (arith, copy_chunks_nothing fuel offset)
  copy_chunks-contents zero offset (suc n) bytes small e = unfold copy_chunks in ground arith
  copy_chunks-contents (suc fuel) offset (suc n) bytes small e =
      let (chunk, rest, found, e', join) =
        copy_chunks_inv fuel offset (suc n) bytes (omega arith) e in
      let (block, inside, bounded) = get_chunk-contents offset chunk small found in
      let (tail, count) =
        copy_chunks-contents fuel (offset + 1) (suc n - 32) rest (omega arith) e' in
      let next : drop (32 * (offset + 1)) (contents object)
          ≡ drop 32 (drop (32 * offset) (contents object)) =
        ap (λ (k : ℕ). drop k (contents object)) (omega arith)
        ∙ drop-add (32 * offset) 32 (contents object) in
      let whole : bytes ≡ take (suc n) (drop (32 * offset) (contents object)) =
        join
        ∙ rw (block, tail, next) (first_block_of (suc n) (drop (32 * offset) (contents object))) in
      (
        whole,
        ap (λ (t : List ℕ). length t) join
            ∙ omega (
              arith,
              length-append (take (min 32 (suc n)) chunk) rest,
              length-take (min 32 (suc n)) chunk,
              ap (λ (t : List ℕ). length t) block,
              length-take 32 (drop (32 * offset) (contents object)),
              length-drop (32 * offset) (contents object),
              count,
            ),
      )
