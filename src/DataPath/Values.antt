-- ===== src/DataPath/Values.antt =====
-- What a walk collects, whatever its path is and whether or not it succeeds.
use mathlib.Core.Path.{subst}
use mathlib.Core.Option.{none-ne-some}
use ledger_ambire_signer.Base.{
  ℕ, ◌+◌, ◌*◌, ◌%◌, ◌^◌, ◌≤◌, ◌<◌, ◌≡◌, refl, sym, ◌∙◌, arith, false, none, some, List, [], ◌∷◌,
  ◌++◌, length, take, drop, length-append, leb, ◌==◌, Bool-cases, Option-cases, inl, inr, All,
}
use ledger_ambire_signer.Base.Memory.{Heap, alloc}
use ledger_ambire_signer.Calldata.{Calldata}
use ledger_ambire_signer.Calldata.Append.{contents}
use ledger_ambire_signer.DataPath.{
  Reader, LeafType, leaf_array, leaf_tuple, leaf_static, leaf_dynamic, PathElement, tuple, array,
  ref, leaf, slice, ArrayArgs, SliceArgs, ParsedValue, Walk, Step, get_chunk, read_short,
  copy_chunks, store_leaf, path_tuple, path_ref, path_leaf, slice_last, path_slice, path_array,
  enter_element, path_element, path_pass, max_chunks,
}
use ledger_ambire_signer.DataPath.Slices.{IsValue, slice_last-IsValue}
use ledger_ambire_signer.DataPath.Reading.{IsReader, copy_chunks-contents}

pub record IsWalk (object : Calldata) (w : Walk) : Type 0 where
  pub values : All (IsValue object) w.collection
  pub few : length w.collection ≤ 16
  pub offset_fits : w.offset < 2 ^ 32

module _ (reader : Reader) (object : Calldata) (r : IsReader reader object) where
  All-snoc :
      (vs : List ParsedValue) (v : ParsedValue)
      → All (IsValue object) vs
      → IsValue object v
      → All (IsValue object) (vs ++ (v ∷ []))
  All-snoc [] v all i = (i, tt)
  All-snoc (u ∷ vs) v (i', all) i = (i', All-snoc vs v all i)

  -- A fresh value behind those collected.
  collected :
      (heap : Heap) (offset size : ℕ) (bytes : List ℕ) (w : Walk)
      → IsWalk object w
      → length w.collection < 16
      → offset < 2 ^ 32
      → size < 2 ^ 16
      → (chunk : ℕ) → bytes ≡ take size (drop (32 * chunk) (contents object))
      → length bytes ≡ size
      → IsWalk object (record w {
        offset = offset;
        collection =
            w.collection
            ++ (record { buffer = bytes; at = 0; size = size; offset = 0; len = size } ∷ []);
        heap = heap;
      })
  collected heap offset size bytes w i room small bounded chunk copied count = record {
    values = All-snoc w.collection _ i.values (record {
      chunk = chunk;
      copied = copied;
      allocated = count;
      freed = refl;
      inside = omega arith;
      bounded = bounded;
    });
    few = omega (
      arith,
      length-append w.collection
          (record { buffer = bytes; at = 0; size = size; offset = 0; len = size } ∷ []),
    );
    offset_fits = small;
  }

  store_leaf-IsWalk :
      (offset size : ℕ) (w : Walk)
      → IsWalk object w
      → length w.collection < 16
      → offset < 2 ^ 32
      → size < 2 ^ 16
      → IsWalk object (store_leaf reader offset size w).1
  unfolding store_leaf
  store_leaf-IsWalk offset size w i room small bounded = elim (Bool-cases (size == 0)) [
    | inl e ↦
        let empty : size ≡ 0 = ground arith in
        rw empty (collected w.heap offset 0 [] w i room small (omega arith) 0 refl refl)
    | inr e ↦ elim (Bool-cases (alloc w.heap).0) [
      | inl got ↦ elim (Option-cases (copy_chunks max_chunks reader offset size)) [
        | inl missing ↦
            rw (e, got, missing) (record { values = i.values; few = i.few; offset_fits = small })
        | inr (bytes, some_bytes) ↦
            let (copied, count) =
              copy_chunks-contents reader object r max_chunks offset size bytes small some_bytes in
            rw (e, got, some_bytes)
              (collected (alloc w.heap).1 offset size bytes w i room small bounded offset copied
                count)
      ]
      | inr failed ↦ rw (e, failed) (record { values = i.values; few = i.few; offset_fits = small })
    ]
  ]

  path_slice-IsWalk :
      (args : SliceArgs) (w : Walk) → IsWalk object w → IsWalk object (path_slice args w).1
  unfolding path_slice
  path_slice-IsWalk args w i = elim (Option-cases (slice_last args w.collection)) [
    | inl missing ↦ rw (missing, path_slice) i
    | inr (vs, cut) ↦
        let (all, count) = slice_last-IsValue object args w.collection vs i.values cut in
        rw (cut, path_slice)
          (record { values = all; few = omega (arith, count, i.few); offset_fits = i.offset_fits })
  ]

  read_short_of :
      (idx n : ℕ) (chunk : List ℕ)
      → get_chunk reader idx ≡ some chunk
      → read_short reader idx ≡ some n
      → n ≡ reader.read_u16_be chunk 30
  unfolding read_short
  read_short_of idx n chunk found e = ground arith

  read_short_missing : (idx : ℕ) → get_chunk reader idx ≡ none → read_short reader idx ≡ none
  unfolding read_short
  read_short_missing idx missing = rw (missing, read_short) refl

  pub read_short_bound : (idx n : ℕ) → read_short reader idx ≡ some n → n < 2 ^ 16
  read_short_bound idx n e = elim (Option-cases (get_chunk reader idx)) [
    | inl missing ↦ absurd (none-ne-some n (sym (read_short_missing idx missing) ∙ e))
    | inr (chunk, found) ↦ omega (arith, read_short_of idx n chunk found e, r.shorts chunk 30)
  ]

  path_leaf-IsWalk :
      (type : LeafType) (w : Walk) → IsWalk object w → IsWalk object (path_leaf reader type w).1
  unfolding path_leaf
  path_leaf-IsWalk type w i = elim (Bool-cases (leb 16 (length w.collection))) [
    | inl full ↦ rw full i
    | inr room ↦ rw room (go type (ground arith))
  ]
    where
      go :
          (type : LeafType)
          → length w.collection < 16
          → IsWalk object
              (elim type as (λ x. Step) [
                | leaf_static ↦ store_leaf reader w.offset 32 w
                | leaf_dynamic ↦ elim (read_short reader w.offset) as (λ x. Step) [
                  | none ↦ (false, w)
                  | some size ↦ store_leaf reader ((w.offset + 1) % 2 ^ 32) size w
                ]
                | _ ↦ (false, w)
              ]).1
      go leaf_array room = i
      go leaf_tuple room = i
      go leaf_static room = store_leaf-IsWalk w.offset 32 w i room i.offset_fits (omega arith)
      go leaf_dynamic room = elim (Option-cases (read_short reader w.offset)) [
        | inl missing ↦ rw missing i
        | inr (size, e) ↦ rw e (
            store_leaf-IsWalk ((w.offset + 1) % 2 ^ 32) size w i room (omega arith)
              (read_short_bound w.offset size e))
      ]

  -- A step that leaves the collection.
  same_values :
      (w w' : Walk)
      → IsWalk object w
      → w'.collection ≡ w.collection
      → w'.offset < 2 ^ 32
      → IsWalk object w'
  same_values w w' i same small = record {
    values = subst (λ vs. All (IsValue object) vs) (sym same) i.values;
    few = subst (λ vs. length vs ≤ 16) (sym same) i.few;
    offset_fits = small;
  }

  path_ref_result :
      (w : Walk)
      → w.offset < 2 ^ 32
      → ((path_ref reader w).1.collection ≡ w.collection)
        × ((path_ref reader w).1.offset < 2 ^ 32)
        × ((path_ref reader w).1.arrays ≡ w.arrays)
  unfolding path_ref
  path_ref_result w small = ground arith

  path_array_result :
      (args : ArrayArgs) (w : Walk)
      → w.offset < 2 ^ 32
      → ((path_array reader args w).1.collection ≡ w.collection)
        × ((path_array reader args w).1.offset < 2 ^ 32)
  unfolding path_array enter_element
  path_array_result args w small = ground arith

  -- Every element keeps what holds of the walk, also where it fails.
  pub path_element-IsWalk :
      (e : PathElement) (w : Walk) → IsWalk object w → IsWalk object (path_element reader e w).1
  unfolding path_element path_tuple
  path_element-IsWalk (tuple value) w i = same_values w (path_tuple value w).1 i refl (omega arith)
  path_element-IsWalk (array args) w i =
      let (same, small) = path_array_result args w i.offset_fits in
      same_values w (path_array reader args w).1 i same small
  path_element-IsWalk ref w i =
      let (same, small, _) = path_ref_result w i.offset_fits in
      same_values w (path_ref reader w).1 i same small
  path_element-IsWalk (leaf type) w i = path_leaf-IsWalk type w i
  path_element-IsWalk (slice args) w i = path_slice-IsWalk args w i

  pub path_pass-IsWalk :
      (path : List PathElement) (w : Walk)
      → IsWalk object w
      → IsWalk object (path_pass reader path w).1
  unfolding path_pass
  path_pass-IsWalk [] w i = i
  path_pass-IsWalk (e ∷ es) w i =
      let i' = path_element-IsWalk e w i in
      elim (Bool-cases (path_element reader e w).0) [
        | inl done ↦ rw done (path_pass-IsWalk es (path_element reader e w).1 i')
        | inr failed ↦ rw failed i'
      ]
