-- ===== src/DataPath/Passes.antt =====
-- The passes over a path (data_path_get): they end, and what they collect is valid.
use mathlib.Core.Path.{subst}
use mathlib.Core.Option.{none-ne-some, some-injective}
use native.Mathlib.Nat.{one-le-pow}
use ledger_ambire_signer.Base.{
  ℕ, zero, suc, ◌-◌, ◌^◌, ◌≤◌, ◌<◌, ◌≡◌, refl, sym, ◌∙◌, arith, Bool, true, false, Option, some,
  List, [], ◌∷◌, length, ltb, Bool-cases, inl, inr, All,
}
use ledger_ambire_signer.Base.Memory.{Heap}
use ledger_ambire_signer.Calldata.{Calldata}
use ledger_ambire_signer.DataPath.{
  Reader, LeafType, leaf_array, leaf_tuple, leaf_static, leaf_dynamic, PathElement, tuple, array,
  ref, leaf, slice, ArraysInfo, SliceArgs, ParsedValue, Walk, Step, path_element, path_pass,
  path_tuple, path_ref, path_leaf, store_leaf, path_slice, arrays_update, passes_loop,
  data_path_get, no_arrays,
}
use ledger_ambire_signer.DataPath.Reading.{IsReader}
use ledger_ambire_signer.DataPath.Slices.{IsValue}
use ledger_ambire_signer.DataPath.Values.{IsWalk, path_pass-IsWalk}
use ledger_ambire_signer.DataPath.Arrays.{
  passes_left, IsCounted, bound, IsStep, update_passes-IsUpdated, path_array-IsStep,
}

path_ref_arrays : (reader : Reader) (w : Walk) → (path_ref reader w).1.arrays ≡ w.arrays
unfolding path_ref
path_ref_arrays reader w = ground arith

path_leaf_arrays :
    (reader : Reader) (type : LeafType) (w : Walk) → (path_leaf reader type w).1.arrays ≡ w.arrays
unfolding path_leaf store_leaf
path_leaf_arrays reader leaf_array w = ground arith
path_leaf_arrays reader leaf_tuple w = ground arith
path_leaf_arrays reader leaf_static w = ground arith
path_leaf_arrays reader leaf_dynamic w = ground arith

path_slice_arrays : (args : SliceArgs) (w : Walk) → (path_slice args w).1.arrays ≡ w.arrays
unfolding path_slice
path_slice_arrays args w = ground arith

same_arrays : (info info' : ArraysInfo) → IsCounted info → info' ≡ info → IsStep info info'
same_arrays info info' c same = rw same (c, omega arith)

path_element-IsStep :
    (reader : Reader) (e : PathElement) (w : Walk)
    → IsCounted w.arrays
    → IsStep w.arrays (path_element reader e w).1.arrays
unfolding path_element path_tuple
path_element-IsStep reader (tuple value) w c = (c, omega arith)
path_element-IsStep reader (array args) w c = path_array-IsStep reader args w c
path_element-IsStep reader ref w c =
    same_arrays w.arrays (path_ref reader w).1.arrays c (path_ref_arrays reader w)
path_element-IsStep reader (leaf type) w c =
    same_arrays w.arrays (path_leaf reader type w).1.arrays c (path_leaf_arrays reader type w)
path_element-IsStep reader (slice args) w c =
    same_arrays w.arrays (path_slice args w).1.arrays c (path_slice_arrays args w)

path_pass-IsStep :
    (reader : Reader) (path : List PathElement) (w : Walk)
    → IsCounted w.arrays
    → IsStep w.arrays (path_pass reader path w).1.arrays
unfolding path_pass
path_pass-IsStep reader [] w c = (c, omega arith)
path_pass-IsStep reader (e ∷ es) w c =
    let (c', le) = path_element-IsStep reader e w c in
    elim (Bool-cases (path_element reader e w).0) [
      | inl done ↦
          let (c'', le') = path_pass-IsStep reader es (path_element reader e w).1 c' in
          rw done (c'', omega (arith, le, le'))
      | inr failed ↦ rw failed (c', le)
    ]

-- The update at the end of a pass, where arrays are left, makes the bound smaller.
arrays_update-sinks :
    (info : ArraysInfo)
    → IsCounted info
    → IsCounted (arrays_update info)
      × (0 < (arrays_update info).depth → bound (arrays_update info) < bound info)
unfolding arrays_update
arrays_update-sinks info c =
    let u =
      update_passes-IsUpdated info.depth info.passes_remaining
        (omega (arith, c.slots, c.depth_fits)) c.depth_fits c.digits in
    (
      record {
        slots = u.slots ∙ c.slots;
        depth_fits = omega (arith, u.shorter, c.depth_fits);
        digits = u.digits;
        index_fits = c.index_fits;
      },
      λ more. omega (arith, u.sinks more, one-le-pow (8 - info.depth) 256 (omega arith)),
    )

abbrev restart : Walk → Walk
restart w = record w { offset = 0; ref_offset = 0; arrays = record w.arrays { index = 0 } }

restart-IsCounted : (w : Walk) → IsCounted w.arrays → IsCounted (restart w).arrays
restart-IsCounted w c = record {
  slots = c.slots;
  depth_fits = c.depth_fits;
  digits = c.digits;
  index_fits = omega arith;
}

-- Fuel for the bound is enough for the loop.
passes_loop-total :
    (fuel : ℕ) (reader : Reader) (path : List PathElement) (w : Walk)
    → IsCounted w.arrays
    → bound w.arrays ≤ fuel
    → (step : Step) × (passes_loop fuel reader path w ≡ some step)
unfolding passes_loop
passes_loop-total zero reader path w c le =
    absurd (omega (arith, one-le-pow (8 - w.arrays.depth) 256 (omega arith)))
passes_loop-total (suc fuel) reader path w c le =
    let (c', kept) = path_pass-IsStep reader path (restart w) (restart-IsCounted w c) in
    let w' : Walk = (path_pass reader path (restart w)).1 in
    let (c'', sinks) = arrays_update-sinks w'.arrays c' in
    elim (Bool-cases (path_pass reader path (restart w)).0) [
      | inr failed ↦ rw failed (_, refl)
      | inl done ↦ elim (Bool-cases (ltb 0 (arrays_update w'.arrays).depth)) [
        | inr over ↦ rw (done, over) (_, refl)
        | inl more ↦
            rw (done, more)
              (passes_loop-total fuel reader path (record w' { arrays = arrays_update w'.arrays })
                c'' (omega (arith, kept, sinks (ground (arith, more)))))
      ]
    ]

passes_loop-IsWalk :
    (fuel : ℕ) (reader : Reader) (object : Calldata) (path : List PathElement) (w : Walk)
    (done : Bool) (w' : Walk)
    → IsReader reader object
    → IsWalk object w
    → passes_loop fuel reader path w ≡ some (done, w')
    → IsWalk object w'
unfolding passes_loop
passes_loop-IsWalk zero reader object path w done w' r i e = absurd (none-ne-some (done, w') e)
passes_loop-IsWalk (suc fuel) reader object path w done w' r i e =
    let start : IsWalk object (restart w) = record {
      values = i.values;
      few = i.few;
      offset_fits = omega arith;
    } in
    let i' = path_pass-IsWalk reader object r path (restart w) start in
    let u : Walk = (path_pass reader path (restart w)).1 in
    let next : IsWalk object (record u { arrays = arrays_update u.arrays }) = record {
      values = i'.values;
      few = i'.few;
      offset_fits = i'.offset_fits;
    } in
    elim (Bool-cases (path_pass reader path (restart w)).0) [
      | inr failed ↦
          let same : Path (Option Step) (some (false, u)) (some (done, w')) =
            rw (sym e, failed) refl in
          subst (λ (s : Step). IsWalk object s.1) (some-injective _ _ same) i'
      | inl good ↦ elim (Bool-cases (ltb 0 (arrays_update u.arrays).depth)) [
        | inr over ↦
            let same : Path (Option Step)
                (some (true, record u { arrays = arrays_update u.arrays })) (some (done, w')) =
              rw (sym e, good, over) refl in
            subst (λ (s : Step). IsWalk object s.1) (some-injective _ _ same) next
        | inl more ↦
            let same : passes_loop fuel reader path (record u { arrays = arrays_update u.arrays })
                ≡ some (done, w') =
              rw (sym e, good, more) refl in
            passes_loop-IsWalk fuel reader object path
              (record u { arrays = arrays_update u.arrays }) done w' r next same
      ]
    ]

no_arrays-IsCounted : IsCounted no_arrays
no_arrays-IsCounted = record {
  slots = refl;
  depth_fits = omega arith;
  digits = λ i lt. absurd (omega arith);
  index_fits = omega arith;
}

first_bound : bound no_arrays ≡ 2 ^ 64
first_bound = unfold passes_left in refl

-- Whatever the path is, and whatever the calldata holds, 2 ^ 64 passes are enough for
-- data_path_get to end.
pub data_path_get-total :
    (fuel : ℕ) (reader : Reader) (path : List PathElement) (collection : List ParsedValue)
    (heap : Heap)
    → 2 ^ 64 ≤ fuel
    → (step : Step) × (data_path_get fuel reader path collection heap ≡ some step)
unfolding data_path_get
data_path_get-total fuel reader path collection heap enough =
    passes_loop-total fuel reader path _ no_arrays-IsCounted (omega (arith, first_bound))

-- On a valid calldata object of less than 2 ^ 32 bytes, from an empty collection, data_path_get
-- ends with at most 16 values, whether it succeeds or fails: each is a slice inside a block copied
-- from the calldata, and its pointer less its offset is the start of that block (which
-- data_path_cleanup frees).
pub data_path_get-IsValue :
    (reader : Reader) (object : Calldata) (path : List PathElement) (heap : Heap)
    → IsReader reader object
    → (done : Bool) × (w : Walk) × (data_path_get (2 ^ 64) reader path [] heap ≡ some (done, w))
      × All (IsValue object) w.collection
      × (length w.collection ≤ 16)
data_path_get-IsValue reader object path heap r =
    let ((done, w), e) = data_path_get-total (2 ^ 64) reader path [] heap (omega arith) in
    let i : IsWalk object w =
      unfold data_path_get in
      passes_loop-IsWalk (2 ^ 64) reader object path _ done w r
        (record { values = tt; few = omega arith; offset_fits = omega arith }) e in
    (done, w, e, i.values, i.few)
