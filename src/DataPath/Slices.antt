-- ===== src/DataPath/Slices.antt =====
-- A collected value, and the slices that are cut from it.
use mathlib.Core.Option.{none-ne-some}
use ledger_ambire_signer.Base.{
  ℕ, suc, ◌+◌, ◌-◌, ◌*◌, ◌%◌, ◌^◌, ◌≤◌, ◌<◌, ◌≡◌, refl, ap, arith, some, List, [], ◌∷◌, length,
  take, drop, All,
}
use ledger_ambire_signer.Calldata.{Calldata}
use ledger_ambire_signer.Calldata.Append.{contents}
use ledger_ambire_signer.DataPath.{SliceArgs, ParsedValue, slice_bound, slice_value, slice_last}

-- A collected value: its block is a piece of the calldata, the slice is inside the block, and the
-- pointer stands where freeing it goes back from.
pub record IsValue (object : Calldata) (v : ParsedValue) : Type 0 where
  pub chunk : ℕ
  pub copied : v.buffer ≡ take v.size (drop (32 * chunk) (contents object))
  pub allocated : length v.buffer ≡ v.size
  pub freed : v.at ≡ v.offset
  pub inside : v.offset + v.len ≤ v.size
  pub bounded : v.size < 2 ^ 16

module _ (object : Calldata) where
  slice_value_inv :
      (args : SliceArgs) (v v' : ParsedValue)
      → slice_value args v ≡ some v'
      → (start end : ℕ) × (start < end)
        × (end ≤ v.len)
        × (v' ≡ record v {
          at = v.at + start;
          len = end - start;
          offset = (v.offset + start) % 2 ^ 16;
        })
  unfolding slice_value
  slice_value_inv args v v' e = (
    slice_bound args.start v.len 0,
    slice_bound args.end v.len v.len,
    ground arith,
    ground arith,
    ground arith,
  )

  slice_value-IsValue :
      (args : SliceArgs) (v v' : ParsedValue)
      → IsValue object v
      → slice_value args v ≡ some v'
      → IsValue object v'
  slice_value-IsValue args v v' i e =
      let (start, end, lt, le, same) = slice_value_inv args v v' e in
      rw same (record {
        chunk = i.chunk;
        copied = i.copied;
        allocated = i.allocated;
        freed = omega (arith, i.freed, i.inside, i.bounded);
        inside = omega (arith, i.inside, i.bounded);
        bounded = i.bounded;
      })

  slice_last_inv :
      (args : SliceArgs) (v : ParsedValue) (vs vs' : List ParsedValue)
      → slice_last args (v ∷ []) ≡ some vs'
      → (v' : ParsedValue) × (slice_value args v ≡ some v') × (vs' ≡ v' ∷ [])
  unfolding slice_last
  slice_last_inv args v vs vs' e = ground arith

  slice_last_next :
      (args : SliceArgs) (v u : ParsedValue) (vs vs' : List ParsedValue)
      → slice_last args (v ∷ (u ∷ vs)) ≡ some vs'
      → (us : List ParsedValue) × (slice_last args (u ∷ vs) ≡ some us) × (vs' ≡ v ∷ us)
  unfolding slice_last
  slice_last_next args v u vs vs' e = ground arith

  pub slice_last-IsValue :
      (args : SliceArgs) (vs vs' : List ParsedValue)
      → All (IsValue object) vs
      → slice_last args vs ≡ some vs'
      → All (IsValue object) vs' × (length vs' ≡ length vs)
  slice_last-IsValue args [] vs' all e = unfold slice_last in absurd (none-ne-some vs' e)
  slice_last-IsValue args (v ∷ []) vs' (i, all) e =
      let (v', cut, same) = slice_last_inv args v [] vs' e in
      rw same ((slice_value-IsValue args v v' i cut, tt), refl)
  slice_last-IsValue args (v ∷ (u ∷ vs)) vs' (i, all) e =
      let (us, cut, same) = slice_last_next args v u vs vs' e in
      let (all', count) = slice_last-IsValue args (u ∷ vs) us all cut in
      rw same ((i, all'), ap suc count)
