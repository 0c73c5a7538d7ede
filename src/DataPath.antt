-- ===== src/DataPath.antt =====
-- src/features/generic_tx_parser/gtp_data_path.c: the walk along a path through the calldata, which
-- collects the values that the path points at.
-- `get_chunk` and the rest read the current calldata (`none` is NULL); what calldata_get_chunk does
-- to the object's chunk buffer is not kept, since every chunk is used before the next is read
-- (`Calldata.Chunks` shows that the answers do not change). `read_u16_be` and `is_zeroes_buffer`
-- are the SDK's. A signed 16-bit bound is the two's complement number that is stored.
pub mod Reading
pub mod Slices
pub mod Values
pub mod Arrays
pub mod Passes
mod Tests
use ledger_ambire_signer.Base.{
  ℕ, zero, suc, ◌+◌, ◌-◌, ◌*◌, ◌/◌, ◌%◌, ◌^◌, min, Bool, true, false, not, ◌&&◌, ◌||◌, Option, none,
  some, List, [], ◌∷◌, ◌++◌, length, take, set, get_or, replicate, ltb, leb, ◌==◌, if◌then◌else◌,
  u8, u16, u32,
}
use ledger_ambire_signer.Base.Memory.{Heap, alloc}
use ledger_ambire_signer.Calldata.{Calldata, calldata_get_chunk}

pub data LeafType : Type 0 where
  leaf_array leaf_tuple leaf_static leaf_dynamic : LeafType

-- s_array_args and s_slice_args; a bound that is not there is `none`.
pub record ArrayArgs : Type 0 where
  pub weight : ℕ
  pub start : Option ℕ
  pub end : Option ℕ

pub record SliceArgs : Type 0 where
  pub start : Option ℕ
  pub end : Option ℕ

pub data PathElement : Type 0 where
  tuple : ℕ → PathElement
  array : ArrayArgs → PathElement
  ref : PathElement
  leaf : LeafType → PathElement
  slice : SliceArgs → PathElement

-- `buffer` is the block that was allocated and `at` how far the pointer is from its start.
pub record ParsedValue : Type 0 where
  pub buffer : List ℕ
  pub at : ℕ
  pub size : ℕ
  pub offset : ℕ
  pub len : ℕ

abbrev pub max_value_collection_size : ℕ
max_value_collection_size = 16

abbrev pub max_arrays : ℕ
max_arrays = 8

pub record ArraysInfo : Type 0 where
  pub depth : ℕ
  pub passes_remaining : List ℕ
  pub index : ℕ

-- The variables of data_path_get, and the caller's collection.
pub record Walk : Type 0 where
  pub offset : ℕ
  pub ref_offset : ℕ
  pub arrays : ArraysInfo
  pub collection : List ParsedValue
  pub heap : Heap

pub record Reader : Type 0 where
  pub calldata : Option Calldata
  pub read_u16_be : List ℕ → ℕ → ℕ
  pub is_zeroes_buffer : List ℕ → ℕ → Bool

abbrev pub Step : Type 0
Step = Bool × Walk

unfoldable pub get_chunk : Reader → ℕ → Option (List ℕ)
get_chunk reader idx = (calldata_get_chunk reader.calldata (u32 idx)).0

-- The 16-bit number at the end of a chunk that is 0 in front of it.
unfoldable pub read_short : Reader → ℕ → Option ℕ
read_short reader idx = elim (get_chunk reader idx) [
  | none ↦ none
  | some chunk ↦
      if reader.is_zeroes_buffer chunk 30 then some (reader.read_u16_be chunk 30) else none
]

unfoldable pub path_tuple : ℕ → Walk → Step
path_tuple value w = (true, record w { ref_offset = w.offset; offset = u32 (w.offset + value) })

unfoldable pub path_ref : Reader → Walk → Step
path_ref reader w = elim (read_short reader w.offset) [
  | none ↦ (false, w)
  | some raw ↦
      if not (raw % 32 == 0)
      then (false, w)
      else if leb (2 ^ 32) (raw / 32 + w.ref_offset)
      then (false, w)
      else (true, record w { offset = raw / 32 + w.ref_offset })
]

-- The copying loop: `n` bytes from the chunk `offset` on.
unfoldable pub copy_chunks : ℕ → Reader → ℕ → ℕ → Option (List ℕ)
copy_chunks zero reader offset n = if n == 0 then some [] else none
copy_chunks (suc fuel) reader offset n =
    if n == 0 then some [] else elim (get_chunk reader offset) [
      | none ↦ none
      | some chunk ↦ elim (copy_chunks fuel reader (offset + 1) (n - 32)) [
        | none ↦ none
        | some rest ↦ some (take (min 32 n) chunk ++ rest)
      ]
    ]

-- 16-bit lengths have at most 2048 chunks.
abbrev pub max_chunks : ℕ
max_chunks = 2048

-- The end of path_leaf, with the value's size and the offset of its first chunk.
unfoldable pub store_leaf : Reader → ℕ → ℕ → Walk → Step
store_leaf reader offset size w =
    let value : List ℕ → ParsedValue =
      λ bytes. record { buffer = bytes; at = 0; size = size; offset = 0; len = size } in
    let (got, heap') = alloc w.heap in
    if size == 0
    then (true, record w { offset = offset; collection = w.collection ++ (value [] ∷ []) })
    else if not got
    then (false, record w { offset = offset; heap = heap' })
    else elim (copy_chunks max_chunks reader offset size) [
      | none ↦ (false, record w { offset = offset; heap = heap' })
      | some bytes ↦ (
        true,
        record w { offset = offset; collection = w.collection ++ (value bytes ∷ []); heap = heap' },
      )
    ]

unfoldable pub path_leaf : Reader → LeafType → Walk → Step
path_leaf reader type w =
    if leb max_value_collection_size (length w.collection) then (false, w) else elim type [
      | leaf_static ↦ store_leaf reader w.offset 32 w
      | leaf_dynamic ↦ elim (read_short reader w.offset) [
        | none ↦ (false, w)
        | some size ↦ store_leaf reader (u32 (w.offset + 1)) size w
      ]
      | _ ↦ (false, w)
    ]

-- A bound of a slice, as it is narrowed to 16 bits.
unfoldable pub slice_bound : Option ℕ → ℕ → ℕ → ℕ
slice_bound none value_length default = default
slice_bound (some raw) value_length default =
    if leb (2 ^ 15) raw then u16 (value_length + raw) else raw

unfoldable pub slice_value : SliceArgs → ParsedValue → Option ParsedValue
slice_value args v =
    let start = slice_bound args.start v.len 0 in
    let end = slice_bound args.end v.len v.len in
    if leb end start || ltb v.len end
    then none
    else some (record v { at = v.at + start; len = end - start; offset = u16 (v.offset + start) })

-- The last value of the collection is cut.
unfoldable pub slice_last : SliceArgs → List ParsedValue → Option (List ParsedValue)
slice_last args [] = none
slice_last args (v ∷ []) = elim (slice_value args v) [ none ↦ none | some v' ↦ some (v' ∷ []) ]
slice_last args (v ∷ (u ∷ vs)) = elim (slice_last args (u ∷ vs)) [
  | none ↦ none
  | some vs' ↦ some (v ∷ vs')
]

unfoldable pub path_slice : SliceArgs → Walk → Step
path_slice args w = elim (slice_last args w.collection) [
  | none ↦ (false, w)
  | some values ↦ (true, record w { collection = values })
]

-- A bound of an array: from the end where it is negative, and `none` before the start.
unfoldable pub array_bound : Option ℕ → ℕ → ℕ → Option ℕ
array_bound none array_size default = some default
array_bound (some raw) array_size default =
    if leb (2 ^ 15) raw
    then (if ltb (array_size + raw) (2 ^ 16) then none else some (array_size + raw - 2 ^ 16))
    else some raw

-- The first index and the number of the elements that the arguments select.
unfoldable pub array_range : ArrayArgs → ℕ → Option (ℕ × ℕ)
array_range args array_size = elim (array_bound args.start array_size 0) [
  | none ↦ none
  | some start ↦ elim (array_bound args.end array_size array_size) [
    | none ↦ none
    | some end ↦
        if ltb array_size start || ltb array_size end
        then none
        else if leb end start
        then none
        else some (start, end - start)
  ]
]

-- A new array of the path enters the count of the passes, unless it has too many elements.
unfoldable pub enter_array : ℕ → ArraysInfo → Option ArraysInfo
enter_array passes info =
    if info.index == info.depth
    then (if ltb 255 passes
        then none
        else some (record info {
          passes_remaining = set info.passes_remaining info.index passes;
          depth = u8 (info.depth + 1);
        }))
    else some info

-- On to the element of this pass: `passes` elements are selected from `start` on.
unfoldable pub enter_element : ArrayArgs → ℕ → ℕ → ArraysInfo → Walk → Step
enter_element args start passes info w =
    let offset = u32 (w.offset + 1) in
    let idx = u16 (2 ^ 16 + start + passes - get_or info.passes_remaining info.index 0) in
    let next = offset + idx * args.weight in
    if leb (2 ^ 32) next then (false, record w { arrays = info }) else (
      true,
      record w {
        offset = next;
        ref_offset = offset;
        arrays = record info { index = u8 (info.index + 1) };
      },
    )

unfoldable pub path_array : Reader → ArrayArgs → Walk → Step
path_array reader args w =
    if leb max_arrays w.arrays.index then (false, w) else elim (read_short reader w.offset) [
      | none ↦ (false, w)
      | some array_size ↦ elim (array_range args array_size) [
        | none ↦ (false, w)
        | some (start, passes) ↦ elim (enter_array passes w.arrays) [
          | none ↦ (false, w)
          | some info ↦ enter_element args start passes info w
        ]
      ]
    ]

-- The loop of arrays_update, from the depth down.
unfoldable pub update_passes : ℕ → List ℕ → ℕ × List ℕ
update_passes zero remaining = (0, remaining)
update_passes (suc depth) remaining =
    let passes = u8 (256 + get_or remaining depth 0 - 1) in
    let outer = update_passes depth (set remaining depth passes) in
    if ltb 0 passes then (suc depth, set remaining depth passes) else outer

unfoldable pub arrays_update : ArraysInfo → ArraysInfo
arrays_update info =
    let (depth, remaining) = update_passes info.depth info.passes_remaining in
    record info { depth = depth; passes_remaining = remaining }

unfoldable pub path_element : Reader → PathElement → Walk → Step
path_element reader (tuple value) w = path_tuple value w
path_element reader (array args) w = path_array reader args w
path_element reader ref w = path_ref reader w
path_element reader (leaf type) w = path_leaf reader type w
path_element reader (slice args) w = path_slice args w

-- One pass over the path.
unfoldable pub path_pass : Reader → List PathElement → Walk → Step
path_pass reader [] w = (true, w)
path_pass reader (e ∷ es) w =
    let (done, w') = path_element reader e w in
    let rest = path_pass reader es w' in if done then rest else (false, w')

-- The `do` loop on fuel; `none` means that the fuel ran out.
unfoldable pub passes_loop : ℕ → Reader → List PathElement → Walk → Option Step
passes_loop zero reader path w = none
passes_loop (suc fuel) reader path w =
    let (done, w') =
      path_pass reader path
        (record w { offset = 0; ref_offset = 0; arrays = record w.arrays { index = 0 } }) in
    let info = arrays_update w'.arrays in
    let w'' = record w' { arrays = info } in
    let rest = passes_loop fuel reader path w'' in
    if not done then some (false, w') else if ltb 0 info.depth then rest else some (true, w'')

abbrev pub no_arrays : ArraysInfo
no_arrays = record { depth = 0; passes_remaining = replicate max_arrays 0; index = 0 }

unfoldable pub data_path_get : ℕ → Reader → List PathElement → List ParsedValue → Heap → Option Step
data_path_get fuel reader path collection heap = passes_loop fuel reader path (record {
  offset = 0;
  ref_offset = 0;
  arrays = no_arrays;
  collection = collection;
  heap = heap;
})
