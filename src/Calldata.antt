-- ===== src/Calldata.antt =====
-- src/features/generic_tx_parser/calldata.c: the transaction's calldata, kept as 32-byte chunks
-- without their zero bytes on one side.
-- `none` is a NULL pointer. Allocations take their answers from a `Heap`; the list of chunks is in
-- the order of `flist_push_back`.
pub mod Compress
pub mod Append
pub mod Chunks
mod Tests
use ledger_ambire_signer.Base.{
  ℕ, zero, suc, ◌+◌, ◌-◌, ◌*◌, ◌≤◌, ◌<◌, ◌^◌, min, Bool, true, false, not, ◌&&◌, ◌||◌, Option, none,
  some, List, [], ◌∷◌, ◌++◌, length, take, drop, replicate, get_or, ltb, leb, ◌==◌, if◌then◌else◌,
}
use ledger_ambire_signer.Base.Memory.{Heap, alloc, copy_at}

abbrev pub selector_size : ℕ
selector_size = 4

abbrev pub chunk_bytes : ℕ
chunk_bytes = 32

pub data StripDir : Type 0 where
  strip_left strip_right : StripDir

-- `buf` is the `size` bytes behind the pointer, and `[]` a NULL one.
pub record Chunk : Type 0 where
  pub dir : StripDir
  pub size : ℕ
  pub buf : List ℕ

pub record Calldata : Type 0 where
  pub expected_size : ℕ
  pub received_size : ℕ
  pub selector : List ℕ
  pub chunks : List Chunk
  pub chunk : List ℕ
  pub chunk_size : ℕ

pub calldata_set_selector : Option Calldata → Option (List ℕ) → Option Calldata × Bool
calldata_set_selector none selector = (none, false)
calldata_set_selector (some c) none = (some c, false)
calldata_set_selector (some c) (some selector) =
    (some (record c { selector = take selector_size selector }), true)

-- A fresh object is zeroed by the allocation.
pub empty_calldata : ℕ → Calldata
empty_calldata size = record {
  expected_size = size;
  received_size = 0;
  selector = replicate selector_size 0;
  chunks = [];
  chunk = replicate chunk_bytes 0;
  chunk_size = 0;
}

pub calldata_init : ℕ → Option (List ℕ) → Heap → Option Calldata × Heap
unfolding alloc calldata_set_selector empty_calldata
calldata_init size selector heap =
    let (got, heap') = alloc heap in
    if got
    then ((calldata_set_selector (some (empty_calldata size)) selector).0, heap')
    else (none, heap')

-- The two counting loops over the chunk: from the first byte up, and from byte `i - 1` down.
pub count_left : List ℕ → ℕ
count_left [] = 0
count_left (x ∷ xs) = if x == 0 then suc (count_left xs) else 0

pub count_right : ℕ → List ℕ → ℕ
count_right zero xs = 0
count_right (suc i) xs = if get_or xs i 1 == 0 then suc (count_right i xs) else 0

-- The side and the size that are kept of a chunk, and the index of the first byte kept.
pub strip : List ℕ → StripDir × ℕ × ℕ
strip chunk =
    let left = count_left chunk in
    let right = count_right chunk_bytes chunk in
    if leb right left
    then (strip_left, chunk_bytes - left, left)
    else (strip_right, chunk_bytes - right, 0)

pub stripped : List ℕ → Chunk
stripped chunk =
    let (dir, size, start) = strip chunk in
    record { dir = dir; size = size; buf = take size (drop start chunk) }

-- The first allocation is the node, the second its bytes, if there are any.
pub compress_chunk : Calldata → Heap → Bool × Calldata × Heap
unfolding alloc
compress_chunk c heap =
    let (got, heap') = alloc heap in
    let node = stripped c.chunk in
    let (got_buf, heap'') = alloc heap' in
    if not got
    then (false, c, heap')
    else if ltb 0 node.size
    then (if not got_buf
        then (false, c, heap'')
        else (true, record c { chunks = c.chunks ++ (node ∷ []) }, heap''))
    else (true, record c { chunks = c.chunks ++ (node ∷ []) }, heap')

-- What is written to the 32 bytes at `out`.
unfoldable pub decompress_chunk : Chunk → List ℕ
decompress_chunk node =
    if length node.buf == 0 || node.size == 0 then replicate chunk_bytes 0 else elim node.dir [
      | strip_left ↦ replicate (chunk_bytes - node.size) 0 ++ node.buf
      | strip_right ↦ node.buf ++ replicate (chunk_bytes - node.size) 0
    ]

-- The object after `cpy_length` bytes went into its chunk buffer.
pub fill : Calldata → List ℕ → Calldata
fill c bytes = record c {
  chunk = copy_at c.chunk c.chunk_size bytes;
  chunk_size = c.chunk_size + length bytes;
}

-- A full chunk buffer is compressed and starts again from its front.
pub flush : Calldata → Heap → Bool × Calldata × Heap
flush c heap =
    if c.chunk_size == chunk_bytes
    then (let (done, c', heap') = compress_chunk c heap in
        if done then (true, record c' { chunk_size = 0 }, heap') else (false, c', heap'))
    else (true, c, heap)

-- The `while` loop; each round takes a byte at least, so `length buffer` rounds are enough.
pub append_loop : ℕ → Calldata → List ℕ → Heap → Bool × Calldata × Heap
append_loop fuel c [] heap = (true, c, heap)
append_loop zero c (x ∷ xs) heap = (false, c, heap)
append_loop (suc fuel) c (x ∷ xs) heap =
    let n = min (length (x ∷ xs)) (chunk_bytes - c.chunk_size) in
    let (done, c', heap') = flush (fill c (take n (x ∷ xs))) heap in
    let rest =
      append_loop fuel (record c' { received_size = c'.received_size + n }) (drop n (x ∷ xs))
        heap' in
    if ltb c.expected_size c.received_size
    then (false, c, heap)
    else if done
    then rest
    else (false, c', heap')

-- `size_t` has 32 bits. `buffer` is the `size` bytes to add.
pub append_bytes : Calldata → List ℕ → Heap → Bool × Calldata × Heap
append_bytes c buffer heap =
    let after = c.received_size + length buffer in
    if leb (2 ^ 32) after || ltb c.expected_size after
    then (false, c, heap)
    else append_loop (length buffer) c buffer heap

pub calldata_append : Option Calldata → List ℕ → Heap → Bool × Option Calldata × Heap
calldata_append none buffer heap = (false, none, heap)
calldata_append (some c) buffer heap =
    let (done, c', heap') = append_bytes c buffer heap in (done, some c', heap')

unfoldable pub has_valid_calldata : Option Calldata → Bool
has_valid_calldata none = false
has_valid_calldata (some c) = c.received_size == c.expected_size

pub calldata_get_selector : Option Calldata → Option (List ℕ)
unfolding has_valid_calldata
calldata_get_selector none = none
calldata_get_selector (some c) = if has_valid_calldata (some c) then some c.selector else none

-- The walk to the node `idx`.
unfoldable pub nth_chunk : List Chunk → ℕ → Option Chunk
nth_chunk [] idx = none
nth_chunk (node ∷ nodes) zero = some node
nth_chunk (node ∷ nodes) (suc idx) = nth_chunk nodes idx

-- The chunk buffer is where the answer stands: the returned pointer is into the object.
unfoldable pub calldata_get_chunk : Option Calldata → ℕ → Option (List ℕ) × Option Calldata
unfolding has_valid_calldata nth_chunk decompress_chunk
calldata_get_chunk none idx = (none, none)
calldata_get_chunk (some c) idx =
    if has_valid_calldata (some c)
    then elim (nth_chunk c.chunks idx) [
      | none ↦ (none, some c)
      | some node ↦
          (some (decompress_chunk node), some (record c { chunk = decompress_chunk node }))
    ]
    else (none, some c)
