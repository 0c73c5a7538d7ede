-- ===== src/Calldata/Chunks.antt =====
-- Reading the chunks back, and whole sessions: an object filled by any number of calls.
use mathlib.Core.List.{append_assoc}
use mathlib.Core.Option
use mathlib.Core.Path.{subst}
use ledger_ambire_signer.Base.{
  ℕ, zero, suc, ◌+◌, ◌*◌, ◌/◌, ◌≤◌, ◌<◌, ◌^◌, ◌≡◌, refl, ap, sym, ◌∙◌, arith, Bool, true, false,
  Option, none, some, List, [], ◌∷◌, ◌++◌, length, take, drop, length-append, length-take,
  length-drop, leb, ◌==◌, ltb, All, if◌then◌else◌, ◌&&◌, take-length_append, drop-length_append,
}
use ledger_ambire_signer.Base.Memory.{Heap, drop-add}
use ledger_ambire_signer.Calldata.{
  Chunk, decompress_chunk, compress_chunk, Calldata, fill, flush, append_loop, append_bytes,
  nth_chunk, calldata_get_chunk, empty_calldata, calldata_init, calldata_get_selector,
}
use ledger_ambire_signer.Calldata.Append.{
  blocks, contents, IsWhole, IsValid, IsAppended, round, after_round, after_round-IsAppended,
  append_bytes-IsAppended, IsAppended-refl, IsAppended-trans,
}

-- A heap that never fails.
flush_succeeds : (c : Calldata) → ((flush c []).0 ≡ true) × ((flush c []).2 ≡ [])
unfolding flush compress_chunk
flush_succeeds c = ground arith

append_loop-round :
    (fuel : ℕ) (c : Calldata) (x : ℕ) (xs : List ℕ)
    → c.received_size ≤ c.expected_size
    → append_loop (suc fuel) c (x ∷ xs) []
      ≡ append_loop fuel (after_round c (x ∷ xs) []) (drop (round c (x ∷ xs)) (x ∷ xs)) []
unfolding append_loop
append_loop-round fuel c x xs h =
    ground (arith, flush_succeeds (fill c (take (round c (x ∷ xs)) (x ∷ xs))))

append_loop_succeeds :
    (fuel : ℕ) (c : Calldata) (buffer : List ℕ)
    → IsValid c
    → c.received_size + length buffer ≤ c.expected_size
    → length buffer ≤ fuel
    → ((append_loop fuel c buffer []).0 ≡ true) × ((append_loop fuel c buffer []).2 ≡ [])
append_loop_succeeds fuel c [] v h k = unfold append_loop in (refl, refl)
append_loop_succeeds zero c (x ∷ xs) v h k = absurd (omega arith)
append_loop_succeeds (suc fuel) c (x ∷ xs) v h k =
    let buffer : List ℕ = x ∷ xs in
    let n : ℕ = round c buffer in
    let one = after_round-IsAppended c buffer [] v (flush_succeeds (fill c (take n buffer))).0 in
    rw (append_loop-round fuel c x xs (omega arith)) (
      append_loop_succeeds fuel (after_round c buffer []) (drop n buffer) one.valid
        (omega (
          arith,
          ap length one.added,
          one.valid.counted,
          one.frame.same_expected,
          length-append (contents c) (take n buffer),
          length-take n buffer,
          length-drop n buffer,
        ))
        (omega (arith, length-drop n buffer)))

-- With memory at hand, on a valid object for less than 2 ^ 32 bytes, a call succeeds exactly
-- when its bytes fit the expected size; refused, it changes nothing.
pub append_bytes_succeeds :
    (c : Calldata) (buffer : List ℕ)
    → IsValid c
    → c.expected_size < 2 ^ 32
    → if leb (c.received_size + length buffer) c.expected_size
      then ((append_bytes c buffer []).0 ≡ true) × ((append_bytes c buffer []).2 ≡ [])
      else (append_bytes c buffer [] ≡ (false, c, []))
unfolding append_bytes
append_bytes_succeeds c buffer v h = ground (arith, append_loop_succeeds (length buffer) c buffer v)

length-blocks : (nodes : List Chunk) → All IsWhole nodes → length (blocks nodes) ≡ 32 * length nodes
unfolding blocks
length-blocks [] h = refl
length-blocks (n ∷ ns) h =
    omega (arith, length-append (decompress_chunk n) (blocks ns), length-blocks ns h.1)

first_block : (d rest : List ℕ) → length d ≡ 32 → take 32 (d ++ rest) ≡ d
first_block d rest h = subst (λ k. take k (d ++ rest) ≡ d) h (take-length_append d rest)

next_block :
    (d rest : List ℕ) (idx : ℕ)
    → length d ≡ 32
    → drop (32 * suc idx) (d ++ rest) ≡ drop (32 * idx) rest
next_block d rest idx h =
    let past : drop 32 (d ++ rest) ≡ rest =
      subst (λ k. drop k (d ++ rest) ≡ rest) h (drop-length_append d rest) in
    let k : 32 * suc idx ≡ 32 + 32 * idx = omega arith in
    rw (k, drop-add 32 (32 * idx) (d ++ rest)) (ap (λ (t : List ℕ). drop (32 * idx) t) past)

nth_chunk-blocks :
    (nodes : List Chunk) (idx : ℕ) (rest : List ℕ)
    → All IsWhole nodes
    → Option.map decompress_chunk (nth_chunk nodes idx) ≡ (
        if ltb idx (length nodes)
        then some (take 32 (drop (32 * idx) (blocks nodes ++ rest)))
        else none)
unfolding blocks nth_chunk
nth_chunk-blocks [] idx rest h = ground arith
nth_chunk-blocks (n ∷ ns) zero rest h =
    rw append_assoc (ground (arith, first_block (decompress_chunk n) (blocks ns ++ rest) h.0))
nth_chunk-blocks (n ∷ ns) (suc idx) rest h = rw append_assoc (
    ground (
      arith,
      next_block (decompress_chunk n) (blocks ns ++ rest) idx h.0,
      nth_chunk-blocks ns idx rest h.1,
    ))

get_chunk_answer :
    (c : Calldata) (idx : ℕ)
    → (calldata_get_chunk (some c) idx).0 ≡ (
        if c.received_size == c.expected_size
        then Option.map decompress_chunk (nth_chunk c.chunks idx)
        else none)
unfolding calldata_get_chunk
get_chunk_answer c idx = ground arith

-- Reading a chunk changes no later answer.
pub calldata_get_chunk_again :
    (c : Option Calldata) (i j : ℕ)
    → (calldata_get_chunk (calldata_get_chunk c i).1 j).0 ≡ (calldata_get_chunk c j).0
unfolding calldata_get_chunk
calldata_get_chunk_again none i j = refl
calldata_get_chunk_again (some c) i j = ground arith

whole_blocks : (c : Calldata) → IsValid c → c.received_size / 32 ≡ length c.chunks
unfolding contents
whole_blocks c v = omega (
  arith,
  v.counted,
  length-append (blocks c.chunks) (take c.chunk_size c.chunk),
  length-blocks c.chunks v.whole,
  length-take c.chunk_size c.chunk,
)

-- The answer of a valid object for every index: the block of 32 bytes there, and NULL past the
-- last whole block of the expected size or while bytes are missing.
pub calldata_get_chunk-contents :
    (c : Calldata) (idx : ℕ)
    → IsValid c
    → (calldata_get_chunk (some c) idx).0 ≡ (
        if c.received_size == c.expected_size && ltb idx (c.expected_size / 32)
        then some (take 32 (drop (32 * idx) (contents c)))
        else none)
calldata_get_chunk-contents c idx v =
    get_chunk_answer c idx
    ∙ rw (nth_chunk-blocks c.chunks idx (take c.chunk_size c.chunk) v.whole)
        (unfold contents in ground (arith, v.counted, whole_blocks c v))

-- A session: the calls of `calldata_append` on one object, up to the first that fails.
unfoldable pub append_all : Calldata → List (List ℕ) → Heap → Bool × Calldata × Heap
append_all c [] heap = (true, c, heap)
append_all c (p ∷ ps) heap =
    let (done, c', heap') = append_bytes c p heap in
    let rest = append_all c' ps heap' in if done then rest else (false, c', heap')

unfoldable pub joined : List (List ℕ) → List ℕ
joined [] = []
joined (p ∷ ps) = p ++ joined ps

pub empty_calldata-IsValid : (size : ℕ) → IsValid (empty_calldata size)
unfolding empty_calldata contents blocks
empty_calldata-IsValid size = record {
  chunk_length = refl;
  room = omega arith;
  whole = tt;
  counted = refl;
}

first_call :
    (c : Calldata) (p : List ℕ)
    → IsValid c
    → c.expected_size < 2 ^ 32
    → c.received_size + length p ≤ c.expected_size
    → ((append_bytes c p []).0 ≡ true) × ((append_bytes c p []).2 ≡ [])
first_call c p v h k = ground (arith, append_bytes_succeeds c p v h)

append_all-contents :
    (c : Calldata) (pieces : List (List ℕ))
    → IsValid c
    → c.expected_size < 2 ^ 32
    → c.received_size + length (joined pieces) ≤ c.expected_size
    → ((append_all c pieces []).0 ≡ true) × IsAppended c (joined pieces) (append_all c pieces []).1
unfolding append_all joined
append_all-contents c [] v h k = (refl, IsAppended-refl c v)
append_all-contents c (p ∷ ps) v h k =
    let small : c.received_size + length p ≤ c.expected_size =
      omega (arith, length-append p (joined ps)) in
    let (done, heap_left) = first_call c p v h small in
    let one = (append_bytes-IsAppended c p [] v done).0 in
    let (all_done, rest) =
      append_all-contents (append_bytes c p []).1 ps one.valid
        (omega (arith, one.frame.same_expected))
        (omega (
          arith,
          one.frame.same_expected,
          one.valid.counted,
          ap length one.added,
          length-append (contents c) p,
          length-append p (joined ps),
        )) in
    rw (done, heap_left) (all_done, IsAppended-trans c p (joined ps) one rest)

calldata_init_started :
    (size : ℕ) (selector : List ℕ) (c : Calldata)
    → calldata_init size (some selector) [] ≡ (some c, [])
    → c ≡ record (empty_calldata size) { selector = take 4 selector }
unfolding calldata_init
calldata_init_started size selector c e = ground arith

started-IsValid :
    (size : ℕ) (selector : List ℕ) → IsValid (record (empty_calldata size) { selector = selector })
unfolding empty_calldata contents blocks
started-IsValid size selector = record {
  chunk_length = refl;
  room = omega arith;
  whole = tt;
  counted = refl;
}

get_selector_complete :
    (c : Calldata)
    → c.received_size ≡ c.expected_size
    → calldata_get_selector (some c) ≡ some c.selector
unfolding calldata_get_selector
get_selector_complete c h = ground arith

filled_session :
    (size : ℕ) (selector : List ℕ) (pieces : List (List ℕ)) (idx : ℕ)
    → size < 2 ^ 32
    → length (joined pieces) ≡ size
    → let (done, filled, heap) =
        append_all (record (empty_calldata size) { selector = selector }) pieces [] in
      (done ≡ true)
      × ((calldata_get_chunk (some filled) idx).0 ≡ (
          if ltb idx (size / 32) then some (take 32 (drop (32 * idx) (joined pieces))) else none))
      × (calldata_get_selector (some filled) ≡ some selector)
filled_session size selector pieces idx small total =
    let c : Calldata = record (empty_calldata size) { selector = selector } in
    let (done, a) =
      append_all-contents c pieces (started-IsValid size selector) (unfold empty_calldata in small)
        (unfold empty_calldata in omega arith) in
    let filled : Calldata = (append_all c pieces []).1 in
    let held : contents filled ≡ joined pieces =
      a.added ∙ (unfold empty_calldata contents blocks in refl) in
    let expected : filled.expected_size ≡ size =
      a.frame.same_expected ∙ (unfold empty_calldata in refl) in
    let received : filled.received_size ≡ size = a.valid.counted ∙ ap length held ∙ total in
    (
      done,
      calldata_get_chunk-contents filled idx a.valid ∙ rw (held, received, expected) (ground arith),
      get_selector_complete filled (received ∙ sym expected)
          ∙ ap (λ (t : List ℕ). some t) a.frame.same_selector,
    )

-- A session from the start, with memory at hand: an object created for `size` bytes (below 2 ^
-- 32) takes any pieces of that total length, however they are cut. Then every index below
-- `size / 32` reads the 32-byte block of the joined pieces, every other reads NULL, and the
-- selector is the one given.
pub calldata_session :
    (size : ℕ) (selector : List ℕ) (c : Calldata) (pieces : List (List ℕ)) (idx : ℕ)
    → size < 2 ^ 32
    → calldata_init size (some selector) [] ≡ (some c, [])
    → length (joined pieces) ≡ size
    → let (done, filled, heap) = append_all c pieces [] in
      (done ≡ true)
      × ((calldata_get_chunk (some filled) idx).0 ≡ (
          if ltb idx (size / 32) then some (take 32 (drop (32 * idx) (joined pieces))) else none))
      × (calldata_get_selector (some filled) ≡ some (take 4 selector))
calldata_session size selector c pieces idx small e total =
    rw (calldata_init_started size selector c e)
      (filled_session size (take 4 selector) pieces idx small total)
