-- ===== src/Calldata/Append.antt =====
-- `calldata_append`: the bytes that an object holds, and what a call adds to them.
use mathlib.Core.List.{append-nil, append_assoc}
use mathlib.Core.Path.{subst}
use native.Mathlib.Decide.{ℕ_discrete}
use ledger_ambire_signer.Base.{
  ◌≢◌, ℕ, zero, suc, ◌+◌, ◌-◌, ◌≤◌, ◌<◌, ◌≡◌, min, refl, ap, sym, ◌∙◌, arith, true, List, [], ◌∷◌,
  ◌++◌, length, take, drop, length-append, length-take, take-append-drop, All,
}
use ledger_ambire_signer.Base.Memory.{Heap, take-copy_at, length-copy_at, take-length_of}
use ledger_ambire_signer.Calldata.{
  Chunk, stripped, decompress_chunk, compress_chunk, Calldata, fill, flush, append_loop,
  append_bytes,
}
use ledger_ambire_signer.Calldata.Compress.{decompress_chunk-stripped}

-- The bytes that a list of chunks stands for, and those that an object holds.
unfoldable pub blocks : List Chunk → List ℕ
blocks [] = []
blocks (node ∷ nodes) = decompress_chunk node ++ blocks nodes

unfoldable pub contents : Calldata → List ℕ
contents c = blocks c.chunks ++ take c.chunk_size c.chunk

abbrev pub IsWhole : Chunk → Type 0
IsWhole node = length (decompress_chunk node) ≡ 32

blocks-snoc :
    (nodes : List Chunk) (node : Chunk)
    → blocks (nodes ++ (node ∷ [])) ≡ blocks nodes ++ decompress_chunk node
unfolding blocks
blocks-snoc [] node = append-nil _
blocks-snoc (n ∷ ns) node =
    rw (blocks-snoc ns node)
      (sym (append_assoc (decompress_chunk n) (blocks ns) (decompress_chunk node)))

All-snoc :
    (nodes : List Chunk) (node : Chunk)
    → All IsWhole nodes
    → IsWhole node
    → All IsWhole (nodes ++ (node ∷ []))
All-snoc [] node h k = (k, tt)
All-snoc (n ∷ ns) node h k = (h.0, All-snoc ns node h.1 k)

-- Between two rounds of the loop: the chunk buffer has room, and all that came in is held.
pub record IsValid (c : Calldata) : Type 0 where
  pub chunk_length : length c.chunk ≡ 32
  pub room : c.chunk_size < 32
  pub whole : All IsWhole c.chunks
  pub counted : c.received_size ≡ length (contents c)

pub record SameFrame (c c' : Calldata) : Type 0 where
  pub same_expected : c'.expected_size ≡ c.expected_size
  pub same_selector : c'.selector ≡ c.selector

-- A full chunk buffer becomes a chunk; nothing is lost.
record IsFlushed (c : Calldata) (c' : Calldata) : Type 0 where
  frame : SameFrame c c'
  same_received : c'.received_size ≡ c.received_size
  same_contents : contents c' ≡ contents c
  chunk_length : length c'.chunk ≡ 32
  room : c'.chunk_size < 32
  whole : All IsWhole c'.chunks

stripped-IsWhole : (xs : List ℕ) → length xs ≡ 32 → IsWhole (stripped xs)
stripped-IsWhole xs h = rw (decompress_chunk-stripped xs h) h

-- The object that a successful `compress_chunk` leaves.
abbrev compressed : Calldata → Calldata
compressed c = record c { chunks = c.chunks ++ (stripped c.chunk ∷ []) }

compress_chunk_result :
    (c : Calldata) (heap : Heap)
    → (compress_chunk c heap).0 ≡ true
    → (compress_chunk c heap).1 ≡ compressed c
unfolding compress_chunk
compress_chunk_result c heap h = ground arith

compressed-IsFlushed :
    (c : Calldata)
    → length c.chunk ≡ 32
    → c.chunk_size ≡ 32
    → All IsWhole c.chunks
    → IsFlushed c (record (compressed c) { chunk_size = 0 })
unfolding contents
compressed-IsFlushed c len full whole = record {
  frame = record { same_expected = refl; same_selector = refl };
  same_received = refl;
  same_contents =
      append-nil _
      ∙ blocks-snoc c.chunks (stripped c.chunk)
      ∙ ap (λ (t : List ℕ). blocks c.chunks ++ t)
          (decompress_chunk-stripped c.chunk len
            ∙ sym (take-length_of c.chunk_size c.chunk (omega arith)));
  chunk_length = len;
  room = omega arith;
  whole = All-snoc c.chunks (stripped c.chunk) whole (stripped-IsWhole c.chunk len);
}

flush_full :
    (c : Calldata) (heap : Heap)
    → c.chunk_size ≡ 32
    → (flush c heap).0 ≡ true
    → (flush c heap).1 ≡ record (compressed c) { chunk_size = 0 }
unfolding flush
flush_full c heap full done = ground (arith, compress_chunk_result c heap)

flush_part : (c : Calldata) (heap : Heap) → c.chunk_size ≢ 32 → flush c heap ≡ (true, c, heap)
unfolding flush
flush_part c heap part = ground arith

flush-IsFlushed :
    (c : Calldata) (heap : Heap)
    → length c.chunk ≡ 32
    → c.chunk_size ≤ 32
    → All IsWhole c.chunks
    → (flush c heap).0 ≡ true
    → IsFlushed c (flush c heap).1
flush-IsFlushed c heap len le whole done = elim (ℕ_discrete c.chunk_size 32) [
  | yes full ↦ rw (flush_full c heap full done) (compressed-IsFlushed c len full whole)
  | no part ↦ rw (flush_part c heap part) (record {
    frame = record { same_expected = refl; same_selector = refl };
    same_received = refl;
    same_contents = refl;
    chunk_length = len;
    room = omega arith;
    whole = whole;
  })
]

fill-contents :
    (c : Calldata) (bytes : List ℕ)
    → c.chunk_size ≤ length c.chunk
    → contents (fill c bytes) ≡ contents c ++ bytes
unfolding contents fill
fill-contents c bytes h =
    ap (λ (t : List ℕ). blocks c.chunks ++ t) (take-copy_at c.chunk c.chunk_size bytes h)
    ∙ sym (append_assoc (blocks c.chunks) (take c.chunk_size c.chunk) bytes)

-- What the loop adds to a valid object when it succeeds.
pub record IsAppended (c : Calldata) (buffer : List ℕ) (c' : Calldata) : Type 0 where
  pub frame : SameFrame c c'
  pub valid : IsValid c'
  pub added : contents c' ≡ contents c ++ buffer

-- The bytes of one round.
abbrev pub round : Calldata → List ℕ → ℕ
round c buffer = min (length buffer) (32 - c.chunk_size)

-- The object after one successful round.
abbrev pub after_round : Calldata → List ℕ → Heap → Calldata
after_round c buffer heap =
    let c' = (flush (fill c (take (round c buffer) buffer)) heap).1 in
    record c' { received_size = c'.received_size + round c buffer }

pub after_round-IsAppended :
    (c : Calldata) (buffer : List ℕ) (heap : Heap)
    → IsValid c
    → (flush (fill c (take (round c buffer) buffer)) heap).0 ≡ true
    → IsAppended c (take (round c buffer) buffer) (after_round c buffer heap)
unfolding fill
after_round-IsAppended c buffer heap v done =
    let n : ℕ = round c buffer in
    let taken : List ℕ = take n buffer in
    let size : length taken ≡ n = omega (arith, length-take n buffer) in
    let f : IsFlushed (fill c taken) (flush (fill c taken) heap).1 =
      flush-IsFlushed (fill c taken) heap
        (length-copy_at c.chunk c.chunk_size taken (omega arith) ∙ v.chunk_length) (omega arith)
        v.whole done in
    let held : contents (flush (fill c taken) heap).1 ≡ contents c ++ taken =
      f.same_contents ∙ fill-contents c taken (omega arith) in
    record {
      frame = record {
        same_expected = f.frame.same_expected;
        same_selector = f.frame.same_selector;
      };
      valid = record {
        chunk_length = f.chunk_length;
        room = f.room;
        whole = f.whole;
        counted =
            unfold contents in
            omega (arith, ap length held, length-append (contents c) taken, f.same_received);
      };
      added = unfold contents in held;
    }

append_loop_step :
    (fuel : ℕ) (c : Calldata) (x : ℕ) (xs : List ℕ) (heap : Heap)
    → (append_loop (suc fuel) c (x ∷ xs) heap).0 ≡ true
    → let buffer = x ∷ xs in
      let flushed = flush (fill c (take (round c buffer) buffer)) heap in
      (flushed.0 ≡ true)
      × (append_loop (suc fuel) c (x ∷ xs) heap
          ≡ append_loop fuel (after_round c buffer heap) (drop (round c buffer) buffer) flushed.2)
unfolding append_loop
append_loop_step fuel c x xs heap done = ground arith

pub IsAppended-refl : (c : Calldata) → IsValid c → IsAppended c [] c
IsAppended-refl c v = record {
  frame = record { same_expected = refl; same_selector = refl };
  valid = v;
  added = sym (append-nil _);
}

pub IsAppended-trans :
    (c : Calldata) (xs ys : List ℕ) {c' c'' : Calldata}
    → IsAppended c xs c'
    → IsAppended c' ys c''
    → IsAppended c (xs ++ ys) c''
IsAppended-trans c xs ys one rest = record {
  frame = record {
    same_expected = rest.frame.same_expected ∙ one.frame.same_expected;
    same_selector = rest.frame.same_selector ∙ one.frame.same_selector;
  };
  valid = rest.valid;
  added = rest.added ∙ ap (λ (t : List ℕ). t ++ ys) one.added ∙ append_assoc (contents c) xs ys;
}

append_loop-IsAppended :
    (fuel : ℕ) (c : Calldata) (buffer : List ℕ) (heap : Heap)
    → IsValid c
    → (append_loop fuel c buffer heap).0 ≡ true
    → IsAppended c buffer (append_loop fuel c buffer heap).1
append_loop-IsAppended fuel c [] heap v done = unfold append_loop in IsAppended-refl c v
append_loop-IsAppended zero c (x ∷ xs) heap v done = unfold append_loop in cc
append_loop-IsAppended (suc fuel) c (x ∷ xs) heap v done =
    let buffer : List ℕ = x ∷ xs in
    let n : ℕ = round c buffer in
    let (flushed, step) = append_loop_step fuel c x xs heap done in
    let one = after_round-IsAppended c buffer heap v flushed in
    let rest =
      append_loop-IsAppended fuel (after_round c buffer heap) (drop n buffer)
        (flush (fill c (take n buffer)) heap).2 one.valid (rw step at done) in
    rw step (
      subst
        (λ t.
          IsAppended c t
            (append_loop fuel (after_round c buffer heap) (drop n buffer)
              (flush (fill c (take n buffer)) heap).2).1)
        (take-append-drop n buffer) (IsAppended-trans c (take n buffer) (drop n buffer) one rest))

append_bytes_inv :
    (c : Calldata) (buffer : List ℕ) (heap : Heap)
    → (append_bytes c buffer heap).0 ≡ true
    → (c.received_size + length buffer ≤ c.expected_size)
      × (append_bytes c buffer heap ≡ append_loop (length buffer) c buffer heap)
unfolding append_bytes
append_bytes_inv c buffer heap done = ground arith

-- On a valid object a call that succeeds leaves a valid object that holds the bytes of before
-- and then those of `buffer`, all within the expected size.
pub append_bytes-IsAppended :
    (c : Calldata) (buffer : List ℕ) (heap : Heap)
    → IsValid c
    → (append_bytes c buffer heap).0 ≡ true
    → IsAppended c buffer (append_bytes c buffer heap).1
      × (length (contents c) + length buffer ≤ c.expected_size)
append_bytes-IsAppended c buffer heap v done =
    let (fits, e) = append_bytes_inv c buffer heap done in
    (rw e (append_loop-IsAppended (length buffer) c buffer heap v (rw e at done)), omega arith)
