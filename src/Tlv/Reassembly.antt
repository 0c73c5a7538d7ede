-- ===== src/Tlv/Reassembly.antt =====
-- The abstract view of the reassembly, which keeps no buffer and no position, and the theorem that
-- `tlv_from_apdu` implements it.
use mathlib.Core.Path.{subst}
use native.Mathlib.Nat.{mod-eq_of_lt}
use ledger_ambire_signer.Base.{
  ℕ, ◌+◌, ◌%◌, ◌^◌, ◌≤◌, ◌<◌, ◌≡◌, refl, sym, ap, ◌∙◌, arith, Bool, true, false, ◌||◌, Option, none,
  some, List, [], ◌++◌, length, take, drop, replicate, ltb, ◌==◌, if◌then◌else◌, length-append,
  length-replicate, Bool-cases, inl, inr,
}
use ledger_ambire_signer.Base.Memory.{
  Heap, alloc, copy_at, take-copy_at, take-length_of, length-copy_at,
}
use ledger_ambire_signer.Tlv.{
  TlvRet, Tlv, reset_state, answer, take_chunk, first_chunk, tlv_from_apdu,
}

-- Between two commands: nothing is under way, or a payload of `size` bytes for a handler is, of
-- which some bytes are there.
pub data Reassembly : Type 0 where
  waiting : Reassembly
  receiving : ℕ → ℕ → List ℕ → Reassembly

-- The state while a payload is under way: the buffer has the payload's size, the position counts
-- the bytes received, and they stand at the buffer's front.
pub record IsReceiving (h size : ℕ) (received : List ℕ) (t : Tlv) : Type 0 where
  pub buffer : List ℕ
  pub state :
      t ≡ record { payload = some buffer; size = size; pos = length received; handler = some h }
  pub buffer_size : length buffer ≡ size
  pub front : take (length received) buffer ≡ received
  pub incomplete : length received < size
  pub bounded : size < 2 ^ 16

abbrev pub Represents : Reassembly → Tlv → Type 0
Represents waiting t = t ≡ reset_state
Represents (receiving h size received) t = IsReceiving h size received t

module _ {W : Type 0} (run : ℕ → List ℕ → W → Bool × W) where
  -- More bytes: too many are refused, all of them go to the handler at once, in one piece.
  unfoldable pub add_bytes : ℕ → ℕ → List ℕ → W → TlvRet × Reassembly × W
  add_bytes h size received w =
      let (ok, w') = run h received w in
      if size == 0 || ltb size (length received)
      then (TlvRet.error, waiting, w)
      else if length received == size
      then (answer ok, waiting, w')
      else (TlvRet.pending, receiving h size received, w)

  unfoldable pub start_payload : ℕ → ℕ → List ℕ → Heap → W → TlvRet × Reassembly × Heap × W
  start_payload h size chunk heap w =
      let (got, heap') = alloc heap in
      let (ret, a, w') = add_bytes h size chunk w in
      if ltb (length chunk) size
      then (if got then (ret, a, heap', w') else (TlvRet.error, waiting, heap', w))
      else (ret, a, heap, w')

  -- One command, by what it is given and what is under way.
  unfoldable pub reassemble :
      (List ℕ → ℕ → ℕ)
      → Bool
      → Option (List ℕ)
      → Option ℕ
      → Reassembly
      → Heap
      → W
      → TlvRet × Reassembly × Heap × W
  reassemble read first none handler a heap w = (TlvRet.error, waiting, heap, w)
  reassemble read first (some bytes) none a heap w = (TlvRet.error, waiting, heap, w)
  reassemble read true (some bytes) (some h) waiting heap w =
      if ltb (length bytes) 2
      then (TlvRet.error, waiting, heap, w)
      else start_payload h (read bytes 0) (drop 2 bytes) heap w
  reassemble read true (some bytes) (some h) (receiving k size received) heap w =
      (TlvRet.error, waiting, heap, w)
  reassemble read false (some bytes) (some h) waiting heap w = (TlvRet.error, waiting, heap, w)
  reassemble read false (some bytes) (some h) (receiving k size received) heap w =
      let (ret, a, w') = add_bytes h size (received ++ bytes) w in
      if k == h then (ret, a, heap, w') else (TlvRet.error, waiting, heap, w)

module _ {W : Type 0} (run : ℕ → List ℕ → W → Bool × W) (read : List ℕ → ℕ → ℕ) where
  abbrev Matches : TlvRet × Tlv × W → TlvRet × Reassembly × W → Type 0
  Matches (ret, t, w) (ret', a, w') = (ret ≡ ret') × (w ≡ w') × Represents a t

  -- The buffer after the chunk went in.
  kept_front :
      (received chunk buffer : List ℕ)
      → take (length received) buffer ≡ received
      → length received ≤ length buffer
      → take (length received + length chunk) (copy_at buffer (length received) chunk)
        ≡ received ++ chunk
  kept_front received chunk buffer front room =
      take-copy_at buffer (length received) chunk room ∙ ap (λ (t : List ℕ). t ++ chunk) front

  take_chunk-in_buffer :
      (h size : ℕ) (received chunk buffer : List ℕ) (w : W)
      → length buffer ≡ size
      → take (length received) buffer ≡ received
      → length received < size
      → size < 2 ^ 16
      → Matches
          (take_chunk run read h chunk
            (record { payload = some buffer; size = size; pos = length received; handler = some h })
            w)
          (add_bytes run h size (received ++ chunk) w)
  unfolding take_chunk add_bytes
  take_chunk-in_buffer h size received chunk buffer w len front lt small =
      let n : ℕ = length received + length chunk in
      let sum : length (received ++ chunk) ≡ n = length-append received chunk in
      let some_size : (size == 0) ≡ false = ground arith in
      let kept = kept_front received chunk buffer front (omega arith) in
      rw sum (elim (Bool-cases (ltb size n)) [
        | inl more ↦ ground arith
        | inr fits ↦
            let wrap : n % 2 ^ 16 ≡ n = mod-eq_of_lt (ground arith) in
            elim (Bool-cases (n == size)) [
              | inl full ↦
                  let same : n ≡ size = ground arith in
                  let whole : take size (copy_at buffer (length received) chunk)
                      ≡ received ++ chunk =
                    subst (λ k. take k (copy_at buffer (length received) chunk) ≡ received ++ chunk)
                      same kept in
                  rw (some_size, fits, wrap, full, whole) (refl, refl, refl)
              | inr partial ↦
                  rw (some_size, fits, wrap, partial)
                    (
                      refl,
                      refl,
                      record {
                        buffer = copy_at buffer (length received) chunk;
                        state = rw sum refl;
                        buffer_size =
                            length-copy_at buffer (length received) chunk (ground arith) ∙ len;
                        front = rw sum kept;
                        incomplete = ground arith;
                        bounded = small;
                      },
                    )
            ]
      ])

  take_chunk-buffered :
      (h size : ℕ) (received chunk : List ℕ) (t : Tlv) (w : W)
      → IsReceiving h size received t
      → Matches (take_chunk run read h chunk t w) (add_bytes run h size (received ++ chunk) w)
  take_chunk-buffered h size received chunk t w v = rw v.state (
      take_chunk-in_buffer h size received chunk v.buffer w v.buffer_size v.front v.incomplete
        v.bounded)

  take_chunk-direct :
      (h size : ℕ) (chunk : List ℕ) (w : W)
      → size ≤ length chunk
      → size < 2 ^ 16
      → Matches
          (take_chunk run read h chunk
            (record { payload = none; size = size; pos = 0; handler = some h })
            w)
          (add_bytes run h size chunk w)
  unfolding take_chunk add_bytes
  take_chunk-direct h size chunk w le small = elim (Bool-cases (size == 0)) [
    | inl e ↦ ground arith
    | inr some_size ↦ elim (Bool-cases (ltb size (length chunk))) [
      | inl more ↦ ground arith
      | inr fits ↦
          let same : length chunk ≡ size = ground arith in
          let wrap : size % 2 ^ 16 ≡ size = mod-eq_of_lt small in
          let whole : take size chunk ≡ chunk = take-length_of size chunk (omega arith) in
          let one : 0 + length chunk ≡ size = omega arith in
          let all : (size == size) ≡ true = ground arith in
          let no_more : ltb size size ≡ false = ground arith in
          rw (some_size, one, same, no_more, wrap, whole, all) (refl, refl, refl)
    ]
  ]

  -- What the two answers to one command have in common: the returned value, the world, the
  -- allocations, and states that represent each other.
  unfoldable pub Refines : TlvRet × Tlv × Heap × W → TlvRet × Reassembly × Heap × W → Type 0
  Refines (ret, t, heap, w) (ret', a, heap', w') =
      (ret ≡ ret') × (heap ≡ heap') × (w ≡ w') × Represents a t

  first_chunk-Refines :
      (h : ℕ) (bytes : List ℕ) (heap : Heap) (w : W)
      → read bytes 0 < 2 ^ 16
      → ltb (length bytes) 2 ≡ false
      → Refines
          (first_chunk run read h bytes reset_state heap w)
          (start_payload run h (read bytes 0) (drop 2 bytes) heap w)
  unfolding first_chunk start_payload Refines
  first_chunk-Refines h bytes heap w small long =
      elim (Bool-cases (ltb (length (drop 2 bytes)) (read bytes 0))) [
        | inl more ↦ elim (Bool-cases (alloc heap).0) [
          | inl got ↦
              let (r, e, v) =
                take_chunk-buffered h (read bytes 0) [] (drop 2 bytes)
                  (record {
                    payload = some (replicate (read bytes 0) 0);
                    size = read bytes 0;
                    pos = 0;
                    handler = some h;
                  })
                  w
                  (record {
                    buffer = replicate (read bytes 0) 0;
                    state = refl;
                    buffer_size = length-replicate (read bytes 0) 0;
                    front = refl;
                    incomplete = ground arith;
                    bounded = small;
                  }) in
              rw (long, more, got) (r, refl, e, v)
          | inr failed ↦ rw (long, more, failed) (refl, refl, refl, refl)
        ]
        | inr whole ↦
            let (r, e, v) =
              take_chunk-direct h (read bytes 0) (drop 2 bytes) w (ground arith) small in
            rw (long, whole) (r, refl, e, v)
      ]

  next_chunk-Refines :
      (h : ℕ) (bytes : List ℕ) (t : Tlv) (size : ℕ) (received : List ℕ) (heap : Heap) (w : W)
      → IsReceiving h size received t
      → Refines
          (tlv_from_apdu run read false (some bytes) (some h) t heap w)
          (reassemble run read false (some bytes) (some h) (receiving h size received) heap w)
  unfolding tlv_from_apdu reassemble Refines
  next_chunk-Refines h bytes t size received heap w v =
      let same : (h == h) ≡ true = ground arith in
      let (r, e, v') =
        take_chunk-in_buffer h size received bytes v.buffer w v.buffer_size v.front v.incomplete
          v.bounded in
      rw (v.state, same) (r, refl, e, v')

  -- Where the SDK reads 16-bit sizes, every command (whatever its chunk flag, payload, handler
  -- and allocations) in a state that represents an abstract one answers, calls the handlers
  -- and allocates as the abstract view does, and leaves a state that represents the abstract
  -- one left.
  pub tlv_from_apdu-Refines :
      (first : Bool) (payload : Option (List ℕ)) (handler : Option ℕ) (t : Tlv) (a : Reassembly)
      (heap : Heap) (w : W)
      → ((bytes : List ℕ) → read bytes 0 < 2 ^ 16)
      → Represents a t
      → Refines
          (tlv_from_apdu run read first payload handler t heap w)
          (reassemble run read first payload handler a heap w)
  unfolding tlv_from_apdu reassemble Refines
  tlv_from_apdu-Refines first none handler t a heap w small v = (refl, refl, refl, refl)
  tlv_from_apdu-Refines first (some bytes) none t a heap w small v = (refl, refl, refl, refl)
  tlv_from_apdu-Refines true (some bytes) (some h) t waiting heap w small v =
      rw v (elim (Bool-cases (ltb (length bytes) 2)) [
        | inl short ↦ unfold first_chunk in rw short (refl, refl, refl, refl)
        | inr long ↦ rw long (first_chunk-Refines h bytes heap w (small bytes) long)
      ])
  tlv_from_apdu-Refines true (some bytes) (some h) t (receiving k size received) heap w small v =
      rw v.state (refl, refl, refl, refl)
  tlv_from_apdu-Refines false (some bytes) (some h) t waiting heap w small v =
      rw v (refl, refl, refl, refl)
  tlv_from_apdu-Refines false (some bytes) (some h) t (receiving k size received) heap w small v =
      elim (Bool-cases (k == h)) [
        | inl e ↦
            let same : k ≡ h = ground arith in
            subst
              (λ x. Refines (tlv_from_apdu run read false (some bytes) (some h) t heap w) (
                reassemble run read false (some bytes) (some h) (receiving x size received) heap w))
              (sym same)
              (next_chunk-Refines h bytes t size received heap w
                (subst (λ x. IsReceiving x size received t) same v))
        | inr e ↦ rw (v.state, e) (refl, refl, refl, refl)
      ]
