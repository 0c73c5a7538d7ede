-- ===== src/Tlv.antt =====
-- src/tlv_apdu.c: a TLV payload that comes in several commands, put together for its handler.
-- A handler's pointer is a number, `none` is NULL; `run` calls it on a payload, in the world `W` of
-- what the handlers keep. `read_u16_be` is the SDK's.
pub mod Reassembly
pub mod Session
mod Tests
use ledger_ambire_signer.Base.{
  ℕ, ◌+◌, ◌%◌, ◌^◌, Bool, true, false, Option, none, some, List, [], ◌∷◌, length, take, drop,
  replicate, ltb, ◌==◌, if◌then◌else◌,
}
use ledger_ambire_signer.Base.Memory.{Heap, alloc, copy_at}

pub data TlvRet : Type 0 where
  error pending success : TlvRet

-- g_tlv
pub record Tlv : Type 0 where
  pub payload : Option (List ℕ)
  pub size : ℕ
  pub pos : ℕ
  pub handler : Option ℕ

-- reset_state
abbrev pub reset_state : Tlv
reset_state = record { payload = none; size = 0; pos = 0; handler = none }

abbrev pub answer : Bool → TlvRet
answer true = TlvRet.success
answer false = TlvRet.error

module _ {W : Type 0} (run : ℕ → List ℕ → W → Bool × W) (read_u16_be : List ℕ → ℕ → ℕ) where
  -- The second half, from the test for a zero length on; `chunk` is the data behind the offset.
  unfoldable pub take_chunk : ℕ → List ℕ → Tlv → W → TlvRet × Tlv × W
  take_chunk h chunk t w =
      let pos = (t.pos + length chunk) % 2 ^ 16 in
      let kept : Option (List ℕ) = elim t.payload [
        | none ↦ none
        | some b ↦ some (copy_at b t.pos chunk)
      ] in
      let whole : List ℕ = elim kept [ none ↦ take t.size chunk | some b ↦ take t.size b ] in
      let (ok, w') = run h whole w in
      if t.size == 0
      then (TlvRet.error, reset_state, w)
      else if ltb t.size (t.pos + length chunk)
      then (TlvRet.error, reset_state, w)
      else if pos == t.size
      then (answer ok, reset_state, w')
      else (TlvRet.pending, record t { payload = kept; pos = pos }, w)

  -- A first chunk, behind the test for remnants: the size, and a buffer if more chunks are to come.
  unfoldable pub first_chunk : ℕ → List ℕ → Tlv → Heap → W → TlvRet × Tlv × Heap × W
  first_chunk h bytes t heap w =
      let size = read_u16_be bytes 0 in
      let chunk = drop 2 bytes in
      let (got, heap') = alloc heap in
      let buffered =
        take_chunk h chunk
          (record { payload = some (replicate size 0); size = size; pos = 0; handler = some h })
          w in
      let direct =
        take_chunk h chunk (record { payload = t.payload; size = size; pos = 0; handler = some h })
          w in
      if ltb (length bytes) 2
      then (TlvRet.error, t, heap, w)
      else if ltb (length chunk) size
      then (if got
          then (buffered.0, buffered.1, heap', buffered.2)
          else (TlvRet.error, reset_state, heap', w))
      else (direct.0, direct.1, heap, direct.2)

  -- `bytes` is the payload of `lc` bytes.
  unfoldable pub tlv_from_apdu :
      Bool → Option (List ℕ) → Option ℕ → Tlv → Heap → W → TlvRet × Tlv × Heap × W
  tlv_from_apdu first none handler t heap w = (TlvRet.error, reset_state, heap, w)
  tlv_from_apdu first (some bytes) none t heap w = (TlvRet.error, reset_state, heap, w)
  tlv_from_apdu true (some bytes) (some h) t heap w = elim t.payload [
    | some b ↦ (TlvRet.error, reset_state, heap, w)
    | none ↦ first_chunk h bytes t heap w
  ]
  tlv_from_apdu false (some bytes) (some h) t heap w =
      let next = take_chunk h bytes t w in
      elim t.handler [
        | none ↦ (TlvRet.error, reset_state, heap, w)
        | some k ↦
            if k == h then (next.0, next.1, heap, next.2) else (TlvRet.error, reset_state, heap, w)
      ]
