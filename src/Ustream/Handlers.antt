-- ===== src/Ustream/Handlers.antt =====
-- Each handler of a field keeps the invariant and makes progress.
use ledger_ambire_signer.Base.{
  [], ◌∷◌, get_elem?, Option-cases, ℕ, zero, suc, ◌+◌, ◌≤◌, ◌<◌, ◌≡◌, refl, sym, ◌∙◌, Bool, true,
  false, Option, some, none, List, length, if◌then◌else◌, arith, Bool-cases, inl, inr,
}
use native.Mathlib.Decide.{dec_lt}
use ledger_ambire_signer.Base.Memory.{Heap}
use ledger_ambire_signer.Calldata.{Calldata}
use ledger_ambire_signer.Ustream.State.{Context, Host, Step}
use ledger_ambire_signer.Ustream.Fields.{
  Dest, nowhere, to_nonce, to_startgas, to_gasprice, to_value, to_chain_id, to_destination, to_v,
  set_length, copy_tx_data, take_field, finish_field, store, copy_size, process_content,
  process_list, process_number, process_to, process_v, process_and_discard, process_data,
  store_data, keep_selector,
}
use ledger_ambire_signer.Ustream.Invariant.{IsInField}
use ledger_ambire_signer.Ustream.Copies.{Fits, Fits-le, copied, copy_tx_data_result}
use ledger_ambire_signer.Ustream.{Field, fields_of, process_field, process_tx_field}
use ledger_ambire_signer.Ustream.Taking.{
  IsHandled, finished-IsHandled, take_field-IsHandled, done-IsHandled, copied-IsHandled,
}

-- What a handler's `true` says.
process_content_inv :
    (c : Context)
    → (process_content c).0 ≡ true
    → (c.current_field_is_list ≡ true)
      × ((process_content c).1 ≡ record c {
        data_length = c.current_field_length;
        current_field = c.current_field + 1;
        processing_field = false;
      })
unfolding process_content
process_content_inv c h = ground arith

process_list_inv :
    (host : Host) (c : Context)
    → (process_list host c).0 ≡ true
    → process_list host c ≡ take_field host nowhere none c
unfolding process_list
process_list_inv host c h = ground arith

process_number_inv :
    (host : Host) (dest : Dest) (bound : ℕ) (c : Context)
    → 0 < bound
    → (process_number host dest bound c).0 ≡ true
    → (c.current_field_length ≤ bound)
      × (process_number host dest bound c ≡ take_field host dest none c)
unfolding process_number
process_number_inv host dest bound c some_bound h = ground arith

process_to_inv :
    (host : Host) (c : Context)
    → (process_to host c).0 ≡ true
    → (c.current_field_length ≤ 20) × (process_to host c ≡ take_field host to_destination none c)
unfolding process_to
process_to_inv host c h = ground arith

process_v_inv :
    (host : Host) (c : Context)
    → 0 < host.v_size
    → (process_v host c).0 ≡ true
    → (c.current_field_length ≤ host.v_size)
      × (process_v host c ≡ take_field host to_v (some host.v_size) c)
unfolding process_v
process_v_inv host c some_v h = ground arith

process_and_discard_inv :
    (host : Host) (c : Context)
    → (process_and_discard host c).0 ≡ true
    → process_and_discard host c ≡ take_field host nowhere none c
unfolding process_and_discard
process_and_discard_inv host c h = ground arith

-- What `process_data` does before it takes the bytes.
abbrev keep_data : Context → ℕ → Step
keep_data c n =
    if c.store_calldata then store_data (keep_selector c n) n else (true, keep_selector c n)

-- It leaves the parser's own fields alone.
keep_data_lem :
    (c : Context) (n : ℕ)
    → (keep_data c n).1 ≡ record c {
      selector_bytes = (keep_data c n).1.selector_bytes;
      parked = (keep_data c n).1.parked;
      heap = (keep_data c n).1.heap;
    }
unfolding store_data keep_selector
keep_data_lem c n = ground arith

process_data_inv :
    (host : Host) (c : Context)
    → (process_data host c).0 ≡ true
    → c.current_field_pos < c.current_field_length
    → let n = copy_size c in
      let taken = copy_tx_data host (keep_data c n).1 nowhere 0 n in
      (taken.0 ≡ true) × ((process_data host c).1 ≡ finish_field nowhere taken.1)
unfolding process_data
process_data_inv host c h lt = ground arith

process_data_done :
    (host : Host) (c : Context)
    → (process_data host c).0 ≡ true
    → c.current_field_length ≤ c.current_field_pos
    → (process_data host c).1 ≡ finish_field nowhere c
unfolding process_data
process_data_done host c h le = ground arith

process_tx_field_inv :
    (host : Host) (c : Context)
    → (process_tx_field host c).0 ≡ true
    → (field : Field) × (get_elem? (fields_of c.tx_type) c.current_field ≡ some field)
      × (process_tx_field host c ≡ process_field host field c)
unfolding process_tx_field
process_tx_field_inv host c h =
    elim (Option-cases (get_elem? (fields_of c.tx_type) c.current_field)) [
      | inl e ↦ absurd (no_field host c e h)
      | inr (field, e) ↦ (field, e, rw (e, process_tx_field))
    ]
  where
    no_field :
        (host : Host) (c : Context)
        → get_elem? (fields_of c.tx_type) c.current_field ≡ none
        → (process_tx_field host c).0 ≡ true
        → ⊥
    no_field host c e h = ground arith

get_elem?-lt {ℓ} :
    {A : Type ℓ} (xs : List A) (i : ℕ) {a : A} → get_elem? xs i ≡ some a → i < length xs
get_elem?-lt [] i e = cc
get_elem?-lt (x ∷ xs) zero e = omega arith
get_elem?-lt (x ∷ xs) (suc i) e = omega (arith, get_elem?-lt xs i e)

module _ (host : Host) (before payload : List ℕ) where
  process_content-IsHandled :
      (c : Context)
      → IsInField host before payload c
      → (process_content c).0 ≡ true
      → IsHandled host before payload c (process_content c).1
  process_content-IsHandled c v h =
      let (list, e) = process_content_inv c h in
      elim (Bool-cases c.field_single_byte) [
        | inl s ↦
            let (start, one, string, some_left) = v.single s in
            let clash : ◌≡◌ {A = Bool} true false = sym list ∙ string in cc clash
        | inr s ↦
            let z : c.work_pos + 0 ≡ c.work_pos = omega arith in
            rw e (
              unfold set_length in
              finished-IsHandled host before payload nowhere c
                (record c { data_length = c.current_field_length }) v.sizes v.rlp_size v.rlp_empty
                v.same_payload v.left (rw (s, z) at v.all_hashed) refl refl)
      ]

  process_list-IsHandled :
      (c : Context)
      → IsInField host before payload c
      → (process_list host c).0 ≡ true
      → IsHandled host before payload c (process_list host c).1
  process_list-IsHandled c v h =
      let e = process_list_inv host c h in
      rw e (take_field-IsHandled host before payload nowhere none c v tt refl (rw e at h))

  process_number-IsHandled :
      (dest : Dest) (bound : ℕ) (c : Context)
      → IsInField host before payload c
      → 0 < bound
      → Fits host dest bound
      → (process_number host dest bound c).0 ≡ true
      → IsHandled host before payload c (process_number host dest bound c).1
  process_number-IsHandled dest bound c v some_bound fits h =
      let (le, e) = process_number_inv host dest bound c some_bound h in
      rw e (
        take_field-IsHandled host before payload dest none c v (Fits-le host dest le fits) refl
          (rw e at h))

  process_to-IsHandled :
      (c : Context)
      → IsInField host before payload c
      → (process_to host c).0 ≡ true
      → IsHandled host before payload c (process_to host c).1
  process_to-IsHandled c v h =
      let (le, e) = process_to_inv host c h in
      rw e (take_field-IsHandled host before payload to_destination none c v le refl (rw e at h))

  process_v-IsHandled :
      (c : Context)
      → 0 < host.v_size
      → IsInField host before payload c
      → (process_v host c).0 ≡ true
      → IsHandled host before payload c (process_v host c).1
  process_v-IsHandled c some_v v h =
      let (le, e) = process_v_inv host c some_v h in
      rw e (
        take_field-IsHandled host before payload to_v (some host.v_size) c v le (omega arith)
          (rw e at h))

  process_and_discard-IsHandled :
      (c : Context)
      → IsInField host before payload c
      → (process_and_discard host c).0 ≡ true
      → IsHandled host before payload c (process_and_discard host c).1
  process_and_discard-IsHandled c v h =
      let e = process_and_discard_inv host c h in
      rw e (take_field-IsHandled host before payload nowhere none c v tt refl (rw e at h))

  -- The invariant does not speak of the calldata.
  IsInField-data :
      (c : Context) {bytes : List ℕ} {parked : Option Calldata} {heap : Heap}
      → IsInField host before payload c
      → IsInField host before payload
          (record c { selector_bytes = bytes; parked = parked; heap = heap })
  IsInField-data c v = record {
    sizes = v.sizes;
    rlp_size = v.rlp_size;
    rlp_empty = v.rlp_empty;
    same_payload = v.same_payload;
    left = v.left;
    all_hashed = v.all_hashed;
    processing = v.processing;
    in_field = v.in_field;
    single = v.single;
  }

  data_taken-IsHandled :
      (c c₁ : Context) {bytes : List ℕ} {parked : Option Calldata} {heap : Heap}
      → c₁ ≡ record c { selector_bytes = bytes; parked = parked; heap = heap }
      → IsInField host before payload c
      → c.current_field_pos < c.current_field_length
      → copy_size c ≤ c₁.command_length
      → IsHandled host before payload c (finish_field nowhere (copied c₁ nowhere 0 (copy_size c)))
  unfolding store
  data_taken-IsHandled c c₁ {bytes} {parked} {heap} e v lt le =
      let c₂ : Context = record c { selector_bytes = bytes; parked = parked; heap = heap } in
      let handled =
        copied-IsHandled host before payload nowhere c₂ (IsInField-data c v) tt lt (rw e at le) in
      rw e (record {
        between = handled.between;
        progress = record {
          same_type = handled.progress.same_type;
          moved = handled.progress.moved;
        };
      })

  process_data-IsHandled :
      (c : Context)
      → IsInField host before payload c
      → (process_data host c).0 ≡ true
      → IsHandled host before payload c (process_data host c).1
  process_data-IsHandled c v h = elim (dec_lt c.current_field_pos c.current_field_length) [
    | no ge ↦
        rw (process_data_done host c h (omega arith))
          (done-IsHandled host before payload nowhere c v (omega arith))
    | yes lt ↦
        let n : ℕ = copy_size c in
        let (ok, e) = process_data_inv host c h lt in
        let (le, taken) = copy_tx_data_result host (keep_data c n).1 nowhere 0 n ok in
        rw (e, taken) (data_taken-IsHandled c (keep_data c n).1 (keep_data_lem c n) v lt le)
  ]

  -- The handler of any field, where it answers `true`.
  pub process_field-IsHandled :
      (field : Field) (c : Context)
      → 0 < host.v_size
      → IsInField host before payload c
      → (process_field host field c).0 ≡ true
      → IsHandled host before payload c (process_field host field c).1
  unfolding process_field
  process_field-IsHandled Field.rlp_none c some_v v h = cc
  process_field-IsHandled Field.content c some_v v h = process_content-IsHandled c v h
  process_field-IsHandled Field.chain_id c some_v v h =
      process_number-IsHandled to_chain_id 8 c v (omega arith) (omega arith) h
  process_field-IsHandled Field.nonce c some_v v h =
      process_number-IsHandled to_nonce 32 c v (omega arith) (omega arith) h
  process_field-IsHandled Field.gasprice c some_v v h =
      process_number-IsHandled to_gasprice 32 c v (omega arith) (omega arith) h
  process_field-IsHandled Field.gas_limit c some_v v h =
      process_number-IsHandled to_startgas 32 c v (omega arith) (omega arith) h
  process_field-IsHandled Field.to c some_v v h = process_to-IsHandled c v h
  process_field-IsHandled Field.value c some_v v h =
      process_number-IsHandled to_value 32 c v (omega arith) (omega arith) h
  process_field-IsHandled Field.calldata c some_v v h = process_data-IsHandled c v h
  process_field-IsHandled Field.access_list c some_v v h = process_list-IsHandled c v h
  process_field-IsHandled Field.auth_list c some_v v h = process_list-IsHandled c v h
  process_field-IsHandled Field.discarded c some_v v h = process_and_discard-IsHandled c v h
  process_field-IsHandled Field.v c some_v v h = process_v-IsHandled c some_v v h

  pub process_tx_field-IsHandled :
      (c : Context)
      → 0 < host.v_size
      → IsInField host before payload c
      → (process_tx_field host c).0 ≡ true
      → (c.current_field < length (fields_of c.tx_type))
        × IsHandled host before payload c (process_tx_field host c).1
  process_tx_field-IsHandled c some_v v h =
      let (field, found, e) = process_tx_field_inv host c h in
      (
        get_elem?-lt (fields_of c.tx_type) c.current_field found,
        rw e (process_field-IsHandled field c some_v v (rw e at h)),
      )
