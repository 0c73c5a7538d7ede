-- ===== src/Ustream/Copies.antt =====
-- The handlers of the fields keep the invariant.
use mathlib.Core.List.{append_assoc}
use ledger_ambire_signer.Base.{
  ℕ, ◌+◌, ◌-◌, ◌≤◌, ◌<◌, ◌≡◌, refl, true, Option, List, ◌++◌, length, take, drop, if◌then◌else◌,
  arith, Bool-cases, inl, inr, length-take,
}
use ledger_ambire_signer.Base.Memory.{length-copy_at, take-add}
use ledger_ambire_signer.Ustream.State.{Context, Content, Host}
use ledger_ambire_signer.Ustream.Fields.{
  Dest, nowhere, to_nonce, to_startgas, to_gasprice, to_value, to_chain_id, to_destination, to_v,
  to_token_data, store, set_length, copy_tx_data, take_field, finish_field, work_bytes, is_hashed,
  copy_size, capped,
}
use ledger_ambire_signer.Ustream.Invariant.{HasSizes, IsInField}

-- The bytes fit the buffer that they go to.
abbrev pub Fits : Host → Dest → ℕ → Type 0
Fits host nowhere n = Unit
Fits host to_destination n = n ≤ 20
Fits host to_v n = n ≤ host.v_size
Fits host dest n = n ≤ 32

pub Fits-le : (host : Host) (dest : Dest) {m n : ℕ} → m ≤ n → Fits host dest n → Fits host dest m
Fits-le host nowhere le f = tt
Fits-le host dest le f = omega arith

pub store-HasSizes :
    (host : Host) (dest : Dest) (pos : ℕ) (bytes : List ℕ) (c : Content)
    → Fits host dest (pos + length bytes)
    → HasSizes host c
    → HasSizes host (store dest pos bytes c)
unfolding store
store-HasSizes host nowhere pos bytes c f h = h
store-HasSizes host to_nonce pos bytes c f h =
    ground (arith, length-copy_at c.nonce.value pos bytes)
store-HasSizes host to_startgas pos bytes c f h =
    ground (arith, length-copy_at c.startgas.value pos bytes)
store-HasSizes host to_gasprice pos bytes c f h =
    ground (arith, length-copy_at c.gasprice.value pos bytes)
store-HasSizes host to_value pos bytes c f h =
    ground (arith, length-copy_at c.value.value pos bytes)
store-HasSizes host to_chain_id pos bytes c f h =
    ground (arith, length-copy_at c.chain_id.value pos bytes)
store-HasSizes host to_destination pos bytes c f h =
    ground (arith, length-copy_at c.destination pos bytes)
store-HasSizes host to_v pos bytes c f h = ground (arith, length-copy_at c.v pos bytes)
store-HasSizes host to_token_data pos bytes c f h =
    ground (arith, length-copy_at c.token.data_bytes pos bytes)

pub set_length-HasSizes :
    (host : Host) (dest : Dest) (n : ℕ) (c : Content)
    → HasSizes host c
    → HasSizes host (set_length dest n c)
unfolding set_length
set_length-HasSizes host nowhere n c h = h
set_length-HasSizes host to_token_data n c h = h
set_length-HasSizes host dest n c h = ground arith

-- The state that a successful `copy_tx_data` leaves.
abbrev pub copied : Context → Dest → ℕ → ℕ → Context
copied c dest at n = record c {
  content = store dest at (work_bytes c n) c.content;
  hashed = if is_hashed c then c.hashed else c.hashed ++ work_bytes c n;
  work_pos = c.work_pos + n;
  command_length = c.command_length - n;
  current_field_pos = if c.processing_field then c.current_field_pos + n else c.current_field_pos;
}

pub copy_tx_data_result :
    (host : Host) (c : Context) (dest : Dest) (at n : ℕ)
    → (copy_tx_data host c dest at n).0 ≡ true
    → (n ≤ c.command_length) × ((copy_tx_data host c dest at n).1 ≡ copied c dest at n)
unfolding copy_tx_data
copy_tx_data_result host c dest at n h = ground arith

pub take_field_inv :
    (host : Host) (dest : Dest) (most : Option ℕ) (c : Context)
    → (take_field host dest most c).0 ≡ true
    → c.current_field_pos < c.current_field_length
    → let n = capped most (copy_size c) in
      (n ≤ c.command_length)
      × ((take_field host dest most c).1 ≡ finish_field dest (copied c dest c.current_field_pos n))
unfolding take_field
take_field_inv host dest most c h lt =
    ground (arith, copy_tx_data_result host c dest c.current_field_pos (capped most (copy_size c)))

pub take_field_done :
    (host : Host) (dest : Dest) (most : Option ℕ) (c : Context)
    → c.current_field_length ≤ c.current_field_pos
    → take_field host dest most c ≡ (true, finish_field dest c)
unfolding take_field
take_field_done host dest most c le = ground arith

module _ (host : Host) (before payload : List ℕ) where
  -- All that the command has of the field has been hashed after a copy.
  pub copied_hash :
      (c : Context) (dest : Dest) (at : ℕ)
      → IsInField host before payload c
      → c.current_field_pos < c.current_field_length
      → (copied c dest at (copy_size c)).hashed ≡ before ++ take (c.work_pos + copy_size c) payload
  copied_hash c dest at v lt = elim (Bool-cases c.field_single_byte) [
    | inl e ↦
        let (start, one, string, some_left) = v.single e in
        let n : copy_size c ≡ 1 = omega arith in rw (v.processing, e, n) (rw e at v.all_hashed)
    | inr e ↦
        let n : ℕ = copy_size c in
        let plain : c.hashed ≡ before ++ take c.work_pos payload =
          let z : c.work_pos + 0 ≡ c.work_pos = omega arith in rw (e, z) at v.all_hashed in
        rw (v.processing, e, plain, v.same_payload, append_assoc, take-add c.work_pos n payload)
          refl
  ]

  pub copied-sizes :
      (c : Context) (dest : Dest)
      → IsInField host before payload c
      → Fits host dest c.current_field_length
      → HasSizes host (copied c dest c.current_field_pos (copy_size c)).content
  copied-sizes c dest v fits =
      store-HasSizes host dest c.current_field_pos (work_bytes c (copy_size c)) c.content
        (Fits-le host dest
          (omega (arith, v.in_field, length-take (copy_size c) (drop c.work_pos c.payload))) fits)
        v.sizes
