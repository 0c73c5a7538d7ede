-- ===== src/Ustream/Taking.antt =====
-- A part of a field is taken: the field ends where all of it has been taken and hashed.
use ledger_ambire_signer.Base.{
  ℕ, ◌+◌, ◌≤◌, ◌<◌, ◌≡◌, ◌≢◌, ◌⊎◌, refl, ap, true, false, Option, List, ◌++◌, length, take,
  if◌then◌else◌, arith, Bool-cases, inl, inr,
}
use native.Mathlib.Decide.{ℕ_discrete, dec_lt}
use ledger_ambire_signer.Ustream.State.{Context, Host}
use ledger_ambire_signer.Ustream.Fields.{
  Dest, set_length, take_field, finish_field, copy_size, capped,
}
use ledger_ambire_signer.Ustream.Invariant.{HasSizes, IsBetween, IsInField}
use ledger_ambire_signer.Ustream.Copies.{
  Fits, copied, take_field_inv, take_field_done, copied_hash, copied-sizes, set_length-HasSizes,
}

-- A handler moves on to the next field, or uses the command up within this one.
pub record HasMoved (c c' : Context) : Type 0 where
  pub same_type : c'.tx_type ≡ c.tx_type
  pub moved :
      (c'.current_field ≡ c.current_field + 1)
      ⊎ ((c'.current_field ≡ c.current_field) × (c'.command_length ≡ 0))

module _ (host : Host) (before payload : List ℕ) where
  -- What a handler that answers `true` leaves.
  pub record IsHandled (c c' : Context) : Type 0 where
    pub between : IsBetween host before payload c'
    pub progress : HasMoved c c'

  pub finish_full :
      (dest : Dest) (c : Context)
      → c.current_field_pos ≡ c.current_field_length
      → finish_field dest c ≡ record c {
        content = set_length dest c.current_field_length c.content;
        current_field = c.current_field + 1;
        processing_field = false;
      }
  unfolding finish_field
  finish_full dest c e = ground arith

  pub finish_part :
      (dest : Dest) (c : Context)
      → c.current_field_pos ≢ c.current_field_length
      → finish_field dest c ≡ c
  unfolding finish_field
  finish_part dest c e = ground arith

  -- The field ends where all of it has been taken and hashed.
  pub finished-IsHandled :
      (dest : Dest) (c c₁ : Context)
      → HasSizes host c₁.content
      → length c₁.rlp_buffer ≡ 5
      → c₁.rlp_buffer_pos ≡ 0
      → c₁.payload ≡ payload
      → c₁.work_pos + c₁.command_length ≡ length payload
      → c₁.hashed ≡ before ++ take c₁.work_pos payload
      → c₁.current_field ≡ c.current_field
      → c₁.tx_type ≡ c.tx_type
      → IsHandled c (record c₁ {
        content = set_length dest c₁.current_field_length c₁.content;
        current_field = c₁.current_field + 1;
        processing_field = false;
      })
  finished-IsHandled dest c c₁ sizes size empty same left hashed field type = record {
    between = record {
      sizes = set_length-HasSizes host dest c₁.current_field_length c₁.content sizes;
      header = record { rlp_size = size; rlp_room = omega arith; undecided = inl empty };
      same_payload = same;
      left = left;
      all_hashed = hashed;
      in_field = λ e. cc;
      not_single = λ e. cc;
      closed = λ e. cc;
    };
    progress = record { same_type = type; moved = inl (ap suc_of field) };
  }
    where
      suc_of : ℕ → ℕ
      suc_of n = n + 1

  -- A byte that is its own encoding is taken whole at once.
  not_single_part :
      (c : Context)
      → IsInField host before payload c
      → c.current_field_pos < c.current_field_length
      → (if c.processing_field then c.current_field_pos + copy_size c else c.current_field_pos)
        ≢ c.current_field_length
      → c.field_single_byte ≡ false
  not_single_part c v lt part = elim (Bool-cases c.field_single_byte) [
    | inl e ↦
        let (start, one, string, some_left) = v.single e in
        absurd (part (rw v.processing (omega arith)))
    | inr e ↦ e
  ]

  -- A copy within a field, and what follows it.
  pub copied-IsHandled :
      (dest : Dest) (c : Context)
      → IsInField host before payload c
      → Fits host dest c.current_field_length
      → c.current_field_pos < c.current_field_length
      → copy_size c ≤ c.command_length
      → IsHandled c (finish_field dest (copied c dest c.current_field_pos (copy_size c)))
  copied-IsHandled dest c v fits lt le =
      let n : ℕ = copy_size c in
      let c₁ : Context = copied c dest c.current_field_pos n in
      let pos : c₁.current_field_pos ≡ c.current_field_pos + n = rw v.processing in
      let sizes = copied-sizes host before payload c dest v fits in
      let hashed = copied_hash host before payload c dest c.current_field_pos v lt in
      elim (ℕ_discrete c₁.current_field_pos c.current_field_length) [
        | yes e ↦ rw (finish_full dest c₁ e) (
            finished-IsHandled dest c c₁ sizes v.rlp_size v.rlp_empty v.same_payload
              (omega (arith, v.left)) hashed refl refl)
        | no e ↦ rw (finish_part dest c₁ e) (record {
          between = record {
            sizes = sizes;
            header = record {
              rlp_size = v.rlp_size;
              rlp_room = omega (arith, v.rlp_empty);
              undecided = inl v.rlp_empty;
            };
            same_payload = v.same_payload;
            left = omega (arith, v.left);
            all_hashed = hashed;
            in_field = λ p. omega arith;
            not_single = λ p. not_single_part c v lt e;
            closed = λ p. v.rlp_empty;
          };
          progress = record { same_type = refl; moved = inr (refl, omega arith) };
        })
      ]

  -- An empty field, or one whose bytes have all been taken.
  pub done-IsHandled :
      (dest : Dest) (c : Context)
      → IsInField host before payload c
      → c.current_field_length ≤ c.current_field_pos
      → IsHandled c (finish_field dest c)
  done-IsHandled dest c v le = elim (Bool-cases c.field_single_byte) [
    | inl e ↦ let (start, one, string, some_left) = v.single e in absurd (omega arith)
    | inr e ↦
        let z : c.work_pos + 0 ≡ c.work_pos = omega arith in
        rw (finish_full dest c (omega (arith, v.in_field))) (
          finished-IsHandled dest c c v.sizes v.rlp_size v.rlp_empty v.same_payload v.left
            (rw (e, z) at v.all_hashed) refl refl)
  ]

  pub take_field-IsHandled :
      (dest : Dest) (most : Option ℕ) (c : Context)
      → IsInField host before payload c
      → Fits host dest c.current_field_length
      → capped most (copy_size c) ≡ copy_size c
      → (take_field host dest most c).0 ≡ true
      → IsHandled c (take_field host dest most c).1
  take_field-IsHandled dest most c v fits cap_eq h =
      elim (dec_lt c.current_field_pos c.current_field_length) [
        | yes lt ↦
            let (le, e) = take_field_inv host dest most c h lt in
            rw (e, cap_eq) (copied-IsHandled dest c v fits lt (rw cap_eq at le))
        | no ge ↦
            rw (take_field_done host dest most c (omega arith))
              (done-IsHandled dest c v (omega arith))
      ]
