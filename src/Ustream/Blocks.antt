-- ===== src/Ustream/Blocks.antt =====
-- What the custom processor leaves: the blocks that it takes are hashed, and it gets on.
use ledger_ambire_signer.Base.{
  ℕ, ◌+◌, ◌-◌, ◌≤◌, ◌<◌, ◌≡◌, ◌≢◌, ◌⊎◌, refl, ◌∙◌, true, false, List, ◌++◌, length, take, drop, leb,
  ◌==◌, arith, Bool-cases, inl, inr, length-take, length-replicate, u8,
}
use mathlib.Core.List.{append_assoc}
use native.Mathlib.Decide.{ℕ_discrete}
use ledger_ambire_signer.Base.Memory.{take-add}
use ledger_ambire_signer.Ustream.State.{Context, TokenContext, Host, CustomStatus}
use ledger_ambire_signer.Ustream.Fields.{
  Dest, nowhere, to_token_data, store, copy_tx_data, finish_field, work_bytes,
}
use ledger_ambire_signer.Ustream.Custom.{set_token, handle_block, at_most, take_block}
use ledger_ambire_signer.Ustream.Invariant.{HasSizes, IsBetween, IsInField}
use ledger_ambire_signer.Ustream.Copies.{Fits, Fits-le, copied, copy_tx_data_result, store-HasSizes}
use ledger_ambire_signer.Ustream.Taking.{finish_full, finish_part, finished-IsHandled, HasMoved}

-- A round moves on to the next field, or uses bytes of the command within this one: all of them, or
-- fewer and the field's header is read.
pub record HasProgress (c c' : Context) : Type 0 where
  pub same_type : c'.tx_type ≡ c.tx_type
  pub moved :
      (c'.current_field ≡ c.current_field + 1)
      ⊎ ((c'.current_field ≡ c.current_field) × (c'.command_length ≡ 0))
      ⊎ ((c'.current_field ≡ c.current_field)
          × (c'.processing_field ≡ true)
          × (c.processing_field ≡ true → c'.command_length < c.command_length))

-- The place of the copy stays, or is behind the field.
abbrev pub SamePlace : Context → Context → Type 0
SamePlace c c' = (c'.tx_type ≡ c.tx_type) × (c'.current_field ≡ c.current_field)

-- A block that does not end the field uses bytes of the command.
at_most-fewer :
    (bound left size : ℕ)
    → 1 ≤ bound
    → at_most (at_most bound left) size ≢ left
    → (size - at_most (at_most bound left) size ≡ 0)
      ⊎ (size - at_most (at_most bound left) size < size)
at_most-fewer bound left size some_bound part = elim (Bool-cases (size == 0)) [
  | inl none ↦ inl (ground arith)
  | inr more ↦ inr (ground arith)
]

module _ (host : Host) (before payload : List ℕ) where
  -- What an answer says of the state that it leaves. A fault ends the transaction.
  abbrev pub Answered : Context → Context → CustomStatus → Type 0
  Answered c c' CustomStatus.not_handled = IsInField host before payload c' × SamePlace c c'
  Answered c c' CustomStatus.handled = IsBetween host before payload c' × HasProgress c c'
  Answered c c' CustomStatus.suspended = IsBetween host before payload c' × HasProgress c c'
  Answered c c' CustomStatus.fault = Unit

  pub HasSizes-token :
      (c : Context) (t : TokenContext)
      → HasSizes host c.content
      → length t.data_bytes ≡ 32
      → t.field_offset < 32
      → HasSizes host (set_token c t).content
  HasSizes-token c t h size room = record {
    nonce_size = h.nonce_size;
    startgas_size = h.startgas_size;
    gasprice_size = h.gasprice_size;
    value_size = h.value_size;
    chain_id_size = h.chain_id_size;
    destination_size = h.destination_size;
    v_buffer_size = h.v_buffer_size;
    token_size = size;
    token_room = room;
  }

  IsBetween-token :
      (c : Context) (t : TokenContext)
      → IsBetween host before payload c
      → length t.data_bytes ≡ 32
      → t.field_offset < 32
      → IsBetween host before payload (set_token c t)
  IsBetween-token c t b size room = record {
    sizes = HasSizes-token c t b.sizes size room;
    header = record {
      rlp_size = b.header.rlp_size;
      rlp_room = b.header.rlp_room;
      undecided = b.header.undecided;
    };
    same_payload = b.same_payload;
    left = b.left;
    all_hashed = b.all_hashed;
    in_field = b.in_field;
    not_single = b.not_single;
    closed = b.closed;
  }

  pub IsInField-token :
      (c : Context) (t : TokenContext)
      → IsInField host before payload c
      → length t.data_bytes ≡ 32
      → t.field_offset < 32
      → IsInField host before payload (set_token c t)
  IsInField-token c t v size room = record {
    sizes = HasSizes-token c t v.sizes size room;
    rlp_size = v.rlp_size;
    rlp_empty = v.rlp_empty;
    same_payload = v.same_payload;
    left = v.left;
    all_hashed = v.all_hashed;
    processing = v.processing;
    in_field = v.in_field;
    single = v.single;
  }

  HasProgress-token :
      (c c' : Context) (t : TokenContext) → HasProgress c c' → HasProgress c (set_token c' t)
  HasProgress-token c c' t p = record { same_type = p.same_type; moved = p.moved }

  HasProgress-after :
      (c c₁ c' : Context)
      → SamePlace c c₁
      → c₁.command_length ≤ c.command_length
      → c₁.processing_field ≡ c.processing_field
      → HasProgress c₁ c'
      → HasProgress c c'
  HasProgress-after c c₁ c' (type, field) fewer open_field p = record {
    same_type = p.same_type ∙ type;
    moved = elim p.moved [
      | inl next ↦ inl (omega (arith, next, field))
      | inr (inl (stays, used)) ↦ inr (inl (stays ∙ field, used))
      | inr (inr (stays, inside, less)) ↦
          inr (inr (stays ∙ field, inside, λ q. let l = less (open_field ∙ q) in omega arith))
    ];
  }

  -- An answer on a state that is further in the command, within the same field.
  pub Answered-after :
      (c c₁ c' : Context) (s : CustomStatus)
      → SamePlace c c₁
      → c₁.command_length ≤ c.command_length
      → c₁.processing_field ≡ c.processing_field
      → Answered c₁ c' s
      → Answered c c' s
  Answered-after c c₁ c' CustomStatus.not_handled (type, field) fewer open_field
        (v, (type', field')) =
      (v, (type' ∙ type, field' ∙ field))
  Answered-after c c₁ c' CustomStatus.handled same fewer open_field (b, p) =
      (b, HasProgress-after c c₁ c' same fewer open_field p)
  Answered-after c c₁ c' CustomStatus.suspended same fewer open_field (b, p) =
      (b, HasProgress-after c c₁ c' same fewer open_field p)
  Answered-after c c₁ c' CustomStatus.fault same fewer open_field h = tt

  handle_block-Answered :
      (field_pos block size : ℕ) (c c₁ : Context)
      → IsBetween host before payload c₁
      → HasProgress c c₁
      → c₁.content.token.field_offset + block ≤ 32
      → size ≤ block
      → Answered c
          (handle_block host field_pos block size c₁).1
          (handle_block host field_pos block size c₁).0
  unfolding handle_block
  handle_block-Answered field_pos block size c c₁ b p room le =
      let t = record c₁.content.token {
        field_offset = u8 (c₁.content.token.field_offset + size);
      } in
      let whole : length c₁.content.token.data_bytes ≡ 32 = b.sizes.token_size in
      elim (Bool-cases (size == block)) [
        | inr part ↦
            rw part (IsBetween-token c₁ t b whole (ground arith), HasProgress-token c c₁ t p)
        | inl all ↦ elim (Bool-cases (leb host.result_successful t.plugin_status)) [
          | inr shown ↦
              rw (all, shown)
                (IsBetween-token c₁ _ b whole (omega arith), HasProgress-token c c₁ _ p)
          | inl taken ↦ elim (Bool-cases (host.plugin_provide (set_token c₁ t) size)) [
            | inr refused ↦ rw (all, taken, refused) tt
            | inl given ↦
                rw (all, taken, given)
                  (
                    IsBetween-token c₁ _ b (length-replicate {A = ℕ} 32 0) (omega arith),
                    HasProgress-token c c₁ _ p,
                  )
          ]
        ]
      ]

  -- A copy within the field that does not begin with its own byte.
  pub copied-IsInField :
      (dest : Dest) (at n : ℕ) (c : Context)
      → IsInField host before payload c
      → c.field_single_byte ≡ false
      → n ≤ c.command_length
      → c.current_field_pos + n ≤ c.current_field_length
      → Fits host dest (at + n)
      → IsInField host before payload (copied c dest at n)
  copied-IsInField dest at n c v plain le inside fits = record {
    sizes =
        store-HasSizes host dest at (work_bytes c n) c.content
          (Fits-le host dest (omega (arith, length-take n (drop c.work_pos c.payload))) fits)
          v.sizes;
    rlp_size = v.rlp_size;
    rlp_empty = v.rlp_empty;
    same_payload = v.same_payload;
    left = omega (arith, v.left);
    all_hashed =
        (let z : c.work_pos + 0 ≡ c.work_pos = omega arith in
          let z' : c.work_pos + n + 0 ≡ c.work_pos + n = omega arith in
          let hashed : c.hashed ≡ before ++ take c.work_pos payload =
            rw (plain, z) at v.all_hashed in
          rw
            (
              v.processing,
              plain,
              hashed,
              v.same_payload,
              append_assoc,
              z',
              take-add c.work_pos n payload,
            )
            refl);
    processing = v.processing;
    in_field = rw v.processing inside;
    single = λ s. cc;
  }

  pub HasMoved-HasProgress : (c c' : Context) → HasMoved c c' → HasProgress c c'
  HasMoved-HasProgress c c' m = record {
    same_type = m.same_type;
    moved = elim m.moved [ inl next ↦ inl next | inr used ↦ inr (inl used) ];
  }

  -- The end of a copy: of the field, or within it.
  finish_field-progress :
      (c c₁ : Context)
      → IsInField host before payload c₁
      → c₁.field_single_byte ≡ false
      → SamePlace c c₁
      → (c₁.current_field_pos ≢ c₁.current_field_length
          → (c₁.command_length ≡ 0) ⊎ (c₁.command_length < c.command_length))
      → IsBetween host before payload (finish_field nowhere c₁)
        × HasProgress c (finish_field nowhere c₁)
  finish_field-progress c c₁ v plain (type, field) fewer =
      let z : c₁.work_pos + 0 ≡ c₁.work_pos = omega arith in
      let hashed : c₁.hashed ≡ before ++ take c₁.work_pos payload = rw (plain, z) at v.all_hashed in
      elim (ℕ_discrete c₁.current_field_pos c₁.current_field_length) [
        | yes full ↦
            let handled =
              finished-IsHandled host before payload nowhere c c₁ v.sizes v.rlp_size v.rlp_empty
                v.same_payload v.left hashed field type in
            rw (finish_full host before payload nowhere c₁ full)
              (handled.between, HasMoved-HasProgress c _ handled.progress)
        | no part ↦ rw (finish_part host before payload nowhere c₁ part) (
          record {
            sizes = v.sizes;
            header = record {
              rlp_size = v.rlp_size;
              rlp_room = omega (arith, v.rlp_empty);
              undecided = inl v.rlp_empty;
            };
            same_payload = v.same_payload;
            left = v.left;
            all_hashed = hashed;
            in_field = λ p. v.in_field;
            not_single = λ p. plain;
            closed = λ p. v.rlp_empty;
          },
          record {
            same_type = type;
            moved = elim (fewer part) [
              | inl used ↦ inr (inl (field, used))
              | inr less ↦ inr (inr (field, v.processing, λ p. less))
            ];
          },
        )
      ]

  finish_field_content : (c : Context) → (finish_field nowhere c).content ≡ c.content
  unfolding finish_field
  finish_field_content c = ground arith

  take_block_stop :
      (bound : ℕ) (c : Context)
      → (copy_tx_data host c to_token_data c.content.token.field_offset (
          at_most
            (at_most bound (c.current_field_length - c.current_field_pos))
            c.command_length)).0
        ≡ false
      → (take_block host bound c).0 ≡ CustomStatus.fault
  unfolding take_block
  take_block_stop bound c stop = ground arith

  pub take_block-Answered :
      (bound : ℕ) (c : Context)
      → IsInField host before payload c
      → c.field_single_byte ≡ false
      → 1 ≤ bound
      → c.content.token.field_offset + bound ≤ 32
      → Answered c (take_block host bound c).1 (take_block host bound c).0
  unfolding take_block store
  take_block-Answered bound c v plain some_bound room =
      let block : ℕ = at_most bound (c.current_field_length - c.current_field_pos) in
      let size : ℕ = at_most block c.command_length in
      let offset : ℕ = c.content.token.field_offset in
      let sizes : (block ≤ bound)
          × (size ≤ block)
          × (size ≤ c.command_length)
          × (c.current_field_pos + size ≤ c.current_field_length) =
        ground (arith, v.in_field) in
      let (le_bound, le_block, le, inside) = sizes in
      elim (Bool-cases (copy_tx_data host c to_token_data offset size).0) [
        | inr stop ↦ rw stop tt
        | inl done ↦
            let (le', e) = copy_tx_data_result host c to_token_data offset size done in
            let c₁ : Context = copied c to_token_data offset size in
            let v₁ : IsInField host before payload c₁ =
              copied-IsInField to_token_data offset size c v plain le inside (omega arith) in
            let (b, p) =
              finish_field-progress c c₁ v₁ plain (refl, refl)
                (λ part.
                  let pos : c₁.current_field_pos ≡ c.current_field_pos + size = rw v.processing in
                  at_most-fewer bound (c.current_field_length - c.current_field_pos)
                    c.command_length some_bound (λ e'. part (omega (arith, v.in_field)))) in
            rw (done, e)
              (handle_block-Answered c.current_field_pos block size c (finish_field nowhere c₁) b p
                (rw (finish_field_content c₁) (omega arith)) le_block)
      ]
