-- ===== src/Ustream/Rounds.antt =====
-- The loop over the fields: what every round keeps, and that it ends.
use ledger_ambire_signer.Base.{
  ℕ, ◌+◌, ◌≤◌, ◌<◌, ◌≡◌, ◌≢◌, ◌⊎◌, refl, ap, sym, ◌∙◌, Bool, true, false, some, none, List, length,
  arith, Bool-cases, inl, inr,
}
use native.Mathlib.Decide.{ℕ_discrete}
use ledger_ambire_signer.Ustream.State.{Context, Host, Status, CustomStatus, TxType}
use ledger_ambire_signer.Ustream.{
  parse_rlp, fields_of, parsing_is_done, finish_tx, field_round, tx_round, process_tx_field,
  get_tx_chain_id,
}
use ledger_ambire_signer.Utils.{buf_shrink_expand}
use ledger_ambire_signer.Ustream.Invariant.{IsBetween, IsInField}
use ledger_ambire_signer.Ustream.Taking.{HasMoved}
use ledger_ambire_signer.Ustream.Custom.{is_rlp_data_field, custom_processor}
use ledger_ambire_signer.Ustream.Blocks.{HasProgress, SamePlace, Answered}
use ledger_ambire_signer.Ustream.Answers.{
  is_rlp_data_field-lt, custom_processor_outside, custom_processor-Answered,
}
use ledger_ambire_signer.Ustream.Handlers.{process_tx_field-IsHandled}
use ledger_ambire_signer.Ustream.Headers.{HeaderParsed, parse_rlp-HeaderParsed, SameField}

-- The place is at most behind the last field.
abbrev pub IsWithin : Context → Type 0
IsWithin c = c.current_field ≤ length (fields_of c.tx_type)

HasProgress-IsWithin :
    (c c' : Context)
    → HasProgress c c'
    → c.current_field < length (fields_of c.tx_type)
    → IsWithin c'
HasProgress-IsWithin c c' p lt =
    let same = ap (λ (t : TxType). length (fields_of t)) p.same_type in
    elim p.moved [
      | inl next ↦ omega (arith, same, next)
      | inr (inl (stays, used)) ↦ omega (arith, same, stays)
      | inr (inr (stays, inside, less)) ↦ omega (arith, same, stays)
    ]

SameField-IsWithin : (c c' : Context) → SameField c c' → IsWithin c → IsWithin c'
SameField-IsWithin c c' s w =
    omega (arith, ap (λ (t : TxType). length (fields_of t)) s.same_type, s.same_field)

-- A handler's step behind a custom processor that left the field to it.
HasMoved-progress : (c c₁ c' : Context) → SamePlace c c₁ → HasMoved c₁ c' → HasProgress c c'
HasMoved-progress c c₁ c' (type, field) m = record {
  same_type = m.same_type ∙ type;
  moved = elim m.moved [
    | inl next ↦ inl (omega (arith, next, field))
    | inr (stays, used) ↦ inr (inl (stays ∙ field, used))
  ];
}

-- A step on a field whose header was read in the same round.
HasProgress-header :
    (c c₁ c' : Context)
    → SameField c c₁
    → c.processing_field ≡ false
    → HasProgress c₁ c'
    → HasProgress c c'
HasProgress-header c c₁ c' s out p = record {
  same_type = p.same_type ∙ s.same_type;
  moved = elim p.moved [
    | inl next ↦ inl (omega (arith, next, s.same_field))
    | inr (inl (stays, used)) ↦ inr (inl (stays ∙ s.same_field, used))
    | inr (inr (stays, inside, less)) ↦
        inr (inr (stays ∙ s.same_field, inside, λ q. absurd (true_false (sym q ∙ out))))
  ];
}
  where
    true_false : ◌≡◌ {A = Bool} true false → ⊥
    true_false e = cc e

-- The end of the transaction touches the queue alone.
finish_tx_cases :
    (host : Host) (c : Context)
    → (finish_tx host c ≡ (Status.finished, c))
      ⊎ (finish_tx host c ≡ (Status.finished, record c { parked = none }))
      ⊎ (finish_tx host c ≡ (Status.processing, record c { parked = none }))
unfolding finish_tx
finish_tx_cases host c =
    let to = buf_shrink_expand (some c.content.destination) c.content.destination_length 20 in
    let amount = buf_shrink_expand (some c.content.value.value) c.content.value.len 32 in
    elim (Bool-cases c.store_calldata) [
      | inr basic ↦ inl (ground arith)
      | inl stored ↦
          elim (Bool-cases (host.tx_ctx_init c.parked to amount (get_tx_chain_id host c))) [
            | inl queued ↦ inr (inl (ground arith))
            | inr refused ↦ inr (inr (ground arith))
          ]
    ]

field_round_done :
    (host : Host) (c : Context) {c₁ : Context}
    → custom_processor host c ≡ (CustomStatus.not_handled, c₁)
    → (process_tx_field host c₁).0 ≡ true
    → field_round host c ≡ (Status.continue, (process_tx_field host c₁).1)
unfolding field_round
field_round_done host c e done = ground arith

field_round_stop :
    (host : Host) (c : Context) {c₁ : Context}
    → custom_processor host c ≡ (CustomStatus.not_handled, c₁)
    → (process_tx_field host c₁).0 ≡ false
    → field_round host c ≡ (Status.fault, (process_tx_field host c₁).1)
unfolding field_round
field_round_stop host c e stop = ground arith

field_round_handled :
    (host : Host) (c : Context) {c₁ : Context}
    → custom_processor host c ≡ (CustomStatus.handled, c₁)
    → field_round host c ≡ (Status.continue, c₁)
unfolding field_round
field_round_handled host c e = ground arith

field_round_suspended :
    (host : Host) (c : Context) {c₁ : Context}
    → custom_processor host c ≡ (CustomStatus.suspended, c₁)
    → field_round host c ≡ (Status.suspended, c₁)
unfolding field_round
field_round_suspended host c e = ground arith

field_round_fault :
    (host : Host) (c : Context) {c₁ : Context}
    → custom_processor host c ≡ (CustomStatus.fault, c₁)
    → field_round host c ≡ (Status.fault, c₁)
unfolding field_round
field_round_fault host c e = ground arith

SamePlace-lt :
    (c c₁ : Context)
    → SamePlace c c₁
    → c₁.current_field < length (fields_of c₁.tx_type)
    → c.current_field < length (fields_of c.tx_type)
SamePlace-lt c c₁ (type, field) lt =
    omega (arith, ap (λ (t : TxType). length (fields_of t)) type, field)

-- Where the custom processor takes the field over, it is the data.
taken-lt :
    (host : Host) (c : Context) {s : CustomStatus} {c₁ : Context}
    → custom_processor host c ≡ (s, c₁)
    → s ≢ CustomStatus.not_handled
    → c.current_field < length (fields_of c.tx_type)
taken-lt host c {s} {c₁} e taken = elim (Bool-cases (is_rlp_data_field c)) [
  | inl here ↦ is_rlp_data_field-lt c here
  | inr other ↦
      let same : ◌≡◌ {A = CustomStatus × Context} (s, c₁) (CustomStatus.not_handled, c) =
        sym e ∙ custom_processor_outside host c other in
      absurd (taken (ap (λ (p : CustomStatus × Context). p.0) same))
]

-- The branches of a round.
tx_round_done :
    (host : Host) (c : Context) → parsing_is_done c ≡ true → tx_round host c ≡ finish_tx host c
unfolding tx_round
tx_round_done host c done = ground arith

tx_round_used :
    (host : Host) (c : Context)
    → parsing_is_done c ≡ false
    → c.command_length ≡ 0
    → tx_round host c ≡ (Status.processing, c)
unfolding tx_round
tx_round_used host c undone used = ground arith

tx_round_field :
    (host : Host) (c : Context)
    → parsing_is_done c ≡ false
    → c.command_length ≢ 0
    → c.processing_field ≡ true
    → tx_round host c ≡ field_round host c
unfolding tx_round
tx_round_field host c undone more inside = ground arith

tx_round_parsed :
    (host : Host) (c : Context) {c' : Context}
    → parsing_is_done c ≡ false
    → c.command_length ≢ 0
    → c.processing_field ≡ false
    → parse_rlp host c ≡ (Status.continue, c')
    → tx_round host c ≡ field_round host c'
unfolding tx_round
tx_round_parsed host c undone more out e = ground arith

tx_round_stopped :
    (host : Host) (c : Context) {s : Status} {c' : Context}
    → parsing_is_done c ≡ false
    → c.command_length ≢ 0
    → c.processing_field ≡ false
    → parse_rlp host c ≡ (s, c')
    → s ≢ Status.continue
    → tx_round host c ≡ (s, c')
unfolding tx_round
tx_round_stopped host c {s} undone more out e stop = ground arith

module _ (host : Host) (before payload : List ℕ) (some_v : 0 < host.v_size) where
  -- What a round's status says of the state that it leaves.
  abbrev pub Rounded : Context → Context → Status → Type 0
  Rounded c c' Status.continue = IsBetween host before payload c' × HasProgress c c' × IsWithin c'
  Rounded c c' Status.processing =
      IsBetween host before payload c'
      × IsWithin c'
      × ((c'.command_length ≡ 0) ⊎ (parsing_is_done c' ≡ true))
  Rounded c c' Status.finished = IsBetween host before payload c' × (parsing_is_done c' ≡ true)
  Rounded c c' Status.suspended = IsBetween host before payload c' × HasProgress c c' × IsWithin c'
  Rounded c c' Status.fault = Unit

  field_round-Rounded :
      (c : Context)
      → IsInField host before payload c
      → Rounded c (field_round host c).1 (field_round host c).0
  field_round-Rounded c v =
      go (custom_processor host c).0 (custom_processor host c).1 refl
        (custom_processor-Answered host before payload c v)
    where
      go :
          (s : CustomStatus) (c₁ : Context)
          → custom_processor host c ≡ (s, c₁)
          → Answered host before payload c c₁ s
          → Rounded c (field_round host c).1 (field_round host c).0
      go CustomStatus.not_handled c₁ e (v₁, same) = elim (Bool-cases (process_tx_field host c₁).0) [
        | inl done ↦
            let (within, handled) =
              process_tx_field-IsHandled host before payload c₁ some_v v₁ done in
            let lt : c.current_field < length (fields_of c.tx_type) =
              SamePlace-lt c c₁ same within in
            let p = HasMoved-progress c c₁ _ same handled.progress in
            rw (field_round_done host c e done) (handled.between, p, HasProgress-IsWithin c _ p lt)
        | inr stop ↦ rw (field_round_stop host c e stop) tt
      ]
      go CustomStatus.handled c₁ e (b, p) =
          rw (field_round_handled host c e)
            (b, p, HasProgress-IsWithin c c₁ p (taken-lt host c e (λ x. cc)))
      go CustomStatus.suspended c₁ e (b, p) =
          rw (field_round_suspended host c e)
            (b, p, HasProgress-IsWithin c c₁ p (taken-lt host c e (λ x. cc)))
      go CustomStatus.fault c₁ e h = rw (field_round_fault host c e) tt

  IsBetween-parked :
      (c : Context)
      → IsBetween host before payload c
      → IsBetween host before payload (record c { parked = none })
  IsBetween-parked c b = record {
    sizes = b.sizes;
    header = record {
      rlp_size = b.header.rlp_size;
      rlp_room = b.header.rlp_room;
      undecided = b.header.undecided;
    };
    same_payload = b.same_payload;
    left = b.left;
    all_hashed = b.all_hashed;
    in_field = b.in_field;
    not_single = b.not_single;
    closed = b.closed;
  }

  finish_tx-Rounded :
      (c : Context)
      → IsBetween host before payload c
      → IsWithin c
      → parsing_is_done c ≡ true
      → Rounded c (finish_tx host c).1 (finish_tx host c).0
  finish_tx-Rounded c b w done =
      let done' : parsing_is_done (record c { parked = none }) ≡ true =
        unfold parsing_is_done in done in
      elim (finish_tx_cases host c) [
        | inl e ↦ rw e (b, done)
        | inr (inl e) ↦ rw e (IsBetween-parked c b, done')
        | inr (inr e) ↦ rw e (IsBetween-parked c b, w, inr done')
      ]

  -- Within a field that an earlier command began.
  IsBetween-IsInField :
      (c : Context)
      → IsBetween host before payload c
      → c.processing_field ≡ true
      → IsInField host before payload c
  IsBetween-IsInField c b p =
      let plain = b.not_single p in
      let z : c.work_pos + 0 ≡ c.work_pos = omega arith in
      record {
        sizes = b.sizes;
        rlp_size = b.header.rlp_size;
        rlp_empty = b.closed p;
        same_payload = b.same_payload;
        left = b.left;
        all_hashed = rw (plain, z) b.all_hashed;
        processing = p;
        in_field = b.in_field p;
        single = λ s. cc;
      }

  Rounded-after :
      (c c₁ c' : Context) (s : Status)
      → SameField c c₁
      → c.processing_field ≡ false
      → Rounded c₁ c' s
      → Rounded c c' s
  Rounded-after c c₁ c' Status.continue same out (b, p, w) =
      (b, HasProgress-header c c₁ c' same out p, w)
  Rounded-after c c₁ c' Status.processing same out h = h
  Rounded-after c c₁ c' Status.finished same out h = h
  Rounded-after c c₁ c' Status.fault same out h = h
  Rounded-after c c₁ c' Status.suspended same out (b, p, w) =
      (b, HasProgress-header c c₁ c' same out p, w)

  pub tx_round-Rounded :
      (c : Context)
      → IsBetween host before payload c
      → IsWithin c
      → Rounded c (tx_round host c).1 (tx_round host c).0
  tx_round-Rounded c b w = elim (Bool-cases (parsing_is_done c)) [
    | inl done ↦ rw (tx_round_done host c done) (finish_tx-Rounded c b w done)
    | inr undone ↦ elim (ℕ_discrete c.command_length 0) [
      | yes used ↦ rw (tx_round_used host c undone used) (b, w, inl used)
      | no more ↦ elim (Bool-cases c.processing_field) [
        | inl inside ↦
            rw (tx_round_field host c undone more inside)
              (field_round-Rounded c (IsBetween-IsInField c b inside))
        | inr out ↦
            go undone more out (parse_rlp host c).0 (parse_rlp host c).1 refl
              (parse_rlp-HeaderParsed host before payload c b out)
      ]
    ]
  ]
    where
      go :
          parsing_is_done c ≡ false
          → c.command_length ≢ 0
          → c.processing_field ≡ false
          → (s : Status) (c₁ : Context) → parse_rlp host c ≡ (s, c₁)
          → HeaderParsed host before payload c c₁ s
          → Rounded c (tx_round host c).1 (tx_round host c).0
      go undone more out Status.continue c₁ e (v, same) =
          rw (tx_round_parsed host c undone more out e) (
            Rounded-after c c₁ (field_round host c₁).1 (field_round host c₁).0 same out
              (field_round-Rounded c₁ v))
      go undone more out Status.processing c₁ e (b₁, used, same) =
          rw (tx_round_stopped host c undone more out e (λ x. cc))
            (b₁, SameField-IsWithin c c₁ same w, inl used)
      go undone more out Status.fault c₁ e h =
          rw (tx_round_stopped host c undone more out e (λ x. cc)) tt
      go undone more out Status.suspended c₁ e h = absurd h
      go undone more out Status.finished c₁ e h = absurd h
