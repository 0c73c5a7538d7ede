-- ===== src/Ustream/Headers.antt =====
-- Reading a field's header: `parse_rlp`.
use ledger_ambire_signer.Base.{
  ℕ, zero, suc, ◌+◌, ◌-◌, ◌≤◌, ◌≡◌, ◌≢◌, ◌⊎◌, refl, ◌∙◌, Bool, true, false, some, List, [], ◌∷◌,
  ◌++◌, length, take, set, get_or, length-set, arith, ◌==◌, Bool-cases, inl, inr,
}
use mathlib.Core.List.{append_assoc}
use native.Mathlib.Decide.{ℕ_discrete}
use ledger_ambire_signer.Base.Memory.{take-suc_get}
use ledger_ambire_signer.Rlp.{
  can, not_yet, rlp_can_decode, DecodeLength, decoded, failed, rlp_decode_length,
}
use ledger_ambire_signer.Rlp.Bounds.{decode_single, can_decode_no_bad_read}
use ledger_ambire_signer.Ustream.State.{Context, Host, Status}
use ledger_ambire_signer.Ustream.Fields.{read_tx_byte}
use ledger_ambire_signer.Ustream.{read_header_byte, read_header, start_field, parse_rlp}
use ledger_ambire_signer.Ustream.Invariant.{HasSizes, IsBetween, IsInField}

-- The state after one more byte of a header.
abbrev byte_read : Context → Context
byte_read c =
    let byte = get_or c.payload c.work_pos 0 in
    record c {
      rlp_buffer = set c.rlp_buffer c.rlp_buffer_pos byte;
      rlp_buffer_pos = c.rlp_buffer_pos + 1;
      work_pos = c.work_pos + 1;
      command_length = c.command_length - 1;
      hashed = c.hashed ++ (byte ∷ []);
    }

-- What one round's status says; the other statuses do not occur.
abbrev ByteRead : Context → Context → Status → Type 0
ByteRead c c' Status.continue =
    (c' ≡ byte_read c) × (rlp_can_decode (some c'.rlp_buffer) c'.rlp_buffer_pos true ≡ can true)
ByteRead c c' Status.processing =
    (c' ≡ byte_read c)
    × (c'.rlp_buffer_pos ≢ 5)
    × (rlp_can_decode (some c'.rlp_buffer) c'.rlp_buffer_pos true ≡ not_yet)
ByteRead c c' Status.fault = Unit
ByteRead c c' s = ⊥

read_header_byte-ByteRead :
    (host : Host) (c : Context)
    → length c.rlp_buffer ≡ 5
    → c.processing_field ≡ false
    → 1 ≤ c.command_length
    → ByteRead c (read_header_byte host c).1 (read_header_byte host c).0
unfolding read_header_byte read_tx_byte
read_header_byte-ByteRead host c size out some_left =
    let byte : ℕ = get_or c.payload c.work_pos 0 in
    ground (
      arith,
      can_decode_no_bad_read (set c.rlp_buffer c.rlp_buffer_pos byte) (c.rlp_buffer_pos + 1),
      length-set c.rlp_buffer c.rlp_buffer_pos byte,
    )

read_header_used :
    (host : Host) (fuel : ℕ) (c : Context)
    → c.command_length ≡ 0
    → read_header host (suc fuel) c ≡ (Status.processing, c)
unfolding read_header
read_header_used host fuel c used = ground arith

read_header_stop :
    (host : Host) (fuel : ℕ) (c : Context) {s : Status} {c' : Context}
    → read_header_byte host c ≡ (s, c')
    → c.command_length ≢ 0
    → s ≢ Status.processing
    → read_header host (suc fuel) c ≡ (s, c')
unfolding read_header
read_header_stop host fuel c {s} e more stop = ground arith

read_header_next :
    (host : Host) (fuel : ℕ) (c : Context) {c' : Context}
    → read_header_byte host c ≡ (Status.processing, c')
    → c.command_length ≢ 0
    → read_header host (suc fuel) c ≡ read_header host fuel c'
unfolding read_header
read_header_next host fuel c e more = ground arith

parse_rlp_stop :
    (host : Host) (c : Context) {s : Status} {c' : Context}
    → read_header host 6 c ≡ (s, c')
    → s ≢ Status.continue
    → parse_rlp host c ≡ (s, c')
unfolding parse_rlp
parse_rlp_stop host c {s} e stop = ground arith

parse_rlp_decoded :
    (host : Host) (c : Context) {c' : Context} {n offset : ℕ} {list : Bool}
    → read_header host 6 c ≡ (Status.continue, c')
    → rlp_decode_length c'.rlp_buffer c'.rlp_buffer_pos ≡ decoded n offset list
    → parse_rlp host c ≡ (Status.continue, start_field n offset list c')
unfolding parse_rlp
parse_rlp_decoded host c e d = ground arith

parse_rlp_failed :
    (host : Host) (c : Context) {c' : Context}
    → read_header host 6 c ≡ (Status.continue, c')
    → (rlp_decode_length c'.rlp_buffer c'.rlp_buffer_pos ≡ failed)
      ⊎ (rlp_decode_length c'.rlp_buffer c'.rlp_buffer_pos ≡ DecodeLength.bad_read)
    → parse_rlp host c ≡ (Status.fault, c')
unfolding parse_rlp
parse_rlp_failed host c e bad = ground arith

-- The header reader leaves the place among the fields alone.
pub record SameField (c c' : Context) : Type 0 where
  pub same_field : c'.current_field ≡ c.current_field
  pub same_type : c'.tx_type ≡ c.tx_type

module _ (host : Host) (before payload : List ℕ) where
  -- A header has been read to its end, and the field has not started.
  record IsReady (c : Context) : Type 0 where
    sizes : HasSizes host c.content
    rlp_size : length c.rlp_buffer ≡ 5
    same_payload : c.payload ≡ payload
    left : c.work_pos + c.command_length ≡ length payload
    all_hashed : c.hashed ≡ before ++ take c.work_pos payload
    some_taken : 1 ≤ c.work_pos

  byte_hashed :
      (c : Context)
      → IsBetween host before payload c
      → 1 ≤ c.command_length
      → (byte_read c).hashed ≡ before ++ take (c.work_pos + 1) payload
  byte_hashed c b some_left =
      let next : c.work_pos + 1 ≡ suc c.work_pos = omega arith in
      rw
        (
          next,
          take-suc_get c.work_pos payload 0 (omega (arith, b.left)),
          b.same_payload,
          b.all_hashed,
          append_assoc,
        )
        refl

  byte_read-IsReady :
      (c : Context) → IsBetween host before payload c → 1 ≤ c.command_length → IsReady (byte_read c)
  byte_read-IsReady c b some_left = record {
    sizes = b.sizes;
    rlp_size =
        length-set c.rlp_buffer c.rlp_buffer_pos (get_or c.payload c.work_pos 0)
        ∙ b.header.rlp_size;
    same_payload = b.same_payload;
    left = omega (arith, b.left);
    all_hashed = byte_hashed c b some_left;
    some_taken = omega arith;
  }

  byte_read-IsBetween :
      (c : Context)
      → IsBetween host before payload c
      → c.processing_field ≡ false
      → 1 ≤ c.command_length
      → c.rlp_buffer_pos + 1 ≢ 5
      → rlp_can_decode (some (byte_read c).rlp_buffer) (c.rlp_buffer_pos + 1) true ≡ not_yet
      → IsBetween host before payload (byte_read c)
  byte_read-IsBetween c b out some_left room open_header =
      let ready = byte_read-IsReady c b some_left in
      record {
        sizes = b.sizes;
        header = record {
          rlp_size = ready.rlp_size;
          rlp_room = omega (arith, b.header.rlp_room);
          undecided = inr open_header;
        };
        same_payload = b.same_payload;
        left = ready.left;
        all_hashed = ready.all_hashed;
        in_field = λ e. cc;
        not_single = λ e. cc;
        closed = λ e. cc;
      }

  -- What the loop's status says.
  abbrev HeaderRead : Context → Context → Status → Type 0
  HeaderRead c c' Status.continue = IsReady c' × SameField c c'
  HeaderRead c c' Status.processing =
      IsBetween host before payload c' × (c'.command_length ≡ 0) × SameField c c'
  HeaderRead c c' Status.fault = Unit
  HeaderRead c c' s = ⊥

  HeaderRead-after :
      (s : Status) (c c₁ c' : Context) → SameField c c₁ → HeaderRead c₁ c' s → HeaderRead c c' s
  HeaderRead-after Status.processing c c₁ c' same (b, used, h) = (
    b,
    used,
    record {
      same_field = h.same_field ∙ same.same_field;
      same_type = h.same_type ∙ same.same_type;
    },
  )
  HeaderRead-after Status.continue c c₁ c' same (r, h) = (
    r,
    record {
      same_field = h.same_field ∙ same.same_field;
      same_type = h.same_type ∙ same.same_type;
    },
  )
  HeaderRead-after Status.fault c c₁ c' same h = tt
  HeaderRead-after Status.suspended c c₁ c' same h = h
  HeaderRead-after Status.finished c c₁ c' same h = h

  read_header-HeaderRead :
      (fuel : ℕ) (c : Context)
      → IsBetween host before payload c
      → c.processing_field ≡ false
      → HeaderRead c (read_header host fuel c).1 (read_header host fuel c).0
  read_header-HeaderRead zero c b out = unfold read_header in tt
  read_header-HeaderRead (suc fuel) c b out = elim (ℕ_discrete c.command_length 0) [
    | yes used ↦
        rw (read_header_used host fuel c used)
          (b, used, record { same_field = refl; same_type = refl })
    | no more ↦
        go (read_header_byte host c).0 (read_header_byte host c).1 refl
          (read_header_byte-ByteRead host c b.header.rlp_size out (omega arith)) more
          (λ c₁ b₁ out₁. read_header-HeaderRead fuel c₁ b₁ out₁)
  ]
    where
      go :
          (s : Status) (c₁ : Context)
          → read_header_byte host c ≡ (s, c₁)
          → ByteRead c c₁ s
          → c.command_length ≢ 0
          → ((c₂ : Context)
              → IsBetween host before payload c₂
              → c₂.processing_field ≡ false
              → HeaderRead c₂ (read_header host fuel c₂).1 (read_header host fuel c₂).0)
          → HeaderRead c (read_header host (suc fuel) c).1 (read_header host (suc fuel) c).0
      go Status.continue c₁ e (is, can_now) more ih =
          rw (read_header_stop host fuel c e more (λ x. cc), is)
            (byte_read-IsReady c b (omega arith), record { same_field = refl; same_type = refl })
      go Status.processing c₁ e (is, room, open_header) more ih =
          let b₁ : IsBetween host before payload c₁ =
            rw is
              (byte_read-IsBetween c b out (omega arith) (rw is at room) (rw is at open_header)) in
          rw (read_header_next host fuel c e more) (
            HeaderRead-after (read_header host fuel c₁).0 c c₁ (read_header host fuel c₁).1
              (rw is (record { same_field = refl; same_type = refl })) (ih c₁ b₁ (rw is out)))
      go Status.fault c₁ e h more ih = rw (read_header_stop host fuel c e more (λ x. cc)) tt
      go Status.suspended c₁ e h more ih = absurd h
      go Status.finished c₁ e h more ih = absurd h

  start_field-IsInField :
      (n offset : ℕ) (list : Bool) (c : Context)
      → (offset ≡ 0 → (n ≡ 1) × (list ≡ false))
      → IsReady c
      → IsInField host before payload (start_field n offset list c)
  unfolding start_field
  start_field-IsInField n offset list c alone r = elim (Bool-cases (offset == 0)) [
    | inl e ↦
        let back : c.work_pos - 1 + 1 ≡ c.work_pos = omega (arith, r.some_taken) in
        let (one, string) = alone (ground arith) in
        rw e (record {
          sizes = r.sizes;
          rlp_size = r.rlp_size;
          rlp_empty = refl;
          same_payload = r.same_payload;
          left = omega (arith, r.left, r.some_taken);
          all_hashed = rw back r.all_hashed;
          processing = refl;
          in_field = omega arith;
          single = λ p. (refl, one, string, omega arith);
        })
    | inr e ↦
        let back : c.work_pos + 0 ≡ c.work_pos = omega arith in
        rw e (record {
          sizes = r.sizes;
          rlp_size = r.rlp_size;
          rlp_empty = refl;
          same_payload = r.same_payload;
          left = r.left;
          all_hashed = rw back r.all_hashed;
          processing = refl;
          in_field = omega arith;
          single = λ p. cc;
        })
  ]

  -- What `parse_rlp` leaves: inside a field, or between two rounds with the command used up.
  abbrev pub HeaderParsed : Context → Context → Status → Type 0
  HeaderParsed c c' Status.continue = IsInField host before payload c' × SameField c c'
  HeaderParsed c c' Status.processing =
      IsBetween host before payload c' × (c'.command_length ≡ 0) × SameField c c'
  HeaderParsed c c' Status.fault = Unit
  HeaderParsed c c' s = ⊥

  pub parse_rlp-HeaderParsed :
      (c : Context)
      → IsBetween host before payload c
      → c.processing_field ≡ false
      → HeaderParsed c (parse_rlp host c).1 (parse_rlp host c).0
  parse_rlp-HeaderParsed c b out =
      go (read_header host 6 c).0 (read_header host 6 c).1 refl (read_header-HeaderRead 6 c b out)
    where
      decode :
          (c₁ : Context) (d : DecodeLength)
          → read_header host 6 c ≡ (Status.continue, c₁)
          → rlp_decode_length c₁.rlp_buffer c₁.rlp_buffer_pos ≡ d
          → IsReady c₁
          → SameField c c₁
          → HeaderParsed c (parse_rlp host c).1 (parse_rlp host c).0
      decode c₁ (decoded n offset list) e d r same = rw (parse_rlp_decoded host c e d) (
        start_field-IsInField n offset list c₁
            (λ z. decode_single c₁.rlp_buffer c₁.rlp_buffer_pos n list (rw z at d)) r,
        unfold start_field in record { same_field = same.same_field; same_type = same.same_type },
      )
      decode c₁ failed e d r same = rw (parse_rlp_failed host c e (inl d)) tt
      decode c₁ DecodeLength.bad_read e d r same = rw (parse_rlp_failed host c e (inr d)) tt

      go :
          (s : Status) (c₁ : Context)
          → read_header host 6 c ≡ (s, c₁)
          → HeaderRead c c₁ s
          → HeaderParsed c (parse_rlp host c).1 (parse_rlp host c).0
      go Status.continue c₁ e (r, same) =
          decode c₁ (rlp_decode_length c₁.rlp_buffer c₁.rlp_buffer_pos) e refl r same
      go Status.processing c₁ e h = rw (parse_rlp_stop host c e (λ x. cc)) h
      go Status.fault c₁ e h = rw (parse_rlp_stop host c e (λ x. cc)) tt
      go Status.suspended c₁ e h = absurd h
      go Status.finished c₁ e h = absurd h
