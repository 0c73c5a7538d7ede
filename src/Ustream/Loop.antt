-- ===== src/Ustream/Loop.antt =====
-- The loop of `process_tx_internal`: how many rounds are enough, and what it leaves.
use ledger_ambire_signer.Base.{
  ℕ, zero, suc, ◌+◌, ◌-◌, ◌*◌, ◌≤◌, ◌<◌, ◌≡◌, ◌≢◌, ◌⊎◌, refl, ap, ◌∙◌, true, if◌then◌else◌,
  Bool-cases, some, List, length, arith, inl, inr,
}
use ledger_ambire_signer.Ustream.State.{Context, Host, Status, TxType}
use ledger_ambire_signer.Ustream.{
  fields_of, parsing_is_done, finish_tx, tx_round, process_tx_internal,
}
use ledger_ambire_signer.Ustream.Invariant.{IsBetween}
use ledger_ambire_signer.Ustream.Blocks.{HasProgress}
use ledger_ambire_signer.Ustream.Rounds.{IsWithin, Rounded, tx_round-Rounded}

internal_next :
    (host : Host) (fuel : ℕ) (c : Context) {c' : Context}
    → tx_round host c ≡ (Status.continue, c')
    → process_tx_internal host (suc fuel) c ≡ process_tx_internal host fuel c'
unfolding process_tx_internal
internal_next host fuel c e = ground arith

internal_stop :
    (host : Host) (fuel : ℕ) (c : Context) {s : Status} {c' : Context}
    → tx_round host c ≡ (s, c')
    → s ≢ Status.continue
    → process_tx_internal host (suc fuel) c ≡ some (s, c')
unfolding process_tx_internal
internal_stop host fuel c {s} e stop = ground arith

-- With no bytes left there is no further round.
tx_round_used_stops :
    (host : Host) (c : Context) {c' : Context}
    → c.command_length ≡ 0
    → tx_round host c ≢ (Status.continue, c')
unfolding tx_round finish_tx
tx_round_used_stops host c used e = ground arith

module _ (host : Host) (before payload : List ℕ) where
  -- What a command's status says of the state that it leaves.
  abbrev pub Ended : Status → Context → Type 0
  Ended Status.processing c =
      IsBetween host before payload c
      × IsWithin c
      × ((c.command_length ≡ 0) ⊎ (parsing_is_done c ≡ true))
  Ended Status.finished c = IsBetween host before payload c × (parsing_is_done c ≡ true)
  Ended Status.continue c = ⊥
  Ended Status.suspended c = IsBetween host before payload c × IsWithin c
  Ended Status.fault c = Unit

  -- A bound of the rounds still needed: in each field at most one for each byte of the command.
  abbrev pub rounds_left : Context → ℕ
  rounds_left c =
      (length (fields_of c.tx_type) - c.current_field) * (length payload + 2)
      + (if c.processing_field then c.command_length else length payload + 1)
      + 1

  abbrev pub IsEnough : ℕ → Context → Type 0
  IsEnough fuel c = (rounds_left c ≤ fuel) ⊎ ((c.command_length ≡ 0) × (1 ≤ fuel))

  in_field_rounds :
      (c : Context)
      → c.command_length ≤ length payload
      → (if c.processing_field then c.command_length else length payload + 1) ≤ length payload + 1
  in_field_rounds c le = ground arith

  rounds_left-next :
      (c c' : Context)
      → c'.tx_type ≡ c.tx_type
      → IsWithin c'
      → c'.command_length ≤ length payload
      → c'.current_field ≡ c.current_field + 1
      → rounds_left c' < rounds_left c
  rounds_left-next c c' type w le next =
      let same = ap (λ (t : TxType). length (fields_of t)) type in
      let d' : ℕ = length (fields_of c'.tx_type) - c'.current_field in
      let d : length (fields_of c.tx_type) - c.current_field ≡ suc d' = omega (arith, same) in
      let product : suc d' * (length payload + 2)
          ≡ d' * (length payload + 2) + (length payload + 2) =
        grind arith in
      let whole : (length (fields_of c.tx_type) - c.current_field) * (length payload + 2)
          ≡ d' * (length payload + 2) + (length payload + 2) =
        ap (λ (k : ℕ). k * (length payload + 2)) d ∙ product in
      omega (arith, whole, in_field_rounds c' le)

  rounds_left-inside :
      (c c' : Context)
      → c'.tx_type ≡ c.tx_type
      → c'.command_length ≤ length payload
      → c'.current_field ≡ c.current_field
      → c'.processing_field ≡ true
      → (c.processing_field ≡ true → c'.command_length < c.command_length)
      → rounds_left c' < rounds_left c
  rounds_left-inside c c' type le stays inside less =
      rw (type, stays, inside)
        (elim (Bool-cases c.processing_field) [
          | inl p ↦ let l = less p in rw p (omega arith)
          | inr q ↦ rw q (omega arith)
        ])

  IsEnough-next :
      (fuel : ℕ) (c c' : Context)
      → IsWithin c'
      → c'.command_length ≤ length payload
      → HasProgress c c'
      → IsEnough (suc fuel) c
      → c.command_length ≢ 0
      → IsEnough fuel c'
  IsEnough-next fuel c c' w le p (inr (used, some_fuel)) more = absurd (more used)
  IsEnough-next fuel c c' w le p (inl enough) more = elim p.moved [
    | inl next ↦ inl (omega (arith, rounds_left-next c c' p.same_type w le next))
    | inr (inl (stays, used)) ↦ inr (used, some_round c enough more)
    | inr (inr (stays, inside, less)) ↦
        inl (omega (arith, rounds_left-inside c c' p.same_type le stays inside less))
  ]
    where
      some_round : (c : Context) → rounds_left c ≤ suc fuel → c.command_length ≢ 0 → 1 ≤ fuel
      some_round c enough more = ground arith

  pub process_tx_internal-Ended :
      (fuel : ℕ) (c : Context)
      → 0 < host.v_size
      → IsBetween host before payload c
      → IsWithin c
      → IsEnough fuel c
      → (s : Status) × (c' : Context) × (process_tx_internal host fuel c ≡ some (s, c'))
        × Ended s c'
  process_tx_internal-Ended zero c some_v b w (inl enough) = absurd (omega arith)
  process_tx_internal-Ended zero c some_v b w (inr enough) = absurd (omega arith)
  process_tx_internal-Ended (suc fuel) c some_v b w enough =
      go (tx_round host c).0 (tx_round host c).1 refl
        (tx_round-Rounded host before payload some_v c b w)
        (λ c₁ b₁ w₁ enough₁. process_tx_internal-Ended fuel c₁ some_v b₁ w₁ enough₁)
    where
      go :
          (s : Status) (c₁ : Context)
          → tx_round host c ≡ (s, c₁)
          → Rounded host before payload some_v c c₁ s
          → ((c₂ : Context)
              → IsBetween host before payload c₂
              → IsWithin c₂
              → IsEnough fuel c₂
              → (s' : Status) × (c' : Context) × (process_tx_internal host fuel c₂ ≡ some (s', c'))
                × Ended s' c')
          → (s' : Status) × (c' : Context) × (process_tx_internal host (suc fuel) c ≡ some (s', c'))
            × Ended s' c'
      go Status.continue c₁ e (b₁, p, w₁) ih =
          let more : c.command_length ≢ 0 = λ used. tx_round_used_stops host c used e in
          let (s', c', run, ended) =
            ih c₁ b₁ w₁ (IsEnough-next fuel c c₁ w₁ (omega (arith, b₁.left)) p enough more) in
          (s', c', internal_next host fuel c e ∙ run, ended)
      go Status.processing c₁ e (b₁, w₁, why) ih =
          (Status.processing, c₁, internal_stop host fuel c e (λ x. cc), (b₁, w₁, why))
      go Status.finished c₁ e h ih = (Status.finished, c₁, internal_stop host fuel c e (λ x. cc), h)
      go Status.suspended c₁ e (b₁, p, w₁) ih =
          (Status.suspended, c₁, internal_stop host fuel c e (λ x. cc), (b₁, w₁))
      go Status.fault c₁ e h ih = (Status.fault, c₁, internal_stop host fuel c e (λ x. cc), tt)
