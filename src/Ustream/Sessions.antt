-- ===== src/Ustream/Sessions.antt =====
-- Whole transactions: `process_tx` and `continue_tx` on the bytes of several commands.
use ledger_ambire_signer.Base.{
  ℕ, ◌+◌, ◌*◌, ◌≤◌, ◌<◌, ◌≡◌, refl, sym, ◌∙◌, Bool, true, false, List, [], ◌∷◌, ◌++◌, length, drop,
  take-append-drop, All, arith, inl, inr,
}
use mathlib.Core.List.{append-nil, append_assoc}
use ledger_ambire_signer.Base.Memory.{take-length_of}
use ledger_ambire_signer.Ustream.State.{Context, Host, Status}
use ledger_ambire_signer.Ustream.{parsing_is_done, process_tx}
use ledger_ambire_signer.Ustream.Invariant.{HasSizes}
use ledger_ambire_signer.Ustream.Commands.{
  IsIdle, Command, process_tx-Ends, Command-Ended, Ended-Consumed,
}

-- A transaction in several commands: those before the last are answered by a call for more with
-- fields still to come, and the last by "finished"; or it is still under way.
pub data Session (host : Host) (fuel : ℕ)
    : Context → List (List ℕ) → Status → Context → Type 0 where
  start : {c : Context} → Session host fuel c [] Status.processing c
  more :
      {c c₁ c' : Context} {payload : List ℕ} {payloads : List (List ℕ)} {s : Status}
      → Command host fuel (process_tx host fuel c payload) Status.processing c₁
      → parsing_is_done c₁ ≡ false
      → Session host fuel c₁ payloads s c'
      → Session host fuel c (payload ∷ payloads) s c'
  last :
      {c c' : Context} {payload : List ℕ}
      → Command host fuel (process_tx host fuel c payload) Status.finished c'
      → Session host fuel c (payload ∷ []) Status.finished c'

abbrev pub joined : List (List ℕ) → List ℕ
joined [] = []
joined (p ∷ ps) = p ++ joined ps

-- What a session leaves: all bytes are hashed, but for those behind the end of the transaction.
abbrev pub Absorbed : Host → Context → List (List ℕ) → Status → Context → Type 0
Absorbed host c payloads Status.processing c' =
    IsIdle host c' × (c'.hashed ≡ c.hashed ++ joined payloads)
Absorbed host c payloads Status.finished c' =
    HasSizes host c'.content
    × (parsing_is_done c' ≡ true)
    × (c'.hashed ++ drop c'.work_pos c'.payload ≡ c.hashed ++ joined payloads)
Absorbed host c payloads s c' = ⊥

whole_payload :
    (host : Host) (fuel : ℕ) (c : Context) (payload : List ℕ) (c₁ : Context)
    → 0 < host.v_size
    → IsIdle host c
    → 14 * (length payload + 2) ≤ fuel
    → Command host fuel (process_tx host fuel c payload) Status.processing c₁
    → parsing_is_done c₁ ≡ false
    → IsIdle host c₁ × (c₁.hashed ≡ c.hashed ++ payload)
whole_payload host fuel c payload c₁ some_v idle enough command undone =
    let ended =
      Command-Ended host c.hashed payload fuel command some_v enough
        (process_tx-Ends host c payload fuel some_v idle enough) in
    let (idle₁, hashed, why) = Ended-Consumed host c payload Status.processing c₁ ended in
    elim why [
      | inl all ↦ (idle₁, rw (all, take-length_of (length payload) payload (omega arith)) at hashed)
      | inr done ↦ let clash : ◌≡◌ {A = Bool} true false = sym done ∙ undone in cc clash
    ]

last_payload :
    (host : Host) (fuel : ℕ) (c : Context) (payload : List ℕ) (c' : Context)
    → 0 < host.v_size
    → IsIdle host c
    → 14 * (length payload + 2) ≤ fuel
    → Command host fuel (process_tx host fuel c payload) Status.finished c'
    → Absorbed host c (payload ∷ []) Status.finished c'
last_payload host fuel c payload c' some_v idle enough command =
    let (b, done) =
      Command-Ended host c.hashed payload fuel command some_v enough
        (process_tx-Ends host c payload fuel some_v idle enough) in
    (
      b.sizes,
      done,
      rw
          (
            b.all_hashed,
            b.same_payload,
            append_assoc,
            take-append-drop c'.work_pos payload,
            append-nil,
          )
          refl,
    )

Absorbed-after :
    (host : Host) (c c₁ c' : Context) (p : List ℕ) (ps : List (List ℕ)) (s : Status)
    → c₁.hashed ≡ c.hashed ++ p
    → Absorbed host c₁ ps s c'
    → Absorbed host c (p ∷ ps) s c'
Absorbed-after host c c₁ c' p ps Status.processing e (idle, hashed) =
    (idle, hashed ∙ (rw e (append_assoc c.hashed p (joined ps))))
Absorbed-after host c c₁ c' p ps Status.finished e (sizes, done, hashed) =
    (sizes, done, hashed ∙ (rw e (append_assoc c.hashed p (joined ps))))
Absorbed-after host c c₁ c' p ps Status.suspended e h = h
Absorbed-after host c c₁ c' p ps Status.fault e h = h
Absorbed-after host c c₁ c' p ps Status.continue e h = h

-- From an idle state: after any sequence of commands that each answer "processing" with fields
-- still to come, resumed wherever they were suspended, the state is idle, and the hash has absorbed
-- all their bytes joined, behind what it had absorbed. Where a last command answers "finished",
-- the hash has absorbed all bytes joined but those left of that command, no write went past a
-- buffer, and the last field is done.
pub Session-hashed :
    (host : Host) (fuel : ℕ) {c : Context} {payloads : List (List ℕ)} {s : Status} {c' : Context}
    → Session host fuel c payloads s c'
    → 0 < host.v_size
    → IsIdle host c
    → All (λ p. 14 * (length p + 2) ≤ fuel) payloads
    → Absorbed host c payloads s c'
Session-hashed host fuel {c = c} start some_v idle enough = (idle, sym (append-nil c.hashed))
Session-hashed host fuel {c = c} {s = s} {c' = c'}
      (more {c₁ = c₁} {payload = p} {payloads = ps} command undone rest) some_v idle
      (enough, enoughs) =
    let (idle₁, hashed) = whole_payload host fuel c p c₁ some_v idle enough command undone in
    Absorbed-after host c c₁ c' p ps s hashed (Session-hashed host fuel rest some_v idle₁ enoughs)
Session-hashed host fuel {c = c} {c' = c'} (last {payload = p} command) some_v idle
      (enough, enoughs) =
    last_payload host fuel c p c' some_v idle enough command
