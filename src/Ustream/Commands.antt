-- ===== src/Ustream/Commands.antt =====
-- Whole commands: `process_tx` on the bytes of one APDU, with the interruptions of its display.
use ledger_ambire_signer.Base.{
  ℕ, ◌+◌, ◌-◌, ◌*◌, ◌≤◌, ◌<◌, ◌≡◌, ◌⊎◌, refl, sym, ◌∙◌, true, false, if◌then◌else◌, Bool-cases,
  Option, some, List, ◌++◌, length, take, arith, inl, inr,
}
use native.Mathlib.Nat.{mul-le-mul_right}
use mathlib.Core.Path.{subst₂}
use mathlib.Core.List.{append-nil}
use ledger_ambire_signer.Ustream.State.{Context, Host, Status, TxType}
use ledger_ambire_signer.Ustream.{fields_of, parsing_is_done, process_tx, continue_tx}
use ledger_ambire_signer.Ustream.Invariant.{HasSizes, HasOpenHeader, IsBetween}
use ledger_ambire_signer.Ustream.Rounds.{IsWithin}
use ledger_ambire_signer.Ustream.Loop.{Ended, process_tx_internal-Ended}

-- A parser that waits for a command.
pub record IsIdle (host : Host) (c : Context) : Type 0 where
  pub sizes : HasSizes host c.content
  pub header : HasOpenHeader c
  pub in_field : c.processing_field ≡ true → c.current_field_pos ≤ c.current_field_length
  pub not_single : c.processing_field ≡ true → c.field_single_byte ≡ false
  pub closed : c.processing_field ≡ true → c.rlp_buffer_pos ≡ 0
  pub within : IsWithin c

-- What a command of the bytes `payload` leaves, by its status. The bytes hashed are those taken,
-- once each and in order; a fault ends the transaction, and nothing is said of what it leaves.
abbrev pub Consumed : Host → Context → List ℕ → Status → Context → Type 0
Consumed host c payload Status.processing c' =
    IsIdle host c'
    × (c'.hashed ≡ c.hashed ++ take c'.work_pos payload)
    × ((c'.work_pos ≡ length payload) ⊎ (parsing_is_done c' ≡ true))
Consumed host c payload Status.suspended c' =
    IsIdle host c'
    × (c'.hashed ≡ c.hashed ++ take c'.work_pos payload)
    × (c'.payload ≡ payload)
    × (c'.work_pos + c'.command_length ≡ length payload)
Consumed host c payload Status.finished c' =
    HasSizes host c'.content
    × (c'.hashed ≡ c.hashed ++ take c'.work_pos payload)
    × (c'.work_pos ≤ length payload)
    × (parsing_is_done c' ≡ true)
Consumed host c payload Status.continue c' = ⊥
Consumed host c payload Status.fault c' = Unit

IsBetween-IsIdle :
    (host : Host) (before payload : List ℕ) (c : Context)
    → IsBetween host before payload c
    → IsWithin c
    → IsIdle host c
IsBetween-IsIdle host before payload c b w = record {
  sizes = b.sizes;
  header = b.header;
  in_field = b.in_field;
  not_single = b.not_single;
  closed = b.closed;
  within = w;
}

pub Ended-Consumed :
    (host : Host) (c : Context) (payload : List ℕ) (s : Status) (c' : Context)
    → Ended host c.hashed payload s c'
    → Consumed host c payload s c'
Ended-Consumed host c payload Status.processing c' (b, w, why) = (
  IsBetween-IsIdle host c.hashed payload c' b w,
  b.all_hashed,
  elim why [ inl used ↦ inl (omega (arith, b.left)) | inr done ↦ inr done ],
)
Ended-Consumed host c payload Status.suspended c' (b, w) =
    (IsBetween-IsIdle host c.hashed payload c' b w, b.all_hashed, b.same_payload, b.left)
Ended-Consumed host c payload Status.finished c' (b, done) =
    (b.sizes, b.all_hashed, omega (arith, b.left), done)
Ended-Consumed host c payload Status.continue c' e = e
Ended-Consumed host c payload Status.fault c' e = tt

few_fields : (t : TxType) → length (fields_of t) ≤ 12
few_fields TxType.legacy = omega arith
few_fields TxType.eip2930 = omega arith
few_fields TxType.eip1559 = omega arith
few_fields TxType.eip7702 = omega arith
few_fields TxType.other = omega arith

-- Fuel that is enough from any place of the parser.
enough_fuel :
    (payload : List ℕ) (fuel : ℕ) (c : Context)
    → c.command_length ≤ length payload
    → 14 * (length payload + 2) ≤ fuel
    → (length (fields_of c.tx_type) - c.current_field) * (length payload + 2)
        + (if c.processing_field then c.command_length else length payload + 1)
        + 1
      ≤ fuel
enough_fuel payload fuel c le enough =
    let few : length (fields_of c.tx_type) - c.current_field ≤ 12 =
      omega (arith, few_fields c.tx_type) in
    let product : (length (fields_of c.tx_type) - c.current_field) * (length payload + 2)
        ≤ 12 * (length payload + 2) =
      mul-le-mul_right (length payload + 2) few in
    elim (Bool-cases c.processing_field) [
      | inl p ↦ rw p (omega (arith, product))
      | inr q ↦ rw q (omega (arith, product))
    ]

-- An answer of the loop, with what it says of the state.
abbrev Ends : Host → List ℕ → List ℕ → Option (Status × Context) → Type 0
Ends host before payload o =
    (s : Status) × (c' : Context) × (o ≡ some (s, c')) × Ended host before payload s c'

pub process_tx-Ends :
    (host : Host) (c : Context) (payload : List ℕ) (fuel : ℕ)
    → 0 < host.v_size
    → IsIdle host c
    → 14 * (length payload + 2) ≤ fuel
    → Ends host c.hashed payload (process_tx host fuel c payload)
unfolding process_tx
process_tx-Ends host c payload fuel some_v idle enough =
    let c₀ : Context = record c {
      payload = payload;
      work_pos = 0;
      command_length = length payload;
    } in
    process_tx_internal-Ended host c.hashed payload fuel c₀ some_v
      (record {
        sizes = idle.sizes;
        header = record {
          rlp_size = idle.header.rlp_size;
          rlp_room = idle.header.rlp_room;
          undecided = idle.header.undecided;
        };
        same_payload = refl;
        left = omega arith;
        all_hashed = sym (append-nil c.hashed);
        in_field = idle.in_field;
        not_single = idle.not_single;
        closed = idle.closed;
      })
      idle.within (inl (enough_fuel payload fuel c₀ (omega arith) enough))

continue_tx-Ends :
    (host : Host) (before payload : List ℕ) (c : Context) (fuel : ℕ)
    → 0 < host.v_size
    → IsBetween host before payload c
    → IsWithin c
    → 14 * (length payload + 2) ≤ fuel
    → Ends host before payload (continue_tx host fuel c)
unfolding continue_tx
continue_tx-Ends host before payload c fuel some_v b w enough =
    process_tx_internal-Ended host before payload fuel c some_v b w
      (inl (enough_fuel payload fuel c (omega (arith, b.left)) enough))

-- From an idle state: fourteen rounds for each byte of the command and two more bytes are enough
-- for it to be answered, whatever plugins, settings and the hash answer. Where the answer is not a
-- fault, no write went past a buffer, and the bytes taken were hashed once each, in order; where it
-- is "processing", the state is idle again, and all bytes were taken or the last field is done;
-- where it is "suspended", the state is idle but for the bytes that are left of the command; where
-- it is "finished", the last field is done. Of the state after a fault nothing is stated.
pub process_tx-Consumed :
    (host : Host) (c : Context) (payload : List ℕ) (fuel : ℕ)
    → 0 < host.v_size
    → IsIdle host c
    → 14 * (length payload + 2) ≤ fuel
    → (s : Status) × (c' : Context) × (process_tx host fuel c payload ≡ some (s, c'))
      × Consumed host c payload s c'
process_tx-Consumed host c payload fuel some_v idle enough =
    let (s, c', run, ended) = process_tx-Ends host c payload fuel some_v idle enough in
    (s, c', run, Ended-Consumed host c payload s c' ended)

-- The answers to one command: it is resumed by `continue_tx` as often as it is suspended.
pub data Command (host : Host) (fuel : ℕ)
    : Option (Status × Context) → Status → Context → Type 0 where
  answered :
      {o : Option (Status × Context)} {s : Status} {c' : Context}
      → o ≡ some (s, c')
      → Command host fuel o s c'
  resumed :
      {o : Option (Status × Context)} {c₁ : Context} {s : Status} {c' : Context}
      → o ≡ some (Status.suspended, c₁)
      → Command host fuel (continue_tx host fuel c₁) s c'
      → Command host fuel o s c'

Ended-same :
    (host : Host) (before payload : List ℕ) {o : Option (Status × Context)} {s : Status}
    {c' : Context}
    → Ends host before payload o
    → o ≡ some (s, c')
    → Ended host before payload s c'
Ended-same host before payload {s = s} {c' = c'} (s₀, c₀, run, ended) e =
    let same : ◌≡◌ {A = Option (Status × Context)} (some (s₀, c₀)) (some (s, c')) = sym run ∙ e in
    let (es, ec) : (s₀ ≡ s) × (c₀ ≡ c') = (cc, cc) in
    subst₂ (λ a b. Ended host before payload a b) es ec ended

pub Command-Ended :
    (host : Host) (before payload : List ℕ) (fuel : ℕ) {o : Option (Status × Context)} {s : Status}
    {c' : Context}
    → Command host fuel o s c'
    → 0 < host.v_size
    → 14 * (length payload + 2) ≤ fuel
    → Ends host before payload o
    → Ended host before payload s c'
Command-Ended host before payload fuel (answered e) some_v enough ends =
    Ended-same host before payload ends e
Command-Ended host before payload fuel (resumed {c₁ = c₁} e rest) some_v enough ends =
    let (b, w) : Ended host before payload Status.suspended c₁ =
      Ended-same host before payload ends e in
    Command-Ended host before payload fuel rest some_v enough
      (continue_tx-Ends host before payload c₁ fuel some_v b w enough)
