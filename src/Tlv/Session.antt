-- ===== src/Tlv/Session.antt =====
-- A payload cut into commands, from the first to the last.
use mathlib.Core.Path.{subst}
use mathlib.Core.List.{append_assoc, append-nil}
use ledger_ambire_signer.Base.{
  ℕ, ◌+◌, ◌^◌, ◌<◌, ◌≡◌, refl, sym, ap, ◌∙◌, arith, Bool, true, false, some, List, [], ◌∷◌, ◌++◌,
  length, ltb, ◌==◌, length-append, Bool-cases, inl, inr, All,
}
use ledger_ambire_signer.Base.Memory.{Heap, alloc}
use ledger_ambire_signer.Tlv.{TlvRet, Tlv, reset_state, answer, tlv_from_apdu}
use ledger_ambire_signer.Tlv.Reassembly.{
  Reassembly, waiting, receiving, IsReceiving, add_bytes, reassemble, start_payload, Refines,
  tlv_from_apdu-Refines, Represents,
}

abbrev pub joined : List (List ℕ) → List ℕ
joined [] = []
joined (p ∷ ps) = p ++ joined ps

module _ {W : Type 0} (run : ℕ → List ℕ → W → Bool × W) (read : List ℕ → ℕ → ℕ) where
  -- The sender goes on while the answer is "pending"; the commands not sent come back.
  unfoldable pub send_rest :
      ℕ → TlvRet × Tlv × Heap × W → List (List ℕ) → TlvRet × Tlv × W × List (List ℕ)
  send_rest h (ret, t, heap, w) [] = (ret, t, w, [])
  send_rest h (ret, t, heap, w) (p ∷ ps) =
      let rest = send_rest h (tlv_from_apdu run read false (some p) (some h) t heap w) ps in
      elim ret [ TlvRet.pending ↦ rest | r ↦ (r, t, w, p ∷ ps) ]

  unfoldable pub Delivered : ℕ → List ℕ → W → TlvRet × Tlv × W × List (List ℕ) → Type 0
  Delivered h message w (ret, t, w', unsent) =
      (ret ≡ answer (run h message w).0)
      × (w' ≡ (run h message w).1)
      × (t ≡ reset_state)
      × (unsent ≡ [])

  -- An answer to the bytes received so far.
  add_bytes_all :
      (h size : ℕ) (message : List ℕ) (w : W)
      → 0 < length message
      → length message ≡ size
      → add_bytes run h size message w ≡ (answer (run h message w).0, waiting, (run h message w).1)
  unfolding add_bytes
  add_bytes_all h size message w some_bytes e = ground arith

  add_bytes_part :
      (h size : ℕ) (received : List ℕ) (w : W)
      → length received < size
      → add_bytes run h size received w ≡ (TlvRet.pending, receiving h size received, w)
  unfolding add_bytes
  add_bytes_part h size received w lt = ground arith

  -- One more chunk, by what the abstract view makes of it.
  chunk_answer :
      (h size : ℕ) (received p : List ℕ) (t : Tlv) (heap : Heap) (w : W) {r : TlvRet}
      {a : Reassembly} {w' : W}
      → ((bytes : List ℕ) → read bytes 0 < 2 ^ 16)
      → IsReceiving h size received t
      → add_bytes run h size (received ++ p) w ≡ (r, a, w')
      → ((tlv_from_apdu run read false (some p) (some h) t heap w).0 ≡ r)
        × ((tlv_from_apdu run read false (some p) (some h) t heap w).3 ≡ w')
        × Represents a (tlv_from_apdu run read false (some p) (some h) t heap w).1
  unfolding reassemble Refines
  chunk_answer h size received p t heap w small v e =
      let same : (h == h) ≡ true = ground arith in
      let refined : Refines run read (tlv_from_apdu run read false (some p) (some h) t heap w)
          (reassemble run read false (some p) (some h) (receiving h size received) heap w) =
        tlv_from_apdu-Refines run read false (some p) (some h) t (receiving h size received) heap w
          small v in
      let (er, eh, ew, v') = rw (same, e) at refined in (er, ew, v')

  abbrev IsSome : List ℕ → Type 0
  IsSome p = 0 < length p

  joined_nil : (ps : List (List ℕ)) → All IsSome ps → length (joined ps) ≡ 0 → ps ≡ []
  joined_nil [] all e = refl
  joined_nil (p ∷ ps) (some_bytes, all) e = absurd (omega (arith, length-append p (joined ps)))

  answered_stops :
      (h : ℕ) (b : Bool) (x : TlvRet × Tlv × Heap × W)
      → x.0 ≡ answer b
      → send_rest h x [] ≡ (answer b, x.1, x.3, [])
  unfolding send_rest
  answered_stops h b x e = rw e refl

  pending_goes_on :
      (h : ℕ) (x : TlvRet × Tlv × Heap × W) (p : List ℕ) (ps : List (List ℕ))
      → x.0 ≡ TlvRet.pending
      → send_rest h x (p ∷ ps)
        ≡ send_rest h (tlv_from_apdu run read false (some p) (some h) x.1 x.2 x.3) ps
  unfolding send_rest
  pending_goes_on h x p ps e = rw e refl

  rest-Delivered :
      (h size : ℕ) (received : List ℕ) (x : TlvRet × Tlv × Heap × W) (ps : List (List ℕ))
      → ((bytes : List ℕ) → read bytes 0 < 2 ^ 16)
      → All IsSome ps
      → x.0 ≡ TlvRet.pending
      → IsReceiving h size received x.1
      → length (received ++ joined ps) ≡ size
      → Delivered h (received ++ joined ps) x.3 (send_rest h x ps)
  unfolding Delivered
  rest-Delivered h size received x [] small all er v total =
      absurd (omega (arith, v.incomplete, length-append received []))
  rest-Delivered h size received x (p ∷ ps) small (some_bytes, all) er v total =
      let sum : received ++ (p ++ joined ps) ≡ (received ++ p) ++ joined ps =
        sym (append_assoc received p (joined ps)) in
      let y : TlvRet × Tlv × Heap × W =
        tlv_from_apdu run read false (some p) (some h) x.1 x.2 x.3 in
      let split : length ((received ++ p) ++ joined ps)
          ≡ length (received ++ p) + length (joined ps) =
        length-append (received ++ p) (joined ps) in
      let whole : length ((received ++ p) ++ joined ps) ≡ size =
        ap (λ (t : List ℕ). length t) (sym sum) ∙ total in
      let taken : length (received ++ p) ≡ length received + length p = length-append received p in
      rw (pending_goes_on h x p ps er, sum)
        (elim (Bool-cases (length (received ++ p) == size)) [
          | inl full ↦
              let all_there : length (received ++ p) ≡ size = ground arith in
              let none_left : ps ≡ [] = joined_nil ps all (omega arith) in
              let (ey, ew, idle) =
                chunk_answer h size received p x.1 x.2 x.3 small v
                  (add_bytes_all h size (received ++ p) x.3 (omega arith) all_there) in
              rw
                (
                  none_left,
                  append-nil (received ++ p),
                  answered_stops h (run h (received ++ p) x.3).0 y ey,
                )
                (refl, ew, idle, refl)
          | inr part ↦
              let some_left : length (received ++ p) < size = ground arith in
              let (ey, ew, v') =
                chunk_answer h size received p x.1 x.2 x.3 small v
                  (add_bytes_part h size (received ++ p) x.3 some_left) in
              subst (λ u. Delivered h ((received ++ p) ++ joined ps) u (send_rest h y ps)) ew
                (rest-Delivered h size (received ++ p) y ps small all ey v' whole)
        ])

  first_answer :
      (h b0 b1 : ℕ) (start : List ℕ) (w : W) {r : TlvRet} {a : Reassembly} {w' : W}
      → ((bytes : List ℕ) → read bytes 0 < 2 ^ 16)
      → add_bytes run h (read (b0 ∷ b1 ∷ start) 0) start w ≡ (r, a, w')
      → let y = tlv_from_apdu run read true (some (b0 ∷ b1 ∷ start)) (some h) reset_state [] w in
        (y.0 ≡ r) × (y.3 ≡ w') × Represents a y.1
  unfolding reassemble start_payload alloc Refines
  first_answer h b0 b1 start w small e =
      let long : ltb (length (b0 ∷ b1 ∷ start)) 2 ≡ false = ground arith in
      let refined : Refines run read
          (tlv_from_apdu run read true (some (b0 ∷ b1 ∷ start)) (some h) reset_state [] w)
          (reassemble run read true (some (b0 ∷ b1 ∷ start)) (some h) waiting [] w) =
        tlv_from_apdu-Refines run read true (some (b0 ∷ b1 ∷ start)) (some h) reset_state waiting []
          w small refl in
      elim (Bool-cases (ltb (length start) (read (b0 ∷ b1 ∷ start) 0))) [
        | inl more ↦ let (er, eh, ew, v) = rw (long, more, e) at refined in (er, ew, v)
        | inr fits ↦ let (er, eh, ew, v) = rw (long, fits, e) at refined in (er, ew, v)
      ]

  -- With memory at hand, an idle device that gets a payload in any pieces (the first behind the
  -- payload's size, and perhaps empty; the others not) answers "pending" up to the last piece. At
  -- that one it calls the handler, once and on the whole payload, answers what the handler says,
  -- and is idle again.
  pub tlv_from_apdu-Delivered :
      (h b0 b1 : ℕ) (start : List ℕ) (pieces : List (List ℕ)) (w : W)
      → ((bytes : List ℕ) → read bytes 0 < 2 ^ 16)
      → read (b0 ∷ b1 ∷ start) 0 ≡ length (start ++ joined pieces)
      → 0 < length (start ++ joined pieces)
      → All IsSome pieces
      → Delivered h (start ++ joined pieces) w (
          send_rest h
            (tlv_from_apdu run read true (some (b0 ∷ b1 ∷ start)) (some h) reset_state [] w)
            pieces)
  unfolding Delivered
  tlv_from_apdu-Delivered h b0 b1 start pieces w small announced some_bytes all =
      let size : ℕ = read (b0 ∷ b1 ∷ start) 0 in
      let y : TlvRet × Tlv × Heap × W =
        tlv_from_apdu run read true (some (b0 ∷ b1 ∷ start)) (some h) reset_state [] w in
      let split : length (start ++ joined pieces) ≡ length start + length (joined pieces) =
        length-append start (joined pieces) in
      elim (Bool-cases (length start == size)) [
        | inl full ↦
            let all_there : length start ≡ size = ground arith in
            let none_left : pieces ≡ [] = joined_nil pieces all (omega arith) in
            let (ey, ew, idle) =
              first_answer h b0 b1 start w small
                (add_bytes_all h size start w (omega arith) all_there) in
            rw (none_left, append-nil start, answered_stops h (run h start w).0 y ey)
              (refl, ew, idle, refl)
        | inr part ↦
            let some_left : length start < size = ground arith in
            let (ey, ew, v) =
              first_answer h b0 b1 start w small (add_bytes_part h size start w some_left) in
            subst (λ u. Delivered h (start ++ joined pieces) u (send_rest h y pieces)) ew
              (rest-Delivered h size start y pieces small all ey v (sym announced))
      ]
