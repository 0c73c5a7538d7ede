-- ===== src/Uint128/Text.antt =====
-- tostring128: it ends, and it writes within its buffer.
use native.Mathlib.Nat.{pow-suc, mul-le-mul_left}
use ledger_ambire_signer.Base.{
  ℕ, zero, suc, ◌+◌, ◌-◌, ◌*◌, ◌^◌, ◌≤◌, ◌<◌, ◌≡◌, ◌∙◌, refl, ap, arith, Bool, true, false, not,
  ◌||◌, Option, some, List, [], ◌∷◌, ◌++◌, length, length-append, ltb, ◌==◌, if◌then◌else◌,
  Bool-cases, inl, inr, u8,
}
use ledger_ambire_signer.Utils.{reverse_string}
use ledger_ambire_signer.Utils.Reversal.{reverse_string-Keeps}
use ledger_ambire_signer.Uint128.{
  Uint128, Sdk, terminated, tostring128_loop, tostring128, divmod128, zero128,
}
use ledger_ambire_signer.Uint128.Arithmetic.{HasWords, value128, gt128-value}
use ledger_ambire_signer.Uint128.Quotient.{divmod128-IsQuotient}

module _ (sdk : Sdk) (base : Uint128) (out_length : ℕ) where
  abbrev add_digit : List ℕ → Uint128 → List ℕ
  add_digit out r = out ++ (sdk.hex_digit (u8 r.lower) ∷ [])

  loop_full :
      (fuel : ℕ) (n : Uint128) (out : List ℕ)
      → ltb (out_length - 1) (length out) ≡ true
      → tostring128_loop sdk (suc fuel) base out_length n out ≡ some (false, out)
  unfolding tostring128_loop
  loop_full fuel n out e = rw e refl

  loop_digit :
      (fuel : ℕ) (n : Uint128) (out : List ℕ) {q r : Uint128}
      → ltb (out_length - 1) (length out) ≡ false
      → divmod128 n base ≡ some (q, r)
      → tostring128_loop sdk (suc fuel) base out_length n out ≡ (
          if not (zero128 q)
          then tostring128_loop sdk fuel base out_length q (add_digit out r)
          else if ltb (out_length - 1) (length (add_digit out r))
          then some (false, add_digit out r)
          else terminated (reverse_string (add_digit out r) (length (add_digit out r))))
  unfolding tostring128_loop
  loop_digit fuel n out e d = rw (e, d) refl

  -- A result that stays within the buffer.
  abbrev Fits : Option (Bool × List ℕ) → Type 0
  Fits o = (done : Bool) × (text : List ℕ) × (o ≡ some (done, text)) × (length text ≤ out_length)

  last_digit-Fits :
      (text : List ℕ)
      → length text ≤ out_length
      → 0 < out_length
      → Fits (
          if ltb (out_length - 1) (length text)
          then some (false, text)
          else terminated (reverse_string text (length text)))
  last_digit-Fits text room some_room = elim (Bool-cases (ltb (out_length - 1) (length text))) [
    | inl full ↦ rw full (false, text, refl, room)
    | inr free ↦
        let (out, e, same) = reverse_string-Keeps text (length text) (omega arith) in
        let size : length (out ++ (0 ∷ [])) ≡ length text + 1 =
          length-append out (0 ∷ []) ∙ ap (λ (k : ℕ). k + 1) same in
        rw (free, e) (true, out ++ (0 ∷ []), refl, ground (arith, size))
  ]

  digit-Fits :
      (fuel : ℕ) (n : Uint128) (out : List ℕ) (q r : Uint128)
      → ltb (out_length - 1) (length out) ≡ false
      → 0 < out_length
      → divmod128 n base ≡ some (q, r)
      → HasWords q
      → (0 < value128 q
          → length (add_digit out r) ≤ out_length
          → Fits (tostring128_loop sdk fuel base out_length q (add_digit out r)))
      → Fits (tostring128_loop sdk (suc fuel) base out_length n out)
  digit-Fits fuel n out q r free some_room e wq more =
      let (gt, gte, eq, is_zero) = gt128-value q q wq wq in
      let size : length (add_digit out r) ≡ length out + 1 = length-append out _ in
      let fits : length out ≤ out_length - 1 = ground arith in
      let room : length (add_digit out r) ≤ out_length = omega arith in
      rw (loop_digit fuel n out free e, is_zero)
        (elim (Bool-cases (value128 q == 0)) [
          | inl last ↦ rw last (last_digit-Fits (add_digit out r) room some_room)
          | inr some_left ↦ rw some_left (more (ground arith) room)
        ])

  -- One round, with what the loop does of a smaller number.
  round-Fits :
      (fuel : ℕ) (n : Uint128) (out : List ℕ)
      → HasWords n
      → HasWords base
      → 2 ≤ value128 base
      → value128 n < 2 ^ fuel
      → length out ≤ out_length
      → 0 < out_length
      → ((q : Uint128) (text : List ℕ)
          → HasWords q
          → value128 q * 2 < 2 ^ fuel
          → 0 < value128 q
          → length text ≤ out_length
          → Fits (tostring128_loop sdk fuel base out_length q text))
      → Fits (tostring128_loop sdk (suc fuel) base out_length n out)
  round-Fits fuel n out wn wb two below room some_room more =
      elim (Bool-cases (ltb (out_length - 1) (length out))) [
        | inl full ↦ (false, out, loop_full fuel n out full, room)
        | inr free ↦
            let (q, r, e, wq, wr, divides, less) =
              divmod128-IsQuotient n base wn wb (omega arith) in
            let half : value128 q * 2 ≤ value128 q * value128 base =
              mul-le-mul_left (value128 q) two in
            digit-Fits fuel n out q r free some_room e wq
              (more q (add_digit out r) wq (omega arith))
      ]

  -- One round for each binary digit of the number is enough.
  tostring128_loop-Fits :
      (fuel : ℕ) (n : Uint128) (out : List ℕ)
      → HasWords n
      → HasWords base
      → 2 ≤ value128 base
      → value128 n < 2 ^ fuel
      → length out ≤ out_length
      → 0 < out_length
      → Fits (tostring128_loop sdk (suc fuel) base out_length n out)
  tostring128_loop-Fits zero n out wn wb two below room some_room =
      round-Fits zero n out wn wb two below room some_room
        (λ q text wq lt some_left fits. absurd (omega arith))
  tostring128_loop-Fits (suc fuel) n out wn wb two below room some_room =
      round-Fits (suc fuel) n out wn wb two below room some_room (λ q text wq lt some_left fits.
        tostring128_loop-Fits fuel q text wq wb two (omega (arith, pow-suc 2 fuel)) fits some_room)

-- For words within 64 bits, in every base and for every buffer size, tostring128 ends, the swaps of
-- the digits stay within those written, and what it writes fits the buffer.
pub tostring128-Fits :
    (sdk : Sdk) (n : Uint128) (base out_length : ℕ)
    → HasWords n
    → (done : Bool) × (text : List ℕ) × (tostring128 sdk n base out_length ≡ some (done, text))
      × (length text ≤ out_length)
unfolding tostring128
tostring128-Fits sdk n base out_length wn =
    elim (Bool-cases (out_length == 0 || (ltb base 2 || ltb 16 base))) [
      | inl refused ↦ rw refused (false, [], refl, omega arith)
      | inr taken ↦
          let in_base : (2 ≤ base) × (base ≤ 16) × (0 < out_length) = ground arith in
          rw taken (
            tostring128_loop-Fits sdk (record { upper = 0; lower = base }) out_length 128 n [] wn
              (omega arith) (omega arith) (omega arith) (omega arith) (omega arith))
    ]
