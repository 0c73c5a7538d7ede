-- ===== src/Tlv/Tests.antt =====
-- The reassembly at concrete inputs.
use ledger_ambire_signer.Base.{
  ℕ, ◌+◌, ◌*◌, ◌%◌, ◌^◌, ◌<◌, refl, arith, Bool, true, false, some, List, [], ◌∷◌, get_or,
}
use ledger_ambire_signer.Tlv.{Tlv, reset_state, tlv_from_apdu}
use ledger_ambire_signer.Tlv.Reassembly.{
  receiving, Refines, tlv_from_apdu-Refines, reassemble, IsReceiving,
}
use ledger_ambire_signer.Tlv.Session.{Delivered, send_rest, tlv_from_apdu-Delivered}

-- A handler that keeps the payloads it got, and the SDK's reader.
abbrev keep_all : ℕ → List ℕ → List (List ℕ) → Bool × List (List ℕ)
keep_all h payload kept = (true, payload ∷ kept)

abbrev read_u16_be : List ℕ → ℕ → ℕ
read_u16_be bytes at = (get_or bytes at 0 * 256 + get_or bytes (at + 1) 0) % 2 ^ 16

read_u16_be_small : (bytes : List ℕ) → read_u16_be bytes 0 < 2 ^ 16
read_u16_be_small bytes = omega arith

-- Five bytes under way, two of which are there.
abbrev under_way : Tlv
under_way = record { payload = some (1 ∷ 2 ∷ 0 ∷ 0 ∷ 0 ∷ []); size = 5; pos = 2; handler = some 7 }

under_way-IsReceiving : IsReceiving 7 5 (1 ∷ 2 ∷ []) under_way
under_way-IsReceiving = record {
  buffer = 1 ∷ 2 ∷ 0 ∷ 0 ∷ 0 ∷ [];
  state = refl;
  buffer_size = refl;
  front = refl;
  incomplete = omega arith;
  bounded = omega arith;
}

tlv_from_apdu-Refines_example :
    Refines keep_all read_u16_be
      (tlv_from_apdu keep_all read_u16_be false (some (3 ∷ 4 ∷ [])) (some 7) under_way [] [])
      (reassemble keep_all read_u16_be false
        (some (3 ∷ 4 ∷ []))
        (some 7)
        (receiving 7 5 (1 ∷ 2 ∷ []))
        []
        [])
tlv_from_apdu-Refines_example =
    tlv_from_apdu-Refines keep_all read_u16_be false (some (3 ∷ 4 ∷ [])) (some 7) under_way
      (receiving 7 5 (1 ∷ 2 ∷ [])) [] [] read_u16_be_small under_way-IsReceiving

tlv_from_apdu-Delivered_example : Delivered keep_all read_u16_be 7 (1 ∷ 2 ∷ 3 ∷ 4 ∷ 5 ∷ []) [] (
    send_rest keep_all read_u16_be 7
      (tlv_from_apdu keep_all read_u16_be true
        (some (0 ∷ 5 ∷ 1 ∷ 2 ∷ []))
        (some 7)
        reset_state
        []
        [])
      ((3 ∷ 4 ∷ []) ∷ (5 ∷ []) ∷ []))
tlv_from_apdu-Delivered_example =
    tlv_from_apdu-Delivered keep_all read_u16_be 7 0 5 (1 ∷ 2 ∷ []) ((3 ∷ 4 ∷ []) ∷ (5 ∷ []) ∷ [])
      [] read_u16_be_small refl (omega arith) (omega arith)
