-- ===== src/Ustream/Answers.antt =====
-- custom_processor: what its answers leave, whichever plugin, settings and display.
use ledger_ambire_signer.Base.{
  ℕ, ◌+◌, ◌-◌, ◌%◌, ◌≤◌, ◌<◌, ◌≡◌, refl, true, false, not, ◌&&◌, ◌||◌, List, length, ltb, leb, ◌==◌,
  if◌then◌else◌, arith, Bool-cases, inl, inr,
}
use ledger_ambire_signer.Ustream.State.{Context, TokenContext, Host, CustomStatus}
use ledger_ambire_signer.Ustream.Fields.{nowhere, copy_tx_data}
use ledger_ambire_signer.Ustream.{fields_of}
use ledger_ambire_signer.Ustream.Custom.{
  is_rlp_data_field, set_token, custom_block, skip_selector, start_data, custom_processor,
}
use ledger_ambire_signer.Ustream.Invariant.{IsInField}
use ledger_ambire_signer.Ustream.Copies.{copied, copy_tx_data_result}
use ledger_ambire_signer.Ustream.Blocks.{
  Answered, IsInField-token, Answered-after, copied-IsInField, take_block-Answered,
}

-- The data is before the last field.
pub is_rlp_data_field-lt :
    (c : Context) → is_rlp_data_field c ≡ true → c.current_field < length (fields_of c.tx_type)
unfolding is_rlp_data_field
is_rlp_data_field-lt c h = ground arith

pub custom_processor_outside :
    (host : Host) (c : Context)
    → is_rlp_data_field c ≡ false
    → custom_processor host c ≡ (CustomStatus.not_handled, c)
unfolding custom_processor
custom_processor_outside host c e = ground arith

module _ (host : Host) (before payload : List ℕ) where
  custom_block-Answered :
      (c : Context)
      → IsInField host before payload c
      → c.field_single_byte ≡ false
      → Answered host before payload c (custom_block host c).1 (custom_block host c).0
  unfolding custom_block
  custom_block-Answered c v plain = elim (Bool-cases (c.current_field_pos == 0)) [
    | inl start ↦ elim (Bool-cases (not c.store_calldata && not host.data_allowed)) [
      | inl forbidden ↦ rw (start, forbidden) tt
      | inr allowed ↦ elim (Bool-cases (c.store_calldata || not host.contract_details)) [
        | inl passed ↦ rw (start, allowed, passed) (v, (refl, refl))
        | inr shown ↦
            let c₁ : Context =
              set_token c (record c.content.token { field_index = 0; field_offset = 0 }) in
            let v₁ : IsInField host before payload c₁ =
              IsInField-token host before payload c
                (record c.content.token { field_index = 0; field_offset = 0 }) v v.sizes.token_size
                (omega arith) in
            rw (start, allowed, shown)
              (Answered-after host before payload c c₁ _ _ (refl, refl) (omega arith) refl
                (take_block-Answered host before payload 4 c₁ v₁ plain (omega arith) (omega arith)))
      ]
    ]
    | inr later ↦
        elim (Bool-cases (
          c.store_calldata
          || (not host.contract_details
              && leb c.content.token.plugin_status host.result_unsuccessful))) [
                | inl passed ↦ rw (later, passed) (v, (refl, refl))
                | inr taken ↦
                    rw (later, taken)
                      (take_block-Answered host before payload
                        (32 - c.content.token.field_offset % 32) c v plain
                        (omega (arith, v.sizes.token_room)) (omega (arith, v.sizes.token_room)))
              ]
  ]

  skip_selector-Answered :
      (c : Context)
      → IsInField host before payload c
      → c.field_single_byte ≡ false
      → 4 ≤ c.command_length
      → c.current_field_pos + 4 ≤ c.current_field_length
      → Answered host before payload c (skip_selector host c).1 (skip_selector host c).0
  unfolding skip_selector
  skip_selector-Answered c v plain le inside =
      let c₁ : Context = copied c nowhere 0 4 in
      let v₁ : IsInField host before payload c₁ =
        copied-IsInField host before payload nowhere 0 4 c v plain le inside tt in
      elim (Bool-cases (copy_tx_data host c nowhere 0 4).0) [
        | inr stop ↦ rw stop tt
        | inl done ↦
            let (le', e) = copy_tx_data_result host c nowhere 0 4 done in
            elim (Bool-cases (c.current_field_length == 4)) [
              | inl only ↦ rw (done, e, only) (v₁, (refl, refl))
              | inr more ↦
                  rw (done, e, more)
                    (Answered-after host before payload c c₁ _ _ (refl, refl) (omega arith) refl
                      (custom_block-Answered c₁ v₁ plain))
            ]
      ]

  start_data-Answered :
      (c : Context)
      → IsInField host before payload c
      → c.field_single_byte ≡ false
      → c.current_field_pos ≡ 0
      → 4 ≤ c.current_field_length
      → Answered host before payload c (start_data host c).1 (start_data host c).0
  unfolding start_data
  start_data-Answered c v plain start long =
      let status : ℕ =
        if not c.store_calldata && (not host.contract_details || host.called_from_swap)
        then host.plugin_init
            (set_token c (record c.content.token { plugin_status = host.result_unavailable }))
        else host.result_unavailable in
      let started : TokenContext = record c.content.token { plugin_status = status } in
      let reset : TokenContext = record started { field_index = 0; field_offset = 0 } in
      let v₁ : IsInField host before payload (set_token c started) =
        IsInField-token host before payload c started v v.sizes.token_size v.sizes.token_room in
      let v₂ : IsInField host before payload (set_token c reset) =
        IsInField-token host before payload c reset v v.sizes.token_size (omega arith) in
      elim (Bool-cases (ltb c.command_length 4)) [
        | inl missing ↦ rw missing tt
        | inr there ↦ elim (Bool-cases (status == host.result_error)) [
          | inl wrong ↦ rw (there, wrong) tt
          | inr right ↦ elim (Bool-cases (leb host.result_successful status)) [
            | inl ready ↦
                rw (there, right, ready)
                  (Answered-after host before payload c (set_token c reset) _ _ (refl, refl)
                    (omega arith) refl
                    (skip_selector-Answered (set_token c reset) v₂ plain (ground arith)
                      (omega arith)))
            | inr alone ↦
                rw (there, right, alone)
                  (Answered-after host before payload c (set_token c started) _ _ (refl, refl)
                    (omega arith) refl (custom_block-Answered (set_token c started) v₁ plain))
          ]
        ]
      ]

  IsInField-noted :
      (c : Context)
      → IsInField host before payload c
      → IsInField host before payload (record c {
        content = record c.content { data_present = true; swap_tx_had_calldata = true };
      })
  IsInField-noted c v = record {
    sizes = record {
      nonce_size = v.sizes.nonce_size;
      startgas_size = v.sizes.startgas_size;
      gasprice_size = v.sizes.gasprice_size;
      value_size = v.sizes.value_size;
      chain_id_size = v.sizes.chain_id_size;
      destination_size = v.sizes.destination_size;
      v_buffer_size = v.sizes.v_buffer_size;
      token_size = v.sizes.token_size;
      token_room = v.sizes.token_room;
    };
    rlp_size = v.rlp_size;
    rlp_empty = v.rlp_empty;
    same_payload = v.same_payload;
    left = v.left;
    all_hashed = v.all_hashed;
    processing = v.processing;
    in_field = v.in_field;
    single = v.single;
  }

  plain_of_long :
      (c : Context)
      → IsInField host before payload c
      → 4 ≤ c.current_field_length
      → c.field_single_byte ≡ false
  plain_of_long c v long = elim (Bool-cases c.field_single_byte) [
    | inl e ↦ let (start, one, string, some_left) = v.single e in absurd (omega arith)
    | inr e ↦ e
  ]

  pub custom_processor-Answered :
      (c : Context)
      → IsInField host before payload c
      → Answered host before payload c (custom_processor host c).1 (custom_processor host c).0
  unfolding custom_processor
  custom_processor-Answered c v =
      let c₁ : Context = record c {
        content = record c.content { data_present = true; swap_tx_had_calldata = true };
      } in
      let v₁ : IsInField host before payload c₁ = IsInField-noted c v in
      elim (Bool-cases (not (is_rlp_data_field c && not (c.current_field_length == 0)))) [
        | inl other ↦ rw other (v, (refl, refl))
        | inr here ↦
            elim (Bool-cases (c.content.destination_length == 0 || ltb c.current_field_length 4)) [
              | inl left_alone ↦ rw (here, left_alone) (v₁, (refl, refl))
              | inr taken ↦
                  let long : 4 ≤ c.current_field_length = ground arith in
                  let plain = plain_of_long c₁ v₁ long in
                  elim (Bool-cases (c.current_field_pos == 0)) [
                    | inl start ↦
                        rw (here, taken, start)
                          (Answered-after host before payload c c₁ _ _ (refl, refl) (omega arith)
                            refl (start_data-Answered c₁ v₁ plain (ground arith) long))
                    | inr later ↦
                        rw (here, taken, later)
                          (Answered-after host before payload c c₁ _ _ (refl, refl) (omega arith)
                            refl (custom_block-Answered c₁ v₁ plain))
                  ]
            ]
      ]
