-- ===== src/Ustream/Custom.antt =====
-- custom_processor of src/features/sign_tx/logic_sign_tx.c: it takes the call data of a transaction
-- over, block by block, for a plugin or for the display of each parameter. The display is not
-- modelled, and a plugin is its answers.
use ledger_ambire_signer.Base.{
  ℕ, ◌+◌, ◌-◌, ◌%◌, Bool, true, false, not, ◌&&◌, ◌||◌, replicate, ltb, leb, ◌==◌, if◌then◌else◌,
  u8, u16,
}
use ledger_ambire_signer.Ustream.State.{
  Context, TokenContext, TxType, legacy, eip2930, eip1559, eip7702, CustomStatus, Host,
}
use ledger_ambire_signer.Ustream.Fields.{nowhere, to_token_data, copy_tx_data, finish_field}

-- The places of the data among the fields of each type.
unfoldable pub is_rlp_data_field : Context → Bool
is_rlp_data_field c = elim c.tx_type [
  | legacy ↦ c.current_field == 7
  | eip2930 ↦ c.current_field == 8
  | eip1559 ↦ c.current_field == 9
  | eip7702 ↦ c.current_field == 9
  | TxType.other ↦ false
]

abbrev pub calldata_selector_size : ℕ
calldata_selector_size = 4

abbrev pub calldata_chunk_size : ℕ
calldata_chunk_size = 32

abbrev pub set_token : Context → TokenContext → Context
set_token c t = record c { content = record c.content { token = t } }

-- `copied` bytes of a block are at hand: a whole block goes to the plugin, or is displayed.
unfoldable pub handle_block : Host → ℕ → ℕ → ℕ → Context → CustomStatus × Context
handle_block host field_pos block copied c =
    let t = record c.content.token { field_offset = u8 (c.content.token.field_offset + copied) } in
    let c' = set_token c t in
    if not (copied == block)
    then (CustomStatus.handled, c')
    else if leb host.result_successful t.plugin_status
    then (if host.plugin_provide c' copied
        then (
          CustomStatus.handled,
          set_token c' (record t {
            field_index = u16 (t.field_index + 1);
            field_offset = 0;
            data_bytes = replicate calldata_chunk_size 0;
          }),
        )
        else (CustomStatus.fault, c'))
    else (
      CustomStatus.suspended,
      set_token c' (record t {
        field_index = if field_pos == 0 then t.field_index else u16 (t.field_index + 1);
        field_offset = 0;
      }),
    )

abbrev pub at_most : ℕ → ℕ → ℕ
at_most bound n = if ltb n bound then n else bound

-- The part of a block of `bound` bytes that the command has. The place in the field is at most the
-- field's length.
unfoldable pub take_block : Host → ℕ → Context → CustomStatus × Context
take_block host bound c =
    let block = at_most bound (c.current_field_length - c.current_field_pos) in
    let size = at_most block c.command_length in
    let (done, c') = copy_tx_data host c to_token_data c.content.token.field_offset size in
    if done
    then handle_block host c.current_field_pos block size (finish_field nowhere c')
    else (CustomStatus.fault, c')

unfoldable pub custom_block : Host → Context → CustomStatus × Context
custom_block host c =
    if c.current_field_pos == 0
    then (if not c.store_calldata && not host.data_allowed
        then (CustomStatus.fault, c)
        else if c.store_calldata || not host.contract_details
        then (CustomStatus.not_handled, c)
        else take_block host calldata_selector_size
            (set_token c (record c.content.token { field_index = 0; field_offset = 0 })))
    else if c.store_calldata
        || (not host.contract_details && leb c.content.token.plugin_status host.result_unsuccessful)
    then (CustomStatus.not_handled, c)
    else take_block host (calldata_chunk_size - c.content.token.field_offset % calldata_chunk_size)
        c

-- The selector is passed over when a plugin takes the data.
unfoldable pub skip_selector : Host → Context → CustomStatus × Context
skip_selector host c =
    let (done, c') = copy_tx_data host c nowhere 0 calldata_selector_size in
    if not done
    then (CustomStatus.fault, c')
    else if c'.current_field_length == calldata_selector_size
    then (CustomStatus.not_handled, c')
    else custom_block host c'

-- The beginning of the data: a plugin may start.
unfoldable pub start_data : Host → Context → CustomStatus × Context
start_data host c =
    let c₀ = set_token c (record c.content.token { plugin_status = host.result_unavailable }) in
    let status =
      if not c.store_calldata && (not host.contract_details || host.called_from_swap)
      then host.plugin_init c₀
      else host.result_unavailable in
    let started = record c.content.token { plugin_status = status } in
    if ltb c.command_length calldata_selector_size
    then (CustomStatus.fault, c)
    else if status == host.result_error
    then (CustomStatus.fault, set_token c started)
    else if leb host.result_successful status
    then skip_selector host (set_token c (record started { field_index = 0; field_offset = 0 }))
    else custom_block host (set_token c started)

unfoldable pub custom_processor : Host → Context → CustomStatus × Context
custom_processor host c =
    let c' = record c {
      content = record c.content { data_present = true; swap_tx_had_calldata = true };
    } in
    if not (is_rlp_data_field c && not (c.current_field_length == 0))
    then (CustomStatus.not_handled, c)
    else if c.content.destination_length == 0 || ltb c.current_field_length calldata_selector_size
    then (CustomStatus.not_handled, c')
    else if c.current_field_pos == 0
    then start_data host c'
    else custom_block host c'
