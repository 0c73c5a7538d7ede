-- ===== src/Ustream/Fields.antt =====
-- The handlers of the single fields, `process_content` to `process_v`.
use ledger_ambire_signer.Base.{
  ℕ, ◌+◌, ◌-◌, min, Bool, true, false, not, ◌&&◌, Option, none, some, List, [], ◌∷◌, ◌++◌, length,
  take, drop, get_or, ltb, leb, ◌==◌, if◌then◌else◌,
}
use ledger_ambire_signer.Base.Memory.{copy_at}
use ledger_ambire_signer.Calldata.{calldata_init, calldata_append}
use ledger_ambire_signer.Ustream.State.{Context, Content, Int256, Host, Step}

abbrev pub address_length : ℕ
address_length = 20

abbrev pub int256_length : ℕ
int256_length = 32

-- Where a field's bytes go.
pub data Dest : Type 0 where
  nowhere to_nonce to_startgas to_gasprice to_value to_chain_id to_destination to_v to_token_data :
      Dest

abbrev pub put_bytes : Int256 → ℕ → List ℕ → Int256
put_bytes n pos bytes = record n { value = copy_at n.value pos bytes }

-- memmove to the destination's buffer at `pos`.
unfoldable pub store : Dest → ℕ → List ℕ → Content → Content
store nowhere pos bytes c = c
store to_nonce pos bytes c = record c { nonce = put_bytes c.nonce pos bytes }
store to_startgas pos bytes c = record c { startgas = put_bytes c.startgas pos bytes }
store to_gasprice pos bytes c = record c { gasprice = put_bytes c.gasprice pos bytes }
store to_value pos bytes c = record c { value = put_bytes c.value pos bytes }
store to_chain_id pos bytes c = record c { chain_id = put_bytes c.chain_id pos bytes }
store to_destination pos bytes c = record c { destination = copy_at c.destination pos bytes }
store to_v pos bytes c = record c { v = copy_at c.v pos bytes }
store to_token_data pos bytes c = record c {
  token = record c.token { data_bytes = copy_at c.token.data_bytes pos bytes };
}

-- The assignment of the field's length when it is complete.
unfoldable pub set_length : Dest → ℕ → Content → Content
set_length nowhere n c = c
set_length to_nonce n c = record c { nonce = record { value = c.nonce.value; len = n } }
set_length to_startgas n c = record c { startgas = record { value = c.startgas.value; len = n } }
set_length to_gasprice n c = record c { gasprice = record { value = c.gasprice.value; len = n } }
set_length to_value n c = record c { value = record { value = c.value.value; len = n } }
set_length to_chain_id n c = record c { chain_id = record { value = c.chain_id.value; len = n } }
set_length to_destination n c = record c { destination_length = n }
set_length to_v n c = record c { v_length = n }
set_length to_token_data n c = c

-- `length` 0 is no bound.
unfoldable pub check_fields : Context → ℕ → Bool
check_fields c length =
    not c.current_field_is_list && not (ltb 0 length && ltb length c.current_field_length)

unfoldable pub check_empty_list : Context → Bool
check_empty_list c = c.current_field_is_list

unfoldable pub check_cmd_length : Context → ℕ → Bool
check_cmd_length c length = not (ltb c.command_length length)

-- The bytes from the work pointer on.
abbrev pub work_bytes : Context → ℕ → List ℕ
work_bytes c n = take n (drop c.work_pos c.payload)

-- A byte that is its own encoding was hashed when its header was read.
abbrev pub is_hashed : Context → Bool
is_hashed c = c.processing_field && c.field_single_byte

-- `cx_hash_no_throw` on the context: it absorbs the bytes, or it fails.
abbrev pub absorb : Host → Context → List ℕ → Step
absorb host c bytes =
    if is_hashed c
    then (true, c)
    else if host.hash_ok c.hashed bytes
    then (true, record c { hashed = c.hashed ++ bytes })
    else (false, c)

abbrev pub advance : Context → ℕ → Context
advance c n = record c {
  work_pos = c.work_pos + n;
  command_length = c.command_length - n;
  current_field_pos = if c.processing_field then c.current_field_pos + n else c.current_field_pos;
}

unfoldable pub copy_tx_data : Host → Context → Dest → ℕ → ℕ → Step
unfolding check_cmd_length
copy_tx_data host c dest at n =
    if not (check_cmd_length c n)
    then (false, c)
    else let bytes = work_bytes c n in
      let c' = record c { content = store dest at bytes c.content } in
      let (done, c'') = absorb host c' bytes in if done then (true, advance c'' n) else (false, c'')

unfoldable pub read_tx_byte : Host → Context → Bool × ℕ × Context
unfolding check_cmd_length
read_tx_byte host c =
    if not (check_cmd_length c 1)
    then (false, 0, c)
    else let byte = get_or c.payload c.work_pos 0 in
      let c' = advance c 1 in let (done, c'') = absorb host c' (byte ∷ []) in (done, byte, c'')

-- The end of a handler: on to the next field when this one is complete.
unfoldable pub next_field : Context → Context
next_field c = record c { current_field = c.current_field + 1; processing_field = false }

unfoldable pub finish_field : Dest → Context → Context
unfolding set_length next_field
finish_field dest c =
    if c.current_field_pos == c.current_field_length
    then next_field (record c { content = set_length dest c.current_field_length c.content })
    else c

-- The part that the handlers share: take what the command has of the field, at most `at_most` bytes
-- at once (`none`: no such bound), and end the field if that is all of it.
abbrev pub copy_size : Context → ℕ
copy_size c = min c.command_length (c.current_field_length - c.current_field_pos)

abbrev pub capped : Option ℕ → ℕ → ℕ
capped none n = n
capped (some k) n = min n k

unfoldable pub take_field : Host → Dest → Option ℕ → Context → Step
take_field host dest at_most c =
    if ltb c.current_field_pos c.current_field_length
    then (let n = capped at_most (copy_size c) in
        let (done, c') = copy_tx_data host c dest c.current_field_pos n in
        if done then (true, finish_field dest c') else (false, c'))
    else (true, finish_field dest c)

unfoldable pub process_content : Context → Step
unfolding check_empty_list next_field
process_content c =
    if check_empty_list c
    then (true, next_field (record c { data_length = c.current_field_length }))
    else (false, c)

-- process_access_list and process_auth_list have the same body.
unfoldable pub process_list : Host → Context → Step
unfolding check_empty_list
process_list host c = if check_empty_list c then take_field host nowhere none c else (false, c)

-- process_chain_id, process_nonce, process_start_gas (and its alias process_gas_limit),
-- process_gasprice and process_value: the same body over the bound and the destination.
unfoldable pub process_number : Host → Dest → ℕ → Context → Step
unfolding check_fields
process_number host dest bound c =
    if check_fields c bound then take_field host dest none c else (false, c)

unfoldable pub process_to : Host → Context → Step
unfolding check_fields
process_to host c =
    if not (check_fields c address_length)
    then (false, c)
    else if not (c.current_field_length == 0) && not (c.current_field_length == address_length)
    then (false, c)
    else take_field host to_destination none c

unfoldable pub process_v : Host → Context → Step
unfolding check_fields
process_v host c =
    if check_fields c host.v_size then take_field host to_v (some host.v_size) c else (false, c)

unfoldable pub process_and_discard : Host → Context → Step
unfolding check_fields
process_and_discard host c = if check_fields c 0 then take_field host nowhere none c else (false, c)

-- The calldata of a stored transaction: its object is made from the first four bytes, and takes
-- the others.
unfoldable pub store_data : Context → ℕ → Step
store_data c n =
    let bytes = work_bytes c n in
    let (fresh, heap) = calldata_init (c.current_field_length - 4) (some (work_bytes c n)) c.heap in
    let (done, kept, heap') = calldata_append c.parked bytes c.heap in
    let (done', made, heap'') = calldata_append fresh (drop 4 bytes) heap in
    if c.current_field_pos == 0
    then (if ltb n 4 then (false, c) else elim fresh [
      | none ↦ (false, record c { parked = none; heap = heap })
      | some s ↦ (done', record c { parked = made; heap = heap'' })
    ])
    else (done, record c { parked = kept; heap = heap' })

unfoldable pub keep_selector : Context → ℕ → Context
keep_selector c n =
    if c.current_field_pos == 0 && leb 4 n then record c { selector_bytes = work_bytes c 4 } else c

unfoldable pub process_data : Host → Context → Step
unfolding check_fields
process_data host c =
    if not (check_fields c 0)
    then (false, c)
    else if ltb c.current_field_pos c.current_field_length
    then (let n = copy_size c in
        let c' = keep_selector c n in
        let (kept, c'') = if c.store_calldata then store_data c' n else (true, c') in
        let (done, c''') = copy_tx_data host c'' nowhere 0 n in
        if not kept
        then (false, c'')
        else if done
        then (true, finish_field nowhere c''')
        else (false, c'''))
    else (true, finish_field nowhere c)
