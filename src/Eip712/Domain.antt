-- ===== src/Eip712/Domain.antt =====
-- td_get_domain_chain_id and td_get_domain_contract_addr of typed_data.c: what the domain says of
-- the chain and of the contract. `u64_from_BE` and `is_zeroes_buffer` are the SDK's.
use ledger_ambire_signer.Base.{
  ℕ, ◌-◌, Bool, not, Option, none, some, List, [], ◌∷◌, ◌++◌, length, drop, replicate, ltb, ◌==◌,
  if◌then◌else◌,
}
use ledger_ambire_signer.Eip712.{
  sol_address, sol_string, Field, Value, atomic, struct_value, array_value, Children, no_children,
  child_then, same_string,
}
use ledger_ambire_signer.Eip712.Fields.{address_length}

pub record Reads : Type 0 where
  pub u64_from_be : List ℕ → ℕ
  pub is_zeroes_buffer : List ℕ → ℕ → Bool

-- "chainId", "verifyingContract" and "cosmos"
abbrev pub chain_id_key : List ℕ
chain_id_key = 99 ∷ 104 ∷ 97 ∷ 105 ∷ 110 ∷ 73 ∷ 100 ∷ []

abbrev pub verifying_contract_key : List ℕ
verifying_contract_key =
    118 ∷ 101 ∷ 114 ∷ 105 ∷ 102 ∷ 121 ∷ 105 ∷ 110 ∷ 103 ∷ 67 ∷ 111 ∷ 110 ∷ 116 ∷ 114 ∷ 97 ∷ 99 ∷ 116
    ∷ []

abbrev pub ethermint_vc : List ℕ
ethermint_vc = 99 ∷ 111 ∷ 115 ∷ 109 ∷ 111 ∷ 115 ∷ []

-- Zero bytes in front of the last eight are tolerated.
unfoldable pub leaf_chain_id : Reads → List ℕ → Option ℕ
leaf_chain_id reads bytes =
    if ltb 8 (length bytes)
    then (if not (reads.is_zeroes_buffer bytes (length bytes - 8))
        then none
        else some (reads.u64_from_be (drop (length bytes - 8) bytes)))
    else some (reads.u64_from_be bytes)

-- The loop over the children, which ends at the first leaf of that name.
unfoldable pub children_chain_id : Reads → Children → Option ℕ
children_chain_id reads no_children = none
children_chain_id reads (child_then (atomic f bytes) vs) =
    if same_string f.key_name chain_id_key
    then leaf_chain_id reads bytes
    else children_chain_id reads vs
children_chain_id reads (child_then v vs) = children_chain_id reads vs

unfoldable pub children_of : Value → Children
children_of (atomic f bytes) = no_children
children_of (struct_value s vs) = vs
children_of (array_value f vs) = vs

unfoldable pub td_get_domain_chain_id : Reads → Option Value → Option ℕ
td_get_domain_chain_id reads none = none
td_get_domain_chain_id reads (some domain) = children_chain_id reads (children_of domain)

-- An address, or the text that Ethermint puts there; the rest of the address is zeroed.
unfoldable pub leaf_contract_addr : Field → List ℕ → Option (List ℕ)
leaf_contract_addr f bytes =
    let copied = bytes ++ replicate (address_length - length bytes) 0 in
    elim f.type [
      | sol_address ↦ if not (length bytes == address_length) then none else some copied
      | sol_string ↦ if not (same_string bytes ethermint_vc) then none else some copied
      | _ ↦ none
    ]

unfoldable pub children_contract_addr : Children → Option (List ℕ)
children_contract_addr no_children = none
children_contract_addr (child_then (atomic f bytes) vs) =
    if same_string f.key_name verifying_contract_key
    then leaf_contract_addr f bytes
    else children_contract_addr vs
children_contract_addr (child_then v vs) = children_contract_addr vs

unfoldable pub td_get_domain_contract_addr : Option Value → Option (List ℕ)
td_get_domain_contract_addr none = none
td_get_domain_contract_addr (some domain) = children_contract_addr (children_of domain)
