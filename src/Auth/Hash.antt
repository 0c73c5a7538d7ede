-- ===== src/Auth/Hash.antt =====
-- What is hashed of an authorization is RLP's list of its three parts.
use mathlib.Core.List.{append_assoc}
use ledger_ambire_signer.Base.{
  ℕ, ◌+◌, ◌^◌, ◌≤◌, ◌<◌, ◌≡◌, refl, ap, arith, true, false, some, List, [], ◌∷◌, ◌++◌, length,
  length-append, take, leb, ◌==◌, u8,
}
use ledger_ambire_signer.Base.Memory.{take-length_of}
use ledger_ambire_signer.Eip712.{Sdk, ◌>>=◌, hash_final}
use ledger_ambire_signer.Eip712.Refines.{
  Refines, Refines-next, Refines-same, app_mem_alloc-Refines, keccak_init-Refines,
  hash_update-Refines, hash_final-Refines,
}
use ledger_ambire_signer.Rlp.{encode_number}
use ledger_ambire_signer.Rlp.Headers.{header}
use ledger_ambire_signer.Rlp.Numbers.{encode_list_header8_lem}
use ledger_ambire_signer.Auth.{hash_rlp, hash_rlp64, auth_hash}
use ledger_ambire_signer.Auth.Items.{
  rlp_item, IsMinimal, Writes, item_written, delegate_written, length-item, IsNumber, IsNumber-of,
}

module _ (sdk : Sdk) where
  -- An item that is written is absorbed.
  hash_rlp-Refines :
      (bytes absorbed : List ℕ)
      → encode_number bytes 40 ≡ (rlp_item bytes, length (rlp_item bytes))
      → 1 ≤ length (rlp_item bytes)
      → Refines sdk (hash_rlp sdk bytes absorbed) (some (absorbed ++ rlp_item bytes))
  unfolding hash_rlp
  hash_rlp-Refines bytes absorbed e some_bytes =
      let there : (length (rlp_item bytes) == 0) ≡ false = ground arith in
      let whole : take (length (rlp_item bytes)) (rlp_item bytes) ≡ rlp_item bytes =
        take-length_of (length (rlp_item bytes)) (rlp_item bytes) (omega arith) in
      rw (e, there, whole) (hash_update-Refines sdk absorbed (rlp_item bytes))

  hash_rlp64-Refines :
      (write : ℕ → List ℕ) (n : ℕ) (digits absorbed : List ℕ)
      → IsNumber write n digits
      → Refines sdk (hash_rlp64 sdk write n absorbed) (some (absorbed ++ rlp_item digits))
  unfolding hash_rlp64
  hash_rlp64-Refines write n digits absorbed d =
      let few = d.minimal.few in
      rw (d.smallest, hash_rlp64, d.size)
        (hash_rlp-Refines digits absorbed
          (item_written digits d.minimal.no_zero_first (omega (arith, few)))
          (length-item digits (omega (arith, few))).0)

-- The text of an authorization: keccak (5 || rlp ([chain_id, delegate, nonce])) without the keccak.
unfoldable pub auth_text : List ℕ → List ℕ → List ℕ → List ℕ
auth_text chain_id delegate nonce =
    let items = rlp_item chain_id ++ (rlp_item delegate ++ rlp_item nonce) in
    5 ∷ (header true (length items) ++ items)

short_header :
    (size : ℕ)
    → size ≤ 55
    → ((length (header true size) == 0) ≡ false)
      × (take (length (header true size)) (header true size) ≡ header true size)
unfolding header
short_header size few = let e : leb size 55 ≡ true = ground arith in rw e (ground arith, refl)

module _ (sdk : Sdk) (write : ℕ → List ℕ) (chain_id nonce : ℕ) (c delegate d : List ℕ)
    (cs : IsNumber write chain_id c) (ds : IsNumber write nonce d)
    (count : length delegate ≡ 20) where
  items : List ℕ
  items = rlp_item c ++ (rlp_item delegate ++ rlp_item d)

  items_size :
      (u8 (u8 (length (rlp_item c) + 21) + length (rlp_item d)) ≡ length items)
      × (length items ≤ 55)
  unfolding items
  items_size =
      let c_few = cs.minimal.few in
      let d_few = ds.minimal.few in
      let c_size = length-item c (omega (arith, c_few)) in
      let d_size = length-item d (omega (arith, d_few)) in
      let (_, _, twenty_one) = delegate_written delegate count in
      let sum = length-append (rlp_item c) (rlp_item delegate ++ rlp_item d) in
      let sum' = length-append (rlp_item delegate) (rlp_item d) in
      (
        omega (arith, c_size, d_size, c_few, d_few, twenty_one, sum, sum'),
        omega (arith, c_size, d_size, c_few, d_few, twenty_one, sum, sum'),
      )

  three_items :
      (opened : List ℕ)
      → Refines sdk
          (hash_rlp64 sdk write chain_id opened >>= λ first.
            hash_rlp sdk delegate first >>= λ second.
            hash_rlp64 sdk write nonce second >>= λ text. hash_final sdk text)
          (some (sdk.keccak (opened ++ items)))
  unfolding items
  three_items opened =
      let (written, _, twenty_one) = delegate_written delegate count in
      Refines-next sdk _ _ _ _ (hash_rlp64-Refines sdk write chain_id c opened cs) (
        Refines-next sdk _ _ _ _
          (hash_rlp-Refines sdk delegate (opened ++ rlp_item c) written (omega (arith, twenty_one)))
          (Refines-next sdk _ _ _ _ (hash_rlp64-Refines sdk write nonce d _ ds) (
            Refines-same sdk _ _ _ (ap (λ (t : List ℕ). some (sdk.keccak t)) joined_items)
              (hash_final-Refines sdk _))))
    where
      joined_items :
          ((opened ++ rlp_item c) ++ rlp_item delegate) ++ rlp_item d
          ≡ opened ++ (rlp_item c ++ (rlp_item delegate ++ rlp_item d))
      joined_items = simp append_assoc

  auth_hash-text :
      Refines sdk
        (auth_hash sdk write chain_id delegate nonce)
        (some (sdk.keccak (auth_text c delegate d)))
  unfolding auth_hash auth_text items
  auth_hash-text =
      let (same, few) = items_size in
      let (_, announced_delegate, _) = delegate_written delegate count in
      let head = encode_list_header8_lem (length items) 39 (omega (arith, few)) (omega arith) in
      let (some_header, whole) = short_header (length items) few in
      rw (cs.announces, ds.announces, auth_hash, announced_delegate, same, head, some_header, whole)
        (Refines-next sdk _ tt _ _ (app_mem_alloc-Refines sdk) (
          Refines-next sdk _ [] _ _ (keccak_init-Refines sdk) (
            Refines-next sdk _ _ _ _ (hash_update-Refines sdk [] (5 ∷ header true (length items)))
              (three_items (5 ∷ header true (length items))))))

-- For 64-bit numbers and a delegate of 20 bytes, auth_hash fails or gives the hash of 5 and the RLP
-- list of the chain identifier, the delegate and the nonce, with the numbers in their minimal
-- big-endian bytes; it does not fail while there is memory and the SDK's Keccak works.
pub auth_hash-Refines :
    (sdk : Sdk) (write : ℕ → List ℕ) (chain_id nonce : ℕ) (delegate : List ℕ)
    → Writes write
    → chain_id < 2 ^ 64
    → nonce < 2 ^ 64
    → length delegate ≡ 20
    → (c d : List ℕ) × IsMinimal chain_id c
      × IsMinimal nonce d
      × Refines sdk
          (auth_hash sdk write chain_id delegate nonce)
          (some (sdk.keccak (auth_text c delegate d)))
auth_hash-Refines sdk write chain_id nonce delegate w small small' count =
    let (c, cs) = IsNumber-of write chain_id w small in
    let (d, ds) = IsNumber-of write nonce w small' in
    (c, d, cs.minimal, ds.minimal, auth_hash-text sdk write chain_id nonce c delegate d cs ds count)
