-- ===== src/Auth/Tests.antt =====
-- An authorization on chain 1 with nonce 0.
use ledger_ambire_signer.Base.{
  ℕ, ◌/◌, ◌%◌, ◌^◌, ◌≡◌, refl, arith, true, List, [], ◌∷◌, ◌++◌, replicate, some,
}
use ledger_ambire_signer.Base.Bytes.{be_value}
use ledger_ambire_signer.Eip712.{Sdk}
use ledger_ambire_signer.Eip712.Refines.{Refines}
use ledger_ambire_signer.Rlp.Headers.{header}
use ledger_ambire_signer.Auth.{auth_hash}
use ledger_ambire_signer.Auth.Items.{rlp_item, IsMinimal, Writes}
use ledger_ambire_signer.Auth.Hash.{auth_text, auth_hash-Refines}

abbrev sdk : Sdk
sdk = record {
  init_ok = true;
  update_ok = λ absorbed bytes. true;
  final_ok = λ absorbed. true;
  keccak = λ bytes. bytes;
  print_unsigned = λ n. [];
  flist_sort = λ test items. items;
}

abbrev write : ℕ → List ℕ
write n =
    (n / 2 ^ 56 % 256)
    ∷ (n / 2 ^ 48 % 256)
    ∷ (n / 2 ^ 40 % 256)
    ∷ (n / 2 ^ 32 % 256)
    ∷ (n / 2 ^ 24 % 256)
    ∷ (n / 2 ^ 16 % 256)
    ∷ (n / 2 ^ 8 % 256)
    ∷ (n % 256)
    ∷ []

write-Writes : Writes write
unfolding be_value
write-Writes = record {
  eight = λ n. refl;
  bytes = λ n. (
    omega arith,
    (
      omega arith,
      (omega arith, (omega arith, (omega arith, (omega arith, (omega arith, (omega arith, tt)))))),
    ),
  );
  number = λ n lt. omega arith;
}

-- 5, the list header of 23 bytes, 1, the 20 bytes behind their header, and the empty string for 0.
text_1 :
    auth_text (1 ∷ []) (replicate 20 7) [] ≡ (5 ∷ 0xd7 ∷ 1 ∷ 0x94 ∷ replicate 20 7) ++ (0x80 ∷ [])
unfolding auth_text rlp_item header
text_1 = refl

auth_hash-Refines_example :
    (c d : List ℕ) × IsMinimal 1 c
    × IsMinimal 0 d
    × Refines sdk
        (auth_hash sdk write 1 (replicate 20 7) 0)
        (some (sdk.keccak (auth_text c (replicate 20 7) d)))
auth_hash-Refines_example =
    auth_hash-Refines sdk write 1 0 (replicate 20 7) write-Writes (omega arith) (omega arith) refl
