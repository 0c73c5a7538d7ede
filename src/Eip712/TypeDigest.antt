-- ===== src/Eip712/TypeDigest.antt =====
-- type_hash: the digest of a struct's type with those it depends on.
use ledger_ambire_signer.Base.{ℕ, ◌≡◌, refl, ap, ◌∙◌, Option, some, List, [], ◌++◌, All}
use ledger_ambire_signer.Eip712.{Struct, StructPtr, Sdk, td_find_struct}
use ledger_ambire_signer.Eip712.Types.{type_hash}
use ledger_ambire_signer.Eip712.Refines.{IsUp}
use ledger_ambire_signer.Eip712.Reference.{
  names_before, struct_deps, struct_text, deps_text, type_digest,
}
use ledger_ambire_signer.Eip712.Order.{insertion_sort, Sorts}
use ledger_ambire_signer.Eip712.Sorted.{sorted_names}
use ledger_ambire_signer.Eip712.Texts.{Prints}
use ledger_ambire_signer.Eip712.TypeHash.{type_hash-Refines}
use ledger_ambire_signer.Eip712.Closure.{IsClosure, struct_deps-IsClosure}
use ledger_ambire_signer.Eip712.Worklist.{IsResolved, found-IsResolved, struct_deps_total}

type_digest_of :
    (sdk : Sdk) (structs : List Struct) (name : List ℕ) (s : StructPtr) (deps : List StructPtr)
    → td_find_struct structs name ≡ some s
    → struct_deps structs s.def ≡ some deps
    → type_digest sdk structs name
      ≡ some (sdk.keccak (struct_text s.def ++ deps_text s (sdk.flist_sort names_before deps)))
unfolding type_digest
type_digest_of sdk structs name s deps found e = rw (found, e) refl

-- Where the SDK's sort is a stable sort, every struct that a field names is defined, and memory and
-- the SDK's Keccak work, type_hash of a defined struct ends and gives the digest of the struct's
-- text and those of its dependencies, which are all structs that are reached through fields, each
-- once, in the order of their names as in a dictionary.
pub type_hash_lem :
    (sdk : Sdk) (structs : List Struct) (name : List ℕ) (s : StructPtr)
    → Sorts sdk
    → Prints sdk
    → IsUp sdk
    → All (IsResolved structs) structs
    → td_find_struct structs name ≡ some s
    → (deps : List StructPtr) × IsClosure structs s.def deps
      × (type_hash sdk structs name [] ≡ (
        some (sdk.keccak (struct_text s.def ++ deps_text s (insertion_sort names_before deps))),
        [],
      ))
type_hash_lem sdk structs name s sorts prints up all found =
    let (resolved, _) = found-IsResolved structs name s all found in
    let (deps, e) = struct_deps_total structs s.def all resolved in
    (
      deps,
      struct_deps-IsClosure structs s.def deps e,
      (type_hash-Refines sdk prints structs name).complete up
          ∙ ap (λ (o : Option (List ℕ)). (o, []))
              (type_digest_of sdk structs name s deps found e
                ∙ ap
                    (λ (ds : List StructPtr).
                      some (sdk.keccak (struct_text s.def ++ deps_text s ds)))
                    (sorted_names sdk sorts deps)),
    )
