-- ===== src/Eip712/Tests.antt =====
-- A domain with a chain identifier and a message with a nested struct and an array, and the
-- theorems at them.
use ledger_ambire_signer.Base.{
  length-replicate, take, IsByte, ℕ, zero, suc, ◌+◌, ◌^◌, ◌≡◌, refl, ap, arith, Bool, true, none,
  some, List, [], ◌∷◌, ◌++◌, length, replicate, All,
}
use ledger_ambire_signer.Base.Memory.{Heap, alloc}
use ledger_ambire_signer.Base.Bytes.{be_value}
use ledger_ambire_signer.Eip712.{
  type_struct, sol_uint, array_fixed_size, Field, Struct, StructPtr, Value, atomic, struct_value,
  array_value, Children, no_children, child_then, Sdk, ◌>>=◌, app_mem_alloc, pure, td_find_struct,
  td_find_struct_if, same_string,
}
use ledger_ambire_signer.Eip712.Fields.{field_encode, encode_int}
use ledger_ambire_signer.Eip712.Types.{type_hash, compare_struct_deps}
use ledger_ambire_signer.Eip712.Values.{hash_value, Impl, SigningContext, value_hash_pass}
use ledger_ambire_signer.Eip712.Refines.{IsUp, Refines, and_then}
use ledger_ambire_signer.Eip712.Reference.{
  listed, lexicographic, names_before, decimal_digits, decimal, type_text, levels_text, field_text,
  rest_text, fields_text, struct_text, field_dep, field_deps, deps_from, struct_deps, deps_text,
  type_digest, padded_left, atomic_digest, value_digest, height, height_below,
}
use ledger_ambire_signer.Eip712.Texts.{Prints}
use ledger_ambire_signer.Eip712.Closure.{IsClosure, struct_deps-IsClosure}
use ledger_ambire_signer.Eip712.Worklist.{resolves, IsResolved}
use ledger_ambire_signer.Eip712.Order.{
  insertion_sort, insert_sorted, Sorts, compare_struct_deps-lexicographic,
}
use ledger_ambire_signer.Eip712.Sorted.{with_own_sort}
use ledger_ambire_signer.Eip712.TypeDigest.{type_hash_lem}
use ledger_ambire_signer.Eip712.Encoding.{encode_int-value}
use ledger_ambire_signer.Eip712.Digests.{is_container}
use ledger_ambire_signer.Eip712.Domain.{
  Reads, chain_id_key, leaf_chain_id, children_chain_id, children_of, td_get_domain_chain_id,
  children_contract_addr, td_get_domain_contract_addr,
}
use ledger_ambire_signer.Eip712.ChainId.{
  all_zeroes, IsReads, first_leaf, fitting, td_get_domain_chain_id-first_leaf,
}
use ledger_ambire_signer.Eip712.Leaves.{
  td_create_leaf, td_leaf_is_complete, write_pieces, td_leaf_session,
}
use ledger_ambire_signer.Calldata.Chunks.{joined}
use ledger_ambire_signer.Eip712.Pass.{
  IsHashable, hash_value-Refines, value_hash_pass-digests, value_hash_pass_succeeds,
  hash_value_too_deep,
}

-- A Keccak that always works; the sum of the bytes stands for its digest.
sum : List ℕ → ℕ
sum [] = 0
sum (x ∷ xs) = x + sum xs

abbrev sdk : Sdk
sdk = record {
  init_ok = true;
  update_ok = λ absorbed bytes. true;
  final_ok = λ absorbed. true;
  keccak = λ bytes. sum bytes ∷ [];
  print_unsigned = λ n. decimal_digits 10 n;
  flist_sort = insertion_sort;
}

sdk-Sorts : Sorts sdk
sdk-Sorts test order items = refl

sdk-Prints : Prints sdk
sdk-Prints = λ n lt. refl

sdk-IsUp : IsUp sdk
sdk-IsUp = record {
  init_works = refl;
  update_works = λ absorbed bytes. refl;
  final_works = λ absorbed. refl;
}

-- "uint256 id", and a field that names the struct "P", as an array of two.
abbrev id_field : Field
id_field = record {
  type = sol_uint;
  struct_name = [];
  type_size = 32;
  key_name = 105 ∷ 100 ∷ [];
  array_levels = [];
}

abbrev pair_field : Field
pair_field = record {
  type = type_struct;
  struct_name = 80 ∷ [];
  type_size = 0;
  key_name = 112 ∷ [];
  array_levels = array_fixed_size 2 ∷ [];
}

-- The message "M" with an array of "P", which refers to itself.
abbrev part : Struct
part = record { name = 80 ∷ []; fields = id_field ∷ (pair_field ∷ []) }

abbrev main : Struct
main = record { name = 77 ∷ []; fields = pair_field ∷ [] }

abbrev structs : List Struct
structs = main ∷ (part ∷ [])

abbrev main_ptr : StructPtr
main_ptr = record { place = 0; def = main }

abbrev part_ptr : StructPtr
part_ptr = record { place = 1; def = part }

-- "M(P[2] p)"
main_text : struct_text main ≡ 77 ∷ 40 ∷ 80 ∷ 91 ∷ 50 ∷ 93 ∷ 32 ∷ 112 ∷ 41 ∷ []
unfolding struct_text fields_text rest_text field_text type_text levels_text decimal decimal_digits
main_text = refl

main_deps : struct_deps structs main ≡ some (part_ptr ∷ [])
unfolding struct_deps field_deps field_dep deps_from td_find_struct td_find_struct_if same_string
    listed
main_deps = refl

struct_deps-IsClosure_example : IsClosure structs main (part_ptr ∷ [])
struct_deps-IsClosure_example = struct_deps-IsClosure structs main (part_ptr ∷ []) main_deps

All-IsResolved : All (IsResolved structs) structs
unfolding resolves td_find_struct td_find_struct_if same_string
All-IsResolved = ((refl, tt), ((refl, (refl, tt)), tt))

type_hash_lem_example :
    (deps : List StructPtr) × IsClosure structs main deps
    × (type_hash sdk structs (77 ∷ []) [] ≡ (
      some (sdk.keccak (struct_text main ++ deps_text main_ptr (insertion_sort names_before deps))),
      [],
    ))
type_hash_lem_example =
    type_hash_lem sdk structs (77 ∷ []) main_ptr sdk-Sorts sdk-Prints sdk-IsUp All-IsResolved
      (unfold td_find_struct td_find_struct_if same_string in refl)

compare_struct_deps-lexicographic_example :
    compare_struct_deps part_ptr main_ptr ≡ lexicographic (80 ∷ []) (77 ∷ [])
compare_struct_deps-lexicographic_example = compare_struct_deps-lexicographic part_ptr main_ptr

-- Two parts in an array, which have empty arrays.
abbrev part_value : ℕ → Value
part_value n = struct_value part (
    child_then (atomic id_field (n ∷ []))
      (child_then (array_value pair_field no_children) no_children))

abbrev message : Value
message = struct_value main (
    child_then
      (array_value pair_field (child_then (part_value 1) (child_then (part_value 2) no_children)))
      no_children)

message-IsHashable : IsHashable message
unfolding is_container height height_below
message-IsHashable = record { container = refl; shallow = omega arith }

hash_value-Refines_example :
    Refines sdk
      (hash_value sdk structs 0 message)
      (value_digest (with_own_sort sdk) structs message)
hash_value-Refines_example =
    hash_value-Refines sdk structs message sdk-Sorts sdk-Prints message-IsHashable

-- EIP712Domain with a field "id".
abbrev domain_struct : Struct
domain_struct = record {
  name = 69 ∷ 73 ∷ 80 ∷ 55 ∷ 49 ∷ 50 ∷ 68 ∷ 111 ∷ 109 ∷ 97 ∷ 105 ∷ 110 ∷ [];
  fields = id_field ∷ [];
}

abbrev all_structs : List Struct
all_structs = domain_struct ∷ (main ∷ (part ∷ []))

abbrev domain : Value
domain = struct_value domain_struct (child_then (atomic id_field (1 ∷ [])) no_children)

domain-IsHashable : IsHashable domain
unfolding is_container height height_below
domain-IsHashable = record { container = refl; shallow = omega arith }

message_digest : value_digest sdk all_structs message ≡ some (5134 ∷ [])
unfolding value_digest type_digest struct_deps field_deps field_dep deps_from td_find_struct
    td_find_struct_if same_string listed insertion_sort insert_sorted lexicographic struct_text
    fields_text rest_text field_text type_text levels_text decimal decimal_digits deps_text
    atomic_digest padded_left sum
message_digest = refl

domain_digest : value_digest sdk all_structs domain ≡ some (1900 ∷ [])
unfolding value_digest type_digest struct_deps field_deps field_dep deps_from td_find_struct
    td_find_struct_if same_string listed insertion_sort insert_sorted lexicographic struct_text
    fields_text rest_text field_text type_text levels_text decimal decimal_digits deps_text
    atomic_digest padded_left sum
domain_digest = refl

abbrev no_hashes : SigningContext
no_hashes = record { domain_hash = []; message_hash = [] }

abbrev both : Impl
both = record { domain = some domain; message = some message }

value_hash_pass_succeeds_example :
    value_hash_pass sdk all_structs both no_hashes []
    ≡ (true, record { domain_hash = 1900 ∷ []; message_hash = 5134 ∷ [] }, [])
value_hash_pass_succeeds_example =
    value_hash_pass_succeeds sdk all_structs domain message no_hashes (1900 ∷ []) (5134 ∷ [])
      sdk-Prints sdk-IsUp domain-IsHashable message-IsHashable domain_digest message_digest

passes : (value_hash_pass sdk all_structs both no_hashes []).0 ≡ true
passes =
    ap (λ (r : Bool × SigningContext × Heap). r.0)
      (value_hash_pass_succeeds sdk all_structs domain message no_hashes (1900 ∷ []) (5134 ∷ [])
        sdk-Prints sdk-IsUp domain-IsHashable message-IsHashable domain_digest message_digest)

value_hash_pass-digests_example :
    let kept : SigningContext = (value_hash_pass sdk all_structs both no_hashes []).1 in
    (value_digest sdk all_structs domain ≡ some kept.domain_hash)
    × (value_digest sdk all_structs message ≡ some kept.message_hash)
value_hash_pass-digests_example =
    value_hash_pass-digests sdk all_structs domain message no_hashes [] sdk-Prints domain-IsHashable
      message-IsHashable passes

-- Arrays in arrays, seventeen levels.
nested : ℕ → Value
nested zero = array_value pair_field no_children
nested (suc n) = array_value pair_field (child_then (nested n) no_children)

hash_value_too_deep_example : (hash_value sdk all_structs 0 (nested 16) []).0 ≡ none
hash_value_too_deep_example =
    hash_value_too_deep sdk all_structs (nested 16) []
      (unfold nested height height_below in omega arith)

-- chainId 1, in nine bytes.
abbrev chain_field : Field
chain_field = record {
  type = sol_uint;
  struct_name = [];
  type_size = 32;
  key_name = chain_id_key;
  array_levels = [];
}

abbrev chain_children : Children
chain_children =
    child_then (atomic id_field (5 ∷ []))
      (child_then (atomic chain_field (replicate 8 0 ++ (1 ∷ []))) no_children)

abbrev reads : Reads
reads = record { u64_from_be = be_value; is_zeroes_buffer = λ bytes n. all_zeroes (take n bytes) }

reads-IsReads : IsReads reads
reads-IsReads = record { reads_be = λ bytes few. refl; tests_zero = λ bytes n. refl }

IsBytes-ids : All IsByte (5 ∷ [])
IsBytes-ids = (omega arith, tt)

IsBytes-chain : All IsByte (replicate 8 0 ++ (1 ∷ []))
IsBytes-chain = (
  omega arith,
  (
    omega arith,
    (
      omega arith,
      (omega arith, (omega arith, (omega arith, (omega arith, (omega arith, (omega arith, tt)))))),
    ),
  ),
)

td_get_domain_chain_id-first_leaf_example :
    td_get_domain_chain_id reads (some (struct_value domain_struct chain_children))
    ≡ and_then (first_leaf chain_id_key chain_children) (λ bytes. fitting (be_value bytes))
td_get_domain_chain_id-first_leaf_example =
    td_get_domain_chain_id-first_leaf reads domain_struct chain_children reads-IsReads
      (IsBytes-ids, (IsBytes-chain, tt))

-- The identifier of this domain is 1, and there is no contract.
chain_id_1 :
    td_get_domain_chain_id reads (some (struct_value domain_struct chain_children)) ≡ some 1
unfolding td_get_domain_chain_id children_of children_chain_id leaf_chain_id same_string all_zeroes
    be_value
chain_id_1 = refl

no_contract : td_get_domain_contract_addr (some (struct_value domain_struct chain_children)) ≡ none
unfolding td_get_domain_contract_addr children_of children_contract_addr same_string
no_contract = refl

-- -2 as an int16.
encode_int-value_example :
    let r : List ℕ = replicate 30 255 ++ (255 ∷ 254 ∷ []) in
    (length r ≡ 32) × (be_value r + 256 ^ 2 ≡ be_value (255 ∷ 254 ∷ []) + 256 ^ 32)
encode_int-value_example =
    encode_int-value (255 ∷ 254 ∷ []) (replicate 30 255 ++ (255 ∷ 254 ∷ [])) []
      (unfold encode_int field_encode ◌>>=◌ app_mem_alloc alloc pure in refl)

-- A value in three pieces, one of them empty.
abbrev pieces : List (List ℕ)
pieces = (1 ∷ 2 ∷ []) ∷ [] ∷ (3 ∷ []) ∷ []

td_leaf_session_example :
    let whole : Value = atomic id_field (1 ∷ 2 ∷ 3 ∷ []) in
    (leaf : Value) × (td_create_leaf (λ n. replicate n 7) id_field 3 [] ≡ (some leaf, []))
    × (write_pieces (some leaf) 0 pieces ≡ some (some whole, 3))
    × (td_leaf_is_complete (some whole) 3 ≡ true)
unfolding joined
td_leaf_session_example =
    td_leaf_session (λ n. replicate n 7) id_field pieces (λ n. length-replicate n 7) (omega arith)
