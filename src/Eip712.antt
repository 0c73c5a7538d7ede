-- ===== src/Eip712.antt =====
-- src/features/sign_message_eip712: the typed data (typed_data.h, typed_data.c), and what hashing
-- it takes: allocation that may fail, and the SDK's Keccak.
-- A pointer to a struct definition is its place in `g_structs` with what it points at; strings are
-- their bytes, without the 0 at the end. Freeing memory has no effect here.
pub mod Fields
pub mod Types
pub mod Values
pub mod Refines
pub mod Reference
pub mod Texts
pub mod TypeHash
pub mod Dependencies
pub mod Done
pub mod Closure
pub mod Worklist
pub mod Order
pub mod Sorted
pub mod TypeDigest
pub mod Atomic
pub mod Encoding
pub mod Containers
pub mod Digests
pub mod Pass
pub mod Leaves
pub mod Domain
pub mod ChainId
mod Tests
use ledger_ambire_signer.Base.{
  ℕ, zero, suc, ◌+◌, ◌-◌, ◌≡◌, Bool, true, false, ◌&&◌, Option, none, some, List, [], ◌∷◌, ◌++◌,
  ◌==◌, if◌then◌else◌,
}
use ledger_ambire_signer.Base.Memory.{Heap, alloc}

pub data SolType : Type 0 where
  type_struct sol_int sol_uint sol_address sol_bool sol_string sol_bytes_fix sol_bytes_dyn : SolType

pub data ArrayLevel : Type 0 where
  array_dynamic : ArrayLevel
  array_fixed_size : ℕ → ArrayLevel

-- `struct_name` is read for TYPE_STRUCT and `type_size` for the other types: they share their place.
pub record Field : Type 0 where
  pub type : SolType
  pub struct_name : List ℕ
  pub type_size : ℕ
  pub key_name : List ℕ
  pub array_levels : List ArrayLevel

pub record Struct : Type 0 where
  pub name : List ℕ
  pub fields : List Field

pub record StructPtr : Type 0 where
  pub place : ℕ
  pub def : Struct

mutual
  pub data Value : Type 0 where
    atomic : Field → List ℕ → Value
    struct_value : Struct → Children → Value
    array_value : Field → Children → Value

  pub data Children : Type 0 where
    no_children : Children
    child_then : Value → Children → Children

-- The SDK: `keccak` is the digest of the bytes that were absorbed, and the answers say whether the
-- start, an update and the end of a hash succeed; `print_unsigned` is what `%u` prints, and
-- `flist_sort` sorts by a comparison.
pub record Sdk : Type 0 where
  pub init_ok : Bool
  pub update_ok : List ℕ → List ℕ → Bool
  pub final_ok : List ℕ → Bool
  pub keccak : List ℕ → List ℕ
  pub print_unsigned : ℕ → List ℕ
  pub flist_sort : (StructPtr → StructPtr → Bool) → List StructPtr → List StructPtr

-- Code that may fail, and that allocates.
abbrev pub M : Type 0 → Type 0
M A = Heap → Option A × Heap

infixl 5 ◌>>=◌ ◌>>◌
unfoldable pub ◌>>=◌ : {A B : Type 0} → M A → (A → M B) → M B
◌>>=◌ m f heap =
    let (result, heap') = m heap in elim result [ none ↦ (none, heap') | some a ↦ f a heap' ]

abbrev pub ◌>>◌ : {B : Type 0} → M (Unit {0}) → M B → M B
m >> k = m >>= λ _. k

unfoldable pub pure : {A : Type 0} → A → M A
pure a heap = (some a, heap)

unfoldable pub fail : {A : Type 0} → M A
fail heap = (none, heap)

unfoldable pub app_mem_alloc : M (Unit {0})
app_mem_alloc heap = let (got, heap') = alloc heap in (if got then some tt else none, heap')

-- A hash in progress is the bytes it has absorbed.
unfoldable pub keccak_init : Sdk → M (List ℕ)
keccak_init sdk heap = (if sdk.init_ok then some [] else none, heap)

unfoldable pub hash_update : Sdk → List ℕ → List ℕ → M (List ℕ)
hash_update sdk absorbed bytes heap =
    (if sdk.update_ok absorbed bytes then some (absorbed ++ bytes) else none, heap)

unfoldable pub hash_final : Sdk → List ℕ → M (List ℕ)
hash_final sdk absorbed heap =
    (if sdk.final_ok absorbed then some (sdk.keccak absorbed) else none, heap)

-- strcmp (a, b) == 0
unfoldable pub same_string : List ℕ → List ℕ → Bool
same_string [] [] = true
same_string (x ∷ xs) (y ∷ ys) = x == y && same_string xs ys
same_string _ _ = false

unfoldable pub td_find_struct_if : ℕ → List Struct → (Struct → Bool) → Option StructPtr
td_find_struct_if place [] pred = none
td_find_struct_if place (s ∷ ss) pred =
    if pred s
    then some (record { place = place; def = s })
    else td_find_struct_if (suc place) ss pred

unfoldable pub td_find_struct : List Struct → List ℕ → Option StructPtr
td_find_struct structs name = td_find_struct_if 0 structs (λ node. same_string node.name name)

-- The visitor's state goes from field to field, and its failure ends the visit.
unfoldable pub td_visit_struct_fields : {A : Type 0} → List Field → (Field → A → M A) → A → M A
td_visit_struct_fields [] visitor context = pure context
td_visit_struct_fields (f ∷ fs) visitor context =
    visitor f context >>= λ context'. td_visit_struct_fields fs visitor context'
