-- ===== src/Ustream/State.antt =====
-- The parser's state (eth_ustream.h), and the parts of the app that the parser calls.
use ledger_ambire_signer.Base.{ℕ, Bool, Option, List}
use ledger_ambire_signer.Base.Memory.{Heap}
use ledger_ambire_signer.Calldata.{Calldata}

-- `other` is any byte that is none of the four.
pub data TxType : Type 0 where
  legacy eip2930 eip1559 eip7702 other : TxType

pub data Status : Type 0 where
  processing suspended finished fault continue : Status

pub data CustomStatus : Type 0 where
  not_handled handled suspended fault : CustomStatus

-- A big-endian number: a fixed buffer and the number of bytes used.
pub record Int256 : Type 0 where
  pub value : List ℕ
  pub len : ℕ

-- The fields of tokenContext_t (shared_context.h) that cut the call data into parameters.
pub record TokenContext : Type 0 where
  pub data_bytes : List ℕ
  pub field_index : ℕ
  pub field_offset : ℕ
  pub plugin_status : ℕ

-- The fields of txContent_t that are written, and the globals `dataContext.tokenContext` (`token`)
-- and `G_swap_tx_had_calldata`.
pub record Content : Type 0 where
  pub nonce : Int256
  pub startgas : Int256
  pub gasprice : Int256
  pub value : Int256
  pub chain_id : Int256
  pub destination : List ℕ
  pub destination_length : ℕ
  pub v : List ℕ
  pub v_length : ℕ
  pub data_present : Bool
  pub swap_tx_had_calldata : Bool
  pub token : TokenContext

-- txContext_t. The pointer `workBuffer` is the index `work_pos` into `payload`; `hashed` is what
-- the SHA-3 context has absorbed. `parked` and `heap` are the global `g_parked_calldata` and the
-- allocator.
pub record Context : Type 0 where
  pub current_field : ℕ
  pub current_field_length : ℕ
  pub current_field_pos : ℕ
  pub current_field_is_list : Bool
  pub processing_field : Bool
  pub field_single_byte : Bool
  pub data_length : ℕ
  pub rlp_buffer : List ℕ
  pub rlp_buffer_pos : ℕ
  pub payload : List ℕ
  pub work_pos : ℕ
  pub command_length : ℕ
  pub content : Content
  pub tx_type : TxType
  pub store_calldata : Bool
  pub selector_bytes : List ℕ
  pub hashed : List ℕ
  pub parked : Option Calldata
  pub heap : Heap

-- What the parser takes from elsewhere: whether the SDK's hash accepts some bytes behind those
-- absorbed, the size of the SDK's buffer for `v`, the SDK's conversion of big-endian bytes, the
-- queue of transaction contexts, the settings that the custom processor reads, the plugin SDK's
-- results in their order, and what a plugin answers to its start and to a parameter of some size.
pub record Host : Type 0 where
  pub hash_ok : List ℕ → List ℕ → Bool
  pub v_size : ℕ
  pub u64_from_be : List ℕ → ℕ → ℕ
  pub tx_ctx_init : Option Calldata → List ℕ → List ℕ → ℕ → Bool
  pub contract_details : Bool
  pub data_allowed : Bool
  pub called_from_swap : Bool
  pub result_error : ℕ
  pub result_unavailable : ℕ
  pub result_unsuccessful : ℕ
  pub result_successful : ℕ
  pub plugin_init : Context → ℕ
  pub plugin_provide : Context → ℕ → Bool

-- What a step gives back: C's `bool`, and the state, also where it is `false`.
abbrev pub Step : Type 0
Step = Bool × Context
