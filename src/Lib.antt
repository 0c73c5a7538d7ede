-- ===== src/Lib.antt =====
-- The Ethereum application's parsers, stores and numbers: a model of the C code, and theorems on it.
--
-- The parts and the files that model them:
--
-- - src/features/sign_tx/eth_ustream.c, the parser of a transaction that arrives in several
--   commands: Ustream.antt. The state txContext_t is `Context` in Ustream/State.antt, the handlers
--   process_content to process_v are in Ustream/Fields.antt, and the field order, parse_rlp,
--   process_tx_internal, process_tx and continue_tx are in Ustream.antt. A handler is a function
--   from the state to a Boolean and a state. Handlers with the same body in C are one function over
--   their bound and destination. Ustream/Invariant.antt states what holds between two rounds and
--   inside a field; Taking, Handlers, Headers, Rounds, Loop, Commands and Sessions carry it from one
--   handler to a whole transaction.
-- - custom_processor of src/features/sign_tx/logic_sign_tx.c, which the parser calls in each field
--   and which takes the calldata over for a plugin or for display: Ustream/Custom.antt, on the token
--   context that `Content` has beside the transaction; Blocks and Answers are about it. The display
--   is not modelled but for the interruption that it makes, which continue_tx ends.
-- - src/features/sign_tx/rlp_utils.c and src/features/sign_authorization_eip7702/rlp_encode.c:
--   Rlp.antt. The parser of transactions calls the decoder on its header buffer.
-- - src/features/generic_tx_parser/calldata.c, the compressed store of the calldata: Calldata.antt.
--   The parser fills it while the data field of a stored transaction comes in.
-- - src/features/generic_tx_parser/gtp_data_path.c, the walk along a path through the stored
--   calldata: DataPath.antt. It reads chunks of the store (DataPath/Reading.antt).
--   DataPath/Slices.antt and Values.antt are about what it collects, DataPath/Arrays.antt about the
--   passes over arrays, and DataPath/Passes.antt about the whole loop.
-- - src/features/sign_message_eip712, the hashes of typed data: Eip712.antt has the data of
--   typed_data.h and the searches of typed_data.c; Eip712/Fields.antt is encode_field.c,
--   sol_typenames.c, format_hash_field_type.c and the number printing of src/utils/mem_utils.c;
--   Eip712/Types.antt is type_hash.c; Eip712/Values.antt is value_hash.c, which calls all of them.
--   Eip712/Reference.antt states the texts and digests of EIP-712 without memory or hash contexts,
--   Eip712/Refines.antt what it means to implement such a statement. Order and
--   Sorted are about the order of names and a sort by it. Texts, TypeHash, Dependencies, Done,
--   Closure, Worklist and TypeDigest are about type_hash.c, Encoding about encode_field.c, and
--   Atomic, Containers, Digests and Pass about value_hash.c. Eip712/Domain.antt is what typed_data.c
--   reads of the domain, with ChainId about it; Eip712/Leaves.antt is how a leaf is created and
--   written, in the pieces of v1_add_field.
-- - src/features/sign_authorization_eip7702/commands_7702.c, the hash of an authorization (hashRLP,
--   hash_RLP64 and the part of handle_auth7702_tlv_internal that hashes): Auth.antt, with RLP's
--   items in Auth/Items.antt. It calls the writers of Rlp, and takes the hash from Eip712.
-- - src/tlv_apdu.c, the reassembly of payloads from commands: Tlv.antt, with an abstract view in
--   Tlv/Reassembly.antt and whole sessions in Tlv/Session.antt.
-- - src/uint128.c and src/uint256.c: Uint128.antt and Uint256.antt, over words of 64 bits.
-- - src/utils/utils.c: Utils.antt (without format_signed_int_be). The numbers reverse their digits
--   with it, the parser fits its fields with it.
-- - get_tx_chain_id of src/network.c, for a transaction: in Ustream.antt.
-- - Base and its children hold what these share: tests on numbers, lists, buffers, the heap.
--
-- Conventions. A byte buffer is a list of numbers; C's unsigned types are native numbers with the
-- wrap-around written out. A NULL pointer is `none`. The heap is a list of answers, `false` an
-- allocation that fails; past its end every allocation succeeds. What the SDK does is a parameter:
-- the hash, the conversion of big-endian bytes and the size of the buffer for `v` in `Host`, the
-- readers, the writers and the multiplication in `Uint128.Sdk`, the reader of the TLV size and the
-- payload's handlers in Tlv. The parser also takes the plugins' answers, the plugin SDK's results, the
-- settings and the queue of transaction contexts as parameters. The hash of typed data, the printing of numbers and the
-- sorting of lists are in the `Sdk` of Eip712, where a hash in progress is the bytes it has absorbed
-- and any step of it may fail.
--
-- Fuel. The header loop of the parser has 6 rounds, since a header takes at most five bytes; the
-- parser's loop is total from 14 * (n + 2) rounds on for a command of n bytes, since every round but
-- the last ends a field, uses the command up, or takes a block of the calldata from it. The loop that counts the bytes of a 64-bit number has 9 rounds, the loops that count
-- the bits of a word 64 and of a 128-bit number 128. The passes over a path end within 2 ^ 64, since
-- the numbers of passes left are the digits of a number in base 256 that falls from pass to pass; a
-- chunk copy of at most 65535 bytes takes 2048 chunks. The worklist of type_hash has one round for
-- each struct definition and one to see the end; a 32-bit number has ten digits. The divisions have
-- 130 and 258 rounds: one for each place of the divisor's shifts, and one to see the end. The texts
-- have one round more than the largest number has binary digits, since a digit at least halves the
-- number. On the divisor 0 the loop does not stop in C, and here it gives `none`.
--
-- Not modelled: screens, signatures and the dispatch of commands, which drive the SDK; the parsers
-- of EIP-712 and EIP-7702 data, the screens of an authorization, the fields of the calldata parser,
-- and the tables of networks and assets, which are outside this model; the TLV fields of paths, which the SDK's TLV library reads; deletion of objects, which only frees memory.
pub mod Base
pub mod Rlp
pub mod Calldata
pub mod Utils
pub mod Uint128
pub mod Uint256
pub mod Tlv
pub mod DataPath
pub mod Eip712
pub mod Auth
pub mod Ustream
