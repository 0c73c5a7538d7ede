-- ===== src/Calldata/Tests.antt =====
-- Runs of the calldata component, and its theorems at concrete inputs.
use ledger_ambire_signer.Base.{
  ℕ, ◌+◌, ◌≤◌, ◌≡◌, refl, arith, true, none, some, List, [], ◌∷◌, ◌++◌, length, take, replicate,
}
use ledger_ambire_signer.Base.Memory.{alloc, copy_at}
use ledger_ambire_signer.Calldata.{
  Calldata, strip_left, empty_calldata, stripped, strip, count_left, count_right, decompress_chunk,
  append_bytes, append_loop, flush, fill, compress_chunk, calldata_init, calldata_set_selector,
  calldata_get_chunk, calldata_get_selector,
}
use ledger_ambire_signer.Calldata.Compress.{decompress_chunk-stripped, length-stripped}
use ledger_ambire_signer.Calldata.Append.{IsAppended, contents, append_bytes-IsAppended}
use ledger_ambire_signer.Calldata.Chunks.{
  append_bytes_succeeds, calldata_get_chunk-contents, calldata_session, append_all, joined,
  empty_calldata-IsValid,
}

-- The ABI word 7, and a word that starts with its bytes.
abbrev word : List ℕ
word = replicate 31 0 ++ (7 ∷ [])

abbrev text_word : List ℕ
text_word = 1 ∷ 2 ∷ replicate 30 0

abbrev selector : List ℕ
selector = 0xa9 ∷ 0x05 ∷ 0x9c ∷ 0xbb ∷ []

word_strips_left : stripped word ≡ record { dir = strip_left; size = 1; buf = 7 ∷ [] }
unfolding stripped strip count_left count_right
word_strips_left = refl

decompress_chunk-stripped_example : decompress_chunk (stripped text_word) ≡ text_word
decompress_chunk-stripped_example = decompress_chunk-stripped text_word refl

length-stripped_example :
    (length (stripped text_word).buf ≡ (stripped text_word).size) × ((stripped text_word).size ≤ 32)
length-stripped_example = length-stripped text_word refl

append_bytes-IsAppended_example :
    IsAppended (empty_calldata 40) word (append_bytes (empty_calldata 40) word []).1
    × (length (contents (empty_calldata 40)) + 32 ≤ 40)
unfolding empty_calldata
append_bytes-IsAppended_example =
    append_bytes-IsAppended (empty_calldata 40) word [] (empty_calldata-IsValid 40) (
      unfold empty_calldata append_bytes append_loop flush fill compress_chunk alloc copy_at
        stripped strip count_left count_right in
      refl)

append_bytes_succeeds_example :
    ((append_bytes (empty_calldata 40) word []).0 ≡ true)
    × ((append_bytes (empty_calldata 40) word []).2 ≡ [])
unfolding empty_calldata
append_bytes_succeeds_example =
    append_bytes_succeeds (empty_calldata 40) word (empty_calldata-IsValid 40) (omega arith)

calldata_get_chunk-contents_example : (calldata_get_chunk (some (empty_calldata 40)) 0).0 ≡ none
unfolding empty_calldata
calldata_get_chunk-contents_example =
    calldata_get_chunk-contents (empty_calldata 40) 0 (empty_calldata-IsValid 40)

abbrev pieces : List (List ℕ)
pieces = take 20 word ∷ (replicate 11 0 ++ (7 ∷ 1 ∷ 2 ∷ [])) ∷ replicate 30 0 ∷ []

abbrev started : Calldata
started = record {
  expected_size = 64;
  received_size = 0;
  selector = selector;
  chunks = [];
  chunk = replicate 32 0;
  chunk_size = 0;
}

calldata_session_example :
    let (done, filled, heap) = append_all started pieces [] in
    (done ≡ true)
    × ((calldata_get_chunk (some filled) 1).0 ≡ some text_word)
    × (calldata_get_selector (some filled) ≡ some selector)
unfolding joined
calldata_session_example =
    calldata_session 64 selector started pieces 1 (omega arith)
      (unfold calldata_init alloc calldata_set_selector empty_calldata in refl) refl
