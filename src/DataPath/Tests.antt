-- ===== src/DataPath/Tests.antt =====
-- A walk to a dynamic argument and one over an array, and the theorems at them.
use ledger_ambire_signer.Base.{
  ℕ, zero, suc, ◌+◌, ◌*◌, ◌%◌, ◌^◌, ◌≤◌, ◌≡◌, refl, arith, Bool, true, ◌&&◌, Option, none, some,
  List, [], ◌∷◌, ◌++◌, length, get_or, replicate, ◌==◌, All,
}
use ledger_ambire_signer.Base.Memory.{alloc}
use ledger_ambire_signer.Calldata.{
  Calldata, Chunk, strip_left, strip_right, calldata_get_chunk, has_valid_calldata, nth_chunk,
  decompress_chunk,
}
use ledger_ambire_signer.Calldata.Append.{blocks, contents}
use ledger_ambire_signer.DataPath.{
  Reader, leaf_static, leaf_dynamic, PathElement, tuple, array, ref, leaf, slice, ParsedValue, Walk,
  Step, get_chunk, read_short, copy_chunks, store_leaf, path_tuple, path_ref, path_leaf,
  slice_bound, slice_value, slice_last, path_slice, array_bound, array_range, enter_array,
  enter_element, path_array, update_passes, arrays_update, path_element, path_pass, passes_loop,
  data_path_get,
}
use ledger_ambire_signer.DataPath.Reading.{IsReader}
use ledger_ambire_signer.DataPath.Slices.{IsValue}
use ledger_ambire_signer.DataPath.Passes.{data_path_get-total, data_path_get-IsValue}

abbrev short_word : ℕ → Chunk
short_word n = record { dir = strip_left; size = 1; buf = n ∷ [] }

-- An offset, a length, and two words behind them.
abbrev argument : Calldata
argument = record {
  expected_size = 128;
  received_size = 128;
  selector = 1 ∷ 2 ∷ 3 ∷ 4 ∷ [];
  chunks =
      short_word 32
      ∷ (short_word 2
          ∷ (record { dir = strip_right; size = 2; buf = 8 ∷ 9 ∷ [] } ∷ (short_word 5 ∷ [])));
  chunk = replicate 32 0;
  chunk_size = 0;
}

zeroes : List ℕ → ℕ → Bool
zeroes bytes zero = true
zeroes [] (suc n) = true
zeroes (x ∷ xs) (suc n) = x == 0 && zeroes xs n

abbrev short_at : List ℕ → ℕ → ℕ
short_at bytes at = (get_or bytes at 0 * 256 + get_or bytes (at + 1) 0) % 2 ^ 16

abbrev reader : Reader
reader = record { calldata = some argument; read_u16_be = short_at; is_zeroes_buffer = zeroes }

reader-IsReader : IsReader reader argument
unfolding contents blocks decompress_chunk
reader-IsReader = record {
  same_object = refl;
  valid = record {
    chunk_length = refl;
    room = omega arith;
    whole = (refl, (refl, (refl, (refl, tt))));
    counted = refl;
  };
  bounded = omega arith;
  shorts = λ bytes at. omega arith;
}

-- The bytes of a dynamic argument, without the first one.
abbrev text_path : List PathElement
text_path =
    tuple 0 ∷ (ref ∷ (leaf leaf_dynamic ∷ (slice (record { start = some 1; end = none }) ∷ [])))

collected : Option Step → List ParsedValue
collected none = []
collected (some (done, w)) = w.collection

text_collected :
    collected (data_path_get 2 reader text_path [] [])
    ≡ (record { buffer = 8 ∷ 9 ∷ []; at = 1; size = 2; offset = 1; len = 1 } ∷ [])
unfolding collected data_path_get passes_loop path_pass path_element path_tuple path_ref path_leaf
    path_slice slice_last slice_value slice_bound store_leaf copy_chunks read_short get_chunk
    calldata_get_chunk has_valid_calldata nth_chunk decompress_chunk alloc arrays_update
    update_passes zeroes
text_collected = refl

-- The elements of an array of words, one in each pass.
abbrev words_path : List PathElement
words_path =
    tuple 0
    ∷ (ref ∷ (array (record { weight = 1; start = none; end = none }) ∷ (leaf leaf_static ∷ [])))

words_collected : collected (data_path_get 3 reader words_path [] []) ≡ (
    record { buffer = 8 ∷ (9 ∷ replicate 30 0); at = 0; size = 32; offset = 0; len = 32 }
    ∷ (record { buffer = replicate 31 0 ++ (5 ∷ []); at = 0; size = 32; offset = 0; len = 32 }
        ∷ []))
unfolding collected data_path_get passes_loop path_pass path_element path_tuple path_ref path_leaf
    path_array array_range array_bound enter_array enter_element store_leaf copy_chunks read_short
    get_chunk calldata_get_chunk has_valid_calldata nth_chunk decompress_chunk alloc arrays_update
    update_passes zeroes
words_collected = refl

data_path_get-total_example :
    (step : Step) × (data_path_get (2 ^ 64) reader words_path [] [] ≡ some step)
data_path_get-total_example = data_path_get-total (2 ^ 64) reader words_path [] [] (omega arith)

data_path_get-IsValue_example :
    (done : Bool) × (w : Walk) × (data_path_get (2 ^ 64) reader text_path [] [] ≡ some (done, w))
    × All (IsValue argument) w.collection
    × (length w.collection ≤ 16)
data_path_get-IsValue_example = data_path_get-IsValue reader argument text_path [] reader-IsReader
