-- ===== src/Utils.antt =====
-- src/utils/utils.c: copies between buffers of different sizes, and the string helpers.
-- A buffer is a list; its size is the list's length. `none` is NULL.
pub mod Copies
pub mod Reversal
mod Tests
use ledger_ambire_signer.Base.{
  ℕ, zero, suc, ◌+◌, ◌-◌, Bool, true, false, ◌&&◌, ◌||◌, Option, none, some, List, [], ◌∷◌, ◌++◌,
  length, take, drop, replicate, set, get_or, ltb, leb, ◌==◌, if◌then◌else◌,
}

-- `dst` is given by its size alone: every byte of it is written.
unfoldable pub buf_shrink_expand : Option (List ℕ) → ℕ → ℕ → List ℕ
buf_shrink_expand src src_size dst_size = if dst_size == 0 then [] else elim src [
  | none ↦ replicate dst_size 0
  | some bytes ↦
      if src_size == 0
      then replicate dst_size 0
      else if ltb dst_size src_size
      then take dst_size (drop (src_size - dst_size) bytes)
      else replicate (dst_size - src_size) 0 ++ take src_size bytes
]

-- "...", without and with the final zero.
abbrev pub dots : List ℕ
dots = b'.' ∷ b'.' ∷ b'.' ∷ []

-- The bytes written at the front of `dst`; those behind them stay.
pub str_cpy_explicit_trunc : Option (List ℕ) → ℕ → ℕ → List ℕ
str_cpy_explicit_trunc src src_size dst_size = if dst_size == 0 then [] else elim src [
  | none ↦ 0 ∷ []
  | some bytes ↦
      if ltb src_size dst_size
      then take src_size bytes ++ (0 ∷ [])
      else if leb dst_size 4
      then 0 ∷ []
      else take (dst_size - 4) bytes ++ (dots ++ (0 ∷ []))
]

-- One swap of the loop: `none` where an index is past the buffer.
swap_bytes : List ℕ → ℕ → ℕ → Option (List ℕ)
swap_bytes str i j =
    if ltb i (length str) && ltb j (length str)
    then some (set (set str i (get_or str j 0)) j (get_or str i 0))
    else none

-- The loop at `i < j` with fuel: `none` where the fuel ran out or an access was past the buffer.
pub reverse_loop : ℕ → ℕ → ℕ → List ℕ → Option (List ℕ)
reverse_loop zero i j str = none
reverse_loop (suc fuel) i j str =
    if ltb i j
    then elim (swap_bytes str i j) [
      | none ↦ none
      | some swapped ↦ reverse_loop fuel (i + 1) (j - 1) swapped
    ]
    else some str

-- At most `length / 2` rounds are made.
pub reverse_string : List ℕ → ℕ → Option (List ℕ)
unfolding swap_bytes
reverse_string str len = if ltb len 2 then some str else reverse_loop len 0 (len - 1) str
