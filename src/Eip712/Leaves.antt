-- ===== src/Eip712/Leaves.antt =====
-- td_create_leaf, td_leaf_write and td_leaf_is_complete of typed_data.c: a value that comes in pieces.
-- `fresh` is what the SDK's allocator leaves in a block.
use mathlib.Core.List.{append_assoc, append-nil}
use ledger_ambire_signer.Base.{
  ℕ, ◌+◌, ◌^◌, ◌≤◌, ◌<◌, ◌≡◌, refl, ap, sym, ◌∙◌, arith, Bool, true, false, Option, none, some,
  List, [], ◌∷◌, ◌++◌, length, length-append, length-take, take, drop, take-length_append, ltb,
  ◌==◌, if◌then◌else◌, u16, u32, Bool-cases, inl, inr,
}
use ledger_ambire_signer.Base.Memory.{alloc, copy_at, length-copy_at, take-length_of}
use ledger_ambire_signer.Calldata.Chunks.{joined}
use ledger_ambire_signer.Eip712.{Field, Value, atomic, M, ◌>>=◌, pure, app_mem_alloc}

unfoldable pub td_create_leaf : (ℕ → List ℕ) → Field → ℕ → M Value
td_create_leaf fresh field total_size = app_mem_alloc >>= λ _.
    if u16 total_size == 0
    then pure (atomic field [])
    else app_mem_alloc >>= λ _. pure (atomic field (fresh (u16 total_size)))

-- The leaf after the write, and whether it was made; a size_t has 32 bits.
unfoldable pub td_leaf_write : Option Value → ℕ → List ℕ → Option Value × Bool
td_leaf_write none offset bytes = (none, false)
td_leaf_write (some (atomic f content)) offset bytes =
    if ltb (length content) (u32 (offset + length bytes))
    then (some (atomic f content), false)
    else if ltb 0 (length bytes)
    then (some (atomic f (copy_at content offset bytes)), true)
    else (some (atomic f content), true)
td_leaf_write (some v) offset bytes = (some v, false)

unfoldable pub td_leaf_is_complete : Option Value → ℕ → Bool
td_leaf_is_complete none filled = false
td_leaf_is_complete (some (atomic f content)) filled = filled == length content
td_leaf_is_complete (some v) filled = false

-- Pieces that are written one behind the other, as v1_add_field does, and how much is filled.
unfoldable pub write_pieces : Option Value → ℕ → List (List ℕ) → Option (Option Value × ℕ)
write_pieces leaf filled [] = some (leaf, filled)
write_pieces leaf filled (piece ∷ pieces) =
    let (leaf', written) = td_leaf_write leaf filled piece in
    let rest = write_pieces leaf' (u16 (filled + length piece)) pieces in
    if written then rest else none

copied_front :
    (content piece : List ℕ) (filled : ℕ)
    → filled + length piece ≤ length content
    → take (filled + length piece) (copy_at content filled piece) ≡ take filled content ++ piece
unfolding copy_at
copied_front content piece filled fits =
    let count : filled + length piece ≡ length (take filled content ++ piece) =
      omega (arith, length-append (take filled content) piece, length-take filled content) in
    ap (λ (n : ℕ). take n (take filled content ++ (piece ++ drop (filled + length piece) content)))
      count
    ∙ (ap (take (length (take filled content ++ piece)))
          (sym (append_assoc (take filled content) piece (drop (filled + length piece) content)))
        ∙ take-length_append (take filled content ++ piece) (drop (filled + length piece) content))

-- One piece that fits, also where it is empty.
write_one :
    (f : Field) (content piece : List ℕ) (filled : ℕ)
    → filled + length piece ≤ length content
    → length content < 2 ^ 16
    → (after : List ℕ) × (td_leaf_write (some (atomic f content)) filled piece
        ≡ (some (atomic f after), true))
      × (length after ≡ length content)
      × (take (filled + length piece) after ≡ take filled content ++ piece)
unfolding td_leaf_write
write_one f content [] filled fits small =
    let e : filled + 0 ≡ filled = omega arith in
    (
      content,
      ground arith,
      refl,
      ap (λ (n : ℕ). take n content) e ∙ sym (append-nil (take filled content)),
    )
write_one f content (x ∷ xs) filled fits small =
    let p : List ℕ = x ∷ xs in
    (
      copy_at content filled p,
      ground arith,
      length-copy_at content filled p fits,
      copied_front content p filled fits,
    )

write_pieces_lem :
    (f : Field) (pieces : List (List ℕ)) (content : List ℕ) (filled : ℕ)
    → filled + length (joined pieces) ≡ length content
    → length content < 2 ^ 16
    → write_pieces (some (atomic f content)) filled pieces
      ≡ some (some (atomic f (take filled content ++ joined pieces)), length content)
unfolding write_pieces joined
write_pieces_lem f [] content filled full small =
    let end : filled ≡ length content = omega (arith, full) in
    let whole : content ≡ take filled content ++ [] =
      sym (append-nil (take filled content) ∙ take-length_of filled content (omega (arith, end))) in
    ap (λ (t : List ℕ). some (some (atomic f t), filled)) whole
    ∙ ap (λ (n : ℕ). some (some (atomic f (take filled content ++ [])), n)) end
write_pieces_lem f (piece ∷ pieces) content filled full small =
    let sum = length-append piece (joined pieces) in
    let (after, written, count, front) =
      write_one f content piece filled (omega (arith, full, sum)) small in
    let rest =
      write_pieces_lem f pieces after (filled + length piece) (omega (arith, full, sum, count))
        (omega (arith, count, small)) in
    let no_wrap : u16 (filled + length piece) ≡ filled + length piece =
      omega (arith, full, sum, small) in
    rw (written, no_wrap, write_pieces)
      (rest
        ∙ (ap (λ (t : List ℕ). some (some (atomic f (t ++ joined pieces)), length after)) front
            ∙ (ap (λ (t : List ℕ). some (some (atomic f t), length after))
                  (append_assoc (take filled content) piece (joined pieces))
                ∙ ap
                    (λ (n : ℕ).
                      some (some (atomic f (take filled content ++ (piece ++ joined pieces))), n))
                    count)))

created :
    (fresh : ℕ → List ℕ) (f : Field) (n : ℕ)
    → ((k : ℕ) → length (fresh k) ≡ k)
    → n < 2 ^ 16
    → (content : List ℕ) × (td_create_leaf fresh f n [] ≡ (some (atomic f content), []))
      × (length content ≡ n)
unfolding td_create_leaf ◌>>=◌ app_mem_alloc alloc pure
created fresh f n sized small =
    let no_wrap : u16 n ≡ n = omega arith in
    elim (Bool-cases (n == 0)) [
      | inl empty ↦
          let nothing : n ≡ 0 = ground (arith, empty) in ([], rw (no_wrap, empty) refl, sym nothing)
      | inr filled ↦ (fresh n, rw (no_wrap, filled) refl, sized n)
    ]

-- A leaf created for less than 2 ^ 16 bytes and written in any pieces that make these up, one behind
-- the other, holds the pieces joined and is complete.
pub td_leaf_session :
    (fresh : ℕ → List ℕ) (f : Field) (pieces : List (List ℕ))
    → ((k : ℕ) → length (fresh k) ≡ k)
    → length (joined pieces) < 2 ^ 16
    → let whole : Value = atomic f (joined pieces) in
      let n : ℕ = length (joined pieces) in
      (leaf : Value) × (td_create_leaf fresh f n [] ≡ (some leaf, []))
      × (write_pieces (some leaf) 0 pieces ≡ some (some whole, n))
      × (td_leaf_is_complete (some whole) n ≡ true)
unfolding td_leaf_is_complete
td_leaf_session fresh f pieces sized small =
    let (content, e, count) = created fresh f (length (joined pieces)) sized small in
    (
      atomic f content,
      e,
      write_pieces_lem f pieces content 0 (omega (arith, count)) (omega (arith, count, small))
          ∙ ap (λ (n : ℕ). some (some (atomic f (joined pieces)), n)) count,
      ground arith,
    )
