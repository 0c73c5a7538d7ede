-- ===== src/Utils/Reversal.antt =====
-- reverseString works in place, within the bytes that it is given.
use ledger_ambire_signer.Base.{
  ℕ, zero, suc, ◌+◌, ◌-◌, ◌≡◌, ◌≤◌, ◌<◌, ◌∙◌, refl, arith, true, ◌&&◌, Option, some, List, length,
  length-set, ltb, Bool-cases, inl, inr, set, get_or,
}
use ledger_ambire_signer.Utils.{reverse_string, reverse_loop, swap_bytes}

-- A result of the same length, every access within the bytes.
abbrev pub Keeps : List ℕ → Option (List ℕ) → Type 0
Keeps str o = (out : List ℕ) × (o ≡ some out) × (length out ≡ length str)

swap_bytes-Keeps :
    (str : List ℕ) (i j : ℕ) → i < length str → j < length str → Keeps str (swap_bytes str i j)
unfolding swap_bytes
swap_bytes-Keeps str i j li lj =
    let inside : (ltb i (length str) && ltb j (length str)) ≡ true = ground arith in
    (
      set (set str i (get_or str j 0)) j (get_or str i 0),
      rw inside refl,
      length-set (set str i (get_or str j 0)) j (get_or str i 0)
          ∙ length-set str i (get_or str j 0),
    )

reverse_loop-Keeps :
    (fuel i j : ℕ) (str : List ℕ)
    → j < length str
    → j < i + fuel
    → 1 ≤ fuel
    → Keeps str (reverse_loop fuel i j str)
unfolding reverse_loop
reverse_loop-Keeps zero i j str inside enough some_fuel = absurd (omega arith)
reverse_loop-Keeps (suc fuel) i j str inside enough some_fuel = elim (Bool-cases (ltb i j)) [
  | inl more ↦
      let (swapped, e, same) = swap_bytes-Keeps str i j (ground arith) inside in
      let (out, e', same') =
        reverse_loop-Keeps fuel (i + 1) (j - 1) swapped (ground arith) (ground arith)
          (ground arith) in
      rw (more, e) (out, e', same' ∙ same)
  | inr over ↦ rw over (str, refl, refl)
]

pub reverse_string-Keeps :
    (str : List ℕ) (len : ℕ) → len ≤ length str → Keeps str (reverse_string str len)
unfolding reverse_string
reverse_string-Keeps str len fits = elim (Bool-cases (ltb len 2)) [
  | inl short ↦ rw short (str, refl, refl)
  | inr long ↦
      rw long (reverse_loop-Keeps len 0 (len - 1) str (ground arith) (ground arith) (ground arith))
]
