-- ===== src/Utils/Tests.antt =====
-- The theorems on the copies at concrete inputs.
use ledger_ambire_signer.Base.{
  ℕ, ◌%◌, ◌^◌, ◌<◌, ◌≡◌, refl, some, List, [], ◌∷◌, ◌++◌, length, take, arith,
}
use ledger_ambire_signer.Base.Bytes.{be_value}
use ledger_ambire_signer.Utils.{
  buf_shrink_expand, str_cpy_explicit_trunc, dots, reverse_string, reverse_loop,
}
use ledger_ambire_signer.Utils.Copies.{buf_shrink_expand-value, str_cpy_explicit_trunc-terminated}

abbrev number : List ℕ
number = 1 ∷ 2 ∷ 3 ∷ []

buf_shrink_expand-value_example :
    let out = buf_shrink_expand (some number) 3 2 in
    (length out ≡ 2) × (be_value out ≡ be_value (take 3 number) % 256 ^ 2)
buf_shrink_expand-value_example = buf_shrink_expand-value number 3 2 (omega arith) (omega arith)

abbrev ticker : List ℕ
ticker = b'E' ∷ b'T' ∷ b'H' ∷ b'E' ∷ b'R' ∷ []

str_cpy_explicit_trunc-terminated_example :
    (text : List ℕ) × (str_cpy_explicit_trunc (some ticker) 5 5 ≡ text ++ (0 ∷ []))
    × (length text < 5)
    × ((text ≡ take 1 ticker ++ dots) × (length text ≡ 4))
str_cpy_explicit_trunc-terminated_example =
    str_cpy_explicit_trunc-terminated ticker 5 5 (omega arith) (omega arith)

reversed : reverse_string ticker 5 ≡ some (b'R' ∷ b'E' ∷ b'H' ∷ b'T' ∷ b'E' ∷ [])
unfolding reverse_string reverse_loop
reversed = refl
