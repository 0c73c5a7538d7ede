-- ===== src/Eip712/Texts.antt =====
-- What is hashed of a field's type and of a struct's type is its text.
use mathlib.Core.List.{append_assoc, append-nil}
use ledger_ambire_signer.Base.{
  ℕ, zero, suc, ◌+◌, ◌*◌, ◌/◌, ◌%◌, ◌^◌, ◌<◌, ◌≡◌, refl, ap, sym, ◌∙◌, arith, Bool, true, false,
  Option, some, List, [], ◌∷◌, ◌++◌, length, take, length-append, leb, u16, u32, Bool-cases, inl,
  inr,
}
use ledger_ambire_signer.Base.Memory.{take-length_of}
use ledger_ambire_signer.Eip712.{
  SolType, type_struct, sol_int, sol_uint, sol_address, sol_bool, sol_string, sol_bytes_fix,
  sol_bytes_dyn, ArrayLevel, array_dynamic, array_fixed_size, Field, Struct, Sdk, M, ◌>>=◌, pure,
  hash_update, td_visit_struct_fields,
}
use ledger_ambire_signer.Eip712.Fields.{
  digits_size, mem_alloc_and_format_uint, td_get_struct_field_typename,
  get_struct_field_sol_typename, formatted_size, format_hash_field_type_size,
  format_hash_array_size, format_hash_field_type_array_levels, has_size, format_hash_field_type,
}
use ledger_ambire_signer.Eip712.Types.{FieldContext, encode_and_hash_field, encode_and_hash_type}
use ledger_ambire_signer.Eip712.Refines.{
  Refines, Refines-same, Refines-next, pure-Refines, app_mem_alloc-Refines, hash_update-Refines,
}
use ledger_ambire_signer.Eip712.Reference.{
  decimal_digits, decimal, type_text, levels_text, field_text, rest_text, fields_text, struct_text,
}

-- `%u` prints a 32-bit number in base 10.
abbrev pub Prints : Sdk → Type 0
Prints sdk = (n : ℕ) → n < 2 ^ 32 → sdk.print_unsigned n ≡ decimal_digits 10 n

abbrev context : List ℕ → Bool → FieldContext
context absorbed first = record { absorbed = absorbed; first = first }

length-decimal_digits : (fuel n : ℕ) → length (decimal_digits fuel n) ≡ digits_size fuel n
unfolding decimal_digits digits_size
length-decimal_digits zero n = refl
length-decimal_digits (suc fuel) n = elim (Bool-cases (leb 10 n)) [
  | inr short ↦ rw short refl
  | inl long ↦ rw long (
      omega (
        arith,
        length-append (decimal_digits fuel (n / 10)) ((48 + n % 10) ∷ []),
        length-decimal_digits fuel (n / 10),
      ))
]

module _ (sdk : Sdk) (prints : Prints sdk) where
  mem_alloc_and_format_uint-Refines :
      (n : ℕ) → Refines sdk (mem_alloc_and_format_uint sdk n) (some (decimal n))
  unfolding mem_alloc_and_format_uint decimal
  mem_alloc_and_format_uint-Refines n =
      let whole : take (digits_size 10 (u32 n)) (sdk.print_unsigned (u32 n))
          ≡ decimal_digits 10 (u32 n) =
        rw (prints (u32 n) (omega arith)) (
          take-length_of (digits_size 10 (u32 n)) (decimal_digits 10 (u32 n))
            (omega (arith, length-decimal_digits 10 (u32 n)))) in
      Refines-next sdk _ tt _ _ (app_mem_alloc-Refines sdk)
        (Refines-same sdk _ _ _ (ap some whole) (pure-Refines sdk _))

  -- A number's digits are absorbed.
  number-Refines :
      (n : ℕ) (absorbed : List ℕ)
      → Refines sdk
          (mem_alloc_and_format_uint sdk n >>= λ digits. hash_update sdk absorbed digits)
          (some (absorbed ++ decimal n))
  number-Refines n absorbed =
      Refines-next sdk _ (decimal n) _ _ (mem_alloc_and_format_uint-Refines n)
        (hash_update-Refines sdk absorbed (decimal n))

  -- One more text behind what was absorbed.
  absorb-Refines :
      {A : Type 0} (absorbed bytes : List ℕ) (f : List ℕ → M A) (spec : Option A)
      → Refines sdk (f (absorbed ++ bytes)) spec
      → Refines sdk (hash_update sdk absorbed bytes >>= f) spec
  absorb-Refines absorbed bytes f spec next =
      Refines-next sdk _ (absorbed ++ bytes) f spec (hash_update-Refines sdk absorbed bytes) next

  format_hash_field_type_array_levels-Refines :
      (levels : List ArrayLevel) (absorbed : List ℕ)
      → Refines sdk
          (format_hash_field_type_array_levels sdk levels absorbed)
          (some (absorbed ++ levels_text levels))
  unfolding format_hash_field_type_array_levels levels_text format_hash_array_size
  format_hash_field_type_array_levels-Refines [] absorbed =
      Refines-same sdk _ _ _ (ap some (sym (append-nil absorbed))) (pure-Refines sdk absorbed)
  format_hash_field_type_array_levels-Refines (array_dynamic ∷ levels) absorbed =
      absorb-Refines absorbed (91 ∷ []) _ _ (
        Refines-next sdk _ _ _ _ (pure-Refines sdk _) (
          absorb-Refines (absorbed ++ (91 ∷ [])) (93 ∷ []) _ _ (
            Refines-same sdk _ _ _ (simp append_assoc)
              (format_hash_field_type_array_levels-Refines levels _))))
  format_hash_field_type_array_levels-Refines (array_fixed_size n ∷ levels) absorbed =
      absorb-Refines absorbed (91 ∷ []) _ _ (
        Refines-next sdk _ _ _ _ (number-Refines n _) (
          absorb-Refines _ (93 ∷ []) _ _ (
            Refines-same sdk _ _ _ (simp append_assoc)
              (format_hash_field_type_array_levels-Refines levels _))))

  format_hash_field_type-Refines :
      (f : Field) (absorbed : List ℕ)
      → Refines sdk
          (format_hash_field_type sdk f absorbed)
          (some (absorbed ++ (type_text f ++ levels_text f.array_levels)))
  unfolding format_hash_field_type td_get_struct_field_typename get_struct_field_sol_typename
      formatted_size format_hash_field_type_size has_size type_text
  format_hash_field_type-Refines f absorbed =
      of_type f.type f.struct_name f.type_size f.key_name f.array_levels
    where
      -- A name, and the number behind it.
      sized :
          (name : List ℕ) (n : ℕ) (levels : List ArrayLevel)
          → Refines sdk
              (hash_update sdk absorbed name >>= λ named.
                (mem_alloc_and_format_uint sdk n >>= λ digits. hash_update sdk named digits)
                >>= λ sized. format_hash_field_type_array_levels sdk levels sized)
              (some (absorbed ++ ((name ++ decimal n) ++ levels_text levels)))
      sized name n levels = absorb-Refines absorbed name _ _ (
          Refines-next sdk _ _ _ _ (number-Refines n (absorbed ++ name)) (
            Refines-same sdk _ _ _ (simp append_assoc)
              (format_hash_field_type_array_levels-Refines levels _)))

      plain :
          (name : List ℕ) (levels : List ArrayLevel)
          → Refines sdk
              (hash_update sdk absorbed name >>= λ named.
                pure named >>= λ sized. format_hash_field_type_array_levels sdk levels sized)
              (some (absorbed ++ (name ++ levels_text levels)))
      plain name levels = absorb-Refines absorbed name _ _ (
          Refines-next sdk _ _ _ _ (pure-Refines sdk (absorbed ++ name)) (
            Refines-same sdk _ _ _ (simp append_assoc)
              (format_hash_field_type_array_levels-Refines levels _)))

      of_type :
          (type : SolType) (name : List ℕ) (size : ℕ) (key : List ℕ) (levels : List ArrayLevel)
          → let f : Field = record {
            type = type;
            struct_name = name;
            type_size = size;
            key_name = key;
            array_levels = levels;
          } in
            Refines sdk
              (format_hash_field_type sdk f absorbed)
              (some (absorbed ++ (type_text f ++ levels_text levels)))
      of_type type_struct name size key levels = plain name levels
      of_type sol_int name size key levels = sized (105 ∷ 110 ∷ 116 ∷ []) (u16 (size * 8)) levels
      of_type sol_uint name size key levels =
          sized (117 ∷ 105 ∷ 110 ∷ 116 ∷ []) (u16 (size * 8)) levels
      of_type sol_address name size key levels =
          plain (97 ∷ 100 ∷ 100 ∷ 114 ∷ 101 ∷ 115 ∷ 115 ∷ []) levels
      of_type sol_bool name size key levels = plain (98 ∷ 111 ∷ 111 ∷ 108 ∷ []) levels
      of_type sol_string name size key levels =
          plain (115 ∷ 116 ∷ 114 ∷ 105 ∷ 110 ∷ 103 ∷ []) levels
      of_type sol_bytes_fix name size key levels =
          sized (98 ∷ 121 ∷ 116 ∷ 101 ∷ 115 ∷ []) size levels
      of_type sol_bytes_dyn name size key levels = plain (98 ∷ 121 ∷ 116 ∷ 101 ∷ 115 ∷ []) levels

  -- The text of a field, behind a comma unless it is the first.
  next_text : Bool → Field → List ℕ
  next_text true f = field_text f
  next_text false f = 44 ∷ field_text f

  encode_and_hash_field-Refines :
      (f : Field) (absorbed : List ℕ) (first : Bool)
      → Refines sdk
          (encode_and_hash_field sdk f (context absorbed first))
          (some (context (absorbed ++ next_text first f) false))
  unfolding encode_and_hash_field next_text field_text
  encode_and_hash_field-Refines f absorbed first = parted first
    where
      named :
          (before text : List ℕ)
          → absorbed ++ text ≡ before ++ field_text f
          → Refines sdk
              (format_hash_field_type sdk f before >>= λ typed.
                hash_update sdk typed (32 ∷ []) >>= λ spaced.
                hash_update sdk spaced f.key_name >>= λ named. pure (context named false))
              (some (context (absorbed ++ text) false))
      named before text same =
          let joined : ((before ++ (type_text f ++ levels_text f.array_levels)) ++ (32 ∷ []))
                ++ f.key_name
              ≡ before ++ field_text f =
            simp append_assoc in
          Refines-next sdk _ _ _ _ (format_hash_field_type-Refines f before) (
            absorb-Refines _ (32 ∷ []) _ _ (
              absorb-Refines _ f.key_name _ _ (
                Refines-same sdk _ _ _
                  (ap (λ (t : List ℕ). some (context t false)) (joined ∙ sym same))
                  (pure-Refines sdk _))))

      parted :
          (first : Bool)
          → Refines sdk
              (encode_and_hash_field sdk f (context absorbed first))
              (some (context (absorbed ++ next_text first f) false))
      parted true =
          Refines-next sdk _ _ _ _ (pure-Refines sdk absorbed) (named absorbed (field_text f) refl)
      parted false =
          absorb-Refines absorbed (44 ∷ []) _ _
            (named (absorbed ++ (44 ∷ [])) (44 ∷ field_text f) (simp append_assoc))

  is_empty : List Field → Bool
  is_empty [] = true
  is_empty (f ∷ fs) = false

  -- Fields behind the first.
  rest-Refines :
      (fs : List Field) (absorbed : List ℕ)
      → Refines sdk
          (td_visit_struct_fields fs (encode_and_hash_field sdk) (context absorbed false))
          (some (context (absorbed ++ rest_text fs) false))
  unfolding td_visit_struct_fields rest_text next_text
  rest-Refines [] absorbed =
      Refines-same sdk _ _ _
        (ap (λ (t : List ℕ). some (context t false)) (sym (append-nil absorbed)))
        (pure-Refines sdk _)
  rest-Refines (f ∷ fs) absorbed =
      Refines-next sdk _ _ _ _ (encode_and_hash_field-Refines f absorbed false) (
        Refines-same sdk _ _ _
          (ap (λ (t : List ℕ). some (context t false))
            (append_assoc absorbed (44 ∷ field_text f) (rest_text fs)))
          (rest-Refines fs (absorbed ++ (44 ∷ field_text f))))

  fields-Refines :
      (fs : List Field) (absorbed : List ℕ)
      → Refines sdk
          (td_visit_struct_fields fs (encode_and_hash_field sdk) (context absorbed true))
          (some (context (absorbed ++ fields_text fs) (is_empty fs)))
  unfolding td_visit_struct_fields fields_text is_empty next_text
  fields-Refines [] absorbed =
      Refines-same sdk _ _ _
        (ap (λ (t : List ℕ). some (context t true)) (sym (append-nil absorbed)))
        (pure-Refines sdk _)
  fields-Refines (f ∷ fs) absorbed =
      Refines-next sdk _ _ _ _ (encode_and_hash_field-Refines f absorbed true) (
        Refines-same sdk _ _ _
          (ap (λ (t : List ℕ). some (context t false))
            (append_assoc absorbed (field_text f) (rest_text fs)))
          (rest-Refines fs (absorbed ++ field_text f)))

  -- The type of a struct is absorbed as EIP-712's text of it.
  pub encode_and_hash_type-Refines :
      (s : Struct) (absorbed : List ℕ)
      → Refines sdk (encode_and_hash_type sdk s absorbed) (some (absorbed ++ struct_text s))
  unfolding encode_and_hash_type struct_text
  encode_and_hash_type-Refines s absorbed = absorb-Refines absorbed s.name _ _ (
      absorb-Refines _ (40 ∷ []) _ _ (
        Refines-next sdk _ _ _ _ (fields-Refines s.fields _)
          (Refines-same sdk _ _ _ (simp append_assoc) (hash_update-Refines sdk _ (41 ∷ [])))))
