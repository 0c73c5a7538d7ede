-- ===== src/DataPath/Arrays.antt =====
-- The count of the passes: what each step of a path does to it, and a bound that sinks.
use native.Mathlib.Nat.{pow-suc, mul-le-mul_right}
use ledger_ambire_signer.Base.{
  ℕ, zero, suc, ◌+◌, ◌-◌, ◌*◌, ◌%◌, ◌^◌, ◌≤◌, ◌<◌, ◌≡◌, ◌⊎◌, refl, ap, ◌∙◌, arith, true, false,
  some, List, length, get_or, set, length-set, ltb, leb, ◌==◌, Bool-cases, Option-cases, inl, inr,
  get_or-set, get_or-set_ne,
}
use ledger_ambire_signer.DataPath.{
  Reader, ArrayArgs, ArraysInfo, Walk, array_range, enter_array, enter_element, path_array,
  read_short, update_passes,
}

-- The passes left, as a number: the digit of an array counts `256 ^ (7 - i)`.
unfoldable pub passes_left : ℕ → List ℕ → ℕ
passes_left zero remaining = 0
passes_left (suc d) remaining = passes_left d remaining + get_or remaining d 0 * 256 ^ (7 - d)

-- Every array that is entered has one to 255 passes left.
abbrev pub HasDigits : ℕ → List ℕ → Type 0
HasDigits d remaining = (i : ℕ) → i < d → (1 ≤ get_or remaining i 0) × (get_or remaining i 0 ≤ 255)

pub record IsCounted (info : ArraysInfo) : Type 0 where
  pub slots : length info.passes_remaining ≡ 8
  pub depth_fits : info.depth ≤ 8
  pub digits : HasDigits info.depth info.passes_remaining
  pub index_fits : info.index ≤ 8

-- A bound for the passes left when arrays that are not yet entered may have 255 elements each.
abbrev pub bound : ArraysInfo → ℕ
bound info = passes_left info.depth info.passes_remaining + 256 ^ (8 - info.depth)

passes_left-set :
    (d i v : ℕ) (remaining : List ℕ)
    → d ≤ i
    → passes_left d (set remaining i v) ≡ passes_left d remaining
unfolding passes_left
passes_left-set zero i v remaining le = refl
passes_left-set (suc d) i v remaining le =
    rw
      (
        passes_left-set d i v remaining (omega arith),
        get_or-set_ne remaining i d v 0 (λ e. absurd (omega arith)),
      )
      refl

digits-set :
    (d i v : ℕ) (remaining : List ℕ)
    → d ≤ i
    → HasDigits d remaining
    → HasDigits d (set remaining i v)
digits-set d i v remaining le digits k lt =
    rw (get_or-set_ne remaining i k v 0 (λ e. absurd (omega arith))) (digits k lt)

weight_suc : (d : ℕ) → d < 8 → 256 ^ (8 - d) ≡ 256 ^ (7 - d) * 256
weight_suc d lt =
    let e : 8 - d ≡ suc (7 - d) = omega arith in ap (λ (k : ℕ). 256 ^ k) e ∙ pow-suc 256 (7 - d)

enter_array_inv :
    (passes : ℕ) (info info' : ArraysInfo)
    → (info.index == info.depth) ≡ true
    → enter_array passes info ≡ some info'
    → (passes ≤ 255)
      × (info' ≡ record info {
        passes_remaining = set info.passes_remaining info.index passes;
        depth = (info.depth + 1) % 256;
      })
unfolding enter_array
enter_array_inv passes info info' fresh e = ground arith

enter_array_old :
    (passes : ℕ) (info info' : ArraysInfo)
    → (info.index == info.depth) ≡ false
    → enter_array passes info ≡ some info'
    → info' ≡ info
unfolding enter_array
enter_array_old passes info info' entered e = ground arith

-- A new array counts no more than was allowed for it.
pred_times : (r w : ℕ) → 1 ≤ r → (r - 1) * w + w ≡ r * w
pred_times zero w h = absurd (omega arith)
pred_times (suc r) w h = let e : suc r - 1 ≡ r = omega arith in rw e (grind arith)

-- A digit written at `d`, behind those of the outer arrays.
digits-next :
    (d v : ℕ) (remaining : List ℕ)
    → d < length remaining
    → 1 ≤ v
    → v ≤ 255
    → HasDigits d remaining
    → HasDigits (suc d) (set remaining d v)
digits-next d v remaining fits lo hi digits i lt = elim (Bool-cases (i == d)) [
  | inl here ↦
      let same : i ≡ d = ground arith in rw (same, get_or-set remaining d v 0 fits) (lo, hi)
  | inr other ↦ digits-set d d v remaining (omega arith) digits i (ground arith)
]

enter_array-IsCounted :
    (passes : ℕ) (info info' : ArraysInfo)
    → IsCounted info
    → info.index < 8
    → 1 ≤ passes
    → enter_array passes info ≡ some info'
    → IsCounted info' × (bound info' ≤ bound info) × (info'.index ≡ info.index)
enter_array-IsCounted passes info info' c room some_passes e =
    elim (Bool-cases (info.index == info.depth)) [
      | inl fresh ↦
          let (few, same) = enter_array_inv passes info info' fresh e in
          let here : info.index ≡ info.depth = ground arith in
          let d : ℕ = info.depth in
          let fits : (d + 1) % 256 ≡ d + 1 = omega arith in
          let one : d + 1 ≡ suc d = omega arith in
          rw (same, here, fits, one)
            (
              record {
                slots = length-set info.passes_remaining d passes ∙ c.slots;
                depth_fits = omega arith;
                digits =
                    digits-next d passes info.passes_remaining (omega (arith, c.slots)) some_passes
                      few c.digits;
                index_fits = omega arith;
              },
              let weight : 8 - suc d ≡ 7 - d = omega arith in
                  unfold passes_left in
                  rw
                    (
                      weight,
                      passes_left-set d d passes info.passes_remaining (omega arith),
                      get_or-set info.passes_remaining d passes 0 (omega (arith, c.slots)),
                    )
                    (omega
                      (arith, weight_suc d (omega arith), mul-le-mul_right (256 ^ (7 - d)) few)),
              refl,
            )
      | inr entered ↦ rw (enter_array_old passes info info' entered e) (c, omega arith, refl)
    ]

pub record IsUpdated (d : ℕ) (remaining : List ℕ) (d' : ℕ) (remaining' : List ℕ) : Type 0 where
  pub slots : length remaining' ≡ length remaining
  pub shorter : d' ≤ d
  pub digits : HasDigits d' remaining'
  pub sinks : 0 < d' → passes_left d' remaining' + 256 ^ (8 - d') ≤ passes_left d remaining

-- What sinks below an array's digit sinks with it.
sinks_outer :
    (d d' v : ℕ) (remaining remaining' : List ℕ)
    → passes_left d' remaining' + 256 ^ (8 - d') ≤ passes_left d (set remaining d v)
    → passes_left d' remaining' + 256 ^ (8 - d') ≤ passes_left (suc d) remaining
unfolding passes_left
sinks_outer d d' v remaining remaining' h =
    omega (arith, h, passes_left-set d d v remaining (omega arith))

pub update_passes-IsUpdated :
    (d : ℕ) (remaining : List ℕ)
    → d ≤ length remaining
    → d ≤ 8
    → HasDigits d remaining
    → IsUpdated d remaining (update_passes d remaining).0 (update_passes d remaining).1
unfolding update_passes
update_passes-IsUpdated zero remaining fits few digits = record {
  slots = refl;
  shorter = omega arith;
  digits = digits;
  sinks = λ h. absurd (omega arith);
}
update_passes-IsUpdated (suc d) remaining fits few digits =
    let r : ℕ = get_or remaining d 0 in
    let (lo, hi) = digits d (omega arith) in
    let p : (256 + r - 1) % 256 ≡ r - 1 = omega arith in
    let outer : HasDigits d remaining = λ i lt. digits i (omega arith) in
    let kept : passes_left d (set remaining d (r - 1)) ≡ passes_left d remaining =
      passes_left-set d d (r - 1) remaining (omega arith) in
    elim (Bool-cases (ltb 0 (r - 1))) [
      | inl more ↦
          rw (p, more)
            (record {
              slots = length-set remaining d (r - 1);
              shorter = omega arith;
              digits =
                  digits-next d (r - 1) remaining (omega arith) (ground arith) (omega arith) outer;
              sinks = λ h.
                  let weight : 8 - suc d ≡ 7 - d = omega arith in
                  unfold passes_left in
                  rw (weight, kept, get_or-set remaining d (r - 1) 0 (omega arith))
                    (omega (arith, pred_times r (256 ^ (7 - d)) lo));
            })
      | inr last ↦
          let u =
            update_passes-IsUpdated d (set remaining d (r - 1))
              (omega (arith, length-set remaining d (r - 1))) (omega arith)
              (digits-set d d (r - 1) remaining (omega arith) outer) in
          rw (p, last)
            (record {
              slots = u.slots ∙ length-set remaining d (r - 1);
              shorter = omega (arith, u.shorter);
              digits = u.digits;
              sinks = λ h.
                  sinks_outer d (update_passes d (set remaining d (r - 1))).0 (r - 1) remaining
                    (update_passes d (set remaining d (r - 1))).1 (u.sinks h);
            })
    ]

array_bound_inv :
    (args : ArrayArgs) (size start passes : ℕ)
    → array_range args size ≡ some (start, passes)
    → (1 ≤ passes) × (start + passes ≤ size)
unfolding array_range
array_bound_inv args size start passes e = ground arith

path_array_inv :
    (reader : Reader) (args : ArrayArgs) (w : Walk)
    → ((path_array reader args w).1.arrays ≡ w.arrays)
      ⊎ ((start passes : ℕ) × (info : ArraysInfo) × (w.arrays.index < 8)
          × (1 ≤ passes)
          × (enter_array passes w.arrays ≡ some info)
          × ((path_array reader args w).1 ≡ (enter_element args start passes info w).1))
unfolding path_array
path_array_inv reader args w = elim (Bool-cases (leb 8 w.arrays.index)) [
  | inl full ↦ rw full (inl refl)
  | inr room ↦ elim (Option-cases (read_short reader w.offset)) [
    | inl missing ↦ rw (room, missing) (inl refl)
    | inr (size, e) ↦ elim (Option-cases (array_range args size)) [
      | inl missing ↦ rw (room, e, missing) (inl refl)
      | inr ((start, passes), e') ↦ elim (Option-cases (enter_array passes w.arrays)) [
        | inl missing ↦ rw (room, e, e', missing) (inl refl)
        | inr (info, e'') ↦
            let (lo, _) = array_bound_inv args size start passes e' in
            rw (room, e, e', e'') (inr (start, passes, info, ground arith, lo, e'', refl))
      ]
    ]
  ]
]

enter_element_arrays :
    (args : ArrayArgs) (start passes : ℕ) (info : ArraysInfo) (w : Walk)
    → ((enter_element args start passes info w).1.arrays ≡ info)
      ⊎ ((enter_element args start passes info w).1.arrays
          ≡ record info { index = (info.index + 1) % 256 })
unfolding enter_element
enter_element_arrays args start passes info w = ground arith

next_index :
    (info : ArraysInfo)
    → IsCounted info
    → info.index < 8
    → IsCounted (record info { index = (info.index + 1) % 256 })
next_index info c room = record {
  slots = c.slots;
  depth_fits = c.depth_fits;
  digits = c.digits;
  index_fits = omega arith;
}

-- What a step may do to the arrays: they stay counted, and the bound does not grow.
abbrev pub IsStep : ArraysInfo → ArraysInfo → Type 0
IsStep info info' = IsCounted info' × (bound info' ≤ bound info)

pub path_array-IsStep :
    (reader : Reader) (args : ArrayArgs) (w : Walk)
    → IsCounted w.arrays
    → IsStep w.arrays (path_array reader args w).1.arrays
path_array-IsStep reader args w c = elim (path_array_inv reader args w) [
  | inl same ↦ rw same (c, omega arith)
  | inr (start, passes, info, room, lo, entered, same) ↦
      let (c', le, here) = enter_array-IsCounted passes w.arrays info c room lo entered in
      elim (enter_element_arrays args start passes info w) [
        | inl stays ↦ rw (same, stays) (c', le)
        | inr moves ↦ rw (same, moves) (next_index info c' (omega (arith, here)), le)
      ]
]
