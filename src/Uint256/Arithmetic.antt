-- ===== src/Uint256/Arithmetic.antt =====
-- The arithmetic and the comparisons of uint256.c against the numbers that the words write.
use ledger_ambire_signer.Base.{
  ℕ, ◌+◌, ◌-◌, ◌*◌, ◌%◌, ◌^◌, ◌≡◌, arith, ltb, leb, ◌==◌, Bool-cases, inl, inr,
}
use ledger_ambire_signer.Uint128.{one128, add128, sub128}
use ledger_ambire_signer.Uint128.Arithmetic.{
  HasWords, value128, add128-value, sub128-value, gt128-value,
}
use ledger_ambire_signer.Uint256.{Uint256, add256, sub256, gt256, gte256, equal256, zero256}

abbrev pub HasWords256 : Uint256 → Type 0
HasWords256 n = HasWords n.upper × HasWords n.lower

abbrev pub value256 : Uint256 → ℕ
value256 n = value128 n.upper * 2 ^ 128 + value128 n.lower

-- For words within 64 bits, add256 adds modulo 2 ^ 256, and its words are within 64 bits.
pub add256-value :
    (a b : Uint256)
    → HasWords256 a
    → HasWords256 b
    → HasWords256 (add256 a b) × (value256 (add256 a b) ≡ (value256 a + value256 b) % 2 ^ 256)
unfolding add256
add256-value a b (au, al) (bu, bl) =
    let (wu, vu) = add128-value a.upper b.upper au bu in
    let (wl, vl) = add128-value a.lower b.lower al bl in
    let (wc, vc) = add128-value (add128 a.upper b.upper) one128 wu (omega arith) in
    let (gt, gte, equal, zeroes) = gt128-value a.lower (add128 a.lower b.lower) al wl in
    rw gt (elim (Bool-cases (ltb (value128 (add128 a.lower b.lower)) (value128 a.lower))) [
      | inl carry ↦ rw carry ((wc, wl), ground arith)
      | inr none ↦ rw none ((wu, wl), ground arith)
    ])

-- For words within 64 bits, sub256 subtracts modulo 2 ^ 256, and its words are within 64 bits.
pub sub256-value :
    (a b : Uint256)
    → HasWords256 a
    → HasWords256 b
    → HasWords256 (sub256 a b)
      × (value256 (sub256 a b) ≡ (2 ^ 256 + value256 a - value256 b) % 2 ^ 256)
unfolding sub256
sub256-value a b (au, al) (bu, bl) =
    let (wu, vu) = sub128-value a.upper b.upper au bu in
    let (wl, vl) = sub128-value a.lower b.lower al bl in
    let (wc, vc) = sub128-value (sub128 a.upper b.upper) one128 wu (omega arith) in
    let (gt, gte, equal, zeroes) = gt128-value (sub128 a.lower b.lower) a.lower wl al in
    rw gt (elim (Bool-cases (ltb (value128 a.lower) (value128 (sub128 a.lower b.lower)))) [
      | inl borrow ↦ rw borrow ((wc, wl), ground arith)
      | inr none ↦ rw none ((wu, wl), ground arith)
    ])

-- For words within 64 bits, the comparisons of 256-bit numbers compare the numbers, and the
-- test for zero tests the number.
pub gt256-value :
    (a b : Uint256)
    → HasWords256 a
    → HasWords256 b
    → (gt256 a b ≡ ltb (value256 b) (value256 a))
      × (gte256 a b ≡ leb (value256 b) (value256 a))
      × (equal256 a b ≡ (value256 a == value256 b))
      × (zero256 a ≡ (value256 a == 0))
unfolding gt256 gte256 equal256 zero256
gt256-value a b (au, al) (bu, bl) =
    let (gu, geu, eu, zu) = gt128-value a.upper b.upper au bu in
    let (gl, gel, el, zl) = gt128-value a.lower b.lower al bl in
    rw (gu, eu, zu, gl, el, zl) (ground arith)
