-- ===== src/Uint256/Tests.antt =====
-- The 256-bit numbers at concrete inputs.
use ledger_ambire_signer.Base.{◌+◌, ◌-◌, ◌%◌, ◌^◌, ◌≡◌, arith, ltb, leb, ◌==◌}
use ledger_ambire_signer.Uint128.{cleared128, max128}
use ledger_ambire_signer.Uint256.{
  Uint256, small256, add256, sub256, gt256, gte256, equal256, zero256,
}
use ledger_ambire_signer.Uint256.Arithmetic.{
  HasWords256, value256, add256-value, sub256-value, gt256-value,
}

abbrev big : Uint256
big = record { upper = cleared128; lower = max128 }

add256-value_example :
    HasWords256 (add256 big (small256 2))
    × (value256 (add256 big (small256 2)) ≡ (value256 big + value256 (small256 2)) % 2 ^ 256)
add256-value_example =
    add256-value big (small256 2) ((omega arith, omega arith), (omega arith, omega arith))
      ((omega arith, omega arith), (omega arith, omega arith))

sub256-value_example :
    HasWords256 (sub256 (small256 2) big)
    × (value256 (sub256 (small256 2) big)
        ≡ (2 ^ 256 + value256 (small256 2) - value256 big) % 2 ^ 256)
sub256-value_example =
    sub256-value (small256 2) big ((omega arith, omega arith), (omega arith, omega arith))
      ((omega arith, omega arith), (omega arith, omega arith))

gt256-value_example :
    (gt256 big (small256 2) ≡ ltb (value256 (small256 2)) (value256 big))
    × (gte256 big (small256 2) ≡ leb (value256 (small256 2)) (value256 big))
    × (equal256 big (small256 2) ≡ (value256 big == value256 (small256 2)))
    × (zero256 big ≡ (value256 big == 0))
gt256-value_example =
    gt256-value big (small256 2) ((omega arith, omega arith), (omega arith, omega arith))
      ((omega arith, omega arith), (omega arith, omega arith))
