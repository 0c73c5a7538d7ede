-- ===== src/Base/Words.antt =====
-- C's unsigned types as native numbers: casts wrap by `%`, and a byte is a number below 256.
use Prim.Native.Nat.{ℕ, ◌%◌, ◌^◌, ◌<◌}

abbrev pub IsByte : ℕ → Type 0
IsByte b = b < 256

abbrev pub u8 : ℕ → ℕ
u8 n = n % 256

abbrev pub u16 : ℕ → ℕ
u16 n = n % 2 ^ 16

abbrev pub u32 : ℕ → ℕ
u32 n = n % 2 ^ 32

abbrev pub u64 : ℕ → ℕ
u64 n = n % 2 ^ 64
