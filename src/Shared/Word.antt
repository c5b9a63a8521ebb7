-- ===== src/Shared/Word.antt =====
-- Unsigned machine words of the source: a value is a number, and an operation wraps at its width.
use Prim.Native.Nat.{ℕ, ◌%◌}

abbrev pub u8 : ℕ → ℕ
u8 n = n % 256

abbrev pub u16 : ℕ → ℕ
u16 n = n % 65536

abbrev pub u64 : ℕ → ℕ
u64 n = n % 18446744073709551616
