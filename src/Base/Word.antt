-- ===== src/Base/Word.antt =====
-- 32-bit words: `uintptr_t`, `size_t`, `unsigned long` and `unsigned int` of i386.
use Prim.Native.Nat.{ℕ, ◌+◌, ◌-◌, ◌/◌, ◌%◌, ◌^◌}
use mathlib.Core.Bool.{Bool}
use brackos.Base.Tests.{◌==◌}

abbrev pub add32 : ℕ → ℕ → ℕ
add32 a b = (a + b) % 2 ^ 32

abbrev pub sub32 : ℕ → ℕ → ℕ
sub32 a b = (a + 2 ^ 32 - b) % 2 ^ 32

-- `flags & (1 << bit)` is not 0
abbrev pub has_bit : (flags bit : ℕ) → Bool
has_bit flags bit = flags / 2 ^ bit % 2 == 1
