-- ===== src/Prelude/Int.antt =====
-- Signed integers over the native numbers, under the library's names.
use Prim.Native.Nat.{ℕ, suc, ◌-◌, ◌%◌}
use mathlib.Core.Bool.{Bool, true}
use ian.Prelude.Tests.{ltb}
use ian.Prelude.Words.{size_mod}

-- `negsuc n` is -(n + 1).
pub data ℤ : Type 0 where
  pos : ℕ → ℤ
  negsuc : ℕ → ℤ

-- `n > z` for a counter `n` of the program.
abbrev pub exceeds : ℕ → ℤ → Bool
exceeds n (pos k) = ltb k n
exceeds n (negsuc k) = true

-- `(std::size_t)z`
abbrev pub to_size : ℤ → ℤ
to_size (pos k) = pos (k % size_mod)
to_size (negsuc k) = pos (size_mod - suc (k % size_mod))

-- The same as a number.
abbrev pub size_of : ℤ → ℕ
size_of (pos k) = k % size_mod
size_of (negsuc k) = size_mod - suc (k % size_mod)
