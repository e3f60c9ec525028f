-- ===== src/Prelude/Int.antt =====
-- The integers over the native numbers, under the library's names, with a Boolean test.
use Prim.Native.Nat.{ℕ}
use mathlib.Core.Bool.{Bool, false}
use kli.Prelude.Tests.{◌==◌}

-- `negsuc n` is `-(n + 1)`.
pub data ℤ : Type 0 where
  pos negsuc : ℕ → ℤ

abbrev pub int_eq : ℤ → ℤ → Bool
int_eq (pos m) (pos n) = m == n
int_eq (negsuc m) (negsuc n) = m == n
int_eq _ _ = false
