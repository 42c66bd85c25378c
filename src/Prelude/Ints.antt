-- ===== src/Prelude/Ints.antt =====
-- The integers of Python over the native natural numbers, with its comparisons, min and max.
use Prim.Native.Nat.{ℕ}
use mathlib.Core.Bool.{Bool, true, false, not}
use repoauditor.Prelude.Tests.{if◌then◌else◌, leb, ◌==◌}

-- `negsuc n` is -(n + 1).
pub data ℤ : Type 0 where
  pos negsuc : ℕ → ℤ

abbrev pub int_leb : ℤ → ℤ → Bool
int_leb (pos a) (pos b) = leb a b
int_leb (pos a) (negsuc b) = false
int_leb (negsuc a) (pos b) = true
int_leb (negsuc a) (negsuc b) = leb b a

abbrev pub int_ltb : ℤ → ℤ → Bool
int_ltb a b = not (int_leb b a)

abbrev pub int_eq : ℤ → ℤ → Bool
int_eq (pos a) (pos b) = a == b
int_eq (pos a) (negsuc b) = false
int_eq (negsuc a) (pos b) = false
int_eq (negsuc a) (negsuc b) = a == b

abbrev pub int_max : ℤ → ℤ → ℤ
int_max a b = if int_ltb a b then b else a

abbrev pub int_min : ℤ → ℤ → ℤ
int_min a b = if int_ltb b a then b else a

-- The number, or 0 below it.
abbrev pub natural : ℤ → ℕ
natural (pos n) = n
natural (negsuc n) = 0
