-- ===== src/Prelude/Int.antt =====
-- Signed integers over the native numbers; `negsuc n` is -(n + 1).
use stellar_debugger.Prelude.Tests.{◌==◌, ltb, leb, if◌then◌else◌}
use mathlib.Core.Bool.{Bool, true, false}
use Prim.Native.Nat.{ℕ, ◌+◌, ◌-◌}

pub data ℤ : Type 0 where
  pos : ℕ → ℤ
  negsuc : ℕ → ℤ

-- a - b.
abbrev pub sub_ℕ : ℕ → ℕ → ℤ
sub_ℕ a b = if leb b a then pos (a - b) else negsuc (b - a - 1)

infixl 6 ◌+ℤ◌
abbrev pub ◌+ℤ◌ : ℤ → ℤ → ℤ
pos a +ℤ pos b = pos (a + b)
pos a +ℤ negsuc b = sub_ℕ a (b + 1)
negsuc a +ℤ pos b = sub_ℕ b (a + 1)
negsuc a +ℤ negsuc b = negsuc (a + b + 1)

-- a < b.
abbrev pub ltb_int : ℤ → ℤ → Bool
ltb_int (pos a) (pos b) = ltb a b
ltb_int (pos a) (negsuc b) = false
ltb_int (negsuc a) (pos b) = true
ltb_int (negsuc a) (negsuc b) = ltb b a

-- a ≤ b.
abbrev pub leb_int : ℤ → ℤ → Bool
leb_int (pos a) (pos b) = leb a b
leb_int (pos a) (negsuc b) = false
leb_int (negsuc a) (pos b) = true
leb_int (negsuc a) (negsuc b) = leb b a

abbrev pub int_eq : ℤ → ℤ → Bool
int_eq (pos a) (pos b) = a == b
int_eq (pos a) (negsuc b) = false
int_eq (negsuc a) (pos b) = false
int_eq (negsuc a) (negsuc b) = a == b
