-- ===== src/Shared/Int.antt =====
-- The C++ type `int`, as an integer over the native numbers; the models note where a range matters.
use Prim.Native.Nat.{ℕ, suc, ◌-◌, ◌^◌}
use mathlib.Core.Path.{◌≡◌}
use mathlib.Core.Bool.{Bool, true, false}
use native.Mathlib.Omega.{arith}
use inference_server.Shared.Tests.{◌==◌}

-- `negsuc n` is -(n + 1).
pub data ℤ : Type 0 where
  pos : ℕ → ℤ
  negsuc : ℕ → ℤ

-- The conversion of an `int` to a 64-bit `std::size_t`.
abbrev pub to_size : ℤ → ℕ
to_size (pos n) = n
to_size (negsuc n) = 2 ^ 64 - suc n

abbrev pub int_eq : ℤ → ℤ → Bool
int_eq (pos a) (pos b) = a == b
int_eq (negsuc a) (negsuc b) = a == b
int_eq (pos a) (negsuc b) = false
int_eq (negsuc a) (pos b) = false

pub int_eq_refl : (a : ℤ) → int_eq a a ≡ true
int_eq_refl (pos a) = ground arith
int_eq_refl (negsuc a) = ground arith

pub int_eq_sound : (a b : ℤ) → int_eq a b ≡ true → a ≡ b
int_eq_sound (pos a) (pos b) h = ground arith
int_eq_sound (negsuc a) (negsuc b) h = ground arith
int_eq_sound (pos a) (negsuc b) h = cc
int_eq_sound (negsuc a) (pos b) h = cc
