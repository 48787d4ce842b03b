-- ===== src/Prelude/Int.antt =====
-- Signed integers, for the price type `std::int64_t` of types.hpp.
use Prim.Native.Nat.{ℕ}
use mathlib.Core.Path.{◌≡◌}
use mathlib.Core.Bool.{Bool, true, false}
use native.Mathlib.Omega.{arith}
use sententia.Prelude.Tests.{ltb, ◌==◌}

-- `negsuc n` is -(n + 1).
pub data ℤ : Type 0 where
  pos : ℕ → ℤ
  negsuc : ℕ → ℤ

-- `a < b`
unfoldable pub ltz : ℤ → ℤ → Bool
ltz (pos a) (pos b) = ltb a b
ltz (pos a) (negsuc b) = false
ltz (negsuc a) (pos b) = true
ltz (negsuc a) (negsuc b) = ltb b a

-- `a == b`
unfoldable pub eqz : ℤ → ℤ → Bool
eqz (pos a) (pos b) = a == b
eqz (negsuc a) (negsuc b) = a == b
eqz _ _ = false

pub ltz_irrefl : (a : ℤ) → ltz a a ≡ false
unfolding ltz
ltz_irrefl a = ground arith

pub ltz_trans : (a b c : ℤ) → ltz a b ≡ true → ltz b c ≡ true → ltz a c ≡ true
unfolding ltz
ltz_trans a b c h k = ground arith

pub ltz_asym : (a b : ℤ) → ltz a b ≡ true → ltz b a ≡ false
unfolding ltz
ltz_asym a b h = ground arith

pub ltz_total : (a b : ℤ) → ltz a b ≡ false → ltz b a ≡ false → a ≡ b
unfolding ltz
ltz_total a b h k = ground arith

-- `a ≤ b < c`
pub ltz_le_trans : (a b c : ℤ) → ltz b a ≡ false → ltz b c ≡ true → ltz a c ≡ true
unfolding ltz
ltz_le_trans a b c h k = ground arith

pub eqz→≡ : (a b : ℤ) → eqz a b ≡ true → a ≡ b
unfolding eqz
eqz→≡ a b h = ground arith

pub eqz_refl : (a : ℤ) → eqz a a ≡ true
unfolding eqz
eqz_refl a = ground arith

-- `a < b ≤ c`
pub ltz_trans_le : (a b c : ℤ) → ltz a b ≡ true → ltz c b ≡ false → ltz a c ≡ true
unfolding ltz
ltz_trans_le a b c h k = ground arith
