-- ===== src/Base/Int.antt =====
-- Signed integers over the native numbers, as far as clocks and deadlines need them.
use Prim.Native.Nat.{ℕ, suc, ◌+◌, ◌≤◌, ◌<◌}
use mathlib.Core.Path.{◌≡◌}
use mathlib.Core.Bool.{Bool, false}
use native.Mathlib.Omega.{arith}
use xete_programs.Base.Tests.{ltb, leb}

-- `negsuc n` is -(n + 1).
pub data ℤ : Type 0 where
  pos : ℕ → ℤ
  negsuc : ℕ → ℤ

abbrev pub pos_part : ℤ → ℕ
pos_part (pos n) = n
pos_part (negsuc n) = 0

abbrev pub neg_part : ℤ → ℕ
neg_part (pos n) = 0
neg_part (negsuc n) = suc n

infix 50 ◌≤ℤ◌ ◌<ℤ◌
abbrev pub ◌≤ℤ◌ : ℤ → ℤ → Type 0
a ≤ℤ b = pos_part a + neg_part b ≤ pos_part b + neg_part a

abbrev pub ◌<ℤ◌ : ℤ → ℤ → Type 0
a <ℤ b = pos_part a + neg_part b < pos_part b + neg_part a

abbrev pub leb_ℤ : ℤ → ℤ → Bool
leb_ℤ a b = leb (pos_part a + neg_part b) (pos_part b + neg_part a)

abbrev pub ltb_ℤ : ℤ → ℤ → Bool
ltb_ℤ a b = ltb (pos_part a + neg_part b) (pos_part b + neg_part a)

pub leb_ℤ_false : (a b : ℤ) → leb_ℤ a b ≡ false → b <ℤ a
leb_ℤ_false a b h = ground arith

pub ltb_ℤ_false : (a b : ℤ) → ltb_ℤ a b ≡ false → b ≤ℤ a
ltb_ℤ_false a b h = ground arith

pub ltb_ℤ_of_le : (a b : ℤ) → b ≤ℤ a → ltb_ℤ a b ≡ false
ltb_ℤ_of_le a b h = ground arith

pub leb_ℤ_of_lt : (a b : ℤ) → b <ℤ a → leb_ℤ a b ≡ false
leb_ℤ_of_lt a b h = ground arith
