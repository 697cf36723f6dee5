-- ===== src/Base/Words.antt =====
-- Little-endian words: `uN::from_le_bytes`, `to_le_bytes`, and the two's complement reading of i64.
use Prim.Native.Nat.{ℕ, zero, suc, ◌+◌, ◌-◌, ◌*◌, ◌/◌, ◌%◌, ◌^◌, ◌≤◌, ◌<◌}
use mathlib.Core.Path.{◌≡◌, refl, ap}
use mathlib.Core.List.{[], ◌∷◌}
use native.Mathlib.Nat.{pow-suc}
use native.Mathlib.Omega.{arith}
use xete_programs.Base.Tests.{ltb, if◌then◌else◌}
use xete_programs.Base.Lists.{Bytes, length, take, drop, slice}
use xete_programs.Base.Int.{ℤ, pos, negsuc, pos_part, neg_part}

-- The low `k` bytes of a number.
unfoldable pub le_bytes : ℕ → ℕ → Bytes
le_bytes zero n = []
le_bytes (suc k) n = (n % 256) ∷ le_bytes k (n / 256)

unfoldable pub from_le : Bytes → ℕ
from_le [] = 0
from_le (b ∷ bs) = b + 256 * from_le bs

pub length-le_bytes : (k n : ℕ) → length (le_bytes k n) ≡ k
unfolding le_bytes
length-le_bytes zero n = refl
length-le_bytes (suc k) n = ap suc (length-le_bytes k (n / 256))

-- Decoding an encoded word gives it back when it fits the width.
pub from_le-le_bytes : (k n : ℕ) → n < 256 ^ k → from_le (le_bytes k n) ≡ n
unfolding le_bytes from_le
from_le-le_bytes zero n h = omega arith
from_le-le_bytes (suc k) n h =
    let e : 256 ^ suc k ≡ 256 * 256 ^ k = omega (arith, pow-suc 256 k) in
    let ih : from_le (le_bytes k (n / 256)) ≡ n / 256 =
      from_le-le_bytes k (n / 256) (omega (arith, e)) in
    omega (arith, ih)

abbrev pub u64_mod : ℕ
u64_mod = 2 ^ 64

-- `x as u64` of a u128.
abbrev pub as_u64 : ℕ → ℕ
as_u64 x = x % u64_mod

abbrev pub u64_le : ℕ → Bytes
u64_le n = le_bytes 8 n

abbrev pub u16_le : ℕ → Bytes
u16_le n = le_bytes 2 n

pub from_le-u64_le : (n : ℕ) → n < u64_mod → from_le (u64_le n) ≡ n
from_le-u64_le n h = from_le-le_bytes 8 n h

-- An i64 from its eight bytes.
unfoldable pub i64_from_le : Bytes → ℤ
i64_from_le b = let n = from_le b in if ltb n (2 ^ 63) then pos n else negsuc (2 ^ 64 - n - 1)

-- The word of an i64, and its eight bytes.
unfoldable pub i64_word : ℤ → ℕ
i64_word (pos n) = n
i64_word (negsuc n) = 2 ^ 64 - n - 1

unfoldable pub i64_le : ℤ → Bytes
unfolding i64_word
i64_le z = le_bytes 8 (i64_word z)

-- The range of an i64.
abbrev pub IsI64 : ℤ → Type 0
IsI64 z = (pos_part z < 2 ^ 63) × (neg_part z ≤ 2 ^ 63)

pub i64_from_le-i64_le : (z : ℤ) → IsI64 z → i64_from_le (i64_le z) ≡ z
unfolding i64_from_le i64_le
i64_from_le-i64_le (pos n) h = rw (from_le-le_bytes 8 n (omega arith)) (ground arith)
i64_from_le-i64_le (negsuc n) h =
    rw (from_le-le_bytes 8 (2 ^ 64 - n - 1) (omega arith)) (ground arith)

-- Every element is a byte.
abbrev pub AreBytes : Bytes → Type 0
AreBytes [] = Unit
AreBytes (b ∷ bs) = (b < 256) × AreBytes bs

pub from_le-lt : (b : Bytes) → AreBytes b → from_le b < 256 ^ length b
unfolding from_le
from_le-lt [] h = omega arith
from_le-lt (b ∷ bs) h = omega (arith, h.0, from_le-lt bs h.1, pow-suc 256 (length bs))

pub IsI64-i64_from_le : (b : Bytes) → AreBytes b → length b ≡ 8 → IsI64 (i64_from_le b)
unfolding i64_from_le
IsI64-i64_from_le b h e = let bound : from_le b < 2 ^ 64 = rw e at (from_le-lt b h) in ground arith

pub length-i64_le : (z : ℤ) → length (i64_le z) ≡ 8
unfolding i64_le
length-i64_le z = length-le_bytes 8 (i64_word z)

pub AreBytes-take : (n : ℕ) (b : Bytes) → AreBytes b → AreBytes (take n b)
AreBytes-take zero b h = tt
AreBytes-take (suc n) [] h = tt
AreBytes-take (suc n) (x ∷ b) h = (h.0, AreBytes-take n b h.1)

pub AreBytes-drop : (n : ℕ) (b : Bytes) → AreBytes b → AreBytes (drop n b)
AreBytes-drop zero b h = h
AreBytes-drop (suc n) [] h = tt
AreBytes-drop (suc n) (x ∷ b) h = AreBytes-drop n b h.1

pub AreBytes-slice : (d : Bytes) (a b : ℕ) → AreBytes d → AreBytes (slice d a b)
unfolding slice
AreBytes-slice d a b h = AreBytes-take (b - a) (drop a d) (AreBytes-drop a d h)
