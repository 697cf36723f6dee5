-- ===== src/Chain/Decode.antt =====
-- Reading fixed-size fields out of byte strings (swap/src/state.rs, program/lean/src/lib.rs).
use xete_programs.Base.{
  ℕ, ◌≤◌, ◌≡◌, ◌==◌, Bytes, length, slice, leb, ltb, get_or, ◌<◌, if◌then◌else◌, arith, eq_true,
}
use xete_programs.Chain.Result.{Result, ok, err, panicked, invalid_instruction_data}

-- `b.try_into()`: exactly 32 bytes.
unfoldable pub arr32 : Bytes → Result Bytes
arr32 b = if length b == 32 then ok b else err invalid_instruction_data

-- `d[a..b]` where nothing has bounded `b`: out of range is a panic.
unfoldable pub index : Bytes → ℕ → ℕ → Result Bytes
index d a b = if leb b (length d) then ok (slice d a b) else err panicked

pub arr32-ok : (b : Bytes) {v : Bytes} → arr32 b ≡ ok v → (v ≡ b) × (length b ≡ 32)
unfolding arr32
arr32-ok b h = ground (arith, eq_true (length b) 32)

pub arr32_of_length : (b : Bytes) → length b ≡ 32 → arr32 b ≡ ok b
unfolding arr32
arr32_of_length b h = ground arith

pub index-ok :
    (d : Bytes) (a b : ℕ) {v : Bytes} → index d a b ≡ ok v → (v ≡ slice d a b) × (b ≤ length d)
unfolding index
index-ok d a b h = ground arith

pub index_of_le : (d : Bytes) (a b : ℕ) → b ≤ length d → index d a b ≡ ok (slice d a b)
unfolding index
index_of_le d a b h = ground arith

-- `d[i]`: out of range is a panic.
unfoldable pub byte : Bytes → ℕ → Result ℕ
byte d i = if ltb i (length d) then ok (get_or d i 0) else err panicked

pub byte_of_lt : (d : Bytes) (i : ℕ) → i < length d → byte d i ≡ ok (get_or d i 0)
unfolding byte
byte_of_lt d i h = ground arith
