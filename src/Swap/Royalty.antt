-- ===== src/Swap/Royalty.antt =====
-- Royalty terms read from a Token-Metadata account, and their split (swap/src/royalty.rs).
pub mod Split
pub mod Bounds
use xete_programs.Base.{
  ℕ, zero, suc, ◌+◌, ◌-◌, ◌*◌, ◌/◌, ◌==◌, ltb, leb, if◌then◌else◌, List, [], ◌∷◌, ◌++◌, Bytes,
  length, replicate,
}
use xete_programs.Base.Words.{from_le, as_u64, u64_mod}
use xete_programs.Chain.Result.{
  Result, ok, err, panicked, invalid_account_data, fail_if, ◌>>=◌, ◌>>◌,
}
use xete_programs.Chain.Types.{Pubkey}
use xete_programs.Chain.Decode.{index, byte}

abbrev pub max_creators : ℕ
max_creators = 5

-- `(bps, creators, count)`: the array has five entries, the first `count` are set.
pub record TmRoyalty : Type 0 where
  pub bps : ℕ
  pub creators : List (Pubkey × ℕ)
  pub count : ℕ

abbrev pub no_creator : Pubkey × ℕ
no_creator = (replicate 32 0, 0)

-- One borsh string: a u32 length, then as many bytes. The two `checked_add`s refuse a sum that
-- does not fit a 64-bit usize.
unfoldable pub walk_string : Bytes → ℕ → Result ℕ
walk_string d o = do
  fail_if (ltb (length d) (o + 4)) invalid_account_data
  let end = o + 4 + from_le (← index d o (o + 4))
  fail_if (leb u64_mod end) invalid_account_data
  fail_if (ltb (length d) end) invalid_account_data
  ok end

-- `for _ in 0..n`
unfoldable pub walk_strings : ℕ → Bytes → ℕ → Result ℕ
unfolding walk_string
walk_strings zero d o = ok o
walk_strings (suc n) d o = do o' ← walk_string d o; walk_strings n d o'

-- `for slot in creators.iter_mut().take(vlen)`
unfoldable pub read_creators : ℕ → Bytes → ℕ → Result (List (Pubkey × ℕ))
read_creators zero d o = ok []
read_creators (suc k) d o = do
  a ← index d o (o + 32)
  fail_if (ltb 1 (← byte d (o + 32))) invalid_account_data
  share ← byte d (o + 33)
  rest ← read_creators k d (o + 34)
  ok ((a, share) ∷ rest)

-- The `Option<Vec<Creator>>` at `o`, whose tag is `opt`.
unfoldable pub read_creator_vec : Bytes → ℕ → Result (List (Pubkey × ℕ))
unfolding read_creators
read_creator_vec d o = do
  fail_if (ltb (length d) (o + 4)) invalid_account_data
  b ← index d o (o + 4)
  let vlen = from_le b
  fail_if (ltb max_creators vlen) invalid_account_data
  fail_if (ltb (length d) (o + 4 + vlen * 34)) invalid_account_data
  read_creators vlen d (o + 4)

unfoldable pub read_creator_option : Bytes → ℕ → Result (List (Pubkey × ℕ))
unfolding read_creator_vec
read_creator_option d o = do
  fail_if (leb (length d) o) invalid_account_data
  opt ← byte d o
  if opt == 1
      then read_creator_vec d (o + 1)
      else if opt == 0
      then ok []
      else err invalid_account_data

unfoldable pub parse_tm_royalty : Bytes → Result TmRoyalty
unfolding walk_strings read_creator_option
parse_tm_royalty d = do
  fail_if (ltb (length d) 65) invalid_account_data
  o ← walk_strings 3 d 65
  fail_if (ltb (length d) (o + 2)) invalid_account_data
  b ← index d o (o + 2)
  let bps = from_le b
  fail_if (ltb 10000 bps) invalid_account_data
  cs ← read_creator_option d (o + 2)
  ok (record {
    bps = bps;
    creators = cs ++ replicate (max_creators - length cs) no_creator;
    count = length cs;
  })

-- `(total as u128 * sh as u128 / 100) as u64`
abbrev pub floor_share : ℕ → ℕ → ℕ
floor_share total sh = as_u64 (total * sh / 100)

-- The payouts of the shares that are left, when `paid` is already assigned: each is floored, and
-- the last takes the remainder. `overflow-checks` makes `+` and `-` panic.
unfoldable pub split_rest : ℕ → ℕ → List ℕ → Result (List ℕ)
split_rest total paid [] = ok []
split_rest total paid (sh ∷ []) = do fail_if (ltb total paid) panicked; ok ((total - paid) ∷ [])
split_rest total paid (sh ∷ (next ∷ more)) = do
  fail_if (leb u64_mod (paid + floor_share total sh)) panicked
  rest ← split_rest total (paid + floor_share total sh) (next ∷ more)
  ok (floor_share total sh ∷ rest)

-- The array of five payouts; more shares than that would index past its end.
unfoldable pub split_by_share : ℕ → List ℕ → Result (List ℕ)
unfolding split_rest
split_by_share total shares = do
  fail_if (ltb max_creators (length shares)) panicked
  out ← split_rest total 0 shares
  ok (out ++ replicate (max_creators - length out) 0)
