-- ===== src/Swap/Config/Policy.antt =====
-- Reading the fee policy, and the checks that rest on it (swap/src/config.rs).
use xete_programs.Base.{
  ℕ, ◌+◌, ◌%◌, not, ◌||◌, ◌==◌, if◌then◌else◌, [], ◌∷◌, Bytes, length, slice, get_or, differs,
}
use xete_programs.Base.Words.{from_le}
use xete_programs.Chain.Result.{
  Result, ok, invalid_argument, invalid_account_data, illegal_owner, invalid_seeds, fail_if, ◌>>=◌,
  ◌>>◌,
}
use xete_programs.Chain.Types.{Pubkey, AccountInfo, Ledger, Runtime}
use xete_programs.Chain.Decode.{arr32}
use xete_programs.Swap.Layout.{
  c_fee_wallet, c_fee_bps, c_delist_fee, c_alias_program, c_fee_shards, config_len, alias_len,
}
use xete_programs.Swap.Checks.{any_nonzero, require_token_account}

-- b"config"
abbrev pub config_seed : Bytes
config_seed = b'c' ∷ b'o' ∷ b'n' ∷ b'f' ∷ b'i' ∷ b'g' ∷ []

-- b"fee_vault"
abbrev pub fee_vault_seed : Bytes
fee_vault_seed = b'f' ∷ b'e' ∷ b'e' ∷ b'_' ∷ b'v' ∷ b'a' ∷ b'u' ∷ b'l' ∷ b't' ∷ []

pub record Policy : Type 0 where
  pub fee_bps : ℕ
  pub delist_fee : ℕ
  pub fee_wallet : Pubkey
  pub fee_shards : ℕ

-- The config account is the program's, at its one address.
unfoldable pub require_config : Runtime → Pubkey → AccountInfo → Ledger → Result (Unit {0})
require_config rt program_id config l = do
  fail_if (differs (l config.key).owner program_id) illegal_owner
  fail_if (differs (rt.find_program_address (config_seed ∷ []) program_id).0 config.key)
      invalid_seeds

unfoldable pub read_config : Runtime → Pubkey → AccountInfo → Ledger → Result Policy
unfolding require_config
read_config rt program_id config l = do
  require_config rt program_id config l
  let c = (l config.key).contents
  fail_if (not (length c == config_len)) invalid_account_data
  fee_wallet ← arr32 (slice c c_fee_wallet (c_fee_wallet + 32))
  ok (record {
    fee_bps = from_le (slice c c_fee_bps (c_fee_bps + 2));
    delist_fee = from_le (slice c c_delist_fee (c_delist_fee + 8));
    fee_wallet = fee_wallet;
    fee_shards = get_or c c_fee_shards 0;
  })

unfoldable pub verify_fee_dest :
    Runtime
    → Pubkey
    → (fee_ata want_mint : AccountInfo) → Pubkey
    → (fee_shards shard_seed : ℕ) → Ledger
    → Result (Unit {0})
verify_fee_dest rt program_id fee_ata want_mint fee_wallet fee_shards shard_seed l =
    if fee_shards == 0
    then require_token_account fee_ata want_mint.key fee_wallet l
    else fail_if
        (differs
          (rt.find_program_address
            (fee_vault_seed ∷ want_mint.key ∷ ((shard_seed % fee_shards) ∷ []) ∷ []) program_id).0
          fee_ata.key)
        invalid_argument

unfoldable pub require_alias :
    Runtime → Pubkey → AccountInfo → Bytes → AccountInfo → Ledger → Result (Unit {0})
unfolding require_config
require_alias rt program_id config caller alias l = do
  require_config rt program_id config l
  let c = (l config.key).contents
  fail_if (not (length c == config_len)) invalid_account_data
  alias_program ← arr32 (slice c c_alias_program (c_alias_program + 32))
  if not (any_nonzero alias_program) then ok tt else do
    fail_if (differs (l alias.key).owner alias_program) invalid_argument
    let a = (l alias.key).contents
    fail_if (not (length a == alias_len) || differs (slice a 0 32) caller) invalid_argument
