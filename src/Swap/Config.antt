-- ===== src/Swap/Config.antt =====
-- Fee-policy instructions: tags 8 to 11 (swap/src/config.rs).
pub mod Policy
pub mod Fees
pub mod Admin
use xete_programs.Base.{
  ℕ, ◌+◌, not, ◌||◌, ◌==◌, ltb, List, [], ◌∷◌, ◌++◌, some, none, Bytes, length, slice, get_or,
  differs, if◌then◌else◌,
}
use xete_programs.Base.Words.{from_le}
use xete_programs.Chain.Result.{
  Result, ok, err, invalid_argument, invalid_account_data, illegal_owner, invalid_seeds,
  not_enough_account_keys, invalid_instruction_data, missing_required_signature,
}
use xete_programs.Chain.Types.{Pubkey, AccountInfo, Ledger, Runtime}
use xete_programs.Chain.Action.{Action, pure, lift, reads, fail_if, fail_when, ◌>>=◌, ◌>>◌}
use xete_programs.Chain.Decode.{arr32}
use xete_programs.Chain.Writes.{write_fields}
use xete_programs.Swap.Layout.{
  c_admin, c_fee_wallet, c_fee_bps, c_delist_fee, c_alias_program, c_fee_shards, c_bump, config_len,
  token_acct_len, bps_denom,
}
use xete_programs.Swap.Checks.{mint_decimals, require_token_account}
use xete_programs.Swap.Cpi.{create_pda, token_init, token_transfer}
use Policy.{config_seed, fee_vault_seed}

-- The policy fields as the payload carries them.
abbrev pub policy_fields : Bytes → List (ℕ × Bytes)
policy_fields d =
    (c_fee_wallet, slice d 0 32)
    ∷ (c_fee_bps, slice d 32 34)
    ∷ (c_delist_fee, slice d 34 42)
    ∷ (c_alias_program, slice d 42 74)
    ∷ (c_fee_shards, slice d 74 75)
    ∷ []

unfoldable pub init_accounts : List AccountInfo → Result (AccountInfo × AccountInfo × AccountInfo)
init_accounts (a ∷ b ∷ c ∷ []) = ok (a, b, c)
init_accounts _ = err not_enough_account_keys

unfoldable pub update_accounts : List AccountInfo → Result (AccountInfo × AccountInfo)
update_accounts (a ∷ b ∷ []) = ok (a, b)
update_accounts _ = err not_enough_account_keys

unfoldable pub init_config : Runtime → Pubkey → List AccountInfo → Bytes → Action (Unit {0})
init_config rt program_id accounts d = do
  fail_if (not (length d == 75)) invalid_instruction_data
  fail_if (ltb bps_denom (from_le (slice d 32 34))) invalid_argument
  (admin, config, system) ← lift (init_accounts accounts)
  fail_if (not admin.is_signer) missing_required_signature
  let pda = rt.find_program_address (config_seed ∷ []) program_id
  fail_if (differs pda.0 config.key) invalid_seeds
  create_pda rt admin config system config_len program_id (config_seed ∷ (pda.1 ∷ []) ∷ [])
  write_fields config.key ((c_admin, admin.key) ∷ (policy_fields d ++ ((c_bump, pda.1 ∷ []) ∷ [])))

-- The stored admin must be the one who signs.
abbrev pub admin_check : AccountInfo → AccountInfo → Ledger → Result (Unit {0})
admin_check admin config l =
    let c = (l config.key).contents in
    if not (length c == config_len) || differs (slice c c_admin (c_admin + 32)) admin.key
    then err invalid_argument
    else ok tt

unfoldable pub update_config : Runtime → Pubkey → List AccountInfo → Bytes → Action (Unit {0})
update_config rt program_id accounts d = do
  fail_if (not (length d == 75)) invalid_instruction_data
  fail_if (ltb bps_denom (from_le (slice d 32 34))) invalid_argument
  (admin, config) ← lift (update_accounts accounts)
  fail_if (not admin.is_signer) missing_required_signature
  fail_when (λ l. differs (l config.key).owner program_id) illegal_owner
  fail_if (differs (rt.find_program_address (config_seed ∷ []) program_id).0 config.key)
      invalid_seeds
  reads (admin_check admin config)
  write_fields config.key (policy_fields d)

pub record VaultAccounts : Type 0 where
  pub payer : AccountInfo
  pub fee_vault : AccountInfo
  pub want_mint : AccountInfo
  pub token_program : AccountInfo
  pub system : AccountInfo

unfoldable pub vault_accounts : List AccountInfo → Result VaultAccounts
vault_accounts (a ∷ b ∷ c ∷ e ∷ f ∷ []) =
    ok (record { payer = a; fee_vault = b; want_mint = c; token_program = e; system = f })
vault_accounts _ = err not_enough_account_keys

unfoldable pub init_fee_vault : Runtime → Pubkey → List AccountInfo → Bytes → Action (Unit {0})
init_fee_vault rt program_id accounts d = do
  fail_if (not (length d == 1)) invalid_instruction_data
  let idx = get_or d 0 0
  a ← lift (vault_accounts accounts)
  fail_if (not a.payer.is_signer) missing_required_signature
  let cfg = rt.find_program_address (config_seed ∷ []) program_id
  let fv = rt.find_program_address (fee_vault_seed ∷ a.want_mint.key ∷ (idx ∷ []) ∷ []) program_id
  fail_if (differs fv.0 a.fee_vault.key) invalid_seeds
  create_pda rt a.payer a.fee_vault a.system token_acct_len rt.spl_token_id
      (fee_vault_seed ∷ a.want_mint.key ∷ (idx ∷ []) ∷ (fv.1 ∷ []) ∷ [])
  token_init rt a.token_program a.fee_vault a.want_mint cfg.0

pub record SweepAccounts : Type 0 where
  pub caller : AccountInfo
  pub fee_vault : AccountInfo
  pub want_mint : AccountInfo
  pub config : AccountInfo
  pub fee_wallet_ata : AccountInfo
  pub token_program : AccountInfo

unfoldable pub sweep_accounts : List AccountInfo → Result SweepAccounts
sweep_accounts (a ∷ b ∷ c ∷ e ∷ f ∷ g ∷ []) = ok (record {
  caller = a;
  fee_vault = b;
  want_mint = c;
  config = e;
  fee_wallet_ata = f;
  token_program = g;
})
sweep_accounts _ = err not_enough_account_keys

-- The fee wallet of a config of the right length.
abbrev pub stored_fee_wallet : AccountInfo → Ledger → Result Pubkey
stored_fee_wallet config l =
    let c = (l config.key).contents in
    if not (length c == config_len)
    then err invalid_account_data
    else arr32 (slice c c_fee_wallet (c_fee_wallet + 32))

-- The token amount at offset 64 of a token account.
abbrev pub token_balance : AccountInfo → Ledger → Result ℕ
token_balance vault l =
    let v = (l vault.key).contents in
    if ltb (length v) 72 then err invalid_account_data else ok (from_le (slice v 64 72))

unfoldable pub sweep_fees : Runtime → Pubkey → List AccountInfo → Bytes → Action (Unit {0})
sweep_fees rt program_id accounts d = do
  fail_if (not (length d == 1)) invalid_instruction_data
  let idx = get_or d 0 0
  a ← lift (sweep_accounts accounts)
  fail_if (not a.caller.is_signer) missing_required_signature
  let fv = rt.find_program_address (fee_vault_seed ∷ a.want_mint.key ∷ (idx ∷ []) ∷ []) program_id
  fail_if (differs fv.0 a.fee_vault.key) invalid_seeds
  fail_when (λ l. differs (l a.config.key).owner program_id) illegal_owner
  let cfg = rt.find_program_address (config_seed ∷ []) program_id
  fail_if (differs cfg.0 a.config.key) invalid_seeds
  fee_wallet ← reads (stored_fee_wallet a.config)
  reads (require_token_account a.fee_wallet_ata a.want_mint.key fee_wallet)
  amount ← reads (token_balance a.fee_vault)
  if amount == 0 then pure tt else do
    want_dec ← reads (mint_decimals a.want_mint)
    token_transfer rt a.token_program a.fee_vault a.want_mint a.fee_wallet_ata a.config amount
        want_dec (some (config_seed ∷ (cfg.1 ∷ []) ∷ []))
