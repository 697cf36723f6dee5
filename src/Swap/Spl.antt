-- ===== src/Swap/Spl.antt =====
-- 1:1 swaps of tokens: open, fill, cancel, expire; tags 0 to 3 (swap/src/swap.rs).
pub mod Checks
pub mod Filled
pub mod Loaded
pub mod Posted
pub mod Refunded
pub mod Lifecycle
use xete_programs.Base.{
  ℕ, ◌+◌, not, ◌||◌, ◌==◌, ltb, List, [], ◌∷◌, Option, some, none, Bytes, length, slice, get_or,
  differs,
}
use xete_programs.Base.Int.{leb_ℤ}
use xete_programs.Base.Words.{from_le, u64_le, i64_from_le, i64_le}
use xete_programs.Chain.Result.{
  Result, ok, err, invalid_argument, illegal_owner, invalid_seeds, not_enough_account_keys,
  invalid_instruction_data, missing_required_signature,
}
use xete_programs.Chain.Types.{Pubkey, AccountInfo, Runtime}
use xete_programs.Chain.Action.{Action, lift, reads, fail_if, fail_when, when, ◌>>=◌, ◌>>◌}
use xete_programs.Chain.Decode.{arr32}
use xete_programs.Chain.Writes.{write_fields}
use xete_programs.Swap.Layout.{
  s_maker, s_give_mint, s_give_amt, s_want_mint, s_want_amt, s_taker, s_terms, s_expiry, s_status,
  s_bump, s_nonce, swap_len, status_open, token_acct_len,
}
use xete_programs.Swap.Checks.{mint_decimals, assert_token_program, require_token_account}
use xete_programs.Swap.Cpi.{
  create_pda, token_init, token_transfer, token_close, pay_lamports, close,
}
use xete_programs.Swap.Events.{kind_swap, emit_post_created}
use xete_programs.Swap.Config.Policy.{read_config, require_alias}
use xete_programs.Swap.Settle.Load.{load_fill_state}
use xete_programs.Swap.Settle.{pay_want_leg}
use Checks.{swap_seed, vault_seed, verify_swap_pdas, load_cancel_state, load_expired_state}

pub record OpenAccounts : Type 0 where
  pub maker : AccountInfo
  pub swap : AccountInfo
  pub vault : AccountInfo
  pub give_mint : AccountInfo
  pub want_mint : AccountInfo
  pub maker_give : AccountInfo
  pub token_prog : AccountInfo
  pub system : AccountInfo
  pub config : AccountInfo
  pub alias : AccountInfo

unfoldable pub open_accounts : List AccountInfo → Result OpenAccounts
open_accounts (a0 ∷ a1 ∷ a2 ∷ a3 ∷ a4 ∷ a5 ∷ a6 ∷ a7 ∷ a8 ∷ a9 ∷ []) = ok (record {
  maker = a0;
  swap = a1;
  vault = a2;
  give_mint = a3;
  want_mint = a4;
  maker_give = a5;
  token_prog = a6;
  system = a7;
  config = a8;
  alias = a9;
})
open_accounts _ = err not_enough_account_keys

-- The swap account's fields as `open_swap` writes them, in order.
abbrev pub swap_fields : OpenAccounts → Bytes → ℕ → List (ℕ × Bytes)
swap_fields a d bump =
    (s_maker, a.maker.key)
    ∷ (s_give_mint, a.give_mint.key)
    ∷ (s_give_amt, u64_le (from_le (slice d 32 40)))
    ∷ (s_want_mint, a.want_mint.key)
    ∷ (s_want_amt, u64_le (from_le (slice d 40 48)))
    ∷ (s_taker, slice d 88 120)
    ∷ (s_terms, slice d 48 80)
    ∷ (s_expiry, i64_le (i64_from_le (slice d 80 88)))
    ∷ (s_status, status_open ∷ [])
    ∷ (s_bump, bump ∷ [])
    ∷ (s_nonce, slice d 0 32)
    ∷ []

unfoldable pub open_swap : Runtime → Pubkey → List AccountInfo → Bytes → Action (Unit {0})
open_swap rt program_id accounts d = do
  fail_if (not (length d == 120)) invalid_instruction_data
  let nonce = slice d 0 32
  let give_amount = from_le (slice d 32 40)
  let want_amount = from_le (slice d 40 48)
  let expiry = i64_from_le (slice d 80 88)
  a ← lift (open_accounts accounts)
  fail_if (not a.maker.is_signer) missing_required_signature
  fail_if (give_amount == 0 || want_amount == 0) invalid_instruction_data
  now ← lift rt.unix_timestamp
  fail_if (leb_ℤ expiry now) invalid_argument
  reads (require_alias rt program_id a.config a.maker.key a.alias)
  let swap_pda = rt.find_program_address (swap_seed ∷ a.maker.key ∷ nonce ∷ []) program_id
  fail_if (differs swap_pda.0 a.swap.key) invalid_seeds
  let vault_pda = rt.find_program_address (vault_seed ∷ a.maker.key ∷ nonce ∷ []) program_id
  fail_if (differs vault_pda.0 a.vault.key) invalid_seeds
  create_pda rt a.maker a.swap a.system swap_len program_id
      (swap_seed ∷ a.maker.key ∷ nonce ∷ (swap_pda.1 ∷ []) ∷ [])
  emit_post_created (record {
    kind = kind_swap;
    maker = a.maker.key;
    post = a.swap.key;
    give = a.give_mint.key;
    want = a.want_mint.key;
    give_amount = give_amount;
    want_amount = want_amount;
    expiry = expiry;
    nonce = nonce;
  })
  reads (assert_token_program rt a.token_prog a.give_mint)
  create_pda rt a.maker a.vault a.system token_acct_len a.token_prog.key
      (vault_seed ∷ a.maker.key ∷ nonce ∷ (vault_pda.1 ∷ []) ∷ [])
  token_init rt a.token_prog a.vault a.give_mint a.swap.key
  decimals ← reads (mint_decimals a.give_mint)
  token_transfer rt a.token_prog a.maker_give a.give_mint a.vault a.maker give_amount decimals none
  write_fields a.swap.key (swap_fields a d swap_pda.1)

pub record FillAccounts : Type 0 where
  pub taker : AccountInfo
  pub swap : AccountInfo
  pub vault : AccountInfo
  pub maker : AccountInfo
  pub give_mint : AccountInfo
  pub want_mint : AccountInfo
  pub taker_want : AccountInfo
  pub taker_give : AccountInfo
  pub maker_want : AccountInfo
  pub token_prog : AccountInfo
  pub config : AccountInfo
  pub fee_ata : AccountInfo
  pub give_token_prog : AccountInfo

-- `accounts.get(12).unwrap_or(token_prog)`
abbrev pub give_program : AccountInfo → List AccountInfo → AccountInfo
give_program token_prog [] = token_prog
give_program token_prog (a ∷ _) = a

-- Twelve accounts or more; what follows the thirteenth is not looked at.
unfoldable pub fill_accounts : List AccountInfo → Result FillAccounts
fill_accounts (a0 ∷ a1 ∷ a2 ∷ a3 ∷ a4 ∷ a5 ∷ a6 ∷ a7 ∷ a8 ∷ a9 ∷ a10 ∷ a11 ∷ more) = ok (record {
  taker = a0;
  swap = a1;
  vault = a2;
  maker = a3;
  give_mint = a4;
  want_mint = a5;
  taker_want = a6;
  taker_give = a7;
  maker_want = a8;
  token_prog = a9;
  config = a10;
  fee_ata = a11;
  give_token_prog = give_program a9 more;
})
fill_accounts _ = err not_enough_account_keys

unfoldable pub fill : Runtime → Pubkey → List AccountInfo → Bytes → Action (Unit {0})
fill rt program_id accounts d = do
  fail_if (not (length d == 48)) invalid_instruction_data
  let nonce = slice d 0 32
  let expect_give = from_le (slice d 32 40)
  let max_want = from_le (slice d 40 48)
  a ← lift (fill_accounts accounts)
  fail_if (not a.taker.is_signer) missing_required_signature
  fail_when (λ l. differs (l a.swap.key).owner program_id) illegal_owner
  st ← reads (load_fill_state rt a.swap a.give_mint.key a.want_mint.key a.taker.key)
  fail_if (not (st.give_amount == expect_give) || ltb max_want st.want_amount) invalid_argument
  fail_if (differs a.maker.key st.maker) invalid_argument
  lift (verify_swap_pdas rt program_id a.swap a.vault st.maker nonce st.bump)
  reads (require_token_account a.maker_want a.want_mint.key st.maker)
  give_dec ← reads (mint_decimals a.give_mint)
  want_dec ← reads (mint_decimals a.want_mint)
  reads (assert_token_program rt a.token_prog a.want_mint)
  reads (assert_token_program rt a.give_token_prog a.give_mint)
  pay_want_leg rt program_id a.config a.token_prog a.taker_want a.want_mint a.fee_ata a.maker_want
      a.taker st.want_amount want_dec (get_or nonce 0 0)
  let swap_seeds = swap_seed ∷ st.maker ∷ nonce ∷ (st.bump ∷ []) ∷ []
  token_transfer rt a.give_token_prog a.vault a.give_mint a.taker_give a.swap st.give_amount
      give_dec (some swap_seeds)
  token_close rt a.give_token_prog a.vault a.maker a.swap swap_seeds
  close a.swap a.maker

-- The accounts of a refund.
pub record RefundAccounts : Type 0 where
  pub swap : AccountInfo
  pub vault : AccountInfo
  pub maker : AccountInfo
  pub give_mint : AccountInfo
  pub maker_give : AccountInfo
  pub token_prog : AccountInfo

-- Shared by `cancel_swap` and `expire`.
unfoldable pub refund_and_close :
    Runtime → Pubkey → RefundAccounts → (nonce : Bytes) → (bump give_amount : ℕ) → Action (Unit {0})
refund_and_close rt program_id a nonce bump give_amount = do
  reads (require_token_account a.maker_give a.give_mint.key a.maker.key)
  lift (verify_swap_pdas rt program_id a.swap a.vault a.maker.key nonce bump)
  give_dec ← reads (mint_decimals a.give_mint)
  let seeds = swap_seed ∷ a.maker.key ∷ nonce ∷ (bump ∷ []) ∷ []
  token_transfer rt a.token_prog a.vault a.give_mint a.maker_give a.swap give_amount give_dec
      (some seeds)
  token_close rt a.token_prog a.vault a.maker a.swap seeds
  close a.swap a.maker

pub record CancelAccounts : Type 0 where
  pub refund : RefundAccounts
  pub config : AccountInfo
  pub fee_wallet : AccountInfo
  pub system : AccountInfo

unfoldable pub cancel_accounts : List AccountInfo → Result CancelAccounts
cancel_accounts (a0 ∷ a1 ∷ a2 ∷ a3 ∷ a4 ∷ a5 ∷ a6 ∷ a7 ∷ a8 ∷ []) = ok (record {
  refund = record {
    swap = a1;
    vault = a2;
    maker = a0;
    give_mint = a3;
    maker_give = a4;
    token_prog = a5;
  };
  config = a6;
  fee_wallet = a7;
  system = a8;
})
cancel_accounts _ = err not_enough_account_keys

unfoldable pub cancel_swap : Runtime → Pubkey → List AccountInfo → Bytes → Action (Unit {0})
cancel_swap rt program_id accounts d = do
  fail_if (not (length d == 32)) invalid_instruction_data
  let nonce = slice d 0 32
  a ← lift (cancel_accounts accounts)
  fail_if (not a.refund.maker.is_signer) missing_required_signature
  fail_when (λ l. differs (l a.refund.swap.key).owner program_id) illegal_owner
  st ← reads (load_cancel_state a.refund.swap a.refund.maker a.refund.give_mint)
  policy ← reads (read_config rt program_id a.config)
  when (ltb 0 policy.delist_fee) (do
    fail_if (differs a.fee_wallet.key policy.fee_wallet) invalid_argument
    pay_lamports rt a.refund.maker a.fee_wallet a.system policy.delist_fee)
  refund_and_close rt program_id a.refund nonce st.bump st.give_amount

unfoldable pub expire_accounts : List AccountInfo → Result RefundAccounts
expire_accounts (a0 ∷ a1 ∷ a2 ∷ a3 ∷ a4 ∷ a5 ∷ a6 ∷ []) =
    ok (record {
      swap = a1;
      vault = a2;
      maker = a3;
      give_mint = a4;
      maker_give = a5;
      token_prog = a6;
    })
expire_accounts _ = err not_enough_account_keys

unfoldable pub expire : Runtime → Pubkey → List AccountInfo → Bytes → Action (Unit {0})
expire rt program_id accounts d = do
  fail_if (not (length d == 32)) invalid_instruction_data
  let nonce = slice d 0 32
  a ← lift (expire_accounts accounts)
  fail_when (λ l. differs (l a.swap.key).owner program_id) illegal_owner
  st ← reads (load_expired_state rt a.swap a.give_mint)
  fail_if (differs a.maker.key st.maker) invalid_argument
  refund_and_close rt program_id a nonce st.bump st.give_amount
