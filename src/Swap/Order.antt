-- ===== src/Swap/Order.antt =====
-- Signed orders and bids: settled against an ed25519 signature, with nothing rested on the chain;
-- tags 38 and 41 (swap/src/order.rs).
pub mod Ed25519
pub mod Gate
pub mod Layout
pub mod Message
pub mod Checked
pub mod Authorized
pub mod Replay
pub mod Pnft
pub mod Core
pub mod Once
use xete_programs.Base.{
  ℕ, ◌+◌, ◌-◌, ◌^◌, true, false, not, ◌||◌, ◌==◌, ltb, List, [], ◌∷◌, Option, some, none, Bytes,
  length, get_or,
}
use xete_programs.Chain.Result.{
  Result, ok, err, not_enough_account_keys, invalid_instruction_data, missing_required_signature,
}
use xete_programs.Chain.Types.{Pubkey, AccountInfo, Runtime}
use xete_programs.Chain.Action.{Action, pure, lift, reads, fail_if, ◌>>=◌, ◌>>◌}
use xete_programs.Swap.Layout.{royalty_none, royalty_split}
use xete_programs.Swap.Checks.{mint_decimals, assert_token_program, require_token_account}
use xete_programs.Swap.Cpi.{create_pda, token_transfer}
use xete_programs.Swap.Settle.{Leg, pay_want_and_royalty, pay_coins_via_delegate}
use Ed25519.{Terms, order_domain, bid_domain}
use Gate.{Auth, order_seed, order_done_seed, payload_terms, check_timely, check_signed}

-- The signature and the addresses, and then the marker, which can be created once. The result is the
-- authority's bump.
unfoldable pub mark_order : Runtime → Pubkey → Bytes → Terms → Auth → Action ℕ
mark_order rt program_id domain t a = do
  bumps ← lift (check_signed rt program_id domain t a)
  create_pda rt a.taker a.order_done a.system 1 program_id
      (order_done_seed ∷ a.maker.key ∷ t.nonce ∷ (bumps.1 ∷ []) ∷ [])
  pure bumps.0

-- All the gates.
unfoldable pub authorize : Runtime → Pubkey → Bytes → Terms → Auth → Action ℕ
unfolding mark_order
authorize rt program_id domain t a = do
  lift (check_timely rt t a)
  mark_order rt program_id domain t a

-- `u64::MAX`: an order's settlement has no cap of its own.
abbrev pub u64_max : ℕ
u64_max = 2 ^ 64 - 1

-- The accounts of an order's settlement, fifteen or more.
pub record OrderAccounts : Type 0 where
  pub auth : Auth
  pub give_mint : AccountInfo
  pub want_mint : AccountInfo
  pub maker_give : AccountInfo
  pub taker_give : AccountInfo
  pub taker_want : AccountInfo
  pub maker_want : AccountInfo
  pub token_prog : AccountInfo
  pub config : AccountInfo
  pub fee_ata : AccountInfo
  pub more : List AccountInfo

unfoldable pub order_accounts : List AccountInfo → Result OrderAccounts
order_accounts
      (a0 ∷ a1 ∷ a2 ∷ a3 ∷ a4 ∷ a5 ∷ a6 ∷ a7 ∷ a8 ∷ a9 ∷ a10 ∷ a11 ∷ a12 ∷ a13 ∷ a14 ∷ more) =
    ok (record {
      auth = record {
        taker = a0;
        maker = a1;
        order_auth = a8;
        order_done = a9;
        system = a13;
        ix_sysvar = a14;
      };
      give_mint = a2;
      want_mint = a3;
      maker_give = a4;
      taker_give = a5;
      taker_want = a6;
      maker_want = a7;
      token_prog = a10;
      config = a11;
      fee_ata = a12;
      more = more;
    })
order_accounts _ = err not_enough_account_keys

-- `accounts.get(15).unwrap_or(token_prog)`
abbrev pub give_program : OrderAccounts → AccountInfo
give_program a = elim a.more [ [] ↦ a.token_prog | p ∷ _ ↦ p ]

-- The metadata account of an order with a royalty, `&accounts[16]`, and `&accounts[17..]`.
unfoldable pub royalty_accounts :
    ℕ → List AccountInfo → Result (Option AccountInfo × List AccountInfo)
royalty_accounts mode (_ ∷ md ∷ atas) =
    ok ((elim (mode == royalty_none) [ true ↦ none | false ↦ some md ]), atas)
royalty_accounts mode _ = elim (mode == royalty_none) [
  | true ↦ ok (none, [])
  | false ↦ err not_enough_account_keys
]

unfoldable pub settle_signed_order : Runtime → Pubkey → List AccountInfo → Bytes → Action (Unit {0})
settle_signed_order rt program_id accounts d = do
  fail_if (not (length d == 90)) invalid_instruction_data
  fail_if (ltb royalty_split (get_or d 88 0) || ltb 100 (get_or d 89 0)) invalid_instruction_data
  a ← lift (order_accounts accounts)
  let t = payload_terms d a.give_mint.key a.want_mint.key
  fail_if (not a.auth.taker.is_signer) missing_required_signature
  fail_if (t.give_amount == 0 || t.want_amount == 0) invalid_instruction_data
  auth_bump ← authorize rt program_id order_domain t a.auth
  reads (require_token_account a.maker_give a.give_mint.key a.auth.maker.key)
  reads (require_token_account a.maker_want a.want_mint.key a.auth.maker.key)
  give_dec ← reads (mint_decimals a.give_mint)
  want_dec ← reads (mint_decimals a.want_mint)
  reads (assert_token_program rt a.token_prog a.want_mint)
  reads (assert_token_program rt (give_program a) a.give_mint)
  royalty ← lift (royalty_accounts t.royalty_mode a.more)
  pay_want_and_royalty rt program_id
      (record {
        config = a.config;
        token_prog = a.token_prog;
        payer = a.taker_want;
        mint = a.want_mint;
        fee_ata = a.fee_ata;
        payee = a.maker_want;
        authority = a.auth.taker;
        signer_seeds = none;
        decimals = want_dec;
        shard_seed = get_or t.nonce 0 0;
      })
      t.want_amount u64_max t.royalty_mode t.maker_pct a.give_mint royalty.0 royalty.1
  token_transfer rt (give_program a) a.maker_give a.give_mint a.taker_give a.auth.order_auth
      t.give_amount give_dec (some (order_seed ∷ a.auth.maker.key ∷ (auth_bump ∷ []) ∷ []))

pub record BidAccounts : Type 0 where
  pub auth : Auth
  pub coins_mint : AccountInfo
  pub nft_mint : AccountInfo
  pub maker_coins : AccountInfo
  pub owner_coins : AccountInfo
  pub coins_token_prog : AccountInfo
  pub config : AccountInfo
  pub fee_ata : AccountInfo
  pub owner_nft : AccountInfo
  pub maker_nft : AccountInfo
  pub nft_token_prog : AccountInfo

unfoldable pub bid_accounts : List AccountInfo → Result BidAccounts
bid_accounts
      (a0 ∷ a1 ∷ a2 ∷ a3 ∷ a4 ∷ a5 ∷ a6 ∷ a7 ∷ a8 ∷ a9 ∷ a10 ∷ a11 ∷ a12 ∷ a13 ∷ a14 ∷ a15 ∷ []) =
    ok (record {
      auth = record {
        taker = a0;
        maker = a1;
        order_auth = a9;
        order_done = a10;
        system = a11;
        ix_sysvar = a12;
      };
      coins_mint = a2;
      nft_mint = a3;
      maker_coins = a4;
      owner_coins = a5;
      coins_token_prog = a6;
      config = a7;
      fee_ata = a8;
      owner_nft = a13;
      maker_nft = a14;
      nft_token_prog = a15;
    })
bid_accounts _ = err not_enough_account_keys

unfoldable pub verify_bid_common : Runtime → Pubkey → Auth → Terms → Action ℕ
unfolding authorize
verify_bid_common rt program_id a t = do
  fail_if (not a.taker.is_signer) missing_required_signature
  fail_if (t.give_amount == 0 || not (t.want_amount == 1)) invalid_instruction_data
  fail_if (not (t.royalty_mode == royalty_none) || not (t.maker_pct == 0)) invalid_instruction_data
  authorize rt program_id bid_domain t a

unfoldable pub settle_signed_bid_spl :
    Runtime → Pubkey → List AccountInfo → Bytes → Action (Unit {0})
settle_signed_bid_spl rt program_id accounts d = do
  fail_if (not (length d == 90)) invalid_instruction_data
  a ← lift (bid_accounts accounts)
  let t = payload_terms d a.coins_mint.key a.nft_mint.key
  auth_bump ← verify_bid_common rt program_id a.auth t
  reads (require_token_account a.maker_coins a.coins_mint.key a.auth.maker.key)
  reads (require_token_account a.owner_coins a.coins_mint.key a.auth.taker.key)
  reads (require_token_account a.owner_nft a.nft_mint.key a.auth.taker.key)
  reads (require_token_account a.maker_nft a.nft_mint.key a.auth.maker.key)
  coins_dec ← reads (mint_decimals a.coins_mint)
  reads (assert_token_program rt a.coins_token_prog a.coins_mint)
  reads (assert_token_program rt a.nft_token_prog a.nft_mint)
  pay_coins_via_delegate rt program_id a.config a.coins_token_prog a.maker_coins a.coins_mint
      a.fee_ata a.owner_coins a.auth.order_auth
      (order_seed ∷ a.auth.maker.key ∷ (auth_bump ∷ []) ∷ []) t.give_amount coins_dec
      (get_or t.nonce 0 0)
  token_transfer rt a.nft_token_prog a.owner_nft a.nft_mint a.maker_nft a.auth.taker 1 0 none
