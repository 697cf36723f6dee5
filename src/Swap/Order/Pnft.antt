-- ===== src/Swap/Order/Pnft.antt =====
-- Signed orders and bids for a programmable NFT, tags 39 and 42 (swap/src/order.rs).
use xete_programs.Base.{
  not, ◌||◌, ◌==◌, ltb, List, [], ◌∷◌, none, some, Bytes, length, get_or, differs,
}
use xete_programs.Chain.Result.{
  Result, ok, err, incorrect_program_id, not_enough_account_keys, invalid_instruction_data,
  missing_required_signature,
}
use xete_programs.Chain.Types.{Pubkey, AccountInfo, Runtime}
use xete_programs.Chain.Action.{Action, lift, reads, fail_if, ◌>>=◌, ◌>>◌}
use xete_programs.Swap.Ids.{token_metadata_id}
use xete_programs.Swap.Layout.{royalty_split}
use xete_programs.Swap.Checks.{mint_decimals, assert_token_program, require_token_account}
use xete_programs.Swap.Settle.{pay_want_and_royalty, pay_coins_via_delegate}
use xete_programs.Swap.Pnft.Asset.{PnftAsset, move_pnft, check_pnft_programs, check_atas}
use xete_programs.Swap.Order.Ed25519.{order_domain}
use xete_programs.Swap.Order.Gate.{Auth, order_seed, payload_terms, check_timely}
use xete_programs.Swap.Order.{mark_order, verify_bid_common, u64_max}

pub record PnftOrderAccounts : Type 0 where
  pub auth : Auth
  pub asset : PnftAsset
  pub want_mint : AccountInfo
  pub taker_want : AccountInfo
  pub maker_want : AccountInfo
  pub want_token_prog : AccountInfo
  pub config : AccountInfo
  pub fee_ata : AccountInfo
  pub maker_ata : AccountInfo
  pub taker_ata : AccountInfo
  pub creator_atas : List AccountInfo

-- Twenty-four accounts, and the creators' behind them.
unfoldable pub pnft_order_accounts : List AccountInfo → Result PnftOrderAccounts
pnft_order_accounts
      (a0 ∷ a1 ∷ a2 ∷ a3 ∷ a4 ∷ a5 ∷ a6 ∷ a7 ∷ a8 ∷ a9 ∷ a10 ∷ a11 ∷ a12 ∷ a13 ∷ a14 ∷ a15 ∷ a16
        ∷ a17 ∷ a18 ∷ a19 ∷ a20 ∷ a21 ∷ a22 ∷ a23 ∷ more) =
    ok (record {
      auth = record {
        taker = a0;
        maker = a1;
        order_auth = a9;
        order_done = a10;
        system = a21;
        ix_sysvar = a20;
      };
      asset = record {
        mint = a2;
        metadata = a13;
        edition = a14;
        owner_record = a15;
        dest_record = a16;
        token_metadata = a17;
        spl_tok = a18;
        ata_prog = a19;
        sysvar_ix = a20;
        system = a21;
        rules_prog = a22;
        rules = a23;
      };
      want_mint = a3;
      taker_want = a4;
      maker_want = a5;
      want_token_prog = a6;
      config = a7;
      fee_ata = a8;
      maker_ata = a11;
      taker_ata = a12;
      creator_atas = more;
    })
pnft_order_accounts _ = err not_enough_account_keys

unfoldable pub settle_signed_order_pnft :
    Runtime → Pubkey → List AccountInfo → Bytes → Action (Unit {0})
settle_signed_order_pnft rt program_id accounts d = do
  fail_if (not (length d == 90)) invalid_instruction_data
  fail_if (ltb royalty_split (get_or d 88 0) || ltb 100 (get_or d 89 0)) invalid_instruction_data
  a ← lift (pnft_order_accounts accounts)
  let t = payload_terms d a.asset.mint.key a.want_mint.key
  fail_if (not a.auth.taker.is_signer) missing_required_signature
  fail_if (not (t.give_amount == 1) || t.want_amount == 0) invalid_instruction_data
  lift (check_timely rt t a.auth)
  lift (check_pnft_programs a.asset.token_metadata a.asset.sysvar_ix)
  auth_bump ← mark_order rt program_id order_domain t a.auth
  lift (check_atas rt a.asset.mint a.maker_ata a.auth.maker.key a.taker_ata a.auth.taker.key)
  reads (require_token_account a.maker_want a.want_mint.key a.auth.maker.key)
  want_dec ← reads (mint_decimals a.want_mint)
  reads (assert_token_program rt a.want_token_prog a.want_mint)
  pay_want_and_royalty rt program_id
      (record {
        config = a.config;
        token_prog = a.want_token_prog;
        payer = a.taker_want;
        mint = a.want_mint;
        fee_ata = a.fee_ata;
        payee = a.maker_want;
        authority = a.auth.taker;
        signer_seeds = none;
        decimals = want_dec;
        shard_seed = get_or t.nonce 0 0;
      })
      t.want_amount u64_max t.royalty_mode t.maker_pct a.asset.mint (some a.asset.metadata)
      a.creator_atas
  move_pnft rt a.asset a.maker_ata a.auth.maker a.taker_ata a.auth.taker a.auth.order_auth
      a.auth.taker (some (order_seed ∷ a.auth.maker.key ∷ (auth_bump ∷ []) ∷ []))

pub record PnftBidAccounts : Type 0 where
  pub auth : Auth
  pub asset : PnftAsset
  pub coins_mint : AccountInfo
  pub maker_coins : AccountInfo
  pub owner_coins : AccountInfo
  pub coins_token_prog : AccountInfo
  pub config : AccountInfo
  pub fee_ata : AccountInfo
  pub owner_nft : AccountInfo
  pub maker_nft : AccountInfo

unfoldable pub pnft_bid_accounts : List AccountInfo → Result PnftBidAccounts
pnft_bid_accounts
      (a0 ∷ a1 ∷ a2 ∷ a3 ∷ a4 ∷ a5 ∷ a6 ∷ a7 ∷ a8 ∷ a9 ∷ a10 ∷ a11 ∷ a12 ∷ a13 ∷ a14 ∷ a15 ∷ a16
        ∷ a17 ∷ a18 ∷ a19 ∷ a20 ∷ a21 ∷ a22 ∷ a23 ∷ []) =
    ok (record {
      auth = record {
        taker = a0;
        maker = a1;
        order_auth = a9;
        order_done = a10;
        system = a11;
        ix_sysvar = a12;
      };
      asset = record {
        mint = a3;
        metadata = a15;
        edition = a16;
        owner_record = a17;
        dest_record = a18;
        token_metadata = a19;
        spl_tok = a20;
        ata_prog = a21;
        sysvar_ix = a12;
        system = a11;
        rules_prog = a22;
        rules = a23;
      };
      coins_mint = a2;
      maker_coins = a4;
      owner_coins = a5;
      coins_token_prog = a6;
      config = a7;
      fee_ata = a8;
      owner_nft = a13;
      maker_nft = a14;
    })
pnft_bid_accounts _ = err not_enough_account_keys

unfoldable pub settle_signed_bid_pnft :
    Runtime → Pubkey → List AccountInfo → Bytes → Action (Unit {0})
settle_signed_bid_pnft rt program_id accounts d = do
  fail_if (not (length d == 90)) invalid_instruction_data
  a ← lift (pnft_bid_accounts accounts)
  let t = payload_terms d a.coins_mint.key a.asset.mint.key
  fail_if (differs a.asset.token_metadata.key token_metadata_id) incorrect_program_id
  auth_bump ← verify_bid_common rt program_id a.auth t
  reads (require_token_account a.maker_coins a.coins_mint.key a.auth.maker.key)
  reads (require_token_account a.owner_coins a.coins_mint.key a.auth.taker.key)
  coins_dec ← reads (mint_decimals a.coins_mint)
  reads (assert_token_program rt a.coins_token_prog a.coins_mint)
  pay_coins_via_delegate rt program_id a.config a.coins_token_prog a.maker_coins a.coins_mint
      a.fee_ata a.owner_coins a.auth.order_auth
      (order_seed ∷ a.auth.maker.key ∷ (auth_bump ∷ []) ∷ []) t.give_amount coins_dec
      (get_or t.nonce 0 0)
  move_pnft rt a.asset a.owner_nft a.auth.taker a.maker_nft a.auth.maker a.auth.taker a.auth.taker
      none
