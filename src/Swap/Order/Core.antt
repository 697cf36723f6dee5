-- ===== src/Swap/Order/Core.antt =====
-- Signed orders and bids for a Core asset, tags 40 and 43 (swap/src/order.rs). An asset of a
-- collection appends the collection's account.
use xete_programs.Base.{
  true, not, ◌||◌, ◌==◌, List, [], ◌∷◌, Option, none, some, Bytes, length, get_or, differs,
}
use xete_programs.Chain.Result.{
  Result, ok, err, incorrect_program_id, not_enough_account_keys, invalid_instruction_data,
  missing_required_signature,
}
use xete_programs.Chain.Types.{Pubkey, AccountInfo, Runtime}
use xete_programs.Chain.Action.{Action, lift, reads, fail_if, ◌>>=◌, ◌>>◌}
use xete_programs.Swap.Ids.{mpl_core_id}
use xete_programs.Swap.Layout.{royalty_none}
use xete_programs.Swap.Checks.{mint_decimals, assert_token_program, require_token_account}
use xete_programs.Swap.Cpi.{mpl_core_transfer}
use xete_programs.Swap.Settle.{pay_want_leg, pay_coins_via_delegate}
use xete_programs.Swap.Slot.{resolve_collection}
use xete_programs.Swap.Order.Ed25519.{order_domain}
use xete_programs.Swap.Order.Gate.{Auth, order_seed, payload_terms, check_timely}
use xete_programs.Swap.Order.{mark_order, verify_bid_common}

pub record CoreOrderAccounts : Type 0 where
  pub auth : Auth
  pub asset : AccountInfo
  pub want_mint : AccountInfo
  pub taker_want : AccountInfo
  pub maker_want : AccountInfo
  pub want_token_prog : AccountInfo
  pub config : AccountInfo
  pub fee_ata : AccountInfo
  pub mpl_core : AccountInfo
  pub appended : Option AccountInfo

-- Fourteen accounts, or fifteen with the collection.
unfoldable pub core_order_accounts : List AccountInfo → Result CoreOrderAccounts
core_order_accounts
      (a0 ∷ a1 ∷ a2 ∷ a3 ∷ a4 ∷ a5 ∷ a6 ∷ a7 ∷ a8 ∷ a9 ∷ a10 ∷ a11 ∷ a12 ∷ a13 ∷ more) =
    let a : Option AccountInfo → CoreOrderAccounts = λ appended. record {
      auth = record {
        taker = a0;
        maker = a1;
        order_auth = a9;
        order_done = a10;
        system = a11;
        ix_sysvar = a12;
      };
      asset = a2;
      want_mint = a3;
      taker_want = a4;
      maker_want = a5;
      want_token_prog = a6;
      config = a7;
      fee_ata = a8;
      mpl_core = a13;
      appended = appended;
    } in
    elim more [
      | [] ↦ ok (a none)
      | c ∷ rest ↦ elim rest [ [] ↦ ok (a (some c)) | x ∷ y ↦ err not_enough_account_keys ]
    ]
core_order_accounts _ = err not_enough_account_keys

unfoldable pub settle_signed_order_core :
    Runtime → Pubkey → List AccountInfo → Bytes → Action (Unit {0})
settle_signed_order_core rt program_id accounts d = do
  fail_if (not (length d == 90)) invalid_instruction_data
  fail_if (not (get_or d 88 0 == royalty_none)) invalid_instruction_data
  a ← lift (core_order_accounts accounts)
  collection ← reads (resolve_collection a.mpl_core a.appended)
  let t = payload_terms d a.asset.key a.want_mint.key
  fail_if (not a.auth.taker.is_signer) missing_required_signature
  fail_if (not (t.give_amount == 1) || t.want_amount == 0) invalid_instruction_data
  lift (check_timely rt t a.auth)
  fail_if (differs a.mpl_core.key mpl_core_id) incorrect_program_id
  auth_bump ← mark_order rt program_id order_domain t a.auth
  reads (require_token_account a.maker_want a.want_mint.key a.auth.maker.key)
  want_dec ← reads (mint_decimals a.want_mint)
  reads (assert_token_program rt a.want_token_prog a.want_mint)
  pay_want_leg rt program_id a.config a.want_token_prog a.taker_want a.want_mint a.fee_ata
      a.maker_want a.auth.taker t.want_amount want_dec (get_or t.nonce 0 0)
  mpl_core_transfer rt a.mpl_core a.asset collection a.auth.taker a.auth.order_auth a.auth.taker
      true (some (order_seed ∷ a.auth.maker.key ∷ (auth_bump ∷ []) ∷ []))

pub record CoreBidAccounts : Type 0 where
  pub auth : Auth
  pub coins_mint : AccountInfo
  pub asset : AccountInfo
  pub maker_coins : AccountInfo
  pub owner_coins : AccountInfo
  pub coins_token_prog : AccountInfo
  pub config : AccountInfo
  pub fee_ata : AccountInfo
  pub mpl_core : AccountInfo
  pub appended : Option AccountInfo

-- Fourteen accounts, or fifteen with the collection.
unfoldable pub core_bid_accounts : List AccountInfo → Result CoreBidAccounts
core_bid_accounts (a0 ∷ a1 ∷ a2 ∷ a3 ∷ a4 ∷ a5 ∷ a6 ∷ a7 ∷ a8 ∷ a9 ∷ a10 ∷ a11 ∷ a12 ∷ a13 ∷ more) =
    let a : Option AccountInfo → CoreBidAccounts = λ appended. record {
      auth = record {
        taker = a0;
        maker = a1;
        order_auth = a9;
        order_done = a10;
        system = a11;
        ix_sysvar = a12;
      };
      coins_mint = a2;
      asset = a3;
      maker_coins = a4;
      owner_coins = a5;
      coins_token_prog = a6;
      config = a7;
      fee_ata = a8;
      mpl_core = a13;
      appended = appended;
    } in
    elim more [
      | [] ↦ ok (a none)
      | c ∷ rest ↦ elim rest [ [] ↦ ok (a (some c)) | x ∷ y ↦ err not_enough_account_keys ]
    ]
core_bid_accounts _ = err not_enough_account_keys

unfoldable pub settle_signed_bid_core :
    Runtime → Pubkey → List AccountInfo → Bytes → Action (Unit {0})
settle_signed_bid_core rt program_id accounts d = do
  fail_if (not (length d == 90)) invalid_instruction_data
  a ← lift (core_bid_accounts accounts)
  collection ← reads (resolve_collection a.mpl_core a.appended)
  let t = payload_terms d a.coins_mint.key a.asset.key
  fail_if (differs a.mpl_core.key mpl_core_id) incorrect_program_id
  auth_bump ← verify_bid_common rt program_id a.auth t
  reads (require_token_account a.maker_coins a.coins_mint.key a.auth.maker.key)
  reads (require_token_account a.owner_coins a.coins_mint.key a.auth.taker.key)
  coins_dec ← reads (mint_decimals a.coins_mint)
  reads (assert_token_program rt a.coins_token_prog a.coins_mint)
  pay_coins_via_delegate rt program_id a.config a.coins_token_prog a.maker_coins a.coins_mint
      a.fee_ata a.owner_coins a.auth.order_auth
      (order_seed ∷ a.auth.maker.key ∷ (auth_bump ∷ []) ∷ []) t.give_amount coins_dec
      (get_or t.nonce 0 0)
  mpl_core_transfer rt a.mpl_core a.asset collection a.auth.taker a.auth.taker a.auth.maker true
      none
