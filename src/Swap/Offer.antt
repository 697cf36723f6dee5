-- ===== src/Swap/Offer.antt =====
-- Escrowed price bids against an open swap; tags 4 to 7 (swap/src/offer.rs).
pub mod Checks
use xete_programs.Base.{
  ℕ, not, ◌||◌, ◌==◌, List, [], ◌∷◌, none, some, Bytes, length, slice, get_or, differs,
}
use xete_programs.Base.Words.{from_le, u64_le, i64_from_le, i64_le}
use xete_programs.Chain.Result.{
  Result, ok, err, invalid_argument, illegal_owner, invalid_seeds, not_enough_account_keys,
  invalid_instruction_data, missing_required_signature,
}
use xete_programs.Chain.Types.{Pubkey, AccountInfo, Runtime}
use xete_programs.Chain.Action.{Action, lift, reads, fail_if, fail_when, ◌>>=◌, ◌>>◌}
use xete_programs.Chain.Writes.{write_fields}
use xete_programs.Swap.Layout.{
  o_offerer, o_swap, o_want_mint, o_want_amt, o_give_mint, o_give_amt, o_expiry, o_status, o_bump,
  o_nonce, offer_len, status_open, token_acct_len,
}
use xete_programs.Swap.Checks.{mint_decimals, require_token_account}
use xete_programs.Swap.Cpi.{create_pda, token_init, token_transfer, token_close, close}
use xete_programs.Swap.Config.Policy.{require_alias}
use xete_programs.Swap.Settle.{pay_leg}
use xete_programs.Swap.Spl.Checks.{swap_seed}
use Checks.{
  offer_seed, ovault_seed, load_goods, load_listing, load_bid, BidRefund, load_refund,
  check_offer_expired, verify_offer_pdas, verify_listing_pdas,
}

pub record OfferAccounts : Type 0 where
  pub offerer : AccountInfo
  pub offer : AccountInfo
  pub ovault : AccountInfo
  pub want_mint : AccountInfo
  pub swap : AccountInfo
  pub offerer_want : AccountInfo
  pub token_prog : AccountInfo
  pub system : AccountInfo
  pub config : AccountInfo
  pub alias : AccountInfo

unfoldable pub offer_accounts : List AccountInfo → Result OfferAccounts
offer_accounts (a0 ∷ a1 ∷ a2 ∷ a3 ∷ a4 ∷ a5 ∷ a6 ∷ a7 ∷ a8 ∷ a9 ∷ []) = ok (record {
  offerer = a0;
  offer = a1;
  ovault = a2;
  want_mint = a3;
  swap = a4;
  offerer_want = a5;
  token_prog = a6;
  system = a7;
  config = a8;
  alias = a9;
})
offer_accounts _ = err not_enough_account_keys

unfoldable pub make_offer : Runtime → Pubkey → List AccountInfo → Bytes → Action (Unit {0})
make_offer rt program_id accounts d = do
  fail_if (not (length d == 48)) invalid_instruction_data
  let ononce = slice d 0 32
  let want_amount = from_le (slice d 32 40)
  let expiry = i64_from_le (slice d 40 48)
  a ← lift (offer_accounts accounts)
  fail_if (not a.offerer.is_signer) missing_required_signature
  fail_when (λ l. differs (l a.swap.key).owner program_id) illegal_owner
  fail_if (want_amount == 0) invalid_instruction_data
  reads (require_alias rt program_id a.config a.offerer.key a.alias)
  goods ← reads (load_goods a.swap a.want_mint)
  let offer_pda = rt.find_program_address (offer_seed ∷ a.offerer.key ∷ ononce ∷ []) program_id
  fail_if (differs offer_pda.0 a.offer.key) invalid_seeds
  let ovault_pda = rt.find_program_address (ovault_seed ∷ a.offerer.key ∷ ononce ∷ []) program_id
  fail_if (differs ovault_pda.0 a.ovault.key) invalid_seeds
  create_pda rt a.offerer a.offer a.system offer_len program_id
      (offer_seed ∷ a.offerer.key ∷ ononce ∷ (offer_pda.1 ∷ []) ∷ [])
  create_pda rt a.offerer a.ovault a.system token_acct_len rt.spl_token_id
      (ovault_seed ∷ a.offerer.key ∷ ononce ∷ (ovault_pda.1 ∷ []) ∷ [])
  token_init rt a.token_prog a.ovault a.want_mint a.offer.key
  decimals ← reads (mint_decimals a.want_mint)
  token_transfer rt a.token_prog a.offerer_want a.want_mint a.ovault a.offerer want_amount decimals
      none
  write_fields a.offer.key (
      (o_offerer, a.offerer.key)
      ∷ (o_swap, a.swap.key)
      ∷ (o_want_mint, a.want_mint.key)
      ∷ (o_want_amt, u64_le want_amount)
      ∷ (o_give_mint, goods.give_mint)
      ∷ (o_give_amt, u64_le goods.give_amount)
      ∷ (o_expiry, i64_le expiry)
      ∷ (o_status, status_open ∷ [])
      ∷ (o_bump, offer_pda.1 ∷ [])
      ∷ (o_nonce, ononce)
      ∷ [])

pub record AcceptAccounts : Type 0 where
  pub maker : AccountInfo
  pub swap : AccountInfo
  pub swap_vault : AccountInfo
  pub offer : AccountInfo
  pub offer_vault : AccountInfo
  pub offerer : AccountInfo
  pub give_mint : AccountInfo
  pub want_mint : AccountInfo
  pub offerer_give : AccountInfo
  pub maker_want : AccountInfo
  pub token_prog : AccountInfo
  pub config : AccountInfo
  pub fee_ata : AccountInfo

unfoldable pub accept_accounts : List AccountInfo → Result AcceptAccounts
accept_accounts (a0 ∷ a1 ∷ a2 ∷ a3 ∷ a4 ∷ a5 ∷ a6 ∷ a7 ∷ a8 ∷ a9 ∷ a10 ∷ a11 ∷ a12 ∷ []) =
    ok (record {
      maker = a0;
      swap = a1;
      swap_vault = a2;
      offer = a3;
      offer_vault = a4;
      offerer = a5;
      give_mint = a6;
      want_mint = a7;
      offerer_give = a8;
      maker_want = a9;
      token_prog = a10;
      config = a11;
      fee_ata = a12;
    })
accept_accounts _ = err not_enough_account_keys

unfoldable pub accept_offer : Runtime → Pubkey → List AccountInfo → Bytes → Action (Unit {0})
accept_offer rt program_id accounts d = do
  fail_if (not (length d == 64)) invalid_instruction_data
  let snonce = slice d 0 32
  let ononce = slice d 32 64
  a ← lift (accept_accounts accounts)
  fail_if (not a.maker.is_signer) missing_required_signature
  fail_when
      (λ l. differs (l a.swap.key).owner program_id || differs (l a.offer.key).owner program_id)
      illegal_owner
  listing ← reads (load_listing rt a.swap a.maker a.give_mint a.want_mint)
  bid ← reads (load_bid rt a.offer a.swap a.offerer a.want_mint)
  fail_if (differs bid.give_mint a.give_mint.key || not (bid.give_amount == listing.give_amount))
      invalid_argument
  lift (verify_listing_pdas rt program_id a.swap a.swap_vault a.maker snonce)
  lift (verify_offer_pdas rt program_id a.offer a.offer_vault a.offerer ononce)
  reads (require_token_account a.maker_want a.want_mint.key a.maker.key)
  reads (require_token_account a.offerer_give a.give_mint.key a.offerer.key)
  give_dec ← reads (mint_decimals a.give_mint)
  want_dec ← reads (mint_decimals a.want_mint)
  let offer_seeds = offer_seed ∷ a.offerer.key ∷ ononce ∷ (bid.bump ∷ []) ∷ []
  let swap_seeds = swap_seed ∷ a.maker.key ∷ snonce ∷ (listing.bump ∷ []) ∷ []
  pay_leg rt program_id
      (record {
        config = a.config;
        token_prog = a.token_prog;
        payer = a.offer_vault;
        mint = a.want_mint;
        fee_ata = a.fee_ata;
        payee = a.maker_want;
        authority = a.offer;
        signer_seeds = some offer_seeds;
        decimals = want_dec;
        shard_seed = get_or snonce 0 0;
      })
      bid.want_amount
  token_transfer rt a.token_prog a.swap_vault a.give_mint a.offerer_give a.swap listing.give_amount
      give_dec (some swap_seeds)
  token_close rt a.token_prog a.offer_vault a.offerer a.offer offer_seeds
  token_close rt a.token_prog a.swap_vault a.maker a.swap swap_seeds
  close a.offer a.offerer
  close a.swap a.maker

-- The accounts of a refund of a bid.
pub record RefundBidAccounts : Type 0 where
  pub offerer : AccountInfo
  pub offer : AccountInfo
  pub ovault : AccountInfo
  pub want_mint : AccountInfo
  pub offerer_want : AccountInfo
  pub token_prog : AccountInfo

unfoldable pub withdraw_accounts : List AccountInfo → Result RefundBidAccounts
withdraw_accounts (a0 ∷ a1 ∷ a2 ∷ a3 ∷ a4 ∷ a5 ∷ []) = ok (record {
  offerer = a0;
  offer = a1;
  ovault = a2;
  want_mint = a3;
  offerer_want = a4;
  token_prog = a5;
})
withdraw_accounts _ = err not_enough_account_keys

unfoldable pub expire_offer_accounts : List AccountInfo → Result RefundBidAccounts
expire_offer_accounts (_ ∷ a1 ∷ a2 ∷ a3 ∷ a4 ∷ a5 ∷ a6 ∷ []) = ok (record {
  offerer = a3;
  offer = a1;
  ovault = a2;
  want_mint = a4;
  offerer_want = a5;
  token_prog = a6;
})
expire_offer_accounts _ = err not_enough_account_keys

-- The end that `withdraw_offer` and `expire_offer` share.
unfoldable pub refund_bid :
    Runtime → Pubkey → RefundBidAccounts → Bytes → BidRefund → Action (Unit {0})
refund_bid rt program_id a ononce st = do
  lift (verify_offer_pdas rt program_id a.offer a.ovault a.offerer ononce)
  reads (require_token_account a.offerer_want a.want_mint.key a.offerer.key)
  decimals ← reads (mint_decimals a.want_mint)
  let offer_seeds = offer_seed ∷ a.offerer.key ∷ ononce ∷ (st.bump ∷ []) ∷ []
  token_transfer rt a.token_prog a.ovault a.want_mint a.offerer_want a.offer st.want_amount decimals
      (some offer_seeds)
  token_close rt a.token_prog a.ovault a.offerer a.offer offer_seeds
  close a.offer a.offerer

unfoldable pub withdraw_offer : Runtime → Pubkey → List AccountInfo → Bytes → Action (Unit {0})
withdraw_offer rt program_id accounts d = do
  fail_if (not (length d == 32)) invalid_instruction_data
  a ← lift (withdraw_accounts accounts)
  fail_if (not a.offerer.is_signer) missing_required_signature
  fail_when (λ l. differs (l a.offer.key).owner program_id) illegal_owner
  st ← reads (load_refund illegal_owner a.offer a.offerer a.want_mint)
  refund_bid rt program_id a (slice d 0 32) st

unfoldable pub expire_offer : Runtime → Pubkey → List AccountInfo → Bytes → Action (Unit {0})
expire_offer rt program_id accounts d = do
  fail_if (not (length d == 32)) invalid_instruction_data
  a ← lift (expire_offer_accounts accounts)
  fail_when (λ l. differs (l a.offer.key).owner program_id) illegal_owner
  st ← reads (load_refund invalid_argument a.offer a.offerer a.want_mint)
  reads (check_offer_expired rt a.offer)
  refund_bid rt program_id a (slice d 0 32) st
