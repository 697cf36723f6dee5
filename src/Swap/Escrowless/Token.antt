-- ===== src/Swap/Escrowless/Token.antt =====
-- Listings of a token, tags 26 to 28 (swap/src/escrowless.rs).
use xete_programs.Base.{
  not, ◌||◌, ◌==◌, List, [], ◌∷◌, none, some, Bytes, length, slice, get_or, differs,
}
use xete_programs.Base.Int.{leb_ℤ}
use xete_programs.Base.Words.{from_le}
use xete_programs.Chain.Result.{
  Result, ok, err, invalid_argument, illegal_owner, not_enough_account_keys,
  invalid_instruction_data, missing_required_signature,
}
use xete_programs.Chain.Types.{Pubkey, AccountInfo, Runtime}
use xete_programs.Chain.Action.{Action, lift, reads, fail_if, fail_when, ◌>>=◌, ◌>>◌}
use xete_programs.Chain.Writes.{write_fields}
use xete_programs.Swap.Checks.{mint_decimals, assert_token_program, require_token_account}
use xete_programs.Swap.Cpi.{token_approve, token_revoke, token_transfer, close}
use xete_programs.Swap.Events.{kind_listing, emit_post_created}
use xete_programs.Swap.Config.Policy.{require_alias}
use xete_programs.Swap.Settle.Load.{load_fill_state}
use xete_programs.Swap.Settle.{pay_want_and_royalty}
use xete_programs.Swap.Spl.Checks.{load_cancel_state}
use xete_programs.Swap.Spl.{give_program}
use xete_programs.Swap.Slot.{
  posting, posting_event, listing_seed, listing_fields, check_address, derive_address,
  pay_delist_fee,
}
use xete_programs.Swap.Escrowless.{check_royalty_terms, create_listing, listing_seeds}
use xete_programs.Swap.Escrowless.Checks.{listing_royalty_accounts}

pub record ListAccounts : Type 0 where
  pub maker : AccountInfo
  pub listing : AccountInfo
  pub give_mint : AccountInfo
  pub want_mint : AccountInfo
  pub maker_give : AccountInfo
  pub token_prog : AccountInfo
  pub system : AccountInfo
  pub config : AccountInfo
  pub alias : AccountInfo

unfoldable pub list_accounts : List AccountInfo → Result ListAccounts
list_accounts (a0 ∷ a1 ∷ a2 ∷ a3 ∷ a4 ∷ a5 ∷ a6 ∷ a7 ∷ a8 ∷ []) = ok (record {
  maker = a0;
  listing = a1;
  give_mint = a2;
  want_mint = a3;
  maker_give = a4;
  token_prog = a5;
  system = a6;
  config = a7;
  alias = a8;
})
list_accounts _ = err not_enough_account_keys

unfoldable pub list : Runtime → Pubkey → List AccountInfo → Bytes → Action (Unit {0})
list rt program_id accounts d = do
  fail_if (not (length d == 122)) invalid_instruction_data
  let p = posting d
  check_royalty_terms d
  a ← lift (list_accounts accounts)
  fail_if (not a.maker.is_signer) missing_required_signature
  fail_if (p.give_amount == 0 || p.want_amount == 0) invalid_instruction_data
  now ← lift rt.unix_timestamp
  fail_if (leb_ℤ p.expiry now) invalid_argument
  reads (assert_token_program rt a.token_prog a.give_mint)
  reads (require_token_account a.maker_give a.give_mint.key a.maker.key)
  reads (require_alias rt program_id a.config a.maker.key a.alias)
  pda ← lift (derive_address rt program_id listing_seed a.listing a.maker.key p.nonce)
  create_listing rt program_id a.maker a.listing a.system p.nonce pda.1
  emit_post_created
      (posting_event p kind_listing a.maker.key a.listing.key a.give_mint.key a.want_mint.key)
  token_approve rt a.token_prog a.maker_give a.listing a.maker p.give_amount
  write_fields a.listing.key (
      listing_fields p a.maker.key a.give_mint.key a.want_mint.key p.give_amount (get_or d 120 0)
        (get_or d 121 0) pda.1)

pub record FillListingAccounts : Type 0 where
  pub taker : AccountInfo
  pub listing : AccountInfo
  pub maker : AccountInfo
  pub give_mint : AccountInfo
  pub want_mint : AccountInfo
  pub maker_give : AccountInfo
  pub taker_give : AccountInfo
  pub taker_want : AccountInfo
  pub maker_want : AccountInfo
  pub token_prog : AccountInfo
  pub config : AccountInfo
  pub fee_ata : AccountInfo
  pub give_token_prog : AccountInfo
  pub more : List AccountInfo

-- Twelve accounts or more; `more` is `accounts[12..]`.
unfoldable pub fill_listing_accounts : List AccountInfo → Result FillListingAccounts
fill_listing_accounts (a0 ∷ a1 ∷ a2 ∷ a3 ∷ a4 ∷ a5 ∷ a6 ∷ a7 ∷ a8 ∷ a9 ∷ a10 ∷ a11 ∷ more) =
    ok (record {
      taker = a0;
      listing = a1;
      maker = a2;
      give_mint = a3;
      want_mint = a4;
      maker_give = a5;
      taker_give = a6;
      taker_want = a7;
      maker_want = a8;
      token_prog = a9;
      config = a10;
      fee_ata = a11;
      give_token_prog = give_program a9 more;
      more = more;
    })
fill_listing_accounts _ = err not_enough_account_keys

unfoldable pub fill_listing : Runtime → Pubkey → List AccountInfo → Bytes → Action (Unit {0})
fill_listing rt program_id accounts d = do
  fail_if (not (length d == 48)) invalid_instruction_data
  let nonce = slice d 0 32
  let expect_give = from_le (slice d 32 40)
  let max_want = from_le (slice d 40 48)
  a ← lift (fill_listing_accounts accounts)
  fail_if (not a.taker.is_signer) missing_required_signature
  fail_when (λ l. differs (l a.listing.key).owner program_id) illegal_owner
  st ← reads (load_fill_state rt a.listing a.give_mint.key a.want_mint.key a.taker.key)
  fail_if (not (st.give_amount == expect_give)) invalid_argument
  fail_if (differs a.maker.key st.maker) invalid_argument
  pda ← lift (check_address rt program_id listing_seed a.listing st.maker nonce st.bump)
  reads (require_token_account a.maker_give a.give_mint.key st.maker)
  reads (require_token_account a.maker_want a.want_mint.key st.maker)
  give_dec ← reads (mint_decimals a.give_mint)
  want_dec ← reads (mint_decimals a.want_mint)
  reads (assert_token_program rt a.token_prog a.want_mint)
  reads (assert_token_program rt a.give_token_prog a.give_mint)
  royalty ← lift (listing_royalty_accounts st.royalty_mode a.more)
  pay_want_and_royalty rt program_id
      (record {
        config = a.config;
        token_prog = a.token_prog;
        payer = a.taker_want;
        mint = a.want_mint;
        fee_ata = a.fee_ata;
        payee = a.maker_want;
        authority = a.taker;
        signer_seeds = none;
        decimals = want_dec;
        shard_seed = get_or nonce 0 0;
      })
      st.want_amount max_want st.royalty_mode st.maker_pct a.give_mint royalty.0 royalty.1
  token_transfer rt a.give_token_prog a.maker_give a.give_mint a.taker_give a.listing st.give_amount
      give_dec (some (listing_seeds st.maker nonce st.bump))
  close a.listing a.maker

pub record CancelListingAccounts : Type 0 where
  pub maker : AccountInfo
  pub listing : AccountInfo
  pub give_mint : AccountInfo
  pub maker_give : AccountInfo
  pub token_prog : AccountInfo
  pub config : AccountInfo
  pub fee_wallet : AccountInfo
  pub system : AccountInfo

unfoldable pub cancel_listing_accounts : List AccountInfo → Result CancelListingAccounts
cancel_listing_accounts (a0 ∷ a1 ∷ a2 ∷ a3 ∷ a4 ∷ a5 ∷ a6 ∷ a7 ∷ []) = ok (record {
  maker = a0;
  listing = a1;
  give_mint = a2;
  maker_give = a3;
  token_prog = a4;
  config = a5;
  fee_wallet = a6;
  system = a7;
})
cancel_listing_accounts _ = err not_enough_account_keys

unfoldable pub cancel_listing : Runtime → Pubkey → List AccountInfo → Bytes → Action (Unit {0})
cancel_listing rt program_id accounts d = do
  fail_if (not (length d == 32)) invalid_instruction_data
  let nonce = slice d 0 32
  a ← lift (cancel_listing_accounts accounts)
  fail_if (not a.maker.is_signer) missing_required_signature
  fail_when (λ l. differs (l a.listing.key).owner program_id) illegal_owner
  st ← reads (load_cancel_state a.listing a.maker a.give_mint)
  reads (require_token_account a.maker_give a.give_mint.key a.maker.key)
  pda ← lift (derive_address rt program_id listing_seed a.listing a.maker.key nonce)
  pay_delist_fee rt program_id a.config a.maker a.fee_wallet a.system
  token_revoke rt a.token_prog a.maker_give a.maker
  close a.listing a.maker
