-- ===== src/Swap/Escrowless/Core.antt =====
-- Listings of a Core asset, tags 34 to 37 (swap/src/escrowless.rs). An asset of a collection appends
-- the collection's account.
use xete_programs.Base.{
  true, not, ◌||◌, ◌==◌, ltb, List, [], ◌∷◌, Option, none, some, Bytes, length, slice, get_or,
  differs,
}
use xete_programs.Base.Int.{leb_ℤ}
use xete_programs.Base.Words.{from_le}
use xete_programs.Chain.Result.{
  Result, ok, err, invalid_argument, illegal_owner, incorrect_program_id, not_enough_account_keys,
  invalid_instruction_data, missing_required_signature,
}
use xete_programs.Chain.Types.{Pubkey, AccountInfo, Runtime}
use xete_programs.Chain.Action.{Action, lift, reads, fail_if, fail_when, ◌>>=◌, ◌>>◌}
use xete_programs.Chain.Writes.{write_fields}
use xete_programs.Swap.Ids.{mpl_core_id}
use xete_programs.Swap.Checks.{mint_decimals, assert_token_program, require_token_account}
use xete_programs.Swap.Cpi.{mpl_core_plugin, mpl_core_transfer, close}
use xete_programs.Swap.Events.{kind_listing_core, emit_post_created}
use xete_programs.Swap.Config.Policy.{require_alias}
use xete_programs.Swap.Settle.Load.{load_fill_state}
use xete_programs.Swap.Settle.{pay_want_leg}
use xete_programs.Swap.Spl.Checks.{load_cancel_state, load_expired_state}
use xete_programs.Swap.Slot.{
  posting, posting_event, listing_seed, asset_fields, check_address, derive_address, pay_delist_fee,
  resolve_collection,
}
use xete_programs.Swap.Escrowless.{create_listing, listing_seeds}

pub record ListCoreAccounts : Type 0 where
  pub maker : AccountInfo
  pub listing : AccountInfo
  pub asset : AccountInfo
  pub want_mint : AccountInfo
  pub mpl_core : AccountInfo
  pub system : AccountInfo
  pub config : AccountInfo
  pub alias : AccountInfo
  pub appended : Option AccountInfo

unfoldable pub list_core_accounts : List AccountInfo → Result ListCoreAccounts
list_core_accounts (a0 ∷ a1 ∷ a2 ∷ a3 ∷ a4 ∷ a5 ∷ a6 ∷ a7 ∷ []) = ok (record {
  maker = a0;
  listing = a1;
  asset = a2;
  want_mint = a3;
  mpl_core = a4;
  system = a5;
  config = a6;
  alias = a7;
  appended = none;
})
list_core_accounts (a0 ∷ a1 ∷ a2 ∷ a3 ∷ a4 ∷ a5 ∷ a6 ∷ a7 ∷ a8 ∷ []) = ok (record {
  maker = a0;
  listing = a1;
  asset = a2;
  want_mint = a3;
  mpl_core = a4;
  system = a5;
  config = a6;
  alias = a7;
  appended = some a8;
})
list_core_accounts _ = err not_enough_account_keys

unfoldable pub list_core : Runtime → Pubkey → List AccountInfo → Bytes → Action (Unit {0})
list_core rt program_id accounts d = do
  fail_if (not (length d == 120)) invalid_instruction_data
  let p = posting d
  a ← lift (list_core_accounts accounts)
  collection ← reads (resolve_collection a.mpl_core a.appended)
  fail_if (not a.maker.is_signer) missing_required_signature
  fail_if (not (p.give_amount == 1) || p.want_amount == 0) invalid_instruction_data
  now ← lift rt.unix_timestamp
  fail_if (leb_ℤ p.expiry now) invalid_argument
  fail_if (differs a.mpl_core.key mpl_core_id) incorrect_program_id
  reads (require_alias rt program_id a.config a.maker.key a.alias)
  pda ← lift (derive_address rt program_id listing_seed a.listing a.maker.key p.nonce)
  create_listing rt program_id a.maker a.listing a.system p.nonce pda.1
  emit_post_created
      (posting_event p kind_listing_core a.maker.key a.listing.key a.asset.key a.want_mint.key)
  mpl_core_plugin rt a.mpl_core a.asset collection a.maker a.system (0x02 ∷ 0x03 ∷ 0x00 ∷ []) none
  mpl_core_plugin rt a.mpl_core a.asset collection a.maker a.system
      (0x08 ∷ 0x03 ∷ 0x03 ∷ a.listing.key) none
  write_fields a.listing.key (asset_fields p a.maker.key a.asset.key a.want_mint.key pda.1)

pub record FillListingCoreAccounts : Type 0 where
  pub taker : AccountInfo
  pub listing : AccountInfo
  pub maker : AccountInfo
  pub asset : AccountInfo
  pub want_mint : AccountInfo
  pub taker_want : AccountInfo
  pub maker_want : AccountInfo
  pub want_token_prog : AccountInfo
  pub config : AccountInfo
  pub fee_ata : AccountInfo
  pub mpl_core : AccountInfo
  pub appended : Option AccountInfo

-- Eleven accounts, or twelve with the collection.
unfoldable pub fill_listing_core_accounts : List AccountInfo → Result FillListingCoreAccounts
fill_listing_core_accounts (a0 ∷ a1 ∷ a2 ∷ a3 ∷ a4 ∷ a5 ∷ a6 ∷ a7 ∷ a8 ∷ a9 ∷ a10 ∷ more) =
    let a : Option AccountInfo → FillListingCoreAccounts = λ appended. record {
      taker = a0;
      listing = a1;
      maker = a2;
      asset = a3;
      want_mint = a4;
      taker_want = a5;
      maker_want = a6;
      want_token_prog = a7;
      config = a8;
      fee_ata = a9;
      mpl_core = a10;
      appended = appended;
    } in
    elim more [
      | [] ↦ ok (a none)
      | c ∷ rest ↦ elim rest [ [] ↦ ok (a (some c)) | x ∷ y ↦ err not_enough_account_keys ]
    ]
fill_listing_core_accounts _ = err not_enough_account_keys

unfoldable pub fill_listing_core : Runtime → Pubkey → List AccountInfo → Bytes → Action (Unit {0})
fill_listing_core rt program_id accounts d = do
  fail_if (not (length d == 48)) invalid_instruction_data
  let nonce = slice d 0 32
  let expect_give = from_le (slice d 32 40)
  let max_want = from_le (slice d 40 48)
  a ← lift (fill_listing_core_accounts accounts)
  collection ← reads (resolve_collection a.mpl_core a.appended)
  fail_if (not a.taker.is_signer) missing_required_signature
  fail_when (λ l. differs (l a.listing.key).owner program_id) illegal_owner
  fail_if (differs a.mpl_core.key mpl_core_id) incorrect_program_id
  st ← reads (load_fill_state rt a.listing a.asset.key a.want_mint.key a.taker.key)
  fail_if (not (st.give_amount == expect_give) || ltb max_want st.want_amount) invalid_argument
  fail_if (differs a.maker.key st.maker) invalid_argument
  pda ← lift (check_address rt program_id listing_seed a.listing st.maker nonce st.bump)
  reads (require_token_account a.maker_want a.want_mint.key st.maker)
  want_dec ← reads (mint_decimals a.want_mint)
  reads (assert_token_program rt a.want_token_prog a.want_mint)
  pay_want_leg rt program_id a.config a.want_token_prog a.taker_want a.want_mint a.fee_ata
      a.maker_want a.taker st.want_amount want_dec (get_or nonce 0 0)
  mpl_core_transfer rt a.mpl_core a.asset collection a.taker a.listing a.taker true
      (some (listing_seeds st.maker nonce st.bump))
  close a.listing a.maker

pub record CancelListingCoreAccounts : Type 0 where
  pub maker : AccountInfo
  pub listing : AccountInfo
  pub asset : AccountInfo
  pub config : AccountInfo
  pub fee_wallet : AccountInfo
  pub system : AccountInfo
  pub mpl_core : AccountInfo
  pub appended : Option AccountInfo

unfoldable pub cancel_listing_core_accounts : List AccountInfo → Result CancelListingCoreAccounts
cancel_listing_core_accounts (a0 ∷ a1 ∷ a2 ∷ a3 ∷ a4 ∷ a5 ∷ a6 ∷ more) =
    let a : Option AccountInfo → CancelListingCoreAccounts = λ appended. record {
      maker = a0;
      listing = a1;
      asset = a2;
      config = a3;
      fee_wallet = a4;
      system = a5;
      mpl_core = a6;
      appended = appended;
    } in
    elim more [
      | [] ↦ ok (a none)
      | c ∷ rest ↦ elim rest [ [] ↦ ok (a (some c)) | x ∷ y ↦ err not_enough_account_keys ]
    ]
cancel_listing_core_accounts _ = err not_enough_account_keys

unfoldable pub cancel_listing_core : Runtime → Pubkey → List AccountInfo → Bytes → Action (Unit {0})
cancel_listing_core rt program_id accounts d = do
  fail_if (not (length d == 32)) invalid_instruction_data
  let nonce = slice d 0 32
  a ← lift (cancel_listing_core_accounts accounts)
  collection ← reads (resolve_collection a.mpl_core a.appended)
  fail_if (not a.maker.is_signer) missing_required_signature
  fail_when (λ l. differs (l a.listing.key).owner program_id) illegal_owner
  fail_if (differs a.mpl_core.key mpl_core_id) incorrect_program_id
  st ← reads (load_cancel_state a.listing a.maker a.asset)
  pda ← lift (derive_address rt program_id listing_seed a.listing a.maker.key nonce)
  pay_delist_fee rt program_id a.config a.maker a.fee_wallet a.system
  mpl_core_plugin rt a.mpl_core a.asset collection a.maker a.system (0x0a ∷ 0x03 ∷ []) none
  mpl_core_plugin rt a.mpl_core a.asset collection a.maker a.system (0x04 ∷ 0x03 ∷ []) none
  close a.listing a.maker

pub record ExpireListingCoreAccounts : Type 0 where
  pub caller : AccountInfo
  pub listing : AccountInfo
  pub maker : AccountInfo
  pub asset : AccountInfo

unfoldable pub expire_listing_core_accounts : List AccountInfo → Result ExpireListingCoreAccounts
expire_listing_core_accounts (a0 ∷ a1 ∷ a2 ∷ a3 ∷ []) =
    ok (record { caller = a0; listing = a1; maker = a2; asset = a3 })
expire_listing_core_accounts _ = err not_enough_account_keys

unfoldable pub expire_listing_core : Runtime → Pubkey → List AccountInfo → Bytes → Action (Unit {0})
expire_listing_core rt program_id accounts d = do
  fail_if (not (length d == 32)) invalid_instruction_data
  let nonce = slice d 0 32
  a ← lift (expire_listing_core_accounts accounts)
  fail_if (not a.caller.is_signer) missing_required_signature
  fail_when (λ l. differs (l a.listing.key).owner program_id) illegal_owner
  st ← reads (load_expired_state rt a.listing a.asset)
  fail_if (differs a.maker.key st.maker) invalid_argument
  pda ← lift (derive_address rt program_id listing_seed a.listing st.maker nonce)
  close a.listing a.maker
