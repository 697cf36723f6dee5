-- ===== src/Swap/Escrowless/Pnft.antt =====
-- Listings of a programmable NFT, tags 30 to 32 (swap/src/escrowless.rs).
use xete_programs.Base.{
  true, false, not, ◌||◌, ◌==◌, List, [], ◌∷◌, none, some, Bytes, length, slice, get_or, differs,
}
use xete_programs.Base.Int.{leb_ℤ}
use xete_programs.Base.Words.{from_le}
use xete_programs.Chain.Result.{
  Result, ok, err, invalid_argument, illegal_owner, not_enough_account_keys,
  invalid_instruction_data, missing_required_signature,
}
use xete_programs.Chain.Types.{Pubkey, AccountInfo, Runtime}
use xete_programs.Chain.Action.{Action, lift, reads, fail_if, fail_when, ◌>>=◌, ◌>>◌}
use xete_programs.Chain.Writes.{write_fields}
use xete_programs.Swap.Checks.{ata_for, mint_decimals, assert_token_program, require_token_account}
use xete_programs.Swap.Cpi.{MplDelegate, mpl_delegate_or_revoke, close}
use xete_programs.Swap.Events.{kind_listing_pnft, emit_post_created}
use xete_programs.Swap.Config.Policy.{require_alias}
use xete_programs.Swap.Settle.Load.{load_fill_state}
use xete_programs.Swap.Settle.{pay_want_and_royalty}
use xete_programs.Swap.Spl.Checks.{load_cancel_state}
use xete_programs.Swap.Pnft.Asset.{move_pnft, check_pnft_programs, check_atas}
use xete_programs.Swap.Pnft.{fill_pnft_accounts}
use xete_programs.Swap.Slot.{
  posting, posting_event, listing_seed, listing_fields, check_address, derive_address,
  pay_delist_fee,
}
use xete_programs.Swap.Escrowless.{check_royalty_terms, create_listing, listing_seeds}

-- What the delegation and its revocation take, beside the maker and the listing.
pub record DelegateAccounts : Type 0 where
  pub mint : AccountInfo
  pub owner_ata : AccountInfo
  pub token_record : AccountInfo
  pub metadata : AccountInfo
  pub edition : AccountInfo
  pub token_metadata : AccountInfo
  pub spl_tok : AccountInfo
  pub sysvar_ix : AccountInfo
  pub system : AccountInfo
  pub rules_prog : AccountInfo
  pub rules : AccountInfo

-- The listing's address as the delegate of the maker's NFT, who signs and pays.
unfoldable pub delegate_to_listing : DelegateAccounts → (maker listing : AccountInfo) → MplDelegate
delegate_to_listing n maker listing = record {
  tm = n.token_metadata;
  token_record = n.token_record;
  delegate = listing;
  metadata = n.metadata;
  edition = n.edition;
  mint = n.mint;
  owner_ata = n.owner_ata;
  authority = maker;
  payer = maker;
  system = n.system;
  sysvar_ix = n.sysvar_ix;
  spl_tok = n.spl_tok;
  rules_prog = n.rules_prog;
  rules = n.rules;
}

pub record ListPnftAccounts : Type 0 where
  pub maker : AccountInfo
  pub listing : AccountInfo
  pub want_mint : AccountInfo
  pub asset : DelegateAccounts
  pub config : AccountInfo
  pub alias : AccountInfo

unfoldable pub list_pnft_accounts : List AccountInfo → Result ListPnftAccounts
list_pnft_accounts
      (a0 ∷ a1 ∷ a2 ∷ a3 ∷ a4 ∷ a5 ∷ a6 ∷ a7 ∷ a8 ∷ a9 ∷ a10 ∷ a11 ∷ a12 ∷ a13 ∷ a14 ∷ a15 ∷ []) =
    ok (record {
      maker = a0;
      listing = a1;
      want_mint = a3;
      asset = record {
        mint = a2;
        owner_ata = a4;
        token_record = a5;
        metadata = a6;
        edition = a7;
        token_metadata = a8;
        spl_tok = a9;
        sysvar_ix = a10;
        system = a11;
        rules_prog = a12;
        rules = a13;
      };
      config = a14;
      alias = a15;
    })
list_pnft_accounts _ = err not_enough_account_keys

unfoldable pub list_pnft : Runtime → Pubkey → List AccountInfo → Bytes → Action (Unit {0})
list_pnft rt program_id accounts d = do
  fail_if (not (length d == 122)) invalid_instruction_data
  let p = posting d
  check_royalty_terms d
  a ← lift (list_pnft_accounts accounts)
  let n = a.asset
  fail_if (not a.maker.is_signer) missing_required_signature
  fail_if (not (p.give_amount == 1) || p.want_amount == 0) invalid_instruction_data
  now ← lift rt.unix_timestamp
  fail_if (leb_ℤ p.expiry now) invalid_argument
  lift (check_pnft_programs n.token_metadata n.sysvar_ix)
  fail_if (differs n.owner_ata.key (ata_for rt a.maker.key n.mint.key)) invalid_argument
  reads (require_alias rt program_id a.config a.maker.key a.alias)
  pda ← lift (derive_address rt program_id listing_seed a.listing a.maker.key p.nonce)
  create_listing rt program_id a.maker a.listing n.system p.nonce pda.1
  emit_post_created
      (posting_event p kind_listing_pnft a.maker.key a.listing.key n.mint.key a.want_mint.key)
  mpl_delegate_or_revoke rt (delegate_to_listing n a.maker a.listing) 1 false
  write_fields a.listing.key (
      listing_fields p a.maker.key n.mint.key a.want_mint.key 1 (get_or d 120 0) (get_or d 121 0)
        pda.1)

-- The accounts are those of a swap's fill, with the maker's account in the place of the vault.
unfoldable pub fill_listing_pnft : Runtime → Pubkey → List AccountInfo → Bytes → Action (Unit {0})
fill_listing_pnft rt program_id accounts d = do
  fail_if (not (length d == 48)) invalid_instruction_data
  let nonce = slice d 0 32
  let expect_give = from_le (slice d 32 40)
  let max_want = from_le (slice d 40 48)
  a ← lift (fill_pnft_accounts accounts)
  let listing = a.swap
  fail_if (not a.taker.is_signer) missing_required_signature
  fail_when (λ l. differs (l listing.key).owner program_id) illegal_owner
  lift (check_pnft_programs a.asset.token_metadata a.asset.sysvar_ix)
  st ← reads (load_fill_state rt listing a.asset.mint.key a.want_mint.key a.taker.key)
  fail_if (not (st.give_amount == expect_give)) invalid_argument
  fail_if (differs a.maker.key st.maker) invalid_argument
  pda ← lift (check_address rt program_id listing_seed listing st.maker nonce st.bump)
  lift (check_atas rt a.asset.mint a.source a.maker.key a.taker_give a.taker.key)
  reads (require_token_account a.maker_want a.want_mint.key st.maker)
  want_dec ← reads (mint_decimals a.want_mint)
  reads (assert_token_program rt a.want_token_prog a.want_mint)
  pay_want_and_royalty rt program_id
      (record {
        config = a.config;
        token_prog = a.want_token_prog;
        payer = a.taker_want;
        mint = a.want_mint;
        fee_ata = a.fee_ata;
        payee = a.maker_want;
        authority = a.taker;
        signer_seeds = none;
        decimals = want_dec;
        shard_seed = get_or nonce 0 0;
      })
      st.want_amount max_want st.royalty_mode st.maker_pct a.asset.mint (some a.asset.metadata)
      a.creator_atas
  move_pnft rt a.asset a.source a.maker a.taker_give a.taker listing a.taker
      (some (listing_seeds st.maker nonce st.bump))
  close listing a.maker

pub record CancelListingPnftAccounts : Type 0 where
  pub maker : AccountInfo
  pub listing : AccountInfo
  pub asset : DelegateAccounts
  pub config : AccountInfo
  pub fee_wallet : AccountInfo

unfoldable pub cancel_listing_pnft_accounts : List AccountInfo → Result CancelListingPnftAccounts
cancel_listing_pnft_accounts
      (a0 ∷ a1 ∷ a2 ∷ a3 ∷ a4 ∷ a5 ∷ a6 ∷ a7 ∷ a8 ∷ a9 ∷ a10 ∷ a11 ∷ a12 ∷ a13 ∷ a14 ∷ []) =
    ok (record {
      maker = a0;
      listing = a1;
      asset = record {
        mint = a2;
        owner_ata = a3;
        token_record = a4;
        metadata = a5;
        edition = a6;
        token_metadata = a7;
        spl_tok = a8;
        sysvar_ix = a9;
        system = a10;
        rules_prog = a11;
        rules = a12;
      };
      config = a13;
      fee_wallet = a14;
    })
cancel_listing_pnft_accounts _ = err not_enough_account_keys

unfoldable pub cancel_listing_pnft : Runtime → Pubkey → List AccountInfo → Bytes → Action (Unit {0})
cancel_listing_pnft rt program_id accounts d = do
  fail_if (not (length d == 32)) invalid_instruction_data
  let nonce = slice d 0 32
  a ← lift (cancel_listing_pnft_accounts accounts)
  let n = a.asset
  fail_if (not a.maker.is_signer) missing_required_signature
  fail_when (λ l. differs (l a.listing.key).owner program_id) illegal_owner
  lift (check_pnft_programs n.token_metadata n.sysvar_ix)
  st ← reads (load_cancel_state a.listing a.maker n.mint)
  pda ← lift (derive_address rt program_id listing_seed a.listing a.maker.key nonce)
  fail_if (differs n.owner_ata.key (ata_for rt a.maker.key n.mint.key)) invalid_argument
  pay_delist_fee rt program_id a.config a.maker a.fee_wallet n.system
  mpl_delegate_or_revoke rt (delegate_to_listing n a.maker a.listing) 0 true
  close a.listing a.maker
