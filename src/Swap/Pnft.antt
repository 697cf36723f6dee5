-- ===== src/Swap/Pnft.antt =====
-- Escrowed programmable NFTs; tags 18 to 21 (swap/src/pnft.rs).
pub mod Asset
use xete_programs.Base.{
  not, ◌||◌, ◌==◌, List, [], ◌∷◌, none, some, Bytes, length, slice, get_or, differs,
}
use xete_programs.Base.Int.{leb_ℤ}
use xete_programs.Base.Words.{from_le}
use xete_programs.Chain.Result.{
  Result, ok, err, invalid_argument, illegal_owner, not_enough_account_keys,
  invalid_instruction_data, missing_required_signature,
}
use xete_programs.Chain.Types.{Pubkey, AccountInfo, Runtime}
use xete_programs.Chain.Action.{Action, lift, reads, fail_if, fail_when, ◌>>=◌, ◌>>◌}
use xete_programs.Chain.Writes.{write_fields}
use xete_programs.Swap.Layout.{swap_len}
use xete_programs.Swap.Checks.{mint_decimals, assert_token_program, require_token_account}
use xete_programs.Swap.Cpi.{create_pda, close}
use xete_programs.Swap.Events.{kind_swap_pnft, emit_post_created}
use xete_programs.Swap.Config.Policy.{require_alias}
use xete_programs.Swap.Settle.Load.{load_fill_state}
use xete_programs.Swap.Settle.{Leg, pay_want_and_royalty}
use xete_programs.Swap.Spl.Checks.{swap_seed, load_cancel_state, load_expired_state}
use xete_programs.Swap.Slot.{
  posting, posting_event, asset_fields, check_address, derive_address, pay_delist_fee,
}
use Asset.{PnftAsset, move_pnft, release_pnft, check_pnft_programs, check_atas}

pub record OpenPnftAccounts : Type 0 where
  pub maker : AccountInfo
  pub swap : AccountInfo
  pub want_mint : AccountInfo
  pub source_ata : AccountInfo
  pub vault_ata : AccountInfo
  pub asset : PnftAsset
  pub config : AccountInfo
  pub alias : AccountInfo

unfoldable pub open_pnft_accounts : List AccountInfo → Result OpenPnftAccounts
open_pnft_accounts
      (a0 ∷ a1 ∷ a2 ∷ a3 ∷ a4 ∷ a5 ∷ a6 ∷ a7 ∷ a8 ∷ a9 ∷ a10 ∷ a11 ∷ a12 ∷ a13 ∷ a14 ∷ a15 ∷ a16
        ∷ a17 ∷ a18 ∷ []) =
    ok (record {
      maker = a0;
      swap = a1;
      want_mint = a3;
      source_ata = a4;
      vault_ata = a5;
      asset = record {
        mint = a2;
        metadata = a6;
        edition = a7;
        owner_record = a8;
        dest_record = a9;
        token_metadata = a10;
        spl_tok = a11;
        ata_prog = a12;
        sysvar_ix = a13;
        system = a14;
        rules_prog = a15;
        rules = a16;
      };
      config = a17;
      alias = a18;
    })
open_pnft_accounts _ = err not_enough_account_keys

unfoldable pub open_pnft : Runtime → Pubkey → List AccountInfo → Bytes → Action (Unit {0})
open_pnft rt program_id accounts d = do
  fail_if (not (length d == 120)) invalid_instruction_data
  let p = posting d
  a ← lift (open_pnft_accounts accounts)
  fail_if (not a.maker.is_signer) missing_required_signature
  fail_if (not (p.give_amount == 1) || p.want_amount == 0) invalid_instruction_data
  now ← lift rt.unix_timestamp
  fail_if (leb_ℤ p.expiry now) invalid_argument
  lift (check_pnft_programs a.asset.token_metadata a.asset.sysvar_ix)
  reads (require_alias rt program_id a.config a.maker.key a.alias)
  pda ← lift (derive_address rt program_id swap_seed a.swap a.maker.key p.nonce)
  lift (check_atas rt a.asset.mint a.source_ata a.maker.key a.vault_ata pda.0)
  create_pda rt a.maker a.swap a.asset.system swap_len program_id
      (swap_seed ∷ a.maker.key ∷ p.nonce ∷ (pda.1 ∷ []) ∷ [])
  emit_post_created
      (posting_event p kind_swap_pnft a.maker.key a.swap.key a.asset.mint.key a.want_mint.key)
  move_pnft rt a.asset a.source_ata a.maker a.vault_ata a.swap a.maker a.maker none
  write_fields a.swap.key (asset_fields p a.maker.key a.asset.mint.key a.want_mint.key pda.1)

pub record FillPnftAccounts : Type 0 where
  pub taker : AccountInfo
  pub swap : AccountInfo
  pub maker : AccountInfo
  pub want_mint : AccountInfo
  pub taker_want : AccountInfo
  pub maker_want : AccountInfo
  pub want_token_prog : AccountInfo
  pub config : AccountInfo
  pub fee_ata : AccountInfo
  pub source : AccountInfo
  pub taker_give : AccountInfo
  pub asset : PnftAsset
  pub creator_atas : List AccountInfo

-- Twenty-three accounts, and the creators' behind them. A listing's fill has the same shape: `source`
-- is then the maker's account in place of the vault.
unfoldable pub fill_pnft_accounts : List AccountInfo → Result FillPnftAccounts
fill_pnft_accounts
      (a0 ∷ a1 ∷ a2 ∷ a3 ∷ a4 ∷ a5 ∷ a6 ∷ a7 ∷ a8 ∷ a9 ∷ a10 ∷ a11 ∷ a12 ∷ a13 ∷ a14 ∷ a15 ∷ a16
        ∷ a17 ∷ a18 ∷ a19 ∷ a20 ∷ a21 ∷ a22 ∷ more) =
    ok (record {
      taker = a0;
      swap = a1;
      maker = a2;
      want_mint = a4;
      taker_want = a5;
      maker_want = a6;
      want_token_prog = a7;
      config = a8;
      fee_ata = a9;
      source = a10;
      taker_give = a11;
      asset = record {
        mint = a3;
        metadata = a12;
        edition = a13;
        owner_record = a14;
        dest_record = a15;
        token_metadata = a16;
        spl_tok = a17;
        ata_prog = a18;
        sysvar_ix = a19;
        system = a20;
        rules_prog = a21;
        rules = a22;
      };
      creator_atas = more;
    })
fill_pnft_accounts _ = err not_enough_account_keys

unfoldable pub fill_pnft : Runtime → Pubkey → List AccountInfo → Bytes → Action (Unit {0})
fill_pnft rt program_id accounts d = do
  fail_if (not (length d == 48)) invalid_instruction_data
  let nonce = slice d 0 32
  let expect_give = from_le (slice d 32 40)
  let max_want = from_le (slice d 40 48)
  a ← lift (fill_pnft_accounts accounts)
  fail_if (not a.taker.is_signer) missing_required_signature
  fail_when (λ l. differs (l a.swap.key).owner program_id) illegal_owner
  lift (check_pnft_programs a.asset.token_metadata a.asset.sysvar_ix)
  st ← reads (load_fill_state rt a.swap a.asset.mint.key a.want_mint.key a.taker.key)
  fail_if (not (st.give_amount == expect_give)) invalid_argument
  fail_if (differs a.maker.key st.maker) invalid_argument
  pda ← lift (check_address rt program_id swap_seed a.swap st.maker nonce st.bump)
  lift (check_atas rt a.asset.mint a.source pda a.taker_give a.taker.key)
  reads (require_token_account a.maker_want a.want_mint.key st.maker)
  want_dec ← reads (mint_decimals a.want_mint)
  reads (assert_token_program rt a.want_token_prog a.want_mint)
  pay_want_and_royalty rt program_id
      (record {
        config = a.config;
        token_prog = a.want_token_prog;
        payer = a.taker_want;
        mint = a.want_mint;
        fee_ata = a.fee_ata;
        payee = a.maker_want;
        authority = a.taker;
        signer_seeds = none;
        decimals = want_dec;
        shard_seed = get_or nonce 0 0;
      })
      st.want_amount max_want st.royalty_mode st.maker_pct a.asset.mint (some a.asset.metadata)
      a.creator_atas
  release_pnft rt a.asset a.source a.swap a.taker_give a.taker a.taker st.maker nonce st.bump
  close a.swap a.maker

pub record CancelPnftAccounts : Type 0 where
  pub maker : AccountInfo
  pub swap : AccountInfo
  pub maker_give : AccountInfo
  pub vault : AccountInfo
  pub config : AccountInfo
  pub fee_wallet : AccountInfo
  pub asset : PnftAsset

unfoldable pub cancel_pnft_accounts : List AccountInfo → Result CancelPnftAccounts
cancel_pnft_accounts
      (a0 ∷ a1 ∷ a2 ∷ a3 ∷ a4 ∷ a5 ∷ a6 ∷ a7 ∷ a8 ∷ a9 ∷ a10 ∷ a11 ∷ a12 ∷ a13 ∷ a14 ∷ a15 ∷ a16
        ∷ a17 ∷ []) =
    ok (record {
      maker = a0;
      swap = a1;
      maker_give = a3;
      vault = a4;
      config = a5;
      fee_wallet = a6;
      asset = record {
        mint = a2;
        metadata = a8;
        edition = a9;
        owner_record = a10;
        dest_record = a11;
        token_metadata = a12;
        spl_tok = a13;
        ata_prog = a14;
        sysvar_ix = a15;
        system = a7;
        rules_prog = a16;
        rules = a17;
      };
    })
cancel_pnft_accounts _ = err not_enough_account_keys

unfoldable pub cancel_pnft : Runtime → Pubkey → List AccountInfo → Bytes → Action (Unit {0})
cancel_pnft rt program_id accounts d = do
  fail_if (not (length d == 32)) invalid_instruction_data
  let nonce = slice d 0 32
  a ← lift (cancel_pnft_accounts accounts)
  fail_if (not a.maker.is_signer) missing_required_signature
  fail_when (λ l. differs (l a.swap.key).owner program_id) illegal_owner
  lift (check_pnft_programs a.asset.token_metadata a.asset.sysvar_ix)
  st ← reads (load_cancel_state a.swap a.maker a.asset.mint)
  pda ← lift (check_address rt program_id swap_seed a.swap a.maker.key nonce st.bump)
  lift (check_atas rt a.asset.mint a.vault pda a.maker_give a.maker.key)
  pay_delist_fee rt program_id a.config a.maker a.fee_wallet a.asset.system
  release_pnft rt a.asset a.vault a.swap a.maker_give a.maker a.maker a.maker.key nonce st.bump
  close a.swap a.maker

pub record ExpirePnftAccounts : Type 0 where
  pub caller : AccountInfo
  pub swap : AccountInfo
  pub maker : AccountInfo
  pub maker_give : AccountInfo
  pub vault : AccountInfo
  pub asset : PnftAsset

unfoldable pub expire_pnft_accounts : List AccountInfo → Result ExpirePnftAccounts
expire_pnft_accounts
      (a0 ∷ a1 ∷ a2 ∷ a3 ∷ a4 ∷ a5 ∷ a6 ∷ a7 ∷ a8 ∷ a9 ∷ a10 ∷ a11 ∷ a12 ∷ a13 ∷ a14 ∷ a15 ∷ a16
        ∷ []) =
    ok (record {
      caller = a0;
      swap = a1;
      maker = a2;
      maker_give = a4;
      vault = a5;
      asset = record {
        mint = a3;
        metadata = a6;
        edition = a7;
        owner_record = a8;
        dest_record = a9;
        token_metadata = a10;
        spl_tok = a11;
        ata_prog = a12;
        sysvar_ix = a13;
        system = a14;
        rules_prog = a15;
        rules = a16;
      };
    })
expire_pnft_accounts _ = err not_enough_account_keys

unfoldable pub expire_pnft : Runtime → Pubkey → List AccountInfo → Bytes → Action (Unit {0})
expire_pnft rt program_id accounts d = do
  fail_if (not (length d == 32)) invalid_instruction_data
  let nonce = slice d 0 32
  a ← lift (expire_pnft_accounts accounts)
  fail_if (not a.caller.is_signer) missing_required_signature
  fail_when (λ l. differs (l a.swap.key).owner program_id) illegal_owner
  lift (check_pnft_programs a.asset.token_metadata a.asset.sysvar_ix)
  st ← reads (load_expired_state rt a.swap a.asset.mint)
  fail_if (differs a.maker.key st.maker) invalid_argument
  pda ← lift (check_address rt program_id swap_seed a.swap st.maker nonce st.bump)
  lift (check_atas rt a.asset.mint a.vault pda a.maker_give a.maker.key)
  release_pnft rt a.asset a.vault a.swap a.maker_give a.maker a.caller st.maker nonce st.bump
  close a.swap a.maker
