-- ===== src/Swap/Core.antt =====
-- Escrowed Core assets; tags 22 to 25 (swap/src/mcore.rs).
use xete_programs.Base.{
  ℕ, false, true, not, ◌||◌, ◌==◌, ltb, List, [], ◌∷◌, none, some, Bytes, length, slice, get_or,
  differs,
}
use xete_programs.Base.Int.{leb_ℤ}
use xete_programs.Base.Words.{from_le}
use xete_programs.Chain.Result.{
  Result, ok, err, invalid_argument, illegal_owner, incorrect_program_id, not_enough_account_keys,
  invalid_instruction_data, missing_required_signature,
}
use xete_programs.Chain.Types.{Pubkey, AccountInfo, Runtime}
use xete_programs.Chain.Action.{Action, lift, reads, fail_if, fail_when, ◌>>=◌, ◌>>◌}
use xete_programs.Chain.Writes.{write_fields}
use xete_programs.Swap.Ids.{mpl_core_id}
use xete_programs.Swap.Layout.{swap_len}
use xete_programs.Swap.Checks.{mint_decimals, assert_token_program, require_token_account}
use xete_programs.Swap.Cpi.{create_pda, mpl_core_transfer, close}
use xete_programs.Swap.Events.{kind_swap_core, emit_post_created}
use xete_programs.Swap.Config.Policy.{require_alias}
use xete_programs.Swap.Settle.Load.{load_fill_state}
use xete_programs.Swap.Settle.{pay_want_leg}
use xete_programs.Swap.Spl.Checks.{swap_seed, load_cancel_state, load_expired_state}
use xete_programs.Swap.Slot.{
  posting, posting_event, asset_fields, check_address, derive_address, pay_delist_fee,
}

-- The core program, the asset, and its collection.
pub record CoreAsset : Type 0 where
  pub core : AccountInfo
  pub asset : AccountInfo
  pub collection : AccountInfo

pub record OpenCoreAccounts : Type 0 where
  pub maker : AccountInfo
  pub swap : AccountInfo
  pub item : CoreAsset
  pub want_mint : AccountInfo
  pub system : AccountInfo
  pub config : AccountInfo
  pub alias : AccountInfo

unfoldable pub open_core_accounts : List AccountInfo → Result OpenCoreAccounts
open_core_accounts (a0 ∷ a1 ∷ a2 ∷ a3 ∷ a4 ∷ a5 ∷ a6 ∷ a7 ∷ a8 ∷ []) = ok (record {
  maker = a0;
  swap = a1;
  item = record { core = a5; asset = a2; collection = a3 };
  want_mint = a4;
  system = a6;
  config = a7;
  alias = a8;
})
open_core_accounts _ = err not_enough_account_keys

unfoldable pub open_core : Runtime → Pubkey → List AccountInfo → Bytes → Action (Unit {0})
open_core rt program_id accounts d = do
  fail_if (not (length d == 120)) invalid_instruction_data
  let p = posting d
  a ← lift (open_core_accounts accounts)
  fail_if (not a.maker.is_signer) missing_required_signature
  fail_if (not (p.give_amount == 1) || p.want_amount == 0) invalid_instruction_data
  now ← lift rt.unix_timestamp
  fail_if (leb_ℤ p.expiry now) invalid_argument
  fail_if (differs a.item.core.key mpl_core_id) incorrect_program_id
  reads (require_alias rt program_id a.config a.maker.key a.alias)
  pda ← lift (derive_address rt program_id swap_seed a.swap a.maker.key p.nonce)
  create_pda rt a.maker a.swap a.system swap_len program_id
      (swap_seed ∷ a.maker.key ∷ p.nonce ∷ (pda.1 ∷ []) ∷ [])
  emit_post_created
      (posting_event p kind_swap_core a.maker.key a.swap.key a.item.asset.key a.want_mint.key)
  mpl_core_transfer rt a.item.core a.item.asset a.item.collection a.maker a.item.core a.swap false
      none
  write_fields a.swap.key (asset_fields p a.maker.key a.item.asset.key a.want_mint.key pda.1)

-- Out of the swap's ownership, signed by the swap's address.
unfoldable pub release_core :
    Runtime
    → CoreAsset
    → (swap payer new_owner : AccountInfo) → (state_maker nonce : Bytes) → ℕ
    → Action (Unit {0})
release_core rt c swap payer new_owner state_maker nonce bump =
    mpl_core_transfer rt c.core c.asset c.collection payer swap new_owner true
      (some (swap_seed ∷ state_maker ∷ nonce ∷ (bump ∷ []) ∷ []))

pub record FillCoreAccounts : Type 0 where
  pub taker : AccountInfo
  pub swap : AccountInfo
  pub maker : AccountInfo
  pub item : CoreAsset
  pub want_mint : AccountInfo
  pub taker_want : AccountInfo
  pub maker_want : AccountInfo
  pub want_token_prog : AccountInfo
  pub config : AccountInfo
  pub fee_ata : AccountInfo

unfoldable pub fill_core_accounts : List AccountInfo → Result FillCoreAccounts
fill_core_accounts (a0 ∷ a1 ∷ a2 ∷ a3 ∷ a4 ∷ a5 ∷ a6 ∷ a7 ∷ a8 ∷ a9 ∷ a10 ∷ a11 ∷ []) = ok (record {
  taker = a0;
  swap = a1;
  maker = a2;
  item = record { core = a11; asset = a3; collection = a4 };
  want_mint = a5;
  taker_want = a6;
  maker_want = a7;
  want_token_prog = a8;
  config = a9;
  fee_ata = a10;
})
fill_core_accounts _ = err not_enough_account_keys

unfoldable pub fill_core : Runtime → Pubkey → List AccountInfo → Bytes → Action (Unit {0})
fill_core rt program_id accounts d = do
  fail_if (not (length d == 48)) invalid_instruction_data
  let nonce = slice d 0 32
  let expect_give = from_le (slice d 32 40)
  let max_want = from_le (slice d 40 48)
  a ← lift (fill_core_accounts accounts)
  fail_if (not a.taker.is_signer) missing_required_signature
  fail_when (λ l. differs (l a.swap.key).owner program_id) illegal_owner
  fail_if (differs a.item.core.key mpl_core_id) incorrect_program_id
  st ← reads (load_fill_state rt a.swap a.item.asset.key a.want_mint.key a.taker.key)
  fail_if (not (st.give_amount == expect_give) || ltb max_want st.want_amount) invalid_argument
  fail_if (differs a.maker.key st.maker) invalid_argument
  pda ← lift (check_address rt program_id swap_seed a.swap st.maker nonce st.bump)
  reads (require_token_account a.maker_want a.want_mint.key st.maker)
  want_dec ← reads (mint_decimals a.want_mint)
  reads (assert_token_program rt a.want_token_prog a.want_mint)
  pay_want_leg rt program_id a.config a.want_token_prog a.taker_want a.want_mint a.fee_ata
      a.maker_want a.taker st.want_amount want_dec (get_or nonce 0 0)
  release_core rt a.item a.swap a.taker a.taker st.maker nonce st.bump
  close a.swap a.maker

pub record CancelCoreAccounts : Type 0 where
  pub maker : AccountInfo
  pub swap : AccountInfo
  pub item : CoreAsset
  pub config : AccountInfo
  pub fee_wallet : AccountInfo
  pub system : AccountInfo

unfoldable pub cancel_core_accounts : List AccountInfo → Result CancelCoreAccounts
cancel_core_accounts (a0 ∷ a1 ∷ a2 ∷ a3 ∷ a4 ∷ a5 ∷ a6 ∷ a7 ∷ []) = ok (record {
  maker = a0;
  swap = a1;
  item = record { core = a7; asset = a2; collection = a3 };
  config = a4;
  fee_wallet = a5;
  system = a6;
})
cancel_core_accounts _ = err not_enough_account_keys

unfoldable pub cancel_core : Runtime → Pubkey → List AccountInfo → Bytes → Action (Unit {0})
cancel_core rt program_id accounts d = do
  fail_if (not (length d == 32)) invalid_instruction_data
  let nonce = slice d 0 32
  a ← lift (cancel_core_accounts accounts)
  fail_if (not a.maker.is_signer) missing_required_signature
  fail_when (λ l. differs (l a.swap.key).owner program_id) illegal_owner
  fail_if (differs a.item.core.key mpl_core_id) incorrect_program_id
  st ← reads (load_cancel_state a.swap a.maker a.item.asset)
  pda ← lift (check_address rt program_id swap_seed a.swap a.maker.key nonce st.bump)
  pay_delist_fee rt program_id a.config a.maker a.fee_wallet a.system
  release_core rt a.item a.swap a.maker a.maker a.maker.key nonce st.bump
  close a.swap a.maker

pub record ExpireCoreAccounts : Type 0 where
  pub caller : AccountInfo
  pub swap : AccountInfo
  pub maker : AccountInfo
  pub item : CoreAsset

unfoldable pub expire_core_accounts : List AccountInfo → Result ExpireCoreAccounts
expire_core_accounts (a0 ∷ a1 ∷ a2 ∷ a3 ∷ a4 ∷ a5 ∷ []) = ok (record {
  caller = a0;
  swap = a1;
  maker = a2;
  item = record { core = a5; asset = a3; collection = a4 };
})
expire_core_accounts _ = err not_enough_account_keys

unfoldable pub expire_core : Runtime → Pubkey → List AccountInfo → Bytes → Action (Unit {0})
expire_core rt program_id accounts d = do
  fail_if (not (length d == 32)) invalid_instruction_data
  let nonce = slice d 0 32
  a ← lift (expire_core_accounts accounts)
  fail_if (not a.caller.is_signer) missing_required_signature
  fail_when (λ l. differs (l a.swap.key).owner program_id) illegal_owner
  fail_if (differs a.item.core.key mpl_core_id) incorrect_program_id
  st ← reads (load_expired_state rt a.swap a.item.asset)
  fail_if (differs a.maker.key st.maker) invalid_argument
  pda ← lift (check_address rt program_id swap_seed a.swap st.maker nonce st.bump)
  release_core rt a.item a.swap a.caller a.maker st.maker nonce st.bump
  close a.swap a.maker
