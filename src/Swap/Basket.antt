-- ===== src/Swap/Basket.antt =====
-- Baskets of up to five assets a side, and bearer baskets, claimed by key; tags 12 to 17
-- (swap/src/basket.rs).
pub mod Checks
pub mod Legs
pub mod Loaded
pub mod Released
pub mod Bearer
pub mod Rewrapped
pub mod Refunded
pub mod Paid
pub mod Filled
pub mod Cancelled
use xete_programs.Base.{
  ℕ, ◌+◌, ◌*◌, not, ◌||◌, ◌&&◌, ◌==◌, ltb, List, [], ◌∷◌, Option, none, some, Bytes, length, slice,
  get_or, differs, take, drop, if◌then◌else◌,
}
use xete_programs.Base.Int.{leb_ℤ}
use xete_programs.Base.Words.{i64_le}
use xete_programs.Chain.Result.{
  Result, ok, err, invalid_argument, illegal_owner, not_enough_account_keys,
  invalid_instruction_data, missing_required_signature,
}
use xete_programs.Chain.Types.{Pubkey, AccountInfo, Runtime}
use xete_programs.Chain.Action.{Action, lift, reads, fail_if, fail_when, ◌>>=◌, ◌>>◌}
use xete_programs.Chain.Writes.{write_fields}
use xete_programs.Swap.Layout.{
  b_maker, b_give_count, b_want_count, b_taker, b_auth_mode, b_claim_auth, b_expiry, b_status,
  b_bump, b_nonce, basket_len, entry, max_leg, status_open, auth_normal, auth_bearer,
}
use xete_programs.Swap.Checks.{any_nonzero}
use xete_programs.Swap.Cpi.{create_pda, close}
use xete_programs.Swap.Config.Policy.{read_config, require_alias}
use xete_programs.Swap.Slot.{check_address, derive_address, pay_delist_fee}
use Checks.{
  basket_seed, BasketTerms, basket_terms, load_fill_basket, load_claim_basket, load_rewrap,
  load_cancel_basket, load_expired_basket,
}
use Legs.{Basket, give_legs, want_legs, write_wants, escrow_legs, pay_want_entries, release_legs}

pub record OpenBasketAccounts : Type 0 where
  pub maker : AccountInfo
  pub swap : AccountInfo
  pub system : AccountInfo
  pub token_prog : AccountInfo
  pub config : AccountInfo
  pub alias : AccountInfo
  pub legs : List AccountInfo

-- `accounts.len() != 6 + give_count * 3`, then the accounts by their place.
unfoldable pub open_basket_accounts : ℕ → List AccountInfo → Result OpenBasketAccounts
open_basket_accounts give_count (a0 ∷ a1 ∷ a2 ∷ a3 ∷ a4 ∷ a5 ∷ legs) =
    if length legs == give_count * 3
    then ok (record {
      maker = a0;
      swap = a1;
      system = a2;
      token_prog = a3;
      config = a4;
      alias = a5;
      legs = legs;
    })
    else err not_enough_account_keys
open_basket_accounts give_count _ = err not_enough_account_keys

-- The counts, the length that they make, the mode and what a bearer basket must carry.
unfoldable pub check_basket_payload : Bytes → Action (Unit {0})
check_basket_payload d = do
  fail_if (ltb (length d) 34) invalid_instruction_data
  let t = basket_terms d
  fail_if (ltb t.give_count 1 || ltb max_leg t.give_count || ltb max_leg t.want_count)
      invalid_instruction_data
  fail_if (not (length d == t.want_off + t.want_count * entry + 73)) invalid_instruction_data
  fail_if (not (t.auth_mode == auth_normal) && not (t.auth_mode == auth_bearer))
      invalid_instruction_data
  fail_if
      (t.auth_mode == auth_bearer && (not (t.want_count == 0) || not (any_nonzero t.claim_auth)))
      invalid_argument

-- The header of the basket's account, in the order of the copies.
unfoldable pub basket_header : BasketTerms → Pubkey → ℕ → List (ℕ × Bytes)
basket_header t maker bump =
    (b_maker, maker)
    ∷ (b_give_count, t.give_count ∷ [])
    ∷ (b_want_count, t.want_count ∷ [])
    ∷ (b_taker, t.taker)
    ∷ (b_auth_mode, t.auth_mode ∷ [])
    ∷ (b_claim_auth, t.claim_auth)
    ∷ (b_expiry, i64_le t.expiry)
    ∷ (b_status, status_open ∷ [])
    ∷ (b_bump, bump ∷ [])
    ∷ (b_nonce, t.nonce)
    ∷ []

unfoldable pub open_basket : Runtime → Pubkey → List AccountInfo → Bytes → Action (Unit {0})
unfolding check_basket_payload
open_basket rt program_id accounts d = do
  check_basket_payload d
  let t = basket_terms d
  now ← lift rt.unix_timestamp
  fail_if (leb_ℤ t.expiry now) invalid_argument
  a ← lift (open_basket_accounts t.give_count accounts)
  fail_if (not a.maker.is_signer) missing_required_signature
  reads (require_alias rt program_id a.config a.maker.key a.alias)
  pda ← lift (derive_address rt program_id basket_seed a.swap a.maker.key t.nonce)
  create_pda rt a.maker a.swap a.system basket_len program_id
      (basket_seed ∷ a.maker.key ∷ t.nonce ∷ (pda.1 ∷ []) ∷ [])
  write_fields a.swap.key (basket_header t a.maker.key pda.1)
  write_wants a.swap.key d t.want_off t.want_count 0
  escrow_legs rt program_id
      (record { swap = a.swap; maker = a.maker; token_prog = a.token_prog; nonce = t.nonce })
      a.system d t.want_count 0 (give_legs a.legs)

-- The seeds that sign for a basket.
abbrev pub basket_seeds : (maker nonce : Bytes) → ℕ → List Bytes
basket_seeds maker nonce bump = basket_seed ∷ maker ∷ nonce ∷ (bump ∷ []) ∷ []

pub record FillBasketAccounts : Type 0 where
  pub taker : AccountInfo
  pub swap : AccountInfo
  pub maker : AccountInfo
  pub token_prog : AccountInfo
  pub config : AccountInfo
  pub legs : List AccountInfo

unfoldable pub fill_basket_accounts : List AccountInfo → Result FillBasketAccounts
fill_basket_accounts (a0 ∷ a1 ∷ a2 ∷ a3 ∷ a4 ∷ legs) =
    ok (record { taker = a0; swap = a1; maker = a2; token_prog = a3; config = a4; legs = legs })
fill_basket_accounts _ = err not_enough_account_keys

unfoldable pub fill_basket : Runtime → Pubkey → List AccountInfo → Bytes → Action (Unit {0})
fill_basket rt program_id accounts d = do
  fail_if (not (length d == 32)) invalid_instruction_data
  let nonce = slice d 0 32
  a ← lift (fill_basket_accounts accounts)
  fail_if (not a.taker.is_signer) missing_required_signature
  fail_when (λ l. differs (l a.swap.key).owner program_id) illegal_owner
  st ← reads (load_fill_basket rt a.swap a.taker)
  fail_if (differs a.maker.key st.maker) invalid_argument
  pda ← lift (check_address rt program_id basket_seed a.swap st.maker nonce st.bump)
  fail_if (not (length a.legs == st.give_count * 3 + st.want_count * 4)) not_enough_account_keys
  policy ← reads (read_config rt program_id a.config)
  let b : Basket = record {
    swap = a.swap;
    maker = a.maker;
    token_prog = a.token_prog;
    nonce = nonce;
  }
  pay_want_entries rt program_id b a.config a.taker policy 0
      (want_legs (drop (st.give_count * 3) a.legs))
  release_legs rt program_id b (basket_seeds st.maker nonce st.bump) none 0
      (give_legs (take (st.give_count * 3) a.legs))
  close a.swap a.maker

pub record ClaimBearerAccounts : Type 0 where
  pub payer : AccountInfo
  pub bearer : AccountInfo
  pub swap : AccountInfo
  pub maker : AccountInfo
  pub token_prog : AccountInfo
  pub legs : List AccountInfo

unfoldable pub claim_bearer_accounts : List AccountInfo → Result ClaimBearerAccounts
claim_bearer_accounts (a0 ∷ a1 ∷ a2 ∷ a3 ∷ a4 ∷ legs) =
    ok (record { payer = a0; bearer = a1; swap = a2; maker = a3; token_prog = a4; legs = legs })
claim_bearer_accounts _ = err not_enough_account_keys

unfoldable pub claim_bearer : Runtime → Pubkey → List AccountInfo → Bytes → Action (Unit {0})
claim_bearer rt program_id accounts d = do
  fail_if (not (length d == 32)) invalid_instruction_data
  let nonce = slice d 0 32
  a ← lift (claim_bearer_accounts accounts)
  fail_if (not a.payer.is_signer || not a.bearer.is_signer) missing_required_signature
  fail_when (λ l. differs (l a.swap.key).owner program_id) illegal_owner
  st ← reads (load_claim_basket rt a.swap a.bearer)
  fail_if (differs a.maker.key st.maker) invalid_argument
  pda ← lift (check_address rt program_id basket_seed a.swap st.maker nonce st.bump)
  fail_if (not (length a.legs == st.give_count * 3)) not_enough_account_keys
  release_legs rt program_id
      (record { swap = a.swap; maker = a.maker; token_prog = a.token_prog; nonce = nonce })
      (basket_seeds st.maker nonce st.bump) none 0 (give_legs a.legs)
  close a.swap a.maker

pub record RewrapAccounts : Type 0 where
  pub bearer : AccountInfo
  pub swap : AccountInfo

unfoldable pub rewrap_accounts : List AccountInfo → Result RewrapAccounts
rewrap_accounts (a0 ∷ a1 ∷ []) = ok (record { bearer = a0; swap = a1 })
rewrap_accounts _ = err not_enough_account_keys

unfoldable pub rewrap : Runtime → Pubkey → List AccountInfo → Bytes → Action (Unit {0})
rewrap rt program_id accounts d = do
  fail_if (not (length d == 64)) invalid_instruction_data
  let nonce = slice d 0 32
  let new_auth = slice d 32 64
  fail_if (not (any_nonzero new_auth)) invalid_argument
  a ← lift (rewrap_accounts accounts)
  fail_if (not a.bearer.is_signer) missing_required_signature
  fail_when (λ l. differs (l a.swap.key).owner program_id) illegal_owner
  maker ← reads (load_rewrap rt a.swap a.bearer)
  pda ← lift (derive_address rt program_id basket_seed a.swap maker nonce)
  write_fields a.swap.key ((b_claim_auth, new_auth) ∷ [])

pub record CancelBasketAccounts : Type 0 where
  pub maker : AccountInfo
  pub swap : AccountInfo
  pub token_prog : AccountInfo
  pub config : AccountInfo
  pub fee_wallet : AccountInfo
  pub system : AccountInfo
  pub legs : List AccountInfo

unfoldable pub cancel_basket_accounts : List AccountInfo → Result CancelBasketAccounts
cancel_basket_accounts (a0 ∷ a1 ∷ a2 ∷ a3 ∷ a4 ∷ a5 ∷ legs) = ok (record {
  maker = a0;
  swap = a1;
  token_prog = a2;
  config = a3;
  fee_wallet = a4;
  system = a5;
  legs = legs;
})
cancel_basket_accounts _ = err not_enough_account_keys

unfoldable pub cancel_basket : Runtime → Pubkey → List AccountInfo → Bytes → Action (Unit {0})
cancel_basket rt program_id accounts d = do
  fail_if (not (length d == 32)) invalid_instruction_data
  let nonce = slice d 0 32
  a ← lift (cancel_basket_accounts accounts)
  fail_if (not a.maker.is_signer) missing_required_signature
  fail_when (λ l. differs (l a.swap.key).owner program_id) illegal_owner
  st ← reads (load_cancel_basket a.swap a.maker)
  pda ← lift (check_address rt program_id basket_seed a.swap a.maker.key nonce st.bump)
  fail_if (not (length a.legs == st.give_count * 3)) not_enough_account_keys
  pay_delist_fee rt program_id a.config a.maker a.fee_wallet a.system
  release_legs rt program_id
      (record { swap = a.swap; maker = a.maker; token_prog = a.token_prog; nonce = nonce })
      (basket_seeds a.maker.key nonce st.bump) (some a.maker.key) 0 (give_legs a.legs)
  close a.swap a.maker

pub record ExpireBasketAccounts : Type 0 where
  pub swap : AccountInfo
  pub maker : AccountInfo
  pub token_prog : AccountInfo
  pub legs : List AccountInfo

-- The first account, the caller's, is not looked at.
unfoldable pub expire_basket_accounts : List AccountInfo → Result ExpireBasketAccounts
expire_basket_accounts (a0 ∷ a1 ∷ a2 ∷ a3 ∷ legs) =
    ok (record { swap = a1; maker = a2; token_prog = a3; legs = legs })
expire_basket_accounts _ = err not_enough_account_keys

unfoldable pub expire_basket : Runtime → Pubkey → List AccountInfo → Bytes → Action (Unit {0})
expire_basket rt program_id accounts d = do
  fail_if (not (length d == 32)) invalid_instruction_data
  let nonce = slice d 0 32
  a ← lift (expire_basket_accounts accounts)
  fail_when (λ l. differs (l a.swap.key).owner program_id) illegal_owner
  st ← reads (load_expired_basket rt a.swap)
  fail_if (differs a.maker.key st.maker) invalid_argument
  pda ← lift (check_address rt program_id basket_seed a.swap st.maker nonce st.bump)
  fail_if (not (length a.legs == st.give_count * 3)) not_enough_account_keys
  release_legs rt program_id
      (record { swap = a.swap; maker = a.maker; token_prog = a.token_prog; nonce = nonce })
      (basket_seeds st.maker nonce st.bump) (some st.maker) 0 (give_legs a.legs)
  close a.swap a.maker
