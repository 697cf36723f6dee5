-- ===== src/Swap/Settle/Load.antt =====
-- The parts of a settlement that only read: the resting swap, and the royalty that the asset's
-- metadata declares (swap/src/settle.rs).
use xete_programs.Base.{
  ℕ, ◌+◌, ◌*◌, ◌/◌, ◌-◌, not, ◌||◌, ◌&&◌, ◌==◌, ltb, leb, if◌then◌else◌, List, [], ◌∷◌, Option,
  some, none, Bytes, length, slice, get_or, differs, take, sum,
}
use xete_programs.Base.Int.{leb_ℤ}
use xete_programs.Base.Words.{from_le, i64_from_le, as_u64, u64_mod}
use xete_programs.Chain.Result.{
  Result, ok, err, ProgramError, invalid_argument, invalid_account_data, illegal_owner,
  not_enough_account_keys, fail_if, ◌>>=◌, ◌>>◌,
}
use xete_programs.Chain.Types.{Pubkey, AccountInfo, Ledger, Runtime}
use xete_programs.Chain.Decode.{arr32}
use xete_programs.Swap.Ids.{token_metadata_id}
use xete_programs.Swap.Layout.{
  s_maker, s_give_mint, s_give_amt, s_want_mint, s_want_amt, s_taker, s_expiry, s_status, s_bump,
  s_royalty_mode, s_maker_pct, swap_len, status_open, bps_denom, royalty_none, royalty_maker,
  royalty_taker, royalty_split,
}
use xete_programs.Swap.Checks.{any_nonzero, require_token_account}
use xete_programs.Swap.Royalty.{parse_tm_royalty}

-- What `load_fill_state` returns of a resting swap.
pub record FillState : Type 0 where
  pub maker : Pubkey
  pub give_amount : ℕ
  pub want_amount : ℕ
  pub bump : ℕ
  pub royalty_mode : ℕ
  pub maker_pct : ℕ

unfoldable pub load_fill_state :
    Runtime → AccountInfo → (give_key want_key taker_key : Pubkey) → Ledger → Result FillState
load_fill_state rt state give_key want_key taker_key l = do
  let st = (l state.key).contents
  fail_if (not (length st == swap_len) || not (get_or st s_status 0 == status_open))
      invalid_account_data
  fail_if
      (differs (slice st s_give_mint (s_give_mint + 32)) give_key
        || differs (slice st s_want_mint (s_want_mint + 32)) want_key)
      invalid_argument
  let expiry = i64_from_le (slice st s_expiry (s_expiry + 8))
  now ← rt.unix_timestamp
  fail_if (leb_ℤ expiry now) invalid_argument
  let named = slice st s_taker (s_taker + 32)
  fail_if (any_nonzero named && differs named taker_key) invalid_argument
  maker ← arr32 (slice st s_maker (s_maker + 32))
  ok (record {
    maker = maker;
    give_amount = from_le (slice st s_give_amt (s_give_amt + 8));
    want_amount = from_le (slice st s_want_amt (s_want_amt + 8));
    bump = get_or st s_bump 0;
    royalty_mode = get_or st s_royalty_mode 0;
    maker_pct = get_or st s_maker_pct 0;
  })

-- b"metadata"
abbrev pub metadata_seed : Bytes
metadata_seed = b'm' ∷ b'e' ∷ b't' ∷ b'a' ∷ b'd' ∷ b'a' ∷ b't' ∷ b'a' ∷ []

unfoldable pub verify_metadata_pda :
    Runtime → (metadata mint : AccountInfo) → Ledger → Result (Unit {0})
verify_metadata_pda rt metadata mint l = do
  fail_if (differs (l metadata.key).owner token_metadata_id) illegal_owner
  fail_if
      (differs metadata.key
        (rt.find_program_address (metadata_seed ∷ token_metadata_id ∷ mint.key ∷ [])
          token_metadata_id).0)
      invalid_argument

-- `(amount as u128 * bps as u128 / BPS_DENOM as u128) as u64`
abbrev pub bps_of : ℕ → ℕ → ℕ
bps_of amount bps = as_u64 (amount * bps / bps_denom)

-- `match royalty_mode { .. }`
unfoldable pub maker_share_of : (royalty_mode maker_pct royalty : ℕ) → Result ℕ
maker_share_of royalty_mode maker_pct royalty =
    if royalty_mode == royalty_maker
    then ok royalty
    else if royalty_mode == royalty_taker
    then ok 0
    else if royalty_mode == royalty_split
    then (if ltb 100 maker_pct
        then err invalid_argument
        else ok (as_u64 (royalty * maker_pct / 100)))
    else err invalid_argument

-- Each creator's account must be the want-mint account of that creator.
unfoldable pub check_creator_atas :
    Pubkey → List (Pubkey × ℕ) → List AccountInfo → Ledger → Result (Unit {0})
check_creator_atas mint [] atas l = ok tt
check_creator_atas mint (c ∷ cs) [] l = ok tt
check_creator_atas mint ((creator, _) ∷ cs) (ca ∷ atas) l = do
  require_token_account ca mint creator l
  check_creator_atas mint cs atas l

abbrev pub shares_of : List (Pubkey × ℕ) → List ℕ
shares_of [] = []
shares_of ((_, s) ∷ r) = s ∷ shares_of r

-- The royalty, the maker's part of it, and the shares of the creators.
pub record RoyaltyTerms : Type 0 where
  pub royalty : ℕ
  pub maker_share : ℕ
  pub shares : List ℕ

-- The terms of a sale with a royalty mode, from the asset's metadata.
unfoldable pub asset_terms :
    Runtime
    → (want_mint give_mint md : AccountInfo) → List AccountInfo
    → (want_amount royalty_mode maker_pct : ℕ) → Ledger
    → Result RoyaltyTerms
asset_terms rt want_mint give_mint md creator_atas want_amount royalty_mode maker_pct l = do
  verify_metadata_pda rt md give_mint l
  tm ← parse_tm_royalty (l md.key).contents
  fail_if (tm.bps == 0 || tm.count == 0) invalid_argument
  let entries = take tm.count tm.creators
  fail_if (not (sum (shares_of entries) == 100)) invalid_argument
  let royalty = bps_of want_amount tm.bps
  maker_share ← maker_share_of royalty_mode maker_pct royalty
  fail_if (not (length creator_atas == tm.count)) not_enough_account_keys
  check_creator_atas want_mint.key entries creator_atas l
  ok (record { royalty = royalty; maker_share = maker_share; shares = shares_of entries })

-- The royalty of a sale: nothing without a royalty mode.
unfoldable pub resolve_royalty :
    Runtime
    → (want_mint give_mint : AccountInfo) → Option AccountInfo
    → List AccountInfo
    → (want_amount royalty_mode maker_pct : ℕ) → Ledger
    → Result RoyaltyTerms
unfolding asset_terms
resolve_royalty rt want_mint give_mint none creator_atas want_amount royalty_mode maker_pct l =
    if royalty_mode == royalty_none
    then ok (record { royalty = 0; maker_share = 0; shares = [] })
    else err not_enough_account_keys
resolve_royalty rt want_mint give_mint (some md) creator_atas want_amount royalty_mode maker_pct l =
    if royalty_mode == royalty_none
    then ok (record { royalty = 0; maker_share = 0; shares = [] })
    else asset_terms rt want_mint give_mint md creator_atas want_amount royalty_mode maker_pct l

-- `a - b` under `overflow-checks`, `a.checked_sub(b)` and `a.checked_add(b)` with their errors.
unfoldable pub sub_or : ProgramError → ℕ → ℕ → Result ℕ
sub_or e a b = if ltb a b then err e else ok (a - b)

unfoldable pub add_or : ProgramError → ℕ → ℕ → Result ℕ
add_or e a b = if leb u64_mod (a + b) then err e else ok (a + b)
