-- ===== src/Swap/Offer/Checks.antt =====
-- The parts of the offer handlers that read accounts (swap/src/offer.rs).
use xete_programs.Base.{ℕ, ◌+◌, not, ◌||◌, ◌==◌, [], ◌∷◌, Bytes, length, slice, get_or, differs}
use xete_programs.Base.Int.{leb_ℤ, ltb_ℤ}
use xete_programs.Base.Words.{from_le, i64_from_le}
use xete_programs.Chain.Result.{
  Result, ok, ProgramError, invalid_argument, invalid_account_data, illegal_owner, invalid_seeds,
  fail_if, ◌>>=◌, ◌>>◌,
}
use xete_programs.Chain.Types.{Pubkey, AccountInfo, Ledger, Runtime}
use xete_programs.Swap.Spl.Checks.{swap_seed, vault_seed}
use xete_programs.Swap.Layout.{
  s_maker, s_give_mint, s_give_amt, s_want_mint, s_expiry, s_status, s_bump, swap_len, status_open,
  o_offerer, o_swap, o_want_mint, o_want_amt, o_give_mint, o_give_amt, o_expiry, o_status, o_bump,
  offer_len,
}

-- b"offer"
abbrev pub offer_seed : Bytes
offer_seed = b'o' ∷ b'f' ∷ b'f' ∷ b'e' ∷ b'r' ∷ []

-- b"ovault"
abbrev pub ovault_seed : Bytes
ovault_seed = b'o' ∷ b'v' ∷ b'a' ∷ b'u' ∷ b'l' ∷ b't' ∷ []

-- What a bid is for: the goods of the live listing.
pub record Goods : Type 0 where
  pub give_mint : Bytes
  pub give_amount : ℕ

unfoldable pub load_goods : (swap want_mint : AccountInfo) → Ledger → Result Goods
load_goods swap want_mint l = do
  let s = (l swap.key).contents
  fail_if (not (length s == swap_len) || not (get_or s s_status 0 == status_open))
      invalid_account_data
  fail_if (differs (slice s s_want_mint (s_want_mint + 32)) want_mint.key) invalid_argument
  ok (record {
    give_mint = slice s s_give_mint (s_give_mint + 32);
    give_amount = from_le (slice s s_give_amt (s_give_amt + 8));
  })

-- The listing, as the maker who accepts a bid finds it.
pub record Listing : Type 0 where
  pub give_amount : ℕ
  pub bump : ℕ

unfoldable pub load_listing :
    Runtime → (swap maker give_mint want_mint : AccountInfo) → Ledger → Result Listing
load_listing rt swap maker give_mint want_mint l = do
  let s = (l swap.key).contents
  fail_if (not (length s == swap_len) || not (get_or s s_status 0 == status_open))
      invalid_account_data
  fail_if (differs (slice s s_maker (s_maker + 32)) maker.key) illegal_owner
  fail_if
      (differs (slice s s_give_mint (s_give_mint + 32)) give_mint.key
        || differs (slice s s_want_mint (s_want_mint + 32)) want_mint.key)
      invalid_argument
  now ← rt.unix_timestamp
  fail_if (leb_ℤ (i64_from_le (slice s s_expiry (s_expiry + 8))) now) invalid_argument
  ok (record {
    give_amount = from_le (slice s s_give_amt (s_give_amt + 8));
    bump = get_or s s_bump 0;
  })

-- The bid that is accepted.
pub record Bid : Type 0 where
  pub want_amount : ℕ
  pub bump : ℕ
  pub give_mint : Bytes
  pub give_amount : ℕ

unfoldable pub load_bid :
    Runtime → (offer swap offerer want_mint : AccountInfo) → Ledger → Result Bid
load_bid rt offer swap offerer want_mint l = do
  let o = (l offer.key).contents
  fail_if (not (length o == offer_len) || not (get_or o o_status 0 == status_open))
      invalid_account_data
  fail_if (differs (slice o o_swap (o_swap + 32)) swap.key) invalid_argument
  fail_if
      (differs (slice o o_offerer (o_offerer + 32)) offerer.key
        || differs (slice o o_want_mint (o_want_mint + 32)) want_mint.key)
      invalid_argument
  now ← rt.unix_timestamp
  fail_if (leb_ℤ (i64_from_le (slice o o_expiry (o_expiry + 8))) now) invalid_argument
  ok (record {
    want_amount = from_le (slice o o_want_amt (o_want_amt + 8));
    bump = get_or o o_bump 0;
    give_mint = slice o o_give_mint (o_give_mint + 32);
    give_amount = from_le (slice o o_give_amt (o_give_amt + 8));
  })

-- What a refund of a bid needs of the offer account.
pub record BidRefund : Type 0 where
  pub want_amount : ℕ
  pub bump : ℕ

-- Open, by this offerer (else the given error), of this mint.
unfoldable pub load_refund :
    ProgramError → (offer offerer want_mint : AccountInfo) → Ledger → Result BidRefund
load_refund stranger offer offerer want_mint l = do
  let o = (l offer.key).contents
  fail_if (not (length o == offer_len) || not (get_or o o_status 0 == status_open))
      invalid_account_data
  fail_if (differs (slice o o_offerer (o_offerer + 32)) offerer.key) stranger
  fail_if (differs (slice o o_want_mint (o_want_mint + 32)) want_mint.key) invalid_argument
  ok (record {
    want_amount = from_le (slice o o_want_amt (o_want_amt + 8));
    bump = get_or o o_bump 0;
  })

-- `expire_offer` also wants the bid's time to be over.
unfoldable pub check_offer_expired : Runtime → AccountInfo → Ledger → Result (Unit {0})
check_offer_expired rt offer l = do
  now ← rt.unix_timestamp
  fail_if (ltb_ℤ now (i64_from_le (slice (l offer.key).contents o_expiry (o_expiry + 8))))
      invalid_argument

-- The offer and its vault stand at the offerer's addresses.
unfoldable pub verify_offer_pdas :
    Runtime → Pubkey → (offer ovault offerer : AccountInfo) → Bytes → Result (Unit {0})
verify_offer_pdas rt program_id offer ovault offerer ononce =
    fail_if
      (differs (rt.find_program_address (offer_seed ∷ offerer.key ∷ ononce ∷ []) program_id).0
          offer.key
        || differs (rt.find_program_address (ovault_seed ∷ offerer.key ∷ ononce ∷ []) program_id).0
            ovault.key)
      invalid_seeds

-- The swap and its vault stand at the maker's addresses, as both are derived anew.
unfoldable pub verify_listing_pdas :
    Runtime → Pubkey → (swap vault maker : AccountInfo) → Bytes → Result (Unit {0})
verify_listing_pdas rt program_id swap vault maker snonce =
    fail_if
      (differs (rt.find_program_address (swap_seed ∷ maker.key ∷ snonce ∷ []) program_id).0 swap.key
        || differs (rt.find_program_address (vault_seed ∷ maker.key ∷ snonce ∷ []) program_id).0
            vault.key)
      invalid_seeds
