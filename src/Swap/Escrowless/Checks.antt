-- ===== src/Swap/Escrowless/Checks.antt =====
-- The parts of the listings' handlers that only read (swap/src/escrowless.rs).
use xete_programs.Base.{
  ℕ, ◌+◌, not, ◌||◌, ◌==◌, List, [], ◌∷◌, Option, none, some, length, slice, get_or, if◌then◌else◌,
}
use xete_programs.Base.Int.{ltb_ℤ}
use xete_programs.Base.Words.{i64_from_le}
use xete_programs.Chain.Result.{
  Result, ok, err, invalid_argument, invalid_account_data, not_enough_account_keys, fail_if, ◌>>=◌,
  ◌>>◌,
}
use xete_programs.Chain.Types.{Pubkey, AccountInfo, Ledger, Runtime}
use xete_programs.Chain.Decode.{arr32}
use xete_programs.Swap.Layout.{s_maker, s_expiry, s_status, swap_len, status_open, royalty_none}

-- The block in `expire_listing`: open and past its deadline. The result is the maker.
unfoldable pub load_expired_listing : Runtime → (listing : AccountInfo) → Ledger → Result Pubkey
load_expired_listing rt listing l = do
  let s = (l listing.key).contents
  fail_if (not (length s == swap_len) || not (get_or s s_status 0 == status_open))
      invalid_account_data
  let expiry = i64_from_le (slice s s_expiry (s_expiry + 8))
  now ← rt.unix_timestamp
  fail_if (ltb_ℤ now expiry) invalid_argument
  arr32 (slice s s_maker (s_maker + 32))

-- `accounts[13]` and `accounts[14..]` of a fill that pays royalties, given `accounts[12..]`.
unfoldable pub listing_royalty_accounts :
    ℕ → List AccountInfo → Result (Option AccountInfo × List AccountInfo)
listing_royalty_accounts mode more = if mode == royalty_none then ok (none, []) else elim more [
  | [] ↦ err not_enough_account_keys
  | g ∷ rest ↦ elim rest [
    | [] ↦ err not_enough_account_keys
    | metadata ∷ creators ↦ ok (some metadata, creators)
  ]
]
