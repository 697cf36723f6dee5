-- ===== src/Swap/Escrowless.antt =====
-- Escrowless listings, tags 26 to 37: the asset stays in the maker's wallet under a delegate. Here
-- is what the handlers share, and the clean-up after the deadline (swap/src/escrowless.rs).
pub mod Checks
pub mod Token
pub mod Pnft
pub mod Core
pub mod Filled
pub mod Loaded
pub mod Expired
use xete_programs.Base.{
  ℕ, not, ◌||◌, ◌==◌, ltb, List, [], ◌∷◌, some, Bytes, length, slice, get_or, differs,
}
use xete_programs.Chain.Result.{
  Result, ok, err, invalid_argument, illegal_owner, not_enough_account_keys,
  invalid_instruction_data, missing_required_signature,
}
use xete_programs.Chain.Types.{Pubkey, AccountInfo, Runtime}
use xete_programs.Chain.Action.{Action, lift, reads, fail_if, fail_when, ◌>>=◌, ◌>>◌}
use xete_programs.Swap.Layout.{swap_len, royalty_split}
use xete_programs.Swap.Cpi.{create_pda, close}
use xete_programs.Swap.Slot.{listing_seed, derive_address}
use Checks.{load_expired_listing}

-- `d[120]` and `d[121]`: who pays the royalty, and the maker's share of a split.
unfoldable pub check_royalty_terms : Bytes → Action (Unit {0})
check_royalty_terms d =
    fail_if (ltb royalty_split (get_or d 120 0) || ltb 100 (get_or d 121 0))
      invalid_instruction_data

-- `listing`'s account, at the address of this maker and nonce.
unfoldable pub create_listing :
    Runtime
    → Pubkey
    → (maker listing system : AccountInfo) → (nonce : Bytes) → ℕ
    → Action (Unit {0})
create_listing rt program_id maker listing system nonce bump =
    create_pda rt maker listing system swap_len program_id
      (listing_seed ∷ maker.key ∷ nonce ∷ (bump ∷ []) ∷ [])

-- The seeds that sign for a listing.
abbrev pub listing_seeds : (maker nonce : Bytes) → ℕ → List Bytes
listing_seeds maker nonce bump = listing_seed ∷ maker ∷ nonce ∷ (bump ∷ []) ∷ []

pub record ExpireListingAccounts : Type 0 where
  pub caller : AccountInfo
  pub listing : AccountInfo
  pub maker : AccountInfo

unfoldable pub expire_listing_accounts : List AccountInfo → Result ExpireListingAccounts
expire_listing_accounts (a0 ∷ a1 ∷ a2 ∷ []) = ok (record { caller = a0; listing = a1; maker = a2 })
expire_listing_accounts _ = err not_enough_account_keys

unfoldable pub expire_listing : Runtime → Pubkey → List AccountInfo → Bytes → Action (Unit {0})
expire_listing rt program_id accounts d = do
  fail_if (not (length d == 32)) invalid_instruction_data
  let nonce = slice d 0 32
  a ← lift (expire_listing_accounts accounts)
  fail_if (not a.caller.is_signer) missing_required_signature
  fail_when (λ l. differs (l a.listing.key).owner program_id) illegal_owner
  maker ← reads (load_expired_listing rt a.listing)
  fail_if (differs a.maker.key maker) invalid_argument
  pda ← lift (derive_address rt program_id listing_seed a.listing maker nonce)
  close a.listing a.maker

-- The same body under its own tag.
unfoldable pub expire_listing_pnft : Runtime → Pubkey → List AccountInfo → Bytes → Action (Unit {0})
unfolding expire_listing
expire_listing_pnft rt program_id accounts d = expire_listing rt program_id accounts d
