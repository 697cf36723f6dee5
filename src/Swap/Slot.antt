-- ===== src/Swap/Slot.antt =====
-- What the handlers of NFTs and listings share: the posting in a payload, the state account's
-- address and fields, the delist fee, and the collection of a Core asset (swap/src/pnft.rs,
-- swap/src/mcore.rs, swap/src/escrowless.rs).
pub mod Charged
pub mod Addressed
use xete_programs.Base.{
  ℕ, ltb, List, [], ◌∷◌, Option, none, some, Bytes, if◌then◌else◌, slice, differs,
}
use xete_programs.Base.Int.{ℤ}
use xete_programs.Base.Words.{from_le, u64_le, i64_from_le, i64_le}
use xete_programs.Chain.Result.{Result, ok, err, invalid_argument, illegal_owner, invalid_seeds}
use xete_programs.Chain.Types.{Pubkey, AccountInfo, Ledger, Runtime}
use xete_programs.Chain.Action.{Action, reads, fail_if, when, ◌>>=◌, ◌>>◌}
use xete_programs.Swap.Layout.{
  s_maker, s_give_mint, s_give_amt, s_want_mint, s_want_amt, s_taker, s_terms, s_expiry, s_status,
  s_bump, s_nonce, s_royalty_mode, s_maker_pct, status_open,
}
use xete_programs.Swap.Cpi.{pay_lamports}
use xete_programs.Swap.Events.{PostCreated}
use xete_programs.Swap.Config.Policy.{read_config}

-- b"listing"
abbrev pub listing_seed : Bytes
listing_seed = b'l' ∷ b'i' ∷ b's' ∷ b't' ∷ b'i' ∷ b'n' ∷ b'g' ∷ []

-- The first 120 bytes of a payload that posts an asset.
pub record Posting : Type 0 where
  pub nonce : Bytes
  pub give_amount : ℕ
  pub want_amount : ℕ
  pub terms : Bytes
  pub expiry : ℤ
  pub taker : Bytes

unfoldable pub posting : Bytes → Posting
posting d = record {
  nonce = slice d 0 32;
  give_amount = from_le (slice d 32 40);
  want_amount = from_le (slice d 40 48);
  terms = slice d 48 80;
  expiry = i64_from_le (slice d 80 88);
  taker = slice d 88 120;
}

unfoldable pub posting_event : Posting → ℕ → (maker post give want : Pubkey) → PostCreated
posting_event p kind maker post give want = record {
  kind = kind;
  maker = maker;
  post = post;
  give = give;
  want = want;
  give_amount = p.give_amount;
  want_amount = p.want_amount;
  expiry = p.expiry;
  nonce = p.nonce;
}

-- The state of an escrowed asset, whose amount is one.
unfoldable pub asset_fields : Posting → (maker give want : Pubkey) → ℕ → List (ℕ × Bytes)
asset_fields p maker give want bump =
    (s_maker, maker)
    ∷ (s_give_mint, give)
    ∷ (s_give_amt, u64_le 1)
    ∷ (s_want_mint, want)
    ∷ (s_want_amt, u64_le p.want_amount)
    ∷ (s_taker, p.taker)
    ∷ (s_terms, p.terms)
    ∷ (s_expiry, i64_le p.expiry)
    ∷ (s_status, status_open ∷ [])
    ∷ (s_bump, bump ∷ [])
    ∷ (s_nonce, p.nonce)
    ∷ []

-- The state of a listing with its royalty terms.
unfoldable pub listing_fields :
    Posting
    → (maker give want : Pubkey) → (give_amount royalty_mode maker_pct bump : ℕ) → List (ℕ × Bytes)
listing_fields p maker give want give_amount royalty_mode maker_pct bump =
    (s_maker, maker)
    ∷ (s_give_mint, give)
    ∷ (s_give_amt, u64_le give_amount)
    ∷ (s_royalty_mode, royalty_mode ∷ [])
    ∷ (s_maker_pct, maker_pct ∷ [])
    ∷ (s_want_mint, want)
    ∷ (s_want_amt, u64_le p.want_amount)
    ∷ (s_taker, p.taker)
    ∷ (s_terms, p.terms)
    ∷ (s_expiry, i64_le p.expiry)
    ∷ (s_status, status_open ∷ [])
    ∷ (s_bump, bump ∷ [])
    ∷ (s_nonce, p.nonce)
    ∷ []

-- `create_program_address(..)` with the stored bump, compared with the state account's key.
unfoldable pub check_address :
    Runtime → Pubkey → (seed : Bytes) → AccountInfo → (maker nonce : Bytes) → ℕ → Result Pubkey
check_address rt program_id seed slot maker nonce bump =
    elim (rt.create_program_address (seed ∷ maker ∷ nonce ∷ (bump ∷ []) ∷ []) program_id) [
      | none ↦ err invalid_seeds
      | some pda ↦ if differs pda slot.key then err invalid_seeds else ok pda
    ]

-- `find_program_address(..)` compared with the state account's key.
unfoldable pub derive_address :
    Runtime → Pubkey → (seed : Bytes) → AccountInfo → (maker nonce : Bytes) → Result (Pubkey × ℕ)
derive_address rt program_id seed slot maker nonce =
    let pda = rt.find_program_address (seed ∷ maker ∷ nonce ∷ []) program_id in
    if differs pda.0 slot.key then err invalid_seeds else ok pda

-- The flat fee of a delisting, when the policy has one.
unfoldable pub pay_delist_fee :
    Runtime → Pubkey → (config maker fee_wallet system : AccountInfo) → Action (Unit {0})
pay_delist_fee rt program_id config maker fee_wallet system = do
  policy ← reads (read_config rt program_id config)
  when (ltb 0 policy.delist_fee) (do
    fail_if (differs fee_wallet.key policy.fee_wallet) invalid_argument
    pay_lamports rt maker fee_wallet system policy.delist_fee)

-- The collection of a Core asset: the appended account, which the core program must own, or the core
-- program itself as the sign of none.
unfoldable pub resolve_collection : AccountInfo → Option AccountInfo → Ledger → Result AccountInfo
resolve_collection core none l = ok core
resolve_collection core (some c) l =
    if differs c.key core.key
    then (if differs (l c.key).owner core.key then err illegal_owner else ok c)
    else ok core
