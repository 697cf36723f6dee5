-- ===== src/Swap/Escrowless/Filled.antt =====
-- The fill of a listing: its guards, what is paid, and the asset's way to the taker
-- (swap/src/escrowless.rs).
use xete_programs.Base.{
  ◌⊎◌, ◌==◌, refl, inl, inr, Bool-cases, eq_true, ℕ, ◌≡◌, true, List, [], ◌∷◌, Option, none, some,
  Bytes, length, slice, get_or, arith, differs-false, eq_of_not_ne,
}
use xete_programs.Base.Words.{from_le}
use xete_programs.Chain.Result.{ok, err, not_enough_account_keys}
use xete_programs.Chain.Types.{Pubkey, AccountInfo, Ledger, Runtime, World, cpi}
use xete_programs.Chain.Action.{after_bind, after_lift, after_reads, after_fail_if, after_fail_when}
use xete_programs.Chain.Ran.{Closes, sweep-Closes}
use xete_programs.Swap.Cpi.{transfer_call, close}
use xete_programs.Swap.Cpi.Calls.{token_transfer-Did}
use xete_programs.Swap.Checks.Facts.{
  IsTokenAccount, IsTokenProgram, HasDecimals, require_token_account-inv, assert_token_program-inv,
  mint_decimals-inv,
}
use xete_programs.Swap.Layout.{royalty_none}
use xete_programs.Swap.Spl.Loaded.{IsResting, load_fill_state-IsResting}
use xete_programs.Swap.Slot.Addressed.{IsAddressed, check_address-IsAddressed}
use xete_programs.Swap.Settle.Load.{FillState, load_fill_state}
use xete_programs.Swap.Settle.{Leg}
use xete_programs.Swap.Settle.Royalties.{RoyaltyPaid, pay_want_and_royalty_conserves}
use xete_programs.Swap.Slot.{listing_seed}
use xete_programs.Swap.Escrowless.{listing_seeds}
use xete_programs.Swap.Escrowless.Checks.{listing_royalty_accounts}
use xete_programs.Swap.Escrowless.Token.{FillListingAccounts, fill_listing_accounts, fill_listing}

-- The want-leg of a fill: out of the taker's account, by the taker's signature.
abbrev pub listing_leg : FillListingAccounts → (want_dec shard_seed : ℕ) → Leg
listing_leg a want_dec shard_seed = record {
  config = a.config;
  token_prog = a.token_prog;
  payer = a.taker_want;
  mint = a.want_mint;
  fee_ata = a.fee_ata;
  payee = a.maker_want;
  authority = a.taker;
  signer_seeds = none;
  decimals = want_dec;
  shard_seed = shard_seed;
}

-- What a fill that goes through has checked.
pub record ListingGuards (rt : Runtime) (program_id : Pubkey) (a : FillListingAccounts)
    (st : FillState) (d : Bytes) (l : Ledger) : Type 0 where
  pub framed : length d ≡ 48
  pub signed : a.taker.is_signer ≡ true
  pub owned : (l a.listing.key).owner ≡ program_id
  pub loaded : load_fill_state rt a.listing a.give_mint.key a.want_mint.key a.taker.key l ≡ ok st
  pub expected : st.give_amount ≡ from_le (slice d 32 40)
  pub maker : a.maker.key ≡ st.maker
  pub resting : IsResting rt a.listing a.give_mint.key a.want_mint.key a.taker.key l st
  pub addressed :
      IsAddressed rt program_id listing_seed a.listing.key st.maker (slice d 0 32) st.bump
  pub source : IsTokenAccount a.maker_give a.give_mint.key st.maker l
  pub payee : IsTokenAccount a.maker_want a.want_mint.key st.maker l
  pub want_program : IsTokenProgram rt a.token_prog a.want_mint l
  pub give_program : IsTokenProgram rt a.give_token_prog a.give_mint l

-- The account after the required ones is the give-leg's token program, then the metadata of the asset and
-- the accounts of its creators follow; without a royalty mode they are not looked at.
abbrev pub AreRoyaltyAccounts :
    (mode : ℕ) → (more : List AccountInfo) → Option AccountInfo × List AccountInfo → Type 0
AreRoyaltyAccounts mode more r =
    ((mode ≡ royalty_none) × (r ≡ (none, [])))
    ⊎ ((g metadata : AccountInfo) × (creators : List AccountInfo) × (more ≡ g ∷ metadata ∷ creators)
        × (r ≡ (some metadata, creators)))

not_enough : (r : Option AccountInfo × List AccountInfo) → err not_enough_account_keys ≡ ok r → ⊥
not_enough r h = cc

listing_royalty_accounts-inv :
    (mode : ℕ) (more : List AccountInfo) {r : Option AccountInfo × List AccountInfo}
    → listing_royalty_accounts mode more ≡ ok r
    → AreRoyaltyAccounts mode more r
unfolding listing_royalty_accounts
listing_royalty_accounts-inv mode [] {r} h = elim (Bool-cases (mode == royalty_none)) [
  | inl y ↦ inl (eq_true _ _ y, ground (arith, rw y at h))
  | inr n ↦ absurd (not_enough r (rw n at h))
]
listing_royalty_accounts-inv mode (g ∷ []) {r} h = elim (Bool-cases (mode == royalty_none)) [
  | inl y ↦ inl (eq_true _ _ y, ground (arith, rw y at h))
  | inr n ↦ absurd (not_enough r (rw n at h))
]
listing_royalty_accounts-inv mode (g ∷ metadata ∷ creators) {r} h =
    elim (Bool-cases (mode == royalty_none)) [
      | inl y ↦ inl (eq_true _ _ y, ground (arith, rw y at h))
      | inr n ↦ inr (g, metadata, creators, refl, ground (arith, rw n at h))
    ]

-- What a fill has checked, paid and left; `paid` is the world after the payments.
abbrev pub Sold : Runtime → Pubkey → List AccountInfo → Bytes → (w w' : World) → Type 0
Sold rt program_id accounts d w w' =
    (a : FillListingAccounts) × (st : FillState) × (royalty : Option AccountInfo × List AccountInfo)
    × (give_dec want_dec : ℕ) × (paid : World) × (fill_listing_accounts accounts ≡ ok a)
    × ListingGuards rt program_id a st d w.ledger
    × HasDecimals a.give_mint give_dec w.ledger
    × HasDecimals a.want_mint want_dec w.ledger
    × AreRoyaltyAccounts st.royalty_mode a.more royalty
    × RoyaltyPaid rt program_id (listing_leg a want_dec (get_or (slice d 0 32) 0 0)) st.want_amount
        (from_le (slice d 40 48)) st.royalty_mode st.maker_pct a.give_mint royalty.0 royalty.1 w
        paid
    × Closes rt
        (cpi (
            transfer_call a.give_token_prog a.maker_give a.give_mint a.taker_give a.listing
              st.give_amount give_dec (some (listing_seeds st.maker (slice d 0 32) st.bump)))
          ∷ [])
        a.listing.key a.maker.key paid w'

-- A fill of a listing that succeeds has checked the length of the payload, the taker's signature,
-- the owner, the state and the address of the listing, the amount that the taker expects, the
-- maker's token accounts, and that each token program is one of the two and owns its mint. It
-- pays as a settlement with a royalty pays, within the taker's limit; then its one other call
-- moves the stored give-amount from the maker's account to the taker's by the listing's
-- signature. On the ledger that these calls leave, the listing is swept into the maker's account.
pub fill_listing_effects :
    (rt : Runtime) (program_id : Pubkey) (accounts : List AccountInfo) (d : Bytes) (w w' : World)
    → fill_listing rt program_id accounts d w ≡ ok (tt, w')
    → Sold rt program_id accounts d w w'
unfolding fill_listing close
fill_listing_effects rt program_id accounts d w w' h = after_fail_if _ _ _ w h λ c1 h1.
    after_lift _ _ w h1 λ a ea h2. after_fail_if _ _ _ w h2 λ c2 h3.
      after_fail_when _ _ _ w h3 λ c3 h4. after_reads _ _ w h4 λ st es h5.
        after_fail_if _ _ _ w h5 λ c4 h6. after_fail_if _ _ _ w h6 λ c5 h7.
          after_lift _ _ w h7 λ pda ep h8. after_reads _ _ w h8 λ u1 esrc h9.
            after_reads _ _ w h9 λ u2 edst h10. after_reads _ _ w h10 λ give_dec eg h11.
              after_reads _ _ w h11 λ want_dec ew h12. after_reads _ _ w h12 λ u3 ewp h13.
                after_reads _ _ w h13 λ u4 egp h14. after_lift _ _ w h14 λ royalty er h15.
                  after_bind _ _ w h15 λ u5 w1 epay h16. after_bind _ _ w1 h16 λ u6 w2 egive h17.
                    let gave =
                      token_transfer-Did rt a.give_token_prog a.maker_give a.give_mint a.taker_give
                        a.listing st.give_amount give_dec _ w1 egive in
                    (
                      a,
                      st,
                      royalty,
                      give_dec,
                      want_dec,
                      w1,
                      ea,
                      record {
                        framed = eq_of_not_ne _ _ c1;
                        signed = ground (arith, c2);
                        owned = differs-false _ _ c3;
                        loaded = es;
                        expected = eq_of_not_ne _ _ c4;
                        maker = differs-false _ _ c5;
                        resting = load_fill_state-IsResting rt a.listing _ _ _ w.ledger es;
                        addressed =
                            check_address-IsAddressed rt program_id listing_seed a.listing st.maker
                              _ st.bump ep;
                        source = require_token_account-inv a.maker_give _ st.maker w.ledger esrc;
                        payee = require_token_account-inv a.maker_want _ st.maker w.ledger edst;
                        want_program =
                            assert_token_program-inv rt a.token_prog a.want_mint w.ledger ewp;
                        give_program =
                            assert_token_program-inv rt a.give_token_prog a.give_mint w.ledger egp;
                      },
                      mint_decimals-inv a.give_mint w.ledger eg,
                      mint_decimals-inv a.want_mint w.ledger ew,
                      listing_royalty_accounts-inv st.royalty_mode a.more er,
                      pay_want_and_royalty_conserves rt program_id
                          (listing_leg a want_dec (get_or (slice d 0 32) 0 0)) st.want_amount
                          (from_le (slice d 40 48)) st.royalty_mode st.maker_pct a.give_mint
                          royalty.0 royalty.1 w w1 epay,
                      sweep-Closes rt _ a.listing a.maker w1 w2 gave h17,
                    )
