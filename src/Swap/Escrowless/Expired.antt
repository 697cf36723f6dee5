-- ===== src/Swap/Escrowless/Expired.antt =====
-- After the deadline anybody can clear a listing away: the clean-up always goes through
-- (swap/src/escrowless.rs).
use xete_programs.Base.{
  ◌+◌, ◌<◌, ◌≡◌, sym, ap, ◌∙◌, true, false, List, [], ◌∷◌, Bytes, length, slice, get_or, not,
  differs, differs_of_eq, not_ne_of_eq,
}
use xete_programs.Base.Int.{ℤ, ◌≤ℤ◌}
use xete_programs.Base.Words.{u64_mod}
use xete_programs.Chain.Result.{ok}
use xete_programs.Chain.Types.{Pubkey, AccountInfo, Ledger, Runtime, World}
use xete_programs.Chain.Action.{lift-ok, reads-ok, fail_if-ok, fail_when-ok}
use xete_programs.Chain.Sweep.{swept, sweep_of_fits}
use xete_programs.Swap.Cpi.{close}
use xete_programs.Swap.Layout.{s_maker, s_status, swap_len, status_open}
use xete_programs.Swap.Spl.Loaded.{stored_expiry}
use xete_programs.Swap.Slot.{listing_seed}
use xete_programs.Swap.Escrowless.Loaded.{load_expired_listing-ok, derive_address-ok}
use xete_programs.Swap.Escrowless.{expire_listing, ExpireListingAccounts, expire_listing_accounts}

-- An open listing of `maker` past its deadline, at the address of the nonce, as the ledger has it.
pub record IsLapsed (rt : Runtime) (program_id : Pubkey) (a : ExpireListingAccounts) (nonce : Bytes)
    (l : Ledger) : Type 0 where
  pub signed : a.caller.is_signer ≡ true
  pub owned : (l a.listing.key).owner ≡ program_id
  pub sized : length (l a.listing.key).contents ≡ swap_len
  pub opened : get_or (l a.listing.key).contents s_status 0 ≡ status_open
  pub now : ℤ
  pub clock : rt.unix_timestamp ≡ ok now
  pub late : stored_expiry (l a.listing.key).contents ≤ℤ now
  pub maker : a.maker.key ≡ slice (l a.listing.key).contents s_maker (s_maker + 32)
  pub address :
      (rt.find_program_address (listing_seed ∷ a.maker.key ∷ nonce ∷ []) program_id).0
      ≡ a.listing.key
  pub fits : (l a.maker.key).lamports + (l a.listing.key).lamports < u64_mod

-- The clean-up of an open listing goes through, whoever signs it, when the listing stands at the
-- address of its maker and the nonce, its expiry has passed and the maker's lamports do not
-- overflow: it sweeps the listing into the maker's account and calls no other program.
pub expire_listing_succeeds :
    (rt : Runtime) (program_id : Pubkey) (accounts : List AccountInfo) (d : Bytes)
    (a : ExpireListingAccounts) (w : World)
    → expire_listing_accounts accounts ≡ ok a
    → length d ≡ 32
    → IsLapsed rt program_id a (slice d 0 32) w.ledger
    → expire_listing rt program_id accounts d w
      ≡ ok (tt, record w { ledger = swept a.listing.key a.maker.key w.ledger })
unfolding expire_listing close
expire_listing_succeeds rt program_id accounts d a w ea size g =
    let s = (w.ledger a.listing.key).contents in
    let maker = slice s s_maker (s_maker + 32) in
    let same : differs a.maker.key maker ≡ false = differs_of_eq _ _ g.maker in
    let derived = derive_address-ok rt program_id listing_seed a.listing maker (slice d 0 32) (
      ap (λ k. (rt.find_program_address (listing_seed ∷ k ∷ slice d 0 32 ∷ []) program_id).0)
        (sym g.maker)
      ∙ g.address) in
    fail_if-ok _ _ _ w (not_ne_of_eq _ _ size)
    ∙ (lift-ok _ _ w a ea
        ∙ (fail_if-ok _ _ _ w (ap not g.signed)
            ∙ (fail_when-ok _ _ _ w (differs_of_eq _ _ g.owned)
                ∙ (reads-ok _ _ w maker (
                      load_expired_listing-ok rt a.listing w.ledger g.now g.sized g.opened g.clock
                        g.late)
                    ∙ (fail_if-ok _ _ _ w same
                        ∙ (lift-ok _ _ w _ derived ∙ sweep_of_fits a.listing a.maker w g.fits))))))
