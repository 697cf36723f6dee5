-- ===== src/Swap/Basket/Released.antt =====
-- The give entries of a basket leave their vaults: each in full, in the stored order
-- (swap/src/basket.rs).
use xete_programs.Base.{
  subst, arith, ℕ, suc, ◌≡◌, ◌≢◌, refl, sym, ap, ◌∙◌, List, [], ◌∷◌, Option, none, some, Bytes,
  differs-false,
}
use xete_programs.Chain.Result.{ok}
use xete_programs.Chain.Types.{Pubkey, Ledger, Runtime, World, Effect, cpi}
use xete_programs.Chain.Action.{after_bind, after_lift, after_reads, after_fail_if}
use xete_programs.Chain.Ran.{Did}
use xete_programs.Swap.Checks.Facts.{
  IsTokenAccount, HasDecimals, require_token_account-inv, mint_decimals-inv,
}
use xete_programs.Chain.Keeps.{Kept, KeepsData, Kept-trans}
use xete_programs.Swap.Cpi.{transfer_call, close_call}
use xete_programs.Swap.Cpi.Calls.{transfer_and_close-Did, token_transfer-Kept, token_close-Kept}
use xete_programs.Swap.Basket.Checks.{Entry, bvault_seed}
use xete_programs.Swap.Basket.Loaded.{give_entry, read_entry-at, check_bvault-ok}
use xete_programs.Swap.Basket.Legs.{Basket, GiveLeg, check_holder, release_leg, release_legs}

module _ (rt : Runtime) (program_id : Pubkey) (b : Basket) (seeds : List Bytes) where
  -- The two calls that release entry `i` of the data `s`: the whole amount out of the vault, and the
  -- empty vault closed in the maker's favour.
  abbrev pub leg_calls : Bytes → (decimals i : ℕ) → GiveLeg → List Effect
  leg_calls s decimals i g =
      cpi (
        transfer_call b.token_prog g.vault g.mint g.holder b.swap (give_entry s i).amount decimals
          (some seeds))
      ∷ cpi (close_call b.token_prog g.vault b.maker b.swap seeds)
      ∷ []

  -- One leg of entry `i` of the data `s`, on the ledger `at`: of the entry's mint, with the decimals of
  -- that mint, out of the vault of the entry's index, and, where an owner is asked for, to a token account
  -- of that owner.
  abbrev pub IsLeg : Option Pubkey → Bytes → (at : Ledger) → (decimals i : ℕ) → GiveLeg → Type 0
  IsLeg none s at decimals i g =
      ((give_entry s i).mint ≡ g.mint.key)
      × ((rt.find_program_address (bvault_seed ∷ b.maker.key ∷ b.nonce ∷ (i ∷ []) ∷ [])
            program_id).0
          ≡ g.vault.key)
      × HasDecimals g.mint decimals at
  IsLeg (some owner) s at decimals i g =
      ((give_entry s i).mint ≡ g.mint.key)
      × ((rt.find_program_address (bvault_seed ∷ b.maker.key ∷ b.nonce ∷ (i ∷ []) ∷ [])
            program_id).0
          ≡ g.vault.key)
      × HasDecimals g.mint decimals at
      × IsTokenAccount g.holder g.mint.key owner at

  -- The entries of `s` from `i` on, released in order from the world `w` to the world `w'`: each leg is
  -- checked on the ledger that the calls before it left, and these calls are all that is done.
  abbrev pub Releases : Option Pubkey → Bytes → ℕ → List GiveLeg → (w w' : World) → Type 0
  Releases owner s i [] w w' = w' ≡ w
  Releases owner s i (g ∷ gs) w w' =
      (decimals : ℕ) × (v : World) × IsLeg owner s w.ledger decimals i g
      × Did rt (leg_calls s decimals i g) w v
      × Releases owner s (suc i) gs v w'

  check_holder-IsLeg :
      (owner : Option Pubkey) (s : Bytes) (at : Ledger) (decimals i : ℕ) (g : GiveLeg)
      → (give_entry s i).mint ≡ g.mint.key
      → (rt.find_program_address (bvault_seed ∷ b.maker.key ∷ b.nonce ∷ (i ∷ []) ∷ []) program_id).0
        ≡ g.vault.key
      → HasDecimals g.mint decimals at
      → check_holder owner g at ≡ ok tt
      → IsLeg owner s at decimals i g
  unfolding check_holder
  check_holder-IsLeg none s at decimals i g mint vault dec h = (mint, vault, dec)
  check_holder-IsLeg (some owner) s at decimals i g mint vault dec h =
      (mint, vault, dec, require_token_account-inv g.holder g.mint.key owner at h)

  module _ (keep : KeepsData rt program_id) (foreign : b.token_prog.key ≢ program_id)
      (owner : Option Pubkey) where
    release_leg-inv :
        (i : ℕ) (g : GiveLeg) (w : World) {x : Unit {0} × World}
        → (w.ledger b.swap.key).owner ≡ program_id
        → release_leg rt program_id b seeds owner i g w ≡ ok x
        → (decimals : ℕ) × IsLeg owner (w.ledger b.swap.key).contents w.ledger decimals i g
          × Did rt (leg_calls (w.ledger b.swap.key).contents decimals i g) w x.1
          × Kept program_id b.swap.key w.ledger x.1.ledger
    unfolding release_leg
    release_leg-inv i g w {x} own h = after_reads _ _ w h λ e ee h1.
        after_fail_if _ _ _ w h1 λ c1 h2. after_reads _ _ w h2 λ u eh h3.
          after_lift _ _ w h3 λ pda ev h4. after_reads _ _ w h4 λ decimals ed h5.
            after_bind _ _ w h5 λ u2 w1 et h6.
              let is_entry = read_entry-at b.swap _ w.ledger ee in
              let s = (w.ledger b.swap.key).contents in
              let calls =
                transfer_and_close-Did rt b.token_prog g.vault g.mint g.holder b.swap b.maker
                  e.amount decimals seeds w w1 et refl h6 in
              let first =
                token_transfer-Kept rt program_id keep b.token_prog foreign b.swap.key g.vault
                  g.mint g.holder b.swap e.amount decimals _ w own et in
              let second =
                token_close-Kept rt program_id keep b.token_prog foreign b.swap.key g.vault b.maker
                  b.swap seeds w1 first.1 h6 in
              (
                decimals,
                check_holder-IsLeg owner s w.ledger decimals i g
                    (sym (ap (λ (v : Entry). v.mint) is_entry) ∙ differs-false _ _ c1)
                    (check_bvault-ok rt program_id b.maker.key b.nonce i g.vault ev)
                    (mint_decimals-inv g.mint w.ledger ed) eh,
                subst
                    (λ (v : Entry).
                      Did rt
                        (cpi (
                            transfer_call b.token_prog g.vault g.mint g.holder b.swap v.amount
                              decimals (some seeds))
                          ∷ cpi (close_call b.token_prog g.vault b.maker b.swap seeds)
                          ∷ [])
                        w x.1)
                    is_entry calls,
                Kept-trans program_id b.swap.key w.ledger w1.ledger x.1.ledger first second,
              )

    pub release_legs-Releases :
        (gs : List GiveLeg) (i : ℕ) (w : World) {x : Unit {0} × World}
        → (w.ledger b.swap.key).owner ≡ program_id
        → release_legs rt program_id b seeds owner i gs w ≡ ok x
        → Releases owner (w.ledger b.swap.key).contents i gs w x.1
    unfolding release_legs
    release_legs-Releases [] i w {x} own h = let end : x.1 ≡ w = ground (arith, h) in end
    release_legs-Releases (g ∷ gs) i w {x} own h = after_bind _ _ w h λ u w1 eg h1.
        let (decimals, is_leg, called, kept) = release_leg-inv i g w own eg in
        let all = release_legs-Releases gs (suc i) w1 kept.1 h1 in
        (decimals, w1, is_leg, called, subst (λ s. Releases owner s (suc i) gs w1 x.1) kept.0 all)
