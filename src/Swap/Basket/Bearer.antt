-- ===== src/Swap/Basket/Bearer.antt =====
-- A bearer basket: claimed by the key whose hash it stores, and by nothing else (swap/src/basket.rs).
use xete_programs.Base.{
  ◌+◌, ◌*◌, ◌≡◌, ◌≢◌, sym, ap, ◌∙◌, subst, true, List, [], ◌∷◌, none, Bytes, length, get_or,
  differs-false, slice, arith, eq_of_not_ne,
}
use xete_programs.Chain.Result.{ok}
use xete_programs.Chain.Types.{Pubkey, AccountInfo, Runtime, World}
use xete_programs.Chain.Action.{after_bind, after_lift, after_reads, after_fail_if, after_fail_when}
use xete_programs.Chain.Keeps.{KeepsData}
use xete_programs.Chain.Sweep.{swept, sweep-inv}
use xete_programs.Swap.Layout.{
  b_maker, b_claim_auth, b_auth_mode, b_give_count, b_bump, auth_bearer,
}
use xete_programs.Swap.Cpi.{close}
use xete_programs.Swap.Basket.Checks.{BasketState, basket_state, basket_seed}
use xete_programs.Swap.Slot.Addressed.{IsAddressed, check_address-IsAddressed}
use xete_programs.Swap.Basket.Legs.{give_legs}
use xete_programs.Swap.Basket.Loaded.{IsOpen, load_claim_basket-bearer}
use xete_programs.Swap.Basket.Released.{Releases, release_legs-Releases}
use xete_programs.Swap.Basket.{
  basket_seeds, ClaimBearerAccounts, claim_bearer_accounts, claim_bearer,
}

-- What a claim has checked and released, of which `s` is the basket's data before.
abbrev pub Claims :
    Runtime → Pubkey → ClaimBearerAccounts → (nonce s : Bytes) → (w w' : World) → Type 0
Claims rt program_id a nonce s w w' =
    (a.payer.is_signer ≡ true)
    × (a.bearer.is_signer ≡ true)
    × IsOpen s
    × (get_or s b_auth_mode 0 ≡ auth_bearer)
    × (slice s b_claim_auth (b_claim_auth + 32) ≡ rt.hashv (a.bearer.key ∷ []))
    × (a.maker.key ≡ slice s b_maker (b_maker + 32))
    × (length a.legs ≡ get_or s b_give_count 0 * 3)
    × IsAddressed rt program_id basket_seed a.swap.key a.maker.key nonce (get_or s b_bump 0)
    × (released : World) × Releases rt program_id
        (record { swap = a.swap; maker = a.maker; token_prog = a.token_prog; nonce = nonce })
        (basket_seeds a.maker.key nonce (get_or s b_bump 0)) none s 0 (give_legs a.legs) w released
    × (w' ≡ record released { ledger = swept a.swap.key a.maker.key released.ledger })

module _ (rt : Runtime) (program_id : Pubkey) (keep : KeepsData rt program_id) where
  -- When other programs leave the data of this program's accounts alone, and the token program
  -- that is passed is not this program: a claim that succeeds is signed by the payer and by the
  -- bearer; the basket is open, in bearer mode, at the address of its maker, the nonce and its
  -- stored bump, and stores the hash of the bearer's key; the maker's account is the stored
  -- maker's, and there are three accounts for each stored entry. For each entry, in its order,
  -- the token program that was passed, which the handler does not check, is asked by the basket's
  -- signature to transfer its stored amount of its stored mint out of the vault of its index, and
  -- to close the vault; each leg is checked on the ledger that the calls before it left. No other
  -- call is made, and on the ledger that the calls leave the basket is swept into the maker's
  -- account.
  pub claim_bearer_by_key :
      (accounts : List AccountInfo) (d : Bytes) (a : ClaimBearerAccounts) (w w' : World)
      → claim_bearer_accounts accounts ≡ ok a
      → a.token_prog.key ≢ program_id
      → claim_bearer rt program_id accounts d w ≡ ok (tt, w')
      → Claims rt program_id a (slice d 0 32) (w.ledger a.swap.key).contents w w'
  unfolding claim_bearer close basket_state
  claim_bearer_by_key accounts d a w w' ea foreign h = after_fail_if _ _ _ w h λ c1 h1.
      after_lift _ _ w h1 λ a' ea' h2. after_fail_if _ _ _ w h2 λ c2 h3.
        after_fail_when _ _ _ w h3 λ c3 h4. after_reads _ _ w h4 λ st es h5.
          after_fail_if _ _ _ w h5 λ c4 h6. after_lift _ _ w h6 λ pda ep h7.
            after_fail_if _ _ _ w h7 λ c5 h8. after_bind _ _ w h8 λ u w1 er h9.
              let same : a' ≡ a = cc in
              let (opened, bearer, hash, is_state) =
                load_claim_basket-bearer rt a'.swap a'.bearer w.ledger es in
              let all_released =
                release_legs-Releases rt program_id
                  (record {
                    swap = a'.swap;
                    maker = a'.maker;
                    token_prog = a'.token_prog;
                    nonce = slice d 0 32;
                  })
                  (basket_seeds st.maker (slice d 0 32) st.bump) keep
                  (subst (λ (v : ClaimBearerAccounts). v.token_prog.key ≢ program_id) (sym same)
                    foreign)
                  none (give_legs a'.legs) 0 w (differs-false _ _ c3) er in
              let is_maker = differs-false _ _ c4 in
              let (addressed, released) =
                subst
                  (λ (t : BasketState).
                    IsAddressed rt program_id basket_seed a'.swap.key a'.maker.key (slice d 0 32)
                      t.bump
                    × Releases rt program_id
                        (record {
                          swap = a'.swap;
                          maker = a'.maker;
                          token_prog = a'.token_prog;
                          nonce = slice d 0 32;
                        })
                        (basket_seeds a'.maker.key (slice d 0 32) t.bump) none
                        (w.ledger a'.swap.key).contents 0 (give_legs a'.legs) w w1)
                  is_state
                  (subst
                    (λ k.
                      IsAddressed rt program_id basket_seed a'.swap.key k (slice d 0 32) st.bump
                      × Releases rt program_id
                          (record {
                            swap = a'.swap;
                            maker = a'.maker;
                            token_prog = a'.token_prog;
                            nonce = slice d 0 32;
                          })
                          (basket_seeds k (slice d 0 32) st.bump) none
                          (w.ledger a'.swap.key).contents 0 (give_legs a'.legs) w w1)
                    (sym is_maker)
                    (
                      check_address-IsAddressed rt program_id basket_seed a'.swap st.maker
                          (slice d 0 32) st.bump ep,
                      all_released,
                    )) in
              subst
                (λ (v : ClaimBearerAccounts).
                  Claims rt program_id v (slice d 0 32) (w.ledger v.swap.key).contents w w')
                same
                (
                  ground (arith, c2),
                  ground (arith, c2),
                  opened,
                  bearer,
                  hash,
                  is_maker ∙ ap (λ (v : BasketState). v.maker) is_state,
                  eq_of_not_ne _ _ c5 ∙ ap (λ (v : BasketState). v.give_count * 3) is_state,
                  addressed,
                  w1,
                  released,
                  (sweep-inv a'.swap a'.maker w1 h9).0,
                )
