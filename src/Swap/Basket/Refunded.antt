-- ===== src/Swap/Basket/Refunded.antt =====
-- Cancelling and expiring a basket: who may ask, and where the assets go (swap/src/basket.rs).
use xete_programs.Base.{
  ◌+◌, ◌*◌, ◌≡◌, ◌≢◌, sym, ap, ◌∙◌, subst, List, some, Bytes, length, get_or, differs-false, slice,
  arith, eq_of_not_ne, ◌==◌, false,
}
use xete_programs.Base.Int.{ℤ, ◌≤ℤ◌}
use xete_programs.Base.Words.{i64_from_le}
use xete_programs.Chain.Result.{ok}
use xete_programs.Chain.Types.{Pubkey, AccountInfo, Runtime, World}
use xete_programs.Chain.Action.{after_bind, after_lift, after_reads, after_fail_if, after_fail_when}
use xete_programs.Chain.Keeps.{KeepsData}
use xete_programs.Chain.Sweep.{swept, sweep-inv}
use xete_programs.Swap.Layout.{b_maker, b_auth_mode, b_give_count, b_bump, b_expiry, auth_bearer}
use xete_programs.Swap.Cpi.{close}
use xete_programs.Swap.Basket.Checks.{BasketState, basket_state, basket_seed}
use xete_programs.Swap.Slot.Addressed.{IsAddressed, check_address-IsAddressed}
use xete_programs.Swap.Basket.Legs.{give_legs}
use xete_programs.Swap.Basket.Loaded.{
  IsOpen, load_expired_basket-late, load_cancel_basket-mine, load_fill_basket-normal,
}
use xete_programs.Swap.Basket.Released.{Releases, release_legs-Releases}
use xete_programs.Swap.Basket.{
  basket_seeds, CancelBasketAccounts, cancel_basket_accounts, cancel_basket, ExpireBasketAccounts,
  expire_basket_accounts, expire_basket, FillBasketAccounts, fill_basket_accounts, fill_basket,
}

-- What an expiry has checked and released, of which `s` is the basket's data before.
abbrev pub Expires :
    Runtime → Pubkey → ExpireBasketAccounts → (nonce s : Bytes) → (w w' : World) → Type 0
Expires rt program_id a nonce s w w' =
    IsOpen s
    × ((get_or s b_auth_mode 0 == auth_bearer) ≡ false)
    × (now : ℤ) × (rt.unix_timestamp ≡ ok now)
    × (i64_from_le (slice s b_expiry (b_expiry + 8)) ≤ℤ now)
    × (a.maker.key ≡ slice s b_maker (b_maker + 32))
    × (length a.legs ≡ get_or s b_give_count 0 * 3)
    × IsAddressed rt program_id basket_seed a.swap.key a.maker.key nonce (get_or s b_bump 0)
    × (released : World) × Releases rt program_id
        (record { swap = a.swap; maker = a.maker; token_prog = a.token_prog; nonce = nonce })
        (basket_seeds a.maker.key nonce (get_or s b_bump 0)) (some a.maker.key) s 0
        (give_legs a.legs) w released
    × (w' ≡ record released { ledger = swept a.swap.key a.maker.key released.ledger })

module _ (rt : Runtime) (program_id : Pubkey) (keep : KeepsData rt program_id) where
  -- When other programs leave the data of this program's accounts alone, and the token program
  -- that is passed is not this program: an expiry that succeeds finds an open basket that is not
  -- in bearer mode, at the address of its maker, the nonce and its stored bump, at its stored
  -- expiry or later. For each entry, in its order, the token program that was passed, which the
  -- handler does not check, is asked by the basket's signature to transfer its stored amount of
  -- its stored mint out of the vault of its index to a token account of the stored maker, and to
  -- close the vault; each leg is checked on the ledger that the calls before it left. No other
  -- call is made, and on the ledger that the calls leave the basket is swept into the maker's
  -- account.
  pub expire_basket_returns :
      (accounts : List AccountInfo) (d : Bytes) (a : ExpireBasketAccounts) (w w' : World)
      → expire_basket_accounts accounts ≡ ok a
      → a.token_prog.key ≢ program_id
      → expire_basket rt program_id accounts d w ≡ ok (tt, w')
      → Expires rt program_id a (slice d 0 32) (w.ledger a.swap.key).contents w w'
  unfolding expire_basket close basket_state
  expire_basket_returns accounts d a w w' ea foreign h = after_fail_if _ _ _ w h λ c1 h1.
      after_lift _ _ w h1 λ a' ea' h2. after_fail_when _ _ _ w h2 λ c3 h4.
        after_reads _ _ w h4 λ st es h5. after_fail_if _ _ _ w h5 λ c4 h6.
          after_lift _ _ w h6 λ pda ep h7. after_fail_if _ _ _ w h7 λ c5 h8.
            after_bind _ _ w h8 λ u w1 er h9.
              let same : a' ≡ a = cc in
              let (opened, normal, now, clock, late, is_state) =
                load_expired_basket-late rt a'.swap w.ledger es in
              let all_released =
                release_legs-Releases rt program_id
                  (record {
                    swap = a'.swap;
                    maker = a'.maker;
                    token_prog = a'.token_prog;
                    nonce = slice d 0 32;
                  })
                  (basket_seeds st.maker (slice d 0 32) st.bump) keep
                  (subst (λ (v : ExpireBasketAccounts). v.token_prog.key ≢ program_id) (sym same)
                    foreign)
                  (some st.maker) (give_legs a'.legs) 0 w (differs-false _ _ c3) er in
              let is_maker = differs-false _ _ c4 in
              let (addressed, released) =
                subst
                  (λ (t : BasketState).
                    IsAddressed rt program_id basket_seed a'.swap.key a'.maker.key (slice d 0 32)
                      t.bump
                    × Releases rt program_id
                        (record {
                          swap = a'.swap;
                          maker = a'.maker;
                          token_prog = a'.token_prog;
                          nonce = slice d 0 32;
                        })
                        (basket_seeds a'.maker.key (slice d 0 32) t.bump) (some a'.maker.key)
                        (w.ledger a'.swap.key).contents 0 (give_legs a'.legs) w w1)
                  is_state
                  (subst
                    (λ k.
                      IsAddressed rt program_id basket_seed a'.swap.key k (slice d 0 32) st.bump
                      × Releases rt program_id
                          (record {
                            swap = a'.swap;
                            maker = a'.maker;
                            token_prog = a'.token_prog;
                            nonce = slice d 0 32;
                          })
                          (basket_seeds k (slice d 0 32) st.bump) (some k)
                          (w.ledger a'.swap.key).contents 0 (give_legs a'.legs) w w1)
                    (sym is_maker)
                    (
                      check_address-IsAddressed rt program_id basket_seed a'.swap st.maker
                          (slice d 0 32) st.bump ep,
                      all_released,
                    )) in
              subst
                (λ (v : ExpireBasketAccounts).
                  Expires rt program_id v (slice d 0 32) (w.ledger v.swap.key).contents w w')
                same
                (
                  opened,
                  normal,
                  now,
                  clock,
                  late,
                  is_maker ∙ ap (λ (v : BasketState). v.maker) is_state,
                  eq_of_not_ne _ _ c5 ∙ ap (λ (v : BasketState). v.give_count * 3) is_state,
                  addressed,
                  w1,
                  released,
                  (sweep-inv a'.swap a'.maker w1 h9).0,
                )

module _ (rt : Runtime) (program_id : Pubkey) where
  -- A basket in bearer mode is neither cancelled, nor expired, nor filled, whoever asks and
  -- whatever the clock.
  pub bearer_no_revoke :
      (cs es fs : List AccountInfo) (d : Bytes) (c : CancelBasketAccounts)
      (e : ExpireBasketAccounts) (f : FillBasketAccounts) (w : World) (x y z : Unit {0} × World)
      → cancel_basket_accounts cs ≡ ok c
      → expire_basket_accounts es ≡ ok e
      → fill_basket_accounts fs ≡ ok f
      → e.swap.key ≡ c.swap.key
      → f.swap.key ≡ c.swap.key
      → get_or (w.ledger c.swap.key).contents b_auth_mode 0 ≡ auth_bearer
      → (cancel_basket rt program_id cs d w ≢ ok x)
        × (expire_basket rt program_id es d w ≢ ok y)
        × (fill_basket rt program_id fs d w ≢ ok z)
  unfolding cancel_basket expire_basket fill_basket
  bearer_no_revoke cs es fs d c e f w x y z ec ee ef same_e same_f bearer = (
    λ h. after_fail_if _ _ _ w h λ c1 h1. after_lift _ _ w h1 λ a ea h2.
        after_fail_if _ _ _ w h2 λ c2 h3. after_fail_when _ _ _ w h3 λ c3 h4.
          after_reads _ _ w h4 λ st el h5.
            let same : a ≡ c = cc in
            let (_, normal, _, _) = load_cancel_basket-mine a.swap a.maker w.ledger el in
            let mode : get_or (w.ledger a.swap.key).contents b_auth_mode 0 ≡ auth_bearer =
              ap (λ (v : CancelBasketAccounts). get_or (w.ledger v.swap.key).contents b_auth_mode 0)
                same
              ∙ bearer in
            absurd (ground (arith, rw mode at normal)),
    λ h. after_fail_if _ _ _ w h λ c1 h1. after_lift _ _ w h1 λ a ea h2.
        after_fail_when _ _ _ w h2 λ c3 h4. after_reads _ _ w h4 λ st el h5.
          let same : a ≡ e = cc in
          let (_, normal, _, _, _, _) = load_expired_basket-late rt a.swap w.ledger el in
          let mode : get_or (w.ledger a.swap.key).contents b_auth_mode 0 ≡ auth_bearer =
            ap (λ (v : ExpireBasketAccounts). get_or (w.ledger v.swap.key).contents b_auth_mode 0)
              same
            ∙ (ap (λ k. get_or (w.ledger k).contents b_auth_mode 0) same_e ∙ bearer) in
          absurd (ground (arith, rw mode at normal)),
    λ h. after_fail_if _ _ _ w h λ c1 h1. after_lift _ _ w h1 λ a ea h2.
        after_fail_if _ _ _ w h2 λ c2 h3. after_fail_when _ _ _ w h3 λ c3 h4.
          after_reads _ _ w h4 λ st el h5.
            let same : a ≡ f = cc in
            let (_, normal, _, _, _, _, _, _) =
              load_fill_basket-normal rt a.swap a.taker w.ledger el in
            let mode : get_or (w.ledger a.swap.key).contents b_auth_mode 0 ≡ auth_bearer =
              ap (λ (v : FillBasketAccounts). get_or (w.ledger v.swap.key).contents b_auth_mode 0)
                same
              ∙ (ap (λ k. get_or (w.ledger k).contents b_auth_mode 0) same_f ∙ bearer) in
            absurd (ground (arith, rw mode at normal)),
  )
