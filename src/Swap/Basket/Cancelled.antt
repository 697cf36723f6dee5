-- ===== src/Swap/Basket/Cancelled.antt =====
-- The cancel of a basket: who may ask, what it costs, and where the assets go (swap/src/basket.rs).
use xete_programs.Base.{
  ◌+◌, ◌*◌, ◌≡◌, ◌≢◌, sym, ap, ◌∙◌, subst, true, false, ◌==◌, List, some, Bytes, length, get_or,
  differs-false, slice, arith, eq_of_not_ne,
}
use xete_programs.Chain.Result.{ok}
use xete_programs.Chain.Types.{Pubkey, AccountInfo, Runtime, World, Effect}
use xete_programs.Chain.Action.{after_bind, after_lift, after_reads, after_fail_if, after_fail_when}
use xete_programs.Chain.Keeps.{KeepsData}
use xete_programs.Chain.Sweep.{swept, sweep-inv}
use xete_programs.Swap.Layout.{b_maker, b_auth_mode, b_give_count, b_bump, auth_bearer}
use xete_programs.Swap.Cpi.{close}
use xete_programs.Swap.Config.Policy.{Policy, read_config}
use xete_programs.Swap.Slot.Charged.{Charges, pay_delist_fee-Charges}
use xete_programs.Swap.Basket.Checks.{BasketState, basket_state, basket_seed}
use xete_programs.Chain.Ran.{Did}
use xete_programs.Swap.Slot.Addressed.{IsAddressed, check_address-IsAddressed}
use xete_programs.Swap.Basket.Legs.{Basket, give_legs}
use xete_programs.Swap.Basket.Loaded.{IsOpen, load_cancel_basket-mine}
use xete_programs.Swap.Basket.Released.{Releases, release_legs-Releases}
use xete_programs.Swap.Basket.{
  basket_seeds, CancelBasketAccounts, cancel_basket_accounts, cancel_basket,
}

-- The accounts of every leg of a cancel.
abbrev pub returned_basket : CancelBasketAccounts → Bytes → Basket
returned_basket a nonce = record {
  swap = a.swap;
  maker = a.maker;
  token_prog = a.token_prog;
  nonce = nonce;
}

-- What a cancel has checked, charged and released, of which `s` is the basket's data before.
abbrev pub Cancels :
    Runtime → Pubkey → CancelBasketAccounts → (nonce s : Bytes) → (w w' : World) → Type 0
Cancels rt program_id a nonce s w w' =
    (a.maker.is_signer ≡ true)
    × IsOpen s
    × ((get_or s b_auth_mode 0 == auth_bearer) ≡ false)
    × (slice s b_maker (b_maker + 32) ≡ a.maker.key)
    × (length a.legs ≡ get_or s b_give_count 0 * 3)
    × (policy : Policy) × (read_config rt program_id a.config w.ledger ≡ ok policy)
    × IsAddressed rt program_id basket_seed a.swap.key a.maker.key nonce (get_or s b_bump 0)
    × (charges : List Effect) × Charges rt program_id a.config a.maker a.fee_wallet a.system policy
        charges
    × (charged released : World) × Did rt charges w charged
    × Releases rt program_id (returned_basket a nonce)
        (basket_seeds a.maker.key nonce (get_or s b_bump 0)) (some a.maker.key) s 0
        (give_legs a.legs) charged released
    × (w' ≡ record released { ledger = swept a.swap.key a.maker.key released.ledger })

module _ (rt : Runtime) (program_id : Pubkey) (keep : KeepsData rt program_id) where
  -- When other programs leave the data of this program's accounts alone, and the token program
  -- that is passed is not this program: a cancel that succeeds is signed by the maker that an
  -- open basket stores, which is not in bearer mode and stands at the address of the maker, the
  -- nonce and its stored bump. The maker pays the policy's delist fee, where there is one, to the
  -- policy's wallet. Then, for each entry, in its order, the token program that was passed, which
  -- the handler does not check, is asked by the basket's signature to transfer its stored amount
  -- of its stored mint out of the vault of its index to a token account of the maker, and to
  -- close the vault; each leg is checked on the ledger that the calls before it left. No other
  -- call is made, and on the ledger that the calls leave the basket is swept into the maker's
  -- account.
  pub cancel_basket_returns :
      (accounts : List AccountInfo) (d : Bytes) (a : CancelBasketAccounts) (w w' : World)
      → cancel_basket_accounts accounts ≡ ok a
      → a.token_prog.key ≢ program_id
      → cancel_basket rt program_id accounts d w ≡ ok (tt, w')
      → Cancels rt program_id a (slice d 0 32) (w.ledger a.swap.key).contents w w'
  unfolding cancel_basket close basket_state
  cancel_basket_returns accounts d a w w' ea foreign h = after_fail_if _ _ _ w h λ c1 h1.
      after_lift _ _ w h1 λ a' ea' h2. after_fail_if _ _ _ w h2 λ c2 h3.
        after_fail_when _ _ _ w h3 λ c3 h4. after_reads _ _ w h4 λ st es h5.
          after_lift _ _ w h5 λ pda ep h6. after_fail_if _ _ _ w h6 λ c5 h7.
            after_bind _ _ w h7 λ u1 w1 efee h8. after_bind _ _ w1 h8 λ u2 w2 erel h9.
              let same : a' ≡ a = cc in
              let nonce = slice d 0 32 in
              let b = returned_basket a' nonce in
              let other =
                subst (λ (v : CancelBasketAccounts). v.token_prog.key ≢ program_id) (sym same)
                  foreign in
              let (opened, normal, mine, is_state) =
                load_cancel_basket-mine a'.swap a'.maker w.ledger es in
              let (policy, epol, charged, charges, called, kept) =
                pay_delist_fee-Charges rt program_id a'.config a'.maker a'.fee_wallet a'.system keep
                  a'.swap.key w (differs-false _ _ c3) efee in
              let all_released =
                release_legs-Releases rt program_id b (basket_seeds a'.maker.key nonce st.bump) keep
                  other (some a'.maker.key) (give_legs a'.legs) 0 w1 kept.1 erel in
              let (addressed, released) =
                subst
                  (λ (t : BasketState).
                    IsAddressed rt program_id basket_seed a'.swap.key a'.maker.key nonce t.bump
                    × Releases rt program_id b (basket_seeds a'.maker.key nonce t.bump)
                        (some a'.maker.key) (w.ledger a'.swap.key).contents 0 (give_legs a'.legs) w1
                        w2)
                  is_state
                  (
                    check_address-IsAddressed rt program_id basket_seed a'.swap a'.maker.key nonce
                        st.bump ep,
                    subst
                        (λ t.
                          Releases rt program_id b (basket_seeds a'.maker.key nonce st.bump)
                            (some a'.maker.key) t 0 (give_legs a'.legs) w1 w2)
                        kept.0 all_released,
                  ) in
              subst
                (λ (v : CancelBasketAccounts).
                  Cancels rt program_id v nonce (w.ledger v.swap.key).contents w w')
                same
                (
                  ground (arith, c2),
                  opened,
                  normal,
                  mine,
                  eq_of_not_ne _ _ c5 ∙ ap (λ (v : BasketState). v.give_count * 3) is_state,
                  policy,
                  epol,
                  addressed,
                  charged,
                  charges,
                  w1,
                  w2,
                  called,
                  released,
                  (sweep-inv a'.swap a'.maker w2 h9).0,
                )
