-- ===== src/Swap/Basket/Filled.antt =====
-- The fill of a basket: its guards, the payments of the want entries, and the way of the give entries
-- (swap/src/basket.rs).
use xete_programs.Base.{
  ◌==◌, ◌+◌, ◌*◌, ◌⊎◌, ◌≡◌, ◌≢◌, sym, ap, ◌∙◌, subst, true, false, List, none, Bytes, length,
  get_or, take, drop, differs-false, slice, arith, eq_of_not_ne,
}
use xete_programs.Base.Int.{ℤ, ◌<ℤ◌}
use xete_programs.Base.Words.{i64_from_le}
use xete_programs.Chain.Result.{ok}
use xete_programs.Chain.Types.{Pubkey, AccountInfo, Runtime, World}
use xete_programs.Chain.Action.{after_bind, after_lift, after_reads, after_fail_if, after_fail_when}
use xete_programs.Chain.Keeps.{KeepsData}
use xete_programs.Chain.Sweep.{swept, sweep-inv}
use xete_programs.Swap.Layout.{
  b_maker, b_taker, b_auth_mode, b_give_count, b_want_count, b_expiry, b_bump, auth_normal,
}
use xete_programs.Swap.Checks.{any_nonzero}
use xete_programs.Swap.Cpi.{close}
use xete_programs.Swap.Config.Policy.{Policy, read_config}
use xete_programs.Swap.Basket.Checks.{BasketState, basket_state, basket_seed}
use xete_programs.Swap.Slot.Addressed.{IsAddressed, check_address-IsAddressed}
use xete_programs.Swap.Basket.Legs.{Basket, give_legs, want_legs}
use xete_programs.Swap.Basket.Loaded.{IsOpen, load_fill_basket-normal}
use xete_programs.Swap.Basket.Released.{Releases, release_legs-Releases}
use xete_programs.Swap.Basket.Paid.{Pays, pay_want_entries-Pays}
use xete_programs.Swap.Basket.{basket_seeds, FillBasketAccounts, fill_basket_accounts, fill_basket}

-- The accounts of every leg of a fill.
abbrev pub basket_of : FillBasketAccounts → Bytes → Basket
basket_of a nonce = record {
  swap = a.swap;
  maker = a.maker;
  token_prog = a.token_prog;
  nonce = nonce;
}

-- What a fill has checked of the basket's data `s`.
abbrev pub Fillable : Runtime → FillBasketAccounts → Bytes → Type 0
Fillable rt a s =
    (a.taker.is_signer ≡ true)
    × IsOpen s
    × (get_or s b_auth_mode 0 ≡ auth_normal)
    × ((get_or s b_want_count 0 == 0) ≡ false)
    × (now : ℤ) × (rt.unix_timestamp ≡ ok now)
    × (now <ℤ i64_from_le (slice s b_expiry (b_expiry + 8)))
    × ((any_nonzero (slice s b_taker (b_taker + 32)) ≡ false)
        ⊎ (slice s b_taker (b_taker + 32) ≡ a.taker.key))
    × (a.maker.key ≡ slice s b_maker (b_maker + 32))
    × (length a.legs ≡ get_or s b_give_count 0 * 3 + get_or s b_want_count 0 * 4)

-- What a fill has checked, paid and released, of which `s` is the basket's data before; `paid` is the
-- world after the payments, and `released` the one after the releases.
abbrev pub Fills :
    Runtime → Pubkey → FillBasketAccounts → (nonce s : Bytes) → (w w' : World) → Type 0
Fills rt program_id a nonce s w w' =
    Fillable rt a s
    × (policy : Policy) × (read_config rt program_id a.config w.ledger ≡ ok policy)
    × IsAddressed rt program_id basket_seed a.swap.key a.maker.key nonce (get_or s b_bump 0)
    × (paid released : World) × Pays rt program_id (basket_of a nonce) a.config a.taker policy s 0
        (want_legs (drop (get_or s b_give_count 0 * 3) a.legs)) w paid
    × Releases rt program_id (basket_of a nonce)
        (basket_seeds a.maker.key nonce (get_or s b_bump 0)) none s 0
        (give_legs (take (get_or s b_give_count 0 * 3) a.legs)) paid released
    × (w' ≡ record released { ledger = swept a.swap.key a.maker.key released.ledger })

module _ (rt : Runtime) (program_id : Pubkey) (keep : KeepsData rt program_id) where
  -- When other programs leave the data of this program's accounts alone, and the token program
  -- that is passed is not this program: a fill that succeeds is signed by the taker, whom the
  -- basket admits, before its expiry; the basket is open, in normal mode, wants something, and
  -- stands at the address of its maker, the nonce and its stored bump. Each want entry is paid in
  -- order, in its stored mint to a token account of the maker, its fee to an account that the
  -- policy admits, and the payments sum to its amount. Then, for each give entry, in its order,
  -- the token program that was passed, which the handler does not check, is asked by the basket's
  -- signature to transfer its stored amount of its stored mint out of the vault of its index, and
  -- to close the vault; each entry of both sides is checked on the ledger that the calls before
  -- it left. No other call is made, and on the ledger that the calls leave the basket is swept
  -- into the maker's account.
  pub fill_basket_effects :
      (accounts : List AccountInfo) (d : Bytes) (a : FillBasketAccounts) (w w' : World)
      → fill_basket_accounts accounts ≡ ok a
      → a.token_prog.key ≢ program_id
      → fill_basket rt program_id accounts d w ≡ ok (tt, w')
      → Fills rt program_id a (slice d 0 32) (w.ledger a.swap.key).contents w w'
  unfolding fill_basket close basket_state
  fill_basket_effects accounts d a w w' ea foreign h = after_fail_if _ _ _ w h λ c1 h1.
      after_lift _ _ w h1 λ a' ea' h2. after_fail_if _ _ _ w h2 λ c2 h3.
        after_fail_when _ _ _ w h3 λ c3 h4. after_reads _ _ w h4 λ st es h5.
          after_fail_if _ _ _ w h5 λ c4 h6. after_lift _ _ w h6 λ pda ep h7.
            after_fail_if _ _ _ w h7 λ c5 h8. after_reads _ _ w h8 λ policy epol h9.
              after_bind _ _ w h9 λ u1 w1 epay h10. after_bind _ _ w1 h10 λ u2 w2 erel h11.
                let same : a' ≡ a = cc in
                let nonce = slice d 0 32 in
                let s = (w.ledger a'.swap.key).contents in
                let b = basket_of a' nonce in
                let other =
                  subst (λ (v : FillBasketAccounts). v.token_prog.key ≢ program_id) (sym same)
                    foreign in
                let (opened, normal, some_want, now, clock, early, named, is_state) =
                  load_fill_basket-normal rt a'.swap a'.taker w.ledger es in
                let is_maker = differs-false _ _ c4 in
                let Found = λ (t : BasketState).
                  IsAddressed rt program_id basket_seed a'.swap.key a'.maker.key nonce t.bump
                  × Pays rt program_id b a'.config a'.taker policy s 0
                      (want_legs (drop (t.give_count * 3) a'.legs)) w w1
                  × Releases rt program_id b (basket_seeds a'.maker.key nonce t.bump) none s 0
                      (give_legs (take (t.give_count * 3) a'.legs)) w1 w2 in
                let (all_paid, kept) =
                  pay_want_entries-Pays rt program_id b a'.config a'.taker policy keep other
                    (want_legs (drop (st.give_count * 3) a'.legs)) 0 w (differs-false _ _ c3)
                    epay in
                let all_released =
                  release_legs-Releases rt program_id b (basket_seeds st.maker nonce st.bump) keep
                    other none (give_legs (take (st.give_count * 3) a'.legs)) 0 w1 kept.1 erel in
                let (addressed, paid, released) = subst Found is_state (
                  subst (λ k. IsAddressed rt program_id basket_seed a'.swap.key k nonce st.bump)
                      (sym is_maker)
                      (check_address-IsAddressed rt program_id basket_seed a'.swap st.maker nonce
                        st.bump ep),
                  all_paid,
                  subst
                      (λ k.
                        Releases rt program_id b (basket_seeds k nonce st.bump) none s 0
                          (give_legs (take (st.give_count * 3) a'.legs)) w1 w2)
                      (sym is_maker)
                      (subst
                        (λ t.
                          Releases rt program_id b (basket_seeds st.maker nonce st.bump) none t 0
                            (give_legs (take (st.give_count * 3) a'.legs)) w1 w2)
                        kept.0 all_released),
                ) in
                subst
                  (λ (v : FillBasketAccounts).
                    Fills rt program_id v nonce (w.ledger v.swap.key).contents w w')
                  same
                  (
                    (
                      ground (arith, c2),
                      opened,
                      normal,
                      some_want,
                      now,
                      clock,
                      early,
                      named,
                      is_maker ∙ ap (λ (v : BasketState). v.maker) is_state,
                      eq_of_not_ne _ _ c5
                          ∙ ap (λ (v : BasketState). v.give_count * 3 + v.want_count * 4) is_state,
                    ),
                    policy,
                    epol,
                    addressed,
                    w1,
                    w2,
                    paid,
                    released,
                    (sweep-inv a'.swap a'.maker w2 h11).0,
                  )
