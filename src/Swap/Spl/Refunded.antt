-- ===== src/Swap/Spl/Refunded.antt =====
-- A cancel and an expiry: who may ask, and what is refunded (swap/src/swap.rs).
use xete_programs.Base.{
  ℕ, ◌+◌, ◌≡◌, ap, true, ltb, List, [], ◌∷◌, none, some, Bytes, slice, arith, differs-false,
  differs, refl, ◌⊎◌, inl, inr,
}
use xete_programs.Base.Int.{ℤ, ◌≤ℤ◌}
use xete_programs.Chain.Result.{ok, invalid_argument}
use xete_programs.Chain.Types.{Pubkey, AccountInfo, Runtime, World, Effect, cpi, transfer_lamports}
use xete_programs.Chain.Action.{
  ◌>>◌, when, fail_if, after_bind, after_lift, after_reads, after_fail_if, after_fail_when,
  after_when,
}
use xete_programs.Chain.Ran.{Did, Did-nothing, Closes, perform-Did, sweep-Closes}
use xete_programs.Swap.Layout.{s_maker}
use xete_programs.Swap.Cpi.{transfer_call, close_call, close, pay_lamports}
use xete_programs.Swap.Cpi.Calls.{transfer_and_close-Did}
use xete_programs.Swap.Config.Policy.{Policy, read_config}
use xete_programs.Swap.Checks.Facts.{
  IsTokenAccount, HasDecimals, require_token_account-inv, mint_decimals-inv,
}
use xete_programs.Swap.Spl.Checks.{RefundState}
use xete_programs.Swap.Spl.{
  RefundAccounts, refund_and_close, CancelAccounts, cancel_accounts, cancel_swap, expire_accounts,
  expire,
}
use xete_programs.Swap.Spl.Filled.{seeds_of}
use xete_programs.Swap.Spl.Loaded.{
  stored_expiry, IsRefundable, StandsAt, verify_swap_pdas-StandsAt, load_expired_state-after,
  load_cancel_state-mine,
}

-- The refund and the closing of the vault.
abbrev pub refund_calls :
    RefundAccounts → (nonce : Bytes) (bump give_amount give_dec : ℕ) → List Effect
refund_calls a nonce bump give_amount give_dec =
    cpi (
      transfer_call a.token_prog a.vault a.give_mint a.maker_give a.swap give_amount give_dec
        (some (seeds_of a.maker.key nonce bump)))
    ∷ cpi (close_call a.token_prog a.vault a.maker a.swap (seeds_of a.maker.key nonce bump))
    ∷ []

-- What a refund has checked and done, from the world `u` after the calls `before`, which began in `w`: the
-- stored give-amount to a give-mint account of the maker, the vault closed, both in this order and by the
-- swap's signature, then the swap swept into the maker and wiped.
abbrev pub Refunds :
    Runtime
    → Pubkey
    → (a : RefundAccounts) (nonce : Bytes) → (bump give_amount : ℕ) → List Effect
    → (w u w' : World) → Type 0
Refunds rt program_id a nonce bump give_amount before w u w' =
    (give_dec : ℕ) × Did rt before w u
    × IsTokenAccount a.maker_give a.give_mint.key a.maker.key u.ledger
    × StandsAt rt program_id a.swap.key a.vault.key a.maker.key nonce bump
    × HasDecimals a.give_mint give_dec u.ledger
    × Closes rt (refund_calls a nonce bump give_amount give_dec) a.swap.key a.maker.key u w'

module _ (rt : Runtime) (program_id : Pubkey) where
  refund_and_close-Refunds :
      (a : RefundAccounts) (nonce : Bytes) (bump give_amount : ℕ) (before : List Effect)
      (u w w' : World)
      → Did rt before u w
      → refund_and_close rt program_id a nonce bump give_amount w ≡ ok (tt, w')
      → Refunds rt program_id a nonce bump give_amount before u w w'
  unfolding refund_and_close close
  refund_and_close-Refunds a nonce bump give_amount before u w w' start h =
      after_reads _ _ w h λ u1 er h1. after_lift _ _ w h1 λ u2 ev h2.
        after_reads _ _ w h2 λ give_dec eg h3. after_bind _ _ w h3 λ u3 w1 et h4.
          after_bind _ _ w1 h4 λ u4 w2 ec h5. (
            give_dec,
            start,
            require_token_account-inv a.maker_give _ a.maker.key w.ledger er,
            verify_swap_pdas-StandsAt rt program_id a.swap a.vault a.maker.key nonce bump ev,
            mint_decimals-inv a.give_mint w.ledger eg,
            sweep-Closes rt _ a.swap a.maker w w2
                (transfer_and_close-Did rt a.token_prog a.vault a.give_mint a.maker_give a.swap
                  a.maker give_amount give_dec (seeds_of a.maker.key nonce bump) w w1 et refl ec)
                h5,
          )

  -- What an expiry has checked and refunded.
  abbrev pub Expired : List AccountInfo → Bytes → (w w' : World) → Type 0
  Expired accounts d w w' =
      (a : RefundAccounts) × (st : RefundState) × (expire_accounts accounts ≡ ok a)
      × ((w.ledger a.swap.key).owner ≡ program_id)
      × (now : ℤ) × (rt.unix_timestamp ≡ ok now)
      × (stored_expiry (w.ledger a.swap.key).contents ≤ℤ now)
      × IsRefundable (w.ledger a.swap.key).contents a.give_mint.key st
      × (a.maker.key ≡ st.maker)
      × Refunds rt program_id a (slice d 0 32) st.bump st.give_amount [] w w w'

  -- An expiry that goes through, by whomever: the swap is the program's, open, at the address of its
  -- maker and nonce, and the clock is at its expiry or past it. The token program that was passed, which
  -- the handler does not check, is asked by the swap's signature to transfer exactly the stored
  -- give-amount from the vault at its address to an account of the stored maker, and to close the vault;
  -- no other call is made. On the ledger that these calls leave, the swap is swept into the maker.
  pub expire_refunds :
      (accounts : List AccountInfo) (d : Bytes) (w w' : World)
      → expire rt program_id accounts d w ≡ ok (tt, w')
      → Expired accounts d w w'
  unfolding expire
  expire_refunds accounts d w w' h = after_fail_if _ _ _ w h λ c1 h1. after_lift _ _ w h1 λ a ea h2.
      after_fail_when _ _ _ w h2 λ c2 h3. after_reads _ _ w h3 λ st es h4.
        after_fail_if _ _ _ w h4 λ c3 h5.
          let (refundable, now, en, late) =
            load_expired_state-after rt a.swap a.give_mint w.ledger es in
          (
            a,
            st,
            ea,
            differs-false _ _ c2,
            now,
            en,
            late,
            refundable,
            differs-false _ _ c3,
            refund_and_close-Refunds a (slice d 0 32) st.bump st.give_amount [] w w w'
                (Did-nothing rt w refl) h5,
          )

  -- The delist fee of a cancel.
  abbrev pub delist_calls : CancelAccounts → ℕ → List Effect
  delist_calls a fee =
      cpi (record {
        instruction = transfer_lamports a.refund.maker.key a.fee_wallet.key fee;
        infos = a.refund.maker ∷ a.fee_wallet ∷ a.system ∷ [];
        seeds = none;
      })
      ∷ []

  delist_fee-paid :
      (a : CancelAccounts) (policy : Policy) (w : World) {x : Unit {0} × World}
      → when
          (ltb 0 policy.delist_fee)
          (fail_if (differs a.fee_wallet.key policy.fee_wallet) invalid_argument
            >> pay_lamports rt a.refund.maker a.fee_wallet a.system policy.delist_fee)
          w
        ≡ ok x
      → (before : List Effect) × ((policy.delist_fee ≡ 0) × (before ≡ [])
          ⊎ (a.fee_wallet.key ≡ policy.fee_wallet) × (before ≡ delist_calls a policy.delist_fee))
        × Did rt before w x.1
  unfolding pay_lamports
  delist_fee-paid a policy w {x} h =
      after_when _ _ w h
        (λ c h1. after_fail_if _ _ _ w h1 λ c2 h2. (
          delist_calls a policy.delist_fee,
          inr (differs-false _ _ c2, refl),
          perform-Did rt _ w h2,
        ))
        (λ c e. (
          [],
          inl (ground (arith, c), refl),
          Did-nothing rt w (ap (λ (y : Unit {0} × World). y.1) e),
        ))

  -- What a cancel has checked, charged and refunded.
  abbrev pub Cancelled : List AccountInfo → Bytes → (w w' : World) → Type 0
  Cancelled accounts d w w' =
      (a : CancelAccounts) × (st : RefundState) × (policy : Policy) × (cancel_accounts accounts
        ≡ ok a)
      × (a.refund.maker.is_signer ≡ true)
      × ((w.ledger a.refund.swap.key).owner ≡ program_id)
      × (read_config rt program_id a.config w.ledger ≡ ok policy)
      × (slice (w.ledger a.refund.swap.key).contents s_maker (s_maker + 32) ≡ a.refund.maker.key)
      × (before : List Effect) × ((policy.delist_fee ≡ 0) × (before ≡ [])
          ⊎ (a.fee_wallet.key ≡ policy.fee_wallet) × (before ≡ delist_calls a policy.delist_fee))
      × IsRefundable (w.ledger a.refund.swap.key).contents a.refund.give_mint.key st
      × (after_fee : World) × Refunds rt program_id a.refund (slice d 0 32) st.bump st.give_amount
          before w after_fee w'

  -- A cancel that goes through: the maker that the open swap stores signed, and the swap stands at the
  -- address of the maker and the nonce; the delist fee of the policy, when there is one, goes from the
  -- maker to the policy's wallet before anything else. On the ledger that this leaves, the refund account
  -- is the maker's; the token program that was passed, which the handler does not check, is asked by the
  -- swap's signature to transfer exactly the stored give-amount from the vault at its address to that
  -- account, and to close the vault; no other call is made. Then the swap is swept into the maker. The
  -- clock plays no part.
  pub cancel_refunds :
      (accounts : List AccountInfo) (d : Bytes) (w w' : World)
      → cancel_swap rt program_id accounts d w ≡ ok (tt, w')
      → Cancelled accounts d w w'
  unfolding cancel_swap
  cancel_refunds accounts d w w' h = after_fail_if _ _ _ w h λ c1 h1. after_lift _ _ w h1 λ a ea h2.
      after_fail_if _ _ _ w h2 λ c2 h3. after_fail_when _ _ _ w h3 λ c3 h4.
        after_reads _ _ w h4 λ st es h5. after_reads _ _ w h5 λ policy ep h6.
          after_bind _ _ w h6 λ u w1 efee h7.
            let (refundable, mine) =
              load_cancel_state-mine a.refund.swap a.refund.maker a.refund.give_mint w.ledger es in
            let (before, kind, paid) = delist_fee-paid a policy w efee in
            (
              a,
              st,
              policy,
              ea,
              ground (arith, c2),
              differs-false _ _ c3,
              ep,
              mine,
              before,
              kind,
              refundable,
              w1,
              refund_and_close-Refunds a.refund (slice d 0 32) st.bump st.give_amount before w w1 w'
                  paid h7,
            )
