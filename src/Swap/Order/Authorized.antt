-- ===== src/Swap/Order/Authorized.antt =====
-- The marker that the gates of an order or a bid leave, and what it keeps out (swap/src/order.rs).
use xete_programs.Base.{ℕ, ◌≡◌, sym, ap, ◌∙◌, subst, [], ◌∷◌, ◌++◌, Bytes, arith}
use xete_programs.Chain.Result.{ok}
use xete_programs.Chain.Types.{Pubkey, Runtime, World, Call, cpi}
use xete_programs.Chain.Action.{after_lift, after_bind}
use xete_programs.Swap.Cpi.{create_pda}
use xete_programs.Swap.Cpi.Calls.{create_call, create_pda-inv}
use xete_programs.Swap.Order.Ed25519.{Terms}
use xete_programs.Swap.Order.Gate.{Auth, order_seed, order_done_seed, check_timely}
use xete_programs.Swap.Order.{authorize, mark_order}
use xete_programs.Swap.Order.Checked.{marker, Authorized, check_signed-inv}

-- The call that creates it.
abbrev pub marker_call : Runtime → Pubkey → Auth → Bytes → ℕ → Call
marker_call rt program_id a nonce lamports =
    create_call a.taker a.order_done a.system lamports 1 program_id (
      order_done_seed
      ∷ a.maker.key
      ∷ nonce
      ∷ ((marker rt program_id a.maker.key nonce).1 ∷ [])
      ∷ [])

module _ (rt : Runtime) (program_id : Pubkey) (domain : Bytes) (t : Terms) (a : Auth) where
  -- The gates, and the marker created.
  abbrev pub Marked : (w w' : World) → ℕ → Type 0
  Marked w w' bump =
      Authorized rt program_id domain t a
      × (bump ≡ (rt.find_program_address (order_seed ∷ a.maker.key ∷ []) program_id).1)
      × (lamports : ℕ) × (rt.minimum_balance 1 ≡ ok lamports)
      × (rt.invoke (marker_call rt program_id a t.nonce lamports) w.ledger ≡ ok w'.ledger)
      × (w'.effects ≡ w.effects ++ cpi (marker_call rt program_id a t.nonce lamports) ∷ [])

  -- The clock and the taker checked, what the rest of the gates does.
  pub mark_order_checked :
      (w w' : World) (bump : ℕ)
      → check_timely rt t a ≡ ok tt
      → mark_order rt program_id domain t a w ≡ ok (bump, w')
      → Marked w w' bump
  unfolding mark_order
  mark_order_checked w w' bump timely h = after_lift _ _ w h λ bumps eb h1.
      after_bind _ _ w h1 λ _ w1 ec h2.
        let (checked, same) = check_signed-inv rt program_id domain t a timely eb in
        let made = create_pda-inv rt a.taker a.order_done a.system 1 program_id _ w (
          subst
            (λ (b : ℕ × ℕ).
              create_pda rt a.taker a.order_done a.system 1 program_id
                (order_done_seed ∷ a.maker.key ∷ t.nonce ∷ (b.1 ∷ []) ∷ []) w
              ≡ ok (tt, w1))
            same ec) in
        let (lamports, em, called, recorded) = made in
        let end : w1 ≡ w' = ground (arith, h2) in
        let first : bumps.0 ≡ bump = ground (arith, h2) in
        (
          checked,
          sym first ∙ ap (λ (b : ℕ × ℕ). b.0) same,
          lamports,
          em,
          subst
              (λ (v : World).
                rt.invoke (marker_call rt program_id a t.nonce lamports) w.ledger ≡ ok v.ledger)
              end called,
          subst
              (λ (v : World).
                v.effects ≡ w.effects ++ cpi (marker_call rt program_id a t.nonce lamports) ∷ [])
              end recorded,
        )

  -- The gates that go through: the clock is before the expiry; a taker who is named is the one who
  -- settles; the instruction just before is the signature program's, over exactly these terms under
  -- this domain, by the maker; the two addresses are the maker's; and the one call made creates the
  -- marker of the maker and the nonce.
  pub authorize_checked :
      (w w' : World) (bump : ℕ)
      → authorize rt program_id domain t a w ≡ ok (bump, w')
      → Marked w w' bump
  unfolding authorize
  authorize_checked w w' bump h =
      after_lift _ _ w h λ u timely h1. mark_order_checked w w' bump timely h1
