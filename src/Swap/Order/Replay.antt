-- ===== src/Swap/Order/Replay.antt =====
-- An order or a bid settles once: its marker keeps every later settlement out (swap/src/order.rs).
use xete_programs.Base.{ℕ, ◌≡◌, ◌≢◌, sym, ap, ap₂, ◌∙◌, List, Option, Bytes, slice}
use xete_programs.Chain.Result.{ok}
use xete_programs.Chain.Types.{Pubkey, AccountInfo, Ledger, Runtime, World, create_account}
use xete_programs.Chain.Action.{after_fail_if, after_lift, after_bind}
use xete_programs.Swap.Order.Ed25519.{Terms}
use xete_programs.Swap.Order.Gate.{Auth, payload_terms, check_timely}
use xete_programs.Swap.Order.{
  OrderAccounts, order_accounts, BidAccounts, bid_accounts, authorize, mark_order,
  verify_bid_common, settle_signed_order, settle_signed_bid_spl,
}
use xete_programs.Swap.Order.Checked.{marker}
use xete_programs.Swap.Order.Authorized.{authorize_checked, mark_order_checked}

-- What the system program documents of `create_account`: it refuses an address that holds lamports.
abbrev pub RefusesUsed : Runtime → Type 0
RefusesUsed rt =
    (from to owner : Pubkey) (lamports space : ℕ) (infos : List AccountInfo)
    (seeds : Option (List Bytes)) (l l' : Ledger)
    → rt.invoke
        (record {
          instruction = create_account from to lamports space owner;
          infos = infos;
          seeds = seeds;
        })
        l
      ≡ ok l'
    → (l to).lamports ≡ 0

-- The lamports of the marker of a maker and a nonce.
abbrev pub marked_lamports : Runtime → Pubkey → Pubkey → Bytes → Ledger → ℕ
marked_lamports rt program_id maker nonce l = (l (marker rt program_id maker nonce).0).lamports

module _ (rt : Runtime) (refuses : RefusesUsed rt) (program_id : Pubkey) where
  pub authorize_unmarked :
      (domain : Bytes) (t : Terms) (a : Auth) (w w' : World) (bump : ℕ)
      → authorize rt program_id domain t a w ≡ ok (bump, w')
      → marked_lamports rt program_id a.maker.key t.nonce w.ledger ≡ 0
  authorize_unmarked domain t a w w' bump h =
      let (checked, _, _, _, called, _) = authorize_checked rt program_id domain t a w w' bump h in
      ap (λ k. (w.ledger k).lamports) checked.marked ∙ refuses _ _ _ _ _ _ _ _ _ called

  pub mark_order_unmarked :
      (domain : Bytes) (t : Terms) (a : Auth) (w w' : World) (bump : ℕ)
      → check_timely rt t a ≡ ok tt
      → mark_order rt program_id domain t a w ≡ ok (bump, w')
      → marked_lamports rt program_id a.maker.key t.nonce w.ledger ≡ 0
  mark_order_unmarked domain t a w w' bump timely h =
      let (checked, _, _, _, called, _) =
        mark_order_checked rt program_id domain t a w w' bump timely h in
      ap (λ k. (w.ledger k).lamports) checked.marked ∙ refuses _ _ _ _ _ _ _ _ _ called

  pub bid_common_unmarked :
      (t : Terms) (a : Auth) (w w' : World) (bump : ℕ)
      → verify_bid_common rt program_id a t w ≡ ok (bump, w')
      → marked_lamports rt program_id a.maker.key t.nonce w.ledger ≡ 0
  unfolding verify_bid_common
  bid_common_unmarked t a w w' bump h = after_fail_if _ _ _ w h λ c1 h1.
      after_fail_if _ _ _ w h1
        λ c2 h2. after_fail_if _ _ _ w h2 λ c3 h3. authorize_unmarked _ _ a w w' bump h3

  order_unmarked :
      (accounts : List AccountInfo) (d : Bytes) (a : OrderAccounts) (w : World)
      {x : Unit {0} × World}
      → order_accounts accounts ≡ ok a
      → settle_signed_order rt program_id accounts d w ≡ ok x
      → marked_lamports rt program_id a.auth.maker.key (slice d 56 88) w.ledger ≡ 0
  unfolding settle_signed_order payload_terms
  order_unmarked accounts d a w ea h = after_fail_if _ _ _ w h λ c1 h1.
      after_fail_if _ _ _ w h1 λ c2 h2. after_lift _ _ w h2 λ a' ea' h3.
        after_fail_if _ _ _ w h3 λ c3 h4. after_fail_if _ _ _ w h4 λ c4 h5.
          after_bind _ _ w h5 λ bump w1 e1 h6.
            let same : a' ≡ a = cc in
            ap
              (λ (v : OrderAccounts).
                marked_lamports rt program_id v.auth.maker.key (slice d 56 88) w.ledger)
              (sym same)
            ∙ authorize_unmarked _ _ a'.auth w w1 bump e1

  bid_unmarked :
      (accounts : List AccountInfo) (d : Bytes) (b : BidAccounts) (w : World) {x : Unit {0} × World}
      → bid_accounts accounts ≡ ok b
      → settle_signed_bid_spl rt program_id accounts d w ≡ ok x
      → marked_lamports rt program_id b.auth.maker.key (slice d 56 88) w.ledger ≡ 0
  unfolding settle_signed_bid_spl payload_terms
  bid_unmarked accounts d b w eb h = after_fail_if _ _ _ w h λ c1 h1.
      after_lift _ _ w h1 λ b' eb' h2. after_bind _ _ w h2 λ bump w1 e1 h3.
        let same : b' ≡ b = cc in
        ap
          (λ (v : BidAccounts).
            marked_lamports rt program_id v.auth.maker.key (slice d 56 88) w.ledger)
          (sym same)
        ∙ bid_common_unmarked _ b'.auth w w1 bump e1

  -- When creating an account refuses an address that holds lamports, and the marker of a maker and a
  -- nonce holds lamports, neither an order nor a bid of this maker with this nonce settles, whatever
  -- the other terms.
  pub settles_once :
      (accounts bid : List AccountInfo) (d e : Bytes) (a : OrderAccounts) (b : BidAccounts)
      (w : World) (x y : Unit {0} × World)
      → order_accounts accounts ≡ ok a
      → bid_accounts bid ≡ ok b
      → b.auth.maker.key ≡ a.auth.maker.key
      → slice e 56 88 ≡ slice d 56 88
      → marked_lamports rt program_id a.auth.maker.key (slice d 56 88) w.ledger ≢ 0
      → (settle_signed_order rt program_id accounts d w ≢ ok x)
        × (settle_signed_bid_spl rt program_id bid e w ≢ ok y)
  settles_once accounts bid d e a b w x y ea eb same_maker same_nonce used = (
    λ h. used (order_unmarked accounts d a w ea h),
    λ h. used (
        ap₂ (λ m n. marked_lamports rt program_id m n w.ledger) (sym same_maker) (sym same_nonce)
        ∙ bid_unmarked bid e b w eb h),
  )
