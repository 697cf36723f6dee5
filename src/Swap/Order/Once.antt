-- ===== src/Swap/Order/Once.antt =====
-- Orders and bids for NFTs settle once as well (swap/src/order.rs).
use xete_programs.Base.{◌≡◌, ◌≢◌, sym, ap, ◌∙◌, List, Bytes, slice}
use xete_programs.Chain.Result.{ok}
use xete_programs.Chain.Types.{Pubkey, AccountInfo, Runtime, World}
use xete_programs.Chain.Action.{after_fail_if, after_lift, after_reads, after_bind}
use xete_programs.Swap.Order.Gate.{payload_terms}
use xete_programs.Swap.Order.Replay.{
  RefusesUsed, marked_lamports, mark_order_unmarked, bid_common_unmarked,
}
use xete_programs.Swap.Order.Pnft.{
  PnftOrderAccounts, pnft_order_accounts, settle_signed_order_pnft, PnftBidAccounts,
  pnft_bid_accounts, settle_signed_bid_pnft,
}
use xete_programs.Swap.Order.Core.{
  CoreOrderAccounts, core_order_accounts, settle_signed_order_core, CoreBidAccounts,
  core_bid_accounts, settle_signed_bid_core,
}

module _ (rt : Runtime) (refuses : RefusesUsed rt) (program_id : Pubkey) where
  pnft_order_unmarked :
      (accounts : List AccountInfo) (d : Bytes) (a : PnftOrderAccounts) (w : World)
      {x : Unit {0} × World}
      → pnft_order_accounts accounts ≡ ok a
      → settle_signed_order_pnft rt program_id accounts d w ≡ ok x
      → marked_lamports rt program_id a.auth.maker.key (slice d 56 88) w.ledger ≡ 0
  unfolding settle_signed_order_pnft payload_terms
  pnft_order_unmarked accounts d a w ea h = after_fail_if _ _ _ w h λ c1 h1.
      after_fail_if _ _ _ w h1 λ c2 h2. after_lift _ _ w h2 λ b eb h3.
        after_fail_if _ _ _ w h3 λ c3 h4. after_fail_if _ _ _ w h4 λ c4 h5.
          after_lift _ _ w h5 λ u timely h6. after_lift _ _ w h6 λ u2 programs h7.
            after_bind _ _ w h7 λ bump w1 e1 h8.
              let same : b ≡ a = cc in
              ap
                (λ (v : PnftOrderAccounts).
                  marked_lamports rt program_id v.auth.maker.key (slice d 56 88) w.ledger)
                (sym same)
              ∙ mark_order_unmarked rt refuses program_id _ _ b.auth w w1 bump timely e1

  core_order_unmarked :
      (accounts : List AccountInfo) (d : Bytes) (a : CoreOrderAccounts) (w : World)
      {x : Unit {0} × World}
      → core_order_accounts accounts ≡ ok a
      → settle_signed_order_core rt program_id accounts d w ≡ ok x
      → marked_lamports rt program_id a.auth.maker.key (slice d 56 88) w.ledger ≡ 0
  unfolding settle_signed_order_core payload_terms
  core_order_unmarked accounts d a w ea h = after_fail_if _ _ _ w h λ c1 h1.
      after_fail_if _ _ _ w h1 λ c2 h2. after_lift _ _ w h2 λ b eb h3.
        after_reads _ _ w h3 λ coll ec h4. after_fail_if _ _ _ w h4 λ c3 h5.
          after_fail_if _ _ _ w h5 λ c4 h6. after_lift _ _ w h6 λ u timely h7.
            after_fail_if _ _ _ w h7 λ c5 h8. after_bind _ _ w h8 λ bump w1 e1 h9.
              let same : b ≡ a = cc in
              ap
                (λ (v : CoreOrderAccounts).
                  marked_lamports rt program_id v.auth.maker.key (slice d 56 88) w.ledger)
                (sym same)
              ∙ mark_order_unmarked rt refuses program_id _ _ b.auth w w1 bump timely e1

  pnft_bid_unmarked :
      (accounts : List AccountInfo) (d : Bytes) (a : PnftBidAccounts) (w : World)
      {x : Unit {0} × World}
      → pnft_bid_accounts accounts ≡ ok a
      → settle_signed_bid_pnft rt program_id accounts d w ≡ ok x
      → marked_lamports rt program_id a.auth.maker.key (slice d 56 88) w.ledger ≡ 0
  unfolding settle_signed_bid_pnft payload_terms
  pnft_bid_unmarked accounts d a w ea h = after_fail_if _ _ _ w h λ c1 h1.
      after_lift _ _ w h1 λ b eb h2. after_fail_if _ _ _ w h2 λ c2 h3.
        after_bind _ _ w h3 λ bump w1 e1 h4.
          let same : b ≡ a = cc in
          ap
            (λ (v : PnftBidAccounts).
              marked_lamports rt program_id v.auth.maker.key (slice d 56 88) w.ledger)
            (sym same)
          ∙ bid_common_unmarked rt refuses program_id _ b.auth w w1 bump e1

  core_bid_unmarked :
      (accounts : List AccountInfo) (d : Bytes) (a : CoreBidAccounts) (w : World)
      {x : Unit {0} × World}
      → core_bid_accounts accounts ≡ ok a
      → settle_signed_bid_core rt program_id accounts d w ≡ ok x
      → marked_lamports rt program_id a.auth.maker.key (slice d 56 88) w.ledger ≡ 0
  unfolding settle_signed_bid_core payload_terms
  core_bid_unmarked accounts d a w ea h = after_fail_if _ _ _ w h λ c1 h1.
      after_lift _ _ w h1 λ b eb h2. after_reads _ _ w h2 λ coll ec h3.
        after_fail_if _ _ _ w h3 λ c2 h4. after_bind _ _ w h4 λ bump w1 e1 h5.
          let same : b ≡ a = cc in
          ap
            (λ (v : CoreBidAccounts).
              marked_lamports rt program_id v.auth.maker.key (slice d 56 88) w.ledger)
            (sym same)
          ∙ bid_common_unmarked rt refuses program_id _ b.auth w w1 bump e1

  -- When creating an account refuses an address that holds lamports, and the marker of a maker
  -- and a nonce holds lamports, none of the four settlements of NFTs, an order or a bid for a
  -- programmable NFT or a Core asset, goes through for this maker with this nonce.
  pub nft_settles_once :
      (po co pb cb : List AccountInfo) (d : Bytes) (a : PnftOrderAccounts) (b : CoreOrderAccounts)
      (e : PnftBidAccounts) (f : CoreBidAccounts) (maker : Pubkey) (w : World)
      (x : Unit {0} × World)
      → pnft_order_accounts po ≡ ok a
      → core_order_accounts co ≡ ok b
      → pnft_bid_accounts pb ≡ ok e
      → core_bid_accounts cb ≡ ok f
      → a.auth.maker.key ≡ maker
      → b.auth.maker.key ≡ maker
      → e.auth.maker.key ≡ maker
      → f.auth.maker.key ≡ maker
      → marked_lamports rt program_id maker (slice d 56 88) w.ledger ≢ 0
      → (settle_signed_order_pnft rt program_id po d w ≢ ok x)
        × (settle_signed_order_core rt program_id co d w ≢ ok x)
        × (settle_signed_bid_pnft rt program_id pb d w ≢ ok x)
        × (settle_signed_bid_core rt program_id cb d w ≢ ok x)
  nft_settles_once po co pb cb d a b e f maker w x ea eb ee ef ma mb me mf used =
      let at = λ (k : Pubkey). marked_lamports rt program_id k (slice d 56 88) w.ledger in
      (
        λ h. used (ap at (sym ma) ∙ pnft_order_unmarked po d a w ea h),
        λ h. used (ap at (sym mb) ∙ core_order_unmarked co d b w eb h),
        λ h. used (ap at (sym me) ∙ pnft_bid_unmarked pb d e w ee h),
        λ h. used (ap at (sym mf) ∙ core_bid_unmarked cb d f w ef h),
      )
