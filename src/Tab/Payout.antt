-- ===== src/Tab/Payout.antt =====
-- A claim and a reclaim go through exactly when their guards hold, and what they then do is to
-- sweep the account into the one who asked.
use xete_programs.Base.{
  ◌≡◌, ◌↔◌, ◌∙◌, refl, ap, subst, subst₂, not, List, [], ◌∷◌, Bytes, length, slice, length-slice,
  arith, eq_of_not_ne, ltb-false, ltb_of_le, not_ne_of_eq,
}
use xete_programs.Base.Int.{◌≤ℤ◌, ltb_ℤ_false, ltb_ℤ_of_le}
use xete_programs.Base.Words.{i64_from_le}
use xete_programs.Chain.Result.{ok}
use xete_programs.Chain.Types.{Pubkey, AccountInfo, Runtime, World}
use xete_programs.Chain.Action.{
  after_fail_if, after_lift, after_reads, fail_if-ok, lift-ok, reads-ok,
}
use xete_programs.Chain.Decode.{arr32-ok, arr32_of_length}
use xete_programs.Chain.Sweep.{swept, sweep-inv, sweep_of_fits}
use xete_programs.Tab.{verify_pda, two_accounts, close, claim, reclaim}
use xete_programs.Tab.Spec.{
  salt_of, Claimable, Reclaimable, two_accounts-ok, verify_pda-inv, verify_pda-ok,
  opened_unlock-inv, opened_unlock-ok, check_depositor-inv, check_depositor-ok,
}

module _ (rt : Runtime) (program_id : Pubkey) (d : Bytes) where
  -- A claim that goes through met every guard, and has swept the account.
  pub claim-inv :
      (accounts : List AccountInfo) (w : World) {x : Unit {0} × World}
      → claim rt program_id accounts d w ≡ ok x
      → (b s : AccountInfo) × (accounts ≡ b ∷ s ∷ [])
        × Claimable rt program_id b s d w.ledger
        × (x.1 ≡ record w { ledger = swept s.key b.key w.ledger })
  unfolding claim close
  claim-inv accounts w h = after_fail_if _ _ _ w h λ c1 h1. after_lift _ _ w h1 λ id eid h2.
      after_fail_if _ _ _ w h2 λ c2 h3. after_lift _ _ w h3 λ p ep h4.
        after_fail_if _ _ _ w h4 λ c3 h5. after_reads _ _ w h5 λ u epda h6.
          after_reads _ _ w h6 λ unlock eo h7. after_lift _ _ w h7 λ now en h8.
            after_fail_if _ _ _ w h8 λ c4 h9.
              let opened = opened_unlock-inv rt p.0 p.1 (salt_of d) w.ledger eo in
              let moved = sweep-inv p.1 p.0 w h9 in
              (
                p.0,
                p.1,
                two_accounts-ok accounts ep,
                record {
                  framed = ltb-false _ _ c2;
                  signed = ground arith;
                  settlement = verify_pda-inv rt program_id d p.1 w.ledger (
                      subst (λ i. verify_pda rt program_id p.1 i w.ledger ≡ ok tt)
                        (arr32-ok _ eid).0 epda);
                  opens = opened.0;
                  now = now;
                  clock = en;
                  unlocked = subst (λ z. z ≤ℤ now) opened.1 (ltb_ℤ_false now unlock c4);
                  fits = moved.1;
                },
                moved.0,
              )

  -- With the guards met a claim goes through.
  pub claim-ok :
      (b s : AccountInfo) (w : World)
      → Claimable rt program_id b s d w.ledger
      → claim rt program_id (b ∷ s ∷ []) d w
        ≡ ok (tt, record w { ledger = swept s.key b.key w.ledger })
  unfolding claim close two_accounts
  claim-ok b s w g =
      fail_if-ok _ _ _ w (ltb_of_le (length d) 36 (omega (arith, g.framed)))
      ∙ (lift-ok _ _ w _
            (arr32_of_length _ (length-slice d 0 32 (omega arith) (omega (arith, g.framed))))
          ∙ (fail_if-ok _ _ _ w (ltb_of_le (length d) _ g.framed)
              ∙ (lift-ok _ _ w _ refl
                  ∙ (fail_if-ok _ _ _ w (ap not g.signed)
                      ∙ (reads-ok _ _ w _ (verify_pda-ok rt program_id d s w.ledger g.settlement)
                          ∙ (reads-ok _ _ w _ (opened_unlock-ok rt b s (salt_of d) w.ledger g.opens)
                              ∙ (lift-ok _ _ w _ g.clock
                                  ∙ (fail_if-ok _ _ _ w (
                                        ltb_ℤ_of_le g.now
                                          (i64_from_le (slice (w.ledger s.key).contents 72 80))
                                          g.unlocked)
                                      ∙ sweep_of_fits s b w g.fits))))))))

  pub reclaim-inv :
      (accounts : List AccountInfo) (w : World) {x : Unit {0} × World}
      → reclaim rt program_id accounts d w ≡ ok x
      → (b s : AccountInfo) × (accounts ≡ b ∷ s ∷ [])
        × Reclaimable rt program_id b s d w.ledger
        × (x.1 ≡ record w { ledger = swept s.key b.key w.ledger })
  unfolding reclaim close
  reclaim-inv accounts w h = after_fail_if _ _ _ w h λ c1 h1. after_lift _ _ w h1 λ id eid h2.
      after_lift _ _ w h2 λ p ep h3. after_fail_if _ _ _ w h3 λ c2 h4.
        after_reads _ _ w h4 λ u epda h5. after_reads _ _ w h5 λ v edep h6.
          let mine = check_depositor-inv p.0 p.1 w.ledger edep in
          let moved = sweep-inv p.1 p.0 w h6 in
          (
            p.0,
            p.1,
            two_accounts-ok accounts ep,
            record {
              framed = eq_of_not_ne _ _ c1;
              signed = ground arith;
              settlement = verify_pda-inv rt program_id d p.1 w.ledger (
                  subst (λ i. verify_pda rt program_id p.1 i w.ledger ≡ ok tt) (arr32-ok _ eid).0
                    epda);
              sized = mine.0;
              depositor = mine.1;
              fits = moved.1;
            },
            moved.0,
          )

  pub reclaim-ok :
      (b s : AccountInfo) (w : World)
      → Reclaimable rt program_id b s d w.ledger
      → reclaim rt program_id (b ∷ s ∷ []) d w
        ≡ ok (tt, record w { ledger = swept s.key b.key w.ledger })
  unfolding reclaim close two_accounts
  reclaim-ok b s w g =
      fail_if-ok _ _ _ w (not_ne_of_eq _ _ g.framed)
      ∙ (lift-ok _ _ w _
            (arr32_of_length _ (length-slice d 0 32 (omega arith) (omega (arith, g.framed))))
          ∙ (lift-ok _ _ w _ refl
              ∙ (fail_if-ok _ _ _ w (ap not g.signed)
                  ∙ (reads-ok _ _ w _ (verify_pda-ok rt program_id d s w.ledger g.settlement)
                      ∙ (reads-ok _ _ w _ (check_depositor-ok b s w.ledger g.sized g.depositor)
                          ∙ sweep_of_fits s b w g.fits)))))

  -- A claim ends in the world w' exactly when the accounts are a claimant and a settlement account
  -- that meet the guards (a signature, the address and the owner, the opened commitment, the
  -- unlock time, a balance that fits), and w' is w with the account swept into the claimant.
  pub claim_exact :
      (accounts : List AccountInfo) (w w' : World)
      → (claim rt program_id accounts d w ≡ ok (tt, w')) ↔ (
          (b s : AccountInfo) × (accounts ≡ b ∷ s ∷ [])
          × Claimable rt program_id b s d w.ledger
          × (w' ≡ record w { ledger = swept s.key b.key w.ledger }))
  claim_exact accounts w w' =
      (λ h. claim-inv accounts w h, λ g. rw (g.2, g.4) (claim-ok g.0 g.1 w g.3))

  -- A reclaim ends in the world w' exactly when the payload is 32 bytes, the accounts are the
  -- signing depositor that the settlement account stores and that account at its address, owned by
  -- the program, and w' is w with the account swept into the depositor. No time lock applies.
  pub reclaim_exact :
      (accounts : List AccountInfo) (w w' : World)
      → (reclaim rt program_id accounts d w ≡ ok (tt, w')) ↔ (
          (b s : AccountInfo) × (accounts ≡ b ∷ s ∷ [])
          × Reclaimable rt program_id b s d w.ledger
          × (w' ≡ record w { ledger = swept s.key b.key w.ledger }))
  reclaim_exact accounts w w' =
      (λ h. reclaim-inv accounts w h, λ g. rw (g.2, g.4) (reclaim-ok g.0 g.1 w g.3))

  same_pair : {b s b' s' : AccountInfo} → b ∷ s ∷ [] ≡ b' ∷ s' ∷ [] → (b' ≡ b) × (s' ≡ s)
  same_pair e = (cc, cc)

  pub claim_pair-inv :
      (b s : AccountInfo) (w w' : World)
      → claim rt program_id (b ∷ s ∷ []) d w ≡ ok (tt, w')
      → Claimable rt program_id b s d w.ledger
        × (w' ≡ record w { ledger = swept s.key b.key w.ledger })
  claim_pair-inv b s w w' h =
      let g = claim-inv (b ∷ s ∷ []) w h in
      let e = same_pair g.2 in
      subst₂
        (λ (x y : AccountInfo).
          Claimable rt program_id x y d w.ledger
          × (w' ≡ record w { ledger = swept y.key x.key w.ledger }))
        e.0 e.1 (g.3, g.4)

  pub reclaim_pair-inv :
      (b s : AccountInfo) (w w' : World)
      → reclaim rt program_id (b ∷ s ∷ []) d w ≡ ok (tt, w')
      → Reclaimable rt program_id b s d w.ledger
        × (w' ≡ record w { ledger = swept s.key b.key w.ledger })
  reclaim_pair-inv b s w w' h =
      let g = reclaim-inv (b ∷ s ∷ []) w h in
      let e = same_pair g.2 in
      subst₂
        (λ (x y : AccountInfo).
          Reclaimable rt program_id x y d w.ledger
          × (w' ≡ record w { ledger = swept y.key x.key w.ledger }))
        e.0 e.1 (g.3, g.4)
