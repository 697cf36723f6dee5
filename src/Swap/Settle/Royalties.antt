-- ===== src/Swap/Settle/Royalties.antt =====
-- A settlement with a royalty: what the taker and the maker pay, and what the creators receive
-- (swap/src/settle.rs).
use xete_programs.Base.{
  ◌⊎◌, ℕ, ◌+◌, ◌-◌, ◌≤◌, ◌≡◌, refl, sym, ap, ◌∙◌, subst, ltb, List, [], ◌∷◌, ◌++◌, Option, length,
  sum, take, replicate, arith, inl, inr, take-append, ltb-false,
}
use xete_programs.Chain.Result.{ok, panicked, arithmetic_overflow, insufficient_funds}
use xete_programs.Chain.Types.{Pubkey, AccountInfo, Runtime, World}
use xete_programs.Chain.Action.{
  lift, when, ◌>>=◌, after_lift, after_when, after_bind, after_reads, after_fail_if,
}
use xete_programs.Swap.Royalty.{max_creators, split_by_share}
use xete_programs.Swap.Royalty.Split.{IsSplit, split_by_share_shared}
use xete_programs.Swap.Config.Policy.{Policy, read_config, verify_fee_dest}
use xete_programs.Swap.Settle.Load.{bps_of, RoyaltyTerms}
use xete_programs.Swap.Settle.{Leg, pay_creators, pay_want_and_royalty}
use xete_programs.Swap.Settle.Conserved.{
  Payment, total, nonzero, Paid, Paid-trans, Paid-nothing, total-append, total-nonzero,
  Paid-unless_zero, leg_transfer-Paid, pay_fee-Paid, sub_or-inv, add_or-inv,
}
use xete_programs.Swap.Settle.Terms.{
  Payable, resolve_royalty-Payable, AreTerms, resolve_royalty-AreTerms,
}

-- The payouts of the creators, those of nothing left out.
abbrev pub creator_payments : List AccountInfo → List ℕ → List Payment
creator_payments [] ns = []
creator_payments (ca ∷ atas) [] = []
creator_payments (ca ∷ atas) (n ∷ ns) = nonzero ca n ++ creator_payments atas ns

pub total-creator_payments :
    (atas : List AccountInfo) (ns : List ℕ)
    → length atas ≤ length ns
    → total (creator_payments atas ns) ≡ sum (take (length atas) ns)
total-creator_payments [] ns h = refl
total-creator_payments (ca ∷ atas) [] h = absurd (omega arith)
total-creator_payments (ca ∷ atas) (n ∷ ns) h =
    total-append (nonzero ca n) (creator_payments atas ns)
    ∙ (let t = total-nonzero ca n in
        let r = total-creator_payments atas ns (omega arith) in omega (arith, t, r))

-- Payouts past the last account go nowhere.
creator_payments-append :
    (atas : List AccountInfo) (ns more : List ℕ)
    → length atas ≡ length ns
    → creator_payments atas (ns ++ more) ≡ creator_payments atas ns
creator_payments-append [] ns more h = refl
creator_payments-append (ca ∷ atas) [] more h = absurd (omega arith)
creator_payments-append (ca ∷ atas) (n ∷ ns) more h =
    ap (λ r. nonzero ca n ++ r) (creator_payments-append atas ns more (omega arith))

-- What the creators receive: nothing of no royalty, else each creator's account gets the payout of its
-- own share.
abbrev pub CreatorsPaid : RoyaltyTerms → List AccountInfo → List Payment → Type 0
CreatorsPaid t atas ps =
    ((t.royalty ≡ 0) × (ps ≡ []))
    ⊎ ((out : List ℕ) × IsSplit t.royalty t.royalty t.shares out
        × (length out ≡ length atas)
        × (ps ≡ creator_payments atas out))

module _ (rt : Runtime) (leg : Leg) where
  pay_creators-Paid :
      (atas : List AccountInfo) (ns : List ℕ) (w : World) {x : Unit {0} × World}
      → pay_creators rt leg atas ns w ≡ ok x
      → (Paid rt leg (creator_payments atas ns) w x.1) × (length atas ≤ length ns)
  unfolding pay_creators lift
  pay_creators-Paid [] ns w {x} h =
      (Paid-nothing rt leg w {x = x} (let e : x ≡ (tt, w) = ground arith in e), omega arith)
  pay_creators-Paid (ca ∷ atas) [] w h = absurd (ground arith)
  pay_creators-Paid (ca ∷ atas) (n ∷ ns) w {x} h = after_bind _ _ w h λ _ w1 e1 h1.
      let rest = pay_creators-Paid atas ns w1 h1 in
      (
        Paid-trans rt leg (nonzero ca n) (creator_payments atas ns) w w1 x.1
            (Paid-unless_zero rt leg ca n w e1) rest.0,
        omega (arith, rest.1),
      )

  -- The payouts of terms that can be paid: each creator's own, and their sum is the royalty.
  pay_royalty-Paid :
      (t : RoyaltyTerms) (atas : List AccountInfo) (w : World) {x : Unit {0} × World}
      → Payable t atas
      → when
          (ltb 0 t.royalty)
          (lift (split_by_share t.royalty t.shares) >>= λ splits. pay_creators rt leg atas splits)
          w
        ≡ ok x
      → (ps : List Payment) × CreatorsPaid t atas ps × Paid rt leg ps w x.1 × (total ps ≡ t.royalty)
  pay_royalty-Paid t atas w {x} p h =
      after_when _ _ w h
        (λ c h1. after_lift _ _ w h1 λ splits es h2. elim p [
          | inl z ↦ absurd (ground (arith, c, z))
          | inr q ↦
              let (out, run, len, all, shared) =
                split_by_share_shared t.royalty t.shares q.0 q.1 q.2 in
              let zeros = replicate (max_creators - length t.shares) 0 in
              let padded : splits ≡ out ++ zeros = ground (arith, es, run) in
              let paid = pay_creators-Paid atas splits w h2 in
              let same : length out ≡ length atas = len ∙ sym q.3 in
              let cut : take (length atas) splits ≡ out =
                ap (take (length atas)) padded ∙ take-append (length atas) out zeros same in
              let exact : creator_payments atas splits ≡ creator_payments atas out =
                ap (creator_payments atas) padded
                ∙ creator_payments-append atas out zeros (sym same) in
              (
                creator_payments atas splits,
                inr (out, shared, same, exact),
                paid.0,
                total-creator_payments atas splits paid.1 ∙ (ap sum cut ∙ all),
              )
        ])
        (λ c e.
          let none_due : t.royalty ≡ 0 = ground (arith, c) in
          ([], inl (none_due, refl), Paid-nothing rt leg w {x = x} e, sym none_due))

-- What a settlement with a royalty pays, and to whom.
abbrev pub RoyaltyPaid :
    Runtime
    → Pubkey
    → Leg
    → (want_amount max_want royalty_mode maker_pct : ℕ) → (give_mint : AccountInfo)
    → Option AccountInfo
    → List AccountInfo
    → (w w' : World) → Type 0
RoyaltyPaid rt program_id leg want_amount max_want royalty_mode maker_pct give_mint metadata atas w
      w' =
    (policy : Policy) × (terms : RoyaltyTerms) × (creators : List Payment) × (read_config rt
        program_id leg.config w.ledger
      ≡ ok policy)
    × AreTerms rt leg.mint give_mint metadata atas want_amount royalty_mode maker_pct w.ledger terms
    × ((bps_of want_amount policy.fee_bps ≡ 0)
        ⊎ (verify_fee_dest rt program_id leg.fee_ata leg.mint policy.fee_wallet policy.fee_shards
              leg.shard_seed w.ledger
            ≡ ok tt))
    × Paid rt leg
        (nonzero leg.fee_ata (bps_of want_amount policy.fee_bps)
          ++ (leg.payee, want_amount - bps_of want_amount policy.fee_bps - terms.maker_share)
            ∷ creators)
        w w'
    × CreatorsPaid terms atas creators
    × (total creators ≡ terms.royalty)
    × (total (
          nonzero leg.fee_ata (bps_of want_amount policy.fee_bps)
          ++ (leg.payee, want_amount - bps_of want_amount policy.fee_bps - terms.maker_share)
            ∷ creators)
        ≡ want_amount + (terms.royalty - terms.maker_share))
    × (want_amount + (terms.royalty - terms.maker_share) ≤ max_want)

-- A settlement with a royalty that goes through has read the policy and the terms of the royalty:
-- nothing without a royalty mode, else what the asset's metadata declares, with one account of each
-- creator. It has made these calls and no others, and the ledger is what they made of it: the fee,
-- when there is one, to an account that the policy admits; the price less the fee and the maker's
-- share of the royalty, to the payee; then to each creator's own account the payout of its share,
-- rounded down but for the last, which gets what is left. The creators' payouts sum to the royalty,
-- and all of them to the price and the taker's share of the royalty, which is at most the taker's
-- limit.
pub pay_want_and_royalty_conserves :
    (rt : Runtime) (program_id : Pubkey) (leg : Leg)
    (want_amount max_want royalty_mode maker_pct : ℕ) (give_mint : AccountInfo)
    (metadata : Option AccountInfo) (atas : List AccountInfo) (w w' : World)
    → pay_want_and_royalty rt program_id leg want_amount max_want royalty_mode maker_pct give_mint
        metadata atas w
      ≡ ok (tt, w')
    → RoyaltyPaid rt program_id leg want_amount max_want royalty_mode maker_pct give_mint metadata
        atas w w'
unfolding pay_want_and_royalty
pay_want_and_royalty_conserves rt program_id leg want_amount max_want mode pct give_mint metadata
      atas w w' h =
    after_reads _ _ w h λ policy ep h1. after_reads _ _ w h1 λ terms et h2.
      after_lift _ _ w h2 λ taker_share es h3. after_lift _ _ w h3 λ taker_total eu h4.
        after_fail_if _ _ _ w h4 λ c h5. after_lift _ _ w h5 λ after_fee ea h6.
          after_lift _ _ w h6 λ payment em h7. after_bind _ _ w h7 λ _ w1 efee h8.
            after_bind _ _ w1 h8 λ _ w2 epay h9.
              let fee = bps_of want_amount policy.fee_bps in
              let share = sub_or-inv panicked terms.royalty terms.maker_share es in
              let sum_up = add_or-inv arithmetic_overflow want_amount taker_share eu in
              let first = sub_or-inv insufficient_funds want_amount fee ea in
              let second = sub_or-inv insufficient_funds after_fee terms.maker_share em in
              let fee_part = pay_fee-Paid rt program_id leg policy fee w efee in
              let (creators, own, paid, royalty) =
                pay_royalty-Paid rt leg terms atas w2
                  (resolve_royalty-Payable rt leg.mint give_mint metadata atas want_amount mode pct
                    w.ledger et)
                  h9 in
              let exact : payment ≡ want_amount - fee - terms.maker_share =
                second.0 ∙ ap (λ n. n - terms.maker_share) first.0 in
              let rest =
                Paid-trans rt leg ((leg.payee, payment) ∷ []) creators w1 w2 w'
                  (leg_transfer-Paid rt leg leg.payee payment w1 epay) paid in
              let all =
                Paid-trans rt leg (nonzero leg.fee_ata fee) ((leg.payee, payment) ∷ creators) w w1
                  w' fee_part.0 rest in
              let limit : taker_total ≤ max_want = ltb-false max_want taker_total c in
              (
                policy,
                terms,
                creators,
                ep,
                resolve_royalty-AreTerms rt leg.mint give_mint metadata atas want_amount mode pct
                    w.ledger et,
                fee_part.1,
                subst (λ n. Paid rt leg (nonzero leg.fee_ata fee ++ (leg.payee, n) ∷ creators) w w')
                    exact all,
                own,
                royalty,
                total-append (nonzero leg.fee_ata fee)
                      ((leg.payee, want_amount - fee - terms.maker_share) ∷ creators)
                    ∙ (let t = total-nonzero leg.fee_ata fee in
                        omega (arith, t, royalty, share.1, first.0, first.1, second.1)),
                omega (arith, limit, sum_up.0, share.0),
              )
