-- ===== src/Tab/Once.antt =====
-- A settlement account pays out once, and all it holds.
use xete_programs.Base.{
  ℕ, ◌+◌, ◌-◌, ◌≤◌, ◌≡◌, ◌≢◌, ◌∙◌, ap, sym, [], ◌∷◌, ◌⊎◌, inl, inr, Bytes, length, slice, replicate,
  slice-replicate, arith, length-replicate, subst,
}
use xete_programs.Chain.Result.{ok}
use xete_programs.Chain.Types.{Pubkey, Account, AccountInfo, Runtime, World}
use xete_programs.Chain.Sweep.{swept, Swept, swept-Swept, with_lamports}
use xete_programs.Tab.Spec.{salt_of}
use xete_programs.Tab.{claim, reclaim}
use xete_programs.Tab.Payout.{claim_pair-inv, reclaim_pair-inv}

abbrev pub zero_key : Pubkey
zero_key = replicate 32 0

wiped_field :
    (c : Bytes) (n : ℕ)
    → c ≡ replicate n 0
    → (a b : ℕ) → a ≤ b
    → b ≤ length c
    → slice c a b ≡ replicate (b - a) 0
wiped_field c n e a b h k =
    ap (λ x. slice x a b) e
    ∙ slice-replicate n a b h (omega (arith, ap length e, length-replicate {A = ℕ} n 0))

module _ (rt : Runtime) (program_id : Pubkey) where
  -- A claim or a reclaim of the account s by b took the world w to w'.
  abbrev pub PaysOut : AccountInfo → AccountInfo → Bytes → World → World → Type 0
  PaysOut b s d w w' =
      (claim rt program_id (b ∷ s ∷ []) d w ≡ ok (tt, w'))
      ⊎ (reclaim rt program_id (b ∷ s ∷ []) d w ≡ ok (tt, w'))

  PaysOut-ledger :
      (b s : AccountInfo) (d : Bytes) (w w' : World)
      → PaysOut b s d w w'
      → w' ≡ record w { ledger = swept s.key b.key w.ledger }
  PaysOut-ledger b s d w w' (inl h) = (claim_pair-inv rt program_id d b s w w' h).1
  PaysOut-ledger b s d w w' (inr h) = (reclaim_pair-inv rt program_id d b s w w' h).1

  -- Whoever is paid gets the whole balance, the account is left empty and zeroed, and no other
  -- account changes: the lamports of the two together stay the same.
  pub PaysOut-Swept :
      (b s : AccountInfo) (d : Bytes) (w w' : World)
      → b.key ≢ s.key
      → PaysOut b s d w w'
      → Swept s.key b.key w.ledger w'.ledger
        × ((w'.ledger b.key).lamports + (w'.ledger s.key).lamports
            ≡ (w.ledger b.key).lamports + (w.ledger s.key).lamports)
        × (w'.effects ≡ w.effects)
  unfolding with_lamports
  PaysOut-Swept b s d w w' ne h =
      let e = PaysOut-ledger b s d w w' h in
      let sw : Swept s.key b.key w.ledger w'.ledger =
        subst (λ (v : World). Swept s.key b.key w.ledger v.ledger) (sym e)
          (swept-Swept s.key b.key w.ledger (λ q. ne (sym q))) in
      let got : (w'.ledger b.key).lamports ≡ (w.ledger b.key).lamports + (w.ledger s.key).lamports =
        ap (λ (a : Account). a.lamports) sw.paid in
      (sw, omega (arith, got, sw.emptied), ap (λ (v : World). v.effects) e)

  -- After a payout of the account s, no claim and no reclaim of s goes through again, by any k
  -- whose key is not all zeros and whose hash with the salt of the later payload is not 32 zeros.
  pub paid_once :
      (b s k : AccountInfo) (d d' : Bytes) (w w' w'' : World)
      → b.key ≢ s.key
      → PaysOut b s d w w'
      → k.key ≢ zero_key
      → rt.hashv (k.key ∷ salt_of d' ∷ []) ≢ zero_key
      → ¬ PaysOut k s d' w' w''
  paid_once b s k d d' w w' w'' ne h nonzero unhashed (inl again) =
      let g = (claim_pair-inv rt program_id d' k s w' w'' again).0 in
      unhashed (
        g.opens.commitment
        ∙ wiped_field (w'.ledger s.key).contents _ (PaysOut-Swept b s d w w' ne h).0.wiped 40 72
            (omega arith) (omega (arith, g.opens.sized)))
  paid_once b s k d d' w w' w'' ne h nonzero unhashed (inr again) =
      let g = (reclaim_pair-inv rt program_id d' k s w' w'' again).0 in
      nonzero (
        sym g.depositor
        ∙ wiped_field (w'.ledger s.key).contents _ (PaysOut-Swept b s d w w' ne h).0.wiped 0 32
            (omega arith) g.sized)
