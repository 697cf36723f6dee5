-- ===== src/Swap/Slot/Charged.antt =====
-- The flat fee of a delisting: who pays it, to whom, and what it leaves alone (swap/src/pnft.rs,
-- swap/src/basket.rs).
use xete_programs.Base.{
  ℕ, ◌⊎◌, ◌≡◌, refl, sym, ap, subst, List, [], ◌∷◌, none, differs-false, arith, inl, inr,
}
use xete_programs.Chain.Result.{ok}
use xete_programs.Chain.Types.{Pubkey, AccountInfo, Runtime, World, Effect, cpi, transfer_lamports}
use xete_programs.Chain.Action.{perform-inv, after_reads, after_fail_if, after_when}
use xete_programs.Chain.Ran.{Did, Did-nothing, perform-Did}
use xete_programs.Chain.Keeps.{Kept, KeepsData}
use xete_programs.Swap.Cpi.{pay_lamports}
use xete_programs.Swap.Config.Policy.{Policy, read_config}
use xete_programs.Swap.Slot.{pay_delist_fee}

module _ (rt : Runtime) (program_id : Pubkey) (config maker fee_wallet system : AccountInfo) where
  -- The maker's payment to the wallet.
  abbrev pub fee_calls : ℕ → List Effect
  fee_calls fee =
      cpi (record {
        instruction = transfer_lamports maker.key fee_wallet.key fee;
        infos = maker ∷ fee_wallet ∷ system ∷ [];
        seeds = none;
      })
      ∷ []

  -- No call when the policy has no fee, else the payment of the fee to the policy's wallet.
  abbrev pub Charges : Policy → List Effect → Type 0
  Charges policy es =
      ((policy.delist_fee ≡ 0) × (es ≡ []))
      ⊎ ((fee_wallet.key ≡ policy.fee_wallet) × (es ≡ fee_calls policy.delist_fee))

  pub pay_delist_fee-Charges :
      (keep : KeepsData rt program_id) (k : Pubkey) (w : World) {x : Unit {0} × World}
      → (w.ledger k).owner ≡ program_id
      → pay_delist_fee rt program_id config maker fee_wallet system w ≡ ok x
      → (policy : Policy) × (read_config rt program_id config w.ledger ≡ ok policy)
        × (es : List Effect) × Charges policy es
        × Did rt es w x.1
        × Kept program_id k w.ledger x.1.ledger
  unfolding pay_delist_fee pay_lamports
  pay_delist_fee-Charges keep k w {x} own h = after_reads _ _ w h λ policy ep h1.
      after_when _ _ w h1
        (λ c h2. after_fail_if _ _ _ w h2 λ c2 h3. (
          policy,
          ep,
          fee_calls policy.delist_fee,
          inr (differs-false _ _ c2, refl),
          perform-Did rt _ w h3,
          keep _ w.ledger x.1.ledger k (perform-inv rt _ w h3).0 tt own,
        ))
        (λ c e. (
          policy,
          ep,
          [],
          inl (ground (arith, c), refl),
          Did-nothing rt w (ap (λ (y : Unit {0} × World). y.1) e),
          subst (λ (y : Unit {0} × World). Kept program_id k w.ledger y.1.ledger) (sym e)
              (refl, own),
        ))
