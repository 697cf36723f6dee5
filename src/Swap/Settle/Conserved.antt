-- ===== src/Swap/Settle/Conserved.antt =====
-- What a settlement transfers: the calls it makes, in order, and what their amounts sum to
-- (swap/src/settle.rs).
use xete_programs.Base.{
  ◌⊎◌, ℕ, ◌+◌, ◌-◌, ◌≤◌, ◌<◌, ◌≡◌, refl, sym, ap, ◌∙◌, subst, true, false, ltb, List, [], ◌∷◌, ◌++◌,
  arith, Bool-cases, inl, inr, if◌then◌else◌,
}
use xete_programs.Base.Words.{u64_mod}
use xete_programs.Chain.Result.{ok, ProgramError, panicked}
use xete_programs.Chain.Types.{Pubkey, AccountInfo, Runtime, World, Effect, cpi}
use xete_programs.Chain.Ran.{Did, Did-trans, Did-nothing, perform-Did}
use xete_programs.Chain.Action.{when, after_bind, after_lift, after_reads, after_when}
use xete_programs.Swap.Cpi.{token_transfer, transfer_call}
use xete_programs.Swap.Config.Policy.{Policy, read_config, verify_fee_dest}
use xete_programs.Swap.Settle.Load.{bps_of, sub_or, add_or}
use xete_programs.Swap.Settle.{Leg, leg_transfer, pay_fee, pay_leg}

-- A payment out of a leg's source: the account that receives it, and how much.
abbrev pub Payment : Type 0
Payment = AccountInfo × ℕ

-- The transfer calls of payments out of one leg, in order.
abbrev pub transfers : Leg → List Payment → List Effect
transfers leg [] = []
transfers leg ((dest, n) ∷ ps) =
    cpi (
      transfer_call leg.token_prog leg.payer leg.mint dest leg.authority n leg.decimals
        leg.signer_seeds)
    ∷ transfers leg ps

abbrev pub total : List Payment → ℕ
total [] = 0
total ((_, n) ∷ ps) = n + total ps

-- A payment that is made unless it is of nothing.
abbrev pub nonzero : AccountInfo → ℕ → List Payment
nonzero dest n = if ltb 0 n then (dest, n) ∷ [] else []

transfers-append :
    (leg : Leg) (ps qs : List Payment)
    → transfers leg (ps ++ qs) ≡ transfers leg ps ++ transfers leg qs
transfers-append leg [] qs = refl
transfers-append leg ((dest, n) ∷ ps) qs = rw (transfers-append leg ps qs)

pub total-append : (ps qs : List Payment) → total (ps ++ qs) ≡ total ps + total qs
total-append [] qs = omega arith
total-append ((_, n) ∷ ps) qs = omega (arith, total-append ps qs)

pub total-nonzero : (dest : AccountInfo) (n : ℕ) → total (nonzero dest n) ≡ n
total-nonzero dest n = ground arith

-- The leg has made these payments and nothing else: the ledger is what the calls made of it.
abbrev pub Paid : Runtime → Leg → List Payment → World → World → Type 0
Paid rt leg ps w w' = Did rt (transfers leg ps) w w'

pub Paid-trans :
    (rt : Runtime) (leg : Leg) (ps qs : List Payment) (u v w : World)
    → Paid rt leg ps u v
    → Paid rt leg qs v w
    → Paid rt leg (ps ++ qs) u w
Paid-trans rt leg ps qs u v w h k =
    subst (λ es. Did rt es u w) (sym (transfers-append leg ps qs))
      (Did-trans rt (transfers leg ps) (transfers leg qs) u v w h k)

pub sub_or-inv : (e : ProgramError) (a b : ℕ) {c : ℕ} → sub_or e a b ≡ ok c → (c ≡ a - b) × (b ≤ a)
unfolding sub_or
sub_or-inv e a b h = ground arith

pub add_or-inv :
    (e : ProgramError) (a b : ℕ) {c : ℕ} → add_or e a b ≡ ok c → (c ≡ a + b) × (c < u64_mod)
unfolding add_or
add_or-inv e a b h = ground arith

module _ (rt : Runtime) (leg : Leg) where
  pub leg_transfer-Paid :
      (dest : AccountInfo) (n : ℕ) (w : World) {x : Unit {0} × World}
      → leg_transfer rt leg dest n w ≡ ok x
      → Paid rt leg ((dest, n) ∷ []) w x.1
  unfolding leg_transfer token_transfer
  leg_transfer-Paid dest n w h = perform-Did rt _ w h

  pub Paid-nothing : (w : World) {x : Unit {0} × World} → x ≡ (tt, w) → Paid rt leg [] w x.1
  Paid-nothing w e = Did-nothing rt w (ap (λ (y : Unit {0} × World). y.1) e)

  -- The payment of a transfer that is made unless it is of nothing.
  pub Paid-nonzero :
      (dest : AccountInfo) (n : ℕ) (w : World) {x : Unit {0} × World}
      → (ltb 0 n ≡ true → leg_transfer rt leg dest n w ≡ ok x)
      → (ltb 0 n ≡ false → x ≡ (tt, w))
      → Paid rt leg (nonzero dest n) w x.1
  Paid-nonzero dest n w {x} h k = elim (Bool-cases (ltb 0 n)) [
    | inl c ↦
        subst (λ b. Paid rt leg (if b then (dest, n) ∷ [] else []) w x.1) (sym c)
          (leg_transfer-Paid dest n w (h c))
    | inr c ↦
        subst (λ b. Paid rt leg (if b then (dest, n) ∷ [] else []) w x.1) (sym c)
          (Paid-nothing w (k c))
  ]

  pub Paid-unless_zero :
      (dest : AccountInfo) (n : ℕ) (w : World) {x : Unit {0} × World}
      → when (ltb 0 n) (leg_transfer rt leg dest n) w ≡ ok x
      → Paid rt leg (nonzero dest n) w x.1
  Paid-unless_zero dest n w h =
      after_when _ _ w h (λ c h1. Paid-nonzero dest n w (λ _. h1) (λ z. absurd cc))
        (λ c e. Paid-nonzero dest n w (λ z. absurd cc) (λ _. e))

module _ (rt : Runtime) (program_id : Pubkey) (leg : Leg) where
  pub pay_fee-Paid :
      (policy : Policy) (fee : ℕ) (w : World) {x : Unit {0} × World}
      → pay_fee rt program_id leg policy fee w ≡ ok x
      → Paid rt leg (nonzero leg.fee_ata fee) w x.1
        × ((fee ≡ 0)
            ⊎ (verify_fee_dest rt program_id leg.fee_ata leg.mint policy.fee_wallet
                  policy.fee_shards leg.shard_seed w.ledger
                ≡ ok tt))
  unfolding pay_fee
  pay_fee-Paid policy fee w {x} h =
      after_when _ _ w h
        (λ c h1.
          after_reads _ _ w h1
            λ u ev h2. (Paid-nonzero rt leg leg.fee_ata fee w (λ _. h2) (λ z. absurd cc), inr ev))
        (λ c e. (
          Paid-nonzero rt leg leg.fee_ata fee w (λ z. absurd cc) (λ _. e),
          inl (ground (arith, c)),
        ))

  -- What a leg pays, and to whom.
  abbrev pub LegPaid : ℕ → (w w' : World) → Type 0
  LegPaid amount w w' =
      (policy : Policy) × (read_config rt program_id leg.config w.ledger ≡ ok policy)
      × (ps : List Payment) × (ps
          ≡ nonzero leg.fee_ata (bps_of amount policy.fee_bps)
            ++ (leg.payee, amount - bps_of amount policy.fee_bps) ∷ [])
      × Paid rt leg ps w w'
      × (total ps ≡ amount)
      × ((bps_of amount policy.fee_bps ≡ 0)
          ⊎ (verify_fee_dest rt program_id leg.fee_ata leg.mint policy.fee_wallet policy.fee_shards
                leg.shard_seed w.ledger
              ≡ ok tt))

  -- A leg that goes through has read the policy, and has made two payments out of its source at
  -- most: the fee, when there is one, to an account that the policy admits, then the rest to the
  -- payee. Together they are exactly the amount.
  pub pay_leg_conserves :
      (amount : ℕ) (w w' : World)
      → pay_leg rt program_id leg amount w ≡ ok (tt, w')
      → LegPaid amount w w'
  unfolding pay_leg
  pay_leg_conserves amount w w' h = after_reads _ _ w h λ policy ep h1.
      after_bind _ _ w h1 λ _ w1 efee h2. after_lift _ _ w1 h2 λ rest er h3.
        let fee = bps_of amount policy.fee_bps in
        let paid_fee = pay_fee-Paid policy fee w efee in
        let left = sub_or-inv panicked amount fee er in
        let paid_rest = leg_transfer-Paid rt leg leg.payee rest w1 h3 in
        let both : Paid rt leg (nonzero leg.fee_ata fee ++ (leg.payee, rest) ∷ []) w w' =
          Paid-trans rt leg (nonzero leg.fee_ata fee) ((leg.payee, rest) ∷ []) w w1 w' paid_fee.0
            paid_rest in
        (
          policy,
          ep,
          nonzero leg.fee_ata fee ++ (leg.payee, rest) ∷ [],
          ap (λ n. nonzero leg.fee_ata fee ++ (leg.payee, n) ∷ []) left.0,
          both,
          total-append (nonzero leg.fee_ata fee) ((leg.payee, rest) ∷ [])
              ∙ (let t = total-nonzero leg.fee_ata fee in omega (arith, t, left.0, left.1)),
          paid_fee.1,
        )
