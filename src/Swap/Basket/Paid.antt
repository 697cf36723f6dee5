-- ===== src/Swap/Basket/Paid.antt =====
-- The want entries of a basket are paid: each in full, in the stored order (swap/src/basket.rs).
use xete_programs.Base.{
  subst, arith, ℕ, suc, ◌-◌, ◌⊎◌, ◌≡◌, ◌≢◌, refl, sym, ap, ◌∙◌, List, [], ◌∷◌, ◌++◌, none, Bytes,
  get_or, differs-false,
}
use xete_programs.Chain.Result.{ok}
use xete_programs.Chain.Types.{Pubkey, AccountInfo, Ledger, Runtime, World}
use xete_programs.Chain.Action.{after_bind, after_lift, after_reads, after_fail_if, after_when}
use xete_programs.Chain.Keeps.{Kept, KeepsData, Kept-trans}
use xete_programs.Swap.Checks.Facts.{
  IsTokenAccount, HasDecimals, require_token_account-inv, mint_decimals-inv,
}
use xete_programs.Swap.Cpi.Calls.{token_transfer-Kept}
use xete_programs.Swap.Config.Policy.{Policy, verify_fee_dest}
use xete_programs.Swap.Settle.Load.{bps_of}
use xete_programs.Swap.Settle.{Leg, leg_transfer, pay_fee}
use xete_programs.Swap.Settle.Conserved.{
  Payment, total, nonzero, total-append, total-nonzero, Paid, Paid-trans, pay_fee-Paid,
  leg_transfer-Paid, sub_or-inv,
}
use xete_programs.Swap.Basket.Checks.{Entry}
use xete_programs.Swap.Basket.Loaded.{want_entry, read_entry-at}
use xete_programs.Swap.Basket.Legs.{Basket, WantLeg, pay_want_entry, pay_want_entries}

module _ (rt : Runtime) (program_id : Pubkey) (b : Basket) (config taker : AccountInfo)
    (policy : Policy) where
  -- The leg of a want entry: out of the taker's account, by the taker's signature.
  abbrev pub entry_leg : (decimals : ℕ) → WantLeg → Leg
  entry_leg decimals g = record {
    config = config;
    token_prog = b.token_prog;
    payer = g.taker_want;
    mint = g.mint;
    fee_ata = g.fee_ata;
    payee = g.maker_want;
    authority = taker;
    signer_seeds = none;
    decimals = decimals;
    shard_seed = get_or b.nonce 0 0;
  }

  -- The fee, where there is one, then the rest to the maker.
  abbrev pub entry_payments : (amount : ℕ) → WantLeg → List Payment
  entry_payments amount g =
      nonzero g.fee_ata (bps_of amount policy.fee_bps)
      ++ (g.maker_want, amount - bps_of amount policy.fee_bps) ∷ []

  -- Entry `j` of the data `s` is paid on the ledger `at`: in the entry's mint, with its decimals, to a
  -- token account of the maker, its fee to an account that the policy admits, and the payments sum to the
  -- entry's amount.
  abbrev pub IsPaid : Bytes → (at : Ledger) → (decimals j : ℕ) → WantLeg → Type 0
  IsPaid s at decimals j g =
      ((want_entry s j).mint ≡ g.mint.key)
      × IsTokenAccount g.maker_want g.mint.key b.maker.key at
      × HasDecimals g.mint decimals at
      × (total (entry_payments (want_entry s j).amount g) ≡ (want_entry s j).amount)
      × ((bps_of (want_entry s j).amount policy.fee_bps ≡ 0)
          ⊎ (verify_fee_dest rt program_id g.fee_ata g.mint policy.fee_wallet policy.fee_shards
                (get_or b.nonce 0 0) at
              ≡ ok tt))

  -- The entries of `s` from `j` on, paid in order from the world `w` to the world `w'`: each is checked on
  -- the ledger that the payments before it left, and these payments are all that is done.
  abbrev pub Pays : Bytes → ℕ → List WantLeg → (w w' : World) → Type 0
  Pays s j [] w w' = w' ≡ w
  Pays s j (g ∷ gs) w w' =
      (decimals : ℕ) × (v : World) × IsPaid s w.ledger decimals j g
      × Paid rt (entry_leg decimals g) (entry_payments (want_entry s j).amount g) w v
      × Pays s (suc j) gs v w'

  module _ (keep : KeepsData rt program_id) (foreign : b.token_prog.key ≢ program_id) where
    entry_leg-Kept :
        (decimals : ℕ) (g : WantLeg) (dest : AccountInfo) (n : ℕ) (w : World) {x : Unit {0} × World}
        → (w.ledger b.swap.key).owner ≡ program_id
        → leg_transfer rt (entry_leg decimals g) dest n w ≡ ok x
        → Kept program_id b.swap.key w.ledger x.1.ledger
    unfolding leg_transfer
    entry_leg-Kept decimals g dest n w own h =
        token_transfer-Kept rt program_id keep b.token_prog foreign b.swap.key g.taker_want g.mint
          dest taker n decimals none w own h

    fee-Kept :
        (decimals : ℕ) (g : WantLeg) (fee : ℕ) (w : World) {x : Unit {0} × World}
        → (w.ledger b.swap.key).owner ≡ program_id
        → pay_fee rt program_id (entry_leg decimals g) policy fee w ≡ ok x
        → Kept program_id b.swap.key w.ledger x.1.ledger
    unfolding pay_fee
    fee-Kept decimals g fee w {x} own h =
        after_when _ _ w h
          (λ c h1. after_reads _ _ w h1 λ u ev h2. entry_leg-Kept decimals g g.fee_ata fee w own h2)
          (λ c e.
            subst (λ (y : Unit {0} × World). Kept program_id b.swap.key w.ledger y.1.ledger) (sym e)
              (refl, own))

    pay_want_entry-inv :
        (j : ℕ) (g : WantLeg) (w : World) {x : Unit {0} × World}
        → (w.ledger b.swap.key).owner ≡ program_id
        → pay_want_entry rt program_id b config taker policy j g w ≡ ok x
        → (decimals : ℕ) × IsPaid (w.ledger b.swap.key).contents w.ledger decimals j g
          × Paid rt
              (entry_leg decimals g)
              (entry_payments (want_entry (w.ledger b.swap.key).contents j).amount g)
              w
              x.1
          × Kept program_id b.swap.key w.ledger x.1.ledger
    unfolding pay_want_entry
    pay_want_entry-inv j g w {x} own h = after_reads _ _ w h λ e ee h1.
        after_fail_if _ _ _ w h1 λ c1 h2. after_reads _ _ w h2 λ u eh h3.
          after_reads _ _ w h3 λ decimals ed h4. after_bind _ _ w h4 λ u2 w1 efee h5.
            after_lift _ _ w1 h5 λ rest er h6.
              let is_entry = read_entry-at b.swap _ w.ledger ee in
              let leg = entry_leg decimals g in
              let fee = bps_of e.amount policy.fee_bps in
              let paid_fee = pay_fee-Paid rt program_id leg policy fee w efee in
              let left = sub_or-inv _ e.amount fee er in
              let paid_rest = leg_transfer-Paid rt leg g.maker_want rest w1 h6 in
              let both : Paid rt leg (nonzero g.fee_ata fee ++ (g.maker_want, rest) ∷ []) w x.1 =
                Paid-trans rt leg (nonzero g.fee_ata fee) ((g.maker_want, rest) ∷ []) w w1 x.1
                  paid_fee.0 paid_rest in
              let sums : total (entry_payments e.amount g) ≡ e.amount =
                total-append (nonzero g.fee_ata fee) ((g.maker_want, e.amount - fee) ∷ [])
                ∙ (let t = total-nonzero g.fee_ata fee in omega (arith, t, left.1)) in
              let first = fee-Kept decimals g fee w own efee in
              (
                decimals,
                (
                  sym (ap (λ (v : Entry). v.mint) is_entry) ∙ differs-false _ _ c1,
                  require_token_account-inv g.maker_want g.mint.key b.maker.key w.ledger eh,
                  mint_decimals-inv g.mint w.ledger ed,
                  subst (λ (v : Entry). total (entry_payments v.amount g) ≡ v.amount) is_entry sums,
                  subst
                      (λ (v : Entry).
                        (bps_of v.amount policy.fee_bps ≡ 0)
                        ⊎ (verify_fee_dest rt program_id g.fee_ata g.mint policy.fee_wallet
                              policy.fee_shards (get_or b.nonce 0 0) w.ledger
                            ≡ ok tt))
                      is_entry paid_fee.1,
                ),
                subst (λ (v : Entry). Paid rt leg (entry_payments v.amount g) w x.1) is_entry
                    (subst
                      (λ n. Paid rt leg (nonzero g.fee_ata fee ++ (g.maker_want, n) ∷ []) w x.1)
                      left.0 both),
                Kept-trans program_id b.swap.key w.ledger w1.ledger x.1.ledger first
                    (entry_leg-Kept decimals g g.maker_want rest w1 first.1 h6),
              )

    pub pay_want_entries-Pays :
        (gs : List WantLeg) (j : ℕ) (w : World) {x : Unit {0} × World}
        → (w.ledger b.swap.key).owner ≡ program_id
        → pay_want_entries rt program_id b config taker policy j gs w ≡ ok x
        → Pays (w.ledger b.swap.key).contents j gs w x.1
          × Kept program_id b.swap.key w.ledger x.1.ledger
    unfolding pay_want_entries
    pay_want_entries-Pays [] j w {x} own h =
        let end : x.1 ≡ w = ground (arith, h) in
        (
          end,
          subst (λ (v : World). Kept program_id b.swap.key w.ledger v.ledger) (sym end) (refl, own),
        )
    pay_want_entries-Pays (g ∷ gs) j w {x} own h = after_bind _ _ w h λ u w1 eg h1.
        let (decimals, is_paid, called, kept) = pay_want_entry-inv j g w own eg in
        let (all, still) = pay_want_entries-Pays gs (suc j) w1 kept.1 h1 in
        (
          (decimals, w1, is_paid, called, subst (λ s. Pays s (suc j) gs w1 x.1) kept.0 all),
          Kept-trans program_id b.swap.key w.ledger w1.ledger x.1.ledger kept still,
        )
