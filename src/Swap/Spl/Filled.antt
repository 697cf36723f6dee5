-- ===== src/Swap/Spl/Filled.antt =====
-- A fill: its guards, what it pays, and how it leaves the swap (swap/src/swap.rs).
use xete_programs.Base.{
  ◌⊎◌, refl, ℕ, ◌-◌, ◌≤◌, ◌≡◌, true, false, not, ◌||◌, ◌==◌, ltb, List, [], ◌∷◌, ◌++◌, none, some,
  Bytes, length, slice, get_or, arith, differs-false, or_false, eq_of_not_ne, ltb-false,
}
use xete_programs.Base.Words.{from_le}
use xete_programs.Chain.Result.{ok}
use xete_programs.Chain.Types.{Pubkey, AccountInfo, Ledger, Runtime, World, Effect, cpi}
use xete_programs.Chain.Action.{after_bind, after_lift, after_reads, after_fail_if, after_fail_when}
use xete_programs.Chain.Ran.{Closes, Did-trans, sweep-Closes}
use xete_programs.Swap.Cpi.{transfer_call, close_call, close}
use xete_programs.Swap.Cpi.Calls.{transfer_and_close-Did}
use xete_programs.Swap.Config.Policy.{Policy, read_config, verify_fee_dest}
use xete_programs.Swap.Settle.Load.{FillState, load_fill_state, bps_of}
use xete_programs.Swap.Settle.{Leg, pay_want_leg}
use xete_programs.Swap.Settle.Conserved.{Payment, nonzero, total, transfers, pay_leg_conserves}
use xete_programs.Swap.Checks.Facts.{
  IsTokenAccount, IsTokenProgram, HasDecimals, require_token_account-inv, assert_token_program-inv,
  mint_decimals-inv,
}
use xete_programs.Swap.Spl.Loaded.{
  IsResting, load_fill_state-IsResting, StandsAt, verify_swap_pdas-StandsAt,
}
use xete_programs.Swap.Spl.Checks.{swap_seed}
use xete_programs.Swap.Spl.{FillAccounts, fill_accounts, fill}

-- The want-leg of a fill: out of the taker's account, by the taker's signature.
abbrev pub fill_leg : FillAccounts → (want_dec shard_seed : ℕ) → Leg
fill_leg a want_dec shard_seed = record {
  config = a.config;
  token_prog = a.token_prog;
  payer = a.taker_want;
  mint = a.want_mint;
  fee_ata = a.fee_ata;
  payee = a.maker_want;
  authority = a.taker;
  signer_seeds = none;
  decimals = want_dec;
  shard_seed = shard_seed;
}

-- The seeds by which the program signs for a swap.
abbrev pub seeds_of : Pubkey → Bytes → ℕ → List Bytes
seeds_of maker nonce bump = swap_seed ∷ maker ∷ nonce ∷ (bump ∷ []) ∷ []

-- The give-leg of a fill, and the closing of the vault.
abbrev pub give_calls : FillAccounts → FillState → (nonce : Bytes) (give_dec : ℕ) → List Effect
give_calls a st nonce give_dec =
    cpi (
      transfer_call a.give_token_prog a.vault a.give_mint a.taker_give a.swap st.give_amount
        give_dec (some (seeds_of st.maker nonce st.bump)))
    ∷ cpi (close_call a.give_token_prog a.vault a.maker a.swap (seeds_of st.maker nonce st.bump))
    ∷ []

-- What a fill that goes through has checked.
pub record FillGuards (rt : Runtime) (program_id : Pubkey) (a : FillAccounts) (st : FillState)
    (d : Bytes) (l : Ledger) : Type 0 where
  pub framed : length d ≡ 48
  pub signed : a.taker.is_signer ≡ true
  pub owned : (l a.swap.key).owner ≡ program_id
  pub loaded : load_fill_state rt a.swap a.give_mint.key a.want_mint.key a.taker.key l ≡ ok st
  pub expected : st.give_amount ≡ from_le (slice d 32 40)
  pub affordable : st.want_amount ≤ from_le (slice d 40 48)
  pub maker : a.maker.key ≡ st.maker
  pub resting : IsResting rt a.swap a.give_mint.key a.want_mint.key a.taker.key l st
  pub addresses : StandsAt rt program_id a.swap.key a.vault.key st.maker (slice d 0 32) st.bump
  pub payee : IsTokenAccount a.maker_want a.want_mint.key st.maker l
  pub want_program : IsTokenProgram rt a.token_prog a.want_mint l
  pub give_program : IsTokenProgram rt a.give_token_prog a.give_mint l

expected_terms :
    (give expect want max : ℕ)
    → (not (give == expect) || ltb max want) ≡ false
    → (give ≡ expect) × (want ≤ max)
expected_terms give expect want max h =
    let (x, y) = or_false _ _ h in (eq_of_not_ne give expect x, ltb-false max want y)

-- What a fill has checked, paid and left.
abbrev pub Filled : Runtime → Pubkey → List AccountInfo → Bytes → (w w' : World) → Type 0
Filled rt program_id accounts d w w' =
    (a : FillAccounts) × (st : FillState) × (give_dec want_dec : ℕ) × (policy : Policy) × (ps : List
      Payment)
    × (fill_accounts accounts ≡ ok a)
    × FillGuards rt program_id a st d w.ledger
    × HasDecimals a.give_mint give_dec w.ledger
    × HasDecimals a.want_mint want_dec w.ledger
    × (read_config rt program_id a.config w.ledger ≡ ok policy)
    × (ps
        ≡ nonzero a.fee_ata (bps_of st.want_amount policy.fee_bps)
          ++ (a.maker_want, st.want_amount - bps_of st.want_amount policy.fee_bps) ∷ [])
    × (total ps ≡ st.want_amount)
    × ((bps_of st.want_amount policy.fee_bps ≡ 0)
        ⊎ (verify_fee_dest rt program_id a.fee_ata a.want_mint policy.fee_wallet policy.fee_shards
              (get_or (slice d 0 32) 0 0) w.ledger
            ≡ ok tt))
    × Closes rt
        (transfers (fill_leg a want_dec (get_or (slice d 0 32) 0 0)) ps
          ++ give_calls a st (slice d 0 32) give_dec)
        a.swap.key a.maker.key w w'

-- A fill that goes through: the payload has 48 bytes; the taker signed; the swap is the program's,
-- open, before its expiry and, if it names a taker, for this one; it gives exactly what the taker
-- expects, for at most the taker's limit, and stands with its vault at the maker's addresses; the
-- payee is the maker's account, and both token programs are one of the two and own their mints. The
-- calls made are the payments of the want-leg (the fee, when there is one, to an account that the
-- policy admits, and the rest to the maker), which sum to the price, then the give-amount out of the
-- vault to the taker, and the closing of the vault: these and no others. On the ledger that they
-- leave, all lamports of the swap account go to the maker and its data is wiped, and that is the end.
pub fill_effects :
    (rt : Runtime) (program_id : Pubkey) (accounts : List AccountInfo) (d : Bytes) (w w' : World)
    → fill rt program_id accounts d w ≡ ok (tt, w')
    → Filled rt program_id accounts d w w'
unfolding fill pay_want_leg close
fill_effects rt program_id accounts d w w' h = after_fail_if _ _ _ w h λ c1 h1.
    after_lift _ _ w h1 λ a ea h2. after_fail_if _ _ _ w h2 λ c2 h3.
      after_fail_when _ _ _ w h3 λ c3 h4. after_reads _ _ w h4 λ st es h5.
        after_fail_if _ _ _ w h5 λ c4 h6. after_fail_if _ _ _ w h6 λ c5 h7.
          after_lift _ _ w h7 λ u1 ev h8. after_reads _ _ w h8 λ u2 er h9.
            after_reads _ _ w h9 λ give_dec eg h10. after_reads _ _ w h10 λ want_dec ew h11.
              after_reads _ _ w h11 λ u3 e3 h12. after_reads _ _ w h12 λ u4 e4 h13.
                after_bind _ _ w h13 λ u5 w1 epay h14. after_bind _ _ w1 h14 λ u6 w2 egive h15.
                  after_bind _ _ w2 h15 λ u7 w3 eclose h16.
                    let leg = fill_leg a want_dec (get_or (slice d 0 32) 0 0) in
                    let (policy, ep, ps, eps, paid, sum_up, fee_to) =
                      pay_leg_conserves rt program_id leg st.want_amount w w1 epay in
                    let gave =
                      transfer_and_close-Did rt a.give_token_prog a.vault a.give_mint a.taker_give
                        a.swap a.maker st.give_amount give_dec
                        (seeds_of st.maker (slice d 0 32) st.bump) w1 w2 egive refl eclose in
                    let terms =
                      expected_terms st.give_amount (from_le (slice d 32 40)) st.want_amount
                        (from_le (slice d 40 48)) c4 in
                    (
                      a,
                      st,
                      give_dec,
                      want_dec,
                      policy,
                      ps,
                      ea,
                      record {
                        framed = eq_of_not_ne _ _ c1;
                        signed = ground arith;
                        owned = differs-false _ _ c3;
                        loaded = es;
                        expected = terms.0;
                        affordable = terms.1;
                        maker = differs-false _ _ c5;
                        resting = load_fill_state-IsResting rt a.swap _ _ _ w.ledger es;
                        addresses =
                            verify_swap_pdas-StandsAt rt program_id a.swap a.vault st.maker _
                              st.bump ev;
                        payee = require_token_account-inv a.maker_want _ st.maker w.ledger er;
                        want_program =
                            assert_token_program-inv rt a.token_prog a.want_mint w.ledger e3;
                        give_program =
                            assert_token_program-inv rt a.give_token_prog a.give_mint w.ledger e4;
                      },
                      mint_decimals-inv a.give_mint w.ledger eg,
                      mint_decimals-inv a.want_mint w.ledger ew,
                      ep,
                      eps,
                      sum_up,
                      fee_to,
                      sweep-Closes rt _ a.swap a.maker w w3
                          (Did-trans rt (transfers leg ps) (give_calls a st (slice d 0 32) give_dec)
                            w w1 w3 paid gave)
                          h16,
                    )
