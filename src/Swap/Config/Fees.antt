-- ===== src/Swap/Config/Fees.antt =====
-- Where swept fees go, and who may change the policy (swap/src/config.rs).
use xete_programs.Base.{
  ◌≤◌, ltb, ltb-false, eq_of_not_ne, subst, ℕ, ◌≡◌, true, not, ◌==◌, List, [], ◌∷◌, some, Bytes,
  length, slice, get_or, arith, differs-false, eq_true, Bool-cases, ◌⊎◌, inl, inr,
}
use xete_programs.Chain.Result.{ok}
use xete_programs.Chain.Types.{Pubkey, AccountInfo, Ledger, Runtime, World, cpi}
use xete_programs.Chain.Action.{after_lift, after_reads, after_fail_if, after_fail_when}
use xete_programs.Chain.Decode.{arr32-ok}
use xete_programs.Swap.Layout.{config_len}
use xete_programs.Swap.Checks.Facts.{
  IsTokenAccount, HasDecimals, require_token_account-inv, mint_decimals-inv,
}
use xete_programs.Chain.Ran.{Did}
use xete_programs.Base.Words.{from_le}
use xete_programs.Swap.Cpi.{transfer_call}
use xete_programs.Swap.Cpi.Calls.{token_transfer-Did}
use xete_programs.Swap.Config.Policy.{config_seed, fee_vault_seed}
use xete_programs.Swap.Config.{
  SweepAccounts, sweep_accounts, sweep_fees, token_balance, stored_fee_wallet,
}

-- What a sweep of fees has checked and moved.
abbrev pub FeesSwept : Runtime → Pubkey → List AccountInfo → Bytes → (w w' : World) → Type 0
FeesSwept rt program_id accounts d w w' =
    (a : SweepAccounts) × (amount : ℕ) × (sweep_accounts accounts ≡ ok a)
    × (a.caller.is_signer ≡ true)
    × ((w.ledger a.config.key).owner ≡ program_id)
    × ((rt.find_program_address (config_seed ∷ []) program_id).0 ≡ a.config.key)
    × ((rt.find_program_address (fee_vault_seed ∷ a.want_mint.key ∷ (get_or d 0 0 ∷ []) ∷ [])
          program_id).0
        ≡ a.fee_vault.key)
    × (length (w.ledger a.config.key).contents ≡ 108)
    × IsTokenAccount a.fee_wallet_ata a.want_mint.key (slice (w.ledger a.config.key).contents 32 64)
        w.ledger
    × (72 ≤ length (w.ledger a.fee_vault.key).contents)
    × (amount ≡ from_le (slice (w.ledger a.fee_vault.key).contents 64 72))
    × ((amount ≡ 0) × (w' ≡ w)
        ⊎ (decimals : ℕ) × HasDecimals a.want_mint decimals w.ledger
          × Did rt
              (cpi (
                  transfer_call a.token_program a.fee_vault a.want_mint a.fee_wallet_ata a.config
                    amount decimals
                    (some (
                      config_seed
                      ∷ ((rt.find_program_address (config_seed ∷ []) program_id).1 ∷ [])
                      ∷ [])))
                ∷ [])
              w w')

wallet-stored :
    (config : AccountInfo) (l : Ledger) {k : Pubkey}
    → stored_fee_wallet config l ≡ ok k
    → (length (l config.key).contents ≡ 108) × (k ≡ slice (l config.key).contents 32 64)
wallet-stored config l {k} h =
    elim (Bool-cases (not (length (l config.key).contents == config_len))) [
      | inl y ↦ absurd (ground (arith, rw y at h))
      | inr n ↦ (eq_of_not_ne _ _ n, (arr32-ok _ (rw n at h)).0)
    ]

token_balance-inv :
    (vault : AccountInfo) (l : Ledger) {n : ℕ}
    → token_balance vault l ≡ ok n
    → (72 ≤ length (l vault.key).contents) × (n ≡ from_le (slice (l vault.key).contents 64 72))
token_balance-inv vault l {n} h = elim (Bool-cases (ltb (length (l vault.key).contents) 72)) [
  | inl y ↦ absurd (ground (arith, rw y at h))
  | inr m ↦ (ltb-false _ _ m, ground (arith, rw m at h))
]

-- A sweep of fees that goes through, by whomever: the vault is the program's for this mint and shard.
-- The token program that was passed, which the handler does not check, is asked by the policy's
-- signature to transfer the vault's whole balance to an account of the mint that belongs to the wallet
-- that the policy stores; the ledger is what this one call made of it, and no other call is made. Of an
-- empty vault nothing is moved and nothing changes.
pub sweep_fees_to_wallet :
    (rt : Runtime) (program_id : Pubkey) (accounts : List AccountInfo) (d : Bytes) (w w' : World)
    → sweep_fees rt program_id accounts d w ≡ ok (tt, w')
    → FeesSwept rt program_id accounts d w w'
unfolding sweep_fees
sweep_fees_to_wallet rt program_id accounts d w w' h = after_fail_if _ _ _ w h λ c1 h1.
    after_lift _ _ w h1 λ a ea h2. after_fail_if _ _ _ w h2 λ c2 h3.
      after_fail_if _ _ _ w h3 λ c3 h4. after_fail_when _ _ _ w h4 λ c4 h5.
        after_fail_if _ _ _ w h5 λ c5 h6. after_reads _ _ w h6 λ wallet ew h7.
          after_reads _ _ w h7 λ u er h8. after_reads _ _ w h8 λ amount em h9. (
            a,
            amount,
            ea,
            ground (arith, c2),
            differs-false _ _ c4,
            differs-false _ _ c5,
            differs-false _ _ c3,
            (wallet-stored a.config w.ledger ew).0,
            subst (λ k. IsTokenAccount a.fee_wallet_ata a.want_mint.key k w.ledger)
                (wallet-stored a.config w.ledger ew).1
                (require_token_account-inv a.fee_wallet_ata a.want_mint.key wallet w.ledger er),
            (token_balance-inv a.fee_vault w.ledger em).0,
            (token_balance-inv a.fee_vault w.ledger em).1,
            elim (Bool-cases (amount == 0)) [
              | inl y ↦ inl (eq_true amount 0 y, ground (arith, rw y at h9))
              | inr n ↦ inr (
                  after_reads _ _ w (rw n at h9) λ decimals ed h10. (
                    decimals,
                    mint_decimals-inv a.want_mint w.ledger ed,
                    token_transfer-Did rt a.token_program a.fee_vault a.want_mint a.fee_wallet_ata
                        a.config amount decimals _ w h10,
                  ))
            ],
          )
