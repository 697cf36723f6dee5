-- ===== src/Tab/Readable.antt =====
-- The settlement program xete-tab in its readable build (program/readable/src/lib.rs). The derived
-- borsh codec is a parameter; the log lines of `msg!` are left out.
pub mod State
pub mod Format
pub mod Loaded
pub mod Agrees
pub mod Funded
use xete_programs.Base.{ℕ, not, ◌||◌, ltb, List, [], ◌∷◌, none, some, Bytes, length, differs}
use xete_programs.Base.Int.{ℤ, ltb_ℤ}
use xete_programs.Chain.Result.{
  err, invalid_instruction_data, missing_required_signature, invalid_seeds, illegal_owner,
  invalid_argument, account_already_initialized, insufficient_funds,
}
use xete_programs.Chain.Types.{Pubkey, AccountInfo, Runtime, create_account}
use xete_programs.Chain.Action.{Action, lift, reads, fail_if, fail_when, perform, ◌>>=◌, ◌>>◌}
use xete_programs.Chain.Writes.{write_fields}
use xete_programs.Chain.Sweep.{sweep}
use xete_programs.Tab.Checks.{seed, state_len}
use State.{Borsh, SettlementInstruction, settlement_pda, load, next_two, next_three}

module _ (codec : Borsh) (rt : Runtime) (program_id : Pubkey) where
  unfoldable pub deposit :
      List AccountInfo → (settlement_id : Bytes) → (amount : ℕ) → Bytes → ℤ → Action (Unit {0})
  unfolding settlement_pda
  deposit accounts settlement_id amount beneficiary_commitment unlock_time = do
    (depositor, settlement, system) ← lift (next_three accounts)
    fail_if (not depositor.is_signer) missing_required_signature
    let pda = settlement_pda rt program_id settlement_id
    fail_if (differs pda.0 settlement.key) invalid_seeds
    fail_when (λ l. ltb 0 (l settlement.key).lamports || ltb 0 (length (l settlement.key).contents))
        account_already_initialized
    rent_min ← lift (rt.minimum_balance state_len)
    fail_if (ltb amount rent_min) insufficient_funds
    perform rt (record {
      instruction = create_account depositor.key settlement.key amount state_len program_id;
      infos = depositor ∷ settlement ∷ system ∷ [];
      seeds = some (seed ∷ settlement_id ∷ (pda.1 ∷ []) ∷ []);
    })
    write_fields settlement.key (
        (
          0,
          codec.settlement_to_vec (record {
            depositor = depositor.key;
            amount = amount;
            beneficiary_commitment = beneficiary_commitment;
            unlock_time = unlock_time;
            bump = pda.1;
          }),
        )
        ∷ [])

  unfoldable pub claim : List AccountInfo → (settlement_id salt : Bytes) → Action (Unit {0})
  unfolding sweep
  claim accounts settlement_id salt = do
    (beneficiary, settlement) ← lift (next_two accounts)
    fail_if (not beneficiary.is_signer) missing_required_signature
    state ← reads (load codec rt program_id settlement settlement_id)
    fail_if (differs (rt.hashv (beneficiary.key ∷ salt ∷ [])) state.beneficiary_commitment)
        invalid_argument
    now ← lift rt.unix_timestamp
    fail_if (ltb_ℤ now state.unlock_time) invalid_argument
    sweep settlement beneficiary

  unfoldable pub reclaim : List AccountInfo → (settlement_id : Bytes) → Action (Unit {0})
  unfolding sweep
  reclaim accounts settlement_id = do
    (depositor, settlement) ← lift (next_two accounts)
    fail_if (not depositor.is_signer) missing_required_signature
    state ← reads (load codec rt program_id settlement settlement_id)
    fail_if (differs state.depositor depositor.key) illegal_owner
    sweep settlement depositor

  -- The dispatcher.
  unfoldable pub dispatch : List AccountInfo → SettlementInstruction → Action (Unit {0})
  unfolding deposit claim reclaim
  dispatch accounts (SettlementInstruction.deposit id amount commitment unlock) =
      deposit accounts id amount commitment unlock
  dispatch accounts (SettlementInstruction.claim id salt) = claim accounts id salt
  dispatch accounts (SettlementInstruction.reclaim id) = reclaim accounts id

  unfoldable pub process : List AccountInfo → Bytes → Action (Unit {0})
  unfolding dispatch
  process accounts d w = elim (codec.instruction_from_slice d) [
    | some i ↦ dispatch accounts i w
    | none ↦ err invalid_instruction_data
  ]
