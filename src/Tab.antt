-- ===== src/Tab.antt =====
-- The settlement program xete-tab as deployed (program/lean/src/lib.rs): a depositor funds an
-- account for a hidden beneficiary, who claims it by opening a hash commitment.
pub mod Checks
pub mod Spec
pub mod Payout
pub mod Once
pub mod Funding
pub mod Redemption
pub mod Readable
unfoldable pub use Checks.*
use xete_programs.Base.{
  ℕ, ◌+◌, not, ◌==◌, if◌then◌else◌, List, [], ◌∷◌, some, Bytes, length, slice, differs, ltb, leb,
}
use xete_programs.Base.Int.{ℤ, ltb_ℤ}
use xete_programs.Base.Words.{from_le, u64_le, i64_from_le, i64_le}
use xete_programs.Chain.Result.{
  Result, ok, err, ProgramError, invalid_instruction_data, not_enough_account_keys,
  missing_required_signature, invalid_seeds, illegal_owner, invalid_argument,
}
use xete_programs.Chain.Types.{Pubkey, AccountInfo, Ledger, Runtime, create_account}
use xete_programs.Chain.Action.{Action, lift, reads, fail_if, fail_when, perform, ◌>>=◌, ◌>>◌}
use xete_programs.Chain.Decode.{arr32, index}
use xete_programs.Chain.Writes.{write_fields}
use xete_programs.Chain.Sweep.{sweep}

unfoldable pub close : AccountInfo → AccountInfo → Action (Unit {0})
unfolding sweep
close account dest = sweep account dest

unfoldable pub deposit : Runtime → Pubkey → List AccountInfo → Bytes → Action (Unit {0})
deposit rt program_id accounts d = do
  fail_if (not (length d == 80)) invalid_instruction_data
  settlement_id ← lift (arr32 (slice d 0 32))
  let amount = from_le (slice d 32 40)
  commitment ← lift (arr32 (slice d 40 72))
  let unlock = i64_from_le (slice d 72 80)
  (depositor, settlement, system) ← lift (three_accounts accounts)
  fail_if (not depositor.is_signer) missing_required_signature
  let pda = rt.find_program_address (seed ∷ settlement_id ∷ []) program_id
  fail_if (differs pda.0 settlement.key) invalid_seeds
  perform rt (record {
    instruction = create_account depositor.key settlement.key amount state_len program_id;
    infos = depositor ∷ settlement ∷ [];
    seeds = some (seed ∷ settlement_id ∷ (pda.1 ∷ []) ∷ []);
  })
  write_fields settlement.key (
      (o_depositor, depositor.key)
      ∷ (o_amount, u64_le amount)
      ∷ (o_commit, commitment)
      ∷ (o_unlock, i64_le unlock)
      ∷ (o_bump, pda.1 ∷ [])
      ∷ [])

unfoldable pub claim : Runtime → Pubkey → List AccountInfo → Bytes → Action (Unit {0})
claim rt program_id accounts d = do
  fail_if (ltb (length d) 36) invalid_instruction_data
  settlement_id ← lift (arr32 (slice d 0 32))
  let salt_len = from_le (slice d 32 36)
  fail_if (ltb (length d) (36 + salt_len)) invalid_instruction_data
  let salt = slice d 36 (36 + salt_len)
  (beneficiary, settlement) ← lift (two_accounts accounts)
  fail_if (not beneficiary.is_signer) missing_required_signature
  reads (verify_pda rt program_id settlement settlement_id)
  unlock ← reads (opened_unlock rt beneficiary settlement salt)
  now ← lift rt.unix_timestamp
  fail_if (ltb_ℤ now unlock) invalid_argument
  close settlement beneficiary

unfoldable pub reclaim : Runtime → Pubkey → List AccountInfo → Bytes → Action (Unit {0})
reclaim rt program_id accounts d = do
  fail_if (not (length d == 32)) invalid_instruction_data
  settlement_id ← lift (arr32 (slice d 0 32))
  (depositor, settlement) ← lift (two_accounts accounts)
  fail_if (not depositor.is_signer) missing_required_signature
  reads (verify_pda rt program_id settlement settlement_id)
  reads (check_depositor depositor settlement)
  close settlement depositor

-- The dispatcher: the first byte is the tag.
unfoldable pub process : Runtime → Pubkey → List AccountInfo → Bytes → Action (Unit {0})
process rt program_id accounts [] = lift (err invalid_instruction_data)
process rt program_id accounts (tag ∷ rest) =
    if tag == 0
    then deposit rt program_id accounts rest
    else if tag == 1
    then claim rt program_id accounts rest
    else if tag == 2
    then reclaim rt program_id accounts rest
    else lift (err invalid_instruction_data)
