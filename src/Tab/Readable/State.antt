-- ===== src/Tab/Readable/State.antt =====
-- The instructions and the state of the readable build, and what its handlers read
-- (program/readable/src/lib.rs).
use xete_programs.Base.{ℕ, List, [], ◌∷◌, Option, none, some, Bytes, differs}
use xete_programs.Base.Int.{ℤ}
use xete_programs.Chain.Result.{
  Result, ok, err, fail_if, ◌>>◌, not_enough_account_keys, invalid_seeds, illegal_owner,
  invalid_account_data,
}
use xete_programs.Chain.Types.{Pubkey, AccountInfo, Ledger, Runtime}
use xete_programs.Tab.Checks.{seed}

pub record Settlement : Type 0 where
  pub depositor : Pubkey
  pub amount : ℕ
  pub beneficiary_commitment : Bytes
  pub unlock_time : ℤ
  pub bump : ℕ

pub data SettlementInstruction : Type 0 where
  deposit :
      (settlement_id : Bytes) (amount : ℕ) (beneficiary_commitment : Bytes) (unlock_time : ℤ)
      → SettlementInstruction
  claim : (settlement_id salt : Bytes) → SettlementInstruction
  reclaim : (settlement_id : Bytes) → SettlementInstruction

-- What the derived codec offers: `try_from_slice` of both types, and `to_vec` of the state.
pub record Borsh : Type 0 where
  pub instruction_from_slice : Bytes → Option SettlementInstruction
  pub settlement_from_slice : Bytes → Option Settlement
  pub settlement_to_vec : Settlement → Bytes

unfoldable pub settlement_pda : Runtime → Pubkey → Bytes → Pubkey × ℕ
settlement_pda rt program_id settlement_id =
    rt.find_program_address (seed ∷ settlement_id ∷ []) program_id

-- `try_from_slice(..).map_err(|_| InvalidAccountData)`
unfoldable pub decode_settlement : Borsh → Bytes → Result Settlement
decode_settlement codec b = elim (codec.settlement_from_slice b) [
  | some s ↦ ok s
  | none ↦ err invalid_account_data
]

unfoldable pub load :
    Borsh
    → Runtime
    → Pubkey
    → (settlement : AccountInfo) → (settlement_id : Bytes) → Ledger
    → Result Settlement
unfolding settlement_pda decode_settlement
load codec rt program_id settlement settlement_id l = do
  fail_if (differs (settlement_pda rt program_id settlement_id).0 settlement.key) invalid_seeds
  fail_if (differs (l settlement.key).owner program_id) illegal_owner
  decode_settlement codec (l settlement.key).contents

-- `next_account_info` twice or three times; what follows is not looked at.
unfoldable pub next_two : List AccountInfo → Result (AccountInfo × AccountInfo)
next_two (a ∷ b ∷ _) = ok (a, b)
next_two _ = err not_enough_account_keys

unfoldable pub next_three : List AccountInfo → Result (AccountInfo × AccountInfo × AccountInfo)
next_three (a ∷ b ∷ c ∷ _) = ok (a, b, c)
next_three _ = err not_enough_account_keys
