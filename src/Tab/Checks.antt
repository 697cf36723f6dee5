-- ===== src/Tab/Checks.antt =====
-- The state layout of xete-tab and the parts of its handlers that only read
-- (program/lean/src/lib.rs).
use xete_programs.Base.{ℕ, ◌+◌, List, [], ◌∷◌, Bytes, differs}
use xete_programs.Base.Int.{ℤ}
use xete_programs.Base.Words.{i64_from_le}
use xete_programs.Chain.Result.{
  Result, ok, err, not_enough_account_keys, invalid_seeds, illegal_owner, invalid_argument, fail_if,
  ◌>>=◌, ◌>>◌,
}
use xete_programs.Chain.Types.{Pubkey, AccountInfo, Ledger, Runtime}
use xete_programs.Chain.Decode.{arr32, index}

-- b"escrow"
abbrev pub seed : Bytes
seed = b'e' ∷ b's' ∷ b'c' ∷ b'r' ∷ b'o' ∷ b'w' ∷ []

abbrev pub o_depositor : ℕ
o_depositor = 0

abbrev pub o_amount : ℕ
o_amount = 32

abbrev pub o_commit : ℕ
o_commit = 40

abbrev pub o_unlock : ℕ
o_unlock = 72

abbrev pub o_bump : ℕ
o_bump = 80

abbrev pub state_len : ℕ
state_len = 81

-- `let [depositor, settlement, _system] = accounts else { … }`
unfoldable pub three_accounts : List AccountInfo → Result (AccountInfo × AccountInfo × AccountInfo)
three_accounts (a ∷ b ∷ c ∷ []) = ok (a, b, c)
three_accounts _ = err not_enough_account_keys

-- `let [beneficiary, settlement] = accounts else { … }`
unfoldable pub two_accounts : List AccountInfo → Result (AccountInfo × AccountInfo)
two_accounts (a ∷ b ∷ []) = ok (a, b)
two_accounts _ = err not_enough_account_keys

-- The account must stand at the address of its id, and belong to the program.
unfoldable pub verify_pda : Runtime → Pubkey → AccountInfo → Bytes → Ledger → Result (Unit {0})
verify_pda rt program_id settlement settlement_id l = do
  let pda = rt.find_program_address (seed ∷ settlement_id ∷ []) program_id
  fail_if (differs pda.0 settlement.key) invalid_seeds
  fail_if (differs (l settlement.key).owner program_id) illegal_owner

-- The block in `claim` that opens the commitment and returns the unlock time.
unfoldable pub opened_unlock : Runtime → AccountInfo → AccountInfo → Bytes → Ledger → Result ℤ
opened_unlock rt beneficiary settlement salt l = do
  let s = (l settlement.key).contents
  stored ← arr32 (← index s o_commit (o_commit + 32))
  fail_if (differs (rt.hashv (beneficiary.key ∷ salt ∷ [])) stored) invalid_argument
  ok (i64_from_le (← index s o_unlock (o_unlock + 8)))

-- The block in `reclaim` that compares the depositor.
unfoldable pub check_depositor : AccountInfo → AccountInfo → Ledger → Result (Unit {0})
check_depositor depositor settlement l = do
  stored ← index (l settlement.key).contents o_depositor (o_depositor + 32)
  fail_if (differs stored depositor.key) illegal_owner
