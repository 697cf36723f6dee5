-- ===== src/Swap/Checks.antt =====
-- Checks on accounts that every handler shares (swap/src/cpi.rs, swap/src/state.rs).
pub mod Facts
use xete_programs.Base.{
  ℕ, not, ◌||◌, ◌&&◌, ◌==◌, ltb, if◌then◌else◌, [], ◌∷◌, Bytes, length, slice, differs, get_or,
  Bool, false,
}
use xete_programs.Chain.Result.{
  Result, ok, err, invalid_argument, invalid_account_data, incorrect_program_id, fail_if, ◌>>◌,
}
use xete_programs.Chain.Types.{Pubkey, AccountInfo, Ledger, Runtime}
use xete_programs.Swap.Ids.{token_2022_id, ata_program_id}

-- `b.iter().any(|&b| b != 0)`
unfoldable pub any_nonzero : Bytes → Bool
any_nonzero [] = false
any_nonzero (b ∷ bs) = not (b == 0) || any_nonzero bs

-- Mint decimals live at offset 44 of an SPL Mint account.
unfoldable pub mint_decimals : AccountInfo → Ledger → Result ℕ
mint_decimals mint l =
    let d = (l mint.key).contents in
    if ltb 44 (length d) then ok (get_or d 44 0) else err invalid_account_data

unfoldable pub assert_token_program :
    Runtime → AccountInfo → AccountInfo → Ledger → Result (Unit {0})
assert_token_program rt token_prog give_mint l = do
  let tp = token_prog.key
  fail_if (differs tp rt.spl_token_id && differs tp token_2022_id) incorrect_program_id
  fail_if (differs (l give_mint.key).owner tp) incorrect_program_id

-- The associated token account of (owner, mint) under the classic token program.
unfoldable pub ata_for : Runtime → Pubkey → Pubkey → Pubkey
ata_for rt owner mint =
    (rt.find_program_address (owner ∷ rt.spl_token_id ∷ mint ∷ []) ata_program_id).0

unfoldable pub require_token_account : AccountInfo → Pubkey → Bytes → Ledger → Result (Unit {0})
require_token_account acct mint owner l =
    let a = (l acct.key).contents in
    fail_if (ltb (length a) 64 || differs (slice a 0 32) mint || differs (slice a 32 64) owner)
      invalid_argument
