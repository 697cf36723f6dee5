-- ===== src/Swap/Spl/Checks.antt =====
-- The parts of the 1:1 swap's handlers that read the swap account (swap/src/swap.rs).
use xete_programs.Base.{
  ℕ, ◌+◌, not, ◌||◌, ◌==◌, [], ◌∷◌, some, none, Bytes, length, slice, get_or, differs,
}
use xete_programs.Base.Int.{ltb_ℤ}
use xete_programs.Base.Words.{from_le, i64_from_le}
use xete_programs.Chain.Result.{
  Result, ok, err, invalid_argument, invalid_account_data, illegal_owner, invalid_seeds, fail_if,
  ◌>>=◌, ◌>>◌,
}
use xete_programs.Chain.Types.{Pubkey, AccountInfo, Ledger, Runtime}
use xete_programs.Chain.Decode.{arr32}
use xete_programs.Swap.Layout.{
  s_maker, s_give_mint, s_give_amt, s_expiry, s_status, s_bump, swap_len, status_open,
}

-- b"swap"
abbrev pub swap_seed : Bytes
swap_seed = b's' ∷ b'w' ∷ b'a' ∷ b'p' ∷ []

-- b"vault"
abbrev pub vault_seed : Bytes
vault_seed = b'v' ∷ b'a' ∷ b'u' ∷ b'l' ∷ b't' ∷ []

-- `create_program_address(..).map_err(|_| InvalidSeeds)?` compared with the swap's key, then the
-- vault's derived address compared with the vault's key.
unfoldable pub verify_swap_pdas :
    Runtime → Pubkey → (swap vault : AccountInfo) → (maker nonce : Bytes) → ℕ → Result (Unit {0})
verify_swap_pdas rt program_id swap vault maker nonce bump =
    elim (rt.create_program_address (swap_seed ∷ maker ∷ nonce ∷ (bump ∷ []) ∷ []) program_id) [
      | none ↦ err invalid_seeds
      | some swap_pda ↦ do
        fail_if (differs swap_pda swap.key) invalid_seeds
        fail_if
            (differs (rt.find_program_address (vault_seed ∷ maker ∷ nonce ∷ []) program_id).0
              vault.key)
            invalid_seeds
    ]

-- What a refund needs of the swap account.
pub record RefundState : Type 0 where
  pub maker : Pubkey
  pub give_amount : ℕ
  pub bump : ℕ

-- The block in `cancel_swap`: open, by this maker, of this mint.
unfoldable pub load_cancel_state :
    (swap maker give_mint : AccountInfo) → Ledger → Result RefundState
load_cancel_state swap maker give_mint l = do
  let s = (l swap.key).contents
  fail_if (not (length s == swap_len) || not (get_or s s_status 0 == status_open))
      invalid_account_data
  fail_if (differs (slice s s_maker (s_maker + 32)) maker.key) illegal_owner
  fail_if (differs (slice s s_give_mint (s_give_mint + 32)) give_mint.key) invalid_argument
  ok (record {
    maker = maker.key;
    give_amount = from_le (slice s s_give_amt (s_give_amt + 8));
    bump = get_or s s_bump 0;
  })

-- The block in `expire`: open, of this mint, past its deadline.
unfoldable pub load_expired_state :
    Runtime → (swap give_mint : AccountInfo) → Ledger → Result RefundState
load_expired_state rt swap give_mint l = do
  let s = (l swap.key).contents
  fail_if (not (length s == swap_len) || not (get_or s s_status 0 == status_open))
      invalid_account_data
  fail_if (differs (slice s s_give_mint (s_give_mint + 32)) give_mint.key) invalid_argument
  let expiry = i64_from_le (slice s s_expiry (s_expiry + 8))
  now ← rt.unix_timestamp
  fail_if (ltb_ℤ now expiry) invalid_argument
  maker ← arr32 (slice s s_maker (s_maker + 32))
  ok (record {
    maker = maker;
    give_amount = from_le (slice s s_give_amt (s_give_amt + 8));
    bump = get_or s s_bump 0;
  })
