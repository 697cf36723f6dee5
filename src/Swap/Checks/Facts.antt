-- ===== src/Swap/Checks/Facts.antt =====
-- What the shared checks on accounts establish, in the terms of the ledger (swap/src/cpi.rs).
use xete_programs.Base.{
  ℕ, ◌<◌, ltb, ltb-true, get_or, arith, ◌≤◌, ◌≡◌, Bytes, length, slice, differs, ◌&&◌,
  differs-false, or_false, ltb-false, ◌⊎◌, inl, inr, Bool-cases, false,
}
use xete_programs.Chain.Result.{ok, after_fail_if, fail_if-inv}
use xete_programs.Chain.Types.{Pubkey, AccountInfo, Ledger, Runtime}
use xete_programs.Swap.Ids.{token_2022_id}
use xete_programs.Swap.Checks.{require_token_account, assert_token_program, mint_decimals}

-- The account's data is that of a token account of this mint and this owner: the mint's 32 bytes, then
-- the owner's.
abbrev pub IsTokenAccount : AccountInfo → (mint : Pubkey) → (owner : Bytes) → Ledger → Type 0
IsTokenAccount acct mint owner l =
    (64 ≤ length (l acct.key).contents)
    × (slice (l acct.key).contents 0 32 ≡ mint)
    × (slice (l acct.key).contents 32 64 ≡ owner)

-- One of the two token programs, and the one that owns the mint.
abbrev pub IsTokenProgram : Runtime → (prog mint : AccountInfo) → Ledger → Type 0
IsTokenProgram rt prog mint l =
    ((prog.key ≡ rt.spl_token_id) ⊎ (prog.key ≡ token_2022_id)) × ((l mint.key).owner ≡ prog.key)

pub require_token_account-inv :
    (acct : AccountInfo) (mint : Pubkey) (owner : Bytes) (l : Ledger)
    → require_token_account acct mint owner l ≡ ok tt
    → IsTokenAccount acct mint owner l
unfolding require_token_account
require_token_account-inv acct mint owner l h =
    let (ab, c) = or_false _ _ (fail_if-inv _ _ h) in
    let (a, b) = or_false _ _ ab in (ltb-false _ _ a, differs-false _ _ b, differs-false _ _ c)

one_of : (a b c : Pubkey) → (differs a b && differs a c) ≡ false → (a ≡ b) ⊎ (a ≡ c)
one_of a b c h = elim (Bool-cases (differs a b)) [
  | inl y ↦ inr (differs-false a c (rw y at h))
  | inr n ↦ inl (differs-false a b n)
]

pub assert_token_program-inv :
    (rt : Runtime) (prog mint : AccountInfo) (l : Ledger)
    → assert_token_program rt prog mint l ≡ ok tt
    → IsTokenProgram rt prog mint l
unfolding assert_token_program
assert_token_program-inv rt prog mint l h = after_fail_if _ _ _ h λ c1 h1.
    (one_of prog.key rt.spl_token_id token_2022_id c1, differs-false _ _ (fail_if-inv _ _ h1))

-- The decimals that the mint's data holds at offset 44.
abbrev pub HasDecimals : (mint : AccountInfo) → ℕ → Ledger → Type 0
HasDecimals mint n l = (44 < length (l mint.key).contents) × (n ≡ get_or (l mint.key).contents 44 0)

pub mint_decimals-inv :
    (mint : AccountInfo) (l : Ledger) {n : ℕ} → mint_decimals mint l ≡ ok n → HasDecimals mint n l
unfolding mint_decimals
mint_decimals-inv mint l {n} h = elim (Bool-cases (ltb 44 (length (l mint.key).contents))) [
  | inl y ↦ (ltb-true _ _ y, ground (arith, rw y at h))
  | inr m ↦ absurd (ground (arith, rw m at h))
]
