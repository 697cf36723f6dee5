-- ===== src/Tests.antt =====
-- Test data: a chain with concrete answers, and the handles of accounts.
pub mod TabRuns
pub mod SwapRuns
pub mod OrderRuns
pub mod ConfigRuns
pub mod BasketRuns
pub mod TradeRuns
pub mod ReturnRuns
pub mod ListingRuns
pub mod NftRuns
pub mod OpenRuns
pub mod ReadableRuns
use xete_programs.Base.{
  ℕ, ◌≡◌, ◌≢◌, sym, subst, ap, ◌∙◌, true, false, ◌==◌, if◌then◌else◌, List, [], ◌∷◌, Option, some,
  Bytes, length, replicate, get_or, arith, ◌+◌, ◌^◌, ◌%◌, eq_true, Bool-cases, ◌⊎◌, inl, inr,
}
use xete_programs.Base.Int.{ℤ, pos}
use xete_programs.Chain.Result.{Result, ok, err, account_already_initialized}
use xete_programs.Swap.Order.Replay.{RefusesUsed}
use xete_programs.Chain.Types.{
  Pubkey, Account, AccountInfo, Ledger, Runtime, World, Call, Instruction, Cpi, create_account,
  set_account, set_account_self, set_account_ne, CreatesAccounts, transfer_lamports, approve,
  revoke, initialize_account3, transfer_checked, close_account, raw,
}
use xete_programs.Chain.Keeps.{Spares, Kept, KeepsData}

-- A key of 32 equal bytes.
abbrev pub key : ℕ → Pubkey
key n = replicate 32 n

abbrev pub signer : ℕ → AccountInfo
signer n = record { key = key n; is_signer = true }

abbrev pub handle : ℕ → AccountInfo
handle n = record { key = key n; is_signer = false }

-- Addresses by the first seed alone.
abbrev pub derived : List Bytes → Pubkey
derived [] = key 0
derived (s ∷ _) = key (get_or s 0 0 + length s)

-- Creating an account at an unused address; every other call is accepted and changes nothing.
unfoldable pub create : Pubkey → (lamports space : ℕ) → Pubkey → Ledger → Result Ledger
unfolding set_account
create to lamports space owner l =
    if (l to).lamports == 0
    then ok (
        set_account l to
          (record { lamports = lamports; owner = owner; contents = replicate space 0 }))
    else err account_already_initialized

unfoldable pub answer : Cpi → Ledger → Result Ledger
unfolding create
answer (create_account from to lamports space owner) l = create to lamports space owner l
answer _ l = ok l

-- The clock, the instruction before this one, and the derivations and the hash of the tests.
abbrev pub chain : ℤ → Instruction → Runtime
chain now before = record {
  unix_timestamp = ok now;
  minimum_balance = λ space. ok (space + 128);
  find_program_address = λ seeds program_id. (derived seeds, 255);
  create_program_address = λ seeds program_id. some (derived seeds);
  hashv = λ parts. derived parts;
  spl_token_id = key 6;
  sysvar_instructions_id = key 7;
  current_index = ok 1;
  instruction_at = λ n. ok before;
  invoke = λ c l. answer c.instruction l;
}

abbrev pub no_instruction : Instruction
no_instruction = record { program_id = []; accounts = []; bytes = [] }

abbrev pub no_account : Account
no_account = record { lamports = 0; owner = key 0; contents = [] }

abbrev pub nowhere : World
nowhere = record { ledger = λ _. no_account; effects = [] }

-- The value and the world of a run.
abbrev pub world_of {ℓ} : {A : Type ℓ} → Result (A × World) → World
world_of (ok x) = x.1
world_of (err e) = nowhere

create-Creates :
    (to : Pubkey) (lamports space : ℕ) (owner : Pubkey) (l : Ledger) {l' : Ledger}
    → create to lamports space owner l ≡ ok l'
    → l' to ≡ record { lamports = lamports; owner = owner; contents = replicate space 0 }
unfolding create
create-Creates to lamports space owner l {l'} h = elim (Bool-cases ((l to).lamports == 0)) [
  | inl y ↦
      let e : set_account l to
            (record { lamports = lamports; owner = owner; contents = replicate space 0 })
          ≡ l' =
        ground (arith, rw y at h) in
      ap (λ (q : Ledger). q to) (sym e) ∙ set_account_self l to _
  | inr n ↦ absurd (ground (arith, rw n at h))
]

create-unused :
    (to : Pubkey) (lamports space : ℕ) (owner : Pubkey) (l : Ledger) {l' : Ledger}
    → create to lamports space owner l ≡ ok l'
    → (l to).lamports ≡ 0
unfolding create
create-unused to lamports space owner l {l'} h = elim (Bool-cases ((l to).lamports == 0)) [
  | inl y ↦ eq_true _ _ y
  | inr n ↦ absurd (ground (arith, rw n at h))
]

pub chain-CreatesAccounts : (now : ℤ) (before : Instruction) → CreatesAccounts (chain now before)
unfolding answer
chain-CreatesAccounts now before from to owner lamports space infos seeds l l' h =
    create-Creates to lamports space owner l h

pub chain-RefusesUsed : (now : ℤ) (before : Instruction) → RefusesUsed (chain now before)
unfolding answer
chain-RefusesUsed now before from to owner lamports space infos seeds l l' h =
    create-unused to lamports space owner l h

create-elsewhere :
    (to k : Pubkey) (lamports space : ℕ) (owner : Pubkey) (l : Ledger) {l' : Ledger}
    → to ≢ k
    → create to lamports space owner l ≡ ok l'
    → l' k ≡ l k
unfolding create
create-elsewhere to k lamports space owner l {l'} ne h = elim (Bool-cases ((l to).lamports == 0)) [
  | inl y ↦
      let e : set_account l to
            (record { lamports = lamports; owner = owner; contents = replicate space 0 })
          ≡ l' =
        ground (arith, rw y at h) in
      ap (λ (q : Ledger). q k) (sym e) ∙ set_account_ne l to k _ ne
  | inr n ↦ absurd (ground (arith, rw n at h))
]

same-Kept :
    (program_id k : Pubkey) (l l' : Ledger)
    → l' k ≡ l k
    → (l k).owner ≡ program_id
    → Kept program_id k l l'
same-Kept program_id k l l' e owned =
    (ap (λ (x : Account). x.contents) e, ap (λ (x : Account). x.owner) e ∙ owned)

accepted-Kept :
    (program_id k : Pubkey) (l l' : Ledger)
    → ok l ≡ ok l'
    → (l k).owner ≡ program_id
    → Kept program_id k l l'
accepted-Kept program_id k l l' h owned =
    let e : l ≡ l' = ground (arith, h) in
    same-Kept program_id k l l' (ap (λ (q : Ledger). q k) (sym e)) owned

answer-Kept :
    (program_id k : Pubkey) (c : Cpi) (l l' : Ledger)
    → answer c l ≡ ok l'
    → Spares program_id k c
    → (l k).owner ≡ program_id
    → Kept program_id k l l'
unfolding answer
answer-Kept program_id k (create_account from to lamports space owner) l l' h spared owned =
    same-Kept program_id k l l' (create-elsewhere to k lamports space owner l spared h) owned
answer-Kept program_id k (transfer_lamports from to lamports) l l' h spared owned =
    accepted-Kept program_id k l l' h owned
answer-Kept program_id k (approve p source delegate authority amount) l l' h spared owned =
    accepted-Kept program_id k l l' h owned
answer-Kept program_id k (revoke p source authority) l l' h spared owned =
    accepted-Kept program_id k l l' h owned
answer-Kept program_id k (initialize_account3 p account mint owner) l l' h spared owned =
    accepted-Kept program_id k l l' h owned
answer-Kept program_id k (transfer_checked t) l l' h spared owned =
    accepted-Kept program_id k l l' h owned
answer-Kept program_id k (close_account p account dest authority) l l' h spared owned =
    accepted-Kept program_id k l l' h owned
answer-Kept program_id k (raw i) l l' h spared owned = accepted-Kept program_id k l l' h owned

pub chain-KeepsData :
    (now : ℤ) (before : Instruction) (program_id : Pubkey) → KeepsData (chain now before) program_id
chain-KeepsData now before program_id c l l' k h spared owned =
    answer-Kept program_id k c.instruction l l' h spared owned
