-- ===== src/Chain/Types.antt =====
-- Accounts, the ledger, instructions, and what the programs take from the chain. The system
-- program, the token programs, the hash and the address derivation are fields of `Runtime`.
use xete_programs.Base.{
  ℕ, ◌≡◌, Bool, List, Option, Bytes, replicate, bytes_eq, bytes_eq_self, bytes_eq-true, ◌≢◌, arith,
  if◌then◌else◌,
}
use xete_programs.Base.Int.{ℤ}
use xete_programs.Chain.Result.{Result, ok}

-- An address is its 32 bytes.
abbrev pub Pubkey : Type 0
Pubkey = Bytes

pub record Account : Type 0 where
  pub lamports : ℕ
  pub owner : Pubkey
  pub contents : Bytes

-- Every account by its address. Two handles of one address are one account.
abbrev pub Ledger : Type 0
Ledger = Pubkey → Account

-- A handle of an account, as an instruction receives it; its state stands in the ledger.
pub record AccountInfo : Type 0 where
  pub key : Pubkey
  pub is_signer : Bool

unfoldable pub set_account : Ledger → Pubkey → Account → Ledger
unfolding bytes_eq
set_account l k a j = if bytes_eq k j then a else l j

pub set_account_self : (l : Ledger) (k : Pubkey) (a : Account) → set_account l k a k ≡ a
unfolding set_account
set_account_self l k a = rw (bytes_eq_self k)

pub set_account_ne : (l : Ledger) (k j : Pubkey) (a : Account) → k ≢ j → set_account l k a j ≡ l j
unfolding set_account
set_account_ne l k j a h = ground (arith, bytes_eq-true k j)

-- `AccountMeta::new` is writable, `new_readonly` is not.
pub record AccountMeta : Type 0 where
  pub pubkey : Pubkey
  pub is_signer : Bool
  pub is_writable : Bool

pub record Instruction : Type 0 where
  pub program_id : Pubkey
  pub accounts : List AccountMeta
  pub bytes : Bytes

-- The arguments of `spl_token::instruction::transfer_checked`, and the program that it is sent to.
pub record Transfer : Type 0 where
  pub program_id : Pubkey
  pub source : Pubkey
  pub mint : Pubkey
  pub dest : Pubkey
  pub authority : Pubkey
  pub amount : ℕ
  pub decimals : ℕ

-- An instruction to another program. Where the source calls a builder of another crate the
-- arguments of that call stand for what it builds.
pub data Cpi : Type 0 where
  create_account : (from to : Pubkey) (lamports space : ℕ) (owner : Pubkey) → Cpi
  transfer_lamports : (from to : Pubkey) (lamports : ℕ) → Cpi
  approve : (program_id source delegate authority : Pubkey) (amount : ℕ) → Cpi
  revoke : (program_id source authority : Pubkey) → Cpi
  initialize_account3 : (program_id account mint owner : Pubkey) → Cpi
  transfer_checked : Transfer → Cpi
  close_account : (program_id account dest authority : Pubkey) → Cpi
  raw : Instruction → Cpi

-- A call of `invoke` (no seeds) or `invoke_signed`.
pub record Call : Type 0 where
  pub instruction : Cpi
  pub infos : List AccountInfo
  pub seeds : Option (List Bytes)

pub data Effect : Type 0 where
  cpi : Call → Effect
  log_data : Bytes → Effect

-- The chain outside the programs: sysvars, address derivation, hash, and the programs called.
-- `instruction_at` and `current_index` read the instructions sysvar.
pub record Runtime : Type 0 where
  pub unix_timestamp : Result ℤ
  pub minimum_balance : ℕ → Result ℕ
  pub find_program_address : List Bytes → Pubkey → Pubkey × ℕ
  pub create_program_address : List Bytes → Pubkey → Option Pubkey
  pub hashv : List Bytes → Bytes
  pub spl_token_id : Pubkey
  pub sysvar_instructions_id : Pubkey
  pub current_index : Result ℕ
  pub instruction_at : ℕ → Result Instruction
  pub invoke : Call → Ledger → Result Ledger

-- The ledger, and what the instruction has asked of other programs so far, oldest first.
pub record World : Type 0 where
  pub ledger : Ledger
  pub effects : List Effect

-- What the system program documents of `create_account`: the new account holds the lamports, has
-- the owner, and its data is `space` zeros. Its address held nothing before, else the call fails.
abbrev pub CreatesAccounts : Runtime → Type 0
CreatesAccounts rt =
    (from to owner : Pubkey) (lamports space : ℕ) (infos : List AccountInfo)
    (seeds : Option (List Bytes)) (l l' : Ledger)
    → rt.invoke
        (record {
          instruction = create_account from to lamports space owner;
          infos = infos;
          seeds = seeds;
        })
        l
      ≡ ok l'
    → l' to ≡ record { lamports = lamports; owner = owner; contents = replicate space 0 }
