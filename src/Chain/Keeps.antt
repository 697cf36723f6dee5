-- ===== src/Chain/Keeps.antt =====
-- What a call leaves alone: the data of the accounts that the calling program owns.
use xete_programs.Base.{◌≡◌, ◌≢◌, ◌∙◌}
use xete_programs.Chain.Result.{ok}
use xete_programs.Chain.Types.{
  Pubkey, Ledger, Runtime, Cpi, create_account, transfer_lamports, approve, revoke,
  initialize_account3, transfer_checked, close_account, raw, Call,
}

-- A call to another program than `program_id`, which does not create the account `k`.
abbrev pub Spares : (program_id k : Pubkey) → Cpi → Type 0
Spares program_id k (create_account from to lamports space owner) = to ≢ k
Spares program_id k (transfer_lamports from to lamports) = Unit
Spares program_id k (approve p source delegate authority amount) = p ≢ program_id
Spares program_id k (revoke p source authority) = p ≢ program_id
Spares program_id k (initialize_account3 p account mint owner) = p ≢ program_id
Spares program_id k (transfer_checked t) = t.program_id ≢ program_id
Spares program_id k (close_account p account dest authority) = p ≢ program_id
Spares program_id k (raw i) = i.program_id ≢ program_id

-- The account `k` of the program, with the same owner and data in both ledgers.
abbrev pub Kept : (program_id k : Pubkey) → (l l' : Ledger) → Type 0
Kept program_id k l l' = ((l' k).contents ≡ (l k).contents) × ((l' k).owner ≡ program_id)

-- What the chain documents of every call: the data and the owner of an account are changed by the
-- program that owns it, and by no other.
abbrev pub KeepsData : Runtime → Pubkey → Type 0
KeepsData rt program_id =
    (c : Call) (l l' : Ledger) (k : Pubkey)
    → rt.invoke c l ≡ ok l'
    → Spares program_id k c.instruction
    → (l k).owner ≡ program_id
    → Kept program_id k l l'

pub Kept-trans :
    (program_id k : Pubkey) (l m n : Ledger)
    → Kept program_id k l m
    → Kept program_id k m n
    → Kept program_id k l n
Kept-trans program_id k l m n g h = (h.0 ∙ g.0, h.1)
