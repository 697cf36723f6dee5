-- ===== src/Chain/Sweep.antt =====
-- `close` of both programs: every lamport of one account goes to another, and its data is wiped
-- (swap/src/cpi.rs, program/lean/src/lib.rs).
use xete_programs.Base.{
  ℕ, ◌+◌, ◌<◌, ◌≡◌, ◌≢◌, sym, ◌∙◌, ap, length, replicate, ltb, if◌then◌else◌, arith,
}
use xete_programs.Base.Words.{u64_mod}
use xete_programs.Chain.Result.{ok, err, arithmetic_overflow}
use xete_programs.Chain.Types.{
  Pubkey, Account, AccountInfo, Ledger, World, set_account, set_account_self, set_account_ne,
}
use xete_programs.Chain.Action.{Action}

unfoldable pub with_lamports : ℕ → Account → Account
with_lamports n a = record a { lamports = n }

-- `data.fill(0)`
unfoldable pub zeroed : Account → Account
zeroed a = record a { contents = replicate (length a.contents) 0 }

-- The balances are read, added, and written one after the other, so that an account swept into
-- itself ends empty.
unfoldable pub swept : Pubkey → Pubkey → Ledger → Ledger
unfolding with_lamports zeroed
swept a d l =
    let paid = set_account l d (with_lamports ((l d).lamports + (l a).lamports) (l d)) in
    let emptied = set_account paid a (with_lamports 0 (paid a)) in
    set_account emptied a (zeroed (emptied a))

unfoldable pub sweep : AccountInfo → AccountInfo → Action (Unit {0})
sweep account dest w =
    if ltb ((w.ledger dest.key).lamports + (w.ledger account.key).lamports) u64_mod
    then ok (tt, record w { ledger = swept account.key dest.key w.ledger })
    else err arithmetic_overflow

-- What a sweep of one account into another leaves.
pub record Swept (a d : Pubkey) (l l' : Ledger) : Type 0 where
  pub emptied : (l' a).lamports ≡ 0
  pub wiped : (l' a).contents ≡ replicate (length (l a).contents) 0
  pub kept_owner : (l' a).owner ≡ (l a).owner
  pub paid : l' d ≡ with_lamports ((l d).lamports + (l a).lamports) (l d)
  pub others : (k : Pubkey) → k ≢ a → k ≢ d → l' k ≡ l k

swept_source : (a d : Pubkey) (l : Ledger) → a ≢ d → swept a d l a ≡ zeroed (with_lamports 0 (l a))
unfolding swept
swept_source a d l ne = simp (set_account_self, set_account_ne l d a _ (λ e. ne (sym e)))

swept_dest :
    (a d : Pubkey) (l : Ledger)
    → a ≢ d
    → swept a d l d ≡ with_lamports ((l d).lamports + (l a).lamports) (l d)
unfolding swept
swept_dest a d l ne =
    set_account_ne _ a d _ ne ∙ (set_account_ne _ a d _ ne ∙ set_account_self _ d _)

swept_other : (a d k : Pubkey) (l : Ledger) → k ≢ a → k ≢ d → swept a d l k ≡ l k
unfolding swept
swept_other a d k l na nd =
    set_account_ne _ a k _ (λ e. na (sym e))
    ∙ (set_account_ne _ a k _ (λ e. na (sym e)) ∙ set_account_ne l d k _ (λ e. nd (sym e)))

pub swept-Swept : (a d : Pubkey) (l : Ledger) → a ≢ d → Swept a d l (swept a d l)
swept-Swept a d l ne = record {
  emptied = unfold with_lamports zeroed in ap (λ (x : Account). x.lamports) (swept_source a d l ne);
  wiped = unfold with_lamports zeroed in ap (λ (x : Account). x.contents) (swept_source a d l ne);
  kept_owner = unfold with_lamports zeroed in ap (λ (x : Account). x.owner) (swept_source a d l ne);
  paid = swept_dest a d l ne;
  others = λ k na nd. swept_other a d k l na nd;
}

-- A sweep that goes through fits the destination's balance in 64 bits.
pub sweep-inv :
    (account dest : AccountInfo) (w : World) {x : Unit {0} × World}
    → sweep account dest w ≡ ok x
    → (x.1 ≡ record w { ledger = swept account.key dest.key w.ledger })
      × ((w.ledger dest.key).lamports + (w.ledger account.key).lamports < u64_mod)
unfolding sweep
sweep-inv account dest w h = ground arith

pub sweep_of_fits :
    (account dest : AccountInfo) (w : World)
    → (w.ledger dest.key).lamports + (w.ledger account.key).lamports < u64_mod
    → sweep account dest w ≡ ok (tt, record w { ledger = swept account.key dest.key w.ledger })
unfolding sweep
sweep_of_fits account dest w h = ground arith

-- A swept account holds zeros, also when it is swept into itself.
pub swept_wiped : (a d : Pubkey) (l : Ledger) → (n : ℕ) × ((swept a d l a).contents ≡ replicate n 0)
unfolding swept zeroed
swept_wiped a d l = (_, ap (λ (x : Account). x.contents) (set_account_self _ a _))
