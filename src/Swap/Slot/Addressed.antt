-- ===== src/Swap/Slot/Addressed.antt =====
-- What the check of a state account's address establishes (swap/src/escrowless.rs, swap/src/basket.rs).
use xete_programs.Base.{
  ◌≡◌, ap, differs, differs-false, if◌then◌else◌, ℕ, [], ◌∷◌, Option, none, some, Bytes, Bool-cases,
  inl, inr,
}
use xete_programs.Chain.Result.{Result, ok, err, invalid_seeds}
use xete_programs.Chain.Types.{Pubkey, AccountInfo, Runtime}
use xete_programs.Swap.Slot.{check_address}

-- The account stands at the address of this seed, maker, nonce and bump.
abbrev pub IsAddressed :
    Runtime → Pubkey → (seed : Bytes) → (slot : Pubkey) → (maker nonce : Bytes) → ℕ → Type 0
IsAddressed rt program_id seed slot maker nonce bump =
    rt.create_program_address (seed ∷ maker ∷ nonce ∷ (bump ∷ []) ∷ []) program_id ≡ some slot

pub check_address-IsAddressed :
    (rt : Runtime) (program_id : Pubkey) (seed : Bytes) (slot : AccountInfo) (maker nonce : Bytes)
    (bump : ℕ) {pda : Pubkey}
    → check_address rt program_id seed slot maker nonce bump ≡ ok pda
    → IsAddressed rt program_id seed slot.key maker nonce bump
unfolding check_address
check_address-IsAddressed rt program_id seed slot maker nonce bump {pda} h =
    go (rt.create_program_address (seed ∷ maker ∷ nonce ∷ (bump ∷ []) ∷ []) program_id) h
  where
    err_ok : (k : Pubkey) → err invalid_seeds ≡ ok k → ⊥
    err_ok k q = cc

    go :
        (o : Option Pubkey)
        → (elim o as (λ _. Result Pubkey) [
          | none ↦ err invalid_seeds
          | some k ↦ if differs k slot.key then err invalid_seeds else ok k
        ])
          ≡ ok pda
        → o ≡ some slot.key
    go none q = cc
    go (some k) q = elim (Bool-cases (differs k slot.key)) [
      | inl y ↦ absurd (err_ok pda (rw y at q))
      | inr n ↦ ap (λ x. some x) (differs-false _ _ n)
    ]
