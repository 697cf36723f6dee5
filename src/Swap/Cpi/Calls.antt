-- ===== src/Swap/Cpi/Calls.antt =====
-- What the calls of other programs leave on record (swap/src/cpi.rs).
use xete_programs.Base.{subst, ℕ, ◌≡◌, ◌≢◌, List, [], ◌∷◌, ◌++◌, Option, some, Bytes}
use xete_programs.Chain.Result.{ok}
use xete_programs.Chain.Types.{Pubkey, AccountInfo, Runtime, World, Call, cpi, create_account}
use xete_programs.Chain.Action.{after_lift, perform-inv}
use xete_programs.Chain.Keeps.{Kept, KeepsData}
use xete_programs.Chain.Ran.{Did, Did-trans, perform-Did}
use xete_programs.Swap.Cpi.{
  create_pda, token_init, token_transfer, transfer_call, token_close, close_call,
}

-- The call of `create_pda`.
abbrev pub create_call :
    (payer acct system : AccountInfo) (lamports space : ℕ) → Pubkey → List Bytes → Call
create_call payer acct system lamports space owner seeds = record {
  instruction = create_account payer.key acct.key lamports space owner;
  infos = payer ∷ acct ∷ system ∷ [];
  seeds = some seeds;
}

module _ (rt : Runtime) where
  pub create_pda-inv :
      (payer acct system : AccountInfo) (space : ℕ) (owner : Pubkey) (seeds : List Bytes)
      (w : World) {x : Unit {0} × World}
      → create_pda rt payer acct system space owner seeds w ≡ ok x
      → (lamports : ℕ) × (rt.minimum_balance space ≡ ok lamports)
        × (rt.invoke (create_call payer acct system lamports space owner seeds) w.ledger
            ≡ ok x.1.ledger)
        × (x.1.effects
            ≡ w.effects ++ cpi (create_call payer acct system lamports space owner seeds) ∷ [])
  unfolding create_pda
  create_pda-inv payer acct system space owner seeds w h =
      after_lift _ _ w h
        λ lamports em h1. let called = perform-inv rt _ w h1 in (lamports, em, called.0, called.1)

  pub token_transfer-inv :
      (prog source mint dest authority : AccountInfo) (amount decimals : ℕ)
      (seeds : Option (List Bytes)) (w : World) {x : Unit {0} × World}
      → token_transfer rt prog source mint dest authority amount decimals seeds w ≡ ok x
      → x.1.effects
        ≡ w.effects
          ++ cpi (transfer_call prog source mint dest authority amount decimals seeds) ∷ []
  unfolding token_transfer
  token_transfer-inv prog source mint dest authority amount decimals seeds w h =
      (perform-inv rt _ w h).1

  pub token_close-inv :
      (prog acct dest authority : AccountInfo) (seeds : List Bytes) (w : World)
      {x : Unit {0} × World}
      → token_close rt prog acct dest authority seeds w ≡ ok x
      → x.1.effects ≡ w.effects ++ cpi (close_call prog acct dest authority seeds) ∷ []
  unfolding token_close
  token_close-inv prog acct dest authority seeds w h = (perform-inv rt _ w h).1

  -- A transfer and a closing are one call each.
  pub token_transfer-Did :
      (prog source mint dest authority : AccountInfo) (amount decimals : ℕ)
      (seeds : Option (List Bytes)) (w : World) {x : Unit {0} × World}
      → token_transfer rt prog source mint dest authority amount decimals seeds w ≡ ok x
      → Did rt
          (cpi (transfer_call prog source mint dest authority amount decimals seeds) ∷ [])
          w
          x.1
  unfolding token_transfer
  token_transfer-Did prog source mint dest authority amount decimals seeds w h =
      perform-Did rt _ w h

  pub token_close-Did :
      (prog acct dest authority : AccountInfo) (seeds : List Bytes) (w : World)
      {x : Unit {0} × World}
      → token_close rt prog acct dest authority seeds w ≡ ok x
      → Did rt (cpi (close_call prog acct dest authority seeds) ∷ []) w x.1
  unfolding token_close
  token_close-Did prog acct dest authority seeds w h = perform-Did rt _ w h

  -- A transfer out of a vault, which is then closed.
  pub transfer_and_close-Did :
      (prog vault mint dest authority rent : AccountInfo) (amount decimals : ℕ) (seeds : List Bytes)
      (w u : World) {x y : Unit {0} × World}
      → token_transfer rt prog vault mint dest authority amount decimals (some seeds) w ≡ ok x
      → x.1 ≡ u
      → token_close rt prog vault rent authority seeds u ≡ ok y
      → Did rt
          (cpi (transfer_call prog vault mint dest authority amount decimals (some seeds))
            ∷ cpi (close_call prog vault rent authority seeds)
            ∷ [])
          w
          y.1
  transfer_and_close-Did prog vault mint dest authority rent amount decimals seeds w u {x} {y} h e
        k =
      Did-trans rt
        (cpi (transfer_call prog vault mint dest authority amount decimals (some seeds)) ∷ [])
        (cpi (close_call prog vault rent authority seeds) ∷ []) w u y.1
        (subst
          (λ (v : World).
            Did rt
              (cpi (transfer_call prog vault mint dest authority amount decimals (some seeds)) ∷ [])
              w v)
          e (token_transfer-Did prog vault mint dest authority amount decimals (some seeds) w h))
        (token_close-Did prog vault rent authority seeds u k)

  -- Calls of another program keep the accounts of this one.
  module _ (program_id : Pubkey) (keep : KeepsData rt program_id) (prog : AccountInfo)
      (foreign : prog.key ≢ program_id) (k : Pubkey) where
    pub token_transfer-Kept :
        (source mint dest authority : AccountInfo) (amount decimals : ℕ)
        (seeds : Option (List Bytes)) (w : World) {x : Unit {0} × World}
        → (w.ledger k).owner ≡ program_id
        → token_transfer rt prog source mint dest authority amount decimals seeds w ≡ ok x
        → Kept program_id k w.ledger x.1.ledger
    unfolding token_transfer transfer_call
    token_transfer-Kept source mint dest authority amount decimals seeds w {x} own h =
        keep (transfer_call prog source mint dest authority amount decimals seeds) w.ledger
          x.1.ledger k (perform-inv rt _ w h).0 foreign own

    pub token_close-Kept :
        (acct dest authority : AccountInfo) (seeds : List Bytes) (w : World) {x : Unit {0} × World}
        → (w.ledger k).owner ≡ program_id
        → token_close rt prog acct dest authority seeds w ≡ ok x
        → Kept program_id k w.ledger x.1.ledger
    unfolding token_close close_call
    token_close-Kept acct dest authority seeds w {x} own h =
        keep (close_call prog acct dest authority seeds) w.ledger x.1.ledger k
          (perform-inv rt _ w h).0 foreign own

  module _ (program_id : Pubkey) (keep : KeepsData rt program_id) (k : Pubkey) where
    pub create_pda-Kept :
        (payer acct system : AccountInfo) (space : ℕ) (owner : Pubkey) (seeds : List Bytes)
        (w : World) {x : Unit {0} × World}
        → acct.key ≢ k
        → (w.ledger k).owner ≡ program_id
        → create_pda rt payer acct system space owner seeds w ≡ ok x
        → Kept program_id k w.ledger x.1.ledger
    create_pda-Kept payer acct system space owner seeds w {x} apart own h =
        let (lamports, _, called, _) = create_pda-inv payer acct system space owner seeds w h in
        keep (create_call payer acct system lamports space owner seeds) w.ledger x.1.ledger k called
          apart own

    pub token_init-Kept :
        (prog acct mint : AccountInfo) (authority : Pubkey) (w : World) {x : Unit {0} × World}
        → prog.key ≢ program_id
        → (w.ledger k).owner ≡ program_id
        → token_init rt prog acct mint authority w ≡ ok x
        → Kept program_id k w.ledger x.1.ledger
    unfolding token_init
    token_init-Kept prog acct mint authority w {x} foreign own h =
        keep _ w.ledger x.1.ledger k (perform-inv rt _ w h).0 foreign own
