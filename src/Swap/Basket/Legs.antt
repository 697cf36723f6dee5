-- ===== src/Swap/Basket/Legs.antt =====
-- The loops over a basket's legs (swap/src/basket.rs).
use xete_programs.Base.{
  ℕ, zero, suc, ◌+◌, ◌*◌, ◌==◌, List, [], ◌∷◌, Option, none, some, Bytes, slice, get_or, differs,
}
use xete_programs.Base.Words.{from_le, u64_le}
use xete_programs.Chain.Result.{Result, ok, invalid_argument, invalid_instruction_data, panicked}
use xete_programs.Chain.Types.{Pubkey, AccountInfo, Ledger, Runtime}
use xete_programs.Chain.Action.{Action, pure, lift, reads, fail_if, ◌>>=◌, ◌>>◌}
use xete_programs.Chain.Writes.{write_fields}
use xete_programs.Swap.Layout.{b_give, b_want, entry, token_acct_len}
use xete_programs.Swap.Checks.{mint_decimals, require_token_account}
use xete_programs.Swap.Cpi.{create_pda, token_init, token_transfer, token_close}
use xete_programs.Swap.Config.Policy.{Policy}
use xete_programs.Swap.Settle.Load.{bps_of, sub_or}
use xete_programs.Swap.Settle.{Leg, leg_transfer, pay_fee}
use xete_programs.Swap.Basket.Checks.{bvault_seed, read_entry, refuse_wanted, check_bvault}

-- The accounts of one entry of the give basket: its mint, its vault, and the account that the asset
-- comes from or goes to.
pub record GiveLeg : Type 0 where
  pub mint : AccountInfo
  pub vault : AccountInfo
  pub holder : AccountInfo

-- `accounts[base + i * 3 ..]` for each entry.
unfoldable pub give_legs : List AccountInfo → List GiveLeg
give_legs (m ∷ v ∷ h ∷ r) = record { mint = m; vault = v; holder = h } ∷ give_legs r
give_legs _ = []

-- The accounts of one entry of the want basket.
pub record WantLeg : Type 0 where
  pub mint : AccountInfo
  pub taker_want : AccountInfo
  pub maker_want : AccountInfo
  pub fee_ata : AccountInfo

-- `accounts[want_base + j * 4 ..]` for each entry.
unfoldable pub want_legs : List AccountInfo → List WantLeg
want_legs (m ∷ t ∷ k ∷ f ∷ r) =
    record { mint = m; taker_want = t; maker_want = k; fee_ata = f } ∷ want_legs r
want_legs _ = []

-- The accounts that every leg of a basket uses.
pub record Basket : Type 0 where
  pub swap : AccountInfo
  pub maker : AccountInfo
  pub token_prog : AccountInfo
  pub nonce : Bytes

-- The want entries, copied from the payload: `n` of them, from the `j`-th on.
unfoldable pub write_wants : Pubkey → Bytes → (want_off n j : ℕ) → Action (Unit {0})
write_wants k d want_off zero j = pure tt
write_wants k d want_off (suc n) j = do
  let e = want_off + j * entry
  fail_if (from_le (slice d (e + 32) (e + 40)) == 0) invalid_instruction_data
  write_fields k ((b_want + j * entry, slice d e (e + entry)) ∷ [])
  write_wants k d want_off n (suc j)

-- One give entry: its vault, the transfer into it, and its record in the basket.
unfoldable pub escrow_leg :
    Runtime
    → Pubkey
    → Basket
    → (system : AccountInfo) → Bytes
    → (want_count i : ℕ) → GiveLeg
    → Action (Unit {0})
escrow_leg rt program_id b system d want_count i g = do
  let amount = from_le (slice d (34 + i * 8) (34 + i * 8 + 8))
  fail_if (amount == 0) invalid_instruction_data
  reads (refuse_wanted b.swap g.mint.key want_count 0)
  pda ← lift (check_bvault rt program_id b.maker.key b.nonce i g.vault)
  create_pda rt b.maker g.vault system token_acct_len rt.spl_token_id
      (bvault_seed ∷ b.maker.key ∷ b.nonce ∷ (i ∷ []) ∷ (pda.1 ∷ []) ∷ [])
  token_init rt b.token_prog g.vault g.mint b.swap.key
  decimals ← reads (mint_decimals g.mint)
  token_transfer rt b.token_prog g.holder g.mint g.vault b.maker amount decimals none
  write_fields b.swap.key
      ((b_give + i * entry, g.mint.key) ∷ (b_give + i * entry + 32, u64_le amount) ∷ [])

unfoldable pub escrow_legs :
    Runtime
    → Pubkey
    → Basket
    → (system : AccountInfo) → Bytes
    → (want_count i : ℕ) → List GiveLeg
    → Action (Unit {0})
unfolding escrow_leg
escrow_legs rt program_id b system d want_count i [] = pure tt
escrow_legs rt program_id b system d want_count i (g ∷ gs) = do
  escrow_leg rt program_id b system d want_count i g
  escrow_legs rt program_id b system d want_count (suc i) gs

-- One want entry: the fee, then the rest to the maker.
unfoldable pub pay_want_entry :
    Runtime
    → Pubkey
    → Basket
    → (config taker : AccountInfo) → Policy
    → (j : ℕ) → WantLeg
    → Action (Unit {0})
unfolding leg_transfer pay_fee
pay_want_entry rt program_id b config taker policy j g = do
  e ← reads (read_entry b.swap (b_want + j * entry))
  fail_if (differs e.mint g.mint.key) invalid_argument
  reads (require_token_account g.maker_want g.mint.key b.maker.key)
  want_dec ← reads (mint_decimals g.mint)
  let leg : Leg = record {
    config = config;
    token_prog = b.token_prog;
    payer = g.taker_want;
    mint = g.mint;
    fee_ata = g.fee_ata;
    payee = g.maker_want;
    authority = taker;
    signer_seeds = none;
    decimals = want_dec;
    shard_seed = get_or b.nonce 0 0;
  }
  let fee = bps_of e.amount policy.fee_bps
  pay_fee rt program_id leg policy fee
  rest ← lift (sub_or panicked e.amount fee)
  leg_transfer rt leg g.maker_want rest

unfoldable pub pay_want_entries :
    Runtime
    → Pubkey
    → Basket
    → (config taker : AccountInfo) → Policy
    → (j : ℕ) → List WantLeg
    → Action (Unit {0})
unfolding pay_want_entry
pay_want_entries rt program_id b config taker policy j [] = pure tt
pay_want_entries rt program_id b config taker policy j (g ∷ gs) = do
  pay_want_entry rt program_id b config taker policy j g
  pay_want_entries rt program_id b config taker policy (suc j) gs

-- Where a give entry may go: to any account, or to one of this owner.
unfoldable pub check_holder : Option Pubkey → GiveLeg → Ledger → Result (Unit {0})
check_holder none g l = ok tt
check_holder (some owner) g l = require_token_account g.holder g.mint.key owner l

-- One give entry out of its vault, which is closed; the basket's address signs.
unfoldable pub release_leg :
    Runtime
    → Pubkey
    → Basket
    → (seeds : List Bytes) → Option Pubkey
    → (i : ℕ) → GiveLeg
    → Action (Unit {0})
release_leg rt program_id b seeds owner i g = do
  e ← reads (read_entry b.swap (b_give + i * entry))
  fail_if (differs e.mint g.mint.key) invalid_argument
  reads (check_holder owner g)
  vault ← lift (check_bvault rt program_id b.maker.key b.nonce i g.vault)
  decimals ← reads (mint_decimals g.mint)
  token_transfer rt b.token_prog g.vault g.mint g.holder b.swap e.amount decimals (some seeds)
  token_close rt b.token_prog g.vault b.maker b.swap seeds

unfoldable pub release_legs :
    Runtime
    → Pubkey
    → Basket
    → (seeds : List Bytes) → Option Pubkey
    → (i : ℕ) → List GiveLeg
    → Action (Unit {0})
unfolding release_leg
release_legs rt program_id b seeds owner i [] = pure tt
release_legs rt program_id b seeds owner i (g ∷ gs) = do
  release_leg rt program_id b seeds owner i g
  release_legs rt program_id b seeds owner (suc i) gs
