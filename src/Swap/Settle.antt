-- ===== src/Swap/Settle.antt =====
-- Settlement: the want-leg with its fee and royalty, and the coins-leg of a bid (swap/src/settle.rs).
pub mod Load
pub mod Conserved
pub mod Terms
pub mod Royalties
pub mod Posted
use xete_programs.Base.{ℕ, zero, suc, ◌+◌, ltb, List, [], ◌∷◌, Option, some, none, Bytes}
use xete_programs.Chain.Result.{
  err, panicked, invalid_argument, arithmetic_overflow, insufficient_funds,
}
use xete_programs.Chain.Types.{Pubkey, AccountInfo, Runtime}
use xete_programs.Chain.Action.{Action, pure, lift, reads, fail_if, when, ◌>>=◌, ◌>>◌}
use xete_programs.Swap.Cpi.{token_transfer}
use xete_programs.Swap.Config.Policy.{Policy, read_config, verify_fee_dest}
use xete_programs.Swap.Royalty.{split_by_share}
use Load.{bps_of, sub_or, add_or, resolve_royalty, RoyaltyTerms}

-- Who pays whom: `payer` is the source account, `authority` signs for it (by `seeds` when it is a
-- program address).
pub record Leg : Type 0 where
  pub config : AccountInfo
  pub token_prog : AccountInfo
  pub payer : AccountInfo
  pub mint : AccountInfo
  pub fee_ata : AccountInfo
  pub payee : AccountInfo
  pub authority : AccountInfo
  pub signer_seeds : Option (List Bytes)
  pub decimals : ℕ
  pub shard_seed : ℕ

-- One transfer out of the leg's source.
unfoldable pub leg_transfer : Runtime → Leg → AccountInfo → ℕ → Action (Unit {0})
unfolding token_transfer
leg_transfer rt leg dest amount =
    token_transfer rt leg.token_prog leg.payer leg.mint dest leg.authority amount leg.decimals
      leg.signer_seeds

-- `if fee > 0 { verify_fee_dest(..)?; token_transfer(.. fee_ata ..)?; }`
unfoldable pub pay_fee : Runtime → Pubkey → Leg → Policy → ℕ → Action (Unit {0})
unfolding leg_transfer
pay_fee rt program_id leg policy fee = when (ltb 0 fee) (do
  reads (
      verify_fee_dest rt program_id leg.fee_ata leg.mint policy.fee_wallet policy.fee_shards
        leg.shard_seed)
  leg_transfer rt leg leg.fee_ata fee)

-- The fee, then the rest: what `pay_want_leg` and `pay_coins_via_delegate` do on their arguments.
unfoldable pub pay_leg : Runtime → Pubkey → Leg → ℕ → Action (Unit {0})
unfolding pay_fee
pay_leg rt program_id leg amount = do
  policy ← reads (read_config rt program_id leg.config)
  let fee = bps_of amount policy.fee_bps
  pay_fee rt program_id leg policy fee
  rest ← lift (sub_or panicked amount fee)
  leg_transfer rt leg leg.payee rest

unfoldable pub pay_want_leg :
    Runtime
    → Pubkey
    → (config token_prog taker_want want_mint fee_ata maker_want taker : AccountInfo)
    → (want_amount want_dec shard_seed : ℕ) → Action (Unit {0})
unfolding pay_leg
pay_want_leg rt program_id config token_prog taker_want want_mint fee_ata maker_want taker
      want_amount want_dec shard_seed =
    pay_leg rt program_id
      (record {
        config = config;
        token_prog = token_prog;
        payer = taker_want;
        mint = want_mint;
        fee_ata = fee_ata;
        payee = maker_want;
        authority = taker;
        signer_seeds = none;
        decimals = want_dec;
        shard_seed = shard_seed;
      })
      want_amount

unfoldable pub pay_coins_via_delegate :
    Runtime
    → Pubkey
    → (config token_prog maker_coins coins_mint fee_ata owner_coins order_auth : AccountInfo)
    → List Bytes
    → (amount coins_dec shard_seed : ℕ) → Action (Unit {0})
unfolding pay_leg
pay_coins_via_delegate rt program_id config token_prog maker_coins coins_mint fee_ata owner_coins
      order_auth seeds amount coins_dec shard_seed =
    pay_leg rt program_id
      (record {
        config = config;
        token_prog = token_prog;
        payer = maker_coins;
        mint = coins_mint;
        fee_ata = fee_ata;
        payee = owner_coins;
        authority = order_auth;
        signer_seeds = some seeds;
        decimals = coins_dec;
        shard_seed = shard_seed;
      })
      amount

-- The creators' payouts, in order; a payout of zero is skipped.
unfoldable pub pay_creators : Runtime → Leg → List AccountInfo → List ℕ → Action (Unit {0})
unfolding leg_transfer
pay_creators rt leg [] splits = pure tt
pay_creators rt leg (ca ∷ atas) [] = lift (err panicked)
pay_creators rt leg (ca ∷ atas) (n ∷ splits) = do
  when (ltb 0 n) (leg_transfer rt leg ca n)
  pay_creators rt leg atas splits

-- The want-leg with the negotiated royalty: the fee, the maker's payment, then the creators.
unfoldable pub pay_want_and_royalty :
    Runtime
    → Pubkey
    → Leg
    → (want_amount max_want royalty_mode maker_pct : ℕ) → AccountInfo
    → Option AccountInfo
    → List AccountInfo
    → Action (Unit {0})
unfolding pay_fee pay_creators
pay_want_and_royalty rt program_id leg want_amount max_want royalty_mode maker_pct give_mint
      metadata creator_atas =
    do
      policy ← reads (read_config rt program_id leg.config)
      let fee = bps_of want_amount policy.fee_bps
      terms ← reads (
          resolve_royalty rt leg.mint give_mint metadata creator_atas want_amount royalty_mode
            maker_pct)
      taker_share ← lift (sub_or panicked terms.royalty terms.maker_share)
      taker_total ← lift (add_or arithmetic_overflow want_amount taker_share)
      fail_if (ltb max_want taker_total) invalid_argument
      after_fee ← lift (sub_or insufficient_funds want_amount fee)
      maker_payment ← lift (sub_or insufficient_funds after_fee terms.maker_share)
      pay_fee rt program_id leg policy fee
      leg_transfer rt leg leg.payee maker_payment
      when (ltb 0 terms.royalty) (do
        splits ← lift (split_by_share terms.royalty terms.shares)
        pay_creators rt leg creator_atas splits)
