-- ===== src/Tests/SwapRuns.antt =====
-- Runs of the swap program's 1:1 swaps and settlements (swap/src/swap.rs, swap/src/settle.rs,
-- swap/src/royalty.rs): account 1 gives 30 of mint 20 for 1000 of mint 21, until time 90.
use xete_programs.Base.{
  ℕ, ◌+◌, ◌≤◌, ◌≡◌, ◌≢◌, refl, ap, List, [], ◌∷◌, ◌++◌, none, some, Bytes, length, replicate, sum,
  arith,
}
use xete_programs.Base.Int.{pos}
use xete_programs.Chain.Result.{ok}
use xete_programs.Chain.Types.{Pubkey, Account, AccountInfo, Runtime, World, set_account}
use xete_programs.Chain.Panics.{NoPanic}
use xete_programs.Swap.Ids.{token_metadata_id}
use xete_programs.Swap.Royalty.{max_creators, TmRoyalty, parse_tm_royalty, split_by_share}
use xete_programs.Swap.Royalty.Split.{split_by_share_exact}
use xete_programs.Swap.Royalty.Bounds.{parse_tm_royalty-NoPanic, parse_tm_royalty_bounds}
use xete_programs.Swap.Settle.{Leg, pay_leg, pay_want_and_royalty}
use xete_programs.Swap.Settle.Conserved.{LegPaid, pay_leg_conserves}
use xete_programs.Swap.Settle.Royalties.{RoyaltyPaid, pay_want_and_royalty_conserves}
use xete_programs.Swap.Spl.{
  FillAccounts, fill_accounts, fill, RefundAccounts, expire_accounts, expire, cancel_swap,
}
use xete_programs.Swap.Spl.Filled.{Filled, fill_effects}
use xete_programs.Swap.Spl.Refunded.{Expired, expire_refunds, Cancelled, cancel_refunds}
use xete_programs.Swap.Spl.Lifecycle.{fill_excludes_expire, fill_once}
use xete_programs.Tests.{key, signer, handle, chain, no_instruction, no_account, nowhere, world_of}

abbrev pub program : Pubkey
program = key 9

-- Before and after the expiry.
abbrev pub early : Runtime
early = chain (pos 50) no_instruction

abbrev pub late : Runtime
late = chain (pos 100) no_instruction

abbrev pub word : ℕ → Bytes
word n = n ∷ replicate 7 0

abbrev pub thousand : Bytes
thousand = 232 ∷ 3 ∷ replicate 6 0

abbrev pub swap_bytes : Bytes
swap_bytes =
    key 1
    ++ (key 20
        ++ (word 30
            ++ (key 21
                ++ (thousand
                    ++ (key 0 ++ (key 0 ++ (word 90 ++ (0 ∷ 255 ∷ (key 4 ++ (0 ∷ 0 ∷ []))))))))))

-- The policy: 250 basis points, no delist fee, fees to wallet 8, no shards.
abbrev pub config_bytes : Bytes
config_bytes = key 7 ++ (key 8 ++ (250 ∷ 0 ∷ (replicate 8 0 ++ (key 0 ++ (0 ∷ 255 ∷ [])))))

abbrev pub mint_bytes : Bytes
mint_bytes = replicate 44 0 ++ (6 ∷ [])

abbrev pub token_bytes : ℕ → ℕ → Bytes
token_bytes mint owner = key mint ++ key owner

-- The metadata of an asset with 500 basis points for one creator.
abbrev metadata_bytes : Bytes
metadata_bytes = replicate 77 0 ++ (244 ∷ 1 ∷ 1 ∷ 1 ∷ 0 ∷ 0 ∷ 0 ∷ (key 3 ++ (1 ∷ 100 ∷ [])))

abbrev pub account : Pubkey → Bytes → Account
account owner contents = record { lamports = 50; owner = owner; contents = contents }

abbrev pub listed : World
listed = record {
  ledger =
      set_account
        (set_account
          (set_account
            (set_account
              (set_account
                (set_account
                  (set_account
                    (set_account
                      (set_account (λ _. no_account) (key 117)
                        (account token_metadata_id metadata_bytes))
                      (key 33) (account (key 6) (token_bytes 21 3)))
                    (key 32) (account (key 6) (token_bytes 20 1)))
                  (key 31) (account (key 6) (token_bytes 21 8)))
                (key 30) (account (key 6) (token_bytes 21 1)))
              (key 21) (account (key 6) mint_bytes))
            (key 20) (account (key 6) mint_bytes))
          (key 105) (account program config_bytes))
        (key 119) (account program swap_bytes);
  effects = [];
}

abbrev fill_list : List AccountInfo
fill_list =
    signer 2
    ∷ handle 119
    ∷ handle 123
    ∷ handle 1
    ∷ handle 20
    ∷ handle 21
    ∷ handle 40
    ∷ handle 41
    ∷ handle 30
    ∷ handle 6
    ∷ handle 105
    ∷ handle 31
    ∷ []

abbrev pub fill_payload : Bytes
fill_payload = key 4 ++ (word 30 ++ thousand)

abbrev fill_parts : FillAccounts
fill_parts = record {
  taker = signer 2;
  swap = handle 119;
  vault = handle 123;
  maker = handle 1;
  give_mint = handle 20;
  want_mint = handle 21;
  taker_want = handle 40;
  taker_give = handle 41;
  maker_want = handle 30;
  token_prog = handle 6;
  config = handle 105;
  fee_ata = handle 31;
  give_token_prog = handle 6;
}

abbrev refund_parts : RefundAccounts
refund_parts = record {
  swap = handle 119;
  vault = handle 123;
  maker = handle 1;
  give_mint = handle 20;
  maker_give = handle 32;
  token_prog = handle 6;
}

abbrev expire_list : List AccountInfo
expire_list = handle 50 ∷ handle 119 ∷ handle 123 ∷ handle 1 ∷ handle 20 ∷ handle 32 ∷ handle 6 ∷ []

abbrev cancel_list : List AccountInfo
cancel_list =
    signer 1
    ∷ handle 119
    ∷ handle 123
    ∷ handle 20
    ∷ handle 32
    ∷ handle 6
    ∷ handle 105
    ∷ handle 8
    ∷ handle 0
    ∷ []

abbrev filled : World
filled = world_of (fill early program fill_list fill_payload listed)

abbrev expired : World
expired = world_of (expire late program expire_list (key 4) listed)

abbrev cancelled : World
cancelled = world_of (cancel_swap early program cancel_list (key 4) listed)

fill-runs : fill early program fill_list fill_payload listed ≡ ok (tt, filled)
unfolding fill xete_programs.Chain.Action.◌>>=◌ xete_programs.Chain.Action.fail_if
    xete_programs.Chain.Action.lift fill_accounts xete_programs.Chain.Action.fail_when
    xete_programs.Base.differs set_account xete_programs.Chain.Action.reads
    xete_programs.Swap.Settle.Load.load_fill_state xete_programs.Chain.Result.◌>>=◌
    xete_programs.Chain.Result.fail_if xete_programs.Base.slice xete_programs.Base.Words.i64_from_le
    xete_programs.Base.Words.from_le xete_programs.Swap.Checks.any_nonzero
    xete_programs.Chain.Decode.arr32 xete_programs.Base.bytes_eq xete_programs.Chain.Action.perform
    xete_programs.Chain.Action.when xete_programs.Chain.Sweep.sweep xete_programs.Chain.Sweep.swept
    xete_programs.Chain.Sweep.with_lamports xete_programs.Chain.Sweep.zeroed
    xete_programs.Swap.Checks.assert_token_program xete_programs.Swap.Checks.mint_decimals
    xete_programs.Swap.Checks.require_token_account xete_programs.Swap.Ids.token_2022_id
    xete_programs.Swap.Settle.Load.sub_or xete_programs.Swap.Settle.leg_transfer
    xete_programs.Swap.Settle.pay_fee pay_leg xete_programs.Swap.Settle.pay_want_leg
    xete_programs.Swap.Spl.Checks.verify_swap_pdas xete_programs.Tests.answer
    xete_programs.Swap.Config.Policy.read_config xete_programs.Swap.Config.Policy.verify_fee_dest
    xete_programs.Swap.Cpi.transfer_call xete_programs.Swap.Cpi.token_close
    xete_programs.Swap.Cpi.close_call xete_programs.Swap.Cpi.close
fill-runs = refl

expire-runs : expire late program expire_list (key 4) listed ≡ ok (tt, expired)
unfolding expire xete_programs.Chain.Action.◌>>=◌ xete_programs.Chain.Action.fail_if
    xete_programs.Chain.Action.lift expire_accounts xete_programs.Chain.Action.fail_when
    xete_programs.Base.differs set_account xete_programs.Chain.Action.reads
    xete_programs.Swap.Spl.Checks.load_expired_state xete_programs.Chain.Result.◌>>=◌
    xete_programs.Chain.Result.fail_if xete_programs.Base.slice xete_programs.Base.Words.i64_from_le
    xete_programs.Base.Words.from_le xete_programs.Chain.Decode.arr32
    xete_programs.Swap.Spl.refund_and_close xete_programs.Base.bytes_eq
    xete_programs.Chain.Action.perform xete_programs.Chain.Sweep.sweep
    xete_programs.Chain.Sweep.swept xete_programs.Chain.Sweep.with_lamports
    xete_programs.Chain.Sweep.zeroed xete_programs.Swap.Checks.mint_decimals
    xete_programs.Swap.Checks.require_token_account xete_programs.Swap.Cpi.close
    xete_programs.Swap.Cpi.close_call xete_programs.Swap.Cpi.token_close
    xete_programs.Swap.Cpi.token_transfer xete_programs.Swap.Cpi.transfer_call
    xete_programs.Swap.Spl.Checks.verify_swap_pdas xete_programs.Tests.answer
expire-runs = refl

cancel_swap-runs : cancel_swap early program cancel_list (key 4) listed ≡ ok (tt, cancelled)
unfolding cancel_swap xete_programs.Chain.Action.◌>>=◌ xete_programs.Chain.Action.fail_if
    xete_programs.Chain.Action.lift xete_programs.Swap.Spl.cancel_accounts
    xete_programs.Chain.Action.fail_when xete_programs.Base.differs set_account
    xete_programs.Chain.Action.reads xete_programs.Swap.Spl.Checks.load_cancel_state
    xete_programs.Chain.Result.◌>>=◌ xete_programs.Chain.Result.fail_if xete_programs.Base.slice
    xete_programs.Swap.Config.Policy.read_config xete_programs.Chain.Decode.arr32
    xete_programs.Chain.Action.when xete_programs.Base.Words.from_le xete_programs.Base.bytes_eq
    xete_programs.Chain.Action.perform xete_programs.Chain.Sweep.sweep
    xete_programs.Chain.Sweep.swept xete_programs.Chain.Sweep.with_lamports
    xete_programs.Chain.Sweep.zeroed xete_programs.Swap.Checks.mint_decimals
    xete_programs.Swap.Checks.require_token_account xete_programs.Swap.Config.Policy.require_config
    xete_programs.Swap.Cpi.close xete_programs.Swap.Cpi.close_call
    xete_programs.Swap.Cpi.pay_lamports xete_programs.Swap.Cpi.token_close
    xete_programs.Swap.Cpi.token_transfer xete_programs.Swap.Cpi.transfer_call
    xete_programs.Swap.Spl.Checks.verify_swap_pdas xete_programs.Swap.Spl.refund_and_close
    xete_programs.Tests.answer
cancel_swap-runs = refl

fill-parts : fill_accounts fill_list ≡ ok fill_parts
unfolding fill_accounts
fill-parts = refl

expire-parts : expire_accounts expire_list ≡ ok refund_parts
unfolding expire_accounts
expire-parts = refl

fill_effects_example : Filled early program fill_list fill_payload listed filled
fill_effects_example = fill_effects early program fill_list fill_payload listed filled fill-runs

expire_refunds_example : Expired late program expire_list (key 4) listed expired
expire_refunds_example = expire_refunds late program expire_list (key 4) listed expired expire-runs

cancel_refunds_example : Cancelled early program cancel_list (key 4) listed cancelled
cancel_refunds_example =
    cancel_refunds early program cancel_list (key 4) listed cancelled cancel_swap-runs

fill_excludes_expire_example : expire early program expire_list (key 4) listed ≢ ok (tt, expired)
fill_excludes_expire_example =
    fill_excludes_expire early program fill_list expire_list fill_payload (key 4) listed filled
      expired fill_parts refund_parts fill-parts expire-parts refl fill-runs

fill_once_example : fill early program fill_list fill_payload filled ≢ ok (tt, filled)
fill_once_example =
    fill_once early program fill_list fill_list fill_payload fill_payload listed filled filled
      fill_parts fill_parts 50 refl fill-parts fill-parts refl fill-runs

abbrev sale : Leg
sale = record {
  config = handle 105;
  token_prog = handle 6;
  payer = handle 40;
  mint = handle 21;
  fee_ata = handle 31;
  payee = handle 30;
  authority = signer 2;
  signer_seeds = none;
  decimals = 6;
  shard_seed = 4;
}

abbrev paid : World
paid = world_of (pay_leg early program sale 1000 listed)

pay_leg-runs : pay_leg early program sale 1000 listed ≡ ok (tt, paid)
unfolding pay_leg xete_programs.Chain.Action.◌>>=◌ xete_programs.Chain.Action.reads
    xete_programs.Swap.Config.Policy.read_config xete_programs.Chain.Result.◌>>=◌
    xete_programs.Chain.Result.fail_if xete_programs.Base.differs set_account
    xete_programs.Chain.Decode.arr32 xete_programs.Base.slice xete_programs.Chain.Action.when
    xete_programs.Base.Words.from_le xete_programs.Swap.Config.Policy.verify_fee_dest
    xete_programs.Swap.Checks.require_token_account xete_programs.Chain.Action.perform
    xete_programs.Tests.answer xete_programs.Swap.Cpi.transfer_call xete_programs.Base.bytes_eq
    xete_programs.Chain.Action.lift xete_programs.Swap.Config.Policy.require_config
    xete_programs.Swap.Cpi.token_transfer xete_programs.Swap.Settle.Load.sub_or
    xete_programs.Swap.Settle.leg_transfer xete_programs.Swap.Settle.pay_fee
    xete_programs.Tests.create
pay_leg-runs = refl

pay_leg_conserves_example : LegPaid early program sale 1000 listed paid
pay_leg_conserves_example = pay_leg_conserves early program sale 1000 listed paid pay_leg-runs

abbrev settled : World
settled = world_of (
    pay_want_and_royalty early program sale 1000 1100 3 40 (handle 20) (some (handle 117))
      (handle 33 ∷ []) listed)

pay_want_and_royalty-runs :
    pay_want_and_royalty early program sale 1000 1100 3 40
      (handle 20)
      (some (handle 117))
      (handle 33 ∷ [])
      listed
    ≡ ok (tt, settled)
unfolding pay_want_and_royalty xete_programs.Chain.Action.◌>>=◌ xete_programs.Chain.Action.reads
    xete_programs.Swap.Config.Policy.read_config xete_programs.Chain.Result.◌>>=◌
    xete_programs.Chain.Result.fail_if xete_programs.Base.differs set_account
    xete_programs.Chain.Decode.arr32 xete_programs.Base.slice
    xete_programs.Swap.Settle.Load.resolve_royalty
    xete_programs.Swap.Settle.Load.verify_metadata_pda token_metadata_id parse_tm_royalty
    xete_programs.Chain.Decode.index xete_programs.Base.Words.from_le
    xete_programs.Chain.Decode.byte xete_programs.Base.bytes_eq xete_programs.Chain.Action.fail_if
    xete_programs.Chain.Action.lift xete_programs.Chain.Action.perform
    xete_programs.Chain.Action.when xete_programs.Swap.Checks.require_token_account
    xete_programs.Swap.Config.Policy.require_config xete_programs.Swap.Config.Policy.verify_fee_dest
    xete_programs.Swap.Cpi.token_transfer xete_programs.Swap.Settle.Load.check_creator_atas
    xete_programs.Swap.Settle.Load.maker_share_of xete_programs.Swap.Settle.Load.sub_or
    xete_programs.Swap.Settle.leg_transfer xete_programs.Swap.Settle.pay_creators
    xete_programs.Swap.Settle.pay_fee xete_programs.Tests.answer
    xete_programs.Swap.Settle.Load.add_or xete_programs.Swap.Cpi.transfer_call split_by_share
pay_want_and_royalty-runs = refl

pay_want_and_royalty_conserves_example :
    RoyaltyPaid early program sale 1000 1100 3 40
      (handle 20)
      (some (handle 117))
      (handle 33 ∷ [])
      listed
      settled
pay_want_and_royalty_conserves_example =
    pay_want_and_royalty_conserves early program sale 1000 1100 3 40 (handle 20) (some (handle 117))
      (handle 33 ∷ []) listed settled pay_want_and_royalty-runs

split_by_share_exact_example :
    (out : List ℕ) × (split_by_share 1001 (33 ∷ 33 ∷ 34 ∷ []) ≡ ok (out ++ replicate 2 0))
    × (length out ≡ 3)
    × (sum out ≡ 1001)
split_by_share_exact_example =
    split_by_share_exact 1001 (33 ∷ 33 ∷ 34 ∷ []) (omega arith) (omega arith) (omega arith)

parse_tm_royalty-NoPanic_example : NoPanic (parse_tm_royalty metadata_bytes)
parse_tm_royalty-NoPanic_example = parse_tm_royalty-NoPanic metadata_bytes

abbrev read_royalty : TmRoyalty
read_royalty = record { bps = 500; creators = (key 3, 100) ∷ replicate 4 (key 0, 0); count = 1 }

parse_tm_royalty-runs : parse_tm_royalty metadata_bytes ≡ ok read_royalty
unfolding parse_tm_royalty xete_programs.Chain.Result.◌>>=◌ xete_programs.Chain.Result.fail_if
    xete_programs.Chain.Decode.index xete_programs.Base.Words.from_le xete_programs.Base.slice
    xete_programs.Chain.Decode.byte
parse_tm_royalty-runs = refl

parse_tm_royalty_bounds_example :
    (500 ≤ 10000) × (1 ≤ max_creators) × (length read_royalty.creators ≡ max_creators)
parse_tm_royalty_bounds_example =
    parse_tm_royalty_bounds metadata_bytes read_royalty parse_tm_royalty-runs
