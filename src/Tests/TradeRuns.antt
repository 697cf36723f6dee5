-- ===== src/Tests/TradeRuns.antt =====
-- A run of a basket's fill (swap/src/basket.rs): account 1 gives 30 of mint 20 for 1000 of mint 21.
use xete_programs.Base.{
  ℕ, ◌≡◌, ◌≢◌, refl, ap, List, [], ◌∷◌, ◌++◌, Bytes, replicate, get_or, slice, arith,
}
use xete_programs.Base.Int.{pos}
use xete_programs.Chain.Result.{ok}
use xete_programs.Chain.Types.{AccountInfo, Runtime, World, set_account}
use xete_programs.Swap.Basket.{FillBasketAccounts, fill_basket_accounts, fill_basket}
use xete_programs.Swap.Basket.Filled.{Fills, fill_basket_effects}
use xete_programs.Tests.{key, signer, handle, no_instruction, world_of, chain-KeepsData}
use xete_programs.Tests.SwapRuns.{program, word, thousand, account, listed, config_bytes}
use xete_programs.Tests.BasketRuns.{basket_chain}

-- Before the expiry.
abbrev trade_chain : Runtime
trade_chain = record basket_chain { unix_timestamp = ok (pos 50) }

abbrev trade_bytes : Bytes
trade_bytes =
    key 1
    ++ (1
        ∷ 1
        ∷ (key 20
            ++ (word 30
                ++ (replicate 160 0
                    ++ (key 21
                        ++ (thousand ++ (replicate 225 0 ++ (word 90 ++ (0 ∷ 255 ∷ key 4)))))))))

abbrev offered : World
offered = record listed {
  ledger =
      set_account (set_account listed.ledger (key 101) (account program config_bytes)) (key 103)
        (account program trade_bytes);
}

abbrev trade_legs : List AccountInfo
trade_legs = handle 20 ∷ handle 104 ∷ handle 41 ∷ handle 21 ∷ handle 40 ∷ handle 30 ∷ handle 31 ∷ []

abbrev trade_list : List AccountInfo
trade_list = signer 2 ∷ handle 103 ∷ handle 1 ∷ handle 6 ∷ handle 101 ∷ trade_legs

abbrev trade_parts : FillBasketAccounts
trade_parts = record {
  taker = signer 2;
  swap = handle 103;
  maker = handle 1;
  token_prog = handle 6;
  config = handle 101;
  legs = trade_legs;
}

trade-parts : fill_basket_accounts trade_list ≡ ok trade_parts
unfolding fill_basket_accounts
trade-parts = refl

foreign : key 6 ≢ program
foreign e = omega (arith, ap (λ k. get_or k 0 0) e)

abbrev traded : World
traded = world_of (fill_basket trade_chain program trade_list (key 4) offered)

fill_basket-runs : fill_basket trade_chain program trade_list (key 4) offered ≡ ok (tt, traded)
unfolding fill_basket xete_programs.Chain.Action.◌>>=◌ xete_programs.Chain.Action.fail_if
    xete_programs.Chain.Action.lift fill_basket_accounts xete_programs.Chain.Action.fail_when
    xete_programs.Base.differs set_account xete_programs.Chain.Action.reads
    xete_programs.Swap.Basket.Checks.load_fill_basket xete_programs.Chain.Result.◌>>=◌
    xete_programs.Chain.Result.fail_if xete_programs.Base.Words.i64_from_le
    xete_programs.Base.Words.from_le slice xete_programs.Swap.Checks.any_nonzero
    xete_programs.Chain.Decode.arr32 xete_programs.Base.bytes_eq xete_programs.Chain.Action.perform
    xete_programs.Chain.Action.when xete_programs.Chain.Decode.index xete_programs.Chain.Sweep.sweep
    xete_programs.Chain.Sweep.swept xete_programs.Chain.Sweep.with_lamports
    xete_programs.Chain.Sweep.zeroed xete_programs.Swap.Basket.Checks.basket_state
    xete_programs.Swap.Basket.Checks.check_bvault xete_programs.Swap.Basket.Checks.check_open
    xete_programs.Swap.Basket.Checks.read_entry xete_programs.Swap.Basket.Legs.check_holder
    xete_programs.Swap.Basket.Legs.give_legs xete_programs.Swap.Basket.Legs.pay_want_entries
    xete_programs.Swap.Basket.Legs.pay_want_entry xete_programs.Swap.Basket.Legs.release_leg
    xete_programs.Swap.Basket.Legs.release_legs xete_programs.Swap.Basket.Legs.want_legs
    xete_programs.Swap.Checks.mint_decimals xete_programs.Swap.Checks.require_token_account
    xete_programs.Swap.Config.Policy.read_config xete_programs.Swap.Config.Policy.require_config
    xete_programs.Swap.Config.Policy.verify_fee_dest xete_programs.Swap.Cpi.close
    xete_programs.Swap.Cpi.close_call xete_programs.Swap.Cpi.token_close
    xete_programs.Swap.Cpi.token_transfer xete_programs.Swap.Cpi.transfer_call
    xete_programs.Swap.Settle.Load.sub_or xete_programs.Swap.Settle.leg_transfer
    xete_programs.Swap.Settle.pay_fee xete_programs.Swap.Slot.check_address
    xete_programs.Tests.answer
fill_basket-runs = refl

fill_basket_effects_example :
    Fills trade_chain program trade_parts
      (slice (key 4) 0 32)
      (offered.ledger (key 103)).contents
      offered
      traded
fill_basket_effects_example =
    fill_basket_effects trade_chain program (chain-KeepsData (pos 50) no_instruction program)
      trade_list (key 4) trade_parts offered traded trade-parts foreign fill_basket-runs
