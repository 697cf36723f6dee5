-- ===== src/Tests/ReturnRuns.antt =====
-- A run of a basket's cancel, with a delist fee of 5 lamports (swap/src/basket.rs).
use xete_programs.Base.{ℕ, ◌≡◌, ◌≢◌, refl, ap, List, [], ◌∷◌, ◌++◌, Bytes, get_or, slice, arith}
use xete_programs.Base.Int.{pos}
use xete_programs.Chain.Result.{ok}
use xete_programs.Chain.Types.{AccountInfo, World, set_account}
use xete_programs.Swap.Basket.{CancelBasketAccounts, cancel_basket_accounts, cancel_basket}
use xete_programs.Swap.Basket.Cancelled.{Cancels, cancel_basket_returns}
use xete_programs.Tests.{key, signer, handle, no_instruction, world_of, chain-KeepsData}
use xete_programs.Tests.SwapRuns.{program, word, account, listed}
use xete_programs.Tests.BasketRuns.{basket_chain, basket_bytes}

-- A fee of 5 lamports to wallet 8.
abbrev fee_config : Bytes
fee_config = key 7 ++ (key 8 ++ (250 ∷ 0 ∷ (word 5 ++ (key 0 ++ (0 ∷ 255 ∷ [])))))

abbrev offered : World
offered = record listed {
  ledger =
      set_account (set_account listed.ledger (key 101) (account program fee_config)) (key 103)
        (account program (basket_bytes 0 (key 0)));
}

abbrev return_legs : List AccountInfo
return_legs = handle 20 ∷ handle 104 ∷ handle 32 ∷ []

abbrev return_list : List AccountInfo
return_list = signer 1 ∷ handle 103 ∷ handle 6 ∷ handle 101 ∷ handle 8 ∷ handle 0 ∷ return_legs

abbrev return_parts : CancelBasketAccounts
return_parts = record {
  maker = signer 1;
  swap = handle 103;
  token_prog = handle 6;
  config = handle 101;
  fee_wallet = handle 8;
  system = handle 0;
  legs = return_legs;
}

return-parts : cancel_basket_accounts return_list ≡ ok return_parts
unfolding cancel_basket_accounts
return-parts = refl

foreign : key 6 ≢ program
foreign e = omega (arith, ap (λ k. get_or k 0 0) e)

abbrev returned : World
returned = world_of (cancel_basket basket_chain program return_list (key 4) offered)

cancel_basket-runs :
    cancel_basket basket_chain program return_list (key 4) offered ≡ ok (tt, returned)
unfolding cancel_basket xete_programs.Chain.Action.◌>>=◌ xete_programs.Chain.Action.fail_if
    xete_programs.Chain.Action.lift cancel_basket_accounts xete_programs.Chain.Action.fail_when
    xete_programs.Base.differs set_account xete_programs.Chain.Action.reads
    xete_programs.Swap.Basket.Checks.load_cancel_basket xete_programs.Chain.Result.◌>>=◌
    xete_programs.Chain.Result.fail_if slice xete_programs.Swap.Slot.check_address
    xete_programs.Swap.Slot.pay_delist_fee xete_programs.Swap.Config.Policy.read_config
    xete_programs.Chain.Decode.arr32 xete_programs.Base.bytes_eq xete_programs.Base.Words.from_le
    xete_programs.Chain.Action.perform xete_programs.Chain.Action.when
    xete_programs.Chain.Decode.index xete_programs.Chain.Sweep.sweep xete_programs.Chain.Sweep.swept
    xete_programs.Chain.Sweep.with_lamports xete_programs.Chain.Sweep.zeroed
    xete_programs.Swap.Basket.Checks.basket_state xete_programs.Swap.Basket.Checks.check_bvault
    xete_programs.Swap.Basket.Checks.check_open xete_programs.Swap.Basket.Checks.read_entry
    xete_programs.Swap.Basket.Legs.check_holder xete_programs.Swap.Basket.Legs.give_legs
    xete_programs.Swap.Basket.Legs.release_leg xete_programs.Swap.Basket.Legs.release_legs
    xete_programs.Swap.Checks.mint_decimals xete_programs.Swap.Checks.require_token_account
    xete_programs.Swap.Config.Policy.require_config xete_programs.Swap.Cpi.close
    xete_programs.Swap.Cpi.close_call xete_programs.Swap.Cpi.pay_lamports
    xete_programs.Swap.Cpi.token_close xete_programs.Swap.Cpi.token_transfer
    xete_programs.Swap.Cpi.transfer_call xete_programs.Tests.answer
cancel_basket-runs = refl

cancel_basket_returns_example :
    Cancels basket_chain program return_parts
      (slice (key 4) 0 32)
      (offered.ledger (key 103)).contents
      offered
      returned
cancel_basket_returns_example =
    cancel_basket_returns basket_chain program (chain-KeepsData (pos 100) no_instruction program)
      return_list (key 4) return_parts offered returned return-parts foreign cancel_basket-runs
