-- ===== src/Tests/BasketRuns.antt =====
-- Runs of the baskets (swap/src/basket.rs): account 1 put 30 of mint 20 into a basket, for the bearer
-- of key 3, or for itself at time 90.
use xete_programs.Base.{
  ℕ, ◌+◌, some, ◌≡◌, ◌≢◌, refl, ap, List, [], ◌∷◌, ◌++◌, Bytes, length, replicate, get_or, slice,
  arith,
}
use xete_programs.Base.Int.{pos}
use xete_programs.Chain.Result.{ok}
use xete_programs.Chain.Types.{AccountInfo, Runtime, World, set_account}
use xete_programs.Swap.Layout.{b_auth_mode, auth_bearer}
use xete_programs.Swap.Basket.{
  ClaimBearerAccounts, claim_bearer_accounts, claim_bearer, RewrapAccounts, rewrap_accounts, rewrap,
  ExpireBasketAccounts, expire_basket_accounts, expire_basket, CancelBasketAccounts,
  cancel_basket_accounts, cancel_basket, FillBasketAccounts, fill_basket_accounts, fill_basket,
}
use xete_programs.Swap.Basket.Bearer.{Claims, claim_bearer_by_key}
use xete_programs.Swap.Basket.Rewrapped.{Rewraps, rewrap_by_bearer, rewrap_locks_out}
use xete_programs.Swap.Basket.Refunded.{Expires, expire_basket_returns, bearer_no_revoke}
use xete_programs.Tests.{
  key, signer, handle, chain, no_instruction, no_account, nowhere, world_of, chain-KeepsData,
}
use xete_programs.Tests.SwapRuns.{program, word, mint_bytes, token_bytes, account}

-- Derivations by the number of the seeds: the basket at 103, its first vault at 104.
abbrev pub basket_chain : Runtime
basket_chain = record (chain (pos 100) no_instruction) {
  find_program_address = λ seeds program_id. (key (100 + length seeds), 255);
  create_program_address = λ seeds program_id. some (key (99 + length seeds));
}

-- A basket of one entry with this mode and this claim hash.
abbrev pub basket_bytes : ℕ → Bytes → Bytes
basket_bytes mode claim_auth =
    key 1
    ++ (1
        ∷ 0
        ∷ (key 20
            ++ (word 30
                ++ (replicate 392 0 ++ (mode ∷ (claim_auth ++ (word 90 ++ (0 ∷ 255 ∷ key 4))))))))

abbrev basket_world : Bytes → World
basket_world contents = record {
  ledger =
      set_account
        (set_account (set_account (λ _. no_account) (key 32) (account (key 6) (token_bytes 20 1)))
          (key 20) (account (key 6) mint_bytes))
        (key 103) (account program contents);
  effects = [];
}

-- Claimed by the hash of key 3.
abbrev bearer_world : World
bearer_world = basket_world (basket_bytes 1 (key 35))

abbrev normal_world : World
normal_world = basket_world (basket_bytes 0 (key 0))

abbrev legs : AccountInfo → List AccountInfo
legs holder = handle 20 ∷ handle 104 ∷ holder ∷ []

abbrev claim_list : List AccountInfo
claim_list = signer 2 ∷ signer 3 ∷ handle 103 ∷ handle 1 ∷ handle 6 ∷ legs (handle 40)

abbrev claim_parts : ClaimBearerAccounts
claim_parts = record {
  payer = signer 2;
  bearer = signer 3;
  swap = handle 103;
  maker = handle 1;
  token_prog = handle 6;
  legs = legs (handle 40);
}

abbrev rewrap_list : List AccountInfo
rewrap_list = signer 3 ∷ handle 103 ∷ []

abbrev rewrap_parts : RewrapAccounts
rewrap_parts = record { bearer = signer 3; swap = handle 103 }

-- To the hash of key 7.
abbrev rewrap_payload : Bytes
rewrap_payload = key 4 ++ key 39

abbrev expire_list : List AccountInfo
expire_list = handle 50 ∷ handle 103 ∷ handle 1 ∷ handle 6 ∷ legs (handle 32)

abbrev expire_parts : ExpireBasketAccounts
expire_parts = record {
  swap = handle 103;
  maker = handle 1;
  token_prog = handle 6;
  legs = legs (handle 32);
}

abbrev cancel_list : List AccountInfo
cancel_list = signer 1 ∷ handle 103 ∷ handle 6 ∷ handle 105 ∷ handle 8 ∷ handle 0 ∷ legs (handle 32)

abbrev cancel_parts : CancelBasketAccounts
cancel_parts = record {
  maker = signer 1;
  swap = handle 103;
  token_prog = handle 6;
  config = handle 105;
  fee_wallet = handle 8;
  system = handle 0;
  legs = legs (handle 32);
}

abbrev fill_list : List AccountInfo
fill_list = signer 2 ∷ handle 103 ∷ handle 1 ∷ handle 6 ∷ handle 105 ∷ legs (handle 40)

abbrev fill_parts : FillBasketAccounts
fill_parts = record {
  taker = signer 2;
  swap = handle 103;
  maker = handle 1;
  token_prog = handle 6;
  config = handle 105;
  legs = legs (handle 40);
}

claim-parts : claim_bearer_accounts claim_list ≡ ok claim_parts
unfolding claim_bearer_accounts
claim-parts = refl

rewrap-parts : rewrap_accounts rewrap_list ≡ ok rewrap_parts
unfolding rewrap_accounts
rewrap-parts = refl

expire-parts : expire_basket_accounts expire_list ≡ ok expire_parts
unfolding expire_basket_accounts
expire-parts = refl

cancel-parts : cancel_basket_accounts cancel_list ≡ ok cancel_parts
unfolding cancel_basket_accounts
cancel-parts = refl

fill-parts : fill_basket_accounts fill_list ≡ ok fill_parts
unfolding fill_basket_accounts
fill-parts = refl

foreign : key 6 ≢ program
foreign e = omega (arith, ap (λ k. get_or k 0 0) e)

abbrev claimed : World
claimed = world_of (claim_bearer basket_chain program claim_list (key 4) bearer_world)

claim-runs : claim_bearer basket_chain program claim_list (key 4) bearer_world ≡ ok (tt, claimed)
unfolding claim_bearer xete_programs.Chain.Action.◌>>=◌ xete_programs.Chain.Action.fail_if
    xete_programs.Chain.Action.lift claim_bearer_accounts xete_programs.Chain.Action.fail_when
    xete_programs.Base.differs set_account xete_programs.Chain.Action.reads
    xete_programs.Swap.Basket.Checks.load_claim_basket xete_programs.Chain.Result.◌>>=◌
    xete_programs.Chain.Result.fail_if slice xete_programs.Chain.Decode.arr32
    xete_programs.Swap.Slot.check_address xete_programs.Swap.Basket.Legs.release_legs
    xete_programs.Swap.Basket.Legs.give_legs xete_programs.Base.bytes_eq
    xete_programs.Base.Words.from_le xete_programs.Chain.Action.perform
    xete_programs.Chain.Decode.index xete_programs.Chain.Sweep.sweep xete_programs.Chain.Sweep.swept
    xete_programs.Chain.Sweep.with_lamports xete_programs.Chain.Sweep.zeroed
    xete_programs.Swap.Basket.Checks.basket_state xete_programs.Swap.Basket.Checks.check_bvault
    xete_programs.Swap.Basket.Checks.check_open xete_programs.Swap.Basket.Checks.read_entry
    xete_programs.Swap.Basket.Legs.check_holder xete_programs.Swap.Basket.Legs.release_leg
    xete_programs.Swap.Checks.mint_decimals xete_programs.Swap.Checks.require_token_account
    xete_programs.Swap.Cpi.close xete_programs.Swap.Cpi.close_call
    xete_programs.Swap.Cpi.token_close xete_programs.Swap.Cpi.token_transfer
    xete_programs.Swap.Cpi.transfer_call xete_programs.Tests.answer
claim-runs = refl

abbrev rewrapped : World
rewrapped = world_of (rewrap basket_chain program rewrap_list rewrap_payload bearer_world)

rewrap-runs :
    rewrap basket_chain program rewrap_list rewrap_payload bearer_world ≡ ok (tt, rewrapped)
unfolding rewrap xete_programs.Chain.Action.◌>>=◌ xete_programs.Chain.Action.fail_if
    xete_programs.Swap.Checks.any_nonzero slice xete_programs.Chain.Action.lift rewrap_accounts
    xete_programs.Chain.Action.fail_when xete_programs.Base.differs set_account
    xete_programs.Chain.Action.reads xete_programs.Swap.Basket.Checks.load_rewrap
    xete_programs.Chain.Result.◌>>=◌ xete_programs.Chain.Result.fail_if
    xete_programs.Chain.Decode.arr32 xete_programs.Swap.Slot.derive_address
    xete_programs.Chain.Writes.write_fields xete_programs.Base.bytes_eq xete_programs.Base.put
    xete_programs.Chain.Writes.copy_all xete_programs.Chain.Writes.set_contents
rewrap-runs = refl

abbrev expired : World
expired = world_of (expire_basket basket_chain program expire_list (key 4) normal_world)

expire-runs : expire_basket basket_chain program expire_list (key 4) normal_world ≡ ok (tt, expired)
unfolding expire_basket xete_programs.Chain.Action.◌>>=◌ xete_programs.Chain.Action.fail_if
    xete_programs.Chain.Action.lift expire_basket_accounts xete_programs.Chain.Action.fail_when
    xete_programs.Base.differs set_account xete_programs.Chain.Action.reads
    xete_programs.Swap.Basket.Checks.load_expired_basket xete_programs.Chain.Result.◌>>=◌
    xete_programs.Chain.Result.fail_if xete_programs.Base.Words.i64_from_le
    xete_programs.Base.Words.from_le slice xete_programs.Chain.Decode.arr32
    xete_programs.Swap.Slot.check_address xete_programs.Base.bytes_eq
    xete_programs.Chain.Action.perform xete_programs.Chain.Decode.index
    xete_programs.Chain.Sweep.sweep xete_programs.Chain.Sweep.swept
    xete_programs.Chain.Sweep.with_lamports xete_programs.Chain.Sweep.zeroed
    xete_programs.Swap.Basket.Checks.basket_state xete_programs.Swap.Basket.Checks.check_bvault
    xete_programs.Swap.Basket.Checks.check_open xete_programs.Swap.Basket.Checks.read_entry
    xete_programs.Swap.Basket.Legs.check_holder xete_programs.Swap.Basket.Legs.give_legs
    xete_programs.Swap.Basket.Legs.release_leg xete_programs.Swap.Basket.Legs.release_legs
    xete_programs.Swap.Checks.mint_decimals xete_programs.Swap.Checks.require_token_account
    xete_programs.Swap.Cpi.close xete_programs.Swap.Cpi.close_call
    xete_programs.Swap.Cpi.token_close xete_programs.Swap.Cpi.token_transfer
    xete_programs.Swap.Cpi.transfer_call xete_programs.Tests.answer
expire-runs = refl

claim_bearer_by_key_example :
    Claims basket_chain program claim_parts
      (slice (key 4) 0 32)
      (bearer_world.ledger (key 103)).contents
      bearer_world
      claimed
claim_bearer_by_key_example =
    claim_bearer_by_key basket_chain program (chain-KeepsData (pos 100) no_instruction program)
      claim_list (key 4) claim_parts bearer_world claimed claim-parts foreign claim-runs

rewrap_by_bearer_example :
    Rewraps basket_chain rewrap_parts
      (slice rewrap_payload 32 64)
      (bearer_world.ledger (key 103)).contents
      bearer_world
      rewrapped
rewrap_by_bearer_example =
    rewrap_by_bearer basket_chain program rewrap_list rewrap_payload rewrap_parts bearer_world
      rewrapped rewrap-parts rewrap-runs

other_hash : key 35 ≢ slice rewrap_payload 32 64
unfolding slice
other_hash e = omega (arith, ap (λ k. get_or k 0 0) e)

rewrap_locks_out_example :
    claim_bearer basket_chain program claim_list (key 4) rewrapped ≢ ok (tt, nowhere)
rewrap_locks_out_example =
    rewrap_locks_out basket_chain program rewrap_list claim_list rewrap_payload (key 4) rewrap_parts
      claim_parts bearer_world rewrapped (tt, nowhere) rewrap-parts claim-parts refl other_hash
      rewrap-runs

expire_basket_returns_example :
    Expires basket_chain program expire_parts
      (slice (key 4) 0 32)
      (normal_world.ledger (key 103)).contents
      normal_world
      expired
expire_basket_returns_example =
    expire_basket_returns basket_chain program (chain-KeepsData (pos 100) no_instruction program)
      expire_list (key 4) expire_parts normal_world expired expire-parts foreign expire-runs

is_bearer : get_or (bearer_world.ledger (key 103)).contents b_auth_mode 0 ≡ auth_bearer
unfolding set_account
is_bearer = refl

bearer_no_revoke_example :
    (cancel_basket basket_chain program cancel_list (key 4) bearer_world ≢ ok (tt, nowhere))
    × (expire_basket basket_chain program expire_list (key 4) bearer_world ≢ ok (tt, nowhere))
    × (fill_basket basket_chain program fill_list (key 4) bearer_world ≢ ok (tt, nowhere))
bearer_no_revoke_example =
    bearer_no_revoke basket_chain program cancel_list expire_list fill_list (key 4) cancel_parts
      expire_parts fill_parts bearer_world (tt, nowhere) (tt, nowhere) (tt, nowhere) cancel-parts
      expire-parts fill-parts refl refl is_bearer
