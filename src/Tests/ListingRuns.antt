-- ===== src/Tests/ListingRuns.antt =====
-- Runs of the escrowless listings (swap/src/escrowless.rs): account 1 lists 30 of mint 20 for 1000 of
-- mint 21, until time 90.
use xete_programs.Base.{◌≡◌, refl, List, [], ◌∷◌, Bytes, slice, arith}
use xete_programs.Base.Int.{pos}
use xete_programs.Base.Words.{i64_from_le}
use xete_programs.Chain.Result.{ok}
use xete_programs.Chain.Types.{AccountInfo, World, set_account}
use xete_programs.Chain.Sweep.{swept}
use xete_programs.Swap.Escrowless.Token.{fill_listing}
use xete_programs.Swap.Escrowless.{expire_listing, ExpireListingAccounts, expire_listing_accounts}
use xete_programs.Swap.Escrowless.Filled.{Sold, fill_listing_effects}
use xete_programs.Swap.Escrowless.Expired.{IsLapsed, expire_listing_succeeds}
use xete_programs.Tests.{key, signer, handle, world_of}
use xete_programs.Tests.SwapRuns.{program, early, late, swap_bytes, account, listed, fill_payload}

abbrev posted : World
posted = record listed { ledger = set_account listed.ledger (key 115) (account program swap_bytes) }

abbrev sale_list : List AccountInfo
sale_list =
    signer 2
    ∷ handle 115
    ∷ handle 1
    ∷ handle 20
    ∷ handle 21
    ∷ handle 32
    ∷ handle 41
    ∷ handle 40
    ∷ handle 30
    ∷ handle 6
    ∷ handle 105
    ∷ handle 31
    ∷ []

abbrev sold : World
sold = world_of (fill_listing early program sale_list fill_payload posted)

fill_listing-runs : fill_listing early program sale_list fill_payload posted ≡ ok (tt, sold)
unfolding fill_listing xete_programs.Chain.Action.◌>>=◌ xete_programs.Chain.Action.fail_if
    xete_programs.Chain.Action.lift xete_programs.Swap.Escrowless.Token.fill_listing_accounts
    xete_programs.Chain.Action.fail_when xete_programs.Base.differs set_account
    xete_programs.Chain.Action.reads xete_programs.Swap.Settle.Load.load_fill_state
    xete_programs.Chain.Result.◌>>=◌ xete_programs.Chain.Result.fail_if slice i64_from_le
    xete_programs.Base.Words.from_le xete_programs.Swap.Checks.any_nonzero
    xete_programs.Chain.Decode.arr32 xete_programs.Base.bytes_eq xete_programs.Chain.Action.perform
    xete_programs.Chain.Action.when xete_programs.Chain.Decode.byte xete_programs.Chain.Decode.index
    xete_programs.Chain.Sweep.sweep swept xete_programs.Chain.Sweep.with_lamports
    xete_programs.Chain.Sweep.zeroed xete_programs.Swap.Checks.assert_token_program
    xete_programs.Swap.Checks.mint_decimals xete_programs.Swap.Checks.require_token_account
    xete_programs.Swap.Config.Policy.read_config xete_programs.Swap.Config.Policy.require_config
    xete_programs.Swap.Config.Policy.verify_fee_dest xete_programs.Swap.Cpi.close
    xete_programs.Swap.Cpi.token_transfer xete_programs.Swap.Cpi.transfer_call
    xete_programs.Swap.Escrowless.Checks.listing_royalty_accounts
    xete_programs.Swap.Ids.token_2022_id xete_programs.Swap.Ids.token_metadata_id
    xete_programs.Swap.Royalty.parse_tm_royalty xete_programs.Swap.Royalty.read_creator_option
    xete_programs.Swap.Royalty.read_creator_vec xete_programs.Swap.Royalty.read_creators
    xete_programs.Swap.Royalty.split_by_share xete_programs.Swap.Royalty.split_rest
    xete_programs.Swap.Royalty.walk_string xete_programs.Swap.Royalty.walk_strings
    xete_programs.Swap.Settle.Load.add_or xete_programs.Swap.Settle.Load.asset_terms
    xete_programs.Swap.Settle.Load.check_creator_atas xete_programs.Swap.Settle.Load.maker_share_of
    xete_programs.Swap.Settle.Load.resolve_royalty xete_programs.Swap.Settle.Load.sub_or
    xete_programs.Swap.Settle.Load.verify_metadata_pda xete_programs.Swap.Settle.leg_transfer
    xete_programs.Swap.Settle.pay_creators xete_programs.Swap.Settle.pay_fee
    xete_programs.Swap.Settle.pay_want_and_royalty xete_programs.Swap.Slot.check_address
    xete_programs.Tests.answer
fill_listing-runs = refl

fill_listing_effects_example : Sold early program sale_list fill_payload posted sold
fill_listing_effects_example =
    fill_listing_effects early program sale_list fill_payload posted sold fill_listing-runs

abbrev clear_list : List AccountInfo
clear_list = signer 50 ∷ handle 115 ∷ handle 1 ∷ []

abbrev clear_parts : ExpireListingAccounts
clear_parts = record { caller = signer 50; listing = handle 115; maker = handle 1 }

clear-parts : expire_listing_accounts clear_list ≡ ok clear_parts
unfolding expire_listing_accounts
clear-parts = refl

posted-IsLapsed : IsLapsed late program clear_parts (slice (key 4) 0 32) posted.ledger
unfolding set_account slice i64_from_le xete_programs.Base.Words.from_le
posted-IsLapsed = record {
  signed = refl;
  owned = refl;
  sized = refl;
  opened = refl;
  now = pos 100;
  clock = refl;
  late = omega arith;
  maker = refl;
  address = refl;
  fits = omega arith;
}

expire_listing_succeeds_example :
    expire_listing late program clear_list (key 4) posted
    ≡ ok (tt, record posted { ledger = swept (key 115) (key 1) posted.ledger })
expire_listing_succeeds_example =
    expire_listing_succeeds late program clear_list (key 4) clear_parts posted clear-parts refl
      posted-IsLapsed
