-- ===== src/Tests/OpenRuns.antt =====
-- A swap that is opened and then read by a fill (swap/src/swap.rs): account 1 gives 30 of mint 20 for
-- 1000 of mint 21, until time 90.
use xete_programs.Base.{
  false, ◌≡◌, ◌≢◌, refl, ap, List, [], ◌∷◌, ◌++◌, Bytes, get_or, arith, inl, slice,
}
use xete_programs.Base.Int.{pos, ◌<ℤ◌}
use xete_programs.Base.Words.{AreBytes, i64_from_le}
use xete_programs.Chain.Result.{ok}
use xete_programs.Chain.Types.{AccountInfo, World, set_account}
use xete_programs.Swap.Spl.{OpenAccounts, open_accounts, open_swap}
use xete_programs.Swap.Spl.Posted.{open_swap_read_back, post_of}
use xete_programs.Swap.Settle.Load.{load_fill_state}
use xete_programs.Swap.Settle.Posted.{fill_state}
use xete_programs.Swap.Checks.{any_nonzero}
use xete_programs.Tests.{
  key, signer, handle, no_account, no_instruction, world_of, chain-CreatesAccounts, chain-KeepsData,
}
use xete_programs.Tests.SwapRuns.{program, early, listed, word, thousand}

abbrev open_list : List AccountInfo
open_list =
    signer 1
    ∷ handle 119
    ∷ handle 123
    ∷ handle 20
    ∷ handle 21
    ∷ handle 32
    ∷ handle 6
    ∷ handle 0
    ∷ handle 105
    ∷ handle 33
    ∷ []

abbrev open_parts : OpenAccounts
open_parts = record {
  maker = signer 1;
  swap = handle 119;
  vault = handle 123;
  give_mint = handle 20;
  want_mint = handle 21;
  maker_give = handle 32;
  token_prog = handle 6;
  system = handle 0;
  config = handle 105;
  alias = handle 33;
}

open-parts : open_accounts open_list ≡ ok open_parts
unfolding open_accounts
open-parts = refl

abbrev open_payload : Bytes
open_payload = key 4 ++ (word 30 ++ (thousand ++ (key 0 ++ (word 90 ++ key 0))))

open_payload-AreBytes : AreBytes open_payload
open_payload-AreBytes = omega arith

-- Before the swap has an account.
abbrev before : World
before = record listed { ledger = set_account listed.ledger (key 119) no_account }

abbrev opened : World
opened = world_of (open_swap early program open_list open_payload before)

open_swap-runs : open_swap early program open_list open_payload before ≡ ok (tt, opened)
unfolding open_swap xete_programs.Chain.Action.◌>>=◌ xete_programs.Chain.Action.fail_if
    xete_programs.Chain.Action.lift open_accounts xete_programs.Base.Words.from_le slice i64_from_le
    xete_programs.Chain.Action.reads xete_programs.Swap.Config.Policy.require_alias
    xete_programs.Chain.Result.◌>>=◌ xete_programs.Chain.Result.fail_if xete_programs.Base.differs
    set_account xete_programs.Chain.Decode.arr32 any_nonzero xete_programs.Swap.Cpi.create_pda
    xete_programs.Base.bytes_eq xete_programs.Base.put xete_programs.Base.Words.i64_le
    xete_programs.Base.Words.i64_word xete_programs.Base.Words.le_bytes
    xete_programs.Chain.Action.log xete_programs.Chain.Action.perform
    xete_programs.Chain.Writes.copy_all xete_programs.Chain.Writes.set_contents
    xete_programs.Chain.Writes.write_fields xete_programs.Swap.Checks.assert_token_program
    xete_programs.Swap.Checks.mint_decimals xete_programs.Swap.Config.Policy.require_config
    xete_programs.Swap.Cpi.token_init xete_programs.Swap.Cpi.token_transfer
    xete_programs.Swap.Cpi.transfer_call xete_programs.Swap.Events.emit_post_created
    xete_programs.Swap.Events.encode_post_created xete_programs.Swap.Events.post_created_fields
    xete_programs.Swap.Events.put_all xete_programs.Swap.Ids.token_2022_id
    xete_programs.Tests.answer
open_swap-runs = refl

foreign : key 6 ≢ program
foreign e = omega (arith, ap (λ k. get_or k 0 0) e)

vault_apart : key 123 ≢ key 119
vault_apart e = omega (arith, ap (λ k. get_or k 0 0) e)

unexpired : pos 50 <ℤ i64_from_le (slice open_payload 80 88)
unfolding i64_from_le slice xete_programs.Base.Words.from_le
unexpired = omega arith

open_to_all : any_nonzero (slice open_payload 88 120) ≡ false
unfolding any_nonzero slice
open_to_all = refl

open_swap_read_back_example :
    load_fill_state early (handle 119) (key 20) (key 21) (key 2) opened.ledger
    ≡ ok (fill_state (post_of open_parts open_payload 255))
open_swap_read_back_example =
    open_swap_read_back early (chain-CreatesAccounts (pos 50) no_instruction) program
      (chain-KeepsData (pos 50) no_instruction program) open_list open_payload open_parts before
      opened early (pos 50) (key 2) opened.ledger open-parts refl refl refl open_payload-AreBytes
      foreign vault_apart open_swap-runs refl refl unexpired (inl open_to_all)
