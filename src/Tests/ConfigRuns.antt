-- ===== src/Tests/ConfigRuns.antt =====
-- Runs of the fee policy (swap/src/config.rs): a vault with 200 units of mint 21, swept to wallet 8.
use xete_programs.Base.{◌≡◌, refl, [], ◌∷◌, ◌++◌, List, Bytes, replicate}
use xete_programs.Base.Int.{pos}
use xete_programs.Chain.Result.{ok}
use xete_programs.Chain.Types.{Pubkey, AccountInfo, Runtime, World, set_account}
use xete_programs.Swap.Config.{sweep_fees, update_config}
use xete_programs.Swap.Config.Admin.{Updated, update_config_by_admin}
use xete_programs.Swap.Config.Fees.{FeesSwept, sweep_fees_to_wallet}
use xete_programs.Tests.{key, signer, handle, chain, no_instruction, no_account, world_of}

abbrev program : Pubkey
program = key 9

abbrev now : Runtime
now = chain (pos 50) no_instruction

-- The policy of wallet 8 at address 105, the vault at 111, and the wallet's token account at 31.
abbrev collected : World
collected = record {
  ledger =
      set_account
        (set_account
          (set_account
            (set_account (λ _. no_account) (key 21)
              (record { lamports = 1; owner = key 6; contents = replicate 44 0 ++ (6 ∷ []) }))
            (key 31) (record { lamports = 1; owner = key 6; contents = key 21 ++ key 8 }))
          (key 111)
          (record {
            lamports = 1;
            owner = key 6;
            contents = key 21 ++ (key 105 ++ (200 ∷ replicate 7 0));
          }))
        (key 105)
        (record {
          lamports = 1;
          owner = program;
          contents = key 7 ++ (key 8 ++ (250 ∷ 0 ∷ (replicate 8 0 ++ (key 0 ++ (1 ∷ 255 ∷ [])))));
        });
  effects = [];
}

abbrev sweep_list : List AccountInfo
sweep_list = signer 50 ∷ handle 111 ∷ handle 21 ∷ handle 105 ∷ handle 31 ∷ handle 6 ∷ []

abbrev swept_fees : World
swept_fees = world_of (sweep_fees now program sweep_list (0 ∷ []) collected)

sweep_fees-runs : sweep_fees now program sweep_list (0 ∷ []) collected ≡ ok (tt, swept_fees)
unfolding sweep_fees xete_programs.Chain.Action.◌>>=◌ xete_programs.Chain.Action.fail_if
    xete_programs.Chain.Action.lift xete_programs.Swap.Config.sweep_accounts
    xete_programs.Base.differs xete_programs.Chain.Action.fail_when set_account
    xete_programs.Chain.Action.reads xete_programs.Chain.Decode.arr32 xete_programs.Base.slice
    xete_programs.Swap.Checks.require_token_account xete_programs.Chain.Result.fail_if
    xete_programs.Base.Words.from_le xete_programs.Swap.Checks.mint_decimals
    xete_programs.Swap.Cpi.token_transfer xete_programs.Chain.Action.perform
    xete_programs.Base.bytes_eq xete_programs.Swap.Cpi.transfer_call xete_programs.Tests.answer
sweep_fees-runs = refl

sweep_fees_to_wallet_example : FeesSwept now program sweep_list (0 ∷ []) collected swept_fees
sweep_fees_to_wallet_example =
    sweep_fees_to_wallet now program sweep_list (0 ∷ []) collected swept_fees sweep_fees-runs

abbrev update_payload : Bytes
update_payload = key 8 ++ (200 ∷ 0 ∷ (replicate 8 0 ++ (key 0 ++ (2 ∷ []))))

abbrev updated : World
updated = world_of (update_config now program (signer 7 ∷ handle 105 ∷ []) update_payload collected)

update_config-runs :
    update_config now program (signer 7 ∷ handle 105 ∷ []) update_payload collected
    ≡ ok (tt, updated)
unfolding update_config xete_programs.Chain.Action.◌>>=◌ xete_programs.Chain.Action.fail_if
    xete_programs.Base.Words.from_le xete_programs.Base.slice xete_programs.Chain.Action.lift
    xete_programs.Swap.Config.update_accounts xete_programs.Chain.Action.fail_when
    xete_programs.Base.differs set_account xete_programs.Chain.Action.reads
    xete_programs.Chain.Writes.write_fields xete_programs.Chain.Writes.copy_all
    xete_programs.Base.put
update_config-runs = refl

update_config_by_admin_example :
    Updated now program (signer 7 ∷ handle 105 ∷ []) update_payload collected updated
update_config_by_admin_example =
    update_config_by_admin now program (signer 7 ∷ handle 105 ∷ []) update_payload collected updated
      update_config-runs
