-- ===== src/Tests/ReadableRuns.antt =====
-- Runs of the readable build with a concrete codec (program/readable/src/lib.rs).
use xete_programs.Base.{
  ℕ, ◌+◌, ◌==◌, ◌≡◌, refl, [], ◌∷◌, Option, some, none, Bytes, length, slice, arith, if◌then◌else◌,
}
use xete_programs.Base.Words.{u64_le, i64_le, from_le, i64_from_le}
use xete_programs.Chain.Result.{ok}
use xete_programs.Chain.Types.{World, set_account}
use xete_programs.Chain.Writes.{concat}
use xete_programs.Tab.{process}
use xete_programs.Tab.Checks.{state_len}
use xete_programs.Tab.Spec.{salt_of}
use xete_programs.Tab.Readable.State.{Borsh, Settlement, SettlementInstruction}
use xete_programs.Tab.Readable as Readable
use xete_programs.Tab.Readable.Format.{IsBorsh, settlement_of}
use xete_programs.Tab.Readable.Agrees.{claim_agrees, reclaim_agrees}
use xete_programs.Tab.Readable.Funded.{Funds, readable_deposit-Funds}
use xete_programs.Tests.{
  key, signer, handle, no_instruction, nowhere, world_of, chain-CreatesAccounts,
}
use xete_programs.Tests.TabRuns.{program, clock, settlement, deposit_payload, claim_payload, funded}
use xete_programs.Base.Int.{pos}

unfoldable instruction_from_slice : Bytes → Option SettlementInstruction
instruction_from_slice [] = none
instruction_from_slice (tag ∷ d) =
    if tag == 0
    then (if length d == 80
        then some (
            SettlementInstruction.deposit (slice d 0 32) (from_le (slice d 32 40)) (slice d 40 72)
              (i64_from_le (slice d 72 80)))
        else none)
    else (if tag == 1
        then (if length d == 36 + from_le (slice d 32 36)
            then some (SettlementInstruction.claim (slice d 0 32) (salt_of d))
            else none)
        else (if tag == 2
            then (if length d == 32
                then some (SettlementInstruction.reclaim (slice d 0 32))
                else none)
            else none))

unfoldable settlement_from_slice : Bytes → Option Settlement
settlement_from_slice s = if length s == state_len then some (settlement_of s) else none

-- A codec that keeps the documented format.
abbrev codec : Borsh
codec = record {
  instruction_from_slice = λ b. instruction_from_slice b;
  settlement_from_slice = λ b. settlement_from_slice b;
  settlement_to_vec = λ x. concat (
      x.depositor
      ∷ u64_le x.amount
      ∷ x.beneficiary_commitment
      ∷ i64_le x.unlock_time
      ∷ (x.bump ∷ [])
      ∷ []);
}

if_equal {ℓ} : {A : Type ℓ} (m n : ℕ) (x y : A) → m ≡ n → (if m == n then x else y) ≡ x
if_equal m n x y h = ground (arith, h)

codec-IsBorsh : IsBorsh codec
unfolding instruction_from_slice settlement_from_slice
codec-IsBorsh = record {
  claim_decoded = λ d h. if_equal _ _ _ _ h;
  reclaim_decoded = λ d h. if_equal _ _ _ _ h;
  settlement_decoded = λ s h. if_equal _ _ _ _ h;
  deposit_decoded = λ d h. if_equal _ _ _ _ h;
  settlement_encoded = λ x. refl;
}

claim_framed : length claim_payload ≡ 36 + from_le (slice claim_payload 32 36)
unfolding from_le slice
claim_framed = refl

funded_sized : length (funded.ledger (key 107)).contents ≡ state_len
unfolding set_account
funded_sized = refl

claim_agrees_example :
    Readable.process codec clock program (signer 2 ∷ settlement ∷ []) (1 ∷ claim_payload) funded
    ≡ process clock program (signer 2 ∷ settlement ∷ []) (1 ∷ claim_payload) funded
claim_agrees_example =
    claim_agrees codec codec-IsBorsh clock program (signer 2) settlement claim_payload funded
      claim_framed funded_sized

reclaim_agrees_example :
    Readable.process codec clock program (signer 1 ∷ settlement ∷ []) (2 ∷ key 5) funded
    ≡ process clock program (signer 1 ∷ settlement ∷ []) (2 ∷ key 5) funded
reclaim_agrees_example =
    reclaim_agrees codec codec-IsBorsh clock program (signer 1) settlement (key 5) funded refl
      funded_sized

abbrev readable_deposited : World
readable_deposited = world_of (
    Readable.process codec clock program (signer 1 ∷ settlement ∷ handle 0 ∷ [])
      (0 ∷ deposit_payload) nowhere)

readable_deposit-runs :
    Readable.process codec clock program
      (signer 1 ∷ settlement ∷ handle 0 ∷ [])
      (0 ∷ deposit_payload)
      nowhere
    ≡ ok (tt, readable_deposited)
unfolding Readable.process instruction_from_slice xete_programs.Chain.Action.◌>>=◌
    xete_programs.Chain.Action.lift xete_programs.Tab.Readable.State.next_three
    xete_programs.Chain.Action.fail_if xete_programs.Base.differs
    xete_programs.Chain.Action.fail_when from_le slice xete_programs.Chain.Action.perform
    xete_programs.Tests.answer xete_programs.Chain.Writes.write_fields
    xete_programs.Chain.Writes.copy_all xete_programs.Base.Words.le_bytes i64_le
readable_deposit-runs = refl

readable_deposit-Funds_example :
    Funds clock program
      (signer 1)
      settlement
      deposit_payload
      nowhere.ledger
      readable_deposited.ledger
readable_deposit-Funds_example =
    readable_deposit-Funds codec codec-IsBorsh clock
      (chain-CreatesAccounts (pos 100) no_instruction) program (signer 1) settlement (handle 0)
      deposit_payload nowhere readable_deposited refl refl readable_deposit-runs
