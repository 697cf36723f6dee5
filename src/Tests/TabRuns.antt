-- ===== src/Tests/TabRuns.antt =====
-- Runs of the settlement program (program/lean/src/lib.rs): a deposit of 500 lamports by account 1
-- for account 2, redeemed and reclaimed.
use xete_programs.Base.{
  ℕ, ◌+◌, ◌≡◌, ◌≢◌, ◌↔◌, refl, ap, List, [], ◌∷◌, ◌++◌, Bytes, length, replicate, arith, inl, inr,
  get_or,
}
use xete_programs.Base.Int.{pos}
use xete_programs.Base.Words.{u64_le, i64_le, AreBytes, from_le, i64_from_le, le_bytes}
use xete_programs.Chain.Result.{ok}
use xete_programs.Chain.Types.{Pubkey, AccountInfo, Runtime, World, set_account}
use xete_programs.Chain.Sweep.{swept, Swept}
use xete_programs.Tab.{deposit, claim, reclaim}
use xete_programs.Tab.Spec.{Claimable, Reclaimable, salt_of}
use xete_programs.Tab.Payout.{claim_exact, reclaim_exact}
use xete_programs.Tab.Once.{PaysOut, PaysOut-Swept, paid_once}
use xete_programs.Tab.Redemption.{Redeems, deposit_then_claim}
use xete_programs.Tests.{
  key, signer, handle, chain, no_instruction, no_account, nowhere, world_of, chain-CreatesAccounts,
}

abbrev pub program : Pubkey
program = key 9

abbrev pub clock : Runtime
clock = chain (pos 100) no_instruction

abbrev pub settlement : AccountInfo
settlement = handle 107

-- The id, 500 lamports, a commitment to account 2, and the unlock time 90.
abbrev pub deposit_payload : Bytes
deposit_payload =
    key 5
    ++ ((244 ∷ 1 ∷ 0 ∷ 0 ∷ 0 ∷ 0 ∷ 0 ∷ 0 ∷ []) ++ (key 34 ++ (90 ∷ 0 ∷ 0 ∷ 0 ∷ 0 ∷ 0 ∷ 0 ∷ 0 ∷ [])))

-- The id and a salt of two bytes.
abbrev pub claim_payload : Bytes
claim_payload = key 5 ++ (2 ∷ 0 ∷ 0 ∷ 0 ∷ 8 ∷ 8 ∷ [])

abbrev deposit_accounts : List AccountInfo
deposit_accounts = signer 1 ∷ settlement ∷ handle 0 ∷ []

abbrev claim_accounts : List AccountInfo
claim_accounts = signer 2 ∷ settlement ∷ []

-- A ledger that holds the settlement account, as the deposit leaves it.
abbrev pub funded : World
funded = record {
  ledger =
      set_account (λ _. no_account) (key 107)
        (record {
          lamports = 500;
          owner = program;
          contents =
              key 1
              ++ ((244 ∷ 1 ∷ 0 ∷ 0 ∷ 0 ∷ 0 ∷ 0 ∷ 0 ∷ [])
                  ++ (key 34 ++ (90 ∷ 0 ∷ 0 ∷ 0 ∷ 0 ∷ 0 ∷ 0 ∷ 0 ∷ 255 ∷ [])));
        });
  effects = [];
}

abbrev deposited : World
deposited = world_of (deposit clock program deposit_accounts deposit_payload nowhere)

abbrev claimed : World
claimed = record funded { ledger = swept (key 107) (key 2) funded.ledger }

deposit-runs : deposit clock program deposit_accounts deposit_payload nowhere ≡ ok (tt, deposited)
unfolding deposit xete_programs.Chain.Action.◌>>=◌ xete_programs.Chain.Action.fail_if
    xete_programs.Chain.Action.lift xete_programs.Chain.Decode.arr32 xete_programs.Base.slice
    xete_programs.Tab.three_accounts xete_programs.Base.differs xete_programs.Chain.Action.perform
    xete_programs.Tests.answer xete_programs.Chain.Writes.write_fields
    xete_programs.Chain.Writes.copy_all le_bytes xete_programs.Base.put i64_le
deposit-runs = refl

claim-runs : claim clock program claim_accounts claim_payload funded ≡ ok (tt, claimed)
unfolding claim xete_programs.Chain.Action.◌>>=◌ xete_programs.Chain.Action.fail_if
    xete_programs.Chain.Action.lift xete_programs.Chain.Decode.arr32 xete_programs.Base.slice
    from_le xete_programs.Tab.two_accounts xete_programs.Chain.Action.reads
    xete_programs.Tab.verify_pda xete_programs.Chain.Result.◌>>=◌ xete_programs.Chain.Result.fail_if
    xete_programs.Base.differs set_account xete_programs.Tab.opened_unlock
    xete_programs.Chain.Decode.index i64_from_le xete_programs.Tab.close xete_programs.Base.bytes_eq
    xete_programs.Chain.Sweep.sweep swept xete_programs.Chain.Sweep.with_lamports
    xete_programs.Chain.Sweep.zeroed
claim-runs = refl

claim-guards : Claimable clock program (signer 2) settlement claim_payload funded.ledger
unfolding from_le xete_programs.Base.slice set_account i64_from_le
claim-guards = record {
  framed = omega arith;
  signed = refl;
  settlement = record { address = refl; owned = refl };
  opens = record { sized = omega arith; commitment = refl };
  now = pos 100;
  clock = refl;
  unlocked = omega arith;
  fits = omega arith;
}

claim_exact_example :
    (claim clock program claim_accounts claim_payload funded ≡ ok (tt, claimed)) ↔ (
      (b s : AccountInfo) × (claim_accounts ≡ b ∷ s ∷ [])
      × Claimable clock program b s claim_payload funded.ledger
      × (claimed ≡ record funded { ledger = swept s.key b.key funded.ledger }))
claim_exact_example = claim_exact clock program claim_payload claim_accounts funded claimed

reclaim_exact_example :
    (reclaim clock program (signer 1 ∷ settlement ∷ []) (key 5) funded ≡ ok (tt, claimed)) ↔ (
      (b s : AccountInfo) × (signer 1 ∷ settlement ∷ [] ≡ b ∷ s ∷ [])
      × Reclaimable clock program b s (key 5) funded.ledger
      × (claimed ≡ record funded { ledger = swept s.key b.key funded.ledger }))
reclaim_exact_example =
    reclaim_exact clock program (key 5) (signer 1 ∷ settlement ∷ []) funded claimed

apart : key 2 ≢ key 107
apart e = omega (arith, ap (λ k. get_or k 0 0) e)

PaysOut-Swept_example :
    Swept (key 107) (key 2) funded.ledger claimed.ledger
    × ((claimed.ledger (key 2)).lamports + (claimed.ledger (key 107)).lamports
        ≡ (funded.ledger (key 2)).lamports + (funded.ledger (key 107)).lamports)
    × (claimed.effects ≡ funded.effects)
PaysOut-Swept_example =
    PaysOut-Swept clock program (signer 2) settlement claim_payload funded claimed apart
      (inl claim-runs)

nonzero-key : key 3 ≢ replicate 32 0
nonzero-key e = omega (arith, ap (λ k. get_or k 0 0) e)

nonzero-hash : clock.hashv (key 3 ∷ salt_of claim_payload ∷ []) ≢ replicate 32 0
nonzero-hash e = omega (arith, ap (λ k. get_or k 0 0) e)

paid_once_example : ¬ PaysOut clock program (signer 3) settlement claim_payload claimed nowhere
paid_once_example =
    paid_once clock program (signer 2) settlement (signer 3) claim_payload claim_payload funded
      claimed nowhere apart (inl claim-runs) nonzero-key nonzero-hash

deposit_bytes : AreBytes deposit_payload
deposit_bytes = ground arith

redeems : Redeems clock (signer 2) deposit_payload claim_payload deposited.ledger
unfolding xete_programs.Base.slice from_le i64_from_le deposit xete_programs.Chain.Action.◌>>=◌
    xete_programs.Chain.Action.fail_if xete_programs.Chain.Action.lift
    xete_programs.Chain.Decode.arr32 xete_programs.Tab.three_accounts xete_programs.Base.differs
    xete_programs.Chain.Action.perform xete_programs.Tests.answer
    xete_programs.Chain.Writes.write_fields xete_programs.Chain.Writes.copy_all le_bytes
    xete_programs.Base.put i64_le xete_programs.Base.bytes_eq xete_programs.Base.Words.i64_word
    set_account xete_programs.Chain.Writes.set_contents xete_programs.Tests.create
redeems = record {
  same_id = refl;
  framed = omega arith;
  signed = refl;
  commitment = refl;
  now = pos 100;
  clock = refl;
  unlocked = omega arith;
  fits = omega arith;
}

deposit_then_claim_example :
    claim clock program claim_accounts claim_payload deposited
    ≡ ok (tt, record deposited { ledger = swept (key 107) (key 2) deposited.ledger })
deposit_then_claim_example =
    deposit_then_claim clock program (signer 1) settlement (handle 0) (signer 2) deposit_payload
      claim_payload nowhere deposited (chain-CreatesAccounts (pos 100) no_instruction) refl
      deposit_bytes deposit-runs redeems
