-- ===== src/Tab/Readable/Agrees.antt =====
-- The two builds of xete-tab agree on claims and reclaims (program/readable/src/lib.rs,
-- program/lean/src/lib.rs).
use xete_programs.Base.{
  ◌+◌, ◌≡◌, refl, sym, ap, ◌∙◌, Bool, true, false, not, [], ◌∷◌, some, none, Option, Bytes, length,
  length-slice, slice, differs, ltb_of_le, not_ne_of_eq, arith,
}
use xete_programs.Base.Int.{ltb_ℤ}
use xete_programs.Base.Words.{from_le}
use xete_programs.Chain.Result.{
  Result, ok, err, ProgramError, invalid_argument, illegal_owner, missing_required_signature,
  invalid_instruction_data, ◌>>◌ as and_then, fail_if as refuse_if,
}
use xete_programs.Chain.Types.{Pubkey, AccountInfo, Runtime, World, Ledger}
use xete_programs.Chain.Action.{Action, fail_if, reads, lift, ◌>>=◌, ◌>>◌, fail_if-ok, lift-ok}
use xete_programs.Chain.Sweep.{sweep}
use xete_programs.Tab.Readable.Loaded.{load-verified, opened_unlock-sized, check_depositor-sized}
use xete_programs.Chain.Decode.{arr32, arr32_of_length}
use xete_programs.Tab.Checks.{state_len, verify_pda}
use xete_programs.Tab.{process, claim, reclaim, close, two_accounts}
use xete_programs.Tab.Spec.{salt_of}
use xete_programs.Tab.Readable.State.{Borsh, Settlement, SettlementInstruction, next_two}
use xete_programs.Tab.Readable as Readable
use xete_programs.Tab.Readable.Format.{IsBorsh, settlement_of}

module _ {κ} {B : Type κ} where
  -- A guard before both of two runs.
  same_guard :
      (c : Bool) (e : ProgramError) (k k' : Action B) (w : World)
      → k w ≡ k' w
      → (fail_if c e >> k) w ≡ (fail_if c e >> k') w
  unfolding ◌>>=◌ fail_if
  same_guard true e k k' w h = refl
  same_guard false e k k' w h = h

  -- A check before both of two runs.
  same_check :
      (r : Result (Unit {0})) (k k' : Action B) (w : World)
      → k w ≡ k' w
      → (lift r >> k) w ≡ (lift r >> k') w
  unfolding ◌>>=◌ lift
  same_check (ok u) k k' w h = h
  same_check (err e) k k' w h = refl

  -- A check that then returns a value is the check, and then the run on this value.
  lift_checked {ℓ} :
      {A : Type ℓ} (r : Result (Unit {0})) (a : A) (f : A → Action B) (w : World)
      → (lift (and_then r (ok a)) >>= f) w ≡ (lift r >> f a) w
  unfolding ◌>>=◌ lift xete_programs.Chain.Result.◌>>=◌
  lift_checked (ok u) a f w = refl
  lift_checked (err e) a f w = refl

  lift-fail_if :
      (c : Bool) (e : ProgramError) (k : Action B) (w : World)
      → (lift (refuse_if c e) >> k) w ≡ (fail_if c e >> k) w
  unfolding ◌>>=◌ lift fail_if refuse_if
  lift-fail_if true e k w = refl
  lift-fail_if false e k w = refl

  reads_as {ℓ} :
      {A : Type ℓ} (r : Ledger → Result A) (m : Result A) (f : A → Action B) (w : World)
      → r w.ledger ≡ m
      → (reads r >>= f) w ≡ (lift m >>= f) w
  unfolding ◌>>=◌ reads
  reads_as {A = A} r m f w h = ap (λ (x : Result A). (lift x >>= f) w) h

module _ (codec : Borsh) (borsh : IsBorsh codec) (rt : Runtime) (program_id : Pubkey) where
  -- What both builds do once the state is read.
  abbrev settle : (b s : AccountInfo) → Bytes → Settlement → Action (Unit {0})
  settle b s salt state = do
    fail_if (differs (rt.hashv (b.key ∷ salt ∷ [])) state.beneficiary_commitment) invalid_argument
    now ← lift rt.unix_timestamp
    fail_if (ltb_ℤ now state.unlock_time) invalid_argument
    sweep s b

  readable_claim :
      (b s : AccountInfo) (d : Bytes) (w : World)
      → length d ≡ 36 + from_le (slice d 32 36)
      → length (w.ledger s.key).contents ≡ state_len
      → Readable.process codec rt program_id (b ∷ s ∷ []) (1 ∷ d) w
        ≡ (fail_if (not b.is_signer) missing_required_signature
              >> (lift (verify_pda rt program_id s (slice d 0 32) w.ledger)
                  >> settle b s (salt_of d) (settlement_of (w.ledger s.key).contents)))
            w
  unfolding Readable.process Readable.dispatch Readable.claim next_two
  readable_claim b s d w framed sized =
      ap
        (λ (o : Option SettlementInstruction). elim o as (λ _. Result (Unit {0} × World)) [
          | some i ↦ Readable.dispatch codec rt program_id (b ∷ s ∷ []) i w
          | none ↦ err invalid_instruction_data
        ])
        (borsh.claim_decoded d framed)
      ∙ (lift-ok (next_two (b ∷ s ∷ [])) _ w (b, s) refl
          ∙ same_guard _ _ _ _ w (
              reads_as _ _ _ w
                (load-verified codec borsh rt program_id s w.ledger sized (slice d 0 32))
              ∙ lift_checked _ _ _ w))

  deployed_claim :
      (b s : AccountInfo) (d : Bytes) (w : World)
      → length d ≡ 36 + from_le (slice d 32 36)
      → length (w.ledger s.key).contents ≡ state_len
      → process rt program_id (b ∷ s ∷ []) (1 ∷ d) w
        ≡ (fail_if (not b.is_signer) missing_required_signature
              >> (lift (verify_pda rt program_id s (slice d 0 32) w.ledger)
                  >> settle b s (salt_of d) (settlement_of (w.ledger s.key).contents)))
            w
  unfolding process claim close two_accounts
  deployed_claim b s d w framed sized =
      fail_if-ok _ _ _ w (ltb_of_le _ _ (omega (arith, framed)))
      ∙ (lift-ok (arr32 (slice d 0 32)) _ w (slice d 0 32) (
            arr32_of_length (slice d 0 32)
              (length-slice d 0 32 (omega arith) (omega (arith, framed))))
          ∙ (fail_if-ok _ _ _ w (ltb_of_le _ _ (omega (arith, framed)))
              ∙ (lift-ok (two_accounts (b ∷ s ∷ [])) _ w (b, s) refl
                  ∙ same_guard _ _ _ _ w (
                      reads_as _ (verify_pda rt program_id s (slice d 0 32) w.ledger) _ w refl
                      ∙ same_check (verify_pda rt program_id s (slice d 0 32) w.ledger) _ _ w (
                          reads_as _ _ _ w (opened_unlock-sized rt b s (salt_of d) w.ledger sized)
                          ∙ (lift_checked _ _ _ w ∙ lift-fail_if _ _ _ w))))))

  -- With a codec of the documented format, on two accounts, a payload of the exact length that
  -- its salt's length makes, and an account of 81 bytes, a claim of the readable build ends as a
  -- claim of the deployed one does, in the same error or the same world.
  pub claim_agrees :
      (b s : AccountInfo) (d : Bytes) (w : World)
      → length d ≡ 36 + from_le (slice d 32 36)
      → length (w.ledger s.key).contents ≡ state_len
      → Readable.process codec rt program_id (b ∷ s ∷ []) (1 ∷ d) w
        ≡ process rt program_id (b ∷ s ∷ []) (1 ∷ d) w
  claim_agrees b s d w framed sized =
      readable_claim b s d w framed sized ∙ sym (deployed_claim b s d w framed sized)

  -- What both builds do for a reclaim.
  abbrev reclaim_run : (b s : AccountInfo) → Bytes → World → Result (Unit {0} × World)
  reclaim_run b s d w =
      (fail_if (not b.is_signer) missing_required_signature
          >> (lift (verify_pda rt program_id s (slice d 0 32) w.ledger)
              >> (fail_if (differs (settlement_of (w.ledger s.key).contents).depositor b.key)
                    illegal_owner
                  >> sweep s b)))
        w

  readable_reclaim :
      (b s : AccountInfo) (d : Bytes) (w : World)
      → length d ≡ 32
      → length (w.ledger s.key).contents ≡ state_len
      → Readable.process codec rt program_id (b ∷ s ∷ []) (2 ∷ d) w ≡ reclaim_run b s d w
  unfolding Readable.process Readable.dispatch Readable.reclaim next_two
  readable_reclaim b s d w framed sized =
      ap
        (λ (o : Option SettlementInstruction). elim o as (λ _. Result (Unit {0} × World)) [
          | some i ↦ Readable.dispatch codec rt program_id (b ∷ s ∷ []) i w
          | none ↦ err invalid_instruction_data
        ])
        (borsh.reclaim_decoded d framed)
      ∙ (lift-ok (next_two (b ∷ s ∷ [])) _ w (b, s) refl
          ∙ same_guard _ _ _ _ w (
              reads_as _ _ _ w
                (load-verified codec borsh rt program_id s w.ledger sized (slice d 0 32))
              ∙ lift_checked _ _ _ w))

  deployed_reclaim :
      (b s : AccountInfo) (d : Bytes) (w : World)
      → length d ≡ 32
      → length (w.ledger s.key).contents ≡ state_len
      → process rt program_id (b ∷ s ∷ []) (2 ∷ d) w ≡ reclaim_run b s d w
  unfolding process reclaim close two_accounts
  deployed_reclaim b s d w framed sized =
      fail_if-ok _ _ _ w (not_ne_of_eq _ _ framed)
      ∙ (lift-ok (arr32 (slice d 0 32)) _ w (slice d 0 32) (
            arr32_of_length (slice d 0 32)
              (length-slice d 0 32 (omega arith) (omega (arith, framed))))
          ∙ (lift-ok (two_accounts (b ∷ s ∷ [])) _ w (b, s) refl
              ∙ same_guard _ _ _ _ w (
                  reads_as _ (verify_pda rt program_id s (slice d 0 32) w.ledger) _ w refl
                  ∙ same_check (verify_pda rt program_id s (slice d 0 32) w.ledger) _ _ w (
                      reads_as _ _ _ w (check_depositor-sized b s w.ledger sized)
                      ∙ lift-fail_if _ _ _ w))))

  -- With a codec of the documented format, on two accounts, a payload of 32 bytes, and an account
  -- of 81 bytes, a reclaim of the readable build ends as a reclaim of the deployed one does, in
  -- the same error or the same world.
  pub reclaim_agrees :
      (b s : AccountInfo) (d : Bytes) (w : World)
      → length d ≡ 32
      → length (w.ledger s.key).contents ≡ state_len
      → Readable.process codec rt program_id (b ∷ s ∷ []) (2 ∷ d) w
        ≡ process rt program_id (b ∷ s ∷ []) (2 ∷ d) w
  reclaim_agrees b s d w framed sized =
      readable_reclaim b s d w framed sized ∙ sym (deployed_reclaim b s d w framed sized)
