-- ===== src/Tab/Readable/Funded.antt =====
-- A deposit of the readable build leaves what a deposit of the deployed one leaves
-- (program/readable/src/lib.rs).
use xete_programs.Base.{
  ℕ, ◌≤◌, ◌≡◌, refl, sym, ap, ◌∙◌, [], ◌∷◌, some, none, Option, Bytes, length, slice, ltb-false,
  or_false, arith, append-nil, differs-false,
}
use xete_programs.Base.Words.{from_le, i64_from_le}
use xete_programs.Chain.Result.{Result, ok, err, invalid_instruction_data}
use xete_programs.Chain.Types.{Pubkey, AccountInfo, Ledger, Runtime, World, CreatesAccounts}
use xete_programs.Chain.Action.{
  after_bind, after_fail_if, after_fail_when, after_lift, perform-inv, lift-ok,
}
use xete_programs.Chain.Writes.{write_fields-fresh, set_contents}
use xete_programs.Tab.Checks.{seed, state_len}
use xete_programs.Tab.Funding.{Deposited, state_bytes, length-state}
use xete_programs.Tab.Readable.State.{
  Borsh, Settlement, SettlementInstruction, settlement_pda, next_three,
}
use xete_programs.Tab.Readable.Format.{IsBorsh}
use xete_programs.Tab.Readable as Readable

-- What a deposit of the readable build has checked besides, and what it leaves.
abbrev pub Funds : Runtime → Pubkey → (f s : AccountInfo) → Bytes → (l l' : Ledger) → Type 0
Funds rt program_id f s d l l' =
    ((l s.key).lamports ≤ 0)
    × (length (l s.key).contents ≤ 0)
    × (rent : ℕ) × (rt.minimum_balance state_len ≡ ok rent)
    × (rent ≤ from_le (slice d 32 40))
    × Deposited rt program_id f s d l'

module _ (codec : Borsh) (borsh : IsBorsh codec) (rt : Runtime) (creates : CreatesAccounts rt)
    (program_id : Pubkey) where
  handler_Funds :
      (f s sys : AccountInfo) (d : Bytes) (w w' : World)
      → length f.key ≡ 32
      → length d ≡ 80
      → Readable.deposit codec rt program_id
          (f ∷ s ∷ sys ∷ [])
          (slice d 0 32)
          (from_le (slice d 32 40))
          (slice d 40 72)
          (i64_from_le (slice d 72 80))
          w
        ≡ ok (tt, w')
      → Funds rt program_id f s d w.ledger w'.ledger
  unfolding Readable.deposit settlement_pda set_contents next_three
  handler_Funds f s sys d w w' size framed h =
      after_fail_if _ _ _ w (sym (lift-ok (next_three (f ∷ s ∷ sys ∷ [])) _ w (f, s, sys) refl) ∙ h)
        λ c1 h1. after_fail_if _ _ _ w h1 λ c2 h2. after_fail_when _ _ _ w h2 λ c3 h3.
          after_lift _ _ w h3 λ rent er h4. after_fail_if _ _ _ w h4 λ c4 h5.
            after_bind _ _ w h5 λ u w1 e1 h6.
              let (unused, empty) = or_false _ _ c3 in
              let made = creates _ _ _ _ _ _ _ _ _ (perform-inv rt _ w e1).0 in
              let bump = (rt.find_program_address (seed ∷ slice d 0 32 ∷ []) program_id).1 in
              let state : Settlement = record {
                depositor = f.key;
                amount = from_le (slice d 32 40);
                beneficiary_commitment = slice d 40 72;
                unlock_time = i64_from_le (slice d 72 80);
                bump = bump;
              } in
              let encoded : codec.settlement_to_vec state ≡ state_bytes f.key d bump =
                borsh.settlement_encoded state in
              let sized : length (codec.settlement_to_vec state) ≡ 81 =
                ap length encoded ∙ length-state f.key d bump size (omega (arith, framed)) in
              let (stored, _, _) =
                write_fields-fresh s.key ((0, codec.settlement_to_vec state) ∷ []) _ 81 w1 w' made
                  refl (refl, tt) (ap length (append-nil (codec.settlement_to_vec state)) ∙ sized)
                  h6 in
              (
                ltb-false _ _ unused,
                ltb-false _ _ empty,
                rent,
                er,
                ltb-false _ _ c4,
                record {
                  framed = framed;
                  signed = ground (arith, c1);
                  address = differs-false _ _ c2;
                  account =
                      stored
                      ∙ ap
                          (λ (b : Bytes). record {
                            lamports = from_le (slice d 32 40);
                            owner = program_id;
                            contents = b;
                          })
                          (append-nil (codec.settlement_to_vec state) ∙ encoded);
                },
              )

  -- With a codec of the documented format, and when `create_account` does what it documents: a
  -- deposit of the readable build that succeeds, by a key of 32 bytes with a payload of 80, found
  -- the account unused and empty and the amount not below the rent, and leaves the settlement
  -- that a deposit promises: signed, at its address, with the amount and the 81 bytes of the
  -- state.
  pub readable_deposit-Funds :
      (f s sys : AccountInfo) (d : Bytes) (w w' : World)
      → length f.key ≡ 32
      → length d ≡ 80
      → Readable.process codec rt program_id (f ∷ s ∷ sys ∷ []) (0 ∷ d) w ≡ ok (tt, w')
      → Funds rt program_id f s d w.ledger w'.ledger
  unfolding Readable.process Readable.dispatch
  readable_deposit-Funds f s sys d w w' size framed h = handler_Funds f s sys d w w' size framed (
      sym (
        ap
          (λ (o : Option SettlementInstruction). elim o as (λ _. Result (Unit {0} × World)) [
            | some i ↦ Readable.dispatch codec rt program_id (f ∷ s ∷ sys ∷ []) i w
            | none ↦ err invalid_instruction_data
          ])
          (borsh.deposit_decoded d framed))
      ∙ h)
