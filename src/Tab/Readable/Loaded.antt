-- ===== src/Tab/Readable/Loaded.antt =====
-- The state as the two builds read it (program/readable/src/lib.rs, program/lean/src/lib.rs).
use xete_programs.Base.{
  ◌+◌, ◌≡◌, refl, ap, ◌∙◌, true, false, Option, some, none, [], ◌∷◌, Bytes, length, length-slice,
  slice, differs, arith, Bool,
}
use xete_programs.Base.Words.{i64_from_le}
use xete_programs.Chain.Result.{
  Result, ok, err, invalid_account_data, ProgramError, fail_if, ◌>>=◌, ◌>>◌, invalid_argument,
  illegal_owner, bind-ok,
}
use xete_programs.Chain.Types.{Pubkey, AccountInfo, Runtime, Ledger}
use xete_programs.Chain.Decode.{arr32_of_length, index_of_le}
use xete_programs.Tab.Checks.{
  state_len, verify_pda, opened_unlock, check_depositor, o_commit, o_unlock,
}
use xete_programs.Tab.Readable.State.{Borsh, Settlement, load, decode_settlement}
use xete_programs.Tab.Readable.Format.{IsBorsh, settlement_of}

guards_assoc {ℓ} :
    {A : Type ℓ} (c c' : Bool) (e e' : ProgramError) (k : Result A)
    → (fail_if c e >> (fail_if c' e' >> k)) ≡ ((fail_if c e >> fail_if c' e') >> k)
unfolding ◌>>=◌ fail_if
guards_assoc true c' e e' k = refl
guards_assoc false c' e e' k = refl

module _ (codec : Borsh) (borsh : IsBorsh codec) (rt : Runtime) (program_id : Pubkey)
    (s : AccountInfo) (l : Ledger) (sized : length (l s.key).contents ≡ state_len) where
  decode_settlement-ok :
      decode_settlement codec (l s.key).contents ≡ ok (settlement_of (l s.key).contents)
  unfolding decode_settlement
  decode_settlement-ok =
      ap
        (λ (o : Option Settlement). elim o as (λ _. Result Settlement) [
          | some x ↦ ok x
          | none ↦ err invalid_account_data
        ])
        (borsh.settlement_decoded (l s.key).contents sized)

  pub load-verified :
      (id : Bytes)
      → load codec rt program_id s id l
        ≡ (verify_pda rt program_id s id l >> ok (settlement_of (l s.key).contents))
  unfolding load verify_pda
  load-verified id =
      guards_assoc _ _ _ _ _ ∙ ap (λ k. verify_pda rt program_id s id l >> k) decode_settlement-ok

pub opened_unlock-sized :
    (rt : Runtime) (b s : AccountInfo) (salt : Bytes) (l : Ledger)
    → length (l s.key).contents ≡ state_len
    → opened_unlock rt b s salt l ≡ (
        fail_if
          (differs (rt.hashv (b.key ∷ salt ∷ [])) (slice (l s.key).contents 40 72))
          invalid_argument
        >> ok (i64_from_le (slice (l s.key).contents 72 80)))
unfolding opened_unlock
opened_unlock-sized rt b s salt l sized =
    let c = (l s.key).contents in
    bind-ok _ _ _ (index_of_le c o_commit (o_commit + 32) (omega (arith, sized)))
    ∙ (bind-ok _ _ _ (
          arr32_of_length (slice c 40 72)
            (length-slice c 40 72 (omega arith) (omega (arith, sized))))
        ∙ ap
            (λ k.
              fail_if (differs (rt.hashv (b.key ∷ salt ∷ [])) (slice c 40 72)) invalid_argument
              >> k)
            (bind-ok _ _ _ (index_of_le c o_unlock (o_unlock + 8) (omega (arith, sized)))))

pub check_depositor-sized :
    (a s : AccountInfo) (l : Ledger)
    → length (l s.key).contents ≡ state_len
    → check_depositor a s l ≡ fail_if (differs (slice (l s.key).contents 0 32) a.key) illegal_owner
unfolding check_depositor
check_depositor-sized a s l sized =
    bind-ok _ _ _ (index_of_le (l s.key).contents 0 32 (omega (arith, sized)))
