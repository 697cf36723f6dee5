-- ===== src/Tab/Funding.antt =====
-- What `deposit` stores (program/lean/src/lib.rs).
use xete_programs.Base.{
  ℕ, ◌≤◌, ◌≡◌, ◌∙◌, refl, ap, ap₂, sym, List, [], ◌∷◌, Bytes, length, slice, slice-here, slice-skip,
  length-slice, arith, length-append, true, eq_of_not_ne, differs-false,
}
use xete_programs.Base.Int.{ℤ}
use xete_programs.Base.Words.{
  from_le, u64_le, i64_le, i64_from_le, length-le_bytes, length-i64_le, AreBytes, AreBytes-slice,
  i64_from_le-i64_le, IsI64-i64_from_le,
}
use xete_programs.Chain.Result.{ok}
use xete_programs.Chain.Types.{Pubkey, AccountInfo, Ledger, Runtime, World, CreatesAccounts}
use xete_programs.Chain.Action.{after_bind, after_fail_if, after_lift, perform-inv}
use xete_programs.Chain.Decode.{arr32-ok}
use xete_programs.Chain.Writes.{write_fields-fresh, concat, set_contents}
use xete_programs.Tab.{seed, deposit, three_accounts}

-- The 81 bytes that the layout prescribes for a deposit by `key` under the payload `d`.
abbrev pub state_bytes : Pubkey → Bytes → ℕ → Bytes
state_bytes key d bump = concat (
    key
    ∷ u64_le (from_le (slice d 32 40))
    ∷ slice d 40 72
    ∷ i64_le (i64_from_le (slice d 72 80))
    ∷ (bump ∷ [])
    ∷ [])

three_accounts-ok :
    (xs : List AccountInfo) {p : AccountInfo × AccountInfo × AccountInfo}
    → three_accounts xs ≡ ok p
    → xs ≡ p.0 ∷ p.1 ∷ p.2 ∷ []
unfolding three_accounts
three_accounts-ok [] h = cc
three_accounts-ok (a ∷ []) h = cc
three_accounts-ok (a ∷ b ∷ []) h = cc
three_accounts-ok (a ∷ b ∷ c ∷ []) {p} h = ground arith
three_accounts-ok (a ∷ b ∷ c ∷ e ∷ r) h = cc

-- The settlement account after a deposit: the program's, with the sent lamports and the terms.
pub record Deposited (rt : Runtime) (program_id : Pubkey) (f s : AccountInfo) (d : Bytes)
    (l : Ledger) : Type 0 where
  pub framed : length d ≡ 80
  pub signed : f.is_signer ≡ true
  pub address : (rt.find_program_address (seed ∷ slice d 0 32 ∷ []) program_id).0 ≡ s.key
  pub account : l s.key ≡ record {
    lamports = from_le (slice d 32 40);
    owner = program_id;
    contents =
        state_bytes f.key d (rt.find_program_address (seed ∷ slice d 0 32 ∷ []) program_id).1;
  }

module _ (rt : Runtime) (creates : CreatesAccounts rt) (program_id : Pubkey) where
  -- Where create_account does what the system program documents, a deposit that goes through under
  -- a 32-byte depositor key has three accounts, a signing depositor and the derived address, and
  -- leaves there the sent lamports and the 81 bytes of the state layout.
  pub deposit-Deposited :
      (accounts : List AccountInfo) (d : Bytes) (w w' : World)
      → deposit rt program_id accounts d w ≡ ok (tt, w')
      → (f s sys : AccountInfo) × (accounts ≡ f ∷ s ∷ sys ∷ [])
        × (length f.key ≡ 32 → Deposited rt program_id f s d w'.ledger)
  unfolding deposit set_contents
  deposit-Deposited accounts d w w' h = after_fail_if _ _ _ w h λ c1 h1.
      after_lift _ _ w h1 λ id eid h2. after_lift _ _ w h2 λ commitment ec h3.
        after_lift _ _ w h3 λ p ep h4. after_fail_if _ _ _ w h4 λ c2 h5.
          after_fail_if _ _ _ w h5 λ c3 h6. after_bind _ _ w h6 λ u w6 e6 h7.
            let made = creates _ _ _ _ _ _ _ _ _ (perform-inv rt _ w e6).0 in
            let same_id = (arr32-ok _ eid).0 in
            let same_commitment = arr32-ok _ ec in
            (
              p.0,
              p.1,
              p.2,
              three_accounts-ok accounts ep,
              λ size. record {
                framed = eq_of_not_ne _ _ c1;
                signed = ground arith;
                address =
                    ap (λ i. (rt.find_program_address (seed ∷ i ∷ []) program_id).0) (sym same_id)
                    ∙ differs-false _ _ c3;
                account =
                    (write_fields-fresh p.1.key _ _ 81 w6 w' made refl
                      (omega (
                        arith,
                        size,
                        same_commitment.1,
                        ap length same_commitment.0,
                        length-le_bytes 8 (from_le (slice d 32 40)),
                        length-i64_le (i64_from_le (slice d 72 80)),
                      ))
                      (simp (
                        length-append, size, same_commitment.0, same_commitment.1, length-le_bytes,
                        length-i64_le,
                      ))
                      h7).0
                    ∙ ap₂
                        (λ i (c : Bytes). record {
                          lamports = from_le (slice d 32 40);
                          owner = program_id;
                          contents = concat (
                              p.0.key
                              ∷ u64_le (from_le (slice d 32 40))
                              ∷ c
                              ∷ i64_le (i64_from_le (slice d 72 80))
                              ∷ ((rt.find_program_address (seed ∷ i ∷ []) program_id).1 ∷ [])
                              ∷ []);
                        })
                        same_id same_commitment.0;
              },
            )

-- The fields of the state, read back.
module _ (key : Pubkey) (d : Bytes) (bump : ℕ) (size : length key ≡ 32) where
  state-depositor : slice (state_bytes key d bump) 0 32 ≡ key
  state-depositor = slice-here key _ 32 size

  pub state-commitment : 80 ≤ length d → slice (state_bytes key d bump) 40 72 ≡ slice d 40 72
  state-commitment long =
      slice-skip key _ 8 40 40 72 (omega (arith, size)) (omega (arith, size))
      ∙ (slice-skip (u64_le (from_le (slice d 32 40))) _ 0 32 8 40
            (omega (arith, length-le_bytes 8 (from_le (slice d 32 40))))
            (omega (arith, length-le_bytes 8 (from_le (slice d 32 40))))
          ∙ slice-here (slice d 40 72) _ 32 (length-slice d 40 72 (omega arith) (omega arith)))

  pub state-unlock :
      80 ≤ length d
      → AreBytes d
      → i64_from_le (slice (state_bytes key d bump) 72 80) ≡ i64_from_le (slice d 72 80)
  state-unlock long bytes =
      let width : length (slice d 40 72) ≡ 32 = length-slice d 40 72 (omega arith) (omega arith) in
      let unlock : ℤ = i64_from_le (slice d 72 80) in
      ap i64_from_le (
        slice-skip key _ 40 48 72 80 (omega (arith, size)) (omega (arith, size))
        ∙ (slice-skip (u64_le (from_le (slice d 32 40))) _ 32 40 40 48
              (omega (arith, length-le_bytes 8 (from_le (slice d 32 40))))
              (omega (arith, length-le_bytes 8 (from_le (slice d 32 40))))
            ∙ (slice-skip (slice d 40 72) _ 0 8 32 40 (omega (arith, width)) (omega (arith, width))
                ∙ slice-here (i64_le unlock) (bump ∷ []) 8 (length-i64_le unlock))))
      ∙ i64_from_le-i64_le unlock (
          IsI64-i64_from_le (slice d 72 80) (AreBytes-slice d 72 80 bytes)
            (length-slice d 72 80 (omega arith) long))

  pub length-state : 80 ≤ length d → length (state_bytes key d bump) ≡ 81
  length-state long = simp (
    length-append,
    size,
    length-slice d 40 72 (omega arith) (omega arith),
    length-le_bytes,
    length-i64_le,
  )
