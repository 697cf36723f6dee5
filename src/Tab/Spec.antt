-- ===== src/Tab/Spec.antt =====
-- The guards of a claim and of a reclaim of the settlement program, as conditions on the payload,
-- the accounts and the clock.
use xete_programs.Base.{
  ◌+◌, ◌≤◌, ◌<◌, ◌≡◌, ◌∙◌, ap, sym, false, List, [], ◌∷◌, Bytes, length, slice, differs,
  differs-false, differs_self, differs_of_eq, true, length-slice, arith,
}
use xete_programs.Base.Int.{ℤ, ◌≤ℤ◌}
use xete_programs.Base.Words.{from_le, i64_from_le, u64_mod}
use xete_programs.Chain.Result.{
  ok, after_bind, after_fail_if, bind-ok, fail_if-ok, fail_if, illegal_owner,
}
use xete_programs.Chain.Types.{Pubkey, AccountInfo, Ledger, Runtime}
use xete_programs.Chain.Decode.{index-ok, index_of_le, arr32-ok, arr32_of_length}
use xete_programs.Tab.{seed, two_accounts, verify_pda, opened_unlock, check_depositor}

-- The salt of a claim's payload.
abbrev pub salt_of : Bytes → Bytes
salt_of d = slice d 36 (36 + from_le (slice d 32 36))

-- The account stands at the address derived from the payload's id, and the program owns it.
pub record IsSettlement (rt : Runtime) (program_id : Pubkey) (d : Bytes) (s : AccountInfo)
    (l : Ledger) : Type 0 where
  pub address : (rt.find_program_address (seed ∷ slice d 0 32 ∷ []) program_id).0 ≡ s.key
  pub owned : (l s.key).owner ≡ program_id

-- The claimant's key and salt open the commitment that the account stores.
pub record Opens (rt : Runtime) (b s : AccountInfo) (salt : Bytes) (l : Ledger) : Type 0 where
  pub sized : 80 ≤ length (l s.key).contents
  pub commitment : rt.hashv (b.key ∷ salt ∷ []) ≡ slice (l s.key).contents 40 72

pub record Claimable (rt : Runtime) (program_id : Pubkey) (b s : AccountInfo) (d : Bytes)
    (l : Ledger) : Type 0 where
  pub framed : 36 + from_le (slice d 32 36) ≤ length d
  pub signed : b.is_signer ≡ true
  pub settlement : IsSettlement rt program_id d s l
  pub opens : Opens rt b s (salt_of d) l
  pub now : ℤ
  pub clock : rt.unix_timestamp ≡ ok now
  pub unlocked : i64_from_le (slice (l s.key).contents 72 80) ≤ℤ now
  pub fits : (l b.key).lamports + (l s.key).lamports < u64_mod

pub record Reclaimable (rt : Runtime) (program_id : Pubkey) (b s : AccountInfo) (d : Bytes)
    (l : Ledger) : Type 0 where
  pub framed : length d ≡ 32
  pub signed : b.is_signer ≡ true
  pub settlement : IsSettlement rt program_id d s l
  pub sized : 32 ≤ length (l s.key).contents
  pub depositor : slice (l s.key).contents 0 32 ≡ b.key
  pub fits : (l b.key).lamports + (l s.key).lamports < u64_mod

pub two_accounts-ok :
    (xs : List AccountInfo) {p : AccountInfo × AccountInfo}
    → two_accounts xs ≡ ok p
    → xs ≡ p.0 ∷ p.1 ∷ []
unfolding two_accounts
two_accounts-ok [] h = cc
two_accounts-ok (a ∷ []) h = cc
two_accounts-ok (a ∷ b ∷ []) {p} h = ground arith
two_accounts-ok (a ∷ b ∷ c ∷ r) h = cc

module _ (rt : Runtime) (program_id : Pubkey) (d : Bytes) (s : AccountInfo) (l : Ledger) where
  pub verify_pda-inv :
      verify_pda rt program_id s (slice d 0 32) l ≡ ok tt → IsSettlement rt program_id d s l
  unfolding verify_pda fail_if
  verify_pda-inv h = after_fail_if _ _ _ h λ c h1. record {
    address = differs-false _ _ c;
    owned =
        differs-false _ _ (let e : differs (l s.key).owner program_id ≡ false = ground arith in e);
  }

  pub verify_pda-ok :
      IsSettlement rt program_id d s l → verify_pda rt program_id s (slice d 0 32) l ≡ ok tt
  unfolding verify_pda fail_if
  verify_pda-ok h =
      fail_if-ok _ _ _ (differs_of_eq _ _ h.address)
      ∙ ap (λ c. fail_if c illegal_owner) (differs_of_eq _ _ h.owned)

module _ (rt : Runtime) (b s : AccountInfo) (salt : Bytes) (l : Ledger) where
  pub opened_unlock-inv :
      {u : ℤ}
      → opened_unlock rt b s salt l ≡ ok u
      → Opens rt b s salt l × (u ≡ i64_from_le (slice (l s.key).contents 72 80))
  unfolding opened_unlock
  opened_unlock-inv {u} h = after_bind _ _ h λ v ev h1. after_bind _ _ h1 λ stored es h2.
      after_fail_if _ _ _ h2 λ c h3. after_bind _ _ h3 λ v4 eu h4.
        let commit = index-ok _ _ _ ev in
        let unlock = index-ok _ _ _ eu in
        (
          record {
            sized = unlock.1;
            commitment = differs-false _ _ c ∙ ((arr32-ok v es).0 ∙ commit.0);
          },
          sym (let e : i64_from_le v4 ≡ u = ground arith in e) ∙ ap i64_from_le unlock.0,
        )

  pub opened_unlock-ok :
      Opens rt b s salt l
      → opened_unlock rt b s salt l ≡ ok (i64_from_le (slice (l s.key).contents 72 80))
  unfolding opened_unlock
  opened_unlock-ok h =
      let contents = (l s.key).contents in
      let inside : 72 ≤ length contents = omega (arith, h.sized) in
      bind-ok _ _ _ (index_of_le contents 40 72 inside)
      ∙ (bind-ok _ _ _ (arr32_of_length _ (length-slice contents 40 72 (omega arith) inside))
          ∙ (fail_if-ok _ _ _ (differs_of_eq _ _ h.commitment)
              ∙ bind-ok _ _ _ (index_of_le contents 72 80 h.sized)))

module _ (b s : AccountInfo) (l : Ledger) where
  pub check_depositor-inv :
      check_depositor b s l ≡ ok tt
      → (32 ≤ length (l s.key).contents) × (slice (l s.key).contents 0 32 ≡ b.key)
  unfolding check_depositor fail_if
  check_depositor-inv h = after_bind _ _ h λ v ev h1.
      let stored = index-ok _ _ _ ev in
      (
        stored.1,
        sym stored.0 ∙ differs-false _ _ (let e : differs v b.key ≡ false = ground arith in e),
      )

  pub check_depositor-ok :
      32 ≤ length (l s.key).contents
      → slice (l s.key).contents 0 32 ≡ b.key
      → check_depositor b s l ≡ ok tt
  unfolding check_depositor fail_if
  check_depositor-ok h k =
      rw (bind-ok _ _ _ (index_of_le (l s.key).contents 0 32 h), k, differs_self b.key)
