-- ===== src/Tab/Redemption.antt =====
-- That the stored terms of a deposit are the ones a claim is held to
-- (program/lean/src/lib.rs).
use xete_programs.Base.{
  ◌+◌, ◌≤◌, ◌<◌, ◌≡◌, ◌∙◌, ap, sym, subst, subst₂, [], ◌∷◌, Bytes, length, slice, arith, true,
}
use xete_programs.Base.Int.{ℤ, ◌≤ℤ◌}
use xete_programs.Base.Words.{from_le, i64_from_le, u64_mod, AreBytes}
use xete_programs.Chain.Result.{ok}
use xete_programs.Chain.Types.{
  Pubkey, Account, AccountInfo, Ledger, Runtime, World, CreatesAccounts,
}
use xete_programs.Chain.Sweep.{swept}
use xete_programs.Tab.Spec.{salt_of, Claimable}
use xete_programs.Tab.Payout.{claim-ok}
use xete_programs.Tab.{seed, deposit, claim}
use xete_programs.Tab.Funding.{
  Deposited, deposit-Deposited, state_bytes, state-commitment, state-unlock, length-state,
}

same_pair :
    {f s t f' s' t' : AccountInfo} → f ∷ s ∷ t ∷ [] ≡ f' ∷ s' ∷ t' ∷ [] → (f' ≡ f) × (s' ≡ s)
same_pair e = (cc, cc)

-- What a deposit's account still needs for a claim: the claimant's salt opens the commitment of
-- the deposit, the unlock time of the deposit has come, and the sum fits.
pub record Redeems (rt : Runtime) (b : AccountInfo) (d d' : Bytes) (l : Ledger) : Type 0 where
  pub same_id : slice d' 0 32 ≡ slice d 0 32
  pub framed : 36 + from_le (slice d' 32 36) ≤ length d'
  pub signed : b.is_signer ≡ true
  pub commitment : rt.hashv (b.key ∷ salt_of d' ∷ []) ≡ slice d 40 72
  pub now : ℤ
  pub clock : rt.unix_timestamp ≡ ok now
  pub unlocked : i64_from_le (slice d 72 80) ≤ℤ now
  pub fits : (l b.key).lamports + from_le (slice d 32 40) < u64_mod

Deposited-Claimable :
    (rt : Runtime) (program_id : Pubkey) (f s b : AccountInfo) (d d' : Bytes) (l : Ledger)
    → length f.key ≡ 32
    → AreBytes d
    → Deposited rt program_id f s d l
    → Redeems rt b d d' l
    → Claimable rt program_id b s d' l
Deposited-Claimable rt program_id f s b d d' l size bytes dep r =
    let long : 80 ≤ length d = omega (arith, dep.framed) in
    let stored : (l s.key).contents ≡ state_bytes f.key d _ =
      ap (λ (x : Account). x.contents) dep.account in
    record {
      framed = r.framed;
      signed = r.signed;
      settlement = record {
        address =
            ap (λ i. (rt.find_program_address (seed ∷ i ∷ []) program_id).0) r.same_id
            ∙ dep.address;
        owned = ap (λ (x : Account). x.owner) dep.account;
      };
      opens = record {
        sized = omega (arith, ap length stored, length-state f.key d _ size long);
        commitment =
            r.commitment
            ∙ (sym (state-commitment f.key d _ size long) ∙ ap (λ c. slice c 40 72) (sym stored));
      };
      now = r.now;
      clock = r.clock;
      unlocked =
          subst (λ z. z ≤ℤ r.now)
            (sym (state-unlock f.key d _ size long bytes)
              ∙ ap (λ c. i64_from_le (slice c 72 80)) (sym stored))
            r.unlocked;
      fits =
          subst (λ n. (l b.key).lamports + n < u64_mod)
            (sym (ap (λ (x : Account). x.lamports) dep.account)) r.fits;
    }

-- Where create_account does what the system program documents: after a deposit under a 32-byte
-- depositor key and a payload of bytes, the holder of a salt that opens the deposit's commitment
-- can claim at any time from the deposit's unlock time on (if the sum fits in 64 bits), and the
-- claim sweeps the settlement account to them.
pub deposit_then_claim :
    (rt : Runtime) (program_id : Pubkey) (f s sys b : AccountInfo) (d d' : Bytes) (w w' : World)
    → CreatesAccounts rt
    → length f.key ≡ 32
    → AreBytes d
    → deposit rt program_id (f ∷ s ∷ sys ∷ []) d w ≡ ok (tt, w')
    → Redeems rt b d d' w'.ledger
    → claim rt program_id (b ∷ s ∷ []) d' w'
      ≡ ok (tt, record w' { ledger = swept s.key b.key w'.ledger })
deposit_then_claim rt program_id f s sys b d d' w w' creates size bytes h r =
    let g = deposit-Deposited rt creates program_id (f ∷ s ∷ sys ∷ []) d w w' h in
    let e : (g.0 ≡ f) × (g.1 ≡ s) = same_pair g.3 in
    let dep : Deposited rt program_id f s d w'.ledger =
      subst₂ (λ x y. length x.key ≡ 32 → Deposited rt program_id x y d w'.ledger) e.0 e.1 g.4
        size in
    claim-ok rt program_id d' b s w'
      (Deposited-Claimable rt program_id f s b d d' w'.ledger size bytes dep r)
