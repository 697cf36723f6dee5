-- ===== src/Swap/Basket/Rewrapped.antt =====
-- Passing a bearer basket on: a new key's hash takes the place of the old one's (swap/src/basket.rs).
use xete_programs.Base.{
  ℕ, ◌≤◌, subst, eq_of_not_ne, length-slice, ◌+◌, ◌≡◌, ◌≢◌, sym, ap, ◌∙◌, true, List, [], ◌∷◌,
  Bytes, length, get_or, leb, leb-true, slice, slice-put, arith, put, Bool-cases, inl, inr,
}
use xete_programs.Chain.Result.{ok}
use xete_programs.Chain.Types.{
  Pubkey, Account, AccountInfo, Runtime, World, set_account_self, set_account_ne,
}
use xete_programs.Chain.Action.{after_lift, after_reads, after_fail_if, after_fail_when}
use xete_programs.Chain.Writes.{copy_all, write_fields-inv, set_contents}
use xete_programs.Swap.Layout.{b_claim_auth, b_auth_mode, auth_bearer}
use xete_programs.Swap.Basket.Loaded.{IsOpen, load_claim_basket-bearer, load_rewrap-bearer}
use xete_programs.Swap.Basket.{
  ClaimBearerAccounts, claim_bearer_accounts, claim_bearer, RewrapAccounts, rewrap_accounts, rewrap,
}

copy_all_one :
    (o : ℕ) (v s : Bytes) {d : Bytes}
    → copy_all ((o, v) ∷ []) s ≡ ok d
    → (d ≡ put s o v) × (o + length v ≤ length s)
unfolding copy_all
copy_all_one o v s h = elim (Bool-cases (leb (o + length v) (length s))) [
  | inl y ↦ (ground (arith, rw y at h), leb-true _ _ y)
  | inr n ↦ absurd (ground (arith, rw n at h))
]

-- What a rewrap has checked and changed: by the key whose hash `s` stores, the hash field alone.
abbrev pub Rewraps : Runtime → RewrapAccounts → (new_auth s : Bytes) → (w w' : World) → Type 0
Rewraps rt a new_auth s w w' =
    (a.bearer.is_signer ≡ true)
    × IsOpen s
    × (get_or s b_auth_mode 0 ≡ auth_bearer)
    × (slice s b_claim_auth (b_claim_auth + 32) ≡ rt.hashv (a.bearer.key ∷ []))
    × (w'.ledger a.swap.key ≡ set_contents (w.ledger a.swap.key) (put s b_claim_auth new_auth))
    × (slice (w'.ledger a.swap.key).contents b_claim_auth (b_claim_auth + 32) ≡ new_auth)
    × ((k : Pubkey) → a.swap.key ≢ k → w'.ledger k ≡ w.ledger k)
    × (w'.effects ≡ w.effects)

module _ (rt : Runtime) (program_id : Pubkey) where
  -- A rewrap that succeeds is signed by the key whose hash an open bearer basket stores. It puts
  -- the new hash in the place of the old one, where it is then read, keeps the rest of the
  -- basket's data and every other account, and makes no call.
  pub rewrap_by_bearer :
      (accounts : List AccountInfo) (d : Bytes) (a : RewrapAccounts) (w w' : World)
      → rewrap_accounts accounts ≡ ok a
      → rewrap rt program_id accounts d w ≡ ok (tt, w')
      → Rewraps rt a (slice d 32 64) (w.ledger a.swap.key).contents w w'
  unfolding rewrap
  rewrap_by_bearer accounts d a w w' ea h = after_fail_if _ _ _ w h λ c1 h1.
      after_fail_if _ _ _ w h1 λ c2 h2. after_lift _ _ w h2 λ a' ea' h3.
        after_fail_if _ _ _ w h3 λ c3 h4. after_fail_when _ _ _ w h4 λ c4 h5.
          after_reads _ _ w h5 λ maker em h6. after_lift _ _ w h6 λ pda ep h7.
            let same : a' ≡ a = cc in
            let (opened, bearer, hash) = load_rewrap-bearer rt a'.swap a'.bearer w.ledger em in
            let (s', copied, after) = write_fields-inv a'.swap.key _ w h7 in
            let (is_put, room) =
              copy_all_one b_claim_auth (slice d 32 64) (w.ledger a'.swap.key).contents copied in
            let wide : length (slice d 32 64) ≡ 32 =
              length-slice d 32 64 (omega arith) (omega (arith, eq_of_not_ne _ _ c1)) in
            let now : w'.ledger a'.swap.key
                ≡ set_contents (w.ledger a'.swap.key)
                    (put (w.ledger a'.swap.key).contents b_claim_auth (slice d 32 64)) =
              ap (λ (v : World). v.ledger a'.swap.key) after
              ∙ (set_account_self w.ledger a'.swap.key _
                  ∙ ap (set_contents (w.ledger a'.swap.key)) is_put) in
            subst
              (λ (v : RewrapAccounts).
                Rewraps rt v (slice d 32 64) (w.ledger v.swap.key).contents w w')
              same
              (
                ground (arith, c3),
                opened,
                bearer,
                hash,
                now,
                ap (λ (x : Account). slice x.contents b_claim_auth (b_claim_auth + 32)) now
                    ∙ unfold set_contents in
                      slice-put _ b_claim_auth (slice d 32 64) (b_claim_auth + 32) room
                        (omega (arith, wide)),
                λ k ne.
                    ap (λ (v : World). v.ledger k) after
                    ∙ set_account_ne w.ledger a'.swap.key k _ ne,
                ap (λ (v : World). v.effects) after,
              )

  -- After a rewrap that succeeds, a key whose hash is not the new one claims nothing of this
  -- basket.
  pub rewrap_locks_out :
      (accounts claimants : List AccountInfo) (d e : Bytes) (a : RewrapAccounts)
      (c : ClaimBearerAccounts) (w w' : World) (y : Unit {0} × World)
      → rewrap_accounts accounts ≡ ok a
      → claim_bearer_accounts claimants ≡ ok c
      → c.swap.key ≡ a.swap.key
      → rt.hashv (c.bearer.key ∷ []) ≢ slice d 32 64
      → rewrap rt program_id accounts d w ≡ ok (tt, w')
      → claim_bearer rt program_id claimants e w' ≢ ok y
  unfolding claim_bearer
  rewrap_locks_out accounts claimants d e a c w w' y ea ec at other h claimed =
      let (_, _, _, _, _, stored, _, _) = rewrap_by_bearer accounts d a w w' ea h in
      after_fail_if _ _ _ w' claimed λ c1 h1. after_lift _ _ w' h1 λ c' ec' h2.
        after_fail_if _ _ _ w' h2 λ c2 h3. after_fail_when _ _ _ w' h3 λ c3 h4.
          after_reads _ _ w' h4 λ st es h5.
            let same : c' ≡ c = cc in
            let (_, _, hash, _) = load_claim_basket-bearer rt c'.swap c'.bearer w'.ledger es in
            let hash_c : slice (w'.ledger c.swap.key).contents b_claim_auth (b_claim_auth + 32)
                ≡ rt.hashv (c.bearer.key ∷ []) =
              subst
                (λ (v : ClaimBearerAccounts).
                  slice (w'.ledger v.swap.key).contents b_claim_auth (b_claim_auth + 32)
                  ≡ rt.hashv (v.bearer.key ∷ []))
                same hash in
            other (
              sym hash_c
              ∙ (ap (λ k. slice (w'.ledger k).contents b_claim_auth (b_claim_auth + 32)) at
                  ∙ stored))
