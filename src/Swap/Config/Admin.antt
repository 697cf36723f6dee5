-- ===== src/Swap/Config/Admin.antt =====
-- Who may change the policy, and what a change leaves (swap/src/config.rs).
use xete_programs.Base.{
  refl, [], ◌∷◌, slice-drop, ℕ, ◌≤◌, ◌≡◌, sym, ap, ap₂, ◌∙◌, true, not, ◌||◌, ◌==◌, List, [], ◌∷◌,
  ◌++◌, Bytes, length, slice, take, drop, differs, length-take, length-drop, length-slice,
  length-append, take-append-drop, drop-drop, arith, differs-false, eq_of_not_ne, ltb-false,
  or_false, Bool-cases, inl, inr,
}
use xete_programs.Base.Words.{from_le}
use xete_programs.Chain.Result.{ok}
use xete_programs.Chain.Types.{Pubkey, AccountInfo, Ledger, Runtime, World, set_account}
use xete_programs.Chain.Action.{after_lift, after_reads, after_fail_if, after_fail_when}
use xete_programs.Chain.Writes.{
  copy_all, copy_all-layout, set_contents, write_fields-inv, values, concat, layout,
}
use xete_programs.Swap.Layout.{config_len}
use xete_programs.Swap.Config.Policy.{config_seed}
use xete_programs.Swap.Config.{update_accounts, update_config, policy_fields, admin_check}

-- What an update of the policy has checked and written.
abbrev pub Updated : Runtime → Pubkey → List AccountInfo → Bytes → (w w' : World) → Type 0
Updated rt program_id accounts d w w' =
    (admin config : AccountInfo) × (update_accounts accounts ≡ ok (admin, config))
    × (length d ≡ 75)
    × (from_le (slice d 32 34) ≤ 10000)
    × (admin.is_signer ≡ true)
    × ((w.ledger config.key).owner ≡ program_id)
    × ((rt.find_program_address (config_seed ∷ []) program_id).0 ≡ config.key)
    × (length (w.ledger config.key).contents ≡ 108)
    × (slice (w.ledger config.key).contents 0 32 ≡ admin.key)
    × (w' ≡ record w {
      ledger = set_account w.ledger config.key (
          set_contents (w.ledger config.key) (
            take 32 (w.ledger config.key).contents
            ++ (d ++ drop 107 (w.ledger config.key).contents)));
    })

admin_check-inv :
    (admin config : AccountInfo) (l : Ledger)
    → admin_check admin config l ≡ ok tt
    → (length (l config.key).contents ≡ config_len)
      × (slice (l config.key).contents 0 32 ≡ admin.key)
admin_check-inv admin config l h =
    elim (Bool-cases (
      not (length (l config.key).contents == config_len)
      || differs (slice (l config.key).contents 0 32) admin.key)) [
        | inl y ↦ absurd (ground (arith, rw y at h))
        | inr n ↦ let (x, z) = or_false _ _ n in (eq_of_not_ne _ _ x, differs-false _ _ z)
      ]

policy-layout : (d : Bytes) → length d ≡ 75 → layout 32 (values (policy_fields d)) ≡ policy_fields d
policy-layout d h = simp (
  length-slice d 0 32 (omega arith) (omega (arith, h)),
  length-slice d 32 34 (omega arith) (omega (arith, h)),
  length-slice d 34 42 (omega arith) (omega (arith, h)),
  length-slice d 42 74 (omega arith) (omega (arith, h)),
)

length-policy : (d : Bytes) → length d ≡ 75 → length (concat (values (policy_fields d))) ≡ 75
length-policy d h = simp (
  length-append,
  length-slice d 0 32 (omega arith) (omega (arith, h)),
  length-slice d 32 34 (omega arith) (omega (arith, h)),
  length-slice d 34 42 (omega arith) (omega (arith, h)),
  length-slice d 42 74 (omega arith) (omega (arith, h)),
  length-slice d 74 75 (omega arith) (omega (arith, h)),
)

-- The fields, in their order, are the payload.
policy-payload : (d : Bytes) → length d ≡ 75 → concat (values (policy_fields d)) ≡ d
policy-payload d h =
    let end : drop 75 d ≡ [] =
      empty_of_length (drop 75 d) (length-drop {0} 75 d ∙ omega (arith, h)) in
    ap
      (λ t.
        slice d 0 32
        ++ (slice d 32 34 ++ (slice d 34 42 ++ (slice d 42 74 ++ (slice d 74 75 ++ t)))))
      (sym end)
    ∙ (ap (λ t. slice d 0 32 ++ (slice d 32 34 ++ (slice d 34 42 ++ (slice d 42 74 ++ t))))
          (slice-drop d 74 75 (omega arith))
        ∙ (ap (λ t. slice d 0 32 ++ (slice d 32 34 ++ (slice d 34 42 ++ t)))
              (slice-drop d 42 74 (omega arith))
            ∙ (ap (λ t. slice d 0 32 ++ (slice d 32 34 ++ t)) (slice-drop d 34 42 (omega arith))
                ∙ (ap (λ t. slice d 0 32 ++ t) (slice-drop d 32 34 (omega arith))
                    ∙ slice-drop d 0 32 (omega arith)))))
  where
    empty_of_length : (x : Bytes) → length x ≡ 0 → x ≡ []
    empty_of_length [] e = refl
    empty_of_length (b ∷ bs) e = absurd (omega (arith, e))

policy-written :
    (d c : Bytes)
    → length d ≡ 75
    → length c ≡ config_len
    → copy_all (policy_fields d) c ≡ ok (take 32 c ++ (d ++ drop 107 c))
policy-written d c h k =
    let vs = values (policy_fields d) in
    let head : length (take 32 c) ≡ 32 = length-take 32 c (omega (arith, k)) in
    ap₂ (λ (fs : List (ℕ × Bytes)) (x : Bytes). copy_all fs x)
      (sym (policy-layout d h) ∙ ap (λ n. layout n vs) (sym head)) (sym (take-append-drop 32 c))
    ∙ (copy_all-layout vs (take 32 c) (drop 32 c)
          (omega (arith, length-policy d h, k, length-drop {0} 32 c))
        ∙ ap (λ t. ok (take 32 c ++ (concat vs ++ t)))
            (ap (λ n. drop n (drop 32 c)) (length-policy d h) ∙ drop-drop 32 75 c)
        ∙ ap (λ t. ok (take 32 c ++ (t ++ drop 107 c))) (policy-payload d h))

-- An update of the policy that goes through: the payload has 75 bytes and at most 10000 basis points,
-- at 32 and 33; the admin that the policy stores signed; the account is the program's, at its one
-- address, of 108 bytes. The payload, as it is, replaces the bytes from 32 to 106, between the admin's
-- key and the bump, which stay; no other account changes and no call is made.
pub update_config_by_admin :
    (rt : Runtime) (program_id : Pubkey) (accounts : List AccountInfo) (d : Bytes) (w w' : World)
    → update_config rt program_id accounts d w ≡ ok (tt, w')
    → Updated rt program_id accounts d w w'
unfolding update_config
update_config_by_admin rt program_id accounts d w w' h = after_fail_if _ _ _ w h λ c1 h1.
    after_fail_if _ _ _ w h1 λ c2 h2. after_lift _ _ w h2 λ p ep h3.
      after_fail_if _ _ _ w h3 λ c3 h4. after_fail_when _ _ _ w h4 λ c4 h5.
        after_fail_if _ _ _ w h5 λ c5 h6. after_reads _ _ w h6 λ u ea h7.
          let framed = eq_of_not_ne _ _ c1 in
          let (sized, mine) = admin_check-inv p.0 p.1 w.ledger ea in
          let (out, run, written) = write_fields-inv p.1.key (policy_fields d) w h7 in
          let exact = policy-written d (w.ledger p.1.key).contents framed sized in
          let same : out
              ≡ take 32 (w.ledger p.1.key).contents ++ (d ++ drop 107 (w.ledger p.1.key).contents) =
            ground (arith, run, exact) in
          (
            p.0,
            p.1,
            ep,
            framed,
            ltb-false _ _ c2,
            ground (arith, c3),
            differs-false _ _ c4,
            differs-false _ _ c5,
            sized,
            mine,
            written
                ∙ ap
                    (λ b. record w {
                      ledger = set_account w.ledger p.1.key (set_contents (w.ledger p.1.key) b);
                    })
                    same,
          )
