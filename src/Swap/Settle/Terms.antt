-- ===== src/Swap/Settle/Terms.antt =====
-- What royalty terms the metadata of an asset can give (swap/src/settle.rs).
use xete_programs.Base.{
  ltb, ltb-false, eq_true, differs-false, ◌*◌, ◌/◌, Bool-cases, ◌==◌, ℕ, ◌≤◌, ◌<◌, ◌≡◌, refl, sym,
  ap, ◌∙◌, subst, List, [], ◌∷◌, Option, none, some, length, sum, take, arith, ◌⊎◌, inl, inr,
  length-take, eq_of_not_ne, suc,
}
use xete_programs.Base.Words.{u64_mod, as_u64}
use xete_programs.Chain.Result.{ok, err, ProgramError, after_bind, after_fail_if, fail_if-inv}
use xete_programs.Chain.Types.{Pubkey, AccountInfo, Runtime, Ledger}
use xete_programs.Swap.Layout.{royalty_none, royalty_maker, royalty_taker, royalty_split}
use xete_programs.Swap.Royalty.{max_creators, TmRoyalty, parse_tm_royalty}
use xete_programs.Swap.Royalty.Bounds.{parse_tm_royalty_bounds}
use xete_programs.Swap.Settle.Load.{
  bps_of, RoyaltyTerms, resolve_royalty, asset_terms, shares_of, metadata_seed, check_creator_atas,
  maker_share_of, verify_metadata_pda,
}
use xete_programs.Swap.Ids.{token_metadata_id}
use xete_programs.Swap.Checks.Facts.{IsTokenAccount, require_token_account-inv}

-- Royalty terms that can be paid out: there is nothing to pay, or every creator has an account and
-- the shares are one to five and sum to 100.
abbrev pub Payable : RoyaltyTerms → List AccountInfo → Type 0
Payable t atas =
    (t.royalty ≡ 0)
    ⊎ (t.royalty < u64_mod)
      × (length t.shares ≤ max_creators)
      × (sum t.shares ≡ 100)
      × (length atas ≡ length t.shares)

err_ok {ℓ} : {A : Type ℓ} (e : ProgramError) (a : A) → err e ≡ ok a → ⊥
err_ok e a h = cc

-- Each creator's account is the mint's token account of that creator.
abbrev pub AreCreatorAccounts : Pubkey → List (Pubkey × ℕ) → List AccountInfo → Ledger → Type 0
AreCreatorAccounts mint [] atas l = Unit
AreCreatorAccounts mint (c ∷ cs) [] l = Unit
AreCreatorAccounts mint ((creator, _) ∷ cs) (ca ∷ atas) l =
    IsTokenAccount ca mint creator l × AreCreatorAccounts mint cs atas l

-- The maker's part of a royalty: all of it, nothing, or the agreed percentage.
abbrev pub IsMakerShare : (mode pct royalty share : ℕ) → Type 0
IsMakerShare mode pct royalty share =
    ((mode ≡ royalty_maker) × (share ≡ royalty))
    ⊎ ((mode ≡ royalty_taker) × (share ≡ 0))
    ⊎ ((mode ≡ royalty_split) × (pct ≤ 100) × (share ≡ as_u64 (royalty * pct / 100)))

-- The terms that the metadata of the asset gives: the account is the metadata program's, at the address
-- of the asset's mint; the royalty is the declared part of the price; the shares are the declared ones
-- and sum to 100; there is one account for each creator, and it is the creator's.
pub record AreAssetTerms (rt : Runtime) (want_mint give_mint md : AccountInfo)
    (atas : List AccountInfo) (want_amount mode pct : ℕ) (l : Ledger) (t : RoyaltyTerms)
    : Type 0 where
  pub owned : (l md.key).owner ≡ token_metadata_id
  pub address :
      md.key
      ≡ (rt.find_program_address
          (metadata_seed ∷ token_metadata_id ∷ give_mint.key ∷ [])
          token_metadata_id).0
  pub declared : TmRoyalty
  pub parsed : parse_tm_royalty (l md.key).contents ≡ ok declared
  pub royalty : t.royalty ≡ bps_of want_amount declared.bps
  pub maker_share : IsMakerShare mode pct t.royalty t.maker_share
  pub shares : t.shares ≡ shares_of (take declared.count declared.creators)
  pub whole : sum t.shares ≡ 100
  pub counted : length atas ≡ declared.count
  pub creators : AreCreatorAccounts want_mint.key (take declared.count declared.creators) atas l

-- The royalty terms of a sale: nothing without a royalty mode, else those of the asset's metadata.
abbrev pub AreTerms :
    Runtime
    → (want_mint give_mint : AccountInfo) → Option AccountInfo
    → List AccountInfo
    → (want_amount mode pct : ℕ) → Ledger
    → RoyaltyTerms
    → Type 0
AreTerms rt want_mint give_mint metadata atas want_amount mode pct l t =
    ((mode ≡ royalty_none) × (t ≡ record { royalty = 0; maker_share = 0; shares = [] }))
    ⊎ ((md : AccountInfo) × (metadata ≡ some md)
        × AreAssetTerms rt want_mint give_mint md atas want_amount mode pct l t)

check_creator_atas-inv :
    (mint : Pubkey) (cs : List (Pubkey × ℕ)) (atas : List AccountInfo) (l : Ledger)
    → check_creator_atas mint cs atas l ≡ ok tt
    → AreCreatorAccounts mint cs atas l
unfolding check_creator_atas
check_creator_atas-inv mint [] atas l h = tt
check_creator_atas-inv mint (c ∷ cs) [] l h = tt
check_creator_atas-inv mint ((creator, _) ∷ cs) (ca ∷ atas) l h = after_bind _ _ h λ u e h1.
    (require_token_account-inv ca mint creator l e, check_creator_atas-inv mint cs atas l h1)

maker_share_of-inv :
    (mode pct royalty : ℕ) {share : ℕ}
    → maker_share_of mode pct royalty ≡ ok share
    → IsMakerShare mode pct royalty share
unfolding maker_share_of
maker_share_of-inv mode pct royalty {share} h = elim (Bool-cases (mode == royalty_maker)) [
  | inl a ↦ inl (eq_true _ _ a, ground (arith, rw a at h))
  | inr a ↦ elim (Bool-cases (mode == royalty_taker)) [
    | inl b ↦ inr (inl (eq_true _ _ b, ground (arith, rw (a, b) at h)))
    | inr b ↦ elim (Bool-cases (mode == royalty_split)) [
      | inl c ↦ elim (Bool-cases (ltb 100 pct)) [
        | inl e ↦ absurd (err_ok _ _ (rw (a, b, c, e) at h))
        | inr e ↦ inr (inr (eq_true _ _ c, ltb-false _ _ e, ground (arith, rw (a, b, c, e) at h)))
      ]
      | inr c ↦ absurd (err_ok _ _ (rw (a, b, c) at h))
    ]
  ]
]

verify_metadata_pda-inv :
    (rt : Runtime) (md mint : AccountInfo) (l : Ledger)
    → verify_metadata_pda rt md mint l ≡ ok tt
    → ((l md.key).owner ≡ token_metadata_id)
      × (md.key
          ≡ (rt.find_program_address
              (metadata_seed ∷ token_metadata_id ∷ mint.key ∷ [])
              token_metadata_id).0)
unfolding verify_metadata_pda
verify_metadata_pda-inv rt md mint l h =
    after_fail_if _ _ _ h λ c1 h1. (differs-false _ _ c1, differs-false _ _ (fail_if-inv _ _ h1))

asset_terms-AreAssetTerms :
    (rt : Runtime) (want_mint give_mint md : AccountInfo) (atas : List AccountInfo)
    (want_amount mode pct : ℕ) (l : Ledger) {t : RoyaltyTerms}
    → asset_terms rt want_mint give_mint md atas want_amount mode pct l ≡ ok t
    → AreAssetTerms rt want_mint give_mint md atas want_amount mode pct l t
unfolding asset_terms
asset_terms-AreAssetTerms rt wm gm md atas want_amount mode pct l {t} h1 =
    after_bind _ _ h1 λ u ev h2. after_bind _ _ h2 λ tm em h3. after_fail_if _ _ _ h3 λ c1 h4.
      after_fail_if _ _ _ h4 λ c2 h5. after_bind _ _ h5 λ share es h6.
        after_fail_if _ _ _ h6 λ c3 h7. after_bind _ _ h7 λ v ec h8.
          let (owned, address) = verify_metadata_pda-inv rt md gm l ev in
          let entries = take tm.count tm.creators in
          let terms : record {
            royalty = bps_of want_amount tm.bps;
            maker_share = share;
            shares = shares_of entries;
          }
              ≡ t =
            ground (arith, h8) in
          subst (λ (t : RoyaltyTerms). AreAssetTerms rt wm gm md atas want_amount mode pct l t)
            terms
            (record {
              owned = owned;
              address = address;
              declared = tm;
              parsed = em;
              royalty = refl;
              maker_share = maker_share_of-inv mode pct (bps_of want_amount tm.bps) es;
              shares = refl;
              whole = eq_of_not_ne _ _ c2;
              counted = eq_of_not_ne _ _ c3;
              creators = check_creator_atas-inv wm.key entries atas l ec;
            })

length-shares_of : (cs : List (Pubkey × ℕ)) → length (shares_of cs) ≡ length cs
length-shares_of [] = refl
length-shares_of ((_, _) ∷ cs) = ap suc (length-shares_of cs)

bps_of-lt : (amount bps : ℕ) → bps_of amount bps < u64_mod
bps_of-lt amount bps = omega arith

asset_terms-Payable :
    (rt : Runtime) (want_mint give_mint md : AccountInfo) (atas : List AccountInfo)
    (want_amount mode pct : ℕ) (l : Ledger) {t : RoyaltyTerms}
    → asset_terms rt want_mint give_mint md atas want_amount mode pct l ≡ ok t
    → Payable t atas
unfolding asset_terms
asset_terms-Payable rt wm gm md atas want_amount mode pct l {t} h1 = after_bind _ _ h1 λ u ev h2.
    after_bind _ _ h2 λ tm em h3. after_fail_if _ _ _ h3 λ c1 h4. after_fail_if _ _ _ h4 λ c2 h5.
      after_bind _ _ h5 λ share es h6. after_fail_if _ _ _ h6 λ c3 h7. after_bind _ _ h7 λ v ec h8.
        let read = parse_tm_royalty_bounds (l md.key).contents tm em in
        let entries = take tm.count tm.creators in
        let few : length entries ≡ tm.count =
          length-take tm.count tm.creators (omega (arith, read.1, read.2)) in
        let same : length (shares_of entries) ≡ tm.count = length-shares_of entries ∙ few in
        let terms : t ≡ record {
          royalty = bps_of want_amount tm.bps;
          maker_share = share;
          shares = shares_of entries;
        } =
          ground (arith, h8) in
        subst (λ (t : RoyaltyTerms). Payable t atas) (sym terms)
          (inr (
            bps_of-lt want_amount tm.bps,
            omega (arith, same, read.1),
            eq_of_not_ne _ _ c2,
            eq_of_not_ne _ _ c3 ∙ sym same,
          ))

pub resolve_royalty-Payable :
    (rt : Runtime) (want_mint give_mint : AccountInfo) (metadata : Option AccountInfo)
    (atas : List AccountInfo) (want_amount mode pct : ℕ) (l : Ledger) {t : RoyaltyTerms}
    → resolve_royalty rt want_mint give_mint metadata atas want_amount mode pct l ≡ ok t
    → Payable t atas
unfolding resolve_royalty
resolve_royalty-Payable rt wm gm none atas want_amount mode pct l h =
    elim (Bool-cases (mode == royalty_none)) [
      | inl c ↦ inl (ground (arith, rw c at h))
      | inr c ↦ absurd (err_ok _ _ (rw c at h))
    ]
resolve_royalty-Payable rt wm gm (some md) atas want_amount mode pct l {t} h =
    elim (Bool-cases (mode == royalty_none)) [
      | inl c ↦ inl (ground (arith, rw c at h))
      | inr c ↦ asset_terms-Payable rt wm gm md atas want_amount mode pct l (rw c at h)
    ]

pub resolve_royalty-AreTerms :
    (rt : Runtime) (want_mint give_mint : AccountInfo) (metadata : Option AccountInfo)
    (atas : List AccountInfo) (want_amount mode pct : ℕ) (l : Ledger) {t : RoyaltyTerms}
    → resolve_royalty rt want_mint give_mint metadata atas want_amount mode pct l ≡ ok t
    → AreTerms rt want_mint give_mint metadata atas want_amount mode pct l t
unfolding resolve_royalty
resolve_royalty-AreTerms rt wm gm none atas want_amount mode pct l h =
    elim (Bool-cases (mode == royalty_none)) [
      | inl c ↦ inl (eq_true _ _ c, ground (arith, rw c at h))
      | inr c ↦ absurd (err_ok _ _ (rw c at h))
    ]
resolve_royalty-AreTerms rt wm gm (some md) atas want_amount mode pct l {t} h =
    elim (Bool-cases (mode == royalty_none)) [
      | inl c ↦ inl (eq_true _ _ c, ground (arith, rw c at h))
      | inr c ↦
          inr (
            md,
            refl,
            asset_terms-AreAssetTerms rt wm gm md atas want_amount mode pct l (rw c at h),
          )
    ]
