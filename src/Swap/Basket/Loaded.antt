-- ===== src/Swap/Basket/Loaded.antt =====
-- What the checks on a basket establish (swap/src/basket.rs).
use xete_programs.Base.Int.{ℤ, ◌≤ℤ◌, ◌<ℤ◌, ltb_ℤ_false, leb_ℤ_false}
use xete_programs.Swap.Checks.{any_nonzero}
use xete_programs.Swap.Order.Checked.{named_taker}
use xete_programs.Base.{
  ◌⊎◌, false, ℕ, ◌+◌, ◌*◌, ◌≡◌, sym, ap, ap₂, ◌∙◌, [], ◌∷◌, Bytes, length, get_or, differs-false,
  slice, arith, or_false, eq_of_not_ne, ◌==◌,
}
use xete_programs.Base.Words.{i64_from_le, from_le}
use xete_programs.Chain.Result.{ok, after_bind, after_fail_if, fail_if-inv}
use xete_programs.Chain.Types.{Pubkey, AccountInfo, Ledger, Runtime}
use xete_programs.Chain.Decode.{arr32-ok, index-ok}
use xete_programs.Swap.Layout.{
  b_maker, b_give, b_want, b_claim_auth, b_expiry, b_taker, b_want_count, auth_normal, b_auth_mode,
  b_status, basket_len, entry, status_open, auth_bearer,
}
use xete_programs.Swap.Basket.Checks.{
  Entry, read_entry, bvault_seed, check_bvault, check_open, basket_state, load_claim_basket,
  load_expired_basket, load_fill_basket, load_rewrap, load_cancel_basket, BasketState,
}

-- The entry at an offset of the data `s`.
abbrev pub entry_at : Bytes → ℕ → Entry
entry_at s o = record { mint = slice s o (o + 32); amount = from_le (slice s (o + 32) (o + 40)) }

-- Entry `i` of the give basket in the data `s`.
abbrev pub give_entry : Bytes → ℕ → Entry
give_entry s i = entry_at s (b_give + i * entry)

-- Entry `j` of the want basket in the data `s`.
abbrev pub want_entry : Bytes → ℕ → Entry
want_entry s j = entry_at s (b_want + j * entry)

pub read_entry-at :
    (swap : AccountInfo) (o : ℕ) (l : Ledger) {e : Entry}
    → read_entry swap o l ≡ ok e
    → e ≡ entry_at (l swap.key).contents o
unfolding read_entry
read_entry-at swap o l {e} h = after_bind _ _ h λ m em h1. after_bind _ _ h1 λ mint ea h2.
    after_bind _ _ h2 λ amount eb h3.
      let mint_is = (arr32-ok m ea).0 ∙ (index-ok _ _ _ em).0 in
      let amount_is = (index-ok _ _ _ eb).0 in
      let same : record { mint = mint; amount = from_le amount } ≡ e = ground (arith, h3) in
      sym same
      ∙ ap₂ (λ (x : Pubkey) (y : Bytes). record { mint = x; amount = from_le y }) mint_is amount_is

pub check_bvault-ok :
    (rt : Runtime) (program_id : Pubkey) (maker nonce : Bytes) (i : ℕ) (vault : AccountInfo)
    {pda : Pubkey × ℕ}
    → check_bvault rt program_id maker nonce i vault ≡ ok pda
    → (rt.find_program_address (bvault_seed ∷ maker ∷ nonce ∷ (i ∷ []) ∷ []) program_id).0
      ≡ vault.key
unfolding check_bvault
check_bvault-ok rt program_id maker nonce i vault h =
    after_fail_if _ _ _ h λ c h1. differs-false _ _ c

-- An open basket of a mode, by the data of its account.
abbrev pub IsOpen : Bytes → Type 0
IsOpen s = (length s ≡ basket_len) × (get_or s b_status 0 ≡ status_open)

check_open-IsOpen : (s : Bytes) → check_open s ≡ ok tt → IsOpen s
unfolding check_open
check_open-IsOpen s h =
    let (a, b) = or_false _ _ (fail_if-inv _ _ h) in (eq_of_not_ne _ _ a, eq_of_not_ne _ _ b)

pub load_claim_basket-bearer :
    (rt : Runtime) (swap bearer : AccountInfo) (l : Ledger) {st : BasketState}
    → load_claim_basket rt swap bearer l ≡ ok st
    → IsOpen (l swap.key).contents
      × (get_or (l swap.key).contents b_auth_mode 0 ≡ auth_bearer)
      × (slice (l swap.key).contents b_claim_auth (b_claim_auth + 32) ≡ rt.hashv (bearer.key ∷ []))
      × (st
          ≡ basket_state (l swap.key).contents (slice (l swap.key).contents b_maker (b_maker + 32)))
unfolding load_claim_basket
load_claim_basket-bearer rt swap bearer l {st} h = after_bind _ _ h λ u eo h1.
    after_fail_if _ _ _ h1 λ c1 h2. after_fail_if _ _ _ h2 λ c2 h3. after_bind _ _ h3 λ maker em h4.
      let same : basket_state (l swap.key).contents maker ≡ st = ground (arith, h4) in
      (
        check_open-IsOpen _ eo,
        eq_of_not_ne _ _ c1,
        differs-false _ _ c2,
        sym same ∙ ap (basket_state (l swap.key).contents) (arr32-ok _ em).0,
      )

pub load_cancel_basket-mine :
    (swap maker : AccountInfo) (l : Ledger) {st : BasketState}
    → load_cancel_basket swap maker l ≡ ok st
    → IsOpen (l swap.key).contents
      × ((get_or (l swap.key).contents b_auth_mode 0 == auth_bearer) ≡ false)
      × (slice (l swap.key).contents b_maker (b_maker + 32) ≡ maker.key)
      × (st ≡ basket_state (l swap.key).contents maker.key)
unfolding load_cancel_basket
load_cancel_basket-mine swap maker l {st} h = after_bind _ _ h λ u eo h1.
    after_fail_if _ _ _ h1 λ c1 h2.
      after_fail_if _ _ _ h2
        λ c2 h3. (check_open-IsOpen _ eo, c1, differs-false _ _ c2, ground (arith, h3))

pub load_expired_basket-late :
    (rt : Runtime) (swap : AccountInfo) (l : Ledger) {st : BasketState}
    → load_expired_basket rt swap l ≡ ok st
    → IsOpen (l swap.key).contents
      × ((get_or (l swap.key).contents b_auth_mode 0 == auth_bearer) ≡ false)
      × (now : ℤ) × (rt.unix_timestamp ≡ ok now)
      × (i64_from_le (slice (l swap.key).contents b_expiry (b_expiry + 8)) ≤ℤ now)
      × (st
          ≡ basket_state (l swap.key).contents (slice (l swap.key).contents b_maker (b_maker + 32)))
unfolding load_expired_basket
load_expired_basket-late rt swap l {st} h = after_bind _ _ h λ u eo h1.
    after_fail_if _ _ _ h1 λ c1 h2. after_bind _ _ h2 λ now en h3. after_fail_if _ _ _ h3 λ c2 h4.
      after_bind _ _ h4 λ maker em h5.
        let same : basket_state (l swap.key).contents maker ≡ st = ground (arith, h5) in
        (
          check_open-IsOpen _ eo,
          c1,
          now,
          en,
          ltb_ℤ_false now (i64_from_le (slice (l swap.key).contents b_expiry (b_expiry + 8))) c2,
          sym same ∙ ap (basket_state (l swap.key).contents) (arr32-ok _ em).0,
        )

pub load_fill_basket-normal :
    (rt : Runtime) (swap taker : AccountInfo) (l : Ledger) {st : BasketState}
    → load_fill_basket rt swap taker l ≡ ok st
    → IsOpen (l swap.key).contents
      × (get_or (l swap.key).contents b_auth_mode 0 ≡ auth_normal)
      × ((get_or (l swap.key).contents b_want_count 0 == 0) ≡ false)
      × (now : ℤ) × (rt.unix_timestamp ≡ ok now)
      × (now <ℤ i64_from_le (slice (l swap.key).contents b_expiry (b_expiry + 8)))
      × ((any_nonzero (slice (l swap.key).contents b_taker (b_taker + 32)) ≡ false)
          ⊎ (slice (l swap.key).contents b_taker (b_taker + 32) ≡ taker.key))
      × (st
          ≡ basket_state (l swap.key).contents (slice (l swap.key).contents b_maker (b_maker + 32)))
unfolding load_fill_basket
load_fill_basket-normal rt swap taker l {st} h = after_bind _ _ h λ u eo h1.
    after_fail_if _ _ _ h1 λ c1 h2. after_fail_if _ _ _ h2 λ c2 h3. after_bind _ _ h3 λ now en h4.
      after_fail_if _ _ _ h4 λ c3 h5. after_fail_if _ _ _ h5 λ c4 h6.
        after_bind _ _ h6 λ maker em h7.
          let same : basket_state (l swap.key).contents maker ≡ st = ground (arith, h7) in
          (
            check_open-IsOpen _ eo,
            eq_of_not_ne _ _ c1,
            c2,
            now,
            en,
            leb_ℤ_false (i64_from_le (slice (l swap.key).contents b_expiry (b_expiry + 8))) now c3,
            named_taker _ _ c4,
            sym same ∙ ap (basket_state (l swap.key).contents) (arr32-ok _ em).0,
          )

pub load_rewrap-bearer :
    (rt : Runtime) (swap bearer : AccountInfo) (l : Ledger) {maker : Pubkey}
    → load_rewrap rt swap bearer l ≡ ok maker
    → IsOpen (l swap.key).contents
      × (get_or (l swap.key).contents b_auth_mode 0 ≡ auth_bearer)
      × (slice (l swap.key).contents b_claim_auth (b_claim_auth + 32) ≡ rt.hashv (bearer.key ∷ []))
unfolding load_rewrap
load_rewrap-bearer rt swap bearer l h = after_fail_if _ _ _ h λ c1 h1.
    after_fail_if _ _ _ h1 λ c2 h2.
      let (ab, c) = or_false _ _ c1 in
      let (a, b) = or_false _ _ ab in
      ((eq_of_not_ne _ _ a, eq_of_not_ne _ _ b), eq_of_not_ne _ _ c, differs-false _ _ c2)
