-- ===== src/Swap/Spl/Loaded.antt =====
-- What the swap account says when a handler of the 1:1 swap has read it (swap/src/swap.rs,
-- swap/src/settle.rs).
use xete_programs.Base.{
  ◌⊎◌, false, [], ◌∷◌, Option, some, none, get_or, differs, ℕ, ◌+◌, ◌≡◌, ◌≢◌, sym, ap, ◌∙◌, subst,
  Bytes, length, slice, arith, differs-false, or_false, eq_of_not_ne, slice-replicate,
  length-replicate, replicate,
}
use xete_programs.Base.Int.{ℤ, pos, ◌≤ℤ◌, ◌<ℤ◌, leb_ℤ_false, ltb_ℤ_false}
use xete_programs.Base.Words.{from_le, i64_from_le}
use xete_programs.Chain.Result.{
  Result, ok, err, invalid_seeds, after_bind, after_fail_if, fail_if-inv, ◌>>◌,
  fail_if as refuse_if,
}
use xete_programs.Chain.Types.{Pubkey, AccountInfo, Ledger, Runtime}
use xete_programs.Chain.Decode.{arr32-ok}
use xete_programs.Swap.Layout.{
  s_expiry, s_maker, s_give_amt, s_give_mint, s_want_mint, s_want_amt, s_taker, s_status, s_bump,
  s_royalty_mode, s_maker_pct, status_open, swap_len,
}
use xete_programs.Swap.Checks.{any_nonzero}
use xete_programs.Swap.Order.Checked.{named_taker}
use xete_programs.Swap.Settle.Load.{FillState, load_fill_state}
use xete_programs.Swap.Spl.Checks.{
  RefundState, load_cancel_state, load_expired_state, swap_seed, vault_seed, verify_swap_pdas,
}

-- The expiry that the swap account stores.
abbrev pub stored_expiry : Bytes → ℤ
stored_expiry s = i64_from_le (slice s s_expiry (s_expiry + 8))

pub load_fill_state-before :
    (rt : Runtime) (state : AccountInfo) (give want taker : Pubkey) (l : Ledger) {st : FillState}
    → load_fill_state rt state give want taker l ≡ ok st
    → (now : ℤ) × (rt.unix_timestamp ≡ ok now)
      × (now <ℤ stored_expiry (l state.key).contents)
      × (length (l state.key).contents ≡ swap_len)
unfolding load_fill_state
load_fill_state-before rt state give want taker l h = after_fail_if _ _ _ h λ c1 h1.
    after_fail_if _ _ _ h1 λ c2 h2. after_bind _ _ h2 λ now en h3. after_fail_if _ _ _ h3 λ c3 h4. (
      now,
      en,
      leb_ℤ_false (stored_expiry (l state.key).contents) now c3,
      eq_of_not_ne _ _ (or_false _ _ c1).0,
    )

-- A resting swap or listing that this taker can fill: the account has the layout's length, is open, of
-- these mints, before its expiry, and names no taker or this one; `st` is what it stores.
pub record IsResting (rt : Runtime) (state : AccountInfo) (give want taker : Pubkey) (l : Ledger)
    (st : FillState) : Type 0 where
  pub sized : length (l state.key).contents ≡ swap_len
  pub opened : get_or (l state.key).contents s_status 0 ≡ status_open
  pub give_mint : slice (l state.key).contents s_give_mint (s_give_mint + 32) ≡ give
  pub want_mint : slice (l state.key).contents s_want_mint (s_want_mint + 32) ≡ want
  pub now : ℤ
  pub clock : rt.unix_timestamp ≡ ok now
  pub early : now <ℤ stored_expiry (l state.key).contents
  pub named :
      (any_nonzero (slice (l state.key).contents s_taker (s_taker + 32)) ≡ false)
      ⊎ (slice (l state.key).contents s_taker (s_taker + 32) ≡ taker)
  pub stored : st ≡ record {
    maker = slice (l state.key).contents s_maker (s_maker + 32);
    give_amount = from_le (slice (l state.key).contents s_give_amt (s_give_amt + 8));
    want_amount = from_le (slice (l state.key).contents s_want_amt (s_want_amt + 8));
    bump = get_or (l state.key).contents s_bump 0;
    royalty_mode = get_or (l state.key).contents s_royalty_mode 0;
    maker_pct = get_or (l state.key).contents s_maker_pct 0;
  }

pub load_fill_state-IsResting :
    (rt : Runtime) (state : AccountInfo) (give want taker : Pubkey) (l : Ledger) {st : FillState}
    → load_fill_state rt state give want taker l ≡ ok st
    → IsResting rt state give want taker l st
unfolding load_fill_state
load_fill_state-IsResting rt state give want taker l {st} h = after_fail_if _ _ _ h λ c1 h1.
    after_fail_if _ _ _ h1 λ c2 h2. after_bind _ _ h2 λ now en h3. after_fail_if _ _ _ h3 λ c3 h4.
      after_fail_if _ _ _ h4 λ c4 h5. after_bind _ _ h5 λ maker em h6.
        let (sized, opened) = or_false _ _ c1 in
        let (give_is, want_is) = or_false _ _ c2 in
        let s = (l state.key).contents in
        let state_of : Pubkey → FillState = λ m. record {
          maker = m;
          give_amount = from_le (slice s s_give_amt (s_give_amt + 8));
          want_amount = from_le (slice s s_want_amt (s_want_amt + 8));
          bump = get_or s s_bump 0;
          royalty_mode = get_or s s_royalty_mode 0;
          maker_pct = get_or s s_maker_pct 0;
        } in
        let same : state_of maker ≡ st = ground (arith, h6) in
        record {
          sized = eq_of_not_ne _ _ sized;
          opened = eq_of_not_ne _ _ opened;
          give_mint = differs-false _ _ give_is;
          want_mint = differs-false _ _ want_is;
          now = now;
          clock = en;
          early = leb_ℤ_false (stored_expiry s) now c3;
          named = named_taker _ _ c4;
          stored = sym same ∙ ap state_of (arr32-ok _ em).0;
        }

-- An open swap of this mint; `st` is what it stores.
abbrev pub IsRefundable : (s : Bytes) (give : Pubkey) (st : RefundState) → Type 0
IsRefundable s give st =
    (length s ≡ swap_len)
    × (get_or s s_status 0 ≡ status_open)
    × (slice s s_give_mint (s_give_mint + 32) ≡ give)
    × (st ≡ record {
      maker = slice s s_maker (s_maker + 32);
      give_amount = from_le (slice s s_give_amt (s_give_amt + 8));
      bump = get_or s s_bump 0;
    })

-- The fields of a swap's data, for a given maker.
abbrev refund_state : Bytes → Pubkey → RefundState
refund_state s m = record {
  maker = m;
  give_amount = from_le (slice s s_give_amt (s_give_amt + 8));
  bump = get_or s s_bump 0;
}

pub load_expired_state-after :
    (rt : Runtime) (swap give_mint : AccountInfo) (l : Ledger) {st : RefundState}
    → load_expired_state rt swap give_mint l ≡ ok st
    → IsRefundable (l swap.key).contents give_mint.key st
      × (now : ℤ) × (rt.unix_timestamp ≡ ok now)
      × (stored_expiry (l swap.key).contents ≤ℤ now)
unfolding load_expired_state
load_expired_state-after rt swap give_mint l {st} h = after_fail_if _ _ _ h λ c1 h1.
    after_fail_if _ _ _ h1 λ c2 h2. after_bind _ _ h2 λ now en h3. after_fail_if _ _ _ h3 λ c3 h4.
      after_bind _ _ h4 λ maker em h5.
        let (sized, opened) = or_false _ _ c1 in
        let same : refund_state (l swap.key).contents maker ≡ st = ground (arith, h5) in
        (
          (
            eq_of_not_ne _ _ sized,
            eq_of_not_ne _ _ opened,
            differs-false _ _ c2,
            sym same ∙ ap (refund_state (l swap.key).contents) (arr32-ok _ em).0,
          ),
          now,
          en,
          ltb_ℤ_false now (stored_expiry (l swap.key).contents) c3,
        )

pub load_cancel_state-mine :
    (swap maker give_mint : AccountInfo) (l : Ledger) {st : RefundState}
    → load_cancel_state swap maker give_mint l ≡ ok st
    → IsRefundable (l swap.key).contents give_mint.key st
      × (slice (l swap.key).contents s_maker (s_maker + 32) ≡ maker.key)
unfolding load_cancel_state
load_cancel_state-mine swap maker give_mint l {st} h = after_fail_if _ _ _ h λ c1 h1.
    after_fail_if _ _ _ h1 λ c2 h2. after_fail_if _ _ _ h2 λ c3 h3.
      let (sized, opened) = or_false _ _ c1 in
      let same : refund_state (l swap.key).contents maker.key ≡ st = ground (arith, h3) in
      let mine = differs-false _ _ c2 in
      (
        (
          eq_of_not_ne _ _ sized,
          eq_of_not_ne _ _ opened,
          differs-false _ _ c3,
          sym same ∙ ap (refund_state (l swap.key).contents) (sym mine),
        ),
        mine,
      )

-- The swap stands at the address of its maker, nonce and stored bump, and the vault at its own.
abbrev pub StandsAt :
    Runtime → Pubkey → (swap vault : Pubkey) → (maker nonce : Bytes) → (bump : ℕ) → Type 0
StandsAt rt program_id swap vault maker nonce bump =
    (rt.create_program_address (swap_seed ∷ maker ∷ nonce ∷ (bump ∷ []) ∷ []) program_id
      ≡ some swap)
    × ((rt.find_program_address (vault_seed ∷ maker ∷ nonce ∷ []) program_id).0 ≡ vault)

pub verify_swap_pdas-StandsAt :
    (rt : Runtime) (program_id : Pubkey) (swap vault : AccountInfo) (maker nonce : Bytes) (bump : ℕ)
    → verify_swap_pdas rt program_id swap vault maker nonce bump ≡ ok tt
    → StandsAt rt program_id swap.key vault.key maker nonce bump
unfolding verify_swap_pdas
verify_swap_pdas-StandsAt rt program_id swap vault maker nonce bump h =
    go (rt.create_program_address (swap_seed ∷ maker ∷ nonce ∷ (bump ∷ []) ∷ []) program_id) h
  where
    go :
        (o : Option Pubkey)
        → (elim o as (λ _. Result (Unit {0})) [
          | none ↦ err invalid_seeds
          | some swap_pda ↦
              refuse_if (differs swap_pda swap.key) invalid_seeds
              >> refuse_if
                  (differs
                    (rt.find_program_address (vault_seed ∷ maker ∷ nonce ∷ []) program_id).0
                    vault.key)
                  invalid_seeds
        ])
          ≡ ok tt
        → (o ≡ some swap.key)
          × ((rt.find_program_address (vault_seed ∷ maker ∷ nonce ∷ []) program_id).0 ≡ vault.key)
    go none q = cc
    go (some pda) q =
        after_fail_if _ _ _ q
          λ c1 q1. (ap (λ k. some k) (differs-false _ _ c1), differs-false _ _ (fail_if-inv _ _ q1))

-- An account of zeros, as a closed one is, is past its expiry at every clock from 0 on.
pub load_fill_state-wiped :
    (rt : Runtime) (state : AccountInfo) (give want taker : Pubkey) (l : Ledger) (n m : ℕ)
    {st : FillState}
    → (l state.key).contents ≡ replicate n 0
    → rt.unix_timestamp ≡ ok (pos m)
    → load_fill_state rt state give want taker l ≢ ok st
unfolding i64_from_le from_le
load_fill_state-wiped rt state give want taker l n m zeros clock h =
    let (now, en, before, sized) = load_fill_state-before rt state give want taker l h in
    let full : n ≡ swap_len = sym (length-replicate n 0) ∙ (ap length (sym zeros) ∙ sized) in
    let expiry : stored_expiry (l state.key).contents ≡ pos 0 =
      ap stored_expiry zeros
      ∙ ap i64_from_le
          (slice-replicate n s_expiry (s_expiry + 8) (omega arith) (omega (arith, full))) in
    let same : now ≡ pos m = ground (arith, en, clock) in
    let late : pos m <ℤ pos 0 =
      subst (λ z. pos m <ℤ z) expiry
        (subst (λ z. z <ℤ stored_expiry (l state.key).contents) same before) in
    omega (arith, late)
