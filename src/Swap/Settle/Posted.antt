-- ===== src/Swap/Settle/Posted.antt =====
-- A post as it lies in a state account, and as a fill reads it back (swap/src/settle.rs).
use xete_programs.Base.{
  ℕ, ◌+◌, ◌<◌, ◌≡◌, ap, ◌∙◌, Bool, false, not, ◌||◌, ◌&&◌, ◌==◌, [], ◌∷◌, ◌++◌, List, Bytes, length,
  slice, get_or, differs, differs_of_eq, arith, ◌⊎◌, inl, inr, length-append,
}
use xete_programs.Base.Int.{ℤ, ◌<ℤ◌, leb_ℤ}
use xete_programs.Base.Words.{
  u64_mod, u64_le, i64_le, i64_from_le, IsI64, length-le_bytes, length-i64_le, from_le-u64_le,
  i64_from_le-i64_le,
}
use xete_programs.Chain.Result.{ok, bind-ok, fail_if-ok}
use xete_programs.Chain.Types.{Pubkey, AccountInfo, Ledger, Runtime}
use xete_programs.Chain.Decode.{arr32, arr32_of_length}
use xete_programs.Chain.Fields.{offset, slice_field, get_or-slice}
use xete_programs.Chain.Writes.{concat}
use xete_programs.Swap.Layout.{
  s_maker, s_give_mint, s_give_amt, s_want_mint, s_want_amt, s_taker, s_expiry, s_status, s_bump,
  s_royalty_mode, s_maker_pct, swap_len, status_open, royalty_none,
}
use xete_programs.Swap.Checks.{any_nonzero}
use xete_programs.Swap.Settle.Load.{FillState, load_fill_state}

-- The terms of a post without a royalty.
pub record Post : Type 0 where
  pub maker : Pubkey
  pub give : Pubkey
  pub give_amount : ℕ
  pub want : Pubkey
  pub want_amount : ℕ
  pub taker : Bytes
  pub terms : Bytes
  pub expiry : ℤ
  pub bump : ℕ
  pub nonce : Bytes

-- Terms that the types of the source can hold.
pub record IsPost (p : Post) : Type 0 where
  pub maker : length p.maker ≡ 32
  pub give : length p.give ≡ 32
  pub give_amount : p.give_amount < u64_mod
  pub want : length p.want ≡ 32
  pub want_amount : p.want_amount < u64_mod
  pub taker : length p.taker ≡ 32
  pub terms : length p.terms ≡ 32
  pub expiry : IsI64 p.expiry
  pub nonce : length p.nonce ≡ 32

-- The fields side by side; the last two are the royalty mode and the maker's share.
abbrev pub post_values : Post → List Bytes
post_values p =
    p.maker
    ∷ p.give
    ∷ u64_le p.give_amount
    ∷ p.want
    ∷ u64_le p.want_amount
    ∷ p.taker
    ∷ p.terms
    ∷ i64_le p.expiry
    ∷ (status_open ∷ [])
    ∷ (p.bump ∷ [])
    ∷ p.nonce
    ∷ (royalty_none ∷ [])
    ∷ (0 ∷ [])
    ∷ []

-- What a fill must find of it.
abbrev pub fill_state : Post → FillState
fill_state p = record {
  maker = p.maker;
  give_amount = p.give_amount;
  want_amount = p.want_amount;
  bump = p.bump;
  royalty_mode = royalty_none;
  maker_pct = 0;
}

module _ (p : Post) (h : IsPost p) (s : Bytes) (e : s ≡ concat (post_values p) ++ []) where
  field :
      (j a b : ℕ)
      → j < 13
      → offset (post_values p) j ≡ a
      → offset (post_values p) j + length (get_or (post_values p) j []) ≡ b
      → slice s a b ≡ get_or (post_values p) j []
  field j a b k ea eb = ap (λ x. slice x a b) e ∙ slice_field (post_values p) [] j a b k ea eb

  length-post : length s ≡ swap_len
  length-post =
      ap length e
      ∙ simp (
        length-append, h.maker, h.give, h.want, h.taker, h.terms, h.nonce, length-le_bytes,
        length-i64_le,
      )

  at_maker : slice s s_maker (s_maker + 32) ≡ p.maker
  at_maker =
      field 0 0 32 (omega arith)
        (omega (
          arith,
          h.maker,
          h.give,
          h.want,
          h.taker,
          h.terms,
          h.nonce,
          length-le_bytes 8 p.give_amount,
          length-le_bytes 8 p.want_amount,
          length-i64_le p.expiry,
        ))
        (omega (
          arith,
          h.maker,
          h.give,
          h.want,
          h.taker,
          h.terms,
          h.nonce,
          length-le_bytes 8 p.give_amount,
          length-le_bytes 8 p.want_amount,
          length-i64_le p.expiry,
        ))

  at_give : slice s s_give_mint (s_give_mint + 32) ≡ p.give
  at_give =
      field 1 32 64 (omega arith)
        (omega (
          arith,
          h.maker,
          h.give,
          h.want,
          h.taker,
          h.terms,
          h.nonce,
          length-le_bytes 8 p.give_amount,
          length-le_bytes 8 p.want_amount,
          length-i64_le p.expiry,
        ))
        (omega (
          arith,
          h.maker,
          h.give,
          h.want,
          h.taker,
          h.terms,
          h.nonce,
          length-le_bytes 8 p.give_amount,
          length-le_bytes 8 p.want_amount,
          length-i64_le p.expiry,
        ))

  at_give_amount : slice s s_give_amt (s_give_amt + 8) ≡ u64_le p.give_amount
  at_give_amount =
      field 2 64 72 (omega arith)
        (omega (
          arith,
          h.maker,
          h.give,
          h.want,
          h.taker,
          h.terms,
          h.nonce,
          length-le_bytes 8 p.give_amount,
          length-le_bytes 8 p.want_amount,
          length-i64_le p.expiry,
        ))
        (omega (
          arith,
          h.maker,
          h.give,
          h.want,
          h.taker,
          h.terms,
          h.nonce,
          length-le_bytes 8 p.give_amount,
          length-le_bytes 8 p.want_amount,
          length-i64_le p.expiry,
        ))

  at_want : slice s s_want_mint (s_want_mint + 32) ≡ p.want
  at_want =
      field 3 72 104 (omega arith)
        (omega (
          arith,
          h.maker,
          h.give,
          h.want,
          h.taker,
          h.terms,
          h.nonce,
          length-le_bytes 8 p.give_amount,
          length-le_bytes 8 p.want_amount,
          length-i64_le p.expiry,
        ))
        (omega (
          arith,
          h.maker,
          h.give,
          h.want,
          h.taker,
          h.terms,
          h.nonce,
          length-le_bytes 8 p.give_amount,
          length-le_bytes 8 p.want_amount,
          length-i64_le p.expiry,
        ))

  at_want_amount : slice s s_want_amt (s_want_amt + 8) ≡ u64_le p.want_amount
  at_want_amount =
      field 4 104 112 (omega arith)
        (omega (
          arith,
          h.maker,
          h.give,
          h.want,
          h.taker,
          h.terms,
          h.nonce,
          length-le_bytes 8 p.give_amount,
          length-le_bytes 8 p.want_amount,
          length-i64_le p.expiry,
        ))
        (omega (
          arith,
          h.maker,
          h.give,
          h.want,
          h.taker,
          h.terms,
          h.nonce,
          length-le_bytes 8 p.give_amount,
          length-le_bytes 8 p.want_amount,
          length-i64_le p.expiry,
        ))

  at_taker : slice s s_taker (s_taker + 32) ≡ p.taker
  at_taker =
      field 5 112 144 (omega arith)
        (omega (
          arith,
          h.maker,
          h.give,
          h.want,
          h.taker,
          h.terms,
          h.nonce,
          length-le_bytes 8 p.give_amount,
          length-le_bytes 8 p.want_amount,
          length-i64_le p.expiry,
        ))
        (omega (
          arith,
          h.maker,
          h.give,
          h.want,
          h.taker,
          h.terms,
          h.nonce,
          length-le_bytes 8 p.give_amount,
          length-le_bytes 8 p.want_amount,
          length-i64_le p.expiry,
        ))

  at_expiry : slice s s_expiry (s_expiry + 8) ≡ i64_le p.expiry
  at_expiry =
      field 7 176 184 (omega arith)
        (omega (
          arith,
          h.maker,
          h.give,
          h.want,
          h.taker,
          h.terms,
          h.nonce,
          length-le_bytes 8 p.give_amount,
          length-le_bytes 8 p.want_amount,
          length-i64_le p.expiry,
        ))
        (omega (
          arith,
          h.maker,
          h.give,
          h.want,
          h.taker,
          h.terms,
          h.nonce,
          length-le_bytes 8 p.give_amount,
          length-le_bytes 8 p.want_amount,
          length-i64_le p.expiry,
        ))

  at_status : slice s s_status (s_status + 1) ≡ status_open ∷ []
  at_status =
      field 8 184 185 (omega arith)
        (omega (
          arith,
          h.maker,
          h.give,
          h.want,
          h.taker,
          h.terms,
          h.nonce,
          length-le_bytes 8 p.give_amount,
          length-le_bytes 8 p.want_amount,
          length-i64_le p.expiry,
        ))
        (omega (
          arith,
          h.maker,
          h.give,
          h.want,
          h.taker,
          h.terms,
          h.nonce,
          length-le_bytes 8 p.give_amount,
          length-le_bytes 8 p.want_amount,
          length-i64_le p.expiry,
        ))

  at_bump : slice s s_bump (s_bump + 1) ≡ p.bump ∷ []
  at_bump =
      field 9 185 186 (omega arith)
        (omega (
          arith,
          h.maker,
          h.give,
          h.want,
          h.taker,
          h.terms,
          h.nonce,
          length-le_bytes 8 p.give_amount,
          length-le_bytes 8 p.want_amount,
          length-i64_le p.expiry,
        ))
        (omega (
          arith,
          h.maker,
          h.give,
          h.want,
          h.taker,
          h.terms,
          h.nonce,
          length-le_bytes 8 p.give_amount,
          length-le_bytes 8 p.want_amount,
          length-i64_le p.expiry,
        ))

  at_mode : slice s s_royalty_mode (s_royalty_mode + 1) ≡ royalty_none ∷ []
  at_mode =
      field 11 218 219 (omega arith)
        (omega (
          arith,
          h.maker,
          h.give,
          h.want,
          h.taker,
          h.terms,
          h.nonce,
          length-le_bytes 8 p.give_amount,
          length-le_bytes 8 p.want_amount,
          length-i64_le p.expiry,
        ))
        (omega (
          arith,
          h.maker,
          h.give,
          h.want,
          h.taker,
          h.terms,
          h.nonce,
          length-le_bytes 8 p.give_amount,
          length-le_bytes 8 p.want_amount,
          length-i64_le p.expiry,
        ))

  at_pct : slice s s_maker_pct (s_maker_pct + 1) ≡ 0 ∷ []
  at_pct =
      field 12 219 220 (omega arith)
        (omega (
          arith,
          h.maker,
          h.give,
          h.want,
          h.taker,
          h.terms,
          h.nonce,
          length-le_bytes 8 p.give_amount,
          length-le_bytes 8 p.want_amount,
          length-i64_le p.expiry,
        ))
        (omega (
          arith,
          h.maker,
          h.give,
          h.want,
          h.taker,
          h.terms,
          h.nonce,
          length-le_bytes 8 p.give_amount,
          length-le_bytes 8 p.want_amount,
          length-i64_le p.expiry,
        ))

open_post :
    (n m : ℕ)
    → n ≡ swap_len
    → m ≡ status_open
    → (not (n == swap_len) || not (m == status_open)) ≡ false
open_post n m h k = ground arith

or_both : (a b : Bool) → a ≡ false → b ≡ false → (a || b) ≡ false
or_both a b h k = ground arith

in_time : (now expiry : ℤ) → now <ℤ expiry → leb_ℤ expiry now ≡ false
in_time now expiry h = ground arith

for_taker :
    (t k : Bytes) → (any_nonzero t ≡ false) ⊎ (t ≡ k) → (any_nonzero t && differs t k) ≡ false
for_taker t k (inl h) = rw h
for_taker t k (inr h) = let d : differs t k ≡ false = differs_of_eq t k h in ground (arith, d)

-- A fill reads the terms of the post back, while the clock is before its expiry, for a taker that
-- the post does not shut out.
pub load_fill_state_posted :
    (rt : Runtime) (state : AccountInfo) (p : Post) (taker : Pubkey) (l : Ledger) (now : ℤ)
    → IsPost p
    → (l state.key).contents ≡ concat (post_values p) ++ []
    → rt.unix_timestamp ≡ ok now
    → now <ℤ p.expiry
    → (any_nonzero p.taker ≡ false) ⊎ (p.taker ≡ taker)
    → load_fill_state rt state p.give p.want taker l ≡ ok (fill_state p)
unfolding load_fill_state
load_fill_state_posted rt state p taker l now h e clock before named =
    let s = (l state.key).contents in
    let expiry : i64_from_le (slice s s_expiry (s_expiry + 8)) ≡ p.expiry =
      ap i64_from_le (at_expiry p h s e) ∙ i64_from_le-i64_le p.expiry h.expiry in
    fail_if-ok _ _ _ (
      open_post _ _ (length-post p h s e) (get_or-slice s s_status status_open (at_status p h s e)))
    ∙ (fail_if-ok _ _ _
          (or_both _ _ (differs_of_eq _ _ (at_give p h s e)) (differs_of_eq _ _ (at_want p h s e)))
        ∙ (bind-ok _ _ now clock
            ∙ (fail_if-ok _ _ _ (ap (λ z. leb_ℤ z now) expiry ∙ in_time now p.expiry before)
                ∙ (fail_if-ok _ _ _ (
                      ap (λ t. any_nonzero t && differs t taker) (at_taker p h s e)
                      ∙ for_taker p.taker taker named)
                    ∙ (bind-ok _ _ p.maker
                          (ap arr32 (at_maker p h s e) ∙ arr32_of_length p.maker h.maker)
                        ∙ ap ok (
                            simp (
                              at_give_amount p h s e,
                              at_want_amount p h s e,
                              from_le-u64_le p.give_amount h.give_amount,
                              from_le-u64_le p.want_amount h.want_amount,
                              get_or-slice s s_bump p.bump (at_bump p h s e),
                              get_or-slice s s_royalty_mode royalty_none (at_mode p h s e),
                              get_or-slice s s_maker_pct 0 (at_pct p h s e),
                            )))))))
