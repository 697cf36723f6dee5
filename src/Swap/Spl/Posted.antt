-- ===== src/Swap/Spl/Posted.antt =====
-- What `open_swap` stores is what a fill reads (swap/src/swap.rs).
use xete_programs.Base.{
  ◌^◌, false, ℕ, ◌<◌, ◌≡◌, ◌≢◌, sym, ap, ◌∙◌, subst, List, [], ◌∷◌, ◌++◌, Bytes, length, slice,
  drop, replicate, length-slice, arith, length-append, append_assoc, append-nil, eq_of_not_ne, ◌⊎◌,
  length-replicate,
}
use xete_programs.Base.Int.{ℤ, ◌<ℤ◌}
use xete_programs.Base.Words.{
  u64_mod, u64_le, i64_le, from_le, i64_from_le, AreBytes, AreBytes-slice, from_le-lt,
  IsI64-i64_from_le, length-le_bytes, length-i64_le,
}
use xete_programs.Chain.Result.{ok}
use xete_programs.Chain.Types.{
  Pubkey, Account, AccountInfo, Ledger, Runtime, World, CreatesAccounts, set_account_self,
}
use xete_programs.Chain.Action.{after_bind, after_lift, after_reads, after_fail_if, log, lift-ok}
use xete_programs.Chain.Keeps.{KeepsData}
use xete_programs.Chain.Writes.{
  concat, values, copy_all, AreAdjacent, copy_all-adjacent, write_fields-inv, set_contents,
}
use xete_programs.Swap.Layout.{
  s_maker, s_give_mint, s_give_amt, s_want_mint, s_want_amt, s_taker, s_terms, s_expiry, s_status,
  s_bump, s_nonce, swap_len, status_open,
}
use xete_programs.Swap.Checks.{any_nonzero}
use xete_programs.Swap.Events.{PostCreated, emit_post_created}
use xete_programs.Swap.Cpi.Calls.{
  create_pda-inv, create_pda-Kept, token_init-Kept, token_transfer-Kept,
}
use xete_programs.Swap.Settle.Load.{load_fill_state}
use xete_programs.Swap.Settle.Posted.{Post, IsPost, post_values, fill_state, load_fill_state_posted}
use xete_programs.Swap.Spl.Checks.{swap_seed}
use xete_programs.Swap.Spl.{OpenAccounts, open_accounts, open_swap}

-- The post that a payload makes of the accounts.
abbrev pub post_of : OpenAccounts → Bytes → ℕ → Post
post_of a d bump = record {
  maker = a.maker.key;
  give = a.give_mint.key;
  give_amount = from_le (slice d 32 40);
  want = a.want_mint.key;
  want_amount = from_le (slice d 40 48);
  taker = slice d 88 120;
  terms = slice d 48 80;
  expiry = i64_from_le (slice d 80 88);
  bump = bump;
  nonce = slice d 0 32;
}

word_of :
    (d : Bytes) (a b : ℕ) → AreBytes d → length (slice d a b) ≡ 8 → from_le (slice d a b) < u64_mod
word_of d a b h e =
    subst (λ n. from_le (slice d a b) < 256 ^ n) e
      (from_le-lt (slice d a b) (AreBytes-slice d a b h))

post_of-IsPost :
    (a : OpenAccounts) (d : Bytes) (bump : ℕ)
    → length a.maker.key ≡ 32
    → length a.give_mint.key ≡ 32
    → length a.want_mint.key ≡ 32
    → length d ≡ 120
    → AreBytes d
    → IsPost (post_of a d bump)
post_of-IsPost a d bump m g w size bytes = record {
  maker = m;
  give = g;
  give_amount = word_of d 32 40 bytes (length-slice d 32 40 (omega arith) (omega (arith, size)));
  want = w;
  want_amount = word_of d 40 48 bytes (length-slice d 40 48 (omega arith) (omega (arith, size)));
  taker = length-slice d 88 120 (omega arith) (omega (arith, size));
  terms = length-slice d 48 80 (omega arith) (omega (arith, size));
  expiry =
      IsI64-i64_from_le (slice d 80 88) (AreBytes-slice d 80 88 bytes)
        (length-slice d 80 88 (omega arith) (omega (arith, size)));
  nonce = length-slice d 0 32 (omega arith) (omega (arith, size));
}

emit-ledger :
    (e : PostCreated) (w : World) {x : Unit {0} × World}
    → emit_post_created e w ≡ ok x
    → x.1.ledger ≡ w.ledger
unfolding emit_post_created log
emit-ledger e w h = ground (arith, h)

-- The fields that `open_swap` writes of a post.
abbrev post_fields : Post → List (ℕ × Bytes)
post_fields p =
    (s_maker, p.maker)
    ∷ (s_give_mint, p.give)
    ∷ (s_give_amt, u64_le p.give_amount)
    ∷ (s_want_mint, p.want)
    ∷ (s_want_amt, u64_le p.want_amount)
    ∷ (s_taker, p.taker)
    ∷ (s_terms, p.terms)
    ∷ (s_expiry, i64_le p.expiry)
    ∷ (s_status, status_open ∷ [])
    ∷ (s_bump, p.bump ∷ [])
    ∷ (s_nonce, p.nonce)
    ∷ []

-- Written into an account of zeros, they leave the two royalty bytes zero.
laid_out :
    (p : Post)
    → IsPost p
    → (out : Bytes) → copy_all (post_fields p) (replicate swap_len 0) ≡ ok out
    → out ≡ concat (post_values p) ++ []
laid_out p h out run =
    let n : length (concat (values (post_fields p))) ≡ 218 = simp (
      length-append, h.maker, h.give, h.want, h.taker, h.terms, h.nonce, length-le_bytes,
      length-i64_le,
    ) in
    let adjacent : AreAdjacent 0 (post_fields p) = omega (
      arith,
      h.maker,
      h.give,
      length-le_bytes 8 p.give_amount,
      h.want,
      length-le_bytes 8 p.want_amount,
      h.taker,
      h.terms,
      length-i64_le p.expiry,
    ) in
    let all =
      copy_all-adjacent (post_fields p) (replicate swap_len 0) adjacent
        (omega (arith, n, length-replicate {A = ℕ} swap_len 0)) in
    let is_out : out
        ≡ concat (values (post_fields p))
          ++ drop (length (concat (values (post_fields p)))) (replicate swap_len 0) =
      ground (arith, run, all) in
    is_out
    ∙ (ap (λ m. concat (values (post_fields p)) ++ drop m (replicate swap_len 0)) n
        ∙ simp (append_assoc, append-nil))

module _ (rt : Runtime) (creates : CreatesAccounts rt) (program_id : Pubkey)
    (keep : KeepsData rt program_id) where
  -- The swap account of a new swap.
  abbrev pub Opened : OpenAccounts → Bytes → Ledger → Type 0
  Opened a d l =
      ((l a.swap.key).owner ≡ program_id)
      × ((l a.swap.key).contents
          ≡ concat (
              post_values (
                post_of a d
                  (rt.find_program_address (swap_seed ∷ a.maker.key ∷ slice d 0 32 ∷ [])
                    program_id).1))
            ++ [])

  open_swap-Opened :
      (accounts : List AccountInfo) (d : Bytes) (a : OpenAccounts) (w w' : World)
      → open_accounts accounts ≡ ok a
      → length a.maker.key ≡ 32
      → length a.give_mint.key ≡ 32
      → length a.want_mint.key ≡ 32
      → AreBytes d
      → a.token_prog.key ≢ program_id
      → a.vault.key ≢ a.swap.key
      → open_swap rt program_id accounts d w ≡ ok (tt, w')
      → (length d ≡ 120) × Opened a d w'.ledger
  unfolding open_swap
  open_swap-Opened accounts d a w w' ea lm lg lw bytes foreign apart h =
      after_fail_if _ _ _ w h λ c1 h1.
        after_fail_if _ _ _ w (sym (lift-ok _ _ w a ea) ∙ h1) λ c2 h3.
          after_fail_if _ _ _ w h3 λ c3 h4. after_lift _ _ w h4 λ now en h5.
            after_fail_if _ _ _ w h5 λ c4 h6. after_reads _ _ w h6 λ u1 er h7.
              after_fail_if _ _ _ w h7 λ c5 h8. after_fail_if _ _ _ w h8 λ c6 h9.
                after_bind _ _ w h9 λ u2 w1 ec h10. after_bind _ _ w1 h10 λ u3 w2 ee h11.
                  after_reads _ _ w2 h11 λ u4 ep h12. after_bind _ _ w2 h12 λ u5 w3 ev h13.
                    after_bind _ _ w3 h13 λ u6 w4 ei h14. after_reads _ _ w4 h14 λ dec ed h15.
                      after_bind _ _ w4 h15 λ u7 w5 et h16.
                        let k = a.swap.key in
                        let size : length d ≡ 120 = eq_of_not_ne _ _ c1 in
                        let (lamports, _, called, _) =
                          create_pda-inv rt a.maker a.swap a.system swap_len program_id _ w ec in
                        let made = creates _ _ _ _ _ _ _ _ _ called in
                        let fresh : w2.ledger k ≡ record {
                          lamports = lamports;
                          owner = program_id;
                          contents = replicate swap_len 0;
                        } =
                          ap (λ (l : Ledger). l k) (emit-ledger _ w1 ee) ∙ made in
                        let own2 : (w2.ledger k).owner ≡ program_id =
                          ap (λ (x : Account). x.owner) fresh in
                        let kept3 =
                          create_pda-Kept rt program_id keep k a.maker a.vault a.system _ _ _ w2
                            apart own2 ev in
                        let kept4 =
                          token_init-Kept rt program_id keep k a.token_prog a.vault a.give_mint k w3
                            foreign kept3.1 ei in
                        let kept5 =
                          token_transfer-Kept rt program_id keep a.token_prog foreign k a.maker_give
                            a.give_mint a.vault a.maker _ dec _ w4 kept4.1 et in
                        let zeros : (w5.ledger k).contents ≡ replicate swap_len 0 =
                          kept5.0
                          ∙ (kept4.0 ∙ (kept3.0 ∙ ap (λ (x : Account). x.contents) fresh)) in
                        let p =
                          post_of a d
                            (rt.find_program_address (swap_seed ∷ a.maker.key ∷ slice d 0 32 ∷ [])
                              program_id).1 in
                        let (out, copied, after) = write_fields-inv k _ w5 h16 in
                        let laid : out ≡ concat (post_values p) ++ [] =
                          laid_out p (post_of-IsPost a d p.bump lm lg lw size bytes) out
                            (ap (copy_all (post_fields p)) (sym zeros) ∙ copied) in
                        let now_is : w'.ledger k ≡ set_contents (w5.ledger k) out =
                          ap (λ (v : World). v.ledger k) after ∙ set_account_self w5.ledger k _ in
                        (
                          size,
                          (
                            ap (λ (x : Account). x.owner) now_is ∙ unfold set_contents in kept5.1,
                            ap (λ (x : Account). x.contents) now_is ∙ unfold set_contents in laid,
                          ),
                        )

  -- When `create_account` does what it documents and other programs leave the data of this
  -- program's accounts alone: a swap that was opened, for keys of 32 bytes, a payload of bytes, a
  -- token program other than this one and a vault apart from the swap, is read by a fill with the
  -- terms of its payload, on every ledger that keeps its data, at every clock before its expiry,
  -- by every taker that it does not shut out.
  pub open_swap_read_back :
      (accounts : List AccountInfo) (d : Bytes) (a : OpenAccounts) (w w' : World) (later : Runtime)
      (now : ℤ) (taker : Pubkey) (l : Ledger)
      → open_accounts accounts ≡ ok a
      → length a.maker.key ≡ 32
      → length a.give_mint.key ≡ 32
      → length a.want_mint.key ≡ 32
      → AreBytes d
      → a.token_prog.key ≢ program_id
      → a.vault.key ≢ a.swap.key
      → open_swap rt program_id accounts d w ≡ ok (tt, w')
      → (l a.swap.key).contents ≡ (w'.ledger a.swap.key).contents
      → later.unix_timestamp ≡ ok now
      → now <ℤ i64_from_le (slice d 80 88)
      → (any_nonzero (slice d 88 120) ≡ false) ⊎ (slice d 88 120 ≡ taker)
      → load_fill_state later a.swap a.give_mint.key a.want_mint.key taker l
        ≡ ok (
            fill_state (
              post_of a d
                (rt.find_program_address
                  (swap_seed ∷ a.maker.key ∷ slice d 0 32 ∷ [])
                  program_id).1))
  open_swap_read_back accounts d a w w' later now taker l ea lm lg lw bytes foreign apart h kept
        clock before named =
      let (size, (_, stored)) =
        open_swap-Opened accounts d a w w' ea lm lg lw bytes foreign apart h in
      let p =
        post_of a d
          (rt.find_program_address (swap_seed ∷ a.maker.key ∷ slice d 0 32 ∷ []) program_id).1 in
      load_fill_state_posted later a.swap p taker l now
        (post_of-IsPost a d p.bump lm lg lw size bytes) (kept ∙ stored) clock before named
