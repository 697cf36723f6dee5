-- ===== src/Swap/Royalty/Bounds.antt =====
-- The royalty parser never panics, and what it returns is in bounds.
use xete_programs.Base.{
  ℕ, zero, suc, ◌+◌, ◌-◌, ◌*◌, ◌≤◌, ◌≡◌, List, [], Bytes, length, replicate, arith, ltb-false,
  leb-false, ◌==◌, length-append, length-replicate, Bool-cases, inl, inr,
}
use xete_programs.Base.Words.{from_le}
use xete_programs.Chain.Result.{ok, after_bind, after_fail_if}
use xete_programs.Chain.Types.{Pubkey}
use xete_programs.Chain.Panics.{
  NoPanic, ok-NoPanic, err-NoPanic, bind-NoPanic, fail_if-NoPanic, index-NoPanic, byte-NoPanic,
}
use xete_programs.Swap.Royalty.{
  TmRoyalty, walk_string, walk_strings, read_creators, read_creator_vec, read_creator_option,
  parse_tm_royalty, max_creators, no_creator,
}

walk_string-NoPanic : (d : Bytes) (o : ℕ) → NoPanic (walk_string d o)
unfolding walk_string
walk_string-NoPanic d o = fail_if-NoPanic _ _ λ c.
    bind-NoPanic _ _ (index-NoPanic d o (o + 4) (ltb-false _ _ c))
      λ b e. fail_if-NoPanic _ _ λ c2. fail_if-NoPanic _ _ λ c3. ok-NoPanic _

walk_strings-NoPanic : (n : ℕ) (d : Bytes) (o : ℕ) → NoPanic (walk_strings n d o)
unfolding walk_strings
walk_strings-NoPanic zero d o = ok-NoPanic o
walk_strings-NoPanic (suc n) d o =
    bind-NoPanic _ _ (walk_string-NoPanic d o) (λ o' e. walk_strings-NoPanic n d o')

read_creators-NoPanic :
    (k : ℕ) (d : Bytes) (o : ℕ) → o + k * 34 ≤ length d → NoPanic (read_creators k d o)
unfolding read_creators
read_creators-NoPanic zero d o h = ok-NoPanic _
read_creators-NoPanic (suc k) d o h =
    bind-NoPanic _ _ (index-NoPanic d o (o + 32) (omega arith)) λ a ea.
      bind-NoPanic _ _ (byte-NoPanic d (o + 32) (omega arith)) λ v ev. fail_if-NoPanic _ _ λ c.
        bind-NoPanic _ _ (byte-NoPanic d (o + 33) (omega arith)) λ share es.
          bind-NoPanic _ _ (read_creators-NoPanic k d (o + 34) (omega arith))
            λ rest er. ok-NoPanic _

read_creator_vec-NoPanic : (d : Bytes) (o : ℕ) → NoPanic (read_creator_vec d o)
unfolding read_creator_vec
read_creator_vec-NoPanic d o = fail_if-NoPanic _ _ λ c.
    bind-NoPanic _ _ (index-NoPanic d o (o + 4) (ltb-false _ _ c)) λ b eb.
      fail_if-NoPanic _ _ λ c2.
        fail_if-NoPanic _ _ λ c3. read_creators-NoPanic (from_le b) d (o + 4) (ltb-false _ _ c3)

read_creator_option-NoPanic : (d : Bytes) (o : ℕ) → NoPanic (read_creator_option d o)
unfolding read_creator_option
read_creator_option-NoPanic d o = fail_if-NoPanic _ _ λ c.
    bind-NoPanic _ _ (byte-NoPanic d o (leb-false _ _ c)) λ opt eo. elim (Bool-cases (opt == 1)) [
      | inl some_ ↦ rw some_ (read_creator_vec-NoPanic d (o + 1))
      | inr other ↦ elim (Bool-cases (opt == 0)) [
        | inl absent ↦ rw (other, absent) (ok-NoPanic [])
        | inr bad ↦ rw (other, bad) err-NoPanic
      ]
    ]

-- On no input does the parser read out of bounds or overflow: it returns a value or an error.
pub parse_tm_royalty-NoPanic : (d : Bytes) → NoPanic (parse_tm_royalty d)
unfolding parse_tm_royalty
parse_tm_royalty-NoPanic d = fail_if-NoPanic _ _ λ c.
    bind-NoPanic _ _ (walk_strings-NoPanic 3 d 65) λ o eo. fail_if-NoPanic _ _ λ c2.
      bind-NoPanic _ _ (index-NoPanic d o (o + 2) (ltb-false _ _ c2)) λ b eb.
        fail_if-NoPanic _ _
          λ c3. bind-NoPanic _ _ (read_creator_option-NoPanic d (o + 2)) λ cs ec. ok-NoPanic _

read_creators-length :
    (k : ℕ) (d : Bytes) (o : ℕ) {cs : List (Pubkey × ℕ)}
    → read_creators k d o ≡ ok cs
    → length cs ≡ k
unfolding read_creators
read_creators-length zero d o {cs} h = ground arith
read_creators-length (suc k) d o {cs} h = after_bind _ _ h λ a ea h1. after_bind _ _ h1 λ v ev h2.
    after_fail_if _ _ _ h2 λ c h3. after_bind _ _ h3 λ share es h4.
      after_bind _ _ h4 λ rest er h5. ground (arith, read_creators-length k d (o + 34) er)

read_creator_option-length :
    (d : Bytes) (o : ℕ) {cs : List (Pubkey × ℕ)}
    → read_creator_option d o ≡ ok cs
    → length cs ≤ max_creators
unfolding read_creator_option
read_creator_option-length d o {cs} h = after_fail_if _ _ _ h λ c h1. after_bind _ _ h1 λ opt eo h2.
    elim (Bool-cases (opt == 1)) [
      | inl some_ ↦ after_fail_if _ _ _ (rw some_ at h2) λ c2 h3. after_bind _ _ h3 λ vlen ev h4.
          after_fail_if _ _ _ h4 λ c3 h5.
            after_fail_if _ _ _ h5
              λ c4 h6. omega (arith, read_creators-length (from_le vlen) d _ h6, ltb-false _ _ c3)
      | inr other ↦ ground arith
    ]

-- A parse that succeeds gives at most 10000 basis points, at most five creators, and an array of
-- five entries.
pub parse_tm_royalty_bounds :
    (d : Bytes) (r : TmRoyalty)
    → parse_tm_royalty d ≡ ok r
    → (r.bps ≤ 10000) × (r.count ≤ max_creators) × (length r.creators ≡ max_creators)
unfolding parse_tm_royalty
parse_tm_royalty_bounds d r h = after_fail_if _ _ _ h λ c h1. after_bind _ _ h1 λ o eo h2.
    after_fail_if _ _ _ h2 λ c2 h3. after_bind _ _ h3 λ bps eb h4. after_fail_if _ _ _ h4 λ c3 h5.
      after_bind _ _ h5 λ cs ec h6.
        let few = read_creator_option-length d (o + 2) ec in
        ground (
          arith,
          few,
          ltb-false _ _ c3,
          length-append cs (replicate (max_creators - length cs) no_creator),
          length-replicate (max_creators - length cs) no_creator,
        )
