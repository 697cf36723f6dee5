-- ===== src/Swap/Royalty/Split.antt =====
-- The split pays out exactly the total, whatever the shares that sum to 100.
use xete_programs.Base.{
  subst, leb_of_lt, ℕ, suc, ◌+◌, ◌-◌, ◌*◌, ◌/◌, ◌≤◌, ◌<◌, ◌≡◌, ◌∙◌, refl, ap, List, [], ◌∷◌, ◌++◌,
  length, replicate, sum, arith, ltb_of_le,
}
use xete_programs.Base.Words.{u64_mod}
use xete_programs.Chain.Result.{ok, bind-ok, fail_if-ok}
use xete_programs.Swap.Royalty.{split_rest, split_by_share, floor_share, max_creators}

-- Below 2^64 the cast loses nothing, and the floor is at most the exact share.
floor_share_bounds :
    (total sh : ℕ)
    → total < u64_mod
    → total * sh ≤ total * 100
    → (floor_share total sh * 100 ≤ total * sh) × (floor_share total sh ≤ total)
floor_share_bounds total sh h k =
    let small : total * sh / 100 ≤ total = omega arith in
    let cast : floor_share total sh ≡ total * sh / 100 = omega arith in
    (omega (arith, cast), omega (arith, cast))

-- The payouts of shares of a total, of which `left` is not paid yet: each share but the last is rounded
-- down, and the last gets what is left.
abbrev pub IsSplit : (total left : ℕ) → (shares out : List ℕ) → Type 0
IsSplit total left [] out = out ≡ []
IsSplit total left (sh ∷ []) out = out ≡ left ∷ []
IsSplit total left (sh ∷ next ∷ more) out =
    (rest : List ℕ) × (out ≡ total * sh / 100 ∷ rest)
    × IsSplit total (left - total * sh / 100) (next ∷ more) rest

-- The payouts of the shares that are left, when what is paid is at most the used-up part.
split_rest_total :
    (total paid sh : ℕ) (shares : List ℕ)
    → total < u64_mod
    → paid * 100 + total * sum (sh ∷ shares) ≤ total * 100
    → (out : List ℕ) × (split_rest total paid (sh ∷ shares) ≡ ok out)
      × (paid + sum out ≡ total)
      × (length out ≡ suc (length shares))
      × IsSplit total (total - paid) (sh ∷ shares) out
unfolding split_rest
split_rest_total total paid sh [] h k =
    let fits : paid ≤ total = omega arith in
    ((total - paid) ∷ [], fail_if-ok _ _ _ (ltb_of_le total paid fits), omega arith, refl, refl)
split_rest_total total paid sh (next ∷ more) h k =
    let part : total * sh ≤ total * 100 = omega arith in
    let b = floor_share_bounds total sh h part in
    let room : (paid + floor_share total sh) * 100 + total * sum (next ∷ more) ≤ total * 100 =
      omega (arith, b.0) in
    let fits : paid + floor_share total sh ≤ total = omega (arith, room) in
    let cast : floor_share total sh ≡ total * sh / 100 =
      let small : total * sh / 100 ≤ total = omega arith in omega arith in
    let (out, run, total_eq, len, is_split) =
      split_rest_total total (paid + floor_share total sh) next more h room in
    (
      floor_share total sh ∷ out,
      fail_if-ok _ _ _ (leb_of_lt u64_mod (paid + floor_share total sh) (omega (arith, fits, h)))
          ∙ bind-ok _ _ out run,
      omega (arith, total_eq),
      ap suc len,
      (
        out,
        ap (λ n. n ∷ out) cast,
        subst (λ n. IsSplit total n (next ∷ more) out)
            (let e : total - (paid + floor_share total sh) ≡ total - paid - total * sh / 100 =
                omega (arith, cast) in
              e)
            is_split,
      ),
    )

-- The split of shares that sum to 100, by the rule of `IsSplit`.
pub split_by_share_shared :
    (total : ℕ) (shares : List ℕ)
    → total < u64_mod
    → length shares ≤ max_creators
    → sum shares ≡ 100
    → (out : List ℕ) × (split_by_share total shares
        ≡ ok (out ++ replicate (max_creators - length shares) 0))
      × (length out ≡ length shares)
      × (sum out ≡ total)
      × IsSplit total total shares out
unfolding split_by_share
split_by_share_shared total [] h few whole = absurd (omega arith)
split_by_share_shared total (sh ∷ shares) h few whole =
    let (out, run, total_eq, len, is_split) = split_rest_total total 0 sh shares h (
      let e : total * sum (sh ∷ shares) ≡ total * 100 = ap (λ n. total * n) whole in
      omega (arith, e)) in
    (
      out,
      fail_if-ok _ _ _ (ltb_of_le max_creators (length (sh ∷ shares)) few)
          ∙ (bind-ok _ _ out run ∙ ap (λ n. ok (out ++ replicate (max_creators - n) 0)) len),
      len,
      omega (arith, total_eq),
      subst (λ n. IsSplit total n (sh ∷ shares) out) (let e : total - 0 ≡ total = omega arith in e)
          is_split,
    )

-- For one to five shares that sum to 100, and a total below 2^64, the split succeeds (no overflow,
-- no index past the array): it gives five numbers, as many payouts as there are shares and zeros
-- behind them, and the payouts sum to exactly the total.
pub split_by_share_exact :
    (total : ℕ) (shares : List ℕ)
    → total < u64_mod
    → length shares ≤ max_creators
    → sum shares ≡ 100
    → (out : List ℕ) × (split_by_share total shares
        ≡ ok (out ++ replicate (max_creators - length shares) 0))
      × (length out ≡ length shares)
      × (sum out ≡ total)
split_by_share_exact total shares h few whole =
    let (out, run, len, total_eq, _) = split_by_share_shared total shares h few whole in
    (out, run, len, total_eq)
