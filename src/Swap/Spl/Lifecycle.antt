-- ===== src/Swap/Spl/Lifecycle.antt =====
-- A swap's life: a fill and an expiry exclude each other, and a filled swap is not filled again
-- (swap/src/swap.rs).
use xete_programs.Base.{ℕ, ◌≡◌, ◌≢◌, sym, ap, ◌∙◌, subst, List, Bytes, arith}
use xete_programs.Base.Int.{ℤ, pos, ◌≤ℤ◌, ◌<ℤ◌}
use xete_programs.Chain.Result.{Result, ok}
use xete_programs.Chain.Types.{Pubkey, AccountInfo, Runtime, World}
use xete_programs.Chain.Sweep.{swept_wiped}
use xete_programs.Swap.Spl.{
  FillAccounts, fill_accounts, fill, RefundAccounts, expire_accounts, expire,
}
use xete_programs.Swap.Spl.Filled.{fill_effects}
use xete_programs.Swap.Spl.Loaded.{stored_expiry, load_fill_state-before, load_fill_state-wiped}
use xete_programs.Swap.Spl.Refunded.{expire_refunds}

fill_swap_key :
    (a b : FillAccounts) {r : Result FillAccounts} → r ≡ ok a → r ≡ ok b → a.swap.key ≡ b.swap.key
fill_swap_key a b h k = let e : a ≡ b = cc in ap (λ (x : FillAccounts). x.swap.key) e

expire_swap_key :
    (a b : RefundAccounts) {r : Result RefundAccounts}
    → r ≡ ok a
    → r ≡ ok b
    → a.swap.key ≡ b.swap.key
expire_swap_key a b h k = let e : a ≡ b = cc in ap (λ (x : RefundAccounts). x.swap.key) e

clock_apart : (a b e : ℤ) → a ≡ b → a <ℤ e → e ≤ℤ b → ⊥
clock_apart a b e h k j = let k' : b <ℤ e = subst (λ z. z <ℤ e) h k in omega (arith, k', j)

module _ (rt : Runtime) (program_id : Pubkey) where
  -- From one ledger and at one time, a swap can be filled or it can be expired, never both, whatever
  -- the other accounts and the payloads.
  pub fill_excludes_expire :
      (accounts accounts' : List AccountInfo) (d d' : Bytes) (w w1 w2 : World) (a : FillAccounts)
      (b : RefundAccounts)
      → fill_accounts accounts ≡ ok a
      → expire_accounts accounts' ≡ ok b
      → a.swap.key ≡ b.swap.key
      → fill rt program_id accounts d w ≡ ok (tt, w1)
      → expire rt program_id accounts' d' w ≢ ok (tt, w2)
  fill_excludes_expire accounts accounts' d d' w w1 w2 a b ea eb same h k =
      let (a', st, _, _, _, _, ea', guards, _, _, _, _, _, _, _) =
        fill_effects rt program_id accounts d w w1 h in
      let (b', _, eb', _, now', en', late, _, _, _) =
        expire_refunds rt program_id accounts' d' w w2 k in
      let (now, en, early, _) = load_fill_state-before rt a'.swap _ _ _ w.ledger guards.loaded in
      let key : b'.swap.key ≡ a'.swap.key =
        expire_swap_key b' b eb' eb ∙ (sym same ∙ fill_swap_key a a' ea ea') in
      clock_apart now now' (stored_expiry (w.ledger a'.swap.key).contents) (ground (arith, en, en'))
        early (subst (λ q. stored_expiry (w.ledger q).contents ≤ℤ now') key late)

  -- After a fill the swap cannot be filled again, at any clock from 0 on: its account is wiped.
  pub fill_once :
      (accounts accounts' : List AccountInfo) (d d' : Bytes) (w w1 w2 : World) (a b : FillAccounts)
      (now : ℕ)
      → rt.unix_timestamp ≡ ok (pos now)
      → fill_accounts accounts ≡ ok a
      → fill_accounts accounts' ≡ ok b
      → a.swap.key ≡ b.swap.key
      → fill rt program_id accounts d w ≡ ok (tt, w1)
      → fill rt program_id accounts' d' w1 ≢ ok (tt, w2)
  fill_once accounts accounts' d d' w w1 w2 a b now clock ea eb same h k =
      let (a', _, _, _, _, _, ea', _, _, _, _, _, _, _, (last, _, end)) =
        fill_effects rt program_id accounts d w w1 h in
      let (b', _, _, _, _, _, eb', guards, _, _, _, _, _, _, _) =
        fill_effects rt program_id accounts' d' w1 w2 k in
      let (n, zeros) = swept_wiped a'.swap.key a'.maker.key last.ledger in
      let key : b'.swap.key ≡ a'.swap.key =
        fill_swap_key b' b eb' eb ∙ (sym same ∙ fill_swap_key a a' ea ea') in
      load_fill_state-wiped rt b'.swap _ _ _ w1.ledger n now
        (ap (λ q. (w1.ledger q).contents) key
          ∙ (ap (λ (v : World). (v.ledger a'.swap.key).contents) end ∙ zeros))
        clock guards.loaded
