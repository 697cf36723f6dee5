-- ===== src/Chain/Writes.antt =====
-- Writes into an account's data: runs of `s[a..b].copy_from_slice(v)` on one borrow, as the
-- handlers that create accounts make them.
use xete_programs.Base.{
  ℕ, ◌+◌, ◌-◌, ◌≤◌, ◌≡◌, ◌≢◌, refl, ap, ap₂, sym, append-nil, replicate, length-replicate,
  drop-replicate, ◌∙◌, true, List, [], ◌∷◌, ◌++◌, append_assoc, Bytes, length, length-append, drop,
  length-drop, put, put-append, drop-drop, leb, leb_of_le, if◌then◌else◌, arith,
}
use xete_programs.Chain.Result.{Result, ok, err, panicked}
use xete_programs.Chain.Types.{
  Pubkey, Account, World, set_account, set_account_self, set_account_ne,
}
use xete_programs.Chain.Action.{Action}

-- The copies in order; one that runs past the end is a panic.
unfoldable pub copy_all : List (ℕ × Bytes) → Bytes → Result Bytes
copy_all [] d = ok d
copy_all ((a, v) ∷ r) d =
    if leb (a + length v) (length d) then copy_all r (put d a v) else err panicked

unfoldable pub set_contents : Account → Bytes → Account
set_contents a d = record a { contents = d }

unfoldable pub write_fields : Pubkey → List (ℕ × Bytes) → Action (Unit {0})
unfolding set_contents
write_fields k fields w = elim (copy_all fields (w.ledger k).contents) [
  | ok d ↦ ok (tt, record w { ledger = set_account w.ledger k (set_contents (w.ledger k) d) })
  | err e ↦ err e
]

pub write_fields-inv :
    (k : Pubkey) (fields : List (ℕ × Bytes)) (w : World) {x : Unit {0} × World}
    → write_fields k fields w ≡ ok x
    → (d : Bytes) × (copy_all fields (w.ledger k).contents ≡ ok d)
      × (x.1 ≡ record w { ledger = set_account w.ledger k (set_contents (w.ledger k) d) })
unfolding write_fields
write_fields-inv k fields w {x} h = go (copy_all fields (w.ledger k).contents) refl h
  where
    go :
        (r : Result Bytes)
        → copy_all fields (w.ledger k).contents ≡ r
        → (elim r as (λ _. Result (Unit {0} × World)) [
          | ok d ↦
              ok (tt, record w { ledger = set_account w.ledger k (set_contents (w.ledger k) d) })
          | err e ↦ err e
        ])
          ≡ ok x
        → (d : Bytes) × (copy_all fields (w.ledger k).contents ≡ ok d)
          × (x.1 ≡ record w { ledger = set_account w.ledger k (set_contents (w.ledger k) d) })
    go (ok d) e q = (d, e, cc)
    go (err e') e q = cc

-- Fields side by side from an offset on, and their bytes.
abbrev pub layout : ℕ → List Bytes → List (ℕ × Bytes)
layout a [] = []
layout a (v ∷ vs) = (a, v) ∷ layout (a + length v) vs

abbrev pub concat : List Bytes → Bytes
concat [] = []
concat (v ∷ vs) = v ++ concat vs

regroup :
    (v : Bytes) (vs : List Bytes) (pre rest : Bytes)
    → (pre ++ v) ++ (concat vs ++ drop (length (concat vs)) (drop (length v) rest))
      ≡ pre ++ (concat (v ∷ vs) ++ drop (length (concat (v ∷ vs))) rest)
regroup v vs pre rest = simp (append_assoc, length-append, drop-drop)

-- Fields written side by side follow one another, and what lies behind them stays.
pub copy_all-layout :
    (vs : List Bytes) (pre rest : Bytes)
    → length (concat vs) ≤ length rest
    → copy_all (layout (length pre) vs) (pre ++ rest)
      ≡ ok (pre ++ (concat vs ++ drop (length (concat vs)) rest))
unfolding copy_all
copy_all-layout [] pre rest h = refl
copy_all-layout (v ∷ vs) pre rest h =
    let room : length v + length (concat vs) ≤ length rest =
      rw (length-append v (concat vs)) at h in
    let fits : leb (length pre + length v) (length (pre ++ rest)) ≡ true =
      leb_of_le _ _ (omega (arith, length-append {0} pre rest)) in
    let written : put (pre ++ rest) (length pre) v ≡ (pre ++ v) ++ drop (length v) rest =
      put-append pre rest (length pre) v refl ∙ sym (append_assoc pre v (drop (length v) rest)) in
    let next : length pre + length v ≡ length (pre ++ v) = sym (length-append pre v) in
    let ih =
      copy_all-layout vs (pre ++ v) (drop (length v) rest)
        (omega (arith, length-drop {0} (length v) rest)) in
    rw (fits, written, next) (ih ∙ ap ok (regroup v vs pre rest))

abbrev pub values : List (ℕ × Bytes) → List Bytes
values [] = []
values ((_, v) ∷ r) = v ∷ values r

-- Each field starts where the one before it ends.
abbrev pub AreAdjacent : ℕ → List (ℕ × Bytes) → Type 0
AreAdjacent a [] = Unit
AreAdjacent a ((o, v) ∷ r) = (o ≡ a) × AreAdjacent (a + length v) r

adjacent-layout : (a : ℕ) (fs : List (ℕ × Bytes)) → AreAdjacent a fs → fs ≡ layout a (values fs)
adjacent-layout a [] h = refl
adjacent-layout a ((o, v) ∷ r) h =
    ap₂ (λ (x : ℕ) (t : List (ℕ × Bytes)). (x, v) ∷ t) h.0 (adjacent-layout (a + length v) r h.1)

-- Adjacent fields written from the start of an account replace its first bytes.
pub copy_all-adjacent :
    (fs : List (ℕ × Bytes)) (d : Bytes)
    → AreAdjacent 0 fs
    → length (concat (values fs)) ≤ length d
    → copy_all fs d ≡ ok (concat (values fs) ++ drop (length (concat (values fs))) d)
copy_all-adjacent fs d h room =
    ap (λ t. copy_all t d) (adjacent-layout 0 fs h) ∙ copy_all-layout (values fs) [] d room

-- A fresh account that the fields fill exactly.
pub copy_all-fresh :
    (fs : List (ℕ × Bytes)) (n : ℕ) {out : Bytes}
    → AreAdjacent 0 fs
    → length (concat (values fs)) ≡ n
    → copy_all fs (replicate n 0) ≡ ok out
    → out ≡ concat (values fs)
copy_all-fresh fs n {out} h e run =
    let room : length (concat (values fs)) ≤ length (replicate {A = ℕ} n 0) =
      omega (arith, e, length-replicate {A = ℕ} n 0) in
    let rest : drop (length (concat (values fs))) (replicate {A = ℕ} n 0) ≡ [] =
      drop-replicate 0 (length (concat (values fs))) n
      ∙ ap (λ k. replicate k 0)
          (let z : n - length (concat (values fs)) ≡ 0 = omega (arith, e) in z) in
    let all : out
        ≡ concat (values fs) ++ drop (length (concat (values fs))) (replicate {A = ℕ} n 0) =
      cc (run, copy_all-adjacent fs (replicate n 0) h room) in
    all ∙ (ap (λ t. concat (values fs) ++ t) rest ∙ append-nil (concat (values fs)))

-- Fields that fill a new account are then its data, and nothing else about the world changes.
pub write_fields-fresh :
    (k : Pubkey) (fs : List (ℕ × Bytes)) (a : Account) (n : ℕ) (w w' : World)
    → w.ledger k ≡ a
    → a.contents ≡ replicate n 0
    → AreAdjacent 0 fs
    → length (concat (values fs)) ≡ n
    → write_fields k fs w ≡ ok (tt, w')
    → (w'.ledger k ≡ set_contents a (concat (values fs)))
      × ((j : Pubkey) → k ≢ j → w'.ledger j ≡ w.ledger j)
      × (w'.effects ≡ w.effects)
write_fields-fresh k fs a n w w' e z adj size h =
    let (d, run, after) = write_fields-inv k fs w h in
    let filled : d ≡ concat (values fs) =
      copy_all-fresh fs n adj size
        (ap (λ c. copy_all fs c) (sym z ∙ ap (λ (x : Account). x.contents) (sym e)) ∙ run) in
    (
      ap (λ (v : World). v.ledger k) after
          ∙ (set_account_self w.ledger k _ ∙ ap₂ set_contents e filled),
      λ j ne. ap (λ (v : World). v.ledger j) after ∙ set_account_ne w.ledger k j _ ne,
      ap (λ (v : World). v.effects) after,
    )
