-- ===== src/Chain/Ran.antt =====
-- What a run of calls makes of the ledger: each call is answered by the runtime on the ledger that the
-- calls before it left, and nothing else touches the ledger in between.
use xete_programs.Base.{
  ◌≡◌, refl, sym, ap, ◌∙◌, subst, List, [], ◌∷◌, ◌++◌, append-nil, append_assoc,
}
use xete_programs.Chain.Result.{ok}
use xete_programs.Chain.Types.{
  Pubkey, AccountInfo, Ledger, Runtime, World, Call, Effect, cpi, log_data,
}
use xete_programs.Chain.Action.{perform, perform-inv}
use xete_programs.Chain.Sweep.{sweep, swept, sweep-inv}

-- The ledger `l'` is what these effects, replayed in order, make of `l`.
abbrev pub Ran : Runtime → List Effect → (l l' : Ledger) → Type 0
Ran rt [] l l' = l' ≡ l
Ran rt (cpi c ∷ es) l l' = (m : Ledger) × (rt.invoke c l ≡ ok m) × Ran rt es m l'
Ran rt (log_data b ∷ es) l l' = Ran rt es l l'

pub Ran-append :
    (rt : Runtime) (es fs : List Effect) (l m n : Ledger)
    → Ran rt es l m
    → Ran rt fs m n
    → Ran rt (es ++ fs) l n
Ran-append rt [] fs l m n h k = subst (λ (x : Ledger). Ran rt fs x n) h k
Ran-append rt (cpi c ∷ es) fs l m n (x, called, rest) k =
    (x, called, Ran-append rt es fs x m n rest k)
Ran-append rt (log_data b ∷ es) fs l m n h k = Ran-append rt es fs l m n h k

-- From `w`, exactly these effects were asked for, and the ledger is what they made of it.
abbrev pub Did : Runtime → List Effect → (w w' : World) → Type 0
Did rt es w w' = (w'.effects ≡ w.effects ++ es) × Ran rt es w.ledger w'.ledger

-- These effects, and then the account `a` swept into `d`: nothing else.
abbrev pub Closes : Runtime → List Effect → (a d : Pubkey) → (w w' : World) → Type 0
Closes rt es a d w w' =
    (u : World) × Did rt es w u × (w' ≡ record u { ledger = swept a d u.ledger })

module _ (rt : Runtime) where
  pub Did-nothing : (w : World) {w' : World} → w' ≡ w → Did rt [] w w'
  Did-nothing w e =
      (ap (λ (v : World). v.effects) e ∙ sym (append-nil w.effects), ap (λ (v : World). v.ledger) e)

  pub Did-trans :
      (es fs : List Effect) (u v w : World) → Did rt es u v → Did rt fs v w → Did rt (es ++ fs) u w
  Did-trans es fs u v w h k = (
    k.0 ∙ (ap (λ t. t ++ fs) h.0 ∙ append_assoc u.effects es fs),
    Ran-append rt es fs u.ledger v.ledger w.ledger h.1 k.1,
  )

  pub perform-Did :
      (c : Call) (w : World) {x : Unit {0} × World}
      → perform rt c w ≡ ok x
      → Did rt (cpi c ∷ []) w x.1
  perform-Did c w {x} h =
      let called = perform-inv rt c w h in (called.1, (x.1.ledger, called.0, refl))

  pub sweep-Closes :
      (es : List Effect) (account dest : AccountInfo) (w u : World) {x : Unit {0} × World}
      → Did rt es w u
      → sweep account dest u ≡ ok x
      → Closes rt es account.key dest.key w x.1
  sweep-Closes es account dest w u did h = (u, did, (sweep-inv account dest u h).0)
