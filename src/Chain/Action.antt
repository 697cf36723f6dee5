-- ===== src/Chain/Action.antt =====
-- A handler's step: it fails, which reverts the transaction, or returns a value and a new world.
use xete_programs.Base.{◌≡◌, refl, ap, Bool, true, false, [], ◌∷◌, ◌++◌, Bytes, arith}
use xete_programs.Chain.Result.{Result, ok, err, ProgramError}
use xete_programs.Chain.Types.{World, Ledger, Runtime, Call, cpi, log_data}

abbrev pub Action {ℓ} : Type ℓ → Type ℓ
Action A = World → Result (A × World)

module _ {ℓ} {A : Type ℓ} where
  abbrev pub pure : A → Action A
  pure a w = ok (a, w)

  unfoldable pub lift : Result A → Action A
  lift (ok a) w = ok (a, w)
  lift (err e) w = err e

  -- A function that only reads the accounts.
  unfoldable pub reads : (Ledger → Result A) → Action A
  unfolding lift
  reads r w = lift (r w.ledger) w

infixl 5 ◌>>=◌ ◌>>◌
unfoldable pub ◌>>=◌ {ℓ κ} : {A : Type ℓ} {B : Type κ} → Action A → (A → Action B) → Action B
◌>>=◌ m f w = elim (m w) [ ok p ↦ f p.0 p.1 | err e ↦ err e ]

abbrev pub ◌>>◌ {κ} : {B : Type κ} → Action (Unit {0}) → Action B → Action B
m >> k = m >>= λ _. k

-- `if c { return Err(e) }`
unfoldable pub fail_if : Bool → ProgramError → Action (Unit {0})
fail_if true e w = err e
fail_if false e w = ok (tt, w)

-- `if c { return Err(e) }` where the condition reads accounts.
unfoldable pub fail_when : (Ledger → Bool) → ProgramError → Action (Unit {0})
unfolding fail_if
fail_when c e w = fail_if (c w.ledger) e w

-- `if c { m }`
unfoldable pub when : Bool → Action (Unit {0}) → Action (Unit {0})
when true m w = m w
when false m w = ok (tt, w)

-- `invoke` and `invoke_signed`: the call is recorded, and the runtime says what becomes of the
-- accounts.
unfoldable pub perform : Runtime → Call → Action (Unit {0})
perform rt c w = elim (rt.invoke c w.ledger) [
  | ok l ↦ ok (tt, record { ledger = l; effects = w.effects ++ cpi c ∷ [] })
  | err e ↦ err e
]

-- `sol_log_data`
unfoldable pub log : Bytes → Action (Unit {0})
log b w = ok (tt, record w { effects = w.effects ++ log_data b ∷ [] })

unfoldable pub modify : (Ledger → Ledger) → Action (Unit {0})
modify f w = ok (tt, record w { ledger = f w.ledger })

-- What a success says of each step. The goal stands last, under the facts that the step leaves,
-- so that a proof follows the handler line by line.
module _ {ℓ κ π} {A : Type ℓ} {B : Type κ} {P : Type π} where
  pub after_bind :
      (m : Action A) (f : A → Action B) (w : World) {x : B × World}
      → (m >>= f) w ≡ ok x
      → ((a : A) (w' : World) → m w ≡ ok (a, w') → f a w' ≡ ok x → P)
      → P
  unfolding ◌>>=◌
  after_bind m f w {x} h k = go (m w) refl h
    where
      go :
          (r : Result (A × World))
          → m w ≡ r
          → (elim r as (λ _. Result (B × World)) [ ok p ↦ f p.0 p.1 | err e ↦ err e ]) ≡ ok x
          → P
      go (ok p) e q = k p.0 p.1 e q
      go (err e') e q = cc

  pub after_lift :
      (r : Result A) (f : A → Action B) (w : World) {x : B × World}
      → (lift r >>= f) w ≡ ok x
      → ((a : A) → r ≡ ok a → f a w ≡ ok x → P)
      → P
  unfolding ◌>>=◌ lift
  after_lift (ok a) f w h k = k a refl h
  after_lift (err e) f w h k = cc

  pub after_reads :
      (r : Ledger → Result A) (f : A → Action B) (w : World) {x : B × World}
      → (reads r >>= f) w ≡ ok x
      → ((a : A) → r w.ledger ≡ ok a → f a w ≡ ok x → P)
      → P
  unfolding ◌>>=◌ reads
  after_reads r f w h k = after_lift (r w.ledger) f w h k

module _ {κ π} {B : Type κ} {P : Type π} where
  pub after_fail_if :
      (c : Bool) (e : ProgramError) (k : Action B) (w : World) {x : B × World}
      → (fail_if c e >> k) w ≡ ok x
      → (c ≡ false → k w ≡ ok x → P)
      → P
  unfolding ◌>>=◌ fail_if
  after_fail_if true e k w h f = cc
  after_fail_if false e k w h f = f refl h

  pub after_fail_when :
      (c : Ledger → Bool) (e : ProgramError) (k : Action B) (w : World) {x : B × World}
      → (fail_when c e >> k) w ≡ ok x
      → (c w.ledger ≡ false → k w ≡ ok x → P)
      → P
  unfolding ◌>>=◌ fail_when
  after_fail_when c e k w h f = after_fail_if (c w.ledger) e k w h f

pub after_when {π} :
    {P : Type π} (c : Bool) (m : Action (Unit {0})) (w : World) {x : Unit {0} × World}
    → when c m w ≡ ok x
    → (c ≡ true → m w ≡ ok x → P)
    → (c ≡ false → x ≡ (tt, w) → P)
    → P
unfolding when
after_when true m w h f g = f refl h
after_when false m w h f g = g refl cc

-- What a call that went through has done: the runtime accepted it, and it is on record.
pub perform-inv :
    (rt : Runtime) (c : Call) (w : World) {x : Unit {0} × World}
    → perform rt c w ≡ ok x
    → (rt.invoke c w.ledger ≡ ok x.1.ledger) × (x.1.effects ≡ w.effects ++ cpi c ∷ [])
unfolding perform
perform-inv rt c w {x} h = ground arith

-- The other way round: a step that succeeds drops out of the run.
module _ {ℓ κ} {A : Type ℓ} {B : Type κ} where
  pub bind-ok :
      (m : Action A) (f : A → Action B) (w : World) (a : A) (w' : World)
      → m w ≡ ok (a, w')
      → (m >>= f) w ≡ f a w'
  unfolding ◌>>=◌
  bind-ok m f w a w' h =
      ap
        (λ (r : Result (A × World)). elim r as (λ _. Result (B × World)) [
          | ok p ↦ f p.0 p.1
          | err e ↦ err e
        ])
        h

  pub lift-ok :
      (r : Result A) (f : A → Action B) (w : World) (a : A) → r ≡ ok a → (lift r >>= f) w ≡ f a w
  unfolding ◌>>=◌ lift
  lift-ok r f w a h = rw h

  pub reads-ok :
      (r : Ledger → Result A) (f : A → Action B) (w : World) (a : A)
      → r w.ledger ≡ ok a
      → (reads r >>= f) w ≡ f a w
  unfolding ◌>>=◌ reads
  reads-ok r f w a h = lift-ok (r w.ledger) f w a h

module _ {κ} {B : Type κ} where
  pub fail_if-ok :
      (c : Bool) (e : ProgramError) (k : Action B) (w : World)
      → c ≡ false
      → (fail_if c e >> k) w ≡ k w
  unfolding ◌>>=◌ fail_if
  fail_if-ok c e k w h = rw h

  pub fail_when-ok :
      (c : Ledger → Bool) (e : ProgramError) (k : Action B) (w : World)
      → c w.ledger ≡ false
      → (fail_when c e >> k) w ≡ k w
  unfolding ◌>>=◌ fail_when
  fail_when-ok c e k w h = fail_if-ok (c w.ledger) e k w h
