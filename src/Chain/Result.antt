-- ===== src/Chain/Result.antt =====
-- `Result<T, ProgramError>`, for the functions that only read: their `do` blocks run here.
use xete_programs.Base.{ℕ, ◌≡◌, refl, Bool, true, false}

-- The variants of `ProgramError` that the programs return. `custom` is what another program
-- answers; `panicked` is an abort (an index out of bounds, an overflow under `overflow-checks`).
pub data ProgramError : Type 0 where
  invalid_instruction_data invalid_argument invalid_account_data not_enough_account_keys :
      ProgramError
  missing_required_signature invalid_seeds illegal_owner incorrect_program_id : ProgramError
  arithmetic_overflow insufficient_funds account_already_initialized panicked : ProgramError
  custom : ℕ → ProgramError

pub data Result {ℓ} (A : Type ℓ) : Type ℓ where
  ok : A → Result A
  err : ProgramError → Result A

infixl 5 ◌>>=◌ ◌>>◌
unfoldable pub ◌>>=◌ {ℓ κ} : {A : Type ℓ} {B : Type κ} → Result A → (A → Result B) → Result B
ok a >>= f = f a
err e >>= f = err e

abbrev pub ◌>>◌ {κ} : {B : Type κ} → Result (Unit {0}) → Result B → Result B
m >> k = m >>= λ _. k

-- `if c { return Err(e) }`
unfoldable pub fail_if : Bool → ProgramError → Result (Unit {0})
fail_if true e = err e
fail_if false e = ok tt

-- What a success says of each step; the goal stands last, under the facts that the step leaves.
module _ {κ π} {B : Type κ} {P : Type π} where
  pub after_bind {ℓ} :
      {A : Type ℓ} (m : Result A) (f : A → Result B) {b : B}
      → (m >>= f) ≡ ok b
      → ((a : A) → m ≡ ok a → f a ≡ ok b → P)
      → P
  unfolding ◌>>=◌
  after_bind (ok a) f h k = k a refl h
  after_bind (err e) f h k = cc

  pub after_fail_if :
      (c : Bool) (e : ProgramError) (r : Result B) {b : B}
      → (fail_if c e >> r) ≡ ok b
      → (c ≡ false → r ≡ ok b → P)
      → P
  unfolding ◌>>=◌ fail_if
  after_fail_if true e r h k = cc
  after_fail_if false e r h k = k refl h

-- The other way round: a step that succeeds drops out.
pub bind-ok {ℓ κ} :
    {A : Type ℓ} {B : Type κ} (m : Result A) (f : A → Result B) (a : A) → m ≡ ok a → (m >>= f) ≡ f a
unfolding ◌>>=◌
bind-ok m f a h = rw h

pub fail_if-ok {κ} :
    {B : Type κ} (c : Bool) (e : ProgramError) (r : Result B) → c ≡ false → (fail_if c e >> r) ≡ r
unfolding ◌>>=◌ fail_if
fail_if-ok c e r h = rw h

pub fail_if-inv : (c : Bool) (e : ProgramError) → fail_if c e ≡ ok tt → c ≡ false
unfolding fail_if
fail_if-inv true e h = cc
fail_if-inv false e h = refl
