-- ===== src/Base/Lists.antt =====
-- Lists measured and cut by native numbers, and byte strings with their equality test.
use Prim.Native.Nat.{ℕ, zero, suc, ◌+◌, ◌-◌, ◌≤◌}
use mathlib.Core.Path.{sym, ◌≡◌, refl, ap, ◌∙◌}
use mathlib.Core.Bool.{Bool, true, false, not, ◌&&◌}
use mathlib.Core.List.{List, [], ◌∷◌, ◌++◌}
use native.Mathlib.Omega.{arith}
use xete_programs.Base.Tests.{◌==◌}

module _ {ℓ} {A : Type ℓ} where
  abbrev pub length : List A → ℕ
  length [] = 0
  length (x ∷ xs) = suc (length xs)

  abbrev pub take : ℕ → List A → List A
  take zero xs = []
  take (suc n) [] = []
  take (suc n) (x ∷ xs) = x ∷ take n xs

  abbrev pub drop : ℕ → List A → List A
  drop zero xs = xs
  drop (suc n) [] = []
  drop (suc n) (x ∷ xs) = drop n xs

  abbrev pub replicate : ℕ → A → List A
  replicate zero a = []
  replicate (suc n) a = a ∷ replicate n a

  abbrev pub get_or : List A → ℕ → A → A
  get_or [] i d = d
  get_or (x ∷ xs) zero d = x
  get_or (x ∷ xs) (suc i) d = get_or xs i d

module _ {ℓ} {A : Type ℓ} where
  pub length-append : (xs ys : List A) → length (xs ++ ys) ≡ length xs + length ys
  length-append [] ys = omega arith
  length-append (x ∷ xs) ys = omega (arith, length-append xs ys)

  pub length-replicate : (n : ℕ) (a : A) → length (replicate n a) ≡ n
  length-replicate zero a = refl
  length-replicate (suc n) a = ap suc (length-replicate n a)

  pub length-take : (n : ℕ) (xs : List A) → n ≤ length xs → length (take n xs) ≡ n
  length-take zero xs h = refl
  length-take (suc n) [] h = absurd (omega arith)
  length-take (suc n) (x ∷ xs) h = ap suc (length-take n xs (omega arith))

  pub length-drop : (n : ℕ) (xs : List A) → length (drop n xs) ≡ length xs - n
  length-drop zero xs = omega arith
  length-drop (suc n) [] = omega arith
  length-drop (suc n) (x ∷ xs) = omega (arith, length-drop n xs)

  pub take-append-drop : (n : ℕ) (xs : List A) → take n xs ++ drop n xs ≡ xs
  take-append-drop zero xs = refl
  take-append-drop (suc n) [] = refl
  take-append-drop (suc n) (x ∷ xs) = rw (take-append-drop n xs)

  -- Cutting a concatenation at its seam.
  pub take-append : (n : ℕ) (xs ys : List A) → length xs ≡ n → take n (xs ++ ys) ≡ xs
  take-append zero [] ys h = refl
  take-append zero (x ∷ xs) ys h = absurd (omega arith)
  take-append (suc n) [] ys h = absurd (omega arith)
  take-append (suc n) (x ∷ xs) ys h = ap (λ t. x ∷ t) (take-append n xs ys (omega arith))

  pub drop-append : (n : ℕ) (xs ys : List A) → length xs ≡ n → drop n (xs ++ ys) ≡ ys
  drop-append zero [] ys h = refl
  drop-append zero (x ∷ xs) ys h = absurd (omega arith)
  drop-append (suc n) [] ys h = absurd (omega arith)
  drop-append (suc n) (x ∷ xs) ys h = drop-append n xs ys (omega arith)

  pub drop-drop : (m n : ℕ) (xs : List A) → drop n (drop m xs) ≡ drop (m + n) xs
  drop-drop zero n xs = ap (λ k. drop k xs) (omega arith)
  drop-drop (suc m) zero [] = rw (let e : suc m + 0 ≡ suc m = omega arith in e)
  drop-drop (suc m) (suc n) [] = rw (let e : suc m + suc n ≡ suc (m + suc n) = omega arith in e)
  drop-drop (suc m) n (x ∷ xs) =
      drop-drop m n xs
      ∙ ap (λ k. drop k (x ∷ xs)) (let e : suc (m + n) ≡ suc m + n = omega arith in e)

module _ {ℓ} {A : Type ℓ} (a : A) where
  pub take-replicate : (m n : ℕ) → m ≤ n → take m (replicate n a) ≡ replicate m a
  take-replicate zero n h = refl
  take-replicate (suc m) zero h = absurd (omega arith)
  take-replicate (suc m) (suc n) h = ap (λ t. a ∷ t) (take-replicate m n (omega arith))

  pub drop-replicate : (m n : ℕ) → drop m (replicate n a) ≡ replicate (n - m) a
  drop-replicate zero n = ap (λ k. replicate k a) (omega arith)
  drop-replicate (suc m) zero = ap (λ k. replicate k a) (let e : 0 ≡ 0 - suc m = omega arith in e)
  drop-replicate (suc m) (suc n) =
      drop-replicate m n
      ∙ ap (λ k. replicate k a) (let e : n - m ≡ suc n - suc m = omega arith in e)

abbrev pub sum : List ℕ → ℕ
sum [] = 0
sum (x ∷ xs) = x + sum xs

pub sum-append : (xs ys : List ℕ) → sum (xs ++ ys) ≡ sum xs + sum ys
sum-append [] ys = omega arith
sum-append (x ∷ xs) ys = omega (arith, sum-append xs ys)

pub sum-replicate_zero : (n : ℕ) → sum (replicate n 0) ≡ 0
sum-replicate_zero zero = refl
sum-replicate_zero (suc n) = omega (arith, sum-replicate_zero n)

abbrev pub Bytes : Type 0
Bytes = List ℕ

unfoldable pub bytes_eq : Bytes → Bytes → Bool
bytes_eq [] [] = true
bytes_eq [] (y ∷ ys) = false
bytes_eq (x ∷ xs) [] = false
bytes_eq (x ∷ xs) (y ∷ ys) = x == y && bytes_eq xs ys

pub bytes_eq-true : (a b : Bytes) → bytes_eq a b ≡ true → a ≡ b
unfolding bytes_eq
bytes_eq-true [] [] h = refl
bytes_eq-true [] (y ∷ ys) h = cc
bytes_eq-true (x ∷ xs) [] h = cc
bytes_eq-true (x ∷ xs) (y ∷ ys) h = ground (arith, bytes_eq-true xs ys)

pub bytes_eq_self : (a : Bytes) → bytes_eq a a ≡ true
unfolding bytes_eq
bytes_eq_self [] = refl
bytes_eq_self (x ∷ xs) = ground (arith, bytes_eq_self xs)

-- `a != b` on byte strings, as the guards write it.
unfoldable pub differs : Bytes → Bytes → Bool
unfolding bytes_eq
differs a b = not (bytes_eq a b)

pub differs-false : (a b : Bytes) → differs a b ≡ false → a ≡ b
unfolding differs
differs-false a b h = ground (arith, bytes_eq-true a b)

pub differs_self : (a : Bytes) → differs a a ≡ false
differs_self a = unfold differs in rw (bytes_eq_self a)

pub differs_of_eq : (a b : Bytes) → a ≡ b → differs a b ≡ false
differs_of_eq a b h = rw h (differs_self b)

-- `d[a..b]`: its uses follow a test that `b` is at most `d.len()`.
unfoldable pub slice : Bytes → ℕ → ℕ → Bytes
slice d a b = take (b - a) (drop a d)

pub length-slice : (d : Bytes) (a b : ℕ) → a ≤ b → b ≤ length d → length (slice d a b) ≡ b - a
unfolding slice
length-slice d a b h k = length-take (b - a) (drop a d) (omega (arith, length-drop {0} a d))

pub slice-replicate : (n a b : ℕ) → a ≤ b → b ≤ n → slice (replicate n 0) a b ≡ replicate (b - a) 0
unfolding slice
slice-replicate n a b h k =
    ap (take (b - a)) (drop-replicate 0 a n) ∙ take-replicate 0 (b - a) (n - a) (omega arith)

-- A slice and what lies behind it.
pub slice-drop : (d : Bytes) (a b : ℕ) → a ≤ b → slice d a b ++ drop b d ≡ drop a d
unfolding slice
slice-drop d a b h =
    ap (λ t. take (b - a) (drop a d) ++ t)
      (ap (λ n. drop n d) (let e : b ≡ a + (b - a) = omega arith in e)
        ∙ sym (drop-drop a (b - a) d))
    ∙ take-append-drop (b - a) (drop a d)

-- Reading one field of several side by side: the fields before it are skipped one by one.
pub slice-skip :
    (v rest : Bytes) (a b a' b' : ℕ)
    → length v + a ≡ a'
    → length v + b ≡ b'
    → slice (v ++ rest) a' b' ≡ slice rest a b
unfolding slice
slice-skip v rest a b a' b' h k =
    let width : b' - a' ≡ b - a = omega arith in
    rw (width, ← h, ← drop-drop (length v) a (v ++ rest), drop-append (length v) v rest refl)

pub slice-here : (v rest : Bytes) (b : ℕ) → length v ≡ b → slice (v ++ rest) 0 b ≡ v
unfolding slice
slice-here v rest b h = take-append (b - 0) v rest (omega arith)

-- `d[a..a + v.len()].copy_from_slice(v)`.
unfoldable pub put : Bytes → ℕ → Bytes → Bytes
put d a v = take a d ++ (v ++ drop (a + length v) d)

-- A write behind what is already written extends it.
pub put-append :
    (pre rest : Bytes) (a : ℕ) (v : Bytes)
    → length pre ≡ a
    → put (pre ++ rest) a v ≡ pre ++ (v ++ drop (length v) rest)
unfolding put
put-append pre rest a v h =
    rw (take-append a pre rest h, ← drop-drop a (length v) (pre ++ rest), drop-append a pre rest h)

-- Reading back what was written.
pub slice-put :
    (d : Bytes) (a : ℕ) (v : Bytes) (b : ℕ)
    → a + length v ≤ length d
    → a + length v ≡ b
    → slice (put d a v) a b ≡ v
unfolding put slice
slice-put d a v b room e =
    let front : length (take a d) ≡ a = length-take a d (omega arith) in
    let width : length v ≡ b - a = omega arith in
    ap (take (b - a)) (drop-append a (take a d) _ front) ∙ take-append (b - a) v _ width
