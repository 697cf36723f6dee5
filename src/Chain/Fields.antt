-- ===== src/Chain/Fields.antt =====
-- Reading one field out of several side by side.
use xete_programs.Base.{
  ℕ, zero, suc, ◌+◌, ◌<◌, ◌≡◌, refl, sym, ap, ◌∙◌, List, [], ◌∷◌, ◌++◌, append_assoc, Bytes, length,
  get_or, slice, slice-here, slice-skip, arith, take, drop, ◌-◌,
}
use xete_programs.Chain.Writes.{concat}

-- The offset of field `j`.
abbrev pub offset : List Bytes → ℕ → ℕ
offset [] j = 0
offset (v ∷ vs) zero = 0
offset (v ∷ vs) (suc j) = length v + offset vs j

pub slice_field :
    (vs : List Bytes) (rest : Bytes) (j a b : ℕ)
    → j < length vs
    → offset vs j ≡ a
    → offset vs j + length (get_or vs j []) ≡ b
    → slice (concat vs ++ rest) a b ≡ get_or vs j []
slice_field [] rest j a b h ea eb = absurd (omega arith)
slice_field (v ∷ vs) rest zero a b h ea eb =
    ap (λ n. slice (concat (v ∷ vs) ++ rest) n b) (sym ea)
    ∙ (ap (λ x. slice x 0 b) (append_assoc v (concat vs) rest)
        ∙ slice-here v (concat vs ++ rest) b (omega (arith, eb)))
slice_field (v ∷ vs) rest (suc j) a b h ea eb =
    ap (λ x. slice x a b) (append_assoc v (concat vs) rest)
    ∙ (slice-skip v (concat vs ++ rest) (offset vs j) (offset vs j + length (get_or vs j [])) a b ea
          (omega (arith, eb))
        ∙ slice_field vs rest j (offset vs j) (offset vs j + length (get_or vs j []))
            (omega (arith, h)) refl refl)

-- One byte, read alone.
get_or-drop : (d : Bytes) (i x : ℕ) (r : Bytes) → drop i d ≡ x ∷ r → get_or d i 0 ≡ x
get_or-drop [] zero x r h = absurd (ground (arith, ap length h))
get_or-drop [] (suc i) x r h = absurd (ground (arith, ap length h))
get_or-drop (y ∷ d) zero x r h = cc
get_or-drop (y ∷ d) (suc i) x r h = get_or-drop d i x r h

take-one : (e : Bytes) (x : ℕ) → take 1 e ≡ x ∷ [] → e ≡ x ∷ drop 1 e
take-one [] x h = absurd (ground (arith, ap length h))
take-one (y ∷ e) x h = ap (λ z. z ∷ e) (cc)

pub get_or-slice : (d : Bytes) (i x : ℕ) → slice d i (i + 1) ≡ x ∷ [] → get_or d i 0 ≡ x
unfolding slice
get_or-slice d i x h =
    let width : i + 1 - i ≡ 1 = omega arith in
    get_or-drop d i x (drop 1 (drop i d))
      (take-one (drop i d) x (ap (λ n. take n (drop i d)) (sym width) ∙ h))
