-- ===== src/Chain/Panics.antt =====
-- Freedom from panics: rules for the steps of a reader.
use xete_programs.Base.{
  ℕ, ◌≤◌, ◌<◌, ◌≡◌, ◌≢◌, ◌∙◌, refl, sym, Bool, true, false, Bytes, length, slice, get_or,
}
use xete_programs.Chain.Result.{
  Result, ok, err, panicked, invalid_account_data, fail_if, ◌>>=◌, ◌>>◌,
}
use xete_programs.Chain.Decode.{index, index_of_le, byte, byte_of_lt}

abbrev pub NoPanic {ℓ} : {A : Type ℓ} → Result A → Type ℓ
NoPanic r = r ≢ err panicked

pub ok-NoPanic {ℓ} : {A : Type ℓ} (a : A) → NoPanic (ok a)
ok-NoPanic a h = cc

pub err-NoPanic {ℓ} : {A : Type ℓ} → NoPanic {A = A} (err invalid_account_data)
err-NoPanic h = cc

pub bind-NoPanic {ℓ κ} :
    {A : Type ℓ} {B : Type κ} (m : Result A) (f : A → Result B)
    → NoPanic m
    → ((a : A) → m ≡ ok a → NoPanic (f a))
    → NoPanic (m >>= f)
unfolding ◌>>=◌
bind-NoPanic (ok a) f hm hf h = hf a refl h
bind-NoPanic (err e) f hm hf h = hm cc

pub fail_if-NoPanic {κ} :
    {B : Type κ} (c : Bool) (r : Result B)
    → (c ≡ false → NoPanic r)
    → NoPanic (fail_if c invalid_account_data >> r)
unfolding ◌>>=◌ fail_if
fail_if-NoPanic true r hr h = cc
fail_if-NoPanic false r hr h = hr refl h

pub index-NoPanic : (d : Bytes) (a b : ℕ) → b ≤ length d → NoPanic (index d a b)
index-NoPanic d a b h p = ok-NoPanic (slice d a b) (sym (index_of_le d a b h) ∙ p)

pub byte-NoPanic : (d : Bytes) (i : ℕ) → i < length d → NoPanic (byte d i)
byte-NoPanic d i h p = ok-NoPanic (get_or d i 0) (sym (byte_of_lt d i h) ∙ p)
