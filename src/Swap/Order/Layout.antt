-- ===== src/Swap/Order/Layout.antt =====
-- What the check of a signature instruction accepts, and that a signed message fixes its terms
-- (swap/src/order.rs).
use xete_programs.Base.{
  slice-drop, ◌%◌, ◌/◌, [], ◌∷◌, ℕ, ◌+◌, ◌-◌, ◌<◌, ◌≡◌, ◌↔◌, refl, sym, ap, ◌∙◌, List, [], ◌++◌,
  Bytes, length, slice, take, drop, length-append, length-drop, take-append, arith, leb-false,
  leb_of_lt, append-nil, ap₂, differs, false, eq_of_not_ne, not_ne_of_eq, differs-false,
  differs_of_eq, slice-here, slice-skip, length-slice,
}
use xete_programs.Base.Words.{length-le_bytes, le_bytes}
use xete_programs.Chain.Result.{ok, after_fail_if, fail_if, fail_if-ok}
use xete_programs.Chain.Types.{Pubkey}
use xete_programs.Swap.Order.Ed25519.{expected_header, ed25519_layout_ok}

-- The header of the canonical instruction, byte by byte: one signature and no padding; the signature at
-- 48, in this instruction; the key at 16, in this instruction; the message at 112, its length in two
-- bytes, in this instruction. "This instruction" is the index 65535.
abbrev pub canonical_header : ℕ → Bytes
canonical_header n =
    1
    ∷ 0
    ∷ 48
    ∷ 0
    ∷ 255
    ∷ 255
    ∷ 16
    ∷ 0
    ∷ 255
    ∷ 255
    ∷ 112
    ∷ 0
    ∷ n % 256
    ∷ n / 256 % 256
    ∷ 255
    ∷ 255
    ∷ []

expected_header_canonical : (n : ℕ) → expected_header n ≡ canonical_header n
unfolding expected_header le_bytes
expected_header_canonical n = refl

length-expected_header : (n : ℕ) → length (expected_header n) ≡ 16
unfolding expected_header
length-expected_header n = simp (length-append, length-le_bytes)

take_all {ℓ} : {A : Type ℓ} (n : ℕ) (xs : List A) → length xs ≡ n → take n xs ≡ xs
take_all n xs h = rw (append-nil xs) at (take-append n xs [] h)

module _ (d : Bytes) (signer : Pubkey) (message : Bytes) where
  -- The canonical header, the signer's key, 64 bytes of signature and the message, in this order and
  -- with nothing behind; the message is shorter than 2 ^ 16 bytes.
  abbrev pub Canonical : Type 0
  Canonical =
      (sig : Bytes) × (length sig ≡ 64)
      × (length message < 65536)
      × (d ≡ canonical_header (length message) ++ (signer ++ (sig ++ message)))

  pub layout-inv : ed25519_layout_ok d signer message ≡ ok tt → Canonical
  unfolding ed25519_layout_ok fail_if
  layout-inv h = after_fail_if _ _ _ h λ c1 h1. after_fail_if _ _ _ h1 λ c2 h2.
      after_fail_if _ _ _ h2 λ c3 h3. after_fail_if _ _ _ h3 λ c4 h4.
        let c5 : differs (slice d 112 (112 + length message)) message ≡ false = ground arith in
        let sized = eq_of_not_ne _ _ c2 in
        let tail : drop 112 d ≡ message =
          sym (
            take_all (112 + length message - 112) (drop 112 d)
              (omega (arith, length-drop {0} 112 d, sized)))
          ∙ (unfold slice in differs-false _ _ c5) in
        (
          slice d 48 112,
          length-slice d 48 112 (omega arith) (omega (arith, sized)),
          leb-false _ _ c1,
          sym (let e : slice d 0 16 ++ drop 16 d ≡ d = slice-drop d 0 16 (omega arith) in e)
              ∙ ap₂ (λ x y. x ++ y)
                  (differs-false _ _ c3 ∙ expected_header_canonical (length message))
                  (sym (slice-drop d 16 48 (omega arith))
                    ∙ ap₂ (λ x y. x ++ y) (differs-false _ _ c4)
                        (sym (slice-drop d 48 112 (omega arith))
                          ∙ ap (λ t. slice d 48 112 ++ t) tail)),
        )

  layout-ok : length signer ≡ 32 → Canonical → ed25519_layout_ok d signer message ≡ ok tt
  unfolding ed25519_layout_ok fail_if
  layout-ok h (sig, len, small, e') =
      let e : d ≡ expected_header (length message) ++ (signer ++ (sig ++ message)) =
        e'
        ∙ ap (λ x. x ++ (signer ++ (sig ++ message)))
            (sym (expected_header_canonical (length message))) in
      let header = expected_header (length message) in
      let head = length-expected_header (length message) in
      let sized : length d ≡ 112 + length message =
        ap length e
        ∙ (length-append header (signer ++ (sig ++ message))
            ∙ omega (
              arith,
              head,
              h,
              len,
              length-append signer (sig ++ message),
              length-append sig message,
            )) in
      let n = length message in
      let last : slice d 112 (112 + n) ≡ message =
        ap (λ x. slice x 112 (112 + n)) e
        ∙ (slice-skip header (signer ++ (sig ++ message)) 96 (96 + n) 112 (112 + n)
              (omega (arith, head)) (omega (arith, head))
            ∙ (slice-skip signer (sig ++ message) 64 (64 + n) 96 (96 + n) (omega (arith, h))
                  (omega (arith, h))
                ∙ (slice-skip sig message 0 n 64 (64 + n) (omega (arith, len)) (omega (arith, len))
                    ∙ (unfold slice in take_all (n - 0) message (omega arith))))) in
      fail_if-ok _ _ _ (leb_of_lt _ _ small)
      ∙ (fail_if-ok _ _ _ (not_ne_of_eq _ _ sized)
          ∙ (fail_if-ok _ _ _ (
                differs_of_eq _ _ (
                  ap (λ x. slice x 0 16) e
                  ∙ (slice-here header (signer ++ (sig ++ message)) 16 head)))
              ∙ (fail_if-ok _ _ _ (
                    differs_of_eq _ _ (
                      ap (λ x. slice x 16 48) e
                      ∙ (slice-skip header (signer ++ (sig ++ message)) 0 32 16 48
                            (omega (arith, head)) (omega (arith, head))
                          ∙ slice-here signer (sig ++ message) 32 h)))
                  ∙ rw (differs_of_eq (slice d 112 (112 + length message)) message last) refl)))

  -- For a signer of 32 bytes, the check accepts exactly the canonical data of that signer over that
  -- message: the sixteen header bytes, with every instruction index 65535, the signer, 64 bytes and the
  -- message, shorter than 2 ^ 16 bytes.
  pub ed25519_layout_ok_exact :
      length signer ≡ 32 → (ed25519_layout_ok d signer message ≡ ok tt) ↔ Canonical
  ed25519_layout_ok_exact h = (layout-inv, layout-ok h)
