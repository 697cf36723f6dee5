-- ===== src/Swap/Order/Checked.antt =====
-- What the gates of an order or a bid establish (swap/src/order.rs).
use xete_programs.Base.{
  ℕ, suc, ◌-◌, ◌≡◌, ap, ◌∙◌, false, [], ◌∷◌, Bytes, differs-false, arith, Bool-cases, ◌⊎◌, inl, inr,
  ◌&&◌, differs,
}
use xete_programs.Base.Int.{ℤ, ◌<ℤ◌, leb_ℤ_false}
use xete_programs.Chain.Result.{ok, after_fail_if, after_bind, fail_if-inv}
use xete_programs.Chain.Types.{Pubkey, AccountInfo, Runtime, Instruction}
use xete_programs.Swap.Ids.{ed25519_program}
use xete_programs.Swap.Checks.{any_nonzero}
use xete_programs.Swap.Order.Ed25519.{Terms, signed_message, verify_ed25519_order}
use xete_programs.Swap.Order.Gate.{Auth, order_seed, order_done_seed, check_timely, check_signed}
use xete_programs.Swap.Order.Layout.{Canonical, layout-inv}

-- The marker of an order: one address for a maker and a nonce, of orders and bids alike.
abbrev pub marker : Runtime → Pubkey → Pubkey → Bytes → Pubkey × ℕ
marker rt program_id maker nonce =
    rt.find_program_address (order_done_seed ∷ maker ∷ nonce ∷ []) program_id

-- An instruction of the signature program over a message, by a signer, just before this one.
pub record SignedBefore (rt : Runtime) (ix_sysvar : AccountInfo) (signer : Pubkey) (message : Bytes)
    : Type 0 where
  pub sysvar : ix_sysvar.key ≡ rt.sysvar_instructions_id
  pub place : ℕ
  pub current : rt.current_index ≡ ok (suc place)
  pub instruction : Instruction
  pub before : rt.instruction_at place ≡ ok instruction
  pub program : instruction.program_id ≡ ed25519_program
  pub canonical : Canonical instruction.bytes signer message

pub record Authorized (rt : Runtime) (program_id : Pubkey) (domain : Bytes) (t : Terms) (a : Auth)
    : Type 0 where
  pub now : ℤ
  pub clock : rt.unix_timestamp ≡ ok now
  pub in_time : now <ℤ t.expiry
  pub named : (any_nonzero t.taker ≡ false) ⊎ (t.taker ≡ a.taker.key)
  pub signed : SignedBefore rt a.ix_sysvar a.maker.key (signed_message domain t)
  pub authority :
      (rt.find_program_address (order_seed ∷ a.maker.key ∷ []) program_id).0 ≡ a.order_auth.key
  pub marked : (marker rt program_id a.maker.key t.nonce).0 ≡ a.order_done.key

pub verify_ed25519_order-inv :
    (rt : Runtime) (ix_sysvar : AccountInfo) (signer : Pubkey) (message : Bytes)
    → verify_ed25519_order rt ix_sysvar signer message ≡ ok tt
    → SignedBefore rt ix_sysvar signer message
unfolding verify_ed25519_order
verify_ed25519_order-inv rt ix signer message h = after_fail_if _ _ _ h λ c1 h1.
    after_bind _ _ h1 λ cur ec h2. after_fail_if _ _ _ h2 λ c2 h3. after_bind _ _ h3 λ ed ee h4.
      after_fail_if _ _ _ h4 λ c3 h5. record {
        sysvar = differs-false _ _ c1;
        place = cur - 1;
        current = ec ∙ ap ok (let e : cur ≡ suc (cur - 1) = ground (arith, c2) in e);
        instruction = ed;
        before = ee;
        program = differs-false _ _ c3;
        canonical = layout-inv ed.bytes signer message h5;
      }

pub named_taker :
    (t k : Bytes) → (any_nonzero t && differs t k) ≡ false → (any_nonzero t ≡ false) ⊎ (t ≡ k)
named_taker t k h = elim (Bool-cases (any_nonzero t)) [
  | inl y ↦ inr (differs-false t k (rw y at h))
  | inr n ↦ inl n
]

pub check_timely-inv :
    (rt : Runtime) (t : Terms) (a : Auth)
    → check_timely rt t a ≡ ok tt
    → (now : ℤ) × (rt.unix_timestamp ≡ ok now)
      × (now <ℤ t.expiry)
      × ((any_nonzero t.taker ≡ false) ⊎ (t.taker ≡ a.taker.key))
unfolding check_timely
check_timely-inv rt t a h = after_bind _ _ h λ now en h1. after_fail_if _ _ _ h1 λ c1 h2.
    (now, en, leb_ℤ_false t.expiry now c1, named_taker t.taker a.taker.key (fail_if-inv _ _ h2))

module _ (rt : Runtime) (program_id : Pubkey) (domain : Bytes) (t : Terms) (a : Auth) where
  pub check_signed-inv :
      {bumps : ℕ × ℕ}
      → check_timely rt t a ≡ ok tt
      → check_signed rt program_id domain t a ≡ ok bumps
      → Authorized rt program_id domain t a
        × (bumps ≡ (
          (rt.find_program_address (order_seed ∷ a.maker.key ∷ []) program_id).1,
          (marker rt program_id a.maker.key t.nonce).1,
        ))
  unfolding check_signed
  check_signed-inv timely h = after_bind _ _ h λ u ev h4. after_fail_if _ _ _ h4 λ c3 h5.
      after_fail_if _ _ _ h5 λ c4 h6.
        let (now, clock, in_time, named) = check_timely-inv rt t a timely in
        (
          record {
            now = now;
            clock = clock;
            in_time = in_time;
            named = named;
            signed =
                verify_ed25519_order-inv rt a.ix_sysvar a.maker.key (signed_message domain t) ev;
            authority = differs-false _ _ c3;
            marked = differs-false _ _ c4;
          },
          ground (arith, h6),
        )
