-- ===== src/Swap/Escrowless/Loaded.antt =====
-- When an open listing past its deadline is read (swap/src/escrowless.rs).
use xete_programs.Swap.Slot.{derive_address}
use xete_programs.Base.{
  Bytes, [], ◌∷◌, differs_of_eq, ℕ, ◌+◌, ◌≡◌, ◌∙◌, false, length, length-slice, slice, get_or,
  arith, not, ◌==◌, ◌||◌,
}
use xete_programs.Base.Int.{ℤ, ◌≤ℤ◌, ltb_ℤ}
use xete_programs.Chain.Result.{ok, bind-ok, fail_if-ok}
use xete_programs.Chain.Types.{Pubkey, AccountInfo, Ledger, Runtime}
use xete_programs.Chain.Decode.{arr32_of_length}
use xete_programs.Swap.Layout.{s_maker, s_status, swap_len, status_open}
use xete_programs.Swap.Spl.Loaded.{stored_expiry}
use xete_programs.Swap.Escrowless.Checks.{load_expired_listing}

late_enough : (now expiry : ℤ) → expiry ≤ℤ now → ltb_ℤ now expiry ≡ false
late_enough now expiry h = ground arith

open_enough :
    (n m : ℕ)
    → n ≡ swap_len
    → m ≡ status_open
    → (not (n == swap_len) || not (m == status_open)) ≡ false
open_enough n m h k = ground arith

pub load_expired_listing-ok :
    (rt : Runtime) (listing : AccountInfo) (l : Ledger) (now : ℤ)
    → length (l listing.key).contents ≡ swap_len
    → get_or (l listing.key).contents s_status 0 ≡ status_open
    → rt.unix_timestamp ≡ ok now
    → stored_expiry (l listing.key).contents ≤ℤ now
    → load_expired_listing rt listing l ≡ ok (slice (l listing.key).contents s_maker (s_maker + 32))
unfolding load_expired_listing
load_expired_listing-ok rt listing l now sized opened clock late =
    fail_if-ok _ _ _ (open_enough _ _ sized opened)
    ∙ (bind-ok _ _ now clock
        ∙ (fail_if-ok _ _ _ (late_enough now (stored_expiry (l listing.key).contents) late)
            ∙ arr32_of_length (slice (l listing.key).contents s_maker (s_maker + 32)) (
                length-slice (l listing.key).contents s_maker (s_maker + 32) (omega arith)
                  (omega (arith, sized)))))

pub derive_address-ok :
    (rt : Runtime) (program_id : Pubkey) (seed : Bytes) (slot : AccountInfo) (maker nonce : Bytes)
    → (rt.find_program_address (seed ∷ maker ∷ nonce ∷ []) program_id).0 ≡ slot.key
    → derive_address rt program_id seed slot maker nonce
      ≡ ok (rt.find_program_address (seed ∷ maker ∷ nonce ∷ []) program_id)
unfolding derive_address
derive_address-ok rt program_id seed slot maker nonce h = rw (differs_of_eq _ _ h)
