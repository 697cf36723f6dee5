-- ===== src/Swap/Order/Gate.antt =====
-- The gates that orders and bids share: the clock, the named taker, the signature, the addresses
-- and the marker that keeps an order from settling twice (swap/src/order.rs).
use xete_programs.Base.{◌&&◌, ℕ, [], ◌∷◌, Bytes, slice, get_or, differs}
use xete_programs.Base.Int.{leb_ℤ}
use xete_programs.Base.Words.{from_le, i64_from_le}
use xete_programs.Chain.Result.{Result, ok, invalid_argument, invalid_seeds, fail_if, ◌>>=◌, ◌>>◌}
use xete_programs.Chain.Types.{Pubkey, AccountInfo, Runtime}
use xete_programs.Swap.Checks.{any_nonzero}
use xete_programs.Swap.Order.Ed25519.{Terms, signed_message, verify_ed25519_order}

-- b"order"
abbrev pub order_seed : Bytes
order_seed = b'o' ∷ b'r' ∷ b'd' ∷ b'e' ∷ b'r' ∷ []

-- b"order_done"
abbrev pub order_done_seed : Bytes
order_done_seed = b'o' ∷ b'r' ∷ b'd' ∷ b'e' ∷ b'r' ∷ b'_' ∷ b'd' ∷ b'o' ∷ b'n' ∷ b'e' ∷ []

-- The terms in the 90 bytes of a settlement, for the two mints of its accounts.
unfoldable pub payload_terms : Bytes → (give_mint want_mint : Pubkey) → Terms
payload_terms d give_mint want_mint = record {
  give_mint = give_mint;
  give_amount = from_le (slice d 0 8);
  want_mint = want_mint;
  want_amount = from_le (slice d 8 16);
  taker = slice d 16 48;
  expiry = i64_from_le (slice d 48 56);
  nonce = slice d 56 88;
  royalty_mode = get_or d 88 0;
  maker_pct = get_or d 89 0;
}

-- The accounts that the gates look at.
pub record Auth : Type 0 where
  pub taker : AccountInfo
  pub maker : AccountInfo
  pub order_auth : AccountInfo
  pub order_done : AccountInfo
  pub system : AccountInfo
  pub ix_sysvar : AccountInfo

-- The clock and the taker that the terms name.
unfoldable pub check_timely : Runtime → Terms → Auth → Result (Unit {0})
check_timely rt t a = do
  now ← rt.unix_timestamp
  fail_if (leb_ℤ t.expiry now) invalid_argument
  fail_if (any_nonzero t.taker && differs t.taker a.taker.key) invalid_argument

-- The signature and the addresses. The result is the bump of the order authority and of the marker.
unfoldable pub check_signed : Runtime → Pubkey → (domain : Bytes) → Terms → Auth → Result (ℕ × ℕ)
check_signed rt program_id domain t a = do
  verify_ed25519_order rt a.ix_sysvar a.maker.key (signed_message domain t)
  let auth = rt.find_program_address (order_seed ∷ a.maker.key ∷ []) program_id
  fail_if (differs auth.0 a.order_auth.key) invalid_seeds
  let done = rt.find_program_address (order_done_seed ∷ a.maker.key ∷ t.nonce ∷ []) program_id
  fail_if (differs done.0 a.order_done.key) invalid_seeds
  ok (auth.1, done.1)
