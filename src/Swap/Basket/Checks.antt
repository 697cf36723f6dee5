-- ===== src/Swap/Basket/Checks.antt =====
-- What the baskets' handlers read of the basket account and of the payload (swap/src/basket.rs).
use xete_programs.Base.{
  ℕ, zero, suc, ◌+◌, ◌*◌, not, ◌||◌, ◌&&◌, ◌==◌, [], ◌∷◌, Bytes, length, slice, get_or, differs,
}
use xete_programs.Base.Int.{ℤ, ltb_ℤ, leb_ℤ}
use xete_programs.Base.Words.{from_le, i64_from_le}
use xete_programs.Chain.Result.{
  Result, ok, invalid_argument, invalid_account_data, invalid_seeds, illegal_owner, fail_if, ◌>>=◌,
  ◌>>◌,
}
use xete_programs.Chain.Types.{Pubkey, AccountInfo, Ledger, Runtime}
use xete_programs.Chain.Decode.{arr32, index}
use xete_programs.Swap.Layout.{
  b_maker, b_give_count, b_want_count, b_want, b_taker, b_auth_mode, b_claim_auth, b_expiry,
  b_status, b_bump, basket_len, entry, status_open, auth_normal, auth_bearer,
}
use xete_programs.Swap.Checks.{any_nonzero}

-- b"basket"
abbrev pub basket_seed : Bytes
basket_seed = b'b' ∷ b'a' ∷ b's' ∷ b'k' ∷ b'e' ∷ b't' ∷ []

-- b"bvault"
abbrev pub bvault_seed : Bytes
bvault_seed = b'b' ∷ b'v' ∷ b'a' ∷ b'u' ∷ b'l' ∷ b't' ∷ []

-- The mint and the amount of a basket's entry.
pub record Entry : Type 0 where
  pub mint : Pubkey
  pub amount : ℕ

-- The entry at an offset of the basket's data.
unfoldable pub read_entry : AccountInfo → ℕ → Ledger → Result Entry
read_entry swap o l = do
  let s = (l swap.key).contents
  m ← index s o (o + 32)
  mint ← arr32 m
  amount ← index s (o + 32) (o + 40)
  ok (record { mint = mint; amount = from_le amount })

-- Whether `mint` stands among the next `n` entries of the want basket.
unfoldable pub refuse_wanted :
    AccountInfo → (mint : Pubkey) → (n j : ℕ) → Ledger → Result (Unit {0})
refuse_wanted swap mint zero j l = ok tt
refuse_wanted swap mint (suc n) j l = do
  m ← index (l swap.key).contents (b_want + j * entry) (b_want + j * entry + 32)
  fail_if (not (differs m mint)) invalid_argument
  refuse_wanted swap mint n (suc j) l

unfoldable pub check_bvault :
    Runtime → Pubkey → (maker nonce : Bytes) → ℕ → AccountInfo → Result (Pubkey × ℕ)
check_bvault rt program_id maker nonce i vault = do
  let pda = rt.find_program_address (bvault_seed ∷ maker ∷ nonce ∷ (i ∷ []) ∷ []) program_id
  fail_if (differs pda.0 vault.key) invalid_seeds
  ok pda

-- What the handlers keep of an open basket.
pub record BasketState : Type 0 where
  pub give_count : ℕ
  pub want_count : ℕ
  pub bump : ℕ
  pub maker : Pubkey

-- The fields that outlive the borrow.
unfoldable pub basket_state : Bytes → Pubkey → BasketState
basket_state s maker = record {
  give_count = get_or s b_give_count 0;
  want_count = get_or s b_want_count 0;
  bump = get_or s b_bump 0;
  maker = maker;
}

-- `s.len() != BASKET_LEN || s[B_STATUS] != STATUS_OPEN`
unfoldable pub check_open : Bytes → Result (Unit {0})
check_open s =
    fail_if (not (length s == basket_len) || not (get_or s b_status 0 == status_open))
      invalid_account_data

-- The block in `fill_basket`.
unfoldable pub load_fill_basket : Runtime → (swap taker : AccountInfo) → Ledger → Result BasketState
unfolding check_open basket_state
load_fill_basket rt swap taker l = do
  let s = (l swap.key).contents
  check_open s
  fail_if (not (get_or s b_auth_mode 0 == auth_normal)) invalid_argument
  fail_if (get_or s b_want_count 0 == 0) invalid_argument
  let expiry = i64_from_le (slice s b_expiry (b_expiry + 8))
  now ← rt.unix_timestamp
  fail_if (leb_ℤ expiry now) invalid_argument
  let named = slice s b_taker (b_taker + 32)
  fail_if (any_nonzero named && differs named taker.key) invalid_argument
  maker ← arr32 (slice s b_maker (b_maker + 32))
  ok (basket_state s maker)

-- The block in `claim_bearer`: only the hash of the bearer's key is stored.
unfoldable pub load_claim_basket :
    Runtime → (swap bearer : AccountInfo) → Ledger → Result BasketState
unfolding check_open basket_state
load_claim_basket rt swap bearer l = do
  let s = (l swap.key).contents
  check_open s
  fail_if (not (get_or s b_auth_mode 0 == auth_bearer)) invalid_argument
  fail_if (differs (slice s b_claim_auth (b_claim_auth + 32)) (rt.hashv (bearer.key ∷ [])))
      invalid_argument
  maker ← arr32 (slice s b_maker (b_maker + 32))
  ok (basket_state s maker)

-- The block in `rewrap`. The result is the maker.
unfoldable pub load_rewrap : Runtime → (swap bearer : AccountInfo) → Ledger → Result Pubkey
load_rewrap rt swap bearer l = do
  let s = (l swap.key).contents
  fail_if
      (not (length s == basket_len)
        || not (get_or s b_status 0 == status_open)
        || not (get_or s b_auth_mode 0 == auth_bearer))
      invalid_account_data
  fail_if (differs (slice s b_claim_auth (b_claim_auth + 32)) (rt.hashv (bearer.key ∷ [])))
      invalid_argument
  arr32 (slice s b_maker (b_maker + 32))

-- The block in `cancel_basket`.
unfoldable pub load_cancel_basket : (swap maker : AccountInfo) → Ledger → Result BasketState
unfolding check_open basket_state
load_cancel_basket swap maker l = do
  let s = (l swap.key).contents
  check_open s
  fail_if (get_or s b_auth_mode 0 == auth_bearer) invalid_argument
  fail_if (differs (slice s b_maker (b_maker + 32)) maker.key) illegal_owner
  ok (basket_state s maker.key)

-- The block in `expire_basket`.
unfoldable pub load_expired_basket : Runtime → (swap : AccountInfo) → Ledger → Result BasketState
unfolding check_open basket_state
load_expired_basket rt swap l = do
  let s = (l swap.key).contents
  check_open s
  fail_if (get_or s b_auth_mode 0 == auth_bearer) invalid_argument
  let expiry = i64_from_le (slice s b_expiry (b_expiry + 8))
  now ← rt.unix_timestamp
  fail_if (ltb_ℤ now expiry) invalid_argument
  maker ← arr32 (slice s b_maker (b_maker + 32))
  ok (basket_state s maker)

-- The payload of `open_basket`, past the two counts.
pub record BasketTerms : Type 0 where
  pub nonce : Bytes
  pub give_count : ℕ
  pub want_count : ℕ
  pub want_off : ℕ
  pub expiry : ℤ
  pub taker : Bytes
  pub auth_mode : ℕ
  pub claim_auth : Bytes

-- The fields at the offsets that the counts give.
unfoldable pub basket_terms : Bytes → BasketTerms
basket_terms d =
    let give_count = get_or d 32 0 in
    let want_count = get_or d 33 0 in
    let want_off = 34 + give_count * 8 in
    let tail_off = want_off + want_count * entry in
    record {
      nonce = slice d 0 32;
      give_count = give_count;
      want_count = want_count;
      want_off = want_off;
      expiry = i64_from_le (slice d tail_off (tail_off + 8));
      taker = slice d (tail_off + 8) (tail_off + 40);
      auth_mode = get_or d (tail_off + 40) 0;
      claim_auth = slice d (tail_off + 41) (tail_off + 73);
    }
