-- ===== src/Swap/Order/Ed25519.antt =====
-- What the maker of an order signed, and the check of the signature instruction
-- (swap/src/order.rs).
use xete_programs.Base.{ℕ, ◌+◌, ◌-◌, not, ◌==◌, leb, [], ◌∷◌, ◌++◌, Bytes, length, slice, differs}
use xete_programs.Base.Int.{ℤ}
use xete_programs.Base.Words.{u16_le, u64_le, i64_le}
use xete_programs.Chain.Result.{Result, invalid_argument, fail_if, ◌>>=◌, ◌>>◌}
use xete_programs.Chain.Types.{Pubkey, AccountInfo, Runtime}
use xete_programs.Swap.Ids.{ed25519_program}

-- b"AXTSWAP:order:1"
abbrev pub order_domain : Bytes
order_domain =
    b'A' ∷ b'X' ∷ b'T' ∷ b'S' ∷ b'W' ∷ b'A' ∷ b'P' ∷ b':' ∷ b'o' ∷ b'r' ∷ b'd' ∷ b'e' ∷ b'r' ∷ b':'
    ∷ b'1' ∷ []

-- b"AXTSWAP:bid:1"
abbrev pub bid_domain : Bytes
bid_domain =
    b'A' ∷ b'X' ∷ b'T' ∷ b'S' ∷ b'W' ∷ b'A' ∷ b'P' ∷ b':' ∷ b'b' ∷ b'i' ∷ b'd' ∷ b':' ∷ b'1' ∷ []

-- The terms that an order or a bid fixes.
pub record Terms : Type 0 where
  pub give_mint : Pubkey
  pub give_amount : ℕ
  pub want_mint : Pubkey
  pub want_amount : ℕ
  pub taker : Pubkey
  pub expiry : ℤ
  pub nonce : Bytes
  pub royalty_mode : ℕ
  pub maker_pct : ℕ

-- The bytes that are signed, after the domain.
unfoldable pub signed_message : Bytes → Terms → Bytes
signed_message domain t =
    domain
    ++ (t.give_mint
        ++ (u64_le t.give_amount
            ++ (t.want_mint
                ++ (u64_le t.want_amount
                    ++ (t.taker
                        ++ (i64_le t.expiry
                            ++ (t.nonce ++ (t.royalty_mode ∷ t.maker_pct ∷ []))))))))

-- The header of the canonical instruction: one signature, and the offsets into its own data.
unfoldable pub expected_header : ℕ → Bytes
expected_header msg_sz =
    (1 ∷ 0 ∷ [])
    ++ u16_le 48
    ++ u16_le 65535
    ++ u16_le 16
    ++ u16_le 65535
    ++ u16_le 112
    ++ u16_le msg_sz
    ++ u16_le 65535

-- A message of 2 ^ 16 bytes or more does not fit the native size field. The 64-bit sum of the
-- offset and the length of such a short message does not overflow.
unfoldable pub ed25519_layout_ok : Bytes → Pubkey → Bytes → Result (Unit {0})
ed25519_layout_ok d signer message = do
  fail_if (leb 65536 (length message)) invalid_argument
  fail_if (not (length d == 112 + length message)) invalid_argument
  fail_if (differs (slice d 0 16) (expected_header (length message))) invalid_argument
  fail_if (differs (slice d 16 48) signer) invalid_argument
  fail_if (differs (slice d 112 (112 + length message)) message) invalid_argument

-- The instruction just before this one must be the signature program's, of this layout.
unfoldable pub verify_ed25519_order : Runtime → AccountInfo → Pubkey → Bytes → Result (Unit {0})
unfolding ed25519_layout_ok
verify_ed25519_order rt ix_sysvar signer message = do
  fail_if (differs ix_sysvar.key rt.sysvar_instructions_id) invalid_argument
  cur ← rt.current_index
  fail_if (cur == 0) invalid_argument
  ed ← rt.instruction_at (cur - 1)
  fail_if (differs ed.program_id ed25519_program) invalid_argument
  ed25519_layout_ok ed.bytes signer message
