-- ===== src/Swap/Events.antt =====
-- The event logged when an order is created (swap/src/events.rs).
use xete_programs.Base.{ℕ, List, [], ◌∷◌, Bytes, replicate, put}
use xete_programs.Base.Int.{ℤ}
use xete_programs.Base.Words.{u64_le, i64_le}
use xete_programs.Chain.Types.{Pubkey}
use xete_programs.Chain.Action.{Action, log}

abbrev pub disc_post_created : Bytes
disc_post_created = 0x51 ∷ 0x55 ∷ 0xd0 ∷ 0xc6 ∷ 0x8d ∷ 0xfd ∷ 0x67 ∷ 0xfd ∷ []

-- b"xete"
abbrev pub magic : Bytes
magic = b'x' ∷ b'e' ∷ b't' ∷ b'e' ∷ []

abbrev pub schema_version : ℕ
schema_version = 1

abbrev pub post_created_len : ℕ
post_created_len = 198

abbrev pub kind_swap : ℕ
kind_swap = 0

abbrev pub kind_listing : ℕ
kind_listing = 1

abbrev pub kind_listing_pnft : ℕ
kind_listing_pnft = 2

abbrev pub kind_listing_core : ℕ
kind_listing_core = 3

abbrev pub kind_swap_pnft : ℕ
kind_swap_pnft = 4

abbrev pub kind_swap_core : ℕ
kind_swap_core = 5

-- The fields of an event.
pub record PostCreated : Type 0 where
  pub kind : ℕ
  pub maker : Pubkey
  pub post : Pubkey
  pub give : Pubkey
  pub want : Pubkey
  pub give_amount : ℕ
  pub want_amount : ℕ
  pub expiry : ℤ
  pub nonce : Bytes

-- The offsets and bytes in the order of the copies into the buffer.
unfoldable pub post_created_fields : PostCreated → List (ℕ × Bytes)
post_created_fields e =
    (0, disc_post_created)
    ∷ (8, magic)
    ∷ (12, schema_version ∷ [])
    ∷ (13, e.kind ∷ [])
    ∷ (14, e.maker)
    ∷ (46, e.post)
    ∷ (78, e.give)
    ∷ (110, e.want)
    ∷ (142, u64_le e.give_amount)
    ∷ (150, u64_le e.want_amount)
    ∷ (158, i64_le e.expiry)
    ∷ (166, e.nonce)
    ∷ []

unfoldable pub put_all : List (ℕ × Bytes) → Bytes → Bytes
unfolding put
put_all [] b = b
put_all ((o, v) ∷ r) b = put_all r (put b o v)

unfoldable pub encode_post_created : PostCreated → Bytes
unfolding post_created_fields put_all
encode_post_created e = put_all (post_created_fields e) (replicate post_created_len 0)

unfoldable pub emit_post_created : PostCreated → Action (Unit {0})
emit_post_created e = log (encode_post_created e)
