-- ===== src/Tests/OrderRuns.antt =====
-- Runs of the gates of signed orders (swap/src/order.rs): maker 1 signed an order for taker 2.
use xete_programs.Base.{
  ℕ, ◌≡◌, ◌≢◌, ◌↔◌, refl, ap, List, [], ◌∷◌, ◌++◌, Bytes, length, replicate, arith, slice,
}
use xete_programs.Base.Int.{pos}
use xete_programs.Chain.Result.{ok}
use xete_programs.Chain.Types.{Pubkey, AccountInfo, Instruction, Runtime, World, set_account}
use xete_programs.Swap.Ids.{ed25519_program}
use xete_programs.Swap.Order.Ed25519.{
  Terms, order_domain, bid_domain, signed_message, expected_header, ed25519_layout_ok,
}
use xete_programs.Swap.Order.Gate.{Auth}
use xete_programs.Swap.Order.{
  OrderAccounts, order_accounts, BidAccounts, bid_accounts, authorize, settle_signed_order,
  settle_signed_bid_spl,
}
use xete_programs.Swap.Order.Layout.{Canonical, ed25519_layout_ok_exact}
use xete_programs.Swap.Order.Message.{IsTerms, signed_message-inj, order_message-ne-bid_message}
use xete_programs.Swap.Order.Authorized.{Marked, authorize_checked}
use xete_programs.Swap.Order.Replay.{settles_once}
use xete_programs.Tests.{
  key, signer, handle, chain, no_account, nowhere, world_of, chain-RefusesUsed,
}

abbrev pub program : Pubkey
program = key 9

abbrev terms : Terms
terms = record {
  give_mint = key 20;
  give_amount = 30;
  want_mint = key 21;
  want_amount = 1000;
  taker = key 2;
  expiry = pos 90;
  nonce = key 4;
  royalty_mode = 0;
  maker_pct = 0;
}

abbrev message : Bytes
message = signed_message order_domain terms

abbrev pub signature : Instruction
signature = record {
  program_id = ed25519_program;
  accounts = [];
  bytes = expected_header (length message) ++ (key 1 ++ (replicate 64 5 ++ message));
}

abbrev pub early : Runtime
early = chain (pos 50) signature

abbrev gates : Auth
gates = record {
  taker = signer 2;
  maker = handle 1;
  order_auth = handle 116;
  order_done = handle 121;
  system = handle 0;
  ix_sysvar = handle 7;
}

abbrev authorized : World
authorized = world_of (authorize early program order_domain terms gates nowhere)

authorize-runs : authorize early program order_domain terms gates nowhere ≡ ok (255, authorized)
unfolding authorize xete_programs.Chain.Action.◌>>=◌ xete_programs.Chain.Action.lift
    xete_programs.Swap.Order.Gate.check_timely xete_programs.Swap.Order.Gate.check_signed
    xete_programs.Swap.Order.mark_order xete_programs.Chain.Result.◌>>=◌
    xete_programs.Chain.Result.fail_if xete_programs.Swap.Checks.any_nonzero
    xete_programs.Base.differs xete_programs.Swap.Order.Ed25519.verify_ed25519_order ed25519_program
    signed_message xete_programs.Base.Words.le_bytes xete_programs.Base.Words.i64_le expected_header
    slice xete_programs.Swap.Cpi.create_pda xete_programs.Chain.Action.perform
    xete_programs.Base.bytes_eq xete_programs.Base.Words.i64_word ed25519_layout_ok
    xete_programs.Tests.answer
authorize-runs = refl

authorize_checked_example : Marked early program order_domain terms gates nowhere authorized 255
authorize_checked_example =
    authorize_checked early program order_domain terms gates nowhere authorized 255 authorize-runs

ed25519_layout_ok_exact_example :
    (ed25519_layout_ok signature.bytes (key 1) message ≡ ok tt)
    ↔ Canonical signature.bytes (key 1) message
ed25519_layout_ok_exact_example = ed25519_layout_ok_exact signature.bytes (key 1) message refl

terms-IsTerms : IsTerms terms
terms-IsTerms = record {
  give_mint = refl;
  give_amount = omega arith;
  want_mint = refl;
  want_amount = omega arith;
  taker = refl;
  expiry = (omega arith, omega arith);
  nonce = refl;
}

signed_message-inj_example : terms ≡ terms
signed_message-inj_example =
    signed_message-inj order_domain terms terms terms-IsTerms terms-IsTerms refl

order_message-ne-bid_message_example :
    signed_message order_domain terms ≢ signed_message bid_domain terms
order_message-ne-bid_message_example = order_message-ne-bid_message terms terms

-- The marker of maker 1 and nonce 4 holds lamports.
abbrev pub used : World
used = record {
  ledger =
      set_account (λ _. no_account) (key 121)
        (record { lamports = 129; owner = program; contents = 0 ∷ [] });
  effects = [];
}

abbrev pub order_list : List AccountInfo
order_list =
    signer 2
    ∷ handle 1
    ∷ handle 20
    ∷ handle 21
    ∷ handle 32
    ∷ handle 41
    ∷ handle 40
    ∷ handle 30
    ∷ handle 116
    ∷ handle 121
    ∷ handle 6
    ∷ handle 105
    ∷ handle 31
    ∷ handle 0
    ∷ handle 7
    ∷ []

abbrev pub order_parts : OrderAccounts
order_parts = record {
  auth = gates;
  give_mint = handle 20;
  want_mint = handle 21;
  maker_give = handle 32;
  taker_give = handle 41;
  taker_want = handle 40;
  maker_want = handle 30;
  token_prog = handle 6;
  config = handle 105;
  fee_ata = handle 31;
  more = [];
}

abbrev pub bid_list : List AccountInfo
bid_list =
    signer 2
    ∷ handle 1
    ∷ handle 20
    ∷ handle 21
    ∷ handle 32
    ∷ handle 41
    ∷ handle 6
    ∷ handle 105
    ∷ handle 31
    ∷ handle 116
    ∷ handle 121
    ∷ handle 0
    ∷ handle 7
    ∷ handle 40
    ∷ handle 30
    ∷ handle 6
    ∷ []

abbrev pub bid_parts : BidAccounts
bid_parts = record {
  auth = gates;
  coins_mint = handle 20;
  nft_mint = handle 21;
  maker_coins = handle 32;
  owner_coins = handle 41;
  coins_token_prog = handle 6;
  config = handle 105;
  fee_ata = handle 31;
  owner_nft = handle 40;
  maker_nft = handle 30;
  nft_token_prog = handle 6;
}

-- 30 for 1000, taker 2, expiry 90, nonce 4, no royalty.
abbrev pub order_payload : Bytes
order_payload =
    (30 ∷ replicate 7 0)
    ++ ((232 ∷ 3 ∷ replicate 6 0) ++ (key 2 ++ ((90 ∷ replicate 7 0) ++ (key 4 ++ (0 ∷ 0 ∷ [])))))

pub order-parts : order_accounts order_list ≡ ok order_parts
unfolding order_accounts
order-parts = refl

pub bid-parts : bid_accounts bid_list ≡ ok bid_parts
unfolding bid_accounts
bid-parts = refl

pub marker-used : (used.ledger (key 121)).lamports ≢ 0
unfolding set_account
marker-used e = omega (arith, e)

settles_once_example :
    (settle_signed_order early program order_list order_payload used ≢ ok (tt, nowhere))
    × (settle_signed_bid_spl early program bid_list order_payload used ≢ ok (tt, nowhere))
settles_once_example =
    settles_once early (chain-RefusesUsed (pos 50) signature) program order_list bid_list
      order_payload order_payload order_parts bid_parts used (tt, nowhere) (tt, nowhere) order-parts
      bid-parts refl refl marker-used
