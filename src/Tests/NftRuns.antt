-- ===== src/Tests/NftRuns.antt =====
-- Orders and bids for NFTs, after their marker is in use (swap/src/order.rs).
use xete_programs.Base.{◌≡◌, ◌≢◌, refl, List, [], ◌∷◌, none}
use xete_programs.Base.Int.{pos}
use xete_programs.Chain.Result.{ok}
use xete_programs.Chain.Types.{AccountInfo}
use xete_programs.Swap.Order.Pnft.{
  PnftOrderAccounts, pnft_order_accounts, settle_signed_order_pnft, PnftBidAccounts,
  pnft_bid_accounts, settle_signed_bid_pnft,
}
use xete_programs.Swap.Order.Core.{
  CoreOrderAccounts, core_order_accounts, settle_signed_order_core, CoreBidAccounts,
  core_bid_accounts, settle_signed_bid_core,
}
use xete_programs.Swap.Entry.Settled.{Settlements}
use xete_programs.Swap.Order.Once.{nft_settles_once}
use xete_programs.Tests.{key, signer, handle, nowhere, chain-RefusesUsed}
use xete_programs.Tests.OrderRuns.{
  program, early, signature, used, order_payload, marker-used, order_list, order_parts, order-parts,
  bid_list, bid_parts, bid-parts,
}

abbrev pnft_order_list : List AccountInfo
pnft_order_list =
    signer 2
    ∷ handle 1
    ∷ handle 22
    ∷ handle 23
    ∷ handle 24
    ∷ handle 25
    ∷ handle 26
    ∷ handle 27
    ∷ handle 28
    ∷ handle 116
    ∷ handle 121
    ∷ handle 31
    ∷ handle 32
    ∷ handle 33
    ∷ handle 34
    ∷ handle 35
    ∷ handle 36
    ∷ handle 37
    ∷ handle 38
    ∷ handle 39
    ∷ handle 7
    ∷ handle 0
    ∷ handle 42
    ∷ handle 43
    ∷ []

abbrev pnft_order_parts : PnftOrderAccounts
pnft_order_parts = record {
  auth = record {
    taker = signer 2;
    maker = handle 1;
    order_auth = handle 116;
    order_done = handle 121;
    system = handle 0;
    ix_sysvar = handle 7;
  };
  asset = record {
    mint = handle 22;
    metadata = handle 33;
    edition = handle 34;
    owner_record = handle 35;
    dest_record = handle 36;
    token_metadata = handle 37;
    spl_tok = handle 38;
    ata_prog = handle 39;
    sysvar_ix = handle 7;
    system = handle 0;
    rules_prog = handle 42;
    rules = handle 43;
  };
  want_mint = handle 23;
  taker_want = handle 24;
  maker_want = handle 25;
  want_token_prog = handle 26;
  config = handle 27;
  fee_ata = handle 28;
  maker_ata = handle 31;
  taker_ata = handle 32;
  creator_atas = [];
}

pnft-order-parts : pnft_order_accounts pnft_order_list ≡ ok pnft_order_parts
unfolding pnft_order_accounts
pnft-order-parts = refl

abbrev core_order_list : List AccountInfo
core_order_list =
    signer 2
    ∷ handle 1
    ∷ handle 22
    ∷ handle 23
    ∷ handle 24
    ∷ handle 25
    ∷ handle 26
    ∷ handle 27
    ∷ handle 28
    ∷ handle 116
    ∷ handle 121
    ∷ handle 0
    ∷ handle 7
    ∷ handle 33
    ∷ []

abbrev core_order_parts : CoreOrderAccounts
core_order_parts = record {
  auth = record {
    taker = signer 2;
    maker = handle 1;
    order_auth = handle 116;
    order_done = handle 121;
    system = handle 0;
    ix_sysvar = handle 7;
  };
  asset = handle 22;
  want_mint = handle 23;
  taker_want = handle 24;
  maker_want = handle 25;
  want_token_prog = handle 26;
  config = handle 27;
  fee_ata = handle 28;
  mpl_core = handle 33;
  appended = none;
}

core-order-parts : core_order_accounts core_order_list ≡ ok core_order_parts
unfolding core_order_accounts
core-order-parts = refl

abbrev pnft_bid_list : List AccountInfo
pnft_bid_list =
    signer 2
    ∷ handle 1
    ∷ handle 22
    ∷ handle 23
    ∷ handle 24
    ∷ handle 25
    ∷ handle 26
    ∷ handle 27
    ∷ handle 28
    ∷ handle 116
    ∷ handle 121
    ∷ handle 0
    ∷ handle 7
    ∷ handle 33
    ∷ handle 34
    ∷ handle 35
    ∷ handle 36
    ∷ handle 37
    ∷ handle 38
    ∷ handle 39
    ∷ handle 40
    ∷ handle 41
    ∷ handle 42
    ∷ handle 43
    ∷ []

abbrev pnft_bid_parts : PnftBidAccounts
pnft_bid_parts = record {
  auth = record {
    taker = signer 2;
    maker = handle 1;
    order_auth = handle 116;
    order_done = handle 121;
    system = handle 0;
    ix_sysvar = handle 7;
  };
  asset = record {
    mint = handle 23;
    metadata = handle 35;
    edition = handle 36;
    owner_record = handle 37;
    dest_record = handle 38;
    token_metadata = handle 39;
    spl_tok = handle 40;
    ata_prog = handle 41;
    sysvar_ix = handle 7;
    system = handle 0;
    rules_prog = handle 42;
    rules = handle 43;
  };
  coins_mint = handle 22;
  maker_coins = handle 24;
  owner_coins = handle 25;
  coins_token_prog = handle 26;
  config = handle 27;
  fee_ata = handle 28;
  owner_nft = handle 33;
  maker_nft = handle 34;
}

pnft-bid-parts : pnft_bid_accounts pnft_bid_list ≡ ok pnft_bid_parts
unfolding pnft_bid_accounts
pnft-bid-parts = refl

abbrev core_bid_list : List AccountInfo
core_bid_list =
    signer 2
    ∷ handle 1
    ∷ handle 22
    ∷ handle 23
    ∷ handle 24
    ∷ handle 25
    ∷ handle 26
    ∷ handle 27
    ∷ handle 28
    ∷ handle 116
    ∷ handle 121
    ∷ handle 0
    ∷ handle 7
    ∷ handle 33
    ∷ []

abbrev core_bid_parts : CoreBidAccounts
core_bid_parts = record {
  auth = record {
    taker = signer 2;
    maker = handle 1;
    order_auth = handle 116;
    order_done = handle 121;
    system = handle 0;
    ix_sysvar = handle 7;
  };
  coins_mint = handle 22;
  asset = handle 23;
  maker_coins = handle 24;
  owner_coins = handle 25;
  coins_token_prog = handle 26;
  config = handle 27;
  fee_ata = handle 28;
  mpl_core = handle 33;
  appended = none;
}

core-bid-parts : core_bid_accounts core_bid_list ≡ ok core_bid_parts
unfolding core_bid_accounts
core-bid-parts = refl

nft_settles_once_example :
    (settle_signed_order_pnft early program pnft_order_list order_payload used ≢ ok (tt, nowhere))
    × (settle_signed_order_core early program core_order_list order_payload used ≢ ok (tt, nowhere))
    × (settle_signed_bid_pnft early program pnft_bid_list order_payload used ≢ ok (tt, nowhere))
    × (settle_signed_bid_core early program core_bid_list order_payload used ≢ ok (tt, nowhere))
nft_settles_once_example =
    nft_settles_once early (chain-RefusesUsed (pos 50) signature) program pnft_order_list
      core_order_list pnft_bid_list core_bid_list order_payload pnft_order_parts core_order_parts
      pnft_bid_parts core_bid_parts (key 1) used (tt, nowhere) pnft-order-parts core-order-parts
      pnft-bid-parts core-bid-parts refl refl refl refl marker-used

abbrev settlements : Settlements (key 1)
settlements = record {
  orders = order_list;
  order = order_parts;
  order_read = order-parts;
  order_maker = refl;
  pnft_orders = pnft_order_list;
  pnft_order = pnft_order_parts;
  pnft_order_read = pnft-order-parts;
  pnft_order_maker = refl;
  core_orders = core_order_list;
  core_order = core_order_parts;
  core_order_read = core-order-parts;
  core_order_maker = refl;
  bids = bid_list;
  bid = bid_parts;
  bid_read = bid-parts;
  bid_maker = refl;
  pnft_bids = pnft_bid_list;
  pnft_bid = pnft_bid_parts;
  pnft_bid_read = pnft-bid-parts;
  pnft_bid_maker = refl;
  core_bids = core_bid_list;
  core_bid = core_bid_parts;
  core_bid_read = core-bid-parts;
  core_bid_maker = refl;
}
