-- ===== src/Swap/Entry/Settled.antt =====
-- The settlements of signed orders and bids as instructions of the program (swap/src/lib.rs).
use xete_programs.Base.{◌≡◌, List}
use xete_programs.Chain.Result.{ok}
use xete_programs.Chain.Types.{Pubkey, AccountInfo}
use xete_programs.Swap.Order.{OrderAccounts, order_accounts, BidAccounts, bid_accounts}
use xete_programs.Swap.Order.Pnft.{
  PnftOrderAccounts, pnft_order_accounts, PnftBidAccounts, pnft_bid_accounts,
}
use xete_programs.Swap.Order.Core.{
  CoreOrderAccounts, core_order_accounts, CoreBidAccounts, core_bid_accounts,
}

-- The account lists of the six settlements, of one maker.
pub record Settlements (maker : Pubkey) : Type 0 where
  pub orders : List AccountInfo
  pub order : OrderAccounts
  pub order_read : order_accounts orders ≡ ok order
  pub order_maker : order.auth.maker.key ≡ maker
  pub pnft_orders : List AccountInfo
  pub pnft_order : PnftOrderAccounts
  pub pnft_order_read : pnft_order_accounts pnft_orders ≡ ok pnft_order
  pub pnft_order_maker : pnft_order.auth.maker.key ≡ maker
  pub core_orders : List AccountInfo
  pub core_order : CoreOrderAccounts
  pub core_order_read : core_order_accounts core_orders ≡ ok core_order
  pub core_order_maker : core_order.auth.maker.key ≡ maker
  pub bids : List AccountInfo
  pub bid : BidAccounts
  pub bid_read : bid_accounts bids ≡ ok bid
  pub bid_maker : bid.auth.maker.key ≡ maker
  pub pnft_bids : List AccountInfo
  pub pnft_bid : PnftBidAccounts
  pub pnft_bid_read : pnft_bid_accounts pnft_bids ≡ ok pnft_bid
  pub pnft_bid_maker : pnft_bid.auth.maker.key ≡ maker
  pub core_bids : List AccountInfo
  pub core_bid : CoreBidAccounts
  pub core_bid_read : core_bid_accounts core_bids ≡ ok core_bid
  pub core_bid_maker : core_bid.auth.maker.key ≡ maker
