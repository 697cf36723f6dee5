-- ===== src/Swap/Entry.antt =====
-- The swap program's dispatcher: the first byte of the payload is the tag (swap/src/lib.rs).
pub mod Settled
use xete_programs.Base.{List, [], ◌∷◌, Bytes, get_or}
use xete_programs.Chain.Result.{err, invalid_instruction_data}
use xete_programs.Chain.Types.{Pubkey, AccountInfo, Runtime}
use xete_programs.Chain.Action.{Action, lift}
use xete_programs.Swap.Spl.{open_swap, fill, cancel_swap, expire}
use xete_programs.Swap.Offer.{make_offer, accept_offer, withdraw_offer, expire_offer}
use xete_programs.Swap.Config.{init_config, update_config, init_fee_vault, sweep_fees}
use xete_programs.Swap.Basket.{
  open_basket, fill_basket, claim_bearer, rewrap, cancel_basket, expire_basket,
}
use xete_programs.Swap.Pnft.{open_pnft, fill_pnft, cancel_pnft, expire_pnft}
use xete_programs.Swap.Core.{open_core, fill_core, cancel_core, expire_core}
use xete_programs.Swap.Escrowless.Token.{list, fill_listing, cancel_listing}
use xete_programs.Swap.Escrowless.{expire_listing, expire_listing_pnft}
use xete_programs.Swap.Escrowless.Pnft.{list_pnft, fill_listing_pnft, cancel_listing_pnft}
use xete_programs.Swap.Escrowless.Core.{
  list_core, fill_listing_core, cancel_listing_core, expire_listing_core,
}
use xete_programs.Swap.Order.{settle_signed_order, settle_signed_bid_spl}
use xete_programs.Swap.Order.Pnft.{settle_signed_order_pnft, settle_signed_bid_pnft}
use xete_programs.Swap.Order.Core.{settle_signed_order_core, settle_signed_bid_core}

abbrev pub Handler : Type 0
Handler = Runtime → Pubkey → List AccountInfo → Bytes → Action (Unit {0})

-- The arms of `match tag`, from 0 to 43.
unfoldable pub handlers : List Handler
handlers =
    open_swap ∷ fill ∷ cancel_swap ∷ expire ∷ make_offer ∷ accept_offer ∷ withdraw_offer
    ∷ expire_offer ∷ init_config ∷ update_config ∷ init_fee_vault ∷ sweep_fees ∷ open_basket
    ∷ fill_basket ∷ claim_bearer ∷ rewrap ∷ cancel_basket ∷ expire_basket ∷ open_pnft ∷ fill_pnft
    ∷ cancel_pnft ∷ expire_pnft ∷ open_core ∷ fill_core ∷ cancel_core ∷ expire_core ∷ list
    ∷ fill_listing ∷ cancel_listing ∷ expire_listing ∷ list_pnft ∷ fill_listing_pnft
    ∷ cancel_listing_pnft ∷ expire_listing_pnft ∷ list_core ∷ fill_listing_core
    ∷ cancel_listing_core ∷ expire_listing_core ∷ settle_signed_order ∷ settle_signed_order_pnft
    ∷ settle_signed_order_core ∷ settle_signed_bid_spl ∷ settle_signed_bid_pnft
    ∷ settle_signed_bid_core ∷ []

-- The last arm.
unfoldable pub no_handler : Handler
no_handler rt program_id accounts rest = lift (err invalid_instruction_data)

unfoldable pub process : Handler
unfolding handlers no_handler
process rt program_id accounts [] = lift (err invalid_instruction_data)
process rt program_id accounts (tag ∷ rest) =
    get_or handlers tag no_handler rt program_id accounts rest
