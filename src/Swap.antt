-- ===== src/Swap.antt =====
-- The swap program xete-swap (swap/src).
pub mod Layout
pub mod Ids
pub mod Royalty
pub mod Checks
pub mod Cpi
pub mod Events
pub mod Config
pub mod Settle
pub mod Spl
pub mod Order
pub mod Offer
pub mod Slot
pub mod Pnft
pub mod Core
pub mod Escrowless
pub mod Basket
pub mod Entry
