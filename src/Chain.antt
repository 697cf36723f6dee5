-- ===== src/Chain.antt =====
-- The Solana runtime as the programs see it: accounts in a ledger, results, calls into other
-- programs, and the actions that a handler is made of.
pub mod Ran
pub mod Result
pub mod Types
pub mod Action
pub mod Writes
pub mod Sweep
pub mod Decode
pub mod Panics
pub mod Keeps
pub mod Fields
