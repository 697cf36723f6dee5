-- ===== src/Lib.antt =====
-- The Solana programs of this repository, modelled and verified.
--
-- The repository holds two programs. `program/` is the settlement program xete-tab: a depositor
-- funds an account at a derived address, under a hash commitment to a beneficiary whom nobody else
-- knows; the beneficiary claims it with the salt, or the depositor takes it back. Its deployed build
-- is `program/lean/src/lib.rs`. `swap/` is the swap program xete-swap: escrowed 1:1 swaps of tokens,
-- price bids against them, orders and bids that are signed off the chain, a fee policy, and royalties
-- read from the metadata of an asset.
--
-- Files and code:
--   Base        numbers, lists, bytes, machine words, signed integers
--   Chain       what both programs stand on: results (Result), handlers as functions of a world
--               (Action), accounts, calls and the runtime (Types), writes of fields (Writes), the
--               closing of an account (Sweep: `close` of both programs), array reads (Decode)
--               what calls leave alone (Keeps, Fields), and what a run of calls makes of the
--               ledger, each answered by the runtime on the ledger before it (Ran)
--   Tab         program/lean/src/lib.rs: `deposit`, `claim`, `reclaim`, `process`
--   Tab.Readable  program/readable/src/lib.rs: the same instructions over a borsh codec
--   Swap.Layout swap/src/state.rs; Swap.Checks: swap/src/state.rs and swap/src/cpi.rs
--   Swap.Cpi    swap/src/cpi.rs; Swap.Ids: the program addresses of swap/src/cpi.rs and order.rs
--   Swap.Events swap/src/events.rs; Swap.Royalty: swap/src/royalty.rs
--   Swap.Config swap/src/config.rs; Swap.Settle: swap/src/settle.rs
--   Swap.Spl    swap/src/swap.rs; Swap.Offer: swap/src/offer.rs
--   Swap.Order  swap/src/order.rs: tags 38 and 41; Order.Pnft: tags 39 and 42; Order.Core: tags 40 and 43
--   Swap.Basket swap/src/basket.rs; Swap.Pnft: swap/src/pnft.rs; Swap.Core: swap/src/mcore.rs
--   Swap.Escrowless  swap/src/escrowless.rs: listings of tokens (Token), programmable NFTs (Pnft) and
--               Core assets (Core)
--   Swap.Slot   what the state accounts of swaps, listings and baskets share: their addresses, fees
--   Swap.Entry  swap/src/lib.rs: the table of the handlers by their tags
--   Tests       a chain with concrete answers, and runs on it
--
-- The state of both programs is the ledger: every account by its address, with its lamports, owner
-- and data, so that two handles of one address are one account. A handler is a function from a world
-- (the ledger and the calls made so far) to an error or a new world; an error reverts everything, as
-- a transaction does. A panic (an index out of bounds, or an overflow, which `overflow-checks = true`
-- makes a panic) is the error `panicked`. Numbers are natural numbers with the wrap-around of `as u64`
-- written out. Loops run over lists or over a constant count, so there is no fuel. A byte is any
-- natural number, and a theorem that needs bytes below 256 says so.
--
-- What is not code of this repository is a field of `Runtime`: the clock and rent sysvars, the address
-- derivations, the hash, the instructions sysvar, and the programs that are called. A theorem assumes
-- of them only what its hypotheses name: `CreatesAccounts` and `RefusesUsed` are what the system
-- program documents of `create_account`. The instruction builders of spl_token are free constructors
-- of `Cpi`, so that the arguments of a call are on record. The errors of `try_borrow` do not arise: no
-- borrow outlives its block. The clock does not move during an instruction.
--
-- The derived borsh codec of the readable build is a parameter, and `IsBorsh` is what borsh documents
-- of it. `KeepsData` is what the chain documents of every call: only the program that owns an account
-- changes its data.
--
-- Not modelled: the entrypoint and allocator macros, the log lines, the tests of the programs and the
-- fuzz targets; the client, the site, the documents, which only call the programs.
pub mod Base
pub mod Chain
pub mod Tab
pub mod Swap
pub mod Tests
