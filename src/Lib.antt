-- ===== src/Lib.antt =====
-- The registry of top-level accounts and the names below them, on NEAR: four contracts under
-- contracts/.
--
-- - tla-registry keeps the TLAs, the sub-accounts, the money owed to users, the mother accounts and
--   the marketplace. It calls the other contracts, and learns how a call ended in a callback.
-- - tla-manager stands at each TLA and creates the accounts below it.
-- - sub-account-locker stands at each created account and holds it for the registry: no key is on
--   the account until it is exported.
-- - resale-locker is put on a `.near` account by its seller, and adds one key when the registry
--   asks for it.
--
-- Which file models what:
--
-- - Base: what Rust's integers, strings, `Option` and `Result` do here. A text is its list of
--   bytes; saturating arithmetic of a width is `add_u64`, `add_u128`, …, and subtraction that
--   saturates is the one of ℕ; a `LookupMap` or `IterableMap` is an association list (Base/Maps),
--   an `IterableSet` a list of texts (Base/Sets).
-- - Types: contracts/tla-registry/src/types.rs, with `effective_sub_lifecycle` of mother.rs in
--   Types/Lifecycle and `validate_name`, `sub_account_key` and `total_name_length` in Types/Names.
-- - Fees: fees.rs. Registry: lib.rs (the state, the guards, the refund queue), error.rs, events.rs
--   and the promises that the handlers return. Core: the methods of lib.rs.
-- - Admin, Business, Mother, Rental, Reclaim, Marketplace (its callbacks in Marketplace/Sale),
--   Resale, Views: the files of those names,
--   one function for each method; Rental has the callback of callbacks.rs as well. What Resale
--   prints of the bundled locker takes its bytes and the hash function as parameters.
-- - Manager, SubAccountLocker, ResaleLocker: the other three contracts.
-- - Logs: the log lines that `emit` of events.rs writes and the texts that the errors of error.rs
--   panic with. serde_json makes the text of an object and is a parameter.
-- - System: `call` is any method of the registry by its name and arguments, `resolve` any callback.
--   System/Network puts them in any order, with the promises that are in flight. System/Locks
--   follows the locks of the sales through it, and System/Slots is the registry seen from one name:
--   a machine of its own, and the history that a run of the network is for it.
-- - System/World adds the accounts: what the registry asks of a TLA's manager and of an account's
--   locker runs there by the code of those contracts, one request at a time, and the callback gets
--   how that ended. Where a theorem needs that no addition of a key to an exported account has failed,
--   `AllAdded` says so; World/Orphans has what happens when one fails. System/Census follows the
--   number of names of a TLA and the count that the registry keeps of them.
--
-- A method is a function from what it reads of the network (`Env`), its arguments and the registry
-- to a new registry or an error; an error changes nothing, as the runtime discards the state of a
-- failed call. A method that returns a promise gives it as a value: the calls with their static gas
-- and deposits, and the callback. A callback takes how the awaited call ended. An emitted event is
-- appended to a log. The parser of account ids and the one of balances are not under contracts/ and
-- are the fields `is_account_id` and `from_slice` of `Env`; no theorem assumes anything of them
-- beyond what its hypotheses say.
--
-- Bounds: amounts are `u128`, times `u64`, counters `u32` or `u64`, and they saturate where the
-- source saturates. Where a theorem needs that no sum reaches the top of its width, it says so; a
-- step of System/Network requires it of the registry's holdings. No definition needs fuel: the only
-- loops run along lists. `land_all` runs as many callbacks as it is told, and `rounds_left` of them
-- are enough. An index of a page is cut to the 32 bits of a `usize` on the target, wasm32.
--
-- System/Network counts the money of the registry's account without what it pays for storage. A
-- rental takes the creation deposit along, and its callback reads the configured deposit again; a
-- step that changes the fees therefore requires that no rental in flight took along more than the
-- new deposit (`IsTimely`). What happens without it is in Rental/DepositRace.
--
-- In SubAccountLocker/Custody and in System/World the addition of a key to an exported account and
-- the locker's callback after it are one step; ResaleLocker/OneShot keeps them apart.
--
-- Not modelled: the SDK's refusal of a deposit by a method that is not `#[payable]`, so that the
-- methods accept some calls here that the SDK refuses (that such a method accepts a call is meant
-- of one without a deposit, and Reclaim.Admission.finalize_iff asks for it); the JSON of arguments
-- and of what the views return, and serde_json;
-- the bytes of the contracts that the manager and the registry bundle; the order of iteration of
-- sets; the gas that is used (static gas is modelled); the integration tests and build scripts.
pub mod Base
pub mod Types
pub mod Fees
pub mod Registry
pub mod Core
pub mod Admin
pub mod Business
pub mod Mother
pub mod Rental
pub mod Reclaim
pub mod Marketplace
pub mod Resale
pub mod Manager
pub mod SubAccountLocker
pub mod ResaleLocker
pub mod Views
pub mod Logs
pub mod System
mod Tests
