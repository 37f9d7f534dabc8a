-- ===== src/Lib.antt =====
-- StellarTip: a Soroban contract (src/lib.rs) through which supporters tip registered creators in any
-- token. The contract holds the tipped tokens, forwards a fee, keeps a balance for each creator and
-- token, and pays balances out on request. An admin sets the fee, the caps and the pause flag. Beside
-- it stand a token that rebases, for the tests (src/fixtures.rs), and an example of a contract that
-- forwards calls to StellarTip (examples/rust/src/lib.rs).
--
-- The files, and the code of src/lib.rs that each models:
--   Base, Base/*       the library's names, Boolean tests, lists, and signed integers for `i128`
--   Host               what comes from outside the repository: the SDK's addresses and `Map`, and
--                      the token contracts, as a record of operations, with records of laws
--   Types/*            `DataKey`, `CreatorProfile`, `Tip`, `TipError`, the constants, the events
--   Env/State          the storages, the ledger of the tokens, the log of TTL extensions, the events
--   Env/Effects        one action for each SDK call that the code makes, and their sequence
--   Env/Helpers        `check_initialized_and_not_paused` and `validate_input`
--   Env/Ensures, Runs, Decides
--                      rules for what holds when an action returns, for how it ends on a given
--                      environment, and for which panic it ends in
--   Contract/*         `TipContract`: Admin, Registration, Tipping, Withdrawal and Views have one
--                      function for each contract function, and Invocation runs any of the calls
--                      that change state
--   Outcome/*          for each call, the checks it has passed and the state that it leaves
--   System/*           the steps of the contract and of the world around it, the states that they
--                      reach from a deployment, and the invariant of these states
--   Fees, Funds, Balances
--                      the fee of a tip, and the money that moves
--   Profiles, History  usernames and profiles; the records of tips
--   Bookkeeping/*      an abstract book of profiles, balances and tips, which the calls refine
--   Panics/*           for each call, the list of the panics that it can end in
--   Access, Governance, Publishing
--                      who may call what, the settings, the events
--   Liveness/*         when the users' calls succeed: Tipping and Withdrawal in terms of the
--                      transfers, Payments and Payouts in terms of what the accounts hold
--   Rebasing/*         `RebasingToken` of src/fixtures.rs: State and Methods are its storage and its
--                      functions, Outcome what they have done when they return; Laws and Faults say
--                      how far its transfer is a SEP-41 one, and Hosting and Unrebased put it in the
--                      place of the token contracts of `TipContract`
--   Orchestrator/*     `StellarTipOrchestrator` of examples/rust/src/lib.rs: Calls has its two
--                      functions over any client, and Forwarding puts `TipContract` behind them
--   Fuzz/*             the property tests of src/fuzz.rs: Environment is the test environment, Random the
--                      generator, and Properties, Batches and Pauses are the tests. Ready, Crowd
--                      and Shifts say where the contract and its accounts stand between two calls,
--                      and how a call moves them; Start, Opening and Crowd/Enrolling how a test
--                      begins. Passing, Withdrawing, Flow, Conservation and Interruption show that
--                      the tests pass
--   Tests/*            a concrete host and a run of the contract on it
--
-- How the model corresponds to the code. A contract function is an action: it takes the environment
-- and gives a value with the new environment, or a panic. The host undoes what a panicking call
-- wrote, so a panic carries no environment. Every `DataKey` variant is used in one storage and with
-- one type of value, so the two storages are records with one field for each variant, and `none` is
-- an absent key. Addresses and symbols are numbers, since the code only compares them; a string is
-- its bytes. `i128` values are integers, and `u32` and `u64` values natural numbers; where the
-- code's arithmetic could leave its type's range, a range check follows that panics, as
-- overflow-checks in Cargo.toml make it do; the decrement in `unregister` stands under a test that
-- keeps it in range. A call's arguments are not limited to their machine
-- types, so the theorems hold for those that are. The loop of `unregister` is recursion on the list
-- of keys, and the one of `get_tips` counts its rounds down, so no fuel is needed.
--
-- Parameters. `Host` has the token contracts' `transfer` as a function on an unknown ledger that may
-- fail, and the SDK's `Map<Address, ()>`. `MapLaws` states what `contains_key`, `set`, `remove`,
-- `is_empty` and `keys` do. `TokenLaws` states that a transfer which succeeds moves exactly the
-- amount between two different holders and nothing else, as SEP-41 documents. The token of
-- src/fixtures.rs keeps `TokenLaws` as long as it is not rebased; a token that changes balances by
-- itself is outside them. `PaymentLaws`, which Payments and Payouts alone use, states that a transfer
-- succeeds if the sender's balance covers it and it fits in the recipient's account. The
-- orchestrator's client, which `contractimport!` generates, is a parameter of its functions too.
-- `TestUtils` is the SDK's test environment for src/fuzz.rs: addresses, mints and
-- balances, and `TestLaws` states that addresses and the tests' symbols differ and that covered
-- transfers succeed. Steps outside the contract may change the ledger, the time and the
-- authorizations as they like, except that they do not lower the contract's own holdings and
-- never act with the contract's authorization.
--
-- Not modelled: the expiry of storage entries (extensions are logged only), the order of map keys,
-- resource limits and fees of the network, the wire form of events and values, the unit tests of
-- src/test.rs (runs at fixed inputs), the clients in Python and TypeScript, the scripts.
pub mod Base
pub mod Host
pub mod Types
pub mod Env
pub mod Contract
pub mod Outcome
pub mod Fees
pub mod System
pub mod Funds
pub mod Balances
pub mod Profiles
pub mod History
pub mod Access
pub mod Governance
pub mod Publishing
pub mod Panics
pub mod Bookkeeping
pub mod Fuzz
pub mod Liveness
pub mod Rebasing
pub mod Orchestrator
mod Tests
