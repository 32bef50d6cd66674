-- ===== src/Lib.antt =====
-- anon-ticket: a service that turns Monero payments into bearer tokens. A monitor reads the
-- transfers of a wallet and stores the payments among them; the API redeems a payment id for a
-- service token, reports on tokens and revokes them. Both work on one database, and the API process
-- also shares a cache and a Bloom filter of payment ids with the monitor that it runs.
--
-- Files and what they model, paths from the root of the repository:
--   Base              helpers: Boolean tests, lists over the native numbers, byte strings, signed
--                     integers with Rust's conversions, results with a panic, and actions, which
--                     are functions from a state to a result and a state
--   Model             crates/domain/src/model/mod.rs: `parse_pid` and `pid_to_hex` are
--                     `PaymentId::parse` and `to_hex`, `parse_token` and `token_to_hex` those of
--                     `ServiceToken`, `derive_service_token` has the name it has there
--   Services          crates/domain/src/services/cache.rs: `InMemoryPidCache`, `PidBloom`
--   Database          crates/storage/src/entity.rs: rows, the parts of the statements, and the
--                     engine that runs them
--   Env               what the program is surrounded by, and the state that its tasks share
--   Storage           crates/storage/src/{payment_store,token_store,monitor_state_store,lib}.rs, and
--                     with them {migration,builder}.rs: `connect_storage` and `build_storage` are
--                     `SeaOrmStorage::connect` and `StorageBuilder::build`
--   Api               crates/api/src/handlers/{mod,redeem,token,metrics}.rs and
--                     crates/api/src/state.rs
--   Monitor           crates/monitor/src/{pipeline,worker}.rs and crates/monitor/src/rpc:
--                     `rpc_source` is `RpcTransferSource`
--   Telemetry         crates/domain/src/services/telemetry.rs
--   Address           crates/domain/src/integrated_address.rs and
--                     crates/domain/src/bin/gen_integrated_address.rs
--   Startup           crates/api/src/application.rs: `run_api` is `run` up to serving; and
--                     crates/monitor/src/main.rs
--   Config            crates/domain/src/config.rs: `load_api_config` and `load_bootstrap_config` are
--                     the two `load_from_env`
--   Ledger            an abstract ledger that knows nothing of requests: a relation of the five
--                     changes that may happen to the tables, with what it keeps
--   System            requests and monitor runs in any order on one state, as a history of the
--                     ledger
--   Concurrent        the handlers and the monitor as tasks, with a step for each `await`, and the
--                     executor that takes a step of one task after the other
--   Journey           the monitor's storing of a transfer, followed by its redemption
--   Tests             a surrounding with a hex codec, a database that is its tables, and hints that
--                     are lists, in which the theorems are applied
--
-- A handler is an action on `World`, which holds the database, the cache, the filter, how often the
-- clock was read and the counters. The match of an `await` on its result is a function of its own,
-- named for the branch (`after_claim`, `absent_found`, `inserted_token`); an early return is an
-- error. What was written before an error stays written. In `System` each handler and each run of
-- the monitor is one action; in `Concurrent` it is a task whose steps other tasks come between.
--
-- Parameters: the crates hex and sha3 (`Codec`, `IsCodec`), SeaORM with the database (`Engine`,
-- `IsEngine`), its statements on tables (`Connector`, `IsConnector`, which speaks of CREATE TABLE and
-- of the two settings of sqlite, and of no other text), moka and fastbloom (`Hints`, `IsFilter`; building
-- a filter may panic), the crate monero (`Monero`, `IsMonero`), the wallet's client (`WalletClient`), the
-- exporters of telemetry, the files and sockets of the system (`Host`), floats and their parser, the
-- process variables, the clock and chrono. A statement either does what SQL documents, or is refused,
-- or is carried out with its reply lost; which of these is read off the database's state, and
-- `IsReliable` excludes the last two. `HasNoCollision` says that the hash gives no two stored
-- payments one token.
--
-- Bounds: heights are u64, with `saturating_add`; amounts and stored heights are i64, with the
-- casts of the source. Loops over lists are structural; the endless loop of `run_monitor` is run
-- over the list of what the wallet answers in each round, of any length, so no fuel is needed.
--
-- Not modelled: log lines, gauges and histograms, which nothing reads, and the estimate of the
-- filter's size that is only logged; sleeping; the JSON of the bodies beyond their fields; HTTP
-- itself with the routes, and what the servers do once they are bound; what becomes of a database
-- whose connection was not made ready.
pub mod Base
pub mod Model
pub mod Database
pub mod Services
pub mod Env
pub mod Ledger
pub mod Storage
pub mod Api
pub mod Monitor
pub mod Config
pub mod Address
pub mod Telemetry
pub mod System
pub mod Concurrent
pub mod Journey
pub mod Tests
pub mod Startup
