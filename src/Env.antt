-- ===== src/Env.antt =====
-- The program's surroundings, and the state that its tasks share.
use anon_ticket.Base.{ℕ, suc, ℤ, Option, List, ◌∷◌, String, Bytes, ok, Action, map_err}
use anon_ticket.Model.{Codec, Timestamp}
use anon_ticket.Database.{Engine, Statement}
use anon_ticket.Services.{Floats, Hints}

-- What is not under src/: the database, the hashing and hex crates, the hint structures, floats,
-- the clock, and chrono's `from_timestamp` at 0 nanoseconds.
pub record Env : Type 1 where
  pub codec : Codec
  pub engine : Engine
  pub floats : Floats
  pub hints : Hints floats
  pub clock : ℕ → Timestamp
  pub from_timestamp : ℤ → Option Timestamp

-- An increment of a counter: its name and its labels.
pub record Metric : Type 0 where
  pub name : String
  pub labels : List (String × String)

-- The state that the handlers and the monitor share: `SeaOrmStorage`, `InMemoryPidCache` and
-- `PidBloom` behind their `Arc`s, how often the clock was read, and the counters as the list of
-- their increments, the latest first.
pub record World (env : Env) : Type 0 where
  pub db : env.engine.Db
  pub cache : env.hints.Cache
  pub bloom : Option env.hints.Filter
  pub clock_reads : ℕ
  pub metrics : List Metric

-- `StorageError::Database`, with the text of the database's error.
pub data StorageError : Type 0 where
  database : Bytes → StorageError

module _ (env : Env) where
  -- A statement, awaited, with `map_err(StorageError::from_source)`.
  unfoldable pub query :
      {A : Type 0} → Statement env.engine.Db A → Action (World env) StorageError A
  query run w = let (r, d) = run w.db in (map_err database r, record w { db = d })

  -- `Utc::now()`.
  unfoldable pub utc_now : {E : Type 0} → Action (World env) E Timestamp
  utc_now w = (ok (env.clock w.clock_reads), record w { clock_reads = suc w.clock_reads })

  -- `counter!(…).increment(1)`.
  unfoldable pub counter :
      {E : Type 0} → String → List (String × String) → Action (World env) E (Unit {0})
  counter name labels w =
      (ok tt, record w { metrics = record { name = name; labels = labels } ∷ w.metrics })
