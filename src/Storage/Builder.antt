-- ===== src/Storage/Builder.antt =====
-- crates/storage/src/lib.rs and crates/storage/src/builder.rs: how a connection is made ready.
use anon_ticket.Base.{
  Bool, true, false, Option, none, some, List, [], ◌∷◌, Bytes, codes, Result, ok, err, panic,
  and_then, Action, ◌>>◌, pure, map_err,
}
use anon_ticket.Database.{DatabaseBackend, sqlite, postgres, my_sql}
use anon_ticket.Env.{Env, StorageError, database}
use anon_ticket.Storage.Schema.{Connector, from_string, execute, run_migrations}

-- `==` of backends, with `Sqlite`.
abbrev pub is_sqlite : DatabaseBackend → Bool
is_sqlite sqlite = true
is_sqlite postgres = false
is_sqlite my_sql = false

-- The value that an action leaves its state in, if it returns.
abbrev pub prepared : {E S : Type 0} → Result E (Unit {0}) × S → Result E S
prepared (ok _, d) = ok d
prepared (err e, _) = err e
prepared (panic, _) = panic

abbrev pub sqlite_pragmas : List Bytes
sqlite_pragmas = codes "PRAGMA journal_mode=WAL;" ∷ codes "PRAGMA synchronous=NORMAL;" ∷ []

-- `StorageBuilder`.
pub record StorageBuilder : Type 0 where
  pub database_url : Option Bytes

abbrev pub new_builder : StorageBuilder
new_builder = record { database_url = none }

abbrev pub with_url : Bytes → StorageBuilder → StorageBuilder
with_url url b = record b { database_url = some url }

module _ {env : Env} (x : Connector env) where
  -- The loop of `configure_sqlite`.
  unfoldable pub run_pragmas : List Bytes → Action env.engine.Db StorageError (Unit {0})
  unfolding execute
  run_pragmas [] = pure tt
  run_pragmas (pragma ∷ pragmas) = execute x (from_string sqlite pragma) >> run_pragmas pragmas

  unfoldable pub configure_sqlite : Action env.engine.Db StorageError (Unit {0})
  unfolding run_pragmas
  configure_sqlite = run_pragmas sqlite_pragmas

  abbrev pub configure_if : Bool → Action env.engine.Db StorageError (Unit {0})
  unfolding configure_sqlite
  configure_if true = configure_sqlite
  configure_if false = pure tt

  unfoldable pub prepare_connection : Action env.engine.Db StorageError (Unit {0})
  unfolding configure_sqlite run_migrations
  prepare_connection d = (configure_if (is_sqlite (env.engine.backend d)) >> run_migrations x) d

  -- `SeaOrmStorage::connect`.
  unfoldable pub connect_storage : Bytes → Result StorageError env.engine.Db
  unfolding prepare_connection
  connect_storage database_url =
      and_then (map_err database (x.connect database_url)) (λ db. prepared (prepare_connection db))

  -- The missing url as an error.
  abbrev url_of : Option Bytes → Result StorageError Bytes
  url_of none = err (database (codes "missing database url"))
  url_of (some url) = ok url

  -- `StorageBuilder::build`.
  unfoldable pub build_storage : StorageBuilder → Result StorageError env.engine.Db
  unfolding prepare_connection
  build_storage b =
      and_then (url_of b.database_url) (λ url.
        and_then (map_err database (x.connect url)) (λ db. prepared (prepare_connection db)))
