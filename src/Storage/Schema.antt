-- ===== src/Storage/Schema.antt =====
-- crates/storage/src/migration.rs: the tables that are created, as the builder of SeaORM describes
-- them, and what a database makes of the statements.
use anon_ticket.Base.{
  ℕ, ◌≡◌, Bool, true, none, some, List, [], ◌∷◌, ◌++◌, String, Bytes, codes, Result, ok, err,
  Action, ◌>>◌, map_err, if◌then◌else◌, bytes_eq, ◌||◌,
}
use anon_ticket.Database.{DatabaseBackend, Statement, find, settle}
use anon_ticket.Env.{Env, StorageError, database}

-- `ColumnDef`: a name, its type, and what else is said of it, in order.
pub data ColumnType : Type 0 where
  binary_len string_len : ℕ → ColumnType
  string big_integer tiny_integer small_integer date_time : ColumnType

pub data ColumnSpec : Type 0 where
  not_null null primary_key default_current_timestamp : ColumnSpec
  default_value : ℕ → ColumnSpec

pub record ColumnDef : Type 0 where
  pub name : String
  pub column_type : ColumnType
  pub specs : List ColumnSpec

pub record TableCreateStatement : Type 0 where
  pub table : Bytes
  pub if_not_exists : Bool
  pub columns : List ColumnDef

-- A statement that is executed for its effect.
pub data SqlStatement : Type 0 where
  from_string : DatabaseBackend → Bytes → SqlStatement
  build : DatabaseBackend → TableCreateStatement → SqlStatement

abbrev column : String → ColumnType → List ColumnSpec → ColumnDef
column name type specs = record { name = name; column_type = type; specs = specs }

abbrev pub payments_table : TableCreateStatement
payments_table = record {
  table = codes "payments";
  if_not_exists = true;
  columns =
      column "pid" (binary_len 8) (not_null ∷ primary_key ∷ [])
      ∷ column "txid" (string_len 64) (not_null ∷ [])
      ∷ column "amount" big_integer (not_null ∷ [])
      ∷ column "block_height" big_integer (not_null ∷ [])
      ∷ column "status" tiny_integer (not_null ∷ [])
      ∷ column "created_at" date_time (not_null ∷ default_current_timestamp ∷ [])
      ∷ column "claimed_at" date_time (null ∷ [])
      ∷ [];
}

abbrev pub service_tokens_table : TableCreateStatement
service_tokens_table = record {
  table = codes "service_tokens";
  if_not_exists = true;
  columns =
      column "token" (binary_len 32) (not_null ∷ primary_key ∷ [])
      ∷ column "pid" (binary_len 8) (not_null ∷ [])
      ∷ column "amount" big_integer (not_null ∷ [])
      ∷ column "issued_at" date_time (not_null ∷ default_current_timestamp ∷ [])
      ∷ column "revoked_at" date_time (null ∷ [])
      ∷ column "revoke_reason" string (null ∷ [])
      ∷ column "abuse_score" small_integer (not_null ∷ default_value 0 ∷ [])
      ∷ [];
}

abbrev pub monitor_table : TableCreateStatement
monitor_table = record {
  table = codes "monitor_state";
  if_not_exists = true;
  columns =
      column "key" (string_len 64) (not_null ∷ primary_key ∷ [])
      ∷ column "value_int" big_integer (not_null ∷ [])
      ∷ [];
}

abbrev pub table_name : TableCreateStatement → Bytes
table_name s = s.table

-- What a database does to the list of its tables; the first argument is the text of the error for a
-- table that exists.
abbrev pub create_meaning :
    Bytes → TableCreateStatement → Statement (List TableCreateStatement) (Unit {0})
create_meaning exists s catalog = elim (find table_name s.table catalog) [
  | none ↦ (ok tt, catalog ++ s ∷ [])
  | some _ ↦ (if s.if_not_exists then ok tt else err exists, catalog)
]

-- The two settings of sqlite that are documented to say how the database is journaled and how it is
-- synchronised, and nothing of its tables.
abbrev pub is_setting : Bytes → Bool
is_setting sql =
    bytes_eq sql (codes "PRAGMA journal_mode=WAL;")
    || bytes_eq sql (codes "PRAGMA synchronous=NORMAL;")

-- `DatabaseConnection::execute` and `Database::connect`, and the tables of a database.
pub record Connector (env : Env) : Type 0 where
  pub catalog : env.engine.Db → List TableCreateStatement
  pub table_exists : Bytes
  pub execute : SqlStatement → Statement env.engine.Db (Unit {0})
  pub connect : Bytes → Result Bytes env.engine.Db

-- What SQL documents of CREATE TABLE, and sqlite of the two settings. Of any other text nothing is
-- said: it may do anything to the tables and to the rows.
pub record IsConnector {env : Env} (x : Connector env) : Type 0 where
  pub create_obeys :
      (b : DatabaseBackend) (s : TableCreateStatement) (d : env.engine.Db)
      → ((x.execute (build b s) d).0
          ≡ (settle (env.engine.fault d) (create_meaning x.table_exists s) (x.catalog d)).0)
        × (x.catalog (x.execute (build b s) d).1
            ≡ (settle (env.engine.fault d) (create_meaning x.table_exists s) (x.catalog d)).1)
  pub create_keeps :
      (b : DatabaseBackend) (s : TableCreateStatement) (d : env.engine.Db)
      → (env.engine.tables (x.execute (build b s) d).1 ≡ env.engine.tables d)
        × (env.engine.backend (x.execute (build b s) d).1 ≡ env.engine.backend d)
  pub setting_keeps :
      (b : DatabaseBackend) (sql : Bytes) (d : env.engine.Db)
      → is_setting sql ≡ true
      → (x.catalog (x.execute (from_string b sql) d).1 ≡ x.catalog d)
        × (env.engine.tables (x.execute (from_string b sql) d).1 ≡ env.engine.tables d)
        × (env.engine.backend (x.execute (from_string b sql) d).1 ≡ env.engine.backend d)

module _ {env : Env} (x : Connector env) where
  -- `execute`, awaited, with `map_err(StorageError::from_source)`.
  unfoldable pub execute : SqlStatement → Action env.engine.Db StorageError (Unit {0})
  execute s d = let (r, d') = x.execute s d in (map_err database r, d')

  unfoldable pub create_table :
      DatabaseBackend → TableCreateStatement → Action env.engine.Db StorageError (Unit {0})
  unfolding execute
  create_table backend statement =
      execute (build backend (record statement { if_not_exists = true }))

  unfoldable pub run_migrations : Action env.engine.Db StorageError (Unit {0})
  unfolding create_table
  run_migrations d =
      let backend = env.engine.backend d in
      (create_table backend payments_table
          >> create_table backend service_tokens_table
          >> create_table backend monitor_table)
        d
