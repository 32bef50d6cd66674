-- ===== src/Storage/SchemaLaws.antt =====
-- What making a connection ready does to a database.
use anon_ticket.Base.{
  ◌≡◌, refl, sym, subst, ◌∙◌, ap, inl, inr, Bool, true, false, List, [], ◌∷◌, Bytes, ok, Action,
  ◌>>=◌, ◌>>◌, map_err, Result-cases, All,
}
use anon_ticket.Database.{DatabaseBackend, sqlite, find}
use anon_ticket.Env.{Env, StorageError, database}
use anon_ticket.Storage.Replies.{>>=-eq-ok}
use anon_ticket.Storage.Schema.{
  TableCreateStatement, is_setting, table_name, from_string, payments_table, service_tokens_table,
  monitor_table, Connector, IsConnector, execute, create_table, run_migrations,
}
use anon_ticket.Storage.Builder.{
  sqlite_pragmas, is_sqlite, run_pragmas, configure_sqlite, configure_if, prepare_connection,
}
use anon_ticket.Storage.Catalog.{
  add_missing, with_schema, Grows, settle-Grows, settle-add, with_schema_idem,
}

module _ {env : Env} (x : Connector env) (lawful : IsConnector x) where
  abbrev Db : Type 0
  Db = env.engine.Db

  -- No table is lost and no row changes.
  abbrev pub Extends : Db → Db → Type 0
  Extends d e =
      Grows (x.catalog d) (x.catalog e)
      × (env.engine.tables e ≡ env.engine.tables d)
      × (env.engine.backend e ≡ env.engine.backend d)

  Extends-trans : (c d e : Db) → Extends c d → Extends d e → Extends c e
  Extends-trans c d e (grow, rows, same) (grow', rows', same') =
      (λ k s found. grow' k s (grow k s found), rows' ∙ rows, same' ∙ same)

  >>-Extends :
      (m n : Action Db StorageError (Unit {0}))
      → ((d : Db) → Extends d (m d).1)
      → ((d : Db) → Extends d (n d).1)
      → (d : Db) → Extends d ((m >> n) d).1
  >>-Extends m n first second d = elim (Result-cases (m d).0) [
    | inl (u, went) ↦
        rw (went, ◌>>=◌) (Extends-trans d (m d).1 (n (m d).1).1 (first d) (second (m d).1))
    | inr (inl (e, bad)) ↦ rw (bad, ◌>>=◌) (first d)
    | inr (inr bad) ↦ rw (bad, ◌>>=◌) (first d)
  ]

  setting-Extends :
      (b : DatabaseBackend) (sql : Bytes) (d : Db)
      → is_setting sql ≡ true
      → Extends d (execute x (from_string b sql) d).1
  unfolding execute
  setting-Extends b sql d known =
      let (catalog, rows, same) = lawful.setting_keeps b sql d known in
      (λ k s found. ap (find table_name k) catalog ∙ found, rows, same)

  create_table-Extends :
      (b : DatabaseBackend) (s : TableCreateStatement) (d : Db) → Extends d (create_table x b s d).1
  unfolding create_table execute
  create_table-Extends b s d =
      let s' = record s { if_not_exists = true } in
      let (rows, same) = lawful.create_keeps b s' d in
      (
        subst (Grows (x.catalog d)) (sym (lawful.create_obeys b s' d).1)
            (settle-Grows (env.engine.fault d) x.table_exists s' (x.catalog d)),
        rows,
        same,
      )

  abbrev IsSetting : Bytes → Type 0
  IsSetting sql = is_setting sql ≡ true

  run_pragmas-Extends :
      (l : List Bytes) (d : Db) → All IsSetting l → Extends d (run_pragmas x l d).1
  unfolding run_pragmas
  run_pragmas-Extends [] d known = (λ k s found. found, refl, refl)
  run_pragmas-Extends (p ∷ l) d (first, known) =
      >>-Extends (execute x (from_string sqlite p)) (run_pragmas x l)
        (λ e. setting-Extends sqlite p e first) (λ e. run_pragmas-Extends l e known) d

  configure_if-Extends : (b : Bool) (d : Db) → Extends d (configure_if x b d).1
  unfolding configure_sqlite
  configure_if-Extends true d = run_pragmas-Extends sqlite_pragmas d (refl, (refl, tt))
  configure_if-Extends false d = (λ k s found. found, refl, refl)

  run_migrations-Extends : (d : Db) → Extends d (run_migrations x d).1
  unfolding run_migrations
  run_migrations-Extends d =
      let b = env.engine.backend d in
      let tokens = create_table x b service_tokens_table in
      let state = create_table x b monitor_table in
      >>-Extends (create_table x b payments_table >> tokens) state
        (>>-Extends (create_table x b payments_table) tokens (create_table-Extends b payments_table)
          (create_table-Extends b service_tokens_table))
        (create_table-Extends b monitor_table) d

  -- However making a connection ready ends, no table that was there is lost or changed, and no row.
  prepare_connection-Extends : (d : Db) → Extends d (prepare_connection x d).1
  unfolding prepare_connection
  prepare_connection-Extends d =
      >>-Extends (configure_if x (is_sqlite (env.engine.backend d))) (run_migrations x)
        (configure_if-Extends (is_sqlite (env.engine.backend d))) run_migrations-Extends d

  -- The catalog after an action that returned.
  abbrev Makes :
      Action Db StorageError (Unit {0})
      → (List TableCreateStatement → List TableCreateStatement)
      → Type 0
  Makes m f = (d : Db) (u : Unit {0}) → (m d).0 ≡ ok u → x.catalog (m d).1 ≡ f (x.catalog d)

  >>-Makes :
      (m n : Action Db StorageError (Unit {0}))
      (f g : List TableCreateStatement → List TableCreateStatement)
      → Makes m f
      → Makes n g
      → Makes (m >> n) (λ c. g (f c))
  >>-Makes m n f g first second d u went =
      let (v, here, there, same) = >>=-eq-ok m (λ _. n) d u went in
      ap (λ y. x.catalog y.1) same ∙ second (m d).1 u there ∙ ap g (first d v here)

  setting-Makes :
      (sql : Bytes) → IsSetting sql → Makes (execute x (from_string sqlite sql)) (λ c. c)
  unfolding execute
  setting-Makes sql known d u went = (lawful.setting_keeps sqlite sql d known).0

  create_table-Makes :
      (b : DatabaseBackend) (s : TableCreateStatement)
      → Makes (create_table x b s) (add_missing (record s { if_not_exists = true }))
  unfolding create_table execute
  create_table-Makes b s d u went =
      let s' = record s { if_not_exists = true } in
      let (reply, after) = lawful.create_obeys b s' d in
      after
      ∙ settle-add (env.engine.fault d) x.table_exists s' (x.catalog d) u
          (sym (ap (map_err database) reply) ∙ went)

  run_pragmas-Makes : (l : List Bytes) → All IsSetting l → Makes (run_pragmas x l) (λ c. c)
  unfolding run_pragmas
  run_pragmas-Makes [] known d u went = refl
  run_pragmas-Makes (p ∷ l) (first, known) d u went =
      >>-Makes (execute x (from_string sqlite p)) (run_pragmas x l) (λ c. c) (λ c. c)
        (setting-Makes p first) (run_pragmas-Makes l known) d u went

  configure_if-Makes : (b : Bool) → Makes (configure_if x b) (λ c. c)
  unfolding configure_sqlite
  configure_if-Makes true d u went = run_pragmas-Makes sqlite_pragmas (refl, (refl, tt)) d u went
  configure_if-Makes false d u went = refl

  run_migrations-Makes : Makes (run_migrations x) with_schema
  unfolding run_migrations
  run_migrations-Makes d u went =
      let b = env.engine.backend d in
      let tokens = create_table x b service_tokens_table in
      >>-Makes (create_table x b payments_table >> tokens) (create_table x b monitor_table)
        (λ c. add_missing service_tokens_table (add_missing payments_table c))
        (add_missing monitor_table)
        (>>-Makes (create_table x b payments_table) tokens (add_missing payments_table)
          (add_missing service_tokens_table) (create_table-Makes b payments_table)
          (create_table-Makes b service_tokens_table))
        (create_table-Makes b monitor_table) d u went

  prepare_connection-Makes : Makes (prepare_connection x) with_schema
  unfolding prepare_connection
  prepare_connection-Makes d u went =
      >>-Makes (configure_if x (is_sqlite (env.engine.backend d))) (run_migrations x) (λ c. c)
        with_schema (configure_if-Makes (is_sqlite (env.engine.backend d))) run_migrations-Makes d u
        went

  -- Over a database that does with CREATE TABLE what SQL says, and to whose tables and rows the two
  -- settings of sqlite do nothing, whatever other texts may do: making a connection ready loses or
  -- changes no table that was there and changes no row, also where it ends in an error; where it ends without one, the database has the tables that it had and, under
  -- the names that it did not have, the three of the schema; and doing it again, where that ends
  -- without an error, changes no table.
  pub prepare_connection-migrates :
      (d : env.engine.Db)
      → Extends d (prepare_connection x d).1
        × ((u : Unit {0})
            → (prepare_connection x d).0 ≡ ok u
            → (x.catalog (prepare_connection x d).1 ≡ with_schema (x.catalog d))
              × ((v : Unit {0})
                  → (prepare_connection x (prepare_connection x d).1).0 ≡ ok v
                  → x.catalog (prepare_connection x (prepare_connection x d).1).1
                    ≡ x.catalog (prepare_connection x d).1))
  prepare_connection-migrates d = (
    prepare_connection-Extends d,
    λ u went.
        let first = prepare_connection-Makes d u went in
        (
          first,
          λ v again.
              prepare_connection-Makes (prepare_connection x d).1 v again
              ∙ ap with_schema first
              ∙ with_schema_idem (x.catalog d)
              ∙ sym first,
        ),
  )
