-- ===== src/Storage/StateStore.antt =====
-- crates/storage/src/monitor_state_store.rs.
use anon_ticket.Base.{ℕ, Option, none, some, Bytes, codes, Action, ◌>>=◌, pure, as_u64, as_i64}
use anon_ticket.Database.{Insert, update_with, StateModel}
use anon_ticket.Env.{Env, World, StorageError, query}

abbrev pub last_height_key : Bytes
last_height_key = codes "last_processed_height"

abbrev pub height_of : Option StateModel → Option ℕ
height_of none = none
height_of (some model) = some (as_u64 model.value_int)

-- `ON CONFLICT (key) DO UPDATE SET value_int = excluded.value_int`.
abbrev pub update_value : StateModel → StateModel → StateModel
update_value old new = record old { value_int = new.value_int }

-- The insertion of a height, which overwrites the one that is there.
abbrev pub height_row : ℕ → Insert StateModel
height_row height = record {
  row = record { key = last_height_key; value_int = as_i64 height };
  on_conflict = update_with update_value;
}

module _ (env : Env) where
  unfoldable pub last_processed_height : Action (World env) StorageError (Option ℕ)
  unfolding query
  last_processed_height = do
    maybe ← query env (env.engine.select_state last_height_key)
    pure (height_of maybe)

  unfoldable pub upsert_last_processed_height : ℕ → Action (World env) StorageError (Unit {0})
  unfolding query
  upsert_last_processed_height height = query env (env.engine.insert_state (height_row height))
