-- ===== src/Storage/Connection.antt =====
-- crates/storage/src/lib.rs: `all_payment_ids`.
use anon_ticket.Base.{List, [], ◌∷◌, Bytes, Result, ok, and_then, Action, ◌>>=◌, from_result}
use anon_ticket.Model.{PaymentId}
use anon_ticket.Env.{Env, World, StorageError, query}
use anon_ticket.Storage.PaymentStore.{stored_pid}

-- `into_iter().map(PaymentId::try_from).collect::<Result<Vec<_>, _>>()`.
unfoldable pub collect_pids : List Bytes → Result StorageError (List PaymentId)
unfolding stored_pid
collect_pids [] = ok []
collect_pids (b ∷ raw) =
    and_then (stored_pid b) (λ pid. and_then (collect_pids raw) (λ pids. ok (pid ∷ pids)))

module _ (env : Env) where
  unfoldable pub all_payment_ids : Action (World env) StorageError (List PaymentId)
  unfolding query collect_pids
  all_payment_ids = do raw ← query env env.engine.select_pids; from_result (collect_pids raw)
