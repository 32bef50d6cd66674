-- ===== src/Concurrent/Monitor.antt =====
-- crates/monitor/src/pipeline.rs and crates/monitor/src/worker.rs as a task. The code of a branch
-- that awaits nothing is that of `Monitor`.
use anon_ticket.Base.{
  ℕ, ℤ, Bool, false, Option, none, some, List, [], ◌∷◌, Bytes, Result, ok, err, panic, ltb, ltb_ℤ,
  lift_err, unwrap_or, if◌then◌else◌,
}
use anon_ticket.Model.{PaymentId, PidFormatError, Timestamp, parse_pid}
use anon_ticket.Config.{BootstrapConfig}
use anon_ticket.Env.{Env, counter}
use anon_ticket.Storage.{insert_payment, last_processed_height, upsert_last_processed_height}
use anon_ticket.Monitor.{
  MonitorError, storage, TransferEntry, TransfersResponse, MonitorHooks, new_payment, detected_at,
  persisted, parsed_entry, check_amount, Round, observe, next_height_of, safe_height_of,
  fetched_batch, cursor_after,
}
use anon_ticket.Concurrent.Task.{Task, finish, atomic, ◌>>>◌, caught}

module _ (env : Env) where
  -- The insertion, and what follows it.
  unfoldable pub persist_task :
      TransferEntry → ℤ → Option MonitorHooks → Timestamp → PaymentId → Task env MonitorError Bool
  unfolding insert_payment persisted
  persist_task entry height hooks at pid =
      atomic env (lift_err storage (insert_payment env (new_payment entry height at pid))) >>> λ u.
      atomic env (persisted env hooks pid u)

  unfoldable pub parsed_task :
      TransferEntry
      → ℤ
      → Option MonitorHooks
      → Timestamp
      → Result PidFormatError PaymentId
      → Task env MonitorError Bool
  unfolding parsed_entry persist_task
  parsed_task entry height hooks at (ok pid) = persist_task entry height hooks at pid
  parsed_task entry height hooks at (err e) =
      atomic env (parsed_entry env entry height hooks at (err e))
  parsed_task entry height hooks at panic = finish panic

  unfoldable pub store_task :
      TransferEntry → ℤ → Bytes → Option MonitorHooks → Task env MonitorError Bool
  unfolding detected_at parse_pid parsed_task
  store_task entry height pid hooks = atomic env (detected_at env entry.timestamp) >>> λ at.
      parsed_task entry height hooks at (parse_pid env.codec pid)

  unfoldable pub entry_task :
      TransferEntry → Option Bytes → Option ℤ → ℤ → Option MonitorHooks → Task env MonitorError Bool
  unfolding check_amount store_task
  entry_task entry (some pid) (some height) least hooks =
      if ltb_ℤ entry.amount least
      then atomic env (check_amount env entry height pid least hooks)
      else store_task entry height pid hooks
  entry_task entry (some _) none least hooks = finish (ok false)
  entry_task entry none _ least hooks = finish (ok false)

  -- The loop of `handle_batch`.
  unfoldable pub process_all_task :
      ℤ → Option MonitorHooks → Option ℕ → List TransferEntry → Task env MonitorError (Option ℕ)
  unfolding observe entry_task
  process_all_task least hooks observed [] = finish (ok observed)
  process_all_task least hooks observed (entry ∷ incoming) =
      entry_task entry entry.payment_id entry.height least hooks >>> λ _.
      process_all_task least hooks (observe observed entry.height) incoming

  unfoldable pub move_cursor_task : ℕ → Option ℕ → Task env MonitorError ℕ
  unfolding next_height_of upsert_last_processed_height
  move_cursor_task safe_height observed =
      atomic env
        (lift_err storage (upsert_last_processed_height env (next_height_of observed safe_height)))
      >>> λ _. finish (ok (next_height_of observed safe_height))

  unfoldable pub handle_batch_task :
      TransfersResponse → ℤ → ℕ → Option MonitorHooks → Task env MonitorError ℕ
  unfolding counter process_all_task move_cursor_task
  handle_batch_task transfers least safe_height hooks =
      atomic env (counter env "monitor_rpc_calls_total" (("result", "ok") ∷ [])) >>> λ _.
      process_all_task least hooks none transfers.incoming >>> move_cursor_task safe_height

  unfoldable pub fetched_task :
      ℤ → ℕ → Option MonitorHooks → Result MonitorError TransfersResponse → Task env MonitorError ℕ
  unfolding fetched_batch handle_batch_task
  fetched_task least safe_height hooks (ok resp) = handle_batch_task resp least safe_height hooks
  fetched_task least safe_height hooks (err e) =
      atomic env (fetched_batch env least safe_height hooks (err e))
  fetched_task least safe_height hooks panic = finish panic

  unfoldable pub tick_task : Round → ℕ → ℤ → ℕ → Option MonitorHooks → Task env MonitorError ℕ
  unfolding fetched_task
  tick_task source current_height least safe_height hooks =
      if ltb safe_height current_height
      then finish (ok current_height)
      else fetched_task least safe_height hooks (source.fetch_transfers current_height safe_height)

  unfoldable pub poll_task :
      BootstrapConfig → Option MonitorHooks → Round → ℕ → ℕ → Task env MonitorError ℕ
  unfolding safe_height_of tick_task
  poll_task config hooks source height wallet_height =
      let safe_height = safe_height_of wallet_height config.monitor_min_confirmations in
      if ltb safe_height height
      then finish (ok height)
      else caught env {F = MonitorError}
          (tick_task source height config.monitor_min_payment_amount safe_height hooks)
        >>> λ r. finish (cursor_after env height r)

  unfoldable pub loop_round_task :
      BootstrapConfig → Option MonitorHooks → Round → ℕ → Task env MonitorError ℕ
  unfolding poll_task
  loop_round_task config hooks source height = elim source.wallet_height [
    | ok wallet_height ↦ poll_task config hooks source height wallet_height
    | err _ ↦ finish (ok height)
    | panic ↦ finish panic
  ]

  unfoldable pub run_loop_task :
      BootstrapConfig → Option MonitorHooks → List Round → ℕ → Task env MonitorError ℕ
  unfolding loop_round_task
  run_loop_task config hooks [] height = finish (ok height)
  run_loop_task config hooks (source ∷ rounds) height =
      loop_round_task config hooks source height >>> run_loop_task config hooks rounds

  -- The monitor, as a task.
  unfoldable pub monitor_task :
      BootstrapConfig → Option MonitorHooks → List Round → Task env MonitorError ℕ
  unfolding last_processed_height run_loop_task
  monitor_task config hooks rounds =
      atomic env (lift_err storage (last_processed_height env)) >>> λ stored.
      run_loop_task config hooks rounds (unwrap_or stored config.monitor_start_height)
