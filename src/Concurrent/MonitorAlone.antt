-- ===== src/Concurrent/MonitorAlone.antt =====
-- The monitor as a task, run with no other task between its steps.
use anon_ticket.Base.{
  ℕ, ℤ, ◌≡◌, refl, inl, inr, Option, none, some, List, [], ◌∷◌, Bytes, Result, ok, err, panic, pure,
  ltb, ltb_ℤ, lift_err, unwrap_or, Bool-cases, Result-cases,
}
use anon_ticket.Model.{PaymentId, PidFormatError, Timestamp, parse_pid}
use anon_ticket.Config.{BootstrapConfig}
use anon_ticket.Env.{Env, World, counter}
use anon_ticket.Storage.{insert_payment, last_processed_height, upsert_last_processed_height}
use anon_ticket.Monitor.{
  MonitorError, storage, TransferEntry, TransfersResponse, MonitorHooks, new_payment, detected_at,
  persisted, persist, parsed_entry, store_entry, check_amount, with_parts, process_entry, Round,
  observe, next_height_of, safe_height_of, process_all, move_cursor, handle_batch, fetched_batch,
  monitor_tick, cursor_after, poll, loop_round, run_loop, run_monitor,
}
use anon_ticket.Concurrent.Task.{finish, atomic, run, run->>>, run_then, run-caught_then}
use anon_ticket.Concurrent.Monitor.{
  persist_task, parsed_task, store_task, entry_task, process_all_task, move_cursor_task,
  handle_batch_task, fetched_task, tick_task, poll_task, loop_round_task, run_loop_task,
  monitor_task,
}

module _ (env : Env) where
  parsed_task-alone :
      (e : TransferEntry) (h : ℤ) (hooks : Option MonitorHooks) (at : Timestamp)
      (r : Result PidFormatError PaymentId) (w : World env)
      → run env (parsed_task env e h hooks at r) w ≡ parsed_entry env e h hooks at r w
  unfolding parsed_task parsed_entry persist_task persist
  parsed_task-alone e h hooks at (ok pid) w =
      run->>> env (atomic env (lift_err storage (insert_payment env (new_payment e h at pid))))
        (λ u. atomic env (persisted env hooks pid u)) (λ u. persisted env hooks pid u) w
        (λ _ _. refl)
  parsed_task-alone e h hooks at (err x) w = refl
  parsed_task-alone e h hooks at panic w = refl

  entry_task-alone :
      (e : TransferEntry) (text : Option Bytes) (h : Option ℤ) (least : ℤ)
      (hooks : Option MonitorHooks) (w : World env)
      → run env (entry_task env e text h least hooks) w ≡ with_parts env e text h least hooks w
  unfolding entry_task with_parts check_amount store_task store_entry
  entry_task-alone e none h least hooks w = refl
  entry_task-alone e (some text) none least hooks w = refl
  entry_task-alone e (some text) (some h) least hooks w = elim (Bool-cases (ltb_ℤ e.amount least)) [
    | inl dust ↦ rw dust refl
    | inr enough ↦ rw enough (
        run->>> env (atomic env (detected_at env e.timestamp))
          (λ at. parsed_task env e h hooks at (parse_pid env.codec text))
          (λ at. parsed_entry env e h hooks at (parse_pid env.codec text)) w
          (λ at v. parsed_task-alone e h hooks at (parse_pid env.codec text) v))
  ]

  process_all_task-alone :
      (least : ℤ) (hooks : Option MonitorHooks) (seen : Option ℕ) (l : List TransferEntry)
      (w : World env)
      → run env (process_all_task env least hooks seen l) w ≡ process_all env least hooks seen l w
  unfolding process_all_task process_all process_entry
  process_all_task-alone least hooks seen [] w = refl
  process_all_task-alone least hooks seen (e ∷ l) w =
      run_then env (entry_task env e e.payment_id e.height least hooks)
        (λ _. process_all_task env least hooks (observe seen e.height) l)
        (with_parts env e e.payment_id e.height least hooks)
        (λ _. process_all env least hooks (observe seen e.height) l) w
        (entry_task-alone e e.payment_id e.height least hooks w)
        (λ _ v. process_all_task-alone least hooks (observe seen e.height) l v)

  move_cursor_task-alone :
      (safe : ℕ) (seen : Option ℕ) (w : World env)
      → run env (move_cursor_task env safe seen) w ≡ move_cursor env safe seen w
  unfolding move_cursor_task move_cursor
  move_cursor_task-alone safe seen w =
      let n = next_height_of seen safe in
      run->>> env (atomic env (lift_err storage (upsert_last_processed_height env n)))
        (λ _. finish (ok n)) (λ _. pure n) w (λ _ _. refl)

  handle_batch_task-alone :
      (b : TransfersResponse) (least : ℤ) (safe : ℕ) (hooks : Option MonitorHooks) (w : World env)
      → run env (handle_batch_task env b least safe hooks) w ≡ handle_batch env b least safe hooks w
  unfolding handle_batch_task handle_batch counter
  handle_batch_task-alone b least safe hooks w =
      run_then env (process_all_task env least hooks none b.incoming)
        (λ seen. move_cursor_task env safe seen) (process_all env least hooks none b.incoming)
        (λ seen. move_cursor env safe seen) _ (process_all_task-alone least hooks none b.incoming _)
        (λ seen v. move_cursor_task-alone safe seen v)

  fetched_task-alone :
      (least : ℤ) (safe : ℕ) (hooks : Option MonitorHooks)
      (r : Result MonitorError TransfersResponse) (w : World env)
      → run env (fetched_task env least safe hooks r) w ≡ fetched_batch env least safe hooks r w
  unfolding fetched_task fetched_batch
  fetched_task-alone least safe hooks (ok b) w = handle_batch_task-alone b least safe hooks w
  fetched_task-alone least safe hooks (err e) w = refl
  fetched_task-alone least safe hooks panic w = refl

  tick_task-alone :
      (s : Round) (height : ℕ) (least : ℤ) (safe : ℕ) (hooks : Option MonitorHooks) (w : World env)
      → run env (tick_task env s height least safe hooks) w
        ≡ monitor_tick env s height least safe hooks w
  unfolding tick_task monitor_tick
  tick_task-alone s height least safe hooks w = elim (Bool-cases (ltb safe height)) [
    | inl wait ↦ rw wait refl
    | inr go ↦ rw go (fetched_task-alone least safe hooks (s.fetch_transfers height safe) w)
  ]

  poll_task-alone :
      (config : BootstrapConfig) (hooks : Option MonitorHooks) (s : Round) (height top : ℕ)
      (w : World env)
      → run env (poll_task env config hooks s height top) w ≡ poll env config hooks s height top w
  unfolding poll_task poll
  poll_task-alone config hooks s height top w =
      let safe = safe_height_of top config.monitor_min_confirmations in
      let least = config.monitor_min_payment_amount in
      elim (Bool-cases (ltb safe height)) [
        | inl wait ↦ rw wait refl
        | inr go ↦ rw go (
            run-caught_then env (fetched_task env least safe hooks (s.fetch_transfers height safe))
              (cursor_after env height) _ w
              (fetched_task-alone least safe hooks (s.fetch_transfers height safe) w))
      ]

  loop_round_task-alone :
      (config : BootstrapConfig) (hooks : Option MonitorHooks) (s : Round) (height : ℕ)
      (w : World env)
      → run env (loop_round_task env config hooks s height) w
        ≡ loop_round env config hooks s height w
  unfolding loop_round_task loop_round
  loop_round_task-alone config hooks s height w = elim (Result-cases s.wallet_height) [
    | inl (top, e) ↦ rw e (poll_task-alone config hooks s height top w)
    | inr (inl (x, e)) ↦ rw e refl
    | inr (inr e) ↦ rw e refl
  ]

  run_loop_task-alone :
      (config : BootstrapConfig) (hooks : Option MonitorHooks) (rounds : List Round) (height : ℕ)
      (w : World env)
      → run env (run_loop_task env config hooks rounds height) w
        ≡ run_loop env config hooks rounds height w
  unfolding run_loop_task run_loop
  run_loop_task-alone config hooks [] height w = refl
  run_loop_task-alone config hooks (s ∷ rounds) height w =
      run_then env (loop_round_task env config hooks s height)
        (λ h. run_loop_task env config hooks rounds h) (loop_round env config hooks s height)
        (λ h. run_loop env config hooks rounds h) w (loop_round_task-alone config hooks s height w)
        (λ h v. run_loop_task-alone config hooks rounds h v)

  -- The monitor whose steps no other task comes between ends, and leaves everything, as `run_monitor`
  -- does, with its stored height, its batches and the errors that it survives.
  pub monitor_task-alone :
      (config : BootstrapConfig) (hooks : Option MonitorHooks) (rounds : List Round) (w : World env)
      → run env (monitor_task env config hooks rounds) w ≡ run_monitor env config hooks rounds w
  unfolding monitor_task run_monitor
  monitor_task-alone config hooks rounds w =
      run->>> env (atomic env (lift_err storage (last_processed_height env)))
        (λ stored.
          run_loop_task env config hooks rounds (unwrap_or stored config.monitor_start_height))
        (λ stored. run_loop env config hooks rounds (unwrap_or stored config.monitor_start_height))
        w (λ stored v. run_loop_task-alone config hooks rounds _ v)
