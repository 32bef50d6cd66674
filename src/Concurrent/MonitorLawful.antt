-- ===== src/Concurrent/MonitorLawful.antt =====
-- The monitor as a task moves the ledger lawfully, whatever requests do between its steps.
use anon_ticket.Base.{
  ℕ, ℤ, ◌≡◌, refl, inl, inr, true, Option, none, some, List, [], ◌∷◌, Bytes, Result, ok, err, panic,
  ltb, ltb_ℤ, lift_err, unwrap_or, Result-cases, as_i64,
}
use anon_ticket.Model.{IsCodec, PaymentId, PidFormatError, Timestamp, parse_pid}
use anon_ticket.Model.PidLaws.{parse_pid-IsPid}
use anon_ticket.Database.{IsEngine}
use anon_ticket.Config.{BootstrapConfig}
use anon_ticket.Env.{Env, World, counter}
use anon_ticket.Ledger.{done}
use anon_ticket.Storage.{insert_payment, last_processed_height, upsert_last_processed_height}
use anon_ticket.Storage.Moves.{Moves, insert_payment-Moves}
use anon_ticket.Storage.TokenMoves.{last_processed_height-Moves, upsert_last_processed_height-Moves}
use anon_ticket.Monitor.{
  MonitorError, storage, TransferEntry, TransfersResponse, MonitorHooks, hook_present, new_payment,
  detected_at, persisted, parsed_entry, check_amount, Round, observe, next_height_of,
  safe_height_of, fetched_batch, cursor_after,
}
use anon_ticket.Monitor.Moves.{read_or_now-Moves}
use anon_ticket.Concurrent.Task.{
  Task, finish, atomic, ◌>>>◌, caught, Any, IsLawful, >>>-Ensures, caught-IsLawful, atomic-IsLawful,
  finish-IsLawful, if-IsLawful,
}
use anon_ticket.Concurrent.Monitor.{
  persist_task, parsed_task, store_task, entry_task, process_all_task, move_cursor_task,
  handle_batch_task, fetched_task, tick_task, poll_task, loop_round_task, run_loop_task,
  monitor_task,
}

module _ (env : Env) (codec : IsCodec env.codec) (engine : IsEngine env.engine) where
  -- One task after another, where the second is lawful after anything.
  then-IsLawful :
      {E A B : Type 0} (t : Task env E A) (f : A → Task env E B) (w : World env)
      → IsLawful env t w
      → ((a : A) (v : World env) → IsLawful env (f a) v)
      → IsLawful env (t >>> f) w
  then-IsLawful t f w h k = >>>-Ensures env t f (Any env) (Any env) w h (λ a v _. k a v)

  persisted-Moves :
      (hooks : Option MonitorHooks) (pid : PaymentId) (u : Unit {0}) (w : World env)
      → Moves env (persisted env hooks pid u) w
  unfolding persisted hook_present counter
  persisted-Moves none pid u w = done
  persisted-Moves (some hooks) pid u w = done

  parsed_task-IsLawful :
      (e : TransferEntry) (h : ℤ) (text : Bytes) (hooks : Option MonitorHooks) (at : Timestamp)
      (r : Result PidFormatError PaymentId) (w : World env)
      → parse_pid env.codec text ≡ r
      → IsLawful env (parsed_task env e h hooks at r) w
  unfolding parsed_task persist_task parsed_entry counter
  parsed_task-IsLawful e h text hooks at (ok pid) w p =
      let valid = parse_pid-IsPid env.codec codec text pid p in
      let n = new_payment e h at pid in
      then-IsLawful (atomic env (lift_err storage (insert_payment env n)))
        (λ u. atomic env (persisted env hooks pid u)) w
        (atomic-IsLawful env (lift_err {F = MonitorError} storage (insert_payment env n)) w
          (λ v. insert_payment-Moves env engine n v valid))
        (λ u v. atomic-IsLawful env (persisted env hooks pid u) v (persisted-Moves hooks pid u))
  parsed_task-IsLawful e h text hooks at (err x) w p =
      atomic-IsLawful env (parsed_entry env e h hooks at (err x)) w (λ v. done)
  parsed_task-IsLawful e h text hooks at panic w p = tt

  detected_at-Moves : (n : ℕ) (w : World env) → Moves env (detected_at env n) w
  unfolding detected_at
  detected_at-Moves n w = read_or_now-Moves env codec engine (env.from_timestamp (as_i64 n)) w

  dust-Moves :
      (e : TransferEntry) (h : ℤ) (text : Bytes) (least : ℤ) (hooks : Option MonitorHooks)
      (w : World env)
      → ltb_ℤ e.amount least ≡ true
      → Moves env (check_amount env e h text least hooks) w
  unfolding check_amount counter
  dust-Moves e h text least hooks w dust = rw dust done

  entry_task-IsLawful :
      (e : TransferEntry) (text : Option Bytes) (h : Option ℤ) (least : ℤ)
      (hooks : Option MonitorHooks) (w : World env)
      → IsLawful env (entry_task env e text h least hooks) w
  unfolding entry_task store_task
  entry_task-IsLawful e none h least hooks w = tt
  entry_task-IsLawful e (some text) none least hooks w = tt
  entry_task-IsLawful e (some text) (some h) least hooks w =
      let stores = λ (at : Timestamp). parsed_task env e h hooks at (parse_pid env.codec text) in
      if-IsLawful env (ltb_ℤ e.amount least) (atomic env (check_amount env e h text least hooks))
        (atomic env (detected_at env e.timestamp) >>> stores) w
        (λ dust.
          atomic-IsLawful env (check_amount env e h text least hooks) w
            (λ v. dust-Moves e h text least hooks v dust))
        (λ _.
          then-IsLawful (atomic env (detected_at env e.timestamp)) stores w
            (atomic-IsLawful env (detected_at env e.timestamp) w (detected_at-Moves e.timestamp))
            (λ at v. parsed_task-IsLawful e h text hooks at (parse_pid env.codec text) v refl))

  process_all_task-IsLawful :
      (least : ℤ) (hooks : Option MonitorHooks) (seen : Option ℕ) (l : List TransferEntry)
      (w : World env)
      → IsLawful env (process_all_task env least hooks seen l) w
  unfolding process_all_task
  process_all_task-IsLawful least hooks seen [] w = tt
  process_all_task-IsLawful least hooks seen (e ∷ l) w =
      then-IsLawful (entry_task env e e.payment_id e.height least hooks)
        (λ _. process_all_task env least hooks (observe seen e.height) l) w
        (entry_task-IsLawful e e.payment_id e.height least hooks w)
        (λ _ v. process_all_task-IsLawful least hooks (observe seen e.height) l v)

  move_cursor_task-IsLawful :
      (safe : ℕ) (seen : Option ℕ) (w : World env) → IsLawful env (move_cursor_task env safe seen) w
  unfolding move_cursor_task
  move_cursor_task-IsLawful safe seen w =
      let n = next_height_of seen safe in
      then-IsLawful (atomic env (lift_err storage (upsert_last_processed_height env n)))
        (λ _. finish (ok n)) w
        (atomic-IsLawful env
          (lift_err {F = MonitorError} storage (upsert_last_processed_height env n)) w
          (upsert_last_processed_height-Moves env engine n))
        (λ _ v. tt)

  fetched_task-IsLawful :
      (least : ℤ) (safe : ℕ) (hooks : Option MonitorHooks)
      (r : Result MonitorError TransfersResponse) (w : World env)
      → IsLawful env (fetched_task env least safe hooks r) w
  unfolding fetched_task handle_batch_task fetched_batch counter
  fetched_task-IsLawful least safe hooks (ok b) w = λ v later. (
    done,
    then-IsLawful (process_all_task env least hooks none b.incoming)
        (λ seen. move_cursor_task env safe seen) _
        (process_all_task-IsLawful least hooks none b.incoming
          (counter env {E = MonitorError} "monitor_rpc_calls_total" (("result", "ok") ∷ []) v).1)
        (λ seen u. move_cursor_task-IsLawful safe seen u),
  )
  fetched_task-IsLawful least safe hooks (err e) w =
      atomic-IsLawful env (fetched_batch env least safe hooks (err e)) w (λ v. done)
  fetched_task-IsLawful least safe hooks panic w = tt

  tick_task-IsLawful :
      (s : Round) (height : ℕ) (least : ℤ) (safe : ℕ) (hooks : Option MonitorHooks) (w : World env)
      → IsLawful env (tick_task env s height least safe hooks) w
  unfolding tick_task
  tick_task-IsLawful s height least safe hooks w =
      if-IsLawful env (ltb safe height) (finish (ok height))
        (fetched_task env least safe hooks (s.fetch_transfers height safe)) w (λ _. tt)
        (λ _. fetched_task-IsLawful least safe hooks (s.fetch_transfers height safe) w)

  poll_task-IsLawful :
      (config : BootstrapConfig) (hooks : Option MonitorHooks) (s : Round) (height top : ℕ)
      (w : World env)
      → IsLawful env (poll_task env config hooks s height top) w
  unfolding poll_task
  poll_task-IsLawful config hooks s height top w =
      let safe = safe_height_of top config.monitor_min_confirmations in
      let tick = tick_task env s height config.monitor_min_payment_amount safe hooks in
      if-IsLawful env (ltb safe height) (finish (ok height))
        (caught env {F = MonitorError} tick >>> λ r. finish (cursor_after env height r)) w (λ _. tt)
        (λ _.
          then-IsLawful (caught env {F = MonitorError} tick)
            (λ r. finish (cursor_after env height r)) w
            (caught-IsLawful env MonitorError tick w (tick_task-IsLawful s height _ safe hooks w))
            (λ r v. finish-IsLawful env (cursor_after env height r) v))

  loop_round_task-IsLawful :
      (config : BootstrapConfig) (hooks : Option MonitorHooks) (s : Round) (height : ℕ)
      (w : World env)
      → IsLawful env (loop_round_task env config hooks s height) w
  unfolding loop_round_task
  loop_round_task-IsLawful config hooks s height w = elim (Result-cases s.wallet_height) [
    | inl (top, e) ↦ rw e (poll_task-IsLawful config hooks s height top w)
    | inr (inl (x, e)) ↦ rw e tt
    | inr (inr e) ↦ rw e tt
  ]

  run_loop_task-IsLawful :
      (config : BootstrapConfig) (hooks : Option MonitorHooks) (rounds : List Round) (height : ℕ)
      (w : World env)
      → IsLawful env (run_loop_task env config hooks rounds height) w
  unfolding run_loop_task
  run_loop_task-IsLawful config hooks [] height w = tt
  run_loop_task-IsLawful config hooks (s ∷ rounds) height w =
      then-IsLawful (loop_round_task env config hooks s height)
        (λ h. run_loop_task env config hooks rounds h) w
        (loop_round_task-IsLawful config hooks s height w)
        (λ h v. run_loop_task-IsLawful config hooks rounds h v)

  pub monitor_task-IsLawful :
      (config : BootstrapConfig) (hooks : Option MonitorHooks) (rounds : List Round) (w : World env)
      → IsLawful env (monitor_task env config hooks rounds) w
  unfolding monitor_task
  monitor_task-IsLawful config hooks rounds w =
      then-IsLawful (atomic env (lift_err storage (last_processed_height env)))
        (λ stored.
          run_loop_task env config hooks rounds (unwrap_or stored config.monitor_start_height))
        w
        (atomic-IsLawful env (lift_err {F = MonitorError} storage (last_processed_height env)) w
          (last_processed_height-Moves env engine))
        (λ stored v. run_loop_task-IsLawful config hooks rounds _ v)
