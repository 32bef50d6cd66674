-- ===== src/Monitor/Moves.antt =====
-- The monitor, whatever the wallet and the database answer, as a history of the ledger.
use anon_ticket.Base.{
  ℕ, ℤ, ◌≡◌, refl, inl, inr, Option, none, some, List, [], ◌∷◌, Bytes, Result, ok, err, panic,
  lift_err, Bool-cases, Result-cases, ltb, ltb_ℤ, as_i64, pure, unwrap_or,
}
use anon_ticket.Model.{PaymentId, IsPid, PidFormatError, Timestamp, parse_pid, IsCodec}
use anon_ticket.Model.PidLaws.{parse_pid-IsPid}
use anon_ticket.Database.{IsEngine}
use anon_ticket.Config.{BootstrapConfig}
use anon_ticket.Env.{Env, World, utc_now, counter}
use anon_ticket.Ledger.{done}
use anon_ticket.Storage.{insert_payment, last_processed_height, upsert_last_processed_height}
use anon_ticket.Storage.Moves.{Moves, >>=-Moves, insert_payment-Moves}
use anon_ticket.Storage.TokenMoves.{last_processed_height-Moves, upsert_last_processed_height-Moves}
use anon_ticket.Monitor.Rpc.{MonitorError, storage, TransferEntry, TransfersResponse}
use anon_ticket.Monitor.Pipeline.{
  MonitorHooks, hook_present, detected_at, read_or_now, persisted, new_payment, persist,
  parsed_entry, store_entry, check_amount, with_parts, process_entry,
}
use anon_ticket.Monitor.Worker.{
  Round, observe, next_height_of, safe_height_of, process_all, move_cursor, handle_batch,
  fetched_batch, monitor_tick, poll, loop_round, run_loop, run_monitor,
}

module _ (env : Env) (codec : IsCodec env.codec) (engine : IsEngine env.engine) where
  persist-Moves :
      (e : TransferEntry) (h : ℤ) (hooks : Option MonitorHooks) (at : Timestamp) (pid : PaymentId)
      (w : World env)
      → IsPid pid
      → Moves env (persist env e h hooks at pid) w
  unfolding persist persisted counter hook_present
  persist-Moves e h none at pid w valid =
      >>=-Moves env (lift_err storage (insert_payment env (new_payment e h at pid)))
        (λ u. persisted env none pid u) w (insert_payment-Moves env engine _ w valid) (λ _ _. done)
  persist-Moves e h (some hooks) at pid w valid =
      >>=-Moves env (lift_err storage (insert_payment env (new_payment e h at pid)))
        (λ u. persisted env (some hooks) pid u) w (insert_payment-Moves env engine _ w valid)
        (λ _ _. done)

  parsed_entry-Moves :
      (e : TransferEntry) (h : ℤ) (text : Bytes) (hooks : Option MonitorHooks) (at : Timestamp)
      (r : Result PidFormatError PaymentId) (w : World env)
      → parse_pid env.codec text ≡ r
      → Moves env (parsed_entry env e h hooks at r) w
  unfolding parsed_entry counter
  parsed_entry-Moves e h text hooks at (ok pid) w p =
      persist-Moves e h hooks at pid w (parse_pid-IsPid env.codec codec text pid p)
  parsed_entry-Moves e h text hooks at (err _) w p = done
  parsed_entry-Moves e h text hooks at panic w p = done

  pub read_or_now-Moves : (o : Option Timestamp) (w : World env) → Moves env (read_or_now env o) w
  unfolding utc_now
  read_or_now-Moves none w = done
  read_or_now-Moves (some at) w = done

  store_entry-Moves :
      (e : TransferEntry) (h : ℤ) (text : Bytes) (hooks : Option MonitorHooks) (w : World env)
      → Moves env (store_entry env e h text hooks) w
  unfolding store_entry detected_at
  store_entry-Moves e h text hooks w =
      >>=-Moves env (detected_at env e.timestamp)
        (λ at. parsed_entry env e h hooks at (parse_pid env.codec text)) w
        (read_or_now-Moves (env.from_timestamp (as_i64 e.timestamp)) w)
        (λ at _. parsed_entry-Moves e h text hooks at (parse_pid env.codec text) _ refl)

  with_parts-Moves :
      (e : TransferEntry) (text : Option Bytes) (h : Option ℤ) (least : ℤ)
      (hooks : Option MonitorHooks) (w : World env)
      → Moves env (with_parts env e text h least hooks) w
  unfolding with_parts check_amount counter
  with_parts-Moves e none h least hooks w = done
  with_parts-Moves e (some text) none least hooks w = done
  with_parts-Moves e (some text) (some h) least hooks w = elim (Bool-cases (ltb_ℤ e.amount least)) [
    | inl dust ↦ rw dust done
    | inr enough ↦ rw enough (store_entry-Moves e h text hooks w)
  ]

  pub process_entry-Moves :
      (e : TransferEntry) (least : ℤ) (hooks : Option MonitorHooks) (w : World env)
      → Moves env (process_entry env e least hooks) w
  unfolding process_entry
  process_entry-Moves e least hooks w = with_parts-Moves e e.payment_id e.height least hooks w

  pub process_all-Moves :
      (least : ℤ) (hooks : Option MonitorHooks) (seen : Option ℕ) (l : List TransferEntry)
      (w : World env)
      → Moves env (process_all env least hooks seen l) w
  unfolding process_all
  process_all-Moves least hooks seen [] w = done
  process_all-Moves least hooks seen (e ∷ l) w =
      >>=-Moves env (process_entry env e least hooks)
        (λ _. process_all env least hooks (observe seen e.height) l) w
        (process_entry-Moves e least hooks w)
        (λ _ _. process_all-Moves least hooks (observe seen e.height) l _)

  pub move_cursor-Moves :
      (safe : ℕ) (seen : Option ℕ) (w : World env) → Moves env (move_cursor env safe seen) w
  unfolding move_cursor
  move_cursor-Moves safe seen w =
      >>=-Moves env (lift_err storage (upsert_last_processed_height env (next_height_of seen safe)))
        (λ _. pure (next_height_of seen safe)) w (upsert_last_processed_height-Moves env engine _ w)
        (λ _ _. done)

  pub handle_batch-Moves :
      (b : TransfersResponse) (least : ℤ) (safe : ℕ) (hooks : Option MonitorHooks) (w : World env)
      → Moves env (handle_batch env b least safe hooks) w
  unfolding handle_batch counter
  handle_batch-Moves b least safe hooks w =
      >>=-Moves env (process_all env least hooks none b.incoming)
        (λ seen. move_cursor env safe seen) _ (process_all-Moves least hooks none b.incoming _)
        (λ seen _. move_cursor-Moves safe seen _)

  fetched_batch-Moves :
      (least : ℤ) (safe : ℕ) (hooks : Option MonitorHooks)
      (r : Result MonitorError TransfersResponse) (w : World env)
      → Moves env (fetched_batch env least safe hooks r) w
  unfolding fetched_batch counter
  fetched_batch-Moves least safe hooks (ok b) w = handle_batch-Moves b least safe hooks w
  fetched_batch-Moves least safe hooks (err e) w = done
  fetched_batch-Moves least safe hooks panic w = done

  pub monitor_tick-Moves :
      (s : Round) (height : ℕ) (least : ℤ) (safe : ℕ) (hooks : Option MonitorHooks) (w : World env)
      → Moves env (monitor_tick env s height least safe hooks) w
  unfolding monitor_tick
  monitor_tick-Moves s height least safe hooks w = elim (Bool-cases (ltb safe height)) [
    | inl wait ↦ rw wait done
    | inr go ↦ rw go (fetched_batch-Moves least safe hooks (s.fetch_transfers height safe) w)
  ]

  loop_round-Moves :
      (config : BootstrapConfig) (hooks : Option MonitorHooks) (s : Round) (height : ℕ)
      (w : World env)
      → Moves env (loop_round env config hooks s height) w
  unfolding loop_round poll
  loop_round-Moves config hooks s height w = elim (Result-cases s.wallet_height) [
    | inl (top, e) ↦
        rw e (elim (Bool-cases (ltb (safe_height_of top config.monitor_min_confirmations) height)) [
          | inl wait ↦ rw wait done
          | inr go ↦ rw go (
              fetched_batch-Moves config.monitor_min_payment_amount
                (safe_height_of top config.monitor_min_confirmations) hooks
                (s.fetch_transfers height (safe_height_of top config.monitor_min_confirmations)) w)
        ])
    | inr (inl (x, e)) ↦ rw e done
    | inr (inr e) ↦ rw e done
  ]

  run_loop-Moves :
      (config : BootstrapConfig) (hooks : Option MonitorHooks) (rounds : List Round) (height : ℕ)
      (w : World env)
      → Moves env (run_loop env config hooks rounds height) w
  unfolding run_loop
  run_loop-Moves config hooks [] height w = done
  run_loop-Moves config hooks (s ∷ rounds) height w =
      >>=-Moves env (loop_round env config hooks s height) (λ h. run_loop env config hooks rounds h)
        w (loop_round-Moves config hooks s height w) (λ h _. run_loop-Moves config hooks rounds h _)

  -- However many rounds the monitor runs, and whatever the wallet and the database answer, it
  -- changes the tables by a history of the ledger.
  pub run_monitor-Moves :
      (config : BootstrapConfig) (hooks : Option MonitorHooks) (rounds : List Round) (w : World env)
      → Moves env (run_monitor env config hooks rounds) w
  unfolding run_monitor
  run_monitor-Moves config hooks rounds w =
      >>=-Moves env (lift_err storage (last_processed_height env))
        (λ stored. run_loop env config hooks rounds (unwrap_or stored config.monitor_start_height))
        w (last_processed_height-Moves env engine w)
        (λ stored _. run_loop-Moves config hooks rounds _ _)
