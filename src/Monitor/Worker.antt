-- ===== src/Monitor/Worker.antt =====
-- crates/monitor/src/worker.rs: the loop that follows the wallet.
use anon_ticket.Base.{
  ℕ, ℤ, Option, none, some, List, [], ◌∷◌, Result, ok, err, panic, Action, ◌>>=◌, ◌>>◌, from_result,
  pure, raise, lift_err, min, max, ltb, as_u64, saturating_add, saturating_sub, unwrap_or,
  if◌then◌else◌,
}
use anon_ticket.Config.{BootstrapConfig}
use anon_ticket.Env.{Env, World, counter}
use anon_ticket.Storage.{last_processed_height, upsert_last_processed_height}
use anon_ticket.Monitor.Rpc.{MonitorError, storage, TransferEntry, TransfersResponse}
use anon_ticket.Monitor.Pipeline.{MonitorHooks, process_entry}

-- What the wallet answers to one round of the loop.
pub record Round : Type 0 where
  pub wallet_height : Result MonitorError ℕ
  pub fetch_transfers : ℕ → ℕ → Result MonitorError TransfersResponse

-- `observed_height`, after an entry.
unfoldable pub observe : Option ℕ → Option ℤ → Option ℕ
observe seen none = seen
observe none (some h) = some (as_u64 h)
observe (some current) (some h) = some (max current (as_u64 h))

unfoldable pub next_height_of : Option ℕ → ℕ → ℕ
unfolding saturating_add
next_height_of observed safe_height =
    min
      (elim observed [
        | some max_height ↦ saturating_add max_height 1
        | none ↦ saturating_add safe_height 1
      ])
      (saturating_add safe_height 1)

unfoldable pub safe_height_of : ℕ → ℕ → ℕ
unfolding saturating_add saturating_sub
safe_height_of wallet_height min_confirmations =
    saturating_sub (saturating_add wallet_height 1) min_confirmations

module _ (env : Env) where
  -- The loop of `handle_batch`; the result is the height observed.
  unfoldable pub process_all :
      ℤ
      → Option MonitorHooks
      → Option ℕ
      → List TransferEntry
      → Action (World env) MonitorError (Option ℕ)
  unfolding observe process_entry
  process_all min_payment_amount hooks observed [] = pure observed
  process_all min_payment_amount hooks observed (entry ∷ incoming) =
      process_entry env entry min_payment_amount hooks >>= λ _.
      process_all min_payment_amount hooks (observe observed entry.height) incoming

  -- After the loop: the cursor is stored, then moved. The result is the new cursor.
  unfoldable pub move_cursor : ℕ → Option ℕ → Action (World env) MonitorError ℕ
  unfolding next_height_of upsert_last_processed_height
  move_cursor safe_height observed =
      lift_err storage (upsert_last_processed_height env (next_height_of observed safe_height))
      >> pure (next_height_of observed safe_height)

  unfoldable pub handle_batch :
      TransfersResponse → ℤ → ℕ → Option MonitorHooks → Action (World env) MonitorError ℕ
  unfolding counter process_all move_cursor
  handle_batch transfers min_payment_amount safe_height hooks = do
    counter env "monitor_rpc_calls_total" (("result", "ok") ∷ [])
    observed ← process_all min_payment_amount hooks none transfers.incoming
    move_cursor safe_height observed

  -- The match on the fetched transfers.
  unfoldable pub fetched_batch :
      ℤ
      → ℕ
      → Option MonitorHooks
      → Result MonitorError TransfersResponse
      → Action (World env) MonitorError ℕ
  unfolding counter handle_batch
  fetched_batch min_payment_amount safe_height hooks (ok resp) =
      handle_batch resp min_payment_amount safe_height hooks
  fetched_batch min_payment_amount safe_height hooks (err e) =
      counter env "monitor_rpc_calls_total" (("result", "error") ∷ []) >> raise e
  fetched_batch min_payment_amount safe_height hooks panic = from_result panic

  -- A tick returns the cursor that it leaves.
  unfoldable pub monitor_tick :
      Round → ℕ → ℤ → ℕ → Option MonitorHooks → Action (World env) MonitorError ℕ
  unfolding fetched_batch
  monitor_tick source current_height min_payment_amount safe_height hooks =
      if ltb safe_height current_height
      then pure current_height
      else fetched_batch min_payment_amount safe_height hooks
          (source.fetch_transfers current_height safe_height)

  -- The cursor after a tick: where the tick fails, it is where it was.
  abbrev pub cursor_after : ℕ → Result MonitorError ℕ → Result MonitorError ℕ
  cursor_after height (ok next) = ok next
  cursor_after height (err _) = ok height
  cursor_after height panic = panic

  -- One round of the loop, after the height of the wallet is known.
  unfoldable pub poll :
      BootstrapConfig → Option MonitorHooks → Round → ℕ → ℕ → Action (World env) MonitorError ℕ
  unfolding safe_height_of monitor_tick
  poll config hooks source height wallet_height w =
      let safe_height = safe_height_of wallet_height config.monitor_min_confirmations in
      let (r, w') =
        monitor_tick source height config.monitor_min_payment_amount safe_height hooks w in
      if ltb safe_height height then (ok height, w) else (cursor_after height r, w')

  unfoldable pub loop_round :
      BootstrapConfig → Option MonitorHooks → Round → ℕ → Action (World env) MonitorError ℕ
  unfolding poll
  loop_round config hooks source height = elim source.wallet_height [
    | ok wallet_height ↦ poll config hooks source height wallet_height
    | err _ ↦ pure height
    | panic ↦ from_result panic
  ]

  -- The loop over the rounds that it is given.
  unfoldable pub run_loop :
      BootstrapConfig → Option MonitorHooks → List Round → ℕ → Action (World env) MonitorError ℕ
  unfolding loop_round
  run_loop config hooks [] height = pure height
  run_loop config hooks (source ∷ rounds) height =
      loop_round config hooks source height >>= run_loop config hooks rounds

  unfoldable pub run_monitor :
      BootstrapConfig → Option MonitorHooks → List Round → Action (World env) MonitorError ℕ
  unfolding last_processed_height run_loop
  run_monitor config hooks rounds = do
    stored ← lift_err storage (last_processed_height env)
    run_loop config hooks rounds (unwrap_or stored config.monitor_start_height)
