-- ===== src/Monitor/Admitted.antt =====
-- crates/monitor/src/worker.rs: the Bloom filter over the monitor's whole run.
use anon_ticket.Base.{
  ℕ, ℤ, ◌≡◌, refl, sym, ◌∙◌, ap, inl, inr, true, Option, none, some, List, [], ◌∷◌, Bytes, Result,
  ok, err, panic, Action, ◌>>=◌, map_err, as_i64, Option-cases, Bool-cases, Result-cases, ltb,
}
use anon_ticket.Model.{PaymentId, NewPayment, Timestamp, IsCodec}
use anon_ticket.Services.{IsFilter}
use anon_ticket.Config.{BootstrapConfig}
use anon_ticket.Database.{
  IsEngine, IsReliable, Tables, Fault, refused, lost, Insert, StateModel, find, payment_key,
  PaymentModel, do_nothing, run_insert, insert_payment_meaning, insert_state_meaning, settle,
}
use anon_ticket.Env.{Env, World, query, database, utc_now, counter}
use anon_ticket.Storage.{insert_payment, new_payment_row, height_row, upsert_last_processed_height}
use anon_ticket.Storage.Moves.{tables_of}
use anon_ticket.Monitor.Rpc.{MonitorError, TransferEntry, TransfersResponse}
use anon_ticket.Monitor.Pipeline.{
  MonitorHooks, detected_at, read_or_now, persisted, new_payment, persist, parsed_entry,
  store_entry, check_amount, with_parts, process_entry,
}
use anon_ticket.Monitor.Worker.{
  Round, observe, process_all, move_cursor, next_height_of, handle_batch, fetched_batch,
  monitor_tick, poll, loop_round, run_loop, safe_height_of,
}
use anon_ticket.Monitor.Hints.{Admits, process_entry-Keeps, move_cursor-Keeps}
use anon_ticket.Monitor.Redeemable.{Qualifies, process_entry-IsRedeemable}
use anon_ticket.Monitor.Stored.{process_entry-new}

module _ (env : Env) (codec : IsCodec env.codec) (engine : IsEngine env.engine)
    (reliable : IsReliable env.engine) (filter : IsFilter env.floats env.hints)
    (hooks : MonitorHooks) (on : hooks.has_bloom ≡ true) (pid : PaymentId) where
  abbrev row_of : World env → Option PaymentModel
  row_of w = find payment_key pid.bytes (tables_of env w).payments

  -- If the payment is stored, the Bloom filter does not deny it.
  abbrev pub IsShown : World env → Type 0
  IsShown w = (p : PaymentModel) → row_of w ≡ some p → Admits env pid w

  abbrev Shows : {E A : Type 0} → Action (World env) E A → World env → Type 0
  Shows m w = IsShown w → IsShown (m w).1

  >>=-Shows :
      {E A B : Type 0} (m : Action (World env) E A) (f : A → Action (World env) E B) (w : World env)
      → Shows m w
      → ((a : A) → Shows (f a) (m w).1)
      → Shows (m >>= f) w
  >>=-Shows m f w first rest h = elim (Result-cases (m w).0) [
    | inl (a, e) ↦ rw (e, ◌>>=◌) (rest a (first h))
    | inr (inl (x, e)) ↦ rw (e, ◌>>=◌) (first h)
    | inr (inr e) ↦ rw (e, ◌>>=◌) (first h)
  ]

  inserted-ok :
      (m : Bytes) (n : NewPayment) (t : Tables)
      → (insert_payment_meaning m
          (record { row = new_payment_row n; on_conflict = do_nothing })
          t).0
        ≡ ok tt
  inserted-ok m n t = elim (Option-cases (find payment_key n.pid.bytes t.payments)) [
    | inl new ↦ rw (new, run_insert) refl
    | inr (p, old) ↦ rw (old, run_insert) refl
  ]

  -- While no statement fails, an insertion succeeds.
  insert_payment-ok : (n : NewPayment) (w : World env) → (insert_payment env n w).0 ≡ ok tt
  unfolding insert_payment query
  insert_payment-ok n w =
      let s : Insert PaymentModel = record { row = new_payment_row n; on_conflict = do_nothing } in
      ap (map_err database) (
        (engine.insert_payment_obeys s w.db).0
        ∙ ap (λ f. (settle f (insert_payment_meaning env.engine.broken_key s) (tables_of env w)).0)
            (reliable w.db)
        ∙ inserted-ok env.engine.broken_key n (tables_of env w))

  persist-ok :
      (e : TransferEntry) (h : ℤ) (at : Timestamp) (w : World env)
      → (persist env e h (some hooks) at pid w).0 ≡ ok true
  unfolding persist persisted counter
  persist-ok e h at w = rw (insert_payment-ok (new_payment e h at pid) w, ◌>>=◌) refl

  read-ok :
      (e : TransferEntry) (h : ℤ) (o : Option Timestamp) (w : World env)
      → ((read_or_now env o >>= λ at. parsed_entry env e h (some hooks) at (ok pid)) w).0 ≡ ok true
  unfolding parsed_entry utc_now
  read-ok e h none w = persist-ok e h (env.clock w.clock_reads) _
  read-ok e h (some at) w = persist-ok e h at w

  process_entry-ok :
      (e : TransferEntry) (least : ℤ) (w : World env)
      → Qualifies env least pid e
      → (process_entry env e least (some hooks) w).0 ≡ ok true
  unfolding process_entry with_parts check_amount store_entry detected_at
  process_entry-ok e least w q =
      rw (q.has_id, q.has_height, q.enough, q.parses)
        (read-ok e q.block (env.from_timestamp (as_i64 e.timestamp)) w)

  process_entry-Shows :
      (e : TransferEntry) (least : ℤ) (w : World env)
      → Shows (process_entry env e least (some hooks)) w
  process_entry-Shows e least w h p found = elim (Option-cases (row_of w)) [
    | inl new ↦
        let (q, _) = process_entry-new env engine pid e least (some hooks) w p new found in
        (process_entry-IsRedeemable env codec engine filter e least hooks pid w true q on
          (process_entry-ok e least w q)).1
    | inr (old, there) ↦ process_entry-Keeps env filter pid e least (some hooks) w (h old there)
  ]

  process_all-Shows :
      (least : ℤ) (seen : Option ℕ) (l : List TransferEntry) (w : World env)
      → Shows (process_all env least (some hooks) seen l) w
  unfolding process_all
  process_all-Shows least seen [] w = λ h. h
  process_all-Shows least seen (e ∷ l) w =
      >>=-Shows (process_entry env e least (some hooks))
        (λ _. process_all env least (some hooks) (observe seen e.height) l) w
        (process_entry-Shows e least w) (λ _. process_all-Shows least (observe seen e.height) l _)

  state-payments :
      (f : Option Fault) (m : Bytes) (s : Insert StateModel) (t : Tables)
      → (settle f (insert_state_meaning m s) t).1.payments ≡ t.payments
  state-payments none m s t = refl
  state-payments (some (refused _)) m s t = refl
  state-payments (some (lost _)) m s t = refl

  upsert-row : (n : ℕ) (w : World env) → row_of (upsert_last_processed_height env n w).1 ≡ row_of w
  unfolding upsert_last_processed_height query
  upsert-row n w =
      ap (λ t. find payment_key pid.bytes t.payments)
        (engine.insert_state_obeys (height_row n) w.db).1
      ∙ ap (find payment_key pid.bytes) (
          state-payments (env.engine.fault w.db) env.engine.broken_key (height_row n)
            (tables_of env w))

  move_cursor-row :
      (safe : ℕ) (seen : Option ℕ) (w : World env)
      → row_of (move_cursor env safe seen w).1 ≡ row_of w
  unfolding move_cursor
  move_cursor-row safe seen w =
      let n = next_height_of seen safe in
      elim (Result-cases (upsert_last_processed_height env n w).0) [
        | inl (u, e) ↦ rw (e, ◌>>=◌) (upsert-row n w)
        | inr (inl (x, e)) ↦ rw (e, ◌>>=◌) (upsert-row n w)
        | inr (inr e) ↦ rw (e, ◌>>=◌) (upsert-row n w)
      ]

  move_cursor-Shows :
      (safe : ℕ) (seen : Option ℕ) (w : World env) → Shows (move_cursor env safe seen) w
  move_cursor-Shows safe seen w h p found =
      move_cursor-Keeps env filter pid safe seen w (h p (sym (move_cursor-row safe seen w) ∙ found))

  fetched_batch-Shows :
      (least : ℤ) (safe : ℕ) (r : Result MonitorError TransfersResponse) (w : World env)
      → Shows (fetched_batch env least safe (some hooks) r) w
  unfolding fetched_batch handle_batch counter
  fetched_batch-Shows least safe (ok b) w =
      >>=-Shows (process_all env least (some hooks) none b.incoming)
        (λ seen. move_cursor env safe seen) _ (process_all-Shows least none b.incoming _)
        (λ seen. move_cursor-Shows safe seen _)
  fetched_batch-Shows least safe (err e) w = λ h. h
  fetched_batch-Shows least safe panic w = λ h. h

  module _ (config : BootstrapConfig) where
    loop_round-Shows :
        (s : Round) (height : ℕ) (w : World env)
        → Shows (loop_round env config (some hooks) s height) w
    unfolding loop_round poll monitor_tick
    loop_round-Shows s height w = elim (Result-cases s.wallet_height) [
      | inl (top, e) ↦
          rw e
            (elim (Bool-cases (ltb (safe_height_of top config.monitor_min_confirmations) height)) [
              | inl wait ↦ rw wait (λ h. h)
              | inr go ↦ rw go (
                  let safe = safe_height_of top config.monitor_min_confirmations in
                  fetched_batch-Shows config.monitor_min_payment_amount safe
                    (s.fetch_transfers height safe) w)
            ])
      | inr (inl (x, e)) ↦ rw e (λ h. h)
      | inr (inr e) ↦ rw e (λ h. h)
    ]

    -- While no statement fails, and with hooks that hold the Bloom filter, the filter denies no stored
    -- payment after any rounds of the monitor's loop, whatever the wallet answers and whichever batches
    -- are cut short, if it denied none that was stored before: a payment that the monitor stores is shown
    -- to the filter, and none is withdrawn.
    pub run_loop-Admits :
        (rounds : List Round) (height : ℕ) (w : World env) (p : PaymentModel)
        → ((q : PaymentModel)
            → find payment_key pid.bytes (tables_of env w).payments ≡ some q
            → Admits env pid w)
        → find payment_key pid.bytes
            (tables_of env (run_loop env config (some hooks) rounds height w).1).payments
          ≡ some p
        → Admits env pid (run_loop env config (some hooks) rounds height w).1
    unfolding run_loop
    run_loop-Admits [] height w p h found = h p found
    run_loop-Admits (s ∷ rounds) height w p h found =
        >>=-Shows (loop_round env config (some hooks) s height)
          (run_loop env config (some hooks) rounds) w (loop_round-Shows s height w)
          (λ next h' p' found'. run_loop-Admits rounds next _ p' h' found') h p found
