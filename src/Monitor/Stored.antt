-- ===== src/Monitor/Stored.antt =====
-- crates/monitor/src/pipeline.rs: the row that an entry puts into the table, by which it is told what
-- entry it is of.
use anon_ticket.Base.{
  suc, ℤ, ◌≡◌, refl, sym, subst, ◌∙◌, ap, inl, inr, Option, none, some, [], ◌∷◌, Bytes, Result, ok,
  err, panic, ltb_ℤ, as_i64, bytes_eq, bytes_eq_iff, Option-cases, Bool-cases, Result-cases, ◌>>=◌,
  ◌++◌,
}
use anon_ticket.Model.{PaymentId, NewPayment, Timestamp, PidFormatError, parse_pid}
use anon_ticket.Database.{
  IsEngine, Tables, Fault, refused, lost, find, find-append, payment_key, PaymentModel, Insert,
  do_nothing, run_insert, insert_payment_meaning, settle,
}
use anon_ticket.Env.{Env, World, query, utc_now, counter}
use anon_ticket.Storage.{insert_payment, new_payment_row}
use anon_ticket.Storage.Moves.{tables_of}
use anon_ticket.Monitor.Rpc.{TransferEntry}
use anon_ticket.Monitor.Pipeline.{
  MonitorHooks, detected_at, read_or_now, persisted, new_payment, persist, parsed_entry,
  store_entry, check_amount, with_parts, process_entry,
}
use anon_ticket.Monitor.Redeemable.{Qualifies, hook_present-db}

-- The row has the payment id, the transaction and the amount of the entry, and the height of its block.
pub record IsRowOf (pid : PaymentId) (e : TransferEntry) (block : ℤ) (p : PaymentModel)
    : Type 0 where
  pub same_pid : p.pid ≡ pid.bytes
  pub same_txid : p.txid ≡ e.txid
  pub same_amount : p.amount ≡ e.amount
  pub same_height : p.block_height ≡ block

module _ (env : Env) (engine : IsEngine env.engine) (pid : PaymentId) where
  abbrev row_in : World env → Option PaymentModel
  row_in w = find payment_key pid.bytes (tables_of env w).payments

  inserted_new :
      (m : Bytes) (n : NewPayment) (t : Tables) (p : PaymentModel)
      → find payment_key pid.bytes t.payments ≡ none
      → find payment_key pid.bytes
          (insert_payment_meaning m
            (record { row = new_payment_row n; on_conflict = do_nothing })
            t).1.payments
        ≡ some p
      → (n.pid.bytes ≡ pid.bytes) × (p ≡ new_payment_row n)
  inserted_new m n t p new e = elim (Option-cases (find payment_key n.pid.bytes t.payments)) [
    | inr (q, old) ↦ absurd (cc (new, rw (old, run_insert) at e))
    | inl free ↦
        let e' : find payment_key pid.bytes (t.payments ++ new_payment_row n ∷ []) ≡ some p =
          rw (free, run_insert) at e in
        elim (Bool-cases (bytes_eq n.pid.bytes pid.bytes)) [
          | inl same ↦ (
            (bytes_eq_iff n.pid.bytes pid.bytes).0 same,
            cc (
                rw (find-append payment_key pid.bytes t.payments (new_payment_row n), new, same) at
                  e'),
          )
          | inr other ↦ absurd (
              cc (
                rw (find-append payment_key pid.bytes t.payments (new_payment_row n), new, other) at
                  e'))
        ]
  ]

  settled_new :
      (f : Option Fault) (m : Bytes) (n : NewPayment) (t : Tables) (p : PaymentModel)
      → find payment_key pid.bytes t.payments ≡ none
      → find payment_key pid.bytes
          (settle f
            (insert_payment_meaning m
              (record { row = new_payment_row n; on_conflict = do_nothing }))
            t).1.payments
        ≡ some p
      → (n.pid.bytes ≡ pid.bytes) × (p ≡ new_payment_row n)
  settled_new none m n t p new e = inserted_new m n t p new e
  settled_new (some (refused _)) m n t p new e = absurd (cc (new, e))
  settled_new (some (lost _)) m n t p new e = inserted_new m n t p new e

  insert_payment-new :
      (n : NewPayment) (w : World env) (p : PaymentModel)
      → row_in w ≡ none
      → row_in (insert_payment env n w).1 ≡ some p
      → (n.pid.bytes ≡ pid.bytes) × (p ≡ new_payment_row n)
  unfolding insert_payment query
  insert_payment-new n w p new e =
      let s : Insert PaymentModel = record { row = new_payment_row n; on_conflict = do_nothing } in
      settled_new (env.engine.fault w.db) env.engine.broken_key n (tables_of env w) p new (
        subst (λ t. find payment_key pid.bytes t.payments ≡ some p)
          (engine.insert_payment_obeys s w.db).1 e)

  -- After the insertion nothing more is done to the tables.
  persist-tables :
      (e : TransferEntry) (h : ℤ) (hooks : Option MonitorHooks) (at : Timestamp) (q : PaymentId)
      (w : World env)
      → tables_of env (persist env e h hooks at q w).1
        ≡ tables_of env (insert_payment env (new_payment e h at q) w).1
  unfolding persist persisted counter
  persist-tables e h hooks at q w =
      elim (Result-cases (insert_payment env (new_payment e h at q) w).0) [
        | inl (u, went) ↦
            rw (went, ◌>>=◌)
              (ap (λ d. env.engine.tables d)
                (hook_present-db env hooks q (insert_payment env (new_payment e h at q) w).1))
        | inr (inl (x, bad)) ↦ rw (bad, ◌>>=◌) refl
        | inr (inr bad) ↦ rw (bad, ◌>>=◌) refl
      ]

  persist-new :
      (e : TransferEntry) (h : ℤ) (hooks : Option MonitorHooks) (at : Timestamp) (q : PaymentId)
      (w : World env) (p : PaymentModel)
      → row_in w ≡ none
      → row_in (persist env e h hooks at q w).1 ≡ some p
      → (q ≡ pid) × IsRowOf pid e h p
  persist-new e h hooks at q w p new found =
      let (same, row) = insert_payment-new (new_payment e h at q) w p new (
        ap (λ t. find payment_key pid.bytes t.payments) (sym (persist-tables e h hooks at q w))
        ∙ found) in
      (
        ap (λ b. record { bytes = b }) same,
        record {
          same_pid = ap (λ r. r.pid) row ∙ same;
          same_txid = ap (λ r. r.txid) row;
          same_amount = ap (λ r. r.amount) row;
          same_height = ap (λ r. r.block_height) row;
        },
      )

  parsed_entry-new :
      (e : TransferEntry) (h : ℤ) (hooks : Option MonitorHooks) (at : Timestamp)
      (r : Result PidFormatError PaymentId) (w : World env) (p : PaymentModel)
      → row_in w ≡ none
      → row_in (parsed_entry env e h hooks at r w).1 ≡ some p
      → (r ≡ ok pid) × IsRowOf pid e h p
  unfolding parsed_entry counter
  parsed_entry-new e h hooks at (ok q) w p new found =
      let (same, row) = persist-new e h hooks at q w p new found in (ap ok same, row)
  parsed_entry-new e h hooks at (err x) w p new found = absurd (cc (new, found))
  parsed_entry-new e h hooks at panic w p new found = absurd (cc (new, found))

  read-new :
      (e : TransferEntry) (h : ℤ) (hooks : Option MonitorHooks) (o : Option Timestamp)
      (r : Result PidFormatError PaymentId) (w : World env) (p : PaymentModel)
      → row_in w ≡ none
      → row_in ((read_or_now env o >>= λ at. parsed_entry env e h hooks at r) w).1 ≡ some p
      → (r ≡ ok pid) × IsRowOf pid e h p
  unfolding utc_now
  read-new e h hooks none r w p new found =
      parsed_entry-new e h hooks (env.clock w.clock_reads) r
        (record w { clock_reads = suc w.clock_reads }) p new found
  read-new e h hooks (some at) r w p new found = parsed_entry-new e h hooks at r w p new found

  store_entry-new :
      (e : TransferEntry) (h : ℤ) (text : Bytes) (hooks : Option MonitorHooks) (w : World env)
      (p : PaymentModel)
      → row_in w ≡ none
      → row_in (store_entry env e h text hooks w).1 ≡ some p
      → (parse_pid env.codec text ≡ ok pid) × IsRowOf pid e h p
  unfolding store_entry detected_at
  store_entry-new e h text hooks w p new found =
      read-new e h hooks (env.from_timestamp (as_i64 e.timestamp)) (parse_pid env.codec text) w p
        new found

  -- Where no payment of the id was stored, and one is stored once the entry was processed, the entry
  -- qualifies and the row is the entry's, also if processing it ended in an error.
  pub process_entry-new :
      (e : TransferEntry) (least : ℤ) (hooks : Option MonitorHooks) (w : World env)
      (p : PaymentModel)
      → row_in w ≡ none
      → row_in (process_entry env e least hooks w).1 ≡ some p
      → (q : Qualifies env least pid e) × IsRowOf pid e q.block p
  unfolding process_entry with_parts check_amount counter
  process_entry-new e least hooks w p new found = elim (Option-cases e.payment_id) [
    | inl no_id ↦ absurd (cc (new, rw no_id at found))
    | inr (text, id) ↦ elim (Option-cases e.height) [
      | inl no_height ↦ absurd (cc (new, rw (id, no_height) at found))
      | inr (h, height) ↦ elim (Bool-cases (ltb_ℤ e.amount least)) [
        | inl dust ↦ absurd (cc (new, rw (id, height, dust) at found))
        | inr enough ↦
            let (parses, row) =
              store_entry-new e h text hooks w p new (rw (id, height, enough) at found) in
            (
              record {
                text = text;
                block = h;
                has_id = id;
                has_height = height;
                enough = enough;
                parses = parses;
              },
              row,
            )
      ]
    ]
  ]
