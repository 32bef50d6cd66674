-- ===== src/Monitor/Redeemable.antt =====
-- What a batch that succeeds has stored, and what the Bloom filter says of it then.
use anon_ticket.Base.{
  ℕ, ℤ, ◌≡◌, refl, sym, subst, ◌∙◌, ap, inl, inr, Bool, true, false, Option, none, some, List, [],
  ◌∷◌, ◌++◌, Bytes, ok, lift_err, lift_err-ok, Option-cases, ltb_ℤ, as_i64, bytes_eq_refl,
}
use anon_ticket.Model.{PaymentId, NewPayment, Timestamp, parse_pid, IsCodec}
use anon_ticket.Services.{IsFilter, bloom_insert, might_contain}
use anon_ticket.Database.{
  IsEngine, find, find-append, payment_key, PaymentModel, insert_payment_meaning, do_nothing,
  run_insert, Insert, Tables,
}
use anon_ticket.Env.{Env, World, counter}
use anon_ticket.Ledger.Growth.{Steps-KeepsPayment}
use anon_ticket.Storage.{insert_payment, new_payment_row}
use anon_ticket.Storage.Moves.{tables_of}
use anon_ticket.Storage.Replies.{>>=-eq-ok, query-ok}
use anon_ticket.Monitor.Rpc.{MonitorError, storage, TransferEntry}
use anon_ticket.Monitor.Pipeline.{
  MonitorHooks, hook_present, detected_at, read_or_now, persisted, new_payment, persist,
  parsed_entry, store_entry, check_amount, with_parts, process_entry,
}
use anon_ticket.Monitor.Worker.{observe, process_all, move_cursor, handle_batch}
use anon_ticket.Monitor.Moves.{process_all-Moves, move_cursor-Moves}
use anon_ticket.Monitor.Hints.{Admits, process_all-Keeps, move_cursor-Keeps}

-- The payment is stored, and redeeming it is not refused by the Bloom filter.
abbrev pub IsRedeemable : (env : Env) → PaymentId → World env → Type 0
IsRedeemable env pid w =
    ((p : PaymentModel) × (find payment_key pid.bytes (tables_of env w).payments ≡ some p))
    × Admits env pid w

-- An entry that the monitor is to store: confirmed, of at least the minimal amount, with a payment
-- id that parses.
pub record Qualifies (env : Env) (least : ℤ) (pid : PaymentId) (e : TransferEntry) : Type 0 where
  pub text : Bytes
  pub block : ℤ
  pub has_id : e.payment_id ≡ some text
  pub has_height : e.height ≡ some block
  pub enough : ltb_ℤ e.amount least ≡ false
  pub parses : parse_pid env.codec text ≡ ok pid

module _ (env : Env) where
  pub hook_present-db :
      (hooks : Option MonitorHooks) (pid : PaymentId) (w : World env)
      → (hook_present env hooks pid w).db ≡ w.db
  unfolding hook_present
  hook_present-db none pid w = refl
  hook_present-db (some hooks) pid w = refl

module _ (env : Env) (codec : IsCodec env.codec) (engine : IsEngine env.engine)
    (filter : IsFilter env.floats env.hints) where
  inserted_row :
      (m : Bytes) (n : NewPayment) (t : Tables)
      → (p : PaymentModel) × (find payment_key n.pid.bytes
            (insert_payment_meaning m
              (record { row = new_payment_row n; on_conflict = do_nothing })
              t).1.payments
          ≡ some p)
  inserted_row m n t = elim (Option-cases (find payment_key n.pid.bytes t.payments)) [
    | inl new ↦ (
      new_payment_row n,
      rw (new, run_insert)
          (rw (
            find-append payment_key n.pid.bytes t.payments (new_payment_row n),
            new,
            bytes_eq_refl n.pid.bytes,
          )),
    )
    | inr (p, old) ↦ (p, rw (old, run_insert) old)
  ]

  -- An insertion that succeeds has the payment stored, whoever stored it first.
  insert_payment-stored :
      (n : NewPayment) (w : World env) (u : Unit {0})
      → (insert_payment env n w).0 ≡ ok u
      → (p : PaymentModel) × (find payment_key n.pid.bytes
            (tables_of env (insert_payment env n w).1).payments
          ≡ some p)
  unfolding insert_payment
  insert_payment-stored n w u h =
      let s : Insert PaymentModel = record { row = new_payment_row n; on_conflict = do_nothing } in
      let (_, after) =
        query-ok env (env.engine.insert_payment s) (insert_payment_meaning env.engine.broken_key s)
          w u (engine.insert_payment_obeys s) h in
      let (p, found) = inserted_row env.engine.broken_key n (tables_of env w) in
      (p, ap (λ t. find payment_key n.pid.bytes t.payments) after ∙ found)

  hook_present-Admits :
      (hooks : MonitorHooks) (pid : PaymentId) (w : World env)
      → hooks.has_bloom ≡ true
      → Admits env pid (hook_present env (some hooks) pid w)
  unfolding hook_present bloom_insert might_contain
  hook_present-Admits hooks pid w on = elim (Option-cases w.bloom) [
    | inl bare ↦ rw (on, bare) (λ e. cc e)
    | inr (b, e) ↦ rw (on, e) (λ refused. cc (refused, filter.contains-insert_self pid.bytes b))
  ]

  persist-IsRedeemable :
      (e : TransferEntry) (h : ℤ) (hooks : MonitorHooks) (at : Timestamp) (pid : PaymentId)
      (w : World env) (b : Bool)
      → hooks.has_bloom ≡ true
      → (persist env e h (some hooks) at pid w).0 ≡ ok b
      → IsRedeemable env pid (persist env e h (some hooks) at pid w).1
  unfolding persist persisted counter
  persist-IsRedeemable e h hooks at pid w b on done =
      let n = new_payment e h at pid in
      let (u, went, _, same) =
        >>=-eq-ok (lift_err {F = MonitorError} storage (insert_payment env n))
          (λ u. persisted env (some hooks) pid u) w b done in
      let (p, found) =
        insert_payment-stored n w u (lift_err-ok storage (insert_payment env n) w u went) in
      (
        (
          p,
          ap (λ x. find payment_key pid.bytes (tables_of env x.1).payments) same
              ∙ ap (λ d. find payment_key pid.bytes (env.engine.tables d).payments)
                  (hook_present-db env (some hooks) pid (insert_payment env n w).1)
              ∙ found,
        ),
        subst (λ x. Admits env pid x.1) (sym same)
            (hook_present-Admits hooks pid (insert_payment env n w).1 on),
      )

  entry-IsRedeemable :
      (e : TransferEntry) (h : ℤ) (text : Bytes) (least : ℤ) (hooks : MonitorHooks)
      (pid : PaymentId) (w : World env) (b : Bool)
      → ltb_ℤ e.amount least ≡ false
      → parse_pid env.codec text ≡ ok pid
      → hooks.has_bloom ≡ true
      → (check_amount env e h text least (some hooks) w).0 ≡ ok b
      → IsRedeemable env pid (check_amount env e h text least (some hooks) w).1
  unfolding check_amount store_entry detected_at parsed_entry
  entry-IsRedeemable e h text least hooks pid w b enough parses on =
      rw (enough, parses)
        (λ went.
          let (at, _, rest, same) =
            >>=-eq-ok (read_or_now env (env.from_timestamp (as_i64 e.timestamp)))
              (λ at. persist env e h (some hooks) at pid) w b went in
          subst (λ x. IsRedeemable env pid x.1) (sym same)
            (persist-IsRedeemable e h hooks at pid _ b on rest))

  pub process_entry-IsRedeemable :
      (e : TransferEntry) (least : ℤ) (hooks : MonitorHooks) (pid : PaymentId) (w : World env)
      (b : Bool)
      → Qualifies env least pid e
      → hooks.has_bloom ≡ true
      → (process_entry env e least (some hooks) w).0 ≡ ok b
      → IsRedeemable env pid (process_entry env e least (some hooks) w).1
  unfolding process_entry with_parts
  process_entry-IsRedeemable e least hooks pid w b q on =
      rw (q.has_id, q.has_height)
        (entry-IsRedeemable e q.block q.text least hooks pid w b q.enough q.parses on)

  pub process_all-IsRedeemable :
      (front : List TransferEntry) (e : TransferEntry) (back : List TransferEntry)
      (seen last : Option ℕ) (least : ℤ) (hooks : MonitorHooks) (pid : PaymentId) (w : World env)
      → Qualifies env least pid e
      → hooks.has_bloom ≡ true
      → (process_all env least (some hooks) seen (front ++ (e ∷ back)) w).0 ≡ ok last
      → IsRedeemable env pid (process_all env least (some hooks) seen (front ++ (e ∷ back)) w).1
  unfolding process_all
  process_all-IsRedeemable [] e back seen last least hooks pid w q on went =
      let seen' = observe seen e.height in
      let w' = (process_entry env e least (some hooks) w).1 in
      let (b, first, rest, same) =
        >>=-eq-ok (process_entry env e least (some hooks))
          (λ _. process_all env least (some hooks) seen' back) w last went in
      let ((p, found), open') = process_entry-IsRedeemable e least hooks pid w b q on first in
      let (p', found', _) =
        Steps-KeepsPayment pid.bytes
          (process_all-Moves env codec engine least (some hooks) seen' back w') found in
      subst (λ x. IsRedeemable env pid x.1) (sym same)
        ((p', found'), process_all-Keeps env filter pid least (some hooks) seen' back w' open')
  process_all-IsRedeemable (x ∷ front) e back seen last least hooks pid w q on went =
      let (b, first, rest, same) =
        >>=-eq-ok (process_entry env x least (some hooks))
          (λ _. process_all env least (some hooks) (observe seen x.height) (front ++ (e ∷ back))) w
          last went in
      subst (λ x. IsRedeemable env pid x.1) (sym same)
        (process_all-IsRedeemable front e back (observe seen x.height) last least hooks pid _ q on
          rest)

  -- After a batch that ended without an error, with hooks that hold the Bloom filter, a payment is
  -- stored for every entry that qualifies, and the filter does not turn away its redemption.
  pub handle_batch-IsRedeemable :
      (front : List TransferEntry) (e : TransferEntry) (back : List TransferEntry) (least : ℤ)
      (safe next : ℕ) (hooks : MonitorHooks) (pid : PaymentId) (w : World env)
      → Qualifies env least pid e
      → hooks.has_bloom ≡ true
      → (handle_batch env (record { incoming = front ++ (e ∷ back) }) least safe (some hooks) w).0
        ≡ ok next
      → IsRedeemable env pid
          (handle_batch env (record { incoming = front ++ (e ∷ back) }) least safe (some hooks) w).1
  unfolding handle_batch counter
  handle_batch-IsRedeemable front e back least safe next hooks pid w q on went =
      let w₀ =
        (counter env {E = MonitorError} "monitor_rpc_calls_total" (("result", "ok") ∷ []) w).1 in
      let (seen, all, moved, same) =
        >>=-eq-ok (process_all env least (some hooks) none (front ++ (e ∷ back)))
          (λ seen. move_cursor env safe seen) w₀ next went in
      let w' = (process_all env least (some hooks) none (front ++ (e ∷ back)) w₀).1 in
      let ((p, found), open') =
        process_all-IsRedeemable front e back none seen least hooks pid w₀ q on all in
      let (p', found', _) =
        Steps-KeepsPayment pid.bytes (move_cursor-Moves env codec engine safe seen w') found in
      subst (λ x. IsRedeemable env pid x.1) (sym same)
        ((p', found'), move_cursor-Keeps env filter pid safe seen w' open')
