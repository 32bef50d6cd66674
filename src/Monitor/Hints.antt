-- ===== src/Monitor/Hints.antt =====
-- The Bloom filter under the monitor: what it admits it goes on to admit.
use anon_ticket.Base.{
  ℕ, ℤ, ◌≢◌, inl, inr, false, Option, none, some, List, [], ◌∷◌, Bytes, Result, ok, err, panic,
  Action, ◌>>=◌, pure, lift_err, Option-cases, Bool-cases, Result-cases, ltb_ℤ, as_i64, ap,
}
use anon_ticket.Model.{NewPayment, PaymentId, PidFormatError, Timestamp, parse_pid}
use anon_ticket.Services.{IsFilter, bloom_insert, might_contain}
use anon_ticket.Env.{Env, World, query, utc_now, counter}
use anon_ticket.Storage.{insert_payment, upsert_last_processed_height}
use anon_ticket.Api.{hint_of}
use anon_ticket.Monitor.Rpc.{MonitorError, storage, TransferEntry}
use anon_ticket.Monitor.Pipeline.{
  MonitorHooks, hook_present, detected_at, read_or_now, persisted, new_payment, persist,
  parsed_entry, store_entry, check_amount, with_parts, process_entry,
}
use anon_ticket.Monitor.Worker.{observe, process_all, move_cursor, next_height_of}

-- Redeeming the payment id is not refused by the Bloom filter.
abbrev pub Admits : (env : Env) → PaymentId → World env → Type 0
Admits env pid w = hint_of env pid w ≢ some false

abbrev pub Keeps :
    (env : Env) {E A : Type 0} → PaymentId → Action (World env) E A → World env → Type 0
Keeps env pid m w = Admits env pid w → Admits env pid (m w).1

module _ (env : Env) (filter : IsFilter env.floats env.hints) (j : PaymentId) where
  >>=-Keeps :
      {E A B : Type 0} (m : Action (World env) E A) (f : A → Action (World env) E B) (w : World env)
      → Keeps env j m w
      → ((a : A) → Keeps env j (f a) (m w).1)
      → Keeps env j (m >>= f) w
  >>=-Keeps m f w first rest h = elim (Result-cases (m w).0) [
    | inl (a, e) ↦ rw (e, ◌>>=◌) (rest a (first h))
    | inr (inl (x, e)) ↦ rw (e, ◌>>=◌) (first h)
    | inr (inr e) ↦ rw (e, ◌>>=◌) (first h)
  ]

  hook_present-Keeps :
      (hooks : Option MonitorHooks) (pid : PaymentId) (w : World env)
      → Admits env j w
      → Admits env j (hook_present env hooks pid w)
  unfolding hook_present bloom_insert might_contain
  hook_present-Keeps none pid w h = h
  hook_present-Keeps (some hooks) pid w h = elim (Bool-cases hooks.has_bloom) [
    | inr off ↦ rw off h
    | inl on ↦ elim (Option-cases w.bloom) [
      | inl bare ↦ rw (on, bare) (λ e. cc e)
      | inr (b, e) ↦ elim (Bool-cases (env.hints.filter_contains j.bytes b)) [
        | inl held ↦
            rw (on, e) (λ refused. cc (refused, filter.contains-insert j.bytes pid.bytes b held))
        | inr denied ↦ absurd (h (rw e (ap some denied)))
      ]
    ]
  ]

  insert_payment-Keeps :
      (n : NewPayment) (w : World env)
      → Keeps env j (lift_err {F = MonitorError} storage (insert_payment env n)) w
  unfolding insert_payment query
  insert_payment-Keeps n w = λ k. k

  persist-Keeps :
      (e : TransferEntry) (h : ℤ) (hooks : Option MonitorHooks) (at : Timestamp) (pid : PaymentId)
      (w : World env)
      → Keeps env j (persist env e h hooks at pid) w
  unfolding persist persisted counter
  persist-Keeps e h hooks at pid w =
      >>=-Keeps (lift_err storage (insert_payment env (new_payment e h at pid)))
        (λ u. persisted env hooks pid u) w (insert_payment-Keeps (new_payment e h at pid) w)
        (λ u k. hook_present-Keeps hooks pid _ k)

  parsed_entry-Keeps :
      (e : TransferEntry) (h : ℤ) (hooks : Option MonitorHooks) (at : Timestamp)
      (r : Result PidFormatError PaymentId) (w : World env)
      → Keeps env j (parsed_entry env e h hooks at r) w
  unfolding parsed_entry counter
  parsed_entry-Keeps e h hooks at (ok pid) w = persist-Keeps e h hooks at pid w
  parsed_entry-Keeps e h hooks at (err _) w = λ k. k
  parsed_entry-Keeps e h hooks at panic w = λ k. k

  read_or_now-Keeps : (o : Option Timestamp) (w : World env) → Keeps env j (read_or_now env o) w
  unfolding utc_now
  read_or_now-Keeps none w = λ k. k
  read_or_now-Keeps (some at) w = λ k. k

  with_parts-Keeps :
      (e : TransferEntry) (text : Option Bytes) (h : Option ℤ) (least : ℤ)
      (hooks : Option MonitorHooks) (w : World env)
      → Keeps env j (with_parts env e text h least hooks) w
  unfolding with_parts check_amount store_entry detected_at counter
  with_parts-Keeps e none h least hooks w = λ k. k
  with_parts-Keeps e (some text) none least hooks w = λ k. k
  with_parts-Keeps e (some text) (some h) least hooks w = elim (Bool-cases (ltb_ℤ e.amount least)) [
    | inl dust ↦ rw dust (λ k. k)
    | inr enough ↦ rw enough (
        >>=-Keeps (read_or_now env (env.from_timestamp (as_i64 e.timestamp)))
          (λ at. parsed_entry env e h hooks at (parse_pid env.codec text)) w
          (read_or_now-Keeps (env.from_timestamp (as_i64 e.timestamp)) w)
          (λ at. parsed_entry-Keeps e h hooks at (parse_pid env.codec text) _))
  ]

  -- Processing an entry withdraws no payment id from the Bloom filter.
  pub process_entry-Keeps :
      (e : TransferEntry) (least : ℤ) (hooks : Option MonitorHooks) (w : World env)
      → Keeps env j (process_entry env e least hooks) w
  unfolding process_entry
  process_entry-Keeps e least hooks w = with_parts-Keeps e e.payment_id e.height least hooks w

  pub process_all-Keeps :
      (least : ℤ) (hooks : Option MonitorHooks) (seen : Option ℕ) (l : List TransferEntry)
      (w : World env)
      → Keeps env j (process_all env least hooks seen l) w
  unfolding process_all
  process_all-Keeps least hooks seen [] w = λ k. k
  process_all-Keeps least hooks seen (e ∷ l) w =
      >>=-Keeps (process_entry env e least hooks)
        (λ _. process_all env least hooks (observe seen e.height) l) w
        (process_entry-Keeps e least hooks w)
        (λ _. process_all-Keeps least hooks (observe seen e.height) l _)

  upsert-Keeps :
      (n : ℕ) (w : World env)
      → Keeps env j (lift_err {F = MonitorError} storage (upsert_last_processed_height env n)) w
  unfolding upsert_last_processed_height query
  upsert-Keeps n w = λ k. k

  pub move_cursor-Keeps :
      (safe : ℕ) (seen : Option ℕ) (w : World env) → Keeps env j (move_cursor env safe seen) w
  unfolding move_cursor
  move_cursor-Keeps safe seen w =
      >>=-Keeps (lift_err storage (upsert_last_processed_height env (next_height_of seen safe)))
        (λ _. pure (next_height_of seen safe)) w (upsert-Keeps (next_height_of seen safe) w)
        (λ _ k. k)
