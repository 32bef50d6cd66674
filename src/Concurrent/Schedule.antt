-- ===== src/Concurrent/Schedule.antt =====
-- Interleavings: the executor takes one step of one of the process's tasks after the other.
use anon_ticket.Base.{ℕ, zero, suc, ◌≡◌, ◌≢◌, inl, inr, some, List, [], ◌∷◌, ◌++◌, map, ok}
use anon_ticket.Model.{IsCodec, PaymentId, ClaimOutcome}
use anon_ticket.Database.{IsEngine}
use anon_ticket.Env.{Env, World}
use anon_ticket.Ledger.{Steps, done, Steps-trans}
use anon_ticket.Ledger.Growth.{Steps-KeepsPayment}
use anon_ticket.Ledger.Soundness.{IsSound, Steps-IsSound}
use anon_ticket.Storage.{claim_payment}
use anon_ticket.Storage.Moves.{tables_of, claim_payment-Moves}
use anon_ticket.Storage.Replies.{claim_payment-some}
use anon_ticket.Api.{ApiError, HttpResponse}
use anon_ticket.Monitor.{MonitorError}
use anon_ticket.System.{Event, redeem, token_status, revoke, monitor}
use anon_ticket.Concurrent.Task.{Task, finish, step, IsLawful, IsLawful-later}
use anon_ticket.Concurrent.Redeem.{redeem_task}
use anon_ticket.Concurrent.Tokens.{token_status_task, revoke_handler_task}
use anon_ticket.Concurrent.Monitor.{monitor_task}
use anon_ticket.Concurrent.RedeemLawful.{redeem_task-IsLawful}
use anon_ticket.Concurrent.TokensLawful.{token_status_task-IsLawful, revoke_handler_task-IsLawful}
use anon_ticket.Concurrent.MonitorLawful.{monitor_task-IsLawful}

-- A task of the process: one request, or the monitor.
pub data Job (env : Env) : Type 0 where
  request : Task env ApiError HttpResponse → Job env
  monitoring : Task env MonitorError ℕ → Job env

module _ (env : Env) where
  unfoldable pub job_of : Event → Job env
  unfolding redeem_task token_status_task revoke_handler_task monitor_task
  job_of (redeem text) = request (redeem_task env text)
  job_of (token_status path) = request (token_status_task env path)
  job_of (revoke path payload) = request (revoke_handler_task env path payload)
  job_of (monitor config hooks rounds) = monitoring (monitor_task env config hooks rounds)

  -- One step of a task; a finished one stays as it is.
  abbrev pub advance : {E A : Type 0} → Task env E A → World env → Task env E A × World env
  advance (finish r) w = (finish r, w)
  advance (step s k) w = (k w, s w)

  abbrev pub advance_job : Job env → World env → Job env × World env
  advance_job (request t) w = let (t', w') = advance t w in (request t', w')
  advance_job (monitoring t) w = let (t', w') = advance t w in (monitoring t', w')

  -- A step of the task with a number; where there is none, nothing happens.
  abbrev pub advance_at : ℕ → List (Job env) → World env → List (Job env) × World env
  advance_at n [] w = ([], w)
  advance_at zero (j ∷ jobs) w = let (j', w') = advance_job j w in (j' ∷ jobs, w')
  advance_at (suc n) (j ∷ jobs) w = let (jobs', w') = advance_at n jobs w in (j ∷ jobs', w')

  -- The tasks that the executor takes up, in order.
  unfoldable pub run_schedule : List ℕ → List (Job env) → World env → List (Job env) × World env
  run_schedule [] jobs w = (jobs, w)
  run_schedule (n ∷ schedule) jobs w =
      let (jobs', w') = advance_at n jobs w in run_schedule schedule jobs' w'

  abbrev pub IsLawfulJob : Job env → World env → Type 0
  IsLawfulJob (request t) w = IsLawful env t w
  IsLawfulJob (monitoring t) w = IsLawful env t w

  abbrev pub AllLawful : List (Job env) → World env → Type 0
  AllLawful [] w = Unit {0}
  AllLawful (j ∷ jobs) w = IsLawfulJob j w × AllLawful jobs w

  IsLawfulJob-later :
      (j : Job env) (w v : World env)
      → Steps env.codec (tables_of env w) (tables_of env v)
      → IsLawfulJob j w
      → IsLawfulJob j v
  IsLawfulJob-later (request t) w v later h = IsLawful-later env t w v later h
  IsLawfulJob-later (monitoring t) w v later h = IsLawful-later env t w v later h

  AllLawful-later :
      (jobs : List (Job env)) (w v : World env)
      → Steps env.codec (tables_of env w) (tables_of env v)
      → AllLawful jobs w
      → AllLawful jobs v
  AllLawful-later [] w v later h = tt
  AllLawful-later (j ∷ jobs) w v later (h, hs) =
      (IsLawfulJob-later j w v later h, AllLawful-later jobs w v later hs)

  advance-IsLawful :
      {E A : Type 0} (t : Task env E A) (w : World env)
      → IsLawful env t w
      → Steps env.codec (tables_of env w) (tables_of env (advance t w).1)
        × IsLawful env (advance t w).0 (advance t w).1
  advance-IsLawful (finish r) w h = (done, h)
  advance-IsLawful (step s k) w h = h w done

  advance_job-IsLawfulJob :
      (j : Job env) (w : World env)
      → IsLawfulJob j w
      → Steps env.codec (tables_of env w) (tables_of env (advance_job j w).1)
        × IsLawfulJob (advance_job j w).0 (advance_job j w).1
  advance_job-IsLawfulJob (request t) w h = advance-IsLawful t w h
  advance_job-IsLawfulJob (monitoring t) w h = advance-IsLawful t w h

  pub advance_at-AllLawful :
      (n : ℕ) (jobs : List (Job env)) (w : World env)
      → AllLawful jobs w
      → Steps env.codec (tables_of env w) (tables_of env (advance_at n jobs w).1)
        × AllLawful (advance_at n jobs w).0 (advance_at n jobs w).1
  advance_at-AllLawful n [] w h = (done, tt)
  advance_at-AllLawful zero (j ∷ jobs) w (h, hs) =
      let (moves, lawful) = advance_job-IsLawfulJob j w h in
      (moves, (lawful, AllLawful-later jobs w _ moves hs))
  advance_at-AllLawful (suc n) (j ∷ jobs) w (h, hs) =
      let (moves, lawful) = advance_at-AllLawful n jobs w hs in
      (moves, (IsLawfulJob-later j w _ moves h, lawful))

  run_schedule-AllLawful :
      (schedule : List ℕ) (jobs : List (Job env)) (w : World env)
      → AllLawful jobs w
      → Steps env.codec (tables_of env w) (tables_of env (run_schedule schedule jobs w).1)
        × AllLawful (run_schedule schedule jobs w).0 (run_schedule schedule jobs w).1
  unfolding run_schedule
  run_schedule-AllLawful [] jobs w h = (done, h)
  run_schedule-AllLawful (n ∷ schedule) jobs w h =
      let (moves, lawful) = advance_at-AllLawful n jobs w h in
      let (moves', lawful') = run_schedule-AllLawful schedule _ _ lawful in
      (Steps-trans moves moves', lawful')

  append-AllLawful :
      (jobs others : List (Job env)) (w : World env)
      → AllLawful jobs w
      → AllLawful others w
      → AllLawful (jobs ++ others) w
  append-AllLawful [] others w h k = k
  append-AllLawful (j ∷ jobs) others w (h, hs) k = (h, append-AllLawful jobs others w hs k)

  -- The state after some steps of the tasks of some events.
  abbrev pub interleaved : List ℕ → List Event → World env → World env
  interleaved schedule events w = (run_schedule schedule (map job_of events) w).1

  -- The state after further steps of the tasks as they stand after `before`, and of the tasks of the
  -- events that arrive then, from a state of the process.
  abbrev pub resumed : List ℕ → List ℕ → List Event → List Event → World env → World env → World env
  resumed before after events arrivals w v =
      let jobs = (run_schedule before (map job_of events) w).0 in
      (run_schedule after (jobs ++ map job_of arrivals) v).1

module _ (env : Env) (codec : IsCodec env.codec) (engine : IsEngine env.engine) where
  job_of-IsLawfulJob : (e : Event) (w : World env) → IsLawfulJob env (job_of env e) w
  unfolding job_of
  job_of-IsLawfulJob (redeem text) w = redeem_task-IsLawful env engine text w
  job_of-IsLawfulJob (token_status path) w = token_status_task-IsLawful env engine path w
  job_of-IsLawfulJob (revoke path payload) w =
      revoke_handler_task-IsLawful env engine path payload w
  job_of-IsLawfulJob (monitor config hooks rounds) w =
      monitor_task-IsLawful env codec engine config hooks rounds w

  pub jobs-AllLawful :
      (events : List Event) (w : World env) → AllLawful env (map (job_of env) events) w
  jobs-AllLawful [] w = tt
  jobs-AllLawful (e ∷ events) w = (job_of-IsLawfulJob e w, jobs-AllLawful events w)

  -- However the steps of any requests and monitor runs interleave, at whatever step the process is
  -- stopped and whatever faults befall the database, the tables change by a history of the ledger.
  pub interleaved-Steps :
      (schedule : List ℕ) (events : List Event) (w : World env)
      → Steps env.codec (tables_of env w) (tables_of env (interleaved env schedule events w))
  interleaved-Steps schedule events w =
      (run_schedule-AllLawful env schedule (map (job_of env) events) w (jobs-AllLawful events w)).0

  -- At every moment of every interleaving the ledger is sound, if it was at the start.
  pub interleaved-IsSound :
      (schedule : List ℕ) (events : List Event) (w : World env)
      → IsSound env.codec (tables_of env w)
      → IsSound env.codec (tables_of env (interleaved env schedule events w))
  interleaved-IsSound schedule events w h = Steps-IsSound (interleaved-Steps schedule events w) h

  -- The tables and the tasks at a moment, and a state that a history of the ledger leads to from
  -- there: whatever those tasks and others that come then do on, the tables go on by a history.
  resumed-Steps :
      (before after : List ℕ) (events arrivals : List Event) (w v : World env)
      → Steps env.codec (tables_of env (interleaved env before events w)) (tables_of env v)
      → Steps env.codec
          (tables_of env v)
          (tables_of env (resumed env before after events arrivals w v))
  resumed-Steps before after events arrivals w v moves =
      let jobs = (run_schedule env before (map (job_of env) events) w).0 in
      let (_, lawful) =
        run_schedule-AllLawful env before (map (job_of env) events) w (jobs-AllLawful events w) in
      (run_schedule-AllLawful env after (jobs ++ map (job_of env) arrivals) v (
        append-AllLawful env jobs (map (job_of env) arrivals) v
          (AllLawful-later env jobs _ v moves lawful) (jobs-AllLawful arrivals v))).0

  -- A claim of a payment that returned an outcome, made between any two steps of any requests and
  -- monitor runs, is the last that does: whatever steps those under way take from there, and whatever
  -- requests and monitor runs that come later, no claim of the payment returns an outcome.
  pub claim_payment_once_interleaved :
      (pid : PaymentId) (before after : List ℕ) (events arrivals : List Event) (w : World env)
      (first second : ClaimOutcome)
      → (claim_payment env pid (interleaved env before events w)).0 ≡ ok (some first)
      → (claim_payment env pid (
          resumed env before after events arrivals w
            (claim_payment env pid (interleaved env before events w)).1)).0
        ≢ ok (some second)
  claim_payment_once_interleaved pid before after events arrivals w first second h again =
      let v = interleaved env before events w in
      let v' = (claim_payment env pid v).1 in
      let (p, _, _, taken, _) = claim_payment-some env engine pid v first h in
      let (q, kept, later) =
        Steps-KeepsPayment pid.bytes
          (resumed-Steps before after events arrivals w v' (claim_payment-Moves env engine pid v))
          taken in
      let (r, found, free, _, _) =
        claim_payment-some env engine pid (resumed env before after events arrivals w v') second
          again in
      elim later.kept [ inl open' ↦ cc | inr same ↦ cc (kept, found, free, same) ]
