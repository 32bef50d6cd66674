-- ===== src/Concurrent/Once.antt =====
-- crates/api/src/handlers/redeem.rs: two requests to redeem one payment, among all else that the
-- process does meanwhile.
use anon_ticket.Base.{
  ℕ, zero, suc, ◌≡◌, ◌≢◌, inl, inr, ◌⊎◌, Option, none, some, List, [], ◌∷◌, map, Bytes, codes, ok,
  err, panic,
}
use anon_ticket.Model.{IsCodec, PaymentId, parse_pid}
use anon_ticket.Database.{IsEngine}
use anon_ticket.Env.{Env, World}
use anon_ticket.Ledger.{Steps}
use anon_ticket.Storage.Moves.{tables_of}
use anon_ticket.Api.{ApiError, HttpResponse}
use anon_ticket.System.{Event, redeem}
use anon_ticket.Concurrent.Task.{Task, finish, step}
use anon_ticket.Concurrent.Redeem.{redeem_parsed_task, redeem_task}
use anon_ticket.Concurrent.Schedule.{
  Job, request, monitoring, job_of, advance, advance_at, run_schedule, AllLawful,
  advance_at-AllLawful, jobs-AllLawful,
}
use anon_ticket.Concurrent.Winning.{
  body_status, IsOpen-not-IsTaken, IsTaken, IsTaken-later, Claiming, Unwon, redeem_pid_task-Unwon,
}

-- The status in the answer of a request that is answered by a redemption.
abbrev pub answer : {env : Env} → Job env → Option Bytes
answer (request (finish (ok r))) = body_status r.body
answer (request (finish (err _))) = none
answer (request (finish panic)) = none
answer (request (step _ _)) = none
answer (monitoring _) = none

module _ (env : Env) (codec : IsCodec env.codec) (engine : IsEngine env.engine)
    (pid : PaymentId) where
  abbrev Request : Type 0
  Request = Task env ApiError HttpResponse

  -- Of two requests at most one has claimed, and the payment is claimed if one has.
  abbrev OneWins : Request → Request → World env → Type 0
  OneWins t u w =
      (Unwon env pid t × Unwon env pid u)
      ⊎ (IsTaken env pid w × (Unwon env pid t ⊎ Unwon env pid u))

  advance-Unwon :
      (t : Request) (w : World env)
      → Unwon env pid t
      → Unwon env pid (advance env t w).0 ⊎ Claiming env pid w (advance env t w).1
  advance-Unwon (finish r) w h = inl h
  advance-Unwon (step s k) w h = h w

  OneWins-swap : (t u : Request) (w : World env) → OneWins t u w → OneWins u t w
  OneWins-swap t u w (inl (h, k)) = inl (k, h)
  OneWins-swap t u w (inr (taken, inl h)) = inr (taken, inr h)
  OneWins-swap t u w (inr (taken, inr k)) = inr (taken, inl k)

  OneWins-later :
      (t u : Request) (w v : World env)
      → Steps env.codec (tables_of env w) (tables_of env v)
      → OneWins t u w
      → OneWins t u v
  OneWins-later t u w v later (inl h) = inl h
  OneWins-later t u w v later (inr (taken, h)) = inr (IsTaken-later env pid w v later taken, h)

  OneWins-advance :
      (t u : Request) (w : World env)
      → Steps env.codec (tables_of env w) (tables_of env (advance env t w).1)
      → OneWins t u w
      → OneWins (advance env t w).0 u (advance env t w).1
  OneWins-advance t u w later (inl (h, k)) = elim (advance-Unwon t w h) [
    | inl h' ↦ inl (h', k)
    | inr (_, taken) ↦ inr (taken, inr k)
  ]
  OneWins-advance t u w later (inr (taken, inl h)) = elim (advance-Unwon t w h) [
    | inl h' ↦ inr (IsTaken-later env pid w (advance env t w).1 later taken, inl h')
    | inr (free, _) ↦ absurd (IsOpen-not-IsTaken env pid w free taken)
  ]
  OneWins-advance t u w later (inr (taken, inr k)) =
      inr (IsTaken-later env pid w (advance env t w).1 later taken, inr k)

  Unwon-answer :
      (t : Request) → Unwon env pid t → answer {env = env} (request t) ≢ some (codes "success")
  Unwon-answer (finish (ok r)) h = h
  Unwon-answer (finish (err x)) h = λ e. cc e
  Unwon-answer (finish panic) h = λ e. cc e
  Unwon-answer (step s k) h = λ e. cc e

  two_answers :
      (t u : Request) (w : World env) (jobs : List (Job env)) (others : List (Option Bytes))
      → OneWins t u w
      → map (answer {env = env}) (request t ∷ request u ∷ jobs)
        ≢ some (codes "success") ∷ some (codes "success") ∷ others
  two_answers t u w jobs others (inl (h, _)) e = Unwon-answer t h (cc e)
  two_answers t u w jobs others (inr (_, inl h)) e = Unwon-answer t h (cc e)
  two_answers t u w jobs others (inr (_, inr k)) e = Unwon-answer u k (cc e)

  run_schedule-answers :
      (schedule : List ℕ) (t u : Request) (jobs : List (Job env)) (w : World env)
      (others : List (Option Bytes))
      → AllLawful env (request t ∷ request u ∷ jobs) w
      → OneWins t u w
      → map answer (run_schedule env schedule (request t ∷ request u ∷ jobs) w).0
        ≢ some (codes "success") ∷ some (codes "success") ∷ others
  unfolding run_schedule
  run_schedule-answers [] t u jobs w others lawful h = two_answers t u w jobs others h
  run_schedule-answers (zero ∷ schedule) t u jobs w others lawful h =
      let (moves, lawful') = advance_at-AllLawful env 0 (request t ∷ request u ∷ jobs) w lawful in
      run_schedule-answers schedule (advance env t w).0 u jobs (advance env t w).1 others lawful'
        (OneWins-advance t u w moves h)
  run_schedule-answers (suc zero ∷ schedule) t u jobs w others lawful h =
      let (moves, lawful') = advance_at-AllLawful env 1 (request t ∷ request u ∷ jobs) w lawful in
      run_schedule-answers schedule t (advance env u w).0 jobs (advance env u w).1 others lawful' (
        OneWins-swap (advance env u w).0 t (advance env u w).1
          (OneWins-advance u t w moves (OneWins-swap t u w h)))
  run_schedule-answers (suc (suc n) ∷ schedule) t u jobs w others lawful h =
      let (moves, lawful') =
        advance_at-AllLawful env (suc (suc n)) (request t ∷ request u ∷ jobs) w lawful in
      let (jobs', w') = advance_at env n jobs w in
      run_schedule-answers schedule t u jobs' w' others lawful' (OneWins-later t u w w' moves h)

  redeem_task-Unwon :
      (text : Bytes) → parse_pid env.codec text ≡ ok pid → Unwon env pid (redeem_task env text)
  unfolding redeem_task redeem_parsed_task
  redeem_task-Unwon text parsed = rw parsed (redeem_pid_task-Unwon env pid engine)

  -- Of two requests to redeem one payment, by any texts of its payment id, at most one is answered
  -- with "success": at no moment of any interleaving of their steps with each other and with the steps
  -- of any other requests and monitor runs have both that answer, whatever faults befall the database.
  pub redeemed_once :
      (text text' : Bytes) (schedule : List ℕ) (events : List Event) (w : World env)
      (others : List (Option Bytes))
      → parse_pid env.codec text ≡ ok pid
      → parse_pid env.codec text' ≡ ok pid
      → map answer
          (run_schedule env schedule (map (job_of env) (redeem text ∷ redeem text' ∷ events)) w).0
        ≢ some (codes "success") ∷ some (codes "success") ∷ others
  unfolding job_of
  redeemed_once text text' schedule events w others parsed parsed' =
      run_schedule-answers schedule (redeem_task env text) (redeem_task env text')
        (map (job_of env) events) w others
        (jobs-AllLawful env codec engine (redeem text ∷ redeem text' ∷ events) w)
        (inl (redeem_task-Unwon text parsed, redeem_task-Unwon text' parsed'))
