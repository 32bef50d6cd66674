-- ===== src/Concurrent/Winning.antt =====
-- crates/api/src/handlers/redeem.rs: which step of a request to redeem it takes to be answered with
-- success.
use anon_ticket.Base.{
  ◌≡◌, ◌≢◌, refl, inl, inr, ◌⊎◌, Bool, true, false, Option, none, some, Bytes, codes, Result, ok,
  err, panic, Action, lift_err, lift_err-ok, unwrap_or,
}
use anon_ticket.Model.{PaymentId, PaymentStatus, PaymentRecord, ClaimOutcome, ServiceTokenRecord}
use anon_ticket.Database.{IsEngine, find, payment_key, PaymentModel, PaymentStatusDb}
use anon_ticket.Env.{Env, World, counter}
use anon_ticket.Ledger.{Steps}
use anon_ticket.Ledger.Growth.{Steps-KeepsPayment}
use anon_ticket.Storage.{claim_payment, find_payment}
use anon_ticket.Storage.Moves.{tables_of}
use anon_ticket.Storage.Replies.{claim_payment-some}
use anon_ticket.Api.{
  ApiError, storage, HttpResponse, Body, redeem_body, token_body, error_body, bloom_hint,
  mark_hints, check_bloom, build_redeem_response, already_claimed, absent_found, absent_payment,
}
use anon_ticket.Concurrent.Task.{Task, finish, step, atomic, ◌>>>◌}
use anon_ticket.Concurrent.Redeem.{
  ensure_task, absent_found_task, absent_payment_task, absent_task, after_claim_task,
  redeem_pid_task,
}

-- The status that the body of an answer to a redemption names.
abbrev pub body_status : Body → Option Bytes
body_status (redeem_body r) = some r.status
body_status (token_body _) = none
body_status (error_body _) = none

module _ (env : Env) (pid : PaymentId) where
  abbrev IsIn : PaymentStatusDb → World env → Type 0
  IsIn s w =
      (p : PaymentModel) × (find payment_key pid.bytes (tables_of env w).payments ≡ some p)
      × (p.status ≡ s)

  abbrev pub IsOpen : World env → Type 0
  IsOpen w = IsIn PaymentStatusDb.unclaimed w

  abbrev pub IsTaken : World env → Type 0
  IsTaken w = IsIn PaymentStatusDb.claimed w

  pub IsOpen-not-IsTaken : (w : World env) → IsOpen w → ¬ IsTaken w
  IsOpen-not-IsTaken w (p, found, free) (q, found', taken) = cc (found, found', free, taken)

  -- What is claimed stays claimed.
  pub IsTaken-later :
      (w v : World env)
      → Steps env.codec (tables_of env w) (tables_of env v)
      → IsTaken w
      → IsTaken v
  IsTaken-later w v later (p, found, taken) =
      let (q, found', kept) = Steps-KeepsPayment pid.bytes later found in
      (
        q,
        found',
        elim kept.kept [ inl free ↦ absurd (cc (free, taken)) | inr same ↦ cc (same, taken) ],
      )

  -- A step claims: the payment was open, and it is taken.
  abbrev pub Claiming : World env → World env → Type 0
  Claiming w v = IsOpen w × IsTaken v

  -- The task is not answered with success, unless one of its steps claims the payment.
  abbrev pub Unwon : Task env ApiError HttpResponse → Type 0
  Unwon (finish (ok r)) = body_status r.body ≢ some (codes "success")
  Unwon (finish (err _)) = Unit {0}
  Unwon (finish panic) = Unit {0}
  Unwon (step s k) = (v : World env) → Unwon (k v) ⊎ Claiming v (s v)

  >>>-Unwon :
      {A : Type 0} (t : Task env ApiError A) (f : A → Task env ApiError HttpResponse)
      → ((a : A) → Unwon (f a))
      → Unwon (t >>> f)
  >>>-Unwon (finish (ok a)) f h = h a
  >>>-Unwon (finish (err e)) f h = tt
  >>>-Unwon (finish panic) f h = tt
  >>>-Unwon (step s k) f h = λ v. inl (>>>-Unwon (k v) f h)

  result-Unwon :
      (r : Result ApiError HttpResponse)
      → ((a : HttpResponse) → r ≡ ok a → body_status a.body ≢ some (codes "success"))
      → Unwon (finish r)
  result-Unwon (ok a) h = h a refl
  result-Unwon (err e) h = tt
  result-Unwon panic h = tt

  atomic-Unwon :
      (m : Action (World env) ApiError HttpResponse)
      → ((v : World env) (a : HttpResponse)
          → (m v).0 ≡ ok a
          → body_status a.body ≢ some (codes "success"))
      → Unwon (atomic env m)
  atomic-Unwon m h = λ v. inl (result-Unwon (m v).0 (h v))

  already_claimed-Unwon : (r : ServiceTokenRecord) → Unwon (atomic env (already_claimed env r))
  unfolding already_claimed build_redeem_response counter
  already_claimed-Unwon r = λ v. inl (λ e. cc e)

  absent_found_task-Unwon :
      (p : PaymentRecord) (s : PaymentStatus) → Unwon (absent_found_task env pid p s)
  unfolding absent_found_task absent_found mark_hints counter
  absent_found_task-Unwon p PaymentStatus.unclaimed = λ v. inl tt
  absent_found_task-Unwon p PaymentStatus.claimed =
      >>>-Unwon (atomic env (mark_hints env pid))
        (λ _. ensure_task env pid p >>> λ token. atomic env (already_claimed env token))
        (λ _.
          >>>-Unwon (ensure_task env pid p) (λ token. atomic env (already_claimed env token))
            already_claimed-Unwon)

  absent_payment_task-Unwon :
      (hit : Bool) (o : Option PaymentRecord) → Unwon (absent_payment_task env pid hit o)
  unfolding absent_payment_task absent_payment counter
  absent_payment_task-Unwon hit (some p) = absent_found_task-Unwon p p.status
  absent_payment_task-Unwon true none = λ v. inl tt
  absent_payment_task-Unwon false none = λ v. inl tt

  absent_task-Unwon : (hit : Bool) → Unwon (absent_task env pid hit)
  unfolding absent_task
  absent_task-Unwon hit =
      >>>-Unwon (atomic env (lift_err storage (find_payment env pid)))
        (absent_payment_task env pid hit) (absent_payment_task-Unwon hit)

  module _ (engine : IsEngine env.engine) where
    claimed-Unwon :
        (hit : Bool) (v : World env) (r : Result ApiError (Option ClaimOutcome))
        → (lift_err storage (claim_payment env pid) v).0 ≡ r
        → Unwon (finish r >>> after_claim_task env pid hit) ⊎ Claiming v (claim_payment env pid v).1
    unfolding after_claim_task
    claimed-Unwon hit v (ok none) e = inl (absent_task-Unwon hit)
    claimed-Unwon hit v (ok (some o)) e =
        let (p, found, free, taken, _) =
          claim_payment-some env engine pid v o
            (lift_err-ok storage (claim_payment env pid) v (some o) e) in
        inr ((p, found, free), (_, taken, refl))
    claimed-Unwon hit v (err x) e = inl tt
    claimed-Unwon hit v panic e = inl tt

    pub redeem_pid_task-Unwon : Unwon (redeem_pid_task env pid)
    unfolding redeem_pid_task
    redeem_pid_task-Unwon =
        >>>-Unwon (atomic env (bloom_hint env pid))
          (λ hint. atomic env (check_bloom env hint) >>> λ _.
            atomic env (lift_err storage (claim_payment env pid))
            >>> after_claim_task env pid (unwrap_or hint false))
          (λ hint.
            >>>-Unwon (atomic env (check_bloom env hint))
              (λ _.
                atomic env (lift_err storage (claim_payment env pid))
                >>> after_claim_task env pid (unwrap_or hint false))
              (λ _ v. claimed-Unwon (unwrap_or hint false) v _ refl))
