-- ===== src/Concurrent/RedeemAlone.antt =====
-- Redeeming as a task, run with no other task between its steps.
use anon_ticket.Base.{
  ◌≡◌, refl, inl, inr, Bool, false, Option, none, some, Bytes, Result, ok, err, panic, ◌>>=◌,
  lift_err, unwrap_or, Bool-cases,
}
use anon_ticket.Model.{
  PaymentId, PaymentStatus, PaymentRecord, ClaimOutcome, ServiceToken, ServiceTokenRecord,
  PidFormatError, Timestamp, derive_service_token, parse_pid,
}
use anon_ticket.Env.{Env, World, StorageError}
use anon_ticket.Storage.{claim_payment, find_payment, insert_token, find_token}
use anon_ticket.Api.{
  storage, hint_of, names_unique, bloom_hint, mark_hints, new_token, check_bloom, success_response,
  handle_success, inserted_token, issue_time, create_token, existing_or_new, ensure_token_record,
  already_claimed, absent_found, absent_payment, handle_absent, after_claim, redeem_pid,
  redeem_parsed, redeem_handler,
}
use anon_ticket.Concurrent.Task.{atomic, ◌>>>◌, run, run->>>, run_then}
use anon_ticket.Concurrent.Redeem.{
  success_task, inserted_task, create_task, existing_or_new_task, ensure_task, absent_found_task,
  absent_payment_task, absent_task, after_claim_task, redeem_pid_task, redeem_parsed_task,
  redeem_task,
}

module _ (env : Env) where
  -- A function's task, run alone, is the function.
  success_task-alone :
      (pid : PaymentId) (o : ClaimOutcome) (w : World env)
      → run env (success_task env pid o) w ≡ handle_success env pid o w
  unfolding success_task handle_success
  success_task-alone pid o w =
      let n = new_token pid (derive_service_token env.codec pid o.txid) o.amount o.claimed_at in
      run->>> env (atomic env (lift_err storage (insert_token env n)))
        (λ r. atomic env (success_response env pid r)) (λ r. success_response env pid r) w
        (λ _ _. refl)

  inserted_task-alone :
      (t : ServiceToken) (r : Result StorageError ServiceTokenRecord) (w : World env)
      → run env (inserted_task env t r) w ≡ inserted_token env t r w
  unfolding inserted_task inserted_token
  inserted_task-alone t (ok r) w = refl
  inserted_task-alone t (err e) w = elim (Bool-cases (names_unique e)) [
    | inl race ↦ rw race refl
    | inr other ↦ rw other refl
  ]
  inserted_task-alone t panic w = refl

  create_task-alone :
      (pid : PaymentId) (p : PaymentRecord) (t : ServiceToken) (at : Timestamp) (w : World env)
      → run env (create_task env pid p t at) w ≡ create_token env pid p t at w
  unfolding create_task create_token
  create_task-alone pid p t at w = inserted_task-alone t _ _

  existing_or_new_task-alone :
      (pid : PaymentId) (p : PaymentRecord) (t : ServiceToken) (o : Option ServiceTokenRecord)
      (w : World env)
      → run env (existing_or_new_task env pid p t o) w ≡ existing_or_new env pid p t o w
  unfolding existing_or_new_task existing_or_new
  existing_or_new_task-alone pid p t (some r) w = refl
  existing_or_new_task-alone pid p t none w =
      run->>> env (atomic env (issue_time env p.claimed_at)) (create_task env pid p t)
        (λ at. create_token env pid p t at) w (λ at v. create_task-alone pid p t at v)

  ensure_task-alone :
      (pid : PaymentId) (p : PaymentRecord) (w : World env)
      → run env (ensure_task env pid p) w ≡ ensure_token_record env pid p w
  unfolding ensure_task ensure_token_record
  ensure_task-alone pid p w =
      let t = derive_service_token env.codec pid p.txid in
      run->>> env (atomic env (lift_err storage (find_token env t)))
        (existing_or_new_task env pid p t) (λ o. existing_or_new env pid p t o) w
        (λ o v. existing_or_new_task-alone pid p t o v)

  absent_found_task-alone :
      (pid : PaymentId) (p : PaymentRecord) (s : PaymentStatus) (w : World env)
      → run env (absent_found_task env pid p s) w ≡ absent_found env pid p s w
  unfolding absent_found_task absent_found
  absent_found_task-alone pid p PaymentStatus.claimed w =
      run->>> env (atomic env (mark_hints env pid))
        (λ _. ensure_task env pid p >>> λ t. atomic env (already_claimed env t))
        (λ _. ensure_token_record env pid p >>= λ t. already_claimed env t) w
        (λ _ v.
          run_then env (ensure_task env pid p) (λ t. atomic env (already_claimed env t))
            (ensure_token_record env pid p) (λ t. already_claimed env t) v
            (ensure_task-alone pid p v) (λ _ _. refl))
  absent_found_task-alone pid p PaymentStatus.unclaimed w = refl

  absent_payment_task-alone :
      (pid : PaymentId) (hit : Bool) (o : Option PaymentRecord) (w : World env)
      → run env (absent_payment_task env pid hit o) w ≡ absent_payment env pid hit o w
  unfolding absent_payment_task absent_payment
  absent_payment_task-alone pid hit (some p) w = absent_found_task-alone pid p p.status w
  absent_payment_task-alone pid hit none w = refl

  absent_task-alone :
      (pid : PaymentId) (hit : Bool) (w : World env)
      → run env (absent_task env pid hit) w ≡ handle_absent env pid hit w
  unfolding absent_task handle_absent
  absent_task-alone pid hit w =
      run->>> env (atomic env (lift_err storage (find_payment env pid)))
        (λ o. absent_payment_task env pid hit o) (λ o. absent_payment env pid hit o) w
        (λ o v. absent_payment_task-alone pid hit o v)

  after_claim_task-alone :
      (pid : PaymentId) (hit : Bool) (o : Option ClaimOutcome) (w : World env)
      → run env (after_claim_task env pid hit o) w ≡ after_claim env pid hit o w
  unfolding after_claim_task after_claim
  after_claim_task-alone pid hit (some o) w = success_task-alone pid o w
  after_claim_task-alone pid hit none w = absent_task-alone pid hit w

  redeem_pid_task-alone :
      (pid : PaymentId) (w : World env) → run env (redeem_pid_task env pid) w ≡ redeem_pid env pid w
  unfolding redeem_pid_task redeem_pid bloom_hint
  redeem_pid_task-alone pid w =
      let hint = hint_of env pid w in
      let hit = unwrap_or hint false in
      run->>> env (atomic env (check_bloom env hint))
        (λ _. atomic env (lift_err storage (claim_payment env pid)) >>> λ o.
          after_claim_task env pid hit o)
        (λ _. lift_err storage (claim_payment env pid) >>= λ o. after_claim env pid hit o) w
        (λ _ v.
          run->>> env (atomic env (lift_err storage (claim_payment env pid)))
            (λ o. after_claim_task env pid hit o) (λ o. after_claim env pid hit o) v
            (λ o u. after_claim_task-alone pid hit o u))

  redeem_parsed_task-alone :
      (r : Result PidFormatError PaymentId) (w : World env)
      → run env (redeem_parsed_task env r) w ≡ redeem_parsed env r w
  unfolding redeem_parsed_task redeem_parsed
  redeem_parsed_task-alone (ok pid) w = redeem_pid_task-alone pid w
  redeem_parsed_task-alone (err e) w = refl
  redeem_parsed_task-alone panic w = refl

  -- A request to redeem whose steps no other task comes between answers, and leaves everything, as
  -- the handler does.
  pub redeem_task-alone :
      (text : Bytes) (w : World env) → run env (redeem_task env text) w ≡ redeem_handler env text w
  unfolding redeem_task redeem_handler
  redeem_task-alone text w = redeem_parsed_task-alone (parse_pid env.codec text) w
