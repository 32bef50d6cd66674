-- ===== src/Concurrent/Redeem.antt =====
-- The functions of crates/api/src/handlers/redeem.rs as tasks. The code of a branch that awaits
-- nothing is that of `Api.Redeem`.
use anon_ticket.Base.{
  Bool, false, Option, none, some, Bytes, Result, ok, err, panic, lift_err, unwrap_or,
  if◌then◌else◌,
}
use anon_ticket.Model.{
  PaymentId, PaymentStatus, PaymentRecord, ClaimOutcome, ServiceToken, ServiceTokenRecord,
  PidFormatError, Timestamp, derive_service_token, parse_pid,
}
use anon_ticket.Env.{Env, StorageError}
use anon_ticket.Storage.{claim_payment, find_payment, insert_token, find_token}
use anon_ticket.Api.{
  ApiError, storage, HttpResponse, names_unique, bloom_hint, mark_hints, new_token, check_bloom,
  success_response, reread_token, issue_time, already_claimed, absent_found, absent_payment,
  redeem_parsed,
}
use anon_ticket.Concurrent.Task.{Task, finish, atomic, ◌>>>◌, caught}

module _ (env : Env) where
  -- The insertion and the building of the response.
  unfoldable pub success_task : PaymentId → ClaimOutcome → Task env ApiError HttpResponse
  unfolding derive_service_token insert_token success_response
  success_task pid outcome =
      atomic env (
        lift_err storage (
          insert_token env (
            new_token pid (derive_service_token env.codec pid outcome.txid) outcome.amount
              outcome.claimed_at)))
      >>> λ token_record. atomic env (success_response env pid token_record)

  unfoldable pub inserted_task :
      ServiceToken → Result StorageError ServiceTokenRecord → Task env ApiError ServiceTokenRecord
  unfolding names_unique reread_token
  inserted_task token (ok r) = finish (ok r)
  inserted_task token (err e) =
      if names_unique e then atomic env (reread_token env token) else finish (err (storage e))
  inserted_task token panic = finish panic

  unfoldable pub create_task :
      PaymentId → PaymentRecord → ServiceToken → Timestamp → Task env ApiError ServiceTokenRecord
  unfolding insert_token inserted_task
  create_task pid payment token issued_at =
      caught env {F = ApiError}
        (atomic env (insert_token env (new_token pid token payment.amount issued_at)))
      >>> inserted_task token

  unfoldable pub existing_or_new_task :
      PaymentId
      → PaymentRecord
      → ServiceToken
      → Option ServiceTokenRecord
      → Task env ApiError ServiceTokenRecord
  unfolding issue_time create_task
  existing_or_new_task pid payment token (some existing) = finish (ok existing)
  existing_or_new_task pid payment token none =
      atomic env (issue_time env payment.claimed_at) >>> λ issued_at.
      create_task pid payment token issued_at

  unfoldable pub ensure_task : PaymentId → PaymentRecord → Task env ApiError ServiceTokenRecord
  unfolding derive_service_token find_token existing_or_new_task
  ensure_task pid payment =
      let token = derive_service_token env.codec pid payment.txid in
      atomic env (lift_err storage (find_token env token)) >>> λ existing.
      existing_or_new_task pid payment token existing

  unfoldable pub absent_found_task :
      PaymentId → PaymentRecord → PaymentStatus → Task env ApiError HttpResponse
  unfolding absent_found mark_hints ensure_task already_claimed
  absent_found_task pid payment PaymentStatus.claimed = atomic env (mark_hints env pid) >>> λ _.
      ensure_task pid payment >>> λ token. atomic env (already_claimed env token)
  absent_found_task pid payment PaymentStatus.unclaimed =
      atomic env (absent_found env pid payment PaymentStatus.unclaimed)

  unfoldable pub absent_payment_task :
      PaymentId → Bool → Option PaymentRecord → Task env ApiError HttpResponse
  unfolding absent_payment absent_found_task
  absent_payment_task pid bloom_positive (some payment) =
      absent_found_task pid payment payment.status
  absent_payment_task pid bloom_positive none =
      atomic env (absent_payment env pid bloom_positive none)

  unfoldable pub absent_task : PaymentId → Bool → Task env ApiError HttpResponse
  unfolding find_payment absent_payment_task
  absent_task pid bloom_positive =
      atomic env (lift_err storage (find_payment env pid)) >>> λ maybe_payment.
      absent_payment_task pid bloom_positive maybe_payment

  unfoldable pub after_claim_task :
      PaymentId → Bool → Option ClaimOutcome → Task env ApiError HttpResponse
  unfolding success_task absent_task
  after_claim_task pid bloom_positive (some outcome) = success_task pid outcome
  after_claim_task pid bloom_positive none = absent_task pid bloom_positive

  unfoldable pub redeem_pid_task : PaymentId → Task env ApiError HttpResponse
  unfolding bloom_hint check_bloom claim_payment after_claim_task
  redeem_pid_task pid = atomic env (bloom_hint env pid) >>> λ bloom_positive.
      atomic env (check_bloom env bloom_positive) >>> λ _.
      atomic env (lift_err storage (claim_payment env pid))
      >>> after_claim_task pid (unwrap_or bloom_positive false)

  -- A request to redeem, as a task.
  unfoldable pub redeem_parsed_task :
      Result PidFormatError PaymentId → Task env ApiError HttpResponse
  unfolding redeem_parsed redeem_pid_task
  redeem_parsed_task (ok pid) = redeem_pid_task pid
  redeem_parsed_task (err e) = atomic env (redeem_parsed env (err e))
  redeem_parsed_task panic = finish panic

  unfoldable pub redeem_task : Bytes → Task env ApiError HttpResponse
  unfolding parse_pid redeem_parsed_task
  redeem_task pid = redeem_parsed_task (parse_pid env.codec pid)
