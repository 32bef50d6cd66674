-- ===== src/Concurrent/RedeemLawful.antt =====
-- Redeeming as a task moves the ledger lawfully, whatever other tasks do between its steps.
use anon_ticket.Base.{
  ◌≡◌, inl, inr, ◌⊎◌, Bool, true, false, Option, none, some, Bytes, Result, ok, err, panic,
  lift_err, lift_err-ok, unwrap_or,
}
use anon_ticket.Model.{
  PaymentId, PaymentStatus, PaymentRecord, ClaimOutcome, ServiceTokenRecord, PidFormatError,
  parse_pid,
}
use anon_ticket.Database.{IsEngine}
use anon_ticket.Env.{Env, World, counter}
use anon_ticket.Ledger.{done}
use anon_ticket.Storage.{claim_payment, find_payment}
use anon_ticket.Storage.Moves.{tables_of, Moves, claim_payment-Moves, find_payment-Moves}
use anon_ticket.Api.{
  ApiError, storage, bloom_hint, mark_hints, check_bloom, already_claimed, absent_found,
  absent_payment, redeem_parsed,
}
use anon_ticket.Api.RedeemMoves.{
  IsClaimed, Steps-IsClaimed, claim_payment-IsClaimed, read-IsClaimed, check_bloom-Moves,
}
use anon_ticket.Concurrent.Task.{
  atomic, ◌>>>◌, Any, IsLawful, >>>-Ensures, atomic-Ensures, atomic-IsLawful,
}
use anon_ticket.Concurrent.Redeem.{
  ensure_task, absent_found_task, absent_payment_task, absent_task, after_claim_task,
  redeem_pid_task, redeem_parsed_task, redeem_task,
}
use anon_ticket.Concurrent.IssueLawful.{success_task-IsLawful, ensure_task-IsLawful}

-- What a claim has established for its caller.
abbrev Claims : (env : Env) → PaymentId → Option ClaimOutcome → World env → Type 0
Claims env pid none w = Unit {0}
Claims env pid (some o) w = IsClaimed (tables_of env w) pid o.txid o.amount

-- What the reading of a payment has.
abbrev Reads : (env : Env) → PaymentId → Option PaymentRecord → World env → Type 0
Reads env pid none w = Unit {0}
Reads env pid (some p) w =
    (p.status ≡ PaymentStatus.unclaimed) ⊎ IsClaimed (tables_of env w) pid p.txid p.amount

module _ (env : Env) (engine : IsEngine env.engine) where
  already_claimed-Moves :
      (r : ServiceTokenRecord) (w : World env) → Moves env (already_claimed env r) w
  unfolding already_claimed counter
  already_claimed-Moves r w = done

  absent_found_task-IsLawful :
      (pid : PaymentId) (p : PaymentRecord) (s : PaymentStatus) (w : World env)
      → (s ≡ PaymentStatus.unclaimed) ⊎ IsClaimed (tables_of env w) pid p.txid p.amount
      → IsLawful env (absent_found_task env pid p s) w
  unfolding absent_found_task absent_found mark_hints counter
  absent_found_task-IsLawful pid p PaymentStatus.unclaimed w k =
      atomic-IsLawful env (absent_found env pid p PaymentStatus.unclaimed) w (λ v. done)
  absent_found_task-IsLawful pid p PaymentStatus.claimed w (inl e) = absurd (cc)
  absent_found_task-IsLawful pid p PaymentStatus.claimed w (inr k) = λ v later.
      let v' = (mark_hints env {E = ApiError} pid v).1 in
      (
        done,
        >>>-Ensures env (ensure_task env pid p) (λ t. atomic env (already_claimed env t)) (Any env)
            (Any env) v'
            (ensure_task-IsLawful env engine pid p v' (Steps-IsClaimed pid p.txid p.amount later k))
            (λ t u _. atomic-IsLawful env (already_claimed env t) u (already_claimed-Moves t)),
      )

  absent_payment_task-IsLawful :
      (pid : PaymentId) (hit : Bool) (o : Option PaymentRecord) (w : World env)
      → Reads env pid o w
      → IsLawful env (absent_payment_task env pid hit o) w
  unfolding absent_payment_task absent_payment counter
  absent_payment_task-IsLawful pid hit (some p) w k = absent_found_task-IsLawful pid p p.status w k
  absent_payment_task-IsLawful pid true none w k =
      atomic-IsLawful env (absent_payment env pid true none) w (λ v. done)
  absent_payment_task-IsLawful pid false none w k =
      atomic-IsLawful env (absent_payment env pid false none) w (λ v. done)

  find_payment-Reads :
      (pid : PaymentId) (o : Option PaymentRecord) (w : World env)
      → (find_payment env pid w).0 ≡ ok o
      → Reads env pid o (find_payment env pid w).1
  find_payment-Reads pid none w e = tt
  find_payment-Reads pid (some p) w e = read-IsClaimed env engine pid p w e

  absent_task-IsLawful :
      (pid : PaymentId) (hit : Bool) (w : World env) → IsLawful env (absent_task env pid hit) w
  unfolding absent_task
  absent_task-IsLawful pid hit w =
      >>>-Ensures env (atomic env (lift_err storage (find_payment env pid)))
        (λ o. absent_payment_task env pid hit o) (Reads env pid) (Any env) w
        (atomic-Ensures env (lift_err storage (find_payment env pid)) (Reads env pid) w (λ v _. (
          find_payment-Moves env engine pid v,
          λ o e. find_payment-Reads pid o v (lift_err-ok storage (find_payment env pid) v o e),
        )))
        (λ o v k. absent_payment_task-IsLawful pid hit o v k)

  claim_payment-Claims :
      (pid : PaymentId) (o : Option ClaimOutcome) (w : World env)
      → (claim_payment env pid w).0 ≡ ok o
      → Claims env pid o (claim_payment env pid w).1
  claim_payment-Claims pid none w e = tt
  claim_payment-Claims pid (some o) w e = claim_payment-IsClaimed env engine pid o w e

  after_claim_task-IsLawful :
      (pid : PaymentId) (hit : Bool) (o : Option ClaimOutcome) (w : World env)
      → Claims env pid o w
      → IsLawful env (after_claim_task env pid hit o) w
  unfolding after_claim_task
  after_claim_task-IsLawful pid hit none w k = absent_task-IsLawful pid hit w
  after_claim_task-IsLawful pid hit (some o) w k = success_task-IsLawful env engine pid o w k

  claim_task-IsLawful :
      (pid : PaymentId) (hit : Bool) (w : World env)
      → IsLawful env
          (atomic env (lift_err storage (claim_payment env pid)) >>> after_claim_task env pid hit)
          w
  claim_task-IsLawful pid hit w =
      >>>-Ensures env (atomic env (lift_err storage (claim_payment env pid)))
        (after_claim_task env pid hit) (Claims env pid) (Any env) w
        (atomic-Ensures env (lift_err storage (claim_payment env pid)) (Claims env pid) w (λ v _. (
          claim_payment-Moves env engine pid v,
          λ o e. claim_payment-Claims pid o v (lift_err-ok storage (claim_payment env pid) v o e),
        )))
        (λ o v k. after_claim_task-IsLawful pid hit o v k)

  redeem_pid_task-IsLawful :
      (pid : PaymentId) (w : World env) → IsLawful env (redeem_pid_task env pid) w
  unfolding redeem_pid_task bloom_hint
  redeem_pid_task-IsLawful pid w =
      >>>-Ensures env (atomic env (bloom_hint env pid))
        (λ hint. atomic env (check_bloom env hint) >>> λ _.
          atomic env (lift_err storage (claim_payment env pid))
          >>> after_claim_task env pid (unwrap_or hint false))
        (Any env) (Any env) w
        (atomic-IsLawful env {E = ApiError} (bloom_hint env pid) w (λ v. done))
        (λ hint v _.
          >>>-Ensures env (atomic env (check_bloom env hint))
            (λ _.
              atomic env (lift_err storage (claim_payment env pid))
              >>> after_claim_task env pid (unwrap_or hint false))
            (Any env) (Any env) v
            (atomic-IsLawful env (check_bloom env hint) v (check_bloom-Moves env engine hint))
            (λ _ u _. claim_task-IsLawful pid (unwrap_or hint false) u))

  redeem_parsed_task-IsLawful :
      (r : Result PidFormatError PaymentId) (w : World env)
      → IsLawful env (redeem_parsed_task env r) w
  unfolding redeem_parsed_task redeem_parsed counter
  redeem_parsed_task-IsLawful (ok pid) w = redeem_pid_task-IsLawful pid w
  redeem_parsed_task-IsLawful (err e) w =
      atomic-IsLawful env (redeem_parsed env (err e)) w (λ v. done)
  redeem_parsed_task-IsLawful panic w = tt

  pub redeem_task-IsLawful : (text : Bytes) (w : World env) → IsLawful env (redeem_task env text) w
  unfolding redeem_task
  redeem_task-IsLawful text w = redeem_parsed_task-IsLawful (parse_pid env.codec text) w
