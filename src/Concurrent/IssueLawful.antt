-- ===== src/Concurrent/IssueLawful.antt =====
-- The part of redeeming that stores the token of a claimed payment, as a task: it moves the ledger
-- lawfully, whatever other tasks do between its steps.
use anon_ticket.Base.{
  ℤ, inl, inr, Option, none, some, Bytes, Result, ok, err, panic, lift_err, Bool-cases,
}
use anon_ticket.Model.{
  PaymentId, PaymentRecord, ClaimOutcome, ServiceToken, ServiceTokenRecord, Timestamp,
  derive_service_token,
}
use anon_ticket.Database.{IsEngine}
use anon_ticket.Env.{Env, World, StorageError, utc_now, counter}
use anon_ticket.Ledger.{Steps, done, Steps-trans}
use anon_ticket.Storage.{insert_token, find_token}
use anon_ticket.Storage.Moves.{tables_of, Moves, >>=-Moves}
use anon_ticket.Storage.TokenMoves.{insert_token-Moves, find_token-Moves}
use anon_ticket.Api.{
  ApiError, storage, not_found, names_unique, mark_hints, new_token, success_response, reread_token,
  issue_time,
}
use anon_ticket.Api.RedeemMoves.{IsClaimed, Steps-IsClaimed, IsClaimed-IsIssuable}
use anon_ticket.Concurrent.Task.{
  atomic, caught, Any, IsLawful, >>>-Ensures, caught-IsLawful, atomic-Ensures, atomic-IsLawful,
}
use anon_ticket.Concurrent.Redeem.{
  success_task, inserted_task, create_task, existing_or_new_task, ensure_task,
}

module _ (env : Env) (engine : IsEngine env.engine) where
  -- An insertion of the token of a claimed payment, at any later time.
  insert_token-Moves_later :
      (pid : PaymentId) (txid : Bytes) (amount : ℤ) (at : Timestamp) (w v : World env)
      → IsClaimed (tables_of env w) pid txid amount
      → Steps env.codec (tables_of env w) (tables_of env v)
      → Moves env
          (insert_token env (new_token pid (derive_service_token env.codec pid txid) amount at))
          v
  insert_token-Moves_later pid txid amount at w v k later = insert_token-Moves env engine _ v (
      IsClaimed-IsIssuable env.codec _ pid txid amount at (Steps-IsClaimed pid txid amount later k))

  success_response-Moves :
      (pid : PaymentId) (r : ServiceTokenRecord) (w : World env)
      → Moves env (success_response env pid r) w
  unfolding success_response counter mark_hints
  success_response-Moves pid r w = done

  pub success_task-IsLawful :
      (pid : PaymentId) (o : ClaimOutcome) (w : World env)
      → IsClaimed (tables_of env w) pid o.txid o.amount
      → IsLawful env (success_task env pid o) w
  unfolding success_task
  success_task-IsLawful pid o w k =
      let n = new_token pid (derive_service_token env.codec pid o.txid) o.amount o.claimed_at in
      >>>-Ensures env (atomic env (lift_err storage (insert_token env n)))
        (λ r. atomic env (success_response env pid r)) (Any env) (Any env) w
        (atomic-Ensures env (lift_err storage (insert_token env n)) (Any env) w (λ v later.
          (insert_token-Moves_later pid o.txid o.amount o.claimed_at w v k later, λ _ _. tt)))
        (λ r v _. atomic-IsLawful env (success_response env pid r) v (success_response-Moves pid r))

  reread_token-Moves : (t : ServiceToken) (w : World env) → Moves env (reread_token env t) w
  unfolding reread_token
  reread_token-Moves t w =
      >>=-Moves env (lift_err storage (find_token env t))
        (λ found v. (elim found [ some r ↦ ok r | none ↦ err not_found ], v)) w
        (find_token-Moves env engine t w) (λ _ _. done)

  inserted_task-IsLawful :
      (t : ServiceToken) (r : Result StorageError ServiceTokenRecord) (w : World env)
      → IsLawful env (inserted_task env t r) w
  unfolding inserted_task
  inserted_task-IsLawful t (ok r) w = tt
  inserted_task-IsLawful t (err e) w = elim (Bool-cases (names_unique e)) [
    | inl race ↦ rw race (atomic-IsLawful env (reread_token env t) w (reread_token-Moves t))
    | inr other ↦ rw other tt
  ]
  inserted_task-IsLawful t panic w = tt

  create_task-IsLawful :
      (pid : PaymentId) (p : PaymentRecord) (at : Timestamp) (w : World env)
      → IsClaimed (tables_of env w) pid p.txid p.amount
      → IsLawful env (create_task env pid p (derive_service_token env.codec pid p.txid) at) w
  unfolding create_task
  create_task-IsLawful pid p at w k =
      let t = derive_service_token env.codec pid p.txid in
      let n = new_token pid t p.amount at in
      >>>-Ensures env (caught env {F = ApiError} (atomic env (insert_token env n)))
        (inserted_task env t) (Any env) (Any env) w
        (caught-IsLawful env ApiError (atomic env (insert_token env n)) w (
          atomic-Ensures env (insert_token env n) (Any env) w
            (λ v later. (insert_token-Moves_later pid p.txid p.amount at w v k later, λ _ _. tt))))
        (λ r v _. inserted_task-IsLawful t r v)

  issue_time-Moves : (o : Option Timestamp) (w : World env) → Moves env (issue_time env o) w
  unfolding issue_time utc_now
  issue_time-Moves none w = done
  issue_time-Moves (some at) w = done

  existing_or_new_task-IsLawful :
      (pid : PaymentId) (p : PaymentRecord) (o : Option ServiceTokenRecord) (w : World env)
      → IsClaimed (tables_of env w) pid p.txid p.amount
      → IsLawful env
          (existing_or_new_task env pid p (derive_service_token env.codec pid p.txid) o)
          w
  unfolding existing_or_new_task
  existing_or_new_task-IsLawful pid p (some r) w k = tt
  existing_or_new_task-IsLawful pid p none w k =
      let t = derive_service_token env.codec pid p.txid in
      >>>-Ensures env (atomic env (issue_time env p.claimed_at)) (create_task env pid p t)
        (λ _ v. IsClaimed (tables_of env v) pid p.txid p.amount) (Any env) w
        (atomic-Ensures env (issue_time env p.claimed_at) _ w (λ v later.
          let m = issue_time-Moves p.claimed_at v in
          (m, λ _ _. Steps-IsClaimed pid p.txid p.amount (Steps-trans later m) k)))
        (λ at v k'. create_task-IsLawful pid p at v k')

  pub ensure_task-IsLawful :
      (pid : PaymentId) (p : PaymentRecord) (w : World env)
      → IsClaimed (tables_of env w) pid p.txid p.amount
      → IsLawful env (ensure_task env pid p) w
  unfolding ensure_task
  ensure_task-IsLawful pid p w k =
      let t = derive_service_token env.codec pid p.txid in
      >>>-Ensures env (atomic env (lift_err storage (find_token env t)))
        (existing_or_new_task env pid p t) (λ _ v. IsClaimed (tables_of env v) pid p.txid p.amount)
        (Any env) w
        (atomic-Ensures env (lift_err storage (find_token env t)) _ w (λ v later.
          let m = find_token-Moves env engine t v in
          (m, λ _ _. Steps-IsClaimed pid p.txid p.amount (Steps-trans later m) k)))
        (λ o v k'. existing_or_new_task-IsLawful pid p o v k')
