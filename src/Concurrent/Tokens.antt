-- ===== src/Concurrent/Tokens.antt =====
-- The handlers of crates/api/src/handlers/token.rs, and `revoke_token` of
-- crates/storage/src/token_store.rs, as tasks.
use anon_ticket.Base.{
  ◌≡◌, refl, ◌∙◌, ap, map_err, inl, inr, Option, none, some, Bytes, ok, err, panic, ◌>>=◌, lift_err,
  is_some, if◌then◌else◌, Bool-cases,
}
use anon_ticket.Model.{ServiceToken, ServiceTokenRecord, RevokeTokenRequest}
use anon_ticket.Database.{TokenModel}
use anon_ticket.Env.{Env, World, StorageError, query, utc_now}
use anon_ticket.Storage.{find_token, some_token, revoke_found, update_found, revoke_token}
use anon_ticket.Api.{
  ApiError, storage, HttpResponse, RevokeRequest, path_token, status_found, token_status_handler,
  revoke_done, revoke_existing, revoke_token_handler,
}
use anon_ticket.Concurrent.Task.{Task, finish, step, atomic, ◌>>>◌, run, run->>>, run_then}

module _ (env : Env) where
  -- The look-up and the update of a revocation are two statements.
  unfoldable pub revoke_found_task :
      RevokeTokenRequest → Option TokenModel → Task env StorageError (Option ServiceTokenRecord)
  unfolding some_token utc_now update_found
  revoke_found_task request none = finish (ok none)
  revoke_found_task request (some model) =
      if is_some model.revoked_at
      then finish (some_token model)
      else atomic env (utc_now env >>= update_found env request model)

  unfoldable pub revoke_token_task :
      RevokeTokenRequest → Task env StorageError (Option ServiceTokenRecord)
  unfolding query revoke_found_task
  revoke_token_task request =
      atomic env (query env (env.engine.select_token request.token.bytes))
      >>> revoke_found_task request

  -- A task with its error converted.
  abbrev pub lift_task : {E F A : Type 0} → (E → F) → Task env E A → Task env F A
  lift_task f (finish (ok a)) = finish (ok a)
  lift_task f (finish (err e)) = finish (err (f e))
  lift_task f (finish panic) = finish panic
  lift_task f (step s k) = step s (λ w. lift_task f (k w))

  unfoldable pub token_status_task : Bytes → Task env ApiError HttpResponse
  unfolding path_token find_token status_found
  token_status_task path = atomic env (path_token env path) >>> λ token.
      atomic env (lift_err storage (find_token env token)) >>> λ maybe.
      atomic env (status_found env maybe)

  unfoldable pub revoke_existing_task :
      ServiceToken → RevokeRequest → Option ServiceTokenRecord → Task env ApiError HttpResponse
  unfolding revoke_existing revoke_token_task revoke_done
  revoke_existing_task token payload none = atomic env (revoke_existing env token payload none)
  revoke_existing_task token payload (some existing) =
      if is_some existing.revoked_at
      then atomic env (revoke_existing env token payload (some existing))
      else lift_task storage (
          revoke_token_task
            (record { token = token; reason = payload.reason; abuse_score = payload.abuse_score }))
        >>> λ updated. atomic env (revoke_done env updated)

  unfoldable pub revoke_handler_task : Bytes → RevokeRequest → Task env ApiError HttpResponse
  unfolding path_token find_token revoke_existing_task
  revoke_handler_task path payload = atomic env (path_token env path) >>> λ token.
      atomic env (lift_err storage (find_token env token)) >>> revoke_existing_task token payload

  run-lift_task :
      {E F A : Type 0} (f : E → F) (t : Task env E A) (w : World env)
      → run env (lift_task f t) w ≡ lift_err f (run env t) w
  run-lift_task f (finish (ok a)) w = refl
  run-lift_task f (finish (err e)) w = refl
  run-lift_task f (finish panic) w = refl
  run-lift_task f (step s k) w = run-lift_task f (k w) (s w)

  revoke_found_task-alone :
      (q : RevokeTokenRequest) (o : Option TokenModel) (w : World env)
      → run env (revoke_found_task q o) w ≡ revoke_found env q o w
  unfolding revoke_found_task revoke_found
  revoke_found_task-alone q none w = refl
  revoke_found_task-alone q (some r) w = elim (Bool-cases (is_some r.revoked_at)) [
    | inl old ↦ rw old refl
    | inr live ↦ rw live refl
  ]

  revoke_token_task-alone :
      (q : RevokeTokenRequest) (w : World env)
      → run env (revoke_token_task q) w ≡ revoke_token env q w
  unfolding revoke_token_task revoke_token
  revoke_token_task-alone q w =
      run->>> env (atomic env (query env (env.engine.select_token q.token.bytes)))
        (revoke_found_task q) (λ o. revoke_found env q o) w (λ o v. revoke_found_task-alone q o v)

  revoke_existing_task-alone :
      (t : ServiceToken) (q : RevokeRequest) (o : Option ServiceTokenRecord) (w : World env)
      → run env (revoke_existing_task t q o) w ≡ revoke_existing env t q o w
  unfolding revoke_existing_task revoke_existing
  revoke_existing_task-alone t q none w = refl
  revoke_existing_task-alone t q (some r) w = elim (Bool-cases (is_some r.revoked_at)) [
    | inl old ↦ rw old refl
    | inr live ↦
        let request : RevokeTokenRequest = record {
          token = t;
          reason = q.reason;
          abuse_score = q.abuse_score;
        } in
        rw live (
          run_then env (lift_task storage (revoke_token_task request))
            (λ o. atomic env (revoke_done env o)) (lift_err storage (revoke_token env request))
            (λ o. revoke_done env o) w
            (run-lift_task storage (revoke_token_task request) w
              ∙ ap (λ x. (map_err storage x.0, x.1)) (revoke_token_task-alone request w))
            (λ _ _. refl))
  ]

  pub token_status_task-alone :
      (path : Bytes) (w : World env)
      → run env (token_status_task path) w ≡ token_status_handler env path w
  unfolding token_status_task token_status_handler
  token_status_task-alone path w =
      run->>> env (atomic env (path_token env path))
        (λ t.
          atomic env (lift_err storage (find_token env t)) >>> λ o. atomic env (status_found env o))
        (λ t. lift_err storage (find_token env t) >>= λ o. status_found env o) w
        (λ t v.
          run->>> env (atomic env (lift_err storage (find_token env t)))
            (λ o. atomic env (status_found env o)) (λ o. status_found env o) v (λ _ _. refl))

  -- A revocation whose steps no other task comes between answers, and leaves everything, as the
  -- handler does.
  pub revoke_handler_task-alone :
      (path : Bytes) (q : RevokeRequest) (w : World env)
      → run env (revoke_handler_task path q) w ≡ revoke_token_handler env path q w
  unfolding revoke_handler_task revoke_token_handler
  revoke_handler_task-alone path q w =
      run->>> env (atomic env (path_token env path))
        (λ t. atomic env (lift_err storage (find_token env t)) >>> λ o. revoke_existing_task t q o)
        (λ t. lift_err storage (find_token env t) >>= λ o. revoke_existing env t q o) w
        (λ t v.
          run->>> env (atomic env (lift_err storage (find_token env t)))
            (λ o. revoke_existing_task t q o) (λ o. revoke_existing env t q o) v
            (λ o u. revoke_existing_task-alone t q o u))
