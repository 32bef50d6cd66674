-- ===== src/Concurrent/TokensLawful.antt =====
-- The token handlers as tasks move the ledger lawfully, whatever other tasks do between their steps.
use anon_ticket.Base.{
  ◌≡◌, true, Option, none, some, Bytes, ok, err, panic, ◌>>=◌, is_some, lift_err,
}
use anon_ticket.Model.{ServiceToken, ServiceTokenRecord, RevokeTokenRequest}
use anon_ticket.Database.{IsEngine, TokenModel}
use anon_ticket.Env.{Env, World, query, utc_now, counter}
use anon_ticket.Ledger.{done}
use anon_ticket.Storage.{find_token, some_token, update_found}
use anon_ticket.Storage.Moves.{Moves, query-Moves}
use anon_ticket.Storage.TokenMoves.{find_token-Moves, update_found-Moves}
use anon_ticket.Api.{
  ApiError, storage, RevokeRequest, path_token, status_found, revoke_done, revoke_existing,
}
use anon_ticket.Api.TokenMoves.{status_found-Moves, revoke_done-Moves}
use anon_ticket.Concurrent.Task.{
  Task, finish, step, atomic, ◌>>>◌, Any, IsLawful, >>>-Ensures, atomic-IsLawful, finish-IsLawful,
  if-IsLawful,
}
use anon_ticket.Concurrent.Tokens.{
  revoke_found_task, revoke_token_task, lift_task, token_status_task, revoke_existing_task,
  revoke_handler_task,
}

module _ (env : Env) (engine : IsEngine env.engine) where
  lift_task-IsLawful :
      {E A : Type 0} (F : Type 0) (f : E → F) (t : Task env E A) (w : World env)
      → IsLawful env t w
      → IsLawful env (lift_task env f t) w
  lift_task-IsLawful F f (finish (ok a)) w h = tt
  lift_task-IsLawful F f (finish (err e)) w h = tt
  lift_task-IsLawful F f (finish panic) w h = tt
  lift_task-IsLawful F f (step s k) w h =
      λ v later. let (moves, next) = h v later in (moves, lift_task-IsLawful F f (k v) (s v) next)

  read_then_update-Moves :
      (q : RevokeTokenRequest) (r : TokenModel) (w : World env)
      → Moves env (utc_now env >>= update_found env q r) w
  unfolding utc_now
  read_then_update-Moves q r w = update_found-Moves env engine q r _ _

  revoke_found_task-IsLawful :
      (q : RevokeTokenRequest) (o : Option TokenModel) (w : World env)
      → IsLawful env (revoke_found_task env q o) w
  unfolding revoke_found_task
  revoke_found_task-IsLawful q none w = tt
  revoke_found_task-IsLawful q (some r) w =
      if-IsLawful env (is_some r.revoked_at) (finish (some_token r))
        (atomic env (utc_now env >>= update_found env q r)) w
        (λ _. finish-IsLawful env (some_token r) w)
        (λ _.
          atomic-IsLawful env (utc_now env >>= update_found env q r) w (read_then_update-Moves q r))

  revoke_token_task-IsLawful :
      (q : RevokeTokenRequest) (w : World env) → IsLawful env (revoke_token_task env q) w
  unfolding revoke_token_task
  revoke_token_task-IsLawful q w =
      let run = env.engine.select_token q.token.bytes in
      >>>-Ensures env (atomic env (query env run)) (revoke_found_task env q) (Any env) (Any env) w
        (atomic-IsLawful env (query env run) w
          (λ v. query-Moves env run _ v (engine.select_token_obeys q.token.bytes) done))
        (λ o v _. revoke_found_task-IsLawful q o v)

  -- Looking up a token, and going on lawfully.
  found_task-IsLawful :
      {A : Type 0} (t : ServiceToken) (f : Option ServiceTokenRecord → Task env ApiError A)
      (w : World env)
      → ((o : Option ServiceTokenRecord) (v : World env) → IsLawful env (f o) v)
      → IsLawful env (atomic env (lift_err storage (find_token env t)) >>> f) w
  found_task-IsLawful t f w rest =
      >>>-Ensures env (atomic env (lift_err storage (find_token env t))) f (Any env) (Any env) w
        (atomic-IsLawful env (lift_err storage (find_token env t)) w
          (find_token-Moves env engine t))
        (λ o v _. rest o v)

  path_token-Moves : (path : Bytes) (w : World env) → Moves env (path_token env path) w
  unfolding path_token
  path_token-Moves path w = done

  pub token_status_task-IsLawful :
      (path : Bytes) (w : World env) → IsLawful env (token_status_task env path) w
  unfolding token_status_task
  token_status_task-IsLawful path w =
      >>>-Ensures env (atomic env (path_token env path))
        (λ t.
          atomic env (lift_err storage (find_token env t)) >>> λ o. atomic env (status_found env o))
        (Any env) (Any env) w (atomic-IsLawful env (path_token env path) w (path_token-Moves path))
        (λ t v _.
          found_task-IsLawful t (λ o. atomic env (status_found env o)) v
            (λ o u. atomic-IsLawful env (status_found env o) u (status_found-Moves env engine o)))

  revoke_existing-Moves-none :
      (t : ServiceToken) (q : RevokeRequest) (w : World env)
      → Moves env (revoke_existing env t q none) w
  unfolding revoke_existing counter
  revoke_existing-Moves-none t q w = done

  revoke_existing-Moves-revoked :
      (t : ServiceToken) (q : RevokeRequest) (r : ServiceTokenRecord) (w : World env)
      → is_some r.revoked_at ≡ true
      → Moves env (revoke_existing env t q (some r)) w
  unfolding revoke_existing counter
  revoke_existing-Moves-revoked t q r w old = rw old done

  revoke_existing_task-IsLawful :
      (t : ServiceToken) (q : RevokeRequest) (o : Option ServiceTokenRecord) (w : World env)
      → IsLawful env (revoke_existing_task env t q o) w
  unfolding revoke_existing_task
  revoke_existing_task-IsLawful t q none w =
      atomic-IsLawful env (revoke_existing env t q none) w (revoke_existing-Moves-none t q)
  revoke_existing_task-IsLawful t q (some r) w =
      let request : RevokeTokenRequest = record {
        token = t;
        reason = q.reason;
        abuse_score = q.abuse_score;
      } in
      if-IsLawful env (is_some r.revoked_at) (atomic env (revoke_existing env t q (some r)))
        (lift_task env storage (revoke_token_task env request) >>> λ o.
          atomic env (revoke_done env o))
        w
        (λ old.
          atomic-IsLawful env (revoke_existing env t q (some r)) w
            (λ v. revoke_existing-Moves-revoked t q r v old))
        (λ _.
          >>>-Ensures env (lift_task env storage (revoke_token_task env request))
            (λ o. atomic env (revoke_done env o)) (Any env) (Any env) w
            (lift_task-IsLawful ApiError storage (revoke_token_task env request) w
              (revoke_token_task-IsLawful request w))
            (λ o v _. atomic-IsLawful env (revoke_done env o) v (revoke_done-Moves env engine o)))

  pub revoke_handler_task-IsLawful :
      (path : Bytes) (q : RevokeRequest) (w : World env)
      → IsLawful env (revoke_handler_task env path q) w
  unfolding revoke_handler_task
  revoke_handler_task-IsLawful path q w =
      >>>-Ensures env (atomic env (path_token env path))
        (λ t. atomic env (lift_err storage (find_token env t)) >>> revoke_existing_task env t q)
        (Any env) (Any env) w (atomic-IsLawful env (path_token env path) w (path_token-Moves path))
        (λ t v _.
          found_task-IsLawful t (revoke_existing_task env t q) v
            (λ o u. revoke_existing_task-IsLawful t q o u))
