-- ===== src/Api/TokenMoves.antt =====
-- The token endpoints as histories of the ledger.
use anon_ticket.Base.{Option, none, some, Bytes, ◌>>=◌, lift_err, is_some, Bool-cases, inl, inr}
use anon_ticket.Model.{RevokeTokenRequest, ServiceToken, ServiceTokenRecord}
use anon_ticket.Database.{IsEngine}
use anon_ticket.Env.{Env, World, counter}
use anon_ticket.Ledger.{done}
use anon_ticket.Storage.{find_token, revoke_token}
use anon_ticket.Storage.Moves.{Moves, >>=-Moves}
use anon_ticket.Storage.TokenMoves.{find_token-Moves, revoke_token-Moves}
use anon_ticket.Api.Http.{storage}
use anon_ticket.Api.Tokens.{
  RevokeRequest, path_token, status_found, token_status_handler, revoke_done, revoke_existing,
  revoke_token_handler,
}

module _ (env : Env) (engine : IsEngine env.engine) where
  pub status_found-Moves :
      (o : Option ServiceTokenRecord) (w : World env) → Moves env (status_found env o) w
  unfolding status_found counter
  status_found-Moves none w = done
  status_found-Moves (some r) w = done

  status_of_token-Moves :
      (t : ServiceToken) (w : World env)
      → Moves env (lift_err storage (find_token env t) >>= status_found env) w
  status_of_token-Moves t w =
      >>=-Moves env (lift_err storage (find_token env t)) (λ o. status_found env o) w
        (find_token-Moves env engine t w) (λ o _. status_found-Moves o _)

  pub token_status_handler-Moves :
      (path : Bytes) (w : World env) → Moves env (token_status_handler env path) w
  unfolding token_status_handler path_token
  token_status_handler-Moves path w =
      >>=-Moves env (path_token env path)
        (λ t. lift_err storage (find_token env t) >>= status_found env) w done
        (λ t _. status_of_token-Moves t w)

  pub revoke_done-Moves :
      (o : Option ServiceTokenRecord) (w : World env) → Moves env (revoke_done env o) w
  unfolding revoke_done counter
  revoke_done-Moves none w = done
  revoke_done-Moves (some r) w = done

  revoke_existing-Moves :
      (t : ServiceToken) (q : RevokeRequest) (o : Option ServiceTokenRecord) (w : World env)
      → Moves env (revoke_existing env t q o) w
  unfolding revoke_existing counter
  revoke_existing-Moves t q none w = done
  revoke_existing-Moves t q (some r) w = elim (Bool-cases (is_some r.revoked_at)) [
    | inl old ↦ rw old done
    | inr live ↦
        let request : RevokeTokenRequest = record {
          token = t;
          reason = q.reason;
          abuse_score = q.abuse_score;
        } in
        rw live (
          >>=-Moves env (lift_err storage (revoke_token env request)) (λ o. revoke_done env o) w
            (revoke_token-Moves env engine request w) (λ o _. revoke_done-Moves o _))
  ]

  revoke_found_token-Moves :
      (t : ServiceToken) (q : RevokeRequest) (w : World env)
      → Moves env (lift_err storage (find_token env t) >>= revoke_existing env t q) w
  revoke_found_token-Moves t q w =
      >>=-Moves env (lift_err storage (find_token env t)) (λ o. revoke_existing env t q o) w
        (find_token-Moves env engine t w) (λ o _. revoke_existing-Moves t q o _)

  pub revoke_token_handler-Moves :
      (path : Bytes) (q : RevokeRequest) (w : World env)
      → Moves env (revoke_token_handler env path q) w
  unfolding revoke_token_handler path_token
  revoke_token_handler-Moves path q w =
      >>=-Moves env (path_token env path)
        (λ t. lift_err storage (find_token env t) >>= revoke_existing env t q) w done
        (λ t _. revoke_found_token-Moves t q w)
