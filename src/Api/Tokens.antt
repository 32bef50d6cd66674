-- ===== src/Api/Tokens.antt =====
-- crates/api/src/handlers/token.rs.
use anon_ticket.Base.{
  ℤ, Option, none, some, [], ◌∷◌, String, Bytes, Action, ◌>>=◌, ◌>>◌, from_result, pure, raise,
  lift_err, map_err, is_some, if◌then◌else◌,
}
use anon_ticket.Model.{ServiceToken, ServiceTokenRecord, parse_token}
use anon_ticket.Env.{Env, World, counter}
use anon_ticket.Storage.{find_token, revoke_token}
use anon_ticket.Api.Http.{
  ApiError, invalid_token, not_found, storage, TokenState, active, revoked, HttpResponse,
  token_body,
}

pub record RevokeRequest : Type 0 where
  pub reason : Option Bytes
  pub abuse_score : Option ℤ

abbrev pub token_response : TokenState → ServiceTokenRecord → HttpResponse
token_response status r = record {
  code = 200;
  body = token_body (record {
    status = status;
    amount = r.amount;
    issued_at = r.issued_at;
    revoked_at = r.revoked_at;
    abuse_score = r.abuse_score;
  });
}

abbrev pub token_state : ServiceTokenRecord → TokenState
token_state r = if is_some r.revoked_at then revoked else active

-- `AsRefStr` in snake case.
abbrev pub state_tag : TokenState → String
state_tag active = "active"
state_tag revoked = "revoked"

module _ (env : Env) where
  abbrev count_token : {E : Type 0} → String → String → Action (World env) E (Unit {0})
  count_token endpoint status =
      counter env "api_token_requests_total" (("endpoint", endpoint) ∷ ("status", status) ∷ [])

  -- The token of the path, or the early return.
  unfoldable pub path_token : Bytes → Action (World env) ApiError ServiceToken
  unfolding parse_token
  path_token path = from_result (map_err invalid_token (parse_token env.codec path))

  unfoldable pub status_found : Option ServiceTokenRecord → Action (World env) ApiError HttpResponse
  unfolding counter
  status_found none = count_token "status" "not_found" >> raise not_found
  status_found (some r) =
      count_token "status" (state_tag (token_state r)) >> pure (token_response (token_state r) r)

  unfoldable pub token_status_handler : Bytes → Action (World env) ApiError HttpResponse
  unfolding path_token find_token status_found
  token_status_handler path = do
    token ← path_token path
    maybe ← lift_err storage (find_token env token)
    status_found maybe

  -- The answer to a revocation that went through.
  unfoldable pub revoke_done : Option ServiceTokenRecord → Action (World env) ApiError HttpResponse
  unfolding counter
  revoke_done none = raise not_found
  revoke_done (some updated) =
      count_token "revoke" "revoked" >> pure (token_response revoked updated)

  unfoldable pub revoke_existing :
      ServiceToken
      → RevokeRequest
      → Option ServiceTokenRecord
      → Action (World env) ApiError HttpResponse
  unfolding counter revoke_token revoke_done
  revoke_existing token payload none = count_token "revoke" "not_found" >> raise not_found
  revoke_existing token payload (some existing) =
      if is_some existing.revoked_at
      then count_token "revoke" "already_revoked" >> pure (token_response revoked existing)
      else lift_err storage (
          revoke_token env
            (record { token = token; reason = payload.reason; abuse_score = payload.abuse_score }))
        >>= revoke_done

  unfoldable pub revoke_token_handler :
      Bytes → RevokeRequest → Action (World env) ApiError HttpResponse
  unfolding path_token find_token revoke_existing
  revoke_token_handler path payload = do
    token ← path_token path
    existing ← lift_err storage (find_token env token)
    revoke_existing token payload existing
