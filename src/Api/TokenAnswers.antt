-- ===== src/Api/TokenAnswers.antt =====
-- What the handlers of crates/api/src/handlers/token.rs answer while no statement fails.
use anon_ticket.Base.{
  ◌≡◌, ◌≢◌, refl, ◌∙◌, ap, inl, inr, Option, none, some, Bytes, ok, Action, ◌>>=◌, lift_err,
  map_err, Option-cases,
}
use anon_ticket.Model.{IsCodec, PaymentId, IsPid, ServiceToken, ServiceTokenRecord, parse_token}
use anon_ticket.Model.TokenLaws.{parse_token-IsToken}
use anon_ticket.Database.{IsEngine, IsReliable, find, token_key, TokenModel}
use anon_ticket.Env.{Env, World, counter}
use anon_ticket.Storage.{find_token}
use anon_ticket.Storage.Moves.{tables_of}
use anon_ticket.Storage.Runs.{>>=-of_ok, token_record_of}
use anon_ticket.Storage.TokenRuns.{find_token-present}
use anon_ticket.Api.Http.{ApiError, storage, revoked, HttpResponse}
use anon_ticket.Api.Tokens.{
  RevokeRequest, token_response, token_state, path_token, status_found, token_status_handler,
  revoke_existing, revoke_token_handler,
}

module _ (env : Env) (codec : IsCodec env.codec) (engine : IsEngine env.engine)
    (reliable : IsReliable env.engine) (text : Bytes) (token : ServiceToken) (w : World env)
    (parsed : parse_token env.codec text ≡ ok token) where
  module _ (pid : PaymentId) (valid : IsPid pid) (r : TokenModel) (same : r.pid ≡ pid.bytes)
      (found : find token_key token.bytes (tables_of env w).tokens ≡ some r) where
    -- Both handlers go on with the token that the store has.
    goes_on :
        (k : ServiceToken → Option ServiceTokenRecord → Action (World env) ApiError HttpResponse)
        → ((path_token env text >>= λ t. lift_err storage (find_token env t) >>= k t) w)
          ≡ k token (some (token_record_of pid token r)) (find_token env token w).1
    unfolding path_token
    goes_on k =
        let (reply, _) =
          find_token-present env engine reliable token
            (parse_token-IsToken env.codec codec text token parsed) w pid r valid same found in
        >>=-of_ok (path_token env text) (λ t. lift_err storage (find_token env t) >>= k t) w token
          (rw parsed refl)
        ∙ >>=-of_ok (lift_err storage (find_token env token)) (k token) w
            (some (token_record_of pid token r)) (ap (λ x. map_err storage x) reply)

    -- The status of a stored token tells whether it is revoked, and its worth.
    pub token_status_handler-present :
        (token_status_handler env text w).0
        ≡ ok (
            token_response
              (token_state (token_record_of pid token r))
              (token_record_of pid token r))
    unfolding token_status_handler status_found counter
    token_status_handler-present = ap (λ x. x.0) (goes_on (λ _ m. status_found env m))

    revoke_goes_on :
        (payload : RevokeRequest)
        → revoke_token_handler env text payload w
          ≡ revoke_existing env token payload
              (some (token_record_of pid token r))
              (find_token env token w).1
    unfolding revoke_token_handler
    revoke_goes_on payload = goes_on (λ t m. revoke_existing env t payload m)

    -- Revoking a revoked token answers with the token, and changes no table.
    pub revoke_token_handler-revoked :
        (payload : RevokeRequest)
        → r.revoked_at ≢ none
        → ((revoke_token_handler env text payload w).0
            ≡ ok (token_response revoked (token_record_of pid token r)))
          × (tables_of env (revoke_token_handler env text payload w).1 ≡ tables_of env w)
    unfolding revoke_existing counter
    revoke_token_handler-revoked payload shut = elim (Option-cases r.revoked_at) [
      | inl free ↦ absurd (shut free)
      | inr (at, e) ↦
          let (_, kept) =
            find_token-present env engine reliable token
              (parse_token-IsToken env.codec codec text token parsed) w pid r valid same found in
          let goes = revoke_goes_on payload in
          (ap (λ x. x.0) goes ∙ (rw e refl), ap (λ x. tables_of env x.1) goes ∙ (rw e kept))
    ]
