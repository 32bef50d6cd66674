-- ===== src/Storage/TokenStore.antt =====
-- crates/storage/src/token_store.rs.
use anon_ticket.Base.{
  Option, none, some, List, [], ◌∷◌, Bytes, codes, Result, ok, map_err, and_then, Action, ◌>>=◌,
  from_result, pure, is_some, if◌then◌else◌,
}
use anon_ticket.Model.{
  TokenFormatError, token_try_from, ServiceToken, NewServiceToken, ServiceTokenRecord,
  RevokeTokenRequest, Timestamp,
}
use anon_ticket.Database.{
  fail, TokenModel, TokenSet, set_revoked_at, set_revoke_reason, set_abuse_score,
}
use anon_ticket.Env.{Env, World, StorageError, database, query, utc_now}
use anon_ticket.Storage.PaymentStore.{stored_pid}

abbrev pub token_error_text : TokenFormatError → Bytes
token_error_text TokenFormatError.wrong_length =
    codes "service token must be exactly 64 hex characters"
token_error_text TokenFormatError.non_hex = codes "service token contains non-hex characters"

unfoldable pub stored_token : Bytes → Result StorageError ServiceToken
stored_token bytes = map_err (λ e. database (token_error_text e)) (token_try_from bytes)

unfoldable pub token_to_record : TokenModel → Result StorageError ServiceTokenRecord
unfolding stored_pid stored_token
token_to_record model = and_then (stored_pid model.pid) (λ pid.
    and_then (stored_token model.token) (λ token. ok (record {
      token = token;
      pid = pid;
      amount = model.amount;
      issued_at = model.issued_at;
      revoked_at = model.revoked_at;
      revoke_reason = model.revoke_reason;
      abuse_score = model.abuse_score;
    })))

-- `token_to_record(model).map(Some)`.
unfoldable pub some_token : TokenModel → Result StorageError (Option ServiceTokenRecord)
unfolding token_to_record
some_token model = and_then (token_to_record model) (λ r. ok (some r))

-- `maybe.map(token_to_record).transpose()`.
unfoldable pub found_token : Option TokenModel → Result StorageError (Option ServiceTokenRecord)
unfolding some_token
found_token none = ok none
found_token (some model) = some_token model

-- The row that an insertion writes; a column that is not set is null.
abbrev pub new_token_row : NewServiceToken → TokenModel
new_token_row token = record {
  token = token.token.bytes;
  pid = token.pid.bytes;
  amount = token.amount;
  issued_at = token.issued_at;
  revoked_at = none;
  revoke_reason = none;
  abuse_score = token.abuse_score;
}

-- The columns that a revocation sets.
abbrev pub revocation : Timestamp → RevokeTokenRequest → List TokenSet
revocation now request =
    set_revoked_at (some now)
    ∷ set_revoke_reason request.reason
    ∷ elim request.abuse_score [ some score ↦ set_abuse_score score ∷ [] | none ↦ [] ]

module _ (env : Env) where
  unfoldable pub insert_token : NewServiceToken → Action (World env) StorageError ServiceTokenRecord
  unfolding query token_to_record
  insert_token token = do
    created ←
        query env
          (env.engine.insert_token (record { row = new_token_row token; on_conflict = fail }))
    from_result (token_to_record created)

  unfoldable pub find_token :
      ServiceToken → Action (World env) StorageError (Option ServiceTokenRecord)
  unfolding query found_token
  find_token token = do
    maybe ← query env (env.engine.select_token token.bytes)
    from_result (found_token maybe)

  -- The update of a revocation, and the reading of the row that it returned.
  unfoldable pub update_found :
      RevokeTokenRequest
      → TokenModel
      → Timestamp
      → Action (World env) StorageError (Option ServiceTokenRecord)
  unfolding query some_token
  update_found request model now = do
    updated ← query env (env.engine.update_token model.token (revocation now request))
    from_result (some_token updated)

  -- The rest of a revocation, once the row has been read.
  unfoldable pub revoke_found :
      RevokeTokenRequest
      → Option TokenModel
      → Action (World env) StorageError (Option ServiceTokenRecord)
  unfolding utc_now update_found
  revoke_found request none = pure none
  revoke_found request (some model) =
      if is_some model.revoked_at
      then from_result (some_token model)
      else utc_now env >>= update_found request model

  unfoldable pub revoke_token :
      RevokeTokenRequest → Action (World env) StorageError (Option ServiceTokenRecord)
  unfolding query revoke_found
  revoke_token request = do
    maybe ← query env (env.engine.select_token request.token.bytes)
    revoke_found request maybe
