-- ===== src/Storage/TokenMoves.antt =====
-- The calls on tokens, on the monitor's cursor and on all payment ids, as histories of the ledger.
use anon_ticket.Base.{
  ℕ, ◌≡◌, refl, inl, inr, Option, none, some, Bytes, Option-cases, is_some, Bool-cases, from_result,
  pure,
}
use anon_ticket.Model.{Codec, Timestamp, NewServiceToken, RevokeTokenRequest, ServiceToken}
use anon_ticket.Database.{
  Tables, IsEngine, find, payment_key, token_key, fail, PaymentModel, PaymentStatusDb, TokenModel,
  assign_token, run_insert, insert_token_meaning, update_token_meaning,
}
use anon_ticket.Env.{Env, World, query, utc_now}
use anon_ticket.Ledger.{issue, revoke, advance, Steps, done, one-Step, IsIssue, IsRevocation}
use anon_ticket.Storage.Moves.{tables_of, Moves, >>=-Moves, query-Moves}
use anon_ticket.Storage.TokenStore.{
  new_token_row, revocation, insert_token, find_token, revoke_token, revoke_found, update_found,
  token_to_record, found_token, some_token,
}
use anon_ticket.Storage.StateStore.{
  last_height_key, height_of, height_row, last_processed_height, upsert_last_processed_height,
}
use anon_ticket.Storage.Connection.{all_payment_ids, collect_pids}

-- The token to be stored is that of a claimed payment.
abbrev pub IsIssuable : Codec → Tables → NewServiceToken → Type 0
IsIssuable c t n =
    (p : PaymentModel) × (find payment_key n.pid.bytes t.payments ≡ some p)
    × (p.status ≡ PaymentStatusDb.claimed)
    × IsIssue c p (new_token_row n)

issue_meaning :
    (c : Codec) (m : Bytes) (n : NewServiceToken) (t : Tables)
    → IsIssuable c t n
    → Steps c t (insert_token_meaning m (record { row = new_token_row n; on_conflict = fail }) t).1
issue_meaning c m n t (p, found, taken, issued) =
    elim (Option-cases (find token_key n.token.bytes t.tokens)) [
      | inl new ↦
          rw (new, run_insert)
            (one-Step
              (issue p (new_token_row n) (simp (← issued.same_pid) found) taken new issued refl))
      | inr (_, old) ↦ rw (old, run_insert) done
    ]

revocation-IsRevocation :
    (now : Timestamp) (q : RevokeTokenRequest) → IsRevocation (assign_token (revocation now q))
revocation-IsRevocation now q = elim (Option-cases q.abuse_score) [
  | inl e ↦ rw e (record {
    same_token = λ _. refl;
    same_pid = λ _. refl;
    same_amount = λ _. refl;
    marks = λ _ h. cc;
  })
  | inr (s, e) ↦ rw e (record {
    same_token = λ _. refl;
    same_pid = λ _. refl;
    same_amount = λ _. refl;
    marks = λ _ h. cc;
  })
]

module _ (env : Env) (engine : IsEngine env.engine) where
  pub insert_token-Moves :
      (n : NewServiceToken) (w : World env)
      → IsIssuable env.codec (tables_of env w) n
      → Moves env (insert_token env n) w
  unfolding insert_token
  insert_token-Moves n w h =
      >>=-Moves env
        (query env (env.engine.insert_token (record { row = new_token_row n; on_conflict = fail })))
        (λ created. from_result (token_to_record created)) w
        (query-Moves env _ _ w
          (engine.insert_token_obeys (record { row = new_token_row n; on_conflict = fail }))
          (issue_meaning env.codec env.engine.broken_key n _ h))
        (λ _ _. done)

  pub find_token-Moves : (t : ServiceToken) (w : World env) → Moves env (find_token env t) w
  unfolding find_token
  find_token-Moves t w =
      >>=-Moves env (query env (env.engine.select_token t.bytes))
        (λ maybe. from_result (found_token maybe)) w
        (query-Moves env _ _ w (engine.select_token_obeys t.bytes) done) (λ _ _. done)

  revoke_meaning :
      (c : Codec) (now : Timestamp) (q : RevokeTokenRequest) (m k : Bytes) (t : Tables)
      → Steps c t (update_token_meaning m k (revocation now q) t).1
  revoke_meaning c now q m k t = elim (Option-cases (find token_key k t.tokens)) [
    | inl absent ↦ rw (absent, update_token_meaning) done
    | inr (_, found) ↦
        rw (found, update_token_meaning)
          (one-Step
            (revoke k (assign_token (revocation now q)) (revocation-IsRevocation now q) refl))
  ]

  pub update_found-Moves :
      (q : RevokeTokenRequest) (r : TokenModel) (now : Timestamp) (w : World env)
      → Moves env (update_found env q r now) w
  unfolding update_found
  update_found-Moves q r now w =
      >>=-Moves env (query env (env.engine.update_token r.token (revocation now q)))
        (λ updated. from_result (some_token updated)) w
        (query-Moves env _ _ w (engine.update_token_obeys r.token (revocation now q))
          (revoke_meaning env.codec now q env.engine.not_updated r.token _))
        (λ _ _. done)

  revoke_found-Moves :
      (q : RevokeTokenRequest) (o : Option TokenModel) (w : World env)
      → Moves env (revoke_found env q o) w
  unfolding revoke_found utc_now
  revoke_found-Moves q none w = done
  revoke_found-Moves q (some r) w = elim (Bool-cases (is_some r.revoked_at)) [
    | inl old ↦ rw old done
    | inr live ↦ rw live (update_found-Moves q r _ _)
  ]

  -- A revocation revokes a token, or changes nothing.
  pub revoke_token-Moves :
      (q : RevokeTokenRequest) (w : World env) → Moves env (revoke_token env q) w
  unfolding revoke_token
  revoke_token-Moves q w =
      >>=-Moves env (query env (env.engine.select_token q.token.bytes))
        (λ maybe. revoke_found env q maybe) w
        (query-Moves env _ _ w (engine.select_token_obeys q.token.bytes) done)
        (λ maybe _. revoke_found-Moves q maybe _)

  pub last_processed_height-Moves : (w : World env) → Moves env (last_processed_height env) w
  unfolding last_processed_height
  last_processed_height-Moves w =
      >>=-Moves env (query env (env.engine.select_state last_height_key))
        (λ maybe. pure (height_of maybe)) w
        (query-Moves env _ _ w (engine.select_state_obeys last_height_key) done) (λ _ _. done)

  pub upsert_last_processed_height-Moves :
      (h : ℕ) (w : World env) → Moves env (upsert_last_processed_height env h) w
  unfolding upsert_last_processed_height
  upsert_last_processed_height-Moves h w =
      query-Moves env _ _ w (engine.insert_state_obeys (height_row h)) (one-Step (advance _ refl))

  pub all_payment_ids-Moves : (w : World env) → Moves env (all_payment_ids env) w
  unfolding all_payment_ids
  all_payment_ids-Moves w =
      >>=-Moves env (query env env.engine.select_pids) (λ raw. from_result (collect_pids raw)) w
        (query-Moves env _ _ w engine.select_pids_obeys done) (λ _ _. done)
