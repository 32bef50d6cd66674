-- ===== src/Storage/TokenRuns.antt =====
-- What the token store answers while no statement fails.
use anon_ticket.Base.{
  [], ◌∷◌, ◌++◌, bytes_eq_refl, ◌≡◌, refl, ◌∙◌, ap, none, some, ok, err, map_err, from_result,
}
use anon_ticket.Model.{PaymentId, IsPid, ServiceToken, IsToken, NewServiceToken}
use anon_ticket.Model.TokenLaws.{token_try_from_bytes}
use anon_ticket.Database.{
  IsEngine, IsReliable, find, find-append, key-find, token_key, fail, Insert, TokenModel,
  select_token_meaning, insert_token_meaning, run_insert,
}
use anon_ticket.Env.{Env, World, database, query}
use anon_ticket.Storage.Moves.{tables_of}
use anon_ticket.Storage.PaymentStore.{stored_pid}
use anon_ticket.Storage.TokenStore.{
  stored_token, new_token_row, insert_token, find_token, token_to_record, found_token,
}
use anon_ticket.Storage.Runs.{>>=-of_ok, >>=-of_err, stored_pid_bytes, token_record_of, query-runs}

module _ (env : Env) (engine : IsEngine env.engine) (reliable : IsReliable env.engine) where
  module _ (token : ServiceToken) (valid_token : IsToken token) (w : World env) where
    stored_token_bytes : stored_token token.bytes ≡ ok token
    unfolding stored_token
    stored_token_bytes = rw (token_try_from_bytes token valid_token)

    pub find_token-absent :
        find token_key token.bytes (tables_of env w).tokens ≡ none
        → ((find_token env token w).0 ≡ ok none)
          × (tables_of env (find_token env token w).1 ≡ tables_of env w)
    unfolding find_token found_token
    find_token-absent absent =
        let run = env.engine.select_token token.bytes in
        let (reply, after) =
          query-runs env engine reliable run (select_token_meaning token.bytes) w
            (engine.select_token_obeys token.bytes) in
        let goes =
          >>=-of_ok (query env run) (λ m. from_result (found_token m)) w none
            (reply ∙ ap (λ x. ok x) absent) in
        (ap (λ x. x.0) goes, ap (λ x. tables_of env x.1) goes ∙ after)

    pub find_token-present :
        (pid : PaymentId) (r : TokenModel)
        → IsPid pid
        → r.pid ≡ pid.bytes
        → find token_key token.bytes (tables_of env w).tokens ≡ some r
        → ((find_token env token w).0 ≡ ok (some (token_record_of pid token r)))
          × (tables_of env (find_token env token w).1 ≡ tables_of env w)
    unfolding find_token found_token
    find_token-present pid r valid same found =
        let run = env.engine.select_token token.bytes in
        let (reply, after) =
          query-runs env engine reliable run (select_token_meaning token.bytes) w
            (engine.select_token_obeys token.bytes) in
        let goes =
          >>=-of_ok (query env run) (λ m. from_result (found_token m)) w (some r)
            (reply ∙ ap (λ x. ok x) found) in
        let read_pid : stored_pid r.pid ≡ ok pid =
          ap stored_pid same ∙ stored_pid_bytes pid valid in
        let read_token : stored_token r.token ≡ ok token =
          ap stored_token (key-find token_key token.bytes _ r found) ∙ stored_token_bytes in
        (
          ap (λ x. x.0) goes ∙ (rw (read_pid, read_token) refl),
          ap (λ x. tables_of env x.1) goes ∙ after,
        )

    pub insert_token-new :
        (n : NewServiceToken)
        → n.token ≡ token
        → IsPid n.pid
        → find token_key token.bytes (tables_of env w).tokens ≡ none
        → (insert_token env n w).0 ≡ ok (token_record_of n.pid token (new_token_row n))
    unfolding insert_token token_to_record
    insert_token-new n same valid absent =
        let s : Insert TokenModel = record { row = new_token_row n; on_conflict = fail } in
        let run = env.engine.insert_token s in
        let (reply, _) =
          query-runs env engine reliable run (insert_token_meaning env.engine.broken_key s) w
            (engine.insert_token_obeys s) in
        let absent' : find token_key n.token.bytes (tables_of env w).tokens ≡ none =
          ap (λ t. find token_key t.bytes (tables_of env w).tokens) same ∙ absent in
        let meant : (insert_token_meaning env.engine.broken_key s (tables_of env w)).0
            ≡ ok (new_token_row n) =
          rw (absent', insert_token_meaning, run_insert) refl in
        let read_token : stored_token n.token.bytes ≡ ok token =
          ap (λ t. stored_token t.bytes) same ∙ stored_token_bytes in
        ap (λ x. x.0)
          (>>=-of_ok (query env run) (λ m. from_result (token_to_record m)) w (new_token_row n)
            (reply ∙ ap (map_err database) meant))
        ∙ (rw (stored_pid_bytes n.pid valid, read_token) refl)

    -- A token whose key is stored is refused, and nothing changes.
    pub insert_token-taken :
        (n : NewServiceToken) (r : TokenModel)
        → n.token ≡ token
        → find token_key token.bytes (tables_of env w).tokens ≡ some r
        → ((insert_token env n w).0 ≡ err (database env.engine.broken_key))
          × (tables_of env (insert_token env n w).1 ≡ tables_of env w)
    unfolding insert_token
    insert_token-taken n r same found =
        let s : Insert TokenModel = record { row = new_token_row n; on_conflict = fail } in
        let run = env.engine.insert_token s in
        let (reply, after) =
          query-runs env engine reliable run (insert_token_meaning env.engine.broken_key s) w
            (engine.insert_token_obeys s) in
        let found' : find token_key n.token.bytes (tables_of env w).tokens ≡ some r =
          ap (λ t. find token_key t.bytes (tables_of env w).tokens) same ∙ found in
        let meant : insert_token_meaning env.engine.broken_key s (tables_of env w)
            ≡ (err env.engine.broken_key, tables_of env w) =
          rw (found', insert_token_meaning, run_insert) refl in
        let fails =
          >>=-of_err (query env run) (λ m. from_result (token_to_record m)) w
            (database env.engine.broken_key) (reply ∙ ap (λ x. map_err database x.0) meant) in
        (ap (λ x. x.0) fails, ap (λ x. tables_of env x.1) fails ∙ after ∙ ap (λ x. x.1) meant)

    -- A token that was not stored is there once it was inserted.
    pub insert_token-stored :
        (n : NewServiceToken)
        → n.token ≡ token
        → find token_key token.bytes (tables_of env w).tokens ≡ none
        → find token_key token.bytes (tables_of env (insert_token env n w).1).tokens
          ≡ some (new_token_row n)
    unfolding insert_token
    insert_token-stored n same absent =
        let s : Insert TokenModel = record { row = new_token_row n; on_conflict = fail } in
        let run = env.engine.insert_token s in
        let meaning = insert_token_meaning env.engine.broken_key s in
        let (reply, after) =
          query-runs env engine reliable run meaning w (engine.insert_token_obeys s) in
        let absent' : find token_key n.token.bytes (tables_of env w).tokens ≡ none =
          ap (λ t. find token_key t.bytes (tables_of env w).tokens) same ∙ absent in
        let meant : meaning (tables_of env w) ≡ (
          ok (new_token_row n),
          record (tables_of env w) { tokens = (tables_of env w).tokens ++ new_token_row n ∷ [] },
        ) =
          rw (absent', insert_token_meaning, run_insert) refl in
        let goes =
          >>=-of_ok (query env run) (λ m. from_result (token_to_record m)) w (new_token_row n)
            (reply ∙ ap (λ x. map_err database x.0) meant) in
        ap (λ x. find token_key token.bytes (tables_of env x.1).tokens) goes
        ∙ ap (λ t. find token_key token.bytes t.tokens) (after ∙ ap (λ x. x.1) meant)
        ∙ find-append token_key token.bytes (tables_of env w).tokens (new_token_row n)
        ∙ rw (absent, ap (λ t. t.bytes) same, bytes_eq_refl token.bytes) refl
