-- ===== src/Concurrent/Race.antt =====
-- Two requests for one payment: the one that claimed it stores the token after the other has.
use anon_ticket.Base.{
  ◌≡◌, refl, ap, ◌∙◌, Bool, true, none, some, from_result, raise, if◌then◌else◌, ok, err, lift_err,
  map_err,
}
use anon_ticket.Model.{
  IsCodec, PaymentId, IsPid, PaymentRecord, ClaimOutcome, Timestamp, ServiceToken, IsToken,
  derive_service_token,
}
use anon_ticket.Model.TokenLaws.{derive_service_token-IsToken}
use anon_ticket.Database.{IsEngine, IsReliable, find, token_key, TokenModel}
use anon_ticket.Env.{Env, World, database}
use anon_ticket.Storage.{insert_token, find_token}
use anon_ticket.Storage.Moves.{tables_of}
use anon_ticket.Storage.Runs.{>>=-of_ok, >>=-of_err, token_record_of}
use anon_ticket.Storage.TokenRuns.{find_token-present, insert_token-taken}
use anon_ticket.Api.{
  storage, not_found, names_unique, new_token, success_response, handle_success, reread_token,
  inserted_token, create_token,
}

module _ (env : Env) (codec : IsCodec env.codec) (engine : IsEngine env.engine)
    (reliable : IsReliable env.engine) (pid : PaymentId) (valid : IsPid pid) where
  reread_token-stored :
      (t : ServiceToken) (fits : IsToken t) (r : TokenModel) (w : World env)
      → r.pid ≡ pid.bytes
      → find token_key t.bytes (tables_of env w).tokens ≡ some r
      → (reread_token env t w).0 ≡ ok (token_record_of pid t r)
  unfolding reread_token
  reread_token-stored t fits r w same found =
      let (reads, _) = find_token-present env engine reliable t fits w pid r valid same found in
      ap (λ x. x.0)
        (>>=-of_ok (lift_err storage (find_token env t))
          (λ found. from_result (elim found [ some r ↦ ok r | none ↦ err not_found ])) w
          (some (token_record_of pid t r)) (ap (map_err storage) reads))

  create_token-overtaken :
      (t : ServiceToken) (fits : IsToken t) (p : PaymentRecord) (at : Timestamp) (r : TokenModel)
      (w : World env)
      → r.pid ≡ pid.bytes
      → find token_key t.bytes (tables_of env w).tokens ≡ some r
      → names_unique (database env.engine.broken_key) ≡ true
      → (create_token env pid p t at w).0 ≡ ok (token_record_of pid t r)
  unfolding create_token inserted_token
  create_token-overtaken t fits p at r w same found unique =
      let n = new_token pid t p.amount at in
      let (refused, kept) = insert_token-taken env engine reliable t fits w n r refl found in
      let w' = (insert_token env n w).1 in
      ap (λ x. (inserted_token env t x w').0) refused
      ∙ ap
          (λ (b : Bool).
            ((if b then reread_token env t else raise (storage (database env.engine.broken_key)))
              w').0)
          unique
      ∙ reread_token-stored t fits r w' same
          (ap (λ t'. find token_key t.bytes t'.tokens) kept ∙ found)

  -- The token that another request has stored first is read back where `ensure_token_record` creates
  -- it, if the database's error for a broken key names uniqueness, while the request whose claim
  -- succeeded answers with that error.
  pub handle_success-overtaken :
      (o : ClaimOutcome) (p : PaymentRecord) (at : Timestamp) (r : TokenModel) (w : World env)
      → p.txid ≡ o.txid
      → r.pid ≡ pid.bytes
      → find token_key (derive_service_token env.codec pid o.txid).bytes (tables_of env w).tokens
        ≡ some r
      → names_unique (database env.engine.broken_key) ≡ true
      → ((create_token env pid p (derive_service_token env.codec pid p.txid) at w).0
          ≡ ok (token_record_of pid (derive_service_token env.codec pid o.txid) r))
        × ((handle_success env pid o w).0 ≡ err (storage (database env.engine.broken_key)))
        × (tables_of env (handle_success env pid o w).1 ≡ tables_of env w)
  unfolding handle_success
  handle_success-overtaken o p at r w same_tx same_pid found unique =
      let t = derive_service_token env.codec pid o.txid in
      let fits = derive_service_token-IsToken env.codec codec pid o.txid in
      let own = new_token pid t o.amount o.claimed_at in
      let (refused, kept) = insert_token-taken env engine reliable t fits w own r refl found in
      let fails =
        >>=-of_err (lift_err storage (insert_token env own)) (λ k. success_response env pid k) w
          (storage (database env.engine.broken_key)) (ap (map_err storage) refused) in
      (
        ap (λ x. (create_token env pid p (derive_service_token env.codec pid x) at w).0) same_tx
            ∙ create_token-overtaken t fits p at r w same_pid found unique,
        ap (λ x. x.0) fails,
        ap (λ x. tables_of env x.1) fails ∙ kept,
      )
