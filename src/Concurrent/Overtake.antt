-- ===== src/Concurrent/Overtake.antt =====
-- A whole request that comes between the claim of another for the same payment and its insertion.
use anon_ticket.Base.{
  ◌≡◌, ◌≢◌, refl, sym, subst, ap, ◌∙◌, inl, inr, Bool, true, false, Option, none, some, Bytes, ok,
  err, ◌>>=◌, lift_err, map_err, codes, unwrap_or, Option-cases, Result-cases, Action,
}
use anon_ticket.Model.{
  IsCodec, PaymentId, IsPid, ClaimOutcome, ServiceTokenRecord, Timestamp, derive_service_token,
  parse_pid,
}
use anon_ticket.Model.PidLaws.{parse_pid-IsPid}
use anon_ticket.Model.TokenLaws.{derive_service_token-IsToken}
use anon_ticket.Database.{
  IsEngine, IsReliable, find, payment_key, token_key, PaymentModel, PaymentStatusDb, TokenModel,
}
use anon_ticket.Env.{Env, World, database, utc_now, counter}
use anon_ticket.Ledger.{claimed_at}
use anon_ticket.Ledger.Soundness.{IsSound, Steps-IsSound}
use anon_ticket.Storage.{
  supported, status_of, new_token_row, claim_payment, find_payment, insert_token, find_token,
}
use anon_ticket.Storage.Moves.{tables_of, claim_payment-Moves}
use anon_ticket.Storage.Replies.{claim_payment-some}
use anon_ticket.Storage.Runs.{
  >>=-of_ok, record_of, outcome_of, find_payment-runs, claim_payment-claimed,
  claim_payment-unclaimed,
}
use anon_ticket.Storage.TokenRuns.{
  find_token-absent, find_token-present, insert_token-new, insert_token-stored,
}
use anon_ticket.Api.{
  ApiError, storage, names_unique, hint_of, mark_hints, new_token, check_bloom, handle_success,
  inserted_token, create_token, issue_time, existing_or_new, ensure_token_record, already_claimed,
  absent_found, absent_payment, handle_absent, after_claim, redeem_handler,
}
use anon_ticket.Api.RedeemBranches.{HasNoCollision, redeemed, token_of_payment}
use anon_ticket.Api.RedeemAnswers.{passes, redeem_passes, redeem_handler-claimed}
use anon_ticket.Concurrent.Race.{handle_success-overtaken}

module _ (env : Env) (codec : IsCodec env.codec) (engine : IsEngine env.engine)
    (reliable : IsReliable env.engine) (pid : PaymentId) (valid : IsPid pid)
    (p : PaymentModel) where
  -- A token of the payment is stored.
  abbrev IsStored : World env → Type 0
  IsStored w =
      (r : TokenModel) × (r.pid ≡ pid.bytes)
      × (find token_key (derive_service_token env.codec pid p.txid).bytes (tables_of env w).tokens
          ≡ some r)

  created :
      (at : Timestamp) (w : World env)
      → find token_key (derive_service_token env.codec pid p.txid).bytes (tables_of env w).tokens
        ≡ none
      → IsStored
          (create_token env pid
            (record_of pid p)
            (derive_service_token env.codec pid p.txid)
            at
            w).1
  unfolding create_token inserted_token
  created at w absent =
      let t = derive_service_token env.codec pid p.txid in
      let fits = derive_service_token-IsToken env.codec codec pid p.txid in
      let n = new_token pid t p.amount at in
      let inserts = insert_token-new env engine reliable t fits w n refl valid absent in
      (
        new_token_row n,
        refl,
        ap
              (λ r.
                find token_key t.bytes
                  (tables_of env (inserted_token env t r (insert_token env n w).1).1).tokens)
              inserts
            ∙ insert_token-stored env engine reliable t fits w n refl absent,
      )

  issued :
      (time : Option Timestamp) (w : World env)
      → find token_key (derive_service_token env.codec pid p.txid).bytes (tables_of env w).tokens
        ≡ none
      → IsStored
          ((issue_time env time
              >>= create_token env pid
                  (record_of pid p)
                  (derive_service_token env.codec pid p.txid))
            w).1
  unfolding issue_time utc_now
  issued none w absent = created _ _ absent
  issued (some at) w absent = created at w absent

  -- Whichever way the token of a claimed payment is come by, it is stored.
  ensured :
      (w : World env)
      → IsSound env.codec (tables_of env w)
      → HasNoCollision env.codec (tables_of env w)
      → find payment_key pid.bytes (tables_of env w).payments ≡ some p
      → IsStored (ensure_token_record env pid (record_of pid p) w).1
  unfolding ensure_token_record existing_or_new
  ensured w sound distinct found =
      let t = derive_service_token env.codec pid p.txid in
      let fits = derive_service_token-IsToken env.codec codec pid p.txid in
      let then' =
        λ (o : Option ServiceTokenRecord). existing_or_new env pid (record_of pid p) t o in
      elim (Option-cases (find token_key t.bytes (tables_of env w).tokens)) [
        | inl absent ↦
            let (reads, kept) = find_token-absent env engine reliable t fits w absent in
            let goes =
              >>=-of_ok (lift_err storage (find_token env t)) then' w none
                (ap (map_err storage) reads) in
            subst (λ x. IsStored x.1) (sym goes)
              (issued p.claimed_at (find_token env t w).1
                (ap (λ x. find token_key t.bytes x.tokens) kept ∙ absent))
        | inr (r, stored) ↦
            let (same, _, _) = token_of_payment env.codec _ sound distinct pid p found r stored in
            let (reads, kept) =
              find_token-present env engine reliable t fits w pid r valid same stored in
            let goes =
              >>=-of_ok (lift_err storage (find_token env t)) then' w _
                (ap (map_err storage) reads) in
            (
              r,
              same,
              ap (λ x. find token_key t.bytes (tables_of env x.1).tokens) goes
                  ∙ ap (λ x. find token_key t.bytes x.tokens) kept
                  ∙ stored,
            )
      ]

  -- The answer is put together without the database.
  answered :
      (m : Action (World env) ApiError ServiceTokenRecord) (w : World env)
      → IsStored (m w).1
      → IsStored ((m >>= already_claimed env) w).1
  unfolding already_claimed counter
  answered m w stored = elim (Result-cases (m w).0) [
    | inl (r, made) ↦ rw (made, ◌>>=◌) stored
    | inr (inl (e, bad)) ↦ rw (bad, ◌>>=◌) stored
    | inr (inr bad) ↦ rw (bad, ◌>>=◌) stored
  ]

  -- After a claim that found the payment claimed, the request stores its token.
  after_claimed :
      (hit : Bool) (w : World env)
      → supported (env.engine.backend w.db) ≡ ok tt
      → IsSound env.codec (tables_of env w)
      → HasNoCollision env.codec (tables_of env w)
      → find payment_key pid.bytes (tables_of env w).payments ≡ some p
      → p.status ≡ PaymentStatusDb.claimed
      → IsStored ((lift_err storage (claim_payment env pid) >>= after_claim env pid hit) w).1
  unfolding after_claim handle_absent absent_payment absent_found mark_hints already_claimed counter
  after_claimed hit w usable sound distinct found taken =
      let (claims, kept) =
        claim_payment-claimed env engine reliable pid valid p w found usable taken in
      let w₁ = (claim_payment env pid w).1 in
      let found₁ = ap (λ t. find payment_key pid.bytes t.payments) kept ∙ found in
      let (finds, same) = find_payment-runs env engine reliable pid valid p w₁ found₁ in
      let w₂ = (find_payment env pid w₁).1 in
      let back : tables_of env w ≡ tables_of env w₂ = sym (same ∙ kept) in
      let w₃ : World env = (mark_hints env {E = ApiError} pid w₂).1 in
      let goes =
        >>=-of_ok (lift_err storage (claim_payment env pid)) (λ o. after_claim env pid hit o) w none
          (ap (map_err storage) claims)
        ∙ >>=-of_ok (lift_err storage (find_payment env pid)) (λ o. absent_payment env pid hit o) w₁
            (some (record_of pid p)) (ap (map_err storage) finds)
        ∙ ap (λ s. absent_found env pid (record_of pid p) (status_of s) w₂) taken in
      subst (λ x. IsStored x.1) (sym goes)
        (answered (ensure_token_record env pid (record_of pid p)) w₃ (
          ensured w₃ (subst (IsSound env.codec) back sound)
            (subst (HasNoCollision env.codec) back distinct)
            (ap (λ t. find payment_key pid.bytes t.payments) same ∙ found₁)))

-- Of two requests for one unclaimed payment, where the second runs between the claim and the
-- insertion of the first, the second, by any text of the payment id, is given the token, and the
-- first, whose claim succeeded, the error of the database for a broken key: on a sound ledger, over a
-- backend that can return the row of an update, while no statement fails otherwise, the hash has no
-- collision, the Bloom filter admits the payment and that error names uniqueness.
pub redeem_handler-overtakes :
    (env : Env) (codec : IsCodec env.codec) (engine : IsEngine env.engine)
    (reliable : IsReliable env.engine) (text : Bytes) (pid : PaymentId) (p : PaymentModel)
    (w : World env)
    → parse_pid env.codec text ≡ ok pid
    → ((v : World env) → supported (env.engine.backend v.db) ≡ ok tt)
    → IsSound env.codec (tables_of env w)
    → find payment_key pid.bytes (tables_of env w).payments ≡ some p
    → p.status ≡ PaymentStatusDb.unclaimed
    → hint_of env pid (claim_payment env pid w).1 ≢ some false
    → HasNoCollision env.codec (tables_of env (claim_payment env pid w).1)
    → names_unique (database env.engine.broken_key) ≡ true
    → (o : ClaimOutcome) × ((claim_payment env pid w).0 ≡ ok (some o))
      × ((redeem_handler env text (claim_payment env pid w).1).0
          ≡ ok (redeemed env (codes "already_claimed") pid p))
      × ((handle_success env pid o (redeem_handler env text (claim_payment env pid w).1).1).0
          ≡ err (storage (database env.engine.broken_key)))
redeem_handler-overtakes env codec engine reliable text pid p w parsed usable sound found free hint
      distinct unique =
    let valid = parse_pid-IsPid env.codec codec text pid parsed in
    let now = env.clock w.clock_reads in
    let o = outcome_of pid now p in
    let (claims, _) =
      claim_payment-unclaimed env engine reliable pid valid p w found (usable w) free in
    let (q, was, _, taken, _) = claim_payment-some env engine pid w o claims in
    let v = (claim_payment env pid w).1 in
    let same : q ≡ p = cc (was, found) in
    let held : find payment_key pid.bytes (tables_of env v).payments ≡ some (claimed_at now p) =
      taken ∙ ap (λ x. some (claimed_at now x)) same in
    let sound' = Steps-IsSound (claim_payment-Moves env engine pid w) sound in
    let p' = claimed_at now p in
    let v' = (check_bloom env (hint_of env pid v) v).1 in
    let kept = (passes env codec engine reliable pid valid p' v hint).1 in
    let back : tables_of env v ≡ tables_of env v' = ap (λ d. env.engine.tables d) (sym kept) in
    let stored =
      after_claimed env codec engine reliable pid valid p' (unwrap_or (hint_of env pid v) false) v'
        (usable v') (subst (IsSound env.codec) back sound')
        (subst (HasNoCollision env.codec) back distinct)
        (ap (λ t. find payment_key pid.bytes t.payments) (sym back) ∙ held) refl in
    let path = redeem_passes env codec engine reliable pid valid p' text v parsed hint in
    let again =
      redeem_handler-claimed env codec engine reliable text pid p' v parsed hint (usable v) sound'
        distinct held refl in
    let (r, same_pid, at) = stored in
    let there =
      ap
        (λ x.
          find token_key (derive_service_token env.codec pid p.txid).bytes
            (tables_of env x.1).tokens)
        path
      ∙ at in
    let (_, fails, _) =
      handle_success-overtaken env codec engine reliable pid valid o (record_of pid p') now r
        (redeem_handler env text v).1 refl same_pid there unique in
    (o, claims, again, fails)
