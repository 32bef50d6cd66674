-- ===== src/Api/RedeemBranches.antt =====
-- What redeeming answers on its two branches, while no statement fails.
use anon_ticket.Base.{
  ◌≡◌, refl, sym, ◌∙◌, ap, subst, inl, inr, Bool, Option, none, some, Bytes, ok, ◌>>=◌, lift_err,
  map_err, codes, Option-cases,
}
use anon_ticket.Model.{
  Codec, IsCodec, PaymentId, IsPid, ServiceTokenRecord, Timestamp, derive_service_token,
  token_to_hex,
}
use anon_ticket.Model.TokenLaws.{derive_service_token-IsToken}
use anon_ticket.Database.{
  Tables, IsEngine, IsReliable, find, key-find, payment_key, token_key, PaymentModel,
  PaymentStatusDb, TokenModel,
}
use anon_ticket.Env.{Env, World, counter, utc_now}
use anon_ticket.Ledger.Soundness.{IsSound}
use anon_ticket.Storage.{
  supported, status_of, new_token_row, claim_payment, find_payment, insert_token, find_token,
}
use anon_ticket.Storage.Moves.{tables_of}
use anon_ticket.Storage.Runs.{
  >>=-of_ok, record_of, outcome_of, find_payment-runs, claim_payment-unclaimed,
  claim_payment-claimed, token_record_of,
}
use anon_ticket.Storage.TokenRuns.{find_token-absent, find_token-present, insert_token-new}
use anon_ticket.Api.Http.{ApiError, storage, HttpResponse, redeem_body, mark_hints}
use anon_ticket.Api.Redeem.{
  new_token, success_response, handle_success, inserted_token, create_token, existing_or_new,
  ensure_token_record, already_claimed, absent_found, absent_payment, handle_absent, after_claim,
  issue_time, build_redeem_response,
}

-- No two stored payments have one token, that is, the hash does not collide on them.
abbrev pub HasNoCollision : Codec → Tables → Type 0
HasNoCollision c t =
    (j k : Bytes) (p q : PaymentModel)
    → find payment_key j t.payments ≡ some p
    → find payment_key k t.payments ≡ some q
    → derive_service_token c (record { bytes = p.pid }) p.txid
      ≡ derive_service_token c (record { bytes = q.pid }) q.txid
    → j ≡ k

-- The answer that a client is to get for a payment.
abbrev pub redeemed : (env : Env) → Bytes → PaymentId → PaymentModel → HttpResponse
redeemed env status pid p = record {
  code = 200;
  body = redeem_body (record {
    status = status;
    service_token = token_to_hex env.codec (derive_service_token env.codec pid p.txid);
    balance = p.amount;
  });
}

module _ (c : Codec) (t : Tables) (sound : IsSound c t) (distinct : HasNoCollision c t)
    (pid : PaymentId) (p : PaymentModel)
    (found : find payment_key pid.bytes t.payments ≡ some p) where
  -- A token under the key of a payment is that payment's.
  pub token_of_payment :
      (r : TokenModel)
      → find token_key (derive_service_token c pid p.txid).bytes t.tokens ≡ some r
      → (r.pid ≡ pid.bytes) × (r.amount ≡ p.amount) × (p.status ≡ PaymentStatusDb.claimed)
  token_of_payment r stored =
      let (q, backer, taken, issued) = sound.backed _ r stored in
      let key = key-find token_key (derive_service_token c pid p.txid).bytes t.tokens r stored in
      let own = key-find payment_key pid.bytes t.payments p found in
      let pre : (derive_service_token c (record { bytes = p.pid }) p.txid).bytes
          ≡ (derive_service_token c pid p.txid).bytes =
        ap (λ b. (derive_service_token c (record { bytes = b }) p.txid).bytes) own in
      let same : pid.bytes ≡ r.pid =
        distinct pid.bytes r.pid p q found backer
          (ap (λ b. record { bytes = b }) (pre ∙ sym key ∙ issued.derived)) in
      let row : some q ≡ some p =
        sym backer ∙ ap (λ k. find payment_key k t.payments) (sym same) ∙ found in
      (sym same, cc (issued.same_amount, row), cc (taken, row))

  pub token_absent :
      p.status ≡ PaymentStatusDb.unclaimed
      → find token_key (derive_service_token c pid p.txid).bytes t.tokens ≡ none
  token_absent free =
      elim (Option-cases (find token_key (derive_service_token c pid p.txid).bytes t.tokens)) [
        | inl absent ↦ absent
        | inr (r, stored) ↦
            let (_, _, taken) = token_of_payment r stored in absurd (cc (taken, free))
      ]

module _ (env : Env) (codec : IsCodec env.codec) (engine : IsEngine env.engine)
    (reliable : IsReliable env.engine) (pid : PaymentId) (valid : IsPid pid)
    (p : PaymentModel) where
  -- The claim and the insertion of the token.
  pub answer_unclaimed :
      (hit : Bool) (w : World env)
      → supported (env.engine.backend w.db) ≡ ok tt
      → find payment_key pid.bytes (tables_of env w).payments ≡ some p
      → p.status ≡ PaymentStatusDb.unclaimed
      → find token_key (derive_service_token env.codec pid p.txid).bytes (tables_of env w).tokens
        ≡ none
      → ((lift_err storage (claim_payment env pid) >>= after_claim env pid hit) w).0
        ≡ ok (redeemed env (codes "success") pid p)
  unfolding after_claim handle_success success_response counter mark_hints build_redeem_response
  answer_unclaimed hit w usable found free absent =
      let t = derive_service_token env.codec pid p.txid in
      let o = outcome_of pid (env.clock w.clock_reads) p in
      let n = new_token pid t p.amount o.claimed_at in
      let w' = (claim_payment env pid w).1 in
      let (claims, kept) =
        claim_payment-unclaimed env engine reliable pid valid p w found usable free in
      let inserts =
        insert_token-new env engine reliable t
          (derive_service_token-IsToken env.codec codec pid p.txid) w' n refl valid
          (ap (λ l. find token_key t.bytes l) kept ∙ absent) in
      ap (λ x. x.0)
        (>>=-of_ok (lift_err storage (claim_payment env pid)) (λ o. after_claim env pid hit o) w
          (some o) (ap (map_err storage) claims))
      ∙ ap (λ x. x.0)
          (>>=-of_ok (lift_err storage (insert_token env n)) (λ r. success_response env pid r) w' _
            (ap (map_err storage) inserts))

  -- A token that is missing is stored; whatever time it is given, it has the payment's worth.
  creates :
      (at : Timestamp) (w : World env)
      → find token_key (derive_service_token env.codec pid p.txid).bytes (tables_of env w).tokens
        ≡ none
      → (r : ServiceTokenRecord) × ((create_token env pid
            (record_of pid p)
            (derive_service_token env.codec pid p.txid)
            at
            w).0
          ≡ ok r)
        × (r.token ≡ derive_service_token env.codec pid p.txid)
        × (r.amount ≡ p.amount)
  unfolding create_token inserted_token
  creates at w absent =
      let t = derive_service_token env.codec pid p.txid in
      let n = new_token pid t p.amount at in
      let inserts =
        insert_token-new env engine reliable t
          (derive_service_token-IsToken env.codec codec pid p.txid) w n refl valid absent in
      (
        token_record_of pid t (new_token_row n),
        ap (λ r. (inserted_token env t r (insert_token env n w).1).0) inserts,
        refl,
        refl,
      )

  issues :
      (time : Option Timestamp) (w : World env)
      → find token_key (derive_service_token env.codec pid p.txid).bytes (tables_of env w).tokens
        ≡ none
      → (r : ServiceTokenRecord) × (((issue_time env time
              >>= create_token env pid
                  (record_of pid p)
                  (derive_service_token env.codec pid p.txid))
            w).0
          ≡ ok r)
        × (r.token ≡ derive_service_token env.codec pid p.txid)
        × (r.amount ≡ p.amount)
  unfolding issue_time utc_now
  issues none w absent = creates _ _ absent
  issues (some at) w absent = creates at w absent

  -- The token of a claimed payment: the one that is stored, or a new one.
  ensures :
      (w : World env)
      → IsSound env.codec (tables_of env w)
      → HasNoCollision env.codec (tables_of env w)
      → find payment_key pid.bytes (tables_of env w).payments ≡ some p
      → (r : ServiceTokenRecord) × ((ensure_token_record env pid (record_of pid p) w).0 ≡ ok r)
        × (r.token ≡ derive_service_token env.codec pid p.txid)
        × (r.amount ≡ p.amount)
  unfolding ensure_token_record existing_or_new create_token inserted_token
  ensures w sound distinct found =
      let t = derive_service_token env.codec pid p.txid in
      let fits = derive_service_token-IsToken env.codec codec pid p.txid in
      elim (Option-cases (find token_key t.bytes (tables_of env w).tokens)) [
        | inl absent ↦
            let (reads, kept) = find_token-absent env engine reliable t fits w absent in
            let (r, made, token, amount) =
              issues p.claimed_at (find_token env t w).1
                (ap (λ x. find token_key t.bytes x.tokens) kept ∙ absent) in
            (
              r,
              ap (λ x. x.0)
                    (>>=-of_ok (lift_err storage (find_token env t))
                      (λ o. existing_or_new env pid (record_of pid p) t o) w none
                      (ap (map_err storage) reads))
                  ∙ made,
              token,
              amount,
            )
        | inr (r, stored) ↦
            let (same, amount, _) =
              token_of_payment env.codec _ sound distinct pid p found r stored in
            let (reads, _) =
              find_token-present env engine reliable t fits w pid r valid same stored in
            (
              token_record_of pid t r,
              ap (λ x. x.0)
                  (>>=-of_ok (lift_err storage (find_token env t))
                    (λ o. existing_or_new env pid (record_of pid p) t o) w _
                    (ap (map_err storage) reads)),
              refl,
              amount,
            )
      ]

  answer_found :
      (w : World env)
      → IsSound env.codec (tables_of env w)
      → HasNoCollision env.codec (tables_of env w)
      → find payment_key pid.bytes (tables_of env w).payments ≡ some p
      → p.status ≡ PaymentStatusDb.claimed
      → (absent_found env pid (record_of pid p) (record_of pid p).status w).0
        ≡ ok (redeemed env (codes "already_claimed") pid p)
  unfolding absent_found mark_hints already_claimed counter build_redeem_response
  answer_found w sound distinct found taken =
      let w' : World env = (mark_hints env {E = ApiError} pid w).1 in
      let (r, ensured, token, amount) = ensures w' sound distinct found in
      ap (λ s. (absent_found env pid (record_of pid p) (status_of s) w).0) taken
      ∙ ap (λ x. x.0)
          (>>=-of_ok (ensure_token_record env pid (record_of pid p)) (λ t. already_claimed env t) w'
            r ensured)
      ∙ (rw (token, amount) refl)

  -- A claimed payment, once the claim has found it claimed.
  pub answer_claimed :
      (hit : Bool) (w : World env)
      → supported (env.engine.backend w.db) ≡ ok tt
      → IsSound env.codec (tables_of env w)
      → HasNoCollision env.codec (tables_of env w)
      → find payment_key pid.bytes (tables_of env w).payments ≡ some p
      → p.status ≡ PaymentStatusDb.claimed
      → ((lift_err storage (claim_payment env pid) >>= after_claim env pid hit) w).0
        ≡ ok (redeemed env (codes "already_claimed") pid p)
  unfolding after_claim handle_absent absent_payment
  answer_claimed hit w usable sound distinct found taken =
      let (claims, kept) =
        claim_payment-claimed env engine reliable pid valid p w found usable taken in
      let w' = (claim_payment env pid w).1 in
      let found' : find payment_key pid.bytes (tables_of env w').payments ≡ some p =
        ap (λ t. find payment_key pid.bytes t.payments) kept ∙ found in
      let (finds, same) = find_payment-runs env engine reliable pid valid p w' found' in
      let back : tables_of env w ≡ tables_of env (find_payment env pid w').1 = sym (same ∙ kept) in
      let found'' : find payment_key pid.bytes (tables_of env (find_payment env pid w').1).payments
          ≡ some p =
        ap (λ t. find payment_key pid.bytes t.payments) same ∙ found' in
      ap (λ x. x.0)
        (>>=-of_ok (lift_err storage (claim_payment env pid)) (λ o. after_claim env pid hit o) w
          none (ap (map_err storage) claims))
      ∙ ap (λ x. x.0)
          (>>=-of_ok (lift_err storage (find_payment env pid)) (λ o. absent_payment env pid hit o)
            w' (some (record_of pid p)) (ap (map_err storage) finds))
      ∙ answer_found (find_payment env pid w').1 (subst (IsSound env.codec) back sound)
          (subst (HasNoCollision env.codec) back distinct) found'' taken
