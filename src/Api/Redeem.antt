-- ===== src/Api/Redeem.antt =====
-- crates/api/src/handlers/redeem.rs.
use anon_ticket.Base.{
  ℤ, pos, Bool, true, false, Option, none, some, [], ◌∷◌, String, Bytes, codes, Result, ok, err,
  panic, Action, ◌>>=◌, ◌>>◌, from_result, pure, raise, lift_err, unwrap_or, if◌then◌else◌,
}
use anon_ticket.Model.{
  PaymentId, PaymentStatus, PaymentRecord, ClaimOutcome, NewServiceToken, ServiceToken,
  ServiceTokenRecord, Timestamp, PidFormatError, parse_pid, derive_service_token, token_to_hex,
}
use anon_ticket.Env.{Env, World, StorageError, utc_now, counter}
use anon_ticket.Storage.{claim_payment, find_payment, insert_token, find_token}
use anon_ticket.Api.Http.{
  ApiError, invalid_pid, not_found, storage, HttpResponse, redeem_body, names_unique, bloom_hint,
  mark_hints,
}

-- The token that a claimed payment is given.
abbrev pub new_token : PaymentId → ServiceToken → ℤ → Timestamp → NewServiceToken
new_token pid token amount issued_at = record {
  token = token;
  pid = pid;
  amount = amount;
  issued_at = issued_at;
  abuse_score = pos 0;
}

module _ (env : Env) where
  unfoldable pub build_redeem_response : Bytes → ServiceTokenRecord → HttpResponse
  build_redeem_response status r = record {
    code = 200;
    body = redeem_body (record {
      status = status;
      service_token = token_to_hex env.codec r.token;
      balance = r.amount;
    });
  }

  -- `counter!("api_redeem_requests_total", "status" => …)`.
  abbrev count_request : {E : Type 0} → String → Action (World env) E (Unit {0})
  count_request status = counter env "api_redeem_requests_total" (("status", status) ∷ [])

  abbrev count_hint : {E : Type 0} → String → Action (World env) E (Unit {0})
  count_hint hint = counter env "api_redeem_cache_hints_total" (("hint", hint) ∷ [])

  -- The early return on the hint of the Bloom filter.
  unfoldable pub check_bloom : Option Bool → Action (World env) ApiError (Unit {0})
  unfolding counter
  check_bloom none = pure tt
  check_bloom (some true) = count_hint "bloom_positive"
  check_bloom (some false) = do
    count_hint "bloom_absent"
    count_request "bloom_absent"
    raise not_found

  unfoldable pub success_response :
      PaymentId → ServiceTokenRecord → Action (World env) ApiError HttpResponse
  unfolding counter mark_hints build_redeem_response
  success_response pid token_record = do
    count_request "success"
    mark_hints env pid
    pure (build_redeem_response (codes "success") token_record)

  unfoldable pub handle_success :
      PaymentId → ClaimOutcome → Action (World env) ApiError HttpResponse
  unfolding derive_service_token insert_token success_response
  handle_success pid outcome = do
    token_record ← lift_err storage (
        insert_token env (
          new_token pid (derive_service_token env.codec pid outcome.txid) outcome.amount
            outcome.claimed_at))
    success_response pid token_record

  -- The insertion lost a race: the token is read back.
  unfoldable pub reread_token : ServiceToken → Action (World env) ApiError ServiceTokenRecord
  unfolding find_token
  reread_token token = do
    found ← lift_err storage (find_token env token)
    from_result (elim found [ some r ↦ ok r | none ↦ err not_found ])

  -- The match on the result of the insertion.
  unfoldable pub inserted_token :
      ServiceToken
      → Result StorageError ServiceTokenRecord
      → Action (World env) ApiError ServiceTokenRecord
  unfolding names_unique reread_token
  inserted_token token (ok r) = pure r
  inserted_token token (err e) = if names_unique e then reread_token token else raise (storage e)
  inserted_token token panic = from_result panic

  -- `payment.claimed_at.unwrap_or_else(Utc::now)`.
  unfoldable pub issue_time : Option Timestamp → Action (World env) ApiError Timestamp
  unfolding utc_now
  issue_time (some at) = pure at
  issue_time none = utc_now env

  -- The insertion of a token that was not found.
  unfoldable pub create_token :
      PaymentId
      → PaymentRecord
      → ServiceToken
      → Timestamp
      → Action (World env) ApiError ServiceTokenRecord
  unfolding insert_token inserted_token
  create_token pid payment token issued_at w =
      let (r, w') = insert_token env (new_token pid token payment.amount issued_at) w in
      inserted_token token r w'

  unfoldable pub existing_or_new :
      PaymentId
      → PaymentRecord
      → ServiceToken
      → Option ServiceTokenRecord
      → Action (World env) ApiError ServiceTokenRecord
  unfolding issue_time create_token
  existing_or_new pid payment token (some existing) = pure existing
  existing_or_new pid payment token none = do
    issued_at ← issue_time payment.claimed_at
    create_token pid payment token issued_at

  unfoldable pub ensure_token_record :
      PaymentId → PaymentRecord → Action (World env) ApiError ServiceTokenRecord
  unfolding derive_service_token find_token existing_or_new
  ensure_token_record pid payment = do
    let token = derive_service_token env.codec pid payment.txid
    existing ← lift_err storage (find_token env token)
    existing_or_new pid payment token existing

  unfoldable pub already_claimed : ServiceTokenRecord → Action (World env) ApiError HttpResponse
  unfolding counter build_redeem_response
  already_claimed token = do
    count_request "already_claimed"
    pure (build_redeem_response (codes "already_claimed") token)

  -- The match on the payment, if one was found.
  unfoldable pub absent_found :
      PaymentId → PaymentRecord → PaymentStatus → Action (World env) ApiError HttpResponse
  unfolding counter mark_hints ensure_token_record already_claimed
  absent_found pid payment PaymentStatus.claimed = do
    mark_hints env pid
    token ← ensure_token_record pid payment
    already_claimed token
  absent_found pid payment PaymentStatus.unclaimed = do
    mark_hints env pid
    count_request "pending"
    raise not_found

  -- A positive answer of the Bloom filter that the database does not bear out.
  abbrev count_miss : Bool → Action (World env) ApiError (Unit {0})
  count_miss bloom_positive =
      if bloom_positive
      then counter env "api_redeem_bloom_db_miss_total" (("hit", "positive_db_miss") ∷ [])
      else pure tt

  unfoldable pub absent_payment :
      PaymentId → Bool → Option PaymentRecord → Action (World env) ApiError HttpResponse
  unfolding counter absent_found
  absent_payment pid bloom_positive (some payment) = absent_found pid payment payment.status
  absent_payment pid bloom_positive none = do
    count_miss bloom_positive
    count_request "not_found"
    raise not_found

  unfoldable pub handle_absent : PaymentId → Bool → Action (World env) ApiError HttpResponse
  unfolding find_payment absent_payment
  handle_absent pid bloom_positive = do
    maybe_payment ← lift_err storage (find_payment env pid)
    absent_payment pid bloom_positive maybe_payment

  -- The match on the claim.
  unfoldable pub after_claim :
      PaymentId → Bool → Option ClaimOutcome → Action (World env) ApiError HttpResponse
  unfolding handle_success handle_absent
  after_claim pid bloom_positive (some outcome) = handle_success pid outcome
  after_claim pid bloom_positive none = handle_absent pid bloom_positive

  -- The handler, once the payment id is parsed.
  unfoldable pub redeem_pid : PaymentId → Action (World env) ApiError HttpResponse
  unfolding bloom_hint check_bloom claim_payment after_claim
  redeem_pid pid = do
    bloom_positive ← bloom_hint env pid
    check_bloom bloom_positive
    claimed ← lift_err storage (claim_payment env pid)
    after_claim pid (unwrap_or bloom_positive false) claimed

  -- The match on the parsed payment id.
  unfoldable pub redeem_parsed :
      Result PidFormatError PaymentId → Action (World env) ApiError HttpResponse
  unfolding counter redeem_pid
  redeem_parsed (ok pid) = redeem_pid pid
  redeem_parsed (err e) = count_request "invalid_pid" >> raise (invalid_pid e)
  redeem_parsed panic = from_result panic

  unfoldable pub redeem_handler : Bytes → Action (World env) ApiError HttpResponse
  unfolding parse_pid redeem_parsed
  redeem_handler pid = redeem_parsed (parse_pid env.codec pid)
