-- ===== src/Api/RedeemMoves.antt =====
-- Redeeming, whatever it answers and whatever fault befalls it, is a history of the ledger.
use anon_ticket.Base.{
  ℤ, ◌≡◌, refl, sym, ◌∙◌, ap, inl, inr, ◌⊎◌, Bool, true, false, Option, none, some, Bytes, Result,
  ok, err, panic, ◌>>=◌, from_result, lift_err, lift_err-ok, unwrap_or, Option-cases, Bool-cases,
}
use anon_ticket.Model.{
  Codec, PaymentId, PaymentStatus, PaymentRecord, ClaimOutcome, ServiceToken, ServiceTokenRecord,
  Timestamp, PidFormatError, derive_service_token, parse_pid,
}
use anon_ticket.Database.{
  Tables, IsEngine, find, key-find, payment_key, PaymentModel, PaymentStatusDb,
}
use anon_ticket.Env.{Env, World, StorageError, utc_now, counter}
use anon_ticket.Ledger.{Steps, done, Steps-trans, claimed_at}
use anon_ticket.Ledger.Growth.{Steps-KeepsPayment}
use anon_ticket.Storage.{claim_payment, find_payment, insert_token, find_token, status_of}
use anon_ticket.Storage.Moves.{tables_of, Moves, >>=-Moves, claim_payment-Moves, find_payment-Moves}
use anon_ticket.Storage.TokenMoves.{IsIssuable, insert_token-Moves, find_token-Moves}
use anon_ticket.Storage.Replies.{claim_payment-some, find_payment-some, status_cases}
use anon_ticket.Api.Http.{not_found, storage, hint_of, names_unique, bloom_hint, mark_hints}
use anon_ticket.Api.Redeem.{
  new_token, check_bloom, success_response, handle_success, reread_token, inserted_token,
  issue_time, create_token, existing_or_new, ensure_token_record, already_claimed, absent_found,
  absent_payment, handle_absent, after_claim, redeem_pid, redeem_parsed, redeem_handler,
}

-- The stored payment is claimed, with this transaction and amount.
pub record IsClaimed (t : Tables) (pid : PaymentId) (txid : Bytes) (amount : ℤ) : Type 0 where
  pub row : PaymentModel
  pub found : find payment_key pid.bytes t.payments ≡ some row
  pub taken : row.status ≡ PaymentStatusDb.claimed
  pub same_txid : txid ≡ row.txid
  pub same_amount : amount ≡ row.amount

-- A claimed payment stays so.
pub Steps-IsClaimed :
    {c : Codec} {t u : Tables} (pid : PaymentId) (txid : Bytes) (amount : ℤ)
    → Steps c t u
    → IsClaimed t pid txid amount
    → IsClaimed u pid txid amount
Steps-IsClaimed pid txid amount h k =
    let (q, found, later) = Steps-KeepsPayment pid.bytes h k.found in
    elim later.kept [
      | inl free ↦ absurd (cc (free, k.taken))
      | inr e ↦ record {
        row = k.row;
        found = found ∙ ap some e;
        taken = k.taken;
        same_txid = k.same_txid;
        same_amount = k.same_amount;
      }
    ]

-- The token of a claimed payment may be stored.
pub IsClaimed-IsIssuable :
    (c : Codec) (t : Tables) (pid : PaymentId) (txid : Bytes) (amount : ℤ) (at : Timestamp)
    → IsClaimed t pid txid amount
    → IsIssuable c t (new_token pid (derive_service_token c pid txid) amount at)
IsClaimed-IsIssuable c t pid txid amount at k =
    let same : k.row.pid ≡ pid.bytes = key-find payment_key pid.bytes t.payments k.row k.found in
    (
      k.row,
      k.found,
      k.taken,
      record {
        same_pid = sym same;
        same_amount = k.same_amount;
        derived =
            ap (λ x. (derive_service_token c pid x).bytes) k.same_txid
            ∙ ap (λ b. (derive_service_token c (record { bytes = b }) k.row.txid).bytes) (sym same);
      },
    )

module _ (env : Env) (engine : IsEngine env.engine) where
  handle_success-Moves :
      (pid : PaymentId) (o : ClaimOutcome) (w : World env)
      → IsClaimed (tables_of env w) pid o.txid o.amount
      → Moves env (handle_success env pid o) w
  unfolding handle_success success_response counter mark_hints
  handle_success-Moves pid o w k =
      let n = new_token pid (derive_service_token env.codec pid o.txid) o.amount o.claimed_at in
      >>=-Moves env (lift_err storage (insert_token env n)) (λ r. success_response env pid r) w
        (insert_token-Moves env engine n w
          (IsClaimed-IsIssuable env.codec _ pid o.txid o.amount o.claimed_at k))
        (λ _ _. done)

  inserted_token-Moves :
      (t : ServiceToken) (r : Result StorageError ServiceTokenRecord) (w : World env)
      → Moves env (inserted_token env t r) w
  unfolding inserted_token reread_token
  inserted_token-Moves t (ok r) w = done
  inserted_token-Moves t panic w = done
  inserted_token-Moves t (err e) w = elim (Bool-cases (names_unique e)) [
    | inl race ↦ rw race (
        >>=-Moves env (lift_err storage (find_token env t))
          (λ found. from_result (elim found [ some r ↦ ok r | none ↦ err not_found ])) w
          (find_token-Moves env engine t w) (λ _ _. done))
    | inr other ↦ rw other done
  ]

  create_token-Moves :
      (pid : PaymentId) (p : PaymentRecord) (at : Timestamp) (w : World env)
      → IsClaimed (tables_of env w) pid p.txid p.amount
      → Moves env (create_token env pid p (derive_service_token env.codec pid p.txid) at) w
  unfolding create_token
  create_token-Moves pid p at w k =
      Steps-trans
        (insert_token-Moves env engine _ w
          (IsClaimed-IsIssuable env.codec _ pid p.txid p.amount at k))
        (inserted_token-Moves _ _ _)

  existing_or_new-Moves :
      (pid : PaymentId) (p : PaymentRecord) (o : Option ServiceTokenRecord) (w : World env)
      → IsClaimed (tables_of env w) pid p.txid p.amount
      → Moves env (existing_or_new env pid p (derive_service_token env.codec pid p.txid) o) w
  unfolding existing_or_new issue_time utc_now
  existing_or_new-Moves pid p (some r) w k = done
  existing_or_new-Moves pid p none w k = elim (Option-cases p.claimed_at) [
    | inl e ↦ rw e (create_token-Moves pid p _ _ k)
    | inr (at, e) ↦ rw e (create_token-Moves pid p at w k)
  ]

  pub ensure_token_record-Moves :
      (pid : PaymentId) (p : PaymentRecord) (w : World env)
      → IsClaimed (tables_of env w) pid p.txid p.amount
      → Moves env (ensure_token_record env pid p) w
  unfolding ensure_token_record
  ensure_token_record-Moves pid p w k =
      let t = derive_service_token env.codec pid p.txid in
      let looked = find_token-Moves env engine t w in
      >>=-Moves env (lift_err storage (find_token env t))
        (λ existing. existing_or_new env pid p t existing) w looked
        (λ existing _.
          existing_or_new-Moves pid p existing _ (Steps-IsClaimed pid p.txid p.amount looked k))

  absent_found-Moves :
      (pid : PaymentId) (p : PaymentRecord) (s : PaymentStatus) (w : World env)
      → (s ≡ PaymentStatus.unclaimed) ⊎ IsClaimed (tables_of env w) pid p.txid p.amount
      → Moves env (absent_found env pid p s) w
  unfolding absent_found mark_hints counter already_claimed
  absent_found-Moves pid p PaymentStatus.unclaimed w k = done
  absent_found-Moves pid p PaymentStatus.claimed w (inl e) = absurd (cc)
  absent_found-Moves pid p PaymentStatus.claimed w (inr k) =
      >>=-Moves env (ensure_token_record env pid p) (λ t. already_claimed env t) _
        (ensure_token_record-Moves pid p _ k) (λ _ _. done)

  -- A record that was read of a claimed payment, as a fact about the table.
  pub read-IsClaimed :
      (pid : PaymentId) (r : PaymentRecord) (w : World env)
      → (find_payment env pid w).0 ≡ ok (some r)
      → (r.status ≡ PaymentStatus.unclaimed)
        ⊎ IsClaimed (tables_of env (find_payment env pid w).1) pid r.txid r.amount
  read-IsClaimed pid r w h =
      let (p, found, txid, amount, _, status) = find_payment-some env engine pid w r h in
      elim (status_cases p.status) [
        | inl free ↦ inl (status ∙ ap status_of free)
        | inr taken ↦ inr (
            Steps-IsClaimed pid r.txid r.amount (find_payment-Moves env engine pid w) (record {
              row = p;
              found = found;
              taken = taken;
              same_txid = txid;
              same_amount = amount;
            }))
      ]

  absent_payment-Moves :
      (pid : PaymentId) (hit : Bool) (o : Option PaymentRecord) (w : World env)
      → (find_payment env pid w).0 ≡ ok o
      → Moves env (absent_payment env pid hit o) (find_payment env pid w).1
  unfolding absent_payment counter
  absent_payment-Moves pid true none w h = done
  absent_payment-Moves pid false none w h = done
  absent_payment-Moves pid _ (some r) w h =
      absent_found-Moves pid r r.status _ (read-IsClaimed pid r w h)

  handle_absent-Moves :
      (pid : PaymentId) (hit : Bool) (w : World env) → Moves env (handle_absent env pid hit) w
  unfolding handle_absent
  handle_absent-Moves pid hit w =
      >>=-Moves env (lift_err storage (find_payment env pid)) (λ o. absent_payment env pid hit o) w
        (find_payment-Moves env engine pid w)
        (λ o e. absent_payment-Moves pid hit o w (lift_err-ok storage (find_payment env pid) w o e))

  pub claim_payment-IsClaimed :
      (pid : PaymentId) (o : ClaimOutcome) (w : World env)
      → (claim_payment env pid w).0 ≡ ok (some o)
      → IsClaimed (tables_of env (claim_payment env pid w).1) pid o.txid o.amount
  claim_payment-IsClaimed pid o w h =
      let (p, _, _, stored, read) = claim_payment-some env engine pid w o h in
      record {
        row = claimed_at (env.clock w.clock_reads) p;
        found = stored;
        taken = refl;
        same_txid = read.same_txid;
        same_amount = read.same_amount;
      }

  after_claim-Moves :
      (pid : PaymentId) (hit : Bool) (o : Option ClaimOutcome) (w : World env)
      → (claim_payment env pid w).0 ≡ ok o
      → Moves env (after_claim env pid hit o) (claim_payment env pid w).1
  unfolding after_claim
  after_claim-Moves pid hit none w h = handle_absent-Moves pid hit _
  after_claim-Moves pid hit (some o) w h =
      handle_success-Moves pid o _ (claim_payment-IsClaimed pid o w h)

  claim_and_issue-Moves :
      (pid : PaymentId) (hit : Bool) (w : World env)
      → Moves env (lift_err storage (claim_payment env pid) >>= after_claim env pid hit) w
  claim_and_issue-Moves pid hit w =
      >>=-Moves env (lift_err storage (claim_payment env pid)) (λ o. after_claim env pid hit o) w
        (claim_payment-Moves env engine pid w)
        (λ o e. after_claim-Moves pid hit o w (lift_err-ok storage (claim_payment env pid) w o e))

  pub check_bloom-Moves : (o : Option Bool) (w : World env) → Moves env (check_bloom env o) w
  unfolding check_bloom counter
  check_bloom-Moves none w = done
  check_bloom-Moves (some true) w = done
  check_bloom-Moves (some false) w = done

  -- Redeeming a payment id moves the ledger by its own steps only.
  pub redeem_pid-Moves : (pid : PaymentId) (w : World env) → Moves env (redeem_pid env pid) w
  unfolding redeem_pid bloom_hint
  redeem_pid-Moves pid w =
      >>=-Moves env (check_bloom env (hint_of env pid w))
        (λ _.
          lift_err storage (claim_payment env pid)
          >>= after_claim env pid (unwrap_or (hint_of env pid w) false))
        w (check_bloom-Moves (hint_of env pid w) w)
        (λ _ _. claim_and_issue-Moves pid (unwrap_or (hint_of env pid w) false) _)

  redeem_parsed-Moves :
      (r : Result PidFormatError PaymentId) (w : World env) → Moves env (redeem_parsed env r) w
  unfolding redeem_parsed counter
  redeem_parsed-Moves (ok pid) w = redeem_pid-Moves pid w
  redeem_parsed-Moves (err e) w = done
  redeem_parsed-Moves panic w = done

  -- Whatever text is redeemed, and whatever the database answers, the tables change by a history
  -- of the ledger.
  pub redeem_handler-Moves : (text : Bytes) (w : World env) → Moves env (redeem_handler env text) w
  unfolding redeem_handler
  redeem_handler-Moves text w = redeem_parsed-Moves (parse_pid env.codec text) w
