-- ===== src/Storage/Runs.antt =====
-- What the stores answer while no statement fails.
use anon_ticket.Base.{
  suc, ◌≡◌, refl, ◌∙◌, ap, none, some, ok, err, Action, ◌>>=◌, map_err, from_result,
}
use anon_ticket.Model.{
  PaymentId, IsPid, PaymentRecord, ClaimOutcome, ServiceToken, ServiceTokenRecord, Timestamp,
}
use anon_ticket.Model.PidLaws.{pid_try_from_bytes}
use anon_ticket.Database.{
  Statement, Meaning, Obeys, IsEngine, IsReliable, find, key-find, payment_key, PaymentModel,
  PaymentStatusDb, TokenModel, update_payment_meaning, select_payment_meaning,
}
use anon_ticket.Env.{Env, World, database, query}
use anon_ticket.Ledger.{claimed_at}
use anon_ticket.Storage.Moves.{tables_of}
use anon_ticket.Storage.Replies.{update_unclaimed, update_claimed}
use anon_ticket.Storage.PaymentStore.{
  stored_pid, status_of, supported, claim_payment, claim_row, build_query, claim_outcome,
  claim_update, find_payment, found_payment,
}

-- A call whose first part returns goes on with the second.
pub >>=-of_ok :
    {S E A B : Type 0} (m : Action S E A) (f : A → Action S E B) (s : S) (a : A)
    → (m s).0 ≡ ok a
    → (m >>= f) s ≡ f a (m s).1
>>=-of_ok m f s a e = rw (e, ◌>>=◌)

-- A call whose first part fails ends there.
pub >>=-of_err :
    {S E A B : Type 0} (m : Action S E A) (f : A → Action S E B) (s : S) (e : E)
    → (m s).0 ≡ err e
    → (m >>= f) s ≡ (err e, (m s).1)
>>=-of_err m f s e h = rw (h, ◌>>=◌)

pub stored_pid_bytes : (pid : PaymentId) → IsPid pid → stored_pid pid.bytes ≡ ok pid
unfolding stored_pid
stored_pid_bytes pid valid = rw (pid_try_from_bytes pid valid)

-- The record of a row with a valid payment id.
abbrev pub record_of : PaymentId → PaymentModel → PaymentRecord
record_of pid p = record {
  pid = pid;
  txid = p.txid;
  amount = p.amount;
  block_height = p.block_height;
  status = status_of p.status;
  created_at = p.created_at;
  claimed_at = p.claimed_at;
}

abbrev pub outcome_of : PaymentId → Timestamp → PaymentModel → ClaimOutcome
outcome_of pid now p = record {
  pid = pid;
  txid = p.txid;
  amount = p.amount;
  block_height = p.block_height;
  claimed_at = now;
}

abbrev pub token_record_of : PaymentId → ServiceToken → TokenModel → ServiceTokenRecord
token_record_of pid token r = record {
  token = token;
  pid = pid;
  amount = r.amount;
  issued_at = r.issued_at;
  revoked_at = r.revoked_at;
  revoke_reason = r.revoke_reason;
  abuse_score = r.abuse_score;
}

module _ (env : Env) (engine : IsEngine env.engine) (reliable : IsReliable env.engine) where
  pub query-runs :
      {A : Type 0} (run : Statement env.engine.Db A) (m : Meaning A) (w : World env)
      → Obeys env.engine run m
      → ((query env run w).0 ≡ map_err database (m (tables_of env w)).0)
        × (tables_of env (query env run w).1 ≡ (m (tables_of env w)).1)
  unfolding query
  query-runs run m w obeys =
      let (reply, after) = obeys w.db in
      (ap (map_err database) (rw (reliable w.db) at reply), rw (reliable w.db) at after)

  module _ (pid : PaymentId) (valid : IsPid pid) (p : PaymentModel) (w : World env)
      (found : find payment_key pid.bytes (tables_of env w).payments ≡ some p) where
    same_pid : stored_pid p.pid ≡ ok pid
    same_pid = ap stored_pid (key-find payment_key pid.bytes _ p found) ∙ stored_pid_bytes pid valid

    pub find_payment-runs :
        ((find_payment env pid w).0 ≡ ok (some (record_of pid p)))
        × (tables_of env (find_payment env pid w).1 ≡ tables_of env w)
    unfolding find_payment found_payment
    find_payment-runs =
        let run = env.engine.select_payment pid.bytes in
        let (reply, after) =
          query-runs run (select_payment_meaning pid.bytes) w
            (engine.select_payment_obeys pid.bytes) in
        let goes =
          >>=-of_ok (query env run) (λ m. from_result (found_payment m)) w (some p)
            (reply ∙ ap (λ x. ok x) found) in
        (ap (λ x. x.0) goes ∙ rw same_pid refl, ap (λ x. tables_of env x.1) goes ∙ after)

    module _ (usable : supported (env.engine.backend w.db) ≡ ok tt) where
      claim_payment-row :
          claim_payment env pid w
          ≡ claim_row env
              (env.clock w.clock_reads)
              pid
              (record w { clock_reads = suc w.clock_reads })
      unfolding claim_payment
      claim_payment-row =
          >>=-of_ok (build_query env) (λ _. claim_row env (env.clock w.clock_reads) pid)
            (record w { clock_reads = suc w.clock_reads }) tt usable

      -- An unclaimed payment is claimed.
      pub claim_payment-unclaimed :
          p.status ≡ PaymentStatusDb.unclaimed
          → ((claim_payment env pid w).0 ≡ ok (some (outcome_of pid (env.clock w.clock_reads) p)))
            × ((tables_of env (claim_payment env pid w).1).tokens ≡ (tables_of env w).tokens)
      unfolding claim_row claim_outcome
      claim_payment-unclaimed free =
          let now = env.clock w.clock_reads in
          let run = env.engine.update_payment (claim_update now pid.bytes) in
          let w' : World env = record w { clock_reads = suc w.clock_reads } in
          let (reply, after) =
            query-runs run (update_payment_meaning (claim_update now pid.bytes)) w'
              (engine.update_payment_obeys (claim_update now pid.bytes)) in
          let meant = update_unclaimed now pid.bytes (tables_of env w) p found free in
          let goes =
            claim_payment-row
            ∙ >>=-of_ok (query env run) (λ m. from_result (claim_outcome now m)) w'
                (some (claimed_at now p)) (reply ∙ ap (λ x. map_err database x.0) meant) in
          (
            ap (λ x. x.0) goes ∙ (rw same_pid refl),
            ap (λ x. (tables_of env x.1).tokens) goes
                ∙ ap (λ t. t.tokens) after
                ∙ ap (λ x. x.1.tokens) meant,
          )

      -- A claimed payment is not claimed again, and nothing changes.
      pub claim_payment-claimed :
          p.status ≡ PaymentStatusDb.claimed
          → ((claim_payment env pid w).0 ≡ ok none)
            × (tables_of env (claim_payment env pid w).1 ≡ tables_of env w)
      unfolding claim_row claim_outcome
      claim_payment-claimed taken =
          let now = env.clock w.clock_reads in
          let run = env.engine.update_payment (claim_update now pid.bytes) in
          let w' : World env = record w { clock_reads = suc w.clock_reads } in
          let (reply, after) =
            query-runs run (update_payment_meaning (claim_update now pid.bytes)) w'
              (engine.update_payment_obeys (claim_update now pid.bytes)) in
          let meant = update_claimed now pid.bytes (tables_of env w) p found taken in
          let goes =
            claim_payment-row
            ∙ >>=-of_ok (query env run) (λ m. from_result (claim_outcome now m)) w' none
                (reply ∙ ap (λ x. map_err database x.0) meant) in
          (ap (λ x. x.0) goes, ap (λ x. tables_of env x.1) goes ∙ after ∙ ap (λ x. x.1) meant)
