-- ===== src/Storage/PaymentStore.antt =====
-- crates/storage/src/payment_store.rs.
use anon_ticket.Base.{
  Option, none, some, [], ◌∷◌, Bytes, codes, Result, ok, panic, map_err, and_then, Action, ◌>>=◌,
  ◌>>◌, from_result, unwrap_or,
}
use anon_ticket.Model.{
  PidFormatError, pid_try_from, PaymentId, PaymentStatus, PaymentRecord, NewPayment, ClaimOutcome,
  Timestamp,
}
use anon_ticket.Database.{
  do_nothing, PaymentModel, PaymentStatusDb, status_eq, set_status, set_claimed_at, DatabaseBackend,
  UpdatePayment,
}
use anon_ticket.Env.{Env, World, StorageError, database, query, utc_now}

-- `to_string` of the format error.
abbrev pub pid_error_text : PidFormatError → Bytes
pid_error_text PidFormatError.wrong_length = codes "payment id must be exactly 16 hex characters"
pid_error_text PidFormatError.non_hex = codes "payment id contains non-hex characters"

unfoldable pub stored_pid : Bytes → Result StorageError PaymentId
stored_pid bytes = map_err (λ e. database (pid_error_text e)) (pid_try_from bytes)

-- The match on `model.status`.
abbrev pub status_of : PaymentStatusDb → PaymentStatus
status_of PaymentStatusDb.unclaimed = PaymentStatus.unclaimed
status_of PaymentStatusDb.claimed = PaymentStatus.claimed

unfoldable pub payment_to_record : PaymentModel → Result StorageError PaymentRecord
unfolding stored_pid
payment_to_record model = and_then (stored_pid model.pid) (λ pid. ok (record {
  pid = pid;
  txid = model.txid;
  amount = model.amount;
  block_height = model.block_height;
  status = status_of model.status;
  created_at = model.created_at;
  claimed_at = model.claimed_at;
}))

-- The row that a claim updated, as its outcome.
unfoldable pub claim_outcome :
    Timestamp → Option PaymentModel → Result StorageError (Option ClaimOutcome)
unfolding stored_pid
claim_outcome now none = ok none
claim_outcome now (some updated) = and_then (stored_pid updated.pid) (λ pid. ok (
    some (record {
      pid = pid;
      txid = updated.txid;
      amount = updated.amount;
      block_height = updated.block_height;
      claimed_at = unwrap_or updated.claimed_at now;
    })))

-- `maybe.map(payment_to_record).transpose()`.
unfoldable pub found_payment : Option PaymentModel → Result StorageError (Option PaymentRecord)
unfolding payment_to_record
found_payment none = ok none
found_payment (some model) = and_then (payment_to_record model) (λ r. ok (some r))

-- The row that an insertion writes; a column that is not set is null.
abbrev pub new_payment_row : NewPayment → PaymentModel
new_payment_row payment = record {
  pid = payment.pid.bytes;
  txid = payment.txid;
  amount = payment.amount;
  block_height = payment.block_height;
  status = PaymentStatusDb.unclaimed;
  created_at = payment.detected_at;
  claimed_at = none;
}

-- The update that claims a payment.
abbrev pub claim_update : Timestamp → Bytes → UpdatePayment
claim_update now k = record {
  pid = k;
  and_where = status_eq PaymentStatusDb.unclaimed ∷ [];
  values = set_status PaymentStatusDb.claimed ∷ set_claimed_at now ∷ [];
}

-- The choice of the query builder; MySQL is `unreachable!`.
unfoldable pub supported : DatabaseBackend → Result StorageError (Unit {0})
supported DatabaseBackend.sqlite = ok tt
supported DatabaseBackend.postgres = ok tt
supported DatabaseBackend.my_sql = panic

module _ (env : Env) where
  unfoldable pub insert_payment : NewPayment → Action (World env) StorageError (Unit {0})
  unfolding query
  insert_payment payment = query env (
      env.engine.insert_payment
        (record { row = new_payment_row payment; on_conflict = do_nothing }))

  unfoldable pub build_query : Action (World env) StorageError (Unit {0})
  unfolding supported
  build_query w = (supported (env.engine.backend w.db), w)

  -- The update, and the reading of the row that it returned.
  unfoldable pub claim_row :
      Timestamp → PaymentId → Action (World env) StorageError (Option ClaimOutcome)
  unfolding query claim_outcome
  claim_row now pid = do
    maybe_row ← query env (env.engine.update_payment (claim_update now pid.bytes))
    from_result (claim_outcome now maybe_row)

  unfoldable pub claim_payment : PaymentId → Action (World env) StorageError (Option ClaimOutcome)
  unfolding utc_now build_query claim_row
  claim_payment pid = do now ← utc_now env; build_query; claim_row now pid

  unfoldable pub find_payment : PaymentId → Action (World env) StorageError (Option PaymentRecord)
  unfolding query found_payment
  find_payment pid = do
    maybe ← query env (env.engine.select_payment pid.bytes)
    from_result (found_payment maybe)
