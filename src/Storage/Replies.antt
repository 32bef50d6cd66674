-- ===== src/Storage/Replies.antt =====
-- What a successful reply of the stores says of the tables.
use anon_ticket.Base.{
  suc, ◌≡◌, refl, ◌∙◌, inl, inr, ◌⊎◌, Option, none, some, Bytes, ok, Action, ◌>>=◌, Result-cases,
  Option-cases, map_err, unwrap_or, from_result, arith, ap, true, false,
}
use anon_ticket.Model.{PaymentId, PaymentRecord, ClaimOutcome, Timestamp}
use anon_ticket.Database.{
  Tables, Fault, refused, lost, Statement, Meaning, settle, Obeys, IsEngine, find, modify,
  payment_key, PaymentModel, PaymentStatusDb, update_payment_meaning, select_payment_meaning,
  same_status, find-modify_self,
}
use anon_ticket.Env.{Env, World, database, query}
use anon_ticket.Storage.Moves.{tables_of}
use anon_ticket.Ledger.{claimed_at}
use anon_ticket.Storage.PaymentStore.{
  stored_pid, status_of, claim_payment, claim_row, build_query, claim_outcome, claim_update,
  find_payment, found_payment, payment_to_record,
}

settle_ok :
    {A : Type 0} (f : Option Fault) (m : Meaning A) (t : Tables) (a : A)
    → map_err database (settle f m t).0 ≡ ok a
    → ((m t).0 ≡ ok a) × ((settle f m t).1 ≡ (m t).1)
settle_ok none m t a e = elim (Result-cases (m t).0) [
  | inl (b, e') ↦ (e' ∙ ground arith, refl)
  | inr (inl (b, e')) ↦ absurd (ground arith)
  | inr (inr e') ↦ absurd (ground arith)
]
settle_ok (some (refused x)) m t a e = absurd (cc)
settle_ok (some (lost x)) m t a e = absurd (cc)

-- A value passes a bind only if both parts return.
pub >>=-eq-ok :
    {S E A B : Type 0} (m : Action S E A) (f : A → Action S E B) (s : S) (b : B)
    → ((m >>= f) s).0 ≡ ok b
    → (a : A) × ((m s).0 ≡ ok a) × ((f a (m s).1).0 ≡ ok b) × ((m >>= f) s ≡ f a (m s).1)
>>=-eq-ok m f s b h = elim (Result-cases (m s).0) [
  | inl (a, e) ↦ (a, e, rw (e, ◌>>=◌) at h, rw (e, ◌>>=◌))
  | inr (inl (x, e)) ↦ absurd (cc (rw (e, ◌>>=◌) at h))
  | inr (inr e) ↦ absurd (cc (rw (e, ◌>>=◌) at h))
]

module _ (env : Env) where
  -- A query that returns a value did what its statement means.
  pub query-ok :
      {A : Type 0} (run : Statement env.engine.Db A) (m : Meaning A) (w : World env) (a : A)
      → Obeys env.engine run m
      → (query env run w).0 ≡ ok a
      → ((m (tables_of env w)).0 ≡ ok a)
        × (tables_of env (query env run w).1 ≡ (m (tables_of env w)).1)
  unfolding query
  query-ok run m w a obeys h =
      let (reply, after) = obeys w.db in
      let (value, same) = settle_ok (env.engine.fault w.db) m (tables_of env w) a (rw reply at h) in
      (value, after ∙ same)

-- What an outcome tells of the row that was read.
pub record IsRead (p : PaymentModel) (o : ClaimOutcome) : Type 0 where
  pub same_txid : o.txid ≡ p.txid
  pub same_amount : o.amount ≡ p.amount
  pub same_height : o.block_height ≡ p.block_height
  pub same_time : some o.claimed_at ≡ p.claimed_at

-- The update for a claim, by what the table holds: no such payment, an unclaimed one, or a claimed
-- one.
pub update_absent :
    (now : Timestamp) (k : Bytes) (t : Tables)
    → find payment_key k t.payments ≡ none
    → update_payment_meaning (claim_update now k) t ≡ (ok none, t)
update_absent now k t absent = rw (absent, update_payment_meaning)

pub update_unclaimed :
    (now : Timestamp) (k : Bytes) (t : Tables) (p : PaymentModel)
    → find payment_key k t.payments ≡ some p
    → p.status ≡ PaymentStatusDb.unclaimed
    → update_payment_meaning (claim_update now k) t ≡ (
      ok (some (claimed_at now p)),
      record t { payments = modify payment_key k (claimed_at now) t.payments },
    )
update_unclaimed now k t p found free =
    let hit : same_status p.status PaymentStatusDb.unclaimed ≡ true = rw free in
    rw (found, update_payment_meaning) (rw hit)

pub update_claimed :
    (now : Timestamp) (k : Bytes) (t : Tables) (p : PaymentModel)
    → find payment_key k t.payments ≡ some p
    → p.status ≡ PaymentStatusDb.claimed
    → update_payment_meaning (claim_update now k) t ≡ (ok none, t)
update_claimed now k t p found taken =
    let miss : same_status p.status PaymentStatusDb.unclaimed ≡ false = rw taken in
    rw (found, update_payment_meaning) (rw miss)

pub status_cases :
    (s : PaymentStatusDb) → (s ≡ PaymentStatusDb.unclaimed) ⊎ (s ≡ PaymentStatusDb.claimed)
status_cases PaymentStatusDb.unclaimed = inl refl
status_cases PaymentStatusDb.claimed = inr refl

-- An update for a claim that returns a row has claimed an unclaimed payment, and returns it.
claim_update-some :
    (now : Timestamp) (k : Bytes) (t : Tables) (r : PaymentModel)
    → (update_payment_meaning (claim_update now k) t).0 ≡ ok (some r)
    → (p : PaymentModel) × (find payment_key k t.payments ≡ some p)
      × (p.status ≡ PaymentStatusDb.unclaimed)
      × (r ≡ claimed_at now p)
      × (find payment_key k (update_payment_meaning (claim_update now k) t).1.payments ≡ some r)
claim_update-some now k t r e = elim (Option-cases (find payment_key k t.payments)) [
  | inl absent ↦ absurd (cc (ap (λ x. x.0) (update_absent now k t absent)))
  | inr (p, found) ↦ elim (status_cases p.status) [
    | inl free ↦
        let done = update_unclaimed now k t p found free in
        let e' : r ≡ claimed_at now p = cc (ap (λ x. x.0) done) in
        (
          p,
          found,
          free,
          e',
          rw (done, e')
              (find-modify_self payment_key (claimed_at now) (λ _. refl) k t.payments p found),
        )
    | inr taken ↦ absurd (cc (ap (λ x. x.0) (update_claimed now k t p found taken)))
  ]
]

claim_outcome-some :
    (now : Timestamp) (m : Option PaymentModel) (o : ClaimOutcome)
    → claim_outcome now m ≡ ok (some o)
    → (r : PaymentModel) × (m ≡ some r)
      × (o.txid ≡ r.txid)
      × (o.amount ≡ r.amount)
      × (o.block_height ≡ r.block_height)
      × (o.claimed_at ≡ unwrap_or r.claimed_at now)
unfolding claim_outcome
claim_outcome-some now none o e = absurd (cc)
claim_outcome-some now (some r) o e = elim (Result-cases (stored_pid r.pid)) [
  | inl (q, valid) ↦ (r, refl, ground arith, ground arith, ground arith, ground arith)
  | inr (inl (x, bad)) ↦ absurd (ground arith)
  | inr (inr bad) ↦ absurd (ground arith)
]

found_payment-some :
    (m : Option PaymentModel) (r : PaymentRecord)
    → found_payment m ≡ ok (some r)
    → (p : PaymentModel) × (m ≡ some p) × (payment_to_record p ≡ ok r)
unfolding found_payment
found_payment-some none r e = absurd (cc)
found_payment-some (some p) r e = elim (Result-cases (payment_to_record p)) [
  | inl (q, valid) ↦ (p, refl, cc (valid, rw valid at e))
  | inr (inl (x, bad)) ↦ absurd (cc (rw bad at e))
  | inr (inr bad) ↦ absurd (cc (rw bad at e))
]

module _ (env : Env) (engine : IsEngine env.engine) where
  -- A claim that returns an outcome found the payment unclaimed, and leaves it claimed with the
  -- transaction, amount, height and time of the outcome.
  pub claim_row-some :
      (now : Timestamp) (pid : PaymentId) (w : World env) (o : ClaimOutcome)
      → (claim_row env now pid w).0 ≡ ok (some o)
      → (p : PaymentModel) × (find payment_key pid.bytes (tables_of env w).payments ≡ some p)
        × (p.status ≡ PaymentStatusDb.unclaimed)
        × (find payment_key pid.bytes (tables_of env (claim_row env now pid w).1).payments
            ≡ some (claimed_at now p))
        × IsRead (claimed_at now p) o
  unfolding claim_row
  claim_row-some now pid w o h =
      let run = env.engine.update_payment (claim_update now pid.bytes) in
      let (m, replied, rest, same) =
        >>=-eq-ok (query env run) (λ maybe_row. from_result (claim_outcome now maybe_row)) w
          (some o) h in
      let (meant, after) =
        query-ok env run (update_payment_meaning (claim_update now pid.bytes)) w m
          (engine.update_payment_obeys (claim_update now pid.bytes)) replied in
      let (r, is_row, txid, amount, height, time) = claim_outcome-some now m o rest in
      let (p, found, free, e, stored) =
        claim_update-some now pid.bytes (tables_of env w) r (meant ∙ ap ok is_row) in
      (
        p,
        found,
        free,
        ap (λ x. find payment_key pid.bytes (tables_of env x.1).payments) same
            ∙ ap (λ t. find payment_key pid.bytes t.payments) after
            ∙ stored
            ∙ ap some e,
        record {
          same_txid = txid ∙ ap (λ x. x.txid) e;
          same_amount = amount ∙ ap (λ x. x.amount) e;
          same_height = height ∙ ap (λ x. x.block_height) e;
          same_time = ap some (time ∙ ap (λ x. unwrap_or x.claimed_at now) e);
        },
      )

  -- The same of the whole call; `now` is what the clock read.
  pub claim_payment-some :
      (pid : PaymentId) (w : World env) (o : ClaimOutcome)
      → (claim_payment env pid w).0 ≡ ok (some o)
      → (p : PaymentModel) × (find payment_key pid.bytes (tables_of env w).payments ≡ some p)
        × (p.status ≡ PaymentStatusDb.unclaimed)
        × (find payment_key pid.bytes (tables_of env (claim_payment env pid w).1).payments
            ≡ some (claimed_at (env.clock w.clock_reads) p))
        × IsRead (claimed_at (env.clock w.clock_reads) p) o
  unfolding claim_payment
  claim_payment-some pid w o h =
      let now = env.clock w.clock_reads in
      let (u, fine, rest, same) =
        >>=-eq-ok (build_query env) (λ _. claim_row env now pid)
          (record w { clock_reads = suc w.clock_reads }) (some o) h in
      let (p, found, free, stored, read) =
        claim_row-some now pid (record w { clock_reads = suc w.clock_reads }) o rest in
      (
        p,
        found,
        free,
        ap (λ x. find payment_key pid.bytes (tables_of env x.1).payments) same ∙ stored,
        read,
      )

  payment_to_record_ok :
      (p : PaymentModel) (r : PaymentRecord)
      → payment_to_record p ≡ ok r
      → (r.txid ≡ p.txid)
        × (r.amount ≡ p.amount)
        × (r.claimed_at ≡ p.claimed_at)
        × (r.status ≡ status_of p.status)
  unfolding payment_to_record
  payment_to_record_ok p r e = elim (Result-cases (stored_pid p.pid)) [
    | inl (q, valid) ↦ (ground arith, ground arith, ground arith, ground arith)
    | inr (inl (x, bad)) ↦ absurd (ground arith)
    | inr (inr bad) ↦ absurd (ground arith)
  ]

  -- A lookup that finds a payment tells what the table holds of it.
  pub find_payment-some :
      (pid : PaymentId) (w : World env) (r : PaymentRecord)
      → (find_payment env pid w).0 ≡ ok (some r)
      → (p : PaymentModel) × (find payment_key pid.bytes (tables_of env w).payments ≡ some p)
        × (r.txid ≡ p.txid)
        × (r.amount ≡ p.amount)
        × (r.claimed_at ≡ p.claimed_at)
        × (r.status ≡ status_of p.status)
  unfolding find_payment
  find_payment-some pid w r h =
      let run = env.engine.select_payment pid.bytes in
      let (m, replied, rest, same) =
        >>=-eq-ok (query env run) (λ maybe. from_result (found_payment maybe)) w (some r) h in
      let (meant, after) =
        query-ok env run (select_payment_meaning pid.bytes) w m
          (engine.select_payment_obeys pid.bytes) replied in
      let (p, is_row, read) = found_payment-some m r rest in
      let (txid, amount, time, status) = payment_to_record_ok p r read in
      (p, cc (meant, is_row), txid, amount, time, status)
