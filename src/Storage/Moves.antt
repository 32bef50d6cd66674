-- ===== src/Storage/Moves.antt =====
-- Every call of the stores, whatever it returns and whatever fault befalls it, takes the ledger
-- through steps that it allows.
use anon_ticket.Base.{
  ◌≡◌, refl, inl, inr, Option, none, some, Bytes, ok, Action, ◌>>=◌, Result-cases, Option-cases,
  true, Bool-cases, arith, from_result,
}
use anon_ticket.Model.{Codec, Timestamp, PaymentId, IsPid, NewPayment}
use anon_ticket.Database.{
  Tables, Fault, refused, lost, Statement, Meaning, settle, Obeys, IsEngine, find, key-find,
  payment_key, do_nothing, PaymentModel, PaymentStatusDb, run_insert, same_status, modify,
  insert_payment_meaning, update_payment_meaning,
}
use anon_ticket.Env.{Env, World, query}
use anon_ticket.Ledger.{Step, receive, claim, Steps, done, one-Step, Steps-trans, claimed_at}
use anon_ticket.Storage.PaymentStore.{
  new_payment_row, insert_payment, claim_payment, build_query, claim_row, claim_outcome,
  claim_update, find_payment, found_payment,
}

-- The tables of a world.
abbrev pub tables_of : (env : Env) → World env → Tables
tables_of env w = env.engine.tables w.db

-- What a call does to the tables is a history of the ledger.
abbrev pub Moves : (env : Env) {E A : Type 0} → Action (World env) E A → World env → Type 0
Moves env m w = Steps env.codec (tables_of env w) (tables_of env (m w).1)

settle-Steps :
    {A : Type 0} (c : Codec) (f : Option Fault) (m : Meaning A) (t : Tables)
    → Steps c t (m t).1
    → Steps c t (settle f m t).1
settle-Steps c none m t h = h
settle-Steps c (some (refused _)) m t h = done
settle-Steps c (some (lost _)) m t h = h

module _ (env : Env) where
  pub >>=-Moves :
      {E A B : Type 0} (m : Action (World env) E A) (f : A → Action (World env) E B) (w : World env)
      → Moves env m w
      → ((a : A) → (m w).0 ≡ ok a → Moves env (f a) (m w).1)
      → Moves env (m >>= f) w
  >>=-Moves m f w first rest = elim (Result-cases (m w).0) [
    | inl (a, e) ↦ rw (e, ◌>>=◌) (Steps-trans first (rest a e))
    | inr (inl (e, e')) ↦ rw (e', ◌>>=◌) first
    | inr (inr e) ↦ rw (e, ◌>>=◌) first
  ]

  pub query-Moves :
      {A : Type 0} (run : Statement env.engine.Db A) (m : Meaning A) (w : World env)
      → Obeys env.engine run m
      → Steps env.codec (tables_of env w) (m (tables_of env w)).1
      → Moves env (query env run) w
  unfolding query
  query-Moves run m w obeys h =
      rw ((obeys w.db).1) (settle-Steps env.codec (env.engine.fault w.db) m (tables_of env w) h)

  module _ (engine : IsEngine env.engine) where
    receive_meaning :
        (c : Codec) (m : Bytes) (p : NewPayment) (t : Tables)
        → IsPid p.pid
        → Steps c t
            (insert_payment_meaning m
              (record { row = new_payment_row p; on_conflict = do_nothing })
              t).1
    receive_meaning c m p t valid = elim (Option-cases (find payment_key p.pid.bytes t.payments)) [
      | inl new ↦ rw (new, run_insert) (one-Step (receive (new_payment_row p) new refl valid refl))
      | inr (_, old) ↦ rw (old, run_insert) done
    ]

    -- Storing a payment adds an unclaimed payment, or nothing.
    pub insert_payment-Moves :
        (p : NewPayment) (w : World env) → IsPid p.pid → Moves env (insert_payment env p) w
    unfolding insert_payment
    insert_payment-Moves p w valid =
        query-Moves _ _ w
          (engine.insert_payment_obeys
            (record { row = new_payment_row p; on_conflict = do_nothing }))
          (receive_meaning env.codec env.engine.broken_key p _ valid)

    status_unclaimed :
        (s : PaymentStatusDb)
        → same_status s PaymentStatusDb.unclaimed ≡ true
        → s ≡ PaymentStatusDb.unclaimed
    status_unclaimed s h = ground arith

    claim-Step :
        (c : Codec) (now : Timestamp) (k : Bytes) (t : Tables) (p : PaymentModel)
        → find payment_key k t.payments ≡ some p
        → p.status ≡ PaymentStatusDb.unclaimed
        → Step c t (record t { payments = modify payment_key k (claimed_at now) t.payments })
    claim-Step c now k t p found free =
        let same : p.pid ≡ k = key-find payment_key k t.payments p found in
        claim p now (simp same found) free (simp same)

    claim_found :
        (c : Codec) (now : Timestamp) (k : Bytes) (t : Tables) (p : PaymentModel)
        → find payment_key k t.payments ≡ some p
        → Steps c t (update_payment_meaning (claim_update now k) t).1
    claim_found c now k t p found =
        elim (Bool-cases (same_status p.status PaymentStatusDb.unclaimed)) [
          | inl free ↦
              rw (found, update_payment_meaning)
                (rw free (one-Step (claim-Step c now k t p found (status_unclaimed p.status free))))
          | inr taken ↦ rw (found, update_payment_meaning) (rw taken done)
        ]

    claim_meaning :
        (c : Codec) (now : Timestamp) (k : Bytes) (t : Tables)
        → Steps c t (update_payment_meaning (claim_update now k) t).1
    claim_meaning c now k t = elim (Option-cases (find payment_key k t.payments)) [
      | inl absent ↦ rw (absent, update_payment_meaning) done
      | inr (p, found) ↦ claim_found c now k t p found
    ]

    claim_row-Moves :
        (now : Timestamp) (pid : PaymentId) (w : World env) → Moves env (claim_row env now pid) w
    unfolding claim_row
    claim_row-Moves now pid w =
        >>=-Moves (query env (env.engine.update_payment (claim_update now pid.bytes)))
          (λ maybe_row. from_result (claim_outcome now maybe_row)) w
          (query-Moves _ _ w (engine.update_payment_obeys (claim_update now pid.bytes))
            (claim_meaning env.codec now pid.bytes _))
          (λ _ _. done)

    -- Claiming a payment claims it if it is unclaimed, and does nothing else.
    pub claim_payment-Moves :
        (pid : PaymentId) (w : World env) → Moves env (claim_payment env pid) w
    unfolding claim_payment
    claim_payment-Moves pid w =
        >>=-Moves (build_query env) (λ _. claim_row env (env.clock w.clock_reads) pid) _ done
          (λ _ _. claim_row-Moves (env.clock w.clock_reads) pid _)

    -- Looking up a payment changes nothing.
    pub find_payment-Moves : (pid : PaymentId) (w : World env) → Moves env (find_payment env pid) w
    unfolding find_payment
    find_payment-Moves pid w =
        >>=-Moves (query env (env.engine.select_payment pid.bytes))
          (λ maybe. from_result (found_payment maybe)) w
          (query-Moves _ _ w (engine.select_payment_obeys pid.bytes) done) (λ _ _. done)
