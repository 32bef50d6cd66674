-- ===== src/Startup/Prewarm.antt =====
-- What `prewarm_hints` guarantees to the requests that come after it.
use anon_ticket.Base.{
  ◌≡◌, ◌≢◌, refl, sym, subst, ◌∙◌, ap, inl, inr, false, none, some, List, [], ◌∷◌, map, Bytes, ok,
  lift_err, lift_err-ok, from_result, Option-cases, Bool-cases, Result-cases, bytes_eq,
  bytes_eq_iff, ◌==◌, length,
}
use anon_ticket.Model.{PaymentId, pid_try_from}
use anon_ticket.Services.{IsFilter, bloom_insert, might_contain}
use anon_ticket.Database.{IsEngine, find, payment_key, PaymentModel, select_pids_meaning}
use anon_ticket.Env.{Env, World, query}
use anon_ticket.Storage.{all_payment_ids, collect_pids, stored_pid}
use anon_ticket.Storage.Moves.{tables_of}
use anon_ticket.Storage.Replies.{>>=-eq-ok, query-ok}
use anon_ticket.Api.{hint_of}
use anon_ticket.Startup.{BootstrapError, storage, mark_all, marked, prewarm_hints}

stored_pid_same : (b : Bytes) (q : PaymentId) → stored_pid b ≡ ok q → q.bytes ≡ b
unfolding stored_pid pid_try_from
stored_pid_same b q e = elim (Bool-cases (length b == 8)) [
  | inl eight ↦ let e' : record { bytes = b } ≡ q = cc (rw eight at e) in ap (λ x. x.bytes) (sym e')
  | inr other ↦ absurd (cc (rw other at e))
]

-- The payment ids of rows that were all read: the first one's, and the others'.
collect_pids-ok :
    (b : Bytes) (raw : List Bytes) (pids : List PaymentId)
    → collect_pids (b ∷ raw) ≡ ok pids
    → (q : PaymentId) × (rest : List PaymentId) × (q.bytes ≡ b)
      × (collect_pids raw ≡ ok rest)
      × (pids ≡ q ∷ rest)
unfolding collect_pids
collect_pids-ok b raw pids e = elim (Result-cases (stored_pid b)) [
  | inl (q, here) ↦ elim (Result-cases (collect_pids raw)) [
    | inl (rest, there) ↦ (q, rest, stored_pid_same b q here, there, cc (rw (here, there) at e))
    | inr (inl (x, bad)) ↦ absurd (cc (rw (here, bad) at e))
    | inr (inr bad) ↦ absurd (cc (rw (here, bad) at e))
  ]
  | inr (inl (x, bad)) ↦ absurd (cc (rw bad at e))
  | inr (inr bad) ↦ absurd (cc (rw bad at e))
]

module _ (env : Env) where
  -- The step of the loop.
  abbrev mark : PaymentId → World env → World env
  mark pid w = mark_all env (pid ∷ []) w

  mark_all-db : (pids : List PaymentId) (w : World env) → (mark_all env pids w).db ≡ w.db
  unfolding mark_all
  mark_all-db [] w = refl
  mark_all-db (pid ∷ pids) w = mark_all-db pids (mark pid w)

  mark_all-bare :
      (pids : List PaymentId) (w : World env) → (mark_all env pids w).bloom ≡ none → w.bloom ≡ none
  unfolding mark_all
  mark_all-bare [] w e = e
  mark_all-bare (pid ∷ pids) w e =
      let here : (mark pid w).bloom ≡ none = mark_all-bare pids (mark pid w) e in
      elim (Option-cases w.bloom) [ inl bare ↦ bare | inr (b, is) ↦ absurd (cc (rw is at here)) ]

  -- Warming up changes no row, and takes no filter away.
  pub prewarm_hints-kept :
      (engine : IsEngine env.engine) (w : World env) (u : Unit {0})
      → (prewarm_hints env w).0 ≡ ok u
      → (tables_of env (prewarm_hints env w).1 ≡ tables_of env w)
        × ((prewarm_hints env w).1.bloom ≡ none → w.bloom ≡ none)
  unfolding prewarm_hints all_payment_ids query
  prewarm_hints-kept engine w u went =
      let (pids, all, _, same) =
        >>=-eq-ok (lift_err {F = BootstrapError env.floats} storage (all_payment_ids env))
          (marked env) w u went in
      let (raw, asked, read, same') =
        >>=-eq-ok (query env env.engine.select_pids) (λ raw. from_result (collect_pids raw)) w pids
          (lift_err-ok storage (all_payment_ids env) w pids all) in
      let (_, kept) =
        query-ok env env.engine.select_pids select_pids_meaning w raw engine.select_pids_obeys
          asked in
      let w' = (all_payment_ids env w).1 in
      (
        ap (λ x. tables_of env x.1) same
            ∙ ap (λ d. env.engine.tables d) (mark_all-db pids w')
            ∙ ap (λ x. tables_of env x.1) same'
            ∙ kept,
        λ bare.
            ap (λ x. x.1.bloom) (sym same')
            ∙ mark_all-bare pids w' (ap (λ x. x.1.bloom) (sym same) ∙ bare),
      )

module _ (env : Env) (filter : IsFilter env.floats env.hints) where
  mark-Admits : (pid : PaymentId) (w : World env) → hint_of env pid (mark env pid w) ≢ some false
  unfolding mark_all bloom_insert might_contain
  mark-Admits pid w = elim (Option-cases w.bloom) [
    | inl bare ↦ rw bare (λ e. cc e)
    | inr (b, e) ↦ rw e (λ refused. cc (refused, filter.contains-insert_self pid.bytes b))
  ]

  mark-Keeps :
      (j pid : PaymentId) (w : World env)
      → hint_of env j w ≢ some false
      → hint_of env j (mark env pid w) ≢ some false
  unfolding mark_all bloom_insert might_contain
  mark-Keeps j pid w h = elim (Option-cases w.bloom) [
    | inl bare ↦ rw bare (λ e. cc e)
    | inr (b, e) ↦ elim (Bool-cases (env.hints.filter_contains j.bytes b)) [
      | inl held ↦ rw e (λ refused. cc (refused, filter.contains-insert j.bytes pid.bytes b held))
      | inr denied ↦ absurd (h (rw e (ap some denied)))
    ]
  ]

  mark_all-Keeps :
      (j : PaymentId) (pids : List PaymentId) (w : World env)
      → hint_of env j w ≢ some false
      → hint_of env j (mark_all env pids w) ≢ some false
  unfolding mark_all
  mark_all-Keeps j [] w h = h
  mark_all-Keeps j (pid ∷ pids) w h = mark_all-Keeps j pids (mark env pid w) (mark-Keeps j pid w h)

  mark_all-Admits :
      (rows : List PaymentModel) (pids : List PaymentId) (pid : PaymentId) (p : PaymentModel)
      (w : World env)
      → collect_pids (map payment_key rows) ≡ ok pids
      → find payment_key pid.bytes rows ≡ some p
      → hint_of env pid (mark_all env pids w) ≢ some false
  unfolding mark_all
  mark_all-Admits [] pids pid p w read found = absurd (cc)
  mark_all-Admits (r ∷ rows) pids pid p w read found =
      let (q, rest, same, others, split) = collect_pids-ok r.pid (map payment_key rows) pids read in
      subst (λ l. hint_of env pid (mark_all env l w) ≢ some false) (sym split)
        (elim (Bool-cases (bytes_eq r.pid pid.bytes)) [
          | inl here ↦
              let e : q ≡ pid =
                ap (λ b. record { bytes = b }) (same ∙ (bytes_eq_iff r.pid pid.bytes).0 here) in
              mark_all-Keeps pid rest (mark env q w) (
                subst (λ x. hint_of env pid (mark env x w) ≢ some false) (sym e)
                  (mark-Admits pid w))
          | inr there ↦ mark_all-Admits rows rest pid p (mark env q w) others (rw there at found)
        ])

  -- After the hints were warmed up, no payment that is stored is turned away by the Bloom filter.
  pub prewarm_hints-Admits :
      (engine : IsEngine env.engine) (w : World env) (u : Unit {0}) (pid : PaymentId)
      (p : PaymentModel)
      → (prewarm_hints env w).0 ≡ ok u
      → find payment_key pid.bytes (tables_of env (prewarm_hints env w).1).payments ≡ some p
      → hint_of env pid (prewarm_hints env w).1 ≢ some false
  unfolding prewarm_hints all_payment_ids
  prewarm_hints-Admits engine w u pid p went found =
      let (pids, all, _, same) =
        >>=-eq-ok (lift_err {F = BootstrapError env.floats} storage (all_payment_ids env))
          (marked env) w u went in
      let (raw, asked, read, same') =
        >>=-eq-ok (query env env.engine.select_pids) (λ raw. from_result (collect_pids raw)) w pids
          (lift_err-ok storage (all_payment_ids env) w pids all) in
      let (is_raw, kept) =
        query-ok env env.engine.select_pids select_pids_meaning w raw engine.select_pids_obeys
          asked in
      let w' = (all_payment_ids env w).1 in
      let tables_kept : tables_of env (prewarm_hints env w).1 ≡ tables_of env w =
        ap (λ x. tables_of env x.1) same
        ∙ ap (λ d. env.engine.tables d) (mark_all-db env pids w')
        ∙ ap (λ x. tables_of env x.1) same'
        ∙ kept in
      let raw_is : raw ≡ map payment_key (tables_of env w).payments = cc in
      let found' : find payment_key pid.bytes (tables_of env w).payments ≡ some p =
        ap (λ t. find payment_key pid.bytes t.payments) (sym tables_kept) ∙ found in
      subst (λ x. hint_of env pid x.1 ≢ some false) (sym same)
        (mark_all-Admits (tables_of env w).payments pids pid p w'
          (ap collect_pids (sym raw_is) ∙ read) found')
