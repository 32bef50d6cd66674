-- ===== src/System.antt =====
-- The process as a whole: requests and rounds of the monitor, in any order, on one shared state.
use anon_ticket.Base.{
  List, [], ◌∷◌, Option, none, some, Bytes, ◌≡◌, ◌≢◌, refl, ◌∙◌, ok, inl, inr, Option-cases,
}
use anon_ticket.Model.{IsCodec, PaymentId, IsPid, ServiceToken, ClaimOutcome, parse_token}
use anon_ticket.Database.{
  IsEngine, IsReliable, PaymentModel, TokenModel, find, payment_key, token_key,
}
use anon_ticket.Config.{BootstrapConfig}
use anon_ticket.Env.{Env, World}
use anon_ticket.Ledger.{Steps, done, Steps-trans}
use anon_ticket.Ledger.Growth.{KeepsPayment, Steps-KeepsPayment, Steps-KeepsToken}
use anon_ticket.Ledger.Soundness.{IsSound, Steps-IsSound}
use anon_ticket.Storage.{claim_payment}
use anon_ticket.Storage.Moves.{tables_of}
use anon_ticket.Storage.Replies.{claim_payment-some}
use anon_ticket.Api.TokenAnswers.{token_status_handler-present}
use anon_ticket.Storage.Runs.{token_record_of}
use anon_ticket.Api.{
  RevokeRequest, token_response, revoked, redeem_handler, token_status_handler,
  revoke_token_handler,
}
use anon_ticket.Api.RedeemMoves.{redeem_handler-Moves}
use anon_ticket.Api.TokenMoves.{token_status_handler-Moves, revoke_token_handler-Moves}
use anon_ticket.Monitor.{MonitorHooks, Round, run_monitor}
use anon_ticket.Monitor.Moves.{run_monitor-Moves}

-- What reaches the process: the requests of the routes of crates/api/src/application.rs, and runs
-- of the monitor.
pub data Event : Type 0 where
  redeem token_status : Bytes → Event
  revoke : Bytes → RevokeRequest → Event
  monitor : BootstrapConfig → Option MonitorHooks → List Round → Event

module _ (env : Env) where
  pub perform : Event → World env → World env
  unfolding redeem_handler token_status_handler revoke_token_handler run_monitor
  perform (redeem text) w = (redeem_handler env text w).1
  perform (token_status path) w = (token_status_handler env path w).1
  perform (revoke path payload) w = (revoke_token_handler env path payload w).1
  perform (monitor config hooks rounds) w = (run_monitor env config hooks rounds w).1

  pub perform_all : List Event → World env → World env
  unfolding perform
  perform_all [] w = w
  perform_all (e ∷ events) w = perform_all events (perform e w)

module _ (env : Env) (codec : IsCodec env.codec) (engine : IsEngine env.engine) where
  perform-Steps :
      (e : Event) (w : World env)
      → Steps env.codec (tables_of env w) (tables_of env (perform env e w))
  unfolding perform
  perform-Steps (redeem text) w = redeem_handler-Moves env engine text w
  perform-Steps (token_status path) w = token_status_handler-Moves env engine path w
  perform-Steps (revoke path payload) w = revoke_token_handler-Moves env engine path payload w
  perform-Steps (monitor config hooks rounds) w =
      run_monitor-Moves env codec engine config hooks rounds w

  -- Whatever is requested and whatever the monitor is told, in any order and whatever faults befall
  -- the database, the tables change by a history of the ledger.
  pub perform_all-Steps :
      (events : List Event) (w : World env)
      → Steps env.codec (tables_of env w) (tables_of env (perform_all env events w))
  unfolding perform_all
  perform_all-Steps [] w = done
  perform_all-Steps (e ∷ events) w =
      Steps-trans (perform-Steps e w) (perform_all-Steps events (perform env e w))

  -- From a sound ledger the process keeps it sound: every token that is ever stored is derived
  -- from a claimed payment's id and transaction, and is worth that payment's amount.
  pub perform_all-IsSound :
      (events : List Event) (w : World env)
      → IsSound env.codec (tables_of env w)
      → IsSound env.codec (tables_of env (perform_all env events w))
  perform_all-IsSound events w h = Steps-IsSound (perform_all-Steps events w) h

  -- A payment is claimed once: after a claim that returned an outcome, no claim of the payment
  -- returns one, whatever the process has done in between.
  pub claim_payment_once :
      (pid : PaymentId) (events : List Event) (w : World env) (first second : ClaimOutcome)
      → (claim_payment env pid w).0 ≡ ok (some first)
      → (claim_payment env pid (perform_all env events (claim_payment env pid w).1)).0
        ≢ ok (some second)
  claim_payment_once pid events w first second h again =
      let w' = (claim_payment env pid w).1 in
      let (p, _, _, taken, _) = claim_payment-some env engine pid w first h in
      let (q, kept, later) = Steps-KeepsPayment pid.bytes (perform_all-Steps events w') taken in
      let (r, found, free, _, _) =
        claim_payment-some env engine pid (perform_all env events w') second again in
      elim later.kept [ inl open' ↦ cc | inr same ↦ cc (kept, found, free, same) ]

  -- A stored payment stays, with its transaction and its amount, whatever the process does and
  -- whatever the monitor is told of it again; once it is claimed nothing of its row changes.
  pub perform_all-KeepsPayment :
      (events : List Event) (w : World env) (k : Bytes) (p : PaymentModel)
      → find payment_key k (tables_of env w).payments ≡ some p
      → KeepsPayment (tables_of env (perform_all env events w)) k p
  perform_all-KeepsPayment events w k p found =
      Steps-KeepsPayment k (perform_all-Steps events w) found

  -- A token that is revoked stays revoked: while no statement fails, the status handler answers
  -- that it is, with its amount, whatever the process has done since.
  pub revoked_for_good :
      (reliable : IsReliable env.engine) (text : Bytes) (token : ServiceToken) (pid : PaymentId)
      (r : TokenModel) (events : List Event) (w : World env)
      → parse_token env.codec text ≡ ok token
      → IsPid pid
      → r.pid ≡ pid.bytes
      → find token_key token.bytes (tables_of env w).tokens ≡ some r
      → r.revoked_at ≢ none
      → (s : TokenModel) × (s.amount ≡ r.amount)
        × ((token_status_handler env text (perform_all env events w)).0
            ≡ ok (token_response revoked (token_record_of pid token s)))
  revoked_for_good reliable text token pid r events w parsed valid same found shut =
      let (s, found', later) = Steps-KeepsToken token.bytes (perform_all-Steps events w) found in
      let reply =
        token_status_handler-present env codec engine reliable text token (perform_all env events w)
          parsed pid valid s (later.same_pid ∙ same) found' in
      elim later.kept [
        | inl free ↦ absurd (shut free)
        | inr shut' ↦ elim (Option-cases s.revoked_at) [
          | inl free ↦ absurd (shut' free)
          | inr (at, e) ↦ (s, later.same_amount, reply ∙ (rw e refl))
        ]
      ]
