-- ===== src/Monitor/Survival.antt =====
-- Errors in the loop of crates/monitor/src/worker.rs.
use anon_ticket.Base.{
  ℕ, ◌≢◌, ◌∙◌, inl, inr, Option, List, [], ◌∷◌, Result, ok, err, panic, ◌>>=◌, Bool-cases,
  Result-cases, ltb,
}
use anon_ticket.Config.{BootstrapConfig}
use anon_ticket.Env.{Env, World}
use anon_ticket.Monitor.Rpc.{MonitorError}
use anon_ticket.Monitor.Pipeline.{MonitorHooks}
use anon_ticket.Monitor.Worker.{Round, safe_height_of, cursor_after, poll, loop_round, run_loop}

module _ (env : Env) (config : BootstrapConfig) (hooks : Option MonitorHooks)
    (e : MonitorError) where
  cursor_after-survives :
      (height : ℕ) (r : Result MonitorError ℕ) → cursor_after env height r ≢ err e
  cursor_after-survives height (ok n) = λ h. cc h
  cursor_after-survives height (err x) = λ h. cc h
  cursor_after-survives height panic = λ h. cc h

  poll-survives :
      (source : Round) (height wallet : ℕ) (w : World env)
      → (poll env config hooks source height wallet w).0 ≢ err e
  unfolding poll
  poll-survives source height wallet w =
      elim (Bool-cases (ltb (safe_height_of wallet config.monitor_min_confirmations) height)) [
        | inl waits ↦ rw waits (λ h. cc h)
        | inr goes ↦ rw goes (cursor_after-survives height _)
      ]

  loop_round-survives :
      (source : Round) (height : ℕ) (w : World env)
      → (loop_round env config hooks source height w).0 ≢ err e
  unfolding loop_round
  loop_round-survives source height w = elim (Result-cases source.wallet_height) [
    | inl (wallet, is) ↦ rw is (poll-survives source height wallet w)
    | inr (inl (x, is)) ↦ rw is (λ h. cc h)
    | inr (inr is) ↦ rw is (λ h. cc h)
  ]

  -- No error ends the loop of the monitor, neither of the wallet nor of a batch nor of the database,
  -- whatever the wallet answers and for however many rounds.
  pub run_loop-survives :
      (rounds : List Round) (height : ℕ) (w : World env)
      → (run_loop env config hooks rounds height w).0 ≢ err e
  unfolding run_loop
  run_loop-survives [] height w = λ h. cc h
  run_loop-survives (source ∷ rounds) height w =
      let round = loop_round env config hooks source height w in
      elim (Result-cases round.0) [
        | inl (next, is) ↦ rw (is, ◌>>=◌) (run_loop-survives rounds next round.1)
        | inr (inl (x, is)) ↦
            (λ h. loop_round-survives source height w (is ∙ (rw (is, ◌>>=◌) at h)))
        | inr (inr is) ↦ rw (is, ◌>>=◌) (λ h. cc h)
      ]
