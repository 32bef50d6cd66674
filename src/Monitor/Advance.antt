-- ===== src/Monitor/Advance.antt =====
-- The cursor of the loop over many rounds.
use anon_ticket.Base.{
  ℕ, ◌+◌, ◌≤◌, ◌<◌, ◌≡◌, sym, ◌∙◌, ap, inl, inr, ◌⊎◌, Bool, Option, List, [], ◌∷◌, map, ok, err,
  panic, All, Result, u64_max, saturating_add, saturating_sub, ltb, if◌then◌else◌, arith,
  Bool-cases, Result-cases,
}
use anon_ticket.Config.{BootstrapConfig}
use anon_ticket.Database.{IsEngine}
use anon_ticket.Env.{Env, World}
use anon_ticket.Storage.Replies.{>>=-eq-ok}
use anon_ticket.Monitor.Rpc.{MonitorError}
use anon_ticket.Monitor.Pipeline.{MonitorHooks}
use anon_ticket.Monitor.Worker.{
  Round, safe_height_of, cursor_after, monitor_tick, poll, loop_round, run_loop,
}
use anon_ticket.Monitor.Wallet.{WalletClient, KeepsToRange, wallet_height, rpc_source}
use anon_ticket.Monitor.Asked.{monitor_tick-moves_on}

-- A wallet that keeps to the range it is asked for, and reports a height that is not within two of the
-- largest 64-bit number.
abbrev pub IsHonest : WalletClient → Type 0
IsHonest wallet = KeepsToRange wallet × ((h : ℕ) → wallet.get_height ≡ ok h → h + 1 < u64_max)

module _ (env : Env) (engine : IsEngine env.engine) (config : BootstrapConfig)
    (hooks : Option MonitorHooks) where
  abbrev source_of : WalletClient → Round
  source_of wallet = rpc_source env.codec wallet

  safe_height_of_bound :
      (h confirmations : ℕ) → h + 1 < u64_max → safe_height_of h confirmations < u64_max
  unfolding safe_height_of saturating_add saturating_sub
  safe_height_of_bound h confirmations fits = omega arith

  cursor_after_cases :
      (height next : ℕ) (r : Result MonitorError ℕ)
      → cursor_after env height r ≡ ok next
      → (r ≡ ok next) ⊎ (height ≡ next)
  cursor_after_cases height next (ok n) e = inl e
  cursor_after_cases height next (err x) e = inr (cc e)
  cursor_after_cases height next panic e = absurd (cc e)

  poll-never_back :
      (wallet : WalletClient) (height h next : ℕ) (w : World env)
      → KeepsToRange wallet
      → h + 1 < u64_max
      → (poll env config hooks (source_of wallet) height h w).0 ≡ ok next
      → height ≤ next
  unfolding poll
  poll-never_back wallet height h next w keeps fits went =
      let safe = safe_height_of h config.monitor_min_confirmations in
      let least = config.monitor_min_payment_amount in
      elim (Bool-cases (ltb safe height)) [
        | inl waits ↦ let e : height ≡ next = cc (rw waits at went) in omega arith
        | inr goes ↦
            let tick = monitor_tick env (source_of wallet) height least safe hooks w in
            let polled : (poll env config hooks (source_of wallet) height h w).0
                ≡ cursor_after env height tick.0 =
              ap (λ (x : Result MonitorError ℕ × World env). x.0)
                (ap
                  (λ (b : Bool).
                    if b then (ok height, w) else (cursor_after env height tick.0, tick.1))
                  goes) in
            elim (cursor_after_cases height next tick.0 (sym polled ∙ went)) [
              | inl ticked ↦
                  let (on, _, _) =
                    monitor_tick-moves_on env engine wallet keeps height safe next least hooks w
                      (ground arith) (safe_height_of_bound h config.monitor_min_confirmations fits)
                      ticked in
                  omega arith
              | inr same ↦ omega arith
            ]
      ]

  loop_round-never_back :
      (wallet : WalletClient) (height next : ℕ) (w : World env)
      → IsHonest wallet
      → (loop_round env config hooks (source_of wallet) height w).0 ≡ ok next
      → height ≤ next
  unfolding loop_round rpc_source wallet_height
  loop_round-never_back wallet height next w (keeps, real) went =
      elim (Result-cases wallet.get_height) [
        | inl (h, is) ↦ poll-never_back wallet height h next w keeps (real h is) (rw is at went)
        | inr (inl (x, is)) ↦ let e : height ≡ next = cc (rw is at went) in omega arith
        | inr (inr is) ↦ absurd (cc (rw is at went))
      ]

  -- Over any rounds of wallets that keep to the range they are asked for and report heights short of
  -- the largest, the loop ends with a cursor that is not below the one that it began with, whatever
  -- batches and statements fail.
  pub run_loop-never_back :
      (wallets : List WalletClient) (height next : ℕ) (w : World env)
      → All IsHonest wallets
      → (run_loop env config hooks (map source_of wallets) height w).0 ≡ ok next
      → height ≤ next
  unfolding run_loop
  run_loop-never_back [] height next w honest went = let e : height ≡ next = cc went in omega arith
  run_loop-never_back (wallet ∷ wallets) height next w (here, more) went =
      let (mid, first, rest, _) =
        >>=-eq-ok (loop_round env config hooks (source_of wallet) height)
          (run_loop env config hooks (map source_of wallets)) w next went in
      let low = loop_round-never_back wallet height mid w here first in
      let high = run_loop-never_back wallets mid next _ more rest in omega arith
