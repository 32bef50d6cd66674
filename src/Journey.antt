-- ===== src/Journey.antt =====
-- From a transfer of the wallet, through crates/monitor, to a token from crates/api.
use anon_ticket.Base.{
  ℕ, ℤ, ◌≡◌, subst, ap, inl, inr, ◌⊎◌, List, ◌∷◌, ◌++◌, some, true, Bytes, codes, ok,
}
use anon_ticket.Model.{IsCodec, PaymentId, parse_pid}
use anon_ticket.Services.{IsFilter}
use anon_ticket.Database.{IsEngine, IsReliable, PaymentModel, find, payment_key}
use anon_ticket.Env.{Env, World}
use anon_ticket.Ledger.Soundness.{IsSound, Steps-IsSound}
use anon_ticket.Storage.{supported}
use anon_ticket.Storage.Moves.{tables_of}
use anon_ticket.Storage.Replies.{status_cases}
use anon_ticket.Api.{redeem_handler}
use anon_ticket.Api.RedeemBranches.{HasNoCollision, redeemed}
use anon_ticket.Api.RedeemAnswers.{redeem_handler-unclaimed, redeem_handler-claimed}
use anon_ticket.Monitor.{TransferEntry, TransfersResponse, MonitorHooks, handle_batch}
use anon_ticket.Monitor.Moves.{handle_batch-Moves}
use anon_ticket.Monitor.Redeemable.{IsRedeemable, Qualifies, handle_batch-IsRedeemable}

module _ (env : Env) (codec : IsCodec env.codec) (engine : IsEngine env.engine)
    (reliable : IsReliable env.engine) (filter : IsFilter env.floats env.hints) where
  -- On a sound ledger and while no statement fails, over a backend that can return the row of an
  -- update, a qualifying entry of a batch that was handled without an error, with hooks that hold the
  -- Bloom filter, can be redeemed at once, by any text of its payment id: the client gets the token
  -- derived from the payment that is stored for the id, worth the amount that is stored, where the hash
  -- has no collision.
  pub redeem_credited :
      (front : List TransferEntry) (e : TransferEntry) (back : List TransferEntry) (least : ℤ)
      (safe next : ℕ) (hooks : MonitorHooks) (pid : PaymentId) (text : Bytes) (w w' : World env)
      → Qualifies env least pid e
      → hooks.has_bloom ≡ true
      → handle_batch env (record { incoming = front ++ (e ∷ back) }) least safe (some hooks) w
        ≡ (ok next, w')
      → parse_pid env.codec text ≡ ok pid
      → supported (env.engine.backend w'.db) ≡ ok tt
      → IsSound env.codec (tables_of env w)
      → HasNoCollision env.codec (tables_of env w')
      → (p : PaymentModel) × (find payment_key pid.bytes (tables_of env w').payments ≡ some p)
        × (((redeem_handler env text w').0 ≡ ok (redeemed env (codes "success") pid p))
            ⊎ ((redeem_handler env text w').0 ≡ ok (redeemed env (codes "already_claimed") pid p)))
  redeem_credited front e back least safe next hooks pid text w w' q on went parsed usable sound
        distinct =
      let b : TransfersResponse = record { incoming = front ++ (e ∷ back) } in
      let after = ap (λ x. x.1) went in
      let ((p, found), fits) : IsRedeemable env pid w' = subst (IsRedeemable env pid) after (
        handle_batch-IsRedeemable env codec engine filter front e back least safe next hooks pid w q
          on (ap (λ x. x.0) went)) in
      let sound' : IsSound env.codec (tables_of env w') =
        subst (λ x. IsSound env.codec (tables_of env x)) after
          (Steps-IsSound (handle_batch-Moves env codec engine b least safe (some hooks) w) sound) in
      elim (status_cases p.status) [
        | inl free ↦ (
          p,
          found,
          inl (
              redeem_handler-unclaimed env codec engine reliable text pid p w' parsed fits usable
                sound' distinct found free),
        )
        | inr taken ↦ (
          p,
          found,
          inr (
              redeem_handler-claimed env codec engine reliable text pid p w' parsed fits usable
                sound' distinct found taken),
        )
      ]
