-- ===== src/Monitor/Credits.antt =====
-- crates/monitor/src/worker.rs: what `handle_batch` has credited, transfer by transfer.
use anon_ticket.Base.{ℤ, ◌≡◌, ◌⊎◌, none, some, List, ◌∷◌, ◌++◌, All}
use anon_ticket.Model.{PaymentId}
use anon_ticket.Database.{find, payment_key, PaymentModel}
use anon_ticket.Env.{Env, World}
use anon_ticket.Ledger.Growth.{IsLater}
use anon_ticket.Storage.Moves.{tables_of}
use anon_ticket.Monitor.Rpc.{TransferEntry}
use anon_ticket.Monitor.Redeemable.{Qualifies}

-- A row has the transaction and the amount of the first entry that qualifies for its payment id.
pub record IsOfFirst (env : Env) (least : ℤ) (pid : PaymentId) (l : List TransferEntry)
    (p : PaymentModel) : Type 0 where
  pub before : List TransferEntry
  pub entry : TransferEntry
  pub after : List TransferEntry
  pub split : l ≡ before ++ (entry ∷ after)
  pub others : All (λ x. ¬ Qualifies env least pid x) before
  pub qualifies : Qualifies env least pid entry
  pub same_pid : p.pid ≡ pid.bytes
  pub same_txid : p.txid ≡ entry.txid
  pub same_amount : p.amount ≡ entry.amount

-- The row that stands for the payment id: the one that was there, later; or that of the first entry.
abbrev pub IsCredited :
    (env : Env) → ℤ → PaymentId → List TransferEntry → World env → World env → Type 0
IsCredited env least pid l w v =
    (p : PaymentModel) × (find payment_key pid.bytes (tables_of env v).payments ≡ some p)
    × (((old : PaymentModel) × (find payment_key pid.bytes (tables_of env w).payments ≡ some old)
          × IsLater old p)
        ⊎ ((find payment_key pid.bytes (tables_of env w).payments ≡ none)
            × IsOfFirst env least pid l p))
