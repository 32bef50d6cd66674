-- ===== src/Monitor/Rpc.antt =====
-- crates/monitor/src/rpc: transfers as the wallet reports them, and their conversion.
use anon_ticket.Base.{
  ℕ, ℤ, pos, Option, none, some, List, [], ◌∷◌, Bytes, codes, Result, ok, err, panic, and_then,
  as_i64, as_u64, leb, i64_max, if◌then◌else◌,
}
use anon_ticket.Model.{Codec, parse_pid, PaymentId, PidFormatError}
use anon_ticket.Env.{StorageError}

-- The errors of the worker that its loop can meet; those of configuration and telemetry end the
-- process before the loop.
pub data MonitorError : Type 0 where
  storage : StorageError → MonitorError
  rpc : Bytes → MonitorError

pub record TransferEntry : Type 0 where
  pub txid : Bytes
  pub amount : ℤ
  pub height : Option ℤ
  pub timestamp : ℕ
  pub payment_id : Option Bytes

pub record TransfersResponse : Type 0 where
  pub incoming : List TransferEntry

-- `monero_rpc::TransferHeight`.
pub data TransferHeight : Type 0 where
  confirmed : ℕ → TransferHeight
  in_pool : TransferHeight

-- What is read of `monero_rpc::GotTransfer`: the amount in piconero, the texts of the ids, and
-- the seconds of the time stamp.
pub record GotTransfer : Type 0 where
  pub txid : Bytes
  pub amount : ℕ
  pub height : TransferHeight
  pub payment_id : Bytes
  pub timestamp : ℤ

-- `i64::try_from(u64)`, with the error of the call.
unfoldable pub amount_of : ℕ → Result MonitorError ℤ
amount_of pico = if leb pico i64_max then ok (pos pico) else err (rpc (codes "amount overflow"))

abbrev pub height_of : TransferHeight → Option ℤ
height_of (confirmed h) = some (as_i64 h)
height_of in_pool = none

-- The match on the parsed payment id.
abbrev pub valid_text : Bytes → Result PidFormatError PaymentId → Result MonitorError (Option Bytes)
valid_text hex (ok _) = ok (some hex)
valid_text hex (err _) = ok none
valid_text hex panic = panic

module _ (c : Codec) where
  unfoldable pub convert_transfer : GotTransfer → Result MonitorError (Option TransferEntry)
  unfolding amount_of
  convert_transfer transfer = and_then (amount_of transfer.amount) (λ amount.
      and_then (valid_text transfer.payment_id (parse_pid c transfer.payment_id)) (λ payment_id.
        ok (
          some (record {
            txid = transfer.txid;
            amount = amount;
            height = height_of transfer.height;
            timestamp = as_u64 transfer.timestamp;
            payment_id = payment_id;
          }))))

  -- The loop of `fetch_transfers` over the transfers that came in.
  unfoldable pub convert_all : List GotTransfer → Result MonitorError (List TransferEntry)
  unfolding convert_transfer
  convert_all [] = ok []
  convert_all (t ∷ incoming) = and_then (convert_transfer t) (λ converted.
      and_then (convert_all incoming)
        (λ entries. elim converted [ some entry ↦ ok (entry ∷ entries) | none ↦ ok entries ]))
