-- ===== src/Monitor/Pipeline.antt =====
-- crates/monitor/src/pipeline.rs, and `MonitorHooks` of crates/monitor/src/worker.rs.
use anon_ticket.Base.{
  ℕ, ℤ, Bool, true, false, Option, none, some, [], ◌∷◌, String, Bytes, Result, ok, err, panic,
  Action, ◌>>=◌, ◌>>◌, from_result, pure, lift_err, ltb_ℤ, as_i64, if◌then◌else◌,
}
use anon_ticket.Model.{PaymentId, PidFormatError, NewPayment, Timestamp, parse_pid}
use anon_ticket.Services.{mark_present, bloom_insert}
use anon_ticket.Env.{Env, World, utc_now, counter}
use anon_ticket.Storage.{insert_payment}
use anon_ticket.Monitor.Rpc.{MonitorError, storage, TransferEntry}

-- Which of the hint structures the hooks hold.
pub record MonitorHooks : Type 0 where
  pub has_cache : Bool
  pub has_bloom : Bool

-- The payment that an entry describes.
abbrev pub new_payment : TransferEntry → ℤ → Timestamp → PaymentId → NewPayment
new_payment entry height at pid = record {
  pid = pid;
  txid = entry.txid;
  amount = entry.amount;
  block_height = height;
  detected_at = at;
}

module _ (env : Env) where
  abbrev count_ingested : {E : Type 0} → String → Action (World env) E (Unit {0})
  count_ingested result = counter env "monitor_payments_ingested_total" (("result", result) ∷ [])

  -- `MonitorHooks::mark_present` on the structures that the process shares.
  unfoldable pub hook_present : Option MonitorHooks → PaymentId → World env → World env
  hook_present none pid w = w
  hook_present (some hooks) pid w = record w {
    cache = if hooks.has_cache then mark_present env.floats env.hints pid w.cache else w.cache;
    bloom =
        if hooks.has_bloom
        then elim w.bloom [ none ↦ none | some b ↦ some (bloom_insert env.floats env.hints pid b) ]
        else w.bloom;
  }

  abbrev pub read_or_now : Option Timestamp → Action (World env) MonitorError Timestamp
  read_or_now (some at) = pure at
  read_or_now none = utc_now env

  -- `DateTime::from_timestamp(…).unwrap_or_else(Utc::now)`.
  unfoldable pub detected_at : ℕ → Action (World env) MonitorError Timestamp
  unfolding utc_now
  detected_at seconds = read_or_now (env.from_timestamp (as_i64 seconds))

  -- After the insertion.
  unfoldable pub persisted :
      Option MonitorHooks → PaymentId → Unit {0} → Action (World env) MonitorError Bool
  unfolding hook_present counter
  persisted hooks pid _ w = (count_ingested "persisted" >> pure true) (hook_present hooks pid w)

  unfoldable pub persist :
      TransferEntry
      → ℤ
      → Option MonitorHooks
      → Timestamp
      → PaymentId
      → Action (World env) MonitorError Bool
  unfolding insert_payment persisted
  persist entry height hooks at pid =
      lift_err storage (insert_payment env (new_payment entry height at pid))
      >>= persisted hooks pid

  -- The match on the parsed payment id.
  unfoldable pub parsed_entry :
      TransferEntry
      → ℤ
      → Option MonitorHooks
      → Timestamp
      → Result PidFormatError PaymentId
      → Action (World env) MonitorError Bool
  unfolding counter persist
  parsed_entry entry height hooks at (ok pid) = persist entry height hooks at pid
  parsed_entry entry height hooks at (err _) = count_ingested "invalid_pid" >> pure false
  parsed_entry entry height hooks at panic = from_result panic

  -- An entry of at least the minimal amount.
  unfoldable pub store_entry :
      TransferEntry → ℤ → Bytes → Option MonitorHooks → Action (World env) MonitorError Bool
  unfolding detected_at parse_pid parsed_entry
  store_entry entry height pid hooks = do
    at ← detected_at entry.timestamp
    parsed_entry entry height hooks at (parse_pid env.codec pid)

  -- An entry with a payment id and a height.
  unfoldable pub check_amount :
      TransferEntry → ℤ → Bytes → ℤ → Option MonitorHooks → Action (World env) MonitorError Bool
  unfolding counter store_entry
  check_amount entry height pid min_payment_amount hooks =
      if ltb_ℤ entry.amount min_payment_amount
      then count_ingested "dust" >> pure false
      else store_entry entry height pid hooks

  unfoldable pub with_parts :
      TransferEntry
      → Option Bytes
      → Option ℤ
      → ℤ
      → Option MonitorHooks
      → Action (World env) MonitorError Bool
  unfolding check_amount
  with_parts entry (some pid) (some height) min_payment_amount hooks =
      check_amount entry height pid min_payment_amount hooks
  with_parts entry (some _) none min_payment_amount hooks = pure false
  with_parts entry none _ min_payment_amount hooks = pure false

  unfoldable pub process_entry :
      TransferEntry → ℤ → Option MonitorHooks → Action (World env) MonitorError Bool
  unfolding with_parts
  process_entry entry min_payment_amount hooks =
      with_parts entry entry.payment_id entry.height min_payment_amount hooks
