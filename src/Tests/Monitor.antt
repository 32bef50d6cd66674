-- ===== src/Tests/Monitor.antt =====
-- The theorems of the monitor and of the start, applied to a batch of one transfer.
use anon_ticket.Base.{
  pos, ◌≤◌, ◌<◌, ◌≡◌, ◌≢◌, ◌⊎◌, refl, true, none, some, List, [], ◌∷◌, ◌++◌, All, codes, ok, err, ℕ,
  arith, as_u64, as_i64, saturating_add, unwrap_or, subst, ap,
}
use anon_ticket.Model.{validate_pid, new_pid, parse_pid, decode_pid_hex, is_ascii_hexdigit}
use anon_ticket.Database.{find, state_key, payment_key}
use anon_ticket.Services.{bloom_insert, mark_present}
use anon_ticket.Env.{World, query, counter}
use anon_ticket.Storage.{height_of, last_height_key, insert_payment, upsert_last_processed_height}
use anon_ticket.Storage.Moves.{tables_of}
use anon_ticket.Api.{map_option}
use anon_ticket.Monitor.{
  TransferEntry, TransfersResponse, GotTransfer, confirmed, in_pool, amount_of, convert_transfer,
  convert_all, MonitorHooks, hook_present, detected_at, persisted, persist, parsed_entry,
  store_entry, check_amount, with_parts, process_entry, observe, next_height_of, process_all,
  move_cursor, handle_batch,
}
use anon_ticket.Journey.{redeem_credited}
use anon_ticket.Ledger.Soundness.{empty-IsSound}
use anon_ticket.Api.RedeemBranches.{redeemed}
use anon_ticket.Database.{PaymentModel, PaymentStatusDb, sqlite}
use anon_ticket.Storage.{supported}
use anon_ticket.Api.{redeem_handler}
use anon_ticket.Tests.Ledger.{one_payment-HasNoCollision}
use anon_ticket.Tests.Setting.{memory_engine-IsReliable}
use anon_ticket.Config.{BootstrapConfig}
use anon_ticket.Monitor.Survival.{run_loop-survives}
use anon_ticket.Monitor.{Round, rpc, run_loop}
use anon_ticket.Monitor.Redeemable.{Qualifies}
use anon_ticket.Monitor.Cursor.{IsAbove, handle_batch_cursor}
use anon_ticket.Monitor.Conversion.{IsConverted, convert_all-IsConverted}
use anon_ticket.Tests.Hex.{plain_codec, plain_codec-IsCodec}
use anon_ticket.Tests.Setting.{small_env, process_over, memory_engine-IsEngine, listed-IsFilter}
use anon_ticket.Tests.Ledger.{some_pid, some_text, some_text-parses}

abbrev a_transfer : TransferEntry
a_transfer = record {
  txid = codes "tx";
  amount = pos 5;
  height = some (pos 100);
  timestamp = 3;
  payment_id = some some_text;
}

abbrev dust_transfer : TransferEntry
dust_transfer = record {
  txid = codes "dust";
  amount = pos 0;
  height = some (pos 99);
  timestamp = 3;
  payment_id = some some_text;
}

abbrev pub both_hints : MonitorHooks
both_hints = record { has_cache = true; has_bloom = true }

abbrev a_batch : TransfersResponse
a_batch = record { incoming = (dust_transfer ∷ []) ++ (a_transfer ∷ []) }

abbrev pub new_process : World small_env
new_process = process_over (record { payments = []; tokens = []; monitor_state = [] }) []

a_transfer-Qualifies : Qualifies small_env (pos 1) some_pid a_transfer
a_transfer-Qualifies = record {
  text = some_text;
  block = pos 100;
  has_id = refl;
  has_height = refl;
  enough = refl;
  parses = some_text-parses;
}

a_batch-handled :
    (handle_batch small_env a_batch (pos 1) 120 (some both_hints) new_process).0 ≡ ok 101
unfolding handle_batch process_all process_entry with_parts check_amount store_entry detected_at
    parsed_entry persist persisted hook_present insert_payment query counter move_cursor
    next_height_of saturating_add observe upsert_last_processed_height parse_pid validate_pid
    new_pid decode_pid_hex is_ascii_hexdigit as_u64 bloom_insert mark_present
a_batch-handled = refl

dust_height : 99 ≤ as_u64 (pos 99)
unfolding as_u64
dust_height = omega arith

paid_height : 99 ≤ as_u64 (pos 100)
unfolding as_u64
paid_height = omega arith

above : IsAbove 99 a_batch.incoming
above = (
  λ h e. subst (λ o. 99 ≤ unwrap_or o 99) (ap (λ o. map_option as_u64 o) e) dust_height,
  (λ h e. subst (λ o. 99 ≤ unwrap_or o 99) (ap (λ o. map_option as_u64 o) e) paid_height, tt),
)

handle_batch_cursor_example :
    (99 < 101)
    × (101 ≤ 121)
    × (height_of (
          find state_key last_height_key
            (tables_of small_env
              (handle_batch small_env a_batch
                (pos 1)
                120
                (some both_hints)
                new_process).1).monitor_state)
        ≡ some 101)
handle_batch_cursor_example =
    handle_batch_cursor small_env memory_engine-IsEngine a_batch (pos 1) 99 120 101
      (some both_hints) new_process above (omega arith) (omega arith) a_batch-handled

abbrev a_wallet : List GotTransfer
a_wallet =
    record {
      txid = codes "tx";
      amount = 5;
      height = confirmed 100;
      payment_id = some_text;
      timestamp = pos 3;
    }
    ∷ record {
      txid = codes "other";
      amount = 6;
      height = in_pool;
      payment_id = codes "none";
      timestamp = pos 4;
    }
    ∷ []

abbrev entries : List TransferEntry
entries =
    record {
      txid = codes "tx";
      amount = pos 5;
      height = some (pos 100);
      timestamp = 3;
      payment_id = some some_text;
    }
    ∷ record {
      txid = codes "other";
      amount = pos 6;
      height = none;
      timestamp = 4;
      payment_id = none;
    }
    ∷ []

a_wallet-converted : convert_all plain_codec a_wallet ≡ ok entries
unfolding convert_all convert_transfer amount_of parse_pid validate_pid new_pid decode_pid_hex
    is_ascii_hexdigit as_u64 as_i64
a_wallet-converted = refl

convert_all-IsConverted_example : All (IsConverted plain_codec) entries
convert_all-IsConverted_example =
    convert_all-IsConverted plain_codec a_wallet entries a_wallet-converted

abbrev five : ℕ
five = 5

-- A wallet that is away, one that then fails to answer, and one that reports a batch.
abbrev pub three_rounds : List Round
three_rounds =
    record { wallet_height = err (rpc (codes "away")); fetch_transfers = λ _ _. ok a_batch }
    ∷ record { wallet_height = ok 130; fetch_transfers = λ _ _. err (rpc (codes "late")) }
    ∷ record { wallet_height = ok 130; fetch_transfers = λ _ _. ok a_batch }
    ∷ []

abbrev pub monitor_config : BootstrapConfig
monitor_config = record {
  database_url = codes "sqlite://t.db";
  monero_rpc_url = codes "http://w";
  monitor_start_height = 99;
  monitor_min_payment_amount = pos 1;
  monitor_poll_interval_secs = 5;
  monitor_min_confirmations = 10;
}

run_loop-survives_example :
    (run_loop small_env monitor_config (some both_hints) three_rounds 99 new_process).0
    ≢ err (rpc (codes "late"))
run_loop-survives_example =
    run_loop-survives small_env monitor_config (some both_hints) (rpc (codes "late")) three_rounds
      99 new_process

abbrev pub credited_row : PaymentModel
credited_row = record {
  pid = some_pid.bytes;
  txid = codes "tx";
  amount = pos 5;
  block_height = pos 100;
  status = PaymentStatusDb.unclaimed;
  created_at = pos 3;
  claimed_at = none;
}

-- The process after the batch.
abbrev after_batch : World small_env
after_batch = (handle_batch small_env a_batch (pos 1) 120 (some both_hints) new_process).1

after_batch-payments : (tables_of small_env after_batch).payments ≡ credited_row ∷ []
unfolding handle_batch process_all process_entry with_parts check_amount store_entry detected_at
    parsed_entry persist persisted hook_present insert_payment query counter move_cursor
    next_height_of saturating_add observe upsert_last_processed_height parse_pid validate_pid
    new_pid decode_pid_hex is_ascii_hexdigit as_u64 as_i64 bloom_insert mark_present
after_batch-payments = refl

sqlite_serves : supported sqlite ≡ ok tt
unfolding supported
sqlite_serves = refl

redeem_credited_example :
    (p : PaymentModel) × (find payment_key some_pid.bytes (tables_of small_env after_batch).payments
      ≡ some p)
    × (((redeem_handler small_env some_text after_batch).0
          ≡ ok (redeemed small_env (codes "success") some_pid p))
        ⊎ ((redeem_handler small_env some_text after_batch).0
            ≡ ok (redeemed small_env (codes "already_claimed") some_pid p)))
redeem_credited_example =
    redeem_credited small_env plain_codec-IsCodec memory_engine-IsEngine memory_engine-IsReliable
      listed-IsFilter (dust_transfer ∷ []) a_transfer [] (pos 1) 120 101 both_hints some_pid
      some_text new_process after_batch a_transfer-Qualifies refl
      (ap (λ r. (r, after_batch)) a_batch-handled) some_text-parses sqlite_serves
      (empty-IsSound plain_codec)
      (one_payment-HasNoCollision (tables_of small_env after_batch) credited_row
        after_batch-payments)
