-- ===== src/Tests/Follow.antt =====
-- The theorem on the whole run of the monitor, applied to three rounds of a wallet.
use anon_ticket.Base.{◌≡◌, refl, some, as_u64, as_i64, saturating_add, saturating_sub}
use anon_ticket.Model.{validate_pid, new_pid, parse_pid, decode_pid_hex, is_ascii_hexdigit}
use anon_ticket.Database.{find, payment_key}
use anon_ticket.Services.{bloom_insert, mark_present}
use anon_ticket.Env.{World, query, counter}
use anon_ticket.Storage.{insert_payment, upsert_last_processed_height}
use anon_ticket.Storage.Moves.{tables_of}
use anon_ticket.Monitor.{
  hook_present, detected_at, persisted, persist, parsed_entry, store_entry, check_amount,
  with_parts, process_entry, observe, next_height_of, process_all, move_cursor, handle_batch,
}
use anon_ticket.Tests.Setting.{memory_engine-IsReliable}
use anon_ticket.Monitor.{run_loop, loop_round, poll, monitor_tick, fetched_batch, safe_height_of}
use anon_ticket.Monitor.Admitted.{run_loop-Admits}
use anon_ticket.Monitor.Hints.{Admits}
use anon_ticket.Tests.Hex.{plain_codec-IsCodec}
use anon_ticket.Tests.Setting.{small_env, memory_engine-IsEngine, listed-IsFilter}
use anon_ticket.Tests.Ledger.{some_pid}
use anon_ticket.Tests.Monitor.{three_rounds, monitor_config, both_hints, new_process, credited_row}

abbrev followed : World small_env
followed = (run_loop small_env monitor_config (some both_hints) three_rounds 99 new_process).1

followed-payments :
    find payment_key some_pid.bytes (tables_of small_env followed).payments ≡ some credited_row
unfolding run_loop loop_round poll monitor_tick fetched_batch safe_height_of handle_batch
    process_all process_entry with_parts check_amount store_entry detected_at parsed_entry persist
    persisted hook_present insert_payment query counter move_cursor next_height_of saturating_add
    saturating_sub observe upsert_last_processed_height parse_pid validate_pid new_pid
    decode_pid_hex is_ascii_hexdigit as_u64 as_i64 bloom_insert mark_present
followed-payments = refl

run_loop-Admits_example : Admits small_env some_pid followed
run_loop-Admits_example =
    run_loop-Admits small_env plain_codec-IsCodec memory_engine-IsEngine memory_engine-IsReliable
      listed-IsFilter both_hints refl some_pid monitor_config three_rounds 99 new_process
      credited_row (λ q absent. cc absent) followed-payments
