-- ===== src/Tests/Schedule.antt =====
-- The theorems on interleaved tasks, applied to two redemptions of one payment and a monitor.
use anon_ticket.Base.{none, map, ℕ, pos, ◌≡◌, ◌≢◌, refl, true, some, List, [], ◌∷◌, codes, ok, err}
use anon_ticket.Model.{to_ascii_lowercase, ClaimOutcome, pid_try_from, token_try_from}
use anon_ticket.Database.{PaymentStatusDb}
use anon_ticket.Env.{database, query, utc_now}
use anon_ticket.Ledger.{Steps}
use anon_ticket.Ledger.Soundness.{IsSound}
use anon_ticket.Storage.{
  claim_payment, supported, build_query, claim_row, claim_outcome, insert_token,
}
use anon_ticket.Storage.Moves.{tables_of}
use anon_ticket.Api.{storage, names_unique, hint_of, handle_success, redeem_handler}
use anon_ticket.System.{Event}
use anon_ticket.Concurrent.Schedule.{
  interleaved, interleaved-Steps, interleaved-IsSound, claim_payment_once_interleaved, resumed,
  run_schedule, job_of,
}
use anon_ticket.Concurrent.Redeem.{
  redeem_task, redeem_parsed_task, redeem_pid_task, after_claim_task, success_task,
}
use anon_ticket.Concurrent.Once.{answer, redeemed_once}
use anon_ticket.Concurrent.Overtake.{redeem_handler-overtakes}
use anon_ticket.Api.RedeemBranches.{redeemed}
use anon_ticket.Api.{build_redeem_response}
use anon_ticket.Services.{might_contain}
use anon_ticket.Tests.Hex.{plain_codec, plain_codec-IsCodec}
use anon_ticket.Tests.Setting.{broken, small_env, memory_engine-IsEngine, memory_engine-IsReliable}
use anon_ticket.Tests.Ledger.{
  some_pid, some_text, some_pid-IsPid, unclaimed_row, process_of, ledger_of-IsSound, outcome, row,
  usable, some_text-parses, one_payment-HasNoCollision,
}
use anon_ticket.Tests.Monitor.{three_rounds, monitor_config, both_hints}

abbrev two_redemptions : List Event
two_redemptions =
    Event.redeem some_text
    ∷ Event.redeem some_text
    ∷ Event.monitor monitor_config (some both_hints) three_rounds
    ∷ []

-- The first task claims, the second runs on, the monitor begins, the first ends.
abbrev overtaking : List ℕ
overtaking = 0 ∷ 0 ∷ 0 ∷ 1 ∷ 1 ∷ 1 ∷ 1 ∷ 2 ∷ 1 ∷ 1 ∷ 1 ∷ 2 ∷ 1 ∷ 1 ∷ 0 ∷ 0 ∷ []

interleaved-Steps_example : Steps plain_codec (tables_of small_env (process_of unclaimed_row)) (
    tables_of small_env
      (interleaved small_env overtaking two_redemptions (process_of unclaimed_row)))
interleaved-Steps_example =
    interleaved-Steps small_env plain_codec-IsCodec memory_engine-IsEngine overtaking
      two_redemptions (process_of unclaimed_row)

interleaved-IsSound_example : IsSound plain_codec (
    tables_of small_env
      (interleaved small_env overtaking two_redemptions (process_of unclaimed_row)))
interleaved-IsSound_example =
    interleaved-IsSound small_env plain_codec-IsCodec memory_engine-IsEngine overtaking
      two_redemptions (process_of unclaimed_row) (ledger_of-IsSound unclaimed_row some_pid-IsPid)

-- At that moment the monitor has begun, and one request is under way.
abbrev begun : List ℕ
begun = 2 ∷ 1 ∷ []

abbrev under_way : List Event
under_way =
    Event.monitor monitor_config (some both_hints) three_rounds ∷ Event.redeem some_text ∷ []

claimed_between :
    (claim_payment small_env some_pid
      (interleaved small_env begun under_way (process_of unclaimed_row))).0
    ≡ ok (some outcome)
unfolding run_schedule job_of claim_payment supported build_query claim_row claim_outcome query
    utc_now pid_try_from
claimed_between = refl

claim_payment_once_interleaved_example :
    (claim_payment small_env some_pid (
      resumed small_env begun overtaking under_way two_redemptions
        (process_of unclaimed_row)
        (claim_payment small_env some_pid
          (interleaved small_env begun under_way (process_of unclaimed_row))).1)).0
    ≢ ok (some outcome)
claim_payment_once_interleaved_example =
    claim_payment_once_interleaved small_env plain_codec-IsCodec memory_engine-IsEngine some_pid
      begun overtaking under_way two_redemptions (process_of unclaimed_row) outcome outcome
      claimed_between

-- The first request is answered while the second and the monitor are under way.
abbrev first_through : List ℕ
first_through = 1 ∷ 0 ∷ 0 ∷ 2 ∷ 0 ∷ 0 ∷ 0 ∷ 1 ∷ []

first_wins :
    map answer
      (run_schedule small_env first_through
        (map (job_of small_env) two_redemptions)
        (process_of unclaimed_row)).0
    ≡ some (codes "success") ∷ none ∷ none ∷ []
unfolding run_schedule job_of claim_payment supported build_query claim_row claim_outcome query
    utc_now pid_try_from redeem_task redeem_parsed_task redeem_pid_task after_claim_task
    success_task insert_token token_try_from build_redeem_response might_contain
first_wins = refl

redeemed_once_example :
    map answer
      (run_schedule small_env first_through
        (map (job_of small_env) (
          Event.redeem some_text
          ∷ Event.redeem some_text
          ∷ Event.monitor monitor_config (some both_hints) three_rounds
          ∷ []))
        (process_of unclaimed_row)).0
    ≢ some (codes "success") ∷ some (codes "success") ∷ none ∷ []
redeemed_once_example =
    redeemed_once small_env plain_codec-IsCodec memory_engine-IsEngine some_pid some_text some_text
      first_through (Event.monitor monitor_config (some both_hints) three_rounds ∷ [])
      (process_of unclaimed_row) (none ∷ []) some_text-parses some_text-parses

broken_is_unique : names_unique (database broken) ≡ true
unfolding names_unique to_ascii_lowercase
broken_is_unique = refl

after_claim_payments :
    (tables_of small_env (claim_payment small_env some_pid (process_of unclaimed_row)).1).payments
    ≡ row PaymentStatusDb.claimed (some (pos 0)) ∷ []
unfolding claim_payment supported build_query claim_row claim_outcome query utc_now pid_try_from
after_claim_payments = refl

still_admitted :
    hint_of small_env some_pid (claim_payment small_env some_pid (process_of unclaimed_row)).1
    ≡ some true
unfolding claim_payment supported build_query claim_row claim_outcome query utc_now might_contain
still_admitted = refl

redeem_handler-overtakes_example :
    (o : ClaimOutcome) × ((claim_payment small_env some_pid (process_of unclaimed_row)).0
      ≡ ok (some o))
    × ((redeem_handler small_env some_text
          (claim_payment small_env some_pid (process_of unclaimed_row)).1).0
        ≡ ok (redeemed small_env (codes "already_claimed") some_pid unclaimed_row))
    × ((handle_success small_env some_pid o
          (redeem_handler small_env some_text
            (claim_payment small_env some_pid (process_of unclaimed_row)).1).1).0
        ≡ err (storage (database broken)))
redeem_handler-overtakes_example =
    redeem_handler-overtakes small_env plain_codec-IsCodec memory_engine-IsEngine
      memory_engine-IsReliable some_text some_pid unclaimed_row (process_of unclaimed_row)
      some_text-parses (λ _. usable) (ledger_of-IsSound unclaimed_row some_pid-IsPid) refl refl
      (λ e. cc (e, still_admitted))
      (one_payment-HasNoCollision
        (tables_of small_env (claim_payment small_env some_pid (process_of unclaimed_row)).1)
        (row PaymentStatusDb.claimed (some (pos 0))) after_claim_payments)
      broken_is_unique
