-- ===== src/Tests/Ledger.antt =====
-- The theorems of the ledger and of redemption, applied to a ledger of one payment.
use anon_ticket.Base.{
  ℤ, pos, ◌≡◌, ◌≢◌, refl, sym, subst, ◌∙◌, false, Option, none, some, List, [], ◌∷◌, Bytes, codes,
  ok, arith, bytes_eq_iff,
}
use anon_ticket.Model.{
  PaymentId, IsPid, ClaimOutcome, validate_pid, new_pid, parse_pid, decode_pid_hex,
  is_ascii_hexdigit, pid_try_from,
}
use anon_ticket.Model.PidLaws.{parse_pid-IsPid}
use anon_ticket.Database.{Tables, PaymentModel, PaymentStatusDb, sqlite, find, payment_key}
use anon_ticket.Services.{might_contain}
use anon_ticket.Env.{World, query, utc_now}
use anon_ticket.Ledger.Soundness.{IsSound}
use anon_ticket.Storage.{
  claim_payment, supported, build_query, claim_row, claim_outcome, stored_pid,
}
use anon_ticket.Storage.Moves.{tables_of}
use anon_ticket.Api.{redeem_handler, hint_of}
use anon_ticket.Api.RedeemBranches.{HasNoCollision, redeemed}
use anon_ticket.Api.RedeemAnswers.{redeem_handler-unclaimed, redeem_handler-claimed}
use anon_ticket.System.{Event, perform_all, perform_all-IsSound, claim_payment_once}
use anon_ticket.Tests.Hex.{plain_codec, plain_codec-IsCodec}
use anon_ticket.Tests.Setting.{
  small_env, process_over, memory_engine-IsEngine, memory_engine-IsReliable,
}

abbrev pub some_pid : PaymentId
some_pid = record { bytes = 1 ∷ 2 ∷ 3 ∷ 4 ∷ 5 ∷ 6 ∷ 7 ∷ 255 ∷ [] }

abbrev pub some_text : Bytes
some_text = codes "01020304050607fF"

abbrev pub row : PaymentStatusDb → Option ℤ → PaymentModel
row status at = record {
  pid = some_pid.bytes;
  txid = codes "tx";
  amount = pos 5;
  block_height = pos 100;
  status = status;
  created_at = pos 1;
  claimed_at = at;
}

abbrev pub unclaimed_row : PaymentModel
unclaimed_row = row PaymentStatusDb.unclaimed none

abbrev pub claimed_row : PaymentModel
claimed_row = row PaymentStatusDb.claimed (some (pos 7))

abbrev pub ledger_of : PaymentModel → Tables
ledger_of p = record { payments = p ∷ []; tokens = []; monitor_state = [] }

abbrev pub process_of : PaymentModel → World small_env
process_of p = process_over (ledger_of p) (some_pid.bytes ∷ [])

only_row :
    (p q : PaymentModel) (k : Bytes) → find payment_key k (p ∷ []) ≡ some q → (p ≡ q) × (p.pid ≡ k)
only_row p q k e = ground (arith, bytes_eq_iff p.pid k)

pub ledger_of-IsSound :
    (p : PaymentModel) → IsPid (record { bytes = p.pid }) → IsSound plain_codec (ledger_of p)
ledger_of-IsSound p valid = record {
  pids = λ k q e.
      let (same, _) = only_row p q k e in subst (λ x. IsPid (record { bytes = x.pid })) same valid;
  backed = λ k r e. absurd (cc);
}

pub one_payment-HasNoCollision :
    (t : Tables) (p : PaymentModel) → t.payments ≡ p ∷ [] → HasNoCollision plain_codec t
one_payment-HasNoCollision t p one j k q r e f _ =
    let (_, first) = only_row p q j (subst (λ l. find payment_key j l ≡ some q) one e) in
    let (_, second) = only_row p r k (subst (λ l. find payment_key k l ≡ some r) one f) in
    sym first ∙ second

pub some_text-parses : parse_pid plain_codec some_text ≡ ok some_pid
unfolding parse_pid validate_pid new_pid decode_pid_hex is_ascii_hexdigit
some_text-parses = refl

pub some_pid-IsPid : IsPid some_pid
some_pid-IsPid = parse_pid-IsPid plain_codec plain_codec-IsCodec some_text some_pid some_text-parses

abbrev pub outcome : ClaimOutcome
outcome = record {
  pid = some_pid;
  txid = codes "tx";
  amount = pos 5;
  block_height = pos 100;
  claimed_at = pos 0;
}

pub first_claim :
    (claim_payment small_env some_pid (process_of unclaimed_row)).0 ≡ ok (some outcome)
unfolding claim_payment supported build_query claim_row claim_outcome stored_pid query utc_now
    pid_try_from
first_claim = refl

admitted : (p : PaymentModel) → hint_of small_env some_pid (process_of p) ≢ some false
unfolding might_contain
admitted p e = cc

pub usable : supported sqlite ≡ ok tt
unfolding supported
usable = refl

abbrev a_day : List Event
a_day = Event.redeem some_text ∷ Event.redeem some_text ∷ Event.token_status some_text ∷ []

claim_payment_once_example :
    (claim_payment small_env some_pid (
      perform_all small_env a_day
        (claim_payment small_env some_pid (process_of unclaimed_row)).1)).0
    ≢ ok (some outcome)
claim_payment_once_example =
    claim_payment_once small_env plain_codec-IsCodec memory_engine-IsEngine some_pid a_day
      (process_of unclaimed_row) outcome outcome first_claim

perform_all-IsSound_example :
    IsSound plain_codec
      (tables_of small_env (perform_all small_env a_day (process_of unclaimed_row)))
perform_all-IsSound_example =
    perform_all-IsSound small_env plain_codec-IsCodec memory_engine-IsEngine a_day
      (process_of unclaimed_row) (ledger_of-IsSound unclaimed_row some_pid-IsPid)

redeem_handler-unclaimed_example :
    (redeem_handler small_env some_text (process_of unclaimed_row)).0
    ≡ ok (redeemed small_env (codes "success") some_pid unclaimed_row)
redeem_handler-unclaimed_example =
    redeem_handler-unclaimed small_env plain_codec-IsCodec memory_engine-IsEngine
      memory_engine-IsReliable some_text some_pid unclaimed_row (process_of unclaimed_row)
      some_text-parses (admitted unclaimed_row) usable
      (ledger_of-IsSound unclaimed_row some_pid-IsPid)
      (one_payment-HasNoCollision (ledger_of unclaimed_row) unclaimed_row refl) refl refl

redeem_handler-claimed_example :
    (redeem_handler small_env some_text (process_of claimed_row)).0
    ≡ ok (redeemed small_env (codes "already_claimed") some_pid claimed_row)
redeem_handler-claimed_example =
    redeem_handler-claimed small_env plain_codec-IsCodec memory_engine-IsEngine
      memory_engine-IsReliable some_text some_pid claimed_row (process_of claimed_row)
      some_text-parses (admitted claimed_row) usable (ledger_of-IsSound claimed_row some_pid-IsPid)
      (one_payment-HasNoCollision (ledger_of claimed_row) claimed_row refl) refl refl
