-- ===== src/Tests/Tokens.antt =====
-- The theorems that speak of requests for tokens, and of requests that are turned away.
use anon_ticket.Base.{pos, ◌≡◌, ◌≢◌, refl, none, some, List, [], ◌∷◌, Bytes, ok}
use anon_ticket.Model.{parse_token, token_to_hex}
use anon_ticket.Model.TokenLaws.{parse_token-token_to_hex}
use anon_ticket.Database.{TokenModel}
use anon_ticket.Env.{World}
use anon_ticket.Ledger.Growth.{KeepsPayment}
use anon_ticket.Storage.Moves.{tables_of}
use anon_ticket.Storage.Runs.{token_record_of}
use anon_ticket.Api.{
  RevokeRequest, token_status_handler, revoke_token_handler, token_response, revoked,
}
use anon_ticket.Api.TokenAnswers.{revoke_token_handler-revoked}
use anon_ticket.System.{Event, perform_all, perform_all-KeepsPayment, revoked_for_good}
use anon_ticket.Tests.Hex.{plain_codec, plain_codec-IsCodec}
use anon_ticket.Tests.Setting.{
  small_env, process_over, memory_engine-IsEngine, memory_engine-IsReliable,
}
use anon_ticket.Tests.Ledger.{some_pid, some_text, some_pid-IsPid, unclaimed_row}
use anon_ticket.Tests.Codes.{a_token, a_token-IsToken}

abbrev pub token_text : Bytes
token_text = token_to_hex plain_codec a_token

token_text-parses : parse_token plain_codec token_text ≡ ok a_token
token_text-parses = parse_token-token_to_hex plain_codec plain_codec-IsCodec a_token a_token-IsToken

abbrev revoked_row : TokenModel
revoked_row = record {
  token = a_token.bytes;
  pid = some_pid.bytes;
  amount = pos 5;
  issued_at = pos 7;
  revoked_at = some (pos 8);
  revoke_reason = none;
  abuse_score = pos 0;
}

abbrev pub revoked_process : World small_env
revoked_process =
    process_over
      (record { payments = unclaimed_row ∷ []; tokens = revoked_row ∷ []; monitor_state = [] })
      (some_pid.bytes ∷ [])

abbrev pub no_reason : RevokeRequest
no_reason = record { reason = none; abuse_score = some (pos 3) }

abbrev later_events : List Event
later_events = Event.redeem some_text ∷ Event.revoke token_text no_reason ∷ []

is_revoked : revoked_row.revoked_at ≢ none
is_revoked e = cc

revoked_for_good_example :
    (s : TokenModel) × (s.amount ≡ pos 5)
    × ((token_status_handler small_env token_text
          (perform_all small_env later_events revoked_process)).0
        ≡ ok (token_response revoked (token_record_of some_pid a_token s)))
revoked_for_good_example =
    revoked_for_good small_env plain_codec-IsCodec memory_engine-IsEngine memory_engine-IsReliable
      token_text a_token some_pid revoked_row later_events revoked_process token_text-parses
      some_pid-IsPid refl refl is_revoked

revoke_token_handler-revoked_example :
    ((revoke_token_handler small_env token_text no_reason revoked_process).0
      ≡ ok (token_response revoked (token_record_of some_pid a_token revoked_row)))
    × (tables_of small_env (revoke_token_handler small_env token_text no_reason revoked_process).1
        ≡ tables_of small_env revoked_process)
revoke_token_handler-revoked_example =
    revoke_token_handler-revoked small_env plain_codec-IsCodec memory_engine-IsEngine
      memory_engine-IsReliable token_text a_token revoked_process token_text-parses some_pid
      some_pid-IsPid revoked_row refl refl no_reason is_revoked

perform_all-KeepsPayment_example :
    KeepsPayment
      (tables_of small_env (perform_all small_env later_events revoked_process))
      some_pid.bytes
      unclaimed_row
perform_all-KeepsPayment_example =
    perform_all-KeepsPayment small_env plain_codec-IsCodec memory_engine-IsEngine later_events
      revoked_process some_pid.bytes unclaimed_row refl
