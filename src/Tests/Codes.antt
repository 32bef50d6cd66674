-- ===== src/Tests/Codes.antt =====
-- The theorems of payment ids and service tokens, applied to a plain codec.
use anon_ticket.Base.{◌≡◌, ◌≢◌, ◌⊎◌, refl, false, ◌++◌, map, codes, ok, err, length, all, arith}
use anon_ticket.Model.{
  PaymentId, PidFormatError, IsPid, ServiceToken, TokenFormatError, IsToken, is_ascii_hexdigit,
  to_ascii_lowercase, parse_pid, pid_to_hex, parse_token, token_to_hex,
}
use anon_ticket.Model.PidLaws.{parse_pid_cases, parse_pid-pid_to_hex}
use anon_ticket.Model.TokenLaws.{parse_token_cases, parse_token-token_to_hex, token_seed-injective}
use anon_ticket.Tests.Hex.{plain_codec, plain_codec-IsCodec, repeat, repeat-IsByte}
use anon_ticket.Tests.Ledger.{some_pid, some_text, some_pid-IsPid}

parse_pid_cases_example :
    ((length some_text ≢ 16) × (parse_pid plain_codec some_text ≡ err PidFormatError.wrong_length))
    ⊎ ((length some_text ≡ 16)
        × (all is_ascii_hexdigit some_text ≡ false)
        × (parse_pid plain_codec some_text ≡ err PidFormatError.non_hex))
    ⊎ ((p : PaymentId) × (parse_pid plain_codec some_text ≡ ok p)
        × IsPid p
        × (pid_to_hex plain_codec p ≡ map to_ascii_lowercase some_text))
parse_pid_cases_example = parse_pid_cases plain_codec plain_codec-IsCodec some_text

parse_pid-pid_to_hex_example : parse_pid plain_codec (pid_to_hex plain_codec some_pid) ≡ ok some_pid
parse_pid-pid_to_hex_example =
    parse_pid-pid_to_hex plain_codec plain_codec-IsCodec some_pid some_pid-IsPid

parse_token_cases_example :
    ((length some_text ≢ 64)
      × (parse_token plain_codec some_text ≡ err TokenFormatError.wrong_length))
    ⊎ ((length some_text ≡ 64)
        × (all is_ascii_hexdigit some_text ≡ false)
        × (parse_token plain_codec some_text ≡ err TokenFormatError.non_hex))
    ⊎ ((t : ServiceToken) × (parse_token plain_codec some_text ≡ ok t)
        × IsToken t
        × (token_to_hex plain_codec t ≡ map to_ascii_lowercase some_text))
parse_token_cases_example = parse_token_cases plain_codec plain_codec-IsCodec some_text

abbrev pub a_token : ServiceToken
a_token = record { bytes = repeat 7 32 }

pub a_token-IsToken : IsToken a_token
a_token-IsToken = (refl, repeat-IsByte 7 32 (omega arith))

parse_token-token_to_hex_example :
    parse_token plain_codec (token_to_hex plain_codec a_token) ≡ ok a_token
parse_token-token_to_hex_example =
    parse_token-token_to_hex plain_codec plain_codec-IsCodec a_token a_token-IsToken

token_seed-injective_example : (some_pid ≡ some_pid) × (codes "a|" ++ codes "b" ≡ codes "a|b")
token_seed-injective_example =
    token_seed-injective plain_codec plain_codec-IsCodec some_pid some_pid (codes "a|" ++ codes "b")
      (codes "a|b") some_pid-IsPid some_pid-IsPid refl
