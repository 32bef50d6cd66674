-- ===== src/Model/Token.antt =====
-- Service tokens, and their derivation from a payment id and a transaction id.
use anon_ticket.Base.{
  ◌≡◌, not, ◌++◌, Bytes, Result, ok, err, and_then, map_err, All, all, IsByte, length, codes, ◌==◌,
  if◌then◌else◌,
}
use anon_ticket.Model.Hex.{
  Codec, FromHexError, invalid_hex_character, invalid_string_length, odd_length, is_ascii_hexdigit,
}
use anon_ticket.Model.Pid.{PaymentId, pid_to_hex}

pub data TokenFormatError : Type 0 where
  wrong_length non_hex : TokenFormatError

-- `ServiceToken([u8; 32])`: a value of that type meets `IsToken`.
pub record ServiceToken : Type 0 where
  pub bytes : Bytes

abbrev pub IsToken : ServiceToken → Type 0
IsToken t = (length t.bytes ≡ 32) × All IsByte t.bytes

unfoldable pub validate_hex_64 : Bytes → Result TokenFormatError (Unit {0})
unfolding is_ascii_hexdigit
validate_hex_64 input =
    if not (length input == 64)
    then err wrong_length
    else if not (all is_ascii_hexdigit input)
    then err non_hex
    else ok tt

unfoldable pub map_hex_error_to_token : FromHexError → TokenFormatError
map_hex_error_to_token invalid_hex_character = non_hex
map_hex_error_to_token invalid_string_length = wrong_length
map_hex_error_to_token odd_length = non_hex

-- `TryFrom<Vec<u8>>`.
unfoldable pub token_try_from : Bytes → Result TokenFormatError ServiceToken
token_try_from value =
    if not (length value == 32) then err wrong_length else ok (record { bytes = value })

module _ (c : Codec) where
  unfoldable pub decode_token_hex : Bytes → Result TokenFormatError Bytes
  unfolding map_hex_error_to_token
  decode_token_hex token =
      and_then (map_err map_hex_error_to_token (c.hex_decode token))
        (λ bytes. if not (length bytes == 32) then err wrong_length else ok bytes)

  unfoldable pub parse_token : Bytes → Result TokenFormatError ServiceToken
  unfolding validate_hex_64 decode_token_hex
  parse_token hex =
      and_then (validate_hex_64 hex)
        (λ _. and_then (decode_token_hex hex) (λ bytes. ok (record { bytes = bytes })))

  unfoldable pub token_to_hex : ServiceToken → Bytes
  token_to_hex t = c.hex_encode t.bytes

  -- What `derive_service_token` feeds to the hasher.
  unfoldable pub token_seed : PaymentId → Bytes → Bytes
  unfolding pid_to_hex
  token_seed pid txid = pid_to_hex c pid ++ (codes "|" ++ txid)

  unfoldable pub derive_service_token : PaymentId → Bytes → ServiceToken
  derive_service_token pid txid = record { bytes = c.sha3_256 (token_seed pid txid) }

  unfoldable pub derive_pid_fingerprint : Bytes → Bytes
  derive_pid_fingerprint pid = c.hex_encode (c.sha3_256 pid)
