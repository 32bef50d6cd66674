-- ===== src/Model/Pid.antt =====
-- Payment ids: `validate_pid`, `decode_pid_hex` and `PaymentId`.
use anon_ticket.Base.{
  ℕ, ◌≡◌, not, Bytes, Result, ok, err, panic, and_then, map_err, All, all, IsByte, length, ◌==◌,
  if◌then◌else◌,
}
use anon_ticket.Model.Hex.{
  Codec, FromHexError, invalid_hex_character, invalid_string_length, odd_length, is_ascii_hexdigit,
}

abbrev pub pid_length : ℕ
pid_length = 16

pub data PidFormatError : Type 0 where
  wrong_length non_hex : PidFormatError

unfoldable pub validate_pid : Bytes → Result PidFormatError (Unit {0})
unfolding is_ascii_hexdigit
validate_pid pid =
    if not (length pid == pid_length)
    then err wrong_length
    else if not (all is_ascii_hexdigit pid)
    then err non_hex
    else ok tt

unfoldable pub map_hex_error_to_pid : FromHexError → PidFormatError
map_hex_error_to_pid invalid_hex_character = non_hex
map_hex_error_to_pid invalid_string_length = wrong_length
map_hex_error_to_pid odd_length = non_hex

-- `PaymentId([u8; 8])`: a value of that type meets `IsPid`.
pub record PaymentId : Type 0 where
  pub bytes : Bytes

abbrev pub IsPid : PaymentId → Type 0
IsPid p = (length p.bytes ≡ 8) × All IsByte p.bytes

-- `TryFrom<Vec<u8>>`.
unfoldable pub pid_try_from : Bytes → Result PidFormatError PaymentId
pid_try_from value =
    if not (length value == 8) then err wrong_length else ok (record { bytes = value })

module _ (c : Codec) where
  unfoldable pub decode_pid_hex : Bytes → Result PidFormatError Bytes
  unfolding map_hex_error_to_pid
  decode_pid_hex pid =
      and_then (map_err map_hex_error_to_pid (c.hex_decode pid))
        (λ bytes. if not (length bytes == 8) then err wrong_length else ok bytes)

  -- `expect` on the decoded bytes.
  unfoldable pub new_pid : Bytes → Result PidFormatError PaymentId
  unfolding decode_pid_hex
  new_pid hex = elim (decode_pid_hex hex) [
    | ok bytes ↦ ok (record { bytes = bytes })
    | err _ ↦ panic
    | panic ↦ panic
  ]

  unfoldable pub parse_pid : Bytes → Result PidFormatError PaymentId
  unfolding validate_pid new_pid
  parse_pid pid = and_then (validate_pid pid) (λ _. new_pid pid)

  unfoldable pub pid_to_hex : PaymentId → Bytes
  pid_to_hex p = c.hex_encode p.bytes

  -- `PaymentId::generate`: what the source of entropy fills in, or its error.
  unfoldable pub generate_pid : {E : Type 0} → Result E Bytes → Result E PaymentId
  generate_pid entropy = and_then entropy (λ bytes. ok (record { bytes = bytes }))
