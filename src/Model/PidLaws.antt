-- ===== src/Model/PidLaws.antt =====
-- What parsing and printing payment ids guarantee.
use anon_ticket.Base.{
  ◌≡◌, ◌≢◌, true, false, ◌⊎◌, inl, inr, map, Bytes, ok, err, all, length, arith, Bool-cases, ◌==◌,
}
use anon_ticket.Model.Hex.{Codec, IsCodec, is_ascii_hexdigit, to_ascii_lowercase}
use anon_ticket.Model.Pid.{
  wrong_length, non_hex, PaymentId, IsPid, new_pid, parse_pid, pid_to_hex, pid_try_from,
}

new_pid_of_decode :
    (c : Codec) (s b : Bytes)
    → c.hex_decode s ≡ ok b
    → length b ≡ 8
    → new_pid c s ≡ ok (record { bytes = b })
unfolding new_pid
new_pid_of_decode c s b decoded eight = ground arith

module _ (c : Codec) (codec : IsCodec c) where
  IsPid-of_digits :
      (s : Bytes)
      → length s ≡ 16
      → all is_ascii_hexdigit s ≡ true
      → (p : PaymentId) × (parse_pid c s ≡ ok p)
        × IsPid p
        × (pid_to_hex c p ≡ map to_ascii_lowercase s)
  unfolding parse_pid pid_to_hex
  IsPid-of_digits s long digits =
      let (b, decoded, eight, bytes, same) = codec.decode_digits s 8 long digits in
      (
        record { bytes = b },
        rw (long, digits) (new_pid_of_decode c s b decoded eight),
        (eight, bytes),
        same,
      )

  -- Every text is refused for its length, refused for a character that is no hex digit, or parsed
  -- to a payment id of eight bytes that prints as the text in lower case; parsing never panics.
  pub parse_pid_cases :
      (s : Bytes)
      → ((length s ≢ 16) × (parse_pid c s ≡ err wrong_length))
        ⊎ ((length s ≡ 16) × (all is_ascii_hexdigit s ≡ false) × (parse_pid c s ≡ err non_hex))
        ⊎ ((p : PaymentId) × (parse_pid c s ≡ ok p)
            × IsPid p
            × (pid_to_hex c p ≡ map to_ascii_lowercase s))
  parse_pid_cases s = elim (Bool-cases (length s == 16)) [
    | inl long ↦ elim (Bool-cases (all is_ascii_hexdigit s)) [
      | inl digits ↦ inr (inr (IsPid-of_digits s (ground arith) digits))
      | inr other ↦ inr (inl (ground arith, other, unfold parse_pid in rw (long, other)))
    ]
    | inr short ↦ inl (ground arith, unfold parse_pid in rw short)
  ]

  -- A payment id printed and parsed again is the same payment id.
  pub parse_pid-pid_to_hex : (p : PaymentId) → IsPid p → parse_pid c (pid_to_hex c p) ≡ ok p
  unfolding parse_pid pid_to_hex
  parse_pid-pid_to_hex p (eight, bytes) =
      rw (codec.length_encode p.bytes, eight, codec.encode_digits p.bytes bytes)
        (new_pid_of_decode c _ p.bytes (codec.decode_encode p.bytes bytes) eight)

  pub pid_to_hex-injective :
      (p q : PaymentId) → IsPid p → IsPid q → pid_to_hex c p ≡ pid_to_hex c q → p ≡ q
  pid_to_hex-injective p q hp hq e = cc (parse_pid-pid_to_hex p hp, parse_pid-pid_to_hex q hq)

  -- A payment id that parsing yields has eight bytes.
  pub parse_pid-IsPid : (s : Bytes) (p : PaymentId) → parse_pid c s ≡ ok p → IsPid p
  parse_pid-IsPid s p e = elim (parse_pid_cases s) [
    | inl (_, refused) ↦ absurd (cc)
    | inr (inl (_, _, refused)) ↦ absurd (cc)
    | inr (inr (q, parsed, valid, _)) ↦ let same : q ≡ p = cc in rw same at valid
  ]

-- The stored bytes of a payment id are read back as that payment id.
pub pid_try_from_bytes : (p : PaymentId) → IsPid p → pid_try_from p.bytes ≡ ok p
unfolding pid_try_from
pid_try_from_bytes p (eight, _) = rw eight
