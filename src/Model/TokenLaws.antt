-- ===== src/Model/TokenLaws.antt =====
-- What deriving, parsing and printing service tokens guarantee.
use anon_ticket.Base.{
  ◌≡◌, ◌≢◌, true, false, ◌⊎◌, inl, inr, map, Bytes, ok, err, all, length, arith, Bool-cases, ◌==◌,
  append-injective, codes, ◌++◌,
}
use anon_ticket.Model.Hex.{Codec, IsCodec, is_ascii_hexdigit, to_ascii_lowercase}
use anon_ticket.Model.Pid.{PaymentId, IsPid, pid_to_hex}
use anon_ticket.Model.PidLaws.{pid_to_hex-injective}
use anon_ticket.Model.Token.{
  wrong_length, non_hex, ServiceToken, IsToken, parse_token, token_to_hex, token_try_from,
  token_seed, derive_service_token,
}

module _ (c : Codec) (codec : IsCodec c) where
  IsToken-of_digits :
      (s : Bytes)
      → length s ≡ 64
      → all is_ascii_hexdigit s ≡ true
      → (t : ServiceToken) × (parse_token c s ≡ ok t)
        × IsToken t
        × (token_to_hex c t ≡ map to_ascii_lowercase s)
  unfolding parse_token token_to_hex
  IsToken-of_digits s long digits =
      let (b, decoded, size, bytes, same) = codec.decode_digits s 32 long digits in
      (record { bytes = b }, rw (long, digits, decoded, size), (size, bytes), same)

  -- Every text is refused for its length, refused for a character that is no hex digit, or parsed
  -- to a token of 32 bytes that prints as the text in lower case.
  pub parse_token_cases :
      (s : Bytes)
      → ((length s ≢ 64) × (parse_token c s ≡ err wrong_length))
        ⊎ ((length s ≡ 64) × (all is_ascii_hexdigit s ≡ false) × (parse_token c s ≡ err non_hex))
        ⊎ ((t : ServiceToken) × (parse_token c s ≡ ok t)
            × IsToken t
            × (token_to_hex c t ≡ map to_ascii_lowercase s))
  parse_token_cases s = elim (Bool-cases (length s == 64)) [
    | inl long ↦ elim (Bool-cases (all is_ascii_hexdigit s)) [
      | inl digits ↦ inr (inr (IsToken-of_digits s (ground arith) digits))
      | inr other ↦ inr (inl (ground arith, other, unfold parse_token in rw (long, other)))
    ]
    | inr short ↦ inl (ground arith, unfold parse_token in rw short)
  ]

  -- A token that parsing yields has 32 bytes.
  pub parse_token-IsToken : (s : Bytes) (t : ServiceToken) → parse_token c s ≡ ok t → IsToken t
  parse_token-IsToken s t e = elim (parse_token_cases s) [
    | inl (_, refused) ↦ absurd (cc)
    | inr (inl (_, _, refused)) ↦ absurd (cc)
    | inr (inr (u, parsed, valid, _)) ↦ let same : u ≡ t = cc in rw same at valid
  ]

  -- A token printed and parsed again is the same token.
  pub parse_token-token_to_hex :
      (t : ServiceToken) → IsToken t → parse_token c (token_to_hex c t) ≡ ok t
  unfolding parse_token token_to_hex
  parse_token-token_to_hex t (size, bytes) = rw (
    codec.length_encode t.bytes,
    size,
    codec.encode_digits t.bytes bytes,
    codec.decode_encode t.bytes bytes,
    size,
  )

  -- The text that is hashed for a token determines the payment id and the transaction id: two
  -- tokens can agree for different pairs only by a collision of the hash.
  pub token_seed-injective :
      (p q : PaymentId) (x y : Bytes)
      → IsPid p
      → IsPid q
      → token_seed c p x ≡ token_seed c q y
      → (p ≡ q) × (x ≡ y)
  unfolding token_seed
  token_seed-injective p q x y hp hq e =
      let long : length (pid_to_hex c p) ≡ length (pid_to_hex c q) =
        unfold pid_to_hex in
        omega (arith, codec.length_encode p.bytes, codec.length_encode q.bytes) in
      let (hex, rest) =
        append-injective (pid_to_hex c p) (pid_to_hex c q) (codes "|" ++ x) (codes "|" ++ y) long
          e in
      (pid_to_hex-injective c codec p q hp hq hex, cc rest)

  -- A derived token has 32 bytes.
  pub derive_service_token-IsToken :
      (p : PaymentId) (x : Bytes) → IsToken (derive_service_token c p x)
  unfolding derive_service_token
  derive_service_token-IsToken p x = (codec.length_sha3 _, codec.sha3_bytes _)

-- The stored bytes of a token are read back as that token.
pub token_try_from_bytes : (t : ServiceToken) → IsToken t → token_try_from t.bytes ≡ ok t
unfolding token_try_from
token_try_from_bytes t (size, _) = rw size
