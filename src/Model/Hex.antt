-- ===== src/Model/Hex.antt =====
-- The crates `hex` and `sha3` as the model uses them: their functions are parameters, and what
-- their documentation promises is a record of hypotheses.
use anon_ticket.Base.{
  ℕ, ◌+◌, ◌≡◌, Bool, true, ◌&&◌, ◌||◌, map, Bytes, Result, ok, All, all, IsByte, length, leb,
  if◌then◌else◌,
}

-- `char::is_ascii_hexdigit`; no byte of a character outside ASCII passes it.
unfoldable pub is_ascii_hexdigit : ℕ → Bool
is_ascii_hexdigit c =
    (leb b'0' c && leb c b'9') || (leb b'a' c && leb c b'f') || (leb b'A' c && leb c b'F')

-- `char::to_ascii_lowercase`.
unfoldable pub to_ascii_lowercase : ℕ → ℕ
to_ascii_lowercase c = if leb b'A' c && leb c b'Z' then c + 32 else c

-- `hex::FromHexError`.
pub data FromHexError : Type 0 where
  invalid_hex_character odd_length invalid_string_length : FromHexError

-- The functions that are called: `hex::encode`, `hex::decode`, and SHA3-256 of all the bytes that
-- a hasher was fed.
pub record Codec : Type 0 where
  pub hex_encode : Bytes → Bytes
  pub hex_decode : Bytes → Result FromHexError Bytes
  pub sha3_256 : Bytes → Bytes

-- What the two crates document.
pub record IsCodec (c : Codec) : Type 0 where
  pub decode_encode : (b : Bytes) → All IsByte b → c.hex_decode (c.hex_encode b) ≡ ok b
  pub length_encode : (b : Bytes) → length (c.hex_encode b) ≡ length b + length b
  pub encode_digits : (b : Bytes) → All IsByte b → all is_ascii_hexdigit (c.hex_encode b) ≡ true
  -- Hex digits, of even number, decode to half as many bytes, which encode to the text in lower
  -- case.
  pub decode_digits :
      (s : Bytes) (n : ℕ)
      → length s ≡ n + n
      → all is_ascii_hexdigit s ≡ true
      → (b : Bytes) × (c.hex_decode s ≡ ok b)
        × (length b ≡ n)
        × All IsByte b
        × (c.hex_encode b ≡ map to_ascii_lowercase s)
  pub length_sha3 : (b : Bytes) → length (c.sha3_256 b) ≡ 32
  pub sha3_bytes : (b : Bytes) → All IsByte (c.sha3_256 b)
