-- ===== src/Tests/Hex.antt =====
-- A hex codec and a checksum of 32 bytes, which meet what is asked of the crates.
use anon_ticket.Base.{
  ℕ, zero, suc, ◌+◌, ◌-◌, ◌*◌, ◌/◌, ◌%◌, ◌<◌, ◌≡◌, refl, ◌∙◌, ap, true, ◌&&◌, [], ◌∷◌, map, Bytes,
  Result, ok, err, and_then, All, all, IsByte, length, leb, ltb, if◌then◌else◌, arith,
}
use anon_ticket.Model.{
  Codec, IsCodec, FromHexError, invalid_hex_character, odd_length, is_ascii_hexdigit,
  to_ascii_lowercase,
}

abbrev digit_of : ℕ → ℕ
digit_of n = if ltb n 10 then 48 + n else 87 + n

abbrev value_of : ℕ → ℕ
value_of c = if leb c 57 then c - 48 else if leb c 70 then c - 55 else c - 87

abbrev encode : Bytes → Bytes
encode [] = []
encode (b ∷ l) = digit_of (b / 16) ∷ digit_of (b % 16) ∷ encode l

abbrev decode : Bytes → Result FromHexError Bytes
decode [] = ok []
decode (_ ∷ []) = err odd_length
decode (x ∷ y ∷ l) =
    let rest = decode l in
    if is_ascii_hexdigit x && is_ascii_hexdigit y
    then and_then rest (λ b. ok ((value_of x * 16 + value_of y) ∷ b))
    else err invalid_hex_character

-- Thirty-two times the sum of the bytes.
abbrev sum : Bytes → ℕ
sum [] = 0
sum (b ∷ l) = b + sum l

abbrev pub repeat : ℕ → ℕ → Bytes
repeat b zero = []
repeat b (suc n) = b ∷ repeat b n

abbrev pub plain_codec : Codec
plain_codec = record {
  hex_encode = encode;
  hex_decode = decode;
  sha3_256 = λ b. repeat (sum b % 256) 32;
}

digit_of-IsDigit : (n : ℕ) → n < 16 → is_ascii_hexdigit (digit_of n) ≡ true
unfolding is_ascii_hexdigit
digit_of-IsDigit n h = ground arith

value_of-digit_of : (n : ℕ) → n < 16 → value_of (digit_of n) ≡ n
value_of-digit_of n h = ground arith

value_of_bound : (c : ℕ) → is_ascii_hexdigit c ≡ true → value_of c < 16
unfolding is_ascii_hexdigit
value_of_bound c h = ground arith

digit_of-value_of :
    (c : ℕ) → is_ascii_hexdigit c ≡ true → digit_of (value_of c) ≡ to_ascii_lowercase c
unfolding is_ascii_hexdigit to_ascii_lowercase
digit_of-value_of c h = ground arith

decode-encode : (b : Bytes) → All IsByte b → decode (encode b) ≡ ok b
decode-encode [] _ = refl
decode-encode (b ∷ l) (fits, more) =
    let high : b / 16 < 16 = omega arith in
    let low : b % 16 < 16 = omega arith in
    let whole : b / 16 * 16 + b % 16 ≡ b = omega arith in
    rw
      (
        digit_of-IsDigit (b / 16) high,
        digit_of-IsDigit (b % 16) low,
        decode-encode l more,
        value_of-digit_of (b / 16) high,
        value_of-digit_of (b % 16) low,
      )
      (ap (λ n. ok (n ∷ l)) whole)

encode-IsDigit : (b : Bytes) → All IsByte b → all is_ascii_hexdigit (encode b) ≡ true
encode-IsDigit [] _ = refl
encode-IsDigit (b ∷ l) (fits, more) =
    rw
      (
        digit_of-IsDigit (b / 16) (omega arith),
        digit_of-IsDigit (b % 16) (omega arith),
        encode-IsDigit l more,
      )
      refl

length-encode : (b : Bytes) → length (encode b) ≡ length b + length b
length-encode [] = refl
length-encode (b ∷ l) = omega (arith, length-encode l)

encode_byte :
    (x y : ℕ) (l : Bytes)
    → is_ascii_hexdigit x ≡ true
    → is_ascii_hexdigit y ≡ true
    → encode ((value_of x * 16 + value_of y) ∷ l)
      ≡ to_ascii_lowercase x ∷ to_ascii_lowercase y ∷ encode l
encode_byte x y l hx hy =
    let bx = value_of_bound x hx in
    let by' = value_of_bound y hy in
    let high : (value_of x * 16 + value_of y) / 16 ≡ value_of x = omega arith in
    let low : (value_of x * 16 + value_of y) % 16 ≡ value_of y = omega arith in
    rw (high, low, digit_of-value_of x hx, digit_of-value_of y hy) refl

decode-digits :
    (s : Bytes) (n : ℕ)
    → length s ≡ n + n
    → all is_ascii_hexdigit s ≡ true
    → (b : Bytes) × (decode s ≡ ok b)
      × (length b ≡ n)
      × All IsByte b
      × (encode b ≡ map to_ascii_lowercase s)
decode-digits [] zero _ _ = ([], refl, refl, tt, refl)
decode-digits [] (suc n) e _ = absurd (omega arith)
decode-digits (x ∷ []) n e _ = absurd (omega arith)
decode-digits (x ∷ y ∷ l) zero e _ = absurd (omega arith)
decode-digits (x ∷ y ∷ l) (suc n) e h =
    let hx : is_ascii_hexdigit x ≡ true = ground arith in
    let hy : is_ascii_hexdigit y ≡ true = ground arith in
    let hl : all is_ascii_hexdigit l ≡ true = ground arith in
    let (b, decoded, size, bytes, same) = decode-digits l n (omega arith) hl in
    let bx = value_of_bound x hx in
    let by' = value_of_bound y hy in
    (
      (value_of x * 16 + value_of y) ∷ b,
      rw (hx, hy, decoded) refl,
      omega (arith, size),
      (omega arith, bytes),
      encode_byte x y b hx hy ∙ ap (λ t. to_ascii_lowercase x ∷ to_ascii_lowercase y ∷ t) same,
    )

length-repeat : (b n : ℕ) → length (repeat b n) ≡ n
length-repeat b zero = refl
length-repeat b (suc n) = omega (arith, length-repeat b n)

pub repeat-IsByte : (b n : ℕ) → IsByte b → All IsByte (repeat b n)
repeat-IsByte b zero h = tt
repeat-IsByte b (suc n) h = (h, repeat-IsByte b n h)

pub plain_codec-IsCodec : IsCodec plain_codec
plain_codec-IsCodec = record {
  decode_encode = decode-encode;
  length_encode = length-encode;
  encode_digits = encode-IsDigit;
  decode_digits = decode-digits;
  length_sha3 = λ b. length-repeat (sum b % 256) 32;
  sha3_bytes = λ b. repeat-IsByte (sum b % 256) 32 (omega arith);
}
