-- ===== src/Config/Numbers.antt =====
-- What the standard library does for crates/domain/src/config.rs: `str::trim`, and `parse` for the
-- integer types.
use anon_ticket.Base.{
  ℕ, zero, suc, ℤ, pos, negsuc, ◌+◌, ◌-◌, ◌*◌, ◌≤◌, ◌^◌, ◌≡◌, Bool, ◌&&◌, ◌||◌, List, [], ◌∷◌,
  Result, ok, err, and_then, leb, ◌==◌, u64_max, i64_max, if◌then◌else◌, arith, Bool-cases, inl,
  inr,
}

-- A text as the code points of its characters.
abbrev pub Text : Type 0
Text = List ℕ

-- `char::is_whitespace`: the characters of Unicode's property White_Space.
abbrev is_whitespace : ℕ → Bool
is_whitespace c =
    (leb 9 c && leb c 13)
    || c == 32
    || c == 0x85
    || c == 0xA0
    || c == 0x1680
    || (leb 0x2000 c && leb c 0x200A)
    || c == 0x2028
    || c == 0x2029
    || c == 0x202F
    || c == 0x205F
    || c == 0x3000

abbrev pub trim_start : Text → Text
trim_start [] = []
trim_start (c ∷ s) = if is_whitespace c then trim_start s else c ∷ s

-- A character before a text whose end is trimmed.
abbrev put_before : ℕ → Text → Text
put_before c [] = if is_whitespace c then [] else c ∷ []
put_before c (d ∷ s) = c ∷ d ∷ s

abbrev pub trim_end : Text → Text
trim_end [] = []
trim_end (c ∷ s) = put_before c (trim_end s)

unfoldable pub trim : Text → Text
trim s = trim_end (trim_start s)

-- `IntErrorKind`.
pub data ParseIntError : Type 0 where
  empty invalid_digit pos_overflow neg_overflow : ParseIntError

-- The digits of a number, the value read so far first; a value above the bound is an overflow.
abbrev pub digits : ParseIntError → ℕ → ℕ → Text → Result ParseIntError ℕ
digits over bound n [] = ok n
digits over bound n (c ∷ s) =
    let next = n * 10 + (c - 48) in
    let rest = digits over bound next s in
    if leb 48 c && leb c 57 then if leb next bound then rest else err over else err invalid_digit

-- The digits after a sign, of which there is at least one.
abbrev signed : ParseIntError → ℕ → Text → Result ParseIntError ℕ
signed over bound [] = err invalid_digit
signed over bound (c ∷ s) = digits over bound 0 (c ∷ s)

unfoldable pub parse_u64 : Text → Result ParseIntError ℕ
parse_u64 [] = err empty
parse_u64 (c ∷ s) =
    if c == 43 then signed pos_overflow u64_max s else digits pos_overflow u64_max 0 (c ∷ s)

abbrev negate : ℕ → ℤ
negate zero = pos 0
negate (suc n) = negsuc n

unfoldable pub parse_i64 : Text → Result ParseIntError ℤ
parse_i64 [] = err empty
parse_i64 (c ∷ s) =
    if c == 43
    then and_then (signed pos_overflow i64_max s) (λ n. ok (pos n))
    else if c == 45
    then and_then (signed neg_overflow (2 ^ 63) s) (λ n. ok (negate n))
    else and_then (digits pos_overflow i64_max 0 (c ∷ s)) (λ n. ok (pos n))

digits-bound :
    (over : ParseIntError) (bound n : ℕ) (s : Text) (m : ℕ)
    → n ≤ bound
    → digits over bound n s ≡ ok m
    → m ≤ bound
digits-bound over bound n [] m fits e = let e' : n ≡ m = cc in omega (arith, e', fits)
digits-bound over bound n (c ∷ s) m fits e = elim (Bool-cases (leb 48 c && leb c 57)) [
  | inr other ↦ absurd (cc (rw other at e))
  | inl digit ↦ elim (Bool-cases (leb (n * 10 + (c - 48)) bound)) [
    | inr above ↦ absurd (cc (rw (digit, above) at e))
    | inl below ↦
        digits-bound over bound (n * 10 + (c - 48)) s m (ground (arith, below))
          (rw (digit, below) at e)
  ]
]

signed-bound :
    (over : ParseIntError) (bound : ℕ) (s : Text) (m : ℕ) → signed over bound s ≡ ok m → m ≤ bound
signed-bound over bound [] m e = absurd (cc)
signed-bound over bound (c ∷ s) m e = digits-bound over bound 0 (c ∷ s) m (omega arith) e

-- A number that is parsed fits a `u64`.
pub parse_u64-bound : (s : Text) (m : ℕ) → parse_u64 s ≡ ok m → m ≤ u64_max
unfolding parse_u64
parse_u64-bound [] m e = absurd (cc)
parse_u64-bound (c ∷ s) m e = elim (Bool-cases (c == 43)) [
  | inl plus ↦ signed-bound pos_overflow u64_max s m (rw plus at e)
  | inr bare ↦ digits-bound pos_overflow u64_max 0 (c ∷ s) m (omega arith) (rw bare at e)
]
