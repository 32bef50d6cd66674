-- ===== src/Tests/Address.antt =====
-- The theorems on integrated addresses, applied to addresses that are printed as their parts.
use anon_ticket.Base.{
  ℕ, zero, suc, ◌≡◌, ◌≢◌, refl, subst, ◌⊎◌, inl, inr, Bool, true, ◌&&◌, some, [], ◌∷◌, Bytes,
  Result, ok, err, panic, and_then, All, all, IsByte, length, ltb, ◌==◌, arith, Bool-cases,
  Result-cases, if◌then◌else◌,
}
use anon_ticket.Model.{PaymentId, IsPid}
use anon_ticket.Address.{
  MoneroAddress, AddressType, standard, integrated, other, Monero, IsMonero, IsFilled,
  non_standard_primary, invalid_integrated, missing_payment_id, build_integrated_address,
  decode_integrated_address, Exit,
}
use anon_ticket.Address.Laws.{decode-build, decode_integrated_address_cases}
use anon_ticket.Tests.Ledger.{some_pid, some_pid-IsPid}

abbrev Parts : Type 0
Parts = MoneroAddress ℕ ℕ

abbrev is_byte : ℕ → Bool
is_byte b = ltb b 256

-- A tag, and what follows it.
abbrev kind_of : ℕ → Bytes → Result Bytes AddressType
kind_of zero b = ok standard
kind_of (suc zero) b = if length b == 8 && all is_byte b then ok (integrated b) else err []
kind_of (suc (suc _)) b = ok other

abbrev tag_of : AddressType → Bytes
tag_of standard = 0 ∷ []
tag_of (integrated b) = 1 ∷ b
tag_of other = 2 ∷ []

abbrev read_parts : Bytes → Result Bytes Parts
read_parts (n ∷ s ∷ v ∷ t ∷ b) =
    and_then (kind_of t b)
      (λ k. ok (record { network = n; addr_type = k; public_spend = s; public_view = v }))
read_parts _ = err []

abbrev print_parts : Parts → Bytes
print_parts a = a.network ∷ a.public_spend ∷ a.public_view ∷ tag_of a.addr_type

abbrev plain_monero : Monero
plain_monero = record {
  Network = ℕ;
  PublicKey = ℕ;
  from_str = read_parts;
  to_string = print_parts;
  integrated_with = λ n s v b. record {
    network = n;
    addr_type = integrated b;
    public_spend = s;
    public_view = v;
  };
  from_slice = λ b. some b;
}

all-is_byte : (b : Bytes) → All IsByte b → all is_byte b ≡ true
all-is_byte [] _ = refl
all-is_byte (x ∷ b) (fits, more) = let rest = all-is_byte b more in ground arith

is_byte-all : (b : Bytes) → all is_byte b ≡ true → All IsByte b
is_byte-all [] h = tt
is_byte-all (x ∷ b) h = (ground arith, is_byte-all b (ground arith))

read-print :
    (n s v : ℕ) (t : AddressType)
    → IsFilled t
    → read_parts (n ∷ s ∷ v ∷ tag_of t)
      ≡ ok (record { network = n; addr_type = t; public_spend = s; public_view = v })
read-print n s v standard _ = refl
read-print n s v (integrated b) (eight, bytes) = rw (eight, all-is_byte b bytes) refl
read-print n s v other _ = refl

kind_of-IsFilled : (t : ℕ) (b : Bytes) (k : AddressType) → kind_of t b ≡ ok k → IsFilled k
kind_of-IsFilled zero b k e = let e' : standard ≡ k = cc e in subst IsFilled e' tt
kind_of-IsFilled (suc zero) b k e = elim (Bool-cases (length b == 8)) [
  | inl eight ↦ elim (Bool-cases (all is_byte b)) [
    | inl bytes ↦
        let e' : integrated b ≡ k = cc (rw (eight, bytes) at e) in
        subst IsFilled e' (ground arith, is_byte-all b bytes)
    | inr bad ↦ absurd (cc (rw (eight, bad) at e))
  ]
  | inr bad ↦ absurd (cc (rw bad at e))
]
kind_of-IsFilled (suc (suc _)) b k e = let e' : other ≡ k = cc e in subst IsFilled e' tt

kind_of_returns : (t : ℕ) (b : Bytes) → kind_of t b ≢ panic
kind_of_returns zero b e = cc e
kind_of_returns (suc zero) b e = elim (Bool-cases (length b == 8 && all is_byte b)) [
  | inl fits ↦ absurd (cc (rw fits at e))
  | inr bad ↦ absurd (cc (rw bad at e))
]
kind_of_returns (suc (suc _)) b e = cc e

-- Reading either fails, or gives parts of a kind that was read.
read_parts_cases :
    (s : Bytes)
    → ((e : Bytes) × (read_parts s ≡ err e))
      ⊎ ((a : Parts) × (read_parts s ≡ ok a) × IsFilled a.addr_type)
read_parts_cases [] = inl ([], refl)
read_parts_cases (_ ∷ []) = inl ([], refl)
read_parts_cases (_ ∷ _ ∷ []) = inl ([], refl)
read_parts_cases (_ ∷ _ ∷ _ ∷ []) = inl ([], refl)
read_parts_cases (n ∷ s ∷ v ∷ t ∷ b) = elim (Result-cases (kind_of t b)) [
  | inl (k, read) ↦ inr (
    record { network = n; addr_type = k; public_spend = s; public_view = v },
    rw read refl,
    kind_of-IsFilled t b k read,
  )
  | inr (inl (e, bad)) ↦ inl (e, rw bad refl)
  | inr (inr bad) ↦ absurd (kind_of_returns t b bad)
]

read_parts_returns : (s : Bytes) → read_parts s ≢ panic
read_parts_returns s bad = elim (read_parts_cases s) [
  | inl (e, is) ↦ absurd (cc (is, bad))
  | inr (a, is, _) ↦ absurd (cc (is, bad))
]

read_parts-IsFilled : (s : Bytes) (a : Parts) → read_parts s ≡ ok a → IsFilled a.addr_type
read_parts-IsFilled s a e = elim (read_parts_cases s) [
  | inl (x, is) ↦ absurd (cc (is, e))
  | inr (b, is, filled) ↦
      let same : b ≡ a = cc (is, e) in subst (λ (x : Parts). IsFilled x.addr_type) same filled
]

plain_monero-IsMonero : IsMonero plain_monero
plain_monero-IsMonero = record {
  from_str_returns = read_parts_returns;
  from_str-to_string = λ a fits. read-print a.network a.public_spend a.public_view a.addr_type fits;
  from_str-IsFilled = read_parts-IsFilled;
  integrated_with_parts = λ n s v b. refl;
  from_slice_same = λ b e. refl;
}

abbrev panicked : Exit
panicked = record { code = 101; stdout = []; stderr = [] }

abbrev primary : Bytes
primary = 18 ∷ 5 ∷ 6 ∷ 0 ∷ []

abbrev base : Parts
base = record { network = 18; addr_type = standard; public_spend = 5; public_view = 6 }

decode-build_example :
    (text : Bytes) × (build_integrated_address plain_monero primary some_pid ≡ ok text)
    × (decode_integrated_address plain_monero text ≡ ok (primary, some_pid))
    × ((q : PaymentId) → build_integrated_address plain_monero text q ≡ err non_standard_primary)
decode-build_example =
    decode-build plain_monero plain_monero-IsMonero primary some_pid base some_pid-IsPid refl refl

decode_integrated_address_cases_example :
    ((e : Bytes) × (read_parts primary ≡ err e)
      × (decode_integrated_address plain_monero primary ≡ err (invalid_integrated e)))
    ⊎ ((a : Parts) × (read_parts primary ≡ ok a)
        × ((b : Bytes) → a.addr_type ≢ integrated b)
        × (decode_integrated_address plain_monero primary ≡ err missing_payment_id))
    ⊎ ((a : Parts) × (read_parts primary ≡ ok a)
        × ((standard_text : Bytes) × (pid : PaymentId) × IsPid pid
            × (decode_integrated_address plain_monero primary ≡ ok (standard_text, pid))
            × (build_integrated_address plain_monero standard_text pid ≡ ok (print_parts a))))
decode_integrated_address_cases_example =
    decode_integrated_address_cases plain_monero plain_monero-IsMonero primary
