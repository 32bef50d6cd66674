-- ===== src/Monitor/Conversion.antt =====
-- What the conversion of the wallet's transfers guarantees.
use anon_ticket.Base.{
  ℕ, ℤ, pos, ◌≤◌, ◌≡◌, inl, inr, ◌⊎◌, Option, none, some, List, [], ◌∷◌, Bytes, ok, All,
  Result-cases, Option-cases, leb, i64_max, arith, Bool-cases, ap, sym, subst, ◌∙◌,
}
use anon_ticket.Model.{Codec, PaymentId, parse_pid}
use anon_ticket.Monitor.Rpc.{
  TransferEntry, GotTransfer, amount_of, valid_text, convert_transfer, convert_all,
}

-- An entry that the pipeline can take: its amount is in range and not negative, and its payment id,
-- if it has one, parses.
pub record IsConverted (c : Codec) (e : TransferEntry) : Type 0 where
  pub amount_fits : (n : ℕ) × (e.amount ≡ pos n) × (n ≤ i64_max)
  pub id_parses :
      (e.payment_id ≡ none)
      ⊎ ((text : Bytes) × (pid : PaymentId) × (e.payment_id ≡ some text)
          × (parse_pid c text ≡ ok pid))

amount_of-ok : (n : ℕ) (a : ℤ) → amount_of n ≡ ok a → (a ≡ pos n) × (n ≤ i64_max)
unfolding amount_of
amount_of-ok n a e = elim (Bool-cases (leb n i64_max)) [
  | inl fits ↦ let e' : pos n ≡ a = cc (rw fits at e) in (sym e', ground arith)
  | inr over ↦ absurd (cc (rw over at e))
]

module _ (c : Codec) where
  valid_text-ok :
      (hex : Bytes) (o : Option Bytes)
      → valid_text hex (parse_pid c hex) ≡ ok o
      → (o ≡ none)
        ⊎ ((text : Bytes) × (pid : PaymentId) × (o ≡ some text) × (parse_pid c text ≡ ok pid))
  valid_text-ok hex o e = elim (Result-cases (parse_pid c hex)) [
    | inl (pid, parsed) ↦ inr (hex, pid, cc (rw parsed at e), parsed)
    | inr (inl (x, bad)) ↦ inl (cc (rw bad at e))
    | inr (inr bad) ↦ absurd (cc (rw bad at e))
  ]

  convert_transfer-IsConverted :
      (t : GotTransfer) (e : TransferEntry) → convert_transfer c t ≡ ok (some e) → IsConverted c e
  unfolding convert_transfer
  convert_transfer-IsConverted t e went = elim (Result-cases (amount_of t.amount)) [
    | inl (a, fits) ↦ elim (Result-cases (valid_text t.payment_id (parse_pid c t.payment_id))) [
      | inl (o, read) ↦
          let same = (rw (fits, read) at went) in
          let (is_pos, bound) = amount_of-ok t.amount a fits in
          let amount_same : a ≡ e.amount = cc same in
          let id_same : o ≡ e.payment_id = cc same in
          record {
            amount_fits = (t.amount, cc (amount_same, is_pos), bound);
            id_parses =
                subst
                  (λ o.
                    (o ≡ none)
                    ⊎ ((text : Bytes) × (pid : PaymentId) × (o ≡ some text)
                        × (parse_pid c text ≡ ok pid)))
                  id_same (valid_text-ok t.payment_id o read);
          }
      | inr (inl (x, bad)) ↦ absurd (cc (rw (fits, bad) at went))
      | inr (inr bad) ↦ absurd (cc (rw (fits, bad) at went))
    ]
    | inr (inl (x, bad)) ↦ absurd (cc (rw bad at went))
    | inr (inr bad) ↦ absurd (cc (rw bad at went))
  ]

  -- The entries that the conversion yields have amounts that a signed 64-bit number holds, none
  -- negative, and payment ids that parse.
  pub convert_all-IsConverted :
      (l : List GotTransfer) (entries : List TransferEntry)
      → convert_all c l ≡ ok entries
      → All (IsConverted c) entries
  unfolding convert_all
  convert_all-IsConverted [] entries e =
      let e' : [] ≡ entries = cc in subst (All (IsConverted c)) e' tt
  convert_all-IsConverted (t ∷ l) entries went = elim (Result-cases (convert_transfer c t)) [
    | inl (o, first) ↦ elim (Result-cases (convert_all c l)) [
      | inl (others, rest) ↦ elim (Option-cases o) [
        | inl skipped ↦
            let e : others ≡ entries = cc (rw (first, rest, skipped) at went) in
            subst (All (IsConverted c)) e (convert_all-IsConverted l others rest)
        | inr (x, kept) ↦
            let e : x ∷ others ≡ entries = cc (rw (first, rest, kept) at went) in
            subst (All (IsConverted c)) e (
              convert_transfer-IsConverted t x (first ∙ ap ok kept),
              convert_all-IsConverted l others rest,
            )
      ]
      | inr (inl (x, bad)) ↦ absurd (cc (rw (first, bad) at went))
      | inr (inr bad) ↦ absurd (cc (rw (first, bad) at went))
    ]
    | inr (inl (x, bad)) ↦ absurd (cc (rw bad at went))
    | inr (inr bad) ↦ absurd (cc (rw bad at went))
  ]
