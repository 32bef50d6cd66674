-- ===== src/Ledger/Growth.antt =====
-- What no history of the ledger takes back.
use anon_ticket.Base.{
  ◌≡◌, ◌≢◌, refl, ◌⊎◌, inl, inr, none, some, Bytes, bytes_eq_iff, bytes_eq, Bool-cases,
  Option-cases,
}
use anon_ticket.Model.{Codec}
use anon_ticket.Database.{
  Tables, PaymentModel, PaymentStatusDb, TokenModel, payment_key, token_key, find, find-append,
  find-modify_self, find-modify_ne,
}
use anon_ticket.Ledger.History.{
  Step, receive, claim, issue, revoke, advance, Steps, done, more, claimed_at,
}

-- What a later row of a payment keeps: all of it, once it is claimed.
pub record IsLater (p q : PaymentModel) : Type 0 where
  pub same_pid : q.pid ≡ p.pid
  pub same_txid : q.txid ≡ p.txid
  pub same_amount : q.amount ≡ p.amount
  pub kept : (p.status ≡ PaymentStatusDb.unclaimed) ⊎ (q ≡ p)

IsLater-refl : (p : PaymentModel) → IsLater p p
IsLater-refl p = record { same_pid = refl; same_txid = refl; same_amount = refl; kept = inr refl }

IsLater-trans : {p q r : PaymentModel} → IsLater p q → IsLater q r → IsLater p r
IsLater-trans {p} h k = record {
  same_pid = cc (h.same_pid, k.same_pid);
  same_txid = cc (h.same_txid, k.same_txid);
  same_amount = cc (h.same_amount, k.same_amount);
  kept = elim h.kept [
    | inl free ↦ inl free
    | inr e ↦ elim k.kept [ inl free ↦ inl (cc) | inr e' ↦ inr (cc) ]
  ];
}

-- The payment that a key finds later.
abbrev pub KeepsPayment : Tables → Bytes → PaymentModel → Type 0
KeepsPayment u k p = (q : PaymentModel) × (find payment_key k u.payments ≡ some q) × IsLater p q

Step-KeepsPayment :
    {c : Codec} {t u : Tables} {p : PaymentModel} (k : Bytes)
    → Step c t u
    → find payment_key k t.payments ≡ some p
    → KeepsPayment u k p
Step-KeepsPayment {t} {p} k (receive r new _ _ e) h =
    (p, rw e (rw (find-append payment_key k t.payments r, h)), IsLater-refl p)
Step-KeepsPayment {t} {p} k (claim r now here free e) h = elim (Bool-cases (bytes_eq k r.pid)) [
  | inl same ↦
      let e' : k ≡ r.pid = (bytes_eq_iff k r.pid).0 same in
      let e'' : p ≡ r = cc in
      (
        claimed_at now p,
        rw e (
            rw
              (
                e',
                find-modify_self payment_key (claimed_at now) (λ _. refl) r.pid t.payments r here,
              )
              (cc)),
        record { same_pid = refl; same_txid = refl; same_amount = refl; kept = inl (cc) },
      )
  | inr other ↦ (
    p,
    rw e (rw (find-modify_ne payment_key (claimed_at now) (λ _. refl) k r.pid t.payments other) h),
    IsLater-refl p,
  )
]
Step-KeepsPayment {p} k (issue _ _ _ _ _ _ e) h = (p, rw e h, IsLater-refl p)
Step-KeepsPayment {p} k (revoke _ _ _ e) h = (p, rw e h, IsLater-refl p)
Step-KeepsPayment {p} k (advance _ e) h = (p, rw e h, IsLater-refl p)

-- Whatever happens to the ledger, a stored payment stays, with its transaction and its amount;
-- once it is claimed nothing of its row changes.
pub Steps-KeepsPayment :
    {c : Codec} {t u : Tables} {p : PaymentModel} (k : Bytes)
    → Steps c t u
    → find payment_key k t.payments ≡ some p
    → KeepsPayment u k p
Steps-KeepsPayment {p} k done h = (p, h, IsLater-refl p)
Steps-KeepsPayment k (more s later) h =
    let (q, found, first) = Step-KeepsPayment k s h in
    let (r, found', next) = Steps-KeepsPayment k later found in
    (r, found', IsLater-trans first next)

-- What a later row of a token keeps: its payment and its worth, and its revocation.
pub record IsLaterToken (r s : TokenModel) : Type 0 where
  pub same_token : s.token ≡ r.token
  pub same_pid : s.pid ≡ r.pid
  pub same_amount : s.amount ≡ r.amount
  pub kept : (r.revoked_at ≡ none) ⊎ (s.revoked_at ≢ none)

IsLaterToken-refl : (r : TokenModel) → IsLaterToken r r
IsLaterToken-refl r = record {
  same_token = refl;
  same_pid = refl;
  same_amount = refl;
  kept = elim (Option-cases r.revoked_at) [ inl e ↦ inl e | inr (x, e) ↦ inr (λ e'. cc) ];
}

IsLaterToken-trans : {r s u : TokenModel} → IsLaterToken r s → IsLaterToken s u → IsLaterToken r u
IsLaterToken-trans h k = record {
  same_token = cc (h.same_token, k.same_token);
  same_pid = cc (h.same_pid, k.same_pid);
  same_amount = cc (h.same_amount, k.same_amount);
  kept = elim h.kept [
    | inl free ↦ inl free
    | inr shut ↦ elim k.kept [ inl free ↦ absurd (shut free) | inr shut' ↦ inr shut' ]
  ];
}

abbrev pub KeepsToken : Tables → Bytes → TokenModel → Type 0
KeepsToken u k r = (s : TokenModel) × (find token_key k u.tokens ≡ some s) × IsLaterToken r s

Step-KeepsToken :
    {c : Codec} {t u : Tables} {r : TokenModel} (k : Bytes)
    → Step c t u
    → find token_key k t.tokens ≡ some r
    → KeepsToken u k r
Step-KeepsToken {r} k (receive _ _ _ _ e) h = (r, rw e h, IsLaterToken-refl r)
Step-KeepsToken {r} k (claim _ _ _ _ e) h = (r, rw e h, IsLaterToken-refl r)
Step-KeepsToken {t} {r} k (issue _ x _ _ _ _ e) h =
    (r, rw e (rw (find-append token_key k t.tokens x, h)), IsLaterToken-refl r)
Step-KeepsToken {t} {r} k (revoke j f v e) h = elim (Bool-cases (bytes_eq k j)) [
  | inl same ↦
      let e' : k ≡ j = (bytes_eq_iff k j).0 same in
      (
        f r,
        rw (e, ← e') (find-modify_self token_key f v.same_token k t.tokens r h),
        record {
          same_token = v.same_token r;
          same_pid = v.same_pid r;
          same_amount = v.same_amount r;
          kept = inr (v.marks r);
        },
      )
  | inr other ↦ (
    r,
    rw e (rw (find-modify_ne token_key f v.same_token k j t.tokens other) h),
    IsLaterToken-refl r,
  )
]
Step-KeepsToken {r} k (advance _ e) h = (r, rw e h, IsLaterToken-refl r)

-- Whatever happens to the ledger, a token stays, with its payment id and its amount; once it is
-- revoked it is never active again.
pub Steps-KeepsToken :
    {c : Codec} {t u : Tables} {r : TokenModel} (k : Bytes)
    → Steps c t u
    → find token_key k t.tokens ≡ some r
    → KeepsToken u k r
Steps-KeepsToken {r} k done h = (r, h, IsLaterToken-refl r)
Steps-KeepsToken k (more s later) h =
    let (r', found, first) = Step-KeepsToken k s h in
    let (r'', found', next) = Steps-KeepsToken k later found in
    (r'', found', IsLaterToken-trans first next)
