-- ===== src/Ledger/Soundness.antt =====
-- The invariant of the ledger: every token is the one that its claimed payment was given.
use anon_ticket.Base.{◌≡◌, refl, inl, inr, some, [], Bytes, ◌∙◌}
use anon_ticket.Model.{Codec, IsPid}
use anon_ticket.Database.{
  Tables, PaymentModel, PaymentStatusDb, TokenModel, payment_key, token_key, find, key-find,
  find-append_back, find-modify_back,
}
use anon_ticket.Ledger.History.{
  Step, receive, claim, issue, revoke, advance, Steps, done, more, claimed_at, IsIssue,
  IsRevocation,
}
use anon_ticket.Ledger.Growth.{Steps-KeepsPayment}
use anon_ticket.Ledger.History.{one-Step}

-- The claimed payment behind a token.
abbrev pub IsBacked : Codec → Tables → TokenModel → Type 0
IsBacked c t r =
    (p : PaymentModel) × (find payment_key r.pid t.payments ≡ some p)
    × (p.status ≡ PaymentStatusDb.claimed)
    × IsIssue c p r

-- Every stored payment id has eight bytes, and every token belongs to a claimed payment: it is
-- derived from the payment's id and transaction, and worth the payment's amount.
pub record IsSound (c : Codec) (t : Tables) : Type 0 where
  pub pids :
      (k : Bytes) (p : PaymentModel)
      → find payment_key k t.payments ≡ some p
      → IsPid (record { bytes = p.pid })
  pub backed : (k : Bytes) (r : TokenModel) → find token_key k t.tokens ≡ some r → IsBacked c t r

-- An empty ledger is sound.
pub empty-IsSound :
    (c : Codec) → IsSound c (record { payments = []; tokens = []; monitor_state = [] })
empty-IsSound c = record { pids = λ k p e. absurd (cc); backed = λ k r e. absurd (cc) }

pub Steps-IsBacked :
    {c : Codec} {t u : Tables} (r : TokenModel) → Steps c t u → IsBacked c t r → IsBacked c u r
Steps-IsBacked r h (p, found, taken, issued) =
    let (q, found', later) = Steps-KeepsPayment r.pid h found in
    elim later.kept [ inl free ↦ absurd (cc) | inr e ↦ (p, cc, taken, issued) ]

-- A changed token is backed by the payment that backed it.
IsBacked-revocation :
    {c : Codec} (t : Tables) (f : TokenModel → TokenModel) (r : TokenModel)
    → IsRevocation f
    → IsBacked c t r
    → IsBacked c t (f r)
IsBacked-revocation t f r v (p, found, taken, issued) = (
  p,
  rw (v.same_pid r) found,
  taken,
  record {
    same_pid = v.same_pid r ∙ issued.same_pid;
    same_amount = v.same_amount r ∙ issued.same_amount;
    derived = v.same_token r ∙ issued.derived;
  },
)

module _ {c : Codec} {t u : Tables} where
  Step-pids :
      Step c t u
      → IsSound c t
      → (k : Bytes) (p : PaymentModel) → find payment_key k u.payments ≡ some p
      → IsPid (record { bytes = p.pid })
  Step-pids (receive r new _ valid e) h k p found =
      elim (find-append_back payment_key k t.payments r p (rw e at found)) [
        | inl old ↦ h.pids k p old
        | inr same ↦ rw same valid
      ]
  Step-pids (claim r now here _ e) h k p found =
      let (q, old, same) =
        find-modify_back payment_key (claimed_at now) (λ _. refl) k r.pid t.payments p
          (rw e at found) in
      elim same [ inl e' ↦ rw e' (h.pids k q old) | inr e' ↦ rw e' (h.pids k q old) ]
  Step-pids (issue _ _ _ _ _ _ e) h k p found = h.pids k p (rw e at found)
  Step-pids (revoke _ _ _ e) h k p found = h.pids k p (rw e at found)
  Step-pids (advance _ e) h k p found = h.pids k p (rw e at found)

  -- The token that a key finds after a step was backed before it, or is issued by it.
  Step-IsBacked :
      Step c t u
      → IsSound c t
      → (k : Bytes) (r : TokenModel) → find token_key k u.tokens ≡ some r
      → IsBacked c t r
  Step-IsBacked (receive _ _ _ _ e) h k r found = h.backed k r (rw e at found)
  Step-IsBacked (claim _ _ _ _ e) h k r found = h.backed k r (rw e at found)
  Step-IsBacked (issue p x here taken _ issued e) h k r found =
      elim (find-append_back token_key k t.tokens x r (rw e at found)) [
        | inl old ↦ h.backed k r old
        | inr same ↦ rw same (
          p,
          rw issued.same_pid (rw (key-find payment_key p.pid t.payments p here) here),
          taken,
          issued,
        )
      ]
  Step-IsBacked (revoke j f v e) h k r found =
      let (q, old, same) =
        find-modify_back token_key f v.same_token k j t.tokens r (rw e at found) in
      elim same [
        | inl e' ↦ rw e' (h.backed k q old)
        | inr e' ↦ rw e' (IsBacked-revocation t f q v (h.backed k q old))
      ]
  Step-IsBacked (advance _ e) h k r found = h.backed k r (rw e at found)

  -- One step keeps the ledger sound.
  Step-IsSound : Step c t u → IsSound c t → IsSound c u
  Step-IsSound s h = record {
    pids = Step-pids s h;
    backed = λ k r found. Steps-IsBacked r (one-Step s) (Step-IsBacked s h k r found);
  }

-- Whatever the API and the monitor do, in whatever order, keeps the ledger sound.
pub Steps-IsSound : {c : Codec} {t u : Tables} → Steps c t u → IsSound c t → IsSound c u
Steps-IsSound done h = h
Steps-IsSound (more s later) h = Steps-IsSound later (Step-IsSound s h)
