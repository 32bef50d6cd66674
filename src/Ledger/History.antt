-- ===== src/Ledger/History.antt =====
-- The steps of the ledger, and histories of them.
use anon_ticket.Base.{◌≡◌, ◌≢◌, none, some, List, [], ◌∷◌, ◌++◌, Bytes}
use anon_ticket.Model.{Codec, derive_service_token, IsPid, Timestamp}
use anon_ticket.Database.{
  Tables, PaymentModel, PaymentStatusDb, TokenModel, StateModel, payment_key, token_key, find,
  modify,
}

-- A payment, once it is claimed.
abbrev pub claimed_at : Timestamp → PaymentModel → PaymentModel
claimed_at now r = record r { status = PaymentStatusDb.claimed; claimed_at = some now }

-- The token row that belongs to a claimed payment.
pub record IsIssue (c : Codec) (p : PaymentModel) (r : TokenModel) : Type 0 where
  pub same_pid : r.pid ≡ p.pid
  pub same_amount : r.amount ≡ p.amount
  pub derived : r.token ≡ (derive_service_token c (record { bytes = p.pid }) p.txid).bytes

-- What a revocation leaves alone, and that it is one.
pub record IsRevocation (f : TokenModel → TokenModel) : Type 0 where
  pub same_token : (r : TokenModel) → (f r).token ≡ r.token
  pub same_pid : (r : TokenModel) → (f r).pid ≡ r.pid
  pub same_amount : (r : TokenModel) → (f r).amount ≡ r.amount
  pub marks : (r : TokenModel) → (f r).revoked_at ≢ none

pub data Step (c : Codec) (t u : Tables) : Type 0 where
  -- The monitor stores a new, unclaimed payment.
  receive :
      (p : PaymentModel)
      → find payment_key p.pid t.payments ≡ none
      → p.status ≡ PaymentStatusDb.unclaimed
      → IsPid (record { bytes = p.pid })
      → u ≡ record t { payments = t.payments ++ p ∷ [] }
      → Step c t u
  -- An unclaimed payment is claimed.
  claim :
      (p : PaymentModel) (now : Timestamp)
      → find payment_key p.pid t.payments ≡ some p
      → p.status ≡ PaymentStatusDb.unclaimed
      → u ≡ record t { payments = modify payment_key p.pid (claimed_at now) t.payments }
      → Step c t u
  -- A claimed payment is given its token, at most once.
  issue :
      (p : PaymentModel) (r : TokenModel)
      → find payment_key p.pid t.payments ≡ some p
      → p.status ≡ PaymentStatusDb.claimed
      → find token_key r.token t.tokens ≡ none
      → IsIssue c p r
      → u ≡ record t { tokens = t.tokens ++ r ∷ [] }
      → Step c t u
  -- A token is revoked.
  revoke :
      (k : Bytes) (f : TokenModel → TokenModel)
      → IsRevocation f
      → u ≡ record t { tokens = modify token_key k f t.tokens }
      → Step c t u
  -- The monitor's cursor moves.
  advance : (m : List StateModel) → u ≡ record t { monitor_state = m } → Step c t u

-- A history.
pub data Steps (c : Codec) : Tables → Tables → Type 0 where
  done : {t : Tables} → Steps c t t
  more : {t u v : Tables} → Step c t u → Steps c u v → Steps c t v

pub one-Step : {c : Codec} {t u : Tables} → Step c t u → Steps c t u
one-Step s = more s done

pub Steps-trans : {c : Codec} {t u v : Tables} → Steps c t u → Steps c u v → Steps c t v
Steps-trans done k = k
Steps-trans (more s h) k = more s (Steps-trans h k)
