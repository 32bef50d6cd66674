-- ===== src/Database/Entity.antt =====
-- crates/storage/src/entity.rs: the rows of the three tables, and the parts of the statements that
-- crates/storage builds over them.
use anon_ticket.Base.{ℤ, Bool, true, false, ◌&&◌, Option, some, List, [], ◌∷◌, Bytes}
use anon_ticket.Model.{Timestamp}

pub data PaymentStatusDb : Type 0 where
  unclaimed claimed : PaymentStatusDb

-- `payments::Model`.
pub record PaymentModel : Type 0 where
  pub pid : Bytes
  pub txid : Bytes
  pub amount : ℤ
  pub block_height : ℤ
  pub status : PaymentStatusDb
  pub created_at : Timestamp
  pub claimed_at : Option Timestamp

-- `service_tokens::Model`.
pub record TokenModel : Type 0 where
  pub token : Bytes
  pub pid : Bytes
  pub amount : ℤ
  pub issued_at : Timestamp
  pub revoked_at : Option Timestamp
  pub revoke_reason : Option Bytes
  pub abuse_score : ℤ

-- `monitor_state::Model`.
pub record StateModel : Type 0 where
  pub key : Bytes
  pub value_int : ℤ

abbrev pub payment_key : PaymentModel → Bytes
payment_key r = r.pid

abbrev pub token_key : TokenModel → Bytes
token_key r = r.token

abbrev pub state_key : StateModel → Bytes
state_key r = r.key

abbrev pub same_status : PaymentStatusDb → PaymentStatusDb → Bool
same_status unclaimed unclaimed = true
same_status claimed claimed = true
same_status _ _ = false

-- A condition of `WHERE` on a payment, beside the primary key.
pub data PaymentCond : Type 0 where
  status_eq : PaymentStatusDb → PaymentCond

abbrev pub meets : List PaymentCond → PaymentModel → Bool
meets [] r = true
meets (status_eq s ∷ cs) r = same_status r.status s && meets cs r

-- An assignment of `SET` on a payment.
pub data PaymentSet : Type 0 where
  set_status : PaymentStatusDb → PaymentSet
  set_claimed_at : Timestamp → PaymentSet

abbrev pub assign_payment : List PaymentSet → PaymentModel → PaymentModel
assign_payment [] r = r
assign_payment (set_status s ∷ l) r = assign_payment l (record r { status = s })
assign_payment (set_claimed_at c ∷ l) r = assign_payment l (record r { claimed_at = some c })

-- `UPDATE payments SET values WHERE pid = … AND and_where RETURNING *`.
pub record UpdatePayment : Type 0 where
  pub pid : Bytes
  pub and_where : List PaymentCond
  pub values : List PaymentSet

-- A column that an active model sets on a token.
pub data TokenSet : Type 0 where
  set_revoked_at : Option Timestamp → TokenSet
  set_revoke_reason : Option Bytes → TokenSet
  set_abuse_score : ℤ → TokenSet

abbrev pub assign_token : List TokenSet → TokenModel → TokenModel
assign_token [] r = r
assign_token (set_revoked_at x ∷ l) r = assign_token l (record r { revoked_at = x })
assign_token (set_revoke_reason x ∷ l) r = assign_token l (record r { revoke_reason = x })
assign_token (set_abuse_score x ∷ l) r = assign_token l (record r { abuse_score = x })
