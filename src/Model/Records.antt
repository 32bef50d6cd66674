-- ===== src/Model/Records.antt =====
-- The records that the stores take and return.
use anon_ticket.Base.{ℤ, Option, Bytes}
use anon_ticket.Model.Pid.{PaymentId}
use anon_ticket.Model.Token.{ServiceToken}

-- A `DateTime<Utc>`, as its nanoseconds from the epoch. The program stores and copies instants and
-- never computes with them.
abbrev pub Timestamp : Type 0
Timestamp = ℤ

pub data PaymentStatus : Type 0 where
  unclaimed claimed : PaymentStatus

pub record PaymentRecord : Type 0 where
  pub pid : PaymentId
  pub txid : Bytes
  pub amount : ℤ
  pub block_height : ℤ
  pub status : PaymentStatus
  pub created_at : Timestamp
  pub claimed_at : Option Timestamp

pub record NewPayment : Type 0 where
  pub pid : PaymentId
  pub txid : Bytes
  pub amount : ℤ
  pub block_height : ℤ
  pub detected_at : Timestamp

pub record ClaimOutcome : Type 0 where
  pub pid : PaymentId
  pub txid : Bytes
  pub amount : ℤ
  pub block_height : ℤ
  pub claimed_at : Timestamp

pub record NewServiceToken : Type 0 where
  pub token : ServiceToken
  pub pid : PaymentId
  pub amount : ℤ
  pub issued_at : Timestamp
  pub abuse_score : ℤ

pub record ServiceTokenRecord : Type 0 where
  pub token : ServiceToken
  pub pid : PaymentId
  pub amount : ℤ
  pub issued_at : Timestamp
  pub revoked_at : Option Timestamp
  pub revoke_reason : Option Bytes
  pub abuse_score : ℤ

pub record RevokeTokenRequest : Type 0 where
  pub token : ServiceToken
  pub reason : Option Bytes
  pub abuse_score : Option ℤ
