-- ===== src/Api/Http.antt =====
-- crates/api/src/handlers/mod.rs: errors and responses; crates/api/src/state.rs: access to the
-- shared hint structures.
use anon_ticket.Base.{
  ℕ, ℤ, Bool, true, false, ◌||◌, ◌&&◌, Option, none, some, [], ◌∷◌, ◌++◌, map, Bytes, codes, ok,
  Action, ◌==◌,
}
use anon_ticket.Model.{PidFormatError, TokenFormatError, PaymentId, Timestamp, to_ascii_lowercase}
use anon_ticket.Services.{mark_present, bloom_insert, might_contain}
use anon_ticket.Env.{Env, World, StorageError, database}
use anon_ticket.Storage.{pid_error_text, token_error_text}

pub data ApiError : Type 0 where
  invalid_pid : PidFormatError → ApiError
  invalid_token : TokenFormatError → ApiError
  not_found : ApiError
  storage : StorageError → ApiError

abbrev pub storage_error_text : StorageError → Bytes
storage_error_text (database text) = codes "database error: " ++ text

-- `to_string`.
unfoldable pub api_error_text : ApiError → Bytes
api_error_text (invalid_pid e) = codes "invalid payment id: " ++ pid_error_text e
api_error_text (invalid_token e) = codes "invalid token: " ++ token_error_text e
api_error_text not_found = codes "payment not found"
api_error_text (storage e) = codes "storage failure: " ++ storage_error_text e

unfoldable pub status_code : ApiError → ℕ
status_code (invalid_pid _) = 400
status_code (invalid_token _) = 400
status_code not_found = 404
status_code (storage _) = 500

pub record RedeemResponse : Type 0 where
  pub status : Bytes
  pub service_token : Bytes
  pub balance : ℤ

pub data TokenState : Type 0 where
  active revoked : TokenState

pub record TokenStatusResponse : Type 0 where
  pub status : TokenState
  pub amount : ℤ
  pub issued_at : Timestamp
  pub revoked_at : Option Timestamp
  pub abuse_score : ℤ

-- What is serialized into a body.
pub data Body : Type 0 where
  redeem_body : RedeemResponse → Body
  token_body : TokenStatusResponse → Body
  error_body : Bytes → Body

pub record HttpResponse : Type 0 where
  pub code : ℕ
  pub body : Body

-- `error_response`.
unfoldable pub error_response : ApiError → HttpResponse
unfolding api_error_text status_code
error_response e = record { code = status_code e; body = error_body (api_error_text e) }

-- `str::starts_with` and `str::contains`.
abbrev pub starts_with : Bytes → Bytes → Bool
starts_with s [] = true
starts_with [] (_ ∷ _) = false
starts_with (a ∷ s) (b ∷ p) = a == b && starts_with s p

abbrev pub contains : Bytes → Bytes → Bool
contains [] p = starts_with [] p
contains (a ∷ s) p = starts_with (a ∷ s) p || contains s p

-- `err.to_string().to_lowercase().contains("unique")`. No character outside ASCII has a lower case
-- in which a letter of "unique" is followed by the next, so lowering ASCII letters decides it.
unfoldable pub names_unique : StorageError → Bool
names_unique e = contains (map to_ascii_lowercase (storage_error_text e)) (codes "unique")

abbrev pub map_option : {A B : Type 0} → (A → B) → Option A → Option B
map_option f none = none
map_option f (some a) = some (f a)

module _ (env : Env) where
  abbrev pub hint_of : PaymentId → World env → Option Bool
  hint_of pid w = map_option (might_contain env.floats env.hints pid) w.bloom

  -- `state.bloom().map(|b| b.might_contain(&pid))`.
  unfoldable pub bloom_hint : {E : Type 0} → PaymentId → Action (World env) E (Option Bool)
  bloom_hint pid w = (ok (hint_of pid w), w)

  -- `state.cache().mark_present(&pid)`, then `state.insert_bloom(&pid)`.
  unfoldable pub mark_hints : {E : Type 0} → PaymentId → Action (World env) E (Unit {0})
  mark_hints pid w = (
    ok tt,
    record w {
      cache = mark_present env.floats env.hints pid w.cache;
      bloom = map_option (bloom_insert env.floats env.hints pid) w.bloom;
    },
  )
