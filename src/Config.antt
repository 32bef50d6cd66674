-- ===== src/Config.antt =====
-- crates/domain/src/config.rs: the configuration that the process variables hold. A text is the list
-- of its characters here, since trimming and parsing go by characters.
pub mod Numbers
pub mod Laws
use anon_ticket.Base.{
  ℕ, ℤ, pos, Bool, true, false, ◌||◌, Option, none, some, List, [], ◌∷◌, String, Result, ok, err,
  panic, and_then, map_err, is_some, unwrap_or, if◌then◌else◌,
}
use anon_ticket.Config.Numbers.{Text, trim, ParseIntError, parse_u64, parse_i64}

pub data ConfigError (F : Type 0) : Type 0 where
  missing_var : String → ConfigError F
  missing_internal_listener : ConfigError F
  invalid_number : String → ParseIntError → ConfigError F
  invalid_float : String → F → ConfigError F

pub record ApiConfig (F64 : Type 0) : Type 0 where
  pub database_url : Text
  pub api_bind_address : Text
  pub api_unix_socket : Option Text
  pub internal_bind_address : Option Text
  pub internal_unix_socket : Option Text
  pub pid_cache_ttl_secs : Option ℕ
  pub pid_cache_capacity : Option ℕ
  pub pid_bloom_entries : Option ℕ
  pub pid_bloom_fp_rate : Option F64

pub record BootstrapConfig : Type 0 where
  pub database_url : Text
  pub monero_rpc_url : Text
  pub monitor_start_height : ℕ
  pub monitor_min_payment_amount : ℤ
  pub monitor_poll_interval_secs : ℕ
  pub monitor_min_confirmations : ℕ

abbrev pub has_internal_listener : {F64 : Type 0} → ApiConfig F64 → Bool
has_internal_listener c = is_some c.internal_bind_address || is_some c.internal_unix_socket

-- A text, unless it is empty.
abbrev pub non_empty : Text → Option Text
non_empty [] = none
non_empty (c ∷ s) = some (c ∷ s)

-- `Option<Result<A, E>>::transpose`, after a `map`.
abbrev pub parse_optional : {E A : Type 0} → (Text → Result E A) → Option Text → Result E (Option A)
parse_optional parse none = ok none
parse_optional parse (some s) = and_then (parse s) (λ a. ok (some a))

-- The process variables that are valid Unicode, as `std::env::var` reads them, and the parser of
-- floats with its errors.
module _ (var : String → Option Text) (F64 FloatError : Type 0)
    (parse_f64 : Text → Result FloatError F64) where
  unfoldable pub get_optional_var : String → Option Text
  unfolding trim
  get_optional_var key = elim (var key) [ none ↦ none | some value ↦ non_empty (trim value) ]

  abbrev required : String → Option Text → Result (ConfigError FloatError) Text
  required key none = err (missing_var key)
  required key (some s) = ok s

  -- The same test of a trimmed value, with an error for its absence.
  unfoldable pub get_required_var : String → Result (ConfigError FloatError) Text
  unfolding trim
  get_required_var key = elim (var key) [
    | none ↦ err (missing_var key)
    | some value ↦ required key (non_empty (trim value))
  ]

  unfoldable pub get_optional_u64 : String → Result (ConfigError FloatError) (Option ℕ)
  unfolding get_optional_var parse_u64
  get_optional_u64 key =
      parse_optional (λ value. map_err (invalid_number key) (parse_u64 value))
        (get_optional_var key)

  unfoldable pub get_optional_f64 : String → Result (ConfigError FloatError) (Option F64)
  unfolding get_optional_var
  get_optional_f64 key =
      parse_optional (λ value. map_err (invalid_float key) (parse_f64 value)) (get_optional_var key)

  -- The record, once there is an internal listener.
  unfoldable pub api_config :
      Option Text → Option Text → Option Text → Result (ConfigError FloatError) (ApiConfig F64)
  unfolding get_required_var get_optional_u64 get_optional_f64
  api_config api_socket bind socket = and_then (get_required_var "DATABASE_URL") (λ url.
      and_then (get_required_var "API_BIND_ADDRESS") (λ address.
        and_then (get_optional_u64 "API_PID_CACHE_TTL_SECS") (λ ttl.
          and_then (get_optional_u64 "API_PID_CACHE_CAPACITY") (λ capacity.
            and_then (get_optional_u64 "API_PID_BLOOM_ENTRIES") (λ entries.
              and_then (get_optional_f64 "API_PID_BLOOM_FP_RATE") (λ rate. ok (record {
                database_url = url;
                api_bind_address = address;
                api_unix_socket = api_socket;
                internal_bind_address = bind;
                internal_unix_socket = socket;
                pid_cache_ttl_secs = ttl;
                pid_cache_capacity = capacity;
                pid_bloom_entries = entries;
                pid_bloom_fp_rate = rate;
              })))))))

  -- `ApiConfig::load_from_env`.
  unfoldable pub load_api_config : Result (ConfigError FloatError) (ApiConfig F64)
  unfolding get_optional_var api_config
  load_api_config =
      let bind = get_optional_var "API_INTERNAL_BIND_ADDRESS" in
      let socket = get_optional_var "API_INTERNAL_UNIX_SOCKET" in
      if is_some bind || is_some socket
      then api_config (get_optional_var "API_UNIX_SOCKET") bind socket
      else err missing_internal_listener

  abbrev number_or :
      {A : Type 0}
      → String
      → (Text → Result ParseIntError A)
      → A
      → Result (ConfigError FloatError) A
  number_or key parse default =
      and_then
        (parse_optional (λ value. map_err (invalid_number key) (parse (trim value)))
          (get_optional_var key))
        (λ o. ok (unwrap_or o default))

  -- `BootstrapConfig::load_from_env`.
  unfoldable pub load_bootstrap_config : Result (ConfigError FloatError) BootstrapConfig
  unfolding get_required_var get_optional_var parse_u64 parse_i64 trim
  load_bootstrap_config = and_then (get_required_var "DATABASE_URL") (λ url.
      and_then (get_required_var "MONERO_RPC_URL") (λ rpc_url.
        and_then (get_required_var "MONITOR_START_HEIGHT") (λ height.
          and_then (map_err (invalid_number "MONITOR_START_HEIGHT") (parse_u64 height)) (λ start.
            and_then (number_or "MONITOR_MIN_PAYMENT_AMOUNT" parse_i64 (pos 10_000_000_000))
              (λ least. and_then (number_or "MONITOR_POLL_INTERVAL_SECS" parse_u64 5) (λ interval.
                and_then (number_or "MONITOR_MIN_CONFIRMATIONS" parse_u64 10) (λ confirmations.
                  ok (record {
                    database_url = url;
                    monero_rpc_url = rpc_url;
                    monitor_start_height = start;
                    monitor_min_payment_amount = least;
                    monitor_poll_interval_secs = interval;
                    monitor_min_confirmations = confirmations;
                  }))))))))
