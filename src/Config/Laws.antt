-- ===== src/Config/Laws.antt =====
-- What a configuration that was loaded guarantees.
use anon_ticket.Base.{
  ℕ, pos, ◌≤◌, ◌≡◌, ◌≢◌, refl, subst, true, ◌||◌, Option, some, [], ◌∷◌, String, Result, ok, err,
  panic, and_then, map_err, is_some, unwrap_or, u64_max, Option-cases, Bool-cases, inl, inr, arith,
}
use anon_ticket.Config.Numbers.{Text, trim, parse_u64, parse_i64, parse_u64-bound}
use anon_ticket.Config.{
  ConfigError, invalid_number, ApiConfig, BootstrapConfig, has_internal_listener, non_empty,
  get_optional_var, get_required_var, get_optional_u64, get_optional_f64, api_config,
  load_api_config, required, number_or, load_bootstrap_config,
}

pub and_then-ok :
    {E A B : Type 0} (r : Result E A) (f : A → Result E B) (b : B)
    → and_then r f ≡ ok b
    → (a : A) × (r ≡ ok a) × (f a ≡ ok b)
and_then-ok (ok a) f b e = (a, refl, e)
and_then-ok (err x) f b e = absurd (cc)
and_then-ok panic f b e = absurd (cc)

pub map_err-ok :
    {E F A : Type 0} (f : E → F) (r : Result E A) (a : A) → map_err f r ≡ ok a → r ≡ ok a
map_err-ok f (ok b) a e = cc
map_err-ok f (err x) a e = absurd (cc)
map_err-ok f panic a e = absurd (cc)

module _ (var : String → Option Text) (F64 FloatError : Type 0)
    (parse_f64 : Text → Result FloatError F64) where
  abbrev text : String → Result (ConfigError FloatError) Text
  text = get_required_var var F64 FloatError parse_f64

  abbrev number : String → Result (ConfigError FloatError) (Option ℕ)
  number = get_optional_u64 var F64 FloatError parse_f64

  required-ok :
      (key : String) (s t : Text)
      → required var F64 FloatError parse_f64 key (non_empty s) ≡ ok t
      → t ≢ []
  required-ok key [] t e = absurd (cc)
  required-ok key (c ∷ s) t e = λ h. cc

  get_required_var-ok :
      (key : String) (t : Text) → get_required_var var F64 FloatError parse_f64 key ≡ ok t → t ≢ []
  unfolding get_required_var
  get_required_var-ok key t e = elim (Option-cases (var key)) [
    | inl absent ↦ absurd (cc (rw (get_required_var, absent) at e))
    | inr (v, there) ↦ required-ok key (trim v) t (rw (get_required_var, there) at e)
  ]

  api_config-ok :
      (api_socket bind socket : Option Text) (c : ApiConfig F64)
      → api_config var F64 FloatError parse_f64 api_socket bind socket ≡ ok c
      → (c.database_url ≢ [])
        × (c.api_bind_address ≢ [])
        × (c.internal_bind_address ≡ bind)
        × (c.internal_unix_socket ≡ socket)
  unfolding api_config
  api_config-ok api_socket bind socket c e =
      let (url, u, e₁) = and_then-ok (text "DATABASE_URL") _ c e in
      let (address, a, e₂) = and_then-ok (text "API_BIND_ADDRESS") _ c e₁ in
      let (ttl, _, e₃) = and_then-ok (number "API_PID_CACHE_TTL_SECS") _ c e₂ in
      let (capacity, _, e₄) = and_then-ok (number "API_PID_CACHE_CAPACITY") _ c e₃ in
      let (entries, _, e₅) = and_then-ok (number "API_PID_BLOOM_ENTRIES") _ c e₄ in
      let (rate, _, e₆) =
        and_then-ok (get_optional_f64 var F64 FloatError parse_f64 "API_PID_BLOOM_FP_RATE") _ c
          e₅ in
      let url_same : url ≡ c.database_url = cc e₆ in
      let address_same : address ≡ c.api_bind_address = cc e₆ in
      (
        subst (λ t. t ≢ []) url_same (get_required_var-ok "DATABASE_URL" url u),
        subst (λ t. t ≢ []) address_same (get_required_var-ok "API_BIND_ADDRESS" address a),
        cc e₆,
        cc e₆,
      )

  -- A configuration of the API that is loaded has a database, an address to bind to, and a listener
  -- for internal requests.
  pub load_api_config-IsUsable :
      (c : ApiConfig F64)
      → load_api_config var F64 FloatError parse_f64 ≡ ok c
      → (has_internal_listener c ≡ true) × (c.database_url ≢ []) × (c.api_bind_address ≢ [])
  unfolding load_api_config
  load_api_config-IsUsable c e =
      let bind = get_optional_var var F64 FloatError parse_f64 "API_INTERNAL_BIND_ADDRESS" in
      let socket = get_optional_var var F64 FloatError parse_f64 "API_INTERNAL_UNIX_SOCKET" in
      elim (Bool-cases (is_some bind || is_some socket)) [
        | inr neither ↦ absurd (cc (rw (load_api_config, neither) at e))
        | inl some_listener ↦
            let (url, address, b, s) =
              api_config-ok _ bind socket c (rw (load_api_config, some_listener) at e) in
            (rw (b, s) some_listener, url, address)
      ]

  -- A number that has a default is a `u64` in either case.
  number_or-bound :
      (key : String) (default n : ℕ)
      → default ≤ u64_max
      → number_or var F64 FloatError parse_f64 key parse_u64 default ≡ ok n
      → n ≤ u64_max
  number_or-bound key default n fits e =
      elim (Option-cases (get_optional_var var F64 FloatError parse_f64 key)) [
        | inl absent ↦ let e' : default ≡ n = cc (rw absent at e) in omega (arith, e', fits)
        | inr (v, there) ↦
            let (o, parsed, e') =
              and_then-ok
                (and_then (map_err (invalid_number key) (parse_u64 (trim v))) (λ a. ok (some a)))
                (λ o. ok (unwrap_or o default)) n (rw there at e) in
            let (m, first, rest) =
              and_then-ok
                (map_err {F = ConfigError FloatError} (invalid_number key) (parse_u64 (trim v)))
                (λ a. ok (some a)) o parsed in
            let same : m ≡ n = cc (rest, e') in
            subst (λ x. x ≤ u64_max) same
              (parse_u64-bound (trim v) m
                (map_err-ok (invalid_number key) (parse_u64 (trim v)) m first))
      ]

  -- A configuration of the monitor that is loaded has a database and a wallet to ask, and its
  -- heights and its interval are 64-bit numbers.
  pub load_bootstrap_config-IsUsable :
      (c : BootstrapConfig)
      → load_bootstrap_config var F64 FloatError parse_f64 ≡ ok c
      → (c.database_url ≢ [])
        × (c.monero_rpc_url ≢ [])
        × (c.monitor_start_height ≤ u64_max)
        × (c.monitor_poll_interval_secs ≤ u64_max)
        × (c.monitor_min_confirmations ≤ u64_max)
  unfolding load_bootstrap_config
  load_bootstrap_config-IsUsable c e =
      let (url, u, e₁) = and_then-ok (text "DATABASE_URL") _ c e in
      let (rpc_url, r, e₂) = and_then-ok (text "MONERO_RPC_URL") _ c e₁ in
      let (height, _, e₃) = and_then-ok (text "MONITOR_START_HEIGHT") _ c e₂ in
      let (start, h, e₄) =
        and_then-ok
          (map_err {F = ConfigError FloatError} (invalid_number "MONITOR_START_HEIGHT")
            (parse_u64 height))
          _ c e₃ in
      let (least, _, e₅) =
        and_then-ok
          (number_or var F64 FloatError parse_f64 "MONITOR_MIN_PAYMENT_AMOUNT" parse_i64
            (pos 10_000_000_000))
          _ c e₄ in
      let (interval, i, e₆) =
        and_then-ok
          (number_or var F64 FloatError parse_f64 "MONITOR_POLL_INTERVAL_SECS" parse_u64 5) _ c
          e₅ in
      let (confirmations, n, e₇) =
        and_then-ok
          (number_or var F64 FloatError parse_f64 "MONITOR_MIN_CONFIRMATIONS" parse_u64 10) _ c
          e₆ in
      let start_fits =
        parse_u64-bound height start
          (map_err-ok (invalid_number "MONITOR_START_HEIGHT") (parse_u64 height) start h) in
      (
        subst (λ t. t ≢ []) (cc e₇) (get_required_var-ok "DATABASE_URL" url u),
        subst (λ t. t ≢ []) (cc e₇) (get_required_var-ok "MONERO_RPC_URL" rpc_url r),
        subst (λ m. m ≤ u64_max) (cc e₇) start_fits,
        subst (λ m. m ≤ u64_max) (cc e₇)
            (number_or-bound "MONITOR_POLL_INTERVAL_SECS" 5 interval (omega arith) i),
        subst (λ m. m ≤ u64_max) (cc e₇)
            (number_or-bound "MONITOR_MIN_CONFIRMATIONS" 10 confirmations (omega arith) n),
      )
