-- ===== src/Tests/Config.antt =====
-- The theorems of the configuration, applied to a list of variables.
use anon_ticket.Base.{
  ℕ, negsuc, ◌≤◌, ◌≡◌, ◌≢◌, refl, true, Option, none, some, List, [], ◌∷◌, String, Bytes, codes,
  bytes_eq, Result, ok, err, u64_max, if◌then◌else◌,
}
use anon_ticket.Config.Numbers.{Text, trim, parse_u64, parse_i64}
use anon_ticket.Config.{
  ApiConfig, BootstrapConfig, has_internal_listener, get_optional_var, get_required_var,
  get_optional_u64, get_optional_f64, api_config, load_api_config, load_bootstrap_config,
}
use anon_ticket.Config.Laws.{load_api_config-IsUsable, load_bootstrap_config-IsUsable}

abbrev pub look_up : List (Bytes × Text) → Bytes → Option Text
look_up [] key = none
look_up ((name, value) ∷ l) key = if bytes_eq name key then some value else look_up l key

abbrev pub variables : String → Option Text
variables key =
    look_up
      ((codes "DATABASE_URL", codes " sqlite://t.db ")
        ∷ (codes "API_BIND_ADDRESS", codes "localhost:80")
        ∷ (codes "API_INTERNAL_UNIX_SOCKET", codes "/run/s")
        ∷ (codes "API_PID_CACHE_CAPACITY", codes "200")
        ∷ (codes "MONERO_RPC_URL", codes "http://w")
        ∷ (codes "MONITOR_START_HEIGHT", codes "42")
        ∷ (codes "MONITOR_MIN_PAYMENT_AMOUNT", codes "-7")
        ∷ [])
      (codes key)

-- No float is read.
abbrev no_float : Text → Result ℕ ℕ
no_float s = err 0

abbrev an_api_config : ApiConfig ℕ
an_api_config = record {
  database_url = codes "sqlite://t.db";
  api_bind_address = codes "localhost:80";
  api_unix_socket = none;
  internal_bind_address = none;
  internal_unix_socket = some (codes "/run/s");
  pid_cache_ttl_secs = none;
  pid_cache_capacity = some 200;
  pid_bloom_entries = none;
  pid_bloom_fp_rate = none;
}

an_api_config-loads : load_api_config variables ℕ ℕ no_float ≡ ok an_api_config
unfolding load_api_config api_config get_optional_var get_required_var get_optional_u64
    get_optional_f64 trim parse_u64
an_api_config-loads = refl

load_api_config-IsUsable_example :
    (has_internal_listener an_api_config ≡ true)
    × (codes "sqlite://t.db" ≢ [])
    × (codes "localhost:80" ≢ [])
load_api_config-IsUsable_example =
    load_api_config-IsUsable variables ℕ ℕ no_float an_api_config an_api_config-loads

abbrev a_bootstrap_config : BootstrapConfig
a_bootstrap_config = record {
  database_url = codes "sqlite://t.db";
  monero_rpc_url = codes "http://w";
  monitor_start_height = 42;
  monitor_min_payment_amount = negsuc 6;
  monitor_poll_interval_secs = 5;
  monitor_min_confirmations = 10;
}

a_bootstrap_config-loads : load_bootstrap_config variables ℕ ℕ no_float ≡ ok a_bootstrap_config
unfolding load_bootstrap_config get_optional_var get_required_var trim parse_u64 parse_i64
a_bootstrap_config-loads = refl

load_bootstrap_config-IsUsable_example :
    (codes "sqlite://t.db" ≢ [])
    × (codes "http://w" ≢ [])
    × (42 ≤ u64_max)
    × (5 ≤ u64_max)
    × (10 ≤ u64_max)
load_bootstrap_config-IsUsable_example =
    load_bootstrap_config-IsUsable variables ℕ ℕ no_float a_bootstrap_config
      a_bootstrap_config-loads
