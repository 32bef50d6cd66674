-- ===== src/Startup.antt =====
-- crates/api/src/application.rs: how the API process builds and fills its hints before it serves.
pub mod Prewarm
pub mod Host
pub mod Boot
pub mod Started
pub mod BootLaws
pub mod Standalone
use anon_ticket.Base.{
  ℕ, sym, ◌∙◌, ap, Bool, not, Option, none, some, List, [], ◌∷◌, ◌++◌, map, String, Bytes, codes,
  Result, ok, err, panic, Action, ◌>>=◌, pure, lift_err, unwrap_or, ◌==◌, if◌then◌else◌,
  Result-cases, map_err, bytes_eq_iff,
}
use anon_ticket.Model.{PaymentId, IsPid, pid_try_from}
use anon_ticket.Services.{
  Floats, Hints, IsFilter, BloomConfigError, invalid_entries, unit_range_contains, new_bloom,
  bloom_insert, mark_present, might_contain,
}
use anon_ticket.Database.{IsEngine, find, payment_key, PaymentModel, select_pids_meaning}
use anon_ticket.Env.{Env, World, StorageError}
use anon_ticket.Storage.{all_payment_ids}
use anon_ticket.Api.{hint_of, map_option}
use anon_ticket.Config.{ConfigError}
use anon_ticket.Telemetry.{TelemetryError}
use anon_ticket.Monitor.{MonitorError}

-- The texts are those of the errors of the system and of a task that was not joined.
pub data BootstrapError (f : Floats) : Type 0 where
  config monitor_config : ConfigError f.FloatError → BootstrapError f
  telemetry : TelemetryError → BootstrapError f
  storage : StorageError → BootstrapError f
  monitor : MonitorError → BootstrapError f
  io invalid_bloom_config join : Bytes → BootstrapError f

abbrev pub default_pid_bloom_entries : ℕ
default_pid_bloom_entries = 100_000

-- `DEFAULT_PID_BLOOM_FP_RATE`.
abbrev pub default_pid_bloom_fp_rate : (f : Floats) → f.F64
default_pid_bloom_fp_rate f = f.hundredth

module _ (f : Floats) (h : Hints f) where
  -- The match on the error of `PidBloom::new`.
  abbrev bloom_error : BloomConfigError f → BootstrapError f
  bloom_error BloomConfigError.invalid_entries =
      invalid_bloom_config (codes "API_PID_BLOOM_ENTRIES must be > 0")
  bloom_error (BloomConfigError.invalid_false_positive_rate rate) =
      invalid_bloom_config (codes "API_PID_BLOOM_FP_RATE must be in (0,1): " ++ f.display rate)

  -- A filter that was built.
  abbrev built : Result (BloomConfigError f) h.Filter → Result (BootstrapError f) (Option h.Filter)
  built (ok b) = ok (some b)
  built (err e) = err (bloom_error e)
  built panic = panic

  unfoldable pub build_bloom_filter :
      Option ℕ → Option f.F64 → Result (BootstrapError f) (Option h.Filter)
  unfolding unit_range_contains new_bloom
  build_bloom_filter entries fp_rate =
      let entries' = unwrap_or entries default_pid_bloom_entries in
      let fp = unwrap_or fp_rate (default_pid_bloom_fp_rate f) in
      if entries' == 0
      then ok none
      else if not (unit_range_contains f h fp)
      then err (invalid_bloom_config (codes "API_PID_BLOOM_FP_RATE must be between 0 and 1"))
      else built (new_bloom f h entries' fp)

module _ (env : Env) where
  -- The loop of `prewarm_hints`.
  unfoldable pub mark_all : List PaymentId → World env → World env
  unfolding mark_present bloom_insert
  mark_all [] w = w
  mark_all (pid ∷ pids) w = mark_all pids (record w {
    cache = mark_present env.floats env.hints pid w.cache;
    bloom = map_option (bloom_insert env.floats env.hints pid) w.bloom;
  })

  -- The world after the loop.
  abbrev marked : List PaymentId → Action (World env) (BootstrapError env.floats) (Unit {0})
  marked pids w = (ok tt, mark_all pids w)

  unfoldable pub prewarm_hints : Action (World env) (BootstrapError env.floats) (Unit {0})
  unfolding all_payment_ids mark_all
  prewarm_hints = lift_err storage (all_payment_ids env) >>= marked
