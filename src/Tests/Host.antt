-- ===== src/Tests/Host.antt =====
-- A host that starts the process over one stored payment: its database has a catalog beside the
-- tables, and its system is the list of the names that are bound.
use anon_ticket.Base.{
  ℕ, pos, refl, true, false, Option, none, some, List, [], ◌∷◌, Bytes, codes, Result, ok, err,
  if◌then◌else◌,
}
use anon_ticket.Database.{
  Tables, Engine, IsEngine, IsReliable, Statement, sqlite, insert_payment_meaning,
  update_payment_meaning, select_payment_meaning, select_pids_meaning, insert_token_meaning,
  select_token_meaning, update_token_meaning, insert_state_meaning, select_state_meaning,
}
use anon_ticket.Env.{Env}
use anon_ticket.Config.Numbers.{Text}
use anon_ticket.Storage.{
  TableCreateStatement, Connector, IsConnector, SqlStatement, from_string, build, is_setting,
  create_meaning,
}
use anon_ticket.Telemetry.{Exporters, TelemetryState}
use anon_ticket.Startup.Host.{Host}
use anon_ticket.Startup.Boot.{Start}
use anon_ticket.Tests.Hex.{plain_codec}
use anon_ticket.Tests.Setting.{broken, percent, listed, member}
use anon_ticket.Tests.Ledger.{unclaimed_row, ledger_of}
use anon_ticket.Tests.Config.{look_up}

abbrev Disk : Type 0
Disk = Tables × List TableCreateStatement

-- A statement on the rows leaves the catalog.
abbrev on_rows : {A : Type 0} → Statement Tables A → Statement Disk A
on_rows run d = let (r, t) = run d.0 in (r, (t, d.1))

abbrev pub disk_engine : Engine
disk_engine = record {
  Db = Disk;
  tables = λ d. d.0;
  backend = λ _. sqlite;
  fault = λ _. none;
  broken_key = broken;
  not_updated = broken;
  insert_payment = λ s. on_rows (insert_payment_meaning broken s);
  update_payment = λ u. on_rows (update_payment_meaning u);
  select_payment = λ k. on_rows (select_payment_meaning k);
  select_pids = on_rows select_pids_meaning;
  insert_token = λ s. on_rows (insert_token_meaning broken s);
  select_token = λ k. on_rows (select_token_meaning k);
  update_token = λ k l. on_rows (update_token_meaning broken k l);
  insert_state = λ s. on_rows (insert_state_meaning broken s);
  select_state = λ k. on_rows (select_state_meaning k);
}

pub disk_engine-IsEngine : IsEngine disk_engine
disk_engine-IsEngine = record {
  insert_payment_obeys = λ s d. (refl, refl);
  update_payment_obeys = λ u d. (refl, refl);
  select_payment_obeys = λ k d. (refl, refl);
  select_pids_obeys = λ d. (refl, refl);
  insert_token_obeys = λ s d. (refl, refl);
  select_token_obeys = λ k d. (refl, refl);
  update_token_obeys = λ k l d. (refl, refl);
  insert_state_obeys = λ s d. (refl, refl);
  select_state_obeys = λ k d. (refl, refl);
}

pub disk_engine-IsReliable : IsReliable disk_engine
disk_engine-IsReliable d = refl

abbrev pub disk_env : Env
disk_env = record {
  codec = plain_codec;
  engine = disk_engine;
  floats = percent;
  hints = listed;
  clock = λ n. pos n;
  from_timestamp = λ s. some s;
}

abbrev pub stored_disk : Disk
stored_disk = (ledger_of unclaimed_row, [])

-- A text that is no setting loses everything.
abbrev disk_execute : SqlStatement → Statement Disk (Unit {0})
disk_execute (from_string _ sql) d = (
  ok tt,
  if is_setting sql then d else (record { payments = []; tokens = []; monitor_state = [] }, []),
)
disk_execute (build _ s) d = let (r, c) = create_meaning (codes "exists") s d.1 in (r, (d.0, c))

abbrev pub disk_connector : Connector disk_env
disk_connector = record {
  catalog = λ d. d.1;
  table_exists = codes "exists";
  execute = disk_execute;
  connect = λ _. ok stored_disk;
}

pub disk_connector-IsConnector : IsConnector disk_connector
disk_connector-IsConnector = record {
  create_obeys = λ b s d. (refl, refl);
  create_keeps = λ b s d. (refl, refl);
  setting_keeps = λ b sql d known. rw known (refl, refl, refl);
}

-- A filter has to say something; a recorder is numbered.
abbrev pub plain_exporters : Exporters
plain_exporters = record {
  Globals = ℕ;
  EnvFilter = Text;
  SocketAddr = Text;
  PrometheusHandle = ℕ;
  try_new = λ s. elim s [ [] ↦ err (codes "empty") | c ∷ t ↦ ok (c ∷ t) ];
  try_init = λ f g. (ok tt, g);
  parse_address = λ s. ok s;
  install_recorder = λ a g. (ok 7, g);
  render = λ h g. [];
}

abbrev pub fresh_process : TelemetryState plain_exporters
fresh_process = record { subscriber_installed = false; metrics_handle = none; globals = 0 }

-- A name that is bound is not bound again.
abbrev bind_name : Text → List Text → Result Bytes (Unit {0}) × List Text
bind_name a l = (ok tt, a ∷ l)

abbrev variables : Text → Option Text
variables key =
    look_up
      ((codes "DATABASE_URL", codes "sqlite://t.db")
        ∷ (codes "API_BIND_ADDRESS", codes "localhost:80")
        ∷ (codes "API_INTERNAL_UNIX_SOCKET", codes "/run/s")
        ∷ (codes "API_ALLOW_NO_MONITOR", codes "True")
        ∷ [])
      key

abbrev pub a_host : Host disk_env
a_host = record {
  var = variables;
  exporters = plain_exporters;
  connector = disk_connector;
  Source = Unit {0};
  rpc_client = λ _. ok tt;
  System = List Text;
  unix = true;
  exists_path = member;
  remove_file = λ path l. (ok tt, l);
  bind = bind_name;
  bind_uds = bind_name;
}

abbrev pub a_start : Start a_host
a_start = record { process = fresh_process; system = [] }
