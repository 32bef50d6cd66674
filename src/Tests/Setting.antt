-- ===== src/Tests/Setting.antt =====
-- The concrete surrounding: a database that is its tables and never fails, and hint structures that
-- are lists.
use anon_ticket.Base.{
  ℕ, pos, refl, Bool, false, none, some, err, List, [], ◌∷◌, Bytes, codes, ltb, leb, bytes_eq,
  bytes_eq_refl, ◌||◌, arith, ◌==◌, if◌then◌else◌,
}
use anon_ticket.Database.{
  Tables, Engine, IsEngine, IsReliable, sqlite, insert_payment_meaning, update_payment_meaning,
  select_payment_meaning, select_pids_meaning, insert_token_meaning, select_token_meaning,
  update_token_meaning, insert_state_meaning, select_state_meaning,
}
use anon_ticket.Services.{Floats, Hints, IsFilter}
use anon_ticket.Env.{Env, World}
use anon_ticket.Tests.Hex.{plain_codec}

abbrev pub broken : Bytes
broken = codes "UNIQUE constraint failed"

abbrev missing : Bytes
missing = 2 ∷ []

abbrev pub memory_engine : Engine
memory_engine = record {
  Db = Tables;
  tables = λ d. d;
  backend = λ _. sqlite;
  fault = λ _. none;
  broken_key = broken;
  not_updated = missing;
  insert_payment = λ s d. insert_payment_meaning broken s d;
  update_payment = λ u d. update_payment_meaning u d;
  select_payment = λ k d. select_payment_meaning k d;
  select_pids = λ d. select_pids_meaning d;
  insert_token = λ s d. insert_token_meaning broken s d;
  select_token = λ k d. select_token_meaning k d;
  update_token = λ k l d. update_token_meaning missing k l d;
  insert_state = λ s d. insert_state_meaning broken s d;
  select_state = λ k d. select_state_meaning k d;
}

pub memory_engine-IsEngine : IsEngine memory_engine
memory_engine-IsEngine = record {
  insert_payment_obeys = λ s d. (refl, refl);
  update_payment_obeys = λ u d. (refl, refl);
  select_payment_obeys = λ k d. (refl, refl);
  select_pids_obeys = λ d. (refl, refl);
  insert_token_obeys = λ s d. (refl, refl);
  select_token_obeys = λ k d. (refl, refl);
  update_token_obeys = λ k l d. (refl, refl);
  insert_state_obeys = λ s d. (refl, refl);
  select_state_obeys = λ k d. (refl, refl);
}

pub memory_engine-IsReliable : IsReliable memory_engine
memory_engine-IsReliable d = refl

-- The rates are percentages.
abbrev pub percent : Floats
percent = record {
  F64 = ℕ;
  f64_le = leb;
  f64_lt = ltb;
  zero_f64 = 0;
  one_f64 = 100;
  hundredth = 1;
  display = λ _. [];
  FloatError = ℕ;
  parse_f64 = λ _. err 0;
}

abbrev pub member : Bytes → List Bytes → Bool
member k [] = false
member k (x ∷ l) = bytes_eq x k || member k l

abbrev pub listed : Hints percent
listed = record {
  Cache = List Bytes;
  build_cache = λ _ _. [];
  contains_key = member;
  cache_insert = λ k l. k ∷ l;
  Filter = List Bytes;
  build_filter = λ rate _. if rate == 0 then none else some [];
  filter_contains = member;
  filter_insert = λ k l. k ∷ l;
}

pub listed-IsFilter : IsFilter percent listed
listed-IsFilter = record {
  contains-insert_self = λ k b. rw (bytes_eq_refl k) refl;
  contains-insert = λ j k b h. ground arith;
}

-- The n-th reading of the clock is n.
abbrev pub small_env : Env
small_env = record {
  codec = plain_codec;
  engine = memory_engine;
  floats = percent;
  hints = listed;
  clock = λ n. pos n;
  from_timestamp = λ s. some s;
}

-- A process over some tables, with the payment ids in its Bloom filter.
abbrev pub process_over : Tables → List Bytes → World small_env
process_over t known = record {
  db = t;
  cache = [];
  bloom = some known;
  clock_reads = 0;
  metrics = [];
}
