-- ===== src/Services.antt =====
-- crates/domain/src/services/cache.rs: the cache of known payment ids and the Bloom filter. The
-- crates `moka` and `fastbloom` below them are parameters, as are the floats.
use anon_ticket.Base.{
  ℕ, ◌≡◌, Bool, true, not, ◌&&◌, List, Bytes, Result, ok, err, panic, Option, none, some, ◌==◌, max,
  if◌then◌else◌,
}
use anon_ticket.Model.{PaymentId}

pub record Floats : Type 1 where
  pub F64 : Type 0
  pub f64_le : F64 → F64 → Bool
  pub f64_lt : F64 → F64 → Bool
  pub zero_f64 : F64
  pub one_f64 : F64
  -- The literal 0.01.
  pub hundredth : F64
  pub display : F64 → Bytes
  -- `str::parse`, with its error, on a text as the list of its characters.
  pub FloatError : Type 0
  pub parse_f64 : List ℕ → Result FloatError F64

-- What is called of `moka::sync::Cache` and of `fastbloom::AtomicBloomFilter`.
pub record Hints (f : Floats) : Type 1 where
  pub Cache : Type 0
  -- `time_to_live` in seconds, and `max_capacity`.
  pub build_cache : ℕ → ℕ → Cache
  pub contains_key : Bytes → Cache → Bool
  pub cache_insert : Bytes → Cache → Cache
  pub Filter : Type 0
  -- `with_false_pos`, `expected_items`: none where the crate panics, of which nothing is assumed for
  -- any rate.
  pub build_filter : f.F64 → ℕ → Option Filter
  pub filter_contains : Bytes → Filter → Bool
  pub filter_insert : Bytes → Filter → Filter

-- A Bloom filter has no false negative.
pub record IsFilter (f : Floats) (h : Hints f) : Type 0 where
  pub contains-insert_self :
      (k : Bytes) (b : h.Filter) → h.filter_contains k (h.filter_insert k b) ≡ true
  pub contains-insert :
      (j k : Bytes) (b : h.Filter)
      → h.filter_contains j b ≡ true
      → h.filter_contains j (h.filter_insert k b) ≡ true

pub data BloomConfigError (f : Floats) : Type 0 where
  invalid_entries : BloomConfigError f
  invalid_false_positive_rate : f.F64 → BloomConfigError f

abbrev pub default_ttl : ℕ
default_ttl = 60

abbrev pub default_capacity : ℕ
default_capacity = 100_000

module _ (f : Floats) (h : Hints f) where
  -- `(0.0..1.0).contains(&x)`: a range closed below and open above.
  unfoldable pub unit_range_contains : f.F64 → Bool
  unit_range_contains x = f.f64_le f.zero_f64 x && f.f64_lt x f.one_f64

  -- `InMemoryPidCache::with_capacity`.
  unfoldable pub with_capacity : ℕ → ℕ → h.Cache
  with_capacity ttl capacity = h.build_cache ttl (max capacity 1)

  unfoldable pub mark_present : PaymentId → h.Cache → h.Cache
  mark_present pid cache = h.cache_insert pid.bytes cache

  unfoldable pub known_present : PaymentId → h.Cache → Bool
  known_present pid cache = h.contains_key pid.bytes cache

  -- What the crate makes of a rate and a number of items.
  abbrev constructed : Option h.Filter → Result (BloomConfigError f) h.Filter
  constructed (some filter) = ok filter
  constructed none = panic

  -- `PidBloom::new`. The rate 0.0 passes its check.
  unfoldable pub new_bloom : ℕ → f.F64 → Result (BloomConfigError f) h.Filter
  unfolding unit_range_contains
  new_bloom expected_items false_positive_rate =
      if expected_items == 0
      then err invalid_entries
      else if not (unit_range_contains false_positive_rate)
      then err (invalid_false_positive_rate false_positive_rate)
      else constructed (h.build_filter false_positive_rate expected_items)

  unfoldable pub bloom_insert : PaymentId → h.Filter → h.Filter
  bloom_insert pid filter = h.filter_insert pid.bytes filter

  unfoldable pub might_contain : PaymentId → h.Filter → Bool
  might_contain pid filter = h.filter_contains pid.bytes filter
