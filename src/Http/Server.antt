-- ===== src/Http/Server.antt =====
-- The state of the server, the sweep and the rate limiter (internal/httpserver/http_server.c and
-- http_server.h).
use mp_cache.Prelude.{
  ℕ, ◌+◌, ◌*◌, ◌%◌, Bool, true, false, not, ◌&&◌, ◌||◌, Bytes, Option, none, some, List, [], ◌∷◌,
  ◌++◌, length, leb, ◌==◌, str_equal, if◌then◌else◌,
}
use mp_cache.Prelude.Int.{ℤ, pos, leb_ℤ, ◌-ℤ◌}
use mp_cache.Cache.Store.{Store}
use mp_cache.Cache.Walk.{purge_expired}
use mp_cache.Security.Registry.{Security}
use mp_cache.Security.Records.{client_id_cap}
use mp_cache.Storage.Packet.{StorageKey}
use mp_cache.Storage.Load.{Files}
use mp_cache.Storage.Exchange.{Exports}
use mp_cache.Text.Scan.{truncated}
use mp_cache.Text.Number.{word32}

-- The fields of `mp_cache_config_t` that the server reads.
pub record Config : Type 0 where
  pub service_name : Bytes
  pub environment_name : Bytes
  pub socket_path : Bytes
  pub default_ttl_seconds : ℕ
  pub min_ttl_seconds : ℕ
  pub max_ttl_seconds : ℕ
  pub max_key_bytes : ℕ
  pub sweep_interval_seconds : ℕ
  pub rate_limit_requests : ℕ
  pub rate_limit_window_seconds : ℕ

-- `mp_cache_rate_limit_entry_t`.
pub record RateLimitEntry : Type 0 where
  pub subject : Bytes
  pub window_started_at : ℤ
  pub request_count : ℕ

-- `mp_cache_rate_limiter_t`; `entries` holds the first `count` entries of the array.
pub record RateLimiter : Type 0 where
  pub entries : List RateLimitEntry
  pub capacity : ℕ

-- `mp_cache_http_metrics_t`.
pub record Metrics : Type 0 where
  pub total_requests : ℕ
  pub unauthorized_requests : ℕ
  pub forbidden_requests : ℕ
  pub rate_limited_requests : ℕ
  pub cache_hits : ℕ
  pub cache_misses : ℕ
  pub cache_sets : ℕ
  pub cache_deletes : ℕ
  pub client_registrations : ℕ
  pub token_rotations : ℕ
  pub token_invalidations : ℕ
  pub exports : ℕ
  pub imports : ℕ
  pub log_reads : ℕ

-- `mp_cache_http_server_t`: what it points to is a part of it, and the storage is its key and the
-- two files that it writes.
pub record Server : Type 0 where
  pub config : Config
  pub started_at_utc : ℤ
  pub last_sweep_at_utc : ℤ
  pub store : Store
  pub security : Security
  pub storage : StorageKey
  pub exports : Exports
  pub files : Files
  pub rate_limiter : RateLimiter
  pub metrics : Metrics

abbrev pub no_metrics : Metrics
no_metrics = record {
  total_requests = 0;
  unauthorized_requests = 0;
  forbidden_requests = 0;
  rate_limited_requests = 0;
  cache_hits = 0;
  cache_misses = 0;
  cache_sets = 0;
  cache_deletes = 0;
  client_registrations = 0;
  token_rotations = 0;
  token_invalidations = 0;
  exports = 0;
  imports = 0;
  log_reads = 0;
}

-- The assignments of `mp_cache_http_server_start`.
unfoldable pub start : Config → Store → Security → StorageKey → Exports → Files → ℤ → Server
start config store security storage exports files started_at_utc = record {
  config = config;
  started_at_utc = started_at_utc;
  last_sweep_at_utc = started_at_utc;
  store = store;
  security = security;
  storage = storage;
  exports = exports;
  files = files;
  rate_limiter = record { entries = []; capacity = 0 };
  metrics = no_metrics;
}

abbrev is_zero : ℤ → Bool
is_zero time = leb_ℤ time (pos 0) && leb_ℤ (pos 0) time

-- `mp_cache_http_maybe_sweep`.
unfoldable pub maybe_sweep : Server → ℤ → Server
maybe_sweep server now =
    if is_zero server.last_sweep_at_utc
      || leb_ℤ (pos server.config.sweep_interval_seconds) (now -ℤ server.last_sweep_at_utc)
    then record server { store = (purge_expired server.store now).1; last_sweep_at_utc = now }
    else server

-- The search of a subject, and the write through the pointer that it gives.
unfoldable pub find_entry : Bytes → List RateLimitEntry → Option RateLimitEntry
find_entry subject [] = none
find_entry subject (e ∷ rest) =
    if str_equal e.subject subject then some e else find_entry subject rest

unfoldable pub write_entry : Bytes → RateLimitEntry → List RateLimitEntry → List RateLimitEntry
write_entry subject next [] = []
write_entry subject next (e ∷ rest) =
    if str_equal e.subject subject then next ∷ rest else e ∷ write_entry subject next rest

-- A new window where the old one is over.
unfoldable pub renewed : Config → ℤ → RateLimitEntry → RateLimitEntry
renewed config now e =
    if leb_ℤ (pos config.rate_limit_window_seconds) (now -ℤ e.window_started_at)
    then record e { window_started_at = now; request_count = 0 }
    else e

-- The end of `mp_cache_http_rate_limit_allow`: whether the request is allowed, and the entry.
unfoldable pub count_request : Config → ℤ → RateLimitEntry → Bool × RateLimitEntry
unfolding renewed
count_request config now e =
    let current = renewed config now e in
    if leb config.rate_limit_requests current.request_count
    then (false, current)
    else (true, record current { request_count = (current.request_count + 1) % word32 })

abbrev pub fresh_entry : Bytes → ℤ → RateLimitEntry
fresh_entry subject now = record {
  subject = truncated client_id_cap subject;
  window_started_at = now;
  request_count = 0;
}

abbrev pub next_capacity : RateLimiter → ℕ
next_capacity limiter =
    if length limiter.entries == limiter.capacity
    then (if limiter.capacity == 0 then 8 else limiter.capacity * 2)
    else limiter.capacity

-- `mp_cache_http_rate_limit_allow`; `reallocated` says whether `realloc` succeeds.
unfoldable pub rate_limit_allow : Bool → Config → RateLimiter → Bytes → ℤ → Bool × RateLimiter
rate_limit_allow reallocated config limiter subject now =
    elim (find_entry subject limiter.entries) [
      | some e ↦
          let counted = count_request config now e in
          (counted.0, record limiter { entries = write_entry subject counted.1 limiter.entries })
      | none ↦
          if length limiter.entries == limiter.capacity && not reallocated
          then (false, limiter)
          else let counted = count_request config now (fresh_entry subject now) in
            (
              counted.0,
              record {
                entries = limiter.entries ++ counted.1 ∷ [];
                capacity = next_capacity limiter;
              },
            )
    ]
