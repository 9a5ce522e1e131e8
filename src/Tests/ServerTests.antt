-- ===== src/Tests/ServerTests.antt =====
-- Requests to a small server (tests/unit/http_tests.c).
use mp_cache.Prelude.{
  ◌≡◌, ◌⊎◌, ◌≤◌, ◌+◌, ◌<◌, suc, refl, true, false, Bool, Bytes, codes, Option, none, some, List, [],
  ◌∷◌, ◌++◌, replicate, length, arith, All,
}
use mp_cache.Prelude.Int.{ℤ, pos, ◌-ℤ◌, leb_ℤ}
use mp_cache.Security.Roles.{client, admin}
use mp_cache.Http.Request.{Request, blank_request}
use mp_cache.Http.Server.{
  Config, Server, RateLimiter, RateLimitEntry, find_entry, rate_limit_allow, start,
}
use mp_cache.Http.Host.{Host, no_log}
use mp_cache.Http.Route.{route_request, received}
use mp_cache.Http.Admission.{IsAuthorized}
use mp_cache.Http.Gates.{Guarded, is_public, route_request-Guarded}
use mp_cache.Http.Rights.{route_request-administrator}
use mp_cache.Http.Limits.{Ask, IsShort, granted_to}
use mp_cache.Http.Budget.{
  allowance, granted_to_bound, ask_all, IsOther, Within, rate_limit_allow-again,
}
use mp_cache.Tests.CacheTests.{plenty, fresh_store, key_a, key_b}
use mp_cache.Tests.SecurityTests.{fresh_registry}

abbrev pub config : Config
config = record {
  service_name = codes "mp-cache";
  environment_name = codes "local";
  socket_path = codes "/tmp/mp-cache.sock";
  default_ttl_seconds = 10;
  min_ttl_seconds = 1;
  max_ttl_seconds = 100;
  max_key_bytes = 8;
  sweep_interval_seconds = 30;
  rate_limit_requests = 2;
  rate_limit_window_seconds = 60;
}

abbrev limiter : RateLimiter
limiter = record { entries = []; capacity = 0 }

abbrev pub server : Server
server =
    start config fresh_store fresh_registry
      (record { storage_key = codes "secret"; max_packet_bytes = 1000 })
      (record { export_directory = codes "/tmp"; max_export_files = 2 })
      (record { checkpoint = none; journal = none }) (pos 100)

abbrev pub host : Host
host = record {
  body = true;
  copied = true;
  encoded = true;
  decoded = true;
  escaped = true;
  allocations = plenty;
  registry = record { reallocated = true; random_bytes = some (replicate 32 7) };
  limiter = true;
  keys = record { string = λ n. true; array = λ n. true };
  appending = λ n. record {
    grants = λ k. true;
    nonce = some (replicate 16 7);
    allocated = true;
    recorded_at = pos 100;
    opened = true;
    written = true;
    partial = 0;
  };
  saving = record { grants = λ k. true; nonce = none; replaced = false; journal_removed = false };
  exporting = record {
    names = none;
    process_id = codes "1";
    saving = record { grants = λ k. true; nonce = none; replaced = false; journal_removed = false };
    grants = λ k. true;
    nonce = none;
    written = false;
  };
  importing = record {
    disk = λ path. none;
    grants = λ k. true;
    payload_allocated = true;
    buckets_allocated = true;
    trial_entries = λ n. record { allocations = plenty; reallocated = true };
    trial_clients = λ n. record { allocations = plenty; reallocated = true };
    entries = λ n. record { allocations = plenty; reallocated = true };
    clients = λ n. record { allocations = plenty; reallocated = true };
    saving = record { grants = λ k. true; nonce = none; replaced = false; journal_removed = false };
  };
  log_tail = λ n. no_log;
}

abbrev lookup : Request
lookup = record blank_request { method = codes "GET"; request_path = codes "/v1/cache/a" }

lookup_private : is_public lookup.request_path ≡ false
unfolding mp_cache.Http.Route.path_is_health mp_cache.Prelude.str_equal
lookup_private = refl

route_request-Guarded_example :
    Guarded (received server (pos 101)) lookup client (route_request host server lookup (pos 101))
route_request-Guarded_example = route_request-Guarded host server lookup (pos 101) lookup_private

abbrev registration : Request
registration = record blank_request {
  method = codes "POST";
  request_path = codes "/v1/clients";
  authorization_header = codes "Bearer root";
  request_body = codes "{\"client_id\":\"alice\",\"role\":\"client\"}";
}

route_request-administrator_example :
    ((route_request host server registration (pos 101)).1.security ≡ server.security)
    ⊎ IsAuthorized server registration admin
route_request-administrator_example = route_request-administrator host server registration (pos 101)

abbrev asks : List Ask
asks =
    record { reallocated = true; subject = key_a; now = pos 100 }
    ∷ record { reallocated = true; subject = key_b; now = pos 101 }
    ∷ record { reallocated = true; subject = key_a; now = pos 102 }
    ∷ record { reallocated = true; subject = key_a; now = pos 103 }
    ∷ []

in_time : All (λ a. IsShort a.subject × Within config (pos 100) a.now) asks
unfolding mp_cache.Prelude.Int.◌-ℤ◌
in_time = (
  (omega arith, (refl, refl)),
  ((omega arith, (refl, refl)), ((omega arith, (refl, refl)), ((omega arith, (refl, refl)), tt))),
)

granted_to_bound_example :
    granted_to config key_a limiter asks
    ≤ allowance config.rate_limit_requests (find_entry key_a limiter.entries)
granted_to_bound_example =
    granted_to_bound config key_a (pos 100) (omega arith) limiter asks in_time

abbrev spent : RateLimitEntry
spent = record { subject = key_a; window_started_at = pos 100; request_count = 2 }

abbrev tired : RateLimiter
tired = record { entries = spent ∷ []; capacity = 16 }

abbrev others : List Ask
others = record { reallocated = false; subject = key_b; now = pos 150 } ∷ []

others_named : All (IsOther key_a) others
unfolding mp_cache.Prelude.str_equal
others_named = ((omega arith, refl), tt)

tired_found : find_entry key_a tired.entries ≡ some spent
unfolding find_entry mp_cache.Prelude.str_equal
tired_found = refl

window_over : leb_ℤ (pos config.rate_limit_window_seconds) (pos 160 -ℤ pos 100) ≡ true
unfolding mp_cache.Prelude.Int.◌-ℤ◌
window_over = refl

rate_limit_allow-again_example :
    (rate_limit_allow true config (ask_all config tired others) key_a (pos 160)).0 ≡ true
rate_limit_allow-again_example =
    rate_limit_allow-again config key_a tired spent others true (pos 160) (omega arith)
      (omega arith) tired_found others_named window_over
