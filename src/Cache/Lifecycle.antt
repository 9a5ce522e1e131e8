-- ===== src/Cache/Lifecycle.antt =====
-- `mp_cache_store_init` and `mp_cache_store_clear` (internal/cache/cache.c).
use mp_cache.Prelude.{
  ℕ, ◌+◌, ◌^◌, ◌≤◌, ◌<◌, ◌≡◌, refl, ap, true, false, none, List, [], ◌∷◌, Bytes, arith, length,
  replicate, length-replicate, get_or-replicate, All-replicate, sum_by-flatten-replicate, word64,
  ◌==◌,
}
use mp_cache.Cache.Entry.{Entry}
use mp_cache.Cache.Slot.{find, count}
use mp_cache.Cache.Store.{Store, Limits, init}
use mp_cache.Cache.Walk.{clear, empty_buckets}
use mp_cache.Cache.Invariant.{IsValid, IsConfigured, view}
use mp_cache.Cache.Update.{SameLimits}

empty_buckets-replicate : (cs : List (List Entry)) → empty_buckets cs ≡ replicate (length cs) []
unfolding empty_buckets replicate
empty_buckets-replicate [] = refl
empty_buckets-replicate (c ∷ cs) =
    ap (λ (l : List (List Entry)). [] ∷ l) (empty_buckets-replicate cs)

-- A store of empty buckets is well formed, whatever its limits.
blank-IsValid :
    (s : Store) (n : ℕ)
    → IsConfigured s
    → s.buckets ≡ replicate n []
    → s.entry_count ≡ 0
    → s.bytes_used ≡ 0
    → IsValid s × ((q : Bytes) → view s q ≡ none)
unfolding view count find
blank-IsValid s n configured blank empty unused = (
  record {
    configured = configured;
    counted = rw (blank, empty, sum_by-flatten-replicate);
    charged = rw (blank, unused, sum_by-flatten-replicate);
    fits = omega arith;
    placed = λ q i. rw (blank, get_or-replicate) (omega arith);
    sized = rw blank (All-replicate _ n [] tt);
  },
  λ q. rw (blank, get_or-replicate),
)

-- What the widths of the configured fields give, with a positive number of buckets.
pub record IsSupported (config : Limits) : Type 0 where
  pub positive : 0 < config.bucket_count
  pub roomy : config.memory_limit_bytes + 2 ^ 34 ≤ word64
  pub key_cap : config.max_key_bytes < 2 ^ 32
  pub value_cap : config.max_value_bytes < 2 ^ 32

-- Where the buckets can be allocated, initialising gives a well-formed store that holds nothing
-- and has the configured limits.
pub init-IsValid :
    (config : Limits) (store : Store)
    → IsSupported config
    → ((init true config store).0 ≡ true)
      × IsValid (init true config store).1
      × ((q : Bytes) → view (init true config store).1 q ≡ none)
      × ((init true config store).1.memory_limit_bytes ≡ config.memory_limit_bytes)
unfolding init
init-IsValid config store supported =
    let lasting : (config.bucket_count == 0) ≡ false = ground (arith, supported.positive) in
    let blank =
      blank-IsValid (init true config store).1 config.bucket_count
        (rw lasting (record {
          width = length-replicate config.bucket_count [];
          positive = supported.positive;
          roomy = supported.roomy;
          key_cap = supported.key_cap;
          value_cap = supported.value_cap;
        }))
        (rw lasting) (rw lasting) (rw lasting) in
    (rw lasting, blank.0, blank.1, rw lasting)

abbrev cleared : Store → Store
cleared s = record s { buckets = empty_buckets s.buckets; entry_count = 0; bytes_used = 0 }

clear_buckets : (s : Store) → 0 < length s.buckets → clear s ≡ cleared s
unfolding clear
clear_buckets s h = ground arith

-- Clearing a well-formed store leaves it well formed, empty and under the same limits.
pub clear-IsValid :
    (s : Store)
    → IsValid s
    → IsValid (clear s) × SameLimits s (clear s) × ((q : Bytes) → view (clear s) q ≡ none)
clear-IsValid s valid =
    let blank =
      blank-IsValid (cleared s) (length s.buckets)
        (record {
          width = rw (empty_buckets-replicate, length-replicate) valid.configured.width;
          positive = valid.configured.positive;
          roomy = valid.configured.roomy;
          key_cap = valid.configured.key_cap;
          value_cap = valid.configured.value_cap;
        })
        (empty_buckets-replicate s.buckets) refl refl in
    let e = clear_buckets s (omega (arith, valid.configured.width, valid.configured.positive)) in
    rw e (blank.0, record { bucket_count = refl; memory = refl; key = refl; value = refl }, blank.1)
