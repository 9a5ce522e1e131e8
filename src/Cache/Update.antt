-- ===== src/Cache/Update.antt =====
-- What a change at one key keeps (internal/cache/cache.c): the limits, the well-formedness and
-- what every other key holds.
use mp_cache.Prelude.{
  ℕ, ◌+◌, ◌≤◌, ◌<◌, ◌≡◌, refl, Option, List, [], flatten, Bytes, arith, if◌then◌else◌, All-get_or,
  sum_by, sum_by-flatten-set, sum_by_mono, word64,
}
use mp_cache.Cache.Entry.{Entry, entry_cost, same_key}
use mp_cache.Cache.Slot.{find, count}
use mp_cache.Cache.Store.{Store, chain_at, bucket_index}
use mp_cache.Cache.Invariant.{
  IsValid, AllSized, view, bucket_index-lt, rechained, rechained-IsValid, rechained-view,
}

pub record SameLimits (s r : Store) : Type 0 where
  pub bucket_count : r.bucket_count ≡ s.bucket_count
  pub memory : r.memory_limit_bytes ≡ s.memory_limit_bytes
  pub key : r.max_key_bytes ≡ s.max_key_bytes
  pub value : r.max_value_bytes ≡ s.max_value_bytes

-- `r` is `s` with `v` at the key `k`, well formed and under the same limits.
pub record Updates (s : Store) (k : Bytes) (v : Option Entry) (r : Store) : Type 0 where
  pub valid : IsValid r
  pub limits : SameLimits s r
  pub reads : (q : Bytes) → view r q ≡ (if same_key k q then v else view s q)

module _ (s : Store) (valid : IsValid s) where
  pub measure-chain_at-le :
      (f : Entry → ℕ) (k : Bytes) → sum_by f (chain_at s k) ≤ sum_by f (flatten s.buckets)
  unfolding sum_by
  measure-chain_at-le f k = omega (
    arith,
    bucket_index-lt k s.bucket_count valid.configured.positive,
    valid.configured.width,
    sum_by-flatten-set f s.buckets (bucket_index k s.bucket_count) [] (
        omega (
          arith,
          bucket_index-lt k s.bucket_count valid.configured.positive,
          valid.configured.width,
        )),
  )

  pub chain_at-AllSized : (k : Bytes) → AllSized s (chain_at s k)
  chain_at-AllSized k = All-get_or (AllSized s) s.buckets _ [] valid.sized tt

  pub chain_at-count-le : (k q : Bytes) → count q (chain_at s k) ≤ 1
  chain_at-count-le k q = (valid.placed q _).0

  -- Neither counter is near the largest word: the memory limit bounds both.
  pub counters-lt-word64 : (s.entry_count + 1 < word64) × (s.bytes_used < word64)
  counters-lt-word64 =
      let few = sum_by_mono (λ _. 1) entry_cost (λ e. omega arith) (flatten s.buckets) in
      omega (arith, valid.counted, valid.charged, valid.fits, valid.configured.roomy)

  -- The parts of a change of one chain, together.
  pub rechained-Updates :
      (k : Bytes) (v : Option Entry) (chain : List Entry) (entry_count bytes_used : ℕ)
      → entry_count + sum_by (λ _. 1) (chain_at s k) ≡ s.entry_count + sum_by (λ _. 1) chain
      → bytes_used + sum_by entry_cost (chain_at s k) ≡ s.bytes_used + sum_by entry_cost chain
      → bytes_used ≤ s.memory_limit_bytes
      → ((q : Bytes) → count q chain ≤ (if same_key k q then 1 else count q (chain_at s k)))
      → ((q : Bytes) → find q chain ≡ (if same_key k q then v else find q (chain_at s k)))
      → AllSized s chain
      → Updates s k v (rechained s valid k chain entry_count bytes_used)
  rechained-Updates k v chain entry_count bytes_used counted charged fits few reads sized = record {
    valid = rechained-IsValid s valid k chain entry_count bytes_used counted charged fits few sized;
    limits = record { bucket_count = refl; memory = refl; key = refl; value = refl };
    reads = rechained-view s valid k chain v entry_count bytes_used reads;
  }
