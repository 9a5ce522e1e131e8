-- ===== src/Cache/Invariant.antt =====
-- The well-formedness of a store (internal/cache/cache.c), what it holds, and the one way in
-- which the operations on a key change it: the chain of the key's bucket is replaced.
use mp_cache.Prelude.{
  ℕ, ◌+◌, ◌^◌, ◌≤◌, ◌<◌, ◌≡◌, ◌≢◌, ◌∙◌, Option, List, [], flatten, Bytes, arith, if◌then◌else◌,
  length, get_or, set, length-set, get_or-set, All, All-set, sum_by, sum_by-flatten-set, word64,
}
use mp_cache.Cache.Entry.{Entry, entry_cost, same_key, same_key_iff}
use mp_cache.Cache.Slot.{find, count}
use mp_cache.Cache.Store.{Store, bucket_index, chain_at}

-- What the store holds for a key, expired or not.
unfoldable pub view : Store → Bytes → Option Entry
view store q = find q (chain_at store q)

abbrev pub total_entries : List (List Entry) → ℕ
total_entries buckets = sum_by (λ _. 1) (flatten buckets)

abbrev pub total_cost : List (List Entry) → ℕ
total_cost buckets = sum_by entry_cost (flatten buckets)

-- The limits that a stored entry keeps.
pub record IsSized (max_key max_value : ℕ) (e : Entry) : Type 0 where
  pub key_nonempty : 0 < length e.key
  pub key_fits : length e.key ≤ max_key
  pub value_fits : length e.value ≤ max_value

abbrev pub AllSized : Store → List Entry → Type 0
AllSized s = All (IsSized s.max_key_bytes s.max_value_bytes)

-- `roomy`, `key_cap` and `value_cap` are what the widths of the configured limits give, short of
-- a memory limit within 2 ^ 34 of the largest `uint64_t`.
pub record IsConfigured (s : Store) : Type 0 where
  pub width : length s.buckets ≡ s.bucket_count
  pub positive : 0 < s.bucket_count
  pub roomy : s.memory_limit_bytes + 2 ^ 34 ≤ word64
  pub key_cap : s.max_key_bytes < 2 ^ 32
  pub value_cap : s.max_value_bytes < 2 ^ 32

-- A key stands at most once, and only in the bucket that its hash selects.
abbrev pub IsPlaced : List (List Entry) → Type 0
IsPlaced buckets =
    (q : Bytes) (i : ℕ)
    → (count q (get_or buckets i []) ≤ 1)
      × (bucket_index q (length buckets) ≢ i → count q (get_or buckets i []) ≡ 0)

pub record IsValid (s : Store) : Type 0 where
  pub configured : IsConfigured s
  pub counted : s.entry_count ≡ total_entries s.buckets
  pub charged : s.bytes_used ≡ total_cost s.buckets
  pub fits : s.bytes_used ≤ s.memory_limit_bytes
  pub placed : IsPlaced s.buckets
  pub sized : All (AllSized s) s.buckets

pub bucket_index-lt : (q : Bytes) (n : ℕ) → 0 < n → bucket_index q n < n
unfolding bucket_index
bucket_index-lt q n h = omega arith

module _ (s : Store) (valid : IsValid s) (k : Bytes) (chain : List Entry) where
  here : ℕ
  here = bucket_index k s.bucket_count

  here-lt : here < length s.buckets
  unfolding here
  here-lt =
      omega
        (arith, bucket_index-lt k s.bucket_count valid.configured.positive, valid.configured.width)

  -- The store with the bucket of `k` replaced and its counters updated.
  abbrev pub rechained : ℕ → ℕ → Store
  rechained entry_count bytes_used = record s {
    buckets = set s.buckets (bucket_index k s.bucket_count) chain;
    entry_count = entry_count;
    bytes_used = bytes_used;
  }

  rechained-IsPlaced :
      ((q : Bytes) → count q chain ≤ (if same_key k q then 1 else count q (chain_at s k)))
      → IsPlaced (set s.buckets here chain)
  unfolding here
  rechained-IsPlaced few q i =
      rw (length-set, get_or-set s.buckets here i chain [] here-lt)
        (ground (arith, valid.placed q i, valid.configured.width, few q, same_key_iff k q))

  -- Replacing the bucket's chain keeps the store well formed when the counters follow, no key
  -- is added but `k`, and the memory limit is kept.
  pub rechained-IsValid :
      (entry_count bytes_used : ℕ)
      → entry_count + sum_by (λ _. 1) (chain_at s k) ≡ s.entry_count + sum_by (λ _. 1) chain
      → bytes_used + sum_by entry_cost (chain_at s k) ≡ s.bytes_used + sum_by entry_cost chain
      → bytes_used ≤ s.memory_limit_bytes
      → ((q : Bytes) → count q chain ≤ (if same_key k q then 1 else count q (chain_at s k)))
      → AllSized s chain
      → IsValid (rechained entry_count bytes_used)
  unfolding here
  rechained-IsValid entry_count bytes_used counted charged fits few sized = record {
    configured = record {
      width = length-set s.buckets here chain ∙ valid.configured.width;
      positive = valid.configured.positive;
      roomy = valid.configured.roomy;
      key_cap = valid.configured.key_cap;
      value_cap = valid.configured.value_cap;
    };
    counted =
        omega
          (arith, counted, valid.counted, sum_by-flatten-set (λ _. 1) s.buckets here chain here-lt);
    charged =
        omega (
          arith,
          charged,
          valid.charged,
          sum_by-flatten-set entry_cost s.buckets here chain here-lt,
        );
    fits = fits;
    placed = rechained-IsPlaced few;
    sized = All-set (AllSized s) s.buckets here chain valid.sized sized;
  }

  pub rechained-view :
      (v : Option Entry) (entry_count bytes_used : ℕ)
      → ((q : Bytes) → find q chain ≡ (if same_key k q then v else find q (chain_at s k)))
      → (q : Bytes)
      → view (rechained entry_count bytes_used) q ≡ (if same_key k q then v else view s q)
  unfolding view here
  rechained-view v entry_count bytes_used reads q =
      rw (get_or-set s.buckets here (bucket_index q s.bucket_count) chain [] here-lt)
        (ground (arith, reads q, same_key_iff k q))
