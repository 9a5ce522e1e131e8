-- ===== src/Cache/Walk.antt =====
-- The operations of internal/cache/cache.c that walk every bucket.
use mp_cache.Prelude.{ℕ, Bool, true, false, List, [], ◌∷◌, if◌then◌else◌, add64, sub64}
use mp_cache.Prelude.Int.{ℤ, ltb_ℤ}
use mp_cache.Cache.Entry.{Entry, entry_cost}
use mp_cache.Cache.Store.{Store, Stats, zeroed}

-- `mp_cache_store_clear` frees every chain and keeps the bucket array and the limits.
unfoldable pub empty_buckets : List (List Entry) → List (List Entry)
empty_buckets [] = []
empty_buckets (c ∷ cs) = [] ∷ empty_buckets cs

unfoldable pub clear : Store → Store
unfolding empty_buckets
clear store = elim store.buckets [
  | [] ↦ store
  | _ ∷ _ ↦ record store { buckets = empty_buckets store.buckets; entry_count = 0; bytes_used = 0 }
]

-- `mp_cache_store_destroy` does nothing to a store that has no buckets.
unfoldable pub destroy : Store → Store
destroy store = elim store.buckets [ [] ↦ store | _ ∷ _ ↦ zeroed ]

-- The counters that `mp_cache_store_purge_expired` updates as it unlinks.
pub record Sweep : Type 0 where
  pub bytes_used : ℕ
  pub entry_count : ℕ
  pub removed_count : ℕ

abbrev pub sweep_entry : Entry → Sweep → Sweep
sweep_entry entry sweep = record {
  bytes_used = sub64 sweep.bytes_used (entry_cost entry);
  entry_count = sub64 sweep.entry_count 1;
  removed_count = add64 sweep.removed_count 1;
}

-- One bucket: the chain that is left, and the counters.
unfoldable pub purge_chain : ℤ → List Entry → Sweep → List Entry × Sweep
purge_chain now [] sweep = ([], sweep)
purge_chain now (entry ∷ next) sweep =
    let live = ltb_ℤ now entry.expires_at_utc_seconds in
    let rest = purge_chain now next (if live then sweep else sweep_entry entry sweep) in
    if live then (entry ∷ rest.0, rest.1) else rest

unfoldable pub purge_buckets : ℤ → List (List Entry) → Sweep → List (List Entry) × Sweep
unfolding purge_chain
purge_buckets now [] sweep = ([], sweep)
purge_buckets now (c ∷ cs) sweep =
    let first = purge_chain now c sweep in
    let rest = purge_buckets now cs first.1 in (first.0 ∷ rest.0, rest.1)

-- `mp_cache_store_purge_expired`, with the count that it returns.
unfoldable pub purge_expired : Store → ℤ → ℕ × Store
unfolding purge_buckets
purge_expired store now =
    let start : Sweep = record {
      bytes_used = store.bytes_used;
      entry_count = store.entry_count;
      removed_count = 0;
    } in
    let (buckets, sweep) = purge_buckets now store.buckets start in
    (
      sweep.removed_count,
      record store {
        buckets = buckets;
        entry_count = sweep.entry_count;
        bytes_used = sweep.bytes_used;
      },
    )

-- A visitor updates its context and says whether it returned 0.
abbrev pub Visitor : Type 0 → Type 0
Visitor C = Entry → C → Bool × C

unfoldable pub walk_chain : {C : Type 0} → Visitor C → List Entry → C → Bool × C
walk_chain visit [] context = (true, context)
walk_chain visit (entry ∷ next) context =
    let (goes_on, context') = visit entry context in
    let rest = walk_chain visit next context' in if goes_on then rest else (false, context')

unfoldable pub walk_buckets : {C : Type 0} → Visitor C → List (List Entry) → C → Bool × C
unfolding walk_chain
walk_buckets visit [] context = (true, context)
walk_buckets visit (c ∷ cs) context =
    let (goes_on, context') = walk_chain visit c context in
    let rest = walk_buckets visit cs context' in if goes_on then rest else (false, context')

-- `mp_cache_store_for_each`; `false` is its -1.
unfoldable pub for_each : {C : Type 0} → Store → Visitor C → C → Bool × C
unfolding walk_buckets
for_each store visit context = walk_buckets visit store.buckets context

unfoldable pub get_stats : Store → Stats
get_stats store = record {
  entry_count = store.entry_count;
  bytes_used = store.bytes_used;
  memory_limit_bytes = store.memory_limit_bytes;
}
