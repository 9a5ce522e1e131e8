-- ===== src/Cache/Sweep.antt =====
-- The loops of `mp_cache_store_purge_expired` (internal/cache/cache.c) against a filter.
use mp_cache.Prelude.{
  ℕ, ◌+◌, ◌≤◌, ◌<◌, ◌≡◌, refl, ap, ap₂, Bool, Bool-cases, inl, inr, Option, none, some, List, [],
  ◌∷◌, ◌++◌, flatten, arith, if◌then◌else◌, sum_by, sum_by-append, word64, add64-exact, sub64-exact,
}
use mp_cache.Prelude.Int.{ℤ, ltb_ℤ}
use mp_cache.Cache.Entry.{Entry, entry_cost}
use mp_cache.Cache.Walk.{Sweep, sweep_entry, purge_chain, purge_buckets}

abbrev pub is_live : ℤ → Entry → Bool
is_live now e = ltb_ℤ now e.expires_at_utc_seconds

-- The entries of a chain that a purge keeps, in their order.
unfoldable pub live_of : ℤ → List Entry → List Entry
live_of now [] = []
live_of now (e ∷ c) = if is_live now e then e ∷ live_of now c else live_of now c

unfoldable pub live_buckets : ℤ → List (List Entry) → List (List Entry)
live_buckets now [] = []
live_buckets now (c ∷ cs) = live_of now c ∷ live_buckets now cs

abbrev pub keep_live : ℤ → Option Entry → Option Entry
keep_live now none = none
keep_live now (some e) = if is_live now e then some e else none

abbrev pub size_of : List Entry → ℕ
size_of = sum_by (λ _. 1)

abbrev pub cost_of : List Entry → ℕ
cost_of = sum_by entry_cost

-- The counters cover the entries that are still to be visited, and cannot wrap.
pub record Covers (entries : List Entry) (w : Sweep) : Type 0 where
  pub bytes_cover : cost_of entries ≤ w.bytes_used
  pub bytes_small : w.bytes_used < word64
  pub count_cover : size_of entries ≤ w.entry_count
  pub count_small : w.entry_count < word64
  pub removed_small : w.removed_count + size_of entries < word64

-- The counters fall by what was dropped.
pub record Swept (entries kept : List Entry) (w w' : Sweep) : Type 0 where
  pub bytes : w'.bytes_used + cost_of entries ≡ w.bytes_used + cost_of kept
  pub count : w'.entry_count + size_of entries ≡ w.entry_count + size_of kept
  pub removed : w'.removed_count + size_of kept ≡ w.removed_count + size_of entries

cost-live_of-le : (now : ℤ) (c : List Entry) → cost_of (live_of now c) ≤ cost_of c
unfolding live_of sum_by
cost-live_of-le now [] = omega arith
cost-live_of-le now (e ∷ c) = ground (arith, cost-live_of-le now c)

pub cost-live_buckets-le :
    (now : ℤ) (cs : List (List Entry))
    → cost_of (flatten (live_buckets now cs)) ≤ cost_of (flatten cs)
unfolding live_buckets flatten
cost-live_buckets-le now [] = omega arith
cost-live_buckets-le now (c ∷ cs) = omega (
  arith,
  cost-live_of-le now c,
  cost-live_buckets-le now cs,
  sum_by-append entry_cost c (flatten cs),
  sum_by-append entry_cost (live_of now c) (flatten (live_buckets now cs)),
)

sweep_entry-Covers :
    (e : Entry) (c : List Entry) (w : Sweep)
    → Covers (e ∷ c) w
    → Covers c (sweep_entry e w) × Swept (e ∷ c) c w (sweep_entry e w)
unfolding sum_by
sweep_entry-Covers e c w h =
    let bytes = sub64-exact w.bytes_used (entry_cost e) (omega arith) h.bytes_small in
    let count = sub64-exact w.entry_count 1 (omega arith) h.count_small in
    let removed = add64-exact w.removed_count 1 (omega arith) in
    (omega (arith, bytes, count, removed), omega (arith, bytes, count, removed))

-- One bucket: exactly the live entries are kept, and the counters follow.
pub purge_chain-Swept :
    (now : ℤ) (c rest : List Entry) (w : Sweep)
    → Covers (c ++ rest) w
    → let r = purge_chain now c w in
      (r.0 ≡ live_of now c) × Swept c (live_of now c) w r.1 × Covers rest r.1
unfolding purge_chain live_of sum_by
purge_chain-Swept now [] rest w h = (refl, omega arith, h)
purge_chain-Swept now (e ∷ c) rest w h = elim (Bool-cases (is_live now e)) [
  | inl live ↦
      let ih = purge_chain-Swept now c rest w (omega arith) in
      rw live (ap (λ (l : List Entry). e ∷ l) ih.0, omega arith, ih.2)
  | inr dead ↦
      let step = sweep_entry-Covers e (c ++ rest) w h in
      let ih = purge_chain-Swept now c rest (sweep_entry e w) step.0 in
      rw dead (ih.0, omega arith, ih.2)
]

pub purge_buckets-Swept :
    (now : ℤ) (cs : List (List Entry)) (w : Sweep)
    → Covers (flatten cs) w
    → let r = purge_buckets now cs w in
      (r.0 ≡ live_buckets now cs) × Swept (flatten cs) (flatten (live_buckets now cs)) w r.1
unfolding purge_buckets live_buckets flatten sum_by
purge_buckets-Swept now [] w h = (refl, omega arith)
purge_buckets-Swept now (c ∷ cs) w h =
    let first = purge_chain-Swept now c (flatten cs) w h in
    let rest = purge_buckets-Swept now cs (purge_chain now c w).1 first.2 in
    (
      ap₂ (λ (l : List Entry) (ls : List (List Entry)). l ∷ ls) first.0 rest.0,
      omega (
        arith,
        sum_by-append entry_cost c (flatten cs),
        sum_by-append (λ _. 1) c (flatten cs),
        sum_by-append entry_cost (live_of now c) (flatten (live_buckets now cs)),
        sum_by-append (λ _. 1) (live_of now c) (flatten (live_buckets now cs)),
      ),
    )
