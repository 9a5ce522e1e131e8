-- ===== src/Cache/Accounting.antt =====
-- The memory accounting of `mp_cache_store_write_entry` (internal/cache/cache.c) is exact:
-- nothing wraps in a well-formed store.
use mp_cache.Prelude.{
  ℕ, ◌+◌, ◌≤◌, ◌≡◌, ◌∙◌, refl, ap, Bool, false, ◌||◌, ◌==◌, ltb, Option, none, some, List, [], ◌∷◌,
  ◌++◌, Bytes, arith, length, sum_by, sum_by-append, add64, sub64, add64-exact, sub64-exact,
}
use mp_cache.Cache.Entry.{Entry, entry_cost, slot_cost}
use mp_cache.Cache.Slot.{first, first-find_slot_in, find_slot_in-append}
use mp_cache.Cache.Store.{Store, chain_at, find_slot}
use mp_cache.Cache.Invariant.{IsValid, IsSized, view}
use mp_cache.Cache.Update.{measure-chain_at-le}

-- The projected use of memory, as `mp_cache_store_write_entry` computes it in `size_t`.
abbrev pub next_bytes : Store → Entry → ℕ
next_bytes s fresh =
    add64 (sub64 s.bytes_used (slot_cost (find_slot s fresh.key).node)) (entry_cost fresh)

abbrev pub oversized : Store → Entry → Bool
oversized s fresh =
    length fresh.key == 0
    || ltb s.max_key_bytes (length fresh.key)
    || ltb s.max_value_bytes (length fresh.value)

pub oversized-IsSized :
    (s : Store) (fresh : Entry)
    → oversized s fresh ≡ false
    → IsSized s.max_key_bytes s.max_value_bytes fresh
oversized-IsSized s fresh h = ground arith

pub IsSized-oversized :
    (s : Store) (fresh : Entry)
    → IsSized s.max_key_bytes s.max_value_bytes fresh
    → oversized s fresh ≡ false
IsSized-oversized s fresh h = ground arith

slot_cost-le : (before node : List Entry) → slot_cost node ≤ sum_by entry_cost (before ++ node)
unfolding slot_cost sum_by
slot_cost-le before [] = omega arith
slot_cost-le before (e ∷ c) = omega (arith, sum_by-append entry_cost before (e ∷ c))

-- What a key is charged for.
abbrev pub charge : Option Entry → ℕ
charge none = 0
charge (some e) = entry_cost e

slot_cost-first : (node : List Entry) → slot_cost node ≡ charge (first node)
unfolding slot_cost first
slot_cost-first [] = refl
slot_cost-first (e ∷ c) = refl

pub slot_cost-view : (s : Store) (k : Bytes) → slot_cost (find_slot s k).node ≡ charge (view s k)
unfolding find_slot view
slot_cost-view s k = slot_cost-first _ ∙ ap charge (first-find_slot_in k (chain_at s k))

module _ (s : Store) (valid : IsValid s) where
  pub charge-le : (k : Bytes) → charge (view s k) ≤ s.bytes_used
  unfolding find_slot
  charge-le k = omega (
    arith,
    slot_cost-view s k,
    rw (find_slot_in-append k (chain_at s k)) at
        (slot_cost-le (find_slot s k).before (find_slot s k).node),
    measure-chain_at-le s valid entry_cost k,
    valid.charged,
  )

  pub next_bytes-exact :
      (fresh : Entry)
      → IsSized s.max_key_bytes s.max_value_bytes fresh
      → next_bytes s fresh + charge (view s fresh.key) ≡ s.bytes_used + entry_cost fresh
  next_bytes-exact fresh sized = omega (
    arith,
    slot_cost-view s fresh.key,
    charge-le fresh.key,
    sub64-exact s.bytes_used (slot_cost (find_slot s fresh.key).node),
    add64-exact (sub64 s.bytes_used (slot_cost (find_slot s fresh.key).node)) (entry_cost fresh),
    valid.fits,
    valid.configured.roomy,
    valid.configured.key_cap,
    valid.configured.value_cap,
  )
