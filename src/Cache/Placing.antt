-- ===== src/Cache/Placing.antt =====
-- The end of `mp_cache_store_write_entry` (internal/cache/cache.c): the branch on `*slot`.
use mp_cache.Prelude.{
  ℕ, ◌+◌, ◌≤◌, ◌≡◌, ◌⊎◌, inl, inr, refl, false, Bool-cases, some, List, [], ◌∷◌, ◌++◌, arith,
  All-append, All-append_split, sum_by, sum_by-append, add64, add64-exact,
}
use mp_cache.Cache.Entry.{Entry, entry_cost, slot_cost}
use mp_cache.Cache.Slot.{count, StopsAt}
use mp_cache.Cache.Chain.{count-appended, find-appended, count-replaced, find-replaced}
use mp_cache.Cache.Store.{Store, ok, no_memory, Allocations, chain_at, place}
use mp_cache.Cache.Invariant.{IsValid, IsSized, AllSized, rechained}
use mp_cache.Cache.Update.{
  Updates, rechained-Updates, counters-lt-word64, chain_at-AllSized, chain_at-count-le,
}

-- The branch on `*slot`, for any split of the chain at the key.
module _ (s : Store) (valid : IsValid s) (fresh : Entry)
    (sized : IsSized s.max_key_bytes s.max_value_bytes fresh) where
  appended-Updates :
      (before : List Entry) (next_bytes : ℕ)
      → before ++ [] ≡ chain_at s fresh.key
      → count fresh.key before ≡ 0
      → next_bytes ≡ s.bytes_used + entry_cost fresh
      → next_bytes ≤ s.memory_limit_bytes
      → Updates s fresh.key
          (some fresh)
          (rechained s valid fresh.key (before ++ fresh ∷ []) (add64 s.entry_count 1) next_bytes)
  unfolding sum_by
  appended-Updates before next_bytes split unseen exact fits =
      rechained-Updates s valid fresh.key (some fresh) (before ++ fresh ∷ []) _ next_bytes
        (rw (← split, sum_by-append, sum_by-append)
          (omega (arith, add64-exact s.entry_count 1, counters-lt-word64 s valid)))
        (rw (← split, sum_by-append, sum_by-append) (omega arith)) fits
        (λ q. rw (← split) (count-appended fresh.key q before [] unseen fresh refl))
        (λ q. rw (← split) (find-appended fresh.key q before [] unseen fresh refl))
        (All-append _ before (fresh ∷ [])
          (All-append_split _ before [] (rw split (chain_at-AllSized s valid fresh.key))).0
          (sized, tt))

  replaced-Updates :
      (before rest : List Entry) (old : Entry) (next_bytes : ℕ)
      → before ++ old ∷ rest ≡ chain_at s fresh.key
      → count fresh.key before ≡ 0
      → old.key ≡ fresh.key
      → next_bytes + entry_cost old ≡ s.bytes_used + entry_cost fresh
      → next_bytes ≤ s.memory_limit_bytes
      → Updates s fresh.key
          (some fresh)
          (rechained s valid fresh.key (before ++ fresh ∷ rest) s.entry_count next_bytes)
  unfolding sum_by
  replaced-Updates before rest old next_bytes split unseen stored exact fits =
      let once = chain_at-count-le s valid fresh.key fresh.key in
      let olds : AllSized s before × AllSized s (old ∷ rest) =
        All-append_split _ before (old ∷ rest) (rw split (chain_at-AllSized s valid fresh.key)) in
      rechained-Updates s valid fresh.key (some fresh) (before ++ fresh ∷ rest) _ next_bytes
        (rw (← split, sum_by-append, sum_by-append) (omega arith))
        (rw (← split, sum_by-append, sum_by-append) (omega arith)) fits
        (λ q.
          rw (← split)
            (count-replaced fresh.key q before rest unseen fresh refl old stored (rw split once)))
        (λ q. rw (← split) (find-replaced fresh.key q before rest unseen fresh refl old stored))
        (All-append _ before (fresh ∷ rest) olds.0 (sized, olds.1.1))

  pub place-Updates :
      (allocations : Allocations) (before node : List Entry) (next_bytes : ℕ)
      → before ++ node ≡ chain_at s fresh.key
      → count fresh.key before ≡ 0
      → StopsAt fresh.key node
      → next_bytes + slot_cost node ≡ s.bytes_used + entry_cost fresh
      → next_bytes ≤ s.memory_limit_bytes
      → let r = place allocations s (record { before = before; node = node }) fresh next_bytes in
        ((r.0 ≡ ok) × Updates s fresh.key (some fresh) r.1)
        ⊎ ((r.0 ≡ no_memory) × (r.1 ≡ s) × (allocations.node ≡ false))
  unfolding place slot_cost
  place-Updates allocations before [] next_bytes split unseen stops exact fits =
      elim (Bool-cases allocations.node) [
        | inl done ↦ inl (
          rw done refl,
          rw done (appended-Updates before next_bytes split unseen (omega arith) fits),
        )
        | inr failed ↦ inr (rw failed refl, rw failed refl, failed)
      ]
  place-Updates allocations before (old ∷ rest) next_bytes split unseen stops exact fits =
      inl (refl, replaced-Updates before rest old next_bytes split unseen stops exact fits)
