-- ===== src/Cache/Removals.antt =====
-- `mp_cache_store_get_copy` and `mp_cache_store_delete` (internal/cache/cache.c).
use mp_cache.Prelude.{
  ℕ, ◌+◌, ◌≤◌, ◌≡◌, ◌⊎◌, ◌∙◌, refl, sym, ap, Bool, true, false, Bool-cases, inl, inr, Option, none,
  some, List, [], ◌∷◌, ◌++◌, flatten, Bytes, arith, if◌then◌else◌, All-append, All-append_split,
  sum_by, sum_by-append, sub64, sub64-exact,
}
use mp_cache.Prelude.Int.{ℤ, leb_ℤ}
use mp_cache.Cache.Entry.{Entry, entry_cost}
use mp_cache.Cache.Slot.{
  count, first, first-find_slot_in, StopsAt, find_slot_in, find_slot_in-StopsAt,
  find_slot_in-append, count-before,
}
use mp_cache.Cache.Chain.{count-unlinked, find-unlinked}
use mp_cache.Cache.Store.{
  Store, Status, ok, not_found, expired, no_memory, chain_at, find_slot, unlink, get_present,
  get_copy, delete_present, delete,
}
use mp_cache.Cache.Invariant.{IsValid, AllSized, view, rechained}
use mp_cache.Cache.Update.{
  Updates, rechained-Updates, counters-lt-word64, chain_at-AllSized, chain_at-count-le,
  measure-chain_at-le,
}

module _ (s : Store) (valid : IsValid s) (k : Bytes) where
  split_at_key : (find_slot s k).before ++ (find_slot s k).node ≡ chain_at s k
  unfolding find_slot
  split_at_key = find_slot_in-append k (chain_at s k)

  unseen_before : count k (find_slot s k).before ≡ 0
  unfolding find_slot
  unseen_before = count-before k (chain_at s k)

  pub find_slot-view : first (find_slot s k).node ≡ view s k
  unfolding find_slot view
  find_slot-view = first-find_slot_in k (chain_at s k)

  removed_part-le :
      (f : Entry → ℕ) (before rest : List Entry) (old : Entry)
      → before ++ old ∷ rest ≡ chain_at s k
      → f old ≤ sum_by f (flatten s.buckets)
  unfolding sum_by
  removed_part-le f before rest old split =
      omega
        (arith, rw split at (sum_by-append f before (old ∷ rest)), measure-chain_at-le s valid f k)

  unlinked-Updates :
      (before rest : List Entry) (old : Entry)
      → before ++ old ∷ rest ≡ chain_at s k
      → count k before ≡ 0
      → old.key ≡ k
      → Updates s k none (
          rechained s valid k
            (before ++ rest)
            (sub64 s.entry_count 1)
            (sub64 s.bytes_used (entry_cost old)))
  unfolding sum_by
  unlinked-Updates before rest old split unseen stored =
      let once : count k (before ++ old ∷ rest) ≤ 1 = rw split (chain_at-count-le s valid k k) in
      let olds : AllSized s before × AllSized s (old ∷ rest) =
        All-append_split _ before (old ∷ rest) (rw split (chain_at-AllSized s valid k)) in
      let (few, small) = counters-lt-word64 s valid in
      let one_less : sub64 s.entry_count 1 + 1 ≡ s.entry_count = omega (
        arith,
        sub64-exact s.entry_count 1,
        valid.counted,
        removed_part-le (λ _. 1) before rest old split,
      ) in
      let cost_less : sub64 s.bytes_used (entry_cost old) + entry_cost old ≡ s.bytes_used = omega (
        arith,
        sub64-exact s.bytes_used (entry_cost old),
        valid.charged,
        removed_part-le entry_cost before rest old split,
      ) in
      rechained-Updates s valid k none (before ++ rest) _ _
        (rw (← split, sum_by-append, sum_by-append) (omega arith))
        (rw (← split, sum_by-append, sum_by-append) (omega arith)) (omega (arith, valid.fits))
        (λ q. rw (← split) (count-unlinked k q before rest unseen old stored once))
        (λ q. rw (← split) (find-unlinked k q before rest unseen old stored once))
        (All-append _ before rest olds.0 olds.1.1)

  unlink-Updates :
      (before node rest : List Entry) (old : Entry)
      → before ++ node ≡ chain_at s k
      → count k before ≡ 0
      → StopsAt k node
      → node ≡ old ∷ rest
      → Updates s k none (unlink s k (record { before = before; node = node }) old rest)
  unfolding unlink
  unlink-Updates before node rest old split unseen stops e =
      unlinked-Updates before rest old (rw e at split) unseen (rw e at stops)

  pub slot_unlink :
      (rest : List Entry) (old : Entry)
      → (find_slot s k).node ≡ old ∷ rest
      → Updates s k none (unlink s k (find_slot s k) old rest)
  unfolding find_slot
  slot_unlink rest old e =
      unlink-Updates (find_slot_in k (chain_at s k)).before (find_slot_in k (chain_at s k)).node
        rest old split_at_key unseen_before (find_slot_in-StopsAt k (chain_at s k)) e

List-cases : (c : List Entry) → (c ≡ []) ⊎ ((e : Entry) × (r : List Entry) × (c ≡ e ∷ r))
List-cases [] = inl refl
List-cases (e ∷ r) = inr (e, r, refl)

-- The three outcomes of a lookup: nothing is stored; what is stored has expired, and is removed;
-- what is stored is live, and its copy is returned where memory for it is found.
abbrev pub Looked : Store → Bytes → ℤ → Bool → Status × Option (Bytes × ℤ) × Store → Type 0
Looked s k now allocated r =
    ((view s k ≡ none) × (r ≡ (not_found, none, s)))
    ⊎ ((e : Entry) × (view s k ≡ some e)
        × (leb_ℤ e.expires_at_utc_seconds now ≡ true)
        × (r.0 ≡ expired)
        × (r.1 ≡ none)
        × Updates s k none r.2)
    ⊎ ((e : Entry) × (view s k ≡ some e)
        × (leb_ℤ e.expires_at_utc_seconds now ≡ false)
        × (r ≡ (
            if allocated
            then (ok, some (e.value, e.expires_at_utc_seconds), s)
            else (no_memory, none, s))))

abbrev pub Deleted : Store → Bytes → Status × Store → Type 0
Deleted s k r =
    ((view s k ≡ none) × (r ≡ (not_found, s)))
    ⊎ ((e : Entry) × (view s k ≡ some e) × (r.0 ≡ ok) × Updates s k none r.1)

module _ (s : Store) (valid : IsValid s) (k : Bytes) where
  -- A lookup has one of its three outcomes, by what the store holds for the key and by the time.
  pub get_copy-Looked :
      (allocated : Bool) (now : ℤ) → Looked s k now allocated (get_copy allocated s (some k) now)
  unfolding get_copy get_present first
  get_copy-Looked allocated now = elim (List-cases (find_slot s k).node) [
    | inl e ↦ inl (sym (find_slot-view s valid k) ∙ ap first e, rw (e, get_copy, get_present))
    | inr (old, rest, e) ↦
        let held : view s k ≡ some old = sym (find_slot-view s valid k) ∙ ap first e in
        elim (Bool-cases (leb_ℤ old.expires_at_utc_seconds now)) [
          | inl past ↦ inr (
              inl (
                old,
                held,
                past,
                rw (e, get_copy, get_present, past),
                rw (e, get_copy, get_present, past),
                rw (e, get_copy, get_present, past) (slot_unlink s valid k rest old e),
              ))
          | inr live ↦
              inr (inr (old, held, live, rw (e, get_copy, get_present, live) (ground arith)))
        ]
  ]

  -- A delete removes exactly the key, and reports whether it was there.
  pub delete-Deleted : Deleted s k (delete s (some k))
  unfolding delete delete_present first
  delete-Deleted = elim (List-cases (find_slot s k).node) [
    | inl e ↦ inl (sym (find_slot-view s valid k) ∙ ap first e, rw (e, delete, delete_present))
    | inr (old, rest, e) ↦ inr (
      old,
      sym (find_slot-view s valid k) ∙ ap first e,
      rw (e, delete, delete_present),
      rw (e, delete, delete_present) (slot_unlink s valid k rest old e),
    )
  ]
