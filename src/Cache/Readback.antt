-- ===== src/Cache/Readback.antt =====
-- What `mp_cache_store_get_copy` returns after `mp_cache_store_set` (internal/cache/cache.c).
use mp_cache.Prelude.{
  ℕ, ◌≡◌, ◌∙◌, inl, inr, Bool, true, Bool-cases, Option, none, some, Bytes, if◌then◌else◌,
}
use mp_cache.Prelude.Int.{ℤ, pos, leb_ℤ, ◌+ℤ◌}
use mp_cache.Cache.Entry.{Entry, same_key, same_key_iff}
use mp_cache.Cache.Store.{
  Store, Status, ok, expired, not_found, no_memory, Allocations, set_entry, get_copy, delete,
}
use mp_cache.Cache.Invariant.{IsValid, view}
use mp_cache.Cache.Update.{Updates}
use mp_cache.Cache.Writes.{entry, set_entry-StoresOrFails}
use mp_cache.Cache.Removals.{Looked, get_copy-Looked, Deleted, delete-Deleted}

abbrev pub answer : Status × Option (Bytes × ℤ) × Store → Status × Option (Bytes × ℤ)
answer r = (r.0, r.1)

-- What a lookup answers for what the store holds, where the copy can be allocated or not.
unfoldable pub read_at : Bool → ℤ → Option Entry → Status × Option (Bytes × ℤ)
read_at copied now none = (not_found, none)
read_at copied now (some e) =
    if leb_ℤ e.expires_at_utc_seconds now
    then (expired, none)
    else if copied
    then (ok, some (e.value, e.expires_at_utc_seconds))
    else (no_memory, none)

pub answer-Looked :
    (s : Store) (k : Bytes) (now : ℤ) (copied : Bool) (r : Status × Option (Bytes × ℤ) × Store)
    → Looked s k now copied r
    → answer r ≡ read_at copied now (view s k)
unfolding read_at
answer-Looked s k now copied r (inl (held, e)) = rw (held, e)
answer-Looked s k now copied r (inr (inl (e, held, past, status, copy, _))) =
    rw (held, status, copy, past)
answer-Looked s k now copied r (inr (inr (e, held, live, done))) =
    rw (held, done, live) (elim (Bool-cases copied) [ inl e ↦ rw e | inr e ↦ rw e ])

-- The answer depends on what is stored and on the memory for the copy alone.
pub get_copy-read_at :
    (s : Store) (k : Bytes) (copied : Bool) (now : ℤ)
    → IsValid s
    → answer (get_copy copied s (some k) now) ≡ read_at copied now (view s k)
get_copy-read_at s k copied now valid =
    answer-Looked s k now copied _ (get_copy-Looked s valid k copied now)

module _ (s : Store) (valid : IsValid s) (allocations : Allocations) (k value : Bytes)
    (ttl_seconds : ℕ) (now : ℤ)
    (stored : (set_entry allocations s (some k) (some value) ttl_seconds now).0 ≡ ok) where
  pub stored-Updates :
      Updates s k
        (some (entry k value (now +ℤ pos ttl_seconds)))
        (set_entry allocations s (some k) (some value) ttl_seconds now).1
  stored-Updates = elim (set_entry-StoresOrFails s valid allocations k value ttl_seconds now) [
    | inl (_, u) ↦ u
    | inr (failed, _) ↦ absurd (failed stored)
  ]

  -- After a set that succeeded, a lookup of its key answers with the value until the lifetime
  -- ends, or with NO_MEMORY where the copy cannot be allocated, and with EXPIRED from then on; a
  -- lookup of another key answers as before the set.
  pub get_copy-set_entry :
      (q : Bytes) (copied : Bool) (later : ℤ)
      → answer (
          get_copy copied
            (set_entry allocations s (some k) (some value) ttl_seconds now).1
            (some q)
            later)
        ≡ (if same_key k q
            then (if leb_ℤ (now +ℤ pos ttl_seconds) later
                then (expired, none)
                else if copied
                then (ok, some (value, now +ℤ pos ttl_seconds))
                else (no_memory, none))
            else answer (get_copy copied s (some q) later))
  unfolding read_at
  get_copy-set_entry q copied later =
      let u = stored-Updates in
      get_copy-read_at _ q copied later u.valid
      ∙ rw (u.reads q, get_copy-read_at s q copied later valid)
          (elim (Bool-cases (same_key k q)) [ inl same ↦ rw same | inr other ↦ rw other ])

-- After a delete a lookup of the key finds nothing; a lookup of another key answers as before.
pub get_copy-delete :
    (s : Store) (k q : Bytes) (now : ℤ)
    → IsValid s
    → answer (get_copy true (delete s (some k)).1 (some q) now)
      ≡ (if same_key k q then (not_found, none) else answer (get_copy true s (some q) now))
unfolding read_at
get_copy-delete s k q now valid = go (delete s (some k)) (delete-Deleted s valid k)
  where
    go :
        (r : Status × Store)
        → Deleted s k r
        → answer (get_copy true r.1 (some q) now)
          ≡ (if same_key k q then (not_found, none) else answer (get_copy true s (some q) now))
    go r (inl (held, e)) = rw e (elim (Bool-cases (same_key k q)) [
      | inl same ↦
          rw same (get_copy-read_at s q true now valid ∙ rw (← (same_key_iff k q).0 same, held))
      | inr other ↦ rw other
    ])
    go r (inr (e, held, done, u)) =
        get_copy-read_at r.1 q true now u.valid
        ∙ rw (u.reads q, get_copy-read_at s q true now valid)
            (elim (Bool-cases (same_key k q)) [ inl same ↦ rw same | inr other ↦ rw other ])
