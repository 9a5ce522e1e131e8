-- ===== src/Cache/Writes.antt =====
-- `mp_cache_store_write_entry` and its two callers (internal/cache/cache.c): what a write does on
-- each of its branches.
use mp_cache.Prelude.{
  ℕ, ◌+◌, ◌≤◌, ◌<◌, ◌≡◌, ◌≢◌, ◌↔◌, ◌⊎◌, inl, inr, true, false, ◌&&◌, ◌==◌, ltb, ltb→lt, Bool-cases,
  some, Bytes, arith,
}
use mp_cache.Prelude.Int.{ℤ, pos, leb_ℤ, ◌+ℤ◌}
use mp_cache.Cache.Entry.{Entry, entry_cost}
use mp_cache.Cache.Slot.{find_slot_in, find_slot_in-StopsAt, find_slot_in-append, count-before}
use mp_cache.Cache.Store.{
  Store, Status, ok, no_memory, limit_exceeded, Allocations, chain_at, find_slot, place,
  write_present, set_entry, restore_entry,
}
use mp_cache.Cache.Invariant.{IsValid, IsSized, view}
use mp_cache.Cache.Update.{Updates}
use mp_cache.Cache.Placing.{place-Updates}
use mp_cache.Cache.Accounting.{
  next_bytes, oversized, oversized-IsSized, IsSized-oversized, charge, next_bytes-exact,
  slot_cost-view,
}

-- A write is accepted when the lengths are within the limits and the memory, less what the key
-- was charged for, has room.
pub record Fits (s : Store) (fresh : Entry) : Type 0 where
  pub sized : IsSized s.max_key_bytes s.max_value_bytes fresh
  pub room : s.bytes_used + entry_cost fresh ≤ s.memory_limit_bytes + charge (view s fresh.key)

-- A call that stored `fresh`, or that failed and changed nothing.
abbrev pub StoresOrFails : Store → Entry → Status × Store → Type 0
StoresOrFails s fresh r =
    ((r.0 ≡ ok) × Updates s fresh.key (some fresh) r.1) ⊎ ((r.0 ≢ ok) × (r.1 ≡ s))

module _ (s : Store) (valid : IsValid s) (allocations : Allocations) (fresh : Entry) where
  slot_place :
      IsSized s.max_key_bytes s.max_value_bytes fresh
      → next_bytes s fresh ≤ s.memory_limit_bytes
      → let r = place allocations s (find_slot s fresh.key) fresh (next_bytes s fresh) in
        ((r.0 ≡ ok) × Updates s fresh.key (some fresh) r.1)
        ⊎ ((r.0 ≡ no_memory) × (r.1 ≡ s) × (allocations.node ≡ false))
  unfolding find_slot
  slot_place sized fits =
      let chain = chain_at s fresh.key in
      place-Updates s valid fresh sized allocations (find_slot_in fresh.key chain).before
        (find_slot_in fresh.key chain).node _ (find_slot_in-append fresh.key chain)
        (count-before fresh.key chain) (find_slot_in-StopsAt fresh.key chain)
        (omega (arith, next_bytes-exact s valid fresh sized, slot_cost-view s fresh.key)) fits

  pub write_present-StoresOrFails : StoresOrFails s fresh (write_present allocations s fresh)
  unfolding write_present
  write_present-StoresOrFails = elim (Bool-cases (oversized s fresh)) [
    | inl refused ↦ inr (rw refused (λ e. cc), rw refused)
    | inr sized ↦ elim (Bool-cases (ltb s.memory_limit_bytes (next_bytes s fresh))) [
      | inl full ↦ inr (rw (sized, full) (λ e. cc), rw (sized, full))
      | inr room ↦ elim (Bool-cases (allocations.key_copy && allocations.value_copy)) [
        | inr failed ↦ inr (rw (sized, room, failed) (λ e. cc), rw (sized, room, failed))
        | inl copied ↦ elim (slot_place (oversized-IsSized s fresh sized) (ground arith)) [
          | inl (done, updated) ↦
              inl (rw (sized, room, copied) done, rw (sized, room, copied) updated)
          | inr (failed, same, _) ↦
              inr (rw (sized, room, copied, failed) (λ e. cc), rw (sized, room, copied) same)
        ]
      ]
    ]
  ]

  -- The refusal for size is exactly the failure to fit.
  pub write_present-limit :
      ((write_present allocations s fresh).0 ≡ limit_exceeded) ↔ (¬ Fits s fresh)
  unfolding write_present
  write_present-limit = elim (Bool-cases (oversized s fresh)) [
    | inl refused ↦ (λ _ fits. cc (refused, IsSized-oversized s fresh fits.sized), λ _. rw refused)
    | inr sized ↦
        let exact = next_bytes-exact s valid fresh (oversized-IsSized s fresh sized) in
        elim (Bool-cases (ltb s.memory_limit_bytes (next_bytes s fresh))) [
          | inl full ↦
              (λ _ fits. omega (arith, ltb→lt _ _ full, exact, fits.room), λ _. rw (sized, full))
          | inr room ↦
              let fits : Fits s fresh = record {
                sized = oversized-IsSized s fresh sized;
                room = ground (arith, exact);
              } in
              elim (Bool-cases (allocations.key_copy && allocations.value_copy)) [
                | inr failed ↦ (rw (sized, room, failed) (λ e. cc), λ no_fit. absurd (no_fit fits))
                | inl copied ↦ (
                  rw (sized, room, copied)
                      (λ e. elim (slot_place fits.sized (ground arith)) [
                        | inl (done, _) ↦ cc
                        | inr (failed, _, _) ↦ cc
                      ]),
                  λ no_fit. absurd (no_fit fits),
                )
              ]
        ]
  ]

  -- With memory for the copies and the node, a write that fits is stored.
  pub write_present-Fits :
      allocations.key_copy && allocations.value_copy ≡ true
      → allocations.node ≡ true
      → Fits s fresh
      → (write_present allocations s fresh).0 ≡ ok
  unfolding write_present
  write_present-Fits copied node fits =
      let exact = next_bytes-exact s valid fresh fits.sized in
      let room : ltb s.memory_limit_bytes (next_bytes s fresh) ≡ false =
        ground (arith, exact, fits.room) in
      rw (IsSized-oversized s fresh fits.sized, room, copied)
        (elim (slot_place fits.sized (ground arith)) [
          | inl (done, _) ↦ done
          | inr (_, _, failed) ↦ cc
        ])

abbrev pub entry : Bytes → Bytes → ℤ → Entry
entry key value expires_at = record {
  key = key;
  value = value;
  expires_at_utc_seconds = expires_at;
}

module _ (s : Store) (valid : IsValid s) (allocations : Allocations) where
  -- A set stores the value to expire `ttl_seconds` from now, keeps every other key and the
  -- limits, and leaves a well-formed store; or it fails and changes nothing.
  pub set_entry-StoresOrFails :
      (key value : Bytes) (ttl_seconds : ℕ) (now : ℤ)
      → StoresOrFails s
          (entry key value (now +ℤ pos ttl_seconds))
          (set_entry allocations s (some key) (some value) ttl_seconds now)
  unfolding set_entry
  set_entry-StoresOrFails key value ttl_seconds now = elim (Bool-cases (ttl_seconds == 0)) [
    | inl unset ↦ inr (rw unset (λ e. cc), rw unset)
    | inr lasting ↦ rw lasting (write_present-StoresOrFails s valid allocations _)
  ]

  -- A set is refused for size exactly when the lifetime is not zero and the entry does not fit
  -- the limits on the key, the value and the memory.
  pub set_entry-limit :
      (key value : Bytes) (ttl_seconds : ℕ) (now : ℤ)
      → ((set_entry allocations s (some key) (some value) ttl_seconds now).0 ≡ limit_exceeded)
        ↔ ((0 < ttl_seconds) × (¬ Fits s (entry key value (now +ℤ pos ttl_seconds))))
  unfolding set_entry
  set_entry-limit key value ttl_seconds now = elim (Bool-cases (ttl_seconds == 0)) [
    | inl unset ↦ (rw unset (λ e. cc), λ h. absurd (ground (arith, h.0)))
    | inr lasting ↦
        let limit =
          write_present-limit s valid allocations (entry key value (now +ℤ pos ttl_seconds)) in
        (rw lasting (λ e. (ground arith, limit.0 e)), λ h. rw lasting (limit.1 h.1))
  ]

  -- A restore stores an entry under the expiration that it is given, or changes nothing.
  pub restore_entry-StoresOrFails :
      (key value : Bytes) (expires_at : ℤ)
      → StoresOrFails s
          (entry key value expires_at)
          (restore_entry allocations s (some key) (some value) expires_at)
  unfolding restore_entry
  restore_entry-StoresOrFails key value expires_at = elim (Bool-cases (leb_ℤ expires_at (pos 0))) [
    | inl past ↦ inr (rw past (λ e. cc), rw past)
    | inr future ↦ rw future (write_present-StoresOrFails s valid allocations _)
  ]

  -- A restore of a positive expiration that fits, with memory for it, succeeds.
  pub restore_entry-Fits :
      (key value : Bytes) (expires_at : ℤ)
      → leb_ℤ expires_at (pos 0) ≡ false
      → allocations.key_copy && allocations.value_copy ≡ true
      → allocations.node ≡ true
      → Fits s (entry key value expires_at)
      → (restore_entry allocations s (some key) (some value) expires_at).0 ≡ ok
  unfolding restore_entry
  restore_entry-Fits key value expires_at future copied node fits =
      rw future (write_present-Fits s valid allocations _ copied node fits)
