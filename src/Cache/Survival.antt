-- ===== src/Cache/Survival.antt =====
-- How long a stored value is there to be read (internal/cache/cache.c).
use mp_cache.Prelude.{
  ℕ, ◌≡◌, ◌∙◌, refl, sym, ap, Bool, true, false, not, ◌&&◌, Bool-cases, inl, inr, Option, none,
  some, List, [], ◌∷◌, Bytes, All, if◌then◌else◌, arith,
}
use mp_cache.Prelude.Int.{ℤ, pos, leb_ℤ, ◌+ℤ◌}
use mp_cache.Cache.Entry.{Entry, same_key, same_key_iff, same_key_refl}
use mp_cache.Cache.Store.{
  Store, Status, ok, expired, no_memory, Allocations, set_entry, restore_entry, get_copy, delete,
}
use mp_cache.Cache.Invariant.{IsValid, view}
use mp_cache.Cache.Update.{Updates}
use mp_cache.Cache.Writes.{
  entry, StoresOrFails, set_entry-StoresOrFails, restore_entry-StoresOrFails,
}
use mp_cache.Cache.Removals.{Looked, get_copy-Looked, Deleted, delete-Deleted}
use mp_cache.Cache.Purge.{purge_expired-Purges}
use mp_cache.Cache.Runs.{Call, set, restore, get, remove, purge, reset, run, run_all, run-Sound}
use mp_cache.Cache.Readback.{answer, read_at, get_copy-read_at, stored-Updates}

-- A call that has no reason to take away the entry of a key: it writes or deletes another key, or
-- it is a lookup or a purge before the entry expires.
abbrev pub is_aside : Bytes → ℤ → Call → Bool
is_aside k expires_at (set allocations (some q) value ttl_seconds now) = not (same_key q k)
is_aside k expires_at (restore allocations (some q) value at) = not (same_key q k)
is_aside k expires_at (remove (some q)) = not (same_key q k)
is_aside k expires_at (get allocated (some q) now) = not (same_key q k && leb_ℤ expires_at now)
is_aside k expires_at (purge now) = not (leb_ℤ expires_at now)
is_aside k expires_at reset = false
is_aside k expires_at _ = true

abbrev pub IsAside : Bytes → ℤ → Call → Type 0
IsAside k expires_at c = is_aside k expires_at c ≡ true

abbrev expiry_of : ℤ → Option Entry → Bool
expiry_of now none = false
expiry_of now (some e) = leb_ℤ e.expires_at_utc_seconds now

module _ (s : Store) (k : Bytes) (e : Entry) (held : view s k ≡ some e) where
  updated-view :
      (q : Bytes) (v : Option Entry) (r : Store)
      → not (same_key q k) ≡ true
      → Updates s q v r
      → view r k ≡ some e
  updated-view q v r other u =
      let differs : same_key q k ≡ false = ground (arith, other) in u.reads k ∙ rw differs held

  stored-view :
      (fresh : Entry) (r : Status × Store)
      → not (same_key fresh.key k) ≡ true
      → StoresOrFails s fresh r
      → view r.1 k ≡ some e
  stored-view fresh r other (inl (_, u)) = updated-view fresh.key _ r.1 other u
  stored-view fresh r other (inr (_, same)) = rw same held

  Deleted-view :
      (q : Bytes) (r : Status × Store)
      → not (same_key q k) ≡ true
      → Deleted s q r
      → view r.1 k ≡ some e
  Deleted-view q r other (inl (_, same)) = rw same held
  Deleted-view q r other (inr (_, _, _, u)) = updated-view q none r.1 other u

  Looked-view :
      (q : Bytes) (now : ℤ) (allocated : Bool) (r : Status × Option (Bytes × ℤ) × Store)
      → not (same_key q k && leb_ℤ e.expires_at_utc_seconds now) ≡ true
      → Looked s q now allocated r
      → view r.2 k ≡ some e
  Looked-view q now allocated r aside (inl (_, same)) = rw same held
  Looked-view q now allocated r aside (inr (inl (f, found, past, _, _, u))) =
      elim (Bool-cases (same_key q k)) [
        | inl own ↦
            let here : some e ≡ some f =
              sym held ∙ ap (view s) (sym ((same_key_iff q k).0 own)) ∙ found in
            let expired_then : leb_ℤ e.expires_at_utc_seconds now ≡ true =
              ap (expiry_of now) here ∙ past in
            absurd (ground (arith, aside, own, expired_then))
        | inr other ↦ u.reads k ∙ rw other held
      ]
  Looked-view q now true r aside (inr (inr (_, _, _, same))) = rw same held
  Looked-view q now false r aside (inr (inr (_, _, _, same))) = rw same held

either_view :
    (k : Bytes) (o : Option Entry) (r : Status × Store) (b : Bool)
    → view r.1 k ≡ o
    → view (if b then r else r).1 k ≡ o
either_view k o r true h = h
either_view k o r false h = h

run-view :
    (s : Store) (k : Bytes) (e : Entry) (c : Call)
    → IsValid s
    → view s k ≡ some e
    → IsAside k e.expires_at_utc_seconds c
    → view (run s c) k ≡ some e
unfolding run set_entry restore_entry get_copy delete
run-view s k e (set al (some q) (some v) ttl now) valid held aside =
    stored-view s k e held _ _ aside (set_entry-StoresOrFails s valid al q v ttl now)
run-view s k e (set al (some q) none ttl now) valid held aside = either_view k _ _ _ held
run-view s k e (set al none v ttl now) valid held aside = either_view k _ _ _ held
run-view s k e (restore al (some q) (some v) at) valid held aside =
    stored-view s k e held _ _ aside (restore_entry-StoresOrFails s valid al q v at)
run-view s k e (restore al (some q) none at) valid held aside = either_view k _ _ _ held
run-view s k e (restore al none v at) valid held aside = either_view k _ _ _ held
run-view s k e (get al (some q) now) valid held aside =
    Looked-view s k e held q now al _ aside (get_copy-Looked s valid q al now)
run-view s k e (get al none now) valid held aside = held
run-view s k e (remove (some q)) valid held aside =
    Deleted-view s k e held q _ aside (delete-Deleted s valid q)
run-view s k e (remove none) valid held aside = held
run-view s k e (purge now) valid held aside =
    (purge_expired-Purges s valid now).reads k ∙ rw held (ground (arith, aside))
run-view s k e reset valid held aside = absurd (ground arith)

run_all-view :
    (s : Store) (k : Bytes) (e : Entry) (calls : List Call)
    → IsValid s
    → view s k ≡ some e
    → All (IsAside k e.expires_at_utc_seconds) calls
    → IsValid (run_all s calls) × (view (run_all s calls) k ≡ some e)
unfolding run_all
run_all-view s k e [] valid held aside = (valid, held)
run_all-view s k e (c ∷ calls) valid held aside =
    run_all-view (run s c) k e calls (run-Sound s c valid).valid
      (run-view s k e c valid held aside.0) aside.1

-- After a write that answered OK, and then any calls that write or delete other keys, or look up or
-- purge before the entry expires, whichever allocations fail, a lookup answers with the written
-- value and its expiry, or with NO_MEMORY where the copy cannot be allocated, as long as its time
-- to live lasts, and with EXPIRED from then on.
pub get_copy-run_all :
    (s : Store) (allocations : Allocations) (k value : Bytes) (ttl_seconds : ℕ) (now later : ℤ)
    (calls : List Call) (copied : Bool)
    → IsValid s
    → (set_entry allocations s (some k) (some value) ttl_seconds now).0 ≡ ok
    → All (IsAside k (now +ℤ pos ttl_seconds)) calls
    → answer (
        get_copy copied
          (run_all (set_entry allocations s (some k) (some value) ttl_seconds now).1 calls)
          (some k)
          later)
      ≡ (if leb_ℤ (now +ℤ pos ttl_seconds) later
          then (expired, none)
          else if copied
          then (ok, some (value, now +ℤ pos ttl_seconds))
          else (no_memory, none))
unfolding read_at
get_copy-run_all s allocations k value ttl_seconds now later calls copied valid stored aside =
    let u = stored-Updates s valid allocations k value ttl_seconds now stored in
    let first : view (set_entry allocations s (some k) (some value) ttl_seconds now).1 k
        ≡ some (entry k value (now +ℤ pos ttl_seconds)) =
      u.reads k ∙ rw (same_key_refl k) refl in
    let (still, held) = run_all-view _ k _ calls u.valid first aside in
    get_copy-read_at _ k copied later still ∙ rw held refl
