-- ===== src/Cache/Purge.antt =====
-- `mp_cache_store_purge_expired` (internal/cache/cache.c) on a well-formed store.
use mp_cache.Prelude.{
  ℕ, zero, suc, ◌+◌, ◌≤◌, ◌≡◌, ◌∙◌, refl, ap, Bool-cases, inl, inr, List, [], ◌∷◌, flatten, Bytes,
  arith, length, get_or, All,
}
use mp_cache.Prelude.Int.{ℤ}
use mp_cache.Cache.Entry.{Entry}
use mp_cache.Cache.Slot.{find, count, find-eq-none}
use mp_cache.Cache.Store.{Store}
use mp_cache.Cache.Walk.{Sweep, purge_expired}
use mp_cache.Cache.Invariant.{IsValid, IsPlaced, view}
use mp_cache.Cache.Update.{SameLimits, counters-lt-word64}
use mp_cache.Cache.Sweep.{
  is_live, live_of, live_buckets, keep_live, Covers, cost-live_buckets-le, purge_buckets-Swept,
}

get_or-live_buckets :
    (now : ℤ) (cs : List (List Entry)) (i : ℕ)
    → get_or (live_buckets now cs) i [] ≡ live_of now (get_or cs i [])
unfolding live_buckets get_or live_of
get_or-live_buckets now [] i = refl
get_or-live_buckets now (c ∷ cs) zero = refl
get_or-live_buckets now (c ∷ cs) (suc i) = get_or-live_buckets now cs i

length-live_buckets : (now : ℤ) (cs : List (List Entry)) → length (live_buckets now cs) ≡ length cs
unfolding live_buckets
length-live_buckets now [] = refl
length-live_buckets now (c ∷ cs) = ap suc (length-live_buckets now cs)

count-live_of-le : (now : ℤ) (q : Bytes) (c : List Entry) → count q (live_of now c) ≤ count q c
unfolding live_of count
count-live_of-le now q [] = omega arith
count-live_of-le now q (e ∷ c) = ground (arith, count-live_of-le now q c)

find-live_of :
    (now : ℤ) (q : Bytes) (c : List Entry)
    → count q c ≤ 1
    → find q (live_of now c) ≡ keep_live now (find q c)
unfolding live_of count find
find-live_of now q [] h = refl
find-live_of now q (e ∷ c) h =
    ground (arith, find-live_of now q c, find-eq-none q (live_of now c), count-live_of-le now q c)

module _ (P : Entry → Type 0) (now : ℤ) where
  All-live_of : (c : List Entry) → All P c → All P (live_of now c)
  unfolding live_of
  All-live_of [] h = tt
  All-live_of (e ∷ c) h = elim (Bool-cases (is_live now e)) [
    | inl live ↦ rw live (h.0, All-live_of c h.1)
    | inr dead ↦ rw dead (All-live_of c h.1)
  ]

  All-live_buckets : (cs : List (List Entry)) → All (All P) cs → All (All P) (live_buckets now cs)
  unfolding live_buckets
  All-live_buckets [] h = tt
  All-live_buckets (c ∷ cs) h = (All-live_of c h.0, All-live_buckets cs h.1)

-- `r` is the count and the store that a purge returns for `s`.
pub record Purges (s : Store) (now : ℤ) (r : ℕ × Store) : Type 0 where
  pub valid : IsValid r.1
  pub limits : SameLimits s r.1
  pub removed : r.0 + r.1.entry_count ≡ s.entry_count
  pub buckets : r.1.buckets ≡ live_buckets now s.buckets
  pub reads : (q : Bytes) → view r.1 q ≡ keep_live now (view s q)

module _ (s : Store) (valid : IsValid s) (now : ℤ) where
  live-IsPlaced : IsPlaced (live_buckets now s.buckets)
  live-IsPlaced q i =
      rw (length-live_buckets, get_or-live_buckets)
        (ground (arith, valid.placed q i, count-live_of-le now q (get_or s.buckets i [])))

  start : Sweep
  start = record { bytes_used = s.bytes_used; entry_count = s.entry_count; removed_count = 0 }

  start-Covers : Covers (flatten s.buckets) start
  unfolding start
  start-Covers =
      let (few, small) = counters-lt-word64 s valid in omega (arith, valid.counted, valid.charged)

  -- A purge keeps exactly the entries whose expiration is later than `now`, returns how many it
  -- removed, keeps the limits, and leaves a well-formed store.
  pub purge_expired-Purges : Purges s now (purge_expired s now)
  unfolding purge_expired start view
  purge_expired-Purges =
      let (kept, swept) = purge_buckets-Swept now s.buckets start start-Covers in
      record {
        valid = record {
          configured = record {
            width = rw kept (length-live_buckets now s.buckets ∙ valid.configured.width);
            positive = valid.configured.positive;
            roomy = valid.configured.roomy;
            key_cap = valid.configured.key_cap;
            value_cap = valid.configured.value_cap;
          };
          counted = rw kept (omega (arith, valid.counted));
          charged = rw kept (omega (arith, valid.charged));
          fits = omega (arith, valid.charged, valid.fits, cost-live_buckets-le now s.buckets);
          placed = rw kept live-IsPlaced;
          sized = rw kept (All-live_buckets _ now s.buckets valid.sized);
        };
        limits = record { bucket_count = refl; memory = refl; key = refl; value = refl };
        removed = omega (arith, valid.counted);
        buckets = kept;
        reads = λ q. rw (kept, get_or-live_buckets) (find-live_of now q _ (valid.placed q _).0);
      }
