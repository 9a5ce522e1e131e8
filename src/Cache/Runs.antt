-- ===== src/Cache/Runs.antt =====
-- Any sequence of calls of the store (internal/cache/cache.h).
use mp_cache.Prelude.{
  ℕ, ◌∙◌, refl, Bool, true, false, inl, inr, Option, none, some, List, [], ◌∷◌, Bytes,
  if◌then◌else◌,
}
use mp_cache.Prelude.Int.{ℤ}
use mp_cache.Cache.Entry.{Entry}
use mp_cache.Cache.Store.{Store, Status, Allocations, set_entry, restore_entry, get_copy, delete}
use mp_cache.Cache.Walk.{clear, purge_expired}
use mp_cache.Cache.Invariant.{IsValid}
use mp_cache.Cache.Update.{SameLimits}
use mp_cache.Cache.Writes.{StoresOrFails, set_entry-StoresOrFails, restore_entry-StoresOrFails}
use mp_cache.Cache.Removals.{Looked, get_copy-Looked, Deleted, delete-Deleted}
use mp_cache.Cache.Purge.{purge_expired-Purges}
use mp_cache.Cache.Lifecycle.{clear-IsValid}

-- One call of the store, with its arguments; a lookup's copy may fail to be allocated.
pub data Call : Type 0 where
  set : Allocations → Option Bytes → Option Bytes → ℕ → ℤ → Call
  restore : Allocations → Option Bytes → Option Bytes → ℤ → Call
  get : Bool → Option Bytes → ℤ → Call
  remove : Option Bytes → Call
  purge : ℤ → Call
  reset : Call

unfoldable pub run : Store → Call → Store
run s (set allocations key value ttl_seconds now) =
    (set_entry allocations s key value ttl_seconds now).1
run s (restore allocations key value expires_at) =
    (restore_entry allocations s key value expires_at).1
run s (get allocated key now) = (get_copy allocated s key now).2
run s (remove key) = (delete s key).1
run s (purge now) = (purge_expired s now).1
run s reset = clear s

unfoldable pub run_all : Store → List Call → Store
run_all s [] = s
run_all s (c ∷ cs) = run_all (run s c) cs

-- What every call keeps.
pub record Sound (s r : Store) : Type 0 where
  pub valid : IsValid r
  pub limits : SameLimits s r

SameLimits-refl : (s : Store) → SameLimits s s
SameLimits-refl s = record { bucket_count = refl; memory = refl; key = refl; value = refl }

stored-Sound :
    (s : Store) (fresh : Entry) (r : Status × Store)
    → IsValid s
    → StoresOrFails s fresh r
    → Sound s r.1
stored-Sound s fresh r valid (inl (_, u)) = record { valid = u.valid; limits = u.limits }
stored-Sound s fresh r valid (inr (_, same)) =
    rw same (record { valid = valid; limits = SameLimits-refl s })

Looked-Sound :
    (s : Store) (k : Bytes) (now : ℤ) (allocated : Bool) (r : Status × Option (Bytes × ℤ) × Store)
    → IsValid s
    → Looked s k now allocated r
    → Sound s r.2
Looked-Sound s k now allocated r valid (inl (_, e)) =
    rw e (record { valid = valid; limits = SameLimits-refl s })
Looked-Sound s k now allocated r valid (inr (inl (_, _, _, _, _, u))) = record {
  valid = u.valid;
  limits = u.limits;
}
Looked-Sound s k now true r valid (inr (inr (_, _, _, e))) =
    rw e (record { valid = valid; limits = SameLimits-refl s })
Looked-Sound s k now false r valid (inr (inr (_, _, _, e))) =
    rw e (record { valid = valid; limits = SameLimits-refl s })

Deleted-Sound :
    (s : Store) (k : Bytes) (r : Status × Store) → IsValid s → Deleted s k r → Sound s r.1
Deleted-Sound s k r valid (inl (_, e)) = rw e (record { valid = valid; limits = SameLimits-refl s })
Deleted-Sound s k r valid (inr (_, _, _, u)) = record { valid = u.valid; limits = u.limits }

either_way :
    {s : Store} (r : Status × Store) (b : Bool) → Sound s r.1 → Sound s (if b then r else r).1
either_way r true h = h
either_way r false h = h

pub run-Sound : (s : Store) (c : Call) → IsValid s → Sound s (run s c)
unfolding run set_entry restore_entry get_copy delete
run-Sound s (set al (some k) (some v) ttl now) valid =
    stored-Sound s _ _ valid (set_entry-StoresOrFails s valid al k v ttl now)
run-Sound s (set al (some k) none ttl now) valid =
    either_way _ _ (record { valid = valid; limits = SameLimits-refl s })
run-Sound s (set al none v ttl now) valid =
    either_way _ _ (record { valid = valid; limits = SameLimits-refl s })
run-Sound s (restore al (some k) (some v) at) valid =
    stored-Sound s _ _ valid (restore_entry-StoresOrFails s valid al k v at)
run-Sound s (restore al (some k) none at) valid =
    either_way _ _ (record { valid = valid; limits = SameLimits-refl s })
run-Sound s (restore al none v at) valid =
    either_way _ _ (record { valid = valid; limits = SameLimits-refl s })
run-Sound s (get al (some k) now) valid =
    Looked-Sound s k now al _ valid (get_copy-Looked s valid k al now)
run-Sound s (get al none now) valid = record { valid = valid; limits = SameLimits-refl s }
run-Sound s (remove (some k)) valid = Deleted-Sound s k _ valid (delete-Deleted s valid k)
run-Sound s (remove none) valid = record { valid = valid; limits = SameLimits-refl s }
run-Sound s (purge now) valid =
    let p = purge_expired-Purges s valid now in record { valid = p.valid; limits = p.limits }
run-Sound s reset valid = let c = clear-IsValid s valid in record { valid = c.0; limits = c.1 }

-- After any calls, whatever their arguments and whichever allocations fail, the store is well
-- formed: its counters are exact, no key stands twice, and the memory in use keeps the limit that
-- the store was initialised with.
pub run_all-Sound : (s : Store) (calls : List Call) → IsValid s → Sound s (run_all s calls)
unfolding run_all
run_all-Sound s [] valid = record { valid = valid; limits = SameLimits-refl s }
run_all-Sound s (c ∷ cs) valid =
    let first = run-Sound s c valid in
    let rest = run_all-Sound (run s c) cs first.valid in
    record {
      valid = rest.valid;
      limits = record {
        bucket_count = rest.limits.bucket_count ∙ first.limits.bucket_count;
        memory = rest.limits.memory ∙ first.limits.memory;
        key = rest.limits.key ∙ first.limits.key;
        value = rest.limits.value ∙ first.limits.value;
      };
    }
