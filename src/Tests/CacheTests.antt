-- ===== src/Tests/CacheTests.antt =====
-- The cache on a store of four buckets (tests/unit/cache_tests.c).
use mp_cache.Prelude.{
  All, ℕ, ◌≡◌, ◌↔◌, ◌<◌, ◌+◌, refl, Bool, true, false, none, some, List, [], ◌∷◌, Bytes, arith,
  if◌then◌else◌, codes, get_or, set, replicate, sum_by, add64, sub64, mem_equal,
}
use mp_cache.Prelude.Int.{pos, ◌+ℤ◌, leb_ℤ}
use mp_cache.Cache.Entry.{same_key, hash_bytes, slot_cost}
use mp_cache.Cache.Slot.{find_slot_in}
use mp_cache.Cache.Store.{
  Store, Status, ok, expired, no_memory, limit_exceeded, Limits, Allocations, zeroed, init,
  bucket_index, find_slot, place, write_present, write_entry, set_entry, restore_entry, unlink,
  get_present, get_copy, delete_present, delete,
}
use mp_cache.Cache.Walk.{clear, purge_expired, for_each}
use mp_cache.Cache.Invariant.{IsValid}
use mp_cache.Cache.Writes.{
  entry, Fits, StoresOrFails, set_entry-StoresOrFails, set_entry-limit, restore_entry-StoresOrFails,
}
use mp_cache.Cache.Removals.{Looked, get_copy-Looked, Deleted, delete-Deleted}
use mp_cache.Cache.Purge.{Purges, purge_expired-Purges}
use mp_cache.Cache.Lifecycle.{IsSupported, init-IsValid}
use mp_cache.Cache.Runs.{Call, Sound, run, run_all, run_all-Sound}
use mp_cache.Cache.Readback.{answer}
use mp_cache.Cache.Survival.{IsAside, get_copy-run_all}

unfoldable pub cache_program : Unit {0}
unfolding get_or set replicate sum_by add64 sub64 mem_equal same_key hash_bytes slot_cost
    find_slot_in init bucket_index find_slot place write_present write_entry set_entry restore_entry
    unlink get_present get_copy delete_present delete clear purge_expired for_each
cache_program = tt

abbrev small : Limits
small = record {
  bucket_count = 4;
  memory_limit_bytes = 130;
  max_key_bytes = 8;
  max_value_bytes = 16;
}

abbrev pub plenty : Allocations
plenty = record { key_copy = true; value_copy = true; node = true }

abbrev no_node : Allocations
no_node = record { key_copy = true; value_copy = true; node = false }

small-IsSupported : IsSupported small
small-IsSupported = omega arith

abbrev pub fresh_store : Store
fresh_store = (init true small zeroed).1

pub fresh_store-IsValid : IsValid fresh_store
fresh_store-IsValid = (init-IsValid small zeroed small-IsSupported).1

abbrev pub key_a : Bytes
key_a = codes "a"

abbrev pub key_b : Bytes
key_b = codes "b"

abbrev one_set : Status × Store
one_set = set_entry plenty fresh_store (some key_a) (some (codes "alpha")) 10 (pos 100)

one_set_ok : one_set.0 ≡ ok
unfolding cache_program
one_set_ok = refl

set_entry-StoresOrFails_example :
    StoresOrFails fresh_store (entry key_a (codes "alpha") (pos 100 +ℤ pos 10)) one_set
set_entry-StoresOrFails_example =
    set_entry-StoresOrFails fresh_store fresh_store-IsValid plenty key_a (codes "alpha") 10
      (pos 100)

set_entry-limit_example :
    (one_set.0 ≡ limit_exceeded)
    ↔ ((0 < 10) × (¬ Fits fresh_store (entry key_a (codes "alpha") (pos 100 +ℤ pos 10))))
set_entry-limit_example =
    set_entry-limit fresh_store fresh_store-IsValid plenty key_a (codes "alpha") 10 (pos 100)

restore_entry-StoresOrFails_example :
    StoresOrFails fresh_store
      (entry key_b (codes "beta") (pos 7))
      (restore_entry no_node fresh_store (some key_b) (some (codes "beta")) (pos 7))
restore_entry-StoresOrFails_example =
    restore_entry-StoresOrFails fresh_store fresh_store-IsValid no_node key_b (codes "beta") (pos 7)

run_all-Sound_example : Sound fresh_store (
    run_all fresh_store (
      Call.set plenty (some key_a) (some (codes "alpha")) 10 (pos 100)
      ∷ Call.set plenty (some key_b) (some (codes "beta")) 20 (pos 100)
      ∷ Call.set no_node (some (codes "c")) (some []) 5 (pos 100)
      ∷ Call.get true (some key_a) (pos 110)
      ∷ Call.purge (pos 115)
      ∷ []))
run_all-Sound_example =
    run_all-Sound fresh_store
      (Call.set plenty (some key_a) (some (codes "alpha")) 10 (pos 100)
        ∷ Call.set plenty (some key_b) (some (codes "beta")) 20 (pos 100)
        ∷ Call.set no_node (some (codes "c")) (some []) 5 (pos 100)
        ∷ Call.get true (some key_a) (pos 110)
        ∷ Call.purge (pos 115)
        ∷ [])
      fresh_store-IsValid

abbrev two_calls : List Call
two_calls =
    Call.set plenty (some key_a) (some (codes "alpha")) 10 (pos 100)
    ∷ Call.set plenty (some key_b) (some (codes "beta")) 20 (pos 100)
    ∷ []

abbrev two_entries : Store
two_entries = run_all fresh_store two_calls

two_entries-IsValid : IsValid two_entries
two_entries-IsValid = (run_all-Sound fresh_store two_calls fresh_store-IsValid).valid

get_copy-Looked_example :
    Looked two_entries key_a (pos 110) true (get_copy true two_entries (some key_a) (pos 110))
get_copy-Looked_example = get_copy-Looked two_entries two_entries-IsValid key_a true (pos 110)

delete-Deleted_example : Deleted two_entries key_b (delete two_entries (some key_b))
delete-Deleted_example = delete-Deleted two_entries two_entries-IsValid key_b

purge_expired-Purges_example : Purges two_entries (pos 110) (purge_expired two_entries (pos 110))
purge_expired-Purges_example = purge_expired-Purges two_entries two_entries-IsValid (pos 110)

abbrev calls_aside : List Call
calls_aside =
    Call.set plenty (some key_b) (some (codes "beta")) 20 (pos 101)
    ∷ Call.get true (some key_a) (pos 102)
    ∷ Call.purge (pos 103)
    ∷ Call.remove (some key_b)
    ∷ []

calls_are-IsAside : All (IsAside key_a (pos 100 +ℤ pos 10)) calls_aside
unfolding cache_program mp_cache.Prelude.Int.◌+ℤ◌
calls_are-IsAside = (refl, (refl, (refl, (refl, tt))))

get_copy-run_all_example :
    answer (get_copy true (run_all one_set.1 calls_aside) (some key_a) (pos 109)) ≡ (
      if leb_ℤ (pos 100 +ℤ pos 10) (pos 109)
      then (expired, none)
      else if true
      then (ok, some (codes "alpha", pos 100 +ℤ pos 10))
      else (no_memory, none))
get_copy-run_all_example =
    get_copy-run_all fresh_store plenty key_a (codes "alpha") 10 (pos 100) (pos 109) calls_aside
      true fresh_store-IsValid one_set_ok calls_are-IsAside

-- The offset basis of the source is FNV's 14695981039346656037 without its last digit.
hash_of_empty : hash_bytes [] ≡ 1469598103934665603
unfolding cache_program
hash_of_empty = refl

full_is_refused :
    (set_entry plenty two_entries (some (codes "c")) (some (codes "0123456789abcdef")) 1 (pos 0)).0
    ≡ limit_exceeded
unfolding cache_program run_all run
full_is_refused = refl
