-- ===== src/Cache/Store.antt =====
-- The store and its operations (internal/cache/cache.c and cache.h). A nullable pointer argument
-- is an `Option`; the store itself is never NULL, and `buckets` is empty for NULL.
use mp_cache.Prelude.{
  ℕ, ◌+◌, ◌%◌, Bool, true, false, not, ◌&&◌, ◌||◌, Bytes, Option, none, some, List, [], ◌∷◌, ◌++◌,
  length, ltb, ◌==◌, if◌then◌else◌, get_or, set, replicate, add64, sub64,
}
use mp_cache.Prelude.Int.{ℤ, pos, leb_ℤ, ◌+ℤ◌}
use mp_cache.Cache.Entry.{Entry, entry_size, entry_cost, slot_cost, hash_bytes}
use mp_cache.Cache.Slot.{Slot, find_slot_in}

pub record Store : Type 0 where
  pub buckets : List (List Entry)
  pub bucket_count : ℕ
  pub entry_count : ℕ
  pub bytes_used : ℕ
  pub memory_limit_bytes : ℕ
  pub max_key_bytes : ℕ
  pub max_value_bytes : ℕ

pub record Stats : Type 0 where
  pub entry_count : ℕ
  pub bytes_used : ℕ
  pub memory_limit_bytes : ℕ

pub data Status : Type 0 where
  ok not_found expired invalid_argument limit_exceeded no_memory : Status

-- The fields of `mp_cache_config_t` that `mp_cache_store_init` reads.
pub record Limits : Type 0 where
  pub bucket_count : ℕ
  pub memory_limit_bytes : ℕ
  pub max_key_bytes : ℕ
  pub max_value_bytes : ℕ

-- Which allocations of a write succeed: `malloc` of the two copies, `calloc` of the node.
pub record Allocations : Type 0 where
  pub key_copy : Bool
  pub value_copy : Bool
  pub node : Bool

abbrev pub zeroed : Store
zeroed = record {
  buckets = [];
  bucket_count = 0;
  entry_count = 0;
  bytes_used = 0;
  memory_limit_bytes = 0;
  max_key_bytes = 0;
  max_value_bytes = 0;
}

-- `false` is the -1 of the source; `allocated` says whether `calloc` of the buckets succeeds.
unfoldable pub init : Bool → Limits → Store → Bool × Store
init allocated config store =
    if config.bucket_count == 0
    then (false, store)
    else if not allocated
    then (false, zeroed)
    else (
      true,
      record zeroed {
        buckets = replicate config.bucket_count [];
        bucket_count = config.bucket_count;
        memory_limit_bytes = config.memory_limit_bytes;
        max_key_bytes = config.max_key_bytes;
        max_value_bytes = config.max_value_bytes;
      },
    )

unfoldable pub bucket_index : Bytes → ℕ → ℕ
bucket_index key bucket_count = hash_bytes key % bucket_count

abbrev pub chain_at : Store → Bytes → List Entry
chain_at store key = get_or store.buckets (bucket_index key store.bucket_count) []

unfoldable pub find_slot : Store → Bytes → Slot
find_slot store key = find_slot_in key (chain_at store key)

-- `*slot = node`, read back into the bucket array.
abbrev pub write_slot : Store → Bytes → Slot → List Entry → List (List Entry)
write_slot store key slot node =
    set store.buckets (bucket_index key store.bucket_count) (slot.before ++ node)

-- The end of `mp_cache_store_write_entry`: a new node at the end of the chain, or a replacement.
unfoldable pub place : Allocations → Store → Slot → Entry → ℕ → Status × Store
place allocations store slot fresh next_bytes = elim slot.node [
  | [] ↦ if not allocations.node then (no_memory, store) else (
    ok,
    record store {
      buckets = write_slot store fresh.key slot (fresh ∷ []);
      entry_count = add64 store.entry_count 1;
      bytes_used = next_bytes;
    },
  )
  | entry ∷ next ↦ (
    ok,
    record store {
      buckets = write_slot store fresh.key slot (fresh ∷ next);
      bytes_used = next_bytes;
    },
  )
]

-- `mp_cache_store_write_entry` behind its NULL checks.
unfoldable pub write_present : Allocations → Store → Entry → Status × Store
write_present allocations store fresh =
    let slot = find_slot store fresh.key in
    let next_cost = entry_size + length fresh.key + 1 + length fresh.value in
    let next_bytes = add64 (sub64 store.bytes_used (slot_cost slot.node)) next_cost in
    if length fresh.key == 0
      || ltb store.max_key_bytes (length fresh.key)
      || ltb store.max_value_bytes (length fresh.value)
    then (limit_exceeded, store)
    else if ltb store.memory_limit_bytes next_bytes
    then (limit_exceeded, store)
    else if not (allocations.key_copy && allocations.value_copy)
    then (no_memory, store)
    else place allocations store slot fresh next_bytes

unfoldable pub write_entry : Allocations → Store → Option Bytes → Option Bytes → ℤ → Status × Store
write_entry allocations store (some key) (some value) expires_at =
    write_present allocations store
      (record { key = key; value = value; expires_at_utc_seconds = expires_at })
write_entry allocations store _ _ expires_at = (invalid_argument, store)

-- `mp_cache_store_set`; its own NULL checks return what those of `write_entry` return.
unfoldable pub set_entry :
    Allocations → Store → Option Bytes → Option Bytes → ℕ → ℤ → Status × Store
unfolding write_entry
set_entry allocations store key value ttl_seconds now =
    if ttl_seconds == 0
    then (invalid_argument, store)
    else write_entry allocations store key value (now +ℤ pos ttl_seconds)

unfoldable pub restore_entry :
    Allocations → Store → Option Bytes → Option Bytes → ℤ → Status × Store
unfolding write_entry
restore_entry allocations store key value expires_at =
    if leb_ℤ expires_at (pos 0)
    then (invalid_argument, store)
    else write_entry allocations store key value expires_at

-- `*slot = entry->next` with the accounting of one removed entry.
unfoldable pub unlink : Store → Bytes → Slot → Entry → List Entry → Store
unlink store key slot entry next = record store {
  buckets = write_slot store key slot next;
  entry_count = sub64 store.entry_count 1;
  bytes_used = sub64 store.bytes_used (entry_cost entry);
}

-- `mp_cache_store_get_copy`: the copy and the expiration are returned with the status. The other
-- out pointers are taken to be not NULL; `allocated` is the `malloc` of the copy.
unfoldable pub get_present : Bool → Store → Bytes → ℤ → Status × Option (Bytes × ℤ) × Store
get_present allocated store key now =
    let slot = find_slot store key in
    elim slot.node [
      | [] ↦ (not_found, none, store)
      | entry ∷ next ↦
          if leb_ℤ entry.expires_at_utc_seconds now
          then (expired, none, unlink store key slot entry next)
          else if not allocated
          then (no_memory, none, store)
          else (ok, some (entry.value, entry.expires_at_utc_seconds), store)
    ]

unfoldable pub get_copy : Bool → Store → Option Bytes → ℤ → Status × Option (Bytes × ℤ) × Store
get_copy allocated store (some key) now = get_present allocated store key now
get_copy allocated store none now = (invalid_argument, none, store)

unfoldable pub delete_present : Store → Bytes → Status × Store
delete_present store key =
    let slot = find_slot store key in
    elim slot.node [
      | [] ↦ (not_found, store)
      | entry ∷ next ↦ (ok, unlink store key slot entry next)
    ]

unfoldable pub delete : Store → Option Bytes → Status × Store
delete store (some key) = delete_present store key
delete store none = (invalid_argument, store)
