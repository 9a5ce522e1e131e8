-- ===== src/Http/Purged.antt =====
-- What a purge of selected keys leaves in the cache (internal/httpserver/http_server.c).
use mp_cache.Prelude.{
  ℕ, ◌+◌, ◌≡◌, ◌∙◌, refl, sym, ap, subst, Bool, true, false, ◌||◌, Bool-cases, inl, inr, Bytes,
  none, some, List, [], ◌∷◌, length, ◌==◌, if◌then◌else◌, arith,
}
use mp_cache.Prelude.Int.{ℤ}
use mp_cache.Cache.Entry.{same_key, same_key_iff}
use mp_cache.Cache.Store as Cache
use mp_cache.Cache.Store.{delete}
use mp_cache.Cache.Invariant.{IsValid, view}
use mp_cache.Cache.Removals.{Deleted, delete-Deleted}
use mp_cache.Http.Server.{Server}
use mp_cache.Http.Host.{Host, resilient_checkpoint}
use mp_cache.Http.Purges.{
  Purging, note_purged, after_delete, purge_key, purge_keys, finish_purge, keys_are_valid,
  start_purge, purge_selected,
}

-- Whether a key is one of those that were selected.
unfoldable pub among : Bytes → List Bytes → Bool
among q [] = false
among q (key ∷ keys) = same_key key q || among q keys

-- The cache of `before` without some keys.
pub record Lacks (before after : Cache.Store) (keys : List Bytes) : Type 0 where
  pub valid : IsValid after
  pub reads : (q : Bytes) → view after q ≡ (if among q keys then none else view before q)

if_same : {A : Type 0} (b : Bool) (a : A) → (if b then a else a) ≡ a
if_same true a = refl
if_same false a = refl

-- What one round does: its key is gone, and it is counted.
record Round (p : Purging) (key : Bytes) (r : Bool × Purging) : Type 0 where
  goes_on : r.0 ≡ true
  valid : IsValid r.1.store
  reads : (q : Bytes) → view r.1.store q ≡ (if same_key key q then none else view p.store q)
  counted :
      r.1.purged_key_count + r.1.missing_key_count ≡ p.purged_key_count + p.missing_key_count + 1

unheld :
    (s : Cache.Store) (key q : Bytes)
    → view s key ≡ none
    → view s q ≡ (if same_key key q then none else view s q)
unheld s key q held = elim (Bool-cases (same_key key q)) [
  | inl same ↦ rw same (ap (view s) (sym ((same_key_iff key q).0 same)) ∙ held)
  | inr other ↦ rw other
]

note_purged-store :
    (host : Host) (server : Server) (key : Bytes) (store : Cache.Store) (p : Purging)
    → ((note_purged host server key store p).store ≡ store)
      × ((note_purged host server key store p).purged_key_count ≡ p.purged_key_count + 1)
      × ((note_purged host server key store p).missing_key_count ≡ p.missing_key_count)
unfolding note_purged
note_purged-store host server key store p = ground arith

after_delete-Round :
    (host : Host) (server : Server) (key : Bytes) (p : Purging) (r : Cache.Status × Cache.Store)
    → IsValid p.store
    → Deleted p.store key r
    → Round p key (after_delete host server key p r)
unfolding after_delete
after_delete-Round host server key p (Cache.not_found, store) valid (inl (held, e)) = record {
  goes_on = refl;
  valid = valid;
  reads = λ q. unheld p.store key q held;
  counted = omega arith;
}
after_delete-Round host server key p (Cache.ok, store) valid (inr (e, held, done, u)) =
    let (kept, purged, missing) = note_purged-store host server key store p in
    record {
      goes_on = refl;
      valid = subst IsValid (sym kept) u.valid;
      reads = λ q. ap (λ (t : Cache.Store). view t q) kept ∙ u.reads q;
      counted = omega arith;
    }
after_delete-Round host server key p (_, store) valid (inl (held, e)) = cc
after_delete-Round host server key p (_, store) valid (inr (e, held, done, u)) = cc

record Rounds (p : Purging) (keys : List Bytes) (r : Bool × Purging) : Type 0 where
  complete : r.0 ≡ true
  lacks : Lacks p.store r.1.store keys
  counted :
      r.1.purged_key_count + r.1.missing_key_count
      ≡ p.purged_key_count + p.missing_key_count + length keys

purge_keys-Rounds :
    (host : Host) (server : Server) (keys : List Bytes) (p : Purging)
    → IsValid p.store
    → Rounds p keys (purge_keys host server keys p)
unfolding purge_keys among
purge_keys-Rounds host server [] p valid = record {
  complete = refl;
  lacks = record { valid = valid; reads = λ q. refl };
  counted = omega arith;
}
purge_keys-Rounds host server (key ∷ keys) p valid =
    let here =
      after_delete-Round host server key p (delete p.store (some key)) valid
        (delete-Deleted p.store valid key) in
    let rest = purge_keys-Rounds host server keys (purge_key host server key p).1 here.valid in
    rw here.goes_on (record {
      complete = rest.complete;
      lacks = record {
        valid = rest.lacks.valid;
        reads = λ q.
            rest.lacks.reads q
            ∙ rw (here.reads q) (elim (Bool-cases (same_key key q)) [
              | inl same ↦ rw same (if_same (among q keys) none)
              | inr other ↦ rw other
            ]);
      };
      counted = omega (arith, here.counted, rest.counted);
    })

resilient_checkpoint-store :
    (host : Host) (server : Server) (now : ℤ)
    → (resilient_checkpoint host server now).1.store ≡ server.store
unfolding resilient_checkpoint
resilient_checkpoint-store host server now = refl

finish_purge-store :
    (host : Host) (server : Server) (n : ℕ) (p : Purging) (now : ℤ)
    → (finish_purge host server n p now).1.store ≡ p.store
unfolding finish_purge
finish_purge-store host server n p now = grind (arith, resilient_checkpoint-store)

-- A purge of valid keys leaves a well-formed cache that holds none of them and whatever it held
-- under other keys, also where the purge could not be recorded.
pub purge_selected-Lacks :
    (host : Host) (server : Server) (keys : List Bytes) (now : ℤ)
    → IsValid server.store
    → (length keys == 0) ≡ false
    → keys_are_valid server.config.max_key_bytes keys ≡ true
    → Lacks server.store (purge_selected host server keys now).1.store keys
unfolding purge_selected
purge_selected-Lacks host server keys now valid some_key sized =
    let rounds = purge_keys-Rounds host server keys (start_purge server) valid in
    rw (some_key, sized, rounds.complete)
      (subst (λ (t : Cache.Store). Lacks server.store t keys)
        (sym (finish_purge-store host server (length keys) _ now)) rounds.lacks)
