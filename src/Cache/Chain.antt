-- ===== src/Cache/Chain.antt =====
-- What appending, replacing and unlinking at the slot of `mp_cache_find_slot` do to one chain
-- (internal/cache/cache.c).
use mp_cache.Prelude.{
  ◌≤◌, ◌≡◌, none, some, List, [], ◌∷◌, ◌++◌, Bytes, arith, if◌then◌else◌, subst, inl, inr,
  Bool-cases,
}
use mathlib.Core.Option.{or_else}
use mp_cache.Cache.Entry.{Entry, same_key, same_key_iff}
use mp_cache.Cache.Slot.{find, count, find-append, count-append, find-eq-none}

-- `q` is any key that is looked up afterwards.
module _ (k q : Bytes) (before rest : List Entry) (unseen : count k before ≡ 0) where
  module _ (fresh : Entry) (written : fresh.key ≡ k) where
    pub count-appended :
        count q (before ++ fresh ∷ []) ≤ (if same_key k q then 1 else count q (before ++ []))
    unfolding count
    count-appended = rw (count-append, count-append, written) (ground (arith, same_key_iff k q))

    pub find-appended :
        find q (before ++ fresh ∷ []) ≡ (if same_key k q then some fresh else find q (before ++ []))
    unfolding find or_else
    find-appended =
        rw (find-append, find-append, written)
          (ground (arith, same_key_iff k q, find-eq-none q before))

    pub count-replaced :
        (old : Entry)
        → old.key ≡ k
        → count k (before ++ old ∷ rest) ≤ 1
        → count q (before ++ fresh ∷ rest)
          ≤ (if same_key k q then 1 else count q (before ++ old ∷ rest))
    unfolding count
    count-replaced old stored once =
        rw (count-append, count-append, written, stored)
          (ground (arith, same_key_iff k q, count-append k before (old ∷ rest), once))

    pub find-replaced :
        (old : Entry)
        → old.key ≡ k
        → find q (before ++ fresh ∷ rest)
          ≡ (if same_key k q then some fresh else find q (before ++ old ∷ rest))
    unfolding find or_else
    find-replaced old stored =
        rw (find-append, find-append, written, stored)
          (ground (arith, same_key_iff k q, find-eq-none q before))

  module _ (old : Entry) (stored : old.key ≡ k) (once : count k (before ++ old ∷ rest) ≤ 1) where
    count_rest : count k rest ≡ 0
    unfolding count
    count_rest = ground (arith, same_key_iff k k, count-append k before (old ∷ rest))

    pub count-unlinked :
        count q (before ++ rest) ≤ (if same_key k q then 1 else count q (before ++ old ∷ rest))
    unfolding count
    count-unlinked =
        rw (count-append, count-append, stored) (ground (arith, same_key_iff k q, count_rest))

    pub find-unlinked :
        find q (before ++ rest) ≡ (if same_key k q then none else find q (before ++ old ∷ rest))
    unfolding find or_else
    find-unlinked = elim (Bool-cases (same_key k q)) [
      | inl same ↦
          let e : k ≡ q = (same_key_iff k q).0 same in
          rw (
            find-append,
            find-append,
            find-eq-none q before (subst (λ x. count x before ≡ 0) e unseen),
            find-eq-none q rest (subst (λ x. count x rest ≡ 0) e count_rest),
            same,
          )
      | inr other ↦ simp (find-append, stored, other)
    ]
