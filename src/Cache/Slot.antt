-- ===== src/Cache/Slot.antt =====
-- The walk down one chain in `mp_cache_find_slot` (internal/cache/cache.c). `before` is what the
-- walk has passed, and `node` is `*slot`: empty for NULL.
use mp_cache.Prelude.{
  ℕ, ◌+◌, ◌≡◌, inl, inr, refl, Option, none, some, List, [], ◌∷◌, ◌++◌, Bytes, arith, Bool-cases,
  if◌then◌else◌,
}
use mathlib.Core.Option.{or_else}
use mp_cache.Cache.Entry.{Entry, same_key, same_key_iff}

pub record Slot : Type 0 where
  pub before : List Entry
  pub node : List Entry

unfoldable pub find_slot_in : Bytes → List Entry → Slot
find_slot_in key [] = record { before = []; node = [] }
find_slot_in key (e ∷ c) =
    if same_key e.key key
    then record { before = []; node = e ∷ c }
    else record { before = e ∷ (find_slot_in key c).before; node = (find_slot_in key c).node }

-- What a chain holds for a key: the first match.
unfoldable pub find : Bytes → List Entry → Option Entry
find q [] = none
find q (e ∷ c) = if same_key e.key q then some e else find q c

abbrev pub matches : Bytes → Entry → ℕ
matches q e = if same_key e.key q then 1 else 0

unfoldable pub count : Bytes → List Entry → ℕ
count q [] = 0
count q (e ∷ c) = matches q e + count q c

pub find_slot_in-append :
    (k : Bytes) (c : List Entry) → (find_slot_in k c).before ++ (find_slot_in k c).node ≡ c
unfolding find_slot_in
find_slot_in-append k [] = refl
find_slot_in-append k (e ∷ c) = ground (arith, find_slot_in-append k c)

pub count-before : (k : Bytes) (c : List Entry) → count k (find_slot_in k c).before ≡ 0
unfolding find_slot_in count
count-before k [] = refl
count-before k (e ∷ c) = ground (arith, count-before k c)

pub find-append :
    (key : Bytes) (front back : List Entry)
    → find key (front ++ back) ≡ or_else (find key front) (find key back)
unfolding find or_else
find-append key [] back = refl
find-append key (head ∷ front) back = ground (arith, find-append key front back)

pub find-eq-none : (q : Bytes) (c : List Entry) → count q c ≡ 0 → find q c ≡ none
unfolding find count
find-eq-none q [] h = refl
find-eq-none q (e ∷ c) h = ground (arith, find-eq-none q c)

pub count-eq-zero : (q : Bytes) (c : List Entry) → find q c ≡ none → count q c ≡ 0
unfolding find count
count-eq-zero q [] h = refl
count-eq-zero q (e ∷ c) h = ground (arith, count-eq-zero q c)

pub count-append :
    (key : Bytes) (front back : List Entry)
    → count key (front ++ back) ≡ count key front + count key back
unfolding count
count-append key [] back = omega arith
count-append key (head ∷ front) back = omega (arith, count-append key front back)

pub find-same_key : (q : Bytes) (c : List Entry) (e : Entry) → find q c ≡ some e → e.key ≡ q
unfolding find
find-same_key q [] e h = cc
find-same_key q (x ∷ c) e h = ground (arith, find-same_key q c e, same_key_iff x.key q)

-- Where the walk stops the chain ends, or the key is the one looked for.
abbrev pub StopsAt : Bytes → List Entry → Type 0
StopsAt k [] = Unit
StopsAt k (e ∷ c) = e.key ≡ k

pub find_slot_in-StopsAt : (k : Bytes) (c : List Entry) → StopsAt k (find_slot_in k c).node
unfolding find_slot_in
find_slot_in-StopsAt k [] = tt
find_slot_in-StopsAt k (e ∷ c) = elim (Bool-cases (same_key e.key k)) [
  | inl same ↦ rw same ((same_key_iff e.key k).0 same)
  | inr other ↦ rw other (find_slot_in-StopsAt k c)
]

-- The walk stops at the entry that the chain holds for the key.
unfoldable pub first : List Entry → Option Entry
first [] = none
first (e ∷ c) = some e

pub first-find_slot_in : (k : Bytes) (c : List Entry) → first (find_slot_in k c).node ≡ find k c
unfolding find_slot_in find first
first-find_slot_in k [] = refl
first-find_slot_in k (e ∷ c) = ground (arith, first-find_slot_in k c)
