-- ===== src/Security/Records.antt =====
-- The array of client records of `mp_cache_security_t` and its search (internal/security/security.c).
use mp_cache.Prelude.{
  ℕ, ◌+◌, ◌≡◌, refl, Bool, true, false, not, ◌&&◌, ◌||◌, Bytes, Option, none, some, List, [], ◌∷◌,
  ◌++◌, length, str_equal, str_equal_refl, eq_of_str_equal, leb, ◌==◌, if◌then◌else◌, arith, All,
  Bool-cases, inl, inr,
}
use mp_cache.Security.Roles.{Role}

abbrev pub client_id_cap : ℕ
client_id_cap = 64

-- `mp_cache_client_record_t`; `token_hash` has 32 bytes.
pub record ClientRecord : Type 0 where
  pub client_id : Bytes
  pub role : Role
  pub token_active : Bool
  pub token_hash : Bytes

-- `isalnum` in the C locale, a dash, an underscore or a full stop.
unfoldable pub is_id_character : ℕ → Bool
is_id_character character =
    (leb b'0' character && leb character b'9')
    || (leb b'A' character && leb character b'Z')
    || (leb b'a' character && leb character b'z')
    || character == b'-'
    || character == b'_'
    || character == b'.'

unfoldable pub all_id_characters : Bytes → Bool
all_id_characters [] = true
all_id_characters (c ∷ rest) = is_id_character c && all_id_characters rest

-- `mp_cache_client_id_is_valid`.
unfoldable pub client_id_is_valid : Bytes → Bool
client_id_is_valid client_id =
    not (length client_id == 0 || leb client_id_cap (length client_id))
    && all_id_characters client_id

-- `mp_cache_security_find_record`: the first record with the ID.
unfoldable pub find_record : Bytes → List ClientRecord → Option ClientRecord
find_record client_id [] = none
find_record client_id (r ∷ rest) =
    if str_equal r.client_id client_id then some r else find_record client_id rest

-- A write through the pointer that `find_record` gave.
unfoldable pub write_record : ClientRecord → List ClientRecord → List ClientRecord
write_record next [] = []
write_record next (r ∷ rest) =
    if str_equal r.client_id next.client_id then next ∷ rest else r ∷ write_record next rest

-- How many records have an ID.
unfoldable pub count_id : Bytes → List ClientRecord → ℕ
count_id q [] = 0
count_id q (r ∷ rest) = (if str_equal r.client_id q then 1 else 0) + count_id q rest

-- The records without the first one that has the ID.
unfoldable pub without : Bytes → List ClientRecord → List ClientRecord
without client_id [] = []
without client_id (r ∷ rest) =
    if str_equal r.client_id client_id then rest else r ∷ without client_id rest

pub count_id-append :
    (q : Bytes) (records : List ClientRecord) (added : ClientRecord)
    → count_id q (records ++ added ∷ [])
      ≡ count_id q records + (if str_equal added.client_id q then 1 else 0)
unfolding count_id
count_id-append q [] added = omega arith
count_id-append q (r ∷ rest) added = omega (arith, count_id-append q rest added)

pub count_id-eq_zero :
    (q : Bytes) (records : List ClientRecord)
    → find_record q records ≡ none
    → count_id q records ≡ 0
unfolding find_record count_id
count_id-eq_zero q [] h = refl
count_id-eq_zero q (r ∷ rest) h = ground (arith, count_id-eq_zero q rest)

pub count_id-write_record :
    (q : Bytes) (next : ClientRecord) (records : List ClientRecord)
    → count_id q (write_record next records) ≡ count_id q records
unfolding count_id write_record
count_id-write_record q next [] = refl
count_id-write_record q next (r ∷ rest) =
    ground (arith, eq_of_str_equal r.client_id next.client_id, count_id-write_record q next rest)

pub length-write_record :
    (next : ClientRecord) (records : List ClientRecord)
    → length (write_record next records) ≡ length records
unfolding write_record
length-write_record next [] = refl
length-write_record next (r ∷ rest) = ground (arith, length-write_record next rest)

pub All-write_record :
    (P : ClientRecord → Type 0) (next : ClientRecord) (records : List ClientRecord)
    → P next
    → All P records
    → All P (write_record next records)
unfolding write_record
All-write_record P next [] h hs = hs
All-write_record P next (r ∷ rest) h hs = elim (Bool-cases (str_equal r.client_id next.client_id)) [
  | inl same ↦ rw same (h, hs.1)
  | inr other ↦ rw other (hs.0, All-write_record P next rest h hs.1)
]

pub find_record-client_id :
    (q : Bytes) (records : List ClientRecord) (r : ClientRecord)
    → find_record q records ≡ some r
    → r.client_id ≡ q
unfolding find_record
find_record-client_id q [] r h = cc
find_record-client_id q (x ∷ rest) r h =
    ground (arith, find_record-client_id q rest r, eq_of_str_equal x.client_id q)

pub All-find_record :
    (P : ClientRecord → Type 0) (q : Bytes) (records : List ClientRecord) (r : ClientRecord)
    → find_record q records ≡ some r
    → All P records
    → P r
unfolding find_record
All-find_record P q [] r h hs = cc
All-find_record P q (x ∷ rest) r h hs = ground (arith, hs.0, All-find_record P q rest r, hs.1)

-- What a later search finds after a record has been added at the end.
pub find_record-append :
    (q : Bytes) (records : List ClientRecord) (added : ClientRecord)
    → find_record q records ≡ none
    → find_record q (records ++ added ∷ [])
      ≡ (if str_equal added.client_id q then some added else none)
unfolding find_record
find_record-append q [] added h = refl
find_record-append q (r ∷ rest) added h = ground (arith, find_record-append q rest added)

pub find_record-append_other :
    (q : Bytes) (records : List ClientRecord) (added : ClientRecord)
    → str_equal added.client_id q ≡ false
    → find_record q (records ++ added ∷ []) ≡ find_record q records
unfolding find_record
find_record-append_other q [] added h = ground arith
find_record-append_other q (r ∷ rest) added h =
    ground (arith, find_record-append_other q rest added h)

-- What a later search finds after a write through the pointer.
pub find_record-write_record :
    (q : Bytes) (records : List ClientRecord) (next old : ClientRecord)
    → find_record next.client_id records ≡ some old
    → find_record q (write_record next records)
      ≡ (if str_equal next.client_id q then some next else find_record q records)
unfolding find_record write_record
find_record-write_record q [] next old h = cc
find_record-write_record q (r ∷ rest) next old h = ground (
  arith,
  find_record-write_record q rest next old,
  eq_of_str_equal r.client_id next.client_id,
  eq_of_str_equal next.client_id q,
  str_equal_refl q,
)
