-- ===== src/Http/Arrays.antt =====
-- Arrays of strings that were written with the escapes of the server are read
-- (internal/httpserver/http_server.c).
use mp_cache.Prelude.{
  ℕ, zero, suc, ◌+◌, ◌*◌, ◌≤◌, ◌<◌, ◌≡◌, ◌∙◌, refl, ap, true, false, Bytes, some, List, [], ◌∷◌,
  ◌++◌, append_assoc, length, length-append, leb, ◌==◌, All, if◌then◌else◌, arith, Bool-cases, inl,
  inr,
}
use mp_cache.Text.Scan.{skip_space}
use mp_cache.Text.Found.{IsNot, IsFirst, IsSpace, skip_space-append}
use mp_cache.Http.Json.{quote, done, escape_byte, escape_all, quoted, unescape, keep}
use mp_cache.Http.Items.{
  Grants, room_for, read_item, read_element, array_limit, array_room, prepend, read_elements,
  read_array, open_array, extract_json_string_array,
}
use mp_cache.Http.Fields.{IsReadable, field_value-label}

-- The elements and the closing bracket, in front of other text.
unfoldable pub items_text : Bytes → List Bytes → Bytes → Bytes
items_text first [] behind = quote ∷ (escape_all first ++ quote ∷ b']' ∷ behind)
items_text first (next ∷ rest) behind =
    quote ∷ (escape_all first ++ quote ∷ b',' ∷ items_text next rest behind)

skip_space-items_text :
    (first : Bytes) (rest : List Bytes) (behind : Bytes)
    → skip_space (items_text first rest behind) ≡ items_text first rest behind
unfolding skip_space items_text
skip_space-items_text first [] behind = refl
skip_space-items_text first (next ∷ rest) behind = refl

-- An array of strings without white space, in front of other text.
unfoldable pub array_text : List Bytes → Bytes → Bytes
array_text [] behind = b'[' ∷ b']' ∷ behind
array_text (first ∷ rest) behind = b'[' ∷ items_text first rest behind

skip_space-array_text :
    (values : List Bytes) (behind : Bytes)
    → skip_space (array_text values behind) ≡ array_text values behind
unfolding skip_space array_text
skip_space-array_text [] behind = refl
skip_space-array_text (first ∷ rest) behind = refl

-- Every allocation is granted.
pub record IsGranting (grants : Grants) : Type 0 where
  pub string : (n : ℕ) → grants.string n ≡ true
  pub array : (n : ℕ) → grants.array n ≡ true

module _ (grants : Grants) (granting : IsGranting grants) where
  abbrev larger : ℕ → ℕ → ℕ
  larger capacity decoded_length =
      if leb capacity (decoded_length + 1) then capacity * 2 else capacity

  room_for-larger :
      (capacity decoded_length : ℕ)
      → room_for grants.string capacity decoded_length ≡ some (larger capacity decoded_length)
  unfolding room_for
  room_for-larger capacity decoded_length = ground (arith, granting.string (capacity * 2))

  read_item-escape_byte :
      (capacity decoded_length c : ℕ) (rest : Bytes)
      → IsReadable c
      → read_item grants.string capacity decoded_length false (escape_byte c ++ rest)
        ≡ keep c (
            read_item grants.string
              (larger capacity decoded_length)
              (decoded_length + 1)
              false
              rest)
  unfolding read_item escape_byte unescape
  read_item-escape_byte capacity decoded_length c rest readable =
      ground (arith, room_for-larger capacity decoded_length)

  read_item-escape_all :
      (capacity decoded_length : ℕ) (text rest : Bytes)
      → All IsReadable text
      → read_item grants.string capacity decoded_length false (escape_all text ++ quote ∷ rest)
        ≡ done (text, rest)
  unfolding escape_all read_item
  read_item-escape_all capacity decoded_length [] rest readable = refl
  read_item-escape_all capacity decoded_length (c ∷ text) rest readable =
      ap (read_item grants.string capacity decoded_length false)
        (append_assoc (escape_byte c) (escape_all text) (quote ∷ rest))
      ∙ read_item-escape_byte capacity decoded_length c (escape_all text ++ quote ∷ rest) readable.0
      ∙ ap (keep c) (
          read_item-escape_all (larger capacity decoded_length) (decoded_length + 1) text rest
            readable.1)

  read_element-quoted :
      (value_count : ℕ) (text rest : Bytes)
      → value_count < array_limit
      → All IsReadable text
      → read_element grants value_count (quote ∷ (escape_all text ++ quote ∷ rest))
        ≡ done (text, rest)
  unfolding read_element
  read_element-quoted value_count text rest few readable =
      let free : leb array_limit value_count ≡ false = ground arith in
      rw (free, granting.string 16) (read_item-escape_all 16 0 text rest readable)

  array_room-some :
      (value_capacity value_count : ℕ)
      → (larger : ℕ) × (array_room grants.array value_capacity value_count ≡ some larger)
  unfolding array_room
  array_room-some value_capacity value_count = elim (Bool-cases (value_count == value_capacity)) [
    | inr free ↦ (value_capacity, rw free)
    | inl full ↦
        let next = if value_capacity == 0 then 4 else value_capacity * 2 in
        (next, rw (full, granting.array next) refl)
  ]

  read_elements-items_text :
      (fuel value_capacity value_count : ℕ) (first : Bytes) (rest : List Bytes) (behind : Bytes)
      → length rest < fuel
      → value_count + length rest < array_limit
      → All IsReadable first
      → All (All IsReadable) rest
      → read_elements fuel grants value_capacity value_count (items_text first rest behind)
        ≡ done (first ∷ rest)
  unfolding read_elements items_text skip_space
  read_elements-items_text zero value_capacity value_count first rest behind enough few readable
        others =
      absurd (omega arith)
  read_elements-items_text (suc fuel) value_capacity value_count first [] behind enough few readable
        others =
      let (room, e) = array_room-some value_capacity value_count in
      let here = read_element-quoted value_count first (b']' ∷ behind) (omega arith) readable in
      rw (here, read_elements, e) refl
  read_elements-items_text (suc fuel) value_capacity value_count first (next ∷ rest) behind enough
        few readable others =
      let (room, e) = array_room-some value_capacity value_count in
      let here =
        read_element-quoted value_count first (b',' ∷ items_text next rest behind) (omega arith)
          readable in
      rw (here, read_elements, e, skip_space-items_text next rest behind)
        (ap (prepend first) (
          read_elements-items_text fuel room (value_count + 1) next rest behind (omega arith)
            (omega arith) others.0 others.1))

  le-items_text :
      (first : Bytes) (rest : List Bytes) (behind : Bytes)
      → length rest < length (items_text first rest behind)
  unfolding items_text
  le-items_text first [] behind = omega arith
  le-items_text first (next ∷ rest) behind = omega (
    arith,
    length-append (escape_all first) (quote ∷ b',' ∷ items_text next rest behind),
    le-items_text next rest behind,
  )

  empty_array : (behind : Bytes) → read_array grants (b']' ∷ behind) ≡ done []
  unfolding read_array
  empty_array behind = refl

  read_array-items_text :
      (first : Bytes) (rest : List Bytes) (behind : Bytes)
      → length rest < array_limit
      → All IsReadable first
      → All (All IsReadable) rest
      → read_array grants (items_text first rest behind) ≡ done (first ∷ rest)
  unfolding read_array items_text
  read_array-items_text first [] behind few readable others =
      read_elements-items_text (length (items_text first [] behind)) 0 0 first [] behind
        (le-items_text first [] behind) (omega arith) readable others
  read_array-items_text first (next ∷ rest) behind few readable others =
      read_elements-items_text (length (items_text first (next ∷ rest) behind)) 0 0 first
        (next ∷ rest) behind (le-items_text first (next ∷ rest) behind) (omega arith) readable
        others

  open_array-array_text :
      (values : List Bytes) (behind : Bytes)
      → length values ≤ array_limit
      → All (All IsReadable) values
      → open_array grants (array_text values behind) ≡ done values
  unfolding open_array array_text skip_space
  open_array-array_text [] behind few readable = empty_array behind
  open_array-array_text (first ∷ rest) behind few readable =
      rw (skip_space-items_text first rest behind)
        (read_array-items_text first rest behind (omega arith) readable.0 readable.1)

-- An array of at most 256 strings that was written with the escapes of the server, with no white
-- space inside, is read as those strings, whatever stands before the label and behind the array, with
-- white space behind the colon, and where memory is granted. The label, of less than 126 bytes and
-- without a colon, is not in the body before its place, and no string has a control character but
-- line feeds, carriage returns and tabs.
pub extract_json_string_array-array_text :
    (grants : Grants) (before field spaces : Bytes) (values : List Bytes) (behind : Bytes)
    → IsGranting grants
    → IsFirst (quoted field) before
    → All (IsNot b':') field
    → length field < 126
    → All IsSpace spaces
    → All (All IsReadable) values
    → length values ≤ array_limit
    → extract_json_string_array grants
        (some (before ++ (quoted field ++ b':' ∷ (spaces ++ array_text values behind))))
        field
      ≡ done values
unfolding extract_json_string_array
extract_json_string_array-array_text grants before field spaces values behind granting clean plain
      short blank readable few =
    rw
      (
        field_value-label before field (spaces ++ array_text values behind) clean plain short,
        skip_space-append spaces (array_text values behind) blank,
        skip_space-array_text values behind,
      )
      (open_array-array_text grants granting values behind few readable)
