-- ===== src/Http/Items.antt =====
-- `mp_cache_http_extract_json_string_array` (internal/httpserver/http_server.c).
use mp_cache.Prelude.{
  ℕ, zero, suc, ◌+◌, ◌*◌, Bool, true, false, not, Bytes, Option, none, some, List, [], ◌∷◌, length,
  leb, ◌==◌, if◌then◌else◌,
}
use mp_cache.Text.Scan.{skip_space}
use mp_cache.Http.Json.{
  quote, backslash, Outcome, done, fail, einval, e2big, enomem, ◌>>=◌, unescape, keep, field_value,
}

abbrev pub array_limit : ℕ
array_limit = 256

-- Which sizes `malloc` and `realloc` grant: of the buffer of one string in bytes, and of the array
-- in elements.
pub record Grants : Type 0 where
  pub string : ℕ → Bool
  pub array : ℕ → Bool

-- The capacity that a string of some length needs: 16, doubled where the character and the NUL do
-- not fit; `none` where the memory is refused.
unfoldable pub room_for : (ℕ → Bool) → ℕ → ℕ → Option ℕ
room_for grants capacity decoded_length =
    if leb capacity (decoded_length + 1)
    then (if grants (capacity * 2) then some (capacity * 2) else none)
    else some capacity

-- The loop over one string of the array, which ends as that of a string field does.
unfoldable pub read_item : (ℕ → Bool) → ℕ → ℕ → Bool → Bytes → Outcome (Bytes × Bytes)
read_item grants capacity decoded_length escaped [] = fail einval
read_item grants capacity decoded_length true (c ∷ rest) = elim (unescape c) [
  | none ↦ fail einval
  | some next ↦ elim (room_for grants capacity decoded_length) [
    | none ↦ fail enomem
    | some larger ↦ keep next (read_item grants larger (decoded_length + 1) false rest)
  ]
]
read_item grants capacity decoded_length false (c ∷ rest) = elim (c == quote) [
  | true ↦ done ([], rest)
  | false ↦ elim (c == backslash) [
    | true ↦ read_item grants capacity decoded_length true rest
    | false ↦ elim (room_for grants capacity decoded_length) [
      | none ↦ fail enomem
      | some larger ↦ keep c (read_item grants larger (decoded_length + 1) false rest)
    ]
  ]
]

-- One round of the loop up to the decoded string; `value_count` strings stand before it.
unfoldable pub read_element : Grants → ℕ → Bytes → Outcome (Bytes × Bytes)
read_element grants value_count [] = fail einval
read_element grants value_count (c ∷ rest) =
    if not (c == quote)
    then fail einval
    else if leb array_limit value_count
    then fail e2big
    else if grants.string 16
    then read_item grants.string 16 0 false rest
    else fail enomem

-- The array grows to 4 elements and then doubles.
unfoldable pub array_room : (ℕ → Bool) → ℕ → ℕ → Option ℕ
array_room grants value_capacity value_count =
    let next_capacity = if value_capacity == 0 then 4 else value_capacity * 2 in
    if value_count == value_capacity
    then (if grants next_capacity then some next_capacity else none)
    else some value_capacity

abbrev pub prepend : Bytes → Outcome (List Bytes) → Outcome (List Bytes)
prepend value (done values) = done (value ∷ values)
prepend value (fail errno) = fail errno

-- The loop over the elements, on fuel; each round takes bytes of the text.
unfoldable pub read_elements : ℕ → Grants → ℕ → ℕ → Bytes → Outcome (List Bytes)
read_elements zero grants value_capacity value_count text = fail einval
read_elements (suc fuel) grants value_capacity value_count text =
    elim (read_element grants value_count text) [
      | fail errno ↦ fail errno
      | done (value, behind) ↦ elim (array_room grants.array value_capacity value_count) [
        | none ↦ fail enomem
        | some larger ↦ elim (skip_space behind) [
          | [] ↦ fail einval
          | c ∷ rest ↦ elim (c == b',') [
            | true ↦
                prepend value (read_elements fuel grants larger (value_count + 1) (skip_space rest))
            | false ↦ if c == b']' then done (value ∷ []) else fail einval
          ]
        ]
      ]
    ]

-- What stands behind the opening bracket.
unfoldable pub read_array : Grants → Bytes → Outcome (List Bytes)
read_array grants [] = fail einval
read_array grants (c ∷ rest) =
    if c == b']' then done [] else read_elements (suc (length rest)) grants 0 0 (c ∷ rest)

unfoldable pub open_array : Grants → Bytes → Outcome (List Bytes)
open_array grants [] = fail einval
open_array grants (c ∷ rest) =
    if c == b'[' then read_array grants (skip_space rest) else fail einval

unfoldable pub extract_json_string_array : Grants → Option Bytes → Bytes → Outcome (List Bytes)
extract_json_string_array grants none field_name = fail einval
extract_json_string_array grants (some json_body) field_name = do
  value ← field_value json_body field_name
  open_array grants value
