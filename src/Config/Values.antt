-- ===== src/Config/Values.antt =====
-- Trimming, quotes, numbers, flags and versions (internal/config/config.c).
use mp_cache.Prelude.{
  ℕ, ◌+◌, Bool, true, false, not, ◌&&◌, ◌||◌, Bytes, codes, Option, none, some, [], ◌∷◌, leb, ◌==◌,
  str_equal, if◌then◌else◌,
}
use mp_cache.Text.Scan.{is_space, is_digit, skip_space}
use mp_cache.Text.Number.{word32, Converted, strtoul}

-- A text without its trailing white space.
unfoldable pub trim_end : Bytes → Bytes
unfolding is_space
trim_end [] = []
trim_end (c ∷ rest) = elim (trim_end rest) [
  | [] ↦ if is_space c then [] else c ∷ []
  | d ∷ kept ↦ c ∷ d ∷ kept
]

-- `mp_cache_trim`.
unfoldable pub trim : Bytes → Bytes
trim text = trim_end (skip_space text)

-- A text as what stands before its last character, and that character.
unfoldable pub split_last : Bytes → Option (Bytes × ℕ)
split_last [] = none
split_last (c ∷ rest) = elim (split_last rest) [
  | none ↦ some ([], c)
  | some (before, last) ↦ some (c ∷ before, last)
]

abbrev pub are_quotes : ℕ → ℕ → Bool
are_quotes first last = (first == b'"' && last == b'"') || (first == b'\'' && last == b'\'')

-- `mp_cache_unquote`.
unfoldable pub unquote : Bytes → Bytes
unfolding split_last
unquote [] = []
unquote (c ∷ rest) = elim (split_last rest) [
  | none ↦ c ∷ rest
  | some (before, last) ↦ if are_quotes c last then before else c ∷ rest
]

abbrev pub is_blank : Bytes → Bool
is_blank [] = true
is_blank (c ∷ rest) = false

-- The checks that both number parsers make: digits, no overflow of 64 bits, only white space behind.
abbrev pub is_number : Converted → Bool
is_number parsed = not parsed.out_of_range && parsed.converted && is_blank (skip_space parsed.rest)

-- `mp_cache_parse_u32`; an empty text has no digits. `none` is false.
unfoldable pub parse_u32 : Bytes → Option ℕ
parse_u32 value =
    let parsed = strtoul value in
    if is_number parsed && not (leb word32 parsed.value) then some parsed.value else none

-- `mp_cache_parse_u64`; `unsigned long long` has 64 bits too.
unfoldable pub parse_u64 : Bytes → Option ℕ
parse_u64 value = let parsed = strtoul value in if is_number parsed then some parsed.value else none

-- `mp_cache_parse_bool_u32`.
unfoldable pub parse_bool_u32 : Bytes → Option ℕ
parse_bool_u32 value =
    if str_equal value (codes "true")
      || str_equal value (codes "1")
      || str_equal value (codes "yes")
    then some 1
    else if str_equal value (codes "false")
        || str_equal value (codes "0")
        || str_equal value (codes "no")
    then some 0
    else none

-- The loop of `mp_cache_is_build_version_valid`.
unfoldable pub version_from : ℕ → Bool → Bytes → Bool
unfolding is_digit
version_from component_count saw_digit [] = saw_digit && component_count == 2
version_from component_count saw_digit (c ∷ rest) =
    let digit = version_from component_count true rest in
    let dot = version_from (component_count + 1) false rest in
    if is_digit c then digit else if c == b'.' then (if saw_digit then dot else false) else false

unfoldable pub is_build_version_valid : Bytes → Bool
unfolding version_from
is_build_version_valid value = if is_blank value then false else version_from 0 false value
