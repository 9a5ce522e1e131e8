-- ===== src/Http/Fields.antt =====
-- Fields of a JSON body that were written with the escapes of the server are read
-- (internal/httpserver/http_server.c).
use mp_cache.Prelude.{
  ℕ, ◌+◌, ◌<◌, ◌≡◌, ◌∙◌, refl, ap, Bool, true, false, ◌||◌, Bytes, some, [], ◌∷◌, ◌++◌,
  append_assoc, length, length-append, All-append, leb, ◌==◌, All, arith,
}
use mp_cache.Text.Scan.{skip_space, find_text}
use mp_cache.Text.Found.{
  IsNot, IsFirst, IsSpace, skip_space-append, truncated-short, find_text-first, find_byte-first,
}
use mp_cache.Http.Json.{
  quote, done, escape_byte, escape_all, quoted, find_json_field, unescape, keep, read_string,
  field_value, read_value, extract_json_string,
}

-- A character that the reader gets back: printable, or a line feed, a carriage return or a tab.
abbrev pub is_readable : ℕ → Bool
is_readable c = leb 0x20 c || c == b'\n' || c == b'\r' || c == b'\t'

abbrev pub IsReadable : ℕ → Type 0
IsReadable c = is_readable c ≡ true

read_string-escape_byte :
    (capacity i c : ℕ) (rest : Bytes)
    → IsReadable c
    → i + 1 < capacity
    → read_string capacity i false (escape_byte c ++ rest)
      ≡ keep c (read_string capacity (i + 1) false rest)
unfolding read_string escape_byte unescape
read_string-escape_byte capacity i c rest readable room = ground arith

pub read_string-escape_all :
    (capacity i : ℕ) (text rest : Bytes)
    → All IsReadable text
    → i + length text < capacity
    → read_string capacity i false (escape_all text ++ quote ∷ rest) ≡ done (text, rest)
unfolding escape_all read_string
read_string-escape_all capacity i [] rest readable room = refl
read_string-escape_all capacity i (c ∷ text) rest readable room =
    ap (read_string capacity i false)
      (append_assoc (escape_byte c) (escape_all text) (quote ∷ rest))
    ∙ read_string-escape_byte capacity i c (escape_all text ++ quote ∷ rest) readable.0
        (omega arith)
    ∙ ap (keep c) (read_string-escape_all capacity (i + 1) text rest readable.1 (omega arith))

find_json_field-label :
    (before field rest : Bytes)
    → IsFirst (quoted field) before
    → length field < 126
    → find_json_field (before ++ (quoted field ++ rest)) field ≡ some (quoted field ++ rest)
unfolding find_json_field
find_json_field-label before field rest clean short =
    ap (λ (pattern : Bytes). find_text pattern (before ++ (quoted field ++ rest)))
      (truncated-short 128 (quoted field) (omega (arith, length-append field (quote ∷ []))))
    ∙ find_text-first (quoted field) before rest clean

pub field_value-label :
    (before field value : Bytes)
    → IsFirst (quoted field) before
    → All (IsNot b':') field
    → length field < 126
    → field_value (before ++ (quoted field ++ b':' ∷ value)) field ≡ done (skip_space value)
unfolding field_value
field_value-label before field value clean plain short =
    let label = find_json_field-label before field (b':' ∷ value) clean short in
    let colon =
      find_byte-first b':' (quoted field) value
        (refl, All-append (IsNot b':') field (quote ∷ []) plain (refl, tt)) in
    rw (label, field_value, colon) refl

-- A string field that was written with the escapes of the server is read as the text, in any buffer
-- with room for it and a NUL, whatever stands before the label and behind the text, and with white
-- space behind the colon. The label, of less than 126 bytes and without a colon, is not in the body
-- before its place, and the text has no control character but line feeds, carriage returns and tabs.
pub extract_json_string-escape_all :
    (before field spaces text behind : Bytes) (capacity : ℕ)
    → IsFirst (quoted field) before
    → All (IsNot b':') field
    → length field < 126
    → All IsSpace spaces
    → All IsReadable text
    → length text < capacity
    → extract_json_string
        (some (
          before
          ++ (quoted field ++ b':' ∷ (spaces ++ quote ∷ (escape_all text ++ quote ∷ behind)))))
        field
        capacity
      ≡ done text
unfolding extract_json_string skip_space read_value
extract_json_string-escape_all before field spaces text behind capacity clean plain short blank
      readable room =
    let positive : (capacity == 0) ≡ false = ground arith in
    let shown : Bytes = quote ∷ (escape_all text ++ quote ∷ behind) in
    rw
      (
        positive,
        field_value-label before field (spaces ++ shown) clean plain short,
        skip_space-append spaces shown blank,
        read_string-escape_all capacity 0 text behind readable (omega arith),
      )
      refl
