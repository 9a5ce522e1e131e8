-- ===== src/Http/Json.antt =====
-- The small JSON reader and the escapes of the writer (internal/httpserver/http_server.c).
use mp_cache.Prelude.{
  ℕ, ◌+◌, ◌-◌, ◌/◌, ◌%◌, Bool, true, false, not, ◌||◌, Bytes, Option, none, some, [], ◌∷◌, ◌++◌,
  ltb, leb, ◌==◌, if◌then◌else◌,
}
use mp_cache.Text.Scan.{is_digit, skip_space, find_byte, find_text, truncated}
use mp_cache.Text.Number.{word32, strtoul}

abbrev pub quote : ℕ
quote = b'"'

abbrev pub backslash : ℕ
backslash = b'\\'

-- The values of `errno` that the reader sets.
pub data Errno : Type 0 where
  einval enoent enospc e2big enomem : Errno

pub data Outcome {ℓ} (A : Type ℓ) : Type ℓ where
  done : A → Outcome A
  fail : Errno → Outcome A

infixl 5 ◌>>=◌
abbrev pub ◌>>=◌ {ℓ κ} : {A : Type ℓ} {B : Type κ} → Outcome A → (A → Outcome B) → Outcome B
done a >>= f = f a
fail errno >>= f = fail errno

abbrev pub hex_digit : ℕ → ℕ
hex_digit n = if ltb n 10 then n + b'0' else n - 10 + b'a'

-- `\u%04x` of a byte below 0x20.
abbrev pub unicode_escape : ℕ → Bytes
unicode_escape character =
    backslash ∷ b'u' ∷ b'0' ∷ b'0' ∷ hex_digit (character / 16) ∷ hex_digit (character % 16) ∷ []

-- One round of the loop of `mp_cache_http_escape_json`.
unfoldable pub escape_byte : ℕ → Bytes
escape_byte character =
    if character == backslash || character == quote
    then backslash ∷ character ∷ []
    else if character == b'\n'
    then backslash ∷ b'n' ∷ []
    else if character == b'\r'
    then backslash ∷ b'r' ∷ []
    else if character == b'\t'
    then backslash ∷ b't' ∷ []
    else if ltb character 0x20
    then unicode_escape character
    else character ∷ []

unfoldable pub escape_all : Bytes → Bytes
unfolding escape_byte
escape_all [] = []
escape_all (c ∷ rest) = escape_byte c ++ escape_all rest

-- `mp_cache_http_escape_json`; `allocated` is the `malloc` of the output.
unfoldable pub escape_json : Bool → Bytes → Option Bytes
unfolding escape_all
escape_json allocated json_text = if allocated then some (escape_all json_text) else none

abbrev pub quoted : Bytes → Bytes
quoted field_name = quote ∷ (field_name ++ quote ∷ [])

-- `mp_cache_http_find_json_field`: the body from the label on, wherever it stands.
unfoldable pub find_json_field : Bytes → Bytes → Option Bytes
unfolding find_text truncated
find_json_field json_body field_name = find_text (truncated 128 (quoted field_name)) json_body

-- The character that follows a backslash.
unfoldable pub unescape : ℕ → Option ℕ
unescape character =
    if character == quote || character == backslash || character == b'/'
    then some character
    else if character == b'n'
    then some b'\n'
    else if character == b'r'
    then some b'\r'
    else if character == b't'
    then some b'\t'
    else none

abbrev pub keep : ℕ → Outcome (Bytes × Bytes) → Outcome (Bytes × Bytes)
keep character (done (out, rest)) = done (character ∷ out, rest)
keep character (fail errno) = fail errno

-- The loop over a string behind its opening quote: the characters and the text behind the closing
-- quote. The flag says that a backslash has been read.
unfoldable pub read_string : ℕ → ℕ → Bool → Bytes → Outcome (Bytes × Bytes)
unfolding unescape
read_string capacity out_index escaped [] = fail einval
read_string capacity out_index true (c ∷ rest) = elim (unescape c) [
  | none ↦ fail einval
  | some next ↦ elim (leb capacity (out_index + 1)) [
    | true ↦ fail enospc
    | false ↦ keep next (read_string capacity (out_index + 1) false rest)
  ]
]
read_string capacity out_index false (c ∷ rest) = elim (c == quote) [
  | true ↦ done ([], rest)
  | false ↦ elim (c == backslash) [
    | true ↦ read_string capacity out_index true rest
    | false ↦ elim (leb capacity (out_index + 1)) [
      | true ↦ fail enospc
      | false ↦ keep c (read_string capacity (out_index + 1) false rest)
    ]
  ]
]

-- The text behind the first colon that follows the label, without white space.
unfoldable pub field_value : Bytes → Bytes → Outcome Bytes
unfolding find_json_field find_byte skip_space
field_value json_body field_name = elim (find_json_field json_body field_name) [
  | none ↦ fail enoent
  | some field ↦ elim (find_byte b':' field) [
    | some (colon ∷ value) ↦ done (skip_space value)
    | _ ↦ fail einval
  ]
]

-- `mp_cache_http_extract_json_string` behind its NULL checks.
unfoldable pub read_value : ℕ → Bytes → Outcome Bytes
unfolding read_string
read_value capacity [] = fail einval
read_value capacity (c ∷ rest) =
    if c == quote
    then (do (out, behind) ← read_string capacity 0 false rest; done out)
    else fail einval

unfoldable pub extract_json_string : Option Bytes → Bytes → ℕ → Outcome Bytes
unfolding field_value read_value
extract_json_string none field_name capacity = fail einval
extract_json_string (some json_body) field_name capacity =
    if capacity == 0
    then fail einval
    else do value ← field_value json_body field_name; read_value capacity value

-- `mp_cache_http_extract_json_u32`. A digit stands at the start, so `strtoul` converts.
unfoldable pub read_u32 : Bytes → Outcome ℕ
unfolding is_digit strtoul
read_u32 [] = fail einval
read_u32 (c ∷ rest) =
    let parsed = strtoul (c ∷ rest) in
    if not (is_digit c) || not parsed.converted || leb word32 parsed.value
    then fail einval
    else done parsed.value

unfoldable pub extract_json_u32 : Option Bytes → Bytes → Outcome ℕ
unfolding field_value read_u32
extract_json_u32 none field_name = fail einval
extract_json_u32 (some json_body) field_name = do
  value ← field_value json_body field_name
  read_u32 value
