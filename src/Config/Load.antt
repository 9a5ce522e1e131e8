-- ===== src/Config/Load.antt =====
-- `mp_cache_config_load_file` on the bytes of the file (internal/config/config.c).
use mp_cache.Prelude.{
  ℕ, ◌-◌, Bool, true, false, not, ◌&&◌, ◌||◌, Bytes, Option, none, some, List, [], ◌∷◌, ◌++◌,
  length, ◌==◌, take, drop, if◌then◌else◌,
}
use mp_cache.Storage.Records.{until_nul}
use mp_cache.Text.Scan.{is_space, find_byte, truncated}
use mp_cache.Config.Fields.{Config, text_cap, Status, not_found, io_error, parse_error}
use mp_cache.Config.Values.{trim, split_last, unquote, is_blank}
use mp_cache.Config.Apply.{apply_value}
use mp_cache.Config.Validate.{validate}

-- The variables of the loop.
pub record Loading : Type 0 where
  pub section : Bytes
  pub config : Config

abbrev close_line : Bytes → List Bytes
close_line [] = []
close_line (c ∷ line) = (c ∷ line) ∷ []

-- What `fgets` gives, call by call: a line with its line feed, or 2047 bytes of it. The arguments
-- are the room that is left, and the bytes of the line so far.
unfoldable pub read_lines : ℕ → Bytes → Bytes → List Bytes
read_lines room line [] = close_line line
read_lines room line (c ∷ rest) = elim (c == b'\n' || room == 1) [
  | true ↦ (line ++ c ∷ []) ∷ read_lines 2047 [] rest
  | false ↦ read_lines (room - 1) (line ++ c ∷ []) rest
]

-- A line `[section]` behind its bracket.
unfoldable pub read_section : Loading → Bytes → Option Loading
read_section loading rest = elim (split_last rest) [
  | none ↦ none
  | some (name, last) ↦
      if length rest == 1 || not (last == b']')
      then none
      else some (record loading { section = truncated text_cap name })
]

-- The text from the first `=` on, or else from the first `:` on. A line without either is an error,
-- since a line that ends with a colon has one.
unfoldable pub find_separator : Bytes → Option Bytes
find_separator line = elim (find_byte b'=' line) [
  | some behind ↦ some behind
  | none ↦ find_byte b':' line
]

abbrev starts_with_space : Bytes → Bool
starts_with_space [] = false
starts_with_space (c ∷ rest) = is_space c

-- A key and what follows its separator. An empty value opens a section, unless a space stands
-- before it.
unfoldable pub read_setting : Loading → Bytes → Bytes → Option Loading
read_setting loading key behind =
    let value = unquote (trim behind) in
    let applied : Option Loading = elim (apply_value loading.config loading.section key value) [
      | none ↦ none
      | some config ↦ some (record loading { config = config })
    ] in
    if is_blank value && not (starts_with_space behind)
    then some (record loading { section = truncated text_cap key })
    else if is_blank loading.section || is_blank key
    then none
    else applied

abbrev is_comment : ℕ → Bool
is_comment character = character == b'#' || character == b';'

-- A trimmed line; `none` is a parse error.
unfoldable pub read_line : Loading → Bytes → Option Loading
read_line loading [] = some loading
read_line loading (c ∷ rest) =
    if is_comment c
    then some loading
    else if c == b'['
    then read_section loading rest
    else elim (find_separator (c ∷ rest)) [
      | none ↦ none
      | some separator ↦
          read_setting loading (trim (take (length (c ∷ rest) - length separator) (c ∷ rest)))
            (drop 1 separator)
    ]

-- The loop over the lines: whether it ran to its end, and its variables.
unfoldable pub load_lines : Loading → List Bytes → Bool × Loading
load_lines loading [] = (true, loading)
load_lines loading (line ∷ lines) = elim (read_line loading (trim (until_nul line))) [
  | none ↦ (false, loading)
  | some next ↦ load_lines next lines
]

-- What the file system answers: no such file, another error, or the bytes that can be read and
-- whether an error ends them.
pub data File : Type 0 where
  missing unopened : File
  contents : Bytes → Bool → File

-- The status, and the configuration that is left.
unfoldable pub load_file : File → Config → Status × Config
load_file missing config = (not_found, config)
load_file unopened config = (io_error, config)
load_file (contents bytes broken) config =
    let (complete, loading) =
      load_lines (record { section = []; config = config }) (read_lines 2047 [] bytes) in
    if not complete
    then (parse_error, loading.config)
    else if broken
    then (io_error, loading.config)
    else (validate loading.config, loading.config)
