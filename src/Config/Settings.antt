-- ===== src/Config/Settings.antt =====
-- The lines that `mp_cache_config_write_template` writes for a setting, as
-- `mp_cache_config_load_file` reads them (internal/config/config.c).
use Prim.Native.String.{String}
use mp_cache.Prelude.{
  ℕ, ◌-◌, ◌≤◌, ◌≡◌, ◌∙◌, refl, sym, ap, Bool, true, false, not, ◌||◌, Bytes, codes, none, some,
  List, [], ◌∷◌, ◌++◌, length, ◌==◌, take, drop, take-append, All, All-append, length-append, arith,
}
use mp_cache.Storage.Records.{until_nul}
use mp_cache.Text.Scan.{is_space, skip_space, find_byte}
use mp_cache.Text.Found.{IsNot, find_byte-first}
use mp_cache.Config.Fields.{Config}
use mp_cache.Config.Values.{trim_end, trim, unquote, is_blank}
use mp_cache.Config.Apply.{apply_value}
use mp_cache.Config.Template.{setting}
use mp_cache.Config.Load.{Loading, find_separator, read_setting, read_line, load_lines}

-- A text that stands in a line as it is: not empty, with no white space around it, no NUL and no
-- equals sign.
pub record IsPlain (value : Bytes) : Type 0 where
  pub present : 1 ≤ length value
  pub no_space : skip_space value ≡ value
  pub no_space_behind : trim_end value ≡ value
  pub no_nul : All (IsNot 0) value
  pub no_equals : All (IsNot b'=') value

-- A text that a line shows for a value, between quotes or not.
pub record Shows (text value : Bytes) : Type 0 where
  pub plain : IsPlain text
  pub unquoted : unquote text ≡ value
  pub present : 1 ≤ length value

abbrev pub begins_line : ℕ → Bool
begins_line c = not (is_space c || c == b'#' || c == b';' || c == b'[' || c == b':')

-- A key: plain, with no colon, and with no character in front that means something there.
pub record IsKey (c : ℕ) (rest : Bytes) : Type 0 where
  pub plain : IsPlain (c ∷ rest)
  pub first : begins_line c ≡ true
  pub no_colon : All (IsNot b':') (c ∷ rest)

until_nul-id : (text : Bytes) → All (IsNot 0) text → until_nul text ≡ text
unfolding until_nul
until_nul-id [] h = refl
until_nul-id (c ∷ text) h = ground (arith, h.0, until_nul-id text h.1)

trim_end-space :
    (text : Bytes) (c : ℕ) → is_space c ≡ true → trim_end (text ++ c ∷ []) ≡ trim_end text
unfolding trim_end
trim_end-space [] c h = rw h refl
trim_end-space (d ∷ text) c h = rw (trim_end-space text c h) refl

pub trim_end-cons :
    (c : ℕ) (text : Bytes) → 1 ≤ length text → trim_end text ≡ text → trim_end (c ∷ text) ≡ c ∷ text
unfolding trim_end
trim_end-cons c [] h e = absurd (omega arith)
trim_end-cons c (d ∷ text) h e = rw e refl

pub trim_end-append :
    (before text : Bytes)
    → 1 ≤ length text
    → trim_end text ≡ text
    → trim_end (before ++ text) ≡ before ++ text
trim_end-append [] text h e = e
trim_end-append (c ∷ before) text h e =
    trim_end-cons c (before ++ text) (omega (arith, length-append before text))
      (trim_end-append before text h e)

find_byte-none : (b : ℕ) (text : Bytes) → All (IsNot b) text → find_byte b text ≡ none
unfolding find_byte
find_byte-none b [] h = refl
find_byte-none b (c ∷ text) h = ground (arith, h.0, find_byte-none b text h.1)

is_blank-present : (text : Bytes) → 1 ≤ length text → is_blank text ≡ false
is_blank-present [] h = absurd (omega arith)
is_blank-present (c ∷ text) h = refl

pub load_lines-line :
    (loading next : Loading) (line : Bytes) (lines : List Bytes)
    → read_line loading (trim (until_nul line)) ≡ some next
    → load_lines loading (line ∷ lines) ≡ load_lines next lines
unfolding load_lines
load_lines-line loading next line lines e = rw (e, load_lines) refl

module _ (c : ℕ) (rest value meant : Bytes) (key : IsKey c rest) (shows : Shows value meant) where
  shown : Bytes
  shown = c ∷ rest ++ b':' ∷ b' ' ∷ value

  shown-no_nul : All (IsNot 0) shown
  unfolding shown
  shown-no_nul =
      All-append (IsNot 0) (c ∷ rest) (b':' ∷ b' ' ∷ value) key.plain.no_nul
        (refl, (refl, shows.plain.no_nul))

  shown-trimmed : trim_end shown ≡ shown
  unfolding shown
  shown-trimmed = trim_end-append (c ∷ rest) (b':' ∷ b' ' ∷ value) (omega arith) (
      trim_end-cons b':' (b' ' ∷ value) (omega arith)
        (trim_end-cons b' ' value shows.plain.present shows.plain.no_space_behind))

  skip_space-shown :
      (behind : Bytes) → skip_space (b' ' ∷ b' ' ∷ (shown ++ behind)) ≡ shown ++ behind
  unfolding shown skip_space is_space
  skip_space-shown behind = ground (arith, key.first)

  trim-line : trim (until_nul (b' ' ∷ b' ' ∷ (shown ++ b'\n' ∷ []))) ≡ shown
  unfolding trim is_space
  trim-line =
      ap trim (
        until_nul-id (b' ' ∷ b' ' ∷ (shown ++ b'\n' ∷ []))
          (refl, (refl, All-append (IsNot 0) shown (b'\n' ∷ []) shown-no_nul (refl, tt))))
      ∙ ap trim_end (skip_space-shown (b'\n' ∷ []))
      ∙ trim_end-space shown b'\n' refl
      ∙ shown-trimmed

  find_separator-shown : find_separator shown ≡ some (b':' ∷ b' ' ∷ value)
  unfolding shown find_separator
  find_separator-shown =
      let no_equals : find_byte b'=' shown ≡ none = find_byte-none b'=' shown (
        All-append (IsNot b'=') (c ∷ rest) (b':' ∷ b' ' ∷ value) key.plain.no_equals
          (refl, (refl, shows.plain.no_equals))) in
      rw (no_equals, find_separator) (find_byte-first b':' (c ∷ rest) (b' ' ∷ value) key.no_colon)

  trim-key : trim (take (length shown - length (b':' ∷ b' ' ∷ value)) shown) ≡ c ∷ rest
  unfolding shown trim
  trim-key =
      let behind : Bytes = b':' ∷ b' ' ∷ value in
      let counted : length (c ∷ rest ++ behind) - length behind ≡ length (c ∷ rest) =
        omega (arith, length-append (c ∷ rest) behind) in
      ap (λ (n : ℕ). trim (take n (c ∷ rest ++ behind))) counted
      ∙ ap trim (take-append (c ∷ rest) behind)
      ∙ ap trim_end key.plain.no_space
      ∙ key.plain.no_space_behind

  read_line-shown :
      (loading : Loading) → read_line loading shown ≡ read_setting loading (c ∷ rest) (b' ' ∷ value)
  unfolding shown read_line drop is_space
  read_line-shown loading =
      let comment : (c == b'#' || c == b';') ≡ false = ground (arith, key.first) in
      let bracket : (c == b'[') ≡ false = ground (arith, key.first) in
      rw (comment, bracket, find_separator-shown, trim-key) refl

  trim-value : trim (b' ' ∷ value) ≡ value
  unfolding trim skip_space is_space
  trim-value = ap trim_end shows.plain.no_space ∙ shows.plain.no_space_behind

  is_blank-meant : is_blank meant ≡ false
  is_blank-meant = is_blank-present meant shows.present

  read_setting-shown :
      (section : Bytes) (config updated : Config)
      → 1 ≤ length section
      → apply_value config section (c ∷ rest) meant ≡ some updated
      → read_setting (record { section = section; config = config }) (c ∷ rest) (b' ' ∷ value)
        ≡ some (record { section = section; config = updated })
  unfolding read_setting
  read_setting-shown section config updated named applied =
      let in_section : is_blank section ≡ false = is_blank-present section named in
      rw (trim-value, shows.unquoted, is_blank-meant, in_section, applied) refl

  load_lines-shown :
      (section : Bytes) (config updated : Config) (lines : List Bytes)
      → 1 ≤ length section
      → apply_value config section (c ∷ rest) meant ≡ some updated
      → load_lines
          (record { section = section; config = config })
          ((b' ' ∷ b' ' ∷ (shown ++ b'\n' ∷ [])) ∷ lines)
        ≡ load_lines (record { section = section; config = updated }) lines
  load_lines-shown section config updated lines named applied =
      load_lines-line (record { section = section; config = config })
        (record { section = section; config = updated }) (b' ' ∷ b' ' ∷ (shown ++ b'\n' ∷ [])) lines
        (ap (read_line (record { section = section; config = config })) trim-line
          ∙ read_line-shown (record { section = section; config = config })
          ∙ read_setting-shown section config updated named applied)

-- A line that the template writes for a setting is read as the same key and value: where the
-- section takes them, the loader goes on with the configuration that they give.
pub load_lines-setting :
    (key : String) (c : ℕ) (rest text value section : Bytes) (config updated : Config)
    (lines : List Bytes)
    → codes key ≡ c ∷ rest
    → IsKey c rest
    → Shows text value
    → 1 ≤ length section
    → apply_value config section (codes key) value ≡ some updated
    → load_lines
        (record { section = section; config = config })
        ((setting key text ++ b'\n' ∷ []) ∷ lines)
      ≡ load_lines (record { section = section; config = updated }) lines
unfolding shown
load_lines-setting key c rest text value section config updated lines spelled is_key shows named
      applied =
    rw spelled (
      load_lines-shown c rest text value is_key shows section config updated lines named
        (rw (sym spelled) applied))
