-- ===== src/Config/Steps.antt =====
-- The loader on one line of a template (internal/config/config.c).
use Prim.Native.String.{String}
use mp_cache.Prelude.{
  ℕ, ◌+◌, ◌≤◌, ◌<◌, ◌≡◌, ◌∙◌, ◌⊎◌, inl, inr, refl, sym, ap, Bool, true, false, not, ◌&&◌, ◌||◌,
  Bytes, codes, Option, none, some, List, [], ◌∷◌, ◌++◌, length, length-append, leb, ltb, ◌==◌, All,
  All-append, word64, arith, if◌then◌else◌, str_equal, take, drop,
}
use mp_cache.Storage.Records.{until_nul}
use mp_cache.Text.Scan.{truncated, is_space, skip_space, find_byte}
use mp_cache.Text.Found.{IsNot, truncated-short}
use mp_cache.Text.Number.{word32, decimal}
use mp_cache.Text.Printed.{decimal-length}
use mp_cache.Config.Fields.{Config}
use mp_cache.Config.Values.{
  trim_end, trim, unquote, split_last, parse_u32, parse_bool_u32, is_build_version_valid,
}
use mp_cache.Config.Apply.{assign, apply_value}
use mp_cache.Config.Template.{setting, flag_text, in_quotes}
use mp_cache.Config.Load.{
  Loading, load_lines, read_section, find_separator, read_setting, read_line,
}
use mp_cache.Config.Settings.{Shows, load_lines-setting}
use mp_cache.Config.Shown.{
  is_word, word-IsSolid, word-IsKey, word-Shows, quoted-Shows, solid-IsNot, decimal-Shows,
  decimal-IsSolid, parse_u32-decimal,
}
use mp_cache.Config.Lines.{closed, IsLine}

abbrev pub at : Bytes → Config → Loading
at section config = record { section = section; config = config }

-- The definitions that the loader needs on a line that is written out.
unfoldable pub reading : Unit {0}
unfolding str_equal take drop until_nul is_space skip_space find_byte truncated trim_end trim
    unquote split_last read_section find_separator read_setting read_line apply_value
reading = tt

-- A short word, which can be a key or a section.
abbrev pub is_name : String → Bool
is_name name = is_word (codes name) && ltb (length (codes name)) 40

-- A text that the template shows as it is, and that fits the line and its array.
pub record IsShown (capacity : ℕ) (value : Bytes) : Type 0 where
  pub shows : Shows value value
  pub fits : length value < capacity
  pub short : length value < 2000
  pub no_line_feed : All (IsNot b'\n') value

-- A number, a flag or another value that is parsed.
name-present : (name : String) → is_name name ≡ true → 1 ≤ length (codes name)
name-present name h =
    let (c, rest, e, is_key) = word-IsKey (codes name) (ground (arith, h)) in rw e (omega arith)

module _ (key section : String) (config : Config) (lines : List Bytes)
    (names : (is_name key && is_name section) ≡ true) where
  setting_step :
      (text value : Bytes) (updated : Config)
      → Shows text value
      → apply_value config (codes section) (codes key) value ≡ some updated
      → load_lines (at (codes section) config) (closed (setting key text) ∷ lines)
        ≡ load_lines (at (codes section) updated) lines
  setting_step text value updated shows applied =
      let (c, rest, spelled, is_key) = word-IsKey (codes key) (ground (arith, names)) in
      load_lines-setting key c rest text value (codes section) config updated lines spelled is_key
        shows (name-present section (ground (arith, names))) applied

  -- A number, a flag or another value that is parsed.
  pub parsed_step :
      (text : Bytes) (n : ℕ) (parsed : Option ℕ) (update : Config → ℕ → Config)
      → Shows text text
      → parsed ≡ some n
      → apply_value config (codes section) (codes key) text ≡ assign parsed (update config)
      → load_lines (at (codes section) config) (closed (setting key text) ∷ lines)
        ≡ load_lines (at (codes section) (update config n)) lines
  parsed_step text n parsed update shows value applied =
      setting_step text text (update config n) shows
        (applied ∙ ap (λ (o : Option ℕ). assign o (update config)) value)

  pub number_step :
      (n : ℕ) (update : Config → ℕ → Config)
      → n < word32
      → apply_value config (codes section) (codes key) (decimal n)
        ≡ assign (parse_u32 (decimal n)) (update config)
      → load_lines (at (codes section) config) (closed (setting key (decimal n)) ∷ lines)
        ≡ load_lines (at (codes section) (update config n)) lines
  number_step n update fits applied =
      parsed_step (decimal n) n (parse_u32 (decimal n)) update (decimal-Shows n)
        (parse_u32-decimal n fits) applied

  pub text_step :
      (value : Bytes) {capacity : ℕ} (update : Config → Bytes → Config)
      → IsShown capacity value
      → apply_value config (codes section) (codes key) value
        ≡ some (update config (truncated capacity value))
      → load_lines (at (codes section) config) (closed (setting key value) ∷ lines)
        ≡ load_lines (at (codes section) (update config value)) lines
  text_step value {capacity} update shown applied =
      setting_step value value (update config value) shown.shows (
        applied
        ∙ ap (λ (v : Bytes). some (update config v)) (truncated-short capacity value shown.fits))

  pub version_step :
      (value : Bytes) {capacity : ℕ} (update : Config → Bytes → Config)
      → IsShown capacity value
      → is_build_version_valid value ≡ true
      → apply_value config (codes section) (codes key) value ≡ (
          if is_build_version_valid value
          then some (update config (truncated capacity value))
          else none)
      → load_lines (at (codes section) config) (closed (setting key (in_quotes value)) ∷ lines)
        ≡ load_lines (at (codes section) (update config value)) lines
  version_step value {capacity} update shown valid applied =
      setting_step (in_quotes value) value (update config value)
        (quoted-Shows value shown.shows.plain)
        (applied ∙ rw (valid, truncated-short capacity value shown.fits) refl)

abbrev pub IsFlag : ℕ → Type 0
IsFlag flag = (flag ≡ 0) ⊎ (flag ≡ 1)

pub flag_text-Shows : (flag : ℕ) → IsFlag flag → Shows (flag_text flag) (flag_text flag)
flag_text-Shows flag (inl e) = rw e (word-Shows (codes "false") refl)
flag_text-Shows flag (inr e) = rw e (word-Shows (codes "true") refl)

pub parse_bool_u32-flag_text :
    (flag : ℕ) → IsFlag flag → parse_bool_u32 (flag_text flag) ≡ some flag
unfolding parse_bool_u32 mp_cache.Prelude.str_equal
parse_bool_u32-flag_text flag (inl e) = rw e refl
parse_bool_u32-flag_text flag (inr e) = rw e refl

-- Lines without a line feed that are short enough.
setting-IsLine :
    (key : String) (text : Bytes)
    → is_name key ≡ true
    → All (IsNot b'\n') text
    → length text < 2003
    → IsLine (setting key text)
setting-IsLine key text name all fits =
    let short : length (codes key) < 40 = ground (arith, name) in
    let solid = word-IsSolid (codes key) (ground (arith, name)) in
    (
      (
        refl,
        (
          refl,
          All-append (IsNot b'\n') (codes key) (b':' ∷ b' ' ∷ text)
              (solid-IsNot b'\n' (codes key) refl solid) (refl, (refl, all)),
        ),
      ),
      omega (arith, short, length-append (codes key) (b':' ∷ b' ' ∷ text)),
    )

pub text-IsLine :
    (key : String) {capacity : ℕ} (value : Bytes)
    → is_name key ≡ true
    → IsShown capacity value
    → IsLine (setting key value)
text-IsLine key {capacity} value name shown =
    setting-IsLine key value name shown.no_line_feed (omega (arith, shown.short))

pub quoted-IsLine :
    (key : String) {capacity : ℕ} (value : Bytes)
    → is_name key ≡ true
    → IsShown capacity value
    → IsLine (setting key (in_quotes value))
quoted-IsLine key {capacity} value name shown =
    setting-IsLine key (in_quotes value) name
      (refl, All-append (IsNot b'\n') value (b'"' ∷ []) shown.no_line_feed (refl, tt))
      (omega (arith, shown.short, length-append value (b'"' ∷ [])))

pub number-IsLine :
    (key : String) (n : ℕ) → is_name key ≡ true → n < word64 → IsLine (setting key (decimal n))
number-IsLine key n name fits =
    setting-IsLine key (decimal n) name (solid-IsNot b'\n' (decimal n) refl (decimal-IsSolid n))
      (omega (arith, decimal-length n fits))

pub flag-IsLine :
    (key : String) (flag : ℕ)
    → is_name key ≡ true
    → IsFlag flag
    → IsLine (setting key (flag_text flag))
flag-IsLine key flag name (inl e) = rw e (
    setting-IsLine key (codes "false") name
      (solid-IsNot b'\n' (codes "false") refl (word-IsSolid (codes "false") refl)) (omega arith))
flag-IsLine key flag name (inr e) = rw e (
    setting-IsLine key (codes "true") name
      (solid-IsNot b'\n' (codes "true") refl (word-IsSolid (codes "true") refl)) (omega arith))
