-- ===== src/Text/Scan.antt =====
-- `isspace`, `isdigit`, `strchr`, `strstr`, `strncmp`, `strncasecmp` and `snprintf` of a text, as
-- internal/httpserver/http_server.c and internal/config/config.c call them.
use mp_cache.Prelude.{
  ℕ, ◌+◌, ◌-◌, Bool, true, false, ◌&&◌, ◌||◌, Bytes, Option, none, some, [], ◌∷◌, leb, ◌==◌, take,
  if◌then◌else◌,
}

-- `isspace` and `isdigit` in the C locale.
unfoldable pub is_space : ℕ → Bool
is_space character = character == b' ' || (leb 9 character && leb character 13)

unfoldable pub is_digit : ℕ → Bool
is_digit character = leb b'0' character && leb character b'9'

unfoldable pub skip_space : Bytes → Bytes
unfolding is_space
skip_space [] = []
skip_space (c ∷ rest) = if is_space c then skip_space rest else c ∷ rest

-- `strncmp(text, prefix, strlen(prefix)) == 0`.
unfoldable pub starts_with : Bytes → Bytes → Bool
starts_with [] text = true
starts_with (p ∷ prefix) [] = false
starts_with (p ∷ prefix) (c ∷ text) = (p == c) && starts_with prefix text

unfoldable pub to_lower : ℕ → ℕ
to_lower character = if leb b'A' character && leb character b'Z' then character + 32 else character

-- `strncasecmp(text, prefix, strlen(prefix)) == 0`.
unfoldable pub starts_with_caseless : Bytes → Bytes → Bool
unfolding to_lower
starts_with_caseless [] text = true
starts_with_caseless (p ∷ prefix) [] = false
starts_with_caseless (p ∷ prefix) (c ∷ text) =
    (to_lower p == to_lower c) && starts_with_caseless prefix text

-- `strchr(text, character)` for a character that is not NUL: the text from it on.
unfoldable pub find_byte : ℕ → Bytes → Option Bytes
find_byte character [] = none
find_byte character (c ∷ rest) =
    if c == character then some (c ∷ rest) else find_byte character rest

-- `strstr(text, pattern)`: the text from the first occurrence on.
unfoldable pub find_text : Bytes → Bytes → Option Bytes
unfolding starts_with
find_text pattern [] = if starts_with pattern [] then some [] else none
find_text pattern (c ∷ rest) =
    if starts_with pattern (c ∷ rest) then some (c ∷ rest) else find_text pattern rest

-- `snprintf(destination, capacity, "%s", text)` for a capacity that is not 0.
unfoldable pub truncated : ℕ → Bytes → Bytes
unfolding take
truncated capacity text = take (capacity - 1) text
