-- ===== src/Config/Lines.antt =====
-- The lines of a template, as `fgets` gives them (internal/config/config.c).
use mp_cache.Prelude.{
  ℕ, ◌-◌, ◌<◌, ◌≡◌, ◌∙◌, refl, ap, Bool, true, false, not, ◌&&◌, ltb, ◌||◌, Bytes, List, [], ◌∷◌,
  ◌++◌, append_assoc, length, ◌==◌, All, arith,
}
use mp_cache.Text.Found.{IsNot}
use mp_cache.Config.Template.{join_lines}
use mp_cache.Config.Load.{read_lines}

-- A line with its line feed.
abbrev pub closed : Bytes → Bytes
closed line = line ++ b'\n' ∷ []

abbrev pub all_closed : List Bytes → List Bytes
all_closed [] = []
all_closed (line ∷ lines) = closed line ∷ all_closed lines

-- A line that fits the buffer of the loader, without a line feed.
abbrev pub IsLine : Bytes → Type 0
IsLine line = All (IsNot b'\n') line × (length line < 2047)

read_lines-line :
    (room : ℕ) (read line rest : Bytes)
    → All (IsNot b'\n') line
    → length line < room
    → read_lines room read (line ++ b'\n' ∷ rest) ≡ (read ++ closed line) ∷ read_lines 2047 [] rest
unfolding read_lines
read_lines-line room read [] rest all fits = refl
read_lines-line room read (c ∷ line) rest all fits =
    let goes_on : (c == b'\n' || room == 1) ≡ false = ground (arith, all.0) in
    rw (goes_on, read_lines)
      (read_lines-line (room - 1) (read ++ c ∷ []) line rest all.1 (omega arith)
        ∙ ap (λ (l : Bytes). l ∷ read_lines 2047 [] rest)
            (append_assoc read (c ∷ []) (closed line)))

pub read_lines-join_lines :
    (lines : List Bytes)
    → All IsLine lines
    → read_lines 2047 [] (join_lines lines) ≡ all_closed lines
unfolding join_lines read_lines
read_lines-join_lines [] all = refl
read_lines-join_lines (line ∷ lines) all =
    read_lines-line 2047 [] line (join_lines lines) all.0.0 all.0.1
    ∙ ap (λ (l : List Bytes). closed line ∷ l) (read_lines-join_lines lines all.1)

abbrev is_line : Bytes → Bool
is_line [] = true
is_line (c ∷ line) = not (c == b'\n') && is_line line

is_line-IsNot : (line : Bytes) → is_line line ≡ true → All (IsNot b'\n') line
is_line-IsNot [] h = tt
is_line-IsNot (c ∷ line) h = (ground (arith, h), is_line-IsNot line (ground (arith, h)))

-- A line that is written out.
pub written-IsLine : (line : Bytes) → (is_line line && ltb (length line) 2047) ≡ true → IsLine line
written-IsLine line h = (is_line-IsNot line (ground (arith, h)), ground (arith, h))

infixr 5 ◌⊲◌
-- What holds of a line, in front of what holds of the others.
abbrev pub ◌⊲◌ : {A B : Type 0} → A → B → A × B
here ⊲ rest = (here, rest)
