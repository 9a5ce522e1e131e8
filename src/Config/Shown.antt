-- ===== src/Config/Shown.antt =====
-- Keys, numbers and quoted texts in the lines of a template (internal/config/config.c).
use mp_cache.Prelude.{
  ℕ, ◌<◌, ◌≡◌, refl, sym, subst, Bool, true, false, not, ◌&&◌, ◌||◌, Bytes, some, [], ◌∷◌, ◌++◌,
  leb, ◌==◌, All, All-append, word64, arith,
}
use mp_cache.Text.Scan.{is_space, is_digit, skip_space}
use mp_cache.Text.Found.{IsNot}
use mp_cache.Text.Number.{word32, decimal}
use mp_cache.Text.Printed.{IsDigit, decimal-IsDigit, decimal-first, strtoul-decimal}
use mp_cache.Config.Values.{trim_end, split_last, unquote, parse_u32, parse_u64}
use mp_cache.Config.Template.{in_quotes}
use mp_cache.Config.Settings.{IsPlain, Shows, IsKey, trim_end-append, trim_end-cons}

-- Digits, letters and underscores are solid: they have no meaning in a line.
abbrev pub is_solid : ℕ → Bool
is_solid c = leb 48 c && leb c 122 && not (c == b':' || c == b';' || c == b'=' || c == b'[')

abbrev pub IsSolid : ℕ → Type 0
IsSolid c = is_solid c ≡ true

-- A text that is not empty, of solid characters.
abbrev pub is_word : Bytes → Bool
is_word [] = false
is_word (c ∷ []) = is_solid c
is_word (c ∷ d ∷ text) = is_solid c && is_word (d ∷ text)

pub word-IsSolid : (text : Bytes) → is_word text ≡ true → All IsSolid text
word-IsSolid [] h = tt
word-IsSolid (c ∷ []) h = (h, tt)
word-IsSolid (c ∷ d ∷ text) h = (ground (arith, h), word-IsSolid (d ∷ text) (ground (arith, h)))

pub solid-IsNot :
    (a : ℕ) (text : Bytes) → is_solid a ≡ false → All IsSolid text → All (IsNot a) text
solid-IsNot a [] h all = tt
solid-IsNot a (c ∷ text) h all = (ground (arith, all.0, h), solid-IsNot a text h all.1)

trim_end-solid : (text : Bytes) → All IsSolid text → trim_end text ≡ text
unfolding trim_end is_space
trim_end-solid [] all = refl
trim_end-solid (c ∷ []) all = ground (arith, all.0)
trim_end-solid (c ∷ d ∷ text) all =
    trim_end-cons c (d ∷ text) (omega arith) (trim_end-solid (d ∷ text) all.1)

solid-IsPlain : (c : ℕ) (rest : Bytes) → All IsSolid (c ∷ rest) → IsPlain (c ∷ rest)
unfolding skip_space is_space
solid-IsPlain c rest all = record {
  present = omega arith;
  no_space = ground (arith, all.0);
  no_space_behind = trim_end-solid (c ∷ rest) all;
  no_nul = solid-IsNot 0 (c ∷ rest) refl all;
  no_equals = solid-IsNot b'=' (c ∷ rest) refl all;
}

unquote-solid : (c : ℕ) (rest : Bytes) → IsSolid c → unquote (c ∷ rest) ≡ c ∷ rest
unfolding unquote
unquote-solid c rest h = ground (arith, h)

solid-Shows : (c : ℕ) (rest : Bytes) → All IsSolid (c ∷ rest) → Shows (c ∷ rest) (c ∷ rest)
solid-Shows c rest all = record {
  plain = solid-IsPlain c rest all;
  unquoted = unquote-solid c rest all.0;
  present = omega arith;
}

solid-IsKey : (c : ℕ) (rest : Bytes) → All IsSolid (c ∷ rest) → IsKey c rest
unfolding is_space
solid-IsKey c rest all = record {
  plain = solid-IsPlain c rest all;
  first = ground (arith, all.0);
  no_colon = solid-IsNot b':' (c ∷ rest) refl all;
}

pub word-IsKey :
    (text : Bytes)
    → is_word text ≡ true
    → (c : ℕ) × (rest : Bytes) × (text ≡ c ∷ rest) × IsKey c rest
word-IsKey [] h = absurd (ground arith)
word-IsKey (c ∷ rest) h = (c, rest, refl, solid-IsKey c rest (word-IsSolid (c ∷ rest) h))

pub word-Shows : (text : Bytes) → is_word text ≡ true → Shows text text
word-Shows [] h = absurd (ground arith)
word-Shows (c ∷ rest) h = solid-Shows c rest (word-IsSolid (c ∷ rest) h)

digits-IsSolid : (text : Bytes) → All IsDigit text → All IsSolid text
unfolding is_digit
digits-IsSolid [] all = tt
digits-IsSolid (c ∷ text) all = (ground (arith, all.0), digits-IsSolid text all.1)

pub decimal-IsSolid : (n : ℕ) → All IsSolid (decimal n)
decimal-IsSolid n = digits-IsSolid (decimal n) (decimal-IsDigit n)

pub decimal-Shows : (n : ℕ) → Shows (decimal n) (decimal n)
decimal-Shows n =
    let (c, rest, e, digit) = decimal-first n in
    let all : All IsSolid (c ∷ rest) = subst (λ (t : Bytes). All IsSolid t) e (decimal-IsSolid n) in
    subst (λ (t : Bytes). Shows t t) (sym e) (solid-Shows c rest all)

split_last-append : (text : Bytes) (last : ℕ) → split_last (text ++ last ∷ []) ≡ some (text, last)
unfolding split_last
split_last-append [] last = refl
split_last-append (c ∷ text) last = rw (split_last-append text last) refl

pub quoted-Shows : (value : Bytes) → IsPlain value → Shows (in_quotes value) value
unfolding unquote skip_space is_space trim_end
quoted-Shows value plain = record {
  plain = record {
    present = omega arith;
    no_space = refl;
    no_space_behind = trim_end-append (b'"' ∷ value) (b'"' ∷ []) (omega arith) refl;
    no_nul = (refl, All-append (IsNot 0) value (b'"' ∷ []) plain.no_nul (refl, tt));
    no_equals = (refl, All-append (IsNot b'=') value (b'"' ∷ []) plain.no_equals (refl, tt));
  };
  unquoted = rw (split_last-append value b'"', unquote) refl;
  present = plain.present;
}

pub parse_u64-decimal : (n : ℕ) → n < word64 → parse_u64 (decimal n) ≡ some n
unfolding parse_u64 skip_space
parse_u64-decimal n h = rw (strtoul-decimal n h, parse_u64) refl

pub parse_u32-decimal : (n : ℕ) → n < word32 → parse_u32 (decimal n) ≡ some n
unfolding parse_u32 skip_space
parse_u32-decimal n h =
    let small : leb word32 n ≡ false = ground arith in
    rw (strtoul-decimal n (omega arith), parse_u32, small) refl
