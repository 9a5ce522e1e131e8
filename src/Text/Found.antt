-- ===== src/Text/Found.antt =====
-- Where the searches of string.h find what they look for.
use mp_cache.Prelude.{
  ℕ, zero, suc, ◌-◌, length-append, append_assoc, ◌≤◌, ◌<◌, ◌≡◌, ◌∙◌, refl, sym, ap, Bool, true,
  false, ◌&&◌, Bool-cases, inl, inr, Bytes, Option, none, some, [], ◌∷◌, ◌++◌, length, ◌==◌, take,
  All, arith,
}
use mp_cache.Text.Scan.{is_space, skip_space, starts_with, find_byte, find_text, truncated}

abbrev pub IsNot : ℕ → ℕ → Type 0
IsNot a c = (c == a) ≡ false

take_all : (n : ℕ) (text : Bytes) → length text ≤ n → take n text ≡ text
unfolding take
take_all zero [] h = refl
take_all zero (c ∷ text) h = absurd (omega arith)
take_all (suc n) [] h = refl
take_all (suc n) (c ∷ text) h = ap (λ (l : Bytes). c ∷ l) (take_all n text (omega arith))

pub truncated-short :
    (capacity : ℕ) (text : Bytes) → length text < capacity → truncated capacity text ≡ text
unfolding truncated
truncated-short capacity text h = take_all (capacity - 1) text (omega arith)

starts_with-append : (prefix rest : Bytes) → starts_with prefix (prefix ++ rest) ≡ true
unfolding starts_with
starts_with-append [] rest = refl
starts_with-append (c ∷ prefix) rest = ground (arith, starts_with-append prefix rest)

starts_with-longer :
    (pattern text more : Bytes)
    → length pattern ≤ length text
    → starts_with pattern (text ++ more) ≡ starts_with pattern text
unfolding starts_with
starts_with-longer [] text more h = refl
starts_with-longer (p ∷ pattern) [] more h = absurd (omega arith)
starts_with-longer (p ∷ pattern) (c ∷ text) more h =
    ap (λ (b : Bool). (p == c) && b) (starts_with-longer pattern text more (omega arith))

-- In `before` and the pattern behind it, the pattern stands nowhere before the end.
abbrev pub IsFirst : Bytes → Bytes → Type 0
IsFirst pattern before = find_text pattern (before ++ pattern) ≡ some pattern

length_of : Option Bytes → ℕ
length_of none = 0
length_of (some text) = length text

-- A search finds the pattern at its first place, whatever stands behind it.
pub find_text-first :
    (pattern before rest : Bytes)
    → IsFirst pattern before
    → find_text pattern (before ++ (pattern ++ rest)) ≡ some (pattern ++ rest)
unfolding find_text length_of
find_text-first [] [] [] h = refl
find_text-first [] [] (r ∷ rest) h = refl
find_text-first (p ∷ pattern) [] rest h = ground (arith, starts_with-append (p ∷ pattern) rest)
find_text-first pattern (c ∷ before) rest h =
    let behind : Bytes = before ++ pattern in
    elim (Bool-cases (starts_with pattern (c ∷ behind))) [
      | inl early ↦
          let whole : find_text pattern (c ∷ behind) ≡ some (c ∷ behind) =
            rw (early, find_text) refl in
          absurd (omega (arith, ap length_of (sym whole ∙ h), length-append before pattern))
      | inr later ↦
          let missed : starts_with pattern (c ∷ (before ++ (pattern ++ rest))) ≡ false =
            ap (λ (l : Bytes). starts_with pattern (c ∷ l)) (sym (append_assoc before pattern rest))
            ∙ starts_with-longer pattern (c ∷ behind) rest
                (omega (arith, length-append before pattern))
            ∙ later in
          let skipped : find_text pattern (c ∷ behind) ≡ find_text pattern behind =
            rw (later, find_text) refl in
          rw missed (find_text-first pattern before rest (sym skipped ∙ h))
    ]

pub find_byte-first :
    (b : ℕ) (before rest : Bytes)
    → All (IsNot b) before
    → find_byte b (before ++ b ∷ rest) ≡ some (b ∷ rest)
unfolding find_byte
find_byte-first b [] rest h = ground arith
find_byte-first b (c ∷ before) rest h = ground (arith, h.0, find_byte-first b before rest h.1)

abbrev pub IsSpace : ℕ → Type 0
IsSpace c = is_space c ≡ true

pub skip_space-append :
    (spaces text : Bytes) → All IsSpace spaces → skip_space (spaces ++ text) ≡ skip_space text
unfolding skip_space
skip_space-append [] text h = refl
skip_space-append (c ∷ spaces) text h = rw h.0 (skip_space-append spaces text h.1)
