-- ===== src/Tests/TextTests.antt =====
-- Readers of escaped texts (tests/unit/http_tests.c).
use mp_cache.Prelude.{
  All, ℕ, ◌≡◌, refl, Bool, true, Bytes, codes, some, List, [], ◌∷◌, ◌++◌, ◌==◌, arith,
}
use mp_cache.Text.Found.{IsFirst, IsSpace}
use mp_cache.Http.Percent.{decoded, percent_decode}
use mp_cache.Http.Escaped.{percent_encode, percent_decode-percent_encode}
use mp_cache.Http.Json.{quote, done, escape_all, quoted, extract_json_string}
use mp_cache.Http.Fields.{extract_json_string-escape_all}
use mp_cache.Http.Items.{Grants, extract_json_string_array}
use mp_cache.Http.Arrays.{array_text, IsGranting, extract_json_string_array-array_text}

abbrev is_letter : ℕ → Bool
is_letter c = c == b'a'

percent_decode-percent_encode_example :
    percent_decode (percent_encode is_letter (codes "a/b")) 4 ≡ decoded (codes "a/b")
percent_decode-percent_encode_example =
    percent_decode-percent_encode is_letter (codes "a/b") 4 refl
      (omega arith, (omega arith, (omega arith, tt))) (omega arith)

text_program : Unit {0}
unfolding mp_cache.Text.Scan.find_text mp_cache.Text.Scan.starts_with mp_cache.Text.Scan.is_space
text_program = tt

abbrev opening : Bytes
opening = codes "{\"id\":\"a\","

role-IsFirst : IsFirst (quoted (codes "role")) opening
unfolding text_program
role-IsFirst = refl

keys_are-IsFirst : IsFirst (quoted (codes "keys")) opening
unfolding text_program
keys_are-IsFirst = refl

one-IsSpace : All IsSpace (codes " ")
unfolding text_program
one-IsSpace = (refl, tt)

extract_json_string-escape_all_example :
    extract_json_string
      (some (
        opening
        ++ (quoted (codes "role")
            ++ b':' ∷ (codes " " ++ quote ∷ (escape_all (codes "a\n") ++ quote ∷ codes "}")))))
      (codes "role")
      3
    ≡ done (codes "a\n")
extract_json_string-escape_all_example =
    extract_json_string-escape_all opening (codes "role") (codes " ") (codes "a\n") (codes "}") 3
      role-IsFirst (refl, (refl, (refl, (refl, tt)))) (omega arith) one-IsSpace (refl, (refl, tt))
      (omega arith)

abbrev generous : Grants
generous = record { string = λ n. true; array = λ n. true }

generous-IsGranting : IsGranting generous
generous-IsGranting = record { string = λ n. refl; array = λ n. refl }

abbrev values : List Bytes
values = codes "a" ∷ codes "b\n" ∷ []

extract_json_string_array-array_text_example :
    extract_json_string_array generous
      (some
        (opening ++ (quoted (codes "keys") ++ b':' ∷ (codes " " ++ array_text values (codes "}")))))
      (codes "keys")
    ≡ done values
extract_json_string_array-array_text_example =
    extract_json_string_array-array_text generous opening (codes "keys") (codes " ") values
      (codes "}") generous-IsGranting keys_are-IsFirst (refl, (refl, (refl, (refl, tt))))
      (omega arith) one-IsSpace ((refl, tt), ((refl, (refl, tt)), tt)) (omega arith)
