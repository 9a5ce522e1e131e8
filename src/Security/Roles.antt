-- ===== src/Security/Roles.antt =====
-- Roles, their order and their names (internal/security/security.c).
use mp_cache.Prelude.{
  ℕ, zero, suc, ◌≡◌, ◌↔◌, refl, Bool, true, false, Bytes, codes, Option, none, some, str_equal,
  eq_of_str_equal, leb, if◌then◌else◌, arith,
}

-- An enumerator, or another value that was read from a file.
pub data Role : Type 0 where
  role_none client operator admin : Role
  other : ℕ → Role

-- The value of the enumerator.
abbrev pub rank : Role → ℕ
rank role_none = 0
rank client = 1
rank operator = 2
rank admin = 3
rank (other n) = n

-- `(mp_cache_role_t)role_value`.
unfoldable pub role_of_value : ℕ → Role
role_of_value zero = role_none
role_of_value (suc zero) = client
role_of_value (suc (suc zero)) = operator
role_of_value (suc (suc (suc zero))) = admin
role_of_value n = other n

-- One of the four enumerators.
abbrev pub is_enumerator : Role → Bool
is_enumerator (other n) = false
is_enumerator _ = true

pub role_of_value-rank :
    (role : Role) → is_enumerator role ≡ true → role_of_value (rank role) ≡ role
unfolding role_of_value
role_of_value-rank role_none h = refl
role_of_value-rank client h = refl
role_of_value-rank operator h = refl
role_of_value-rank admin h = refl
role_of_value-rank (other n) h = cc

unfoldable pub role_allows : Role → Role → Bool
role_allows actual_role required_role = leb (rank required_role) (rank actual_role)

abbrev pub is_role_none : Role → Bool
is_role_none role_none = true
is_role_none _ = false

abbrev client_name : Bytes
client_name = codes "client"

abbrev operator_name : Bytes
operator_name = codes "operator"

abbrev admin_name : Bytes
admin_name = codes "admin"

unfoldable pub role_name : Role → Bytes
role_name client = client_name
role_name operator = operator_name
role_name admin = admin_name
role_name _ = codes "none"

-- `none` is NULL.
unfoldable pub role_from_string : Option Bytes → Role
role_from_string none = role_none
role_from_string (some role_text) =
    if str_equal role_text client_name
    then client
    else if str_equal role_text operator_name
    then operator
    else if str_equal role_text admin_name
    then admin
    else role_none

-- An enumerator other than none is parsed from its own name and from no other text.
pub role_from_string_iff :
    (role : Role) (role_text : Bytes)
    → is_role_none role ≡ false
    → is_enumerator role ≡ true
    → (role_from_string (some role_text) ≡ role) ↔ (role_text ≡ role_name role)
unfolding role_from_string role_name str_equal
role_from_string_iff role_none role_text known named = cc
role_from_string_iff client role_text known named =
    (λ e. ground (arith, eq_of_str_equal role_text client_name), λ e. rw e refl)
role_from_string_iff operator role_text known named =
    (λ e. ground (arith, eq_of_str_equal role_text operator_name), λ e. rw e refl)
role_from_string_iff admin role_text known named =
    (λ e. ground (arith, eq_of_str_equal role_text admin_name), λ e. rw e refl)
role_from_string_iff (other n) role_text known named = cc
