-- ===== src/Tests/SecurityTests.antt =====
-- The registry with two clients (tests/unit/security_tests.c).
use mp_cache.Prelude.{
  ℕ, ◌≡◌, ◌≢◌, refl, ap, sym, true, false, Bytes, codes, Option, none, some, List, [], ◌∷◌, flatten,
  replicate, All, str_equal, arith, get_or, take, drop, length,
}
use mathlib.Core.Option
use mp_cache.Crypto.Transform.{transform}
use mp_cache.Crypto.Sha256.{sha256, update_loop, sha256_update, sha256_final}
use mp_cache.Crypto.Hex.{hex_encode, hex_char}
use mp_cache.Crypto.Stream.{constant_time_equals}
use mp_cache.Security.Roles.{client, operator, admin}
use mp_cache.Security.Records.{
  client_id_is_valid, all_id_characters, is_id_character, find_record, write_record, without,
}
use mp_cache.Security.Tokens.{Status, ok, unauthorized, conflict, hash_token, issue_token}
use mp_cache.Security.Registry.{
  Security, Host, principal_of, init, ensure_capacity, authenticate, match_record, register_present,
  register_client, rotate_present, rotate_client_token, invalidate_client_token, import_present,
  import_client_hash, find_client,
}
use mp_cache.Security.Invariant.{IsValid, init-IsValid}
use mp_cache.Security.Calls.{Call, IsTyped, run, run_all, run_all-IsValid}
use mp_cache.Security.Access.{removed, invalidate_client_token-removed}
use mp_cache.Security.Grants.{
  rotate_client_token-others, rotate_client_token-own, register_client-own, register_client-others,
}
use mp_cache.Security.Outcomes.{outcome, register_client-outcome}

security_program : Unit {0}
unfolding get_or take drop replicate transform sha256 update_loop sha256_update sha256_final
    hash_token init ensure_capacity issue_token hex_encode hex_char all_id_characters
    is_id_character client_id_is_valid find_record write_record without match_record
    constant_time_equals authenticate register_present register_client rotate_present
    rotate_client_token invalidate_client_token import_present import_client_hash find_client
    str_equal
security_program = tt

abbrev alice : Bytes
alice = codes "alice"

abbrev bob : Bytes
bob = codes "bob"

abbrev host_of : ℕ → Host
host_of byte = record { reallocated = true; random_bytes = some (replicate 32 byte) }

abbrev pub fresh_registry : Security
fresh_registry = (init (some (codes "root"))).1

abbrev with_alice : Status × Option Bytes × Security
with_alice = register_client (host_of 1) fresh_registry (some alice) client (some 65)

abbrev rotated_alice : Status × Option Bytes × Security
rotated_alice = rotate_client_token (host_of 2) with_alice.2 (some alice) (some 65)

-- The text of a token behind its first character.
abbrev token_tail : ℕ → Bytes
token_tail digit = digit ∷ flatten (replicate 31 (48 ∷ digit ∷ []))

with_alice-IsValid : IsValid with_alice.2
unfolding run run_all register_client register_present
with_alice-IsValid =
    run_all-IsValid fresh_registry (Call.register (host_of 1) (some alice) client (some 65) ∷ [])
      (init-IsValid (some (codes "root"))) (tt, tt)

registered : with_alice.0 ≡ ok
unfolding security_program
registered = refl

taken : (register_client (host_of 3) with_alice.2 (some alice) operator (some 65)).0 ≡ conflict
unfolding security_program
taken = refl

root_is_admin : (authenticate fresh_registry (some (codes "root"))).0 ≡ ok
unfolding security_program
root_is_admin = refl

stranger_is_refused : (authenticate with_alice.2 (some (codes "guess"))).0 ≡ unauthorized
unfolding security_program
stranger_is_refused = refl

abbrev calls : List Call
calls =
    Call.register (host_of 1) (some alice) client (some 65)
    ∷ Call.import_hash true (some bob) operator (some (replicate 32 9)) true
    ∷ Call.rotate (host_of 2) (some alice) (some 65)
    ∷ Call.invalidate (some bob)
    ∷ []

calls-IsTyped : All IsTyped calls
unfolding replicate
calls-IsTyped = omega arith

run_all-IsValid_example : IsValid (run_all fresh_registry calls)
run_all-IsValid_example =
    run_all-IsValid fresh_registry calls (init-IsValid (some (codes "root"))) calls-IsTyped

invalidate_ok : (invalidate_client_token with_alice.2 (some alice)).0 ≡ ok
unfolding security_program
invalidate_ok = refl

invalidate_client_token-removed_example :
    authenticate (invalidate_client_token with_alice.2 (some alice)).1 with_alice.1
    ≡ authenticate (removed with_alice.2 alice) with_alice.1
invalidate_client_token-removed_example =
    invalidate_client_token-removed alice with_alice.2 with_alice.1 invalidate_ok

tokens_differ : hash_token (some (48 ∷ token_tail 49)) ≢ hash_token (some (48 ∷ token_tail 50))
unfolding security_program flatten
tokens_differ e =
    let heads : ◌≡◌ {A = ℕ} 88 116 = ap (λ (h : Bytes). get_or h 0 0) e in omega (arith, heads)

register_alice :
    register_client (host_of 1) fresh_registry (some alice) client (some 65)
    ≡ (ok, some (48 ∷ token_tail 49), with_alice.2)
unfolding security_program flatten
register_alice = refl

rotate_alice :
    rotate_client_token (host_of 2) with_alice.2 (some alice) (some 65)
    ≡ (ok, some (48 ∷ token_tail 50), rotated_alice.2)
unfolding security_program flatten
rotate_alice = refl

unknown_before : authenticate fresh_registry (some (48 ∷ token_tail 49)) ≡ (unauthorized, none)
unfolding security_program flatten
unknown_before = refl

unknown_without :
    authenticate (removed with_alice.2 alice) (some (48 ∷ token_tail 50)) ≡ (unauthorized, none)
unfolding security_program flatten
unknown_without = refl

rotate_client_token-others_example :
    authenticate rotated_alice.2 (some (48 ∷ token_tail 49))
    ≡ authenticate (removed with_alice.2 alice) (some (48 ∷ token_tail 49))
rotate_client_token-others_example =
    rotate_client_token-others (host_of 2) with_alice.2 rotated_alice.2 alice (48 ∷ token_tail 50)
      65 48 (token_tail 49) rotate_alice tokens_differ

rotate_client_token-own_example :
    authenticate rotated_alice.2 (some (48 ∷ token_tail 50))
    ≡ (ok, Option.map principal_of (find_client with_alice.2 (some alice)))
rotate_client_token-own_example =
    rotate_client_token-own (host_of 2) with_alice.2 rotated_alice.2 alice 65 48 (token_tail 50)
      rotate_alice unknown_without

register_client-own_example :
    authenticate with_alice.2 (some (48 ∷ token_tail 49))
    ≡ (ok, some (record { role = client; client_id = alice }))
register_client-own_example =
    register_client-own (host_of 1) fresh_registry with_alice.2 alice client 65 48 (token_tail 49)
      register_alice unknown_before

register_client-others_example :
    authenticate with_alice.2 (some (48 ∷ token_tail 50))
    ≡ authenticate fresh_registry (some (48 ∷ token_tail 50))
register_client-others_example =
    register_client-others (host_of 1) fresh_registry with_alice.2 alice (48 ∷ token_tail 49) client
      65 48 (token_tail 50) register_alice (λ e. tokens_differ (sym e))

register_client-outcome_example :
    (register_client (host_of 3) with_alice.2 (some bob) admin (some 65)).0
    ≡ outcome true (find_record bob with_alice.2.records) (length with_alice.2.records)
unfolding security_program
register_client-outcome_example =
    register_client-outcome with_alice.2 (replicate 32 3) bob admin 65 with_alice-IsValid refl
      (omega arith)

import_bob : (import_client_hash true with_alice.2 (some bob) operator none false).0 ≡ ok
unfolding security_program
import_bob = refl
