-- ===== src/Http/Limits.antt =====
-- What the rate limiter lets through (internal/httpserver/http_server.c).
use mp_cache.Prelude.{
  ℕ, ◌+◌, ◌<◌, ◌≡◌, ◌∙◌, refl, Bool, false, not, ◌&&◌, Bool-cases, inl, inr, Bytes, Option, none,
  some, List, [], ◌∷◌, ◌++◌, length, ◌==◌, str_equal, str_equal_refl, eq_of_str_equal,
  if◌then◌else◌, Option-cases, arith,
}
use mp_cache.Prelude.Int.{ℤ}
use mp_cache.Text.Found.{truncated-short}
use mp_cache.Http.Server.{
  Config, RateLimitEntry, RateLimiter, find_entry, write_entry, renewed, count_request, fresh_entry,
  rate_limit_allow,
}

-- One call of the limiter.
pub record Ask : Type 0 where
  pub reallocated : Bool
  pub subject : Bytes
  pub now : ℤ

-- How many requests of a subject a sequence of calls lets through.
unfoldable pub granted_to : Config → Bytes → RateLimiter → List Ask → ℕ
granted_to config subject limiter [] = 0
granted_to config subject limiter (a ∷ asks) =
    let (allowed, next) = rate_limit_allow a.reallocated config limiter a.subject a.now in
    (if allowed && str_equal a.subject subject then 1 else 0) + granted_to config subject next asks

-- A client ID fits the array of an entry.
abbrev pub IsShort : Bytes → Type 0
IsShort subject = length subject < 64

fresh_entry-subject :
    (subject : Bytes) (now : ℤ) → IsShort subject → (fresh_entry subject now).subject ≡ subject
fresh_entry-subject subject now h = truncated-short 64 subject h

count_request-subject :
    (config : Config) (now : ℤ) (e : RateLimitEntry)
    → (count_request config now e).1.subject ≡ e.subject
unfolding count_request renewed
count_request-subject config now e = ground arith

find_entry-append :
    (q : Bytes) (entries : List RateLimitEntry) (added : RateLimitEntry)
    → find_entry q (entries ++ added ∷ []) ≡ elim (find_entry q entries) [
      | some e ↦ some e
      | none ↦ if str_equal added.subject q then some added else none
    ]
unfolding find_entry
find_entry-append q [] added = refl
find_entry-append q (e ∷ rest) added = ground (arith, find_entry-append q rest added)

find_entry-subject :
    (q : Bytes) (entries : List RateLimitEntry) (e : RateLimitEntry)
    → find_entry q entries ≡ some e
    → e.subject ≡ q
unfolding find_entry
find_entry-subject q [] e h = cc
find_entry-subject q (first ∷ rest) e h =
    ground (arith, eq_of_str_equal first.subject q, find_entry-subject q rest e)

find_entry-write_entry :
    (q subject : Bytes) (entries : List RateLimitEntry) (old next : RateLimitEntry)
    → find_entry subject entries ≡ some old
    → next.subject ≡ subject
    → find_entry q (write_entry subject next entries)
      ≡ (if str_equal subject q then some next else find_entry q entries)
unfolding find_entry write_entry
find_entry-write_entry q subject [] old next found named = cc
find_entry-write_entry q subject (e ∷ rest) old next found named = ground (
  arith,
  named,
  eq_of_str_equal e.subject subject,
  eq_of_str_equal e.subject q,
  eq_of_str_equal subject q,
  str_equal_refl q,
  str_equal_refl subject,
  find_entry-write_entry q subject rest old next,
)

-- What a call does to the entry of its own subject, if any: the answer and the entry.
unfoldable pub serve :
    Bool → Config → Bytes → ℤ → Option RateLimitEntry → Bool × Option RateLimitEntry
serve room config subject now (some e) =
    let counted = count_request config now e in (counted.0, some counted.1)
serve room config subject now none =
    let counted = count_request config now (fresh_entry subject now) in
    if room then (counted.0, some counted.1) else (false, none)

module _ (reallocated : Bool) (config : Config) (limiter : RateLimiter) (subject : Bytes)
    (now : ℤ) where
  abbrev pub has_room : Bool
  has_room = not ((length limiter.entries == limiter.capacity) && not reallocated)

  abbrev pub served : Bool × Option RateLimitEntry
  served = serve has_room config subject now (find_entry subject limiter.entries)

  -- A call answers by the entry of its subject and changes no other entry.
  pub rate_limit_allow-served :
      (q : Bytes)
      → IsShort subject
      → ((rate_limit_allow reallocated config limiter subject now).0 ≡ served.0)
        × (find_entry q (rate_limit_allow reallocated config limiter subject now).1.entries
            ≡ (if str_equal subject q then served.1 else find_entry q limiter.entries))
  unfolding rate_limit_allow serve
  rate_limit_allow-served q short = elim (Option-cases (find_entry subject limiter.entries)) [
    | inr (e, found) ↦
        let named =
          count_request-subject config now e ∙ find_entry-subject subject limiter.entries e found in
        rw (found, rate_limit_allow, serve)
          (refl, find_entry-write_entry q subject limiter.entries e _ found named)
    | inl absent ↦
        elim (Bool-cases ((length limiter.entries == limiter.capacity) && not reallocated)) [
          | inl full ↦
              rw (absent, rate_limit_allow, serve, full)
                (refl, ground (arith, eq_of_str_equal subject q))
          | inr free ↦
              let named =
                count_request-subject config now (fresh_entry subject now)
                ∙ fresh_entry-subject subject now short in
              rw (absent, rate_limit_allow, serve, free)
                (
                  refl,
                  find_entry-append q limiter.entries _
                      ∙ ground (arith, named, absent, eq_of_str_equal subject q),
                )
        ]
  ]
