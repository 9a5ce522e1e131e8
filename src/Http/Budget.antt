-- ===== src/Http/Budget.antt =====
-- How many requests of one subject the rate limiter lets through in a span of time, and when it
-- lets a subject in again (internal/httpserver/http_server.c).
use mp_cache.Prelude.{
  ℕ, ◌+◌, ◌-◌, ◌*◌, ◌≤◌, ◌<◌, ◌≡◌, ◌∙◌, refl, Bool, true, false, ◌&&◌, Bool-cases, inl, inr, Bytes,
  Option, none, some, List, [], ◌∷◌, str_equal, eq_of_str_equal, All, if◌then◌else◌, Option-cases,
  arith,
}
use mp_cache.Prelude.Int.{ℤ, pos, leb_ℤ, ◌-ℤ◌, -ℤ_parts}
use mp_cache.Text.Number.{word32}
use mp_cache.Http.Server.{
  Config, RateLimitEntry, RateLimiter, find_entry, renewed, count_request, fresh_entry,
  rate_limit_allow,
}
use mp_cache.Http.Limits.{
  Ask, granted_to, IsShort, serve, served, has_room, rate_limit_allow-served,
}

-- The times from `first` on, for as long as the window of the limiter.
abbrev pub Within : Config → ℤ → ℤ → Type 0
Within config first now =
    (leb_ℤ first now ≡ true) × (leb_ℤ (pos config.rate_limit_window_seconds) (now -ℤ first) ≡ false)

-- What an entry has left until the end of the span: its window can be renewed once if it started
-- before.
unfoldable left : Config → ℤ → Option RateLimitEntry → ℕ
left config first none = config.rate_limit_requests
left config first (some e) =
    (config.rate_limit_requests - e.request_count)
    + (if leb_ℤ first e.window_started_at then 0 else config.rate_limit_requests)

-- The configured number, twice where there is an entry.
abbrev pub allowance : ℕ → Option RateLimitEntry → ℕ
allowance requests none = requests
allowance requests (some e) = 2 * requests

count_request-left :
    (config : Config) (first now : ℤ) (e : RateLimitEntry)
    → config.rate_limit_requests < word32
    → Within config first now
    → (if (count_request config now e).0 then 1 else 0)
        + left config first (some (count_request config now e).1)
      ≤ left config first (some e)
unfolding count_request renewed left
count_request-left config first now e fits within =
    ground (arith, -ℤ_parts now first, -ℤ_parts now e.window_started_at)

fresh_entry-left :
    (config : Config) (first now : ℤ) (subject : Bytes)
    → Within config first now
    → left config first (some (fresh_entry subject now)) ≤ left config first none
unfolding left
fresh_entry-left config first now subject within = ground arith

serve-left :
    (room : Bool) (config : Config) (subject : Bytes) (first now : ℤ) (o : Option RateLimitEntry)
    → config.rate_limit_requests < word32
    → Within config first now
    → (if (serve room config subject now o).0 then 1 else 0)
        + left config first (serve room config subject now o).1
      ≤ left config first o
unfolding serve
serve-left room config subject first now (some e) fits within =
    count_request-left config first now e fits within
serve-left true config subject first now none fits within = omega (
  arith,
  count_request-left config first now (fresh_entry subject now) fits within,
  fresh_entry-left config first now subject within,
)
serve-left false config subject first now none fits within = omega arith

module _ (config : Config) (q : Bytes) (first : ℤ)
    (fits : config.rate_limit_requests < word32) where
  abbrev pub IsAsk : Ask → Type 0
  IsAsk a = IsShort a.subject × Within config first a.now

  -- One call takes from what its own subject has left.
  call-left :
      (limiter : RateLimiter) (a : Ask)
      → IsAsk a
      → (if (rate_limit_allow a.reallocated config limiter a.subject a.now).0
              && str_equal a.subject q
            then 1
            else 0)
          + left config first (
              find_entry q
                (rate_limit_allow a.reallocated config limiter a.subject a.now).1.entries)
        ≤ left config first (find_entry q limiter.entries)
  call-left limiter a h =
      let (answer, entry) =
        rate_limit_allow-served a.reallocated config limiter a.subject a.now q h.0 in
      elim (Bool-cases (str_equal a.subject q)) [
        | inr other ↦
            rw (answer, entry, other)
              (elim (Bool-cases (served a.reallocated config limiter a.subject a.now).0) [
                | inl e ↦ rw e (omega arith)
                | inr e ↦ rw e (omega arith)
              ])
        | inl own ↦
            let same = eq_of_str_equal a.subject q own in
            let step =
              serve-left (has_room a.reallocated config limiter a.subject a.now) config a.subject
                first a.now (find_entry a.subject limiter.entries) fits h.1 in
            rw (answer, entry, own) (ground (arith, step, same))
      ]

  granted_to-left :
      (limiter : RateLimiter) (asks : List Ask)
      → All IsAsk asks
      → granted_to config q limiter asks ≤ left config first (find_entry q limiter.entries)
  unfolding granted_to
  granted_to-left limiter [] h = omega arith
  granted_to-left limiter (a ∷ asks) h = omega (
    arith,
    call-left limiter a h.0,
    granted_to-left (rate_limit_allow a.reallocated config limiter a.subject a.now).1 asks h.1,
  )

  -- In a span of time that is shorter than the window, whatever other subjects ask and whichever
  -- allocations fail, a subject is let through at most the configured number of times, or twice
  -- that number where it had an entry before.
  pub granted_to_bound :
      (limiter : RateLimiter) (asks : List Ask)
      → All IsAsk asks
      → granted_to config q limiter asks
        ≤ allowance config.rate_limit_requests (find_entry q limiter.entries)
  unfolding left
  granted_to_bound limiter asks h =
      let bound = granted_to-left limiter asks h in
      elim (Option-cases (find_entry q limiter.entries)) [
        | inl absent ↦ ground (arith, bound, absent)
        | inr (e, found) ↦ ground (arith, bound, found)
      ]

-- The limiter after a sequence of calls.
unfoldable pub ask_all : Config → RateLimiter → List Ask → RateLimiter
ask_all config limiter [] = limiter
ask_all config limiter (a ∷ asks) =
    ask_all config (rate_limit_allow a.reallocated config limiter a.subject a.now).1 asks

abbrev pub IsOther : Bytes → Ask → Type 0
IsOther q a = IsShort a.subject × (str_equal a.subject q ≡ false)

find_entry-ask_all :
    (config : Config) (q : Bytes) (limiter : RateLimiter) (asks : List Ask)
    → All (IsOther q) asks
    → find_entry q (ask_all config limiter asks).entries ≡ find_entry q limiter.entries
unfolding ask_all
find_entry-ask_all config q limiter [] h = refl
find_entry-ask_all config q limiter (a ∷ asks) h =
    let (answer, entry) =
      rate_limit_allow-served a.reallocated config limiter a.subject a.now q h.0.0 in
    find_entry-ask_all config q (rate_limit_allow a.reallocated config limiter a.subject a.now).1
      asks h.1
    ∙ entry
    ∙ rw h.0.1

count_request-renewed :
    (config : Config) (now : ℤ) (e : RateLimitEntry)
    → 0 < config.rate_limit_requests
    → leb_ℤ (pos config.rate_limit_window_seconds) (now -ℤ e.window_started_at) ≡ true
    → (count_request config now e).0 ≡ true
unfolding count_request renewed
count_request-renewed config now e h over = ground arith

-- Once the window of a subject is over, its next request is let through, whatever other subjects
-- ask before it and whichever allocations fail, where the configured number is positive.
pub rate_limit_allow-again :
    (config : Config) (q : Bytes) (limiter : RateLimiter) (e : RateLimitEntry) (asks : List Ask)
    (reallocated : Bool) (now : ℤ)
    → IsShort q
    → 0 < config.rate_limit_requests
    → find_entry q limiter.entries ≡ some e
    → All (IsOther q) asks
    → leb_ℤ (pos config.rate_limit_window_seconds) (now -ℤ e.window_started_at) ≡ true
    → (rate_limit_allow reallocated config (ask_all config limiter asks) q now).0 ≡ true
unfolding serve
rate_limit_allow-again config q limiter e asks reallocated now short positive found others over =
    (rate_limit_allow-served reallocated config (ask_all config limiter asks) q now q short).0
    ∙ rw (find_entry-ask_all config q limiter asks others, found)
        (count_request-renewed config now e positive over)
