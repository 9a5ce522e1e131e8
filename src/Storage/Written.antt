-- ===== src/Storage/Written.antt =====
-- The bytes of a state payload (internal/storage/storage.c).
use mp_cache.Prelude.{
  ℕ, suc, ◌+◌, ◌<◌, ◌≡◌, ◌∙◌, refl, sym, ap, Bool, true, false, Bool-cases, inl, inr, Bytes, some,
  Option-cases, List, [], ◌∷◌, ◌++◌, flatten, append_assoc, append-nil, length, word64, arith,
}
use mp_cache.Prelude.Int.{ℤ, ltb_ℤ}
use mp_cache.Cache.Entry.{Entry}
use mp_cache.Cache.Store.{Store}
use mp_cache.Cache.Walk.{for_each, walk_chain}
use mp_cache.Cache.Visits.{for_each-flatten}
use mp_cache.Cache.Sweep.{live_of}
use mp_cache.Security.Records.{ClientRecord}
use mp_cache.Storage.Buffer.{
  Buffer, append_all, append_all-some, append_all-below, u32_bytes, u64_bytes,
}
use mp_cache.Storage.Records.{of_int64, State, entry_parts, client_parts}
use mp_cache.Storage.Contents.{
  state_version, count_active, serialize_active, serialize_clients, finished, serialize_state,
}

unfoldable pub entries_bytes : List Entry → Bytes
entries_bytes [] = []
entries_bytes (e ∷ rest) = flatten (entry_parts e) ++ entries_bytes rest

unfoldable pub clients_bytes : List ClientRecord → Bytes
clients_bytes [] = []
clients_bytes (r ∷ rest) = flatten (client_parts r) ++ clients_bytes rest

-- The entries of a store that are live at a time, in bucket order.
abbrev pub active : ℤ → Store → List Entry
active now store = live_of now (flatten store.buckets)

count_active-walk :
    (now : ℤ) (c : List Entry) (n : ℕ)
    → walk_chain (count_active now) c n ≡ (true, n + length (live_of now c))
unfolding walk_chain live_of
count_active-walk now [] n = ground arith
count_active-walk now (e ∷ c) n = elim (Bool-cases (ltb_ℤ now e.expires_at_utc_seconds)) [
  | inl live ↦ rw live (count_active-walk now c (suc n) ∙ ap (λ (m : ℕ). (true, m)) (omega arith))
  | inr past ↦ rw past (count_active-walk now c n)
]

serialize_active-walk :
    (grants : ℕ → Bool) (now : ℤ) (c : List Entry) (buffer r : Buffer)
    → length buffer.bytes < word64
    → walk_chain (serialize_active grants now) c buffer ≡ (true, r)
    → (r.bytes ≡ buffer.bytes ++ entries_bytes (live_of now c)) × (length r.bytes < word64)
unfolding walk_chain live_of serialize_active entries_bytes
serialize_active-walk grants now [] buffer r short h =
    let same : buffer ≡ r = ground arith in rw (← same, append-nil) (refl, short)
serialize_active-walk grants now (e ∷ c) buffer r short h =
    elim (Bool-cases (ltb_ℤ now e.expires_at_utc_seconds)) [
      | inr past ↦ rw past (serialize_active-walk grants now c buffer r short (ground (arith, h)))
      | inl live ↦ elim (Option-cases (append_all grants buffer (entry_parts e))) [
        | inl full ↦ absurd (ground (arith, h))
        | inr (next, e1) ↦
            let below = append_all-below grants buffer (entry_parts e) next short e1 in
            let bytes = append_all-some grants buffer (entry_parts e) next short e1 in
            let (rest, kept) =
              serialize_active-walk grants now c next r below (ground (arith, h)) in
            rw live (
              rest
                  ∙ ap (λ (l : Bytes). l ++ entries_bytes (live_of now c)) bytes
                  ∙ append_assoc buffer.bytes (flatten (entry_parts e))
                      (entries_bytes (live_of now c)),
              kept,
            )
      ]
    ]

serialize_clients-some :
    (grants : ℕ → Bool) (records : List ClientRecord) (buffer r : Buffer)
    → length buffer.bytes < word64
    → serialize_clients grants records buffer ≡ some r
    → r.bytes ≡ buffer.bytes ++ clients_bytes records
unfolding serialize_clients clients_bytes
serialize_clients-some grants [] buffer r short h =
    let same : buffer ≡ r = ground arith in rw (← same, append-nil)
serialize_clients-some grants (c ∷ rest) buffer r short h =
    elim (Option-cases (append_all grants buffer (client_parts c))) [
      | inl full ↦ absurd (ground (arith, h))
      | inr (next, e) ↦
          let below = append_all-below grants buffer (client_parts c) next short e in
          let bytes = append_all-some grants buffer (client_parts c) next short e in
          serialize_clients-some grants rest next r below (ground (arith, h))
          ∙ ap (λ (l : Bytes). l ++ clients_bytes rest) bytes
          ∙ append_assoc buffer.bytes (flatten (client_parts c)) (clients_bytes rest)
    ]

finished-some : (p : Bool × Buffer) (b : Buffer) → finished p ≡ some b → p ≡ (true, b)
finished-some (true, context) b h = ground arith
finished-some (false, context) b h = cc

-- The bytes of the two contents with their counts.
abbrev pub state_bytes : ℤ → List Entry → List ClientRecord → Bytes
state_bytes now entries records =
    flatten (u32_bytes state_version ∷ u64_bytes (of_int64 now) ∷ u32_bytes (length entries) ∷ [])
    ++ (entries_bytes entries ++ (u32_bytes (length records) ++ clients_bytes records))

-- A state payload that was built holds the live entries in bucket order, and all the clients.
pub serialize_state-some :
    (grants : ℕ → Bool) (state : State) (now : ℤ) (buffer r : Buffer)
    → buffer.bytes ≡ []
    → serialize_state grants state now buffer ≡ some r
    → r.bytes ≡ state_bytes now (active now state.store) state.security.records
unfolding serialize_state flatten
serialize_state-some grants state now buffer r blank h =
    let entries : List Entry = active now state.store in
    let records : List ClientRecord = state.security.records in
    let counted : for_each state.store (count_active now) 0 ≡ (true, length entries) =
      for_each-flatten state.store (count_active now) 0
      ∙ count_active-walk now (flatten state.store.buckets) 0
      ∙ ap (λ (m : ℕ). (true, m)) (omega arith) in
    let header : List Bytes =
      u32_bytes state_version ∷ u64_bytes (of_int64 now) ∷ u32_bytes (length entries) ∷ [] in
    let count_part : List Bytes = u32_bytes (length records) ∷ [] in
    elim (Option-cases (append_all grants buffer header)) [
      | inl full ↦ absurd (ground (arith, h, counted))
      | inr (headed, e1) ↦
          elim (Option-cases
            (finished (for_each state.store (serialize_active grants now) headed))) [
              | inl full ↦ absurd (ground (arith, h, counted))
              | inr (listed, e2) ↦ elim (Option-cases (append_all grants listed count_part)) [
                | inl full ↦ absurd (ground (arith, h, counted))
                | inr (numbered, e3) ↦
                    let short : length buffer.bytes < word64 = rw blank (omega arith) in
                    let headed_short = append_all-below grants buffer header headed short e1 in
                    let walked =
                      sym (for_each-flatten state.store (serialize_active grants now) headed)
                      ∙ finished-some _ listed e2 in
                    let (entered, listed_short) =
                      serialize_active-walk grants now (flatten state.store.buckets) headed listed
                        headed_short walked in
                    let numbered_short =
                      append_all-below grants listed count_part numbered listed_short e3 in
                    let last =
                      serialize_clients-some grants records numbered r numbered_short
                        (ground (arith, h, counted)) in
                    last
                    ∙ ap (λ (l : Bytes). l ++ clients_bytes records)
                        (append_all-some grants listed count_part numbered listed_short e3)
                    ∙ ap (λ (l : Bytes). (l ++ flatten count_part) ++ clients_bytes records)
                        (entered
                          ∙ ap (λ (l : Bytes). l ++ entries_bytes entries)
                              (append_all-some grants buffer header headed short e1
                                ∙ ap (λ (l : Bytes). l ++ flatten header) blank))
                    ∙ append_assoc (flatten header ++ entries_bytes entries) (flatten count_part)
                        (clients_bytes records)
                    ∙ append_assoc (flatten header) (entries_bytes entries)
                        (flatten count_part ++ clients_bytes records)
              ]
            ]
    ]
