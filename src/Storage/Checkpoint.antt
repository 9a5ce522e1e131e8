-- ===== src/Storage/Checkpoint.antt =====
-- A state payload that was written is read back as its entries and clients
-- (internal/storage/storage.c).
use mp_cache.Prelude.{
  ℕ, suc, ◌≡◌, ◌∙◌, refl, subst, Bool, true, false, Bool-cases, inl, inr, Bytes, Option, none, some,
  List, [], ◌∷◌, ◌++◌, flatten, append_assoc, length, All,
}
use mp_cache.Prelude.Int.{ℤ}
use mp_cache.Cache.Entry.{Entry}
use mp_cache.Security.Records.{ClientRecord}
use mp_cache.Storage.Reads.{Rest}
use mp_cache.Storage.Records.{
  State, Memory, entry_parts, client_parts, read_entry, read_client, restore_live, restore_client,
}
use mp_cache.Storage.Restored.{
  IsStorable, IsPortable, read_entry-entry_parts, read_client-client_parts,
}
use mp_cache.Storage.Contents.{restore_entries, restore_clients}
use mp_cache.Storage.Written.{entries_bytes, clients_bytes}

-- Entries and clients restored one after the other, up to the first failure.
unfoldable pub load_entries : (ℕ → Memory) → List Entry → State → ℤ → Bool × State
load_entries memory [] state now = (true, state)
load_entries memory (e ∷ rest) state now =
    let restored = restore_live (memory (length rest)) state now e in
    elim restored.0 [ true ↦ load_entries memory rest restored.1 now | false ↦ (false, restored.1) ]

unfoldable pub load_clients : (ℕ → Memory) → List ClientRecord → State → Bool × State
load_clients memory [] state = (true, state)
load_clients memory (r ∷ rest) state =
    let restored = restore_client (memory (length rest)) state r in
    elim restored.0 [ true ↦ load_clients memory rest restored.1 | false ↦ (false, restored.1) ]

-- A reader's result: the offset where the load went through.
abbrev pub reached : ℕ → Bool × State → Option ℕ × State
reached next (true, state) = (some next, state)
reached next (false, state) = (none, state)

restore_entries-step :
    (memory : ℕ → Memory) (n : ℕ) (payload : Bytes) (offset middle : ℕ) (e : Entry) (state : State)
    (now : ℤ)
    → read_entry payload offset ≡ some (e, middle)
    → restore_entries memory (suc n) payload offset state now
      ≡ (elim (restore_live (memory n) state now e).0 [
        | true ↦ restore_entries memory n payload middle (restore_live (memory n) state now e).1 now
        | false ↦ (none, (restore_live (memory n) state now e).1)
      ])
unfolding restore_entries
restore_entries-step memory n payload offset middle e state now read =
    rw (read, restore_entries) refl

restore_clients-step :
    (memory : ℕ → Memory) (n : ℕ) (payload : Bytes) (offset middle : ℕ) (c : ClientRecord)
    (state : State)
    → read_client 2 payload offset ≡ some (c, middle)
    → restore_clients memory 2 (suc n) payload offset state
      ≡ (elim (restore_client (memory n) state c).0 [
        | true ↦ restore_clients memory 2 n payload middle (restore_client (memory n) state c).1
        | false ↦ (none, (restore_client (memory n) state c).1)
      ])
unfolding restore_clients
restore_clients-step memory n payload offset middle c state read = rw (read, restore_clients) refl

pub restore_entries-Rest :
    (memory : ℕ → Memory) (es : List Entry) (payload : Bytes) (offset : ℕ) (rest : Bytes)
    (state : State) (now : ℤ)
    → All IsStorable es
    → Rest payload offset (entries_bytes es ++ rest)
    → (next : ℕ) × Rest payload next rest
      × (restore_entries memory (length es) payload offset state now
          ≡ reached next (load_entries memory es state now))
unfolding restore_entries load_entries entries_bytes
restore_entries-Rest memory [] payload offset rest state now h r = (offset, r, refl)
restore_entries-Rest memory (e ∷ es) payload offset rest state now h r =
    let assoc = append_assoc (flatten (entry_parts e)) (entries_bytes es) rest in
    let (middle, read, left) =
      read_entry-entry_parts payload offset e (entries_bytes es ++ rest) h.0
        (subst (λ (l : Bytes). Rest payload offset l) assoc r) in
    let restored : Bool × State = restore_live (memory (length es)) state now e in
    let (next, behind, same) =
      restore_entries-Rest memory es payload middle rest restored.1 now h.1 left in
    elim (Bool-cases restored.0) [
      | inl done ↦ (
        next,
        behind,
        restore_entries-step memory (length es) payload offset middle e state now read
            ∙ rw (done, load_entries) same,
      )
      | inr refused ↦ (
        next,
        behind,
        restore_entries-step memory (length es) payload offset middle e state now read
            ∙ rw (refused, load_entries) refl,
      )
    ]

pub restore_clients-Rest :
    (memory : ℕ → Memory) (rs : List ClientRecord) (payload : Bytes) (offset : ℕ) (rest : Bytes)
    (state : State)
    → All IsPortable rs
    → Rest payload offset (clients_bytes rs ++ rest)
    → (next : ℕ) × Rest payload next rest
      × (restore_clients memory 2 (length rs) payload offset state
          ≡ reached next (load_clients memory rs state))
unfolding restore_clients load_clients clients_bytes
restore_clients-Rest memory [] payload offset rest state h r = (offset, r, refl)
restore_clients-Rest memory (c ∷ rs) payload offset rest state h r =
    let assoc = append_assoc (flatten (client_parts c)) (clients_bytes rs) rest in
    let (middle, read, left) =
      read_client-client_parts payload offset c (clients_bytes rs ++ rest) h.0
        (subst (λ (l : Bytes). Rest payload offset l) assoc r) in
    let restored : Bool × State = restore_client (memory (length rs)) state c in
    let (next, behind, same) =
      restore_clients-Rest memory rs payload middle rest restored.1 h.1 left in
    elim (Bool-cases restored.0) [
      | inl done ↦ (
        next,
        behind,
        restore_clients-step memory (length rs) payload offset middle c state read
            ∙ rw (done, load_clients) same,
      )
      | inr refused ↦ (
        next,
        behind,
        restore_clients-step memory (length rs) payload offset middle c state read
            ∙ rw (refused, load_clients) refl,
      )
    ]
