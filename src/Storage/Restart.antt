-- ===== src/Storage/Restart.antt =====
-- The replay of a journal file that holds recorded changes (internal/storage/storage.c).
use mp_cache.Prelude.{
  ℕ, zero, suc, ◌-◌, ◌^◌, ◌≤◌, ◌<◌, ◌≡◌, ◌∙◌, refl, ap, Bool, true, false, Bool-cases, inl, inr,
  Bytes, some, List, [], ◌∷◌, ◌++◌, length, length-append, arith,
}
use mp_cache.Prelude.Int.{ℤ}
use mp_cache.Storage.Buffer.{Buffer, empty_buffer}
use mp_cache.Storage.Records.{State, Memory}
use mp_cache.Storage.Journal.{Change, change_payload, apply_journal_payload}
use mp_cache.Storage.Replay.{perform, IsRecordable, apply_journal_payload-change_payload}
use mp_cache.Storage.Packet.{StorageKey, opened, journal_magic, build_packet, read_packet_stream}
use mp_cache.Storage.Sealed.{
  build_packet-some, build_packet-length, read_packet_stream-build_packet,
}
use mp_cache.Storage.Load.{LoadMemory, replay_journal}

-- Changes performed one after the other, up to the first failure; the memory goes by a count down.
unfoldable pub perform_all : ℕ → (ℕ → Memory) → List Change → State → ℤ → Bool × State
perform_all n memory [] state now = (true, state)
perform_all n memory (c ∷ cs) state now =
    let applied = perform (memory n) state now c in
    elim applied.0 [
      | true ↦ perform_all (n - 1) memory cs applied.1 now
      | false ↦ (false, applied.1)
    ]

-- A journal file that holds one packet for each change, in their order.
pub data Journal (storage : StorageKey) : List Change → Bytes → Type 0 where
  empty : Journal storage [] []
  next :
      (grants packet_grants : ℕ → Bool) (recorded : ℤ) (change : Change) (payload packet : Buffer)
      (nonce mac : Bytes) (cs : List Change) (rest : Bytes)
      → IsRecordable change
      → change_payload grants recorded change ≡ some payload
      → length nonce ≡ 16
      → build_packet packet_grants
          (some nonce)
          true
          storage
          journal_magic
          payload.bytes
          empty_buffer
        ≡ some (packet, mac)
      → Journal storage cs rest
      → Journal storage (change ∷ cs) (packet.bytes ++ rest)

module _ (memory : LoadMemory) (granted : memory.grants ≡ (λ n. true)) (storage : StorageKey)
    (narrow : storage.max_packet_bytes < 2 ^ 32) where
  -- What the loop does after one record.
  abbrev carry_on : ℕ → Bytes → ℤ → Bool × State → Bool × State
  carry_on fuel rest now r = elim r.0 [
    | true ↦ replay_journal fuel memory storage rest r.1 now
    | false ↦ (false, r.1)
  ]

  replay_step :
      (fuel : ℕ) (c : Change) (payload packet rest : Bytes) (mac : Bytes) (state : State) (now : ℤ)
      → read_packet_stream (λ n. true) true storage journal_magic (packet ++ rest)
        ≡ opened payload mac rest
      → apply_journal_payload (memory.journal fuel) payload state now
        ≡ perform (memory.journal fuel) state now c
      → replay_journal (suc fuel) memory storage (packet ++ rest) state now
        ≡ carry_on fuel rest now (perform (memory.journal fuel) state now c)
  unfolding replay_journal
  replay_step fuel c payload packet rest mac state now read applied =
      let opening : replay_journal (suc fuel) memory storage (packet ++ rest) state now
          ≡ carry_on fuel rest now (apply_journal_payload (memory.journal fuel) payload state now) =
        rw (replay_journal, granted, read) refl in
      opening ∙ ap (carry_on fuel rest now) applied

  -- Where the reader has memory and packets are under 2^32 bytes, fuel above the length of the file
  -- is enough for its packets, each of which is replayed as its change.
  pub replay_journal-Journal :
      (fuel : ℕ) (cs : List Change) (file : Bytes) (state : State) (now : ℤ)
      → Journal storage cs file
      → length file ≤ fuel
      → replay_journal (suc fuel) memory storage file state now
        ≡ perform_all fuel memory.journal cs state now
  unfolding replay_journal perform_all read_packet_stream
  replay_journal-Journal fuel _ _ state now empty h = refl
  replay_journal-Journal zero _ _ state now
        (next grants packet_grants recorded change payload packet nonce mac cs rest recordable built
          nonce_length sealed journal)
        h =
      let sized =
        build_packet-some storage journal_magic nonce payload.bytes packet_grants true packet mac
          sealed in
      let long =
        build_packet-length storage journal_magic nonce payload.bytes refl nonce_length
          (omega (arith, sized.0, narrow)) packet_grants true packet mac sealed in
      absurd (omega (arith, length-append packet.bytes rest, h, long))
  replay_journal-Journal (suc fuel) _ _ state now
        (next grants packet_grants recorded change payload packet nonce mac cs rest recordable built
          nonce_length sealed journal)
        h =
      let sized =
        build_packet-some storage journal_magic nonce payload.bytes packet_grants true packet mac
          sealed in
      let small : length payload.bytes < 2 ^ 32 = omega (arith, sized.0, narrow) in
      let long =
        build_packet-length storage journal_magic nonce payload.bytes refl nonce_length small
          packet_grants true packet mac sealed in
      let read =
        read_packet_stream-build_packet storage journal_magic nonce payload.bytes refl nonce_length
          small packet_grants true packet mac rest sealed in
      let applied =
        apply_journal_payload-change_payload grants (memory.journal (suc fuel)) state recorded now
          change payload recordable built in
      let step =
        replay_step (suc fuel) change payload.bytes packet.bytes rest mac state now read applied in
      let shorter : length rest ≤ fuel = omega (arith, length-append packet.bytes rest, h, long) in
      let after : State = (perform (memory.journal (suc fuel)) state now change).1 in
      let others = replay_journal-Journal fuel cs rest after now journal shorter in
      let down : suc fuel - 1 ≡ fuel = omega arith in
      elim (Bool-cases (perform (memory.journal (suc fuel)) state now change).0) [
        | inl done ↦ step ∙ rw (done, perform_all, down) others
        | inr refused ↦ step ∙ rw (refused, perform_all) refl
      ]
