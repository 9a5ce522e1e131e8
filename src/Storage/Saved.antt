-- ===== src/Storage/Saved.antt =====
-- What a restart loads after a checkpoint and after recorded changes (internal/storage/storage.c).
use mp_cache.Prelude.{
  ℕ, ◌^◌, ◌<◌, ◌≡◌, ◌∙◌, refl, sym, ap, Bool, true, false, inl, inr, Bytes, some, Option-cases,
  List, [], ◌++◌, append-nil, length, All, arith,
}
use mp_cache.Prelude.Int.{ℤ}
use mp_cache.Cache.Walk.{clear}
use mp_cache.Security.Registry.{clear_clients}
use mp_cache.Storage.Buffer.{Buffer, empty_buffer}
use mp_cache.Storage.Records.{State}
use mp_cache.Storage.Restored.{IsStorable, IsPortable}
use mp_cache.Storage.Journal.{Change}
use mp_cache.Storage.Packet.{
  StorageKey, opened, state_magic, build_packet, read_packet_stream, read_packet_file,
}
use mp_cache.Storage.Sealed.{build_packet-some, read_packet_stream-build_packet}
use mp_cache.Storage.Contents.{serialize_state}
use mp_cache.Storage.Written.{active}
use mp_cache.Storage.Checkpoint.{load_entries}
use mp_cache.Storage.Reload.{then_clients, deserialize_state-serialize_state}
use mp_cache.Storage.Load.{LoadMemory, Files, replay_file, load_checkpoint, load_state, checkpoint}
use mp_cache.Storage.Restart.{perform_all, Journal, replay_journal-Journal}

-- The packet file of a payload opens as the payload.
pub read_packet_file-build_packet :
    (storage : StorageKey) (magic : Bytes) (grants : ℕ → Bool) (allocated : Bool)
    (nonce payload : Bytes) (packet : Buffer) (mac : Bytes)
    → storage.max_packet_bytes < 2 ^ 32
    → length magic ≡ 8
    → length nonce ≡ 16
    → build_packet grants (some nonce) allocated storage magic payload empty_buffer
      ≡ some (packet, mac)
    → read_packet_file (λ n. true) true storage magic (some packet.bytes) ≡ opened payload mac []
unfolding read_packet_file
read_packet_file-build_packet storage magic grants allocated nonce payload packet mac narrow wide
      nonce_length built =
    let sized = build_packet-some storage magic nonce payload grants allocated packet mac built in
    let small : length payload < 2 ^ 32 = omega (arith, sized.0, narrow) in
    let read =
      read_packet_stream-build_packet storage magic nonce payload wide nonce_length small grants
        allocated packet mac [] built in
    let file : packet.bytes ≡ packet.bytes ++ [] = sym (append-nil packet.bytes) in
    let whole : read_packet_stream (λ n. true) true storage magic packet.bytes
        ≡ opened payload mac [] =
      ap (read_packet_stream (λ n. true) true storage magic) file ∙ read in
    rw (whole, read_packet_file) refl

module _ (memory : LoadMemory) (granted : memory.grants ≡ (λ n. true)) (storage : StorageKey)
    (narrow : storage.max_packet_bytes < 2 ^ 32) where
  -- The state that a load starts from.
  abbrev pub blank : State → State
  blank state = record { store = clear state.store; security = clear_clients state.security }

  load_checkpoint-checkpoint :
      (grants : ℕ → Bool) (nonce : Bytes) (saved state : State) (now later : ℤ)
      (files written : Files)
      → length nonce ≡ 16
      → checkpoint grants (some nonce) storage saved now files ≡ some written
      → All IsStorable (active now saved.store)
      → All IsPortable saved.security.records
      → length (active now saved.store) < 2 ^ 32
      → length saved.security.records < 2 ^ 32
      → load_checkpoint memory storage written.checkpoint state later
        ≡ then_clients memory.clients saved.security.records
            (load_entries memory.entries (active now saved.store) (blank state) later)
  unfolding load_checkpoint checkpoint
  load_checkpoint-checkpoint grants nonce saved state now later files written nonce_length done
        storable portable few_entries few_clients =
      elim (Option-cases (serialize_state grants saved now empty_buffer)) [
        | inl full ↦ absurd (ground (arith, done))
        | inr (payload, e1) ↦
            elim (Option-cases (
              build_packet grants (some nonce) true storage state_magic payload.bytes
                empty_buffer)) [
                  | inl full ↦ absurd (ground (arith, done))
                  | inr ((packet, mac), e2) ↦
                      let file : written.checkpoint ≡ some packet.bytes = ground (arith, done) in
                      let read =
                        read_packet_file-build_packet storage state_magic grants true nonce
                          payload.bytes packet mac narrow refl nonce_length e2 in
                      rw (file, load_checkpoint, granted, read)
                        (deserialize_state-serialize_state grants memory.entries memory.clients
                          saved (blank state) now later payload e1 storable portable few_entries
                          few_clients)
                ]
      ]

  -- The changes are performed where the checkpoint went through.
  abbrev pub then_changes : ℕ → List Change → ℤ → Bool × State → Bool × State
  then_changes n cs now (true, state) = perform_all n memory.journal cs state now
  then_changes n cs now (false, state) = (false, state)

  -- A load of a saved state and of a journal of changes restores, into the emptied state, the
  -- entries that were live at the checkpoint and its clients, and then performs the changes in
  -- their order. The buffers are granted, packets are under 2^32 bytes, and the saved state has
  -- lengths, times, IDs and counts that fit the fields.
  pub load_state-checkpoint :
      (grants : ℕ → Bool) (nonce : Bytes) (saved state : State) (now later : ℤ)
      (files written : Files) (cs : List Change) (journal : Bytes)
      → length nonce ≡ 16
      → checkpoint grants (some nonce) storage saved now files ≡ some written
      → Journal storage cs journal
      → All IsStorable (active now saved.store)
      → All IsPortable saved.security.records
      → length (active now saved.store) < 2 ^ 32
      → length saved.security.records < 2 ^ 32
      → load_state memory storage (record written { journal = some journal }) state later
        ≡ then_changes (length journal) cs later (
            then_clients memory.clients saved.security.records
              (load_entries memory.entries (active now saved.store) (blank state) later))
  unfolding load_state replay_file
  load_state-checkpoint grants nonce saved state now later files written cs journal nonce_length
        done recorded storable portable few_entries few_clients =
      ap (λ (loaded : Bool × State). replay_file memory storage (some journal) loaded later)
        (load_checkpoint-checkpoint grants nonce saved state now later files written nonce_length
          done storable portable few_entries few_clients)
      ∙ changes_of _
    where
      changes_of :
          (loaded : Bool × State)
          → replay_file memory storage (some journal) loaded later
            ≡ then_changes (length journal) cs later loaded
      changes_of (true, start) =
          replay_journal-Journal memory granted storage narrow (length journal) cs journal start
            later recorded (omega arith)
      changes_of (false, start) = refl
