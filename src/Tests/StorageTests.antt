-- ===== src/Tests/StorageTests.antt =====
-- Journal records and packets on a small store (tests/unit/storage_tests.c).
use mp_cache.Prelude.{
  ◌≡◌, refl, true, false, Bytes, codes, Option, none, some, List, [], ◌∷◌, ◌++◌, flatten, replicate,
  arith, length-replicate, get_or, take, drop, length,
}
use mp_cache.Prelude.Int.{pos}
use mp_cache.Cache.Entry.{Entry}
use mp_cache.Cache.Store.{zeroed, init}
use mp_cache.Crypto.Transform.{transform}
use mp_cache.Crypto.Sha256.{
  sha256, update_loop, sha256_update, sha256_final, hmac_sha256, normalized_key,
}
use mp_cache.Crypto.Stream.{stream_xor, stream_loop, keystream_block, xor_bytes}
use mp_cache.Storage.Buffer.{Buffer, empty_buffer, grow, reserve, append, append_all}
use mp_cache.Storage.Records.{State, Memory, entry_parts, client_parts}
use mp_cache.Storage.Journal.{
  set, op_parts, build_journal_payload, change_payload, apply_journal_payload,
}
use mp_cache.Storage.Replay.{
  perform, apply_journal_payload-change_payload, apply_journal_payload-expired,
}
use mp_cache.Storage.Packet.{StorageKey, opened, journal_magic, build_packet, read_packet_stream}
use mp_cache.Security.Records.{client_id_is_valid, all_id_characters, is_id_character}
use mp_cache.Storage.Contents.{serialize_state, serialize_clients, serialize_active}
use mp_cache.Storage.Load.{checkpoint}
use mp_cache.Cache.Sweep.{live_of}
use mp_cache.Cache.Walk.{for_each, walk_buckets, walk_chain}
use mp_cache.Storage.Sealed.{read_packet_stream-build_packet}

unfoldable pub storage_program : Unit {0}
unfolding get_or take drop replicate flatten transform sha256 update_loop sha256_update sha256_final
    hmac_sha256 normalized_key stream_xor stream_loop keystream_block xor_bytes grow reserve append
    append_all entry_parts client_parts op_parts build_journal_payload change_payload build_packet
    live_of for_each walk_buckets walk_chain serialize_active serialize_clients serialize_state
    checkpoint init client_id_is_valid all_id_characters is_id_character
storage_program = tt

abbrev pub state : State
state = record {
  store =
      (init true
        (record {
          bucket_count = 2;
          memory_limit_bytes = 1000;
          max_key_bytes = 8;
          max_value_bytes = 16;
        })
        zeroed).1;
  security = record {
    records = [];
    capacity = 0;
    bootstrap_admin_hash = replicate 32 0;
    bootstrap_admin_loaded = false;
  };
}

abbrev pub memory : Memory
memory = record {
  allocations = record { key_copy = true; value_copy = true; node = true };
  reallocated = true;
}

abbrev pub entry : Entry
entry = record { key = codes "a"; value = codes "one"; expires_at_utc_seconds = pos 100 }

abbrev pub buffer_of : Option Buffer → Buffer
buffer_of none = empty_buffer
buffer_of (some buffer) = buffer

abbrev pub recorded : Buffer
recorded = buffer_of (change_payload (λ n. true) (pos 50) (set entry))

pub built_once : change_payload (λ n. true) (pos 50) (set entry) ≡ some recorded
unfolding storage_program
built_once = refl

apply_journal_payload-change_payload_example :
    apply_journal_payload memory recorded.bytes state (pos 60)
    ≡ perform memory state (pos 60) (set entry)
apply_journal_payload-change_payload_example =
    apply_journal_payload-change_payload (λ n. true) memory state (pos 50) (pos 60) (set entry)
      recorded (omega arith) built_once

apply_journal_payload-expired_example :
    apply_journal_payload memory recorded.bytes state (pos 100) ≡ (true, state)
apply_journal_payload-expired_example =
    apply_journal_payload-expired (λ n. true) memory state (pos 50) (pos 100) entry recorded
      (omega arith) built_once refl

abbrev key_of_storage : StorageKey
key_of_storage = record { storage_key = codes "secret"; max_packet_bytes = 100 }

abbrev pub nonce : Bytes
nonce = replicate 16 7

pub nonce_width : length nonce ≡ 16
nonce_width = length-replicate 16 7

abbrev sealed : Option (Buffer × Bytes)
sealed =
    build_packet (λ n. true) (some nonce) true key_of_storage journal_magic (codes "payload")
      empty_buffer

abbrev pub packet_of : Option (Buffer × Bytes) → Buffer × Bytes
packet_of none = (empty_buffer, [])
packet_of (some packet) = packet

built_packet : sealed ≡ some (packet_of sealed)
unfolding storage_program
built_packet = refl

read_packet_stream-build_packet_example :
    read_packet_stream
      (λ n. true)
      true
      key_of_storage
      journal_magic
      ((packet_of sealed).0.bytes ++ codes "next")
    ≡ opened (codes "payload") (packet_of sealed).1 (codes "next")
read_packet_stream-build_packet_example =
    read_packet_stream-build_packet key_of_storage journal_magic nonce (codes "payload") refl
      (length-replicate 16 7) (omega arith) (λ n. true) true (packet_of sealed).0
      (packet_of sealed).1 (codes "next") built_packet

abbrev parts : List Bytes
parts = codes "ab" ∷ codes "cde" ∷ []

abbrev appended : Buffer
appended = buffer_of (append (λ n. true) empty_buffer (codes "abc"))

grown_once : append (λ n. true) empty_buffer (codes "abc") ≡ some appended
unfolding storage_program
grown_once = refl
