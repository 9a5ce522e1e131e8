-- ===== src/Storage/Packet.antt =====
-- The packet that encloses a payload: a header of 64 bytes and the encrypted payload
-- (internal/storage/storage.c). A file is the list of its bytes that are not read yet.
use mp_cache.Prelude.{
  ℕ, ◌*◌, ◌^◌, Bool, not, ◌||◌, Bytes, codes, Option, none, some, [], ◌∷◌, ◌++◌, length, ltb, ◌==◌,
  take, drop, get_or, if◌then◌else◌, bit_or, mem_equal,
}
use mp_cache.Crypto.Sha256.{hmac_sha256}
use mp_cache.Crypto.Stream.{constant_time_equals, stream_xor}
use mp_cache.Security.Tokens.{token_hash_size}
use mp_cache.Storage.Buffer.{◌>>=◌, Buffer, empty_buffer, append_all, u32_bytes}

-- The fields of `mp_cache_storage_t` that the packets depend on.
pub record StorageKey : Type 0 where
  pub storage_key : Bytes
  pub max_packet_bytes : ℕ

abbrev pub packet_header_size : ℕ
packet_header_size = 64

abbrev pub header_mac_offset : ℕ
header_mac_offset = 32

abbrev pub state_magic : Bytes
state_magic = codes "MPCSTAT1"

-- Seven characters and the closing NUL.
abbrev pub journal_magic : Bytes
journal_magic = codes "MPCJNL1" ++ 0 ∷ []

abbrev pub export_magic : Bytes
export_magic = codes "MPCEXPT1"

-- The first 32 bytes of the header: magic, version, payload length and nonce.
abbrev pub header_start : Bytes → ℕ → Bytes → Bytes
header_start magic payload_length nonce =
    take 8 magic ++ 0 ∷ 0 ∷ 0 ∷ 1 ∷ (u32_bytes payload_length ++ nonce)

-- `mp_cache_storage_build_packet`: the packet buffer and the MAC. `random` is the nonce of
-- `mp_cache_random_bytes`, `allocated` the `malloc` of the ciphertext.
unfoldable pub build_packet :
    (ℕ → Bool) → Option Bytes → Bool → StorageKey → Bytes → Bytes → Buffer → Option (Buffer × Bytes)
build_packet grants random allocated storage magic payload out_packet =
    if ltb storage.max_packet_bytes (length payload) then none else do
      nonce ← random
      (if not allocated then none else do
        mac_input ← append_all grants empty_buffer (
            header_start magic (length payload) nonce
            ∷ stream_xor storage.storage_key nonce payload
            ∷ [])
        (let mac = hmac_sha256 storage.storage_key mac_input.bytes in
            do
              packet ← append_all grants out_packet (
                  (header_start magic (length payload) nonce ++ mac)
                  ∷ stream_xor storage.storage_key nonce payload
                  ∷ [])
              some (packet, mac)))

-- The three results of `mp_cache_storage_read_packet_stream`: 1 at the end of the file, -1, or the
-- payload with its MAC and the rest of the file.
pub data Packet : Type 0 where
  end_of_file : Packet
  invalid : Packet
  opened : Bytes → Bytes → Bytes → Packet

-- The length field of a header.
abbrev pub payload_length_of : Bytes → ℕ
payload_length_of header =
    bit_or
      (bit_or (bit_or (get_or header 12 0 * 2 ^ 24) (get_or header 13 0 * 2 ^ 16))
        (get_or header 14 0 * 2 ^ 8))
      (get_or header 15 0)

-- The checks and the decryption that follow the two reads.
unfoldable pub open_packet : (ℕ → Bool) → StorageKey → Bytes → Bytes → Bytes → Packet
open_packet grants storage header ciphertext rest =
    elim (append_all grants empty_buffer (take header_mac_offset header ∷ ciphertext ∷ [])) [
      | none ↦ invalid
      | some mac_input ↦
          if not (
            constant_time_equals (some (hmac_sha256 storage.storage_key mac_input.bytes))
              (some (drop header_mac_offset header)) token_hash_size)
          then invalid
          else opened (stream_xor storage.storage_key (take 16 (drop 16 header)) ciphertext)
              (drop header_mac_offset header) rest
    ]

-- The reads from a file that has not ended.
unfoldable pub read_packet : (ℕ → Bool) → Bool → StorageKey → Bytes → Bytes → Packet
unfolding get_or
read_packet grants allocated storage magic file =
    let header = take packet_header_size file in
    let body = drop packet_header_size file in
    let payload_length = payload_length_of header in
    if ltb (length file) packet_header_size
    then invalid
    else if not (mem_equal 8 header magic) || not (get_or header 11 0 == 1)
    then invalid
    else if ltb storage.max_packet_bytes payload_length
    then invalid
    else if not allocated
    then invalid
    else if ltb (length body) payload_length
    then invalid
    else open_packet grants storage header (take payload_length body) (drop payload_length body)

-- `mp_cache_storage_read_packet_stream` on a file without I/O errors.
unfoldable pub read_packet_stream : (ℕ → Bool) → Bool → StorageKey → Bytes → Bytes → Packet
read_packet_stream grants allocated storage magic [] = end_of_file
read_packet_stream grants allocated storage magic (b ∷ file) =
    read_packet grants allocated storage magic (b ∷ file)

-- `mp_cache_storage_read_packet_file`: the packet is the whole file; `none` is a file that does not
-- exist, which gives 1.
unfoldable pub read_packet_file : (ℕ → Bool) → Bool → StorageKey → Bytes → Option Bytes → Packet
read_packet_file grants allocated storage magic none = end_of_file
read_packet_file grants allocated storage magic (some file) =
    elim (read_packet_stream grants allocated storage magic file) [
      | end_of_file ↦ end_of_file
      | invalid ↦ invalid
      | opened payload mac [] ↦ opened payload mac []
      | opened payload mac (b ∷ rest) ↦ invalid
    ]
