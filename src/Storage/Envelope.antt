-- ===== src/Storage/Envelope.antt =====
-- Reading a packet whose parts are known (internal/storage/storage.c).
use mp_cache.Prelude.{
  ℕ, ◌+◌, ◌≤◌, ◌<◌, ◌≡◌, ◌∙◌, refl, sym, ap, Bool, true, false, Bytes, some, List, [], ◌∷◌, ◌++◌,
  flatten, length, length-append, ltb, take, drop, take-append, drop-append, get_or, mem_equal,
  word64, arith,
}
use mp_cache.Crypto.Sha256.{hmac_sha256}
use mp_cache.Crypto.Digest.{hmac_sha256-IsDigest}
use mp_cache.Crypto.Stream.{constant_time_equals, constant_time_equals_iff, stream_xor}
use mp_cache.Storage.Buffer.{empty_buffer, append_all-granted}
use mp_cache.Storage.Reads.{get_or-append}
use mp_cache.Storage.Packet.{
  StorageKey, opened, payload_length_of, open_packet, read_packet, read_packet_stream,
}

pub take_front : (n : ℕ) (front rest : Bytes) → length front ≡ n → take n (front ++ rest) ≡ front
take_front n front rest h = rw (← h) (take-append front rest)

pub drop_front : (n : ℕ) (front rest : Bytes) → length front ≡ n → drop n (front ++ rest) ≡ rest
drop_front n front rest h = rw (← h) (drop-append front rest)

pub get_or_front :
    (n i : ℕ) (front rest : Bytes)
    → length front ≡ n
    → get_or (front ++ rest) (n + i) 0 ≡ get_or rest i 0
get_or_front n i front rest h = rw (← h) (get_or-append front rest i)

mem_equal_front : (a rest : Bytes) → mem_equal (length a) (a ++ rest) a ≡ true
unfolding mem_equal
mem_equal_front [] rest = refl
mem_equal_front (x ∷ a) rest = ground (arith, mem_equal_front a rest)

pub mem_equal_prefix : (n : ℕ) (a rest : Bytes) → length a ≡ n → mem_equal n (a ++ rest) a ≡ true
mem_equal_prefix n a rest h = rw (← h) (mem_equal_front a rest)

pub stream-nonempty :
    (grants : ℕ → Bool) (allocated : Bool) (storage : StorageKey) (magic file : Bytes)
    → 0 < length file
    → read_packet_stream grants allocated storage magic file
      ≡ read_packet grants allocated storage magic file
unfolding read_packet_stream
stream-nonempty grants allocated storage magic [] h = absurd (omega arith)
stream-nonempty grants allocated storage magic (b ∷ file) h = refl

-- What the MAC is computed over.
abbrev pub mac_parts : Bytes → Bytes → List Bytes
mac_parts start ciphertext = start ∷ ciphertext ∷ []

-- A header that carries the MAC of its start and of the ciphertext opens.
pub open_packet-parts :
    (storage : StorageKey) (header start tag nonce ciphertext rest : Bytes)
    → take 32 header ≡ start
    → drop 32 header ≡ tag
    → take 16 (drop 16 header) ≡ nonce
    → tag ≡ hmac_sha256 storage.storage_key (flatten (mac_parts start ciphertext))
    → length (flatten (mac_parts start ciphertext)) < word64
    → open_packet (λ n. true) storage header ciphertext rest
      ≡ opened (stream_xor storage.storage_key nonce ciphertext) tag rest
unfolding open_packet
open_packet-parts storage header start tag nonce ciphertext rest plain tagged iv authentic total =
    let (mac_input, done, bytes) =
      append_all-granted empty_buffer (mac_parts start ciphertext) total in
    let digest = hmac_sha256-IsDigest storage.storage_key (flatten (mac_parts start ciphertext)) in
    let computed : hmac_sha256 storage.storage_key mac_input.bytes ≡ tag =
      ap (hmac_sha256 storage.storage_key) bytes ∙ sym authentic in
    let equal : constant_time_equals (some tag) (some tag) 32 ≡ true =
      rw authentic ((constant_time_equals_iff 32 _ _ digest.0 digest.0 digest.1 digest.1).1 refl) in
    rw (plain, done, open_packet) (rw (computed, tagged, equal, iv) refl)

-- A file that starts with a header and the bytes that it announces.
pub read_packet-parts :
    (storage : StorageKey) (magic header ciphertext rest : Bytes)
    → length header ≡ 64
    → mem_equal 8 header magic ≡ true
    → get_or header 11 0 ≡ 1
    → payload_length_of header ≡ length ciphertext
    → length ciphertext ≤ storage.max_packet_bytes
    → read_packet (λ n. true) true storage magic (header ++ (ciphertext ++ rest))
      ≡ open_packet (λ n. true) storage header ciphertext rest
unfolding read_packet get_or
read_packet-parts storage magic header ciphertext rest wide matches version announced fits =
    let body : Bytes = ciphertext ++ rest in
    let whole : ltb (length (header ++ body)) 64 ≡ false =
      ground (arith, length-append header body, wide) in
    let allowed : ltb storage.max_packet_bytes (length ciphertext) ≡ false = ground arith in
    let complete : ltb (length body) (length ciphertext) ≡ false =
      ground (arith, length-append ciphertext rest) in
    rw
      (
        whole,
        take_front 64 header body wide,
        drop_front 64 header body wide,
        matches,
        version,
        announced,
        allowed,
        complete,
        take-append,
        drop-append,
      )
      refl
