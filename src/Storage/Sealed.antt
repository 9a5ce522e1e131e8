-- ===== src/Storage/Sealed.antt =====
-- A packet that was built is opened again (internal/storage/storage.c).
use mp_cache.Prelude.{
  ℕ, ◌+◌, ◌/◌, ◌%◌, ◌^◌, ◌≤◌, ◌<◌, ◌≡◌, ◌∙◌, refl, sym, ap, Bool, true, Bool-cases, inl, inr, Bytes,
  some, Option-cases, [], ◌∷◌, ◌++◌, flatten, append_assoc, append-nil, length, length-append, ltb,
  take, drop, get_or, mem_equal, word64, arith,
}
use mp_cache.Crypto.Sha256.{hmac_sha256}
use mp_cache.Crypto.Digest.{hmac_sha256-IsDigest}
use mp_cache.Crypto.Stream.{stream_xor, stream_xor-stream_xor, length-stream_xor}
use mp_cache.Storage.Buffer.{Buffer, empty_buffer, append_all, append_all-some, u32_bytes}
use mp_cache.Storage.Reads.{join_u32}
use mp_cache.Storage.Packet.{
  StorageKey, header_start, build_packet, opened, payload_length_of, open_packet,
  read_packet_stream,
}
use mp_cache.Storage.Envelope.{
  take_front, drop_front, get_or_front, mem_equal_prefix, stream-nonempty, mac_parts,
  open_packet-parts, read_packet-parts,
}

module _ (storage : StorageKey) (magic nonce payload : Bytes) where
  abbrev start : Bytes
  start = header_start magic (length payload) nonce

  abbrev ciphertext : Bytes
  ciphertext = stream_xor storage.storage_key nonce payload

  abbrev mac_of : Bytes
  mac_of = hmac_sha256 storage.storage_key (flatten (mac_parts start ciphertext))

  -- What a successful build has put into the packet.
  pub build_packet-some :
      (grants : ℕ → Bool) (allocated : Bool) (packet : Buffer) (mac : Bytes)
      → build_packet grants (some nonce) allocated storage magic payload empty_buffer
        ≡ some (packet, mac)
      → (length payload ≤ storage.max_packet_bytes)
        × (mac ≡ mac_of)
        × (packet.bytes ≡ flatten ((start ++ mac_of) ∷ ciphertext ∷ []))
  unfolding build_packet
  build_packet-some grants allocated packet mac h =
      elim (Bool-cases (ltb storage.max_packet_bytes (length payload))) [
        | inl large ↦ absurd (ground (arith, h))
        | inr fits ↦ elim (Bool-cases allocated) [
          | inr refused ↦ absurd (ground (arith, h))
          | inl given ↦
              elim (Option-cases (append_all grants empty_buffer (mac_parts start ciphertext))) [
                | inl e ↦ absurd (ground (arith, h))
                | inr (mac_input, e) ↦
                    let input = append_all-some grants empty_buffer _ mac_input (omega arith) e in
                    let tag : Bytes = hmac_sha256 storage.storage_key mac_input.bytes in
                    let same : tag ≡ mac_of = ap (hmac_sha256 storage.storage_key) input in
                    elim (Option-cases
                      (append_all grants empty_buffer ((start ++ tag) ∷ ciphertext ∷ []))) [
                        | inl e2 ↦ absurd (ground (arith, h))
                        | inr (built, e2) ↦
                            let bytes =
                              append_all-some grants empty_buffer _ built (omega arith) e2 in
                            let result : (built, tag) ≡ (packet, mac) = ground (arith, h) in
                            (
                              ground arith,
                              ap (λ (r : Buffer × Bytes). r.1) (sym result) ∙ same,
                              ap (λ (r : Buffer × Bytes). r.0.bytes) (sym result)
                                  ∙ bytes
                                  ∙ ap (λ (t : Bytes). flatten ((start ++ t) ∷ ciphertext ∷ []))
                                      same,
                            )
                      ]
              ]
        ]
      ]

  module _ (magic_length : length magic ≡ 8) (nonce_length : length nonce ≡ 16)
      (small : length payload < 2 ^ 32) where
    abbrev fields : Bytes
    fields = 0 ∷ 0 ∷ 0 ∷ 1 ∷ u32_bytes (length payload)

    start-split : start ≡ (magic ++ fields) ++ nonce
    start-split =
        ap (λ (m : Bytes). m ++ (fields ++ nonce))
          (ap (take 8) (sym (append-nil magic)) ∙ take_front 8 magic [] magic_length)
        ∙ sym (append_assoc magic fields nonce)

    length-start : length start ≡ 32
    length-start = rw (start-split, length-append, length-append, magic_length, nonce_length) refl

    -- The whole header, and the magic in front of the rest of it.
    abbrev header : Bytes
    header = start ++ mac_of

    length-header : length header ≡ 64
    length-header =
        rw
          (
            length-append,
            length-start,
            (hmac_sha256-IsDigest storage.storage_key (flatten (mac_parts start ciphertext))).0,
          )
          refl

    header-split : header ≡ magic ++ (fields ++ (nonce ++ mac_of))
    header-split =
        ap (λ (l : Bytes). l ++ mac_of) start-split
        ∙ append_assoc (magic ++ fields) nonce mac_of
        ∙ append_assoc magic fields (nonce ++ mac_of)

    field-at : (i : ℕ) → get_or header (8 + i) 0 ≡ get_or (fields ++ (nonce ++ mac_of)) i 0
    field-at i = rw header-split (get_or_front 8 i magic (fields ++ (nonce ++ mac_of)) magic_length)

    payload_length_of-header : payload_length_of header ≡ length payload
    unfolding get_or
    payload_length_of-header =
        let n : ℕ = length payload in
        let joined =
          join_u32 (n / 2 ^ 24 % 256) (n / 2 ^ 16 % 256) (n / 2 ^ 8 % 256) (n % 256) (omega arith)
            (omega arith) (omega arith) (omega arith) in
        rw (field-at 4, field-at 5, field-at 6, field-at 7, joined) (omega arith)

    magic-matches : mem_equal 8 header magic ≡ true
    magic-matches =
        rw header-split (mem_equal_prefix 8 magic (fields ++ (nonce ++ mac_of)) magic_length)

    nonce-of-header : take 16 (drop 16 header) ≡ nonce
    nonce-of-header =
        let split : header ≡ (magic ++ fields) ++ (nonce ++ mac_of) =
          header-split ∙ sym (append_assoc magic fields (nonce ++ mac_of)) in
        let front : length (magic ++ fields) ≡ 16 = rw (length-append, magic_length) refl in
        rw (split, drop_front 16 (magic ++ fields) (nonce ++ mac_of) front)
          (take_front 16 nonce mac_of nonce_length)

    -- The packet opens, whatever follows it in the file.
    open-header :
        (rest : Bytes)
        → length payload + 32 < word64
        → open_packet (λ n. true) storage header ciphertext rest ≡ opened payload mac_of rest
    unfolding flatten
    open-header rest room =
        let total : length (flatten (mac_parts start ciphertext)) < word64 = omega (
          arith,
          length-append start (ciphertext ++ []),
          length-append ciphertext [],
          length-start,
          length-stream_xor storage.storage_key nonce payload,
        ) in
        open_packet-parts storage header start mac_of nonce ciphertext rest
          (take_front 32 start mac_of length-start) (drop_front 32 start mac_of length-start)
          nonce-of-header refl total
        ∙ ap (λ (text : Bytes). opened text mac_of rest)
            (stream_xor-stream_xor storage.storage_key nonce payload)

    pub build_packet-length :
        (grants : ℕ → Bool) (allocated : Bool) (packet : Buffer) (mac : Bytes)
        → build_packet grants (some nonce) allocated storage magic payload empty_buffer
          ≡ some (packet, mac)
        → 64 ≤ length packet.bytes
    unfolding flatten
    build_packet-length grants allocated packet mac h =
        let (fits, tag, bytes) = build_packet-some grants allocated packet mac h in
        rw (bytes, length-append, length-header) (omega arith)

    -- A packet that was built for a payload under 2^32 bytes is read back from any file that
    -- starts with it, with its MAC and the rest of the file, where memory is granted to the reader.
    pub read_packet_stream-build_packet :
        (grants : ℕ → Bool) (allocated : Bool) (packet : Buffer) (mac rest : Bytes)
        → build_packet grants (some nonce) allocated storage magic payload empty_buffer
          ≡ some (packet, mac)
        → read_packet_stream (λ n. true) true storage magic (packet.bytes ++ rest)
          ≡ opened payload mac rest
    unfolding flatten get_or
    read_packet_stream-build_packet grants allocated packet mac rest h =
        let (fits, tag, bytes) = build_packet-some grants allocated packet mac h in
        let file : packet.bytes ++ rest ≡ header ++ (ciphertext ++ rest) =
          ap (λ (l : Bytes). l ++ rest) bytes
          ∙ append_assoc header (ciphertext ++ []) rest
          ∙ ap (λ (l : Bytes). header ++ (l ++ rest)) (append-nil ciphertext) in
        let same_length = length-stream_xor storage.storage_key nonce payload in
        let nonempty : 0 < length (header ++ (ciphertext ++ rest)) =
          omega (arith, length-append header (ciphertext ++ rest), length-header) in
        rw file
          (stream-nonempty (λ n. true) true storage magic (header ++ (ciphertext ++ rest)) nonempty)
        ∙ read_packet-parts storage magic header ciphertext rest length-header magic-matches
            (field-at 3) (payload_length_of-header ∙ sym same_length) (omega (arith, same_length))
        ∙ open-header rest (omega arith)
        ∙ ap (λ (t : Bytes). opened payload t rest) (sym tag)
