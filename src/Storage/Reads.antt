-- ===== src/Storage/Reads.antt =====
-- What the bounded reads of internal/storage/storage.c give where the payload holds a number or a
-- span at the offset.
use mp_cache.Prelude.{
  ℕ, ◌+◌, ◌*◌, ◌/◌, ◌%◌, ◌^◌, ◌≤◌, ◌<◌, ◌≡◌, ◌∙◌, refl, sym, ap, false, Bytes, IsByte, some, [],
  ◌∷◌, ◌++◌, append_assoc, length, length-append, get_or, drop, bit_or, take-append, drop-append,
  word64, arith,
}
use mp_cache.Prelude.Bits.{or_fields}
use mp_cache.Storage.Buffer.{u32_bytes, u64_bytes}
use mp_cache.Storage.Cursor.{is_short, push, consume_u32, consume_u64, consume_bytes}

-- The payload from an offset on.
pub record Rest (payload : Bytes) (offset : ℕ) (rest : Bytes) : Type 0 where
  pub front : Bytes
  pub split : payload ≡ front ++ rest
  pub place : offset ≡ length front

pub start-Rest : (payload : Bytes) → Rest payload 0 payload
start-Rest payload = record { front = []; split = refl; place = refl }

pub get_or-append :
    (front rest : Bytes) (i : ℕ) → get_or (front ++ rest) (length front + i) 0 ≡ get_or rest i 0
unfolding get_or
get_or-append [] rest i = ground arith
get_or-append (b ∷ front) rest i = ground (arith, get_or-append front rest i)

module _ (payload : Bytes) (offset : ℕ) where
  pub next-Rest :
      (read rest : Bytes) (n : ℕ)
      → length read ≡ n
      → Rest payload offset (read ++ rest)
      → Rest payload (offset + n) rest
  next-Rest read rest n h r = record {
    front = r.front ++ read;
    split = r.split ∙ sym (append_assoc r.front read rest);
    place = rw (length-append, r.place, h);
  }

  Rest-long :
      (rest : Bytes) (n : ℕ)
      → Rest payload offset rest
      → n ≤ length rest
      → is_short payload offset n ≡ false
  Rest-long rest n r h = rw (r.split, length-append, r.place) (ground arith)

  get_or-Rest :
      (rest : Bytes) (i : ℕ)
      → Rest payload offset rest
      → get_or payload (offset + i) 0 ≡ get_or rest i 0
  get_or-Rest rest i r = rw (r.split, r.place) (get_or-append r.front rest i)

or_place : (k q r : ℕ) (word : ℕ) → word ≡ q * 2 ^ k → r < 2 ^ k → bit_or word r ≡ q * 2 ^ k + r
or_place k q r word e h = rw e (or_fields k q r h)

-- Four bytes, the most significant first.
pub join_u32 :
    (a b c d : ℕ)
    → IsByte a
    → IsByte b
    → IsByte c
    → IsByte d
    → bit_or (bit_or (bit_or (a * 2 ^ 24) (b * 2 ^ 16)) (c * 2 ^ 8)) d
      ≡ a * 2 ^ 24 + b * 2 ^ 16 + c * 2 ^ 8 + d
join_u32 a b c d ha hb hc hd =
    let high : bit_or (a * 2 ^ 24) (b * 2 ^ 16) ≡ (a * 256 + b) * 2 ^ 16 =
      omega (arith, or_fields 24 a (b * 2 ^ 16) (omega arith)) in
    let middle : bit_or (bit_or (a * 2 ^ 24) (b * 2 ^ 16)) (c * 2 ^ 8)
        ≡ (a * 65536 + b * 256 + c) * 2 ^ 8 =
      omega (arith, or_place 16 (a * 256 + b) (c * 2 ^ 8) _ high (omega arith)) in
    omega (arith, or_place 8 (a * 65536 + b * 256 + c) d _ middle hd)

push-eq : (value byte : ℕ) → value < 2 ^ 56 → IsByte byte → push value byte ≡ value * 256 + byte
push-eq value byte h hb =
    let whole : value * 2 ^ 8 % word64 ≡ value * 2 ^ 8 = omega arith in
    omega (arith, or_place 8 value byte _ whole hb)

push_digit : (x word : ℕ) → x < word64 → word ≡ x / 256 → push word (x % 256) ≡ x
push_digit x word h e =
    rw e (omega (arith, push-eq (x / 256) (x % 256) (omega arith) (omega arith)))

-- Eight bytes, the most significant first.
join_u64 :
    (x : ℕ)
    → x < word64
    → push
        (push
          (push
            (push
              (push
                (push (push (push 0 (x / 2 ^ 56 % 256)) (x / 2 ^ 48 % 256)) (x / 2 ^ 40 % 256))
                (x / 2 ^ 32 % 256))
              (x / 2 ^ 24 % 256))
            (x / 2 ^ 16 % 256))
          (x / 2 ^ 8 % 256))
        (x % 256)
      ≡ x
join_u64 x h =
    let w1 : ℕ = push 0 (x / 2 ^ 56 % 256) in
    let e1 : w1 ≡ x / 2 ^ 56 = push_digit (x / 2 ^ 56) 0 (omega arith) (omega arith) in
    let w2 : ℕ = push w1 (x / 2 ^ 48 % 256) in
    let e2 : w2 ≡ x / 2 ^ 48 = push_digit (x / 2 ^ 48) w1 (omega arith) (omega (arith, e1)) in
    let w3 : ℕ = push w2 (x / 2 ^ 40 % 256) in
    let e3 : w3 ≡ x / 2 ^ 40 = push_digit (x / 2 ^ 40) w2 (omega arith) (omega (arith, e2)) in
    let w4 : ℕ = push w3 (x / 2 ^ 32 % 256) in
    let e4 : w4 ≡ x / 2 ^ 32 = push_digit (x / 2 ^ 32) w3 (omega arith) (omega (arith, e3)) in
    let w5 : ℕ = push w4 (x / 2 ^ 24 % 256) in
    let e5 : w5 ≡ x / 2 ^ 24 = push_digit (x / 2 ^ 24) w4 (omega arith) (omega (arith, e4)) in
    let w6 : ℕ = push w5 (x / 2 ^ 16 % 256) in
    let e6 : w6 ≡ x / 2 ^ 16 = push_digit (x / 2 ^ 16) w5 (omega arith) (omega (arith, e5)) in
    let w7 : ℕ = push w6 (x / 2 ^ 8 % 256) in
    let e7 : w7 ≡ x / 2 ^ 8 = push_digit (x / 2 ^ 8) w6 (omega arith) (omega (arith, e6)) in
    push_digit x w7 h (omega (arith, e7))

module _ (payload : Bytes) (offset : ℕ) (rest : Bytes) where
  first_byte :
      (bytes : Bytes) → Rest payload offset bytes → get_or payload offset 0 ≡ get_or bytes 0 0
  first_byte bytes r =
      let same : offset ≡ offset + 0 = omega arith in
      ap (λ i. get_or payload i 0) same ∙ get_or-Rest payload offset bytes 0 r

  -- A number of 32 bits is read back, and the offset is behind it.
  pub consume_u32-Rest :
      (value : ℕ)
      → value < 2 ^ 32
      → Rest payload offset (u32_bytes value ++ rest)
      → consume_u32 payload offset ≡ some (value, offset + 4)
  unfolding consume_u32 get_or
  consume_u32-Rest value small r =
      let bytes : Bytes = u32_bytes value ++ rest in
      let whole : is_short payload offset 4 ≡ false =
        Rest-long payload offset bytes 4 r (omega arith) in
      let b0 = first_byte bytes r in
      let b1 = get_or-Rest payload offset bytes 1 r in
      let b2 = get_or-Rest payload offset bytes 2 r in
      let b3 = get_or-Rest payload offset bytes 3 r in
      let joined =
        join_u32 (value / 2 ^ 24 % 256) (value / 2 ^ 16 % 256) (value / 2 ^ 8 % 256) (value % 256)
          (omega arith) (omega arith) (omega arith) (omega arith) in
      rw (whole, b0, b1, b2, b3, joined) (ap (λ v. some (v, offset + 4)) (omega arith))

  -- A number of 64 bits is read back, and the offset is behind it.
  pub consume_u64-Rest :
      (value : ℕ)
      → value < word64
      → Rest payload offset (u64_bytes value ++ rest)
      → consume_u64 payload offset ≡ some (value, offset + 8)
  unfolding consume_u64 get_or
  consume_u64-Rest value small r =
      let bytes : Bytes = u64_bytes value ++ rest in
      let whole : is_short payload offset 8 ≡ false =
        Rest-long payload offset bytes 8 r (omega arith) in
      let b0 = first_byte bytes r in
      let b1 = get_or-Rest payload offset bytes 1 r in
      let b2 = get_or-Rest payload offset bytes 2 r in
      let b3 = get_or-Rest payload offset bytes 3 r in
      let b4 = get_or-Rest payload offset bytes 4 r in
      let b5 = get_or-Rest payload offset bytes 5 r in
      let b6 = get_or-Rest payload offset bytes 6 r in
      let b7 = get_or-Rest payload offset bytes 7 r in
      rw (whole, b0, b1, b2, b3, b4, b5, b6, b7, join_u64 value small) refl

  -- A span of bytes is read back, and the offset is behind it.
  pub consume_bytes-Rest :
      (value : Bytes) (n : ℕ)
      → length value ≡ n
      → Rest payload offset (value ++ rest)
      → consume_bytes payload offset n ≡ some (value, offset + n)
  unfolding consume_bytes
  consume_bytes-Rest value n h r =
      let whole : is_short payload offset n ≡ false =
        Rest-long payload offset (value ++ rest) n r (omega (arith, length-append value rest)) in
      let dropped : drop offset payload ≡ value ++ rest =
        rw (r.split, r.place) (drop-append r.front (value ++ rest)) in
      rw (whole, dropped, ← h, take-append) refl
