-- ===== src/Storage/RecordCodec/Layout.antt =====
-- Where the fields of an encoded record stand.
use stream_forge.Base.{
  ℕ, ◌+◌, ◌-◌, ◌%◌, ◌^◌, ◌≤◌, ◌<◌, ◌≡◌, refl, List, ◌++◌, arith, length, take, drop, drop-add,
  take-add, All, All-get_or, get_or, get_or-drop, length-drop, four, eight,
}
use native.Mathlib.Nat.{add-zero}
use stream_forge.Base.Bytes.{
  u32_mod, u64_mod, IsByte, be32, be64, store32-byteswap32, store64-byteswap64, word32, word64,
  be32-load32, be64-load64,
}
use stream_forge.Storage.Crc32.{calculate}
use stream_forge.Storage.RecordCodec.{
  Record, read_u32, read_u64, write_u32, write_u64, covered, length_field, encode, max_record_size,
}

-- Fields that fit their types, and a length field that `decode` admits.
pub record IsRecord (r : Record) : Type 0 where
  pub offset_fits : r.offset < u64_mod
  pub timestamp_fits : r.timestamp_ms < u64_mod
  pub size_fits : 24 + length r.key + length r.value ≤ max_record_size

pub write_u32-be32 : (v : ℕ) → write_u32 v ≡ be32 v
unfolding write_u32
write_u32-be32 v = store32-byteswap32 v

pub write_u64-be64 : (v : ℕ) → write_u64 v ≡ be64 v
unfolding write_u64
write_u64-be64 v = store64-byteswap64 v

-- A header of 28 bytes before `body`.
unfoldable pub layout : ℕ → ℕ → ℕ → ℕ → ℕ → List ℕ → List ℕ
layout len crc off ts klen body =
    be32 len ++ (be32 crc ++ (be64 off ++ (be64 ts ++ (be32 klen ++ body))))

module _ (len crc off ts klen : ℕ) (body : List ℕ) where
  pub read_len-layout : len < u32_mod → read_u32 (layout len crc off ts klen body) 0 ≡ len
  unfolding layout be32 be64 read_u32
  read_len-layout h = word32 len h

  pub read_crc-layout : crc < u32_mod → read_u32 (layout len crc off ts klen body) 4 ≡ crc
  unfolding layout be32 be64 read_u32
  read_crc-layout h = word32 crc h

  pub read_offset-layout : off < u64_mod → read_u64 (layout len crc off ts klen body) 8 ≡ off
  unfolding layout be32 be64 read_u64
  read_offset-layout h = word64 off h

  pub read_timestamp-layout : ts < u64_mod → read_u64 (layout len crc off ts klen body) 16 ≡ ts
  unfolding layout be32 be64 read_u64
  read_timestamp-layout h = word64 ts h

  pub read_key_len-layout : klen < u32_mod → read_u32 (layout len crc off ts klen body) 24 ≡ klen
  unfolding layout be32 be64 read_u32
  read_key_len-layout h = word32 klen h

  pub length-layout : length (layout len crc off ts klen body) ≡ 28 + length body
  unfolding layout be32 be64
  length-layout = omega arith

  pub covered-layout :
      drop 8 (layout len crc off ts klen body) ≡ be64 off ++ (be64 ts ++ (be32 klen ++ body))
  unfolding layout be32 be64
  covered-layout = refl

  pub body-layout : (n : ℕ) → drop (28 + n) (layout len crc off ts klen body) ≡ drop n body
  unfolding layout be32 be64
  body-layout n = drop-add 28 n (layout len crc off ts klen body)

  pub take-layout :
      (n : ℕ)
      → take (28 + n) (layout len crc off ts klen body) ≡ layout len crc off ts klen (take n body)
  unfolding layout be32 be64
  take-layout n = take-add 28 n (layout len crc off ts klen body)

pub layout-append :
    (len crc off ts klen : ℕ) (body rest : List ℕ)
    → layout len crc off ts klen body ++ rest ≡ layout len crc off ts klen (body ++ rest)
unfolding layout be32 be64
layout-append len crc off ts klen body rest = refl

-- The range that the checksum covers, cut after n bytes of the body.
pub take-covered :
    (off ts klen n : ℕ) (body : List ℕ)
    → take (20 + n) (be64 off ++ (be64 ts ++ (be32 klen ++ body)))
      ≡ be64 off ++ (be64 ts ++ (be32 klen ++ take n body))
unfolding be64 be32
take-covered off ts klen n body = take-add 20 n (be64 off ++ (be64 ts ++ (be32 klen ++ body)))

pub covered-be :
    (r : Record)
    → covered r
      ≡ be64 r.offset
        ++ (be64 r.timestamp_ms ++ (be32 (length r.key % 2 ^ 32) ++ (r.key ++ r.value)))
unfolding covered
covered-be r = simp (write_u32-be32, write_u64-be64)

pub encode-layout :
    (r : Record)
    → encode r
      ≡ layout
          (length_field r)
          (calculate (take (length_field r - 4) (covered r)))
          r.offset
          r.timestamp_ms
          (length r.key % 2 ^ 32)
          (r.key ++ r.value)
unfolding encode covered layout
encode-layout r = simp (write_u32-be32, write_u64-be64)

-- Any four, and any eight, bytes of a buffer are the big-endian bytes of the word read there.
module _ (buffer : List ℕ) (bytes : All IsByte buffer) where
  byte : (i : ℕ) → IsByte (get_or buffer i 0)
  byte i = All-get_or IsByte buffer i 0 (omega arith) bytes

  pub be32-read_u32 :
      (i : ℕ)
      → i + 4 ≤ length buffer
      → be32 (read_u32 buffer i) ++ drop (i + 4) buffer ≡ drop i buffer
  unfolding read_u32
  be32-read_u32 i h =
      rw
        (
          be32-load32 _ _ _ _ (byte i) (byte (i + 1)) (byte (i + 2)) (byte (i + 3)),
          drop-add i 4 buffer,
        )
        (simp (get_or-drop, add-zero) at
          (four (drop i buffer) 0 (omega (arith, length-drop i buffer))))

  pub be64-read_u64 :
      (i : ℕ)
      → i + 8 ≤ length buffer
      → be64 (read_u64 buffer i) ++ drop (i + 8) buffer ≡ drop i buffer
  unfolding read_u64
  be64-read_u64 i h =
      rw
        (
          be64-load64 _ _ _ _ _ _ _ _ (byte i) (byte (i + 1)) (byte (i + 2)) (byte (i + 3))
              (byte (i + 4)) (byte (i + 5)) (byte (i + 6)) (byte (i + 7)),
          drop-add i 8 buffer,
        )
        (simp (get_or-drop, add-zero) at
          (eight (drop i buffer) 0 (omega (arith, length-drop i buffer))))

  -- So a buffer that holds a header is laid out by the fields that are read from it.
  pub layout-read :
      28 ≤ length buffer
      → layout
          (read_u32 buffer 0)
          (read_u32 buffer 4)
          (read_u64 buffer 8)
          (read_u64 buffer 16)
          (read_u32 buffer 24)
          (drop 28 buffer)
        ≡ buffer
  unfolding layout
  layout-read h = rw (
    be32-read_u32 24 (omega arith),
    be64-read_u64 16 (omega arith),
    be64-read_u64 8 (omega arith),
    be32-read_u32 4 (omega arith),
    be32-read_u32 0 (omega arith),
  )
