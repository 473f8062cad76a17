-- ===== src/Storage/RecordCodec.antt =====
-- src/RecordCodec.cpp, include/streamforge/RecordCodec.hpp: one record of a log file,
--   length (4) | crc (4) | offset (8) | timestamp (8) | key length (4) | key | value,
-- all numbers big-endian; `length` counts what follows it, and `crc` covers what follows it.
pub mod Layout
pub mod RoundTrip
pub mod Sound
pub mod Torn
use stream_forge.Base.{
  ℕ, ◌+◌, ◌-◌, ◌*◌, ◌%◌, ◌^◌, List, [], ◌++◌, ltb, ◌==◌, if◌then◌else◌, length, take, drop, get_or,
}
use stream_forge.Base.Bytes.{load32, store32, byteswap32, load64, store64, byteswap64}
use stream_forge.Status.{StatusCode, Result, done, error, fault, ◌>>=◌}
use stream_forge.Storage.Crc32.{calculate}

-- StorageConfig.hpp
abbrev pub max_record_size : ℕ
max_record_size = 1024 * 1024

-- `timestamp_ms` is the bit pattern of the int64_t.
pub record Record : Type 0 where
  pub offset : ℕ
  pub timestamp_ms : ℕ
  pub key : List ℕ
  pub value : List ℕ

-- The callers have checked that the bytes are there.
abbrev pub byte_at : List ℕ → ℕ → ℕ
byte_at buffer i = get_or buffer i 0

unfoldable pub read_u32 : List ℕ → ℕ → ℕ
read_u32 buffer i = byteswap32 (
    load32 (byte_at buffer i) (byte_at buffer (i + 1)) (byte_at buffer (i + 2))
      (byte_at buffer (i + 3)))

unfoldable pub read_u64 : List ℕ → ℕ → ℕ
read_u64 buffer i = byteswap64 (
    load64 (byte_at buffer i) (byte_at buffer (i + 1)) (byte_at buffer (i + 2))
      (byte_at buffer (i + 3)) (byte_at buffer (i + 4)) (byte_at buffer (i + 5))
      (byte_at buffer (i + 6)) (byte_at buffer (i + 7)))

unfoldable pub write_u32 : ℕ → List ℕ
write_u32 v = store32 (byteswap32 v)

unfoldable pub write_u64 : ℕ → List ℕ
write_u64 v = store64 (byteswap64 v)

-- What the checksum covers.
unfoldable pub covered : Record → List ℕ
covered r =
    write_u64 r.offset
    ++ (write_u64 r.timestamp_ms ++ (write_u32 (length r.key % 2 ^ 32) ++ (r.key ++ r.value)))

-- uint32_t length = 24 + key_len + value_len
unfoldable pub length_field : Record → ℕ
length_field r = (24 + length r.key % 2 ^ 32 + length r.value % 2 ^ 32) % 2 ^ 32

-- The buffer, in the order of its addresses. (Beyond 4 GiB the lengths wrap; every caller refuses
-- records over 1 MiB.)
unfoldable pub encode : Record → List ℕ
encode r =
    write_u32 (length_field r)
    ++ (write_u32 (calculate (take (length_field r - 4) (covered r))) ++ covered r)

-- vector::assign from a range of the buffer; outside it there is a fault.
unfoldable pub copy_range : List ℕ → ℕ → ℕ → Result (List ℕ)
copy_range buffer i n =
    if n == 0
    then done []
    else if ltb (length buffer) (i + n)
    then fault
    else done (take n (drop i buffer))

-- From the key length on; `len` is the length field.
unfoldable pub decode_payload : List ℕ → ℕ → Result Record
decode_payload buffer len =
    let key_len = read_u32 buffer 24 in
    if ltb len ((24 + key_len) % 2 ^ 32) then error StatusCode.corrupt else do
      key ← copy_range buffer 28 key_len
      value ← copy_range buffer (28 + key_len) ((len + 2 * 2 ^ 32 - 24 - key_len) % 2 ^ 32)
      done (record {
        offset = read_u64 buffer 8;
        timestamp_ms = read_u64 buffer 16;
        key = key;
        value = value;
      })

unfoldable pub decode : List ℕ → Result Record
decode buffer =
    let size = length buffer in
    let len = read_u32 buffer 0 in
    if ltb size 28
    then error StatusCode.corrupt
    else if ltb len 24
    then error StatusCode.corrupt
    else if ltb max_record_size len
    then error StatusCode.record_too_large
    else if ltb size ((4 + len) % 2 ^ 32)
    then error StatusCode.corrupt
    else if read_u32 buffer 4 == calculate (take (len - 4) (drop 8 buffer))
    then decode_payload buffer len
    else error StatusCode.corrupt
