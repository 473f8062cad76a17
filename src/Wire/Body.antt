-- ===== src/Wire/Body.antt =====
-- include/streamforge/BodyReaderWriter.hpp: the values in the body of a frame. A signed number is its
-- bit pattern, so that read_i32, read_i64, write_i32 and write_i64 are those of the unsigned numbers.
pub mod RoundTrip
pub mod Reads
use stream_forge.Base.{
  ℕ, ◌+◌, ◌-◌, ◌*◌, ◌/◌, ◌%◌, ◌^◌, List, [], ◌∷◌, ◌++◌, Bool, ◌||◌, Option, none, some, ltb, leb,
  ◌==◌, if◌then◌else◌, length, take, drop,
}
use stream_forge.Wire.ByteOrder.{ByteOrder}
use stream_forge.Wire.FrameCodec.{byte_at, max_frame_length}
use stream_forge.Wire.FrameCodec

-- m_size is the length of the data.
pub record BodyReader : Type 0 where
  pub bytes : List ℕ
  pub cursor : ℕ

abbrev pub read_body : List ℕ → BodyReader
read_body body = record { bytes = body; cursor = 0 }

unfoldable pub remaining : BodyReader → ℕ
remaining r = if ltb r.cursor (length r.bytes) then length r.bytes - r.cursor else 0

unfoldable pub empty : BodyReader → Bool
empty r = leb (length r.bytes) r.cursor

unfoldable pub require_empty : BodyReader → Bool
require_empty r = r.cursor == length r.bytes

abbrev pub advance : BodyReader → ℕ → BodyReader
advance r n = record r { cursor = r.cursor + n }

-- A read gives the reader after it, and the value if it succeeds.
unfoldable pub read_u8 : BodyReader → BodyReader × Option ℕ
read_u8 r =
    if ltb (remaining r) 1 then (r, none) else (advance r 1, some (byte_at r.bytes r.cursor))

-- `len` bytes from the cursor on.
unfoldable pub read_range : BodyReader → ℕ → BodyReader × Option (List ℕ)
read_range r len =
    if ltb (remaining r) len
    then (r, none)
    else (advance r len, some (take len (drop r.cursor r.bytes)))

-- A string after its length has been read, and a vector after its.
abbrev pub string_after : BodyReader × Option ℕ → BodyReader × Option (List ℕ)
string_after (r, none) = (r, none)
string_after (r, some len) = read_range r len

abbrev pub bytes_after : BodyReader × Option ℕ → BodyReader × Option (List ℕ)
bytes_after (r, none) = (r, none)
bytes_after (r, some len) = if ltb max_frame_length len then (r, none) else read_range r len

module _ ⦃net : ByteOrder⦄ where
  unfoldable pub read_u16 : BodyReader → BodyReader × Option ℕ
  read_u16 r =
      if ltb (remaining r) 2
      then (r, none)
      else (advance r 2, some (FrameCodec.read_u16 r.bytes r.cursor))

  unfoldable pub read_u32 : BodyReader → BodyReader × Option ℕ
  read_u32 r =
      if ltb (remaining r) 4
      then (r, none)
      else (advance r 4, some (FrameCodec.read_u32 r.bytes r.cursor))

  -- The lower half fills the bits that the shift has cleared.
  unfoldable pub read_u64 : BodyReader → BodyReader × Option ℕ
  read_u64 r = if ltb (remaining r) 8 then (r, none) else (
    advance r 8,
    some (
        FrameCodec.read_u32 r.bytes r.cursor * 2 ^ 32 + FrameCodec.read_u32 r.bytes (r.cursor + 4)),
  )

  unfoldable pub read_string : BodyReader → BodyReader × Option (List ℕ)
  read_string r = string_after (read_u16 r)

  unfoldable pub read_bytes : BodyReader → BodyReader × Option (List ℕ)
  read_bytes r = bytes_after (read_u32 r)

  -- The writer is its buffer.
  unfoldable pub write_u8 : List ℕ → ℕ → List ℕ
  write_u8 buffer val = buffer ++ (val ∷ [])

  unfoldable pub write_u16 : List ℕ → ℕ → List ℕ
  write_u16 buffer val = buffer ++ FrameCodec.write_u16 val

  unfoldable pub write_u32 : List ℕ → ℕ → List ℕ
  write_u32 buffer val = buffer ++ FrameCodec.write_u32 val

  unfoldable pub write_u64 : List ℕ → ℕ → List ℕ
  write_u64 buffer val = write_u32 (write_u32 buffer (val / 2 ^ 32)) (val % 2 ^ 32)

  unfoldable pub write_string : List ℕ → List ℕ → List ℕ
  write_string buffer str = write_u16 buffer (length str % 2 ^ 16) ++ str

  unfoldable pub write_bytes : List ℕ → List ℕ → List ℕ
  write_bytes buffer val = write_u32 buffer (length val % 2 ^ 32) ++ val
