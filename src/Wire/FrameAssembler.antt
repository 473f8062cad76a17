-- ===== src/Wire/FrameAssembler.antt =====
-- src/FrameAssembler.cpp, include/streamforge/FrameAssembler.hpp: frames from a stream of bytes.
pub mod Parse
pub mod Stream
pub mod Deliver
use stream_forge.Base.{
  ℕ, ◌+◌, ◌-◌, ◌*◌, ◌%◌, ◌^◌, List, [], ◌++◌, Bool, ltb, ◌==◌, if◌then◌else◌, length, take, drop,
}
use stream_forge.Wire.ByteOrder.{ByteOrder}
use stream_forge.Wire.FrameCodec.{Frame, byte_at, read_u32, header_size, max_frame_length}

pub data FrameExtractResult : Type 0 where
  frame_ready need_more_data error_length_too_small error_length_too_large : FrameExtractResult

pub record FrameAssembler : Type 0 where
  pub buffer : List ℕ
  pub read_offset : ℕ

abbrev pub new_assembler : FrameAssembler
new_assembler = record { buffer = []; read_offset = 0 }

unfoldable pub push_bytes : FrameAssembler → List ℕ → FrameAssembler
push_bytes asm bytes = record asm { buffer = asm.buffer ++ bytes }

-- The subtraction is one of size_t.
unfoldable pub buffered_bytes : FrameAssembler → ℕ
buffered_bytes asm = (length asm.buffer + 2 ^ 64 - asm.read_offset) % 2 ^ 64

unfoldable pub has_partial_frame : FrameAssembler → Bool
unfolding buffered_bytes
has_partial_frame asm = ltb 0 (buffered_bytes asm)

unfoldable pub clear : FrameAssembler → FrameAssembler
clear asm = new_assembler

unfoldable pub compact_if_needed : FrameAssembler → FrameAssembler
compact_if_needed asm =
    if asm.read_offset == length asm.buffer
    then new_assembler
    else if ltb (64 * 1024) asm.read_offset
    then record { buffer = drop asm.read_offset asm.buffer; read_offset = 0 }
    else asm

module _ ⦃net : ByteOrder⦄ where
  -- The frame of `len` bytes after its length at `pos`.
  unfoldable pub frame_at : List ℕ → ℕ → ℕ → Frame
  frame_at buffer pos len = record {
    length = len;
    type = byte_at buffer (pos + 4);
    request_id = read_u32 buffer (pos + 5);
    body =
        if ltb 0 (len - header_size)
        then take (len - header_size) (drop (pos + 4 + header_size) buffer)
        else [];
  }

  -- `out_frame` is written only when a frame is ready.
  unfoldable pub extract_next_frame :
      FrameAssembler → Frame → FrameAssembler × Frame × FrameExtractResult
  extract_next_frame asm out_frame =
      let available = buffered_bytes asm in
      let len = read_u32 asm.buffer asm.read_offset in
      if ltb available 4
      then (asm, out_frame, need_more_data)
      else if ltb len header_size
      then (asm, out_frame, error_length_too_small)
      else if ltb max_frame_length len
      then (asm, out_frame, error_length_too_large)
      else if ltb available (4 + len)
      then (asm, out_frame, need_more_data)
      else (
        compact_if_needed (record asm { read_offset = (asm.read_offset + (4 + len)) % 2 ^ 64 }),
        frame_at asm.buffer asm.read_offset len,
        frame_ready,
      )
