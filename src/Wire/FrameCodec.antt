-- ===== src/Wire/FrameCodec.antt =====
-- src/FrameCodec.cpp, include/streamforge/FrameCodec.hpp: a frame is
--   length (4) | type (1) | request id (4) | body,
-- all numbers in the order of the network; `length` counts what follows it.
pub mod RoundTrip
use stream_forge.Base.{
  ℕ, ◌+◌, ◌-◌, ◌*◌, ◌%◌, ◌^◌, List, [], ◌∷◌, ◌++◌, Bool, true, false, ◌||◌, not, Option, none, some,
  ltb, ◌==◌, if◌then◌else◌, length, drop, get_or,
}
use stream_forge.Base.Bytes.{load32, store32}
use stream_forge.Wire.ByteOrder.{ByteOrder, load16, store16}

abbrev pub max_frame_length : ℕ
max_frame_length = 1024 * 1024

abbrev pub header_size : ℕ
header_size = 5

pub record Frame : Type 0 where
  pub length : ℕ
  pub type : ℕ
  pub request_id : ℕ
  pub body : List ℕ

-- MessageType
abbrev pub pong : ℕ
pong = 129

abbrev pub echo_reply : ℕ
echo_reply = 130

abbrev pub msg_error : ℕ
msg_error = 255

-- The callers have checked that the bytes are there.
abbrev pub byte_at : List ℕ → ℕ → ℕ
byte_at buffer i = get_or buffer i 0

module _ ⦃net : ByteOrder⦄ where
  unfoldable pub read_u32 : List ℕ → ℕ → ℕ
  read_u32 buffer i = net.ntohl (
      load32 (byte_at buffer i) (byte_at buffer (i + 1)) (byte_at buffer (i + 2))
        (byte_at buffer (i + 3)))

  unfoldable pub write_u32 : ℕ → List ℕ
  write_u32 value = store32 (net.htonl value)

  unfoldable pub read_u16 : List ℕ → ℕ → ℕ
  read_u16 buffer i = net.ntohs (load16 (byte_at buffer i) (byte_at buffer (i + 1)))

  unfoldable pub write_u16 : ℕ → List ℕ
  write_u16 value = store16 (net.htons value)

  -- uint32_t payload_len = HEADER_SIZE + body.size()
  unfoldable pub payload_len : List ℕ → ℕ
  payload_len body = (header_size + length body % 2 ^ 32) % 2 ^ 32

  -- (Beyond 4 GiB the length wraps; every caller keeps bodies below 1 MiB.)
  unfoldable pub encode : Frame → List ℕ
  encode frame =
      write_u32 (payload_len frame.body)
      ++ (frame.type ∷ (write_u32 frame.request_id ++ frame.body))

  unfoldable pub create_error_frame : ℕ → ℕ → List ℕ → Frame
  create_error_frame request_id error_code message =
      let body = write_u16 error_code ++ message in
      record { length = payload_len body; type = msg_error; request_id = request_id; body = body }

  unfoldable pub create_pong_frame : ℕ → Frame
  create_pong_frame request_id = record {
    length = header_size;
    type = pong;
    request_id = request_id;
    body = [];
  }

  unfoldable pub create_echo_reply_frame : ℕ → List ℕ → Frame
  create_echo_reply_frame request_id body = record {
    length = payload_len body;
    type = echo_reply;
    request_id = request_id;
    body = body;
  }

  -- The code and the message.
  unfoldable pub parse_error_frame : Frame → Option (ℕ × List ℕ)
  parse_error_frame frame =
      if not (frame.type == msg_error) || ltb (length frame.body) 2
      then none
      else some (read_u16 frame.body 0, drop 2 frame.body)
