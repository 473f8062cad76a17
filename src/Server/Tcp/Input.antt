-- ===== src/Server/Tcp/Input.antt =====
-- One turn of `event_loop` in src/TcpServer.cpp for one connection: the output that waits, and what has
-- come in.
use stream_forge.Base.{
  ℕ, zero, suc, ◌+◌, List, [], ◌∷◌, ◌++◌, Bool, true, false, ◌&&◌, not, Option, none, some, ltb,
  ◌==◌, if◌then◌else◌, length, take, drop,
}
use stream_forge.Wire.ByteOrder.{ByteOrder}
use stream_forge.Wire.ErrorCode
use stream_forge.Wire.FrameCodec.{Frame, header_size, encode, create_error_frame}
use stream_forge.Wire.FrameAssembler.{
  FrameExtractResult, frame_ready, need_more_data, error_length_too_small, error_length_too_large,
  push_bytes, buffered_bytes, has_partial_frame, extract_next_frame,
}
use stream_forge.Server.MessageType
use stream_forge.Server.Tcp.{
  ServerConfig, ConnectionState, Server, SendOutcome, accepted, would_block, failed, sent_count,
  update_conn, close_connection, request_stop, enqueue,
}

-- Backpressure: whether the connection is polled for input.
unfoldable pub can_read : ServerConfig → ConnectionState → Bool
can_read config c =
    ltb (buffered_bytes c.assembler) config.max_input_buffer_bytes
    && (ltb (length c.pending_requests) 1000 && not c.close_after_send)

unfoldable pub has_output : ConnectionState → Bool
has_output c = ltb c.output_offset (length c.output_buffer)

-- The connection after its output was sent on, and whether it is to be closed.
unfoldable pub send_output : ConnectionState → SendOutcome → ConnectionState × Bool
send_output c failed = (c, true)
send_output c would_block = (c, false)
send_output c (accepted n) =
    let rest = drop c.output_offset c.output_buffer in
    let m = sent_count n rest in
    if c.output_offset + m == length c.output_buffer
    then (
      record c { sent = c.sent ++ take m rest; output_buffer = []; output_offset = 0 },
      c.close_after_send,
    )
    else (record c { sent = c.sent ++ take m rest; output_offset = c.output_offset + m }, false)

-- The server after it, and the id if the connection is to be closed.
unfoldable pub handle_output : Server → ConnectionState → SendOutcome → Server × Bool
handle_output s c outcome = let (c', closing) = send_output c outcome in (update_conn s c', closing)

-- How `recv` has ended: there was no more for now, or the peer has gone.
pub data RecvEnd : Type 0 where
  drained disconnected : RecvEnd

-- Each chunk is read at the time beside it.
unfoldable pub receive : ConnectionState → List (List ℕ × ℕ) → ConnectionState
receive c [] = c
receive c ((bytes, now) ∷ chunks) =
    receive (record c { assembler = push_bytes c.assembler bytes; last_read_time = now }) chunks

-- `dangling`: the connection was written to through a pointer after it had been destroyed.
pub data InputOutcome : Type 0 where
  kept : Server → InputOutcome
  to_close : Server → InputOutcome
  dangling : Server → InputOutcome

-- At most one request of a connection is in flight.
unfoldable pub take_request : Server × ConnectionState → Frame → Server × ConnectionState
take_request (s, c) frame =
    if c.in_flight
    then (
      s,
      record c {
        pending_requests = c.pending_requests ++ (frame ∷ []);
        arrived = c.arrived ++ (frame ∷ []);
      },
    )
    else (
      enqueue s (record { conn_id = c.conn_id; request = frame }),
      record c { in_flight = true; arrived = c.arrived ++ (frame ∷ []) },
    )

-- What a socket has taken of bytes that are not kept for later.
abbrev pub sent_once : SendOutcome → List ℕ → List ℕ
sent_once (accepted n) bytes = take (sent_count n bytes) bytes
sent_once would_block bytes = []
sent_once failed bytes = []

module _ ⦃net : ByteOrder⦄ where
  abbrev pub shutdown_ok_bytes : Frame → List ℕ
  shutdown_ok_bytes frame = encode (record {
    length = header_size;
    type = MessageType.shutdown_ok;
    request_id = frame.request_id;
    body = [];
  })

  -- What is done with the result of one extraction, and with the rest of the loop if it goes on.
  unfoldable pub after_extract :
      (Server × ConnectionState → Frame → (Server × ConnectionState) × FrameExtractResult)
      → Server
      → ConnectionState
      → SendOutcome
      → Frame
      → FrameExtractResult
      → (Server × ConnectionState) × FrameExtractResult
  after_extract next s c send frame frame_ready =
      if frame.type == MessageType.shutdown
      then (
        (request_stop s, record c { sent = c.sent ++ sent_once send (shutdown_ok_bytes frame) }),
        frame_ready,
      )
      else next (take_request (s, c) frame) frame
  after_extract next s c send frame need_more_data = ((s, c), need_more_data)
  after_extract next s c send frame error_length_too_small = ((s, c), error_length_too_small)
  after_extract next s c send frame error_length_too_large = ((s, c), error_length_too_large)

  -- The frames that are complete, one after another. A frame has nine bytes at least, so that as many
  -- rounds as there are bytes, and one more, are enough.
  unfoldable pub extract_all :
      ℕ
      → Server × ConnectionState
      → Frame
      → SendOutcome
      → (Server × ConnectionState) × FrameExtractResult
  extract_all zero p out send = (p, need_more_data)
  extract_all (suc fuel) (s, c) out send =
      let (asm, frame, res) = extract_next_frame c.assembler out in
      after_extract (λ p f. extract_all fuel p f send) s (record c { assembler = asm }) send frame
        res

  -- The error takes the place of all output that waits. If the socket takes it whole, the connection
  -- is destroyed.
  unfoldable pub queue_immediate_error_and_close :
      Server → ConnectionState → Frame → SendOutcome → Server × Option ConnectionState
  queue_immediate_error_and_close s c err_frame send =
      let encoded = encode err_frame in
      let sent = sent_once send encoded in
      if ltb 0 (length sent) && length sent == length encoded
      then (close_connection s c.conn_id, none)
      else (
        s,
        some (record c {
          sent = c.sent ++ sent;
          output_buffer = encoded;
          output_offset = length sent;
          close_after_send = true;
        }),
      )

  abbrev pub protocol_error : ℕ → List ℕ → Frame
  protocol_error code text = create_error_frame 0 code text

  -- The connection is written to once more, whether or not it is still there.
  unfoldable pub after_error : Server × Option ConnectionState → InputOutcome
  after_error (s, none) = dangling s
  after_error (s, some c) =
      kept (update_conn s (record c { has_active_read_stall = has_partial_frame c.assembler }))

  unfoldable pub after_frames :
      Server → ConnectionState → FrameExtractResult → SendOutcome → List ℕ → InputOutcome
  after_frames s c error_length_too_small send text =
      after_error
        (queue_immediate_error_and_close s c (protocol_error ErrorCode.malformed_frame text) send)
  after_frames s c error_length_too_large send text =
      after_error
        (queue_immediate_error_and_close s c (protocol_error ErrorCode.frame_too_large text) send)
  after_frames s c frame_ready send text = after_error (s, some c)
  after_frames s c need_more_data send text = after_error (s, some c)

  -- The texts of errors are an argument, and what the socket does with the one frame that is sent.
  unfoldable pub handle_input :
      Server
      → ConnectionState
      → List (List ℕ × ℕ)
      → RecvEnd
      → Frame
      → SendOutcome
      → List ℕ
      → InputOutcome
  handle_input s c chunks disconnected out send text = to_close (update_conn s (receive c chunks))
  handle_input s c chunks drained out send text =
      let c' = receive c chunks in
      let ((s'', c''), res) = extract_all (suc (length c'.assembler.buffer)) (s, c') out send in
      after_frames s'' c'' res send text
