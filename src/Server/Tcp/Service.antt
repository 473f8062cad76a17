-- ===== src/Server/Tcp/Service.antt =====
-- What the clients of src/TcpServer.cpp are promised, and where its input handling goes wrong.
use stream_forge.Base.{
  ℕ, ◌<◌, ap, ◌+◌, ◌≤◌, ◌≡◌, refl, sym, subst, ◌∙◌, ◌⊎◌, inl, inr, List, [], ◌∷◌, ◌++◌, true, false,
  Option, none, some, ltb, ◌==◌, if◌then◌else◌, arith, suc, length, length-append, take, drop,
  flatten, take_all,
}
use stream_forge.Wire.ByteOrder.{ByteOrder}
use stream_forge.Wire.ErrorCode
use stream_forge.Wire.FrameCodec.{Frame, encode, write_u32, payload_len}
use stream_forge.Wire.FrameAssembler.{error_length_too_small}
use stream_forge.Server.Handler.{Broker}
use stream_forge.Server.Tcp.{
  ServerConfig, ConnectionState, Server, accepted, sent_count, find_conn, close_connection,
  remove_conn,
}
use stream_forge.Server.Tcp.Input.{
  drained, receive, dangling, extract_all, after_frames, queue_immediate_error_and_close,
  protocol_error, after_error, handle_input,
}
use stream_forge.Server.Tcp.Workers.{System}
use stream_forge.Server.Tcp.Lines.{requests_of, responses_of, find_conn-remove_conn, refl-Touches}
use stream_forge.Server.Tcp.Order.{
  Answered, Phase, idle, queued, handled, completed, is_some, and_then,
}
use stream_forge.Server.Tcp.Reading.{extract_all-Extracts, receive-id}
use stream_forge.Server.Tcp.Steps.{Reachable}
use stream_forge.Server.Tcp.Running.{Reachable-HoldsIn}

module _ ⦃net : ByteOrder⦄ where
  Phase-one :
      {ts ws : List Frame} {cs : List (List ℕ)} {o : Option Frame}
      → Phase ts ws cs o
      → length ts + length ws + length cs ≡ (if is_some o then 1 else 0)
  Phase-one idle = refl
  Phase-one (queued r) = refl
  Phase-one (handled r) = refl
  Phase-one (completed r b h) = refl

  flag-or-none : (o : Option Frame) → (is_some o ≡ true) ⊎ (o ≡ none)
  flag-or-none none = inr refl
  flag-or-none (some r) = inl refl

  -- Of a connection, one request at most is in the task queue, with a worker or answered in the
  -- completion queue, namely one exactly while the connection is marked as in flight; and other
  -- requests wait only while it is.
  pub Reachable-in_flight :
      (config : ServerConfig) (b : Broker) (y : System) (k : ℕ) (c : ConnectionState)
      → Reachable config b y
      → find_conn k y.server.connections ≡ some c
      → (length (requests_of k y.server.tasks)
            + length (requests_of k y.working)
            + length (responses_of k y.server.completions)
          ≡ (if c.in_flight then 1 else 0))
        × ((c.in_flight ≡ true) ⊎ (c.pending_requests ≡ []))
  Reachable-in_flight config b y k c r e =
      let o = ((Reachable-HoldsIn k r).live c e).order in
      (
        Phase-one o.phase ∙ rw o.flag refl,
        elim (flag-or-none o.current) [ inl f ↦ inl (o.flag ∙ f) | inr f ↦ inr (o.waiting f) ],
      )

  -- A connection is served in order, as long as no shutdown has been asked for and no error frame
  -- waits on it: of the requests that have come, the first ones are answered, each by an encoded
  -- frame that has its id and is an error or of the type that answers it; and what the socket has
  -- taken and what waits in the buffer are together these answers, one after another.
  pub Reachable-served :
      (config : ServerConfig) (b : Broker) (y : System) (k : ℕ) (c : ConnectionState)
      → Reachable config b y
      → find_conn k y.server.connections ≡ some c
      → y.server.shutdown_requested ≡ false
      → c.close_after_send ≡ false
      → (finished : List Frame) × (waiting : List Frame) × (c.arrived ≡ finished ++ waiting)
        × Answered finished c.answers
        × (c.sent ++ drop c.output_offset c.output_buffer ≡ flatten c.answers)
  Reachable-served config b y k c r e p q =
      let l = (Reachable-HoldsIn k r).live c e in
      (
        l.order.finished,
        and_then l.order.current c.pending_requests,
        l.order.arrived,
        l.order.answered,
        l.flows.stream p q,
      )

  encode-pos : (f : Frame) → 0 < length (encode f)
  unfolding encode
  encode-pos f = omega (
    arith,
    length-append (write_u32 (payload_len f.body)) (f.type ∷ (write_u32 f.request_id ++ f.body)),
  )

  queue-destroyed :
      (s : Server) (c : ConnectionState) (err : Frame) (n : ℕ)
      → length (encode err) ≤ n
      → queue_immediate_error_and_close s c err (accepted n) ≡ (close_connection s c.conn_id, none)
  unfolding queue_immediate_error_and_close
  queue-destroyed s c err n h =
      let m = sent_count n (encode err) in
      let l : length (take m (encode err)) ≡ length (encode err) =
        ap length (take_all m (encode err) (omega arith)) in
      let p = encode-pos err in
      let a : ltb 0 (length (take m (encode err))) ≡ true = ground arith in
      let b : (length (take m (encode err)) == length (encode err)) ≡ true = ground arith in
      rw (queue_immediate_error_and_close, a, b) refl

  -- If the input runs into a frame whose length is below that of a header, and the socket takes the
  -- whole error frame at once, the connection is destroyed, and is then written to.
  pub handle_input-dangling :
      (s : Server) (c : ConnectionState) (chunks : List (List ℕ × ℕ)) (out : Frame) (n : ℕ)
      (text : List ℕ)
      → (extract_all
          (suc (length (receive c chunks).assembler.buffer))
          (s, receive c chunks)
          out
          (accepted n)).1
        ≡ error_length_too_small
      → length (encode (protocol_error ErrorCode.malformed_frame text)) ≤ n
      → (s' : Server) × (handle_input s c chunks drained out (accepted n) text ≡ dangling s')
        × (find_conn c.conn_id s'.connections ≡ none)
  unfolding handle_input after_frames after_error close_connection
  handle_input-dangling s c chunks out n text e h =
      let p =
        (extract_all (suc (length (receive c chunks).assembler.buffer)) (s, receive c chunks) out
          (accepted n)).0 in
      let id =
        (extract_all-Extracts s c.conn_id (suc (length (receive c chunks).assembler.buffer))
          (s, receive c chunks) out (accepted n)
          (record {
            touch = refl-Touches c.conn_id s;
            same = refl;
            id = receive-id c chunks;
          })).id in
      let q = queue-destroyed p.0 p.1 (protocol_error ErrorCode.malformed_frame text) n h in
      (
        close_connection p.0 p.1.conn_id,
        rw (handle_input, e) (rw q refl),
        subst (λ i. find_conn c.conn_id (remove_conn i p.0.connections) ≡ none) (sym id)
            (find_conn-remove_conn c.conn_id p.0.connections),
      )
