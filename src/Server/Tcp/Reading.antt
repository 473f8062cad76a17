-- ===== src/Server/Tcp/Reading.antt =====
-- What the input and the output of src/TcpServer.cpp's event loop do to one connection.
use stream_forge.Base.{
  ℕ, zero, suc, ◌≡◌, refl, sym, subst, inl, inr, List, [], ◌∷◌, ◌++◌, true, ◌==◌, arith, Bool-cases,
}
use stream_forge.Wire.ByteOrder.{ByteOrder}
use stream_forge.Wire.FrameCodec.{Frame}
use stream_forge.Wire.FrameAssembler.{
  FrameExtractResult, frame_ready, need_more_data, error_length_too_small, error_length_too_large,
  FrameAssembler, push_bytes, extract_next_frame,
}
use stream_forge.Server.MessageType
use stream_forge.Server.Tcp.{
  Task, Completion, ConnectionState, Server, SendOutcome, accepted, would_block, failed, enqueue,
  request_stop,
}
use stream_forge.Server.Tcp.Input.{send_output, receive, take_request, after_extract, extract_all}
use stream_forge.Server.Tcp.Lines.{
  requests_of, responses_of, Touches, trans-Touches, enqueue-Touches, enqueue_here,
}
use stream_forge.Server.Tcp.Order.{InOrder, quiet-InOrder}
use stream_forge.Server.Tcp.Requests.{wait-InOrder, go-InOrder}
use stream_forge.Server.Tcp.Keeping.{Line}

-- A connection that has been read from, and the server, in which it has not been put back yet.
pub record Extracts (i : ℕ) (s : Server) (p : Server × ConnectionState) : Type 0 where
  pub touch : Touches i s p.0
  pub same : p.0.connections ≡ s.connections
  pub id : p.1.conn_id ≡ i

take_request-Extracts :
    (i : ℕ) (s0 : Server) (s : Server) (c : ConnectionState) (f : Frame)
    → Extracts i s0 (s, c)
    → Extracts i s0 (take_request (s, c) f)
unfolding take_request enqueue
take_request-Extracts i s0 s c f h = elim (Bool-cases c.in_flight) [
  | inl e ↦ rw (take_request, e) (record { touch = h.touch; same = h.same; id = h.id })
  | inr e ↦
      let t : Task = record { conn_id = c.conn_id; request = f } in
      rw (take_request, e)
        (record {
          touch =
              trans-Touches h.touch
                (subst (λ j. Touches j s (enqueue s t)) h.id (enqueue-Touches s t));
          same = h.same;
          id = h.id;
        })
]

pub receive-id :
    (c : ConnectionState) (chunks : List (List ℕ × ℕ)) → (receive c chunks).conn_id ≡ c.conn_id
unfolding receive
receive-id c [] = refl
receive-id c ((bytes, now) ∷ chunks) =
    receive-id (record c { assembler = push_bytes c.assembler bytes; last_read_time = now }) chunks

pub send_output-id :
    (c : ConnectionState) (outcome : SendOutcome) → (send_output c outcome).0.conn_id ≡ c.conn_id
unfolding send_output
send_output-id c failed = refl
send_output-id c would_block = refl
send_output-id c (accepted n) = ground arith

request_stop-Touches : (i : ℕ) (s : Server) → Touches i s (request_stop s)
unfolding request_stop
request_stop-Touches i s = record {
  next = refl;
  completions = refl;
  running = λ h. absurd cc;
  conns = λ k n. refl;
  tasks = λ k n. refl;
}

module _ ⦃net : ByteOrder⦄ where
  -- A connection that is not in the server's map at the moment.
  abbrev pub Ready : ℕ → List Task → List Completion → Server × ConnectionState → Type 0
  Ready k working comps p =
      Line (requests_of k p.0.tasks) (requests_of k working) (responses_of k comps)
        p.0.shutdown_requested p.1

  take_request-Ready :
      (k : ℕ) (working : List Task) (comps : List Completion) (s : Server) (c : ConnectionState)
      (f : Frame)
      → c.conn_id ≡ k
      → Ready k working comps (s, c)
      → Ready k working comps (take_request (s, c) f)
  unfolding take_request enqueue
  take_request-Ready k working comps s c f i l = elim (Bool-cases c.in_flight) [
    | inl e ↦
        rw (take_request, e)
          (record {
            order = quiet-InOrder (wait-InOrder _ _ _ c f e l.order) (sym e) refl refl refl;
            flows = record { offset = l.flows.offset; stream = l.flows.stream };
          })
    | inr e ↦
        let c' : ConnectionState = record c { in_flight = true; arrived = c.arrived ++ (f ∷ []) } in
        rw (take_request, e)
          (record {
            order =
                subst (λ ts. InOrder ts (requests_of k working) (responses_of k comps) c')
                  (sym (enqueue_here s (record { conn_id = c.conn_id; request = f }) k i))
                  (go-InOrder _ _ _ c f e l.order);
            flows = record { offset = l.flows.offset; stream = l.flows.stream };
          })
  ]

  -- What each thing that the loop does keeps, the loop keeps.
  module _ {ℓ} (P : Server × ConnectionState → Type ℓ) (send : SendOutcome)
      (moved : (s : Server) (c : ConnectionState) (asm : FrameAssembler)
        → P (s, c)
        → P (s, record c { assembler = asm }))
      (stopped : (s : Server) (c : ConnectionState) (bytes : List ℕ)
        → P (s, c)
        → P (request_stop s, record c { sent = c.sent ++ bytes }))
      (taken : (s : Server) (c : ConnectionState) (f : Frame)
        → P (s, c)
        → P (take_request (s, c) f)) where
    after_extract-keeps :
        (next : Server × ConnectionState → Frame → (Server × ConnectionState) × FrameExtractResult)
        (s : Server) (c : ConnectionState) (frame : Frame) (res : FrameExtractResult)
        → ((p : Server × ConnectionState) (f : Frame) → P p → P (next p f).0)
        → P (s, c)
        → P (after_extract next s c send frame res).0
    unfolding after_extract
    after_extract-keeps next s c frame frame_ready n h =
        elim (Bool-cases (frame.type == MessageType.shutdown)) [
          | inl e ↦ rw (after_extract, e) (stopped s c _ h)
          | inr e ↦ rw (after_extract, e) (n _ frame (taken s c frame h))
        ]
    after_extract-keeps next s c frame need_more_data n h = h
    after_extract-keeps next s c frame error_length_too_small n h = h
    after_extract-keeps next s c frame error_length_too_large n h = h

    extract_all-keeps :
        (fuel : ℕ) (p : Server × ConnectionState) (out : Frame)
        → P p
        → P (extract_all fuel p out send).0
    unfolding extract_all
    extract_all-keeps zero p out h = h
    extract_all-keeps (suc fuel) (s, c) out h =
        after_extract-keeps (λ q f. extract_all fuel q f send) s _ _
          (extract_next_frame c.assembler out).2 (λ q f. extract_all-keeps fuel q f)
          (moved s c (extract_next_frame c.assembler out).0 h)

  pub extract_all-Extracts :
      (s0 : Server) (i fuel : ℕ) (p : Server × ConnectionState) (out : Frame) (send : SendOutcome)
      → Extracts i s0 p
      → Extracts i s0 (extract_all fuel p out send).0
  unfolding request_stop
  extract_all-Extracts s0 i fuel p out send =
      extract_all-keeps (Extracts i s0) send
        (λ s c asm h. record { touch = h.touch; same = h.same; id = h.id })
        (λ s c bytes h. record {
          touch = trans-Touches h.touch (request_stop-Touches i s);
          same = h.same;
          id = h.id;
        })
        (λ s c f h. take_request-Extracts i s0 s c f h) fuel p out

  pub extract_all-Ready :
      (k : ℕ) (working : List Task) (comps : List Completion) (s0 : Server) (fuel : ℕ)
      (p : Server × ConnectionState) (out : Frame) (send : SendOutcome)
      → Extracts k s0 p
      → Ready k working comps p
      → Ready k working comps (extract_all fuel p out send).0
  unfolding request_stop
  extract_all-Ready k working comps s0 fuel p out send x l =
      (extract_all-keeps (λ q. Extracts k s0 q × Ready k working comps q) send
        (λ s c asm h. (
          record { touch = h.0.touch; same = h.0.same; id = h.0.id },
          record {
            order = quiet-InOrder h.1.order refl refl refl refl;
            flows = record { offset = h.1.flows.offset; stream = h.1.flows.stream };
          },
        ))
        (λ s c bytes h. (
          record {
            touch = trans-Touches h.0.touch (request_stop-Touches k s);
            same = h.0.same;
            id = h.0.id;
          },
          record {
            order = quiet-InOrder h.1.order refl refl refl refl;
            flows = record { offset = h.1.flows.offset; stream = λ a b. absurd cc };
          },
        ))
        (λ s c f h. (
          take_request-Extracts k s0 s c f h.0,
          take_request-Ready k working comps s c f h.0.id h.1,
        ))
        fuel p out (x, l)).1
