-- ===== src/Server/Tcp/Turn.antt =====
-- One connection of src/TcpServer.cpp after a turn of the event loop for it or for another one.
use stream_forge.Base.{
  ℕ, suc, ◌≤◌, ◌≡◌, ◌≢◌, refl, ap, ◌∙◌, subst, inl, inr, List, [], ◌∷◌, ◌&&◌, some, ltb, ◌==◌,
  arith, Bool-cases, length, length-take,
}
use stream_forge.Wire.ByteOrder.{ByteOrder}
use stream_forge.Wire.FrameCodec.{Frame, encode}
use stream_forge.Wire.FrameAssembler.{
  FrameExtractResult, frame_ready, need_more_data, error_length_too_small, error_length_too_large,
  push_bytes,
}
use stream_forge.Server.Tcp.{
  Task, Completion, ConnectionState, Server, SendOutcome, accepted, would_block, failed, sent_count,
  find_conn, update_conn,
}
use stream_forge.Server.Tcp.Input.{
  handle_output, RecvEnd, drained, disconnected, receive, InputOutcome, kept, to_close, dangling,
  sent_once, extract_all, queue_immediate_error_and_close, after_error, after_frames, handle_input,
}
use stream_forge.Server.Tcp.Lines.{
  find_conn-id, find_conn-set_conn, Touches, refl-Touches, trans-Touches, update_conn-Touches,
}
use stream_forge.Server.Tcp.Order.{quiet-InOrder}
use stream_forge.Server.Tcp.Flow.{send_output-Sends}
use stream_forge.Server.Tcp.Keeping.{Holds, Touches-Holds, there-lt, there-Holds}
use stream_forge.Server.Tcp.Reading.{
  Extracts, Ready, receive-id, send_output-id, extract_all-Extracts, extract_all-Ready,
}

module _ ⦃net : ByteOrder⦄ (k : ℕ) (working : List Task) (comps : List Completion) where
  -- The connection that was read from is put back into the map.
  put_back-Holds :
      (i : ℕ) (s s1 : Server) (c1 d c' : ConnectionState)
      → find_conn i s.connections ≡ some d
      → Extracts i s (s1, c1)
      → c'.conn_id ≡ i
      → (i ≡ k → Ready k working comps (s1, c'))
      → Holds k s working comps
      → Holds k (update_conn s1 c') working comps
  unfolding update_conn
  put_back-Holds i s s1 c1 d c' e x id l h = elim (Bool-cases (i == k)) [
    | inl j ↦
        let m : i ≡ k = ground arith in
        let e' : find_conn k s.connections ≡ some d =
          subst (λ y. find_conn y s.connections ≡ some d) m e in
        there-Holds k _ working comps c'
          (λ p. there-lt k s working comps d h e' (rw x.touch.next at p))
          (find_conn-set_conn k s1.connections c' d (id ∙ m) (ap (find_conn k) x.same ∙ e'))
          (record { order = (l m).order; flows = (l m).flows })
    | inr j ↦
        let m : i ≢ k = ground arith in
        Touches-Holds k working comps m
          (trans-Touches x.touch
            (subst (λ y. Touches y s1 (update_conn s1 c')) id (update_conn-Touches s1 c')))
          h
  ]

  -- Where the program goes on.
  abbrev pub Keeps : Server → InputOutcome → Type 0
  Keeps s0 (kept s) = Holds k s working comps × (s.completions ≡ s0.completions)
  Keeps s0 (to_close s) = Holds k s working comps × (s.completions ≡ s0.completions)
  Keeps s0 (dangling s) = Unit {0}

  put_back-Keeps :
      (i : ℕ) (s s1 : Server) (c1 d c' : ConnectionState)
      → find_conn i s.connections ≡ some d
      → Extracts i s (s1, c1)
      → c'.conn_id ≡ i
      → (i ≡ k → Ready k working comps (s1, c'))
      → Holds k s working comps
      → Holds k (update_conn s1 c') working comps
        × ((update_conn s1 c').completions ≡ s.completions)
  unfolding update_conn
  put_back-Keeps i s s1 c1 d c' e x id l h =
      (put_back-Holds i s s1 c1 d c' e x id l h, x.touch.completions)

  length-sent_once :
      (send : SendOutcome) (bytes : List ℕ) → length (sent_once send bytes) ≤ length bytes
  length-sent_once (accepted n) bytes = omega (arith, length-take (sent_count n bytes) bytes)
  length-sent_once would_block bytes = omega arith
  length-sent_once failed bytes = omega arith

  error-Keeps :
      (i : ℕ) (s s1 : Server) (c1 d : ConnectionState) (err : Frame) (send : SendOutcome)
      → find_conn i s.connections ≡ some d
      → Extracts i s (s1, c1)
      → (i ≡ k → Ready k working comps (s1, c1))
      → Holds k s working comps
      → Keeps s (after_error (queue_immediate_error_and_close s1 c1 err send))
  unfolding after_error queue_immediate_error_and_close
  error-Keeps i s s1 c1 d err send e x l h =
      let encoded = encode err in
      let sent = sent_once send encoded in
      elim (Bool-cases (ltb 0 (length sent) && length sent == length encoded)) [
        | inl q ↦ rw (queue_immediate_error_and_close, q) tt
        | inr q ↦
            rw (queue_immediate_error_and_close, q)
              (put_back-Keeps i s s1 c1 d _ e x x.id
                (λ j. record {
                  order = quiet-InOrder (l j).order refl refl refl refl;
                  flows = record {
                    offset = length-sent_once send encoded;
                    stream = λ a b. absurd cc;
                  };
                })
                h)
      ]

  after_frames-Keeps :
      (i : ℕ) (s s1 : Server) (c1 d : ConnectionState) (res : FrameExtractResult)
      (send : SendOutcome) (text : List ℕ)
      → find_conn i s.connections ≡ some d
      → Extracts i s (s1, c1)
      → (i ≡ k → Ready k working comps (s1, c1))
      → Holds k s working comps
      → Keeps s (after_frames s1 c1 res send text)
  unfolding after_frames after_error
  after_frames-Keeps i s s1 c1 d error_length_too_small send text e x l h =
      error-Keeps i s s1 c1 d _ send e x l h
  after_frames-Keeps i s s1 c1 d error_length_too_large send text e x l h =
      error-Keeps i s s1 c1 d _ send e x l h
  after_frames-Keeps i s s1 c1 d frame_ready send text e x l h =
      put_back-Keeps i s s1 c1 d _ e x x.id
        (λ j. record {
          order = quiet-InOrder (l j).order refl refl refl refl;
          flows = record { offset = (l j).flows.offset; stream = (l j).flows.stream };
        })
        h
  after_frames-Keeps i s s1 c1 d need_more_data send text e x l h =
      put_back-Keeps i s s1 c1 d _ e x x.id
        (λ j. record {
          order = quiet-InOrder (l j).order refl refl refl refl;
          flows = record { offset = (l j).flows.offset; stream = (l j).flows.stream };
        })
        h

  receive-Ready :
      (s : Server) (c : ConnectionState) (chunks : List (List ℕ × ℕ))
      → Ready k working comps (s, c)
      → Ready k working comps (s, receive c chunks)
  unfolding receive
  receive-Ready s c [] l = l
  receive-Ready s c ((bytes, now) ∷ chunks) l =
      receive-Ready s (record c { assembler = push_bytes c.assembler bytes; last_read_time = now })
        chunks
        (record {
          order = quiet-InOrder l.order refl refl refl refl;
          flows = record { offset = l.flows.offset; stream = l.flows.stream };
        })

  pub handle_input-Keeps :
      (i : ℕ) (s : Server) (c : ConnectionState) (chunks : List (List ℕ × ℕ)) (end : RecvEnd)
      (out : Frame) (send : SendOutcome) (text : List ℕ)
      → find_conn i s.connections ≡ some c
      → Holds k s working comps
      → Keeps s (handle_input s c chunks end out send text)
  unfolding handle_input
  handle_input-Keeps i s c chunks end out send text e h =
      let id = receive-id c chunks ∙ find_conn-id i s.connections c e in
      let x0 : Extracts i s (s, receive c chunks) = record {
        touch = refl-Touches i s;
        same = refl;
        id = id;
      } in
      let l0 : i ≡ k → Ready k working comps (s, receive c chunks) = λ j.
        receive-Ready s c chunks (h.live c (subst (λ y. find_conn y s.connections ≡ some c) j e)) in
      elim end as (λ z. Keeps s (handle_input s c chunks z out send text)) [
        | disconnected ↦ put_back-Keeps i s s _ c (receive c chunks) e x0 id l0 h
        | drained ↦
            let fuel = suc (length (receive c chunks).assembler.buffer) in
            let p = extract_all fuel (s, receive c chunks) out send in
            after_frames-Keeps i s p.0.0 p.0.1 c p.1 send text e
              (extract_all-Extracts s i fuel (s, receive c chunks) out send x0)
              (λ j.
                extract_all-Ready k working comps s fuel (s, receive c chunks) out send
                  (subst (λ y. Extracts y s (s, receive c chunks)) j x0) (l0 j))
              h
      ]

  pub handle_output-Keeps :
      (i : ℕ) (s : Server) (c : ConnectionState) (outcome : SendOutcome)
      → find_conn i s.connections ≡ some c
      → Holds k s working comps
      → Holds k (handle_output s c outcome).0 working comps
        × ((handle_output s c outcome).0.completions ≡ s.completions)
  unfolding handle_output
  handle_output-Keeps i s c outcome e h =
      let id = find_conn-id i s.connections c e in
      put_back-Keeps i s s c c _ e (record { touch = refl-Touches i s; same = refl; id = id })
        (send_output-id c outcome ∙ id)
        (λ j.
          let l = h.live c (subst (λ y. find_conn y s.connections ≡ some c) j e) in
          let w = send_output-Sends s.shutdown_requested c outcome l.flows in
          record {
            order = quiet-InOrder l.order w.flag w.pending w.arrived w.answers;
            flows = w.flows;
          })
        h
