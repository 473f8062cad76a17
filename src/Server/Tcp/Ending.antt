-- ===== src/Server/Tcp/Ending.antt =====
-- The end of the loop over the frames that have come in, in `event_loop` of src/TcpServer.cpp.
use stream_forge.Base.{
  ℕ, zero, suc, ◌+◌, ◌<◌, ◌≡◌, refl, sym, ap, ◌∙◌, ◌⊎◌, inl, inr, List, true, ◌==◌, arith,
  Bool-cases, length, length-drop,
}
use stream_forge.Wire.ByteOrder.{ByteOrder}
use stream_forge.Wire.FrameCodec.{Frame, read_u32}
use stream_forge.Wire.FrameAssembler.{
  FrameExtractResult, frame_ready, need_more_data, error_length_too_small, error_length_too_large,
  extract_next_frame,
}
use stream_forge.Wire.FrameAssembler.Parse.{
  pending, IsAssembler, stuck, seen, parse, Whole, after_front, parse-Whole, parse-cases,
  extract_next_frame-parse,
}
use stream_forge.Server.MessageType
use stream_forge.Server.Tcp.{ConnectionState, Server, SendOutcome, request_stop}
use stream_forge.Server.Tcp.Input.{take_request, after_extract, extract_all}

take_request-assembler :
    (s : Server) (c : ConnectionState) (f : Frame)
    → (take_request (s, c) f).1.assembler ≡ c.assembler
unfolding take_request
take_request-assembler s c f = ground arith

module _ ⦃net : ByteOrder⦄ where
  -- A shutdown was asked for, or the result is that of the bytes that are left.
  abbrev Ended : (Server × ConnectionState) × FrameExtractResult → Type 0
  Ended r =
      ((r.1 ≡ frame_ready) × (r.0.0.shutdown_requested ≡ true))
      ⊎ (parse (pending r.0.1.assembler) ≡ stuck r.1 (pending r.0.1.assembler))

  stuck-Ended :
      (s : Server) (c : ConnectionState) (bytes : List ℕ) (res : FrameExtractResult)
      → stuck res (pending c.assembler) ≡ parse bytes
      → Ended ((s, c), res)
  stuck-Ended s c bytes res e = elim (parse-cases bytes) [
    | inl (r, d) ↦ let left : pending c.assembler ≡ bytes = cc in inr (ap parse left ∙ sym e)
    | inr w ↦ absurd (let k = parse-Whole bytes w in cc)
  ]

  after_extract-Ended :
      (next : Server × ConnectionState → Frame → (Server × ConnectionState) × FrameExtractResult)
      (s : Server) (c : ConnectionState) (send : SendOutcome) (frame : Frame)
      (res : FrameExtractResult) (bytes : List ℕ)
      → seen (c.assembler, frame, res) ≡ parse bytes
      → (Whole bytes
          → pending c.assembler ≡ after_front bytes
          → (p : Server × ConnectionState) → p.1.assembler ≡ c.assembler
          → Ended (next p frame))
      → Ended (after_extract next s c send frame res)
  unfolding after_extract request_stop
  after_extract-Ended next s c send frame frame_ready bytes e go =
      elim (Bool-cases (frame.type == MessageType.shutdown)) [
        | inl t ↦ rw (after_extract, t) (inl (refl, refl))
        | inr t ↦
            rw (after_extract, t)
              (elim (parse-cases bytes) [
                | inl (r, d) ↦ absurd cc
                | inr w ↦
                    let k = parse-Whole bytes w in
                    let left : pending c.assembler ≡ after_front bytes = cc in
                    go w left (take_request (s, c) frame) (take_request-assembler s c frame)
              ])
      ]
  after_extract-Ended next s c send frame need_more_data bytes e go =
      stuck-Ended s c bytes need_more_data e
  after_extract-Ended next s c send frame error_length_too_small bytes e go =
      stuck-Ended s c bytes error_length_too_small e
  after_extract-Ended next s c send frame error_length_too_large bytes e go =
      stuck-Ended s c bytes error_length_too_large e

  extract_all-Ended :
      (fuel : ℕ) (s : Server) (c : ConnectionState) (out : Frame) (send : SendOutcome)
      → IsAssembler c.assembler
      → length (pending c.assembler) < fuel
      → Ended (extract_all fuel (s, c) out send)
  unfolding extract_all
  extract_all-Ended zero s c out send inv h = absurd (omega arith)
  extract_all-Ended (suc fuel) s c out send inv h =
      let x = extract_next_frame c.assembler out in
      let p = extract_next_frame-parse c.assembler out inv in
      after_extract-Ended (λ q f. extract_all fuel q f send) s (record c { assembler = x.0 }) send
        x.1 x.2 (pending c.assembler) p.0
        (λ w left q same.
          let k = w.complete in
          extract_all-Ended fuel q.0 q.1 x.1 send (rw same p.1) (
            rw (same, left)
              (omega
                (arith, length-drop (4 + read_u32 (pending c.assembler) 0) (pending c.assembler)))))

  -- The loop comes to its end by itself: it has met a shutdown request, or its result is the one to
  -- which the bytes that are left parse, with no complete frame in front of them.
  pub extract_all-ends :
      (s : Server) (c : ConnectionState) (out : Frame) (send : SendOutcome)
      → IsAssembler c.assembler
      → ((extract_all (suc (length c.assembler.buffer)) (s, c) out send).1 ≡ frame_ready)
          × ((extract_all (suc (length c.assembler.buffer)) (s, c) out send).0.0.shutdown_requested
              ≡ true)
        ⊎ (parse (
              pending (extract_all (suc (length c.assembler.buffer)) (s, c) out send).0.1.assembler)
            ≡ stuck (extract_all (suc (length c.assembler.buffer)) (s, c) out send).1 (
                pending
                  (extract_all (suc (length c.assembler.buffer)) (s, c) out send).0.1.assembler))
  extract_all-ends s c out send inv =
      extract_all-Ended (suc (length c.assembler.buffer)) s c out send inv
        (omega (arith, length-drop c.assembler.read_offset c.assembler.buffer))
