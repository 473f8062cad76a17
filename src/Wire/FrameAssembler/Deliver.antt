-- ===== src/Wire/FrameAssembler/Deliver.antt =====
-- The loop that src/TcpServer.cpp runs over an assembler: chunks are pushed as they arrive, and frames
-- are taken out as long as one is ready.
use stream_forge.Base.{
  ℕ, zero, suc, ◌+◌, ◌^◌, ◌<◌, ◌≤◌, ◌≡◌, refl, sym, subst, List, [], ◌∷◌, ◌++◌, inl, inr, arith,
  length, flatten, All, length-append, length-drop, drop-append_le, append_assoc, append-nil,
}
use stream_forge.Wire.ByteOrder.{ByteOrder}
use stream_forge.Wire.FrameCodec.{Frame, read_u32}
use stream_forge.Wire.FrameCodec.RoundTrip.{IsFrame}
use stream_forge.Wire.FrameAssembler.{
  FrameAssembler, FrameExtractResult, frame_ready, need_more_data, error_length_too_small,
  error_length_too_large, extract_next_frame, push_bytes, new_assembler,
}
use stream_forge.Wire.FrameAssembler.Parse.{
  pending, IsAssembler, ready, stuck, seen, parse, Whole, front, after_front, parse-Whole,
  parse-cases, extract_next_frame-parse, extract-buffer,
}
use stream_forge.Wire.FrameAssembler.Stream.{
  Splits, stop, next, Splits-append, Splits-functional, Splits-encode_all, encode_all,
}

no_frame : Frame
no_frame = record { length = 0; type = 0; request_id = 0; body = [] }

module _ ⦃net : ByteOrder⦄ where
  -- The callers' loop, which runs as long as a frame is ready: the assembler, the frames that it
  -- handed out and the result that ended it.
  follow :
      (FrameAssembler → Frame → FrameAssembler × List Frame × FrameExtractResult)
      → FrameAssembler × Frame × FrameExtractResult
      → FrameAssembler × List Frame × FrameExtractResult
  follow rest (asm, frame, frame_ready) =
      let (asm', fs, r) = rest asm frame in (asm', frame ∷ fs, r)
  follow rest (asm, frame, r) = (asm, [], r)

  pub drain : ℕ → FrameAssembler → Frame → FrameAssembler × List Frame × FrameExtractResult
  unfolding follow
  drain zero asm out = (asm, [], frame_ready)
  drain (suc n) asm out = follow (drain n) (extract_next_frame asm out)

  -- What draining the pending `bytes` gives, in a buffer of `size` bytes at most.
  record Drained (bytes : List ℕ) (size : ℕ) (x : FrameAssembler × List Frame × FrameExtractResult)
      : Type 0 where
    splits : Splits bytes x.1 (pending x.0)
    invariant : IsAssembler x.0
    bounded : length x.0.buffer ≤ size

  follow-ready :
      (rest : FrameAssembler → Frame → FrameAssembler × List Frame × FrameExtractResult)
      (asm : FrameAssembler) (frame : Frame) (bytes : List ℕ) (size : ℕ)
      → ready frame (pending asm) ≡ parse bytes
      → (Whole bytes → Drained (pending asm) size (rest asm frame))
      → Drained bytes size (follow rest (asm, frame, frame_ready))
  unfolding follow
  follow-ready rest asm frame bytes size e h = elim (parse-cases bytes) [
    | inl (r, d) ↦ absurd cc
    | inr w ↦
        let k = parse-Whole bytes w in
        let same : frame ≡ front bytes = cc in
        let left : pending asm ≡ after_front bytes = cc in
        let d = h w in
        record {
          splits =
              subst (λ f. Splits bytes (f ∷ (rest asm frame).1) (pending (rest asm frame).0))
                (sym same) (next w (rw left at d.splits));
          invariant = d.invariant;
          bounded = d.bounded;
        }
  ]

  follow-stuck :
      (asm : FrameAssembler) (r : FrameExtractResult) (bytes : List ℕ) (size : ℕ)
      → stuck r (pending asm) ≡ parse bytes
      → IsAssembler asm
      → length asm.buffer ≤ size
      → Drained bytes size (asm, [], r)
  follow-stuck asm r bytes size e inv h = elim (parse-cases bytes) [
    | inl (s, d) ↦
        let left : pending asm ≡ bytes = cc in
        record { splits = rw left (stop s d); invariant = inv; bounded = h }
    | inr w ↦ let k = parse-Whole bytes w in absurd cc
  ]

  follow-Drained :
      (rest : FrameAssembler → Frame → FrameAssembler × List Frame × FrameExtractResult)
      (x : FrameAssembler × Frame × FrameExtractResult) (bytes : List ℕ) (size : ℕ)
      → seen x ≡ parse bytes
      → IsAssembler x.0
      → length x.0.buffer ≤ size
      → (Whole bytes → pending x.0 ≡ after_front bytes → Drained (pending x.0) size (rest x.0 x.1))
      → Drained bytes size (follow rest x)
  unfolding follow
  follow-Drained rest (asm, frame, frame_ready) bytes size e inv h go =
      follow-ready rest asm frame bytes size e (λ w. go w (let k = parse-Whole bytes w in cc))
  follow-Drained rest (asm, frame, need_more_data) bytes size e inv h go =
      follow-stuck asm need_more_data bytes size e inv h
  follow-Drained rest (asm, frame, error_length_too_small) bytes size e inv h go =
      follow-stuck asm error_length_too_small bytes size e inv h
  follow-Drained rest (asm, frame, error_length_too_large) bytes size e inv h go =
      follow-stuck asm error_length_too_large bytes size e inv h

  -- As many rounds as there are pending bytes, and one more, are enough.
  drain-Drained :
      (n : ℕ) (asm : FrameAssembler) (out : Frame) (size : ℕ)
      → IsAssembler asm
      → length asm.buffer ≤ size
      → length (pending asm) < n
      → Drained (pending asm) size (drain n asm out)
  unfolding drain follow
  drain-Drained zero asm out size inv h f = absurd (omega arith)
  drain-Drained (suc n) asm out size inv h f =
      let p = extract_next_frame-parse asm out inv in
      let b = extract-buffer asm out in
      follow-Drained (drain n) (extract_next_frame asm out) (pending asm) size p.0 p.1 (omega arith)
        (λ w e.
          let c = w.complete in
          drain-Drained n (extract_next_frame asm out).0 (extract_next_frame asm out).1 size p.1
            (omega arith)
            (rw e (omega (arith, length-drop (4 + read_u32 (pending asm) 0) (pending asm)))))

  -- Chunks as they arrive: each is pushed, and all frames that are ready are taken out.
  pub deliver : FrameAssembler → List (List ℕ) → FrameAssembler × List Frame
  deliver asm [] = (asm, [])
  deliver asm (chunk ∷ chunks) =
      let pushed = push_bytes asm chunk in
      let (asm', fs, r) = drain (suc (length pushed.buffer)) pushed no_frame in
      let (asm'', gs) = deliver asm' chunks in (asm'', fs ++ gs)

  push-pending :
      (asm : FrameAssembler) (bytes : List ℕ)
      → IsAssembler asm
      → pending (push_bytes asm bytes) ≡ pending asm ++ bytes
  unfolding push_bytes
  push-pending asm bytes inv = drop-append_le asm.read_offset asm.buffer bytes inv.inside

  push-IsAssembler :
      (asm : FrameAssembler) (bytes : List ℕ)
      → IsAssembler asm
      → length asm.buffer + length bytes < 2 ^ 64
      → IsAssembler (push_bytes asm bytes)
  unfolding push_bytes
  push-IsAssembler asm bytes inv h =
      let k = inv.inside in
      record {
        inside = omega (arith, length-append asm.buffer bytes);
        fits = omega (arith, length-append asm.buffer bytes);
      }

  Splits-end : {bytes rest : List ℕ} {fs : List Frame} → Splits bytes fs rest → Splits rest [] rest
  Splits-end (stop r e) = stop r e
  Splits-end (next w s) = Splits-end s

  deliver-Splits :
      (asm : FrameAssembler) (chunks : List (List ℕ))
      → IsAssembler asm
      → length asm.buffer + length (flatten chunks) < 2 ^ 64
      → Splits (pending asm) [] (pending asm)
      → Splits
          (pending asm ++ flatten chunks)
          (deliver asm chunks).1
          (pending (deliver asm chunks).0)
  unfolding deliver
  deliver-Splits asm [] inv h s = rw append-nil s
  deliver-Splits asm (chunk ∷ chunks) inv h s =
      let pushed : FrameAssembler = push_bytes asm chunk in
      let size : length pushed.buffer ≡ length asm.buffer + length chunk =
        unfold push_bytes in length-append asm.buffer chunk in
      let all : length (flatten (chunk ∷ chunks)) ≡ length chunk + length (flatten chunks) =
        length-append chunk (flatten chunks) in
      let d =
        drain-Drained (suc (length pushed.buffer)) pushed no_frame (length pushed.buffer)
          (push-IsAssembler asm chunk inv (omega arith)) (omega arith)
          (omega (arith, length-drop pushed.read_offset pushed.buffer)) in
      let d' : Splits (pending asm ++ chunk) (drain (suc (length pushed.buffer)) pushed no_frame).1
          (pending (drain (suc (length pushed.buffer)) pushed no_frame).0) =
        rw (push-pending asm chunk inv) at d.splits in
      let b = d.bounded in
      rw (← append_assoc (pending asm) chunk (flatten chunks)) (
        Splits-append (flatten chunks) d' (
          deliver-Splits (drain (suc (length pushed.buffer)) pushed no_frame).0 chunks d.invariant
            (omega arith) (Splits-end d')))

  nothing : parse [] ≡ stuck need_more_data []
  unfolding parse
  nothing = refl

  -- Valid frames, sent one after another and then perhaps the beginning of one more, come out of a
  -- new assembler as they are and in their order, however the stream is cut into chunks; the
  -- beginning stays in the assembler. The stream is shorter than 2 ^ 64 bytes.
  pub deliver-encode_all :
      (fs : List Frame) (tail : List ℕ) (chunks : List (List ℕ))
      → All IsFrame fs
      → parse tail ≡ stuck need_more_data tail
      → flatten chunks ≡ encode_all fs ++ tail
      → length (flatten chunks) < 2 ^ 64
      → ((deliver new_assembler chunks).1 ≡ fs) × (pending (deliver new_assembler chunks).0 ≡ tail)
  deliver-encode_all fs tail chunks h e cut small =
      Splits-functional
        (rw cut at (
          deliver-Splits new_assembler chunks (record { inside = omega arith; fits = omega arith })
            (omega arith) (stop {bytes = []} need_more_data nothing)))
        (Splits-encode_all fs tail need_more_data h e)
