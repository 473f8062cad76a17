-- ===== src/Wire/FrameAssembler/Parse.antt =====
-- The assembler's contract: what stands in front of a stream of bytes, without offsets and buffers.
use stream_forge.Base.{
  ℕ, ◌+◌, ◌*◌, ◌%◌, ◌^◌, ◌<◌, ◌≤◌, ◌≡◌, refl, sym, ap, ◌∙◌, List, ◌⊎◌, inl, inr, arith, ltb, ◌==◌,
  if◌then◌else◌, length, drop, length-drop, drop_all, drop-add, get_or-drop, Bool-cases, ge→ltb,
  ltb→ge,
}
use stream_forge.Wire.ByteOrder.{ByteOrder}
use stream_forge.Wire.FrameCodec.{Frame, read_u32, header_size, max_frame_length}
use stream_forge.Wire.FrameCodec.RoundTrip.{read_u32-drop}
use stream_forge.Wire.FrameAssembler.{
  FrameAssembler, FrameExtractResult, frame_ready, need_more_data, error_length_too_small,
  error_length_too_large, buffered_bytes, compact_if_needed, frame_at, extract_next_frame,
}

-- What an assembler has received and not yet handed out.
abbrev pub pending : FrameAssembler → List ℕ
pending asm = drop asm.read_offset asm.buffer

-- The read offset is in the buffer, and the buffer fits in memory.
pub record IsAssembler (asm : FrameAssembler) : Type 0 where
  pub inside : asm.read_offset ≤ length asm.buffer
  pub fits : length asm.buffer < 2 ^ 64

-- A frame and the bytes after it, or why there is none.
pub data Parsed : Type 0 where
  ready : Frame → List ℕ → Parsed
  stuck : FrameExtractResult → List ℕ → Parsed

abbrev pub seen : FrameAssembler × Frame × FrameExtractResult → Parsed
seen (asm, frame, frame_ready) = ready frame (pending asm)
seen (asm, frame, need_more_data) = stuck need_more_data (pending asm)
seen (asm, frame, error_length_too_small) = stuck error_length_too_small (pending asm)
seen (asm, frame, error_length_too_large) = stuck error_length_too_large (pending asm)

module _ ⦃net : ByteOrder⦄ where
  unfoldable pub parse : List ℕ → Parsed
  parse bytes =
      let len = read_u32 bytes 0 in
      if ltb (length bytes) 4
      then stuck need_more_data bytes
      else if ltb len header_size
      then stuck error_length_too_small bytes
      else if ltb max_frame_length len
      then stuck error_length_too_large bytes
      else if ltb (length bytes) (4 + len)
      then stuck need_more_data bytes
      else ready (frame_at bytes 0 len) (drop (4 + len) bytes)

compact-pending : (asm : FrameAssembler) → pending (compact_if_needed asm) ≡ pending asm
unfolding compact_if_needed
compact-pending asm = elim (Bool-cases (asm.read_offset == length asm.buffer)) [
  | inl e ↦ rw e (sym (drop_all asm.read_offset asm.buffer (ground arith)))
  | inr e ↦ elim (Bool-cases (ltb (64 * 1024) asm.read_offset)) [
    | inl f ↦ rw (e, f) refl
    | inr f ↦ rw (e, f) refl
  ]
]

compact-IsAssembler : (asm : FrameAssembler) → IsAssembler asm → IsAssembler (compact_if_needed asm)
unfolding compact_if_needed
compact-IsAssembler asm h = elim (Bool-cases (asm.read_offset == length asm.buffer)) [
  | inl e ↦ rw e (record { inside = omega arith; fits = omega arith })
  | inr e ↦ elim (Bool-cases (ltb (64 * 1024) asm.read_offset)) [
    | inl f ↦
        rw (e, f)
          (record {
            inside = omega arith;
            fits = let k = h.fits in omega (arith, length-drop asm.read_offset asm.buffer);
          })
    | inr f ↦ rw (e, f) h
  ]
]

buffered_bytes_lem :
    (asm : FrameAssembler) → IsAssembler asm → buffered_bytes asm ≡ length (pending asm)
unfolding buffered_bytes
buffered_bytes_lem asm h =
    let k = h.inside in let f = h.fits in omega (arith, length-drop asm.read_offset asm.buffer)

module _ ⦃net : ByteOrder⦄ where
  frame_at-drop :
      (n : ℕ) (bytes : List ℕ) (len : ℕ) → frame_at (drop n bytes) 0 len ≡ frame_at bytes n len
  unfolding frame_at
  frame_at-drop n bytes len =
      let e : n + 4 + header_size ≡ n + 9 = omega arith in
      rw (frame_at, get_or-drop n 4 bytes 0, read_u32-drop n 5 bytes, ← drop-add n 9 bytes, e)

  module _ (asm : FrameAssembler) (out : Frame) (h : IsAssembler asm) where
    available : buffered_bytes asm ≡ length (pending asm)
    available = buffered_bytes_lem asm h

    len : ℕ
    len = read_u32 asm.buffer asm.read_offset

    len-pending : read_u32 (pending asm) 0 ≡ len
    unfolding len
    len-pending =
        let k : asm.read_offset + 0 ≡ asm.read_offset = omega arith in
        read_u32-drop asm.read_offset 0 asm.buffer ∙ ap (read_u32 asm.buffer) k

    advanced : FrameAssembler
    advanced = record asm { read_offset = (asm.read_offset + (4 + len)) % 2 ^ 64 }

    past :
        4 + len ≤ length (pending asm)
        → (asm.read_offset + (4 + len)) % 2 ^ 64 ≡ asm.read_offset + (4 + len)
    past e =
        let k = h.inside in let f = h.fits in omega (arith, length-drop asm.read_offset asm.buffer)

    pending-advanced :
        4 + len ≤ length (pending asm) → pending advanced ≡ drop (4 + len) (pending asm)
    unfolding advanced
    pending-advanced e = rw (past e) (drop-add asm.read_offset (4 + len) asm.buffer)

    advanced-IsAssembler : 4 + len ≤ length (pending asm) → IsAssembler advanced
    unfolding advanced
    advanced-IsAssembler e = record {
      inside =
          let k = h.inside in
          let p = past e in omega (arith, length-drop asm.read_offset asm.buffer);
      fits = h.fits;
    }

    whole :
        4 + len ≤ length (pending asm)
        → (ready (frame_at asm.buffer asm.read_offset len) (pending (compact_if_needed advanced))
            ≡ ready (frame_at (pending asm) 0 len) (drop (4 + len) (pending asm)))
          × IsAssembler (compact_if_needed advanced)
    whole e = (
      rw
          (
            compact-pending advanced,
            pending-advanced e,
            frame_at-drop asm.read_offset asm.buffer len,
          )
          refl,
      compact-IsAssembler advanced (advanced-IsAssembler e),
    )

    -- One extraction does to the pending bytes what parsing does to a stream: it hands out the frame
    -- in front and leaves what follows it, or says why there is none and leaves all of them; and
    -- the read offset stays in the buffer.
    pub extract_next_frame-parse :
        (seen (extract_next_frame asm out) ≡ parse (pending asm))
        × IsAssembler (extract_next_frame asm out).0
    unfolding extract_next_frame parse len advanced
    extract_next_frame-parse =
        rw (available, len-pending)
          (elim (Bool-cases (ltb (length (pending asm)) 4)) [
            | inl e ↦ rw e (refl, h)
            | inr e ↦ elim (Bool-cases (ltb len header_size)) [
              | inl f ↦ rw (e, f) (refl, h)
              | inr f ↦ elim (Bool-cases (ltb max_frame_length len)) [
                | inl g ↦ rw (e, f, g) (refl, h)
                | inr g ↦ elim (Bool-cases (ltb (length (pending asm)) (4 + len))) [
                  | inl i ↦ rw (e, f, g, i) (refl, h)
                  | inr i ↦ rw (e, f, g, i) (whole (ltb→ge (length (pending asm)) (4 + len) i))
                ]
              ]
            ]
          ])

  -- A whole frame of an allowed length stands in front.
  pub record Whole (bytes : List ℕ) : Type 0 where
    pub at_least : header_size ≤ read_u32 bytes 0
    pub at_most : read_u32 bytes 0 ≤ max_frame_length
    pub complete : 4 + read_u32 bytes 0 ≤ length bytes

  abbrev pub front : List ℕ → Frame
  front bytes = frame_at bytes 0 (read_u32 bytes 0)

  abbrev pub after_front : List ℕ → List ℕ
  after_front bytes = drop (4 + read_u32 bytes 0) bytes

  pub parse-Whole :
      (bytes : List ℕ) → Whole bytes → parse bytes ≡ ready (front bytes) (after_front bytes)
  unfolding parse
  parse-Whole bytes h =
      let lo = h.at_least in
      let hi = h.at_most in
      let k = h.complete in
      rw
        (
          ge→ltb (length bytes) 4 (omega arith),
          ge→ltb (read_u32 bytes 0) 5 (omega arith),
          ge→ltb max_frame_length (read_u32 bytes 0) (omega arith),
          ge→ltb (length bytes) (4 + read_u32 bytes 0) (omega arith),
        )
        refl

  pub parse-cases :
      (bytes : List ℕ) → ((r : FrameExtractResult) × (parse bytes ≡ stuck r bytes)) ⊎ Whole bytes
  unfolding parse
  parse-cases bytes = elim (Bool-cases (ltb (length bytes) 4)) [
    | inl e ↦ inl (need_more_data, rw e refl)
    | inr e ↦ elim (Bool-cases (ltb (read_u32 bytes 0) header_size)) [
      | inl f ↦ inl (error_length_too_small, rw (e, f) refl)
      | inr f ↦ elim (Bool-cases (ltb max_frame_length (read_u32 bytes 0))) [
        | inl g ↦ inl (error_length_too_large, rw (e, f, g) refl)
        | inr g ↦ elim (Bool-cases (ltb (length bytes) (4 + read_u32 bytes 0))) [
          | inl i ↦ inl (need_more_data, rw (e, f, g, i) refl)
          | inr i ↦ inr (record {
            at_least = ltb→ge (read_u32 bytes 0) header_size f;
            at_most = ltb→ge max_frame_length (read_u32 bytes 0) g;
            complete = ltb→ge (length bytes) (4 + read_u32 bytes 0) i;
          })
        ]
      ]
    ]
  ]

  -- No extraction makes the buffer longer.
  pub extract-buffer :
      (asm : FrameAssembler) (out : Frame)
      → length (extract_next_frame asm out).0.buffer ≤ length asm.buffer
  unfolding extract_next_frame compact_if_needed
  extract-buffer asm out = ground (
    arith,
    length-drop ((asm.read_offset + (4 + read_u32 asm.buffer asm.read_offset)) % 2 ^ 64) asm.buffer,
  )
