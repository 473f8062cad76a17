-- ===== src/Wire/Body/RoundTrip.antt =====
-- What the writer of include/streamforge/BodyReaderWriter.hpp has written is read back.
use stream_forge.Base.{
  ℕ, ◌+◌, ◌*◌, ◌/◌, ◌%◌, ◌^◌, ◌<◌, ◌≤◌, ◌≡◌, refl, sym, ap, ◌∙◌, List, ◌++◌, some, arith, ltb,
  ge→ltb, false, length, drop, length-append, length-drop, drop-add, drop-length_append,
  take-length_append, append_assoc,
}
use stream_forge.Wire.ByteOrder.{ByteOrder}
use stream_forge.Wire.FrameCodec.{byte_at, max_frame_length}
use stream_forge.Wire.FrameCodec
use stream_forge.Wire.FrameCodec.RoundTrip.{
  read_u32-write_u32, read_u16-write_u16, read_u32-drop, read_u16-drop, length-write_u32,
  length-write_u16,
}
use stream_forge.Wire.Body.{
  BodyReader, remaining, advance, read_u16, read_u32, read_u64, read_range, read_string, read_bytes,
  string_after, bytes_after, write_u16, write_string,
}

-- The bytes from the cursor on.
pub record Ahead (r : BodyReader) (bytes : List ℕ) : Type 0 where
  pub inside : r.cursor ≤ length r.bytes
  pub rest : drop r.cursor r.bytes ≡ bytes

pub remaining_lem : (r : BodyReader) (bytes : List ℕ) → Ahead r bytes → remaining r ≡ length bytes
unfolding remaining
remaining_lem r bytes h =
    let k = h.inside in
    let l = length-drop r.cursor r.bytes in let e = ap length h.rest in ground arith

pub advance-Ahead :
    (r : BodyReader) (xs rest : List ℕ) (n : ℕ)
    → Ahead r (xs ++ rest)
    → length xs ≡ n
    → Ahead (advance r n) rest
advance-Ahead r xs rest n h e =
    let k = h.inside in
    let l = length-drop r.cursor r.bytes in
    let m = ap length h.rest in
    record {
      inside = omega (arith, length-append xs rest);
      rest =
          drop-add r.cursor n r.bytes
          ∙ ap (drop n) h.rest
          ∙ ap (λ k. drop k (xs ++ rest)) (sym e)
          ∙ drop-length_append xs rest;
    }

enough :
    (r : BodyReader) (xs rest : List ℕ) (n : ℕ)
    → Ahead r (xs ++ rest)
    → length xs ≡ n
    → ltb (remaining r) n ≡ false
enough r xs rest n h e =
    ge→ltb (remaining r) n (omega (arith, remaining_lem r (xs ++ rest) h, length-append xs rest))

module _ ⦃net : ByteOrder⦄ where
  u32-Ahead :
      (r : BodyReader) (v : ℕ) (rest : List ℕ)
      → v < 2 ^ 32
      → Ahead r (FrameCodec.write_u32 v ++ rest)
      → FrameCodec.read_u32 r.bytes r.cursor ≡ v
  u32-Ahead r v rest lt h =
      let z : r.cursor + 0 ≡ r.cursor = omega arith in
      sym (read_u32-drop r.cursor 0 r.bytes ∙ ap (FrameCodec.read_u32 r.bytes) z)
      ∙ ap (λ b. FrameCodec.read_u32 b 0) h.rest
      ∙ read_u32-write_u32 v rest lt

  u16-Ahead :
      (r : BodyReader) (v : ℕ) (rest : List ℕ)
      → v < 2 ^ 16
      → Ahead r (FrameCodec.write_u16 v ++ rest)
      → FrameCodec.read_u16 r.bytes r.cursor ≡ v
  u16-Ahead r v rest lt h =
      let z : r.cursor + 0 ≡ r.cursor = omega arith in
      sym (read_u16-drop r.cursor 0 r.bytes ∙ ap (FrameCodec.read_u16 r.bytes) z)
      ∙ ap (λ b. FrameCodec.read_u16 b 0) h.rest
      ∙ read_u16-write_u16 v rest lt

  pub read_u32_lem :
      (r : BodyReader) (v : ℕ) (rest : List ℕ)
      → v < 2 ^ 32
      → Ahead r (FrameCodec.write_u32 v ++ rest)
      → (read_u32 r ≡ (advance r 4, some v)) × Ahead (advance r 4) rest
  unfolding read_u32
  read_u32_lem r v rest lt h = (
    rw (enough r (FrameCodec.write_u32 v) rest 4 h (length-write_u32 v), u32-Ahead r v rest lt h)
        refl,
    advance-Ahead r (FrameCodec.write_u32 v) rest 4 h (length-write_u32 v),
  )

  pub read_u16_lem :
      (r : BodyReader) (v : ℕ) (rest : List ℕ)
      → v < 2 ^ 16
      → Ahead r (FrameCodec.write_u16 v ++ rest)
      → (read_u16 r ≡ (advance r 2, some v)) × Ahead (advance r 2) rest
  unfolding read_u16
  read_u16_lem r v rest lt h = (
    rw (enough r (FrameCodec.write_u16 v) rest 2 h (length-write_u16 v), u16-Ahead r v rest lt h)
        refl,
    advance-Ahead r (FrameCodec.write_u16 v) rest 2 h (length-write_u16 v),
  )

  pub read_range_lem :
      (r : BodyReader) (s rest : List ℕ)
      → Ahead r (s ++ rest)
      → read_range r (length s) ≡ (advance r (length s), some s)
  unfolding read_range
  read_range_lem r s rest h =
      rw (enough r s rest (length s) h refl, h.rest, take-length_append s rest) refl

  pub read_string_lem :
      (r : BodyReader) (s rest : List ℕ)
      → length s < 2 ^ 16
      → Ahead r (FrameCodec.write_u16 (length s) ++ (s ++ rest))
      → read_string r ≡ (advance (advance r 2) (length s), some s)
  unfolding read_string
  read_string_lem r s rest lt h =
      let (e, h') = read_u16_lem r (length s) (s ++ rest) lt h in
      ap string_after e ∙ read_range_lem (advance r 2) s rest h'

  pub read_bytes_lem :
      (r : BodyReader) (s rest : List ℕ)
      → length s ≤ max_frame_length
      → Ahead r (FrameCodec.write_u32 (length s) ++ (s ++ rest))
      → read_bytes r ≡ (advance (advance r 4) (length s), some s)
  unfolding read_bytes
  read_bytes_lem r s rest le h =
      let (e, h') = read_u32_lem r (length s) (s ++ rest) (omega arith) h in
      ap bytes_after e
      ∙ rw (ge→ltb max_frame_length (length s) le) (read_range_lem (advance r 4) s rest h')

  pub read_u64_lem :
      (r : BodyReader) (v : ℕ) (rest : List ℕ)
      → v < 2 ^ 64
      → Ahead r (FrameCodec.write_u32 (v / 2 ^ 32) ++ (FrameCodec.write_u32 (v % 2 ^ 32) ++ rest))
      → read_u64 r ≡ (advance r 8, some v)
  unfolding read_u64
  read_u64_lem r v rest lt h =
      let high : List ℕ = FrameCodec.write_u32 (v / 2 ^ 32) in
      let low : List ℕ = FrameCodec.write_u32 (v % 2 ^ 32) in
      let h' : Ahead r ((high ++ low) ++ rest) = rw (append_assoc high low rest) h in
      let n : length (high ++ low) ≡ 8 = omega (
        arith,
        length-append high low,
        length-write_u32 (v / 2 ^ 32),
        length-write_u32 (v % 2 ^ 32),
      ) in
      let a = advance-Ahead r high (low ++ rest) 4 h (length-write_u32 (v / 2 ^ 32)) in
      let k : v / 2 ^ 32 * 2 ^ 32 + v % 2 ^ 32 ≡ v = omega arith in
      rw
        (
          enough r (high ++ low) rest 8 h' n,
          u32-Ahead r (v / 2 ^ 32) (low ++ rest) (omega arith) h,
          u32-Ahead (advance r 4) (v % 2 ^ 32) rest (omega arith) a,
          k,
        )
        refl

-- A reader that has come to the end of what had been written before.
abbrev pub reader : List ℕ → ℕ → BodyReader
reader body cursor = record { bytes = body; cursor = cursor }

placed : (w xs rest : List ℕ) → Ahead (reader (w ++ xs ++ rest) (length w)) (xs ++ rest)
placed w xs rest = record {
  inside = omega (arith, length-append w xs, length-append (w ++ xs) rest);
  rest = rw (append_assoc w xs rest) (drop-length_append w (xs ++ rest));
}

module _ ⦃net : ByteOrder⦄ where
  -- A string of less than 2 ^ 16 bytes that has been written behind a buffer is read there, and the
  -- reader stands behind it.
  pub read_string-write_string :
      (buffer str rest : List ℕ)
      → length str < 2 ^ 16
      → read_string (reader (write_string buffer str ++ rest) (length buffer))
        ≡ (reader (write_string buffer str ++ rest) (length (write_string buffer str)), some str)
  unfolding write_string write_u16
  read_string-write_string buffer str rest h =
      let e : length str % 2 ^ 16 ≡ length str = omega arith in
      let len : List ℕ = FrameCodec.write_u16 (length str) in
      let a : Ahead (reader (buffer ++ len ++ str ++ rest) (length buffer)) (len ++ (str ++ rest)) =
        rw (append_assoc buffer len str, ← append_assoc len str rest)
          (placed buffer (len ++ str) rest) in
      let n : length (buffer ++ len ++ str) ≡ length buffer + 2 + length str = omega (
        arith,
        length-append buffer len,
        length-append (buffer ++ len) str,
        length-write_u16 (length str),
      ) in
      rw (e, n)
        (read_string_lem (reader (buffer ++ len ++ str ++ rest) (length buffer)) str rest h a)
