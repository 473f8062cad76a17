-- ===== src/Wire/FrameCodec/RoundTrip.antt =====
-- The numbers of a frame are read as they were written.
use stream_forge.Base.{
  ℕ, ◌+◌, ◌/◌, ◌%◌, ◌^◌, ◌<◌, ◌≤◌, ◌≡◌, refl, sym, ◌∙◌, List, ◌∷◌, ◌++◌, arith, length,
  append_assoc, drop, get_or-drop, get_or-append,
}
use stream_forge.Base.Bytes.{be32, store32}
use stream_forge.Wire.ByteOrder.{ByteOrder, store16, be16}
use stream_forge.Wire.FrameCodec.{
  Frame, byte_at, read_u32, write_u32, read_u16, write_u16, payload_len, encode, max_frame_length,
}

module _ ⦃net : ByteOrder⦄ where
  pub read_u32-write_u32 :
      (v : ℕ) (rest : List ℕ) → v < 2 ^ 32 → read_u32 (write_u32 v ++ rest) 0 ≡ v
  unfolding read_u32 write_u32 be32
  read_u32-write_u32 v rest h = rw (net.htonl_bytes v h) (
      net.ntohl_bytes (v / 2 ^ 24 % 256) (v / 2 ^ 16 % 256) (v / 2 ^ 8 % 256) (v % 256)
        (omega arith) (omega arith) (omega arith) (omega arith)
      ∙ omega arith)

  pub read_u16-write_u16 :
      (v : ℕ) (rest : List ℕ) → v < 2 ^ 16 → read_u16 (write_u16 v ++ rest) 0 ≡ v
  unfolding read_u16 write_u16 be16
  read_u16-write_u16 v rest h =
      rw (net.htons_bytes v h)
        (net.ntohs_bytes (v / 2 ^ 8 % 256) (v % 256) (omega arith) (omega arith) ∙ omega arith)

  pub length-write_u32 : (v : ℕ) → length (write_u32 v) ≡ 4
  unfolding write_u32 store32
  length-write_u32 v = refl

  pub length-write_u16 : (v : ℕ) → length (write_u16 v) ≡ 2
  unfolding write_u16 store16
  length-write_u16 v = refl

  -- Reading further on in a buffer.
  pub read_u32-drop :
      (n i : ℕ) (buffer : List ℕ) → read_u32 (drop n buffer) i ≡ read_u32 buffer (n + i)
  unfolding read_u32
  read_u32-drop n i buffer =
      let e1 : n + (i + 1) ≡ n + i + 1 = omega arith in
      let e2 : n + (i + 2) ≡ n + i + 2 = omega arith in
      let e3 : n + (i + 3) ≡ n + i + 3 = omega arith in
      rw (
        read_u32,
        get_or-drop n i buffer 0,
        get_or-drop n (i + 1) buffer 0,
        get_or-drop n (i + 2) buffer 0,
        get_or-drop n (i + 3) buffer 0,
        e1,
        e2,
        e3,
      )

  pub read_u16-drop :
      (n i : ℕ) (buffer : List ℕ) → read_u16 (drop n buffer) i ≡ read_u16 buffer (n + i)
  unfolding read_u16
  read_u16-drop n i buffer =
      let e : n + (i + 1) ≡ n + i + 1 = omega arith in
      rw (read_u16, get_or-drop n i buffer 0, get_or-drop n (i + 1) buffer 0, e) refl

  pub read_u32-append :
      (i : ℕ) (xs ys : List ℕ) → i + 4 ≤ length xs → read_u32 (xs ++ ys) i ≡ read_u32 xs i
  unfolding read_u32
  read_u32-append i xs ys h =
      rw
        (
          read_u32,
          get_or-append i xs ys 0 (omega arith),
          get_or-append (i + 1) xs ys 0 (omega arith),
          get_or-append (i + 2) xs ys 0 (omega arith),
          get_or-append (i + 3) xs ys 0 (omega arith),
        )
        refl

-- A frame that may be sent: its length field agrees with its body, and its numbers fit.
pub record IsFrame (f : Frame) : Type 0 where
  pub length_ok : f.length ≡ 5 + length f.body
  pub small : f.length ≤ max_frame_length
  pub request_id_lt : f.request_id < 2 ^ 32

module _ ⦃net : ByteOrder⦄ where
  pub payload_len_lem : (f : Frame) → IsFrame f → payload_len f.body ≡ f.length
  unfolding payload_len
  payload_len_lem f h = let l = h.length_ok in let s = h.small in omega arith

  pub length-encode : (f : Frame) → length (encode f) ≡ 9 + length f.body
  unfolding encode write_u32 store32
  length-encode f = omega arith

  pub read_length :
      (f : Frame) (tail : List ℕ) → IsFrame f → read_u32 (encode f ++ tail) 0 ≡ f.length
  unfolding encode
  read_length f tail h =
      let s = h.small in
      rw (append_assoc, payload_len_lem f h)
        (read_u32-write_u32 f.length (f.type ∷ (write_u32 f.request_id ++ f.body) ++ tail)
          (omega arith))

  drop_five :
      (f : Frame) (tail : List ℕ)
      → drop 5 (encode f ++ tail) ≡ write_u32 f.request_id ++ (f.body ++ tail)
  unfolding encode write_u32 store32
  drop_five f tail = refl

  pub drop_nine : (f : Frame) (tail : List ℕ) → drop 9 (encode f ++ tail) ≡ f.body ++ tail
  unfolding encode write_u32 store32
  drop_nine f tail = refl

  pub read_type : (f : Frame) (tail : List ℕ) → byte_at (encode f ++ tail) 4 ≡ f.type
  unfolding encode write_u32 store32
  read_type f tail = refl

  pub read_request_id :
      (f : Frame) (tail : List ℕ) → IsFrame f → read_u32 (encode f ++ tail) 5 ≡ f.request_id
  read_request_id f tail h =
      sym (read_u32-drop 5 0 (encode f ++ tail))
      ∙ rw (drop_five f tail) (read_u32-write_u32 f.request_id (f.body ++ tail) h.request_id_lt)
