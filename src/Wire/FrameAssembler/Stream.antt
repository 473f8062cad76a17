-- ===== src/Wire/FrameAssembler/Stream.antt =====
-- The frames in front of a stream of bytes.
use stream_forge.Base.{
  ℕ, suc, ◌+◌, ◌-◌, ◌≡◌, refl, sym, ap, ◌∙◌, subst, List, [], ◌∷◌, ◌++◌, ltb, lt→ltb, if◌then◌else◌,
  arith, length, take, drop, All, length-append, length-drop, drop-append_le, take-append_le,
  get_or-append, append_assoc, take-length_append, drop-length_append,
}
use stream_forge.Wire.ByteOrder.{ByteOrder}
use stream_forge.Wire.FrameCodec.{Frame, read_u32, encode}
use stream_forge.Wire.FrameCodec.RoundTrip.{
  read_u32-append, IsFrame, length-encode, read_length, read_type, read_request_id, drop_nine,
}
use stream_forge.Wire.FrameAssembler.{FrameExtractResult, frame_at}
use stream_forge.Wire.FrameAssembler.Parse.{stuck, parse, Whole, front, after_front, parse-Whole}

nonempty : (body : List ℕ) → (if ltb 0 (length body) then body else []) ≡ body
nonempty [] = refl
nonempty (b ∷ body) = rw (lt→ltb 0 (suc (length body)) (omega arith)) refl

module _ ⦃net : ByteOrder⦄ where
  -- What stands in front of a stream stays there when more bytes arrive.
  pub Whole-append : (xs ys : List ℕ) → Whole xs → Whole (xs ++ ys)
  Whole-append xs ys h =
      let k = h.complete in
      let e : read_u32 (xs ++ ys) 0 ≡ read_u32 xs 0 = read_u32-append 0 xs ys (omega arith) in
      record {
        at_least = rw e h.at_least;
        at_most = rw e h.at_most;
        complete = rw e (omega (arith, length-append xs ys));
      }

  front-append : (xs ys : List ℕ) → Whole xs → front (xs ++ ys) ≡ front xs
  unfolding frame_at
  front-append xs ys h =
      let k = h.complete in
      let l = h.at_least in
      let e : read_u32 (xs ++ ys) 0 ≡ read_u32 xs 0 = read_u32-append 0 xs ys (omega arith) in
      let b : take (read_u32 xs 0 - 5) (drop 9 (xs ++ ys)) ≡ take (read_u32 xs 0 - 5) (drop 9 xs) =
        ap (take (read_u32 xs 0 - 5)) (drop-append_le 9 xs ys (omega arith))
        ∙ take-append_le (read_u32 xs 0 - 5) (drop 9 xs) ys (omega (arith, length-drop 9 xs)) in
      rw (e, b, get_or-append 4 xs ys 0 (omega arith), read_u32-append 5 xs ys (omega arith)) refl

  after_front-append : (xs ys : List ℕ) → Whole xs → after_front (xs ++ ys) ≡ after_front xs ++ ys
  after_front-append xs ys h =
      let k = h.complete in
      let e : read_u32 (xs ++ ys) 0 ≡ read_u32 xs 0 = read_u32-append 0 xs ys (omega arith) in
      rw e (drop-append_le (4 + read_u32 xs 0) xs ys k)

  -- The frames in front of a stream, and what is left when there is no further one.
  pub data Splits : List ℕ → List Frame → List ℕ → Type 0 where
    stop :
        {bytes : List ℕ} (r : FrameExtractResult)
        → parse bytes ≡ stuck r bytes
        → Splits bytes [] bytes
    next :
        {bytes rest : List ℕ} {fs : List Frame}
        → Whole bytes
        → Splits (after_front bytes) fs rest
        → Splits bytes (front bytes ∷ fs) rest

  pub Splits-append :
      {xs mid rest : List ℕ} {fs gs : List Frame} (ys : List ℕ)
      → Splits xs fs mid
      → Splits (mid ++ ys) gs rest
      → Splits (xs ++ ys) (fs ++ gs) rest
  Splits-append ys (stop r e) t = t
  Splits-append {rest = rest} {gs = gs} ys (next {bytes = xs} {fs = fs} w s) t =
      subst (λ f. Splits (xs ++ ys) (f ∷ fs ++ gs) rest) (front-append xs ys w)
        (next (Whole-append xs ys w) (
          subst (λ b. Splits b (fs ++ gs) rest) (sym (after_front-append xs ys w))
            (Splits-append ys s t)))

  pub Splits-functional :
      {bytes rest rest' : List ℕ} {fs gs : List Frame}
      → Splits bytes fs rest
      → Splits bytes gs rest'
      → (fs ≡ gs) × (rest ≡ rest')
  Splits-functional (stop r e) (stop s d) = (refl, refl)
  Splits-functional (stop r e) (next w t) = absurd (let d = parse-Whole _ w in cc)
  Splits-functional (next w s) (stop r e) = absurd (let d = parse-Whole _ w in cc)
  Splits-functional (next {bytes = front_bytes} w s) (next v t) =
      let (e, d) = Splits-functional s t in (ap (◌∷◌ (front front_bytes)) e, d)

  abbrev pub encode_all : List Frame → List ℕ
  encode_all [] = []
  encode_all (f ∷ fs) = encode f ++ encode_all fs

  module _ (f : Frame) (tail : List ℕ) (h : IsFrame f) where
    encode-Whole : Whole (encode f ++ tail)
    encode-Whole =
        let l = h.length_ok in
        let s = h.small in
        let e = read_length f tail h in
        record {
          at_least = omega arith;
          at_most = omega arith;
          complete = omega (arith, length-append (encode f) tail, length-encode f);
        }

    after_front-encode : after_front (encode f ++ tail) ≡ tail
    after_front-encode =
        let n : 4 + f.length ≡ length (encode f) =
          let l = h.length_ok in omega (arith, length-encode f) in
        rw (read_length f tail h, n) (drop-length_append (encode f) tail)

    front-encode : front (encode f ++ tail) ≡ f
    unfolding frame_at
    front-encode =
        let n : f.length - 5 ≡ length f.body = let l = h.length_ok in omega arith in
        rw
          (
            read_length f tail h,
            read_request_id f tail h,
            read_type f tail,
            drop_nine f tail,
            n,
            take-length_append f.body tail,
          )
          (ap (λ b. record f { body = b }) (nonempty f.body))

  pub Splits-encode_all :
      (fs : List Frame) (tail : List ℕ) (r : FrameExtractResult)
      → All IsFrame fs
      → parse tail ≡ stuck r tail
      → Splits (encode_all fs ++ tail) fs tail
  Splits-encode_all [] tail r h e = stop r e
  Splits-encode_all (f ∷ fs) tail r h e = rw (append_assoc (encode f) (encode_all fs) tail) (
      subst (λ g. Splits (encode f ++ (encode_all fs ++ tail)) (g ∷ fs) tail)
        (front-encode f (encode_all fs ++ tail) h.0)
        (next (encode-Whole f (encode_all fs ++ tail) h.0) (
          rw (after_front-encode f (encode_all fs ++ tail) h.0)
            (Splits-encode_all fs tail r h.1 e))))
