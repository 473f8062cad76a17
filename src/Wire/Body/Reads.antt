-- ===== src/Wire/Body/Reads.antt =====
-- Reads one after another, as the decoders of include/streamforge/ProtocolMessages.hpp do them, and
-- the bytes that a chain of reads turns into a value.
use stream_forge.Base.{
  ℕ, ◌/◌, ◌%◌, ◌^◌, true, drop, length-drop, length-append, ◌<◌, ◌≤◌, ◌≡◌, refl, sym, ap, ◌∙◌, List,
  [], ◌++◌, Option, none, some, arith, length, if◌then◌else◌, append_assoc, append-nil,
}
use stream_forge.Wire.ByteOrder.{ByteOrder}
use stream_forge.Wire.FrameCodec.{max_frame_length, byte_at}
use stream_forge.Wire.FrameCodec
use stream_forge.Wire.Body.{
  BodyReader, read_body, advance, require_empty, read_u16, read_u32, read_u64, read_string,
  read_bytes,
}
use stream_forge.Wire.Body.RoundTrip.{
  Ahead, read_u16_lem, read_u32_lem, read_u64_lem, read_string_lem, read_bytes_lem, advance-Ahead,
}
use stream_forge.Wire.FrameCodec.RoundTrip.{length-write_u32}

-- A read that may fail, with the reader after it.
abbrev pub Read {ℓ} : Type ℓ → Type ℓ
Read A = BodyReader → BodyReader × Option A

abbrev pub go_on {ℓ κ} :
    {A : Type ℓ} {B : Type κ} → BodyReader × Option A → (A → Read B) → BodyReader × Option B
go_on (r, none) f = (r, none)
go_on (r, some a) f = f a r

-- `return false` at the first read that fails.
infixl 5 ◌>>=◌
abbrev pub ◌>>=◌ {ℓ κ} : {A : Type ℓ} {B : Type κ} → Read A → (A → Read B) → Read B
(p >>= f) r = go_on (p r) f

abbrev pub pure {ℓ} : {A : Type ℓ} → A → Read A
pure a r = (r, some a)

abbrev pub if_empty {ℓ} : {A : Type ℓ} → BodyReader × Option A → Option A
if_empty (r, none) = none
if_empty (r, some a) = if require_empty r then some a else none

-- A whole body: nothing may be left over.
abbrev pub decode_with {ℓ} : {A : Type ℓ} → Read A → List ℕ → Option A
decode_with p body = if_empty (p (read_body body))

-- Where these bytes stand ahead, the read takes them and gives this value.
abbrev pub Reads {ℓ} : {A : Type ℓ} → Read A → List ℕ → A → Type ℓ
Reads {A = A} p bytes a =
    (r : BodyReader) (rest : List ℕ)
    → Ahead r (bytes ++ rest)
    → (r' : BodyReader) × (p r ≡ (r', some a)) × Ahead r' rest

pub pure-Reads {ℓ} : {A : Type ℓ} (a : A) → Reads (pure a) [] a
pure-Reads a r rest h = (r, refl, h)

pub bind-Reads {ℓ κ} :
    {A : Type ℓ} {B : Type κ} (p : Read A) (f : A → Read B) (xs ys : List ℕ) (a : A) (b : B)
    → Reads p xs a
    → Reads (f a) ys b
    → Reads (p >>= f) (xs ++ ys) b
bind-Reads p f xs ys a b h k r rest ahead =
    let (r', e, ahead') = h r (ys ++ rest) (rw append_assoc at ahead) in
    let (r'', d, ahead'') = k r' rest ahead' in (r'', ap (λ x. go_on x f) e ∙ d, ahead'')

-- At the end of the bytes nothing is left.
at_end : (r : BodyReader) → Ahead r [] → require_empty r ≡ true
unfolding require_empty
at_end r h =
    let k = h.inside in
    let l = length-drop r.cursor r.bytes in
    let e : length (drop r.cursor r.bytes) ≡ 0 = ap length h.rest in ground arith

pub decode_with_lem {ℓ} :
    {A : Type ℓ} (p : Read A) (bytes : List ℕ) (a : A)
    → Reads p bytes a
    → decode_with p bytes ≡ some a
decode_with_lem p bytes a h =
    let (r', e, ahead) =
      h (read_body bytes) [] (record { inside = omega arith; rest = sym (append-nil bytes) }) in
    ap if_empty e ∙ rw (at_end r' ahead) refl

module _ ⦃net : ByteOrder⦄ where
  pub read_u16-Reads : (v : ℕ) → v < 2 ^ 16 → Reads read_u16 (FrameCodec.write_u16 v) v
  read_u16-Reads v lt r rest h = let (e, h') = read_u16_lem r v rest lt h in (advance r 2, e, h')

  pub read_u32-Reads : (v : ℕ) → v < 2 ^ 32 → Reads read_u32 (FrameCodec.write_u32 v) v
  read_u32-Reads v lt r rest h = let (e, h') = read_u32_lem r v rest lt h in (advance r 4, e, h')

  abbrev pub u64_bytes : ℕ → List ℕ
  u64_bytes v = FrameCodec.write_u32 (v / 2 ^ 32) ++ FrameCodec.write_u32 (v % 2 ^ 32)

  pub read_u64-Reads : (v : ℕ) → v < 2 ^ 64 → Reads read_u64 (u64_bytes v) v
  read_u64-Reads v lt r rest h =
      let high : List ℕ = FrameCodec.write_u32 (v / 2 ^ 32) in
      let low : List ℕ = FrameCodec.write_u32 (v % 2 ^ 32) in
      (
        advance r 8,
        read_u64_lem r v rest lt (rw append_assoc at h),
        advance-Ahead r (high ++ low) rest 8 h (
            omega (
              arith,
              length-append high low,
              length-write_u32 (v / 2 ^ 32),
              length-write_u32 (v % 2 ^ 32),
            )),
      )

  abbrev pub string_bytes : List ℕ → List ℕ
  string_bytes s = FrameCodec.write_u16 (length s) ++ s

  pub read_string-Reads : (s : List ℕ) → length s < 2 ^ 16 → Reads read_string (string_bytes s) s
  read_string-Reads s lt r rest h =
      let h' : Ahead r (FrameCodec.write_u16 (length s) ++ (s ++ rest)) = rw append_assoc at h in
      (
        advance (advance r 2) (length s),
        read_string_lem r s rest lt h',
        advance-Ahead (advance r 2) s rest (length s)
            (read_u16_lem r (length s) (s ++ rest) lt h').1 refl,
      )

  abbrev pub vector_bytes : List ℕ → List ℕ
  vector_bytes s = FrameCodec.write_u32 (length s) ++ s

  pub read_bytes-Reads :
      (s : List ℕ) → length s ≤ max_frame_length → Reads read_bytes (vector_bytes s) s
  read_bytes-Reads s le r rest h =
      let h' : Ahead r (FrameCodec.write_u32 (length s) ++ (s ++ rest)) = rw append_assoc at h in
      (
        advance (advance r 4) (length s),
        read_bytes_lem r s rest le h',
        advance-Ahead (advance r 4) s rest (length s)
            (read_u32_lem r (length s) (s ++ rest) (omega arith) h').1 refl,
      )

-- A read that goes on to the end of the body.
abbrev pub ReadsEnd {ℓ} : {A : Type ℓ} → Read A → List ℕ → A → Type ℓ
ReadsEnd {A = A} p bytes a =
    (r : BodyReader) → Ahead r bytes → (r' : BodyReader) × (p r ≡ (r', some a)) × Ahead r' []

pub bind-ReadsEnd {ℓ κ} :
    {A : Type ℓ} {B : Type κ} (p : Read A) (f : A → Read B) (xs ys : List ℕ) (a : A) (b : B)
    → Reads p xs a
    → ReadsEnd (f a) ys b
    → ReadsEnd (p >>= f) (xs ++ ys) b
bind-ReadsEnd p f xs ys a b h k r ahead =
    let (r', e, ahead') = h r ys ahead in
    let (r'', d, ahead'') = k r' ahead' in (r'', ap (λ x. go_on x f) e ∙ d, ahead'')

-- The last read gives a value that is passed on.
pub last-ReadsEnd {ℓ κ} :
    {A : Type ℓ} {B : Type κ} (p : Read A) (f : A → Read B) (xs : List ℕ) (a : A) (b : B)
    → ReadsEnd p xs a
    → Reads (f a) [] b
    → ReadsEnd (p >>= f) xs b
last-ReadsEnd p f xs a b h k r ahead =
    let (r', e, ahead') = h r ahead in
    let (r'', d, ahead'') = k r' [] ahead' in (r'', ap (λ x. go_on x f) e ∙ d, ahead'')

pub decode_end {ℓ} :
    {A : Type ℓ} (p : Read A) (bytes : List ℕ) (a : A)
    → ReadsEnd p bytes a
    → decode_with p bytes ≡ some a
decode_end p bytes a h =
    let (r', e, ahead) = h (read_body bytes) (record { inside = omega arith; rest = refl }) in
    ap if_empty e ∙ rw (at_end r' ahead) refl
