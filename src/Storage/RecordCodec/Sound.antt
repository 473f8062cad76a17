-- ===== src/Storage/RecordCodec/Sound.antt =====
-- What `decode` of src/RecordCodec.cpp accepts, and the key lengths that it fails to refuse.
use stream_forge.Base.{
  ℕ, ◌+◌, ◌-◌, ◌%◌, ◌^◌, ◌≤◌, ◌<◌, ◌≡◌, refl, sym, ap, ◌∙◌, ◌↔◌, List, ◌++◌, false, arith, ltb,
  length, take, drop, Bool-cases, inl, inr, All, length-take, length-drop, take-append-drop,
  drop-add, take-add, ltb→lt, ltb→ge,
}
use stream_forge.Base.Bytes.{IsByte, byteswap32-lt, byteswap64-lt}
use stream_forge.Status.{StatusCode, done, error, fault}
use stream_forge.Storage.Crc32.{calculate}
use stream_forge.Storage.RecordCodec.{
  Record, read_u32, read_u64, encode, decode, decode_payload, copy_range, max_record_size,
}
use stream_forge.Storage.RecordCodec.Layout.{
  IsRecord, layout, layout-append, layout-read, take-covered, covered-layout,
}
use stream_forge.Storage.RecordCodec.RoundTrip.{
  Accepted, decode-Accepted, decode-payload_lem, decode-payload_inv, decode_payload_lem, payload,
  encode-layout_lem, checksum, length-encode,
}

pub read_u32-lt : (buffer : List ℕ) (i : ℕ) → read_u32 buffer i < 2 ^ 32
unfolding read_u32
read_u32-lt buffer i = byteswap32-lt _

read_u64-lt : (buffer : List ℕ) (i : ℕ) → read_u64 buffer i < 2 ^ 64
unfolding read_u64
read_u64-lt buffer i = byteswap64-lt _

-- A key that runs past the buffer.
copy_range-fault :
    (buffer : List ℕ) (i n : ℕ) → 0 < n → length buffer < i + n → copy_range buffer i n ≡ fault
unfolding copy_range
copy_range-fault buffer i n h k = ground arith

-- Where 24 + key_len wraps, the check lets it pass and the copy leaves the buffer.
decode_payload-fault :
    (buffer : List ℕ)
    → length buffer < 2 ^ 32
    → 24 ≤ read_u32 buffer 0
    → 2 ^ 32 - 24 ≤ read_u32 buffer 24
    → decode_payload buffer (read_u32 buffer 0) ≡ fault
unfolding decode_payload
decode_payload-fault buffer small lo wide =
    let t : ltb (read_u32 buffer 0) ((24 + read_u32 buffer 24) % 2 ^ 32) ≡ false =
      ground (arith, read_u32-lt buffer 24) in
    rw (t, copy_range-fault buffer 28 (read_u32 buffer 24) (omega arith) (omega arith))

decode_payload-corrupt :
    (buffer : List ℕ)
    → read_u32 buffer 0 < 24 + read_u32 buffer 24
    → read_u32 buffer 24 < 2 ^ 32 - 24
    → decode_payload buffer (read_u32 buffer 0) ≡ error StatusCode.corrupt
unfolding decode_payload
decode_payload-corrupt buffer hi small = ground arith

-- A decoded record lies within its buffer.
key_len-le :
    (buffer : List ℕ) {r : Record}
    → length buffer < 2 ^ 32
    → decode buffer ≡ done r
    → 24 + read_u32 buffer 24 ≤ read_u32 buffer 0
key_len-le buffer small e =
    let a : Accepted buffer = decode-Accepted buffer e in
    let p : decode_payload buffer (read_u32 buffer 0) ≡ done _ = decode-payload_inv buffer e in
    elim (Bool-cases (ltb (read_u32 buffer 0) (24 + read_u32 buffer 24))) [
      | inr le ↦ ltb→ge _ _ le
      | inl gt ↦ elim (Bool-cases (ltb (read_u32 buffer 24) (2 ^ 32 - 24))) [
        | inl small_key ↦
            cc (sym p ∙ decode_payload-corrupt buffer (ltb→lt _ _ gt) (ltb→lt _ _ small_key))
        | inr wide ↦ cc (sym p ∙ decode_payload-fault buffer small a.long_enough (ltb→ge _ _ wide))
      ]
    ]

decode-payload-eq :
    (buffer : List ℕ) {r : Record}
    → length buffer < 2 ^ 32
    → decode buffer ≡ done r
    → r ≡ payload buffer (read_u32 buffer 0)
decode-payload-eq buffer small e =
    let a : Accepted buffer = decode-Accepted buffer e in
    cc (
      decode-payload_inv buffer e,
      decode_payload_lem buffer (read_u32 buffer 0) (key_len-le buffer small e) a.short_enough
          a.complete,
    )

-- The body of an accepted buffer, cut into key and value.
module _ (buffer : List ℕ) (len : ℕ) (fits : 4 + len ≤ length buffer)
    (key_fits : 24 + read_u32 buffer 24 ≤ len) where
  length-payload_key : length (payload buffer len).key ≡ read_u32 buffer 24
  length-payload_key =
      omega (arith, length-take (read_u32 buffer 24) (drop 28 buffer), length-drop 28 buffer)

  length-payload_value : length (payload buffer len).value ≡ len - 24 - read_u32 buffer 24
  length-payload_value = omega (
    arith,
    length-take (len - 24 - read_u32 buffer 24) (drop (28 + read_u32 buffer 24) buffer),
    length-drop (28 + read_u32 buffer 24) buffer,
  )

  payload-body :
      (payload buffer len).key ++ (payload buffer len).value ≡ take (len - 24) (drop 28 buffer)
  payload-body =
      let k : ℕ = read_u32 buffer 24 in
      let e : len - 24 ≡ k + (len - 24 - k) = omega arith in
      rw (drop-add 28 k buffer) (
        sym (take-add k (len - 24 - k) (drop 28 buffer))
        ∙ ap (λ n. take n (drop 28 buffer)) (sym e))

  payload-IsRecord : len ≤ max_record_size → IsRecord (payload buffer len)
  payload-IsRecord h = record {
    offset_fits = read_u64-lt buffer 8;
    timestamp_fits = read_u64-lt buffer 16;
    size_fits = omega (arith, length-payload_key, length-payload_value);
  }

-- The buffer is the header that was read, the key and the value, and what follows them.
split_buffer :
    (buffer : List ℕ) (n : ℕ)
    → All IsByte buffer
    → 28 ≤ length buffer
    → layout
          (read_u32 buffer 0)
          (read_u32 buffer 4)
          (read_u64 buffer 8)
          (read_u64 buffer 16)
          (read_u32 buffer 24)
          (take n (drop 28 buffer))
        ++ drop (28 + n) buffer
      ≡ buffer
split_buffer buffer n bytes h =
    rw (drop-add 28 n buffer, layout-append, take-append-drop n (drop 28 buffer))
      (layout-read buffer bytes h)

-- The checksum of the payload is the one that was checked.
payload-checksum :
    (buffer : List ℕ) (len : ℕ)
    → All IsByte buffer
    → 24 ≤ len
    → 4 + len ≤ length buffer
    → 24 + read_u32 buffer 24 ≤ len
    → checksum
        (read_u64 buffer 8)
        (read_u64 buffer 16)
        (payload buffer len).key
        (payload buffer len).value
      ≡ calculate (take (len - 4) (drop 8 buffer))
payload-checksum buffer len bytes lo fits kf =
    let b : List ℕ = drop 28 buffer in
    let e : len - 4 ≡ 20 + (len - 24) = omega arith in
    let d : drop 8 (
          layout (read_u32 buffer 0) (read_u32 buffer 4) (read_u64 buffer 8) (read_u64 buffer 16)
            (read_u32 buffer 24) b)
        ≡ drop 8 buffer =
      ap (drop 8) (layout-read buffer bytes (omega arith)) in
    let c =
      covered-layout (read_u32 buffer 0) (read_u32 buffer 4) (read_u64 buffer 8)
        (read_u64 buffer 16) (read_u32 buffer 24) b in
    rw (length-payload_key buffer len fits kf, payload-body buffer len fits kf, ← d, c, e)
      (ap calculate (
        sym (
          take-covered (read_u64 buffer 8) (read_u64 buffer 16) (read_u32 buffer 24) (len - 24) b)))

-- Whatever `decode` accepts is the encoding of the record that it returns, followed by the rest of
-- the buffer: no two encodings decode to one record.
pub encode-decode :
    (buffer : List ℕ) (r : Record)
    → All IsByte buffer
    → length buffer < 2 ^ 32
    → decode buffer ≡ done r
    → IsRecord r × (encode r ++ drop (length (encode r)) buffer ≡ buffer)
encode-decode buffer r bytes small e =
    let len : ℕ = read_u32 buffer 0 in
    let a : Accepted buffer = decode-Accepted buffer e in
    let kf : 24 + read_u32 buffer 24 ≤ len = key_len-le buffer small e in
    let v : IsRecord (payload buffer len) =
      payload-IsRecord buffer len a.complete kf a.short_enough in
    let k = length-payload_key buffer len a.complete kf in
    let w = length-payload_value buffer len a.complete kf in
    let lo : 24 + length (payload buffer len).key + length (payload buffer len).value ≡ len =
      omega arith in
    let m : 28 + length (payload buffer len).key + length (payload buffer len).value
        ≡ 28 + (len - 24) =
      omega arith in
    rw (decode-payload-eq buffer small e) (
      v,
      rw
          (
            length-encode,
            m,
            encode-layout_lem _ v,
            payload-checksum buffer len bytes a.long_enough a.complete kf,
            ← a.crc_matches,
            lo,
            k,
            payload-body buffer len a.complete kf,
          )
          (split_buffer buffer (len - 24) bytes a.has_header),
    )

-- A defect: when the key length is within 24 of 2 ^ 32, the bounds check `24 + key_len > length`
-- wraps around and passes, and the key is copied from beyond the buffer. On buffers below 4 GiB
-- that pass the checks before it, `decode` reads out of bounds on these key lengths and no other.
pub decode-fault :
    (buffer : List ℕ)
    → length buffer < 2 ^ 32
    → Accepted buffer
    → (decode buffer ≡ fault) ↔ (2 ^ 32 - 24 ≤ read_u32 buffer 24)
decode-fault buffer small a =
    rw
      (decode-payload_lem buffer (read_u32 buffer 0) refl a.long_enough a.short_enough a.complete
        a.crc_matches)
      (there, λ wide. decode_payload-fault buffer small a.long_enough wide)
  where
    there : decode_payload buffer (read_u32 buffer 0) ≡ fault → 2 ^ 32 - 24 ≤ read_u32 buffer 24
    there e = elim (Bool-cases (ltb (read_u32 buffer 24) (2 ^ 32 - 24))) [
      | inr wide ↦ ltb→ge _ _ wide
      | inl small_key ↦ elim (Bool-cases (ltb (read_u32 buffer 0) (24 + read_u32 buffer 24))) [
        | inl gt ↦ cc (sym e ∙ decode_payload-corrupt buffer (ltb→lt _ _ gt) (ltb→lt _ _ small_key))
        | inr le ↦ cc (
            sym e
            ∙ decode_payload_lem buffer (read_u32 buffer 0) (ltb→ge _ _ le) a.short_enough
                a.complete)
      ]
    ]
