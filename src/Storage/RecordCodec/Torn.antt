-- ===== src/Storage/RecordCodec/Torn.antt =====
-- Records cut short, as a crash in the middle of a write leaves them (src/RecordCodec.cpp).
use stream_forge.Base.{
  ℕ, ◌+◌, ◌-◌, ◌≤◌, ◌<◌, ◌≡◌, List, ◌++◌, arith, ltb, length, length-take, take, Bool-cases, inl,
  inr, ltb→lt, ltb→ge,
}
use stream_forge.Status.{StatusCode, error}
use stream_forge.Storage.RecordCodec.{Record, read_u32, encode, decode, max_record_size}
use stream_forge.Storage.RecordCodec.Layout.{IsRecord, take-layout, read_len-layout}
use stream_forge.Storage.RecordCodec.RoundTrip.{encode-layout_lem, length-encode, checksum}

decode_short : (buffer : List ℕ) → length buffer < 28 → decode buffer ≡ error StatusCode.corrupt
unfolding decode
decode_short buffer h = ground arith

decode_incomplete :
    (buffer : List ℕ) (len : ℕ)
    → read_u32 buffer 0 ≡ len
    → 24 ≤ len
    → len ≤ max_record_size
    → length buffer < 4 + len
    → decode buffer ≡ error StatusCode.corrupt
unfolding decode
decode_incomplete buffer len e lo hi short = rw e (ground arith)

-- The length field is there as soon as the header is.
pub read_len-take :
    (r : Record) (n : ℕ)
    → IsRecord r
    → read_u32 (take (28 + n) (encode r)) 0 ≡ 24 + length r.key + length r.value
read_len-take r n v =
    rw (encode-layout_lem r v, take-layout)
      (read_len-layout _ (checksum r.offset r.timestamp_ms r.key r.value) r.offset r.timestamp_ms
        (length r.key) (take n (r.key ++ r.value)) (omega arith))

-- No proper prefix of an encoded record is decoded: it is reported as corrupt.
pub decode_prefix :
    (r : Record) (n : ℕ)
    → IsRecord r
    → n < length (encode r)
    → decode (take n (encode r)) ≡ error StatusCode.corrupt
decode_prefix r n v h = elim (Bool-cases (ltb n 28)) [
  | inl short ↦ decode_short _ (omega (arith, length-take n (encode r), ltb→lt _ _ short))
  | inr header ↦
      let e : n ≡ 28 + (n - 28) = omega (arith, ltb→ge _ _ header) in
      decode_incomplete _ (24 + length r.key + length r.value) (rw e (read_len-take r (n - 28) v))
        (omega arith) v.size_fits (omega (arith, length-take n (encode r), length-encode r))
]
