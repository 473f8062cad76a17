-- ===== src/Storage/RecordCodec/RoundTrip.antt =====
-- `encode` and `decode` of src/RecordCodec.cpp undo one another, and what `decode` refuses.
use stream_forge.Base.{
  ℕ, ◌+◌, ◌-◌, ◌*◌, ◌%◌, ◌^◌, ◌≤◌, ◌<◌, ◌≡◌, refl, sym, ap, ◌∙◌, List, ◌++◌, false, arith, ltb,
  ◌==◌, length, length-append, take, drop, append_assoc, Bool-cases, inl, inr, take-length_append,
  drop-length_append, take_all,
}
use stream_forge.Base.Bytes.{be32, be64}
use stream_forge.Status.{done}
use stream_forge.Storage.Crc32.{calculate, calculate-lt}
use stream_forge.Storage.RecordCodec.{
  Record, read_u32, read_u64, covered, length_field, encode, decode, decode_payload, copy_range,
  max_record_size,
}
use stream_forge.Storage.RecordCodec.Layout.{
  IsRecord, layout, encode-layout, layout-append, read_len-layout, read_crc-layout,
  read_offset-layout, read_timestamp-layout, read_key_len-layout, length-layout, covered-layout,
  body-layout, take-covered, covered-be,
}

pub length_field_lem :
    {r : Record} → IsRecord r → length_field r ≡ 24 + length r.key + length r.value
unfolding length_field
length_field_lem h = omega arith

-- The length of an encoded record: four bytes and what the length field counts.
pub length-encode : (r : Record) → length (encode r) ≡ 28 + length r.key + length r.value
length-encode r = rw encode-layout (
    omega (
      arith,
      length-append r.key r.value,
      length-layout (length_field r) (calculate (take (length_field r - 4) (covered r))) r.offset
          r.timestamp_ms (length r.key % 2 ^ 32) (r.key ++ r.value),
    ))

take_two :
    (key value rest : List ℕ)
    → take (length key + length value) (key ++ (value ++ rest)) ≡ key ++ value
take_two key value rest =
    rw (← append_assoc, ← length-append) (take-length_append (key ++ value) rest)

pub copy_range_lem :
    (buffer : List ℕ) (i n : ℕ)
    → i + n ≤ length buffer
    → copy_range buffer i n ≡ done (take n (drop i buffer))
unfolding copy_range
copy_range_lem buffer i n h = elim (Bool-cases (n == 0)) [
  | inl z ↦ rw z (let e : n ≡ 0 = ground arith in rw e refl)
  | inr p ↦ ground arith
]

-- A buffer whose header is consistent is decoded from its payload.
pub decode-payload_lem :
    (buffer : List ℕ) (len : ℕ)
    → read_u32 buffer 0 ≡ len
    → 24 ≤ len
    → len ≤ max_record_size
    → 4 + len ≤ length buffer
    → read_u32 buffer 4 ≡ calculate (take (len - 4) (drop 8 buffer))
    → decode buffer ≡ decode_payload buffer len
unfolding decode
decode-payload_lem buffer len e lo hi fits crc = rw e (ground arith)

-- The record that a payload holds when its key length is in range.
abbrev pub payload : List ℕ → ℕ → Record
payload buffer len =
    let k = read_u32 buffer 24 in
    record {
      offset = read_u64 buffer 8;
      timestamp_ms = read_u64 buffer 16;
      key = take k (drop 28 buffer);
      value = take (len - 24 - k) (drop (28 + k) buffer);
    }

pub decode_payload_lem :
    (buffer : List ℕ) (len : ℕ)
    → 24 + read_u32 buffer 24 ≤ len
    → len ≤ max_record_size
    → 4 + len ≤ length buffer
    → decode_payload buffer len ≡ done (payload buffer len)
unfolding decode_payload
decode_payload_lem buffer len hk hm fits =
    let k = read_u32 buffer 24 in
    let e : (len + 2 * 2 ^ 32 - 24 - k) % 2 ^ 32 ≡ len - 24 - k = omega arith in
    let t : ltb len ((24 + k) % 2 ^ 32) ≡ false = ground arith in
    rw (
      t,
      e,
      copy_range_lem buffer 28 k (omega arith),
      copy_range_lem buffer (28 + k) (len - 24 - k) (omega arith),
    )

-- `decode` on the layout of a record, whatever follows it.
module _ (crc off ts : ℕ) (key value rest : List ℕ) where
  abbrev buffer : List ℕ
  buffer = layout (24 + length key + length value) crc off ts (length key) (key ++ (value ++ rest))

  payload-layout :
      24 + length key + length value ≤ max_record_size
      → off < 2 ^ 64
      → ts < 2 ^ 64
      → payload buffer (24 + length key + length value)
        ≡ record { offset = off; timestamp_ms = ts; key = key; value = value }
  payload-layout hm ho ht =
      let n : ℕ = 24 + length key + length value in
      let body : List ℕ = key ++ (value ++ rest) in
      let k : read_u32 buffer 24 ≡ length key =
        read_key_len-layout n crc off ts (length key) body (omega arith) in
      let o : read_u64 buffer 8 ≡ off = read_offset-layout n crc off ts (length key) body ho in
      let t : read_u64 buffer 16 ≡ ts = read_timestamp-layout n crc off ts (length key) body ht in
      let v : n - 24 - length key ≡ length value = omega arith in
      let b : drop 28 buffer ≡ body = body-layout n crc off ts (length key) body 0 in
      let c : drop (28 + length key) buffer ≡ value ++ rest =
        body-layout n crc off ts (length key) body (length key)
        ∙ drop-length_append key (value ++ rest) in
      rw (k, o, t, b, v, c, take-length_append key (value ++ rest), take-length_append value rest)

  decode-layout :
      24 + length key + length value ≤ max_record_size
      → off < 2 ^ 64
      → ts < 2 ^ 64
      → crc ≡ calculate (be64 off ++ (be64 ts ++ (be32 (length key) ++ (key ++ value))))
      → decode buffer ≡ done (record { offset = off; timestamp_ms = ts; key = key; value = value })
  decode-layout hm ho ht hc =
      let n : ℕ = 24 + length key + length value in
      let body : List ℕ = key ++ (value ++ rest) in
      let m : n - 4 ≡ 20 + (length key + length value) = omega arith in
      let c : take (n - 4) (drop 8 buffer)
          ≡ be64 off ++ (be64 ts ++ (be32 (length key) ++ (key ++ value))) =
        rw
          (
            covered-layout n crc off ts (length key) body,
            m,
            take-covered off ts (length key) (length key + length value) body,
            take_two key value rest,
          )
          refl in
      let s : length buffer ≡ 28 + length body = length-layout n crc off ts (length key) body in
      let sb : length body ≡ length key + length (value ++ rest) =
        length-append key (value ++ rest) in
      let sv : length (value ++ rest) ≡ length value + length rest = length-append value rest in
      let k : read_u32 buffer 24 ≡ length key =
        read_key_len-layout n crc off ts (length key) body (omega arith) in
      let l : read_u32 buffer 0 ≡ n =
        read_len-layout n crc off ts (length key) body (omega arith) in
      let r : read_u32 buffer 4 ≡ crc =
        read_crc-layout n crc off ts (length key) body (rw hc (calculate-lt _)) in
      decode-payload_lem buffer n l (omega arith) hm (omega arith) (r ∙ hc ∙ ap calculate (sym c))
      ∙ decode_payload_lem buffer n (omega arith) hm (omega arith)
      ∙ ap done (payload-layout hm ho ht)

-- The checksum of the fields as they stand in the buffer.
abbrev pub checksum : ℕ → ℕ → List ℕ → List ℕ → ℕ
checksum off ts key value =
    calculate (be64 off ++ (be64 ts ++ (be32 (length key) ++ (key ++ value))))

pub encode-layout_lem :
    (r : Record)
    → IsRecord r
    → encode r
      ≡ layout
          (24 + length r.key + length r.value)
          (checksum r.offset r.timestamp_ms r.key r.value)
          r.offset
          r.timestamp_ms
          (length r.key)
          (r.key ++ r.value)
encode-layout_lem r h =
    let body : List ℕ = r.key ++ r.value in
    let n : length_field r ≡ 24 + length r.key + length r.value = length_field_lem h in
    let m : 24 + length r.key + length r.value - 4 ≡ 20 + length body =
      omega (arith, length-append r.key r.value) in
    let k : length r.key % 2 ^ 32 ≡ length r.key = omega arith in
    rw (
      encode-layout,
      n,
      covered-be,
      k,
      m,
      take-covered r.offset r.timestamp_ms (length r.key) (length body) body,
      take_all (length body) body (omega arith),
    )

-- `decode` reads back the record that `encode` wrote, and does not look at what follows it.
pub decode-encode : (r : Record) (rest : List ℕ) → IsRecord r → decode (encode r ++ rest) ≡ done r
decode-encode r rest h =
    rw (encode-layout_lem r h, layout-append, append_assoc)
      (decode-layout _ r.offset r.timestamp_ms r.key r.value rest h.size_fits h.offset_fits
        h.timestamp_fits refl)

-- The checks that a buffer has passed when it is decoded.
pub record Accepted (buffer : List ℕ) : Type 0 where
  pub has_header : 28 ≤ length buffer
  pub long_enough : 24 ≤ read_u32 buffer 0
  pub short_enough : read_u32 buffer 0 ≤ max_record_size
  pub complete : 4 + read_u32 buffer 0 ≤ length buffer
  pub crc_matches : read_u32 buffer 4 ≡ calculate (take (read_u32 buffer 0 - 4) (drop 8 buffer))

pub decode-Accepted : (buffer : List ℕ) {r : Record} → decode buffer ≡ done r → Accepted buffer
unfolding decode
decode-Accepted buffer e = ground arith

pub decode-payload_inv :
    (buffer : List ℕ) {r : Record}
    → decode buffer ≡ done r
    → decode_payload buffer (read_u32 buffer 0) ≡ done r
decode-payload_inv buffer e =
    let a : Accepted buffer = decode-Accepted buffer e in
    sym (decode-payload_lem buffer _ refl a.long_enough a.short_enough a.complete a.crc_matches) ∙ e
