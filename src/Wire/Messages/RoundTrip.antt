-- ===== src/Wire/Messages/RoundTrip.antt =====
-- Requests of include/streamforge/ProtocolMessages.hpp are decoded as they were encoded.
use stream_forge.Base.{
  ℕ, ◌%◌, ◌^◌, ◌<◌, ◌≤◌, ◌≡◌, sym, List, [], ◌∷◌, ◌++◌, some, arith, length, All, append_assoc,
  append-nil,
}
use stream_forge.Wire.ByteOrder.{ByteOrder}
use stream_forge.Wire.FrameCodec.{max_frame_length}
use stream_forge.Wire.FrameCodec
use stream_forge.Wire.Body.{
  read_u16, read_u32, read_string, read_bytes, write_u16, write_u32, write_string, write_bytes,
}
use stream_forge.Wire.Body.Reads.{
  Reads, pure-Reads, bind-Reads, decode_with_lem, read_u16-Reads, read_u32-Reads, read_string-Reads,
  read_bytes-Reads, u64_bytes, string_bytes, vector_bytes,
}
use stream_forge.Wire.Messages.{
  FetchRequest, ProduceRequest, ProduceRecordPayload, read_payloads, read_produce, encode_payloads,
  encode_produce, decode_produce,
}

module _ ⦃net : ByteOrder⦄ where
  fetch_bytes : FetchRequest → List ℕ
  fetch_bytes m =
      string_bytes m.topic
      ++ (FrameCodec.write_u16 m.partition
          ++ (u64_bytes m.start_offset
              ++ (FrameCodec.write_u32 m.max_bytes ++ (FrameCodec.write_u32 m.max_messages ++ []))))

pub record IsPayload (p : ProduceRecordPayload) : Type 0 where
  pub key_fits : length p.key ≤ max_frame_length
  pub value_fits : length p.value ≤ max_frame_length

-- The fields fit, and the count is that of the records.
pub record IsProduceRequest (m : ProduceRequest) : Type 0 where
  pub topic_fits : length m.topic < 2 ^ 16
  pub partition_fits : m.partition < 2 ^ 32
  pub count_fits : m.record_count < 2 ^ 16
  pub counted : m.record_count ≡ length m.records
  pub payloads : All IsPayload m.records

module _ ⦃net : ByteOrder⦄ where
  payload_bytes : List ProduceRecordPayload → List ℕ
  payload_bytes [] = []
  payload_bytes (p ∷ ps) = vector_bytes p.key ++ (vector_bytes p.value ++ (payload_bytes ps ++ []))

  payload_step :
      (w : List ℕ) (p : ProduceRecordPayload) (ps : List ProduceRecordPayload)
      → IsPayload p
      → write_bytes (write_bytes w p.key) p.value ++ payload_bytes ps ≡ w ++ payload_bytes (p ∷ ps)
  unfolding payload_bytes write_bytes write_u32
  payload_step w p ps k =
      let e : length p.key % 2 ^ 32 ≡ length p.key = let l = k.key_fits in omega arith in
      let d : length p.value % 2 ^ 32 ≡ length p.value = let l = k.value_fits in omega arith in
      rw (e, d) (simp (append_assoc, append-nil))

  encode_payloads-bytes :
      (writer : List ℕ) (ps : List ProduceRecordPayload)
      → All IsPayload ps
      → encode_payloads writer ps ≡ writer ++ payload_bytes ps
  unfolding encode_payloads payload_bytes
  encode_payloads-bytes writer [] h = sym (append-nil writer)
  encode_payloads-bytes writer (p ∷ ps) h =
      rw (encode_payloads-bytes (write_bytes (write_bytes writer p.key) p.value) ps h.1)
        (payload_step writer p ps h.0)

  read_payloads-Reads :
      (ps : List ProduceRecordPayload)
      → All IsPayload ps
      → Reads (read_payloads (length ps)) (payload_bytes ps) ps
  unfolding read_payloads payload_bytes
  read_payloads-Reads [] h = pure-Reads []
  read_payloads-Reads (p ∷ ps) h =
      bind-Reads read_bytes _ (vector_bytes p.key) _ p.key (p ∷ ps)
        (read_bytes-Reads p.key h.0.key_fits)
        (bind-Reads read_bytes _ (vector_bytes p.value) _ p.value (p ∷ ps)
          (read_bytes-Reads p.value h.0.value_fits)
          (bind-Reads (read_payloads (length ps)) _ (payload_bytes ps) [] ps (p ∷ ps)
            (read_payloads-Reads ps h.1) (pure-Reads (p ∷ ps))))

  produce_bytes : ProduceRequest → List ℕ
  produce_bytes m =
      string_bytes m.topic
      ++ (FrameCodec.write_u32 m.partition
          ++ (FrameCodec.write_u16 m.record_count ++ (payload_bytes m.records ++ [])))

  encode_produce-bytes :
      (m : ProduceRequest) → IsProduceRequest m → encode_produce [] m ≡ produce_bytes m
  unfolding encode_produce produce_bytes write_u32 write_u16 write_string
  encode_produce-bytes m h =
      let e : length m.topic % 2 ^ 16 ≡ length m.topic = let k = h.topic_fits in omega arith in
      let c : length m.records % 2 ^ 16 ≡ m.record_count =
        let k = h.count_fits in let l = h.counted in omega arith in
      rw (e, c, encode_payloads-bytes _ m.records h.payloads) (simp (append_assoc, append-nil))

  read_produce-Reads :
      (m : ProduceRequest) → IsProduceRequest m → Reads read_produce (produce_bytes m) m
  unfolding read_produce produce_bytes
  read_produce-Reads m h =
      bind-Reads read_string _ (string_bytes m.topic) _ m.topic m
        (read_string-Reads m.topic h.topic_fits)
        (bind-Reads read_u32 _ (FrameCodec.write_u32 m.partition) _ m.partition m
          (read_u32-Reads m.partition h.partition_fits)
          (bind-Reads read_u16 _ (FrameCodec.write_u16 m.record_count) _ m.record_count m
            (read_u16-Reads m.record_count h.count_fits)
            (bind-Reads (read_payloads m.record_count) _ (payload_bytes m.records) [] m.records m
              (rw h.counted (read_payloads-Reads m.records h.payloads)) (pure-Reads m))))

  -- A produce request whose fields fit and that counts its records is decoded as it was encoded,
  -- whatever the number of its records.
  pub decode_produce-encode_produce :
      (m : ProduceRequest) → IsProduceRequest m → decode_produce (encode_produce [] m) ≡ some m
  decode_produce-encode_produce m h =
      rw (encode_produce-bytes m h)
        (decode_with_lem read_produce (produce_bytes m) m (read_produce-Reads m h))
