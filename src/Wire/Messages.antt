-- ===== src/Wire/Messages.antt =====
-- include/streamforge/ProtocolMessages.hpp: requests and responses. A decoder gives `none` where the
-- source's returns false; what it has filled in until then is dropped by every caller.
pub mod RoundTrip
pub mod Groups
pub mod Responses
pub mod Lists
pub mod CommitTrips
mod Runs
use stream_forge.Base.{
  ℕ, zero, suc, ◌%◌, ◌^◌, List, [], ◌∷◌, Bool, true, false, Option, some, ltb, if◌then◌else◌,
  length,
}
use stream_forge.Wire.ByteOrder.{ByteOrder}
use stream_forge.Wire.Body.{
  BodyReader, remaining, read_u16, read_u32, read_u64, read_string, read_bytes, write_u16,
  write_u32, write_u64, write_string, write_bytes,
}
use stream_forge.Wire.Body.Reads.{Read, ◌>>=◌, pure, decode_with}

pub record CreateTopicRequest : Type 0 where
  pub topic : List ℕ
  pub partitions : ℕ
  pub retention_ms : ℕ
  pub retention_bytes : ℕ
  pub has_retention : Bool

pub record ProduceRecordPayload : Type 0 where
  pub key : List ℕ
  pub value : List ℕ

-- `partition` is the bit pattern of the int32_t.
pub record ProduceRequest : Type 0 where
  pub topic : List ℕ
  pub partition : ℕ
  pub record_count : ℕ
  pub records : List ProduceRecordPayload

pub record FetchRequest : Type 0 where
  pub topic : List ℕ
  pub partition : ℕ
  pub start_offset : ℕ
  pub max_bytes : ℕ
  pub max_messages : ℕ

-- `n` elements one after another, and their writing.
unfoldable pub read_list {ℓ} : {A : Type ℓ} → Read A → ℕ → Read (List A)
read_list p zero = pure []
read_list p (suc n) = do x ← p; xs ← read_list p n; pure (x ∷ xs)

unfoldable pub write_list {ℓ} : {A : Type ℓ} → (List ℕ → A → List ℕ) → List ℕ → List A → List ℕ
write_list write writer [] = writer
write_list write writer (x ∷ xs) = write_list write (write writer x) xs

module _ ⦃net : ByteOrder⦄ where
  -- The two numbers stand at the end, or nothing does.
  unfoldable pub read_retention : Read (ℕ × ℕ × Bool)
  read_retention r =
      if ltb 0 (remaining r)
      then (read_u64 >>= λ ms. read_u64 >>= λ bytes. pure (ms, bytes, true)) r
      else (r, some (0, 0, false))

  unfoldable pub read_create_topic : Read CreateTopicRequest
  read_create_topic = do
    topic ← read_string
    partitions ← read_u16
    retention ← read_retention
    pure (record {
      topic = topic;
      partitions = partitions;
      retention_ms = retention.0;
      retention_bytes = retention.1;
      has_retention = retention.2;
    })

  unfoldable pub encode_create_topic : List ℕ → CreateTopicRequest → List ℕ
  encode_create_topic writer m =
      let head = write_u16 (write_string writer m.topic) m.partitions in
      if m.has_retention then write_u64 (write_u64 head m.retention_ms) m.retention_bytes else head

  unfoldable pub read_payloads : ℕ → Read (List ProduceRecordPayload)
  read_payloads zero = pure []
  read_payloads (suc n) = do
    key ← read_bytes
    value ← read_bytes
    rest ← read_payloads n
    pure (record { key = key; value = value } ∷ rest)

  unfoldable pub read_produce : Read ProduceRequest
  read_produce = do
    topic ← read_string
    partition ← read_u32
    record_count ← read_u16
    records ← read_payloads record_count
    pure (record {
      topic = topic;
      partition = partition;
      record_count = record_count;
      records = records;
    })

  unfoldable pub encode_payloads : List ℕ → List ProduceRecordPayload → List ℕ
  encode_payloads writer [] = writer
  encode_payloads writer (p ∷ ps) =
      encode_payloads (write_bytes (write_bytes writer p.key) p.value) ps

  unfoldable pub encode_produce : List ℕ → ProduceRequest → List ℕ
  encode_produce writer m =
      encode_payloads
        (write_u16 (write_u32 (write_string writer m.topic) m.partition)
          (length m.records % 2 ^ 16))
        m.records

  unfoldable pub read_fetch : Read FetchRequest
  read_fetch = do
    topic ← read_string
    partition ← read_u16
    start_offset ← read_u64
    max_bytes ← read_u32
    max_messages ← read_u32
    pure (record {
      topic = topic;
      partition = partition;
      start_offset = start_offset;
      max_bytes = max_bytes;
      max_messages = max_messages;
    })

  unfoldable pub encode_fetch : List ℕ → FetchRequest → List ℕ
  encode_fetch writer m =
      write_u32
        (write_u32 (write_u64 (write_u16 (write_string writer m.topic) m.partition) m.start_offset)
          m.max_bytes)
        m.max_messages

-- The decoders of whole bodies.
module _ ⦃net : ByteOrder⦄ where
  abbrev pub decode_create_topic : List ℕ → Option CreateTopicRequest
  decode_create_topic = decode_with read_create_topic

  abbrev pub decode_produce : List ℕ → Option ProduceRequest
  decode_produce = decode_with read_produce

  abbrev pub decode_fetch : List ℕ → Option FetchRequest
  decode_fetch = decode_with read_fetch
