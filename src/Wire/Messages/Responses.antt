-- ===== src/Wire/Messages/Responses.antt =====
-- The messages on topics in include/streamforge/ProtocolMessages.hpp that are not in Wire/Messages, and
-- the description of a group.
use stream_forge.Base.{ℕ, ◌*◌, ◌%◌, ◌^◌, List, Bool, true, false, ◌&&◌, leb, if◌then◌else◌, length}
use stream_forge.Wire.ByteOrder.{ByteOrder}
use stream_forge.Wire.Body.{
  remaining, read_u8, read_u16, read_u32, read_u64, read_string, read_bytes, write_u8, write_u16,
  write_u32, write_u64, write_string, write_bytes,
}
use stream_forge.Wire.Body.Reads.{Read, ◌>>=◌, pure}
use stream_forge.Wire.Messages.{read_list, write_list}
use stream_forge.Wire.Messages.Groups.{
  TopicPartitionWire, require, read_topic_partition, write_topic_partition,
}

-- ListTopicsRequest, CreateTopicResponse, HeartbeatResponse, LeaveGroupResponse and
-- CommitOffsetResponse: nothing is read and nothing written.
unfoldable pub read_nothing : Read (Unit {0})
read_nothing = pure tt

unfoldable pub encode_nothing : List ℕ → Unit {0} → List ℕ
encode_nothing writer m = writer

pub record DescribeTopicRequest : Type 0 where
  pub topic : List ℕ

pub record ProduceResponse : Type 0 where
  pub partition : ℕ
  pub base_offset : ℕ
  pub count : ℕ

-- The timestamp is a bit pattern.
pub record FetchRecordWire : Type 0 where
  pub offset : ℕ
  pub timestamp_ms : ℕ
  pub key : List ℕ
  pub value : List ℕ

pub record FetchResponse : Type 0 where
  pub next_offset : ℕ
  pub high_watermark : ℕ
  pub earliest_offset : ℕ
  pub record_count : ℕ
  pub records : List FetchRecordWire

pub record TopicInfoWire : Type 0 where
  pub name : List ℕ
  pub partitions : ℕ

pub record ListTopicsResponse : Type 0 where
  pub count : ℕ
  pub topics : List TopicInfoWire

pub record PartitionOffsetWire : Type 0 where
  pub earliest : ℕ
  pub next_offset : ℕ
  pub segment_count : ℕ

pub record DescribeTopicResponse : Type 0 where
  pub name : List ℕ
  pub partitions : ℕ
  pub partition_offsets : List PartitionOffsetWire
  pub retention_ms : ℕ
  pub retention_bytes : ℕ
  pub degraded : ℕ

pub record MemberDescriptionWire : Type 0 where
  pub member_id : List ℕ
  pub session_timeout_ms : ℕ
  pub ms_since_heartbeat : ℕ
  pub count : ℕ
  pub assignment : List TopicPartitionWire

pub record DescribeGroupResponse : Type 0 where
  pub group_id : List ℕ
  pub generation : ℕ
  pub state : List ℕ
  pub strategy : ℕ
  pub member_count : ℕ
  pub members : List MemberDescriptionWire

module _ ⦃net : ByteOrder⦄ where
  unfoldable pub read_describe_topic : Read DescribeTopicRequest
  read_describe_topic = do topic ← read_string; pure (record { topic = topic })

  unfoldable pub encode_describe_topic : List ℕ → DescribeTopicRequest → List ℕ
  encode_describe_topic writer m = write_string writer m.topic

  unfoldable pub read_produce_response : Read ProduceResponse
  read_produce_response = do
    partition ← read_u16
    base_offset ← read_u64
    count ← read_u16
    pure (record { partition = partition; base_offset = base_offset; count = count })

  unfoldable pub encode_produce_response : List ℕ → ProduceResponse → List ℕ
  encode_produce_response writer m =
      write_u16 (write_u64 (write_u16 writer m.partition) m.base_offset) m.count

  unfoldable pub read_fetch_record : Read FetchRecordWire
  read_fetch_record = do
    offset ← read_u64
    timestamp_ms ← read_u64
    key ← read_bytes
    value ← read_bytes
    pure (record { offset = offset; timestamp_ms = timestamp_ms; key = key; value = value })

  unfoldable pub write_fetch_record : List ℕ → FetchRecordWire → List ℕ
  write_fetch_record writer rec =
      write_bytes (write_bytes (write_u64 (write_u64 writer rec.offset) rec.timestamp_ms) rec.key)
        rec.value

  unfoldable pub read_fetch_response : Read FetchResponse
  read_fetch_response = do
    next_offset ← read_u64
    high_watermark ← read_u64
    earliest_offset ← read_u64
    record_count ← read_u16
    records ← read_list read_fetch_record record_count
    pure (record {
      next_offset = next_offset;
      high_watermark = high_watermark;
      earliest_offset = earliest_offset;
      record_count = record_count;
      records = records;
    })

  unfoldable pub encode_fetch_response : List ℕ → FetchResponse → List ℕ
  encode_fetch_response writer m =
      write_list write_fetch_record
        (write_u16
          (write_u64 (write_u64 (write_u64 writer m.next_offset) m.high_watermark)
            m.earliest_offset)
          (length m.records % 2 ^ 16))
        m.records

  unfoldable pub read_topic_info : Read TopicInfoWire
  read_topic_info = do
    name ← read_string
    partitions ← read_u16
    pure (record { name = name; partitions = partitions })

  unfoldable pub write_topic_info : List ℕ → TopicInfoWire → List ℕ
  write_topic_info writer t = write_u16 (write_string writer t.name) t.partitions

  unfoldable pub read_list_topics_response : Read ListTopicsResponse
  read_list_topics_response = do
    count ← read_u16
    topics ← read_list read_topic_info count
    pure (record { count = count; topics = topics })

  unfoldable pub encode_list_topics_response : List ℕ → ListTopicsResponse → List ℕ
  encode_list_topics_response writer m =
      write_list write_topic_info (write_u16 writer (length m.topics % 2 ^ 16)) m.topics

  -- The number of segments is left out by older brokers.
  unfoldable pub read_partition_offset : Bool → Read PartitionOffsetWire
  read_partition_offset extended = do
    earliest ← read_u64
    next_offset ← read_u64
    segment_count ← if extended then read_u32 else pure 1
    pure (record { earliest = earliest; next_offset = next_offset; segment_count = segment_count })

  unfoldable pub write_partition_offset : List ℕ → PartitionOffsetWire → List ℕ
  write_partition_offset writer po =
      write_u32 (write_u64 (write_u64 writer po.earliest) po.next_offset) po.segment_count

  -- At least this is left.
  unfoldable pub has_left : ℕ → Read Bool
  has_left n r = pure (leb n (remaining r)) r

  -- The two numbers and the flag at the end, or the values that a new response has.
  unfoldable pub read_topic_end : Bool → Read (ℕ × ℕ × ℕ)
  read_topic_end false = pure (0, 0, 0)
  read_topic_end true = do
    retention_ms ← read_u64
    retention_bytes ← read_u64
    degraded ← read_u8
    pure (retention_ms, retention_bytes, degraded)

  unfoldable pub read_describe_topic_response : Read DescribeTopicResponse
  read_describe_topic_response = do
    name ← read_string
    partitions ← read_u16
    extended ← has_left (partitions * 20)
    partition_offsets ← read_list (read_partition_offset extended) partitions
    more ← has_left 17
    fields ← read_topic_end (extended && more)
    pure (record {
      name = name;
      partitions = partitions;
      partition_offsets = partition_offsets;
      retention_ms = fields.0;
      retention_bytes = fields.1;
      degraded = fields.2;
    })

  unfoldable pub encode_describe_topic_response : List ℕ → DescribeTopicResponse → List ℕ
  encode_describe_topic_response writer m =
      write_u8
        (write_u64
          (write_u64
            (write_list write_partition_offset (write_u16 (write_string writer m.name) m.partitions)
              m.partition_offsets)
            m.retention_ms)
          m.retention_bytes)
        m.degraded

  unfoldable pub read_member : Read MemberDescriptionWire
  read_member = do
    member_id ← read_string
    session_timeout_ms ← read_u32
    ms_since_heartbeat ← read_u32
    count ← read_u16
    enough ← require (count * 4)
    assignment ← read_list read_topic_partition count
    pure (record {
      member_id = member_id;
      session_timeout_ms = session_timeout_ms;
      ms_since_heartbeat = ms_since_heartbeat;
      count = count;
      assignment = assignment;
    })

  unfoldable pub write_member : List ℕ → MemberDescriptionWire → List ℕ
  write_member writer m =
      write_list write_topic_partition
        (write_u16
          (write_u32 (write_u32 (write_string writer m.member_id) m.session_timeout_ms)
            m.ms_since_heartbeat)
          (length m.assignment % 2 ^ 16))
        m.assignment

  unfoldable pub read_describe_group_response : Read DescribeGroupResponse
  read_describe_group_response = do
    group_id ← read_string
    generation ← read_u32
    state ← read_string
    strategy ← read_u8
    member_count ← read_u16
    members ← read_list read_member member_count
    pure (record {
      group_id = group_id;
      generation = generation;
      state = state;
      strategy = strategy;
      member_count = member_count;
      members = members;
    })

  unfoldable pub encode_describe_group_response : List ℕ → DescribeGroupResponse → List ℕ
  encode_describe_group_response writer m =
      write_list write_member
        (write_u16
          (write_u8 (write_string (write_u32 (write_string writer m.group_id) m.generation) m.state)
            m.strategy)
          (length m.members % 2 ^ 16))
        m.members
