-- ===== src/Wire/Messages/Groups.antt =====
-- The requests and responses of consumer groups in include/streamforge/ProtocolMessages.hpp.
use stream_forge.Base.{ℕ, ◌*◌, ◌%◌, ◌^◌, List, none, some, ltb, if◌then◌else◌, length}
use stream_forge.Wire.ByteOrder.{ByteOrder}
use stream_forge.Wire.Body.{
  remaining, read_u8, read_u16, read_u32, read_u64, read_string, write_u8, write_u16, write_u32,
  write_u64, write_string,
}
use stream_forge.Wire.Body.Reads.{Read, ◌>>=◌, pure}
use stream_forge.Wire.Messages.{read_list, write_list}

pub record JoinGroupRequest : Type 0 where
  pub group_id : List ℕ
  pub member_id : List ℕ
  pub session_timeout_ms : ℕ
  pub strategy : ℕ
  pub topic_count : ℕ
  pub topics : List (List ℕ)

pub record HeartbeatRequest : Type 0 where
  pub group_id : List ℕ
  pub member_id : List ℕ
  pub generation : ℕ

pub record LeaveGroupRequest : Type 0 where
  pub group_id : List ℕ
  pub member_id : List ℕ

pub record CommitOffsetItemWire : Type 0 where
  pub topic : List ℕ
  pub partition : ℕ
  pub offset : ℕ

pub record CommitOffsetRequest : Type 0 where
  pub group_id : List ℕ
  pub member_id : List ℕ
  pub generation : ℕ
  pub count : ℕ
  pub entries : List CommitOffsetItemWire

-- FetchOffsetQueryWire and TopicPartitionWire.
pub record TopicPartitionWire : Type 0 where
  pub topic : List ℕ
  pub partition : ℕ

pub record FetchOffsetRequest : Type 0 where
  pub group_id : List ℕ
  pub count : ℕ
  pub queries : List TopicPartitionWire

pub record DescribeGroupRequest : Type 0 where
  pub group_id : List ℕ

pub record JoinGroupResponse : Type 0 where
  pub member_id : List ℕ
  pub generation : ℕ
  pub heartbeat_interval_ms : ℕ
  pub count : ℕ
  pub assignments : List TopicPartitionWire

pub record FetchOffsetResponse : Type 0 where
  pub count : ℕ
  pub offsets : List CommitOffsetItemWire

module _ ⦃net : ByteOrder⦄ where
  -- `return false` if less than this is left.
  unfoldable pub require : ℕ → Read (Unit {0})
  require n r = if ltb (remaining r) n then (r, none) else (r, some tt)

  unfoldable pub read_join_group : Read JoinGroupRequest
  read_join_group = do
    group_id ← read_string
    member_id ← read_string
    session_timeout_ms ← read_u32
    strategy ← read_u8
    topic_count ← read_u16
    enough ← require (topic_count * 2)
    topics ← read_list read_string topic_count
    pure (record {
      group_id = group_id;
      member_id = member_id;
      session_timeout_ms = session_timeout_ms;
      strategy = strategy;
      topic_count = topic_count;
      topics = topics;
    })

  unfoldable pub encode_join_group : List ℕ → JoinGroupRequest → List ℕ
  encode_join_group writer m =
      write_list write_string
        (write_u16
          (write_u8
            (write_u32 (write_string (write_string writer m.group_id) m.member_id)
              m.session_timeout_ms)
            m.strategy)
          (length m.topics % 2 ^ 16))
        m.topics

  unfoldable pub read_heartbeat : Read HeartbeatRequest
  read_heartbeat = do
    group_id ← read_string
    member_id ← read_string
    generation ← read_u32
    pure (record { group_id = group_id; member_id = member_id; generation = generation })

  unfoldable pub encode_heartbeat : List ℕ → HeartbeatRequest → List ℕ
  encode_heartbeat writer m =
      write_u32 (write_string (write_string writer m.group_id) m.member_id) m.generation

  unfoldable pub read_leave_group : Read LeaveGroupRequest
  read_leave_group = do
    group_id ← read_string
    member_id ← read_string
    pure (record { group_id = group_id; member_id = member_id })

  unfoldable pub encode_leave_group : List ℕ → LeaveGroupRequest → List ℕ
  encode_leave_group writer m = write_string (write_string writer m.group_id) m.member_id

  -- Also an OffsetEntryWire, whose offset is signed.
  unfoldable pub read_commit_item : Read CommitOffsetItemWire
  read_commit_item = do
    topic ← read_string
    partition ← read_u16
    offset ← read_u64
    pure (record { topic = topic; partition = partition; offset = offset })

  unfoldable pub write_commit_item : List ℕ → CommitOffsetItemWire → List ℕ
  write_commit_item writer e =
      write_u64 (write_u16 (write_string writer e.topic) e.partition) e.offset

  unfoldable pub read_commit_offset : Read CommitOffsetRequest
  read_commit_offset = do
    group_id ← read_string
    member_id ← read_string
    generation ← read_u32
    count ← read_u16
    enough ← require (count * 12)
    entries ← read_list read_commit_item count
    pure (record {
      group_id = group_id;
      member_id = member_id;
      generation = generation;
      count = count;
      entries = entries;
    })

  unfoldable pub encode_commit_offset : List ℕ → CommitOffsetRequest → List ℕ
  encode_commit_offset writer m =
      write_list write_commit_item
        (write_u16
          (write_u32 (write_string (write_string writer m.group_id) m.member_id) m.generation)
          (length m.entries % 2 ^ 16))
        m.entries

  unfoldable pub read_topic_partition : Read TopicPartitionWire
  read_topic_partition = do
    topic ← read_string
    partition ← read_u16
    pure (record { topic = topic; partition = partition })

  unfoldable pub write_topic_partition : List ℕ → TopicPartitionWire → List ℕ
  write_topic_partition writer q = write_u16 (write_string writer q.topic) q.partition

  unfoldable pub read_fetch_offset : Read FetchOffsetRequest
  read_fetch_offset = do
    group_id ← read_string
    count ← read_u16
    enough ← require (count * 4)
    queries ← read_list read_topic_partition count
    pure (record { group_id = group_id; count = count; queries = queries })

  unfoldable pub encode_fetch_offset : List ℕ → FetchOffsetRequest → List ℕ
  encode_fetch_offset writer m =
      write_list write_topic_partition
        (write_u16 (write_string writer m.group_id) (length m.queries % 2 ^ 16)) m.queries

  unfoldable pub read_describe_group : Read DescribeGroupRequest
  read_describe_group = do group_id ← read_string; pure (record { group_id = group_id })

  unfoldable pub encode_describe_group : List ℕ → DescribeGroupRequest → List ℕ
  encode_describe_group writer m = write_string writer m.group_id

  unfoldable pub read_join_group_response : Read JoinGroupResponse
  read_join_group_response = do
    member_id ← read_string
    generation ← read_u32
    heartbeat_interval_ms ← read_u32
    count ← read_u16
    enough ← require (count * 4)
    assignments ← read_list read_topic_partition count
    pure (record {
      member_id = member_id;
      generation = generation;
      heartbeat_interval_ms = heartbeat_interval_ms;
      count = count;
      assignments = assignments;
    })

  unfoldable pub encode_join_group_response : List ℕ → JoinGroupResponse → List ℕ
  encode_join_group_response writer m =
      write_list write_topic_partition
        (write_u16
          (write_u32 (write_u32 (write_string writer m.member_id) m.generation)
            m.heartbeat_interval_ms)
          (length m.assignments % 2 ^ 16))
        m.assignments

  unfoldable pub read_fetch_offset_response : Read FetchOffsetResponse
  read_fetch_offset_response = do
    count ← read_u16
    enough ← require (count * 12)
    offsets ← read_list read_commit_item count
    pure (record { count = count; offsets = offsets })

  unfoldable pub encode_fetch_offset_response : List ℕ → FetchOffsetResponse → List ℕ
  encode_fetch_offset_response writer m =
      write_list write_commit_item (write_u16 writer (length m.offsets % 2 ^ 16)) m.offsets
