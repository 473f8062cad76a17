-- ===== src/Server/Handler/GroupRequests.antt =====
-- The requests of consumer groups in src/MessageHandler.cpp. Without a coordinator all are refused.
use stream_forge.Base.{ℕ, ◌%◌, ◌^◌, List, [], ◌∷◌, Option, none, some, ◌==◌, if◌then◌else◌, length}
use stream_forge.Base.Strings.{Name, put}
use stream_forge.Wire.ByteOrder.{ByteOrder}
use stream_forge.Wire.ErrorCode
use stream_forge.Wire.FrameCodec.{Frame}
use stream_forge.Wire.Body.Reads.{decode_with}
use stream_forge.Wire.Messages.Groups.{
  JoinGroupRequest, CommitOffsetItemWire, TopicPartitionWire, read_join_group, read_heartbeat,
  read_leave_group, read_commit_offset, read_fetch_offset, read_describe_group,
  encode_join_group_response, encode_fetch_offset_response,
}
use stream_forge.Wire.Messages.Responses.{MemberDescriptionWire, encode_describe_group_response}
use stream_forge.Group.Assignor.{TopicPartition}
use stream_forge.Group.OffsetStore.{OffsetStore, internal_offsets_topic}
use stream_forge.Storage.Partition.{Partition}
use stream_forge.Topics.{Topic, set_partition}
use stream_forge.Topics.Manager.{TopicManager, get_topic}
use stream_forge.Group.Coordinator.{
  GroupState, empty, stable, Coordinator, Outcome, heartbeat, leave,
}
use stream_forge.Group.Coordinator.Joining.{JoinArguments, JoinResult, join}
use stream_forge.Group.Coordinator.Commit.{
  OffsetCommitRequestEntry, TopicPartitionQuery, commit, fetch_offsets,
}
use stream_forge.Group.Coordinator.Inspection.{MemberDescription, GroupDescription, describe}
use stream_forge.Server.MessageType
use stream_forge.Server.Handler.{Broker, Environment, Handled, or_return, reply, refuse}

-- What a request to join passes on.
abbrev pub join_arguments : Environment → JoinGroupRequest → JoinArguments
join_arguments env m = record {
  group_id = m.group_id;
  member_id = m.member_id;
  session_timeout_ms = m.session_timeout_ms;
  topics = m.topics;
  strategy = m.strategy;
  now = env.now;
  rand_val = env.rand_val;
}

abbrev pub set_coordinator : Broker → Coordinator → Broker
set_coordinator b c = record b { coordinator = some c }

abbrev pub put_offsets : TopicManager → Partition → Option Topic → TopicManager
put_offsets tm p none = tm
put_offsets tm p (some t) = record tm {
  topics =
      put internal_offsets_topic (record t { partitions = set_partition 0 p t.partitions })
        tm.topics;
}

-- The partition of the offset store is the partition 0 of its topic, a shared object, so that a change
-- of it shows in the topic.
abbrev pub share_offsets : TopicManager → Option Partition → TopicManager
share_offsets tm none = tm
share_offsets tm (some p) = put_offsets tm p (get_topic tm internal_offsets_topic)

abbrev pub set_offsets : Broker → OffsetStore → Broker
set_offsets b store = record b {
  offsets = store;
  topics = share_offsets b.topics store.offsets_partition;
}

abbrev pub assignment_wire : List TopicPartition → List TopicPartitionWire
assignment_wire [] = []
assignment_wire (tp ∷ tps) =
    record { topic = tp.topic; partition = tp.partition } ∷ assignment_wire tps

unfoldable pub commit_entries : List CommitOffsetItemWire → List OffsetCommitRequestEntry
commit_entries [] = []
commit_entries (e ∷ entries) =
    record { topic = e.topic; partition = e.partition; offset = e.offset } ∷ commit_entries entries

unfoldable pub queries_of : List TopicPartitionWire → List TopicPartitionQuery
queries_of [] = []
queries_of (q ∷ queries) = record { topic = q.topic; partition = q.partition } ∷ queries_of queries

-- The queries with their answers. (There are as many.)
unfoldable pub offset_entries : List TopicPartitionQuery → List ℕ → List CommitOffsetItemWire
offset_entries [] offsets = []
offset_entries (q ∷ queries) [] = []
offset_entries (q ∷ queries) (o ∷ offsets) =
    record { topic = q.topic; partition = q.partition; offset = o } ∷ offset_entries queries offsets

-- "Empty" or "Stable"
abbrev pub state_name : Option GroupState → Name
state_name none = []
state_name (some empty) = b'E' ∷ b'm' ∷ b'p' ∷ b't' ∷ b'y' ∷ []
state_name (some stable) = b'S' ∷ b't' ∷ b'a' ∷ b'b' ∷ b'l' ∷ b'e' ∷ []

unfoldable pub members_wire : List MemberDescription → List MemberDescriptionWire
members_wire [] = []
members_wire (m ∷ members) =
    record {
      member_id = m.member_id;
      session_timeout_ms = m.session_timeout_ms;
      ms_since_heartbeat = m.ms_since_heartbeat;
      count = length m.assignment % 2 ^ 16;
      assignment = assignment_wire m.assignment;
    }
    ∷ members_wire members

module _ ⦃net : ByteOrder⦄ where
  unfoldable pub joined : Broker → Environment → Frame → Coordinator × JoinResult → Handled
  joined b env req (c, res) =
      if res.outcome.error_code == 0
      then (
        set_coordinator b c,
        some (
            reply req MessageType.join_group_ok (
              encode_join_group_response [] (record {
                member_id = res.member_id;
                generation = res.generation;
                heartbeat_interval_ms = res.heartbeat_interval_ms;
                count = length res.assignment % 2 ^ 16;
                assignments = assignment_wire res.assignment;
              }))),
      )
      else refuse (set_coordinator b c) env req res.outcome.error_code

  -- An answer with no body, or the error of the coordinator.
  unfoldable pub acknowledged : Broker → Environment → Frame → ℕ → Outcome → Handled
  acknowledged b env req type res =
      if res.error_code == 0 then (b, some (reply req type [])) else refuse b env req res.error_code

  unfoldable pub handle_join_group : Broker → Environment → Frame → Handled
  handle_join_group b env req =
      or_return b.coordinator (refuse b env req ErrorCode.internal_error) (λ c.
        or_return (decode_with read_join_group req.body) (refuse b env req ErrorCode.malformed_body)
          (λ m. joined b env req (join c b.topics (join_arguments env m))))

  unfoldable pub heard : Broker → Environment → Frame → ℕ → Coordinator × Outcome → Handled
  heard b env req type (c, res) = acknowledged (set_coordinator b c) env req type res

  unfoldable pub handle_heartbeat : Broker → Environment → Frame → Handled
  handle_heartbeat b env req =
      or_return b.coordinator (refuse b env req ErrorCode.internal_error) (λ c.
        or_return (decode_with read_heartbeat req.body) (refuse b env req ErrorCode.malformed_body)
          (λ m.
            heard b env req MessageType.heartbeat_ok
              (heartbeat c env.now m.group_id m.member_id m.generation)))

  unfoldable pub handle_leave_group : Broker → Environment → Frame → Handled
  handle_leave_group b env req =
      or_return b.coordinator (refuse b env req ErrorCode.internal_error) (λ c.
        or_return (decode_with read_leave_group req.body)
          (refuse b env req ErrorCode.malformed_body)
          (λ m.
            heard b env req MessageType.leave_group_ok (leave c b.topics m.group_id m.member_id)))

  unfoldable pub committed : Broker → Environment → Frame → OffsetStore × Outcome → Handled
  committed b env req (store, res) =
      acknowledged (set_offsets b store) env req MessageType.commit_ok res

  unfoldable pub handle_commit_offset : Broker → Environment → Frame → Handled
  handle_commit_offset b env req =
      or_return b.coordinator (refuse b env req ErrorCode.internal_error) (λ c.
        or_return (decode_with read_commit_offset req.body)
          (refuse b env req ErrorCode.malformed_body)
          (λ m. committed b env req (
            commit c b.topics b.offsets m.group_id m.member_id m.generation
              (commit_entries m.entries) env.now env.now_ms env.disks)))

  unfoldable pub handle_fetch_offset : Broker → Environment → Frame → Handled
  handle_fetch_offset b env req =
      or_return b.coordinator (refuse b env req ErrorCode.internal_error) (λ c.
        or_return (decode_with read_fetch_offset req.body)
          (refuse b env req ErrorCode.malformed_body)
          (λ m.
            let queries = queries_of m.queries in
            (
              b,
              some (
                  reply req MessageType.offsets (
                    encode_fetch_offset_response [] (record {
                      count = length queries % 2 ^ 16;
                      offsets = offset_entries queries (fetch_offsets b.offsets m.group_id queries);
                    }))),
            )))

  unfoldable pub described : Broker → Environment → Frame → GroupDescription → Handled
  described b env req d =
      if d.outcome.error_code == 0
      then (
        b,
        some (
            reply req MessageType.group_description (
              encode_describe_group_response [] (record {
                group_id = d.group_id;
                generation = d.generation;
                state = state_name d.state;
                strategy = d.strategy;
                member_count = length d.members % 2 ^ 16;
                members = members_wire d.members;
              }))),
      )
      else refuse b env req d.outcome.error_code

  unfoldable pub handle_describe_group : Broker → Environment → Frame → Handled
  handle_describe_group b env req =
      or_return b.coordinator (refuse b env req ErrorCode.internal_error) (λ c.
        or_return (decode_with read_describe_group req.body)
          (refuse b env req ErrorCode.malformed_body)
          (λ m. described b env req (describe c env.now m.group_id)))
