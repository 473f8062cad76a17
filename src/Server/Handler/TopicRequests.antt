-- ===== src/Server/Handler/TopicRequests.antt =====
-- The requests on topics in src/MessageHandler.cpp.
use stream_forge.Base.{
  ℕ, ◌+◌, ◌%◌, ◌^◌, min, List, [], ◌∷◌, ◌||◌, not, none, some, ltb, leb, ◌==◌, if◌then◌else◌,
  length, map,
}
use stream_forge.Base.Strings.{Name, put}
use stream_forge.Status.{Result, done, error, fault}
use stream_forge.Wire.ByteOrder.{ByteOrder}
use stream_forge.Wire.ErrorCode
use stream_forge.Wire.FrameCodec.{Frame}
use stream_forge.Wire.Body.Reads.{decode_with}
use stream_forge.Wire.Messages.{
  CreateTopicRequest, ProduceRecordPayload, ProduceRequest, FetchRequest, read_create_topic,
  read_produce, read_fetch,
}
use stream_forge.Wire.Messages.Responses.{
  DescribeTopicRequest, FetchRecordWire, TopicInfoWire, PartitionOffsetWire, read_nothing,
  read_describe_topic, encode_produce_response, encode_fetch_response, encode_list_topics_response,
  encode_describe_topic_response,
}
use stream_forge.Storage.RecordCodec.{Record}
use stream_forge.Storage.Partition.{Partition, Disk, BatchItem, earliest_offset, segment_count}
use stream_forge.Storage.Partition.Read.{ReadResult, read}
use stream_forge.Topics.{Topic, num_partitions, produce_batch, get_partition, is_degraded}
use stream_forge.Topics.Manager.{
  TopicManager, validate_topic_name, create_topic, get_topic, list_topics,
}
use stream_forge.Group.Coordinator.{is_internal}
use stream_forge.Server.MessageType
use stream_forge.Server.Handler.{
  Broker, Environment, Handled, map_status_to_error_code, or_return, reply, refuse,
}

-- A topic is a shared object, so that a change of it shows in the manager's map.
abbrev pub set_topic : Broker → Name → Topic → Broker
set_topic b name t =
    let tm = b.topics in record b { topics = record tm { topics = put name t tm.topics } }

-- The i-th append finds the disk `disks i`.
unfoldable pub batch_of : ℕ → (ℕ → Disk) → List ProduceRecordPayload → List BatchItem
batch_of i disks [] = []
batch_of i disks (r ∷ records) =
    record { key = r.key; value = r.value; disk = disks i } ∷ batch_of (i + 1) disks records

abbrev pub fetch_record : Record → FetchRecordWire
fetch_record r = record {
  offset = r.offset;
  timestamp_ms = r.timestamp_ms;
  key = r.key;
  value = r.value;
}

abbrev pub after_last : ℕ → List Record → ℕ
after_last next [] = next
after_last next (r ∷ records) = after_last ((r.offset + 1) % 2 ^ 64) records

-- Internal topics are left out.
unfoldable pub topic_infos : List Topic → List TopicInfoWire
topic_infos [] = []
topic_infos (t ∷ topics) =
    let rest = topic_infos topics in
    if is_internal t.name
    then rest
    else record { name = t.name; partitions = num_partitions t % 2 ^ 16 } ∷ rest

unfoldable pub partition_offsets : List Partition → List PartitionOffsetWire
partition_offsets [] = []
partition_offsets (p ∷ ps) =
    record {
      earliest = earliest_offset p;
      next_offset = p.next_offset;
      segment_count = segment_count p % 2 ^ 32;
    }
    ∷ partition_offsets ps

module _ ⦃net : ByteOrder⦄ where
  unfoldable pub topic_created :
      Broker → Environment → Frame → TopicManager × Result Topic → Handled
  topic_created b env req (tm, done t) =
      (record b { topics = tm }, some (reply req MessageType.create_topic_ok []))
  topic_created b env req (tm, error s) =
      refuse (record b { topics = tm }) env req (map_status_to_error_code s)
  topic_created b env req (tm, fault) = (record b { topics = tm }, none)

  unfoldable pub create_topic_for : Broker → Environment → Frame → CreateTopicRequest → Handled
  create_topic_for b env req m =
      if m.partitions == 0
      then refuse b env req ErrorCode.invalid_argument
      else if is_internal m.topic
      then refuse b env req ErrorCode.invalid_topic_name
      else if not (validate_topic_name m.topic)
      then refuse b env req ErrorCode.invalid_topic_name
      else topic_created b env req (
          create_topic b.topics m.topic m.partitions (if m.has_retention then m.retention_ms else 0)
            (if m.has_retention then m.retention_bytes else 0) env.topic_disk)

  unfoldable pub handle_create_topic : Broker → Environment → Frame → Handled
  handle_create_topic b env req =
      or_return (decode_with read_create_topic req.body) (refuse b env req ErrorCode.malformed_body)
        (λ m. create_topic_for b env req m)

  unfoldable pub produced :
      Broker → Environment → Frame → ProduceRequest → Topic × ℕ × Result ℕ → Handled
  produced b env req m (t, chosen, done base) = (
    set_topic b m.topic t,
    some (
        reply req MessageType.produce_ok (
          encode_produce_response [] (record {
            partition = chosen % 2 ^ 16;
            base_offset = base;
            count = length m.records % 2 ^ 16;
          }))),
  )
  produced b env req m (t, chosen, error s) =
      refuse (set_topic b m.topic t) env req (map_status_to_error_code s)
  produced b env req m (t, chosen, fault) = (set_topic b m.topic t, none)

  unfoldable pub produce_records :
      Broker → Environment → Frame → ProduceRequest → List ProduceRecordPayload → Handled
  produce_records b env req m [] = refuse b env req ErrorCode.invalid_argument
  produce_records b env req m (r ∷ records) =
      or_return (get_topic b.topics m.topic) (refuse b env req ErrorCode.unknown_topic) (λ t.
        produced b env req m
          (produce_batch t m.partition (batch_of 0 env.disks (r ∷ records)) env.now_ms 0))

  unfoldable pub produce_for : Broker → Environment → Frame → ProduceRequest → Handled
  produce_for b env req m =
      if is_internal m.topic
      then refuse b env req ErrorCode.invalid_topic_name
      else produce_records b env req m m.records

  unfoldable pub handle_produce : Broker → Environment → Frame → Handled
  handle_produce b env req =
      or_return (decode_with read_produce req.body) (refuse b env req ErrorCode.malformed_body)
        (λ m. produce_for b env req m)

  -- FETCH_OK with these records, and the offset to go on from.
  unfoldable pub fetch_reply : Frame → Partition → List Record → ℕ → Frame
  fetch_reply req p records next = reply req MessageType.fetch_ok (
      encode_fetch_response [] (record {
        next_offset = next;
        high_watermark = p.next_offset;
        earliest_offset = earliest_offset p;
        record_count = length records % 2 ^ 16;
        records = map fetch_record records;
      }))

  unfoldable pub fetched :
      Broker → Environment → Frame → FetchRequest → Partition → ReadResult → Handled
  fetched b env req m p (records, done u) =
      (b, some (fetch_reply req p records (after_last m.start_offset records)))
  fetched b env req m p (records, error s) = refuse b env req (map_status_to_error_code s)
  fetched b env req m p (records, fault) = (b, none)

  unfoldable pub fetch_from : Broker → Environment → Frame → FetchRequest → Partition → Handled
  fetch_from b env req m p =
      if m.start_offset == p.next_offset
      then (b, some (fetch_reply req p [] p.next_offset))
      else if ltb p.next_offset m.start_offset || ltb m.start_offset (earliest_offset p)
      then refuse b env req ErrorCode.offset_out_of_range
      else fetched b env req m p (
          read p m.start_offset
            (record { max_messages = m.max_messages; max_bytes = min m.max_bytes 1048500 }))

  unfoldable pub fetch_for : Broker → Environment → Frame → FetchRequest → Handled
  fetch_for b env req m =
      if is_internal m.topic
      then refuse b env req ErrorCode.invalid_topic_name
      else if m.max_bytes == 0 || m.max_messages == 0
      then refuse b env req ErrorCode.invalid_argument
      else or_return (get_topic b.topics m.topic) (refuse b env req ErrorCode.unknown_topic) (λ t.
        if leb (num_partitions t) m.partition
        then refuse b env req ErrorCode.invalid_partition
        else or_return (get_partition t m.partition) ((b, none)) (λ p. fetch_from b env req m p))

  unfoldable pub handle_fetch : Broker → Environment → Frame → Handled
  handle_fetch b env req =
      or_return (decode_with read_fetch req.body) (refuse b env req ErrorCode.malformed_body)
        (λ m. fetch_for b env req m)

  unfoldable pub handle_list_topics : Broker → Environment → Frame → Handled
  handle_list_topics b env req =
      or_return (decode_with read_nothing req.body) (refuse b env req ErrorCode.malformed_body)
        (λ m.
          let topics = topic_infos (list_topics b.topics) in
          (
            b,
            some (
                reply req MessageType.topics (
                  encode_list_topics_response []
                    (record { count = length topics % 2 ^ 16; topics = topics }))),
          ))

  unfoldable pub describe_topic_for : Broker → Environment → Frame → DescribeTopicRequest → Handled
  describe_topic_for b env req m =
      if is_internal m.topic
      then refuse b env req ErrorCode.invalid_topic_name
      else or_return (get_topic b.topics m.topic) (refuse b env req ErrorCode.unknown_topic) (λ t. (
        b,
        some (
            reply req MessageType.topic_description (
              encode_describe_topic_response [] (record {
                name = t.name;
                partitions = num_partitions t % 2 ^ 16;
                partition_offsets = partition_offsets t.partitions;
                retention_ms = t.retention_ms;
                retention_bytes = t.retention_bytes;
                degraded = if is_degraded t then 1 else 0;
              }))),
      ))

  unfoldable pub handle_describe_topic : Broker → Environment → Frame → Handled
  handle_describe_topic b env req =
      or_return (decode_with read_describe_topic req.body)
        (refuse b env req ErrorCode.malformed_body) (λ m. describe_topic_for b env req m)
