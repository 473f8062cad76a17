-- ===== src/Server/Handler/Answering.antt =====
-- Each handler of src/MessageHandler.cpp answers its request.
use stream_forge.Base.{
  ℕ, ◌≡◌, ◌==◌, none, min, arith, leb, Bool-cases, refl, inl, inr, List, [], ◌∷◌, Bool, true, false,
  some, if◌then◌else◌,
}
use stream_forge.Status.{Result, done, error, fault}
use stream_forge.Wire.ByteOrder.{ByteOrder}
use stream_forge.Wire.FrameCodec.{
  Frame, pong, echo_reply, create_pong_frame, create_echo_reply_frame,
}
use stream_forge.Wire.Messages.{
  CreateTopicRequest, ProduceRecordPayload, ProduceRequest, FetchRequest,
}
use stream_forge.Wire.Messages.Responses.{DescribeTopicRequest}
use stream_forge.Storage.Partition.{Partition}
use stream_forge.Storage.Partition.Read.{ReadResult, read}
use stream_forge.Topics.{Topic, num_partitions, produce_batch, get_partition}
use stream_forge.Topics.Choice.{get_elem?-lt}
use stream_forge.Topics.Manager.{TopicManager, create_topic, get_topic}
use stream_forge.Group.Coordinator.{Coordinator, Outcome}
use stream_forge.Group.Coordinator.Joining.{JoinResult}
use stream_forge.Group.Coordinator.Inspection.{GroupDescription}
use stream_forge.Group.OffsetStore.{OffsetStore}
use stream_forge.Server.MessageType
use stream_forge.Server.Handler.{Broker, Environment, Handled, or_return, refuse}
use stream_forge.Server.Handler.TopicRequests.{
  batch_of, topic_created, create_topic_for, handle_create_topic, produced, produce_records,
  produce_for, fetch_reply, handle_produce, fetched, fetch_from, fetch_for, handle_fetch,
  handle_list_topics, describe_topic_for, handle_describe_topic,
}
use stream_forge.Server.Handler.GroupRequests.{
  joined, acknowledged, heard, committed, described, handle_join_group, handle_heartbeat,
  handle_leave_group, handle_commit_offset, handle_fetch_offset, handle_describe_group,
}
use stream_forge.Server.Handler.Dispatch.{handle_request}
use stream_forge.Server.Handler.Answers.{
  FaultOf, in_creation, in_append, in_read, Replies, answer_type, Answers, refuse-Answers,
  reply-Answers, or_refuse-Answers, refuse_if-Answers, answer_if-Answers,
}

module _ ⦃net : ByteOrder⦄ (cause : Type 0) (env : Environment) (req : Frame) where
  topic_created-Answers :
      (b : Broker) (res : TopicManager × Result Topic)
      → (res.1 ≡ fault → cause)
      → Answers cause req MessageType.create_topic_ok (topic_created b env req res)
  unfolding topic_created
  topic_created-Answers b (tm, done t) k = reply-Answers cause env req _ _ _
  topic_created-Answers b (tm, error s) k = refuse-Answers cause env req _ _ _
  topic_created-Answers b (tm, fault) k = record { frame = k refl }

  create_topic_for-Answers :
      (b : Broker) (m : CreateTopicRequest)
      → ((create_topic b.topics m.topic m.partitions
              (if m.has_retention then m.retention_ms else 0)
              (if m.has_retention then m.retention_bytes else 0)
              env.topic_disk).1
            ≡ fault
          → cause)
      → Answers cause req MessageType.create_topic_ok (create_topic_for b env req m)
  unfolding create_topic_for
  create_topic_for-Answers b m k = search (topic_created-Answers, refuse_if-Answers)

  produced-Answers :
      (b : Broker) (m : ProduceRequest) (res : Topic × ℕ × Result ℕ)
      → (res.2 ≡ fault → cause)
      → Answers cause req MessageType.produce_ok (produced b env req m res)
  unfolding produced
  produced-Answers b m (t, chosen, done base) k = reply-Answers cause env req _ _ _
  produced-Answers b m (t, chosen, error s) k = refuse-Answers cause env req _ _ _
  produced-Answers b m (t, chosen, fault) k = record { frame = k refl }

  produce_records-Answers :
      (b : Broker) (m : ProduceRequest) (records : List ProduceRecordPayload)
      → ((t : Topic)
          → get_topic b.topics m.topic ≡ some t
          → (produce_batch t m.partition (batch_of 0 env.disks records) env.now_ms 0).2 ≡ fault
          → cause)
      → Answers cause req MessageType.produce_ok (produce_records b env req m records)
  unfolding produce_records
  produce_records-Answers b m [] k = refuse-Answers cause env req b _ _
  produce_records-Answers b m (r ∷ records) k =
      or_refuse-Answers cause env req b _ _ _ _ (λ t e. produced-Answers b m _ (k t e))

  produce_for-Answers :
      (b : Broker) (m : ProduceRequest)
      → ((t : Topic)
          → get_topic b.topics m.topic ≡ some t
          → (produce_batch t m.partition (batch_of 0 env.disks m.records) env.now_ms 0).2 ≡ fault
          → cause)
      → Answers cause req MessageType.produce_ok (produce_for b env req m)
  unfolding produce_for
  produce_for-Answers b m k = search (refuse_if-Answers, produce_records-Answers)

  fetched-Answers :
      (b : Broker) (m : FetchRequest) (p : Partition) (res : ReadResult)
      → (res.1 ≡ fault → cause)
      → Answers cause req MessageType.fetch_ok (fetched b env req m p res)
  unfolding fetched fetch_reply
  fetched-Answers b m p (records, done u) k = reply-Answers cause env req _ _ _
  fetched-Answers b m p (records, error s) k = refuse-Answers cause env req _ _ _
  fetched-Answers b m p (records, fault) k = record { frame = k refl }

  fetch_from-Answers :
      (b : Broker) (m : FetchRequest) (p : Partition)
      → ((read p m.start_offset
              (record { max_messages = m.max_messages; max_bytes = min m.max_bytes 1048500 })).1
            ≡ fault
          → cause)
      → Answers cause req MessageType.fetch_ok (fetch_from b env req m p)
  unfolding fetch_from fetch_reply
  fetch_from-Answers b m p k = search (answer_if-Answers, refuse_if-Answers, fetched-Answers)

  -- A partition below the number of partitions is there.
  or_there-Answers :
      (b : Broker) (t : Topic) (i type code : ℕ) (next : Partition → Handled)
      → ((p : Partition) → get_partition t i ≡ some p → Answers cause req type (next p))
      → Answers cause req type (
          if leb (num_partitions t) i
          then refuse b env req code
          else or_return (get_partition t i) (b, none) next)
  unfolding num_partitions get_partition or_return
  or_there-Answers b t i type code next k = elim (Bool-cases (leb (num_partitions t) i)) [
    | inl e ↦ rw e (refuse-Answers cause env req b type code)
    | inr e ↦ let (p, f) = get_elem?-lt t.partitions i (ground arith) in rw (e, f) (k p f)
  ]

  fetch_for-Answers :
      (b : Broker) (m : FetchRequest)
      → ((t : Topic) (p : Partition)
          → get_topic b.topics m.topic ≡ some t
          → get_partition t m.partition ≡ some p
          → (read p m.start_offset
              (record { max_messages = m.max_messages; max_bytes = min m.max_bytes 1048500 })).1
            ≡ fault
          → cause)
      → Answers cause req MessageType.fetch_ok (fetch_for b env req m)
  unfolding fetch_for
  fetch_for-Answers b m k =
      search (refuse_if-Answers, or_refuse-Answers, or_there-Answers, fetch_from-Answers) depth 10

  describe_topic_for-Answers :
      (b : Broker) (m : DescribeTopicRequest)
      → Answers cause req MessageType.topic_description (describe_topic_for b env req m)
  unfolding describe_topic_for
  describe_topic_for-Answers b m = search (refuse_if-Answers, or_refuse-Answers, reply-Answers)

  joined-Answers :
      (b : Broker) (res : Coordinator × JoinResult)
      → Answers cause req MessageType.join_group_ok (joined b env req res)
  unfolding joined
  joined-Answers b (c, res) = search (answer_if-Answers, refuse-Answers)

  acknowledged-Answers :
      (b : Broker) (type : ℕ) (res : Outcome)
      → Answers cause req type (acknowledged b env req type res)
  unfolding acknowledged
  acknowledged-Answers b type res = search (answer_if-Answers, refuse-Answers)

  heard-Answers :
      (b : Broker) (type : ℕ) (res : Coordinator × Outcome)
      → Answers cause req type (heard b env req type res)
  unfolding heard
  heard-Answers b type (c, res) = acknowledged-Answers _ type res

  committed-Answers :
      (b : Broker) (res : OffsetStore × Outcome)
      → Answers cause req MessageType.commit_ok (committed b env req res)
  unfolding committed
  committed-Answers b (store, res) = acknowledged-Answers _ _ res

  described-Answers :
      (b : Broker) (d : GroupDescription)
      → Answers cause req MessageType.group_description (described b env req d)
  unfolding described
  described-Answers b d = search (answer_if-Answers, refuse-Answers)

  handle_list_topics-Answers :
      (b : Broker) → Answers cause req MessageType.topics (handle_list_topics b env req)
  unfolding handle_list_topics
  handle_list_topics-Answers b = search (or_refuse-Answers, reply-Answers)

  handle_join_group-Answers :
      (b : Broker) → Answers cause req MessageType.join_group_ok (handle_join_group b env req)
  unfolding handle_join_group
  handle_join_group-Answers b = search (or_refuse-Answers, joined-Answers)

  handle_heartbeat-Answers :
      (b : Broker) → Answers cause req MessageType.heartbeat_ok (handle_heartbeat b env req)
  unfolding handle_heartbeat
  handle_heartbeat-Answers b = search (or_refuse-Answers, heard-Answers)

  handle_leave_group-Answers :
      (b : Broker) → Answers cause req MessageType.leave_group_ok (handle_leave_group b env req)
  unfolding handle_leave_group
  handle_leave_group-Answers b = search (or_refuse-Answers, heard-Answers)

  handle_commit_offset-Answers :
      (b : Broker) → Answers cause req MessageType.commit_ok (handle_commit_offset b env req)
  unfolding handle_commit_offset
  handle_commit_offset-Answers b = search (or_refuse-Answers, committed-Answers)

  handle_fetch_offset-Answers :
      (b : Broker) → Answers cause req MessageType.offsets (handle_fetch_offset b env req)
  unfolding handle_fetch_offset
  handle_fetch_offset-Answers b = search (or_refuse-Answers, reply-Answers)

  handle_describe_group-Answers :
      (b : Broker)
      → Answers cause req MessageType.group_description (handle_describe_group b env req)
  unfolding handle_describe_group
  handle_describe_group-Answers b = search (or_refuse-Answers, described-Answers)

  -- Where a test chooses the handler, it chooses the type.
  choose-Answers :
      (c : Bool) (x y : Handled) (s t : ℕ)
      → (c ≡ true → Answers cause req s x)
      → Answers cause req t y
      → Answers cause req (if c then s else t) (if c then x else y)
  choose-Answers true x y s t h k = h refl
  choose-Answers false x y s t h k = k

  pong-Answers : (b : Broker) → Answers cause req pong (b, some (create_pong_frame req.request_id))
  unfolding create_pong_frame
  pong-Answers b = record { frame = (refl, inl refl) }

  echo_reply-Answers :
      (b : Broker)
      → Answers cause req echo_reply (b, some (create_echo_reply_frame req.request_id req.body))
  unfolding create_echo_reply_frame
  echo_reply-Answers b = record { frame = (refl, inl refl) }

  handle_describe_topic-Answers :
      (b : Broker)
      → Answers cause req MessageType.topic_description (handle_describe_topic b env req)
  unfolding handle_describe_topic
  handle_describe_topic-Answers b = search (or_refuse-Answers, describe_topic_for-Answers)

module _ ⦃net : ByteOrder⦄ (b : Broker) (env : Environment) (req : Frame) where
  abbrev AnswersOrFaults : ℕ → Handled → Type 0
  AnswersOrFaults type h = Answers (FaultOf b env req) req type h

  handle_create_topic-Answers :
      (req.type == MessageType.create_topic) ≡ true
      → AnswersOrFaults MessageType.create_topic_ok (handle_create_topic b env req)
  unfolding handle_create_topic
  handle_create_topic-Answers e =
      or_refuse-Answers _ env req b _ _ _ _
        (λ m d. create_topic_for-Answers _ env req b m (in_creation m e d))

  handle_produce-Answers :
      (req.type == MessageType.produce) ≡ true
      → AnswersOrFaults MessageType.produce_ok (handle_produce b env req)
  unfolding handle_produce
  handle_produce-Answers e =
      or_refuse-Answers _ env req b _ _ _ _
        (λ m d. produce_for-Answers _ env req b m (λ t. in_append m t e d))

  handle_fetch-Answers :
      (req.type == MessageType.fetch) ≡ true
      → AnswersOrFaults MessageType.fetch_ok (handle_fetch b env req)
  unfolding handle_fetch
  handle_fetch-Answers e =
      or_refuse-Answers _ env req b _ _ _ _
        (λ m d. fetch_for-Answers _ env req b m (λ t p. in_read m t p e d))

  handle_request-Answers : AnswersOrFaults (answer_type req.type) (handle_request b env req)
  unfolding handle_request answer_type
  handle_request-Answers =
      search
        (
          choose-Answers, pong-Answers, echo_reply-Answers, handle_create_topic-Answers,
          handle_produce-Answers, handle_fetch-Answers, handle_list_topics-Answers,
          handle_describe_topic-Answers, handle_join_group-Answers, handle_heartbeat-Answers,
          handle_leave_group-Answers, handle_commit_offset-Answers, handle_fetch_offset-Answers,
          handle_describe_group-Answers, refuse-Answers,
        )
        depth 16

-- Every request is answered by one frame, which has the id of the request, and is an error or has the
-- type that answers the type of the request. There is no frame only if the creation of the topic, the
-- append of the batch or the read that the request asks for comes to a fault.
pub handle_request-Replies :
    ⦃net : ByteOrder⦄ (b : Broker) (env : Environment) (req : Frame)
    → Replies (FaultOf b env req) req (answer_type req.type) (handle_request b env req).1
handle_request-Replies b env req = (handle_request-Answers b env req).frame
