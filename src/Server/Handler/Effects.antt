-- ===== src/Server/Handler/Effects.antt =====
-- What src/MessageHandler.cpp does to the broker: a request is at most one operation of the topic manager,
-- the coordinator or the offset store, behind the handler's checks.
use stream_forge.Base.{
  ℕ, ◌≡◌, refl, List, [], ◌∷◌, Bool, true, false, Option, none, some, ◌==◌, if◌then◌else◌,
}
use stream_forge.Base.Strings.{Name}
use stream_forge.Status.{Result, done, error, fault}
use stream_forge.Wire.ByteOrder.{ByteOrder}
use stream_forge.Wire.FrameCodec.{Frame}
use stream_forge.Wire.Messages.{
  CreateTopicRequest, ProduceRecordPayload, ProduceRequest, FetchRequest,
}
use stream_forge.Wire.Messages.Responses.{DescribeTopicRequest}
use stream_forge.Storage.Partition.{Partition}
use stream_forge.Storage.Partition.Read.{ReadResult}
use stream_forge.Topics.{Topic, produce_batch}
use stream_forge.Topics.Manager.{TopicManager, create_topic, get_topic}
use stream_forge.Group.Coordinator.{Coordinator, Outcome, is_internal, heartbeat, leave}
use stream_forge.Group.Coordinator.Joining.{JoinResult, join}
use stream_forge.Group.Coordinator.Commit.{commit}
use stream_forge.Group.Coordinator.Inspection.{GroupDescription, describe}
use stream_forge.Group.OffsetStore.{OffsetStore}
use stream_forge.Server.Handler.{Broker, Environment, Handled, or_return, refuse}
use stream_forge.Server.Handler.TopicRequests.{
  set_topic, batch_of, topic_created, create_topic_for, handle_create_topic, produced,
  produce_records, produce_for, handle_produce, fetched, fetch_from, fetch_for, handle_fetch,
  handle_list_topics, describe_topic_for, handle_describe_topic,
}
use stream_forge.Server.Handler.GroupRequests.{
  join_arguments, set_coordinator, set_offsets, commit_entries, joined, acknowledged, heard,
  committed, described, handle_join_group, handle_heartbeat, handle_leave_group,
  handle_commit_offset, handle_fetch_offset, handle_describe_group,
}
use stream_forge.Server.MessageType
use stream_forge.Wire.Body.Reads.{decode_with}
use stream_forge.Wire.Messages.Groups.{
  JoinGroupRequest, HeartbeatRequest, LeaveGroupRequest, CommitOffsetRequest, read_join_group,
  read_heartbeat, read_leave_group,
}
use stream_forge.Server.Handler.Dispatch.{handle_request}

-- The operations that a request can lead to, and what has been checked before.
pub data Effect ⦃net : ByteOrder⦄ (env : Environment) (req : Frame) (b : Broker)
    : Broker → Type 0 where
  same : Effect env req b b
  creates :
      (name : Name) (partitions ms bytes : ℕ)
      → is_internal name ≡ false
      → Effect env req b
          (record b { topics = (create_topic b.topics name partitions ms bytes env.topic_disk).0 })
  produces :
      (name : Name) (t : Topic) (partition : ℕ) (records : List ProduceRecordPayload)
      → is_internal name ≡ false
      → get_topic b.topics name ≡ some t
      → Effect env req b (
          set_topic b name
            (produce_batch t partition (batch_of 0 env.disks records) env.now_ms 0).0)
  joins :
      (c : Coordinator) (m : JoinGroupRequest)
      → b.coordinator ≡ some c
      → (req.type == MessageType.join_group) ≡ true
      → decode_with read_join_group req.body ≡ some m
      → Effect env req b (set_coordinator b (join c b.topics (join_arguments env m)).0)
  beats :
      (c : Coordinator) (m : HeartbeatRequest)
      → b.coordinator ≡ some c
      → (req.type == MessageType.heartbeat) ≡ true
      → decode_with read_heartbeat req.body ≡ some m
      → Effect env req b
          (set_coordinator b (heartbeat c env.now m.group_id m.member_id m.generation).0)
  leaves :
      (c : Coordinator) (m : LeaveGroupRequest)
      → b.coordinator ≡ some c
      → (req.type == MessageType.leave_group) ≡ true
      → decode_with read_leave_group req.body ≡ some m
      → Effect env req b (set_coordinator b (leave c b.topics m.group_id m.member_id).0)
  commits :
      (c : Coordinator) (m : CommitOffsetRequest)
      → b.coordinator ≡ some c
      → (req.type == MessageType.commit_offset) ≡ true
      → Effect env req b (
          set_offsets b
            (commit c b.topics b.offsets m.group_id m.member_id m.generation
              (commit_entries m.entries)
              env.now
              env.now_ms
              env.disks).0)

-- What a handler gives, and its effect.
pub record Acts ⦃net : ByteOrder⦄ (env : Environment) (req : Frame) (b : Broker) (h : Handled)
    : Type 0 where
  pub effect : Effect env req b h.0

module _ ⦃net : ByteOrder⦄ (env : Environment) (req : Frame) where
  refuse-Acts :
      (b b' : Broker) (code : ℕ) → Effect env req b b' → Acts env req b (refuse b' env req code)
  unfolding refuse
  refuse-Acts b b' code h = record { effect = h }

  answer-Acts : (b b' : Broker) (f : Option Frame) → Effect env req b b' → Acts env req b (b', f)
  answer-Acts b b' f h = record { effect = h }

  refuse_same-Acts : (b : Broker) (code : ℕ) → Acts env req b (refuse b env req code)
  refuse_same-Acts b code = refuse-Acts b b code same

  answer_same-Acts : (b : Broker) (f : Option Frame) → Acts env req b (b, f)
  answer_same-Acts b f = answer-Acts b b f same

  or_return-Acts :
      {A : Type 0} (b : Broker) (o : Option A) (early : Handled) (next : A → Handled)
      → Acts env req b early
      → ((a : A) → o ≡ some a → Acts env req b (next a))
      → Acts env req b (or_return o early next)
  unfolding or_return
  or_return-Acts b none early next h k = h
  or_return-Acts b (some a) early next h k = k a refl

  if-Acts :
      (b : Broker) (c : Bool) (early next : Handled)
      → (c ≡ true → Acts env req b early)
      → (c ≡ false → Acts env req b next)
      → Acts env req b (if c then early else next)
  if-Acts b true early next h k = h refl
  if-Acts b false early next h k = k refl

  topic_created-Acts :
      (b : Broker) (res : TopicManager × Result Topic)
      → Effect env req b (record b { topics = res.0 })
      → Acts env req b (topic_created b env req res)
  unfolding topic_created
  topic_created-Acts b (tm, done t) h = answer-Acts _ _ _ h
  topic_created-Acts b (tm, error s) h = refuse-Acts _ _ _ h
  topic_created-Acts b (tm, fault) h = answer-Acts _ _ _ h

  create_topic_for-Acts :
      (b : Broker) (m : CreateTopicRequest) → Acts env req b (create_topic_for b env req m)
  unfolding create_topic_for
  create_topic_for-Acts b m = search (if-Acts, refuse_same-Acts, topic_created-Acts, creates)

  produced-Acts :
      (b : Broker) (m : ProduceRequest) (res : Topic × ℕ × Result ℕ)
      → Effect env req b (set_topic b m.topic res.0)
      → Acts env req b (produced b env req m res)
  unfolding produced
  produced-Acts b m (t, chosen, done base) h = answer-Acts _ _ _ h
  produced-Acts b m (t, chosen, error s) h = refuse-Acts _ _ _ h
  produced-Acts b m (t, chosen, fault) h = answer-Acts _ _ _ h

  produce_records-Acts :
      (b : Broker) (m : ProduceRequest) (records : List ProduceRecordPayload)
      → is_internal m.topic ≡ false
      → Acts env req b (produce_records b env req m records)
  unfolding produce_records
  produce_records-Acts b m [] h = refuse_same-Acts b _
  produce_records-Acts b m (r ∷ records) h =
      search (or_return-Acts, refuse_same-Acts, produced-Acts, produces)

  produce_for-Acts : (b : Broker) (m : ProduceRequest) → Acts env req b (produce_for b env req m)
  unfolding produce_for
  produce_for-Acts b m = search (if-Acts, refuse_same-Acts, produce_records-Acts)

  fetched-Acts :
      (b : Broker) (m : FetchRequest) (p : Partition) (res : ReadResult)
      → Acts env req b (fetched b env req m p res)
  unfolding fetched
  fetched-Acts b m p (records, done u) = answer_same-Acts _ _
  fetched-Acts b m p (records, error s) = refuse_same-Acts _ _
  fetched-Acts b m p (records, fault) = answer_same-Acts _ _

  fetch_from-Acts :
      (b : Broker) (m : FetchRequest) (p : Partition) → Acts env req b (fetch_from b env req m p)
  unfolding fetch_from
  fetch_from-Acts b m p = search (if-Acts, refuse_same-Acts, answer_same-Acts, fetched-Acts)

  fetch_for-Acts : (b : Broker) (m : FetchRequest) → Acts env req b (fetch_for b env req m)
  unfolding fetch_for
  fetch_for-Acts b m =
      search (if-Acts, or_return-Acts, refuse_same-Acts, answer_same-Acts, fetch_from-Acts) depth 8

  describe_topic_for-Acts :
      (b : Broker) (m : DescribeTopicRequest) → Acts env req b (describe_topic_for b env req m)
  unfolding describe_topic_for
  describe_topic_for-Acts b m = search (if-Acts, or_return-Acts, refuse_same-Acts, answer_same-Acts)

  joined-Acts :
      (b : Broker) (res : Coordinator × JoinResult)
      → Effect env req b (set_coordinator b res.0)
      → Acts env req b (joined b env req res)
  unfolding joined
  joined-Acts b (c, res) h = search (if-Acts, answer-Acts, refuse-Acts)

  acknowledged-Acts :
      (b b' : Broker) (type : ℕ) (res : Outcome)
      → Effect env req b b'
      → Acts env req b (acknowledged b' env req type res)
  unfolding acknowledged
  acknowledged-Acts b b' type res h = search (if-Acts, answer-Acts, refuse-Acts)

  heard-Acts :
      (b : Broker) (type : ℕ) (res : Coordinator × Outcome)
      → Effect env req b (set_coordinator b res.0)
      → Acts env req b (heard b env req type res)
  unfolding heard
  heard-Acts b type (c, res) h = acknowledged-Acts b _ type res h

  committed-Acts :
      (b : Broker) (res : OffsetStore × Outcome)
      → Effect env req b (set_offsets b res.0)
      → Acts env req b (committed b env req res)
  unfolding committed
  committed-Acts b (store, res) h = acknowledged-Acts b _ _ res h

  described-Acts : (b : Broker) (d : GroupDescription) → Acts env req b (described b env req d)
  unfolding described
  described-Acts b d = search (if-Acts, answer_same-Acts, refuse_same-Acts)

  ruleset handlers = (or_return-Acts, refuse_same-Acts, answer_same-Acts)

  handle_topics-Acts :
      (b : Broker)
      → Acts env req b (handle_create_topic b env req)
        × Acts env req b (handle_produce b env req)
        × Acts env req b (handle_fetch b env req)
        × Acts env req b (handle_list_topics b env req)
        × Acts env req b (handle_describe_topic b env req)
  unfolding handle_create_topic handle_produce handle_fetch handle_list_topics handle_describe_topic
  handle_topics-Acts b = (
    search (handlers, create_topic_for-Acts),
    search (handlers, produce_for-Acts),
    search (handlers, fetch_for-Acts),
    search handlers,
    search (handlers, describe_topic_for-Acts),
  )

  handle_join_group-Acts :
      (b : Broker)
      → (req.type == MessageType.join_group) ≡ true
      → Acts env req b (handle_join_group b env req)
  unfolding handle_join_group
  handle_join_group-Acts b e = search (handlers, joined-Acts, joins)

  handle_heartbeat-Acts :
      (b : Broker)
      → (req.type == MessageType.heartbeat) ≡ true
      → Acts env req b (handle_heartbeat b env req)
  unfolding handle_heartbeat
  handle_heartbeat-Acts b e = search (handlers, heard-Acts, beats)

  handle_leave_group-Acts :
      (b : Broker)
      → (req.type == MessageType.leave_group) ≡ true
      → Acts env req b (handle_leave_group b env req)
  unfolding handle_leave_group
  handle_leave_group-Acts b e = search (handlers, heard-Acts, leaves)

  handle_commit_offset-Acts :
      (b : Broker)
      → (req.type == MessageType.commit_offset) ≡ true
      → Acts env req b (handle_commit_offset b env req)
  unfolding handle_commit_offset
  handle_commit_offset-Acts b e = search (handlers, committed-Acts, commits)

  handle_queries-Acts :
      (b : Broker)
      → Acts env req b (handle_fetch_offset b env req)
        × Acts env req b (handle_describe_group b env req)
  unfolding handle_fetch_offset handle_describe_group
  handle_queries-Acts b = (search handlers, search (handlers, described-Acts))

  pub handle_request-Acts : (b : Broker) → Acts env req b (handle_request b env req)
  unfolding handle_request
  handle_request-Acts b =
      let (create, produce, fetch, list, describe) = handle_topics-Acts b in
      let (offsets, group) = handle_queries-Acts b in
      search
        (
          if-Acts, answer_same-Acts, refuse_same-Acts, handle_join_group-Acts,
          handle_heartbeat-Acts, handle_leave_group-Acts, handle_commit_offset-Acts,
        )
        depth 16
