-- ===== src/Server/Handler/Answers.antt =====
-- The frame that src/MessageHandler.cpp answers to each request.
use stream_forge.Base.{
  ℕ, ◌≡◌, refl, ◌⊎◌, inl, inr, List, Bool, true, false, Option, none, some, min, ◌==◌,
  if◌then◌else◌,
}
use stream_forge.Status.{fault}
use stream_forge.Wire.ByteOrder.{ByteOrder}
use stream_forge.Wire.FrameCodec.{Frame, pong, echo_reply, msg_error, create_error_frame}
use stream_forge.Wire.Body.Reads.{decode_with}
use stream_forge.Wire.Messages.{
  CreateTopicRequest, ProduceRequest, FetchRequest, read_create_topic, read_produce, read_fetch,
}
use stream_forge.Storage.Partition.{Partition}
use stream_forge.Storage.Partition.Read.{read}
use stream_forge.Topics.{Topic, produce_batch, get_partition}
use stream_forge.Topics.Manager.{create_topic, get_topic}
use stream_forge.Server.MessageType
use stream_forge.Server.Handler.{
  Broker, Environment, Handled, or_return, reply, error_frame, refuse,
}
use stream_forge.Server.Handler.TopicRequests.{batch_of}

-- How a request can run into a fault: it is of the type, its body is decoded, and the creation of its topic, the append
-- of its batch or its read reads memory outside a buffer.
pub data FaultOf ⦃net : ByteOrder⦄ (b : Broker) (env : Environment) (req : Frame) : Type 0 where
  in_creation :
      (m : CreateTopicRequest)
      → (req.type == MessageType.create_topic) ≡ true
      → decode_with read_create_topic req.body ≡ some m
      → (create_topic b.topics m.topic m.partitions
          (if m.has_retention then m.retention_ms else 0)
          (if m.has_retention then m.retention_bytes else 0)
          env.topic_disk).1
        ≡ fault
      → FaultOf b env req
  in_append :
      (m : ProduceRequest) (t : Topic)
      → (req.type == MessageType.produce) ≡ true
      → decode_with read_produce req.body ≡ some m
      → get_topic b.topics m.topic ≡ some t
      → (produce_batch t m.partition (batch_of 0 env.disks m.records) env.now_ms 0).2 ≡ fault
      → FaultOf b env req
  in_read :
      (m : FetchRequest) (t : Topic) (p : Partition)
      → (req.type == MessageType.fetch) ≡ true
      → decode_with read_fetch req.body ≡ some m
      → get_topic b.topics m.topic ≡ some t
      → get_partition t m.partition ≡ some p
      → (read p m.start_offset
          (record { max_messages = m.max_messages; max_bytes = min m.max_bytes 1048500 })).1
        ≡ fault
      → FaultOf b env req

-- A frame of this type or an error, with the id of the request.
abbrev pub IsReply : Frame → ℕ → Frame → Type 0
IsReply req type f = (f.request_id ≡ req.request_id) × ((f.type ≡ type) ⊎ (f.type ≡ msg_error))

-- Such a frame, or none for this cause.
abbrev pub Replies : Type 0 → Frame → ℕ → Option Frame → Type 0
Replies cause req type none = cause
Replies cause req type (some f) = IsReply req type f

-- The type that answers each type of request.
unfoldable pub answer_type : ℕ → ℕ
answer_type t =
    if t == MessageType.ping
    then pong
    else if t == MessageType.echo
    then echo_reply
    else if t == MessageType.create_topic
    then MessageType.create_topic_ok
    else if t == MessageType.produce
    then MessageType.produce_ok
    else if t == MessageType.fetch
    then MessageType.fetch_ok
    else if t == MessageType.list_topics
    then MessageType.topics
    else if t == MessageType.describe_topic
    then MessageType.topic_description
    else if t == MessageType.join_group
    then MessageType.join_group_ok
    else if t == MessageType.heartbeat
    then MessageType.heartbeat_ok
    else if t == MessageType.leave_group
    then MessageType.leave_group_ok
    else if t == MessageType.commit_offset
    then MessageType.commit_ok
    else if t == MessageType.fetch_offset
    then MessageType.offsets
    else if t == MessageType.describe_group
    then MessageType.group_description
    else msg_error

-- What a handler gives, when this is the type of a success; `cause` allows for no answer.
pub record Answers (cause : Type 0) (req : Frame) (type : ℕ) (h : Handled) : Type 0 where
  pub frame : Replies cause req type h.1

module _ ⦃net : ByteOrder⦄ (cause : Type 0) (env : Environment) (req : Frame) where
  pub refuse-Answers : (b : Broker) (type code : ℕ) → Answers cause req type (refuse b env req code)
  unfolding refuse error_frame create_error_frame
  refuse-Answers b type code = record { frame = (refl, inr refl) }

  pub reply-Answers :
      (b : Broker) (type : ℕ) (body : List ℕ)
      → Answers cause req type (b, some (reply req type body))
  unfolding reply
  reply-Answers b type body = record { frame = (refl, inl refl) }

  -- A value that is there, or a refusal.
  pub or_refuse-Answers :
      {A : Type 0} (b : Broker) (type code : ℕ) (o : Option A) (next : A → Handled)
      → ((a : A) → o ≡ some a → Answers cause req type (next a))
      → Answers cause req type (or_return o (refuse b env req code) next)
  unfolding or_return
  or_refuse-Answers b type code none next k = refuse-Answers b type code
  or_refuse-Answers b type code (some a) next k = k a refl

  pub refuse_if-Answers :
      (b : Broker) (type code : ℕ) (c : Bool) (next : Handled)
      → (c ≡ false → Answers cause req type next)
      → Answers cause req type (if c then refuse b env req code else next)
  refuse_if-Answers b type code true next k = refuse-Answers b type code
  refuse_if-Answers b type code false next k = k refl

  pub answer_if-Answers :
      (b : Broker) (type : ℕ) (body : List ℕ) (c : Bool) (other : Handled)
      → Answers cause req type other
      → Answers cause req type (if c then (b, some (reply req type body)) else other)
  answer_if-Answers b type body true other k = reply-Answers b type body
  answer_if-Answers b type body false other k = k
