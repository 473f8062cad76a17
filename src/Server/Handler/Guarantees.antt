-- ===== src/Server/Handler/Guarantees.antt =====
-- What no request to src/MessageHandler.cpp does, and what each does to the groups.
use stream_forge.Base.{
  ℕ, ◌≡◌, refl, sym, ap, ◌∙◌, ◌≢◌, ◌⊎◌, inl, inr, true, false, Option, none, some, ◌==◌, arith,
  Bool-cases,
}
use stream_forge.Base.Strings.{Name, find-put_other}
use stream_forge.Wire.ByteOrder.{ByteOrder}
use stream_forge.Wire.FrameCodec.{Frame}
use stream_forge.Topics.{Topic}
use stream_forge.Topics.Creation.{create_topic-other}
use stream_forge.Topics.Manager.{TopicManager, get_topic}
use stream_forge.Group.Coordinator.{Coordinator, Outcome, is_internal, heartbeat, leave}
use stream_forge.Group.Coordinator.Steps
use stream_forge.Group.Coordinator.Steps.{Step}
use stream_forge.Group.Coordinator.Joining.{JoinResult, join}
use stream_forge.Server.Handler.{Broker, Environment, Handled, or_return, refuse}
use stream_forge.Server.MessageType
use stream_forge.Storage.Partition.{Partition}
use stream_forge.Group.OffsetStore.{internal_offsets_topic}
use stream_forge.Wire.Body.Reads.{decode_with}
use stream_forge.Wire.Messages.Groups.{
  JoinGroupRequest, HeartbeatRequest, LeaveGroupRequest, read_join_group, read_heartbeat,
  read_leave_group,
}
use stream_forge.Server.Handler.GroupRequests.{
  join_arguments, put_offsets, share_offsets, commit_entries, joined, acknowledged, heard,
  handle_join_group, handle_heartbeat, handle_leave_group,
}
use stream_forge.Server.Handler.TopicRequests.{set_topic}
use stream_forge.Server.Handler.Dispatch.{handle_request}
use stream_forge.Server.Handler.Sharing.{IsShared, first_partition, share_offsets-Kept, commit-Kept}
use stream_forge.Server.Handler.Effects.{
  Effect, same, creates, produces, joins, beats, leaves, commits, handle_request-Acts,
}

produced_other :
    (b : Broker) (name : Name) (t : Topic) (k : Name)
    → name ≢ k
    → get_topic (set_topic b name t).topics k ≡ get_topic b.topics k
unfolding get_topic
produced_other b name t k h = find-put_other k name t b.topics.topics h

other : (name k : Name) → is_internal name ≡ false → is_internal k ≡ true → name ≢ k
other name k h i e = absurd (let d : is_internal name ≡ true = rw e i in cc)

put_offsets-other :
    (tm : TopicManager) (p : Partition) (o : Option Topic) (k : Name)
    → internal_offsets_topic ≢ k
    → get_topic (put_offsets tm p o) k ≡ get_topic tm k
unfolding get_topic
put_offsets-other tm p none k h = refl
put_offsets-other tm p (some t) k h = find-put_other k internal_offsets_topic _ tm.topics h

share_offsets-other :
    (tm : TopicManager) (o : Option Partition) (k : Name)
    → internal_offsets_topic ≢ k
    → get_topic (share_offsets tm o) k ≡ get_topic tm k
share_offsets-other tm none k h = refl
share_offsets-other tm (some p) k h = put_offsets-other tm p _ k h

Effect-internal :
    ⦃net : ByteOrder⦄ (env : Environment) (req : Frame) (b b' : Broker) (k : Name)
    → is_internal k ≡ true
    → (internal_offsets_topic ≢ k) ⊎ ((req.type == MessageType.commit_offset) ≡ false)
    → Effect env req b b'
    → get_topic b'.topics k ≡ get_topic b.topics k
Effect-internal env req b b' k i o same = refl
Effect-internal env req b b' k i o (creates name n ms bytes h) =
    create_topic-other b.topics name n ms bytes env.topic_disk k (other name k h i)
Effect-internal env req b b' k i o (produces name t n records h e) =
    produced_other b name _ k (other name k h i)
Effect-internal env req b b' k i o (joins c m e h d) = refl
Effect-internal env req b b' k i o (beats c m e h d) = refl
Effect-internal env req b b' k i o (leaves c m e h d) = refl
Effect-internal env req b b' k i (inl n) (commits c m e h) = share_offsets-other b.topics _ k n
Effect-internal env req b b' k i (inr n) (commits c m e h) =
    absurd (let d : true ≡ false = sym h ∙ n in cc)

offsets_internal : is_internal internal_offsets_topic ≡ true
offsets_internal = refl

Effect-IsShared :
    ⦃net : ByteOrder⦄ (env : Environment) (req : Frame) (b b' : Broker)
    → IsShared b
    → Effect env req b b'
    → IsShared b'
Effect-IsShared env req b b' h same = h
Effect-IsShared env req b b' h (creates name n ms bytes e) =
    h
    ∙ ap first_partition (
        sym (
          create_topic-other b.topics name n ms bytes env.topic_disk internal_offsets_topic
            (other name internal_offsets_topic e offsets_internal)))
Effect-IsShared env req b b' h (produces name t n records e f) =
    h
    ∙ ap first_partition (
        sym (
          produced_other b name _ internal_offsets_topic
            (other name internal_offsets_topic e offsets_internal)))
Effect-IsShared env req b b' h (joins c m e f d) = h
Effect-IsShared env req b b' h (beats c m e f d) = h
Effect-IsShared env req b b' h (leaves c m e f d) = h
Effect-IsShared env req b b' h (commits c m e f) =
    share_offsets-Kept b.topics b.offsets.offsets_partition _ h (
      commit-Kept c b.topics b.offsets m.group_id m.member_id m.generation
        (commit_entries m.entries) env.now env.now_ms env.disks)

-- In a broker whose offset store has the partition 0 of the topic of the offsets, it has that partition
-- after any request too, so that the topic has what is committed. No request creates, changes or removes
-- a topic whose name starts with two underscores, but for a commit of offsets, which may change the topic
-- of the offsets and no other such topic.
pub handle_request-internal :
    ⦃net : ByteOrder⦄ (b : Broker) (env : Environment) (req : Frame) (name : Name)
    → IsShared b
    → is_internal name ≡ true
    → (internal_offsets_topic ≢ name) ⊎ ((req.type == MessageType.commit_offset) ≡ false)
    → IsShared (handle_request b env req).0
      × (get_topic (handle_request b env req).0.topics name ≡ get_topic b.topics name)
handle_request-internal b env req name s h o = (
  Effect-IsShared env req b _ s (handle_request-Acts env req b).effect,
  Effect-internal env req b _ name h o (handle_request-Acts env req b).effect,
)

-- What each request asks of the coordinator, at the level of the groups: one operation with the
-- decoded fields, or nothing.
abbrev pub asked_to_join :
    TopicManager → Environment → Coordinator → Option JoinGroupRequest → Coordinator
asked_to_join tm env c none = c
asked_to_join tm env c (some m) = (join c tm (join_arguments env m)).0

abbrev pub asked_to_beat : Environment → Coordinator → Option HeartbeatRequest → Coordinator
asked_to_beat env c none = c
asked_to_beat env c (some m) = (heartbeat c env.now m.group_id m.member_id m.generation).0

abbrev pub asked_to_leave : TopicManager → Coordinator → Option LeaveGroupRequest → Coordinator
asked_to_leave tm c none = c
asked_to_leave tm c (some m) = (leave c tm m.group_id m.member_id).0

pub data Asks ⦃net : ByteOrder⦄ (tm : TopicManager) (env : Environment) (req : Frame)
    (c : Coordinator) : Coordinator → Type 0 where
  to_join :
      req.type ≡ MessageType.join_group
      → Asks tm env req c (asked_to_join tm env c (decode_with read_join_group req.body))
  to_beat :
      req.type ≡ MessageType.heartbeat
      → Asks tm env req c (asked_to_beat env c (decode_with read_heartbeat req.body))
  to_leave :
      req.type ≡ MessageType.leave_group
      → Asks tm env req c (asked_to_leave tm c (decode_with read_leave_group req.body))
  nothing :
      req.type ≢ MessageType.join_group
      → req.type ≢ MessageType.heartbeat
      → req.type ≢ MessageType.leave_group
      → Asks tm env req c c

module _ ⦃net : ByteOrder⦄ (b : Broker) (env : Environment) (req : Frame) (c : Coordinator)
    (here : b.coordinator ≡ some c) where
  abbrev Leads : Handled → Coordinator → Type 0
  Leads h c' = h.0.coordinator ≡ some c'

  joined-Leads :
      (b' : Broker) (res : Coordinator × JoinResult) → Leads (joined b' env req res) res.0
  unfolding joined refuse
  joined-Leads b' (d, res) = ground arith

  heard-Leads :
      (b' : Broker) (type : ℕ) (res : Coordinator × Outcome)
      → Leads (heard b' env req type res) res.0
  unfolding heard acknowledged refuse
  heard-Leads b' type (d, res) = ground arith

  handle_join_group-Leads :
      (o : Option JoinGroupRequest)
      → decode_with read_join_group req.body ≡ o
      → Leads (handle_join_group b env req) (asked_to_join b.topics env c o)
  unfolding handle_join_group or_return refuse
  handle_join_group-Leads none e = rw (handle_join_group, here, e) refl
  handle_join_group-Leads (some m) e = rw (handle_join_group, here, e) (joined-Leads _ _)

  handle_heartbeat-Leads :
      (o : Option HeartbeatRequest)
      → decode_with read_heartbeat req.body ≡ o
      → Leads (handle_heartbeat b env req) (asked_to_beat env c o)
  unfolding handle_heartbeat or_return refuse
  handle_heartbeat-Leads none e = rw (handle_heartbeat, here, e) refl
  handle_heartbeat-Leads (some m) e = rw (handle_heartbeat, here, e) (heard-Leads _ _ _)

  handle_leave_group-Leads :
      (o : Option LeaveGroupRequest)
      → decode_with read_leave_group req.body ≡ o
      → Leads (handle_leave_group b env req) (asked_to_leave b.topics c o)
  unfolding handle_leave_group or_return refuse
  handle_leave_group-Leads none e = rw (handle_leave_group, here, e) refl
  handle_leave_group-Leads (some m) e = rw (handle_leave_group, here, e) (heard-Leads _ _ _)

  Effect-other :
      (b' : Broker)
      → (req.type == MessageType.join_group) ≡ false
      → (req.type == MessageType.heartbeat) ≡ false
      → (req.type == MessageType.leave_group) ≡ false
      → Effect env req b b'
      → b'.coordinator ≡ some c
  Effect-other b' j h l same = here
  Effect-other b' j h l (creates name n ms bytes e) = here
  Effect-other b' j h l (produces name t n records i e) = here
  Effect-other b' j h l (joins d m e f g) = absurd (let z : true ≡ false = sym f ∙ j in cc)
  Effect-other b' j h l (beats d m e f g) = absurd (let z : true ≡ false = sym f ∙ h in cc)
  Effect-other b' j h l (leaves d m e f g) = absurd (let z : true ≡ false = sym f ∙ l in cc)
  Effect-other b' j h l (commits d m e f) = here

  dispatched :
      (req.type ≡ MessageType.join_group → handle_request b env req ≡ handle_join_group b env req)
      × (req.type ≡ MessageType.heartbeat → handle_request b env req ≡ handle_heartbeat b env req)
      × (req.type ≡ MessageType.leave_group
          → handle_request b env req ≡ handle_leave_group b env req)
  unfolding handle_request
  dispatched = (
    λ e. rw (handle_request, e) refl,
    λ e. rw (handle_request, e) refl,
    λ e. rw (handle_request, e) refl,
  )

  requested : (c' : Coordinator) × Leads (handle_request b env req) c' × Asks b.topics env req c c'
  requested = elim (Bool-cases (req.type == MessageType.join_group)) [
    | inl e ↦
        let q : req.type ≡ MessageType.join_group = ground arith in
        (_, rw (dispatched.0 q) (handle_join_group-Leads _ refl), to_join q)
    | inr j ↦ elim (Bool-cases (req.type == MessageType.heartbeat)) [
      | inl e ↦
          let q : req.type ≡ MessageType.heartbeat = ground arith in
          (_, rw (dispatched.1 q) (handle_heartbeat-Leads _ refl), to_beat q)
      | inr h ↦ elim (Bool-cases (req.type == MessageType.leave_group)) [
        | inl e ↦
            let q : req.type ≡ MessageType.leave_group = ground arith in
            (_, rw (dispatched.2 q) (handle_leave_group-Leads _ refl), to_leave q)
        | inr l ↦ (
          c,
          Effect-other _ j h l (handle_request-Acts env req b).effect,
          nothing (λ q. absurd (ground arith)) (λ q. absurd (ground arith))
              (λ q. absurd (ground arith)),
        )
      ]
    ]
  ]

asked_to_join-Step :
    (tm : TopicManager) (env : Environment) (c : Coordinator) (o : Option JoinGroupRequest)
    → (asked_to_join tm env c o ≡ c) ⊎ Step tm c (asked_to_join tm env c o)
asked_to_join-Step tm env c none = inl refl
asked_to_join-Step tm env c (some m) = inr (Steps.joins (join_arguments env m))

asked_to_beat-Step :
    (tm : TopicManager) (env : Environment) (c : Coordinator) (o : Option HeartbeatRequest)
    → (asked_to_beat env c o ≡ c) ⊎ Step tm c (asked_to_beat env c o)
asked_to_beat-Step tm env c none = inl refl
asked_to_beat-Step tm env c (some m) = inr (Steps.beats env.now m.group_id m.member_id m.generation)

asked_to_leave-Step :
    (tm : TopicManager) (c : Coordinator) (o : Option LeaveGroupRequest)
    → (asked_to_leave tm c o ≡ c) ⊎ Step tm c (asked_to_leave tm c o)
asked_to_leave-Step tm c none = inl refl
asked_to_leave-Step tm c (some m) = inr (Steps.leaves m.group_id m.member_id)

Asks-Step :
    ⦃net : ByteOrder⦄ {tm : TopicManager} {env : Environment} {req : Frame} {c c' : Coordinator}
    → Asks tm env req c c'
    → (c' ≡ c) ⊎ Step tm c c'
Asks-Step {tm} {env} {req} {c} (to_join e) =
    asked_to_join-Step tm env c (decode_with read_join_group req.body)
Asks-Step {tm} {env} {req} {c} (to_beat e) =
    asked_to_beat-Step tm env c (decode_with read_heartbeat req.body)
Asks-Step {tm} {env} {req} {c} (to_leave e) =
    asked_to_leave-Step tm c (decode_with read_leave_group req.body)
Asks-Step (nothing j h l) = inl refl

-- A request does to the groups what it asks for: a request to join, a heartbeat or a request to leave
-- whose body is decoded does this one operation with the decoded fields, and any other request leaves
-- the coordinator as it was. So it is a step of the coordinator or none.
pub handle_request-Step :
    ⦃net : ByteOrder⦄ (b : Broker) (env : Environment) (req : Frame) (c : Coordinator)
    → b.coordinator ≡ some c
    → (c' : Coordinator) × ((handle_request b env req).0.coordinator ≡ some c')
      × Asks b.topics env req c c'
      × ((c' ≡ c) ⊎ Step b.topics c c')
handle_request-Step b env req c e =
    let (c', l, a) = requested b env req c e in (c', l, a, Asks-Step a)
