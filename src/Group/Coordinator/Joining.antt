-- ===== src/Group/Coordinator/Joining.antt =====
-- `join` of src/GroupCoordinator.cpp.
use stream_forge.Base.{
  ℕ, ◌+◌, ◌/◌, ◌%◌, ◌^◌, List, [], ◌∷◌, Bool, true, false, ◌&&◌, ◌||◌, not, Option, none, some, ltb,
  leb, ◌==◌, if◌then◌else◌, length,
}
use stream_forge.Base.Strings.{Name, name_eq, find, put}
use stream_forge.Status.{StatusCode}
use stream_forge.Wire.ErrorCode
use stream_forge.Topics.Manager.{TopicManager, get_topic}
use stream_forge.Group.Assignor.{TopicPartition}
use stream_forge.Group.Coordinator.{
  empty, CoordinatorConfig, MemberMetadata, Group, Coordinator, Outcome, success, refusal,
  is_internal, validate_group_id, generate_member_id, set_group, next_generation,
}

-- The arguments of `join`, with what the clock and the random numbers give.
pub record JoinArguments : Type 0 where
  pub group_id : Name
  pub member_id : Name
  pub session_timeout_ms : ℕ
  pub topics : List Name
  pub strategy : ℕ
  pub now : ℕ
  pub rand_val : ℕ

pub record JoinResult : Type 0 where
  pub outcome : Outcome
  pub member_id : Name
  pub generation : ℕ
  pub heartbeat_interval_ms : ℕ
  pub assignment : List TopicPartition

abbrev pub refused : Outcome → JoinResult
refused o = record {
  outcome = o;
  member_id = [];
  generation = 0;
  heartbeat_interval_ms = 0;
  assignment = [];
}

abbrev pub invalid : Outcome
invalid = refusal StatusCode.invalid_argument ErrorCode.invalid_argument

unfoldable pub check_topics : TopicManager → List Name → Option Outcome
check_topics tm [] = none
check_topics tm (t ∷ ts) =
    let rest = check_topics tm ts in
    if is_internal t
    then some (refusal StatusCode.invalid_argument ErrorCode.invalid_topic_name)
    else elim (get_topic tm t) [
      | none ↦ some (refusal StatusCode.not_found ErrorCode.unknown_topic)
      | some topic ↦ rest
    ]

abbrev pub is_nil : List Name → Bool
is_nil [] = true
is_nil (t ∷ ts) = false

-- What is wrong with the arguments, before a group is looked up.
unfoldable pub check_arguments : CoordinatorConfig → TopicManager → JoinArguments → Option Outcome
check_arguments config tm a =
    if not (validate_group_id a.group_id)
    then some invalid
    else if is_nil a.topics
    then some invalid
    else if ltb a.session_timeout_ms config.min_session_timeout_ms
        || ltb config.max_session_timeout_ms a.session_timeout_ms
    then some invalid
    else if ltb 1 a.strategy
    then some invalid
    else check_topics tm a.topics

abbrev pub new_group : JoinArguments → Group
new_group a = record {
  group_id = a.group_id;
  generation = 0;
  strategy = a.strategy;
  subscribed_topics = a.topics;
  state = empty;
  members = [];
}

abbrev pub names_eq : List Name → List Name → Bool
names_eq [] [] = true
names_eq [] (t ∷ ts) = false
names_eq (s ∷ ss) [] = false
names_eq (s ∷ ss) (t ∷ ts) = name_eq s t && names_eq ss ts

-- A group without members takes the strategy and the topics of who joins.
unfoldable pub subscribe : Group → JoinArguments → List (Name × MemberMetadata) → Group
subscribe group a [] = record group { strategy = a.strategy; subscribed_topics = a.topics }
subscribe group a (m ∷ ms) = group

abbrev pub assignment_of : Name → List (Name × MemberMetadata) → List TopicPartition
assignment_of name members = elim (find name members) [ none ↦ [] | some m ↦ m.assignment ]

abbrev pub accepted : Group → JoinArguments → Name → JoinResult
accepted group a member_id = record {
  outcome = success;
  member_id = member_id;
  generation = group.generation;
  heartbeat_interval_ms = a.session_timeout_ms / 3;
  assignment = assignment_of member_id group.members;
}

abbrev pub new_member : JoinArguments → MemberMetadata
new_member a = record {
  session_timeout_ms = a.session_timeout_ms;
  last_heartbeat = a.now;
  assignment = [];
}

-- The group once the member is in it.
unfoldable pub with_member : TopicManager → Group → Name → MemberMetadata → Group
with_member tm group member_id member =
    next_generation tm (record group { members = put member_id member group.members })

unfoldable pub join_as_new :
    Coordinator → TopicManager → Group → JoinArguments → Coordinator × JoinResult
join_as_new c tm group a =
    if leb c.config.max_members_per_group (length group.members)
    then (set_group c a.group_id group, refused invalid)
    else let new_id = generate_member_id a.group_id c.member_counter a.rand_val in
      let group' = with_member tm group new_id (new_member a) in
      (
        set_group (record c { member_counter = (c.member_counter + 1) % 2 ^ 64 }) a.group_id group',
        accepted group' a new_id,
      )

unfoldable pub join_again : Coordinator → Group → JoinArguments → Coordinator × JoinResult
join_again c group a = elim (find a.member_id group.members) [
  | none ↦ (
    set_group c a.group_id group,
    refused (refusal StatusCode.not_found ErrorCode.unknown_group_or_member),
  )
  | some m ↦
      let m' = record m { last_heartbeat = a.now; session_timeout_ms = a.session_timeout_ms } in
      let group' = record group { members = put a.member_id m' group.members } in
      (set_group c a.group_id group', accepted group' a a.member_id)
]

-- Who has no id is new.
unfoldable pub join_members :
    Coordinator → TopicManager → Group → JoinArguments → Name → Coordinator × JoinResult
join_members c tm group a [] = join_as_new c tm group a
join_members c tm group a (b ∷ bs) = join_again c group a

-- The group is in the map, or has just been put there.
unfoldable pub join_group :
    Coordinator → TopicManager → Group → JoinArguments → Coordinator × JoinResult
join_group c tm group0 a =
    let group = subscribe group0 a group0.members in
    if not (group.strategy == a.strategy)
    then (set_group c a.group_id group, refused invalid)
    else if not (names_eq group.subscribed_topics a.topics)
    then (set_group c a.group_id group, refused invalid)
    else join_members c tm group a a.member_id

unfoldable pub join : Coordinator → TopicManager → JoinArguments → Coordinator × JoinResult
join c tm a = elim (check_arguments c.config tm a) [
  | some outcome ↦ (c, refused outcome)
  | none ↦ elim (find a.group_id c.groups) [
    | some group ↦ join_group c tm group a
    | none ↦
        if leb c.config.max_groups (length c.groups)
        then (c, refused invalid)
        else join_group c tm (new_group a) a
  ]
]
