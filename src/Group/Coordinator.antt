-- ===== src/Group/Coordinator.antt =====
-- src/GroupCoordinator.cpp: groups of members that share the partitions of the topics they subscribe
-- to. An operation is one step. A time is a number of nanoseconds, and what the clock and the random
-- numbers give is an argument.
pub mod Joining
pub mod Expiry
pub mod Commit
pub mod Inspection
pub mod Sharing
pub mod Invariant
pub mod Steps
pub mod Generations
pub mod MemberIds
pub mod Committing
pub mod Counting
pub mod Checking
mod Runs
use stream_forge.Base.{
  ℕ, ◌+◌, ◌-◌, ◌/◌, ◌%◌, ◌^◌, List, [], ◌∷◌, ◌++◌, Bool, true, false, ◌&&◌, ◌||◌, not, Option, none,
  some, ltb, leb, ◌==◌, if◌then◌else◌, length, get_or,
}
use stream_forge.Base.Strings.{Name, name_lt, find, put, erase, keys}
use stream_forge.Base.Decimal.{to_string, pad}
use stream_forge.Status.{StatusCode}
use stream_forge.Wire.ErrorCode
use stream_forge.Topics.{Topic, num_partitions}
use stream_forge.Topics.Manager.{TopicManager, get_topic, is_name_char, all_chars, back}
use stream_forge.Group.Assignor.{TopicPartition, Assignment}
use stream_forge.Group.Assignor.Range.{assign_range}
use stream_forge.Group.Assignor.RoundRobin.{assign_round_robin}

pub data GroupState : Type 0 where
  empty stable : GroupState

pub record CoordinatorConfig : Type 0 where
  pub min_session_timeout_ms : ℕ
  pub max_session_timeout_ms : ℕ
  pub max_members_per_group : ℕ
  pub max_groups : ℕ

pub record MemberMetadata : Type 0 where
  pub session_timeout_ms : ℕ
  pub last_heartbeat : ℕ
  pub assignment : List TopicPartition

-- The strategy is the byte of the enumeration: 0 for Range, 1 for RoundRobin.
pub record Group : Type 0 where
  pub group_id : Name
  pub generation : ℕ
  pub strategy : ℕ
  pub subscribed_topics : List Name
  pub state : GroupState
  pub members : List (Name × MemberMetadata)

pub record Coordinator : Type 0 where
  pub config : CoordinatorConfig
  pub member_counter : ℕ
  pub groups : List (Name × Group)

-- s.rfind("__", 0) == 0
abbrev pub is_internal : Name → Bool
is_internal (a ∷ b ∷ s) = a == b'_' && b == b'_'
is_internal _ = false

unfoldable pub validate_group_id : Name → Bool
validate_group_id [] = false
validate_group_id (c ∷ cs) =
    let group_id = c ∷ cs in
    if ltb 64 (length group_id)
    then false
    else if is_internal group_id
    then false
    else if c == b'.' || back group_id == b'.'
    then false
    else all_chars is_name_char group_id

abbrev pub hex_digit : ℕ → ℕ
hex_digit n = if ltb n 10 then 48 + n else 87 + n

-- "%04x" of a uint16_t
abbrev pub hex4 : ℕ → Name
hex4 v =
    hex_digit (v / 4096 % 16)
    ∷ hex_digit (v / 256 % 16)
    ∷ hex_digit (v / 16 % 16)
    ∷ hex_digit (v % 16)
    ∷ []

-- "%s-%08llu-%04x"; a valid group id has 64 bytes at most, so that the buffer is long enough.
unfoldable pub generate_member_id : Name → ℕ → ℕ → Name
generate_member_id group_id counter rand_val =
    group_id ++ (b'-' ∷ (pad 8 (to_string counter) ++ (b'-' ∷ hex4 rand_val)))

-- std::sort of strings
unfoldable pub insert_name : Name → List Name → List Name
insert_name x [] = x ∷ []
insert_name x (y ∷ ys) = let rest = insert_name x ys in if name_lt y x then y ∷ rest else x ∷ y ∷ ys

unfoldable pub sort_names : List Name → List Name
sort_names [] = []
sort_names (x ∷ xs) = insert_name x (sort_names xs)

abbrev pub push_topic : Name → Option Topic → List (Name × ℕ) → List (Name × ℕ)
push_topic t none rest = rest
push_topic t (some topic) rest = (t, num_partitions topic % 2 ^ 16) ∷ rest

-- The subscribed topics that exist, with the numbers of their partitions.
unfoldable pub topic_partitions : TopicManager → List Name → List (Name × ℕ)
topic_partitions tm [] = []
topic_partitions tm (t ∷ ts) = push_topic t (get_topic tm t) (topic_partitions tm ts)

abbrev pub or_empty : Option (List TopicPartition) → List TopicPartition
or_empty none = []
or_empty (some xs) = xs

-- assignments[name], of a map whose missing values are empty
abbrev pub get_assignment : Assignment → Name → List TopicPartition
get_assignment assignments name = or_empty (find name assignments)

unfoldable pub assign_members :
    Assignment → List (Name × MemberMetadata) → List (Name × MemberMetadata)
assign_members assignments [] = []
assign_members assignments ((name, m) ∷ members) =
    (name, record m { assignment = get_assignment assignments name })
    ∷ assign_members assignments members

unfoldable pub assign : ℕ → List Name → List (Name × ℕ) → Assignment
assign strategy members topics =
    if strategy == 0 then assign_range members topics else assign_round_robin members topics

unfoldable pub rebalance : TopicManager → Group → Group
rebalance tm group = elim group.members [
  | [] ↦ record group { state = empty }
  | m ∷ ms ↦ record group {
    members =
        assign_members
          (assign group.strategy (sort_names (keys group.members))
            (topic_partitions tm group.subscribed_topics))
          group.members;
    state = stable;
  }
]

-- A status and an error code: the results of heartbeat, leave and commit.
pub record Outcome : Type 0 where
  pub status : StatusCode
  pub error_code : ℕ

abbrev pub success : Outcome
success = record { status = StatusCode.ok; error_code = 0 }

abbrev pub refusal : StatusCode → ℕ → Outcome
refusal s code = record { status = s; error_code = code }

abbrev pub no_member : Outcome
no_member = refusal StatusCode.not_found ErrorCode.unknown_group_or_member

-- The group is an object that the map holds a pointer to, so that a change of it shows in the map.
abbrev pub set_group : Coordinator → Name → Group → Coordinator
set_group c group_id group = record c { groups = put group_id group c.groups }

unfoldable pub heartbeat : Coordinator → ℕ → Name → Name → ℕ → Coordinator × Outcome
heartbeat c now group_id member_id generation = elim (find group_id c.groups) [
  | none ↦ (c, no_member)
  | some group ↦ elim (find member_id group.members) [
    | none ↦ (c, no_member)
    | some m ↦
        if not (generation == group.generation)
        then (c, refusal StatusCode.invalid_argument ErrorCode.illegal_generation)
        else (
          set_group c group_id (record group {
            members = put member_id (record m { last_heartbeat = now }) group.members;
          }),
          success,
        )
  ]
]

-- The next generation of a group whose members have changed, shared out anew.
unfoldable pub next_generation : TopicManager → Group → Group
next_generation tm group =
    rebalance tm (record group { generation = (group.generation + 1) % 2 ^ 32 })

unfoldable pub leave : Coordinator → TopicManager → Name → Name → Coordinator × Outcome
leave c tm group_id member_id = elim (find group_id c.groups) [
  | none ↦ (c, no_member)
  | some group ↦ elim (find member_id group.members) [
    | none ↦ (c, no_member)
    | some m ↦ (
      set_group c group_id
          (next_generation tm (record group { members = erase member_id group.members })),
      success,
    )
  ]
]
