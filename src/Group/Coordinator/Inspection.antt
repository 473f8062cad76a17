-- ===== src/Group/Coordinator/Inspection.antt =====
-- `describe` and `debug_check_invariants` of src/GroupCoordinator.cpp.
use stream_forge.Base.{
  ℕ, zero, suc, ◌+◌, ◌-◌, ◌/◌, ◌%◌, ◌^◌, List, [], ◌∷◌, Bool, true, false, ◌&&◌, Option, none, some,
  ltb, ◌==◌, if◌then◌else◌,
}
use stream_forge.Base.Strings.{Name, name_eq, find}
use stream_forge.Topics.{num_partitions}
use stream_forge.Topics.Manager.{TopicManager, get_topic}
use stream_forge.Group.Assignor.{TopicPartition}
use stream_forge.Group.Coordinator.{
  GroupState, empty, stable, MemberMetadata, Group, Coordinator, Outcome, success, no_member,
}

pub record MemberDescription : Type 0 where
  pub member_id : Name
  pub session_timeout_ms : ℕ
  pub ms_since_heartbeat : ℕ
  pub assignment : List TopicPartition

-- The state stands for its name, "empty" or "stable".
pub record GroupDescription : Type 0 where
  pub outcome : Outcome
  pub group_id : Name
  pub generation : ℕ
  pub state : Option GroupState
  pub strategy : ℕ
  pub members : List MemberDescription

-- A heartbeat in the future counts as zero milliseconds ago.
unfoldable pub describe_members : ℕ → List (Name × MemberMetadata) → List MemberDescription
describe_members now [] = []
describe_members now ((k, m) ∷ members) =
    record {
      member_id = k;
      session_timeout_ms = m.session_timeout_ms;
      ms_since_heartbeat = (now - m.last_heartbeat) / 1000000 % 2 ^ 32;
      assignment = m.assignment;
    }
    ∷ describe_members now members

unfoldable pub describe : Coordinator → ℕ → Name → GroupDescription
describe c now group_id = elim (find group_id c.groups) [
  | none ↦ record {
    outcome = no_member;
    group_id = [];
    generation = 0;
    state = none;
    strategy = 0;
    members = [];
  }
  | some group ↦ record {
    outcome = success;
    group_id = group.group_id;
    generation = group.generation;
    state = some group.state;
    strategy = group.strategy;
    members = describe_members now group.members;
  }
]

abbrev pub is_at : Name → ℕ → TopicPartition → Bool
is_at topic p tp = name_eq tp.topic topic && tp.partition == p

abbrev pub count_in : Name → ℕ → List TopicPartition → ℕ
count_in topic p [] = 0
count_in topic p (tp ∷ tps) = (if is_at topic p tp then 1 else 0) + count_in topic p tps

-- How often members have a partition.
abbrev pub count_members : Name → ℕ → List (Name × MemberMetadata) → ℕ
count_members topic p [] = 0
count_members topic p ((k, m) ∷ members) =
    count_in topic p m.assignment + count_members topic p members

-- From p on, n partitions. (A topic has at most 2 ^ 16, so that the uint16_t of the loop ends it.)
abbrev pub check_parts : Name → ℕ → ℕ → List (Name × MemberMetadata) → Bool
check_parts topic p zero members = true
check_parts topic p (suc n) members =
    count_members topic p members == 1 && check_parts topic (p + 1) n members

unfoldable pub check_topics : TopicManager → List Name → List (Name × MemberMetadata) → Bool
check_topics tm [] members = true
check_topics tm (t ∷ ts) members =
    let rest = check_topics tm ts members in
    elim (get_topic tm t) [
      | none ↦ false
      | some topic ↦ check_parts t 0 (num_partitions topic) members && rest
    ]

unfoldable pub is_known : TopicManager → TopicPartition → Bool
is_known tm tp = elim (get_topic tm tp.topic) [
  | none ↦ false
  | some topic ↦ ltb tp.partition (num_partitions topic)
]

abbrev pub all_known : TopicManager → List TopicPartition → Bool
all_known tm [] = true
all_known tm (tp ∷ tps) = is_known tm tp && all_known tm tps

abbrev pub check_members : TopicManager → List (Name × MemberMetadata) → Bool
check_members tm [] = true
check_members tm ((k, m) ∷ members) = all_known tm m.assignment && check_members tm members

unfoldable pub check_group : TopicManager → Group → List (Name × MemberMetadata) → Bool
check_group tm group [] = elim group.state [ empty ↦ true | stable ↦ false ]
check_group tm group (m ∷ ms) =
    check_topics tm group.subscribed_topics (m ∷ ms) && check_members tm (m ∷ ms)

unfoldable pub debug_check_invariants : Coordinator → TopicManager → Name → Bool
debug_check_invariants c tm group_id = elim (find group_id c.groups) [
  | none ↦ true
  | some group ↦ check_group tm group group.members
]
