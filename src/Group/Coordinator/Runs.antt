-- ===== src/Group/Coordinator/Runs.antt =====
-- A group with one member, and the theorems on it.
use stream_forge.Base.{true, false, ℕ, ◌≡◌, refl, ap, [], ◌∷◌, none, some, arith, All}
use stream_forge.Base.Strings.{Name, name_eq, find, put}
use stream_forge.Base.Decimal.{digits}
use stream_forge.Storage.Partition.Append.{good}
use stream_forge.Topics.{num_partitions, get_partition}
use stream_forge.Topics.Manager.{TopicManager, get_topic, is_alnum}
use stream_forge.Group.Assignor.{TopicPartition, set_empty, push_back, no_partitions}
use stream_forge.Group.Assignor.Range.{push_parts, push_members, push_topics, assign_range}
use stream_forge.Group.OffsetStore.Key.{make_key}
use stream_forge.Group.OffsetStore.Durable.{IsCommitItem, commit-Synced}
use stream_forge.Group.OffsetStore.Samples.{host, blank, store, store-Synced}
use stream_forge.Group.Coordinator.Commit.{
  OffsetCommitRequestEntry, persisted, check_entries, check_member, check_offsets, check_commit,
  commit,
}
use stream_forge.Group.Coordinator.Committing.{IsAllowed, commit-IsAllowed}
use stream_forge.Group.Coordinator.{
  stable, CoordinatorConfig, MemberMetadata, Group, Coordinator, success, validate_group_id,
  generate_member_id, insert_name, sort_names, topic_partitions, assign_members, assign, rebalance,
  next_generation, leave,
}
use stream_forge.Group.Coordinator.Joining.{
  JoinArguments, check_topics, check_arguments, subscribe, with_member, join_as_new, join_members,
  join_group, join,
}
use stream_forge.Group.Coordinator.Counting.{IsKnown}
use stream_forge.Group.Coordinator.Checking.{debug_check_invariants-true}
use stream_forge.Group.Coordinator.Inspection
use stream_forge.Group.Coordinator.Inspection.{debug_check_invariants, check_group}
use stream_forge.Group.Coordinator.Invariant.{IsGroup}
use stream_forge.Group.Coordinator.Steps.{
  new_coordinator, joins, leaves, starts, goes_on, Reachable-IsGroup,
}
use stream_forge.Group.Coordinator.Generations.{Later, Step-Later}
use stream_forge.Group.Coordinator.MemberIds.{generate_member_id-injective}

abbrev orders : Name
orders = b'o' ∷ []

abbrev topics : TopicManager
topics = record {
  config = blank.config;
  topics =
      (
        orders,
        record {
          name = orders;
          retention_ms = 0;
          retention_bytes = 0;
          key_counter = 0;
          rr_counter = 0;
          partitions = blank ∷ blank ∷ [];
        },
      )
      ∷ [];
}

abbrev config : CoordinatorConfig
config = record {
  min_session_timeout_ms = 1000;
  max_session_timeout_ms = 60000;
  max_members_per_group = 64;
  max_groups = 1024;
}

abbrev workers : Name
workers = b'w' ∷ []

abbrev arguments : JoinArguments
arguments = record {
  group_id = workers;
  member_id = [];
  session_timeout_ms = 6000;
  topics = orders ∷ [];
  strategy = 0;
  now = 5000000;
  rand_val = 0xbeef;
}

abbrev joined : Coordinator
joined = (join (new_coordinator config) topics arguments).0

abbrev member : Name
member = generate_member_id workers 1 0xbeef

abbrev part : ℕ → TopicPartition
part n = record { topic = orders; partition = n }

abbrev group : Group
group = record {
  group_id = workers;
  generation = 1;
  strategy = 0;
  subscribed_topics = orders ∷ [];
  state = stable;
  members =
      (
        member,
        record {
          session_timeout_ms = 6000;
          last_heartbeat = 5000000;
          assignment = part 0 ∷ part 1 ∷ [];
        },
      )
      ∷ [];
}

joined_group : find workers joined.groups ≡ some group
unfolding join check_arguments validate_group_id is_alnum check_topics get_topic find join_group
    subscribe join_members join_as_new with_member next_generation rebalance put name_eq
    assign_members assign assign_range sort_names insert_name push_topics topic_partitions
    push_members push_parts num_partitions set_empty push_back no_partitions generate_member_id
    digits
joined_group = refl

Reachable-IsGroup_example : IsGroup topics group
Reachable-IsGroup_example =
    Reachable-IsGroup topics config joined workers group (goes_on starts (joins arguments))
      joined_group

Step-Later_example :
    (g' : Group) × (find workers (leave joined topics workers member).0.groups ≡ some g')
    × Later group g'
Step-Later_example =
    Step-Later topics joined (leave joined topics workers member).0 workers group
      (leaves workers member) joined_group

generate_member_id-injective_example : ◌≡◌ {A = ℕ} 12 12
generate_member_id-injective_example =
    generate_member_id-injective workers 12 12 3 3 (omega arith) (omega arith) refl

abbrev entry : OffsetCommitRequestEntry
entry = record { topic = orders; partition = 1; offset = 0 }

item-IsCommitItem :
    IsCommitItem b'w' [] (record { topic = orders; partition = 1; offset = 0; timestamp_ms = 6 })
unfolding make_key digits
item-IsCommitItem = record {
  first = b'o';
  others = [];
  topic = refl;
  no_pipe = (refl, tt);
  partition_fits = omega arith;
  offset_fits = omega arith;
  timestamp_fits = omega arith;
  key_fits = omega arith;
}

abbrev digits_of_member : Name
digits_of_member =
    b'-' ∷ b'0' ∷ b'0' ∷ b'0' ∷ b'0' ∷ b'0' ∷ b'0' ∷ b'0' ∷ b'1' ∷ b'-' ∷ b'b' ∷ b'e' ∷ b'e' ∷ b'f'
    ∷ []

checked : check_commit joined topics workers (b'w' ∷ digits_of_member) 1 (entry ∷ []) ≡ none
unfolding join check_arguments validate_group_id is_alnum check_topics get_topic find join_group
    subscribe join_members join_as_new with_member next_generation rebalance put name_eq
    assign_members assign assign_range sort_names insert_name push_topics topic_partitions
    push_members push_parts num_partitions set_empty push_back no_partitions generate_member_id
    digits check_commit check_entries check_member check_offsets get_partition
checked = refl

committed :
    (commit joined topics store workers
      (b'w' ∷ digits_of_member)
      1
      (entry ∷ [])
      6000000
      1000
      (λ j. good)).1
    ≡ success
unfolding commit persisted
committed =
    let s =
      commit-Synced b'w' [] store blank 0 1000 ([] ∷ [])
        (record { topic = orders; partition = 1; offset = 0; timestamp_ms = 6 }) [] (refl, tt)
        store-Synced (item-IsCommitItem, tt) (omega arith) (omega arith) (omega arith) in
    rw (commit, checked) (ap (λ x. (persisted x).1) s.3)

commit-IsAllowed_example :
    (g : Group) × (m : MemberMetadata) × (find workers joined.groups ≡ some g)
    × (find (b'w' ∷ digits_of_member) g.members ≡ some m)
    × (1 ≡ g.generation)
    × All (IsAllowed topics m) (entry ∷ [])
commit-IsAllowed_example =
    commit-IsAllowed joined topics store workers b'w' digits_of_member 1 (entry ∷ []) 6000000 1000
      (λ j. good) committed

-- With a topic that is named twice a member gets its partitions twice, which debug_check_invariants
-- objects to.
abbrev twice : JoinArguments
twice = record arguments { topics = orders ∷ orders ∷ [] }

twice_rejected :
    debug_check_invariants (join (new_coordinator config) topics twice).0 topics workers ≡ false
unfolding join check_arguments validate_group_id is_alnum check_topics get_topic find join_group
    subscribe join_members join_as_new with_member next_generation rebalance put name_eq
    assign_members assign assign_range sort_names insert_name push_topics topic_partitions
    push_members push_parts num_partitions set_empty push_back no_partitions generate_member_id
    digits debug_check_invariants check_group Inspection.check_topics
twice_rejected = refl

orders-IsKnown : IsKnown topics orders
unfolding IsKnown get_topic find name_eq num_partitions
orders-IsKnown = (_, refl, omega arith)

debug_check_invariants-true_example : debug_check_invariants joined topics workers ≡ true
debug_check_invariants-true_example =
    debug_check_invariants-true topics config joined workers group
      (goes_on starts (joins arguments)) joined_group (tt, tt) (orders-IsKnown, tt)
