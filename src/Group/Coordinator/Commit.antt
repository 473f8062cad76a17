-- ===== src/Group/Coordinator/Commit.antt =====
-- `commit` and `fetch_offsets` of src/GroupCoordinator.cpp: who may commit an offset, and which.
use stream_forge.Base.{
  ℕ, ◌/◌, List, [], ◌∷◌, Bool, true, false, ◌&&◌, ◌||◌, not, Option, none, some, ltb, ◌==◌,
  if◌then◌else◌,
}
use stream_forge.Base.Strings.{Name, name_eq, find}
use stream_forge.Status.{StatusCode, Result, done, error, fault}
use stream_forge.Wire.ByteOrder.{ByteOrder}
use stream_forge.Wire.ErrorCode
use stream_forge.Storage.Partition.{Partition, Disk}
use stream_forge.Topics.{get_partition}
use stream_forge.Topics.Manager.{TopicManager, get_topic}
use stream_forge.Group.Assignor.{TopicPartition}
use stream_forge.Group.OffsetStore.{OffsetCommitItem, OffsetStore, get}
use stream_forge.Group.OffsetStore
use stream_forge.Group.Coordinator.{
  Group, Coordinator, Outcome, success, refusal, no_member, is_internal,
}

pub record OffsetCommitRequestEntry : Type 0 where
  pub topic : Name
  pub partition : ℕ
  pub offset : ℕ

-- Whether the partition exists, and which one it is.
abbrev pub find_partition : TopicManager → Name → ℕ → Option Partition
find_partition tm topic partition = elim (get_topic tm topic) [
  | none ↦ none
  | some t ↦ get_partition t partition
]

-- What is wrong with the topics and the partitions.
unfoldable pub check_entries : TopicManager → List OffsetCommitRequestEntry → Option Outcome
check_entries tm [] = none
check_entries tm (entry ∷ entries) =
    let rest = check_entries tm entries in
    if is_internal entry.topic
    then some (refusal StatusCode.invalid_argument ErrorCode.invalid_topic_name)
    else elim (get_topic tm entry.topic) [
      | none ↦ some (refusal StatusCode.not_found ErrorCode.unknown_topic)
      | some t ↦ elim (get_partition t entry.partition) [
        | none ↦ some (refusal StatusCode.invalid_argument ErrorCode.invalid_partition)
        | some p ↦ rest
      ]
    ]

abbrev pub is_assigned : OffsetCommitRequestEntry → List TopicPartition → Bool
is_assigned entry [] = false
is_assigned entry (tp ∷ tps) =
    name_eq tp.topic entry.topic && tp.partition == entry.partition || is_assigned entry tps

abbrev pub all_assigned : List TopicPartition → List OffsetCommitRequestEntry → Bool
all_assigned tps [] = true
all_assigned tps (entry ∷ entries) = is_assigned entry tps && all_assigned tps entries

abbrev pub illegal_generation : Outcome
illegal_generation = refusal StatusCode.invalid_argument ErrorCode.illegal_generation

-- A commit without a group membership, which groups with members refuse.
unfoldable pub check_standalone : Option Group → Option Outcome
check_standalone none = none
check_standalone (some group) = elim group.members [ [] ↦ none | m ∷ ms ↦ some illegal_generation ]

unfoldable pub check_member :
    Option Group → Name → ℕ → List OffsetCommitRequestEntry → Option Outcome
check_member none member_id generation entries = some no_member
check_member (some group) member_id generation entries = elim (find member_id group.members) [
  | none ↦ some no_member
  | some m ↦
      if not (generation == group.generation)
      then some illegal_generation
      else if not (all_assigned m.assignment entries)
      then some (refusal StatusCode.invalid_argument ErrorCode.partition_not_assigned)
      else none
]

-- No offset is beyond the end of its partition. (The partitions have been found before.)
unfoldable pub check_offsets : TopicManager → List OffsetCommitRequestEntry → Option Outcome
check_offsets tm [] = none
check_offsets tm (entry ∷ entries) =
    let rest = check_offsets tm entries in
    elim (find_partition tm entry.topic entry.partition) [
      | none ↦ rest
      | some p ↦
          if ltb p.next_offset entry.offset
          then some (refusal StatusCode.offset_out_of_range ErrorCode.offset_out_of_range)
          else rest
    ]

abbrev pub is_standalone : Name → ℕ → Bool
is_standalone [] generation = generation == 0xffff_ffff
is_standalone (c ∷ cs) generation = false

abbrev pub or_else : Option Outcome → Option Outcome → Option Outcome
or_else (some o) next = some o
or_else none next = next

-- The first reason to refuse a commit.
unfoldable pub check_commit :
    Coordinator → TopicManager → Name → Name → ℕ → List OffsetCommitRequestEntry → Option Outcome
check_commit c tm group_id member_id generation entries = or_else (check_entries tm entries) (
    or_else
      (if is_standalone member_id generation
        then check_standalone (find group_id c.groups)
        else check_member (find group_id c.groups) member_id generation entries)
      (check_offsets tm entries))

abbrev pub items_of : ℕ → List OffsetCommitRequestEntry → List OffsetCommitItem
items_of now_ms [] = []
items_of now_ms (e ∷ entries) =
    record { topic = e.topic; partition = e.partition; offset = e.offset; timestamp_ms = now_ms }
    ∷ items_of now_ms entries

unfoldable pub persisted : OffsetStore × Result (Unit {0}) → OffsetStore × Outcome
persisted (store, done u) = (store, success)
persisted (store, error s) = (store, refusal s ErrorCode.internal_error)
persisted (store, fault) = (store, refusal StatusCode.corrupt ErrorCode.internal_error)

-- A refusal returns before anything is stored.
abbrev pub after_check :
    Option Outcome → OffsetStore → OffsetStore × Result (Unit {0}) → OffsetStore × Outcome
after_check (some o) store committed = (store, o)
after_check none store committed = persisted committed

-- `now` is the coordinator's clock, `now_ms` the time of the append.
unfoldable pub commit :
    ⦃net : ByteOrder⦄
    → Coordinator
    → TopicManager
    → OffsetStore
    → Name
    → Name
    → ℕ
    → List OffsetCommitRequestEntry
    → ℕ
    → ℕ
    → (ℕ → Disk)
    → OffsetStore × Outcome
commit c tm store group_id member_id generation entries now now_ms disks =
    after_check (check_commit c tm group_id member_id generation entries) store
      (OffsetStore.commit store group_id (items_of (now / 1000000) entries) now_ms disks)

pub record TopicPartitionQuery : Type 0 where
  pub topic : Name
  pub partition : ℕ

-- The status is always ok.
unfoldable pub fetch_offsets : OffsetStore → Name → List TopicPartitionQuery → List ℕ
fetch_offsets store group_id [] = []
fetch_offsets store group_id (q ∷ queries) =
    get store group_id q.topic q.partition ∷ fetch_offsets store group_id queries
