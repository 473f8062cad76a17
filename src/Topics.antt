-- ===== src/Topics.antt =====
-- src/Topic.cpp, src/TopicManager.cpp: a topic is a list of partitions, and the manager a map from
-- names to topics. Locks are not modelled; flushes change no state.
pub mod Partitioner
pub mod Manager
pub mod Creation
pub mod Choice
mod Runs
use stream_forge.Base.{
  ℕ, zero, suc, ◌+◌, ◌%◌, ◌^◌, List, [], ◌∷◌, Bool, false, ◌&&◌, ◌||◌, not, Option, none, some, ltb,
  leb, ◌==◌, if◌then◌else◌, length, get_elem?,
}
use stream_forge.Base.Strings.{Name}
use stream_forge.Status.{StatusCode, Result, done, error, fault}
use stream_forge.Storage.Partition.{
  StorageConfig, Partition, Disk, BatchItem, append_with_timestamp, append_batch,
}
use stream_forge.Storage.Partition.Startup.{SegmentFiles, open_and_recover}
use Partitioner.{round_robin_partition, key_hash_partition}

-- The two counters are those of the key partitioner's fallback and of the round-robin partitioner.
pub record Topic : Type 0 where
  pub name : Name
  pub retention_ms : ℕ
  pub retention_bytes : ℕ
  pub key_counter : ℕ
  pub rr_counter : ℕ
  pub partitions : List Partition

unfoldable pub num_partitions : Topic → ℕ
num_partitions t = length t.partitions % 2 ^ 32

new_partitions : StorageConfig → ℕ → List Partition
new_partitions config zero = []
new_partitions config (suc n) =
    record { config = config; next_offset = 0; segments = []; is_degraded = false }
    ∷ new_partitions config n

pub new_topic : StorageConfig → Name → ℕ → ℕ → ℕ → Topic
new_topic config name n retention_ms retention_bytes = record {
  name = name;
  retention_ms = retention_ms;
  retention_bytes = retention_bytes;
  key_counter = 0;
  rr_counter = 0;
  partitions = new_partitions config n;
}

-- The partitions from the i-th on, with the files of each.
open_partitions : ℕ → List Partition → (ℕ → List SegmentFiles) → Result (List Partition)
open_partitions i [] files = done []
open_partitions i (p ∷ ps) files =
    let rest = open_partitions (i + 1) ps files in
    elim (open_and_recover p (files i)) [
      | done p' ↦ elim rest [ done ps' ↦ done (p' ∷ ps') | error s ↦ error s | fault ↦ fault ]
      | error s ↦ error s
      | fault ↦ fault
    ]

pub open_topic : Topic → (ℕ → List SegmentFiles) → Result Topic
open_topic t files = elim (open_partitions 0 t.partitions files) [
  | done ps ↦ done (record t { partitions = ps })
  | error s ↦ error s
  | fault ↦ fault
]

abbrev pub set_partition : ℕ → Partition → List Partition → List Partition
set_partition i p [] = []
set_partition zero p (q ∷ ps) = p ∷ ps
set_partition (suc i) p (q ∷ ps) = q ∷ set_partition i p ps

unfoldable pub append_to_with_timestamp : Topic → ℕ → List ℕ → List ℕ → ℕ → Disk → Topic × Result ℕ
append_to_with_timestamp t partition_id key value timestamp_ms disk =
    elim (get_elem? t.partitions partition_id) [
      | none ↦ (t, error StatusCode.invalid_argument)
      | some p ↦
          let (p', res) = append_with_timestamp p key value timestamp_ms disk in
          (record t { partitions = set_partition partition_id p' t.partitions }, res)
    ]

-- At the time `now_ms`.
unfoldable pub append_to : Topic → ℕ → List ℕ → List ℕ → ℕ → Disk → Topic × Result ℕ
append_to t partition_id key value now_ms disk =
    append_to_with_timestamp t partition_id key value now_ms disk

unfoldable pub append : Topic → List ℕ → List ℕ → ℕ → Disk → Topic × Result ℕ
append t key value now_ms disk =
    let (counter, part_id) = key_hash_partition t.key_counter key (num_partitions t) in
    append_to (record t { key_counter = counter }) part_id key value now_ms disk

-- a < b, as int32_t values.
abbrev pub signed_lt32 : ℕ → ℕ → Bool
signed_lt32 a b = ltb ((a + 2 ^ 31) % 2 ^ 32) ((b + 2 ^ 31) % 2 ^ 32)

-- The partition that is chosen for a batch whose first key this is; -1 leaves the choice to the topic.
unfoldable pub choose_partition : Topic → ℕ → List ℕ → Topic × ℕ
choose_partition t partition key =
    if partition == 0xffff_ffff
    then elim key [
      | [] ↦
          let (counter, p) = round_robin_partition t.rr_counter (num_partitions t) in
          (record t { rr_counter = counter }, p)
      | b ∷ bs ↦
          let (counter, p) = key_hash_partition t.key_counter (b ∷ bs) (num_partitions t) in
          (record t { key_counter = counter }, p)
    ]
    else (t, partition)

-- With `out_chosen_partition`.
unfoldable pub produce_to : Topic × ℕ → List BatchItem → ℕ → Topic × ℕ × Result ℕ
produce_to (t, chosen_p) batch now_ms = elim (get_elem? t.partitions chosen_p) [
  | none ↦ (t, chosen_p, fault)
  | some p ↦
      let (p', res) = append_batch p batch now_ms in
      (record t { partitions = set_partition chosen_p p' t.partitions }, chosen_p, res)
]

-- `partition` is the bit pattern of the int32_t.
unfoldable pub produce_batch : Topic → ℕ → List BatchItem → ℕ → ℕ → Topic × ℕ × Result ℕ
produce_batch t partition [] now_ms out = (t, out, error StatusCode.invalid_argument)
produce_batch t partition (r ∷ records) now_ms out =
    if signed_lt32 partition 0xffff_ffff
      || not (signed_lt32 partition (length t.partitions % 2 ^ 32))
    then (t, out, error StatusCode.invalid_argument)
    else produce_to (choose_partition t partition r.key) (r ∷ records) now_ms

-- A null pointer is `none`.
unfoldable pub get_partition : Topic → ℕ → Option Partition
get_partition t partition_id = get_elem? t.partitions partition_id

any_degraded : List Partition → Bool
any_degraded [] = false
any_degraded (p ∷ ps) = p.is_degraded || any_degraded ps

pub is_degraded : Topic → Bool
is_degraded t = any_degraded t.partitions
