-- ===== src/Storage/Partition.antt =====
-- src/Partition.cpp, include/streamforge/Partition.hpp: a partition is a list of segments, the last of
-- which is active. Locks are not modelled: an operation is one step. Flushes change no state.
pub mod Read
pub mod Retention
pub mod Startup
pub mod Contents
pub mod Append
pub mod Batch
pub mod Seek
pub mod Reading
pub mod Keeping
mod Runs
use stream_forge.Base.{
  ℕ, zero, suc, ◌+◌, ◌-◌, ◌*◌, ◌%◌, ◌^◌, List, [], ◌∷◌, ◌++◌, Bool, true, false, ◌&&◌, ◌||◌, Option,
  none, some, ltb, leb, ◌==◌, if◌then◌else◌, length, take, drop, max,
}
use stream_forge.Base.Bytes.{signed_lt}
use stream_forge.Status.{StatusCode, Result, done, error, fault}
use stream_forge.Storage.RecordCodec.{Record, max_record_size}
use stream_forge.Storage.File.{WriteOutcome}
use stream_forge.Storage.LogSegment
use stream_forge.Storage.LogSegment.{
  LogSegment, init, open_segment, read_record_at, lookup_file_position, seal, write_sealed_marker,
}

-- Of the configuration what the partitions and the topics use: two uint32_t and two uint64_t.
pub record StorageConfig : Type 0 where
  pub segment_max_bytes : ℕ
  pub index_interval_bytes : ℕ
  pub full_scan : Bool
  pub default_retention_ms : ℕ
  pub default_retention_bytes : ℕ

pub record Partition : Type 0 where
  pub config : StorageConfig
  pub next_offset : ℕ
  pub segments : List LogSegment
  pub is_degraded : Bool

-- The files of a segment when it is opened, or why they could not be.
pub data OpenOutcome : Type 0 where
  opened : List ℕ → List ℕ → Option (List ℕ) → OpenOutcome
  refused : StatusCode → OpenOutcome

-- What the file system does during one append: to the opening of a new segment, and to the writes to
-- a marker, to the log and to the index.
pub record Disk : Type 0 where
  pub opening : OpenOutcome
  pub marker : WriteOutcome
  pub log : WriteOutcome
  pub index : WriteOutcome

abbrev pub active_segment : List LogSegment → Option LogSegment
active_segment [] = none
active_segment (s ∷ []) = some s
active_segment (s ∷ t ∷ segments) = active_segment (t ∷ segments)

abbrev pub set_active : List LogSegment → LogSegment → List LogSegment
set_active [] a = []
set_active (s ∷ []) a = a ∷ []
set_active (s ∷ t ∷ segments) a = s ∷ set_active (t ∷ segments) a

-- The segment that was active so far is sealed, and its marker written, behind the new one's back.
unfoldable pub roll_segment : Partition → Disk → Partition × StatusCode
roll_segment p disk = elim disk.opening [
  | refused s ↦ (p, s)
  | opened log_file index_file sealed_file ↦
      let new_seg =
        open_segment
          (init p.next_offset p.config.index_interval_bytes log_file index_file sealed_file) in
      elim (active_segment p.segments) [
        | none ↦ (record p { segments = new_seg ∷ [] }, StatusCode.ok)
        | some old_seg ↦
            let (sealed, status) = write_sealed_marker (seal old_seg) disk.marker in
            (record p { segments = set_active p.segments sealed ++ (new_seg ∷ []) }, status)
      ]
]

-- uint32_t record_size
abbrev pub record_size : List ℕ → List ℕ → ℕ
record_size key value = (28 + (length key + length value) % 2 ^ 32) % 2 ^ 32

-- A roll if there is no active segment.
unfoldable pub first_segment : Partition → Disk → Partition × StatusCode
first_segment p disk = elim (active_segment p.segments) [
  | none ↦ roll_segment p disk
  | some active ↦ (p, StatusCode.ok)
]

-- A roll if the record would not fit in the active segment.
unfoldable pub roll_if_full : Partition → ℕ → Disk → Partition × StatusCode
roll_if_full p size disk = elim (active_segment p.segments) [
  | none ↦ (p, StatusCode.ok)
  | some active ↦
      if ltb 0 active.log_size_bytes
        && ltb p.config.segment_max_bytes ((active.log_size_bytes + size) % 2 ^ 64)
      then roll_segment p disk
      else (p, StatusCode.ok)
]

-- The record goes into the active segment, and is counted once that has succeeded.
unfoldable pub append_to_active : Partition → Record → Disk → Partition × Result ℕ
append_to_active p rec disk = elim (active_segment p.segments) [
  | none ↦ (p, fault)
  | some active ↦
      let (active', status) =
        LogSegment.append_with_timestamp active rec rec.timestamp_ms disk.log disk.index in
      let p' = record p { segments = set_active p.segments active' } in
      elim status [
        | StatusCode.ok ↦
            (record p' { next_offset = (p.next_offset + 1) % 2 ^ 64 }, done p.next_offset)
        | s ↦ (p', error s)
      ]
]

-- `return st` if a step has failed, and the next one otherwise.
abbrev pub if_ok :
    Partition × StatusCode → (Partition → Partition × Result ℕ) → Partition × Result ℕ
if_ok (p, StatusCode.ok) next = next p
if_ok (p, s) next = (p, error s)

-- What an append does once the size of the record has been checked.
unfoldable pub append_record : Partition → List ℕ → List ℕ → ℕ → Disk → Partition × Result ℕ
append_record p key value timestamp_ms disk = if_ok (first_segment p disk) (λ p1.
    if_ok (roll_if_full p1 (record_size key value) disk) (λ p2.
      append_to_active p2
        (record { offset = p2.next_offset; timestamp_ms = timestamp_ms; key = key; value = value })
        disk))

unfoldable pub append_with_timestamp : Partition → List ℕ → List ℕ → ℕ → Disk → Partition × Result ℕ
append_with_timestamp p key value timestamp_ms disk =
    if ltb max_record_size (record_size key value)
    then (p, error StatusCode.record_too_large)
    else append_record p key value timestamp_ms disk

-- At the time `now_ms`.
pub append : Partition → List ℕ → List ℕ → ℕ → Disk → Partition × Result ℕ
append p key value now_ms disk = append_with_timestamp p key value now_ms disk

pub record BatchItem : Type 0 where
  pub key : List ℕ
  pub value : List ℕ
  pub disk : Disk

abbrev pub any_too_large : List BatchItem → Bool
any_too_large [] = false
any_too_large (item ∷ batch) =
    ltb max_record_size (record_size item.key item.value) || any_too_large batch

-- `return st` if a record has failed, and the next one otherwise.
abbrev pub continue :
    Partition × Result ℕ → (Partition → Partition × Result ℕ) → Partition × Result ℕ
continue (p, done offset) next = next p
continue (p, error s) next = (p, error s)
continue (p, fault) next = (p, fault)

-- All records of a batch, from the base offset that is returned.
unfoldable pub append_all : List BatchItem → Partition → ℕ → ℕ → Partition × Result ℕ
append_all [] p now_ms base = (p, done base)
append_all (item ∷ batch) p now_ms base =
    continue (append_record p item.key item.value now_ms item.disk)
      (λ p'. append_all batch p' now_ms base)

unfoldable pub append_batch : Partition → List BatchItem → ℕ → Partition × Result ℕ
append_batch p [] now_ms = (p, error StatusCode.invalid_argument)
append_batch p (item ∷ batch) now_ms =
    if any_too_large (item ∷ batch)
    then (p, error StatusCode.record_too_large)
    else append_all (item ∷ batch) p now_ms p.next_offset

unfoldable pub earliest_offset : Partition → ℕ
earliest_offset p = elim p.segments [ [] ↦ 0 | s ∷ segments ↦ s.base_offset ]

abbrev pub sum_bytes : List LogSegment → ℕ
sum_bytes [] = 0
sum_bytes (s ∷ segments) = (s.log_size_bytes + sum_bytes segments) % 2 ^ 64

unfoldable pub total_bytes : Partition → ℕ
total_bytes p = sum_bytes p.segments

unfoldable pub segment_count : Partition → ℕ
segment_count p = length p.segments
