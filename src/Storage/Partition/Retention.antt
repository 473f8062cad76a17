-- ===== src/Storage/Partition/Retention.antt =====
-- `scan_and_delete_segments` of src/Partition.cpp: which sealed segments are old or too many, and
-- their removal.
use stream_forge.Base.{
  ℕ, suc, ◌+◌, ◌-◌, ◌%◌, ◌^◌, List, [], ◌∷◌, Bool, ◌&&◌, ltb, leb, ◌==◌, if◌then◌else◌, length,
  take, drop, max, map,
}
use stream_forge.Base.Bytes.{signed_lt}
use stream_forge.Storage.LogSegment.{LogSegment}
use stream_forge.Storage.Partition.{Partition, sum_bytes}

-- The three paths are those of the segment's files.
pub record DeletionCandidate : Type 0 where
  pub base_offset : ℕ
  pub records : ℕ
  pub bytes : ℕ

-- now_ms - seg_max_ts > retention_ms, on int64_t values.
unfoldable pub expired : ℕ → ℕ → LogSegment → Bool
expired now_ms retention_ms s =
    signed_lt 0 s.max_timestamp_ms
    && signed_lt retention_ms ((now_ms + 2 ^ 64 - s.max_timestamp_ms) % 2 ^ 64)

-- How many segments in front, short of the last one, are expired.
unfoldable pub deletable_by_age : ℕ → ℕ → List LogSegment → ℕ
deletable_by_age now_ms retention_ms [] = 0
deletable_by_age now_ms retention_ms (s ∷ []) = 0
deletable_by_age now_ms retention_ms (s ∷ t ∷ segments) =
    let rest = deletable_by_age now_ms retention_ms (t ∷ segments) in
    if expired now_ms retention_ms s then suc rest else 0

-- How many segments in front, short of the last one, have to go until `total` is small enough.
unfoldable pub deletable_by_size : ℕ → ℕ → List LogSegment → ℕ
deletable_by_size retention_bytes total [] = 0
deletable_by_size retention_bytes total (s ∷ []) = 0
deletable_by_size retention_bytes total (s ∷ t ∷ segments) =
    let rest =
      deletable_by_size retention_bytes ((total + 2 ^ 64 - s.log_size_bytes) % 2 ^ 64)
        (t ∷ segments) in
    if ltb retention_bytes total then suc rest else 0

unfoldable pub deletable_count : ℕ → ℕ → ℕ → List LogSegment → ℕ
deletable_count now_ms retention_ms retention_bytes segments =
    let by_age = if ltb 0 retention_ms then deletable_by_age now_ms retention_ms segments else 0 in
    let by_size =
      if ltb 0 retention_bytes
      then deletable_by_size retention_bytes (sum_bytes segments) segments
      else 0 in
    let count = max by_age by_size in
    if leb (length segments) count then length segments - 1 else count

abbrev pub candidate : LogSegment → DeletionCandidate
candidate s = record {
  base_offset = s.base_offset;
  records = s.record_count;
  bytes = s.log_size_bytes;
}

-- With the list of candidates, which is left as it was if there is none. The status is always ok.
unfoldable pub scan_and_delete_segments :
    Partition → ℕ → ℕ → ℕ → Bool → List DeletionCandidate → Partition × List DeletionCandidate
scan_and_delete_segments p now_ms retention_ms retention_bytes dry_run out_deleted =
    let count = deletable_count now_ms retention_ms retention_bytes p.segments in
    if leb (length p.segments) 1
    then (p, out_deleted)
    else if count == 0
    then (p, out_deleted)
    else if dry_run
    then (p, map candidate (take count p.segments))
    else (record p { segments = drop count p.segments }, map candidate (take count p.segments))
