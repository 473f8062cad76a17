-- ===== src/Storage/Partition/Read.antt =====
-- `read` of src/Partition.cpp: records from an offset on, up to limits on their number and bytes.
use stream_forge.Base.{
  ℕ, zero, suc, ◌+◌, ◌%◌, ◌^◌, List, [], ◌∷◌, ◌++◌, Bool, ◌||◌, ltb, leb, ◌==◌, if◌then◌else◌,
  length,
}
use stream_forge.Status.{StatusCode, Result, done, error, fault}
use stream_forge.Storage.RecordCodec.{Record}
use stream_forge.Storage.LogSegment.{LogSegment, read_record_at, lookup_file_position}
use stream_forge.Storage.Partition.{Partition, record_size, earliest_offset}

-- What has been read, in records and bytes. (The number of messages is that of the records.)
pub record Read : Type 0 where
  pub records : List Record
  pub total_bytes_read : ℕ

abbrev pub nothing_read : Read
nothing_read = record { records = []; total_bytes_read = 0 }

-- ReadResult: the records, and the status beside them.
abbrev pub ReadResult : Type 0
ReadResult = List Record × Result (Unit {0})

-- Either the next segment is read, or the whole function returns.
pub data ReadStep : Type 0 where
  next_segment : Read → ReadStep
  returned : ReadResult → ReadStep

pub record Limits : Type 0 where
  pub max_messages : ℕ
  pub max_bytes : ℕ

abbrev pub push : Read → Record → Read
push acc r = record {
  records = acc.records ++ (r ∷ []);
  total_bytes_read = (acc.total_bytes_read + record_size r.key r.value) % 2 ^ 64;
}

abbrev pub is_enough : Limits → Read → Bool
is_enough limits acc =
    leb limits.max_messages (length acc.records) || leb limits.max_bytes acc.total_bytes_read

-- The loop over one segment. A round goes on by 28 bytes at least, so that as many rounds as the
-- segment has bytes, and one more, are enough: out of fuel there is a fault.
unfoldable pub read_segment : ℕ → LogSegment → ℕ → Limits → ℕ → Read → ReadStep
read_segment zero seg start_offset limits pos acc = returned (acc.records, fault)
read_segment (suc fuel) seg start_offset limits pos acc =
    if ltb pos seg.log_size_bytes
    then elim (read_record_at seg pos) [
      | done r ↦
          let pos' = (pos + record_size r.key r.value) % 2 ^ 64 in
          if ltb r.offset start_offset
          then read_segment fuel seg start_offset limits pos' acc
          else if is_enough limits (push acc r)
          then returned ((push acc r).records, done tt)
          else read_segment fuel seg start_offset limits pos' (push acc r)
      | error StatusCode.offset_out_of_range ↦ next_segment acc
      | error s ↦ returned (acc.records, error s)
      | fault ↦ returned (acc.records, fault)
    ]
    else next_segment acc

unfoldable pub read_segments : List LogSegment → ℕ → Limits → Read → ReadResult
read_segments [] start_offset limits acc = (acc.records, done tt)
read_segments (seg ∷ segments) start_offset limits acc =
    elim (read_segment (suc seg.log_size_bytes) seg start_offset limits
      (lookup_file_position seg start_offset) acc) [
        | next_segment acc' ↦ read_segments segments start_offset limits acc'
        | returned res ↦ res
      ]

-- From the last segment on whose base is not above the offset; from the first if there is none.
unfoldable pub segments_from : List LogSegment → ℕ → List LogSegment
segments_from [] start_offset = []
segments_from (s ∷ []) start_offset = s ∷ []
segments_from (s ∷ t ∷ segments) start_offset =
    let rest = segments_from (t ∷ segments) start_offset in
    if leb t.base_offset start_offset then rest else s ∷ t ∷ segments

unfoldable pub read : Partition → ℕ → Limits → ReadResult
read p start_offset limits =
    if start_offset == p.next_offset
    then ([], done tt)
    else if ltb p.next_offset start_offset || ltb start_offset (earliest_offset p)
    then ([], error StatusCode.offset_out_of_range)
    else read_segments (segments_from p.segments start_offset) start_offset limits nothing_read
