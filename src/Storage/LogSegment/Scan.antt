-- ===== src/Storage/LogSegment/Scan.antt =====
-- The scans of src/LogSegment.cpp over a whole log file: `recover_and_rebuild_index` and
-- `verify_and_rebuild_full`, whose loops differ in what they count, and `verify_quick`.
pub mod Loop
use stream_forge.Base.{
  ℕ, zero, suc, ◌+◌, ◌-◌, ◌*◌, ◌%◌, ◌^◌, List, [], ◌∷◌, Bool, true, false, ◌&&◌, ◌||◌, Option, none,
  some, ltb, leb, ◌==◌, if◌then◌else◌, length,
}
use stream_forge.Base.Bytes.{signed_lt}
use stream_forge.Status.{StatusCode, Result, done, error, fault}
use stream_forge.Storage.Crc32.{initial_crc, update}
use stream_forge.Storage.RecordCodec.{Record, read_u32, decode, max_record_size}
use stream_forge.Storage.File.{WriteOutcome, read_at, truncate}
use stream_forge.Storage.OffsetIndex.{IndexEntry, add_entry, rewrite_file}
use stream_forge.Storage.LogSegment.{
  LogSegment, rel_offset, is_empty, read_record_at, lookup_file_position, last_position,
}

-- The variables of the loops.
pub record Scan : Type 0 where
  pub current_pos : ℕ
  pub bytes_since_idx : ℕ
  pub index : List IndexEntry
  pub running_crc_raw : ℕ
  pub record_count : ℕ
  pub last_offset : ℕ
  pub max_timestamp_ms : ℕ
  pub next_offset : ℕ

unfoldable pub start : ℕ → Scan
start base_offset = record {
  current_pos = 0;
  bytes_since_idx = 0;
  index = [];
  running_crc_raw = initial_crc;
  record_count = 0;
  last_offset = base_offset;
  max_timestamp_ms = 0;
  next_offset = base_offset;
}

-- What a round does with a record that it has decoded from `buf`.
unfoldable pub note : ℕ → ℕ → Scan → Record → List ℕ → Scan
unfolding is_empty
note base_offset interval s r buf =
    let hit = is_empty s.index || leb interval s.bytes_since_idx in
    record {
      current_pos = (s.current_pos + length buf) % 2 ^ 32;
      bytes_since_idx = ((if hit then 0 else s.bytes_since_idx) + length buf) % 2 ^ 32;
      index =
          if hit
          then add_entry s.index (rel_offset r.offset base_offset) s.current_pos
          else s.index;
      running_crc_raw = update s.running_crc_raw buf;
      record_count = (s.record_count + 1) % 2 ^ 64;
      last_offset = r.offset;
      max_timestamp_ms =
          if signed_lt s.max_timestamp_ms r.timestamp_ms
          then r.timestamp_ms
          else s.max_timestamp_ms;
      next_offset = (r.offset + 1) % 2 ^ 64;
    }

-- One round: the record at `pos` with its bytes, or `none` where the loop breaks.
unfoldable pub scan_record : List ℕ → ℕ → ℕ → Result (Option (Record × List ℕ))
scan_record file size pos =
    if ltb size ((pos + 28) % 2 ^ 32) then done none else elim (read_at file pos 28) [
      | none ↦ done none
      | some header ↦
          let len = read_u32 header 0 in
          if ltb len 24 || ltb max_record_size len
          then done none
          else if ltb size ((pos + (4 + len)) % 2 ^ 32)
          then done none
          else elim (read_at file pos (4 + len)) [
            | none ↦ done none
            | some buf ↦ elim (decode buf) [
              | done r ↦ done (some (r, buf))
              | error s ↦ done none
              | fault ↦ fault
            ]
          ]
    ]

-- The loop, and whether it ended by a break. A round takes 28 bytes at least, so that as many
-- rounds as the file has bytes are enough: out of fuel there is a fault.
unfoldable pub scan : ℕ → ℕ → ℕ → List ℕ → ℕ → Scan → Result (Scan × Bool)
scan base interval zero file size s = if ltb s.current_pos size then fault else done (s, false)
scan base interval (suc fuel) file size s = elim (ltb s.current_pos size) [
  | false ↦ done (s, false)
  | true ↦ elim (scan_record file size s.current_pos) [
    | done none ↦ done (s, true)
    | done (some (r, buf)) ↦ scan base interval fuel file size (note base interval s r buf)
    | error e ↦ error e
    | fault ↦ fault
  ]
]

-- The torn tail is cut off, and the index is written anew; its write is not looked at.
unfoldable pub finish : LogSegment → Scan → WriteOutcome → LogSegment
finish seg s outcome =
    let size = length seg.log_file % 2 ^ 32 in
    let torn = ltb s.current_pos size in
    record seg {
      log_file = if torn then truncate seg.log_file s.current_pos else seg.log_file;
      log_size_bytes = if torn then s.current_pos else size;
      index = s.index;
      index_file = (rewrite_file s.index seg.index_file outcome).0;
      bytes_since_last_index = s.bytes_since_idx;
      running_crc_raw = s.running_crc_raw;
      record_count = s.record_count;
      last_offset = s.last_offset;
      max_timestamp_ms = s.max_timestamp_ms;
    }

unfoldable pub scan_file : LogSegment → Result (Scan × Bool)
scan_file seg =
    scan seg.base_offset seg.index_interval_bytes (length seg.log_file) seg.log_file
      (length seg.log_file % 2 ^ 32) (start seg.base_offset)

-- With the next offset.
unfoldable pub recover_and_rebuild_index : LogSegment → WriteOutcome → Result (LogSegment × ℕ)
recover_and_rebuild_index seg outcome = elim (scan_file seg) [
  | done (s, broke) ↦ done (finish seg s outcome, s.next_offset)
  | error e ↦ error e
  | fault ↦ fault
]

-- With the bytes scanned, the records validated and the corruptions counted, from zero.
unfoldable pub verify_and_rebuild_full : LogSegment → WriteOutcome → Result (LogSegment × ℕ × ℕ × ℕ)
verify_and_rebuild_full seg outcome = elim (scan_file seg) [
  | done (s, broke) ↦
      done (finish seg s outcome, s.current_pos, s.record_count, if broke then 1 else 0)
  | error e ↦ error e
  | fault ↦ fault
]

positions_fit : ℕ → List IndexEntry → Bool
positions_fit size [] = true
positions_fit size (e ∷ entries) = ltb e.file_position size && positions_fit size entries

record_is_read : LogSegment → ℕ → Result Bool
record_is_read seg pos = elim (read_record_at seg pos) [
  | done r ↦ done true
  | error s ↦ done false
  | fault ↦ fault
]

quick_last_position : LogSegment → ℕ
quick_last_position seg =
    if leb seg.base_offset seg.last_offset && ltb 0 seg.record_count
    then lookup_file_position seg seg.last_offset
    else elim (last_position seg.index) [ none ↦ 0 | some pos ↦ pos ]

-- The spot check of the first record and of one near the end.
pub verify_quick : LogSegment → Result Bool
unfolding positions_fit record_is_read quick_last_position
verify_quick seg =
    if seg.log_size_bytes == 0
    then done true
    else if ltb seg.log_size_bytes 28
    then done false
    else if positions_fit seg.log_size_bytes seg.index
    then elim (record_is_read seg 0) [
      | done true ↦
          if ltb (quick_last_position seg) seg.log_size_bytes
          then record_is_read seg (quick_last_position seg)
          else done true
      | other ↦ other
    ]
    else done false
