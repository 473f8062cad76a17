-- ===== src/Storage/LogSegment.antt =====
-- src/LogSegment.cpp, include/streamforge/LogSegment.hpp: one segment of a partition's log, a file
-- of records beside its sparse index and, once sealed, a marker file.
-- The crash points are built into test binaries only (CrashPoint.hpp); log messages and flushes
-- change no state that is modelled.
pub mod Contents
pub mod Append
pub mod Scan
pub mod Recovery
pub mod Read
pub mod Sealing
mod Runs
use stream_forge.Base.{
  ℕ, zero, suc, ◌+◌, ◌-◌, ◌*◌, ◌/◌, ◌%◌, ◌^◌, ◌≤◌, List, [], ◌∷◌, ◌++◌, Bool, true, false, not,
  ◌&&◌, ◌||◌, Option, none, some, ltb, leb, ◌==◌, if◌then◌else◌, length, take, drop,
}
use stream_forge.Base.Bytes.{signed_lt, load32, store32, load64, store64}
use stream_forge.Status.{StatusCode, Result, done, error, fault}
use stream_forge.Storage.Crc32.{initial_crc, update, finalize}
use stream_forge.Storage.RecordCodec.{Record, byte_at, read_u32, encode, decode, max_record_size}
use stream_forge.Storage.File.{WriteOutcome, write, read_at, truncate}
use stream_forge.Storage.OffsetIndex
use stream_forge.Storage.OffsetIndex.{
  IndexEntry, add_entry, append_to_file, rewrite_file, load_from_file,
}

pub record SealedMarker : Type 0 where
  pub magic : ℕ
  pub record_count : ℕ
  pub last_offset : ℕ
  pub crc32_of_whole_log : ℕ
  pub max_timestamp_ms : ℕ

-- The paths and handles are the three files themselves; the marker file may not exist.
pub record LogSegment : Type 0 where
  pub base_offset : ℕ
  pub log_file : List ℕ
  pub index_file : List ℕ
  pub sealed_file : Option (List ℕ)
  pub index : List IndexEntry
  pub log_size_bytes : ℕ
  pub bytes_since_last_index : ℕ
  pub index_interval_bytes : ℕ
  pub is_sealed : Bool
  pub running_crc_raw : ℕ
  pub record_count : ℕ
  pub last_offset : ℕ
  pub max_timestamp_ms : ℕ

-- The constructor, over the files that the directory holds.
unfoldable pub init : ℕ → ℕ → List ℕ → List ℕ → Option (List ℕ) → LogSegment
init base_offset interval log_file index_file sealed_file = record {
  base_offset = base_offset;
  log_file = log_file;
  index_file = index_file;
  sealed_file = sealed_file;
  index = [];
  log_size_bytes = 0;
  bytes_since_last_index = 0;
  index_interval_bytes = interval;
  is_sealed = false;
  running_crc_raw = initial_crc;
  record_count = 0;
  last_offset = 0;
  max_timestamp_ms = 0;
}

abbrev pub seal_magic : ℕ
seal_magic = 0x5346_534c

-- The packed struct, as memory holds it.
marker_bytes : SealedMarker → List ℕ
marker_bytes m =
    store32 m.magic
    ++ (store64 m.record_count
        ++ (store64 m.last_offset ++ (store32 m.crc32_of_whole_log ++ store64 m.max_timestamp_ms)))

struct_u32 : List ℕ → ℕ → ℕ
struct_u32 bytes i =
    load32 (byte_at bytes i) (byte_at bytes (i + 1)) (byte_at bytes (i + 2)) (byte_at bytes (i + 3))

struct_u64 : List ℕ → ℕ → ℕ
struct_u64 bytes i =
    load64 (byte_at bytes i) (byte_at bytes (i + 1)) (byte_at bytes (i + 2)) (byte_at bytes (i + 3))
      (byte_at bytes (i + 4)) (byte_at bytes (i + 5)) (byte_at bytes (i + 6))
      (byte_at bytes (i + 7))

marker_of_bytes : List ℕ → SealedMarker
unfolding struct_u32 struct_u64
marker_of_bytes bytes = record {
  magic = struct_u32 bytes 0;
  record_count = struct_u64 bytes 4;
  last_offset = struct_u64 bytes 12;
  crc32_of_whole_log = struct_u32 bytes 20;
  max_timestamp_ms = struct_u64 bytes 24;
}

pub read_sealed_marker : LogSegment → Result SealedMarker
unfolding marker_of_bytes
read_sealed_marker seg = elim seg.sealed_file [
  | none ↦ error StatusCode.not_found
  | some file ↦ elim (read_at file 0 32) [
    | none ↦ error StatusCode.corrupt
    | some bytes ↦
        if struct_u32 bytes 0 == seal_magic
        then done (marker_of_bytes bytes)
        else error StatusCode.corrupt
  ]
]

pub has_sealed_marker : LogSegment → Bool
has_sealed_marker seg = elim seg.sealed_file [ none ↦ false | some file ↦ true ]

last_position : List IndexEntry → Option ℕ
last_position [] = none
last_position (e ∷ []) = some e.file_position
last_position (e ∷ f ∷ entries) = last_position (f ∷ entries)

-- What `open` derives from the sizes and the index.
unfoldable pub open_counters : LogSegment → LogSegment
unfolding last_position
open_counters seg =
    let size = length seg.log_file % 2 ^ 32 in
    let entries = load_from_file seg.index_file in
    record seg {
      log_size_bytes = size;
      index = entries;
      bytes_since_last_index = elim (last_position entries) [
        | none ↦ size
        | some last_pos ↦ if leb last_pos size then size - last_pos else 0
      ];
    }

unfoldable pub open_segment : LogSegment → LogSegment
unfolding open_counters read_sealed_marker
open_segment seg =
    let seg' = open_counters seg in
    elim (read_sealed_marker seg') [
      | done m ↦ record seg' {
        record_count = m.record_count;
        last_offset = m.last_offset;
        max_timestamp_ms = m.max_timestamp_ms;
        is_sealed = true;
      }
      | error s ↦ seg'
      | fault ↦ seg'
    ]

-- The counters after a record has reached the log file.
pub count_record : LogSegment → Record → List ℕ → LogSegment
count_record seg r encoded = record seg {
  log_size_bytes = (seg.log_size_bytes + length encoded) % 2 ^ 32;
  running_crc_raw = update seg.running_crc_raw encoded;
  record_count = (seg.record_count + 1) % 2 ^ 64;
  last_offset = r.offset;
  max_timestamp_ms =
      if signed_lt seg.max_timestamp_ms r.timestamp_ms
      then r.timestamp_ms
      else seg.max_timestamp_ms;
}

-- uint32_t rel_offset
abbrev pub rel_offset : ℕ → ℕ → ℕ
rel_offset offset base_offset = (offset + 2 ^ 64 - base_offset) % 2 ^ 64 % 2 ^ 32

pub is_empty : List IndexEntry → Bool
is_empty [] = true
is_empty (e ∷ entries) = false

-- The index entry, at every `index_interval_bytes`; `pos` is where the record starts.
pub index_record : LogSegment → Record → ℕ → ℕ → WriteOutcome → LogSegment × StatusCode
unfolding is_empty
index_record seg r pos record_bytes outcome =
    if is_empty seg.index || leb seg.index_interval_bytes seg.bytes_since_last_index
    then (let (entries, file, wrote) =
          append_to_file seg.index seg.index_file (rel_offset r.offset seg.base_offset) pos
            outcome in
        if wrote
        then (
          record seg { index = entries; index_file = file; bytes_since_last_index = 0 },
          StatusCode.ok,
        )
        else (record seg { index = entries; index_file = file }, StatusCode.io_error))
    else (
      record seg { bytes_since_last_index = (seg.bytes_since_last_index + record_bytes) % 2 ^ 32 },
      StatusCode.ok,
    )

-- The outcomes are those of the writes to the log and to the index file.
pub append_with_timestamp :
    LogSegment → Record → ℕ → WriteOutcome → WriteOutcome → LogSegment × StatusCode
append_with_timestamp seg rec custom_ts log_outcome index_outcome =
    if seg.is_sealed
    then (seg, StatusCode.io_error)
    else (let r = record rec { timestamp_ms = custom_ts } in
        let encoded = encode r in
        if ltb max_record_size (length encoded)
        then (seg, StatusCode.record_too_large)
        else (let (file, wrote) = write seg.log_file encoded log_outcome in
            let seg' = record seg { log_file = file } in
            if wrote
            then index_record (count_record seg' r encoded) r seg.log_size_bytes (length encoded)
                index_outcome
            else (seg', StatusCode.io_error)))

pub append : LogSegment → Record → WriteOutcome → WriteOutcome → LogSegment × StatusCode
append seg r = append_with_timestamp seg r r.timestamp_ms

unfoldable pub read_record_at : LogSegment → ℕ → Result Record
read_record_at seg file_position =
    if leb seg.log_size_bytes file_position
    then error StatusCode.offset_out_of_range
    else elim (read_at seg.log_file file_position 28) [
      | none ↦ error StatusCode.corrupt
      | some header ↦
          let len = read_u32 header 0 in
          if ltb len 24 || ltb max_record_size len
          then error StatusCode.corrupt
          else elim (read_at seg.log_file file_position (4 + len)) [
            | none ↦ error StatusCode.corrupt
            | some buffer ↦ decode buffer
          ]
    ]

unfoldable pub lookup_file_position : LogSegment → ℕ → ℕ
lookup_file_position seg target_offset =
    if leb target_offset seg.base_offset
    then 0
    else OffsetIndex.lookup seg.index ((target_offset - seg.base_offset) % 2 ^ 32)

pub seal : LogSegment → LogSegment
seal seg = record seg { is_sealed = true }

pub running_crc : LogSegment → ℕ
running_crc seg = finalize seg.running_crc_raw

-- The file is created if need be, and the marker is written at its end.
pub write_sealed_marker : LogSegment → WriteOutcome → LogSegment × StatusCode
unfolding running_crc marker_bytes
write_sealed_marker seg outcome =
    let m : SealedMarker = record {
      magic = seal_magic;
      record_count = seg.record_count;
      last_offset = seg.last_offset;
      crc32_of_whole_log = running_crc seg;
      max_timestamp_ms = seg.max_timestamp_ms;
    } in
    let (file, wrote) =
      write (elim seg.sealed_file [ none ↦ [] | some file ↦ file ]) (marker_bytes m) outcome in
    (record seg { sealed_file = some file }, if wrote then StatusCode.ok else StatusCode.io_error)
