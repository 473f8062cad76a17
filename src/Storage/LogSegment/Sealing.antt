-- ===== src/Storage/LogSegment/Sealing.antt =====
-- New segments, sealed ones, and what appends and seals of src/LogSegment.cpp leave as it is.
use stream_forge.Base.{ℕ, ◌≡◌, refl, List, [], true, false, none, arith}
use stream_forge.Status.{StatusCode}
use stream_forge.Storage.RecordCodec.{Record}
use stream_forge.Storage.File.{WriteOutcome, written}
use stream_forge.Storage.OffsetIndex.{load_from_file}
use stream_forge.Storage.LogSegment.{
  LogSegment, init, open_counters, open_segment, read_sealed_marker, seal, write_sealed_marker,
  append_with_timestamp, index_record, count_record, last_position,
}
use stream_forge.Storage.LogSegment.Contents.{Holds}

-- A new segment over empty files is as it was constructed.
pub open_segment-init :
    (base interval : ℕ)
    → open_segment (init base interval [] [] none) ≡ init base interval [] [] none
unfolding open_segment open_counters read_sealed_marker init load_from_file last_position
open_segment-init base interval = refl

pub init-fields :
    (base interval : ℕ)
    → ((init base interval [] [] none).base_offset ≡ base)
      × ((init base interval [] [] none).is_sealed ≡ false)
unfolding init
init-fields base interval = (refl, refl)

-- A sealed segment with its marker holds what it held.
pub sealed-Holds :
    (seg : LogSegment) (rs : List Record) (o : WriteOutcome)
    → Holds seg rs
    → Holds (write_sealed_marker (seal seg) o).0 rs
unfolding write_sealed_marker seal
sealed-Holds seg rs o h = record {
  contents = h.contents;
  records = h.records;
  fits = h.fits;
  size = h.size;
  crc = h.crc;
  count = h.count;
  last = h.last;
  latest = h.latest;
  indexed = h.indexed;
}

pub sealed-fields :
    (seg : LogSegment) (o : WriteOutcome)
    → ((write_sealed_marker (seal seg) o).0.base_offset ≡ seg.base_offset)
      × ((write_sealed_marker (seal seg) o).0.is_sealed ≡ true)
unfolding write_sealed_marker seal
sealed-fields seg o = (refl, refl)

pub sealed_status : (seg : LogSegment) → (write_sealed_marker (seal seg) written).1 ≡ StatusCode.ok
unfolding write_sealed_marker seal
sealed_status seg = refl

-- An append changes neither where the segment starts nor whether it is sealed.
pub append-fields :
    (seg : LogSegment) (r : Record) (ts : ℕ) (o p : WriteOutcome)
    → ((append_with_timestamp seg r ts o p).0.base_offset ≡ seg.base_offset)
      × ((append_with_timestamp seg r ts o p).0.is_sealed ≡ seg.is_sealed)
unfolding append_with_timestamp index_record count_record
append-fields seg r ts o p = ground arith
