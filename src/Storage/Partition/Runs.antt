-- ===== src/Storage/Partition/Runs.antt =====
-- The theorems on partitions at concrete ones.
use stream_forge.Base.{
  ℕ, ◌-◌, ◌^◌, ◌≤◌, ◌<◌, ◌≡◌, refl, ◌∙◌, [], ◌∷◌, ◌++◌, ◌⊎◌, false, none, arith, length, take, drop,
  flatten, if◌then◌else◌,
}
use stream_forge.Status.{done}
use stream_forge.Storage.RecordCodec.{Record, encode}
use stream_forge.Storage.RecordCodec.RoundTrip.{length-encode}
use stream_forge.Storage.File.{written}
use stream_forge.Storage.LogSegment
use stream_forge.Storage.LogSegment.{LogSegment, init, seal, write_sealed_marker}
use stream_forge.Storage.LogSegment.Contents.{Holds, init-Holds}
use stream_forge.Storage.LogSegment.Append.{append-Holds}
use stream_forge.Storage.LogSegment.Sealing.{
  init-fields, append-fields, sealed-Holds, sealed-fields,
}
use stream_forge.Storage.Partition.{
  Partition, StorageConfig, BatchItem, append_with_timestamp, append_batch,
}
use stream_forge.Storage.Partition.Read.{Limits, read}
use stream_forge.Storage.Partition.Retention.{deletable_count, scan_and_delete_segments}
use stream_forge.Storage.Partition.Contents.{Contains, one, more}
use stream_forge.Storage.Partition.Append.{
  good, Appended, new_record, append_with_timestamp-Appended,
}
use stream_forge.Storage.Partition.Batch.{IsItem, Batched, append_batch-Batched}
use stream_forge.Storage.Partition.Reading.{limited, read-limited}
use stream_forge.Storage.Partition.Keeping.{
  log_bytes, scan_and_delete_segments-Contains, scan_and_delete_segments-bytes,
}

abbrev config : StorageConfig
config = record {
  segment_max_bytes = 1024;
  index_interval_bytes = 4096;
  full_scan = false;
  default_retention_ms = 604800000;
  default_retention_bytes = 0;
}

abbrev r0 : Record
r0 = record { offset = 0; timestamp_ms = 50; key = b'k' ∷ []; value = b'v' ∷ [] }

abbrev first : LogSegment
first = (LogSegment.append_with_timestamp (init 0 4096 [] [] none) r0 50 written written).0

length_r0 : length (encode r0) ≡ 30
length_r0 = length-encode r0

first-Holds : Holds first (r0 ∷ [])
first-Holds =
    (append-Holds (init 0 4096 [] [] none) [] r0 50 (init-Holds 0 4096) (init-fields 0 4096).1
      (omega arith) (omega (arith, length_r0)) (omega (arith, length_r0))).0

abbrev sealed : LogSegment
sealed = (write_sealed_marker (seal first) written).0

-- A sealed segment with one record, and an active one without any.
abbrev two : Partition
two = record {
  config = config;
  next_offset = 1;
  segments = sealed ∷ init 1 4096 [] [] none ∷ [];
  is_degraded = false;
}

two-Contains : Contains two 0 ((r0 ∷ []) ∷ [] ∷ [])
two-Contains = record {
  chain =
      more
        (record {
          base =
              (sealed-fields first written).0
              ∙ (append-fields (init 0 4096 [] [] none) r0 50 written written).0
              ∙ (init-fields 0 4096).0;
          holds = sealed-Holds first (r0 ∷ []) written first-Holds;
          numbered = (refl, tt);
        })
        (sealed-fields first written).1
        (one (record { base = (init-fields 1 4096).0; holds = init-Holds 1 4096; numbered = tt })
          (init-fields 1 4096).1 refl);
  room = omega arith;
}

append_with_timestamp-Appended_example :
    (p' : Partition) × (append_with_timestamp two (1 ∷ []) (2 ∷ 3 ∷ []) 60 good ≡ (p', done 1))
    × Appended two p' 0 ((r0 ∷ []) ∷ [] ∷ []) (new_record two (1 ∷ []) (2 ∷ 3 ∷ []) 60)
append_with_timestamp-Appended_example =
    append_with_timestamp-Appended two 0 ((r0 ∷ []) ∷ [] ∷ []) two-Contains (1 ∷ []) (2 ∷ 3 ∷ []) 60
      (omega arith) (omega arith) (omega arith) (omega arith)

abbrev item : BatchItem
item = record { key = 1 ∷ []; value = 2 ∷ []; disk = good }

item-IsItem : IsItem item
item-IsItem = record { fits = omega arith; on_good = refl }

append_batch-Batched_example :
    (p' : Partition) × (append_batch two (item ∷ item ∷ []) 60 ≡ (p', done 1))
    × Batched two p' 0 60 ((r0 ∷ []) ∷ [] ∷ []) (item ∷ item ∷ [])
append_batch-Batched_example =
    append_batch-Batched two 0 60 ((r0 ∷ []) ∷ [] ∷ []) item (item ∷ []) two-Contains
      (item-IsItem, (item-IsItem, tt)) (omega arith) (omega arith) (omega arith)

abbrev limits : Limits
limits = record { max_messages = 10; max_bytes = 4096 }

read-limited_example : read two 0 limits ≡ (limited limits 0 0 (drop (0 - 0) (r0 ∷ [])), done tt)
read-limited_example =
    read-limited two 0 0 ((r0 ∷ []) ∷ [] ∷ []) limits two-Contains (omega arith) (omega arith)

scan_and_delete_segments-Contains_example :
    let p' = (scan_and_delete_segments two 100000 1000 0 false []).0 in
    (k : ℕ) × (k < length two.segments)
    × (p' ≡ record two { segments = drop k two.segments })
    × (r0 ∷ [] ≡ flatten (take k ((r0 ∷ []) ∷ [] ∷ [])) ++ flatten (drop k ((r0 ∷ []) ∷ [] ∷ [])))
    × ((n' : ℕ) × Contains p' n' (drop k ((r0 ∷ []) ∷ [] ∷ [])))
    × (k ≡ (if false then 0 else deletable_count 100000 1000 0 two.segments))
scan_and_delete_segments-Contains_example =
    scan_and_delete_segments-Contains two 0 100000 1000 0 false [] ((r0 ∷ []) ∷ [] ∷ [])
      two-Contains

two_bytes : log_bytes two.segments < 2 ^ 64
two_bytes = omega (
  arith,
  (sealed-Holds first (r0 ∷ []) written first-Holds).size,
  (sealed-Holds first (r0 ∷ []) written first-Holds).fits,
  (init-Holds 1 4096).size,
)

scan_and_delete_segments-bytes_example :
    let p' = (scan_and_delete_segments two 100000 0 20 false []).0 in
    (log_bytes p'.segments ≤ 20) ⊎ (length p'.segments ≤ 1)
scan_and_delete_segments-bytes_example =
    scan_and_delete_segments-bytes two 0 100000 0 20 [] ((r0 ∷ []) ∷ [] ∷ []) two-Contains
      (omega arith) two_bytes
