-- ===== src/Topics/Runs.antt =====
-- The theorems on concrete topics.
use stream_forge.Base.{ℕ, ◌≤◌, ◌≡◌, ◌⊎◌, refl, [], ◌∷◌, true, false, none, some, arith}
use stream_forge.Base.Strings.{name_eq, find}
use stream_forge.Status.{StatusCode, Result, done, error, fault}
use stream_forge.Storage.Partition.{StorageConfig, BatchItem}
use stream_forge.Storage.Partition.Append.{good}
use stream_forge.Storage.Partition.Startup.{open_and_recover, open_all}
use stream_forge.Storage.LogSegment.{init, open_segment, open_counters}
use stream_forge.Storage.LogSegment.Scan.{recover_and_rebuild_index, scan_file, scan, start}
use stream_forge.Topics.{
  Topic, new_topic, new_partitions, open_topic, open_partitions, produce_batch,
}
use stream_forge.Topics.Manager.{
  TopicManager, TopicDisk, validate_topic_name, is_alnum, to_upper, is_reserved, create_topic,
  get_topic, add_topic,
}
use stream_forge.Topics.Creation.{create_topic-done}
use stream_forge.Topics.Choice.{Produced, produce_batch-Produced}

abbrev config : StorageConfig
config = record {
  segment_max_bytes = 1024;
  index_interval_bytes = 4096;
  full_scan = false;
  default_retention_ms = 604800000;
  default_retention_bytes = 0;
}

abbrev three : Topic
three = new_topic config (b't' ∷ []) 3 0 0

abbrev item : BatchItem
item = record { key = b'k' ∷ []; value = b'v' ∷ []; disk = good }

-- -1
abbrev unnamed : ℕ
unnamed = 0xffff_ffff

produce_batch-Produced_example :
    (produce_batch three unnamed (item ∷ []) 1000 0 ≡ (three, 0, error StatusCode.invalid_argument))
    ⊎ ((chosen : ℕ) × ((unnamed ≡ 0xffff_ffff) ⊎ (chosen ≡ unnamed))
        × Produced three chosen (item ∷ []) 1000 (produce_batch three unnamed (item ∷ []) 1000 0))
unfolding new_topic new_partitions
produce_batch-Produced_example =
    produce_batch-Produced three unnamed item [] 1000 0 (omega arith) (omega arith) (omega arith)

abbrev disk : TopicDisk
disk = record { meta_exists = false; meta_opened = true; files = λ i. [] }

abbrev none_there : TopicManager
none_there = record { config = config; topics = [] }

the_topic : Result Topic → Topic
the_topic (done t) = t
the_topic (error s) = three
the_topic fault = three

abbrev orders : Topic
orders = the_topic (open_topic (new_topic config (b't' ∷ []) 1 604800000 5) disk.files)

orders_created : (create_topic none_there (b't' ∷ []) 1 0 5 disk).1 ≡ done orders
unfolding create_topic add_topic validate_topic_name is_alnum to_upper is_reserved name_eq find
    the_topic open_topic open_partitions new_topic new_partitions open_and_recover open_all
    recover_and_rebuild_index scan_file scan init open_segment open_counters start
orders_created = refl

create_topic-done_example :
    (validate_topic_name (b't' ∷ []) ≡ true)
    × (get_topic none_there (b't' ∷ []) ≡ none)
    × ((1 ≤ 1) × (1 ≤ 64))
    × (get_topic (create_topic none_there (b't' ∷ []) 1 0 5 disk).0 (b't' ∷ []) ≡ some orders)
    × (get_topic (create_topic none_there (b't' ∷ []) 1 0 5 disk).0 [] ≡ get_topic none_there [])
create_topic-done_example =
    create_topic-done none_there (b't' ∷ []) 1 0 5 disk orders [] (λ e. cc) orders_created
