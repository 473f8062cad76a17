-- ===== src/Group/OffsetStore/Samples.antt =====
-- A partition without records, and a store on it, for concrete runs.
use stream_forge.Base.{refl, [], ◌∷◌, false, none, some, arith}
use stream_forge.Wire.ByteOrder.{ByteOrder, little_endian}
use stream_forge.Storage.LogSegment.{init}
use stream_forge.Storage.LogSegment.Contents.{init-Holds}
use stream_forge.Storage.LogSegment.Sealing.{init-fields}
use stream_forge.Storage.Partition.{Partition, StorageConfig}
use stream_forge.Storage.Partition.Contents.{Contains, one}
use stream_forge.Group.OffsetStore.{OffsetStore}
use stream_forge.Group.OffsetStore.Durable.{Synced}

instance abbrev pub host : ByteOrder
host = little_endian

abbrev pub config : StorageConfig
config = record {
  segment_max_bytes = 1024;
  index_interval_bytes = 4096;
  full_scan = false;
  default_retention_ms = 604800000;
  default_retention_bytes = 0;
}

abbrev pub blank : Partition
blank = record {
  config = config;
  next_offset = 0;
  segments = init 0 4096 [] [] none ∷ [];
  is_degraded = false;
}

pub blank-Contains : Contains blank 0 ([] ∷ [])
blank-Contains = record {
  chain =
      one (record { base = (init-fields 0 4096).0; holds = init-Holds 0 4096; numbered = tt })
        (init-fields 0 4096).1 refl;
  room = omega arith;
}

abbrev pub store : OffsetStore
store = record { offsets_partition = some blank; cache = [] }

pub store-Synced : Synced store blank 0 ([] ∷ [])
store-Synced = record { on = refl; contains = blank-Contains; commits = tt; table = refl }
