-- ===== src/Server/Samples.antt =====
-- A broker without topics, and what the tests give it.
use stream_forge.Base.{[], ◌∷◌, true, false, none, some}
use stream_forge.Base.Strings.{Name}
use stream_forge.Storage.Partition.{StorageConfig}
use stream_forge.Storage.Partition.Append.{good}
use stream_forge.Topics.{new_topic}
use stream_forge.Group.Coordinator.{Coordinator}
use stream_forge.Wire.ByteOrder.{ByteOrder, little_endian}
use stream_forge.Wire.FrameCodec.{Frame}
use stream_forge.Server.Handler.{Broker, Environment}

instance abbrev pub host : ByteOrder
host = little_endian

abbrev pub config : StorageConfig
config = record {
  segment_max_bytes = 1024;
  index_interval_bytes = 4096;
  full_scan = false;
  default_retention_ms = 604800000;
  default_retention_bytes = 0;
}

-- "__t"
abbrev pub internal : Name
internal = b'_' ∷ b'_' ∷ b't' ∷ []

abbrev pub coordinator : Coordinator
coordinator = record {
  config = record {
    min_session_timeout_ms = 1000;
    max_session_timeout_ms = 60000;
    max_members_per_group = 10;
    max_groups = 10;
  };
  member_counter = 1;
  groups = [];
}

abbrev pub broker : Broker
broker = record {
  topics = record { config = config; topics = (internal, new_topic config internal 1 0 0) ∷ [] };
  coordinator = some coordinator;
  offsets = record { offsets_partition = none; cache = [] };
}

abbrev pub env : Environment
env = record {
  now = 0;
  now_ms = 0;
  rand_val = 0;
  disks = λ i. good;
  topic_disk = record { meta_exists = false; meta_opened = true; files = λ i. [] };
  text = b'?' ∷ [];
}

abbrev pub ping : Frame
ping = record { length = 5; type = 1; request_id = 9; body = [] }

-- A heartbeat of the member "m" in the group "g".
abbrev pub beat : Frame
beat = record {
  length = 15;
  type = 33;
  request_id = 7;
  body = 0 ∷ 1 ∷ 103 ∷ 0 ∷ 1 ∷ 109 ∷ 0 ∷ 0 ∷ 0 ∷ 1 ∷ [];
}
