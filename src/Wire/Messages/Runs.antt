-- ===== src/Wire/Messages/Runs.antt =====
-- The round trips at concrete requests.
use stream_forge.Base.{◌≡◌, refl, true, [], ◌∷◌, some, arith}
use stream_forge.Wire.ByteOrder.{ByteOrder, little_endian}
use stream_forge.Wire.Body.Reads.{decode_with}
use stream_forge.Wire.Messages.Groups.{
  JoinGroupRequest, CommitOffsetRequest, read_commit_offset, encode_commit_offset,
}
use stream_forge.Wire.Messages.CommitTrips.{decode-encode_commit_offset}
use stream_forge.Wire.Messages.{
  CreateTopicRequest, ProduceRequest, FetchRequest, encode_produce, decode_produce,
}
use stream_forge.Wire.Messages.RoundTrip.{decode_produce-encode_produce}

instance abbrev host : ByteOrder
host = little_endian

abbrev fetch : FetchRequest
fetch = record {
  topic = 116 ∷ [];
  partition = 3;
  start_offset = 70000;
  max_bytes = 4096;
  max_messages = 100;
}

abbrev produce : ProduceRequest
produce = record {
  topic = 116 ∷ [];
  partition = 4294967295;
  record_count = 2;
  records = record { key = []; value = 1 ∷ 2 ∷ [] } ∷ record { key = 107 ∷ []; value = [] } ∷ [];
}

decode_produce-encode_produce_example : decode_produce (encode_produce [] produce) ≡ some produce
decode_produce-encode_produce_example = decode_produce-encode_produce produce (record {
  topic_fits = omega arith;
  partition_fits = omega arith;
  count_fits = omega arith;
  counted = refl;
  payloads = (
    record { key_fits = omega arith; value_fits = omega arith },
    (record { key_fits = omega arith; value_fits = omega arith }, tt),
  );
})

abbrev create_topic : CreateTopicRequest
create_topic = record {
  topic = 116 ∷ [];
  partitions = 8;
  retention_ms = 86400000;
  retention_bytes = 0;
  has_retention = true;
}

abbrev join_group : JoinGroupRequest
join_group = record {
  group_id = b'g' ∷ [];
  member_id = [];
  session_timeout_ms = 6000;
  strategy = 1;
  topic_count = 2;
  topics = (b't' ∷ []) ∷ (b'u' ∷ b'v' ∷ []) ∷ [];
}

abbrev commit_offset : CommitOffsetRequest
commit_offset = record {
  group_id = b'g' ∷ [];
  member_id = b'm' ∷ [];
  generation = 7;
  count = 1;
  entries = record { topic = b't' ∷ []; partition = 2; offset = 70000000000 } ∷ [];
}

decode-encode_commit_offset_example :
    decode_with read_commit_offset (encode_commit_offset [] commit_offset) ≡ some commit_offset
decode-encode_commit_offset_example = decode-encode_commit_offset commit_offset (record {
  group_id_fits = omega arith;
  member_id_fits = omega arith;
  generation_fits = omega arith;
  count_fits = omega arith;
  counted = refl;
  entries_fit = (
    record { topic_fits = omega arith; partition_fits = omega arith; offset_fits = omega arith },
    tt,
  );
})
