-- ===== src/Server/MessageType.antt =====
-- The message types of include/streamforge/FrameCodec.hpp.
use stream_forge.Base.{ℕ}

abbrev pub ping : ℕ
ping = 1

abbrev pub echo : ℕ
echo = 2

abbrev pub shutdown : ℕ
shutdown = 5

abbrev pub create_topic : ℕ
create_topic = 16

abbrev pub produce : ℕ
produce = 17

abbrev pub fetch : ℕ
fetch = 18

abbrev pub list_topics : ℕ
list_topics = 19

abbrev pub describe_topic : ℕ
describe_topic = 20

abbrev pub shutdown_ok : ℕ
shutdown_ok = 133

abbrev pub create_topic_ok : ℕ
create_topic_ok = 144

abbrev pub produce_ok : ℕ
produce_ok = 145

abbrev pub fetch_ok : ℕ
fetch_ok = 146

abbrev pub topics : ℕ
topics = 147

abbrev pub topic_description : ℕ
topic_description = 148

abbrev pub join_group : ℕ
join_group = 32

abbrev pub heartbeat : ℕ
heartbeat = 33

abbrev pub leave_group : ℕ
leave_group = 34

abbrev pub commit_offset : ℕ
commit_offset = 35

abbrev pub fetch_offset : ℕ
fetch_offset = 36

abbrev pub describe_group : ℕ
describe_group = 37

abbrev pub join_group_ok : ℕ
join_group_ok = 160

abbrev pub heartbeat_ok : ℕ
heartbeat_ok = 161

abbrev pub leave_group_ok : ℕ
leave_group_ok = 162

abbrev pub commit_ok : ℕ
commit_ok = 163

abbrev pub offsets : ℕ
offsets = 164

abbrev pub group_description : ℕ
group_description = 165
