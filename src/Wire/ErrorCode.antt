-- ===== src/Wire/ErrorCode.antt =====
-- The error codes of include/streamforge/FrameCodec.hpp.
use stream_forge.Base.{ℕ}

abbrev pub unknown_type : ℕ
unknown_type = 1

abbrev pub frame_too_large : ℕ
frame_too_large = 2

abbrev pub malformed_frame : ℕ
malformed_frame = 3

abbrev pub unknown_topic : ℕ
unknown_topic = 4

abbrev pub topic_already_exists : ℕ
topic_already_exists = 5

abbrev pub invalid_topic_name : ℕ
invalid_topic_name = 6

abbrev pub invalid_partition : ℕ
invalid_partition = 7

abbrev pub offset_out_of_range : ℕ
offset_out_of_range = 8

abbrev pub record_too_large : ℕ
record_too_large = 9

abbrev pub malformed_body : ℕ
malformed_body = 10

abbrev pub corrupt_data : ℕ
corrupt_data = 11

abbrev pub internal_error : ℕ
internal_error = 12

abbrev pub invalid_argument : ℕ
invalid_argument = 13

abbrev pub unknown_group_or_member : ℕ
unknown_group_or_member = 14

abbrev pub illegal_generation : ℕ
illegal_generation = 15

abbrev pub partition_not_assigned : ℕ
partition_not_assigned = 16
