-- ===== src/Server/Handler.antt =====
-- src/MessageHandler.cpp: the answer to each request. The broker is what the handler has references to;
-- a handler gives the broker after it, and the frame it answers. Texts of errors are not modelled: the
-- text of a refusal is an argument, with what the clock, the random numbers and the disk give.
pub mod TopicRequests
pub mod GroupRequests
pub mod Answers
pub mod Effects
pub mod Sharing
pub mod Answering
pub mod Guarantees
mod Runs
pub mod Dispatch
use stream_forge.Base.{ℕ, ◌+◌, ◌%◌, ◌^◌, List, [], ◌∷◌, Option, none, some, length}
use stream_forge.Base.Strings.{Name}
use stream_forge.Status.{StatusCode}
use stream_forge.Wire.ByteOrder.{ByteOrder}
use stream_forge.Wire.FrameCodec.{Frame, header_size, payload_len, create_error_frame}
use stream_forge.Wire.ErrorCode
use stream_forge.Storage.Partition.{Disk}
use stream_forge.Topics.Manager.{TopicManager, TopicDisk}
use stream_forge.Group.OffsetStore.{OffsetStore}
use stream_forge.Group.Coordinator.{Coordinator}

pub record Broker : Type 0 where
  pub topics : TopicManager
  pub coordinator : Option Coordinator
  pub offsets : OffsetStore

-- The steady clock in nanoseconds, and the system's in milliseconds.
pub record Environment : Type 0 where
  pub now : ℕ
  pub now_ms : ℕ
  pub rand_val : ℕ
  pub disks : ℕ → Disk
  pub topic_disk : TopicDisk
  pub text : List ℕ

-- `none` is a fault: no frame is answered, since memory outside a buffer was read.
abbrev pub Handled : Type 0
Handled = Broker × Option Frame

unfoldable pub map_status_to_error_code : StatusCode → ℕ
map_status_to_error_code StatusCode.not_found = ErrorCode.unknown_topic
map_status_to_error_code StatusCode.already_exists = ErrorCode.topic_already_exists
map_status_to_error_code StatusCode.invalid_argument = ErrorCode.invalid_argument
map_status_to_error_code StatusCode.corrupt = ErrorCode.corrupt_data
map_status_to_error_code StatusCode.offset_out_of_range = ErrorCode.offset_out_of_range
map_status_to_error_code StatusCode.record_too_large = ErrorCode.record_too_large
map_status_to_error_code StatusCode.io_error = ErrorCode.internal_error
map_status_to_error_code StatusCode.ok = ErrorCode.internal_error

-- An early return if there is no value.
unfoldable pub or_return : {A : Type 0} → Option A → Handled → (A → Handled) → Handled
or_return none early next = early
or_return (some a) early next = next a

module _ ⦃net : ByteOrder⦄ where
  -- Frame{ HEADER_SIZE + body.size(), type, req.request_id, body }
  unfoldable pub reply : Frame → ℕ → List ℕ → Frame
  reply req type body = record {
    length = payload_len body;
    type = type;
    request_id = req.request_id;
    body = body;
  }

  unfoldable pub error_frame : Frame → ℕ → List ℕ → Frame
  error_frame req code text = create_error_frame req.request_id code text

  -- The broker stays as it was.
  unfoldable pub refuse : Broker → Environment → Frame → ℕ → Handled
  refuse b env req code = (b, some (error_frame req code env.text))
