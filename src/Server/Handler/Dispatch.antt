-- ===== src/Server/Handler/Dispatch.antt =====
-- `handle_request` of src/MessageHandler.cpp: the handler of each type.
use stream_forge.Base.{some, ◌==◌, if◌then◌else◌}
use stream_forge.Wire.ByteOrder.{ByteOrder}
use stream_forge.Wire.ErrorCode
use stream_forge.Wire.FrameCodec.{Frame, create_pong_frame, create_echo_reply_frame}
use stream_forge.Server.MessageType
use stream_forge.Server.Handler.{Broker, Environment, Handled, refuse}
use stream_forge.Server.Handler.TopicRequests.{
  handle_create_topic, handle_produce, handle_fetch, handle_list_topics, handle_describe_topic,
}
use stream_forge.Server.Handler.GroupRequests.{
  handle_join_group, handle_heartbeat, handle_leave_group, handle_commit_offset,
  handle_fetch_offset, handle_describe_group,
}

module _ ⦃net : ByteOrder⦄ where
  unfoldable pub handle_request : Broker → Environment → Frame → Handled
  handle_request b env req =
      if req.type == MessageType.ping
      then (b, some (create_pong_frame req.request_id))
      else if req.type == MessageType.echo
      then (b, some (create_echo_reply_frame req.request_id req.body))
      else if req.type == MessageType.create_topic
      then handle_create_topic b env req
      else if req.type == MessageType.produce
      then handle_produce b env req
      else if req.type == MessageType.fetch
      then handle_fetch b env req
      else if req.type == MessageType.list_topics
      then handle_list_topics b env req
      else if req.type == MessageType.describe_topic
      then handle_describe_topic b env req
      else if req.type == MessageType.join_group
      then handle_join_group b env req
      else if req.type == MessageType.heartbeat
      then handle_heartbeat b env req
      else if req.type == MessageType.leave_group
      then handle_leave_group b env req
      else if req.type == MessageType.commit_offset
      then handle_commit_offset b env req
      else if req.type == MessageType.fetch_offset
      then handle_fetch_offset b env req
      else if req.type == MessageType.describe_group
      then handle_describe_group b env req
      else refuse b env req ErrorCode.unknown_type
