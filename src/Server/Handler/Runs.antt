-- ===== src/Server/Handler/Runs.antt =====
-- The theorems on src/MessageHandler.cpp at concrete requests.
use stream_forge.Base.{◌≡◌, ◌⊎◌, inr, refl, [], ◌∷◌, some}
use stream_forge.Wire.FrameCodec.{Frame}
use stream_forge.Topics.Manager.{get_topic}
use stream_forge.Group.Coordinator.{Coordinator}
use stream_forge.Group.Coordinator.Steps.{Step}
use stream_forge.Server.Samples.{host, broker, coordinator, env, internal, ping, beat}
use stream_forge.Server.Handler.Answers.{FaultOf, Replies, answer_type}
use stream_forge.Server.Handler.Answering.{handle_request-Replies}
use stream_forge.Server.Handler.Guarantees.{Asks, handle_request-internal, handle_request-Step}
use stream_forge.Server.Handler.Sharing.{IsShared}
use stream_forge.Base.Strings.{find, name_eq}
use stream_forge.Server.Handler.Dispatch.{handle_request}

handle_request-Replies_example :
    Replies (FaultOf broker env ping) ping (answer_type 1) (handle_request broker env ping).1
handle_request-Replies_example = handle_request-Replies broker env ping

-- The request to create the topic "__u".
abbrev create : Frame
create = record {
  length = 12;
  type = 16;
  request_id = 3;
  body = 0 ∷ 3 ∷ 95 ∷ 95 ∷ 117 ∷ 0 ∷ 1 ∷ [];
}

broker-IsShared : IsShared broker
unfolding get_topic find name_eq
broker-IsShared = refl

handle_request-internal_example :
    IsShared (handle_request broker env create).0
    × (get_topic (handle_request broker env create).0.topics internal
        ≡ get_topic broker.topics internal)
handle_request-internal_example =
    handle_request-internal broker env create internal broker-IsShared refl (inr refl)

handle_request-Step_example :
    (c' : Coordinator) × ((handle_request broker env beat).0.coordinator ≡ some c')
    × Asks broker.topics env beat coordinator c'
    × ((c' ≡ coordinator) ⊎ Step broker.topics coordinator c')
handle_request-Step_example = handle_request-Step broker env beat coordinator refl
