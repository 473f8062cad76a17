-- ===== src/Server/Tcp/Workers.antt =====
-- src/ThreadPool.cpp: workers that take tasks and give completions, and the server with them as a whole.
-- A request is handled in one step.
use stream_forge.Base.{List, [], ◌∷◌, ◌++◌, Option, none, some}
use stream_forge.Wire.ByteOrder.{ByteOrder}
use stream_forge.Wire.FrameCodec.{encode}
use stream_forge.Server.Handler.{Broker, Environment, Handled}
use stream_forge.Server.Handler.Dispatch.{handle_request}
use stream_forge.Server.Tcp.{Task, Completion, Server}

-- The tasks in `working` have been taken from the queue, and are being handled.
pub record System : Type 0 where
  pub server : Server
  pub broker : Broker
  pub working : List Task

-- TaskQueue::pop, which waits while the queue is empty.
unfoldable pub pop : List Task → Option (Task × List Task)
pop [] = none
pop (t ∷ tasks) = some (t, tasks)

unfoldable pub take_task : System → Option (Task × List Task) → System
take_task y none = y
take_task y (some (t, tasks)) =
    let s = y.server in record y { server = record s { tasks = tasks }; working = t ∷ y.working }

module _ ⦃net : ByteOrder⦄ where
  -- CompletionQueue::push of the encoded answer. A fault ends the program.
  unfoldable pub push_completion : System → Task → List Task → Handled → System
  push_completion y t working (b, none) = record y { broker = b; working = working }
  push_completion y t working (b, some resp) =
      let s = y.server in
      let comp : Completion = record { conn_id = t.conn_id; response_bytes = encode resp } in
      record y {
        server = record s { completions = s.completions ++ (comp ∷ []) };
        broker = b;
        working = working;
      }

  -- One of the workers has come to its end with a task; `others` are those that go on.
  unfoldable pub finish_task : System → Task → List Task → Environment → System
  finish_task y t others env = push_completion y t others (handle_request y.broker env t.request)
