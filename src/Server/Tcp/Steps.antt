-- ===== src/Server/Tcp/Steps.antt =====
-- The server of src/TcpServer.cpp and the workers of src/ThreadPool.cpp together, in whatever order their
-- actions interleave. An action of the one thread that owns the connections is a step, and so is the
-- taking of a task and the end of a task by a worker.
use stream_forge.Base.{ℕ, ◌+◌, ◌<◌, ◌^◌, ◌≡◌, List, [], ◌∷◌, ◌++◌, false, Option, none, some}
use stream_forge.Wire.ByteOrder.{ByteOrder}
use stream_forge.Wire.FrameCodec.{Frame}
use stream_forge.Server.Handler.{Broker, Environment}
use stream_forge.Server.Handler.Dispatch.{handle_request}
use stream_forge.Server.Tcp.{
  Task, ServerConfig, ConnectionState, Server, SendOutcome, find_conn, accept_connection,
  request_stop, close_connection, check_read_stalls, process_completions,
}
use stream_forge.Server.Tcp.Input.{
  handle_output, handle_input, RecvEnd, InputOutcome, kept, to_close, dangling,
}
use stream_forge.Server.Tcp.Workers.{System, pop, take_task, finish_task}

-- The server after an input, if the program can go on.
abbrev pub continues : InputOutcome → Option Server
continues (kept s) = some s
continues (to_close s) = some s
continues (dangling s) = none

abbrev pub with_server : System → Server → System
with_server y s = record y { server = s }

-- Fewer than 2 ^ 64 connections are accepted. A connection may be closed at any time.
pub data Step ⦃net : ByteOrder⦄ (y : System) : System → Type 0 where
  accepts :
      (now : ℕ)
      → y.server.next_conn_id + 1 < 2 ^ 64
      → Step y (with_server y (accept_connection y.server now))
  completes :
      (outcomes : ℕ → SendOutcome) → Step y (with_server y (process_completions y.server outcomes))
  outputs :
      (i : ℕ) (c : ConnectionState) (outcome : SendOutcome)
      → find_conn i y.server.connections ≡ some c
      → Step y (with_server y (handle_output y.server c outcome).0)
  inputs :
      (i : ℕ) (c : ConnectionState) (chunks : List (List ℕ × ℕ)) (end : RecvEnd) (out : Frame)
      (send : SendOutcome) (text : List ℕ) (s : Server)
      → find_conn i y.server.connections ≡ some c
      → continues (handle_input y.server c chunks end out send text) ≡ some s
      → Step y (with_server y s)
  closes : (i : ℕ) → Step y (with_server y (close_connection y.server i))
  stalls : (now : ℕ) → Step y (with_server y (check_read_stalls y.server now))
  stops : Step y (with_server y (request_stop y.server))
  takes : Step y (take_task y (pop y.server.tasks))
  finishes :
      (t : Task) (before behind : List Task) (env : Environment) (f : Frame)
      → y.working ≡ before ++ (t ∷ behind)
      → (handle_request y.broker env t.request).1 ≡ some f
      → Step y (finish_task y t (before ++ behind) env)

abbrev pub new_server : ServerConfig → Server
new_server config = record {
  config = config;
  next_conn_id = 1;
  connections = [];
  tasks = [];
  completions = [];
  shutdown_requested = false;
}

pub data Reachable ⦃net : ByteOrder⦄ (config : ServerConfig) (b : Broker) : System → Type 0 where
  starts : Reachable config b (record { server = new_server config; broker = b; working = [] })
  goes_on : {y y' : System} → Reachable config b y → Step y y' → Reachable config b y'
