-- ===== src/Server/Tcp.antt =====
-- src/TcpServer.cpp, include/streamforge/ConnectionState.hpp, include/streamforge/TaskQueue.hpp: the
-- connections of the server, of which one thread is the owner, and the two queues between it and the
-- workers. What the sockets do is an argument. Addresses are only logged, and not modelled.
pub mod Input
pub mod Workers
pub mod Lines
pub mod Order
pub mod Requests
pub mod Flow
pub mod Keeping
pub mod Completing
pub mod Reading
pub mod Turn
pub mod Steps
pub mod Running
pub mod Working
pub mod Service
pub mod Ending
pub mod Work
pub mod Progress
mod Runs
use stream_forge.Base.{
  ℕ, zero, suc, ◌+◌, ◌-◌, ◌/◌, ◌%◌, ◌^◌, min, List, [], ◌∷◌, ◌++◌, Bool, true, false, ◌&&◌, Option,
  none, some, ltb, leb, ◌==◌, if◌then◌else◌, length, take, drop,
}
use stream_forge.Wire.FrameCodec.{Frame}
use stream_forge.Wire.FrameAssembler.{FrameAssembler, new_assembler}

pub record Task : Type 0 where
  pub conn_id : ℕ
  pub request : Frame

-- The flag of a completion is never read.
pub record Completion : Type 0 where
  pub conn_id : ℕ
  pub response_bytes : List ℕ

pub record ServerConfig : Type 0 where
  pub max_connections : ℕ
  pub read_stall_timeout_sec : ℕ
  pub max_output_buffer_bytes : ℕ
  pub max_input_buffer_bytes : ℕ

-- Of the socket the bytes that it has taken. Times are in nanoseconds. The last two fields are history,
-- which no operation reads: the requests that have come, and the responses that have been taken from
-- the completion queue.
pub record ConnectionState : Type 0 where
  pub conn_id : ℕ
  pub sent : List ℕ
  pub assembler : FrameAssembler
  pub pending_requests : List Frame
  pub in_flight : Bool
  pub output_buffer : List ℕ
  pub output_offset : ℕ
  pub close_after_send : Bool
  pub last_read_time : ℕ
  pub has_active_read_stall : Bool
  pub arrived : List Frame
  pub answers : List (List ℕ)

-- The tasks are the queue of the pool.
pub record Server : Type 0 where
  pub config : ServerConfig
  pub next_conn_id : ℕ
  pub connections : List ConnectionState
  pub tasks : List Task
  pub completions : List Completion
  pub shutdown_requested : Bool

-- What a socket does with bytes to send. Of a buffer that is not empty it takes one byte at least.
pub data SendOutcome : Type 0 where
  accepted : ℕ → SendOutcome
  would_block failed : SendOutcome

abbrev pub sent_count : ℕ → List ℕ → ℕ
sent_count n bytes = min (suc n) (length bytes)

-- m_connections, by the id.
unfoldable pub find_conn : ℕ → List ConnectionState → Option ConnectionState
find_conn k [] = none
find_conn k (c ∷ conns) = let rest = find_conn k conns in if c.conn_id == k then some c else rest

-- The connection of this id is an object, and has changed.
unfoldable pub set_conn : ConnectionState → List ConnectionState → List ConnectionState
set_conn c [] = []
set_conn c (d ∷ conns) =
    let rest = set_conn c conns in if d.conn_id == c.conn_id then c ∷ conns else d ∷ rest

unfoldable pub remove_conn : ℕ → List ConnectionState → List ConnectionState
remove_conn k [] = []
remove_conn k (c ∷ conns) =
    let rest = remove_conn k conns in if c.conn_id == k then rest else c ∷ rest

unfoldable pub update_conn : Server → ConnectionState → Server
update_conn s c = record s { connections = set_conn c s.connections }

unfoldable pub close_connection : Server → ℕ → Server
close_connection s conn_id = record s { connections = remove_conn conn_id s.connections }

unfoldable pub request_stop : Server → Server
request_stop s = record s { shutdown_requested = true }

-- The pool is stopped only after the loop.
unfoldable pub enqueue : Server → Task → Server
enqueue s t = record s { tasks = s.tasks ++ (t ∷ []) }

abbrev pub new_conn : ℕ → ℕ → ConnectionState
new_conn conn_id now = record {
  conn_id = conn_id;
  sent = [];
  assembler = new_assembler;
  pending_requests = [];
  in_flight = false;
  output_buffer = [];
  output_offset = 0;
  close_after_send = false;
  last_read_time = now;
  has_active_read_stall = false;
  arrived = [];
  answers = [];
}

-- One connection that the listener has accepted. Beyond the limit it is sent an error and closed.
unfoldable pub accept_connection : Server → ℕ → Server
accept_connection s now =
    if leb s.config.max_connections (length s.connections) then s else record s {
      next_conn_id = (s.next_conn_id + 1) % 2 ^ 64;
      connections = new_conn s.next_conn_id now ∷ s.connections;
    }

-- `output_offset` is never beyond the end of the buffer.
unfoldable pub unsent : ConnectionState → ℕ
unsent c = length c.output_buffer - c.output_offset

-- A response is sent at once if nothing else waits, and is buffered otherwise; `none` if the socket has
-- failed.
unfoldable pub deliver : ConnectionState → List ℕ → SendOutcome → Option ConnectionState
deliver c bytes outcome =
    if unsent c == 0
    then elim outcome [
      | accepted n ↦
          if ltb (sent_count n bytes) (length bytes)
          then some (record c {
            sent = c.sent ++ take (sent_count n bytes) bytes;
            output_buffer = drop (sent_count n bytes) bytes;
            output_offset = 0;
          })
          else some (record c { sent = c.sent ++ bytes })
      | would_block ↦ some (record c { output_buffer = bytes; output_offset = 0 })
      | failed ↦ none
    ]
    else some (record c {
      output_buffer = drop c.output_offset c.output_buffer ++ bytes;
      output_offset = 0;
    })

-- The next request of the connection, now that none is in flight.
unfoldable pub dispatch_next : Server → ConnectionState → List Frame → Server
dispatch_next s c [] = update_conn s c
dispatch_next s c (next_req ∷ pending) =
    enqueue (update_conn s (record c { pending_requests = pending; in_flight = true }))
      (record { conn_id = c.conn_id; request = next_req })

unfoldable pub delivered : Server → ℕ → Option ConnectionState → Server
delivered s conn_id none = close_connection s conn_id
delivered s conn_id (some c) = dispatch_next s c c.pending_requests

-- A response for a connection that is there.
unfoldable pub complete : Server → ConnectionState → List ℕ → SendOutcome → Server
complete s c bytes outcome =
    let c' = record c { in_flight = false; answers = c.answers ++ (bytes ∷ []) } in
    if ltb s.config.max_output_buffer_bytes (unsent c + length bytes)
    then close_connection s c.conn_id
    else delivered s c.conn_id (deliver c' bytes outcome)

-- A completion whose connection has gone is dropped.
unfoldable pub process_completion : Server → Completion → SendOutcome → Server
process_completion s comp outcome = elim (find_conn comp.conn_id s.connections) [
  | none ↦ s
  | some c ↦ complete s c comp.response_bytes outcome
]

-- The i-th completion finds the socket `outcomes i`.
unfoldable pub process_all : Server → List Completion → ℕ → (ℕ → SendOutcome) → Server
process_all s [] i outcomes = s
process_all s (comp ∷ comps) i outcomes =
    process_all (process_completion s comp (outcomes i)) comps (i + 1) outcomes

unfoldable pub process_completions : Server → (ℕ → SendOutcome) → Server
process_completions s outcomes =
    process_all (record s { completions = [] }) s.completions 0 outcomes

-- A connection that has sent a part of a frame, and nothing since.
unfoldable pub is_stalled : ServerConfig → ℕ → ConnectionState → Bool
is_stalled config now c =
    c.has_active_read_stall
    && leb config.read_stall_timeout_sec ((now - c.last_read_time) / 1000000000)

unfoldable pub stalled_ids : ServerConfig → ℕ → List ConnectionState → List ℕ
stalled_ids config now [] = []
stalled_ids config now (c ∷ conns) =
    let rest = stalled_ids config now conns in
    if is_stalled config now c then c.conn_id ∷ rest else rest

unfoldable pub close_all : Server → List ℕ → Server
close_all s [] = s
close_all s (id ∷ ids) = close_all (close_connection s id) ids

unfoldable pub check_read_stalls : Server → ℕ → Server
check_read_stalls s now = close_all s (stalled_ids s.config now s.connections)
