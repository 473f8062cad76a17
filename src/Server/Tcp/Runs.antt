-- ===== src/Server/Tcp/Runs.antt =====
-- The theorems on src/TcpServer.cpp in concrete states.
use stream_forge.Base.{
  ℕ, suc, ◌+◌, ◌≡◌, ◌⊎◌, refl, sym, List, [], ◌∷◌, ◌++◌, true, false, Option, none, some, arith,
  length, drop, flatten, if◌then◌else◌,
}
use stream_forge.Wire.FrameCodec.{
  Frame, encode, create_error_frame, write_u32, write_u16, payload_len, read_u32, create_pong_frame,
}
use stream_forge.Base.Bytes.{store32, byteswap32, load32}
use stream_forge.Wire.ByteOrder.{byteswap16, store16}
use stream_forge.Wire.FrameAssembler.{
  push_bytes, FrameExtractResult, frame_ready, error_length_too_small, extract_next_frame,
  buffered_bytes, frame_at, compact_if_needed, has_partial_frame,
}
use stream_forge.Wire.FrameAssembler.Parse.{pending, IsAssembler, parse, stuck}
use stream_forge.Server.Tcp.Ending.{extract_all-ends}
use stream_forge.Server.Samples.{host, broker, env, ping}
use stream_forge.Server.Handler.Dispatch.{handle_request}
use stream_forge.Server.Tcp.{
  Task, ServerConfig, ConnectionState, Server, accepted, would_block, find_conn, set_conn,
  update_conn, new_conn, accept_connection, enqueue, process_completions, process_all,
  process_completion, complete, deliver, delivered, unsent, dispatch_next, close_connection,
  remove_conn,
}
use stream_forge.Server.Tcp.Input.{
  handle_input, drained, receive, extract_all, after_extract, take_request, after_frames,
  after_error, dangling,
}
use stream_forge.Server.Tcp.Workers.{System, take_task, pop, finish_task, push_completion}
use stream_forge.Server.Tcp.Lines.{requests_of, responses_of}
use stream_forge.Server.Tcp.Order.{Answered}
use stream_forge.Server.Tcp.Steps.{
  accepts, inputs, takes, finishes, completes, closes, new_server, Reachable, starts, goes_on,
  with_server, continues,
}
use stream_forge.Server.Tcp.Progress.{Moves, IsServed, Faults, Reachable-answered}
use stream_forge.Server.Tcp.Service.{Reachable-in_flight, Reachable-served, handle_input-dangling}

abbrev limits : ServerConfig
limits = record {
  max_connections = 1;
  read_stall_timeout_sec = 30;
  max_output_buffer_bytes = 1000;
  max_input_buffer_bytes = 1000;
}

-- One connection has been accepted, and has sent two pings at once.
abbrev accepted_one : System
accepted_one =
    with_server (record { server = new_server limits; broker = broker; working = [] })
      (accept_connection (new_server limits) 0)

abbrev ping_bytes : List ℕ
ping_bytes = 0 ∷ 0 ∷ 0 ∷ 5 ∷ 1 ∷ 0 ∷ 0 ∷ 0 ∷ 9 ∷ []

one_accepted : find_conn 1 accepted_one.server.connections ≡ some (new_conn 1 0)
unfolding accept_connection find_conn
one_accepted = refl

server_of : Option Server → Server
server_of none = new_server limits
server_of (some s) = s

-- The two pings are read.
abbrev two_read : Server
two_read = server_of (
    continues (
      handle_input accepted_one.server (new_conn 1 0) ((ping_bytes ++ ping_bytes, 5) ∷ []) drained
        ping would_block []))

two_read_lem :
    continues (
      handle_input accepted_one.server
        (new_conn 1 0)
        ((ping_bytes ++ ping_bytes, 5) ∷ [])
        drained
        ping
        would_block
        [])
    ≡ some two_read
unfolding handle_input receive extract_all after_extract take_request after_frames after_error
    extract_next_frame buffered_bytes frame_at compact_if_needed has_partial_frame push_bytes
    read_u32 load32 byteswap32 server_of enqueue update_conn set_conn accept_connection
two_read_lem = refl

two_read-Reachable : Reachable limits broker (with_server accepted_one two_read)
two_read-Reachable =
    goes_on (goes_on starts (accepts 0 (omega arith)))
      (inputs 1 (new_conn 1 0) _ drained ping would_block [] two_read one_accepted two_read_lem)

conn_of : Option ConnectionState → ConnectionState
conn_of none = new_conn 1 0
conn_of (some c) = c

abbrev conn_two : ConnectionState
conn_two = conn_of (find_conn 1 two_read.connections)

conn_two_lem : find_conn 1 two_read.connections ≡ some conn_two
unfolding handle_input receive extract_all after_extract take_request after_frames after_error
    extract_next_frame buffered_bytes frame_at compact_if_needed has_partial_frame push_bytes
    read_u32 load32 byteswap32 server_of enqueue update_conn set_conn accept_connection find_conn
    conn_of
conn_two_lem = refl

-- One of them is with the workers, and the other one waits.
Reachable-in_flight_example :
    (length (requests_of 1 two_read.tasks)
        + length (requests_of 1 [])
        + length (responses_of 1 two_read.completions)
      ≡ (if conn_two.in_flight then 1 else 0))
    × ((conn_two.in_flight ≡ true) ⊎ (conn_two.pending_requests ≡ []))
Reachable-in_flight_example =
    Reachable-in_flight limits broker (with_server accepted_one two_read) 1 conn_two
      two_read-Reachable conn_two_lem

Reachable-answered_example :
    (y' : System) × Moves env (λ i. accepted 100) (with_server accepted_one two_read) y'
    × (((k : ℕ) → IsServed (find_conn k y'.server.connections)) ⊎ Faults env y')
Reachable-answered_example =
    Reachable-answered env (λ i. accepted 100) limits broker (with_server accepted_one two_read)
      two_read-Reachable

pings_wait :
    (two_read.tasks ≡ record { conn_id = 1; request = ping } ∷ [])
    × (conn_two.pending_requests ≡ ping ∷ [])
unfolding handle_input receive extract_all after_extract take_request after_frames after_error
    extract_next_frame buffered_bytes frame_at compact_if_needed has_partial_frame push_bytes
    read_u32 load32 byteswap32 server_of enqueue update_conn set_conn accept_connection find_conn
    conn_of
pings_wait = (refl, refl)

abbrev ping_task : Task
ping_task = record { conn_id = 1; request = ping }

abbrev taken : System
taken = take_task (with_server accepted_one two_read) (pop two_read.tasks)

abbrev answered : System
answered = finish_task taken ping_task [] env

abbrev sent_pong : System
sent_pong = with_server answered (process_completions answered.server (λ i. accepted 100))

taken_lem : taken.working ≡ ping_task ∷ []
unfolding handle_input receive extract_all after_extract take_request after_frames after_error
    extract_next_frame buffered_bytes frame_at compact_if_needed has_partial_frame push_bytes
    read_u32 load32 byteswap32 server_of enqueue update_conn set_conn accept_connection take_task
    pop
taken_lem = refl

ponged : (handle_request taken.broker env ping).1 ≡ some (create_pong_frame 9)
unfolding handle_request
ponged = refl

sent_pong-Reachable : Reachable limits broker sent_pong
sent_pong-Reachable =
    goes_on
      (goes_on (goes_on two_read-Reachable takes)
        (finishes ping_task [] [] env (create_pong_frame 9) taken_lem ponged))
      (completes (λ i. accepted 100))

abbrev conn_pong : ConnectionState
conn_pong = conn_of (find_conn 1 sent_pong.server.connections)

conn_pong_lem : find_conn 1 sent_pong.server.connections ≡ some conn_pong
unfolding handle_input receive extract_all after_extract take_request after_frames after_error
    extract_next_frame buffered_bytes frame_at compact_if_needed has_partial_frame push_bytes
    read_u32 load32 byteswap32 server_of enqueue update_conn set_conn accept_connection take_task
    pop find_conn conn_of finish_task push_completion handle_request process_completions process_all
    process_completion complete deliver delivered unsent dispatch_next encode write_u32 store32
    create_pong_frame
conn_pong_lem = refl

-- The first answer has been sent, and the second ping is with the workers.
pong_sent :
    (conn_pong.sent ≡ 0 ∷ 0 ∷ 0 ∷ 5 ∷ 129 ∷ 0 ∷ 0 ∷ 0 ∷ 9 ∷ [])
    × (sent_pong.server.tasks ≡ ping_task ∷ [])
    × (conn_pong.pending_requests ≡ [])
    × (sent_pong.server.shutdown_requested ≡ false)
    × (conn_pong.close_after_send ≡ false)
unfolding handle_input receive extract_all after_extract take_request after_frames after_error
    extract_next_frame buffered_bytes frame_at compact_if_needed has_partial_frame push_bytes
    read_u32 load32 byteswap32 server_of enqueue update_conn set_conn accept_connection take_task
    pop find_conn conn_of finish_task push_completion handle_request process_completions process_all
    process_completion complete deliver delivered unsent dispatch_next encode write_u32 store32
    payload_len create_pong_frame
pong_sent = (refl, refl, refl, refl, refl)

Reachable-served_example :
    (finished : List Frame) × (waiting : List Frame) × (conn_pong.arrived ≡ finished ++ waiting)
    × Answered finished conn_pong.answers
    × (conn_pong.sent ++ drop conn_pong.output_offset conn_pong.output_buffer
        ≡ flatten conn_pong.answers)
Reachable-served_example =
    Reachable-served limits broker sent_pong 1 conn_pong sent_pong-Reachable conn_pong_lem
      pong_sent.3 pong_sent.4

-- The client goes, and comes again: the task of its first connection is still in the queue.
abbrev come_again : System
come_again = with_server accepted_one (accept_connection (close_connection two_read 1) 6)

abbrev read_again : Server
read_again = server_of (
    continues (
      handle_input come_again.server (new_conn 2 6) ((ping_bytes, 7) ∷ []) drained ping would_block
        []))

come_again_lem : find_conn 2 come_again.server.connections ≡ some (new_conn 2 6)
unfolding handle_input receive extract_all after_extract take_request after_frames after_error
    extract_next_frame buffered_bytes frame_at compact_if_needed has_partial_frame push_bytes
    read_u32 load32 byteswap32 server_of enqueue update_conn set_conn accept_connection find_conn
    close_connection remove_conn
come_again_lem = refl

read_again_lem :
    (continues (
        handle_input come_again.server
          (new_conn 2 6)
          ((ping_bytes, 7) ∷ [])
          drained
          ping
          would_block
          [])
      ≡ some read_again)
    × (length read_again.tasks ≡ 2)
    × (two_read.next_conn_id ≡ 2)
unfolding handle_input receive extract_all after_extract take_request after_frames after_error
    extract_next_frame buffered_bytes frame_at compact_if_needed has_partial_frame push_bytes
    read_u32 load32 byteswap32 server_of enqueue update_conn set_conn accept_connection
    close_connection remove_conn
read_again_lem = (refl, refl, refl)

-- With one connection at most, two tasks can be in the queue.
two_tasks :
    (y : System) × Reachable limits broker y × (limits.max_connections + 1 ≡ length y.server.tasks)
unfolding close_connection
two_tasks = (
  with_server accepted_one read_again,
  goes_on
      (goes_on (goes_on two_read-Reachable (closes 1))
        (accepts 6 (omega (arith, read_again_lem.2))))
      (inputs 2 (new_conn 2 6) _ drained ping would_block [] read_again come_again_lem
        read_again_lem.0),
  sym read_again_lem.1,
)

abbrev short : List (List ℕ × ℕ)
short = (0 ∷ 0 ∷ 0 ∷ 4 ∷ [], 5) ∷ []

short_lem :
    (extract_all 5 (accepted_one.server, receive (new_conn 1 0) short) ping (accepted 100)).1
    ≡ error_length_too_small
unfolding receive extract_all after_extract extract_next_frame buffered_bytes push_bytes read_u32
    load32 byteswap32
short_lem = refl

handle_input-dangling_example :
    (s' : Server) × (handle_input accepted_one.server
        (new_conn 1 0)
        short
        drained
        ping
        (accepted 100)
        []
      ≡ dangling s')
    × (find_conn 1 s'.connections ≡ none)
unfolding receive push_bytes encode create_error_frame write_u32 store32 write_u16 byteswap16
    store16
handle_input-dangling_example =
    handle_input-dangling accepted_one.server (new_conn 1 0) short ping 100 [] short_lem
      (omega arith)

abbrev loaded : ConnectionState
loaded = receive (new_conn 1 0) ((ping_bytes, 5) ∷ [])

abbrev looped : (Server × ConnectionState) × FrameExtractResult
looped =
    extract_all (suc (length loaded.assembler.buffer)) (accepted_one.server, loaded) ping
      (accepted 1)

loaded-IsAssembler : IsAssembler loaded.assembler
unfolding receive push_bytes
loaded-IsAssembler = record { inside = omega arith; fits = omega arith }

extract_all-ends_example :
    ((looped.1 ≡ frame_ready) × (looped.0.0.shutdown_requested ≡ true))
    ⊎ (parse (pending looped.0.1.assembler) ≡ stuck looped.1 (pending looped.0.1.assembler))
extract_all-ends_example =
    extract_all-ends accepted_one.server loaded ping (accepted 1) loaded-IsAssembler
