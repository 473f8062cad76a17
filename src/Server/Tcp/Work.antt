-- ===== src/Server/Tcp/Work.antt =====
-- How much the tasks, the workers and the completions of src/TcpServer.cpp and src/ThreadPool.cpp have
-- left to do.
use stream_forge.Base.{
  ℕ, suc, ◌+◌, ◌*◌, ◌≤◌, ◌≡◌, refl, sym, ◌∙◌, subst, inl, inr, List, [], ◌∷◌, ◌++◌, true, false,
  Option, none, some, ltb, ◌==◌, arith, length, length-append, Bool-cases,
}
use stream_forge.Wire.FrameCodec.{Frame}
use stream_forge.Server.Tcp.{
  Completion, ConnectionState, Server, SendOutcome, find_conn, set_conn, remove_conn, update_conn,
  close_connection, enqueue, unsent, deliver, dispatch_next, delivered, complete,
  process_completion, process_all, process_completions,
}
use stream_forge.Server.Tcp.Workers.{System}
use stream_forge.Server.Tcp.Lines.{find_conn-id}

unfoldable pub pending_in : List ConnectionState → ℕ
pending_in [] = 0
pending_in (c ∷ conns) = length c.pending_requests + pending_in conns

-- A request that waits has four steps before it, a task three.
abbrev pub queued_work : Server → ℕ
queued_work s = 4 * pending_in s.connections + 3 * length s.tasks

abbrev pub work_left : System → ℕ
work_left y = queued_work y.server + 2 * length y.working + length y.server.completions

pending_in-remove_conn :
    (k : ℕ) (conns : List ConnectionState) → pending_in (remove_conn k conns) ≤ pending_in conns
unfolding pending_in remove_conn
pending_in-remove_conn k [] = omega arith
pending_in-remove_conn k (c ∷ conns) =
    let h = pending_in-remove_conn k conns in
    elim (Bool-cases (c.conn_id == k)) [ inl e ↦ rw e (omega arith) | inr e ↦ rw e (omega arith) ]

pending_in-set_conn :
    (k : ℕ) (conns : List ConnectionState) (c c' : ConnectionState)
    → find_conn k conns ≡ some c
    → c'.conn_id ≡ k
    → pending_in (set_conn c' conns) + length c.pending_requests
      ≡ pending_in conns + length c'.pending_requests
unfolding pending_in set_conn find_conn
pending_in-set_conn k [] c c' e i = absurd cc
pending_in-set_conn k (d ∷ conns) c c' e i = elim (Bool-cases (d.conn_id == k)) [
  | inl b ↦ let f : some d ≡ some c = rw b at e in let g : d ≡ c = cc in rw (i, b, g) (omega arith)
  | inr b ↦ let h = pending_in-set_conn k conns c c' (rw b at e) i in rw (i, b) (omega arith)
]

close-queued_work : (s : Server) (k : ℕ) → queued_work (close_connection s k) ≤ queued_work s
unfolding close_connection
close-queued_work s k = let h = pending_in-remove_conn k s.connections in omega arith

dispatch_next-queued_work :
    (s : Server) (k : ℕ) (c c' : ConnectionState) (pending : List Frame)
    → find_conn k s.connections ≡ some c
    → c'.conn_id ≡ k
    → c'.pending_requests ≡ c.pending_requests
    → c.pending_requests ≡ pending
    → queued_work (dispatch_next s c' pending) ≤ queued_work s
unfolding dispatch_next update_conn enqueue
dispatch_next-queued_work s k c c' [] e i p q =
    let h = pending_in-set_conn k s.connections c c' e i in
    let l : length c'.pending_requests ≡ length c.pending_requests = rw p refl in omega arith
dispatch_next-queued_work s k c c' (r ∷ pending) e i p q =
    let h =
      pending_in-set_conn k s.connections c
        (record c' { pending_requests = pending; in_flight = true }) e i in
    let l : length c.pending_requests ≡ suc (length pending) = rw q refl in
    let t = length-append s.tasks (record { conn_id = c'.conn_id; request = r } ∷ []) in omega arith

-- Only what was sent and what waits to be sent is changed.
deliver-same :
    (c d : ConnectionState) (bytes : List ℕ) (outcome : SendOutcome)
    → deliver c bytes outcome ≡ some d
    → (d.conn_id ≡ c.conn_id) × (d.pending_requests ≡ c.pending_requests)
unfolding deliver
deliver-same c d bytes outcome e = (ground arith, ground arith)

delivered-queued_work :
    (s : Server) (k : ℕ) (c c' : ConnectionState) (bytes : List ℕ) (outcome : SendOutcome)
    (o : Option ConnectionState)
    → find_conn k s.connections ≡ some c
    → c'.conn_id ≡ k
    → c'.pending_requests ≡ c.pending_requests
    → deliver c' bytes outcome ≡ o
    → queued_work (delivered s k o) ≤ queued_work s
unfolding delivered
delivered-queued_work s k c c' bytes outcome none e i p f = close-queued_work s k
delivered-queued_work s k c c' bytes outcome (some d) e i p f =
    let (j, q) = deliver-same c' d bytes outcome f in
    dispatch_next-queued_work s k c d d.pending_requests e (j ∙ i) (q ∙ p) (sym (q ∙ p))

complete-queued_work :
    (s : Server) (c : ConnectionState) (bytes : List ℕ) (outcome : SendOutcome)
    → find_conn c.conn_id s.connections ≡ some c
    → queued_work (complete s c bytes outcome) ≤ queued_work s
unfolding complete
complete-queued_work s c bytes outcome e =
    elim (Bool-cases (ltb s.config.max_output_buffer_bytes (unsent c + length bytes))) [
      | inl b ↦ rw (complete, b) (close-queued_work s c.conn_id)
      | inr b ↦
          rw (complete, b)
            (delivered-queued_work s c.conn_id c
              (record c { in_flight = false; answers = c.answers ++ (bytes ∷ []) }) bytes outcome _
              e refl refl refl)
    ]

found-queued_work :
    (s : Server) (comp : Completion) (outcome : SendOutcome) (o : Option ConnectionState)
    → find_conn comp.conn_id s.connections ≡ o
    → queued_work (process_completion s comp outcome) ≤ queued_work s
unfolding process_completion
found-queued_work s comp outcome none e = rw (process_completion, e) (omega arith)
found-queued_work s comp outcome (some c) e =
    rw (process_completion, e)
      (complete-queued_work s c comp.response_bytes outcome (
        subst (λ j. find_conn j s.connections ≡ some c)
          (sym (find_conn-id comp.conn_id s.connections c e)) e))

process_completion-queued_work :
    (s : Server) (comp : Completion) (outcome : SendOutcome)
    → queued_work (process_completion s comp outcome) ≤ queued_work s
process_completion-queued_work s comp outcome = found-queued_work s comp outcome _ refl

process_all-queued_work :
    (s : Server) (comps : List Completion) (i : ℕ) (outcomes : ℕ → SendOutcome)
    → queued_work (process_all s comps i outcomes) ≤ queued_work s
unfolding process_all
process_all-queued_work s [] i outcomes = omega arith
process_all-queued_work s (comp ∷ comps) i outcomes =
    let h =
      process_all-queued_work (process_completion s comp (outcomes i)) comps (i + 1) outcomes in
    let p = process_completion-queued_work s comp (outcomes i) in omega arith

pub process_completions-queued_work :
    (s : Server) (outcomes : ℕ → SendOutcome)
    → queued_work (process_completions s outcomes) ≤ queued_work s
unfolding process_completions
process_completions-queued_work s outcomes =
    process_all-queued_work (record s { completions = [] }) s.completions 0 outcomes
