-- ===== src/Server/Tcp/Running.antt =====
-- The steps of Server/Tcp/Steps and what they do to one connection of src/TcpServer.cpp.
use stream_forge.Base.{
  ℕ, ◌+◌, ◌%◌, ◌<◌, ◌^◌, ◌≡◌, refl, sym, subst, inl, inr, List, [], ◌∷◌, ◌++◌, Bool, none, some,
  leb, ◌==◌, arith, Bool-cases, length,
}
use stream_forge.Base.Strings.{some_injective}
use stream_forge.Wire.ByteOrder.{ByteOrder}
use stream_forge.Wire.FrameCodec.{Frame, encode}
use stream_forge.Server.Handler.{Broker, Handled}
use stream_forge.Server.Handler.Answers.{FaultOf, Replies, answer_type}
use stream_forge.Server.Handler.Answering.{handle_request-Replies}
use stream_forge.Server.Handler.Dispatch.{handle_request}
use stream_forge.Server.Tcp.{
  Task, Completion, ServerConfig, Server, find_conn, new_conn, accept_connection, request_stop,
  close_connection, close_all, stalled_ids, check_read_stalls, process_completions,
}
use stream_forge.Server.Tcp.Input.{InputOutcome, kept, to_close, dangling}
use stream_forge.Server.Tcp.Workers.{System, pop, take_task, push_completion, finish_task}
use stream_forge.Server.Tcp.Order.{idle}
use stream_forge.Server.Tcp.Keeping.{Line, Holds, close_connection-Holds}
use stream_forge.Server.Tcp.Completing.{process_completions-Holds, process_completions-completions}
use stream_forge.Server.Tcp.Turn.{Keeps, handle_input-Keeps, handle_output-Keeps}
use stream_forge.Server.Tcp.Steps.{
  continues, with_server, Step, accepts, completes, outputs, inputs, closes, stalls, stops, takes,
  finishes, new_server, Reachable, starts, goes_on,
}
use stream_forge.Server.Tcp.Working.{take-Holds, finish-Holds}

module _ ⦃net : ByteOrder⦄ (k : ℕ) where
  abbrev pub HoldsIn : System → Type 0
  HoldsIn y = Holds k y.server y.working y.server.completions

  new_conn-Line : (stopped : Bool) (now : ℕ) → Line [] [] [] stopped (new_conn k now)
  new_conn-Line stopped now = record {
    order = record {
      finished = [];
      current = none;
      phase = idle;
      flag = refl;
      arrived = refl;
      answered = tt;
      waiting = λ n. refl;
    };
    flows = record { offset = omega arith; stream = λ p q. refl };
  }

  -- The server with one connection more.
  abbrev added : Server → ℕ → Server
  added s now = record s {
    next_conn_id = (s.next_conn_id + 1) % 2 ^ 64;
    connections = new_conn s.next_conn_id now ∷ s.connections;
  }

  added-Holds :
      (s : Server) (working : List Task) (comps : List Completion) (now : ℕ)
      → s.next_conn_id + 1 < 2 ^ 64
      → Holds k s working comps
      → Holds k (added s now) working comps
  unfolding find_conn
  added-Holds s working comps now lt h = elim (Bool-cases (s.next_conn_id == k)) [
    | inl e ↦
        let i : s.next_conn_id ≡ k = ground arith in
        let (a, b, c, d) = h.fresh (omega arith) in
        record {
          fresh = λ p. absurd (omega arith);
          live = λ x f.
              let j : new_conn s.next_conn_id now ≡ x = some_injective (rw e at f) in
              subst (Line _ _ _ s.shutdown_requested) j (
                rw (b, c, d)
                  (subst (λ m. Line [] [] [] s.shutdown_requested (new_conn m now)) (sym i)
                    (new_conn-Line s.shutdown_requested now)));
        }
    | inr e ↦ record {
      fresh = λ p. let (a, b, c, d) = h.fresh (omega arith) in (rw e a, b, c, d);
      live = λ x f. h.live x (rw e at f);
    }
  ]

  accept-HoldsIn :
      (y : System) (now : ℕ)
      → y.server.next_conn_id + 1 < 2 ^ 64
      → HoldsIn y
      → HoldsIn (with_server y (accept_connection y.server now))
  unfolding accept_connection
  accept-HoldsIn y now lt h =
      elim (Bool-cases (leb y.server.config.max_connections (length y.server.connections))) [
        | inl e ↦ rw (accept_connection, e) h
        | inr e ↦
            rw (accept_connection, e) (added-Holds y.server y.working y.server.completions now lt h)
      ]

  close_all-Holds :
      (s : Server) (ids : List ℕ) (working : List Task) (comps : List Completion)
      → Holds k s working comps
      → Holds k (close_all s ids) working comps
  unfolding close_all
  close_all-Holds s [] working comps h = h
  close_all-Holds s (i ∷ ids) working comps h =
      close_all-Holds (close_connection s i) ids working comps
        (close_connection-Holds k i s working comps h)

  take_task-HoldsIn :
      (y : System) (tasks : List Task)
      → y.server.tasks ≡ tasks
      → HoldsIn y
      → HoldsIn (take_task y (pop tasks))
  unfolding take_task pop
  take_task-HoldsIn y [] e h = h
  take_task-HoldsIn y (t ∷ tasks) e h =
      take-Holds k y.server t tasks y.working y.server.completions
        (record { fresh = rw e at h.fresh; live = rw e at h.live })

  push_completion-HoldsIn :
      (cause : Type 0) (y : System) (t : Task) (before behind : List Task) (f : Frame)
      (res : Handled)
      → y.working ≡ before ++ (t ∷ behind)
      → Replies cause t.request (answer_type t.request.type) res.1
      → res.1 ≡ some f
      → HoldsIn y
      → HoldsIn (push_completion y t (before ++ behind) res)
  unfolding push_completion
  push_completion-HoldsIn cause y t before behind f (b, none) w a e h = absurd cc
  push_completion-HoldsIn cause y t before behind f (b, some g) w a e h =
      let z =
        finish-Holds k y.server t before behind y.server.completions (encode g) (g, refl, a)
          (subst (λ v. Holds k y.server v y.server.completions) w h) in
      record { fresh = z.fresh; live = z.live }

  moved-HoldsIn :
      (y : System) (s : Server)
      → Holds k s y.working y.server.completions
      → s.completions ≡ y.server.completions
      → HoldsIn (with_server y s)
  moved-HoldsIn y s h e = subst (Holds k s y.working) (sym e) h

  continues-HoldsIn :
      (y : System) (o : InputOutcome) (s : Server)
      → continues o ≡ some s
      → Keeps k y.working y.server.completions y.server o
      → HoldsIn (with_server y s)
  continues-HoldsIn y (kept s') s e h =
      subst (λ x. HoldsIn (with_server y x)) (some_injective e) (moved-HoldsIn y s' h.0 h.1)
  continues-HoldsIn y (to_close s') s e h =
      subst (λ x. HoldsIn (with_server y x)) (some_injective e) (moved-HoldsIn y s' h.0 h.1)
  continues-HoldsIn y (dangling s') s e h = absurd cc

  close_all-completions :
      (s : Server) (ids : List ℕ) → (close_all s ids).completions ≡ s.completions
  unfolding close_all close_connection
  close_all-completions s [] = refl
  close_all-completions s (i ∷ ids) = close_all-completions (close_connection s i) ids

  close_all-HoldsIn :
      (y : System) (ids : List ℕ) → HoldsIn y → HoldsIn (with_server y (close_all y.server ids))
  close_all-HoldsIn y ids h =
      moved-HoldsIn y _ (close_all-Holds y.server ids y.working y.server.completions h)
        (close_all-completions y.server ids)

  Step-HoldsIn : {y y' : System} → Step y y' → HoldsIn y → HoldsIn y'
  unfolding check_read_stalls request_stop close_all finish_task
  Step-HoldsIn {y} (accepts now lt) h = accept-HoldsIn y now lt h
  Step-HoldsIn {y} (completes outcomes) h =
      subst (Holds k (process_completions y.server outcomes) y.working)
        (sym (process_completions-completions y.server outcomes))
        (process_completions-Holds k y.server y.working outcomes h)
  Step-HoldsIn {y} (outputs i c outcome e) h =
      let (g, d) = handle_output-Keeps k y.working y.server.completions i y.server c outcome e h in
      moved-HoldsIn y _ g d
  Step-HoldsIn {y} (inputs i c chunks end out send text s e g) h = continues-HoldsIn y _ s g (
      handle_input-Keeps k y.working y.server.completions i y.server c chunks end out send text e h)
  Step-HoldsIn {y} (closes i) h = close_all-HoldsIn y (i ∷ []) h
  Step-HoldsIn {y} (stalls now) h = close_all-HoldsIn y (stalled_ids _ now y.server.connections) h
  Step-HoldsIn {y} stops h = record {
    fresh = h.fresh;
    live = λ c e.
        let l = h.live c e in
        record {
          order = l.order;
          flows = record { offset = l.flows.offset; stream = λ p q. absurd cc };
        };
  }
  Step-HoldsIn {y} takes h = take_task-HoldsIn y y.server.tasks refl h
  Step-HoldsIn {y} (finishes t before behind env f w e) h =
      push_completion-HoldsIn (FaultOf y.broker env t.request) y t before behind f
        (handle_request y.broker env t.request) w (handle_request-Replies y.broker env t.request) e
        h

  starts-HoldsIn :
      (config : ServerConfig) (b : Broker)
      → HoldsIn (record { server = new_server config; broker = b; working = [] })
  unfolding find_conn
  starts-HoldsIn config b = record {
    fresh = λ p. (refl, refl, refl, refl);
    live = λ c e. absurd cc;
  }

  pub Reachable-HoldsIn :
      {config : ServerConfig} {b : Broker} {y : System} → Reachable config b y → HoldsIn y
  Reachable-HoldsIn {config} {b} starts = starts-HoldsIn config b
  Reachable-HoldsIn (goes_on r s) = Step-HoldsIn s (Reachable-HoldsIn r)
