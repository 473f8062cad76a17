-- ===== src/Server/Tcp/Progress.antt =====
-- What the workers of src/ThreadPool.cpp and the taking of completions in src/TcpServer.cpp come to when
-- nothing else happens.
use stream_forge.Base.{
  ℕ, zero, suc, ◌<◌, ◌≡◌, refl, ap, ◌∙◌, ◌⊎◌, inl, inr, List, [], ◌∷◌, Option, none, some, arith,
  length, length-append, append-nil,
}
use stream_forge.Wire.ByteOrder.{ByteOrder}
use stream_forge.Wire.FrameCodec.{Frame, encode}
use stream_forge.Server.Handler.{Broker, Environment, Handled}
use stream_forge.Server.Handler.Dispatch.{handle_request}
use stream_forge.Server.Tcp.{
  Task, Completion, ServerConfig, ConnectionState, SendOutcome, find_conn, process_completions,
}
use stream_forge.Server.Tcp.Workers.{System, pop, take_task, push_completion, finish_task}
use stream_forge.Server.Tcp.Completing.{process_completions-completions}
use stream_forge.Server.Tcp.Steps.{
  Step, completes, takes, finishes, with_server, Reachable, goes_on,
}
use stream_forge.Server.Tcp.Lines.{requests_of, responses_of}
use stream_forge.Server.Tcp.Order.{Answered, Phase, idle, queued, handled, completed}
use stream_forge.Server.Tcp.Running.{Reachable-HoldsIn}
use stream_forge.Server.Tcp.Work.{work_left, process_completions-queued_work}

-- What the workers and the thread do of themselves: the thread takes the completions, and the workers
-- take and finish tasks.
pub data Move ⦃net : ByteOrder⦄ (env : Environment) (outcomes : ℕ → SendOutcome) (y : System)
    : System → Type 0 where
  completes_all : Move env outcomes y (with_server y (process_completions y.server outcomes))
  takes_one : Move env outcomes y (take_task y (pop y.server.tasks))
  finishes_one :
      (t : Task) (behind : List Task) (f : Frame)
      → y.working ≡ t ∷ behind
      → (handle_request y.broker env t.request).1 ≡ some f
      → Move env outcomes y (finish_task y t behind env)

pub data Moves ⦃net : ByteOrder⦄ (env : Environment) (outcomes : ℕ → SendOutcome)
    : System → System → Type 0 where
  rests : {y : System} → Moves env outcomes y y
  moves :
      {y y' y'' : System}
      → Move env outcomes y y'
      → Moves env outcomes y' y''
      → Moves env outcomes y y''

-- A worker has a request on which the program comes to a fault.
abbrev pub Faults : ⦃net : ByteOrder⦄ → Environment → System → Type 0
Faults env y =
    (t : Task) × (behind : List Task) × (y.working ≡ t ∷ behind)
    × ((handle_request y.broker env t.request).1 ≡ none)

-- All requests that have come on a connection are answered, in their order.
abbrev pub IsServed : ⦃net : ByteOrder⦄ → Option ConnectionState → Type 0
IsServed none = Unit {0}
IsServed (some c) = Answered c.arrived c.answers

-- Nothing is left to do.
pub record IsQuiet (y : System) : Type 0 where
  pub no_tasks : y.server.tasks ≡ []
  pub no_working : y.working ≡ []
  pub no_completions : y.server.completions ≡ []

module _ ⦃net : ByteOrder⦄ (env : Environment) (outcomes : ℕ → SendOutcome) where
  -- What can happen next.
  abbrev Next : System → Type 0
  Next y =
      IsQuiet y
      ⊎ (Faults env y ⊎ ((y' : System) × Move env outcomes y y' × (work_left y' < work_left y)))

  take_task-work_left :
      (y : System) (t : Task) (tasks : List Task)
      → y.server.tasks ≡ t ∷ tasks
      → work_left (take_task y (pop y.server.tasks)) < work_left y
  unfolding take_task pop
  take_task-work_left y t tasks e = rw e (omega arith)

  push_completion-work_left :
      (y : System) (t : Task) (behind : List Task) (f : Frame) (res : Handled)
      → y.working ≡ t ∷ behind
      → res.1 ≡ some f
      → work_left (push_completion y t behind res) < work_left y
  unfolding push_completion
  push_completion-work_left y t behind f (b, none) w e = absurd cc
  push_completion-work_left y t behind f (b, some g) w e =
      let comp : Completion = record { conn_id = t.conn_id; response_bytes = encode g } in
      rw w (omega (arith, length-append y.server.completions (comp ∷ [])))

  process_completions-work_left :
      (y : System) (comp : Completion) (comps : List Completion)
      → y.server.completions ≡ comp ∷ comps
      → work_left (with_server y (process_completions y.server outcomes)) < work_left y
  process_completions-work_left y comp comps e =
      let h = process_completions-queued_work y.server outcomes in
      let a : length (process_completions y.server outcomes).completions ≡ 0 =
        ap length (process_completions-completions y.server outcomes) in
      let b : length y.server.completions ≡ suc (length comps) = ap length e in omega arith

  finish_first :
      (y : System) (t : Task) (behind : List Task) (o : Option Frame)
      → y.working ≡ t ∷ behind
      → (handle_request y.broker env t.request).1 ≡ o
      → Next y
  unfolding finish_task
  finish_first y t behind none w e = inr (inl (t, behind, w, e))
  finish_first y t behind (some f) w e = inr (
      inr (
        finish_task y t behind env,
        finishes_one t behind f w e,
        push_completion-work_left y t behind f _ w e,
      ))

  goes_further :
      (y : System) (tasks working : List Task) (comps : List Completion)
      → y.server.tasks ≡ tasks
      → y.working ≡ working
      → y.server.completions ≡ comps
      → Next y
  goes_further y (t ∷ tasks) working comps e w c =
      inr (inr (_, takes_one, take_task-work_left y t tasks e))
  goes_further y [] (t ∷ behind) comps e w c = finish_first y t behind _ w refl
  goes_further y [] [] (comp ∷ comps) e w c =
      inr (inr (_, completes_all, process_completions-work_left y comp comps c))
  goes_further y [] [] [] e w c = inl (record { no_tasks = e; no_working = w; no_completions = c })

  settles :
      (n : ℕ) (y : System)
      → work_left y < n
      → (y' : System) × Moves env outcomes y y' × (IsQuiet y' ⊎ Faults env y')
  settles zero y h = absurd (omega arith)
  settles (suc n) y h = elim (goes_further y _ _ _ refl refl refl) [
    | inl q ↦ (y, rests, inl q)
    | inr (inl f) ↦ (y, rests, inr f)
    | inr (inr (y', m, lt)) ↦ let (y'', ms, r) = settles n y' (omega arith) in (y'', moves m ms, r)
  ]

  Move-Step : (y y' : System) → Move env outcomes y y' → Step y y'
  Move-Step y y' completes_all = completes outcomes
  Move-Step y y' takes_one = takes
  Move-Step y y' (finishes_one t behind f w e) = finishes t [] behind env f w e

  Moves-Reachable :
      (config : ServerConfig) (b : Broker) (y y' : System)
      → Reachable config b y
      → Moves env outcomes y y'
      → Reachable config b y'
  Moves-Reachable config b y y' r rests = r
  Moves-Reachable config b y y' r (moves m ms) =
      Moves-Reachable config b _ y' (goes_on r (Move-Step y _ m)) ms

  Phase-none :
      {ts ws : List Frame} {cs : List (List ℕ)} {o : Option Frame}
      → ts ≡ []
      → ws ≡ []
      → cs ≡ []
      → Phase ts ws cs o
      → o ≡ none
  Phase-none a b c idle = refl
  Phase-none a b c (queued r) = absurd cc
  Phase-none a b c (handled r) = absurd cc
  Phase-none a b c (completed r d h) = absurd cc

  quiet-IsServed :
      (config : ServerConfig) (b : Broker) (y : System) (k : ℕ) (found : Option ConnectionState)
      → Reachable config b y
      → IsQuiet y
      → find_conn k y.server.connections ≡ found
      → IsServed found
  quiet-IsServed config b y k none r q e = tt
  quiet-IsServed config b y k (some c) r q e =
      let o = ((Reachable-HoldsIn k r).live c e).order in
      let n : o.current ≡ none =
        Phase-none (ap (requests_of k) q.no_tasks) (ap (requests_of k) q.no_working)
          (ap (responses_of k) q.no_completions) o.phase in
      let a : c.arrived ≡ o.finished = o.arrived ∙ rw (n, o.waiting n) (append-nil o.finished) in
      rw a o.answered

  -- From whatever state the server has come to, the workers and the taking of completions alone lead
  -- to one in which on every open connection all requests that have come are answered, in their
  -- order, unless a worker meets a request that ends the program by a fault.
  pub Reachable-answered :
      (config : ServerConfig) (b : Broker) (y : System)
      → Reachable config b y
      → (y' : System) × Moves env outcomes y y'
        × (((k : ℕ) → IsServed (find_conn k y'.server.connections)) ⊎ Faults env y')
  Reachable-answered config b y r =
      let (y', ms, h) = settles (suc (work_left y)) y (omega arith) in
      (
        y',
        ms,
        elim h [
          | inl q ↦
              inl (λ k. quiet-IsServed config b y' k _ (Moves-Reachable config b y y' r ms) q refl)
          | inr f ↦ inr f
        ],
      )
