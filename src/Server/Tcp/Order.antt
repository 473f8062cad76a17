-- ===== src/Server/Tcp/Order.antt =====
-- The requests of one connection on their way through src/TcpServer.cpp and src/ThreadPool.cpp: one is
-- with the workers at most, and the others wait in the order in which they came.
use stream_forge.Base.{
  ℕ, ◌≡◌, refl, ◌∙◌, subst, List, [], ◌∷◌, ◌++◌, Bool, true, false, Option, none, some,
}
use stream_forge.Wire.ByteOrder.{ByteOrder}
use stream_forge.Wire.FrameCodec.{Frame, encode}
use stream_forge.Server.Handler.Answers.{IsReply, answer_type}
use stream_forge.Server.Tcp.{ConnectionState}

-- The encoding of a frame that answers the request.
abbrev pub IsAnswer : ⦃net : ByteOrder⦄ → Frame → List ℕ → Type 0
IsAnswer r bytes = (f : Frame) × (bytes ≡ encode f) × IsReply r (answer_type r.type) f

-- As many responses as requests, each the answer of the request in its place.
abbrev pub Answered : ⦃net : ByteOrder⦄ → List Frame → List (List ℕ) → Type 0
Answered [] [] = Unit {0}
Answered [] (b ∷ bs) = ⊥
Answered (r ∷ rs) [] = ⊥
Answered (r ∷ rs) (b ∷ bs) = IsAnswer r b × Answered rs bs

-- The one request that is not answered yet is in the task queue or with a worker, or its response is
-- in the completion queue.
pub data Phase ⦃net : ByteOrder⦄
    : List Frame → List Frame → List (List ℕ) → Option Frame → Type 0 where
  idle : Phase [] [] [] none
  queued : (r : Frame) → Phase (r ∷ []) [] [] (some r)
  handled : (r : Frame) → Phase [] (r ∷ []) [] (some r)
  completed : (r : Frame) (b : List ℕ) → IsAnswer r b → Phase [] [] (b ∷ []) (some r)

abbrev pub is_some : Option Frame → Bool
is_some none = false
is_some (some r) = true

abbrev pub and_then : Option Frame → List Frame → List Frame
and_then none rs = rs
and_then (some r) rs = r ∷ rs

-- A connection, and what the task queue, the workers and the completion queue hold for it.
pub record InOrder ⦃net : ByteOrder⦄ (ts ws : List Frame) (cs : List (List ℕ)) (c : ConnectionState)
    : Type 0 where
  pub finished : List Frame
  pub current : Option Frame
  pub phase : Phase ts ws cs current
  pub flag : c.in_flight ≡ is_some current
  pub arrived : c.arrived ≡ finished ++ and_then current c.pending_requests
  pub answered : Answered finished c.answers
  pub waiting : current ≡ none → c.pending_requests ≡ []

module _ ⦃net : ByteOrder⦄ where
  pub Answered-append :
      (rs : List Frame) (bs : List (List ℕ)) (r : Frame) (b : List ℕ)
      → Answered rs bs
      → IsAnswer r b
      → Answered (rs ++ (r ∷ [])) (bs ++ (b ∷ []))
  Answered-append [] [] r b h k = (k, tt)
  Answered-append [] (c ∷ bs) r b h k = absurd h
  Answered-append (q ∷ rs) [] r b h k = absurd h
  Answered-append (q ∷ rs) (c ∷ bs) r b h k = (h.0, Answered-append rs bs r b h.1 k)

  queued-inv :
      (r : Frame) (ts' ts ws : List Frame) (cs : List (List ℕ)) (o : Option Frame)
      → ts' ≡ r ∷ ts
      → Phase ts' ws cs o
      → (ts ≡ []) × (ws ≡ []) × (cs ≡ []) × (o ≡ some r)
  queued-inv r ts' ts ws cs o e idle = absurd cc
  queued-inv r ts' ts ws cs o e (queued q) = (cc, refl, refl, cc)
  queued-inv r ts' ts ws cs o e (handled q) = absurd cc
  queued-inv r ts' ts ws cs o e (completed q b h) = absurd cc

  -- A worker takes the task.
  take-Phase :
      (r : Frame) (ts ws : List Frame) (cs : List (List ℕ)) (o : Option Frame)
      → Phase (r ∷ ts) ws cs o
      → Phase ts (r ∷ ws) cs o
  take-Phase r ts ws cs o p =
      let (a, b, c, d) = queued-inv r _ ts ws cs o refl p in rw (a, b, c, d) (handled r)

  -- The response that the completion queue has is the only one.
  pub completed-inv :
      (b : List ℕ) (ts ws : List Frame) (cs' cs : List (List ℕ)) (o : Option Frame)
      → cs' ≡ b ∷ cs
      → Phase ts ws cs' o
      → (r : Frame) × (ts ≡ []) × (ws ≡ []) × (cs ≡ []) × (o ≡ some r) × IsAnswer r b
  completed-inv b ts ws cs' cs o e idle = absurd cc
  completed-inv b ts ws cs' cs o e (queued q) = absurd cc
  completed-inv b ts ws cs' cs o e (handled q) = absurd cc
  completed-inv b ts ws cs' cs o e (completed q d h) =
      let i : d ≡ b = cc in (q, refl, refl, cc, refl, subst (IsAnswer q) i h)

  pub nil≢middle : (x : Frame) (xs ys : List Frame) → [] ≡ xs ++ (x ∷ ys) → ⊥
  nil≢middle x [] ys h = cc
  nil≢middle x (a ∷ xs) ys h = cc

  -- The task that a worker has is the only one.
  record Alone (xs ys ts : List Frame) (cs : List (List ℕ)) (x : Frame) (o : Option Frame)
      : Type 0 where
    before : xs ≡ []
    behind : ys ≡ []
    queue : ts ≡ []
    completions : cs ≡ []
    this : o ≡ some x

  working-Alone :
      (xs ys ts ws : List Frame) (cs : List (List ℕ)) (x : Frame) (o : Option Frame)
      → ws ≡ xs ++ (x ∷ ys)
      → Phase ts ws cs o
      → Alone xs ys ts cs x o
  working-Alone xs ys ts ws cs x o e idle = absurd (nil≢middle x xs ys e)
  working-Alone xs ys ts ws cs x o e (queued r) = absurd (nil≢middle x xs ys e)
  working-Alone [] ys ts ws cs x o e (handled r) = record {
    before = refl;
    behind = cc;
    queue = refl;
    completions = refl;
    this = cc;
  }
  working-Alone (a ∷ xs) ys ts ws cs x o e (handled r) =
      absurd (nil≢middle x xs ys (let f : [] ≡ xs ++ (x ∷ ys) = cc in f))
  working-Alone xs ys ts ws cs x o e (completed r b h) = absurd (nil≢middle x xs ys e)

  -- A worker gives the response of its task.
  pub finish-Phase :
      (xs ys ts : List Frame) (cs : List (List ℕ)) (x : Frame) (b : List ℕ) (o : Option Frame)
      → IsAnswer x b
      → Phase ts (xs ++ (x ∷ ys)) cs o
      → Phase ts (xs ++ ys) (cs ++ (b ∷ [])) o
  finish-Phase xs ys ts cs x b o h p =
      let a = working-Alone xs ys ts _ cs x o refl p in
      rw (a.before, a.behind, a.queue, a.completions, a.this) (completed x b h)

  pub take-InOrder :
      (r : Frame) (ts ws : List Frame) (cs : List (List ℕ)) (c : ConnectionState)
      → InOrder (r ∷ ts) ws cs c
      → InOrder ts (r ∷ ws) cs c
  take-InOrder r ts ws cs c h = record {
    finished = h.finished;
    current = h.current;
    phase = take-Phase r ts ws cs h.current h.phase;
    flag = h.flag;
    arrived = h.arrived;
    answered = h.answered;
    waiting = h.waiting;
  }

  pub finish-InOrder :
      (xs ys ts : List Frame) (cs : List (List ℕ)) (x : Frame) (b : List ℕ) (c : ConnectionState)
      → IsAnswer x b
      → InOrder ts (xs ++ (x ∷ ys)) cs c
      → InOrder ts (xs ++ ys) (cs ++ (b ∷ [])) c
  finish-InOrder xs ys ts cs x b c a h = record {
    finished = h.finished;
    current = h.current;
    phase = finish-Phase xs ys ts cs x b h.current a h.phase;
    flag = h.flag;
    arrived = h.arrived;
    answered = h.answered;
    waiting = h.waiting;
  }

  -- What the order depends on is left as it was.
  pub quiet-InOrder :
      {ts ws : List Frame} {cs : List (List ℕ)} {c c' : ConnectionState}
      → InOrder ts ws cs c
      → c'.in_flight ≡ c.in_flight
      → c'.pending_requests ≡ c.pending_requests
      → c'.arrived ≡ c.arrived
      → c'.answers ≡ c.answers
      → InOrder ts ws cs c'
  quiet-InOrder h f p a b = record {
    finished = h.finished;
    current = h.current;
    phase = h.phase;
    flag = f ∙ h.flag;
    arrived = rw (p, a) h.arrived;
    answered = rw b h.answered;
    waiting = λ n. p ∙ h.waiting n;
  }
