-- ===== src/Server/Tcp/Requests.antt =====
-- Requests that come, go to the workers and are answered, in src/TcpServer.cpp.
use stream_forge.Base.{
  ℕ, ◌≡◌, refl, sym, ap, ◌∙◌, List, [], ◌∷◌, ◌++◌, Bool, true, false, Option, none, some,
  append_assoc, append-nil,
}
use stream_forge.Wire.ByteOrder.{ByteOrder}
use stream_forge.Wire.FrameCodec.{Frame}
use stream_forge.Server.Tcp.{ConnectionState}
use stream_forge.Server.Tcp.Order.{
  Answered, Phase, idle, queued, handled, completed, is_some, and_then, InOrder, Answered-append,
  completed-inv,
}

-- A connection whose last request is answered, before the next one is taken up.
pub record Free ⦃net : ByteOrder⦄ (ts ws : List Frame) (cs : List (List ℕ)) (c : ConnectionState)
    : Type 0 where
  pub finished : List Frame
  pub phase : Phase ts ws cs none
  pub flag : c.in_flight ≡ false
  pub arrived : c.arrived ≡ finished ++ c.pending_requests
  pub answered : Answered finished c.answers

module _ ⦃net : ByteOrder⦄ where
  idle-inv :
      (ts ws : List Frame) (cs : List (List ℕ)) (o : Option Frame)
      → o ≡ none
      → Phase ts ws cs o
      → (ts ≡ []) × (ws ≡ []) × (cs ≡ [])
  idle-inv ts ws cs o e idle = (refl, refl, refl)
  idle-inv ts ws cs o e (queued q) = absurd cc
  idle-inv ts ws cs o e (handled q) = absurd cc
  idle-inv ts ws cs o e (completed q b h) = absurd cc

  -- The response is taken from the completion queue.
  pub complete-Free :
      (ts ws : List Frame) (cs : List (List ℕ)) (b : List ℕ) (c : ConnectionState)
      → InOrder ts ws (b ∷ cs) c
      → Free ts ws cs (record c { in_flight = false; answers = c.answers ++ (b ∷ []) })
  complete-Free ts ws cs b c h =
      let (r, p, q, s, o, a) = completed-inv b ts ws _ cs h.current refl h.phase in
      let e : and_then h.current c.pending_requests ≡ r ∷ c.pending_requests = rw o refl in
      record {
        finished = h.finished ++ (r ∷ []);
        phase = rw (p, q, s) idle;
        flag = refl;
        arrived =
            h.arrived
            ∙ ap (λ x. h.finished ++ x) e
            ∙ sym (append_assoc h.finished (r ∷ []) c.pending_requests);
        answered = Answered-append h.finished c.answers r b h.answered a;
      }

  pub quiet-Free :
      {ts ws : List Frame} {cs : List (List ℕ)} {c c' : ConnectionState}
      → Free ts ws cs c
      → c'.in_flight ≡ c.in_flight
      → c'.pending_requests ≡ c.pending_requests
      → c'.arrived ≡ c.arrived
      → c'.answers ≡ c.answers
      → Free ts ws cs c'
  quiet-Free h f p a b = record {
    finished = h.finished;
    phase = h.phase;
    flag = f ∙ h.flag;
    arrived = rw (p, a) h.arrived;
    answered = rw b h.answered;
  }

  -- No request waits.
  pub rest-InOrder :
      (ts ws : List Frame) (cs : List (List ℕ)) (c : ConnectionState)
      → c.pending_requests ≡ []
      → Free ts ws cs c
      → InOrder ts ws cs c
  rest-InOrder ts ws cs c e h = record {
    finished = h.finished;
    current = none;
    phase = h.phase;
    flag = h.flag;
    arrived = h.arrived;
    answered = h.answered;
    waiting = λ n. e;
  }

  -- The first request that waits is put into the task queue.
  pub next-InOrder :
      (ts ws : List Frame) (cs : List (List ℕ)) (c : ConnectionState) (r : Frame)
      (pending : List Frame)
      → c.pending_requests ≡ r ∷ pending
      → Free ts ws cs c
      → InOrder (ts ++ (r ∷ [])) ws cs (record c { pending_requests = pending; in_flight = true })
  next-InOrder ts ws cs c r pending e h =
      let (p, q, s) = idle-inv ts ws cs none refl h.phase in
      record {
        finished = h.finished;
        current = some r;
        phase = rw (p, q, s) (queued r);
        flag = refl;
        arrived = h.arrived ∙ ap (λ x. h.finished ++ x) e;
        answered = h.answered;
        waiting = λ n. absurd cc;
      }

  some_current :
      (o : Option Frame) (b : Bool) → b ≡ is_some o → b ≡ true → (r : Frame) × (o ≡ some r)
  some_current none b e h = absurd cc
  some_current (some r) b e h = (r, refl)

  none_current : (o : Option Frame) (b : Bool) → b ≡ is_some o → b ≡ false → o ≡ none
  none_current none b e h = refl
  none_current (some r) b e h = absurd cc

  -- A request comes while another one is in flight.
  pub wait-InOrder :
      (ts ws : List Frame) (cs : List (List ℕ)) (c : ConnectionState) (f : Frame)
      → c.in_flight ≡ true
      → InOrder ts ws cs c
      → InOrder ts ws cs (record c {
        pending_requests = c.pending_requests ++ (f ∷ []);
        arrived = c.arrived ++ (f ∷ []);
      })
  wait-InOrder ts ws cs c f e h =
      let (r, o) = some_current h.current c.in_flight h.flag e in
      let d : and_then h.current c.pending_requests ≡ r ∷ c.pending_requests = rw o refl in
      let k : and_then h.current (c.pending_requests ++ (f ∷ []))
          ≡ r ∷ (c.pending_requests ++ (f ∷ [])) =
        rw o refl in
      record {
        finished = h.finished;
        current = h.current;
        phase = h.phase;
        flag = h.flag;
        arrived =
            ap (λ x. x ++ (f ∷ [])) (h.arrived ∙ ap (λ x. h.finished ++ x) d)
            ∙ append_assoc h.finished (r ∷ c.pending_requests) (f ∷ [])
            ∙ ap (λ x. h.finished ++ x) (sym k);
        answered = h.answered;
        waiting = λ n. absurd (let z : some r ≡ none = sym o ∙ n in cc);
      }

  -- A request comes while none is in flight, and goes to the workers.
  pub go-InOrder :
      (ts ws : List Frame) (cs : List (List ℕ)) (c : ConnectionState) (f : Frame)
      → c.in_flight ≡ false
      → InOrder ts ws cs c
      → InOrder
          (ts ++ (f ∷ []))
          ws
          cs
          (record c { in_flight = true; arrived = c.arrived ++ (f ∷ []) })
  go-InOrder ts ws cs c f e h =
      let o = none_current h.current c.in_flight h.flag e in
      let (p, q, s) = idle-inv ts ws cs h.current o h.phase in
      let w = h.waiting o in
      let d : and_then h.current c.pending_requests ≡ [] = rw (o, w) refl in
      record {
        finished = h.finished;
        current = some f;
        phase = rw (p, q, s) (queued f);
        flag = refl;
        arrived =
            ap (λ x. x ++ (f ∷ []))
              (h.arrived ∙ ap (λ x. h.finished ++ x) d ∙ append-nil h.finished)
            ∙ ap (λ x. h.finished ++ (f ∷ x)) (sym w);
        answered = h.answered;
        waiting = λ n. absurd cc;
      }
