-- ===== src/Server/Tcp/Keeping.antt =====
-- The order and the bytes of one connection of src/TcpServer.cpp under the operations of the server.
use stream_forge.Base.{
  ℕ, ◌+◌, ◌≤◌, ◌≡◌, ◌≢◌, refl, sym, ◌∙◌, subst, inl, inr, List, [], ◌∷◌, Bool, false, Option, none,
  some, ltb, ◌==◌, arith, Bool-cases, length,
}
use stream_forge.Base.Strings.{some_injective}
use stream_forge.Wire.ByteOrder.{ByteOrder}
use stream_forge.Wire.FrameCodec.{Frame}
use stream_forge.Server.Tcp.{
  Task, Completion, ConnectionState, Server, SendOutcome, find_conn, close_connection, unsent,
  deliver, dispatch_next, delivered, complete,
}
use stream_forge.Server.Tcp.Lines.{
  requests_of, responses_of, find_conn-remove_conn, Touches, trans-Touches, update_conn-Touches,
  close_connection-Touches, enqueue-Touches,
}
use stream_forge.Server.Tcp.Order.{InOrder}
use stream_forge.Server.Tcp.Flow.{Flows}

pub record Line ⦃net : ByteOrder⦄ (ts ws : List Frame) (cs : List (List ℕ)) (stopped : Bool)
    (c : ConnectionState) : Type 0 where
  pub order : InOrder ts ws cs c
  pub flows : Flows stopped c

-- What holds of the connection `k`, whether or not it is there; an id that is still to come stands
-- nowhere. The completions are those that are still to be processed.
pub record Holds ⦃net : ByteOrder⦄ (k : ℕ) (s : Server) (working : List Task)
    (comps : List Completion) : Type 0 where
  pub fresh :
      s.next_conn_id ≤ k
      → (find_conn k s.connections ≡ none)
        × (requests_of k s.tasks ≡ [])
        × (requests_of k working ≡ [])
        × (responses_of k comps ≡ [])
  pub live :
      (c : ConnectionState)
      → find_conn k s.connections ≡ some c
      → Line
          (requests_of k s.tasks)
          (requests_of k working)
          (responses_of k comps)
          s.shutdown_requested
          c

deliver-id :
    (c c' : ConnectionState) (bytes : List ℕ) (outcome : SendOutcome)
    → deliver c bytes outcome ≡ some c'
    → c'.conn_id ≡ c.conn_id
unfolding deliver
deliver-id c c' bytes outcome h = ground arith

dispatch_next-Touches :
    (s : Server) (c : ConnectionState) (rs : List Frame)
    → Touches c.conn_id s (dispatch_next s c rs)
unfolding dispatch_next
dispatch_next-Touches s c [] = update_conn-Touches s c
dispatch_next-Touches s c (r ∷ rs) = trans-Touches (update_conn-Touches s _) (enqueue-Touches _ _)

delivered-Touches :
    (s : Server) (i : ℕ) (o : Option ConnectionState)
    → ((c : ConnectionState) → o ≡ some c → c.conn_id ≡ i)
    → Touches i s (delivered s i o)
unfolding delivered
delivered-Touches s i none h = close_connection-Touches s i
delivered-Touches s i (some c) h =
    subst (λ j. Touches j s (dispatch_next s c c.pending_requests)) (h c refl)
      (dispatch_next-Touches s c c.pending_requests)

pub complete-Touches :
    (s : Server) (c : ConnectionState) (bytes : List ℕ) (outcome : SendOutcome)
    → Touches c.conn_id s (complete s c bytes outcome)
unfolding complete
complete-Touches s c bytes outcome =
    elim (Bool-cases (ltb s.config.max_output_buffer_bytes (unsent c + length bytes))) [
      | inl e ↦ rw (complete, e) (close_connection-Touches s c.conn_id)
      | inr e ↦
          rw (complete, e)
            (delivered-Touches s c.conn_id _ (λ c' h. deliver-id _ c' bytes outcome h))
    ]

module _ ⦃net : ByteOrder⦄ where
  Flows-mono : {a b : Bool} {c : ConnectionState} → (b ≡ false → a ≡ false) → Flows a c → Flows b c
  Flows-mono h f = record { offset = f.offset; stream = λ p q. f.stream (h p) q }

  pub Touches-Holds :
      {i : ℕ} (k : ℕ) {s s' : Server} (working : List Task) (comps : List Completion)
      → i ≢ k
      → Touches i s s'
      → Holds k s working comps
      → Holds k s' working comps
  Touches-Holds k {s} {s'} working comps n t h = record {
    fresh = λ p.
        let (a, b, c, d) = h.fresh (rw t.next at p) in (t.conns k n ∙ a, t.tasks k n ∙ b, c, d);
    live = λ c e.
        let l = h.live c (sym (t.conns k n) ∙ e) in
        record {
          order =
              subst (λ ts. InOrder ts (requests_of k working) (responses_of k comps) c)
                (sym (t.tasks k n)) l.order;
          flows = Flows-mono t.running l.flows;
        };
  }

  -- A connection that is there has an id that was given out.
  pub there-lt :
      (k : ℕ) (s : Server) (working : List Task) (comps : List Completion) (c : ConnectionState)
      → Holds k s working comps
      → find_conn k s.connections ≡ some c
      → s.next_conn_id ≤ k
      → ⊥
  there-lt k s working comps c h e p = let z : none ≡ some c = sym (h.fresh p).0 ∙ e in cc

  -- The connection has gone.
  pub gone-Holds :
      (k : ℕ) (s : Server) (working : List Task) (comps : List Completion)
      → (s.next_conn_id ≤ k → ⊥)
      → find_conn k s.connections ≡ none
      → Holds k s working comps
  gone-Holds k s working comps n e = record {
    fresh = λ p. absurd (n p);
    live = λ c d. absurd (let z : none ≡ some c = sym e ∙ d in cc);
  }

  -- The connection is there.
  pub there-Holds :
      (k : ℕ) (s : Server) (working : List Task) (comps : List Completion) (c : ConnectionState)
      → (s.next_conn_id ≤ k → ⊥)
      → find_conn k s.connections ≡ some c
      → Line
          (requests_of k s.tasks)
          (requests_of k working)
          (responses_of k comps)
          s.shutdown_requested
          c
      → Holds k s working comps
  there-Holds k s working comps c n e l = record {
    fresh = λ p. absurd (n p);
    live = λ d f.
        subst
          (λ x.
            Line (requests_of k s.tasks) (requests_of k working) (responses_of k comps)
              s.shutdown_requested x)
          (some_injective (sym e ∙ f)) l;
  }

  close_own-Holds :
      (k : ℕ) (s : Server) (working : List Task) (comps : List Completion)
      → Holds k s working comps
      → Holds k (close_connection s k) working comps
  unfolding close_connection
  close_own-Holds k s working comps h = record {
    fresh = λ p. let (a, b, c, d) = h.fresh p in (find_conn-remove_conn k s.connections, b, c, d);
    live = λ c e.
        absurd (let z : none ≡ some c = sym (find_conn-remove_conn k s.connections) ∙ e in cc);
  }

  pub close_connection-Holds :
      (k i : ℕ) (s : Server) (working : List Task) (comps : List Completion)
      → Holds k s working comps
      → Holds k (close_connection s i) working comps
  close_connection-Holds k i s working comps h = elim (Bool-cases (i == k)) [
    | inr n ↦
        Touches-Holds k working comps (let z : i ≢ k = ground arith in z)
          (close_connection-Touches s i) h
    | inl e ↦
        subst (λ j. Holds k (close_connection s j) working comps)
          (let z : k ≡ i = ground arith in z) (close_own-Holds k s working comps h)
  ]
