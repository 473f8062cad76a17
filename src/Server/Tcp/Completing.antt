-- ===== src/Server/Tcp/Completing.antt =====
-- What the taking of completions in src/TcpServer.cpp does to one connection.
use stream_forge.Base.{
  ℕ, ◌+◌, ◌≤◌, ◌≡◌, ◌≢◌, refl, sym, ◌∙◌, subst, inl, inr, List, [], ◌∷◌, ◌++◌, true, false, Option,
  none, some, ltb, ◌==◌, arith, Bool-cases, Option-cases, length,
}
use stream_forge.Wire.ByteOrder.{ByteOrder}
use stream_forge.Wire.FrameCodec.{Frame}
use stream_forge.Server.Tcp.{
  Task, Completion, ConnectionState, Server, SendOutcome, find_conn, update_conn, close_connection,
  enqueue, unsent, deliver, dispatch_next, delivered, complete, process_completion, process_all,
  process_completions,
}
use stream_forge.Server.Tcp.Lines.{
  requests_of, responses_of, find_conn-id, find_conn-set_conn, find_conn-remove_conn, enqueue_here,
}
use stream_forge.Server.Tcp.Order.{InOrder}
use stream_forge.Server.Tcp.Requests.{Free, complete-Free, quiet-Free, rest-InOrder, next-InOrder}
use stream_forge.Server.Tcp.Flow.{Flows, SendsOr, deliver-SendsOr}
use stream_forge.Server.Tcp.Keeping.{
  Holds, complete-Touches, Touches-Holds, there-lt, gone-Holds, there-Holds,
}

module _ ⦃net : ByteOrder⦄ where
  dispatch_next-Holds :
      (k : ℕ) (s : Server) (working : List Task) (comps : List Completion) (c d : ConnectionState)
      (rs : List Frame)
      → (s.next_conn_id ≤ k → ⊥)
      → find_conn k s.connections ≡ some d
      → c.conn_id ≡ k
      → c.pending_requests ≡ rs
      → Free (requests_of k s.tasks) (requests_of k working) (responses_of k comps) c
      → Flows s.shutdown_requested c
      → Holds k (dispatch_next s c rs) working comps
  unfolding dispatch_next update_conn enqueue
  dispatch_next-Holds k s working comps c d [] n e i p f w =
      there-Holds k _ working comps c n (find_conn-set_conn k s.connections c d i e)
        (record { order = rest-InOrder _ _ _ c p f; flows = w })
  dispatch_next-Holds k s working comps c d (r ∷ rs) n e i p f w =
      let c' : ConnectionState = record c { pending_requests = rs; in_flight = true } in
      let t : Task = record { conn_id = c.conn_id; request = r } in
      there-Holds k (enqueue (update_conn s c') t) working comps c' n
        (find_conn-set_conn k s.connections c' d i e)
        (record {
          order =
              subst (λ ts. InOrder ts (requests_of k working) (responses_of k comps) c')
                (sym (enqueue_here (update_conn s c') t k i)) (next-InOrder _ _ _ c r rs p f);
          flows = record { offset = w.offset; stream = w.stream };
        })

  delivered-Holds :
      (k : ℕ) (s : Server) (working : List Task) (comps : List Completion) (c d : ConnectionState)
      (o : Option ConnectionState)
      → (s.next_conn_id ≤ k → ⊥)
      → find_conn k s.connections ≡ some d
      → c.conn_id ≡ k
      → Free (requests_of k s.tasks) (requests_of k working) (responses_of k comps) c
      → SendsOr s.shutdown_requested c o
      → Holds k (delivered s k o) working comps
  unfolding delivered close_connection
  delivered-Holds k s working comps c d none n e i f w =
      gone-Holds k (close_connection s k) working comps n (find_conn-remove_conn k s.connections)
  delivered-Holds k s working comps c d (some c') n e i f w =
      dispatch_next-Holds k s working comps c' d c'.pending_requests n e (w.id ∙ i) refl
        (quiet-Free f w.flag w.pending w.arrived w.answers) w.flows

  complete-Holds :
      (k : ℕ) (s : Server) (working : List Task) (comp : Completion) (comps : List Completion)
      (c : ConnectionState) (outcome : SendOutcome)
      → comp.conn_id ≡ k
      → find_conn k s.connections ≡ some c
      → Holds k s working (comp ∷ comps)
      → Holds k (complete s c comp.response_bytes outcome) working comps
  unfolding complete close_connection
  complete-Holds k s working comp comps c outcome i e h =
      let j : (comp.conn_id == k) ≡ true = ground arith in
      let n = there-lt k s working (comp ∷ comps) c h e in
      let l = h.live c e in
      let m = find_conn-id k s.connections c e in
      let f : Free (requests_of k s.tasks) (requests_of k working) (responses_of k comps) _ =
        complete-Free _ _ _ comp.response_bytes c (rw j at l.order) in
      elim (Bool-cases
        (ltb s.config.max_output_buffer_bytes (unsent c + length comp.response_bytes))) [
          | inl d ↦
              rw (complete, d)
                (gone-Holds k (close_connection s c.conn_id) working comps n (
                  subst (λ x. find_conn k (close_connection s x).connections ≡ none) (sym m)
                    (find_conn-remove_conn k s.connections)))
          | inr d ↦
              rw (complete, d)
                (subst
                  (λ x.
                    Holds k
                      (delivered s x (
                        deliver
                          (record c {
                            in_flight = false;
                            answers = c.answers ++ (comp.response_bytes ∷ []);
                          })
                          comp.response_bytes outcome))
                      working comps)
                  (sym m)
                  (delivered-Holds k s working comps _ c _ n e m f
                    (deliver-SendsOr s.shutdown_requested c comp.response_bytes outcome l.flows)))
        ]

  -- The completion is that of another connection.
  skip-Holds :
      (k : ℕ) (s : Server) (working : List Task) (comp : Completion) (comps : List Completion)
      → (comp.conn_id == k) ≡ false
      → Holds k s working (comp ∷ comps)
      → Holds k s working comps
  skip-Holds k s working comp comps e h = record { fresh = rw e at h.fresh; live = rw e at h.live }

  -- The connection of the completion has gone.
  dropped-Holds :
      (k : ℕ) (s : Server) (working : List Task) (comp : Completion) (comps : List Completion)
      → comp.conn_id ≡ k
      → find_conn k s.connections ≡ none
      → Holds k s working (comp ∷ comps)
      → Holds k s working comps
  dropped-Holds k s working comp comps i e h =
      gone-Holds k s working comps
        (λ p.
          let j : (comp.conn_id == k) ≡ true = ground arith in
          let (a, b, c, d) = h.fresh p in
          let z : comp.response_bytes ∷ responses_of k comps ≡ [] = rw j at d in cc)
        e

  process_completion-Holds :
      (k : ℕ) (s : Server) (working : List Task) (comp : Completion) (comps : List Completion)
      (outcome : SendOutcome)
      → Holds k s working (comp ∷ comps)
      → Holds k (process_completion s comp outcome) working comps
  unfolding process_completion
  process_completion-Holds k s working comp comps outcome h =
      elim (Option-cases (find_conn comp.conn_id s.connections)) [
        | inl e ↦
            rw (process_completion, e)
              (elim (Bool-cases (comp.conn_id == k)) [
                | inl j ↦
                    let i : comp.conn_id ≡ k = ground arith in
                    dropped-Holds k s working comp comps i
                      (subst (λ x. find_conn x s.connections ≡ none) i e) h
                | inr j ↦ skip-Holds k s working comp comps j h
              ])
        | inr (c, e) ↦
            rw (process_completion, e)
              (elim (Bool-cases (comp.conn_id == k)) [
                | inl j ↦
                    let i : comp.conn_id ≡ k = ground arith in
                    complete-Holds k s working comp comps c outcome i
                      (subst (λ x. find_conn x s.connections ≡ some c) i e) h
                | inr j ↦
                    let m = find_conn-id comp.conn_id s.connections c e in
                    let n : c.conn_id ≢ k = ground arith in
                    Touches-Holds k working comps n
                      (complete-Touches s c comp.response_bytes outcome)
                      (skip-Holds k s working comp comps j h)
              ])
      ]

  process_all-Holds :
      (k : ℕ) (s : Server) (working : List Task) (comps : List Completion) (i : ℕ)
      (outcomes : ℕ → SendOutcome)
      → Holds k s working comps
      → Holds k (process_all s comps i outcomes) working []
  unfolding process_all
  process_all-Holds k s working [] i outcomes h = h
  process_all-Holds k s working (comp ∷ comps) i outcomes h =
      process_all-Holds k (process_completion s comp (outcomes i)) working comps (i + 1) outcomes
        (process_completion-Holds k s working comp comps (outcomes i) h)

  pub process_completions-Holds :
      (k : ℕ) (s : Server) (working : List Task) (outcomes : ℕ → SendOutcome)
      → Holds k s working s.completions
      → Holds k (process_completions s outcomes) working []
  unfolding process_completions
  process_completions-Holds k s working outcomes h =
      process_all-Holds k (record s { completions = [] }) working s.completions 0 outcomes
        (record { fresh = h.fresh; live = h.live })

process_completion-completions :
    (s : Server) (comp : Completion) (outcome : SendOutcome)
    → (process_completion s comp outcome).completions ≡ s.completions
unfolding process_completion
process_completion-completions s comp outcome =
    elim (Option-cases (find_conn comp.conn_id s.connections)) [
      | inl e ↦ rw (process_completion, e) refl
      | inr (c, e) ↦
          rw (process_completion, e) (complete-Touches s c comp.response_bytes outcome).completions
    ]

process_all-completions :
    (s : Server) (comps : List Completion) (i : ℕ) (outcomes : ℕ → SendOutcome)
    → (process_all s comps i outcomes).completions ≡ s.completions
unfolding process_all
process_all-completions s [] i outcomes = refl
process_all-completions s (comp ∷ comps) i outcomes =
    process_all-completions (process_completion s comp (outcomes i)) comps (i + 1) outcomes
    ∙ process_completion-completions s comp (outcomes i)

pub process_completions-completions :
    (s : Server) (outcomes : ℕ → SendOutcome) → (process_completions s outcomes).completions ≡ []
unfolding process_completions
process_completions-completions s outcomes =
    process_all-completions (record s { completions = [] }) s.completions 0 outcomes
