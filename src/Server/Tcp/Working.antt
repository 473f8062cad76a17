-- ===== src/Server/Tcp/Working.antt =====
-- What the workers of src/ThreadPool.cpp do to one connection.
use stream_forge.Base.{
  ℕ, ◌≡◌, refl, sym, ◌∙◌, subst, inl, inr, List, [], ◌∷◌, ◌++◌, true, false, append-nil, ◌==◌,
  Bool-cases,
}
use stream_forge.Wire.ByteOrder.{ByteOrder}
use stream_forge.Server.Tcp.{Task, Completion, Server}
use stream_forge.Server.Tcp.Lines.{
  requests_of, responses_of, requests_of-append, responses_of-append,
}
use stream_forge.Server.Tcp.Order.{IsAnswer, InOrder, nil≢middle, take-InOrder, finish-InOrder}
use stream_forge.Server.Tcp.Keeping.{Holds}

module _ ⦃net : ByteOrder⦄ (k : ℕ) where
  -- One task more or fewer of a connection.
  pub take-Holds :
      (s : Server) (t : Task) (tasks working : List Task) (comps : List Completion)
      → Holds k (record s { tasks = t ∷ tasks }) working comps
      → Holds k (record s { tasks = tasks }) (t ∷ working) comps
  take-Holds s t tasks working comps h = elim (Bool-cases (t.conn_id == k)) [
    | inr e ↦ record { fresh = rw e (rw e at h.fresh); live = rw e (rw e at h.live) }
    | inl e ↦ record {
      fresh = λ p. absurd (
          let (a, b, c, d) = h.fresh p in
          let z : t.request ∷ requests_of k tasks ≡ [] = rw e at b in cc);
      live = λ c f.
          let l = h.live c f in
          record {
            order = rw e (take-InOrder t.request (requests_of k tasks) _ _ c (rw e at l.order));
            flows = l.flows;
          };
    }
  ]

  same-Holds :
      {s : Server} {w w' : List Task} {cs cs' : List Completion}
      → requests_of k w ≡ requests_of k w'
      → responses_of k cs ≡ responses_of k cs'
      → Holds k s w cs
      → Holds k s w' cs'
  same-Holds {s} {w} {w'} {cs} {cs'} e d h = record {
    fresh = λ p. let (a, b, x, y) = h.fresh p in (a, b, sym e ∙ x, sym d ∙ y);
    live = λ c f.
        let l = h.live c f in
        record {
          order =
              subst (λ v. InOrder (requests_of k s.tasks) (requests_of k w') v c) d
                (subst (λ v. InOrder (requests_of k s.tasks) v (responses_of k cs) c) e l.order);
          flows = l.flows;
        };
  }

  abbrev response : Task → List ℕ → Completion
  response t bytes = record { conn_id = t.conn_id; response_bytes = bytes }

  other-Holds :
      (s : Server) (t : Task) (before behind : List Task) (comps : List Completion) (bytes : List ℕ)
      → (t.conn_id == k) ≡ false
      → Holds k s (before ++ (t ∷ behind)) comps
      → Holds k s (before ++ behind) (comps ++ (response t bytes ∷ []))
  other-Holds s t before behind comps bytes e =
      same-Holds
        (requests_of-append k before (t ∷ behind) ∙ rw e (sym (requests_of-append k before behind)))
        (sym (
          responses_of-append k comps (response t bytes ∷ [])
          ∙ rw e (append-nil (responses_of k comps))))

  own-Holds :
      (s : Server) (t : Task) (before behind : List Task) (comps : List Completion) (bytes : List ℕ)
      → (t.conn_id == k) ≡ true
      → IsAnswer t.request bytes
      → Holds k s (before ++ (t ∷ behind)) comps
      → Holds k s (before ++ behind) (comps ++ (response t bytes ∷ []))
  own-Holds s t before behind comps bytes e a h =
      let b = requests_of k before in
      let r = requests_of k behind in
      let w : requests_of k (before ++ (t ∷ behind)) ≡ b ++ (t.request ∷ r) =
        requests_of-append k before (t ∷ behind) ∙ rw e refl in
      let w' : b ++ r ≡ requests_of k (before ++ behind) =
        sym (requests_of-append k before behind) in
      let d : responses_of k comps ++ (bytes ∷ [])
          ≡ responses_of k (comps ++ (response t bytes ∷ [])) =
        sym (responses_of-append k comps (response t bytes ∷ []) ∙ rw e refl) in
      record {
        fresh = λ p. absurd (nil≢middle t.request b r (sym (h.fresh p).2 ∙ w));
        live = λ c f.
            let l = h.live c f in
            record {
              order =
                  subst
                    (λ v.
                      InOrder (requests_of k s.tasks) v
                        (responses_of k (comps ++ (response t bytes ∷ []))) c)
                    w'
                    (subst (λ v. InOrder (requests_of k s.tasks) (b ++ r) v c) d
                      (finish-InOrder b r _ _ t.request bytes c a (
                        subst (λ v. InOrder (requests_of k s.tasks) v (responses_of k comps) c) w
                          l.order)));
              flows = l.flows;
            };
      }

  pub finish-Holds :
      (s : Server) (t : Task) (before behind : List Task) (comps : List Completion) (bytes : List ℕ)
      → IsAnswer t.request bytes
      → Holds k s (before ++ (t ∷ behind)) comps
      → Holds k s (before ++ behind) (comps ++ (response t bytes ∷ []))
  finish-Holds s t before behind comps bytes a h = elim (Bool-cases (t.conn_id == k)) [
    | inl e ↦ own-Holds s t before behind comps bytes e a h
    | inr e ↦ other-Holds s t before behind comps bytes e h
  ]
