-- ===== src/Server/Tcp/Lines.antt =====
-- What the queues between the connections and the workers hold for one connection (src/TcpServer.cpp,
-- src/ThreadPool.cpp), and what of the server concerns only one connection.
use stream_forge.Base.{
  ℕ, ◌≡◌, ◌≢◌, refl, ap, ◌∙◌, subst, inl, inr, List, [], ◌∷◌, ◌++◌, true, false, none, some, ◌==◌,
  if◌then◌else◌, arith, Bool-cases,
}
use stream_forge.Base.Strings.{some_injective}
use stream_forge.Wire.FrameCodec.{Frame}
use stream_forge.Server.Tcp.{
  Task, Completion, ConnectionState, Server, find_conn, set_conn, remove_conn, update_conn,
  close_connection, enqueue,
}

abbrev pub requests_of : ℕ → List Task → List Frame
requests_of k [] = []
requests_of k (t ∷ tasks) =
    let rest = requests_of k tasks in if t.conn_id == k then t.request ∷ rest else rest

abbrev pub responses_of : ℕ → List Completion → List (List ℕ)
responses_of k [] = []
responses_of k (c ∷ comps) =
    let rest = responses_of k comps in if c.conn_id == k then c.response_bytes ∷ rest else rest

pub requests_of-append :
    (k : ℕ) (ts us : List Task) → requests_of k (ts ++ us) ≡ requests_of k ts ++ requests_of k us
requests_of-append k [] us = refl
requests_of-append k (t ∷ ts) us = elim (Bool-cases (t.conn_id == k)) [
  | inl e ↦ rw e (ap (◌∷◌ t.request) (requests_of-append k ts us))
  | inr e ↦ rw e (requests_of-append k ts us)
]

pub responses_of-append :
    (k : ℕ) (cs ds : List Completion)
    → responses_of k (cs ++ ds) ≡ responses_of k cs ++ responses_of k ds
responses_of-append k [] ds = refl
responses_of-append k (c ∷ cs) ds = elim (Bool-cases (c.conn_id == k)) [
  | inl e ↦ rw e (ap (◌∷◌ c.response_bytes) (responses_of-append k cs ds))
  | inr e ↦ rw e (responses_of-append k cs ds)
]

pub find_conn-id :
    (k : ℕ) (conns : List ConnectionState) (c : ConnectionState)
    → find_conn k conns ≡ some c
    → c.conn_id ≡ k
unfolding find_conn
find_conn-id k [] c h = absurd cc
find_conn-id k (d ∷ conns) c h = elim (Bool-cases (d.conn_id == k)) [
  | inl e ↦
      let i : d ≡ c = some_injective (rw e at h) in
      let j : d.conn_id ≡ k = ground arith in rw (← i) j
  | inr e ↦ find_conn-id k conns c (rw e at h)
]

find_own-set_conn :
    (conns : List ConnectionState) (c d : ConnectionState)
    → find_conn c.conn_id conns ≡ some d
    → find_conn c.conn_id (set_conn c conns) ≡ some c
unfolding find_conn set_conn
find_own-set_conn [] c d h = absurd cc
find_own-set_conn (b ∷ conns) c d h = elim (Bool-cases (b.conn_id == c.conn_id)) [
  | inl i ↦ let j : (c.conn_id == c.conn_id) ≡ true = ground arith in rw i (rw j refl)
  | inr i ↦ rw i (rw i (find_own-set_conn conns c d (rw i at h)))
]

pub find_conn-set_conn :
    (k : ℕ) (conns : List ConnectionState) (c d : ConnectionState)
    → c.conn_id ≡ k
    → find_conn k conns ≡ some d
    → find_conn k (set_conn c conns) ≡ some c
find_conn-set_conn k conns c d e =
    subst (λ j. find_conn j conns ≡ some d → find_conn j (set_conn c conns) ≡ some c) e
      (find_own-set_conn conns c d)

pub find_conn-set_conn_other :
    (k : ℕ) (conns : List ConnectionState) (c : ConnectionState)
    → c.conn_id ≢ k
    → find_conn k (set_conn c conns) ≡ find_conn k conns
unfolding find_conn set_conn
find_conn-set_conn_other k [] c e = refl
find_conn-set_conn_other k (b ∷ conns) c e = elim (Bool-cases (b.conn_id == c.conn_id)) [
  | inl i ↦
      let j : (c.conn_id == k) ≡ false = ground arith in
      let l : (b.conn_id == k) ≡ false = ground arith in rw (i, j, l) refl
  | inr i ↦ rw i (elim (Bool-cases (b.conn_id == k)) [
    | inl j ↦ rw j refl
    | inr j ↦ rw j (find_conn-set_conn_other k conns c e)
  ])
]

pub find_conn-remove_conn :
    (k : ℕ) (conns : List ConnectionState) → find_conn k (remove_conn k conns) ≡ none
unfolding find_conn remove_conn
find_conn-remove_conn k [] = refl
find_conn-remove_conn k (b ∷ conns) = elim (Bool-cases (b.conn_id == k)) [
  | inl i ↦ rw i (find_conn-remove_conn k conns)
  | inr i ↦ rw i (rw i (find_conn-remove_conn k conns))
]

pub find_conn-remove_conn_other :
    (j k : ℕ) (conns : List ConnectionState)
    → j ≢ k
    → find_conn k (remove_conn j conns) ≡ find_conn k conns
unfolding find_conn remove_conn
find_conn-remove_conn_other j k [] e = refl
find_conn-remove_conn_other j k (b ∷ conns) e = elim (Bool-cases (b.conn_id == j)) [
  | inl i ↦
      let l : (b.conn_id == k) ≡ false = ground arith in
      rw (i, l) (find_conn-remove_conn_other j k conns e)
  | inr i ↦ rw i (elim (Bool-cases (b.conn_id == k)) [
    | inl l ↦ rw l refl
    | inr l ↦ rw l (find_conn-remove_conn_other j k conns e)
  ])
]

-- Of the two servers only the connection `i` and its tasks differ.
pub record Touches (i : ℕ) (s s' : Server) : Type 0 where
  pub next : s'.next_conn_id ≡ s.next_conn_id
  pub completions : s'.completions ≡ s.completions
  pub running : s'.shutdown_requested ≡ false → s.shutdown_requested ≡ false
  pub conns : (k : ℕ) → i ≢ k → find_conn k s'.connections ≡ find_conn k s.connections
  pub tasks : (k : ℕ) → i ≢ k → requests_of k s'.tasks ≡ requests_of k s.tasks

pub refl-Touches : (i : ℕ) (s : Server) → Touches i s s
refl-Touches i s = record {
  next = refl;
  completions = refl;
  running = λ h. h;
  conns = λ k n. refl;
  tasks = λ k n. refl;
}

pub trans-Touches : {i : ℕ} {s t u : Server} → Touches i s t → Touches i t u → Touches i s u
trans-Touches a b = record {
  next = b.next ∙ a.next;
  completions = b.completions ∙ a.completions;
  running = λ h. a.running (b.running h);
  conns = λ k n. b.conns k n ∙ a.conns k n;
  tasks = λ k n. b.tasks k n ∙ a.tasks k n;
}

pub update_conn-Touches : (s : Server) (c : ConnectionState) → Touches c.conn_id s (update_conn s c)
unfolding update_conn
update_conn-Touches s c = record {
  next = refl;
  completions = refl;
  running = λ h. h;
  conns = λ k n. find_conn-set_conn_other k s.connections c n;
  tasks = λ k n. refl;
}

pub close_connection-Touches : (s : Server) (i : ℕ) → Touches i s (close_connection s i)
unfolding close_connection
close_connection-Touches s i = record {
  next = refl;
  completions = refl;
  running = λ h. h;
  conns = λ k n. find_conn-remove_conn_other i k s.connections n;
  tasks = λ k n. refl;
}

append-nil_of : {A : Type 0} (xs : List A) → xs ++ [] ≡ xs
append-nil_of [] = refl
append-nil_of (x ∷ xs) = ap (◌∷◌ x) (append-nil_of xs)

pub enqueue-Touches : (s : Server) (t : Task) → Touches t.conn_id s (enqueue s t)
unfolding enqueue
enqueue-Touches s t = record {
  next = refl;
  completions = refl;
  running = λ h. h;
  conns = λ k n. refl;
  tasks = λ k n.
      requests_of-append k s.tasks (t ∷ [])
      ∙ (let e : (t.conn_id == k) ≡ false = ground arith in
          rw e (append-nil_of (requests_of k s.tasks)));
}

pub enqueue_here :
    (s : Server) (t : Task) (k : ℕ)
    → t.conn_id ≡ k
    → requests_of k (enqueue s t).tasks ≡ requests_of k s.tasks ++ (t.request ∷ [])
unfolding enqueue
enqueue_here s t k h =
    let e : (t.conn_id == k) ≡ true = ground arith in
    rw (requests_of-append k s.tasks (t ∷ []), e) refl
