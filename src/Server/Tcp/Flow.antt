-- ===== src/Server/Tcp/Flow.antt =====
-- The bytes that a connection of src/TcpServer.cpp sends: what the socket has taken and what waits in the
-- buffer are together the responses, one after another.
use stream_forge.Base.{
  ℕ, ◌+◌, ◌≤◌, ◌≡◌, refl, sym, ap, ◌∙◌, inl, inr, List, [], ◌∷◌, ◌++◌, Bool, true, false, Option,
  none, some, ltb, ◌==◌, arith, Bool-cases, append_assoc, append-nil, length, take, drop, flatten,
  take-append-drop, drop_all, length-drop, drop-add, take_all,
}
use stream_forge.Server.Tcp.{
  ConnectionState, SendOutcome, accepted, would_block, failed, sent_count, unsent, deliver,
}
use stream_forge.Server.Tcp.Input.{send_output}

-- After an error frame or a shutdown nothing is said of the bytes.
pub record Flows (stopped : Bool) (c : ConnectionState) : Type 0 where
  pub offset : c.output_offset ≤ length c.output_buffer
  pub stream :
      stopped ≡ false
      → c.close_after_send ≡ false
      → c.sent ++ drop c.output_offset c.output_buffer ≡ flatten c.answers

flatten-append : (bs : List (List ℕ)) (b : List ℕ) → flatten (bs ++ (b ∷ [])) ≡ flatten bs ++ b
flatten-append [] b = append-nil b
flatten-append (a ∷ bs) b =
    ap (λ x. a ++ x) (flatten-append bs b) ∙ sym (append_assoc a (flatten bs) b)

-- A split of the response at any place.
split : (sent : List ℕ) (n : ℕ) (b : List ℕ) → (sent ++ take n b) ++ drop n b ≡ sent ++ b
split sent n b =
    append_assoc sent (take n b) (drop n b) ∙ ap (λ x. sent ++ x) (take-append-drop n b)

-- The connection has sent or buffered bytes, and is otherwise as it was.
pub record Sends (stopped : Bool) (c c' : ConnectionState) : Type 0 where
  pub flows : Flows stopped c'
  pub id : c'.conn_id ≡ c.conn_id
  pub flag : c'.in_flight ≡ c.in_flight
  pub pending : c'.pending_requests ≡ c.pending_requests
  pub arrived : c'.arrived ≡ c.arrived
  pub answers : c'.answers ≡ c.answers

abbrev pub SendsOr : Bool → ConnectionState → Option ConnectionState → Type 0
SendsOr stopped c none = Unit {0}
SendsOr stopped c (some c') = Sends stopped c c'

-- A record update of the socket and the buffer.
output-Sends :
    (stopped : Bool) (c : ConnectionState) (sent buffer : List ℕ) (offset : ℕ)
    → offset ≤ length buffer
    → (stopped ≡ false
        → c.close_after_send ≡ false
        → sent ++ drop offset buffer ≡ flatten c.answers)
    → Sends stopped c (record c { sent = sent; output_buffer = buffer; output_offset = offset })
output-Sends stopped c sent buffer offset h k = record {
  flows = record { offset = h; stream = k };
  id = refl;
  flag = refl;
  pending = refl;
  arrived = refl;
  answers = refl;
}

abbrev responded : ConnectionState → List ℕ → ConnectionState
responded c b = record c { in_flight = false; answers = c.answers ++ (b ∷ []) }

-- The stream with one more response behind it.
longer :
    (stopped : Bool) (c : ConnectionState) (b : List ℕ)
    → Flows stopped c
    → stopped ≡ false
    → c.close_after_send ≡ false
    → (c.sent ++ drop c.output_offset c.output_buffer) ++ b ≡ flatten (c.answers ++ (b ∷ []))
longer stopped c b h p q = ap (λ x. x ++ b) (h.stream p q) ∙ sym (flatten-append c.answers b)

-- Where nothing waits, the socket has taken everything.
all_sent :
    (stopped : Bool) (c : ConnectionState) (b : List ℕ)
    → Flows stopped c
    → unsent c ≡ 0
    → stopped ≡ false
    → c.close_after_send ≡ false
    → c.sent ++ b ≡ flatten (c.answers ++ (b ∷ []))
unfolding unsent
all_sent stopped c b h u p q =
    let d = drop_all c.output_offset c.output_buffer (omega arith) in
    let e = longer stopped c b h p q in
    ap (λ x. x ++ b) (sym (append-nil c.sent) ∙ ap (λ x. c.sent ++ x) (sym d)) ∙ e

now-SendsOr :
    (stopped : Bool) (c : ConnectionState) (b : List ℕ) (outcome : SendOutcome)
    → Flows stopped c
    → unsent c ≡ 0
    → (unsent c == 0) ≡ true
    → SendsOr stopped (responded c b) (deliver (responded c b) b outcome)
unfolding deliver unsent
now-SendsOr stopped c b failed h u e = rw (deliver, e) tt
now-SendsOr stopped c b would_block h u e =
    rw (deliver, e)
      (output-Sends stopped (responded c b) c.sent b 0 (omega arith)
        (λ p q. all_sent stopped c b h u p q))
now-SendsOr stopped c b (accepted n) h u e =
    let m = sent_count n b in
    elim (Bool-cases (ltb m (length b))) [
      | inl d ↦
          rw (deliver, e, d)
            (output-Sends stopped (responded c b) (c.sent ++ take m b) (drop m b) 0 (omega arith)
              (λ p q. split c.sent m b ∙ all_sent stopped c b h u p q))
      | inr d ↦
          rw (deliver, e, d)
            (output-Sends stopped (responded c b) (c.sent ++ b) c.output_buffer c.output_offset
              h.offset
              (λ p q.
                ap (λ x. (c.sent ++ b) ++ x)
                  (drop_all c.output_offset c.output_buffer (omega arith))
                ∙ append-nil (c.sent ++ b)
                ∙ all_sent stopped c b h u p q))
    ]

pub deliver-SendsOr :
    (stopped : Bool) (c : ConnectionState) (b : List ℕ) (outcome : SendOutcome)
    → Flows stopped c
    → SendsOr stopped (responded c b) (deliver (responded c b) b outcome)
unfolding deliver unsent
deliver-SendsOr stopped c b outcome h = elim (Bool-cases (unsent c == 0)) [
  | inl e ↦ let u : unsent c ≡ 0 = ground arith in now-SendsOr stopped c b outcome h u e
  | inr e ↦
      rw (deliver, e)
        (output-Sends stopped (responded c b) c.sent (drop c.output_offset c.output_buffer ++ b) 0
          (omega arith)
          (λ p q.
            sym (append_assoc c.sent (drop c.output_offset c.output_buffer) b)
            ∙ longer stopped c b h p q))
]

pub send_output-Sends :
    (stopped : Bool) (c : ConnectionState) (outcome : SendOutcome)
    → Flows stopped c
    → Sends stopped c (send_output c outcome).0
unfolding send_output
send_output-Sends stopped c failed h =
    output-Sends stopped c c.sent c.output_buffer c.output_offset h.offset h.stream
send_output-Sends stopped c would_block h =
    output-Sends stopped c c.sent c.output_buffer c.output_offset h.offset h.stream
send_output-Sends stopped c (accepted n) h =
    let rest = drop c.output_offset c.output_buffer in
    let m = sent_count n rest in
    let l = length-drop c.output_offset c.output_buffer in
    let o = h.offset in
    elim (Bool-cases (c.output_offset + m == length c.output_buffer)) [
      | inl d ↦
          rw (send_output, d)
            (output-Sends stopped c (c.sent ++ take m rest) [] 0 (omega arith) (λ p q.
              append-nil (c.sent ++ take m rest)
              ∙ ap (λ x. c.sent ++ x)
                  (take_all m rest (
                    let z : c.output_offset + m ≡ length c.output_buffer = ground arith in
                    omega arith))
              ∙ h.stream p q))
      | inr d ↦
          rw (send_output, d)
            (output-Sends stopped c (c.sent ++ take m rest) c.output_buffer (c.output_offset + m)
              (omega arith)
              (λ p q.
                ap (λ x. (c.sent ++ take m rest) ++ x) (drop-add c.output_offset m c.output_buffer)
                ∙ split c.sent m rest
                ∙ h.stream p q))
    ]
