-- ===== src/Storage/Partition/Reading.antt =====
-- What `read` of src/Partition.cpp returns of the contents.
use stream_forge.Base.{
  ℕ, suc, ◌+◌, ◌-◌, ◌%◌, ◌^◌, ◌≤◌, ◌<◌, ◌≡◌, refl, sym, ap, ◌∙◌, List, [], ◌∷◌, ◌++◌, false, ◌||◌,
  arith, All-append, length, take, drop, drop_all, take-append-drop, length-take, flatten,
  length-append, append_assoc, append-nil, subst, ltb, leb, ◌==◌, ge→ltb, lt→ltb, if◌then◌else◌,
  Bool-cases, inl, inr,
}
use stream_forge.Status.{done}
use stream_forge.Storage.RecordCodec.{Record}
use stream_forge.Storage.LogSegment.{LogSegment, lookup_file_position}
use stream_forge.Storage.LogSegment.Contents.{length-encodes, Holds}
use stream_forge.Storage.Partition.{Partition, record_size, earliest_offset}
use stream_forge.Storage.Partition.Contents.{Numbered, Piece, Chain, one, more, Contains}
use stream_forge.Storage.Partition.Read.{
  Read, ReadResult, nothing_read, ReadStep, next_segment, returned, Limits, push, is_enough,
  read_segment, read_segments, segments_from, read,
}
use stream_forge.Storage.Partition.Seek.{
  Before, Numbered-Before, Numbered-append, Numbered-join, lookup-Lands, run, read_segment-run,
}

run-skip :
    (start : ℕ) (limits : Limits) (acc : Read) (xs ys : List Record)
    → Before start xs
    → run start limits acc (xs ++ ys) ≡ run start limits acc ys
run-skip start limits acc [] ys h = refl
run-skip start limits acc (x ∷ xs) ys h =
    rw (lt→ltb x.offset start h.0) (run-skip start limits acc xs ys h.1)

abbrev and_then : ReadStep → (Read → ReadStep) → ReadStep
and_then (next_segment acc) go = go acc
and_then (returned res) go = returned res

run-append :
    (start : ℕ) (limits : Limits) (acc : Read) (xs ys : List Record)
    → run start limits acc (xs ++ ys)
      ≡ and_then (run start limits acc xs) (λ acc'. run start limits acc' ys)
run-append start limits acc [] ys = refl
run-append start limits acc (x ∷ xs) ys = elim (Bool-cases (ltb x.offset start)) [
  | inl e ↦ rw e (run-append start limits acc xs ys)
  | inr e ↦ elim (Bool-cases (is_enough limits (push acc x))) [
    | inl f ↦ rw (e, f) refl
    | inr f ↦ rw (e, f) (run-append start limits (push acc x) xs ys)
  ]
]

abbrev result : ReadStep → ReadResult
result (next_segment acc) = (acc.records, done tt)
result (returned res) = res

-- One segment, from where the lookup lands.
segment_run :
    (n : ℕ) (seg : LogSegment) (rs : List Record) (start : ℕ) (limits : Limits) (acc : Read)
    → Piece n seg rs
    → start < n + 2 ^ 32
    → read_segment (suc seg.log_size_bytes) seg start limits (lookup_file_position seg start) acc
      ≡ run start limits acc rs
segment_run n seg rs start limits acc p near =
    let w = lookup-Lands n seg rs start p near in
    let m = length-encodes rs in
    let s = p.holds.size in
    let l : length rs ≡ length w.front + length w.back =
      ap length w.split ∙ length-append w.front w.back in
    subst
      (λ k. read_segment (suc seg.log_size_bytes) seg start limits k acc ≡ run start limits acc rs)
      (sym w.stands)
      (read_segment-run (suc seg.log_size_bytes) seg start limits w.front w.back acc
          (subst (Holds seg) w.split p.holds) (omega arith)
        ∙ sym (run-skip start limits acc w.front w.back w.before)
        ∙ ap (run start limits acc) (sym w.split))

-- The other segments, if the first one did not end the function.
go_on : List LogSegment → ℕ → Limits → ReadStep → ReadResult
go_on segs start limits (next_segment acc) = read_segments segs start limits acc
go_on segs start limits (returned res) = res

read_segments-cons :
    (seg : LogSegment) (segs : List LogSegment) (start : ℕ) (limits : Limits) (acc : Read)
    → read_segments (seg ∷ segs) start limits acc
      ≡ go_on segs start limits (
          read_segment
            (suc seg.log_size_bytes)
            seg
            start
            limits
            (lookup_file_position seg start)
            acc)
unfolding read_segments go_on
read_segments-cons seg segs start limits acc =
    elim (read_segment (suc seg.log_size_bytes) seg start limits (lookup_file_position seg start)
        acc)
      as (λ x.
        elim x [ next_segment acc' ↦ read_segments segs start limits acc' | returned res ↦ res ]
        ≡ go_on segs start limits x) [ next_segment acc' ↦ refl | returned res ↦ refl ]

onward :
    (segs : List LogSegment) (start : ℕ) (limits : Limits) (rs : List Record)
    → ((acc : Read) → read_segments segs start limits acc ≡ result (run start limits acc rs))
    → (x : ReadStep)
    → go_on segs start limits x ≡ result (and_then x (λ acc. run start limits acc rs))
unfolding go_on
onward segs start limits rs h (next_segment acc) = h acc
onward segs start limits rs h (returned res) = refl

-- One segment and what is read from the others.
cons_run :
    (n : ℕ) (seg : LogSegment) (segs : List LogSegment) (rs qs : List Record) (start : ℕ)
    (limits : Limits) (acc : Read)
    → Piece n seg rs
    → start < n + 2 ^ 32
    → ((acc' : Read) → read_segments segs start limits acc' ≡ result (run start limits acc' qs))
    → read_segments (seg ∷ segs) start limits acc ≡ result (run start limits acc (rs ++ qs))
cons_run n seg segs rs qs start limits acc p near h =
    read_segments-cons seg segs start limits acc
    ∙ ap (go_on segs start limits) (segment_run n seg rs start limits acc p near)
    ∙ onward segs start limits qs h (run start limits acc rs)
    ∙ ap result (sym (run-append start limits acc rs qs))

no_segments :
    (start : ℕ) (limits : Limits) (acc : Read)
    → read_segments [] start limits acc ≡ (acc.records, done tt)
unfolding read_segments
no_segments start limits acc = refl

Chain-run :
    {n m : ℕ} {segs : List LogSegment} {rss : List (List Record)} (start : ℕ) (limits : Limits)
    (acc : Read)
    → Chain n segs rss m
    → start < n + 2 ^ 32
    → read_segments segs start limits acc ≡ result (run start limits acc (flatten rss))
Chain-run start limits acc (one {n = n} {s = s} {rs = rs} p u e) near =
    cons_run n s [] rs [] start limits acc p near (no_segments start limits)
Chain-run start limits acc
      (more {n = n} {s = s} {t = t} {segs = segs} {rs = rs} {qs = qs} {rss = rss} p u c) near =
    cons_run n s (t ∷ segs) rs (qs ++ flatten rss) start limits acc p near
      (λ acc'. Chain-run start limits acc' c (omega arith))

-- The segments that are read, and the records that are skipped before them.
record Suffix (start n m : ℕ) (segs : List LogSegment) (rs : List Record) : Type 0 where
  from : ℕ
  kept : List (List Record)
  skipped : List Record
  chain : Chain from (segments_from segs start) kept m
  split : rs ≡ skipped ++ flatten kept
  before : Before start skipped
  near : start < from + 2 ^ 32

Chain-base :
    {n m : ℕ} {s : LogSegment} {segs : List LogSegment} {rss : List (List Record)}
    → Chain n (s ∷ segs) rss m
    → s.base_offset ≡ n
Chain-base (one p u e) = p.base
Chain-base (more p u c) = p.base

few : {n : ℕ} {s : LogSegment} {rs : List Record} → Piece n s rs → length rs < 2 ^ 32
few {rs = rs} p = let m = length-encodes rs in let f = p.holds.fits in omega arith

suffix :
    {n m : ℕ} {segs : List LogSegment} {rss : List (List Record)} (start : ℕ)
    → Chain n segs rss m
    → n ≤ start
    → start < m
    → Suffix start n m segs (flatten rss)
unfolding segments_from
suffix start (one {n = n} {rs = rs} p u e) lo hi =
    let k = few p in
    record {
      from = n;
      kept = rs ∷ [];
      skipped = [];
      chain = one p u e;
      split = refl;
      before = tt;
      near = omega arith;
    }
suffix start (more {n = n} {t = t} {rs = rs} {qs = qs} {rss = rss} p u c) lo hi =
    let b = Chain-base c in
    elim (Bool-cases (leb t.base_offset start)) [
      | inl e ↦
          let w = suffix start c (ground arith) hi in
          record {
            from = w.from;
            kept = w.kept;
            skipped = rs ++ w.skipped;
            chain = rw e w.chain;
            split = ap (◌++◌ rs) w.split ∙ sym (append_assoc rs w.skipped (flatten w.kept));
            before =
                All-append (λ r. r.offset < start) rs w.skipped
                  (Numbered-Before n start rs p.numbered (ground arith)) w.before;
            near = w.near;
          }
      | inr e ↦
          let k = few p in
          let l : start < n + length rs = ground arith in
          record {
            from = n;
            kept = rs ∷ qs ∷ rss;
            skipped = [];
            chain = rw e (more p u c);
            split = refl;
            before = tt;
            near = omega arith;
          }
    ]

-- The records that the limits let through: at least one, if there is one.
abbrev pub limited : Limits → ℕ → ℕ → List Record → List Record
limited limits messages bytes [] = []
limited limits messages bytes (r ∷ rs) =
    let bytes' = (bytes + record_size r.key r.value) % 2 ^ 64 in
    let rest = limited limits (messages + 1) bytes' rs in
    r ∷ (if leb limits.max_messages (messages + 1) || leb limits.max_bytes bytes' then [] else rest)

run-limited :
    (start k : ℕ) (limits : Limits) (acc : Read) (rs : List Record)
    → Numbered k rs
    → start ≤ k
    → result (run start limits acc rs)
      ≡ (acc.records ++ limited limits (length acc.records) acc.total_bytes_read rs, done tt)
run-limited start k limits acc [] h le = rw append-nil refl
run-limited start k limits acc (r ∷ rs) h le =
    let o = h.0 in
    let n : length (acc.records ++ (r ∷ [])) ≡ length acc.records + 1 =
      length-append acc.records (r ∷ []) in
    elim (Bool-cases (is_enough limits (push acc r))) [
      | inl e ↦ rw (ge→ltb r.offset start (omega arith), e, rw n at e) refl
      | inr e ↦
          rw (ge→ltb r.offset start (omega arith), e, rw n at e)
            (run-limited start (k + 1) limits (push acc r) rs h.1 (omega arith)
              ∙ rw (n, append_assoc acc.records (r ∷ [])) refl)
    ]

pub Chain-Numbered :
    {n m : ℕ} {segs : List LogSegment} {rss : List (List Record)}
    → Chain n segs rss m
    → Numbered n (flatten rss) × (m ≡ n + length (flatten rss))
Chain-Numbered (one {rs = rs} p u e) = rw append-nil (p.numbered, e)
Chain-Numbered (more {n = n} {rs = rs} {qs = qs} {rss = rss} p u c) =
    let (a, e) = Chain-Numbered c in
    (
      Numbered-join n rs (qs ++ flatten rss) p.numbered a,
      omega (arith, length-append rs (qs ++ flatten rss)),
    )

pub Chain-earliest :
    {n m : ℕ} {segs : List LogSegment} {rss : List (List Record)} (p : Partition)
    → Chain n segs rss m
    → p.segments ≡ segs
    → earliest_offset p ≡ n
unfolding earliest_offset
Chain-earliest p (one q u e) s = rw s q.base
Chain-earliest p (more q u c) s = rw s q.base

read_inside :
    (n m start : ℕ) (segs : List LogSegment) (rss : List (List Record)) (limits : Limits)
    → Chain n segs rss m
    → n ≤ start
    → start < m
    → read_segments (segments_from segs start) start limits nothing_read
      ≡ (limited limits 0 0 (drop (start - n) (flatten rss)), done tt)
read_inside n m start segs rss limits c lo hi =
    let all : List Record = flatten rss in
    let w = suffix start c lo hi in
    let (numbered, e) = Chain-Numbered c in
    let front : List Record = take (start - n) all in
    let back : List Record = drop (start - n) all in
    let cut : front ++ back ≡ all = take-append-drop (start - n) all in
    let l : length front ≡ start - n = omega (arith, length-take (start - n) all) in
    let (a, b) = Numbered-append n front back (subst (Numbered n) (sym cut) numbered) in
    Chain-run start limits nothing_read w.chain w.near
    ∙ ap result (
        sym (run-skip start limits nothing_read w.skipped (flatten w.kept) w.before)
        ∙ ap (run start limits nothing_read) (sym w.split ∙ sym cut)
        ∙ run-skip start limits nothing_read front back
            (Numbered-Before n start front a (omega arith)))
    ∙ run-limited start (n + length front) limits nothing_read back b (omega arith)

-- Reading from any offset that is still there, or from the next one, gives the records from this
-- offset on, across the segments, as far as the limits let them through.
pub read-limited :
    (p : Partition) (n start : ℕ) (rss : List (List Record)) (limits : Limits)
    → Contains p n rss
    → n ≤ start
    → start ≤ p.next_offset
    → read p start limits ≡ (limited limits 0 0 (drop (start - n) (flatten rss)), done tt)
unfolding read
read-limited p n start rss limits c lo hi = elim (Bool-cases (start == p.next_offset)) [
  | inl e ↦
      let past : length (flatten rss) ≤ start - n =
        let k : start ≡ p.next_offset = ground arith in
        let l = (Chain-Numbered c.chain).1 in omega arith in
      rw e
        (ap (λ l. (limited limits 0 0 l, done tt)) (sym (drop_all (start - n) (flatten rss) past)))
  | inr e ↦
      let low : ltb start (earliest_offset p) ≡ false =
        ge→ltb start (earliest_offset p) (omega (arith, Chain-earliest p c.chain refl)) in
      let high : ltb p.next_offset start ≡ false = ge→ltb p.next_offset start hi in
      rw (e, low, high)
        (read_inside n p.next_offset start p.segments rss limits c.chain lo (ground arith))
]
