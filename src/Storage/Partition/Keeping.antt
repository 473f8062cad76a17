-- ===== src/Storage/Partition/Keeping.antt =====
-- What the retention of src/Partition.cpp leaves in place.
use stream_forge.Base.{
  ℕ, zero, suc, ◌+◌, ◌-◌, ◌%◌, ◌^◌, ◌≤◌, ◌<◌, ◌≡◌, refl, sym, ap, ◌∙◌, List, [], ◌∷◌, ◌++◌, Bool,
  true, false, arith, length, take, drop, length-drop, flatten, append_assoc, subst, ltb, leb, ◌==◌,
  if◌then◌else◌, Bool-cases, inl, inr, ◌⊎◌,
}
use stream_forge.Storage.RecordCodec.{Record}
use stream_forge.Storage.LogSegment.{LogSegment}
use stream_forge.Storage.Partition.{Partition, sum_bytes}
use stream_forge.Storage.Partition.Contents.{Chain, one, more, Contains}
use stream_forge.Storage.Partition.Retention.{
  DeletionCandidate, deletable_by_size, deletable_count, scan_and_delete_segments,
}

Chain-length :
    {n m : ℕ} {segs : List LogSegment} {rss : List (List Record)}
    → Chain n segs rss m
    → 0 < length segs
Chain-length (one p u e) = omega arith
Chain-length (more p u c) = omega arith

-- The segments from the k-th on.
record Dropped (k m : ℕ) (segs : List LogSegment) (rss : List (List Record)) : Type 0 where
  from : ℕ
  chain : Chain from (drop k segs) (drop k rss) m
  split : flatten rss ≡ flatten (take k rss) ++ flatten (drop k rss)

drop-Chain :
    {n m : ℕ} {segs : List LogSegment} {rss : List (List Record)} (k : ℕ)
    → Chain n segs rss m
    → k < length segs
    → Dropped k m segs rss
drop-Chain {n} zero c h = record { from = n; chain = c; split = refl }
drop-Chain (suc k) (one p u e) h = absurd (omega arith)
drop-Chain {n = n} (suc k) (more {rs = rs} {qs = qs} {rss = rss} p u c) h =
    let d = drop-Chain {n = n + length rs} k c (omega arith) in
    record {
      from = d.from;
      chain = d.chain;
      split =
          ap (◌++◌ rs) d.split
          ∙ sym (append_assoc rs (flatten (take k (qs ∷ rss))) (flatten (drop k (qs ∷ rss))));
    }

deletable_count-lt :
    (now ms bytes : ℕ) (segs : List LogSegment)
    → 0 < length segs
    → deletable_count now ms bytes segs < length segs
unfolding deletable_count
deletable_count-lt now ms bytes segs h = ground arith

-- Which segments a scan removes: `k` of them in front.
removed : Partition → ℕ → ℕ → ℕ → Bool → ℕ
removed p now ms bytes dry = if dry then 0 else deletable_count now ms bytes p.segments

removed-lt :
    (p : Partition) (now ms bytes : ℕ) (dry : Bool)
    → 0 < length p.segments
    → removed p now ms bytes dry < length p.segments
unfolding removed
removed-lt p now ms bytes true h = h
removed-lt p now ms bytes false h = deletable_count-lt now ms bytes p.segments h

scan_lem :
    (p : Partition) (now ms bytes : ℕ) (dry : Bool) (out : List DeletionCandidate)
    → 0 < length p.segments
    → (scan_and_delete_segments p now ms bytes dry out).0
      ≡ record p { segments = drop (removed p now ms bytes dry) p.segments }
unfolding scan_and_delete_segments removed
scan_lem p now ms bytes true out h = elim (Bool-cases (leb (length p.segments) 1)) [
  | inl e ↦ rw e refl
  | inr e ↦ elim (Bool-cases (deletable_count now ms bytes p.segments == 0)) [
    | inl f ↦ rw (e, f) refl
    | inr f ↦ rw (e, f) refl
  ]
]
scan_lem p now ms bytes false out h =
    let lt = deletable_count-lt now ms bytes p.segments h in
    elim (Bool-cases (leb (length p.segments) 1)) [
      | inl e ↦ let z : deletable_count now ms bytes p.segments ≡ 0 = ground arith in rw (e, z) refl
      | inr e ↦ elim (Bool-cases (deletable_count now ms bytes p.segments == 0)) [
        | inl f ↦
            let z : deletable_count now ms bytes p.segments ≡ 0 = ground arith in rw (e, f, z) refl
        | inr f ↦ rw (e, f) refl
      ]
    ]

-- A scan, at any time and with any limits, removes some segments in front and with them the oldest
-- records, and no others; the active segment stays, and with it the next offset. A dry run removes
-- nothing, any other run as many as were counted.
pub scan_and_delete_segments-Contains :
    (p : Partition) (n now ms bytes : ℕ) (dry : Bool) (out : List DeletionCandidate)
    (rss : List (List Record))
    → Contains p n rss
    → let p' = (scan_and_delete_segments p now ms bytes dry out).0 in
      (k : ℕ) × (k < length p.segments)
      × (p' ≡ record p { segments = drop k p.segments })
      × (flatten rss ≡ flatten (take k rss) ++ flatten (drop k rss))
      × ((n' : ℕ) × Contains p' n' (drop k rss))
      × (k ≡ (if dry then 0 else deletable_count now ms bytes p.segments))
scan_and_delete_segments-Contains p n now ms bytes dry out rss c =
    let pos = Chain-length c.chain in
    let e = scan_lem p now ms bytes dry out pos in
    let lt = removed-lt p now ms bytes dry pos in
    let d = drop-Chain (removed p now ms bytes dry) c.chain lt in
    (
      removed p now ms bytes dry,
      lt,
      e,
      d.split,
      (
        d.from,
        subst (λ q. Contains q d.from (drop (removed p now ms bytes dry) rss)) (sym e)
            (record { chain = d.chain; room = c.room }),
      ),
      unfold removed in refl,
    )

-- The bytes of the logs, without the overflow of a 64-bit sum.
abbrev pub log_bytes : List LogSegment → ℕ
log_bytes [] = 0
log_bytes (s ∷ segs) = s.log_size_bytes + log_bytes segs

sum_bytes_lem : (segs : List LogSegment) → log_bytes segs < 2 ^ 64 → sum_bytes segs ≡ log_bytes segs
sum_bytes_lem [] h = refl
sum_bytes_lem (s ∷ segs) h = let e = sum_bytes_lem segs (omega arith) in omega arith

log_bytes-drop : (k : ℕ) (segs : List LogSegment) → log_bytes (drop k segs) ≤ log_bytes segs
log_bytes-drop zero segs = omega arith
log_bytes-drop (suc k) [] = omega arith
log_bytes-drop (suc k) (s ∷ segs) = omega (arith, log_bytes-drop k segs)

-- Small enough, or nothing is left but the active segment.
Enough : ℕ → List LogSegment → Type 0
Enough bytes segs = (log_bytes segs ≤ bytes) ⊎ (length segs ≤ 1)

drop-Enough :
    (bytes k j : ℕ) (segs : List LogSegment)
    → k ≤ j
    → Enough bytes (drop k segs)
    → Enough bytes (drop j segs)
unfolding Enough
drop-Enough bytes zero j segs h (inl e) = inl (omega (arith, log_bytes-drop j segs))
drop-Enough bytes zero j segs h (inr e) = inr (omega (arith, length-drop j segs))
drop-Enough bytes (suc k) zero segs h e = absurd (omega arith)
drop-Enough bytes (suc k) (suc j) [] h e = e
drop-Enough bytes (suc k) (suc j) (s ∷ segs) h e = drop-Enough bytes k j segs (omega arith) e

by_size-Enough :
    (bytes total : ℕ) (segs : List LogSegment)
    → total ≡ log_bytes segs
    → total < 2 ^ 64
    → Enough bytes (drop (deletable_by_size bytes total segs) segs)
unfolding deletable_by_size Enough
by_size-Enough bytes total [] e h = inr (omega arith)
by_size-Enough bytes total (s ∷ []) e h = inr (omega arith)
by_size-Enough bytes total (s ∷ t ∷ segs) e h = elim (Bool-cases (ltb bytes total)) [
  | inl b ↦
      let w : (total + 2 ^ 64 - s.log_size_bytes) % 2 ^ 64 ≡ log_bytes (t ∷ segs) = omega arith in
      rw b (
        by_size-Enough bytes ((total + 2 ^ 64 - s.log_size_bytes) % 2 ^ 64) (t ∷ segs) w
          (omega arith))
  | inr b ↦ rw b (inl (ground arith))
]

-- The count is that of the bytes at least, or all but one.
count-cases :
    (now ms bytes : ℕ) (segs : List LogSegment)
    → 0 < bytes
    → (length segs ≤ deletable_count now ms bytes segs + 1)
      ⊎ (deletable_by_size bytes (sum_bytes segs) segs ≤ deletable_count now ms bytes segs)
unfolding deletable_count
count-cases now ms bytes segs h = ground arith

count-Enough :
    (now ms bytes : ℕ) (segs : List LogSegment)
    → 0 < bytes
    → log_bytes segs < 2 ^ 64
    → Enough bytes (drop (deletable_count now ms bytes segs) segs)
count-Enough now ms bytes segs pos fits = elim (count-cases now ms bytes segs pos) [
  | inl all ↦
      unfold Enough in inr (omega (arith, length-drop (deletable_count now ms bytes segs) segs))
  | inr k ↦
      let s = sum_bytes_lem segs fits in
      drop-Enough bytes (deletable_by_size bytes (sum_bytes segs) segs)
        (deletable_count now ms bytes segs) segs k
        (by_size-Enough bytes (sum_bytes segs) segs s (omega arith))
]

-- A scan that is no dry run and has a limit on the bytes brings the partition below this limit, if
-- its size fits in 64 bits, or leaves nothing but the active segment.
pub scan_and_delete_segments-bytes :
    (p : Partition) (n now ms bytes : ℕ) (out : List DeletionCandidate) (rss : List (List Record))
    → Contains p n rss
    → 0 < bytes
    → log_bytes p.segments < 2 ^ 64
    → let p' = (scan_and_delete_segments p now ms bytes false out).0 in
      (log_bytes p'.segments ≤ bytes) ⊎ (length p'.segments ≤ 1)
scan_and_delete_segments-bytes p n now ms bytes out rss c pos fits =
    let e = scan_lem p now ms bytes false out (Chain-length c.chain) in
    rw e (unfold removed Enough in count-Enough now ms bytes p.segments pos fits)
