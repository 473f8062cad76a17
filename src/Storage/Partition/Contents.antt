-- ===== src/Storage/Partition/Contents.antt =====
-- The abstract contents of a partition of src/Partition.cpp: a list of records under consecutive
-- offsets, cut into segments.
use stream_forge.Base.{
  ℕ, ◌+◌, ◌^◌, ◌<◌, ◌≡◌, refl, sym, ap, ◌∙◌, List, [], ◌∷◌, ◌++◌, true, false, some, arith, length,
  flatten, length-append, append_assoc, append-nil,
}
use stream_forge.Storage.RecordCodec.{Record}
use stream_forge.Storage.LogSegment.{LogSegment}
use stream_forge.Storage.LogSegment.Contents.{Holds}
use stream_forge.Storage.Partition.{Partition, active_segment, set_active}

-- The offsets of the records, from this one on.
abbrev pub Numbered : ℕ → List Record → Type 0
Numbered n [] = Unit {0}
Numbered n (r ∷ rs) = (r.offset ≡ n) × Numbered (n + 1) rs

-- A segment with its records, from this offset on.
pub record Piece (n : ℕ) (seg : LogSegment) (rs : List Record) : Type 0 where
  pub base : seg.base_offset ≡ n
  pub holds : Holds seg rs
  pub numbered : Numbered n rs

-- Segments one behind the other from offset `n` up to `m`; the last one, and only it, is open.
pub data Chain : ℕ → List LogSegment → List (List Record) → ℕ → Type 0 where
  one :
      {n m : ℕ} {s : LogSegment} {rs : List Record}
      → Piece n s rs
      → s.is_sealed ≡ false
      → m ≡ n + length rs
      → Chain n (s ∷ []) (rs ∷ []) m
  more :
      {n m : ℕ} {s t : LogSegment} {segs : List LogSegment} {rs qs : List Record}
      {rss : List (List Record)}
      → Piece n s rs
      → s.is_sealed ≡ true
      → Chain (n + length rs) (t ∷ segs) (qs ∷ rss) m
      → Chain n (s ∷ t ∷ segs) (rs ∷ qs ∷ rss) m

-- `rss` are the records of the segments, and `n` is the first offset that is still there.
pub record Contains (p : Partition) (n : ℕ) (rss : List (List Record)) : Type 0 where
  pub chain : Chain n p.segments rss p.next_offset
  pub room : p.next_offset < 2 ^ 64

-- The records of the last segment, and with one more.
abbrev pub snoc_last : List (List Record) → Record → List (List Record)
snoc_last [] r = []
snoc_last (rs ∷ []) r = (rs ++ (r ∷ [])) ∷ []
snoc_last (rs ∷ qs ∷ rss) r = rs ∷ snoc_last (qs ∷ rss) r

pub flatten-snoc_last :
    (rs : List Record) (rss : List (List Record)) (r : Record)
    → flatten (snoc_last (rs ∷ rss) r) ≡ flatten (rs ∷ rss) ++ (r ∷ [])
flatten-snoc_last rs [] r = rw (append-nil (rs ++ (r ∷ [])), append-nil rs) refl
flatten-snoc_last rs (qs ∷ rss) r =
    rw (flatten-snoc_last qs rss r) (sym (append_assoc rs (qs ++ flatten rss) (r ∷ [])))

pub flatten-append : (rss : List (List Record)) → flatten (rss ++ ([] ∷ [])) ≡ flatten rss
flatten-append [] = refl
flatten-append (rs ∷ rss) = ap (◌++◌ rs) (flatten-append rss)

Numbered-snoc :
    (n : ℕ) (rs : List Record) (r : Record)
    → Numbered n rs
    → r.offset ≡ n + length rs
    → Numbered n (rs ++ (r ∷ []))
Numbered-snoc n [] r h e = (omega arith, tt)
Numbered-snoc n (q ∷ rs) r h e = (h.0, Numbered-snoc (n + 1) rs r h.1 (omega arith))

Chain-cons :
    {n m : ℕ} {s : LogSegment} {segs : List LogSegment} {rs : List Record}
    {rss : List (List Record)}
    → Piece n s rs
    → s.is_sealed ≡ true
    → Chain (n + length rs) segs rss m
    → Chain n (s ∷ segs) (rs ∷ rss) m
Chain-cons p u (one q v e) = more p u (one q v e)
Chain-cons p u (more q v c) = more p u (more q v c)

-- The active segment of a chain.
pub record Active (n m : ℕ) (segs : List LogSegment) (rss : List (List Record)) : Type 0 where
  pub from : ℕ
  pub seg : LogSegment
  pub held : List Record
  pub found : active_segment segs ≡ some seg
  pub piece : Piece from seg held
  pub unsealed : seg.is_sealed ≡ false
  pub upto : m ≡ from + length held
  -- A record is appended to it.
  pub grow :
      (s : LogSegment) (r : Record)
      → s.base_offset ≡ seg.base_offset
      → Holds s (held ++ (r ∷ []))
      → s.is_sealed ≡ false
      → r.offset ≡ m
      → Chain n (set_active segs s) (snoc_last rss r) (m + 1)
  -- It is sealed, and a new one takes its place.
  pub roll :
      (s fresh : LogSegment)
      → s.base_offset ≡ seg.base_offset
      → Holds s held
      → s.is_sealed ≡ true
      → fresh.base_offset ≡ m
      → Holds fresh []
      → fresh.is_sealed ≡ false
      → Chain n (set_active segs s ++ (fresh ∷ [])) (rss ++ ([] ∷ [])) m

pub Chain-Active :
    {n m : ℕ} {segs : List LogSegment} {rss : List (List Record)}
    → Chain n segs rss m
    → Active n m segs rss
Chain-Active {n} {m} (one {s = s} {rs = rs} p u e) = record {
  from = n;
  seg = s;
  held = rs;
  found = refl;
  piece = p;
  unsealed = u;
  upto = e;
  grow = λ s' r b h v f.
      one
        (record {
          base = b ∙ p.base;
          holds = h;
          numbered = Numbered-snoc n rs r p.numbered (f ∙ e);
        })
        v (omega (arith, length-append rs (r ∷ [])));
  roll = λ s' fresh b h v f k w.
      more (record { base = b ∙ p.base; holds = h; numbered = p.numbered }) v
        (one (record { base = f ∙ e; holds = k; numbered = tt }) w (omega arith));
}
Chain-Active (more p u c) =
    let a = Chain-Active c in
    record {
      from = a.from;
      seg = a.seg;
      held = a.held;
      found = a.found;
      piece = a.piece;
      unsealed = a.unsealed;
      upto = a.upto;
      grow = λ s' r b h v f. Chain-cons p u (a.grow s' r b h v f);
      roll = λ s' fresh b h v f k w. Chain-cons p u (a.roll s' fresh b h v f k w);
    }

pub Chain-flatten :
    {n m : ℕ} {segs : List LogSegment} {rss : List (List Record)} (r : Record)
    → Chain n segs rss m
    → flatten (snoc_last rss r) ≡ flatten rss ++ (r ∷ [])
Chain-flatten r (one {rs = rs} p u e) = flatten-snoc_last rs [] r
Chain-flatten r (more {rs = rs} {qs = qs} {rss = rss} p u c) = flatten-snoc_last rs (qs ∷ rss) r

pub active_segment-append :
    (segs : List LogSegment) (s : LogSegment) → active_segment (segs ++ (s ∷ [])) ≡ some s
active_segment-append [] s = refl
active_segment-append (t ∷ []) s = refl
active_segment-append (t ∷ u ∷ segs) s = active_segment-append (u ∷ segs) s
