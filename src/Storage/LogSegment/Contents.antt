-- ===== src/Storage/LogSegment/Contents.antt =====
-- The abstract contents of a segment of src/LogSegment.cpp: the list of its records. `Holds` ties
-- the files and the counters to them.
use stream_forge.Base.{
  ℕ, ◌+◌, ◌*◌, ◌%◌, ◌^◌, ◌≤◌, ◌<◌, ◌≡◌, refl, sym, ap, List, [], ◌∷◌, ◌++◌, append_assoc,
  append-nil, arith, if◌then◌else◌, none, length, length-append, All, All-append,
}
use stream_forge.Base.Bytes.{signed_lt}
use stream_forge.Storage.Crc32.{initial_crc, update}
use stream_forge.Storage.RecordCodec.{Record, encode}
use stream_forge.Storage.RecordCodec.Layout.{IsRecord}
use stream_forge.Storage.RecordCodec.RoundTrip.{length-encode}
use stream_forge.Storage.OffsetIndex.{IndexEntry}
use stream_forge.Storage.LogSegment.{LogSegment, init, rel_offset}

-- The log file that holds these records.
abbrev pub encodes : List Record → List ℕ
encodes [] = []
encodes (r ∷ rs) = encode r ++ encodes rs

pub encodes-append : (rs qs : List Record) → encodes (rs ++ qs) ≡ encodes rs ++ encodes qs
encodes-append [] qs = refl
encodes-append (r ∷ rs) qs =
    rw (encodes-append rs qs) (sym (append_assoc (encode r) (encodes rs) (encodes qs)))

pub encodes-snoc :
    (rs : List Record) (r : Record) → encodes (rs ++ (r ∷ [])) ≡ encodes rs ++ encode r
encodes-snoc rs r = rw (encodes-append rs (r ∷ [])) (ap (◌++◌ (encodes rs)) (append-nil (encode r)))

-- Every record takes 28 bytes at least.
pub length-encodes : (rs : List Record) → 28 * length rs ≤ length (encodes rs)
length-encodes [] = omega arith
length-encodes (r ∷ rs) =
    omega (arith, length-append (encode r) (encodes rs), length-encode r, length-encodes rs)

abbrev pub last_from : ℕ → List Record → ℕ
last_from d [] = d
last_from d (r ∷ rs) = last_from r.offset rs

abbrev pub later : ℕ → ℕ → ℕ
later m t = if signed_lt m t then t else m

abbrev pub latest_from : ℕ → List Record → ℕ
latest_from m [] = m
latest_from m (r ∷ rs) = latest_from (later m r.timestamp_ms) rs

abbrev pub next_from : ℕ → List Record → ℕ
next_from n [] = n
next_from n (r ∷ rs) = next_from ((r.offset + 1) % 2 ^ 64) rs

pub last_from-snoc :
    (d : ℕ) (rs : List Record) (r : Record) → last_from d (rs ++ (r ∷ [])) ≡ r.offset
last_from-snoc d [] r = refl
last_from-snoc d (q ∷ rs) r = last_from-snoc q.offset rs r

pub latest_from-snoc :
    (m : ℕ) (rs : List Record) (r : Record)
    → latest_from m (rs ++ (r ∷ [])) ≡ later (latest_from m rs) r.timestamp_ms
latest_from-snoc m [] r = refl
latest_from-snoc m (q ∷ rs) r = latest_from-snoc (later m q.timestamp_ms) rs r

-- An entry names a record and where it starts.
abbrev pub Boundary : ℕ → List Record → IndexEntry → Type 0
Boundary base rs e =
    (front : List Record) × (r : Record) × (back : List Record) × (rs ≡ front ++ (r ∷ back))
    × (e.file_position ≡ length (encodes front))
    × (e.relative_offset ≡ rel_offset r.offset base)

-- The first record is in the index.
abbrev pub StartsAtZero : List Record → List IndexEntry → Type 0
StartsAtZero [] entries = entries ≡ []
StartsAtZero (r ∷ rs) [] = ⊥
StartsAtZero (r ∷ rs) (e ∷ entries) = e.file_position ≡ 0

pub record Indexed (base : ℕ) (rs : List Record) (entries : List IndexEntry) : Type 0 where
  pub boundaries : All (Boundary base rs) entries
  pub first : StartsAtZero rs entries

pub record Holds (seg : LogSegment) (rs : List Record) : Type 0 where
  pub contents : seg.log_file ≡ encodes rs
  pub records : All IsRecord rs
  pub fits : length (encodes rs) < 2 ^ 32
  pub size : seg.log_size_bytes ≡ length (encodes rs)
  pub crc : seg.running_crc_raw ≡ update initial_crc (encodes rs)
  pub count : seg.record_count ≡ length rs
  pub last : 0 < length rs → seg.last_offset ≡ last_from 0 rs
  pub latest : seg.max_timestamp_ms ≡ latest_from 0 rs
  pub indexed : Indexed seg.base_offset rs seg.index

Boundary-snoc :
    (base : ℕ) (rs : List Record) (q : Record) (e : IndexEntry)
    → Boundary base rs e
    → Boundary base (rs ++ (q ∷ [])) e
Boundary-snoc base rs q e (front, r, back, split, pos, rel) =
    (front, r, back ++ (q ∷ []), rw split (append_assoc front (r ∷ back) (q ∷ [])), pos, rel)

All-Boundary-snoc :
    (base : ℕ) (rs : List Record) (q : Record) (entries : List IndexEntry)
    → All (Boundary base rs) entries
    → All (Boundary base (rs ++ (q ∷ []))) entries
All-Boundary-snoc base rs q [] h = tt
All-Boundary-snoc base rs q (e ∷ entries) h =
    (Boundary-snoc base rs q e h.0, All-Boundary-snoc base rs q entries h.1)

StartsAtZero-snoc :
    (rs : List Record) (q : Record) (e : IndexEntry) (entries : List IndexEntry)
    → StartsAtZero rs (e ∷ entries)
    → StartsAtZero (rs ++ (q ∷ [])) (e ∷ entries)
StartsAtZero-snoc [] q e entries h = cc
StartsAtZero-snoc (r ∷ rs) q e entries h = h

-- One more record that is left out of an index that is not empty.
pub Indexed-skip :
    {base : ℕ} {rs : List Record} (q : Record) (e : IndexEntry) (entries : List IndexEntry)
    → Indexed base rs (e ∷ entries)
    → Indexed base (rs ++ (q ∷ [])) (e ∷ entries)
Indexed-skip {base} {rs} q e entries h = record {
  boundaries = All-Boundary-snoc base rs q (e ∷ entries) h.boundaries;
  first = StartsAtZero-snoc rs q e entries h.first;
}

StartsAtZero-hit :
    (rs : List Record) (q : Record) (e : IndexEntry) (entries : List IndexEntry)
    → e.file_position ≡ length (encodes rs)
    → StartsAtZero rs entries
    → StartsAtZero (rs ++ (q ∷ [])) (entries ++ (e ∷ []))
StartsAtZero-hit [] q e [] pos h = pos
StartsAtZero-hit [] q e (f ∷ entries) pos h = absurd (cc)
StartsAtZero-hit (r ∷ rs) q e [] pos h = absurd h
StartsAtZero-hit (r ∷ rs) q e (f ∷ entries) pos h = h

-- One more record that is put into the index.
pub Indexed-hit :
    {base : ℕ} {rs : List Record} (q : Record) (e : IndexEntry) (entries : List IndexEntry)
    → e.file_position ≡ length (encodes rs)
    → e.relative_offset ≡ rel_offset q.offset base
    → Indexed base rs entries
    → Indexed base (rs ++ (q ∷ [])) (entries ++ (e ∷ []))
Indexed-hit {base} {rs} q e entries pos rel h = record {
  boundaries =
      All-append (Boundary base (rs ++ (q ∷ []))) entries (e ∷ [])
        (All-Boundary-snoc base rs q entries h.boundaries) ((rs, q, [], refl, pos, rel), tt);
  first = StartsAtZero-hit rs q e entries pos h.first;
}

-- A segment over empty files holds nothing.
pub init-Holds : (base interval : ℕ) → Holds (init base interval [] [] none) []
unfolding init update
init-Holds base interval = record {
  contents = refl;
  records = tt;
  fits = omega arith;
  size = refl;
  crc = refl;
  count = refl;
  last = λ h. absurd (omega arith);
  latest = refl;
  indexed = record { boundaries = tt; first = refl };
}
