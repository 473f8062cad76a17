-- ===== src/Storage/Partition/Seek.antt =====
-- Where the lookup of an offset lands in a segment of a partition, and what the loop of
-- src/Partition.cpp reads from there.
use stream_forge.Base.{
  ℕ, zero, suc, ◌+◌, ◌-◌, ◌%◌, ◌^◌, ◌≤◌, ◌<◌, ◌≡◌, refl, sym, ap, ◌∙◌, List, [], ◌∷◌, ◌++◌, arith,
  All, All-get_or_lt, All-middle, length, length-append, append_assoc, append-nil, subst, ltb, leb,
  ge→ltb, lt→ltb, if◌then◌else◌, Bool-cases, inl, inr,
}
use stream_forge.Status.{done}
use stream_forge.Storage.RecordCodec.{Record, encode}
use stream_forge.Storage.RecordCodec.Layout.{IsRecord}
use stream_forge.Storage.RecordCodec.RoundTrip.{length-encode}
use stream_forge.Storage.OffsetIndex.{IndexEntry, no_entry, lookup}
use stream_forge.Storage.OffsetIndex.Lookup.{lookup-cases, entry_at}
use stream_forge.Storage.LogSegment.{LogSegment, read_record_at, lookup_file_position, rel_offset}
use stream_forge.Storage.LogSegment.Contents.{
  encodes, encodes-append, encodes-snoc, length-encodes, Holds, Boundary, StartsAtZero,
}
use stream_forge.Storage.LogSegment.Read.{read_record_at-boundary}
use stream_forge.Storage.Partition.{record_size}
use stream_forge.Storage.Partition.Contents.{Numbered, Piece}
use stream_forge.Storage.Partition.Read.{
  Read, ReadStep, next_segment, returned, Limits, push, is_enough, read_segment,
}

abbrev pub Before : ℕ → List Record → Type 0
Before start rs = All (λ r. r.offset < start) rs

pub Numbered-Before :
    (n start : ℕ) (rs : List Record) → Numbered n rs → n + length rs ≤ start → Before start rs
Numbered-Before n start [] h e = tt
Numbered-Before n start (r ∷ rs) h e =
    let k = h.0 in (omega arith, Numbered-Before (n + 1) start rs h.1 (omega arith))

pub Numbered-append :
    (n : ℕ) (xs ys : List Record)
    → Numbered n (xs ++ ys)
    → Numbered n xs × Numbered (n + length xs) ys
Numbered-append n [] ys h = (tt, subst (λ k. Numbered k ys) (omega arith) h)
Numbered-append n (x ∷ xs) ys h =
    let (a, b) = Numbered-append (n + 1) xs ys h.1 in
    ((h.0, a), subst (λ k. Numbered k ys) (omega arith) b)

pub Numbered-join :
    (n : ℕ) (xs ys : List Record)
    → Numbered n xs
    → Numbered (n + length xs) ys
    → Numbered n (xs ++ ys)
Numbered-join n [] ys h k = subst (λ m. Numbered m ys) (omega arith) k
Numbered-join n (x ∷ xs) ys h k =
    (h.0, Numbered-join (n + 1) xs ys h.1 (subst (λ m. Numbered m ys) (omega arith) k))

-- At a boundary, behind records that come before the offset.
pub record Lands (rs : List Record) (start pos : ℕ) : Type 0 where
  pub front : List Record
  pub back : List Record
  pub split : rs ≡ front ++ back
  pub stands : pos ≡ length (encodes front)
  pub before : Before start front

at_start : (rs : List Record) (start pos : ℕ) → pos ≡ 0 → Lands rs start pos
at_start rs start pos e = record { front = []; back = rs; split = refl; stands = e; before = tt }

-- An entry that is not above the target.
Lands-entry :
    (n : ℕ) (seg : LogSegment) (rs : List Record) (start : ℕ) (e : IndexEntry)
    → Piece n seg rs
    → Boundary n rs e
    → n ≤ start
    → e.relative_offset ≤ (start - n) % 2 ^ 32
    → start < n + 2 ^ 32
    → Lands rs start e.file_position
Lands-entry n seg rs start e p (front, r, back, split, pos, rel) le small near =
    let numbered : Numbered n (front ++ (r ∷ back)) = subst (Numbered n) split p.numbered in
    let (a, b) = Numbered-append n front (r ∷ back) numbered in
    let o : r.offset ≡ n + length front = b.0 in
    let l : length rs ≡ length front + length (r ∷ back) =
      ap length split ∙ length-append front (r ∷ back) in
    let m = length-encodes rs in
    let f = p.holds.fits in
    let k : rel_offset r.offset n ≡ length front = omega arith in
    record {
      front = front;
      back = r ∷ back;
      split = split;
      stands = pos;
      before = Numbered-Before n start front a (omega arith);
    }

Lands-index :
    (n : ℕ) (seg : LogSegment) (rs : List Record) (start : ℕ) (entries : List IndexEntry)
    → Piece n seg rs
    → All (Boundary n rs) entries
    → StartsAtZero rs entries
    → n ≤ start
    → start < n + 2 ^ 32
    → Lands rs start (lookup entries ((start - n) % 2 ^ 32))
Lands-index n seg rs start [] p b z le near = at_start rs start _ (unfold lookup in refl)
Lands-index n seg [] start (e ∷ entries) p b z le near = absurd cc
Lands-index n seg (q ∷ rs) start (e ∷ entries) p b z le near =
    elim (lookup-cases e entries ((start - n) % 2 ^ 32)) [
      | inl same ↦ at_start (q ∷ rs) start _ (same ∙ z)
      | inr (j, lt, same, small) ↦ subst (Lands (q ∷ rs) start) (sym same) (
          Lands-entry n seg (q ∷ rs) start (entry_at (e ∷ entries) j) p
            (All-get_or_lt (Boundary n (q ∷ rs)) (e ∷ entries) j no_entry lt b) le small near)
    ]

-- The lookup of an offset lands at a boundary, and skips only records before the offset.
pub lookup-Lands :
    (n : ℕ) (seg : LogSegment) (rs : List Record) (start : ℕ)
    → Piece n seg rs
    → start < n + 2 ^ 32
    → Lands rs start (lookup_file_position seg start)
unfolding lookup_file_position
lookup-Lands n seg rs start p near =
    let b = p.base in
    elim (Bool-cases (leb start seg.base_offset)) [
      | inl first ↦ rw first (at_start rs start 0 refl)
      | inr inside ↦
          let le : n ≤ start = ground arith in
          rw inside (
            subst (λ k. Lands rs start (lookup seg.index ((start - k) % 2 ^ 32))) (sym b)
              (Lands-index n seg rs start seg.index p
                (subst (λ k. All (Boundary k rs) seg.index) b p.holds.indexed.boundaries)
                p.holds.indexed.first le near))
    ]

-- What the loop does with the records themselves.
abbrev pub run : ℕ → Limits → Read → List Record → ReadStep
run start limits acc [] = next_segment acc
run start limits acc (r ∷ rs) =
    let skip = run start limits acc rs in
    let rest = run start limits (push acc r) rs in
    if ltb r.offset start
    then skip
    else if is_enough limits (push acc r)
    then returned ((push acc r).records, done tt)
    else rest

read_end :
    (fuel : ℕ) (seg : LogSegment) (start : ℕ) (limits : Limits) (pos : ℕ) (acc : Read)
    → seg.log_size_bytes ≤ pos
    → read_segment (suc fuel) seg start limits pos acc ≡ next_segment acc
unfolding read_segment
read_end fuel seg start limits pos acc h = rw (ge→ltb pos seg.log_size_bytes h) refl

read_step :
    (fuel : ℕ) (seg : LogSegment) (start : ℕ) (limits : Limits) (pos pos' : ℕ) (acc : Read)
    (r : Record) (back : List Record)
    → pos < seg.log_size_bytes
    → read_record_at seg pos ≡ done r
    → (pos + record_size r.key r.value) % 2 ^ 64 ≡ pos'
    → ((acc' : Read) → read_segment fuel seg start limits pos' acc' ≡ run start limits acc' back)
    → read_segment (suc fuel) seg start limits pos acc ≡ run start limits acc (r ∷ back)
unfolding read_segment
read_step fuel seg start limits pos pos' acc r back h d e go =
    rw (lt→ltb pos seg.log_size_bytes h, d, e, go acc, go (push acc r)) refl

-- The loop from a boundary on, with fuel for every record and one more.
pub read_segment-run :
    (fuel : ℕ) (seg : LogSegment) (start : ℕ) (limits : Limits) (front back : List Record)
    (acc : Read)
    → Holds seg (front ++ back)
    → length back < fuel
    → read_segment fuel seg start limits (length (encodes front)) acc ≡ run start limits acc back
read_segment-run zero seg start limits front back acc h f = absurd (omega arith)
read_segment-run (suc fuel) seg start limits front [] acc h f =
    read_end fuel seg start limits _ acc (rw h.size (rw append-nil (omega arith)))
read_segment-run (suc fuel) seg start limits front (r ∷ back) acc h f =
    let v : IsRecord r = All-middle IsRecord front r back h.records in
    let e : encodes (front ++ (r ∷ back)) ≡ encodes front ++ (encode r ++ encodes back) =
      encodes-append front (r ∷ back) in
    let l : length (encodes (front ++ (r ∷ back)))
        ≡ length (encodes front) + (length (encode r) + length (encodes back)) =
      ap length e
      ∙ length-append (encodes front) (encode r ++ encodes back)
      ∙ ap (λ k. length (encodes front) + k) (length-append (encode r) (encodes back)) in
    let n : length (encode r) ≡ 28 + length r.key + length r.value = length-encode r in
    let k : length (encodes (front ++ (r ∷ []))) ≡ length (encodes front) + length (encode r) =
      ap length (encodes-snoc front r) ∙ length-append (encodes front) (encode r) in
    let s : record_size r.key r.value ≡ 28 + length r.key + length r.value =
      omega (arith, v.size_fits) in
    read_step fuel seg start limits (length (encodes front)) (length (encodes (front ++ (r ∷ []))))
      acc r back (omega (arith, h.size)) (read_record_at-boundary seg front back r h v)
      (omega (arith, h.fits))
      (λ acc'.
        read_segment-run fuel seg start limits (front ++ (r ∷ [])) back acc'
          (subst (Holds seg) (sym (append_assoc front (r ∷ []) back)) h) (omega arith))
