-- ===== src/Storage/LogSegment/Read.antt =====
-- Reading a segment of src/LogSegment.cpp that holds records, by their file positions.
use stream_forge.Base.{
  ℕ, ◌+◌, ◌-◌, ◌%◌, ◌^◌, ◌≤◌, ◌<◌, ◌≡◌, ◌⊎◌, refl, sym, ap, ◌∙◌, List, [], ◌∷◌, ◌++◌, some, arith,
  leb, inl, inr, length, take, length-append, append-nil, take-length_append, All, All-get_or_lt,
  All-middle, Bool-cases, subst,
}
use stream_forge.Status.{done}
use stream_forge.Storage.File.{read_at, read_at-append}
use stream_forge.Storage.RecordCodec.{Record, encode, decode, read_u32, max_record_size}
use stream_forge.Storage.RecordCodec.Layout.{IsRecord}
use stream_forge.Storage.RecordCodec.RoundTrip.{length-encode, decode-encode}
use stream_forge.Storage.OffsetIndex.{IndexEntry, no_entry, lookup}
use stream_forge.Storage.OffsetIndex.Lookup.{lookup-cases, entry_at}
use stream_forge.Storage.LogSegment.{LogSegment, read_record_at, lookup_file_position, rel_offset}
use stream_forge.Storage.LogSegment.Contents.{
  encodes, encodes-append, Holds, Boundary, StartsAtZero,
}
use stream_forge.Storage.LogSegment.Scan.Loop.{header-encode}

read_record_at_lem :
    (seg : LogSegment) (pos : ℕ) {header buf : List ℕ} {r : Record}
    → pos < seg.log_size_bytes
    → read_at seg.log_file pos 28 ≡ some header
    → 24 ≤ read_u32 header 0
    → read_u32 header 0 ≤ max_record_size
    → read_at seg.log_file pos (4 + read_u32 header 0) ≡ some buf
    → decode buf ≡ done r
    → read_record_at seg pos ≡ done r
unfolding read_record_at
read_record_at_lem seg pos h e lo hi f d = ground arith

-- A record is read back at the position where it starts.
pub read_record_at-boundary :
    (seg : LogSegment) (front back : List Record) (r : Record)
    → Holds seg (front ++ (r ∷ back))
    → IsRecord r
    → read_record_at seg (length (encodes front)) ≡ done r
read_record_at-boundary seg front back r h v =
    let tail : List ℕ = encode r ++ encodes back in
    let f : seg.log_file ≡ encodes front ++ tail = h.contents ∙ encodes-append front (r ∷ back) in
    let n : length seg.log_file ≡ length (encodes front) + length tail =
      ap length f ∙ length-append (encodes front) tail in
    let s : seg.log_size_bytes ≡ length seg.log_file = h.size ∙ ap length (sym h.contents) in
    let m : length tail ≡ length (encode r) + length (encodes back) =
      length-append (encode r) (encodes back) in
    let e : length (encode r) ≡ 28 + length r.key + length r.value = length-encode r in
    let l : read_u32 (take 28 tail) 0 ≡ 24 + length r.key + length r.value =
      header-encode r (encodes back) v in
    let t : 4 + read_u32 (take 28 tail) 0 ≡ length (encode r) = omega arith in
    let b : read_at (encodes front ++ tail) (length (encodes front)) (4 + read_u32 (take 28 tail) 0)
        ≡ some (encode r) =
      rw t (
        read_at-append (encodes front) tail (length (encode r)) (omega arith)
        ∙ ap some (take-length_append (encode r) (encodes back))) in
    read_record_at_lem seg (length (encodes front)) {header = take 28 tail} {buf = encode r}
      (omega arith) (rw f (read_at-append (encodes front) tail 28 (omega arith))) (omega arith)
      (omega (arith, v.size_fits)) (rw f b) (rw append-nil at (decode-encode r [] v))

-- The position is that of a record, which is read there. It is the first record, or its offset is not
-- above the target, as the index has them: relative to the base offset, in 32 bits.
abbrev pub ReadsRecord : LogSegment → List Record → ℕ → ℕ → Type 0
ReadsRecord seg rs target pos =
    (front : List Record) × (r : Record) × (back : List Record) × (rs ≡ front ++ (r ∷ back))
    × (pos ≡ length (encodes front))
    × ((front ≡ []) ⊎ (rel_offset r.offset seg.base_offset ≤ (target - seg.base_offset) % 2 ^ 32))
    × (read_record_at seg pos ≡ done r)

read_at_boundary :
    (seg : LogSegment) (rs front back : List Record) (r : Record) (pos : ℕ)
    → Holds seg rs
    → rs ≡ front ++ (r ∷ back)
    → pos ≡ length (encodes front)
    → read_record_at seg pos ≡ done r
read_at_boundary seg rs front back r pos h split e =
    let h' : Holds seg (front ++ (r ∷ back)) = subst (Holds seg) split h in
    rw e (read_record_at-boundary seg front back r h' (All-middle IsRecord front r back h'.records))

reads_first :
    (seg : LogSegment) (q : Record) (rs : List Record) (target pos : ℕ)
    → Holds seg (q ∷ rs)
    → pos ≡ 0
    → ReadsRecord seg (q ∷ rs) target pos
reads_first seg q rs target pos h e =
    ([], q, rs, refl, e, inl refl, read_at_boundary seg (q ∷ rs) [] rs q pos h refl e)

reads_entry :
    (seg : LogSegment) (rs : List Record) (e : IndexEntry) (target : ℕ)
    → Holds seg rs
    → Boundary seg.base_offset rs e
    → e.relative_offset ≤ (target - seg.base_offset) % 2 ^ 32
    → ReadsRecord seg rs target e.file_position
reads_entry seg rs e target h (front, r, back, split, pos, rel) le = (
  front,
  r,
  back,
  split,
  pos,
  inr (rw rel at le),
  read_at_boundary seg rs front back r e.file_position h split pos,
)

indexed_lookup :
    (seg : LogSegment) (q : Record) (rs : List Record) (target : ℕ) (entries : List IndexEntry)
    → Holds seg (q ∷ rs)
    → All (Boundary seg.base_offset (q ∷ rs)) entries
    → StartsAtZero (q ∷ rs) entries
    → ReadsRecord seg (q ∷ rs) target (lookup entries ((target - seg.base_offset) % 2 ^ 32))
indexed_lookup seg q rs target [] h b z = absurd z
indexed_lookup seg q rs target (e ∷ entries) h b z =
    elim (lookup-cases e entries ((target - seg.base_offset) % 2 ^ 32)) [
      | inl same ↦ reads_first seg q rs target _ h (same ∙ z)
      | inr (j, lt, same, le) ↦ subst (ReadsRecord seg (q ∷ rs) target) (sym same) (
          reads_entry seg (q ∷ rs) (entry_at (e ∷ entries) j) target h
            (All-get_or_lt (Boundary seg.base_offset (q ∷ rs)) (e ∷ entries) j no_entry lt b) le)
    ]

-- In a segment that holds records, whatever offset is looked up, the file position that is found is
-- that of a record, and reading there gives this record. It is the first record, or its offset is not
-- above the one looked up, both taken relative to the base offset and in 32 bits as in the index.
pub read_record_at-lookup_file_position :
    (seg : LogSegment) (q : Record) (rs : List Record) (target : ℕ)
    → Holds seg (q ∷ rs)
    → ReadsRecord seg (q ∷ rs) target (lookup_file_position seg target)
unfolding lookup_file_position
read_record_at-lookup_file_position seg q rs target h =
    elim (Bool-cases (leb target seg.base_offset)) [
      | inl first ↦ rw first (reads_first seg q rs target 0 h refl)
      | inr inside ↦
          rw inside
            (indexed_lookup seg q rs target seg.index h h.indexed.boundaries h.indexed.first)
    ]
