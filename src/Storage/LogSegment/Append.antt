-- ===== src/Storage/LogSegment/Append.antt =====
-- `append` of src/LogSegment.cpp adds one record to the contents of its segment, or none.

use stream_forge.Base.{
  ℕ, ◌+◌, ◌%◌, ◌^◌, ◌≤◌, ◌<◌, ◌≡◌, refl, sym, ap, ◌∙◌, List, [], ◌∷◌, ◌++◌, arith, Bool, true,
  false, ◌||◌, leb, length, length-append, length-take, take, All, All-append, Bool-cases, inl, inr,
  ge→ltb,
}
use stream_forge.Status.{StatusCode}
use stream_forge.Storage.Crc32.{initial_crc, update, update-append}
use stream_forge.Storage.RecordCodec.{Record, encode, max_record_size}
use stream_forge.Storage.RecordCodec.Layout.{IsRecord}
use stream_forge.Storage.RecordCodec.RoundTrip.{length-encode}
use stream_forge.Storage.File.{WriteOutcome, written, failed}
use stream_forge.Storage.OffsetIndex.{IndexEntry, add_entry, append_to_file}
use stream_forge.Storage.LogSegment.{
  LogSegment, rel_offset, is_empty, count_record, index_record, append_with_timestamp,
}
use stream_forge.Storage.LogSegment.Contents.{
  encodes, encodes-snoc, length-encodes, last_from, last_from-snoc, latest_from, latest_from-snoc,
  Holds, Indexed, Indexed-skip, Indexed-hit,
}

abbrev pub stamped : Record → ℕ → Record
stamped r ts = record r { timestamp_ms = ts }

pub append-written :
    (seg : LogSegment) (r : Record) (ts : ℕ) (o : WriteOutcome)
    → seg.is_sealed ≡ false
    → length (encode (stamped r ts)) ≤ max_record_size
    → append_with_timestamp seg r ts written o
      ≡ index_record
          (count_record
            (record seg { log_file = seg.log_file ++ encode (stamped r ts) })
            (stamped r ts)
            (encode (stamped r ts)))
          (stamped r ts)
          seg.log_size_bytes
          (length (encode (stamped r ts)))
          o
unfolding append_with_timestamp
append-written seg r ts o unsealed h =
    rw (unsealed, ge→ltb max_record_size (length (encode (stamped r ts))) h)

-- The counters after the record has reached the file; the index still lacks it.
record Counted (seg : LogSegment) (rs : List Record) (q : Record) : Type 0 where
  contents : seg.log_file ≡ encodes (rs ++ (q ∷ []))
  records : All IsRecord (rs ++ (q ∷ []))
  fits : length (encodes (rs ++ (q ∷ []))) < 2 ^ 32
  size : seg.log_size_bytes ≡ length (encodes (rs ++ (q ∷ [])))
  crc : seg.running_crc_raw ≡ update initial_crc (encodes (rs ++ (q ∷ [])))
  count : seg.record_count ≡ length (rs ++ (q ∷ []))
  last : seg.last_offset ≡ last_from 0 (rs ++ (q ∷ []))
  latest : seg.max_timestamp_ms ≡ latest_from 0 (rs ++ (q ∷ []))
  indexed : Indexed seg.base_offset rs seg.index

count_record-Counted :
    (seg : LogSegment) (rs : List Record) (q : Record)
    → Holds seg rs
    → IsRecord q
    → length (encodes rs) + length (encode q) < 2 ^ 32
    → Counted (count_record (record seg { log_file = seg.log_file ++ encode q }) q (encode q)) rs q
unfolding count_record
count_record-Counted seg rs q h v small =
    let len : length (encodes (rs ++ (q ∷ []))) ≡ length (encodes rs) + length (encode q) =
      ap length (encodes-snoc rs q) ∙ length-append (encodes rs) (encode q) in
    let n : length (rs ++ (q ∷ [])) ≡ length rs + 1 = length-append rs (q ∷ []) in
    record {
      contents = rw (encodes-snoc, h.contents);
      records = All-append IsRecord rs (q ∷ []) h.records (v, tt);
      fits = omega arith;
      size = rw (len, h.size) (omega arith);
      crc = rw (encodes-snoc, update-append, h.crc);
      count = rw (n, h.count) (omega (arith, length-encodes rs));
      last = sym (last_from-snoc 0 rs q);
      latest = rw (latest_from-snoc, h.latest);
      indexed = h.indexed;
    }

Counted-Holds :
    (seg : LogSegment) (rs : List Record) (q : Record) (entries : List IndexEntry) (file : List ℕ)
    (n : ℕ)
    → Counted seg rs q
    → Indexed seg.base_offset (rs ++ (q ∷ [])) entries
    → Holds
        (record seg { index = entries; index_file = file; bytes_since_last_index = n })
        (rs ++ (q ∷ []))
Counted-Holds seg rs q entries file n c i = record {
  contents = c.contents;
  records = c.records;
  fits = c.fits;
  size = c.size;
  crc = c.crc;
  count = c.count;
  last = λ _. c.last;
  latest = c.latest;
  indexed = i;
}

index_record_hit :
    (seg : LogSegment) (q : Record) (pos n : ℕ)
    → (is_empty seg.index || leb seg.index_interval_bytes seg.bytes_since_last_index) ≡ true
    → index_record seg q pos n written ≡ (
      record seg {
        index = add_entry seg.index (rel_offset q.offset seg.base_offset) pos;
        index_file =
            (append_to_file seg.index seg.index_file
              (rel_offset q.offset seg.base_offset)
              pos
              written).1;
        bytes_since_last_index = 0;
      },
      StatusCode.ok,
    )
unfolding index_record append_to_file
index_record_hit seg q pos n t = rw t

index_record_skip :
    (seg : LogSegment) (q : Record) (pos n : ℕ) (o : WriteOutcome)
    → (is_empty seg.index || leb seg.index_interval_bytes seg.bytes_since_last_index) ≡ false
    → index_record seg q pos n o ≡ (
      record seg { bytes_since_last_index = (seg.bytes_since_last_index + n) % 2 ^ 32 },
      StatusCode.ok,
    )
unfolding index_record
index_record_skip seg q pos n o t = rw t

pub add_entry-Indexed :
    {base : ℕ} (rs : List Record) (q : Record) (entries : List IndexEntry) (pos : ℕ)
    → pos ≡ length (encodes rs)
    → Indexed base rs entries
    → Indexed base (rs ++ (q ∷ [])) (add_entry entries (rel_offset q.offset base) pos)
unfolding add_entry
add_entry-Indexed rs q entries pos e h = Indexed-hit q _ entries e refl h

pub skip-Indexed :
    {base : ℕ} (rs : List Record) (q : Record) (entries : List IndexEntry) (t : Bool)
    → (is_empty entries || t) ≡ false
    → Indexed base rs entries
    → Indexed base (rs ++ (q ∷ [])) entries
unfolding is_empty
skip-Indexed rs q [] t e h = cc
skip-Indexed rs q (f ∷ entries) t e h = Indexed-skip q f entries h

index_record-Holds :
    (seg : LogSegment) (rs : List Record) (q : Record) (pos n : ℕ)
    → pos ≡ length (encodes rs)
    → Counted seg rs q
    → (Holds (index_record seg q pos n written).0 (rs ++ (q ∷ [])))
      × ((index_record seg q pos n written).1 ≡ StatusCode.ok)
index_record-Holds seg rs q pos n e c =
    elim (Bool-cases
      (is_empty seg.index || leb seg.index_interval_bytes seg.bytes_since_last_index)) [
        | inl hit ↦ rw (index_record_hit seg q pos n hit) (
          Counted-Holds seg rs q _ _ 0 c (add_entry-Indexed rs q seg.index pos e c.indexed),
          refl,
        )
        | inr skip ↦
            rw (index_record_skip seg q pos n written skip)
              (Counted-Holds seg rs q _ _ _ c (skip-Indexed rs q seg.index _ skip c.indexed), refl)
      ]

-- An append whose writes succeed adds the record, with its new timestamp, to the contents.
pub append-Holds :
    (seg : LogSegment) (rs : List Record) (q : Record) (ts : ℕ)
    → Holds seg rs
    → seg.is_sealed ≡ false
    → IsRecord (stamped q ts)
    → length (encode (stamped q ts)) ≤ max_record_size
    → length (encodes rs) + length (encode (stamped q ts)) < 2 ^ 32
    → Holds (append_with_timestamp seg q ts written written).0 (rs ++ (stamped q ts ∷ []))
      × ((append_with_timestamp seg q ts written written).1 ≡ StatusCode.ok)
append-Holds seg rs q ts h unsealed v fits small =
    rw (append-written seg q ts written unsealed fits) (
      index_record-Holds _ rs (stamped q ts) _ _ h.size
        (count_record-Counted seg rs (stamped q ts) h v small))

pub append-failed :
    (seg : LogSegment) (q : Record) (ts n : ℕ) (o : WriteOutcome)
    → seg.is_sealed ≡ false
    → length (encode (stamped q ts)) ≤ max_record_size
    → append_with_timestamp seg q ts (failed n) o ≡ (
      record seg { log_file = seg.log_file ++ take n (encode (stamped q ts)) },
      StatusCode.io_error,
    )
unfolding append_with_timestamp
append-failed seg q ts n o unsealed h =
    rw (unsealed, ge→ltb max_record_size (length (encode (stamped q ts))) h)

-- A defect: a write that fails after some of its bytes have reached the file leaves the segment
-- with a log file that is longer than its recorded size. No list of records describes the segment
-- any more, and the next record will not stand where the index and the readers look for it.
pub append_partial_write :
    (seg : LogSegment) (rs qs : List Record) (q : Record) (ts n : ℕ) (o : WriteOutcome)
    → Holds seg rs
    → seg.is_sealed ≡ false
    → length (encode (stamped q ts)) ≤ max_record_size
    → 0 < n
    → ¬ Holds (append_with_timestamp seg q ts (failed n) o).0 qs
append_partial_write seg rs qs q ts n o h unsealed fits pos bad =
    let b = rw (append-failed seg q ts n o unsealed fits) at bad in
    let e : length seg.log_file + length (take n (encode (stamped q ts))) ≡ length seg.log_file =
      sym (length-append seg.log_file _)
      ∙ ap length b.contents
      ∙ sym b.size
      ∙ h.size
      ∙ ap length (sym h.contents) in
    omega (arith, length-take n (encode (stamped q ts)), length-encode (stamped q ts))
