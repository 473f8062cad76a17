-- ===== src/Storage/LogSegment/Recovery.antt =====
-- Recovery of a segment (src/LogSegment.cpp) keeps every whole record and cuts off a torn one.

use stream_forge.Base.{
  ℕ, ◌+◌, ◌-◌, ◌%◌, ◌^◌, ◌≤◌, ◌<◌, ◌≡◌, refl, sym, ap, ◌∙◌, List, [], ◌∷◌, ◌++◌, arith, append-nil,
  append_assoc, false, ◌||◌, ltb, leb, if◌then◌else◌, length, length-append, length-take, take,
  take-length_append, take_all, All, All-append, Bool-cases, inl, inr, ltb→ge,
}
use stream_forge.Status.{done}
use stream_forge.Storage.Crc32.{initial_crc, update, update-append}
use stream_forge.Storage.RecordCodec.{Record, encode, max_record_size}
use stream_forge.Storage.RecordCodec.Layout.{IsRecord}
use stream_forge.Storage.File.{WriteOutcome, written, failed, truncate}
use stream_forge.Storage.LogSegment.{
  LogSegment, is_empty, append_with_timestamp, index_record, count_record, rel_offset,
}
use stream_forge.Storage.OffsetIndex.{IndexEntry, add_entry, append_to_file, rewrite_file}
use stream_forge.Storage.LogSegment.Contents.{
  encodes, encodes-append, encodes-snoc, length-encodes, last_from, last_from-snoc, latest_from,
  latest_from-snoc, next_from, Holds, Indexed,
}
use stream_forge.Storage.LogSegment.Append.{
  add_entry-Indexed, skip-Indexed, stamped, append-failed, append-written,
}
use stream_forge.Storage.LogSegment.Scan.{
  Scan, start, note, scan, finish, scan_file, recover_and_rebuild_index, verify_and_rebuild_full,
}
use stream_forge.Storage.LogSegment.Scan.Loop.{notes, scan-torn}

-- Where the record of the last entry starts.
abbrev pub last_start : List IndexEntry → ℕ
last_start [] = 0
last_start (e ∷ []) = e.file_position
last_start (e ∷ f ∷ entries) = last_start (f ∷ entries)

last_start-add_entry :
    (entries : List IndexEntry) (rel pos : ℕ) → last_start (add_entry entries rel pos) ≡ pos
unfolding add_entry
last_start-add_entry [] rel pos = refl
last_start-add_entry (e ∷ []) rel pos = refl
last_start-add_entry (e ∷ f ∷ entries) rel pos = last_start-add_entry (f ∷ entries) rel pos

-- The scan variables after the records `rs` of a file.
record Noted (base : ℕ) (rs : List Record) (s : Scan) : Type 0 where
  pos : s.current_pos ≡ length (encodes rs)
  crc : s.running_crc_raw ≡ update initial_crc (encodes rs)
  count : s.record_count ≡ length rs
  last : s.last_offset ≡ last_from base rs
  latest : s.max_timestamp_ms ≡ latest_from 0 rs
  next : s.next_offset ≡ next_from base rs
  indexed : Indexed base rs s.index
  since : s.bytes_since_idx + last_start s.index ≡ length (encodes rs)

start-Noted : (base : ℕ) → Noted base [] (start base)
unfolding start update
start-Noted base = record {
  pos = refl;
  crc = refl;
  count = refl;
  last = refl;
  latest = refl;
  next = refl;
  indexed = record { boundaries = tt; first = refl };
  since = refl;
}

next_from-snoc :
    (n : ℕ) (rs : List Record) (r : Record) → next_from n (rs ++ (r ∷ [])) ≡ (r.offset + 1) % 2 ^ 64
next_from-snoc n [] r = refl
next_from-snoc n (q ∷ rs) r = next_from-snoc ((q.offset + 1) % 2 ^ 64) rs r

note-Indexed :
    (base interval : ℕ) (rs : List Record) (s : Scan) (r : Record)
    → s.current_pos ≡ length (encodes rs)
    → Indexed base rs s.index
    → Indexed base (rs ++ (r ∷ [])) (note base interval s r (encode r)).index
unfolding note
note-Indexed base interval rs s r pos h =
    elim (Bool-cases (is_empty s.index || leb interval s.bytes_since_idx)) [
      | inl hit ↦ rw hit (add_entry-Indexed rs r s.index s.current_pos pos h)
      | inr skip ↦ rw skip (skip-Indexed rs r s.index _ skip h)
    ]

note-since :
    (base interval n : ℕ) (s : Scan) (r : Record)
    → n + length (encode r) < 2 ^ 32
    → s.current_pos ≡ n
    → s.bytes_since_idx + last_start s.index ≡ n
    → (note base interval s r (encode r)).bytes_since_idx
        + last_start (note base interval s r (encode r)).index
      ≡ n + length (encode r)
unfolding note
note-since base interval n s r small pos h =
    elim (Bool-cases (is_empty s.index || leb interval s.bytes_since_idx)) [
      | inl hit ↦
          rw (hit, last_start-add_entry s.index (rel_offset r.offset base) s.current_pos)
            (omega arith)
      | inr skip ↦ rw skip (omega arith)
    ]

note-Noted :
    (base interval : ℕ) (rs : List Record) (s : Scan) (r : Record)
    → length (encodes rs) + length (encode r) < 2 ^ 32
    → Noted base rs s
    → Noted base (rs ++ (r ∷ [])) (note base interval s r (encode r))
unfolding note
note-Noted base interval rs s r small h =
    let len : length (encodes (rs ++ (r ∷ []))) ≡ length (encodes rs) + length (encode r) =
      ap length (encodes-snoc rs r) ∙ length-append (encodes rs) (encode r) in
    let n : length (rs ++ (r ∷ [])) ≡ length rs + 1 = length-append rs (r ∷ []) in
    record {
      pos = rw (len, h.pos) (omega arith);
      crc = rw (encodes-snoc, update-append, h.crc);
      count = rw (n, h.count) (omega (arith, length-encodes rs));
      last = sym (last_from-snoc base rs r);
      latest = rw (latest_from-snoc, h.latest);
      next = sym (next_from-snoc base rs r);
      indexed = note-Indexed base interval rs s r h.pos h.indexed;
      since = note-since base interval (length (encodes rs)) s r small h.pos h.since ∙ sym len;
    }

notes-Noted :
    (base interval : ℕ) (qs rs : List Record) (s : Scan)
    → length (encodes (qs ++ rs)) < 2 ^ 32
    → Noted base qs s
    → Noted base (qs ++ rs) (notes base interval s rs)
notes-Noted base interval qs [] s small h = rw append-nil h
notes-Noted base interval qs (r ∷ rs) s small h =
    let e : (qs ++ (r ∷ [])) ++ rs ≡ qs ++ (r ∷ rs) = append_assoc qs (r ∷ []) rs in
    let n = length-append (encodes qs) (encodes (r ∷ rs)) in
    let m = length-append (encode r) (encodes rs) in
    let l : length (encodes (qs ++ (r ∷ rs)))
        ≡ length (encodes qs) + (length (encode r) + length (encodes rs)) =
      ap length (encodes-append qs (r ∷ rs)) ∙ n ∙ ap (λ k. length (encodes qs) + k) m in
    rw (← e) (
      notes-Noted base interval (qs ++ (r ∷ [])) rs _ (rw (← e) at small)
        (note-Noted base interval qs s r (omega arith) h))

kept :
    (file xs tail : List ℕ) (pos size : ℕ)
    → file ≡ xs ++ tail
    → pos ≡ length xs
    → size ≡ length file
    → (if ltb pos size then truncate file pos else file) ≡ xs
unfolding truncate
kept file xs tail pos size e p q =
    let t : take pos file ≡ xs = rw (p, e) (take-length_append xs tail) in
    elim (Bool-cases (ltb pos size)) [
      | inl torn ↦ rw torn t
      | inr whole ↦ rw whole (sym (take_all pos file (omega (arith, ltb→ge _ _ whole))) ∙ t)
    ]

last_from_any : (d e : ℕ) (rs : List Record) → 0 < length rs → last_from d rs ≡ last_from e rs
last_from_any d e [] h = absurd (omega arith)
last_from_any d e (r ∷ rs) h = refl

-- What `recover_and_rebuild_index` leaves when the log holds `rs` and then perhaps a torn tail.
finish-Holds :
    (seg : LogSegment) (rs : List Record) (tail : List ℕ) (s : Scan) (o : WriteOutcome)
    → seg.log_file ≡ encodes rs ++ tail
    → length seg.log_file < 2 ^ 32
    → All IsRecord rs
    → Noted seg.base_offset rs s
    → Holds (finish seg s o) rs
unfolding finish
finish-Holds seg rs tail s o e small vs h =
    let n : length seg.log_file ≡ length (encodes rs) + length tail =
      ap length e ∙ length-append (encodes rs) tail in
    let m : length seg.log_file % 2 ^ 32 ≡ length seg.log_file = omega arith in
    record {
      contents =
          kept seg.log_file (encodes rs) tail s.current_pos (length seg.log_file % 2 ^ 32) e h.pos
            m;
      records = vs;
      fits = omega arith;
      size = ground (arith, h.pos);
      crc = h.crc;
      count = h.count;
      last = λ some_record. h.last ∙ last_from_any seg.base_offset 0 rs some_record;
      latest = h.latest;
      indexed = h.indexed;
    }

Noted-file :
    (base interval : ℕ) (rs : List Record)
    → length (encodes rs) < 2 ^ 32
    → Noted base rs (notes base interval (start base) rs)
Noted-file base interval rs small =
    notes-Noted base interval [] rs (start base) small (start-Noted base)

-- A scan of a file that holds `rs` and then a proper prefix of a record.
scan_file-torn :
    (seg : LogSegment) (rs : List Record) (r : Record) (n : ℕ)
    → seg.log_file ≡ encodes rs ++ take n (encode r)
    → length seg.log_file < 2 ^ 32
    → All IsRecord rs
    → IsRecord r
    → n < length (encode r)
    → scan_file seg
      ≡ done (notes seg.base_offset seg.index_interval_bytes (start seg.base_offset) rs, ltb 0 n)
unfolding scan_file
scan_file-torn seg rs r n e small vs v h =
    let m : length seg.log_file % 2 ^ 32 ≡ length seg.log_file = omega arith in
    let l : length seg.log_file ≡ length (encodes rs) + n =
      ap length e
      ∙ length-append (encodes rs) (take n (encode r))
      ∙ ap (λ k. length (encodes rs) + k) (omega (arith, length-take n (encode r))) in
    let f : length seg.log_file ≡ length rs + (length seg.log_file - length rs) =
      omega (arith, length-encodes rs) in
    let k : n ≤ length seg.log_file - length rs = omega (arith, length-encodes rs) in
    rw m (
      ap
        (λ j.
          scan seg.base_offset seg.index_interval_bytes j seg.log_file (length seg.log_file)
            (start seg.base_offset))
        f
      ∙ scan-torn seg.base_offset seg.index_interval_bytes (length seg.log_file - length rs) rs r n
          (start seg.base_offset) seg.log_file e small vs v h k (unfold start in refl))

module _ (seg : LogSegment) (rs : List Record) (r : Record) (n : ℕ) (o : WriteOutcome)
    (e : seg.log_file ≡ encodes rs ++ take n (encode r)) (small : length seg.log_file < 2 ^ 32)
    (vs : All IsRecord rs) (v : IsRecord r) (h : n < length (encode r)) where
  recovered : Scan
  recovered = notes seg.base_offset seg.index_interval_bytes (start seg.base_offset) rs

  recovered-Noted : Noted seg.base_offset rs recovered
  unfolding recovered
  recovered-Noted =
      Noted-file seg.base_offset seg.index_interval_bytes rs
        (omega (arith, ap length e, length-append (encodes rs) (take n (encode r))))

  recovered-Holds : Holds (finish seg recovered o) rs
  recovered-Holds = finish-Holds seg rs (take n (encode r)) recovered o e small vs recovered-Noted

  found_torn :
      recover_and_rebuild_index seg o ≡ done (finish seg recovered o, next_from seg.base_offset rs)
  unfolding recover_and_rebuild_index recovered
  found_torn =
      rw (scan_file-torn seg rs r n e small vs v h, recover_and_rebuild_index)
        (ap (λ k. done (finish seg recovered o, k)) recovered-Noted.next)

  -- A log file below 4 GiB that holds whole records and then a proper prefix of one more, perhaps
  -- empty, is recovered to exactly the whole records, with the next offset after the last of them.
  -- The bytes since the last index entry are counted from the record of this entry on, and the index
  -- file is written anew from the index.
  pub recover_torn :
      (seg' : LogSegment) × (recover_and_rebuild_index seg o
        ≡ done (seg', next_from seg.base_offset rs))
      × Holds seg' rs
      × (seg'.bytes_since_last_index + last_start seg'.index ≡ length (encodes rs))
      × (seg'.index_file ≡ (rewrite_file seg'.index seg.index_file o).0)
  unfolding finish
  recover_torn = (finish seg recovered o, found_torn, recovered-Holds, recovered-Noted.since, refl)

  -- The full verification keeps the same records, counts them and their bytes, and reports one
  -- corruption if there is a torn tail and none otherwise.
  pub verify_torn :
      (seg' : LogSegment) × (verify_and_rebuild_full seg o
        ≡ done (seg', length (encodes rs), length rs, if ltb 0 n then 1 else 0))
      × Holds seg' rs
  unfolding verify_and_rebuild_full recovered
  verify_torn = (
    finish seg recovered o,
    rw (
      scan_file-torn seg rs r n e small vs v h,
      verify_and_rebuild_full,
      recovered-Noted.pos,
      recovered-Noted.count,
    ),
    recovered-Holds,
  )

index_record-log_file :
    (seg : LogSegment) (r : Record) (pos n : ℕ) (o : WriteOutcome)
    → (index_record seg r pos n o).0.log_file ≡ seg.log_file
unfolding index_record append_to_file
index_record-log_file seg r pos n written = ground arith
index_record-log_file seg r pos n (failed k) = ground arith

append-log_file :
    (seg : LogSegment) (q : Record) (ts : ℕ) (o : WriteOutcome)
    → seg.is_sealed ≡ false
    → length (encode (stamped q ts)) ≤ max_record_size
    → (append_with_timestamp seg q ts written o).0.log_file ≡ seg.log_file ++ encode (stamped q ts)
unfolding count_record
append-log_file seg q ts o unsealed fits =
    rw (append-written seg q ts o unsealed fits) (index_record-log_file _ _ _ _ o)

-- If the write of a record to the log stops before its last byte, a recovery of the segment finds the
-- records before it; if all its bytes are written, the recovery finds these and the new one, whatever
-- becomes of the write to the index after it.
pub append_then_recover :
    (seg : LogSegment) (rs : List Record) (q : Record) (ts n : ℕ) (o p : WriteOutcome)
    → Holds seg rs
    → seg.is_sealed ≡ false
    → IsRecord (stamped q ts)
    → length (encode (stamped q ts)) ≤ max_record_size
    → length (encodes rs) + length (encode (stamped q ts)) < 2 ^ 32
    → n < length (encode (stamped q ts))
    → ((seg' : LogSegment) × (recover_and_rebuild_index
            (append_with_timestamp seg q ts (failed n) o).0
            p
          ≡ done (seg', next_from seg.base_offset rs))
        × Holds seg' rs)
      × ((seg' : LogSegment) × (recover_and_rebuild_index
              (append_with_timestamp seg q ts written o).0
              p
            ≡ done (seg', (q.offset + 1) % 2 ^ 64))
          × Holds seg' (rs ++ (stamped q ts ∷ [])))
append_then_recover seg rs q ts n o p h unsealed v fits small cut = (torn, whole)
  where
    r : Record
    r = stamped q ts

    file-cut : length (seg.log_file ++ take n (encode r)) < 2 ^ 32
    file-cut = omega (
      arith,
      length-append seg.log_file (take n (encode r)),
      length-take n (encode r),
      ap length h.contents,
    )

    torn :
        (seg' : LogSegment) × (recover_and_rebuild_index
            (append_with_timestamp seg q ts (failed n) o).0
            p
          ≡ done (seg', next_from seg.base_offset rs))
        × Holds seg' rs
    torn = rw (append-failed seg q ts n o unsealed fits) (
        let (seg', e, k, i, w) =
          recover_torn (record seg { log_file = seg.log_file ++ take n (encode r) }) rs r n p
            (ap (λ f. f ++ take n (encode r)) h.contents) file-cut h.records v cut in
        (seg', e, k))

    grown : LogSegment
    grown = (append_with_timestamp seg q ts written o).0

    file : grown.log_file ≡ encodes (rs ++ (r ∷ []))
    file =
        append-log_file seg q ts o unsealed fits
        ∙ ap (λ f. f ++ encode r) h.contents
        ∙ sym (encodes-snoc rs r)

    whole :
        (seg' : LogSegment) × (recover_and_rebuild_index grown p
          ≡ done (seg', (q.offset + 1) % 2 ^ 64))
        × Holds seg' (rs ++ (r ∷ []))
    whole =
        let len : length grown.log_file < 2 ^ 32 = omega (
          arith,
          ap length file,
          ap length (encodes-snoc rs r),
          length-append (encodes rs) (encode r),
        ) in
        let (seg', e, k, i, w) =
          recover_torn grown (rs ++ (r ∷ [])) r 0 p
            (file ∙ sym (append-nil (encodes (rs ++ (r ∷ []))))) len
            (All-append IsRecord rs (r ∷ []) h.records (v, tt)) v (omega arith) in
        (seg', e ∙ ap (λ k. done (seg', k)) (next_from-snoc grown.base_offset rs r), k)
