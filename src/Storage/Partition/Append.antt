-- ===== src/Storage/Partition/Append.antt =====
-- What an append of src/Partition.cpp does to the contents.
use stream_forge.Base.{
  ℕ, ◌+◌, ◌%◌, ◌^◌, ◌≤◌, ◌<◌, ◌≡◌, refl, sym, ap, ◌∙◌, List, [], ◌∷◌, ◌++◌, Bool, false, none, some,
  arith, ◌&&◌, length, flatten, subst, ltb, ge→ltb, if◌then◌else◌, Bool-cases, inl, inr,
}
use stream_forge.Status.{StatusCode, done}
use stream_forge.Storage.RecordCodec.{Record, max_record_size}
use stream_forge.Storage.RecordCodec.Layout.{IsRecord}
use stream_forge.Storage.RecordCodec.RoundTrip.{length-encode}
use stream_forge.Storage.File.{written}
use stream_forge.Storage.LogSegment
use stream_forge.Storage.LogSegment.{LogSegment, init, open_segment, seal, write_sealed_marker}
use stream_forge.Storage.LogSegment.Contents.{encodes, Holds, init-Holds}
use stream_forge.Storage.LogSegment.Append.{append-Holds}
use stream_forge.Storage.LogSegment.Sealing.{
  open_segment-init, init-fields, sealed-Holds, sealed-fields, sealed_status, append-fields,
}
use stream_forge.Storage.Partition.{
  Partition, Disk, opened, set_active, roll_segment, first_segment, roll_if_full, append_to_active,
  if_ok, append_record, append_with_timestamp, record_size,
}
use stream_forge.Storage.Partition.Contents.{
  Contains, Active, Chain-Active, snoc_last, Chain-flatten, flatten-append, active_segment-append,
}

-- A disk on which everything goes well, and the files of a new segment are new.
abbrev pub good : Disk
good = record { opening = opened [] [] none; marker = written; log = written; index = written }

module _ (p : Partition) (n : ℕ) (rss : List (List Record)) (c : Contains p n rss) where
  active : Active n p.next_offset p.segments rss
  active = Chain-Active c.chain

  first_segment_lem : first_segment p good ≡ (p, StatusCode.ok)
  unfolding first_segment
  first_segment_lem = rw (first_segment, active.found) refl

  rolled : Partition
  rolled = record p {
    segments =
        set_active p.segments (write_sealed_marker (seal active.seg) written).0
        ++ (init p.next_offset p.config.index_interval_bytes [] [] none ∷ []);
  }

  roll_segment_lem : roll_segment p good ≡ (rolled, StatusCode.ok)
  unfolding roll_segment rolled
  roll_segment_lem =
      rw
        (
          roll_segment,
          active.found,
          open_segment-init p.next_offset p.config.index_interval_bytes,
          sealed_status active.seg,
        )
        refl

  rolled-Contains : Contains rolled n (rss ++ ([] ∷ []))
  unfolding rolled
  rolled-Contains = record {
    chain =
        let i = init-fields p.next_offset p.config.index_interval_bytes in
        let s = sealed-fields active.seg written in
        active.roll (write_sealed_marker (seal active.seg) written).0 _ s.0
          (sealed-Holds active.seg active.held written active.piece.holds) s.1 i.0
          (init-Holds p.next_offset p.config.index_interval_bytes) i.1;
    room = c.room;
  }

  module _ (r : Record) (v : IsRecord r)
      (fits : 28 + length r.key + length r.value ≤ max_record_size)
      (offset : r.offset ≡ p.next_offset) (more : p.next_offset + 1 < 2 ^ 64)
      (small : length (encodes active.held) + (28 + length r.key + length r.value) < 2 ^ 32) where
    taken : LogSegment
    taken = (LogSegment.append_with_timestamp active.seg r r.timestamp_ms written written).0

    appended : Partition
    unfolding taken
    appended = record p { segments = set_active p.segments taken; next_offset = p.next_offset + 1 }

    taken-Holds :
        Holds taken (active.held ++ (r ∷ []))
        × ((LogSegment.append_with_timestamp active.seg r r.timestamp_ms written written).1
            ≡ StatusCode.ok)
    unfolding taken
    taken-Holds =
        append-Holds active.seg active.held r r.timestamp_ms active.piece.holds active.unsealed v
          (omega (arith, length-encode r)) (omega (arith, length-encode r))

    append_to_active_lem : append_to_active p r good ≡ (appended, done p.next_offset)
    unfolding append_to_active appended taken
    append_to_active_lem =
        let w : (p.next_offset + 1) % 2 ^ 64 ≡ p.next_offset + 1 = omega arith in
        rw (append_to_active, active.found, taken-Holds.1, w) refl

    appended-Contains : Contains appended n (snoc_last rss r)
    unfolding appended taken
    appended-Contains = record {
      chain =
          let f = append-fields active.seg r r.timestamp_ms written written in
          active.grow taken r f.0 taken-Holds.0 (f.1 ∙ active.unsealed) offset;
      room = more;
    }

unfoldable pub new_record : Partition → List ℕ → List ℕ → ℕ → Record
new_record p key value ts = record {
  offset = p.next_offset;
  timestamp_ms = ts;
  key = key;
  value = value;
}

-- The partition after an append, and what it contains.
pub record Appended (p p' : Partition) (n : ℕ) (rss : List (List Record)) (r : Record)
    : Type 0 where
  pub pieces : List (List Record)
  pub contains : Contains p' n pieces
  pub one_more : flatten pieces ≡ flatten rss ++ (r ∷ [])
  pub next : p'.next_offset ≡ p.next_offset + 1
  pub same_config : p'.config ≡ p.config

module _ (p : Partition) (n : ℕ) (key value : List ℕ) (ts : ℕ)
    (fits : 28 + length key + length value ≤ max_record_size) (time : ts < 2 ^ 64)
    (more : p.next_offset + 1 < 2 ^ 64) where
  new_record-IsRecord : IsRecord (new_record p key value ts)
  unfolding new_record
  new_record-IsRecord = record {
    offset_fits = omega arith;
    timestamp_fits = time;
    size_fits = omega arith;
  }

  into_active :
      (rss : List (List Record)) (c : Contains p n rss)
      → (active p n rss c).seg.log_size_bytes + (28 + length key + length value) < 2 ^ 32
      → (p' : Partition) × (append_to_active p (new_record p key value ts) good
          ≡ (p', done p.next_offset))
        × Appended p p' n rss (new_record p key value ts)
  unfolding new_record
  into_active rss c small =
      let r : Record = new_record p key value ts in
      let v = new_record-IsRecord in
      let a = active p n rss c in
      let s : length (encodes a.held) + (28 + length key + length value) < 2 ^ 32 =
        subst (λ k. k + (28 + length key + length value) < 2 ^ 32) a.piece.holds.size small in
      (
        appended p n rss c r v fits refl more s,
        append_to_active_lem p n rss c r v fits refl more s,
        record {
          pieces = snoc_last rss r;
          contains = appended-Contains p n rss c r v fits refl more s;
          one_more = Chain-flatten r c.chain;
          next = unfold appended in refl;
          same_config = unfold appended in refl;
        },
      )

record_size_lem :
    (key value : List ℕ)
    → 28 + length key + length value ≤ max_record_size
    → record_size key value ≡ 28 + length key + length value
record_size_lem key value h = omega arith

some_injective : {s t : LogSegment} → some s ≡ some t → s ≡ t
some_injective e = cc

-- Is there no room in the active segment?
is_full : Partition → LogSegment → ℕ → Bool
is_full p a size =
    ltb 0 a.log_size_bytes && ltb p.config.segment_max_bytes ((a.log_size_bytes + size) % 2 ^ 64)

module _ (p : Partition) (n : ℕ) (rss : List (List Record)) (c : Contains p n rss)
    (key value : List ℕ) (ts : ℕ) (fits : 28 + length key + length value ≤ max_record_size) where
  a : LogSegment
  a = (active p n rss c).seg

  roll_if_full_lem :
      (size : ℕ)
      → roll_if_full p size good
        ≡ (if is_full p a size then roll_segment p good else (p, StatusCode.ok))
  unfolding is_full a active roll_if_full
  roll_if_full_lem size = rw (roll_if_full, (active p n rss c).found) refl

  goes_on :
      append_with_timestamp p key value ts good
      ≡ if_ok
          (if is_full p a (record_size key value) then roll_segment p good else (p, StatusCode.ok))
          (λ q. append_to_active q (new_record q key value ts) good)
  unfolding append_with_timestamp append_record new_record
  goes_on =
      let s : ltb max_record_size (record_size key value) ≡ false =
        ge→ltb max_record_size (record_size key value) (omega arith) in
      rw (s, first_segment_lem p n rss c, roll_if_full_lem (record_size key value)) refl

  new_active_size :
      (rc : Contains (rolled p n rss c) n (rss ++ ([] ∷ [])))
      → (active (rolled p n rss c) n (rss ++ ([] ∷ [])) rc).seg.log_size_bytes ≡ 0
  unfolding rolled
  new_active_size rc =
      let b = active (rolled p n rss c) n (rss ++ ([] ∷ [])) rc in
      let f =
        active_segment-append
          (set_active p.segments (write_sealed_marker (seal (active p n rss c).seg) written).0)
          (init p.next_offset p.config.index_interval_bytes [] [] none) in
      let e : b.seg ≡ init p.next_offset p.config.index_interval_bytes [] [] none =
        some_injective (sym b.found ∙ f) in
      rw e ((init-Holds p.next_offset p.config.index_interval_bytes).size)

  room_left :
      is_full p a (record_size key value) ≡ false
      → p.config.segment_max_bytes < 2 ^ 32
      → a.log_size_bytes + (28 + length key + length value) < 2 ^ 32
  unfolding is_full a
  room_left e below =
      let s = record_size_lem key value fits in
      let h = (active p n rss c).piece.holds in
      let k : (active p n rss c).seg.log_size_bytes < 2 ^ 32 = omega (arith, h.size, h.fits) in
      ground arith

  -- An append of a record that is not too large, in a partition whose segments stay below 4 GiB and
  -- whose offsets do not overflow, on a disk on which everything goes well, returns the next offset
  -- and adds exactly this record under this offset, whether a new segment is begun or not.
  pub append_with_timestamp-Appended :
      ts < 2 ^ 64
      → p.next_offset + 1 < 2 ^ 64
      → p.config.segment_max_bytes < 2 ^ 32
      → (p' : Partition) × (append_with_timestamp p key value ts good ≡ (p', done p.next_offset))
        × Appended p p' n rss (new_record p key value ts)
  unfolding rolled new_record a
  append_with_timestamp-Appended time room below =
      elim (Bool-cases (is_full p a (record_size key value))) [
        | inl full ↦
            let rc = rolled-Contains p n rss c in
            let q = rolled p n rss c in
            let z = new_active_size rc in
            let (p', e, d) =
              into_active q n key value ts fits time room (rss ++ ([] ∷ [])) rc (omega arith) in
            (
              p',
              goes_on ∙ rw (full, roll_segment_lem p n rss c) e,
              record {
                pieces = d.pieces;
                contains = d.contains;
                one_more =
                    d.one_more
                    ∙ ap (λ l. l ++ (new_record p key value ts ∷ [])) (flatten-append rss);
                next = d.next;
                same_config = d.same_config;
              },
            )
        | inr fine ↦
            let (p', e, d) =
              into_active p n key value ts fits time room rss c (room_left fine below) in
            (p', goes_on ∙ rw fine e, d)
      ]
