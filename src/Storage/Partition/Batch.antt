-- ===== src/Storage/Partition/Batch.antt =====
-- What `append_batch` of src/Partition.cpp does to the contents.
use stream_forge.Base.{
  ℕ, ◌+◌, ◌^◌, ◌≤◌, ◌<◌, ◌≡◌, refl, sym, ap, ◌∙◌, List, [], ◌∷◌, ◌++◌, false, arith, All, length,
  flatten, append_assoc, append-nil, ge→ltb,
}
use stream_forge.Status.{done}
use stream_forge.Storage.RecordCodec.{Record, max_record_size}
use stream_forge.Storage.Partition.{
  Partition, BatchItem, any_too_large, continue, append_record, append_with_timestamp, append_all,
  append_batch, record_size,
}
use stream_forge.Storage.Partition.Contents.{Contains}
use stream_forge.Storage.Partition.Append.{good, new_record, append_with_timestamp-Appended}

-- An item that may be appended: not too large, and on a disk on which everything goes well.
pub record IsItem (item : BatchItem) : Type 0 where
  pub fits : 28 + length item.key + length item.value ≤ max_record_size
  pub on_good : item.disk ≡ good

-- The records of a batch, under consecutive offsets.
abbrev pub batch_records : ℕ → ℕ → List BatchItem → List Record
batch_records n now_ms [] = []
batch_records n now_ms (item ∷ batch) =
    record { offset = n; timestamp_ms = now_ms; key = item.key; value = item.value }
    ∷ batch_records (n + 1) now_ms batch

append_record_lem :
    (p : Partition) (item : BatchItem) (now_ms : ℕ)
    → IsItem item
    → append_record p item.key item.value now_ms item.disk
      ≡ append_with_timestamp p item.key item.value now_ms good
unfolding append_with_timestamp
append_record_lem p item now_ms h =
    let f = h.fits in
    rw (ge→ltb max_record_size (record_size item.key item.value) (omega arith), h.on_good) refl

none_too_large : (batch : List BatchItem) → All IsItem batch → any_too_large batch ≡ false
none_too_large [] h = refl
none_too_large (item ∷ batch) h =
    let f = h.0.fits in
    rw
      (
        ge→ltb max_record_size (record_size item.key item.value) (omega arith),
        none_too_large batch h.1,
      )
      refl

-- The partition after a batch.
pub record Batched (p p' : Partition) (n now_ms : ℕ) (rss : List (List Record))
    (batch : List BatchItem) : Type 0 where
  pub pieces : List (List Record)
  pub contains : Contains p' n pieces
  pub all_there : flatten pieces ≡ flatten rss ++ batch_records p.next_offset now_ms batch
  pub next : p'.next_offset ≡ p.next_offset + length batch

append_all-Batched :
    (p : Partition) (n now_ms base : ℕ) (rss : List (List Record)) (batch : List BatchItem)
    → Contains p n rss
    → All IsItem batch
    → now_ms < 2 ^ 64
    → p.next_offset + length batch < 2 ^ 64
    → p.config.segment_max_bytes < 2 ^ 32
    → (p' : Partition) × (append_all batch p now_ms base ≡ (p', done base))
      × Batched p p' n now_ms rss batch
unfolding append_all new_record
append_all-Batched p n now_ms base rss [] c h time room below = (
  p,
  refl,
  record {
    pieces = rss;
    contains = c;
    all_there = sym (append-nil (flatten rss));
    next = omega arith;
  },
)
append_all-Batched p n now_ms base rss (item ∷ batch) c h time room below =
    let (q, e, d) =
      append_with_timestamp-Appended p n rss c item.key item.value now_ms h.0.fits time
        (omega arith) below in
    let (p', f, b) =
      append_all-Batched q n now_ms base d.pieces batch d.contains h.1 time (omega (arith, d.next))
        (rw d.same_config below) in
    (
      p',
      ap (λ x. continue x (λ p'. append_all batch p' now_ms base))
            (append_record_lem p item now_ms h.0 ∙ e)
          ∙ f,
      record {
        pieces = b.pieces;
        contains = b.contains;
        all_there =
            b.all_there
            ∙ ap (λ k. flatten d.pieces ++ batch_records k now_ms batch) d.next
            ∙ ap (λ l. l ++ batch_records (p.next_offset + 1) now_ms batch) d.one_more
            ∙ append_assoc (flatten rss) (new_record p item.key item.value now_ms ∷ [])
                (batch_records (p.next_offset + 1) now_ms batch);
        next = omega (arith, d.next, b.next);
      },
    )

-- A batch that is not empty, each item of which fits, is appended as a whole: its records follow the
-- contents under consecutive offsets, the first of which is returned. (Segments stay below 4 GiB,
-- offsets do not overflow, and everything goes well on the disk.)
pub append_batch-Batched :
    (p : Partition) (n now_ms : ℕ) (rss : List (List Record)) (item : BatchItem)
    (batch : List BatchItem)
    → Contains p n rss
    → All IsItem (item ∷ batch)
    → now_ms < 2 ^ 64
    → p.next_offset + length (item ∷ batch) < 2 ^ 64
    → p.config.segment_max_bytes < 2 ^ 32
    → (p' : Partition) × (append_batch p (item ∷ batch) now_ms ≡ (p', done p.next_offset))
      × Batched p p' n now_ms rss (item ∷ batch)
unfolding append_batch
append_batch-Batched p n now_ms rss item batch c h time room below =
    rw (none_too_large (item ∷ batch) h)
      (append_all-Batched p n now_ms p.next_offset rss (item ∷ batch) c h time room below)
