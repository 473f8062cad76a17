-- ===== src/Group/OffsetStore/Durable.antt =====
-- Commits of src/OffsetStore.cpp outlive the store: the table is always what recovery would make of the
-- partition.
use stream_forge.Base.{
  ℕ, suc, ◌+◌, ◌/◌, ◌%◌, ◌^◌, ◌<◌, ◌≤◌, ◌≡◌, refl, sym, ap, ◌∙◌, subst, List, [], ◌∷◌, ◌++◌, some,
  arith, length, drop, flatten, All, All-append, append_assoc, length-append, drop-length_append,
  append-nil,
}
use stream_forge.Base.Strings.{Name, put}
use stream_forge.Status.{done}
use stream_forge.Wire.ByteOrder.{ByteOrder}
use stream_forge.Wire.FrameCodec.{read_u32, write_u32}
use stream_forge.Wire.FrameCodec.RoundTrip.{read_u32-write_u32, read_u32-drop, length-write_u32}
use stream_forge.Storage.RecordCodec.{Record}
use stream_forge.Storage.Partition.{Partition, BatchItem}
use stream_forge.Storage.Partition.Contents.{Contains}
use stream_forge.Storage.Partition.Append.{good}
use stream_forge.Storage.Partition.Batch.{IsItem, batch_records, append_batch-Batched}
use stream_forge.Group.OffsetStore.{
  OffsetCommitItem, OffsetStore, Cache, put_items, u64_bytes, value_bytes, make_batch, after_append,
  commit, entry_for, entry_of, read_u64, open_and_recover,
}
use stream_forge.Group.OffsetStore.Key.{NoPipe, make_key, parse_key, parse_key-make_key}
use stream_forge.Group.OffsetStore.Replay.{IsCommit, replay, replay-append, open_and_recover-replay}

-- An item that may be committed for a group: its key can be read back, and its numbers fit.
pub record IsCommitItem (g : ℕ) (gs : Name) (item : OffsetCommitItem) : Type 0 where
  pub first : ℕ
  pub others : Name
  pub topic : item.topic ≡ first ∷ others
  pub no_pipe : NoPipe (first ∷ others)
  pub partition_fits : item.partition < 2 ^ 16
  pub offset_fits : item.offset < 2 ^ 64
  pub timestamp_fits : item.timestamp_ms < 2 ^ 64
  pub key_fits : length (make_key (g ∷ gs) item.topic item.partition) ≤ 1024

module _ ⦃net : ByteOrder⦄ where
  drop_word : (v : ℕ) (rest : List ℕ) → drop 4 (write_u32 v ++ rest) ≡ rest
  drop_word v rest =
      ap (λ n. drop n (write_u32 v ++ rest)) (sym (length-write_u32 v))
      ∙ drop-length_append (write_u32 v) rest

  read_u64_lem : (v : ℕ) (rest : List ℕ) → v < 2 ^ 64 → read_u64 (u64_bytes v ++ rest) 0 ≡ v
  read_u64_lem v rest h =
      let hi : List ℕ = write_u32 (v / 2 ^ 32) in
      let lo : List ℕ = write_u32 (v % 2 ^ 32) in
      let a : read_u32 ((hi ++ lo) ++ rest) 0 ≡ v / 2 ^ 32 =
        rw (append_assoc hi lo rest) (read_u32-write_u32 (v / 2 ^ 32) (lo ++ rest) (omega arith)) in
      let b : read_u32 ((hi ++ lo) ++ rest) 4 ≡ v % 2 ^ 32 = rw (append_assoc hi lo rest) (
        sym (read_u32-drop 4 0 (hi ++ (lo ++ rest)))
        ∙ ap (λ xs. read_u32 xs 0) (drop_word (v / 2 ^ 32) (lo ++ rest))
        ∙ read_u32-write_u32 (v % 2 ^ 32) rest (omega arith)) in
      omega arith

  entry_of-value_bytes :
      (item : OffsetCommitItem)
      → item.offset < 2 ^ 64
      → item.timestamp_ms < 2 ^ 64
      → entry_of (value_bytes item) ≡ entry_for item
  unfolding entry_of value_bytes
  entry_of-value_bytes item h k =
      let xs : List ℕ = u64_bytes item.offset in
      let ys : List ℕ = u64_bytes item.timestamp_ms in
      let a : read_u64 (xs ++ ys) 0 ≡ item.offset = read_u64_lem item.offset ys h in
      let l : length xs ≡ 8 = omega (
        arith,
        length-append (write_u32 (item.offset / 2 ^ 32)) (write_u32 (item.offset % 2 ^ 32)),
        length-write_u32 (item.offset / 2 ^ 32),
        length-write_u32 (item.offset % 2 ^ 32),
      ) in
      let d : drop 8 (xs ++ ys) ≡ ys =
        ap (λ n. drop n (xs ++ ys)) (sym l) ∙ drop-length_append xs ys in
      let z : read_u64 ys 0 ≡ item.timestamp_ms =
        ap (λ l. read_u64 l 0) (sym (append-nil ys)) ∙ read_u64_lem item.timestamp_ms [] k in
      let hi : read_u32 ys 0 ≡ read_u32 (xs ++ ys) 8 =
        ap (λ l. read_u32 l 0) (sym d) ∙ read_u32-drop 8 0 (xs ++ ys) in
      let lo : read_u32 ys 4 ≡ read_u32 (xs ++ ys) 12 =
        ap (λ l. read_u32 l 4) (sym d) ∙ read_u32-drop 8 4 (xs ++ ys) in
      let b : read_u64 (xs ++ ys) 8 ≡ item.timestamp_ms = omega arith in rw (a, b) refl

  module _ (g : ℕ) (gs : Name) (hg : NoPipe (g ∷ gs)) where
    -- What the records of a batch make of a table is what the commit makes of it.
    replay-batch_records :
        (n now_ms i : ℕ) (items : List OffsetCommitItem) (cache : Cache)
        → All (IsCommitItem g gs) items
        → replay (batch_records n now_ms (make_batch (g ∷ gs) i (λ j. good) items)) cache
          ≡ put_items (g ∷ gs) items cache
    unfolding make_batch put_items
    replay-batch_records n now_ms i [] cache h = refl
    replay-batch_records n now_ms i (item ∷ items) cache h =
        ap
          (λ e.
            replay (batch_records (n + 1) now_ms (make_batch (g ∷ gs) (i + 1) (λ j. good) items))
              (put (make_key (g ∷ gs) item.topic item.partition) e cache))
          (entry_of-value_bytes item h.0.offset_fits h.0.timestamp_fits)
        ∙ replay-batch_records (n + 1) now_ms (i + 1) items
            (put (make_key (g ∷ gs) item.topic item.partition) (entry_for item) cache) h.1

    length-value_bytes : (item : OffsetCommitItem) → length (value_bytes item) ≡ 16
    unfolding value_bytes
    length-value_bytes item =
        let u : (v : ℕ) → length (u64_bytes v) ≡ 8 = λ v. omega (
          arith,
          length-append (write_u32 (v / 2 ^ 32)) (write_u32 (v % 2 ^ 32)),
          length-write_u32 (v / 2 ^ 32),
          length-write_u32 (v % 2 ^ 32),
        ) in
        omega (
          arith,
          length-append (u64_bytes item.offset) (u64_bytes item.timestamp_ms),
          u item.offset,
          u item.timestamp_ms,
        )

    batch-IsItem :
        (i : ℕ) (items : List OffsetCommitItem)
        → All (IsCommitItem g gs) items
        → All IsItem (make_batch (g ∷ gs) i (λ j. good) items)
    unfolding make_batch
    batch-IsItem i [] h = tt
    batch-IsItem i (item ∷ items) h = (
      record {
        fits = let k = h.0.key_fits in omega (arith, length-value_bytes item);
        on_good = refl;
      },
      batch-IsItem (i + 1) items h.1,
    )

    batch-IsCommit :
        (n now_ms i : ℕ) (items : List OffsetCommitItem)
        → All (IsCommitItem g gs) items
        → All IsCommit (batch_records n now_ms (make_batch (g ∷ gs) i (λ j. good) items))
    unfolding make_batch
    batch-IsCommit n now_ms i [] h = tt
    batch-IsCommit n now_ms i (item ∷ items) h = (
      record {
        key = (g ∷ gs, h.0.first ∷ h.0.others, item.partition);
        parsed =
            ap (λ t. parse_key (make_key (g ∷ gs) t item.partition)) h.0.topic
            ∙ parse_key-make_key g gs h.0.first h.0.others item.partition hg h.0.no_pipe
                h.0.partition_fits;
        size = length-value_bytes item;
      },
      batch-IsCommit (n + 1) now_ms (i + 1) items h.1,
    )

-- A store on a partition with these contents, whose table is what they make.
pub record Synced ⦃net : ByteOrder⦄ (store : OffsetStore) (p : Partition) (n : ℕ)
    (rss : List (List Record)) : Type 0 where
  pub on : store.offsets_partition ≡ some p
  pub contains : Contains p n rss
  pub commits : All IsCommit (flatten rss)
  pub table : store.cache ≡ replay (flatten rss) []

module _ ⦃net : ByteOrder⦄ where
  length-make_batch :
      (g : Name) (i : ℕ) (items : List OffsetCommitItem)
      → length (make_batch g i (λ j. good) items) ≡ length items
  unfolding make_batch
  length-make_batch g i [] = refl
  length-make_batch g i (item ∷ items) = ap suc (length-make_batch g (i + 1) items)

  -- A commit of items that fit succeeds; the store is then in step with a partition again; and recovery
  -- from this partition gives the very same store. (The group's name is not empty and has no bar,
  -- segments stay below 4 GiB, offsets do not overflow, and everything goes well on the disk.)
  pub commit-Synced :
      (g : ℕ) (gs : Name) (store : OffsetStore) (p : Partition) (n now_ms : ℕ)
      (rss : List (List Record)) (item : OffsetCommitItem) (items : List OffsetCommitItem)
      → NoPipe (g ∷ gs)
      → Synced store p n rss
      → All (IsCommitItem g gs) (item ∷ items)
      → now_ms < 2 ^ 64
      → p.next_offset + length (item ∷ items) < 2 ^ 64
      → p.config.segment_max_bytes < 2 ^ 32
      → (store' : OffsetStore) × (p' : Partition) × (rss' : List (List Record)) × (commit store
            (g ∷ gs)
            (item ∷ items)
            now_ms
            (λ j. good)
          ≡ (store', done tt))
        × (store'.cache ≡ put_items (g ∷ gs) (item ∷ items) store.cache)
        × Synced store' p' n rss'
        × (open_and_recover store'.offsets_partition ≡ done store')
  unfolding commit after_append make_batch
  commit-Synced g gs store p n now_ms rss item items hg s h time room below =
      let group : Name = g ∷ gs in
      let batch : List BatchItem = make_batch group 0 (λ j. good) (item ∷ items) in
      let (p', e, b) =
        append_batch-Batched p n now_ms rss
          (record {
            key = make_key group item.topic item.partition;
            value = value_bytes item;
            disk = good;
          })
          (make_batch group 1 (λ j. good) items) s.contains
          (batch-IsItem g gs hg 0 (item ∷ items) h) time
          (omega (arith, length-make_batch group 1 items)) below in
      let table' : put_items group (item ∷ items) store.cache ≡ replay (flatten b.pieces) [] =
        sym (replay-batch_records g gs hg p.next_offset now_ms 0 (item ∷ items) store.cache h)
        ∙ ap (replay (batch_records p.next_offset now_ms batch)) s.table
        ∙ sym (replay-append (flatten rss) (batch_records p.next_offset now_ms batch) [])
        ∙ ap (λ rs. replay rs []) (sym b.all_there) in
      let commits' : All IsCommit (flatten b.pieces) = subst (All IsCommit) (sym b.all_there) (
        All-append IsCommit (flatten rss) _ s.commits
          (batch-IsCommit g gs hg p.next_offset now_ms 0 (item ∷ items) h)) in
      (
        record { offsets_partition = some p'; cache = put_items group (item ∷ items) store.cache },
        p',
        b.pieces,
        rw (commit, s.on) (ap (after_append store group (item ∷ items)) e),
        refl,
        record { on = refl; contains = b.contains; commits = commits'; table = table' },
        open_and_recover-replay p' n b.pieces b.contains commits'
            ∙ ap (λ cache. done (record { offsets_partition = some p'; cache = cache }))
                (sym table'),
      )
