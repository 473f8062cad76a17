-- ===== src/Group/OffsetStore.antt =====
-- src/OffsetStore.cpp: the committed offsets, a table whose changes are records of the partition 0 of an
-- internal topic. The store has that partition, which is the topic's own object: a broker that has both
-- puts it back into the topic after a commit (Server/Handler/GroupRequests).
pub mod Key
pub mod Replay
pub mod Durable
pub mod Samples
mod Runs
use stream_forge.Base.{
  ℕ, zero, suc, ◌+◌, ◌-◌, ◌*◌, ◌/◌, ◌%◌, ◌^◌, List, [], ◌∷◌, ◌++◌, Bool, Option, none, some, ltb,
  ◌==◌, not, if◌then◌else◌, length,
}
use stream_forge.Base.Strings.{Name, find, put}
use stream_forge.Status.{StatusCode, Result, done, error, fault}
use stream_forge.Wire.ByteOrder.{ByteOrder}
use stream_forge.Wire.FrameCodec.{read_u32, write_u32}
use stream_forge.Storage.RecordCodec.{Record}
use stream_forge.Storage.Partition.{Partition, Disk, BatchItem, append_batch, earliest_offset}
use stream_forge.Storage.Partition.Read.{Limits, ReadResult, read}
use Key.{make_key, parse_key}

pub record OffsetCommitItem : Type 0 where
  pub topic : Name
  pub partition : ℕ
  pub offset : ℕ
  pub timestamp_ms : ℕ

-- Both are bit patterns of an int64_t.
pub record OffsetEntry : Type 0 where
  pub offset : ℕ
  pub timestamp_ms : ℕ

abbrev pub entry_for : OffsetCommitItem → OffsetEntry
entry_for item = record { offset = item.offset; timestamp_ms = item.timestamp_ms }

abbrev pub Cache : Type 0
Cache = List (Name × OffsetEntry)

-- The partition is a shared_ptr in the source, to the partition 0 of the topic of this name that the
-- topic manager has. Here it is a value: what a commit does to it is put into the topic by the broker
-- (`IsShared` in Server/Handler/Sharing says that the two are the same).
pub record OffsetStore : Type 0 where
  pub offsets_partition : Option Partition
  pub cache : Cache

abbrev pub internal_offsets_topic : Name
internal_offsets_topic =
    b'_' ∷ b'_' ∷ b'c' ∷ b'o' ∷ b'n' ∷ b's' ∷ b'u' ∷ b'm' ∷ b'e' ∷ b'r' ∷ b'_' ∷ b'o' ∷ b'f' ∷ b'f'
    ∷ b's' ∷ b'e' ∷ b't' ∷ b's' ∷ []

-- m_cache[key_str] for each item
unfoldable pub put_items : Name → List OffsetCommitItem → Cache → Cache
put_items group_id [] cache = cache
put_items group_id (item ∷ items) cache =
    put_items group_id items
      (put (make_key group_id item.topic item.partition) (entry_for item) cache)

module _ ⦃net : ByteOrder⦄ where
  abbrev pub u64_bytes : ℕ → List ℕ
  u64_bytes v = write_u32 (v / 2 ^ 32) ++ write_u32 (v % 2 ^ 32)

  -- The offset and the timestamp, each in two words.
  unfoldable pub value_bytes : OffsetCommitItem → List ℕ
  value_bytes item = u64_bytes item.offset ++ u64_bytes item.timestamp_ms

  -- The i-th append finds the disk `disks i`.
  unfoldable pub make_batch : Name → ℕ → (ℕ → Disk) → List OffsetCommitItem → List BatchItem
  make_batch group_id i disks [] = []
  make_batch group_id i disks (item ∷ items) =
      record {
        key = make_key group_id item.topic item.partition;
        value = value_bytes item;
        disk = disks i;
      }
      ∷ make_batch group_id (i + 1) disks items

  -- The store once the batch has been appended, or not.
  unfoldable pub after_append :
      OffsetStore
      → Name
      → List OffsetCommitItem
      → Partition × Result ℕ
      → OffsetStore × Result (Unit {0})
  after_append store group_id items (p, done base) =
      (record { offsets_partition = some p; cache = put_items group_id items store.cache }, done tt)
  after_append store group_id items (p, error s) =
      (record store { offsets_partition = some p }, error s)
  after_append store group_id items (p, fault) =
      (record store { offsets_partition = some p }, fault)

  -- At the time `now_ms` of the append.
  unfoldable pub commit :
      OffsetStore → Name → List OffsetCommitItem → ℕ → (ℕ → Disk) → OffsetStore × Result (Unit {0})
  commit store group_id [] now_ms disks = (store, done tt)
  commit store group_id (item ∷ items) now_ms disks = elim store.offsets_partition [
    | none ↦ (store, error StatusCode.io_error)
    | some p ↦
        after_append store group_id (item ∷ items)
          (append_batch p (make_batch group_id 0 disks (item ∷ items)) now_ms)
  ]

  abbrev pub read_u64 : List ℕ → ℕ → ℕ
  read_u64 p i = read_u32 p i * 2 ^ 32 + read_u32 p (i + 4)

  unfoldable pub entry_of : List ℕ → OffsetEntry
  entry_of value = record { offset = read_u64 value 0; timestamp_ms = read_u64 value 8 }

  -- The records of one read, with the offset to go on from.
  unfoldable pub load_records : List Record → Cache → ℕ → Result (Cache × ℕ)
  load_records [] cache curr_offset = done (cache, curr_offset)
  load_records (rec ∷ records) cache curr_offset =
      let rest =
        load_records records (put rec.key (entry_of rec.value) cache) ((rec.offset + 1) % 2 ^ 64) in
      elim (parse_key rec.key) [
        | none ↦ error StatusCode.corrupt
        | some key ↦ if length rec.value == 16 then rest else error StatusCode.corrupt
      ]

  abbrev pub read_limits : Limits
  read_limits = record { max_messages = 1000; max_bytes = 1024 * 1024 }

  -- What a read has brought, and the offset to go on from; `none` ends the loop.
  unfoldable pub load_read : Cache → ℕ → ReadResult → Result (Cache × Option ℕ)
  load_read cache curr_offset (records, error s) = error StatusCode.corrupt
  load_read cache curr_offset (records, fault) = fault
  load_read cache curr_offset ([], done u) = done (cache, none)
  load_read cache curr_offset (r ∷ records, done u) =
      elim (load_records (r ∷ records) cache curr_offset) [
        | done (cache', curr_offset') ↦ done (cache', some curr_offset')
        | error s ↦ error s
        | fault ↦ fault
      ]

  -- A round goes on by one offset at least, so that as many rounds as there are offsets, and one more,
  -- are enough: out of fuel there is a fault.
  unfoldable pub load_from : ℕ → Partition → Cache → ℕ → Result Cache
  load_from zero p cache curr_offset = fault
  load_from (suc fuel) p cache curr_offset =
      if ltb curr_offset p.next_offset
      then elim (load_read cache curr_offset (read p curr_offset read_limits)) [
        | done (cache', some curr_offset') ↦ load_from fuel p cache' curr_offset'
        | done (cache', none) ↦ done cache'
        | error s ↦ error s
        | fault ↦ fault
      ]
      else done cache

  -- What the manager has as the partition 0 of the internal topic, once that has been created.
  unfoldable pub open_and_recover : Option Partition → Result OffsetStore
  open_and_recover none = error StatusCode.io_error
  open_and_recover (some p) =
      elim (load_from (suc (p.next_offset - earliest_offset p)) p [] (earliest_offset p)) [
        | done cache ↦ done (record { offsets_partition = some p; cache = cache })
        | error s ↦ error s
        | fault ↦ fault
      ]

-- The offset, or -1.
unfoldable pub get : OffsetStore → Name → Name → ℕ → ℕ
get store group_id topic partition = elim (find (make_key group_id topic partition) store.cache) [
  | some e ↦ e.offset
  | none ↦ 0xffff_ffff_ffff_ffff
]

unfoldable pub loaded_keys_count : OffsetStore → ℕ
loaded_keys_count store = length store.cache
