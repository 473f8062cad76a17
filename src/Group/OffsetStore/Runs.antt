-- ===== src/Group/OffsetStore/Runs.antt =====
-- Concrete commits, and the theorems on them.
use stream_forge.Base.{◌≡◌, refl, List, [], ◌∷◌, some, arith, flatten}
use stream_forge.Base.Strings.{Name}
use stream_forge.Base.Decimal.{digits}
use stream_forge.Status.{done}
use stream_forge.Storage.RecordCodec.{Record}
use stream_forge.Storage.Partition.{Partition}
use stream_forge.Storage.Partition.Append.{good}
use stream_forge.Group.OffsetStore.{
  OffsetCommitItem, OffsetStore, put_items, commit, open_and_recover,
}
use stream_forge.Group.OffsetStore.Key.{make_key, parse_key, parse_key-make_key}
use stream_forge.Group.OffsetStore.Replay.{replay, open_and_recover-replay}
use stream_forge.Group.OffsetStore.Durable.{IsCommitItem, Synced, commit-Synced}
use stream_forge.Group.OffsetStore.Samples.{host, blank, store, store-Synced}

abbrev group : Name
group = b'g' ∷ []

parse_key-make_key_example :
    parse_key (make_key (b'g' ∷ b'1' ∷ []) (b't' ∷ []) 65535)
    ≡ some (b'g' ∷ b'1' ∷ [], b't' ∷ [], 65535)
parse_key-make_key_example =
    parse_key-make_key b'g' (b'1' ∷ []) b't' [] 65535 (refl, (refl, tt)) (refl, tt) (omega arith)

abbrev item : OffsetCommitItem
item = record { topic = b't' ∷ []; partition = 2; offset = 70; timestamp_ms = 1000 }

item-IsCommitItem : IsCommitItem b'g' [] item
unfolding make_key digits
item-IsCommitItem = record {
  first = b't';
  others = [];
  topic = refl;
  no_pipe = (refl, tt);
  partition_fits = omega arith;
  offset_fits = omega arith;
  timestamp_fits = omega arith;
  key_fits = omega arith;
}

commit-Synced_example :
    (store' : OffsetStore) × (p' : Partition) × (rss' : List (List Record)) × (commit store group
        (item ∷ item ∷ [])
        1000
        (λ j. good)
      ≡ (store', done tt))
    × (store'.cache ≡ put_items group (item ∷ item ∷ []) [])
    × Synced store' p' 0 rss'
    × (open_and_recover store'.offsets_partition ≡ done store')
commit-Synced_example =
    commit-Synced b'g' [] store blank 0 1000 ([] ∷ []) item (item ∷ []) (refl, tt) store-Synced
      (item-IsCommitItem, (item-IsCommitItem, tt)) (omega arith) (omega arith) (omega arith)

committed :
    (store' : OffsetStore) × (p' : Partition) × (rss' : List (List Record)) × (commit store group
        (item ∷ [])
        1000
        (λ j. good)
      ≡ (store', done tt))
    × (store'.cache ≡ put_items group (item ∷ []) [])
    × Synced store' p' 0 rss'
    × (open_and_recover store'.offsets_partition ≡ done store')
committed =
    commit-Synced b'g' [] store blank 0 1000 ([] ∷ []) item [] (refl, tt) store-Synced
      (item-IsCommitItem, tt) (omega arith) (omega arith) (omega arith)

-- What has been committed is loaded.
open_and_recover-replay_example :
    open_and_recover (some committed.1)
    ≡ done
        (record { offsets_partition = some committed.1; cache = replay (flatten committed.2) [] })
open_and_recover-replay_example =
    open_and_recover-replay committed.1 0 committed.2 committed.5.contains committed.5.commits
