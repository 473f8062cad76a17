-- ===== src/Server/Handler/Sharing.antt =====
-- The partition of the offset store and the first one of the topic of the offsets, which are one object
-- in the source: when the two of a broker are the same, and what src/MessageHandler.cpp does to them.
use stream_forge.Base.{
  ℕ, ◌≡◌, ◌⊎◌, refl, sym, ◌∙◌, inl, inr, List, [], ◌∷◌, Option, none, some, get_elem?, Option-cases,
}
use stream_forge.Base.Strings.{Name, find-put}
use stream_forge.Status.{Result, done, error, fault}
use stream_forge.Wire.ByteOrder.{ByteOrder}
use stream_forge.Storage.Partition.{Partition, Disk, append_batch}
use stream_forge.Topics.{Topic}
use stream_forge.Topics.Manager.{TopicManager, get_topic}
use stream_forge.Group.Coordinator.{Coordinator, Outcome}
use stream_forge.Group.Coordinator.Commit
use stream_forge.Group.Coordinator.Commit.{OffsetCommitRequestEntry, after_check, persisted}
use stream_forge.Group.OffsetStore
use stream_forge.Group.OffsetStore.{
  OffsetStore, OffsetCommitItem, internal_offsets_topic, make_batch, after_append,
}
use stream_forge.Server.Handler.{Broker}
use stream_forge.Server.Handler.GroupRequests.{put_offsets, share_offsets}

-- A null pointer is `none`.
abbrev pub first_partition : Option Topic → Option Partition
first_partition none = none
first_partition (some t) = get_elem? t.partitions 0

-- The store has the partition of the topic.
abbrev pub IsShared : Broker → Type 0
IsShared b =
    b.offsets.offsets_partition ≡ first_partition (get_topic b.topics internal_offsets_topic)

-- A store keeps its partition or has it changed, but never gets or loses one.
abbrev pub Kept : Option Partition → Option Partition → Type 0
Kept o o' = (o' ≡ o) ⊎ ((p : Partition) × (p' : Partition) × (o ≡ some p) × (o' ≡ some p'))

put_first :
    (tm : TopicManager) (p q : Partition) (t : Topic) (ps : List Partition)
    → t.partitions ≡ ps
    → get_elem? ps 0 ≡ some p
    → some q ≡ first_partition (get_topic (put_offsets tm q (some t)) internal_offsets_topic)
unfolding get_topic
put_first tm p q t [] e h = absurd cc
put_first tm p q t (r ∷ ps) e h = rw (find-put internal_offsets_topic _ tm.topics, e) refl

put_offsets-first :
    (tm : TopicManager) (p q : Partition) (found : Option Topic)
    → first_partition found ≡ some p
    → some q ≡ first_partition (get_topic (put_offsets tm q found) internal_offsets_topic)
put_offsets-first tm p q none h = absurd cc
put_offsets-first tm p q (some t) h = put_first tm p q t t.partitions refl h

pub share_offsets-Kept :
    (tm : TopicManager) (o o' : Option Partition)
    → o ≡ first_partition (get_topic tm internal_offsets_topic)
    → Kept o o'
    → o' ≡ first_partition (get_topic (share_offsets tm o') internal_offsets_topic)
share_offsets-Kept tm o none h (inl e) = e ∙ h
share_offsets-Kept tm o none h (inr (p, p', a, b)) = absurd cc
share_offsets-Kept tm o (some q) h (inl e) = put_offsets-first tm q q _ (sym h ∙ sym e)
share_offsets-Kept tm o (some q) h (inr (p, p', a, b)) = put_offsets-first tm p q _ (sym h ∙ a)

module _ ⦃net : ByteOrder⦄ where
  after_append-some :
      (store : OffsetStore) (group_id : Name) (items : List OffsetCommitItem)
      (res : Partition × Result ℕ)
      → (after_append store group_id items res).0.offsets_partition ≡ some res.0
  unfolding after_append
  after_append-some store group_id items (p, done base) = refl
  after_append-some store group_id items (p, error s) = refl
  after_append-some store group_id items (p, fault) = refl

  store_commit-Kept :
      (store : OffsetStore) (group_id : Name) (items : List OffsetCommitItem) (now_ms : ℕ)
      (disks : ℕ → Disk)
      → Kept store.offsets_partition
          (OffsetStore.commit store group_id items now_ms disks).0.offsets_partition
  unfolding OffsetStore.commit
  store_commit-Kept store group_id [] now_ms disks = inl refl
  store_commit-Kept store group_id (item ∷ items) now_ms disks =
      elim (Option-cases store.offsets_partition) [
        | inl e ↦ inl (rw (OffsetStore.commit, e) e)
        | inr (p, e) ↦
            let res = append_batch p (make_batch group_id 0 disks (item ∷ items)) now_ms in
            inr (
              p,
              res.0,
              e,
              rw (OffsetStore.commit, e) (after_append-some store group_id (item ∷ items) res),
            )
      ]

  after_check-Kept :
      (store : OffsetStore) (o : Option Outcome) (res : OffsetStore × Result (Unit {0}))
      → Kept store.offsets_partition res.0.offsets_partition
      → Kept store.offsets_partition (after_check o store res).0.offsets_partition
  unfolding persisted
  after_check-Kept store (some o) res h = inl refl
  after_check-Kept store none (s, done u) h = h
  after_check-Kept store none (s, error e) h = h
  after_check-Kept store none (s, fault) h = h

  pub commit-Kept :
      (c : Coordinator) (tm : TopicManager) (store : OffsetStore) (group_id member_id : Name)
      (generation : ℕ) (entries : List OffsetCommitRequestEntry) (now now_ms : ℕ) (disks : ℕ → Disk)
      → Kept store.offsets_partition
          (Commit.commit c tm store group_id member_id generation entries now now_ms
            disks).0.offsets_partition
  unfolding Commit.commit
  commit-Kept c tm store group_id member_id generation entries now now_ms disks =
      after_check-Kept store _ _ (store_commit-Kept store group_id _ now_ms disks)
