-- ===== src/Group/Coordinator/Sharing.antt =====
-- `rebalance` of src/GroupCoordinator.cpp shares out the partitions: each member gets what the assignor
-- of src/Assignor.cpp has under its name.
use mathlib.Core.List.Perm
use mathlib.Core.List.{Perm, perm_append_comm}
use stream_forge.Base.{
  ℕ, ◌^◌, ◌<◌, ◌≡◌, ◌≢◌, refl, sym, ap, ◌∙◌, subst, List, [], ◌∷◌, ◌++◌, Option, none, some, arith,
  ◌==◌, length, All, append_assoc, Bool-cases, inl, inr,
}
use stream_forge.Base.Strings.{Name, name_lt, find_here, find_skip, keys, Distinct}
use stream_forge.Topics.{Topic}
use stream_forge.Topics.Manager.{TopicManager, get_topic}
use stream_forge.Group.Assignor.{TopicPartition, Assignment}
use stream_forge.Group.Assignor.RoundRobin.{all_parts}
use stream_forge.Group.Assignor.Complete.{values, assign_round_robin-values}
use stream_forge.Group.Assignor.Tiling.{assign_range-values}
use stream_forge.Group.Assignor.Keys.{keys-assign_range, keys-assign_round_robin}
use stream_forge.Group.Coordinator.{
  MemberMetadata, get_assignment, assign_members, assign, insert_name, sort_names, push_topic,
  topic_partitions,
}

-- What an assignment has under these names.
gather : Assignment → List Name → List TopicPartition
gather result [] = []
gather result (k ∷ ks) = get_assignment result k ++ gather result ks

gather-skip :
    (j : Name) (xs : List TopicPartition) (result : Assignment) (ks : List Name)
    → All (λ k. j ≢ k) ks
    → gather ((j, xs) ∷ result) ks ≡ gather result ks
unfolding gather
gather-skip j xs result [] h = refl
gather-skip j xs result (k ∷ ks) h =
    rw (find_skip j k xs result h.0, gather-skip j xs result ks h.1) refl

gather-keys :
    (result : Assignment) → Distinct (keys result) → gather result (keys result) ≡ values result
unfolding gather
gather-keys [] h = refl
gather-keys ((j, xs) ∷ result) h =
    rw (find_here j xs result, gather-skip j xs result (keys result) h.0, gather-keys result h.1)
      refl

swap_front : (xs ys zs : List TopicPartition) → Perm (xs ++ (ys ++ zs)) (ys ++ (xs ++ zs))
swap_front xs ys zs =
    rw (← append_assoc xs ys zs, ← append_assoc ys xs zs)
      (Perm.append_right zs (perm_append_comm xs ys))

gather-insert_name :
    (result : Assignment) (k : Name) (ks : List Name)
    → Perm (gather result (insert_name k ks)) (get_assignment result k ++ gather result ks)
unfolding gather insert_name
gather-insert_name result k [] = Perm.refl _
gather-insert_name result k (j ∷ ks) = elim (Bool-cases (name_lt j k)) [
  | inl e ↦ rw e (
      Perm.trans (Perm.append_left (get_assignment result j) (gather-insert_name result k ks))
        (swap_front (get_assignment result j) (get_assignment result k) (gather result ks)))
  | inr e ↦ rw e (Perm.refl _)
]

gather-sort_names :
    (result : Assignment) (ks : List Name) → Perm (gather result (sort_names ks)) (gather result ks)
unfolding gather sort_names
gather-sort_names result [] = Perm.refl []
gather-sort_names result (k ∷ ks) =
    Perm.trans (gather-insert_name result k (sort_names ks))
      (Perm.append_left (get_assignment result k) (gather-sort_names result ks))

-- Sorting keeps names distinct.
All-insert_name :
    (P : Name → Type 0) (k : Name) (ks : List Name) → P k → All P ks → All P (insert_name k ks)
unfolding insert_name
All-insert_name P k [] p h = (p, tt)
All-insert_name P k (j ∷ ks) p h = elim (Bool-cases (name_lt j k)) [
  | inl e ↦ rw e (h.0, All-insert_name P k ks p h.1)
  | inr e ↦ rw e (p, h)
]

All-sort_names : (P : Name → Type 0) (ks : List Name) → All P ks → All P (sort_names ks)
unfolding sort_names
All-sort_names P [] h = tt
All-sort_names P (k ∷ ks) h = All-insert_name P k (sort_names ks) h.0 (All-sort_names P ks h.1)

insert_name-Distinct :
    (k : Name) (ks : List Name) → All (λ j. k ≢ j) ks → Distinct ks → Distinct (insert_name k ks)
unfolding insert_name
insert_name-Distinct k [] h d = (tt, tt)
insert_name-Distinct k (j ∷ ks) h d = elim (Bool-cases (name_lt j k)) [
  | inl e ↦
      rw e (
        All-insert_name (λ i. j ≢ i) k ks (λ q. h.0 (sym q)) d.0,
        insert_name-Distinct k ks h.1 d.1,
      )
  | inr e ↦ rw e (h, d)
]

sort_names-Distinct : (ks : List Name) → Distinct ks → Distinct (sort_names ks)
unfolding sort_names
sort_names-Distinct [] d = tt
sort_names-Distinct (k ∷ ks) d =
    insert_name-Distinct k (sort_names ks) (All-sort_names (λ j. k ≢ j) ks d.0)
      (sort_names-Distinct ks d.1)

-- All partitions that some member has, as often as a member has them.
abbrev pub shared : List (Name × MemberMetadata) → List TopicPartition
shared [] = []
shared ((k, m) ∷ members) = m.assignment ++ shared members

shared-assign_members :
    (result : Assignment) (members : List (Name × MemberMetadata))
    → shared (assign_members result members) ≡ gather result (keys members)
unfolding assign_members gather
shared-assign_members result [] = refl
shared-assign_members result ((k, m) ∷ members) =
    ap (◌++◌ (get_assignment result k)) (shared-assign_members result members)

keys-assign :
    (strategy : ℕ) (members : List Name) (topics : List (Name × ℕ))
    → Distinct members
    → keys (assign strategy members topics) ≡ members
unfolding assign
keys-assign strategy members topics d = elim (Bool-cases (strategy == 0)) [
  | inl e ↦ rw e (keys-assign_range members topics d)
  | inr e ↦ rw e (keys-assign_round_robin members topics d)
]

values-assign :
    (strategy : ℕ) (members : List Name) (topics : List (Name × ℕ))
    → 0 < length members
    → All (λ t. t.1 < 2 ^ 16) topics
    → Perm (values (assign strategy members topics)) (all_parts topics)
unfolding assign
values-assign strategy [] topics p h = absurd (omega arith)
values-assign strategy (m ∷ members) topics p h = elim (Bool-cases (strategy == 0)) [
  | inl e ↦ rw e (assign_range-values m members topics h)
  | inr e ↦ rw e (assign_round_robin-values m members topics)
]

length-insert_name : (k : Name) (ks : List Name) → 0 < length (insert_name k ks)
unfolding insert_name
length-insert_name k [] = omega arith
length-insert_name k (j ∷ ks) = elim (Bool-cases (name_lt j k)) [
  | inl e ↦ rw e (omega arith)
  | inr e ↦ rw e (omega arith)
]

push_topic-lt :
    (t : Name) (topic : Option Topic) (rest : List (Name × ℕ))
    → All (λ t. t.1 < 2 ^ 16) rest
    → All (λ t. t.1 < 2 ^ 16) (push_topic t topic rest)
push_topic-lt t none rest h = h
push_topic-lt t (some topic) rest h = (omega arith, h)

pub topic_partitions-lt :
    (tm : TopicManager) (ts : List Name) → All (λ t. t.1 < 2 ^ 16) (topic_partitions tm ts)
unfolding topic_partitions
topic_partitions-lt tm [] = tt
topic_partitions-lt tm (t ∷ ts) =
    push_topic-lt t (get_topic tm t) (topic_partitions tm ts) (topic_partitions-lt tm ts)

-- Whatever the strategy, what the members get is all partitions, and each of them once.
pub shared-assign :
    (tm : TopicManager) (strategy : ℕ) (subscribed : List Name) (k : Name) (m : MemberMetadata)
    (members : List (Name × MemberMetadata))
    → Distinct (keys ((k, m) ∷ members))
    → Perm
        (shared (
          assign_members
            (assign strategy
              (sort_names (keys ((k, m) ∷ members)))
              (topic_partitions tm subscribed))
            ((k, m) ∷ members)))
        (all_parts (topic_partitions tm subscribed))
unfolding sort_names
shared-assign tm strategy subscribed k m members d =
    let names : List Name = keys ((k, m) ∷ members) in
    let topics : List (Name × ℕ) = topic_partitions tm subscribed in
    let result : Assignment = assign strategy (sort_names names) topics in
    let e : keys result ≡ sort_names names =
      keys-assign strategy (sort_names names) topics (sort_names-Distinct names d) in
    let g : gather result (sort_names names) ≡ values result =
      ap (gather result) (sym e)
      ∙ gather-keys result (subst Distinct (sym e) (sort_names-Distinct names d)) in
    let p : Perm (gather result names) (values result) =
      subst (Perm _) g (Perm.symm (gather-sort_names result names)) in
    rw (shared-assign_members result ((k, m) ∷ members)) (
      Perm.trans p (
        values-assign strategy (sort_names names) topics
          (length-insert_name k (sort_names (keys members))) (topic_partitions-lt tm subscribed)))
