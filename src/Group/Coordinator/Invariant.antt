-- ===== src/Group/Coordinator/Invariant.antt =====
-- The invariant of a group of src/GroupCoordinator.cpp, kept by whatever changes a group: its members are
-- distinct, and once there is one they share out all partitions of the subscribed topics.
use mathlib.Core.List.{Perm}
use stream_forge.Base.{
  ℕ, suc, ◌+◌, ◌%◌, ◌^◌, ◌<◌, ◌≡◌, refl, sym, ap, ◌∙◌, subst, List, [], ◌∷◌, ◌++◌, some, arith,
  length, Bool-cases, inl, inr,
}
use stream_forge.Base.Strings.{
  Name, name_eq, find, put, erase, keys, Distinct, put-Distinct, erase-Distinct, keys-put,
  length-keys, some_injective,
}
use stream_forge.Topics.Manager.{TopicManager}
use stream_forge.Group.Assignor.{Assignment}
use stream_forge.Group.Assignor.RoundRobin.{all_parts}
use stream_forge.Group.Coordinator.{
  empty, stable, GroupState, MemberMetadata, Group, assign_members, topic_partitions, rebalance,
  next_generation,
}
use stream_forge.Group.Coordinator.Joining.{JoinArguments, subscribe, new_group}
use stream_forge.Group.Coordinator.Expiry.{erase_all, expire_ids, expire_group, expired_ids}
use stream_forge.Group.Coordinator.Sharing.{shared, shared-assign}

pub record IsGroup (tm : TopicManager) (g : Group) : Type 0 where
  pub distinct : Distinct (keys g.members)
  pub idle : length g.members ≡ 0 → g.state ≡ empty
  pub active :
      0 < length g.members
      → (g.state ≡ stable)
        × Perm (shared g.members) (all_parts (topic_partitions tm g.subscribed_topics))

keys-assign_members :
    (result : Assignment) (members : List (Name × MemberMetadata))
    → keys (assign_members result members) ≡ keys members
unfolding assign_members
keys-assign_members result [] = refl
keys-assign_members result ((k, m) ∷ members) = ap (◌∷◌ k) (keys-assign_members result members)

length-assign_members :
    (result : Assignment) (members : List (Name × MemberMetadata))
    → length (assign_members result members) ≡ length members
unfolding assign_members
length-assign_members result [] = refl
length-assign_members result (m ∷ members) = ap suc (length-assign_members result members)

rebalance_members :
    (tm : TopicManager) (id : Name) (gen strategy : ℕ) (topics : List Name) (s : GroupState)
    (members : List (Name × MemberMetadata))
    → Distinct (keys members)
    → IsGroup tm (
        rebalance tm (record {
          group_id = id;
          generation = gen;
          strategy = strategy;
          subscribed_topics = topics;
          state = s;
          members = members;
        }))
unfolding rebalance
rebalance_members tm id gen strategy topics s [] d = record {
  distinct = tt;
  idle = λ e. refl;
  active = λ h. absurd (omega arith);
}
rebalance_members tm id gen strategy topics s ((k, m) ∷ members) d = record {
  distinct = subst Distinct (sym (keys-assign_members _ ((k, m) ∷ members))) d;
  idle = λ e. absurd (omega (arith, length-assign_members _ ((k, m) ∷ members)));
  active = λ h. (refl, shared-assign tm strategy topics k m members d);
}

-- A new generation has the invariant, whatever its members.
pub next_generation-IsGroup :
    (tm : TopicManager) (g : Group) → Distinct (keys g.members) → IsGroup tm (next_generation tm g)
unfolding next_generation
next_generation-IsGroup tm g d =
    rebalance_members tm g.group_id ((g.generation + 1) % 2 ^ 32) g.strategy g.subscribed_topics
      g.state g.members d

shared-put :
    (k : Name) (m m' : MemberMetadata) (members : List (Name × MemberMetadata))
    → find k members ≡ some m
    → m'.assignment ≡ m.assignment
    → shared (put k m' members) ≡ shared members
unfolding find put
shared-put k m m' [] h e = absurd cc
shared-put k m m' ((j, n) ∷ members) h e = elim (Bool-cases (name_eq j k)) [
  | inl d ↦
      let i : n ≡ m = some_injective (rw d at h) in
      rw d (ap (λ xs. xs ++ shared members) (e ∙ ap (λ x. x.assignment) (sym i)))
  | inr d ↦ rw d (ap (◌++◌ (n.assignment)) (shared-put k m m' members (rw d at h) e))
]

-- A member that keeps its partitions may be written anew.
pub touch-IsGroup :
    (tm : TopicManager) (g : Group) (k : Name) (m m' : MemberMetadata)
    → IsGroup tm g
    → find k g.members ≡ some m
    → m'.assignment ≡ m.assignment
    → IsGroup tm (record g { members = put k m' g.members })
touch-IsGroup tm g k m m' h f e =
    let l : length (put k m' g.members) ≡ length g.members =
      sym (length-keys (put k m' g.members))
      ∙ ap length (keys-put k m' m g.members f)
      ∙ length-keys g.members in
    record {
      distinct = put-Distinct k m' g.members h.distinct;
      idle = λ z. h.idle (sym l ∙ z);
      active = λ z.
          let a = h.active (omega arith) in
          (
            a.0,
            subst (λ xs. Perm xs (all_parts (topic_partitions tm g.subscribed_topics)))
                (sym (shared-put k m m' g.members f e)) a.1,
          );
    }

pub new_group-IsGroup : (tm : TopicManager) (a : JoinArguments) → IsGroup tm (new_group a)
new_group-IsGroup tm a = record {
  distinct = tt;
  idle = λ e. refl;
  active = λ h. absurd (omega arith);
}

pub subscribe-IsGroup :
    (tm : TopicManager) (g : Group) (a : JoinArguments) (ms : List (Name × MemberMetadata))
    → g.members ≡ ms
    → IsGroup tm g
    → IsGroup tm (subscribe g a ms)
unfolding subscribe
subscribe-IsGroup tm g a [] e h = record {
  distinct = h.distinct;
  idle = h.idle;
  active = λ p. absurd (let z : length g.members ≡ 0 = ap length e in omega arith);
}
subscribe-IsGroup tm g a (m ∷ ms) e h = h

erase_all-Distinct :
    (ids : List Name) (members : List (Name × MemberMetadata))
    → Distinct (keys members)
    → Distinct (keys (erase_all ids members))
unfolding erase_all
erase_all-Distinct [] members d = d
erase_all-Distinct (id ∷ ids) members d =
    erase_all-Distinct ids (erase id members) (erase-Distinct id members d)

expire_ids-IsGroup :
    (tm : TopicManager) (g : Group) (ids : List Name)
    → IsGroup tm g
    → IsGroup tm (expire_ids tm g ids).0
unfolding expire_ids
expire_ids-IsGroup tm g [] h = h
expire_ids-IsGroup tm g (id ∷ ids) h =
    next_generation-IsGroup tm (record g { members = erase_all (id ∷ ids) g.members })
      (erase_all-Distinct (id ∷ ids) g.members h.distinct)

pub expire_group-IsGroup :
    (tm : TopicManager) (now : ℕ) (g : Group) → IsGroup tm g → IsGroup tm (expire_group tm now g).0
unfolding expire_group
expire_group-IsGroup tm now g h = expire_ids-IsGroup tm g (expired_ids now g.members) h
