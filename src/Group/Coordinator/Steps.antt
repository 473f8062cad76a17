-- ===== src/Group/Coordinator/Steps.antt =====
-- The operations of src/GroupCoordinator.cpp that change a group, as steps, and what holds of every
-- coordinator that steps lead to. Between the steps the topics stay as they are.
use stream_forge.Base.{
  ℕ, ◌≡◌, refl, List, [], ◌∷◌, some, length, leb, ◌==◌, Bool-cases, inl, inr, Option-cases,
}
use stream_forge.Base.Strings.{
  Name, find, put, erase, AllValues, AllValues-find, AllValues-put, put-Distinct, erase-Distinct,
}
use stream_forge.Topics.Manager.{TopicManager}
use stream_forge.Group.Coordinator.{
  CoordinatorConfig, Group, Coordinator, set_group, heartbeat, leave, generate_member_id,
}
use stream_forge.Group.Coordinator.Joining.{
  JoinArguments, join, join_group, join_members, join_as_new, join_again, with_member, new_member,
  new_group, subscribe, check_arguments, names_eq,
}
use stream_forge.Group.Coordinator.Expiry.{expire_groups, expire_members}
use stream_forge.Group.Coordinator.Invariant.{
  IsGroup, next_generation-IsGroup, touch-IsGroup, new_group-IsGroup, subscribe-IsGroup,
  expire_group-IsGroup,
}

-- A coordinator without groups.
abbrev pub new_coordinator : CoordinatorConfig → Coordinator
new_coordinator config = record { config = config; member_counter = 1; groups = [] }

pub data Step (tm : TopicManager) : Coordinator → Coordinator → Type 0 where
  joins : {c : Coordinator} (a : JoinArguments) → Step tm c (join c tm a).0
  beats :
      {c : Coordinator} (now : ℕ) (group_id member_id : Name) (generation : ℕ)
      → Step tm c (heartbeat c now group_id member_id generation).0
  leaves :
      {c : Coordinator} (group_id member_id : Name) → Step tm c (leave c tm group_id member_id).0
  expires : {c : Coordinator} (now : ℕ) → Step tm c (expire_members c tm now).0

pub data Reachable (tm : TopicManager) (config : CoordinatorConfig) : Coordinator → Type 0 where
  starts : Reachable tm config (new_coordinator config)
  goes_on : {c c' : Coordinator} → Reachable tm config c → Step tm c c' → Reachable tm config c'

abbrev AreGroups : TopicManager → Coordinator → Type 0
AreGroups tm c = AllValues (IsGroup tm) c.groups

set_group-AreGroups :
    (tm : TopicManager) (c : Coordinator) (id : Name) (g : Group)
    → AreGroups tm c
    → IsGroup tm g
    → AreGroups tm (set_group c id g)
set_group-AreGroups tm c id g h k = AllValues-put (IsGroup tm) id g c.groups h k

heartbeat-AreGroups :
    (tm : TopicManager) (c : Coordinator) (now : ℕ) (id member : Name) (gen : ℕ)
    → AreGroups tm c
    → AreGroups tm (heartbeat c now id member gen).0
unfolding heartbeat
heartbeat-AreGroups tm c now id member gen h = elim (Option-cases (find id c.groups)) [
  | inl e ↦ rw (heartbeat, e) h
  | inr (g, e) ↦ elim (Option-cases (find member g.members)) [
    | inl d ↦ rw (heartbeat, e, d) h
    | inr (m, d) ↦ elim (Bool-cases (gen == g.generation)) [
      | inl f ↦
          rw (heartbeat, e, d, f)
            (set_group-AreGroups tm c id _ h (
              touch-IsGroup tm g member m (record m { last_heartbeat = now })
                (AllValues-find (IsGroup tm) id c.groups g h e) d refl))
      | inr f ↦ rw (heartbeat, e, d, f) h
    ]
  ]
]

leave-AreGroups :
    (tm : TopicManager) (c : Coordinator) (id member : Name)
    → AreGroups tm c
    → AreGroups tm (leave c tm id member).0
unfolding leave
leave-AreGroups tm c id member h = elim (Option-cases (find id c.groups)) [
  | inl e ↦ rw (leave, e) h
  | inr (g, e) ↦ elim (Option-cases (find member g.members)) [
    | inl d ↦ rw (leave, e, d) h
    | inr (m, d) ↦
        rw (leave, e, d)
          (set_group-AreGroups tm c id _ h (
            next_generation-IsGroup tm (record g { members = erase member g.members })
              (erase-Distinct member g.members
                (AllValues-find (IsGroup tm) id c.groups g h e).distinct)))
  ]
]

join_as_new-AreGroups :
    (tm : TopicManager) (c : Coordinator) (g : Group) (a : JoinArguments)
    → AreGroups tm c
    → IsGroup tm g
    → AreGroups tm (join_as_new c tm g a).0
unfolding join_as_new with_member
join_as_new-AreGroups tm c g a h k =
    elim (Bool-cases (leb c.config.max_members_per_group (length g.members))) [
      | inl e ↦ rw e (set_group-AreGroups tm c a.group_id g h k)
      | inr e ↦
          let new_id = generate_member_id a.group_id c.member_counter a.rand_val in
          rw e (
            set_group-AreGroups tm c a.group_id _ h (
              next_generation-IsGroup tm
                (record g { members = put new_id (new_member a) g.members })
                (put-Distinct new_id (new_member a) g.members k.distinct)))
    ]

join_again-AreGroups :
    (tm : TopicManager) (c : Coordinator) (g : Group) (a : JoinArguments)
    → AreGroups tm c
    → IsGroup tm g
    → AreGroups tm (join_again c g a).0
unfolding join_again
join_again-AreGroups tm c g a h k = elim (Option-cases (find a.member_id g.members)) [
  | inl e ↦ rw (join_again, e) (set_group-AreGroups tm c a.group_id g h k)
  | inr (m, e) ↦
      rw (join_again, e)
        (set_group-AreGroups tm c a.group_id _ h (touch-IsGroup tm g a.member_id m _ k e refl))
]

join_members-AreGroups :
    (tm : TopicManager) (c : Coordinator) (g : Group) (a : JoinArguments) (id : Name)
    → AreGroups tm c
    → IsGroup tm g
    → AreGroups tm (join_members c tm g a id).0
unfolding join_members
join_members-AreGroups tm c g a [] h k = join_as_new-AreGroups tm c g a h k
join_members-AreGroups tm c g a (b ∷ bs) h k = join_again-AreGroups tm c g a h k

join_group-AreGroups :
    (tm : TopicManager) (c : Coordinator) (g : Group) (a : JoinArguments)
    → AreGroups tm c
    → IsGroup tm g
    → AreGroups tm (join_group c tm g a).0
unfolding join_group
join_group-AreGroups tm c g0 a h k0 =
    let g = subscribe g0 a g0.members in
    let k : IsGroup tm g = subscribe-IsGroup tm g0 a g0.members refl k0 in
    elim (Bool-cases (g.strategy == a.strategy)) [
      | inr e ↦ rw e (set_group-AreGroups tm c a.group_id g h k)
      | inl e ↦ elim (Bool-cases (names_eq g.subscribed_topics a.topics)) [
        | inr d ↦ rw (e, d) (set_group-AreGroups tm c a.group_id g h k)
        | inl d ↦ rw (e, d) (join_members-AreGroups tm c g a a.member_id h k)
      ]
    ]

join-AreGroups :
    (tm : TopicManager) (c : Coordinator) (a : JoinArguments)
    → AreGroups tm c
    → AreGroups tm (join c tm a).0
unfolding join
join-AreGroups tm c a h = elim (Option-cases (check_arguments c.config tm a)) [
  | inr (outcome, e) ↦ rw (join, e) h
  | inl e ↦ elim (Option-cases (find a.group_id c.groups)) [
    | inr (g, d) ↦
        rw (join, e, d)
          (join_group-AreGroups tm c g a h (AllValues-find (IsGroup tm) a.group_id c.groups g h d))
    | inl d ↦ elim (Bool-cases (leb c.config.max_groups (length c.groups))) [
      | inl f ↦ rw (join, e, d, f) h
      | inr f ↦
          rw (join, e, d, f) (join_group-AreGroups tm c (new_group a) a h (new_group-IsGroup tm a))
    ]
  ]
]

expire_groups-AllValues :
    (tm : TopicManager) (now : ℕ) (groups : List (Name × Group))
    → AllValues (IsGroup tm) groups
    → AllValues (IsGroup tm) (expire_groups tm now groups).0
unfolding expire_groups
expire_groups-AllValues tm now [] h = h
expire_groups-AllValues tm now ((id, g) ∷ groups) h =
    (expire_group-IsGroup tm now g h.0, expire_groups-AllValues tm now groups h.1)

Step-AreGroups :
    {tm : TopicManager} {c c' : Coordinator} → Step tm c c' → AreGroups tm c → AreGroups tm c'
unfolding expire_members
Step-AreGroups {tm} {c} (joins a) h = join-AreGroups tm c a h
Step-AreGroups {tm} {c} (beats now id member gen) h = heartbeat-AreGroups tm c now id member gen h
Step-AreGroups {tm} {c} (leaves id member) h = leave-AreGroups tm c id member h
Step-AreGroups {tm} {c} (expires now) h = expire_groups-AllValues tm now c.groups h

Reachable-AreGroups :
    {tm : TopicManager} {config : CoordinatorConfig} {c : Coordinator}
    → Reachable tm config c
    → AreGroups tm c
Reachable-AreGroups starts = tt
Reachable-AreGroups (goes_on r s) = Step-AreGroups s (Reachable-AreGroups r)

-- In whatever order members join, send heartbeats, leave and expire: the members of a group are
-- distinct; a group without members is empty; and any other group is stable, and its members together
-- have all partitions of its topics, each as often as the group names its topic.
pub Reachable-IsGroup :
    (tm : TopicManager) (config : CoordinatorConfig) (c : Coordinator) (id : Name) (g : Group)
    → Reachable tm config c
    → find id c.groups ≡ some g
    → IsGroup tm g
Reachable-IsGroup tm config c id g r e =
    AllValues-find (IsGroup tm) id c.groups g (Reachable-AreGroups r) e
