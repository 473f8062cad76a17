-- ===== src/Group/Coordinator/Generations.antt =====
-- Generations of src/GroupCoordinator.cpp: what a member knows under a generation stays true as long as
-- the generation does.
use stream_forge.Base.{
  ℕ, ◌+◌, ◌%◌, ◌^◌, ◌≡◌, ◌⊎◌, refl, sym, ap, ◌∙◌, subst, List, [], ◌∷◌, none, some, length, leb,
  ◌==◌, Bool-cases, inl, inr, Option-cases,
}
use stream_forge.Base.Strings.{
  Name, name_eq, name_eq→≡, name_eq→≢, find, put, erase, find-put, find-put_other, some_injective,
}
use stream_forge.Topics.Manager.{TopicManager}
use stream_forge.Group.Assignor.{TopicPartition}
use stream_forge.Group.Coordinator.{
  MemberMetadata, Group, Coordinator, heartbeat, leave, rebalance, next_generation,
  generate_member_id,
}
use stream_forge.Group.Coordinator.Joining.{
  JoinArguments, join, join_group, join_members, join_as_new, join_again, with_member, new_member,
  new_group, subscribe, check_arguments, names_eq,
}
use stream_forge.Group.Coordinator.Expiry.{
  erase_all, expired_ids, expire_ids, expire_group, expire_groups, expire_members,
}
use stream_forge.Group.Coordinator.Steps.{Step, joins, beats, leaves, expires}

-- Who the members are, and what each of them has.
abbrev pub assignments : List (Name × MemberMetadata) → List (Name × List TopicPartition)
assignments [] = []
assignments ((k, m) ∷ members) = (k, m.assignment) ∷ assignments members

-- The same generation with the same assignments, or the next one.
abbrev pub Later : Group → Group → Type 0
Later g g' =
    ((g'.generation ≡ g.generation) × (assignments g'.members ≡ assignments g.members))
    ⊎ (g'.generation ≡ (g.generation + 1) % 2 ^ 32)

-- Every group of a map has a later one in the other.
Kept : List (Name × Group) → List (Name × Group) → Type 0
Kept groups groups' =
    (id : Name) (g : Group)
    → find id groups ≡ some g
    → (g' : Group) × (find id groups' ≡ some g') × Later g g'

Kept-refl : (groups : List (Name × Group)) → Kept groups groups
unfolding Kept
Kept-refl groups id g e = (g, e, inl (refl, refl))

put-Kept :
    (groups : List (Name × Group)) (id : Name) (g g' : Group)
    → find id groups ≡ some g
    → Later g g'
    → Kept groups (put id g' groups)
unfolding Kept
put-Kept groups id g g' e l i h f = elim (Bool-cases (name_eq id i)) [
  | inl d ↦
      let s : id ≡ i = name_eq→≡ id i d in
      let t : g ≡ h = some_injective (sym e ∙ ap (λ x. find x groups) s ∙ f) in
      (
        g',
        subst (λ x. find x (put id g' groups) ≡ some g') s (find-put id g' groups),
        subst (λ x. Later x g') t l,
      )
  | inr d ↦ (h, find-put_other i id g' groups (name_eq→≢ id i d) ∙ f, inl (refl, refl))
]

put_new-Kept :
    (groups : List (Name × Group)) (id : Name) (g' : Group)
    → find id groups ≡ none
    → Kept groups (put id g' groups)
unfolding Kept
put_new-Kept groups id g' e i h f = elim (Bool-cases (name_eq id i)) [
  | inl d ↦
      let s : none ≡ some h = sym e ∙ ap (λ x. find x groups) (name_eq→≡ id i d) ∙ f in absurd cc
  | inr d ↦ (h, find-put_other i id g' groups (name_eq→≢ id i d) ∙ f, inl (refl, refl))
]

rebalance-generation :
    (tm : TopicManager) (g : Group) (ms : List (Name × MemberMetadata))
    → g.members ≡ ms
    → (rebalance tm g).generation ≡ g.generation
unfolding rebalance
rebalance-generation tm g [] e = rw (rebalance, e) refl
rebalance-generation tm g (m ∷ ms) e = rw (rebalance, e) refl

next_generation-generation :
    (tm : TopicManager) (g : Group)
    → (next_generation tm g).generation ≡ (g.generation + 1) % 2 ^ 32
unfolding next_generation
next_generation-generation tm g =
    rebalance-generation tm (record g { generation = (g.generation + 1) % 2 ^ 32 }) g.members refl

assignments-put :
    (k : Name) (m m' : MemberMetadata) (members : List (Name × MemberMetadata))
    → find k members ≡ some m
    → m'.assignment ≡ m.assignment
    → assignments (put k m' members) ≡ assignments members
unfolding find put
assignments-put k m m' [] h e = absurd cc
assignments-put k m m' ((j, n) ∷ members) h e = elim (Bool-cases (name_eq j k)) [
  | inl d ↦
      let i : n ≡ m = some_injective (rw d at h) in
      rw d (ap (λ x. (j, x) ∷ assignments members) (e ∙ ap (λ x. x.assignment) (sym i)))
  | inr d ↦ rw d (ap (◌∷◌ ((j, n.assignment))) (assignments-put k m m' members (rw d at h) e))
]

heartbeat-Kept :
    (c : Coordinator) (now : ℕ) (id member : Name) (gen : ℕ)
    → Kept c.groups (heartbeat c now id member gen).0.groups
unfolding heartbeat
heartbeat-Kept c now id member gen = elim (Option-cases (find id c.groups)) [
  | inl e ↦ rw (heartbeat, e) (Kept-refl c.groups)
  | inr (g, e) ↦ elim (Option-cases (find member g.members)) [
    | inl d ↦ rw (heartbeat, e, d) (Kept-refl c.groups)
    | inr (m, d) ↦ elim (Bool-cases (gen == g.generation)) [
      | inl f ↦
          rw (heartbeat, e, d, f)
            (put-Kept c.groups id g _ e (
              inl (
                refl,
                assignments-put member m (record m { last_heartbeat = now }) g.members d refl,
              )))
      | inr f ↦ rw (heartbeat, e, d, f) (Kept-refl c.groups)
    ]
  ]
]

leave-Kept :
    (tm : TopicManager) (c : Coordinator) (id member : Name)
    → Kept c.groups (leave c tm id member).0.groups
unfolding leave
leave-Kept tm c id member = elim (Option-cases (find id c.groups)) [
  | inl e ↦ rw (leave, e) (Kept-refl c.groups)
  | inr (g, e) ↦ elim (Option-cases (find member g.members)) [
    | inl d ↦ rw (leave, e, d) (Kept-refl c.groups)
    | inr (m, d) ↦
        rw (leave, e, d)
          (put-Kept c.groups id g _ e
            (inr (next_generation-generation tm (record g { members = erase member g.members }))))
  ]
]

-- What becomes of the group that is joined, in the map at the end.
Put : List (Name × Group) → Name → Group → List (Name × Group) → Type 0
Put groups id g groups' = (g' : Group) × (groups' ≡ put id g' groups) × Later g g'

join_members-Put :
    (tm : TopicManager) (c : Coordinator) (g : Group) (a : JoinArguments) (id : Name)
    → Put c.groups a.group_id g (join_members c tm g a id).0.groups
unfolding join_members join_as_new join_again with_member Put
join_members-Put tm c g a [] =
    elim (Bool-cases (leb c.config.max_members_per_group (length g.members))) [
      | inl e ↦ rw e (g, refl, inl (refl, refl))
      | inr e ↦ rw e (
        _,
        refl,
        inr (
            next_generation-generation tm (record g {
              members =
                  put (generate_member_id a.group_id c.member_counter a.rand_val) (new_member a)
                    g.members;
            })),
      )
    ]
join_members-Put tm c g a (b ∷ bs) = elim (Option-cases (find a.member_id g.members)) [
  | inl e ↦ rw (join_again, e) (g, refl, inl (refl, refl))
  | inr (m, e) ↦
      rw (join_again, e) (_, refl, inl (refl, assignments-put a.member_id m _ g.members e refl))
]

subscribe-Later :
    (g g' : Group) (a : JoinArguments) (ms : List (Name × MemberMetadata))
    → Later (subscribe g a ms) g'
    → Later g g'
unfolding subscribe
subscribe-Later g g' a [] l = l
subscribe-Later g g' a (m ∷ ms) l = l

join_group-Put :
    (tm : TopicManager) (c : Coordinator) (g0 : Group) (a : JoinArguments)
    → Put c.groups a.group_id g0 (join_group c tm g0 a).0.groups
unfolding join_group Put
join_group-Put tm c g0 a =
    let g = subscribe g0 a g0.members in
    let same : Later g0 g = subscribe-Later g0 g a g0.members (inl (refl, refl)) in
    elim (Bool-cases (g.strategy == a.strategy)) [
      | inr e ↦ rw e (g, refl, same)
      | inl e ↦ elim (Bool-cases (names_eq g.subscribed_topics a.topics)) [
        | inr d ↦ rw (e, d) (g, refl, same)
        | inl d ↦
            let (g', p, l) = join_members-Put tm c g a a.member_id in
            rw (e, d) (g', p, subscribe-Later g0 g' a g0.members l)
      ]
    ]

join-Kept :
    (tm : TopicManager) (c : Coordinator) (a : JoinArguments) → Kept c.groups (join c tm a).0.groups
unfolding join Put
join-Kept tm c a = elim (Option-cases (check_arguments c.config tm a)) [
  | inr (outcome, e) ↦ rw (join, e) (Kept-refl c.groups)
  | inl e ↦ elim (Option-cases (find a.group_id c.groups)) [
    | inr (g, d) ↦
        let (g', p, l) = join_group-Put tm c g a in
        rw (join, e, d) (subst (Kept c.groups) (sym p) (put-Kept c.groups a.group_id g g' d l))
    | inl d ↦ elim (Bool-cases (leb c.config.max_groups (length c.groups))) [
      | inl f ↦ rw (join, e, d, f) (Kept-refl c.groups)
      | inr f ↦
          let (g', p, l) = join_group-Put tm c (new_group a) a in
          rw (join, e, d, f) (subst (Kept c.groups) (sym p) (put_new-Kept c.groups a.group_id g' d))
    ]
  ]
]

expire_ids-Later :
    (tm : TopicManager) (g : Group) (ids : List Name) → Later g (expire_ids tm g ids).0
unfolding expire_ids
expire_ids-Later tm g [] = inl (refl, refl)
expire_ids-Later tm g (id ∷ ids) =
    inr (next_generation-generation tm (record g { members = erase_all (id ∷ ids) g.members }))

expire_groups-Kept :
    (tm : TopicManager) (now : ℕ) (groups : List (Name × Group))
    → Kept groups (expire_groups tm now groups).0
unfolding expire_groups expire_group Kept find
expire_groups-Kept tm now [] i g e = absurd cc
expire_groups-Kept tm now ((id, g) ∷ groups) i h e = elim (Bool-cases (name_eq id i)) [
  | inl d ↦
      let f : g ≡ h = some_injective (rw d at e) in
      rw d (
        (expire_group tm now g).0,
        refl,
        subst (λ x. Later x (expire_group tm now g).0) f
            (expire_ids-Later tm g (expired_ids now g.members)),
      )
  | inr d ↦ rw d (expire_groups-Kept tm now groups i h (rw d at e))
]

Step-Kept : {tm : TopicManager} {c c' : Coordinator} → Step tm c c' → Kept c.groups c'.groups
unfolding expire_members
Step-Kept {tm} {c} (joins a) = join-Kept tm c a
Step-Kept {tm} {c} (beats now id member gen) = heartbeat-Kept c now id member gen
Step-Kept {tm} {c} (leaves id member) = leave-Kept tm c id member
Step-Kept {tm} {c} (expires now) = expire_groups-Kept tm now c.groups

-- After any step a group that was there is there still, and either its generation and what each of its
-- members has are the same, or the generation is the next one.
pub Step-Later :
    (tm : TopicManager) (c c' : Coordinator) (id : Name) (g : Group)
    → Step tm c c'
    → find id c.groups ≡ some g
    → (g' : Group) × (find id c'.groups ≡ some g') × Later g g'
unfolding Kept
Step-Later tm c c' id g s e = Step-Kept s id g e
