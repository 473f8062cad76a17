-- ===== src/Group/Coordinator/Committing.antt =====
-- Which commits src/GroupCoordinator.cpp accepts, and that the others change nothing.
use stream_forge.Base.{
  ℕ, ◌≤◌, ◌/◌, ◌≡◌, ◌≢◌, refl, ap, List, [], ◌∷◌, Bool, true, false, ◌&&◌, Option, none, some,
  arith, ltb, ltb→ge, ◌==◌, All, Bool-cases, inl, inr, Option-cases,
}
use stream_forge.Base.Strings.{Name, find}
use stream_forge.Status.{Result}
use stream_forge.Wire.ByteOrder.{ByteOrder}
use stream_forge.Storage.Partition.{Partition, Disk}
use stream_forge.Topics.{get_partition}
use stream_forge.Topics.Manager.{TopicManager, get_topic}
use stream_forge.Group.OffsetStore.{OffsetStore}
use stream_forge.Group.OffsetStore
use stream_forge.Group.Coordinator.{
  MemberMetadata, Group, Coordinator, Outcome, success, is_internal,
}
use stream_forge.Group.Coordinator.Commit.{
  OffsetCommitRequestEntry, find_partition, check_entries, is_assigned, all_assigned, check_member,
  check_offsets, check_commit, or_else, items_of, after_check, commit,
}

-- The partition is there, the member has it, and it reaches up to the offset.
pub record IsAllowed (tm : TopicManager) (m : MemberMetadata) (entry : OffsetCommitRequestEntry)
    : Type 0 where
  pub partition : Partition
  pub exists : find_partition tm entry.topic entry.partition ≡ some partition
  pub assigned : is_assigned entry m.assignment ≡ true
  pub reached : entry.offset ≤ partition.next_offset

or_else-none : (a b : Option Outcome) → or_else a b ≡ none → (a ≡ none) × (b ≡ none)
or_else-none none b h = (refl, h)
or_else-none (some o) b h = absurd cc

and-true : (a b : Bool) → (a && b) ≡ true → (a ≡ true) × (b ≡ true)
and-true true b h = (refl, h)
and-true false b h = absurd cc

member_may :
    (group : Option Group) (member_id : Name) (generation : ℕ)
    (entries : List OffsetCommitRequestEntry)
    → check_member group member_id generation entries ≡ none
    → (g : Group) × (m : MemberMetadata) × (group ≡ some g)
      × (find member_id g.members ≡ some m)
      × (generation ≡ g.generation)
      × (all_assigned m.assignment entries ≡ true)
unfolding check_member
member_may none member_id generation entries h = absurd cc
member_may (some g) member_id generation entries h =
    elim (Option-cases (find member_id g.members)) [
      | inl e ↦ absurd (let k = rw (check_member, e) at h in cc)
      | inr (m, e) ↦ elim (Bool-cases (generation == g.generation)) [
        | inr d ↦ absurd (let k = rw (check_member, e, d) at h in cc)
        | inl d ↦ elim (Bool-cases (all_assigned m.assignment entries)) [
          | inr f ↦ absurd (let k = rw (check_member, e, d, f) at h in cc)
          | inl f ↦ (g, m, refl, e, ground arith, f)
        ]
      ]
    ]

entries-IsAllowed :
    (tm : TopicManager) (m : MemberMetadata) (entries : List OffsetCommitRequestEntry)
    → check_entries tm entries ≡ none
    → check_offsets tm entries ≡ none
    → all_assigned m.assignment entries ≡ true
    → All (IsAllowed tm m) entries
unfolding check_entries check_offsets
entries-IsAllowed tm m [] h k a = tt
entries-IsAllowed tm m (entry ∷ entries) h k a =
    let (a0, a1) =
      and-true (is_assigned entry m.assignment) (all_assigned m.assignment entries) a in
    elim (Bool-cases (is_internal entry.topic)) [
      | inl e ↦ absurd (let z = rw (check_entries, e) at h in cc)
      | inr e ↦ elim (Option-cases (get_topic tm entry.topic)) [
        | inl d ↦ absurd (let z = rw (check_entries, e, d) at h in cc)
        | inr (t, d) ↦ elim (Option-cases (get_partition t entry.partition)) [
          | inl f ↦ absurd (let z = rw (check_entries, e, d, f) at h in cc)
          | inr (p, f) ↦ elim (Bool-cases (ltb p.next_offset entry.offset)) [
            | inl l ↦ absurd (let z = rw (check_offsets, d, f, l) at k in cc)
            | inr l ↦ (
              record {
                partition = p;
                exists = rw (find_partition, d, f) refl;
                assigned = a0;
                reached = ltb→ge p.next_offset entry.offset l;
              },
              entries-IsAllowed tm m entries (rw (check_entries, e, d, f) at h)
                  (rw (check_offsets, d, f, l) at k) a1,
            )
          ]
        ]
      ]
    ]

-- No reason to refuse a commit looks like a success.
Refuses : Option Outcome → Type 0
Refuses none = Unit {0}
Refuses (some o) = o.error_code ≢ 0

entries-Refuses :
    (tm : TopicManager) (entries : List OffsetCommitRequestEntry)
    → Refuses (check_entries tm entries)
unfolding Refuses check_entries
entries-Refuses tm [] = tt
entries-Refuses tm (entry ∷ entries) = elim (Bool-cases (is_internal entry.topic)) [
  | inl e ↦ rw (check_entries, e) (λ z. omega arith)
  | inr e ↦ elim (Option-cases (get_topic tm entry.topic)) [
    | inl d ↦ rw (check_entries, e, d) (λ z. omega arith)
    | inr (t, d) ↦ elim (Option-cases (get_partition t entry.partition)) [
      | inl f ↦ rw (check_entries, e, d, f) (λ z. omega arith)
      | inr (p, f) ↦ rw (check_entries, e, d, f) (entries-Refuses tm entries)
    ]
  ]
]

offsets-Refuses :
    (tm : TopicManager) (entries : List OffsetCommitRequestEntry)
    → Refuses (check_offsets tm entries)
unfolding Refuses check_offsets
offsets-Refuses tm [] = tt
offsets-Refuses tm (entry ∷ entries) =
    elim (Option-cases (find_partition tm entry.topic entry.partition)) [
      | inl e ↦ rw (check_offsets, e) (offsets-Refuses tm entries)
      | inr (p, e) ↦ elim (Bool-cases (ltb p.next_offset entry.offset)) [
        | inl d ↦ rw (check_offsets, e, d) (λ z. omega arith)
        | inr d ↦ rw (check_offsets, e, d) (offsets-Refuses tm entries)
      ]
    ]

member-Refuses :
    (group : Option Group) (member_id : Name) (generation : ℕ)
    (entries : List OffsetCommitRequestEntry)
    → Refuses (check_member group member_id generation entries)
unfolding Refuses check_member
member-Refuses none member_id generation entries = λ z. omega arith
member-Refuses (some g) member_id generation entries =
    elim (Option-cases (find member_id g.members)) [
      | inl e ↦ rw (check_member, e) (λ z. omega arith)
      | inr (m, e) ↦ elim (Bool-cases (generation == g.generation)) [
        | inr d ↦ rw (check_member, e, d) (λ z. omega arith)
        | inl d ↦ elim (Bool-cases (all_assigned m.assignment entries)) [
          | inr f ↦ rw (check_member, e, d, f) (λ z. omega arith)
          | inl f ↦ rw (check_member, e, d, f) tt
        ]
      ]
    ]

or_else-Refuses : (a b : Option Outcome) → Refuses a → Refuses b → Refuses (or_else a b)
or_else-Refuses none b h k = k
or_else-Refuses (some o) b h k = h

success-none :
    (o : Option Outcome) (store : OffsetStore) (committed : OffsetStore × Result (Unit {0}))
    → Refuses o
    → (after_check o store committed).1 ≡ success
    → o ≡ none
unfolding Refuses
success-none none store committed h e = refl
success-none (some o) store committed h e = absurd (h (ap (λ x. x.error_code) e))

module _ ⦃net : ByteOrder⦄ where
  -- A commit under a member's id that succeeds came from a member of the group, under its current
  -- generation, and for partitions that exist and that the member has, up to their ends at most.
  pub commit-IsAllowed :
      (c : Coordinator) (tm : TopicManager) (store : OffsetStore) (group_id : Name) (b : ℕ)
      (bs : Name) (generation : ℕ) (entries : List OffsetCommitRequestEntry) (now now_ms : ℕ)
      (disks : ℕ → Disk)
      → (commit c tm store group_id (b ∷ bs) generation entries now now_ms disks).1 ≡ success
      → (g : Group) × (m : MemberMetadata) × (find group_id c.groups ≡ some g)
        × (find (b ∷ bs) g.members ≡ some m)
        × (generation ≡ g.generation)
        × All (IsAllowed tm m) entries
  unfolding commit check_commit
  commit-IsAllowed c tm store group_id b bs generation entries now now_ms disks h =
      let checks : Option Outcome = check_commit c tm group_id (b ∷ bs) generation entries in
      let stored =
        OffsetStore.commit store group_id (items_of (now / 1000000) entries) now_ms disks in
      let passed : checks ≡ none =
        success-none checks store stored
          (or_else-Refuses _ _ (entries-Refuses tm entries) (
            or_else-Refuses _ _
              (member-Refuses (find group_id c.groups) (b ∷ bs) generation entries)
              (offsets-Refuses tm entries)))
          h in
      let (first, second) = or_else-none (check_entries tm entries) _ passed in
      let (third, last) =
        or_else-none (check_member (find group_id c.groups) (b ∷ bs) generation entries) _ second in
      let (g, m, found, member, gen, assigned) =
        member_may (find group_id c.groups) (b ∷ bs) generation entries third in
      (g, m, found, member, gen, entries-IsAllowed tm m entries first last assigned)
