-- ===== src/Group/Coordinator/Checking.antt =====
-- What debug_check_invariants of src/GroupCoordinator.cpp looks at holds of every group with the
-- invariant.
use mathlib.Core.Logic.{∥∥₁_elim}
use mathlib.Core.List.{Perm}
use stream_forge.Base.{
  ℕ, zero, suc, ◌+◌, ◌%◌, ◌^◌, ◌<◌, ◌≤◌, ◌≡◌, refl, sym, ap, ◌∙◌, subst, List, [], ◌∷◌, ◌++◌, true,
  ◌&&◌, some, arith, lt→ltb, ◌==◌, length, All,
}
use stream_forge.Base.Strings.{Name, Distinct, In, All-In, find}
use stream_forge.Topics.{Topic, num_partitions}
use stream_forge.Topics.Manager.{TopicManager, get_topic}
use stream_forge.Group.Assignor.{TopicPartition}
use stream_forge.Group.Assignor.RoundRobin.{topic_parts, all_parts}
use stream_forge.Group.Coordinator.{
  GroupState, CoordinatorConfig, MemberMetadata, Group, Coordinator, topic_partitions,
}
use stream_forge.Group.Coordinator.Sharing.{shared}
use stream_forge.Group.Coordinator.Inspection.{
  count_members, check_parts, check_topics, is_known, all_known, check_members, check_group,
  debug_check_invariants,
}
use stream_forge.Group.Coordinator.Counting.{
  count_in-Perm, all_known-Permᴰ, count_members_lem, IsKnown, count_once, and_assoc,
}
use stream_forge.Group.Coordinator.Invariant.{IsGroup}
use stream_forge.Group.Coordinator.Steps.{Reachable, Reachable-IsGroup}

check_parts-true :
    (t : Name) (p n limit : ℕ) (members : List (Name × MemberMetadata))
    → ((q : ℕ) → q < limit → count_members t q members ≡ 1)
    → p + n ≤ limit
    → check_parts t p n members ≡ true
check_parts-true t p zero limit members h le = refl
check_parts-true t p (suc n) limit members h le =
    let c : (count_members t p members == 1) ≡ true = let i = h p (omega arith) in ground arith in
    rw (c, check_parts-true t (p + 1) n limit members h (omega arith)) refl

module _ (tm : TopicManager) (ts : List Name) (members : List (Name × MemberMetadata))
    (d : Distinct ts) (share : Perm (shared members) (all_parts (topic_partitions tm ts))) where
  check_topics-true :
      (us : List Name)
      → All (λ u. In u ts) us
      → All (IsKnown tm) us
      → check_topics tm us members ≡ true
  unfolding check_topics IsKnown
  check_topics-true [] i k = refl
  check_topics-true (u ∷ us) i k =
      let (topic, found, few) = k.0 in
      let c : check_parts u 0 (num_partitions topic) members ≡ true =
        check_parts-true u 0 (num_partitions topic) (num_partitions topic) members
          (λ q lt.
            count_members_lem u q members
            ∙ count_in-Perm u q (shared members) (all_parts (topic_partitions tm ts)) share
            ∙ count_once tm u q ts topic i.0 d found few lt)
          (omega arith) in
      rw (check_topics, found, c) (check_topics-true us i.1 k.1)

all_known-append :
    (tm : TopicManager) (xs ys : List TopicPartition)
    → all_known tm (xs ++ ys) ≡ (all_known tm xs && all_known tm ys)
all_known-append tm [] ys = refl
all_known-append tm (x ∷ xs) ys =
    ap (λ b. is_known tm x && b) (all_known-append tm xs ys)
    ∙ and_assoc (is_known tm x) (all_known tm xs) (all_known tm ys)

known_parts :
    (tm : TopicManager) (t : Name) (topic : Topic) (first n : ℕ)
    → get_topic tm t ≡ some topic
    → first + n ≤ num_partitions topic
    → all_known tm (topic_parts t first n) ≡ true
unfolding topic_parts is_known
known_parts tm t topic first zero found le = refl
known_parts tm t topic first (suc n) found le =
    rw
      (
        is_known,
        found,
        lt→ltb first (num_partitions topic) (omega arith),
        known_parts tm t topic (first + 1) n found (omega arith),
      )
      refl

topic_partitions-known :
    (tm : TopicManager) (ts : List Name)
    → All (IsKnown tm) ts
    → all_known tm (all_parts (topic_partitions tm ts)) ≡ true
unfolding topic_partitions all_parts IsKnown
topic_partitions-known tm [] h = refl
topic_partitions-known tm (t ∷ ts) h =
    let (topic, found, few) = h.0 in
    let n : ℕ = num_partitions topic % 2 ^ 16 in
    rw
      (
        found,
        all_known-append tm (topic_parts t 0 n) (all_parts (topic_partitions tm ts)),
        known_parts tm t topic 0 n found (omega arith),
        topic_partitions-known tm ts h.1,
      )
      refl

check_members_lem :
    (tm : TopicManager) (members : List (Name × MemberMetadata))
    → check_members tm members ≡ all_known tm (shared members)
check_members_lem tm [] = refl
check_members_lem tm ((k, m) ∷ members) =
    ap (λ b. all_known tm m.assignment && b) (check_members_lem tm members)
    ∙ sym (all_known-append tm m.assignment (shared members))

check_group-true :
    (tm : TopicManager) (g : Group) (members : List (Name × MemberMetadata))
    → g.members ≡ members
    → IsGroup tm g
    → Distinct g.subscribed_topics
    → All (IsKnown tm) g.subscribed_topics
    → check_group tm g members ≡ true
unfolding check_group
check_group-true tm g [] e h d k =
    let s : g.state ≡ GroupState.empty = h.idle (ap length e) in rw (check_group, s) refl
check_group-true tm g (m ∷ ms) e h d k =
    let some_there : 0 < length g.members = let l = ap length e in omega arith in
    let ts : List Name = g.subscribed_topics in
    let share : Perm (shared (m ∷ ms)) (all_parts (topic_partitions tm ts)) =
      subst (λ l. Perm (shared l) (all_parts (topic_partitions tm ts))) e (h.active some_there).1 in
    let known : all_known tm (shared (m ∷ ms)) ≡ true =
      ∥∥₁_elim share (hlevel) (λ p. all_known-Permᴰ tm p) ∙ topic_partitions-known tm ts k in
    rw
      (
        check_topics-true tm ts (m ∷ ms) d share ts (All-In ts) k,
        check_members_lem tm (m ∷ ms),
        known,
      )
      refl

-- In every coordinator that steps lead to, debug_check_invariants has nothing to object to a group whose
-- topics are named once and exist, with a number of partitions that a uint16_t holds.
pub debug_check_invariants-true :
    (tm : TopicManager) (config : CoordinatorConfig) (c : Coordinator) (id : Name) (g : Group)
    → Reachable tm config c
    → find id c.groups ≡ some g
    → Distinct g.subscribed_topics
    → All (IsKnown tm) g.subscribed_topics
    → debug_check_invariants c tm id ≡ true
unfolding debug_check_invariants
debug_check_invariants-true tm config c id g r e d k =
    rw (debug_check_invariants, e)
      (check_group-true tm g g.members refl (Reachable-IsGroup tm config c id g r e) d k)
