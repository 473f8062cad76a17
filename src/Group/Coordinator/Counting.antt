-- ===== src/Group/Coordinator/Counting.antt =====
-- How often the members of a group of src/GroupCoordinator.cpp have a partition.
use mathlib.Core.Logic.{∥∥₁_elim}
use mathlib.Core.List.{Perm, Permᴰ}
use stream_forge.Base.{
  ℕ, zero, suc, ◌+◌, ◌%◌, ◌^◌, ◌<◌, ◌≡◌, ◌≢◌, refl, sym, ◌∙◌, subst, List, [], ◌∷◌, ◌++◌, Bool,
  true, false, ◌&&◌, Option, none, some, arith, leb, ltb, if◌then◌else◌, All, inl, inr,
}
use stream_forge.Base.Strings.{Name, name_eq_refl, ≢→name_eq, Distinct, In}
use stream_forge.Topics.{Topic, num_partitions}
use stream_forge.Topics.Manager.{TopicManager, get_topic}
use stream_forge.Group.Assignor.{TopicPartition}
use stream_forge.Group.Assignor.RoundRobin.{topic_parts, all_parts}
use stream_forge.Group.Coordinator.{MemberMetadata, push_topic, topic_partitions}
use stream_forge.Group.Coordinator.Sharing.{shared}
use stream_forge.Group.Coordinator.Inspection.{count_in, count_members, all_known}

-- Counting does not look at the order.
count_in-Permᴰ :
    (t : Name) (p : ℕ) {xs ys : List TopicPartition}
    → Permᴰ xs ys
    → count_in t p xs ≡ count_in t p ys
count_in-Permᴰ t p Permᴰ.nil = refl
count_in-Permᴰ t p (Permᴰ.cons {a} {b} e d) = rw (e, count_in-Permᴰ t p d) refl
count_in-Permᴰ t p (Permᴰ.swap {a} {b} {a'} {b'} {l} e f) = rw (e, f) (omega arith)
count_in-Permᴰ t p (Permᴰ.trans d e) = count_in-Permᴰ t p d ∙ count_in-Permᴰ t p e

pub count_in-Perm :
    (t : Name) (p : ℕ) (xs ys : List TopicPartition)
    → Perm xs ys
    → count_in t p xs ≡ count_in t p ys
count_in-Perm t p xs ys h = ∥∥₁_elim h (hlevel) (λ d. count_in-Permᴰ t p d)

and_swap : (a b c : Bool) → (a && (b && c)) ≡ (b && (a && c))
and_swap true b c = refl
and_swap false true c = refl
and_swap false false c = refl

pub and_assoc : (a b c : Bool) → (a && (b && c)) ≡ ((a && b) && c)
and_assoc true b c = refl
and_assoc false b c = refl

pub all_known-Permᴰ :
    (tm : TopicManager) {xs ys : List TopicPartition}
    → Permᴰ xs ys
    → all_known tm xs ≡ all_known tm ys
all_known-Permᴰ tm Permᴰ.nil = refl
all_known-Permᴰ tm (Permᴰ.cons e d) = rw (e, all_known-Permᴰ tm d) refl
all_known-Permᴰ tm (Permᴰ.swap {l = l} e f) = rw (e, f) (and_swap _ _ (all_known tm l))
all_known-Permᴰ tm (Permᴰ.trans d e) = all_known-Permᴰ tm d ∙ all_known-Permᴰ tm e

count_in-append :
    (t : Name) (p : ℕ) (xs ys : List TopicPartition)
    → count_in t p (xs ++ ys) ≡ count_in t p xs + count_in t p ys
count_in-append t p [] ys = omega arith
count_in-append t p (x ∷ xs) ys = omega (arith, count_in-append t p xs ys)

pub count_members_lem :
    (t : Name) (p : ℕ) (members : List (Name × MemberMetadata))
    → count_members t p members ≡ count_in t p (shared members)
count_members_lem t p [] = refl
count_members_lem t p ((k, m) ∷ members) =
    omega (arith, count_in-append t p m.assignment (shared members), count_members_lem t p members)

count_other : (t s : Name) (p first n : ℕ) → s ≢ t → count_in t p (topic_parts s first n) ≡ 0
unfolding topic_parts
count_other t s p first zero h = refl
count_other t s p first (suc n) h =
    rw (≢→name_eq s t h) (omega (arith, count_other t s p (first + 1) n h))

count_own :
    (t : Name) (p first n : ℕ)
    → count_in t p (topic_parts t first n) ≡ (if leb first p && ltb p (first + n) then 1 else 0)
unfolding topic_parts
count_own t p first zero = ground arith
count_own t p first (suc n) =
    let i = count_own t p (first + 1) n in let e = name_eq_refl t in rw e (ground arith)

count-push_topic :
    (t s : Name) (p : ℕ) (topic : Option Topic) (rest : List (Name × ℕ))
    → s ≢ t
    → count_in t p (all_parts (push_topic s topic rest)) ≡ count_in t p (all_parts rest)
unfolding all_parts
count-push_topic t s p none rest h = refl
count-push_topic t s p (some topic) rest h =
    let n : ℕ = num_partitions topic % 2 ^ 16 in
    omega (arith, count_in-append t p (topic_parts s 0 n) (all_parts rest), count_other t s p 0 n h)

-- A topic that is not subscribed to has no partitions there.
count_none :
    (tm : TopicManager) (t : Name) (p : ℕ) (ts : List Name)
    → All (λ s. t ≢ s) ts
    → count_in t p (all_parts (topic_partitions tm ts)) ≡ 0
unfolding topic_partitions all_parts
count_none tm t p [] h = refl
count_none tm t p (s ∷ ts) h =
    count-push_topic t s p (get_topic tm s) (topic_partitions tm ts) (λ e. h.0 (sym e))
    ∙ count_none tm t p ts h.1

-- A topic that exists, with a number of partitions that a uint16_t holds.
unfoldable pub IsKnown : TopicManager → Name → Type 0
IsKnown tm t = (topic : Topic) × (get_topic tm t ≡ some topic) × (num_partitions topic < 2 ^ 16)

All-In-apply : (P : Name → Type 0) (t : Name) (ts : List Name) → All P ts → In t ts → P t
All-In-apply P t [] h i = absurd i
All-In-apply P t (s ∷ ts) h (inl e) = subst P e h.0
All-In-apply P t (s ∷ ts) h (inr i) = All-In-apply P t ts h.1 i

pub count_once :
    (tm : TopicManager) (t : Name) (p : ℕ) (ts : List Name) (topic : Topic)
    → In t ts
    → Distinct ts
    → get_topic tm t ≡ some topic
    → num_partitions topic < 2 ^ 16
    → p < num_partitions topic
    → count_in t p (all_parts (topic_partitions tm ts)) ≡ 1
unfolding topic_partitions all_parts
count_once tm t p [] topic i d k few lt = absurd i
count_once tm t p (s ∷ ts) topic (inl e) d k few lt =
    let n : ℕ = num_partitions topic % 2 ^ 16 in
    let own : count_in t p (topic_parts t 0 n) ≡ 1 =
      let o = count_own t p 0 n in let w : n ≡ num_partitions topic = omega arith in ground arith in
    let z : count_in t p (all_parts (topic_partitions tm ts)) ≡ 0 =
      count_none tm t p ts (subst (λ x. All (λ j. x ≢ j) ts) e d.0) in
    rw (e, k)
      (omega (
        arith,
        count_in-append t p (topic_parts t 0 n) (all_parts (topic_partitions tm ts)),
        own,
        z,
      ))
count_once tm t p (s ∷ ts) topic (inr i) d k few lt =
    count-push_topic t s p (get_topic tm s) (topic_partitions tm ts)
      (All-In-apply (λ j. s ≢ j) t ts d.0 i)
    ∙ count_once tm t p ts topic i d.1 k few lt
