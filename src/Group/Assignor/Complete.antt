-- ===== src/Group/Assignor/Complete.antt =====
-- What the assignors of src/Assignor.cpp hand out in all; RoundRobinAssignor.
use mathlib.Core.List.Perm
use stream_forge.Base.{
  ℕ, ◌+◌, ◌%◌, ◌≡◌, refl, List, [], ◌∷◌, ◌++◌, length, get_or, append_assoc, append-nil, Bool-cases,
  inl, inr,
}
use mathlib.Core.List.{Perm, perm_middle}
use stream_forge.Group.Assignor.{
  TopicPartition, topic_partition_lt, Assignment, set_empty, push_back, no_partitions,
}
use stream_forge.Base.Strings.{Name, name_eq}
use stream_forge.Group.Assignor.RoundRobin.{all_parts, insert, sort, deal, assign_round_robin}

-- All partitions that some member has, as often as a member has them.
abbrev pub values : Assignment → List TopicPartition
values [] = []
values ((k, xs) ∷ result) = xs ++ values result

pub values-push_back :
    (m : Name) (x : TopicPartition) (result : Assignment)
    → Perm (values (push_back m x result)) (x ∷ values result)
unfolding push_back
values-push_back m x [] = Perm.refl (x ∷ [])
values-push_back m x ((k, xs) ∷ result) = elim (Bool-cases (name_eq k m)) [
  | inl e ↦ rw (e, append_assoc xs (x ∷ []) (values result)) (perm_middle xs (values result))
  | inr e ↦ rw e (
      Perm.trans (Perm.append_left xs (values-push_back m x result))
        (perm_middle xs (values result)))
]

values-set_empty :
    (m : Name) (result : Assignment) → values result ≡ [] → values (set_empty m result) ≡ []
unfolding set_empty
values-set_empty m [] h = refl
values-set_empty m ((k, []) ∷ result) h = elim (Bool-cases (name_eq k m)) [
  | inl e ↦ rw e h
  | inr e ↦ rw e (values-set_empty m result h)
]
values-set_empty m ((k, x ∷ xs) ∷ result) h = absurd cc

pub values-no_partitions :
    (members : List Name) (result : Assignment)
    → values result ≡ []
    → values (no_partitions members result) ≡ []
unfolding no_partitions
values-no_partitions [] result h = h
values-no_partitions (m ∷ members) result h =
    values-no_partitions members (set_empty m result) (values-set_empty m result h)

-- Round robin.
values-deal :
    (members : List Name) (i : ℕ) (xs : List TopicPartition) (result : Assignment)
    → Perm (values (deal members i xs result)) (xs ++ values result)
unfolding deal
values-deal members i [] result = Perm.refl (values result)
values-deal members i (x ∷ xs) result =
    let m : Name = get_or members (i % length members) [] in
    Perm.trans (values-deal members (i + 1) xs (push_back m x result)) (
      Perm.trans (Perm.append_left xs (values-push_back m x result))
        (perm_middle xs (values result)))

insert-Perm : (x : TopicPartition) (xs : List TopicPartition) → Perm (insert x xs) (x ∷ xs)
unfolding insert
insert-Perm x [] = Perm.refl (x ∷ [])
insert-Perm x (y ∷ ys) = elim (Bool-cases (topic_partition_lt y x)) [
  | inl e ↦ rw e (Perm.trans (Perm.cons y (insert-Perm x ys)) (Perm.swap x y ys))
  | inr e ↦ rw e (Perm.refl (x ∷ y ∷ ys))
]

sort-Perm : (xs : List TopicPartition) → Perm (sort xs) xs
unfolding sort
sort-Perm [] = Perm.refl []
sort-Perm (x ∷ xs) = Perm.trans (insert-Perm x (sort xs)) (Perm.cons x (sort-Perm xs))

-- With at least one member, dealing out in turn assigns every partition of every topic, each as often as
-- its topic is named.
pub assign_round_robin-values :
    (m : Name) (members : List Name) (topics : List (Name × ℕ))
    → Perm (values (assign_round_robin (m ∷ members) topics)) (all_parts topics)
unfolding assign_round_robin
assign_round_robin-values m members topics =
    Perm.trans
      (rw (values-no_partitions (m ∷ members) [] refl, append-nil) at
        (values-deal (m ∷ members) 0 (sort (all_parts topics)) (no_partitions (m ∷ members) [])))
      (sort-Perm (all_parts topics))
