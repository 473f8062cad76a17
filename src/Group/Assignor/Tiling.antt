-- ===== src/Group/Assignor/Tiling.antt =====
-- RangeAssignor of src/Assignor.cpp: the ranges of a topic stand one behind the other.
use mathlib.Core.List.Perm
use stream_forge.Base.{
  ℕ, zero, suc, ◌+◌, ◌-◌, ◌*◌, ◌/◌, ◌%◌, ◌^◌, ◌<◌, ◌≤◌, ◌≡◌, refl, sym, ap, ◌∙◌, subst, min, List,
  [], ◌∷◌, ◌++◌, arith, length, All, append_assoc, append-nil,
}
use mathlib.Core.List.{Perm, perm_middle, perm_append_comm}
use native.Mathlib.Nat.{mod-lt, div-add-mod'}
use stream_forge.Group.Assignor.{TopicPartition, Assignment, push_back, no_partitions}
use stream_forge.Base.Strings.{Name}
use stream_forge.Group.Assignor.Range.{
  push_parts, start, count, push_members, push_topics, assign_range,
}
use stream_forge.Group.Assignor.RoundRobin.{topic_parts, all_parts}
use stream_forge.Group.Assignor.Complete.{values, values-push_back, values-no_partitions}

values-push_parts :
    (m topic : Name) (first n : ℕ) (result : Assignment)
    → first + n ≤ 2 ^ 16
    → Perm (values (push_parts m topic first n result)) (topic_parts topic first n ++ values result)
unfolding push_parts topic_parts
values-push_parts m topic first zero result h = Perm.refl (values result)
values-push_parts m topic first (suc n) result h =
    let e : first % 2 ^ 16 ≡ first = omega arith in
    let x : TopicPartition = record { topic = topic; partition = first } in
    rw e (
      Perm.trans (values-push_parts m topic (first + 1) n (push_back m x result) (omega arith)) (
        Perm.trans
          (Perm.append_left (topic_parts topic (first + 1) n) (values-push_back m x result))
          (perm_middle (topic_parts topic (first + 1) n) (values result))))

topic_parts-add :
    (topic : Name) (first m n : ℕ)
    → topic_parts topic first (m + n) ≡ topic_parts topic first m ++ topic_parts topic (first + m) n
unfolding topic_parts
topic_parts-add topic first zero n =
    let a : first + 0 ≡ first = omega arith in let b : 0 + n ≡ n = omega arith in rw (a, b) refl
topic_parts-add topic first (suc m) n =
    let a : first + suc m ≡ first + 1 + m = omega arith in
    let b : suc m + n ≡ suc (m + n) = omega arith in
    rw (a, b)
      (ap (◌∷◌ (record { topic = topic; partition = first }))
        (topic_parts-add topic (first + 1) m n))

-- The ranges stand one behind the other.
start-suc : (base extra i : ℕ) → start base extra (i + 1) ≡ start base extra i + count base extra i
start-suc base extra i = let p : (i + 1) * base ≡ i * base + base = omega arith in ground arith

start-add : (base extra i n : ℕ) → start base extra i ≤ start base extra (i + n)
start-add base extra i n =
    let p : (i + n) * base ≡ i * base + n * base = omega arith in ground arith

join :
    {all pushed both : List TopicPartition} (own others before : List TopicPartition)
    → Perm all (others ++ pushed)
    → Perm pushed (own ++ before)
    → both ≡ own ++ others
    → Perm all (both ++ before)
join own others before h k e =
    rw (e, append_assoc own others before)
      (Perm.trans h (
        Perm.trans (Perm.append_left others k) (
          rw (← append_assoc others own before, ← append_assoc own others before)
            (Perm.append_right before (perm_append_comm others own)))))

values-push_members :
    (base extra : ℕ) (topic : Name) (i : ℕ) (members : List Name) (result : Assignment)
    → start base extra (i + length members) ≤ 2 ^ 16
    → Perm (values (push_members base extra topic i members result)) (
        topic_parts topic
          (start base extra i)
          (start base extra (i + length members) - start base extra i)
        ++ values result)
unfolding push_members topic_parts
values-push_members base extra topic i [] result h =
    let z : i + 0 ≡ i = omega arith in
    let d : start base extra i - start base extra i ≡ 0 = omega arith in
    rw (z, d) (Perm.refl (values result))
values-push_members base extra topic i (m ∷ members) result h =
    let n : i + 1 + length members ≡ i + length (m ∷ members) = omega arith in
    let s : start base extra (i + 1) ≡ start base extra i + count base extra i =
      start-suc base extra i in
    let l : start base extra (i + 1) ≤ start base extra (i + 1 + length members) =
      start-add base extra (i + 1) (length members) in
    let a : ℕ = start base extra i in
    let c : ℕ = count base extra i in
    let rest : ℕ = start base extra (i + 1 + length members) - start base extra (i + 1) in
    let k : start base extra (i + 1 + length members)
        ≡ start base extra (i + length (m ∷ members)) =
      ap (start base extra) n in
    let e : start base extra (i + length (m ∷ members)) - a ≡ c + rest = omega arith in
    let tail : Perm (values (push_members base extra topic i (m ∷ members) result)) (
        topic_parts topic (start base extra (i + 1)) rest
        ++ values (push_parts m topic a c result)) =
      values-push_members base extra topic (i + 1) members (push_parts m topic a c result)
        (omega arith) in
    let own = values-push_parts m topic a c result (omega arith) in
    join (topic_parts topic a c) (topic_parts topic (start base extra (i + 1)) rest) (values result)
      tail own
      (ap (topic_parts topic a) e
        ∙ topic_parts-add topic a c rest
        ∙ ap (λ z. topic_parts topic a c ++ topic_parts topic z rest) (sym s))

start_all : (k n : ℕ) → 0 < n → start (k / n) (k % n) (0 + n) ≡ k
start_all k n h =
    let r : k % n < n = mod-lt k h in
    let d : k / n * n + k % n ≡ k = div-add-mod' k n in
    let c : (0 + n) * (k / n) ≡ k / n * n = omega arith in
    let s : min (0 + n) (k % n) ≡ k % n = omega arith in omega arith

values-topic :
    (m topic : Name) (members : List Name) (k : ℕ) (result : Assignment)
    → k < 2 ^ 16
    → Perm
        (values (
          push_members
            (k / length (m ∷ members))
            (k % length (m ∷ members))
            topic
            0
            (m ∷ members)
            result))
        (topic_parts topic 0 k ++ values result)
values-topic m topic members k result h =
    let n : ℕ = length (m ∷ members) in
    let e : start (k / n) (k % n) (0 + n) ≡ k = start_all k n (omega arith) in
    let z : start (k / n) (k % n) 0 ≡ 0 = omega arith in
    let d : start (k / n) (k % n) (0 + n) - start (k / n) (k % n) 0 ≡ k = omega arith in
    let q = values-push_members (k / n) (k % n) topic 0 (m ∷ members) result (omega arith) in
    subst
      (λ l.
        Perm (values (push_members (k / n) (k % n) topic 0 (m ∷ members) result))
          (l ++ values result))
      (ap (λ a. topic_parts topic a (start (k / n) (k % n) (0 + n) - start (k / n) (k % n) 0)) z
        ∙ ap (topic_parts topic 0) d)
      q

values-push_topics :
    (m : Name) (members : List Name) (topics : List (Name × ℕ)) (result : Assignment)
    → All (λ t. t.1 < 2 ^ 16) topics
    → Perm (values (push_topics (m ∷ members) topics result)) (all_parts topics ++ values result)
unfolding push_topics all_parts
values-push_topics m members [] result h = Perm.refl (values result)
values-push_topics m members ((topic, k) ∷ topics) result h =
    join (topic_parts topic 0 k) (all_parts topics) (values result)
      (values-push_topics m members topics
        (push_members (k / length (m ∷ members)) (k % length (m ∷ members)) topic 0 (m ∷ members)
          result)
        h.1)
      (values-topic m topic members k result h.0) refl

-- With at least one member, and numbers of partitions that fit in 16 bits, the ranges assign every
-- partition of every topic, each as often as its topic is named.
pub assign_range-values :
    (m : Name) (members : List Name) (topics : List (Name × ℕ))
    → All (λ t. t.1 < 2 ^ 16) topics
    → Perm (values (assign_range (m ∷ members) topics)) (all_parts topics)
unfolding assign_range
assign_range-values m members topics h =
    rw (values-no_partitions (m ∷ members) [] refl, append-nil) at
      (values-push_topics m members topics (no_partitions (m ∷ members) []) h)
