-- ===== src/Group/Assignor/Keys.antt =====
-- Which members an assignment of src/Assignor.cpp has: those it was made for.
use stream_forge.Base.{
  ℕ, zero, suc, ◌+◌, ◌/◌, ◌%◌, ◌≡◌, ◌≢◌, refl, sym, ap, ◌∙◌, subst, List, [], ◌∷◌, ◌++◌, arith,
  length, get_or, All, All-get_or_lt, append_assoc, append-nil, Bool-cases, inl, inr,
}
use native.Mathlib.Nat.{mod-lt}
use stream_forge.Base.Strings.{
  Name, name_eq, name_eq_refl, ≢→name_eq, keys, Distinct, In, All-In, Distinct-middle,
}
use stream_forge.Group.Assignor.{TopicPartition, Assignment, set_empty, push_back, no_partitions}
use stream_forge.Group.Assignor.Range.{
  push_parts, push_members, push_topics, assign_range, start, count,
}
use stream_forge.Group.Assignor.RoundRobin.{all_parts, deal, sort, assign_round_robin}

keys-set_empty :
    (m : Name) (result : Assignment)
    → All (λ k. k ≢ m) (keys result)
    → keys (set_empty m result) ≡ keys result ++ (m ∷ [])
unfolding set_empty
keys-set_empty m [] h = refl
keys-set_empty m ((k, xs) ∷ result) h =
    rw (≢→name_eq k m h.0) (ap (◌∷◌ k) (keys-set_empty m result h.1))

keys-no_partitions :
    (members : List Name) (result : Assignment)
    → Distinct (keys result ++ members)
    → keys (no_partitions members result) ≡ keys result ++ members
unfolding no_partitions
keys-no_partitions [] result h = sym (append-nil (keys result))
keys-no_partitions (m ∷ members) result h =
    let e : keys (set_empty m result) ≡ keys result ++ (m ∷ []) =
      keys-set_empty m result (Distinct-middle (keys result) m members h) in
    let d : keys (set_empty m result) ++ members ≡ keys result ++ (m ∷ members) =
      ap (λ ks. ks ++ members) e ∙ append_assoc (keys result) (m ∷ []) members in
    keys-no_partitions members (set_empty m result) (subst Distinct (sym d) h) ∙ d

keys-push_back :
    (m : Name) (x : TopicPartition) (result : Assignment)
    → In m (keys result)
    → keys (push_back m x result) ≡ keys result
unfolding push_back
keys-push_back m x [] h = absurd h
keys-push_back m x ((k, xs) ∷ result) (inl e) = rw (e, name_eq_refl m) refl
keys-push_back m x ((k, xs) ∷ result) (inr h) = elim (Bool-cases (name_eq k m)) [
  | inl e ↦ rw e refl
  | inr e ↦ rw e (ap (◌∷◌ k) (keys-push_back m x result h))
]

keys-push_parts :
    (m topic : Name) (first n : ℕ) (ks : List Name) (result : Assignment)
    → keys result ≡ ks
    → In m ks
    → keys (push_parts m topic first n result) ≡ ks
unfolding push_parts
keys-push_parts m topic first zero ks result e h = e
keys-push_parts m topic first (suc n) ks result e h =
    keys-push_parts m topic (first + 1) n ks _
      (keys-push_back m _ result (subst (In m) (sym e) h) ∙ e) h

keys-push_members :
    (base extra : ℕ) (topic : Name) (i : ℕ) (members ks : List Name) (result : Assignment)
    → keys result ≡ ks
    → All (λ m. In m ks) members
    → keys (push_members base extra topic i members result) ≡ ks
unfolding push_members
keys-push_members base extra topic i [] ks result e h = e
keys-push_members base extra topic i (m ∷ members) ks result e h =
    keys-push_members base extra topic (i + 1) members ks _
      (keys-push_parts m topic (start base extra i) (count base extra i) ks result e h.0) h.1

keys-push_topics :
    (members : List Name) (topics : List (Name × ℕ)) (result : Assignment)
    → keys result ≡ members
    → keys (push_topics members topics result) ≡ members
unfolding push_topics
keys-push_topics members [] result e = e
keys-push_topics members ((topic, num_parts) ∷ topics) result e =
    keys-push_topics members topics _ (
      keys-push_members (num_parts / length members) (num_parts % length members) topic 0 members
        members result e (All-In members))

keys-deal :
    (m : Name) (members : List Name) (i : ℕ) (xs : List TopicPartition) (result : Assignment)
    → keys result ≡ m ∷ members
    → keys (deal (m ∷ members) i xs result) ≡ m ∷ members
unfolding deal
keys-deal m members i [] result e = e
keys-deal m members i (x ∷ xs) result e =
    let ks : List Name = m ∷ members in
    let j : In (get_or ks (i % length ks) []) ks =
      All-get_or_lt (λ k. In k ks) ks (i % length ks) [] (mod-lt i (omega arith)) (All-In ks) in
    keys-deal m members (i + 1) xs _ (keys-push_back _ x result (subst (In _) (sym e) j) ∙ e)

pub keys-assign_range :
    (members : List Name) (topics : List (Name × ℕ))
    → Distinct members
    → keys (assign_range members topics) ≡ members
unfolding assign_range
keys-assign_range [] topics d = refl
keys-assign_range (m ∷ ms) topics d =
    keys-push_topics (m ∷ ms) topics (no_partitions (m ∷ ms) []) (keys-no_partitions (m ∷ ms) [] d)

pub keys-assign_round_robin :
    (members : List Name) (topics : List (Name × ℕ))
    → Distinct members
    → keys (assign_round_robin members topics) ≡ members
unfolding assign_round_robin
keys-assign_round_robin [] topics d = refl
keys-assign_round_robin (m ∷ ms) topics d =
    keys-deal m ms 0 (sort (all_parts topics)) (no_partitions (m ∷ ms) [])
      (keys-no_partitions (m ∷ ms) [] d)
