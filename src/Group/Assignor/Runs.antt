-- ===== src/Group/Assignor/Runs.antt =====
-- Concrete assignments, and the theorems on them.
use stream_forge.Base.{ℕ, ◌≡◌, refl, ap, get_or, [], ◌∷◌, arith}
use stream_forge.Group.Assignor.{
  TopicPartition, topic_partition_lt, set_empty, push_back, no_partitions,
}
use stream_forge.Base.Strings.{Name, name_eq, Distinct}
use stream_forge.Group.Assignor.Range.{push_parts, push_members, push_topics, assign_range}
use stream_forge.Group.Assignor.RoundRobin.{
  topic_parts, all_parts, insert, sort, deal, assign_round_robin,
}
use stream_forge.Group.Assignor.Shares.{Shares, assign_range-Shares, assign_round_robin-Shares}

abbrev alice : Name
alice = 97 ∷ []

abbrev bob : Name
bob = 98 ∷ []

abbrev orders : Name
orders = 111 ∷ []

abbrev part : ℕ → TopicPartition
part n = record { topic = orders; partition = n }

assign_range-three :
    assign_range (alice ∷ bob ∷ []) ((orders, 3) ∷ [])
    ≡ (alice, part 0 ∷ part 1 ∷ []) ∷ (bob, part 2 ∷ []) ∷ []
unfolding assign_range push_topics push_members push_parts no_partitions set_empty push_back name_eq
assign_range-three = refl

assign_round_robin-three :
    assign_round_robin (alice ∷ bob ∷ []) ((orders, 3) ∷ [])
    ≡ (alice, part 0 ∷ part 2 ∷ []) ∷ (bob, part 1 ∷ []) ∷ []
unfolding assign_round_robin deal sort insert all_parts topic_parts no_partitions set_empty
    push_back topic_partition_lt name_eq
assign_round_robin-three = refl

distinct : Distinct (alice ∷ bob ∷ [])
distinct = ((λ e. let z : 97 ≡ 98 = ap (λ l. get_or l 0 0) e in omega arith, tt), (tt, tt))

assign_range-Shares_example :
    Shares
      (alice ∷ bob ∷ [])
      (all_parts ((orders, 3) ∷ []))
      (assign_range (alice ∷ bob ∷ []) ((orders, 3) ∷ []))
assign_range-Shares_example =
    assign_range-Shares alice (bob ∷ []) ((orders, 3) ∷ []) distinct (omega arith, tt)

assign_round_robin-Shares_example :
    Shares
      (alice ∷ bob ∷ [])
      (all_parts ((orders, 3) ∷ []))
      (assign_round_robin (alice ∷ bob ∷ []) ((orders, 3) ∷ []))
assign_round_robin-Shares_example =
    assign_round_robin-Shares alice (bob ∷ []) ((orders, 3) ∷ []) distinct
