-- ===== src/Group/Assignor/RoundRobin.antt =====
-- RoundRobinAssignor of src/Assignor.cpp: all partitions, sorted, are dealt out in turn.
use stream_forge.Base.{ℕ, zero, suc, ◌+◌, ◌%◌, List, [], ◌∷◌, ◌++◌, if◌then◌else◌, length, get_or}
use stream_forge.Group.Assignor.{
  TopicPartition, topic_partition_lt, Assignment, push_back, no_partitions,
}
use stream_forge.Base.Strings.{Name}

unfoldable pub topic_parts : Name → ℕ → ℕ → List TopicPartition
topic_parts topic first zero = []
topic_parts topic first (suc n) =
    record { topic = topic; partition = first } ∷ topic_parts topic (first + 1) n

unfoldable pub all_parts : List (Name × ℕ) → List TopicPartition
all_parts [] = []
all_parts ((topic, num_parts) ∷ topics) = topic_parts topic 0 num_parts ++ all_parts topics

-- std::sort; equal elements are the same, so that the algorithm does not show.
unfoldable pub insert : TopicPartition → List TopicPartition → List TopicPartition
insert x [] = x ∷ []
insert x (y ∷ ys) =
    let rest = insert x ys in if topic_partition_lt y x then y ∷ rest else x ∷ y ∷ ys

unfoldable pub sort : List TopicPartition → List TopicPartition
sort [] = []
sort (x ∷ xs) = insert x (sort xs)

unfoldable pub deal : List Name → ℕ → List TopicPartition → Assignment → Assignment
deal members i [] result = result
deal members i (x ∷ xs) result =
    deal members (i + 1) xs (push_back (get_or members (i % length members) []) x result)

unfoldable pub assign_round_robin : List Name → List (Name × ℕ) → Assignment
assign_round_robin [] topics = []
assign_round_robin (m ∷ members) topics =
    deal (m ∷ members) 0 (sort (all_parts topics)) (no_partitions (m ∷ members) [])
