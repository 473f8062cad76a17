-- ===== src/Group/Assignor.antt =====
-- src/Assignor.cpp, include/streamforge/Assignor.hpp: which member of a group reads which partitions.
-- A string is its bytes.
pub mod Range
pub mod RoundRobin
pub mod Complete
pub mod Tiling
pub mod Keys
pub mod Shares
mod Runs
use stream_forge.Base.Strings.{Name, name_eq, name_lt}
use stream_forge.Base.{
  ℕ, zero, suc, ◌+◌, ◌*◌, ◌/◌, ◌%◌, ◌^◌, min, List, [], ◌∷◌, ◌++◌, Bool, true, false, ◌&&◌, ltb,
  ◌==◌, if◌then◌else◌, length, get_or,
}

pub record TopicPartition : Type 0 where
  pub topic : Name
  pub partition : ℕ

pub topic_partition_lt : TopicPartition → TopicPartition → Bool
topic_partition_lt a b =
    if name_eq a.topic b.topic then ltb a.partition b.partition else name_lt a.topic b.topic

-- The unordered_map from members to their partitions.
abbrev pub Assignment : Type 0
Assignment = List (Name × List TopicPartition)

-- result[m] = {}
unfoldable pub set_empty : Name → Assignment → Assignment
set_empty m [] = (m, []) ∷ []
set_empty m ((k, xs) ∷ result) =
    let rest = set_empty m result in if name_eq k m then (k, []) ∷ result else (k, xs) ∷ rest

-- result[m].push_back(x)
unfoldable pub push_back : Name → TopicPartition → Assignment → Assignment
push_back m x [] = (m, x ∷ []) ∷ []
push_back m x ((k, xs) ∷ result) =
    let rest = push_back m x result in
    if name_eq k m then (k, xs ++ (x ∷ [])) ∷ result else (k, xs) ∷ rest

unfoldable pub no_partitions : List Name → Assignment → Assignment
no_partitions [] result = result
no_partitions (m ∷ members) result = no_partitions members (set_empty m result)
