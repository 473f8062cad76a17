-- ===== src/Group/Assignor/Shares.antt =====
-- What the assignors of src/Assignor.cpp give to whom.
use mathlib.Core.List.{Perm}
use stream_forge.Base.{ℕ, ◌^◌, ◌<◌, ◌≡◌, List, ◌∷◌, All}
use stream_forge.Base.Strings.{Name, keys, Distinct}
use stream_forge.Group.Assignor.{TopicPartition, Assignment}
use stream_forge.Group.Assignor.Range.{assign_range}
use stream_forge.Group.Assignor.RoundRobin.{all_parts, assign_round_robin}
use stream_forge.Group.Assignor.Complete.{values, assign_round_robin-values}
use stream_forge.Group.Assignor.Tiling.{assign_range-values}
use stream_forge.Group.Assignor.Keys.{keys-assign_range, keys-assign_round_robin}

-- The members, each once and no others, have these partitions together.
abbrev pub Shares : List Name → List TopicPartition → Assignment → Type 0
Shares members parts result = (keys result ≡ members) × Perm (values result) parts

-- With at least one member, distinct members, and numbers of partitions that fit in 16 bits, the ranges
-- are given to these members and to no one else, and are together all partitions of the topics, each as
-- often as its topic is named.
pub assign_range-Shares :
    (m : Name) (members : List Name) (topics : List (Name × ℕ))
    → Distinct (m ∷ members)
    → All (λ t. t.1 < 2 ^ 16) topics
    → Shares (m ∷ members) (all_parts topics) (assign_range (m ∷ members) topics)
assign_range-Shares m members topics d h =
    (keys-assign_range (m ∷ members) topics d, assign_range-values m members topics h)

-- With at least one member and distinct members, what is dealt out is given to these members and to no
-- one else, and is together all partitions of the topics, each as often as its topic is named.
pub assign_round_robin-Shares :
    (m : Name) (members : List Name) (topics : List (Name × ℕ))
    → Distinct (m ∷ members)
    → Shares (m ∷ members) (all_parts topics) (assign_round_robin (m ∷ members) topics)
assign_round_robin-Shares m members topics d =
    (keys-assign_round_robin (m ∷ members) topics d, assign_round_robin-values m members topics)
