-- ===== src/Topics/Partitioner.antt =====
-- src/Partitioner.cpp: which partition a record goes to. A partitioner is its counter.
use Prim.Native.Nat.{bit_xor}
use stream_forge.Base.{ℕ, ◌+◌, ◌*◌, ◌%◌, ◌^◌, List, [], ◌∷◌, ◌==◌, if◌then◌else◌}

-- RoundRobinPartitioner::partition: the counter after it, and the partition.
unfoldable pub round_robin_partition : ℕ → ℕ → ℕ × ℕ
round_robin_partition counter num_partitions =
    if num_partitions == 0 then (counter, 0) else ((counter + 1) % 2 ^ 32, counter % num_partitions)

-- From the hash so far.
unfoldable pub fnv1a_32 : ℕ → List ℕ → ℕ
fnv1a_32 hash [] = hash
fnv1a_32 hash (b ∷ bytes) = fnv1a_32 (bit_xor hash b * 16777619 % 2 ^ 32) bytes

-- KeyHashPartitioner::partition, with the counter of its fallback.
unfoldable pub key_hash_partition : ℕ → List ℕ → ℕ → ℕ × ℕ
key_hash_partition counter [] num_partitions = round_robin_partition counter num_partitions
key_hash_partition counter (b ∷ key) num_partitions =
    if num_partitions == 0
    then (counter, 0)
    else (counter, fnv1a_32 2166136261 (b ∷ key) % num_partitions)
