-- ===== src/Topics/Choice.antt =====
-- What `produce_batch` of src/Topic.cpp does, and to which partition.
use stream_forge.Base.{
  ℕ, zero, suc, some, ap, ◌%◌, ◌^◌, ◌<◌, ◌≡◌, ◌⊎◌, refl, List, [], ◌∷◌, false, ◌||◌, not, arith,
  ◌==◌, Bool-cases, inl, inr, length, get_elem?,
}
use native.Mathlib.Nat.{mod-lt}
use stream_forge.Status.{StatusCode, Result, error}
use stream_forge.Storage.Partition.{Partition, BatchItem, append_batch}
use stream_forge.Topics.{
  Topic, set_partition, num_partitions, signed_lt32, choose_partition, produce_to, produce_batch,
}
use stream_forge.Topics.Partitioner.{round_robin_partition, fnv1a_32, key_hash_partition}

round_robin-lt : (counter n : ℕ) → 0 < n → (round_robin_partition counter n).1 < n
unfolding round_robin_partition
round_robin-lt counter n h =
    let m : counter % n < n = mod-lt counter h in
    let e : (n == 0) ≡ false = ground arith in rw (round_robin_partition, e) m

key_hash-lt :
    (counter : ℕ) (key : List ℕ) (n : ℕ) → 0 < n → (key_hash_partition counter key n).1 < n
unfolding key_hash_partition
key_hash-lt counter [] n h = round_robin-lt counter n h
key_hash-lt counter (b ∷ key) n h =
    let m : fnv1a_32 2166136261 (b ∷ key) % n < n = mod-lt (fnv1a_32 2166136261 (b ∷ key)) h in
    let e : (n == 0) ≡ false = ground arith in rw (key_hash_partition, e) m

choose_partition-lt :
    (t : Topic) (partition : ℕ) (key : List ℕ)
    → 0 < length t.partitions
    → length t.partitions < 2 ^ 31
    → partition < length t.partitions ⊎ (partition ≡ 0xffff_ffff)
    → (choose_partition t partition key).1 < length t.partitions
unfolding choose_partition num_partitions
choose_partition-lt t partition key some_there few h =
    elim (Bool-cases (partition == 0xffff_ffff)) [
      | inr e ↦ rw (choose_partition, e) (elim h [ inl l ↦ l | inr i ↦ absurd (ground arith) ])
      | inl e ↦ rw (choose_partition, e) (by_key key)
    ]
  where
    by_key : (key : List ℕ) → (choose_partition t 0xffff_ffff key).1 < length t.partitions
    by_key [] =
        let n : ℕ = length t.partitions % 2 ^ 32 in
        let l : (round_robin_partition t.rr_counter n).1 < n =
          round_robin-lt t.rr_counter n (omega arith) in
        omega arith
    by_key (b ∷ bs) =
        let n : ℕ = length t.partitions % 2 ^ 32 in
        let l : (key_hash_partition t.key_counter (b ∷ bs) n).1 < n =
          key_hash-lt t.key_counter (b ∷ bs) n (omega arith) in
        omega arith

-- The batch is appended to partition `chosen`, whose new state takes its place while the other
-- partitions stay, and the result is that of the append.
pub record Produced (t : Topic) (chosen : ℕ) (batch : List BatchItem) (now_ms : ℕ)
    (res : Topic × ℕ × Result ℕ) : Type 0 where
  pub p : Partition
  pub there : get_elem? t.partitions chosen ≡ some p
  pub reported : res.1 ≡ chosen
  pub appended : res.2 ≡ (append_batch p batch now_ms).1
  pub stored : res.0.partitions ≡ set_partition chosen (append_batch p batch now_ms).0 t.partitions

pub get_elem?-lt :
    (ps : List Partition) (i : ℕ) → i < length ps → (p : Partition) × (get_elem? ps i ≡ some p)
get_elem?-lt [] i h = absurd (omega arith)
get_elem?-lt (p ∷ ps) zero h = (p, refl)
get_elem?-lt (p ∷ ps) (suc i) h = get_elem?-lt ps i (omega arith)

produce_to-Produced :
    (t t' : Topic) (chosen : ℕ) (batch : List BatchItem) (now_ms : ℕ)
    → chosen < length t.partitions
    → t'.partitions ≡ t.partitions
    → Produced t chosen batch now_ms (produce_to (t', chosen) batch now_ms)
unfolding produce_to
produce_to-Produced t t' chosen batch now_ms h same =
    let (p, e) = get_elem?-lt t.partitions chosen h in
    let f : get_elem? t'.partitions chosen ≡ some p = rw same e in
    rw (produce_to, f)
      (record {
        p = p;
        there = e;
        reported = refl;
        appended = refl;
        stored = ap (set_partition chosen (append_batch p batch now_ms).0) same;
      })

choose_partition-partitions :
    (t : Topic) (partition : ℕ) (key : List ℕ)
    → (choose_partition t partition key).0.partitions ≡ t.partitions
unfolding choose_partition
choose_partition-partitions t partition [] = ground arith
choose_partition-partitions t partition (b ∷ key) = ground arith

choose_partition-given :
    (t : Topic) (partition : ℕ) (key : List ℕ)
    → (partition ≡ 0xffff_ffff) ⊎ ((choose_partition t partition key).1 ≡ partition)
unfolding choose_partition
choose_partition-given t partition key = elim (Bool-cases (partition == 0xffff_ffff)) [
  | inl e ↦ inl (ground arith)
  | inr e ↦ inr (rw (choose_partition, e) refl)
]

-- A batch that is not empty is refused, and then nothing has changed, or is appended to one partition
-- that the topic has: the one the client has named, unless it leaves the choice to the topic. Nothing
-- else of the partitions changes, and the result is that of the append. (Topics have between one and
-- 2 ^ 31 partitions.)
pub produce_batch-Produced :
    (t : Topic) (partition : ℕ) (r : BatchItem) (records : List BatchItem) (now_ms out : ℕ)
    → 0 < length t.partitions
    → length t.partitions < 2 ^ 31
    → partition < 2 ^ 32
    → (produce_batch t partition (r ∷ records) now_ms out
        ≡ (t, out, error StatusCode.invalid_argument))
      ⊎ ((chosen : ℕ) × ((partition ≡ 0xffff_ffff) ⊎ (chosen ≡ partition))
          × Produced t chosen
              (r ∷ records)
              now_ms
              (produce_batch t partition (r ∷ records) now_ms out))
unfolding produce_batch
produce_batch-Produced t partition r records now_ms out some_there few fits =
    elim (Bool-cases (
      signed_lt32 partition 0xffff_ffff
      || not (signed_lt32 partition (length t.partitions % 2 ^ 32)))) [
        | inl e ↦ inl (rw (produce_batch, e) refl)
        | inr e ↦
            let w : length t.partitions % 2 ^ 32 ≡ length t.partitions = omega arith in
            let i : partition < length t.partitions ⊎ (partition ≡ 0xffff_ffff) = ground arith in
            let l = choose_partition-lt t partition r.key some_there few i in
            let c = choose_partition t partition r.key in
            inr (
              c.1,
              choose_partition-given t partition r.key,
              rw (produce_batch, e)
                  (produce_to-Produced t c.0 c.1 (r ∷ records) now_ms l
                    (choose_partition-partitions t partition r.key)),
            )
      ]
