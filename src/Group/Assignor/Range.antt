-- ===== src/Group/Assignor/Range.antt =====
-- RangeAssignor of src/Assignor.cpp: of every topic, each member gets a range. (`i * base` is at most
-- the number of partitions, so that size_t does not overflow.)
use stream_forge.Base.{
  ℕ, zero, suc, ◌+◌, ◌*◌, ◌/◌, ◌%◌, ◌^◌, min, List, [], ◌∷◌, ltb, if◌then◌else◌, length,
}
use stream_forge.Group.Assignor.{Assignment, push_back, no_partitions}
use stream_forge.Base.Strings.{Name}

-- `count` partitions from `first` on.
unfoldable pub push_parts : Name → Name → ℕ → ℕ → Assignment → Assignment
push_parts m topic first zero result = result
push_parts m topic first (suc count) result =
    push_parts m topic (first + 1) count
      (push_back m (record { topic = topic; partition = first % 2 ^ 16 }) result)

-- `start` and `count` of the i-th member.
abbrev pub start : ℕ → ℕ → ℕ → ℕ
start base extra i = i * base + min i extra

abbrev pub count : ℕ → ℕ → ℕ → ℕ
count base extra i = base + (if ltb i extra then 1 else 0)

-- The members from the i-th on.
unfoldable pub push_members : ℕ → ℕ → Name → ℕ → List Name → Assignment → Assignment
push_members base extra topic i [] result = result
push_members base extra topic i (m ∷ members) result =
    push_members base extra topic (i + 1) members
      (push_parts m topic (start base extra i) (count base extra i) result)

unfoldable pub push_topics : List Name → List (Name × ℕ) → Assignment → Assignment
push_topics members [] result = result
push_topics members ((topic, num_parts) ∷ topics) result =
    push_topics members topics (
      push_members (num_parts / length members) (num_parts % length members) topic 0 members result)

unfoldable pub assign_range : List Name → List (Name × ℕ) → Assignment
assign_range [] topics = []
assign_range (m ∷ members) topics =
    push_topics (m ∷ members) topics (no_partitions (m ∷ members) [])
