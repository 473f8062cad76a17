-- ===== src/Group/Coordinator/Expiry.antt =====
-- `expire_members` of src/GroupCoordinator.cpp: members that have not been heard of go.
use stream_forge.Base.{ℕ, ◌+◌, ◌-◌, ◌/◌, List, [], ◌∷◌, Bool, ltb, if◌then◌else◌, length}
use stream_forge.Base.Strings.{Name, erase}
use stream_forge.Topics.Manager.{TopicManager}
use stream_forge.Group.Coordinator.{MemberMetadata, Group, Coordinator, next_generation}

-- A heartbeat in the future counts as zero milliseconds ago, which no timeout is below.
abbrev pub has_expired : ℕ → MemberMetadata → Bool
has_expired now m = ltb m.session_timeout_ms ((now - m.last_heartbeat) / 1000000)

unfoldable pub expired_ids : ℕ → List (Name × MemberMetadata) → List Name
expired_ids now [] = []
expired_ids now ((name, m) ∷ members) =
    let rest = expired_ids now members in if has_expired now m then name ∷ rest else rest

unfoldable pub erase_all : List Name → List (Name × MemberMetadata) → List (Name × MemberMetadata)
erase_all [] members = members
erase_all (id ∷ ids) members = erase_all ids (erase id members)

-- With the number of members that have gone.
unfoldable pub expire_ids : TopicManager → Group → List Name → Group × ℕ
expire_ids tm group [] = (group, 0)
expire_ids tm group (id ∷ ids) = (
  next_generation tm (record group { members = erase_all (id ∷ ids) group.members }),
  length (id ∷ ids),
)

unfoldable pub expire_group : TopicManager → ℕ → Group → Group × ℕ
expire_group tm now group = expire_ids tm group (expired_ids now group.members)

unfoldable pub expire_groups : TopicManager → ℕ → List (Name × Group) → List (Name × Group) × ℕ
expire_groups tm now [] = ([], 0)
expire_groups tm now ((name, group) ∷ groups) =
    let (group', expired) = expire_group tm now group in
    let (groups', total) = expire_groups tm now groups in
    ((name, group') ∷ groups', expired + total)

unfoldable pub expire_members : Coordinator → TopicManager → ℕ → Coordinator × ℕ
expire_members c tm now =
    let (groups, total) = expire_groups tm now c.groups in (record c { groups = groups }, total)
