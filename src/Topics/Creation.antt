-- ===== src/Topics/Creation.antt =====
-- What src/TopicManager.cpp does when it creates a topic.
use stream_forge.Base.{
  ℕ, ◌≤◌, ◌≡◌, ◌≢◌, refl, ap, ◌&&◌, ◌==◌, if◌then◌else◌, ◌∙◌, Bool, true, false, ◌||◌, none, some,
  arith, ltb, Bool-cases, inl, inr, Option-cases,
}
use stream_forge.Base.Strings.{Name, find, find-put, find-put_other}
use stream_forge.Status.{Result, done, error, fault}
use stream_forge.Topics.{Topic, new_topic, open_topic}
use stream_forge.Topics.Manager.{
  TopicManager, TopicDisk, validate_topic_name, add_topic, create_topic, get_topic,
}

-- What is known of a manager that has taken a topic in.
record IsCreated (tm tm' : TopicManager) (name : Name) (topic : Topic) : Type 0 where
  pub there : get_topic tm' name ≡ some topic
  pub others : (k : Name) → name ≢ k → get_topic tm' k ≡ get_topic tm k

done_injective : {a b : Topic} → done a ≡ done b → a ≡ b
done_injective {a} e = ap (λ r. elim r [ done x ↦ x | error s ↦ a | fault ↦ a ]) e

add_topic-IsCreated :
    (tm : TopicManager) (name : Name) (meta_opened : Bool) (opened : Result Topic) (topic : Topic)
    → (add_topic tm name meta_opened opened).1 ≡ done topic
    → IsCreated tm (add_topic tm name meta_opened opened).0 name topic
unfolding add_topic get_topic
add_topic-IsCreated tm name meta_opened (error s) topic h = absurd cc
add_topic-IsCreated tm name meta_opened fault topic h = absurd cc
add_topic-IsCreated tm name false (done t) topic h = absurd cc
add_topic-IsCreated tm name true (done t) topic h = record {
  there = find-put name t tm.topics ∙ ap some (done_injective h);
  others = λ k n. find-put_other k name t tm.topics n;
}

-- A topic that is created has an allowed name, which no topic had before, and between 1 and 64
-- partitions were asked for; it is found under this name, and all other names are as before.
pub create_topic-done :
    (tm : TopicManager) (name : Name) (partitions ms bytes : ℕ) (disk : TopicDisk) (topic : Topic)
    (k : Name)
    → name ≢ k
    → (create_topic tm name partitions ms bytes disk).1 ≡ done topic
    → (validate_topic_name name ≡ true)
      × (get_topic tm name ≡ none)
      × ((1 ≤ partitions) × (partitions ≤ 64))
      × (get_topic (create_topic tm name partitions ms bytes disk).0 name ≡ some topic)
      × (get_topic (create_topic tm name partitions ms bytes disk).0 k ≡ get_topic tm k)
unfolding create_topic get_topic
create_topic-done tm name partitions ms bytes disk topic k n h =
    elim (Bool-cases (validate_topic_name name)) [
      | inr v ↦ absurd (let z = rw (create_topic, v) at h in cc)
      | inl v ↦ elim (Bool-cases (ltb partitions 1 || ltb 64 partitions)) [
        | inl p ↦ absurd (let z = rw (create_topic, v, p) at h in cc)
        | inr p ↦ elim (Option-cases (find name tm.topics)) [
          | inr (t, f) ↦ absurd (let z = rw (create_topic, v, p, f) at h in cc)
          | inl f ↦ elim (Bool-cases disk.meta_exists) [
            | inl d ↦ absurd (let z = rw (create_topic, v, p, f, d) at h in cc)
            | inr d ↦
                let c =
                  add_topic-IsCreated tm name disk.meta_opened _ topic
                    (rw (create_topic, v, p, f, d) at h) in
                (
                  v,
                  f,
                  ground arith,
                  rw (create_topic, v, p, f, d) c.there,
                  rw (create_topic, v, p, f, d) (c.others k n),
                )
          ]
        ]
      ]
    ]

add_topic-other :
    (tm : TopicManager) (name : Name) (meta_opened : Bool) (opened : Result Topic) (k : Name)
    → name ≢ k
    → get_topic (add_topic tm name meta_opened opened).0 k ≡ get_topic tm k
unfolding add_topic get_topic
add_topic-other tm name meta_opened (error s) k n = refl
add_topic-other tm name meta_opened fault k n = refl
add_topic-other tm name false (done t) k n = refl
add_topic-other tm name true (done t) k n = find-put_other k name t tm.topics n

-- Created or not, the topics of other names are as before.
pub create_topic-other :
    (tm : TopicManager) (name : Name) (partitions ms bytes : ℕ) (disk : TopicDisk) (k : Name)
    → name ≢ k
    → get_topic (create_topic tm name partitions ms bytes disk).0 k ≡ get_topic tm k
unfolding create_topic
create_topic-other tm name partitions ms bytes disk k n = ground (
  arith,
  add_topic-other tm name disk.meta_opened
      (open_topic
        (new_topic tm.config name partitions
          (if ms == 0 then tm.config.default_retention_ms else ms)
          (if bytes == 0 && ltb 0 tm.config.default_retention_bytes
            then tm.config.default_retention_bytes
            else bytes))
        disk.files)
      k,
)
