-- ===== src/Topics/Manager.antt =====
-- src/TopicManager.cpp: which names are allowed, and the creation of topics.
use stream_forge.Base.{
  ℕ, ◌-◌, List, [], ◌∷◌, Bool, true, false, ◌&&◌, ◌||◌, not, Option, none, some, ltb, leb, ◌==◌,
  if◌then◌else◌, length, get_or, map,
}
use stream_forge.Base.Strings.{Name, name_eq, find, put}
use stream_forge.Status.{StatusCode, Result, done, error, fault}
use stream_forge.Storage.Partition.{StorageConfig}
use stream_forge.Storage.Partition.Startup.{SegmentFiles}
use stream_forge.Topics.{Topic, new_topic, open_topic}

pub record TopicManager : Type 0 where
  pub config : StorageConfig
  pub topics : List (Name × Topic)

-- Of std::isalnum and std::toupper the values in the "C" locale.
unfoldable pub is_alnum : ℕ → Bool
is_alnum c = leb b'0' c && leb c b'9' || (leb b'A' c && leb c b'Z' || (leb b'a' c && leb c b'z'))

unfoldable pub to_upper : ℕ → ℕ
to_upper c = if leb b'a' c && leb c b'z' then c - 32 else c

abbrev pub is_name_char : ℕ → Bool
is_name_char c = is_alnum c || (c == b'.' || (c == b'_' || c == b'-'))

abbrev pub all_chars : (ℕ → Bool) → Name → Bool
all_chars test [] = true
all_chars test (c ∷ cs) = test c && all_chars test cs

-- "CON", "PRN", "AUX", "NUL"
abbrev pub device_names : List Name
device_names =
    (b'C' ∷ b'O' ∷ b'N' ∷ [])
    ∷ (b'P' ∷ b'R' ∷ b'N' ∷ [])
    ∷ (b'A' ∷ b'U' ∷ b'X' ∷ [])
    ∷ (b'N' ∷ b'U' ∷ b'L' ∷ [])
    ∷ []

-- "COM1" to "COM9" and "LPT1" to "LPT9"
abbrev pub is_port : Name → Bool
is_port (a ∷ b ∷ c ∷ n ∷ []) =
    (name_eq (a ∷ b ∷ c ∷ []) (b'C' ∷ b'O' ∷ b'M' ∷ [])
      || name_eq (a ∷ b ∷ c ∷ []) (b'L' ∷ b'P' ∷ b'T' ∷ []))
    && (leb b'1' n && leb n b'9')
is_port _ = false

abbrev pub is_any : Name → List Name → Bool
is_any name [] = false
is_any name (k ∷ ks) = name_eq name k || is_any name ks

unfoldable pub is_reserved : Name → Bool
is_reserved name =
    let upper_name = map to_upper name in is_any upper_name device_names || is_port upper_name

abbrev pub back : Name → ℕ
back name = get_or name (length name - 1) 0

unfoldable pub validate_topic_name : Name → Bool
validate_topic_name [] = false
validate_topic_name (c ∷ cs) =
    let name = c ∷ cs in
    if ltb 249 (length name)
    then false
    else if not (all_chars is_name_char name)
    then false
    else if name_eq name (b'.' ∷ []) || name_eq name (b'.' ∷ b'.' ∷ [])
    then false
    else if c == b'.' || back name == b'.'
    then false
    else not (is_reserved name)

-- What the disk holds under the name, and whether the metadata can be written.
pub record TopicDisk : Type 0 where
  pub meta_exists : Bool
  pub meta_opened : Bool
  pub files : ℕ → List SegmentFiles

-- The manager and the topic, once its partitions are open.
unfoldable pub add_topic : TopicManager → Name → Bool → Result Topic → TopicManager × Result Topic
add_topic tm name meta_opened (error s) = (tm, error s)
add_topic tm name meta_opened fault = (tm, fault)
add_topic tm name meta_opened (done topic) =
    if not meta_opened
    then (tm, error StatusCode.io_error)
    else (record tm { topics = put name topic tm.topics }, done topic)

unfoldable pub create_topic :
    TopicManager → Name → ℕ → ℕ → ℕ → TopicDisk → TopicManager × Result Topic
create_topic tm name partitions retention_ms retention_bytes disk =
    if not (validate_topic_name name)
    then (tm, error StatusCode.invalid_argument)
    else if ltb partitions 1 || ltb 64 partitions
    then (tm, error StatusCode.invalid_argument)
    else elim (find name tm.topics) [
      | some topic ↦ (tm, error StatusCode.already_exists)
      | none ↦
          if disk.meta_exists
          then (tm, error StatusCode.already_exists)
          else add_topic tm name disk.meta_opened (
              open_topic
                (new_topic tm.config name partitions
                  (if retention_ms == 0 then tm.config.default_retention_ms else retention_ms)
                  (if retention_bytes == 0 && ltb 0 tm.config.default_retention_bytes
                    then tm.config.default_retention_bytes
                    else retention_bytes))
                disk.files)
    ]

-- A null pointer is `none`.
unfoldable pub get_topic : TopicManager → Name → Option Topic
get_topic tm name = find name tm.topics

abbrev pub values : List (Name × Topic) → List Topic
values [] = []
values ((k, t) ∷ topics) = t ∷ values topics

pub list_topics : TopicManager → List Topic
list_topics tm = values tm.topics
