-- ===== src/Messages/Bus.antt =====
-- PartitionedMessageBus of solutions/solution18_message_bus.go: topics, and what is sent to them. The
-- hash FNV-1a of the Go library is the parameter `fnv`. `B` is the type of the bytes of a value. The
-- time behind the choice for an empty key and the time stamp are readings of the clock. No code gives
-- a partition replicas, so replicateMessage has nothing to do, and the text of a message's ID, which
-- is that of its topic, partition and offset, is left out.
use go_async_practice.Common.{
  ℕ, zero, suc, ◌+◌, ◌%◌, String, Bool, true, false, List, [], ◌∷◌, ◌++◌, Option, none, some, ltb,
  ◌==◌, if◌then◌else◌, length, get_elem?, set, str_eq,
}
use go_async_practice.Common.Dict.{Dict, lookup, insert}
pub mod Logs
pub mod Keys
pub mod Order

pub record Message (B : Type 0) : Type 0 where
  pub topic : String
  pub partition : ℕ
  pub offset : ℕ
  pub key : String
  pub value : B
  pub headers : Dict String
  pub timestamp : ℕ

pub record Partition (B : Type 0) : Type 0 where
  pub id : ℕ
  pub messages : List (Message B)
  pub offset : ℕ

pub record TopicConfig : Type 0 where
  pub num_partitions : ℕ
  pub replication_factor : ℕ
  pub retention_ms : ℕ
  pub compression_type : String

pub record Topic (B : Type 0) : Type 0 where
  pub name : String
  pub partitions : List (Partition B)
  pub config : TopicConfig

-- What `Send` returns, or a division by zero for a topic without partitions.
pub data Outcome : Type 0 where
  sent topic_not_found invalid_partition division_by_zero : Outcome

module _ {B : Type 0} where
  -- The loop of `CreateTopic`, with `left` partitions to make from number `i` on.
  unfoldable pub make_partitions : ℕ → ℕ → List (Partition B)
  make_partitions zero i = []
  make_partitions (suc left) i =
      record { id = i; messages = []; offset = 0 } ∷ make_partitions left (i + 1)

  -- With whether the topic is new.
  unfoldable pub create_topic : String → TopicConfig → Dict (Topic B) → Dict (Topic B) × Bool
  create_topic name config topics = elim (lookup name topics) [
    | some topic ↦ (topics, false)
    | none ↦
        let topic : Topic B = record {
          name = name;
          partitions = make_partitions config.num_partitions 0;
          config = config;
        } in
        (insert name topic topics, true)
  ]

  unfoldable pub append_message :
      String → String → B → Dict String → ℕ → ℕ → Partition B → Partition B
  append_message topic key value headers now partition_id part =
      let message : Message B = record {
        topic = topic;
        partition = partition_id;
        offset = part.offset;
        key = key;
        value = value;
        headers = headers;
        timestamp = now;
      } in
      record part { messages = part.messages ++ message ∷ []; offset = part.offset + 1 }

module _ (fnv : String → ℕ) where
  -- `none` where the number of partitions, which divides, is zero.
  unfoldable pub select_partition : String → ℕ → ℕ → Option ℕ
  select_partition key now zero = none
  select_partition key now (suc n) = some (if str_eq key "" then now % suc n else fnv key % suc n)

module _ {B : Type 0} (fnv : String → ℕ) where
  unfoldable pub send :
      String → String → B → Dict String → ℕ → Dict (Topic B) → Dict (Topic B) × Outcome
  unfolding select_partition append_message
  send topic_name key value headers now topics = elim (lookup topic_name topics) [
    | none ↦ (topics, topic_not_found)
    | some topic ↦ elim (select_partition fnv key now (length topic.partitions)) [
      | none ↦ (topics, division_by_zero)
      | some partition_id ↦ elim (get_elem? topic.partitions partition_id) [
        | none ↦ (topics, invalid_partition)
        | some part ↦
            let part' = append_message topic_name key value headers now partition_id part in
            let topic' = record topic { partitions = set topic.partitions partition_id part' } in
            (insert topic_name topic' topics, sent)
      ]
    ]
  ]
