-- ===== src/Messages/Consumer.antt =====
-- consumePartition of FaultTolerantMessageBus in solutions/solution18_message_bus.go, with the
-- committed offsets and the dead letters. `succeeds` says of a message and of the number of the
-- attempt whether the handler returns without an error before its timeout. The messages that were
-- handled are a result of their own.
use go_async_practice.Common.{
  ℕ, zero, suc, ◌+◌, String, Bool, List, [], ◌∷◌, ◌++◌, Option, none, some, leb, if◌then◌else◌,
  keep, get_elem?,
}
use go_async_practice.Common.Dict.{Dict, lookup, insert}
use go_async_practice.Common.Table.{Table, find, put}
use go_async_practice.Messages.Bus.{Message, Topic}
pub mod Attempts
pub mod Rounds
pub mod Delivery

-- group → topic → partition → offset
abbrev pub Offsets : Type 0
Offsets = Dict (Dict (Table ℕ))

pub record Consumption (B : Type 0) : Type 0 where
  pub offsets : Offsets
  pub dead_letters : List (Message B)
  pub handled : List (Message B)

abbrev pub dict_or : {V : Type 0} → Option (Dict V) → Dict V
dict_or none = []
dict_or (some m) = m

abbrev pub table_or : {V : Type 0} → Option (Table V) → Table V
table_or none = []
table_or (some m) = m

unfoldable pub commit_offset : String → String → ℕ → ℕ → Offsets → Offsets
commit_offset group topic partition offset offsets =
    let topics = dict_or (lookup group offsets) in
    let partitions = table_or (lookup topic topics) in
    insert group (insert topic (put partition offset partitions) topics) offsets

-- `lastOffset`: the zero value for what is not there.
unfoldable pub last_offset : String → String → ℕ → Offsets → ℕ
last_offset group topic partition offsets =
    elim (find partition (table_or (lookup topic (dict_or (lookup group offsets))))) [
      | none ↦ 0
      | some offset ↦ offset
    ]

module _ {B : Type 0} (succeeds : Message B → ℕ → Bool) where
  -- The loop over the attempts, with `left` of them to come.
  unfoldable pub attempt :
      String → String → ℕ → (left retry_count : ℕ) → Message B → Consumption B → Consumption B
  unfolding commit_offset
  attempt group topic partition zero retry_count msg c = record c {
    dead_letters = c.dead_letters ++ msg ∷ [];
  }
  attempt group topic partition (suc left) retry_count msg c =
      let rest = attempt group topic partition left (retry_count + 1) msg c in
      if succeeds msg retry_count
      then record c {
        offsets = commit_offset group topic partition (msg.offset + 1) c.offsets;
        handled = c.handled ++ msg ∷ [];
      }
      else rest

  -- The loop over the messages, with three attempts for each.
  unfoldable pub process_all :
      String → String → ℕ → List (Message B) → Consumption B → Consumption B
  unfolding attempt
  process_all group topic partition [] c = c
  process_all group topic partition (msg ∷ msgs) c =
      process_all group topic partition msgs (attempt group topic partition 3 0 msg c)

  -- `none` stands for the error "invalid topic or partition".
  unfoldable pub consume_partition :
      String → String → ℕ → Dict (Topic B) → Consumption B → Option (Consumption B)
  unfolding process_all last_offset
  consume_partition group topic_name partition_id topics c = elim (lookup topic_name topics) [
    | none ↦ none
    | some topic ↦ elim (get_elem? topic.partitions partition_id) [
      | none ↦ none
      | some part ↦
          let last = last_offset group topic_name partition_id c.offsets in
          let messages = keep (λ msg. leb last msg.offset) part.messages in
          some (process_all group topic_name partition_id messages c)
    ]
  ]
