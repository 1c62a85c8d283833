-- ===== src/Messages/Checks.antt =====
-- The message bus at concrete inputs.
use go_async_practice.Common.{
  ℕ, ◌%◌, ◌≡◌, refl, String, Bool, true, ◌&&◌, List, [], ◌∷◌, some, Option, none, arith, ◌==◌, ltb,
  if◌then◌else◌, length, get_elem?, str_eq, eq_iff,
}
use go_async_practice.Common.Dict.{lookup, insert}
use go_async_practice.Common.Table.{find}
use go_async_practice.Messages.Bus.{
  Message, Partition, TopicConfig, Topic, make_partitions, create_topic, send,
}
use go_async_practice.Messages.Bus.Keys.{values_of, sent_values}
use go_async_practice.Messages.Bus.Order.{key_order}
use go_async_practice.Messages.Transactional.{
  begin_transaction, send_transactional, send_all, commit_transaction,
}
use go_async_practice.Messages.Consumer.{consume_partition}
use go_async_practice.Messages.Consumer.Attempts.{dealt_with}
use go_async_practice.Messages.Consumer.Delivery.{nothing_yet, at_least_once}
use go_async_practice.Messages.Bus.Keys as Keys
use go_async_practice.Messages.Consumer.Delivery as Delivery

abbrev config : TopicConfig
config = record {
  num_partitions = 2;
  replication_factor = 1;
  retention_ms = 0;
  compression_type = "";
}

abbrev by_name : String → ℕ
by_name key = if str_eq key "a" then 7 else 4

abbrev orders : List (Keys.Call ℕ)
orders =
    Keys.sends "t" "a" 1 [] 0
    ∷ Keys.sends "t" "b" 2 [] 0
    ∷ Keys.creates "t" config
    ∷ Keys.sends "u" "a" 3 [] 0
    ∷ Keys.sends "t" "a" 4 [] 0
    ∷ []

key_order_example :
    (topic : Topic ℕ) × (lookup "t" (Keys.run by_name (Keys.creates "t" config ∷ orders) [])
      ≡ some topic)
    × (length topic.partitions ≡ 2)
    × ((p : ℕ) (part : Partition ℕ)
        → get_elem? topic.partitions p ≡ some part
        → values_of "a" part.messages
          ≡ (if p == by_name "a" % 2 then sent_values "t" "a" orders else []))
key_order_example =
    key_order by_name "t" "a" config orders (omega arith) (λ e. ground (arith, eq_iff "a" ""))

two_sent : sent_values "t" "a" orders ≡ 1 ∷ 4 ∷ []
two_sent = refl

-- The handler fails on the value 1, and succeeds at the second attempt on others.
abbrev picky : Message ℕ → ℕ → Bool
picky msg retry = ltb 1 msg.value && ltb 0 retry

abbrev calls : List (Delivery.Call ℕ)
calls =
    Delivery.creates "t" config
    ∷ Delivery.sends "t" "a" 1 [] 0
    ∷ Delivery.sends "t" "a" 4 [] 0
    ∷ Delivery.consumes "g" "t" 1 picky
    ∷ Delivery.sends "t" "a" 1 [] 0
    ∷ []

abbrev in_a : ℕ → ℕ → Message ℕ
in_a offset value = record {
  topic = "t";
  partition = 1;
  offset = offset;
  key = "a";
  value = value;
  headers = [];
  timestamp = 0;
}

abbrev part_a : Partition ℕ
part_a = record { id = 1; messages = in_a 0 1 ∷ in_a 1 4 ∷ in_a 2 1 ∷ []; offset = 3 }

abbrev topic_t : Topic ℕ
topic_t = record {
  name = "t";
  partitions = record { id = 0; messages = []; offset = 0 } ∷ part_a ∷ [];
  config = config;
}

at_least_once_example :
    dealt_with "t" 1 2
      (Delivery.run by_name "g"
        (Delivery.consumes "g" "t" 1 picky ∷ [])
        (Delivery.run by_name "g" calls nothing_yet)).consumption
    ≡ true
unfolding Delivery.run Delivery.step send lookup consume_partition create_topic insert
    make_partitions
at_least_once_example =
    at_least_once by_name calls "g" "t" 1 picky topic_t part_a 2 refl refl (omega arith)

-- A message that fails is a dead letter again at every later round, until one behind it succeeds.
again_dead :
    (Delivery.run by_name "g"
      (Delivery.creates "t" config
        ∷ Delivery.sends "t" "a" 1 [] 0
        ∷ Delivery.consumes "g" "t" 1 picky
        ∷ Delivery.consumes "g" "t" 1 picky
        ∷ [])
      nothing_yet).consumption.dead_letters
    ≡ in_a 0 1 ∷ in_a 0 1 ∷ []
unfolding Delivery.run Delivery.step send consume_partition lookup create_topic insert
    make_partitions find
again_dead = refl

-- How many messages the second partition of a topic has.
abbrev in_second : Option (Topic ℕ) → ℕ
in_second none = 0
in_second (some topic) = elim (get_elem? topic.partitions 1) [ none ↦ 0 | some part ↦ part.offset ]

-- One message, in a transaction that is committed twice.
sent_twice :
    in_second (
      lookup "t"
        (commit_transaction by_name "x" 2
          (commit_transaction by_name "x" 1
            (send_transactional "x" "t" "a" 5 0 (
              begin_transaction "x" 0 (record {
                topics = (create_topic "t" config []).0;
                transactions = [];
              }))).0).0).0.topics)
    ≡ 2
unfolding begin_transaction commit_transaction send_transactional create_topic lookup insert
    send_all send make_partitions
sent_twice = refl
