-- ===== src/Messages/Transactional.antt =====
-- ExactlyOnceMessageBus of solutions/solution18_message_bus.go: messages that are collected and sent
-- when their transaction commits. The identifier of a transaction, the text of a reading of the clock,
-- is an argument of BeginTransaction here. All sends of a commit take one reading of the clock, on
-- which only time stamps and the partitions of messages without a key depend.
use go_async_practice.Common.{ℕ, String, List, [], ◌∷◌, ◌++◌, Option, none, some}
use go_async_practice.Common.Dict.{Dict, lookup, insert}
use go_async_practice.Messages.Bus.{
  Message, Topic, Outcome, sent, topic_not_found, invalid_partition, division_by_zero, send,
}
pub mod Repeated

pub data State : Type 0 where
  pending committed aborted : State

pub record Transaction (B : Type 0) : Type 0 where
  pub id : String
  pub state : State
  pub messages : List (Message B)
  pub timestamp : ℕ

pub record TransactionalBus (B : Type 0) : Type 0 where
  pub topics : Dict (Topic B)
  pub transactions : Dict (Transaction B)

pub data TxOutcome : Type 0 where
  done transaction_not_found not_pending : TxOutcome
  failed : Outcome → TxOutcome

module _ {B : Type 0} where
  unfoldable pub begin_transaction : String → ℕ → TransactionalBus B → TransactionalBus B
  begin_transaction id now mb =
      let tx : Transaction B = record {
        id = id;
        state = pending;
        messages = [];
        timestamp = now;
      } in
      record mb { transactions = insert id tx mb.transactions }

  -- The message as it waits: the fields that the source does not set have their zero values.
  abbrev pub waiting_message : String → String → B → ℕ → Message B
  waiting_message topic key value now = record {
    topic = topic;
    partition = 0;
    offset = 0;
    key = key;
    value = value;
    headers = [];
    timestamp = now;
  }

  unfoldable pub send_transactional :
      String → String → String → B → ℕ → TransactionalBus B → TransactionalBus B × TxOutcome
  send_transactional tx_id topic key value now mb = elim (lookup tx_id mb.transactions) [
    | none ↦ (mb, transaction_not_found)
    | some tx ↦ elim tx.state [
      | committed ↦ (mb, not_pending)
      | aborted ↦ (mb, not_pending)
      | pending ↦
          let tx' = record tx {
            messages = tx.messages ++ waiting_message topic key value now ∷ [];
          } in
          (record mb { transactions = insert tx_id tx' mb.transactions }, done)
    ]
  ]

module _ {B : Type 0} (fnv : String → ℕ) where
  -- The loop over the messages, which stops at the first that is not sent.
  unfoldable pub send_all : ℕ → List (Message B) → Dict (Topic B) → Dict (Topic B) × Outcome
  send_all now [] topics = (topics, sent)
  send_all now (msg ∷ msgs) topics =
      let (topics', outcome) = send fnv msg.topic msg.key msg.value msg.headers now topics in
      let rest = send_all now msgs topics' in
      elim outcome [
        | sent ↦ rest
        | topic_not_found ↦ (topics', topic_not_found)
        | invalid_partition ↦ (topics', invalid_partition)
        | division_by_zero ↦ (topics', division_by_zero)
      ]

  unfoldable pub commit_transaction :
      String → ℕ → TransactionalBus B → TransactionalBus B × TxOutcome
  unfolding send_all
  commit_transaction tx_id now mb = elim (lookup tx_id mb.transactions) [
    | none ↦ (mb, transaction_not_found)
    | some tx ↦
        let (topics, outcome) = send_all now tx.messages mb.topics in
        let ended : State → TransactionalBus B = λ s. record {
          topics = topics;
          transactions = insert tx_id (record tx { state = s }) mb.transactions;
        } in
        elim outcome [
          | sent ↦ (ended committed, done)
          | topic_not_found ↦ (ended aborted, failed topic_not_found)
          | invalid_partition ↦ (ended aborted, failed invalid_partition)
          | division_by_zero ↦ (ended aborted, failed division_by_zero)
        ]
  ]
