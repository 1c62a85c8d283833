-- ===== src/Messages/Transactional/Repeated.antt =====
-- A transaction that is committed again.
use go_async_practice.Common.{ℕ, ◌≡◌, refl, ap, String, some, arith, ◌⊎◌, inl, inr}
use go_async_practice.Common.Dict.{lookup, insert, lookup-insert_self}
use go_async_practice.Messages.Bus.{
  Outcome, sent, topic_not_found, invalid_partition, division_by_zero,
}
use go_async_practice.Messages.Transactional.{
  State, committed, aborted, Transaction, TransactionalBus, send_all, commit_transaction,
}

Outcome-cases :
    (o : Outcome)
    → (o ≡ sent) ⊎ ((o ≡ topic_not_found) ⊎ ((o ≡ invalid_partition) ⊎ (o ≡ division_by_zero)))
Outcome-cases sent = inl refl
Outcome-cases topic_not_found = inr (inl refl)
Outcome-cases invalid_partition = inr (inr (inl refl))
Outcome-cases division_by_zero = inr (inr (inr refl))

module _ {B : Type 0} (fnv : String → ℕ) where
  -- Whatever the state of the transaction and the outcome, the messages are sent once more.
  commit_transaction-sends :
      (tx_id : String) (now : ℕ) (mb : TransactionalBus B) (tx : Transaction B)
      → lookup tx_id mb.transactions ≡ some tx
      → (s : State) × ((commit_transaction fnv tx_id now mb).0 ≡ record {
        topics = (send_all fnv now tx.messages mb.topics).0;
        transactions = insert tx_id (record tx { state = s }) mb.transactions;
      })
  unfolding commit_transaction
  commit_transaction-sends tx_id now mb tx e =
      elim (Outcome-cases (send_all fnv now tx.messages mb.topics).1) [
        | inl o ↦ (committed, ground (arith, e, o))
        | inr (inl o) ↦ (aborted, ground (arith, e, o))
        | inr (inr (inl o)) ↦ (aborted, ground (arith, e, o))
        | inr (inr (inr o)) ↦ (aborted, ground (arith, e, o))
      ]

-- A transaction is committed, and then committed again, whatever came of the first time. The second
-- call sends all its messages again, to the topics as the first call left them.
pub commit_again :
    {B : Type 0} (fnv : String → ℕ) (tx_id : String) (now later : ℕ) (mb : TransactionalBus B)
    (tx : Transaction B)
    → lookup tx_id mb.transactions ≡ some tx
    → (commit_transaction fnv tx_id later (commit_transaction fnv tx_id now mb).0).0.topics
      ≡ (send_all fnv later tx.messages (send_all fnv now tx.messages mb.topics).0).0
commit_again fnv tx_id now later mb tx e =
    let (s, first) = commit_transaction-sends fnv tx_id now mb tx e in
    let again = lookup-insert_self tx_id (record tx { state = s }) mb.transactions in
    let (_, second) = commit_transaction-sends fnv tx_id later _ (record tx { state = s }) again in
    rw first (ap (λ x. x.topics) second)
