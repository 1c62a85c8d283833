-- ===== src/Ordering/Checks.antt =====
-- The buffer at concrete inputs.
use go_async_practice.Common.{
  ℕ, ◌+◌, ◌*◌, ◌^◌, ◌≤◌, ◌<◌, ◌≡◌, refl, true, false, List, [], ◌∷◌, map, length, none, arith, All,
}
use go_async_practice.Common.Table.{find, put, remove}
use go_async_practice.Common.Dict.{lookup, insert}
use go_async_practice.Ordering.SequenceBuffer.{
  Message, PartitionBuffer, create_ordered_buffer, new_partition_buffer, deliver_pending,
  add_to_partition, add_message,
}
use go_async_practice.Ordering.SequenceBuffer.Partition.{numbers_from, deliver_pending-ends}
use go_async_practice.Ordering.SequenceBuffer.Keys.{for_key, numbered}
use go_async_practice.Ordering.SequenceBuffer.Timeouts.{
  lowest, skip_gap, drop_overflow, check_partition, check_partitions, check_timeouts,
}
use go_async_practice.Ordering.SequenceBuffer.Timeouts.Partition.{InOrder}
use go_async_practice.Ordering.SequenceBuffer.Timeouts.Rising as Rising
use go_async_practice.Ordering.SequenceBuffer.Timeouts.Rising.{delivered_rising}
use go_async_practice.Ordering.SequenceBuffer.Order.{messages, run, delivered_in_order}

abbrev msg : ℕ → Message ℕ
msg n = record { partition_key = "p"; sequence_num = n; content = 10 * n; timestamp = 0 }

abbrev Tens : Message ℕ → Type 0
Tens m = m.content ≡ 10 * m.sequence_num

abbrev arrivals : List (ℕ × Message ℕ)
arrivals = (1, msg 2) ∷ (2, msg 1) ∷ (3, msg 2) ∷ (4, msg 4) ∷ []

delivered_in_order_example :
    let out = for_key "p" (run arrivals create_ordered_buffer).delivery_chan in
    (map (λ m. m.sequence_num) out ≡ numbers_from 1 (length out))
    × ((s : ℕ) → 0 < s → s ≤ length out → numbered s (for_key "p" (messages arrivals)) ≡ true)
    × (numbered (length out + 1) (for_key "p" (messages arrivals)) ≡ false)
    × All Tens out
delivered_in_order_example = delivered_in_order Tens "p" arrivals (refl, (refl, (refl, (refl, tt))))

abbrev waiting : PartitionBuffer ℕ
unfolding new_partition_buffer
waiting = record (new_partition_buffer 0) { pending = (1, msg 1) ∷ (2, msg 2) ∷ (4, msg 4) ∷ [] }

deliver_pending-ends_example :
    let q = (deliver_pending 3 7 waiting).0 in
    (find q.next_seq q.pending ≡ none)
    × (deliver_pending (2 + 3) 7 waiting ≡ deliver_pending 3 7 waiting)
unfolding waiting
deliver_pending-ends_example = deliver_pending-ends 2 3 7 waiting (omega arith)

two_delivered : (deliver_pending 3 7 waiting).1 ≡ msg 1 ∷ msg 2 ∷ []
unfolding deliver_pending find waiting remove
two_delivered = refl

gap_waits : (run arrivals create_ordered_buffer).delivery_chan ≡ msg 1 ∷ msg 2 ∷ []
unfolding run add_message create_ordered_buffer add_to_partition lookup insert deliver_pending put
    find
gap_waits = refl

abbrev late_tick : List (Rising.Call ℕ)
late_tick =
    Rising.Call.arrives 0 (msg 1)
    ∷ Rising.Call.arrives 1 (msg 3)
    ∷ Rising.Call.arrives 2 (msg 4)
    ∷ Rising.Call.ticks (10 ^ 9)
    ∷ Rising.Call.arrives 3 (msg 2)
    ∷ []

delivered_rising_example :
    InOrder (for_key "p" (Rising.run late_tick create_ordered_buffer).delivery_chan)
delivered_rising_example = delivered_rising "p" late_tick (
  ((λ own e. omega (arith, e)), ((λ own e. omega (arith, e)), ((λ own e. omega (arith, e)), tt))),
  (
    ((λ own e. omega (arith, e)), ((λ own e. omega (arith, e)), tt)),
    (((λ own e. omega (arith, e)), tt), (tt, tt)),
  ),
)

gap_skipped : (Rising.run late_tick create_ordered_buffer).delivery_chan ≡ msg 1 ∷ msg 3 ∷ []
unfolding Rising.run Rising.step check_timeouts check_partitions check_partition skip_gap lowest
    drop_overflow add_message create_ordered_buffer new_partition_buffer add_to_partition lookup
    insert deliver_pending put find remove
gap_skipped = refl

-- A number that comes again behind a skip is delivered twice: its first copy stays pending.
delivered_twice :
    (Rising.run
      (Rising.Call.arrives 1 (msg 3)
        ∷ Rising.Call.arrives 2 (msg 4)
        ∷ Rising.Call.ticks (10 ^ 9)
        ∷ Rising.Call.arrives (10 ^ 9 + 1) (msg 4)
        ∷ Rising.Call.ticks (2 * 10 ^ 9)
        ∷ [])
      create_ordered_buffer).delivery_chan
    ≡ msg 3 ∷ msg 4 ∷ msg 4 ∷ []
unfolding Rising.run Rising.step check_timeouts check_partitions check_partition skip_gap lowest
    drop_overflow add_message create_ordered_buffer new_partition_buffer add_to_partition lookup
    insert deliver_pending put find remove
delivered_twice = refl
