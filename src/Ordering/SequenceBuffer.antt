-- ===== src/Ordering/SequenceBuffer.antt =====
-- solution3_SequenceNumberBuffer of solutions/challenge10_solution.go: messages that arrive in any
-- order are delivered by their sequence numbers. `C` is the type of the contents. Instants are
-- nanoseconds, and each operation takes a reading of the clock: of several in one call only the last
-- is kept by the code. The delivery channel is the list of what was sent to it; a full channel would
-- only make the sender wait.
use go_async_practice.Common.{
  ℕ, zero, suc, ◌+◌, ◌*◌, ◌/◌, ◌^◌, ◌&&◌, String, Bool, List, [], ◌∷◌, ◌++◌, Option, none, some,
  ltb, ◌==◌, if◌then◌else◌, length,
}
use go_async_practice.Common.Dict.{Dict, lookup, insert}
use go_async_practice.Common.Table.{Table, find, put, remove}
pub mod Partition
pub mod Keys
pub mod Order
pub mod Timeouts

pub record Message (C : Type 0) : Type 0 where
  pub partition_key : String
  pub sequence_num : ℕ
  pub content : C
  pub timestamp : ℕ

pub record PartitionBuffer (C : Type 0) : Type 0 where
  pub next_seq : ℕ
  pub pending : Table (Message C)
  pub max_buffer_size : ℕ
  pub last_delivery : ℕ
  pub timeout : ℕ

pub record OrderedBuffer (C : Type 0) : Type 0 where
  pub buffers : Dict (PartitionBuffer C)
  pub delivery_chan : List (Message C)

module _ {C : Type 0} where
  unfoldable pub create_ordered_buffer : OrderedBuffer C
  create_ordered_buffer = record { buffers = []; delivery_chan = [] }

  unfoldable pub new_partition_buffer : ℕ → PartitionBuffer C
  new_partition_buffer now = record {
    next_seq = 1;
    pending = [];
    max_buffer_size = 100;
    last_delivery = now;
    timeout = 500 * 10 ^ 6;
  }

  -- The loop that delivers from the buffer, on fuel: the partition, and what it delivers.
  unfoldable pub deliver_pending : ℕ → ℕ → PartitionBuffer C → PartitionBuffer C × List (Message C)
  deliver_pending zero now pb = (pb, [])
  deliver_pending (suc fuel) now pb = elim (find pb.next_seq pb.pending) [
    | none ↦ (pb, [])
    | some pending_msg ↦
        let (pb', rest) = deliver_pending fuel now (record pb {
          pending = remove pb.next_seq pb.pending;
          next_seq = pb.next_seq + 1;
          last_delivery = now;
        }) in
        (pb', pending_msg ∷ rest)
  ]

  -- The part of `addMessage` behind the choice of the partition.
  unfoldable pub add_to_partition :
      ℕ → Message C → PartitionBuffer C → PartitionBuffer C × List (Message C)
  add_to_partition now msg pb =
      let (pb', rest) =
        deliver_pending (length pb.pending) now
          (record pb { next_seq = pb.next_seq + 1; last_delivery = now }) in
      if msg.sequence_num == pb.next_seq
      then (pb', msg ∷ rest)
      else if ltb pb.next_seq msg.sequence_num
      then (record pb { pending = put msg.sequence_num msg pb.pending }, [])
      else (pb, [])

  unfoldable pub add_message : ℕ → Message C → OrderedBuffer C → OrderedBuffer C
  unfolding new_partition_buffer
  add_message now msg ob =
      let pb : PartitionBuffer C = elim (lookup msg.partition_key ob.buffers) [
        | none ↦ new_partition_buffer now
        | some pb ↦ pb
      ] in
      let (pb', delivered) = add_to_partition now msg pb in
      record {
        buffers = insert msg.partition_key pb' ob.buffers;
        delivery_chan = ob.delivery_chan ++ delivered;
      }
