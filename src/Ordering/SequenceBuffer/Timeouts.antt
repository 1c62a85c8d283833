-- ===== src/Ordering/SequenceBuffer/Timeouts.antt =====
-- checkTimeouts of solutions/challenge10_solution.go: what one tick does to the buffers of all
-- partitions. A partition that has waited too long for a number skips to the lowest one it holds.
use go_async_practice.Common.{
  ℕ, zero, suc, ◌+◌, ◌-◌, ◌/◌, String, Bool, ◌&&◌, List, [], ◌∷◌, ◌++◌, Option, none, some, ltb,
  if◌then◌else◌, length,
}
use go_async_practice.Common.Dict.{Dict}
use go_async_practice.Common.Table.{Table, remove}
use go_async_practice.Ordering.SequenceBuffer.{Message, PartitionBuffer, OrderedBuffer}
pub mod Partition
pub mod Steps
pub mod Ticks
pub mod Rising

module _ {C : Type 0} where
  -- The loop for `minSeq`, which is -1 at first, here `none`. The message found with the number is
  -- `pb.pending[minSeq]`.
  unfoldable pub lowest : Option (ℕ × Message C) → List (ℕ × Message C) → Option (ℕ × Message C)
  lowest min [] = min
  lowest none (cell ∷ cells) = lowest (some cell) cells
  lowest (some min) (cell ∷ cells) = lowest (some (if ltb cell.0 min.0 then cell else min)) cells

  unfoldable pub skip_gap : ℕ → PartitionBuffer C → PartitionBuffer C × List (Message C)
  unfolding lowest
  skip_gap now pb = elim (lowest none pb.pending) [
    | none ↦ (pb, [])
    | some (min, msg) ↦ (
      record pb { pending = remove min pb.pending; next_seq = min + 1; last_delivery = now },
      msg ∷ [],
    )
  ]

  -- The loop that deletes the numbers below a bound.
  unfoldable pub drop_below : ℕ → List (ℕ × Message C) → Table (Message C)
  drop_below bound [] = []
  drop_below bound (cell ∷ cells) =
      if ltb cell.0 bound then drop_below bound cells else cell ∷ drop_below bound cells

  unfoldable pub drop_overflow : PartitionBuffer C → PartitionBuffer C
  unfolding drop_below
  drop_overflow pb =
      if ltb pb.max_buffer_size (length pb.pending)
      then record pb { pending = drop_below (pb.next_seq + pb.max_buffer_size / 2) pb.pending }
      else pb

  unfoldable pub check_partition : ℕ → PartitionBuffer C → PartitionBuffer C × List (Message C)
  unfolding skip_gap drop_overflow
  check_partition now pb =
      let (pb', out) =
        if ltb pb.timeout (now - pb.last_delivery) && ltb 0 (length pb.pending)
        then skip_gap now pb
        else (pb, []) in
      (drop_overflow pb', out)

  -- The loop over the partitions, with all that it delivers.
  unfoldable pub check_partitions :
      ℕ → List (String × PartitionBuffer C) → Dict (PartitionBuffer C) × List (Message C)
  unfolding check_partition
  check_partitions now [] = ([], [])
  check_partitions now ((key, pb) ∷ buffers) =
      let (pb', out) = check_partition now pb in
      let (buffers', rest) = check_partitions now buffers in ((key, pb') ∷ buffers', out ++ rest)

  unfoldable pub check_timeouts : ℕ → OrderedBuffer C → OrderedBuffer C
  unfolding check_partitions
  check_timeouts now ob =
      let (buffers, delivered) = check_partitions now ob.buffers in
      record { buffers = buffers; delivery_chan = ob.delivery_chan ++ delivered }
