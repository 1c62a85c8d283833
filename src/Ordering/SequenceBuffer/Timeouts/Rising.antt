-- ===== src/Ordering/SequenceBuffer/Timeouts/Rising.antt =====
-- The whole buffer: arrivals and ticks in any order.
use mathlib.Core.Path.{subst}
use mathlib.Core.List.{append-nil}
use go_async_practice.Common.{
  ℕ, ◌<◌, ◌≡◌, refl, ◌∙◌, String, List, [], ◌∷◌, ◌++◌, Option, none, some, arith, keep-append, All,
  All-weaken, All-append, Bool-cases, Option-cases, inl, inr, str_eq, eq_iff,
}
use go_async_practice.Common.Dict.{lookup, lookup-insert, IsMap, insert-IsMap, IsMap-All}
use go_async_practice.Ordering.SequenceBuffer.{
  Message, PartitionBuffer, OrderedBuffer, create_ordered_buffer, new_partition_buffer,
  add_to_partition, add_message,
}
use go_async_practice.Ordering.SequenceBuffer.Keys.{for_key, partition_for}
use go_async_practice.Ordering.SequenceBuffer.Order.{add_message_lem, for_key-delivery}
use go_async_practice.Ordering.SequenceBuffer.Timeouts.{
  check_partition, check_partitions, check_timeouts,
}
use go_async_practice.Ordering.SequenceBuffer.Timeouts.Partition.{
  IsAbsent, Pends, Pends-weaken, InOrder, InOrder-append, Goes,
}
use go_async_practice.Ordering.SequenceBuffer.Timeouts.Steps.{
  add_to_partition-Goes, check_partition-Goes,
}
use go_async_practice.Ordering.SequenceBuffer.Timeouts.Ticks.{
  lookup-check_partitions, check_partitions-IsMap, for_key-check_partitions,
}

pub data Call (C : Type 0) : Type 0 where
  arrives : (now : ℕ) → Message C → Call C
  ticks : (now : ℕ) → Call C

module _ {C : Type 0} where
  unfoldable pub step : Call C → OrderedBuffer C → OrderedBuffer C
  step (arrives now m) ob = add_message now m ob
  step (ticks now) ob = check_timeouts now ob

  unfoldable pub run : List (Call C) → OrderedBuffer C → OrderedBuffer C
  unfolding step
  run [] ob = ob
  run (c ∷ cs) ob = run cs (step c ob)

  abbrev pub arrivals : List (Call C) → List (Message C)
  arrivals [] = []
  arrivals (arrives now m ∷ cs) = m ∷ arrivals cs
  arrivals (ticks now ∷ cs) = arrivals cs

  -- No number comes twice for a key.
  abbrev pub IsFresh : List (Message C) → Type 0
  IsFresh [] = Unit
  IsFresh (m ∷ ms) = IsAbsent m.partition_key m.sequence_num ms × IsFresh ms

  -- A partition of a key, with what was delivered of the key.
  Good : String → List (Message C) → List (Message C) → Option (PartitionBuffer C) → Type 0
  Good key future out none = out ≡ []
  Good key future out (some pb) =
      Pends key future pb.next_seq pb.pending
      × All (λ x. x.sequence_num < pb.next_seq) out
      × InOrder out

  Good-Goes :
      (key : String) (future future' : List (Message C)) (out new : List (Message C))
      (pb pb' : PartitionBuffer C)
      → Good key future out (some pb)
      → Goes key future' pb.next_seq pb' new
      → Good key future' (out ++ new) (some pb')
  unfolding Good
  Good-Goes key future future' out new pb pb' (pends, below, in_order) g = (
    g.pends,
    All-append (λ x. x.sequence_num < pb'.next_seq) out new
        (All-weaken (λ x. x.sequence_num < pb.next_seq) (λ x. x.sequence_num < pb'.next_seq) out
          (λ x lt. omega (arith, lt, g.onward)) below)
        g.below,
    InOrder-append pb.next_seq out new in_order below g.above g.in_order,
  )

  Good-partition :
      (key : String) (future out : List (Message C)) (o : Option (PartitionBuffer C)) (now : ℕ)
      → Good key future out o
      → Good key future out (some (partition_for now o))
  unfolding Good new_partition_buffer
  Good-partition key future out none now e = rw e (tt, tt, tt)
  Good-partition key future out (some pb) now g = g

  Good-weaken :
      (key : String) (m : Message C) (future out : List (Message C))
      (o : Option (PartitionBuffer C))
      → Good key (m ∷ future) out o
      → Good key future out o
  unfolding Good
  Good-weaken key m future out none e = e
  Good-weaken key m future out (some pb) (pends, below, in_order) = (
    Pends-weaken key (m ∷ future) future pb.next_seq pb.pending (λ i a. a.1) pends,
    below,
    in_order,
  )

  Good-InOrder :
      (key : String) (future out : List (Message C)) (o : Option (PartitionBuffer C))
      → Good key future out o
      → InOrder out
  unfolding Good
  Good-InOrder key future out none e = rw e tt
  Good-InOrder key future out (some pb) (pends, below, in_order) = in_order

  record Sound (future : List (Message C)) (ob : OrderedBuffer C) : Type 0 where
    map : IsMap ob.buffers
    good : (k : String) → Good k future (for_key k ob.delivery_chan) (lookup k ob.buffers)

  add_message-Sound :
      (now : ℕ) (m : Message C) (future : List (Message C)) (ob : OrderedBuffer C)
      → IsAbsent m.partition_key m.sequence_num future
      → Sound (m ∷ future) ob
      → Sound future (add_message now m ob)
  unfolding Good
  add_message-Sound now m future ob once s =
      let key = m.partition_key in
      let pb = partition_for now (lookup key ob.buffers) in
      let added = add_to_partition now m pb in
      let before =
        Good-partition key (m ∷ future) (for_key key ob.delivery_chan) (lookup key ob.buffers) now
          (s.good key) in
      let goes = add_to_partition-Goes key future now m pb refl once before.0 in
      let after =
        Good-Goes key (m ∷ future) future (for_key key ob.delivery_chan) added.1 pb added.0 before
          goes in
      rw (add_message_lem now m ob) (record {
        map = insert-IsMap key added.0 ob.buffers s.map;
        good = λ k. elim (Bool-cases (str_eq key k)) [
          | inl same ↦
              let e : key ≡ k = (eq_iff key k).0 same in
              rw
                (
                  for_key-delivery key k ob.delivery_chan added.1 goes.own,
                  lookup-insert key k added.0 ob.buffers,
                  same,
                )
                (subst (λ j. Good j future (for_key j ob.delivery_chan ++ added.1) (some added.0)) e
                  after)
          | inr other ↦
              rw
                (
                  for_key-delivery key k ob.delivery_chan added.1 goes.own,
                  lookup-insert key k added.0 ob.buffers,
                  other,
                )
                (Good-weaken k m future (for_key k ob.delivery_chan) (lookup k ob.buffers)
                  (s.good k))
        ];
      })

  check_timeouts-Sound :
      (now : ℕ) (future : List (Message C)) (ob : OrderedBuffer C)
      → Sound future ob
      → Sound future (check_timeouts now ob)
  unfolding check_timeouts Good
  check_timeouts-Sound now future ob s =
      let out = (check_partitions now ob.buffers).1 in
      let goes : (k : String) (pb : PartitionBuffer C)
          → lookup k ob.buffers ≡ some pb
          → Goes k future pb.next_seq (check_partition now pb).0 (check_partition now pb).1 =
        λ k pb e.
          let g : Good k future (for_key k ob.delivery_chan) (some pb) =
            subst (λ o. Good k future (for_key k ob.delivery_chan) o) e (s.good k) in
          check_partition-Goes k future now pb g.0 in
      let own =
        IsMap-All (λ k pb. All (λ x. x.partition_key ≡ k) (check_partition now pb).1) ob.buffers
          s.map (λ k pb e. (goes k pb e).own) in
      record {
        map = check_partitions-IsMap now ob.buffers s.map;
        good = λ k.
            let delivered = for_key-check_partitions now k ob.buffers s.map own in
            let entry = lookup-check_partitions now k ob.buffers in
            let both : for_key k (ob.delivery_chan ++ out)
                ≡ for_key k ob.delivery_chan ++ for_key k out =
              keep-append (λ x. str_eq x.partition_key k) ob.delivery_chan out in
            elim (Option-cases (lookup k ob.buffers)) [
              | inl absent ↦
                  let g : Good k future (for_key k ob.delivery_chan) none =
                    subst (λ o. Good k future (for_key k ob.delivery_chan) o) absent (s.good k) in
                  rw (both, delivered, entry, absent) (append-nil (for_key k ob.delivery_chan) ∙ g)
              | inr (pb, there) ↦
                  let g : Good k future (for_key k ob.delivery_chan) (some pb) =
                    subst (λ o. Good k future (for_key k ob.delivery_chan) o) there (s.good k) in
                  rw (both, delivered, entry, there)
                    (Good-Goes k future future (for_key k ob.delivery_chan) _ pb _ g
                      (goes k pb there))
            ];
      }

  run-Sound :
      (calls : List (Call C)) (ob : OrderedBuffer C)
      → IsFresh (arrivals calls)
      → Sound (arrivals calls) ob
      → Sound [] (run calls ob)
  unfolding run step
  run-Sound [] ob fresh s = s
  run-Sound (arrives now m ∷ calls) ob (once, fresh) s =
      run-Sound calls _ fresh (add_message-Sound now m (arrivals calls) ob once s)
  run-Sound (ticks now ∷ calls) ob fresh s =
      run-Sound calls _ fresh (check_timeouts-Sound now (arrivals calls) ob s)

-- Messages arrive and ticks of the timeouts come, in any order, and no number arrives twice for a
-- key. Then the messages of a key are delivered in strictly rising order of their numbers, whatever
-- gaps are skipped and whatever is dropped.
pub delivered_rising :
    {C : Type 0} (k : String) (calls : List (Call C))
    → IsFresh (arrivals calls)
    → InOrder (for_key k (run calls create_ordered_buffer).delivery_chan)
unfolding create_ordered_buffer Good lookup
delivered_rising k calls fresh =
    let s = run-Sound calls create_ordered_buffer fresh (record { map = tt; good = λ j. refl }) in
    Good-InOrder k [] _ _ (s.good k)
