-- ===== src/Ordering/SequenceBuffer/Timeouts/Steps.antt =====
-- What an arrival and a tick do to one partition.
use native.Mathlib.Decide.{dec_lt}
use go_async_practice.Common.{
  ◌⊎◌, ℕ, ◌+◌, ◌-◌, ◌/◌, ◌≤◌, ◌<◌, ◌≡◌, ◌≢◌, refl, String, true, false, ◌&&◌, List, [], ◌∷◌, none,
  some, arith, ltb, length, All, All-weaken, Bool-cases, inl, inr,
}
use go_async_practice.Common.Table.{put, remove}
use go_async_practice.Ordering.SequenceBuffer.{
  Message, PartitionBuffer, deliver_pending, add_to_partition,
}
use go_async_practice.Ordering.SequenceBuffer.Timeouts.{
  lowest, skip_gap, drop_below, drop_overflow, check_partition,
}
use go_async_practice.Ordering.SequenceBuffer.Timeouts.Partition.{
  IsAbsent, Cell, Pends, Goes, stays-Goes, cons-Goes, Pends-weaken, remove-cells, put-cells,
  deliver_pending-Goes,
}

module _ {C : Type 0} where
  added_next :
      (now : ℕ) (m : Message C) (pb : PartitionBuffer C)
      → m.sequence_num ≡ pb.next_seq
      → let next =
          deliver_pending
            (length pb.pending)
            now
            (record pb { next_seq = pb.next_seq + 1; last_delivery = now }) in
        add_to_partition now m pb ≡ (next.0, m ∷ next.1)
  unfolding add_to_partition
  added_next now m pb e = ground (arith, e)

  added_later :
      (now : ℕ) (m : Message C) (pb : PartitionBuffer C)
      → pb.next_seq < m.sequence_num
      → add_to_partition now m pb ≡ (record pb { pending = put m.sequence_num m pb.pending }, [])
  unfolding add_to_partition
  added_later now m pb lt = ground (arith, lt)

  added_earlier :
      (now : ℕ) (m : Message C) (pb : PartitionBuffer C)
      → m.sequence_num < pb.next_seq
      → add_to_partition now m pb ≡ (pb, [])
  unfolding add_to_partition
  added_earlier now m pb lt = ground (arith, lt)

  -- A message that is not to come again arrives.
  pub add_to_partition-Goes :
      (key : String) (future : List (Message C)) (now : ℕ) (m : Message C) (pb : PartitionBuffer C)
      → m.partition_key ≡ key
      → IsAbsent key m.sequence_num future
      → Pends key (m ∷ future) pb.next_seq pb.pending
      → Goes key future pb.next_seq (add_to_partition now m pb).0 (add_to_partition now m pb).1
  add_to_partition-Goes key future now m pb own once pends =
      let rest : Pends key future pb.next_seq pb.pending =
        Pends-weaken key (m ∷ future) future pb.next_seq pb.pending (λ i a. a.1) pends in
      elim (dec_lt pb.next_seq m.sequence_num) [
        | yes later ↦ rw (added_later now m pb later) (
            stays-Goes key future (record pb { pending = put m.sequence_num m pb.pending })
              (put-cells (Cell key future pb.next_seq) m.sequence_num m pb.pending
                (omega (arith, later), refl, own, once) rest))
        | no now_or_before ↦ elim (dec_lt m.sequence_num pb.next_seq) [
          | yes earlier ↦ rw (added_earlier now m pb earlier) (stays-Goes key future pb rest)
          | no not_before ↦
              let e : m.sequence_num ≡ pb.next_seq = omega (arith, now_or_before, not_before) in
              let others : Pends key future (pb.next_seq + 1) pb.pending =
                All-weaken (Cell key (m ∷ future) pb.next_seq) (Cell key future (pb.next_seq + 1))
                  pb.pending
                  (λ cell c.
                    let ne : m.sequence_num ≢ cell.0 = c.3.0 own in
                    (grind (arith, c.0, ne, e), c.1, c.2, c.3.1))
                  pends in
              rw (added_next now m pb e) (
                cons-Goes key future pb.next_seq pb.next_seq _ m _ e own (omega arith) (
                  deliver_pending-Goes key future (length pb.pending) now
                    (record pb { next_seq = pb.next_seq + 1; last_delivery = now }) others))
        ]
      ]

  -- The lowest number of cells is that of one of them, and none is lower.
  lowest-least :
      (Q : ℕ × Message C → Type 0) (min : ℕ × Message C) (cells : List (ℕ × Message C))
      → Q min
      → All Q cells
      → (low : ℕ × Message C) × (lowest (some min) cells ≡ some low)
        × Q low
        × (low.0 ≤ min.0)
        × All (λ c. low.0 ≤ c.0) cells
  unfolding lowest
  lowest-least Q min [] q all = (min, refl, q, omega arith, tt)
  lowest-least Q min (cell ∷ cells) q (here, all) = elim (Bool-cases (ltb cell.0 min.0)) [
    | inl lower ↦
        let (low, e, q', le, least) = lowest-least Q cell cells here all in
        rw lower (low, e, q', ground (arith, lower, le), (le, least))
    | inr other ↦
        let (low, e, q', le, least) = lowest-least Q min cells q all in
        rw other (low, e, q', le, (ground (arith, other, le), least))
  ]

  skip_gap-some :
      (now : ℕ) (pb : PartitionBuffer C) (low : ℕ × Message C)
      → lowest none pb.pending ≡ some low
      → skip_gap now pb ≡ (
        record pb { pending = remove low.0 pb.pending; next_seq = low.0 + 1; last_delivery = now },
        low.1 ∷ [],
      )
  unfolding skip_gap
  skip_gap-some now pb low e = ground (arith, e)

  skip_gap-none :
      (now : ℕ) (pb : PartitionBuffer C)
      → lowest none pb.pending ≡ none
      → skip_gap now pb ≡ (pb, [])
  unfolding skip_gap
  skip_gap-none now pb e = ground (arith, e)

  All-both :
      (Q R : ℕ × Message C → Type 0) (cells : List (ℕ × Message C))
      → All Q cells
      → All R cells
      → All (λ c. Q c × R c) cells
  All-both Q R [] q r = tt
  All-both Q R (cell ∷ cells) (q, qs) (r, rs) = ((q, r), All-both Q R cells qs rs)

  -- The first number, if any, and that it is the lowest.
  lowest-cases :
      (Q : ℕ × Message C → Type 0) (cells : List (ℕ × Message C))
      → All Q cells
      → (lowest none cells ≡ none)
        ⊎ ((low : ℕ × Message C) × (lowest none cells ≡ some low)
            × Q low
            × All (λ c. Q c × (low.0 ≤ c.0)) cells)
  unfolding lowest
  lowest-cases Q [] all = inl refl
  lowest-cases Q (cell ∷ cells) (here, all) =
      let (low, e, q, le, least) = lowest-least Q cell cells here all in
      inr (low, e, q, All-both Q (λ c. low.0 ≤ c.0) (cell ∷ cells) (here, all) (le, least))

  skip_gap-Goes :
      (key : String) (future : List (Message C)) (now : ℕ) (pb : PartitionBuffer C)
      → Pends key future pb.next_seq pb.pending
      → Goes key future pb.next_seq (skip_gap now pb).0 (skip_gap now pb).1
  skip_gap-Goes key future now pb pends =
      elim (lowest-cases (Cell key future pb.next_seq) pb.pending pends) [
        | inl nothing ↦ rw (skip_gap-none now pb nothing) (stays-Goes key future pb pends)
        | inr (low, found, c, least) ↦
            let next = record pb {
              pending = remove low.0 pb.pending;
              next_seq = low.0 + 1;
              last_delivery = now;
            } in
            let left : Pends key future (low.0 + 1) (remove low.0 pb.pending) =
              remove-cells (λ d. Cell key future pb.next_seq d × (low.0 ≤ d.0))
                (Cell key future (low.0 + 1)) low.0 pb.pending
                (λ d both ne. (grind (arith, both.1, ne), both.0.1, both.0.2, both.0.3)) least in
            rw (skip_gap-some now pb low found) (
              cons-Goes key future pb.next_seq low.0 next low.1 [] c.1 c.2 c.0
                (stays-Goes key future next left))
      ]

  drop_below-All :
      (Q : ℕ × Message C → Type 0) (bound : ℕ) (cells : List (ℕ × Message C))
      → All Q cells
      → All Q (drop_below bound cells)
  unfolding drop_below
  drop_below-All Q bound [] all = tt
  drop_below-All Q bound (cell ∷ cells) (here, all) = elim (Bool-cases (ltb cell.0 bound)) [
    | inl low ↦ rw low (drop_below-All Q bound cells all)
    | inr high ↦ rw high (here, drop_below-All Q bound cells all)
  ]

  drop_overflow-Goes :
      (key : String) (future : List (Message C)) (first : ℕ) (pb : PartitionBuffer C)
      (out : List (Message C))
      → Goes key future first pb out
      → Goes key future first (drop_overflow pb) out
  unfolding drop_overflow
  drop_overflow-Goes key future first pb out g =
      elim (Bool-cases (ltb pb.max_buffer_size (length pb.pending))) [
        | inr fits ↦ rw fits g
        | inl full ↦ rw full (record {
          pends =
              drop_below-All (Cell key future pb.next_seq) (pb.next_seq + pb.max_buffer_size / 2)
                pb.pending g.pends;
          onward = g.onward;
          above = g.above;
          below = g.below;
          in_order = g.in_order;
          own = g.own;
        })
      ]

  check_partition-skip :
      (now : ℕ) (pb : PartitionBuffer C)
      → (ltb pb.timeout (now - pb.last_delivery) && ltb 0 (length pb.pending)) ≡ true
      → check_partition now pb ≡ (drop_overflow (skip_gap now pb).0, (skip_gap now pb).1)
  unfolding check_partition
  check_partition-skip now pb e = rw e refl

  check_partition-stay :
      (now : ℕ) (pb : PartitionBuffer C)
      → (ltb pb.timeout (now - pb.last_delivery) && ltb 0 (length pb.pending)) ≡ false
      → check_partition now pb ≡ (drop_overflow pb, [])
  unfolding check_partition
  check_partition-stay now pb e = rw e refl

  -- A tick.
  pub check_partition-Goes :
      (key : String) (future : List (Message C)) (now : ℕ) (pb : PartitionBuffer C)
      → Pends key future pb.next_seq pb.pending
      → Goes key future pb.next_seq (check_partition now pb).0 (check_partition now pb).1
  check_partition-Goes key future now pb pends =
      elim (Bool-cases (ltb pb.timeout (now - pb.last_delivery) && ltb 0 (length pb.pending))) [
        | inl late ↦
            rw (check_partition-skip now pb late) (
              drop_overflow-Goes key future pb.next_seq _ _ (skip_gap-Goes key future now pb pends))
        | inr fine ↦
            rw (check_partition-stay now pb fine)
              (drop_overflow-Goes key future pb.next_seq pb [] (stays-Goes key future pb pends))
      ]
