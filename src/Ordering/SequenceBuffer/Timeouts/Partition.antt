-- ===== src/Ordering/SequenceBuffer/Timeouts/Partition.antt =====
-- One partition: its numbers only go up.
use go_async_practice.Common.{
  ℕ, zero, suc, ◌+◌, ◌≤◌, ◌<◌, ◌≡◌, ◌≢◌, sym, String, List, [], ◌∷◌, ◌++◌, some, arith, ◌==◌, All,
  All-weaken, All-append, Bool-cases, Option-cases, inl, inr,
}
use go_async_practice.Common.Table.{Table, find, put, remove}
use go_async_practice.Ordering.SequenceBuffer.{Message, PartitionBuffer, deliver_pending}
use go_async_practice.Ordering.SequenceBuffer.Partition.{
  advance, deliver_pending-none, deliver_pending-some,
}

module _ {V : Type 0} where
  pub put-cells :
      (Q : ℕ × V → Type 0) (n : ℕ) (v : V) (m : Table V) → Q (n, v) → All Q m → All Q (put n v m)
  unfolding put
  put-cells Q n v [] q all = (q, tt)
  put-cells Q n v (cell ∷ cells) q (here, all) = ground (arith, put-cells Q n v cells q all)

  pub remove-cells :
      (Q R : ℕ × V → Type 0) (n : ℕ) (m : Table V)
      → ((cell : ℕ × V) → Q cell → cell.0 ≢ n → R cell)
      → All Q m
      → All R (remove n m)
  unfolding remove
  remove-cells Q R n [] to all = tt
  remove-cells Q R n (cell ∷ cells) to (here, all) = elim (Bool-cases (cell.0 == n)) [
    | inl same ↦ rw same (remove-cells Q R n cells to all)
    | inr other ↦
        let ne : cell.0 ≢ n = λ e. ground (arith, other, e) in
        rw other (to cell here ne, remove-cells Q R n cells to all)
  ]

  find-cell :
      (Q : ℕ × V → Type 0) (n : ℕ) (v : V) (m : Table V) → All Q m → find n m ≡ some v → Q (n, v)
  unfolding find
  find-cell Q n v [] all e = cc
  find-cell Q n v (cell ∷ cells) (q, all) e = elim (Bool-cases (cell.0 == n)) [
    | inl here ↦
        let at : cell.0 ≡ n = ground (arith, here) in
        let found : some cell.1 ≡ some v = ground (arith, here, e) in
        let same : cell.1 ≡ v = cc in rw (sym at, sym same) q
    | inr there ↦ find-cell Q n v cells all (ground (arith, there, e))
  ]

module _ {C : Type 0} where
  -- No message of these has this number and this key.
  abbrev pub IsAbsent : String → ℕ → List (Message C) → Type 0
  IsAbsent key n future = All (λ x. x.partition_key ≡ key → x.sequence_num ≢ n) future

  abbrev pub Cell : String → List (Message C) → ℕ → ℕ × Message C → Type 0
  Cell key future n cell =
      (n ≤ cell.0)
      × (cell.1.sequence_num ≡ cell.0)
      × (cell.1.partition_key ≡ key)
      × IsAbsent key cell.0 future

  -- What is pending: messages of the key, under their numbers, from `n` on, that will not come again.
  abbrev pub Pends : String → List (Message C) → ℕ → Table (Message C) → Type 0
  Pends key future n pending = All (Cell key future n) pending

  -- In strictly rising order.
  abbrev pub InOrder : List (Message C) → Type 0
  InOrder [] = Unit
  InOrder (m ∷ ms) = All (λ x. m.sequence_num < x.sequence_num) ms × InOrder ms

  pub InOrder-append :
      (n : ℕ) (ms out : List (Message C))
      → InOrder ms
      → All (λ x. x.sequence_num < n) ms
      → All (λ x. n ≤ x.sequence_num) out
      → InOrder out
      → InOrder (ms ++ out)
  InOrder-append n [] out r below above r' = r'
  InOrder-append n (m ∷ ms) out (first, r) (lt, below) above r' = (
    All-append (λ x. m.sequence_num < x.sequence_num) ms out first
        (All-weaken (λ x. n ≤ x.sequence_num) (λ x. m.sequence_num < x.sequence_num) out
          (λ x le. omega (arith, lt, le)) above),
    InOrder-append n ms out r below above r',
  )

  -- A partition behind the delivery of `out`, the next number having been `first`.
  pub record Goes (key : String) (future : List (Message C)) (first : ℕ) (pb : PartitionBuffer C)
      (out : List (Message C)) : Type 0 where
    pub pends : Pends key future pb.next_seq pb.pending
    pub onward : first ≤ pb.next_seq
    pub above : All (λ x. first ≤ x.sequence_num) out
    pub below : All (λ x. x.sequence_num < pb.next_seq) out
    pub in_order : InOrder out
    pub own : All (λ x. x.partition_key ≡ key) out

  pub stays-Goes :
      (key : String) (future : List (Message C)) (pb : PartitionBuffer C)
      → Pends key future pb.next_seq pb.pending
      → Goes key future pb.next_seq pb []
  stays-Goes key future pb pends = record {
    pends = pends;
    onward = omega arith;
    above = tt;
    below = tt;
    in_order = tt;
    own = tt;
  }

  pub cons-Goes :
      (key : String) (future : List (Message C)) (first n : ℕ) (pb : PartitionBuffer C)
      (m : Message C) (out : List (Message C))
      → m.sequence_num ≡ n
      → m.partition_key ≡ key
      → first ≤ n
      → Goes key future (n + 1) pb out
      → Goes key future first pb (m ∷ out)
  cons-Goes key future first n pb m out e own le g = record {
    pends = g.pends;
    onward = omega (arith, g.onward, le);
    above = (
      omega (arith, e, le),
      All-weaken (λ x. n + 1 ≤ x.sequence_num) (λ x. first ≤ x.sequence_num) out
          (λ x h. omega (arith, h, le)) g.above,
    );
    below = (omega (arith, e, g.onward), g.below);
    in_order = (
      All-weaken (λ x. n + 1 ≤ x.sequence_num) (λ x. m.sequence_num < x.sequence_num) out
          (λ x h. omega (arith, h, e)) g.above,
      g.in_order,
    );
    own = (own, g.own);
  }

  pub Pends-weaken :
      (key : String) (future future' : List (Message C)) (n : ℕ) (pending : Table (Message C))
      → ((i : ℕ) → IsAbsent key i future → IsAbsent key i future')
      → Pends key future n pending
      → Pends key future' n pending
  Pends-weaken key future future' n pending to all =
      All-weaken (Cell key future n) (Cell key future' n) pending
        (λ cell c. (c.0, c.1, c.2, to cell.0 c.3)) all

  -- The numbers that are left when the lowest is gone.
  Pends-remove :
      (key : String) (future : List (Message C)) (n : ℕ) (pending : Table (Message C))
      → Pends key future n pending
      → Pends key future (n + 1) (remove n pending)
  Pends-remove key future n pending all =
      remove-cells (Cell key future n) (Cell key future (n + 1)) n pending
        (λ cell c ne. (grind (arith, c.0, ne), c.1, c.2, c.3)) all

  pub deliver_pending-Goes :
      (key : String) (future : List (Message C)) (fuel now : ℕ) (pb : PartitionBuffer C)
      → Pends key future pb.next_seq pb.pending
      → Goes key future pb.next_seq (deliver_pending fuel now pb).0 (deliver_pending fuel now pb).1
  unfolding deliver_pending
  deliver_pending-Goes key future zero now pb pends = stays-Goes key future pb pends
  deliver_pending-Goes key future (suc fuel) now pb pends =
      elim (Option-cases (find pb.next_seq pb.pending)) [
        | inl e ↦ rw (deliver_pending-none (suc fuel) now pb e) (stays-Goes key future pb pends)
        | inr (m, e) ↦
            let c = find-cell (Cell key future pb.next_seq) pb.next_seq m pb.pending pends e in
            rw (deliver_pending-some fuel now pb m e) (
              cons-Goes key future pb.next_seq pb.next_seq _ m _ c.1 c.2 (omega arith) (
                deliver_pending-Goes key future fuel now (advance now pb)
                  (Pends-remove key future pb.next_seq pb.pending pends)))
      ]
