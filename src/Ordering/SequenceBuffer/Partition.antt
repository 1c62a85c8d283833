-- ===== src/Ordering/SequenceBuffer/Partition.antt =====
-- One partition of the buffer: what it has delivered, and what it holds back.
use native.Mathlib.Decide.{dec_lt}
use go_async_practice.Common.{
  ◌⊎◌, ℕ, zero, suc, ◌+◌, ◌≤◌, ◌<◌, ◌≡◌, refl, sym, ◌∙◌, Bool, true, false, List, [], ◌∷◌, Option,
  none, some, arith, ◌==◌, if◌then◌else◌, length, map, All, Option-cases, inl, inr,
}
use go_async_practice.Common.Table.{
  Table, find, put, remove, find-put, find-remove, length-remove, All-find, put-All, remove-All,
}
use go_async_practice.Ordering.SequenceBuffer.{
  Message, PartitionBuffer, deliver_pending, add_to_partition,
}

-- The numbers from `first` on, `n` of them.
abbrev pub numbers_from : ℕ → ℕ → List ℕ
numbers_from first zero = []
numbers_from first (suc n) = first ∷ numbers_from (first + 1) n

-- One number more has arrived.
abbrev pub also : ℕ → (ℕ → Bool) → ℕ → Bool
also n arrived s = if n == s then true else arrived s

trichotomy : (a b : ℕ) → (a < b) ⊎ ((a ≡ b) ⊎ (b < a))
trichotomy a b = elim (dec_lt a b) [
  | yes below ↦ inl below
  | no above ↦ elim (dec_lt b a) [ yes over ↦ inr (inr over) | no same ↦ inr (inl (omega arith)) ]
]

module _ {C : Type 0} where
  abbrev pub advance : ℕ → PartitionBuffer C → PartitionBuffer C
  advance now pb = record pb {
    pending = remove pb.next_seq pb.pending;
    next_seq = pb.next_seq + 1;
    last_delivery = now;
  }

  pub deliver_pending-none :
      (fuel now : ℕ) (pb : PartitionBuffer C)
      → find pb.next_seq pb.pending ≡ none
      → deliver_pending fuel now pb ≡ (pb, [])
  unfolding deliver_pending
  deliver_pending-none zero now pb e = refl
  deliver_pending-none (suc fuel) now pb e = ground arith

  pub deliver_pending-some :
      (fuel now : ℕ) (pb : PartitionBuffer C) (m : Message C)
      → find pb.next_seq pb.pending ≡ some m
      → deliver_pending (suc fuel) now pb ≡ (
        (deliver_pending fuel now (advance now pb)).0,
        m ∷ (deliver_pending fuel now (advance now pb)).1,
      )
  unfolding deliver_pending
  deliver_pending-some fuel now pb m e = ground arith

  nothing_pending :
      (n : ℕ) (pending : Table (Message C)) → length pending ≤ 0 → find n pending ≡ none
  unfolding find
  nothing_pending n [] le = refl
  nothing_pending n (cell ∷ cells) le = absurd (omega arith)

  -- With as much fuel as there are pending messages, the loop of `addMessage` ends by its own test:
  -- the next number is not pending behind it. And more fuel changes nothing.
  pub deliver_pending-ends :
      (extra fuel now : ℕ) (pb : PartitionBuffer C)
      → length pb.pending ≤ fuel
      → let q = (deliver_pending fuel now pb).0 in
        (find q.next_seq q.pending ≡ none)
        × (deliver_pending (extra + fuel) now pb ≡ deliver_pending fuel now pb)
  deliver_pending-ends extra zero now pb enough =
      let e = nothing_pending pb.next_seq pb.pending enough in
      let stop = deliver_pending-none zero now pb e in
      (rw stop e, deliver_pending-none (extra + zero) now pb e ∙ sym stop)
  deliver_pending-ends extra (suc fuel) now pb enough =
      elim (Option-cases (find pb.next_seq pb.pending)) [
        | inl e ↦
            let stop = deliver_pending-none (suc fuel) now pb e in
            (rw stop e, deliver_pending-none (extra + suc fuel) now pb e ∙ sym stop)
        | inr (m, e) ↦
            let fewer : length (remove pb.next_seq pb.pending) ≤ fuel =
              omega (arith, length-remove pb.next_seq m pb.pending e) in
            let rest = deliver_pending-ends extra fuel now (advance now pb) fewer in
            let shift : extra + suc fuel ≡ suc (extra + fuel) = omega arith in
            let one = deliver_pending-some fuel now pb m e in
            (
              rw one rest.0,
              rw (shift, deliver_pending-some (extra + fuel) now pb m e, one, rest.1) refl,
            )
      ]

  abbrev pub is_there : Option (Message C) → Bool
  is_there none = false
  is_there (some m) = true

  -- The numbers that arrived are those delivered and those pending, each under its own number.
  pub record IsOrdered (arrived : ℕ → Bool) (pb : PartitionBuffer C) : Type 0 where
    pub past : (s : ℕ) → 0 < s → s < pb.next_seq → arrived s ≡ true
    pub future : (s : ℕ) → pb.next_seq ≤ s → arrived s ≡ is_there (find s pb.pending)
    pub numbered : (s : ℕ) (m : Message C) → find s pb.pending ≡ some m → m.sequence_num ≡ s
    pub started : 0 < pb.next_seq

  advance-IsOrdered :
      (arrived : ℕ → Bool) (now : ℕ) (pb : PartitionBuffer C) (m : Message C)
      → IsOrdered arrived pb
      → find pb.next_seq pb.pending ≡ some m
      → IsOrdered arrived (advance now pb)
  advance-IsOrdered arrived now pb m o e = record {
    past = λ s pos lt. grind (arith, o.past s, o.future s, e);
    future = λ s le. ground (arith, find-remove pb.next_seq s pb.pending, o.future s);
    numbered = λ s m' e'. ground (arith, find-remove pb.next_seq s pb.pending, o.numbered s m');
    started = omega arith;
  }

  -- What one run of the loop delivers.
  pub record Delivers (arrived : ℕ → Bool) (first : ℕ) (pb : PartitionBuffer C)
      (out : List (Message C)) : Type 0 where
    pub in_order : map (λ m. m.sequence_num) out ≡ numbers_from first (length out)
    pub next : pb.next_seq ≡ first + length out
    pub ordered : IsOrdered arrived pb
    pub waiting : find pb.next_seq pb.pending ≡ none

  deliver_pending-Delivers :
      (arrived : ℕ → Bool) (fuel now : ℕ) (pb : PartitionBuffer C)
      → length pb.pending ≤ fuel
      → IsOrdered arrived pb
      → Delivers arrived pb.next_seq (deliver_pending fuel now pb).0 (deliver_pending fuel now pb).1
  deliver_pending-Delivers arrived zero now pb enough o =
      let e = nothing_pending pb.next_seq pb.pending enough in
      rw (deliver_pending-none zero now pb e)
        (record { in_order = refl; next = omega arith; ordered = o; waiting = e })
  deliver_pending-Delivers arrived (suc fuel) now pb enough o =
      elim (Option-cases (find pb.next_seq pb.pending)) [
        | inl e ↦
            rw (deliver_pending-none (suc fuel) now pb e)
              (record { in_order = refl; next = omega arith; ordered = o; waiting = e })
        | inr (m, e) ↦
            let fewer : length (remove pb.next_seq pb.pending) ≤ fuel =
              omega (arith, length-remove pb.next_seq m pb.pending e) in
            let rest =
              deliver_pending-Delivers arrived fuel now (advance now pb) fewer
                (advance-IsOrdered arrived now pb m o e) in
            rw (deliver_pending-some fuel now pb m e) (record {
              in_order = rw (o.numbered pb.next_seq m e, rest.in_order) refl;
              next = omega (arith, rest.next);
              ordered = rest.ordered;
              waiting = rest.waiting;
            })
      ]

  add_old :
      (now : ℕ) (msg : Message C) (pb : PartitionBuffer C)
      → msg.sequence_num < pb.next_seq
      → add_to_partition now msg pb ≡ (pb, [])
  unfolding add_to_partition
  add_old now msg pb below = ground arith

  add_later :
      (now : ℕ) (msg : Message C) (pb : PartitionBuffer C)
      → pb.next_seq < msg.sequence_num
      → add_to_partition now msg pb
        ≡ (record pb { pending = put msg.sequence_num msg pb.pending }, [])
  unfolding add_to_partition
  add_later now msg pb above = ground arith

  add_next :
      (now : ℕ) (msg : Message C) (pb : PartitionBuffer C)
      → msg.sequence_num ≡ pb.next_seq
      → let rest =
          deliver_pending
            (length pb.pending)
            now
            (record pb { next_seq = pb.next_seq + 1; last_delivery = now }) in
        add_to_partition now msg pb ≡ (rest.0, msg ∷ rest.1)
  unfolding add_to_partition
  add_next now msg pb e = ground arith

  -- What `addMessage` delivers of a partition, and what it leaves.
  pub add_to_partition-Delivers :
      (arrived : ℕ → Bool) (now : ℕ) (msg : Message C) (pb : PartitionBuffer C)
      → IsOrdered arrived pb
      → find pb.next_seq pb.pending ≡ none
      → let added = add_to_partition now msg pb in
        Delivers (also msg.sequence_num arrived) pb.next_seq added.0 added.1
  add_to_partition-Delivers arrived now msg pb o waiting =
      elim (trichotomy msg.sequence_num pb.next_seq) [
        | inl below ↦ rw (add_old now msg pb below) (record {
          in_order = refl;
          next = omega arith;
          ordered = record {
            past = λ s pos lt. ground (arith, o.past s);
            future = λ s le. ground (arith, o.future s);
            numbered = o.numbered;
            started = o.started;
          };
          waiting = waiting;
        })
        | inr (inl e) ↦
            let rest =
              deliver_pending-Delivers (also msg.sequence_num arrived) (length pb.pending) now
                (record pb { next_seq = pb.next_seq + 1; last_delivery = now }) (omega arith)
                (record {
                  past = λ s pos lt. grind (arith, o.past s);
                  future = λ s le. ground (arith, o.future s);
                  numbered = o.numbered;
                  started = omega arith;
                }) in
            rw (add_next now msg pb e) (record {
              in_order = rw (e, rest.in_order) refl;
              next = omega (arith, rest.next);
              ordered = rest.ordered;
              waiting = rest.waiting;
            })
        | inr (inr above) ↦ rw (add_later now msg pb above) (record {
          in_order = refl;
          next = omega arith;
          ordered = record {
            past = λ s pos lt. ground (arith, o.past s);
            future = λ s le. ground (arith, o.future s, find-put msg.sequence_num s msg pb.pending);
            numbered =
                λ s m e. grind (arith, o.numbered s m, find-put msg.sequence_num s msg pb.pending);
            started = o.started;
          };
          waiting = ground (arith, waiting, find-put msg.sequence_num pb.next_seq msg pb.pending);
        })
      ]

  -- What holds of all messages that arrive holds of all that are kept or delivered.
  pub deliver_pending-All {κ} :
      (Q : Message C → Type κ) (fuel now : ℕ) (pb : PartitionBuffer C)
      → All (λ cell. Q cell.1) pb.pending
      → All (λ cell. Q cell.1) (deliver_pending fuel now pb).0.pending
        × All Q (deliver_pending fuel now pb).1
  unfolding deliver_pending
  deliver_pending-All Q zero now pb all = (all, tt)
  deliver_pending-All Q (suc fuel) now pb all = elim (Option-cases (find pb.next_seq pb.pending)) [
    | inl e ↦ rw (deliver_pending-none (suc fuel) now pb e) (all, tt)
    | inr (m, e) ↦
        let rest =
          deliver_pending-All Q fuel now (advance now pb)
            (remove-All Q pb.next_seq pb.pending all) in
        rw (deliver_pending-some fuel now pb m e)
          (rest.0, (All-find Q pb.next_seq m pb.pending all e, rest.1))
  ]

  pub add_to_partition-All {κ} :
      (Q : Message C → Type κ) (now : ℕ) (msg : Message C) (pb : PartitionBuffer C)
      → Q msg
      → All (λ cell. Q cell.1) pb.pending
      → All (λ cell. Q cell.1) (add_to_partition now msg pb).0.pending
        × All Q (add_to_partition now msg pb).1
  add_to_partition-All Q now msg pb q all = elim (trichotomy msg.sequence_num pb.next_seq) [
    | inl below ↦ rw (add_old now msg pb below) (all, tt)
    | inr (inl e) ↦
        let (kept, out) =
          deliver_pending-All Q (length pb.pending) now
            (record pb { next_seq = pb.next_seq + 1; last_delivery = now }) all in
        rw (add_next now msg pb e) (kept, (q, out))
    | inr (inr above) ↦
        rw (add_later now msg pb above) (put-All Q msg.sequence_num msg pb.pending q all, tt)
  ]
