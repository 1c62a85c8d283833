-- ===== src/Ordering/SequenceBuffer/Order.antt =====
-- What the whole buffer delivers.
use mathlib.Core.Path.{subst}
use mathlib.Core.List.{append_assoc, append-nil}
use go_async_practice.Common.{
  ℕ, ◌+◌, ◌≤◌, ◌<◌, ◌≡◌, refl, sym, ap, ◌∙◌, String, Bool, true, false, List, [], ◌∷◌, ◌++◌, Option,
  none, some, arith, All-weaken, Bool-cases, if◌then◌else◌, length, map, keep-append, All,
  All-append, inl, inr, str_eq, eq_iff,
}
use go_async_practice.Common.Dict.{lookup, insert, lookup-insert}
use go_async_practice.Ordering.SequenceBuffer.{
  Message, PartitionBuffer, OrderedBuffer, create_ordered_buffer, add_to_partition, add_message,
}
use go_async_practice.Ordering.SequenceBuffer.Partition.{
  numbers_from, is_there, Delivers, also, add_to_partition-Delivers, add_to_partition-All,
}
use go_async_practice.Ordering.SequenceBuffer.Keys.{
  Delivers-append, for_key, numbered, for_key-All, Delivers-ext, numbered-append, partition_for,
  Kept, Holds, Holds-partition, Holds-All,
}

module _ {C : Type 0} where
  pub add_message_lem :
      (now : ℕ) (m : Message C) (ob : OrderedBuffer C)
      → let added =
          add_to_partition now m (partition_for now (lookup m.partition_key ob.buffers)) in
        add_message now m ob ≡ record {
          buffers = insert m.partition_key added.0 ob.buffers;
          delivery_chan = ob.delivery_chan ++ added.1;
        }
  unfolding add_message
  add_message_lem now m ob = ground arith

  add_message-own :
      (Q : Message C → Type 0) (now : ℕ) (m : Message C) (ms : List (Message C))
      (ob : OrderedBuffer C)
      → Q m
      → Holds Q m.partition_key
          (for_key m.partition_key ms)
          (for_key m.partition_key ob.delivery_chan)
          (lookup m.partition_key ob.buffers)
      → let added =
          add_to_partition now m (partition_for now (lookup m.partition_key ob.buffers)) in
        Delivers
          (λ s. numbered s (for_key m.partition_key ms ++ m ∷ []))
          1
          added.0
          (for_key m.partition_key ob.delivery_chan ++ added.1)
        × Kept Q m.partition_key added.0
        × All (λ x. (x.partition_key ≡ m.partition_key) × Q x) added.1
  add_message-own Q now m ms ob q h =
      let k = m.partition_key in
      let pb = partition_for now (lookup k ob.buffers) in
      let old =
        Holds-partition Q k (for_key k ms) (for_key k ob.delivery_chan) (lookup k ob.buffers) now
          h in
      let arrived : ℕ → Bool = λ s. numbered s (for_key k ms) in
      let new = add_to_partition-Delivers arrived now m pb old.0.ordered old.0.waiting in
      let kept = add_to_partition-All (λ x. (x.partition_key ≡ k) × Q x) now m pb (refl, q) old.1 in
      (
        Delivers-ext (also m.sequence_num arrived) (λ s. numbered s (for_key k ms ++ m ∷ [])) 1 _ _
            (λ s. sym (numbered-append s m (for_key k ms)))
            (Delivers-append arrived (also m.sequence_num arrived) 1 pb _ _ _ old.0 new),
        kept.0,
        kept.1,
      )

  Holds-transport :
      (Q : Message C → Type 0) (k : String) (ms ms' out out' : List (Message C))
      (o o' : Option (PartitionBuffer C))
      → ms ≡ ms'
      → out ≡ out'
      → o ≡ o'
      → Holds Q k ms' out' o'
      → Holds Q k ms out o
  Holds-transport Q k ms ms' out out' o o' a b c h = rw (a, b, c) h

  for_key-arrival :
      (k : String) (m : Message C) (ms : List (Message C))
      → for_key k (ms ++ m ∷ [])
        ≡ (if str_eq m.partition_key k then for_key k ms ++ m ∷ [] else for_key k ms)
  for_key-arrival k m ms =
      ground
        (arith, keep-append (λ x. str_eq x.partition_key k) ms (m ∷ []), append-nil (for_key k ms))

  pub for_key-delivery :
      (k k' : String) (chan out : List (Message C))
      → All (λ x. x.partition_key ≡ k) out
      → for_key k' (chan ++ out) ≡ (if str_eq k k' then for_key k' chan ++ out else for_key k' chan)
  for_key-delivery k k' chan out all = ground (
    arith,
    keep-append (λ x. str_eq x.partition_key k') chan out,
    for_key-All k k' out all,
    append-nil (for_key k' chan),
  )

  add_message-Holds :
      (Q : Message C → Type 0) (k : String) (now : ℕ) (m : Message C) (ms : List (Message C))
      (ob : OrderedBuffer C)
      → Q m
      → ((j : String) → Holds Q j (for_key j ms) (for_key j ob.delivery_chan) (lookup j ob.buffers))
      → Holds Q k
          (for_key k (ms ++ m ∷ []))
          (for_key k (add_message now m ob).delivery_chan)
          (lookup k (add_message now m ob).buffers)
  unfolding Holds
  add_message-Holds Q k now m ms ob q h =
      let key = m.partition_key in
      let added = add_to_partition now m (partition_for now (lookup key ob.buffers)) in
      let own = add_message-own Q now m ms ob q (h key) in
      let keys =
        All-weaken (λ x. (x.partition_key ≡ key) × Q x) (λ x. x.partition_key ≡ key) added.1
          (λ x p. p.0) own.2 in
      let entry = lookup-insert key k added.0 ob.buffers in
      let seen = for_key-arrival k m ms in
      let out = for_key-delivery key k ob.delivery_chan added.1 keys in
      rw (add_message_lem now m ob) (elim (Bool-cases (str_eq key k)) [
        | inl same ↦
            let e : key ≡ k = (eq_iff key k).0 same in
            Holds-transport Q k _ (for_key k ms ++ m ∷ []) _ (for_key k ob.delivery_chan ++ added.1)
              _ (some added.0) (rw same at seen) (rw same at out) (rw same at entry)
              (
                subst
                    (λ j.
                      Delivers (λ s. numbered s (for_key j ms ++ m ∷ [])) 1 added.0
                        (for_key j ob.delivery_chan ++ added.1)
                      × Kept Q j added.0)
                    e (own.0, own.1),
                All-append Q (for_key k ob.delivery_chan) added.1
                    (Holds-All Q k (for_key k ms) (for_key k ob.delivery_chan) (lookup k ob.buffers)
                      (h k))
                    (All-weaken (λ x. (x.partition_key ≡ key) × Q x) Q added.1 (λ x p. p.1) own.2),
              )
        | inr other ↦
            Holds-transport Q k _ (for_key k ms) _ (for_key k ob.delivery_chan) _
              (lookup k ob.buffers) (rw other at seen) (rw other at out) (rw other at entry) (h k)
      ])

  -- The messages that arrive, each with a reading of the clock.
  unfoldable pub run : List (ℕ × Message C) → OrderedBuffer C → OrderedBuffer C
  run [] ob = ob
  run ((now, m) ∷ calls) ob = run calls (add_message now m ob)

  abbrev pub messages : List (ℕ × Message C) → List (Message C)
  messages calls = map (λ c. c.1) calls

  run-Holds :
      (Q : Message C → Type 0) (calls : List (ℕ × Message C)) (before : List (Message C))
      (ob : OrderedBuffer C)
      → All Q (messages calls)
      → ((j : String)
          → Holds Q j (for_key j before) (for_key j ob.delivery_chan) (lookup j ob.buffers))
      → (k : String)
      → Holds Q k
          (for_key k (before ++ messages calls))
          (for_key k (run calls ob).delivery_chan)
          (lookup k (run calls ob).buffers)
  unfolding run
  run-Holds Q [] before ob all h k = rw (append-nil before) (h k)
  run-Holds Q ((now, m) ∷ calls) before ob (q, all) h k =
      let rest =
        run-Holds Q calls (before ++ m ∷ []) (add_message now m ob) all
          (λ j. add_message-Holds Q j now m before ob q h) k in
      rw (← append_assoc before (m ∷ []) (messages calls)) rest

  Holds-in_order :
      (Q : Message C → Type 0) (k : String) (ms out : List (Message C))
      (o : Option (PartitionBuffer C))
      → Holds Q k ms out o
      → (map (λ m. m.sequence_num) out ≡ numbers_from 1 (length out))
        × ((s : ℕ) → 0 < s → s ≤ length out → numbered s ms ≡ true)
        × (numbered (length out + 1) ms ≡ false)
  unfolding Holds
  Holds-in_order Q k ms out none (never, e) =
      rw e (refl, (λ s pos le. absurd (omega arith)), never 1)
  Holds-in_order Q k ms out (some pb) ((d, kept), all) =
      let here : length out + 1 ≡ pb.next_seq = omega (arith, d.next) in
      (
        d.in_order,
        (λ s pos le. d.ordered.past s pos (omega (arith, d.next))),
        rw here (d.ordered.future pb.next_seq (omega arith) ∙ ap is_there d.waiting),
      )

-- Messages with their sequence numbers arrive in any order, some more than once. The messages of a
-- key are delivered in the order of their numbers, from 1 on without a gap and none twice, and as
-- far as possible: all numbers delivered have arrived, and the next one has not. What holds of all
-- messages that arrive (`Q`) holds of those delivered, so nothing is made up.
pub delivered_in_order :
    {C : Type 0} (Q : Message C → Type 0) (k : String) (calls : List (ℕ × Message C))
    → All Q (messages calls)
    → let out = for_key k (run calls create_ordered_buffer).delivery_chan in
      (map (λ m. m.sequence_num) out ≡ numbers_from 1 (length out))
      × ((s : ℕ) → 0 < s → s ≤ length out → numbered s (for_key k (messages calls)) ≡ true)
      × (numbered (length out + 1) (for_key k (messages calls)) ≡ false)
      × All Q out
unfolding create_ordered_buffer Holds lookup
delivered_in_order Q k calls all =
    let h = run-Holds Q calls [] create_ordered_buffer all (λ j. ((λ s. refl), refl)) k in
    let (numbers, past, next) = Holds-in_order Q k _ _ _ h in
    (numbers, past, next, Holds-All Q k _ _ _ h)
