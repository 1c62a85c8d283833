-- ===== src/Ordering/SequenceBuffer/Keys.antt =====
-- What the buffer has for one key.
use go_async_practice.Common.{
  ℕ, zero, suc, ◌+◌, ◌≡◌, refl, sym, ap, ◌∙◌, String, Bool, true, false, List, [], ◌∷◌, ◌++◌,
  Option, none, some, arith, ◌==◌, if◌then◌else◌, length, length-append, map, keep, All, str_eq,
}
use go_async_practice.Common.Table.{find}
use go_async_practice.Ordering.SequenceBuffer.{Message, PartitionBuffer, new_partition_buffer}
use go_async_practice.Ordering.SequenceBuffer.Partition.{numbers_from, Delivers, also}

numbers_from-append :
    (first m n : ℕ)
    → numbers_from first m ++ numbers_from (first + m) n ≡ numbers_from first (m + n)
numbers_from-append first zero n =
    let e : first + zero ≡ first = omega arith in
    let e' : zero + n ≡ n = omega arith in rw (e, e') refl
numbers_from-append first (suc m) n =
    let e : first + suc m ≡ first + 1 + m = omega arith in
    let e' : suc m + n ≡ suc (m + n) = omega arith in
    rw (e, e') (ap (λ ns. first ∷ ns) (numbers_from-append (first + 1) m n))

module _ {C : Type 0} where
  map-append :
      (xs ys : List (Message C))
      → map (λ m. m.sequence_num) (xs ++ ys)
        ≡ map (λ m. m.sequence_num) xs ++ map (λ m. m.sequence_num) ys
  map-append [] ys = refl
  map-append (x ∷ xs) ys = ap (λ ns. x.sequence_num ∷ ns) (map-append xs ys)

  pub Delivers-append :
      (arrived arrived' : ℕ → Bool) (first : ℕ) (pb pb' : PartitionBuffer C)
      (out out' : List (Message C))
      → Delivers arrived first pb out
      → Delivers arrived' pb.next_seq pb' out'
      → Delivers arrived' first pb' (out ++ out')
  Delivers-append arrived arrived' first pb pb' out out' d d' = record {
    in_order =
        map-append out out'
        ∙ rw (d.in_order, d'.in_order, d.next, length-append out out')
            (numbers_from-append first (length out) (length out'));
    next = omega (arith, d.next, d'.next, length-append out out');
    ordered = d'.ordered;
    waiting = d'.waiting;
  }

  -- The messages of one key.
  abbrev pub for_key : String → List (Message C) → List (Message C)
  for_key k ms = keep (λ m. str_eq m.partition_key k) ms

  abbrev pub numbered : ℕ → List (Message C) → Bool
  numbered s [] = false
  numbered s (m ∷ ms) = if m.sequence_num == s then true else numbered s ms

  pub for_key-All :
      (k k' : String) (ms : List (Message C))
      → All (λ m. m.partition_key ≡ k) ms
      → for_key k' ms ≡ (if str_eq k k' then ms else [])
  for_key-All k k' [] all = ground arith
  for_key-All k k' (m ∷ ms) (e, all) = ground (arith, for_key-All k k' ms all)

  new_partition_buffer-Delivers :
      (arrived : ℕ → Bool) (now : ℕ)
      → ((s : ℕ) → arrived s ≡ false)
      → Delivers arrived 1 (new_partition_buffer {C = C} now) []
  unfolding new_partition_buffer find
  new_partition_buffer-Delivers arrived now never = record {
    in_order = refl;
    next = omega arith;
    ordered = record {
      past = λ s pos lt. absurd (omega arith);
      future = λ s le. never s;
      numbered = λ s m e. cc;
      started = omega arith;
    };
    waiting = refl;
  }

  pub Delivers-ext :
      (f g : ℕ → Bool) (first : ℕ) (pb : PartitionBuffer C) (out : List (Message C))
      → ((s : ℕ) → f s ≡ g s)
      → Delivers f first pb out
      → Delivers g first pb out
  Delivers-ext f g first pb out same d = record {
    in_order = d.in_order;
    next = d.next;
    ordered = record {
      past = λ s pos lt. sym (same s) ∙ d.ordered.past s pos lt;
      future = λ s le. sym (same s) ∙ d.ordered.future s le;
      numbered = d.ordered.numbered;
      started = d.ordered.started;
    };
    waiting = d.waiting;
  }

  pub numbered-append :
      (s : ℕ) (m : Message C) (ms : List (Message C))
      → numbered s (ms ++ m ∷ []) ≡ also m.sequence_num (λ t. numbered t ms) s
  numbered-append s m [] = refl
  numbered-append s m (x ∷ ms) = ground (arith, numbered-append s m ms)

  -- The partition that `addMessage` works on.
  abbrev pub partition_for : ℕ → Option (PartitionBuffer C) → PartitionBuffer C
  partition_for now none = new_partition_buffer now
  partition_for now (some pb) = pb

  abbrev pub Kept : (Message C → Type 0) → String → PartitionBuffer C → Type 0
  Kept Q k pb = All (λ cell. (cell.1.partition_key ≡ k) × Q cell.1) pb.pending

  -- What the buffer has for a key, behind the arrivals `ms` and the deliveries `out` of that key.
  unfoldable pub Holds :
      (Message C → Type 0)
      → String
      → List (Message C)
      → List (Message C)
      → Option (PartitionBuffer C)
      → Type 0
  Holds Q k ms out none = ((s : ℕ) → numbered s ms ≡ false) × (out ≡ [])
  Holds Q k ms out (some pb) = (Delivers (λ s. numbered s ms) 1 pb out × Kept Q k pb) × All Q out

  pub Holds-partition :
      (Q : Message C → Type 0) (k : String) (ms out : List (Message C))
      (o : Option (PartitionBuffer C)) (now : ℕ)
      → Holds Q k ms out o
      → Delivers (λ s. numbered s ms) 1 (partition_for now o) out × Kept Q k (partition_for now o)
  unfolding Holds new_partition_buffer
  Holds-partition Q k ms out none now (never, e) =
      (rw e (new_partition_buffer-Delivers (λ s. numbered s ms) now never), tt)
  Holds-partition Q k ms out (some pb) now h = h.0

  pub Holds-All :
      (Q : Message C → Type 0) (k : String) (ms out : List (Message C))
      (o : Option (PartitionBuffer C))
      → Holds Q k ms out o
      → All Q out
  unfolding Holds
  Holds-All Q k ms out none (never, e) = rw e tt
  Holds-All Q k ms out (some pb) (kept, all) = all
