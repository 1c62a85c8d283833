-- ===== src/Ordering/SequenceBuffer/Timeouts/Ticks.antt =====
-- What a tick does to the partitions, key by key.
use mathlib.Core.List.{append-nil}
use go_async_practice.Common.{
  ℕ, ◌≡◌, refl, sym, ap, ◌∙◌, String, [], ◌∷◌, none, some, arith, keep-append, All, Bool-cases, inl,
  inr, str_eq, eq_iff,
}
use go_async_practice.Common.Dict.{Dict, lookup, IsMap}
use go_async_practice.Ordering.SequenceBuffer.{PartitionBuffer}
use go_async_practice.Ordering.SequenceBuffer.Keys.{for_key, for_key-All}
use go_async_practice.Ordering.SequenceBuffer.Timeouts.{check_partition, check_partitions}

module _ {C : Type 0} where
  -- What a tick does to the partition of a key, and delivers of it.
  pub lookup-check_partitions :
      (now : ℕ) (k : String) (buffers : Dict (PartitionBuffer C))
      → lookup k (check_partitions now buffers).0
        ≡ elim (lookup k buffers) [ none ↦ none | some pb ↦ some (check_partition now pb).0 ]
  unfolding check_partitions lookup
  lookup-check_partitions now k [] = refl
  lookup-check_partitions now k ((key, pb) ∷ buffers) =
      ground (arith, lookup-check_partitions now k buffers)

  pub check_partitions-IsMap :
      (now : ℕ) (buffers : Dict (PartitionBuffer C))
      → IsMap buffers
      → IsMap (check_partitions now buffers).0
  unfolding check_partitions
  check_partitions-IsMap now [] m = tt
  check_partitions-IsMap now ((key, pb) ∷ buffers) (new, m) = (
    ground (arith, lookup-check_partitions now key buffers, new),
    check_partitions-IsMap now buffers m,
  )

  pub for_key-check_partitions :
      (now : ℕ) (k : String) (buffers : Dict (PartitionBuffer C))
      → IsMap buffers
      → All (λ e. All (λ x. x.partition_key ≡ e.0) (check_partition now e.1).1) buffers
      → for_key k (check_partitions now buffers).1
        ≡ elim (lookup k buffers) [ none ↦ [] | some pb ↦ (check_partition now pb).1 ]
  unfolding check_partitions lookup
  for_key-check_partitions now k [] m all = refl
  for_key-check_partitions now k ((key, pb) ∷ buffers) (new, m) (own, all) =
      let out = (check_partition now pb).1 in
      let rest = for_key-check_partitions now k buffers m all in
      keep-append (λ x. str_eq x.partition_key k) out (check_partitions now buffers).1
      ∙ rw (for_key-All key k out own, rest)
          (elim (Bool-cases (str_eq key k)) [
            | inr other ↦ rw other refl
            | inl same ↦
                let e : key ≡ k = (eq_iff key k).0 same in
                let gone : lookup k buffers ≡ none = ap (λ j. lookup j buffers) (sym e) ∙ new in
                rw (same, gone) (append-nil out)
          ])
