-- ===== src/Storage/ConsistentHash/Ring/Keys.antt =====
-- The keys of the ring are sorted.
use go_async_practice.Common.{
  ℕ, zero, suc, ◌+◌, ◌<◌, ◌≡◌, ◌≢◌, refl, sym, String, List, [], ◌∷◌, arith, ◌==◌, All, length,
  get_or, Bool-cases, inl, inr,
}
use go_async_practice.Common.Table.{Table, put}
use go_async_practice.Common.Sorting.{sort, sort-IsRising, IsDistinct, IsRising}
use go_async_practice.Storage.ConsistentHash.{hash}
use go_async_practice.Storage.ConsistentHash.Search.{Rising}
use go_async_practice.Storage.ConsistentHash.Ring.{
  ConsistentHash, new_consistent_hash, keys_of, update_sorted_keys, add_replicas, add_node,
}

put-others :
    (i k : ℕ) (node : String) (ring : Table String)
    → i ≢ k
    → All (λ j. i ≢ j) (keys_of ring)
    → All (λ j. i ≢ j) (keys_of (put k node ring))
unfolding put
put-others i k node [] ne all = (ne, tt)
put-others i k node (cell ∷ cells) ne (here, all) = elim (Bool-cases (cell.0 == k)) [
  | inl same ↦ rw same (ne, all)
  | inr other ↦ rw other (here, put-others i k node cells ne all)
]

put-IsDistinct :
    (k : ℕ) (node : String) (ring : Table String)
    → IsDistinct (keys_of ring)
    → IsDistinct (keys_of (put k node ring))
unfolding put
put-IsDistinct k node [] d = (tt, tt)
put-IsDistinct k node (cell ∷ cells) (new, d) = elim (Bool-cases (cell.0 == k)) [
  | inl same ↦ let e : cell.0 ≡ k = ground (arith, same) in rw (same, sym e) (new, d)
  | inr other ↦
      let ne : cell.0 ≢ k = λ e. ground (arith, other, e) in
      rw other (put-others cell.0 k node cells ne new, put-IsDistinct k node cells d)
]

-- The sorted keys are those of the ring, none of which stands there twice.
pub record IsSound (ch : ConsistentHash) : Type 0 where
  pub sorted : ch.sorted_keys ≡ sort (keys_of ch.ring)
  pub distinct : IsDistinct (keys_of ch.ring)

module _ (label : String → ℕ → List ℕ) where
  add_replicas-IsDistinct :
      (left i : ℕ) (node : String) (ring : Table String)
      → IsDistinct (keys_of ring)
      → IsDistinct (keys_of (add_replicas label left i node ring))
  unfolding add_replicas
  add_replicas-IsDistinct zero i node ring d = d
  add_replicas-IsDistinct (suc left) i node ring d =
      add_replicas-IsDistinct left (i + 1) node _ (put-IsDistinct (hash (label node i)) node ring d)

  add_node-IsSound :
      (node : String) (ch : ConsistentHash) → IsSound ch → IsSound (add_node label node ch)
  unfolding add_node update_sorted_keys
  add_node-IsSound node ch s = record {
    sorted = refl;
    distinct = add_replicas-IsDistinct ch.replicas 0 node ch.ring s.distinct;
  }

  unfoldable pub add_nodes : List String → ConsistentHash → ConsistentHash
  add_nodes [] ch = ch
  add_nodes (node ∷ nodes) ch = add_nodes nodes (add_node label node ch)

  add_nodes-IsSound :
      (nodes : List String) (ch : ConsistentHash) → IsSound ch → IsSound (add_nodes nodes ch)
  unfolding add_nodes
  add_nodes-IsSound [] ch s = s
  add_nodes-IsSound (node ∷ nodes) ch s =
      add_nodes-IsSound nodes (add_node label node ch) (add_node-IsSound node ch s)

  pub ring-IsSound :
      (nodes : List String) (replicas : ℕ)
      → IsSound (add_nodes nodes (new_consistent_hash replicas))
  unfolding new_consistent_hash
  ring-IsSound nodes replicas =
      add_nodes-IsSound nodes (new_consistent_hash replicas)
        (record { sorted = refl; distinct = tt })

All-at : (Q : ℕ → Type 0) (xs : List ℕ) (i : ℕ) → All Q xs → i < length xs → Q (get_or xs i 0)
All-at Q [] i all lt = absurd (omega (arith, lt))
All-at Q (x ∷ xs) zero (here, all) lt = here
All-at Q (x ∷ xs) (suc i) (here, all) lt = All-at Q xs i all (omega (arith, lt))

IsRising-Rising : (xs : List ℕ) → IsRising xs → Rising xs
IsRising-Rising [] r i j lt within = absurd (omega (arith, within))
IsRising-Rising (x ∷ xs) (low, r) i zero lt within = absurd (omega (arith, lt))
IsRising-Rising (x ∷ xs) (low, r) zero (suc j) lt within =
    All-at (λ y. x < y) xs j low (omega (arith, within))
IsRising-Rising (x ∷ xs) (low, r) (suc i) (suc j) lt within =
    IsRising-Rising xs r i j (omega (arith, lt)) (omega (arith, within))

pub sorted_keys-Rising : (ch : ConsistentHash) → IsSound ch → Rising ch.sorted_keys
sorted_keys-Rising ch s =
    rw s.sorted
      (IsRising-Rising (sort (keys_of ch.ring)) (sort-IsRising (keys_of ch.ring) s.distinct))
