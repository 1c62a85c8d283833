-- ===== src/Storage/ConsistentHash/Replicas.antt =====
-- The nodes that hold the replicas of a key.
use go_async_practice.Common.{
  ℕ, zero, suc, ◌+◌, ◌≤◌, ◌≡◌, String, false, List, [], ◌∷◌, ◌++◌, arith, length, length-append,
  count_if, str_eq, eq_iff, if◌then◌else◌, ◌%◌, get_or, refl,
}
use go_async_practice.Storage.ConsistentHash.{collect, get_nodes, contains, search, hash}

abbrev pub occurrences : String → List String → ℕ
occurrences node nodes = count_if (λ n. str_eq n node) nodes

occurrences_absent :
    (node : String) (nodes : List String) → contains node nodes ≡ false → occurrences node nodes ≡ 0
occurrences_absent node [] e = refl
occurrences_absent node (n ∷ nodes) e = ground (arith, occurrences_absent node nodes)

occurrences-append :
    (node new : String) (nodes : List String)
    → occurrences node (nodes ++ new ∷ [])
      ≡ occurrences node nodes + (if str_eq new node then 1 else 0)
occurrences-append node new [] = ground arith
occurrences-append node new (n ∷ nodes) = ground (arith, occurrences-append node new nodes)

collect_once :
    (left : ℕ) (ring : ℕ → String) (keys : List ℕ) (index i n : ℕ) (nodes : List String)
    (node : String)
    → length nodes ≤ n
    → occurrences node nodes ≤ 1
    → (length (collect left ring keys index i n nodes) ≤ n)
      × (occurrences node (collect left ring keys index i n nodes) ≤ 1)
unfolding collect
collect_once zero ring keys index i n nodes node few once = (few, once)
collect_once (suc left) ring keys index i n nodes node few once =
    let new = ring (get_or keys ((index + i) % length keys) 0) in
    ground (
      arith,
      length-append nodes (new ∷ []),
      occurrences-append node new nodes,
      occurrences_absent new nodes,
      eq_iff new node,
      collect_once left ring keys index (i + 1) n nodes node,
      collect_once left ring keys index (i + 1) n (nodes ++ new ∷ []) node,
    )

-- `GetNodes` returns at most `n` nodes, and no node twice, whatever the ring and its keys are.
pub get_nodes_once :
    (ring : ℕ → String) (keys key : List ℕ) (n : ℕ) (node : String)
    → (length (get_nodes ring keys key n) ≤ n) × (occurrences node (get_nodes ring keys key n) ≤ 1)
unfolding get_nodes
get_nodes_once ring [] key n node = (omega arith, omega arith)
get_nodes_once ring (k ∷ keys) key n node =
    collect_once (length (k ∷ keys)) ring (k ∷ keys) (search (k ∷ keys) (hash key)) 0 n [] node
      (omega arith) (omega arith)
