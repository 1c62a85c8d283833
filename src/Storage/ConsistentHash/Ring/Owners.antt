-- ===== src/Storage/ConsistentHash/Ring/Owners.antt =====
-- Which nodes hold a key.
use native.Mathlib.Nat.{mod-eq_of_lt, mod-lt, add-mod_right}
use native.Mathlib.Decide.{dec_lt}
use go_async_practice.Common.{
  ◌⊎◌, ℕ, zero, suc, ◌+◌, ◌-◌, ◌%◌, ◌≤◌, ◌<◌, ◌≡◌, refl, sym, ap, ◌∙◌, String, true, ◌||◌, List, [],
  ◌∷◌, ◌++◌, some, arith, ◌==◌, ltb, lt→ltb, if◌then◌else◌, length, get_or, get_elem?,
  get_elem?-append, eq_refl, Bool-cases, inl, inr,
}
use go_async_practice.Storage.ConsistentHash.{hash, search, contains, collect, get_nodes}
use go_async_practice.Storage.ConsistentHash.Search.{IsPlace, search_first}
use go_async_practice.Storage.ConsistentHash.Replicas.{occurrences, get_nodes_once}
use go_async_practice.Storage.ConsistentHash.Ring.{new_consistent_hash, owner, nodes_for}
use go_async_practice.Storage.ConsistentHash.Ring.Keys.{add_nodes, ring-IsSound, sorted_keys-Rising}

-- The first node collected stays the first.
collect-first :
    (left : ℕ) (ring : ℕ → String) (keys : List ℕ) (index i n : ℕ) (nodes : List String)
    (v : String)
    → get_elem? nodes 0 ≡ some v
    → get_elem? (collect left ring keys index i n nodes) 0 ≡ some v
unfolding collect
collect-first zero ring keys index i n nodes v e = e
collect-first (suc left) ring keys index i n nodes v e =
    let new = ring (get_or keys ((index + i) % length keys) 0) in
    ground (
      arith,
      e,
      get_elem?-append nodes (new ∷ []) 0 e,
      collect-first left ring keys index (i + 1) n nodes v,
      collect-first left ring keys index (i + 1) n (nodes ++ new ∷ []) v,
    )

contains-append :
    (node : String) (xs ys : List String)
    → contains node (xs ++ ys) ≡ (contains node xs || contains node ys)
contains-append node [] ys = refl
contains-append node (x ∷ xs) ys = ground (arith, contains-append node xs ys)

collect-keeps :
    (left : ℕ) (ring : ℕ → String) (keys : List ℕ) (index i n : ℕ) (nodes : List String)
    (node : String)
    → contains node nodes ≡ true
    → contains node (collect left ring keys index i n nodes) ≡ true
unfolding collect
collect-keeps zero ring keys index i n nodes node e = e
collect-keeps (suc left) ring keys index i n nodes node e =
    let new = ring (get_or keys ((index + i) % length keys) 0) in
    ground (
      arith,
      e,
      contains-append node nodes (new ∷ []),
      collect-keeps left ring keys index (i + 1) n nodes node,
      collect-keeps left ring keys index (i + 1) n (nodes ++ new ∷ []) node,
    )

-- Unless `n` nodes are found, the node of every place that is visited is among them.
collect-visits :
    (left : ℕ) (ring : ℕ → String) (keys : List ℕ) (index i n : ℕ) (nodes : List String) (j : ℕ)
    → i ≤ j
    → j < i + left
    → (n ≤ length (collect left ring keys index i n nodes))
      ⊎ (contains
            (ring (get_or keys ((index + j) % length keys) 0))
            (collect left ring keys index i n nodes)
          ≡ true)
unfolding collect
collect-visits zero ring keys index i n nodes j le lt = absurd (omega (arith, le, lt))
collect-visits (suc left) ring keys index i n nodes j le lt =
    let new = ring (get_or keys ((index + i) % length keys) 0) in
    let more = if contains new nodes then nodes else nodes ++ new ∷ [] in
    elim (Bool-cases (ltb (length nodes) n)) [
      | inr full ↦ rw full (inl (ground (arith, full)))
      | inl room ↦ rw room (elim (Bool-cases (i == j)) [
        | inr later ↦
            collect-visits left ring keys index (i + 1) n more j (ground (arith, later, le))
              (omega (arith, lt))
        | inl here ↦
            let same : i ≡ j = ground (arith, here) in
            inr (
              rw (sym same) (
                collect-keeps left ring keys index (i + 1) n more new
                  (ground (arith, contains-append new nodes (new ∷ []), eq_refl new))))
      ])
    ]

get_nodes-collect :
    (ring : ℕ → String) (keys key : List ℕ) (n : ℕ)
    → 0 < length keys
    → get_nodes ring keys key n ≡ collect (length keys) ring keys (search keys (hash key)) 0 n []
unfolding get_nodes
get_nodes-collect ring [] key n some_key = absurd (omega (arith, some_key))
get_nodes-collect ring (k ∷ keys) key n some_key = refl

-- Every place of the ring comes up within one round from any other.
round_trip :
    (index place size : ℕ)
    → index < size
    → place < size
    → (j : ℕ) × (j < size) × ((index + j) % size ≡ place)
round_trip index place size lt lt' = elim (dec_lt place index) [
  | no ahead ↦
      let e : index + (place - index) ≡ place = omega (arith, ahead) in
      (place - index, omega (arith, lt'), rw e (mod-eq_of_lt lt'))
  | yes behind ↦
      let e : index + (place + size - index) ≡ place + size = omega (arith, lt) in
      (
        place + size - index,
        omega (arith, lt, behind),
        rw e (add-mod_right place size ∙ mod-eq_of_lt lt'),
      )
]

collect_start :
    (left : ℕ) (ring : ℕ → String) (keys : List ℕ) (index n : ℕ)
    → 0 < left
    → 0 < n
    → index < length keys
    → get_elem? (collect left ring keys index 0 n []) 0 ≡ some (ring (get_or keys index 0))
unfolding collect
collect_start zero ring keys index n some_place few lt = absurd (omega (arith, some_place))
collect_start (suc left) ring keys index n some_place few lt =
    let new = ring (get_or keys ((index + 0) % length keys) 0) in
    let here : (index + 0) % length keys ≡ index =
      ap (λ x. x % length keys) (omega arith) ∙ mod-eq_of_lt lt in
    let room : ltb 0 n ≡ true = lt→ltb 0 n few in
    rw (room, sym (ap (λ x. ring (get_or keys x 0)) here))
      (collect-first left ring keys index 1 n (new ∷ []) new refl)

collect_complete :
    (ring : ℕ → String) (keys : List ℕ) (index n : ℕ)
    → index < length keys
    → let found = collect (length keys) ring keys index 0 n [] in
      (n ≤ length found)
      ⊎ ((p : ℕ) → p < length keys → contains (ring (get_or keys p 0)) found ≡ true)
collect_complete ring keys index n lt =
    let found = collect (length keys) ring keys index 0 n [] in
    elim (dec_lt (length found) n) [
      | no full ↦ inl (omega (arith, full))
      | yes short ↦ inr (λ p lt'.
          let (j, within, e) = round_trip index p (length keys) lt lt' in
          elim (collect-visits (length keys) ring keys index 0 n [] j (omega arith)
            (omega (arith, within))) [
              | inl full ↦ absurd (omega (arith, full, short))
              | inr there ↦ rw (sym e) there
            ])
    ]

-- On a ring to which nodes were added, with at least one key, `GetNodes` finds for a key of the user
-- first the node of the ring's first key that is not less than the hash, or of its very first key if
-- all are less. It finds at most `n` nodes and none twice; and if it finds fewer than `n`, then all
-- nodes that have a key on the ring are among them.
pub nodes_for_ring :
    (label : String → ℕ → List ℕ) (nodes : List String) (replicas : ℕ) (key : List ℕ) (n : ℕ)
    → 0 < length (add_nodes label nodes (new_consistent_hash replicas)).sorted_keys
    → 0 < n
    → let ch = add_nodes label nodes (new_consistent_hash replicas) in
      let place = search ch.sorted_keys (hash key) in
      let found = nodes_for ch key n in
      (IsPlace ch.sorted_keys (hash key) place
        ⊎ ((place ≡ 0)
            × ((i : ℕ) → i < length ch.sorted_keys → get_or ch.sorted_keys i 0 < hash key)))
      × (get_elem? found 0 ≡ some (owner ch.ring (get_or ch.sorted_keys place 0)))
      × ((length found ≤ n) × ((node : String) → occurrences node found ≤ 1))
      × ((n ≤ length found)
          ⊎ ((p : ℕ)
              → p < length ch.sorted_keys
              → contains (owner ch.ring (get_or ch.sorted_keys p 0)) found ≡ true))
unfolding nodes_for search
nodes_for_ring label nodes replicas key n some_key few =
    let ch = add_nodes label nodes (new_consistent_hash replicas) in
    let place = search ch.sorted_keys (hash key) in
    let within : place < length ch.sorted_keys = mod-lt _ some_key in
    let e = get_nodes-collect (owner ch.ring) ch.sorted_keys key n some_key in
    (
      search_first ch.sorted_keys (hash key)
          (sorted_keys-Rising ch (ring-IsSound label nodes replicas)) some_key,
      rw e (
          collect_start (length ch.sorted_keys) (owner ch.ring) ch.sorted_keys place n some_key few
            within),
      (
        (get_nodes_once (owner ch.ring) ch.sorted_keys key n "").0,
        λ node. (get_nodes_once (owner ch.ring) ch.sorted_keys key n node).1,
      ),
      rw e (collect_complete (owner ch.ring) ch.sorted_keys place n within),
    )
