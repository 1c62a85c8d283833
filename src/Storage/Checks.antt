-- ===== src/Storage/Checks.antt =====
-- The ring, the store and the erasure coder at concrete inputs.
use mathlib.Core.Path.{subst}
use go_async_practice.Common.{
  ℕ, ◌+◌, ◌≡◌, refl, String, List, [], ◌∷◌, none, some, map, arith, ltb, if◌then◌else◌, ◌≤◌, ◌<◌,
  ◌⊎◌, sym, str_eq, get_or, get_elem?, true, length,
}
use go_async_practice.Common.Table.{find, put}
use go_async_practice.Common.Dict.{lookup, insert, erase}
use go_async_practice.Storage.Content.{new_storage, retrieve}
use go_async_practice.Storage.Content.Contents.{
  Call, stores, deletes, mangled, contents, run, retrieve_mangles,
}
use go_async_practice.Storage.Erasure.{ErasureCoder, encode, decode, reconstruct}
use go_async_practice.Storage.Erasure.Roundtrip.{retrieved, reconstruct-encode}
use go_async_practice.Storage.ConsistentHash.{hash, search, contains, get_nodes}
use go_async_practice.Storage.ConsistentHash.Search.{IsPlace}
use go_async_practice.Storage.ConsistentHash.Replicas.{occurrences}
use go_async_practice.Storage.ConsistentHash.Ring.{
  ConsistentHash, new_consistent_hash, update_sorted_keys, owner, add_replicas, add_node, nodes_for,
}
use go_async_practice.Storage.ConsistentHash.Ring.Keys.{add_nodes}
use go_async_practice.Storage.ConsistentHash.Ring.Owners.{nodes_for_ring}

abbrev keys : List ℕ
keys = 10 ∷ 20 ∷ 30 ∷ []

abbrev ring : ℕ → String
ring k = if ltb k 25 then "node-0" else "node-1"

place_of_15 : search keys 15 ≡ 1
unfolding search
place_of_15 = refl

two_replicas : get_nodes ring keys (b'k' ∷ []) 2 ≡ "node-0" ∷ "node-1" ∷ []
unfolding get_nodes
two_replicas = refl

abbrev total : List ℕ → ℕ
total [] = 0
total (b ∷ bytes) = b + total bytes

abbrev OneByte : List ℕ → Type 0
OneByte bytes = (b : ℕ) × (bytes ≡ b ∷ [])

OneByte-unique : (a b : List ℕ) → OneByte a → OneByte b → total a ≡ total b → a ≡ b
OneByte-unique a b (x, e) (y, e') same = ground arith

abbrev calls : List Call
calls = stores "a" (7 ∷ []) 1 ∷ stores "b" (7 ∷ []) 2 ∷ deletes "a" ∷ stores "c" (7 ∷ []) 3 ∷ []

retrieve_mangles_example :
    retrieve "c" (run total calls new_storage)
    ≡ elim (lookup "c" (contents calls [])) [ none ↦ none | some bytes ↦ some (mangled bytes) ]
unfolding lookup insert erase
retrieve_mangles_example =
    retrieve_mangles total OneByte calls "c" OneByte-unique
      (((7, refl), refl), (((7, refl), refl), (tt, (((7, refl), refl), tt))))

abbrev coder : ErasureCoder
coder = record { data_chunks = 2; parity_chunks = 1 }

reconstruct-encode_example :
    reconstruct total (retrieved coder (1 ∷ 2 ∷ 3 ∷ 4 ∷ []) (none ∷ [])) 2 10
    ≡ some (1 ∷ 2 ∷ 3 ∷ 4 ∷ [])
reconstruct-encode_example =
    reconstruct-encode total coder (1 ∷ 2 ∷ 3 ∷ 4 ∷ []) (none ∷ []) (omega arith) refl

padding_stays : decode (map some (encode coder (1 ∷ 2 ∷ 3 ∷ []))) 2 ≡ 1 ∷ 2 ∷ 3 ∷ 0 ∷ []
unfolding encode decode
padding_stays = refl

-- Two nodes with two replicas each, at the places 10, 11, 20 and 21.
abbrev place_label : String → ℕ → List ℕ
place_label node i = if str_eq node "a" then (10 + i) ∷ [] else (20 + i) ∷ []

abbrev two_nodes : ConsistentHash
two_nodes = add_nodes place_label ("a" ∷ "b" ∷ []) (new_consistent_hash 2)

four_places : two_nodes.sorted_keys ≡ 10 ∷ 11 ∷ 20 ∷ 21 ∷ []
unfolding add_nodes new_consistent_hash add_node update_sorted_keys add_replicas put hash
four_places = refl

nodes_for_ring_example :
    let place = search two_nodes.sorted_keys (hash (15 ∷ [])) in
    let found = nodes_for two_nodes (15 ∷ []) 2 in
    (IsPlace two_nodes.sorted_keys (hash (15 ∷ [])) place
      ⊎ ((place ≡ 0)
          × ((i : ℕ)
              → i < length two_nodes.sorted_keys
              → get_or two_nodes.sorted_keys i 0 < hash (15 ∷ []))))
    × (get_elem? found 0 ≡ some (owner two_nodes.ring (get_or two_nodes.sorted_keys place 0)))
    × ((length found ≤ 2) × ((node : String) → occurrences node found ≤ 1))
    × ((2 ≤ length found)
        ⊎ ((p : ℕ)
            → p < length two_nodes.sorted_keys
            → contains (owner two_nodes.ring (get_or two_nodes.sorted_keys p 0)) found ≡ true))
nodes_for_ring_example =
    nodes_for_ring place_label ("a" ∷ "b" ∷ []) 2 (15 ∷ []) 2
      (subst (λ keys. 0 < length keys) (sym four_places) (omega arith)) (omega arith)

served_by_b : nodes_for two_nodes (15 ∷ []) 2 ≡ "b" ∷ "a" ∷ []
unfolding add_nodes new_consistent_hash add_node update_sorted_keys add_replicas put hash nodes_for
    owner get_nodes find
served_by_b = refl
