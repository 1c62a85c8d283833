-- ===== src/Storage/ConsistentHash/Ring.antt =====
-- The ring of solutions/solution23_columnar_storage.go with its nodes: NewConsistentHash, AddNode and
-- updateSortedKeys. `label` gives the runes of a node's name with the number of a replica, as
-- `fmt.Sprintf("%s-%d")` prints them.
use go_async_practice.Common.{ℕ, zero, suc, ◌+◌, String, List, [], ◌∷◌, Option, none, some, map}
use go_async_practice.Common.Table.{Table, find, put}
use go_async_practice.Common.Sorting.{sort}
use go_async_practice.Storage.ConsistentHash.{hash, get_nodes}
pub mod Keys
pub mod Owners

pub record ConsistentHash : Type 0 where
  pub ring : Table String
  pub sorted_keys : List ℕ
  pub replicas : ℕ

unfoldable pub new_consistent_hash : ℕ → ConsistentHash
new_consistent_hash replicas = record { ring = []; sorted_keys = []; replicas = replicas }

abbrev pub keys_of : Table String → List ℕ
keys_of ring = map (λ cell. cell.0) ring

unfoldable pub update_sorted_keys : ConsistentHash → ConsistentHash
update_sorted_keys ch = record ch { sorted_keys = sort (keys_of ch.ring) }

-- `ch.ring[k]`
unfoldable pub owner : Table String → ℕ → String
owner ring k = elim (find k ring) [ none ↦ "" | some node ↦ node ]

module _ (label : String → ℕ → List ℕ) where
  -- The loop of `AddNode`, with `left` replicas to add from number `i` on.
  unfoldable pub add_replicas : ℕ → ℕ → String → Table String → Table String
  add_replicas zero i node ring = ring
  add_replicas (suc left) i node ring =
      add_replicas left (i + 1) node (put (hash (label node i)) node ring)

  unfoldable pub add_node : String → ConsistentHash → ConsistentHash
  unfolding update_sorted_keys add_replicas
  add_node node ch =
      update_sorted_keys (record ch { ring = add_replicas ch.replicas 0 node ch.ring })

-- `GetNodes` on the ring.
unfoldable pub nodes_for : ConsistentHash → List ℕ → ℕ → List String
nodes_for ch key n = get_nodes (owner ch.ring) ch.sorted_keys key n
