-- ===== src/Graphs/Optimistic.antt =====
-- OptimisticGraph of solutions/solution21_graph_database.go: transactions that are validated when they
-- commit. `V` is the type of the values of properties. A transaction is a value that its client passes
-- on; the table of transactions is only written, and left out, and so are the edges' objects, which
-- no transaction changes. The commits run one at a time here; the source takes its locks for each
-- node alone. The clock is a counter without the wrap-around of int64.
use go_async_practice.Common.{
  ℕ, ◌+◌, ◌≤◌, String, Bool, List, [], ◌∷◌, Option, none, some, ◌==◌, if◌then◌else◌,
}
use go_async_practice.Common.Dict.{Dict, lookup, insert}
pub mod Commits

pub record VersionedNode (V : Type 0) : Type 0 where
  pub id : String
  pub version : ℕ
  pub properties : Dict V
  pub edges : List String

pub data Status : Type 0 where
  active committed : Status

pub record Transaction (V : Type 0) : Type 0 where
  pub id : String
  pub start_time : ℕ
  pub read_set : Dict ℕ
  pub write_set : Dict (Dict V)
  pub status : Status

pub record Graph (V : Type 0) : Type 0 where
  pub nodes : Dict (VersionedNode V)
  pub global_clock : ℕ

-- What `Commit` returns.
pub data Outcome : Type 0 where
  success : Outcome
  deleted : (id : String) → Outcome
  conflict : (id : String) → (read current : ℕ) → Outcome

module _ {V : Type 0} where
  unfoldable pub begin_transaction : String → ℕ → Transaction V
  begin_transaction id now = record {
    id = id;
    start_time = now;
    read_set = [];
    write_set = [];
    status = active;
  }

  unfoldable pub read_node :
      String → Transaction V → Graph V → Transaction V × Option (VersionedNode V)
  read_node id tx g = elim (lookup id g.nodes) [
    | none ↦ (tx, none)
    | some node ↦ (record tx { read_set = insert id node.version tx.read_set }, some node)
  ]

  unfoldable pub update_node : String → Dict V → Transaction V → Transaction V
  update_node id updates tx = record tx { write_set = insert id updates tx.write_set }

  -- The validation phase over the entries of the read set.
  unfoldable pub validate : List (String × ℕ) → Dict (VersionedNode V) → Outcome
  validate [] nodes = success
  validate ((id, version) ∷ reads) nodes =
      let rest = validate reads nodes in
      elim (lookup id nodes) [
        | none ↦ deleted id
        | some node ↦ if node.version == version then rest else conflict id version node.version
      ]

  -- `node.Properties[k] = v` for all updates.
  unfoldable pub apply_updates : List (String × V) → Dict V → Dict V
  apply_updates [] properties = properties
  apply_updates ((k, v) ∷ updates) properties = apply_updates updates (insert k v properties)

  -- The body of the loop of the write phase.
  unfoldable pub write_one : ℕ → String → Dict V → Dict (VersionedNode V) → Dict (VersionedNode V)
  unfolding apply_updates
  write_one new_version id updates nodes = elim (lookup id nodes) [
    | none ↦ nodes
    | some node ↦
        insert id
          (record node {
            properties = apply_updates updates node.properties;
            version = new_version;
          })
          nodes
  ]

  -- The write phase over the entries of the write set.
  unfoldable pub write_all :
      ℕ → List (String × Dict V) → Dict (VersionedNode V) → Dict (VersionedNode V)
  write_all new_version [] nodes = nodes
  write_all new_version ((id, updates) ∷ writes) nodes =
      write_all new_version writes (write_one new_version id updates nodes)

  -- The graph, the transaction and the result.
  unfoldable pub commit : Transaction V → Graph V → Graph V × Transaction V × Outcome
  commit tx g = elim (validate tx.read_set g.nodes) [
    | success ↦ (
      record {
        nodes = write_all (g.global_clock + 1) tx.write_set g.nodes;
        global_clock = g.global_clock + 1;
      },
      record tx { status = committed },
      success,
    )
    | deleted id ↦ (g, tx, deleted id)
    | conflict id read current ↦ (g, tx, conflict id read current)
  ]
