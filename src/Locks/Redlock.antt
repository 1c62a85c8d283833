-- ===== src/Locks/Redlock.antt =====
-- solution2_RedlockAlgorithm of solutions/challenge09_solution.go: a lock that is held by a majority
-- of independent nodes. Every reading of the clock is an argument: `checked` is that of
-- `time.Since`, `stamped` that of `time.Now` behind it.
pub mod Counting
pub mod Quorum
use go_async_practice.Common.{
  ℕ, zero, suc, ◌+◌, ◌-◌, ◌/◌, Bool, true, false, ◌&&◌, Option, none, some, List, [], ◌∷◌, String,
  ltb, leb, str_eq, if◌then◌else◌, length,
}
use go_async_practice.Common.Dict.{Dict, lookup, insert, erase}

pub record LockInfo : Type 0 where
  pub holder : String
  pub timestamp : ℕ
  pub ttl : ℕ
  pub value : String

-- The lock table of a `RedlockNode`.
abbrev pub Node : Type 0
Node = Dict LockInfo

unfoldable pub lock_single_node : String → String → ℕ → ℕ → ℕ → Node → Node × Bool
lock_single_node resource value ttl checked stamped node =
    let locked : Node × Bool = (
      insert resource (record { holder = value; timestamp = stamped; ttl = ttl; value = value })
          node,
      true,
    ) in
    elim (lookup resource node) [
      | none ↦ locked
      | some lock ↦ if ltb checked (lock.timestamp + lock.ttl) then (node, false) else locked
    ]

unfoldable pub unlock_single_node : String → String → Node → Node × Bool
unlock_single_node resource value node = elim (lookup resource node) [
  | none ↦ (node, false)
  | some lock ↦ if str_eq lock.value value then (erase resource node, true) else (node, false)
]

-- The readings of one attempt: `start` and `done` around it, and a pair for each node.
pub record Attempt : Type 0 where
  pub start : ℕ
  pub checked : ℕ → ℕ
  pub stamped : ℕ → ℕ
  pub done : ℕ

-- The loop over the nodes, from node `i` on, with the number of nodes locked.
unfoldable pub lock_nodes : String → String → ℕ → Attempt → ℕ → List Node → List Node × ℕ
lock_nodes resource value ttl t i [] = ([], 0)
lock_nodes resource value ttl t i (n ∷ ns) =
    let (n', locked) = lock_single_node resource value ttl (t.checked i) (t.stamped i) n in
    let (ns', count) = lock_nodes resource value ttl t (i + 1) ns in
    (n' ∷ ns', if locked then count + 1 else count)

-- The loop of `releaseRedlock`, which a failed attempt runs too.
unfoldable pub release_redlock : String → String → List Node → List Node
release_redlock resource value [] = []
release_redlock resource value (n ∷ ns) =
    (unlock_single_node resource value n).0 ∷ release_redlock resource value ns

pub record Redlock : Type 0 where
  pub nodes : List Node
  pub quorum : ℕ
  pub retries : ℕ
  pub drift : ℕ

-- `quorum: (nodeCount / 2) + 1, retries: 3, drift: 10 * time.Millisecond`
unfoldable pub new_redlock : List Node → Redlock
new_redlock nodes = record {
  nodes = nodes;
  quorum = length nodes / 2 + 1;
  retries = 3;
  drift = 10000000;
}

-- The retry loop with `left` rounds to go, over the readings of each round.
unfoldable pub attempts :
    ℕ → ℕ → (ℕ → Attempt) → String → String → ℕ → Redlock → List Node → List Node × Bool × ℕ
attempts zero retry clock resource value ttl r nodes = (nodes, false, 0)
attempts (suc left) retry clock resource value ttl r nodes =
    let (nodes', count) = lock_nodes resource value ttl (clock retry) 0 nodes in
    let again =
      attempts left (retry + 1) clock resource value ttl r
        (release_redlock resource value nodes') in
    let t = clock retry in
    if leb r.quorum count && ltb (t.done + r.drift) (t.start + ttl)
    then (nodes', true, t.start + ttl - t.done - r.drift)
    else again

unfoldable pub acquire_redlock :
    (ℕ → Attempt) → String → String → ℕ → Redlock → List Node × Bool × ℕ
unfolding attempts
acquire_redlock clock resource value ttl r = attempts r.retries 0 clock resource value ttl r r.nodes
