-- ===== src/Locks/Redlock/Counting.antt =====
-- How many nodes a value holds, and what one pass over the nodes does to that number.
use go_async_practice.Common.{
  ℕ, ◌+◌, ◌≤◌, ◌<◌, ◌≡◌, refl, ◌≢◌, Bool, true, false, ◌&&◌, none, some, Option, List, [], ◌∷◌,
  String, arith, eq_iff, str_eq, leb, length, count_if, Option-cases, Bool-cases, inl, inr,
}
use go_async_practice.Common.Dict.{
  lookup, lookup-insert, lookup-erase_self, lookup-erase, lookup-insert_self,
}
use go_async_practice.Locks.Redlock.{
  LockInfo, Node, Attempt, lock_single_node, unlock_single_node, lock_nodes, release_redlock,
}

abbrev is_held : String → ℕ → Option LockInfo → Bool
is_held value deadline none = false
is_held value deadline (some l) = str_eq l.value value && leb deadline (l.timestamp + l.ttl)

-- The node has a lock on the resource under this value that is in force up to the deadline.
abbrev pub held : String → String → ℕ → Node → Bool
held resource value deadline node = is_held value deadline (lookup resource node)

lock_single_node-held :
    (r v w : String) (deadline ttl checked stamped : ℕ) (n : Node)
    → v ≢ w
    → checked < deadline
    → held r v deadline n ≡ true
    → lock_single_node r w ttl checked stamped n ≡ (n, false)
unfolding lock_single_node
lock_single_node-held r v w deadline ttl checked stamped n ne early h = ground arith

lock_single_node-holds :
    (r v : String) (start ttl checked stamped : ℕ) (n : Node)
    → start ≤ stamped
    → (lock_single_node r v ttl checked stamped n).1 ≡ true
    → held r v (start + ttl) (lock_single_node r v ttl checked stamped n).0 ≡ true
unfolding lock_single_node
lock_single_node-holds r v start ttl checked stamped n late h =
    grind (arith, eq_iff v v, lookup-insert_self)

unlock_single_node-held :
    (r v w : String) (deadline : ℕ) (n : Node)
    → v ≢ w
    → held r v deadline (unlock_single_node r w n).0 ≡ held r v deadline n
unfolding unlock_single_node
unlock_single_node-held r v w deadline n ne = elim (Option-cases (lookup r n)) [
  | inl free ↦ ground arith
  | inr (l, e) ↦ ground (arith, eq_iff l.value v, eq_iff l.value w, lookup-erase_self r n)
]

pub lock_single_node-keeps :
    (r r' v w : String) (deadline ttl checked stamped : ℕ) (n : Node)
    → v ≢ w
    → checked < deadline
    → held r v deadline n ≡ true
    → held r v deadline (lock_single_node r' w ttl checked stamped n).0 ≡ true
unfolding lock_single_node
lock_single_node-keeps r r' v w deadline ttl checked stamped n ne early h =
    grind (arith, eq_iff r' r, lookup-insert)

pub unlock_single_node-keeps :
    (r r' v w : String) (deadline : ℕ) (n : Node)
    → v ≢ w
    → held r v deadline n ≡ true
    → held r v deadline (unlock_single_node r' w n).0 ≡ true
unfolding unlock_single_node
unlock_single_node-keeps r r' v w deadline n ne h = elim (Option-cases (lookup r' n)) [
  | inl free ↦ ground arith
  | inr (l, e) ↦
      ground (arith, eq_iff r' r, eq_iff l.value v, eq_iff l.value w, lookup-erase r' r n)
]

-- One pass of locking by another value, before the deadline: it locks no node that is held, and
-- leaves those that are.
pub lock_nodes-foreign :
    (r v w : String) (deadline ttl : ℕ) (t : Attempt) (i : ℕ) (ns : List Node)
    → v ≢ w
    → ((k : ℕ) → t.checked k < deadline)
    → (count_if (held r v deadline) ns ≤ count_if (held r v deadline) (lock_nodes r w ttl t i ns).0)
      × (count_if (held r v deadline) ns + (lock_nodes r w ttl t i ns).1 ≤ length ns)
      × (length (lock_nodes r w ttl t i ns).0 ≡ length ns)
unfolding lock_nodes
lock_nodes-foreign r v w deadline ttl t i [] ne early = omega arith
lock_nodes-foreign r v w deadline ttl t i (n ∷ ns) ne early =
    let rest = lock_nodes-foreign r v w deadline ttl t (i + 1) ns ne early in
    let here =
      lock_single_node-held r v w deadline ttl (t.checked i) (t.stamped i) n ne (early i) in
    elim (Bool-cases (held r v deadline n)) [
      | inl e ↦ rw (here e) (ground (arith, rest))
      | inr e ↦ ground (arith, rest)
    ]

-- One pass of locking holds at least as many nodes as it counts.
pub lock_nodes-holds :
    (r v : String) (start ttl : ℕ) (t : Attempt) (i : ℕ) (ns : List Node)
    → ((k : ℕ) → start ≤ t.stamped k)
    → ((lock_nodes r v ttl t i ns).1
        ≤ count_if (held r v (start + ttl)) (lock_nodes r v ttl t i ns).0)
      × (length (lock_nodes r v ttl t i ns).0 ≡ length ns)
unfolding lock_nodes
lock_nodes-holds r v start ttl t i [] late = omega arith
lock_nodes-holds r v start ttl t i (n ∷ ns) late = ground (
  arith,
  lock_nodes-holds r v start ttl t (i + 1) ns late,
  lock_single_node-holds r v start ttl (t.checked i) (t.stamped i) n (late i),
)

pub release_redlock-foreign :
    (r v w : String) (deadline : ℕ) (ns : List Node)
    → v ≢ w
    → (count_if (held r v deadline) (release_redlock r w ns) ≡ count_if (held r v deadline) ns)
      × (length (release_redlock r w ns) ≡ length ns)
unfolding release_redlock
release_redlock-foreign r v w deadline [] ne = omega arith
release_redlock-foreign r v w deadline (n ∷ ns) ne = ground (
  arith,
  release_redlock-foreign r v w deadline ns ne,
  unlock_single_node-held r v w deadline n ne,
)

pub length-release_redlock :
    (r v : String) (ns : List Node) → length (release_redlock r v ns) ≡ length ns
unfolding release_redlock
length-release_redlock r v [] = refl
length-release_redlock r v (n ∷ ns) = omega (arith, length-release_redlock r v ns)
