-- ===== src/Locks/Redlock/Quorum.antt =====
-- Majorities of the nodes, and who holds them.
use go_async_practice.Common.{
  ℕ, zero, suc, ◌+◌, ◌≤◌, ◌<◌, ◌≡◌, refl, ◌≢◌, true, false, List, [], ◌∷◌, String, arith, length,
  count_if, All,
}
use go_async_practice.Locks.Redlock.{
  Node, Attempt, Redlock, lock_single_node, unlock_single_node, lock_nodes, release_redlock,
  attempts, acquire_redlock, new_redlock,
}
use go_async_practice.Locks.Redlock.Counting.{
  held, lock_nodes-foreign, lock_nodes-holds, release_redlock-foreign, length-release_redlock,
  lock_single_node-keeps, unlock_single_node-keeps,
}

-- A value that is refused a majority of the nodes fails in every round.
attempts-foreign :
    (left retry : ℕ) (clock : ℕ → Attempt) (r v w : String) (deadline ttl : ℕ) (rl : Redlock)
    (ns : List Node)
    → v ≢ w
    → ((j k : ℕ) → (clock j).checked k < deadline)
    → length ns < rl.quorum + count_if (held r v deadline) ns
    → ((attempts left retry clock r w ttl rl ns).1 ≡ false)
      × (count_if (held r v deadline) ns
          ≤ count_if (held r v deadline) (attempts left retry clock r w ttl rl ns).0)
unfolding attempts
attempts-foreign zero retry clock r v w deadline ttl rl ns ne early most = (refl, omega arith)
attempts-foreign (suc left) retry clock r v w deadline ttl rl ns ne early most =
    let ns' = (lock_nodes r w ttl (clock retry) 0 ns).0 in
    let pass = lock_nodes-foreign r v w deadline ttl (clock retry) 0 ns ne (early retry) in
    let undo = release_redlock-foreign r v w deadline ns' ne in
    ground (
      arith,
      pass,
      undo,
      attempts-foreign left (retry + 1) clock r v w deadline ttl rl (release_redlock r w ns') ne
          early,
    )

-- A value that is granted the lock holds a quorum of the nodes.
attempts-holds :
    (left retry : ℕ) (clock : ℕ → Attempt) (r v : String) (start ttl : ℕ) (rl : Redlock)
    (ns : List Node)
    → ((j k : ℕ) → start ≤ (clock j).stamped k)
    → (attempts left retry clock r v ttl rl ns).1 ≡ true
    → (rl.quorum ≤ count_if (held r v (start + ttl)) (attempts left retry clock r v ttl rl ns).0)
      × (length (attempts left retry clock r v ttl rl ns).0 ≡ length ns)
unfolding attempts
attempts-holds zero retry clock r v start ttl rl ns late h = cc
attempts-holds (suc left) retry clock r v start ttl rl ns late h =
    let ns' = (lock_nodes r v ttl (clock retry) 0 ns).0 in
    ground (
      arith,
      lock_nodes-holds r v start ttl (clock retry) 0 ns (late retry),
      length-release_redlock r v ns',
      attempts-holds left (retry + 1) clock r v start ttl rl (release_redlock r v ns') late,
    )

-- What any other client may do to a node between two acquisitions.
pub data Call : Type 0 where
  locks : (i : ℕ) (resource value : String) (ttl checked stamped : ℕ) → Call
  unlocks : (i : ℕ) (resource value : String) → Call

abbrev pub at : ℕ → (Node → Node) → List Node → List Node
at i f [] = []
at zero f (n ∷ ns) = f n ∷ ns
at (suc i) f (n ∷ ns) = n ∷ at i f ns

unfoldable pub step : Call → List Node → List Node
step (locks i resource value ttl checked stamped) =
    at i (λ n. (lock_single_node resource value ttl checked stamped n).0)
step (unlocks i resource value) = at i (λ n. (unlock_single_node resource value n).0)

unfoldable pub run : List Call → List Node → List Node
run [] ns = ns
run (c ∷ cs) ns = run cs (step c ns)

-- A call by a client with another value than `v`, which reads the clock before the deadline.
abbrev pub IsForeign : String → ℕ → Call → Type 0
IsForeign v deadline (locks _ _ value _ checked _) = (v ≢ value) × (checked < deadline)
IsForeign v deadline (unlocks _ _ value) = v ≢ value

at-held :
    (r v : String) (deadline i : ℕ) (f : Node → Node) (ns : List Node)
    → ((n : Node) → held r v deadline n ≡ true → held r v deadline (f n) ≡ true)
    → (count_if (held r v deadline) ns ≤ count_if (held r v deadline) (at i f ns))
      × (length (at i f ns) ≡ length ns)
at-held r v deadline i f [] keeps = omega arith
at-held r v deadline zero f (n ∷ ns) keeps = ground (arith, keeps n)
at-held r v deadline (suc i) f (n ∷ ns) keeps = ground (arith, at-held r v deadline i f ns keeps)

step-held :
    (r v : String) (deadline : ℕ) (c : Call) (ns : List Node)
    → IsForeign v deadline c
    → (count_if (held r v deadline) ns ≤ count_if (held r v deadline) (step c ns))
      × (length (step c ns) ≡ length ns)
unfolding step
step-held r v deadline (locks i resource w ttl checked stamped) ns h =
    at-held r v deadline i (λ n. (lock_single_node resource w ttl checked stamped n).0) ns
      (λ n e. lock_single_node-keeps r resource v w deadline ttl checked stamped n h.0 h.1 e)
step-held r v deadline (unlocks i resource w) ns h =
    at-held r v deadline i (λ n. (unlock_single_node resource w n).0) ns
      (λ n e. unlock_single_node-keeps r resource v w deadline n h e)

run-held :
    (r v : String) (deadline : ℕ) (cs : List Call) (ns : List Node)
    → All (IsForeign v deadline) cs
    → (count_if (held r v deadline) ns ≤ count_if (held r v deadline) (run cs ns))
      × (length (run cs ns) ≡ length ns)
unfolding run
run-held r v deadline [] ns h = omega arith
run-held r v deadline (c ∷ cs) ns h =
    omega (arith, step-held r v deadline c ns h.0, run-held r v deadline cs (step c ns) h.1)

-- Suppose that an acquisition under `v` succeeds, with every time stamp at `start` or later. Then
-- after any calls of clients with other values, an acquisition of the same resource under another
-- value fails, as long as all these calls read the clock before `start + ttl`. A call here acts on
-- one node, so the clients may interleave at every node.
pub redlock_excludes :
    (r v w : String) (start ttl ttl' : ℕ) (clock clock' : ℕ → Attempt) (nodes : List Node)
    (between : List Call)
    → v ≢ w
    → ((j k : ℕ) → start ≤ (clock j).stamped k)
    → ((j k : ℕ) → (clock' j).checked k < start + ttl)
    → (acquire_redlock clock r v ttl (new_redlock nodes)).1 ≡ true
    → All (IsForeign v (start + ttl)) between
    → let after = run between (acquire_redlock clock r v ttl (new_redlock nodes)).0 in
      (acquire_redlock clock' r w ttl' (record (new_redlock nodes) { nodes = after })).1 ≡ false
unfolding acquire_redlock new_redlock
redlock_excludes r v w start ttl ttl' clock clock' nodes between ne late early got foreign =
    let first = attempts-holds 3 0 clock r v start ttl (new_redlock nodes) nodes late got in
    let ns = (attempts 3 0 clock r v ttl (new_redlock nodes) nodes).0 in
    let rest = run-held r v (start + ttl) between ns foreign in
    (attempts-foreign 3 0 clock' r v w (start + ttl) ttl'
      (record (new_redlock nodes) { nodes = run between ns }) (run between ns) ne early
      (omega (arith, first, rest))).0
