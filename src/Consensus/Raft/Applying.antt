-- ===== src/Consensus/Raft/Applying.antt =====
-- Which entries reach the state machine.
use go_async_practice.Common.{
  ◌+◌, ◌≤◌, ◌<◌, ◌≡◌, List, [], ◌∷◌, ◌++◌, String, arith, length, length-append, take,
}
use go_async_practice.Common.Dict.{Dict}
use go_async_practice.Consensus.Raft.{
  Node, Entry, AppendEntryRequest, Call, elects, answers, counts, votes, appends, sends, proposes,
  handle_append_entry, apply_entry, step, assign,
}

module _ {V : Type 0} where
  -- The entries applied in order.
  abbrev pub apply_all : List (Entry V) → Dict V → Dict V
  apply_all [] m = m
  apply_all (e ∷ es) m = apply_all es (apply_entry e m)

  record IsApplied (n : Node V) : Type 0 where
    within : n.commit_index ≤ length n.log
    caught_up : n.last_applied ≡ n.commit_index
    machine : n.state_machine ≡ apply_all (take n.commit_index n.log) []

  -- The leader's commit index does not go beyond the log that the node then has.
  abbrev pub IsCovered : Node V → Call V → Type 0
  IsCovered n elects = Unit {0}
  IsCovered n (answers _ _) = Unit {0}
  IsCovered n counts = Unit {0}
  IsCovered n (votes _) = Unit {0}
  IsCovered n (appends req) = req.leader_commit ≤ length n.log + length req.entries
  IsCovered n (sends _ _ _) = Unit {0}
  IsCovered n (proposes _ _) = Unit {0}

  abbrev pub AllCovered : Node V → List (Call V) → Type 0
  AllCovered n [] = Unit {0}
  AllCovered n (x ∷ xs) = IsCovered n x × AllCovered (step x n) xs

  abbrev own_entry : String → V → Node V → Entry V
  own_entry key value n = record {
    term = n.current_term;
    index = length n.log;
    command = assign key value;
  }

  -- A leader's commit index beyond the follower's log is taken as it is. The entries that arrive
  -- behind it are then never applied, though they are committed: they join the log, and the state
  -- machine stays as it is, until some later request raises the commit index.
  pub commit_beyond_log_skips :
      (ahead late : AppendEntryRequest V) (n : Node V)
      → n.current_term ≡ ahead.term
      → late.term ≡ ahead.term
      → n.last_applied ≤ n.commit_index
      → length n.log + length ahead.entries + length late.entries ≤ ahead.leader_commit
      → n.commit_index < ahead.leader_commit
      → late.leader_commit ≡ ahead.leader_commit
      → let n1 = handle_append_entry ahead n in
        let n2 = handle_append_entry late n1 in
        (n2.log ≡ n1.log ++ late.entries)
        × (length n2.log ≤ n2.commit_index)
        × (n2.last_applied ≡ n2.commit_index)
        × (n2.state_machine ≡ n1.state_machine)
  unfolding handle_append_entry
  commit_beyond_log_skips ahead late n same same' behind short more equal = ground (
    arith,
    length-append n.log ahead.entries,
    length-append (n.log ++ ahead.entries) late.entries,
  )
