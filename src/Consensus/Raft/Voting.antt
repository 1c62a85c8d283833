-- ===== src/Consensus/Raft/Voting.antt =====
-- The votes of a node.
use go_async_practice.Common.{
  ℕ, ◌+◌, ◌^◌, ◌≤◌, ◌<◌, ◌≡◌, ◌≢◌, ◌⊎◌, List, [], ◌∷◌, String, arith, eq_iff, length, All, Option,
  some, none, if◌then◌else◌,
}
use go_async_practice.Consensus.Raft.{
  Node, Call, elects, answers, counts, votes, appends, sends, proposes, start_election,
  request_vote, count_votes, handle_vote_request, handle_append_entry, send_append_entry,
  propose_value, step, run,
}

module _ {V : Type 0} where
  -- The terms in the messages that a node gets are at most `max`.
  abbrev pub IsBounded : ℕ → Call V → Type 0
  IsBounded max elects = Unit {0}
  IsBounded max (answers _ _) = Unit {0}
  IsBounded max counts = Unit {0}
  IsBounded max (votes req) = req.term ≤ max
  IsBounded max (appends req) = req.term ≤ max
  IsBounded max (sends _ _ _) = Unit {0}
  IsBounded max (proposes _ _) = Unit {0}

  -- The node has voted for `c` in term `t`, or has left that term behind.
  abbrev Voted : ℕ → String → Node V → Type 0
  Voted t c n = (t < n.current_term) ⊎ ((n.current_term ≡ t) × (n.voted_for ≡ c))

  step-Voted :
      (t max top : ℕ) (c : String) (x : Call V) (n : Node V)
      → c ≢ ""
      → IsBounded max x
      → max ≤ top
      → n.current_term ≤ top
      → top + 1 < 2 ^ 64
      → Voted t c n
      → Voted t c (step x n) × ((step x n).current_term ≤ top + 1)
  unfolding step start_election request_vote count_votes handle_vote_request handle_append_entry
      send_append_entry propose_value
  step-Voted t max top c elects n named bound le fits room v = ground arith
  step-Voted t max top c (answers peer granted) n named bound le fits room v = ground arith
  step-Voted t max top c counts n named bound le fits room v = ground arith
  step-Voted t max top c (votes req) n named bound le fits room v =
      ground (arith, eq_iff n.voted_for req.candidate_id, eq_iff n.voted_for "")
  step-Voted t max top c (appends req) n named bound le fits room v = ground arith
  step-Voted t max top c (sends peer term commit_index) n named bound le fits room v = ground arith
  step-Voted t max top c (proposes key value) n named bound le fits room v = ground arith

  run-Voted :
      (t max top : ℕ) (c : String) (xs : List (Call V)) (n : Node V)
      → c ≢ ""
      → All (IsBounded max) xs
      → max ≤ top
      → n.current_term ≤ top
      → top + length xs < 2 ^ 64
      → Voted t c n
      → Voted t c (run xs n) × ((run xs n).current_term ≤ top + length xs)
  unfolding run
  run-Voted t max top c [] n named bound le fits room v = (v, omega (arith, fits))
  run-Voted t max top c (x ∷ xs) n named bound le fits room v =
      let s = step-Voted t max top c x n named bound.0 le fits (omega arith) v in
      let r =
        run-Voted t max (top + 1) c xs (step x n) named bound.1 (omega arith) s.1 (omega arith)
          s.0 in
      (r.0, omega (arith, r.1))

  -- The vote that a call casts, with its term: a node that starts an election counts its own vote,
  -- and a request that is granted is one.
  abbrev pub cast : Call V → Node V → Option (ℕ × String)
  cast elects n = some ((start_election n).current_term, n.id)
  cast (votes req) n =
      if (handle_vote_request req n).1 then some (req.term, req.candidate_id) else none
  cast (answers _ _) n = none
  cast counts n = none
  cast (appends req) n = none
  cast (sends _ _ _) n = none
  cast (proposes _ _) n = none

  cast-Voted :
      (t : ℕ) (c : String) (x : Call V) (n : Node V)
      → cast x n ≡ some (t, c)
      → Voted t c (step x n) × ((step x n).current_term ≡ t)
  unfolding step start_election handle_vote_request
  cast-Voted t c elects n h = ground (arith, h)
  cast-Voted t c (votes req) n h = ground (arith, h)
  cast-Voted t c (answers _ _) n h = cc
  cast-Voted t c counts n h = cc
  cast-Voted t c (appends req) n h = cc
  cast-Voted t c (sends _ _ _) n h = cc
  cast-Voted t c (proposes _ _) n h = cc

  refuse_other :
      (t : ℕ) (c c' : String) (x : Call V) (n : Node V)
      → c ≢ ""
      → n.current_term + 1 < 2 ^ 64
      → Voted t c n
      → cast x n ≡ some (t, c')
      → c' ≡ c
  unfolding start_election handle_vote_request
  refuse_other t c c' elects n named room v h = ground (arith, h, v, room)
  refuse_other t c c' (votes req) n named room v h =
      ground (arith, h, eq_iff n.voted_for req.candidate_id, eq_iff n.voted_for "")
  refuse_other t c c' (answers _ _) n named room v h = absurd cc
  refuse_other t c c' counts n named room v h = absurd cc
  refuse_other t c c' (appends req) n named room v h = absurd cc
  refuse_other t c c' (sends _ _ _) n named room v h = absurd cc
  refuse_other t c c' (proposes _ _) n named room v h = absurd cc

  -- A node casts a vote, for itself as it starts an election or for another by granting a request,
  -- and after any calls it casts one more in the same term. Then both went to the same candidate,
  -- provided that the candidate has a name and that no term wraps around 64 bits: the term of the
  -- vote and all terms in the messages are at most `max`, and `max` plus the number of calls fits.
  pub one_vote_per_term :
      (max t : ℕ) (c c' : String) (first second : Call V) (between : List (Call V)) (n : Node V)
      → c ≢ ""
      → t ≤ max
      → All (IsBounded max) between
      → max + length between + 1 < 2 ^ 64
      → cast first n ≡ some (t, c)
      → cast second (run between (step first n)) ≡ some (t, c')
      → c' ≡ c
  one_vote_per_term max t c c' first second between n named le bound room once again =
      let g = cast-Voted t c first n once in
      let v =
        run-Voted t max max c between (step first n) named bound (omega arith)
          (omega (arith, g.1, le)) (omega (arith, room)) g.0 in
      refuse_other t c c' second (run between (step first n)) named (omega (arith, v.1, room)) v.0
        again
