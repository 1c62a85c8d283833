-- ===== src/Consensus/Raft.antt =====
-- RaftNode of challenges/challenge32_consensus_raft.go. `V` is the type of the values (interface{}).
-- The indices of the source begin at -1: CommitIndex, LastApplied, MatchIndex and LeaderCommit are
-- kept here as the number one larger, so that they count entries.
pub mod Voting
pub mod Applying
use go_async_practice.Common.{
  ℕ, zero, suc, ◌+◌, ◌-◌, ◌/◌, ◌%◌, ◌^◌, Bool, true, false, ◌&&◌, ◌||◌, not, Option, none, some,
  List, [], ◌∷◌, ◌++◌, String, ltb, leb, ◌==◌, str_eq, if◌then◌else◌, length, get_elem?, drop,
}
use go_async_practice.Common.Dict.{Dict, lookup, insert, lookup_or}

pub data NodeState : Type 0 where
  follower candidate leader : NodeState

-- A command that is no map with a key and a value changes nothing.
pub data Command (V : Type 0) : Type 0 where
  assign : String → V → Command V
  other : Command V

pub record Entry (V : Type 0) : Type 0 where
  pub term : ℕ
  pub index : ℕ
  pub command : Command V

pub record AppendEntryRequest (V : Type 0) : Type 0 where
  pub term : ℕ
  pub leader_id : String
  pub prev_log_index : ℕ
  pub prev_log_term : ℕ
  pub entries : List (Entry V)
  pub leader_commit : ℕ

pub record VoteRequest : Type 0 where
  pub term : ℕ
  pub candidate_id : String
  pub last_log_index : ℕ
  pub last_log_term : ℕ

-- `VotesReceived` is a set: a map whose values are all true.
pub record Node (V : Type 0) : Type 0 where
  pub id : String
  pub state : NodeState
  pub current_term : ℕ
  pub voted_for : String
  pub log : List (Entry V)
  pub commit_index : ℕ
  pub last_applied : ℕ
  pub next_index : Dict ℕ
  pub match_index : Dict ℕ
  pub votes_received : Dict (Unit {0})
  pub peers : List String
  pub leader_id : String
  pub state_machine : Dict V
  pub is_leader : Bool

initial_index : ℕ → List String → Dict ℕ
initial_index i [] = []
initial_index i (peer ∷ peers) = insert peer i (initial_index i peers)

module _ {V : Type 0} where
  unfoldable pub new_raft_node : String → List String → Node V
  unfolding initial_index
  new_raft_node id peers = record {
    id = id;
    state = follower;
    current_term = 0;
    voted_for = "";
    log = [];
    commit_index = 0;
    last_applied = 0;
    next_index = initial_index 0 peers;
    match_index = initial_index 0 peers;
    votes_received = [];
    peers = peers;
    leader_id = "";
    state_machine = [];
    is_leader = false;
  }

  -- `startElection` up to the requests.
  unfoldable pub start_election : Node V → Node V
  start_election n = record n {
    state = candidate;
    current_term = (n.current_term + 1) % 2 ^ 64;
    voted_for = n.id;
    votes_received = (n.id, tt) ∷ [];
  }

  -- `requestVote`, with the simulated answer.
  unfoldable pub request_vote : String → Bool → Node V → Node V
  request_vote peer granted n =
      if granted then record n { votes_received = insert peer tt n.votes_received } else n

  -- `becomeLeader` up to its heartbeats.
  unfoldable pub become_leader : Node V → Node V
  become_leader n = record n { state = leader; leader_id = n.id; is_leader = true }

  -- The end of `startElection`.
  unfoldable pub count_votes : Node V → Node V
  unfolding become_leader
  count_votes n = if ltb (length n.peers / 2) (length n.votes_received) then become_leader n else n

  unfoldable pub handle_vote_request : VoteRequest → Node V → Node V × Bool
  handle_vote_request req n =
      let m =
        if ltb n.current_term req.term
        then record n { current_term = req.term; state = follower; voted_for = "" }
        else n in
      if leb m.current_term req.term
        && (str_eq m.voted_for "" || str_eq m.voted_for req.candidate_id)
      then (record m { voted_for = req.candidate_id }, true)
      else (m, false)

  unfoldable pub apply_entry : Entry V → Dict V → Dict V
  apply_entry e machine = elim e.command [
    | assign key value ↦ insert key value machine
    | other ↦ machine
  ]

  -- The loop of `applyCommittedEntries` with `left` rounds to go, from entry `i` on.
  unfoldable pub apply_from : ℕ → ℕ → List (Entry V) → Dict V → Dict V
  unfolding apply_entry
  apply_from zero i log machine = machine
  apply_from (suc left) i log machine =
      apply_from left (i + 1) log
        (elim (get_elem? log i) [ none ↦ machine | some e ↦ apply_entry e machine ])

  unfoldable pub apply_committed_entries : Node V → Node V
  unfolding apply_from
  apply_committed_entries n =
      if ltb n.last_applied n.commit_index
      then record n {
        last_applied = n.commit_index;
        state_machine =
            apply_from (n.commit_index - n.last_applied) n.last_applied n.log n.state_machine;
      }
      else n

  adopt_term : ℕ → Node V → Node V
  adopt_term term n =
      if ltb n.current_term term
      then record n { current_term = term; state = follower; voted_for = ""; is_leader = false }
      else n

  receive : AppendEntryRequest V → Node V → Node V
  receive req n = record n { leader_id = req.leader_id; log = n.log ++ req.entries }

  commit_to : ℕ → Node V → Node V
  unfolding apply_committed_entries
  commit_to leader_commit n =
      if ltb n.commit_index leader_commit
      then apply_committed_entries (record n { commit_index = leader_commit })
      else n

  -- A request of an older term is ignored.
  unfoldable pub handle_append_entry : AppendEntryRequest V → Node V → Node V
  unfolding adopt_term receive commit_to
  handle_append_entry req n =
      if ltb req.term n.current_term
      then n
      else commit_to req.leader_commit (receive req (adopt_term req.term n))

  -- `sendAppendEntry`, whose simulated answer is always a success.
  unfoldable pub send_append_entry : String → ℕ → ℕ → Node V → Node V × AppendEntryRequest V
  send_append_entry peer term commit_index n =
      let next = lookup_or peer 0 n.next_index in
      let entries = drop next n.log in
      let prev_term : ℕ = elim next [
        | zero ↦ 0
        | suc prev ↦ elim (get_elem? n.log prev) [ none ↦ 0 | some e ↦ e.term ]
      ] in
      (
        record n {
          next_index = insert peer (next + length entries) n.next_index;
          match_index = insert peer (next + length entries) n.match_index;
        },
        record {
          term = term;
          leader_id = n.id;
          prev_log_index = next;
          prev_log_term = prev_term;
          entries = entries;
          leader_commit = commit_index;
        },
      )

  -- False stands for the error "not leader".
  unfoldable pub propose_value : String → V → Node V → Node V × Bool
  propose_value key value n =
      if n.is_leader
      then (
        record n {
          log =
              n.log
              ++ record { term = n.current_term; index = length n.log; command = assign key value }
                ∷ [];
        },
        true,
      )
      else (n, false)

  unfoldable pub get_value : String → Node V → Option V
  get_value key n = lookup key n.state_machine

-- What can happen to a node; the mutex orders these.
pub data Call (V : Type 0) : Type 0 where
  elects : Call V
  answers : (peer : String) (granted : Bool) → Call V
  counts : Call V
  votes : VoteRequest → Call V
  appends : AppendEntryRequest V → Call V
  sends : (peer : String) (term commit_index : ℕ) → Call V
  proposes : String → V → Call V

module _ {V : Type 0} where
  unfoldable pub step : Call V → Node V → Node V
  step elects n = start_election n
  step (answers peer granted) n = request_vote peer granted n
  step counts n = count_votes n
  step (votes req) n = (handle_vote_request req n).0
  step (appends req) n = handle_append_entry req n
  step (sends peer term commit_index) n = (send_append_entry peer term commit_index n).0
  step (proposes key value) n = (propose_value key value n).0

  unfoldable pub run : List (Call V) → Node V → Node V
  run [] n = n
  run (c ∷ cs) n = run cs (step c n)
