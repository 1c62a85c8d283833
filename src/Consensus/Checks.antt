-- ===== src/Consensus/Checks.antt =====
-- The consensus algorithms at concrete inputs.
use go_async_practice.Common.{
  ℕ, ◌+◌, ◌*◌, ◌≡◌, refl, ◌≢◌, true, false, none, some, List, [], ◌∷◌, String, arith, eq_iff,
  length, map, drop, leb, ◌==◌, if◌then◌else◌,
}
use go_async_practice.Consensus.ProofOfWork
use go_async_practice.Consensus.ProofOfWork.{
  Chain, Block, adds, starts, rounds, new_chain, validate_chain, mining_round,
}
use go_async_practice.Consensus.ProofOfWork.Validity.{HasIndices, mined_chain_validates}
use go_async_practice.Consensus.ProofOfWork.Pool.{in_chain, transactions_kept}
use go_async_practice.Consensus.Pbft
use go_async_practice.Consensus.Pbft.{Message, agreed, tick, wait_round, votes, handle_all}
use go_async_practice.Consensus.Pbft.Commits.{Commits, chain_after_quorum}
use go_async_practice.Consensus.Raft
use go_async_practice.Consensus.Raft.{
  Node, VoteRequest, Entry, AppendEntryRequest, Command, assign, handle_vote_request,
}
use go_async_practice.Consensus.Raft.Voting.{cast, one_vote_per_term}

-- A digest that starts with four zeros for the nonce 2 only.
abbrev digest : ℕ → ℕ → List ℕ → List ℕ → ℕ → List ℕ
digest index timestamp txs prev nonce =
    if nonce == 2 then b'0' ∷ b'0' ∷ b'0' ∷ b'0' ∷ index ∷ [] else b'f' ∷ index ∷ []

abbrev mining : List (ProofOfWork.Call ℕ)
mining =
    adds 100
    ∷ adds 50
    ∷ starts "Miner1" 5
    ∷ adds 7
    ∷ rounds false
    ∷ rounds false
    ∷ rounds false
    ∷ starts "Miner2" 9
    ∷ rounds false
    ∷ []

mined_chain_validates_example :
    let c = ProofOfWork.run digest mining (new_chain digest 0 1) in
    (validate_chain digest c ≡ true) × (c.first.index ≡ 0) × HasIndices 0 c.rest
mined_chain_validates_example = mined_chain_validates digest 0 1 mining

one_block_mined : length (ProofOfWork.run digest mining (new_chain digest 0 1)).rest ≡ 1
unfolding ProofOfWork.run ProofOfWork.step ProofOfWork.add_transaction ProofOfWork.start_mining
    mining_round new_chain
one_block_mined = refl

transactions_kept_example :
    in_chain (ProofOfWork.run digest mining (new_chain digest 0 1)) ≡ 100 ∷ 50 ∷ 7 ∷ []
transactions_kept_example =
    transactions_kept digest 0 1 mining
      (tt, (tt, (tt, (tt, (refl, (refl, (refl, (tt, (refl, tt)))))))))

abbrev commit_from : String → Message ℕ
commit_from node = record {
  kind = Pbft.MessageType.commit;
  view = 0;
  sequence = 1;
  block = 42;
  node_id = node;
  signature = "";
}

-- One node sends the same commit four times.
abbrev four_commits : List (Message ℕ)
four_commits =
    commit_from "node2" ∷ commit_from "node2" ∷ commit_from "node2" ∷ commit_from "node2" ∷ []

abbrev four_nodes : Pbft.Consensus ℕ
four_nodes = record {
  node_id = "node1";
  nodes = "node1" ∷ "node2" ∷ "node3" ∷ "node4" ∷ [];
  view = 0;
  sequence = 1;
  prepared = [];
  committed = [];
  message_log = [];
  is_primary = true;
  chain = [];
  fault_nodes = 1;
}

is_commit : Commits 0 1 (commit_from "node2")
is_commit = record { is_commit = refl; in_view = refl; at_sequence = refl }

chain_after_quorum_example :
    let q = handle_all four_commits four_nodes in
    (q.chain ≡ map (λ m. m.block) (drop (2 * 1) four_commits))
    × (wait_round tick q ≡ (if leb (2 * 1 + 1) (length four_commits) then some agreed else none))
unfolding votes
chain_after_quorum_example =
    chain_after_quorum 0 1 four_commits four_nodes
      (is_commit, (is_commit, (is_commit, (is_commit, tt)))) refl refl (omega arith) refl

committed_twice : (handle_all four_commits four_nodes).chain ≡ 42 ∷ 42 ∷ []
unfolding handle_all Pbft.handle_message Pbft.votes Pbft.bump
committed_twice = refl

abbrev asks : String → VoteRequest
asks candidate = record {
  term = 3;
  candidate_id = candidate;
  last_log_index = 0;
  last_log_term = 0;
}

abbrev fresh : Node ℕ
fresh = record {
  id = "node1";
  state = Raft.NodeState.follower;
  current_term = 2;
  voted_for = "node1";
  log = [];
  commit_index = 0;
  last_applied = 0;
  next_index = [];
  match_index = [];
  votes_received = [];
  peers = "node2" ∷ "node3" ∷ [];
  leader_id = "";
  state_machine = [];
  is_leader = false;
}

node2_named : ◌≢◌ {A = String} "node2" ""
node2_named = ground (arith, eq_iff "node2" "")

one_vote_per_term_example : ◌≡◌ {A = String} "node2" "node2"
unfolding handle_vote_request Raft.run Raft.step
one_vote_per_term_example =
    one_vote_per_term 3 3 "node2" "node2" (Raft.Call.votes (asks "node2"))
      (Raft.Call.votes (asks "node2")) (Raft.Call.votes (asks "node3") ∷ []) fresh node2_named
      (omega arith) (omega arith, tt) (omega arith) refl refl

-- A node that stands for election in term 3 refuses another candidate of that term.
own_vote_counts : cast (Raft.Call.votes (asks "node2")) (Raft.step Raft.Call.elects fresh) ≡ none
unfolding handle_vote_request Raft.step Raft.start_election
own_vote_counts = refl

abbrev entry : ℕ → Entry ℕ
entry n = record { term = 3; index = n; command = assign "counter" n }

abbrev heartbeat : ℕ → List (Entry ℕ) → AppendEntryRequest ℕ
heartbeat commit entries = record {
  term = 3;
  leader_id = "node2";
  prev_log_index = 0;
  prev_log_term = 0;
  entries = entries;
  leader_commit = commit;
}

abbrev two_appends : List (Raft.Call ℕ)
two_appends =
    Raft.Call.appends (heartbeat 0 (entry 0 ∷ entry 1 ∷ []))
    ∷ Raft.Call.appends (heartbeat 2 [])
    ∷ []
