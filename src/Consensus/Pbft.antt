-- ===== src/Consensus/Pbft.antt =====
-- PBFTConsensus of solutions/solution20_blockchain_consensus.go. `B` is the type of the blocks, which
-- are only carried along. The text "view-sequence" that keys the counters is the pair of the two
-- numbers. `broadcast` sends nothing, so what it is given is returned.
pub mod Commits
use go_async_practice.Common.{
  ℕ, suc, ◌+◌, ◌-◌, ◌*◌, ◌/◌, Bool, true, false, ◌&&◌, not, Option, none, some, List, [], ◌∷◌, ◌++◌,
  String, ltb, leb, ◌==◌, str_eq, if◌then◌else◌, length,
}

pub data MessageType : Type 0 where
  request preprepare prepare commit : MessageType

pub record Message (B : Type 0) : Type 0 where
  pub kind : MessageType
  pub view : ℕ
  pub sequence : ℕ
  pub block : B
  pub node_id : String
  pub signature : String

-- `map[string]int`, by view and sequence.
abbrev pub Counters : Type 0
Counters = List (ℕ × ℕ × ℕ)

-- `m[key]`, which is 0 for a missing key.
unfoldable pub votes : ℕ → ℕ → Counters → ℕ
votes v s [] = 0
votes v s ((w, t, n) ∷ m) = if w == v && t == s then n else votes v s m

-- `m[key]++`
unfoldable pub bump : ℕ → ℕ → Counters → Counters
bump v s [] = (v, s, 1) ∷ []
bump v s ((w, t, n) ∷ m) = if w == v && t == s then (w, t, n + 1) ∷ m else (w, t, n) ∷ bump v s m

pub record Consensus (B : Type 0) : Type 0 where
  pub node_id : String
  pub nodes : List String
  pub view : ℕ
  pub sequence : ℕ
  pub prepared : Counters
  pub committed : Counters
  pub message_log : List (Message B)
  pub is_primary : Bool
  pub chain : List B
  pub fault_nodes : ℕ

pub data Outcome : Type 0 where
  agreed not_primary timed_out cancelled : Outcome

pub data WaitEvent : Type 0 where
  context_done timeout tick : WaitEvent

module _ {B : Type 0} where
  -- The first node is the primary one; Go panics on an empty list of nodes.
  unfoldable pub new_consensus : String → String → List String → Consensus B
  new_consensus node_id first others = record {
    node_id = node_id;
    nodes = first ∷ others;
    view = 0;
    sequence = 0;
    prepared = [];
    committed = [];
    message_log = [];
    is_primary = str_eq first node_id;
    chain = [];
    fault_nodes = (length (first ∷ others) - 1) / 3;
  }

  abbrev pub quorum : Consensus B → ℕ
  quorum p = 2 * p.fault_nodes + 1

  abbrev reply : MessageType → Message B → Consensus B → Message B
  reply kind msg p = record {
    kind = kind;
    view = msg.view;
    sequence = msg.sequence;
    block = msg.block;
    node_id = p.node_id;
    signature = "";
  }

  unfoldable pub handle_preprepare : Message B → Consensus B → Consensus B × List (Message B)
  handle_preprepare msg p = (p, reply prepare msg p ∷ [])

  unfoldable pub handle_prepare : Message B → Consensus B → Consensus B × List (Message B)
  handle_prepare msg p =
      let counted = bump msg.view msg.sequence p.prepared in
      (
        record p { prepared = counted },
        if leb (quorum p) (votes msg.view msg.sequence counted)
            then reply commit msg p ∷ []
            else [],
      )

  unfoldable pub handle_commit : Message B → Consensus B → Consensus B × List (Message B)
  handle_commit msg p =
      let counted = bump msg.view msg.sequence p.committed in
      let q = record p { committed = counted } in
      (
        if leb (quorum p) (votes msg.view msg.sequence counted)
            then record q { chain = q.chain ++ msg.block ∷ [] }
            else q,
        [],
      )

  unfoldable pub verify_message : Message B → Consensus B → Bool
  verify_message msg p = msg.view == p.view && ltb 0 msg.sequence

  handle_kind : MessageType → Message B → Consensus B → Consensus B × List (Message B)
  unfolding handle_preprepare handle_prepare handle_commit
  handle_kind request msg p = (p, [])
  handle_kind preprepare msg p = handle_preprepare msg p
  handle_kind prepare msg p = handle_prepare msg p
  handle_kind commit msg p = handle_commit msg p

  unfoldable pub handle_message : Message B → Consensus B → Consensus B × List (Message B)
  unfolding handle_kind verify_message
  handle_message msg p =
      if not (verify_message msg p)
      then (p, [])
      else handle_kind msg.kind msg (record p { message_log = p.message_log ++ msg ∷ [] })

  -- `ProposeBlock` up to `waitForConsensus`.
  unfoldable pub propose_block : B → Consensus B → Consensus B × Option (Message B)
  propose_block block p =
      if not p.is_primary
      then (p, none)
      else let msg : Message B = record {
        kind = preprepare;
        view = p.view;
        sequence = p.sequence + 1;
        block = block;
        node_id = p.node_id;
        signature = "";
      } in
        (record p { sequence = p.sequence + 1; message_log = p.message_log ++ msg ∷ [] }, some msg)

  -- One round of the loop in `waitForConsensus`; `none` goes on waiting.
  unfoldable pub wait_round : WaitEvent → Consensus B → Option Outcome
  wait_round context_done p = some cancelled
  wait_round timeout p = some timed_out
  wait_round tick p =
      if leb (quorum p) (votes p.view p.sequence p.committed) then some agreed else none

  unfoldable pub handle_all : List (Message B) → Consensus B → Consensus B
  handle_all [] p = p
  handle_all (m ∷ ms) p = handle_all ms (handle_message m p).0
