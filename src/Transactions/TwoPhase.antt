-- ===== src/Transactions/TwoPhase.antt =====
-- solution1_TwoPhaseCommit of solutions/challenge12_solution.go. `V` is the type of the values
-- (interface{}). Each goroutine of a phase touches one participant, under that one's mutex, so a
-- phase is a pass over the participants. A whole executeTx is one step: the calls modelled do not
-- overlap, as in the run at the end of the source. No lock is held from one participant to the next
-- there, so commits of calls that overlap can reach the participants in different orders. The
-- goroutines that abort starts and does not wait for are done here when it returns.
pub mod Agreement
pub mod Abort
use go_async_practice.Common.{
  ℕ, zero, suc, ◌+◌, Bool, true, false, ◌&&◌, Option, none, some, List, [], ◌∷◌, String,
  if◌then◌else◌, map,
}
use go_async_practice.Common.Dict.{Dict, lookup, insert, erase, lookup_or}

pub data TxState : Type 0 where
  prepare commit abort : TxState

module _ (V : Type 0) where
  pub record Transaction : Type 0 where
    pub id : String
    pub timestamp : ℕ
    pub state : TxState
    pub fields : Dict V  -- `Data`

  pub record Participant : Type 0 where
    pub id : String
    pub fields : Dict V  -- `data`
    pub prepared : Dict Transaction
    pub versions : Dict ℕ

module _ {V : Type 0} where
  -- The participant's goroutine in `prepare`, with its vote.
  unfoldable pub prepare_one : String → Transaction V → Participant V → Participant V × Bool
  prepare_one tx_id tx p = (record p { prepared = insert tx_id tx p.prepared }, true)

  -- The participants, the conjunction of their votes, and the participants (by position) whose
  -- rollback was recorded.
  unfoldable pub prepare_all :
      String → Transaction V → ℕ → List (Participant V) → List (Participant V) × Bool × List ℕ
  unfolding prepare_one
  prepare_all tx_id tx i [] = ([], true, [])
  prepare_all tx_id tx i (p ∷ ps) =
      let (p', vote) = prepare_one tx_id tx p in
      let (ps', votes, rollbacks) = prepare_all tx_id tx (i + 1) ps in
      (p' ∷ ps', vote && votes, i ∷ rollbacks)

  -- `for k, v := range tx.Data { participant.data[k] = v; participant.versions[k]++ }`
  unfoldable pub write_fields : Dict V → Participant V → Participant V
  write_fields [] p = p
  write_fields ((k, v) ∷ fields) p = write_fields fields (record p {
    fields = insert k v p.fields;
    versions = insert k (lookup_or k 0 p.versions + 1) p.versions;
  })

  unfoldable pub commit_one : String → Participant V → Participant V
  unfolding write_fields
  commit_one tx_id p = elim (lookup tx_id p.prepared) [
    | none ↦ p
    | some tx ↦ let q = write_fields tx.fields p in record q { prepared = erase tx_id q.prepared }
  ]

  abbrev pub forget : String → Participant V → Participant V
  forget tx_id p = record p { prepared = erase tx_id p.prepared }

  abbrev at : ℕ → (Participant V → Participant V) → List (Participant V) → List (Participant V)
  at i f [] = []
  at zero f (p ∷ ps) = f p ∷ ps
  at (suc i) f (p ∷ ps) = p ∷ at i f ps

  roll_back : String → List ℕ → List (Participant V) → List (Participant V)
  roll_back tx_id [] ps = ps
  roll_back tx_id (i ∷ is) ps = roll_back tx_id is (at i (forget tx_id) ps)

  unfoldable pub abort_all : String → List ℕ → List (Participant V) → List (Participant V)
  unfolding roll_back
  abort_all tx_id rollbacks ps = map (forget tx_id) (roll_back tx_id rollbacks ps)

  unfoldable pub execute_tx : String → ℕ → String → V → List (Participant V) → List (Participant V)
  unfolding prepare_all commit_one abort_all
  execute_tx tx_id now key value ps =
      let tx : Transaction V = record {
        id = tx_id;
        timestamp = now;
        state = prepare;
        fields = (key, value) ∷ [];
      } in
      let (ps', can_commit, rollbacks) = prepare_all tx_id tx 0 ps in
      if can_commit then map (commit_one tx_id) ps' else abort_all tx_id rollbacks ps'

  unfoldable pub new_participant : String → Participant V
  new_participant id = record { id = id; fields = []; prepared = []; versions = [] }
