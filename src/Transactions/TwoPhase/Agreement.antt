-- ===== src/Transactions/TwoPhase/Agreement.antt =====
-- What the participants hold after transactions.
use go_async_practice.Common.{
  ℕ, ◌+◌, ◌≡◌, refl, ap, ◌∙◌, true, Option, none, some, List, [], ◌∷◌, String, arith, eq_iff, map,
  count_if, str_eq, if◌then◌else◌, All,
}
use mathlib.Core.List.{map-map}
use go_async_practice.Common.Dict.{
  lookup, lookup_or, lookup-insert, lookup-erase, lookup-insert_self,
}
use go_async_practice.Transactions.TwoPhase.{
  Transaction, Participant, prepare, prepare_one, prepare_all, write_fields, commit_one, execute_tx,
  new_participant,
}

-- One call of `executeTx`.
pub record Write (V : Type 0) : Type 0 where
  pub tx_id : String
  pub now : ℕ
  pub key : String
  pub value : V

module _ {V : Type 0} where
  pub run : List (Write V) → List (Participant V) → List (Participant V)
  run [] ps = ps
  run (w ∷ ws) ps = run ws (execute_tx w.tx_id w.now w.key w.value ps)

  abbrev tx_of : Write V → Transaction V
  tx_of w = record {
    id = w.tx_id;
    timestamp = w.now;
    state = prepare;
    fields = (w.key, w.value) ∷ [];
  }

  execute_one : Write V → Participant V → Participant V
  execute_one w p = commit_one w.tx_id (prepare_one w.tx_id (tx_of w) p).0

  prepare_all-lem :
      (w : Write V) (i : ℕ) (ps : List (Participant V))
      → (map (commit_one w.tx_id) (prepare_all w.tx_id (tx_of w) i ps).0 ≡ map (execute_one w) ps)
        × ((prepare_all w.tx_id (tx_of w) i ps).1 ≡ true)
  unfolding prepare_all execute_one
  prepare_all-lem w i [] = (refl, refl)
  prepare_all-lem w i (p ∷ ps) = ground (arith, prepare_all-lem w (i + 1) ps)

  execute_tx-map :
      (w : Write V) (ps : List (Participant V))
      → execute_tx w.tx_id w.now w.key w.value ps ≡ map (execute_one w) ps
  unfolding execute_tx
  execute_tx-map w ps = ground (arith, prepare_all-lem w 0 ps)

  run_one : List (Write V) → Participant V → Participant V
  run_one [] p = p
  run_one (w ∷ ws) p = run_one ws (execute_one w p)

  run-map : (ws : List (Write V)) (ps : List (Participant V)) → run ws ps ≡ map (run_one ws) ps
  unfolding run run_one
  run-map [] [] = refl
  run-map [] (p ∷ ps) = ap (◌∷◌ p) (run-map [] ps)
  run-map (w ∷ ws) ps =
      rw (execute_tx-map w ps)
        (run-map ws (map (execute_one w) ps) ∙ map-map (run_one ws) (execute_one w) ps)

  -- The value of the last write to a key, and the number of writes to it.
  abbrev pub last_value : String → List (Write V) → Option V
  last_value k [] = none
  last_value k (w ∷ ws) = elim (last_value k ws) [
    | none ↦ if str_eq w.key k then some w.value else none
    | some v ↦ some v
  ]

  abbrev pub or_else : Option V → Option V → Option V
  or_else none o = o
  or_else (some v) o = some v

  execute_one-lem :
      (k t : String) (w : Write V) (p : Participant V)
      → (lookup k (execute_one w p).fields
          ≡ (if str_eq w.key k then some w.value else lookup k p.fields))
        × (lookup_or k 0 (execute_one w p).versions
            ≡ (if str_eq w.key k then lookup_or k 0 p.versions + 1 else lookup_or k 0 p.versions))
        × (lookup t (execute_one w p).prepared
            ≡ (if str_eq w.tx_id t then none else lookup t p.prepared))
  unfolding execute_one prepare_one commit_one write_fields
  execute_one-lem k t w p = grind (
    arith,
    eq_iff w.key k,
    eq_iff w.tx_id t,
    lookup-insert_self w.tx_id (tx_of w) p.prepared,
    lookup-insert,
    lookup-erase,
  )

  run_one-lem :
      (k t : String) (ws : List (Write V)) (p : Participant V)
      → lookup t p.prepared ≡ none
      → (lookup k (run_one ws p).fields ≡ or_else (last_value k ws) (lookup k p.fields))
        × (lookup_or k 0 (run_one ws p).versions
            ≡ lookup_or k 0 p.versions + count_if (λ w. str_eq w.key k) ws)
        × (lookup t (run_one ws p).prepared ≡ none)
  unfolding run_one
  run_one-lem k t [] p quiet = (refl, omega arith, quiet)
  run_one-lem k t (w ∷ ws) p quiet =
      grind (arith, execute_one-lem k t w p, run_one-lem k t ws (execute_one w p))

-- What a participant shows of a key `k` and a transaction `t` after these writes.
abbrev pub Reflects : {V : Type 0} → String → String → List (Write V) → Participant V → Type 0
Reflects k t ws p =
    (lookup k p.fields ≡ last_value k ws)
    × (lookup_or k 0 p.versions ≡ count_if (λ w. str_eq w.key k) ws)
    × (lookup t p.prepared ≡ none)

run_one-new :
    {V : Type 0} (k t : String) (ws : List (Write V)) (i : String)
    → Reflects k t ws (run_one ws (new_participant i))
unfolding new_participant lookup
run_one-new k t ws i = ground (arith, run_one-lem k t ws (new_participant i) refl)

-- After any transactions on fresh participants, executed one after the other, all participants agree:
-- each holds for every key the value that was written last, counts the writes to it as the key's
-- version, and has no transaction left in the prepared state.
pub participants_agree :
    {V : Type 0} (k t : String) (ws : List (Write V)) (ids : List String)
    → All (Reflects k t ws) (run ws (map new_participant ids))
participants_agree {V} k t ws ids = rw (run-map ws (map new_participant ids)) (go ids)
  where
    go :
        (is : List String)
        → All (Reflects {V = V} k t ws) (map (run_one ws) (map new_participant is))
    go [] = tt
    go (i ∷ is) = (run_one-new k t ws i, go is)
