-- ===== src/Consensus/ProofOfWork/Pool.antt =====
-- What becomes of the transactions.
use mathlib.Core.List.{append_assoc, append-nil}
use go_async_practice.Common.{
  ℕ, ◌≡◌, refl, sym, ap, ◌∙◌, true, false, Option, none, some, List, [], ◌∷◌, ◌++◌, arith,
  Option-cases, inl, inr, All, Bool, String, ◌⊎◌,
}
use go_async_practice.Consensus.ProofOfWork.{
  Block, Chain, Call, adds, starts, rounds, calculate_hash, cancelled, add_transaction,
  start_mining, mining_round, new_chain, step, run,
}

module _ {Tx : Type 0} where
  -- The transactions of the blocks behind the genesis block, in order.
  abbrev pub in_blocks : List (Block Tx) → List Tx
  in_blocks [] = []
  in_blocks (b ∷ bs) = b.transactions ++ in_blocks bs

  abbrev pub in_block : Option (Block Tx) → List Tx
  in_block none = []
  in_block (some b) = b.transactions

  -- All that the chain holds: mined, being mined, and waiting.
  abbrev pub in_chain : Chain Tx → List Tx
  in_chain c = in_blocks c.rest ++ (in_block c.mining ++ c.mempool)

  abbrev pub added : List (Call Tx) → List Tx
  added [] = []
  added (adds tx ∷ xs) = tx ∷ added xs
  added (starts _ _ ∷ xs) = added xs
  added (rounds _ ∷ xs) = added xs

  abbrev pub IsUncancelled : Call Tx → Type 0
  IsUncancelled (adds _) = Unit {0}
  IsUncancelled (starts _ _) = Unit {0}
  IsUncancelled (rounds done) = done ≡ false

  in_blocks-append :
      (bs : List (Block Tx)) (b : Block Tx)
      → in_blocks (bs ++ b ∷ []) ≡ in_blocks bs ++ b.transactions
  in_blocks-append [] b = append-nil b.transactions
  in_blocks-append (x ∷ bs) b =
      rw (in_blocks-append bs b) (sym (append_assoc x.transactions (in_blocks bs) b.transactions))

  List-cases : (l : List Tx) → (l ≡ []) ⊎ ((x : Tx) × (xs : List Tx) × (l ≡ x ∷ xs))
  List-cases [] = inl refl
  List-cases (x ∷ xs) = inr (x, xs, refl)

  added-cons : (x : Call Tx) (xs : List (Call Tx)) → added (x ∷ []) ++ added xs ≡ added (x ∷ xs)
  added-cons (adds tx) xs = refl
  added-cons (starts _ _) xs = refl
  added-cons (rounds _) xs = refl

module _ {Tx : Type 0} (digest : ℕ → ℕ → List Tx → List ℕ → ℕ → List ℕ) where
  start_mining-in_chain :
      (miner : String) (now : ℕ) (c : Chain Tx)
      → in_chain (start_mining digest miner now c).0 ≡ in_chain c
  unfolding start_mining
  start_mining-in_chain miner now c = elim (Option-cases c.mining) [
    | inl idle ↦ elim (List-cases c.mempool) [
      | inl dry ↦ ground arith
      | inr (tx, txs, e) ↦ ground (arith, append-nil (tx ∷ txs))
    ]
    | inr (b, e) ↦ ground arith
  ]

  mining_round-in_chain :
      (done : Bool) (c : Chain Tx)
      → done ≡ false
      → in_chain (mining_round digest done c).0 ≡ in_chain c
  unfolding mining_round calculate_hash
  mining_round-in_chain done c h = elim (Option-cases c.mining) [
    | inl idle ↦ ground arith
    | inr (b, e) ↦ ground (
      arith,
      in_blocks-append c.rest (record b { hash = calculate_hash digest b }),
      append_assoc (in_blocks c.rest) b.transactions c.mempool,
    )
  ]

  step-in_chain :
      (x : Call Tx) (c : Chain Tx)
      → IsUncancelled x
      → in_chain (step digest x c) ≡ in_chain c ++ added (x ∷ [])
  unfolding step add_transaction start_mining mining_round
  step-in_chain (adds tx) c h = simp append_assoc
  step-in_chain (starts miner now) c h = start_mining-in_chain miner now c ∙ sym (append-nil _)
  step-in_chain (rounds done) c h = mining_round-in_chain done c h ∙ sym (append-nil _)

  run-in_chain :
      (xs : List (Call Tx)) (c : Chain Tx)
      → All IsUncancelled xs
      → in_chain (run digest xs c) ≡ in_chain c ++ added xs
  unfolding run
  run-in_chain [] c h = sym (append-nil _)
  run-in_chain (x ∷ xs) c h =
      run-in_chain xs (step digest x c) h.1
      ∙ ap (λ l. l ++ added xs) (step-in_chain x c h.0)
      ∙ append_assoc (in_chain c) (added (x ∷ [])) (added xs)
      ∙ ap (◌++◌ (in_chain c)) (added-cons x xs)

  -- As long as no mining is cancelled, no transaction is lost, doubled or reordered: those in the
  -- blocks, then those being mined, then those that wait are the transactions added, in order.
  pub transactions_kept :
      (zero_time now : ℕ) (xs : List (Call Tx))
      → All IsUncancelled xs
      → in_chain (run digest xs (new_chain digest zero_time now)) ≡ added xs
  unfolding new_chain
  transactions_kept zero_time now xs h = run-in_chain xs (new_chain digest zero_time now) h

  -- A cancelled `MineBlock` loses the transactions of its block: they were taken from the pool, and
  -- are neither in a block nor in the pool behind it.
  pub cancelled_mining_loses :
      (c : Chain Tx) (b : Block Tx)
      → c.mining ≡ some b
      → ((mining_round digest true c).1 ≡ cancelled)
        × (in_chain c ≡ in_blocks c.rest ++ (b.transactions ++ c.mempool))
        × (in_chain (mining_round digest true c).0 ≡ in_blocks c.rest ++ c.mempool)
  unfolding mining_round
  cancelled_mining_loses c b e = ground arith
