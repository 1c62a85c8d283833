-- ===== src/Consensus/ProofOfWork/Validity.antt =====
-- Mining and the validation of the chain.
use go_async_practice.Common.{
  ℕ, ◌+◌, ◌≡◌, refl, true, Option, none, some, List, [], ◌∷◌, ◌++◌, arith, Option-cases, inl, inr,
}
use go_async_practice.Consensus.ProofOfWork.{
  Block, Chain, Call, adds, starts, rounds, bytes_eq, last, is_valid_hash, calculate_hash,
  new_chain, add_transaction, start_mining, mining_round, validate_link, validate_from,
  validate_chain, step, run,
}

bytes_eq_refl : (a : List ℕ) → bytes_eq a a ≡ true
bytes_eq_refl [] = refl
bytes_eq_refl (c ∷ cs) = ground (arith, bytes_eq_refl cs)

module _ {Tx : Type 0} where
  -- The blocks have the indices `i + 1`, `i + 2`, … in order.
  abbrev pub HasIndices : ℕ → List (Block Tx) → Type 0
  HasIndices i [] = Unit {0}
  HasIndices i (b ∷ bs) = (b.index ≡ i + 1) × HasIndices (i + 1) bs

  HasIndices-append :
      (p : Block Tx) (i : ℕ) (bs : List (Block Tx)) (b : Block Tx)
      → p.index ≡ i
      → HasIndices i bs
      → b.index ≡ (last p bs).index + 1
      → HasIndices i (bs ++ b ∷ [])
  HasIndices-append p i [] b e h q = (omega arith, tt)
  HasIndices-append p i (c ∷ bs) b e h q = (h.0, HasIndices-append c (i + 1) bs b h.0 h.1 q)

module _ {Tx : Type 0} (digest : ℕ → ℕ → List Tx → List ℕ → ℕ → List ℕ) where
  validate_from-append :
      (d : ℕ) (p : Block Tx) (bs : List (Block Tx)) (b : Block Tx)
      → validate_from digest d p bs ≡ true
      → validate_link digest d (last p bs) b ≡ true
      → validate_from digest d p (bs ++ b ∷ []) ≡ true
  unfolding validate_from
  validate_from-append d p [] b h k = ground arith
  validate_from-append d p (c ∷ bs) b h k = ground (arith, validate_from-append d c bs b)

  -- The block under way extends the last block.
  abbrev Extends : Block Tx → Option (Block Tx) → Type 0
  Extends p none = Unit {0}
  Extends p (some b) = (b.prev_hash ≡ p.hash) × (b.index ≡ p.index + 1)

  record IsSound (c : Chain Tx) : Type 0 where
    valid : validate_from digest c.difficulty c.first c.rest ≡ true
    genesis : c.first.index ≡ 0
    indexed : HasIndices 0 c.rest
    extends : Extends (last c.first c.rest) c.mining

  validate_link-mined :
      (d : ℕ) (p b : Block Tx)
      → b.prev_hash ≡ p.hash
      → is_valid_hash d (calculate_hash digest b) ≡ true
      → validate_link digest d p (record b { hash = calculate_hash digest b }) ≡ true
  unfolding validate_link calculate_hash
  validate_link-mined d p b e good =
      ground (arith, bytes_eq_refl (calculate_hash digest b), bytes_eq_refl p.hash)

  found-IsSound :
      (c : Chain Tx) (b : Block Tx)
      → IsSound c
      → c.mining ≡ some b
      → is_valid_hash c.difficulty (calculate_hash digest b) ≡ true
      → IsSound (record c {
        rest = c.rest ++ record b { hash = calculate_hash digest b } ∷ [];
        mining = none;
      })
  found-IsSound c b h e good =
      let extends : Extends (last c.first c.rest) (some b) = rw e at h.extends in
      let mined : Block Tx = record b { hash = calculate_hash digest b } in
      record {
        valid =
            validate_from-append c.difficulty c.first c.rest mined h.valid
              (validate_link-mined c.difficulty (last c.first c.rest) b extends.0 good);
        genesis = h.genesis;
        indexed = HasIndices-append c.first 0 c.rest mined h.genesis h.indexed extends.1;
        extends = tt;
      }

  step-IsSound : (x : Call Tx) (c : Chain Tx) → IsSound c → IsSound (step digest x c)
  unfolding step add_transaction start_mining mining_round
  step-IsSound (adds tx) c h = record {
    valid = h.valid;
    genesis = h.genesis;
    indexed = h.indexed;
    extends = h.extends;
  }
  step-IsSound (starts miner now) c h = ground arith
  step-IsSound (rounds done) c h = elim (Option-cases c.mining) [
    | inl idle ↦ ground arith
    | inr (b, e) ↦ ground (arith, found-IsSound c b h e)
  ]

  new_chain-IsSound : (zero_time now : ℕ) → IsSound (new_chain digest zero_time now)
  unfolding new_chain validate_from
  new_chain-IsSound zero_time now = record {
    valid = refl;
    genesis = refl;
    indexed = tt;
    extends = tt;
  }

  run-IsSound : (xs : List (Call Tx)) (c : Chain Tx) → IsSound c → IsSound (run digest xs c)
  unfolding run
  run-IsSound [] c h = h
  run-IsSound (x ∷ xs) c h = run-IsSound xs (step digest x c) (step-IsSound x c h)

  -- Transactions may be added, and miners may start, search, be cancelled and find blocks in any
  -- order: the chain that began with the genesis block always validates, the first block has the
  -- number 0, and those behind it the numbers 1, 2, … without a gap.
  pub mined_chain_validates :
      (zero_time now : ℕ) (xs : List (Call Tx))
      → let c = run digest xs (new_chain digest zero_time now) in
        (validate_chain digest c ≡ true) × (c.first.index ≡ 0) × HasIndices 0 c.rest
  unfolding validate_chain
  mined_chain_validates zero_time now xs =
      let h = run-IsSound xs (new_chain digest zero_time now) (new_chain-IsSound zero_time now) in
      (h.valid, h.genesis, h.indexed)
