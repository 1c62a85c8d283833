-- ===== src/Consensus/ProofOfWork.antt =====
-- PoWBlockchain of solutions/solution20_blockchain_consensus.go. `Tx` is BlockchainTransaction, which
-- is only carried along. `digest` is the SHA-256 sum, in hexadecimal, of the text that
-- `calculateHash` prints of its five arguments; a text is the list of its bytes.
pub mod Validity
pub mod Pool
use go_async_practice.Common.{
  ℕ, zero, suc, ◌+◌, Bool, true, false, ◌&&◌, not, Option, none, some, List, [], ◌∷◌, ◌++◌, String,
  ◌==◌, if◌then◌else◌,
}

-- `==` on texts.
abbrev pub bytes_eq : List ℕ → List ℕ → Bool
bytes_eq [] [] = true
bytes_eq [] (b ∷ bs) = false
bytes_eq (a ∷ as') [] = false
bytes_eq (a ∷ as') (b ∷ bs) = a == b && bytes_eq as' bs

pub record Block (Tx : Type 0) : Type 0 where
  pub index : ℕ
  pub timestamp : ℕ
  pub transactions : List Tx
  pub prev_hash : List ℕ
  pub hash : List ℕ
  pub nonce : ℕ
  pub miner : String

-- `mining` is the block under way, if any: the flag of that name, with the local variables of the
-- `MineBlock` that set it. The nonce of that block is the next one to be tried.
pub record Chain (Tx : Type 0) : Type 0 where
  pub first : Block Tx
  pub rest : List (Block Tx)
  pub difficulty : ℕ
  pub mempool : List Tx
  pub mining : Option (Block Tx)

pub data Mined : Type 0 where
  already_mining no_transactions cancelled : Mined
  started searching found : Mined

-- `hash[:difficulty] == prefix`. A hash has 64 digits, so the slice does not panic.
unfoldable pub is_valid_hash : ℕ → List ℕ → Bool
is_valid_hash zero hash = true
is_valid_hash (suc n) [] = false
is_valid_hash (suc n) (c ∷ hash) = c == b'0' && is_valid_hash n hash

module _ {Tx : Type 0} where
  -- `bc.chain[len(bc.chain)-1]`
  abbrev pub last : Block Tx → List (Block Tx) → Block Tx
  last b [] = b
  last b (c ∷ cs) = last c cs

-- A call of `AddTransaction`, or a piece of `MineBlock`; the pieces of the two interleave.
pub data Call (Tx : Type 0) : Type 0 where
  adds : Tx → Call Tx
  starts : (miner : String) (now : ℕ) → Call Tx
  rounds : (done : Bool) → Call Tx

module _ {Tx : Type 0} (digest : ℕ → ℕ → List Tx → List ℕ → ℕ → List ℕ) where
  unfoldable pub calculate_hash : Block Tx → List ℕ
  calculate_hash b = digest b.index b.timestamp b.transactions b.prev_hash b.nonce

  -- `zero_time` is the zero of time.Time, which stands in the block that is hashed here.
  unfoldable pub new_chain : ℕ → ℕ → Chain Tx
  unfolding calculate_hash
  new_chain zero_time now = record {
    first = record {
      index = 0;
      timestamp = now;
      transactions = [];
      prev_hash = b'0' ∷ [];
      hash = calculate_hash (record {
        index = 0;
        timestamp = zero_time;
        transactions = [];
        prev_hash = b'0' ∷ [];
        hash = [];
        nonce = 0;
        miner = "";
      });
      nonce = 0;
      miner = "";
    };
    rest = [];
    difficulty = 4;
    mempool = [];
    mining = none;
  }

  unfoldable pub add_transaction : Tx → Chain Tx → Chain Tx
  add_transaction tx c = record c { mempool = c.mempool ++ tx ∷ [] }

  candidate : String → ℕ → List Tx → Block Tx → Block Tx
  candidate miner now txs prev = record {
    index = prev.index + 1;
    timestamp = now;
    transactions = txs;
    prev_hash = prev.hash;
    hash = [];
    nonce = 0;
    miner = miner;
  }

  -- `MineBlock` up to the loop.
  unfoldable pub start_mining : String → ℕ → Chain Tx → Chain Tx × Mined
  unfolding candidate
  start_mining miner now c = elim c.mining [
    | some b ↦ (c, already_mining)
    | none ↦ elim c.mempool [
      | [] ↦ (c, no_transactions)
      | tx ∷ txs ↦ (
        record c {
          mining = some (candidate miner now (tx ∷ txs) (last c.first c.rest));
          mempool = [];
        },
        started,
      )
    ]
  ]

  -- One round of the loop; `done` says that the context is cancelled.
  unfoldable pub mining_round : Bool → Chain Tx → Chain Tx × Mined
  unfolding calculate_hash is_valid_hash
  mining_round done c = elim c.mining [
    | none ↦ (c, searching)
    | some b ↦
        if done
        then (record c { mining = none }, cancelled)
        else if is_valid_hash c.difficulty (calculate_hash b)
        then (
          record c { rest = c.rest ++ record b { hash = calculate_hash b } ∷ []; mining = none },
          found,
        )
        else (record c { mining = some (record b { nonce = b.nonce + 1 }) }, searching)
  ]

  validate_link : ℕ → Block Tx → Block Tx → Bool
  validate_link difficulty prev current =
      bytes_eq current.hash (calculate_hash current)
      && bytes_eq current.prev_hash prev.hash
      && is_valid_hash difficulty current.hash

  validate_from : ℕ → Block Tx → List (Block Tx) → Bool
  unfolding validate_link
  validate_from difficulty prev [] = true
  validate_from difficulty prev (b ∷ bs) =
      validate_link difficulty prev b && validate_from difficulty b bs

  unfoldable pub validate_chain : Chain Tx → Bool
  unfolding validate_from
  validate_chain c = validate_from c.difficulty c.first c.rest

  unfoldable pub step : Call Tx → Chain Tx → Chain Tx
  step (adds tx) c = add_transaction tx c
  step (starts miner now) c = (start_mining miner now c).0
  step (rounds done) c = (mining_round done c).0

  unfoldable pub run : List (Call Tx) → Chain Tx → Chain Tx
  run [] c = c
  run (x ∷ xs) c = run xs (step x c)
