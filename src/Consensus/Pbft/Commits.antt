-- ===== src/Consensus/Pbft/Commits.antt =====
-- How often a block is committed, and on whose votes.
use mathlib.Core.List.{append_assoc, append-nil}
use native.Mathlib.Decide.{dec_lt}
use go_async_practice.Common.{
  ℕ, zero, suc, ◌+◌, ◌-◌, ◌*◌, ◌<◌, ◌≡◌, refl, sym, ◌∙◌, true, ◌&&◌, none, some, List, [], ◌∷◌,
  ◌++◌, arith, length, map, All, drop, leb, ◌==◌, if◌then◌else◌,
}
use go_async_practice.Consensus.Pbft.{
  Message, commit, Counters, votes, bump, Consensus, quorum, handle_message, handle_commit,
  handle_prepare, handle_preprepare, verify_message, handle_kind, handle_all, wait_round, agreed,
  tick,
}

-- A counter counts the bumps of its own key.
votes-bump :
    (v s w t : ℕ) (m : Counters)
    → votes w t (bump v s m) ≡ (if v == w && s == t then votes w t m + 1 else votes w t m)
unfolding votes bump
votes-bump v s w t [] = ground arith
votes-bump v s w t ((a, b, n) ∷ m) = ground (arith, votes-bump v s w t m)

module _ {B : Type 0} where
  -- A commit message for the given view and sequence.
  pub record Commits (v s : ℕ) (m : Message B) : Type 0 where
    pub is_commit : m.kind ≡ commit
    pub in_view : m.view ≡ v
    pub at_sequence : m.sequence ≡ s

  handle_message-commit :
      (v s : ℕ) (m : Message B) (p : Consensus B)
      → Commits v s m
      → p.view ≡ v
      → 0 < s
      → let q = (handle_message m p).0 in
        (q.view ≡ v)
        × (q.fault_nodes ≡ p.fault_nodes)
        × (votes v s q.committed ≡ votes v s p.committed + 1)
        × (q.chain ≡ (
            if leb (quorum p) (votes v s p.committed + 1)
            then p.chain ++ m.block ∷ []
            else p.chain))
  unfolding handle_message verify_message handle_kind handle_commit
  handle_message-commit v s m p c e pos =
      grind (arith, c.is_commit, c.in_view, c.at_sequence, votes-bump v s v s p.committed)

  drop-suc :
      (n k : ℕ) (x : Message B) (xs : List (Message B))
      → k < n
      → drop (n - k) (x ∷ xs) ≡ drop (n - (k + 1)) xs
  drop-suc n k x xs h = let e : n - k ≡ suc (n - (k + 1)) = omega arith in rw e refl

  drop-nil : (n : ℕ) → drop {A = Message B} n [] ≡ []
  drop-nil zero = refl
  drop-nil (suc n) = refl

  -- One message more, with `k` votes before it and `n` votes that commit nothing.
  blocks_next :
      (n k : ℕ) (chain : List B) (m : Message B) (ms : List (Message B))
      → (if leb (n + 1) (k + 1) then chain ++ m.block ∷ [] else chain)
          ++ map (λ m'. m'.block) (drop (n - (k + 1)) ms)
        ≡ chain ++ map (λ m'. m'.block) (drop (n - k) (m ∷ ms))
  blocks_next n k chain m ms = elim (dec_lt k n) [
    | yes few ↦ rw (drop-suc n k m ms few) (ground arith)
    | no enough ↦
        let now : n - k ≡ 0 = omega arith in
        let later : n - (k + 1) ≡ 0 = omega arith in
        let test : leb (n + 1) (k + 1) ≡ true = ground arith in
        rw (test, now, later) (append_assoc chain (m.block ∷ []) (map (λ m'. m'.block) ms))
  ]

  handle_all-Commits :
      (v s : ℕ) (ms : List (Message B)) (p : Consensus B)
      → All (Commits v s) ms
      → p.view ≡ v
      → 0 < s
      → let q = handle_all ms p in
        (q.view ≡ v)
        × (q.fault_nodes ≡ p.fault_nodes)
        × (votes v s q.committed ≡ votes v s p.committed + length ms)
        × (q.chain
            ≡ p.chain ++ map (λ m. m.block) (drop (2 * p.fault_nodes - votes v s p.committed) ms))
  unfolding handle_all
  handle_all-Commits v s [] p c e pos = (
    e,
    refl,
    omega arith,
    rw (drop-nil (2 * p.fault_nodes - votes v s p.committed)) (sym (append-nil p.chain)),
  )
  handle_all-Commits v s (m ∷ ms) p c e pos =
      let one = handle_message-commit v s m p c.0 e pos in
      let q = (handle_message m p).0 in
      let rest = handle_all-Commits v s ms q c.1 one.0 pos in
      (
        rest.0,
        rest.1 ∙ one.1,
        omega (arith, rest.2, one.2),
        (rw (one.3, one.2, one.1) at rest.3)
            ∙ blocks_next (2 * p.fault_nodes) (votes v s p.committed) p.chain m ms,
      )

  handle_all-sequence :
      (ms : List (Message B)) (p : Consensus B) → (handle_all ms p).sequence ≡ p.sequence
  unfolding handle_all handle_message handle_kind handle_preprepare handle_prepare handle_commit
  handle_all-sequence [] p = refl
  handle_all-sequence (m ∷ ms) p = ground (arith, handle_all-sequence ms (handle_message m p).0)

-- Let a node receive commit messages for one sequence number in its view, for which it has counted
-- none yet, and let `f` be the number of faults that it tolerates. Then it appends the blocks of all
-- these messages but the first `2 f`, whoever sent them, so each message behind the quorum appends
-- its block once more; and `waitForConsensus` reports success exactly if there are more than `2 f`.
pub chain_after_quorum :
    {B : Type 0} (v s : ℕ) (ms : List (Message B)) (p : Consensus B)
    → All (Commits v s) ms
    → p.view ≡ v
    → p.sequence ≡ s
    → 0 < s
    → votes v s p.committed ≡ 0
    → let q = handle_all ms p in
      (q.chain ≡ p.chain ++ map (λ m. m.block) (drop (2 * p.fault_nodes) ms))
      × (wait_round tick q
          ≡ (if leb (2 * p.fault_nodes + 1) (length ms) then some agreed else none))
unfolding wait_round
chain_after_quorum v s ms p c e at_s pos fresh =
    let r = handle_all-Commits v s ms p c e pos in
    let none_yet : 2 * p.fault_nodes - votes v s p.committed ≡ 2 * p.fault_nodes = omega arith in
    ((rw none_yet at r.3), ground (arith, r, handle_all-sequence ms p))
