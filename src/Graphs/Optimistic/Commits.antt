-- ===== src/Graphs/Optimistic/Commits.antt =====
-- Which transactions commit.
use go_async_practice.Common.{
  ◌⊎◌, ℕ, ◌+◌, ◌≤◌, ◌<◌, ◌≡◌, ◌≢◌, refl, sym, ap, ◌∙◌, String, List, [], ◌∷◌, Option, none, some,
  arith, if◌then◌else◌, str_eq, eq_iff, Option-cases, inl, inr,
}
use go_async_practice.Common.Dict.{Dict, lookup, insert, lookup-insert}
use go_async_practice.Graphs.Optimistic.{
  VersionedNode, Transaction, Graph, Outcome, success, deleted, conflict, validate, apply_updates,
  write_one, write_all, commit,
}

Outcome-cases : (r : Outcome) → (r ≡ success) ⊎ (r ≢ success)
Outcome-cases success = inl refl
Outcome-cases (deleted id) = inr (λ e. cc)
Outcome-cases (conflict id read current) = inr (λ e. cc)

module _ {V : Type 0} where
  -- The version of a node, and `none` for a node that is not there.
  abbrev pub version_of : String → Dict (VersionedNode V) → Option ℕ
  version_of id nodes = elim (lookup id nodes) [ none ↦ none | some node ↦ some node.version ]

  -- No node is newer than the clock.
  abbrev pub IsSound : Graph V → Type 0
  IsSound g = (id : String) (v : ℕ) → version_of id g.nodes ≡ some v → v ≤ g.global_clock

  abbrev stamped : ℕ → Option (Dict V) → Option ℕ → Option ℕ
  stamped new written none = none
  stamped new none (some v) = some v
  stamped new (some u) (some v) = some new

  version_of-insert :
      (k id : String) (node : VersionedNode V) (nodes : Dict (VersionedNode V))
      → version_of id (insert k node nodes)
        ≡ (if str_eq k id then some node.version else version_of id nodes)
  version_of-insert k id node nodes = ground (arith, lookup-insert k id node nodes)

  write_one-none :
      (new : ℕ) (k : String) (u : Dict V) (nodes : Dict (VersionedNode V))
      → lookup k nodes ≡ none
      → write_one new k u nodes ≡ nodes
  unfolding write_one
  write_one-none new k u nodes e = ground arith

  write_one-some :
      (new : ℕ) (k id : String) (u : Dict V) (nodes : Dict (VersionedNode V))
      (node : VersionedNode V)
      → lookup k nodes ≡ some node
      → version_of id (write_one new k u nodes)
        ≡ (if str_eq k id then some new else version_of id nodes)
  unfolding write_one
  write_one-some new k id u nodes node e = ground (
    arith,
    version_of-insert k id
        (record node { properties = apply_updates u node.properties; version = new }) nodes,
  )

  write_one-version :
      (new : ℕ) (k id : String) (u : Dict V) (nodes : Dict (VersionedNode V))
      → version_of id (write_one new k u nodes)
        ≡ stamped new (if str_eq k id then some u else none) (version_of id nodes)
  write_one-version new k id u nodes = elim (Option-cases (lookup k nodes)) [
    | inl e ↦ rw (write_one-none new k u nodes e) (ground (arith, eq_iff k id))
    | inr (node, e) ↦ write_one-some new k id u nodes node e ∙ ground (arith, eq_iff k id, e)
  ]

  -- A write phase stamps the nodes that it writes, and no others.
  write_all-version :
      (new : ℕ) (writes : List (String × Dict V)) (id : String) (nodes : Dict (VersionedNode V))
      → version_of id (write_all new writes nodes)
        ≡ stamped new (lookup id writes) (version_of id nodes)
  unfolding write_all lookup
  write_all-version new [] id nodes = ground arith
  write_all-version new ((k, u) ∷ writes) id nodes =
      write_all-version new writes id (write_one new k u nodes)
      ∙ ground (arith, write_one-version new k id u nodes)

  none-some : (u : Dict V) → none ≢ some u
  none-some u e = cc

  -- The node's version is as it was, or newer.
  abbrev NotOlder : String → ℕ → Graph V → Type 0
  NotOlder id v g = (w : ℕ) × (version_of id g.nodes ≡ some w) × (v ≤ w)

  commit_success :
      (tx : Transaction V) (g : Graph V)
      → validate tx.read_set g.nodes ≡ success
      → (commit tx g).0 ≡ record {
        nodes = write_all (g.global_clock + 1) tx.write_set g.nodes;
        global_clock = g.global_clock + 1;
      }
  unfolding commit
  commit_success tx g e = ground arith

  commit_failure :
      (tx : Transaction V) (g : Graph V)
      → validate tx.read_set g.nodes ≢ success
      → (commit tx g ≡ (g, tx, validate tx.read_set g.nodes))
  unfolding commit
  commit_failure tx g ne = commit_other (validate tx.read_set g.nodes) refl
    where
      commit_other : (r : Outcome) → validate tx.read_set g.nodes ≡ r → commit tx g ≡ (g, tx, r)
      commit_other success e = absurd (ne e)
      commit_other (deleted id) e = ground arith
      commit_other (conflict id read current) e = ground arith

  stamped_bound :
      (clock : ℕ) (written : Option (Dict V)) (o : Option ℕ) (v : ℕ)
      → ((x : ℕ) → o ≡ some x → x ≤ clock)
      → stamped (clock + 1) written o ≡ some v
      → v ≤ clock + 1
  stamped_bound clock written none v le e = cc
  stamped_bound clock none (some x) v le e = ground (arith, le x)
  stamped_bound clock (some u) (some x) v le e = ground arith

  -- A node that is there has a version behind a write phase that is not older, and newer if the
  -- phase writes it.
  written-version :
      (writes : Dict (Dict V)) (g : Graph V) (id : String) (w : ℕ)
      → IsSound g
      → version_of id g.nodes ≡ some w
      → (x : ℕ) × (version_of id (write_all (g.global_clock + 1) writes g.nodes) ≡ some x)
        × (w ≤ x)
        × ((u : Dict V) → lookup id writes ≡ some u → w < x)
  written-version writes g id w sound e =
      let stamp = write_all-version (g.global_clock + 1) writes id g.nodes in
      let le = sound id w e in
      elim (Option-cases (lookup id writes)) [
        | inl unwritten ↦ (
          w,
          stamp ∙ rw (unwritten, e) refl,
          omega arith,
          λ u found. absurd (none-some u (sym unwritten ∙ found)),
        )
        | inr (u, written) ↦ (
          g.global_clock + 1,
          stamp ∙ rw (written, e) refl,
          omega (arith, le),
          λ u' found. omega (arith, le),
        )
      ]

  written-IsSound :
      (writes : Dict (Dict V)) (g : Graph V)
      → IsSound g
      → IsSound (record {
        nodes = write_all (g.global_clock + 1) writes g.nodes;
        global_clock = g.global_clock + 1;
      })
  written-IsSound writes g sound id v e =
      stamped_bound g.global_clock (lookup id writes) (version_of id g.nodes) v (sound id)
        (sym (write_all-version (g.global_clock + 1) writes id g.nodes) ∙ e)

  commit-IsSound : (tx : Transaction V) (g : Graph V) → IsSound g → IsSound (commit tx g).0
  commit-IsSound tx g sound = elim (Outcome-cases (validate tx.read_set g.nodes)) [
    | inl ok ↦ rw (commit_success tx g ok) (written-IsSound tx.write_set g sound)
    | inr bad ↦ rw (commit_failure tx g bad) sound
  ]

  commit-NotOlder :
      (tx : Transaction V) (g : Graph V) (id : String) (v : ℕ)
      → IsSound g
      → NotOlder id v g
      → NotOlder id v (commit tx g).0
  commit-NotOlder tx g id v sound (w, e, le) = elim (Outcome-cases (validate tx.read_set g.nodes)) [
    | inl ok ↦
        let (x, at, newer, _) = written-version tx.write_set g id w sound e in
        rw (commit_success tx g ok) (x, at, omega (arith, le, newer))
    | inr bad ↦ rw (commit_failure tx g bad) (w, e, le)
  ]

  -- Commits one after the other.
  unfoldable pub commit_all : List (Transaction V) → Graph V → Graph V
  commit_all [] g = g
  commit_all (tx ∷ txs) g = commit_all txs (commit tx g).0

  commit_all-NotOlder :
      (txs : List (Transaction V)) (g : Graph V) (id : String) (v : ℕ)
      → IsSound g
      → NotOlder id v g
      → NotOlder id v (commit_all txs g) × IsSound (commit_all txs g)
  unfolding commit_all
  commit_all-NotOlder [] g id v sound old = (old, sound)
  commit_all-NotOlder (tx ∷ txs) g id v sound old =
      commit_all-NotOlder txs (commit tx g).0 id v (commit-IsSound tx g sound)
        (commit-NotOlder tx g id v sound old)

  commit-success_iff :
      (tx : Transaction V) (g : Graph V)
      → (commit tx g).2 ≡ success
      → validate tx.read_set g.nodes ≡ success
  commit-success_iff tx g e = elim (Outcome-cases (validate tx.read_set g.nodes)) [
    | inl ok ↦ ok
    | inr bad ↦ absurd (bad (sym (ap (λ r. r.2) (commit_failure tx g bad)) ∙ e))
  ]

  -- A commit that succeeds makes the nodes it writes newer.
  commit-newer :
      (tx : Transaction V) (g : Graph V) (id : String) (v : ℕ) (u : Dict V)
      → IsSound g
      → NotOlder id v g
      → lookup id tx.write_set ≡ some u
      → (commit tx g).2 ≡ success
      → NotOlder id (v + 1) (commit tx g).0
  commit-newer tx g id v u sound (w, e, le) written e' =
      let (x, at, _, newer) = written-version tx.write_set g id w sound e in
      rw (commit_success tx g (commit-success_iff tx g e'))
        (x, at, omega (arith, le, newer u written))

  validate_entry :
      (reads : List (String × ℕ)) (nodes : Dict (VersionedNode V)) (id : String) (v : ℕ)
      → validate reads nodes ≡ success
      → lookup id reads ≡ some v
      → version_of id nodes ≡ some v
  unfolding validate lookup
  validate_entry [] nodes id v ok e = cc
  validate_entry ((k, r) ∷ reads) nodes id v ok e =
      ground (arith, validate_entry reads nodes id v, eq_iff k id)

two_versions : {o : Option ℕ} {v w : ℕ} → o ≡ some v → o ≡ some w → ¬ (v + 1 ≤ w)
two_versions {v} {w} e e' le = let same : v ≡ w = ground arith in omega (arith, same, le)

-- A transaction has read a node in a graph whose clock is not behind its nodes, and its read set has
-- the version that the node had then. Other transactions commit, and one of those that succeed
-- writes the node. Then the transaction does not commit: it fails, and changes nothing.
pub stale_read_refused :
    {V : Type 0} (g : Graph V) (before after : List (Transaction V)) (writer tx : Transaction V)
    (id : String) (v : ℕ) (updates : Dict V)
    → IsSound g
    → version_of id g.nodes ≡ some v
    → lookup id tx.read_set ≡ some v
    → lookup id writer.write_set ≡ some updates
    → (commit writer (commit_all before g)).2 ≡ success
    → let now = commit_all after (commit writer (commit_all before g)).0 in
      ((commit tx now).0 ≡ now) × ((commit tx now).1 ≡ tx) × ((commit tx now).2 ≢ success)
stale_read_refused g before after writer tx id v updates sound at read written committed_writer =
    let (old, sound') = commit_all-NotOlder before g id v sound (v, at, omega arith) in
    let now = commit_all after (commit writer (commit_all before g)).0 in
    let newer =
      commit-newer writer (commit_all before g) id v updates sound' old written committed_writer in
    let ((w, there, le), _) =
      commit_all-NotOlder after (commit writer (commit_all before g)).0 id (v + 1)
        (commit-IsSound writer (commit_all before g) sound') newer in
    let stale : validate tx.read_set now.nodes ≢ success =
      λ ok. two_versions (validate_entry tx.read_set now.nodes id v ok read) there le in
    let failed = commit_failure tx now stale in
    (ap (λ r. r.0) failed, ap (λ r. r.1) failed, λ e. stale (commit-success_iff tx now e))
