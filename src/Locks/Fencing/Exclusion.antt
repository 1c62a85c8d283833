-- ===== src/Locks/Fencing/Exclusion.antt =====
-- Mutual exclusion while a lock is in force, and who can end it.
use go_async_practice.Common.{
  ℕ, ◌+◌, ◌≤◌, ◌<◌, ◌≡◌, sym, ◌≢◌, ◌↔◌, true, false, List, [], ◌∷◌, none, some, String, arith,
  eq_iff, str_ne, All, Option-cases, inl, inr, if◌then◌else◌, str_eq, lt→ltb,
}
use go_async_practice.Common.Dict.{lookup, lookup-insert, lookup-erase, lookup-sweep}
use go_async_practice.Locks.Fencing.{
  LockInfo, DistributedLock, Call, acquires, releases, extends, cleans, acquire, release, extend,
  cleanup, step, run,
}

-- A call that does not come from node `a` and reads the clock before the deadline.
abbrev pub IsForeign : String → ℕ → Call → Type 0
IsForeign a deadline (acquires node _ _ checked _) = (node ≢ a) × (checked < deadline)
IsForeign a deadline (releases node _ _) = node ≢ a
IsForeign a deadline (extends node _ _ _ _) = node ≢ a
IsForeign a deadline (cleans now) = now ≤ deadline

step_keeps :
    (r : String) (l : LockInfo) (c : Call) (dl : DistributedLock)
    → lookup r dl.locks ≡ some l
    → IsForeign l.holder (l.timestamp + l.ttl) c
    → lookup r (step c dl).locks ≡ some l
unfolding step acquire release extend cleanup
step_keeps r l (acquires node resource ttl checked stamped) dl held other =
    grind (arith, eq_iff resource r, eq_iff l.holder node, lookup-insert)
step_keeps r l (releases node resource token) dl held other =
    ground (arith, eq_iff resource r, eq_iff l.holder node, lookup-erase resource r dl.locks)
step_keeps r l (extends node resource token ttl now) dl held other =
    grind (arith, eq_iff resource r, eq_iff l.holder node, lookup-insert)
step_keeps r l (cleans now) dl held other = grind (arith, lookup-sweep)

run_keeps :
    (r : String) (l : LockInfo) (cs : List Call) (dl : DistributedLock)
    → lookup r dl.locks ≡ some l
    → All (IsForeign l.holder (l.timestamp + l.ttl)) cs
    → lookup r (run cs dl).locks ≡ some l
unfolding run
run_keeps r l [] dl held others = held
run_keeps r l (c ∷ cs) dl held others =
    run_keeps r l cs (step c dl) (step_keeps r l c dl held others.0) others.1

refused :
    (r b : String) (ttl checked stamped : ℕ) (l : LockInfo) (dl : DistributedLock)
    → lookup r dl.locks ≡ some l
    → b ≢ l.holder
    → checked < l.timestamp + l.ttl
    → acquire b r ttl checked stamped dl ≡ (dl, 0, false)
unfolding acquire
refused r b ttl checked stamped l dl held ne early =
    rw (held, acquire) (rw (lt→ltb _ _ early, str_ne l.holder b (λ e. ne (sym e))))

-- As long as a lock is in force, no calls of other nodes and no cleanup end or change it, and an
-- acquisition by another node is refused and changes nothing.
pub lock_excludes :
    (r b : String) (ttl checked stamped : ℕ) (l : LockInfo) (cs : List Call) (dl : DistributedLock)
    → lookup r dl.locks ≡ some l
    → All (IsForeign l.holder (l.timestamp + l.ttl)) cs
    → b ≢ l.holder
    → checked < l.timestamp + l.ttl
    → (lookup r (run cs dl).locks ≡ some l)
      × (acquire b r ttl checked stamped (run cs dl) ≡ (run cs dl, 0, false))
lock_excludes r b ttl checked stamped l cs dl held others ne early =
    let kept = run_keeps r l cs dl held others in
    (kept, refused r b ttl checked stamped l (run cs dl) kept ne early)

release_accepts :
    (node r : String) (token : ℕ) (dl : DistributedLock)
    → ((release node r token dl).1 ≡ true) ↔ (
        (l : LockInfo) × (lookup r dl.locks ≡ some l)
        × (l.holder ≡ node)
        × (l.fencing_token ≡ token))
unfolding release
release_accepts node r token dl = elim (Option-cases (lookup r dl.locks)) [
  | inl free ↦ (λ h. absurd (ground arith), λ (l, e, held, t). absurd (ground arith))
  | inr (l, e) ↦ (
    λ h. (l, e, ground (arith, eq_iff l.holder node), ground arith),
    λ (l', e', held, t). ground (arith, eq_iff l.holder node),
  )
]

-- A release succeeds exactly when the caller holds the resource's lock under the token that it
-- shows. Then the lock on that resource is gone; all other locks stay, and so do all if it fails.
pub release_exact :
    (node r k : String) (token : ℕ) (dl : DistributedLock)
    → (((release node r token dl).1 ≡ true) ↔ (
        (l : LockInfo) × (lookup r dl.locks ≡ some l)
        × (l.holder ≡ node)
        × (l.fencing_token ≡ token)))
      × (lookup k (release node r token dl).0.locks ≡ (
          if (release node r token dl).1
          then (if str_eq r k then none else lookup k dl.locks)
          else lookup k dl.locks))
unfolding release
release_exact node r k token dl =
    (release_accepts node r token dl, ground (arith, lookup-erase r k dl.locks))
