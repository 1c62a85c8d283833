-- ===== src/Locks/Fencing/Tokens.antt =====
-- The tokens of the holders of a lock, one after the other.
use go_async_practice.Common.{
  ℕ, ◌+◌, ◌^◌, ◌<◌, ◌≤◌, ◌≡◌, refl, ◌≢◌, true, List, [], ◌∷◌, Option, none, some, String, arith,
  eq_iff, length, Option-cases, inl, inr,
}
use go_async_practice.Common.Dict.{lookup, lookup-insert, lookup-erase, lookup-sweep}
use go_async_practice.Locks.Fencing.{
  LockInfo, DistributedLock, Call, acquires, releases, extends, cleans, acquire, release, extend,
  cleanup, step, run, empty,
}

-- Since the grant of token `t` for resource `r` to node `a`: the counter has not fallen behind
-- `t`, and a lock on `r` carries `t` itself, still in the hands of `a`, or a larger token.
abbrev pub Later : String → ℕ → Option LockInfo → Type 0
Later a t none = Unit {0}
Later a t (some l) = (t ≤ l.fencing_token) × (l.fencing_token ≡ t → l.holder ≡ a)

pub record Since (r a : String) (t : ℕ) (dl : DistributedLock) : Type 0 where
  pub counted : t ≤ dl.fencing_token
  pub lock_later : Later a t (lookup r dl.locks)

-- One call: it draws at most one token.
step-Since :
    (r a : String) (t : ℕ) (c : Call) (dl : DistributedLock)
    → dl.fencing_token + 1 < 2 ^ 64
    → Since r a t dl
    → Since r a t (step c dl) × ((step c dl).fencing_token ≤ dl.fencing_token + 1)
unfolding step acquire release extend cleanup
step-Since r a t (acquires node resource ttl checked stamped) dl room h =
    grind (arith, eq_iff resource r, lookup-insert)
step-Since r a t (releases node resource token) dl room h =
    ground (arith, lookup-erase resource r dl.locks)
step-Since r a t (extends node resource token ttl now) dl room h =
    grind (arith, eq_iff resource r, lookup-insert)
step-Since r a t (cleans now) dl room h = grind (arith, lookup-sweep)

run-Since :
    (r a : String) (t : ℕ) (cs : List Call) (dl : DistributedLock)
    → dl.fencing_token + length cs < 2 ^ 64
    → Since r a t dl
    → Since r a t (run cs dl) × ((run cs dl).fencing_token ≤ dl.fencing_token + length cs)
unfolding run
run-Since r a t [] dl room h = (h, omega arith)
run-Since r a t (c ∷ cs) dl room h =
    let s = step-Since r a t c dl (omega arith) h in
    let rest = run-Since r a t cs (step c dl) (omega (arith, s.1)) s.0 in
    (rest.0, omega (arith, s.1, rest.1))

-- No lock carries a token that was not drawn yet.
IsDrawn : String → Option LockInfo → ℕ → Type 0
IsDrawn r none n = Unit {0}
IsDrawn r (some l) n = l.fencing_token ≤ n

step-IsDrawn :
    (r : String) (c : Call) (dl : DistributedLock)
    → dl.fencing_token + 1 < 2 ^ 64
    → IsDrawn r (lookup r dl.locks) dl.fencing_token
    → IsDrawn r (lookup r (step c dl).locks) (step c dl).fencing_token
      × ((step c dl).fencing_token ≤ dl.fencing_token + 1)
unfolding IsDrawn step acquire release extend cleanup
step-IsDrawn r (acquires node resource ttl checked stamped) dl room h =
    grind (arith, eq_iff resource r, lookup-insert)
step-IsDrawn r (releases node resource token) dl room h =
    ground (arith, lookup-erase resource r dl.locks)
step-IsDrawn r (extends node resource token ttl now) dl room h =
    grind (arith, eq_iff resource r, lookup-insert)
step-IsDrawn r (cleans now) dl room h = grind (arith, lookup-sweep)

run-IsDrawn :
    (r : String) (cs : List Call) (dl : DistributedLock)
    → dl.fencing_token + length cs < 2 ^ 64
    → IsDrawn r (lookup r dl.locks) dl.fencing_token
    → IsDrawn r (lookup r (run cs dl).locks) (run cs dl).fencing_token
      × ((run cs dl).fencing_token ≤ dl.fencing_token + length cs)
unfolding run
run-IsDrawn r [] dl room h = (h, omega arith)
run-IsDrawn r (c ∷ cs) dl room h =
    let s = step-IsDrawn r c dl (omega arith) h in
    let rest = run-IsDrawn r cs (step c dl) (omega (arith, s.1)) s.0 in
    (rest.0, omega (arith, s.1, rest.1))

acquire_later :
    (r a b : String) (t ttl checked stamped : ℕ) (dl : DistributedLock)
    → Since r a t dl
    → b ≢ a
    → dl.fencing_token + 1 < 2 ^ 64
    → (acquire b r ttl checked stamped dl).2 ≡ true
    → t < (acquire b r ttl checked stamped dl).1
unfolding acquire
acquire_later r a b t ttl checked stamped dl since ne room got =
    elim (Option-cases (lookup r dl.locks)) [
      | inl free ↦ rw (free, acquire) (omega (arith, since.counted))
      | inr (l, e) ↦ grind (arith, eq_iff l.holder b, since.lock_later)
    ]

-- After any calls `before` of a fresh table, let `l` be the lock on `r`. If after any further calls
-- `between` a node other than the holder of `l` acquires `r`, then its token is larger than that of
-- `l`, provided that the 64-bit counter does not wrap within these calls.
pub handover_token_grows :
    (r b : String) (ttl checked stamped : ℕ) (before between : List Call) (l : LockInfo)
    → lookup r (run before empty).locks ≡ some l
    → b ≢ l.holder
    → length before + length between + 1 < 2 ^ 64
    → (acquire b r ttl checked stamped (run between (run before empty))).2 ≡ true
    → l.fencing_token < (acquire b r ttl checked stamped (run between (run before empty))).1
unfolding IsDrawn lookup
handover_token_grows r b ttl checked stamped before between l found ne room got =
    let start = run-IsDrawn r before empty (omega arith) tt in
    let counted : l.fencing_token ≤ (run before empty).fencing_token = rw found at start.0 in
    let since : Since r l.holder l.fencing_token (run before empty) = record {
      counted = counted;
      lock_later = rw found (omega arith, λ _. refl);
    } in
    let later =
      run-Since r l.holder l.fencing_token between (run before empty) (omega (arith, start.1))
        since in
    acquire_later r l.holder b l.fencing_token ttl checked stamped (run between (run before empty))
      later.0 ne (omega (arith, start.1, later.1)) got
