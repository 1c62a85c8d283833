-- ===== src/Locks/Fencing.antt =====
-- solution1_TTLWithFencingToken of solutions/challenge09_solution.go: a lock table with a time to
-- live for each lock and a fencing token for each grant. Instants and durations are nanoseconds;
-- each handler takes the readings of `time.Now` that it makes. `now - t < ttl` is written
-- `now < t + ttl`.
pub mod Tokens
pub mod Exclusion
use go_async_practice.Common.{
  ℕ, ◌+◌, ◌%◌, ◌^◌, Bool, true, false, ◌||◌, ◌&&◌, not, Option, none, some, List, [], ◌∷◌, String,
  ltb, ◌==◌, str_eq, if◌then◌else◌,
}
use go_async_practice.Common.Dict.{Dict, lookup, insert, erase, sweep}

pub record LockInfo : Type 0 where
  pub holder : String
  pub timestamp : ℕ
  pub ttl : ℕ
  pub fencing_token : ℕ
  pub version : ℕ

pub record DistributedLock : Type 0 where
  pub locks : Dict LockInfo
  pub fencing_token : ℕ

-- One round of the background goroutine.
unfoldable pub cleanup : ℕ → DistributedLock → DistributedLock
cleanup now dl = record dl { locks = sweep (λ lock. ltb (lock.timestamp + lock.ttl) now) dl.locks }

-- `dl.fencingToken.Add(1)` on an `atomic.Uint64`.
abbrev pub next_token : ℕ → ℕ
next_token n = (n + 1) % 2 ^ 64

grant : String → String → ℕ → ℕ → DistributedLock → DistributedLock × ℕ × Bool
grant node resource ttl stamped dl =
    let token = next_token dl.fencing_token in
    (
      record dl {
        locks =
            insert resource
              (record {
                holder = node;
                timestamp = stamped;
                ttl = ttl;
                fencing_token = token;
                version = 1;
              })
              dl.locks;
        fencing_token = token;
      },
      token,
      true,
    )

-- `checked` is the reading of `time.Since`, `stamped` that of `time.Now` behind it.
unfoldable pub acquire : String → String → ℕ → ℕ → ℕ → DistributedLock → DistributedLock × ℕ × Bool
unfolding grant
acquire node resource ttl checked stamped dl = elim (lookup resource dl.locks) [
  | none ↦ grant node resource ttl stamped dl
  | some lock ↦
      if ltb checked (lock.timestamp + lock.ttl)
      then (if not (str_eq lock.holder node) then (dl, 0, false) else (
        record dl {
          locks = insert resource (record lock { timestamp = stamped; ttl = ttl }) dl.locks;
        },
        lock.fencing_token,
        true,
      ))
      else grant node resource ttl stamped dl
]

unfoldable pub release : String → String → ℕ → DistributedLock → DistributedLock × Bool
release node resource token dl = elim (lookup resource dl.locks) [
  | none ↦ (dl, false)
  | some lock ↦
      if not (str_eq lock.holder node) || not (lock.fencing_token == token)
      then (dl, false)
      else (record dl { locks = erase resource dl.locks }, true)
]

unfoldable pub extend : String → String → ℕ → ℕ → ℕ → DistributedLock → DistributedLock × Bool
extend node resource token new_ttl now dl = elim (lookup resource dl.locks) [
  | none ↦ (dl, false)
  | some lock ↦
      if not (str_eq lock.holder node) || not (lock.fencing_token == token) then (dl, false) else (
        record dl {
          locks = insert resource (record lock { timestamp = now; ttl = new_ttl }) dl.locks;
        },
        true,
      )
]

-- A call of one of the handlers, with its arguments and the clock readings that it makes.
pub data Call : Type 0 where
  acquires : (node resource : String) (ttl checked stamped : ℕ) → Call
  releases : (node resource : String) (token : ℕ) → Call
  extends : (node resource : String) (token ttl now : ℕ) → Call
  cleans : (now : ℕ) → Call

unfoldable pub step : Call → DistributedLock → DistributedLock
step (acquires node resource ttl checked stamped) dl =
    (acquire node resource ttl checked stamped dl).0
step (releases node resource token) dl = (release node resource token dl).0
step (extends node resource token ttl now) dl = (extend node resource token ttl now dl).0
step (cleans now) dl = cleanup now dl

-- The mutex runs the handlers one at a time, in some order.
unfoldable pub run : List Call → DistributedLock → DistributedLock
run [] dl = dl
run (c ∷ cs) dl = run cs (step c dl)

abbrev pub empty : DistributedLock
empty = record { locks = []; fencing_token = 0 }
