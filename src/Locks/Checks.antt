-- ===== src/Locks/Checks.antt =====
-- The locks at concrete inputs.
use go_async_practice.Common.{
  ℕ, ◌<◌, ◌≡◌, refl, ◌≢◌, ◌↔◌, true, false, none, some, List, [], ◌∷◌, String, arith, eq_iff,
  str_eq, if◌then◌else◌, get_elem?,
}
use go_async_practice.Common.Dict.{lookup, insert, erase, sweep}
use go_async_practice.Locks.Fencing
use go_async_practice.Locks.Fencing.Tokens.{handover_token_grows}
use go_async_practice.Locks.Fencing.Exclusion.{lock_excludes, release_exact}
use go_async_practice.Locks.Lease
use go_async_practice.Locks.Lease.Aliasing.{version_check_redundant}
use go_async_practice.Locks.Lease.Exclusion.{lease_excludes}
use go_async_practice.Locks.Redlock
use go_async_practice.Locks.Redlock.Quorum
use go_async_practice.Locks.Redlock.Quorum.{redlock_excludes}

a_not_b : ◌≢◌ {A = String} "a" "b"
a_not_b = ground (arith, eq_iff "a" "b")

b_not_a : ◌≢◌ {A = String} "b" "a"
b_not_a = ground (arith, eq_iff "b" "a")

abbrev lock_of_a : Fencing.LockInfo
lock_of_a = record { holder = "a"; timestamp = 11; ttl = 500; fencing_token = 1; version = 1 }

abbrev a_acquires : List Fencing.Call
a_acquires = Fencing.Call.acquires "a" "r" 500 10 11 ∷ []

abbrev a_expires : List Fencing.Call
a_expires = Fencing.Call.cleans 600 ∷ []

handover_token_grows_example :
    1
    < (Fencing.acquire "b" "r" 500 700 701
        (Fencing.run a_expires (Fencing.run a_acquires Fencing.empty))).1
unfolding Fencing.run Fencing.step Fencing.acquire Fencing.cleanup lookup insert erase sweep
handover_token_grows_example =
    handover_token_grows "r" "b" 500 700 701 a_acquires a_expires lock_of_a refl b_not_a
      (omega arith) refl

abbrev held_by_a : Fencing.DistributedLock
held_by_a = record { locks = ("r", lock_of_a) ∷ []; fencing_token = 1 }

abbrev b_tries : List Fencing.Call
b_tries =
    Fencing.Call.acquires "b" "r" 500 100 101
    ∷ Fencing.Call.releases "b" "r" 1
    ∷ Fencing.Call.extends "b" "r" 1 500 200
    ∷ Fencing.Call.cleans 300
    ∷ []

lock_excludes_example :
    (lookup "r" (Fencing.run b_tries held_by_a).locks ≡ some lock_of_a)
    × (Fencing.acquire "b" "r" 500 400 401 (Fencing.run b_tries held_by_a)
        ≡ (Fencing.run b_tries held_by_a, 0, false))
unfolding lookup
lock_excludes_example =
    lock_excludes "r" "b" 500 400 401 lock_of_a b_tries held_by_a refl
      ((b_not_a, omega arith), (b_not_a, (b_not_a, (omega arith, tt)))) b_not_a (omega arith)

release_exact_example :
    (((Fencing.release "a" "r" 1 held_by_a).1 ≡ true) ↔ (
      (l : Fencing.LockInfo) × (lookup "r" held_by_a.locks ≡ some l)
      × (l.holder ≡ "a")
      × (l.fencing_token ≡ 1)))
    × (lookup "r" (Fencing.release "a" "r" 1 held_by_a).0.locks ≡ (
        if (Fencing.release "a" "r" 1 held_by_a).1
        then (if str_eq "r" "r" then none else lookup "r" held_by_a.locks)
        else lookup "r" held_by_a.locks))
release_exact_example = release_exact "a" "r" "r" 1 held_by_a

release_by_holder :
    Fencing.release "a" "r" 1 held_by_a ≡ (record { locks = []; fencing_token = 1 }, true)
unfolding Fencing.release lookup erase
release_by_holder = refl

abbrev a_leases : List Lease.Call
a_leases = Lease.Call.acquires "r" "a" 300 10 ∷ Lease.Call.renews "r" 0 300 110 ∷ []

abbrev lease_of_a : Lease.Lease
lease_of_a = record { id = 1; holder = "a"; expires_at = 410; version = 2 }

-- The lease ran out at 410.
version_check_redundant_example :
    (Lease.renew_lease "r" 0 300 9000 (Lease.run a_leases Lease.empty)).1 ≡ Lease.Result.ok tt
unfolding Lease.run Lease.step Lease.acquire_lease Lease.renew_lease lookup insert
version_check_redundant_example =
    version_check_redundant a_leases "r" 0 0 300 9000 lease_of_a lease_of_a refl refl refl refl

abbrev b_intrudes : List Lease.Call
b_intrudes =
    Lease.Call.acquires "r" "b" 300 120
    ∷ Lease.Call.acquires "q" "b" 300 121
    ∷ Lease.Call.renews "r" 1 300 130
    ∷ Lease.Call.releases "r" 1
    ∷ Lease.Call.cleans 200
    ∷ []

lease_excludes_example :
    (get_elem? (Lease.run b_intrudes (Lease.run a_leases Lease.empty)).cells 0 ≡ some lease_of_a)
    × (Lease.acquire_lease "r" "b" 300 300 (Lease.run b_intrudes (Lease.run a_leases Lease.empty))
        ≡ (
          Lease.run b_intrudes (Lease.run a_leases Lease.empty),
          Lease.Result.err Lease.Error.already_leased,
        ))
unfolding Lease.run Lease.step Lease.acquire_lease Lease.renew_lease lookup insert
lease_excludes_example =
    lease_excludes "r" "b" 0 300 300 lease_of_a a_leases b_intrudes refl refl
      (
        (b_not_a, omega arith),
        ((b_not_a, omega arith), (omega arith, (omega arith, (omega arith, tt)))),
      )
      b_not_a (omega arith)

abbrev early : ℕ → Redlock.Attempt
early _ = record { start = 100; checked = λ _. 100; stamped = λ _. 101; done = 102 }

abbrev soon : ℕ → Redlock.Attempt
soon _ = record { start = 200; checked = λ _. 200; stamped = λ _. 201; done = 202 }

abbrev five_nodes : List Redlock.Node
five_nodes = [] ∷ [] ∷ [] ∷ [] ∷ [] ∷ []

abbrev b_meddles : List Quorum.Call
b_meddles = Quorum.Call.locks 2 "r" "b" 500000000 150 151 ∷ Quorum.Call.unlocks 3 "r" "b" ∷ []

redlock_excludes_example :
    let after =
      Quorum.run b_meddles
        (Redlock.acquire_redlock early "r" "a" 500000000 (Redlock.new_redlock five_nodes)).0 in
    (Redlock.acquire_redlock soon "r" "b" 500000000
      (record (Redlock.new_redlock five_nodes) { nodes = after })).1
    ≡ false
unfolding Redlock.acquire_redlock Redlock.new_redlock Redlock.lock_nodes Redlock.lock_single_node
    lookup insert
redlock_excludes_example =
    redlock_excludes "r" "a" "b" 100 500000000 500000000 early soon five_nodes b_meddles a_not_b
      (λ j k. omega arith) (λ j k. omega arith) refl ((a_not_b, omega arith), (a_not_b, tt))
