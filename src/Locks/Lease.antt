-- ===== src/Locks/Lease.antt =====
-- solution3_LeaseBasedLock of solutions/challenge09_solution.go: leases that their holders renew.
-- `acquireLease` hands out the pointer that the table itself keeps, so the objects live on a heap,
-- a list of cells with their addresses for indices, and the table maps a resource to an address.
-- The number n stands for the text "lease_n".
pub mod Aliasing
pub mod Exclusion
use go_async_practice.Common.{
  ℕ, ◌+◌, Bool, true, false, ◌||◌, not, Option, none, some, List, [], ◌∷◌, ◌++◌, String, ltb, ◌==◌,
  str_eq, if◌then◌else◌, length, get_elem?, set,
}
use go_async_practice.Common.Dict.{Dict, lookup, insert, erase, sweep}

pub record Lease : Type 0 where
  pub id : ℕ
  pub holder : String
  pub expires_at : ℕ
  pub version : ℕ

pub record LeaseManager : Type 0 where
  pub cells : List Lease
  pub leases : Dict ℕ
  pub counter : ℕ

pub data Error : Type 0 where
  already_leased not_found modified invalid_id nil_pointer : Error

pub data Result (A : Type 0) : Type 0 where
  ok : A → Result A
  err : Error → Result A

create : String → String → ℕ → ℕ → LeaseManager → LeaseManager × Result ℕ
create resource holder duration now lm = (
  record {
    cells =
        lm.cells
        ++ record { id = lm.counter + 1; holder = holder; expires_at = now + duration; version = 1 }
          ∷ [];
    leases = insert resource (length lm.cells) lm.leases;
    counter = lm.counter + 1;
  },
  ok (length lm.cells),
)

-- The result is the address of the lease.
unfoldable pub acquire_lease : String → String → ℕ → ℕ → LeaseManager → LeaseManager × Result ℕ
unfolding create
acquire_lease resource holder duration now lm = elim (lookup resource lm.leases) [
  | none ↦ create resource holder duration now lm
  | some a ↦ elim (get_elem? lm.cells a) [
    | none ↦ (lm, err nil_pointer)
    | some lease ↦
        if ltb now lease.expires_at
        then (if str_eq lease.holder holder
            then (
              record lm {
                cells =
                    set lm.cells a
                      (record lease { expires_at = now + duration; version = lease.version + 1 });
              },
              ok a,
            )
            else (lm, err already_leased))
        else create resource holder duration now (record lm { leases = erase resource lm.leases })
  ]
]

-- `*lease = *current`, behind the update of `*current`.
renew_cells : ℕ → ℕ → Lease → List Lease → List Lease
renew_cells current lease v cells = set (set cells current v) lease v

unfoldable pub renew_lease : String → ℕ → ℕ → ℕ → LeaseManager → LeaseManager × Result (Unit {0})
unfolding renew_cells
renew_lease resource lease duration now lm = elim (lookup resource lm.leases) [
  | none ↦ (lm, err not_found)
  | some current ↦ elim (get_elem? lm.cells current) [
    | none ↦ (lm, err nil_pointer)
    | some c ↦ elim (get_elem? lm.cells lease) [
      | none ↦ (lm, err nil_pointer)
      | some l ↦
          if not (c.id == l.id) || not (c.version == l.version) then (lm, err modified) else (
            record lm {
              cells =
                  renew_cells current lease
                    (record c { expires_at = now + duration; version = c.version + 1 }) lm.cells;
            },
            ok tt,
          )
    ]
  ]
]

unfoldable pub release_lease : String → ℕ → LeaseManager → LeaseManager × Result (Unit {0})
release_lease resource lease lm = elim (lookup resource lm.leases) [
  | none ↦ (lm, err not_found)
  | some current ↦ elim (get_elem? lm.cells current) [
    | none ↦ (lm, err nil_pointer)
    | some c ↦ elim (get_elem? lm.cells lease) [
      | none ↦ (lm, err nil_pointer)
      | some l ↦
          if not (c.id == l.id)
          then (lm, err invalid_id)
          else (record lm { leases = erase resource lm.leases }, ok tt)
    ]
  ]
]

-- `now.After(lease.ExpiresAt)`, at an address.
abbrev pub expired : List Lease → ℕ → ℕ → Bool
expired cells now a = elim (get_elem? cells a) [
  | none ↦ false
  | some lease ↦ ltb lease.expires_at now
]

-- One round of the background goroutine.
unfoldable pub clean_leases : ℕ → LeaseManager → LeaseManager
clean_leases now lm = record lm { leases = sweep (expired lm.cells now) lm.leases }

pub data Call : Type 0 where
  acquires : (resource holder : String) (duration now : ℕ) → Call
  renews : (resource : String) (lease duration now : ℕ) → Call
  releases : (resource : String) (lease : ℕ) → Call
  cleans : (now : ℕ) → Call

unfoldable pub step : Call → LeaseManager → LeaseManager
step (acquires resource holder duration now) lm = (acquire_lease resource holder duration now lm).0
step (renews resource lease duration now) lm = (renew_lease resource lease duration now lm).0
step (releases resource lease) lm = (release_lease resource lease lm).0
step (cleans now) lm = clean_leases now lm

unfoldable pub run : List Call → LeaseManager → LeaseManager
run [] lm = lm
run (c ∷ cs) lm = run cs (step c lm)

abbrev pub empty : LeaseManager
empty = record { cells = []; leases = []; counter = 0 }
