-- ===== src/Locks/Lease/Exclusion.antt =====
-- Who can end a lease that is in force.
use go_async_practice.Common.{
  ℕ, ◌≤◌, ◌<◌, ◌≡◌, ◌≢◌, List, [], ◌∷◌, some, String, arith, eq_iff, All, get_elem?,
  get_elem?-append, get_elem?-set_ne,
}
use go_async_practice.Common.Dict.{lookup, lookup-insert, lookup-erase, lookup-sweep}
use go_async_practice.Locks.Lease.{
  Lease, LeaseManager, Call, err, already_leased, acquires, renews, releases, cleans, acquire_lease,
  renew_lease, release_lease, clean_leases, step, run, empty,
}
use go_async_practice.Locks.Lease.Aliasing.{
  IsNumbered, HasIds-get, step-IsNumbered, run-IsNumbered, empty-IsNumbered,
}

-- A call by a client that is not `holder` and has no pointer to the lease at address `a`, at a time
-- when that lease is in force.
abbrev pub IsForeign : String → ℕ → ℕ → Call → Type 0
IsForeign holder a expires_at (acquires _ other _ now) = (other ≢ holder) × (now < expires_at)
IsForeign holder a expires_at (renews _ lease _ _) = lease ≢ a
IsForeign holder a expires_at (releases _ lease) = lease ≢ a
IsForeign holder a expires_at (cleans now) = now ≤ expires_at

-- The table maps `r` to the address `a`, where the lease `l` stands.
pub record Holds (r : String) (a : ℕ) (l : Lease) (lm : LeaseManager) : Type 0 where
  pub mapped : lookup r lm.leases ≡ some a
  pub stored : get_elem? lm.cells a ≡ some l

step-Holds :
    (r : String) (a : ℕ) (l : Lease) (c : Call) (lm : LeaseManager)
    → IsNumbered lm
    → Holds r a l lm
    → IsForeign l.holder a l.expires_at c
    → Holds r a l (step c lm)
unfolding step acquire_lease renew_lease release_lease clean_leases
step-Holds r a l (acquires resource other duration now) lm inv h foreign = grind (
  arith,
  h.mapped,
  h.stored,
  eq_iff resource r,
  eq_iff l.holder other,
  lookup-insert,
  lookup-erase,
  get_elem?-append,
  get_elem?-set_ne,
)
step-Holds r a l (renews resource lease duration now) lm inv h foreign =
    grind (arith, h.mapped, h.stored, HasIds-get, inv.ids, get_elem?-set_ne)
step-Holds r a l (releases resource lease) lm inv h foreign = grind (
  arith,
  h.mapped,
  h.stored,
  HasIds-get,
  inv.ids,
  eq_iff resource r,
  lookup-erase resource r lm.leases,
)
step-Holds r a l (cleans now) lm inv h foreign = grind (arith, h.mapped, h.stored, lookup-sweep)

run-Holds :
    (r : String) (a : ℕ) (l : Lease) (cs : List Call) (lm : LeaseManager)
    → IsNumbered lm
    → Holds r a l lm
    → All (IsForeign l.holder a l.expires_at) cs
    → Holds r a l (run cs lm)
unfolding run
run-Holds r a l [] lm inv h foreign = h
run-Holds r a l (c ∷ cs) lm inv h foreign =
    run-Holds r a l cs (step c lm) (step-IsNumbered c lm inv)
      (step-Holds r a l c lm inv h foreign.0) foreign.1

-- After any calls `before`, let `l` be the lease on `r`, at address `a`. While it is in force, calls
-- of clients that are not its holder and have no pointer to it leave the lease as it is, and an
-- acquisition of `r` by another client is refused and changes nothing.
pub lease_excludes :
    (r other : String) (a duration now : ℕ) (l : Lease) (before between : List Call)
    → lookup r (run before empty).leases ≡ some a
    → get_elem? (run before empty).cells a ≡ some l
    → All (IsForeign l.holder a l.expires_at) between
    → other ≢ l.holder
    → now < l.expires_at
    → (get_elem? (run between (run before empty)).cells a ≡ some l)
      × (acquire_lease r other duration now (run between (run before empty))
          ≡ (run between (run before empty), err already_leased))
unfolding acquire_lease
lease_excludes r other a duration now l before between mapped stored foreign ne early =
    let h =
      run-Holds r a l between (run before empty) (run-IsNumbered before empty empty-IsNumbered)
        (record { mapped = mapped; stored = stored }) foreign in
    (h.stored, ground (arith, h.mapped, h.stored, eq_iff l.holder other))
