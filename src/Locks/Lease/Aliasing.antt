-- ===== src/Locks/Lease/Aliasing.antt =====
-- Lease objects are shared: what the invariant of the heap says of the checks in `renew_lease`.
use go_async_practice.Common.{
  ℕ, zero, suc, ◌+◌, ◌≡◌, refl, List, [], ◌∷◌, ◌++◌, some, String, arith, length, get_elem?, set,
  length-append, length-set,
}
use go_async_practice.Common.Dict.{lookup}
use go_async_practice.Locks.Lease.{
  Lease, LeaseManager, Call, ok, acquires, renews, releases, cleans, acquire_lease, renew_lease,
  release_lease, clean_leases, step, run, empty,
}

-- The cells from address `i` on carry the identities `i + 1`, `i + 2`, … in order.
abbrev pub HasIds : ℕ → List Lease → Type 0
HasIds i [] = Unit {0}
HasIds i (l ∷ ls) = (l.id ≡ i + 1) × HasIds (i + 1) ls

pub HasIds-append :
    (i : ℕ) (ls : List Lease) (l : Lease)
    → HasIds i ls
    → l.id ≡ i + length ls + 1
    → HasIds i (ls ++ l ∷ [])
HasIds-append i [] l h e = omega arith
HasIds-append i (x ∷ ls) l h e = (h.0, HasIds-append (i + 1) ls l h.1 (omega arith))

pub HasIds-set :
    (i : ℕ) (ls : List Lease) (a : ℕ) (l : Lease)
    → HasIds i ls
    → l.id ≡ i + a + 1
    → HasIds i (set ls a l)
HasIds-set i [] a l h e = tt
HasIds-set i (x ∷ ls) zero l h e = (omega arith, h.1)
HasIds-set i (x ∷ ls) (suc a) l h e = (h.0, HasIds-set (i + 1) ls a l h.1 (omega arith))

pub HasIds-get :
    (i : ℕ) (ls : List Lease) (a : ℕ) {l : Lease}
    → HasIds i ls
    → get_elem? ls a ≡ some l
    → l.id ≡ i + a + 1
HasIds-get i [] a h e = cc
HasIds-get i (x ∷ ls) zero h e = ground arith
HasIds-get i (x ∷ ls) (suc a) h e = omega (arith, HasIds-get (i + 1) ls a h.1 e)

-- The lease at address `a` has the identity `a + 1`, and the counter is the number of leases made.
pub record IsNumbered (lm : LeaseManager) : Type 0 where
  pub ids : HasIds 0 lm.cells
  pub counted : lm.counter ≡ length lm.cells

pub step-IsNumbered : (c : Call) (lm : LeaseManager) → IsNumbered lm → IsNumbered (step c lm)
unfolding step acquire_lease renew_lease release_lease clean_leases
step-IsNumbered (acquires resource holder duration now) lm h =
    grind (arith, HasIds-append, HasIds-set, HasIds-get, length-append {0}, length-set {0})
step-IsNumbered (renews resource lease duration now) lm h =
    grind (arith, HasIds-set, HasIds-get, length-set {0})
step-IsNumbered (releases resource lease) lm h = ground arith
step-IsNumbered (cleans now) lm h = record { ids = h.ids; counted = h.counted }

pub run-IsNumbered : (cs : List Call) (lm : LeaseManager) → IsNumbered lm → IsNumbered (run cs lm)
unfolding run
run-IsNumbered [] lm h = h
run-IsNumbered (c ∷ cs) lm h = run-IsNumbered cs (step c lm) (step-IsNumbered c lm h)

pub empty-IsNumbered : IsNumbered empty
empty-IsNumbered = record { ids = tt; counted = refl }

-- After any calls, a renewal by a pointer to the resource's lease succeeds, whatever the versions
-- have been and however long ago the lease expired: no renewal is ever refused for its version.
pub version_check_redundant :
    (cs : List Call) (resource : String) (lease current duration now : ℕ) (l c : Lease)
    → lookup resource (run cs empty).leases ≡ some current
    → get_elem? (run cs empty).cells current ≡ some c
    → get_elem? (run cs empty).cells lease ≡ some l
    → c.id ≡ l.id
    → (renew_lease resource lease duration now (run cs empty)).1 ≡ ok tt
unfolding renew_lease
version_check_redundant cs resource lease current duration now l c found at_c at_l same =
    let inv = run-IsNumbered cs empty empty-IsNumbered in
    let e : current ≡ lease = omega (
      arith,
      HasIds-get 0 (run cs empty).cells current inv.ids at_c,
      HasIds-get 0 (run cs empty).cells lease inv.ids at_l,
    ) in
    ground arith
