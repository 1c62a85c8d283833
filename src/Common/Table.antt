-- ===== src/Common/Table.antt =====
-- A Go map with integer keys as an association list. A write replaces the entry in place.
use Prim.Native.Nat.{ℕ, ◌+◌, ◌≤◌}
use mathlib.Core.Path.{◌≡◌}
use mathlib.Core.Logic.{inl, inr}
use mathlib.Core.List.{List, [], ◌∷◌}
use mathlib.Core.Option.{Option, none, some}
use native.Mathlib.Omega.{arith}
use go_async_practice.Common.Tests.{if◌then◌else◌, ◌==◌, Bool-cases}
use go_async_practice.Common.Lists.{length, All}

abbrev pub Table {ℓ} : Type ℓ → Type ℓ
Table V = List (ℕ × V)

module _ {ℓ} {V : Type ℓ} where
  -- `v, exists := m[n]`
  unfoldable pub find : ℕ → Table V → Option V
  find n [] = none
  find n (cell ∷ cells) = if cell.0 == n then some cell.1 else find n cells

  -- `m[n] = v`
  unfoldable pub put : ℕ → V → Table V → Table V
  put n v [] = (n, v) ∷ []
  put n v (cell ∷ cells) = if cell.0 == n then (n, v) ∷ cells else cell ∷ put n v cells

  -- `delete(m, n)`
  unfoldable pub remove : ℕ → Table V → Table V
  remove n [] = []
  remove n (cell ∷ cells) = if cell.0 == n then remove n cells else cell ∷ remove n cells

  pub find-put :
      (i j : ℕ) (v : V) (m : Table V) → find j (put i v m) ≡ (if i == j then some v else find j m)
  unfolding find put
  find-put i j v [] = ground arith
  find-put i j v (cell ∷ cells) = ground (arith, find-put i j v cells)

  pub find-remove :
      (i j : ℕ) (m : Table V) → find j (remove i m) ≡ (if i == j then none else find j m)
  unfolding find remove
  find-remove i j [] = ground arith
  find-remove i j (cell ∷ cells) = ground (arith, find-remove i j cells)

  pub length-remove_le : (n : ℕ) (m : Table V) → length (remove n m) ≤ length m
  unfolding remove
  length-remove_le n [] = omega arith
  length-remove_le n (cell ∷ cells) = ground (arith, length-remove_le n cells)

  -- A key that is there is removed with at least one entry.
  pub length-remove :
      (n : ℕ) (v : V) (m : Table V) → find n m ≡ some v → length (remove n m) + 1 ≤ length m
  unfolding find remove
  length-remove n v [] e = cc
  length-remove n v (cell ∷ cells) e =
      ground (arith, length-remove_le n cells, length-remove n v cells)

  pub All-find {κ} :
      (Q : V → Type κ) (n : ℕ) (v : V) (m : Table V)
      → All (λ cell. Q cell.1) m
      → find n m ≡ some v
      → Q v
  unfolding find
  All-find Q n v [] all e = cc
  All-find Q n v (cell ∷ cells) (q, all) e = elim (Bool-cases (cell.0 == n)) [
    | inl here ↦
        let found : some cell.1 ≡ some v = ground arith in
        let same : cell.1 ≡ v = cc in rw (← same) q
    | inr there ↦ All-find Q n v cells all (ground arith)
  ]

  pub put-All {κ} :
      (Q : V → Type κ) (n : ℕ) (v : V) (m : Table V)
      → Q v
      → All (λ cell. Q cell.1) m
      → All (λ cell. Q cell.1) (put n v m)
  unfolding put
  put-All Q n v [] q all = (q, tt)
  put-All Q n v (cell ∷ cells) q (here, all) = ground (arith, put-All Q n v cells q all)

  pub remove-All {κ} :
      (Q : V → Type κ) (n : ℕ) (m : Table V)
      → All (λ cell. Q cell.1) m
      → All (λ cell. Q cell.1) (remove n m)
  unfolding remove
  remove-All Q n [] all = tt
  remove-All Q n (cell ∷ cells) (here, all) = ground (arith, remove-All Q n cells all)
