-- ===== src/Common/Sorting.antt =====
-- Sorting of numbers, as `sort.Ints` does it.
use Prim.Native.Nat.{ℕ, ◌<◌}
use mathlib.Core.Path.{◌≡◌, refl, ap, ◌∙◌}
use mathlib.Core.Logic.{◌≢◌, inl, inr, ∥∥₁_elim}
use mathlib.Core.List.{List, [], ◌∷◌, Perm, Permᴰ}
use native.Mathlib.Omega.{arith}
use go_async_practice.Common.Tests.{if◌then◌else◌, leb, Bool-cases}
use go_async_practice.Common.Lists.{All, All-weaken}

abbrev pub insert_sorted : ℕ → List ℕ → List ℕ
insert_sorted n [] = n ∷ []
insert_sorted n (x ∷ xs) = if leb n x then n ∷ x ∷ xs else x ∷ insert_sorted n xs

abbrev pub sort : List ℕ → List ℕ
sort [] = []
sort (x ∷ xs) = insert_sorted x (sort xs)

-- No number twice.
abbrev pub IsDistinct : List ℕ → Type 0
IsDistinct [] = Unit
IsDistinct (x ∷ xs) = All (λ y. x ≢ y) xs × IsDistinct xs

-- Strictly rising.
abbrev pub IsRising : List ℕ → Type 0
IsRising [] = Unit
IsRising (x ∷ xs) = All (λ y. x < y) xs × IsRising xs

insert_sorted-All {κ} :
    (Q : ℕ → Type κ) (n : ℕ) (xs : List ℕ) → Q n → All Q xs → All Q (insert_sorted n xs)
insert_sorted-All Q n [] q all = (q, tt)
insert_sorted-All Q n (x ∷ xs) q (here, all) = elim (Bool-cases (leb n x)) [
  | inl low ↦ rw low (q, (here, all))
  | inr high ↦ rw high (here, insert_sorted-All Q n xs q all)
]

pub sort-All {κ} : (Q : ℕ → Type κ) (xs : List ℕ) → All Q xs → All Q (sort xs)
sort-All Q [] all = tt
sort-All Q (x ∷ xs) (here, all) = insert_sorted-All Q x (sort xs) here (sort-All Q xs all)

insert_sorted-IsRising :
    (n : ℕ) (xs : List ℕ) → All (λ y. n ≢ y) xs → IsRising xs → IsRising (insert_sorted n xs)
insert_sorted-IsRising n [] new r = (tt, tt)
insert_sorted-IsRising n (x ∷ xs) (ne, new) (low, r) = elim (Bool-cases (leb n x)) [
  | inl le ↦
      let lt : n < x = grind (arith, le, ne) in
      rw le
        ((lt, All-weaken (λ y. x < y) (λ y. n < y) xs (λ y h. omega (arith, lt, h)) low), (low, r))
  | inr gt ↦
      let lt : x < n = ground (arith, gt) in
      rw gt (insert_sorted-All (λ y. x < y) n xs lt low, insert_sorted-IsRising n xs new r)
]

-- Distinct numbers are sorted into strictly rising order.
pub sort-IsRising : (xs : List ℕ) → IsDistinct xs → IsRising (sort xs)
sort-IsRising [] d = tt
sort-IsRising (x ∷ xs) (new, d) =
    insert_sorted-IsRising x (sort xs) (sort-All (λ y. x ≢ y) xs new) (sort-IsRising xs d)

insert_sorted_comm :
    (m n : ℕ) (xs : List ℕ)
    → insert_sorted m (insert_sorted n xs) ≡ insert_sorted n (insert_sorted m xs)
insert_sorted_comm m n [] = ground arith
insert_sorted_comm m n (x ∷ xs) = ground (arith, insert_sorted_comm m n xs)

sort-Permᴰ : {xs ys : List ℕ} → Permᴰ xs ys → sort xs ≡ sort ys
sort-Permᴰ (Permᴰ.nil) = refl
sort-Permᴰ (Permᴰ.cons {b} {l₁} e p) =
    ap (λ x. insert_sorted x (sort l₁)) e ∙ ap (λ ys. insert_sorted b ys) (sort-Permᴰ p)
sort-Permᴰ (Permᴰ.swap {a} {b} {a'} {b'} {l} e e') =
    insert_sorted_comm a b (sort l)
    ∙ ap (λ x. insert_sorted x (insert_sorted a (sort l))) e'
    ∙ ap (λ x. insert_sorted a' (insert_sorted x (sort l))) e
sort-Permᴰ (Permᴰ.trans p q) = sort-Permᴰ p ∙ sort-Permᴰ q

-- The order of the numbers does not matter.
pub sort-Perm : {xs ys : List ℕ} → Perm xs ys → sort xs ≡ sort ys
sort-Perm p = ∥∥₁_elim p (hlevel) sort-Permᴰ
