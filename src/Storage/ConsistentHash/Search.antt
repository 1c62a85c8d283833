-- ===== src/Storage/ConsistentHash/Search.antt =====
-- The binary search on the ring.
use native.Mathlib.Nat.{mod-eq_of_lt, mod_self}
use native.Mathlib.Decide.{dec_lt}
use go_async_practice.Common.{
  Bool, ltb→lt, ℕ, zero, suc, ◌+◌, ◌-◌, ◌/◌, ◌%◌, ◌≤◌, ◌<◌, ◌≡◌, refl, ◌⊎◌, inl, inr, List, arith,
  ltb, ◌==◌, if◌then◌else◌, length, get_or, ◌∙◌, ap, true, false,
}
use go_async_practice.Storage.ConsistentHash.{search, search_between}

-- The keys stand in strictly rising order.
abbrev pub Rising : List ℕ → Type 0
Rising keys = (i j : ℕ) → i < j → j < length keys → get_or keys i 0 < get_or keys j 0

-- All keys before the place are less than the target, and none behind it is.
pub record IsPlace (keys : List ℕ) (target place : ℕ) : Type 0 where
  pub within : place ≤ length keys
  pub before : (i : ℕ) → i < place → get_or keys i 0 < target
  pub behind : (i : ℕ) → place ≤ i → i < length keys → target ≤ get_or keys i 0

not_less : (a b : ℕ) → ltb a b ≡ false → b ≤ a
not_less a b h = ground arith

key_le :
    (keys : List ℕ) (i j : ℕ)
    → Rising keys
    → i ≤ j
    → j < length keys
    → get_or keys i 0 ≤ get_or keys j 0
key_le keys i j rising le lt = elim (dec_lt i j) [
  | yes below ↦ omega (arith, rising i j below lt)
  | no above ↦ let same : i ≡ j = omega arith in rw same (omega arith)
]

if-IsPlace :
    (keys : List ℕ) (target : ℕ) (test : Bool) (x y : ℕ)
    → (test ≡ true → IsPlace keys target x)
    → (test ≡ false → IsPlace keys target y)
    → IsPlace keys target (if test then x else y)
if-IsPlace keys target true x y hit miss = hit refl
if-IsPlace keys target false x y hit miss = miss refl

found-IsPlace :
    (keys : List ℕ) (target mid : ℕ)
    → Rising keys
    → mid < length keys
    → get_or keys mid 0 ≡ target
    → IsPlace keys target mid
found-IsPlace keys target mid rising lt e = record {
  within = omega arith;
  before = λ i h. omega (arith, rising i mid h lt, e);
  behind = λ i h k. omega (arith, key_le keys mid i rising h k, e);
}

search_between-IsPlace :
    (fuel : ℕ) (keys : List ℕ) (target left right : ℕ)
    → Rising keys
    → right ≤ left + fuel
    → left ≤ right
    → right ≤ length keys
    → ((i : ℕ) → i < left → get_or keys i 0 < target)
    → ((i : ℕ) → right ≤ i → i < length keys → target ≤ get_or keys i 0)
    → IsPlace keys target (search_between fuel keys target left right)
unfolding search_between
search_between-IsPlace zero keys target left right rising fuel le within before behind = record {
  within = omega arith;
  before = before;
  behind = λ i h. behind i (omega arith);
}
search_between-IsPlace (suc fuel) keys target left right rising enough le within before behind =
    let mid : ℕ = (left + (right - 1)) / 2 in
    let rest = search_between-IsPlace fuel keys target in
    if-IsPlace keys target (ltb left right) _ _
      (λ open_range.
        let lt : left < right = ltb→lt left right open_range in
        let lower : left ≤ mid = omega arith in
        let upper : mid < right = omega arith in
        if-IsPlace keys target (get_or keys mid 0 == target) _ _
          (λ hit. found-IsPlace keys target mid rising (omega arith) (ground arith))
          (λ miss.
            if-IsPlace keys target (ltb (get_or keys mid 0) target) _ _
              (λ small.
                rest (mid + 1) right rising (omega arith) (omega arith) within
                  (λ i h. omega (
                    arith,
                    key_le keys i mid rising (omega arith) (omega arith),
                    ltb→lt (get_or keys mid 0) target small,
                  ))
                  behind)
              (λ large. rest left mid rising (omega arith) lower (omega arith) before (λ i h k.
                omega (
                  arith,
                  key_le keys mid i rising h k,
                  not_less (get_or keys mid 0) target large,
                )))))
      (λ closed_range. record {
        within = omega arith;
        before = before;
        behind = λ i h k. behind i (omega (arith, not_less left right closed_range, h)) k;
      })

-- On keys in strictly rising order, of which there is at least one, the binary search, with as many
-- rounds as there are keys, returns the place of the first key that is not less than the hash; if all
-- keys are less it returns 0, where the ring begins again.
pub search_first :
    (keys : List ℕ) (target : ℕ)
    → Rising keys
    → 0 < length keys
    → IsPlace keys target (search keys target)
      ⊎ ((search keys target ≡ 0) × ((i : ℕ) → i < length keys → get_or keys i 0 < target))
unfolding search
search_first keys target rising some_key =
    let place = search_between (length keys) keys target 0 (length keys) in
    let r =
      search_between-IsPlace (length keys) keys target 0 (length keys) rising (omega arith)
        (omega arith) (omega arith) (λ i h. absurd (omega arith)) (λ i h k. absurd (omega arith)) in
    elim (dec_lt place (length keys)) [
      | yes inside ↦ inl (rw (mod-eq_of_lt inside) r)
      | no past ↦
          let end : place ≡ length keys = omega (arith, r.within) in
          inr (
            ap (λ i. i % length keys) end ∙ mod_self (length keys),
            λ i h. r.before i (omega (arith, end)),
          )
    ]
