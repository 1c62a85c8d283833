-- ===== src/Transactions/Order/Atomicity.antt =====
-- What an order books.
use go_async_practice.Common.{
  ℕ, ◌-◌, ◌*◌, ◌%◌, ◌^◌, ◌<◌, ◌≤◌, ◌≡◌, ap, sym, ◌∙◌, Bool, true, Option, none, some, arith, All,
  ltb, if◌then◌else◌,
}
use go_async_practice.Transactions.Saga.{execute_saga}
use go_async_practice.Transactions.Saga.Compensation.{CanUndo, forward, Atomic, execute_saga-Atomic}
use go_async_practice.Transactions.Order.{
  Accounts, Error, signed, add32, sub32, mul32, create_order_saga, out_of_stock,
  insufficient_balance, shipping_unavailable,
}

pub record IsInt32 (s : Accounts) : Type 0 where
  pub inventory_fits : s.inventory < 2 ^ 32
  pub balance_fits : s.balance < 2 ^ 32

add32-sub32 : (a b : ℕ) → a < 2 ^ 32 → b < 2 ^ 32 → add32 (sub32 a b) b ≡ a
add32-sub32 a b h k = omega arith

mul32-lt : (a b : ℕ) → mul32 a b < 2 ^ 32
mul32-lt a b = omega arith

pub create_order_saga-CanUndo :
    (quantity price : ℕ) (ships : Bool)
    → quantity < 2 ^ 32
    → All (CanUndo IsInt32) (create_order_saga quantity price ships)
unfolding create_order_saga
create_order_saga-CanUndo quantity price ships h = (
  λ s v. ground (arith, add32-sub32 s.inventory quantity v.inventory_fits h),
  (
    λ s v. ground (
      arith,
      add32-sub32 s.balance (mul32 quantity price) v.balance_fits (mul32-lt quantity price),
    ),
    (λ s v. ground arith, tt),
  ),
)

-- The first check that an order fails, if any.
abbrev pub refusal : ℕ → ℕ → Bool → Accounts → Option Error
refusal quantity price ships s =
    if ltb (signed s.inventory) (signed quantity)
    then some out_of_stock
    else if ltb (signed s.balance) (signed (mul32 quantity price))
    then some insufficient_balance
    else if ships
    then none
    else some shipping_unavailable

abbrev pub booked : ℕ → ℕ → Accounts → Accounts
booked quantity price s = record {
  inventory = sub32 s.inventory quantity;
  balance = sub32 s.balance (mul32 quantity price);
}

abbrev pub settled : ℕ → ℕ → Accounts → Option Error → Accounts
settled quantity price s none = booked quantity price s
settled quantity price s (some e) = s

forward-order :
    (quantity price : ℕ) (ships : Bool) (s : Accounts)
    → Atomic s
        (forward (create_order_saga quantity price ships) s)
        (settled quantity price s (refusal quantity price ships s))
        (refusal quantity price ships s)
unfolding create_order_saga
forward-order quantity price ships s = ground arith

Atomic-unique :
    {S E : Type 0} (s : S) (f : S × Option E) (a b : S) (p q : Option E)
    → Atomic s f a p
    → Atomic s f b q
    → (a ≡ b) × (p ≡ q)
Atomic-unique s (t, none) a b p q h k = (h.0 ∙ sym k.0, h.1 ∙ sym k.1)
Atomic-unique s (t, some e) a b p q h k = (h.0 ∙ sym k.0, h.1 ∙ sym k.1)

-- An order fails exactly as its first failing check says: too little stock, too low a balance, or no
-- shipping. Then stock and balance are as before; else the stock falls by the quantity and the
-- balance by the price, in 32-bit arithmetic.
pub order_atomic :
    (quantity price : ℕ) (ships : Bool) (s : Accounts)
    → quantity < 2 ^ 32
    → IsInt32 s
    → let r = execute_saga (create_order_saga quantity price ships) s in
      (r.1 ≡ settled quantity price s (refusal quantity price ships s))
      × (r.2 ≡ refusal quantity price ships s)
order_atomic quantity price ships s h v =
    Atomic-unique s (forward (create_order_saga quantity price ships) s) _ _ _ _
      (execute_saga-Atomic IsInt32 (create_order_saga quantity price ships) s v
        (create_order_saga-CanUndo quantity price ships h))
      (forward-order quantity price ships s)

-- The price is computed in 32 bits. If the product of quantity and price is a multiple of 2 ^ 32,
-- then an order that is in stock is shipped and costs nothing.
pub order_overflow_is_free :
    (quantity price : ℕ) (s : Accounts)
    → quantity * price % 2 ^ 32 ≡ 0
    → quantity < 2 ^ 32
    → quantity ≤ s.inventory
    → s.inventory < 2 ^ 31
    → s.balance < 2 ^ 31
    → let r = execute_saga (create_order_saga quantity price true) s in
      (r.1 ≡ record { inventory = s.inventory - quantity; balance = s.balance }) × (r.2 ≡ none)
order_overflow_is_free quantity price s wraps h stock i b =
    let r =
      order_atomic quantity price true s h
        (record { inventory_fits = omega arith; balance_fits = omega arith }) in
    let e : refusal quantity price true s ≡ none = ground arith in
    let f : booked quantity price s
        ≡ record { inventory = s.inventory - quantity; balance = s.balance } =
      ground arith in
    (r.0 ∙ ap (settled quantity price s) e ∙ f, r.1 ∙ e)
