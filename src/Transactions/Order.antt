-- ===== src/Transactions/Order.antt =====
-- `createOrderSaga` in solution2_SagaPattern of solutions/challenge12_solution.go. An int32 is its bit
-- pattern, a number below 2 ^ 32; `signed` moves it so that the order of the integers is that of
-- the numbers. `ships` is the outcome of the simulated shipping service.
pub mod Atomicity
use go_async_practice.Common.{
  ℕ, ◌+◌, ◌-◌, ◌*◌, ◌%◌, ◌^◌, Bool, true, false, Option, none, some, List, [], ◌∷◌, ltb,
  if◌then◌else◌,
}
use go_async_practice.Transactions.Saga.{Step}

pub record Accounts : Type 0 where
  pub inventory : ℕ
  pub balance : ℕ

pub data Error : Type 0 where
  out_of_stock insufficient_balance shipping_unavailable : Error

abbrev pub signed : ℕ → ℕ
signed a = (a + 2 ^ 31) % 2 ^ 32

abbrev pub add32 : ℕ → ℕ → ℕ
add32 a b = (a + b) % 2 ^ 32

abbrev pub sub32 : ℕ → ℕ → ℕ
sub32 a b = (a + 2 ^ 32 - b) % 2 ^ 32

abbrev pub mul32 : ℕ → ℕ → ℕ
mul32 a b = (a * b) % 2 ^ 32

unfoldable pub reserve : ℕ → Step Accounts Error
reserve quantity = record {
  name = "在庫予約";
  execute = λ s.
      if ltb (signed s.inventory) (signed quantity)
      then (s, some out_of_stock)
      else (record s { inventory = sub32 s.inventory quantity }, none);
  compensate = λ s. (record s { inventory = add32 s.inventory quantity }, none);
  executed = false;
  failed = false;
}

unfoldable pub pay : ℕ → ℕ → Step Accounts Error
pay quantity price = record {
  name = "支払い処理";
  execute = λ s.
      if ltb (signed s.balance) (signed (mul32 quantity price))
      then (s, some insufficient_balance)
      else (record s { balance = sub32 s.balance (mul32 quantity price) }, none);
  compensate = λ s. (record s { balance = add32 s.balance (mul32 quantity price) }, none);
  executed = false;
  failed = false;
}

unfoldable pub ship : Bool → Step Accounts Error
ship ships = record {
  name = "配送手配";
  execute = λ s. if ships then (s, none) else (s, some shipping_unavailable);
  compensate = λ s. (s, none);
  executed = false;
  failed = false;
}

unfoldable pub create_order_saga : ℕ → ℕ → Bool → List (Step Accounts Error)
unfolding reserve pay ship
create_order_saga quantity price ships = reserve quantity ∷ pay quantity price ∷ ship ships ∷ []
