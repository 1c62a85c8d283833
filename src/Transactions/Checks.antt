-- ===== src/Transactions/Checks.antt =====
-- The transactions at concrete inputs.
use go_async_practice.Common.{
  ℕ, ◌-◌, ◌≡◌, refl, true, false, none, List, [], ◌∷◌, String, arith, All, map,
}
use go_async_practice.Common.Dict.{lookup}
use go_async_practice.Transactions.TwoPhase.{
  Transaction, Participant, TxState, prepare_all, abort_all, new_participant,
}
use go_async_practice.Transactions.TwoPhase.Agreement.{Write, Reflects, run, participants_agree}
use go_async_practice.Transactions.TwoPhase.Abort.{abort_undoes_prepare}
use go_async_practice.Transactions.Saga.{execute_saga}
use go_async_practice.Transactions.Saga.Compensation.{forward, Atomic, execute_saga-Atomic}
use go_async_practice.Transactions.Order.{Accounts, create_order_saga}
use go_async_practice.Transactions.Order.Atomicity.{
  IsInt32, create_order_saga-CanUndo, refusal, settled, order_atomic, order_overflow_is_free,
}

abbrev three : List String
three = "primary" ∷ "cache" ∷ "search" ∷ []

abbrev writes : List (Write ℕ)
writes =
    record { tx_id = "tx_1"; now = 1; key = "user_1"; value = 30 }
    ∷ record { tx_id = "tx_2"; now = 2; key = "user_2"; value = 25 }
    ∷ record { tx_id = "tx_3"; now = 3; key = "user_1"; value = 31 }
    ∷ []

participants_agree_example :
    All (Reflects "user_1" "tx_3" writes) (run writes (map new_participant three))
participants_agree_example = participants_agree "user_1" "tx_3" writes three

abbrev pending : Transaction ℕ
pending = record {
  id = "tx_1";
  timestamp = 1;
  state = TxState.prepare;
  fields = ("user_1", 30) ∷ [];
}

abbrev bare : String → Participant ℕ
bare id = record { id = id; fields = []; prepared = []; versions = [] }

-- The rollback of the second participant was lost.
abort_undoes_prepare_example :
    abort_all "tx_1" (0 ∷ 2 ∷ []) (prepare_all "tx_1" pending 0 (map bare three)).0 ≡ map bare three
unfolding lookup
abort_undoes_prepare_example =
    abort_undoes_prepare "tx_1" pending (0 ∷ 2 ∷ []) (map bare three) (refl, (refl, (refl, tt)))

abbrev stocked : Accounts
stocked = record { inventory = 10; balance = 1000 }

stocked-IsInt32 : IsInt32 stocked
stocked-IsInt32 = record { inventory_fits = omega arith; balance_fits = omega arith }

execute_saga-Atomic_example :
    let r = execute_saga (create_order_saga 2 100 false) stocked in
    Atomic stocked (forward (create_order_saga 2 100 false) stocked) r.1 r.2
execute_saga-Atomic_example =
    execute_saga-Atomic IsInt32 (create_order_saga 2 100 false) stocked stocked-IsInt32
      (create_order_saga-CanUndo 2 100 false (omega arith))

order_atomic_example :
    let r = execute_saga (create_order_saga 2 100 false) stocked in
    (r.1 ≡ settled 2 100 stocked (refusal 2 100 false stocked))
    × (r.2 ≡ refusal 2 100 false stocked)
order_atomic_example = order_atomic 2 100 false stocked (omega arith) stocked-IsInt32

order_shipped :
    (execute_saga (create_order_saga 2 100 true) stocked).1
    ≡ record { inventory = 8; balance = 800 }
unfolding execute_saga create_order_saga
order_shipped = refl

abbrev large : Accounts
large = record { inventory = 70000; balance = 5 }

order_overflow_is_free_example :
    let r = execute_saga (create_order_saga 65536 65536 true) large in
    (r.1 ≡ record { inventory = 70000 - 65536; balance = 5 }) × (r.2 ≡ none)
order_overflow_is_free_example =
    order_overflow_is_free 65536 65536 large refl (omega arith) (omega arith) (omega arith)
      (omega arith)
