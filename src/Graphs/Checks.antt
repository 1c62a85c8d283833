-- ===== src/Graphs/Checks.antt =====
-- Optimistic transactions at concrete inputs.
use go_async_practice.Common.{ℕ, ◌≡◌, ◌≢◌, refl, [], ◌∷◌, arith}
use go_async_practice.Common.Dict.{lookup, insert}
use go_async_practice.Graphs.Optimistic.{
  Graph, Transaction, success, conflict, begin_transaction, read_node, update_node, commit,
  validate, write_one, write_all,
}
use go_async_practice.Graphs.Optimistic.Commits.{IsSound, commit_all, stale_read_refused}

abbrev account : Graph ℕ
account = record {
  nodes =
      ("a", record { id = "a"; version = 0; properties = ("balance", 5) ∷ []; edges = [] }) ∷ [];
  global_clock = 0;
}

account-IsSound : IsSound account
unfolding lookup
account-IsSound id v e = ground arith

abbrev reader : Transaction ℕ
unfolding begin_transaction read_node update_node
reader =
    update_node "a" (("balance", 6) ∷ []) (read_node "a" (begin_transaction "reader" 1) account).0

abbrev writer : Transaction ℕ
unfolding begin_transaction read_node update_node
writer =
    update_node "a" (("balance", 9) ∷ []) (read_node "a" (begin_transaction "writer" 2) account).0

stale_read_refused_example :
    let now = commit_all [] (commit writer (commit_all [] account)).0 in
    ((commit reader now).0 ≡ now)
    × ((commit reader now).1 ≡ reader)
    × ((commit reader now).2 ≢ success)
unfolding commit lookup reader insert validate commit_all
stale_read_refused_example =
    stale_read_refused account [] [] writer reader "a" 0 (("balance", 9) ∷ []) account-IsSound refl
      refl refl refl

lost_race : (commit reader (commit writer account).0).2 ≡ conflict "a" 0 1
unfolding commit validate reader writer lookup insert write_all write_one
lost_race = refl

first_wins : (commit writer account).2 ≡ success
unfolding commit validate writer lookup insert
first_wins = refl
