-- ===== src/Events/Checks.antt =====
-- The event stores at concrete inputs.
use go_async_practice.Common.{ℕ, ◌+◌, ◌≡◌, refl, none, some, List, [], ◌∷◌, String, arith, length}
use go_async_practice.Common.Dict.{lookup, insert}
use go_async_practice.Events.Snapshots.{Call, append_event, get_stream, new_store, run}
use go_async_practice.Events.ReadModel
use go_async_practice.Events.ReadModel.{text, time, no_users}
use go_async_practice.Events.ReadModel.Overlay.{last_written}
use go_async_practice.Events.ReadModel.Writes.{content}
use go_async_practice.Events.ReadModel.Rebuild.{replay_rebuilds}
use go_async_practice.Events.ReadModel.History.{payload, update_rewrites_history}

abbrev append : ℕ → Call ℕ
append n = record { stream = "order_123"; kind = "ItemAdded"; payload = n; now = n; later = n + 1 }

abbrev seven : List (Call ℕ)
seven = append 10 ∷ append 20 ∷ append 30 ∷ append 40 ∷ append 50 ∷ append 60 ∷ append 70 ∷ []

-- Seven events leave a snapshot of version 5, and two events behind it.
seven-read : length (get_stream "order_123" 0 (run seven (new_store ℕ))).0 ≡ 2
unfolding run append_event get_stream lookup insert
seven-read = refl

abbrev commands : List ReadModel.Call
commands =
    ReadModel.Call.creates "user_1" "Alice" "alice@example.com" 1 2 3
    ∷ ReadModel.Call.creates "user_2" "Bob" "bob@example.com" 4 5 6
    ∷ ReadModel.Call.makes (("email", text "alice.new@example.com") ∷ [])
    ∷ ReadModel.Call.updates "user_1" 2 7 8 9
    ∷ []

replay_rebuilds_example :
    let s = ReadModel.run commands ReadModel.empty in
    let r = ReadModel.replay_events 0 (record s { read_model = no_users }) in
    (r.read_model ≡ s.read_model)
    × ((user k : String)
        → lookup k (ReadModel.get_user user r).0 ≡ lookup k (ReadModel.get_user user s).0)
    × ((user k : String) (a : ℕ) (v : ReadModel.Value)
        → lookup user s.read_model.users ≡ some a
        → last_written (content s.heap) s.store.events no_users a k ≡ some v
        → lookup k (ReadModel.get_user user s).0 ≡ some v)
unfolding ReadModel.run ReadModel.step ReadModel.create_user ReadModel.update_user
    ReadModel.append_event ReadModel.command ReadModel.project_event
replay_rebuilds_example =
    replay_rebuilds commands (
      tt,
      (tt, (tt, ((omega arith, ((λ e. omega (arith, e)), ((λ e. omega (arith, e)), tt))), tt))),
    )

-- The replayed map of the first user has the address of the update.
replayed_email :
    let s = ReadModel.run commands ReadModel.empty in
    let r = ReadModel.replay_events 0 (record s { read_model = no_users }) in
    lookup "email" (ReadModel.get_user "user_1" r).0 ≡ some (text "alice.new@example.com")
unfolding ReadModel.run ReadModel.step ReadModel.create_user ReadModel.update_user
    ReadModel.append_event ReadModel.command ReadModel.project_event ReadModel.replay_events
    ReadModel.replay_from ReadModel.merge ReadModel.get_user lookup insert
replayed_email = refl

updated_user : (ReadModel.get_user "user_1" (ReadModel.run commands ReadModel.empty)).1 ≡ 3
unfolding ReadModel.run ReadModel.step ReadModel.create_user ReadModel.update_user
    ReadModel.project_event ReadModel.get_user lookup insert
updated_user = refl

abbrev one_map : ReadModel.System
one_map = record ReadModel.empty { heap = (("email", text "alice.new@example.com") ∷ []) ∷ [] }

update_rewrites_history_example :
    let s1 = ReadModel.create_user "user_1" "Alice" "alice@example.com" 1 2 3 one_map in
    let s2 = ReadModel.update_user "user_1" 0 4 5 6 s1 in
    (before : ReadModel.Fields) × (after : ReadModel.Fields) × (payload 0 s1 ≡ some before)
    × (payload 0 s2 ≡ some after)
    × (lookup "updated_at" before ≡ none)
    × (lookup "updated_at" after ≡ some (time 4))
update_rewrites_history_example =
    update_rewrites_history "user_1" "Alice" "alice@example.com" 1 2 3 0 4 5 6 one_map (omega arith)
