-- ===== src/Events/ReadModel/Rebuild.antt =====
-- The read model behind a replay.
use go_async_practice.Common.{
  ℕ, ◌+◌, ◌<◌, ◌≡◌, ◌≢◌, refl, sym, ap, ◌∙◌, Bool, Option, none, some, List, [], ◌∷◌, String, arith,
  length, length-set, get_or, set, All, Option-cases, inl, inr,
}
use go_async_practice.Common.Dict.{lookup, insert}
use go_async_practice.Events.ReadModel.{
  Value, Event, user_created, user_updated, Fields, Model, System, text, time, project_event,
  create_user, update_user, command, replay_events, get_user, Call, makes, creates, updates, step,
  run, no_users, empty,
}
use go_async_practice.Events.ReadModel.Replay.{
  IsProjected, step-IsProjected, empty-IsProjected, replay_events-model,
}
use go_async_practice.Events.ReadModel.Overlay.{or_else, last_written, Users, replay_from-cell}
use go_async_practice.Events.ReadModel.Writes.{made, content, Kept}
use go_async_practice.Events.ReadModel.Changes.{
  grown-Kept, created-Kept, changed-Kept, updated-Kept,
}

-- The map of an update is there, and in no event yet.
abbrev pub IsFreshCall : Call → System → Type 0
IsFreshCall (makes fields) s = Unit
IsFreshCall (creates user name email created named now) s = Unit
IsFreshCall (updates user address updated named now) s =
    (address < length s.heap) × All (λ e. e.address ≢ address) s.store.events

-- Every update has a map of its own, which the caller does not use again.
abbrev pub IsFresh : List Call → System → Type 0
IsFresh [] s = Unit
IsFresh (c ∷ cs) s = IsFreshCall c s × IsFresh cs (step c s)

abbrev IsKept : System → Type 0
IsKept s = Kept s.heap s.store.events s.read_model

step-IsKept :
    (c : Call) (s : System) → IsProjected s → IsFreshCall c s → IsKept s → IsKept (step c s)
unfolding step create_user update_user command project_event
step-IsKept (makes fields) s p fresh h = grown-Kept s.heap fields s.store.events s.read_model h
step-IsKept (creates user name email created named now) s p fresh h =
    let lit : Fields =
      ("name", text name) ∷ ("email", text email) ∷ ("created_at", time created) ∷ [] in
    let e : Event = record {
      id = named;
      kind = user_created;
      aggregate_id = user;
      timestamp = now;
      version = s.store.version + 1;
      address = length s.heap;
    } in
    created-Kept s.heap lit s.store.events s.read_model e refl refl p.model h.inside
      (grown-Kept s.heap lit s.store.events s.read_model h)
step-IsKept (updates user address updated named now) s p (there, fresh) h =
    let x = insert "updated_at" (time updated) (get_or s.heap address []) in
    let e : Event = record {
      id = named;
      kind = user_updated;
      aggregate_id = user;
      timestamp = now;
      version = s.store.version + 1;
      address = address;
    } in
    updated-Kept (set s.heap address x) s.store.events s.read_model e refl p.model
      (omega (arith, there, length-set s.heap address x)) fresh
      (changed-Kept s.heap address x s.store.events s.read_model there fresh h)

run-IsKept :
    (cs : List Call) (s : System)
    → IsFresh cs s
    → IsProjected s
    → IsKept s
    → IsProjected (run cs s) × IsKept (run cs s)
unfolding run
run-IsKept [] s fresh p h = (p, h)
run-IsKept (c ∷ cs) s (here, fresh) p h =
    run-IsKept cs (step c s) fresh (step-IsProjected c s p) (step-IsKept c s p here h)

no_users-Users : (is_made : ℕ → Bool) (heap : List Fields) → Users is_made heap no_users
unfolding lookup
no_users-Users is_made heap user b found = absurd cc

empty-IsKept : IsKept empty
empty-IsKept = record {
  fits = tt;
  inside = tt;
  users = no_users-Users (made []) [];
  written = λ a k v e. absurd cc;
}

or_else-kept : (o p : Option Value) → ((v : Value) → o ≡ some v → p ≡ some v) → or_else o p ≡ p
or_else-kept none p there = refl
or_else-kept (some v) p there = sym (there v refl)

-- A user's map, under the heap and the model.
abbrev shown : String → List Fields → Model → Fields
shown user heap m = elim (lookup user m.users) [ none ↦ [] | some a ↦ get_or heap a [] ]

get_user-shown : (user : String) (s : System) → (get_user user s).0 ≡ shown user s.heap s.read_model
unfolding get_user
get_user-shown user s = ground arith

lookup-shown :
    (user k : String) (heap heap' : List Fields) (m : Model)
    → ((a : ℕ) → lookup k (get_or heap' a []) ≡ lookup k (get_or heap a []))
    → lookup k (shown user heap' m) ≡ lookup k (shown user heap m)
lookup-shown user k heap heap' m same = elim (Option-cases (lookup user m.users)) [
  | inl absent ↦ ground (arith, absent)
  | inr (a, there) ↦ ground (arith, there, same a)
]

-- After any commands, each update with a map of its own, a replay of the whole log into an empty read
-- model gives back the read model: the same users with the same maps (by address) and versions, and
-- under every key the same value. Moreover a user's map has under each key the value that was written
-- to it last by an update of the log.
pub replay_rebuilds :
    (cs : List Call)
    → IsFresh cs empty
    → let s = run cs empty in
      let r = replay_events 0 (record s { read_model = no_users }) in
      (r.read_model ≡ s.read_model)
      × ((user k : String) → lookup k (get_user user r).0 ≡ lookup k (get_user user s).0)
      × ((user k : String) (a : ℕ) (v : Value)
          → lookup user s.read_model.users ≡ some a
          → last_written (content s.heap) s.store.events no_users a k ≡ some v
          → lookup k (get_user user s).0 ≡ some v)
unfolding replay_events
replay_rebuilds cs fresh =
    let s = run cs empty in
    let r = replay_events 0 (record s { read_model = no_users }) in
    let (p, h) = run-IsKept cs empty fresh empty-IsProjected empty-IsKept in
    let model = replay_events-model s p in
    let cells : (k : String) (a : ℕ)
        → lookup k (get_or r.heap a []) ≡ lookup k (get_or s.heap a []) =
      λ k a.
        replay_from-cell (content s.heap) (made s.store.events) s.store.events s.heap no_users a k
          p.numbered h.fits (no_users-Users (made s.store.events) s.heap)
        ∙ or_else-kept (last_written (content s.heap) s.store.events no_users a k)
            (lookup k (get_or s.heap a [])) (λ v e. (h.written a k v e).1) in
    (
      model,
      λ user k.
          ap (λ f. lookup k f) (get_user-shown user r)
          ∙ ap (λ m. lookup k (shown user r.heap m)) model
          ∙ lookup-shown user k s.heap r.heap s.read_model (cells k)
          ∙ ap (λ f. lookup k f) (sym (get_user-shown user s)),
      λ user k a v there e.
          let found : shown user s.heap s.read_model ≡ get_or s.heap a [] = ground (arith, there) in
          ap (λ f. lookup k f) (get_user-shown user s ∙ found) ∙ (h.written a k v e).1,
    )
