-- ===== src/Events/ReadModel/Replay.antt =====
-- The read model and the event log.
use go_async_practice.Common.{
  ℕ, ◌<◌, ◌≡◌, refl, ◌∙◌, sym, ap, List, [], ◌∷◌, ◌++◌, String, arith, All, All-append, lt→ltb,
}
use go_async_practice.Events.ReadModel.{
  Event, EventType, Fields, Model, System, append_event, project_event, replay_from, replay_events,
  command, create_user, update_user, Call, makes, creates, updates, step, run, no_users, empty,
}

pub project_event-model :
    (e : Event) (heap : List Fields) (m : Model)
    → (project_event e heap m).1 ≡ (project_event e [] m).1
unfolding project_event
project_event-model e heap m = ground arith

-- The model as a fold of the log.
unfoldable pub folded : List Event → Model → Model
folded [] m = m
folded (e ∷ es) m = folded es (project_event e [] m).1

pub folded-append :
    (xs : List Event) (e : Event) (m : Model)
    → folded (xs ++ e ∷ []) m ≡ (project_event e [] (folded xs m)).1
unfolding folded
folded-append [] e m = refl
folded-append (x ∷ xs) e m = folded-append xs e (project_event x [] m).1

abbrev pub IsNumbered : Event → Type 0
IsNumbered e = 0 < e.version

replay_from-folded :
    (es : List Event) (heap : List Fields) (m : Model)
    → All IsNumbered es
    → (replay_from 0 es heap m).1 ≡ folded es m
unfolding replay_from folded
replay_from-folded [] heap m h = refl
replay_from-folded (e ∷ es) heap m h =
    rw (lt→ltb 0 e.version h.0, replay_from)
      (replay_from-folded es _ _ h.1 ∙ ap (folded es) (project_event-model e heap m))

pub record IsProjected (s : System) : Type 0 where
  pub model : s.read_model ≡ folded s.store.events no_users
  pub numbered : All IsNumbered s.store.events

pub command-IsProjected :
    (kind : EventType) (user : String) (address named now : ℕ) (s : System)
    → IsProjected s
    → IsProjected (command kind user address named now s)
unfolding command
command-IsProjected kind user address named now s h =
    let event = (append_event kind user address named now s).1 in
    record {
      model =
          project_event-model _ s.heap s.read_model
          ∙ ap (λ m. (project_event event [] m).1) h.model
          ∙ sym (folded-append s.store.events event no_users);
      numbered = All-append IsNumbered s.store.events (event ∷ []) h.numbered (omega arith, tt);
    }

pub step-IsProjected : (c : Call) (s : System) → IsProjected s → IsProjected (step c s)
unfolding step create_user update_user
step-IsProjected (makes fields) s h = record { model = h.model; numbered = h.numbered }
step-IsProjected (creates user name email created named now) s h =
    command-IsProjected _ user _ named now _ (record { model = h.model; numbered = h.numbered })
step-IsProjected (updates user address updated named now) s h =
    command-IsProjected _ user address named now _
      (record { model = h.model; numbered = h.numbered })

run-IsProjected : (cs : List Call) (s : System) → IsProjected s → IsProjected (run cs s)
unfolding run
run-IsProjected [] s h = h
run-IsProjected (c ∷ cs) s h = run-IsProjected cs (step c s) (step-IsProjected c s h)

pub empty-IsProjected : IsProjected empty
unfolding folded
empty-IsProjected = record { model = refl; numbered = tt }

-- A replay of the whole log into an empty read model gives the same users with the same maps, by
-- address, and versions.
pub replay_events-model :
    (s : System)
    → IsProjected s
    → (replay_events 0 (record s { read_model = no_users })).read_model ≡ s.read_model
unfolding replay_events
replay_events-model s h = replay_from-folded s.store.events s.heap no_users h.numbered ∙ sym h.model
