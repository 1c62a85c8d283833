-- ===== src/Events/ReadModel.antt =====
-- solution3_EventSourcingCQRS of solutions/challenge12_solution.go. A map of Go is shared by those
-- who hold it: an event's `Data` and the entry of the read model that `projectEvent` stores are one
-- map. So the maps live on a heap, a list of cells with their addresses for indices. A command is one
-- step: the calls modelled do not overlap. In the source the append and the projection lock one after
-- the other, so that of commands that overlap the projections can run in another order than the log's.
pub mod Replay
pub mod History
pub mod Overlay
pub mod Writes
pub mod Changes
pub mod Rebuild
use go_async_practice.Common.{
  ℕ, ◌+◌, Bool, true, false, Option, none, some, List, [], ◌∷◌, ◌++◌, String, ltb, if◌then◌else◌,
  length, get_or, set,
}
use go_async_practice.Common.Dict.{Dict, lookup, insert, erase, lookup_or}

-- The values that the commands store in a map.
pub data Value : Type 0 where
  text : String → Value
  time : ℕ → Value

abbrev pub Fields : Type 0
Fields = Dict Value

pub data EventType : Type 0 where
  user_created user_updated user_deleted : EventType

pub record Event : Type 0 where
  pub id : ℕ
  pub kind : EventType
  pub aggregate_id : String
  pub timestamp : ℕ
  pub version : ℕ
  pub address : ℕ  -- of `Data`

pub record EventStore : Type 0 where
  pub events : List Event
  pub version : ℕ

-- A user's entry is the address of a map.
pub record Model : Type 0 where
  pub users : Dict ℕ
  pub user_versions : Dict ℕ

pub record System : Type 0 where
  pub heap : List Fields
  pub store : EventStore
  pub read_model : Model

-- The number n stands for the text "evt_n"; `named` is the reading that it is made from.
unfoldable pub append_event : EventType → String → ℕ → ℕ → ℕ → System → System × Event
append_event kind aggregate address named now s =
    let version = s.store.version + 1 in
    let event : Event = record {
      id = named;
      kind = kind;
      aggregate_id = aggregate;
      timestamp = now;
      version = version;
      address = address;
    } in
    (
      record s { store = record { events = s.store.events ++ event ∷ []; version = version } },
      event,
    )

-- `for k, v := range event.Data { existing[k] = v }`; the order of the range is open.
unfoldable pub merge : Fields → Fields → Fields
merge existing [] = existing
merge existing ((k, v) ∷ fields) = insert k v (merge existing fields)

unfoldable pub project_event : Event → List Fields → Model → List Fields × Model
unfolding merge
project_event event heap m = elim event.kind [
  | user_created ↦ (
    heap,
    record {
      users = insert event.aggregate_id event.address m.users;
      user_versions = insert event.aggregate_id event.version m.user_versions;
    },
  )
  | user_updated ↦ elim (lookup event.aggregate_id m.users) [
    | none ↦ (heap, m)
    | some existing ↦ (
      set heap existing (merge (get_or heap existing []) (get_or heap event.address [])),
      record m { user_versions = insert event.aggregate_id event.version m.user_versions },
    )
  ]
  | user_deleted ↦ (
    heap,
    record {
      users = erase event.aggregate_id m.users;
      user_versions = erase event.aggregate_id m.user_versions;
    },
  )
]

unfoldable pub replay_from : ℕ → List Event → List Fields → Model → List Fields × Model
replay_from from [] heap m = (heap, m)
replay_from from (e ∷ es) heap m =
    let (heap', m') = (if ltb from e.version then project_event e heap m else (heap, m)) in
    replay_from from es heap' m'

project : Event → System → System
project event s =
    let (heap', m') = project_event event s.heap s.read_model in
    record s { heap = heap'; read_model = m' }

unfoldable pub replay_events : ℕ → System → System
unfolding replay_from
replay_events from s =
    let (heap', m') = replay_from from s.store.events s.heap s.read_model in
    record s { heap = heap'; read_model = m' }

-- An event of any type on the map at an address: `appendEvent`, then `projectEvent`.
unfoldable pub command : EventType → String → ℕ → ℕ → ℕ → System → System
unfolding append_event project
command kind aggregate address named now s =
    let (s', event) = append_event kind aggregate address named now s in project event s'

-- The map literal is made here.
unfoldable pub create_user : String → String → String → ℕ → ℕ → ℕ → System → System
unfolding command
create_user user name email created named now s =
    command user_created user (length s.heap) named now (record s {
      heap =
          s.heap
          ++ (("name", text name) ∷ ("email", text email) ∷ ("created_at", time created) ∷ []) ∷ [];
    })

-- The caller's map is changed, and becomes the event's.
unfoldable pub update_user : String → ℕ → ℕ → ℕ → ℕ → System → System
unfolding command
update_user user updates updated named now s =
    command user_updated user updates named now (record s {
      heap = set s.heap updates (insert "updated_at" (time updated) (get_or s.heap updates []));
    })

-- `getUser`: the user's map, its version, and whether the user is there.
unfoldable pub get_user : String → System → Fields × ℕ × Bool
get_user user s = elim (lookup user s.read_model.users) [
  | none ↦ ([], lookup_or user 0 s.read_model.user_versions, false)
  | some a ↦ (get_or s.heap a [], lookup_or user 0 s.read_model.user_versions, true)
]

pub data Call : Type 0 where
  -- a map literal of the caller
  makes : Fields → Call
  creates : (user name email : String) (created named now : ℕ) → Call
  updates : (user : String) (address updated named now : ℕ) → Call

unfoldable pub step : Call → System → System
step (makes fields) s = record s { heap = s.heap ++ fields ∷ [] }
step (creates user name email created named now) s = create_user user name email created named now s
step (updates user address updated named now) s = update_user user address updated named now s

unfoldable pub run : List Call → System → System
run [] s = s
run (c ∷ cs) s = run cs (step c s)

abbrev pub no_users : Model
no_users = record { users = []; user_versions = [] }

abbrev pub empty : System
empty = record { heap = []; store = record { events = []; version = 0 }; read_model = no_users }
