-- ===== src/Events/Snapshots.antt =====
-- solution1_EventStoreWithSnapshot of solutions/challenge13_solution.go. `V` is the type of the
-- payloads (interface{}); the number n stands for the text "evt_n". `%` by the interval panics in
-- Go where the interval is 0; the store is made with 5.
pub mod Streams
pub mod Reads
use go_async_practice.Common.{
  ℕ, ◌+◌, ◌%◌, ◌&&◌, Bool, true, false, Option, none, some, List, [], ◌∷◌, ◌++◌, String, ltb, ◌==◌,
  if◌then◌else◌, length, keep,
}
use go_async_practice.Common.Dict.{Dict, lookup, insert, lookup_or}

module _ (V : Type 0) where
  pub record Event : Type 0 where
    pub id : ℕ
    pub stream_id : String
    pub kind : String  -- `Type`
    pub version : ℕ
    pub payload : V  -- `Data`
    pub timestamp : ℕ
    pub metadata : Dict String

  pub record Snapshot : Type 0 where
    pub stream_id : String
    pub version : ℕ
    pub state : V
    pub timestamp : ℕ

  pub record EventStore : Type 0 where
    pub events : Dict (List Event)
    pub snapshots : Dict Snapshot
    pub global_version : ℕ
    pub snapshot_interval : ℕ

  abbrev pub new_store : EventStore
  new_store = record { events = []; snapshots = []; global_version = 0; snapshot_interval = 5 }

  -- The arguments and clock readings of one call of `appendEvent`.
  pub record Call : Type 0 where
    pub stream : String
    pub kind : String
    pub payload : V
    pub now : ℕ
    pub later : ℕ

module _ {V : Type 0} where
  take_snapshot : String → ℕ → V → ℕ → EventStore V → EventStore V
  take_snapshot stream version payload now store =
      if version % store.snapshot_interval == 0
      then record store {
        snapshots =
            insert stream
              (record { stream_id = stream; version = version; state = payload; timestamp = now })
              store.snapshots;
      }
      else store

  -- `now` is read for the event, `later` for the snapshot.
  unfoldable pub append_event : String → String → V → ℕ → ℕ → EventStore V → EventStore V × Event V
  unfolding take_snapshot
  append_event stream kind payload now later store =
      let stream_events = lookup_or stream [] store.events in
      let stream_version = length stream_events in
      let global_version = store.global_version + 1 in
      let event : Event V = record {
        id = global_version;
        stream_id = stream;
        kind = kind;
        version = stream_version + 1;
        payload = payload;
        timestamp = now;
        metadata = ("source", "api") ∷ [];
      } in
      (
        take_snapshot stream (stream_version + 1) payload later (record store {
          events = insert stream (stream_events ++ event ∷ []) store.events;
          global_version = global_version;
        }),
        event,
      )

  abbrev pub after_version : ℕ → List (Event V) → List (Event V)
  after_version v = keep (λ e. ltb v e.version)

  unfoldable pub get_stream : String → ℕ → EventStore V → List (Event V) × Option (Snapshot V)
  get_stream stream from store =
      let events = lookup_or stream [] store.events in
      let filtered : List (Event V) × Option (Snapshot V) = (after_version from events, none) in
      elim (lookup stream store.snapshots) [
        | none ↦ filtered
        | some snapshot ↦
            if ltb from snapshot.version
            then (after_version snapshot.version events, some snapshot)
            else filtered
      ]

  unfoldable pub run : List (Call V) → EventStore V → EventStore V
  run [] store = store
  run (c ∷ cs) store = run cs (append_event c.stream c.kind c.payload c.now c.later store).0
