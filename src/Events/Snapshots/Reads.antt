-- ===== src/Events/Snapshots/Reads.antt =====
-- A snapshot with the events behind it is the whole stream.
use go_async_practice.Common.{
  ◌+◌, ◌≡◌, Option, none, some, List, [], ◌∷◌, ◌++◌, String, map, str_eq, if◌then◌else◌, length,
}
use go_async_practice.Common.Dict.{lookup, lookup_or}
use go_async_practice.Events.Snapshots.{Event, Snapshot, EventStore, Call}

module _ {V : Type 0} where
  -- A stream's events, with one that a snapshot stands for: its number is the snapshot's version, and
  -- its payload the snapshot's state.
  pub record IsSplit (stream : String) (events : List (Event V)) (s : Snapshot V)
      (back : List (Event V)) : Type 0 where
    pub front : List (Event V)
    pub event : Event V
    pub whole : events ≡ front ++ event ∷ back
    pub version : s.version ≡ length front + 1
    pub state : s.state ≡ event.payload
    pub stream_id : s.stream_id ≡ stream

  -- The events that a read returns, with its snapshot: the whole stream, up to the version asked for.
  abbrev pub IsWhole : String → List (Event V) → List (Event V) × Option (Snapshot V) → Type 0
  IsWhole stream events (es, none) = Unit
  IsWhole stream events (es, some s) = IsSplit stream events s es

  abbrev Recorded : String → List (Event V) → Option (Snapshot V) → Type 0
  Recorded stream events none = Unit
  Recorded stream events (some s) = (back : List (Event V)) × IsSplit stream events s back

  -- The payloads that calls append to a stream.
  abbrev pub appended : String → List (Call V) → List V
  appended stream [] = []
  appended stream (c ∷ cs) =
      if str_eq c.stream stream then c.payload ∷ appended stream cs else appended stream cs

  -- The events of a stream have these payloads, and its snapshot is of one of them.
  record Holds (stream : String) (payloads : List V) (store : EventStore V) : Type 0 where
    carried : map (λ e. e.payload) (lookup_or stream [] store.events) ≡ payloads
    recorded : Recorded stream (lookup_or stream [] store.events) (lookup stream store.snapshots)
