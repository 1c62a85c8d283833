-- ===== src/Events/Snapshots/Streams.antt =====
-- The versions of a stream, and what a snapshot stands for.
use go_async_practice.Common.{
  ℕ, ◌+◌, ◌-◌, ◌%◌, ◌≤◌, ◌<◌, ◌≡◌, refl, inl, inr, Option, none, some, List, [], ◌∷◌, ◌++◌, String,
  arith, eq_iff, ltb, length, length-append, Option-cases, Bool-cases,
}
use native.Mathlib.Decide.{dec_lt}
use go_async_practice.Common.Dict.{lookup, lookup-insert, lookup_or}
use go_async_practice.Events.Snapshots.{
  Event, Snapshot, EventStore, new_store, append_event, after_version, get_stream, Call, run,
}

module _ {V : Type 0} where
  -- The events carry the versions `n + 1`, `n + 2`, … in order.
  abbrev pub HasVersions : ℕ → List (Event V) → Type 0
  HasVersions n [] = Unit {0}
  HasVersions n (e ∷ es) = (e.version ≡ n + 1) × HasVersions (n + 1) es

  HasVersions-append :
      (n : ℕ) (es : List (Event V)) (e : Event V)
      → HasVersions n es
      → e.version ≡ n + length es + 1
      → HasVersions n (es ++ e ∷ [])
  HasVersions-append n [] e h q = omega arith
  HasVersions-append n (x ∷ es) e h q = (h.0, HasVersions-append (n + 1) es e h.1 (omega arith))

  pub after_version-all :
      (v n : ℕ) (es : List (Event V)) → HasVersions n es → v ≤ n → after_version v es ≡ es
  after_version-all v n [] h le = refl
  after_version-all v n (e ∷ es) h le = ground (arith, after_version-all v (n + 1) es h.1)

  -- What lies behind version `v` of a stream that begins behind version `n`.
  after_version-rest :
      (v n : ℕ) (es : List (Event V))
      → HasVersions n es
      → n ≤ v
      → HasVersions v (after_version v es) × (length (after_version v es) ≡ n + length es - v)
  after_version-rest v n [] h le = (tt, omega arith)
  after_version-rest v n (e ∷ es) h le = elim (dec_lt n v) [
    | yes p ↦ ground (arith, after_version-rest v (n + 1) es h.1)
    | no p ↦ ground (arith, after_version-all v (n + 1) es h.1)
  ]

  abbrev SnapshotAt : ℕ → ℕ → Option (Snapshot V) → Type 0
  SnapshotAt k n none = n < k
  SnapshotAt k n (some s) = (s.version ≡ n - n % k) × (k ≤ n)

  -- The stream's versions run from 1 without a gap, and its snapshot is that of the last version
  -- that the interval divides.
  pub record IsSound (stream : String) (store : EventStore V) : Type 0 where
    pub versions : HasVersions 0 (lookup_or stream [] store.events)
    pub snapshot :
        SnapshotAt 5 (length (lookup_or stream [] store.events)) (lookup stream store.snapshots)
    pub interval : store.snapshot_interval ≡ 5

  step-IsSound :
      (stream other kind : String) (payload : V) (now later : ℕ) (store : EventStore V)
      → IsSound stream store
      → IsSound stream (append_event other kind payload now later store).0
  unfolding append_event
  step-IsSound stream other kind payload now later store h = grind (
    arith,
    h.versions,
    h.snapshot,
    h.interval,
    eq_iff other stream,
    lookup-insert,
    HasVersions-append,
    length-append {0},
  )

  pub run-IsSound :
      (stream : String) (cs : List (Call V)) (store : EventStore V)
      → IsSound stream store
      → IsSound stream (run cs store)
  unfolding run
  run-IsSound stream [] store h = h
  run-IsSound stream (c ∷ cs) store h =
      run-IsSound stream cs (append_event c.stream c.kind c.payload c.now c.later store).0
        (step-IsSound stream c.stream c.kind c.payload c.now c.later store h)

  pub new_store-IsSound : (stream : String) → IsSound stream (new_store V)
  unfolding lookup
  new_store-IsSound stream = record { versions = tt; snapshot = omega arith; interval = refl }

  -- The version from which the returned events go on: the snapshot's, or the one asked for.
  abbrev pub base : ℕ → Option (Snapshot V) → ℕ
  base from none = from
  base from (some s) = s.version

  HasVersions-rest :
      (v : ℕ) (es : List (Event V))
      → HasVersions 0 es
      → HasVersions v (after_version v es) × (length (after_version v es) ≡ length es - v)
  HasVersions-rest v es h =
      let rest = after_version-rest v 0 es h (omega arith) in (rest.0, omega (arith, rest.1))

  -- What `get_stream` promises of its result on a stream with these events.
  abbrev pub IsCompleteRead : ℕ → List (Event V) → List (Event V) × Option (Snapshot V) → Type 0
  IsCompleteRead from events (es, snap) =
      (es ≡ after_version (base from snap) events)
      × HasVersions (base from snap) es
      × (length es ≡ length events - base from snap)
      × (from ≤ base from snap)
      × (length es < 5)

  pub get_stream_sound :
      (stream : String) (from : ℕ) (store : EventStore V)
      → IsSound stream store
      → IsCompleteRead from (lookup_or stream [] store.events) (get_stream stream from store)
  unfolding get_stream
  get_stream_sound stream from store h =
      let events = lookup_or stream [] store.events in
      let rest = HasVersions-rest from events h.versions in
      elim (Option-cases (lookup stream store.snapshots)) [
        | inl e ↦ rw (e, get_stream) (ground (arith, e, h.snapshot, rest))
        | inr (s, e) ↦ elim (Bool-cases (ltb from s.version)) [
          | inl newer ↦
              rw (e, newer, get_stream)
                (ground (arith, e, h.snapshot, HasVersions-rest s.version events h.versions))
          | inr older ↦ rw (e, older, get_stream) (ground (arith, e, h.snapshot, rest))
        ]
      ]
