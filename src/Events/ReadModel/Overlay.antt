-- ===== src/Events/ReadModel/Overlay.antt =====
-- What events write to the maps, and what a replay leaves in them.
use mathlib.Core.Path.{subst}
use go_async_practice.Common.{
  ◌⊎◌, ℕ, zero, suc, ◌<◌, ◌≡◌, ◌≢◌, refl, sym, ap, ◌∙◌, Bool, true, false, Option, none, some, List,
  [], ◌∷◌, String, arith, ◌==◌, if◌then◌else◌, length, length-set, get_or, set, All, All-weaken,
  lt→ltb, Option-cases, Bool-cases, inl, inr,
}
use go_async_practice.Common.Dict.{lookup, lookup-insert, lookup-erase}
use go_async_practice.Events.ReadModel.{
  Value, Event, EventType, user_created, user_updated, user_deleted, Fields, Model, merge,
  project_event, replay_from,
}
use go_async_practice.Events.ReadModel.History.{lookup-merge}
use go_async_practice.Events.ReadModel.Replay.{IsNumbered, project_event-model}

abbrev pub or_else : Option Value → Option Value → Option Value
or_else none before = before
or_else (some v) before = some v

pub or_else_assoc : (o p q : Option Value) → or_else o (or_else p q) ≡ or_else (or_else o p) q
or_else_assoc none p q = refl
or_else_assoc (some v) p q = refl

-- The value that an event writes under `k` to the map at `a`, where `payload` gives the map of the
-- event: an update of a user whose map this is writes what its own map has.
abbrev pub writes : (ℕ → Fields) → Event → Model → ℕ → String → Option Value
writes payload e m a k = elim e.kind [
  | user_created ↦ none
  | user_updated ↦ elim (lookup e.aggregate_id m.users) [
    | none ↦ none
    | some b ↦ if b == a then lookup k (payload e.address) else none
  ]
  | user_deleted ↦ none
]

-- The specification: the value that the last event to do so writes under `k` to the map at `a`.
abbrev pub last_written : (ℕ → Fields) → List Event → Model → ℕ → String → Option Value
last_written payload [] m a k = none
last_written payload (e ∷ es) m a k =
    or_else (last_written payload es (project_event e [] m).1 a k) (writes payload e m a k)

pub kind-cases :
    (kind : EventType) → (kind ≡ user_created) ⊎ ((kind ≡ user_updated) ⊎ (kind ≡ user_deleted))
kind-cases user_created = inl refl
kind-cases user_updated = inr (inl refl)
kind-cases user_deleted = inr (inr refl)

pub get_or-set :
    (heap : List Fields) (b a : ℕ) (v : Fields)
    → b < length heap
    → get_or (set heap b v) a [] ≡ (if b == a then v else get_or heap a [])
get_or-set [] b a v lt = absurd (omega (arith, lt))
get_or-set (x ∷ heap) zero zero v lt = refl
get_or-set (x ∷ heap) zero (suc a) v lt = ground arith
get_or-set (x ∷ heap) (suc b) zero v lt = ground arith
get_or-set (x ∷ heap) (suc b) (suc a) v lt =
    let rest = get_or-set heap b a v (omega (arith, lt)) in ground (arith, rest)

-- A user's map is there, and was made for a user.
abbrev pub Users : (ℕ → Bool) → List Fields → Model → Type 0
Users is_made heap m =
    (user : String) (b : ℕ) → lookup user m.users ≡ some b → (is_made b ≡ true) × (b < length heap)

-- The cells behind an event.
pub project_event-cell :
    (e : Event) (is_made : ℕ → Bool) (heap : List Fields) (m : Model) (a : ℕ) (k : String)
    → Users is_made heap m
    → lookup k (get_or (project_event e heap m).0 a [])
      ≡ or_else (writes (λ u. get_or heap u []) e m a k) (lookup k (get_or heap a []))
unfolding project_event
project_event-cell e is_made heap m a k users = elim (kind-cases e.kind) [
  | inl created ↦ ground (arith, created)
  | inr (inr deleted) ↦ ground (arith, deleted)
  | inr (inl updated) ↦ elim (Option-cases (lookup e.aggregate_id m.users)) [
    | inl absent ↦ ground (arith, updated, absent)
    | inr (b, there) ↦
        let merged = merge (get_or heap b []) (get_or heap e.address []) in
        let cell = get_or-set heap b a merged (users e.aggregate_id b there).1 in
        let fields = lookup-merge k (get_or heap b []) (get_or heap e.address []) in
        elim (Bool-cases (b == a)) [
          | inr other ↦ ground (arith, updated, there, cell, other)
          | inl same ↦
              let at : b ≡ a = ground (arith, same) in
              ground (
                arith,
                updated,
                there,
                cell,
                same,
                fields,
                ap (λ x. lookup k (get_or heap x [])) at,
              )
        ]
  ]
]

-- Other maps are left alone, and none is added.
pub project_event-frame :
    (e : Event) (is_made : ℕ → Bool) (heap : List Fields) (m : Model)
    → Users is_made heap m
    → (length (project_event e heap m).0 ≡ length heap)
      × ((u : ℕ) → is_made u ≡ false → get_or (project_event e heap m).0 u [] ≡ get_or heap u [])
unfolding project_event
project_event-frame e is_made heap m users = elim (kind-cases e.kind) [
  | inl created ↦ (ground (arith, created), λ u free. ground (arith, created))
  | inr (inr deleted) ↦ (ground (arith, deleted), λ u free. ground (arith, deleted))
  | inr (inl updated) ↦ elim (Option-cases (lookup e.aggregate_id m.users)) [
    | inl absent ↦ (ground (arith, updated, absent), λ u free. ground (arith, updated, absent))
    | inr (b, there) ↦
        let merged = merge (get_or heap b []) (get_or heap e.address []) in
        let own = users e.aggregate_id b there in
        (
          ground (arith, updated, there, length-set heap b merged),
          λ u free.
              let ne : b ≢ u = λ at. absurd (ground (arith, ap is_made at, own.0, free)) in
              let apart : (b == u) ≡ false = ground (arith, ne) in
              ground (arith, updated, there, get_or-set heap b u merged own.1, apart),
        )
  ]
]

-- What a replay needs of an event: a user's map is there, and that of an update is no user's and has
-- what `payload` says.
pub record Fits (payload : ℕ → Fields) (is_made : ℕ → Bool) (heap : List Fields) (e : Event)
    : Type 0 where
  pub made : e.kind ≡ user_created → (is_made e.address ≡ true) × (e.address < length heap)
  pub read :
      e.kind ≡ user_updated
      → (is_made e.address ≡ false) × (get_or heap e.address [] ≡ payload e.address)

pub project_event-Users :
    (e : Event) (payload : ℕ → Fields) (is_made : ℕ → Bool) (heap : List Fields) (m : Model)
    → Fits payload is_made heap e
    → Users is_made heap m
    → Users is_made (project_event e heap m).0 (project_event e heap m).1
unfolding project_event
project_event-Users e payload is_made heap m fits users user b found = elim (kind-cases e.kind) [
  | inl created ↦
      let own = fits.made created in
      ground (
        arith,
        created,
        found,
        own,
        users user b,
        lookup-insert e.aggregate_id user e.address m.users,
      )
  | inr (inr deleted) ↦
      ground (arith, deleted, found, users user b, lookup-erase e.aggregate_id user m.users)
  | inr (inl updated) ↦
      let size = (project_event-frame e is_made heap m users).0 in
      elim (Option-cases (lookup e.aggregate_id m.users)) [
        | inl absent ↦ ground (arith, updated, absent, found, users user b)
        | inr (x, there) ↦
            let merged = merge (get_or heap x []) (get_or heap e.address []) in
            ground (arith, updated, there, found, users user b, length-set heap x merged)
      ]
]

writes-payload :
    (payload : ℕ → Fields) (is_made : ℕ → Bool) (heap : List Fields) (e : Event) (m : Model) (a : ℕ)
    (k : String)
    → Fits payload is_made heap e
    → writes (λ u. get_or heap u []) e m a k ≡ writes payload e m a k
writes-payload payload is_made heap e m a k fits = elim (kind-cases e.kind) [
  | inl created ↦ ground (arith, created)
  | inr (inr deleted) ↦ ground (arith, deleted)
  | inr (inl updated) ↦
      let same = (fits.read updated).1 in
      elim (Option-cases (lookup e.aggregate_id m.users)) [
        | inl absent ↦ ground (arith, updated, absent)
        | inr (b, there) ↦ ground (arith, updated, there, ap (λ f. lookup k f) same)
      ]
]

-- Behind a replay a map has what was written to it last, and else what it had.
pub replay_from-cell :
    (payload : ℕ → Fields) (is_made : ℕ → Bool) (es : List Event) (heap : List Fields) (m : Model)
    (a : ℕ) (k : String)
    → All IsNumbered es
    → All (Fits payload is_made heap) es
    → Users is_made heap m
    → lookup k (get_or (replay_from 0 es heap m).0 a [])
      ≡ or_else (last_written payload es m a k) (lookup k (get_or heap a []))
unfolding replay_from
replay_from-cell payload is_made [] heap m a k numbered fits users = refl
replay_from-cell payload is_made (e ∷ es) heap m a k (counted, numbered) (own, fits) users =
    let frame = project_event-frame e is_made heap m users in
    let heap' = (project_event e heap m).0 in
    let fits' =
      All-weaken (Fits payload is_made heap) (Fits payload is_made heap') es
        (λ x f. record {
          made =
              λ kind. ((f.made kind).0, subst (λ n. x.address < n) (sym frame.0) (f.made kind).1);
          read = λ kind. ((f.read kind).0, frame.1 x.address (f.read kind).0 ∙ (f.read kind).1);
        })
        fits in
    let rest =
      replay_from-cell payload is_made es heap' (project_event e heap m).1 a k numbered fits'
        (project_event-Users e payload is_made heap m own users) in
    rw (lt→ltb 0 e.version counted, replay_from)
      (rest
        ∙ ap (λ x. or_else (last_written payload es x a k) (lookup k (get_or heap' a [])))
            (project_event-model e heap m)
        ∙ ap (λ o. or_else (last_written payload es (project_event e [] m).1 a k) o)
            (project_event-cell e is_made heap m a k users
              ∙ ap (λ o. or_else o (lookup k (get_or heap a [])))
                  (writes-payload payload is_made heap e m a k own))
        ∙ or_else_assoc (last_written payload es (project_event e [] m).1 a k)
            (writes payload e m a k) (lookup k (get_or heap a [])))
