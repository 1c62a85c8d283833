-- ===== src/Events/ReadModel/Writes.antt =====
-- What commands have written stays written.
use go_async_practice.Common.{
  ◌⊎◌, ℕ, ◌<◌, ◌≡◌, ◌≢◌, refl, sym, ap, ◌∙◌, Bool, true, false, ◌||◌, Option, none, some, List, [],
  ◌∷◌, ◌++◌, String, arith, ◌==◌, length, get_or, All, Option-cases, Bool-cases, inl, inr,
}
use go_async_practice.Common.Dict.{lookup}
use go_async_practice.Events.ReadModel.{
  Value, Event, user_created, user_updated, user_deleted, Fields, Model, project_event, no_users,
}
use go_async_practice.Events.ReadModel.Replay.{folded}
use go_async_practice.Events.ReadModel.Overlay.{
  or_else_assoc, or_else, writes, last_written, kind-cases, Users, Fits,
}

-- Whether an event of the log has made the map at `a` a user's.
abbrev pub made : List Event → ℕ → Bool
made [] a = false
made (e ∷ es) a = elim e.kind [
  | user_created ↦ (e.address == a) || made es a
  | user_updated ↦ made es a
  | user_deleted ↦ made es a
]

pub made-append :
    (es : List Event) (e : Event) (a : ℕ) → made (es ++ e ∷ []) a ≡ (made es a || made (e ∷ []) a)
made-append [] e a = refl
made-append (x ∷ es) e a = elim (kind-cases x.kind) [
  | inl created ↦ ground (arith, created, made-append es e a)
  | inr (inl updated) ↦ ground (arith, updated, made-append es e a)
  | inr (inr deleted) ↦ ground (arith, deleted, made-append es e a)
]

-- A map that is in no event is no user's.
pub made_nowhere : (es : List Event) (a : ℕ) → All (λ e. e.address ≢ a) es → made es a ≡ false
made_nowhere [] a all = refl
made_nowhere (e ∷ es) a (ne, all) =
    let apart : (e.address == a) ≡ false = ground (arith, ne) in
    elim (kind-cases e.kind) [
      | inl created ↦ ground (arith, created, apart, made_nowhere es a all)
      | inr (inl updated) ↦ ground (arith, updated, made_nowhere es a all)
      | inr (inr deleted) ↦ ground (arith, deleted, made_nowhere es a all)
    ]

pub last_written-append :
    (payload : ℕ → Fields) (es : List Event) (e : Event) (m : Model) (a : ℕ) (k : String)
    → last_written payload (es ++ e ∷ []) m a k
      ≡ or_else (writes payload e (folded es m) a k) (last_written payload es m a k)
unfolding folded
last_written-append payload [] e m a k = or_else_none (writes payload e m a k)
  where
    or_else_none : (o : Option Value) → or_else none o ≡ or_else o none
    or_else_none none = refl
    or_else_none (some v) = refl
last_written-append payload (x ∷ es) e m a k =
    ap (λ o. or_else o (writes payload x m a k))
      (last_written-append payload es e (project_event x [] m).1 a k)
    ∙ sym (
        or_else_assoc (writes payload e (folded es (project_event x [] m).1) a k)
          (last_written payload es (project_event x [] m).1 a k) (writes payload x m a k))

-- The maps of updates are the same in both.
abbrev pub Same : (ℕ → Fields) → (ℕ → Fields) → Event → Type 0
Same f g e = e.kind ≡ user_updated → f e.address ≡ g e.address

pub writes-Same :
    (f g : ℕ → Fields) (e : Event) (m : Model) (a : ℕ) (k : String)
    → Same f g e
    → writes f e m a k ≡ writes g e m a k
writes-Same f g e m a k same = elim (kind-cases e.kind) [
  | inl created ↦ ground (arith, created)
  | inr (inr deleted) ↦ ground (arith, deleted)
  | inr (inl updated) ↦ elim (Option-cases (lookup e.aggregate_id m.users)) [
    | inl absent ↦ ground (arith, updated, absent)
    | inr (b, there) ↦ ground (arith, updated, there, ap (λ x. lookup k x) (same updated))
  ]
]

pub last_written-Same :
    (f g : ℕ → Fields) (es : List Event) (m : Model) (a : ℕ) (k : String)
    → All (Same f g) es
    → last_written f es m a k ≡ last_written g es m a k
last_written-Same f g [] m a k all = refl
last_written-Same f g (e ∷ es) m a k (here, all) =
    let m' = (project_event e [] m).1 in
    ap (λ o. or_else o (writes f e m a k)) (last_written-Same f g es m' a k all)
    ∙ ap (λ o. or_else (last_written g es m' a k) o) (writes-Same f g e m a k here)

abbrev pub content : List Fields → ℕ → Fields
content heap u = get_or heap u []

-- The log, the heap and the read model of a system, and that all that was written is there.
pub record Kept (heap : List Fields) (log : List Event) (m : Model) : Type 0 where
  pub fits : All (Fits (content heap) (made log) heap) log
  pub inside : All (λ e. e.address < length heap) log
  pub users : Users (made log) heap m
  pub written :
      (a : ℕ) (k : String) (v : Value)
      → last_written (content heap) log no_users a k ≡ some v
      → (made log a ≡ true) × (lookup k (get_or heap a []) ≡ some v)

pub or_else-cases :
    (o p : Option Value) (v : Value)
    → or_else o p ≡ some v
    → (o ≡ some v) ⊎ ((o ≡ none) × (p ≡ some v))
or_else-cases none p v e = inr (refl, e)
or_else-cases (some w) p v e = inl e

-- What an update writes goes to the map of a user.
pub writes-made :
    (payload : ℕ → Fields) (is_made : ℕ → Bool) (heap : List Fields) (e : Event) (m : Model) (a : ℕ)
    (k : String) (v : Value)
    → Users is_made heap m
    → writes payload e m a k ≡ some v
    → is_made a ≡ true
writes-made payload is_made heap e m a k v users w = elim (kind-cases e.kind) [
  | inl created ↦ absurd (ground (arith, created, w))
  | inr (inr deleted) ↦ absurd (ground (arith, deleted, w))
  | inr (inl updated) ↦ elim (Option-cases (lookup e.aggregate_id m.users)) [
    | inl absent ↦ absurd (ground (arith, updated, absent, w))
    | inr (b, there) ↦ elim (Bool-cases (b == a)) [
      | inr other ↦ absurd (ground (arith, updated, there, other, w))
      | inl same ↦
          let at : b ≡ a = ground (arith, same) in
          ap is_made (sym at) ∙ (users e.aggregate_id b there).0
    ]
  ]
]
