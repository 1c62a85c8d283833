-- ===== src/Events/ReadModel/Changes.antt =====
-- What the steps of commands do to the maps.
use go_async_practice.Common.{
  ℕ, zero, suc, ◌<◌, ◌≡◌, ◌≢◌, refl, sym, ap, ◌∙◌, true, false, ◌||◌, none, some, List, [], ◌∷◌,
  ◌++◌, String, arith, ◌==◌, length, length-append, length-set, get_or, set, All, All-weaken,
  All-append, inl, inr,
}
use go_async_practice.Common.Dict.{lookup, lookup-insert}
use go_async_practice.Events.ReadModel.{
  Value, Event, user_created, user_updated, Fields, Model, project_event, no_users,
}
use go_async_practice.Events.ReadModel.Replay.{folded}
use go_async_practice.Events.ReadModel.Overlay.{
  or_else, writes, last_written, get_or-set, project_event-cell, project_event-frame, Fits,
  project_event-Users,
}
use go_async_practice.Events.ReadModel.Writes.{
  made, made-append, made_nowhere, last_written-append, Same, writes-Same, last_written-Same,
  content, Kept, or_else-cases, writes-made,
}

lookup-content_grow :
    (heap : List Fields) (x : Fields) (a : ℕ) (k : String) (v : Value)
    → lookup k (get_or heap a []) ≡ some v
    → lookup k (get_or (heap ++ x ∷ []) a []) ≡ some v
unfolding lookup
lookup-content_grow [] x a k v e = absurd cc
lookup-content_grow (y ∷ heap) x zero k v e = e
lookup-content_grow (y ∷ heap) x (suc a) k v e = lookup-content_grow heap x a k v e

content-grow :
    (heap : List Fields) (x : Fields) (a : ℕ)
    → a < length heap
    → get_or (heap ++ x ∷ []) a [] ≡ get_or heap a []
content-grow [] x a lt = absurd (omega (arith, lt))
content-grow (y ∷ heap) x zero lt = refl
content-grow (y ∷ heap) x (suc a) lt = content-grow heap x a (omega (arith, lt))

All-both : (Q R : Event → Type 0) (es : List Event) → All Q es → All R es → All (λ e. Q e × R e) es
All-both Q R [] q r = tt
All-both Q R (e ∷ es) (q, qs) (r, rs) = ((q, r), All-both Q R es qs rs)

-- A map is added.
pub grown-Kept :
    (heap : List Fields) (x : Fields) (log : List Event) (m : Model)
    → Kept heap log m
    → Kept (heap ++ x ∷ []) log m
grown-Kept heap x log m h =
    let size = length-append heap (x ∷ []) in
    record {
      fits =
          All-weaken (Fits (content heap) (made log) heap)
            (Fits (content (heap ++ x ∷ [])) (made log) (heap ++ x ∷ [])) log
            (λ e f. record {
              made = λ kind. ((f.made kind).0, omega (arith, (f.made kind).1, size));
              read = λ kind. ((f.read kind).0, refl);
            })
            h.fits;
      inside =
          All-weaken (λ e. e.address < length heap) (λ e. e.address < length (heap ++ x ∷ [])) log
            (λ e lt. omega (arith, lt, size)) h.inside;
      users =
          λ user b found. ((h.users user b found).0, omega (arith, (h.users user b found).1, size));
      written = λ a k v e.
          let same = last_written-Same (content (heap ++ x ∷ [])) (content heap) log no_users a k (
            All-weaken (λ e. e.address < length heap)
              (Same (content (heap ++ x ∷ [])) (content heap)) log
              (λ e lt kind. content-grow heap x e.address lt) h.inside) in
          let old = h.written a k v (sym same ∙ e) in
          (old.0, lookup-content_grow heap x a k v old.1);
    }

-- The user of the last map that was added is created.
pub created-Kept :
    (heap : List Fields) (x : Fields) (log : List Event) (m : Model) (e : Event)
    → e.kind ≡ user_created
    → e.address ≡ length heap
    → m ≡ folded log no_users
    → All (λ e. e.address < length heap) log
    → Kept (heap ++ x ∷ []) log m
    → Kept (heap ++ x ∷ []) (log ++ e ∷ []) (project_event e (heap ++ x ∷ []) m).1
unfolding project_event
created-Kept heap x log m e kind at is before h =
    let heap' = heap ++ x ∷ [] in
    let size = length-append heap (x ∷ []) in
    let own : made (e ∷ []) e.address ≡ true = ground (arith, kind) in
    let made' : (a : ℕ) → made (log ++ e ∷ []) a ≡ (made log a || made (e ∷ []) a) =
      made-append log e in
    let older : (a : ℕ) → made log a ≡ true → made (log ++ e ∷ []) a ≡ true =
      λ a old. ground (arith, made' a, old) in
    record {
      fits =
          All-append (Fits (content heap') (made (log ++ e ∷ [])) heap') log (e ∷ [])
            (All-weaken (λ e. Fits (content heap') (made log) heap' e × (e.address < length heap))
              (Fits (content heap') (made (log ++ e ∷ [])) heap') log
              (λ y (f, lt). record {
                made = λ kd. (older y.address (f.made kd).0, (f.made kd).1);
                read = λ kd.
                    let apart : made (e ∷ []) y.address ≡ false = ground (arith, kind, at, lt) in
                    (ground (arith, made' y.address, apart, (f.read kd).0), refl);
              })
              (All-both (Fits (content heap') (made log) heap') (λ e. e.address < length heap) log
                h.fits before))
            (
              record {
                made = λ kd. (ground (arith, made' e.address, own), omega (arith, at, size));
                read = λ kd. absurd (ground (arith, kind, kd));
              },
              tt,
            );
      inside =
          All-append (λ e. e.address < length heap') log (e ∷ []) h.inside
            (omega (arith, at, size), tt);
      users = λ user b found.
          let entry = lookup-insert e.aggregate_id user e.address m.users in
          let new : made (log ++ e ∷ []) e.address ≡ true = ground (arith, made' e.address, own) in
          let room : e.address < length heap' = omega (arith, at, size) in
          ground (arith, kind, found, entry, new, room, h.users user b, older b);
      written = λ a k v w.
          let none_more : writes (content heap') e (folded log no_users) a k ≡ none =
            ground (arith, kind) in
          let same = last_written-append (content heap') log e no_users a k in
          let old = h.written a k v (rw none_more at (sym same) ∙ w) in (older a old.0, old.1);
    }

-- The map of an update, which is in no event yet, is changed.
pub changed-Kept :
    (heap : List Fields) (u : ℕ) (x : Fields) (log : List Event) (m : Model)
    → u < length heap
    → All (λ e. e.address ≢ u) log
    → Kept heap log m
    → Kept (set heap u x) log m
changed-Kept heap u x log m lt fresh h =
    let heap' = set heap u x in
    let size = length-set heap u x in
    let free = made_nowhere log u fresh in
    let elsewhere : (a : ℕ) → u ≢ a → get_or heap' a [] ≡ get_or heap a [] = λ a ne.
      let apart : (u == a) ≡ false = ground (arith, ne) in
      get_or-set heap u a x lt ∙ rw apart refl in
    record {
      fits =
          All-weaken (Fits (content heap) (made log) heap) (Fits (content heap') (made log) heap')
            log
            (λ e f. record {
              made = λ kind. ((f.made kind).0, omega (arith, (f.made kind).1, size));
              read = λ kind. ((f.read kind).0, refl);
            })
            h.fits;
      inside =
          All-weaken (λ e. e.address < length heap) (λ e. e.address < length heap') log
            (λ e below. omega (arith, below, size)) h.inside;
      users =
          λ user b found. ((h.users user b found).0, omega (arith, (h.users user b found).1, size));
      written = λ a k v e.
          let same = last_written-Same (content heap') (content heap) log no_users a k (
            All-weaken (λ e. e.address ≢ u) (Same (content heap') (content heap)) log
              (λ e ne kind. elsewhere e.address (λ at. ne (sym at))) fresh) in
          let old = h.written a k v (sym same ∙ e) in
          let ne : u ≢ a = λ at. absurd (ground (arith, ap (made log) at, old.0, free)) in
          (old.0, ap (λ f. lookup k f) (elsewhere a ne) ∙ old.1);
    }

-- A user is updated by a map that is in no event yet.
pub updated-Kept :
    (heap : List Fields) (log : List Event) (m : Model) (e : Event)
    → e.kind ≡ user_updated
    → m ≡ folded log no_users
    → e.address < length heap
    → All (λ x. x.address ≢ e.address) log
    → Kept heap log m
    → Kept (project_event e heap m).0 (log ++ e ∷ []) (project_event e heap m).1
updated-Kept heap log m e kind is lt fresh h =
    let heap' = (project_event e heap m).0 in
    let frame = project_event-frame e (made log) heap m h.users in
    let free : made log e.address ≡ false = made_nowhere log e.address fresh in
    let made' : (a : ℕ) → made (log ++ e ∷ []) a ≡ made log a =
      λ a. let both = made-append log e a in ground (arith, both, kind) in
    let own : Fits (content heap) (made log) heap e = record {
      made = λ kd. absurd (ground (arith, kind, kd));
      read = λ kd. (free, refl);
    } in
    let users = project_event-Users e (content heap) (made log) heap m own h.users in
    let unread : (f : Event)
        → Fits (content heap) (made log) heap f
        → Same (content heap') (content heap) f =
      λ f fits kd. frame.1 f.address (fits.read kd).0 in
    record {
      fits =
          All-append (Fits (content heap') (made (log ++ e ∷ [])) heap') log (e ∷ [])
            (All-weaken (Fits (content heap) (made log) heap)
              (Fits (content heap') (made (log ++ e ∷ [])) heap') log
              (λ y f. record {
                made =
                    λ kd. (made' y.address ∙ (f.made kd).0, omega (arith, frame.0, (f.made kd).1));
                read = λ kd. (made' y.address ∙ (f.read kd).0, refl);
              })
              h.fits)
            (
              record {
                made = λ kd. absurd (ground (arith, kind, kd));
                read = λ kd. (made' e.address ∙ free, refl);
              },
              tt,
            );
      inside =
          All-append (λ e. e.address < length heap') log (e ∷ [])
            (All-weaken (λ e. e.address < length heap) (λ e. e.address < length heap') log
              (λ y below. omega (arith, below, frame.0)) h.inside)
            (omega (arith, lt, frame.0), tt);
      users = λ user b found. (made' b ∙ (users user b found).0, (users user b found).1);
      written = λ a k v w.
          let split : last_written (content heap') (log ++ e ∷ []) no_users a k
              ≡ or_else (writes (content heap) e m a k)
                  (last_written (content heap) log no_users a k) =
            last_written-append (content heap') log e no_users a k
            ∙ ap
                (λ x.
                  or_else (writes (content heap') e x a k)
                    (last_written (content heap') log no_users a k))
                (sym is)
            ∙ ap (λ o. or_else o (last_written (content heap') log no_users a k))
                (writes-Same (content heap') (content heap) e m a k (unread e own))
            ∙ ap (λ o. or_else (writes (content heap) e m a k) o)
                (last_written-Same (content heap') (content heap) log no_users a k (
                  All-weaken (Fits (content heap) (made log) heap)
                    (Same (content heap') (content heap)) log unread h.fits)) in
          let cell = project_event-cell e (made log) heap m a k h.users in
          elim (or_else-cases (writes (content heap) e m a k)
            (last_written (content heap) log no_users a k) v (sym split ∙ w)) [
              | inl now ↦ (
                made' a ∙ writes-made (content heap) (made log) heap e m a k v h.users now,
                cell ∙ rw now refl,
              )
              | inr (not_now, before) ↦
                  let old = h.written a k v before in (made' a ∙ old.0, cell ∙ rw not_now old.1)
            ];
    }
