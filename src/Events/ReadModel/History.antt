-- ===== src/Events/ReadModel/History.antt =====
-- What the log shows once the read model has changed, as they share their maps.
use go_async_practice.Common.{
  ℕ, ◌+◌, ◌<◌, ◌≡◌, refl, ◌≢◌, Option, none, some, [], ◌∷◌, ◌++◌, String, arith, length, get_elem?,
  get_or, set, get_elem?-append, get_elem?-append_last, get_elem?-set_self, get_elem?-set_ne,
  get_elem?-some, get_or-get_elem?, ◌∙◌,
}
use go_async_practice.Common.Dict.{lookup, insert, lookup-insert, lookup-insert_self}
use go_async_practice.Events.ReadModel.{
  text, time, Fields, Event, System, merge, project_event, create_user, update_user, user_created,
}

-- A merge overwrites what the fields name, and leaves the rest.
pub lookup-merge :
    (k : String) (m fs : Fields)
    → lookup k (merge m fs) ≡ elim (lookup k fs) [ none ↦ lookup k m | some v ↦ some v ]
unfolding merge lookup
lookup-merge k m [] = refl
lookup-merge k m ((j, v) ∷ fs) =
    ground (arith, lookup-insert j k v (merge m fs), lookup-merge k m fs)

-- The data that event number `i` of the log (from 0) shows.
pub payload : ℕ → System → Option Fields
payload i s = elim (get_elem? s.store.events i) [
  | none ↦ none
  | some e ↦ get_elem? s.heap e.address
]

payload-event :
    (i : ℕ) (s : System) {e : Event} {f : Fields}
    → get_elem? s.store.events i ≡ some e
    → get_elem? s.heap e.address ≡ some f
    → payload i s ≡ some f
unfolding payload
payload-event i s p q = rw (p, payload) q

-- A user is created, and then updated by a map that was there before. From then on the event of the
-- creation, which stands in the log at the same place as before, shows the update's time, where it
-- showed none when it was appended.
pub update_rewrites_history :
    (user name email : String) (created named now address updated named' now' : ℕ) (s : System)
    → address < length s.heap
    → let s1 = create_user user name email created named now s in
      let s2 = update_user user address updated named' now' s1 in
      let i = length s.store.events in
      (before : Fields) × (after : Fields) × (payload i s1 ≡ some before)
      × (payload i s2 ≡ some after)
      × (lookup "updated_at" before ≡ none)
      × (lookup "updated_at" after ≡ some (time updated))
unfolding create_user update_user project_event lookup insert
update_rewrites_history user name email created named now address updated named' now' s old =
    let lit : Fields =
      ("name", text name) ∷ ("email", text email) ∷ ("created_at", time created) ∷ [] in
    let a = length s.heap in
    let heap1 = s.heap ++ lit ∷ [] in
    let (v, e0) = get_elem?-some s.heap address old in
    let x = insert "updated_at" (time updated) (get_or heap1 address []) in
    let heap2 = set heap1 address x in
    let ne : address ≢ a = omega arith in
    let e1 = get_elem?-append_last s.heap lit in
    let e3 = get_elem?-set_ne heap1 address a x ne ∙ e1 in
    let e4 = get_elem?-set_self heap1 address x (get_elem?-append s.heap (lit ∷ []) address e0) in
    let e5 = get_elem?-set_self heap2 a (merge (get_or heap2 a []) (get_or heap2 address [])) e3 in
    let s1 = create_user user name email created named now s in
    let s2 = update_user user address updated named' now' s1 in
    let a1 = length s.store.events in
    let event : Event = record {
      id = named;
      kind = user_created;
      aggregate_id = user;
      timestamp = now;
      version = s.store.version + 1;
      address = a;
    } in
    let logged = get_elem?-append_last s.store.events event in
    (
      lit,
      merge (get_or heap2 a []) (get_or heap2 address []),
      payload-event a1 s1 logged e1,
      payload-event a1 s2 (get_elem?-append (s.store.events ++ event ∷ []) _ a1 logged)
          (rw (lookup-insert_self user a s.read_model.users) e5),
      ground arith,
      rw (
        lookup-merge,
        get_or-get_elem? heap2 address [] e4,
        lookup-insert_self "updated_at" (time updated) (get_or heap1 address []),
      ),
    )
