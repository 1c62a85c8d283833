-- ===== src/Streams/Checkpoint/Replay.antt =====
-- What a replay behind a recovery leaves.
use native.Mathlib.Nat.{mod-add-mod, mod-mod}
use go_async_practice.Common.{
  ℕ, ◌+◌, ◌%◌, ◌^◌, ◌≡◌, refl, sym, ap, ◌∙◌, String, Bool, true, false, ◌||◌, List, [], ◌∷◌, ◌++◌,
  Option, none, some, arith, ◌==◌, if◌then◌else◌, All, str_eq, eq_iff, eq_refl, Bool-cases, inl,
  inr,
}
use go_async_practice.Common.Dict.{Dict, lookup, insert, lookup-insert}
use go_async_practice.Common.Table.{Table, find, put, find-put}
use go_async_practice.Streams.Checkpoint.{
  StreamEvent, CheckpointManager, new_manager, window_of, is_processed, state_of, add_value,
  process_event, create_checkpoint, recover_from_checkpoint,
}

unfoldable pub process_all : List StreamEvent → CheckpointManager → CheckpointManager
process_all [] m = m
process_all (e ∷ es) m = process_all es (process_event e m).0

-- What of a state decides how events are processed.
abbrev pub Core : Type 0
Core = ℕ × Dict Bool × Table ℕ

abbrev pub core : CheckpointManager → Core
core m = (m.current.offset, m.current.processed_ids, m.current.window_states)

core_step : StreamEvent → Core → Core
core_step e (offset, ids, states) =
    if is_processed e.id ids
    then (offset, ids, states)
    else (e.offset, insert e.id true ids, add_value (window_of e.timestamp) e.payload states)

core_run : List StreamEvent → Core → Core
unfolding core_step
core_run [] c = c
core_run (e ∷ es) c = core_run es (core_step e c)

core-process_event :
    (e : StreamEvent) (m : CheckpointManager) → core (process_event e m).0 ≡ core_step e (core m)
unfolding process_event core_step
core-process_event e m = ground arith

core-process_all :
    (es : List StreamEvent) (m : CheckpointManager) → core (process_all es m) ≡ core_run es (core m)
unfolding process_all core_run
core-process_all [] m = refl
core-process_all (e ∷ es) m =
    core-process_all es (process_event e m).0 ∙ ap (λ c. core_run es c) (core-process_event e m)

core_run-append :
    (es fs : List StreamEvent) (c : Core) → core_run (es ++ fs) c ≡ core_run fs (core_run es c)
unfolding core_run
core_run-append [] fs c = refl
core_run-append (e ∷ es) fs c = core_run-append es fs (core_step e c)

core_step-keeps :
    (e : StreamEvent) (id : String) (c : Core)
    → is_processed id c.1 ≡ true
    → is_processed id (core_step e c).1 ≡ true
unfolding core_step
core_step-keeps e id c done = ground (arith, done, eq_iff e.id id, lookup-insert e.id id true c.1)

core_step-own : (e : StreamEvent) (c : Core) → is_processed e.id (core_step e c).1 ≡ true
unfolding core_step
core_step-own e c = ground (arith, eq_refl e.id, lookup-insert e.id e.id true c.1)

core_run-keeps :
    (es : List StreamEvent) (id : String) (c : Core)
    → is_processed id c.1 ≡ true
    → is_processed id (core_run es c).1 ≡ true
unfolding core_run
core_run-keeps [] id c done = done
core_run-keeps (e ∷ es) id c done =
    core_run-keeps es id (core_step e c) (core_step-keeps e id c done)

core_run-own :
    (es : List StreamEvent) (c : Core) → All (λ e. is_processed e.id (core_run es c).1 ≡ true) es
unfolding core_run
core_run-own [] c = tt
core_run-own (e ∷ es) c =
    (core_run-keeps es e.id (core_step e c) (core_step-own e c), core_run-own es (core_step e c))

-- Events that were all processed change nothing.
core_run-again :
    (es : List StreamEvent) (c : Core)
    → All (λ e. is_processed e.id c.1 ≡ true) es
    → core_run es c ≡ c
unfolding core_run core_step
core_run-again [] c all = refl
core_run-again (e ∷ es) c (done, all) = rw done (core_run-again es c all)

abbrev pub is_seen : String → List String → Bool
is_seen id [] = false
is_seen id (s ∷ seen) = str_eq s id || is_seen id seen

abbrev pub payload_or_zero : Option ℕ → ℕ
payload_or_zero none = 0
payload_or_zero (some value) = value

-- What an event adds to a window.
abbrev pub amount : ℕ → StreamEvent → ℕ
amount window e = if window_of e.timestamp == window then payload_or_zero e.payload else 0

-- The specification: the sum of the values of a window, each ID counted where it first comes.
abbrev pub total : ℕ → List String → List StreamEvent → ℕ
total window seen [] = 0
total window seen (e ∷ es) =
    if is_seen e.id seen
    then total window seen es
    else amount window e + total window (e.id ∷ seen) es

-- A state whose IDs are those seen, with a sum in 64 bits.
record Counted (window : ℕ) (seen : List String) (c : Core) : Type 0 where
  ids : (id : String) → is_processed id c.1 ≡ is_seen id seen
  within : state_of window c.2 % 2 ^ 64 ≡ state_of window c.2

state_of-add_value :
    (window key : ℕ) (payload : Option ℕ) (states : Table ℕ)
    → state_of window states % 2 ^ 64 ≡ state_of window states
    → state_of window (add_value key payload states)
      ≡ (state_of window states + (if key == window then payload_or_zero payload else 0)) % 2 ^ 64
unfolding add_value
state_of-add_value window key none states within = sym within ∙ ap (λ n. n % 2 ^ 64) (ground arith)
state_of-add_value window key (some value) states within =
    let written = find-put key window ((state_of key states + value) % 2 ^ 64) states in
    elim (Bool-cases (key == window)) [
      | inl here ↦
          let same : key ≡ window = ground (arith, here) in
          rw here (ground (arith, written, here, same))
      | inr elsewhere ↦
          let kept : state_of window (put key ((state_of key states + value) % 2 ^ 64) states)
              ≡ state_of window states =
            ground (arith, written, elsewhere) in
          rw elsewhere (kept ∙ sym within ∙ ap (λ n. n % 2 ^ 64) (omega arith))
    ]

core_step_old : (e : StreamEvent) (c : Core) → is_processed e.id c.1 ≡ true → core_step e c ≡ c
unfolding core_step
core_step_old e c done = rw done refl

core_step_new :
    (e : StreamEvent) (c : Core)
    → is_processed e.id c.1 ≡ false
    → core_step e c
      ≡ (e.offset, insert e.id true c.1, add_value (window_of e.timestamp) e.payload c.2)
unfolding core_step
core_step_new e c new = rw new refl

core_step-Counted :
    (window : ℕ) (e : StreamEvent) (seen : List String) (c : Core)
    → Counted window seen c
    → is_seen e.id seen ≡ false
    → Counted window (e.id ∷ seen) (core_step e c)
      × (state_of window (core_step e c).2 ≡ (state_of window c.2 + amount window e) % 2 ^ 64)
core_step-Counted window e seen c k new =
    let added = state_of-add_value window (window_of e.timestamp) e.payload c.2 k.within in
    rw (core_step_new e c (k.ids e.id ∙ new)) (
      record {
        ids = λ id. ground (arith, k.ids id, lookup-insert e.id id true c.1);
        within =
            ap (λ n. n % 2 ^ 64) added
            ∙ mod-mod (state_of window c.2 + amount window e) (2 ^ 64)
            ∙ sym added;
      },
      added,
    )

core_run-total :
    (window : ℕ) (es : List StreamEvent) (seen : List String) (c : Core)
    → Counted window seen c
    → state_of window (core_run es c).2 ≡ (state_of window c.2 + total window seen es) % 2 ^ 64
unfolding core_run
core_run-total window [] seen c k = sym k.within ∙ ap (λ n. n % 2 ^ 64) (omega arith)
core_run-total window (e ∷ es) seen c k = elim (Bool-cases (is_seen e.id seen)) [
  | inl old ↦ rw old (
      ap (λ d. state_of window (core_run es d).2) (core_step_old e c (k.ids e.id ∙ old))
      ∙ core_run-total window es seen c k)
  | inr new ↦
      let (k', added) = core_step-Counted window e seen c k new in
      let more = total window (e.id ∷ seen) es in
      rw new (
        core_run-total window es (e.id ∷ seen) (core_step e c) k'
        ∙ ap (λ n. (n + more) % 2 ^ 64) added
        ∙ mod-add-mod (state_of window c.2 + amount window e) (2 ^ 64) more
        ∙ ap (λ n. n % 2 ^ 64) (omega arith))
]

-- From an empty state events are processed, a checkpoint is made, and other events are processed. Then
-- a failure: the state is recovered from the checkpoint, and the stream is processed again from its
-- beginning and beyond the checkpoint. Then every window has the sum of its values, in 64 bits, with
-- each ID counted once, and the offset and the IDs are those of a run without the failure.
pub recovery_counts_once :
    (before after lost : List StreamEvent) (now window : ℕ)
    → let at = create_checkpoint now (process_all before new_manager) in
      let recovered = recover_from_checkpoint at.1 (process_all lost at.0) in
      let replayed = process_all (before ++ after) recovered in
      (state_of window replayed.current.window_states ≡ total window [] (before ++ after) % 2 ^ 64)
      × (core replayed ≡ core (process_all (before ++ after) new_manager))
unfolding create_checkpoint recover_from_checkpoint new_manager find lookup
recovery_counts_once before after lost now window =
    let m = process_all before new_manager in
    let at = create_checkpoint now m in
    let recovered = recover_from_checkpoint at.1 (process_all lost at.0) in
    let start = core new_manager in
    let reached : core m ≡ core_run before start = core-process_all before new_manager in
    let again : core_run before (core_run before start) ≡ core_run before start =
      core_run-again before (core_run before start) (core_run-own before start) in
    let same : core (process_all (before ++ after) recovered) ≡ core_run (before ++ after) start =
      core-process_all (before ++ after) recovered
      ∙ core_run-append before after (core m)
      ∙ ap (λ c. core_run after (core_run before c)) reached
      ∙ ap (λ c. core_run after c) again
      ∙ sym (core_run-append before after start) in
    (
      ap (λ c. state_of window c.2) same
          ∙ core_run-total window (before ++ after) [] start
              (record { ids = λ id. refl; within = refl })
          ∙ ap (λ n. n % 2 ^ 64) (omega arith),
      same ∙ sym (core-process_all (before ++ after) new_manager),
    )
