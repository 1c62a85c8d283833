-- ===== src/Messages/Consumer/Delivery.antt =====
-- Which messages a consumer group has dealt with.
use mathlib.Core.Path.{subst}
use go_async_practice.Common.{
  ◌⊎◌, ℕ, ◌+◌, ◌≤◌, ◌<◌, ◌≡◌, ◌≢◌, refl, sym, ap, ◌∙◌, String, Bool, true, List, [], ◌∷◌, none,
  some, arith, leb, if◌then◌else◌, keep, length, get_elem?, str_eq, eq_iff, eq_refl, Bool-cases,
  Option-cases, inl, inr,
}
use go_async_practice.Common.Dict.{Dict, lookup}
use go_async_practice.Common.Table.{find}
use go_async_practice.Messages.Bus.{Message, Partition, TopicConfig, Topic, create_topic, send}
use go_async_practice.Messages.Bus.Logs.{IsWhole, Logged, create_topic-Logged, send-Logged}
use go_async_practice.Messages.Consumer.{Consumption, last_offset, process_all, consume_partition}
use go_async_practice.Messages.Consumer.Attempts.{dealt_with}
use go_async_practice.Messages.Consumer.Rounds.{
  Processed, dealt_with-kept, process_all-Processed, keep-IsLog,
}

-- What clients do with the bus.
pub data Call (B : Type 0) : Type 0 where
  creates : (name : String) (config : TopicConfig) → Call B
  sends : (topic key : String) (value : B) (headers : Dict String) (now : ℕ) → Call B
  consumes : (group topic : String) (partition : ℕ) (succeeds : Message B → ℕ → Bool) → Call B

pub record World (B : Type 0) : Type 0 where
  pub topics : Dict (Topic B)
  pub consumption : Consumption B

module _ {B : Type 0} where
  abbrev pub nothing_yet : World B
  nothing_yet = record {
    topics = [];
    consumption = record { offsets = []; dead_letters = []; handled = [] };
  }

  -- Of what is handled, only that of the group `g` is kept.
  abbrev only_of : String → String → Consumption B → Consumption B → Consumption B
  only_of g h before after = if str_eq h g then after else record after { handled = before.handled }

  module _ (fnv : String → ℕ) (g : String) where
    unfoldable pub step : Call B → World B → World B
    step (creates name config) w = record w { topics = (create_topic name config w.topics).0 }
    step (sends topic key value headers now) w = record w {
      topics = (send fnv topic key value headers now w.topics).0;
    }
    step (consumes group topic partition succeeds) w =
        elim (consume_partition succeeds group topic partition w.topics w.consumption) [
          | none ↦ w
          | some c ↦ record w { consumption = only_of g group w.consumption c }
        ]

    unfoldable pub run : List (Call B) → World B → World B
    unfolding step
    run [] w = w
    run (c ∷ cs) w = run cs (step c w)

  -- All that is below a committed offset of the group is dealt with.
  abbrev Behind : String → Consumption B → Type 0
  Behind g c = (t : String) (p j : ℕ) → j < last_offset g t p c.offsets → dealt_with t p j c ≡ true

  record Consumed (succeeds : Message B → ℕ → Bool) (h t : String) (p : ℕ) (part : Partition B)
      (topics : Dict (Topic B)) (c : Consumption B) : Type 0 where
    after : Consumption B
    result : consume_partition succeeds h t p topics c ≡ some after
    unread : List (Message B)
    enough : part.offset ≤ last_offset h t p c.offsets + length unread
    processed : Processed h t p (last_offset h t p c.offsets) unread c after

  module _ (succeeds : Message B → ℕ → Bool) (h t : String) (p : ℕ) where
    consume_partition-Consumed :
        (topic : Topic B) (part : Partition B) (topics : Dict (Topic B)) (c : Consumption B)
        → lookup t topics ≡ some topic
        → get_elem? topic.partitions p ≡ some part
        → IsWhole t p part
        → Consumed succeeds h t p part topics c
    unfolding consume_partition
    consume_partition-Consumed topic part topics c e e' (log, size) =
        let last = last_offset h t p c.offsets in
        let unread = keep (λ m. leb last m.offset) part.messages in
        let (log', enough) = keep-IsLog t p last 0 part.messages log (omega arith) in
        record {
          after = process_all succeeds h t p unread c;
          result = ground (arith, e, e');
          unread = unread;
          enough = omega (arith, enough, size);
          processed = process_all-Processed succeeds h t p last unread c log';
        }

    consume_partition-cases :
        (topics : Dict (Topic B)) (c : Consumption B)
        → (consume_partition succeeds h t p topics c ≡ none)
          ⊎ ((topic : Topic B) × (part : Partition B) × (lookup t topics ≡ some topic)
              × (get_elem? topic.partitions p ≡ some part))
    unfolding consume_partition
    consume_partition-cases topics c = elim (Option-cases (lookup t topics)) [
      | inl e ↦ inl (ground (arith, e))
      | inr (topic, e) ↦ elim (Option-cases (get_elem? topic.partitions p)) [
        | inl f ↦ inl (ground (arith, e, f))
        | inr (part, f) ↦ inr (topic, part, e, f)
      ]
    ]

  -- A round of the group itself.
  own-Behind :
      (g t : String) (p n : ℕ) (unread : List (Message B)) (c d : Consumption B)
      → n ≡ last_offset g t p c.offsets
      → Processed g t p n unread c d
      → Behind g c
      → Behind g d
  own-Behind g t p n unread c d at r behind u q j lt = elim (r.committed g u q) [
    | inl same ↦
        dealt_with-kept u q j c d (r.handled_kept u q j) (r.letters_kept u q j)
          (behind u q j (omega (arith, lt, same)))
    | inr (_, topic, place, le) ↦
        let done =
          r.reached (λ i below. behind t p i (omega (arith, below, at))) j
            (omega (arith, lt, le)) in
        rw (topic, place) done
  ]

  -- A round of another group.
  other-Behind :
      (g h t : String) (p n : ℕ) (unread : List (Message B)) (c d : Consumption B)
      → h ≢ g
      → Processed h t p n unread c d
      → Behind g c
      → Behind g (record d { handled = c.handled })
  other-Behind g h t p n unread c d ne r behind u q j lt = elim (r.committed g u q) [
    | inl same ↦
        dealt_with-kept u q j c (record d { handled = c.handled }) (λ e. e) (r.letters_kept u q j)
          (behind u q j (omega (arith, lt, same)))
    | inr (group, _, _, _) ↦ absurd (ne (sym group))
  ]

  module _ (fnv : String → ℕ) (g : String) where
    record Sound (w : World B) : Type 0 where
      logged : Logged w.topics
      behind : Behind g w.consumption

    step-refused :
        (h t : String) (p : ℕ) (succeeds : Message B → ℕ → Bool) (w : World B)
        → consume_partition succeeds h t p w.topics w.consumption ≡ none
        → step fnv g (consumes h t p succeeds) w ≡ w
    unfolding step
    step-refused h t p succeeds w e = ground (arith, e)

    step-consumed :
        (h t : String) (p : ℕ) (succeeds : Message B → ℕ → Bool) (w : World B) (c : Consumption B)
        → consume_partition succeeds h t p w.topics w.consumption ≡ some c
        → step fnv g (consumes h t p succeeds) w
          ≡ record w { consumption = only_of g h w.consumption c }
    unfolding step
    step-consumed h t p succeeds w c e = ground (arith, e)

    consumes-Sound :
        (h t : String) (p n : ℕ) (unread : List (Message B)) (w : World B) (c : Consumption B)
        → n ≡ last_offset h t p w.consumption.offsets
        → Processed h t p n unread w.consumption c
        → Sound w
        → Sound (record w { consumption = only_of g h w.consumption c })
    consumes-Sound h t p n unread w c at r s = elim (Bool-cases (str_eq h g)) [
      | inl own ↦
          let group : h ≡ g = ground (arith, eq_iff h g) in
          let at' : n ≡ last_offset g t p w.consumption.offsets =
            at ∙ ap (λ k. last_offset k t p w.consumption.offsets) group in
          rw own (record {
            logged = s.logged;
            behind =
                own-Behind g t p n unread w.consumption c at'
                  (subst (λ k. Processed k t p n unread w.consumption c) group r) s.behind;
          })
      | inr other ↦
          let ne : h ≢ g = λ e. ground (arith, eq_iff h g) in
          rw other (record {
            logged = s.logged;
            behind = other-Behind g h t p n unread w.consumption c ne r s.behind;
          })
    ]

    step-Sound : (c : Call B) (w : World B) → Sound w → Sound (step fnv g c w)
    unfolding step
    step-Sound (creates name config) w s = record {
      logged = create_topic-Logged name config w.topics s.logged;
      behind = s.behind;
    }
    step-Sound (sends topic key value headers now) w s = record {
      logged = send-Logged fnv topic key value headers now w.topics s.logged;
      behind = s.behind;
    }
    step-Sound (consumes h t p succeeds) w s =
        elim (consume_partition-cases succeeds h t p w.topics w.consumption) [
          | inl failed ↦ subst Sound (sym (step-refused h t p succeeds w failed)) s
          | inr (topic, part, e, e') ↦
              let r =
                consume_partition-Consumed succeeds h t p topic part w.topics w.consumption e e'
                  (s.logged t topic p part e e') in
              subst Sound (sym (step-consumed h t p succeeds w r.after r.result))
                (consumes-Sound h t p _ r.unread w r.after refl r.processed s)
        ]

    run-Sound : (cs : List (Call B)) (w : World B) → Sound w → Sound (run fnv g cs w)
    unfolding run
    run-Sound [] w s = s
    run-Sound (c ∷ cs) w s = run-Sound cs (step fnv g c w) (step-Sound c w s)

    nothing_yet-Sound : Sound nothing_yet
    unfolding lookup find last_offset
    nothing_yet-Sound = record {
      logged = λ t topic p part e e'. cc;
      behind = λ t p j lt.
          let zero_offset : last_offset g t p [] ≡ 0 = refl in
          absurd (omega (arith, lt, zero_offset));
    }

-- Topics are created, messages are sent, and groups consume partitions, in any order, the handlers
-- with any outcome at each attempt. When a group then consumes a partition once more, every message
-- that was sent to it has been handled by the group, or is among the dead letters.
pub at_least_once :
    {B : Type 0} (fnv : String → ℕ) (calls : List (Call B)) (group t : String) (p : ℕ)
    (succeeds : Message B → ℕ → Bool) (topic : Topic B) (part : Partition B) (n : ℕ)
    → lookup t (run fnv group calls nothing_yet).topics ≡ some topic
    → get_elem? topic.partitions p ≡ some part
    → n < part.offset
    → dealt_with t p n
        (run fnv group
          (consumes group t p succeeds ∷ [])
          (run fnv group calls nothing_yet)).consumption
      ≡ true
unfolding run
at_least_once fnv calls group t p succeeds topic part n e e' lt =
    let w = run fnv group calls nothing_yet in
    let s = run-Sound fnv group calls nothing_yet (nothing_yet-Sound fnv group) in
    let r =
      consume_partition-Consumed succeeds group t p topic part w.topics w.consumption e e'
        (s.logged t topic p part e e') in
    let done =
      r.processed.reached (λ j below. s.behind t p j below) n (omega (arith, lt, r.enough)) in
    let self : str_eq group group ≡ true = eq_refl group in
    rw (step-consumed fnv group group t p succeeds w r.after r.result, self) done
