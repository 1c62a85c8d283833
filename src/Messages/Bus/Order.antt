-- ===== src/Messages/Bus/Order.antt =====
-- The messages of a key.
use mathlib.Core.Path.{subst}
use mathlib.Core.List.{append-nil}
use go_async_practice.Common.{
  ℕ, zero, suc, ◌+◌, ◌%◌, ◌<◌, ◌≡◌, ◌≢◌, refl, sym, ap, ◌∙◌, String, false, List, [], ◌∷◌, ◌++◌,
  some, arith, ◌==◌, if◌then◌else◌, length, length-set, get_elem?, get_elem?-some, str_eq, eq_iff,
  eq_refl, Bool-cases, inl, inr,
}
use go_async_practice.Common.Dict.{Dict, lookup, insert, lookup-insert, lookup-insert_self}
use go_async_practice.Messages.Bus.{
  Partition, TopicConfig, Topic, make_partitions, create_topic, append_message, send,
}
use go_async_practice.Messages.Bus.Logs.{
  make_partitions-empty, new_topic, with_partition, Written, send-cases,
}
use go_async_practice.Messages.Bus.Keys.{
  Call, creates, sends, selected, place_of, values_of, values_of-append, step, run, sent_values,
  more_values, sent_values-more, Holds, Holds-same, create_topic-Holds, written-chosen,
}

module _ {B : Type 0} where
  module _ (fnv : String → ℕ) where
    send-Written :
        (t key : String) (value : B) (headers : Dict String) (now : ℕ) (topics : Dict (Topic B))
        (topic : Topic B)
        → lookup t topics ≡ some topic
        → 0 < length topic.partitions
        → Written fnv t key value headers now topics
    unfolding send
    send-Written t key value headers now topics topic e pos =
        let (j, chosen, within, _) = selected fnv key now (length topic.partitions) pos in
        let (part, placed) = get_elem?-some topic.partitions j within in
        record {
          topic = topic;
          partition_id = j;
          part = part;
          found = e;
          selected = chosen;
          placed = placed;
          result = ground (arith, e, chosen, placed);
        }

    send-Holds :
        (t key : String) (value : B) (headers : Dict String) (now : ℕ) (k : String) (n : ℕ)
        (vs : List B) (topics : Dict (Topic B))
        → 0 < n
        → k ≢ ""
        → Holds t k n (fnv k % n) vs topics
        → Holds t k n
            (fnv k % n)
            (vs ++ more_values key k value)
            (send fnv t key value headers now topics).0
    unfolding append_message
    send-Holds t key value headers now k n vs topics pos ne h =
        let w = send-Written t key value headers now topics h.topic h.there (rw h.size pos) in
        let same : w.topic ≡ h.topic = ground (arith, sym w.found ∙ h.there) in
        let size : length w.topic.partitions ≡ n = ap (λ x. length x.partitions) same ∙ h.size in
        let new = append_message t key value headers now w.partition_id w.part in
        let place : w.partition_id ≢ fnv k % n → more_values key k value ≡ [] = λ away.
          elim (Bool-cases (str_eq key k)) [
            | inr other ↦ rw other refl
            | inl own ↦
                let e : key ≡ k = ground (arith, eq_iff key k) in
                let at =
                  place_of fnv key now (length w.topic.partitions) w.partition_id (rw size pos)
                    w.selected (λ empty. ne (sym e ∙ empty)) in
                absurd (
                  away
                    (at ∙ ap (λ q. fnv q % length w.topic.partitions) e ∙ ap (λ x. fnv k % x) size))
          ] in
        rw w.result (record {
          topic = with_partition w.partition_id new w.topic;
          there = lookup-insert_self t (with_partition w.partition_id new w.topic) topics;
          size = length-set w.topic.partitions w.partition_id new ∙ size;
          chosen =
              written-chosen k (fnv k % n) w.partition_id vs (more_values key k value)
                w.topic.partitions w.part new w.placed (values_of-append k w.part.messages _) place
                (λ p part e. h.chosen p part (ap (λ x. get_elem? x.partitions p) (sym same) ∙ e));
        })

    send_other-Holds :
        (u key : String) (value : B) (headers : Dict String) (now : ℕ) (t k : String) (n i : ℕ)
        (vs : List B) (topics : Dict (Topic B))
        → str_eq u t ≡ false
        → Holds t k n i vs topics
        → Holds t k n i vs (send fnv u key value headers now topics).0
    send_other-Holds u key value headers now t k n i vs topics other h =
        elim (send-cases fnv u key value headers now topics) [
          | inl same ↦ rw same h
          | inr w ↦ rw w.result (
              Holds-same t k n i vs topics _
                (lookup-insert u t
                    (with_partition w.partition_id
                      (append_message u key value headers now w.partition_id w.part) w.topic)
                    topics
                  ∙ rw other refl)
                h)
        ]

    run-Holds :
        (t k : String) (n : ℕ) (cs : List (Call B)) (vs : List B) (topics : Dict (Topic B))
        → 0 < n
        → k ≢ ""
        → Holds t k n (fnv k % n) vs topics
        → Holds t k n (fnv k % n) (vs ++ sent_values t k cs) (run fnv cs topics)
    unfolding run step
    run-Holds t k n [] vs topics pos ne h = rw (append-nil vs) h
    run-Holds t k n (creates name config ∷ cs) vs topics pos ne h =
        run-Holds t k n cs vs _ pos ne
          (create_topic-Holds name config t k n (fnv k % n) vs topics h)
    run-Holds t k n (sends u key value headers now ∷ cs) vs topics pos ne h =
        elim (Bool-cases (str_eq u t)) [
          | inr other ↦ rw other (
              run-Holds t k n cs vs _ pos ne
                (send_other-Holds u key value headers now t k n (fnv k % n) vs topics other h))
          | inl own ↦
              let name : u ≡ t = ground (arith, eq_iff u t) in
              let sent_to_t = send-Holds t key value headers now k n vs topics pos ne h in
              subst
                (λ xs.
                  Holds t k n (fnv k % n) xs
                    (run fnv cs (send fnv u key value headers now topics).0))
                (sent_values-more t u k key value headers now vs cs own)
                (run-Holds t k n cs (vs ++ more_values key k value) _ pos ne (
                  subst
                    (λ x.
                      Holds t k n (fnv k % n) (vs ++ more_values key k value)
                        (send fnv x key value headers now topics).0)
                    (sym name) sent_to_t))
        ]

length-make_partitions : (B : Type 0) (left i : ℕ) → length (make_partitions {B = B} left i) ≡ left
unfolding make_partitions
length-make_partitions B zero i = refl
length-make_partitions B (suc left) i = omega (arith, length-make_partitions B left (i + 1))

module _ {B : Type 0} where
  created-Holds :
      (t k : String) (config : TopicConfig) (i : ℕ)
      → Holds t k config.num_partitions i [] (create_topic {B = B} t config []).0
  unfolding create_topic lookup insert
  created-Holds t k config i = record {
    topic = new_topic t config;
    there = ground (arith, eq_refl t);
    size = length-make_partitions B config.num_partitions 0;
    chosen = λ p part e.
        let (none_there, _) = make_partitions-empty config.num_partitions 0 p part e in
        rw none_there (elim (Bool-cases (p == i)) [ inl h ↦ rw h refl | inr h ↦ rw h refl ]);
  }

-- A topic with partitions is created. Whatever else is created and sent then, to it or to others, it
-- has a partition for every key that is not empty: there are the values sent to the topic under the
-- key, all of them and in the order in which they were sent, and no other partition has any.
pub key_order :
    {B : Type 0} (fnv : String → ℕ) (t k : String) (config : TopicConfig) (calls : List (Call B))
    → 0 < config.num_partitions
    → k ≢ ""
    → (topic : Topic B) × (lookup t (run fnv (creates t config ∷ calls) []) ≡ some topic)
      × (length topic.partitions ≡ config.num_partitions)
      × ((p : ℕ) (part : Partition B)
          → get_elem? topic.partitions p ≡ some part
          → values_of k part.messages
            ≡ (if p == fnv k % config.num_partitions then sent_values t k calls else []))
unfolding run step
key_order fnv t k config calls pos ne =
    let n = config.num_partitions in
    let h = run-Holds fnv t k n calls [] _ pos ne (created-Holds t k config (fnv k % n)) in
    (h.topic, h.there, h.size, h.chosen)
