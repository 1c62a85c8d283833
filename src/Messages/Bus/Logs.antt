-- ===== src/Messages/Bus/Logs.antt =====
-- The partitions as logs: the offset of a message is its place.
use go_async_practice.Common.{
  ◌⊎◌, ℕ, zero, suc, ◌+◌, ◌≡◌, ◌≢◌, refl, sym, ap, ◌∙◌, String, List, [], ◌∷◌, ◌++◌, none, some,
  arith, ◌==◌, length, length-append, set, get_elem?, get_elem?-set_self, get_elem?-set_ne, str_eq,
  eq_iff, Option-cases, Bool-cases, inl, inr,
}
use go_async_practice.Common.Dict.{Dict, lookup, insert, lookup-insert}
use go_async_practice.Messages.Bus.{
  Message, Partition, TopicConfig, Topic, make_partitions, create_topic, append_message,
  select_partition, send,
}

module _ {B : Type 0} where
  -- From number `n` on, messages of one partition.
  abbrev pub IsLog : String → ℕ → ℕ → List (Message B) → Type 0
  IsLog t p n [] = Unit
  IsLog t p n (m ∷ ms) = ((m.topic ≡ t) × (m.partition ≡ p) × (m.offset ≡ n)) × IsLog t p (n + 1) ms

  abbrev pub IsWhole : String → ℕ → Partition B → Type 0
  IsWhole t p part = IsLog t p 0 part.messages × (length part.messages ≡ part.offset)

  abbrev pub Logged : Dict (Topic B) → Type 0
  Logged topics =
      (t : String) (topic : Topic B) (p : ℕ) (part : Partition B)
      → lookup t topics ≡ some topic
      → get_elem? topic.partitions p ≡ some part
      → IsWhole t p part

  IsLog-append :
      (t : String) (p n : ℕ) (ms : List (Message B)) (m : Message B)
      → IsLog t p n ms
      → (m.topic ≡ t) × (m.partition ≡ p) × (m.offset ≡ n + length ms)
      → IsLog t p n (ms ++ m ∷ [])
  IsLog-append t p n [] m log (e, e', e'') = ((e, e', omega (arith, e'')), tt)
  IsLog-append t p n (x ∷ ms) m (here, log) (e, e', e'') =
      (here, IsLog-append t p (n + 1) ms m log (e, e', omega (arith, e'')))

  pub make_partitions-empty :
      (left i p : ℕ) (part : Partition B)
      → get_elem? (make_partitions left i) p ≡ some part
      → (part.messages ≡ []) × (part.offset ≡ 0)
  unfolding make_partitions
  make_partitions-empty zero i p part e = cc
  make_partitions-empty (suc left) i zero part e = ground (arith, e)
  make_partitions-empty (suc left) i (suc p) part e = make_partitions-empty left (i + 1) p part e

  empty-IsWhole :
      (t : String) (p : ℕ) (part : Partition B)
      → part.messages ≡ []
      → part.offset ≡ 0
      → IsWhole t p part
  empty-IsWhole t p part none_there zero_offset = rw none_there (tt, sym zero_offset)

  append_message-IsWhole :
      (t key : String) (value : B) (headers : Dict String) (now p : ℕ) (part : Partition B)
      → IsWhole t p part
      → IsWhole t p (append_message t key value headers now p part)
  unfolding append_message
  append_message-IsWhole t key value headers now p part (log, size) = (
    IsLog-append t p 0 part.messages _ log (refl, refl, omega (arith, size)),
    omega (arith, size, length-append part.messages (_ ∷ [])),
  )

  -- The topic that `CreateTopic` makes.
  abbrev pub new_topic : String → TopicConfig → Topic B
  new_topic name config = record {
    name = name;
    partitions = make_partitions config.num_partitions 0;
    config = config;
  }

  pub create_topic-cases :
      (name : String) (config : TopicConfig) (topics : Dict (Topic B))
      → ((create_topic name config topics).0 ≡ topics)
        ⊎ ((lookup name topics ≡ none)
            × ((create_topic name config topics).0 ≡ insert name (new_topic name config) topics))
  unfolding create_topic
  create_topic-cases name config topics = elim (Option-cases (lookup name topics)) [
    | inr (topic, there) ↦ inl (ground (arith, there))
    | inl absent ↦ inr (absent, ground (arith, absent))
  ]

  pub create_topic-Logged :
      (name : String) (config : TopicConfig) (topics : Dict (Topic B))
      → Logged topics
      → Logged (create_topic name config topics).0
  create_topic-Logged name config topics logged = elim (create_topic-cases name config topics) [
    | inl same ↦ rw same logged
    | inr (absent, made) ↦ rw made (λ t topic p part e e'. elim (Bool-cases (str_eq name t)) [
      | inl same ↦
          let mine : new_topic name config ≡ topic =
            ground (arith, e, lookup-insert name t (new_topic name config) topics) in
          let (none_there, zero_offset) =
            make_partitions-empty config.num_partitions 0 p part
              (ap (λ x. get_elem? x.partitions p) mine ∙ e') in
          empty-IsWhole t p part none_there zero_offset
      | inr other ↦
          logged t topic p part
            (ground (arith, e, lookup-insert name t (new_topic name config) topics)) e'
    ])
  ]

  -- One partition of a topic is written.
  abbrev pub with_partition : ℕ → Partition B → Topic B → Topic B
  with_partition i part topic = record topic { partitions = set topic.partitions i part }

  pub written_cases :
      (t : String) (i : ℕ) (old new : Partition B) (written : Topic B) (topics : Dict (Topic B))
      (u : String) (topic : Topic B) (p : ℕ) (part : Partition B)
      → lookup t topics ≡ some written
      → get_elem? written.partitions i ≡ some old
      → lookup u (insert t (with_partition i new written) topics) ≡ some topic
      → get_elem? topic.partitions p ≡ some part
      → ((u ≡ t) × (p ≡ i) × (part ≡ new))
        ⊎ ((x : Topic B) × (lookup u topics ≡ some x) × (get_elem? x.partitions p ≡ some part))
  written_cases t i old new written topics u topic p part there placed e e' =
      elim (Bool-cases (str_eq t u)) [
        | inr other ↦
            inr (
              topic,
              ground (arith, e, lookup-insert t u (with_partition i new written) topics),
              e',
            )
        | inl same ↦
            let mine : with_partition i new written ≡ topic =
              ground (arith, e, lookup-insert t u (with_partition i new written) topics) in
            let found : get_elem? (set written.partitions i new) p ≡ some part =
              ap (λ x. get_elem? x.partitions p) mine ∙ e' in
            let name : u ≡ t = ground (arith, eq_iff t u) in
            elim (Bool-cases (i == p)) [
              | inl here ↦
                  let place : p ≡ i = ground (arith, here) in
                  let self = get_elem?-set_self written.partitions i new placed in
                  inl (
                    name,
                    place,
                    ground (
                      arith,
                      sym found ∙ ap (λ q. get_elem? (set written.partitions i new) q) place ∙ self,
                    ),
                  )
              | inr elsewhere ↦
                  let ne : i ≢ p = λ same_place. ground (arith, elsewhere, same_place) in
                  inr (
                    written,
                    ap (λ k. lookup k topics) name ∙ there,
                    sym (get_elem?-set_ne written.partitions i p new ne) ∙ found,
                  )
            ]
      ]

  module _ (fnv : String → ℕ) where
    -- Where `Send` writes, and that it changes nothing else.
    pub record Written (t key : String) (value : B) (headers : Dict String) (now : ℕ)
        (topics : Dict (Topic B)) : Type 0 where
      pub topic : Topic B
      pub partition_id : ℕ
      pub part : Partition B
      pub found : lookup t topics ≡ some topic
      pub selected : select_partition fnv key now (length topic.partitions) ≡ some partition_id
      pub placed : get_elem? topic.partitions partition_id ≡ some part
      pub result :
          (send fnv t key value headers now topics).0
          ≡ insert t
              (with_partition partition_id
                (append_message t key value headers now partition_id part)
                topic)
              topics

    pub send-cases :
        (t key : String) (value : B) (headers : Dict String) (now : ℕ) (topics : Dict (Topic B))
        → ((send fnv t key value headers now topics).0 ≡ topics)
          ⊎ Written t key value headers now topics
    unfolding send
    send-cases t key value headers now topics = elim (Option-cases (lookup t topics)) [
      | inl e ↦ inl (ground (arith, e))
      | inr (topic, e) ↦
          elim (Option-cases (select_partition fnv key now (length topic.partitions))) [
            | inl f ↦ inl (ground (arith, e, f))
            | inr (i, f) ↦ elim (Option-cases (get_elem? topic.partitions i)) [
              | inl h ↦ inl (ground (arith, e, f, h))
              | inr (part, h) ↦ inr (record {
                topic = topic;
                partition_id = i;
                part = part;
                found = e;
                selected = f;
                placed = h;
                result = ground (arith, e, f, h);
              })
            ]
          ]
    ]

    pub send-Logged :
        (t key : String) (value : B) (headers : Dict String) (now : ℕ) (topics : Dict (Topic B))
        → Logged topics
        → Logged (send fnv t key value headers now topics).0
    send-Logged t key value headers now topics logged =
        elim (send-cases t key value headers now topics) [
          | inl same ↦ rw same logged
          | inr w ↦ rw w.result (λ u topic p part e e'.
              let new = append_message t key value headers now w.partition_id w.part in
              elim (written_cases t w.partition_id w.part new w.topic topics u topic p part w.found
                w.placed e e') [
                  | inr (x, f, f') ↦ logged u x p part f f'
                  | inl (name, place, is_new) ↦
                      rw (name, place, is_new)
                        (append_message-IsWhole t key value headers now w.partition_id w.part
                          (logged t w.topic w.partition_id w.part w.found w.placed))
                ])
        ]
