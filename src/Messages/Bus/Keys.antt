-- ===== src/Messages/Bus/Keys.antt =====
-- The values of a key, and where they are.
use mathlib.Core.List.{append-nil, append_assoc}
use native.Mathlib.Nat.{mod-lt}
use go_async_practice.Common.{
  ℕ, zero, suc, ◌%◌, ◌<◌, ◌≡◌, ◌≢◌, refl, sym, ap, ◌∙◌, String, true, ◌&&◌, List, [], ◌∷◌, ◌++◌,
  some, arith, ◌==◌, if◌then◌else◌, length, set, get_elem?, get_elem?-set_self, get_elem?-set_ne,
  str_eq, eq_iff, Bool-cases, inl, inr,
}
use go_async_practice.Common.Dict.{Dict, lookup, lookup-insert}
use go_async_practice.Messages.Bus.{
  Message, Partition, TopicConfig, Topic, create_topic, select_partition, send,
}
use go_async_practice.Messages.Bus.Logs.{new_topic, create_topic-cases}

-- What clients do with the topics.
pub data Call (B : Type 0) : Type 0 where
  creates : (name : String) (config : TopicConfig) → Call B
  sends : (topic key : String) (value : B) (headers : Dict String) (now : ℕ) → Call B

module _ (fnv : String → ℕ) where
  -- Of a topic with partitions one is chosen, for a key by its hash.
  pub selected :
      (key : String) (now n : ℕ)
      → 0 < n
      → (j : ℕ) × (select_partition fnv key now n ≡ some j) × (j < n) × (key ≢ "" → j ≡ fnv key % n)
  unfolding select_partition
  selected key now zero pos = absurd (omega (arith, pos))
  selected key now (suc n) pos = elim (Bool-cases (str_eq key "")) [
    | inl empty ↦
        let same : key ≡ "" = ground (arith, eq_iff key "") in
        (now % suc n, ground (arith, empty), mod-lt now pos, λ ne. absurd (ne same))
    | inr hashed ↦ (fnv key % suc n, ground (arith, hashed), mod-lt (fnv key) pos, λ ne. refl)
  ]

  -- Where a message goes whose key is not empty.
  pub place_of :
      (key : String) (now n j : ℕ)
      → 0 < n
      → select_partition fnv key now n ≡ some j
      → key ≢ ""
      → j ≡ fnv key % n
  place_of key now n j pos e ne =
      let (i, chosen, _, hashed) = selected key now n pos in
      let same : j ≡ i = ground (arith, e, chosen) in same ∙ hashed ne

module _ {B : Type 0} where
  -- The values of the messages of a key.
  abbrev pub values_of : String → List (Message B) → List B
  values_of k [] = []
  values_of k (m ∷ ms) = if str_eq m.key k then m.value ∷ values_of k ms else values_of k ms

  pub values_of-append :
      (k : String) (ms ns : List (Message B))
      → values_of k (ms ++ ns) ≡ values_of k ms ++ values_of k ns
  values_of-append k [] ns = refl
  values_of-append k (m ∷ ms) ns = ground (arith, values_of-append k ms ns)

  module _ (fnv : String → ℕ) where
    unfoldable pub step : Call B → Dict (Topic B) → Dict (Topic B)
    step (creates name config) topics = (create_topic name config topics).0
    step (sends t key value headers now) topics = (send fnv t key value headers now topics).0

    unfoldable pub run : List (Call B) → Dict (Topic B) → Dict (Topic B)
    unfolding step
    run [] topics = topics
    run (c ∷ cs) topics = run cs (step c topics)

  -- The values that calls send to a topic under a key.
  abbrev pub sent_values : String → String → List (Call B) → List B
  sent_values t k [] = []
  sent_values t k (creates name config ∷ cs) = sent_values t k cs
  sent_values t k (sends u key value headers now ∷ cs) =
      if str_eq u t && str_eq key k then value ∷ sent_values t k cs else sent_values t k cs

  -- What a message adds to the values of a key.
  abbrev pub more_values : String → String → B → List B
  more_values key k value = if str_eq key k then value ∷ [] else []

  pub sent_values-more :
      (t u k key : String) (value : B) (headers : Dict String) (now : ℕ) (vs : List B)
      (cs : List (Call B))
      → str_eq u t ≡ true
      → (vs ++ more_values key k value) ++ sent_values t k cs
        ≡ vs ++ sent_values t k (sends u key value headers now ∷ cs)
  sent_values-more t u k key value headers now vs cs own =
      append_assoc vs (more_values key k value) (sent_values t k cs)
      ∙ ap (λ xs. vs ++ xs)
          (elim (Bool-cases (str_eq key k)) [
            | inl same ↦ rw (own, same) refl
            | inr other ↦ rw (own, other) refl
          ])

  -- A topic of `n` partitions holds the values `vs` under the key, all in the partition `i`.
  pub record Holds (t k : String) (n i : ℕ) (vs : List B) (topics : Dict (Topic B)) : Type 0 where
    pub topic : Topic B
    pub there : lookup t topics ≡ some topic
    pub size : length topic.partitions ≡ n
    pub chosen :
        (p : ℕ) (part : Partition B)
        → get_elem? topic.partitions p ≡ some part
        → values_of k part.messages ≡ (if p == i then vs else [])

  pub Holds-same :
      (t k : String) (n i : ℕ) (vs : List B) (before after : Dict (Topic B))
      → lookup t after ≡ lookup t before
      → Holds t k n i vs before
      → Holds t k n i vs after
  Holds-same t k n i vs before after e h = record {
    topic = h.topic;
    there = e ∙ h.there;
    size = h.size;
    chosen = h.chosen;
  }

  pub create_topic-Holds :
      (name : String) (config : TopicConfig) (t k : String) (n i : ℕ) (vs : List B)
      (topics : Dict (Topic B))
      → Holds t k n i vs topics
      → Holds t k n i vs (create_topic name config topics).0
  create_topic-Holds name config t k n i vs topics h =
      elim (create_topic-cases name config topics) [
        | inl same ↦ rw same h
        | inr (absent, made) ↦
            let there = h.there in
            rw made (
              Holds-same t k n i vs topics _
                (ground (
                  arith,
                  there,
                  absent,
                  eq_iff name t,
                  lookup-insert name t (new_topic name config) topics,
                ))
                h)
      ]

  -- A write to one partition, of a message whose key is another or chooses the partition `i`.
  pub written-chosen :
      (k : String) (i j : ℕ) (vs more : List B) (ps : List (Partition B)) (old new : Partition B)
      → get_elem? ps j ≡ some old
      → values_of k new.messages ≡ values_of k old.messages ++ more
      → (j ≢ i → more ≡ [])
      → ((p : ℕ) (part : Partition B)
          → get_elem? ps p ≡ some part
          → values_of k part.messages ≡ (if p == i then vs else []))
      → (p : ℕ) (part : Partition B) → get_elem? (set ps j new) p ≡ some part
      → values_of k part.messages ≡ (if p == i then vs ++ more else [])
  written-chosen k i j vs more ps old new placed added place chosen p part e =
      elim (Bool-cases (j == p)) [
        | inl here ↦
            let same : p ≡ j = ground (arith, here) in
            let written : new ≡ part = ground (
              arith,
              sym (get_elem?-set_self ps j new placed),
              ap (λ q. get_elem? (set ps j new) q) (sym same) ∙ e,
            ) in
            let before = chosen j old placed in
            elim (Bool-cases (j == i)) [
              | inl target ↦ rw (sym written, same) (ground (arith, added, before, target))
              | inr aside ↦
                  let nothing = place (λ eq. ground (arith, aside, eq)) in
                  rw (sym written, same) (ground (arith, added, before, aside, nothing))
            ]
        | inr elsewhere ↦
            let ne : j ≢ p = λ eq. ground (arith, elsewhere, eq) in
            let before = chosen p part (sym (get_elem?-set_ne ps j p new ne) ∙ e) in
            elim (Bool-cases (p == i)) [
              | inl target ↦
                  let at : p ≡ i = ground (arith, target) in
                  let nothing = place (λ eq. ne (eq ∙ sym at)) in
                  rw (target, nothing, append-nil vs) (ground (arith, before, target))
              | inr aside ↦ rw aside (ground (arith, before, aside))
            ]
      ]
