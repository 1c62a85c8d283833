-- ===== src/Storage/Content/Storing.antt =====
-- The store as a map, and what storing does to it.
use mathlib.Core.Path.{subst}
use go_async_practice.Common.{
  ◌⊎◌, ℕ, ◌≡◌, ◌≢◌, refl, sym, ap, ◌∙◌, String, Bool, true, List, [], ◌∷◌, ◌++◌, Option, none, some,
  arith, ◌==◌, str_eq, eq_iff, if◌then◌else◌, All-append, Bool-cases, inl, inr,
}
use go_async_practice.Common.Dict.{Dict, lookup, insert, lookup-insert, lookup-insert_self}
use go_async_practice.Common.Table.{find, find-put}
use go_async_practice.Storage.Content.{Object, Storage, compress, store_duplicate, store_new, store}
use go_async_practice.Storage.Content.View.{
  view, hash_of, AllAt, AllAt-same, AllAt-keeps, same_hash, put_cases, first_object, view_none,
  duplicate, store_duplicate_lem, duplicate_own, duplicate_others,
}

module _ (digest : List ℕ → ℕ) where
  abbrev pub expected : Option (List ℕ) → Option (ℕ × List ℕ × Bool)
  expected none = none
  expected (some d) = some (digest d, compress d, true)

  pub record Represents (P : List ℕ → Type 0) (m : Dict (List ℕ)) (cas : Storage) : Type 0 where
    pub same : (k : String) → view (lookup k cas.objects) ≡ expected (lookup k m)
    pub class : (k : String) (d : List ℕ) → lookup k m ≡ some d → P d
    pub indexed :
        (hash : ℕ) (keys : List String)
        → find hash cas.index ≡ some keys
        → AllAt cas.objects hash keys

  pub Represents-insert :
      (P : List ℕ → Type 0) (key : String) (bytes : List ℕ) (m : Dict (List ℕ)) (cas cas' : Storage)
      → Represents P m cas
      → P bytes
      → lookup key m ≡ none
      → view (lookup key cas'.objects) ≡ expected (some bytes)
      → ((k : String) → k ≢ key → view (lookup k cas'.objects) ≡ view (lookup k cas.objects))
      → ((hash : ℕ) (keys : List String)
          → find hash cas'.index ≡ some keys
          → AllAt cas'.objects hash keys)
      → Represents P (insert key bytes m) cas'
  Represents-insert P key bytes m cas cas' r p free own others indexed = record {
    same = λ k. elim (Bool-cases (str_eq key k)) [
      | inl eq ↦
          let e : key ≡ k = (eq_iff key k).0 eq in
          let here : lookup k (insert key bytes m) ≡ some bytes =
            ground (arith, lookup-insert key k bytes m) in
          let there : view (lookup k cas'.objects) ≡ expected (some bytes) = rw e at own in
          there ∙ sym (ap expected here)
      | inr ne ↦
          let far : k ≢ key = λ e. ground (arith, eq_iff key k) in
          let here : lookup k (insert key bytes m) ≡ lookup k m =
            ground (arith, lookup-insert key k bytes m) in
          others k far ∙ r.same k ∙ sym (ap expected here)
    ];
    class = λ k d e. elim (Bool-cases (str_eq key k)) [
      | inl eq ↦
          let same : bytes ≡ d = ground (arith, lookup-insert key k bytes m) in subst P same p
      | inr ne ↦ r.class k d (ground (arith, lookup-insert key k bytes m))
    ];
    indexed = indexed;
  }

  pub own_hash :
      (o : Option Object) (bytes : List ℕ)
      → view o ≡ expected (some bytes)
      → hash_of o ≡ some (digest bytes)
  own_hash o bytes e = ground arith

  pub store_new_own :
      (key : String) (bytes : List ℕ) (now : ℕ) (cas : Storage)
      → view (lookup key (store_new digest key bytes now cas).0.objects) ≡ expected (some bytes)
  unfolding store_new
  store_new_own key bytes now cas = ap view (lookup-insert_self key _ cas.objects)

  pub store_new_others :
      (key : String) (bytes : List ℕ) (now : ℕ) (cas : Storage) (k : String)
      → k ≢ key
      → view (lookup k (store_new digest key bytes now cas).0.objects) ≡ view (lookup k cas.objects)
  unfolding store_new
  store_new_others key bytes now cas k ne =
      grind (arith, lookup-insert {V = Object} key k, eq_iff key k)

  pub store_new_index :
      (key : String) (bytes : List ℕ) (now hash : ℕ) (keys : List String) (cas : Storage)
      → find hash (store_new digest key bytes now cas).0.index ≡ some keys
      → ((hash ≡ digest bytes) × (keys ≡ key ∷ [])) ⊎ (find hash cas.index ≡ some keys)
  unfolding store_new
  store_new_index key bytes now hash keys cas e =
      put_cases (digest bytes) hash (key ∷ []) keys cas.index e

  pub store_new_found :
      (key : String) (bytes : List ℕ) (now hash : ℕ) (cas : Storage)
      → find hash (store_new digest key bytes now cas).0.index
        ≡ (if digest bytes == hash then some (key ∷ []) else find hash cas.index)
  unfolding store_new
  store_new_found key bytes now hash cas = find-put (digest bytes) hash (key ∷ []) cas.index

  pub free_key :
      (P : List ℕ → Type 0) (k : String) (m : Dict (List ℕ)) (cas : Storage)
      → Represents P m cas
      → lookup k m ≡ none
      → lookup k cas.objects ≡ none
  free_key P k m cas r e = ground (arith, r.same k)

  pub store_new-Represents :
      (P : List ℕ → Type 0) (key : String) (bytes : List ℕ) (now : ℕ) (m : Dict (List ℕ))
      (cas : Storage)
      → Represents P m cas
      → P bytes
      → lookup key m ≡ none
      → Represents P (insert key bytes m) (store_new digest key bytes now cas).0
  store_new-Represents P key bytes now m cas r p free =
      let cas' = (store_new digest key bytes now cas).0 in
      let gone = free_key P key m cas r free in
      let own = store_new_own key bytes now cas in
      let others = store_new_others key bytes now cas in
      Represents-insert P key bytes m cas cas' r p free own others (λ hash keys e.
        elim (store_new_index key bytes now hash keys cas e) [
          | inl (here, one) ↦ rw (one, here) (own_hash _ bytes own, tt)
          | inr old ↦
              AllAt-keeps key hash keys cas.objects cas'.objects gone
                (λ k ne. same_hash _ _ (others k ne)) (r.indexed hash keys old)
        ])

  pub expected_of :
      (o : Option Object) (d : Option (List ℕ)) (x : Object)
      → view o ≡ expected d
      → o ≡ some x
      → (y : List ℕ) × (d ≡ some y)
        × (x.content_hash ≡ digest y)
        × (x.bytes ≡ compress y)
        × (x.compressed ≡ true)
  expected_of o none x e f =
      absurd (let g : view o ≡ view (some x) = ap view f in view_none x (sym g ∙ e))
  expected_of o (some y) x e f =
      let g : view (some x) ≡ expected (some y) = sym (ap view f) ∙ e in
      let parts : (x.content_hash ≡ digest y) × (x.bytes ≡ compress y) × (x.compressed ≡ true) =
        ground (arith, g) in
      (y, refl, parts.0, parts.1, parts.2)

  pub store_fresh :
      (key : String) (bytes : List ℕ) (now : ℕ) (cas : Storage)
      → (find (digest bytes) cas.index ≡ none) ⊎ (find (digest bytes) cas.index ≡ some [])
      → store digest key bytes now cas ≡ store_new digest key bytes now cas
  unfolding store
  store_fresh key bytes now cas (inl e) = ground arith
  store_fresh key bytes now cas (inr e) = ground arith

  pub store_known :
      (key : String) (bytes : List ℕ) (now : ℕ) (first : String) (rest : List String)
      (cas : Storage)
      → find (digest bytes) cas.index ≡ some (first ∷ rest)
      → store digest key bytes now cas
        ≡ store_duplicate key (digest bytes) now (first ∷ rest) first cas
  unfolding store
  store_known key bytes now first rest cas e = ground arith

  pub store_known-Represents :
      (P : List ℕ → Type 0) (key : String) (bytes : List ℕ) (now : ℕ) (m : Dict (List ℕ))
      (first : String) (rest : List String) (cas : Storage)
      → ((a b : List ℕ) → P a → P b → digest a ≡ digest b → a ≡ b)
      → Represents P m cas
      → P bytes
      → lookup key m ≡ none
      → find (digest bytes) cas.index ≡ some (first ∷ rest)
      → Represents P
          (insert key bytes m)
          (store_duplicate key (digest bytes) now (first ∷ rest) first cas).0
  store_known-Represents P key bytes now m first rest cas inj r p free e =
      let all = r.indexed (digest bytes) (first ∷ rest) e in
      let (o, found, hashed) = first_object (lookup first cas.objects) (digest bytes) all.0 in
      let (d, stored_d, h, b, c) = expected_of _ _ o (r.same first) found in
      let same : d ≡ bytes = inj d bytes (r.class first d stored_d) p (sym h ∙ hashed) in
      let own : view (lookup key (duplicate key first (digest bytes) now o cas.objects))
          ≡ expected (some bytes) =
        duplicate_own key first (digest bytes) now o cas.objects ∙ rw (b, c, same) refl in
      let others : (k : String)
          → k ≢ key
          → view (lookup k (duplicate key first (digest bytes) now o cas.objects))
            ≡ view (lookup k cas.objects) =
        λ k ne. duplicate_others key first (digest bytes) now o cas.objects k found ne in
      let gone = free_key P key m cas r free in
      let kept : (hash : ℕ) (keys : List String)
          → AllAt cas.objects hash keys
          → AllAt (duplicate key first (digest bytes) now o cas.objects) hash keys =
        λ hash keys.
          AllAt-keeps key hash keys cas.objects _ gone (λ k ne. same_hash _ _ (others k ne)) in
      rw (store_duplicate_lem key (digest bytes) now (first ∷ rest) first cas o found) (
        Represents-insert P key bytes m cas _ r p free own others (λ hash keys e'.
          elim (put_cases (digest bytes) hash ((first ∷ rest) ++ key ∷ []) keys cas.index e') [
            | inl (here, list) ↦
                AllAt-same _ hash (digest bytes) keys ((first ∷ rest) ++ key ∷ []) here list (
                  All-append _ (first ∷ rest) (key ∷ []) (kept (digest bytes) (first ∷ rest) all)
                    (own_hash _ bytes own, tt))
            | inr old ↦ kept hash keys (r.indexed hash keys old)
          ]))

  pub store-Represents :
      (P : List ℕ → Type 0) (key : String) (bytes : List ℕ) (now : ℕ) (m : Dict (List ℕ))
      (cas : Storage)
      → ((a b : List ℕ) → P a → P b → digest a ≡ digest b → a ≡ b)
      → Represents P m cas
      → P bytes
      → lookup key m ≡ none
      → Represents P (insert key bytes m) (store digest key bytes now cas).0
  store-Represents P key bytes now m cas inj r p free =
      store_cases (find (digest bytes) cas.index) refl
    where
      store_cases :
          (o : Option (List String))
          → find (digest bytes) cas.index ≡ o
          → Represents P (insert key bytes m) (store digest key bytes now cas).0
      store_cases none e =
          rw (store_fresh key bytes now cas (inl e))
            (store_new-Represents P key bytes now m cas r p free)
      store_cases (some []) e =
          rw (store_fresh key bytes now cas (inr e))
            (store_new-Represents P key bytes now m cas r p free)
      store_cases (some (first ∷ rest)) e =
          rw (store_known key bytes now first rest cas e)
            (store_known-Represents P key bytes now m first rest cas inj r p free e)
