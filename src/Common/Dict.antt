-- ===== src/Common/Dict.antt =====
-- A Go map with string keys as an association list. A write replaces the entry in place.
use Prim.Native.String.{String}
use mathlib.Core.Path.{◌≡◌, refl, sym, ap, ◌∙◌}
use mathlib.Core.Logic.{inl, inr}
use mathlib.Core.Bool.{Bool, false, ◌||◌}
use mathlib.Core.List.{List, [], ◌∷◌}
use mathlib.Core.Option.{Option, none, some}
use native.Mathlib.Omega.{arith}
use text.Mathlib.Text.{◌==◌ as str_eq}
use text.Mathlib.TextEquality.{eq_iff}
use text.Mathlib.TextPositions.{eq_refl}
use go_async_practice.Common.Tests.{if◌then◌else◌, Bool-cases}
use go_async_practice.Common.Lists.{All}

abbrev pub Dict {ℓ} : Type ℓ → Type ℓ
Dict V = List (String × V)

module _ {ℓ} {V : Type ℓ} where
  -- `value, exists := rest[key]`
  unfoldable pub lookup : String → Dict V → Option V
  lookup key [] = none
  lookup key (entry ∷ rest) = if str_eq entry.0 key then some entry.1 else lookup key rest

  -- `rest[key] = value`
  unfoldable pub insert : String → V → Dict V → Dict V
  insert key value [] = (key, value) ∷ []
  insert key value (entry ∷ rest) =
      if str_eq entry.0 key then (entry.0, value) ∷ rest else entry ∷ insert key value rest

  -- `delete(m, k)`
  unfoldable pub erase : String → Dict V → Dict V
  erase k [] = []
  erase k ((j, w) ∷ m) = if str_eq j k then erase k m else (j, w) ∷ erase k m

  pub lookup-insert :
      (written read : String) (value : V) (rest : Dict V)
      → lookup read (insert written value rest)
        ≡ (if str_eq written read then some value else lookup read rest)
  unfolding lookup insert
  lookup-insert written read value [] = ground arith
  lookup-insert written read value (entry ∷ rest) = ground (
    arith,
    lookup-insert written read value rest,
    eq_iff entry.0 written,
    eq_iff entry.0 read,
    eq_iff written read,
  )

  pub lookup-erase :
      (k j : String) (m : Dict V) → lookup j (erase k m) ≡ (if str_eq k j then none else lookup j m)
  unfolding lookup erase
  lookup-erase k j [] = ground arith
  lookup-erase k j ((i, w) ∷ m) =
      ground (arith, eq_iff k j, eq_iff i k, eq_iff i j, lookup-erase k j m)

  abbrev drop_if : (V → Bool) → String → Dict V → Dict V
  drop_if p k m = elim (lookup k m) [ none ↦ m | some v ↦ if p v then erase k m else m ]

  sweep_keys : (V → Bool) → List (String × V) → Dict V → Dict V
  sweep_keys p [] m = m
  sweep_keys p ((k, _) ∷ ks) m = sweep_keys p ks (drop_if p k m)

  -- `for k, v := range m { if p(v) { delete(m, k) } }`
  unfoldable pub sweep : (V → Bool) → Dict V → Dict V
  unfolding lookup erase sweep_keys
  sweep p m = sweep_keys p m m

  -- What a sweep leaves of an entry.
  abbrev pub spared : (V → Bool) → Option V → Option V
  spared p none = none
  spared p (some v) = if p v then none else some v

  has_key : String → List (String × V) → Bool
  has_key j [] = false
  has_key j ((k, _) ∷ ks) = str_eq k j || has_key j ks

  lookup-drop_if :
      (p : V → Bool) (k j : String) (m : Dict V)
      → lookup j (drop_if p k m) ≡ (if str_eq k j then spared p (lookup j m) else lookup j m)
  lookup-drop_if p k j m = ground (arith, eq_iff k j, lookup-erase k j m)

  spared_idem : (p : V → Bool) (o : Option V) → spared p (spared p o) ≡ spared p o
  spared_idem p o = ground arith

  lookup-sweep_keys :
      (p : V → Bool) (j : String) (ks : List (String × V)) (m : Dict V)
      → lookup j (sweep_keys p ks m) ≡ (if has_key j ks then spared p (lookup j m) else lookup j m)
  unfolding sweep_keys has_key
  lookup-sweep_keys p j [] m = refl
  lookup-sweep_keys p j ((k, v) ∷ ks) m = ground (
    arith,
    lookup-sweep_keys p j ks (drop_if p k m),
    lookup-drop_if p k j m,
    spared_idem p (lookup j m),
  )

  lookup_absent : (j : String) (m : Dict V) → has_key j m ≡ false → lookup j m ≡ none
  unfolding lookup has_key
  lookup_absent j [] h = refl
  lookup_absent j ((k, v) ∷ m) h = ground (arith, lookup_absent j m)

  pub lookup-sweep :
      (p : V → Bool) (j : String) (m : Dict V) → lookup j (sweep p m) ≡ spared p (lookup j m)
  unfolding sweep
  lookup-sweep p j m = ground (arith, lookup-sweep_keys p j m m, lookup_absent j m)

  pub lookup-insert_self : (k : String) (v : V) (m : Dict V) → lookup k (insert k v m) ≡ some v
  lookup-insert_self k v m = ground (arith, eq_iff k k, lookup-insert k k v m)

  pub lookup-erase_self : (k : String) (m : Dict V) → lookup k (erase k m) ≡ none
  lookup-erase_self k m = ground (arith, eq_iff k k, lookup-erase k k m)

  -- The zero value that a read of a missing key returns, `m[k]`.
  abbrev pub lookup_or : String → V → Dict V → V
  lookup_or k d m = elim (lookup k m) [ none ↦ d | some v ↦ v ]

  pub erase-erase : (k : String) (m : Dict V) → erase k (erase k m) ≡ erase k m
  unfolding erase
  erase-erase k [] = refl
  erase-erase k ((j, v) ∷ m) = ground (arith, erase-erase k m)

  pub erase-insert : (k : String) (v : V) (m : Dict V) → erase k (insert k v m) ≡ erase k m
  unfolding erase insert
  erase-insert k v [] = ground (arith, eq_iff k k)
  erase-insert k v ((j, w) ∷ m) = ground (arith, erase-insert k v m)

  pub erase_absent : (k : String) (m : Dict V) → lookup k m ≡ none → erase k m ≡ m
  unfolding lookup erase
  erase_absent k [] h = refl
  erase_absent k ((j, v) ∷ m) h = ground (arith, erase_absent k m)

  -- No key twice.
  abbrev pub IsMap : Dict V → Type ℓ
  IsMap [] = Unit
  IsMap (entry ∷ m) = (lookup entry.0 m ≡ none) × IsMap m

  pub insert-IsMap : (k : String) (v : V) (m : Dict V) → IsMap m → IsMap (insert k v m)
  unfolding insert lookup
  insert-IsMap k v [] u = (refl, tt)
  insert-IsMap k v (entry ∷ m) (new, u) = elim (Bool-cases (str_eq entry.0 k)) [
    | inl same ↦ rw same (new, u)
    | inr other ↦
        let apart : str_eq k entry.0 ≡ false = ground (arith, other, eq_iff k entry.0, eq_refl k) in
        rw other (ground (arith, new, apart, lookup-insert k entry.0 v m), insert-IsMap k v m u)
  ]

  -- What holds of all that is looked up holds of all entries.
  pub IsMap-All {κ} :
      (Q : String → V → Type κ) (m : Dict V)
      → IsMap m
      → ((k : String) (v : V) → lookup k m ≡ some v → Q k v)
      → All (λ entry. Q entry.0 entry.1) m
  unfolding lookup
  IsMap-All Q [] u all = tt
  IsMap-All Q (entry ∷ m) (new, u) all = (
    all entry.0 entry.1 (ground (arith, eq_refl entry.0)),
    IsMap-All Q m u (λ k v e. all k v (elim (Bool-cases (str_eq entry.0 k)) [
      | inr other ↦ rw other e
      | inl same ↦
          let at : entry.0 ≡ k = (eq_iff entry.0 k).0 same in
          absurd (ground (arith, sym (ap (λ j. lookup j m) at) ∙ new, e))
    ])),
  )
