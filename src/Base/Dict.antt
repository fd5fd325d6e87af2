-- ===== src/Base/Dict.antt =====
-- A `Map` of the source as an association list: a key that is set again keeps its place.
use credence_backend.Base.Tests.{if◌then◌else◌}
use credence_backend.Base.Equality.{Eq, ◌==◌, ==_refl}
use mathlib.Core.Path.{◌≡◌, refl}
use mathlib.Core.Bool.{Bool, true, false, not, ◌&&◌}
use mathlib.Core.Option.{Option, none, some}
use mathlib.Core.List.{List, [], ◌∷◌}
use native.Mathlib.Omega.{arith}

abbrev pub Dict {ℓ κ} : Type ℓ → Type κ → Type (ℓ ⊔ κ)
Dict K V = List (K × V)

module _ {ℓ κ} {K : Type ℓ} {V : Type κ} where
  -- `Map.values`
  abbrev pub values : Dict K V → List V
  values [] = []
  values ((k, v) ∷ d) = v ∷ values d

module _ {ℓ κ} {K : Type ℓ} {V : Type κ} ⦃e : Eq K⦄ where
  -- `Map.get`
  abbrev pub lookup : K → Dict K V → Option V
  lookup k [] = none
  lookup k ((j, v) ∷ d) = if j == k then some v else lookup k d

  -- `Map.has`
  abbrev pub contains_key : K → Dict K V → Bool
  contains_key k d = elim (lookup k d) [ none ↦ false | some _ ↦ true ]

  -- `Map.set`
  abbrev pub insert : K → V → Dict K V → Dict K V
  insert k v [] = (k, v) ∷ []
  insert k v ((j, w) ∷ d) = if j == k then (k, v) ∷ d else (j, w) ∷ insert k v d

  -- `Map.delete`
  abbrev pub erase : K → Dict K V → Dict K V
  erase k [] = []
  erase k ((j, w) ∷ d) = if j == k then erase k d else (j, w) ∷ erase k d

  pub lookup-insert :
      (k j : K) (v : V) (d : Dict K V)
      → lookup j (insert k v d) ≡ (if k == j then some v else lookup j d)
  lookup-insert k j v [] = refl
  lookup-insert k j v ((i, w) ∷ d) =
      ground (arith, e.test_iff k j, e.test_iff i k, e.test_iff i j, lookup-insert k j v d)

  pub lookup-erase :
      (k j : K) (d : Dict K V) → lookup j (erase k d) ≡ (if k == j then none else lookup j d)
  lookup-erase k j [] = ground arith
  lookup-erase k j ((i, w) ∷ d) =
      ground (arith, e.test_iff k j, e.test_iff i k, e.test_iff i j, lookup-erase k j d)

  pub lookup-insert_self : (k : K) (v : V) (d : Dict K V) → lookup k (insert k v d) ≡ some v
  lookup-insert_self k v d = rw (lookup-insert k k v d, ==_refl k)

  -- No key is stored twice.
  abbrev pub keys_distinct : Dict K V → Bool
  keys_distinct [] = true
  keys_distinct ((k, v) ∷ d) = not (contains_key k d) && keys_distinct d

  pub keys_distinct-insert :
      (k : K) (v : V) (d : Dict K V) → keys_distinct d ≡ true → keys_distinct (insert k v d) ≡ true
  keys_distinct-insert k v [] h = refl
  keys_distinct-insert k v ((j, w) ∷ d) h =
      ground
        (arith, keys_distinct-insert k v d, lookup-insert k j v d, e.test_iff j k, e.test_iff k j)

  pub keys_distinct-erase :
      (k : K) (d : Dict K V) → keys_distinct d ≡ true → keys_distinct (erase k d) ≡ true
  keys_distinct-erase k [] h = refl
  keys_distinct-erase k ((j, w) ∷ d) h =
      ground (arith, keys_distinct-erase k d, lookup-erase k j d, e.test_iff j k, e.test_iff k j)

  pub erase-absent : (k : K) (d : Dict K V) → lookup k d ≡ none → erase k d ≡ d
  erase-absent k [] h = refl
  erase-absent k ((j, w) ∷ d) h = ground (arith, erase-absent k d)
