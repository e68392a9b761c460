-- ===== src/Base/Map.antt =====
-- Go's maps as association lists. A `range` over a map visits the entries in the list's order,
-- which stands for any order.
use mathlib.Core.Path.{◌≡◌, refl}
use mathlib.Core.Bool.{Bool, true, false, ◌||◌}
use mathlib.Core.Option.{Option, none, some}
use mathlib.Core.List.{List, [], ◌∷◌}
use native.Mathlib.Omega.{arith}
use boxo.Base.Tests.{if◌then◌else◌, is_some}
use boxo.Base.Keys.{Key, same, contains, IsDistinct}

abbrev pub Map {ℓ} : Type ℓ → Type ℓ → Type ℓ
Map K V = List (K × V)

module _ {ℓ} {K V : Type ℓ} where
  abbrev pub keys : Map K V → List K
  keys [] = []
  keys ((k, v) ∷ m) = k ∷ keys m

  abbrev pub values : Map K V → List V
  values [] = []
  values ((k, v) ∷ m) = v ∷ values m

module _ {ℓ} {K V : Type ℓ} ⦃key : Key K⦄ where
  -- `v, ok := m[k]`
  unfoldable pub lookup : K → Map K V → Option V
  lookup k [] = none
  lookup k ((j, v) ∷ m) = if same j k then some v else lookup k m

  -- `m[k] = v`
  unfoldable pub insert : K → V → Map K V → Map K V
  insert k v [] = (k, v) ∷ []
  insert k v ((j, w) ∷ m) = if same j k then (k, v) ∷ m else (j, w) ∷ insert k v m

  -- `delete(m, k)`
  unfoldable pub delete : K → Map K V → Map K V
  delete k [] = []
  delete k ((j, w) ∷ m) = if same j k then delete k m else (j, w) ∷ delete k m

  -- an operation on the value that a pointer in the map leads to, if there is one
  unfoldable pub modify : K → (V → V) → Map K V → Map K V
  modify k f [] = []
  modify k f ((j, v) ∷ m) = if same j k then (j, f v) ∷ m else (j, v) ∷ modify k f m

  abbrev pub has_key : K → Map K V → Bool
  has_key k m = is_some (lookup k m)

  pub lookup-insert :
      (k j : K) (v : V) (m : Map K V)
      → lookup j (insert k v m) ≡ (if same k j then some v else lookup j m)
  unfolding lookup insert
  lookup-insert k j v [] = refl
  lookup-insert k j v ((i, w) ∷ m) = ground (arith, lookup-insert k j v m)

  pub lookup-delete :
      (k j : K) (m : Map K V) → lookup j (delete k m) ≡ (if same k j then none else lookup j m)
  unfolding lookup delete
  lookup-delete k j [] = ground arith
  lookup-delete k j ((i, w) ∷ m) = ground (arith, lookup-delete k j m)

  pub lookup-modify :
      (k j : K) (f : V → V) (m : Map K V)
      → lookup j (modify k f m)
        ≡ elim (lookup j m) [ none ↦ none | some v ↦ some (if same k j then f v else v) ]
  unfolding lookup modify
  lookup-modify k j f [] = refl
  lookup-modify k j f ((i, w) ∷ m) = ground (arith, lookup-modify k j f m)

  pub lookup-insert_self : (k : K) (v : V) (m : Map K V) → lookup k (insert k v m) ≡ some v
  lookup-insert_self k v m = ground (arith, lookup-insert k k v m)

  pub contains-keys : (k : K) (m : Map K V) → contains k (keys m) ≡ is_some (lookup k m)
  unfolding lookup
  contains-keys k [] = refl
  contains-keys k ((j, v) ∷ m) = ground (arith, contains-keys k m)

  pub contains-values :
      ⦃vals : Key V⦄
      → (k : K) (v : V) (m : Map K V) → lookup k m ≡ some v
      → contains v (values m) ≡ true
  unfolding lookup
  contains-values k v [] h = cc
  contains-values k v ((j, w) ∷ m) h = ground (arith, contains-values k v m)

  abbrev pub HasDistinctKeys : Map K V → Type 0
  HasDistinctKeys m = IsDistinct (keys m)

  contains-keys-insert :
      (k j : K) (v : V) (m : Map K V)
      → contains j (keys (insert k v m)) ≡ (same k j || contains j (keys m))
  contains-keys-insert k j v m =
      ground (arith, contains-keys j (insert k v m), contains-keys j m, lookup-insert k j v m)

  contains-keys-delete :
      (k j : K) (m : Map K V)
      → contains j (keys (delete k m)) ≡ (if same k j then false else contains j (keys m))
  contains-keys-delete k j m =
      ground (arith, contains-keys j (delete k m), contains-keys j m, lookup-delete k j m)

  pub insert-HasDistinctKeys :
      (k : K) (v : V) (m : Map K V) → HasDistinctKeys m → HasDistinctKeys (insert k v m)
  unfolding insert
  insert-HasDistinctKeys k v [] d = ground arith
  insert-HasDistinctKeys k v ((j, w) ∷ m) d =
      ground (arith, insert-HasDistinctKeys k v m, contains-keys-insert k j v m)

  pub delete-HasDistinctKeys :
      (k : K) (m : Map K V) → HasDistinctKeys m → HasDistinctKeys (delete k m)
  unfolding delete
  delete-HasDistinctKeys k [] d = tt
  delete-HasDistinctKeys k ((j, w) ∷ m) d =
      ground (arith, delete-HasDistinctKeys k m, contains-keys-delete k j m)

  unfoldable pub delete_all : Map K V → List K → Map K V
  delete_all m [] = m
  delete_all m (k ∷ ks) = delete_all (delete k m) ks

  pub lookup-delete_all :
      (m : Map K V) (ks : List K) (j : K)
      → lookup j (delete_all m ks) ≡ (if contains j ks then none else lookup j m)
  unfolding delete_all
  lookup-delete_all m [] j = refl
  lookup-delete_all m (k ∷ ks) j =
      ground (arith, lookup-delete_all (delete k m) ks j, lookup-delete k j m)

pub ruleset map_laws = (lookup-insert, lookup-delete)
