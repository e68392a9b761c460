-- ===== src/Base/Nested.antt =====
-- Go's maps of maps, `map[K]map[J]V`, whose inner maps are made on the first write.
use mathlib.Core.Path.{◌≡◌, refl}
use mathlib.Core.Bool.{Bool, true, false, not, ◌&&◌}
use mathlib.Core.Option.{Option, none, some}
use mathlib.Core.List.{List, [], ◌∷◌}
use native.Mathlib.Omega.{arith}
use boxo.Base.Tests.{if◌then◌else◌, or_default, is_some}
use boxo.Base.Keys.{Key, contains, same, eq_of_same}
use boxo.Base.Map.{Map, lookup, insert, delete, has_key, lookup-insert, lookup-delete}

abbrev pub is_empty {ℓ} : {A : Type ℓ} → List A → Bool
is_empty [] = true
is_empty (x ∷ xs) = false

module _ {K : Type 0} ⦃key : Key K⦄ where
  pub contains-empty : (xs : List K) (k : K) → is_empty xs ≡ true → contains k xs ≡ false
  contains-empty [] k h = refl
  contains-empty (x ∷ xs) k h = cc

module _ {ℓ} {J V : Type ℓ} ⦃sub : Key J⦄ where
  is_empty-insert : (j : J) (v : V) (i : Map J V) → is_empty (insert j v i) ≡ false
  unfolding insert
  is_empty-insert j v [] = refl
  is_empty-insert j v ((l, w) ∷ i) = ground arith

module _ {ℓ} {K J V : Type ℓ} ⦃key : Key K⦄ ⦃sub : Key J⦄ where
  -- `m[k]`, which is an empty map if `k` is missing
  abbrev pub inner : K → Map K (Map J V) → Map J V
  inner k m = or_default [] (lookup k m)

  -- `v, ok := m[k][j]`
  unfoldable pub get2 : K → J → Map K (Map J V) → Option V
  get2 k j m = lookup j (inner k m)

  -- `in, ok := m[k]; if !ok { in = make(..); m[k] = in }; in[j] = v`
  unfoldable pub put2 : K → J → V → Map K (Map J V) → Map K (Map J V)
  put2 k j v m = insert k (insert j v (inner k m)) m

  -- The inner map back in its place, or out of the outer map if it is empty.
  unfoldable pub restore : K → Map J V → Map K (Map J V) → Map K (Map J V)
  restore k i m = if is_empty i then delete k m else insert k i m

  -- `if in, ok := m[k]; ok { delete(in, j); if len(in) == 0 { delete(m, k) } }`
  unfoldable pub del2 : K → J → Map K (Map J V) → Map K (Map J V)
  unfolding restore
  del2 k j m = elim (lookup k m) [ none ↦ m | some i ↦ restore k (delete j i) m ]

  pub get2_lem : (k : K) (j : J) (m : Map K (Map J V)) → get2 k j m ≡ lookup j (inner k m)
  unfolding get2
  get2_lem k j m = refl

  pub get2_absent : (k : K) (j : J) (m : Map K (Map J V)) → lookup k m ≡ none → get2 k j m ≡ none
  unfolding get2 lookup
  get2_absent k j m e = ground arith

  pub get2_present :
      (k : K) (j : J) (i : Map J V) (m : Map K (Map J V))
      → lookup k m ≡ some i
      → get2 k j m ≡ lookup j i
  unfolding get2
  get2_present k j i m e = ground arith

  pub get2-insert :
      (k h : K) (j : J) (i : Map J V) (m : Map K (Map J V))
      → get2 h j (insert k i m) ≡ (if same k h then lookup j i else get2 h j m)
  unfolding get2
  get2-insert k h j i m = ground (arith, lookup-insert k h i m)

  pub get2-delete :
      (k h : K) (j : J) (m : Map K (Map J V))
      → get2 h j (delete k m) ≡ (if same k h then none else get2 h j m)
  unfolding get2 lookup
  get2-delete k h j m = ground (arith, lookup-delete k h m)

  -- `if _, ok := m[k]; !ok { m[k] = make(..) }`
  unfoldable pub ensure : K → Map K (Map J V) → Map K (Map J V)
  ensure k m = if is_some (lookup k m) then m else insert k [] m

  pub get2-ensure : (k h : K) (j : J) (m : Map K (Map J V)) → get2 h j (ensure k m) ≡ get2 h j m
  unfolding ensure lookup
  get2-ensure k h j m = ground (arith, get2-insert k h j [] m, get2_absent k j m, eq_of_same k h)

  pub get2-put2 :
      (k h : K) (j i : J) (v : V) (m : Map K (Map J V))
      → get2 h i (put2 k j v m) ≡ (if same k h && same j i then some v else get2 h i m)
  unfolding put2
  get2-put2 k h j i v m = ground (
    arith,
    get2-insert k h i (insert j v (inner k m)) m,
    lookup-insert j i v (inner k m),
    get2_lem k i m,
    eq_of_same k h,
  )

  pub get2-restore :
      (k h : K) (j : J) (i : Map J V) (m : Map K (Map J V))
      → get2 h j (restore k i m) ≡ (if same k h then lookup j i else get2 h j m)
  unfolding restore lookup
  get2-restore k h j [] m = get2-delete k h j m
  get2-restore k h j (e ∷ i) m = get2-insert k h j (e ∷ i) m

  pub get2-del2 :
      (k h : K) (j i : J) (m : Map K (Map J V))
      → get2 h i (del2 k j m) ≡ (if same k h && same j i then none else get2 h i m)
  unfolding del2
  get2-del2 k h j i m = ground (
    arith,
    get2-restore k h i (delete j (inner k m)) m,
    lookup-delete j i (inner k m),
    get2_lem k i m,
    get2_absent k i m,
    eq_of_same k h,
  )

  pub has_key-del2 :
      (k h : K) (j : J) (m : Map K (Map J V))
      → has_key h (del2 k j m) ≡ (has_key h m && not (same k h && is_empty (delete j (inner k m))))
  unfolding del2 restore
  has_key-del2 k h j m =
      ground
        (arith, lookup-insert k h (delete j (inner k m)) m, lookup-delete k h m, eq_of_same k h)

  -- No inner map is empty, so a key is present only while something stands under it.
  abbrev pub HasNoEmpty : Map K (Map J V) → Type 0
  HasNoEmpty [] = Unit {0}
  HasNoEmpty ((k, i) ∷ m) = (is_empty i ≡ false) × HasNoEmpty m

  insert-HasNoEmpty :
      (k : K) (i : Map J V) (m : Map K (Map J V))
      → is_empty i ≡ false
      → HasNoEmpty m
      → HasNoEmpty (insert k i m)
  unfolding insert
  insert-HasNoEmpty k i [] h n = (h, tt)
  insert-HasNoEmpty k i ((l, i') ∷ m) h n = ground (arith, insert-HasNoEmpty k i m h n.1)

  pub delete-HasNoEmpty : (k : K) (m : Map K (Map J V)) → HasNoEmpty m → HasNoEmpty (delete k m)
  unfolding delete
  delete-HasNoEmpty k [] n = tt
  delete-HasNoEmpty k ((l, i) ∷ m) n = ground (arith, delete-HasNoEmpty k m n.1)

  pub put2-HasNoEmpty :
      (k : K) (j : J) (v : V) (m : Map K (Map J V)) → HasNoEmpty m → HasNoEmpty (put2 k j v m)
  unfolding put2
  put2-HasNoEmpty k j v m n = insert-HasNoEmpty k _ m (is_empty-insert j v (inner k m)) n

  pub restore-HasNoEmpty :
      (k : K) (i : Map J V) (m : Map K (Map J V)) → HasNoEmpty m → HasNoEmpty (restore k i m)
  unfolding restore
  restore-HasNoEmpty k [] m n = delete-HasNoEmpty k m n
  restore-HasNoEmpty k (e ∷ i) m n = insert-HasNoEmpty k (e ∷ i) m refl n

  pub del2-HasNoEmpty :
      (k : K) (j : J) (m : Map K (Map J V)) → HasNoEmpty m → HasNoEmpty (del2 k j m)
  unfolding del2
  del2-HasNoEmpty k j m n = ground (arith, restore-HasNoEmpty k (delete j (inner k m)) m n)

pub ruleset nested_laws =
    (get2-put2, get2-del2, get2-insert, get2-delete, get2-restore, get2-ensure)
