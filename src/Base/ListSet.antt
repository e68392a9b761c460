-- ===== src/Base/ListSet.antt =====
-- A set as a list: the operations of `cid.Set` with the laws that the components rely on, for tests.
use mathlib.Core.Path.{◌≡◌, refl}
use mathlib.Core.Bool.{not, ◌&&◌}
use mathlib.Core.List.{List, [], ◌∷◌}
use native.Mathlib.Omega.{arith}
use boxo.Base.Tests.{if◌then◌else◌}
use boxo.Base.Keys.{Key, same, contains, IsDistinct, eq_of_same}
use boxo.Base.Sets.{SetOps, without, contains-without}

module _ {K : Type 0} ⦃key : Key K⦄ where
  -- each key once
  abbrev pub distinct_keys : List K → List K
  distinct_keys [] = []
  distinct_keys (x ∷ xs) = let rest = distinct_keys xs in if contains x xs then rest else x ∷ rest

  pub contains-distinct_keys : (xs : List K) (k : K) → contains k (distinct_keys xs) ≡ contains k xs
  contains-distinct_keys [] k = refl
  contains-distinct_keys (x ∷ xs) k = ground (arith, contains-distinct_keys xs k, eq_of_same x k)

  pub distinct_keys-IsDistinct : (xs : List K) → IsDistinct (distinct_keys xs)
  distinct_keys-IsDistinct [] = tt
  distinct_keys-IsDistinct (x ∷ xs) =
      ground (arith, distinct_keys-IsDistinct xs, contains-distinct_keys xs x)

  pub contains-without_lem :
      (xs : List K) (k j : K) → contains j (without k xs) ≡ (not (same k j) && contains j xs)
  contains-without_lem xs k j = contains-without k j xs

  instance abbrev pub list_sets : SetOps K (List K)
  list_sets = record {
    empty = [];
    has = λ s k. contains k s;
    add = λ s k. k ∷ s;
    remove = λ s k. without k s;
    keys = distinct_keys;
    has-empty = λ k. refl;
    has-add = λ s k j. refl;
    has-remove = contains-without_lem;
    contains-keys = contains-distinct_keys;
    keys-distinct = distinct_keys-IsDistinct;
  }
