-- ===== src/Base/Sets.antt =====
-- `cid.Set` of github.com/ipfs/go-cid behind what its documentation says of it, and the counting of
-- lists without repetition.
use Prim.Native.Nat.{◌+◌, ◌≤◌}
use mathlib.Core.Path.{◌≡◌}
use mathlib.Core.Bool.{Bool, true, false, not, ◌&&◌, ◌||◌}
use mathlib.Core.List.{List, [], ◌∷◌, ◌++◌}
use native.Mathlib.Omega.{arith}
use mathlib.Core.Logic.{inl, inr}
use boxo.Base.Tests.{if◌then◌else◌, Bool-cases}
use boxo.Base.Lists.{length, length-append}
use boxo.Base.Keys.{Key, same, contains, IsDistinct, IsDistinct-snoc, contains-append, eq_of_same}

-- A set `S` of keys: New, Has, Add, Remove and Keys, which `ForEach` visits in the same
-- order and `Len` counts.
pub record SetOps (K S : Type 0) ⦃key : Key K⦄ : Type 0 where
  pub empty : S
  pub has : S → K → Bool
  pub add : S → K → S
  pub remove : S → K → S
  pub keys : S → List K
  pub has-empty : (k : K) → has empty k ≡ false
  pub has-add : (s : S) (k j : K) → has (add s k) j ≡ (same k j || has s j)
  pub has-remove : (s : S) (k j : K) → has (remove s k) j ≡ (not (same k j) && has s j)
  pub contains-keys : (s : S) (k : K) → contains k (keys s) ≡ has s k
  pub keys-distinct : (s : S) → IsDistinct (keys s)

module _ {K S : Type 0} ⦃key : Key K⦄ ⦃sets : SetOps K S⦄ where
  -- `Visit` adds a key that is not there, and says whether it did.
  abbrev pub visit : S → K → S × Bool
  visit s k = if sets.has s k then (s, false) else (sets.add s k, true)

module _ {K : Type 0} ⦃key : Key K⦄ where
  -- the list without the key
  unfoldable pub without : K → List K → List K
  without k [] = []
  without k (x ∷ xs) = if same x k then without k xs else x ∷ without k xs

  pub contains-without :
      (k j : K) (xs : List K) → contains j (without k xs) ≡ (not (same k j) && contains j xs)
  unfolding without
  contains-without k j [] = ground arith
  contains-without k j (x ∷ xs) = ground (arith, contains-without k j xs)

  length-without-le : (k : K) (xs : List K) → length (without k xs) ≤ length xs
  unfolding without
  length-without-le k [] = omega arith
  length-without-le k (x ∷ xs) = ground (arith, length-without-le k xs)

  length-without :
      (k : K) (xs : List K) → contains k xs ≡ true → length (without k xs) + 1 ≤ length xs
  unfolding without
  length-without k [] h = cc
  length-without k (x ∷ xs) h = ground (arith, length-without k xs, length-without-le k xs)

  abbrev pub Includes : List K → List K → Type 0
  Includes xs ys = (k : K) → contains k xs ≡ true → contains k ys ≡ true

  -- A list without repetition is no longer than a list that holds all of it.
  pub length-le_of_Includes :
      (xs ys : List K) → IsDistinct xs → Includes xs ys → length xs ≤ length ys
  length-le_of_Includes [] ys d i = omega arith
  length-le_of_Includes (x ∷ xs) ys d i = omega (
    arith,
    length-le_of_Includes xs (without x ys) d.1
        (λ k h. ground (arith, contains-without x k ys, i k, eq_of_same x k)),
    length-without x ys (i x (ground arith)),
  )

  -- It holds the other list, if that is no longer.
  pub Includes-of_length-le :
      (xs ys : List K) → IsDistinct xs → Includes xs ys → length ys ≤ length xs → Includes ys xs
  Includes-of_length-le xs ys d i h k m = elim (Bool-cases (contains k xs)) [
    | inl e ↦ e
    | inr e ↦ absurd (
        omega (
          arith,
          length-le_of_Includes (k ∷ xs) ys (e, d) (λ j hj. ground (arith, i j, eq_of_same k j)),
        ))
  ]

  -- `set[k] = struct{}{}` on a `map[K]struct{}`, a list without repetition
  unfoldable pub insert_key : K → List K → List K
  insert_key k xs = if contains k xs then xs else xs ++ k ∷ []

  pub contains-insert_key :
      (k j : K) (xs : List K) → contains j (insert_key k xs) ≡ (same k j || contains j xs)
  unfolding insert_key
  contains-insert_key k j xs = ground (arith, contains-append j xs (k ∷ []), eq_of_same k j)

  pub insert_key-IsDistinct : (k : K) (xs : List K) → IsDistinct xs → IsDistinct (insert_key k xs)
  unfolding insert_key
  insert_key-IsDistinct k xs d = ground (arith, IsDistinct-snoc xs k d)

  pub length-insert_key :
      (k : K) (xs : List K)
      → length (insert_key k xs) ≡ (if contains k xs then length xs else length xs + 1)
  unfolding insert_key
  length-insert_key k xs = ground (arith, length-append xs (k ∷ []))

  pub without-IsDistinct : (k : K) (xs : List K) → IsDistinct xs → IsDistinct (without k xs)
  unfolding without
  without-IsDistinct k [] d = tt
  without-IsDistinct k (x ∷ xs) d =
      ground (arith, without-IsDistinct k xs d.1, contains-without k x xs)

  pub length-without_distinct :
      (k : K) (xs : List K)
      → IsDistinct xs
      → length (without k xs) + 1 ≡ (if contains k xs then length xs else length xs + 1)
  unfolding without
  length-without_distinct k [] d = omega arith
  length-without_distinct k (x ∷ xs) d =
      ground (arith, length-without_distinct k xs d.1, eq_of_same x k)
