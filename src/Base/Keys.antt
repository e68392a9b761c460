-- ===== src/Base/Keys.antt =====
-- Keys of maps and sets: `cid.Cid` and `peer.ID` are opaque types that the code only compares.
use mathlib.Core.Path.{◌≡◌, refl}
use mathlib.Core.Bool.{Bool, true, false, ◌||◌, ◌&&◌}
use mathlib.Core.List.{List, [], ◌∷◌, ◌++◌}
use native.Mathlib.Omega.{arith}
use native.Mathlib.Decide.{ℕ_discrete}
use Prim.Native.Nat.{ℕ, zero, suc}
use mathlib.Core.Option.{some}
use mathlib.Core.Logic.{inl, inr}
use boxo.Base.Tests.{if◌then◌else◌, Bool-cases}
use boxo.Base.Lists.{select, get_elem?}

pub record Key {ℓ} (K : Type ℓ) : Type ℓ where
  pub dec : Discrete K

instance abbrev pub nat_key : Key ℕ
nat_key = record { dec = ℕ_discrete }

-- Go's `==` on keys.
abbrev pub same {ℓ} : {K : Type ℓ} ⦃key : Key K⦄ → K → K → Bool
same ⦃key⦄ a b = elim (key.dec a b) [ yes _ ↦ true | no _ ↦ false ]

module _ {ℓ} {K : Type ℓ} ⦃key : Key K⦄ where
  pub same_refl : (a : K) → same a a ≡ true
  same_refl a = ground arith

  pub eq_of_same : (a b : K) → same a b ≡ true → a ≡ b
  eq_of_same a b h = ground arith

  pub same_comm : (a b : K) → same a b ≡ same b a
  same_comm a b = ground arith

  -- Whether a slice holds a key.
  abbrev pub contains : K → List K → Bool
  contains a [] = false
  contains a (x ∷ xs) = same x a || contains a xs

  pub contains-append :
      (a : K) (xs ys : List K) → contains a (xs ++ ys) ≡ (contains a xs || contains a ys)
  contains-append a [] ys = refl
  contains-append a (x ∷ xs) ys = ground (arith, contains-append a xs ys)

  pub contains-select :
      (keep : K → Bool) (c : K) (ks : List K)
      → contains c (select keep ks) ≡ (contains c ks && keep c)
  contains-select keep c [] = refl
  contains-select keep c (k ∷ ks) = ground (arith, contains-select keep c ks, eq_of_same k c)

  -- No key stands twice.
  abbrev pub IsDistinct : List K → Type 0
  IsDistinct [] = Unit {0}
  IsDistinct (x ∷ xs) = (contains x xs ≡ false) × IsDistinct xs

  pub IsDistinct-snoc :
      (xs : List K) (k : K) → IsDistinct xs → contains k xs ≡ false → IsDistinct (xs ++ k ∷ [])
  IsDistinct-snoc [] k d h = (refl, tt)
  IsDistinct-snoc (x ∷ xs) k d h =
      ground (arith, IsDistinct-snoc xs k d.1, contains-append x xs (k ∷ []), same_comm k x)

  -- The loop `for _, x := range xs { set[x] = struct{}{} }`, over a set that is a list.
  unfoldable pub append_new : List K → List K → List K
  append_new [] found = found
  append_new (x ∷ xs) found =
      let rest = append_new xs (found ++ x ∷ []) in
      let rest' = append_new xs found in if contains x found then rest' else rest

  pub contains-append_new :
      (xs found : List K) (k : K)
      → contains k (append_new xs found) ≡ (contains k xs || contains k found)
  unfolding append_new
  contains-append_new [] found k = refl
  contains-append_new (x ∷ xs) found k = ground (
    arith,
    contains-append_new xs found k,
    contains-append_new xs (found ++ x ∷ []) k,
    contains-append k found (x ∷ []),
    eq_of_same x k,
  )

  pub append_new-IsDistinct :
      (xs found : List K) → IsDistinct found → IsDistinct (append_new xs found)
  unfolding append_new
  append_new-IsDistinct [] found d = d
  append_new-IsDistinct (x ∷ xs) found d = elim (Bool-cases (contains x found)) [
    | inl e ↦ rw e (append_new-IsDistinct xs found d)
    | inr e ↦ rw e (append_new-IsDistinct xs (found ++ x ∷ []) (IsDistinct-snoc found x d e))
  ]

  pub contains-get_elem? :
      (xs : List K) (i : ℕ) (x : K) → get_elem? xs i ≡ some x → contains x xs ≡ true
  contains-get_elem? [] i x h = cc
  contains-get_elem? (y ∷ xs) zero x h = ground (arith, same_refl x)
  contains-get_elem? (y ∷ xs) (suc i) x h = ground (arith, contains-get_elem? xs i x)
