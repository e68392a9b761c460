-- ===== src/Wantlist/Order.antt =====
-- The sort behind `Entries`: its order, and what it keeps.
use boxo.Base.{
  ◌≡◌, refl, inl, inr, true, false, Option, none, some, List, [], ◌∷◌, Key, same, arith, Bool-cases,
  if◌then◌else◌,
}
use boxo.Base.Int.{◌≤ℤ◌}
use boxo.Wantlist.{Entry, less, insert_sorted, sort}

module _ {Cid : Type 0} where
  -- No entry's priority is above that of the first.
  abbrev pub IsBounded : Entry Cid → List (Entry Cid) → Type 0
  IsBounded e [] = Unit {0}
  IsBounded e (f ∷ es) = (f.priority ≤ℤ e.priority) × IsBounded e es

  -- The priorities do not rise along the list.
  abbrev pub IsSorted : List (Entry Cid) → Type 0
  IsSorted [] = Unit {0}
  IsSorted (e ∷ es) = IsBounded e es × IsSorted es

  IsBounded-trans :
      (e f : Entry Cid) (es : List (Entry Cid))
      → f.priority ≤ℤ e.priority
      → IsBounded f es
      → IsBounded e es
  IsBounded-trans e f [] h b = tt
  IsBounded-trans e f (g ∷ es) h b = (omega arith, IsBounded-trans e f es h b.1)

  insert_sorted-IsBounded :
      (d e : Entry Cid) (es : List (Entry Cid))
      → e.priority ≤ℤ d.priority
      → IsBounded d es
      → IsBounded d (insert_sorted e es)
  unfolding insert_sorted
  insert_sorted-IsBounded d e [] h b = (h, tt)
  insert_sorted-IsBounded d e (f ∷ es) h b = elim (Bool-cases (less f e)) [
    | inl above ↦ rw above (b.0, insert_sorted-IsBounded d e es h b.1)
    | inr below ↦ rw below (h, b)
  ]

  less→le : (e f : Entry Cid) → less e f ≡ true → f.priority ≤ℤ e.priority
  unfolding less
  less→le e f h = ground arith

  not-less→le : (e f : Entry Cid) → less e f ≡ false → e.priority ≤ℤ f.priority
  unfolding less
  not-less→le e f h = ground arith

  insert_sorted-IsSorted :
      (e : Entry Cid) (es : List (Entry Cid)) → IsSorted es → IsSorted (insert_sorted e es)
  unfolding insert_sorted
  insert_sorted-IsSorted e [] s = (tt, tt)
  insert_sorted-IsSorted e (f ∷ es) s = elim (Bool-cases (less f e)) [
    | inl above ↦
        rw above
          (insert_sorted-IsBounded f e es (less→le f e above) s.0, insert_sorted-IsSorted e es s.1)
    | inr below ↦
        let top = not-less→le f e below in rw below ((top, IsBounded-trans e f es top s.0), s)
  ]

  pub sort-IsSorted : (es : List (Entry Cid)) → IsSorted (sort es)
  unfolding sort
  sort-IsSorted [] = tt
  sort-IsSorted (e ∷ es) = insert_sorted-IsSorted e (sort es) (sort-IsSorted es)

module _ {Cid : Type 0} ⦃key : Key Cid⦄ where
  -- The first entry for a CID in a list.
  abbrev pub first : Cid → List (Entry Cid) → Option (Entry Cid)
  first c [] = none
  first c (e ∷ es) = if same e.cid c then some e else first c es

  -- No CID has two entries.
  abbrev pub HasDistinctCids : List (Entry Cid) → Type 0
  HasDistinctCids [] = Unit {0}
  HasDistinctCids (e ∷ es) = (first e.cid es ≡ none) × HasDistinctCids es

  first-insert_sorted :
      (c : Cid) (e : Entry Cid) (es : List (Entry Cid))
      → first e.cid es ≡ none
      → first c (insert_sorted e es) ≡ first c (e ∷ es)
  unfolding insert_sorted
  first-insert_sorted c e [] h = refl
  first-insert_sorted c e (f ∷ es) h = ground (arith, first-insert_sorted c e es)

  insert_sorted-HasDistinctCids :
      (e : Entry Cid) (es : List (Entry Cid))
      → first e.cid es ≡ none
      → HasDistinctCids es
      → HasDistinctCids (insert_sorted e es)
  unfolding insert_sorted
  insert_sorted-HasDistinctCids e [] h d = (refl, tt)
  insert_sorted-HasDistinctCids e (f ∷ es) h d =
      ground (arith, insert_sorted-HasDistinctCids e es, first-insert_sorted f.cid e es)

  pub first-sort :
      (c : Cid) (es : List (Entry Cid)) → HasDistinctCids es → first c (sort es) ≡ first c es
  unfolding sort
  first-sort c [] d = refl
  first-sort c (e ∷ es) d =
      ground (arith, first-insert_sorted c e (sort es), first-sort c es, first-sort e.cid es)

  pub sort-HasDistinctCids :
      (es : List (Entry Cid)) → HasDistinctCids es → HasDistinctCids (sort es)
  unfolding sort
  sort-HasDistinctCids [] d = tt
  sort-HasDistinctCids (e ∷ es) d = ground (
    arith,
    insert_sorted-HasDistinctCids e (sort es),
    sort-HasDistinctCids es,
    first-sort e.cid es,
  )
