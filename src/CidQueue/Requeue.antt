-- ===== src/CidQueue/Requeue.antt =====
-- A CID that is removed from the queue and pushed again, while its old place is still there.
use boxo.Base.{
  ℕ, Bool, true, ◌||◌, List, [], ◌∷◌, ◌++◌, Key, same, contains, length, select, if◌then◌else◌,
  arith, ◌≡◌, ◌∙◌, refl, ◌+◌, ◌≤◌, ◌<◌, ap, eq_of_same, length-append, IsDistinct,
}
use boxo.Base.Sets.{SetOps, length-le_of_Includes}
use boxo.CidQueue.{Queue, pop_from, pop, cids, push, remove, has}

module _ {Cid : Type 0} ⦃key : Key Cid⦄ where
  -- How often a CID stands in a list.
  pub occurrences : Cid → List Cid → ℕ
  occurrences c [] = 0
  occurrences c (d ∷ cs) = (if same d c then 1 else 0) + occurrences c cs

  occurrences_one : (c : Cid) → occurrences c (c ∷ []) ≡ 1
  unfolding occurrences
  occurrences_one c = ground arith

  occurrences-append :
      (c : Cid) (xs ys : List Cid) → occurrences c (xs ++ ys) ≡ occurrences c xs + occurrences c ys
  unfolding occurrences
  occurrences-append c [] ys = omega arith
  occurrences-append c (x ∷ xs) ys = omega (arith, occurrences-append c xs ys)

  occurrences-select :
      (keep : Cid → Bool) (c : Cid) (xs : List Cid)
      → keep c ≡ true
      → occurrences c (select keep xs) ≡ occurrences c xs
  unfolding occurrences
  occurrences-select keep c [] h = refl
  occurrences-select keep c (x ∷ xs) h =
      ground (arith, occurrences-select keep c xs h, eq_of_same x c)

  occurrences-distinct :
      (c : Cid) (xs : List Cid)
      → IsDistinct xs
      → occurrences c xs ≡ (if contains c xs then 1 else 0)
  unfolding occurrences
  occurrences-distinct c [] d = refl
  occurrences-distinct c (x ∷ xs) d = ground (arith, occurrences-distinct c xs d.1, eq_of_same x c)

module _ {Cid Set : Type 0} ⦃key : Key Cid⦄ ⦃sets : SetOps Cid Set⦄ where
  -- The elements are the members, each once: a queue that nothing was removed from.
  pub record IsExact (q : Queue Cid Set) : Type 0 where
    pub distinct : IsDistinct q.elems
    pub members : (c : Cid) → contains c q.elems ≡ has q c

  has-contains : (q : Queue Cid Set) (d : Cid) → contains d (sets.keys q.eset) ≡ has q d
  unfolding has
  has-contains q d = sets.contains-keys q.eset d

  occurrences-cids :
      (q : Queue Cid Set) (c : Cid)
      → length (sets.keys q.eset) < length q.elems
      → has q c ≡ true
      → occurrences c (cids q).1 ≡ occurrences c q.elems
  unfolding cids has
  occurrences-cids q c longer h = ground (arith, occurrences-select (sets.has q.eset) c q.elems h)

  pop_front :
      (undef c : Cid) (q : Queue Cid Set) (rest : List Cid)
      → q.elems ≡ c ∷ rest
      → has q c ≡ true
      → (pop undef q).0 ≡ c
  unfolding pop pop_from has
  pop_front undef c q rest e h = ground arith

  requeued : (q : Queue Cid Set) (c : Cid) → Queue Cid Set
  requeued q c = push (remove q c) c

  requeued-has : (q : Queue Cid Set) (c d : Cid) → has (requeued q c) d ≡ (same c d || has q d)
  unfolding requeued push remove has
  requeued-has q c d = ground (
    arith,
    sets.has-remove q.eset c c,
    sets.has-remove q.eset c d,
    sets.has-add (sets.remove q.eset c) c d,
  )

  requeued-elems : (q : Queue Cid Set) (c : Cid) → (requeued q c).elems ≡ q.elems ++ c ∷ []
  unfolding requeued push remove
  requeued-elems q c = ground (arith, sets.has-remove q.eset c c)

  -- In a queue that nothing was removed from before, a member that is removed and pushed again is
  -- listed twice by Cids, and Pop returns it at its old place if that was the front.
  pub requeue_lem :
      (undef c : Cid) (q : Queue Cid Set)
      → IsExact q
      → has q c ≡ true
      → let q' = push (remove q c) c in
        (occurrences c (cids q').1 ≡ 2)
        × ((rest : List Cid) → q.elems ≡ c ∷ rest → (pop undef q').0 ≡ c)
  unfolding requeued
  requeue_lem undef c q e h = (twice, front)
    where
      q' : Queue Cid Set
      q' = requeued q c

      member : has q' c ≡ true
      member = ground (arith, requeued-has q c c)

      shorter : length (sets.keys q'.eset) ≤ length q.elems
      shorter =
          length-le_of_Includes (sets.keys q'.eset) q.elems (sets.keys-distinct q'.eset) (λ d k.
            ground (arith, requeued-has q c d, has-contains q' d, e.members d, eq_of_same c d))

      twice : occurrences c (cids q').1 ≡ 2
      twice = ground (
        arith,
        occurrences-cids q' c
            (rw (requeued-elems q c) (omega (arith, shorter, length-append {0} q.elems (c ∷ []))))
            member,
        requeued-elems q c,
        occurrences-append c q.elems (c ∷ []),
        occurrences-distinct c q.elems e.distinct,
        e.members c,
        occurrences_one c,
      )

      front : (rest : List Cid) → q.elems ≡ c ∷ rest → (pop undef q').0 ≡ c
      front rest eq =
          pop_front undef c q' (rest ++ c ∷ []) (requeued-elems q c ∙ ap (λ l. l ++ c ∷ []) eq)
            member
