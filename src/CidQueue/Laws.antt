-- ===== src/CidQueue/Laws.antt =====
-- What the queue holds: membership, the element that Pop returns, and the list that Cids returns.
use boxo.Base.{
  Bool, true, false, not, ◌&&◌, ◌||◌, List, [], ◌∷◌, Key, same, contains, length, select, ltb,
  arith, ◌≡◌, sym, ◌∙◌, refl, Bool-cases, ◌<◌, inl, inr, eq_of_same, contains-append,
  contains-select,
}
use boxo.Base.Sets.{SetOps, Includes-of_length-le, length-le_of_Includes}
use boxo.CidQueue.{Queue, new, pop_from, pop, cids, push, remove, has, len}

module _ {Cid Set : Type 0} ⦃key : Key Cid⦄ ⦃sets : SetOps Cid Set⦄ where
  -- Every member stands among the elements.
  abbrev pub IsCovered : Queue Cid Set → Type 0
  IsCovered q = (c : Cid) → has q c ≡ true → contains c q.elems ≡ true

  pub has-push : (q : Queue Cid Set) (c d : Cid) → has (push q c) d ≡ (same c d || has q d)
  unfolding has push
  has-push q c d = ground (arith, sets.has-add q.eset c d, eq_of_same c d)

  pub has-remove :
      (q : Queue Cid Set) (c d : Cid) → has (remove q c) d ≡ (not (same c d) && has q d)
  unfolding has remove
  has-remove q c d = sets.has-remove q.eset c d

  pub has-keys : (q : Queue Cid Set) (c : Cid) → contains c (sets.keys q.eset) ≡ has q c
  unfolding has
  has-keys q c = sets.contains-keys q.eset c

  pub len-keys : (q : Queue Cid Set) → len q ≡ length (sets.keys q.eset)
  unfolding len
  len-keys q = refl

  pub push-IsCovered : (q : Queue Cid Set) (c : Cid) → IsCovered q → IsCovered (push q c)
  unfolding has push
  push-IsCovered q c v d h =
      ground (arith, v d, sets.has-add q.eset c d, contains-append d q.elems (c ∷ []))

  pub remove-IsCovered : (q : Queue Cid Set) (c : Cid) → IsCovered q → IsCovered (remove q c)
  unfolding has remove
  remove-IsCovered q c v d h = ground (arith, v d, sets.has-remove q.eset c d)

  pub cids-IsCovered : (q : Queue Cid Set) → IsCovered q → IsCovered (cids q).0
  unfolding has cids
  cids-IsCovered q v d h = ground (arith, v d, contains-select (sets.has q.eset) d q.elems)

  -- Whether some element is a member.
  abbrev pub any_live : Set → List Cid → Bool
  any_live s [] = false
  any_live s (c ∷ cs) = sets.has s c || any_live s cs

  -- Pop's loop takes the first element that is a member, and skips only elements that are not.
  pop_from_lem :
      (undef : Cid) (s : Set) (cs : List Cid)
      → any_live s cs ≡ true
      → let (c, q) = pop_from undef s cs in
        (sets.has s c ≡ true)
        × (q.eset ≡ sets.remove s c)
        × (select (sets.has s) cs ≡ c ∷ select (sets.has s) q.elems)
  unfolding pop_from
  pop_from_lem undef s [] h = cc
  pop_from_lem undef s (c ∷ cs) h = ground (arith, pop_from_lem undef s cs)

  pop_from-IsCovered :
      (undef : Cid) (s : Set) (cs : List Cid)
      → ((c : Cid) → sets.has s c ≡ true → contains c cs ≡ true)
      → IsCovered (pop_from undef s cs).1
  unfolding pop_from has
  pop_from-IsCovered undef s [] v d h = v d h
  pop_from-IsCovered undef s (c ∷ cs) v d h =
      let rest = λ (e : sets.has s c ≡ false).
        pop_from-IsCovered undef s cs (λ c' h'. ground (arith, v c' h', e, eq_of_same c c')) d in
      ground (arith, v d, sets.has-remove s c d, rest)

  pub pop-IsCovered : (undef : Cid) (q : Queue Cid Set) → IsCovered q → IsCovered (pop undef q).1
  unfolding pop has
  pop-IsCovered undef q v = pop_from-IsCovered undef q.eset q.elems v

  any_live_of_contains :
      (s : Set) (c : Cid) (cs : List Cid)
      → sets.has s c ≡ true
      → contains c cs ≡ true
      → any_live s cs ≡ true
  any_live_of_contains s c [] h m = cc
  any_live_of_contains s c (d ∷ cs) h m =
      ground (arith, any_live_of_contains s c cs h, eq_of_same d c)

  any_live_of_keys :
      (s : Set) (cs ks : List Cid)
      → ((c : Cid) → contains c ks ≡ true → (sets.has s c ≡ true) × (contains c cs ≡ true))
      → 0 < length ks
      → any_live s cs ≡ true
  any_live_of_keys s cs [] h pos = absurd (omega arith)
  any_live_of_keys s cs (k ∷ ks) h pos =
      let (live, at) = h k (ground arith) in any_live_of_contains s k cs live at

  len-lt :
      (q' q : Queue Cid Set) (c : Cid)
      → ((d : Cid) → has q' d ≡ (not (same c d) && has q d))
      → has q c ≡ true
      → len q' < len q
  unfolding len has
  len-lt q' q c taken member = omega (
    arith,
    length-le_of_Includes (c ∷ sets.keys q'.eset) (sets.keys q.eset)
        (ground (arith, taken c, sets.contains-keys q'.eset c), sets.keys-distinct q'.eset)
        (λ d k. ground (
          arith,
          taken d,
          sets.contains-keys q'.eset d,
          sets.contains-keys q.eset d,
          eq_of_same c d,
        )),
  )

  -- Pop of a queue whose members all stand among its elements, and that has a member, returns a
  -- member: the first in the order of the elements. It takes that CID out of the queue, and no
  -- other; the members that stay keep their order.
  pub pop_lem :
      (undef : Cid) (q : Queue Cid Set)
      → IsCovered q
      → 0 < len q
      → let (c, q') = pop undef q in
        (has q c ≡ true)
        × ((d : Cid) → has q' d ≡ (not (same c d) && has q d))
        × (select (has q) q.elems ≡ c ∷ select (has q) q'.elems)
  unfolding pop len has
  pop_lem undef q v pos =
      let live =
        any_live_of_keys q.eset q.elems (sets.keys q.eset)
          (λ c h. let m = sym (sets.contains-keys q.eset c) ∙ h in (m, v c m)) pos in
      let (member, taken, order) = pop_from_lem undef q.eset q.elems live in
      (member, λ d. rw (taken, has) (sets.has-remove q.eset _ d), order)

  -- Cids lists exactly the members, whether or not it finds that elements were removed.
  pub contains-cids : (q : Queue Cid Set) (c : Cid) → IsCovered q → contains c (cids q).1 ≡ has q c
  unfolding cids has
  contains-cids q c v = elim (Bool-cases (ltb (length (sets.keys q.eset)) (length q.elems))) [
    | inl longer ↦ ground (arith, longer, v c, contains-select (sets.has q.eset) c q.elems)
    | inr same_length ↦
        let back =
          Includes-of_length-le (sets.keys q.eset) q.elems (sets.keys-distinct q.eset)
            (λ d h. v d (sym (sets.contains-keys q.eset d) ∙ h)) (ground arith) c in
        ground (arith, same_length, v c, back, sets.contains-keys q.eset c)
  ]

  -- Pop of a queue with a member leaves a shorter one.
  pub len-pop :
      (undef : Cid) (q : Queue Cid Set) → IsCovered q → 0 < len q → len (pop undef q).1 < len q
  len-pop undef q v pos =
      let (member, taken, _) = pop_lem undef q v pos in
      len-lt (pop undef q).1 q (pop undef q).0 (λ d. taken d) member

module _ (Cid Set : Type 0) ⦃key : Key Cid⦄ ⦃sets : SetOps Cid Set⦄ where
  pub new-IsCovered : IsCovered (new {Cid = Cid} {Set = Set})
  unfolding has new
  new-IsCovered c h = ground (arith, sets.has-empty c)
