-- ===== src/CidQueue.antt =====
-- bitswap/client/internal/session/cidqueue.go: a queue of CIDs whose removals are lazy. `undef` is
-- the undefined CID, `cid.Cid{}`.
pub mod Laws
pub mod Requeue
mod Tests
use boxo.Base.{ℕ, Bool, true, false, List, [], ◌∷◌, ◌++◌, Key, if◌then◌else◌, length, select, ltb}
use boxo.Base.Sets.{SetOps, visit}

pub record Queue (Cid Set : Type 0) : Type 0 where
  pub elems : List Cid
  pub eset : Set

module _ {Cid Set : Type 0} ⦃key : Key Cid⦄ ⦃sets : SetOps Cid Set⦄ where
  unfoldable pub new : Queue Cid Set
  new = record { elems = []; eset = sets.empty }

  -- the loop of `Pop`, over the elements that are left
  pub pop_from : Cid → Set → List Cid → Cid × Queue Cid Set
  pop_from undef s [] = (undef, record { elems = []; eset = s })
  pop_from undef s (c ∷ cs) =
      let rest = pop_from undef s cs in
      if sets.has s c then (c, record { elems = cs; eset = sets.remove s c }) else rest

  unfoldable pub pop : Cid → Queue Cid Set → Cid × Queue Cid Set
  unfolding pop_from
  pop undef q = pop_from undef q.eset q.elems

  -- `Cids`: the queue with its removed elements dropped, and its elements.
  pub cids : Queue Cid Set → Queue Cid Set × List Cid
  cids q =
      let elems =
        if ltb (length (sets.keys q.eset)) (length q.elems)
        then select (sets.has q.eset) q.elems
        else q.elems in
      (record q { elems = elems }, elems)

  unfoldable pub push : Queue Cid Set → Cid → Queue Cid Set
  push q c =
      let (s, added) = visit q.eset c in
      if added then record { elems = q.elems ++ c ∷ []; eset = s } else record q { eset = s }

  unfoldable pub remove : Queue Cid Set → Cid → Queue Cid Set
  remove q c = record q { eset = sets.remove q.eset c }

  unfoldable pub has : Queue Cid Set → Cid → Bool
  has q c = sets.has q.eset c

  unfoldable pub len : Queue Cid Set → ℕ
  len q = length (sets.keys q.eset)
