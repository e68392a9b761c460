-- ===== src/ForwardGraph/Protection.antt =====
-- The connections that the manager protects, by what it tells the connection manager.
use boxo.Base.{
  ℕ, zero, suc, Bool, not, ◌&&◌, ◌||◌, List, [], ◌∷◌, ◌++◌, Key, same, contains, get_elem?, arith,
  ◌≡◌, refl, Option-cases, inl, inr,
}
use boxo.Base.Sets.{contains-insert_key, contains-without}
use boxo.Base.Float.{IntOfFloat}
use boxo.ForwardGraph.{
  Graph, Effect, protect, unprotect, successor_target, add_successor, remove_successor, candidates,
  find_one_new_successor, remove_all, fill, chosen,
}

module _ {Peer : Type 0} ⦃key : Key Peer⦄ ⦃conversion : IntOfFloat⦄ where
  -- whether the peer is protected after the effects, if it was or was not before
  unfoldable pub protected : Peer → Bool → List (Effect Peer) → Bool
  protected p b [] = b
  protected p b (protect q ∷ es) = protected p (same q p || b) es
  protected p b (unprotect q ∷ es) = protected p (not (same q p) && b) es

  pub protected-append :
      (p : Peer) (b : Bool) (es fs : List (Effect Peer))
      → protected p b (es ++ fs) ≡ protected p (protected p b es) fs
  unfolding protected
  protected-append p b [] fs = refl
  protected-append p b (protect q ∷ es) fs = protected-append p (same q p || b) es fs
  protected-append p b (unprotect q ∷ es) fs = protected-append p (not (same q p) && b) es fs

  -- The effects protect exactly the successors, if exactly the successors were protected before.
  abbrev pub Tracks : Graph Peer → Graph Peer → List (Effect Peer) → Type 0
  Tracks g g' es = (p : Peer) → protected p (contains p g.successors) es ≡ contains p g'.successors

  pub Tracks-append :
      (g h k : Graph Peer) (es fs : List (Effect Peer))
      → Tracks g h es
      → Tracks h k fs
      → Tracks g k (es ++ fs)
  Tracks-append g h k es fs t u p =
      rw (protected-append p (contains p g.successors) es fs, t p) (u p)

  add_successor-Tracks :
      (g : Graph Peer) (q : Peer) → Tracks g (add_successor g q).0 (add_successor g q).1
  unfolding add_successor protected
  add_successor-Tracks g q p = ground (arith, contains-insert_key q p g.successors)

  pub remove_successor-Tracks :
      (g : Graph Peer) (q : Peer) → Tracks g (remove_successor g q).0 (remove_successor g q).1
  unfolding remove_successor protected
  remove_successor-Tracks g q p = ground (arith, contains-without q p g.successors)

  pub find_one-Tracks :
      (pick : List Peer → ℕ) (g : Graph Peer)
      → Tracks g (find_one_new_successor pick g).0 (find_one_new_successor pick g).1
  unfolding find_one_new_successor protected
  find_one-Tracks pick g p = elim (Option-cases (get_elem? (candidates g) (pick (candidates g)))) [
    | inl e ↦ ground (arith, e)
    | inr (q, e) ↦ ground (arith, e, add_successor-Tracks g q p)
  ]

  pub remove_all-Tracks :
      (ps : List Peer) (g : Graph Peer) → Tracks g (remove_all g ps).0 (remove_all g ps).1
  unfolding remove_all protected
  remove_all-Tracks [] g = λ p. refl
  remove_all-Tracks (q ∷ ps) g =
      let g1 = (remove_successor g q).0 in
      Tracks-append g g1 (remove_all g1 ps).0 (remove_successor g q).1 (remove_all g1 ps).1
        (remove_successor-Tracks g q) (remove_all-Tracks ps g1)

  pub fill-Tracks :
      (fuel : ℕ) (picks : ℕ → List Peer → ℕ) (g : Graph Peer)
      → Tracks g (fill fuel picks g).0 (fill fuel picks g).1
  unfolding fill protected
  fill-Tracks zero picks g p = refl
  fill-Tracks (suc fuel) picks g p =
      let r = find_one_new_successor (picks fuel) g in
      ground (
        arith,
        find_one-Tracks (picks fuel) g p,
        fill-Tracks fuel picks r.0 p,
        protected-append p (contains p g.successors) r.1 (fill fuel picks r.0).1,
      )

  pub chosen-Tracks :
      (picks : ℕ → List Peer → ℕ) (g : Graph Peer) → Tracks g (chosen picks g).0 (chosen picks g).1
  unfolding chosen
  chosen-Tracks picks g =
      let (g1, es1) = remove_all g g.successors in
      let (g2, es2) = fill (successor_target g1) picks g1 in
      Tracks-append g g1 g2 es1 es2 (remove_all-Tracks g.successors g)
        (fill-Tracks (successor_target g1) picks g1)
