-- ===== src/ForwardGraph/Choice.antt =====
-- Which successor a strategy gives, and how a random draw chooses.
use boxo.Base.{
  ℕ, ◌<◌, Bool, true, false, not, ◌&&◌, Option, none, some, List, [], ◌∷◌, Key, contains,
  contains-select, contains-get_elem?, if◌then◌else◌, length, get_elem?, get_elem?-some, arith, ◌≡◌,
  refl,
}
use boxo.Base.Nested.{contains-empty, is_empty}
use boxo.ForwardGraph.{
  Graph, use_complete_graph, random_select, available, get_successor_by_strategy,
}

module _ {Peer : Type 0} where
  -- A draw gives an index of the list, if there is one, as the first number of `rand.Perm` is.
  abbrev pub IsInRange : (List Peer → ℕ) → Type 0
  IsInRange pick = (p : Peer) (ps : List Peer) → pick (p ∷ ps) < length (p ∷ ps)

  pub get_elem?-IsInRange :
      (pick : List Peer → ℕ) (ps : List Peer)
      → IsInRange pick
      → is_empty ps ≡ false
      → (p : Peer) × (get_elem? ps (pick ps) ≡ some p)
  get_elem?-IsInRange pick [] r h = cc
  get_elem?-IsInRange pick (p ∷ ps) r h = get_elem?-some (p ∷ ps) (pick (p ∷ ps)) (r p ps)

  pub get_elem?-empty : (ps : List Peer) (i : ℕ) → is_empty ps ≡ true → get_elem? ps i ≡ none
  get_elem?-empty [] i h = refl
  get_elem?-empty (p ∷ ps) i h = cc

module _ {Peer : Type 0} ⦃key : Key Peer⦄ where
  -- The choice from a list: one of its members, and none only if it has none.
  abbrev pub IsChoice : List Peer → Option Peer → Type 0
  IsChoice ps none = is_empty ps ≡ true
  IsChoice ps (some p) = contains p ps ≡ true

  -- the peers that may be sent a forward: the successors, or all peers in a complete graph
  abbrev pub may_forward : Graph Peer → List Peer → Peer → Bool
  may_forward g exclude p =
      contains p (if use_complete_graph g then g.connected else g.successors)
      && not (contains p exclude)

  -- A peer that may be sent a forward, or none if there is no such peer.
  abbrev pub Suits : Graph Peer → List Peer → Option Peer → Type 0
  Suits g exclude none = (q : Peer) → may_forward g exclude q ≡ false
  Suits g exclude (some p) = may_forward g exclude p ≡ true

  contains-available :
      (g : Graph Peer) (exclude : List Peer) (p : Peer)
      → contains p (available g exclude) ≡ may_forward g exclude p
  unfolding available
  contains-available g exclude p =
      contains-select (λ q. not (contains q exclude)) p
        (if use_complete_graph g then g.connected else g.successors)

  Suits-of_IsChoice :
      (g : Graph Peer) (exclude : List Peer) (o : Option Peer)
      → IsChoice (available g exclude) o
      → Suits g exclude o
  Suits-of_IsChoice g exclude none h =
      λ q. ground (arith, contains-available g exclude q, contains-empty (available g exclude) q h)
  Suits-of_IsChoice g exclude (some p) h = ground (arith, contains-available g exclude p)

module _ {Peer Cid : Type 0} ⦃key : Key Peer⦄ where
  -- A random strategy chooses from its list.
  pub random_select-IsChoice :
      (pick : List Peer → ℕ) (ps : List Peer) (c : Cid)
      → IsInRange pick
      → IsChoice ps (random_select pick ps c)
  unfolding random_select
  random_select-IsChoice pick [] c r = refl
  random_select-IsChoice pick (p ∷ ps) c r =
      let (x, e) = get_elem?-IsInRange pick (p ∷ ps) r refl in
      rw e (contains-get_elem? (p ∷ ps) (pick (p ∷ ps)) x e)

  -- GetSuccessorByStrategy gives a successor of this peer, or in a complete graph a connected peer,
  -- that is not excluded, and none only if there is no such peer, for every strategy that chooses
  -- from its list.
  pub get_successor_by_strategy_lem :
      (strategy : List Peer → Cid → Option Peer) (g : Graph Peer) (c : Cid) (exclude : List Peer)
      → ((ps : List Peer) → IsChoice ps (strategy ps c))
      → Suits g exclude (get_successor_by_strategy strategy g c exclude)
  unfolding get_successor_by_strategy
  get_successor_by_strategy_lem strategy g c exclude h =
      Suits-of_IsChoice g exclude (strategy (available g exclude) c) (h (available g exclude))
