-- ===== src/ForwardGraph/Successors.antt =====
-- The successors are connected peers, no more than the target, and as many as can be after they
-- are chosen anew.
use boxo.Base.{
  ℕ, zero, suc, ◌+◌, ◌≤◌, ◌<◌, Bool, true, false, not, ◌&&◌, List, [], ◌∷◌, Key, eq_of_same,
  same_refl, contains, contains-select, contains-get_elem?, length, ltb, arith, ◌≡◌, ◌∙◌, refl,
  Bool-cases, inl, inr, IsDistinct, ◌⊎◌,
}
use boxo.Base.Nested.{contains-empty, is_empty}
use boxo.Base.Sets.{
  contains-insert_key, insert_key-IsDistinct, length-insert_key, contains-without,
  without-IsDistinct, length-without_distinct,
}
use boxo.Base.Float.{IntOfFloat}
use boxo.ForwardGraph.{
  Graph, Effect, use_complete_graph, successor_target, add_successor, remove_successor, candidates,
  find_one_new_successor, remove_all, fill,
}
use boxo.ForwardGraph.Choice.{IsInRange, get_elem?-IsInRange, get_elem?-empty}

module _ {Peer : Type 0} ⦃key : Key Peer⦄ ⦃conversion : IntOfFloat⦄ where
  pub record IsRegular (g : Graph Peer) : Type 0 where
    pub connected_once : IsDistinct g.connected
    pub successors_once : IsDistinct g.successors
    pub are_connected : (p : Peer) → contains p g.successors ≡ true → contains p g.connected ≡ true
    pub within : length g.successors ≤ successor_target g

  -- All connected peers are successors, or the target is met.
  abbrev pub IsFilled : Graph Peer → Type 0
  IsFilled g =
      (successor_target g ≤ length g.successors)
      ⊎ ((p : Peer) → contains p g.connected ≡ true → contains p g.successors ≡ true)

  contains-candidates :
      (g : Graph Peer) (p : Peer)
      → contains p (candidates g) ≡ (contains p g.connected && not (contains p g.successors))
  unfolding candidates
  contains-candidates g p = contains-select (λ q. not (contains q g.successors)) p g.connected

  -- one more successor, from the candidates
  add_successor-IsRegular :
      (g : Graph Peer) (p : Peer)
      → IsRegular g
      → length g.successors < successor_target g
      → contains p (candidates g) ≡ true
      → IsRegular (add_successor g p).0
        × (length (add_successor g p).0.successors ≡ length g.successors + 1)
  unfolding add_successor successor_target
  add_successor-IsRegular g p v l h =
      let new : contains p g.successors ≡ false = ground (arith, contains-candidates g p) in
      let n = length-insert_key p g.successors in
      (
        record {
          connected_once = v.connected_once;
          successors_once = insert_key-IsDistinct p g.successors v.successors_once;
          are_connected = λ q s. ground (
            arith,
            s,
            contains-insert_key p q g.successors,
            v.are_connected q,
            contains-candidates g p,
            eq_of_same p q,
          );
          within = ground (arith, n, l, new);
        },
        ground (arith, n, new),
      )

  -- What one search does: it finds one more successor, or there is none to find.
  abbrev pub Found : Graph Peer → Graph Peer × List (Effect Peer) × Bool → Type 0
  Found g r =
      IsRegular r.0
      × (r.0.degree ≡ g.degree)
      × (r.0.timer ≡ g.timer)
      × (r.0.connected ≡ g.connected)
      × (((r.2 ≡ true) × (length r.0.successors ≡ length g.successors + 1))
          ⊎ ((r.2 ≡ false) × IsFilled r.0))

  pub find_one-Found :
      (pick : List Peer → ℕ) (g : Graph Peer)
      → IsInRange pick
      → use_complete_graph g ≡ false
      → IsRegular g
      → length g.successors < successor_target g
      → Found g (find_one_new_successor pick g)
  unfolding find_one_new_successor add_successor
  find_one-Found pick g r n v l = elim (Bool-cases (is_empty (candidates g))) [
    | inl none_left ↦
        rw
          (
            n,
            get_elem?-empty (candidates g) (pick (candidates g)) none_left,
            find_one_new_successor,
          )
          (
            v,
            refl,
            refl,
            refl,
            inr (
              refl,
              inr (λ q h.
                  ground
                    (arith, h, contains-candidates g q, contains-empty (candidates g) q none_left)),
            ),
          )
    | inr some_left ↦
        let (p, e) = get_elem?-IsInRange pick (candidates g) r some_left in
        let (v', k) =
          add_successor-IsRegular g p v l
            (contains-get_elem? (candidates g) (pick (candidates g)) p e) in
        rw (n, e, find_one_new_successor) (v', refl, refl, refl, inl (refl, k))
  ]

  pub remove_successor-IsRegular :
      (g : Graph Peer) (p : Peer)
      → IsRegular g
      → IsRegular (remove_successor g p).0
        × (contains p g.successors ≡ true
            → length (remove_successor g p).0.successors + 1 ≡ length g.successors)
  unfolding remove_successor successor_target
  remove_successor-IsRegular g p v =
      let n = length-without_distinct p g.successors v.successors_once in
      (
        record {
          connected_once = v.connected_once;
          successors_once = without-IsDistinct p g.successors v.successors_once;
          are_connected =
              λ q s. ground (arith, s, contains-without p q g.successors, v.are_connected q);
          within = ground (arith, n, v.within);
        },
        λ h. ground (arith, n, h),
      )

  pub remove_all_rest :
      (ps : List Peer) (g : Graph Peer)
      → ((remove_all g ps).0.degree ≡ g.degree)
        × ((remove_all g ps).0.timer ≡ g.timer)
        × ((remove_all g ps).0.connected ≡ g.connected)
  unfolding remove_all remove_successor
  remove_all_rest [] g = ground arith
  remove_all_rest (p ∷ ps) g = ground (arith, remove_all_rest ps (remove_successor g p).0)

  contains-remove_all :
      (ps : List Peer) (g : Graph Peer) (q : Peer)
      → contains q (remove_all g ps).0.successors ≡ (contains q g.successors && not (contains q ps))
  unfolding remove_all remove_successor
  contains-remove_all [] g q = ground arith
  contains-remove_all (p ∷ ps) g q =
      ground (
        arith,
        contains-remove_all ps (remove_successor g p).0 q,
        contains-without p q g.successors,
      )

  nothing_contained : (xs : List Peer) → ((q : Peer) → contains q xs ≡ false) → xs ≡ []
  nothing_contained [] h = refl
  nothing_contained (x ∷ xs) h = ground (arith, h x, same_refl x)

  pub remove_all-empty : (g : Graph Peer) → (remove_all g g.successors).0.successors ≡ []
  remove_all-empty g =
      nothing_contained (remove_all g g.successors).0.successors
        (λ q. ground (arith, contains-remove_all g.successors g q))

  pub same_use_complete_graph :
      (g h : Graph Peer) → g.degree ≡ h.degree → use_complete_graph g ≡ use_complete_graph h
  unfolding use_complete_graph
  same_use_complete_graph g h e = rw e

  rest_lem :
      (fuel : ℕ) (g h : Graph Peer)
      → h.degree ≡ g.degree
      → length h.successors ≡ length g.successors + 1
      → successor_target g ≤ length g.successors + suc fuel
      → successor_target h ≤ length h.successors + fuel
  unfolding successor_target
  rest_lem fuel g h d k l = ground (arith, d, k, l)

  find_one-timer :
      (pick : List Peer → ℕ) (g : Graph Peer) → (find_one_new_successor pick g).0.timer ≡ g.timer
  unfolding find_one_new_successor add_successor
  find_one-timer pick g = ground arith

  pub fill-timer :
      (fuel : ℕ) (picks : ℕ → List Peer → ℕ) (g : Graph Peer)
      → (fill fuel picks g).0.timer ≡ g.timer
  unfolding fill
  fill-timer zero picks g = refl
  fill-timer (suc fuel) picks g =
      let g1 = (find_one_new_successor (picks fuel) g).0 in
      ground (arith, find_one-timer (picks fuel) g, fill-timer fuel picks g1)

  -- The loop with enough fuel ends with the successors filled up.
  pub fill_lem :
      (fuel : ℕ) (picks : ℕ → List Peer → ℕ) (g : Graph Peer)
      → ((i : ℕ) → IsInRange (picks i))
      → use_complete_graph g ≡ false
      → IsRegular g
      → successor_target g ≤ length g.successors + fuel
      → IsRegular (fill fuel picks g).0
        × ((fill fuel picks g).0.degree ≡ g.degree)
        × ((fill fuel picks g).0.timer ≡ g.timer)
        × ((fill fuel picks g).0.connected ≡ g.connected)
        × IsFilled (fill fuel picks g).0
  unfolding fill
  fill_lem zero picks g r n v l = (v, refl, refl, refl, inl (omega (arith, l)))
  fill_lem (suc fuel) picks g r n v l =
      elim (Bool-cases (ltb (length g.successors) (successor_target g))) [
        | inr full ↦ rw (full, fill) (v, refl, refl, refl, inl (ground (arith, full)))
        | inl room ↦
            let (v1, d1, t1, c1, found) =
              find_one-Found (picks fuel) g (r fuel) n v (ground (arith, room)) in
            elim found [
              | inr (f, filled) ↦ rw (room, f, fill) (v1, d1, t1, c1, filled)
              | inl (f, k) ↦
                  let g1 = (find_one_new_successor (picks fuel) g).0 in
                  let (v2, d2, t2, c2, filled) =
                    fill_lem fuel picks g1 r (same_use_complete_graph g1 g d1 ∙ n) v1
                      (rest_lem fuel g g1 d1 k l) in
                  rw (room, f, fill) (v2, d2 ∙ d1, t2 ∙ t1, c2 ∙ c1, filled)
            ]
      ]
