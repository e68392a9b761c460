-- ===== src/ForwardGraph/History.antt =====
-- The graph through sequences of events: connections, a new degree, and the timer. The write of
-- the degree takes no lock, so that other calls come between it and the choice that follows it, and
-- it is done also when the lock is held for ever.
use boxo.Base.{
  ℕ, Bool, true, false, IsDistinct, ◌≡◌, List, [], ◌∷◌, ◌++◌, Key, arith, refl, Bool-cases, inl,
  inr,
}
use boxo.Base.Sets.{insert_key, without}
use boxo.Base.Float.{IntOfFloat}
use boxo.ForwardGraph.{
  spent, Graph, Effect, use_complete_graph, remove_successor, find_one_new_successor, chosen,
  restart, select_new_successors, write_degree, set_forward_graph_degree, on_timer, add_peer,
  remove_peer,
}
use boxo.ForwardGraph.Choice.{IsInRange}
use boxo.ForwardGraph.Selection.{select_new_successors_complete, select_new_successors-chosen}
use boxo.ForwardGraph.Protection.{
  protected, Tracks, Tracks-append, chosen-Tracks, find_one-Tracks, remove_successor-Tracks,
}
use boxo.ForwardGraph.Soundness.{
  state_after, IsSound, add_peer_lem, remove_peer_lem, add_peer-connected_once,
  remove_peer-connected_once, add_peer-IsSound, remove_peer-IsSound, select-IsSound,
}

pub data Call (Peer : Type 0) : Type 0 where
  connects disconnects : Peer → (List Peer → ℕ) → Call Peer
  sets_degree : ℕ → (ℕ → List Peer → ℕ) → Call Peer
  -- the two parts of setForwardGraphDegree, between which other calls may come
  writes_degree : ℕ → Call Peer
  selects : (ℕ → List Peer → ℕ) → Call Peer
  expires : (ℕ → List Peer → ℕ) → Call Peer

module _ {Peer : Type 0} where
  -- All random draws of the call are in range.
  abbrev pub DrawsInRange : Call Peer → Type 0
  DrawsInRange (connects p pick) = IsInRange pick
  DrawsInRange (disconnects p pick) = IsInRange pick
  DrawsInRange (sets_degree d picks) = (i : ℕ) → IsInRange (picks i)
  DrawsInRange (writes_degree d) = Unit {0}
  DrawsInRange (selects picks) = (i : ℕ) → IsInRange (picks i)
  DrawsInRange (expires picks) = (i : ℕ) → IsInRange (picks i)

  abbrev pub AllInRange : List (Call Peer) → Type 0
  AllInRange [] = Unit {0}
  AllInRange (c ∷ cs) = DrawsInRange c × AllInRange cs

module _ {Peer : Type 0} ⦃key : Key Peer⦄ ⦃conversion : IntOfFloat⦄ where
  -- One call, when the lock is free and when it is held for ever: the graph after it, what it tells
  -- the connection manager, and whether the lock is free after it.
  unfoldable pub step : Bool → Graph Peer → Call Peer → Graph Peer × List (Effect Peer) × Bool
  unfolding state_after write_degree set_forward_graph_degree
  step free g (sets_degree d picks) = state_after (set_forward_graph_degree picks free g d)
  step free g (writes_degree d) = (write_degree g d, [], free)
  step true g (connects p pick) = let (g', es) = add_peer pick g p in (g', es, true)
  step true g (disconnects p pick) = let (g', es) = remove_peer pick g p in (g', es, true)
  step true g (selects picks) = state_after (select_new_successors picks g)
  step true g (expires picks) = state_after (on_timer picks g)
  step false g c = (g, [], false)

  unfoldable pub run : Bool → Graph Peer → List (Call Peer) → Graph Peer × List (Effect Peer) × Bool
  unfolding step
  run free g [] = (g, [], free)
  run free g (c ∷ cs) =
      let (g1, es1, free1) = step free g c in
      let (g2, es2, free2) = run free1 g1 cs in (g2, es1 ++ es2, free2)

  -- Whether the successors were chosen since the last write of the degree, if they were or were not
  -- before the call.
  abbrev pub chosen_after : Bool → Bool → Call Peer → Bool
  chosen_after free b (sets_degree d picks) = free
  chosen_after free b (writes_degree d) = false
  chosen_after true b (selects picks) = true
  chosen_after true b (expires picks) = true
  chosen_after free b c = b

  unfoldable pub chosen_since_write : Bool → Bool → Graph Peer → List (Call Peer) → Bool
  chosen_since_write free b g [] = b
  chosen_since_write free b g (c ∷ cs) =
      let (g1, es1, free1) = step free g c in chosen_since_write free1 (chosen_after free b c) g1 cs

  abbrev IsSoundIf : Bool → Graph Peer → Type 0
  IsSoundIf b g = IsDistinct g.connected × (b ≡ true → IsSound g)

  step-IsSoundIf :
      (free b : Bool) (g : Graph Peer) (c : Call Peer)
      → DrawsInRange c
      → IsSoundIf b g
      → IsSoundIf (chosen_after free b c) (step free g c).0
  unfolding step state_after write_degree set_forward_graph_degree on_timer
  step-IsSoundIf true b g (sets_degree d picks) r s =
      let v = select-IsSound picks (record g { degree = d }) r s.0 in (v.0, λ e. v)
  step-IsSoundIf false b g (sets_degree d picks) r s = (s.0, λ e. cc)
  step-IsSoundIf true b g (writes_degree d) r s = (s.0, λ e. cc)
  step-IsSoundIf false b g (writes_degree d) r s = (s.0, λ e. cc)
  step-IsSoundIf true b g (connects p pick) r s =
      (add_peer-connected_once pick g p s.0, λ e. add_peer-IsSound pick g p r (s.1 e))
  step-IsSoundIf true b g (disconnects p pick) r s =
      (remove_peer-connected_once pick g p s.0, λ e. remove_peer-IsSound pick g p r (s.1 e))
  step-IsSoundIf true b g (selects picks) r s =
      let v = select-IsSound picks g r s.0 in (v.0, λ e. v)
  step-IsSoundIf true b g (expires picks) r s =
      let v = select-IsSound picks (record g { timer = spent }) r s.0 in (v.0, λ e. v)
  step-IsSoundIf false b g (connects p pick) r s = s
  step-IsSoundIf false b g (disconnects p pick) r s = s
  step-IsSoundIf false b g (selects picks) r s = s
  step-IsSoundIf false b g (expires picks) r s = s

  run-IsSoundIf :
      (free b : Bool) (g : Graph Peer) (cs : List (Call Peer))
      → AllInRange cs
      → IsSoundIf b g
      → IsSoundIf (chosen_since_write free b g cs) (run free g cs).0
  unfolding run chosen_since_write
  run-IsSoundIf free b g [] r s = s
  run-IsSoundIf free b g (c ∷ cs) r s =
      let (g1, es1, free1) = step free g c in
      run-IsSoundIf free1 (chosen_after free b c) g1 cs r.1 (step-IsSoundIf free b g c r.0 s)

  -- Through every sequence of connections, disconnections, writes of the degree, choices of new
  -- successors and expiries of the timer, from a sound graph on, with the lock free or held for ever
  -- at the start, whatever peers are drawn: if new successors were chosen since the last write of the degree, whether that
  -- choice returned or held the lock for ever, then the connected peers stand once, and in an
  -- incomplete graph the successors are connected peers, each of them once, and no more than
  -- successorTarget.
  pub run-IsSound :
      (free : Bool) (g : Graph Peer) (cs : List (Call Peer))
      → AllInRange cs
      → IsSound g
      → chosen_since_write free true g cs ≡ true
      → IsSound (run free g cs).0
  run-IsSound free g cs r s e = (run-IsSoundIf free true g cs r (s.0, λ t. s)).1 e

  restart-Tracks :
      (g h : Graph Peer) (es : List (Effect Peer))
      → Tracks g h es
      → Tracks g (state_after (restart h es)).0 (state_after (restart h es)).1
  unfolding restart state_after
  restart-Tracks g h es t p = ground (arith, t p)

  select-Tracks :
      (picks : ℕ → List Peer → ℕ) (g : Graph Peer)
      → Tracks g
          (state_after (select_new_successors picks g)).0
          (state_after (select_new_successors picks g)).1
  unfolding state_after protected
  select-Tracks picks g = elim (Bool-cases (use_complete_graph g)) [
    | inl all ↦ rw (select_new_successors_complete picks g all) (λ p. refl)
    | inr some ↦
        rw (select_new_successors-chosen picks g some)
          (restart-Tracks g (chosen picks g).0 (chosen picks g).1 (chosen-Tracks picks g))
  ]

  step-Tracks :
      (free : Bool) (g : Graph Peer) (c : Call Peer) → Tracks g (step free g c).0 (step free g c).1
  unfolding step state_after write_degree set_forward_graph_degree on_timer protected
  step-Tracks true g (connects p pick) q =
      let g1 = record g { connected = insert_key p g.connected } in
      rw (add_peer_lem pick g p) (ground (arith, find_one-Tracks pick g1 q))
  step-Tracks true g (disconnects p pick) q =
      let g1 = record g { connected = without p g.connected } in
      let (g2, es2) = remove_successor g1 p in
      let r = find_one_new_successor pick g2 in
      rw (remove_peer_lem pick g p) (
        ground (
          arith,
          Tracks-append g1 g2 r.0 es2 r.1 (remove_successor-Tracks g1 p) (find_one-Tracks pick g2)
              q,
        ))
  step-Tracks true g (sets_degree d picks) q = select-Tracks picks (record g { degree = d }) q
  step-Tracks true g (writes_degree d) q = refl
  step-Tracks true g (selects picks) q = select-Tracks picks g q
  step-Tracks true g (expires picks) q = select-Tracks picks (record g { timer = spent }) q
  step-Tracks false g (sets_degree d picks) q = refl
  step-Tracks false g (writes_degree d) q = refl
  step-Tracks false g (connects p pick) q = refl
  step-Tracks false g (disconnects p pick) q = refl
  step-Tracks false g (selects picks) q = refl
  step-Tracks false g (expires picks) q = refl

  -- Through every sequence of connections, disconnections, writes of the degree, choices of new
  -- successors and expiries of the timer, with the lock free or held for ever at the start, the
  -- connection manager is told to protect exactly the successors:
  -- if they were the protected peers before, they are after.
  pub run-Tracks :
      (free : Bool) (g : Graph Peer) (cs : List (Call Peer))
      → Tracks g (run free g cs).0 (run free g cs).1
  unfolding run protected
  run-Tracks free g [] q = refl
  run-Tracks free g (c ∷ cs) q =
      let (g1, es1, free1) = step free g c in
      Tracks-append g g1 (run free1 g1 cs).0 es1 (run free1 g1 cs).1 (step-Tracks free g c)
        (run-Tracks free1 g1 cs) q
