-- ===== src/ForwardGraph/Soundness.antt =====
-- Each operation keeps the successors sound.
use boxo.Base.{
  ℕ, ◌<◌, Bool, true, false, List, [], ◌++◌, Key, eq_of_same, contains, if◌then◌else◌, length, ltb,
  arith, ◌≡◌, ◌∙◌, refl, sym, subst, Bool-cases, inl, inr, IsDistinct,
}
use boxo.Base.Sets.{
  insert_key, without, contains-insert_key, insert_key-IsDistinct, contains-without,
  without-IsDistinct, length-without_distinct,
}
use boxo.Base.Float.{IntOfFloat}
use boxo.ForwardGraph.{
  Timer, Graph, Effect, Outcome, returns, hangs, use_complete_graph, successor_target,
  remove_successor, find_one_new_successor, chosen, restart, select_new_successors, add_successor,
  add_peer, remove_peer,
}
use boxo.ForwardGraph.Choice.{IsInRange}
use boxo.ForwardGraph.Successors.{IsRegular, find_one-Found, same_use_complete_graph}
use boxo.ForwardGraph.Selection.{
  is_spent, Timer-cases, Timer-spent, chosen-IsChosen, select_new_successors_complete,
  select_new_successors-chosen,
}

module _ {Peer : Type 0} where
  -- the graph and the effects of an outcome, and whether the manager goes on
  unfoldable pub state_after : Outcome Peer → Graph Peer × List (Effect Peer) × Bool
  state_after (returns g es ps) = (g, es, true)
  state_after (hangs g es) = (g, es, false)

module _ {Peer : Type 0} ⦃key : Key Peer⦄ ⦃conversion : IntOfFloat⦄ where
  -- The connected peers stand once; in an incomplete graph the successors are regular.
  abbrev pub IsSound : Graph Peer → Type 0
  IsSound g = IsDistinct g.connected × (use_complete_graph g ≡ false → IsRegular g)

  connect-IsRegular :
      (g : Graph Peer) (p : Peer)
      → IsRegular g
      → IsRegular (record g { connected = insert_key p g.connected })
  unfolding successor_target
  connect-IsRegular g p v = record {
    connected_once = insert_key-IsDistinct p g.connected v.connected_once;
    successors_once = v.successors_once;
    are_connected =
        λ q h. ground (arith, h, contains-insert_key p q g.connected, v.are_connected q);
    within = v.within;
  }

  pub add_peer_lem :
      (pick : List Peer → ℕ) (g : Graph Peer) (p : Peer)
      → let g1 = record g { connected = insert_key p g.connected } in
        let r = find_one_new_successor pick g1 in
        add_peer pick g p ≡ (
          if use_complete_graph g1
          then (g1, [])
          else if ltb (length g1.successors) (successor_target g1)
          then (r.0, r.1)
          else (g1, []))
  unfolding add_peer
  add_peer_lem pick g p = refl

  pub remove_peer_lem :
      (pick : List Peer → ℕ) (g : Graph Peer) (p : Peer)
      → let g1 = record g { connected = without p g.connected } in
        let (g2, es2) = remove_successor g1 p in
        let r = find_one_new_successor pick g2 in
        remove_peer pick g p ≡ (
          if use_complete_graph g1
          then (g1, [])
          else if contains p g1.successors
          then (r.0, es2 ++ r.1)
          else (g1, []))
  unfolding remove_peer
  remove_peer_lem pick g p = refl

  pub add_peer-IsSound :
      (pick : List Peer → ℕ) (g : Graph Peer) (p : Peer)
      → IsInRange pick
      → IsSound g
      → IsSound (add_peer pick g p).0
  add_peer-IsSound pick g p r s =
      let g1 = record g { connected = insert_key p g.connected } in
      let d1 = insert_key-IsDistinct p g.connected s.0 in
      elim (Bool-cases (use_complete_graph g1)) [
        | inl all ↦ rw (add_peer_lem pick g p, all) (d1, λ n. cc)
        | inr some ↦
            let v1 = connect-IsRegular g p (s.1 (same_use_complete_graph g g1 refl ∙ some)) in
            elim (Bool-cases (ltb (length g1.successors) (successor_target g1))) [
              | inl room ↦
                  let (v2, d2, t2, c2, f) =
                    find_one-Found pick g1 r some v1 (ground (arith, room)) in
                  rw (add_peer_lem pick g p, some, room) (v2.connected_once, λ n. v2)
              | inr full ↦ rw (add_peer_lem pick g p, some, full) (d1, λ n. v1)
            ]
      ]

  find_one-connected :
      (pick : List Peer → ℕ) (g : Graph Peer)
      → (find_one_new_successor pick g).0.connected ≡ g.connected
  unfolding find_one_new_successor add_successor
  find_one-connected pick g = ground arith

  add_peer-connected :
      (pick : List Peer → ℕ) (g : Graph Peer) (p : Peer)
      → (add_peer pick g p).0.connected ≡ insert_key p g.connected
  unfolding add_peer
  add_peer-connected pick g p =
      ground (arith, find_one-connected pick (record g { connected = insert_key p g.connected }))

  remove_peer-connected :
      (pick : List Peer → ℕ) (g : Graph Peer) (p : Peer)
      → (remove_peer pick g p).0.connected ≡ without p g.connected
  unfolding remove_peer remove_successor
  remove_peer-connected pick g p =
      let g1 = record g { connected = without p g.connected } in
      ground (arith, find_one-connected pick (remove_successor g1 p).0)

  disconnect-IsRegular :
      (g : Graph Peer) (p : Peer)
      → IsRegular g
      → contains p g.successors ≡ false
      → IsRegular (record g { connected = without p g.connected })
  unfolding successor_target
  disconnect-IsRegular g p v n = record {
    connected_once = without-IsDistinct p g.connected v.connected_once;
    successors_once = v.successors_once;
    are_connected = λ q h.
        ground (arith, h, n, contains-without p q g.connected, v.are_connected q, eq_of_same p q);
    within = v.within;
  }

  -- the graph without a peer that was a successor
  lose_successor-IsRegular :
      (g : Graph Peer) (p : Peer)
      → IsRegular g
      → contains p g.successors ≡ true
      → IsRegular (remove_successor (record g { connected = without p g.connected }) p).0
        × (length (remove_successor (record g { connected = without p g.connected }) p).0.successors
            < successor_target
                (remove_successor (record g { connected = without p g.connected }) p).0)
        × ((remove_successor (record g { connected = without p g.connected }) p).0.degree
            ≡ g.degree)
  unfolding remove_successor successor_target
  lose_successor-IsRegular g p v h =
      let n = length-without_distinct p g.successors v.successors_once in
      (
        record {
          connected_once = without-IsDistinct p g.connected v.connected_once;
          successors_once = without-IsDistinct p g.successors v.successors_once;
          are_connected = λ q s. ground (
            arith,
            s,
            contains-without p q g.connected,
            contains-without p q g.successors,
            v.are_connected q,
          );
          within = ground (arith, n, v.within);
        },
        ground (arith, n, h, v.within),
        refl,
      )

  pub remove_peer-IsSound :
      (pick : List Peer → ℕ) (g : Graph Peer) (p : Peer)
      → IsInRange pick
      → IsSound g
      → IsSound (remove_peer pick g p).0
  remove_peer-IsSound pick g p r s =
      let g1 = record g { connected = without p g.connected } in
      let d1 = without-IsDistinct p g.connected s.0 in
      elim (Bool-cases (use_complete_graph g1)) [
        | inl all ↦ rw (remove_peer_lem pick g p, all) (d1, λ n. cc)
        | inr some ↦
            let v = s.1 (same_use_complete_graph g g1 refl ∙ some) in
            elim (Bool-cases (contains p g1.successors)) [
              | inl was ↦
                  let (v1, room, same_degree) = lose_successor-IsRegular g p v was in
                  let (v2, d2, t2, c2, f) =
                    find_one-Found pick (remove_successor g1 p).0 r
                      (same_use_complete_graph (remove_successor g1 p).0 g1 same_degree ∙ some) v1
                      room in
                  rw (remove_peer_lem pick g p, some, was) (v2.connected_once, λ n. v2)
              | inr not_was ↦
                  rw (remove_peer_lem pick g p, some, not_was)
                    (d1, λ n. disconnect-IsRegular g p v not_was)
            ]
      ]

  restart-IsRegular :
      (g : Graph Peer) (es : List (Effect Peer))
      → IsRegular g
      → IsRegular (state_after (restart g es)).0
  unfolding restart state_after successor_target
  restart-IsRegular g es v =
      let moved : IsRegular (record g { timer = Timer.running }) = record {
        connected_once = v.connected_once;
        successors_once = v.successors_once;
        are_connected = v.are_connected;
        within = v.within;
      } in
      elim (Bool-cases (is_spent g.timer)) [
        | inl t ↦ rw (Timer-spent g.timer t, restart) v
        | inr t ↦ elim (Timer-cases g.timer t) [
          | inl e ↦ rw (e, restart) moved
          | inr e ↦ rw (e, restart) moved
        ]
      ]

  pub select-IsSound :
      (picks : ℕ → List Peer → ℕ) (g : Graph Peer)
      → ((i : ℕ) → IsInRange (picks i))
      → IsDistinct g.connected
      → IsSound (state_after (select_new_successors picks g)).0
  unfolding state_after
  select-IsSound picks g r d = elim (Bool-cases (use_complete_graph g)) [
    | inl all ↦ rw (select_new_successors_complete picks g all) (d, λ n. cc)
    | inr some ↦
        let v = (chosen-IsChosen picks g r some d).0.regular in
        let w = restart-IsRegular (chosen picks g).0 (chosen picks g).1 v in
        rw (select_new_successors-chosen picks g some) (w.connected_once, λ n. w)
  ]

  -- Distinct peers stay distinct, also between a write of the degree and the choice after it.
  pub add_peer-connected_once :
      (pick : List Peer → ℕ) (g : Graph Peer) (p : Peer)
      → IsDistinct g.connected
      → IsDistinct (add_peer pick g p).0.connected
  add_peer-connected_once pick g p d =
      subst IsDistinct (sym (add_peer-connected pick g p)) (insert_key-IsDistinct p g.connected d)

  pub remove_peer-connected_once :
      (pick : List Peer → ℕ) (g : Graph Peer) (p : Peer)
      → IsDistinct g.connected
      → IsDistinct (remove_peer pick g p).0.connected
  remove_peer-connected_once pick g p d =
      subst IsDistinct (sym (remove_peer-connected pick g p)) (without-IsDistinct p g.connected d)
