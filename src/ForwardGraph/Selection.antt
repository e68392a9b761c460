-- ===== src/ForwardGraph/Selection.antt =====
-- SelectNewSuccessors: what it chooses, and when it hangs.
use boxo.Base.{
  ℕ, ◌/◌, ◌<◌, ap, Bool, true, false, List, [], Key, if◌then◌else◌, length, ltb, arith, ◌≡◌, ◌∙◌,
  refl, inl, inr, ◌⊎◌, IsDistinct,
}
use boxo.Base.Sets.{length-le_of_Includes}
use boxo.Base.Float.{IntOfFloat, max_exact, to_float64_exact}
use boxo.ForwardGraph.{
  Timer, running, expired, spent, Graph, Effect, Outcome, returns, hangs, use_complete_graph,
  successor_target, remove_all, chosen, restart, select_new_successors, on_timer,
}
use boxo.ForwardGraph.Choice.{IsInRange}
use boxo.ForwardGraph.Successors.{
  IsRegular, IsFilled, remove_all_rest, remove_all-empty, fill_lem, same_use_complete_graph,
  fill-timer,
}

abbrev pub is_spent : Timer → Bool
is_spent spent = true
is_spent _ = false

pub Timer-spent : (t : Timer) → is_spent t ≡ true → t ≡ spent
Timer-spent running h = cc
Timer-spent expired h = cc
Timer-spent spent h = refl

pub Timer-cases : (t : Timer) → is_spent t ≡ false → (t ≡ running) ⊎ (t ≡ expired)
Timer-cases running h = inl refl
Timer-cases expired h = inr refl
Timer-cases spent h = cc

module _ {Peer : Type 0} ⦃key : Key Peer⦄ ⦃conversion : IntOfFloat⦄ where
  -- as many successors as the target and the connected peers allow
  abbrev pub full_number : Graph Peer → ℕ
  full_number g =
      if ltb (length g.connected) (successor_target g)
      then length g.connected
      else successor_target g

  -- The graph after a new choice, beside the old one.
  pub record IsChosen (g g' : Graph Peer) : Type 0 where
    pub regular : IsRegular g'
    pub same_degree : g'.degree ≡ g.degree
    pub same_connected : g'.connected ≡ g.connected
    pub full : length g'.successors ≡ full_number g

  no_successors-IsRegular :
      (g : Graph Peer) → g.successors ≡ [] → IsDistinct g.connected → IsRegular g
  no_successors-IsRegular g e d = record {
    connected_once = d;
    successors_once = rw e tt;
    are_connected = λ p h. ground (arith, e, h);
    within = ground (arith, e);
  }

  full_lem : (g : Graph Peer) → IsRegular g → IsFilled g → length g.successors ≡ full_number g
  full_lem g v (inl h) = ground (
    arith,
    h,
    v.within,
    length-le_of_Includes g.successors g.connected v.successors_once v.are_connected,
  )
  full_lem g v (inr h) = ground (
    arith,
    v.within,
    length-le_of_Includes g.successors g.connected v.successors_once v.are_connected,
    length-le_of_Includes g.connected g.successors v.connected_once h,
  )

  same_full_number :
      (g h : Graph Peer)
      → h.degree ≡ g.degree
      → h.connected ≡ g.connected
      → full_number h ≡ full_number g
  unfolding successor_target
  same_full_number g h d c = ground (arith, d, c)

  pub chosen-IsChosen :
      (picks : ℕ → List Peer → ℕ) (g : Graph Peer)
      → ((i : ℕ) → IsInRange (picks i))
      → use_complete_graph g ≡ false
      → IsDistinct g.connected
      → IsChosen g (chosen picks g).0 × ((chosen picks g).0.timer ≡ g.timer)
  unfolding chosen
  chosen-IsChosen picks g r n d =
      let g1 = (remove_all g g.successors).0 in
      let (d1, t1, c1) = remove_all_rest g.successors g in
      let v1 = no_successors-IsRegular g1 (remove_all-empty g) (rw c1 d) in
      let (v2, d2, t2, c2, filled) =
        fill_lem (successor_target g1) picks g1 r (same_use_complete_graph g1 g d1 ∙ n) v1
          (omega arith) in
      (
        record {
          regular = v2;
          same_degree = d2 ∙ d1;
          same_connected = c2 ∙ c1;
          full =
              full_lem (chosen picks g).0 v2 filled
              ∙ same_full_number g (chosen picks g).0 (d2 ∙ d1) (c2 ∙ c1);
        },
        t2 ∙ t1,
      )

  pub chosen-timer :
      (picks : ℕ → List Peer → ℕ) (g : Graph Peer) → (chosen picks g).0.timer ≡ g.timer
  unfolding chosen
  chosen-timer picks g =
      let g1 = (remove_all g g.successors).0 in
      fill-timer (successor_target g1) picks g1 ∙ (remove_all_rest g.successors g).1

  pub select_new_successors-chosen :
      (picks : ℕ → List Peer → ℕ) (g : Graph Peer)
      → use_complete_graph g ≡ false
      → select_new_successors picks g ≡ restart (chosen picks g).0 (chosen picks g).1
  unfolding select_new_successors
  select_new_successors-chosen picks g n = rw (n, select_new_successors)

  pub select_new_successors_complete :
      (picks : ℕ → List Peer → ℕ) (g : Graph Peer)
      → use_complete_graph g ≡ true
      → select_new_successors picks g ≡ returns g [] g.connected
  unfolding select_new_successors
  select_new_successors_complete picks g n = rw (n, select_new_successors)

  -- The call returns the successors of a graph with a new choice.
  abbrev pub Selects : Graph Peer → Outcome Peer → Type 0
  Selects g (returns g' es ps) = IsChosen g g' × (ps ≡ g'.successors) × (g'.timer ≡ running)
  Selects g (hangs g' es) = ⊥

  IsChosen-restarted :
      (g g' : Graph Peer) → IsChosen g g' → IsChosen g (record g' { timer = running })
  unfolding successor_target
  IsChosen-restarted g g' c = record {
    regular = record {
      connected_once = c.regular.connected_once;
      successors_once = c.regular.successors_once;
      are_connected = c.regular.are_connected;
      within = c.regular.within;
    };
    same_degree = c.same_degree;
    same_connected = c.same_connected;
    full = c.full;
  }

  restart-Selects :
      (g g' : Graph Peer) (es : List (Effect Peer))
      → IsChosen g g'
      → is_spent g'.timer ≡ false
      → Selects g (restart g' es)
  unfolding restart
  restart-Selects g g' es c t = elim (Timer-cases g'.timer t) [
    | inl e ↦ rw (e, restart) (IsChosen-restarted g g' c, refl, refl)
    | inr e ↦ rw (e, restart) (IsChosen-restarted g g' c, refl, refl)
  ]

  pub select_new_successors-chosen_anew :
      (picks : ℕ → List Peer → ℕ) (g : Graph Peer)
      → ((i : ℕ) → IsInRange (picks i))
      → use_complete_graph g ≡ false
      → IsDistinct g.connected
      → is_spent g.timer ≡ false
      → Selects g (select_new_successors picks g)
  select_new_successors-chosen_anew picks g r n d t = rw (select_new_successors-chosen picks g n) (
      restart-Selects g (chosen picks g).0 (chosen picks g).1 (chosen-IsChosen picks g r n d).0
        (rw (chosen-timer picks g) t))

  successor_target_exact :
      (g : Graph Peer) → g.degree < max_exact → successor_target g ≡ g.degree / 2
  unfolding successor_target
  successor_target_exact g h =
      ap (λ k. conversion.int_of_float (k / 2)) (to_float64_exact g.degree h)
      ∙ conversion.in_range (g.degree / 2) (omega (arith, h))

  -- Unless the timer is spent, SelectNewSuccessors returns, in an incomplete graph of a degree below
  -- 2^53, with as many successors as the connected peers and half the degree (rounded down) allow,
  -- all of them connected; the loop of the code ends by itself, and the timer runs again.
  pub select_new_successors-Selects :
      (picks : ℕ → List Peer → ℕ) (g : Graph Peer)
      → ((i : ℕ) → IsInRange (picks i))
      → use_complete_graph g ≡ false
      → g.degree < max_exact
      → IsDistinct g.connected
      → is_spent g.timer ≡ false
      → Selects g (select_new_successors picks g)
        × (full_number g ≡ (
            if ltb (length g.connected) (g.degree / 2) then length g.connected else g.degree / 2))
  select_new_successors-Selects picks g r n h d t = (
    select_new_successors-chosen_anew picks g r n d t,
    ap (λ k. if ltb (length g.connected) k then length g.connected else k)
        (successor_target_exact g h),
  )

  -- After the timer has expired in an incomplete graph, `run` receives its value, and
  -- SelectNewSuccessors then waits for a second value for ever, with the lock held.
  pub on_timer_hangs :
      (picks : ℕ → List Peer → ℕ) (g : Graph Peer)
      → use_complete_graph g ≡ false
      → (g' : Graph Peer) × (es : List (Effect Peer)) × (on_timer picks g ≡ hangs g' es)
  unfolding on_timer
  on_timer_hangs picks g n =
      let g1 = record g { timer = spent } in
      let (g2, es) = chosen picks g1 in
      (
        g2,
        es,
        rw
            (
              select_new_successors-chosen picks g1 (same_use_complete_graph g1 g refl ∙ n),
              chosen-timer picks g1,
              restart,
            )
            refl,
      )
