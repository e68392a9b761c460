-- ===== src/ForwardGraph.antt =====
-- bitswap/client/internal/peermanager/forwardgraphmanager.go and bitswap/forwardstrategy: the
-- successors of this peer in the graph of forwards. A random draw is a function from the candidates
-- to an index; a call returns what the connection manager is told, in order.
pub mod Choice
pub mod Successors
pub mod Selection
pub mod Protection
pub mod Soundness
pub mod History
mod Tests
use boxo.Base.{
  ℕ, zero, suc, ◌/◌, Bool, true, false, not, Option, none, some, List, [], ◌∷◌, ◌++◌, Key, contains,
  if◌then◌else◌, length, select, get_elem?, ltb, ◌==◌,
}
use boxo.Base.Float.{IntOfFloat, to_float64}
use boxo.Base.Nested.{is_empty}
use boxo.Base.Sets.{insert_key, without}

-- A timer of package time: it runs; it expired and its value waits in the channel; or the channel
-- is empty and stays so, since the value was received or the timer was stopped.
pub data Timer : Type 0 where
  running expired spent : Timer

pub data Effect (Peer : Type 0) : Type 0 where
  protect unprotect : Peer → Effect Peer

pub record Graph (Peer : Type 0) : Type 0 where
  pub degree : ℕ
  pub connected : List Peer
  pub successors : List Peer
  pub timer : Timer

-- What SelectNewSuccessors does: it returns the successors, or waits on the timer for ever, with the
-- lock held.
pub data Outcome (Peer : Type 0) : Type 0 where
  returns : Graph Peer → List (Effect Peer) → List Peer → Outcome Peer
  hangs : Graph Peer → List (Effect Peer) → Outcome Peer

-- `math.MaxUint64`
abbrev pub max_uint64 : ℕ
max_uint64 = 18446744073709551615

module _ {Peer Cid : Type 0} where
  -- `RandomForward.SelectPeer`, with the first number of the permutation
  pub random_select : (List Peer → ℕ) → List Peer → Cid → Option Peer
  random_select pick peers c = get_elem? peers (pick peers)

  -- `CloseCidForward.SelectPeer`; the list of closest peers comes from another repository.
  pub close_cid_select : (List Peer → Cid → List Peer) → List Peer → Cid → Option Peer
  close_cid_select closest peers c = elim (closest peers c) [ [] ↦ none | p ∷ ps ↦ some p ]

module _ {Peer : Type 0} where
  -- `newForwardGraphManager`
  pub new : ℕ → Graph Peer
  new degree = record { degree = degree; connected = []; successors = []; timer = running }

  pub use_complete_graph : Graph Peer → Bool
  use_complete_graph g = g.degree == max_uint64

  -- `fgm.degree = degree`, which the code does without the lock
  pub write_degree : Graph Peer → ℕ → Graph Peer
  write_degree g degree = record g { degree = degree }

-- `int(math.Floor(float64(fgm.degree) / 2.0))`. The degree becomes the nearest float64; to halve that
-- is exact, and the floor of the half is the quotient.
module _ {Peer : Type 0} ⦃conversion : IntOfFloat⦄ where
  pub successor_target : Graph Peer → ℕ
  successor_target g = conversion.int_of_float (to_float64 g.degree / 2)

module _ {Peer : Type 0} ⦃key : Key Peer⦄ where
  pub add_successor : Graph Peer → Peer → Graph Peer × List (Effect Peer)
  add_successor g p = (record g { successors = insert_key p g.successors }, protect p ∷ [])

  pub remove_successor : Graph Peer → Peer → Graph Peer × List (Effect Peer)
  remove_successor g p = (record g { successors = without p g.successors }, unprotect p ∷ [])

  -- the connected peers that are no successors
  pub candidates : Graph Peer → List Peer
  candidates g = select (λ p. not (contains p g.successors)) g.connected

  -- `findOneNewSuccessor`
  pub find_one_new_successor : (List Peer → ℕ) → Graph Peer → Graph Peer × List (Effect Peer) × Bool
  unfolding use_complete_graph add_successor candidates
  find_one_new_successor pick g =
      if use_complete_graph g
      then (g, [], false)
      else elim (get_elem? (candidates g) (pick (candidates g))) [
        | none ↦ (g, [], false)
        | some p ↦ let (g', effects) = add_successor g p in (g', effects, true)
      ]

  -- the removal of all successors
  pub remove_all : Graph Peer → List Peer → Graph Peer × List (Effect Peer)
  unfolding remove_successor
  remove_all g [] = (g, [])
  remove_all g (p ∷ ps) =
      let (g1, effects1) = remove_successor g p in
      let (g2, effects2) = remove_all g1 ps in (g2, effects1 ++ effects2)

  -- `if !timer.Stop() { <-timer.C }; timer.Reset(..)`
  pub restart : Graph Peer → List (Effect Peer) → Outcome Peer
  restart g effects = elim g.timer [
    | running ↦ returns (record g { timer = running }) effects g.successors
    | expired ↦ returns (record g { timer = running }) effects g.successors
    | spent ↦ hangs g effects
  ]

  pub remove_peer : (List Peer → ℕ) → Graph Peer → Peer → Graph Peer × List (Effect Peer)
  unfolding use_complete_graph remove_successor find_one_new_successor
  remove_peer pick g p =
      let g' = record g { connected = without p g.connected } in
      if use_complete_graph g'
      then (g', [])
      else if contains p g'.successors
      then (let (g1, effects1) = remove_successor g' p in
          let (g2, effects2, found) = find_one_new_successor pick g1 in (g2, effects1 ++ effects2))
      else (g', [])

  -- the peers that the strategy chooses from
  pub available : Graph Peer → List Peer → List Peer
  unfolding use_complete_graph
  available g exclude =
      select (λ p. not (contains p exclude))
        (if use_complete_graph g then g.connected else g.successors)

module _ {Peer : Type 0} ⦃key : Key Peer⦄ ⦃conversion : IntOfFloat⦄ where
  -- the loop that fills the successors, on fuel
  pub fill : ℕ → (ℕ → List Peer → ℕ) → Graph Peer → Graph Peer × List (Effect Peer)
  unfolding find_one_new_successor successor_target
  fill zero picks g = (g, [])
  fill (suc fuel) picks g = elim (ltb (length g.successors) (successor_target g)) [
    | false ↦ (g, [])
    | true ↦
        let (g1, effects1, found) = find_one_new_successor (picks fuel) g in
        elim found [
          | false ↦ (g1, effects1)
          | true ↦ let (g2, effects2) = fill fuel picks g1 in (g2, effects1 ++ effects2)
        ]
  ]

  -- the graph before the timer is restarted
  pub chosen : (ℕ → List Peer → ℕ) → Graph Peer → Graph Peer × List (Effect Peer)
  unfolding remove_all fill successor_target
  chosen picks g =
      let (g1, effects1) = remove_all g g.successors in
      let (g2, effects2) = fill (successor_target g1) picks g1 in (g2, effects1 ++ effects2)

  pub select_new_successors : (ℕ → List Peer → ℕ) → Graph Peer → Outcome Peer
  unfolding use_complete_graph chosen restart
  select_new_successors picks g =
      if use_complete_graph g
      then returns g [] g.connected
      else (let (g', effects) = chosen picks g in restart g' effects)

  -- The second argument says whether the lock can be taken; if not, the call waits after the write.
  pub set_forward_graph_degree : (ℕ → List Peer → ℕ) → Bool → Graph Peer → ℕ → Outcome Peer
  unfolding write_degree select_new_successors
  set_forward_graph_degree picks free g degree =
      let g' = write_degree g degree in if free then select_new_successors picks g' else hangs g' []

  -- one round of `run`, when the timer has expired: its value is received first
  pub on_timer : (ℕ → List Peer → ℕ) → Graph Peer → Outcome Peer
  unfolding select_new_successors
  on_timer picks g = select_new_successors picks (record g { timer = spent })

  pub add_peer : (List Peer → ℕ) → Graph Peer → Peer → Graph Peer × List (Effect Peer)
  unfolding use_complete_graph successor_target find_one_new_successor
  add_peer pick g p =
      let g' = record g { connected = insert_key p g.connected } in
      if use_complete_graph g'
      then (g', [])
      else if ltb (length g'.successors) (successor_target g')
      then (let (g'', effects, found) = find_one_new_successor pick g' in (g'', effects))
      else (g', [])

module _ {Peer Cid : Type 0} ⦃key : Key Peer⦄ where
  pub get_successor_by_strategy :
      (List Peer → Cid → Option Peer) → Graph Peer → Cid → List Peer → Option Peer
  unfolding available
  get_successor_by_strategy strategy g c exclude = strategy (available g exclude) c
