-- ===== src/SessionWants/History.antt =====
-- The session's wants through any sequence of calls.
use boxo.Base.{ℕ, not, ◌&&◌, List, [], ◌∷◌, ◌++◌, Key, arith, ◌≡◌, refl, Bool-cases, inl, inr, ◌+◌}
use boxo.Base.Map.{lookup, insert, has_key}
use boxo.Base.Sets.{SetOps}
use boxo.CidQueue
use boxo.CidQueue.Laws.{push-IsCovered, remove-IsCovered, new-IsCovered}
use boxo.SessionWants.{
  SessionWants, new, blocks_requested, get_next_wants, go_live, send_want, clean_order,
  move_all_wants_live, wants_sent, is_wanted, drop, latency, receive_all, blocks_received,
  cancel_pending, broadcast_from, prepare_broadcast,
}
use boxo.SessionWants.Membership.{IsReady, get_next_wants-Moved, move_all_lem}
use boxo.SessionWants.Flow.{cancel_pending_lem}
use boxo.SessionWants.Order.{
  IsOrdered, next_wants-IsOrdered, move_all-IsOrdered, wants_sent-IsOrdered,
  blocks_received-IsOrdered, broadcast_from-same,
}

module _ (Cid Set : Type 0) ⦃key : Key Cid⦄ ⦃sets : SetOps Cid Set⦄ where
  new-Ready : (limit : ℕ) → IsReady (new {Cid = Cid} {Set = Set} limit)
  unfolding new
  new-Ready limit = new-IsCovered Cid Set

  new-Ordered : (limit : ℕ) → IsOrdered (new {Cid = Cid} {Set = Set} limit)
  unfolding new lookup
  new-Ordered limit d h = cc

-- The calls that a session makes on its wants.
pub data Call (Cid : Type 0) : Type 0 where
  request receive cancel : List Cid → Call Cid
  send : List Cid → Call Cid
  get_next move_live broadcast : Call Cid

module _ {Cid Set : Type 0} ⦃key : Key Cid⦄ ⦃sets : SetOps Cid Set⦄ where
  unfoldable pub step : Cid → SessionWants Cid Set → ℕ × Call Cid → SessionWants Cid Set
  step undef sw (now, request ks) = blocks_requested sw ks
  step undef sw (now, receive ks) = (blocks_received now sw ks).0
  step undef sw (now, cancel ks) = cancel_pending sw ks
  step undef sw (now, send ks) = wants_sent now sw ks
  step undef sw (now, get_next) = (get_next_wants undef now sw).0
  step undef sw (now, move_live) = move_all_wants_live undef now sw
  step undef sw (now, broadcast) = (prepare_broadcast now sw).0

  unfoldable pub run : Cid → SessionWants Cid Set → List (ℕ × Call Cid) → SessionWants Cid Set
  run undef sw [] = sw
  run undef sw (call ∷ calls) = run undef (step undef sw call) calls

  blocks_requested-IsOrdered :
      (sw : SessionWants Cid Set) (ks : List Cid)
      → IsOrdered sw
      → IsOrdered (blocks_requested sw ks)
  unfolding blocks_requested
  blocks_requested-IsOrdered sw [] o = o
  blocks_requested-IsOrdered sw (k ∷ ks) o =
      blocks_requested-IsOrdered (record sw { to_fetch = CidQueue.push sw.to_fetch k }) ks o

  step-IsOrdered :
      (undef : Cid) (sw : SessionWants Cid Set) (call : ℕ × Call Cid)
      → IsOrdered sw
      → IsOrdered (step undef sw call)
  unfolding step get_next_wants move_all_wants_live prepare_broadcast
  step-IsOrdered undef sw (now, request ks) o = blocks_requested-IsOrdered sw ks o
  step-IsOrdered undef sw (now, receive ks) o = blocks_received-IsOrdered now sw ks o
  step-IsOrdered undef sw (now, cancel ks) o = λ d h.
      let (_, same_live, same_order) = cancel_pending_lem sw ks d in
      ground (arith, o d, same_live, same_order)
  step-IsOrdered undef sw (now, send ks) o = wants_sent-IsOrdered now sw ks o
  step-IsOrdered undef sw (now, get_next) o = next_wants-IsOrdered undef now _ sw [] o
  step-IsOrdered undef sw (now, move_live) o = move_all-IsOrdered undef now _ sw o
  step-IsOrdered undef sw (now, broadcast) o = λ d h.
      let (same_live, same_order) = broadcast_from-same now sw sw.live_wants_order [] d in
      ground (arith, o d, same_live, same_order)

  pub run-IsOrdered :
      (undef : Cid) (sw : SessionWants Cid Set) (calls : List (ℕ × Call Cid))
      → IsOrdered sw
      → IsOrdered (run undef sw calls)
  unfolding run
  run-IsOrdered undef sw [] o = o
  run-IsOrdered undef sw (call ∷ calls) o =
      run-IsOrdered undef (step undef sw call) calls (step-IsOrdered undef sw call o)

  blocks_requested-IsReady :
      (sw : SessionWants Cid Set) (ks : List Cid) → IsReady sw → IsReady (blocks_requested sw ks)
  unfolding blocks_requested
  blocks_requested-IsReady sw [] r = r
  blocks_requested-IsReady sw (k ∷ ks) r =
      blocks_requested-IsReady (record sw { to_fetch = CidQueue.push sw.to_fetch k }) ks
        (push-IsCovered sw.to_fetch k r)

  cancel_pending-IsReady :
      (sw : SessionWants Cid Set) (ks : List Cid) → IsReady sw → IsReady (cancel_pending sw ks)
  unfolding cancel_pending
  cancel_pending-IsReady sw [] r = r
  cancel_pending-IsReady sw (k ∷ ks) r =
      cancel_pending-IsReady (record sw { to_fetch = CidQueue.remove sw.to_fetch k }) ks
        (remove-IsCovered sw.to_fetch k r)

  send_want-IsReady :
      (now : ℕ) (sw : SessionWants Cid Set) (c : Cid) → IsReady sw → IsReady (send_want now sw c)
  unfolding send_want go_live
  send_want-IsReady now sw c r =
      elim (Bool-cases (not (has_key c sw.live_wants) && CidQueue.has sw.to_fetch c)) [
        | inl moves ↦ rw moves (remove-IsCovered sw.to_fetch c r)
        | inr stays ↦ rw stays r
      ]

  wants_sent-IsReady :
      (now : ℕ) (sw : SessionWants Cid Set) (cs : List Cid)
      → IsReady sw
      → IsReady (wants_sent now sw cs)
  unfolding wants_sent
  wants_sent-IsReady now sw [] r = r
  wants_sent-IsReady now sw (c ∷ cs) r =
      wants_sent-IsReady now (send_want now sw c) cs (send_want-IsReady now sw c r)

  receive_all-IsReady :
      (now : ℕ) (sw : SessionWants Cid Set) (cs acc : List Cid) (total : ℕ)
      → IsReady sw
      → IsReady (receive_all now sw cs acc total).0
  unfolding receive_all drop
  receive_all-IsReady now sw [] acc total r = r
  receive_all-IsReady now sw (c ∷ cs) acc total r = elim (Bool-cases (is_wanted sw c)) [
    | inl hit ↦ rw hit (
        receive_all-IsReady now (drop sw c) cs (acc ++ c ∷ [])
          (total + latency now (lookup c sw.live_wants)) (remove-IsCovered sw.to_fetch c r))
    | inr miss ↦ rw miss (receive_all-IsReady now sw cs acc total r)
  ]

  to_fetch-clean_order : (sw : SessionWants Cid Set) → (clean_order sw).to_fetch ≡ sw.to_fetch
  unfolding clean_order
  to_fetch-clean_order sw = ground arith

  blocks_received-IsReady :
      (now : ℕ) (sw : SessionWants Cid Set) (ks : List Cid)
      → IsReady sw
      → IsReady (blocks_received now sw ks).0
  unfolding blocks_received
  blocks_received-IsReady now sw [] r = r
  blocks_received-IsReady now sw (k ∷ ks) r =
      rw (to_fetch-clean_order (receive_all now sw (k ∷ ks) [] 0).0)
        (receive_all-IsReady now sw (k ∷ ks) [] 0 r)

  to_fetch-broadcast_from :
      (now : ℕ) (sw : SessionWants Cid Set) (cs acc : List Cid)
      → (broadcast_from now sw cs acc).0.to_fetch ≡ sw.to_fetch
  unfolding broadcast_from
  to_fetch-broadcast_from now sw [] acc = refl
  to_fetch-broadcast_from now sw (c ∷ cs) acc =
      let sw' = record sw { live_wants = insert c now sw.live_wants } in
      ground (
        arith,
        to_fetch-broadcast_from now sw' cs (acc ++ c ∷ []),
        to_fetch-broadcast_from now sw cs acc,
      )

  step-IsReady :
      (undef : Cid) (sw : SessionWants Cid Set) (call : ℕ × Call Cid)
      → IsReady sw
      → IsReady (step undef sw call)
  unfolding step move_all_wants_live prepare_broadcast
  step-IsReady undef sw (now, request ks) r = blocks_requested-IsReady sw ks r
  step-IsReady undef sw (now, receive ks) r = blocks_received-IsReady now sw ks r
  step-IsReady undef sw (now, cancel ks) r = cancel_pending-IsReady sw ks r
  step-IsReady undef sw (now, send ks) r = wants_sent-IsReady now sw ks r
  step-IsReady undef sw (now, get_next) r = (get_next_wants-Moved undef now sw r).0.ready
  step-IsReady undef sw (now, move_live) r =
      (move_all_lem undef now (CidQueue.len sw.to_fetch) sw r (omega arith)).1
  step-IsReady undef sw (now, broadcast) r =
      rw (to_fetch-broadcast_from now sw sw.live_wants_order []) r

  run-IsReady :
      (undef : Cid) (sw : SessionWants Cid Set) (calls : List (ℕ × Call Cid))
      → IsReady sw
      → IsReady (run undef sw calls)
  unfolding run
  run-IsReady undef sw [] r = r
  run-IsReady undef sw (call ∷ calls) r =
      run-IsReady undef (step undef sw call) calls (step-IsReady undef sw call r)

module _ (Cid Set : Type 0) ⦃key : Key Cid⦄ ⦃sets : SetOps Cid Set⦄ where
  -- After every sequence of a session's calls, from its start on, every queued CID stands among the
  -- elements of the queue, so that Pop finds it, and every live want stands in the order, so that
  -- broadcasts find it, whether or not received blocks made the order be cleaned.
  pub run-new :
      (undef : Cid) (limit : ℕ) (calls : List (ℕ × Call Cid))
      → let sw : SessionWants Cid Set = run undef (new limit) calls in IsReady sw × IsOrdered sw
  run-new undef limit calls = (
    run-IsReady undef (new limit) calls (new-Ready Cid Set limit),
    run-IsOrdered undef (new limit) calls (new-Ordered Cid Set limit),
  )
