-- ===== src/SessionWants.antt =====
-- bitswap/client/internal/session/sessionwants.go: the wants of a session, queued and live. Times
-- are numbers, 0 the zero time, and never run backwards; each method takes the present time where the code reads the clock.
pub mod Membership
pub mod Order
pub mod Flow
pub mod History
mod Tests
use boxo.Base.{
  ℕ, zero, suc, ◌+◌, ◌-◌, Bool, true, false, not, ◌&&◌, ◌||◌, Option, none, some, List, [], ◌∷◌,
  ◌++◌, Key, if◌then◌else◌, length, select, ltb, ◌==◌,
}
use boxo.Base.Map.{Map, lookup, insert, delete, has_key, keys}
use boxo.Base.Sets.{SetOps}
use boxo.CidQueue
use boxo.CidQueue.{Queue}

-- `liveWantsOrderGCLimit`
abbrev pub live_wants_order_gc_limit : ℕ
live_wants_order_gc_limit = 32

pub record SessionWants (Cid Set : Type 0) : Type 0 where
  pub to_fetch : Queue Cid Set
  pub live_wants : Map Cid ℕ
  pub live_wants_order : List Cid
  pub broadcast_limit : ℕ

-- the time since a want was sent, if it was and the time is known
pub latency : ℕ → Option ℕ → ℕ
latency now none = 0
latency now (some at) = if at == 0 then 0 else now - at

module _ {Cid : Type 0} where
  -- the loop of `RandomLiveWant`
  pub nth_key : Cid → ℕ → List Cid → Cid
  nth_key undef i [] = undef
  nth_key undef zero (c ∷ cs) = c
  nth_key undef (suc i) (c ∷ cs) = nth_key undef i cs

module _ {Cid Set : Type 0} ⦃key : Key Cid⦄ ⦃sets : SetOps Cid Set⦄ where
  pub new : ℕ → SessionWants Cid Set
  new limit = record {
    to_fetch = CidQueue.new;
    live_wants = [];
    live_wants_order = [];
    broadcast_limit = limit;
  }

  pub blocks_requested : SessionWants Cid Set → List Cid → SessionWants Cid Set
  blocks_requested sw [] = sw
  blocks_requested sw (k ∷ ks) =
      blocks_requested (record sw { to_fetch = CidQueue.push sw.to_fetch k }) ks

  -- the CID at the end of the order and in the map of live wants
  pub go_live : SessionWants Cid Set → Cid → ℕ → SessionWants Cid Set
  go_live sw c now = record sw {
    live_wants = insert c now sw.live_wants;
    live_wants_order = sw.live_wants_order ++ c ∷ [];
  }

  -- the body of the loops that move a CID from the queue to the live wants
  pub pop_live : Cid → ℕ → SessionWants Cid Set → SessionWants Cid Set × Cid
  unfolding go_live
  pop_live undef now sw =
      let (c, q) = CidQueue.pop undef sw.to_fetch in (go_live (record sw { to_fetch = q }) c now, c)

  -- the loop of `GetNextWants`: the wants to add, and the CIDs that went live so far
  pub next_wants : Cid → ℕ → ℕ → SessionWants Cid Set → List Cid → SessionWants Cid Set × List Cid
  next_wants undef now zero sw live = (sw, live)
  next_wants undef now (suc to_add) sw live =
      let rest =
        let (sw', c) = pop_live undef now sw in next_wants undef now to_add sw' (live ++ c ∷ []) in
      if ltb 0 (CidQueue.len sw.to_fetch) then rest else (sw, live)

  -- `toAdd` may be negative in the code, and the loop makes no round then.
  pub get_next_wants : Cid → ℕ → SessionWants Cid Set → SessionWants Cid Set × List Cid
  unfolding next_wants pop_live
  get_next_wants undef now sw =
      next_wants undef now (sw.broadcast_limit - length sw.live_wants) sw []

  -- the loop of `MoveAllWantsLive`, on fuel
  pub move_all : Cid → ℕ → ℕ → SessionWants Cid Set → SessionWants Cid Set
  move_all undef now zero sw = sw
  move_all undef now (suc fuel) sw =
      let rest = move_all undef now fuel (pop_live undef now sw).0 in
      if ltb 0 (CidQueue.len sw.to_fetch) then rest else sw

  pub move_all_wants_live : Cid → ℕ → SessionWants Cid Set → SessionWants Cid Set
  unfolding move_all pop_live
  move_all_wants_live undef now sw = move_all undef now (CidQueue.len sw.to_fetch) sw

  -- the body of the loop of `WantsSent`
  pub send_want : ℕ → SessionWants Cid Set → Cid → SessionWants Cid Set
  unfolding go_live
  send_want now sw c =
      if not (has_key c sw.live_wants) && CidQueue.has sw.to_fetch c
      then go_live (record sw { to_fetch = CidQueue.remove sw.to_fetch c }) c now
      else sw

  pub wants_sent : ℕ → SessionWants Cid Set → List Cid → SessionWants Cid Set
  unfolding send_want
  wants_sent now sw [] = sw
  wants_sent now sw (c ∷ cs) = wants_sent now (send_want now sw c) cs

  pub is_wanted : SessionWants Cid Set → Cid → Bool
  is_wanted sw c = has_key c sw.live_wants || CidQueue.has sw.to_fetch c

  -- the CID out of the live wants and the queue
  pub drop : SessionWants Cid Set → Cid → SessionWants Cid Set
  drop sw c = record sw {
    live_wants = delete c sw.live_wants;
    to_fetch = CidQueue.remove sw.to_fetch c;
  }

  -- the loop of `BlocksReceived`: the wanted CIDs and the latency so far
  pub receive_all :
      ℕ → SessionWants Cid Set → List Cid → List Cid → ℕ → SessionWants Cid Set × List Cid × ℕ
  unfolding drop latency is_wanted
  receive_all now sw [] wanted total = (sw, wanted, total)
  receive_all now sw (c ∷ cs) wanted total =
      let hit =
        receive_all now (drop sw c) cs (wanted ++ c ∷ [])
          (total + latency now (lookup c sw.live_wants)) in
      let miss = receive_all now sw cs wanted total in if is_wanted sw c then hit else miss

  -- the cleaning of the order at the end of `BlocksReceived`
  pub clean_order : SessionWants Cid Set → SessionWants Cid Set
  clean_order sw =
      if ltb live_wants_order_gc_limit (length sw.live_wants_order - length sw.live_wants)
      then record sw {
        live_wants_order = select (λ c. has_key c sw.live_wants) sw.live_wants_order;
      }
      else sw

  pub blocks_received : ℕ → SessionWants Cid Set → List Cid → SessionWants Cid Set × List Cid × ℕ
  unfolding receive_all clean_order
  blocks_received now sw [] = (sw, [], 0)
  blocks_received now sw (k ∷ ks) =
      let (sw', wanted, total) = receive_all now sw (k ∷ ks) [] 0 in
      (clean_order sw', wanted, total)

  -- the loop of `PrepareBroadcast`, over the order
  pub broadcast_from :
      ℕ → SessionWants Cid Set → List Cid → List Cid → SessionWants Cid Set × List Cid
  broadcast_from now sw [] live = (sw, live)
  broadcast_from now sw (c ∷ cs) live =
      let sw' = record sw { live_wants = insert c now sw.live_wants } in
      let live' = live ++ c ∷ [] in
      let more = broadcast_from now sw' cs live' in
      let skip = broadcast_from now sw cs live in
      if has_key c sw.live_wants
      then (if length live' == sw.broadcast_limit then (sw', live') else more)
      else skip

  pub prepare_broadcast : ℕ → SessionWants Cid Set → SessionWants Cid Set × List Cid
  unfolding broadcast_from
  prepare_broadcast now sw = broadcast_from now sw sw.live_wants_order []

  pub cancel_pending : SessionWants Cid Set → List Cid → SessionWants Cid Set
  cancel_pending sw [] = sw
  cancel_pending sw (k ∷ ks) =
      cancel_pending (record sw { to_fetch = CidQueue.remove sw.to_fetch k }) ks

  pub live_cids : SessionWants Cid Set → List Cid
  live_cids sw = keys sw.live_wants

  -- `i` is the number that `rand.Intn` returned.
  pub random_live_want : Cid → ℕ → SessionWants Cid Set → Cid
  unfolding nth_key
  random_live_want undef i sw = nth_key undef i (keys sw.live_wants)

  pub has_live_wants : SessionWants Cid Set → Bool
  has_live_wants sw = ltb 0 (length sw.live_wants)
