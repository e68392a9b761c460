-- ===== src/SessionWants/Order.antt =====
-- The order of the live wants, which every broadcast goes through.
use boxo.Base.{
  ℕ, zero, suc, ◌+◌, ◌≤◌, ◌<◌, true, not, ◌&&◌, ◌||◌, List, [], ◌∷◌, ◌++◌, Key, contains, length,
  ltb, arith, ◌≡◌, refl, eq_of_same, Bool-cases, inl, inr, contains-append, contains-select, ◌==◌,
  length-append,
}
use boxo.Base.Map.{lookup, insert, has_key, lookup-insert, lookup-delete}
use boxo.Base.Sets.{SetOps}
use boxo.CidQueue
use boxo.SessionWants.{
  SessionWants, go_live, pop_live, next_wants, move_all, send_want, wants_sent, is_wanted, drop,
  latency, receive_all, clean_order, blocks_received, broadcast_from, prepare_broadcast,
}
use boxo.SessionWants.Membership.{live}

module _ {Cid Set : Type 0} ⦃key : Key Cid⦄ ⦃sets : SetOps Cid Set⦄ where
  -- Every live want has a place in the order.
  abbrev pub IsOrdered : SessionWants Cid Set → Type 0
  IsOrdered sw = (d : Cid) → live sw d ≡ true → contains d sw.live_wants_order ≡ true

  go_live-IsOrdered :
      (sw : SessionWants Cid Set) (c : Cid) (now : ℕ) → IsOrdered sw → IsOrdered (go_live sw c now)
  unfolding go_live
  go_live-IsOrdered sw c now o d h = ground (
    arith,
    o d,
    lookup-insert c d now sw.live_wants,
    contains-append d sw.live_wants_order (c ∷ []),
  )

  pop_live-IsOrdered :
      (undef : Cid) (now : ℕ) (sw : SessionWants Cid Set)
      → IsOrdered sw
      → IsOrdered (pop_live undef now sw).0
  unfolding pop_live
  pop_live-IsOrdered undef now sw o =
      let (c, q) = CidQueue.pop undef sw.to_fetch in
      go_live-IsOrdered (record sw { to_fetch = q }) c now o

  pub next_wants-IsOrdered :
      (undef : Cid) (now n : ℕ) (sw : SessionWants Cid Set) (acc : List Cid)
      → IsOrdered sw
      → IsOrdered (next_wants undef now n sw acc).0
  unfolding next_wants
  next_wants-IsOrdered undef now zero sw acc o = o
  next_wants-IsOrdered undef now (suc n) sw acc o =
      elim (Bool-cases (ltb 0 (CidQueue.len sw.to_fetch))) [
        | inl more ↦
            let (sw', c) = pop_live undef now sw in
            rw more (
              next_wants-IsOrdered undef now n sw' (acc ++ c ∷ [])
                (pop_live-IsOrdered undef now sw o))
        | inr done ↦ rw done o
      ]

  pub move_all-IsOrdered :
      (undef : Cid) (now n : ℕ) (sw : SessionWants Cid Set)
      → IsOrdered sw
      → IsOrdered (move_all undef now n sw)
  unfolding move_all
  move_all-IsOrdered undef now zero sw o = o
  move_all-IsOrdered undef now (suc n) sw o = elim (Bool-cases (ltb 0 (CidQueue.len sw.to_fetch))) [
    | inl more ↦ rw more (
        move_all-IsOrdered undef now n (pop_live undef now sw).0
          (pop_live-IsOrdered undef now sw o))
    | inr done ↦ rw done o
  ]

  send_want-IsOrdered :
      (now : ℕ) (sw : SessionWants Cid Set) (c : Cid)
      → IsOrdered sw
      → IsOrdered (send_want now sw c)
  unfolding send_want
  send_want-IsOrdered now sw c o =
      elim (Bool-cases (not (has_key c sw.live_wants) && CidQueue.has sw.to_fetch c)) [
        | inl moves ↦
            rw moves
              (go_live-IsOrdered (record sw { to_fetch = CidQueue.remove sw.to_fetch c }) c now o)
        | inr stays ↦ rw stays o
      ]

  pub wants_sent-IsOrdered :
      (now : ℕ) (sw : SessionWants Cid Set) (cs : List Cid)
      → IsOrdered sw
      → IsOrdered (wants_sent now sw cs)
  unfolding wants_sent
  wants_sent-IsOrdered now sw [] o = o
  wants_sent-IsOrdered now sw (c ∷ cs) o =
      wants_sent-IsOrdered now (send_want now sw c) cs (send_want-IsOrdered now sw c o)

  drop-IsOrdered : (sw : SessionWants Cid Set) (c : Cid) → IsOrdered sw → IsOrdered (drop sw c)
  unfolding drop
  drop-IsOrdered sw c o d h = ground (arith, o d, lookup-delete c d sw.live_wants)

  receive_all-IsOrdered :
      (now : ℕ) (sw : SessionWants Cid Set) (cs acc : List Cid) (total : ℕ)
      → IsOrdered sw
      → IsOrdered (receive_all now sw cs acc total).0
  unfolding receive_all
  receive_all-IsOrdered now sw [] acc total o = o
  receive_all-IsOrdered now sw (c ∷ cs) acc total o = elim (Bool-cases (is_wanted sw c)) [
    | inl hit ↦ rw hit (
        receive_all-IsOrdered now (drop sw c) cs (acc ++ c ∷ [])
          (total + latency now (lookup c sw.live_wants)) (drop-IsOrdered sw c o))
    | inr miss ↦ rw miss (receive_all-IsOrdered now sw cs acc total o)
  ]

  clean_order-IsOrdered : (sw : SessionWants Cid Set) → IsOrdered sw → IsOrdered (clean_order sw)
  unfolding clean_order
  clean_order-IsOrdered sw o d h =
      ground (arith, o d, contains-select (λ c. has_key c sw.live_wants) d sw.live_wants_order)

  pub blocks_received-IsOrdered :
      (now : ℕ) (sw : SessionWants Cid Set) (ks : List Cid)
      → IsOrdered sw
      → IsOrdered (blocks_received now sw ks).0
  unfolding blocks_received
  blocks_received-IsOrdered now sw [] o = o
  blocks_received-IsOrdered now sw (k ∷ ks) o =
      clean_order-IsOrdered (receive_all now sw (k ∷ ks) [] 0).0
        (receive_all-IsOrdered now sw (k ∷ ks) [] 0 o)

  pub broadcast_from-same :
      (now : ℕ) (sw : SessionWants Cid Set) (cs acc : List Cid) (d : Cid)
      → let sw' = (broadcast_from now sw cs acc).0 in
        (live sw' d ≡ live sw d) × (sw'.live_wants_order ≡ sw.live_wants_order)
  unfolding broadcast_from
  broadcast_from-same now sw [] acc d = (refl, refl)
  broadcast_from-same now sw (c ∷ cs) acc d =
      let sw' = record sw { live_wants = insert c now sw.live_wants } in
      let rec = broadcast_from-same now sw' cs (acc ++ c ∷ []) d in
      let skip = broadcast_from-same now sw cs acc d in
      (
        ground (arith, rec, skip, lookup-insert c d now sw.live_wants, eq_of_same c d),
        ground (arith, rec, skip),
      )

  -- A list of CIDs to broadcast: some of the live wants, at most as many as the limit, and all of
  -- those that the order still holds, if the limit is not reached.
  abbrev pub Broadcasts : SessionWants Cid Set → List Cid → List Cid → List Cid → Cid → Type 0
  Broadcasts sw cs acc out d =
      (length out ≤ sw.broadcast_limit)
      × (contains d out ≡ true → contains d acc || (contains d cs && live sw d) ≡ true)
      × (length out < sw.broadcast_limit
          → contains d acc || (contains d cs && live sw d) ≡ true
          → contains d out ≡ true)

  broadcast_from_lem :
      (now : ℕ) (sw : SessionWants Cid Set) (cs acc : List Cid) (d : Cid)
      → length acc < sw.broadcast_limit
      → Broadcasts sw cs acc (broadcast_from now sw cs acc).1 d
  unfolding broadcast_from
  broadcast_from_lem now sw [] acc d h = (omega arith, λ m. ground arith, λ _ m. ground arith)
  broadcast_from_lem now sw (c ∷ cs) acc d h = elim (Bool-cases (has_key c sw.live_wants)) [
    | inr miss ↦
        let (bound, sound, complete) = broadcast_from_lem now sw cs acc d h in
        rw miss (
          bound,
          λ m. ground (arith, sound m, miss, eq_of_same c d),
          λ less m. complete less (ground (arith, m, miss, eq_of_same c d)),
        )
    | inl hit ↦ elim (Bool-cases (length (acc ++ c ∷ []) == sw.broadcast_limit)) [
      | inl full ↦
          rw (hit, full)
            (
              ground (arith, full),
              λ m. ground (arith, m, hit, contains-append d acc (c ∷ []), eq_of_same c d),
              λ less m. absurd (ground (arith, full, less)),
            )
      | inr room ↦
          let sw' = record sw { live_wants = insert c now sw.live_wants } in
          let (bound, sound, complete) =
            broadcast_from_lem now sw' cs (acc ++ c ∷ []) d
              (ground (arith, room, h, length-append {0} acc (c ∷ []))) in
          let kept = lookup-insert c d now sw.live_wants in
          rw (hit, room)
            (
              bound,
              λ m.
                  ground
                    (arith, sound m, hit, kept, contains-append d acc (c ∷ []), eq_of_same c d),
              λ less m.
                  complete less
                    (ground (arith, m, hit, kept, contains-append d acc (c ∷ []), eq_of_same c d)),
            )
    ]
  ]

  -- PrepareBroadcast, under a positive limit and with an order that holds every live want, returns
  -- live wants only, at most as many as the limit, and every live want unless the limit is reached.
  -- What is live stays so, and the order stays.
  pub prepare_broadcast_lem :
      (now : ℕ) (sw : SessionWants Cid Set) (d : Cid)
      → IsOrdered sw
      → 0 < sw.broadcast_limit
      → let (sw', out) = prepare_broadcast now sw in
        (length out ≤ sw.broadcast_limit)
        × (contains d out ≡ true → live sw d ≡ true)
        × (length out < sw.broadcast_limit → live sw d ≡ true → contains d out ≡ true)
        × (live sw' d ≡ live sw d)
        × (sw'.live_wants_order ≡ sw.live_wants_order)
  unfolding prepare_broadcast
  prepare_broadcast_lem now sw d o pos =
      let (bound, sound, complete) = broadcast_from_lem now sw sw.live_wants_order [] d pos in
      let (same_live, same_order) = broadcast_from-same now sw sw.live_wants_order [] d in
      (
        bound,
        λ m. ground (arith, sound m),
        λ less l. complete less (ground (arith, o d l, l)),
        same_live,
        same_order,
      )
