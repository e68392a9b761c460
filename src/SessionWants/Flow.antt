-- ===== src/SessionWants/Flow.antt =====
-- What a session wants when wants are sent, blocks come in and wants are cancelled.
use boxo.Base.{
  ℕ, ◌+◌, not, ◌&&◌, ◌||◌, List, [], ◌∷◌, ◌++◌, Key, same, contains, arith, ◌≡◌, refl, ◌∙◌,
  eq_of_same, Bool-cases, inl, inr, contains-append,
}
use boxo.Base.Map.{lookup, lookup-insert, lookup-delete}
use boxo.Base.Sets.{SetOps}
use boxo.CidQueue
use boxo.CidQueue.Laws.{has-remove}
use boxo.SessionWants.{
  SessionWants, go_live, send_want, wants_sent, is_wanted, drop, latency, receive_all, clean_order,
  blocks_received, cancel_pending,
}
use boxo.SessionWants.Membership.{live, queued}

module _ {Cid Set : Type 0} ⦃key : Key Cid⦄ ⦃sets : SetOps Cid Set⦄ where
  is_wanted-drop :
      (sw : SessionWants Cid Set) (c d : Cid)
      → is_wanted (drop sw c) d ≡ (not (same c d) && is_wanted sw d)
  unfolding is_wanted drop
  is_wanted-drop sw c d =
      ground (arith, lookup-delete c d sw.live_wants, has-remove sw.to_fetch c d)

  receive_all_lem :
      (now : ℕ) (sw : SessionWants Cid Set) (ks acc : List Cid) (total : ℕ) (d : Cid)
      → let (sw', wanted, _) = receive_all now sw ks acc total in
        (is_wanted sw' d ≡ (not (contains d ks) && is_wanted sw d))
        × (contains d wanted ≡ (contains d acc || (contains d ks && is_wanted sw d)))
  unfolding receive_all
  receive_all_lem now sw [] acc total d = (refl, ground arith)
  receive_all_lem now sw (c ∷ cs) acc total d = elim (Bool-cases (is_wanted sw c)) [
    | inl hit ↦
        let (left, got) =
          receive_all_lem now (drop sw c) cs (acc ++ c ∷ [])
            (total + latency now (lookup c sw.live_wants)) d in
        rw hit (
          ground (arith, hit, left, is_wanted-drop sw c d, eq_of_same c d),
          ground (
            arith,
            hit,
            got,
            contains-append d acc (c ∷ []),
            is_wanted-drop sw c d,
            eq_of_same c d,
          ),
        )
    | inr miss ↦
        let (left, got) = receive_all_lem now sw cs acc total d in
        rw miss
          (ground (arith, miss, left, eq_of_same c d), ground (arith, miss, got, eq_of_same c d))
  ]

  is_wanted-clean_order :
      (sw : SessionWants Cid Set) (d : Cid) → is_wanted (clean_order sw) d ≡ is_wanted sw d
  unfolding is_wanted clean_order
  is_wanted-clean_order sw d = ground arith

  -- BlocksReceived returns exactly the received CIDs that the session wanted; it wants them no
  -- more, and wants every other CID as before.
  pub blocks_received_lem :
      (now : ℕ) (sw : SessionWants Cid Set) (ks : List Cid) (d : Cid)
      → let (sw', wanted, _) = blocks_received now sw ks in
        (contains d wanted ≡ (contains d ks && is_wanted sw d))
        × (is_wanted sw' d ≡ (not (contains d ks) && is_wanted sw d))
  unfolding blocks_received
  blocks_received_lem now sw [] d = (refl, refl)
  blocks_received_lem now sw (k ∷ ks) d =
      let (left, got) = receive_all_lem now sw (k ∷ ks) [] 0 d in
      (got, is_wanted-clean_order (receive_all now sw (k ∷ ks) [] 0).0 d ∙ left)

  send_want_lem :
      (now : ℕ) (sw : SessionWants Cid Set) (c d : Cid)
      → let sw' = send_want now sw c in
        (live sw' d ≡ (live sw d || (same c d && queued sw d)))
        × (queued sw' d ≡ (queued sw d && (live sw d || not (same c d))))
  unfolding send_want go_live
  send_want_lem now sw c d = (
    ground (arith, lookup-insert c d now sw.live_wants, eq_of_same c d),
    ground (arith, has-remove sw.to_fetch c d, eq_of_same c d),
  )

  -- WantsSent makes live exactly the sent CIDs that were queued, and takes them off the queue; so
  -- the session wants the same CIDs as before.
  pub wants_sent_lem :
      (now : ℕ) (sw : SessionWants Cid Set) (ks : List Cid) (d : Cid)
      → let sw' = wants_sent now sw ks in
        (live sw' d ≡ (live sw d || (contains d ks && queued sw d)))
        × (queued sw' d ≡ (queued sw d && (live sw d || not (contains d ks))))
  unfolding wants_sent
  wants_sent_lem now sw [] d = (ground arith, ground arith)
  wants_sent_lem now sw (c ∷ cs) d =
      let (live_one, queue_one) = send_want_lem now sw c d in
      let (live_all, queue_all) = wants_sent_lem now (send_want now sw c) cs d in
      (
        ground (arith, live_one, queue_one, live_all),
        ground (arith, live_one, queue_one, queue_all),
      )

  -- CancelPending takes the given CIDs off the queue, and leaves the live wants alone.
  pub cancel_pending_lem :
      (sw : SessionWants Cid Set) (ks : List Cid) (d : Cid)
      → let sw' = cancel_pending sw ks in
        (queued sw' d ≡ (not (contains d ks) && queued sw d))
        × (sw'.live_wants ≡ sw.live_wants)
        × (sw'.live_wants_order ≡ sw.live_wants_order)
  unfolding cancel_pending
  cancel_pending_lem sw [] d = (refl, refl, refl)
  cancel_pending_lem sw (k ∷ ks) d =
      let (queue_left, same_live, same_order) =
        cancel_pending_lem (record sw { to_fetch = CidQueue.remove sw.to_fetch k }) ks d in
      (ground (arith, queue_left, has-remove sw.to_fetch k d), same_live, same_order)
