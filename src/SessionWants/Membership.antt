-- ===== src/SessionWants/Membership.antt =====
-- Which CIDs a session wants, and in which of its two places, through each method.
use boxo.Base.{
  ℕ, zero, suc, ◌+◌, ◌-◌, ◌≤◌, ◌<◌, Bool, true, false, not, ◌&&◌, ◌||◌, List, [], ◌∷◌, ◌++◌, Key,
  same, contains, length, ltb, arith, ◌≡◌, refl, eq_of_same, Bool-cases, inl, inr, contains-append,
  length-append, IsDistinct, IsDistinct-snoc,
}
use boxo.Base.Map.{has_key, lookup-insert}
use boxo.Base.Sets.{SetOps}
use boxo.CidQueue
use boxo.CidQueue.{Queue}
use boxo.CidQueue.Laws.{IsCovered, has-push, pop_lem, pop-IsCovered, len-pop, len-keys, has-keys}
use boxo.SessionWants.{
  SessionWants, blocks_requested, go_live, pop_live, next_wants, get_next_wants, move_all,
  move_all_wants_live, is_wanted,
}

contains_of_empty :
    {Cid : Type 0} ⦃key : Key Cid⦄ (d : Cid) (xs : List Cid) → length xs ≡ 0 → contains d xs ≡ false
contains_of_empty d [] e = refl
contains_of_empty d (x ∷ xs) e = absurd (omega arith)

module _ {Cid Set : Type 0} ⦃key : Key Cid⦄ ⦃sets : SetOps Cid Set⦄ where
  abbrev pub live : SessionWants Cid Set → Cid → Bool
  live sw c = has_key c sw.live_wants

  abbrev pub queued : SessionWants Cid Set → Cid → Bool
  queued sw c = CidQueue.has sw.to_fetch c

  abbrev pub IsReady : SessionWants Cid Set → Type 0
  IsReady sw = IsCovered sw.to_fetch

  is_wanted_lem :
      (sw : SessionWants Cid Set) (c : Cid) → is_wanted sw c ≡ (live sw c || queued sw c)
  unfolding is_wanted
  is_wanted_lem sw c = refl

  -- A session wants what it wanted and what is requested.
  pub is_wanted-blocks_requested :
      (sw : SessionWants Cid Set) (ks : List Cid) (d : Cid)
      → is_wanted (blocks_requested sw ks) d ≡ (contains d ks || is_wanted sw d)
  unfolding blocks_requested is_wanted
  is_wanted-blocks_requested sw [] d = refl
  is_wanted-blocks_requested sw (k ∷ ks) d = ground (
    arith,
    is_wanted-blocks_requested (record sw { to_fetch = CidQueue.push sw.to_fetch k }) ks d,
    has-push sw.to_fetch k d,
  )

  has_of_empty : (q : Queue Cid Set) (d : Cid) → CidQueue.len q ≡ 0 → CidQueue.has q d ≡ false
  has_of_empty q d e =
      ground (arith, contains_of_empty d (sets.keys q.eset), len-keys q, has-keys q d)

  pub pop_live_lem :
      (undef : Cid) (now : ℕ) (sw : SessionWants Cid Set)
      → IsReady sw
      → 0 < CidQueue.len sw.to_fetch
      → let (sw', c) = pop_live undef now sw in
        IsReady sw'
        × (queued sw c ≡ true)
        × ((d : Cid) → queued sw' d ≡ (not (same c d) && queued sw d))
        × ((d : Cid) → live sw' d ≡ (same c d || live sw d))
        × (CidQueue.len sw'.to_fetch < CidQueue.len sw.to_fetch)
  unfolding pop_live go_live
  pop_live_lem undef now sw r pos =
      let (member, taken, _) = pop_lem undef sw.to_fetch r pos in
      (
        pop-IsCovered undef sw.to_fetch r,
        member,
        taken,
        λ d. ground (arith, lookup-insert (CidQueue.pop undef sw.to_fetch).0 d now sw.live_wants),
        len-pop undef sw.to_fetch r pos,
      )

  -- From `sw` to `sw'` exactly the CIDs of the list, each once, went from the queue to the live
  -- wants.
  pub record Moved (sw sw' : SessionWants Cid Set) (out : List Cid) : Type 0 where
    pub ready : IsReady sw'
    pub distinct : IsDistinct out
    pub from_queue : (d : Cid) → contains d out ≡ true → queued sw d ≡ true
    pub queue_left : (d : Cid) → queued sw' d ≡ (not (contains d out) && queued sw d)
    pub live_now : (d : Cid) → live sw' d ≡ (contains d out || live sw d)

  pop_live-Moved :
      (undef : Cid) (now : ℕ) (sw₀ sw : SessionWants Cid Set) (acc : List Cid)
      → Moved sw₀ sw acc
      → 0 < CidQueue.len sw.to_fetch
      → let (sw', c) = pop_live undef now sw in Moved sw₀ sw' (acc ++ c ∷ [])
  pop_live-Moved undef now sw₀ sw acc m pos =
      let (ready, was, queue_left, live_now, _) = pop_live_lem undef now sw m.ready pos in
      let c = (pop_live undef now sw).1 in
      record {
        ready = ready;
        distinct = IsDistinct-snoc acc c m.distinct (ground (arith, m.queue_left c));
        from_queue = λ d h.
            ground (
              arith,
              contains-append d acc (c ∷ []),
              m.from_queue d,
              m.queue_left d,
              eq_of_same c d,
            );
        queue_left =
            λ d. ground (arith, contains-append d acc (c ∷ []), m.queue_left d, queue_left d);
        live_now = λ d. ground (arith, contains-append d acc (c ∷ []), m.live_now d, live_now d);
      }

  next_wants-Moved :
      (undef : Cid) (now to_add : ℕ) (sw₀ sw : SessionWants Cid Set) (acc : List Cid)
      → Moved sw₀ sw acc
      → let (sw', out) = next_wants undef now to_add sw acc in
        Moved sw₀ sw' out × (length out ≤ length acc + to_add)
  unfolding next_wants
  next_wants-Moved undef now zero sw₀ sw acc m = (m, omega arith)
  next_wants-Moved undef now (suc n) sw₀ sw acc m =
      elim (Bool-cases (ltb 0 (CidQueue.len sw.to_fetch))) [
        | inl more ↦
            let (sw', c) = pop_live undef now sw in
            let (moved, bound) =
              next_wants-Moved undef now n sw₀ sw' (acc ++ c ∷ [])
                (pop_live-Moved undef now sw₀ sw acc m (ground (arith, more))) in
            rw more (moved, omega (arith, bound, length-append {0} acc (c ∷ [])))
        | inr done ↦ rw done (m, omega arith)
      ]

  -- GetNextWants moves exactly the CIDs that it returns, each once, from the queue to the live
  -- wants, and no more of them than the broadcast limit leaves room for.
  pub get_next_wants-Moved :
      (undef : Cid) (now : ℕ) (sw : SessionWants Cid Set)
      → IsReady sw
      → let (sw', out) = get_next_wants undef now sw in
        Moved sw sw' out × (length out ≤ sw.broadcast_limit - length sw.live_wants)
  unfolding get_next_wants
  get_next_wants-Moved undef now sw r =
      let (moved, bound) =
        next_wants-Moved undef now (sw.broadcast_limit - length sw.live_wants) sw sw [] (record {
          ready = r;
          distinct = tt;
          from_queue = λ d h. absurd (cc h);
          queue_left = λ d. refl;
          live_now = λ d. refl;
        }) in
      (moved, omega (arith, bound))

  pub move_all_lem :
      (undef : Cid) (now fuel : ℕ) (sw : SessionWants Cid Set)
      → IsReady sw
      → CidQueue.len sw.to_fetch ≤ fuel
      → let sw' = move_all undef now fuel sw in
        (CidQueue.len sw'.to_fetch ≡ 0)
        × IsReady sw'
        × ((d : Cid) → is_wanted sw' d ≡ is_wanted sw d)
  unfolding move_all
  move_all_lem undef now zero sw r h = (omega arith, r, λ d. refl)
  move_all_lem undef now (suc n) sw r h = elim (Bool-cases (ltb 0 (CidQueue.len sw.to_fetch))) [
    | inl more ↦
        let (ready, was, queue_left, live_now, less) =
          pop_live_lem undef now sw r (ground (arith, more)) in
        let sw' = (pop_live undef now sw).0 in
        let (empty, ready', same_wants) = move_all_lem undef now n sw' ready (omega arith) in
        rw more (
          empty,
          ready',
          λ d. ground (
            arith,
            same_wants d,
            is_wanted_lem sw d,
            is_wanted_lem sw' d,
            queue_left d,
            live_now d,
            eq_of_same (pop_live undef now sw).1 d,
          ),
        )
    | inr done ↦ rw done (ground (arith, done), r, λ d. refl)
  ]

  -- MoveAllWantsLive ends with an empty queue, and every CID that was wanted is live.
  pub move_all_wants_live_lem :
      (undef : Cid) (now : ℕ) (sw : SessionWants Cid Set)
      → IsReady sw
      → let sw' = move_all_wants_live undef now sw in
        (CidQueue.len sw'.to_fetch ≡ 0) × ((d : Cid) → live sw' d ≡ is_wanted sw d)
  unfolding move_all_wants_live
  move_all_wants_live_lem undef now sw r =
      let (empty, ready, same_wants) =
        move_all_lem undef now (CidQueue.len sw.to_fetch) sw r (omega arith) in
      let sw' = move_all undef now (CidQueue.len sw.to_fetch) sw in
      (
        empty,
        λ d. ground (arith, same_wants d, is_wanted_lem sw' d, has_of_empty sw'.to_fetch d empty),
      )
