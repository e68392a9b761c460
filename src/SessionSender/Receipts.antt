-- ===== src/SessionSender/Receipts.antt =====
-- `processUpdates` of bitswap/client/internal/session/sessionwantsender.go adds no want and asks no
-- peer, and what it does to the wants whose blocks arrived.
use boxo.Base.{
  Bool, true, false, ◌||◌, List, [], ◌∷◌, Key, if◌then◌else◌, contains, arith, ◌≡◌, refl, inl, inr,
  Bool-cases, or_default, ◌==◌, eq_of_same,
}
use boxo.Base.Map.{lookup, has_key, lookup-delete}
use boxo.Base.Sets.{SetOps}
use boxo.SessionSender.{Sender, Update, Floats, World, peer_dont_have_limit}
use boxo.SessionSender.Trackers.{have_sent_want_block_to}
use boxo.SessionSender.Infos.{is_sent_to}
use boxo.SessionSender.Wants.{reset_count, update_want_block_presence}
use boxo.SessionSender.Updates.{
  Received, Answers, clear_sent_to, remove_want, stop_waiting, receive_block, receive_blocks,
  receive_all, count_dont_have, receive_dont_have, receive_dont_haves, all_dont_haves, receive_have,
  receive_haves, all_haves, process_updates,
}
use boxo.SessionSender.Less.{
  waits_for, Less, Harmless, Less-refl, Less-trans, modify-Less, if-Less, reset_count-Less,
}
use boxo.SessionSender.Presences.{update_want-Less}

module _ {Peer : Type 0} ⦃pk : Key Peer⦄ where
  clear_sent_to-Harmless : (p : Peer) → Harmless (clear_sent_to p)
  unfolding clear_sent_to is_sent_to
  clear_sent_to-Harmless p = record {
    asks_none = λ q wi h. ground arith;
    keeps_fresh = λ wi h. elim (Bool-cases (is_sent_to p wi)) [
      | inl t ↦ rw (clear_sent_to, t) (record { distinct = h.distinct; is_best = h.is_best })
      | inr t ↦ rw (clear_sent_to, t) h
    ];
  }

module _ {Cid Peer : Type 0} ⦃ck : Key Cid⦄ where
  -- whether the block is in one of the updates
  unfoldable pub arrives : Cid → List (Update Cid Peer) → Bool
  arrives c [] = false
  arrives c (u ∷ us) = contains c u.received || arrives c us

module _ {Cid Peer : Type 0} ⦃ck : Key Cid⦄ ⦃pk : Key Peer⦄ where
  remove_want-Less : (p : Peer) (c : Cid) (s : Sender Cid Peer) → Less s (remove_want p c s)
  unfolding remove_want waits_for
  remove_want-Less p c s =
      if-Less (has_key c s.wants)
        (record {
          calm = record {
            waits = λ k q h. ground (arith, lookup-delete c k s.wants);
            sent = refl;
            proxy_kept = refl;
            fresh = λ h k wi e. h k wi (ground (arith, lookup-delete c k s.wants));
          };
          fewer = λ k h. ground (arith, lookup-delete c k s.wants);
        })
        (Less-refl s)

  stop_waiting-Less : (p : Peer) (c : Cid) (s : Sender Cid Peer) → Less s (stop_waiting p c s)
  unfolding stop_waiting
  stop_waiting-Less p c s =
      if-Less (have_sent_want_block_to s.sent_want_blocks p c)
        (modify-Less c (clear_sent_to p) s (clear_sent_to-Harmless p)) (Less-refl s)

  remove_want-removes :
      (p : Peer) (c : Cid) (s : Sender Cid Peer) → has_key c (remove_want p c s).wants ≡ false
  unfolding remove_want
  remove_want-removes p c s = ground (arith, lookup-delete c c s.wants)

module _ {Cid Peer S : Type 0} ⦃ck : Key Cid⦄ ⦃pk : Key Peer⦄ ⦃sets : SetOps Cid S⦄ where
  receive_block-Less :
      (p : Peer) (c : Cid) (r : Received Cid Peer S) → Less r.sender (receive_block p c r).sender
  unfolding receive_block
  receive_block-Less p c r =
      let s' = remove_want p c r.sender in
      Less-trans r.sender s' (reset_count p s') (remove_want-Less p c r.sender)
        (reset_count-Less p s')

  receive_blocks-Less :
      (p : Peer) (cs : List Cid) (r : Received Cid Peer S)
      → Less r.sender (receive_blocks p cs r).sender
  unfolding receive_blocks
  receive_blocks-Less p [] r = Less-refl r.sender
  receive_blocks-Less p (c ∷ cs) r =
      let r' = receive_block p c r in
      Less-trans r.sender r'.sender (receive_blocks p cs r').sender (receive_block-Less p c r)
        (receive_blocks-Less p cs r')

  receive_all-Less :
      (us : List (Update Cid Peer)) (r : Received Cid Peer S)
      → Less r.sender (receive_all us r).sender
  unfolding receive_all
  receive_all-Less [] r = Less-refl r.sender
  receive_all-Less (u ∷ us) r =
      let r' = receive_blocks u.from u.received r in
      Less-trans r.sender r'.sender (receive_all us r').sender
        (receive_blocks-Less u.from u.received r) (receive_all-Less us r')

  receive_block-removes :
      (p : Peer) (c : Cid) (r : Received Cid Peer S)
      → has_key c (receive_block p c r).sender.wants ≡ false
  unfolding receive_block
  receive_block-removes p c r =
      let s' = remove_want p c r.sender in
      ground (arith, remove_want-removes p c r.sender, (reset_count-Less p s').fewer c)

  receive_blocks-removes :
      (p : Peer) (cs : List Cid) (r : Received Cid Peer S) (c : Cid)
      → contains c cs ≡ true
      → has_key c (receive_blocks p cs r).sender.wants ≡ false
  unfolding receive_blocks
  receive_blocks-removes p [] r c h = cc
  receive_blocks-removes p (k ∷ cs) r c h = ground (
    arith,
    receive_blocks-removes p cs (receive_block p k r) c,
    receive_block-removes p k r,
    (receive_blocks-Less p cs (receive_block p k r)).fewer c,
    eq_of_same k c,
  )

  receive_all-removes :
      (us : List (Update Cid Peer)) (r : Received Cid Peer S) (c : Cid)
      → arrives c us ≡ true
      → has_key c (receive_all us r).sender.wants ≡ false
  unfolding receive_all arrives
  receive_all-removes [] r c h = cc
  receive_all-removes (u ∷ us) r c h = ground (
    arith,
    receive_all-removes us (receive_blocks u.from u.received r) c,
    receive_blocks-removes u.from u.received r c,
    (receive_all-Less us (receive_blocks u.from u.received r)).fewer c,
  )

  count-Less : (p : Peer) (a : Answers Cid Peer S) → Less a.sender (count_dont_have p a).sender
  unfolding count_dont_have waits_for
  count-Less p a =
      elim (Bool-cases
        (or_default 0 (lookup p a.sender.consecutive_dont_haves) == peer_dont_have_limit)) [
          | inl e ↦ rw e (Less-refl a.sender)
          | inr e ↦ rw e (record {
            calm = record { waits = λ c q h. h; sent = refl; proxy_kept = refl; fresh = λ h. h };
            fewer = λ c h. h;
          })
        ]

module _ {Cid Peer S F : Type 0} ⦃ck : Key Cid⦄ ⦃pk : Key Peer⦄ ⦃sets : SetOps Cid S⦄
    ⦃fl : Floats F⦄ where
  receive_dont_have-Less :
      (w : World Cid Peer F) (blocks : S) (p : Peer) (c : Cid) (a : Answers Cid Peer S)
      → Less a.sender (receive_dont_have w blocks p c a).sender
  unfolding receive_dont_have
  receive_dont_have-Less w blocks p c a =
      let s1 = (count_dont_have p a).sender in
      let s2 = update_want_block_presence w c p s1 in
      let l = count-Less p a in
      elim (Bool-cases (sets.has blocks c)) [
        | inl e ↦ rw e l
        | inr e ↦ rw e (
            Less-trans a.sender s1 (stop_waiting p c s2) l (
              Less-trans s1 s2 (stop_waiting p c s2) (update_want-Less w c p s1)
                (stop_waiting-Less p c s2)))
      ]

  receive_dont_haves-Less :
      (w : World Cid Peer F) (blocks : S) (p : Peer) (cs : List Cid) (a : Answers Cid Peer S)
      → Less a.sender (receive_dont_haves w blocks p cs a).sender
  unfolding receive_dont_haves
  receive_dont_haves-Less w blocks p [] a = Less-refl a.sender
  receive_dont_haves-Less w blocks p (c ∷ cs) a =
      let a' = receive_dont_have w blocks p c a in
      Less-trans a.sender a'.sender (receive_dont_haves w blocks p cs a').sender
        (receive_dont_have-Less w blocks p c a) (receive_dont_haves-Less w blocks p cs a')

  all_dont_haves-Less :
      (w : World Cid Peer F) (blocks : S) (us : List (Update Cid Peer)) (a : Answers Cid Peer S)
      → Less a.sender (all_dont_haves w blocks us a).sender
  unfolding all_dont_haves
  all_dont_haves-Less w blocks [] a = Less-refl a.sender
  all_dont_haves-Less w blocks (u ∷ us) a =
      let a' = receive_dont_haves w blocks u.from u.dont_haves a in
      Less-trans a.sender a'.sender (all_dont_haves w blocks us a').sender
        (receive_dont_haves-Less w blocks u.from u.dont_haves a)
        (all_dont_haves-Less w blocks us a')

  receive_have-Less :
      (w : World Cid Peer F) (blocks : S) (p : Peer) (c : Cid) (a : Answers Cid Peer S)
      → Less a.sender (receive_have w blocks p c a).sender
  unfolding receive_have
  receive_have-Less w blocks p c a =
      let s = if sets.has blocks c then a.sender else update_want_block_presence w c p a.sender in
      Less-trans a.sender s (reset_count p s)
        (if-Less (sets.has blocks c) (Less-refl a.sender) (update_want-Less w c p a.sender))
        (reset_count-Less p s)

  receive_haves-Less :
      (w : World Cid Peer F) (blocks : S) (p : Peer) (cs : List Cid) (a : Answers Cid Peer S)
      → Less a.sender (receive_haves w blocks p cs a).sender
  unfolding receive_haves
  receive_haves-Less w blocks p [] a = Less-refl a.sender
  receive_haves-Less w blocks p (c ∷ cs) a =
      let a' = receive_have w blocks p c a in
      Less-trans a.sender a'.sender (receive_haves w blocks p cs a').sender
        (receive_have-Less w blocks p c a) (receive_haves-Less w blocks p cs a')

  all_haves-Less :
      (w : World Cid Peer F) (blocks : S) (us : List (Update Cid Peer)) (a : Answers Cid Peer S)
      → Less a.sender (all_haves w blocks us a).sender
  unfolding all_haves
  all_haves-Less w blocks [] a = Less-refl a.sender
  all_haves-Less w blocks (u ∷ us) a =
      let a' = receive_haves w blocks u.from u.haves a in
      Less-trans a.sender a'.sender (all_haves w blocks us a').sender
        (receive_haves-Less w blocks u.from u.haves a) (all_haves-Less w blocks us a')

module _ {Cid Peer F : Type 0} (S : Type 0) ⦃ck : Key Cid⦄ ⦃pk : Key Peer⦄ ⦃sets : SetOps Cid S⦄
    ⦃fl : Floats F⦄ where
  -- the three loops: a sender without the wants whose blocks arrived
  pub process_updates_lem :
      (w : World Cid Peer F) (us : List (Update Cid Peer)) (s : Sender Cid Peer)
      → Less s (process_updates S w us s).0
        × ((c : Cid) → arrives c us ≡ true → has_key c (process_updates S w us s).0.wants ≡ false)
  unfolding process_updates
  process_updates_lem w us s =
      let r0 : Received Cid Peer S = record { sender = s; blocks = sets.empty; effects = [] } in
      let r = receive_all us r0 in
      let a0 : Answers Cid Peer S = record {
        sender = r.sender;
        dont_haves = sets.empty;
        prune_peers = [];
      } in
      let a1 = all_dont_haves w r.blocks us a0 in
      let a2 = all_haves w r.blocks us a1 in
      let l = receive_all-Less us r0 in
      let l' =
        Less-trans r.sender a1.sender a2.sender (all_dont_haves-Less w r.blocks us a0)
          (all_haves-Less w r.blocks us a1) in
      (
        Less-trans s r.sender a2.sender l l',
        λ c h. ground (arith, receive_all-removes us r0 c h, l'.fewer c),
      )
