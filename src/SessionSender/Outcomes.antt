-- ===== src/SessionSender/Outcomes.antt =====
-- What the event loop of bitswap/client/internal/session/sessionwantsender.go guarantees after any
-- changes. `S` is cid.Set, and `undef` the zero value of cid.Cid.
use boxo.Base.{
  Bool, true, false, ◌||◌, some, List, [], ◌∷◌, ◌++◌, Key, is_some, arith, ◌≡◌, refl, ap, subst,
  inl, inr, ◌⊎◌, Bool-cases, Option-cases, ◌∙◌, is_some,
}
use boxo.Base.Map.{lookup, has_key}
use boxo.Base.Sets.{SetOps}
use boxo.SessionPeers
use boxo.SessionPeers.{has_peers}
use boxo.SessionSender.{WantInfo, Sender, Effect, Change, Floats, World}
use boxo.SessionSender.Trackers.{have_sent_want_block_to}
use boxo.SessionSender.Best.{IsBest}
use boxo.SessionSender.Infos.{rank, presence_of}
use boxo.SessionSender.Wants.{Moves, process_availability}
use boxo.SessionSender.Updates.{process_updates}
use boxo.SessionSender.Exhaustion.{check_for_exhausted_wants}
use boxo.SessionSender.Sending.{send_next_wants}
use boxo.SessionSender.Changes.{Batch, new, apply_changes, process_changes, on_change}
use boxo.SessionSender.Less.{waits_for, Calm, AllFresh, Calm-trans, Less-trans}
use boxo.SessionSender.Presences.{process_availability-Less}
use boxo.SessionSender.Receipts.{process_updates_lem}
use boxo.SessionSender.Recorded.{
  asks, asks-append, IsRecorded, Calm-IsRecorded, send_next_wants_lem,
}
use boxo.SessionSender.Served.{
  is_served, send_next_wants-has_key, send_next_wants-is_served, send_next_wants-AllFresh,
}
use boxo.SessionSender.History.{apply_changes-Calm, apply_changes-updates, check_for-Less, receives}

module _ {Cid Peer : Type 0} ⦃ck : Key Cid⦄ ⦃pk : Key Peer⦄ where
  -- What onChange keeps and what it achieves.
  record Handles (s s' : Sender Cid Peer) (chs : List (Change Cid Peer))
      (es : List (Effect Cid Peer)) : Type 0 where
    pub recorded : IsRecorded s → IsRecorded s'
    pub asked :
        IsRecorded s
        → (c : Cid) (p : Peer) → have_sent_want_block_to s'.sent_want_blocks p c ≡ true
        → (have_sent_want_block_to s.sent_want_blocks p c || asks c p es) ≡ true
    pub removed : (c : Cid) → receives c chs ≡ true → has_key c s'.wants ≡ false
    pub fresh : AllFresh s → AllFresh s'

module _ {Cid Peer F : Type 0} (S : Type 0) ⦃ck : Key Cid⦄ ⦃pk : Key Peer⦄ ⦃sets : SetOps Cid S⦄
    ⦃fl : Floats F⦄ where
  process_changes_lem :
      (undef : Cid) (w : World Cid Peer F) (chs : List (Change Cid Peer)) (s : Sender Cid Peer)
      → Calm s (process_changes S undef w chs s).0
        × ((c : Cid)
            → receives c chs ≡ true
            → has_key c (process_changes S undef w chs s).0.wants ≡ false)
  unfolding process_changes
  process_changes_lem undef w chs s =
      let b0 : Batch Cid Peer = record {
        sender = s;
        available = [];
        cancels = [];
        updates = [];
        effects = [];
      } in
      let b = apply_changes w chs b0 in
      let t0 : Moves Cid Peer = record {
        sender = b.sender;
        newly_available = [];
        newly_unavailable = [];
        effects = [];
      } in
      let t = process_availability w b.available t0 in
      let (s1, dont_haves, es1) = process_updates S w b.updates t.sender in
      let (l, gone) = process_updates_lem S w b.updates t.sender in
      let last = check_for-Less undef w dont_haves t.newly_unavailable s1 in
      let s2 = (check_for_exhausted_wants undef w dont_haves t.newly_unavailable s1).0 in
      let l2 =
        Less-trans t0.sender t.sender s2 (process_availability-Less w b.available t0)
          (Less-trans t.sender s1 s2 l last) in
      (
        Calm-trans s b.sender s2 (apply_changes-Calm w chs b0) l2.calm,
        λ c h. ground (arith, last.fewer c, gone c, apply_changes-updates w chs b0 c),
      )

module _ {Cid Peer : Type 0} ⦃ck : Key Cid⦄ ⦃pk : Key Peer⦄ where
  Handles-quiet :
      (chs : List (Change Cid Peer)) (s s1 : Sender Cid Peer) (es : List (Effect Cid Peer))
      → Calm s s1
      → ((c : Cid) → receives c chs ≡ true → has_key c s1.wants ≡ false)
      → Handles s s1 chs es
  Handles-quiet chs s s1 es l gone = record {
    recorded = Calm-IsRecorded s s1 l;
    asked = λ h c p a.
        let before = ap (λ m. have_sent_want_block_to m p c) l.sent in ground (arith, before);
    removed = gone;
    fresh = l.fresh;
  }

module _ {Cid Peer : Type 0} (S : Type 0) ⦃ck : Key Cid⦄ ⦃pk : Key Peer⦄ ⦃sets : SetOps Cid S⦄ where
  Handles-send :
      (newly : List Peer) (chs : List (Change Cid Peer)) (s s1 : Sender Cid Peer)
      (es : List (Effect Cid Peer))
      → Calm s s1
      → ((c : Cid) → receives c chs ≡ true → has_key c s1.wants ≡ false)
      → Handles s (send_next_wants S newly s1).0 chs (es ++ (send_next_wants S newly s1).1)
  Handles-send newly chs s s1 es l gone = record {
    recorded = λ h. (send_next_wants_lem S newly s1 (Calm-IsRecorded s s1 l h)).0;
    asked = λ h c p a.
        let sent = (send_next_wants_lem S newly s1 (Calm-IsRecorded s s1 l h)).1 c p in
        let before = ap (λ m. have_sent_want_block_to m p c) l.sent in
        ground (arith, sent, before, asks-append c p es (send_next_wants S newly s1).1);
    removed = λ c h. send_next_wants-has_key S newly s1 c ∙ gone c h;
    fresh = λ h. send_next_wants-AllFresh S newly s1 (l.fresh h);
  }

module _ {Cid Peer : Type 0} ⦃ck : Key Cid⦄ ⦃pk : Key Peer⦄ where
  new-IsRecorded :
      (spm : SessionPeers.Manager Peer) (proxy : Bool) → IsRecorded {Cid = Cid} (new spm proxy)
  unfolding new waits_for lookup
  new-IsRecorded spm proxy c p h = cc

  none_sent :
      (spm : SessionPeers.Manager Peer) (proxy : Bool) (c : Cid) (p : Peer)
      → have_sent_want_block_to {Cid = Cid} (new {Cid = Cid} spm proxy).sent_want_blocks p c ≡ false
  unfolding new have_sent_want_block_to lookup
  none_sent spm proxy c p = refl

  settled :
      (s : Sender Cid Peer) (c : Cid) (wi : WantInfo Peer)
      → AllFresh s
      → is_served c s ≡ true
      → lookup c s.wants ≡ some wi
      → (is_some wi.sent_to ≡ true) ⊎ ((q : Peer) → rank (presence_of q wi.block_presence) ≡ 0)
  unfolding is_served
  settled s c wi h v e = elim (Option-cases wi.best_peer) [
    | inl n ↦ inr (subst (IsBest wi.block_presence) n (h c wi e).is_best)
    | inr (p, b) ↦ inl (ground arith)
  ]

module _ {Cid Peer F : Type 0} (S : Type 0) ⦃ck : Key Cid⦄ ⦃pk : Key Peer⦄ ⦃sets : SetOps Cid S⦄
    ⦃fl : Floats F⦄ where
  on_change-Handles :
      (undef : Cid) (w : World Cid Peer F) (chs : List (Change Cid Peer)) (s : Sender Cid Peer)
      → Handles s (on_change S undef w chs s).0 chs (on_change S undef w chs s).1
  unfolding on_change
  on_change-Handles undef w chs s =
      let (s1, newly, es) = process_changes S undef w chs s in
      let (l, gone) = process_changes_lem S undef w chs s in
      elim (Bool-cases (has_peers s1.peers)) [
        | inl e ↦ rw (on_change, e) (Handles-send S newly chs s s1 es l gone)
        | inr e ↦ rw (on_change, e) (Handles-quiet chs s s1 es l gone)
      ]

  -- the state after some calls of onChange, and what was told in them
  unfoldable pub run :
      Cid
      → List (World Cid Peer F × List (Change Cid Peer))
      → Sender Cid Peer
      → Sender Cid Peer × List (Effect Cid Peer)
  unfolding on_change
  run undef [] s = (s, [])
  run undef ((w, chs) ∷ rest) s =
      let (s1, es1) = on_change S undef w chs s in
      let (s2, es2) = run undef rest s1 in (s2, es1 ++ es2)

  run-IsRecorded :
      (undef : Cid) (rest : List (World Cid Peer F × List (Change Cid Peer))) (s : Sender Cid Peer)
      → IsRecorded s
      → IsRecorded (run undef rest s).0
        × ((c : Cid) (p : Peer)
            → have_sent_want_block_to (run undef rest s).0.sent_want_blocks p c ≡ true
            → (have_sent_want_block_to s.sent_want_blocks p c || asks c p (run undef rest s).1)
              ≡ true)
  unfolding run
  run-IsRecorded undef [] s h = (h, λ c p a. ground arith)
  run-IsRecorded undef ((w, chs) ∷ rest) s h =
      let (s1, es1) = on_change S undef w chs s in
      let k = on_change-Handles undef w chs s in
      let (r, a) = run-IsRecorded undef rest s1 (k.recorded h) in
      (
        r,
        λ c p e. ground (arith, a c p e, k.asked h c p, asks-append c p es1 (run undef rest s1).1),
      )

  -- After any changes to a new sender, a want waits for the answer of a peer only if a want-block for it
  -- was sent to that peer.
  pub run-IsAsked :
      (undef : Cid) (rest : List (World Cid Peer F × List (Change Cid Peer)))
      (spm : SessionPeers.Manager Peer) (proxy : Bool) (c : Cid) (p : Peer)
      → waits_for c p (run undef rest (new spm proxy)).0 ≡ true
      → asks c p (run undef rest (new spm proxy)).1 ≡ true
  run-IsAsked undef rest spm proxy c p h =
      let (r, a) = run-IsRecorded undef rest (new spm proxy) (new-IsRecorded spm proxy) in
      ground (arith, a c p (r c p h), none_sent spm proxy c p)

  -- If for each want the best peer is one with the best block presence of the want, and there is none
  -- only if no peer of the want is above DONT_HAVE, then this holds after any changes too.
  pub run-AllFresh :
      (undef : Cid) (rest : List (World Cid Peer F × List (Change Cid Peer))) (s : Sender Cid Peer)
      → AllFresh s
      → AllFresh (run undef rest s).0
  unfolding run
  run-AllFresh undef [] s h = h
  run-AllFresh undef ((w, chs) ∷ rest) s h =
      run-AllFresh undef rest (on_change S undef w chs s).0
        ((on_change-Handles undef w chs s).fresh h)

  -- After a change, the blocks that arrived with it are no longer wanted.
  pub on_change-has_key :
      (undef : Cid) (w : World Cid Peer F) (chs : List (Change Cid Peer)) (s : Sender Cid Peer)
      (c : Cid)
      → receives c chs ≡ true
      → has_key c (on_change S undef w chs s).0.wants ≡ false
  on_change-has_key undef w chs s c h = (on_change-Handles undef w chs s).removed c h

  on_change-is_served :
      (undef : Cid) (w : World Cid Peer F) (chs : List (Change Cid Peer)) (s : Sender Cid Peer)
      (c : Cid)
      → s.proxy ≡ false
      → has_peers (on_change S undef w chs s).0.peers ≡ true
      → is_served c (on_change S undef w chs s).0 ≡ true
  unfolding on_change
  on_change-is_served undef w chs s c f =
      let (s1, newly, es) = process_changes S undef w chs s in
      let (l, gone) = process_changes_lem S undef w chs s in
      elim (Bool-cases (has_peers s1.peers)) [
        | inl e ↦
            rw (on_change, e) (λ peers. send_next_wants-is_served S newly s1 c (l.proxy_kept ∙ f))
        | inr e ↦ rw (on_change, e) (λ peers. cc)
      ]

  -- If the best peer of each want of a requestor session is one with the best block presence, none only
  -- if no peer is above DONT_HAVE, and the session has peers after a change, then after it each want
  -- waits for the answer of a peer, or no peer of the want is above DONT_HAVE.
  pub on_change-Settles :
      (undef : Cid) (w : World Cid Peer F) (chs : List (Change Cid Peer)) (s : Sender Cid Peer)
      → AllFresh s
      → s.proxy ≡ false
      → has_peers (on_change S undef w chs s).0.peers ≡ true
      → (c : Cid) (wi : WantInfo Peer) → lookup c (on_change S undef w chs s).0.wants ≡ some wi
      → (is_some wi.sent_to ≡ true) ⊎ ((q : Peer) → rank (presence_of q wi.block_presence) ≡ 0)
  on_change-Settles undef w chs s h f peers c wi e =
      settled (on_change S undef w chs s).0 c wi ((on_change-Handles undef w chs s).fresh h)
        (on_change-is_served undef w chs s c f peers) e
